-- ===== src/Sort/Least.antt =====
-- The inner loop of `selection_sort` finds a least element.
use mathlib.Core.Path.{subst}
use isam_db_c_language.Base.{
  ℕ, suc, ◌+◌, ◌≡◌, refl, ap, sym, ◌∙◌, arith, Bool, false, List, [], ◌∷◌, ◌++◌, ok, Outcome,
  length, length-append, append_assoc, append-nil, Bool-cases, inl, inr, get_elem?, some,
  if◌then◌else◌,
}
use isam_db_c_language.Bst.{Order}
use isam_db_c_language.Sort.{min_loop}
use isam_db_c_language.Sort.Swap.{count, count-append, get_elem?-middle}
use isam_db_c_language.Sort.Quick.{count-none_less}

module _ (o : Order) where
  -- No element is less.
  abbrev pub Least : o.Value → List o.Value → Type 0
  Least m xs = count (λ y. o.less y m) xs ≡ 0

  -- The inner loop finds a least element of the part after `pre`, and its place.
  abbrev pub Finds : Outcome ℕ → List o.Value → List o.Value → Type 0
  Finds run pre part =
      (l r : List o.Value) × (m : o.Value) × (part ≡ l ++ m ∷ r)
      × (run ≡ ok (length pre + length l))
      × Least m part

  Least-snoc :
      (m x : o.Value) (xs : List o.Value) → Least m xs → o.less x m ≡ false → Least m (xs ++ x ∷ [])
  unfolding count
  Least-snoc m x xs h e = count-append (λ y. o.less y m) xs (x ∷ []) ∙ rw (h, e) refl

  -- One round.
  min_loop-suc :
      (n : ℕ) (array : List o.Value) (min j : ℕ) (x m : o.Value)
      → get_elem? array j ≡ some x
      → get_elem? array min ≡ some m
      → min_loop o (suc n) array min j ≡ min_loop o n array (if o.less x m then j else min) (j + 1)
  unfolding min_loop
  min_loop-suc n array min j x m e e' = rw (min_loop, e, e') refl

  split :
      (pre l r todo : List o.Value) (m : o.Value)
      → pre ++ ((l ++ m ∷ r) ++ todo) ≡ pre ++ l ++ m ∷ (r ++ todo)
  split pre l r todo m = simp append_assoc

  Finds-subst :
      (run run' : Outcome ℕ) (pre part part' : List o.Value)
      → run ≡ run'
      → part ≡ part'
      → Finds run pre part
      → Finds run' pre part'
  Finds-subst run run' pre part part' e e' f =
      subst (λ (d : List o.Value). Finds run' pre d) e'
        (subst (λ (d : Outcome ℕ). Finds d pre part) e f)

  pub min_loop-Finds :
      (pre l r : List o.Value) (m : o.Value) (todo : List o.Value) (array : List o.Value)
      (min j : ℕ)
      → array ≡ pre ++ ((l ++ m ∷ r) ++ todo)
      → min ≡ length pre + length l
      → j ≡ length pre + length (l ++ m ∷ r)
      → Least m (l ++ m ∷ r)
      → Finds (min_loop o (length todo) array min j) pre ((l ++ m ∷ r) ++ todo)
  unfolding min_loop
  min_loop-Finds pre l r m [] array min j is here there least = (
    l,
    r,
    m,
    append-nil _,
    ap ok here,
    ap (count (λ y. o.less y m)) (append-nil (l ++ m ∷ r)) ∙ least,
  )
  min_loop-Finds pre l r m (x ∷ todo) array min j is here there least =
      let seg = l ++ m ∷ r in
      let part = seg ++ x ∷ todo in
      let n = length todo in
      let at_j : get_elem? array j ≡ some x =
        ap (λ (a : List o.Value). get_elem? a j) (is ∙ sym (append_assoc pre seg (x ∷ todo)))
        ∙ get_elem?-middle (pre ++ seg) todo x j (there ∙ sym (length-append pre seg)) in
      let at_min : get_elem? array min ≡ some m =
        ap (λ (a : List o.Value). get_elem? a min) (is ∙ split pre l r (x ∷ todo) m)
        ∙ get_elem?-middle (pre ++ l) (r ++ x ∷ todo) m min (here ∙ sym (length-append pre l)) in
      let run = min_loop-suc n array min j x m at_j at_min in
      elim (Bool-cases (o.less x m)) [
        | inl e ↦
            let whole : (seg ++ x ∷ []) ++ todo ≡ part = append_assoc seg (x ∷ []) todo in
            Finds-subst _ _ pre _ part
              (sym (run ∙ ap (λ (b : Bool). min_loop o n array (if b then j else min) (j + 1)) e))
              whole
              (min_loop-Finds pre seg [] x todo array j (j + 1) (is ∙ ap (◌++◌ pre) (sym whole))
                there (omega (arith, there, length-append seg (x ∷ [])))
                (Least-snoc x x seg (count-none_less o x m seg e least) (o.less_irrefl x)))
        | inr e ↦
            let longer : seg ++ x ∷ [] ≡ l ++ m ∷ (r ++ x ∷ []) = append_assoc l (m ∷ r) (x ∷ []) in
            let whole : (l ++ m ∷ (r ++ x ∷ [])) ++ todo ≡ part =
              ap (λ (s : List o.Value). s ++ todo) (sym longer) ∙ append_assoc seg (x ∷ []) todo in
            Finds-subst _ _ pre _ part
              (sym (run ∙ ap (λ (b : Bool). min_loop o n array (if b then j else min) (j + 1)) e))
              whole
              (min_loop-Finds pre l (r ++ x ∷ []) m todo array min (j + 1)
                (is ∙ ap (◌++◌ pre) (sym whole)) here
                (omega (arith, there, length-append seg (x ∷ []), ap length longer))
                (subst (Least m) longer (Least-snoc m x seg least e)))
      ]
