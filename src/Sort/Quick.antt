-- ===== src/Sort/Quick.antt =====
-- `quick_sort` sorts a part of the array and leaves the rest.
use isam_db_c_language.Base.{
  ℕ, zero, suc, ◌+◌, ◌-◌, ◌≤◌, ◌≡◌, refl, ap, sym, ◌∙◌, arith, Bool, true, false, not, List, [],
  ◌∷◌, ◌++◌, ok, Outcome, Returns, ◌>>=◌, length, length-append, append_assoc, append-nil,
  Bool-cases, inl, inr, leb,
}
use isam_db_c_language.Bst.{Order}
use isam_db_c_language.Bst.Insert.{less_asym}
use isam_db_c_language.Sort.{pivot, quick_sort}
use isam_db_c_language.Sort.Swap.{count, count-append}
use isam_db_c_language.Sort.Pivot.{Split, pivot_lem}

module _ (o : Order) where
  -- No element is less than one before it.
  abbrev pub IsSorted : List o.Value → Type 0
  IsSorted [] = Unit
  IsSorted (x ∷ xs) = (count (λ y. o.less y x) xs ≡ 0) × IsSorted xs

  -- The same elements in order.
  pub record Sorts (before after : List o.Value) : Type 0 where
    pub sorted : IsSorted after
    pub same : (q : o.Value → Bool) → count q after ≡ count q before
    pub size : length after ≡ length before

  pub count-none_less :
      (a x : o.Value) (xs : List o.Value)
      → o.less a x ≡ true
      → count (λ y. o.less y x) xs ≡ 0
      → count (λ y. o.less y a) xs ≡ 0
  unfolding count
  count-none_less a x [] h k = refl
  count-none_less a x (y ∷ xs) h k =
      let rest : count (λ y. o.less y a) xs ≡ 0 = count-none_less a x xs h (omega (arith, k)) in
      elim (Bool-cases (o.less y a)) [
        | inl e ↦ absurd (ground (arith, o.less_trans y a x e h, k))
        | inr e ↦ rw (e, rest) refl
      ]

  less-not : (x a : o.Value) → o.less a x ≡ true → o.less x a ≡ false
  less-not x a h = less_asym o a x h

  head_Below :
      (a x : o.Value) (lows : List o.Value)
      → count (λ y. not (o.less y x)) (a ∷ lows) ≡ 0
      → (o.less a x ≡ true) × (count (λ y. not (o.less y x)) lows ≡ 0)
  unfolding count
  head_Below a x lows h = elim (Bool-cases (o.less a x)) [
    | inl e ↦ (e, omega (arith, h))
    | inr e ↦ absurd (ground (arith, h, e))
  ]

  sum_zero :
      (a x : o.Value) (lows highs : List o.Value)
      → count (λ y. o.less y a) lows ≡ 0
      → o.less x a ≡ false
      → count (λ y. o.less y a) highs ≡ 0
      → count (λ y. o.less y a) lows + count (λ y. o.less y a) (x ∷ highs) ≡ 0
  unfolding count
  sum_zero a x lows highs h e k = rw (h, e, k) refl

  IsSorted-append :
      (lows highs : List o.Value) (x : o.Value)
      → IsSorted lows
      → IsSorted highs
      → count (λ y. not (o.less y x)) lows ≡ 0
      → count (λ y. o.less y x) highs ≡ 0
      → IsSorted (lows ++ x ∷ highs)
  IsSorted-append [] highs x s t h k = (k, t)
  IsSorted-append (a ∷ lows) highs x s t h k =
      let (low, rest) = head_Below a x lows h in
      (
        count-append _ lows (x ∷ highs)
            ∙ sum_zero a x lows highs s.0 (less-not x a low) (count-none_less a x highs low k),
        IsSorted-append lows highs x s.1 t rest k,
      )

  Sorts-join :
      (pre : List o.Value) (x : o.Value) (todo lows highs lows' highs' : List o.Value)
      → Split o pre x todo lows highs
      → Sorts lows lows'
      → Sorts highs highs'
      → Sorts (x ∷ todo) (lows' ++ x ∷ highs')
  Sorts-join pre x todo lows highs lows' highs' h s t = record {
    sorted =
        IsSorted-append lows' highs' x s.sorted t.sorted (s.same _ ∙ h.below) (t.same _ ∙ h.above);
    same = λ q.
        count-append q lows' (x ∷ highs')
        ∙ unfold count in omega (arith, h.same q, s.same q, t.same q);
    size = omega (arith, length-append lows' (x ∷ highs'), h.size, s.size, t.size);
  }

  quick_sort-more :
      (n : ℕ) (a : List o.Value) (left right : ℕ)
      → leb right left ≡ false
      → quick_sort o (suc n) a left right ≡ (
          pivot o a left right >>= λ r.
          quick_sort o n r.0 left (r.1 - 1) >>= λ b. quick_sort o n b (r.1 + 1) right)
  unfolding quick_sort
  quick_sort-more n a left right h = rw h refl

  quick_sort-done :
      (n : ℕ) (a : List o.Value) (left right : ℕ)
      → leb right left ≡ true
      → quick_sort o (suc n) a left right ≡ ok a
  unfolding quick_sort
  quick_sort-done n a left right h = rw h refl

  -- A run on the part `seg` that sorts it and leaves the rest.
  abbrev pub SortsPart : ℕ → List o.Value → List o.Value → List o.Value → Type 0
  SortsPart n pre seg post =
      (seg' : List o.Value) × (quick_sort o n (pre ++ (seg ++ post)) (length pre)
          (length pre + length seg - 1)
        ≡ ok (pre ++ (seg' ++ post)))
      × Sorts seg seg'

  join :
      (n : ℕ) (pre : List o.Value) (x y : o.Value) (todo post : List o.Value)
      → ((pre seg post : List o.Value) → length seg ≤ length (y ∷ todo) → SortsPart n pre seg post)
      → SortsPart (suc n) pre (x ∷ y ∷ todo) post
  join n pre x y todo post sort =
      let (lows, highs, run, h) = pivot_lem o pre x (y ∷ todo) post in
      let (lows', run₁, s) = sort pre lows (x ∷ (highs ++ post)) (omega (arith, h.size)) in
      let (highs', run₂, t) = sort (pre ++ (lows' ++ x ∷ [])) highs post (omega (arith, h.size)) in
      let more : leb (length pre + length (x ∷ y ∷ todo) - 1) (length pre) ≡ false = ground arith in
      let end : length pre + length (x ∷ y ∷ todo) - 1 ≡ length pre + length (y ∷ todo) =
        omega arith in
      let start : length pre + length lows + 1 ≡ length (pre ++ (lows' ++ x ∷ [])) =
        omega (arith, length-append pre (lows' ++ x ∷ []), length-append lows' (x ∷ []), s.size) in
      let right : length pre + length (y ∷ todo)
          ≡ length (pre ++ (lows' ++ x ∷ [])) + length highs - 1 =
        omega (arith, start, h.size) in
      let regroup : pre ++ (lows' ++ (x ∷ (highs ++ post)))
          ≡ pre ++ (lows' ++ x ∷ []) ++ (highs ++ post) =
        simp append_assoc in
      let back : pre ++ (lows' ++ x ∷ []) ++ (highs' ++ post)
          ≡ pre ++ ((lows' ++ x ∷ highs') ++ post) =
        simp append_assoc in
      (
        lows' ++ x ∷ highs',
        quick_sort-more n _ (length pre) _ more
            ∙ ap
                (λ (e : ℕ). pivot o (pre ++ (x ∷ (y ∷ todo ++ post))) (length pre) e >>= λ r.
                  quick_sort o n r.0 (length pre) (r.1 - 1) >>= λ b. quick_sort o n b (r.1 + 1) e)
                end
            ∙ ap
                (λ (m : Outcome (List o.Value × ℕ)). m >>= λ r.
                  quick_sort o n r.0 (length pre) (r.1 - 1) >>= λ b.
                  quick_sort o n b (r.1 + 1) (length pre + length (y ∷ todo)))
                run
            ∙ ap
                (λ (m : Outcome (List o.Value)). m >>= λ b.
                  quick_sort o n b (length pre + length lows + 1) (length pre + length (y ∷ todo)))
                run₁
            ∙ (λ j. quick_sort o n (regroup j) (start j) (right j))
            ∙ run₂
            ∙ ap ok back,
        Sorts-join pre x (y ∷ todo) lows highs lows' highs' h s t,
      )

  sort_part :
      (n : ℕ) (pre seg post : List o.Value) → length seg ≤ n → SortsPart (suc n) pre seg post
  sort_part n pre [] post h = (
    [],
    quick_sort-done n _ _ _ (ground arith),
    record { sorted = tt; same = λ q. refl; size = refl },
  )
  sort_part n pre (x ∷ []) post h = (
    x ∷ [],
    quick_sort-done n _ _ _ (ground arith),
    record { sorted = (unfold count in refl, tt); same = λ q. refl; size = refl },
  )
  sort_part zero pre (x ∷ y ∷ todo) post h = absurd (omega arith)
  sort_part (suc n) pre (x ∷ y ∷ todo) post h =
      join (suc n) pre x y todo post (λ p seg q k. sort_part n p seg q (omega arith))

  -- `quick_sort` of a whole array, with fuel one more than its length, is defined, and its result
  -- has the same elements in order.
  pub quick_sort-Sorts :
      (array : List o.Value)
      → Returns (quick_sort o (suc (length array)) array 0 (length array - 1)) (Sorts array)
  quick_sort-Sorts array =
      let (sorted, run, s) = sort_part (length array) [] array [] (omega arith) in
      (sorted, whole array sorted run, s)
    where
      whole :
          (a b : List o.Value)
          → quick_sort o (suc (length a)) (a ++ []) 0 (0 + length a - 1) ≡ ok (b ++ [])
          → quick_sort o (suc (length a)) a 0 (length a - 1) ≡ ok b
      whole a b e =
          (λ j. quick_sort o (suc (length a)) (sym (append-nil a) j) 0 (plus a j))
          ∙ e
          ∙ ap ok (append-nil b)
        where
          plus : (a : List o.Value) → length a - 1 ≡ 0 + length a - 1
          plus a = omega arith
