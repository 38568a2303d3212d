-- ===== src/Sort/Selection.antt =====
-- `selection_sort` sorts a whole array.
use mathlib.Core.Path.{subst}
use isam_db_c_language.Base.{
  ℕ, zero, suc, ◌+◌, ◌-◌, ◌≡◌, refl, ap, sym, ◌∙◌, arith, Bool, List, [], ◌∷◌, ◌++◌, ok, Outcome,
  Returns, ◌>>=◌, length, length-append, append_assoc,
}
use isam_db_c_language.Bst.{Order}
use isam_db_c_language.Sort.{swap, min_loop, select_loop, selection_sort}
use isam_db_c_language.Sort.Swap.{count, count-append, swap-same, swap-back}
use isam_db_c_language.Sort.Least.{Least, min_loop-Finds}
use isam_db_c_language.Sort.Quick.{Sorts}

module _ (o : Order) where
  -- The part after `pre` sorted.
  abbrev SelectsPart : ℕ → List o.Value → List o.Value → Type 0
  SelectsPart n pre seg =
      (sorted : List o.Value) × (select_loop o n (pre ++ seg) (length pre) (length pre + n)
        ≡ ok (pre ++ sorted))
      × Sorts o seg sorted

  -- A least element and the others, after the swap.
  abbrev Swapped : List o.Value → List o.Value → ℕ → o.Value → Type 0
  Swapped pre seg i m =
      (others : List o.Value) × (swap (pre ++ seg) i (length pre) ≡ ok (pre ++ m ∷ others))
      × ((q : o.Value → Bool) → count q (m ∷ others) ≡ count q seg)
      × (suc (length others) ≡ length seg)

  swap-Swapped :
      (pre l r : List o.Value) (m : o.Value) → Swapped pre (l ++ m ∷ r) (length pre + length l) m
  unfolding count
  swap-Swapped pre [] r m =
      (r, swap-same pre r m (length pre + 0) (length pre) (omega arith) refl, λ q. refl, refl)
  swap-Swapped pre (y ∷ l) r m = (
    l ++ y ∷ r,
    swap-back pre l r y m (length pre) (length pre + suc (length l)) refl (omega arith),
    (λ q. omega (arith, count-append q l (y ∷ r), count-append q l (m ∷ r))),
    omega (arith, length-append l (y ∷ r), length-append l (m ∷ r)),
  )

  Sorts-Least :
      (seg others sorted : List o.Value) (m : o.Value)
      → Least o m seg
      → ((q : o.Value → Bool) → count q (m ∷ others) ≡ count q seg)
      → suc (length others) ≡ length seg
      → Sorts o others sorted
      → Sorts o seg (m ∷ sorted)
  unfolding count
  Sorts-Least seg others sorted m least same size s = record {
    sorted = (omega (arith, s.same (λ y. o.less y m), same (λ y. o.less y m), least), s.sorted);
    same = λ q. omega (arith, s.same q, same q);
    size = omega (arith, s.size, size);
  }

  -- One round of the outer loop, and the rounds after it.
  select_round :
      (n : ℕ) (pre seg others : List o.Value) (m : o.Value) (i : ℕ)
      → length seg ≡ suc (suc n)
      → min_loop o (suc n) (pre ++ seg) (length pre) (length pre + 1) ≡ ok i
      → Least o m seg
      → swap (pre ++ seg) i (length pre) ≡ ok (pre ++ m ∷ others)
      → ((q : o.Value → Bool) → count q (m ∷ others) ≡ count q seg)
      → suc (length others) ≡ length seg
      → SelectsPart n (pre ++ m ∷ []) others
      → SelectsPart (suc n) pre seg
  unfolding select_loop
  select_round n pre seg others m i h found least swapped same size (sorted, run, s) =
      let p = length pre in
      let rounds : p + suc n - p ≡ suc n = omega arith in
      let here : length (pre ++ m ∷ []) ≡ p + 1 = length-append pre (m ∷ []) in
      let last : length (pre ++ m ∷ []) + n ≡ p + suc n = omega (arith, here) in
      let rest = λ (a : List o.Value). select_loop o n a (p + 1) (p + suc n) in
      (
        m ∷ sorted,
        ap (λ (k : ℕ). min_loop o k (pre ++ seg) p (p + 1) >>= λ j. swap (pre ++ seg) j p >>= rest)
              rounds
            ∙ ap (λ (r : Outcome ℕ). r >>= λ j. swap (pre ++ seg) j p >>= rest) found
            ∙ ap (λ (r : Outcome (List o.Value)). r >>= rest) swapped
            ∙ (λ j.
                select_loop o n (sym (append_assoc pre (m ∷ []) others) j) (sym here j)
                  (sym last j))
            ∙ run
            ∙ ap ok (append_assoc pre (m ∷ []) sorted),
        Sorts-Least seg others sorted m least same size s,
      )

  select_part : (n : ℕ) (pre seg : List o.Value) → length seg ≡ suc n → SelectsPart n pre seg
  unfolding select_loop
  select_part n pre [] h = absurd (omega (arith, h))
  select_part zero pre (x ∷ []) h =
      (x ∷ [], refl, record { sorted = (unfold count in refl, tt); same = λ q. refl; size = refl })
  select_part zero pre (x ∷ y ∷ todo) h = absurd (omega (arith, h))
  select_part (suc n) pre (x ∷ todo) h =
      let p = length pre in
      let (l, r, m, whole, run, least) =
        min_loop-Finds o pre [] [] x todo (pre ++ x ∷ todo) p (p + 1) refl (omega arith) refl
          (unfold count in rw (o.less_irrefl x) refl) in
      let (others, swapped, same, size) =
        subst (λ (d : List o.Value). Swapped pre d (p + length l) m) (sym whole)
          (swap-Swapped pre l r m) in
      let todo_length : length todo ≡ suc n = omega (arith, h) in
      select_round n pre (x ∷ todo) others m (p + length l) h
        (ap (λ (k : ℕ). min_loop o k (pre ++ x ∷ todo) p (p + 1)) (sym todo_length) ∙ run) least
        swapped same size (select_part n (pre ++ m ∷ []) others (omega (arith, size, h)))

  -- `selection_sort` of a whole array is defined, and its result has the same elements in order.
  pub selection_sort-Sorts :
      (array : List o.Value) → Returns (selection_sort o array 0 (length array - 1)) (Sorts o array)
  unfolding selection_sort select_loop
  selection_sort-Sorts [] = ([], refl, record { sorted = tt; same = λ q. refl; size = refl })
  selection_sort-Sorts (x ∷ xs) =
      let n = length xs in
      let (sorted, run, s) = select_part n [] (x ∷ xs) refl in
      let last : suc n - 1 - 0 ≡ n = omega arith in
      let right : suc n - 1 ≡ 0 + n = omega arith in
      (sorted, (λ j. select_loop o (last j) (x ∷ xs) 0 (right j)) ∙ run, s)
