-- ===== src/Sort/Unique.antt =====
-- A list can be sorted in one way only: `quick_sort` and `selection_sort` agree.
use mathlib.Core.Path.{ap₂}
use isam_db_c_language.Base.{
  ℕ, suc, ◌-◌, ◌≡◌, refl, ap, sym, ◌∙◌, arith, Bool, Bool-cases, false, List, [], ◌∷◌, ok, length,
  inl, inr, if◌then◌else◌,
}
use isam_db_c_language.Bst.{Order}
use isam_db_c_language.Sort.{quick_sort, selection_sort}
use isam_db_c_language.Sort.Quick.{IsSorted, quick_sort-Sorts}
use isam_db_c_language.Sort.Selection.{selection_sort-Sorts}
use isam_db_c_language.Sort.Swap.{count}

abbrev weight : Bool → ℕ
weight b = if b then 1 else 0

module _ (o : Order) where
  -- The first of a sorted list is not greater than the first of another with the same elements.
  head-not_less :
      (x y : o.Value) (xs ys : List o.Value)
      → IsSorted o (x ∷ xs)
      → ((q : o.Value → Bool) → count q (x ∷ xs) ≡ count q (y ∷ ys))
      → o.less y x ≡ false
  unfolding count
  head-not_less x y xs ys sorted same = elim (Bool-cases (o.less y x)) [
    | inl e ↦ absurd (ground (arith, same (λ z. o.less z x), sorted.0, o.less_irrefl x, e))
    | inr e ↦ e
  ]

  IsSorted-unique :
      (xs ys : List o.Value)
      → IsSorted o xs
      → IsSorted o ys
      → length xs ≡ length ys
      → ((q : o.Value → Bool) → count q xs ≡ count q ys)
      → xs ≡ ys
  unfolding count
  IsSorted-unique [] [] s t len same = refl
  IsSorted-unique [] (y ∷ ys) s t len same = absurd (omega (arith, len))
  IsSorted-unique (x ∷ xs) [] s t len same = absurd (omega (arith, len))
  IsSorted-unique (x ∷ xs) (y ∷ ys) s t len same =
      let first : x ≡ y =
        o.less_total x y (head-not_less y x ys xs t (λ q. sym (same q)))
          (head-not_less x y xs ys s same) in
      ap₂ ◌∷◌ first (
        IsSorted-unique xs ys s.1 t.1 (omega (arith, len))
          (λ q. omega (arith, same q, ap (λ (z : o.Value). weight (q z)) first)))

  -- On a whole array `quick_sort`, with fuel one more than the length, and `selection_sort` give
  -- the same result.
  pub quick_sort-selection_sort :
      (array : List o.Value)
      → quick_sort o (suc (length array)) array 0 (length array - 1)
        ≡ selection_sort o array 0 (length array - 1)
  quick_sort-selection_sort array =
      let (a, run, s) = quick_sort-Sorts o array in
      let (b, run', t) = selection_sort-Sorts o array in
      run
      ∙ ap ok (
          IsSorted-unique a b s.sorted t.sorted (s.size ∙ sym t.size)
            (λ q. s.same q ∙ sym (t.same q)))
      ∙ sym run'
