-- ===== src/Sort.antt =====
-- src/sort.c: `swap`, `pivot`, `quick_sort`, `selection_sort`, and their copies for strings, which differ in the test
-- that compares: both are the functions here over an order. An index outside the array is undefined.
-- Indices are not negative, but for a right index of -1, which is 0 here: `quick_sort` returns at
-- once for both.
pub mod Least
pub mod Swap
pub mod Pivot
pub mod Quick
pub mod Selection
pub mod Unique
use isam_db_c_language.Base.{
  ℕ, zero, suc, ◌+◌, ◌-◌, Bool, true, false, List, [], ◌∷◌, ok, undefined, Outcome, ◌>>=◌, deref,
  if◌then◌else◌, leb, get_elem?, set as set_elem,
}
use isam_db_c_language.Bst.{Order}

module _ {A : Type 0} where
  unfoldable pub swap : List A → ℕ → ℕ → Outcome (List A)
  swap array i j = deref (get_elem? array i) >>= λ x.
      deref (get_elem? array j) >>= λ y. ok (set_elem (set_elem array i y) j x)

module _ (o : Order) where
  -- One round of the loop of `pivot`: the array, `pivot_index`, `swap_index` and `i`; the result is
  -- the array and `swap_index`.
  unfoldable pub pivot_step : List o.Value → ℕ → ℕ → ℕ → Outcome (List o.Value × ℕ)
  pivot_step array p s i = deref (get_elem? array i) >>= λ x. deref (get_elem? array p) >>= λ v.
      if o.less x v then (swap array (s + 1) i >>= λ a. ok (a, s + 1)) else ok (array, s)

  -- The loop, with the rounds that are left.
  unfoldable pub pivot_loop : ℕ → List o.Value → ℕ → ℕ → ℕ → Outcome (List o.Value × ℕ)
  pivot_loop zero array p s i = ok (array, s)
  pivot_loop (suc n) array p s i = pivot_step array p s i >>= λ r. pivot_loop n r.0 p r.1 (i + 1)

  unfoldable pub pivot : List o.Value → ℕ → ℕ → Outcome (List o.Value × ℕ)
  pivot array p end =
      pivot_loop (end - p) array p p (p + 1) >>= λ r. swap r.0 p r.1 >>= λ a. ok (a, r.1)

  -- The recursion takes fuel; `undefined` if there is too little.
  unfoldable pub quick_sort : ℕ → List o.Value → ℕ → ℕ → Outcome (List o.Value)
  quick_sort zero array left right = undefined
  quick_sort (suc n) array left right =
      if leb right left
      then ok array
      else (pivot array left right >>= λ r.
          quick_sort n r.0 left (r.1 - 1) >>= λ a. quick_sort n a (r.1 + 1) right)

  -- The inner loop of `selection_sort`, with the rounds that are left: `min` and `j`.
  unfoldable pub min_loop : ℕ → List o.Value → ℕ → ℕ → Outcome ℕ
  min_loop zero array min j = ok min
  min_loop (suc n) array min j = deref (get_elem? array j) >>= λ x.
      deref (get_elem? array min) >>= λ m. min_loop n array (if o.less x m then j else min) (j + 1)

  unfoldable pub select_loop : ℕ → List o.Value → ℕ → ℕ → Outcome (List o.Value)
  select_loop zero array i right = ok array
  select_loop (suc n) array i right = min_loop (right - i) array i (i + 1) >>= λ m.
      swap array m i >>= λ a. select_loop n a (i + 1) right

  unfoldable pub selection_sort : List o.Value → ℕ → ℕ → Outcome (List o.Value)
  selection_sort array left right = select_loop (right - left) array left right
