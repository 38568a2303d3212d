-- ===== src/Compare/Twice.antt =====
-- Two arrays of one type in a record: `compare_rec` does not set `ai` back to 0 between them.
use isam_db_c_language.Base.{
  ℕ, ◌+◌, ◌≤◌, ◌≡◌, refl, ◌∙◌, arith, Bool, true, false, List, [], ◌∷◌, ok, Outcome, length, map,
  length-map, ◌==◌, if◌then◌else◌, some,
}
use isam_db_c_language.Base.Int.{pos, negsuc}
use isam_db_c_language.Records.{RecordF, value_ints}
use isam_db_c_language.Compare.{
  Tally, ints, tallied, single, count_equal, compare_array, compare_numbers, count_up,
  compare_values, compare_field, compare_fields, verdict, same_elements, no_counts, compare_rec,
}

-- A record of two arrays of integers, both set.
unfoldable pub two_arrays : List ℕ → List ℕ → RecordF
two_arrays a b = record {
  fields_num = 2;
  field_set = 1 ∷ 1 ∷ [];
  fields =
      record { field_name = b'a' ∷ 0 ∷ []; content = value_ints (map some a) }
      ∷ record { field_name = b'b' ∷ 0 ∷ []; content = value_ints (map some b) }
      ∷ [];
}

-- No place of the two lists holds the same number.
abbrev pub Differ : List ℕ → List ℕ → Type 0
Differ (x ∷ a) (y ∷ b) = ((x == y) ≡ false) × Differ a b
Differ _ _ = Unit

abbrev int_eq : ℕ → ℕ → Outcome Bool
int_eq x y = ok (x == y)

count_equal_self : (a : List ℕ) → count_equal int_eq (map some a) (map some a) ≡ ok (length a)
unfolding count_equal
count_equal_self [] = refl
count_equal_self (x ∷ a) =
    let same : (x == x) ≡ true = ground arith in rw same (rw (count_equal_self a) refl)

count_equal-Differ :
    (a b : List ℕ) → Differ a b → count_equal int_eq (map some a) (map some b) ≡ ok 0
unfolding count_equal
count_equal-Differ [] [] d = refl
count_equal-Differ [] (y ∷ b) d = refl
count_equal-Differ (x ∷ a) [] d = refl
count_equal-Differ (x ∷ a) (y ∷ b) d = rw d.0 (rw (count_equal-Differ a b d.1) refl)

-- Two arrays of one size, of two elements at least.
compare_numbers_sized :
    (t : Tally) (a b : List ℕ) (n : ℕ)
    → 2 ≤ length b
    → length a ≡ length b
    → count_equal int_eq (map some a) (map some b) ≡ ok n
    → compare_numbers ◌==◌ ints t (map some a) (map some b)
      ≡ ok (some (length b == t ints + n, tallied ints (t ints + n) t))
unfolding compare_numbers compare_array single
compare_numbers_sized t a [] n l e run = absurd (omega arith)
compare_numbers_sized t a (y ∷ []) n l e run = absurd (omega arith)
compare_numbers_sized t a (y ∷ z ∷ b) n l e run =
    rw (length-map b some, length-map a some) (rw e (ground (arith, run)))

module _ (float_eq double_eq : ℕ → ℕ → Bool) where
  compare_two :
      (a a' b b' : List ℕ) (m n : ℕ)
      → 2 ≤ length a'
      → 2 ≤ length b'
      → length a ≡ length a'
      → length b ≡ length b'
      → count_equal int_eq (map some a) (map some a') ≡ ok m
      → count_equal int_eq (map some b) (map some b') ≡ ok n
      → compare_rec float_eq double_eq (two_arrays a b) (two_arrays a' b')
        ≡ ok (if length a' == m then (if length b' == m + n then negsuc 0 else pos 1) else pos 0)
  unfolding compare_rec compare_fields compare_field compare_values two_arrays verdict count_up
      same_elements
  compare_two a a' b b' m n l l' e e' run run' =
      let first = compare_numbers_sized no_counts.tally a a' m l e run in
      let second = compare_numbers_sized (tallied ints (0 + m) no_counts.tally) b b' n l' e' run' in
      let sum : 0 + m ≡ m = omega arith in rw first (ground (arith, second, sum))

  -- For records of two arrays of integers of the same size, two at least: `compare_rec` of such a
  -- record with itself is 1, the number of the second array, and it is -1, the result for equal
  -- records, where the second arrays have no equal element at any place.
  pub compare_rec-two_arrays :
      (a b b' : List ℕ)
      → 2 ≤ length a
      → length b ≡ length a
      → length b ≡ length b'
      → Differ b b'
      → (compare_rec float_eq double_eq (two_arrays a b) (two_arrays a b) ≡ ok (pos 1))
        × (compare_rec float_eq double_eq (two_arrays a b) (two_arrays a b') ≡ ok (negsuc 0))
  compare_rec-two_arrays a b b' l e e' d = (
    compare_two a a b b (length a) (length b) l (omega (arith, e)) refl refl (count_equal_self a)
          (count_equal_self b)
        ∙ ground (arith, e),
    compare_two a a b b' (length a) 0 l (omega (arith, e, e')) refl e' (count_equal_self a)
          (count_equal-Differ b b' d)
        ∙ ground (arith, e, e'),
  )
