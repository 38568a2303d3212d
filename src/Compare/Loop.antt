-- ===== src/Compare/Loop.antt =====
use isam_db_c_language.Base.{
  ℕ, ◌+◌, ◌≡◌, ◌≢◌, refl, ap, ◌∙◌, arith, Bool, true, false, List, [], ◌∷◌, ok, undefined, Outcome,
  ◌>>=◌, length, ◌==◌, if◌then◌else◌, Option, none, some,
}
use isam_db_c_language.Records.{
  Value, value_int, value_long, value_float, value_byte, value_double, value_string, value_ints,
  value_longs, value_floats, value_bytes, value_doubles, value_strings,
}
use isam_db_c_language.Compare.{
  Elements, ints, longs, bytes, floats, doubles, strings, Tally, same_elements, tallied, single,
  count_equal, compare_array, compare_numbers, compare_strings, compare_values, starts_alike,
  null_text,
}

abbrev pub zeros : Tally
zeros = λ k. 0

-- The type of the elements of an array.
unfoldable pub kind : Value → Option Elements
kind (value_ints v) = some ints
kind (value_longs v) = some longs
kind (value_bytes v) = some bytes
kind (value_floats v) = some floats
kind (value_doubles v) = some doubles
kind (value_strings v) = some strings
kind _ = none

same_elements_self : (k : Elements) → same_elements k k ≡ true
unfolding same_elements
same_elements_self ints = refl
same_elements_self longs = refl
same_elements_self bytes = refl
same_elements_self floats = refl
same_elements_self doubles = refl
same_elements_self strings = refl

-- The counter of one type of elements is 0, and the run keeps all the others.
abbrev Moves : Elements → Tally → Bool → Outcome (Option (Bool × Tally)) → Type 0
Moves k t b run =
    (t' : Tally) × (run ≡ ok (some (b, t')))
    × ((j : Elements) → same_elements k j ≡ false → t' j ≡ t j)

-- `compare_array` of an array that is not NULL, over the results of its parts.
abbrev parts :
    Elements
    → ℕ
    → Tally
    → Outcome Bool
    → Outcome Bool
    → Bool
    → Outcome ℕ
    → Outcome (Option (Bool × Tally))
parts k len t one both sized n = one >>= λ o.
    if o
    then (both >>= λ b. ok (some (b, t)))
    else if sized
    then (n >>= λ n. ok (some (len == t k + n, tallied k (t k + n) t)))
    else ok (some (len == t k, t))

module _ (k : Elements) (t : Tally) (free : t k ≡ 0) (b : Bool) (u : Tally) where
  parts-zeros :
      (len : ℕ) (one both : Outcome Bool) (sized : Bool) (n : Outcome ℕ)
      → parts k len zeros one both sized n ≡ ok (some (b, u))
      → Moves k t b (parts k len t one both sized n)
  parts-zeros len undefined both sized n h = absurd (cc h)
  parts-zeros len (ok true) undefined sized n h = absurd (cc h)
  parts-zeros len (ok true) (ok c) sized n h = (t, cc h, λ j e. refl)
  parts-zeros len (ok false) both true undefined h = absurd (cc h)
  parts-zeros len (ok false) both true (ok n) h =
      (tallied k (t k + n) t, rw free (ground (arith, h)), λ j e. rw e refl)
  parts-zeros len (ok false) both false n h = (t, rw free (cc h), λ j e. refl)

  compare_array-zeros :
      {A : Type 0} (blank : A → Outcome Bool)
      (both_blank : List (Option A) → List (Option A) → Outcome Bool) (eq : A → A → Outcome Bool)
      (src dest : List (Option A))
      → compare_array blank both_blank eq k zeros src dest ≡ ok (some (b, u))
      → Moves k t b (compare_array blank both_blank eq k t src dest)
  unfolding compare_array
  compare_array-zeros blank both_blank eq src [] h = absurd (cc h)
  compare_array-zeros blank both_blank eq src (q ∷ dest) h =
      parts-zeros (length (q ∷ dest)) (single blank (q ∷ dest)) (both_blank src (q ∷ dest))
        (length (q ∷ dest) == length src) (count_equal eq src (q ∷ dest)) h

  compare_numbers-zeros :
      (eq : ℕ → ℕ → Bool) (src dest : List (Option ℕ))
      → compare_numbers eq k zeros src dest ≡ ok (some (b, u))
      → Moves k t b (compare_numbers eq k t src dest)
  unfolding compare_numbers
  compare_numbers-zeros eq =
      compare_array-zeros (λ x. ok (eq x 0)) (λ src dest. single (λ x. ok (eq x 0)) src)
        (λ x y. ok (eq x y))

-- Where the counter of an array's type is 0, a pair is compared as from counters of 0, and only that
-- counter moves.
abbrev pub Free : Tally → Value → Type 0
Free t v = (k : Elements) → kind v ≡ some k → t k ≡ 0

abbrev pub Keeps : Value → Tally → Tally → Type 0
Keeps v t t' = (j : Elements) → kind v ≢ some j → t' j ≡ t j

same_elements_ne : (k j : Elements) → k ≢ j → same_elements k j ≡ false
unfolding same_elements
same_elements_ne ints ints h = absurd (h refl)
same_elements_ne longs longs h = absurd (h refl)
same_elements_ne bytes bytes h = absurd (h refl)
same_elements_ne floats floats h = absurd (h refl)
same_elements_ne doubles doubles h = absurd (h refl)
same_elements_ne strings strings h = absurd (h refl)
same_elements_ne _ _ h = refl

once : Tally → Bool → Outcome (Option (Bool × Tally))
once t s = ok (some (s, t))

once-zeros :
    (o : Outcome Bool) (t : Tally) (b : Bool) (u : Tally)
    → (o >>= once zeros) ≡ ok (some (b, u))
    → (o >>= once t) ≡ ok (some (b, t))
unfolding once
once-zeros undefined t b u e = absurd (cc e)
once-zeros (ok s) t b u e = cc e

kept :
    (v : Value) (k : Elements) (t : Tally) (b : Bool) (run : Outcome (Option (Bool × Tally)))
    → kind v ≡ some k
    → Moves k t b run
    → (t' : Tally) × (run ≡ ok (some (b, t'))) × Keeps v t t'
kept v k t b run e (t', ran, keep) =
    (t', ran, λ j other. keep j (same_elements_ne k j λ same. other (e ∙ ap some same)))

pub compare_values-zeros :
    (float_eq double_eq : ℕ → ℕ → Bool) (v w : Value) (t : Tally) (b : Bool) (u : Tally)
    → Free t v
    → compare_values float_eq double_eq zeros v w ≡ ok (some (b, u))
    → (t' : Tally) × (compare_values float_eq double_eq t v w ≡ ok (some (b, t'))) × Keeps v t t'
unfolding compare_values compare_strings kind once
compare_values-zeros f d (value_int x) (value_int y) t b u free h = (t, cc h, λ j e. refl)
compare_values-zeros f d (value_long x) (value_long y) t b u free h = (t, cc h, λ j e. refl)
compare_values-zeros f d (value_byte x) (value_byte y) t b u free h = (t, cc h, λ j e. refl)
compare_values-zeros f d (value_float x) (value_float y) t b u free h = (t, cc h, λ j e. refl)
compare_values-zeros f d (value_double x) (value_double y) t b u free h = (t, cc h, λ j e. refl)
compare_values-zeros f d (value_string x) (value_string y) t b u free h =
    (t, once-zeros (starts_alike y x y) t b u h, λ j e. refl)
compare_values-zeros f d (value_ints x) (value_ints y) t b u free h =
    kept (value_ints x) ints t b _ refl
      (compare_numbers-zeros ints t (free ints refl) b u ◌==◌ x y h)
compare_values-zeros f d (value_longs x) (value_longs y) t b u free h =
    kept (value_longs x) longs t b _ refl
      (compare_numbers-zeros longs t (free longs refl) b u ◌==◌ x y h)
compare_values-zeros f d (value_bytes x) (value_bytes y) t b u free h =
    kept (value_bytes x) bytes t b _ refl
      (compare_numbers-zeros bytes t (free bytes refl) b u ◌==◌ x y h)
compare_values-zeros f d (value_floats x) (value_floats y) t b u free h =
    kept (value_floats x) floats t b _ refl
      (compare_numbers-zeros floats t (free floats refl) b u f x y h)
compare_values-zeros f d (value_doubles x) (value_doubles y) t b u free h =
    kept (value_doubles x) doubles t b _ refl
      (compare_numbers-zeros doubles t (free doubles refl) b u d x y h)
compare_values-zeros f d (value_strings x) (value_strings y) t b u free h =
    kept (value_strings x) strings t b _ refl (
      compare_array-zeros strings t (free strings refl) b u
        (λ z. starts_alike null_text z null_text)
        (λ src dest.
          if length src == 1
          then single (λ z. starts_alike null_text z null_text) dest
          else ok false)
        (λ z z'. starts_alike z z z') x y h)
compare_values-zeros f d _ _ t b u free h = absurd (cc h)
