-- ===== src/Compare.antt =====
-- The comparison of two records: `compare_rec` of src/record.c. The counters `ai`, `al`, `ab`, `af`,
-- `ad` and `as`, which it sets to 0 once, are one function from the type of the elements; so are its
-- branches for the five types of numbers. `==` on floating-point numbers is a parameter. The fields of
-- both records have the same types, or the run is undefined; so it is for TYPE_FILE, and for a type
-- that the switch has no branch for, where the function returns E_RCMP.
pub mod Fields
pub mod Exact
pub mod Loop
pub mod Reference
pub mod Twice
use isam_db_c_language.Base.{
  ℕ, zero, suc, ◌+◌, Bool, true, false, ◌&&◌, List, [], ◌∷◌, ok, undefined, Outcome, ◌>>=◌, deref,
  if◌then◌else◌, ltb, ◌==◌, length, Option, none, some,
}
use isam_db_c_language.Base.Int.{ℤ, pos, negsuc}
use isam_db_c_language.HashTbl.{strncmp_eq}
use isam_db_c_language.Header.{c_str}
use isam_db_c_language.Records.{
  Value, value_int, value_long, value_float, value_byte, value_double, value_string, value_ints,
  value_longs, value_floats, value_bytes, value_doubles, value_strings, Field, RecordF,
}

abbrev pub e_rcmp : ℤ
e_rcmp = pos 201

abbrev pub dif : ℤ
dif = pos 202

-- The types of the elements of an array, each with a counter.
pub data Elements : Type 0 where
  ints longs bytes floats doubles strings : Elements

-- Which counter two types share: none, but each its own.
unfoldable pub same_elements : Elements → Elements → Bool
same_elements ints ints = true
same_elements longs longs = true
same_elements bytes bytes = true
same_elements floats floats = true
same_elements doubles doubles = true
same_elements strings strings = true
same_elements _ _ = false

abbrev pub Tally : Type 0
Tally = Elements → ℕ

-- A counter gets a new value.
abbrev pub tallied : Elements → ℕ → Tally → Tally
tallied k n t j = if same_elements k j then n else t j

-- The variables of the loop: `c`, `active`, the counter for fields that are not set in both records,
-- and those for elements.
pub record Counters : Type 0 where
  pub same : ℕ
  pub active : ℕ
  pub different : ℕ
  pub tally : Tally

-- `strncmp(a, b, strlen(n)) == 0` on allocations that hold C strings.
unfoldable pub starts_alike : List ℕ → List ℕ → List ℕ → Outcome Bool
unfolding strncmp_eq c_str
starts_alike n a b =
    c_str n >>= λ n. c_str a >>= λ a. c_str b >>= λ b. ok (strncmp_eq (length n) a b)

-- What an element is for the special case of one element: 0, or a string that starts with "null".
abbrev pub null_text : List ℕ
null_text = b'n' ∷ b'u' ∷ b'l' ∷ b'l' ∷ 0 ∷ []

module _ {A : Type 0} where
  -- `size == 1`, and the element passes a test.
  unfoldable pub single : (A → Outcome Bool) → List (Option A) → Outcome Bool
  single test (p ∷ []) = deref p >>= test
  single test _ = ok false

  -- The loop over two arrays of one size: how many elements are equal.
  unfoldable pub count_equal :
      (A → A → Outcome Bool) → List (Option A) → List (Option A) → Outcome ℕ
  count_equal eq (p ∷ src) (q ∷ dest) =
      let rest = count_equal eq src dest in
      deref p >>= λ x. deref q >>= λ y. eq x y >>= λ b. rest >>= λ n. ok (if b then suc n else n)
  count_equal eq _ _ = ok 0

  -- The branch for an array: `none` is the `break` where the array of `dest` is NULL; else whether `c`
  -- is counted up, and the counters. `blank` and `both_blank` are the tests of the special case.
  unfoldable pub compare_array :
      (A → Outcome Bool)
      → (List (Option A) → List (Option A) → Outcome Bool)
      → (A → A → Outcome Bool)
      → Elements
      → Tally
      → List (Option A)
      → List (Option A)
      → Outcome (Option (Bool × Tally))
  unfolding single count_equal
  compare_array blank both_blank eq k t src [] = ok none
  compare_array blank both_blank eq k t src (q ∷ dest) = single blank (q ∷ dest) >>= λ one.
      if one
      then (both_blank src (q ∷ dest) >>= λ b. ok (some (b, t)))
      else if length (q ∷ dest) == length src
      then (count_equal eq src (q ∷ dest) >>= λ n.
          ok (some (length (q ∷ dest) == t k + n, tallied k (t k + n) t)))
      else ok (some (length (q ∷ dest) == t k, t))

unfoldable pub compare_numbers :
    (ℕ → ℕ → Bool)
    → Elements
    → Tally
    → List (Option ℕ)
    → List (Option ℕ)
    → Outcome (Option (Bool × Tally))
unfolding compare_array
compare_numbers eq =
    compare_array (λ x. ok (eq x 0)) (λ src dest. single (λ x. ok (eq x 0)) src)
      (λ x y. ok (eq x y))

-- The special case of strings looks at the string of `dest` twice, and never at that of `src`.
unfoldable pub compare_strings :
    Tally → List (Option (List ℕ)) → List (Option (List ℕ)) → Outcome (Option (Bool × Tally))
unfolding compare_array starts_alike
compare_strings =
    compare_array (λ x. starts_alike null_text x null_text)
      (λ src dest.
        if length src == 1 then single (λ x. starts_alike null_text x null_text) dest else ok false)
      (λ x y. starts_alike x x y) strings

-- After the switch's branch for field `i`: `none` goes on to the next field at once, and else the
-- function returns `i` where `c` is not `active`.
unfoldable pub count_up : Counters → Option (Bool × Tally) → Option Counters
count_up k none = some (record k { active = k.active + 1 })
count_up k (some (b, t)) =
    let c = if b then k.same + 1 else k.same in
    if c == k.active + 1
    then some (record k { same = c; active = k.active + 1; tally = t })
    else none

-- The end of the function, with `fields_num` of `src`.
unfoldable pub verdict : ℕ → Counters → ℤ
verdict n k =
    if ltb 0 k.different && (k.different == n)
    then dif
    else if k.same == k.active
    then negsuc 0
    else e_rcmp

abbrev pub no_counts : Counters
no_counts = record { same = 0; active = 0; different = 0; tally = λ k. 0 }

module _ (float_eq double_eq : ℕ → ℕ → Bool) where
  -- The switch on the type of the field of `src`.
  unfoldable pub compare_values : Tally → Value → Value → Outcome (Option (Bool × Tally))
  unfolding compare_numbers compare_strings starts_alike
  compare_values t (value_int a) (value_int b) = ok (some (a == b, t))
  compare_values t (value_long a) (value_long b) = ok (some (a == b, t))
  compare_values t (value_byte a) (value_byte b) = ok (some (a == b, t))
  compare_values t (value_float a) (value_float b) = ok (some (float_eq a b, t))
  compare_values t (value_double a) (value_double b) = ok (some (double_eq a b, t))
  compare_values t (value_string a) (value_string b) = starts_alike b a b >>= λ s. ok (some (s, t))
  compare_values t (value_ints a) (value_ints b) = compare_numbers ◌==◌ ints t a b
  compare_values t (value_longs a) (value_longs b) = compare_numbers ◌==◌ longs t a b
  compare_values t (value_bytes a) (value_bytes b) = compare_numbers ◌==◌ bytes t a b
  compare_values t (value_floats a) (value_floats b) = compare_numbers float_eq floats t a b
  compare_values t (value_doubles a) (value_doubles b) = compare_numbers double_eq doubles t a b
  compare_values t (value_strings a) (value_strings b) = compare_strings t a b
  compare_values t _ _ = undefined

  -- One round of the loop; `none` is the return of `i`.
  unfoldable pub compare_field : Counters → ℕ → ℕ → Value → Value → Outcome (Option Counters)
  unfolding compare_values count_up
  compare_field k m n v w =
      if (m == 1) && (n == 1)
      then (compare_values k.tally v w >>= λ r. ok (count_up k r))
      else ok (some (record k { different = k.different + 1 }))

  -- The loop, with the rounds that are left and the field's number.
  unfoldable pub compare_fields :
      ℕ → ℕ → ℕ → Counters → List ℕ → List ℕ → List Field → List Field → Outcome ℤ
  unfolding compare_field verdict
  compare_fields total zero i k ms ns fs gs = ok (verdict total k)
  compare_fields total (suc left) i k (m ∷ ms) (n ∷ ns) (f ∷ fs) (g ∷ gs) =
      compare_field k m n f.content g.content >>= λ r. elim r [
        | none ↦ ok (pos i)
        | some k' ↦ compare_fields total left (suc i) k' ms ns fs gs
      ]
  compare_fields total (suc left) i k _ _ _ _ = undefined

  unfoldable pub compare_rec : RecordF → RecordF → Outcome ℤ
  unfolding compare_fields
  compare_rec src dest =
      if ltb dest.fields_num src.fields_num
      then ok (negsuc 0)
      else if ltb src.fields_num dest.fields_num
      then ok (pos 1)
      else compare_fields src.fields_num src.fields_num 0 no_counts src.field_set dest.field_set
          src.fields dest.fields
