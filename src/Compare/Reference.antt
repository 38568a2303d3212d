-- ===== src/Compare/Reference.antt =====
-- What `compare_rec` means by equal values: an independent description of one pair of fields. Numbers
-- are equal by their `==`, arrays element by element, and a string of `dest` is a prefix of that of
-- `src`; of two arrays of strings each string of `src` is a prefix, but where `dest` has one string
-- only, and it starts with "null", any array of one string is equal to it.
use isam_db_c_language.Base.{
  ℕ, zero, suc, ◌+◌, ◌≤◌, ◌≡◌, refl, ap, ◌∙◌, arith, Bool, true, false, ◌&&◌, Bool-cases, inl, inr,
  ==_iff, List, [], ◌∷◌, ok, Outcome, length, ◌==◌, if◌then◌else◌, Option, none, some,
}
use isam_db_c_language.HashTbl.{strncmp_eq}
use isam_db_c_language.Header.{c_str}
use isam_db_c_language.IndexFile.{until_nul}
use isam_db_c_language.Records.{
  Value, value_int, value_long, value_float, value_byte, value_double, value_string, value_ints,
  value_longs, value_floats, value_bytes, value_doubles, value_strings,
}
use isam_db_c_language.Compare.{
  Elements, ints, longs, bytes, floats, doubles, strings, Tally, tallied, null_text, single,
  count_equal, compare_array, compare_numbers, compare_strings, compare_values, starts_alike,
}
use isam_db_c_language.Compare.Loop.{zeros}

-- Both arrays have elements that `eq` relates in order.
unfoldable pub all_alike : {A : Type 0} → (A → A → Bool) → List (Option A) → List (Option A) → Bool
all_alike eq [] [] = true
all_alike eq (some x ∷ v) (some y ∷ w) = eq x y && all_alike eq v w
all_alike eq _ _ = false

-- The first string is a prefix of the second.
unfoldable pub prefix : List ℕ → List ℕ → Bool
unfolding strncmp_eq until_nul
prefix a b = strncmp_eq (length (until_nul a)) (until_nul a) (until_nul b)

unfoldable pub one_null : List (Option (List ℕ)) → Bool
unfolding prefix
one_null (some s ∷ []) = prefix null_text s
one_null _ = false

unfoldable pub strings_alike : List (Option (List ℕ)) → List (Option (List ℕ)) → Bool
unfolding one_null prefix all_alike
strings_alike v w = if one_null w then length v == 1 else all_alike prefix v w

module _ (float_eq double_eq : ℕ → ℕ → Bool) where
  unfoldable pub alike : Value → Value → Bool
  unfolding all_alike prefix strings_alike
  alike (value_int a) (value_int b) = a == b
  alike (value_long a) (value_long b) = a == b
  alike (value_byte a) (value_byte b) = a == b
  alike (value_float a) (value_float b) = float_eq a b
  alike (value_double a) (value_double b) = double_eq a b
  alike (value_string a) (value_string b) = prefix b a
  alike (value_ints a) (value_ints b) = all_alike ◌==◌ a b
  alike (value_longs a) (value_longs b) = all_alike ◌==◌ a b
  alike (value_bytes a) (value_bytes b) = all_alike ◌==◌ a b
  alike (value_floats a) (value_floats b) = all_alike float_eq a b
  alike (value_doubles a) (value_doubles b) = all_alike double_eq a b
  alike (value_strings a) (value_strings b) = strings_alike a b
  alike _ _ = false

-- No pointer is NULL, and each element is ready to be read.
abbrev pub Pointed : {A : Type 0} → (A → Type 0) → List (Option A) → Type 0
Pointed P [] = Unit
Pointed P (none ∷ v) = ⊥
Pointed P (some x ∷ v) = P x × Pointed P v

abbrev pub Ends : List ℕ → Type 0
Ends s = c_str s ≡ ok (until_nul s)

abbrev pub Any : ℕ → Type 0
Any n = Unit

-- Values that may be compared: of one type, the strings end, and the array of `dest` is not NULL.
abbrev pub Comparable : Value → Value → Type 0
Comparable (value_int a) (value_int b) = Unit
Comparable (value_long a) (value_long b) = Unit
Comparable (value_byte a) (value_byte b) = Unit
Comparable (value_float a) (value_float b) = Unit
Comparable (value_double a) (value_double b) = Unit
Comparable (value_string a) (value_string b) = Ends a × Ends b
Comparable (value_ints a) (value_ints b) = Pointed Any a × Pointed Any b × (1 ≤ length b)
Comparable (value_longs a) (value_longs b) = Pointed Any a × Pointed Any b × (1 ≤ length b)
Comparable (value_bytes a) (value_bytes b) = Pointed Any a × Pointed Any b × (1 ≤ length b)
Comparable (value_floats a) (value_floats b) = Pointed Any a × Pointed Any b × (1 ≤ length b)
Comparable (value_doubles a) (value_doubles b) = Pointed Any a × Pointed Any b × (1 ≤ length b)
Comparable (value_strings a) (value_strings b) = Pointed Ends a × Pointed Ends b × (1 ≤ length b)
Comparable _ _ = ⊥

-- What is needed of `==` on numbers: whatever equals a number that equals 0 is equal to 0.
abbrev pub ZeroAlike : (ℕ → ℕ → Bool) → Type 0
ZeroAlike eq = (x y : ℕ) → eq y 0 ≡ true → eq x y ≡ eq x 0

module _ {A : Type 0} (P : A → Type 0) (eq : A → A → Outcome Bool) (eqb : A → A → Bool)
    (runs : (x y : A) → P x → P y → eq x y ≡ ok (eqb x y)) where
  count_equal-all_alike :
      (v w : List (Option A))
      → Pointed P v
      → Pointed P w
      → length w ≡ length v
      → (n : ℕ) × (count_equal eq v w ≡ ok n)
        × (n ≤ length w)
        × ((length w == n) ≡ all_alike eqb v w)
  unfolding count_equal all_alike
  count_equal-all_alike [] [] p q l = (0, refl, omega arith, refl)
  count_equal-all_alike [] (y ∷ w) p q l = absurd (omega (arith, l))
  count_equal-all_alike (x ∷ v) [] p q l = absurd (omega (arith, l))
  count_equal-all_alike (none ∷ v) (y ∷ w) p q l = elim p [ ]
  count_equal-all_alike (some x ∷ v) (none ∷ w) p q l = elim q [ ]
  count_equal-all_alike (some x ∷ v) (some y ∷ w) p q l =
      let (n, run, le, same) = count_equal-all_alike v w p.1 q.1 (omega (arith, l)) in
      (
        if eqb x y then suc n else n,
        rw (runs x y p.0 q.0) (rw run refl),
        ground (arith, le),
        ground (arith, le, same),
      )

  all_alike-length : (v w : List (Option A)) → all_alike eqb v w ≡ true → length w ≡ length v
  unfolding all_alike
  all_alike-length [] [] h = refl
  all_alike-length [] (y ∷ w) h = absurd (cc h)
  all_alike-length (x ∷ v) [] h = absurd (ground (arith, h))
  all_alike-length (none ∷ v) (y ∷ w) h = absurd (cc h)
  all_alike-length (some x ∷ v) (none ∷ w) h = absurd (cc h)
  all_alike-length (some x ∷ v) (some y ∷ w) h = ground (arith, h, all_alike-length v w)

  -- The branch for an array, from counters of 0, where the special case has the result `r`.
  compare_array-alike :
      (blank : A → Outcome Bool) (both_blank : List (Option A) → List (Option A) → Outcome Bool)
      (k : Elements) (v w : List (Option A)) (o r : Bool)
      → Pointed P v
      → Pointed P w
      → 1 ≤ length w
      → single blank w ≡ ok o
      → both_blank v w ≡ ok r
      → (u : Tally) × (compare_array blank both_blank eq k zeros v w
          ≡ ok (some (if o then r else all_alike eqb v w, u)))
  unfolding compare_array
  compare_array-alike blank both_blank k v [] o r p q l e f = absurd (omega (arith, l))
  compare_array-alike blank both_blank k v (y ∷ w) true r p q l e f = (zeros, rw e (rw f refl))
  compare_array-alike blank both_blank k v (y ∷ w) false r p q l e f =
      elim (Bool-cases (length (y ∷ w) == length v)) [
        | inl same ↦
            let (n, run, le, all) = count_equal-all_alike v (y ∷ w) p q ((==_iff _ _).0 same) in
            let counted : (length (y ∷ w) == 0 + n) ≡ all_alike eqb v (y ∷ w) =
              ap (λ (m : ℕ). length (y ∷ w) == m) (let z : 0 + n ≡ n = omega arith in z) ∙ all in
            (
              tallied k (0 + n) zeros,
              rw e (rw same (rw run (λ i. ok (some (counted i, tallied k (0 + n) zeros))))),
            )
        | inr other ↦ (
          zeros,
          rw e (
              rw other (
                let apart : all_alike eqb v (y ∷ w) ≡ false =
                  ground (arith, all_alike-length v (y ∷ w)) in
                let some_left : (length (y ∷ w) == 0) ≡ false = ground arith in
                rw apart (λ i. ok (some (some_left i, zeros))))),
        )
      ]

-- The special case of one element that is 0 adds nothing for numbers.
module _ (eq : ℕ → ℕ → Bool) (zero_alike : ZeroAlike eq) where
  single_zero : List (Option ℕ) → Bool
  single_zero (some x ∷ []) = eq x 0
  single_zero _ = false

  single-zero :
      (v : List (Option ℕ)) → Pointed Any v → single (λ x. ok (eq x 0)) v ≡ ok (single_zero v)
  unfolding single single_zero
  single-zero [] p = refl
  single-zero (none ∷ []) p = elim p [ ]
  single-zero (some x ∷ []) p = refl
  single-zero (none ∷ y ∷ v) p = elim p [ ]
  single-zero (some x ∷ y ∷ v) p = refl

  zero_case :
      (v w : List (Option ℕ))
      → (if single_zero w then single_zero v else all_alike eq v w) ≡ all_alike eq v w
  unfolding single_zero all_alike
  zero_case v [] = refl
  zero_case v (none ∷ []) = refl
  zero_case [] (some y ∷ []) = ground arith
  zero_case (none ∷ []) (some y ∷ []) = ground arith
  zero_case (some x ∷ []) (some y ∷ []) = ground (arith, zero_alike x y)
  zero_case (none ∷ x ∷ v) (some y ∷ []) = ground arith
  zero_case (some z ∷ x ∷ v) (some y ∷ []) = ground arith
  zero_case v (none ∷ y ∷ w) = refl
  zero_case v (some z ∷ y ∷ w) = refl

  compare_numbers-alike :
      (k : Elements) (v w : List (Option ℕ))
      → Pointed Any v × Pointed Any w × (1 ≤ length w)
      → (u : Tally) × (compare_numbers eq k zeros v w ≡ ok (some (all_alike eq v w, u)))
  unfolding compare_numbers
  compare_numbers-alike k v w (p, q, l) =
      let (u, run) =
        compare_array-alike Any (λ x y. ok (eq x y)) eq (λ x y _ _. refl) (λ x. ok (eq x 0))
          (λ src dest. single (λ x. ok (eq x 0)) src) k v w (single_zero w) (single_zero v) p q l
          (single-zero w q) (single-zero v p) in
      (u, run ∙ ap (λ (b : Bool). ok (some (b, u))) (zero_case v w))

strncmp_eq_comm : (n : ℕ) (a b : List ℕ) → strncmp_eq n a b ≡ strncmp_eq n b a
unfolding strncmp_eq
strncmp_eq_comm zero a b = refl
strncmp_eq_comm (suc n) [] [] = refl
strncmp_eq_comm (suc n) [] (y ∷ b) = refl
strncmp_eq_comm (suc n) (x ∷ a) [] = refl
strncmp_eq_comm (suc n) (x ∷ a) (y ∷ b) = ground (arith, strncmp_eq_comm n a b)

starts_alike-prefix : (a b : List ℕ) → Ends a → Ends b → starts_alike a a b ≡ ok (prefix a b)
unfolding starts_alike prefix
starts_alike-prefix a b e f = rw e (rw f refl)

starts_alike_second : (a b : List ℕ) → Ends a → Ends b → starts_alike a b a ≡ ok (prefix a b)
unfolding starts_alike prefix
starts_alike_second a b e f =
    rw e (rw f (ap ok (strncmp_eq_comm (length (until_nul a)) (until_nul b) (until_nul a))))

null_text-Ends : Ends null_text
unfolding c_str until_nul
null_text-Ends = refl

single-one_null :
    (w : List (Option (List ℕ)))
    → Pointed Ends w
    → single (λ x. starts_alike null_text x null_text) w ≡ ok (one_null w)
unfolding single one_null
single-one_null [] q = refl
single-one_null (none ∷ []) q = elim q [ ]
single-one_null (some s ∷ []) q = starts_alike_second null_text s null_text-Ends q.0
single-one_null (none ∷ y ∷ w) q = elim q [ ]
single-one_null (some s ∷ y ∷ w) q = refl

null_twice :
    (v w : List (Option (List ℕ)))
    → Pointed Ends w
    → (if length v == 1 then single (λ x. starts_alike null_text x null_text) w else ok false)
      ≡ ok (if length v == 1 then one_null w else false)
null_twice v w q = rw (single-one_null w q) (ground arith)

compare_strings-alike :
    (v w : List (Option (List ℕ)))
    → Pointed Ends v × Pointed Ends w × (1 ≤ length w)
    → (u : Tally) × (compare_strings zeros v w ≡ ok (some (strings_alike v w, u)))
unfolding compare_strings strings_alike
compare_strings-alike v w (p, q, l) =
    let (u, run) =
      compare_array-alike Ends (λ x y. starts_alike x x y) prefix starts_alike-prefix
        (λ x. starts_alike null_text x null_text)
        (λ src dest.
          if length src == 1
          then single (λ x. starts_alike null_text x null_text) dest
          else ok false)
        strings v w (one_null w) (if length v == 1 then one_null w else false) p q l
        (single-one_null w q) (null_twice v w q) in
    (u, run ∙ ap (λ (b : Bool). ok (some (b, u))) (ground arith))

-- From counters of 0, one pair of fields is compared as described.
pub compare_values-alike :
    (float_eq double_eq : ℕ → ℕ → Bool)
    → ZeroAlike float_eq
    → ZeroAlike double_eq
    → (v w : Value) → Comparable v w
    → (u : Tally) × (compare_values float_eq double_eq zeros v w
        ≡ ok (some (alike float_eq double_eq v w, u)))
unfolding compare_values alike
compare_values-alike f d zf zd (value_int a) (value_int b) c = (zeros, refl)
compare_values-alike f d zf zd (value_long a) (value_long b) c = (zeros, refl)
compare_values-alike f d zf zd (value_byte a) (value_byte b) c = (zeros, refl)
compare_values-alike f d zf zd (value_float a) (value_float b) c = (zeros, refl)
compare_values-alike f d zf zd (value_double a) (value_double b) c = (zeros, refl)
compare_values-alike f d zf zd (value_string a) (value_string b) c =
    (zeros, rw (starts_alike_second b a c.1 c.0) refl)
compare_values-alike f d zf zd (value_ints a) (value_ints b) c =
    compare_numbers-alike ◌==◌ (λ x y h. ground arith) ints a b c
compare_values-alike f d zf zd (value_longs a) (value_longs b) c =
    compare_numbers-alike ◌==◌ (λ x y h. ground arith) longs a b c
compare_values-alike f d zf zd (value_bytes a) (value_bytes b) c =
    compare_numbers-alike ◌==◌ (λ x y h. ground arith) bytes a b c
compare_values-alike f d zf zd (value_floats a) (value_floats b) c =
    compare_numbers-alike f zf floats a b c
compare_values-alike f d zf zd (value_doubles a) (value_doubles b) c =
    compare_numbers-alike d zd doubles a b c
compare_values-alike f d zf zd (value_strings a) (value_strings b) c = compare_strings-alike a b c
compare_values-alike f d zf zd _ _ c = absurd c
