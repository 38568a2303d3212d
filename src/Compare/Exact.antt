-- ===== src/Compare/Exact.antt =====
-- `compare_rec` where its tests on strings are tests for equality: no string of the record that gives
-- the length is shorter than the other, and no array of strings is one string that starts with "null".
use isam_db_c_language.Base.{
  ℕ, zero, suc, ◌+◌, ◌≤◌, ◌≡◌, refl, ap, sym, ◌∙◌, arith, Bool, true, false, ◌&&◌, not, Bool-cases,
  inl, inr, List, [], ◌∷◌, ok, length, ◌==◌, ltb, if◌then◌else◌, Option, none, some,
}
use isam_db_c_language.Base.Int.{ℤ, pos, negsuc}
use isam_db_c_language.HashTbl.{strncmp_eq}
use isam_db_c_language.IndexFile.{until_nul}
use isam_db_c_language.Records.{
  Value, value_int, value_long, value_float, value_byte, value_double, value_ints, value_longs,
  value_floats, value_bytes, value_doubles, value_string, value_strings, Field, RecordF,
}
use isam_db_c_language.Compare.{dif, compare_rec}
use isam_db_c_language.Compare.Reference.{
  alike, prefix, all_alike, one_null, strings_alike, ZeroAlike,
}
use isam_db_c_language.Compare.Fields.{
  Pair, pairs, record_pairs, AllComparable, OnceEach, unset, first_unlike, difference,
  compare_rec-difference,
}

-- Equal texts.
unfoldable pub same_list : List ℕ → List ℕ → Bool
same_list [] [] = true
same_list (x ∷ a) (y ∷ b) = (x == y) && same_list a b
same_list _ _ = false

unfoldable pub same_text : List ℕ → List ℕ → Bool
unfolding same_list until_nul
same_text a b = same_list (until_nul a) (until_nul b)

-- Equal values: strings up to the NUL, arrays element by element.
unfoldable pub equal : (ℕ → ℕ → Bool) → (ℕ → ℕ → Bool) → Value → Value → Bool
unfolding same_text all_alike
equal f d (value_int a) (value_int b) = a == b
equal f d (value_long a) (value_long b) = a == b
equal f d (value_byte a) (value_byte b) = a == b
equal f d (value_float a) (value_float b) = f a b
equal f d (value_double a) (value_double b) = d a b
equal f d (value_string a) (value_string b) = same_text a b
equal f d (value_ints a) (value_ints b) = all_alike ◌==◌ a b
equal f d (value_longs a) (value_longs b) = all_alike ◌==◌ a b
equal f d (value_bytes a) (value_bytes b) = all_alike ◌==◌ a b
equal f d (value_floats a) (value_floats b) = all_alike f a b
equal f d (value_doubles a) (value_doubles b) = all_alike d a b
equal f d (value_strings a) (value_strings b) = all_alike same_text a b
equal f d _ _ = false

-- No string of the first array is shorter than that of the second.
abbrev pub Longer : List (Option (List ℕ)) → List (Option (List ℕ)) → Type 0
Longer (some a ∷ v) (some b ∷ w) = (length (until_nul b) ≤ length (until_nul a)) × Longer v w
Longer _ _ = Unit

-- The string of `dest` is not shorter; of two arrays no string of `src` is, and `dest` is not one
-- string that starts with "null".
abbrev pub Whole : Value → Value → Type 0
Whole (value_string a) (value_string b) = length (until_nul a) ≤ length (until_nul b)
Whole (value_strings a) (value_strings b) = (one_null b ≡ false) × Longer a b
Whole _ _ = Unit

abbrev pub AllWhole : List Pair → Type 0
AllWhole [] = Unit
AllWhole (p ∷ ps) = (p.both ≡ true → Whole p.left p.right) × AllWhole ps

same_list_comm : (a b : List ℕ) → same_list a b ≡ same_list b a
unfolding same_list
same_list_comm [] [] = refl
same_list_comm [] (y ∷ b) = refl
same_list_comm (x ∷ a) [] = refl
same_list_comm (x ∷ a) (y ∷ b) = ground (arith, same_list_comm a b)

strncmp_eq-same_list :
    (a b : List ℕ) → length b ≤ length a → strncmp_eq (length a) a b ≡ same_list a b
unfolding strncmp_eq same_list
strncmp_eq-same_list [] [] h = refl
strncmp_eq-same_list [] (y ∷ b) h = absurd (omega arith)
strncmp_eq-same_list (x ∷ a) [] h = refl
strncmp_eq-same_list (x ∷ a) (y ∷ b) h =
    ap (λ (c : Bool). (x == y) && c) (strncmp_eq-same_list a b (omega arith))

prefix-same_text :
    (a b : List ℕ) → length (until_nul b) ≤ length (until_nul a) → prefix a b ≡ same_text a b
unfolding prefix same_text
prefix-same_text a b h = strncmp_eq-same_list (until_nul a) (until_nul b) h

all_alike-Longer :
    (v w : List (Option (List ℕ))) → Longer v w → all_alike prefix v w ≡ all_alike same_text v w
unfolding all_alike
all_alike-Longer [] [] h = refl
all_alike-Longer [] (y ∷ w) h = refl
all_alike-Longer (x ∷ v) [] h = ground arith
all_alike-Longer (none ∷ v) (y ∷ w) h = refl
all_alike-Longer (some a ∷ v) (none ∷ w) h = refl
all_alike-Longer (some a ∷ v) (some b ∷ w) h =
    rw (prefix-same_text a b h.0, all_alike-Longer v w h.1) refl

module _ (float_eq double_eq : ℕ → ℕ → Bool) where
  alike-equal :
      (v w : Value) → Whole v w → alike float_eq double_eq v w ≡ equal float_eq double_eq v w
  unfolding alike equal strings_alike
  alike-equal (value_string a) (value_string b) h =
      prefix-same_text b a h ∙ unfold same_text in same_list_comm (until_nul b) (until_nul a)
  alike-equal (value_strings a) (value_strings b) h = rw (h.0) (all_alike-Longer a b h.1)
  alike-equal (value_int a) (value_int b) h = refl
  alike-equal (value_long a) (value_long b) h = refl
  alike-equal (value_byte a) (value_byte b) h = refl
  alike-equal (value_float a) (value_float b) h = refl
  alike-equal (value_double a) (value_double b) h = refl
  alike-equal (value_ints a) (value_ints b) h = refl
  alike-equal (value_longs a) (value_longs b) h = refl
  alike-equal (value_bytes a) (value_bytes b) h = refl
  alike-equal (value_floats a) (value_floats b) h = refl
  alike-equal (value_doubles a) (value_doubles b) h = refl
  alike-equal _ _ h = refl

  -- The number of the first field that is set in both records and whose values are not equal.
  unfoldable pub first_different : ℕ → List Pair → Option ℕ
  unfolding equal
  first_different i [] = none
  first_different i (p ∷ ps) =
      let rest = first_different (suc i) ps in
      if p.both && not (equal float_eq double_eq p.left p.right) then some i else rest

  -- That number; DIF for one field or more of which none is set in both records; or -1.
  unfoldable pub answer : List Pair → ℤ
  unfolding first_different unset
  answer ps = elim (first_different 0 ps) [
    | some j ↦ pos j
    | none ↦ if ltb 0 (length ps) && (unset ps == length ps) then dif else negsuc 0
  ]

  first_unlike-first_different :
      (i : ℕ) (ps : List Pair)
      → AllWhole ps
      → first_unlike float_eq double_eq i ps ≡ first_different i ps
  unfolding first_unlike first_different
  first_unlike-first_different i [] h = refl
  first_unlike-first_different i (p ∷ ps) h = elim (Bool-cases p.both) [
    | inl e ↦
        rw (e, alike-equal p.left p.right (h.0 e), first_unlike-first_different (suc i) ps h.1)
          (ground arith)
    | inr e ↦ rw (e, first_unlike-first_different (suc i) ps h.1) refl
  ]

  abbrev chosen : Option ℕ → Bool → ℤ
  chosen r b = elim r [ some j ↦ pos j | none ↦ if b then dif else negsuc 0 ]

  difference-answer :
      (total : ℕ) (ps : List Pair)
      → AllWhole ps
      → total ≡ length ps
      → difference float_eq double_eq total 0 0 ps ≡ answer ps
  unfolding difference answer
  difference-answer total ps h same =
      let tests : (ltb 0 (0 + unset ps) && (0 + unset ps == total))
          ≡ (ltb 0 (length ps) && (unset ps == length ps)) =
        ground (arith, same) in
      ap (λ (r : Option ℕ). chosen r (ltb 0 (0 + unset ps) && (0 + unset ps == total)))
        (first_unlike-first_different 0 ps h)
      ∙ ap (chosen (first_different 0 ps)) tests

  length-pairs :
      (n : ℕ) (ms ns : List ℕ) (fs gs : List Field)
      → n ≤ length ms
      → n ≤ length ns
      → n ≤ length fs
      → n ≤ length gs
      → length (pairs n ms ns fs gs) ≡ n
  unfolding pairs
  length-pairs zero ms ns fs gs p q r s = refl
  length-pairs (suc n) (m ∷ ms) (k ∷ ns) (f ∷ fs) (g ∷ gs) p q r s =
      ap suc (length-pairs n ms ns fs gs (omega arith) (omega arith) (omega arith) (omega arith))
  length-pairs (suc n) _ _ _ _ p q r s = absurd (omega arith)

  -- Two records of the same number of fields, whose fields that are set in both may be compared
  -- and hold at most one array of each type; no string of `dest` is shorter than that of `src`,
  -- in arrays no string of `src` is shorter than that of `dest`, and no array of `dest` is one
  -- string that starts with null; under the `==` on floating-point numbers what equals a number
  -- equal to 0 equals 0: `compare_rec` is defined, and its result is the number of the first
  -- field set in both whose values are not equal, DIF where there are fields and none is set in
  -- both, and -1 in all other cases.
  pub compare_rec-first_different :
      ZeroAlike float_eq
      → ZeroAlike double_eq
      → (src dest : RecordF) → src.fields_num ≡ dest.fields_num
      → src.fields_num ≤ length src.field_set
      → src.fields_num ≤ length dest.field_set
      → src.fields_num ≤ length src.fields
      → src.fields_num ≤ length dest.fields
      → AllComparable (record_pairs src dest)
      → OnceEach (record_pairs src dest)
      → AllWhole (record_pairs src dest)
      → compare_rec float_eq double_eq src dest ≡ ok (answer (record_pairs src dest))
  unfolding record_pairs
  compare_rec-first_different zf zd src dest e p q r s comp once whole =
      compare_rec-difference float_eq double_eq zf zd src dest e p q r s comp once
      ∙ ap ok (
          difference-answer src.fields_num (record_pairs src dest) whole (
            sym (
              length-pairs src.fields_num src.field_set dest.field_set src.fields dest.fields p q r
                s)))
