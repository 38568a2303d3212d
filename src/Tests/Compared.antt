-- ===== src/Tests/Compared.antt =====
-- Comparing small records.
use isam_db_c_language.Base.{◌≡◌, refl, arith, [], ◌∷◌, ok, some, ◌==◌}
use isam_db_c_language.Base.Int.{pos, negsuc}
use isam_db_c_language.Records.{RecordF, value_int, value_ints, value_string}
use isam_db_c_language.Compare.{compare_rec}
use isam_db_c_language.Header.{c_str}
use isam_db_c_language.IndexFile.{until_nul}
use isam_db_c_language.Compare.Loop.{kind}
use isam_db_c_language.Compare.Reference.{alike}
use isam_db_c_language.Compare.Fields.{
  difference, record_pairs, AllComparable, OnceEach, compare_rec-difference,
}
use isam_db_c_language.Compare.Exact.{AllWhole, answer, compare_rec-first_different}
use isam_db_c_language.Compare.Twice.{two_arrays, compare_rec-two_arrays}

-- A number, an array and a string; the string of the second record differs.
abbrev stored : RecordF
stored = record {
  fields_num = 3;
  field_set = 1 ∷ 1 ∷ 1 ∷ [];
  fields =
      record { field_name = b'n' ∷ 0 ∷ []; content = value_int 7 }
      ∷ record { field_name = b'a' ∷ 0 ∷ []; content = value_ints (some 1 ∷ some 2 ∷ []) }
      ∷ record { field_name = b's' ∷ 0 ∷ []; content = value_string (b'h' ∷ b'i' ∷ 0 ∷ []) }
      ∷ [];
}

abbrev changed : RecordF
changed = record {
  fields_num = 3;
  field_set = 1 ∷ 1 ∷ 1 ∷ [];
  fields =
      record { field_name = b'n' ∷ 0 ∷ []; content = value_int 7 }
      ∷ record { field_name = b'a' ∷ 0 ∷ []; content = value_ints (some 1 ∷ some 2 ∷ []) }
      ∷ record { field_name = b's' ∷ 0 ∷ []; content = value_string (b'h' ∷ b'o' ∷ 0 ∷ []) }
      ∷ [];
}

stored-AllComparable : AllComparable (record_pairs stored changed)
unfolding record_pairs c_str until_nul
stored-AllComparable =
    (λ _. tt, (λ _. ((tt, (tt, tt)), (tt, (tt, tt)), omega arith), (λ _. (refl, refl), tt)))

stored-OnceEach : OnceEach (record_pairs stored changed)
unfolding record_pairs kind
stored-OnceEach =
    (λ _. (λ _ k e f. cc, (λ _ k e f. cc, tt)), (λ _. (λ _ k e f. cc, tt), (λ _. tt, tt)))

compare_rec-difference_example : compare_rec ◌==◌ ◌==◌ stored changed ≡ ok (pos 2)
unfolding difference record_pairs alike
compare_rec-difference_example =
    compare_rec-difference ◌==◌ ◌==◌ (λ x y h. ground arith) (λ x y h. ground arith) stored changed
      refl (omega arith) (omega arith) (omega arith) (omega arith) stored-AllComparable
      stored-OnceEach

stored-AllWhole : AllWhole (record_pairs stored changed)
unfolding record_pairs until_nul
stored-AllWhole = (λ _. tt, (λ _. tt, (λ _. omega arith, tt)))

compare_rec-first_different_example :
    compare_rec ◌==◌ ◌==◌ stored changed ≡ ok (answer ◌==◌ ◌==◌ (record_pairs stored changed))
compare_rec-first_different_example =
    compare_rec-first_different ◌==◌ ◌==◌ (λ x y h. ground arith) (λ x y h. ground arith) stored
      changed refl (omega arith) (omega arith) (omega arith) (omega arith) stored-AllComparable
      stored-OnceEach stored-AllWhole

answer-runs : answer ◌==◌ ◌==◌ (record_pairs stored changed) ≡ pos 2
unfolding answer record_pairs
answer-runs = refl

compare_rec-runs : compare_rec ◌==◌ ◌==◌ stored changed ≡ ok (pos 2)
unfolding compare_rec
compare_rec-runs = refl

compare_rec-two_arrays_example :
    (compare_rec ◌==◌ ◌==◌
        (two_arrays (1 ∷ 2 ∷ []) (3 ∷ 4 ∷ []))
        (two_arrays (1 ∷ 2 ∷ []) (3 ∷ 4 ∷ []))
      ≡ ok (pos 1))
    × (compare_rec ◌==◌ ◌==◌
          (two_arrays (1 ∷ 2 ∷ []) (3 ∷ 4 ∷ []))
          (two_arrays (1 ∷ 2 ∷ []) (5 ∷ 6 ∷ []))
        ≡ ok (negsuc 0))
compare_rec-two_arrays_example =
    compare_rec-two_arrays ◌==◌ ◌==◌ (1 ∷ 2 ∷ []) (3 ∷ 4 ∷ []) (5 ∷ 6 ∷ []) (omega arith) refl refl
      (refl, (refl, tt))
