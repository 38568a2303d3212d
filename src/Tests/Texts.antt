-- ===== src/Tests/Texts.antt =====
-- Small texts: their types, names that stand twice, and paths.
use isam_db_c_language.Base.{
  ℕ, ◌≡◌, ◌↔◌, refl, arith, true, List, [], ◌∷◌, ◌++◌, ok, length, replicate, none, some,
  length-replicate,
}
use isam_db_c_language.Records.{type_long, type_double, type_array_long}
use isam_db_c_language.Text.{
  codes, is_target_db_type, count_fields, check_fields_integrity, three_file_path,
}
use isam_db_c_language.Text.Numbers.{is_integer, in_brackets, assign_type}
use isam_db_c_language.Text.Integrity.{AllDistinct, check_fields_integrity-AllDistinct}
use isam_db_c_language.Text.Paths.{Names, three_file_path-Names}
use isam_db_c_language.Text.Types.{described, assign_type-described}

assign_type-described_example : assign_type (codes "-1.5") ≡ described (codes "-1.5")
unfolding in_brackets
assign_type-described_example =
    assign_type-described (codes "-1.5") refl
      (omega arith, (omega arith, (omega arith, (omega arith, tt))))

assign_type-runs : assign_type (codes "-1.5") ≡ some type_double
unfolding assign_type
assign_type-runs = refl

-- More than LONG_MAX, and a long.
too_long : assign_type (codes "10000000000000000000") ≡ some type_long
unfolding assign_type
too_long = refl

array-runs : assign_type (codes "1,22,3") ≡ some type_array_long
unfolding assign_type
array-runs = refl

-- The empty text counts as an integer.
empty_is_integer : is_integer [] ≡ true
unfolding is_integer
empty_is_integer = refl

count_fields-runs : count_fields (codes "a:t_s:b:t_i") none ≡ 2
unfolding count_fields is_target_db_type
count_fields-runs = refl

-- The last name stands twice, which is not seen.
check_fields_integrity-AllDistinct_example :
    (check_fields_integrity ((codes "a" ∷ codes "b" ∷ []) ++ codes "b" ∷ []) ≡ true)
    ↔ AllDistinct (codes "a" ∷ codes "b" ∷ [])
check_fields_integrity-AllDistinct_example =
    check_fields_integrity-AllDistinct (codes "a" ∷ codes "b" ∷ []) (codes "b")

check_fields_integrity-runs : check_fields_integrity (codes "a" ∷ codes "b" ∷ codes "b" ∷ []) ≡ true
unfolding check_fields_integrity
check_fields_integrity-runs = refl

empty_row : List ℕ
empty_row = replicate 1024 0

length-empty_row : length empty_row ≡ 1024
unfolding empty_row
length-empty_row = length-replicate {A = ℕ} 1024 0

three_file_path-Names_example :
    (r₀ r₁ r₂ : List ℕ) × (three_file_path (codes "db") (empty_row, empty_row, empty_row)
      ≡ ok (some (r₀, r₁, r₂)))
    × Names r₀ (codes "db") (codes ".inx")
    × Names r₁ (codes "db") (codes ".dat")
    × Names r₂ (codes "db") (codes ".sch")
three_file_path-Names_example =
    three_file_path-Names (codes "db") empty_row empty_row empty_row (omega arith) length-empty_row
      length-empty_row length-empty_row (omega arith)
