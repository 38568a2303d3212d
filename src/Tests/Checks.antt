-- ===== src/Tests/Checks.antt =====
-- An input against a schema of two fields.
use isam_db_c_language.Base.{
  ℕ, zero, suc, ◌≡◌, ◌≤◌, ◌<◌, refl, arith, false, List, [], ◌∷◌, ok, map, replicate, some,
  get_elem?,
}
use isam_db_c_language.HashTbl.{strncmp_eq}
use isam_db_c_language.Io.Bytes.{pad}
use isam_db_c_language.Header.{Schema, c_str}
use isam_db_c_language.Records.{max_field_lt}
use isam_db_c_language.Schemas.{schema_eq, schema_ct, no_type, schema_nw_assyign_type}
use isam_db_c_language.Schemas.Order.{Input, sort_input_like_header_schema}
use isam_db_c_language.Schemas.Moved.{Placed, sort_input_like_header_schema-Placed}
use isam_db_c_language.Schemas.Added.{Kept, Added, new_fields, schema_nw_assyign_type-Added}

abbrev zero_row : List ℕ
zero_row = replicate max_field_lt 0

abbrev row_a : List ℕ
row_a = pad 32 (b'a' ∷ [])

abbrev two_fields : Schema
two_fields = record {
  fields_num = 2;
  fields_name = (b'a' ∷ 0 ∷ []) ∷ (b'b' ∷ 0 ∷ []) ∷ zero_row ∷ zero_row ∷ [];
  types = 0 ∷ 3 ∷ no_type ∷ no_type ∷ [];
}

-- The fields in the other order.
abbrev reordered : Input ℕ
reordered = record {
  names = (b'b' ∷ 0 ∷ []) ∷ (b'a' ∷ 0 ∷ []) ∷ [];
  values = some 20 ∷ some 10 ∷ [];
  types = 3 ∷ 0 ∷ [];
}

sort_input_like_header_schema-Placed_example :
    (y : Input ℕ) × (sort_input_like_header_schema schema_eq 2 two_fields reordered ≡ ok (some y))
    × Placed (1 ∷ 0 ∷ []) reordered.values y.values
    × Placed (1 ∷ 0 ∷ []) reordered.types y.types
    × Placed (1 ∷ 0 ∷ []) (map (pad max_field_lt) ((b'b' ∷ []) ∷ (b'a' ∷ []) ∷ [])) y.names
unfolding c_str strncmp_eq
sort_input_like_header_schema-Placed_example =
    sort_input_like_header_schema-Placed schema_eq two_fields reordered
      ((b'a' ∷ []) ∷ (b'b' ∷ []) ∷ [] ∷ [] ∷ []) ((b'b' ∷ []) ∷ (b'a' ∷ []) ∷ []) (1 ∷ 0 ∷ []) refl
      refl refl (omega arith) (omega arith) (omega arith) (omega arith)
      ((omega arith, tt), (tt, tt)) (omega arith) (refl, (refl, (refl, (refl, tt))))
      (refl, (refl, tt)) ((refl, refl), (refl, tt))

-- For SCHEMA_CT no value moves, though the fields stand in the other order.
present_left :
    sort_input_like_header_schema schema_ct 2 two_fields reordered
    ≡ ok (
        some (record {
          names = pad 32 (b'b' ∷ []) ∷ pad 32 (b'a' ∷ []) ∷ replicate 198 zero_row;
          values = some 20 ∷ some 10 ∷ [];
          types = 3 ∷ 0 ∷ [];
        }))
unfolding sort_input_like_header_schema
present_left = refl

two_fields-Spare :
    (j : ℕ) → 2 ≤ j → j < 4 → get_elem? two_fields.fields_name j ≡ some (replicate max_field_lt 0)
two_fields-Spare zero h k = absurd (omega arith)
two_fields-Spare (suc zero) h k = absurd (omega arith)
two_fields-Spare (suc (suc zero)) h k = refl
two_fields-Spare (suc (suc (suc zero))) h k = refl
two_fields-Spare (suc (suc (suc (suc j)))) h k = absurd (omega arith)

-- "b" is there, "c" is new.
schema_nw_assyign_type-Added_example :
    (sch' : Schema) × (schema_nw_assyign_type two_fields
        ((b'b' ∷ 0 ∷ []) ∷ (b'c' ∷ 0 ∷ []) ∷ [])
        (3 ∷ 1 ∷ [])
        2
      ≡ ok (sch', false))
    × (sch'.fields_num ≡ 3)
    × Kept 2 two_fields sch'
    × Added 2 (((b'c' ∷ []), 1) ∷ []) sch'
unfolding c_str new_fields strncmp_eq
schema_nw_assyign_type-Added_example =
    schema_nw_assyign_type-Added two_fields ((b'a' ∷ []) ∷ (b'b' ∷ []) ∷ [])
      ((b'b' ∷ 0 ∷ []) ∷ (b'c' ∷ 0 ∷ []) ∷ []) ((b'b' ∷ []) ∷ (b'c' ∷ []) ∷ []) (3 ∷ 1 ∷ [])
      (refl, (refl, tt)) (refl, (refl, tt)) (omega arith) (omega arith) (omega arith) (omega arith)
      two_fields-Spare
