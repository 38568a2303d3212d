-- ===== src/Schemas.antt =====
-- The checks of an input against the schema of a file: src/parse.c, and `set_schema`,
-- `schema_has_type` of src/record.c. `names` are rows of bytes that hold C strings, as in
-- `fields_name`. A type is the `uint32_t` of the file; -1, no type, is 2^32 - 1. A record of the
-- program holds rows and types for all of MAX_FIELD_NR; here a list shorter than the loop that reads it
-- makes the run undefined.
pub mod Added
pub mod Moved
pub mod Order
use isam_db_c_language.Base.{
  ℕ, zero, suc, ◌+◌, ◌-◌, ◌^◌, Bool, true, false, ◌&&◌, List, [], ◌∷◌, ◌++◌, ok, undefined, Outcome,
  ◌>>=◌, deref, if◌then◌else◌, ltb, ◌==◌, length, drop, get_elem?, set,
}
use isam_db_c_language.Header.{Schema, c_str}
use isam_db_c_language.Compare.{starts_alike}

abbrev pub no_type : ℕ
no_type = 2 ^ 32 - 1

abbrev pub schema_eq : ℕ
schema_eq = 3

abbrev pub schema_nw : ℕ
schema_nw = 4

abbrev pub schema_ct : ℕ
schema_ct = 5

abbrev pub schema_ct_nt : ℕ
schema_ct_nt = 12

-- `strncpy(row, name, strlen(name))`: the NUL is not copied.
unfoldable pub copy_name : List ℕ → List ℕ → Outcome (List ℕ)
unfolding c_str
copy_name row name = c_str name >>= λ s. ok (s ++ drop (length s) row)

-- The loop of `schema_has_type`.
unfoldable pub all_typed : ℕ → List ℕ → Outcome Bool
all_typed zero types = ok true
all_typed (suc n) [] = undefined
all_typed (suc n) (t ∷ types) =
    let rest = all_typed n types in if t == no_type then ok false else rest

unfoldable pub schema_has_type : Schema → Outcome Bool
unfolding all_typed
schema_has_type sch = all_typed sch.fields_num sch.types

-- The inner loop of `schema_nw_assyign_type`: is the name a prefix of a name in the schema?
unfoldable pub is_in_schema : ℕ → List ℕ → List (List ℕ) → Outcome Bool
unfolding starts_alike
is_in_schema zero name rows = ok false
is_in_schema (suc n) name [] = undefined
is_in_schema (suc n) name (row ∷ rows) =
    let rest = is_in_schema n name rows in
    starts_alike name name row >>= λ same. if same then ok true else rest

-- A new field, at `new_count`.
unfoldable pub put_new : Schema → ℕ → List ℕ → ℕ → Outcome Schema
unfolding copy_name
put_new sch i name t = deref (get_elem? sch.fields_name i) >>= λ row. copy_name row name >>= λ row'.
    deref (get_elem? sch.types i) >>= λ old.
    ok (record sch { fields_name = set sch.fields_name i row'; types = set sch.types i t })

-- What a round does with the name and the type of a field, and with `new_count`.
unfoldable pub add_field : Bool → List ℕ → ℕ → ℕ → Schema → Outcome (Schema × ℕ)
unfolding put_new
add_field true name t new_count sch = ok (sch, new_count)
add_field false name t new_count sch = put_new sch new_count name t >>= λ s. ok (s, new_count + 1)

-- The outer loop, with the rounds that are left and `new_count`; the inner loop looks at the `old`
-- fields only, for `fields_num` stays.
unfoldable pub add_new : ℕ → ℕ → List (List ℕ) → List ℕ → ℕ → Schema → Outcome (Schema × ℕ)
unfolding is_in_schema add_field
add_new old zero names types new_count sch = ok (sch, new_count)
add_new old (suc n) (name ∷ names) (t ∷ types) new_count sch =
    is_in_schema old name sch.fields_name >>= λ found.
    add_field found name t new_count sch >>= λ r. add_new old n names types (r.1) (r.0)
add_new old (suc n) _ _ new_count sch = undefined

-- The schema, and the result as a truth value.
unfoldable pub schema_nw_assyign_type :
    Schema → List (List ℕ) → List ℕ → ℕ → Outcome (Schema × Bool)
unfolding add_new
schema_nw_assyign_type sch names types count =
    add_new sch.fields_num count names types sch.fields_num sch >>= λ r.
    let sch' = record (r.0) { fields_num = r.1 } in ok (sch', ltb sch'.fields_num (r.1))

-- The loops of `schema_eq_assign_type`: one field of the schema against each name of the input, the
-- type that it has then, and how often it was given one.
unfoldable pub assign_from : ℕ → List ℕ → List (List ℕ) → List ℕ → ℕ → ℕ → Outcome (ℕ × ℕ)
unfolding starts_alike
assign_from zero row names types t count = ok (t, count)
assign_from (suc n) row (name ∷ names) (u ∷ types) t count = starts_alike name name row >>= λ same.
    let given = same && (t == no_type) in
    assign_from n row names types (if given then u else t) (if given then count + 1 else count)
assign_from (suc n) row _ _ t count = undefined

unfoldable pub assign_all :
    ℕ → ℕ → List (List ℕ) → List ℕ → List (List ℕ) → List ℕ → ℕ → Outcome (List ℕ × ℕ)
unfolding assign_from
assign_all total zero rows ts names types count = ok (ts, count)
assign_all total (suc n) (row ∷ rows) (t ∷ ts) names types count =
    assign_from total row names types t count >>= λ r.
    assign_all total n rows ts names types (r.1) >>= λ l. ok ((r.0) ∷ (l.0), l.1)
assign_all total (suc n) _ _ names types count = undefined

unfoldable pub schema_eq_assign_type : Schema → List (List ℕ) → List ℕ → Outcome (Schema × Bool)
unfolding assign_all
schema_eq_assign_type sch names types =
    assign_all sch.fields_num sch.fields_num sch.fields_name sch.types names types 0 >>= λ r.
    ok (record sch { types = r.0 }, ltb 0 (r.1))
