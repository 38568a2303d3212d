-- ===== src/Records/Store.antt =====
-- `write_file` (of a record that is not updated), `read_file` and `get_update_offset` of src/file.c.
use isam_db_c_language.Base.{
  ℕ, zero, suc, ◌+◌, ◌%◌, Bool, true, false, List, [], ◌∷◌, ok, undefined, Outcome, if◌then◌else◌,
  ltb, ◌==◌, Option, none, some,
}
use isam_db_c_language.Base as Base
use isam_db_c_language.Io.{Io, ◌>>=◌, ◌>>◌, pure, lift, read, read_be, write_be}
use isam_db_c_language.Header.{Schema}
use isam_db_c_language.Records.{
  Field, RecordF, create_record, max_field_nr, ntg_wr, read_field, write_field,
}

-- The fields that are set to 1, counted.
unfoldable pub count_set : ℕ → List ℕ → Outcome ℕ
count_set zero set = ok 0
count_set (suc n) [] = undefined
count_set (suc n) (b ∷ set) = Base.◌>>=◌ (count_set n set) λ c. ok (if b == 1 then suc c else c)

-- The positions of the set fields, from `i` on.
unfoldable pub write_indexes : ℕ → ℕ → List ℕ → Io (Unit {0})
unfolding write_be
write_indexes zero i set = pure tt
write_indexes (suc n) i [] = lift undefined
write_indexes (suc n) i (b ∷ set) =
    (if b == 0 then pure tt else write_be 1 i) >> write_indexes n (suc i) set

unfoldable pub write_values : ℕ → List ℕ → List Field → Io (Unit {0})
unfolding write_field
write_values zero set fields = pure tt
write_values (suc n) (b ∷ set) (x ∷ fields) =
    (if b == 0 then pure tt else write_field x.content) >> write_values n set fields
write_values (suc n) _ _ = lift undefined

-- The parts of a record on the file.
unfoldable pub write_parts : ℕ → RecordF → ℕ → Io (Unit {0})
unfolding write_be write_indexes write_values
write_parts count rec update_off_t = do
  write_be 1 count
  write_indexes rec.fields_num 0 rec.field_set
  write_values rec.fields_num rec.field_set rec.fields
  write_be 8 update_off_t

-- With `update` 0. The count is a `uint8_t`; where it is 0 nothing is written.
unfoldable pub write_file : RecordF → ℕ → Io ℕ
unfolding count_set write_parts
write_file rec update_off_t = lift (count_set rec.fields_num rec.field_set) >>= λ n.
    if n % 256 == 0 then pure ntg_wr else (write_parts (n % 256) rec update_off_t >> pure 1)

unfoldable pub get_update_offset : Io ℕ
unfolding read_be
get_update_offset = read_be 8

-- A call whose failure does not end the code at once.
unfoldable pub attempt : {A : Type 0} → Io A → Io (Option A)
attempt m f = elim (m f) [ undefined ↦ undefined | ok r ↦ ok (some r.0, r.1) ]

-- `i_ne`, which keeps its value where the file has ended.
unfoldable pub next_index : List ℕ → ℕ → ℕ
next_index [] i = i
next_index (b ∷ d) i = b

-- `field_set[i] = 1`, of an array of `max_field_nr`.
unfoldable pub mark : List ℕ → ℕ → Outcome (List ℕ)
mark set i = if ltb i max_field_nr then ok (Base.set set i 1) else undefined

-- The positions into `field_set`, and whether all could be read.
unfoldable pub read_indexes : ℕ → ℕ → List ℕ → Io (List ℕ × Bool)
unfolding read attempt next_index mark
read_indexes zero i set = pure (set, true)
read_indexes (suc n) i set = attempt (read 1) >>= λ r. elim r [
  | none ↦ pure (set, false)
  | some d ↦ lift (mark set (next_index d i)) >>= read_indexes n (next_index d i)
]

unfoldable pub read_values : ℕ → List ℕ → List Field → Io (List Field)
unfolding read_field
read_values zero set fields = pure fields
read_values (suc n) (b ∷ set) (x ∷ fields) = do
  v ← (if b == 0 then pure x.content else read_field x.content)
  rest ← read_values n set fields
  pure (record x { content = v } ∷ rest)
read_values (suc n) _ _ = lift undefined

-- 0 is returned with the record as it is where a position could not be read.
unfoldable pub read_file : Schema → Io RecordF
unfolding create_record read_be read_indexes read_values
read_file sch = do
  rec ← lift (create_record sch)
  count ← read_be 1
  r ← read_indexes count 0 rec.field_set
  (if r.1
      then (read_values rec.fields_num r.0 rec.fields >>= λ fs.
          pure (record rec { field_set = r.0; fields = fs }))
      else pure (record rec { field_set = r.0 }))

-- `read_file` and `get_update_offset`, the way the program calls them.
abbrev pub read_part : Schema → Io (RecordF × ℕ)
read_part sch = read_file sch >>= λ r. get_update_offset >>= λ o. pure (r, o)
