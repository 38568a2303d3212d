-- ===== src/Ram/Equivalence.antt =====
-- `write_ram_record` and `write_file`: the same bytes.
use mathlib.Core.Path.{subst}
use isam_db_c_language.Base.{
  ℕ, ◌+◌, ◌-◌, ◌*◌, ◌%◌, ◌<◌, ◌≤◌, ◌≡◌, refl, ap, sym, ◌∙◌, arith, Bool-cases, true, false, List,
  ◌++◌, Outcome, ok, undefined, ◌>>=◌, inl, inr, some, ltb, ◌==◌, length, drop, length-append,
  append_assoc,
}
use isam_db_c_language.Io.{File}
use isam_db_c_language.Io.Bytes.{be, pad, length-be}
use isam_db_c_language.Io.Wire.{AtEnd, advance}
use isam_db_c_language.Records.{RecordF}
use isam_db_c_language.Records.StringLayout.{length-pad}
use isam_db_c_language.Records.RecordLayout.{
  IsRecord, positions, set_fields, indexes_bytes, values_bytes, record_bytes, record_calls,
  set_count-small, write_file-advance,
}
use isam_db_c_language.Records.Store.{write_file}
use isam_db_c_language.Ram.{
  RamFile, put, put_fields, put_indexes, put_parts, get_disk_size_record, make_room,
  write_ram_record,
}
use isam_db_c_language.Ram.Parts.{ArePlain, Puts-fields, Puts-indexes, count_active-positions}
use isam_db_c_language.Ram.Puts.{ram, Puts, Puts-put, Puts-seq}
use isam_db_c_language.Ram.Size.{AtLeast, fields_size-AtLeast}

same_ok : (a b : ℕ) → ok a ≡ ok b → a ≡ b
same_ok a b e = ap number e
  where
    number : Outcome ℕ → ℕ
    number (ok n) = n
    number undefined = 0

-- Growing keeps what is written and leaves room for `n` bytes, if twice the capacity is enough.
make_room-ram :
    (fresh used free : List ℕ) (n : ℕ)
    → n + length used ≤ 2 * (length used + length free)
    → (more : List ℕ) × (make_room fresh n (ram used free) ≡ ram used more) × (n ≤ length more)
unfolding make_room
make_room-ram fresh used free n enough =
    let all = length (used ++ free) in
    let size : all ≡ length used + length free = length-append used free in
    elim (Bool-cases (ltb (all - length used) n)) [
      | inl short ↦ rw short (
        free ++ pad all fresh,
        (λ i. record { mem = append_assoc used free (pad all fresh) i; size = length used }),
        omega (arith, size, length-append free (pad all fresh), length-pad all fresh, enough),
      )
      | inr room ↦ rw room (free, refl, ground (arith, size))
    ]

module _ (float_u32_float u32_float double_u64 : ℕ → ℕ) (rec : RecordF) (is : IsRecord rec)
    (plain : ArePlain rec.fields_num rec.field_set rec.fields) where
  disk_size : AtLeast (get_disk_size_record rec) (length (record_bytes rec 0))
  unfolding get_disk_size_record record_bytes set_fields
  disk_size =
      let parts = fields_size-AtLeast rec.fields_num 0 rec.field_set rec.fields is.each plain in
      let is = positions rec.fields_num 0 rec.field_set in
      let vs = values_bytes rec.fields_num rec.field_set rec.fields in
      rw (parts.1) (
        1 + parts.0 + 8,
        refl,
        omega (
          arith,
          parts.2,
          length-append (be 1 (length is)) (indexes_bytes is ++ (vs ++ be 8 0)),
          length-append (indexes_bytes is) (vs ++ be 8 0),
          length-append vs (be 8 0),
          length-be 1 (length is),
          length-be 8 0,
        ),
      )

  abbrev put_values : RamFile → Outcome RamFile
  put_values =
      put_fields float_u32_float u32_float double_u64 rec.fields_num rec.field_set rec.fields

  Puts-record :
      Puts
        (λ r. put (be 1 (length (set_fields rec))) r >>= λ r.
          put_indexes rec.fields_num 0 rec.field_set r >>= put_values >>= put (be 8 0))
        (be 1 (length (set_fields rec))
          ++ (indexes_bytes (set_fields rec)
              ++ values_bytes rec.fields_num rec.field_set rec.fields
              ++ be 8 0))
  unfolding set_fields
  Puts-record = Puts-seq (put (be 1 _)) _ _ _ (Puts-put (be 1 _)) (
      Puts-seq (λ r. put_indexes rec.fields_num 0 rec.field_set r >>= put_values) (put (be 8 0)) _ _
        (Puts-seq (put_indexes rec.fields_num 0 rec.field_set) put_values _ _
          (Puts-indexes rec.fields_num 0 rec.field_set rec.fields is.each)
          (Puts-fields float_u32_float u32_float double_u64 rec.fields_num rec.field_set rec.fields
            is.each plain))
        (Puts-put (be 8 0)))

  -- After the count.
  abbrev rest_of : RamFile → Outcome RamFile
  rest_of r = put_indexes rec.fields_num 0 rec.field_set r >>= put_values >>= put (be 8 0)

  record_bytes-grouped :
      be 1 (length (set_fields rec))
        ++ (indexes_bytes (set_fields rec)
            ++ values_bytes rec.fields_num rec.field_set rec.fields
            ++ be 8 0)
      ≡ record_bytes rec 0
  unfolding record_bytes
  record_bytes-grouped = ap (◌++◌ (be 1 (length (set_fields rec)))) (
      append_assoc (indexes_bytes (set_fields rec))
        (values_bytes rec.fields_num rec.field_set rec.fields) (be 8 0))

  put_count-record :
      (used more : List ℕ)
      → length (record_bytes rec 0) ≤ length more
      → (put (be 1 (length (set_fields rec))) (ram used more) >>= rest_of)
        ≡ ok (ram (used ++ record_bytes rec 0) (drop (length (record_bytes rec 0)) more))
  put_count-record =
      subst (Puts (λ r. put (be 1 (length (set_fields rec))) r >>= rest_of)) record_bytes-grouped
        Puts-record

  with_true :
      (m : Outcome RamFile) (r : RamFile)
      → (m >>= rest_of) ≡ ok r
      → (m >>= put_parts float_u32_float u32_float double_u64 rec) ≡ ok (true, r)
  unfolding put_parts
  with_true (ok x) r e = ap (λ (o : Outcome RamFile). o >>= λ q. ok (true, q)) e
  with_true undefined r e = ap (λ (o : Outcome RamFile). o >>= λ q. ok (true, q)) e

-- Where the memory holds the contents of a file and is not empty, and the size of the record and
-- of these contents is at most twice its capacity: for a record whose set fields are integers of
-- four or eight bytes or strings, `write_ram_record` is defined, returns 0 and leaves in the
-- memory the contents that the file has after `write_file`, with calls enough, whatever the
-- memory holds that a `realloc` adds.
pub write_ram_record-write_file :
    (float_u32_float u32_float double_u64 : ℕ → ℕ) (fresh : List ℕ) (rec : RecordF)
    (used free : List ℕ) (n : ℕ) (f : File)
    → IsRecord rec
    → ArePlain rec.fields_num rec.field_set rec.fields
    → get_disk_size_record rec ≡ ok n
    → 0 < length used + length free
    → n + length used ≤ 2 * (length used + length free)
    → AtEnd f
    → f.bytes ≡ used
    → record_calls rec ≤ f.budget
    → (more : List ℕ) × (g : File) × (write_file rec 0 f ≡ ok (some 1, g))
      × (write_ram_record float_u32_float u32_float double_u64 fresh rec (ram used free)
          ≡ ok (true, ram g.bytes more))
unfolding write_ram_record set_fields
write_ram_record-write_file c c' c'' fresh rec used free n f is plain size some_room enough end same
      calls =
    let least = disk_size c c' c'' rec is plain in
    let room = make_room-ram fresh used free n enough in
    let count = length (set_fields rec) in
    let fits : count % 256 ≡ count = omega (arith, set_count-small rec is) in
    let nonzero : (count == 0) ≡ false = ground (arith, is.some_set) in
    let there : (length (used ++ free) == 0) ≡ false =
      ground (arith, length-append used free, some_room) in
    let enough_more : length (record_bytes rec 0) ≤ length room.0 =
      omega (arith, least.2, room.2, same_ok least.0 n (sym least.1 ∙ size)) in
    let bytes' = used ++ record_bytes rec 0 in
    (
      drop (length (record_bytes rec 0)) room.0,
      advance (record_bytes rec 0) (record_calls rec) f,
      write_file-advance rec 0 f is end calls,
      rw
          (
            size,
            count_active-positions rec.fields_num 0 rec.field_set rec.fields is.each,
            there,
            room.1,
            fits,
            nonzero,
            same,
          )
          (with_true c c' c'' rec is plain (put (be 1 count) (ram used room.0)) _
            (put_count-record c c' c'' rec is plain used room.0 enough_more)),
    )
