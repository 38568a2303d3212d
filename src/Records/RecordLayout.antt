-- ===== src/Records/RecordLayout.antt =====
-- The bytes of a record in the data file, and `write_file` as their writer.
use isam_db_c_language.Base.{
  ℕ, zero, suc, ◌+◌, ◌%◌, ◌<◌, ◌≤◌, ◌≡◌, refl, ◌∙◌, arith, List, [], ◌∷◌, ◌++◌, ok, length,
  if◌then◌else◌, ◌==◌, false, ◌⊎◌, inl, inr, some,
}
use isam_db_c_language.Io.{File, pure, lift, write_be}
use isam_db_c_language.Io.Bytes.{be}
use isam_db_c_language.Io.Wire.{
  AtEnd, Appends, Appends-write_be, Appends-pure, Appends-seq, advance, bind-ok,
}
use isam_db_c_language.Records.{Field, RecordF, max_field_nr}
use isam_db_c_language.Records.Layout.{IsValue, value_layout, value_calls, Appends-field}
use isam_db_c_language.Records.Store.{
  count_set, write_indexes, write_values, write_parts, write_file,
}

-- A flag and its field: the flag is 0, or it is 1 and the field has a value.
abbrev pub IsField : ℕ → Field → Type 0
IsField b x = (b ≡ 0) ⊎ ((b ≡ 1) × IsValue x.content)

-- The first `n` flags and fields.
abbrev pub AreFields : ℕ → List ℕ → List Field → Type 0
AreFields zero set fields = Unit
AreFields (suc n) [] fields = ⊥
AreFields (suc n) (b ∷ set) [] = ⊥
AreFields (suc n) (b ∷ set) (x ∷ fields) = IsField b x × AreFields n set fields

-- The positions of the set flags, from `i` on.
unfoldable pub positions : ℕ → ℕ → List ℕ → List ℕ
positions zero i set = []
positions (suc n) i [] = []
positions (suc n) i (b ∷ set) =
    let rest = positions n (suc i) set in if b == 0 then rest else i ∷ rest

unfoldable pub indexes_bytes : List ℕ → List ℕ
indexes_bytes [] = []
indexes_bytes (i ∷ is) = be 1 i ++ indexes_bytes is

unfoldable pub indexes_calls : List ℕ → ℕ
indexes_calls [] = 0
indexes_calls (i ∷ is) = 1 + indexes_calls is

unfoldable pub values_bytes : ℕ → List ℕ → List Field → List ℕ
values_bytes (suc n) (b ∷ set) (x ∷ fields) =
    let rest = values_bytes n set fields in if b == 0 then rest else value_layout x.content ++ rest
values_bytes _ _ _ = []

unfoldable pub values_calls : ℕ → List ℕ → List Field → ℕ
values_calls (suc n) (b ∷ set) (x ∷ fields) =
    let rest = values_calls n set fields in if b == 0 then rest else value_calls x.content + rest
values_calls _ _ _ = 0

-- The positions of the record's set fields.
unfoldable pub set_fields : RecordF → List ℕ
set_fields rec = positions rec.fields_num 0 rec.field_set

-- The layout: the number of set fields, their positions, their values, the offset of the next part.
unfoldable pub record_bytes : RecordF → ℕ → List ℕ
record_bytes rec off =
    be 1 (length (set_fields rec))
    ++ (indexes_bytes (set_fields rec)
        ++ (values_bytes rec.fields_num rec.field_set rec.fields ++ be 8 off))

unfoldable pub record_calls : RecordF → ℕ
record_calls rec =
    1
    + (indexes_calls (set_fields rec) + (values_calls rec.fields_num rec.field_set rec.fields + 1))

-- What `write_file` asks of a record with fields that are set.
pub record IsRecord (rec : RecordF) : Type 0 where
  pub each : AreFields rec.fields_num rec.field_set rec.fields
  pub few : rec.fields_num ≤ max_field_nr
  pub some_set : 0 < length (set_fields rec)

pub length-positions : (n i : ℕ) (set : List ℕ) → length (positions n i set) ≤ n
unfolding positions
length-positions zero i set = omega arith
length-positions (suc n) i [] = omega arith
length-positions (suc n) i (b ∷ set) = ground (arith, length-positions n (suc i) set)

count_set-positions :
    (n i : ℕ) (set : List ℕ) (fields : List Field)
    → AreFields n set fields
    → count_set n set ≡ ok (length (positions n i set))
unfolding count_set positions
count_set-positions zero i set fields h = refl
count_set-positions (suc n) i [] fields h = absurd h
count_set-positions (suc n) i (b ∷ set) [] h = absurd h
count_set-positions (suc n) i (b ∷ set) (x ∷ fields) (h, hs) =
    rw (count_set-positions n (suc i) set fields hs)
      (elim h [ inl e ↦ rw e refl | inr e ↦ rw (e.0) refl ])

Appends-indexes :
    (n i : ℕ) (set : List ℕ) (fields : List Field)
    → AreFields n set fields
    → Appends
        (write_indexes n i set)
        (indexes_bytes (positions n i set))
        (indexes_calls (positions n i set))
unfolding write_indexes indexes_bytes indexes_calls positions
Appends-indexes zero i set fields h = Appends-pure
Appends-indexes (suc n) i [] fields h = absurd h
Appends-indexes (suc n) i (b ∷ set) [] h = absurd h
Appends-indexes (suc n) i (b ∷ set) (x ∷ fields) (h, hs) =
    let rest = Appends-indexes n (suc i) set fields hs in
    elim h [
      | inl e ↦ rw e rest
      | inr e ↦ rw (e.0) (Appends-seq (write_be 1 i) _ _ _ 1 _ (Appends-write_be 1 i) rest)
    ]

Appends-values :
    (n : ℕ) (set : List ℕ) (fields : List Field)
    → AreFields n set fields
    → Appends (write_values n set fields) (values_bytes n set fields) (values_calls n set fields)
unfolding write_values values_bytes values_calls
Appends-values zero set fields h = Appends-pure
Appends-values (suc n) [] fields h = absurd h
Appends-values (suc n) (b ∷ set) [] h = absurd h
Appends-values (suc n) (b ∷ set) (x ∷ fields) (h, hs) =
    let rest = Appends-values n set fields hs in
    elim h [
      | inl e ↦ rw e rest
      | inr e ↦ rw (e.0) (Appends-seq _ _ _ _ _ _ (Appends-field x.content (e.1)) rest)
    ]

module _ (rec : RecordF) (is : IsRecord rec) where
  abbrev set_count : ℕ
  set_count = length (set_fields rec)

  pub set_count-small : set_count < 256
  unfolding set_fields
  set_count-small = omega (arith, length-positions rec.fields_num 0 rec.field_set, is.few)

  Appends-parts :
      (off : ℕ) → Appends (write_parts set_count rec off) (record_bytes rec off) (record_calls rec)
  unfolding write_parts record_bytes record_calls set_fields
  Appends-parts off =
      Appends-seq (write_be 1 _) _ _ _ 1 _ (Appends-write_be 1 (length (set_fields rec))) (
        Appends-seq _ _ _ _ _ _ (Appends-indexes rec.fields_num 0 rec.field_set rec.fields is.each)
          (Appends-seq _ _ _ _ _ 1 (Appends-values rec.fields_num rec.field_set rec.fields is.each)
            (Appends-write_be 8 off)))

-- `write_file` at the end of a file returns 1 and appends the bytes of the record, if the system
-- grants its calls.
pub write_file-advance :
    (rec : RecordF) (off : ℕ) (f : File)
    → IsRecord rec
    → AtEnd f
    → record_calls rec ≤ f.budget
    → write_file rec off f ≡ ok (some 1, advance (record_bytes rec off) (record_calls rec) f)
unfolding write_file set_fields
write_file-advance rec off f is end calls =
    let count = length (set_fields rec) in
    let fits : count % 256 ≡ count = omega (arith, set_count-small rec is) in
    let nonzero : (count == 0) ≡ false = ground (arith, is.some_set) in
    bind-ok (lift (count_set rec.fields_num rec.field_set)) _ f f count
      (rw (count_set-positions rec.fields_num 0 rec.field_set rec.fields is.each) refl)
    ∙ rw (fits, nonzero)
        (bind-ok (write_parts count rec off) (λ _. pure 1) f
          (advance (record_bytes rec off) (record_calls rec) f) tt
          (Appends-parts rec is off f end calls))
