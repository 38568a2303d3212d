-- ===== src/Records/RoundTrip.antt =====
-- Writing a record and reading it back.
use mathlib.Core.Path.{subst}
use isam_db_c_language.Base.{
  ℕ, zero, suc, ◌+◌, ◌-◌, ◌^◌, ◌<◌, ◌≤◌, ◌≡◌, refl, ap, sym, ◌∙◌, arith, List, [], ◌∷◌, ◌++◌, ok,
  length, take, drop, replicate, if◌then◌else◌, ◌==◌, inl, inr, ◌⊎◌, some, append_assoc, append-nil,
  true, All,
}
use isam_db_c_language.Io.{File, read_be}
use isam_db_c_language.Io.Bytes.{be, drop-length_append}
use isam_db_c_language.Io.Wire.{
  AtEnd, advance, skip, Reads, Reads-pure, Reads-bind, Reads-map, Reads-lift, Reads-read_be,
}
use isam_db_c_language.IndexFile.RoundTrip.{Reopened}
use isam_db_c_language.Header.{Schema}
use isam_db_c_language.Records.{
  Field, RecordF, create_record, create_fields, max_field_nr, read_field,
}
use isam_db_c_language.Records.Layout.{value_layout}
use isam_db_c_language.Records.Recall.{zeroed, restored, value_read_calls, Reads-field}
use isam_db_c_language.Records.RecordLayout.{
  AreFields, IsRecord, set_fields, indexes_bytes, indexes_calls, values_bytes, record_bytes,
  record_calls, set_count-small, write_file-advance,
}
use isam_db_c_language.Records.Flags.{mark_all, Reads-indexes, positions-small, marks-zeros}
use isam_db_c_language.Records.Same.{seen, seen-restored}
use isam_db_c_language.Records.Store.{
  write_file, read_file, read_indexes, read_values, get_update_offset, read_part,
}

-- The record that is read has fields of the types of the record that was written.
abbrev pub Matches : ℕ → List Field → List Field → Type 0
Matches zero fields news = Unit
Matches (suc n) (x ∷ fields) (y ∷ news) = (y.content ≡ zeroed x.content) × Matches n fields news
Matches (suc n) _ _ = ⊥

-- The set fields are seen as equal.
abbrev pub Agrees : ℕ → List ℕ → List Field → List Field → Type 0
Agrees zero flags fields news = Unit
Agrees (suc n) (b ∷ flags) (x ∷ fields) (y ∷ news) =
    ((b ≡ 0) ⊎ (seen y.content ≡ seen x.content)) × Agrees n flags fields news
Agrees (suc n) _ _ _ = ⊥

-- The fields as they are read.
unfoldable pub recalled : ℕ → List ℕ → List Field → List Field → List Field
unfolding restored
recalled (suc n) (b ∷ flags) (x ∷ fields) (y ∷ news) =
    let rest = recalled n flags fields news in
    if b == 0 then y ∷ rest else record y { content = restored x.content } ∷ rest
recalled _ flags fields news = news

unfoldable pub values_read_calls : ℕ → List ℕ → List Field → ℕ
values_read_calls (suc n) (b ∷ set) (x ∷ fields) =
    let rest = values_read_calls n set fields in
    if b == 0 then rest else value_read_calls x.content + rest
values_read_calls _ _ _ = 0

Reads-values :
    (n : ℕ) (flags : List ℕ) (fields news : List Field)
    → AreFields n flags fields
    → Matches n fields news
    → Reads
        (read_values n flags news)
        (values_bytes n flags fields)
        (values_read_calls n flags fields)
        (recalled n flags fields news)
unfolding read_values values_bytes values_read_calls recalled
Reads-values zero flags fields news h m = Reads-pure news
Reads-values (suc n) [] fields news h m = absurd h
Reads-values (suc n) (b ∷ flags) [] news h m = absurd h
Reads-values (suc n) (b ∷ flags) (x ∷ fields) [] h m = absurd m
Reads-values (suc n) (b ∷ flags) (x ∷ fields) (y ∷ news) (h, hs) (m, ms) =
    let rest = Reads-values n flags fields news hs ms in
    elim h [
      | inl e ↦ rw e (Reads-map _ (λ fs. y ∷ fs) _ _ _ rest)
      | inr e ↦
          rw (e.0, m)
            (Reads-bind (read_field (zeroed x.content)) _ (value_layout x.content) _ _ _
              (restored x.content) _ (Reads-field x.content (e.1)) (Reads-map _ _ _ _ _ rest))
    ]

Agrees-recalled :
    (n : ℕ) (flags : List ℕ) (fields news : List Field)
    → AreFields n flags fields
    → Matches n fields news
    → Agrees n flags fields (recalled n flags fields news)
unfolding recalled
Agrees-recalled zero flags fields news h m = tt
Agrees-recalled (suc n) [] fields news h m = absurd h
Agrees-recalled (suc n) (b ∷ flags) [] news h m = absurd h
Agrees-recalled (suc n) (b ∷ flags) (x ∷ fields) [] h m = absurd m
Agrees-recalled (suc n) (b ∷ flags) (x ∷ fields) (y ∷ news) (h, hs) (m, ms) =
    let rest = Agrees-recalled n flags fields news hs ms in
    elim h [
      | inl e ↦ rw e (inl refl, rest)
      | inr e ↦ rw (e.0) (inr (seen-restored x.content), rest)
    ]

-- A record that can be read back with the schema: the schema's fields have the types of the
-- record's fields, and past them the flags are 0.
pub record Fits (rec : RecordF) (sch : Schema) (news : List Field) : Type 0 where
  pub count : sch.fields_num ≡ rec.fields_num
  pub created : create_fields sch.fields_num sch.fields_name sch.types ≡ ok news
  pub same_types : Matches rec.fields_num rec.fields news
  pub flags :
      rec.field_set
      ≡ take rec.fields_num rec.field_set ++ replicate (max_field_nr - rec.fields_num) 0

-- The calls of `read_file` and of `get_update_offset` after it.
unfoldable pub record_read_calls : RecordF → ℕ
record_read_calls rec =
    1 + (indexes_calls (set_fields rec) + values_read_calls rec.fields_num rec.field_set rec.fields)

-- The bytes of a record before the offset of its next part.
unfoldable pub fields_bytes : RecordF → List ℕ
fields_bytes rec =
    be 1 (length (set_fields rec))
    ++ (indexes_bytes (set_fields rec) ++ values_bytes rec.fields_num rec.field_set rec.fields)

abbrev pub read_back : RecordF → List Field → RecordF
read_back rec news = record {
  fields_num = rec.fields_num;
  field_set = rec.field_set;
  fields = recalled rec.fields_num rec.field_set rec.fields news;
}

module _ (rec : RecordF) (is : IsRecord rec) (sch : Schema) (news : List Field)
    (fits : Fits rec sch news) where
  small : All (λ (i : ℕ). i < max_field_nr) (set_fields rec)
  unfolding set_fields
  small = positions-small rec.fields_num 0 max_field_nr rec.field_set (omega (arith, is.few))

  marked : mark_all (set_fields rec) (replicate max_field_nr 0) ≡ rec.field_set
  unfolding set_fields
  marked = marks-zeros rec.fields_num rec.field_set rec.fields is.each is.few ∙ sym fits.flags

  new_record :
      create_record sch
      ≡ ok (record {
        fields_num = rec.fields_num;
        field_set = replicate max_field_nr 0;
        fields = news;
      })
  unfolding create_record
  new_record = rw (fits.created, fits.count) refl

  Reads-record :
      Reads (read_file sch) (fields_bytes rec) (record_read_calls rec) (read_back rec news)
  unfolding read_file fields_bytes record_read_calls
  Reads-record = Reads-lift (create_record sch) _ _ _ _ _ new_record (
      Reads-bind (read_be 1) _ (be 1 (length (set_fields rec))) _ 1 _ (length (set_fields rec)) _
        (Reads-read_be 1 (length (set_fields rec)) (set_count-small rec is))
        (Reads-bind (read_indexes (length (set_fields rec)) 0 (replicate max_field_nr 0)) _
          (indexes_bytes (set_fields rec)) _ (indexes_calls (set_fields rec)) _
          (mark_all (set_fields rec) (replicate max_field_nr 0), true) _
          (Reads-indexes (set_fields rec) small 0 (replicate max_field_nr 0))
          (rw marked (
            Reads-map _ _ _ _ _ (
              Reads-values rec.fields_num rec.field_set rec.fields news is.each fits.same_types)))))

  record_bytes-fields_bytes : (off : ℕ) → record_bytes rec off ≡ fields_bytes rec ++ be 8 off
  unfolding record_bytes fields_bytes
  record_bytes-fields_bytes off = simp append_assoc

  pub Reads-all :
      (off : ℕ)
      → off < 256 ^ 8
      → Reads
          (read_part sch)
          (record_bytes rec off)
          (record_read_calls rec + 1)
          (read_back rec news, off)
  unfolding get_update_offset
  Reads-all off h =
      subst
        (λ (d : List ℕ).
          Reads (read_part sch) d (record_read_calls rec + 1) (read_back rec news, off))
        (sym (record_bytes-fields_bytes off))
        (Reads-bind (read_file sch) _ (fields_bytes rec) (be 8 off) (record_read_calls rec) 1
          (read_back rec news) (read_back rec news, off) Reads-record
          (Reads-map (read_be 8) (λ o. (read_back rec news, o)) (be 8 off) 1 off
            (Reads-read_be 8 off h)))

-- A record of which some fields are set, with values that fit their types (TYPE_FILE left out),
-- strings that end and arrays without a NULL pointer, written by `write_file` at the end of a
-- file, and read by `read_file` and `get_update_offset` from where it was written into a record
-- set to 0 with a schema of the same types, each time with calls enough: both succeed, the offset
-- and the flags are the same, and each set field has the same number, C string or elements.
pub read_file-write_file :
    (rec : RecordF) (sch : Schema) (news : List Field) (off : ℕ)
    → IsRecord rec
    → Fits rec sch news
    → off < 256 ^ 8
    → (f g : File) → AtEnd f
    → record_calls rec ≤ f.budget
    → Reopened
        (advance (record_bytes rec off) (record_calls rec) f)
        f.pos
        (record_read_calls rec + 1)
        g
    → (write_file rec off f ≡ ok (some 1, advance (record_bytes rec off) (record_calls rec) f))
      × ((new : RecordF) × ((read_part sch) g
            ≡ ok (
              some (new, off),
              skip (length (record_bytes rec off)) (record_read_calls rec + 1) g,
            ))
          × (new.field_set ≡ rec.field_set)
          × Agrees rec.fields_num rec.field_set rec.fields new.fields)
read_file-write_file rec sch news off is fits fit f g end calls (bytes, pos, left) = (
  write_file-advance rec off f is end calls,
  (
    read_back rec news,
    Reads-all rec is sch news fits off fit g []
        (ap (λ (b : List ℕ). drop g.pos b) bytes
          ∙ drop-length_append f.bytes (record_bytes rec off) g.pos (sym (pos ∙ end))
          ∙ sym (append-nil (record_bytes rec off)))
        left,
    refl,
    Agrees-recalled rec.fields_num rec.field_set rec.fields news is.each fits.same_types,
  ),
)
