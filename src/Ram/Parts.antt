-- ===== src/Ram/Parts.antt =====
-- The parts of `write_ram_record` and the layout of a record in the data file.
use isam_db_c_language.Base.{
  ℕ, zero, suc, ◌+◌, ◌*◌, ◌≡◌, refl, ap, ◌∙◌, arith, List, [], ◌∷◌, Outcome, ok, ◌>>=◌, ◌⊎◌, inl,
  inr, length,
}
use isam_db_c_language.Io.Bytes.{be, pad}
use isam_db_c_language.IndexFile.{until_nul}
use isam_db_c_language.Records.{Value, value_int, value_long, value_string, Field}
use isam_db_c_language.Records.StringLayout.{IsString, string_bytes, text_bytes, buffer_size}
use isam_db_c_language.Records.Layout.{IsValue, value_layout}
use isam_db_c_language.Records.RecordLayout.{AreFields, positions, indexes_bytes, values_bytes}
use isam_db_c_language.Ram.{
  RamFile, put, put_string, put_field, put_fields, put_indexes, count_active,
}
use isam_db_c_language.Ram.Puts.{ram, Puts, Puts-put, Puts-none, Puts-seq}

-- A number of four or eight bytes, or a string.
abbrev pub IsPlain : Value → Type 0
IsPlain (value_int n) = Unit
IsPlain (value_long n) = Unit
IsPlain (value_string s) = Unit
IsPlain _ = ⊥

-- The set fields are plain.
abbrev pub ArePlain : ℕ → List ℕ → List Field → Type 0
ArePlain (suc n) (b ∷ set) (x ∷ fields) = ((b ≡ 0) ⊎ IsPlain x.content) × ArePlain n set fields
ArePlain _ set fields = Unit

Puts-string : (s : List ℕ) → IsString s → Puts (put_string s) (string_bytes s)
unfolding put_string string_bytes text_bytes
Puts-string s is used free room =
    let t = until_nul s in
    ap
      (λ (o : Outcome (List ℕ)). o >>= λ t.
        put (be 8 0) (ram used free)
        >>= put (be 8 (length t * 2 + 1))
        >>= put (pad (length t * 2 + 1) t))
      is.ends
    ∙ Puts-seq (λ r. put (be 8 0) r >>= put (be 8 (buffer_size t))) (put (pad (buffer_size t) t)) _
        _
        (Puts-seq (put (be 8 0)) (put (be 8 (buffer_size t))) _ _ (Puts-put (be 8 0))
          (Puts-put (be 8 (buffer_size t))))
        (Puts-put (pad (buffer_size t) t)) used free room

module _ (float_u32_float u32_float double_u64 : ℕ → ℕ) where
  abbrev put_one : Value → RamFile → Outcome RamFile
  put_one = put_field float_u32_float u32_float double_u64

  abbrev put_all : ℕ → List ℕ → List Field → RamFile → Outcome RamFile
  put_all = put_fields float_u32_float u32_float double_u64

  Puts-field : (v : Value) → IsValue v → IsPlain v → Puts (put_one v) (value_layout v)
  unfolding put_field value_layout
  Puts-field (value_int n) is plain = Puts-put (be 4 n)
  Puts-field (value_long n) is plain = Puts-put (be 8 n)
  Puts-field (value_string s) is plain = Puts-string s is
  Puts-field _ is plain = absurd plain

  pub Puts-fields :
      (n : ℕ) (set : List ℕ) (fields : List Field)
      → AreFields n set fields
      → ArePlain n set fields
      → Puts (put_all n set fields) (values_bytes n set fields)
  unfolding put_fields values_bytes
  Puts-fields zero set fields h p = Puts-none
  Puts-fields (suc n) [] fields h p = absurd h
  Puts-fields (suc n) (b ∷ set) [] h p = absurd h
  Puts-fields (suc n) (b ∷ set) (x ∷ fields) (h, hs) (p, ps) =
      let rest = Puts-fields n set fields hs ps in
      elim h [
        | inl e ↦ rw e rest
        | inr e ↦ elim p [
          | inl zero_flag ↦ absurd (omega (arith, e.0))
          | inr plain ↦
              rw (e.0) (Puts-seq (put_one x.content) _ _ _ (Puts-field x.content (e.1) plain) rest)
        ]
      ]

pub Puts-indexes :
    (n i : ℕ) (set : List ℕ) (fields : List Field)
    → AreFields n set fields
    → Puts (put_indexes n i set) (indexes_bytes (positions n i set))
unfolding put_indexes indexes_bytes positions
Puts-indexes zero i set fields h = Puts-none
Puts-indexes (suc n) i [] fields h = absurd h
Puts-indexes (suc n) i (b ∷ set) [] h = absurd h
Puts-indexes (suc n) i (b ∷ set) (x ∷ fields) (h, hs) =
    let rest = Puts-indexes n (suc i) set fields hs in
    elim h [
      | inl e ↦ rw e rest
      | inr e ↦ rw (e.0) (Puts-seq (put (be 1 i)) _ _ _ (Puts-put (be 1 i)) rest)
    ]

pub count_active-positions :
    (n i : ℕ) (set : List ℕ) (fields : List Field)
    → AreFields n set fields
    → count_active n set ≡ ok (length (positions n i set))
unfolding count_active positions
count_active-positions zero i set fields h = refl
count_active-positions (suc n) i [] fields h = absurd h
count_active-positions (suc n) i (b ∷ set) [] h = absurd h
count_active-positions (suc n) i (b ∷ set) (x ∷ fields) (h, hs) =
    rw (count_active-positions n (suc i) set fields hs)
      (elim h [ inl e ↦ rw e refl | inr e ↦ rw (e.0) refl ])
