-- ===== src/Ram/Size.antt =====
-- The size that `write_ram_record` reckons, and the room that it makes.
use isam_db_c_language.Base.{
  ℕ, zero, suc, ◌+◌, ◌*◌, ◌≤◌, ◌≡◌, refl, ap, arith, List, [], ◌∷◌, ◌++◌, Outcome, ok, ◌>>=◌, inl,
  inr, length, length-append,
}
use isam_db_c_language.Io.Bytes.{be, pad, length-be}
use isam_db_c_language.IndexFile.{until_nul}
use isam_db_c_language.Records.{Value, value_int, value_long, value_string, Field}
use isam_db_c_language.Records.StringLayout.{string_bytes, text_bytes, length-pad, buffer_size}
use isam_db_c_language.Records.Layout.{IsValue, value_layout}
use isam_db_c_language.Records.RecordLayout.{AreFields, positions, indexes_bytes, values_bytes}
use isam_db_c_language.Ram.{field_size, fields_size}
use isam_db_c_language.Ram.Parts.{IsPlain, ArePlain}

-- The run yields a number that is not less.
abbrev pub AtLeast : Outcome ℕ → ℕ → Type 0
AtLeast o n = (k : ℕ) × (o ≡ ok k) × (n ≤ k)

length-string : (s : List ℕ) → length (string_bytes s) ≡ 16 + buffer_size (until_nul s)
unfolding string_bytes text_bytes
length-string s =
    let t = until_nul s in
    omega (
      arith,
      length-append (be 8 0 ++ be 8 (buffer_size t)) (pad (buffer_size t) t),
      length-append (be 8 0) (be 8 (buffer_size t)),
      length-be 8 0,
      length-be 8 (buffer_size t),
      length-pad (buffer_size t) t,
    )

field_size-AtLeast :
    (v : Value) → IsValue v → IsPlain v → AtLeast (field_size v) (length (value_layout v))
unfolding field_size value_layout
field_size-AtLeast (value_int n) is plain = (4, refl, omega (arith, length-be 4 n))
field_size-AtLeast (value_long n) is plain = (8, refl, omega (arith, length-be 8 n))
field_size-AtLeast (value_string s) is plain = (
  8 * 3 + (length (until_nul s) * 2 + 1),
  ap (λ (o : Outcome (List ℕ)). o >>= λ t. ok (8 * 3 + (length t * 2 + 1))) is.ends,
  omega (arith, length-string s),
)
field_size-AtLeast _ is plain = absurd plain

pub fields_size-AtLeast :
    (n i : ℕ) (set : List ℕ) (fields : List Field)
    → AreFields n set fields
    → ArePlain n set fields
    → AtLeast
        (fields_size n set fields)
        (length (indexes_bytes (positions n i set)) + length (values_bytes n set fields))
unfolding fields_size indexes_bytes positions values_bytes
fields_size-AtLeast zero i set fields h p = (0, refl, omega arith)
fields_size-AtLeast (suc n) i [] fields h p = absurd h
fields_size-AtLeast (suc n) i (b ∷ set) [] h p = absurd h
fields_size-AtLeast (suc n) i (b ∷ set) (x ∷ fields) (h, hs) (p, ps) =
    let rest = fields_size-AtLeast n (suc i) set fields hs ps in
    elim h [
      | inl e ↦ rw (e, rest.1) (rest.0, refl, rest.2)
      | inr e ↦ elim p [
        | inl zero_flag ↦ absurd (omega (arith, e.0))
        | inr plain ↦
            let this = field_size-AtLeast x.content (e.1) plain in
            rw (e.0, rest.1, this.1)
              (
                1 + this.0 + rest.0,
                refl,
                omega (
                  arith,
                  this.2,
                  rest.2,
                  length-append (be 1 i) (indexes_bytes (positions n (suc i) set)),
                  length-append (value_layout x.content) (values_bytes n set fields),
                  length-be 1 i,
                ),
              )
      ]
    ]
