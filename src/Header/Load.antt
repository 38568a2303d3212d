-- ===== src/Header/Load.antt =====
-- `read_header` on the bytes of a header.
use mathlib.Core.Path.{subst}
use native.Mathlib.Nat.{suc-add}
use isam_db_c_language.Base.{
  ℕ, suc, ◌+◌, ◌≤◌, ◌<◌, ◌^◌, ◌≡◌, refl, ap, sym, ◌∙◌, arith, true, false, List, [], ◌∷◌, ◌++◌, ok,
  length, take, drop, replicate, All, ◌==◌, leb, length-append, append_assoc,
}
use isam_db_c_language.Io.{read, read_be}
use isam_db_c_language.Io.Bytes.{be, pad, pad_self}
use isam_db_c_language.Io.Wire.{
  Reads, Reads-read, Reads-read_be, Reads-pure, Reads-bind, Reads-map, Reads-last,
}
use isam_db_c_language.IndexFile.{until_nul}
use isam_db_c_language.Header.{
  HeaderD, header_id_sys, vs, c_str, strncpy, read_name, read_names, read_types, read_fields,
  read_header,
}
use isam_db_c_language.Header.Encode.{
  IsText, Holds, IsNamed, names_bytes, names_calls, types_bytes, header_bytes, header_calls,
  one_more,
}

-- A row with a name in it.
abbrev stored : List ℕ → List ℕ → List ℕ
stored s row = (s ++ 0 ∷ []) ++ drop (length s + 1) row

abbrev pub all_stored : List (List ℕ) → List (List ℕ) → List (List ℕ)
all_stored [] rows = rows
all_stored (s ∷ names) [] = []
all_stored (s ∷ names) (row ∷ rows) = stored s row ∷ all_stored names rows

-- There is a row for each name, with a byte for its NUL, and the lengths fit 32 bits.
abbrev pub HasRoom : List (List ℕ) → List (List ℕ) → Type 0
HasRoom [] rows = Unit
HasRoom (s ∷ names) [] = ⊥
HasRoom (s ∷ names) (row ∷ rows) =
    ((length s < length row) × (length s + 1 < 256 ^ 4)) × HasRoom names rows

pub until_nul-text : (s zs : List ℕ) → IsText s → until_nul (s ++ 0 ∷ zs) ≡ s
unfolding until_nul
until_nul-text [] zs h = refl
until_nul-text (c ∷ s) zs h = ground (arith, until_nul-text s zs h.1)

pub c_str-text : (s zs : List ℕ) → IsText s → c_str (s ++ 0 ∷ zs) ≡ ok s
unfolding c_str
c_str-text [] zs h = refl
c_str-text (c ∷ s) zs h = rw (c_str-text s zs h.1) (ground arith)

add_one : (n : ℕ) → n + 1 ≡ suc n
add_one n = omega arith

take-nul : (s zs : List ℕ) → take (length s + 1) (s ++ 0 ∷ zs) ≡ s ++ 0 ∷ []
take-nul [] zs = refl
take-nul (c ∷ s) zs = rw suc-add (ap (◌∷◌ c) (take-nul s zs))

pad-nul : (s : List ℕ) → pad (length s + 1) s ≡ s ++ 0 ∷ []
unfolding pad
pad-nul s =
    ap (λ (n : ℕ). take (length s + 1) (s ++ replicate n 0)) (add_one (length s))
    ∙ take-nul s (replicate (length s) 0)

strncpy_lem :
    (s row : List ℕ)
    → IsText s
    → length s < length row
    → strncpy row (pad (length s + 1) (s ++ 0 ∷ [])) (length s + 1) ≡ ok (stored s row)
unfolding strncpy
strncpy_lem s row text room =
    let le : leb (length s + 1) (length row) ≡ true = ground arith in
    rw
      (
        le,
        pad_self (length s + 1) (s ++ 0 ∷ []) (length-append s (0 ∷ [])),
        until_nul-text s [] text,
        pad-nul s,
      )
      refl

Reads-name :
    (s row : List ℕ)
    → IsText s
    → length s < length row
    → length s + 1 < 256 ^ 4
    → Reads (read_name row) (be 4 (length s + 1) ++ (s ++ 0 ∷ [])) 2 (stored s row)
unfolding read_name
Reads-name s row text room small =
    let filled : (length s + 1 == 0) ≡ false = ground arith in
    Reads-bind (read_be 4) _ (be 4 (length s + 1)) (s ++ 0 ∷ []) 1 1 (length s + 1) _
      (Reads-read_be 4 (length s + 1) small)
      (rw filled (
        Reads-last (read (length s + 1))
          (λ (d : List ℕ). strncpy row (pad (length s + 1) d) (length s + 1)) (s ++ 0 ∷ []) 1
          (s ++ 0 ∷ []) (stored s row) (strncpy_lem s row text room)
          (Reads-read (s ++ 0 ∷ []) (length s + 1) (length-append s (0 ∷ [])))))

Reads-names :
    (names rows : List (List ℕ))
    → All IsText names
    → HasRoom names rows
    → Reads
        (read_names (length names) rows)
        (names_bytes names)
        (names_calls names)
        (all_stored names rows)
unfolding read_names names_bytes names_calls
Reads-names [] rows text room = Reads-pure rows
Reads-names (s ∷ names) [] text room = absurd room
Reads-names (s ∷ names) (row ∷ rows) text room =
    Reads-bind (read_name row) _ (be 4 (length s + 1) ++ (s ++ 0 ∷ [])) (names_bytes names) 2
      (names_calls names) (stored s row) _ (Reads-name s row text.0 room.0.0 room.0.1)
      (Reads-map (read_names (length names) rows) (◌∷◌ (stored s row)) (names_bytes names)
        (names_calls names) _ (Reads-names names rows text.1 room.1))

Reads-types :
    (ts old : List ℕ)
    → All (λ (t : ℕ). t < 256 ^ 4) ts
    → length ts ≤ length old
    → Reads (read_types (length ts) old) (types_bytes ts) (length ts) (ts ++ drop (length ts) old)
unfolding read_types types_bytes
Reads-types [] old small room = Reads-pure old
Reads-types (t ∷ ts) [] small room = absurd (omega arith)
Reads-types (t ∷ ts) (u ∷ old) small room =
    subst
      (λ (k : ℕ).
        Reads (read_types (suc (length ts)) (u ∷ old)) (types_bytes (t ∷ ts)) k
          (t ∷ ts ++ drop (length ts) old))
      (one_more (length ts))
      (Reads-bind (read_be 4) _ (be 4 t) (types_bytes ts) 1 (length ts) t _
        (Reads-read_be 4 t small.0)
        (Reads-map (read_types (length ts) old) (◌∷◌ t) (types_bytes ts) (length ts) _
          (Reads-types ts old small.1 (omega arith))))

-- The header that is read into `old`.
abbrev pub loaded : List (List ℕ) → List ℕ → HeaderD → HeaderD
loaded names ts old = record {
  id_n = header_id_sys;
  version = vs;
  sch_d = record {
    fields_num = length names;
    fields_name = all_stored names old.sch_d.fields_name;
    types = ts ++ drop (length ts) old.sch_d.types;
  };
}

-- What the widths of the file and the arrays of `old` ask of the names and types.
pub record Loads (names : List (List ℕ)) (ts : List ℕ) (old : HeaderD) : Type 0 where
  pub same : length ts ≡ length names
  pub few : length names < 256 ^ 2
  pub text : All IsText names
  pub small : All (λ (t : ℕ). t < 256 ^ 4) ts
  pub room : HasRoom names old.sch_d.fields_name
  pub types_room : length names ≤ length old.sch_d.types

three_more : (n : ℕ) → 1 + (1 + (1 + n)) ≡ 3 + n
three_more n = omega arith

pub Holds-stored :
    (names rows : List (List ℕ))
    → All IsText names
    → HasRoom names rows
    → Holds names (all_stored names rows)
Holds-stored [] rows text room = tt
Holds-stored (s ∷ names) [] text room = absurd room
Holds-stored (s ∷ names) (row ∷ rows) text room = (
  (
    text.0,
    ap c_str (append_assoc s (0 ∷ []) (drop (length s + 1) row))
        ∙ c_str-text s (drop (length s + 1) row) text.0,
  ),
  Holds-stored names rows text.1 room.1,
)

pub Holds-IsText : (names rows : List (List ℕ)) → Holds names rows → All IsText names
Holds-IsText [] rows h = tt
Holds-IsText (s ∷ names) [] h = absurd h
Holds-IsText (s ∷ names) (row ∷ rows) h = (h.0.0, Holds-IsText names rows h.1)

no_zero : (names : List (List ℕ)) → IsNamed names → (length names == 0) ≡ false
no_zero [] h = absurd h
no_zero ([] ∷ names) h = absurd h
no_zero ((c ∷ s) ∷ names) h = ground arith

module _ (names : List (List ℕ)) (ts : List ℕ) (old : HeaderD) (named : IsNamed names)
    (l : Loads names ts old) where
  types_read :
      Reads
        (read_types (length names) old.sch_d.types)
        (types_bytes ts)
        (length names)
        (ts ++ drop (length ts) old.sch_d.types)
  types_read =
      subst
        (λ (n : ℕ).
          Reads (read_types n old.sch_d.types) (types_bytes ts) n
            (ts ++ drop (length ts) old.sch_d.types))
        l.same (Reads-types ts old.sch_d.types l.small (omega (arith, l.same, l.types_room)))

  Reads-fields :
      Reads
        (read_fields
          (length names)
          (record { id_n = header_id_sys; version = vs; sch_d = old.sch_d }))
        (names_bytes names ++ types_bytes ts)
        (names_calls names + length names)
        (loaded names ts old)
  unfolding read_fields
  Reads-fields =
      Reads-bind (read_names (length names) old.sch_d.fields_name) _ (names_bytes names)
        (types_bytes ts) (names_calls names) (length names) _ _
        (Reads-names names old.sch_d.fields_name l.text l.room)
        (Reads-map (read_types (length names) old.sch_d.types) _ (types_bytes ts) (length names) _
          types_read)

  pub Reads-header :
      Reads (read_header old) (header_bytes names ts) (header_calls names) (loaded names ts old)
  unfolding read_header header_bytes header_calls
  Reads-header =
      let filled : (length names == 0) ≡ false = no_zero names named in
      subst
        (λ (d : List ℕ).
          Reads (read_header old) d (3 + (names_calls names + length names)) (loaded names ts old))
        (sym (
          append_assoc (be 4 header_id_sys) (be 2 vs ++ be 2 (length names))
            (names_bytes names ++ types_bytes ts)
          ∙ ap (◌++◌ (be 4 header_id_sys))
              (append_assoc (be 2 vs) (be 2 (length names)) (names_bytes names ++ types_bytes ts))))
        (subst
          (λ (k : ℕ).
            Reads (read_header old)
              (be 4 header_id_sys
                ++ (be 2 vs ++ (be 2 (length names) ++ (names_bytes names ++ types_bytes ts))))
              k (loaded names ts old))
          (three_more (names_calls names + length names))
          (Reads-bind (read_be 4) _ (be 4 header_id_sys) _ 1 _ header_id_sys _
            (Reads-read_be 4 header_id_sys (omega arith))
            (Reads-bind (read_be 2) _ (be 2 vs) _ 1 _ vs _ (Reads-read_be 2 vs (omega arith)) (
              Reads-bind (read_be 2) _ (be 2 (length names)) (names_bytes names ++ types_bytes ts) 1
                (names_calls names + length names) (length names) _
                (Reads-read_be 2 (length names) l.few) (rw filled Reads-fields)))))
