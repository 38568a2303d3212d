-- ===== src/Header/Encode.antt =====
-- The bytes of a schema file, and `write_header` as their writer.
use mathlib.Core.Path.{subst}
use isam_db_c_language.Base.{
  ℕ, zero, suc, ◌+◌, ◌≤◌, ◌<◌, ◌≡◌, arith, false, List, [], ◌∷◌, ◌++◌, ok, length, take, All,
}
use isam_db_c_language.Io.{write_be, ◌>>◌}
use isam_db_c_language.Io.Bytes.{be}
use isam_db_c_language.Io.Wire.{
  Appends, Appends-write, Appends-write_be, Appends-pure, Appends-seq, Appends-lift,
}
use isam_db_c_language.Header.{
  HeaderD, header_id_sys, vs, c_str, no_name, write_name, write_names, write_types,
  write_empty_header, write_header,
}

-- No NUL among the bytes.
abbrev pub IsText : List ℕ → Type 0
IsText s = All (λ (c : ℕ). 0 < c) s

-- The rows hold the names, the first ones in their order.
abbrev pub Holds : List (List ℕ) → List (List ℕ) → Type 0
Holds [] rows = Unit
Holds (s ∷ names) [] = ⊥
Holds (s ∷ names) (row ∷ rows) = (IsText s × (c_str row ≡ ok s)) × Holds names rows

-- A header of the program's version that has the names, and a type for each of them.
pub record IsHeader (names : List (List ℕ)) (hd : HeaderD) : Type 0 where
  pub id : hd.id_n ≡ header_id_sys
  pub version : hd.version ≡ vs
  pub count : hd.sch_d.fields_num ≡ length names
  pub holds : Holds names hd.sch_d.fields_name
  pub typed : length names ≤ length hd.sch_d.types

unfoldable pub names_bytes : List (List ℕ) → List ℕ
names_bytes [] = []
names_bytes (s ∷ names) = (be 4 (length s + 1) ++ (s ++ 0 ∷ [])) ++ names_bytes names

unfoldable pub names_calls : List (List ℕ) → ℕ
names_calls [] = 0
names_calls (s ∷ names) = 2 + names_calls names

unfoldable pub types_bytes : List ℕ → List ℕ
types_bytes [] = []
types_bytes (t ∷ ts) = be 4 t ++ types_bytes ts

-- The layout: the identity, the version, the number of fields, the names, the types.
unfoldable pub header_bytes : List (List ℕ) → List ℕ → List ℕ
header_bytes names ts =
    (be 4 header_id_sys ++ (be 2 vs ++ be 2 (length names)))
    ++ (names_bytes names ++ types_bytes ts)

unfoldable pub header_calls : List (List ℕ) → ℕ
header_calls names = 3 + (names_calls names + length names)

Appends-name : (s : List ℕ) → Appends (write_name s) (be 4 (length s + 1) ++ (s ++ 0 ∷ [])) 2
unfolding write_name
Appends-name s =
    Appends-seq _ _ _ _ 1 1 (Appends-write_be 4 (length s + 1)) (Appends-write (s ++ 0 ∷ []))

Appends-names :
    (names rows : List (List ℕ))
    → Holds names rows
    → Appends (write_names (length names) rows) (names_bytes names) (names_calls names)
unfolding write_names names_bytes names_calls
Appends-names [] rows h = Appends-pure
Appends-names (s ∷ names) [] h = absurd h
Appends-names (s ∷ names) (row ∷ rows) h =
    Appends-lift (c_str row) s (λ r. write_name r >> write_names (length names) rows) _ _ h.0.1
      (Appends-seq (write_name s) (write_names (length names) rows) _ _ 2 _ (Appends-name s)
        (Appends-names names rows h.1))

pub one_more : (n : ℕ) → 1 + n ≡ suc n
one_more n = omega arith

Appends-types :
    (n : ℕ) (ts : List ℕ) → n ≤ length ts → Appends (write_types n ts) (types_bytes (take n ts)) n
unfolding write_types types_bytes
Appends-types zero ts h = Appends-pure
Appends-types (suc n) [] h = absurd (omega arith)
Appends-types (suc n) (t ∷ ts) h =
    subst
      (λ (k : ℕ). Appends (write_types (suc n) (t ∷ ts)) (types_bytes (take (suc n) (t ∷ ts))) k)
      (one_more n)
      (Appends-seq (write_be 4 t) (write_types n ts) (be 4 t) _ 1 n (Appends-write_be 4 t)
        (Appends-types n ts (omega arith)))

-- The first name is there and not empty.
abbrev pub IsNamed : List (List ℕ) → Type 0
IsNamed ((c ∷ s) ∷ names) = Unit
IsNamed _ = ⊥

row_start :
    (c : ℕ) (s row : List ℕ)
    → 0 < c
    → c_str row ≡ ok (c ∷ s)
    → (rows : List (List ℕ)) → no_name (row ∷ rows) ≡ ok false
unfolding c_str no_name
row_start c s [] h e rows = absurd (ground arith)
row_start c s (b ∷ row) h e rows = ground arith

no_name-false :
    (names rows : List (List ℕ)) → IsNamed names → Holds names rows → no_name rows ≡ ok false
no_name-false [] rows n h = absurd n
no_name-false ([] ∷ names) rows n h = absurd n
no_name-false ((c ∷ s) ∷ names) [] n h = absurd h
no_name-false ((c ∷ s) ∷ names) (row ∷ rows) n h = row_start c s row h.0.0.0 h.0.1 rows

-- `write_header` at the end of a file returns 1 and appends the bytes of the header, if the system
-- grants its calls.
pub write_header-Appends :
    (names : List (List ℕ)) (hd : HeaderD)
    → IsHeader names hd
    → IsNamed names
    → Appends
        (write_header hd)
        (header_bytes names (take (length names) hd.sch_d.types))
        (header_calls names)
unfolding write_header write_empty_header header_bytes header_calls
write_header-Appends names hd is named =
    Appends-lift (no_name hd.sch_d.fields_name) false _ _ _
      (no_name-false names hd.sch_d.fields_name named is.holds)
      (rw (is.id, is.version, is.count)
        (Appends-seq _ _ _ _ 3 _
          (Appends-seq _ _ _ _ 1 2 (Appends-write_be 4 header_id_sys)
            (Appends-seq _ _ _ _ 1 1 (Appends-write_be 2 vs) (Appends-write_be 2 (length names))))
          (Appends-seq (write_names (length names) hd.sch_d.fields_name) _ _ _ _ (length names)
            (Appends-names names hd.sch_d.fields_name is.holds)
            (Appends-types (length names) hd.sch_d.types is.typed))))
