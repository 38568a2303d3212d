-- ===== src/Header.antt =====
-- The schema file: `struct Header_d` of include/record.h, and the functions of src/parse.c that
-- write and read it. A name stands in a row of `fields_name`, an array of bytes, as a C string. The
-- rows of `fields_name` are `max_field_nr` in number and `max_field_lt` bytes long in the program.
-- The values of `types` are kept as the `uint32_t` that they are in the file.
pub mod Encode
pub mod Load
pub mod RoundTrip
use isam_db_c_language.Base.{
  ℕ, zero, suc, ◌+◌, ◌*◌, ◌^◌, Bool, true, false, not, List, [], ◌∷◌, ◌++◌, ok, undefined, Outcome,
  if◌then◌else◌, ltb, leb, ◌==◌, length, take, drop, Option, none, some,
}
use isam_db_c_language.Base as Base
use isam_db_c_language.Io.{File, Io, ◌>>=◌, ◌>>◌, pure, fail, lift, write, read, read_be, write_be}
use isam_db_c_language.Io.Bytes.{pad}
use isam_db_c_language.IndexFile.{until_nul}

abbrev pub header_id_sys : ℕ
header_id_sys = 1702507060

abbrev pub vs : ℕ
vs = 1

pub record Schema : Type 0 where
  pub fields_num : ℕ
  pub fields_name : List (List ℕ)
  pub types : List ℕ

pub record HeaderD : Type 0 where
  pub id_n : ℕ
  pub version : ℕ
  pub sch_d : Schema

-- The C string at the start of a row; to run past the row is undefined.
unfoldable pub c_str : List ℕ → Outcome (List ℕ)
c_str [] = undefined
c_str (c ∷ s) = let rest = c_str s in if c == 0 then ok [] else (Base.◌>>=◌ rest λ r. ok (c ∷ r))

-- `fields_name[0][0] == '\0'`
unfoldable pub no_name : List (List ℕ) → Outcome Bool
no_name ((c ∷ s) ∷ rows) = ok (c == 0)
no_name _ = undefined

unfoldable pub create_header : HeaderD → Outcome (Option HeaderD)
unfolding no_name
create_header hd =
    Base.◌>>=◌ (no_name hd.sch_d.fields_name)
      λ empty. ok (if empty then none else some (record hd { id_n = header_id_sys; version = vs }))

unfoldable pub write_empty_header : HeaderD → Io (Unit {0})
unfolding write_be
write_empty_header hd = do write_be 4 hd.id_n; write_be 2 hd.version; write_be 2 hd.sch_d.fields_num

unfoldable pub write_name : List ℕ → Io (Unit {0})
unfolding write write_be
write_name s = write_be 4 (length s + 1) >> write (s ++ 0 ∷ [])

unfoldable pub write_names : ℕ → List (List ℕ) → Io (Unit {0})
unfolding write_name c_str
write_names zero rows = pure tt
write_names (suc n) [] = lift undefined
write_names (suc n) (row ∷ rows) = lift (c_str row) >>= λ s. write_name s >> write_names n rows

unfoldable pub write_types : ℕ → List ℕ → Io (Unit {0})
unfolding write_be
write_types zero ts = pure tt
write_types (suc n) [] = lift undefined
write_types (suc n) (t ∷ ts) = write_be 4 t >> write_types n ts

unfoldable pub write_header : HeaderD → Io (Unit {0})
unfolding no_name write_empty_header write_names write_types
write_header hd = do
  empty ← lift (no_name hd.sch_d.fields_name)
  (if empty then fail else pure tt)
  write_empty_header hd
  write_names hd.sch_d.fields_num hd.sch_d.fields_name
  write_types hd.sch_d.fields_num hd.sch_d.types

-- `strncpy(dest, src, n)`, which writes `n` bytes: those of the string, then zeros.
unfoldable pub strncpy : List ℕ → List ℕ → ℕ → Outcome (List ℕ)
unfolding until_nul pad
strncpy dest src n =
    if leb n (length dest) then ok (pad n (until_nul src) ++ drop n dest) else undefined

-- A name into a row. An array `field` of length 0 is undefined.
unfoldable pub read_name : List ℕ → Io (List ℕ)
unfolding read_be read strncpy
read_name row = do
  l ← read_be 4
  (if l == 0 then lift undefined else pure tt)
  d ← read l
  lift (strncpy row (pad l d) l)

unfoldable pub read_names : ℕ → List (List ℕ) → Io (List (List ℕ))
unfolding read_name
read_names zero rows = pure rows
read_names (suc n) [] = lift undefined
read_names (suc n) (row ∷ rows) = read_name row >>= λ r. read_names n rows >>= λ rs. pure (r ∷ rs)

unfoldable pub read_types : ℕ → List ℕ → Io (List ℕ)
unfolding read_be
read_types zero ts = pure ts
read_types (suc n) [] = lift undefined
read_types (suc n) (t ∷ ts) = read_be 4 >>= λ v. read_types n ts >>= λ r. pure (v ∷ r)

-- The fields, if there are any.
unfoldable pub read_fields : ℕ → HeaderD → Io HeaderD
unfolding read_names read_types
read_fields n hd = do
  rows ← read_names n hd.sch_d.fields_name
  ts ← read_types n hd.sch_d.types
  pure (record hd { sch_d = record { fields_num = n; fields_name = rows; types = ts } })

unfoldable pub read_header : HeaderD → Io HeaderD
unfolding read_be read_fields
read_header hd = do
  id ← read_be 4
  (if id == header_id_sys then pure tt else fail)
  v ← read_be 2
  (if v == vs then pure tt else fail)
  n ← read_be 2
  (if n == 0
      then pure (record { id_n = id; version = v; sch_d = record hd.sch_d { fields_num = 0 } })
      else read_fields n (record { id_n = id; version = v; sch_d = hd.sch_d }))
