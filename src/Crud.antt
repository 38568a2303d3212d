-- ===== src/Crud.antt =====
-- Finding a record by its key: `get_record` of src/crud.c on the files on disk, with
-- `get_rec_position`, and `key_converter` and `is_num` of src/str_op.c. The records that it links by
-- `next` are a list. A byte that is not ASCII is neither a letter nor punctuation.
pub mod Lookup
use isam_db_c_language.Base.{
  ℕ, zero, suc, ◌+◌, ◌-◌, ◌*◌, ◌%◌, ◌^◌, Bool, true, false, ◌&&◌, ◌||◌, List, [], ◌∷◌, Outcome, ok,
  undefined, if◌then◌else◌, ltb, leb, ◌==◌, Option, none, some,
}
use isam_db_c_language.Base as Base
use isam_db_c_language.HashTbl.{Key, uint, str, HashTable, get}
use isam_db_c_language.IndexFile.{read_index_nr, find_record_position}
use isam_db_c_language.Io.{File, Io, ◌>>=◌, ◌>>◌, pure, fail, lift, seek}
use isam_db_c_language.Header.{Schema}
use isam_db_c_language.Records.{RecordF}
use isam_db_c_language.Records.Arrays.{positive}
use isam_db_c_language.Records.Store.{read_file, get_update_offset, read_part}

abbrev within : ℕ → ℕ → ℕ → Bool
within lo c hi = leb lo c && leb c hi

-- `isalpha(c) || ispunct(c)` in the C locale.
unfoldable pub is_word : ℕ → Bool
is_word c = within 33 c 47 || within 58 c 126

-- True for UINT, false for STR.
unfoldable pub is_num : List ℕ → Bool
unfolding is_word
is_num [] = true
is_num (c ∷ key) = let rest = is_num key in if is_word c then false else rest

-- `strtol(s, &end, 10)` where there is no sign: spaces, and digits up to another character.
unfoldable pub digits : ℕ → List ℕ → ℕ
digits n [] = n
digits n (c ∷ s) = let rest = digits (n * 10 + (c - 48)) s in if within 48 c 57 then rest else n

unfoldable pub skip_spaces : List ℕ → List ℕ
skip_spaces [] = []
skip_spaces (c ∷ s) = let rest = skip_spaces s in if (c == 32) || within 9 c 13 then rest else c ∷ s

unfoldable pub strtol : List ℕ → ℕ
unfolding digits skip_spaces
strtol s = let n = digits 0 (skip_spaces s) in if ltb n (2 ^ 63) then n else 2 ^ 63 - 1

-- The number of a key, which keeps its low 32 bits; none for 0 and for `MAX_KEY`.
unfoldable pub key_converter : List ℕ → Option ℕ
unfolding strtol
key_converter key =
    let l = strtol key in if (l == 0) || (l == 2 ^ 32) then none else some (l % 2 ^ 32)

-- The key of the hash table that a text stands for.
unfoldable pub table_key : List ℕ → Option Key
unfolding is_num key_converter
table_key key =
    if is_num key
    then elim (key_converter key) [ none ↦ none | some n ↦ some (uint n) ]
    else some (str key)

unfoldable pub get_rec_position : HashTable → List ℕ → Outcome (Option ℕ)
unfolding table_key get
get_rec_position ht key = elim (table_key key) [ none ↦ ok none | some k ↦ get k ht ]

-- The parts of a record, from the position on. The offset -1 counts as an error.
unfoldable pub read_parts : ℕ → Schema → Io (List RecordF)
unfolding read_file get_update_offset positive seek
read_parts zero sch = lift undefined
read_parts (suc k) sch = read_part sch >>= λ x. elim (positive 8 (x.1)) [
  | true ↦ seek (x.1) >> read_parts k sch >>= λ rest. pure ((x.0) ∷ rest)
  | false ↦ if (x.1) == 256 ^ 8 - 1 then fail else pure ((x.0) ∷ [])
]

-- A part takes a call at least.
unfoldable pub read_record : Schema → ℕ → Io (List RecordF)
unfolding find_record_position read_parts
read_record sch offset = find_record_position offset >> (λ f. read_parts (suc f.budget) sch f)

-- The rest of `get_record`, with the index file as it is.
unfoldable pub read_found :
    Schema → File → File → Option ℕ → Outcome (Option (List RecordF) × File × File)
unfolding read_record
read_found sch index file none = ok (none, index, file)
read_found sch index file (some offset) =
    Base.◌>>=◌ (read_record sch offset file) λ r. ok (r.0, index, r.1)

-- On the index file and the data file.
unfoldable pub get_record :
    List ℕ → Schema → File → File → Outcome (Option (List RecordF) × File × File)
unfolding read_index_nr get_rec_position read_found
get_record key sch index file = Base.◌>>=◌ (read_index_nr 0 index) λ r. elim r.0 [
  | none ↦ ok (none, r.1, file)
  | some t ↦ Base.◌>>=◌ (get_rec_position t key) (read_found sch r.1 file)
]
