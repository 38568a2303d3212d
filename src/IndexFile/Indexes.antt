-- ===== src/IndexFile/Indexes.antt =====
-- All indexes of a database at once: `read_all_index_file` of src/file.c, and `write_index` of
-- src/crud.c. To open a file is always granted.
use isam_db_c_language.Base.{
  ℕ, zero, suc, ◌+◌, ◌*◌, ◌^◌, Bool, true, false, List, [], ◌∷◌, ok, undefined, some, if◌then◌else◌,
  leb, ◌==◌,
}
use isam_db_c_language.HashTbl.{HashTable, empty_table}
use isam_db_c_language.Io.{Io, ◌>>=◌, ◌>>◌, pure, fail, lift, seek, tell, read_be}
use isam_db_c_language.IndexFile.{write_index_file_head, write_index_body, read_index_file}

-- `close_file(1, fd); fd = open_file(file_name, use_trunc)`
unfoldable pub reopen_file : Bool → Io (Unit {0})
reopen_file use_trunc f =
    ok (some tt, record f { bytes = if use_trunc then [] else f.bytes; pos = 0 })

-- The loop of `write_index`: the number of the next index, and how many there are to come.
unfoldable pub write_bodies : ℕ → ℕ → List HashTable → Io (Unit {0})
unfolding write_index_body
write_bodies i zero ts = pure tt
write_bodies i (suc n) [] = lift undefined
write_bodies i (suc n) (t ∷ ts) = write_index_body i t >> write_bodies (suc i) n ts

unfoldable pub write_index : ℕ → List HashTable → Io (Unit {0})
unfolding reopen_file write_index_file_head write_bodies
write_index index ht = do
  reopen_file true
  write_index_file_head index
  write_bodies 0 index ht
  reopen_file false

-- `move_in_file_bytes(fd, offset)`
unfoldable pub move_in_file_bytes : ℕ → Io (Unit {0})
unfolding seek tell
move_in_file_bytes offset = tell >>= λ p. seek (p + offset)

-- The loop of `read_all_index_file`, with the tables that are left; the number of an index stands
-- before all but the first, which is passed over before the loop.
unfoldable pub read_tables : ℕ → Io (List HashTable)
unfolding read_index_file move_in_file_bytes
read_tables zero = pure []
read_tables (suc n) = do
  t ← read_index_file (empty_table 0)
  (if n == 0 then pure tt else move_in_file_bytes 4)
  ts ← read_tables n
  pure (t ∷ ts)

-- A count of 2^31 or more is a negative `int`, for which `calloc` fails.
unfoldable pub read_all_index_file : Io (List HashTable)
unfolding seek read_be move_in_file_bytes read_tables
read_all_index_file = do
  seek 0
  n ← read_be 4
  (if leb (2 ^ 31) n then fail else pure tt)
  (if n == 0 then fail else pure tt)
  move_in_file_bytes (n * 8 + 4)
  read_tables n
