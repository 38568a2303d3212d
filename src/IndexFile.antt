-- ===== src/IndexFile.antt =====
-- The index file: `write_ht` of src/hash_tbl.c and the index functions of src/file.c.
pub mod Indexes
pub mod Layout
pub mod WriteBody
pub mod WriteAll
pub mod ReadAll
pub mod ReadNr
pub mod Encode
pub mod Load
pub mod Absorb
pub mod Reload
pub mod RoundTrip
use isam_db_c_language.Base.{
  ℕ, zero, suc, ◌+◌, ◌-◌, ◌*◌, ◌^◌, Bool, true, false, List, [], ◌∷◌, ◌++◌, ok, undefined, Outcome,
  if◌then◌else◌, ltb, leb, ◌==◌, length, take, set as set_elem, Option, none, some,
}
use isam_db_c_language.Base as Base
use isam_db_c_language.Base.Int.{ℤ, pos, negsuc}
use isam_db_c_language.HashTbl.{Key, str, uint, Node, HashTable, chains, len, locate, empty_table}
use isam_db_c_language.Io.{
  File, Io, ◌>>=◌, ◌>>◌, pure, fail, lift, write, read, seek, seek_end, tell, read_be, write_be,
}
use isam_db_c_language.Io.Bytes.{from_be, pad}

-- STR and UINT as they stand in the file.
unfoldable pub write_node : Key → ℕ → Io (Unit {0})
unfolding write write_be
write_node (str s) v = do write_be 4 1; write_be 8 (length s); write (s ++ 0 ∷ []); write_be 8 v
write_node (uint n) v = do write_be 4 2; write_be 4 n; write_be 8 v

unfoldable pub write_chain : List Node → Io (Unit {0})
unfolding write_node
write_chain [] = pure tt
write_chain (n ∷ c) = write_node n.key n.value >> write_chain c

unfoldable pub write_chains : List (List Node) → Io (Unit {0})
unfolding write_chain
write_chains [] = pure tt
write_chains (c ∷ m) = write_chain c >> write_chains m

unfoldable pub write_ht : HashTable → Io (Unit {0})
unfolding write_chains
write_ht t = do
  write_be 4 t.size
  n ← lift (len t)
  write_be 4 n
  (if n == 0 then pure tt else (lift (chains t.size t.data_map) >>= write_chains))

-- A C string in a buffer: what stands before the first NUL.
unfoldable pub until_nul : List ℕ → List ℕ
until_nul [] = []
until_nul (c ∷ s) = let rest = until_nul s in if c == 0 then [] else c ∷ rest

-- The value of a node, and the node.
unfoldable pub read_value : Key → Io Node
unfolding read_be
read_value k = do v ← read_be 8; pure (record { key = k; value = v })

-- The key's bytes: `size` is what the file gives for their number.
unfoldable pub read_text : ℕ → Io Node
unfolding read_value until_nul
read_text size = do s ← read (size + 1); read_value (str (until_nul (take size (pad (size + 1) s))))

-- `read(fd, &key_l, sizeof(key_l)) > 0` refuses the end of the file too.
unfoldable pub read_length : List ℕ → Io Node
unfolding read_text
read_length [] = fail
read_length (b ∷ d) = read_text (from_be (pad 8 (b ∷ d)))

unfoldable pub read_node : ℕ → Io Node
unfolding read_length
read_node type =
    if type == 1
    then (read 8 >>= read_length)
    else if type == 2
    then (read_be 4 >>= λ k. read_value (uint k))
    else fail

-- A string node goes to the end of its chain. An integer node is kept if the chain is empty, and
-- otherwise lost: the code ends with `current = new_node` in place of `current->next = new_node`.
unfoldable pub absorb : Key → List Node → Node → List Node
absorb (str s) c n = c ++ n ∷ []
absorb (uint k) [] n = n ∷ []
absorb (uint k) (m ∷ c) n = m ∷ c

unfoldable pub insert_read : Node → HashTable → Outcome HashTable
unfolding absorb locate
insert_read n t =
    Base.◌>>=◌ (locate n.key t)
      λ r. ok (record t { data_map = set_elem t.data_map r.0 (absorb n.key r.1 n) })

-- The loop, with the rounds that are left.
unfoldable pub read_nodes : ℕ → HashTable → Io HashTable
unfolding read_node insert_read
read_nodes zero t = pure t
read_nodes (suc rounds) t = do
  type ← read_be 4
  n ← read_node type
  u ← lift (insert_read n t)
  read_nodes rounds u

-- A length of 2^31 or more is a negative `int`, for which the loop makes no round.
unfoldable pub rounds : ℕ → ℕ
rounds n = if ltb n (2 ^ 31) then n else 0

-- A size of 2^31 or more would be a negative `int`, which `HashTable` does not hold.
unfoldable pub as_size : ℕ → Outcome ℕ
as_size n = if ltb n (2 ^ 31) then ok n else undefined

unfoldable pub read_index_file : HashTable → Io HashTable
unfolding read_nodes rounds as_size
read_index_file t = do
  s ← read_be 4
  size ← lift (as_size s)
  n ← read_be 4
  read_nodes (rounds n) (record t { size = size })

-- `index_num` zeros for the positions of the indexes.
unfoldable pub write_zeros : ℕ → Io (Unit {0})
unfolding write_be
write_zeros zero = pure tt
write_zeros (suc n) = write_be 8 0 >> write_zeros n

unfoldable pub write_index_file_head : ℕ → Io (Unit {0})
unfolding write_zeros
write_index_file_head index_num = write_be 4 index_num >> write_zeros index_num

-- `find_record_position(fd, sizeof(int))`, then `move_in_file_bytes` (which asks for the position
-- and seeks) unless `i` is 0.
unfoldable pub seek_slot : ℕ → Io (Unit {0})
unfolding seek tell
seek_slot i = do seek 4; (if i == 0 then pure tt else (tell >>= λ p. seek (p + i * 8)))

unfoldable pub write_index_body : ℕ → HashTable → Io (Unit {0})
unfolding write_ht seek_slot seek_end
write_index_body i t = do
  write_be 4 i
  p ← tell
  write_ht t
  seek 0
  seek_slot i
  write_be 8 p
  (seek_end >>= λ e. pure tt)

-- `(int)` of a number of 32 bits.
unfoldable pub as_int : ℕ → ℤ
as_int n = if ltb n (2 ^ 31) then pos n else negsuc (2 ^ 32 - 1 - n)

-- `find_record_position`: `lseek` refuses an offset that is negative as an `off_t`.
unfoldable pub find_record_position : ℕ → Io (Unit {0})
unfolding seek
find_record_position p = if ltb (2 * p) (256 ^ 8) then seek p else fail

-- The count of indexes in the file, which may be negative; 0 is refused.
unfoldable pub indexes_on_file : Io ℤ
unfolding read_be seek as_int
indexes_on_file = do seek 0; n ← read_be 4; (if n == 0 then fail else pure (as_int n))

-- `array_size <= i_num`, where `i_num` is not negative.
unfoldable pub out_of_bound : ℤ → ℕ → Bool
out_of_bound (pos n) i = leb n i
out_of_bound (negsuc n) i = true

-- The index of number `i`, read into an empty table.
unfoldable pub read_index_nr : ℕ → Io HashTable
unfolding as_int out_of_bound find_record_position read_index_file read_be seek tell
read_index_nr i = do
  seek 0
  n ← read_be 4
  (if n == 0 then fail else pure tt)
  (if out_of_bound (as_int n) i then fail else pure tt)
  p ← tell
  seek (p + i * 8)
  q ← read_be 8
  (if q == 0 then fail else pure tt)
  find_record_position q
  read_index_file (empty_table 0)
