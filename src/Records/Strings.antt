-- ===== src/Records/Strings.antt =====
-- Strings in the data file: the branch TYPE_STRING of `write_file` and of `read_file`. A string
-- record is the offset of the string's later place, or 0, the size of the buffer, and the buffer; at
-- the later place there are the size and the buffer.
use isam_db_c_language.Base.{
  ℕ, zero, suc, ◌+◌, ◌*◌, List, [], ◌∷◌, ◌++◌, if◌then◌else◌, ltb, ◌==◌, length, Bool, true, false,
  ok, Outcome,
}
use isam_db_c_language.Base as Base
use isam_db_c_language.Io.{Io, ◌>>=◌, ◌>>◌, pure, lift, write, read, read_be, write_be, seek, tell}
use isam_db_c_language.Io.Bytes.{pad}
use isam_db_c_language.IndexFile.Indexes.{move_in_file_bytes}
use isam_db_c_language.Header.{c_str}
use isam_db_c_language.Records.Arrays.{positive}

-- The branch of a new record, for a string without its NUL.
unfoldable pub write_text : List ℕ → Io (Unit {0})
unfolding write write_be pad
write_text s = write_be 8 0 >> write_be 8 (length s * 2 + 1) >> write (pad (length s * 2 + 1) s)

unfoldable pub write_string : List ℕ → Io (Unit {0})
unfolding write_text c_str
write_string s = lift (c_str s) >>= write_text

-- `calloc(buff_update)` and a `read` into it.
unfoldable pub read_buffer : ℕ → Io (List ℕ)
unfolding read pad
read_buffer size = read size >>= λ d. pure (pad size d)

-- The buffer at `str_loc`, and back to the end of the record.
unfoldable pub read_further : ℕ → Io (List ℕ)
unfolding read_be seek read_buffer
read_further move_to = do later_size ← read_be 8; s ← read_buffer later_size; seek move_to; pure s

-- The buffer, here or at `str_loc`.
unfoldable pub read_located : ℕ → ℕ → Io (List ℕ)
unfolding seek tell read_buffer positive read_further
read_located str_loc size = elim (positive 8 str_loc) [
  | true ↦ tell >>= λ p. seek str_loc >> read_further (p + size)
  | false ↦ read_buffer size
]

unfoldable pub read_string : Io (List ℕ)
unfolding read_be read_located
read_string = read_be 8 >>= λ str_loc. read_be 8 >>= read_located str_loc

-- An element of an array of strings: `insert_element` copies the C string.
unfoldable pub read_string_element : Io (List ℕ)
unfolding read_string c_str
read_string_element = read_string >>= λ s. lift (Base.◌>>=◌ (c_str s) λ t. ok (t ++ 0 ∷ []))

unfoldable pub get_string_size : Io (Unit {0})
unfolding read_be move_in_file_bytes
get_string_size = move_in_file_bytes 8 >> (read_be 8 >>= move_in_file_bytes)

-- The padding of an array of strings.
unfoldable pub skip_strings : ℕ → Io (Unit {0})
unfolding get_string_size
skip_strings zero = pure tt
skip_strings (suc n) = get_string_size >> skip_strings n
