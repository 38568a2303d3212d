-- ===== src/Records/Update.antt =====
-- The branch TYPE_STRING of `write_file` with `update` set: a string is written over the one that
-- stands in the file, or at the end of the file if its buffer is too small.
use isam_db_c_language.Base.{ℕ, ◌+◌, true, false, List, if◌then◌else◌, ltb, ◌==◌, length}
use isam_db_c_language.Io.{
  Io, ◌>>=◌, ◌>>◌, pure, lift, write, read_be, write_be, seek, tell, seek_end,
}
use isam_db_c_language.Io.Bytes.{pad}
use isam_db_c_language.Header.{c_str}
use isam_db_c_language.Records.Arrays.{positive}

-- `move_to` and `buff_update`: the place of the buffer if it is not in the record, and its size.
unfoldable pub find_buffer : ℕ → ℕ → Io (ℕ × ℕ)
unfolding positive seek tell read_be
find_buffer str_loc size = elim (positive 8 str_loc) [
  | true ↦ seek str_loc >> (tell >>= λ move_to. read_be 8 >>= λ n. pure (move_to, n))
  | false ↦ pure (0, size)
]

-- The buffer with its size, at the position.
unfoldable pub write_buffer : ℕ → List ℕ → Io (Unit {0})
unfolding write_be write pad
write_buffer size s = write_be 8 size >> write (pad size s)

-- Back to the end of the record, if the buffer is not in it.
unfoldable pub return_from : ℕ → ℕ → Io (Unit {0})
unfolding positive seek
return_from str_loc go_back_to = if positive 8 str_loc then seek go_back_to else pure tt

-- The string is not longer than its buffer.
unfoldable pub write_over : ℕ → ℕ → ℕ × ℕ → List ℕ → ℕ → Io (Unit {0})
unfolding positive seek write_buffer return_from
write_over str_loc af_str_loc_pos buffer s go_back_to = do
  (if str_loc == 0
      then seek af_str_loc_pos
      else (if positive 8 str_loc then seek buffer.0 else pure tt))
  write_buffer buffer.1 s
  return_from str_loc go_back_to

-- The string is longer: it goes to the end of the file, and its offset to the start of the record.
unfoldable pub write_at_end : ℕ → ℕ → List ℕ → ℕ → Io (Unit {0})
unfolding positive seek seek_end write_buffer return_from write_be
write_at_end bg_pos str_loc s go_back_to = do
  eof ← seek_end
  write_buffer (length s + 1) s
  (if positive 8 eof
      then (seek bg_pos >> write_be 8 eof >> seek go_back_to)
      else return_from str_loc go_back_to)

-- The choice between the two places.
unfoldable pub place_string : ℕ → ℕ → ℕ → ℕ → List ℕ → ℕ × ℕ → Io (Unit {0})
unfolding c_str write_over write_at_end
place_string bg_pos str_loc af_str_loc_pos go_back_to new buffer = lift (c_str new) >>= λ s.
    if ltb buffer.1 (length s + 1)
    then write_at_end bg_pos str_loc s go_back_to
    else write_over str_loc af_str_loc_pos buffer s go_back_to

unfoldable pub update_string : List ℕ → Io (Unit {0})
unfolding tell read_be find_buffer place_string
update_string new = do
  bg_pos ← tell
  str_loc ← read_be 8
  af_str_loc_pos ← tell
  size ← read_be 8
  here ← tell
  buffer ← find_buffer str_loc size
  place_string bg_pos str_loc af_str_loc_pos (here + size) new buffer
