-- ===== src/Records/StringLayout.antt =====
-- The bytes of a new string in a file, and its writer and readers as such.
use isam_db_c_language.Base.{
  ℕ, zero, suc, ◌+◌, ◌*◌, ◌^◌, ◌<◌, ◌≡◌, refl, arith, List, [], ◌∷◌, ◌++◌, ok, length, take,
  replicate, Bool-cases, inl, inr, append_assoc, sym, length-replicate, ◌==◌, length-take,
  length-append, ◌∙◌,
}
use isam_db_c_language.Io.{◌>>=◌, pure, read, read_be}
use mathlib.Core.Path.{subst}
use isam_db_c_language.Io.Bytes.{be, pad, pad_self}
use isam_db_c_language.Io.Wire.{
  Appends, Appends-write, Appends-write_be, Appends-seq, Appends-lift, Reads, Reads-read, Reads-map,
  Reads-bind, Reads-last, Reads-read_be,
}
use isam_db_c_language.IndexFile.{until_nul}
use isam_db_c_language.Header.{c_str}
use isam_db_c_language.Header.Encode.{IsText}
use isam_db_c_language.Records.Arrays.{positive}
use isam_db_c_language.Records.Strings.{
  write_text, write_string, read_buffer, read_string, read_located, read_string_element,
}

-- The size of the buffer of a string: twice its length and one more.
abbrev pub buffer_size : List ℕ → ℕ
buffer_size s = length s * 2 + 1

-- The allocation of a C string whose buffer has a size of 64 bits.
pub record IsString (buf : List ℕ) : Type 0 where
  pub ends : c_str buf ≡ ok (until_nul buf)
  pub few : buffer_size (until_nul buf) < 256 ^ 8

unfoldable pub text_bytes : List ℕ → List ℕ
text_bytes s = be 8 0 ++ be 8 (buffer_size s) ++ pad (buffer_size s) s

unfoldable pub string_bytes : List ℕ → List ℕ
string_bytes buf = text_bytes (until_nul buf)

-- What `read_file` has in place of the string: the whole buffer.
unfoldable pub buffered : List ℕ → List ℕ
buffered buf = pad (buffer_size (until_nul buf)) (until_nul buf)

unfoldable pub copied : List ℕ → List ℕ
copied buf = until_nul buf ++ 0 ∷ []

pub until_nul-IsText : (buf : List ℕ) → IsText (until_nul buf)
unfolding until_nul
until_nul-IsText [] = tt
until_nul-IsText (c ∷ s) = elim (Bool-cases (c == 0)) [
  | inl e ↦ rw e tt
  | inr e ↦ rw e (ground arith, until_nul-IsText s)
]

c_str-zeros :
    (s : List ℕ) (n m : ℕ)
    → IsText s
    → length s < n
    → 0 < m
    → c_str (take n (s ++ replicate m 0)) ≡ ok s
unfolding c_str
c_str-zeros s zero m t h k = absurd (omega arith)
c_str-zeros s (suc n) zero t h k = absurd (omega arith)
c_str-zeros [] (suc n) (suc m) t h k = refl
c_str-zeros (c ∷ s) (suc n) (suc m) t h k =
    rw (c_str-zeros s n (suc m) t.1 (omega arith) k) (ground arith)

pub c_str-pad : (s : List ℕ) (n : ℕ) → IsText s → length s < n → c_str (pad n s) ≡ ok s
unfolding pad
c_str-pad s n t h = c_str-zeros s n n t h (omega arith)

pub length-pad : (n : ℕ) (d : List ℕ) → length (pad n d) ≡ n
unfolding pad
length-pad n d =
    length-take n (d ++ replicate n 0)
    ∙ grind (arith, length-append d (replicate n 0), length-replicate {A = ℕ} n 0)

Appends-text : (s : List ℕ) → Appends (write_text s) (text_bytes s) 3
unfolding write_text text_bytes
Appends-text s =
    Appends-seq _ _ _ _ 2 1
      (Appends-seq _ _ _ _ 1 1 (Appends-write_be 8 0) (Appends-write_be 8 (buffer_size s)))
      (Appends-write (pad (buffer_size s) s))

pub Appends-string : (buf : List ℕ) → IsString buf → Appends (write_string buf) (string_bytes buf) 3
unfolding write_string string_bytes
Appends-string buf is =
    Appends-lift (c_str buf) (until_nul buf) write_text _ 3 is.ends (Appends-text (until_nul buf))

Reads-buffer : (n : ℕ) (d : List ℕ) → length d ≡ n → Reads (read_buffer n) d 1 d
unfolding read_buffer
Reads-buffer n d h =
    subst (Reads (read n >>= λ x. pure (pad n x)) d 1) (pad_self n d h)
      (Reads-map (read n) (pad n) d 1 d (Reads-read d n h))

pub Reads-string :
    (buf : List ℕ) → IsString buf → Reads read_string (string_bytes buf) 3 (buffered buf)
unfolding read_string read_located string_bytes text_bytes buffered positive
Reads-string buf is =
    let s = until_nul buf in
    subst (λ (d : List ℕ). Reads read_string d 3 (buffered buf))
      (sym (append_assoc (be 8 0) (be 8 (buffer_size s)) (pad (buffer_size s) s)))
      (Reads-bind (read_be 8) _ (be 8 0) _ 1 2 0 _ (Reads-read_be 8 0 (omega arith)) (
        Reads-bind (read_be 8) _ (be 8 (buffer_size s)) _ 1 1 (buffer_size s) _
          (Reads-read_be 8 (buffer_size s) is.few)
          (Reads-buffer (buffer_size s) (pad (buffer_size s) s) (length-pad (buffer_size s) s))))

pub Reads-string_element :
    (buf : List ℕ) → IsString buf → Reads read_string_element (string_bytes buf) 3 (copied buf)
unfolding read_string_element copied buffered
Reads-string_element buf is =
    Reads-last read_string _ (string_bytes buf) 3 (buffered buf) (copied buf)
      (rw
        (c_str-pad (until_nul buf) (buffer_size (until_nul buf)) (until_nul-IsText buf)
          (omega arith))
        refl)
      (Reads-string buf is)
