-- ===== src/Io.antt =====
-- Files as the code uses them: `read`, `write` and `lseek` on one descriptor, from src/file.c and
-- every reader and writer. A call fails (-1) when `budget`, the number of calls that the system
-- still grants, is used up. A write that succeeds writes all its bytes; a read stops at the end.
pub mod Bytes
pub mod Calls
pub mod Patch
pub mod Wire
use Bytes.{overwrite, be, from_be, pad}
use isam_db_c_language.Base.{
  ℕ, zero, suc, ◌+◌, ◌-◌, ◌*◌, Bool, true, false, Option, none, some, List, [], ◌∷◌, ◌++◌, Outcome,
  ok, undefined, length, take, drop, if◌then◌else◌, ltb,
}

pub record File : Type 0 where
  pub bytes : List ℕ
  pub pos : ℕ
  pub budget : ℕ

-- A piece of code that ends with a value, or with its error return, `none`.
abbrev pub Io : Type 0 → Type 0
Io A = File → Outcome (Option A × File)

infixl 5 ◌>>=◌ ◌>>◌
abbrev pub ◌>>=◌ : {A B : Type 0} → Io A → (A → Io B) → Io B
◌>>=◌ m f s = elim (m s) [
  | undefined ↦ undefined
  | ok r ↦ elim r.0 [ none ↦ ok (none, r.1) | some a ↦ f a r.1 ]
]

abbrev pub ◌>>◌ : {B : Type 0} → Io (Unit {0}) → Io B → Io B
m >> k = m >>= λ _. k

abbrev pub pure : {A : Type 0} → A → Io A
pure a s = ok (some a, s)

-- The error return.
abbrev pub fail : {A : Type 0} → Io A
fail s = ok (none, s)

-- Pure code that may be undefined.
abbrev pub lift : {A : Type 0} → Outcome A → Io A
lift undefined s = undefined
lift (ok a) s = ok (some a, s)

unfoldable pub write : List ℕ → Io (Unit {0})
unfolding overwrite
write d f = elim f.budget [
  | zero ↦ ok (none, f)
  | suc b ↦
      ok (some tt, record { bytes = overwrite f.bytes f.pos d; pos = f.pos + length d; budget = b })
]

-- Up to `n` bytes from the position on.
unfoldable pub read : ℕ → Io (List ℕ)
read n f = elim f.budget [
  | zero ↦ ok (none, f)
  | suc b ↦
      let d = take n (drop f.pos f.bytes) in
      ok (some d, record f { pos = f.pos + length d; budget = b })
]

-- `lseek(fd, p, SEEK_SET)`, as in `find_record_position` and `begin_in_file`.
unfoldable pub seek : ℕ → Io (Unit {0})
seek p f = elim f.budget [
  | zero ↦ ok (none, f)
  | suc b ↦ ok (some tt, record f { pos = p; budget = b })
]

-- `lseek(fd, 0, SEEK_CUR)`: `get_file_offset`.
unfoldable pub tell : Io ℕ
tell f = elim f.budget [ zero ↦ ok (none, f) | suc b ↦ ok (some f.pos, record f { budget = b }) ]

-- `lseek(fd, 0, SEEK_END)`: `go_to_EOF`.
unfoldable pub seek_end : Io ℕ
seek_end f = elim f.budget [
  | zero ↦ ok (none, f)
  | suc b ↦ ok (some (length f.bytes), record f { pos = length f.bytes; budget = b })
]

-- A number of `k` bytes, read into a variable that was 0 before: a short read leaves zeros.
unfoldable pub read_be : ℕ → Io ℕ
unfolding read pad from_be
read_be k = do d ← read k; pure (from_be (pad k d))

-- `htonl`, `htons` or `bswap_64` of a number, written.
unfoldable pub write_be : ℕ → ℕ → Io (Unit {0})
unfolding write be
write_be k n = write (be k n)
