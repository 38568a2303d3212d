-- ===== src/Records/Places.antt =====
-- Where a string stands in the file, and `read_string` there.
use isam_db_c_language.Base.{
  ℕ, suc, ◌+◌, ◌*◌, ◌^◌, ◌<◌, ◌≡◌, refl, ap, sym, ◌∙◌, arith, true, List, ◌++◌, ok, length, drop,
  some,
}
use isam_db_c_language.Io.{File, ◌>>=◌, ◌>>◌, pure, read, read_be, seek, tell}
use isam_db_c_language.Io.Bytes.{be, pad, pad_self, length-be, drop-add, drop-length_append}
use isam_db_c_language.Io.Wire.{Reads-read, Reads-read_be, bind-ok}
use isam_db_c_language.Records.Arrays.{positive}
use isam_db_c_language.Records.Strings.{read_buffer, read_further, read_located, read_string}

abbrev pub at : List ℕ → ℕ → ℕ → File
at bytes pos budget = record { bytes = bytes; pos = pos; budget = budget }

-- A string record at `p`, whose buffer is `buf` and which ends at `e`: the buffer stands in the
-- record, or further on in the file.
pub data Stands (bytes : List ℕ) (p : ℕ) (buf : List ℕ) (e : ℕ) : Type 0 where
  inside :
      (a z : List ℕ)
      → bytes ≡ a ++ (be 8 0 ++ (be 8 (length buf) ++ (buf ++ z)))
      → p ≡ length a
      → e ≡ p + 8 + 8 + length buf
      → length buf < 256 ^ 8
      → Stands bytes p buf e
  further :
      (a old mid z : List ℕ) (loc : ℕ)
      → bytes
        ≡ a
          ++ (be 8 loc
              ++ (be 8 (length old) ++ (old ++ (mid ++ (be 8 (length buf) ++ (buf ++ z))))))
      → p ≡ length a
      → e ≡ p + 8 + 8 + length old
      → loc ≡ e + length mid
      → 2 * loc < 256 ^ 8
      → length old < 256 ^ 8
      → length buf < 256 ^ 8
      → Stands bytes p buf e

-- What stands after the bytes at a position.
pub after :
    (bytes d s : List ℕ) (p k : ℕ) → drop p bytes ≡ d ++ s → length d ≡ k → drop (p + k) bytes ≡ s
after bytes d s p k e len = drop-add bytes p k ∙ ap (drop k) e ∙ drop-length_append d s k len

pub starts : (bytes a s : List ℕ) (p : ℕ) → bytes ≡ a ++ s → p ≡ length a → drop p bytes ≡ s
starts bytes a s p e here = ap (drop p) e ∙ drop-length_append a s p (sym here)

same_file : (bytes : List ℕ) (p q b c : ℕ) → p ≡ q → b ≡ c → at bytes p b ≡ at bytes q c
same_file bytes p q b c e g i = at bytes (e i) (g i)

-- The readers on what stands at the position.
module _ (bytes s : List ℕ) (p b : ℕ) where
  pub read_be-here :
      (k n : ℕ)
      → n < 256 ^ k
      → drop p bytes ≡ be k n ++ s
      → read_be k (at bytes p (suc b)) ≡ ok (some n, at bytes (p + k) b)
  read_be-here k n small e =
      Reads-read_be k n small (at bytes p (suc b)) s e (omega arith)
      ∙ ap (λ (f : File). ok (some n, f))
          (same_file bytes _ _ _ _ (ap (◌+◌ p) (length-be k n)) (omega arith))

  pub read_buffer-here :
      (buf : List ℕ)
      → drop p bytes ≡ buf ++ s
      → read_buffer (length buf) (at bytes p (suc b)) ≡ ok (some buf, at bytes (p + length buf) b)
  unfolding read_buffer
  read_buffer-here buf e =
      bind-ok (read (length buf)) (λ x. pure (pad (length buf) x)) (at bytes p (suc b))
        (at bytes (p + length buf) b) buf
        (Reads-read buf (length buf) refl (at bytes p (suc b)) s e (omega arith)
          ∙ ap (λ (f : File). ok (some buf, f)) (same_file bytes _ _ _ _ refl (omega arith)))
      ∙ ap (λ (d : List ℕ). ok (some d, at bytes (p + length buf) b))
          (pad_self (length buf) buf refl)

pub is_positive : (loc e n : ℕ) → loc ≡ e + n → 0 < e → 2 * loc < 256 ^ 8 → positive 8 loc ≡ true
unfolding positive
is_positive loc e n there after_start small = ground arith

-- The two numbers of a string record.
module _ (bytes rest : List ℕ) (p b loc size : ℕ) (small : loc < 256 ^ 8) (few : size < 256 ^ 8)
    (there : drop p bytes ≡ be 8 loc ++ (be 8 size ++ rest)) where
  pub read_string-here :
      read_string (at bytes p (suc (suc b))) ≡ read_located loc size (at bytes (p + 8 + 8) b)
  unfolding read_string
  read_string-here =
      bind-ok (read_be 8) (λ l. read_be 8 >>= read_located l) (at bytes p (suc (suc b)))
        (at bytes (p + 8) (suc b)) loc (read_be-here bytes _ p (suc b) 8 loc small there)
      ∙ bind-ok (read_be 8) (read_located loc) (at bytes (p + 8) (suc b)) (at bytes (p + 8 + 8) b)
          size
          (read_be-here bytes rest (p + 8) b 8 size few
            (after bytes (be 8 loc) _ p 8 there (length-be 8 loc)))

read_further-here :
    (bytes z buf : List ℕ) (p e b : ℕ)
    → length buf < 256 ^ 8
    → drop p bytes ≡ be 8 (length buf) ++ (buf ++ z)
    → read_further e (at bytes p (suc (suc (suc b)))) ≡ ok (some buf, at bytes e b)
unfolding read_further seek
read_further-here bytes z buf p e b few there =
    bind-ok (read_be 8) (λ n. read_buffer n >>= λ s. seek e >> pure s)
      (at bytes p (suc (suc (suc b)))) (at bytes (p + 8) (suc (suc b))) (length buf)
      (read_be-here bytes (buf ++ z) p (suc (suc b)) 8 (length buf) few there)
    ∙ bind-ok (read_buffer (length buf)) (λ s. seek e >> pure s) (at bytes (p + 8) (suc (suc b)))
        (at bytes (p + 8 + length buf) (suc b)) buf
        (read_buffer-here bytes z (p + 8) (suc b) buf
          (after bytes (be 8 (length buf)) _ p 8 there (length-be 8 (length buf))))

-- `read_string` yields the buffer and ends at the end of the record.
pub read_string-Stands :
    (bytes : List ℕ) (p : ℕ) (buf : List ℕ) (e b : ℕ)
    → Stands bytes p buf e
    → (left : ℕ) × (read_string (at bytes p (suc (suc (suc (suc (suc (suc (suc b))))))))
        ≡ ok (some buf, at bytes e left))
unfolding read_located seek tell
read_string-Stands bytes p buf e b (inside a z is here end few) =
    let r0 = starts bytes a _ p is here in
    let r1 = after bytes (be 8 0) _ p 8 r0 (length-be 8 0) in
    let r2 = after bytes (be 8 (length buf)) _ (p + 8) 8 r1 (length-be 8 (length buf)) in
    let six = suc (suc (suc (suc b))) in
    (
      six,
      read_string-here bytes (buf ++ z) p (suc six) 0 (length buf) (omega arith) few r0
          ∙ read_buffer-here bytes z (p + 8 + 8) six buf r2
          ∙ ap (λ (q : ℕ). ok (some buf, at bytes q six)) (sym end),
    )
read_string-Stands bytes p buf e b (further a old mid z loc is here end there small few_old few) =
    let r0 = starts bytes a _ p is here in
    let r1 = after bytes (be 8 loc) _ p 8 r0 (length-be 8 loc) in
    let r2 = after bytes (be 8 (length old)) _ (p + 8) 8 r1 (length-be 8 (length old)) in
    let r3 = after bytes old _ (p + 8 + 8) (length old) r2 refl in
    let r4 = after bytes mid _ (p + 8 + 8 + length old) (length mid) r3 refl in
    let q0 = ap (λ (q : ℕ). drop q bytes) (there ∙ ap (λ (q : ℕ). q + length mid) end) ∙ r4 in
    (
      b,
      read_string-here bytes _ p (suc (suc (suc (suc (suc b))))) loc (length old) (omega arith)
            few_old r0
          ∙ rw (read_located, is_positive loc e (length mid) there (omega (arith, end)) small)
              (read_further-here bytes z buf loc (p + 8 + 8 + length old) b few q0)
          ∙ ap (λ (q : ℕ). ok (some buf, at bytes q b)) (sym end),
    )
