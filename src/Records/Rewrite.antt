-- ===== src/Records/Rewrite.antt =====
-- A string updated in the file: where the new one stands, and that it is read back.
use isam_db_c_language.Base.{
  ℕ, suc, ◌+◌, ◌*◌, ◌^◌, ◌<◌, ◌≡◌, refl, ap, sym, ◌∙◌, arith, Bool, true, false, ◌==◌, List, [],
  ◌++◌, ok, length, drop, some, length-append, append_assoc, append-nil, ltb, if◌then◌else◌,
}
use isam_db_c_language.Io.{
  File, Io, ◌>>=◌, ◌>>◌, pure, lift, write, write_be, read_be, seek, tell, seek_end,
}
use isam_db_c_language.Io.Bytes.{be, pad, length-be, drop-length_append, overwrite, overwrite_end}
use isam_db_c_language.Io.Patch.{overwrite_middle}
use isam_db_c_language.Io.Wire.{bind-ok}
use isam_db_c_language.Header.{c_str}
use isam_db_c_language.Records.Arrays.{positive}
use isam_db_c_language.Records.StringLayout.{length-pad}
use isam_db_c_language.Records.Places.{at, after, read_be-here, is_positive}
use isam_db_c_language.Records.Update.{
  find_buffer, write_buffer, return_from, write_over, write_at_end, place_string, update_string,
}

drop_all : (xs : List ℕ) (n : ℕ) → length xs ≡ n → drop n xs ≡ []
drop_all xs n h = ap (drop n) (sym (append-nil xs)) ∙ drop-length_append xs [] n h

-- Bytes written over as many.
pub overwrite-here :
    (bytes a s tail d : List ℕ) (p : ℕ)
    → bytes ≡ a ++ (s ++ tail)
    → p ≡ length a
    → length s ≡ length d
    → overwrite bytes p d ≡ a ++ (d ++ tail)
overwrite-here bytes a s tail d p is here same =
    let start : p ≡ length a + 0 = omega (arith, here) in
    ap (λ (b : List ℕ). overwrite b p d) is
    ∙ ap (λ (q : ℕ). overwrite (a ++ (s ++ tail)) q d) start
    ∙ overwrite_middle a s tail d 0 (omega (arith, same))
    ∙ ap (λ (t : List ℕ). a ++ (t ++ tail))
        (ap (◌++◌ d) (drop_all s (0 + length d) (omega (arith, same))) ∙ append-nil d)

-- A buffer over one of its size.
write_buffer-here :
    (bytes a old tail s : List ℕ) (p n b : ℕ)
    → bytes ≡ a ++ (be 8 n ++ (old ++ tail))
    → p ≡ length a
    → length old ≡ n
    → write_buffer n s (at bytes p (suc (suc b)))
      ≡ ok (some tt, at (a ++ (be 8 n ++ (pad n s ++ tail))) (p + 8 + n) b)
unfolding write_buffer write_be write
write_buffer-here bytes a old tail s p n b is here size =
    let first : overwrite bytes p (be 8 n) ≡ a ++ (be 8 n ++ (old ++ tail)) =
      overwrite-here bytes a (be 8 n) (old ++ tail) (be 8 n) p is here refl in
    let second : overwrite (overwrite bytes p (be 8 n)) (p + length (be 8 n)) (pad n s)
        ≡ a ++ (be 8 n ++ (pad n s ++ tail)) =
      overwrite-here _ (a ++ be 8 n) old tail (pad n s) _
        (first ∙ sym (append_assoc a (be 8 n) (old ++ tail)))
        (omega (arith, here, length-append a (be 8 n))) (size ∙ sym (length-pad n s))
      ∙ append_assoc a (be 8 n) (pad n s ++ tail) in
    λ i. ok (some tt, at (second i) (ap (λ (k : ℕ). p + 8 + k) (length-pad n s) i) b)

-- A buffer at the end.
write_buffer-end :
    (bytes s : List ℕ) (p n b : ℕ)
    → p ≡ length bytes
    → write_buffer n s (at bytes p (suc (suc b)))
      ≡ ok (some tt, at (bytes ++ (be 8 n ++ pad n s)) (p + 8 + n) b)
unfolding write_buffer write_be write
write_buffer-end bytes s p n b end =
    let first : overwrite bytes p (be 8 n) ≡ bytes ++ be 8 n = overwrite_end bytes (be 8 n) p end in
    let second : overwrite (overwrite bytes p (be 8 n)) (p + length (be 8 n)) (pad n s)
        ≡ bytes ++ (be 8 n ++ pad n s) =
      ap (λ (c : List ℕ). overwrite c (p + length (be 8 n)) (pad n s)) first
      ∙ overwrite_end (bytes ++ be 8 n) (pad n s) (p + length (be 8 n))
          (omega (arith, end, length-append bytes (be 8 n)))
      ∙ append_assoc bytes (be 8 n) (pad n s) in
    λ i. ok (some tt, at (second i) (ap (λ (k : ℕ). p + 8 + k) (length-pad n s) i) b)

-- The start of an update, up to the search for the buffer.
pub update_string-here :
    (bytes rest new : List ℕ) (p loc size b : ℕ)
    → loc < 256 ^ 8
    → size < 256 ^ 8
    → drop p bytes ≡ be 8 loc ++ (be 8 size ++ rest)
    → update_string new (at bytes p (suc (suc (suc (suc (suc b))))))
      ≡ (find_buffer loc size >>= place_string p loc (p + 8) (p + 8 + 8 + size) new)
          (at bytes (p + 8 + 8) b)
unfolding update_string tell
update_string-here bytes rest new p loc size b small few there =
    bind-ok (read_be 8)
      (λ l. tell >>= λ af.
        read_be 8 >>= λ n. tell >>= λ here. find_buffer l n >>= place_string p l af (here + n) new)
      (at bytes p (suc (suc (suc (suc b))))) (at bytes (p + 8) (suc (suc (suc b)))) loc
      (read_be-here bytes _ p (suc (suc (suc b))) 8 loc small there)
    ∙ bind-ok (read_be 8)
        (λ n. tell >>= λ here. find_buffer loc n >>= place_string p loc (p + 8) (here + n) new)
        (at bytes (p + 8) (suc (suc b))) (at bytes (p + 8 + 8) (suc b)) size
        (read_be-here bytes rest (p + 8) (suc b) 8 size few
          (after bytes (be 8 loc) _ p 8 there (length-be 8 loc)))

pub find_buffer-further :
    (bytes rest : List ℕ) (q loc size n b : ℕ)
    → positive 8 loc ≡ true
    → n < 256 ^ 8
    → drop loc bytes ≡ be 8 n ++ rest
    → find_buffer loc size (at bytes q (suc (suc (suc b))))
      ≡ ok (some (loc, n), at bytes (loc + 8) b)
unfolding find_buffer seek tell
find_buffer-further bytes rest q loc size n b pos few there =
    rw (find_buffer, pos)
      (bind-ok (read_be 8) (λ k. pure (loc, k)) (at bytes loc (suc b)) (at bytes (loc + 8) b) n
        (read_be-here bytes rest loc b 8 n few there))

module _ (bg loc af e : ℕ) (new s : List ℕ) (text : c_str new ≡ ok s) (buffer : ℕ × ℕ)
    (f : File) where
  abbrev chosen : Bool → Io (Unit {0})
  chosen b = if b then write_at_end bg loc s e else write_over loc af buffer s e

  abbrev choice : List ℕ → Io (Unit {0})
  choice t =
      if ltb (buffer.1) (length t + 1)
      then write_at_end bg loc t e
      else write_over loc af buffer t e

  pub place-end :
      ltb (buffer.1) (length s + 1) ≡ true
      → place_string bg loc af e new buffer f ≡ write_at_end bg loc s e f
  unfolding place_string
  place-end long =
      bind-ok (lift (c_str new)) choice f f s (rw text refl) ∙ ap (λ (b : Bool). chosen b f) long

  pub place-over :
      ltb (buffer.1) (length s + 1) ≡ false
      → place_string bg loc af e new buffer f ≡ write_over loc af buffer s e f
  unfolding place_string
  place-over short =
      bind-ok (lift (c_str new)) choice f f s (rw text refl) ∙ ap (λ (b : Bool). chosen b f) short

-- Over the buffer in the record.
pub write_over-inside :
    (bytes a old tail s : List ℕ) (p q e n b : ℕ)
    → bytes ≡ a ++ (be 8 n ++ (old ++ tail))
    → p ≡ length a
    → length old ≡ n
    → write_over 0 p (0, n) s e (at bytes q (suc (suc (suc (suc b)))))
      ≡ ok (some tt, at (a ++ (be 8 n ++ (pad n s ++ tail))) (p + 8 + n) (suc b))
unfolding write_over return_from positive seek
write_over-inside bytes a old tail s p q e n b is here size =
    bind-ok (write_buffer n s) (λ _. pure tt) (at bytes p (suc (suc (suc b))))
      (at (a ++ (be 8 n ++ (pad n s ++ tail))) (p + 8 + n) (suc b)) tt
      (write_buffer-here bytes a old tail s p n (suc b) is here size)

-- Over the buffer at its place, and back.
pub write_over-further :
    (bytes a old tail s : List ℕ) (loc af q e n b : ℕ)
    → bytes ≡ a ++ (be 8 n ++ (old ++ tail))
    → loc ≡ length a
    → length old ≡ n
    → positive 8 loc ≡ true
    → (loc == 0) ≡ false
    → write_over loc af (loc, n) s e (at bytes q (suc (suc (suc (suc b)))))
      ≡ ok (some tt, at (a ++ (be 8 n ++ (pad n s ++ tail))) e b)
unfolding write_over seek
write_over-further bytes a old tail s loc af q e n b is here size pos nonzero =
    rw (write_over, nonzero, pos)
      (bind-ok (write_buffer n s) (λ _. seek e) (at bytes loc (suc (suc (suc b))))
        (at (a ++ (be 8 n ++ (pad n s ++ tail))) (loc + 8 + n) (suc b)) tt
        (write_buffer-here bytes a old tail s loc n (suc b) is here size))

ends :
    (bytes a y : List ℕ) (loc : ℕ)
    → bytes ≡ a ++ (be 8 loc ++ y)
    → length bytes ≡ 8 + (length a + length y)
ends bytes a y loc is =
    ap length is
    ∙ omega (arith, length-append a (be 8 loc ++ y), length-append (be 8 loc) y, length-be 8 loc)

-- At the end of the file, with the offset in the record.
pub write_at_end-here :
    (bytes a y s : List ℕ) (p q loc e b : ℕ)
    → bytes ≡ a ++ (be 8 loc ++ y)
    → p ≡ length a
    → 2 * length bytes < 256 ^ 8
    → write_at_end p loc s e (at bytes q (suc (suc (suc (suc (suc (suc b)))))))
      ≡ ok (
        some tt,
        at (a ++ (be 8 (length bytes) ++ (y ++ (be 8 (length s + 1) ++ pad (length s + 1) s)))) e b,
      )
unfolding write_at_end write_be write seek_end seek
write_at_end-here bytes a y s p q loc e b is here small =
    let m = length s + 1 in
    let eof = length bytes in
    let y' = y ++ (be 8 m ++ pad m s) in
    let longer : bytes ++ (be 8 m ++ pad m s) ≡ a ++ (be 8 loc ++ y') =
      ap (λ (c : List ℕ). c ++ (be 8 m ++ pad m s)) is
      ∙ append_assoc a (be 8 loc ++ y) _
      ∙ ap (◌++◌ a) (append_assoc (be 8 loc) y _) in
    let pos : positive 8 eof ≡ true =
      is_positive eof 8 (length a + length y) (ends bytes a y loc is) (omega arith) small in
    bind-ok (write_buffer m s)
      (λ _. if positive 8 eof then (seek p >> write_be 8 eof >> seek e) else return_from loc e)
      (at bytes eof (suc (suc (suc (suc (suc b))))))
      (at (bytes ++ (be 8 m ++ pad m s)) (eof + 8 + m) (suc (suc (suc b)))) tt
      (write_buffer-end bytes s eof m (suc (suc (suc b))) refl)
    ∙ rw pos (
        ap (λ (c : List ℕ). ok (some tt, at c e b))
          (overwrite-here _ a (be 8 loc) y' (be 8 eof) p longer here refl))
