-- ===== src/Io/Patch.antt =====
-- Writing into the middle of a file: only the bytes at the position change.
use native.Mathlib.Nat.{suc-add, zero-add}
use isam_db_c_language.Base.{
  ℕ, zero, suc, ◌+◌, ◌≤◌, ◌≡◌, refl, ap, sym, ◌∙◌, arith, List, [], ◌∷◌, ◌++◌, length, take, drop,
  replicate, append_assoc, length-append, length-take, length-drop,
}
use isam_db_c_language.Io.Bytes.{overwrite, drop-add, drop-length_append}

take-append_le : (n : ℕ) (xs ys : List ℕ) → n ≤ length xs → take n (xs ++ ys) ≡ take n xs
take-append_le zero xs ys h = refl
take-append_le (suc n) [] ys h = absurd (omega arith)
take-append_le (suc n) (x ∷ xs) ys h = ap (◌∷◌ x) (take-append_le n xs ys (omega arith))

drop-append_le : (n : ℕ) (xs ys : List ℕ) → n ≤ length xs → drop n (xs ++ ys) ≡ drop n xs ++ ys
drop-append_le zero xs ys h = refl
drop-append_le (suc n) [] ys h = absurd (omega arith)
drop-append_le (suc n) (x ∷ xs) ys h = drop-append_le n xs ys (omega arith)

take-append_more : (a bs : List ℕ) (p : ℕ) → take (length a + p) (a ++ bs) ≡ a ++ take p bs
take-append_more [] bs p = rw zero-add
take-append_more (x ∷ a) bs p = rw suc-add (ap (◌∷◌ x) (take-append_more a bs p))

add_assoc : (a b c : ℕ) → a + b + c ≡ a + (b + c)
add_assoc a b c = omega arith

-- `d` in place of the bytes from `p` on.
abbrev pub patch : List ℕ → ℕ → List ℕ → List ℕ
patch bs p d = take p bs ++ d ++ drop (p + length d) bs

overwrite-patch : (bs d : List ℕ) (p : ℕ) → p ≤ length bs → overwrite bs p d ≡ patch bs p d
unfolding overwrite
overwrite-patch bs d p h = rw (take-append_le p bs (replicate p 0) h)

patch-append :
    (s tail d : List ℕ) (p : ℕ)
    → p + length d ≤ length s
    → patch (s ++ tail) p d ≡ patch s p d ++ tail
patch-append s tail d p h =
    rw (take-append_le p s tail (omega arith), drop-append_le (p + length d) s tail h)
      (sym (append_assoc (take p s ++ d) (drop (p + length d) s) tail))

patch_more : (a bs d : List ℕ) (p : ℕ) → patch (a ++ bs) (length a + p) d ≡ a ++ patch bs p d
patch_more a bs d p =
    let further : drop (length a + p + length d) (a ++ bs) ≡ drop (p + length d) bs =
      ap (λ (n : ℕ). drop n (a ++ bs)) (add_assoc (length a) p (length d))
      ∙ drop-add (a ++ bs) (length a) (p + length d)
      ∙ ap (drop (p + length d)) (drop-length_append a bs (length a) refl) in
    rw (take-append_more a bs p, further)
      (ap (λ (c : List ℕ). c ++ drop (p + length d) bs) (append_assoc a (take p bs) d)
        ∙ append_assoc a (take p bs ++ d) (drop (p + length d) bs))

pub length-patch :
    (s d : List ℕ) (p : ℕ) → p + length d ≤ length s → length (patch s p d) ≡ length s
length-patch s d p h = omega (
  arith,
  length-append (take p s ++ d) (drop (p + length d) s),
  length-append (take p s) d,
  length-take p s,
  length-drop (p + length d) s,
)

-- Between a start and an end that stay: the middle keeps its length.
pub overwrite_middle :
    (a s tail d : List ℕ) (p : ℕ)
    → p + length d ≤ length s
    → overwrite (a ++ (s ++ tail)) (length a + p) d ≡ a ++ (patch s p d ++ tail)
overwrite_middle a s tail d p h =
    overwrite-patch (a ++ (s ++ tail)) d (length a + p)
      (omega (arith, length-append a (s ++ tail), length-append s tail))
    ∙ patch_more a (s ++ tail) d p
    ∙ ap (◌++◌ a) (patch-append s tail d p h)
