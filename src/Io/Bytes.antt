-- ===== src/Io/Bytes.antt =====
-- Byte strings: numbers in network byte order, and writing into the middle of a file.
use native.Mathlib.Nat.{pow-suc, div-add-mod', div-div-eq-div-mul, zero-add, suc-add}
use isam_db_c_language.Base.{
  ℕ, zero, suc, ◌+◌, ◌*◌, ◌/◌, ◌%◌, ◌^◌, ◌≤◌, ◌<◌, ◌≡◌, refl, ap, sym, ◌∙◌, arith, List, [], ◌∷◌,
  ◌++◌, length, take, drop, replicate, append-nil,
}

-- `n` on `k` bytes, the highest first: `htonl` and `htons` on any host, `bswap_64` on a little-endian
-- one.
unfoldable pub be : ℕ → ℕ → List ℕ
be zero n = []
be (suc k) n = (n / 256 ^ k % 256) ∷ be k n

abbrev pub from_be_acc : ℕ → List ℕ → ℕ
from_be_acc acc [] = acc
from_be_acc acc (b ∷ bs) = from_be_acc (acc * 256 + b) bs

unfoldable pub from_be : List ℕ → ℕ
from_be bs = from_be_acc 0 bs

-- A buffer of `n` zeros with some bytes at its start.
unfoldable pub pad : ℕ → List ℕ → List ℕ
pad n d = take n (d ++ replicate n 0)

-- The contents after a write at a position; a gap before it is filled with zeros.
unfoldable pub overwrite : List ℕ → ℕ → List ℕ → List ℕ
overwrite bs p d = take p (bs ++ replicate p 0) ++ d ++ drop (p + length d) bs

pub length-be : (k n : ℕ) → length (be k n) ≡ k
unfolding be
length-be zero n = refl
length-be (suc k) n = ap suc (length-be k n)

digit : (n p : ℕ) → n % (p * 256) ≡ n / p % 256 * p + n % p
digit n p = omega (
  arith,
  div-add-mod' n p,
  div-add-mod' n (p * 256),
  ap (λ (t : ℕ). t * (p * 256)) (div-div-eq-div-mul n p 256),
  ap (λ (t : ℕ). t * p) (div-add-mod' (n / p) 256),
)

power : (k : ℕ) → 256 ^ suc k ≡ 256 ^ k * 256
power k = omega (arith, pow-suc 256 k)

last_digit :
    (k n acc : ℕ)
    → (acc * 256 + n / 256 ^ k % 256) * 256 ^ k + n % 256 ^ k ≡ acc * 256 ^ suc k + n % 256 ^ suc k
last_digit k n acc = rw power (omega (arith, digit n (256 ^ k)))

from_be_acc-be : (k n acc : ℕ) → from_be_acc acc (be k n) ≡ acc * 256 ^ k + n % 256 ^ k
unfolding be
from_be_acc-be zero n acc = omega arith
from_be_acc-be (suc k) n acc =
    from_be_acc-be k n (acc * 256 + n / 256 ^ k % 256) ∙ last_digit k n acc

-- Decoding undoes encoding, for a number that fits.
pub from_be-be : (k n : ℕ) → n < 256 ^ k → from_be (be k n) ≡ n
unfolding from_be
from_be-be k n h = from_be_acc-be k n 0 ∙ grind arith

take-all : (xs ys : List ℕ) (n : ℕ) → length xs ≡ n → take n (xs ++ ys) ≡ xs
take-all [] ys zero h = refl
take-all [] ys (suc n) h = absurd (omega arith)
take-all (x ∷ xs) ys zero h = absurd (omega arith)
take-all (x ∷ xs) ys (suc n) h = ap (◌∷◌ x) (take-all xs ys n (omega arith))

pub take-length_append : (xs ys : List ℕ) (n : ℕ) → length xs ≡ n → take n (xs ++ ys) ≡ xs
take-length_append xs ys n h = take-all xs ys n h

pub drop-length_append : (xs ys : List ℕ) (n : ℕ) → length xs ≡ n → drop n (xs ++ ys) ≡ ys
drop-length_append [] ys zero h = refl
drop-length_append [] ys (suc n) h = absurd (omega arith)
drop-length_append (x ∷ xs) ys zero h = absurd (omega arith)
drop-length_append (x ∷ xs) ys (suc n) h = drop-length_append xs ys n (omega arith)

pub drop_past : (xs : List ℕ) (n : ℕ) → length xs ≤ n → drop n xs ≡ []
drop_past [] zero h = refl
drop_past [] (suc n) h = refl
drop_past (x ∷ xs) zero h = absurd (omega arith)
drop_past (x ∷ xs) (suc n) h = drop_past xs n (omega arith)

pub pad_self : (n : ℕ) (d : List ℕ) → length d ≡ n → pad n d ≡ d
unfolding pad
pad_self n d h = take-all d (replicate n 0) n h

-- At the end of the file a write appends.
pub overwrite_end : (bs d : List ℕ) (p : ℕ) → p ≡ length bs → overwrite bs p d ≡ bs ++ d
unfolding overwrite
overwrite_end bs d p h = rw (
  take-all bs (replicate p 0) p (omega arith),
  drop_past bs (p + length d) (omega arith),
  append-nil,
)

drop-nil : (n : ℕ) → drop {A = ℕ} n [] ≡ []
drop-nil zero = refl
drop-nil (suc n) = refl

pub drop-add : (bs : List ℕ) (p n : ℕ) → drop (p + n) bs ≡ drop n (drop p bs)
drop-add bs zero n = rw zero-add
drop-add [] (suc p) n = drop-nil (suc p + n) ∙ sym (drop-nil n)
drop-add (b ∷ bs) (suc p) n = rw suc-add (drop-add bs p n)
