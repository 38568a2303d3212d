-- ===== src/HashTbl/Hash.antt =====
-- The hash function on usable keys: a bucket number, computed with no overflow of `int`.
use isam_db_c_language.Base.{
  Returns, ℕ, ◌+◌, ◌-◌, ◌*◌, ◌%◌, ◌^◌, ◌≤◌, ◌<◌, List, [], ◌∷◌, ◌≡◌, refl, ap, ◌∙◌, arith, ok, All,
}
use isam_db_c_language.Base.Int.{ℤ, pos, ◌+ℤ◌, scale, rem}
use isam_db_c_language.HashTbl.{
  Key, str, uint, hash, hash_str, hash_uint, signed_char, coprime, max_ht_bucket,
}
use isam_db_c_language.HashTbl.Keys.{Kind, string, number, IsKey, IsAscii}

-- The string loop over natural numbers.
unfoldable pub home_str : ℕ → List ℕ → ℕ → ℕ → ℕ
home_str size [] num h = h
home_str size (c ∷ s) num h = home_str size s (coprime * num % (size - 1)) ((num * h + c) % size)

unfoldable pub home : Key → ℕ → ℕ
unfolding home_str hash_uint
home (str s) size = home_str size s 78 0
home (uint n) size = hash_uint n size

home_str-lt :
    (size : ℕ) (s : List ℕ) (num h : ℕ) → 0 < size → h < size → home_str size s num h < size
unfolding home_str
home_str-lt size [] num h p q = q
home_str-lt size (c ∷ s) num h p q = home_str-lt size s _ ((num * h + c) % size) p (grind arith)

pub home-lt : (k : Key) (size : ℕ) → 0 < size → home k size < size
unfolding home hash_uint
home-lt (str s) size p = home_str-lt size s 78 0 p p
home-lt (uint n) size p = grind arith

hash_step :
    (size num h c : ℕ)
    → c < 128
    → rem (scale num (pos h) +ℤ signed_char c) size ≡ pos ((num * h + c) % size)
unfolding rem scale ◌+ℤ◌ signed_char
hash_step size num h c p = ground arith

hash_str-cons :
    (size c : ℕ) (s : List ℕ) (num : ℕ) (h : ℤ)
    → hash_str size (c ∷ s) num h
      ≡ hash_str size s (coprime * num % (size - 1)) (rem (scale num h +ℤ signed_char c) size)
unfolding hash_str
hash_str-cons size c s num h = refl

hash_str-home_str :
    (size : ℕ) (s : List ℕ) (num h : ℕ)
    → All IsAscii s
    → hash_str size s num (pos h) ≡ pos (home_str size s num h)
unfolding home_str
hash_str-home_str size [] num h p = unfold hash_str in refl
hash_str-home_str size (c ∷ s) num h p =
    hash_str-cons size c s num (pos h)
    ∙ ap (hash_str size s _) (hash_step size num h c p.0.1)
    ∙ hash_str-home_str size s _ _ p.1

pub hash-home :
    (κ : Kind) (k : Key) (size : ℕ) → IsKey κ k → 1 < size → hash k size ≡ ok (pos (home k size))
unfolding hash
hash-home string (str []) size h p = unfold home in refl
hash-home string (str (c ∷ s)) size h p =
    unfold home in ground (arith, hash_str-home_str size (c ∷ s) 78 0 h)
hash-home number (uint n) size h p = unfold home in ground arith
hash-home string (uint n) size h p = absurd h
hash-home number (str s) size h p = absurd h

-- The values that the string loop computes in `int`, before each `%`.
abbrev pub FitsInt : ℕ → List ℕ → ℕ → ℕ → Type 0
FitsInt size [] num h = Unit
FitsInt size (c ∷ s) num h =
    (num * h + c < 2 ^ 31)
    × (coprime * num < 2 ^ 31)
    × FitsInt size s (coprime * num % (size - 1)) ((num * h + c) % size)

mul_small : (a b : ℕ) → a < 503 → b < 503 → a * b ≤ 503 * 503
mul_small a b p q = grind arith

FitsInt-loop :
    (size : ℕ) (s : List ℕ) (num h : ℕ)
    → 1 < size
    → size ≤ 503
    → num < 503
    → h < size
    → All IsAscii s
    → FitsInt size s num h
FitsInt-loop size [] num h p q r t a = tt
FitsInt-loop size (c ∷ s) num h p q r t a = (
  omega (arith, mul_small num h r (omega arith)),
  omega arith,
  FitsInt-loop size s (coprime * num % (size - 1)) ((num * h + c) % size) p q (grind arith)
      (grind arith) a.1,
)

-- What the string loop asks of `int` for a key.
abbrev pub LoopFits : Key → ℕ → Type 0
LoopFits (str s) size = FitsInt size s 78 0
LoopFits (uint n) size = Unit

loop_fits :
    (κ : Kind) (k : Key) (size : ℕ) → IsKey κ k → 1 < size → size ≤ max_ht_bucket → LoopFits k size
loop_fits string (str s) size h p q = FitsInt-loop size s 78 0 p q (omega arith) (omega arith) h
loop_fits number (uint n) size h p q = tt
loop_fits string (uint n) size h p q = absurd h
loop_fits number (str s) size h p q = absurd h

-- For a usable key and 2 to 503 buckets, `hash` is defined, its result is a bucket number, and no
-- number of the string loop overflows `int`.
pub hash-bounds :
    (κ : Kind) (k : Key) (size : ℕ)
    → IsKey κ k
    → 1 < size
    → size ≤ max_ht_bucket
    → Returns (hash k size) (λ h. (h ≡ pos (home k size)) × (home k size < size) × LoopFits k size)
hash-bounds κ k size h p q = (
  pos (home k size),
  hash-home κ k size h p,
  (refl, home-lt k size (omega arith), loop_fits κ k size h p q),
)
