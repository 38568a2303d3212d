-- ===== src/HashTbl/Keys.antt =====
-- Equality of keys, the two kinds of keys, and the keys for which the code is defined.
use native.Mathlib.Numerals.{add-one}
use isam_db_c_language.Base.{
  ℕ, suc, ◌<◌, ◌^◌, Bool, true, false, List, [], ◌∷◌, ◌≡◌, refl, ap, ◌↔◌, arith, ok, ◌==◌, ◌&&◌,
  length, All,
}
use isam_db_c_language.HashTbl.{Key, str, uint, str_eq, strncmp_eq, already, same_key, same_type}

pub data Kind : Type 0 where
  string number : Kind

-- A character in the ASCII range, not NUL.
abbrev pub IsAscii : ℕ → Type 0
IsAscii c = (0 < c) × (c < 128)

-- What the index accepts under one kind: NUL-terminated ASCII text, or a `uint32_t`.
abbrev pub IsKey : Kind → Key → Type 0
IsKey string (str s) = All IsAscii s
IsKey string (uint n) = ⊥
IsKey number (str s) = ⊥
IsKey number (uint n) = n < 2 ^ 32

unfoldable pub key_eq : Key → Key → Bool
unfolding str_eq
key_eq (str r) (str s) = str_eq r s
key_eq (uint m) (uint n) = m == n
key_eq (str r) (uint n) = false
key_eq (uint m) (str s) = false

pub str_eq_iff : (r s : List ℕ) → (str_eq r s ≡ true) ↔ (r ≡ s)
unfolding str_eq
str_eq_iff [] [] = ground arith
str_eq_iff [] (y ∷ s) = ground arith
str_eq_iff (x ∷ r) [] = ground arith
str_eq_iff (x ∷ r) (y ∷ s) = ground (arith, str_eq_iff r s)

str_eq_refl : (s : List ℕ) → str_eq s s ≡ true
str_eq_refl s = (str_eq_iff s s).1 refl

pub key_eq_iff : (a b : Key) → (key_eq a b ≡ true) ↔ (a ≡ b)
unfolding key_eq
key_eq_iff (str r) (str s) = ground (arith, str_eq_iff r s)
key_eq_iff (uint m) (uint n) = ground arith
key_eq_iff (str r) (uint n) = ground arith
key_eq_iff (uint m) (str s) = ground arith

-- The length test and `strncmp` of `set` compare whole strings.
strncmp-str_eq :
    (r s : List ℕ) → ((length r == length s) && strncmp_eq (suc (length r)) r s) ≡ str_eq r s
unfolding strncmp_eq str_eq
strncmp-str_eq [] [] = refl
strncmp-str_eq [] (y ∷ s) = ground arith
strncmp-str_eq (x ∷ r) [] = ground arith
strncmp-str_eq (x ∷ r) (y ∷ s) = ground (arith, strncmp-str_eq r s)

-- Between keys of one kind the three tests of the code agree with equality.
pub already-key_eq : (κ : Kind) (a b : Key) → IsKey κ a → IsKey κ b → already a b ≡ ok (key_eq a b)
unfolding already key_eq
already-key_eq string (str r) (str s) h k = ap ok (rw add-one (strncmp-str_eq r s))
already-key_eq number (uint m) (uint n) h k = refl
already-key_eq string (str r) (uint n) h k = absurd k
already-key_eq string (uint m) b h k = absurd h
already-key_eq number (str r) b h k = absurd h
already-key_eq number (uint m) (str s) h k = absurd k

pub same_key-key_eq :
    (κ : Kind) (a b : Key) → IsKey κ a → IsKey κ b → same_key a b ≡ ok (key_eq a b)
unfolding same_key key_eq
same_key-key_eq string (str r) (str s) h k = refl
same_key-key_eq number (uint m) (uint n) h k = refl
same_key-key_eq string (str r) (uint n) h k = absurd k
same_key-key_eq string (uint m) b h k = absurd h
same_key-key_eq number (str r) b h k = absurd h
same_key-key_eq number (uint m) (str s) h k = absurd k

pub same_type_of_kind : (κ : Kind) (a b : Key) → IsKey κ a → IsKey κ b → same_type a b ≡ true
unfolding same_type
same_type_of_kind string (str r) (str s) h k = refl
same_type_of_kind number (uint m) (uint n) h k = refl
same_type_of_kind string (str r) (uint n) h k = absurd k
same_type_of_kind string (uint m) b h k = absurd h
same_type_of_kind number (str r) b h k = absurd h
same_type_of_kind number (uint m) (str s) h k = absurd k
