-- ===== src/Bst/Strings.antt =====
-- The kind of strings: `strcmp` as the order of lists of bytes, and `strip('_', ...)`.
use isam_db_c_language.Base.{
  ℕ, ◌≡◌, refl, arith, Bool, true, false, List, [], ◌∷◌, if◌then◌else◌, ltb, ◌==◌, Bool-cases, inl,
  inr,
}
use isam_db_c_language.Text.{strip, replace}
use isam_db_c_language.Bst.{Order, Kind}

-- `strcmp(a, b) < 0`
unfoldable pub str_less : List ℕ → List ℕ → Bool
str_less [] [] = false
str_less [] (y ∷ b) = true
str_less (x ∷ a) [] = false
str_less (x ∷ a) (y ∷ b) =
    let rest = str_less a b in if ltb x y then true else if ltb y x then false else rest

pub str_less_irrefl : (a : List ℕ) → str_less a a ≡ false
unfolding str_less
str_less_irrefl [] = refl
str_less_irrefl (x ∷ a) = ground (arith, str_less_irrefl a)

pub str_less_trans :
    (a b c : List ℕ) → str_less a b ≡ true → str_less b c ≡ true → str_less a c ≡ true
unfolding str_less
str_less_trans [] [] c h k = absurd (cc h)
str_less_trans [] (y ∷ b) [] h k = absurd (cc k)
str_less_trans [] (y ∷ b) (z ∷ c) h k = refl
str_less_trans (x ∷ a) [] c h k = absurd (cc h)
str_less_trans (x ∷ a) (y ∷ b) [] h k = absurd (cc k)
str_less_trans (x ∷ a) (y ∷ b) (z ∷ c) h k = ground (arith, h, k, str_less_trans a b c)

pub str_less_total : (a b : List ℕ) → str_less a b ≡ false → str_less b a ≡ false → a ≡ b
unfolding str_less
str_less_total [] [] h k = refl
str_less_total [] (y ∷ b) h k = absurd (cc h)
str_less_total (x ∷ a) [] h k = absurd (cc k)
str_less_total (x ∷ a) (y ∷ b) h k =
    let head : x ≡ y = ground (arith, h, k) in
    let left : str_less a b ≡ false = ground (arith, h, head) in
    let right : str_less b a ≡ false = ground (arith, k, head) in
    λ i. head i ∷ str_less_total a b left right i

pub strip_twice : (c : ℕ) (s : List ℕ) → strip c (strip c s) ≡ strip c s
unfolding strip replace
strip_twice c [] = refl
strip_twice c (x ∷ s) =
    let once : (if (if x == c then b' ' else x) == c then b' ' else (if x == c then b' ' else x))
        ≡ (if x == c then b' ' else x) =
      elim (Bool-cases (x == c)) [ inl e ↦ rw e (ground arith) | inr e ↦ rw (e, e) refl ] in
    λ i. once i ∷ strip_twice c s i

abbrev pub strings : Order
strings = record {
  Value = List ℕ;
  less = str_less;
  less_irrefl = str_less_irrefl;
  less_trans = str_less_trans;
  less_total = str_less_total;
}

-- `t_s`
abbrev pub t_s : Kind
t_s = record {
  order = strings;
  stored = strip b'_';
  stored_twice = strip_twice b'_';
  passed = λ k x. x;
}
