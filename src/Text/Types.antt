-- ===== src/Text/Types.antt =====
-- Which type `assign_type` gives to a text that is no list and stands in no brackets.
use isam_db_c_language.Base.{
  ℕ, suc, ◌+◌, ◌≤◌, ◌≡◌, ◌≢◌, not, refl, arith, Bool, true, false, ◌&&◌, List, [], ◌∷◌,
  if◌then◌else◌, leb, ◌==◌, All, Option, none, some, inl, inr, Bool-cases,
}
use isam_db_c_language.Records.{ValueType, type_long, type_double, type_string}
use isam_db_c_language.Text.Numbers.{
  is_digit, integer_from, is_integer, floating_from, is_floaintg_point, ascii_value, negative,
  is_number_in_limits, find_char, in_brackets, assign_type,
}

-- Digits only.
unfoldable pub all_digits : List ℕ → Bool
all_digits [] = true
all_digits (c ∷ s) = is_digit c && all_digits s

-- Digits with one point among them.
unfoldable pub decimal : List ℕ → Bool
unfolding all_digits
decimal [] = false
decimal (c ∷ s) = if is_digit c then decimal s else ((c == b'.') && all_digits s)

-- The text with no '-' in front.
unfoldable pub unsigned : List ℕ → List ℕ
unsigned [] = []
unsigned (c ∷ s) = if c == b'-' then s else c ∷ s

integer_from-all_digits : (i : ℕ) (s : List ℕ) → integer_from (suc i) s ≡ all_digits s
unfolding integer_from all_digits
integer_from-all_digits i [] = refl
integer_from-all_digits i (c ∷ s) = ground (arith, integer_from-all_digits (suc i) s)

is_integer-all_digits : (s : List ℕ) → is_integer s ≡ all_digits (unsigned s)
unfolding is_integer integer_from all_digits unsigned
is_integer-all_digits [] = refl
is_integer-all_digits (c ∷ s) = ground (arith, integer_from-all_digits 0 s)

floating_from-two : (i p : ℕ) (s : List ℕ) → 2 ≤ p → floating_from (suc i) p s ≡ false
unfolding floating_from
floating_from-two i p [] h = ground arith
floating_from-two i p (c ∷ s) h =
    ground
      (arith, floating_from-two (suc i) p s h, floating_from-two (suc i) (p + 1) s (omega arith))

floating_from-one : (i : ℕ) (s : List ℕ) → floating_from (suc i) 1 s ≡ all_digits s
unfolding floating_from all_digits
floating_from-one i [] = refl
floating_from-one i (c ∷ s) =
    ground (arith, floating_from-one (suc i) s, floating_from-two (suc i) 2 s (omega arith))

floating_from-decimal : (i : ℕ) (s : List ℕ) → floating_from (suc i) 0 s ≡ decimal s
unfolding floating_from decimal
floating_from-decimal i [] = refl
floating_from-decimal i (c ∷ s) =
    ground (arith, floating_from-decimal (suc i) s, floating_from-one (suc i) s)

is_floaintg_point-decimal : (s : List ℕ) → is_floaintg_point s ≡ decimal (unsigned s)
unfolding is_floaintg_point floating_from decimal unsigned
is_floaintg_point-decimal [] = refl
is_floaintg_point-decimal (c ∷ s) = ground (arith, floating_from-decimal 0 s, floating_from-one 0 s)

find_char-none : (c : ℕ) (s : List ℕ) → All (λ x. x ≢ c) s → find_char c s ≡ none
unfolding find_char
find_char-none c [] h = refl
find_char-none c (x ∷ s) h = rw (find_char-none c s h.1) (ground (arith, h.0))

-- The greatest sum of characters that is accepted.
unfoldable pub long_limit : List ℕ → ℕ
long_limit s = if negative s then 1573 else 1000

unfoldable pub double_limit : List ℕ → ℕ
double_limit s = if negative s then 16644 else 16599

-- A decimal has a point, so that it is no integer.
not_both : (s : List ℕ) → decimal s ≡ true → all_digits s ≡ false
unfolding decimal all_digits
not_both [] h = absurd (cc h)
not_both (c ∷ s) h = ground (arith, not_both s)

in_limits_integer :
    (s : List ℕ)
    → is_integer s ≡ true
    → (is_number_in_limits s == 0) ≡ not (leb (ascii_value s) (long_limit s))
unfolding is_number_in_limits long_limit
in_limits_integer s h =
    rw h
      (elim (Bool-cases (negative s)) [ inl e ↦ rw e (ground arith) | inr e ↦ rw e (ground arith) ])

in_limits_floating :
    (s : List ℕ)
    → is_integer s ≡ false
    → is_floaintg_point s ≡ true
    → (is_number_in_limits s == 0) ≡ not (leb (ascii_value s) (double_limit s))
unfolding is_number_in_limits double_limit
in_limits_floating s h k = rw h (
    rw k (elim (Bool-cases (negative s)) [
      | inl e ↦ rw e (ground arith)
      | inr e ↦ rw e (ground arith)
    ]))

-- The type by the form of the text.
unfoldable pub described : List ℕ → Option ValueType
unfolding decimal all_digits unsigned long_limit double_limit ascii_value
described s =
    if decimal (unsigned s)
    then (if leb (ascii_value s) (double_limit s) then some type_double else none)
    else if all_digits (unsigned s)
    then (if leb (ascii_value s) (long_limit s) then some type_long else none)
    else some type_string

-- For a text with no comma, and not in brackets: TYPE_DOUBLE if it is digits with one point after
-- a possible minus, TYPE_LONG if it is digits only, or nothing, after a possible minus, in both
-- cases -1 where the sum of its characters is above the limit of the type, and TYPE_STRING for
-- any other text.
pub assign_type-described :
    (s : List ℕ) → in_brackets s ≡ false → All (λ c. c ≢ b',') s → assign_type s ≡ described s
unfolding assign_type described
assign_type-described s h k = rw h (
    rw (find_char-none b',' s k) (
      ground (
        arith,
        is_floaintg_point-decimal s,
        is_integer-all_digits s,
        not_both (unsigned s),
        in_limits_integer s,
        in_limits_floating s,
      )))
