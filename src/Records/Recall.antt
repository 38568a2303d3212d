-- ===== src/Records/Recall.antt =====
-- `read_file` on the bytes of one field: what it makes of them.
use mathlib.Core.Path.{subst}
use isam_db_c_language.Base.{ℕ, ◌%◌, ◌≡◌, refl, ap, arith, List, [], ◌∷◌, All, Option, none, some}
use isam_db_c_language.Io.{Io, ◌>>=◌, pure, read_be}
use isam_db_c_language.Io.Bytes.{be}
use isam_db_c_language.Io.Wire.{Reads, Reads-map, Reads-pure, Reads-read_be}
use isam_db_c_language.Records.{
  Value, value_int, value_long, value_float, value_byte, value_double, value_string, value_ints,
  value_longs, value_floats, value_bytes, value_doubles, value_strings, value_file, no_value,
  read_field, read_ints, read_longs, read_floats, read_strings, read_bytes, read_doubles, ntohb,
}
use isam_db_c_language.Records.Arrays.{read_array}
use isam_db_c_language.Records.ArrayLayout.{
  Points, IsArray, array_bytes, array_read_calls, reread, Reads-array,
}
use isam_db_c_language.Records.Strings.{read_string_element, skip_strings}
use isam_db_c_language.Records.StringLayout.{
  IsString, string_bytes, buffered, copied, Reads-string, Reads-string_element,
}
use isam_db_c_language.Records.Layout.{IsNumber, IsValue, value_layout}

-- The union of the same type, set to 0.
unfoldable pub zeroed : Value → Value
zeroed (value_int n) = value_int 0
zeroed (value_long n) = value_long 0
zeroed (value_float n) = value_float 0
zeroed (value_byte n) = value_byte 0
zeroed (value_double n) = value_double 0
zeroed (value_string s) = value_string []
zeroed (value_ints v) = value_ints []
zeroed (value_longs v) = value_longs []
zeroed (value_floats v) = value_floats []
zeroed (value_bytes v) = value_bytes []
zeroed (value_doubles v) = value_doubles []
zeroed (value_strings v) = value_strings []
zeroed value_file = value_file
zeroed no_value = no_value

-- The value as it is read: the bytes of strings and the arrays stand in new allocations.
unfoldable pub restored : Value → Value
unfolding buffered copied reread
restored (value_string s) = value_string (buffered s)
restored (value_strings v) = value_strings (reread copied v)
restored v = v

unfoldable pub value_read_calls : Value → ℕ
value_read_calls (value_int n) = 1
value_read_calls (value_long n) = 1
value_read_calls (value_float n) = 1
value_read_calls (value_byte n) = 1
value_read_calls (value_double n) = 1
value_read_calls (value_string s) = 3
value_read_calls (value_ints v) = array_read_calls 1 v
value_read_calls (value_longs v) = array_read_calls 1 v
value_read_calls (value_floats v) = array_read_calls 1 v
value_read_calls (value_bytes v) = array_read_calls 1 v
value_read_calls (value_doubles v) = array_read_calls 1 v
value_read_calls (value_strings v) = array_read_calls 3 v
value_read_calls value_file = 0
value_read_calls no_value = 0

Reads-ntohb : (n : ℕ) → IsNumber 1 n → Reads ntohb (be 2 n) 1 n
unfolding ntohb
Reads-ntohb n h =
    subst (Reads (read_be 2 >>= λ x. pure (x % 256)) (be 2 n) 1) (omega (arith, h))
      (Reads-map (read_be 2) (λ x. x % 256) (be 2 n) 1 n (Reads-read_be 2 n (omega (arith, h))))

-- The same numbers.
pub reread_same : (P : ℕ → Type 0) (v : List (Option ℕ)) → All (Points P) v → reread (λ x. x) v ≡ v
unfolding reread
reread_same P [] h = refl
reread_same P (none ∷ v) h = absurd h.0
reread_same P (some x ∷ v) h = ap (◌∷◌ (some x)) (reread_same P v h.1)

Reads-numbers :
    (r : Io ℕ) (skip_padding : ℕ → Io (Unit {0})) (enc : ℕ → List ℕ) (P : ℕ → Type 0)
    → ((n : ℕ) → P n → Reads r (enc n) 1 n)
    → (v : List (Option ℕ)) → IsArray P v
    → Reads (read_array r skip_padding []) (array_bytes enc v) (array_read_calls 1 v) v
Reads-numbers r skip_padding enc P reads v is =
    subst (Reads (read_array r skip_padding []) (array_bytes enc v) (array_read_calls 1 v))
      (reread_same P v is.each) (Reads-array r skip_padding enc (λ x. x) P 1 reads v is)

-- The reader of a field's type, into a union that was set to 0, reads just the bytes of the value.
pub Reads-field :
    (v : Value)
    → IsValue v
    → Reads (read_field (zeroed v)) (value_layout v) (value_read_calls v) (restored v)
unfolding read_field zeroed value_layout value_read_calls restored read_ints read_longs read_floats
    read_strings read_bytes read_doubles
Reads-field (value_int n) is = Reads-map (read_be 4) value_int _ 1 n (Reads-read_be 4 n is)
Reads-field (value_long n) is = Reads-map (read_be 8) value_long _ 1 n (Reads-read_be 8 n is)
Reads-field (value_float n) is = Reads-map (read_be 4) value_float _ 1 n (Reads-read_be 4 n is)
Reads-field (value_byte n) is = Reads-map ntohb value_byte _ 1 n (Reads-ntohb n is)
Reads-field (value_double n) is = Reads-map (read_be 8) value_double _ 1 n (Reads-read_be 8 n is)
Reads-field (value_string s) is = Reads-map _ value_string _ 3 _ (Reads-string s is)
Reads-field (value_ints v) is =
    Reads-map _ value_ints _ _ v (Reads-numbers _ _ (be 4) (IsNumber 4) (Reads-read_be 4) v is)
Reads-field (value_longs v) is =
    Reads-map _ value_longs _ _ v (Reads-numbers _ _ (be 8) (IsNumber 8) (Reads-read_be 8) v is)
Reads-field (value_floats v) is =
    Reads-map _ value_floats _ _ v (Reads-numbers _ _ (be 4) (IsNumber 4) (Reads-read_be 4) v is)
Reads-field (value_bytes v) is =
    Reads-map _ value_bytes _ _ v (Reads-numbers _ _ (be 2) (IsNumber 1) Reads-ntohb v is)
Reads-field (value_doubles v) is =
    Reads-map _ value_doubles _ _ v (Reads-numbers _ _ (be 8) (IsNumber 8) (Reads-read_be 8) v is)
Reads-field (value_strings v) is = Reads-map _ value_strings _ _ _ (
    Reads-array read_string_element skip_strings string_bytes copied IsString 3 Reads-string_element
      v is)
Reads-field value_file is = absurd is
Reads-field no_value is = Reads-pure no_value
