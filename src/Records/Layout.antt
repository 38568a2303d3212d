-- ===== src/Records/Layout.antt =====
-- The bytes of a record in the data file, and `write_file` as their writer.
use isam_db_c_language.Base.{ℕ, ◌^◌, ◌<◌, List, [], Option}
use isam_db_c_language.Io.{write_be}
use isam_db_c_language.Io.Bytes.{be}
use isam_db_c_language.Io.Wire.{Appends, Appends-write_be, Appends-pure}
use isam_db_c_language.Records.{
  Value, value_int, value_long, value_float, value_byte, value_double, value_string, value_ints,
  value_longs, value_floats, value_bytes, value_doubles, value_strings, value_file, no_value,
  write_field, write_ints, write_longs, write_floats, write_strings, write_bytes, write_doubles,
}
use isam_db_c_language.Records.Arrays.{write_array}
use isam_db_c_language.Records.ArrayLayout.{IsArray, array_bytes, array_write_calls, Appends-array}
use isam_db_c_language.Records.Strings.{write_string}
use isam_db_c_language.Records.StringLayout.{IsString, string_bytes, Appends-string}

abbrev pub IsNumber : ℕ → ℕ → Type 0
IsNumber k n = n < 256 ^ k

-- A value that fits its C type. TYPE_FILE is left out.
abbrev pub IsValue : Value → Type 0
IsValue (value_int n) = IsNumber 4 n
IsValue (value_long n) = IsNumber 8 n
IsValue (value_float n) = IsNumber 4 n
IsValue (value_byte n) = IsNumber 1 n
IsValue (value_double n) = IsNumber 8 n
IsValue (value_string s) = IsString s
IsValue (value_ints v) = IsArray (IsNumber 4) v
IsValue (value_longs v) = IsArray (IsNumber 8) v
IsValue (value_floats v) = IsArray (IsNumber 4) v
IsValue (value_bytes v) = IsArray (IsNumber 1) v
IsValue (value_doubles v) = IsArray (IsNumber 8) v
IsValue (value_strings v) = IsArray IsString v
IsValue value_file = ⊥
IsValue no_value = Unit

unfoldable pub value_layout : Value → List ℕ
value_layout (value_int n) = be 4 n
value_layout (value_long n) = be 8 n
value_layout (value_float n) = be 4 n
value_layout (value_byte n) = be 2 n
value_layout (value_double n) = be 8 n
value_layout (value_string s) = string_bytes s
value_layout (value_ints v) = array_bytes (be 4) v
value_layout (value_longs v) = array_bytes (be 8) v
value_layout (value_floats v) = array_bytes (be 4) v
value_layout (value_bytes v) = array_bytes (be 2) v
value_layout (value_doubles v) = array_bytes (be 8) v
value_layout (value_strings v) = array_bytes string_bytes v
value_layout value_file = []
value_layout no_value = []

-- The calls that the writer takes.
unfoldable pub value_calls : Value → ℕ
value_calls (value_int n) = 1
value_calls (value_long n) = 1
value_calls (value_float n) = 1
value_calls (value_byte n) = 1
value_calls (value_double n) = 1
value_calls (value_string s) = 3
value_calls (value_ints v) = array_write_calls 1 v
value_calls (value_longs v) = array_write_calls 1 v
value_calls (value_floats v) = array_write_calls 1 v
value_calls (value_bytes v) = array_write_calls 1 v
value_calls (value_doubles v) = array_write_calls 1 v
value_calls (value_strings v) = array_write_calls 3 v
value_calls value_file = 0
value_calls no_value = 0

Appends-numbers :
    (k j : ℕ) (v : List (Option ℕ))
    → IsArray (IsNumber j) v
    → Appends (write_array (write_be k) v) (array_bytes (be k) v) (array_write_calls 1 v)
Appends-numbers k j v is =
    Appends-array (write_be k) (be k) (IsNumber j) 1 (λ n h. Appends-write_be k n) v is

pub Appends-field :
    (v : Value) → IsValue v → Appends (write_field v) (value_layout v) (value_calls v)
unfolding write_field value_layout value_calls write_ints write_longs write_floats write_strings
    write_bytes write_doubles
Appends-field (value_int n) is = Appends-write_be 4 n
Appends-field (value_long n) is = Appends-write_be 8 n
Appends-field (value_float n) is = Appends-write_be 4 n
Appends-field (value_byte n) is = Appends-write_be 2 n
Appends-field (value_double n) is = Appends-write_be 8 n
Appends-field (value_string s) is = Appends-string s is
Appends-field (value_ints v) is = Appends-numbers 4 4 v is
Appends-field (value_longs v) is = Appends-numbers 8 8 v is
Appends-field (value_floats v) is = Appends-numbers 4 4 v is
Appends-field (value_bytes v) is = Appends-numbers 2 1 v is
Appends-field (value_doubles v) is = Appends-numbers 8 8 v is
Appends-field (value_strings v) is =
    Appends-array write_string string_bytes IsString 3 Appends-string v is
Appends-field value_file is = absurd is
Appends-field no_value is = Appends-pure
