-- ===== src/Text.antt =====
-- What src/str_op.c finds out about texts: types, names, numbers and paths. A text is the bytes before
-- its NUL; `strstr` is a suffix or none. The tests on characters are those of the C locale.
pub mod Integrity
pub mod Numbers
pub mod Paths
pub mod Types
use Prim.Native.Char.{code}
use Prim.Native.String.{String}
use isam_db_c_language.Base.{
  ℕ, zero, suc, ◌+◌, ◌-◌, Bool, true, false, not, ◌&&◌, ◌||◌, List, [], ◌∷◌, ◌++◌, ok, undefined,
  Outcome, ◌>>=◌, if◌then◌else◌, ltb, leb, ◌==◌, length, drop, replicate, map, Option, none, some,
}
use isam_db_c_language.HashTbl.{str_eq, strncmp_eq}
use isam_db_c_language.Io.Bytes.{pad}
use isam_db_c_language.Header.{c_str}
use isam_db_c_language.Records.{
  ValueType, type_int, type_long, type_float, type_string, type_byte, type_double, type_array_int,
  type_array_long, type_array_float, type_array_string, type_array_byte, type_array_double,
  type_file,
}

abbrev pub codes : String → List ℕ
codes String.[] = []
codes (String.◌∷◌ c s) = code c ∷ codes s

unfoldable pub is_number_type : ValueType → Bool
is_number_type type_long = true
is_number_type type_float = true
is_number_type type_double = true
is_number_type type_int = true
is_number_type type_byte = true
is_number_type _ = false

unfoldable pub is_number_array : ValueType → Bool
is_number_array type_array_double = true
is_number_array type_array_long = true
is_number_array type_array_byte = true
is_number_array type_array_float = true
is_number_array type_array_int = true
is_number_array _ = false

-- The comparisons of `get_type`, in their order.
unfoldable pub type_names : List (List ℕ × ValueType)
type_names =
    (codes "TYPE_INT", type_int)
    ∷ (codes "TYPE_LONG", type_long)
    ∷ (codes "TYPE_FLOAT", type_float)
    ∷ (codes "TYPE_STRING", type_string)
    ∷ (codes "TYPE_BYTE", type_byte)
    ∷ (codes "TYPE_DOUBLE", type_double)
    ∷ (codes "t_i", type_int)
    ∷ (codes "t_l", type_long)
    ∷ (codes "t_f", type_float)
    ∷ (codes "t_s", type_string)
    ∷ (codes "t_b", type_byte)
    ∷ (codes "t_d", type_double)
    ∷ (codes "TYPE_ARRAY_INT", type_array_int)
    ∷ (codes "TYPE_ARRAY_LONG", type_array_long)
    ∷ (codes "TYPE_ARRAY_FLOAT", type_array_float)
    ∷ (codes "TYPE_ARRAY_STRING", type_array_string)
    ∷ (codes "TYPE_ARRAY_BYTE", type_array_byte)
    ∷ (codes "TYPE_ARRAY_DOUBLE", type_array_double)
    ∷ (codes "TYPE_FILE", type_file)
    ∷ (codes "t_ai", type_array_int)
    ∷ (codes "t_al", type_array_long)
    ∷ (codes "t_af", type_array_float)
    ∷ (codes "t_as", type_array_string)
    ∷ (codes "t_ab", type_array_byte)
    ∷ (codes "t_ad", type_array_double)
    ∷ (codes "t_fl", type_file)
    ∷ []

unfoldable pub find_type : List (List ℕ × ValueType) → List ℕ → Option ValueType
unfolding str_eq
find_type [] s = none
find_type ((name, t) ∷ names) s =
    let rest = find_type names s in if str_eq s name then some t else rest

-- `none` is -1.
unfoldable pub get_type : List ℕ → Option ValueType
unfolding find_type type_names
get_type s = find_type type_names s

unfoldable pub starts_with : List ℕ → List ℕ → Bool
starts_with [] s = true
starts_with (c ∷ t) [] = false
starts_with (c ∷ t) (d ∷ s) = (c == d) && starts_with t s

-- `strstr`, for a target that is not empty.
unfoldable pub strstr : List ℕ → List ℕ → Option (List ℕ)
unfolding starts_with
strstr [] target = none
strstr (c ∷ s) target =
    let rest = strstr s target in if starts_with target (c ∷ s) then some (c ∷ s) else rest

abbrev found : Option (List ℕ) → Bool
found none = false
found (some s) = true

-- The targets of `is_target_db_type`; true is 0.
unfoldable pub is_target_db_type : List ℕ → Bool
unfolding strstr
is_target_db_type s =
    found (strstr s (codes ":t_s"))
    || found (strstr s (codes ":t_l"))
    || found (strstr s (codes ":t_b"))
    || found (strstr s (codes ":t_d"))
    || found (strstr s (codes ":t_i"))
    || found (strstr s (codes ":t_f"))
    || found (strstr s (codes ":t_ai"))
    || found (strstr s (codes ":t_al"))
    || found (strstr s (codes ":t_as"))
    || found (strstr s (codes ":t_ad"))
    || found (strstr s (codes ":t_af"))
    || found (strstr s (codes ":t_ab"))
    || found (strstr s (codes ":t_fl"))

-- A loop over the occurrences that pass a test, with fuel.
unfoldable pub count_found : (List ℕ → Bool) → List ℕ → ℕ → List ℕ → ℕ
unfolding strstr
count_found test target zero s = 0
count_found test target (suc n) s = elim (strstr s target) [
  | none ↦ 0
  | some p ↦ (if test p then 1 else 0) + count_found test target n (drop (length target) p)
]

-- The last loop of `count_fields`: how often ':' stands in the text, and the offset of the last one.
unfoldable pub colons : ℕ → ℕ → ℕ → List ℕ → ℕ × ℕ
colons i c last [] = (c, last)
colons i c last (x ∷ s) =
    colons (suc i) (if x == b':' then c + 1 else c) (if x == b':' then i else last) s

unfoldable pub count_by_colons : List ℕ → ℕ
unfolding colons
count_by_colons s = let r = colons 0 0 0 s in if ltb (r.1 + 1) (length s) then r.0 + 1 else r.0

-- `user_target` is `none` for NULL. A text has no more occurrences than characters.
unfoldable pub count_fields : List ℕ → Option (List ℕ) → ℕ
unfolding count_found count_by_colons
count_fields s (some target) = count_found (λ p. true) target (length s) s
count_fields s none =
    let short = count_found is_target_db_type (codes ":t_") (length s) s in
    let long = count_found (λ p. true) (codes ":TYPE_") (length s) s in
    if short + long == 0 then count_by_colons s else short + long

-- `check_fields_integrity`: name `i` against name `j`. Nothing is compared with the last name.
unfoldable pub same_name : List ℕ → List ℕ → Bool
unfolding strncmp_eq
same_name a b = (length a == length b) && strncmp_eq (length b) a b

-- The inner loop, with the rounds that are left.
unfoldable pub clashes : ℕ → ℕ → List ℕ → ℕ → List (List ℕ) → Bool
unfolding same_name
clashes zero i a j names = false
clashes (suc left) i a j [] = false
clashes (suc left) i a j (b ∷ names) =
    let rest = clashes left i a (suc j) names in
    if ltb 1 (suc left) && not (j == i) && same_name a b then true else rest

-- The outer loop; it breaks at the last name.
unfoldable pub no_clash : ℕ → ℕ → List (List ℕ) → List (List ℕ) → Bool
unfolding clashes
no_clash count i [] names = true
no_clash count i (a ∷ []) names = true
no_clash count i (a ∷ b ∷ later) names =
    let rest = no_clash count (suc i) (b ∷ later) names in
    if clashes count i a 0 names then false else rest

-- On the `fields_count` names.
unfoldable pub check_fields_integrity : List (List ℕ) → Bool
unfolding no_clash
check_fields_integrity names = no_clash (length names) 0 names names

-- `strip` and `replace`.
unfoldable pub replace : ℕ → ℕ → List ℕ → List ℕ
replace c with s = map (λ x. if x == c then with else x) s

unfoldable pub strip : ℕ → List ℕ → List ℕ
unfolding replace
strip c s = replace c b' ' s

abbrev pub max_file_path_length : ℕ
max_file_path_length = 1024

-- `strncpy(row, s, n)` and `strncat(row, t, strlen(t))` on a row of that many bytes.
unfoldable pub copy_path : List ℕ → ℕ → List ℕ → Outcome (List ℕ)
unfolding pad
copy_path row n s = if leb n (length row) then ok (pad n s ++ drop n row) else undefined

unfoldable pub append_path : List ℕ → List ℕ → Outcome (List ℕ)
unfolding c_str
append_path row t = c_str row >>= λ s.
    if ltb (length s + length t) (length row)
    then ok (s ++ (t ++ 0 ∷ drop (length s + length t + 1) row))
    else undefined

unfoldable pub one_path : List ℕ → List ℕ → List ℕ → Outcome (List ℕ)
unfolding copy_path append_path
one_path path extension row = copy_path row (length path + 5) path >>= λ r. append_path r extension

-- `none` is EFLENGTH. The rows are those of `files`: index, data, schema.
unfoldable pub three_file_path :
    List ℕ → List ℕ × List ℕ × List ℕ → Outcome (Option (List ℕ × List ℕ × List ℕ))
unfolding one_path
three_file_path path (f₀, f₁, f₂) =
    if ltb max_file_path_length (length path + 5)
    then ok none
    else one_path path (codes ".inx") f₀ >>= λ r₀. one_path path (codes ".dat") f₁ >>= λ r₁.
        one_path path (codes ".sch") f₂ >>= λ r₂. ok (some (r₀, r₁, r₂))
