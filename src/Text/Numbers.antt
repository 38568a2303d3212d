-- ===== src/Text/Numbers.antt =====
-- Texts that are numbers, and the type that a value gets from its text: `is_integer`,
-- `is_floaintg_point`, `is_number_in_limits`, `check_array_input`, `assign_type` and
-- `number_of_digit` of src/str_op.c.
use isam_db_c_language.Base.{
  ℕ, zero, suc, ◌+◌, ◌-◌, Bool, true, false, ◌&&◌, List, [], ◌∷◌, if◌then◌else◌, ltb, leb, ◌==◌,
  length, take, drop, get_elem?, set, Option, none, some,
}
use isam_db_c_language.Base.Int.{ℤ, pos, negsuc}
use isam_db_c_language.Records.{
  ValueType, type_long, type_double, type_string, type_array_long, type_array_double,
  type_array_string, type_file,
}

abbrev pub is_digit : ℕ → Bool
is_digit c = leb b'0' c && leb c b'9'

-- The loop of `is_integer`, from character `i` on.
unfoldable pub integer_from : ℕ → List ℕ → Bool
integer_from i [] = true
integer_from i (c ∷ s) =
    let rest = integer_from (suc i) s in
    if is_digit c then rest else if (c == b'-') && (i == 0) then rest else false

unfoldable pub is_integer : List ℕ → Bool
unfolding integer_from
is_integer s = integer_from 0 s

-- The loop of `is_floaintg_point`, with `point`. A digit is never '.', so that the test inside its
-- first branch fails.
unfoldable pub floating_from : ℕ → ℕ → List ℕ → Bool
floating_from i point [] = point == 1
floating_from i point (c ∷ s) =
    let rest =
      floating_from (suc i) (if is_digit c then point else if c == b'.' then point + 1 else point)
        s in
    if is_digit c
    then rest
    else if c == b'.'
    then rest
    else if (c == b'-') && (i == 0)
    then rest
    else false

unfoldable pub is_floaintg_point : List ℕ → Bool
unfolding floating_from
is_floaintg_point s = floating_from 0 0 s

-- `n` of the type `int`; the sizes -1 and 7 of the last tests are as in the code.
unfoldable pub number_of_digit : ℤ → ℕ
number_of_digit (negsuc n) = 1
number_of_digit (pos n) =
    if ltb n 10
    then 1
    else if ltb n 100
    then 2
    else if ltb n 1000
    then 3
    else if ltb n 10000
    then 4
    else if ltb n 100000
    then 5
    else if ltb n 1000000
    then 6
    else if ltb n 1000000000
    then 7
    else 10

abbrev pub in_long : ℕ
in_long = 100

abbrev pub in_int : ℕ
in_int = 101

abbrev pub in_float : ℕ
in_float = 102

abbrev pub in_double : ℕ
in_double = 103

-- The sum of the characters, which are ASCII where it is taken.
unfoldable pub ascii_value : List ℕ → ℕ
ascii_value [] = 0
ascii_value (c ∷ s) = c + ascii_value s

abbrev pub negative : List ℕ → Bool
negative [] = false
negative (c ∷ s) = c == b'-'

-- Two limits of the sum, with the results below the first, up to the second, and above.
abbrev pub limits : ℕ → ℕ → ℕ → ℕ → ℕ → ℕ
limits low high a inside wide = if ltb low a then (if ltb high a then 0 else wide) else inside

unfoldable pub is_number_in_limits : List ℕ → ℕ
unfolding is_integer is_floaintg_point ascii_value
is_number_in_limits s =
    if is_integer s
    then (if negative s
        then limits 572 1573 (ascii_value s) in_int in_long
        else limits 526 1000 (ascii_value s) in_int in_long)
    else if is_floaintg_point s
    then (if negative s
        then limits 2422 16644 (ascii_value s) in_float in_double
        else limits 2377 16599 (ascii_value s) in_float in_double)
    else 0

-- The offset of a character.
unfoldable pub find_char : ℕ → List ℕ → Option ℕ
find_char c [] = none
find_char c (x ∷ s) =
    let rest = find_char c s in
    if x == c then some 0 else elim rest [ none ↦ none | some i ↦ some (suc i) ]

-- `while((p != &cbuff[0] && *p != '@')) p--; if(*p == '@') ++p;`
unfoldable pub element_start : List ℕ → ℕ → ℕ
element_start buf zero = elim (get_elem? buf 0) [ none ↦ 0 | some c ↦ if c == b'@' then 1 else 0 ]
element_start buf (suc n) =
    let rest = element_start buf n in
    elim (get_elem? buf (suc n)) [ none ↦ rest | some c ↦ if c == b'@' then suc (suc n) else rest ]

-- The counters of `check_array_input`: all elements, those that are floating-point numbers, and those
-- that are integers.
pub record Counted : Type 0 where
  pub elements : ℕ
  pub d : ℕ
  pub i : ℕ

unfoldable pub count_element : List ℕ → Counted → Counted
unfolding is_floaintg_point is_integer is_number_in_limits
count_element s k =
    if is_floaintg_point s
    then record k {
      elements = k.elements + 1;
      d = if is_number_in_limits s == 0 then k.d else k.d + 1;
    }
    else if is_integer s
    then record k {
      elements = k.elements + 1;
      i = if is_number_in_limits s == 0 then k.i else k.i + 1;
    }
    else record k { elements = k.elements + 1 }

-- What stands after the last ',', where the loop has found no other.
unfoldable pub count_last : List ℕ → ℕ → Counted → Counted
unfolding count_element
count_last buf last k = if ltb last (length buf) then count_element (drop (last + 1) buf) k else k

-- The loop over the ',', each of which becomes '@'; one that ends the text breaks it. A round takes a
-- ',' away, so that the length of the text is fuel enough.
unfoldable pub count_elements : ℕ → List ℕ → ℕ → Counted → Counted
unfolding find_char element_start count_element count_last
count_elements zero buf last k = count_last buf last k
count_elements (suc n) buf last k = elim (find_char b',' buf) [
  | none ↦ count_last buf last k
  | some start ↦
      let begin = element_start buf start in
      let element = take (start - begin) (drop begin buf) in
      let rest = count_elements n (set buf start b'@') start (count_element element k) in
      if start + 1 == length buf then k else rest
]

unfoldable pub check_array_input : List ℕ → Option ValueType
unfolding count_elements
check_array_input value =
    let k = count_elements (length value) value 0 (record { elements = 0; d = 0; i = 0 }) in
    if k.i == k.elements
    then some type_array_long
    else if k.d == k.elements
    then some type_array_double
    else none

unfoldable pub last_char : List ℕ → ℕ
last_char [] = 0
last_char (c ∷ []) = c
last_char (c ∷ d ∷ s) = last_char (d ∷ s)

-- `value[0] == '[' && value[strlen(value) - 1] == ']'`
unfoldable pub in_brackets : List ℕ → Bool
unfolding last_char
in_brackets [] = false
in_brackets (c ∷ s) = (c == b'[') && (last_char (c ∷ s) == b']')

-- A value that is not NULL; `none` is -1.
unfoldable pub assign_type : List ℕ → Option ValueType
unfolding in_brackets find_char check_array_input is_floaintg_point is_integer is_number_in_limits
assign_type value = if in_brackets value then some type_file else elim (find_char b',' value) [
  | some i ↦ elim (check_array_input value) [ none ↦ some type_array_string | some t ↦ some t ]
  | none ↦
      if is_floaintg_point value
      then (if is_number_in_limits value == 0 then none else some type_double)
      else if is_integer value
      then (if is_number_in_limits value == 0 then none else some type_long)
      else some type_string
]
