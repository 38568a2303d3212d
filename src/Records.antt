-- ===== src/Records.antt =====
-- Records in the data file: `struct Record_f` of include/record.h, and the functions of src/file.c
-- and src/record.c that write a new record and read one. A field's type and the member of its union
-- that the type selects are one value. Numbers and floating-point numbers are their bits. A string is
-- the bytes of its allocation, and `elements` of an array the list of its `size` pointers, `[]` where
-- it is NULL. `file_name` and `count` of the structure are left out. TYPE_FILE is not modelled: where
-- it appears the model is undefined.
pub mod ArrayLayout
pub mod Arrays
pub mod Blocks
pub mod Overwrites
pub mod Shrink
pub mod ShrinkRead
pub mod NewBlock
pub mod Extend
pub mod Rounds
pub mod ExtendRead
pub mod Chain
pub mod Flags
pub mod Layout
pub mod Recall
pub mod Places
pub mod RecordLayout
pub mod Replace
pub mod Rewrite
pub mod RoundTrip
pub mod Same
pub mod Store
pub mod StringLayout
pub mod Update
pub mod UpdateRead
pub mod Strings
use isam_db_c_language.Base.{
  ℕ, zero, suc, ◌+◌, ◌*◌, ◌%◌, ◌^◌, Bool, true, false, List, [], ◌∷◌, ◌++◌, ok, undefined, Outcome,
  if◌then◌else◌, ltb, ◌==◌, length, replicate, set, Option, none, some,
}
use isam_db_c_language.Base as Base
use isam_db_c_language.Io.{File, Io, ◌>>=◌, ◌>>◌, pure, lift, read, read_be, write_be}
use isam_db_c_language.Io.Bytes.{pad}
use isam_db_c_language.Header.{Schema, c_str}
use isam_db_c_language.Records.Arrays.{write_array, read_array, skip_wide}
use isam_db_c_language.Records.Strings.{
  write_string, read_string, read_string_element, skip_strings,
}

abbrev pub max_field_nr : ℕ
max_field_nr = 200

abbrev pub max_field_lt : ℕ
max_field_lt = 32

abbrev pub ntg_wr : ℕ
ntg_wr = 14

pub data ValueType : Type 0 where
  type_int type_long type_float type_string type_byte type_off_t type_double : ValueType
  type_array_int type_array_long type_array_float : ValueType
  type_array_string type_array_byte type_array_double type_file : ValueType

-- The switch on an `int`: the enumerators from 0 on, and any other number.
unfoldable pub value_type : ℕ → Option ValueType
value_type n =
    Base.get_elem?
      (type_int ∷ type_long ∷ type_float ∷ type_string ∷ type_byte ∷ type_off_t ∷ type_double
        ∷ type_array_int ∷ type_array_long ∷ type_array_float ∷ type_array_string ∷ type_array_byte
        ∷ type_array_double ∷ type_file ∷ [])
      n

-- A type with its member of the union; `no_value` for the types without a branch in the switch.
pub data Value : Type 0 where
  value_int value_long value_float value_byte value_double : ℕ → Value
  value_string : List ℕ → Value
  value_ints value_longs value_floats value_bytes value_doubles : List (Option ℕ) → Value
  value_strings : List (Option (List ℕ)) → Value
  value_file no_value : Value

-- A union that was set to 0.
unfoldable pub blank : Option ValueType → Value
blank (some type_int) = value_int 0
blank (some type_long) = value_long 0
blank (some type_float) = value_float 0
blank (some type_string) = value_string []
blank (some type_byte) = value_byte 0
blank (some type_off_t) = no_value
blank (some type_double) = value_double 0
blank (some type_array_int) = value_ints []
blank (some type_array_long) = value_longs []
blank (some type_array_float) = value_floats []
blank (some type_array_string) = value_strings []
blank (some type_array_byte) = value_bytes []
blank (some type_array_double) = value_doubles []
blank (some type_file) = value_file
blank none = no_value

pub record Field : Type 0 where
  pub field_name : List ℕ
  pub content : Value

pub record RecordF : Type 0 where
  pub fields_num : ℕ
  pub field_set : List ℕ
  pub fields : List Field

-- The fields of a `struct Record_f` that was set to 0, with the schema's names and types.
unfoldable pub create_fields : ℕ → List (List ℕ) → List ℕ → Outcome (List Field)
unfolding c_str pad value_type blank
create_fields zero names types = ok []
create_fields (suc n) (row ∷ names) (t ∷ types) =
    let rest = create_fields n names types in
    Base.◌>>=◌ (c_str row) λ s.
      Base.◌>>=◌ rest
        λ fs. ok (record { field_name = pad max_field_lt s; content = blank (value_type t) } ∷ fs)
create_fields (suc n) _ _ = undefined

unfoldable pub create_record : Schema → Outcome RecordF
unfolding create_fields
create_record sch = Base.◌>>=◌ (create_fields sch.fields_num sch.fields_name sch.types) λ fs.
    ok (record { fields_num = sch.fields_num; field_set = replicate max_field_nr 0; fields = fs })

-- The arrays, each type on its own branch.
unfoldable pub write_ints : List (Option ℕ) → Io (Unit {0})
unfolding write_be write_array
write_ints v = write_array (write_be 4) v

unfoldable pub write_longs : List (Option ℕ) → Io (Unit {0})
unfolding write_be write_array
write_longs v = write_array (write_be 8) v

unfoldable pub write_floats : List (Option ℕ) → Io (Unit {0})
unfolding write_be write_array
write_floats v = write_array (write_be 4) v

unfoldable pub write_strings : List (Option (List ℕ)) → Io (Unit {0})
unfolding write_string write_array
write_strings v = write_array write_string v

unfoldable pub write_bytes : List (Option ℕ) → Io (Unit {0})
unfolding write_be write_array
write_bytes v = write_array (write_be 2) v

unfoldable pub write_doubles : List (Option ℕ) → Io (Unit {0})
unfolding write_be write_array
write_doubles v = write_array (write_be 8) v

-- One field of a new record.
unfoldable pub write_field : Value → Io (Unit {0})
unfolding write_be write_string write_ints write_longs write_floats write_strings write_bytes
    write_doubles
write_field (value_int n) = write_be 4 n
write_field (value_long n) = write_be 8 n
write_field (value_float n) = write_be 4 n
write_field (value_string s) = write_string s
write_field (value_byte n) = write_be 2 n
write_field (value_double n) = write_be 8 n
write_field (value_ints v) = write_ints v
write_field (value_longs v) = write_longs v
write_field (value_floats v) = write_floats v
write_field (value_strings v) = write_strings v
write_field (value_bytes v) = write_bytes v
write_field (value_doubles v) = write_doubles v
write_field value_file = lift undefined
write_field no_value = pure tt

-- `ntohb`: the low byte of two.
unfoldable pub ntohb : Io ℕ
unfolding read_be
ntohb = read_be 2 >>= λ n. pure (n % 256)

unfoldable pub read_ints : List (Option ℕ) → Io (List (Option ℕ))
unfolding read_be read_array skip_wide
read_ints v = read_array (read_be 4) (skip_wide 4) v

unfoldable pub read_longs : List (Option ℕ) → Io (List (Option ℕ))
unfolding read_be read_array skip_wide
read_longs v = read_array (read_be 8) (skip_wide 8) v

unfoldable pub read_strings : List (Option (List ℕ)) → Io (List (Option (List ℕ)))
unfolding read_string_element read_array skip_strings
read_strings v = read_array read_string_element skip_strings v

unfoldable pub read_floats : List (Option ℕ) → Io (List (Option ℕ))
unfolding read_be read_array skip_wide
read_floats v = read_array (read_be 4) (skip_wide 4) v

unfoldable pub read_doubles : List (Option ℕ) → Io (List (Option ℕ))
unfolding read_be read_array skip_wide
read_doubles v = read_array (read_be 8) (skip_wide 8) v

-- An element takes two bytes, the padding of one element one byte.
unfoldable pub read_bytes : List (Option ℕ) → Io (List (Option ℕ))
unfolding ntohb read_array skip_wide
read_bytes v = read_array ntohb (skip_wide 1) v

-- One field, into what the record has there.
unfoldable pub read_field : Value → Io Value
unfolding read_be read_string ntohb read_ints read_longs read_floats read_strings read_bytes
    read_doubles
read_field (value_int n) = read_be 4 >>= λ x. pure (value_int x)
read_field (value_long n) = read_be 8 >>= λ x. pure (value_long x)
read_field (value_float n) = read_be 4 >>= λ x. pure (value_float x)
read_field (value_string s) = read_string >>= λ x. pure (value_string x)
read_field (value_byte n) = ntohb >>= λ x. pure (value_byte x)
read_field (value_double n) = read_be 8 >>= λ x. pure (value_double x)
read_field (value_ints v) = read_ints v >>= λ x. pure (value_ints x)
read_field (value_longs v) = read_longs v >>= λ x. pure (value_longs x)
read_field (value_floats v) = read_floats v >>= λ x. pure (value_floats x)
read_field (value_strings v) = read_strings v >>= λ x. pure (value_strings x)
read_field (value_bytes v) = read_bytes v >>= λ x. pure (value_bytes x)
read_field (value_doubles v) = read_doubles v >>= λ x. pure (value_doubles x)
read_field value_file = lift undefined
read_field no_value = pure no_value
