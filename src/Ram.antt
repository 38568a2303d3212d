-- ===== src/Ram.antt =====
-- The file in memory, `struct Ram_file` of include/file.h, and how src/file.c writes a record into it:
-- `write_ram_record` with `get_disk_size_record` and `init_ram_file`. An access outside the memory is
-- undefined.
pub mod Equivalence
pub mod Parts
pub mod Puts
pub mod Size
use isam_db_c_language.Base.{
  ℕ, zero, suc, ◌+◌, ◌-◌, ◌*◌, ◌%◌, ◌/◌, Bool, true, false, List, [], ◌∷◌, ◌++◌, Outcome, ok,
  undefined, ◌>>=◌, if◌then◌else◌, ltb, leb, ◌==◌, length, take, replicate, Option, none, some,
}
use isam_db_c_language.Io.Bytes.{be, pad, overwrite}
use isam_db_c_language.Header.{c_str}
use isam_db_c_language.Records.{
  Value, value_int, value_long, value_float, value_byte, value_double, value_string, value_ints,
  value_longs, value_floats, value_bytes, value_doubles, value_strings, value_file, no_value, Field,
  RecordF,
}

-- `capacity` is the length of `mem`.
pub record RamFile : Type 0 where
  pub mem : List ℕ
  pub size : ℕ

unfoldable pub std_ram_file : ℕ
std_ram_file = 3145728

-- `memcpy(&ram->mem[ram->size], …)`, and `ram->size` moved on.
unfoldable pub put : List ℕ → RamFile → Outcome RamFile
unfolding overwrite
put d ram =
    if leb (ram.size + length d) (length ram.mem)
    then ok (record { mem = overwrite ram.mem ram.size d; size = ram.size + length d })
    else undefined

unfoldable pub init_ram_file : ℕ → RamFile
unfolding std_ram_file
init_ram_file size = record {
  mem = replicate (if size == 0 then std_ram_file else size) 0;
  size = 0;
}

-- The bytes that the size counts for one field. `strlen` of an array's union is undefined, and so is
-- TYPE_FILE, whose branch calls itself without end.
unfoldable pub field_size : Value → Outcome ℕ
unfolding c_str
field_size (value_int n) = ok 4
field_size (value_long n) = ok 8
field_size (value_byte n) = ok 1
field_size (value_string s) = c_str s >>= λ t. ok (8 * 3 + (length t * 2 + 1))
field_size (value_float n) = ok 4
field_size (value_double n) = ok 8
field_size (value_ints v) = ok (4 * 2 + 4 * length v + 8)
field_size (value_longs v) = ok (4 * 2 + 8 * length v + 8)
field_size (value_bytes v) = ok (4 * 2 + 1 * length v + 8)
field_size (value_floats v) = ok (4 * 2 + 4 * length v + 8)
field_size (value_doubles v) = ok (4 * 2 + 8 * length v + 8)
field_size (value_strings []) = ok (4 * 2 + 8)
field_size (value_strings (s ∷ v)) = undefined
field_size value_file = undefined
field_size no_value = ok 0

unfoldable pub fields_size : ℕ → List ℕ → List Field → Outcome ℕ
unfolding field_size
fields_size zero set fields = ok 0
fields_size (suc n) (b ∷ set) (x ∷ fields) = fields_size n set fields >>= λ rest.
    if b == 0 then ok rest else (field_size x.content >>= λ k. ok (1 + k + rest))
fields_size (suc n) _ _ = undefined

unfoldable pub get_disk_size_record : RecordF → Outcome ℕ
unfolding fields_size
get_disk_size_record rec =
    fields_size rec.fields_num rec.field_set rec.fields >>= λ n. ok (1 + n + 8)

-- `realloc` to twice the capacity, once; `fresh` is what the new memory holds.
unfoldable pub make_room : List ℕ → ℕ → RamFile → RamFile
unfolding pad
make_room fresh n ram =
    if ltb (length ram.mem - ram.size) n
    then record ram { mem = ram.mem ++ pad (length ram.mem) fresh }
    else ram

-- `htonl` on a host with the low byte first, as a number.
unfoldable pub swapped : ℕ → ℕ
swapped n = n % 256 * 16777216 + n / 256 % 256 * 65536 + n / 65536 % 256 * 256 + n / 16777216 % 256

-- The pointers of an array followed; a NULL pointer is undefined.
unfoldable pub encoded : ℕ → List (Option ℕ) → Outcome (List ℕ)
unfolding be
encoded k [] = ok []
encoded k (none ∷ v) = undefined
encoded k (some x ∷ v) = encoded k v >>= λ d. ok (be k x ++ d)

-- `memcpy` of the elements, whose number is taken in network byte order: to read more than there are
-- is undefined.
unfoldable pub put_elements : ℕ → ℕ → List ℕ → RamFile → Outcome RamFile
unfolding put
put_elements k sz d ram = if leb (k * sz) (length d) then put (take (k * sz) d) ram else undefined

-- The branch of an array, with elements of `k` bytes. An array of size 0 is undefined.
unfoldable pub put_array : ℕ → List (Option ℕ) → RamFile → Outcome RamFile
unfolding put be encoded put_elements swapped
put_array k [] ram = undefined
put_array k (x ∷ v) ram = put (be 4 (length (x ∷ v))) ram >>= put (be 4 0) >>= λ r.
    encoded k (x ∷ v) >>= λ d. put_elements k (swapped (length (x ∷ v))) d r >>= put (be 8 0)

unfoldable pub put_string : List ℕ → RamFile → Outcome RamFile
unfolding put be c_str pad
put_string s ram = c_str s >>= λ t.
    put (be 8 0) ram >>= put (be 8 (length t * 2 + 1)) >>= put (pad (length t * 2 + 1) t)

-- The pointers of an array, with the elements converted.
unfoldable pub converted : (ℕ → ℕ) → List (Option ℕ) → List (Option ℕ)
converted c [] = []
converted c (none ∷ v) = none ∷ converted c v
converted c (some x ∷ v) = some (c x) ∷ converted c v

-- The conversions of C between floating-point numbers and integers, on their bits: of a `float` to
-- `uint32_t` and back, of `uint32_t` to `float`, and of a `double` to `uint64_t`.
module _ (float_u32_float u32_float double_u64 : ℕ → ℕ) where
  -- One field. An array of bytes has no branch, and strings of arrays are undefined before.
  unfoldable pub put_field : Value → RamFile → Outcome RamFile
  unfolding put be put_array put_string converted
  put_field (value_int n) ram = put (be 4 n) ram
  put_field (value_long n) ram = put (be 8 n) ram
  put_field (value_byte n) ram = put (be 1 n) ram
  put_field (value_float n) ram = put (be 4 (float_u32_float n)) ram
  put_field (value_double n) ram = put (be 8 (double_u64 n)) ram
  put_field (value_string s) ram = put_string s ram
  put_field (value_ints v) ram = put_array 4 v ram
  put_field (value_longs v) ram = put_array 8 v ram
  put_field (value_floats v) ram = put_array 4 (converted u32_float v) ram
  put_field (value_doubles v) ram = put_array 8 v ram
  put_field (value_bytes v) ram = ok ram
  put_field (value_strings []) ram = put (be 4 0) ram >>= put (be 4 0) >>= put (be 8 0)
  put_field (value_strings (s ∷ v)) ram = undefined
  put_field value_file ram = undefined
  put_field no_value ram = ok ram

  unfoldable pub put_fields : ℕ → List ℕ → List Field → RamFile → Outcome RamFile
  unfolding put_field
  put_fields zero set fields ram = ok ram
  put_fields (suc n) (b ∷ set) (x ∷ fields) ram =
      (if b == 0 then ok ram else put_field x.content ram) >>= put_fields n set fields
  put_fields (suc n) _ _ ram = undefined

-- The flags that are not 0, counted.
unfoldable pub count_active : ℕ → List ℕ → Outcome ℕ
count_active zero set = ok 0
count_active (suc n) [] = undefined
count_active (suc n) (b ∷ set) = count_active n set >>= λ c. ok (if b == 0 then c else suc c)

unfoldable pub put_indexes : ℕ → ℕ → List ℕ → RamFile → Outcome RamFile
unfolding put be
put_indexes zero i set ram = ok ram
put_indexes (suc n) i [] ram = undefined
put_indexes (suc n) i (b ∷ set) ram =
    (if b == 0 then ok ram else put (be 1 i) ram) >>= put_indexes n (suc i) set

module _ (float_u32_float u32_float double_u64 : ℕ → ℕ) where
  -- The positions, the fields and the offset 0.
  unfoldable pub put_parts : RecordF → RamFile → Outcome (Bool × RamFile)
  unfolding put be put_indexes put_fields
  put_parts rec ram =
      put_indexes rec.fields_num 0 rec.field_set ram
      >>= put_fields float_u32_float u32_float double_u64 rec.fields_num rec.field_set rec.fields
      >>= put (be 8 0)
      >>= λ r. ok (true, r)

  -- True for 0, false for -1; `fresh` is the memory that a `realloc` adds.
  unfoldable pub write_ram_record : List ℕ → RecordF → RamFile → Outcome (Bool × RamFile)
  unfolding put be get_disk_size_record init_ram_file make_room count_active put_parts
  write_ram_record fresh rec ram = get_disk_size_record rec >>= λ n.
      count_active rec.fields_num rec.field_set >>= λ count.
      put (be 1 count) (make_room fresh n (if length ram.mem == 0 then init_ram_file 0 else ram))
      >>= λ r. if count % 256 == 0 then ok (false, r) else put_parts rec r
