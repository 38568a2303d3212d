-- ===== src/Records/Arrays.antt =====
-- `struct array` of include/record.h: `insert_element` of src/record.c, and the layout of an array in
-- a file, which is the same for each type of element.
use isam_db_c_language.Base.{
  ℕ, zero, suc, ◌*◌, ◌^◌, Bool, true, false, ◌&&◌, List, [], ◌∷◌, ◌++◌, if◌then◌else◌, ltb, ◌==◌,
  length, Option, none, some, undefined,
}
use isam_db_c_language.Io.{Io, ◌>>=◌, ◌>>◌, pure, lift, seek, tell, read_be, write_be}
use isam_db_c_language.IndexFile.Indexes.{move_in_file_bytes}

-- The first NULL pointer is given the element.
unfoldable pub fill : {A : Type 0} → A → List (Option A) → List (Option A)
fill x [] = []
fill x (none ∷ v) = some x ∷ v
fill x (some y ∷ v) = some y ∷ fill x v

-- `elements[size - 1]` is NULL.
unfoldable pub last_is_null : {A : Type 0} → List (Option A) → Bool
last_is_null [] = false
last_is_null (none ∷ []) = true
last_is_null (some x ∷ []) = false
last_is_null (s ∷ t ∷ v) = last_is_null (t ∷ v)

-- `init_array`: one NULL pointer, `DEF_SIZE` being 1.
unfoldable pub init_array : {A : Type 0} → List (Option A) → List (Option A)
init_array v = none ∷ []

unfoldable pub insert_element : {A : Type 0} → A → List (Option A) → List (Option A)
unfolding fill last_is_null init_array
insert_element x [] = fill x (init_array [])
insert_element x (s ∷ v) = if last_is_null (s ∷ v) then fill x (s ∷ v) else (s ∷ v) ++ some x ∷ []

-- A number of `k` bytes is more than 0 as a signed one.
unfoldable pub positive : ℕ → ℕ → Bool
positive k n = ltb 0 n && ltb (2 * n) (256 ^ k)

-- The number of loops of `for (int j = 0; j < sz; j++)`.
unfoldable pub loops : ℕ → ℕ
unfolding positive
loops sz = if positive 4 sz then sz else 0

module _ {A : Type 0} (write_element : A → Io (Unit {0})) where
  -- NULL elements are passed over.
  unfoldable pub write_elements : List (Option A) → Io (Unit {0})
  write_elements [] = pure tt
  write_elements (none ∷ v) = write_elements v
  write_elements (some x ∷ v) = write_element x >> write_elements v

  -- The branch of a new record: the size, no padding, the elements, no other block.
  unfoldable pub write_array : List (Option A) → Io (Unit {0})
  unfolding write_be write_elements
  write_array v = write_be 4 (length v) >> write_be 4 0 >> write_elements v >> write_be 8 0

unfoldable pub read_elements : {A : Type 0} → Io A → ℕ → List (Option A) → Io (List (Option A))
unfolding insert_element
read_elements r zero v = pure v
read_elements r (suc n) v = r >>= λ x. read_elements r n (insert_element x v)

module _ {A : Type 0} (read_element : Io A) (skip_padding : ℕ → Io (Unit {0})) where
  -- The do-while loop over the blocks of an array; `back` is `go_back_here`. A `get_file_offset` that
  -- fails leaves no call for the `find_record_position` after it. Where the offsets make a circle the code
  -- never ends; here the rounds end when the calls that are granted are used up.
  unfoldable pub read_blocks : ℕ → ℕ → List (Option A) → Io (List (Option A))
  unfolding seek tell read_be read_elements positive loops
  read_blocks zero back v = lift undefined
  read_blocks (suc k) back v = do
    size ← read_be 4
    padd ← read_be 4
    w ← read_elements read_element (loops size) v
    (if positive 4 padd then skip_padding padd else pure tt)
    next ← read_be 8
    here ← (if back == 0 then tell else pure back)
    (elim (positive 8 next) [
      | true ↦ seek next >> read_blocks k here w
      | false ↦ seek here >> pure w
    ])

  -- A round takes at least four calls.
  unfoldable pub read_array : List (Option A) → Io (List (Option A))
  unfolding read_blocks
  read_array v f = read_blocks (suc f.budget) 0 v f

-- The padding of an array whose elements the reader takes to have `k` bytes.
unfoldable pub skip_wide : ℕ → ℕ → Io (Unit {0})
unfolding move_in_file_bytes
skip_wide k padd = move_in_file_bytes (padd * k)
