-- ===== src/Records/Blocks.antt =====
-- The branches of `write_file` of src/file.c, with `update` set, for arrays of numbers: the new array
-- is written over the blocks that stand in the file, and what is left into a new block at its end.
-- `rest` is the elements from `step` on, so that `step` is `size` less their number. After the loop
-- has left a block by another way than its first test, `sz` is less than the size, and the code behind
-- the loop does nothing but to go back. A size or padding of 2^31 or more in the file is undefined.
use isam_db_c_language.Base.{
  ℕ, zero, suc, ◌+◌, ◌-◌, ◌*◌, ◌^◌, Bool, true, false, ◌&&◌, List, [], ◌∷◌, ok, undefined,
  if◌then◌else◌, ltb, leb, ◌==◌, length, Option, none, some,
}
use isam_db_c_language.Io.{
  Io, ◌>>=◌, ◌>>◌, pure, fail, lift, seek, tell, seek_end, read_be, write_be,
}
use isam_db_c_language.IndexFile.Indexes.{move_in_file_bytes}
use isam_db_c_language.Records.Arrays.{write_elements, positive}

-- `move_in_file_bytes` of a negative number; a place before the start of the file is refused.
unfoldable pub move_back : ℕ → Io (Unit {0})
unfolding tell seek
move_back n = tell >>= λ p. if ltb p n then fail else seek (p - n)

-- An `int` that is read from the file.
unfoldable pub read_int : Io ℕ
unfolding read_be
read_int = read_be 4 >>= λ n. lift (if ltb n (2 ^ 31) then ok n else undefined)

-- The end of `is_array_last_block`: a read that fails is 0, with no way back.
unfoldable pub is_last : ℕ → Io Bool
unfolding read_be seek
is_last go_back_to f = elim (read_be 8 f) [
  | undefined ↦ undefined
  | ok r ↦ elim r.0 [
    | none ↦ ok (some false, r.1)
    | some n ↦ (seek go_back_to >> pure (n == 0)) r.1
  ]
]

-- `w` is the number of bytes of an element.
unfoldable pub is_array_last_block : ℕ → ℕ → Io Bool
unfolding tell move_in_file_bytes is_last
is_array_last_block w element_nr = do
  go_back_to ← tell
  move_in_file_bytes (element_nr * w)
  is_last go_back_to

module _ {A : Type 0} (write_element : A → Io (Unit {0})) where
  -- A loop of `n` rounds that writes an element in each, till none is left; at a NULL pointer it
  -- stays. `shown` is where the element that is written comes from, the `rest` but for doubles.
  unfoldable pub put_elements : ℕ → List (Option A) → List (Option A) → Io (List (Option A))
  put_elements zero shown rest = pure rest
  put_elements (suc n) shown [] = pure []
  put_elements (suc n) shown (none ∷ rest) = pure (none ∷ rest)
  put_elements (suc n) [] (some x ∷ rest) = lift undefined
  put_elements (suc n) (none ∷ shown) (some x ∷ rest) = lift undefined
  put_elements (suc n) (some y ∷ shown) (some x ∷ rest) =
      write_element y >> put_elements n shown rest

  -- `while(sz)`, with no test for NULL.
  unfoldable pub put_all : ℕ → List (Option A) → Io (List (Option A))
  put_all zero rest = pure rest
  put_all (suc n) [] = pure []
  put_all (suc n) (none ∷ rest) = lift undefined
  put_all (suc n) (some x ∷ rest) = write_element x >> put_all n rest

  -- A new block at the end of the file, and its offset at `go_back_to`.
  unfoldable pub append_block : ℕ → List (Option A) → Io (Unit {0})
  unfolding seek seek_end write_be put_elements
  append_block go_back_to rest = do
    update_pos ← seek_end
    write_be 4 (length rest)
    write_be 4 0
    left ← put_elements (length rest) rest rest
    write_be 8 0
    seek go_back_to
    write_be 8 update_pos

  -- `w` is the `sizeof` of the padding, `exit_at_end` what `exit` becomes with the last element, and
  -- `v` the array, which the branch for doubles shows from its start in each block.
  module _ (w : ℕ) (exit_at_end from_start : Bool) (v : List (Option A)) where
    abbrev pub size : ℕ
    size = length v

    abbrev pub shown : List (Option A) → List (Option A)
    shown rest = if from_start then v else rest

    abbrev pub skip_padding : ℕ → Io (Unit {0})
    skip_padding padding = if ltb 0 padding then move_in_file_bytes (padding * w) else pure tt

    -- The code behind the loop, for a block with room for the whole array.
    unfoldable pub shrink_block : ℕ → List (Option A) → Io (Unit {0})
    unfolding move_back write_be read_int write_elements move_in_file_bytes
    shrink_block sz rest = do
      move_back 4
      write_be 4 size
      pad ← read_int
      move_back 4
      write_be 4 (pad + (sz - size))
      write_elements write_element rest
      move_in_file_bytes ((pad + (sz - size)) * w)
      write_be 8 0

    -- The same, for a block of the size of the array.
    unfoldable pub fill_block : List (Option A) → Io (Unit {0})
    unfolding move_back write_be read_int put_elements move_in_file_bytes
    fill_block rest = do
      (if ltb (length rest) size then move_back 4 >> write_be 4 (length rest) else pure tt)
      pad ← read_int
      left ← put_elements size (shown rest) rest
      skip_padding pad
      write_be 8 0

    unfoldable pub last_block : ℕ → List (Option A) → Io (Unit {0})
    unfolding shrink_block fill_block
    last_block sz rest = if ltb size sz then shrink_block sz rest else fill_block rest

    -- The new size and padding of a block that is longer than what is left.
    unfoldable pub cut_block : ℕ → ℕ → List (Option A) → Io ℕ
    unfolding move_back write_be
    cut_block sz padding rest = do
      let more = padding + (sz - length rest)
      move_back 8
      write_be 4 (length rest)
      write_be 4 more
      pure more

    -- The branch `step >= sz`: the padding, what is left, and `exit`.
    unfoldable pub later_block : ℕ → ℕ → List (Option A) → Io (ℕ × List (Option A) × Bool)
    unfolding is_array_last_block cut_block put_all
    later_block sz padding rest = is_array_last_block w sz >>= λ array_last.
        if ltb (length rest) sz && array_last
        then (cut_block sz padding rest >>= λ more.
            put_all (length rest) rest >>= λ left. pure (more, left, true))
        else (put_all sz rest >>= λ left. pure (padding, left, (length rest == sz) && array_last))

    -- The other branch. With the last element `exit` gets its new value.
    unfoldable pub first_block : ℕ → ℕ → List (Option A) → Io (ℕ × List (Option A) × Bool)
    unfolding cut_block put_elements
    first_block sz padding rest =
        let cut = ltb 0 sz && ltb (length rest) size && ltb (length rest) sz in
        (if cut then cut_block sz padding rest else pure padding) >>= λ more.
        put_elements (if cut then length rest else sz) (shown rest) rest >>= λ left.
        pure (more, left, if (length left == 0) && ltb 0 sz then exit_at_end else cut)

    -- What a round does with a block that is too short: the padding, what is left, and `exit`.
    unfoldable pub over_block : ℕ → ℕ → List (Option A) → Io (ℕ × List (Option A) × Bool)
    unfolding later_block first_block
    over_block sz padding rest =
        if leb sz (size - length rest)
        then later_block sz padding rest
        else first_block sz padding rest

    -- The end of a block with `exit`. In the branch `step >= sz` the padding is not passed over.
    unfoldable pub close_block : ℕ → ℕ → List (Option A) → Io (Unit {0})
    unfolding write_be
    close_block sz padding rest =
        (if leb sz (size - length rest) then pure tt else skip_padding padding) >> write_be 8 0

    -- The loop over the blocks; `back` is `go_back_to_first_rec`.
    unfoldable pub update_blocks : ℕ → ℕ → List (Option A) → Io ℕ
    unfolding read_int last_block over_block close_block append_block tell read_be seek positive
    update_blocks zero back rest = lift undefined
    update_blocks (suc k) back rest = read_int >>= λ sz. elim (leb size sz) [
      | true ↦ last_block sz rest >> pure back
      | false ↦ read_int >>= λ padding. over_block sz padding rest >>= λ r. elim (r.2) [
        | true ↦ close_block sz (r.0) rest >> pure back
        | false ↦ do
          skip_padding (r.0)
          go_back_to ← tell
          next ← read_be 8
          let back' = if back == 0 then go_back_to + 8 else back
          (elim (next == 0) [
            | true ↦ append_block go_back_to (r.1) >> pure back'
            | false ↦ if positive 8 next then (seek next >> update_blocks k back' (r.1)) else fail
          ])
      ]
    ]

    -- A round takes more than one call.
    unfoldable pub update_array : Io (Unit {0})
    unfolding update_blocks seek
    update_array f =
        (update_blocks (suc f.budget) 0 v >>= λ back. if ltb 0 back then seek back else pure tt) f

unfoldable pub update_ints : List (Option ℕ) → Io (Unit {0})
unfolding write_be update_array
update_ints v = update_array (write_be 4) 4 false false v

unfoldable pub update_longs : List (Option ℕ) → Io (Unit {0})
unfolding write_be update_array
update_longs v = update_array (write_be 8) 8 true false v

unfoldable pub update_floats : List (Option ℕ) → Io (Unit {0})
unfolding write_be update_array
update_floats v = update_array (write_be 4) 4 true false v

-- An element takes two bytes, and the padding of one element one.
unfoldable pub update_bytes : List (Option ℕ) → Io (Unit {0})
unfolding write_be update_array
update_bytes v = update_array (write_be 2) 1 true false v

unfoldable pub update_doubles : List (Option ℕ) → Io (Unit {0})
unfolding write_be update_array
update_doubles v = update_array (write_be 8) 8 true true v
