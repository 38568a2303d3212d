-- ===== src/Tests/Updates.antt =====
-- Updates of arrays of numbers in a file, on small examples.
use isam_db_c_language.Base.{
  arith, ℕ, ◌≡◌, refl, List, [], ◌∷◌, ◌++◌, ok, some, Option, take, Outcome, undefined, none, false,
  drop,
}
use isam_db_c_language.Io.{File, Io, write_be, read_be}
use isam_db_c_language.Io.Bytes.{be}
use isam_db_c_language.Records.Places.{at}
use isam_db_c_language.Records.{read_ints}
use isam_db_c_language.Records.Arrays.{read_array, read_blocks, skip_wide}
use isam_db_c_language.Records.Chain.{Chained, last, more, read_array-Chained}
use isam_db_c_language.Records.ArrayLayout.{elements_bytes, elements_calls}
use isam_db_c_language.Records.Shrink.{block}
use isam_db_c_language.Records.ExtendRead.{read_array-update_array_longer}
use isam_db_c_language.Records.ShrinkRead.{read_array-update_array}
use isam_db_c_language.Records.Blocks.{update_array, update_ints, update_doubles, update_bytes}

abbrev one_block : ℕ → ℕ → List ℕ → ℕ → List ℕ
one_block size pad body next = be 4 size ++ be 4 pad ++ body ++ be 8 next

-- The bytes of the file after a piece of code.
abbrev after_run : Io (Unit {0}) → List ℕ → List ℕ
after_run m bytes = elim (m (at bytes 0 60)) [
  | undefined ↦ []
  | ok r ↦ elim r.0 [ none ↦ [] | some a ↦ r.1.bytes ]
]

update_ints_same :
    after_run (update_ints (some 7 ∷ some 8 ∷ [])) (one_block 2 0 (be 4 1 ++ be 4 2) 0)
    ≡ one_block 2 0 (be 4 7 ++ be 4 8) 0
unfolding update_ints
update_ints_same = refl

update_ints_shorter :
    after_run (update_ints (some 7 ∷ [])) (one_block 2 0 (be 4 1 ++ be 4 2) 0)
    ≡ one_block 1 1 (be 4 7 ++ be 4 2) 0
unfolding update_ints
update_ints_shorter = refl

-- What is longer goes on in a block at the end.
update_ints_longer :
    after_run (update_ints (some 7 ∷ some 8 ∷ some 9 ∷ [])) (one_block 2 0 (be 4 1 ++ be 4 2) 0)
    ≡ one_block 2 0 (be 4 7 ++ be 4 8) 24 ++ one_block 1 0 (be 4 9) 0
unfolding update_ints
update_ints_longer = refl

-- Two blocks, one of one element and one of five, and an array of three: the second block is given
-- the size of the whole array, and the end of the blocks is written over its last element. Four
-- elements are read back.
update_ints_two_blocks :
    after_run (update_ints (some 7 ∷ some 8 ∷ some 9 ∷ [])) (
      one_block 1 0 (be 4 1) 20 ++ one_block 5 0 (be 4 2 ++ be 4 3 ++ be 4 4 ++ be 4 5 ++ be 4 6) 0)
    ≡ one_block 1 0 (be 4 7) 20 ++ one_block 3 2 (be 4 8 ++ be 4 9 ++ be 4 4 ++ be 4 5 ++ be 4 0) 0
unfolding update_ints
update_ints_two_blocks = refl

abbrev doubled_read : Outcome (Option (List (Option ℕ)) × File) → List (Option ℕ)
doubled_read undefined = []
doubled_read (ok r) = elim r.0 [ none ↦ [] | some v ↦ v ]

read_ints_two_blocks :
    doubled_read (
      read_ints [] (
        at
          (one_block 1 0 (be 4 7) 20
            ++ one_block 3 2 (be 4 8 ++ be 4 9 ++ be 4 4 ++ be 4 5 ++ be 4 0) 0)
          0
          60))
    ≡ some 7 ∷ some 8 ∷ some 9 ∷ some 4 ∷ []
unfolding read_ints be
read_ints_two_blocks = refl

-- The padding of an array of bytes is half as long as what it stands for.
update_bytes_shorter :
    after_run
      (update_bytes (some 7 ∷ []))
      (one_block 5 0 (be 2 1 ++ be 2 2 ++ be 2 3 ++ be 2 4 ++ be 2 5) 0)
    ≡ one_block 1 4 (be 2 7 ++ be 2 2 ++ be 2 3) 0 ++ be 4 0
unfolding update_bytes
update_bytes_shorter = refl

-- The second block is given the first elements of the array, where the last ones are meant.
update_doubles_longer :
    after_run
      (update_doubles (some 7 ∷ some 8 ∷ some 9 ∷ []))
      (one_block 1 0 (be 8 1) 24 ++ one_block 2 0 (be 8 2 ++ be 8 3) 0)
    ≡ one_block 1 0 (be 8 7) 24 ++ one_block 2 0 (be 8 7 ++ be 8 8) 0
unfolding update_doubles
update_doubles_longer = refl

read_array-update_array_example :
    (bytes : List ℕ) × (update_array
        (write_be 4)
        4
        false
        false
        (some 7 ∷ [])
        (at ((5 ∷ []) ++ block 3 1 (be 4 1) (be 4 2 ++ be 4 3 ++ be 4 4) (be 8 0) (6 ∷ [])) 1 12)
      ≡ ok (some tt, at bytes 33 0))
    × (read_array (read_be 4) (skip_wide 4) [] (at bytes 1 8)
        ≡ ok (some (some 7 ∷ []), at bytes 33 0))
    × (take 1 bytes ≡ (5 ∷ []))
    × (drop 33 bytes ≡ (6 ∷ []))
unfolding elements_calls be
read_array-update_array_example =
    read_array-update_array 4 3 1 (some 7 ∷ []) (omega arith, tt) (omega arith) (omega arith)
      (omega arith) (5 ∷ []) (be 4 1) (be 4 2 ++ be 4 3 ++ be 4 4) (be 8 0) (6 ∷ []) refl refl refl
      false false 0 0

read_array-update_array_longer_example :
    (bytes : List ℕ) × (update_array
        (write_be 4)
        4
        false
        false
        (some 7 ∷ some 8 ∷ [])
        (at ((5 ∷ []) ++ block 1 1 (be 4 1) (be 4 2) (be 8 0) (6 ∷ [])) 1 15)
      ≡ ok (some tt, at bytes 25 0))
    × (read_array (read_be 4) (skip_wide 4) [] (at bytes 1 13)
        ≡ ok (some (some 7 ∷ some 8 ∷ []), at bytes 25 0))
    × (take 1 bytes ≡ 5 ∷ [])
    × (take 1 (drop 25 bytes) ≡ 6 ∷ [])
unfolding elements_calls be
read_array-update_array_longer_example =
    read_array-update_array_longer 4 1 (some 7 ∷ []) (some 8 ∷ []) (omega arith, tt)
      (omega arith, tt) (omega arith) (omega arith) (omega arith) (omega arith) (omega arith)
      (5 ∷ []) (be 4 1) (be 4 2) (6 ∷ []) refl refl (omega arith) false false 0 0

-- Three blocks of one number each, of which the second and the third stand in the other order.
abbrev three_blocks : List ℕ
three_blocks = one_block 1 0 (be 4 7) 40 ++ one_block 1 0 (be 4 9) 0 ++ one_block 1 0 (be 4 8) 20

three-Chained : Chained 4 three_blocks 0 20 (some 7 ∷ some 8 ∷ some 9 ∷ []) 3 15
unfolding elements_bytes elements_calls be
three-Chained =
    more (some 7 ∷ []) 0 40 60 2 10 (some 8 ∷ some 9 ∷ [])
      (record {
        before = [];
        stale = [];
        behind = one_block 1 0 (be 4 9) 0 ++ one_block 1 0 (be 4 8) 20;
        bytes_lem = refl;
        here = refl;
        end = refl;
        each = (omega arith, tt);
        few = omega arith;
        small = omega arith;
        room = refl;
      })
      (omega arith) (omega arith)
      (more (some 8 ∷ []) 0 20 40 1 5 (some 9 ∷ [])
        (record {
          before = one_block 1 0 (be 4 7) 40 ++ one_block 1 0 (be 4 9) 0;
          stale = [];
          behind = [];
          bytes_lem = refl;
          here = refl;
          end = refl;
          each = (omega arith, tt);
          few = omega arith;
          small = omega arith;
          room = refl;
        })
        (omega arith) (omega arith)
        (last (some 9 ∷ []) 0
          (record {
            before = one_block 1 0 (be 4 7) 40;
            stale = [];
            behind = one_block 1 0 (be 4 8) 20;
            bytes_lem = refl;
            here = refl;
            end = refl;
            each = (omega arith, tt);
            few = omega arith;
            small = omega arith;
            room = refl;
          })
          refl refl refl)
        refl refl refl)
      refl refl refl

read_array-Chained_example :
    (read_blocks (read_be 4) (skip_wide 4) 3 0 [] (at three_blocks 0 16)
      ≡ ok (some (some 7 ∷ some 8 ∷ some 9 ∷ []), at three_blocks 20 0))
    × (read_array (read_be 4) (skip_wide 4) [] (at three_blocks 0 16)
        ≡ ok (some (some 7 ∷ some 8 ∷ some 9 ∷ []), at three_blocks 20 0))
read_array-Chained_example =
    read_array-Chained 4 three_blocks 0 20 (some 7 ∷ some 8 ∷ some 9 ∷ []) 3 15 0 three-Chained

-- A block that names itself as the next one is read again and again, till no call is granted.
read_ints_circle :
    read_ints [] (at (0 ∷ one_block 0 0 [] 1) 1 20) ≡ ok (none, at (0 ∷ one_block 0 0 [] 1) 17 0)
unfolding read_ints be
read_ints_circle = refl
