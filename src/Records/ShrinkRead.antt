-- ===== src/Records/ShrinkRead.antt =====
-- An array of numbers that was made shorter, read back: the padding of its block is passed over.
use isam_db_c_language.Base.{
  ℕ, ◌+◌, ◌-◌, ◌*◌, ◌^◌, ◌<◌, ◌≡◌, refl, ap, ◌∙◌, arith, List, [], ◌++◌, Option, some, ok, length,
  length-append, append_assoc, append-nil, All, true, Bool, take, drop, if◌then◌else◌,
}
use isam_db_c_language.Io.{pure, read_be, write_be}
use isam_db_c_language.Io.Bytes.{be, length-be, take-length_append, drop-length_append}
use isam_db_c_language.Io.Wire.{Reads, Reads-read_be}
use isam_db_c_language.Records.Arrays.{read_array, skip_wide, positive}
use isam_db_c_language.Records.ArrayLayout.{Points, elements_bytes, elements_calls, Reads-block}
use isam_db_c_language.IndexFile.ReadAll.{Reads-move}
use isam_db_c_language.Records.Recall.{reread_same}
use isam_db_c_language.Records.Places.{at, starts}
use isam_db_c_language.Records.Blocks.{update_array}
use isam_db_c_language.Records.Shrink.{block, length-elements_bytes, update_array-shorter}

Reads-padding :
    (k more : ℕ) (stale : List ℕ)
    → 0 < more
    → 2 * more < 256 ^ 4
    → length stale ≡ more * k
    → Reads (if positive 4 more then skip_wide k more else pure tt) stale 2 tt
unfolding skip_wide positive
Reads-padding k more stale some_left small same =
    let is : positive 4 more ≡ true = ground arith in rw is (Reads-move stale (more * k) same)

-- An element of `k` bytes.
abbrev pub In : ℕ → ℕ → Type 0
In k x = x < 256 ^ k

module _ (k sz pad : ℕ) (v : List (Option ℕ)) (each : All (Points (In k)) v)
    (shorter : length v < sz) (sized : sz < 2 ^ 31) (small : pad + (sz - length v) < 2 ^ 31)
    (a old stale next z : List ℕ) (over : length old ≡ elements_calls k v)
    (rest : length stale ≡ (pad + (sz - length v)) * k) (link : length next ≡ 8) where
  abbrev more : ℕ
  more = pad + (sz - length v)

  abbrev new : List ℕ
  new = elements_bytes (be k) v

  abbrev block_read : List ℕ
  block_read = be 4 (length v) ++ (be 4 more ++ (new ++ (stale ++ (be 8 0 ++ []))))

  abbrev s3 : List ℕ
  s3 = a ++ block (length v) more new stale (be 8 0) z

  abbrev end : ℕ
  end = length a + 4 + 4 + elements_calls k v + more * k + 8

  length-block_read : length a + length block_read ≡ end
  length-block_read = omega (
    arith,
    length-append (be 4 (length v)) (be 4 more ++ (new ++ (stale ++ (be 8 0 ++ [])))),
    length-append (be 4 more) (new ++ (stale ++ (be 8 0 ++ []))),
    length-append new (stale ++ (be 8 0 ++ [])),
    length-append stale (be 8 0 ++ []),
    length-append (be 8 0) [],
    length-be 4 (length v),
    length-be 4 more,
    length-elements_bytes k v,
    rest,
    length-be 8 0,
  )

  read_array-block :
      (b : ℕ)
      → read_array (read_be k) (skip_wide k) [] (at s3 (length a) (7 + elements_calls 1 v + b))
        ≡ ok (some v, at s3 end b)
  unfolding read_array
  read_array-block b =
      let f = at s3 (length a) (7 + elements_calls 1 v + b) in
      let here : drop (length a) s3 ≡ block_read ++ z =
        starts s3 a (block_read ++ z) (length a) (simp (append_assoc, append-nil)) refl in
      let left : 7 + elements_calls 1 v + b - (1 + (1 + (elements_calls 1 v + (2 + (1 + 2))))) ≡ b =
        omega arith in
      Reads-block (read_be k) (skip_wide k) (be k) (λ x. x) (In k) 1 (λ x h. Reads-read_be k x h)
        (7 + elements_calls 1 v + b) more 2 stale v
        (record { each = each; few = omega (arith, shorter, sized) }) (omega (arith, small))
        (Reads-padding k more stale (omega (arith, shorter)) (omega (arith, small)) rest) f z here
        (omega arith)
      ∙ λ i. ok (some (reread_same (In k) v each i), at s3 (length-block_read i) (left i))

  -- A block that holds more numbers of `k` bytes than the new array, with its own padding, none
  -- of its sizes 2^31 or more, and a new array without NULL whose numbers fit `k` bytes: the
  -- update succeeds with 11 calls and one for each element, `read_array` of what is then in the
  -- file yields the new array, both end where the block ends, and the bytes before and after the
  -- block are left.
  pub read_array-update_array :
      (e d : Bool) (b c : ℕ)
      → (bytes : List ℕ) × (update_array
            (write_be k)
            k
            e
            d
            v
            (at (a ++ block sz pad old stale next z) (length a) (11 + elements_calls 1 v + b))
          ≡ ok (some tt, at bytes end b))
        × (read_array
              (read_be k)
              (skip_wide k)
              []
              (at bytes (length a) (7 + elements_calls 1 v + c))
            ≡ ok (some v, at bytes end c))
        × (take (length a) bytes ≡ a)
        × (drop end bytes ≡ z)
  read_array-update_array e d b c =
      let grouped : s3 ≡ (a ++ block_read) ++ z = simp (append_assoc, append-nil) in
      let whole : length (a ++ block_read) ≡ end = length-append a block_read ∙ length-block_read in
      (
        s3,
        update_array-shorter (In k) k sz pad v each shorter sized (omega (arith, small)) e d a old
            stale next z over rest link b,
        read_array-block c,
        take-length_append a _ (length a) refl,
        ap (drop end) grouped ∙ drop-length_append (a ++ block_read) z end whole,
      )
