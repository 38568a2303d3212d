-- ===== src/Records/ExtendRead.antt =====
-- An array of numbers that was made longer, read back from its two blocks.
use isam_db_c_language.Base.{
  ℕ, suc, ◌+◌, ◌-◌, ◌*◌, ◌^◌, ◌<◌, ◌≡◌, refl, ap, sym, ◌∙◌, arith, List, [], ◌++◌, ◌==◌, Option,
  some, ok, length, length-append, append_assoc, append-nil, All, true, false, Bool, take, drop,
}
use isam_db_c_language.Io.{◌>>◌, pure, read_be, write_be, tell, seek}
use isam_db_c_language.Io.Bytes.{be, length-be, take-length_append, drop-length_append}
use isam_db_c_language.Records.Arrays.{read_array, read_blocks, skip_wide, positive}
use isam_db_c_language.Records.ArrayLayout.{Points, elements_bytes, elements_calls}
use isam_db_c_language.Records.Places.{at, is_positive}
use isam_db_c_language.Records.Blocks.{update_array}
use isam_db_c_language.Records.Shrink.{block, length-elements_bytes}
use isam_db_c_language.Records.ShrinkRead.{In}
use isam_db_c_language.Records.Rounds.{Filled, Runs-round}
use isam_db_c_language.Records.NewBlock.{last_bytes}
use isam_db_c_language.Records.Extend.{pad_calls, extend_calls, update_array-longer}
use isam_db_c_language.Records.Overwrites.{
  Runs, Runs-pure, Runs-bind, Runs-then, Runs-tell, Runs-seek,
}

module _ (k pad : ℕ) (v w : List (Option ℕ)) (each : All (Points (In k)) v)
    (others : All (Points (In k)) w) (full : 0 < length v) (longer : 0 < length w)
    (sized : length v < 2 ^ 31) (few : length w < 2 ^ 31) (small : pad < 2 ^ 31)
    (a old stale z : List ℕ) (over : length old ≡ elements_calls k v)
    (rest : length stale ≡ pad * k)
    (short : 2 * length (a ++ block (length v) pad old stale (be 8 0) z) < 256 ^ 8) where
  abbrev new : List ℕ
  new = elements_bytes (be k) v

  abbrev head : List ℕ
  head = a ++ (be 4 (length v) ++ (be 4 pad ++ (new ++ stale)))

  -- The size of the file before, where the new block stands.
  abbrev eof : ℕ
  eof = length (head ++ (be 8 0 ++ z))

  abbrev s2 : List ℕ
  s2 = head ++ (be 8 eof ++ (z ++ last_bytes k w))

  abbrev end : ℕ
  end = length a + 4 + 4 + elements_calls k v + pad * k + 8

  length-parts :
      (x : List ℕ) (n : ℕ)
      → length x ≡ elements_calls k v
      → length (a ++ block (length v) pad x stale (be 8 n) z) ≡ end + length z
  length-parts x n same =
      let t4 = be 8 n ++ z in
      let t3 = stale ++ t4 in
      let t2 = x ++ t3 in
      let t1 = be 4 pad ++ t2 in
      omega (
        arith,
        length-append a (be 4 (length v) ++ t1),
        length-append (be 4 (length v)) t1,
        length-append (be 4 pad) t2,
        length-append x t3,
        length-append stale t4,
        length-append (be 8 n) z,
        length-be 4 (length v),
        length-be 4 pad,
        length-be 8 n,
        same,
        rest,
      )

  length-eof : (n : ℕ) → length (head ++ (be 8 n ++ z)) ≡ end + length z
  length-eof n =
      let grouped : head ++ (be 8 n ++ z) ≡ a ++ block (length v) pad new stale (be 8 n) z =
        simp (append_assoc) in
      ap length grouped ∙ length-parts new n (length-elements_bytes k v)

  small_eof : 2 * eof < 256 ^ 8
  small_eof = omega (arith, length-eof 0, length-parts old 0 over, short)

  abbrev second_calls : ℕ
  second_calls = 1 + (1 + (elements_calls 1 w + (0 + (1 + (0 + (1 + 0))))))

  Runs-second :
      (j : ℕ)
      → Runs
          (read_blocks (read_be k) (skip_wide k) (suc j) end v)
          (v ++ w)
          s2
          eof
          s2
          end
          second_calls
  unfolding positive seek
  Runs-second j =
      let at_end = eof + 4 + 4 + elements_calls k w + 0 * k + 8 in
      let back : (end == 0) ≡ false = ground arith in
      Runs-round k j end 0 0 w v (v ++ w) s2 (head ++ (be 8 eof ++ z)) [] [] eof end (0 + (1 + 0))
        others (Filled (In k) v each) few (omega arith) (omega arith) (omega arith)
        (simp (append_assoc, append-nil)) (length-eof 0 ∙ sym (length-eof eof))
        (λ b. rw back (
          Runs-bind (pure end) (λ here. seek here >> pure (v ++ w)) end (v ++ w) s2 s2 s2 at_end
            at_end end 0 (1 + 0) (Runs-pure end s2 at_end)
            (Runs-then (seek end) (pure (v ++ w)) (v ++ w) s2 s2 s2 at_end end end 1 0
              (Runs-seek end s2 at_end) (Runs-pure (v ++ w) s2 end))
            b))

  abbrev pub reread_calls : ℕ
  reread_calls = 1 + (1 + (elements_calls 1 v + (pad_calls pad + (1 + (1 + (1 + second_calls))))))

  Runs-both :
      (j : ℕ)
      → Runs
          (read_blocks (read_be k) (skip_wide k) (suc (suc j)) 0 [])
          (v ++ w)
          s2
          (length a)
          s2
          end
          reread_calls
  Runs-both j =
      let near : positive 8 eof ≡ true =
        is_positive eof 8 (eof - 8) (omega (arith, length-eof 0)) (omega arith) small_eof in
      Runs-round k (suc j) 0 eof pad v [] (v ++ w) s2 a stale (z ++ last_bytes k w) (length a) end
        (1 + (1 + second_calls)) each tt sized small (omega (arith, small_eof)) rest
        (simp (append_assoc)) refl
        (Runs-bind tell _ end (v ++ w) s2 s2 s2 end end end 1 _ (Runs-tell s2 end) (λ b. rw near (
          Runs-then (seek eof) (read_blocks (read_be k) (skip_wide k) (suc j) end v) (v ++ w) s2 s2
            s2 end eof end 1 second_calls (Runs-seek eof s2 end) (Runs-second j) b)))

  Runs-read_array :
      Runs (read_array (read_be k) (skip_wide k) []) (v ++ w) s2 (length a) s2 end reread_calls
  unfolding read_array
  Runs-read_array b =
      let n = reread_calls + b in
      let fuel : n ≡ suc (n - 1) = omega arith in
      ap (λ (j : ℕ). read_blocks (read_be k) (skip_wide k) (suc j) 0 [] (at s2 (length a) n)) fuel
      ∙ Runs-both (n - 1) b

  -- A block that no other follows, with its own padding, and a new array without NULL, of more
  -- numbers of `k` bytes than the block, one at least, holds, all sizes below 2^31, in a file of
  -- less than 2^63 bytes: with enough calls the update succeeds, `read_array` yields the new
  -- array from the block and the new one at the end of the file, both end where the first block
  -- ends, and the bytes before and after the block are left.
  pub read_array-update_array_longer :
      (e d : Bool) (b c : ℕ)
      → (bytes : List ℕ) × (update_array (write_be k) k e d (v ++ w) (
            at
              (a ++ block (length v) pad old stale (be 8 0) z)
              (length a)
              (extend_calls pad v w + (1 + b)))
          ≡ ok (some tt, at bytes end b))
        × (read_array (read_be k) (skip_wide k) [] (at bytes (length a) (reread_calls + c))
            ≡ ok (some (v ++ w), at bytes end c))
        × (take (length a) bytes ≡ a)
        × (take (length z) (drop end bytes) ≡ z)
  read_array-update_array_longer e d b c =
      let linked : length (head ++ be 8 eof) ≡ end = omega (
        arith,
        length-eof eof,
        ap length (append_assoc head (be 8 eof) z),
        length-append (head ++ be 8 eof) z,
      ) in
      (
        s2,
        update_array-longer (In k) k pad v w each others full longer sized small e d a old stale z
            over rest b,
        Runs-read_array c,
        ap (take (length a)) (append_assoc a _ _) ∙ take-length_append a _ (length a) refl,
        ap (λ (l : List ℕ). take (length z) (drop end l)) (sym (append_assoc head (be 8 eof) _))
            ∙ ap (take (length z)) (drop-length_append (head ++ be 8 eof) _ end linked)
            ∙ take-length_append z _ (length z) refl,
      )
