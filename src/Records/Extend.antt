-- ===== src/Records/Extend.antt =====
-- An array of numbers written over a shorter one that stands in one block: the block is filled, and
-- what is left goes into a new block at the end of the file.
use isam_db_c_language.Base.{
  ℕ, zero, suc, ◌+◌, ◌-◌, ◌*◌, ◌^◌, ◌<◌, ◌≡◌, refl, ap, sym, ◌∙◌, arith, List, ◌++◌, ◌==◌, ◌&&◌,
  Option, some, ok, length, length-append, append_assoc, All, ltb, leb, true, false, Bool,
  if◌then◌else◌,
}
use isam_db_c_language.Io.{◌>>◌, pure, seek, tell, read_be, write_be}
use isam_db_c_language.Io.Bytes.{be, length-be}
use isam_db_c_language.Io.Wire.{bind-ok}
use isam_db_c_language.Records.ArrayLayout.{Points, elements_bytes, elements_calls}
use isam_db_c_language.Records.Places.{at}
use isam_db_c_language.Records.Blocks.{
  put_elements, append_block, first_block, over_block, update_blocks, update_array, read_int,
  skip_padding,
}
use isam_db_c_language.Records.Shrink.{block, length-elements_bytes}
use isam_db_c_language.Records.NewBlock.{last_bytes, append_calls, Runs-put_over, Runs-append_block}
use isam_db_c_language.Records.Overwrites.{
  Runs, Runs-pure, Runs-bind, Runs-then, Runs-to, Runs-move, Runs-tell, Runs-seek, Runs-read_int,
  Runs-read_be,
}

-- The calls that pass over padding.
abbrev pub pad_calls : ℕ → ℕ
pad_calls zero = 0
pad_calls (suc n) = 2

Runs-skip_padding :
    (k : ℕ) (e d : Bool) (u : List (Option ℕ)) (pad : ℕ) (bytes : List ℕ) (p : ℕ)
    → Runs (skip_padding (write_be k) k e d u pad) tt bytes p bytes (p + pad * k) (pad_calls pad)
Runs-skip_padding k e d u zero bytes p b =
    Runs-to (pure tt) tt bytes bytes bytes p p _ 0 (Runs-pure tt bytes p) refl (omega arith) b
Runs-skip_padding k e d u (suc pad) bytes p b =
    let is : ltb 0 (suc pad) ≡ true = ground arith in rw is (Runs-move (suc pad * k) bytes p b)

abbrev pub extend_calls : ℕ → List (Option ℕ) → List (Option ℕ) → ℕ
extend_calls pad v w =
    1 + (1 + (elements_calls 1 v + 0 + (pad_calls pad + (1 + (1 + (append_calls w + 0))))))

module _ (P : ℕ → Type 0) (k pad : ℕ) (v w : List (Option ℕ)) (each : All (Points P) v)
    (others : All (Points P) w) (full : 0 < length v) (longer : 0 < length w)
    (sized : length v < 2 ^ 31) (small : pad < 2 ^ 31) (e d : Bool) (a old stale z : List ℕ)
    (over : length old ≡ elements_calls k v) (rest : length stale ≡ pad * k) where
  abbrev new : List ℕ
  new = elements_bytes (be k) v

  -- What stands before the offset of the next block.
  abbrev head : List ℕ
  head = a ++ (be 4 (length v) ++ (be 4 pad ++ (new ++ stale)))

  abbrev s0 : List ℕ
  s0 = a ++ block (length v) pad old stale (be 8 0) z

  abbrev s1 : List ℕ
  s1 = head ++ (be 8 0 ++ z)

  abbrev s2 : List ℕ
  s2 = head ++ (be 8 (length s1) ++ (z ++ last_bytes k w))

  -- Where the elements end, and the padding.
  abbrev filled : ℕ
  filled = length a + 4 + 4 + elements_calls k v

  abbrev g : ℕ
  g = filled + pad * k

  ahead : List ℕ
  ahead = a ++ (be 4 (length v) ++ be 4 pad)

  length-ahead : length a + 4 + 4 ≡ length ahead
  unfolding ahead
  length-ahead = omega (
    arith,
    length-append a (be 4 (length v) ++ be 4 pad),
    length-append (be 4 (length v)) (be 4 pad),
    length-be 4 (length v),
    length-be 4 pad,
  )

  length-head : g ≡ length head
  unfolding ahead
  length-head =
      let grouped : head ≡ ahead ++ (new ++ stale) = simp (append_assoc) in
      omega (
        arith,
        ap length grouped,
        length-ahead,
        length-append ahead (new ++ stale),
        length-append new stale,
        length-elements_bytes k v,
        rest,
      )

  Runs-put :
      Runs
        (put_elements (write_be k) (length v) (if d then v ++ w else v ++ w) (v ++ w))
        w
        s0
        (length a + 4 + 4)
        s1
        filled
        (elements_calls 1 v)
  unfolding ahead
  Runs-put =
      let once =
        Runs-to (put_elements (write_be k) (length v) (v ++ w) (v ++ w)) w s0 _ s1
          (length a + 4 + 4) _ _ (elements_calls 1 v)
          (Runs-put_over P k v w s0 ahead old (stale ++ (be 8 0 ++ z)) (length a + 4 + 4) each
            (simp (append_assoc)) length-ahead over)
          (simp (append_assoc)) refl in
      elim d
        as (λ c.
          Runs (put_elements (write_be k) (length v) (if c then v ++ w else v ++ w) (v ++ w)) w s0
            (length a + 4 + 4) s1 filled (elements_calls 1 v)) [ true ↦ once | false ↦ once ]

  Runs-first_block :
      Runs
        (first_block (write_be k) k e d (v ++ w) (length v) pad (v ++ w))
        (pad, w, false)
        s0
        (length a + 4 + 4)
        s1
        filled
        (elements_calls 1 v + 0)
  unfolding first_block
  Runs-first_block b =
      let same : ltb (length (v ++ w)) (length (v ++ w)) ≡ false = ground arith in
      let some_left : (length w == 0) ≡ false = ground arith in
      let nonempty : ltb 0 (length v) ≡ true = ground arith in
      rw (nonempty, same)
        (Runs-bind (put_elements (write_be k) (length v) (if d then v ++ w else v ++ w) (v ++ w))
          (λ left. pure (pad, left, if (length left == 0) && true then e else false)) w
          (pad, w, false) s0 s1 s1 (length a + 4 + 4) filled filled (elements_calls 1 v) 0 Runs-put
          (λ c. rw some_left (Runs-pure (pad, w, false) s1 filled c)) b)

  Runs-over_block :
      Runs
        (over_block (write_be k) k e d (v ++ w) (length v) pad (v ++ w))
        (pad, w, false)
        s0
        (length a + 4 + 4)
        s1
        filled
        (elements_calls 1 v + 0)
  unfolding over_block
  Runs-over_block b =
      let first : leb (length v) (length (v ++ w) - length (v ++ w)) ≡ false = ground arith in
      rw first (Runs-first_block b)

  Runs-linked :
      Runs
        (append_block (write_be k) g w >> pure (g + 8))
        (g + 8)
        s1
        (g + 8)
        s2
        (g + 8)
        (append_calls w + 0)
  Runs-linked =
      Runs-then (append_block (write_be k) g w) (pure (g + 8)) (g + 8) s1 s2 s2 (g + 8) (g + 8)
        (g + 8) (append_calls w) 0
        (Runs-append_block P k w head (be 8 0) z (g + 8) g others (length-be 8 0) length-head)
        (Runs-pure (g + 8) s2 (g + 8))

  Runs-update_blocks :
      (j : ℕ)
      → Runs
          (update_blocks (write_be k) k e d (v ++ w) (suc j) 0 (v ++ w))
          (g + 8)
          s0
          (length a)
          s2
          (g + 8)
          (extend_calls pad v w)
  unfolding update_blocks
  Runs-update_blocks j =
      let p = length a in
      let here : p + 4 ≡ length (a ++ be 4 (length v)) =
        omega (arith, length-append a (be 4 (length v)), length-be 4 (length v)) in
      let longer_than : leb (length (v ++ w)) (length v) ≡ false =
        ground (arith, length-append v w) in
      Runs-bind read_int _ (length v) (g + 8) s0 s0 s2 p (p + 4) (g + 8) 1 _
        (Runs-read_int (length v) s0 a _ p sized refl refl)
        (λ b. rw longer_than (
          Runs-bind read_int _ pad (g + 8) s0 s0 s2 (p + 4) (p + 4 + 4) (g + 8) 1 _
            (Runs-read_int pad s0 (a ++ be 4 (length v)) _ (p + 4) small
              (sym (append_assoc a (be 4 (length v)) _)) here)
            (Runs-bind (over_block (write_be k) k e d (v ++ w) (length v) pad (v ++ w)) _
              (pad, w, false) (g + 8) s0 s1 s2 (p + 4 + 4) filled (g + 8) _ _ Runs-over_block
              (Runs-then (skip_padding (write_be k) k e d (v ++ w) pad) _ (g + 8) s1 s1 s2 filled g
                (g + 8) (pad_calls pad) _ (Runs-skip_padding k e d (v ++ w) pad s1 filled)
                (Runs-bind tell _ g (g + 8) s1 s1 s2 g g (g + 8) 1 _ (Runs-tell s1 g) (
                  Runs-bind (read_be 8) _ 0 (g + 8) s1 s1 s2 g (g + 8) (g + 8) 1 _
                    (Runs-read_be 8 0 s1 head z g (omega arith) refl length-head) Runs-linked))))
            b))

  -- The whole update.
  pub update_array-longer :
      (b : ℕ)
      → update_array (write_be k) k e d (v ++ w) (at s0 (length a) (extend_calls pad v w + (1 + b)))
        ≡ ok (some tt, at s2 (g + 8) b)
  unfolding update_array
  update_array-longer b =
      let c = extend_calls pad v w + (1 + b) in
      let back : ltb 0 (g + 8) ≡ true = ground arith in
      bind-ok (update_blocks (write_be k) k e d (v ++ w) (suc c) 0 (v ++ w))
        (λ n. if ltb 0 n then seek n else pure tt) (at s0 (length a) c) (at s2 (g + 8) (1 + b))
        (g + 8) (Runs-update_blocks c (1 + b))
      ∙ rw back (Runs-seek (g + 8) s2 (g + 8) b)
