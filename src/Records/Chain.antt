-- ===== src/Records/Chain.antt =====
-- An array of numbers in any number of blocks: the loop of its reader takes a round for each block.
use isam_db_c_language.Base.{
  ℕ, zero, suc, ◌+◌, ◌*◌, ◌^◌, ◌≤◌, ◌<◌, ◌≡◌, ap, sym, ◌∙◌, arith, List, [], ◌∷◌, ◌++◌, ◌==◌,
  Option, some, ok, length, append_assoc, All, true, false,
}
use isam_db_c_language.Io.{◌>>◌, pure, read_be, tell, seek}
use isam_db_c_language.Io.Bytes.{be}
use isam_db_c_language.Records.Arrays.{read_array, read_blocks, skip_wide, positive}
use isam_db_c_language.Records.ArrayLayout.{Points, elements_bytes, elements_calls}
use isam_db_c_language.Records.Places.{at}
use isam_db_c_language.Records.Shrink.{block}
use isam_db_c_language.Records.ShrinkRead.{In}
use isam_db_c_language.Records.Extend.{pad_calls}
use isam_db_c_language.Records.Rounds.{Filled, onward, Runs-round}
use isam_db_c_language.Records.Overwrites.{
  Runs, Runs-pure, Runs-bind, Runs-then, Runs-tell, Runs-seek,
}

-- At `p` stands a block of the numbers `v`, of `k` bytes each, that names `next`; it ends at `e`.
pub record IsBlock (k : ℕ) (bytes : List ℕ) (p e : ℕ) (v : List (Option ℕ)) (pad next : ℕ)
    : Type 0 where
  pub before : List ℕ
  pub stale : List ℕ
  pub behind : List ℕ
  pub bytes_lem :
      bytes ≡ before ++ block (length v) pad (elements_bytes (be k) v) stale (be 8 next) behind
  pub here : p ≡ length before
  pub end : e ≡ p + 4 + 4 + elements_calls k v + pad * k + 8
  pub each : All (Points (In k)) v
  pub few : length v < 2 ^ 31
  pub small : pad < 2 ^ 31
  pub room : length stale ≡ pad * k

-- The calls for a block but the last moves.
abbrev pub block_calls : List (Option ℕ) → ℕ → ℕ → ℕ
block_calls v pad c = 1 + (1 + (elements_calls 1 v + (pad_calls pad + (1 + c))))

-- Blocks from `p` on, each of which names the next, and the last one 0: their elements, the end of
-- the first block, their number, and the calls to read them.
pub data Chained (k : ℕ) (bytes : List ℕ) : ℕ → ℕ → List (Option ℕ) → ℕ → ℕ → Type 0 where
  last :
      {p e n c : ℕ} {vs : List (Option ℕ)} (v : List (Option ℕ)) (pad : ℕ)
      → IsBlock k bytes p e v pad 0
      → vs ≡ v
      → n ≡ 1
      → c ≡ block_calls v pad 1
      → Chained k bytes p e vs n c
  more :
      {p e n c : ℕ} {vs : List (Option ℕ)} (v : List (Option ℕ)) (pad q e' m d : ℕ)
      (rest : List (Option ℕ))
      → IsBlock k bytes p e v pad q
      → 0 < q
      → 2 * q < 256 ^ 8
      → Chained k bytes q e' rest m d
      → vs ≡ v ++ rest
      → n ≡ suc m
      → c ≡ block_calls v pad (1 + d)
      → Chained k bytes p e vs n c

is_positive : (q : ℕ) → 0 < q → 2 * q < 256 ^ 8 → positive 8 q ≡ true
unfolding positive
is_positive q h l = ground arith

All-append :
    (P : ℕ → Type 0) (v w : List (Option ℕ))
    → All (Points P) v
    → All (Points P) w
    → All (Points P) (v ++ w)
All-append P [] w h g = g
All-append P (x ∷ v) w h g = (h.0, All-append P v w h.1 g)

module _ (k : ℕ) (bytes : List ℕ) where
  -- After the last block.
  Runs-stop :
      (fuel back p : ℕ) (vs : List (Option ℕ))
      → (back == 0) ≡ false
      → Runs (onward k fuel 0 back vs) vs bytes p bytes back 1
  unfolding positive seek
  Runs-stop fuel back p vs nonzero b = rw nonzero (
      Runs-bind (pure back) (λ here. seek here >> pure vs) back vs bytes bytes bytes p p back 0
        (1 + 0) (Runs-pure back bytes p)
        (Runs-then (seek back) (pure vs) vs bytes bytes bytes p back back 1 0
          (Runs-seek back bytes p) (Runs-pure vs bytes back))
        b)

  -- On to the next one.
  Runs-go :
      (fuel back p q d : ℕ) (vs x : List (Option ℕ))
      → (back == 0) ≡ false
      → positive 8 q ≡ true
      → Runs (read_blocks (read_be k) (skip_wide k) fuel back vs) x bytes q bytes back d
      → Runs (onward k fuel q back vs) x bytes p bytes back (1 + d)
  Runs-go fuel back p q d vs x nonzero near rest b =
      rw (nonzero, near)
        (Runs-then (seek q) (read_blocks (read_be k) (skip_wide k) fuel back vs) x bytes bytes bytes
          p q back 1 d (Runs-seek q bytes p) rest b)

  -- The later blocks, whose reader goes back to `back`.
  Runs-later :
      (back : ℕ)
      → (back == 0) ≡ false
      → (p e : ℕ) (vs : List (Option ℕ)) (n c : ℕ) → Chained k bytes p e vs n c
      → (fuel : ℕ) → n ≤ fuel
      → (acc : List (Option ℕ)) → All (Points (λ (x : ℕ). Unit {0})) acc
      → Runs (read_blocks (read_be k) (skip_wide k) fuel back acc) (acc ++ vs) bytes p bytes back c
  Runs-later back nonzero p e vs n c (last v pad is all one calls) zero enough acc full b =
      absurd (omega (arith, one))
  Runs-later back nonzero p e vs n c (more v pad q e' m d rest is pos low ch all num calls) zero
        enough acc full b =
      absurd (omega (arith, num))
  Runs-later back nonzero p e vs n c (last v pad is all one calls) (suc fuel) enough acc full b =
      ap (λ (i : ℕ). read_blocks (read_be k) (skip_wide k) (suc fuel) back acc (at bytes p (i + b)))
        calls
      ∙ Runs-round k fuel back 0 pad v acc (acc ++ v) bytes is.before is.stale is.behind p back 1
          is.each full is.few is.small (omega arith) is.room is.bytes_lem is.here
          (Runs-stop fuel back _ (acc ++ v) nonzero) b
      ∙ ap (λ (l : List (Option ℕ)). ok (some (acc ++ l), at bytes back b)) (sym all)
  Runs-later back nonzero p e vs n c (more v pad q e' m d rest is pos low ch all num calls)
        (suc fuel) enough acc full b =
      ap (λ (i : ℕ). read_blocks (read_be k) (skip_wide k) (suc fuel) back acc (at bytes p (i + b)))
        calls
      ∙ Runs-round k fuel back q pad v acc ((acc ++ v) ++ rest) bytes is.before is.stale is.behind p
          back (1 + d) is.each full is.few is.small (omega (arith, low)) is.room is.bytes_lem
          is.here
          (Runs-go fuel back _ q d (acc ++ v) _ nonzero (is_positive q pos low) (
            Runs-later back nonzero q e' rest m d ch fuel (omega (arith, num, enough)) (acc ++ v)
              (All-append (λ (x : ℕ). Unit {0}) acc v full (Filled (In k) v is.each))))
          b
      ∙ ap (λ (l : List (Option ℕ)). ok (some l, at bytes back b))
          (append_assoc acc v rest ∙ ap (◌++◌ acc) (sym all))

  -- The first block: the reader goes back to its end.
  Runs-chain :
      (p e : ℕ) (vs : List (Option ℕ)) (n c : ℕ)
      → Chained k bytes p e vs n c
      → (fuel : ℕ) → n ≤ fuel
      → Runs (read_blocks (read_be k) (skip_wide k) fuel 0 []) vs bytes p bytes e (1 + c)
  unfolding positive
  Runs-chain p e vs n c (last v pad is all one calls) zero enough b = absurd (omega (arith, one))
  Runs-chain p e vs n c (more v pad q e' m d rest is pos low ch all num calls) zero enough b =
      absurd (omega (arith, num))
  Runs-chain p e vs n c (last v pad is all one calls) (suc fuel) enough b =
      let end = p + 4 + 4 + elements_calls k v + pad * k + 8 in
      let all_calls : 1 + c ≡ block_calls v pad (1 + (1 + 0)) = omega (arith, calls) in
      ap (λ (i : ℕ). read_blocks (read_be k) (skip_wide k) (suc fuel) 0 [] (at bytes p (i + b)))
        all_calls
      ∙ Runs-round k fuel 0 0 pad v [] v bytes is.before is.stale is.behind p end (1 + (1 + 0))
          is.each tt is.few is.small (omega arith) is.room is.bytes_lem is.here
          (Runs-bind tell (λ here. seek here >> pure v) end v bytes bytes bytes end end end 1
            (1 + 0) (Runs-tell bytes end)
            (Runs-then (seek end) (pure v) v bytes bytes bytes end end end 1 0
              (Runs-seek end bytes end) (Runs-pure v bytes end)))
          b
      ∙ λ i. ok (some (sym all i), at bytes (sym is.end i) b)
  Runs-chain p e vs n c (more v pad q e' m d rest is pos low ch all num calls) (suc fuel) enough b =
      let end = p + 4 + 4 + elements_calls k v + pad * k + 8 in
      let nonzero : (end == 0) ≡ false = ground arith in
      let all_calls : 1 + c ≡ block_calls v pad (1 + (1 + d)) = omega (arith, calls) in
      ap (λ (i : ℕ). read_blocks (read_be k) (skip_wide k) (suc fuel) 0 [] (at bytes p (i + b)))
        all_calls
      ∙ Runs-round k fuel 0 q pad v [] (v ++ rest) bytes is.before is.stale is.behind p end
          (1 + (1 + d)) is.each tt is.few is.small (omega (arith, low)) is.room is.bytes_lem is.here
          (Runs-bind tell _ end (v ++ rest) bytes bytes bytes end end end 1 (1 + d)
            (Runs-tell bytes end)
            (λ i. rw (is_positive q pos low) (
              Runs-then (seek q) (read_blocks (read_be k) (skip_wide k) fuel end v) (v ++ rest)
                bytes bytes bytes end q end 1 d (Runs-seek q bytes end)
                (Runs-later end nonzero q e' rest m d ch fuel (omega (arith, num, enough)) v
                  (Filled (In k) v is.each))
                i)))
          b
      ∙ λ i. ok (some (sym all i), at bytes (sym is.end i) b)

  rounds-calls : (p e : ℕ) (vs : List (Option ℕ)) (n c : ℕ) → Chained k bytes p e vs n c → n ≤ c
  rounds-calls p e vs n c (last v pad is all one calls) = omega (arith, one, calls)
  rounds-calls p e vs n c (more v pad q e' m d rest is pos low ch all num calls) =
      omega (arith, num, calls, rounds-calls q e' rest m d ch)

  -- Where the blocks of an array of numbers of `k` bytes are linked by their offsets, each to the
  -- next one and the last one with 0, with any padding, sizes below 2^31 and offsets below 2^63:
  -- the loop ends after one round for each block, and it and `read_array`, with one call more
  -- than the blocks take, yield the elements of all blocks in order, and end where the first
  -- block ends.
  pub read_array-Chained :
      (p e : ℕ) (vs : List (Option ℕ)) (n c b : ℕ)
      → Chained k bytes p e vs n c
      → (read_blocks (read_be k) (skip_wide k) n 0 [] (at bytes p (1 + c + b))
          ≡ ok (some vs, at bytes e b))
        × (read_array (read_be k) (skip_wide k) [] (at bytes p (1 + c + b))
            ≡ ok (some vs, at bytes e b))
  unfolding read_array
  read_array-Chained p e vs n c b chain = (
    Runs-chain p e vs n c chain n (omega arith) b,
    Runs-chain p e vs n c chain (suc (1 + c + b)) (omega (arith, rounds-calls p e vs n c chain)) b,
  )
