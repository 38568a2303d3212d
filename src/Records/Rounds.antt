-- ===== src/Records/Rounds.antt =====
-- One round of the loop that reads the blocks of an array of numbers.
use isam_db_c_language.Base.{
  ℕ, zero, suc, ◌+◌, ◌*◌, ◌^◌, ◌<◌, ◌≡◌, refl, ap, sym, ◌∙◌, arith, List, [], ◌∷◌, ◌++◌, ◌==◌,
  Option, none, some, ok, length, length-append, append_assoc, All, true, false, drop,
  if◌then◌else◌,
}
use isam_db_c_language.Io.{Io, ◌>>=◌, ◌>>◌, pure, read_be, tell, seek}
use isam_db_c_language.Io.Bytes.{be, length-be}
use isam_db_c_language.Io.Wire.{Reads, Reads-read_be}
use isam_db_c_language.Records.Recall.{reread_same}
use isam_db_c_language.Records.Arrays.{read_blocks, read_elements, loops, skip_wide, positive}
use isam_db_c_language.Records.ArrayLayout.{
  Points, elements_bytes, elements_calls, reread, Reads-elements, loops-small,
}
use isam_db_c_language.Records.Places.{at, starts}
use isam_db_c_language.Records.Shrink.{block, length-elements_bytes}
use isam_db_c_language.Records.ShrinkRead.{In}
use isam_db_c_language.Records.Extend.{pad_calls}
use isam_db_c_language.Records.Overwrites.{
  Runs, Runs-pure, Runs-bind, Runs-then, Runs-to, Runs-move, Runs-read_be,
}

-- A reader on what stands at the position.
pub Runs-Reads :
    {A : Type 0} (m : Io A) (d s bytes : List ℕ) (p n : ℕ) (x : A)
    → Reads m d n x
    → drop p bytes ≡ d ++ s
    → Runs m x bytes p bytes (p + length d) n
Runs-Reads m d s bytes p n x reads there b =
    reads (at bytes p (n + b)) s there (omega arith)
    ∙ ap (λ (c : ℕ). ok (some x, at bytes (p + length d) c)) (omega arith)

pub Filled :
    (P : ℕ → Type 0) (v : List (Option ℕ)) → All (Points P) v → All (Points (λ (x : ℕ). Unit {0})) v
Filled P [] h = tt
Filled P (none ∷ v) h = absurd h.0
Filled P (some x ∷ v) h = (tt, Filled P v h.1)

Runs-read_elements :
    (k : ℕ) (v acc : List (Option ℕ)) (bytes a s : List ℕ) (p : ℕ)
    → All (Points (In k)) v
    → All (Points (λ (x : ℕ). Unit {0})) acc
    → 2 * length v < 256 ^ 4
    → bytes ≡ a ++ (elements_bytes (be k) v ++ s)
    → p ≡ length a
    → Runs
        (read_elements (read_be k) (loops (length v)) acc)
        (acc ++ v)
        bytes
        p
        bytes
        (p + elements_calls k v)
        (elements_calls 1 v)
Runs-read_elements k v acc bytes a s p each full few is here b =
    let new = elements_bytes (be k) v in
    ap (λ (n : ℕ). read_elements (read_be k) n acc (at bytes p (elements_calls 1 v + b)))
      (loops-small (length v) few)
    ∙ Runs-Reads (read_elements (read_be k) (length v) acc) new s bytes p (elements_calls 1 v)
        (acc ++ reread (λ x. x) v)
        (Reads-elements (read_be k) (skip_wide k) (be k) (λ x. x) (In k) 1
          (λ x h. Reads-read_be k x h) v acc each full)
        (starts bytes a (new ++ s) p is here) b
    ∙ λ i.
        ok (some (acc ++ reread_same (In k) v each i), at bytes (p + length-elements_bytes k v i) b)

Runs-skip :
    (k pad : ℕ) (bytes : List ℕ) (p : ℕ)
    → pad < 2 ^ 31
    → Runs
        (if positive 4 pad then skip_wide k pad else pure tt)
        tt
        bytes
        p
        bytes
        (p + pad * k)
        (pad_calls pad)
unfolding skip_wide positive
Runs-skip k zero bytes p small b =
    Runs-to (pure tt) tt bytes bytes bytes p p _ 0 (Runs-pure tt bytes p) refl (omega arith) b
Runs-skip k (suc pad) bytes p small b =
    let is : positive 4 (suc pad) ≡ true = ground arith in rw is (Runs-move (suc pad * k) bytes p b)

-- What a round does after the offset of the next block.
abbrev pub onward : ℕ → ℕ → ℕ → ℕ → List (Option ℕ) → Io (List (Option ℕ))
onward k fuel next back v = (if back == 0 then tell else pure back) >>= λ here.
    elim (positive 8 next) [
      | true ↦ seek next >> read_blocks (read_be k) (skip_wide k) fuel here v
      | false ↦ seek here >> pure v
    ]

pub Runs-round :
    (k fuel back next pad : ℕ) (v acc x : List (Option ℕ)) (bytes a stale z : List ℕ) (p q c : ℕ)
    → All (Points (In k)) v
    → All (Points (λ (x : ℕ). Unit {0})) acc
    → length v < 2 ^ 31
    → pad < 2 ^ 31
    → next < 256 ^ 8
    → length stale ≡ pad * k
    → bytes ≡ a ++ block (length v) pad (elements_bytes (be k) v) stale (be 8 next) z
    → p ≡ length a
    → Runs
        (onward k fuel next back (acc ++ v))
        x
        bytes
        (p + 4 + 4 + elements_calls k v + pad * k + 8)
        bytes
        q
        c
    → Runs
        (read_blocks (read_be k) (skip_wide k) (suc fuel) back acc)
        x
        bytes
        p
        bytes
        q
        (1 + (1 + (elements_calls 1 v + (pad_calls pad + (1 + c)))))
unfolding read_blocks
Runs-round k fuel back next pad v acc x bytes a stale z p q c each full few small near same is here
      on =
    let n = length v in
    let new = elements_bytes (be k) v in
    let a1 = a ++ be 4 n in
    let a2 = a1 ++ be 4 pad in
    let a3 = a2 ++ (new ++ stale) in
    let p2 = p + 4 + 4 in
    let p3 = p2 + elements_calls k v in
    let p4 = p3 + pad * k in
    let at1 : p + 4 ≡ length a1 = omega (arith, here, length-append a (be 4 n), length-be 4 n) in
    let at2 : p2 ≡ length a2 = omega (arith, at1, length-append a1 (be 4 pad), length-be 4 pad) in
    let at4 : p4 ≡ length a3 = omega (
      arith,
      at2,
      length-append a2 (new ++ stale),
      length-append new stale,
      length-elements_bytes k v,
      same,
    ) in
    Runs-bind (read_be 4) _ n x bytes bytes bytes p (p + 4) q 1 _
      (Runs-read_be 4 n bytes a _ p (omega (arith, few)) is here)
      (Runs-bind (read_be 4) _ pad x bytes bytes bytes (p + 4) p2 q 1 _
        (Runs-read_be 4 pad bytes a1 _ (p + 4) (omega (arith, small))
          (is ∙ sym (append_assoc a (be 4 n) _)) at1)
        (Runs-bind (read_elements (read_be k) (loops n) acc) _ (acc ++ v) x bytes bytes bytes p2 p3
          q (elements_calls 1 v) _
          (Runs-read_elements k v acc bytes a2 (stale ++ (be 8 next ++ z)) p2 each full
            (omega (arith, few)) (is ∙ simp (append_assoc)) at2)
          (Runs-then (if positive 4 pad then skip_wide k pad else pure tt) _ x bytes bytes bytes p3
            p4 q (pad_calls pad) _ (Runs-skip k pad bytes p3 small)
            (Runs-bind (read_be 8) (λ m. onward k fuel m back (acc ++ v)) next x bytes bytes bytes
              p4 (p4 + 8) q 1 c
              (Runs-read_be 8 next bytes a3 z p4 near (is ∙ simp (append_assoc)) at4) on))))
