-- ===== src/Records/Shrink.antt =====
-- An array of numbers written over a longer one that stands in one block.
use isam_db_c_language.Base.{
  ℕ, zero, suc, ◌+◌, ◌-◌, ◌*◌, ◌^◌, ◌<◌, ◌≡◌, refl, ap, sym, ◌∙◌, arith, List, [], ◌∷◌, ◌++◌,
  Option, none, some, ok, length, length-append, append_assoc, All, ltb, leb, true, Bool,
  if◌then◌else◌,
}
use isam_db_c_language.Io.{◌>>◌, pure, seek, write_be}
use isam_db_c_language.Io.Bytes.{be, length-be}
use isam_db_c_language.Io.Wire.{bind-ok}
use isam_db_c_language.IndexFile.Indexes.{move_in_file_bytes}
use isam_db_c_language.Records.Arrays.{write_elements}
use isam_db_c_language.Records.ArrayLayout.{Points, elements_bytes, elements_calls}
use isam_db_c_language.Records.Places.{at}
use isam_db_c_language.Records.Blocks.{
  move_back, read_int, shrink_block, last_block, update_blocks, update_array,
}
use isam_db_c_language.Records.Overwrites.{
  Runs, Runs-pure, Runs-bind, Runs-then, Runs-to, Runs-move, Runs-back, Runs-read_int,
  Runs-write_be,
}

-- The bytes of a block.
abbrev pub block : ℕ → ℕ → List ℕ → List ℕ → List ℕ → List ℕ → List ℕ
block size pad elements padding next z =
    be 4 size ++ (be 4 pad ++ (elements ++ (padding ++ (next ++ z))))

pub split :
    (old : List ℕ) (k m : ℕ)
    → length old ≡ k + m
    → (o : List ℕ) × (r : List ℕ) × (old ≡ o ++ r) × (length o ≡ k) × (length r ≡ m)
split old zero m h = ([], old, refl, refl, omega (arith, h))
split [] (suc k) m h = absurd (omega (arith, h))
split (x ∷ old) (suc k) m h =
    let r = split old k m (omega (arith, h)) in (x ∷ r.0, r.1, ap (◌∷◌ x) (r.2), ap suc (r.3), r.4)

Runs-elements :
    (P : ℕ → Type 0) (k : ℕ) (v : List (Option ℕ)) (bytes a old tail : List ℕ) (p : ℕ)
    → All (Points P) v
    → bytes ≡ a ++ (old ++ tail)
    → p ≡ length a
    → length old ≡ elements_calls k v
    → Runs
        (write_elements (write_be k) v)
        tt
        bytes
        p
        (a ++ (elements_bytes (be k) v ++ tail))
        (p + elements_calls k v)
        (elements_calls 1 v)
unfolding write_elements elements_bytes elements_calls
Runs-elements P k [] bytes a [] tail p h is here same =
    Runs-to (pure tt) tt bytes bytes _ p p _ 0 (Runs-pure tt bytes p) is (omega arith)
Runs-elements P k [] bytes a (x ∷ old) tail p h is here same = absurd (omega (arith, same))
Runs-elements P k (none ∷ v) bytes a old tail p h is here same = absurd h.0
Runs-elements P k (some x ∷ v) bytes a old tail p h is here same =
    let parts = split old k (elements_calls k v) same in
    let o = parts.0 in
    let r = parts.1 in
    let first =
      Runs-write_be k x bytes a o (r ++ tail) p
        (is ∙ ap (λ (l : List ℕ). a ++ (l ++ tail)) (parts.2) ∙ ap (◌++◌ a) (append_assoc o r tail))
        here (parts.3) in
    let rest =
      Runs-elements P k v _ (a ++ be k x) r tail (p + k) (h.1)
        (sym (append_assoc a (be k x) (r ++ tail)))
        (omega (arith, here, length-append a (be k x), length-be k x)) (parts.4) in
    Runs-to (write_be k x >> write_elements (write_be k) v) tt bytes _ _ p _ _
      (1 + elements_calls 1 v)
      (Runs-bind (write_be k x) (λ _. write_elements (write_be k) v) tt tt bytes _ _ p (p + k) _ 1
        (elements_calls 1 v) first rest)
      (append_assoc a (be k x) _ ∙ ap (◌++◌ a) (sym (append_assoc (be k x) _ tail))) (omega arith)

pub length-elements_bytes :
    (k : ℕ) (v : List (Option ℕ)) → length (elements_bytes (be k) v) ≡ elements_calls k v
unfolding elements_bytes elements_calls
length-elements_bytes k [] = refl
length-elements_bytes k (none ∷ v) = length-elements_bytes k v
length-elements_bytes k (some x ∷ v) = omega (
  arith,
  length-append (be k x) (elements_bytes (be k) v),
  length-be k x,
  length-elements_bytes k v,
)

module _ (P : ℕ → Type 0) (k sz pad : ℕ) (v : List (Option ℕ)) (each : All (Points P) v)
    (shorter : length v < sz) (sized : sz < 2 ^ 31) (small : pad < 2 ^ 31) (e d : Bool)
    (a old stale next z : List ℕ) (over : length old ≡ elements_calls k v)
    (rest : length stale ≡ (pad + (sz - length v)) * k) (link : length next ≡ 8) where
  abbrev more : ℕ
  more = pad + (sz - length v)

  abbrev new : List ℕ
  new = elements_bytes (be k) v

  Runs-elements_on :
      Runs
        (write_elements (write_be k) v >> (move_in_file_bytes (more * k) >> write_be 8 0))
        tt
        (a ++ (be 4 (length v) ++ (be 4 more ++ (old ++ (stale ++ (next ++ z))))))
        (length a + 4 + 4)
        (a ++ block (length v) more new stale (be 8 0) z)
        (length a + 4 + 4 + elements_calls k v + more * k + 8)
        (elements_calls 1 v + (2 + 1))
  Runs-elements_on =
      let p = length a + 4 + 4 in
      let q = p + elements_calls k v in
      let ahead = a ++ (be 4 (length v) ++ be 4 more) in
      let s2 = a ++ (be 4 (length v) ++ (be 4 more ++ (old ++ (stale ++ (next ++ z))))) in
      let s2' = ahead ++ (new ++ (stale ++ (next ++ z))) in
      let s3 = a ++ block (length v) more new stale (be 8 0) z in
      let here : p ≡ length ahead = omega (
        arith,
        length-append a (be 4 (length v) ++ be 4 more),
        length-append (be 4 (length v)) (be 4 more),
        length-be 4 (length v),
        length-be 4 more,
      ) in
      let there : q + more * k ≡ length (ahead ++ (new ++ stale)) = omega (
        arith,
        here,
        length-append ahead (new ++ stale),
        length-append new stale,
        rest,
        length-elements_bytes k v,
      ) in
      Runs-then (write_elements (write_be k) v) _ tt s2 s2' s3 p q (q + more * k + 8) _ (2 + 1)
        (Runs-elements P k v s2 ahead old (stale ++ (next ++ z)) p each (simp (append_assoc)) here
          over)
        (Runs-then (move_in_file_bytes (more * k)) _ tt s2' s2' s3 q (q + more * k) _ 2 1
          (Runs-move (more * k) s2' q)
          (Runs-to (write_be 8 0) tt s2' _ s3 (q + more * k) _ _ 1
            (Runs-write_be 8 0 s2' (ahead ++ (new ++ stale)) next z (q + more * k)
              (simp (append_assoc)) there link)
            (simp (append_assoc)) refl))

  Runs-shrink :
      Runs
        (shrink_block (write_be k) k e d v sz v)
        tt
        (a ++ block sz pad old stale next z)
        (length a + 4)
        (a ++ block (length v) more new stale (be 8 0) z)
        (length a + 4 + 4 + elements_calls k v + more * k + 8)
        (2 + (1 + (1 + (2 + (1 + (elements_calls 1 v + (2 + 1)))))))
  unfolding shrink_block
  Runs-shrink =
      let p = length a in
      let s0 = a ++ block sz pad old stale next z in
      let s1 = a ++ (be 4 (length v) ++ (be 4 pad ++ (old ++ (stale ++ (next ++ z))))) in
      let s2 = a ++ (be 4 (length v) ++ (be 4 more ++ (old ++ (stale ++ (next ++ z))))) in
      let end = p + 4 + 4 + elements_calls k v + more * k + 8 in
      let s3 = a ++ block (length v) more new stale (be 8 0) z in
      let assoc : (t : List ℕ) → a ++ (be 4 (length v) ++ t) ≡ (a ++ be 4 (length v)) ++ t =
        λ t. sym (append_assoc a (be 4 (length v)) t) in
      let here : p + 4 ≡ length (a ++ be 4 (length v)) =
        omega (arith, length-append a (be 4 (length v)), length-be 4 (length v)) in
      Runs-then (move_back 4) _ tt s0 s0 s3 (p + 4) p end 2 _ (Runs-back 4 s0 p) (
        Runs-then (write_be 4 (length v)) _ tt s0 s1 s3 p (p + 4) end 1 _
          (Runs-write_be 4 (length v) s0 a (be 4 sz) _ p refl refl (length-be 4 sz))
          (Runs-bind read_int _ pad tt s1 s1 s3 (p + 4) (p + 4 + 4) end 1 _
            (Runs-read_int pad s1 (a ++ be 4 (length v)) _ (p + 4) small (assoc _) here)
            (Runs-then (move_back 4) _ tt s1 s1 s3 (p + 4 + 4) (p + 4) end 2 _
              (Runs-back 4 s1 (p + 4))
              (Runs-then (write_be 4 more) _ tt s1 s2 s3 (p + 4) (p + 4 + 4) end 1 _
                (Runs-to (write_be 4 more) tt s1 _ s2 (p + 4) _ _ 1
                  (Runs-write_be 4 more s1 (a ++ be 4 (length v)) (be 4 pad) _ (p + 4) (assoc _)
                    here (length-be 4 pad))
                  (sym (assoc _)) refl)
                Runs-elements_on))))

  abbrev cost : ℕ
  cost = 2 + (1 + (1 + (2 + (1 + (elements_calls 1 v + (2 + 1))))))

  abbrev end : ℕ
  end = length a + 4 + 4 + elements_calls k v + more * k + 8

  Runs-last_block :
      Runs
        (last_block (write_be k) k e d v sz v)
        tt
        (a ++ block sz pad old stale next z)
        (length a + 4)
        (a ++ block (length v) more new stale (be 8 0) z)
        end
        cost
  unfolding last_block
  Runs-last_block b = let is : ltb (length v) sz ≡ true = ground arith in rw is (Runs-shrink b)

  Runs-update_blocks :
      (j : ℕ)
      → Runs
          (update_blocks (write_be k) k e d v (suc j) 0 v)
          0
          (a ++ block sz pad old stale next z)
          (length a)
          (a ++ block (length v) more new stale (be 8 0) z)
          end
          (1 + (cost + 0))
  unfolding update_blocks
  Runs-update_blocks j =
      let s0 = a ++ block sz pad old stale next z in
      let s3 = a ++ block (length v) more new stale (be 8 0) z in
      let is : leb (length v) sz ≡ true = ground arith in
      Runs-bind read_int _ sz 0 s0 s0 s3 (length a) (length a + 4) end 1 (cost + 0)
        (Runs-read_int sz s0 a _ (length a) sized refl refl)
        (λ b. rw is (
          Runs-bind (last_block (write_be k) k e d v sz v) (λ _. pure 0) tt 0 s0 s3 s3
            (length a + 4) end end cost 0 Runs-last_block (Runs-pure 0 s3 end) b))

  -- The whole update.
  pub update_array-shorter :
      (b : ℕ)
      → update_array
          (write_be k)
          k
          e
          d
          v
          (at (a ++ block sz pad old stale next z) (length a) (11 + elements_calls 1 v + b))
        ≡ ok (some tt, at (a ++ block (length v) more new stale (be 8 0) z) end b)
  unfolding update_array
  update_array-shorter b =
      let s0 = a ++ block sz pad old stale next z in
      let s3 = a ++ block (length v) more new stale (be 8 0) z in
      let c = 11 + elements_calls 1 v + b in
      let calls : c ≡ 1 + (cost + 0) + b = omega arith in
      bind-ok (update_blocks (write_be k) k e d v (suc c) 0 v)
        (λ back. if ltb 0 back then seek back else pure tt) (at s0 (length a) c) (at s3 end b) 0
        (ap (λ (n : ℕ). update_blocks (write_be k) k e d v (suc c) 0 v (at s0 (length a) n)) calls
          ∙ Runs-update_blocks c b)
