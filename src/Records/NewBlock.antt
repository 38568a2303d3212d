-- ===== src/Records/NewBlock.antt =====
-- Elements of an array that are written over others, and a new block at the end of the file.
use isam_db_c_language.Base.{
  ℕ, ◌+◌, ◌≡◌, refl, ap, sym, ◌∙◌, arith, List, [], ◌∷◌, ◌++◌, Option, none, some, length,
  length-append, append_assoc, append-nil, All,
}
use isam_db_c_language.Io.{◌>>◌, pure, seek, seek_end, write_be}
use isam_db_c_language.Io.Bytes.{be, length-be}
use isam_db_c_language.Records.ArrayLayout.{Points, elements_bytes, elements_calls}
use isam_db_c_language.Records.Blocks.{put_elements, append_block}
use isam_db_c_language.Records.Shrink.{split, length-elements_bytes}
use isam_db_c_language.Records.Overwrites.{
  Runs, Runs-pure, Runs-bind, Runs-then, Runs-to, Runs-seek, Runs-seek_end, Runs-write_be,
  Runs-append_be,
}

-- The first elements over as many.
pub Runs-put_over :
    (P : ℕ → Type 0) (k : ℕ) (v w : List (Option ℕ)) (bytes a old tail : List ℕ) (p : ℕ)
    → All (Points P) v
    → bytes ≡ a ++ (old ++ tail)
    → p ≡ length a
    → length old ≡ elements_calls k v
    → Runs
        (put_elements (write_be k) (length v) (v ++ w) (v ++ w))
        w
        bytes
        p
        (a ++ (elements_bytes (be k) v ++ tail))
        (p + elements_calls k v)
        (elements_calls 1 v)
unfolding put_elements elements_bytes elements_calls
Runs-put_over P k [] w bytes a [] tail p h is here same =
    Runs-to (pure w) w bytes bytes _ p p _ 0 (Runs-pure w bytes p) is (omega arith)
Runs-put_over P k [] w bytes a (x ∷ old) tail p h is here same = absurd (omega (arith, same))
Runs-put_over P k (none ∷ v) w bytes a old tail p h is here same = absurd h.0
Runs-put_over P k (some x ∷ v) w bytes a old tail p h is here same =
    let parts = split old k (elements_calls k v) same in
    let o = parts.0 in
    let r = parts.1 in
    let first =
      Runs-write_be k x bytes a o (r ++ tail) p
        (is ∙ ap (λ (l : List ℕ). a ++ (l ++ tail)) (parts.2) ∙ ap (◌++◌ a) (append_assoc o r tail))
        here (parts.3) in
    let rest =
      Runs-put_over P k v w _ (a ++ be k x) r tail (p + k) (h.1)
        (sym (append_assoc a (be k x) (r ++ tail)))
        (omega (arith, here, length-append a (be k x), length-be k x)) (parts.4) in
    Runs-to (write_be k x >> put_elements (write_be k) (length v) (v ++ w) (v ++ w)) w bytes _ _ p _
      _ (1 + elements_calls 1 v)
      (Runs-then (write_be k x) (put_elements (write_be k) (length v) (v ++ w) (v ++ w)) w bytes _ _
        p (p + k) _ 1 (elements_calls 1 v) first rest)
      (append_assoc a (be k x) _ ∙ ap (◌++◌ a) (sym (append_assoc (be k x) _ tail))) (omega arith)

-- All elements at the end of the file.
Runs-put_end :
    (P : ℕ → Type 0) (k : ℕ) (v : List (Option ℕ)) (bytes : List ℕ) (p : ℕ)
    → All (Points P) v
    → p ≡ length bytes
    → Runs
        (put_elements (write_be k) (length v) v v)
        []
        bytes
        p
        (bytes ++ elements_bytes (be k) v)
        (p + elements_calls k v)
        (elements_calls 1 v)
unfolding put_elements elements_bytes elements_calls
Runs-put_end P k [] bytes p h here =
    Runs-to (pure []) [] bytes bytes _ p p _ 0 (Runs-pure [] bytes p) (sym (append-nil bytes))
      (omega arith)
Runs-put_end P k (none ∷ v) bytes p h here = absurd h.0
Runs-put_end P k (some x ∷ v) bytes p h here =
    let rest =
      Runs-put_end P k v (bytes ++ be k x) (p + k) (h.1)
        (omega (arith, here, length-append bytes (be k x), length-be k x)) in
    Runs-to (write_be k x >> put_elements (write_be k) (length v) v v) [] bytes _ _ p _ _
      (1 + elements_calls 1 v)
      (Runs-then (write_be k x) (put_elements (write_be k) (length v) v v) [] bytes _ _ p (p + k) _
        1 (elements_calls 1 v) (Runs-append_be k x bytes p here) rest)
      (append_assoc bytes (be k x) _) (omega arith)

-- The bytes of a new block.
abbrev pub last_bytes : ℕ → List (Option ℕ) → List ℕ
last_bytes k w = be 4 (length w) ++ (be 4 0 ++ (elements_bytes (be k) w ++ be 8 0))

abbrev pub append_calls : List (Option ℕ) → ℕ
append_calls w = 1 + (1 + (1 + (elements_calls 1 w + (1 + (1 + 1)))))

-- `head` is what stands before the offset of the next block.
pub Runs-append_block :
    (P : ℕ → Type 0) (k : ℕ) (w : List (Option ℕ)) (head next z : List ℕ) (q g : ℕ)
    → All (Points P) w
    → length next ≡ 8
    → g ≡ length head
    → Runs
        (append_block (write_be k) g w)
        tt
        (head ++ (next ++ z))
        q
        (head ++ (be 8 (length (head ++ (next ++ z))) ++ (z ++ last_bytes k w)))
        (g + 8)
        (append_calls w)
unfolding append_block
Runs-append_block P k w head next z q g h link here =
    let s = head ++ (next ++ z) in
    let e = length s in
    let s1 = s ++ be 4 (length w) in
    let s2 = s1 ++ be 4 0 in
    let s3 = s2 ++ elements_bytes (be k) w in
    let s4 = s3 ++ be 8 0 in
    let t = head ++ (be 8 e ++ (z ++ last_bytes k w)) in
    let at1 : e + 4 ≡ length s1 =
      omega (arith, length-append s (be 4 (length w)), length-be 4 (length w)) in
    let at2 : e + 4 + 4 ≡ length s2 =
      omega (arith, at1, length-append s1 (be 4 0), length-be 4 0) in
    let p3 = e + 4 + 4 + elements_calls k w in
    let at3 : p3 ≡ length s3 =
      omega (arith, at2, length-append s2 (elements_bytes (be k) w), length-elements_bytes k w) in
    Runs-bind seek_end _ e tt s s t q e (g + 8) 1 _ (Runs-seek_end s q) (
      Runs-then (write_be 4 (length w)) _ tt s s1 t e (e + 4) (g + 8) 1 _
        (Runs-append_be 4 (length w) s e refl)
        (Runs-then (write_be 4 0) _ tt s1 s2 t (e + 4) (e + 4 + 4) (g + 8) 1 _
          (Runs-append_be 4 0 s1 (e + 4) at1)
          (Runs-bind (put_elements (write_be k) (length w) w w) _ [] tt s2 s3 t (e + 4 + 4) p3
            (g + 8) (elements_calls 1 w) _ (Runs-put_end P k w s2 (e + 4 + 4) h at2)
            (Runs-then (write_be 8 0) (seek g >> write_be 8 e) tt s3 s4 t p3 (p3 + 8) (g + 8) 1
              (1 + 1) (Runs-append_be 8 0 s3 p3 at3)
              (Runs-then (seek g) (write_be 8 e) tt s4 s4 t (p3 + 8) g (g + 8) 1 1
                (Runs-seek g s4 (p3 + 8))
                (Runs-write_be 8 e s4 head next (z ++ last_bytes k w) g (simp (append_assoc)) here
                  link))))))
