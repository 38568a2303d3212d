-- ===== src/Ram/Puts.antt =====
-- Proof rules for code that appends to the file in memory.
use mathlib.Core.Path.{ap₂}
use isam_db_c_language.Base.{
  ℕ, ◌+◌, ◌≤◌, ◌≡◌, refl, ap, sym, ◌∙◌, arith, true, List, [], ◌++◌, Outcome, ok, ◌>>=◌, leb,
  length, take, drop, replicate, append_assoc, append-nil, length-append, length-drop,
}
use isam_db_c_language.Io.Bytes.{overwrite, take-length_append, drop-length_append, drop-add}
use isam_db_c_language.Ram.{RamFile, put}

-- The bytes that are written, and the rest of the memory.
abbrev pub ram : List ℕ → List ℕ → RamFile
ram used free = record { mem = used ++ free; size = length used }

-- `m` appends `d`, where there is room.
abbrev pub Puts : (RamFile → Outcome RamFile) → List ℕ → Type 0
Puts m d =
    (used free : List ℕ)
    → length d ≤ length free
    → m (ram used free) ≡ ok (ram (used ++ d) (drop (length d) free))

overwrite-used :
    (used free d : List ℕ)
    → overwrite (used ++ free) (length used) d ≡ used ++ d ++ drop (length d) free
unfolding overwrite
overwrite-used used free d =
    ap₂ (λ (a b : List ℕ). a ++ d ++ b)
      (ap (take (length used)) (append_assoc used free (replicate (length used) 0))
        ∙ take-length_append used _ (length used) refl)
      (drop-add (used ++ free) (length used) (length d)
        ∙ ap (drop (length d)) (drop-length_append used free (length used) refl))

pub Puts-put : (d : List ℕ) → Puts (put d) d
unfolding put
Puts-put d used free room =
    let fits : leb (length used + length d) (length (used ++ free)) ≡ true =
      ground (arith, length-append used free) in
    rw fits
      (λ i. ok (record { mem = overwrite-used used free d i; size = sym (length-append used d) i }))

pub Puts-none : Puts ok []
Puts-none used free room = λ i. ok (ram (sym (append-nil used) i) free)

pub Puts-seq :
    (m k : RamFile → Outcome RamFile) (d d' : List ℕ)
    → Puts m d
    → Puts k d'
    → Puts (λ r. m r >>= k) (d ++ d')
Puts-seq m k d d' p q used free room =
    ap (λ (o : Outcome RamFile). o >>= k) (p used free (omega (arith, length-append d d')))
    ∙ q (used ++ d) (drop (length d) free)
        (omega (arith, length-append d d', length-drop (length d) free))
    ∙ λ i. ok (
        ram (append_assoc used d d' i) (
          (sym (drop-add free (length d) (length d'))
              ∙ ap (λ (n : ℕ). drop n free) (sym (length-append d d')))
            i))
