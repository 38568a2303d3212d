-- ===== src/Records/Flags.antt =====
-- `field_set` of a record: its positions in the file, and the flags that `read_file` makes of them.
use isam_db_c_language.Base.{
  ℕ, zero, suc, ◌+◌, ◌-◌, ◌<◌, ◌≤◌, ◌≡◌, refl, ap, sym, ◌∙◌, arith, Bool-cases, ◌==◌, true, List,
  [], ◌∷◌, ◌++◌, ok, length, take, replicate, All, set, inl, inr, some, append_assoc,
}
use isam_db_c_language.Io.{Io, read}
use isam_db_c_language.Io.Bytes.{be, length-be}
use isam_db_c_language.Io.Wire.{Reads, Reads-pure, Reads-bind, Reads-lift, Reads-read}
use isam_db_c_language.Records.{max_field_nr, Field}
use isam_db_c_language.Records.RecordLayout.{AreFields, positions, indexes_bytes, indexes_calls}
use isam_db_c_language.Records.Store.{attempt, next_index, mark, read_indexes}

-- The flags with those at the positions set to 1.
abbrev pub mark_all : List ℕ → List ℕ → List ℕ
mark_all [] flags = flags
mark_all (i ∷ is) flags = mark_all is (set flags i 1)

Reads-attempt :
    {A : Type 0} (m : Io A) (d : List ℕ) (n : ℕ) (a : A)
    → Reads m d n a
    → Reads (attempt m) d n (some a)
unfolding attempt
Reads-attempt m d n a p f s e h = rw (attempt, p f s e h) refl

next_index-be : (i j : ℕ) → i < 256 → next_index (be 1 i) j ≡ i
unfolding next_index be
next_index-be i j h = ground arith

mark-small : (flags : List ℕ) (i : ℕ) → i < max_field_nr → mark flags i ≡ ok (set flags i 1)
unfolding mark
mark-small flags i h = ground arith

pub Reads-indexes :
    (is : List ℕ)
    → All (λ (i : ℕ). i < max_field_nr) is
    → (j : ℕ) (flags : List ℕ)
    → Reads
        (read_indexes (length is) j flags)
        (indexes_bytes is)
        (indexes_calls is)
        (mark_all is flags, true)
unfolding read_indexes indexes_bytes indexes_calls
Reads-indexes [] h j flags = Reads-pure (flags, true)
Reads-indexes (i ∷ is) h j flags =
    let small : i < 256 = omega (arith, h.0) in
    Reads-bind (attempt (read 1)) _ (be 1 i) _ 1 _ (some (be 1 i)) _
      (Reads-attempt (read 1) (be 1 i) 1 (be 1 i) (Reads-read (be 1 i) 1 (length-be 1 i)))
      (rw (next_index-be i j small) (
        Reads-lift (mark flags i) (set flags i 1) (read_indexes (length is) i) _ _ _
          (mark-small flags i (h.0)) (Reads-indexes is (h.1) i (set flags i 1))))

pub positions-small :
    (n i m : ℕ) (flags : List ℕ) → i + n ≤ m → All (λ (j : ℕ). j < m) (positions n i flags)
unfolding positions
positions-small zero i m flags h = tt
positions-small (suc n) i m [] h = tt
positions-small (suc n) i m (b ∷ flags) h =
    let rest = positions-small n (suc i) m flags (omega arith) in
    elim (Bool-cases (b == 0)) [ inl e ↦ rw e rest | inr e ↦ rw e (omega arith, rest) ]

set-here : (p rest : List ℕ) (v : ℕ) → set (p ++ 0 ∷ rest) (length p) v ≡ p ++ v ∷ rest
set-here [] rest v = refl
set-here (x ∷ p) rest v = ap (◌∷◌ x) (set-here p rest v)

length-snoc : (p : List ℕ) (b : ℕ) → length (p ++ b ∷ []) ≡ suc (length p)
length-snoc [] b = refl
length-snoc (x ∷ p) b = ap suc (length-snoc p b)

-- Marking the positions of flags after `p` in an array of zeros gives the flags.
abbrev Marked : ℕ → ℕ → List ℕ → List ℕ → Type 0
Marked n m flags p =
    mark_all (positions n (length p) flags) (p ++ replicate m 0)
    ≡ p ++ (take n flags ++ replicate (m - n) 0)

Marked-snoc :
    (n m : ℕ) (flags p : List ℕ) (v : ℕ)
    → Marked n m flags (p ++ v ∷ [])
    → mark_all (positions n (suc (length p)) flags) (p ++ v ∷ replicate m 0)
      ≡ p ++ v ∷ (take n flags ++ replicate (m - n) 0)
Marked-snoc n m flags p v e =
    ap (λ (k : ℕ). mark_all (positions n k flags) (p ++ v ∷ replicate m 0)) (sym (length-snoc p v))
    ∙ ap (mark_all (positions n (length (p ++ v ∷ [])) flags))
        (sym (append_assoc p (v ∷ []) (replicate m 0)))
    ∙ e
    ∙ append_assoc p (v ∷ []) (take n flags ++ replicate (m - n) 0)

positions-Marked :
    (n m : ℕ) (flags p : List ℕ) (fields : List Field)
    → AreFields n flags fields
    → n ≤ m
    → Marked n m flags p
unfolding positions
positions-Marked zero m flags p fields h le = ap (λ (k : ℕ). p ++ replicate k 0) (omega arith)
positions-Marked (suc n) m [] p fields h le = absurd h
positions-Marked (suc n) m (b ∷ flags) p [] h le = absurd h
positions-Marked (suc n) zero (b ∷ flags) p (x ∷ fields) h le = absurd (omega arith)
positions-Marked (suc n) (suc m) (b ∷ flags) p (x ∷ fields) (h, hs) le =
    let less : suc m - suc n ≡ m - n = omega arith in
    let rest = λ (v : ℕ).
      Marked-snoc n m flags p v
        (positions-Marked n m flags (p ++ v ∷ []) fields hs (omega arith)) in
    elim h [
      | inl e ↦ rw (e, less) (rest 0)
      | inr e ↦
          rw (e.0, less)
            (ap (mark_all (positions n (suc (length p)) flags)) (set-here p (replicate m 0) 1)
              ∙ rest 1)
    ]

pub marks-zeros :
    (n : ℕ) (flags : List ℕ) (fields : List Field)
    → AreFields n flags fields
    → n ≤ max_field_nr
    → mark_all (positions n 0 flags) (replicate max_field_nr 0)
      ≡ take n flags ++ replicate (max_field_nr - n) 0
marks-zeros n flags fields h le = positions-Marked n max_field_nr flags [] fields h le
