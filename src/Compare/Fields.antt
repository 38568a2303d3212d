-- ===== src/Compare/Fields.antt =====
-- `compare_rec` on whole records, against the description of one pair of fields: where no two fields
-- are arrays with one counter, and where two are.
use isam_db_c_language.Base.{
  ℕ, zero, suc, ◌+◌, ◌≤◌, ◌≡◌, ◌≢◌, refl, ap, sym, ◌∙◌, arith, Bool, true, false, ◌&&◌, List, [],
  ◌∷◌, ok, length, ◌==◌, ltb, if◌then◌else◌, Option, none, some, Bool-cases, inl, inr,
}
use isam_db_c_language.Base.Int.{ℤ, pos, negsuc}
use isam_db_c_language.Records.{Value, Field, RecordF}
use isam_db_c_language.Compare.{
  Tally, Counters, count_up, compare_field, compare_fields, verdict, no_counts, compare_rec, dif,
}
use isam_db_c_language.Compare.Loop.{zeros, kind, Free, Keeps, compare_values-zeros}
use isam_db_c_language.Compare.Reference.{alike, Comparable, ZeroAlike, compare_values-alike}

-- Two fields of one number, and whether both are set.
pub record Pair : Type 0 where
  pub both : Bool
  pub left : Value
  pub right : Value

unfoldable pub pairs : ℕ → List ℕ → List ℕ → List Field → List Field → List Pair
pairs (suc n) (m ∷ ms) (m' ∷ ns) (f ∷ fs) (g ∷ gs) =
    record { both = (m == 1) && (m' == 1); left = f.content; right = g.content }
    ∷ pairs n ms ns fs gs
pairs _ _ _ _ _ = []

unfoldable pub record_pairs : RecordF → RecordF → List Pair
unfolding pairs
record_pairs src dest = pairs src.fields_num src.field_set dest.field_set src.fields dest.fields

-- The fields that are set in both records may be compared.
abbrev pub AllComparable : List Pair → Type 0
AllComparable [] = Unit
AllComparable (p ∷ ps) = (p.both ≡ true → Comparable p.left p.right) × AllComparable ps

abbrev pub Lacks : Value → List Pair → Type 0
Lacks v [] = Unit
Lacks v (p ∷ ps) = (p.both ≡ true → (k : _) → kind v ≡ some k → kind p.left ≢ some k) × Lacks v ps

-- Of each type of array at most one field is set in both records.
abbrev pub OnceEach : List Pair → Type 0
OnceEach [] = Unit
OnceEach (p ∷ ps) = (p.both ≡ true → Lacks p.left ps) × OnceEach ps

-- How many fields are not set in both.
unfoldable pub unset : List Pair → ℕ
unset [] = 0
unset (p ∷ ps) = if p.both then unset ps else suc (unset ps)

-- The counters after a field that is equal.
abbrev counted : Counters → Tally → Counters
counted c t = record {
  same = c.same + 1;
  active = c.active + 1;
  different = c.different;
  tally = t;
}

count_up-counted :
    (c : Counters) (b : Bool) (t : Tally)
    → c.same ≡ c.active
    → count_up c (some (b, t)) ≡ (if b then some (counted c t) else none)
unfolding count_up
count_up-counted c true t same = ground arith
count_up-counted c false t same = ground arith

abbrev Frees : Tally → List Pair → Type 0
Frees t [] = Unit
Frees t (p ∷ ps) = (p.both ≡ true → Free t p.left) × Frees t ps

Frees-Keeps :
    (v : Value) (t t' : Tally) (ps : List Pair)
    → Keeps v t t'
    → Lacks v ps
    → Frees t ps
    → Frees t' ps
Frees-Keeps v t t' [] keep lacks free = tt
Frees-Keeps v t t' (p ∷ ps) keep lacks free = (
  λ both k e. keep k (λ other. lacks.0 both k other e) ∙ free.0 both k e,
  Frees-Keeps v t t' ps keep lacks.1 free.1,
)

module _ (float_eq double_eq : ℕ → ℕ → Bool) where
  -- The number of the first field that is set in both records and differs; the first one's is `i`.
  unfoldable pub first_unlike : ℕ → List Pair → Option ℕ
  first_unlike i [] = none
  first_unlike i (p ∷ ps) =
      let rest = first_unlike (suc i) ps in
      if p.both then (if alike float_eq double_eq p.left p.right then rest else some i) else rest

  -- The result of the loop, from field `i` on, where `d` fields before are not set in both records:
  -- that number, or DIF where no field is set in both, or -1.
  unfoldable pub difference : ℕ → ℕ → ℕ → List Pair → ℤ
  unfolding first_unlike unset
  difference total d i ps = elim (first_unlike i ps) [
    | some j ↦ pos j
    | none ↦ if ltb 0 (d + unset ps) && (d + unset ps == total) then dif else negsuc 0
  ]

  difference-unset :
      (total d i : ℕ) (p : Pair) (ps : List Pair)
      → p.both ≡ false
      → difference total d i (p ∷ ps) ≡ difference total (d + 1) (suc i) ps
  unfolding difference first_unlike unset
  difference-unset total d i p ps e =
      let sum : d + suc (unset ps) ≡ d + 1 + unset ps = omega arith in ground (arith, e, sum)

  difference-alike :
      (total d i : ℕ) (p : Pair) (ps : List Pair)
      → p.both ≡ true
      → alike float_eq double_eq p.left p.right ≡ true
      → difference total d i (p ∷ ps) ≡ difference total d (suc i) ps
  unfolding difference first_unlike unset
  difference-alike total d i p ps e a = ground (arith, e, a)

  difference-unlike :
      (total d i : ℕ) (p : Pair) (ps : List Pair)
      → p.both ≡ true
      → alike float_eq double_eq p.left p.right ≡ false
      → difference total d i (p ∷ ps) ≡ pos i
  unfolding difference first_unlike unset
  difference-unlike total d i p ps e a = ground (arith, e, a)

  module _ (zf : ZeroAlike float_eq) (zd : ZeroAlike double_eq) where
    field-unset :
        (c : Counters) (m n : ℕ) (v w : Value)
        → ((m == 1) && (n == 1)) ≡ false
        → compare_field float_eq double_eq c m n v w
          ≡ ok (some (record c { different = c.different + 1 }))
    unfolding compare_field
    field-unset c m n v w e = rw e refl

    field-alike :
        (c : Counters) (m n : ℕ) (v w : Value)
        → ((m == 1) && (n == 1)) ≡ true
        → Comparable v w
        → Free c.tally v
        → c.same ≡ c.active
        → (t : Tally) × Keeps v c.tally t
          × (compare_field float_eq double_eq c m n v w
              ≡ ok (if alike float_eq double_eq v w then some (counted c t) else none))
    unfolding compare_field
    field-alike c m n v w e comparable free same =
        let (u, run) = compare_values-alike float_eq double_eq zf zd v w comparable in
        let (t, ran, keep) = compare_values-zeros float_eq double_eq v w c.tally _ u free run in
        (t, keep, rw e (rw ran (ap ok (count_up-counted c (alike float_eq double_eq v w) t same))))

    compare_fields-step :
        (total left i : ℕ) (c : Counters) (m n : ℕ) (ms ns : List ℕ) (f g : Field)
        (fs gs : List Field) (r : Option Counters)
        → compare_field float_eq double_eq c m n f.content g.content ≡ ok r
        → compare_fields float_eq double_eq total (suc left) i c (m ∷ ms) (n ∷ ns) (f ∷ fs) (g ∷ gs)
          ≡ elim r [
            | none ↦ ok (pos i)
            | some k ↦ compare_fields float_eq double_eq total left (suc i) k ms ns fs gs
          ]
    unfolding compare_fields
    compare_fields-step total left i c m n ms ns f g fs gs r e = rw e refl

    compare_fields-difference :
        (total left i : ℕ) (c : Counters) (ms ns : List ℕ) (fs gs : List Field)
        → left ≤ length ms
        → left ≤ length ns
        → left ≤ length fs
        → left ≤ length gs
        → AllComparable (pairs left ms ns fs gs)
        → OnceEach (pairs left ms ns fs gs)
        → Frees c.tally (pairs left ms ns fs gs)
        → c.same ≡ c.active
        → compare_fields float_eq double_eq total left i c ms ns fs gs
          ≡ ok (difference total c.different i (pairs left ms ns fs gs))
    unfolding pairs
    compare_fields-difference total zero i c ms ns fs gs p q r s comp once free same =
        unfold compare_fields in
        unfold verdict in
        unfold difference in
        let none_more : c.different + 0 ≡ c.different = omega arith in
        rw same (rw none_more (ground arith))
    compare_fields-difference total (suc left) i c (m ∷ ms) (n ∷ ns) (f ∷ fs) (g ∷ gs) p q r s comp
          once free same =
        let here : Pair = record {
          both = (m == 1) && (n == 1);
          left = f.content;
          right = g.content;
        } in
        let later = pairs left ms ns fs gs in
        let rest = λ (k : Counters) (free' : Frees k.tally later) (same' : k.same ≡ k.active).
          compare_fields-difference total left (suc i) k ms ns fs gs (omega arith) (omega arith)
            (omega arith) (omega arith) comp.1 once.1 free' same' in
        elim (Bool-cases here.both) [
          | inl both ↦
              let (t, keep, run) =
                field-alike c m n f.content g.content both (comp.0 both) (free.0 both) same in
              elim (Bool-cases (alike float_eq double_eq f.content g.content)) [
                | inl yes_alike ↦
                    compare_fields-step total left i c m n ms ns f g fs gs (some (counted c t))
                      (run ∙ rw yes_alike refl)
                    ∙ rest (counted c t)
                        (Frees-Keeps f.content c.tally t later keep (once.0 both) free.1)
                        (omega (arith, same))
                    ∙ ap ok (sym (difference-alike total c.different i here later both yes_alike))
                | inr unlike ↦
                    compare_fields-step total left i c m n ms ns f g fs gs none
                      (run ∙ rw unlike refl)
                    ∙ ap ok (sym (difference-unlike total c.different i here later both unlike))
              ]
          | inr not_both ↦
              let c' = record c { different = c.different + 1 } in
              compare_fields-step total left i c m n ms ns f g fs gs (some c')
                (field-unset c m n f.content g.content not_both)
              ∙ rest c' free.1 same
              ∙ ap ok (sym (difference-unset total c.different i here later not_both))
        ]
    compare_fields-difference total (suc left) i c _ _ _ _ p q r s comp once free same =
        absurd (omega arith)

    Frees-zeros : (ps : List Pair) → Frees zeros ps
    Frees-zeros [] = tt
    Frees-zeros (p ∷ ps) = (λ both k e. refl, Frees-zeros ps)

    -- Two records of the same number of fields, whose fields that are set in both may be compared
    -- and hold at most one array of each type, with an `==` on floating-point numbers under which
    -- what equals a number equal to 0 equals 0: `compare_rec` is defined, and its result is the
    -- number of the first field set in both that differs, DIF where there are fields and none is
    -- set in both, and -1 in all other cases.
    pub compare_rec-difference :
        (src dest : RecordF)
        → src.fields_num ≡ dest.fields_num
        → src.fields_num ≤ length src.field_set
        → src.fields_num ≤ length dest.field_set
        → src.fields_num ≤ length src.fields
        → src.fields_num ≤ length dest.fields
        → AllComparable (record_pairs src dest)
        → OnceEach (record_pairs src dest)
        → compare_rec float_eq double_eq src dest
          ≡ ok (difference src.fields_num 0 0 (record_pairs src dest))
    unfolding compare_rec record_pairs
    compare_rec-difference src dest e p q r s comp once =
        let run =
          compare_fields-difference src.fields_num src.fields_num 0 no_counts src.field_set
            dest.field_set src.fields dest.fields p q r s comp once (Frees-zeros _) refl in
        ground (arith, e, run)
