-- ===== src/Sort/Pivot.antt =====
-- `pivot` on a part of the array: the smaller elements come before the pivot element, the others
-- after it, and nothing outside the part changes.
use mathlib.Core.Path.{subst}
use isam_db_c_language.Base.{
  ℕ, ◌+◌, ◌-◌, ◌≡◌, refl, ap, sym, ◌∙◌, arith, Bool, true, false, not, List, [], ◌∷◌, ◌++◌, ok,
  Outcome, ◌>>=◌, length, length-append, append_assoc, append-nil, if◌then◌else◌, Bool-cases, inl,
  inr, get_elem?, some,
}
use isam_db_c_language.Bst.{Order}
use isam_db_c_language.Sort.{swap, pivot_step, pivot_loop, pivot}
use isam_db_c_language.Sort.Swap.{count, count-append, get_elem?-middle, swap-same, swap-two}

module _ (o : Order) (pre : List o.Value) (x : o.Value) where
  -- The array in the loop: the pivot element, the smaller elements, the others, the rest.
  abbrev array_of : List o.Value → List o.Value → List o.Value → List o.Value
  array_of lows highs rest = pre ++ (x ∷ (lows ++ (highs ++ rest)))

  abbrev pub Below : List o.Value → Type 0
  Below lows = count (λ y. not (o.less y x)) lows ≡ 0

  abbrev pub Above : List o.Value → Type 0
  Above highs = count (λ y. o.less y x) highs ≡ 0

  pub record Split (before : List o.Value) (lows highs : List o.Value) : Type 0 where
    pub same : (q : o.Value → Bool) → count q lows + count q highs ≡ count q before
    pub below : Below lows
    pub above : Above highs
    pub size : length lows + length highs ≡ length before

  count_snoc :
      (q : o.Value → Bool) (xs : List o.Value) (y : o.Value)
      → count q (xs ++ y ∷ []) ≡ count q xs + (if q y then 1 else 0)
  count_snoc q xs y = count-append q xs (y ∷ []) ∙ unfold count in omega arith

  Split-low :
      (before lows highs highs' : List o.Value) (y : o.Value)
      → Split before lows highs
      → o.less y x ≡ true
      → ((q : o.Value → Bool) → count q highs' ≡ count q highs)
      → length highs' ≡ length highs
      → Split (before ++ y ∷ []) (lows ++ y ∷ []) highs'
  Split-low before lows highs highs' y h low e l = record {
    same = λ q. omega (arith, count_snoc q lows y, count_snoc q before y, e q, h.same q);
    below = count_snoc _ lows y ∙ rw (low, h.below) refl;
    above = e _ ∙ h.above;
    size = omega (arith, length-append lows (y ∷ []), length-append before (y ∷ []), l, h.size);
  }

  Split-high :
      (before lows highs : List o.Value) (y : o.Value)
      → Split before lows highs
      → o.less y x ≡ false
      → Split (before ++ y ∷ []) lows (highs ++ y ∷ [])
  Split-high before lows highs y h high = record {
    same = λ q. omega (arith, count_snoc q highs y, count_snoc q before y, h.same q);
    below = h.below;
    above = count_snoc _ highs y ∙ rw (high, h.above) refl;
    size = omega (arith, length-append highs (y ∷ []), length-append before (y ∷ []), h.size);
  }

  module _ (lows highs rest : List o.Value) (y : o.Value) (s i : ℕ)
      (e : s ≡ length pre + length lows)
      (e' : i ≡ length pre + 1 + (length lows + length highs)) where
    read_next : get_elem? (array_of lows highs (y ∷ rest)) i ≡ some y
    read_next =
        let regroup : array_of lows highs (y ∷ rest) ≡ pre ++ (x ∷ (lows ++ highs)) ++ y ∷ rest =
          simp append_assoc in
        ap (λ (l : List o.Value). get_elem? l i) regroup
        ∙ get_elem?-middle (pre ++ (x ∷ (lows ++ highs))) rest y i
            (omega (arith, e', length-append pre (x ∷ (lows ++ highs)), length-append lows highs))

    step_high :
        o.less y x ≡ false
        → pivot_step o (array_of lows highs (y ∷ rest)) (length pre) s i
          ≡ ok (array_of lows (highs ++ y ∷ []) rest, length pre + length lows)
    unfolding pivot_step
    step_high high =
        let same : array_of lows highs (y ∷ rest) ≡ array_of lows (highs ++ y ∷ []) rest =
          simp append_assoc in
        rw (read_next, get_elem?-middle pre (lows ++ (highs ++ y ∷ rest)) x (length pre) refl, high)
          (λ j. ok (same j, e j))

    -- What the swap gives when the next element is smaller.
    step_low :
        (highs' : List o.Value)
        → o.less y x ≡ true
        → swap (array_of lows highs (y ∷ rest)) (s + 1) i
          ≡ ok (array_of (lows ++ y ∷ []) highs' rest)
        → pivot_step o (array_of lows highs (y ∷ rest)) (length pre) s i
          ≡ ok (array_of (lows ++ y ∷ []) highs' rest, length pre + length (lows ++ y ∷ []))
    unfolding pivot_step
    step_low highs' low run =
        let next : s + 1 ≡ length pre + length (lows ++ y ∷ []) =
          omega (arith, e, length-append lows (y ∷ [])) in
        rw
          (
            read_next,
            get_elem?-middle pre (lows ++ (highs ++ y ∷ rest)) x (length pre) refl,
            low,
            run,
          )
          (λ j. ok (array_of (lows ++ y ∷ []) highs' rest, next j))

  swap_none :
      (lows rest : List o.Value) (y : o.Value) (s i : ℕ)
      → s ≡ length pre + length lows
      → i ≡ length pre + 1 + (length lows + 0)
      → swap (array_of lows [] (y ∷ rest)) (s + 1) i ≡ ok (array_of (lows ++ y ∷ []) [] rest)
  swap_none lows rest y s i e e' =
      let regroup : array_of lows [] (y ∷ rest) ≡ pre ++ (x ∷ lows) ++ y ∷ rest =
        simp append_assoc in
      let back : pre ++ (x ∷ lows) ++ y ∷ rest ≡ array_of (lows ++ y ∷ []) [] rest =
        simp append_assoc in
      ap (λ (l : List o.Value). swap l (s + 1) i) regroup
      ∙ swap-same (pre ++ (x ∷ lows)) rest y (s + 1) i
          (omega (arith, e, length-append pre (x ∷ lows)))
          (omega (arith, e', length-append pre (x ∷ lows)))
      ∙ ap ok back

  swap_some :
      (lows hs rest : List o.Value) (h y : o.Value) (s i : ℕ)
      → s ≡ length pre + length lows
      → i ≡ length pre + 1 + (length lows + length (h ∷ hs))
      → swap (array_of lows (h ∷ hs) (y ∷ rest)) (s + 1) i
        ≡ ok (array_of (lows ++ y ∷ []) (hs ++ h ∷ []) rest)
  swap_some lows hs rest h y s i e e' =
      let regroup : array_of lows (h ∷ hs) (y ∷ rest)
          ≡ pre ++ (x ∷ lows) ++ (h ∷ (hs ++ (y ∷ rest))) =
        simp append_assoc in
      let back : pre ++ (x ∷ lows) ++ (y ∷ (hs ++ (h ∷ rest)))
          ≡ array_of (lows ++ y ∷ []) (hs ++ h ∷ []) rest =
        simp append_assoc in
      ap (λ (l : List o.Value). swap l (s + 1) i) regroup
      ∙ swap-two (pre ++ (x ∷ lows)) hs rest h y (s + 1) i
          (omega (arith, e, length-append pre (x ∷ lows)))
          (omega (arith, e', length-append pre (x ∷ lows)))
      ∙ ap ok back

  step :
      (before lows highs rest : List o.Value) (y : o.Value) (s i : ℕ)
      → Split before lows highs
      → s ≡ length pre + length lows
      → i ≡ length pre + 1 + (length lows + length highs)
      → (lows' highs' : List o.Value) × (pivot_step o
            (array_of lows highs (y ∷ rest))
            (length pre)
            s
            i
          ≡ ok (array_of lows' highs' rest, length pre + length lows'))
        × Split (before ++ y ∷ []) lows' highs'
  step before lows highs rest y s i h e e' = elim (Bool-cases (o.less y x)) [
    | inr high ↦ (
      lows,
      highs ++ y ∷ [],
      step_high lows highs rest y s i e e' high,
      Split-high before lows highs y h high,
    )
    | inl low ↦ smaller highs h e' low
  ]
    where
      smaller :
          (highs : List o.Value)
          → Split before lows highs
          → i ≡ length pre + 1 + (length lows + length highs)
          → o.less y x ≡ true
          → (lows' highs' : List o.Value) × (pivot_step o
                (array_of lows highs (y ∷ rest))
                (length pre)
                s
                i
              ≡ ok (array_of lows' highs' rest, length pre + length lows'))
            × Split (before ++ y ∷ []) lows' highs'
      smaller [] h e' low = (
        lows ++ y ∷ [],
        [],
        step_low lows [] rest y s i e e' [] low (swap_none lows rest y s i e e'),
        Split-low before lows [] [] y h low (λ q. refl) refl,
      )
      smaller (g ∷ hs) h e' low = (
        lows ++ y ∷ [],
        hs ++ g ∷ [],
        step_low lows (g ∷ hs) rest y s i e e' (hs ++ g ∷ []) low
            (swap_some lows hs rest g y s i e e'),
        Split-low before lows (g ∷ hs) (hs ++ g ∷ []) y h low
            (λ q. unfold count in omega (arith, count_snoc q hs g))
            (omega (arith, length-append hs (g ∷ []))),
      )

  loop :
      (before lows highs todo post : List o.Value) (s i : ℕ)
      → Split before lows highs
      → s ≡ length pre + length lows
      → i ≡ length pre + 1 + (length lows + length highs)
      → (lows' highs' : List o.Value) × (pivot_loop o
            (length todo)
            (array_of lows highs (todo ++ post))
            (length pre)
            s
            i
          ≡ ok (array_of lows' highs' post, length pre + length lows'))
        × Split (before ++ todo) lows' highs'
  unfolding pivot_loop
  loop before lows highs [] post s i h e e' = (
    lows,
    highs,
    (λ j. ok (array_of lows highs post, e j)),
    subst (λ (b : List o.Value). Split b lows highs) (sym (append-nil before)) h,
  )
  loop before lows highs (y ∷ todo) post s i h e e' =
      let (lows₁, highs₁, run, h₁) = step before lows highs (todo ++ post) y s i h e e' in
      let (lows₂, highs₂, run₂, h₂) =
        loop (before ++ y ∷ []) lows₁ highs₁ todo post (length pre + length lows₁) (i + 1) h₁ refl
          (omega (arith, e', h.size, h₁.size, length-append before (y ∷ []))) in
      (
        lows₂,
        highs₂,
        ap
              (λ (r : Outcome (List o.Value × ℕ)).
                r >>= λ r. pivot_loop o (length todo) r.0 (length pre) r.1 (i + 1))
              run
            ∙ run₂,
        subst (λ (b : List o.Value). Split b lows₂ highs₂) (append_assoc before (y ∷ []) todo) h₂,
      )

  count_rotated :
      (q : o.Value → Bool) (init : List o.Value) (z : o.Value)
      → count q (z ∷ init) ≡ count q (init ++ z ∷ [])
  count_rotated q init z = unfold count in omega (arith, count_snoc q init z)

  last_of :
      (a : o.Value) (l : List o.Value)
      → (init : List o.Value) × (z : o.Value) × (a ∷ l ≡ init ++ z ∷ [])
  last_of a [] = ([], a, refl)
  last_of a (b ∷ l) = let (init, z, e) = last_of b l in (a ∷ init, z, ap (◌∷◌ a) e)

  -- The pivot element goes between the two parts.
  last_swap :
      (lows rest : List o.Value)
      → (lows' : List o.Value) × (swap
            (pre ++ (x ∷ (lows ++ rest)))
            (length pre)
            (length pre + length lows)
          ≡ ok (pre ++ (lows' ++ (x ∷ rest))))
        × ((q : o.Value → Bool) → count q lows' ≡ count q lows)
        × (length lows' ≡ length lows)
  last_swap [] rest =
      ([], swap-same pre rest x (length pre) (length pre + 0) refl (omega arith), λ q. refl, refl)
  last_swap (a ∷ l) rest =
      let (init, z, e) = last_of a l in
      let count_same : (q : o.Value → Bool) → count q (z ∷ init) ≡ count q (a ∷ l) =
        λ q. count_rotated q init z ∙ ap (count q) (sym e) in
      let size : length (z ∷ init) ≡ length (a ∷ l) =
        omega (arith, ap length e, length-append init (z ∷ [])) in
      let regroup : pre ++ (x ∷ (a ∷ l ++ rest)) ≡ pre ++ (x ∷ (init ++ (z ∷ rest))) =
        ap (λ (b : List o.Value). pre ++ (x ∷ (b ++ rest))) e
        ∙ ap (λ (b : List o.Value). pre ++ (x ∷ b)) (append_assoc init (z ∷ []) rest) in
      (
        z ∷ init,
        ap (λ (b : List o.Value). swap b (length pre) (length pre + length (a ∷ l))) regroup
            ∙ swap-two pre init rest x z (length pre) (length pre + length (a ∷ l)) refl
                (omega (arith, size)),
        count_same,
        size,
      )

  Split-start : Split [] [] []
  unfolding count
  Split-start = record { same = λ q. omega arith; below = refl; above = refl; size = omega arith }

  rounds : (n m : ℕ) → n + m - n ≡ m
  rounds n m = omega arith

  finish :
      (todo post lows highs lows' : List o.Value)
      → pivot_loop o
          (length todo)
          (array_of [] [] (todo ++ post))
          (length pre)
          (length pre)
          (length pre + 1)
        ≡ ok (array_of lows highs post, length pre + length lows)
      → swap (array_of lows highs post) (length pre) (length pre + length lows)
        ≡ ok (pre ++ (lows' ++ (x ∷ (highs ++ post))))
      → length lows' ≡ length lows
      → pivot o (pre ++ (x ∷ (todo ++ post))) (length pre) (length pre + length todo)
        ≡ ok (pre ++ (lows' ++ (x ∷ (highs ++ post))), length pre + length lows')
  unfolding pivot
  finish todo post lows highs lows' run run' size =
      ap
        (λ (n : ℕ).
          pivot_loop o n (array_of [] [] (todo ++ post)) (length pre) (length pre) (length pre + 1)
          >>= λ r. swap r.0 (length pre) r.1 >>= λ a. ok (a, r.1))
        (rounds (length pre) (length todo))
      ∙ ap
          (λ (m : Outcome (List o.Value × ℕ)).
            m >>= λ r. swap r.0 (length pre) r.1 >>= λ a. ok (a, r.1))
          run
      ∙ ap (λ (m : Outcome (List o.Value)). m >>= λ a. ok (a, length pre + length lows)) run'
      ∙ ap (λ (n : ℕ). ok (pre ++ (lows' ++ (x ∷ (highs ++ post))), length pre + n)) (sym size)

  -- `pivot` on the part that starts with `x` and goes on with `todo`.
  pub pivot_lem :
      (todo post : List o.Value)
      → (lows highs : List o.Value) × (pivot o
            (pre ++ (x ∷ (todo ++ post)))
            (length pre)
            (length pre + length todo)
          ≡ ok (pre ++ (lows ++ (x ∷ (highs ++ post))), length pre + length lows))
        × Split todo lows highs
  pivot_lem todo post =
      let (lows, highs, run, h) =
        loop [] [] [] todo post (length pre) (length pre + 1) Split-start (omega arith)
          (omega arith) in
      let (lows', run', same, size) = last_swap lows (highs ++ post) in
      (
        lows',
        highs,
        finish todo post lows highs lows' run run' size,
        record {
          same = λ q. omega (arith, same q, h.same q);
          below = same _ ∙ h.below;
          above = h.above;
          size = omega (arith, size, h.size);
        },
      )
