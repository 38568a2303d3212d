-- ===== src/Journal/Static.antt =====
-- The stack of the journal while its nodes fit into the array.
use isam_db_c_language.Base.{
  ℕ, zero, suc, ◌+◌, ◌-◌, ◌≤◌, ◌<◌, ◌≡◌, refl, ap, sym, ◌∙◌, arith, true, false, ◌&&◌, List, [],
  ◌∷◌, ◌++◌, some, ok, Returns, ◌>>=◌, length, take, set as set_elem, length-set, get_elem?,
  get_elem?-set_self, if◌then◌else◌, ltb, leb, ◌==◌,
}
use isam_db_c_language.Journal.{
  NodeStack, Stack, max_stack_cap, zero_node, store, push, pop, pop_element, peek, peek_dynamic,
}

-- No node was ever linked.
pub record IsStatic (s : Stack) : Type 0 where
  pub array : length s.elements ≡ max_stack_cap
  pub bound : s.capacity ≤ max_stack_cap
  pub none_linked : s.dynamic_capacty ≡ 0

-- The nodes, the oldest first.
unfoldable pub contents : Stack → List NodeStack
contents s = take s.capacity s.elements

get_elem?-lt :
    (xs : List NodeStack) (i : ℕ) → i < length xs → (x : NodeStack) × (get_elem? xs i ≡ some x)
get_elem?-lt [] i h = absurd (omega arith)
get_elem?-lt (x ∷ xs) zero h = (x, refl)
get_elem?-lt (x ∷ xs) (suc i) h = get_elem?-lt xs i (omega arith)

take-set_end :
    (xs : List NodeStack) (i : ℕ) (x : NodeStack)
    → i < length xs
    → take (suc i) (set_elem xs i x) ≡ take i xs ++ x ∷ []
take-set_end [] i x h = absurd (omega arith)
take-set_end (y ∷ xs) zero x h = refl
take-set_end (y ∷ xs) (suc i) x h = ap (◌∷◌ y) (take-set_end xs i x (omega arith))

take-set_after :
    (xs : List NodeStack) (i : ℕ) (x : NodeStack) → take i (set_elem xs i x) ≡ take i xs
take-set_after [] i x = refl
take-set_after (y ∷ xs) zero x = refl
take-set_after (y ∷ xs) (suc i) x = ap (◌∷◌ y) (take-set_after xs i x)

store_lem :
    (s : Stack) (i : ℕ) (x : NodeStack)
    → i < length s.elements
    → store i x s ≡ ok (record s { elements = set_elem s.elements i x })
unfolding store
store_lem s i x h = rw ((get_elem?-lt s.elements i h).1)

add_one : (n : ℕ) → n + 1 ≡ suc n
add_one n = omega arith

module _ (s : Stack) (static : IsStatic s) (x : NodeStack) where
  abbrev pushed : Stack
  pushed = record s { elements = set_elem s.elements s.capacity x; capacity = s.capacity + 1 }

  push_lem : s.capacity < max_stack_cap → push s x ≡ ok pushed
  unfolding push
  push_lem room =
      let test : ltb s.capacity max_stack_cap ≡ true = ground arith in
      rw (test, store_lem s s.capacity x (omega (arith, static.array)))

  pushed-IsStatic : s.capacity < max_stack_cap → IsStatic pushed
  pushed-IsStatic room = record {
    array = length-set s.elements s.capacity x ∙ static.array;
    bound = omega arith;
    none_linked = static.none_linked;
  }

  -- `push` on a stack with room in its array, and with no linked node, puts the node at the end
  -- of the contents.
  pub push-contents :
      s.capacity < max_stack_cap
      → Returns (push s x) (λ r. IsStatic r × (contents r ≡ contents s ++ x ∷ []))
  unfolding contents
  push-contents room = (
    pushed,
    push_lem room,
    (
      pushed-IsStatic room,
      rw add_one (take-set_end s.elements s.capacity x (omega (arith, static.array))),
    ),
  )

take-last :
    (xs : List NodeStack) (i : ℕ) (y : NodeStack)
    → get_elem? xs i ≡ some y
    → take (suc i) xs ≡ take i xs ++ y ∷ []
take-last [] i y h = absurd (ground arith)
take-last (x ∷ xs) zero y h = ground arith
take-last (x ∷ xs) (suc i) y h = ap (◌∷◌ x) (take-last xs i y h)

less_one : (n : ℕ) → 0 < n → suc (n - 1) ≡ n
less_one n h = omega arith

module _ (s : Stack) (static : IsStatic s) (some_node : 0 < s.capacity) where
  abbrev popped : Stack
  popped = record s {
    elements = set_elem s.elements (s.capacity - 1) zero_node;
    capacity = s.capacity - 1;
  }

  popped-IsStatic : IsStatic popped
  popped-IsStatic = record {
    array = length-set s.elements (s.capacity - 1) zero_node ∙ static.array;
    bound = omega (arith, static.bound);
    none_linked = static.none_linked;
  }

  pop_lem : pop s ≡ ok popped
  unfolding pop pop_element
  pop_lem =
      let test : (leb s.capacity max_stack_cap && (s.dynamic_capacty == 0)) ≡ true =
        ground (arith, static.bound, static.none_linked) in
      let filled : (s.capacity == 0) ≡ false = ground arith in
      rw (
        test,
        filled,
        store_lem s (s.capacity - 1) zero_node (omega (arith, static.array, static.bound)),
      )

  newest : (y : NodeStack) × (get_elem? s.elements (s.capacity - 1) ≡ some y)
  newest = get_elem?-lt s.elements (s.capacity - 1) (omega (arith, static.array, static.bound))

  contents_newest : contents s ≡ take (s.capacity - 1) s.elements ++ newest.0 ∷ []
  unfolding contents
  contents_newest =
      ap (λ (n : ℕ). take n s.elements) (sym (less_one s.capacity some_node))
      ∙ take-last s.elements (s.capacity - 1) newest.0 newest.1

  -- `pop` on such a stack that has a node takes the last one off the contents; `peek` shows that
  -- node if the array has room for another.
  pub pop-contents : Returns (pop s) (λ r.
      IsStatic r
      × ((y : NodeStack) × (contents s ≡ contents r ++ y ∷ [])
          × (peek s
              ≡ (if ltb s.capacity max_stack_cap then ok y else peek_dynamic s.dynamic_elements))))
  unfolding peek
  pop-contents =
      let filled : (s.capacity == 0) ≡ false = ground arith in
      (
        popped,
        pop_lem,
        (
          popped-IsStatic,
          (
            newest.0,
            contents_newest
                ∙ ap (λ (l : List NodeStack). l ++ newest.0 ∷ [])
                    (sym (unfold contents in take-set_after s.elements (s.capacity - 1) zero_node)),
            rw (filled, newest.1) refl,
          ),
        ),
      )

back : (n : ℕ) → n + 1 - 1 ≡ n
back n = omega arith

peek-pushed :
    (s : Stack) (x : NodeStack) (static : IsStatic s)
    → s.capacity + 1 < max_stack_cap
    → peek (pushed s static x) ≡ ok x
unfolding peek
peek-pushed s x static room =
    let test : ltb (s.capacity + 1) max_stack_cap ≡ true = ground arith in
    let filled : (s.capacity + 1 == 0) ≡ false = ground arith in
    rw
      (test, filled, back, get_elem?-set_self s.elements s.capacity x (omega (arith, static.array)))
      refl

-- Where the array has room for two and no node was linked, a node that is pushed is what `peek`
-- shows, and `pop` takes it off again.
pub pop-push :
    (s : Stack) (x : NodeStack)
    → IsStatic s
    → s.capacity + 1 < max_stack_cap
    → ((push s x >>= peek) ≡ ok x)
      × Returns (push s x >>= pop) (λ r. IsStatic r × (contents r ≡ contents s))
pop-push s x static room =
    let less : s.capacity < max_stack_cap = omega arith in
    let p = pushed s static x in
    let st = pushed-IsStatic s static x less in
    (
      rw (push_lem s static x less) (peek-pushed s x static room),
      (
        popped p st (omega arith),
        rw (push_lem s static x less) (pop_lem p st (omega arith)),
        (
          popped-IsStatic p st (omega arith),
          unfold contents in
              (ap (λ (n : ℕ). take n (set_elem p.elements n zero_node)) (back s.capacity)
                ∙ take-set_after p.elements s.capacity zero_node
                ∙ take-set_after s.elements s.capacity x),
        ),
      ),
    )
