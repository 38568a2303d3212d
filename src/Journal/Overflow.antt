-- ===== src/Journal/Overflow.antt =====
-- The stack of the journal when its array is full.
use isam_db_c_language.Base.{ℕ, ◌≡◌, refl, List, [], ◌∷◌, ok, undefined, ◌>>=◌}
use isam_db_c_language.Journal.{
  NodeStack, Stack, max_stack_cap, link, push, pop, peek, unlink_last, peek_dynamic,
}

-- The array is full, and no node was ever linked.
pub record IsFull (s : Stack) : Type 0 where
  pub capacity : s.capacity ≡ max_stack_cap
  pub none_linked : s.dynamic_capacty ≡ 0
  pub list : s.dynamic_elements ≡ []

module _ (s : Stack) (full : IsFull s) (x y z : NodeStack) where
  abbrev linked : List NodeStack → ℕ → Stack
  linked l n = record s { dynamic_elements = l; dynamic_capacty = n }

  push_first : push s x ≡ ok (linked (x ∷ []) 1)
  unfolding push
  push_first = rw (full.capacity, full.none_linked) refl

  push_second : push (linked (x ∷ []) 1) y ≡ ok (linked (x ∷ y ∷ []) 2)
  unfolding push link
  push_second = rw full.capacity refl

  push_third : push (linked (x ∷ y ∷ []) 2) z ≡ ok (linked (x ∷ z ∷ []) 3)
  unfolding push link
  push_third = rw full.capacity refl

  -- On a full array with no linked node `peek` is undefined, and so are `peek` and `pop` after
  -- one `push`; after two, `peek` shows the node pushed first, and a third replaces the second.
  pub push-IsFull :
      (peek s ≡ undefined)
      × ((push s x >>= peek) ≡ undefined)
      × ((push s x >>= pop) ≡ undefined)
      × ((push s x >>= λ r. push r y >>= peek) ≡ ok x)
      × ((push s x >>= λ r. push r y >>= λ q. push q z) ≡ ok (linked (x ∷ z ∷ []) 3))
  unfolding peek pop unlink_last peek_dynamic
  push-IsFull = (
    rw (full.capacity, full.list) refl,
    rw (push_first, full.capacity) refl,
    rw (push_first, full.capacity) refl,
    rw (push_first, push_second, full.capacity) refl,
    rw (push_first, push_second, push_third) refl,
  )
