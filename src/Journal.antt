-- ===== src/Journal.antt =====
-- The stack of the journal: include/journal.h and `push`, `pop`, `peek`, `is_empty` of
-- src/journal.c. Up to `max_stack_cap` nodes stand in an array, the next ones in a list that is
-- linked from `dynamic_elements`. A node with a key type other than STR and UINT, as `memset` leaves
-- it, has the key `none`. `peek` copies into a node of zeros. Memory is always granted.
pub mod Static
pub mod Overflow
use isam_db_c_language.Base.{
  ℕ, zero, suc, ◌+◌, ◌-◌, Bool, true, false, ◌&&◌, List, [], ◌∷◌, Option, none, some, ok, undefined,
  Outcome, ◌>>=◌, deref, if◌then◌else◌, ltb, leb, ◌==◌, get_elem?, set as set_elem,
}
use isam_db_c_language.HashTbl.{Key}

abbrev pub max_stack_cap : ℕ
max_stack_cap = 500

pub record NodeStack : Type 0 where
  pub timestamp : ℕ
  pub file_name : List ℕ
  pub key : Option Key
  pub offset : ℕ
  pub operation : ℕ

pub record Stack : Type 0 where
  pub capacity : ℕ
  pub dynamic_capacty : ℕ
  pub elements : List NodeStack
  pub dynamic_elements : List NodeStack

-- `memset` of a node.
abbrev pub zero_node : NodeStack
zero_node = record { timestamp = 0; file_name = []; key = none; offset = 0; operation = 0 }

-- `index->elements[i] = node`
unfoldable pub store : ℕ → NodeStack → Stack → Outcome Stack
store i node s = deref (get_elem? s.elements i) >>= λ old.
    ok (record s { elements = set_elem s.elements i node })

-- `dynamic_elements->next = nd`: what was linked there is lost.
unfoldable pub link : NodeStack → List NodeStack → Outcome (List NodeStack)
link nd [] = undefined
link nd (d ∷ rest) = ok (d ∷ nd ∷ [])

unfoldable pub push : Stack → NodeStack → Outcome Stack
unfolding store link
push s node =
    if ltb s.capacity max_stack_cap
    then (store s.capacity node s >>= λ r. ok (record r { capacity = s.capacity + 1 }))
    else if s.dynamic_capacty == 0
    then ok (record s { dynamic_elements = node ∷ []; dynamic_capacty = 1 })
    else (link node s.dynamic_elements >>= λ l.
        ok (record s { dynamic_elements = l; dynamic_capacty = s.dynamic_capacty + 1 }))

-- The loop of `pop`: `temp->next->next` is read at each node, the last one included.
unfoldable pub unlink_last : List NodeStack → Outcome (List NodeStack)
unlink_last [] = ok []
unlink_last (d ∷ []) = undefined
unlink_last (d ∷ e ∷ []) = ok (d ∷ [])
unlink_last (d ∷ e ∷ f ∷ rest) = unlink_last (e ∷ f ∷ rest) >>= λ l. ok (d ∷ l)

-- From an empty stack `pop` clears the node before the array, which is undefined.
unfoldable pub pop_element : Stack → Outcome Stack
unfolding store
pop_element s =
    if s.capacity == 0
    then undefined
    else (store (s.capacity - 1) zero_node s >>= λ r. ok (record r { capacity = s.capacity - 1 }))

unfoldable pub pop : Stack → Outcome Stack
unfolding pop_element unlink_last
pop s =
    if leb s.capacity max_stack_cap && (s.dynamic_capacty == 0)
    then pop_element s
    else (unlink_last s.dynamic_elements >>= λ l.
        ok (record s { dynamic_elements = l; dynamic_capacty = s.dynamic_capacty - 1 }))

-- The loop of `peek` stops one node before the last.
unfoldable pub peek_dynamic : List NodeStack → Outcome NodeStack
peek_dynamic [] = undefined
peek_dynamic (d ∷ []) = undefined
peek_dynamic (d ∷ e ∷ []) = ok d
peek_dynamic (d ∷ e ∷ f ∷ rest) = peek_dynamic (e ∷ f ∷ rest)

unfoldable pub peek : Stack → Outcome NodeStack
unfolding peek_dynamic
peek s =
    if ltb s.capacity max_stack_cap
    then (if s.capacity == 0 then undefined else deref (get_elem? s.elements (s.capacity - 1)))
    else peek_dynamic s.dynamic_elements

unfoldable pub is_empty : Stack → Bool
is_empty s = s.capacity == 0
