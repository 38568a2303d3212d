-- ===== src/Tests/Stacks.antt =====
-- The journal's stack: empty, with one node, and full.
use isam_db_c_language.Base.{
  ℕ, ◌≡◌, refl, arith, true, [], ◌∷◌, ◌++◌, none, ok, undefined, Returns, ◌>>=◌, if◌then◌else◌, ltb,
  replicate, length-replicate,
}
use isam_db_c_language.Journal.{
  NodeStack, Stack, max_stack_cap, zero_node, push, pop, peek, peek_dynamic, is_empty,
}
use isam_db_c_language.Journal.Static.{IsStatic, contents, push-contents, pop-contents, pop-push}
use isam_db_c_language.Journal.Overflow.{IsFull, push-IsFull}

abbrev no_nodes : ℕ → Stack
no_nodes n = record {
  capacity = n;
  dynamic_capacty = 0;
  elements = replicate max_stack_cap zero_node;
  dynamic_elements = [];
}

empty-runs : is_empty (no_nodes 0) ≡ true
unfolding is_empty
empty-runs = refl

pop-empty-runs : pop (no_nodes 0) ≡ undefined
unfolding pop
pop-empty-runs = refl

abbrev entry : NodeStack
entry = record { timestamp = 9; file_name = 97 ∷ []; key = none; offset = 3; operation = 1 }

no_nodes-IsStatic : IsStatic (no_nodes 0)
no_nodes-IsStatic = record {
  array = length-replicate {A = NodeStack} max_stack_cap zero_node;
  bound = omega arith;
  none_linked = refl;
}

two-IsStatic : IsStatic (no_nodes 2)
two-IsStatic = record {
  array = length-replicate {A = NodeStack} max_stack_cap zero_node;
  bound = omega arith;
  none_linked = refl;
}

push-contents_example :
    Returns
      (push (no_nodes 0) entry)
      (λ r. IsStatic r × (contents r ≡ contents (no_nodes 0) ++ entry ∷ []))
push-contents_example = push-contents (no_nodes 0) no_nodes-IsStatic entry (omega arith)

pop-contents_example : Returns (pop (no_nodes 2)) (λ r.
    IsStatic r
    × ((y : NodeStack) × (contents (no_nodes 2) ≡ contents r ++ y ∷ [])
        × (peek (no_nodes 2) ≡ (if ltb 2 max_stack_cap then ok y else peek_dynamic []))))
pop-contents_example = pop-contents (no_nodes 2) two-IsStatic (omega arith)

pop-push_example :
    ((push (no_nodes 2) entry >>= peek) ≡ ok entry)
    × Returns
        (push (no_nodes 2) entry >>= pop)
        (λ r. IsStatic r × (contents r ≡ contents (no_nodes 2)))
pop-push_example = pop-push (no_nodes 2) entry two-IsStatic (omega arith)

all-IsFull : IsFull (no_nodes 500)
all-IsFull = record { capacity = refl; none_linked = refl; list = refl }

push-IsFull_example :
    (peek (no_nodes 500) ≡ undefined)
    × ((push (no_nodes 500) entry >>= peek) ≡ undefined)
    × ((push (no_nodes 500) entry >>= pop) ≡ undefined)
    × ((push (no_nodes 500) entry >>= λ r. push r zero_node >>= peek) ≡ ok entry)
    × ((push (no_nodes 500) entry >>= λ r. push r zero_node >>= λ q. push q entry)
        ≡ ok (record (no_nodes 500) { dynamic_elements = entry ∷ entry ∷ []; dynamic_capacty = 3 }))
push-IsFull_example = push-IsFull (no_nodes 500) all-IsFull entry zero_node entry
