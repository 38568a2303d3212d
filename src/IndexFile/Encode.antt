-- ===== src/IndexFile/Encode.antt =====
-- The bytes of an index, and `write_ht` as their writer.
use isam_db_c_language.Base.{
  ℕ, ◌+◌, ◌≡◌, refl, ap, sym, ◌∙◌, arith, List, [], ◌∷◌, ◌++◌, ok, length, take, length-append,
  append_assoc, Bool-cases, inl, inr, ◌==◌, ==_iff, if◌then◌else◌,
}
use isam_db_c_language.HashTbl.{Key, str, uint, Node, HashTable, len, chains}
use isam_db_c_language.HashTbl.Keys.{Kind}
use isam_db_c_language.HashTbl.Model.{IsValid}
use isam_db_c_language.HashTbl.Counting.{total, len-total, in_use}
use isam_db_c_language.Io.{write_be, pure, lift, ◌>>=◌}
use isam_db_c_language.Io.Bytes.{be}
use isam_db_c_language.Io.Wire.{
  Appends, Appends-write, Appends-write_be, Appends-pure, Appends-seq, Appends-lift,
}
use isam_db_c_language.IndexFile.{write_node, write_chain, write_chains, write_ht}

unfoldable pub node_bytes : Key → ℕ → List ℕ
node_bytes (str s) v = be 4 1 ++ (be 8 (length s) ++ ((s ++ 0 ∷ []) ++ be 8 v))
node_bytes (uint n) v = be 4 2 ++ (be 4 n ++ be 8 v)

-- The calls of `write` for a node, which are as many as the calls of `read`.
unfoldable pub node_calls : Key → ℕ
node_calls (str s) = 4
node_calls (uint n) = 3

unfoldable pub nodes_bytes : List Node → List ℕ
nodes_bytes [] = []
nodes_bytes (n ∷ c) = node_bytes n.key n.value ++ nodes_bytes c

unfoldable pub nodes_calls : List Node → ℕ
nodes_calls [] = 0
nodes_calls (n ∷ c) = node_calls n.key + nodes_calls c

-- The nodes of several chains in one list.
unfoldable pub flat : List (List Node) → List Node
flat [] = []
flat (c ∷ m) = c ++ flat m

nodes_bytes-append : (a b : List Node) → nodes_bytes (a ++ b) ≡ nodes_bytes a ++ nodes_bytes b
unfolding nodes_bytes
nodes_bytes-append [] b = refl
nodes_bytes-append (n ∷ a) b =
    ap (◌++◌ (node_bytes n.key n.value)) (nodes_bytes-append a b)
    ∙ sym (append_assoc (node_bytes n.key n.value) (nodes_bytes a) (nodes_bytes b))

nodes_calls-append : (a b : List Node) → nodes_calls (a ++ b) ≡ nodes_calls a + nodes_calls b
unfolding nodes_calls
nodes_calls-append [] b = omega arith
nodes_calls-append (n ∷ a) b = omega (arith, nodes_calls-append a b)

Appends-node : (k : Key) (v : ℕ) → Appends (write_node k v) (node_bytes k v) (node_calls k)
unfolding write_node node_bytes node_calls
Appends-node (str s) v = Appends-seq _ _ _ _ 1 3 (Appends-write_be 4 1) (
    Appends-seq _ _ _ _ 1 2 (Appends-write_be 8 (length s))
      (Appends-seq _ _ _ _ 1 1 (Appends-write (s ++ 0 ∷ [])) (Appends-write_be 8 v)))
Appends-node (uint n) v =
    Appends-seq _ _ _ _ 1 2 (Appends-write_be 4 2)
      (Appends-seq _ _ _ _ 1 1 (Appends-write_be 4 n) (Appends-write_be 8 v))

Appends-chain : (c : List Node) → Appends (write_chain c) (nodes_bytes c) (nodes_calls c)
unfolding write_chain nodes_bytes nodes_calls
Appends-chain [] = Appends-pure
Appends-chain (n ∷ c) =
    Appends-seq (write_node n.key n.value) (write_chain c) _ _ _ _ (Appends-node n.key n.value)
      (Appends-chain c)

Appends-chains :
    (m : List (List Node)) → Appends (write_chains m) (nodes_bytes (flat m)) (nodes_calls (flat m))
unfolding write_chains flat
Appends-chains [] = unfold nodes_bytes nodes_calls in Appends-pure
Appends-chains (c ∷ m) =
    rw (nodes_bytes-append c (flat m), nodes_calls-append c (flat m))
      (Appends-seq (write_chain c) (write_chains m) _ _ _ _ (Appends-chain c) (Appends-chains m))

-- The nodes of a table, in the order of the file.
abbrev pub nodes : HashTable → List Node
nodes t = flat (take t.size t.data_map)

-- The layout of an index: its size, the number of nodes, the nodes.
unfoldable pub ht_bytes : HashTable → List ℕ
ht_bytes t = be 4 t.size ++ (be 4 (length (nodes t)) ++ nodes_bytes (nodes t))

unfoldable pub ht_calls : HashTable → ℕ
ht_calls t = 1 + (1 + nodes_calls (nodes t))

total-flat : (m : List (List Node)) → total m ≡ length (flat m)
unfolding total flat
total-flat [] = refl
total-flat (c ∷ m) = omega (arith, length-append c (flat m), total-flat m)

len-nodes : (κ : Kind) (t : HashTable) → IsValid κ t → len t ≡ ok (length (nodes t))
len-nodes κ t valid = len-total κ t valid ∙ ap ok (total-flat (take t.size t.data_map))

nodes_nil : (ns : List Node) → length ns ≡ 0 → (nodes_bytes ns ≡ []) × (nodes_calls ns ≡ 0)
unfolding nodes_bytes nodes_calls
nodes_nil [] h = (refl, refl)
nodes_nil (n ∷ ns) h = absurd (omega arith)

-- What `write_ht` does after the length: nothing for an empty table.
Appends-body :
    (κ : Kind) (t : HashTable)
    → IsValid κ t
    → Appends
        (if length (nodes t) == 0
          then pure tt
          else (lift (chains t.size t.data_map) >>= write_chains))
        (nodes_bytes (nodes t))
        (nodes_calls (nodes t))
Appends-body κ t valid = elim (Bool-cases (length (nodes t) == 0)) [
  | inl e ↦
      let (no_bytes, no_calls) = nodes_nil (nodes t) ((==_iff (length (nodes t)) 0).0 e) in
      rw (e, no_bytes, no_calls) Appends-pure
  | inr e ↦ rw e (
      Appends-lift (chains t.size t.data_map) (take t.size t.data_map) write_chains _ _
        (in_use κ t valid) (Appends-chains (take t.size t.data_map)))
]

-- `write_ht` of a valid table at the end of a file, with calls enough, returns 1 and appends the
-- bytes of the table.
pub write_ht-Appends :
    (κ : Kind) (t : HashTable) → IsValid κ t → Appends (write_ht t) (ht_bytes t) (ht_calls t)
unfolding write_ht ht_bytes ht_calls
write_ht-Appends κ t valid =
    Appends-seq (write_be 4 t.size) _ (be 4 t.size) _ 1 _ (Appends-write_be 4 t.size) (
      Appends-lift (len t) (length (nodes t)) _ _ _ (len-nodes κ t valid) (
        Appends-seq (write_be 4 (length (nodes t))) _ (be 4 (length (nodes t))) _ 1 _
          (Appends-write_be 4 (length (nodes t))) (Appends-body κ t valid)))
