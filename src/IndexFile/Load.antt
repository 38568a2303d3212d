-- ===== src/IndexFile/Load.antt =====
-- `read_index_file` on the bytes that `write_ht` left: it inserts the nodes one after another.
use mathlib.Core.Path.{subst}
use isam_db_c_language.Base.{
  ℕ, ◌+◌, ◌≤◌, ◌<◌, ◌^◌, ◌≡◌, refl, ap, sym, ◌∙◌, arith, List, [], ◌∷◌, ◌++◌, ok, length, take, All,
  set as set_elem, length-set, length-append, lt→ltb,
}
use isam_db_c_language.HashTbl.{Key, str, uint, Node, HashTable}
use isam_db_c_language.HashTbl.Keys.{Kind, string, number, IsKey, IsAscii}
use isam_db_c_language.HashTbl.Hash.{home}
use isam_db_c_language.HashTbl.Chain.{IsOfKind}
use isam_db_c_language.HashTbl.Model.{bucket, locate-bucket}
use isam_db_c_language.Io.{Io, read, read_be, lift, ◌>>=◌}
use isam_db_c_language.Io.Bytes.{
  be, pad, from_be, length-be, pad_self, from_be-be, take-length_append,
}
use isam_db_c_language.Io.Wire.{
  Reads, Reads-read, Reads-read_be, Reads-pure, Reads-bind, Reads-lift, Reads-map, Reads-assoc,
}
use isam_db_c_language.IndexFile.{
  until_nul, read_value, read_text, read_length, read_node, absorb, insert_read, read_nodes, rounds,
  as_size, read_index_file,
}
use isam_db_c_language.IndexFile.Encode.{
  node_bytes, node_calls, nodes_bytes, nodes_calls, nodes, ht_bytes, ht_calls,
}

-- What fits the widths of the file: `uint64_t` for offsets and lengths.
abbrev pub KeyFits : Key → Type 0
KeyFits (str s) = length s < 256 ^ 8
KeyFits (uint n) = Unit

abbrev pub NodeFits : Node → Type 0
NodeFits n = (n.value < 256 ^ 8) × KeyFits n.key

until_nul-ascii : (s : List ℕ) → All IsAscii s → until_nul s ≡ s
unfolding until_nul
until_nul-ascii [] h = refl
until_nul-ascii (c ∷ s) h = ground (arith, until_nul-ascii s h.1)

Reads-value :
    (k : Key) (v : ℕ)
    → v < 256 ^ 8
    → Reads (read_value k) (be 8 v) 1 (record { key = k; value = v })
unfolding read_value
Reads-value k v h =
    Reads-map (read_be 8) (λ (x : ℕ). record { key = k; value = x }) (be 8 v) 1 v
      (Reads-read_be 8 v h)

text-back :
    (s : List ℕ)
    → All IsAscii s
    → until_nul (take (length s) (pad (length s + 1) (s ++ 0 ∷ []))) ≡ s
text-back s h =
    ap (λ (d : List ℕ). until_nul (take (length s) d))
      (pad_self (length s + 1) (s ++ 0 ∷ []) (length-append s (0 ∷ [])))
    ∙ ap until_nul (take-length_append s (0 ∷ []) (length s) refl)
    ∙ until_nul-ascii s h

Reads-text :
    (s : List ℕ) (v : ℕ)
    → All IsAscii s
    → v < 256 ^ 8
    → Reads (read_text (length s)) ((s ++ 0 ∷ []) ++ be 8 v) 2 (record { key = str s; value = v })
unfolding read_text
Reads-text s v a h =
    Reads-bind (read (length s + 1)) _ (s ++ 0 ∷ []) (be 8 v) 1 1 (s ++ 0 ∷ []) _
      (Reads-read (s ++ 0 ∷ []) (length s + 1) (length-append s (0 ∷ [])))
      (rw (text-back s a) (Reads-value (str s) v h))

Reads-length :
    (s : List ℕ) (v : ℕ)
    → All IsAscii s
    → v < 256 ^ 8
    → length s < 256 ^ 8
    → Reads
        (read_length (be 8 (length s)))
        ((s ++ 0 ∷ []) ++ be 8 v)
        2
        (record { key = str s; value = v })
unfolding read_length be
Reads-length s v a h fits =
    let back : from_be (pad 8 (be 8 (length s))) ≡ length s =
      ap from_be (pad_self 8 (be 8 (length s)) (length-be 8 (length s)))
      ∙ from_be-be 8 (length s) fits in
    subst
      (λ (l : ℕ).
        Reads (read_text l) ((s ++ 0 ∷ []) ++ be 8 v) 2 (record { key = str s; value = v }))
      (sym back) (Reads-text s v a h)

Reads-key :
    (κ : Kind) (k : Key) (v : ℕ)
    → IsKey κ k
    → v < 256 ^ 8
    → KeyFits k
    → Reads
        (read_be 4 >>= read_node)
        (node_bytes k v)
        (node_calls k)
        (record { key = k; value = v })
unfolding read_node node_bytes node_calls
Reads-key string (str s) v good h fits =
    Reads-bind (read_be 4) read_node (be 4 1) _ 1 3 1 _ (Reads-read_be 4 1 (omega arith)) (
      Reads-bind (read 8) read_length (be 8 (length s)) _ 1 2 (be 8 (length s)) _
        (Reads-read (be 8 (length s)) 8 (length-be 8 (length s))) (Reads-length s v good h fits))
Reads-key number (uint n) v good h fits =
    Reads-bind (read_be 4) read_node (be 4 2) _ 1 2 2 _ (Reads-read_be 4 2 (omega arith)) (
      Reads-bind (read_be 4) (λ k. read_value (uint k)) (be 4 n) (be 8 v) 1 1 n _
        (Reads-read_be 4 n good) (Reads-value (uint n) v h))
Reads-key string (uint n) v good h fits = absurd good
Reads-key number (str s) v good h fits = absurd good

-- One insertion, and all of them.
abbrev pub absorbed : Node → HashTable → HashTable
absorbed n t = record t {
  data_map =
      set_elem t.data_map (home n.key t.size) (absorb n.key (bucket t (home n.key t.size)) n);
}

unfoldable pub absorb_all : List Node → HashTable → HashTable
absorb_all [] t = t
absorb_all (n ∷ ns) t = absorb_all ns (absorbed n t)

insert_read_lem :
    (κ : Kind) (n : Node) (t : HashTable)
    → IsKey κ n.key
    → 1 < t.size
    → t.size ≤ length t.data_map
    → insert_read n t ≡ ok (absorbed n t)
unfolding insert_read
insert_read_lem κ n t good two fits = rw (locate-bucket κ t n.key good two fits)

abbrev next_node : ℕ → HashTable → Node → Io HashTable
next_node left t n = lift (insert_read n t) >>= read_nodes left

Reads-nodes :
    (κ : Kind) (ns : List Node) (t : HashTable)
    → IsOfKind κ ns
    → All NodeFits ns
    → 1 < t.size
    → t.size ≤ length t.data_map
    → Reads (read_nodes (length ns) t) (nodes_bytes ns) (nodes_calls ns) (absorb_all ns t)
unfolding nodes_bytes nodes_calls absorb_all read_nodes
Reads-nodes κ [] t kinds fits two room = Reads-pure t
Reads-nodes κ (n ∷ ns) t kinds fits two room =
    Reads-assoc (read_be 4) read_node (next_node (length ns) t) _ _ _ (
      Reads-bind (read_be 4 >>= read_node) (next_node (length ns) t) _ (nodes_bytes ns) _
        (nodes_calls ns) n _ (Reads-key κ n.key n.value kinds.0 fits.0.0 fits.0.1)
        (Reads-lift (insert_read n t) (absorbed n t) (read_nodes (length ns)) (nodes_bytes ns)
          (nodes_calls ns) _ (insert_read_lem κ n t kinds.0 two room)
          (Reads-nodes κ ns (absorbed n t) kinds.1 fits.1 two (rw length-set room))))

-- Reading the bytes of a table into an empty one inserts its nodes in the order of the file.
pub Reads-ht :
    (κ : Kind) (t u : HashTable)
    → IsOfKind κ (nodes t)
    → All NodeFits (nodes t)
    → 1 < t.size
    → t.size ≤ length u.data_map
    → t.size < 2 ^ 31
    → length (nodes t) < 2 ^ 31
    → Reads
        (read_index_file u)
        (ht_bytes t)
        (ht_calls t)
        (absorb_all (nodes t) (record u { size = t.size }))
unfolding read_index_file ht_bytes ht_calls
Reads-ht κ t u kinds fits two room small few =
    Reads-bind (read_be 4) _ (be 4 t.size) _ 1 _ t.size _ (Reads-read_be 4 t.size (omega arith)) (
      Reads-lift (as_size t.size) t.size _ _ _ _
        (unfold as_size in rw (lt→ltb t.size (2 ^ 31) small) refl)
        (Reads-bind (read_be 4) _ (be 4 (length (nodes t))) (nodes_bytes (nodes t)) 1
          (nodes_calls (nodes t)) (length (nodes t)) _
          (Reads-read_be 4 (length (nodes t)) (omega arith))
          (subst
            (λ (r : ℕ).
              Reads (read_nodes r (record u { size = t.size })) (nodes_bytes (nodes t))
                (nodes_calls (nodes t)) (absorb_all (nodes t) (record u { size = t.size })))
            (sym (unfold rounds in rw (lt→ltb (length (nodes t)) (2 ^ 31) few) refl))
            (Reads-nodes κ (nodes t) (record u { size = t.size }) kinds fits two room))))
