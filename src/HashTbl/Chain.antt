-- ===== src/HashTbl/Chain.antt =====
-- One chain: what the loops of `get`, `set` and `delete` compute when all keys are of one kind.
use isam_db_c_language.Base.{
  ℕ, ◌+◌, ◌≤◌, Bool, true, false, List, [], ◌∷◌, ◌++◌, ◌≡◌, refl, ap, ◌∙◌, arith, ok, Option, none,
  some, if◌then◌else◌, length, All, Bool-cases, inl, inr,
}
use isam_db_c_language.HashTbl.{Key, str, uint, Node, get_step, get_chain, set_chain, delete_chain}
use isam_db_c_language.HashTbl.Keys.{
  Kind, string, number, IsKey, key_eq, key_eq_iff, already-key_eq, same_key-key_eq,
}

abbrev pub IsOfKind : Kind → List Node → Type 0
IsOfKind κ c = All (λ (n : Node). IsKey κ n.key) c

-- The value under a key.
unfoldable pub find : Key → List Node → Option ℕ
unfolding key_eq
find q [] = none
find q (n ∷ c) = if key_eq n.key q then some n.value else find q c

abbrev pub is_found : Option ℕ → Bool
is_found none = false
is_found (some v) = true

-- How many nodes have the key.
unfoldable pub count : Key → List Node → ℕ
unfolding key_eq
count q [] = 0
count q (n ∷ c) = (if key_eq n.key q then 1 else 0) + count q c

-- The node of a key at an offset.
abbrev pub node_of : Key → Option ℕ → Option Node
node_of k none = none
node_of k (some v) = some (record { key = k; value = v })

-- The chain without its first node under the key, and that node.
unfoldable pub erase : Key → List Node → List Node
unfolding key_eq
erase q [] = []
erase q (n ∷ c) = if key_eq n.key q then c else n ∷ erase q c

unfoldable pub first : Key → List Node → Option Node
unfolding key_eq
first q [] = none
first q (n ∷ c) = if key_eq n.key q then some n else first q c

get_step_lem :
    (κ : Kind) (k j : Key) (v : ℕ) (r : Option ℕ)
    → IsKey κ k
    → IsKey κ j
    → get_step k j v (ok r) ≡ ok (if key_eq j k then some v else r)
unfolding get_step key_eq
get_step_lem string (str s) (str t) v r h h' = ground arith
get_step_lem number (uint m) (uint n) v r h h' = ground arith
get_step_lem string (str s) (uint n) v r h h' = absurd h'
get_step_lem string (uint m) j v r h h' = absurd h
get_step_lem number (str s) j v r h h' = absurd h
get_step_lem number (uint m) (str t) v r h h' = absurd h'

module _ (κ : Kind) (k : Key) (good : IsKey κ k) where
  pub get_chain-find : (c : List Node) → IsOfKind κ c → get_chain k c ≡ ok (find k c)
  unfolding get_chain find
  get_chain-find [] h = refl
  get_chain-find (n ∷ c) h =
      ap (get_step k n.key n.value) (get_chain-find c h.1)
      ∙ get_step_lem κ k n.key n.value (find k c) good h.0

  pub set_chain_new :
      (v : ℕ) (c : List Node)
      → IsOfKind κ c
      → find k c ≡ none
      → set_chain (record { key = k; value = v }) c
        ≡ ok (some (c ++ record { key = k; value = v } ∷ []))
  unfolding set_chain find
  set_chain_new v [] h e = refl
  set_chain_new v (n ∷ c) h e =
      ground (arith, already-key_eq κ n.key k h.0 good, set_chain_new v c h.1)

  pub set_chain_old :
      (v : ℕ) (c : List Node) {w : ℕ}
      → IsOfKind κ c
      → find k c ≡ some w
      → set_chain (record { key = k; value = v }) c ≡ ok none
  unfolding set_chain find
  set_chain_old v [] h e = cc
  set_chain_old v (n ∷ c) {w} h e =
      ground (arith, already-key_eq κ n.key k h.0 good, set_chain_old v c {w = w} h.1)

  pub delete_chain-erase :
      (c : List Node) → IsOfKind κ c → delete_chain k c ≡ ok (first k c, erase k c)
  unfolding delete_chain first erase
  delete_chain-erase [] h = refl
  delete_chain-erase (n ∷ c) h =
      ground (arith, same_key-key_eq κ n.key k h.0 good, delete_chain-erase c h.1)

pub find-none_of_count : (q : Key) (c : List Node) → count q c ≡ 0 → find q c ≡ none
unfolding count find
find-none_of_count q [] h = refl
find-none_of_count q (n ∷ c) h = ground (arith, find-none_of_count q c)

pub count-zero_of_find : (q : Key) (c : List Node) → find q c ≡ none → count q c ≡ 0
unfolding count find
count-zero_of_find q [] h = refl
count-zero_of_find q (n ∷ c) h = ground (arith, count-zero_of_find q c)

pub find-append_one :
    (q k : Key) (v : ℕ) (c : List Node)
    → find k c ≡ none
    → find q (c ++ record { key = k; value = v } ∷ []) ≡ (if key_eq k q then some v else find q c)
unfolding find
find-append_one q k v [] h = refl
find-append_one q k v (n ∷ c) h =
    ground (arith, find-append_one q k v c, key_eq_iff n.key q, key_eq_iff k q, key_eq_iff n.key k)

pub count-append_one :
    (q : Key) (n : Node) (c : List Node)
    → count q (c ++ n ∷ []) ≡ count q c + (if key_eq n.key q then 1 else 0)
unfolding count
count-append_one q n [] = ground arith
count-append_one q n (m ∷ c) = omega (arith, count-append_one q n c)

pub IsOfKind-append :
    (κ : Kind) (n : Node) (c : List Node) → IsOfKind κ c → IsKey κ n.key → IsOfKind κ (c ++ n ∷ [])
IsOfKind-append κ n [] h g = (g, tt)
IsOfKind-append κ n (m ∷ c) h g = (h.0, IsOfKind-append κ n c h.1 g)

pub IsOfKind-erase : (κ : Kind) (q : Key) (c : List Node) → IsOfKind κ c → IsOfKind κ (erase q c)
unfolding erase
IsOfKind-erase κ q [] h = tt
IsOfKind-erase κ q (n ∷ c) h = elim (Bool-cases (key_eq n.key q)) [
  | inl e ↦ rw e h.1
  | inr e ↦ rw e (h.0, IsOfKind-erase κ q c h.1)
]

pub find-erase :
    (q k : Key) (c : List Node)
    → count q c ≤ 1
    → find q (erase k c) ≡ (if key_eq k q then none else find q c)
unfolding find erase count
find-erase q k [] h = ground arith
find-erase q k (n ∷ c) h = ground (
  arith,
  find-erase q k c,
  find-none_of_count q c,
  key_eq_iff n.key q,
  key_eq_iff k q,
  key_eq_iff n.key k,
)

pub count-erase-le : (q k : Key) (c : List Node) → count q (erase k c) ≤ count q c
unfolding count erase
count-erase-le q k [] = omega arith
count-erase-le q k (n ∷ c) = ground (arith, count-erase-le q k c)

pub length-erase :
    (k : Key) (c : List Node)
    → length (erase k c) + (if is_found (find k c) then 1 else 0) ≡ length c
unfolding erase find
length-erase k [] = refl
length-erase k (n ∷ c) = ground (arith, length-erase k c)

-- `first` is the node that `find` reads.
pub first-find : (k : Key) (c : List Node) → first k c ≡ node_of k (find k c)
unfolding first find
first-find k [] = refl
first-find k (n ∷ c) = ground (arith, first-find k c, key_eq_iff n.key k)
