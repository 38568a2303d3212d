-- ===== src/HashTbl.antt =====
-- The in-memory index: include/hash_tbl.h and src/hash_tbl.c.
-- A node's `key_type` and its union are one tagged `Key`; a string is the list of its bytes
-- before the NUL. A chain of nodes is a list, the array `data_map` a list of chains. Offsets are
-- not negative, and `none` stands for the -1 of `get`. Memory is always granted.
pub mod Keys
pub mod Hash
pub mod Chain
pub mod Model
pub mod Laws
pub mod Copy
pub mod Counting
use isam_db_c_language.Base.{
  ℕ, zero, suc, ◌+◌, ◌-◌, ◌*◌, ◌%◌, ◌^◌, Bool, true, false, ◌&&◌, Option, none, some, List, [], ◌∷◌,
  ◌++◌, Outcome, ok, undefined, ◌>>=◌, deref, ltb, ◌==◌, if◌then◌else◌, length, get_elem?,
  replicate, set as set_elem,
}
use isam_db_c_language.Base.Int.{ℤ, pos, negsuc, ◌+ℤ◌, scale, rem}
use mathlib.Core.Option

pub data Key : Type 0 where
  str : List ℕ → Key
  uint : ℕ → Key

pub record Node : Type 0 where
  pub key : Key
  pub value : ℕ

pub record HashTable : Type 0 where
  pub size : ℕ
  pub data_map : List (List Node)

-- `Keys_ht`: the arrays `k` and `types` as one list of tagged keys.
pub record KeysHt : Type 0 where
  pub k : List Key
  pub length : ℕ

abbrev pub max_ht_bucket : ℕ
max_ht_bucket = 503

abbrev pub coprime : ℕ
coprime = 2837

-- `HashTable ht = {0}; ht.size = size;`
unfoldable pub empty_table : ℕ → HashTable
empty_table size = record { size = size; data_map = replicate max_ht_bucket [] }

-- A `char` of x86 Linux, which is signed.
unfoldable pub signed_char : ℕ → ℤ
signed_char c = if ltb c 128 then pos c else negsuc (255 - c)

-- `(COPRIME * integer_key + number) % prime % size` in `uint32_t`; `prime` is 2^31 - 1.
unfoldable pub hash_uint : ℕ → ℕ → ℕ
hash_uint n size = (coprime * n % 2 ^ 32 + 78) % 2 ^ 32 % (2 ^ 31 - 1) % size

-- The loop over a string's characters.
unfoldable pub hash_str : ℕ → List ℕ → ℕ → ℤ → ℤ
unfolding signed_char ◌+ℤ◌ scale rem
hash_str size [] number h = h
hash_str size (c ∷ key) number h =
    hash_str size key (coprime * number % (size - 1)) (rem (scale number h +ℤ signed_char c) size)

-- A division by zero is undefined: by `size`, or by `size - 1` once a character is read.
unfoldable pub hash : Key → ℕ → Outcome ℤ
unfolding hash_uint hash_str
hash (uint n) size = if size == 0 then undefined else ok (pos (hash_uint n size))
hash (str []) size = ok (pos 0)
hash (str (c ∷ s)) size = if ltb size 2 then undefined else ok (hash_str size (c ∷ s) 78 (pos 0))

-- An array index; a negative one is outside the array.
abbrev pub index_of : ℤ → Outcome ℕ
index_of (pos i) = ok i
index_of (negsuc i) = undefined

-- `data_map[hash(key, size, key_type)]`, with its index.
unfoldable pub locate : Key → HashTable → Outcome (ℕ × List Node)
unfolding hash
locate k t = do h ← hash k t.size; i ← index_of h; c ← deref (get_elem? t.data_map i); ok (i, c)

-- `strcmp(a, b) == 0`
unfoldable pub str_eq : List ℕ → List ℕ → Bool
str_eq [] [] = true
str_eq (x ∷ a) (y ∷ b) = (x == y) && str_eq a b
str_eq _ _ = false

-- `strncmp(a, b, n) == 0`
unfoldable pub strncmp_eq : ℕ → List ℕ → List ℕ → Bool
strncmp_eq zero a b = true
strncmp_eq (suc n) [] [] = true
strncmp_eq (suc n) (x ∷ a) (y ∷ b) = (x == y) && strncmp_eq n a b
strncmp_eq (suc n) _ _ = false

-- One round of the loop of `get`: the key, the node's key and value, and the rounds to come.
-- Under a string key the integer of a node is read as a pointer: 0 is NULL, any other is wild.
-- Under an integer key the pointer of a string node is read as a number, which is not modelled.
unfoldable pub get_step : Key → Key → ℕ → Outcome (Option ℕ) → Outcome (Option ℕ)
unfolding str_eq
get_step (str s) (str r) v rest = if str_eq r s then ok (some v) else rest
get_step (str s) (uint zero) v rest = ok none
get_step (str s) (uint (suc n)) v rest = undefined
get_step (uint n) (uint m) v rest = if m == n then ok (some v) else rest
get_step (uint n) (str r) v rest = undefined

unfoldable pub get_chain : Key → List Node → Outcome (Option ℕ)
unfolding get_step
get_chain k [] = ok none
get_chain k (n ∷ c) = get_step k n.key n.value (get_chain k c)

unfoldable pub get : Key → HashTable → Outcome (Option ℕ)
unfolding locate get_chain
get k t = do (i, c) ← locate k t; get_chain k c

-- The test of `set` for a key that is in the chain already.
unfoldable pub already : Key → Key → Outcome Bool
unfolding strncmp_eq
already (str r) (str s) = ok ((length r == length s) && strncmp_eq (length r + 1) r s)
already (uint m) (uint n) = ok (m == n)
already (str r) (uint n) = undefined
already (uint m) (str s) = undefined

-- The chain with the new node at its end; `none` if the key is there.
unfoldable pub set_chain : Node → List Node → Outcome (Option (List Node))
unfolding already
set_chain new [] = ok (some (new ∷ []))
set_chain new (n ∷ c) =
    let rest = set_chain new c in
    already n.key new.key >>= λ same.
    if same then ok none else (rest >>= λ r. ok (Option.map (◌∷◌ n) r))

abbrev pub write_back : HashTable → ℕ → Option (List Node) → Bool × HashTable
write_back t i none = (false, t)
write_back t i (some c) = (true, record t { data_map = set_elem t.data_map i c })

-- The result is the 1 or 0 of the code, with the table.
unfoldable pub set : Key → ℕ → HashTable → Outcome (Bool × HashTable)
unfolding locate set_chain
set k v t = do
  (i, c) ← locate k t
  r ← set_chain (record { key = k; value = v }) c
  ok (write_back t i r)

-- `strcmp` of `delete` reads the pointer with no test for NULL.
unfoldable pub same_key : Key → Key → Outcome Bool
unfolding str_eq
same_key (str r) (str s) = ok (str_eq r s)
same_key (uint m) (uint n) = ok (m == n)
same_key (str r) (uint n) = undefined
same_key (uint m) (str s) = undefined

-- The node that is unlinked, if any, and the chain that is left.
unfoldable pub delete_chain : Key → List Node → Outcome (Option Node × List Node)
unfolding same_key
delete_chain k [] = ok (none, [])
delete_chain k (n ∷ c) =
    let rest = delete_chain k c in
    same_key n.key k >>= λ same. if same then ok (some n, c) else (rest >>= λ r. ok (r.0, n ∷ r.1))

unfoldable pub delete : Key → HashTable → Outcome (Option Node × HashTable)
unfolding locate delete_chain
delete k t = do
  (i, c) ← locate k t
  r ← delete_chain k c
  ok (r.0, record t { data_map = set_elem t.data_map i r.1 })

-- The first `n` chains; to read past the array is undefined.
unfoldable pub chains : ℕ → List (List Node) → Outcome (List (List Node))
chains zero m = ok []
chains (suc n) [] = undefined
chains (suc n) (c ∷ m) = chains n m >>= λ r. ok (c ∷ r)

unfoldable pub count_nodes : List (List Node) → ℕ → ℕ
count_nodes [] counter = counter
count_nodes (c ∷ m) counter = count_nodes m (counter + length c)

unfoldable pub len : HashTable → Outcome ℕ
unfolding chains count_nodes
len t = chains t.size t.data_map >>= λ m. ok (count_nodes m 0)

unfoldable pub chain_keys : List Node → List Key
chain_keys [] = []
chain_keys (n ∷ c) = n.key ∷ chain_keys c

unfoldable pub all_keys : List (List Node) → List Key
unfolding chain_keys
all_keys [] = []
all_keys (c ∷ m) = chain_keys c ++ all_keys m

unfoldable pub keys : HashTable → Outcome KeysHt
unfolding len all_keys
keys t = do
  elements ← len t
  m ← chains t.size t.data_map
  ok (record { k = all_keys m; length = elements })

-- `copy_ht` passes each key as the type of the chain's first node says; a node of the other type
-- would be read through the wrong member of the union.
unfoldable pub same_type : Key → Key → Bool
same_type (str r) (str s) = true
same_type (uint m) (uint n) = true
same_type _ _ = false

unfoldable pub copy_chain : Key → List Node → HashTable → Outcome HashTable
unfolding set same_type
copy_chain head [] dest = ok dest
copy_chain head (n ∷ c) dest =
    (if same_type head n.key then set n.key n.value dest else undefined) >>= λ r.
    copy_chain head c r.1

unfoldable pub copy_bucket : List Node → HashTable → Outcome HashTable
unfolding copy_chain
copy_bucket [] dest = ok dest
copy_bucket (n ∷ c) dest = copy_chain n.key (n ∷ c) dest

unfoldable pub copy_all : List (List Node) → HashTable → Outcome HashTable
unfolding copy_bucket
copy_all [] dest = ok dest
copy_all (c ∷ m) dest = copy_bucket c dest >>= λ d. copy_all m d

-- Mode 1 empties the destination first. The 1 that it returns is left out.
unfoldable pub copy_ht : HashTable → HashTable → ℕ → Outcome HashTable
unfolding copy_all
copy_ht src dest mode = chains src.size src.data_map >>= λ m.
    copy_all m (if mode == 1 then empty_table src.size else dest)
