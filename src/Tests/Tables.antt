-- ===== src/Tests/Tables.antt =====
-- The index of src/hash_tbl.c on small tables.
use isam_db_c_language.Base.{
  ℕ, ◌≡◌, ◌<◌, ◌≤◌, refl, arith, Bool, true, false, not, Option, none, some, List, [], ◌∷◌, ok,
  Outcome, ◌>>=◌, Returns, if◌then◌else◌, ◌+◌, ◌-◌,
}
use isam_db_c_language.Base as Base
use isam_db_c_language.Base.Int.{pos}
use isam_db_c_language.HashTbl.{
  Key, str, HashTable, empty_table, hash, get, set, delete, len, keys, copy_ht,
}
use isam_db_c_language.HashTbl.Keys.{string, IsKey, key_eq}
use isam_db_c_language.HashTbl.Hash.{home, LoopFits, hash-bounds}
use isam_db_c_language.HashTbl.Chain.{is_found, node_of}
use isam_db_c_language.HashTbl.Model.{view, update, IsValid, empty_table-IsValid, view-empty_table}
use isam_db_c_language.HashTbl.Laws.{
  Means, appended, appended-Means, get-view, set-view, delete-view, get-set, get-delete,
}
use isam_db_c_language.HashTbl.Copy.{overlay, copy_ht-merge, copy_ht-overwrite}
use isam_db_c_language.HashTbl.Counting.{occurrences, keys-view, len-set, len-delete}

abbrev key_a : Key
key_a = str (97 ∷ 98 ∷ [])

abbrev key_b : Key
key_b = str (99 ∷ [])

a_IsKey : IsKey string key_a
a_IsKey = ((omega arith, omega arith), ((omega arith, omega arith), tt))

b_IsKey : IsKey string key_b
b_IsKey = ((omega arith, omega arith), tt)

empty_IsValid : IsValid string (empty_table 7)
empty_IsValid = empty_table-IsValid string 7 (omega arith) (omega arith)

abbrev one_key : HashTable
one_key = appended string (empty_table 7) empty_IsValid key_a a_IsKey 40

one_key-Means : Means string (update (view (empty_table 7)) key_a (some 40)) one_key
one_key-Means =
    appended-Means string (empty_table 7) empty_IsValid key_a a_IsKey 40 (view-empty_table 7 key_a)

get-view_example : get key_a one_key ≡ ok (view one_key key_a)
get-view_example = get-view string one_key one_key-Means.valid key_a a_IsKey

set-view_example : Returns (set key_b 50 one_key) (λ r.
    (r.0 ≡ not (is_found (view one_key key_b)))
    × Means string (if r.0 then update (view one_key) key_b (some 50) else view one_key) r.1)
set-view_example = set-view string one_key one_key-Means.valid key_b b_IsKey 50

delete-view_example : Returns (delete key_a one_key) (λ r.
    (r.0 ≡ node_of key_a (view one_key key_a))
    × Means string (update (view one_key) key_a none) r.1)
delete-view_example = delete-view string one_key one_key-Means.valid key_a a_IsKey

get-set_example :
    (set key_a 40 (empty_table 7) >>= λ r. get key_b r.1)
    ≡ ok (if key_eq key_a key_b then some 40 else view (empty_table 7) key_b)
get-set_example =
    get-set string (empty_table 7) empty_IsValid key_a key_b a_IsKey b_IsKey 40
      (view-empty_table 7 key_a)

get-delete_example :
    (delete key_a one_key >>= λ r. get key_b r.1)
    ≡ ok (if key_eq key_a key_b then none else view one_key key_b)
get-delete_example = get-delete string one_key one_key-Means.valid key_a key_b a_IsKey b_IsKey

copy_ht-merge_example :
    Returns
      (copy_ht one_key one_key 0)
      (Means string (overlay (update (view (empty_table 7)) key_a (some 40)) (view one_key)))
copy_ht-merge_example =
    copy_ht-merge string one_key one_key-Means.valid (update (view (empty_table 7)) key_a (some 40))
      one_key 0 refl one_key-Means

copy_ht-overwrite_example :
    Returns (copy_ht one_key (empty_table 3) 1) (Means string (view one_key))
copy_ht-overwrite_example = copy_ht-overwrite string one_key one_key-Means.valid (empty_table 3)

keys-view_example : Returns (keys one_key) (λ r.
    (r.length ≡ Base.length r.k)
    × (len one_key ≡ ok r.length)
    × ((q : Key) → occurrences q r.k ≡ (if is_found (view one_key q) then 1 else 0)))
keys-view_example = keys-view string one_key one_key-Means.valid

len-set_example :
    (set key_b 50 one_key >>= λ r. len r.1)
    ≡ (len one_key >>= λ n. ok (n + (if is_found (view one_key key_b) then 0 else 1)))
len-set_example = len-set string one_key one_key-Means.valid key_b b_IsKey 50

len-delete_example :
    (delete key_a one_key >>= λ r. len r.1)
    ≡ (len one_key >>= λ n. ok (n - (if is_found (view one_key key_a) then 1 else 0)))
len-delete_example = len-delete string one_key one_key-Means.valid key_a a_IsKey

hash-bounds_example :
    Returns (hash key_a 7) (λ h. (h ≡ pos (home key_a 7)) × (home key_a 7 < 7) × LoopFits key_a 7)
hash-bounds_example = hash-bounds string key_a 7 a_IsKey (omega arith) (omega arith)
