-- ===== src/HashTbl/Counting.antt =====
-- `len` and `keys`: the code counts and lists each key of the index once.
use isam_db_c_language.Base.{
  ℕ, ◌+◌, ◌-◌, ◌≤◌, ◌<◌, zero, suc, ◌≡◌, ◌≢◌, refl, ap, sym, ◌∙◌, arith, List, [], ◌∷◌, ◌++◌, ok,
  ◌>>=◌, Returns, if◌then◌else◌, length, take, get_or, length-append, set as set_elem, Option-cases,
  inl, inr,
}
use isam_db_c_language.HashTbl.{
  Key, Node, HashTable, set, delete, chains, len, keys, count_nodes, chain_keys, all_keys,
}
use isam_db_c_language.HashTbl.Keys.{Kind, IsKey, key_eq}
use isam_db_c_language.HashTbl.Hash.{home, home-lt}
use isam_db_c_language.HashTbl.Chain.{find, count, erase, is_found, length-erase}
use isam_db_c_language.HashTbl.Model.{bucket, view, IsValid, home-lt-array}
use isam_db_c_language.HashTbl.Laws.{
  appended, erased, set_absent, set_present, delete-erased, appended-Means, erased-Means,
}
use isam_db_c_language.HashTbl.Copy.{chains-take}

-- The nodes of several chains.
unfoldable pub total : List (List Node) → ℕ
total [] = 0
total (c ∷ m) = length c + total m

count_nodes-total : (m : List (List Node)) (n : ℕ) → count_nodes m n ≡ n + total m
unfolding count_nodes total
count_nodes-total [] n = omega arith
count_nodes-total (c ∷ m) n = omega (arith, count_nodes-total m (n + length c))

total-take-set :
    (n i : ℕ) (m : List (List Node)) (c : List Node)
    → i < n
    → i < length m
    → total (take n (set_elem m i c)) + length (get_or m i []) ≡ total (take n m) + length c
unfolding total
total-take-set zero i m c h k = elim h [ ]
total-take-set (suc n) i [] c h k = absurd (omega arith)
total-take-set (suc n) zero (b ∷ m) c h k = omega arith
total-take-set (suc n) (suc i) (b ∷ m) c h k =
    omega (arith, total-take-set n i m c (omega arith) (omega arith))

-- How often a key is listed.
pub occurrences : Key → List Key → ℕ
occurrences q [] = 0
occurrences q (k ∷ ks) = (if key_eq k q then 1 else 0) + occurrences q ks

occurrences-append :
    (q : Key) (a b : List Key) → occurrences q (a ++ b) ≡ occurrences q a + occurrences q b
unfolding occurrences
occurrences-append q [] b = omega arith
occurrences-append q (k ∷ a) b = omega (arith, occurrences-append q a b)

occurrences-chain_keys : (q : Key) (c : List Node) → occurrences q (chain_keys c) ≡ count q c
unfolding occurrences chain_keys count
occurrences-chain_keys q [] = refl
occurrences-chain_keys q (n ∷ c) = omega (arith, occurrences-chain_keys q c)

occurrences_away :
    (n : ℕ) (m : List (List Node)) (q : Key)
    → ((j : ℕ) → count q (get_or m j []) ≡ 0)
    → occurrences q (all_keys (take n m)) ≡ 0
unfolding all_keys occurrences
occurrences_away zero m q h = refl
occurrences_away (suc n) [] q h = refl
occurrences_away (suc n) (c ∷ m) q h = omega (
  arith,
  occurrences-append q (chain_keys c) (all_keys (take n m)),
  occurrences-chain_keys q c,
  h 0,
  occurrences_away n m q (λ j. h (suc j)),
)

occurrences_home :
    (n i : ℕ) (m : List (List Node)) (q : Key)
    → i < n
    → ((j : ℕ) → i ≢ j → count q (get_or m j []) ≡ 0)
    → occurrences q (all_keys (take n m)) ≡ count q (get_or m i [])
unfolding all_keys occurrences count
occurrences_home zero i m q lt h = elim lt [ ]
occurrences_home (suc n) i [] q lt h = refl
occurrences_home (suc n) zero (c ∷ m) q lt h = omega (
  arith,
  occurrences-append q (chain_keys c) (all_keys (take n m)),
  occurrences-chain_keys q c,
  occurrences_away n m q (λ j. h (suc j) (omega arith)),
)
occurrences_home (suc n) (suc i) (c ∷ m) q lt h = omega (
  arith,
  occurrences-append q (chain_keys c) (all_keys (take n m)),
  occurrences-chain_keys q c,
  h 0 (omega arith),
  occurrences_home n i m q (omega arith) (λ j ne. h (suc j) (omega arith)),
)

count_once :
    (q : Key) (c : List Node) → count q c ≤ 1 → count q c ≡ (if is_found (find q c) then 1 else 0)
unfolding count find
count_once q [] h = refl
count_once q (n ∷ c) h = ground (arith, count_once q c)

length-chain_keys : (c : List Node) → length (chain_keys c) ≡ length c
unfolding chain_keys
length-chain_keys [] = refl
length-chain_keys (n ∷ c) = ap suc (length-chain_keys c)

length-all_keys : (m : List (List Node)) → length (all_keys m) ≡ total m
unfolding all_keys total chain_keys
length-all_keys [] = refl
length-all_keys (c ∷ m) =
    omega (arith, length-append (chain_keys c) (all_keys m), length-chain_keys c, length-all_keys m)

module _ (κ : Kind) (t : HashTable) (valid : IsValid κ t) where
  pub in_use : chains t.size t.data_map ≡ ok (take t.size t.data_map)
  in_use = chains-take t.size t.data_map (omega (arith, valid.array, valid.fits))

  pub len-total : len t ≡ ok (total (take t.size t.data_map))
  unfolding len
  len-total = rw in_use (ap ok (omega (arith, count_nodes-total (take t.size t.data_map) 0)))

  -- On a valid table, `keys` is defined, lists each key of the index once and no other, and its
  -- length is the result of `len`.
  pub keys-view : Returns (keys t) (λ r.
      (r.length ≡ length r.k)
      × (len t ≡ ok r.length)
      × ((q : Key) → occurrences q r.k ≡ (if is_found (view t q) then 1 else 0)))
  unfolding keys view
  keys-view =
      let m = take t.size t.data_map in
      (
        record { k = all_keys m; length = total m },
        rw (len-total, in_use) refl,
        (
          sym (length-all_keys m),
          len-total,
          λ q.
              occurrences_home t.size (home q t.size) t.data_map q
                (home-lt q t.size (omega (arith, valid.two))) (λ j. valid.placed j q)
              ∙ count_once q (bucket t (home q t.size)) (valid.once (home q t.size) q),
        ),
      )

module _ (κ : Kind) (t : HashTable) (valid : IsValid κ t) (k : Key) (good : IsKey κ k) where
  -- The nodes after a write of one chain at the home of `k`.
  total_write :
      (c : List Node)
      → total (take t.size (set_elem t.data_map (home k t.size) c))
          + length (bucket t (home k t.size))
        ≡ total (take t.size t.data_map) + length c
  total_write c =
      total-take-set t.size (home k t.size) t.data_map c
        (home-lt k t.size (omega (arith, valid.two))) (home-lt-array κ t valid k good)

  -- On a valid table and a usable key, `set` makes `len` one more if the key is new, and leaves
  -- it if not.
  pub len-set :
      (v : ℕ)
      → (set k v t >>= λ r. len r.1)
        ≡ (len t >>= λ n. ok (n + (if is_found (view t k) then 0 else 1)))
  len-set v = elim (Option-cases (view t k)) [
    | inl e ↦
        rw
          (
            set_absent κ t valid k good v e,
            len-total κ (appended κ t valid k good v) (appended-Means κ t valid k good v e).valid,
            len-total κ t valid,
            e,
          )
          (ap ok (
            omega (
              arith,
              total_write _,
              length-append (bucket t (home k t.size)) (record { key = k; value = v } ∷ []),
            )))
    | inr (w, e) ↦
        rw (set_present κ t valid k good v w e, len-total κ t valid, e) (ap ok (omega arith))
  ]

  -- On a valid table and a usable key, `delete` makes `len` one less if the key is there, and
  -- leaves it if not.
  pub len-delete :
      (delete k t >>= λ r. len r.1)
      ≡ (len t >>= λ n. ok (n - (if is_found (view t k) then 1 else 0)))
  unfolding view
  len-delete =
      rw
        (
          delete-erased κ t valid k good,
          len-total κ (erased κ t valid k good) (erased-Means κ t valid k good).valid,
          len-total κ t valid,
        )
        (ap ok (
          omega (
            arith,
            total_write (erase k (bucket t (home k t.size))),
            length-erase k (bucket t (home k t.size)),
          )))
