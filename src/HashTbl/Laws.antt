-- ===== src/HashTbl/Laws.antt =====
-- `get`, `set` and `delete` on a valid table, against the abstract index.
use isam_db_c_language.Base.{
  ℕ, ◌≤◌, ◌≡◌, ◌≢◌, refl, ap, ◌∙◌, arith, true, false, not, [], ◌∷◌, ◌++◌, ok, ◌>>=◌, Returns,
  Option, none, some, if◌then◌else◌, Option-cases, inl, inr, set as set_elem,
}
use isam_db_c_language.HashTbl.{Key, Node, HashTable, get, set, delete}
use isam_db_c_language.HashTbl.Keys.{Kind, IsKey, key_eq, key_eq_iff}
use isam_db_c_language.HashTbl.Hash.{home}
use isam_db_c_language.HashTbl.Chain.{
  count, erase, node_of, is_found, get_chain-find, set_chain_new, set_chain_old, delete_chain-erase,
  count-zero_of_find, find-append_one, count-append_one, IsOfKind-append, IsOfKind-erase,
  find-erase, count-erase-le, first-find,
}
use isam_db_c_language.HashTbl.Model.{bucket, view, IsValid, update, locate-home, write_home}

-- A valid table that means `f`.
pub record Means (κ : Kind) (f : Key → Option ℕ) (t : HashTable) : Type 0 where
  pub valid : IsValid κ t
  pub reads : (q : Key) → view t q ≡ f q

module _ (κ : Kind) (t : HashTable) (valid : IsValid κ t) (k : Key) (good : IsKey κ k) where
  -- On a valid table and a usable key, `get` is defined and returns the offset of the abstract
  -- index, or -1.
  pub get-view : get k t ≡ ok (view t k)
  unfolding get view
  get-view =
      rw (locate-home κ t valid k good)
        (get_chain-find κ k good (bucket t (home k t.size)) (valid.kind (home k t.size)))

  abbrev pub appended : ℕ → HashTable
  appended v = record t {
    data_map =
        set_elem t.data_map (home k t.size)
          (bucket t (home k t.size) ++ record { key = k; value = v } ∷ []);
  }

  pub set_absent : (v : ℕ) → view t k ≡ none → set k v t ≡ ok (true, appended v)
  unfolding set view
  set_absent v e = rw (
    locate-home κ t valid k good,
    set_chain_new κ k good v (bucket t (home k t.size)) (valid.kind (home k t.size)) e,
  )

  pub appended-Means : (v : ℕ) → view t k ≡ none → Means κ (update (view t) k (some v)) (appended v)
  unfolding view
  appended-Means v e =
      let n : Node = record { key = k; value = v } in
      let c = bucket t (home k t.size) in
      let (p, q) =
        write_home κ t valid k good (c ++ n ∷ []) (some v)
          (IsOfKind-append κ n c (valid.kind (home k t.size)) good) (λ q. few q)
          (λ q ne. apart q ne) (λ q. find-append_one q k v c e) in
      record { valid = p; reads = q }
    where
      few : (q : Key) → count q (bucket t (home k t.size) ++ record { key = k; value = v } ∷ []) ≤ 1
      few q = ground (
        arith,
        count-append_one q (record { key = k; value = v }) (bucket t (home k t.size)),
        key_eq_iff k q,
        count-zero_of_find k (bucket t (home k t.size)),
        valid.once (home k t.size) q,
      )

      apart :
          (q : Key)
          → home q t.size ≢ home k t.size
          → count q (bucket t (home k t.size) ++ record { key = k; value = v } ∷ []) ≡ 0
      apart q ne = ground (
        arith,
        count-append_one q (record { key = k; value = v }) (bucket t (home k t.size)),
        key_eq_iff k q,
        valid.placed (home k t.size) q,
      )

  pub set_present : (v w : ℕ) → view t k ≡ some w → set k v t ≡ ok (false, t)
  unfolding set view
  set_present v w e = rw (
    locate-home κ t valid k good,
    set_chain_old κ k good v (bucket t (home k t.size)) {w = w} (valid.kind (home k t.size)) e,
  )

  -- On a valid table and a usable key, `set` adds a key that is not in the index and returns 1;
  -- it refuses a key that is there, returns 0 and changes nothing. The table stays valid.
  pub set-view :
      (v : ℕ)
      → Returns (set k v t) (λ r.
        (r.0 ≡ not (is_found (view t k)))
        × Means κ (if r.0 then update (view t) k (some v) else view t) r.1)
  set-view v = elim (Option-cases (view t k)) [
    | inl e ↦ ((true, appended v), set_absent v e, (rw e refl, appended-Means v e))
    | inr (w, e) ↦
        ((false, t), set_present v w e, (rw e refl, record { valid = valid; reads = λ q. refl }))
  ]

  abbrev pub erased : HashTable
  erased = record t {
    data_map = set_elem t.data_map (home k t.size) (erase k (bucket t (home k t.size)));
  }

  pub delete-erased : delete k t ≡ ok (node_of k (view t k), erased)
  unfolding delete view
  delete-erased = rw (
    locate-home κ t valid k good,
    delete_chain-erase κ k good (bucket t (home k t.size)) (valid.kind (home k t.size)),
    first-find k (bucket t (home k t.size)),
  )

  pub erased-Means : Means κ (update (view t) k none) erased
  unfolding view
  erased-Means =
      let c = bucket t (home k t.size) in
      let (p, q) =
        write_home κ t valid k good (erase k c) none
          (IsOfKind-erase κ k c (valid.kind (home k t.size)))
          (λ q. omega (arith, count-erase-le q k c, valid.once (home k t.size) q))
          (λ q ne. omega (arith, count-erase-le q k c, valid.placed (home k t.size) q ne))
          (λ q. find-erase q k c (valid.once (home k t.size) q)) in
      record { valid = p; reads = q }

  -- On a valid table and a usable key, `delete` returns the node of the key, or NULL, and leaves
  -- a valid table that means the old index without the key.
  pub delete-view :
      Returns
        (delete k t)
        (λ r. (r.0 ≡ node_of k (view t k)) × Means κ (update (view t) k none) r.1)
  delete-view = ((node_of k (view t k), erased), delete-erased, (refl, erased-Means))

pub get-Means :
    (κ : Kind) (f : Key → Option ℕ) (t : HashTable) (k : Key)
    → Means κ f t
    → IsKey κ k
    → get k t ≡ ok (f k)
get-Means κ f t k m good = get-view κ t m.valid k good ∙ ap ok (m.reads k)

module _ (κ : Kind) (t : HashTable) (valid : IsValid κ t) (k q : Key) (good : IsKey κ k)
    (good' : IsKey κ q) where
  -- On a valid table and usable keys: after `set` of a new key, `get` reads the new offset under
  -- the key and the old ones under all others.
  pub get-set :
      (v : ℕ)
      → view t k ≡ none
      → (set k v t >>= λ r. get q r.1) ≡ ok (if key_eq k q then some v else view t q)
  get-set v e =
      rw (set_absent κ t valid k good v e)
        (get-Means κ _ _ q (appended-Means κ t valid k good v e) good')

  -- On a valid table and usable keys: after `delete` of a key, `get` finds nothing under it and
  -- reads as before under all others.
  pub get-delete : (delete k t >>= λ r. get q r.1) ≡ ok (if key_eq k q then none else view t q)
  get-delete =
      rw (delete-erased κ t valid k good) (get-Means κ _ _ q (erased-Means κ t valid k good) good')
