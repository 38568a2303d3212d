-- ===== src/HashTbl/Copy.antt =====
-- `copy_ht` in both modes, against the abstract index.
use isam_db_c_language.Base.{
  ℕ, ◌≤◌, ◌<◌, zero, suc, ◌≡◌, refl, ◌∙◌, arith, Bool, ◌≢◌, ◌==◌, true, false, not, List, [], ◌∷◌,
  ok, Returns, Option, none, some, if◌then◌else◌, length, take, get_or, All,
}
use isam_db_c_language.HashTbl.{
  Key, Node, HashTable, set, chains, copy_chain, copy_bucket, copy_all, copy_ht, empty_table,
}
use isam_db_c_language.HashTbl.Keys.{Kind, IsKey, key_eq, key_eq_iff, same_type_of_kind}
use isam_db_c_language.HashTbl.Hash.{home, home-lt}
use isam_db_c_language.HashTbl.Chain.{IsOfKind, find, count, is_found, find-none_of_count}
use isam_db_c_language.HashTbl.Model.{view, IsValid, update, empty_table-IsValid, view-empty_table}
use isam_db_c_language.HashTbl.Laws.{Means, set-view}

-- What `f` has, and under the other keys what `g` has.
abbrev pub overlay : (Key → Option ℕ) → (Key → Option ℕ) → Key → Option ℕ
overlay f g q = if is_found (f q) then f q else g q

Means-ext :
    (κ : Kind) (f g : Key → Option ℕ) (t : HashTable)
    → ((q : Key) → f q ≡ g q)
    → Means κ f t
    → Means κ g t
Means-ext κ f g t h m = record { valid = m.valid; reads = λ q. m.reads q ∙ h q }

copied :
    (b : Bool) (f g : Key → Option ℕ) (k q : Key) (v : ℕ)
    → b ≡ not (is_found (g k))
    → g k ≡ f k
    → g q ≡ f q
    → (if b then update g k (some v) else g) q
      ≡ overlay f (λ j. if key_eq k j then some v else none) q
copied true f g k q v h e e' = ground (arith, key_eq_iff k q)
copied false f g k q v h e e' = ground (arith, key_eq_iff k q)

-- One `set` of the copy.
copy_one :
    (κ : Kind) (f : Key → Option ℕ) (n : Node) (t : HashTable)
    → IsKey κ n.key
    → Means κ f t
    → Returns
        (set n.key n.value t)
        (λ r. Means κ (overlay f (λ q. if key_eq n.key q then some n.value else none)) r.1)
copy_one κ f n t good m =
    let (r, run, (flag, after)) = set-view κ t m.valid n.key good n.value in
    (
      r,
      run,
      Means-ext κ _ _ r.1
          (λ q. copied r.0 f (view t) n.key q n.value flag (m.reads n.key) (m.reads q)) after,
    )

-- The first chain of several that has the key.
find_all : List (List Node) → Key → Option ℕ
find_all [] q = none
find_all (c ∷ m) q = overlay (λ j. find j c) (find_all m) q

module _ (κ : Kind) where
  copy_chain-Means :
      (head : Key) (c : List Node) (f : Key → Option ℕ) (t : HashTable)
      → IsKey κ head
      → IsOfKind κ c
      → Means κ f t
      → Returns (copy_chain head c t) (Means κ (overlay f (λ q. find q c)))
  unfolding copy_chain find
  copy_chain-Means head [] f t good kinds m = (t, refl, Means-ext κ _ _ t (λ q. ground arith) m)
  copy_chain-Means head (n ∷ c) f t good kinds m =
      let (r, run, after) = copy_one κ f n t kinds.0 m in
      let (d, go, end) = copy_chain-Means head c _ r.1 good kinds.1 after in
      (
        d,
        rw (same_type_of_kind κ head n.key good kinds.0, run) go,
        Means-ext κ _ _ d (λ q. ground arith) end,
      )

  copy_bucket-Means :
      (c : List Node) (f : Key → Option ℕ) (t : HashTable)
      → IsOfKind κ c
      → Means κ f t
      → Returns (copy_bucket c t) (Means κ (overlay f (λ q. find q c)))
  unfolding copy_bucket find
  copy_bucket-Means [] f t kinds m =
      (t, refl, Means-ext κ f (overlay f (λ q. find q [])) t (λ q. ground arith) m)
  copy_bucket-Means (n ∷ c) f t kinds m = copy_chain-Means n.key (n ∷ c) f t kinds.0 kinds m

  copy_all-Means :
      (m : List (List Node)) (f : Key → Option ℕ) (t : HashTable)
      → All (IsOfKind κ) m
      → Means κ f t
      → Returns (copy_all m t) (Means κ (overlay f (find_all m)))
  unfolding copy_all find_all
  copy_all-Means [] f t kinds p = (t, refl, Means-ext κ _ _ t (λ q. ground arith) p)
  copy_all-Means (c ∷ m) f t kinds p =
      let (r, run, after) = copy_bucket-Means c f t kinds.0 p in
      let (d, go, end) = copy_all-Means m _ r kinds.1 after in
      (d, rw run go, Means-ext κ _ _ d (λ q. ground arith) end)

-- The chains that the code visits, read as one map, are the abstract index.
find_all_away :
    (n i : ℕ) (m : List (List Node)) (q : Key)
    → ((j : ℕ) → count q (get_or m j []) ≡ 0)
    → find_all (take n m) q ≡ none
unfolding find_all count
find_all_away zero i m q h = refl
find_all_away (suc n) i [] q h = refl
find_all_away (suc n) i (c ∷ m) q h =
    rw (find-none_of_count q c (h 0)) (find_all_away n i m q (λ j. h (suc j)))

find_all_home :
    (n i : ℕ) (m : List (List Node)) (q : Key)
    → i < n
    → ((j : ℕ) → i ≢ j → count q (get_or m j []) ≡ 0)
    → find_all (take n m) q ≡ find q (get_or m i [])
unfolding find_all
find_all_home zero i m q lt h = elim lt [ ]
find_all_home (suc n) i [] q lt h = unfold find in refl
find_all_home (suc n) zero (c ∷ m) q lt h =
    let away : find_all (take n m) q ≡ none =
      find_all_away n zero m q (λ j. h (suc j) (omega arith)) in
    ground arith
find_all_home (suc n) (suc i) (c ∷ m) q lt h =
    rw (find-none_of_count q c (h 0 (omega arith)))
      (find_all_home n i m q (omega arith) (λ j ne. h (suc j) (omega arith)))

pub chains-take : (n : ℕ) (m : List (List Node)) → n ≤ length m → chains n m ≡ ok (take n m)
unfolding chains
chains-take zero m h = refl
chains-take (suc n) [] h = absurd (omega arith)
chains-take (suc n) (c ∷ m) h = rw (chains-take n m (omega arith))

kinds_take :
    (κ : Kind) (n : ℕ) (m : List (List Node))
    → ((i : ℕ) → IsOfKind κ (get_or m i []))
    → All (IsOfKind κ) (take n m)
kinds_take κ zero m h = tt
kinds_take κ (suc n) [] h = tt
kinds_take κ (suc n) (c ∷ m) h = (h 0, kinds_take κ n m (λ i. h (suc i)))

module _ (κ : Kind) (src : HashTable) (valid : IsValid κ src) where
  find_all-view : (q : Key) → find_all (take src.size src.data_map) q ≡ view src q
  unfolding view
  find_all-view q =
      find_all_home src.size (home q src.size) src.data_map q
        (home-lt q src.size (omega (arith, valid.two))) (λ j. valid.placed j q)

  -- Between valid tables of one kind of keys, `copy_ht` in another mode than 1 makes a valid
  -- table, keeps the offsets of the destination and adds those of the source under the keys that
  -- it lacks.
  pub copy_ht-merge :
      (f : Key → Option ℕ) (dest : HashTable) (mode : ℕ)
      → (mode == 1) ≡ false
      → Means κ f dest
      → Returns (copy_ht src dest mode) (Means κ (overlay f (view src)))
  unfolding copy_ht
  copy_ht-merge f dest mode e m =
      let (d, run, after) =
        copy_all-Means κ (take src.size src.data_map) f dest (kinds_take κ _ _ valid.kind) m in
      (
        d,
        rw (e, chains-take src.size src.data_map (omega (arith, valid.array, valid.fits))) run,
        Means-ext κ _ _ d (λ q. rw (find_all-view q) refl) after,
      )

  -- From a valid table, `copy_ht` in mode 1 makes a valid table that means what the source means,
  -- whatever the destination held.
  pub copy_ht-overwrite : (dest : HashTable) → Returns (copy_ht src dest 1) (Means κ (view src))
  unfolding copy_ht
  copy_ht-overwrite dest =
      let start : Means κ (λ q. none) (empty_table src.size) = record {
        valid = empty_table-IsValid κ src.size valid.two valid.fits;
        reads = view-empty_table src.size;
      } in
      let (d, run, after) =
        copy_all-Means κ (take src.size src.data_map) (λ q. none) (empty_table src.size)
          (kinds_take κ _ _ valid.kind) start in
      (
        d,
        rw (chains-take src.size src.data_map (omega (arith, valid.array, valid.fits))) run,
        Means-ext κ _ _ d (λ q. find_all-view q) after,
      )
