-- ===== src/HashTbl/Model.antt =====
-- What a table means: a partial function from keys to offsets. A valid table keeps each key of
-- its one kind in its home bucket, once.
use mathlib.Core.Path.{subst}
use native.Mathlib.Decide.{ℕ_discrete}
use isam_db_c_language.Base.{
  ℕ, ◌≤◌, ◌<◌, ◌≡◌, ◌≢◌, refl, ap, sym, ◌∙◌, arith, List, [], ok, Option, none, if◌then◌else◌,
  length, get_or, get_elem?-get_or, get_or-set_self, get_or-set_ne, get_or-replicate, length-set,
  length-replicate, set as set_elem, Bool-cases, inl, inr,
}
use isam_db_c_language.HashTbl.{Key, Node, HashTable, max_ht_bucket, locate, empty_table}
use isam_db_c_language.HashTbl.Keys.{Kind, IsKey, key_eq, key_eq_iff}
use isam_db_c_language.HashTbl.Hash.{home, home-lt, hash-home}
use isam_db_c_language.HashTbl.Chain.{IsOfKind, find, count}

abbrev pub bucket : HashTable → ℕ → List Node
bucket t i = get_or t.data_map i []

-- The abstract index.
unfoldable pub view : HashTable → Key → Option ℕ
view t q = find q (bucket t (home q t.size))

pub record IsValid (κ : Kind) (t : HashTable) : Type 0 where
  pub array : length t.data_map ≡ max_ht_bucket
  pub fits : t.size ≤ max_ht_bucket
  pub two : 1 < t.size
  pub kind : (i : ℕ) → IsOfKind κ (bucket t i)
  pub once : (i : ℕ) (q : Key) → count q (bucket t i) ≤ 1
  pub placed : (i : ℕ) (q : Key) → home q t.size ≢ i → count q (bucket t i) ≡ 0

-- A bucket of the array after a write of one chain.
bucket_cases {ℓ} :
    (m : List (List Node)) (h i : ℕ) (c : List Node) (P : List Node → Type ℓ)
    → h < length m
    → (h ≡ i → P c)
    → (h ≢ i → P (get_or m i []))
    → P (get_or (set_elem m h c) i [])
bucket_cases m h i c P lt same other = elim (ℕ_discrete h i) [
  | yes e ↦
      subst (λ j. P (get_or (set_elem m h c) j [])) e
        (subst P (sym (get_or-set_self m h c [] lt)) (same e))
  | no ne ↦ subst P (sym (get_or-set_ne m h i c [] ne)) (other ne)
]

-- The function that differs from `f` at `k` alone.
abbrev pub update : (Key → Option ℕ) → Key → Option ℕ → Key → Option ℕ
update f k v q = if key_eq k q then v else f q

-- A usable key finds its home bucket in any array that is long enough.
pub locate-bucket :
    (κ : Kind) (t : HashTable) (k : Key)
    → IsKey κ k
    → 1 < t.size
    → t.size ≤ length t.data_map
    → locate k t ≡ ok (home k t.size, bucket t (home k t.size))
unfolding locate
locate-bucket κ t k good two fits = rw (
  hash-home κ k t.size good two,
  get_elem?-get_or t.data_map (home k t.size) [] (omega (arith, home-lt k t.size (omega arith))),
)

module _ (κ : Kind) (t : HashTable) (valid : IsValid κ t) (k : Key) (good : IsKey κ k) where
  pub home-lt-array : home k t.size < length t.data_map
  home-lt-array =
      omega (arith, valid.array, valid.fits, valid.two, home-lt k t.size (omega (arith, valid.two)))

  pub locate-home : locate k t ≡ ok (home k t.size, bucket t (home k t.size))
  locate-home = locate-bucket κ t k good valid.two (omega (arith, valid.array, valid.fits))

  view_write_home :
      (c : List Node) (v : Option ℕ) (q : Key)
      → find q c ≡ (if key_eq k q then v else find q (bucket t (home k t.size)))
      → view (record t { data_map = set_elem t.data_map (home k t.size) c }) q
        ≡ update (view t) k v q
  unfolding view
  view_write_home c v q reads =
      bucket_cases t.data_map (home k t.size) (home q t.size) c
        (λ b. find q b ≡ (if key_eq k q then v else find q (bucket t (home q t.size))))
        home-lt-array (λ e. reads ∙ ap (λ (i : ℕ). if key_eq k q then v else find q (bucket t i)) e)
        (λ ne. elim (Bool-cases (key_eq k q)) [
          | inl e ↦ absurd (ne (ap (λ j. home j t.size) ((key_eq_iff k q).0 e)))
          | inr e ↦ rw e refl
        ])

  -- A write of one chain at the home of `k` that changes the chain as a map at `k` alone.
  pub write_home :
      (c : List Node) (v : Option ℕ)
      → IsOfKind κ c
      → ((q : Key) → count q c ≤ 1)
      → ((q : Key) → home q t.size ≢ home k t.size → count q c ≡ 0)
      → ((q : Key) → find q c ≡ (if key_eq k q then v else find q (bucket t (home k t.size))))
      → let t' = record t { data_map = set_elem t.data_map (home k t.size) c } in
        IsValid κ t' × ((q : Key) → view t' q ≡ update (view t) k v q)
  write_home c v kinds few apart reads = (
    record {
      array = length-set t.data_map (home k t.size) c ∙ valid.array;
      fits = valid.fits;
      two = valid.two;
      kind = λ i.
          bucket_cases t.data_map _ i c (IsOfKind κ) home-lt-array (λ e. kinds) (λ e. valid.kind i);
      once = λ i q.
          bucket_cases t.data_map _ i c (λ b. count q b ≤ 1) home-lt-array (λ e. few q)
            (λ e. valid.once i q);
      placed = λ i q ne.
          bucket_cases t.data_map _ i c (λ b. count q b ≡ 0) home-lt-array (λ e. apart q (rw e ne))
            (λ e. valid.placed i q ne);
    },
    λ q. view_write_home c v q (reads q),
  )

pub empty_table-IsValid :
    (κ : Kind) (size : ℕ) → 1 < size → size ≤ max_ht_bucket → IsValid κ (empty_table size)
unfolding empty_table count
empty_table-IsValid κ size two fits = record {
  array = length-replicate {A = List Node} max_ht_bucket [];
  fits = fits;
  two = two;
  kind = λ i. rw (get_or-replicate {A = List Node} max_ht_bucket i []) tt;
  once = λ i q. rw (get_or-replicate {A = List Node} max_ht_bucket i []) (omega arith);
  placed = λ i q h. rw (get_or-replicate {A = List Node} max_ht_bucket i []) refl;
}

pub view-empty_table : (size : ℕ) (q : Key) → view (empty_table size) q ≡ none
unfolding view empty_table find
view-empty_table size q = rw (get_or-replicate {A = List Node} max_ht_bucket (home q size) []) refl
