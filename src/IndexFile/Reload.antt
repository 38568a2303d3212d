-- ===== src/IndexFile/Reload.antt =====
-- The table that `read_index_file` makes of the bytes of a valid table.
use mathlib.Core.Path.{subst}
use native.Mathlib.Nat.{zero-add}
use isam_db_c_language.Base.{
  ℕ, zero, suc, ◌+◌, ◌≤◌, ◌<◌, ◌≡◌, refl, ap, sym, ◌∙◌, arith, List, [], ◌∷◌, ◌++◌, length, take,
  ltb, get_or, length-replicate, get_or-replicate, get_or_ext, Bool-cases, inl, inr, ltb→lt,
}
use isam_db_c_language.HashTbl.{Key, Node, HashTable, max_ht_bucket, empty_table}
use isam_db_c_language.HashTbl.Keys.{Kind, string, key_eq_iff}
use isam_db_c_language.HashTbl.Hash.{home-lt}
use isam_db_c_language.HashTbl.Chain.{IsOfKind, count}
use isam_db_c_language.HashTbl.Model.{bucket, IsValid}
use isam_db_c_language.IndexFile.Encode.{nodes, flat}
use isam_db_c_language.IndexFile.Load.{absorb_all}
use isam_db_c_language.IndexFile.Absorb.{kept, kept-nil, AtHome, at_home, Fills, absorb_flat}

get_or-take_lt : (n j : ℕ) (m : List (List Node)) → j < n → get_or (take n m) j [] ≡ get_or m j []
get_or-take_lt zero j m h = elim h [ ]
get_or-take_lt (suc n) j [] h = refl
get_or-take_lt (suc n) zero (c ∷ m) h = refl
get_or-take_lt (suc n) (suc j) (c ∷ m) h = get_or-take_lt n j m (omega arith)

get_or-take_ge : (n j : ℕ) (m : List (List Node)) → n ≤ j → get_or (take n m) j [] ≡ []
get_or-take_ge zero j m h = refl
get_or-take_ge (suc n) j [] h = refl
get_or-take_ge (suc n) zero (c ∷ m) h = absurd (omega arith)
get_or-take_ge (suc n) (suc j) (c ∷ m) h = get_or-take_ge n j m (omega arith)

length-take_le : (n : ℕ) (m : List (List Node)) → n ≤ length m → length (take n m) ≡ n
length-take_le zero m h = refl
length-take_le (suc n) [] h = absurd (omega arith)
length-take_le (suc n) (c ∷ m) h = ap suc (length-take_le n m (omega arith))

-- No key counts in an empty chain only.
chain_nil : (c : List Node) → ((q : Key) → count q c ≡ 0) → c ≡ []
unfolding count
chain_nil [] h = refl
chain_nil (n ∷ c) h = absurd (ground (arith, h n.key, key_eq_iff n.key n.key))

module _ (κ : Kind) (t : HashTable) (valid : IsValid κ t) where
  beyond : (j : ℕ) → t.size ≤ j → bucket t j ≡ []
  beyond j h =
      chain_nil (bucket t j)
        (λ q. valid.placed j q (omega (arith, home-lt q t.size (omega (arith, valid.two)))))

  taken : (j : ℕ) → get_or (take t.size t.data_map) j [] ≡ bucket t j
  taken j = elim (Bool-cases (ltb j t.size)) [
    | inl e ↦ get_or-take_lt t.size j t.data_map (ltb→lt j t.size e)
    | inr e ↦
        let le : t.size ≤ j = ground arith in
        get_or-take_ge t.size j t.data_map le ∙ sym (beyond j le)
  ]

  -- The table that a reader builds from the bytes of `t`.
  abbrev pub reloaded : HashTable
  reloaded = absorb_all (nodes t) (record (empty_table 0) { size = t.size })

  filled : Fills κ (record (empty_table 0) { size = t.size }) 0 (take t.size t.data_map) reloaded
  unfolding empty_table
  filled =
      absorb_flat κ 0 (take t.size t.data_map) (record (empty_table 0) { size = t.size })
        (λ j. subst (IsOfKind κ) (sym (taken j)) (valid.kind j))
        (λ j.
          subst (AtHome t.size (0 + j)) (sym (taken j))
            (at_home t.size (0 + j) (bucket t j) (λ q ne. valid.placed j q (omega arith))))
        (omega (
          arith,
          length-take_le t.size t.data_map (omega (arith, valid.array, valid.fits)),
          valid.fits,
          length-replicate {A = List Node} max_ht_bucket [],
        ))
        (λ j h. get_or-replicate {A = List Node} max_ht_bucket j [])

  pub reloaded-bucket : (j : ℕ) → bucket reloaded j ≡ kept κ (bucket t j)
  unfolding empty_table
  reloaded-bucket j = elim (Bool-cases (ltb j t.size)) [
    | inl e ↦
        subst (λ (k : ℕ). bucket reloaded k ≡ kept κ (bucket t j)) (zero-add j)
          (filled.inside j (
              omega (
                arith,
                ltb→lt j t.size e,
                length-take_le t.size t.data_map (omega (arith, valid.array, valid.fits)),
              ))
            ∙ ap (kept κ) (taken j))
    | inr e ↦
        let le : t.size ≤ j = ground arith in
        filled.outside j (
          inr (
            omega
              (arith, length-take_le t.size t.data_map (omega (arith, valid.array, valid.fits)))))
        ∙ get_or-replicate {A = List Node} max_ht_bucket j []
        ∙ kept-nil κ
        ∙ ap (kept κ) (sym (beyond j le))
  ]

  pub reloaded-size : reloaded.size ≡ t.size
  reloaded-size = filled.size

  pub reloaded-width : length reloaded.data_map ≡ max_ht_bucket
  unfolding empty_table
  reloaded-width = filled.width ∙ length-replicate {A = List Node} max_ht_bucket []

-- String keys: nothing is lost or moved.
pub reloaded-string : (t : HashTable) (valid : IsValid string t) → reloaded string t valid ≡ t
unfolding kept
reloaded-string t valid =
    let map : (reloaded string t valid).data_map ≡ t.data_map =
      get_or_ext _ _ [] (reloaded-width string t valid ∙ sym valid.array)
        (reloaded-bucket string t valid) in
    λ i. record { size = reloaded-size string t valid i; data_map = map i }

IsOfKind-append : (κ : Kind) (a b : List Node) → IsOfKind κ a → IsOfKind κ b → IsOfKind κ (a ++ b)
IsOfKind-append κ [] b h k = k
IsOfKind-append κ (n ∷ a) b h k = (h.0, IsOfKind-append κ a b h.1 k)

flat_kind :
    (κ : Kind) (n : ℕ) (m : List (List Node))
    → ((j : ℕ) → IsOfKind κ (get_or m j []))
    → IsOfKind κ (flat (take n m))
unfolding flat
flat_kind κ zero m h = tt
flat_kind κ (suc n) [] h = tt
flat_kind κ (suc n) (c ∷ m) h = IsOfKind-append κ c _ (h 0) (flat_kind κ n m (λ j. h (suc j)))

pub nodes-kind : (κ : Kind) (t : HashTable) → IsValid κ t → IsOfKind κ (nodes t)
nodes-kind κ t valid = flat_kind κ t.size t.data_map valid.kind
