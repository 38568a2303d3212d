-- ===== src/IndexFile/Absorb.antt =====
-- What the insertions of `read_index_file` make of the nodes of a valid table.
use mathlib.Core.Path.{subst}
use native.Mathlib.Decide.{ℕ_discrete}
use isam_db_c_language.Base.{
  ℕ, zero, suc, ◌+◌, ◌≤◌, ◌<◌, ◌≡◌, ◌≢◌, refl, ap, sym, ◌∙◌, arith, List, [], ◌∷◌, ◌++◌, length,
  append_assoc, append-nil, All, length-set, get_or, get_or-set_self, get_or-set_ne, inl, ◌⊎◌,
}
use isam_db_c_language.HashTbl.{Key, str, uint, Node, HashTable}
use isam_db_c_language.HashTbl.Keys.{Kind, string, number, IsKey, key_eq_iff}
use isam_db_c_language.HashTbl.Hash.{home}
use isam_db_c_language.HashTbl.Chain.{IsOfKind, count}
use isam_db_c_language.HashTbl.Model.{bucket}
use isam_db_c_language.IndexFile.{absorb}
use isam_db_c_language.IndexFile.Encode.{flat}
use isam_db_c_language.IndexFile.Load.{absorbed, absorb_all}

-- What is left of a chain after a write and a read.
unfoldable pub kept : Kind → List Node → List Node
kept string c = c
kept number [] = []
kept number (n ∷ c) = n ∷ []

absorb-kept :
    (κ : Kind) (k : Key) (c : List Node) (v : ℕ)
    → IsKey κ k
    → absorb k (kept κ c) (record { key = k; value = v })
      ≡ kept κ (c ++ record { key = k; value = v } ∷ [])
unfolding absorb kept
absorb-kept string (str s) c v h = refl
absorb-kept number (uint n) [] v h = refl
absorb-kept number (uint n) (m ∷ c) v h = refl
absorb-kept string (uint n) c v h = absurd h
absorb-kept number (str s) c v h = absurd h

pub kept-nil : (κ : Kind) → [] ≡ kept κ []
unfolding kept
kept-nil string = refl
kept-nil number = refl

-- All nodes of a chain belong to bucket `i`.
abbrev pub AtHome : ℕ → ℕ → List Node → Type 0
AtHome size i c = All (λ (n : Node). home n.key size ≡ i) c

pub at_home :
    (size i : ℕ) (c : List Node) → ((q : Key) → home q size ≢ i → count q c ≡ 0) → AtHome size i c
unfolding count
at_home size i [] h = tt
at_home size i (n ∷ c) h = (
  elim (ℕ_discrete (home n.key size) i) [
    | yes e ↦ e
    | no ne ↦ absurd (ground (arith, h n.key ne, key_eq_iff n.key n.key))
  ],
  at_home size i c (λ q ne. omega (arith, h q ne)),
)

-- `r` is `u` with the chain `c` in bucket `i`.
record Replaces (u : HashTable) (i : ℕ) (c : List Node) (r : HashTable) : Type 0 where
  size : r.size ≡ u.size
  width : length r.data_map ≡ length u.data_map
  here : get_or r.data_map i [] ≡ c
  else_where : (j : ℕ) → i ≢ j → get_or r.data_map j [] ≡ get_or u.data_map j []

-- Inserting a chain's nodes, when some are in already.
absorb_chain :
    (κ : Kind) (i : ℕ) (c done : List Node) (u : HashTable)
    → IsOfKind κ c
    → AtHome u.size i c
    → i < length u.data_map
    → bucket u i ≡ kept κ done
    → Replaces u i (kept κ (done ++ c)) (absorb_all c u)
unfolding absorb_all
absorb_chain κ i [] done u kinds homes lt e = record {
  size = refl;
  width = refl;
  here = e ∙ ap (kept κ) (sym (append-nil done));
  else_where = λ j ne. refl;
}
absorb_chain κ i (n ∷ c) done u kinds homes lt e =
    let u' = absorbed n u in
    let lt' : home n.key u.size < length u.data_map =
      subst (λ h. h < length u.data_map) (sym homes.0) lt in
    let here' : bucket u' i ≡ kept κ (done ++ n ∷ []) =
      subst (λ (j : ℕ). bucket u j ≡ kept κ done → bucket u' j ≡ kept κ (done ++ n ∷ [])) homes.0
        (λ e'.
          get_or-set_self u.data_map (home n.key u.size) _ [] lt'
          ∙ ap (λ (b : List Node). absorb n.key b n) e'
          ∙ absorb-kept κ n.key done n.value kinds.0)
        e in
    let r =
      absorb_chain κ i c (done ++ n ∷ []) u' kinds.1 homes.1 (rw (length-set u.data_map) lt)
        here' in
    record {
      size = r.size;
      width = r.width ∙ length-set u.data_map (home n.key u.size) _;
      here = r.here ∙ ap (kept κ) (append_assoc done (n ∷ []) c);
      else_where = λ j ne.
          r.else_where j ne
          ∙ get_or-set_ne u.data_map (home n.key u.size) j _ [] (λ e. ne (sym homes.0 ∙ e));
    }

absorb_all-append :
    (a b : List Node) (u : HashTable) → absorb_all (a ++ b) u ≡ absorb_all b (absorb_all a u)
unfolding absorb_all
absorb_all-append [] b u = refl
absorb_all-append (n ∷ a) b u = absorb_all-append a b (absorbed n u)

-- `r` has the chains of `m` in the buckets from `i` on, and is `u` elsewhere.
pub record Fills (κ : Kind) (u : HashTable) (i : ℕ) (m : List (List Node)) (r : HashTable)
    : Type 0 where
  pub size : r.size ≡ u.size
  pub width : length r.data_map ≡ length u.data_map
  pub inside : (j : ℕ) → j < length m → bucket r (i + j) ≡ kept κ (get_or m j [])
  pub outside : (j : ℕ) → (j < i) ⊎ (i + length m ≤ j) → bucket r j ≡ bucket u j

pub absorb_flat :
    (κ : Kind) (i : ℕ) (m : List (List Node)) (u : HashTable)
    → ((j : ℕ) → IsOfKind κ (get_or m j []))
    → ((j : ℕ) → AtHome u.size (i + j) (get_or m j []))
    → i + length m ≤ length u.data_map
    → ((j : ℕ) → i ≤ j → bucket u j ≡ [])
    → Fills κ u i m (absorb_all (flat m) u)
unfolding flat
absorb_flat κ i [] u kinds homes room bare =
    unfold absorb_all in
    record {
      size = refl;
      width = refl;
      inside = λ j h. absurd (omega arith);
      outside = λ j h. refl;
    }
absorb_flat κ i (c ∷ m) u kinds homes room bare =
    let p : Replaces u i (kept κ c) (absorb_all c u) =
      absorb_chain κ i c [] u (kinds 0) (subst (λ j. AtHome u.size j c) (omega arith) (homes 0))
        (omega arith) (bare i (omega arith) ∙ kept-nil κ) in
    let u' = absorb_all c u in
    let rest : Fills κ u' (suc i) m (absorb_all (flat m) u') =
      absorb_flat κ (suc i) m u' (λ j. kinds (suc j))
        (λ j.
          subst (λ (z : ℕ). AtHome z (suc i + j) (get_or m j [])) (sym p.size)
            (subst (λ (k : ℕ). AtHome u.size k (get_or m j [])) (omega arith) (homes (suc j))))
        (omega (arith, p.width)) (λ j h. p.else_where j (omega arith) ∙ bare j (omega arith)) in
    subst (Fills κ u i (c ∷ m)) (sym (absorb_all-append c (flat m) u)) record {
      size = rest.size ∙ p.size;
      width = rest.width ∙ p.width;
      inside = elim [
        | zero ↦ λ h.
            subst (λ (k : ℕ). bucket (absorb_all (flat m) u') k ≡ kept κ c)
              (let e : i ≡ i + 0 = omega arith in e) (rest.outside i (inl (omega arith)) ∙ p.here)
        | suc j ↦ λ h.
            subst (λ (k : ℕ). bucket (absorb_all (flat m) u') k ≡ kept κ (get_or m j []))
              (let e : suc i + j ≡ i + suc j = omega arith in e) (rest.inside j (omega arith))
      ];
      outside = λ j h. rest.outside j (omega arith) ∙ p.else_where j (omega arith);
    }
