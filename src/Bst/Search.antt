-- ===== src/Bst/Search.antt =====
-- What `search` reads after `insert_stored`, and the search trees that it keeps.
use isam_db_c_language.Base.{
  ◌≡◌, refl, ◌∙◌, sym, Bool, true, false, not, ◌&&◌, List, [], ◌∷◌, ◌++◌, if◌then◌else◌, Bool-cases,
  inl, inr, All, Option, none, some,
}
use isam_db_c_language.Bst.Plain.{insert_stored, search}
use isam_db_c_language.Bst.{Order, Tree, null, node}
use isam_db_c_language.Bst.Shape.{IsShaped, inorder}
use isam_db_c_language.Bst.Insert.{insert_sorted, IsSorted, less_asym, sorted-Below}
use isam_db_c_language.Bst.Correct.{insert_stored-Inserted, IsSorted-of_left, IsSorted-of_right}

abbrev pub same_value : (o : Order) → o.Value → o.Value → Bool
same_value o a b = not (o.less a b) && not (o.less b a)

abbrev pub or_new : {D : Type 0} → D → Option D → D
or_new y none = y
or_new y (some d) = d

not_same : (o : Order) (x q : o.Value) → o.less q x ≡ true → same_value o x q ≡ false
not_same o x q h = rw (h, less_asym o q x h) refl

less_below :
    (o : Order) (q v x : o.Value) → o.less v q ≡ false → o.less v x ≡ true → o.less q x ≡ true
less_below o q v x h k = elim (Bool-cases (o.less q v)) [
  | inl e ↦ o.less_trans q v x e k
  | inr e ↦ rw (o.less_total q v e h) k
]

module _ (o : Order) {D : Type 0} where
  -- A search tree of the shape that `insert_stored` keeps.
  pub record IsBst (t : Tree o.Value D) : Type 0 where
    pub shaped : IsShaped t
    pub sorted : IsSorted o (inorder t)

  unfoldable lookup_sorted : o.Value → List (o.Value × D) → Option D
  lookup_sorted q [] = none
  lookup_sorted q (p ∷ ps) =
      let rest = lookup_sorted q ps in
      if o.less p.0 q then rest else if o.less q p.0 then none else some p.1

  All-insert_sorted :
      (v x : o.Value) (y : D) (ps : List (o.Value × D))
      → o.less v x ≡ true
      → All (λ (q : o.Value × D). o.less v q.0 ≡ true) ps
      → All (λ (q : o.Value × D). o.less v q.0 ≡ true) (insert_sorted o x y ps)
  unfolding insert_sorted
  All-insert_sorted v x y [] h k = (h, tt)
  All-insert_sorted v x y (p ∷ ps) h k = elim (Bool-cases (o.less p.0 x)) [
    | inl e ↦ rw e (k.0, All-insert_sorted v x y ps h k.1)
    | inr e ↦ elim (Bool-cases (o.less x p.0)) [
      | inl e' ↦ rw (e, e') (h, k)
      | inr e' ↦ rw (e, e') k
    ]
  ]

  All-less_trans :
      (x v : o.Value) (ps : List (o.Value × D))
      → o.less x v ≡ true
      → All (λ (q : o.Value × D). o.less v q.0 ≡ true) ps
      → All (λ (q : o.Value × D). o.less x q.0 ≡ true) ps
  All-less_trans x v [] h k = tt
  All-less_trans x v (p ∷ ps) h k = (o.less_trans x v p.0 h k.0, All-less_trans x v ps h k.1)

  insert_sorted-IsSorted :
      (x : o.Value) (y : D) (ps : List (o.Value × D))
      → IsSorted o ps
      → IsSorted o (insert_sorted o x y ps)
  unfolding insert_sorted
  insert_sorted-IsSorted x y [] s = (tt, tt)
  insert_sorted-IsSorted x y (p ∷ ps) s = elim (Bool-cases (o.less p.0 x)) [
    | inl e ↦ rw e (All-insert_sorted p.0 x y ps e s.0, insert_sorted-IsSorted x y ps s.1)
    | inr e ↦ elim (Bool-cases (o.less x p.0)) [
      | inl e' ↦ rw (e, e') ((e', All-less_trans x p.0 ps e' s.0), s)
      | inr e' ↦ rw (e, e') s
    ]
  ]

  lookup-right :
      (q v : o.Value) (d : D) (a b : List (o.Value × D))
      → o.less v q ≡ true
      → All (λ (p : o.Value × D). o.less p.0 v ≡ true) a
      → lookup_sorted q (a ++ (v, d) ∷ b) ≡ lookup_sorted q b
  unfolding lookup_sorted
  lookup-right q v d [] b h k = rw h refl
  lookup-right q v d (p ∷ a) b h k = rw (o.less_trans p.0 v q k.0 h) (lookup-right q v d a b h k.1)

  lookup-left :
      (q v : o.Value) (d : D) (a b : List (o.Value × D))
      → o.less v q ≡ false
      → o.less q v ≡ true
      → lookup_sorted q (a ++ (v, d) ∷ b) ≡ lookup_sorted q a
  unfolding lookup_sorted
  lookup-left q v d [] b h k = rw (h, k) refl
  lookup-left q v d (p ∷ a) b h k = rw (lookup-left q v d a b h k) refl

  lookup-here :
      (q v : o.Value) (d : D) (a b : List (o.Value × D))
      → o.less v q ≡ false
      → o.less q v ≡ false
      → All (λ (p : o.Value × D). o.less p.0 v ≡ true) a
      → lookup_sorted q (a ++ (v, d) ∷ b) ≡ some d
  unfolding lookup_sorted
  lookup-here q v d [] b h k below = rw (h, k) refl
  lookup-here q v d (p ∷ a) b h k below =
      let e : o.less p.0 q ≡ true = rw (o.less_total q v k h) below.0 in
      rw e (lookup-here q v d a b h k below.1)

  search-right :
      (q : o.Value) (l : Tree o.Value D) (v : o.Value) (d : D) (r : Tree o.Value D)
      → o.less v q ≡ true
      → search o q (node l v d r) ≡ search o q r
  unfolding search
  search-right q l v d r h = rw h refl

  search-left :
      (q : o.Value) (l : Tree o.Value D) (v : o.Value) (d : D) (r : Tree o.Value D)
      → o.less v q ≡ false
      → o.less q v ≡ true
      → search o q (node l v d r) ≡ search o q l
  unfolding search
  search-left q l v d r h k = rw (h, k) refl

  search-here :
      (q : o.Value) (l : Tree o.Value D) (v : o.Value) (d : D) (r : Tree o.Value D)
      → o.less v q ≡ false
      → o.less q v ≡ false
      → search o q (node l v d r) ≡ some d
  unfolding search
  search-here q l v d r h k = rw (h, k) refl

  search-lookup :
      (q : o.Value) (t : Tree o.Value D)
      → IsSorted o (inorder t)
      → search o q t ≡ lookup_sorted q (inorder t)
  unfolding inorder
  search-lookup q null s = unfold search lookup_sorted in refl
  search-lookup q (node l v d r) s =
      let below = sorted-Below o (inorder l) (inorder r) (v, d) s in
      elim (Bool-cases (o.less v q)) [
        | inl e ↦
            search-right q l v d r e
            ∙ search-lookup q r (IsSorted-of_right o l r v d s)
            ∙ sym (lookup-right q v d (inorder l) (inorder r) e below)
        | inr e ↦ elim (Bool-cases (o.less q v)) [
          | inl e' ↦
              search-left q l v d r e e'
              ∙ search-lookup q l (IsSorted-of_left o l r v d s)
              ∙ sym (lookup-left q v d (inorder l) (inorder r) e e')
          | inr e' ↦
              search-here q l v d r e e'
              ∙ sym (lookup-here q v d (inorder l) (inorder r) e e' below)
        ]
      ]

  lookup-insert_sorted :
      (q x : o.Value) (y : D) (ps : List (o.Value × D))
      → lookup_sorted q (insert_sorted o x y ps)
        ≡ (if same_value o x q then some (or_new y (lookup_sorted x ps)) else lookup_sorted q ps)
  unfolding lookup_sorted insert_sorted
  lookup-insert_sorted q x y [] = elim (Bool-cases (o.less x q)) [
    | inl e ↦ rw e refl
    | inr e ↦ rw e (elim (Bool-cases (o.less q x)) [ inl e' ↦ rw e' refl | inr e' ↦ rw e' refl ])
  ]
  lookup-insert_sorted q x y (p ∷ ps) = elim (Bool-cases (o.less p.0 x)) [
    | inl e ↦ elim (Bool-cases (o.less p.0 q)) [
      | inl f ↦ rw (e, f) (lookup-insert_sorted q x y ps)
      | inr f ↦ rw (e, f, not_same o x q (less_below o q p.0 x f e)) refl
    ]
    | inr e ↦ elim (Bool-cases (o.less x p.0)) [
      | inl e' ↦ elim (Bool-cases (o.less x q)) [
        | inl f ↦ rw (e, e', f) refl
        | inr f ↦ elim (Bool-cases (o.less q x)) [
          | inl f' ↦
              let g = o.less_trans q x p.0 f' e' in rw (e, e', f, f', g, less_asym o q p.0 g) refl
          | inr f' ↦ rw (e, e', f, f') refl
        ]
      ]
      | inr e' ↦ elim (Bool-cases (o.less x q)) [
        | inl f ↦ rw (e, e', f) refl
        | inr f ↦ elim (Bool-cases (o.less q x)) [
          | inl f' ↦ rw (e, e', f, f') refl
          | inr f' ↦ rw (e, e', f, f', sym (o.less_total x q f f'), e, e') refl
        ]
      ]
    ]
  ]

  pub insert_stored-IsBst :
      (x : o.Value) (y : D) (t : Tree o.Value D)
      → IsBst t
      → IsBst (insert_stored o x y t)
        × (inorder (insert_stored o x y t) ≡ insert_sorted o x y (inorder t))
  insert_stored-IsBst x y t b =
      let i = insert_stored-Inserted o x y t b.shaped b.sorted in
      (
        record {
          shaped = i.shaped;
          sorted = rw i.same (insert_sorted-IsSorted x y (inorder t) b.sorted);
        },
        i.same,
      )

  pub search-insert_stored :
      (q x : o.Value) (y : D) (t : Tree o.Value D)
      → IsBst t
      → search o q (insert_stored o x y t)
        ≡ (if same_value o x q then some (or_new y (search o x t)) else search o q t)
  search-insert_stored q x y t b =
      let (c, same) = insert_stored-IsBst x y t b in
      rw
        (
          search-lookup q (insert_stored o x y t) c.sorted,
          same,
          search-lookup x t b.sorted,
          search-lookup q t b.sorted,
        )
        (lookup-insert_sorted q x y (inorder t))
