-- ===== src/Bst/Insert.antt =====
-- `insert_stored` against insertion into a sorted list.
use isam_db_c_language.Base.{
  ◌≡◌, refl, ap, ◌∙◌, sym, arith, true, false, List, [], ◌∷◌, ◌++◌, if◌then◌else◌, Bool-cases, inl,
  inr, All,
}
use isam_db_c_language.Bst.Plain.{insert_stored}
use isam_db_c_language.Bst.{Order, Tree, null, node, balance_right, balance_left}
use isam_db_c_language.Bst.Shape.{IsNode, IsLeaf, IsNull, Settled, Sprouted, IsShaped, inorder}

pub less_asym : (o : Order) (a b : o.Value) → o.less a b ≡ true → o.less b a ≡ false
less_asym o a b h = elim (Bool-cases (o.less b a)) [
  | inl e ↦ absurd (ground (arith, o.less_trans a b a h e, o.less_irrefl a))
  | inr e ↦ e
]

module _ (o : Order) {D : Type 0} where
  -- Insertion into a list in ascending order; an equal value changes nothing.
  unfoldable pub insert_sorted : o.Value → D → List (o.Value × D) → List (o.Value × D)
  insert_sorted x y [] = (x, y) ∷ []
  insert_sorted x y (p ∷ ps) =
      let rest = insert_sorted x y ps in
      if o.less p.0 x then p ∷ rest else if o.less x p.0 then (x, y) ∷ p ∷ ps else p ∷ ps

  -- Strictly ascending.
  abbrev pub IsSorted : List (o.Value × D) → Type 0
  IsSorted [] = Unit
  IsSorted (p ∷ ps) = All (λ (q : o.Value × D). o.less p.0 q.0 ≡ true) ps × IsSorted ps

  -- All values of the list lie below `v`.
  abbrev Below : o.Value → List (o.Value × D) → Type 0
  Below v ps = All (λ (q : o.Value × D). o.less q.0 v ≡ true) ps

  All-middle :
      (P : o.Value × D → Type 0) (a b : List (o.Value × D)) (p : o.Value × D)
      → All P (a ++ p ∷ b)
      → P p
  All-middle P [] b p h = h.0
  All-middle P (q ∷ a) b p h = All-middle P a b p h.1

  pub sorted-Below :
      (a b : List (o.Value × D)) (p : o.Value × D) → IsSorted (a ++ p ∷ b) → Below p.0 a
  sorted-Below [] b p h = tt
  sorted-Below (q ∷ a) b p h = (All-middle _ a b p h.0, sorted-Below a b p h.1)

  pub IsSorted-right :
      (a b : List (o.Value × D)) (p : o.Value × D) → IsSorted (a ++ p ∷ b) → IsSorted b
  IsSorted-right [] b p h = h.1
  IsSorted-right (q ∷ a) b p h = IsSorted-right a b p h.1

  All-left : (P : o.Value × D → Type 0) (a b : List (o.Value × D)) → All P (a ++ b) → All P a
  All-left P [] b h = tt
  All-left P (q ∷ a) b h = (h.0, All-left P a b h.1)

  pub IsSorted-left : (a b : List (o.Value × D)) → IsSorted (a ++ b) → IsSorted a
  IsSorted-left [] b h = tt
  IsSorted-left (q ∷ a) b h = (All-left _ a b h.0, IsSorted-left a b h.1)

  module _ (x : o.Value) (y : D) (v : o.Value) (d : D) (b : List (o.Value × D)) where
    insert_sorted_right :
        (a : List (o.Value × D))
        → o.less v x ≡ true
        → Below v a
        → insert_sorted x y (a ++ (v, d) ∷ b) ≡ a ++ (v, d) ∷ insert_sorted x y b
    unfolding insert_sorted
    insert_sorted_right [] h k = rw h refl
    insert_sorted_right (p ∷ a) h k =
        rw (o.less_trans p.0 v x k.0 h) (ap (◌∷◌ p) (insert_sorted_right a h k.1))

    insert_sorted_left :
        (a : List (o.Value × D))
        → o.less v x ≡ false
        → o.less x v ≡ true
        → insert_sorted x y (a ++ (v, d) ∷ b) ≡ insert_sorted x y a ++ (v, d) ∷ b
    unfolding insert_sorted
    insert_sorted_left [] h k = rw (h, k) refl
    insert_sorted_left (p ∷ a) h k = elim (Bool-cases (o.less p.0 x)) [
      | inl e ↦ rw e (ap (◌∷◌ p) (insert_sorted_left a h k))
      | inr e ↦
          rw e (elim (Bool-cases (o.less x p.0)) [ inl e' ↦ rw e' refl | inr e' ↦ rw e' refl ])
    ]

    pub insert_sorted_here :
        (a : List (o.Value × D))
        → o.less v x ≡ false
        → o.less x v ≡ false
        → Below v a
        → insert_sorted x y (a ++ (v, d) ∷ b) ≡ a ++ (v, d) ∷ b
    unfolding insert_sorted
    insert_sorted_here [] h k below = rw (h, k) refl
    insert_sorted_here (p ∷ a) h k below =
        let e : o.less p.0 x ≡ true = rw (o.less_total x v k h) below.0 in
        rw e (ap (◌∷◌ p) (insert_sorted_here a h k below.1))

  -- What an insertion into `t` gives.
  pub record Inserted (x : o.Value) (y : D) (t u : Tree o.Value D) : Type 0 where
    pub shaped : IsShaped u
    pub sprouted : Settled t → Sprouted u
    pub is_node : IsNode u
    pub same : inorder u ≡ insert_sorted x y (inorder t)
    pub fresh : IsNull t → IsLeaf u

  module _ (x : o.Value) (y : D) where
    -- Where the new value goes to the right, left, nowhere; the sorted list follows.
    pub go_right :
        (l g r : Tree o.Value D) (v : o.Value) (d : D)
        → IsSorted (inorder l ++ (v, d) ∷ inorder r)
        → o.less v x ≡ true
        → inorder g ≡ insert_sorted x y (inorder r)
        → inorder l ++ (v, d) ∷ inorder g ≡ insert_sorted x y (inorder l ++ (v, d) ∷ inorder r)
    go_right l g r v d s h e =
        ap (λ (b : List (o.Value × D)). inorder l ++ (v, d) ∷ b) e
        ∙ sym (
            insert_sorted_right x y v d (inorder r) (inorder l) h
              (sorted-Below (inorder l) (inorder r) (v, d) s))

    pub go_left :
        (g l r : Tree o.Value D) (v : o.Value) (d : D)
        → o.less v x ≡ false
        → o.less x v ≡ true
        → inorder g ≡ insert_sorted x y (inorder l)
        → inorder g ++ (v, d) ∷ inorder r ≡ insert_sorted x y (inorder l ++ (v, d) ∷ inorder r)
    go_left g l r v d h k e =
        ap (λ (b : List (o.Value × D)). b ++ (v, d) ∷ inorder r) e
        ∙ sym (insert_sorted_left x y v d (inorder r) (inorder l) h k)

    pub insert_stored-right :
        (l : Tree o.Value D) (v : o.Value) (d : D) (r : Tree o.Value D)
        → o.less v x ≡ true
        → insert_stored o x y (node l v d r) ≡ balance_right (node l v d (insert_stored o x y r))
    unfolding insert_stored
    insert_stored-right l v d r h = rw h refl

    pub insert_stored-left :
        (l : Tree o.Value D) (v : o.Value) (d : D) (r : Tree o.Value D)
        → o.less v x ≡ false
        → o.less x v ≡ true
        → insert_stored o x y (node l v d r) ≡ balance_left (node (insert_stored o x y l) v d r)
    unfolding insert_stored
    insert_stored-left l v d r h k = rw (h, k) refl

    pub insert_stored-here :
        (l : Tree o.Value D) (v : o.Value) (d : D) (r : Tree o.Value D)
        → o.less v x ≡ false
        → o.less x v ≡ false
        → insert_stored o x y (node l v d r) ≡ node l v d r
    unfolding insert_stored
    insert_stored-here l v d r h k = rw (h, k) refl

    pub insert_stored-null : insert_stored o x y null ≡ node null x y null
    unfolding insert_stored
    insert_stored-null = refl
