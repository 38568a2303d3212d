-- ===== src/Bst/Shape.antt =====
-- The shape that `insert_bst` keeps: the child of a node with one child is a leaf or has two
-- children. In this shape the rotations drop no node.
use isam_db_c_language.Base.{◌≡◌, refl, List, [], ◌∷◌, ◌++◌}
use isam_db_c_language.Bst.{Tree, null, node, balance_right, balance_left}

module _ {V D : Type 0} where
  abbrev pub IsNode : Tree V D → Type 0
  IsNode null = ⊥
  IsNode (node l v d r) = Unit

  abbrev pub IsNull : Tree V D → Type 0
  IsNull null = Unit
  IsNull (node l v d r) = ⊥

  abbrev pub IsLeaf : Tree V D → Type 0
  IsLeaf (node null v d null) = Unit
  IsLeaf _ = ⊥

  -- No node, a leaf, or a node with two children.
  abbrev pub Settled : Tree V D → Type 0
  Settled null = Unit
  Settled (node null v d null) = Unit
  Settled (node null v d (node l w e r)) = ⊥
  Settled (node (node l w e r) v d null) = ⊥
  Settled (node (node l w e r) v d (node l' w' e' r')) = Unit

  -- What an insertion makes of a settled tree.
  abbrev pub Sprouted : Tree V D → Type 0
  Sprouted null = ⊥
  Sprouted (node null v d null) = Unit
  Sprouted (node null v d (node l w e r)) = IsLeaf (node l w e r)
  Sprouted (node (node l w e r) v d null) = IsLeaf (node l w e r)
  Sprouted (node (node l w e r) v d (node l' w' e' r')) = Unit

  abbrev pub IsShaped : Tree V D → Type 0
  IsShaped null = Unit
  IsShaped (node null v d r) = Settled r × IsShaped r
  IsShaped (node (node l w e r) v d null) = Settled (node l w e r) × IsShaped (node l w e r)
  IsShaped (node (node l w e r) v d (node l' w' e' r')) =
      IsShaped (node l w e r) × IsShaped (node l' w' e' r')

  -- The values with their data, from left to right.
  unfoldable pub inorder : Tree V D → List (V × D)
  inorder null = []
  inorder (node l v d r) = inorder l ++ (v, d) ∷ inorder r

  -- A rotation, or none, keeps the order and gives a shaped tree.
  pub record Rebuilds (t u : Tree V D) : Type 0 where
    pub shaped : IsShaped u
    pub same : inorder u ≡ inorder t
    pub is_node : IsNode u

  pub balance_right_one :
      (v : V) (d : D) (g : Tree V D)
      → Sprouted g
      → IsShaped g
      → Rebuilds (node null v d g) (balance_right (node null v d g))
  unfolding balance_right inorder
  balance_right_one v d null s h = absurd s
  balance_right_one v d (node null w e null) s h = record {
    shaped = (tt, (tt, tt));
    same = refl;
    is_node = tt;
  }
  balance_right_one v d (node null w e (node null x y null)) s h = record {
    shaped = ((tt, tt), (tt, tt));
    same = refl;
    is_node = tt;
  }
  balance_right_one v d (node null w e (node null x y (node a b c f))) s h = absurd s
  balance_right_one v d (node null w e (node (node a b c f) x y r)) s h = absurd s
  balance_right_one v d (node (node null x y null) w e null) s h = record {
    shaped = ((tt, tt), (tt, tt));
    same = refl;
    is_node = tt;
  }
  balance_right_one v d (node (node null x y (node a b c f)) w e null) s h = absurd s
  balance_right_one v d (node (node (node a b c f) x y r) w e null) s h = absurd s
  balance_right_one v d (node (node a b c f) w e (node a' b' c' f')) s h = record {
    shaped = (tt, h);
    same = refl;
    is_node = tt;
  }

  pub balance_right_two :
      (l g : Tree V D) (v : V) (d : D)
      → IsNode l
      → IsNode g
      → balance_right (node l v d g) ≡ node l v d g
  unfolding balance_right
  balance_right_two (node a b c f) (node a' b' c' f') v d h k = refl
  balance_right_two null g v d h k = absurd h
  balance_right_two (node a b c f) null v d h k = absurd k

  pub balance_left_one :
      (v : V) (d : D) (g : Tree V D)
      → Sprouted g
      → IsShaped g
      → Rebuilds (node g v d null) (balance_left (node g v d null))
  unfolding balance_left inorder
  balance_left_one v d null s h = absurd s
  balance_left_one v d (node null w e null) s h = record {
    shaped = (tt, (tt, tt));
    same = refl;
    is_node = tt;
  }
  balance_left_one v d (node null w e (node null x y null)) s h = record {
    shaped = ((tt, tt), (tt, tt));
    same = refl;
    is_node = tt;
  }
  balance_left_one v d (node null w e (node null x y (node a b c f))) s h = absurd s
  balance_left_one v d (node null w e (node (node a b c f) x y r)) s h = absurd s
  balance_left_one v d (node (node null x y null) w e null) s h = record {
    shaped = ((tt, tt), (tt, tt));
    same = refl;
    is_node = tt;
  }
  balance_left_one v d (node (node null x y (node a b c f)) w e null) s h = absurd s
  balance_left_one v d (node (node (node a b c f) x y r) w e null) s h = absurd s
  balance_left_one v d (node (node a b c f) w e (node a' b' c' f')) s h = record {
    shaped = (tt, h);
    same = refl;
    is_node = tt;
  }

  pub balance_left_two :
      (g r : Tree V D) (v : V) (d : D)
      → IsNode g
      → IsNode r
      → balance_left (node g v d r) ≡ node g v d r
  unfolding balance_left
  balance_left_two (node a b c f) (node a' b' c' f') v d h k = refl
  balance_left_two null g v d h k = absurd h
  balance_left_two (node a b c f) null v d h k = absurd k

  pub two-IsShaped :
      (l g : Tree V D) (v : V) (d : D)
      → IsNode l
      → IsNode g
      → IsShaped l
      → IsShaped g
      → IsShaped (node l v d g) × Sprouted (node l v d g)
  two-IsShaped (node a b c f) (node a' b' c' f') v d h k p q = ((p, q), tt)
  two-IsShaped null g v d h k p q = absurd h
  two-IsShaped (node a b c f) null v d h k p q = absurd k

  pub IsShaped-left : (l r : Tree V D) (v : V) (d : D) → IsShaped (node l v d r) → IsShaped l
  IsShaped-left null r v d h = tt
  IsShaped-left (node a b c f) null v d h = h.1
  IsShaped-left (node a b c f) (node a' b' c' f') v d h = h.0

  pub IsShaped-right : (l r : Tree V D) (v : V) (d : D) → IsShaped (node l v d r) → IsShaped r
  IsShaped-right null r v d h = h.1
  IsShaped-right (node a b c f) null v d h = tt
  IsShaped-right (node a b c f) (node a' b' c' f') v d h = h.1

  pub Sprouted-right :
      (v : V) (d : D) (g : Tree V D) → IsLeaf g → Sprouted (balance_right (node null v d g))
  unfolding balance_right
  Sprouted-right v d (node null w e null) h = tt
  Sprouted-right v d null h = absurd h
  Sprouted-right v d (node null w e (node a b c f)) h = absurd h
  Sprouted-right v d (node (node a b c f) w e r) h = absurd h

  pub Sprouted-left :
      (v : V) (d : D) (g : Tree V D) → IsLeaf g → Sprouted (balance_left (node g v d null))
  unfolding balance_left
  Sprouted-left v d (node null w e null) h = tt
  Sprouted-left v d null h = absurd h
  Sprouted-left v d (node null w e (node a b c f)) h = absurd h
  Sprouted-left v d (node (node a b c f) w e r) h = absurd h
