-- ===== src/Bst/Correct.antt =====
-- `insert_stored` is correct on the trees that it builds.
use isam_db_c_language.Base.{◌≡◌, refl, ◌∙◌, sym, true, false, ◌∷◌, Bool-cases, inl, inr}
use isam_db_c_language.Bst.Plain.{insert_stored}
use isam_db_c_language.Bst.{Order, Tree, null, node, balance_right, balance_left}
use isam_db_c_language.Bst.Shape.{
  IsNode, Settled, Sprouted, IsShaped, inorder, balance_right_one, balance_right_two,
  balance_left_one, balance_left_two, two-IsShaped, IsShaped-left, IsShaped-right, Sprouted-right,
  Sprouted-left,
}
use isam_db_c_language.Bst.Insert.{
  insert_sorted, IsSorted, Inserted, go_right, go_left, insert_stored-right, insert_stored-left,
  insert_stored-here, insert_stored-null, insert_sorted_here, sorted-Below, IsSorted-right,
  IsSorted-left,
}

Settled-Sprouted : {V D : Type 0} (t : Tree V D) → IsNode t → Settled t → Sprouted t
Settled-Sprouted null h k = absurd h
Settled-Sprouted (node null v d null) h k = tt
Settled-Sprouted (node null v d (node a b c f)) h k = absurd k
Settled-Sprouted (node (node a b c f) v d null) h k = absurd k
Settled-Sprouted (node (node a b c f) v d (node a' b' c' f')) h k = tt

module _ (o : Order) {D : Type 0} (l r : Tree o.Value D) (v : o.Value) (d : D)
    (s : IsSorted o (inorder (node l v d r))) where
  pub IsSorted-of_right : IsSorted o (inorder r)
  IsSorted-of_right = IsSorted-right o (inorder l) (inorder r) (v, d) (unfold inorder in s)

  pub IsSorted-of_left : IsSorted o (inorder l)
  IsSorted-of_left = IsSorted-left o (inorder l) ((v, d) ∷ inorder r) (unfold inorder in s)

module _ (o : Order) {D : Type 0} (x : o.Value) (y : D) where
  right_case :
      (l r g : Tree o.Value D) (v : o.Value) (d : D)
      → IsShaped (node l v d r)
      → IsSorted o (inorder (node l v d r))
      → o.less v x ≡ true
      → Inserted o x y r g
      → Inserted o x y (node l v d r) (balance_right (node l v d g))
  unfolding inorder
  right_case null null g v d h s less i =
      let p = balance_right_one v d g (i.sprouted tt) i.shaped in
      record {
        shaped = p.shaped;
        sprouted = λ _. Sprouted-right v d g (i.fresh tt);
        is_node = p.is_node;
        same = p.same ∙ go_right o x y null g null v d s less i.same;
        fresh = λ e. absurd e;
      }
  right_case null (node a b c f) g v d h s less i =
      let p = balance_right_one v d g (i.sprouted h.0) i.shaped in
      record {
        shaped = p.shaped;
        sprouted = λ e. absurd e;
        is_node = p.is_node;
        same = p.same ∙ go_right o x y null g (node a b c f) v d s less i.same;
        fresh = λ e. absurd e;
      }
  right_case (node a b c f) r g v d h s less i =
      let l = node a b c f in
      let (sh, sp) = two-IsShaped l g v d tt i.is_node (IsShaped-left l r v d h) i.shaped in
      rw (balance_right_two l g v d tt i.is_node) record {
        shaped = sh;
        sprouted = λ _. sp;
        is_node = tt;
        same = go_right o x y l g r v d s less i.same;
        fresh = λ e. absurd e;
      }

  left_case :
      (l r g : Tree o.Value D) (v : o.Value) (d : D)
      → IsShaped (node l v d r)
      → o.less v x ≡ false
      → o.less x v ≡ true
      → Inserted o x y l g
      → Inserted o x y (node l v d r) (balance_left (node g v d r))
  unfolding inorder
  left_case null null g v d h less more i =
      let p = balance_left_one v d g (i.sprouted tt) i.shaped in
      record {
        shaped = p.shaped;
        sprouted = λ _. Sprouted-left v d g (i.fresh tt);
        is_node = p.is_node;
        same = p.same ∙ go_left o x y g null null v d less more i.same;
        fresh = λ e. absurd e;
      }
  left_case (node a b c f) null g v d h less more i =
      let p = balance_left_one v d g (i.sprouted h.0) i.shaped in
      record {
        shaped = p.shaped;
        sprouted = λ e. absurd e;
        is_node = p.is_node;
        same = p.same ∙ go_left o x y g (node a b c f) null v d less more i.same;
        fresh = λ e. absurd e;
      }
  left_case l (node a b c f) g v d h less more i =
      let r = node a b c f in
      let (sh, sp) = two-IsShaped g r v d i.is_node tt i.shaped (IsShaped-right l r v d h) in
      rw (balance_left_two g r v d i.is_node tt) record {
        shaped = sh;
        sprouted = λ _. sp;
        is_node = tt;
        same = go_left o x y g l r v d less more i.same;
        fresh = λ e. absurd e;
      }

  here_case :
      (l r : Tree o.Value D) (v : o.Value) (d : D)
      → IsShaped (node l v d r)
      → IsSorted o (inorder (node l v d r))
      → o.less v x ≡ false
      → o.less x v ≡ false
      → Inserted o x y (node l v d r) (node l v d r)
  unfolding inorder
  here_case l r v d h s less more = record {
    shaped = h;
    sprouted = Settled-Sprouted (node l v d r) tt;
    is_node = tt;
    same = sym (
        insert_sorted_here o x y v d (inorder r) (inorder l) less more
          (sorted-Below o (inorder l) (inorder r) (v, d) s));
    fresh = λ e. absurd e;
  }

  pub insert_stored-Inserted :
      (t : Tree o.Value D)
      → IsShaped t
      → IsSorted o (inorder t)
      → Inserted o x y t (insert_stored o x y t)
  insert_stored-Inserted null h s = rw (insert_stored-null o x y) record {
    shaped = (tt, tt);
    sprouted = λ _. tt;
    is_node = tt;
    same = unfold inorder insert_sorted in refl;
    fresh = λ _. tt;
  }
  insert_stored-Inserted (node l v d r) h s = elim (Bool-cases (o.less v x)) [
    | inl e ↦ rw (insert_stored-right o x y l v d r e) (
        right_case l r _ v d h s e
          (insert_stored-Inserted r (IsShaped-right l r v d h) (IsSorted-of_right o l r v d s)))
    | inr e ↦ elim (Bool-cases (o.less x v)) [
      | inl e' ↦ rw (insert_stored-left o x y l v d r e e') (
          left_case l r _ v d h e e'
            (insert_stored-Inserted l (IsShaped-left l r v d h) (IsSorted-of_left o l r v d s)))
      | inr e' ↦ rw (insert_stored-here o x y l v d r e e') (here_case l r v d h s e e')
    ]
  ]
