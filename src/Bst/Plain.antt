-- ===== src/Bst/Plain.antt =====
-- Insertion of a value as it stands, and the search that passes its value on: what `insert_bst` and
-- `find` come to.
use isam_db_c_language.Base.{ℕ, suc, ◌≡◌, refl, ap, ◌∙◌, Option, none, some, if◌then◌else◌}
use isam_db_c_language.Bst.{
  Order, Kind, Tree, null, node, balance_right, balance_left, insert_bst, find_from,
}

module _ (o : Order) {D : Type 0} where
  unfoldable pub insert_stored : o.Value → D → Tree o.Value D → Tree o.Value D
  unfolding balance_right balance_left
  insert_stored x y null = node null x y null
  insert_stored x y (node l v d r) =
      let greater = insert_stored x y r in
      let smaller = insert_stored x y l in
      if o.less v x
      then balance_right (node l v d greater)
      else if o.less x v
      then balance_left (node smaller v d r)
      else node l v d r

  unfoldable pub search : o.Value → Tree o.Value D → Option D
  search x null = none
  search x (node l v d r) =
      let greater = search x r in
      let smaller = search x l in
      if o.less v x then greater else if o.less x v then smaller else some d

module _ (κ : Kind) {D : Type 0} where
  pub insert_bst-insert_stored :
      (x : κ.order.Value) (y : D) (t : Tree κ.order.Value D)
      → insert_bst κ x y t ≡ insert_stored κ.order (κ.stored x) y t
  unfolding insert_bst insert_stored
  insert_bst-insert_stored x y null = refl
  insert_bst-insert_stored x y (node l v d r) =
      let again = λ (t : Tree κ.order.Value D).
        ap (λ (z : κ.order.Value). insert_stored κ.order z y t) (κ.stored_twice x) in
      rw
        (
          insert_bst-insert_stored (κ.stored x) y l ∙ again l,
          insert_bst-insert_stored (κ.stored x) y r ∙ again r,
        )
        refl

  pub find_from-search :
      ((k : ℕ) (x : κ.order.Value) → κ.passed k x ≡ x)
      → (k : ℕ) (x : κ.order.Value) (t : Tree κ.order.Value D)
      → find_from κ k x t ≡ search κ.order x t
  unfolding find_from search
  find_from-search same k x null = refl
  find_from-search same k x (node l v d r) =
      rw (same k x, find_from-search same k x r, find_from-search same (suc k) x l) refl
