-- ===== src/Bst/Lookup.antt =====
-- What `find` reads after `insert_bst`, and the search trees that `insert_bst` keeps.
use isam_db_c_language.Base.{ℕ, ◌≡◌, some, if◌then◌else◌}
use isam_db_c_language.Bst.{Kind, Tree, insert_bst, find}
use isam_db_c_language.Bst.Shape.{inorder}
use isam_db_c_language.Bst.Insert.{insert_sorted}
use isam_db_c_language.Bst.Plain.{insert_stored, insert_bst-insert_stored, find_from-search}
use isam_db_c_language.Bst.Search.{
  IsBst, same_value, or_new, insert_stored-IsBst, search-insert_stored,
}

module _ (κ : Kind) {D : Type 0} where
  -- For each kind of values: `insert_bst` into a search tree of the kept shape gives such a tree
  -- again, and its values in order are those of insertion of what is kept of the value into the
  -- sorted list: no rotation loses a node.
  pub insert_bst-IsBst :
      (x : κ.order.Value) (y : D) (t : Tree κ.order.Value D)
      → IsBst κ.order t
      → IsBst κ.order (insert_bst κ x y t)
        × (inorder (insert_bst κ x y t) ≡ insert_sorted κ.order (κ.stored x) y (inorder t))
  insert_bst-IsBst x y t b =
      rw (insert_bst-insert_stored κ x y t) (insert_stored-IsBst κ.order (κ.stored x) y t b)

  -- For a kind of values that the search passes on to the left as they are, which is each one but
  -- long, and a search tree of the kept shape: after `insert_bst` of a value, `find` of what is
  -- kept of it, for strings the string with spaces for each underscore, reads its new data if
  -- that is new and its old data if it was there, and `find` of any other value reads the same as
  -- before.
  pub find-insert_bst :
      ((k : ℕ) (x : κ.order.Value) → κ.passed k x ≡ x)
      → (q x : κ.order.Value) (y : D) (t : Tree κ.order.Value D) → IsBst κ.order t
      → find κ q (insert_bst κ x y t) ≡ (
          if same_value κ.order (κ.stored x) q
          then some (or_new y (find κ (κ.stored x) t))
          else find κ q t)
  unfolding find
  find-insert_bst same q x y t b =
      rw
        (
          insert_bst-insert_stored κ x y t,
          find_from-search κ same 0 q (insert_stored κ.order (κ.stored x) y t),
          find_from-search κ same 0 (κ.stored x) t,
          find_from-search κ same 0 q t,
        )
        (search-insert_stored κ.order q (κ.stored x) y t b)
