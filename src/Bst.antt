-- ===== src/Bst.antt =====
-- The binary search tree: include/bst.h and src/bst.c.
-- The four cases of `insert_bst` and of `find`, one for each type of value, differ in the type that
-- they compare and in what a `Kind` says of it; here they are one case over a kind.
-- A tree holds values of one type. Data is kept as it is given.
pub mod Shape
pub mod Insert
pub mod Correct
pub mod Plain
pub mod Search
pub mod Lookup
pub mod Strings
use isam_db_c_language.Base.{
  ℕ, zero, suc, ◌+◌, ◌-◌, ◌≡◌, ◌↔◌, ◌⊎◌, Bool, true, false, List, [], ◌∷◌, ◌++◌, Option, none, some,
  if◌then◌else◌, ◌==◌,
}
use isam_db_c_language.Base.Int.{ℤ, pos, negsuc, ◌+ℤ◌}

-- A strict order with a Boolean test: `<` of the machine types, or `strcmp(a, b) < 0`.
pub record Order : Type 1 where
  pub Value : Type 0
  pub less : Value → Value → Bool
  pub less_irrefl : (a : Value) → less a a ≡ false
  pub less_trans : (a b c : Value) → less a b ≡ true → less b c ≡ true → less a c ≡ true
  pub less_total : (a b : Value) → less a b ≡ false → less b a ≡ false → a ≡ b

pub data Tree (V D : Type 0) : Type 0 where
  null : Tree V D
  node : Tree V D → V → D → Tree V D → Tree V D

pub data Branch : Type 0 where
  left right : Branch

-- LR_ROT is 10 and RL_ROT is 11. The tests for them are made on the `int` that `height` returns.
abbrev pub lr_rot : ℤ
lr_rot = pos 10

abbrev pub rl_rot : ℤ
rl_rot = pos 11

unfoldable pub is_int : ℤ → ℤ → Bool
is_int (pos a) (pos b) = a == b
is_int (negsuc a) (negsuc b) = a == b
is_int _ _ = false

unfoldable pub height_right : Branch → ℤ → ℤ
unfolding is_int ◌+ℤ◌
height_right right h = if is_int h (pos 1) then rl_rot else h +ℤ negsuc 0
height_right left h = h +ℤ negsuc 0

unfoldable pub height_left : Branch → ℤ → ℤ
unfolding is_int ◌+ℤ◌
height_left left h = if is_int h (negsuc 0) then lr_rot else h +ℤ pos 1
height_left right h = h +ℤ pos 1

module _ {V D : Type 0} where
  -- Not a height: 0 for a node with no child or two, and a signed count of the nodes with one.
  unfoldable pub height : Tree V D → Branch → ℤ
  unfolding height_right height_left
  height null b = negsuc 0
  height (node null v d null) b = pos 0
  height (node (node l w e r) v d (node l' w' e' r')) b = pos 0
  height (node null v d (node l w e r)) b = height_right b (height (node l w e r) b)
  height (node (node l w e r) v d null) b = height_left b (height (node l w e r) b)

  -- The rotations are written as the pointer assignments leave the nodes: what stood at a pointer
  -- that is overwritten is dropped. A missing node that is dereferenced leaves the tree as it is.
  unfoldable pub rr_rotation : Tree V D → Tree V D
  rr_rotation (node l v d (node rl w e rr)) = node (node l v d null) w e rr
  rr_rotation t = t

  unfoldable pub rl_rotation : Tree V D → Tree V D
  rl_rotation (node l v d (node (node xl x y xr) w e rr)) =
      node (node l v d null) x y (node null w e rr)
  rl_rotation t = t

  unfoldable pub ll_rotation : Tree V D → Tree V D
  ll_rotation (node (node ll w e lr) v d r) = node ll w e (node null v d r)
  ll_rotation t = t

  unfoldable pub lr_rotation : Tree V D → Tree V D
  lr_rotation (node (node ll w e (node xl x y xr)) v d r) =
      node (node ll w e null) x y (node null v d r)
  lr_rotation t = t

  -- After an insertion to the right. 10 and 11 lie in the outer test's range, like -2.
  unfoldable pub balance_right : Tree V D → Tree V D
  unfolding height rr_rotation rl_rotation
  balance_right t =
      if is_int (height t right) (negsuc 1)
      then rr_rotation t
      else if is_int (height t right) rl_rot
      then rl_rotation t
      else t

  unfoldable pub balance_left : Tree V D → Tree V D
  unfolding height ll_rotation lr_rotation
  balance_left t =
      if is_int (height t left) (pos 2)
      then ll_rotation t
      else if is_int (height t left) lr_rot
      then lr_rotation t
      else t

-- One of the four types of values: what `create_node` keeps of a value, and what `find` passes to the
-- left child at its `k`-th turn to the left. For int, long and pointers the first is the value, for
-- strings `strip('_', ...)` of it. The second is the value, but for long: that case passes `&value`, so
-- that the search goes on for the bytes of a pointer.
pub record Kind : Type 1 where
  pub order : Order
  pub stored : order.Value → order.Value
  pub stored_twice : (a : order.Value) → stored (stored a) ≡ stored a
  pub passed : ℕ → order.Value → order.Value

module _ (κ : Kind) {D : Type 0} where
  -- Each call makes a node of its own, and compares its value. An equal value changes nothing, its
  -- data included.
  unfoldable pub insert_bst : κ.order.Value → D → Tree κ.order.Value D → Tree κ.order.Value D
  unfolding balance_right balance_left
  insert_bst x y null = node null (κ.stored x) y null
  insert_bst x y (node l v d r) =
      let greater = insert_bst (κ.stored x) y r in
      let smaller = insert_bst (κ.stored x) y l in
      if κ.order.less v (κ.stored x)
      then balance_right (node l v d greater)
      else if κ.order.less (κ.stored x) v
      then balance_left (node smaller v d r)
      else node l v d r

  -- The data at the value, after `k` turns to the left.
  unfoldable pub find_from : ℕ → κ.order.Value → Tree κ.order.Value D → Option D
  find_from k x null = none
  find_from k x (node l v d r) =
      let greater = find_from k x r in
      let smaller = find_from (suc k) (κ.passed k x) l in
      if κ.order.less v x then greater else if κ.order.less x v then smaller else some d

  unfoldable pub find : κ.order.Value → Tree κ.order.Value D → Option D
  unfolding find_from
  find x t = find_from 0 x t
