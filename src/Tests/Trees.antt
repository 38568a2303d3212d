-- ===== src/Tests/Trees.antt =====
-- The binary search tree of src/bst.c on small trees of natural numbers.
use isam_db_c_language.Base.{
  ℕ, ◌≡◌, refl, arith, true, false, ltb, none, some, if◌then◌else◌, List, [], ◌∷◌,
}
use isam_db_c_language.Bst.{Order, Kind, Tree, null, node, insert_bst, find}
use isam_db_c_language.Bst.Shape.{inorder}
use isam_db_c_language.Bst.Insert.{insert_sorted}
use isam_db_c_language.Bst.Search.{IsBst, same_value, or_new}
use isam_db_c_language.Bst.Lookup.{insert_bst-IsBst, find-insert_bst}

pub ltb_irrefl : (a : ℕ) → ltb a a ≡ false
ltb_irrefl a = ground arith

pub ltb_trans : (a b c : ℕ) → ltb a b ≡ true → ltb b c ≡ true → ltb a c ≡ true
ltb_trans a b c h k = ground arith

pub ltb_total : (a b : ℕ) → ltb a b ≡ false → ltb b a ≡ false → a ≡ b
ltb_total a b h k = ground arith

abbrev pub numbers : Order
numbers = record {
  Value = ℕ;
  less = ltb;
  less_irrefl = ltb_irrefl;
  less_trans = ltb_trans;
  less_total = ltb_total;
}

-- `t_i`
abbrev t_i : Kind
t_i = record { order = numbers; stored = λ x. x; stored_twice = λ x. refl; passed = λ k x. x }

-- `t_l`: the bytes of a pointer are 77 here.
abbrev t_l : Kind
t_l = record { order = numbers; stored = λ x. x; stored_twice = λ x. refl; passed = λ k x. 77 }

-- Built by `insert_bst` of 1, 2, 3, which rotates once.
abbrev three : Tree ℕ ℕ
three = node (node null 1 10 null) 2 20 (node null 3 30 null)

three-runs : insert_bst t_i 3 30 (insert_bst t_i 2 20 (insert_bst t_i 1 10 null)) ≡ three
unfolding insert_bst
three-runs = refl

find-runs : find t_i 3 three ≡ some 30
unfolding find
find-runs = refl

-- The search of a `long` to the left goes on with the bytes of a pointer, here 77.
find_long-runs : find t_l 1 three ≡ none
unfolding find
find_long-runs = refl

three-IsBst : IsBst numbers three
unfolding inorder
three-IsBst = record {
  shaped = ((tt, tt), (tt, tt));
  sorted = ((refl, (refl, tt)), ((refl, tt), (tt, tt)));
}

insert_bst-IsBst_example :
    IsBst numbers (insert_bst t_i 4 40 three)
    × (inorder (insert_bst t_i 4 40 three) ≡ insert_sorted numbers 4 40 (inorder three))
insert_bst-IsBst_example = insert_bst-IsBst t_i 4 40 three three-IsBst

find-insert_bst_example :
    find t_i 1 (insert_bst t_i 4 40 three)
    ≡ (if same_value numbers 4 1 then some (or_new 40 (find t_i 4 three)) else find t_i 1 three)
find-insert_bst_example = find-insert_bst t_i (λ k x. refl) 1 4 40 three three-IsBst

-- "a_b" is kept as "a b", and not found.
abbrev a_b : List ℕ
a_b = b'a' ∷ b'_' ∷ b'b' ∷ []
