-- ===== src/Sort/Swap.antt =====
-- `swap` on an array in pieces, and counting the elements that pass a test.
use isam_db_c_language.Base.{
  ℕ, zero, suc, ◌+◌, ◌≡◌, refl, ap, sym, ◌∙◌, arith, Bool, List, [], ◌∷◌, ◌++◌, some, ok, length,
  length-append, append_assoc, get_elem?, set as set_elem, if◌then◌else◌,
}
use isam_db_c_language.Sort.{swap}

module _ {A : Type 0} where
  -- How many elements pass a test. Two lists are equal up to order if this is so for all tests.
  unfoldable pub count : (A → Bool) → List A → ℕ
  count p [] = 0
  count p (x ∷ xs) = (if p x then 1 else 0) + count p xs

  pub count-append : (p : A → Bool) (xs ys : List A) → count p (xs ++ ys) ≡ count p xs + count p ys
  unfolding count
  count-append p [] ys = omega arith
  count-append p (x ∷ xs) ys = omega (arith, count-append p xs ys)

  pub get_elem?-middle :
      (p z : List A) (y : A) (i : ℕ) → i ≡ length p → get_elem? (p ++ y ∷ z) i ≡ some y
  get_elem?-middle [] z y zero e = refl
  get_elem?-middle [] z y (suc i) e = absurd (omega (arith, e))
  get_elem?-middle (x ∷ p) z y zero e = absurd (omega (arith, e))
  get_elem?-middle (x ∷ p) z y (suc i) e = get_elem?-middle p z y i (omega (arith, e))

  set_middle :
      (p z : List A) (y v : A) (i : ℕ) → i ≡ length p → set_elem (p ++ y ∷ z) i v ≡ p ++ v ∷ z
  set_middle [] z y v zero e = refl
  set_middle [] z y v (suc i) e = absurd (omega (arith, e))
  set_middle (x ∷ p) z y v zero e = absurd (omega (arith, e))
  set_middle (x ∷ p) z y v (suc i) e = ap (◌∷◌ x) (set_middle p z y v i (omega (arith, e)))

  pub swap-same :
      (p z : List A) (y : A) (i j : ℕ)
      → i ≡ length p
      → j ≡ length p
      → swap (p ++ y ∷ z) i j ≡ ok (p ++ y ∷ z)
  unfolding swap
  swap-same p z y i j e e' = rw (
    get_elem?-middle p z y i e,
    get_elem?-middle p z y j e',
    set_middle p z y y i e,
    set_middle p z y y j e',
  )

  pub swap-two :
      (p m z : List A) (x y : A) (i j : ℕ)
      → i ≡ length p
      → j ≡ length p + 1 + length m
      → swap (p ++ (x ∷ (m ++ (y ∷ z)))) i j ≡ ok (p ++ (y ∷ (m ++ (x ∷ z))))
  unfolding swap
  swap-two p m z x y i j e e' =
      let at : j ≡ length (p ++ (x ∷ m)) = omega (arith, e', length-append p (x ∷ m)) in
      let at' : j ≡ length (p ++ (y ∷ m)) = omega (arith, e', length-append p (y ∷ m)) in
      let second : get_elem? (p ++ (x ∷ (m ++ (y ∷ z)))) j ≡ some y =
        ap (λ (l : List A). get_elem? l j) (sym (append_assoc p (x ∷ m) (y ∷ z)))
        ∙ get_elem?-middle (p ++ (x ∷ m)) z y j at in
      let last : set_elem (p ++ (y ∷ (m ++ (y ∷ z)))) j x ≡ p ++ (y ∷ (m ++ (x ∷ z))) =
        ap (λ (l : List A). set_elem l j x) (sym (append_assoc p (y ∷ m) (y ∷ z)))
        ∙ set_middle (p ++ (y ∷ m)) z y x j at'
        ∙ append_assoc p (y ∷ m) (x ∷ z) in
      rw
        (get_elem?-middle p (m ++ (y ∷ z)) x i e, second, set_middle p (m ++ (y ∷ z)) x y i e, last)

  -- The same with the indices the other way round.
  pub swap-back :
      (p m z : List A) (x y : A) (i j : ℕ)
      → i ≡ length p
      → j ≡ length p + 1 + length m
      → swap (p ++ (x ∷ (m ++ (y ∷ z)))) j i ≡ ok (p ++ (y ∷ (m ++ (x ∷ z))))
  unfolding swap
  swap-back p m z x y i j e e' =
      let at : j ≡ length (p ++ (x ∷ m)) = omega (arith, e', length-append p (x ∷ m)) in
      let second : get_elem? (p ++ (x ∷ (m ++ (y ∷ z)))) j ≡ some y =
        ap (λ (l : List A). get_elem? l j) (sym (append_assoc p (x ∷ m) (y ∷ z)))
        ∙ get_elem?-middle (p ++ (x ∷ m)) z y j at in
      let last : set_elem (p ++ (x ∷ (m ++ (y ∷ z)))) j x ≡ p ++ (x ∷ (m ++ (x ∷ z))) =
        ap (λ (l : List A). set_elem l j x) (sym (append_assoc p (x ∷ m) (y ∷ z)))
        ∙ set_middle (p ++ (x ∷ m)) z y x j at
        ∙ append_assoc p (x ∷ m) (x ∷ z) in
      rw
        (second, get_elem?-middle p (m ++ (y ∷ z)) x i e, last, set_middle p (m ++ (x ∷ z)) x y i e)
