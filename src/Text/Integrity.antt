-- ===== src/Text/Integrity.antt =====
-- `check_fields_integrity`: which names are compared with which.
use isam_db_c_language.Base.{
  ℕ, suc, ◌+◌, ◌≡◌, ◌≢◌, ◌↔◌, refl, sym, ◌∙◌, arith, Bool, true, false, not, ◌&&◌, List, [], ◌∷◌,
  ◌++◌, length, length-append, append_assoc, ◌<◌, if◌then◌else◌, ltb, ◌==◌, Bool-cases, inl, inr,
}
use isam_db_c_language.HashTbl.{strncmp_eq}
use isam_db_c_language.Text.{same_name, clashes, no_clash, check_fields_integrity}

-- No name stands twice.
abbrev pub Lacks : List ℕ → List (List ℕ) → Type 0
Lacks a [] = Unit
Lacks a (b ∷ names) = (a ≢ b) × Lacks a names

abbrev pub AllDistinct : List (List ℕ) → Type 0
AllDistinct [] = Unit
AllDistinct (a ∷ names) = Lacks a names × AllDistinct names

strncmp_eq_whole : (a b : List ℕ) → length a ≡ length b → strncmp_eq (length b) a b ≡ true → a ≡ b
unfolding strncmp_eq
strncmp_eq_whole [] [] e h = refl
strncmp_eq_whole [] (y ∷ b) e h = absurd (omega (arith, e))
strncmp_eq_whole (x ∷ a) [] e h = absurd (omega (arith, e))
strncmp_eq_whole (x ∷ a) (y ∷ b) e h = ground (arith, h, strncmp_eq_whole a b)

strncmp_eq_refl : (a : List ℕ) → strncmp_eq (length a) a a ≡ true
unfolding strncmp_eq
strncmp_eq_refl [] = refl
strncmp_eq_refl (x ∷ a) = ground (arith, strncmp_eq_refl a)

same_name_refl : (a : List ℕ) → same_name a a ≡ true
unfolding same_name
same_name_refl a = let l : (length a == length a) ≡ true = ground arith in rw l (strncmp_eq_refl a)

same_name-eq : (a b : List ℕ) → same_name a b ≡ true → a ≡ b
unfolding same_name
same_name-eq a b h = ground (arith, h, strncmp_eq_whole a b)

eq-same_name : (a b : List ℕ) → a ≡ b → same_name a b ≡ true
eq-same_name a b e = rw e (same_name_refl b)

same_name_comm : (a b : List ℕ) → same_name a b ≡ same_name b a
same_name_comm a b = elim (Bool-cases (same_name a b)) [
  | inl e ↦ rw e (sym (eq-same_name b a (sym (same_name-eq a b e))))
  | inr e ↦ elim (Bool-cases (same_name b a)) [
    | inl f ↦ absurd (cc (e, eq-same_name a b (sym (same_name-eq b a f))))
    | inr f ↦ rw (e, f) refl
  ]
]

-- The tests as Booleans: no name of the list is `a`; no name stands twice; no name of the second list
-- stands in the first.
lacks : List ℕ → List (List ℕ) → Bool
lacks a [] = true
lacks a (b ∷ xs) = not (same_name a b) && lacks a xs

distinct : List (List ℕ) → Bool
distinct [] = true
distinct (a ∷ xs) = lacks a xs && distinct xs

cross : List (List ℕ) → List (List ℕ) → Bool
cross pre [] = true
cross pre (y ∷ ys) = lacks y pre && cross pre ys

-- The loops without the last name.
clash_in : ℕ → List ℕ → ℕ → List (List ℕ) → Bool
clash_in i a j [] = false
clash_in i a j (b ∷ xs) = if not (j == i) && same_name a b then true else clash_in i a (suc j) xs

clashes-init :
    (i j : ℕ) (a l : List ℕ) (xs : List (List ℕ))
    → clashes (length (xs ++ l ∷ [])) i a j (xs ++ l ∷ []) ≡ clash_in i a j xs
unfolding clashes clash_in
clashes-init i j a l [] = ground arith
clashes-init i j a l (b ∷ xs) =
    let more : ltb 1 (suc (length (xs ++ l ∷ []))) ≡ true =
      ground (arith, length-append xs (l ∷ [])) in
    rw more (ground (arith, clashes-init i (suc j) a l xs))

checked : ℕ → List (List ℕ) → List (List ℕ) → Bool
checked i [] xs = true
checked i (a ∷ ys) xs = if clash_in i a 0 xs then false else checked (suc i) ys xs

no_clash-init :
    (i : ℕ) (l : List ℕ) (ys xs : List (List ℕ))
    → no_clash (length (xs ++ l ∷ [])) i (ys ++ l ∷ []) (xs ++ l ∷ []) ≡ checked i ys xs
unfolding no_clash checked
no_clash-init i l [] xs = refl
no_clash-init i l (a ∷ []) xs = rw (clashes-init i 0 a l xs) refl
no_clash-init i l (a ∷ b ∷ ys) xs =
    rw (clashes-init i 0 a l xs) (ground (arith, no_clash-init (suc i) l (b ∷ ys) xs))

clash_in-after :
    (i j : ℕ) (a : List ℕ) (xs : List (List ℕ)) → i < j → clash_in i a j xs ≡ not (lacks a xs)
unfolding clash_in lacks
clash_in-after i j a [] h = refl
clash_in-after i j a (b ∷ xs) h =
    let other : (j == i) ≡ false = ground arith in
    rw other (ground (arith, clash_in-after i (suc j) a xs (omega arith)))

clash_in-middle :
    (i j : ℕ) (a : List ℕ) (pre post : List (List ℕ))
    → j + length pre ≡ i
    → clash_in i a j (pre ++ a ∷ post) ≡ not (lacks a pre && lacks a post)
unfolding clash_in lacks
clash_in-middle i j a [] post h =
    let here : (j == i) ≡ true = ground arith in
    rw here (clash_in-after i (suc j) a post (omega arith))
clash_in-middle i j a (b ∷ pre) post h =
    let other : (j == i) ≡ false = ground arith in
    rw other (ground (arith, clash_in-middle i (suc j) a pre post (omega arith)))

lacks-snoc :
    (y a : List ℕ) (pre : List (List ℕ))
    → lacks y (pre ++ a ∷ []) ≡ (lacks y pre && not (same_name y a))
unfolding lacks
lacks-snoc y a [] = ground arith
lacks-snoc y a (b ∷ pre) = ground (arith, lacks-snoc y a pre)

cross-snoc :
    (pre ys : List (List ℕ)) (a : List ℕ) → cross (pre ++ a ∷ []) ys ≡ (cross pre ys && lacks a ys)
unfolding cross lacks
cross-snoc pre [] a = refl
cross-snoc pre (y ∷ ys) a =
    ground (arith, lacks-snoc y a pre, cross-snoc pre ys a, same_name_comm y a)

checked-distinct :
    (pre ys : List (List ℕ)) → checked (length pre) ys (pre ++ ys) ≡ (distinct ys && cross pre ys)
unfolding checked distinct cross
checked-distinct pre [] = refl
checked-distinct pre (a ∷ ys) =
    let size : length (pre ++ a ∷ []) ≡ suc (length pre) =
      omega (arith, length-append pre (a ∷ [])) in
    let later : checked (suc (length pre)) ys (pre ++ a ∷ ys)
        ≡ (distinct ys && cross (pre ++ a ∷ []) ys) =
      rw size at (rw (append_assoc pre (a ∷ []) ys) at (checked-distinct (pre ++ a ∷ []) ys)) in
    rw (clash_in-middle (length pre) 0 a pre ys (omega arith))
      (rw later (rw (cross-snoc pre ys a) (ground arith)))

cross-nil : (ys : List (List ℕ)) → cross [] ys ≡ true
unfolding cross lacks
cross-nil [] = refl
cross-nil (y ∷ ys) = cross-nil ys

lacks-Lacks : (a : List ℕ) (xs : List (List ℕ)) → (lacks a xs ≡ true) ↔ Lacks a xs
unfolding lacks
lacks-Lacks a [] = (λ h. tt, λ h. refl)
lacks-Lacks a (b ∷ xs) = (
  λ h. (
    (λ e. absurd (ground (arith, h, eq-same_name a b e))),
    (lacks-Lacks a xs).0 (ground (arith, h)),
  ),
  λ h. ground (arith, (lacks-Lacks a xs).1 h.1, same_name-eq a b, h.0),
)

distinct-AllDistinct : (xs : List (List ℕ)) → (distinct xs ≡ true) ↔ AllDistinct xs
unfolding distinct
distinct-AllDistinct [] = (λ h. tt, λ h. refl)
distinct-AllDistinct (a ∷ xs) = (
  λ h. ((lacks-Lacks a xs).0 (ground (arith, h)), (distinct-AllDistinct xs).0 (ground (arith, h))),
  λ h. ground (arith, (lacks-Lacks a xs).1 h.0, (distinct-AllDistinct xs).1 h.1),
)

-- `check_fields_integrity` accepts one or more names exactly when no name stands twice among all
-- but the last one.
pub check_fields_integrity-AllDistinct :
    (names : List (List ℕ)) (l : List ℕ)
    → (check_fields_integrity (names ++ l ∷ []) ≡ true) ↔ AllDistinct names
unfolding check_fields_integrity
check_fields_integrity-AllDistinct names l =
    let run : check_fields_integrity (names ++ l ∷ []) ≡ distinct names =
      no_clash-init 0 l names names ∙ checked-distinct [] names ∙ ground (arith, cross-nil names) in
    rw run (distinct-AllDistinct names)
