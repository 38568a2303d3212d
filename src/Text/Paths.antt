-- ===== src/Text/Paths.antt =====
-- `three_file_path` stays inside the three rows, and they hold the path with each extension.
use native.Mathlib.Nat.{suc-add, zero-add}
use isam_db_c_language.Base.{
  ℕ, suc, ◌+◌, ◌≤◌, ◌<◌, ◌≡◌, refl, ap, sym, ◌∙◌, arith, true, false, List, [], ◌∷◌, ◌++◌, ok,
  length, length-append, length-drop, length-take, length-replicate, take, drop, replicate,
  append_assoc, ltb, leb, some, lt→ltb,
}
use isam_db_c_language.Io.Bytes.{pad}
use isam_db_c_language.Header.{c_str}
use isam_db_c_language.Header.Encode.{IsText}
use isam_db_c_language.Header.Load.{c_str-text}
use isam_db_c_language.Text.{
  codes, max_file_path_length, copy_path, append_path, one_path, three_file_path,
}

take-text :
    (s : List ℕ) (m k : ℕ)
    → take (length s + suc m) (s ++ replicate (suc k) 0) ≡ s ++ 0 ∷ take m (replicate k 0)
take-text [] m k = rw zero-add refl
take-text (c ∷ s) m k = rw suc-add (ap (◌∷◌ c) (take-text s m k))

IsText-append : (s t : List ℕ) → IsText s → IsText t → IsText (s ++ t)
IsText-append [] t p q = q
IsText-append (c ∷ s) t p q = (p.0, IsText-append s t p.1 q)

-- The row after the copy starts with the path and a NUL.
copy_path-text :
    (row path : List ℕ)
    → length path + 5 ≤ length row
    → (zs : List ℕ) × (copy_path row (length path + 5) path ≡ ok (path ++ 0 ∷ zs))
      × (length (path ++ 0 ∷ zs) ≡ length row)
unfolding copy_path pad
copy_path-text row path h =
    let zeros : List ℕ = take 4 (replicate (length path + 4) 0) in
    let last = drop (length path + 5) row in
    let fits : leb (length path + 5) (length row) ≡ true = ground arith in
    let five : length path + 5 ≡ suc (length path + 4) = omega arith in
    let padded : pad (length path + 5) path ≡ path ++ 0 ∷ zeros =
      ap (λ (n : ℕ). take (length path + 5) (path ++ replicate n 0)) five
      ∙ take-text path 4 (length path + 4) in
    (
      zeros ++ last,
      rw fits
          (ap (λ (b : List ℕ). ok (b ++ last)) padded ∙ ap ok (append_assoc path (0 ∷ zeros) last)),
      omega (
        arith,
        length-append path (0 ∷ (zeros ++ last)),
        length-append zeros last,
        length-take {A = ℕ} 4 (replicate (length path + 4) 0),
        length-replicate {A = ℕ} (length path + 4) 0,
        length-drop (length path + 5) row,
        h,
      ),
    )

append_path-text :
    (row path zs t : List ℕ)
    → IsText path
    → row ≡ path ++ 0 ∷ zs
    → length path + length t < length row
    → append_path row t ≡ ok (path ++ (t ++ 0 ∷ drop (length path + length t + 1) row))
unfolding append_path
append_path-text row path zs t text e h =
    let read : c_str row ≡ ok path = ap c_str e ∙ c_str-text path zs text in
    rw read (rw (lt→ltb (length path + length t) (length row) h) refl)

-- The row holds the path with the extension, and has its length.
abbrev pub Names : List ℕ → List ℕ → List ℕ → Type 0
Names row path t = (c_str row ≡ ok (path ++ t)) × (length row ≡ max_file_path_length)

one_path-Names :
    (path t row : List ℕ)
    → IsText path
    → IsText t
    → length t ≡ 4
    → length row ≡ max_file_path_length
    → length path + 5 ≤ max_file_path_length
    → (r : List ℕ) × (one_path path t row ≡ ok r) × Names r path t
unfolding one_path
one_path-Names path t row text text' four size h =
    let (zs, run, long) = copy_path-text row path (omega (arith, size)) in
    let copied = path ++ 0 ∷ zs in
    let rest = drop (length path + length t + 1) copied in
    (
      path ++ (t ++ 0 ∷ rest),
      rw run (append_path-text copied path zs t text refl (omega (arith, four, long, size))),
      (
        ap c_str (sym (append_assoc path t (0 ∷ rest)))
            ∙ c_str-text (path ++ t) rest (IsText-append path t text text'),
        omega (
          arith,
          length-append path (t ++ 0 ∷ rest),
          length-append t (0 ∷ rest),
          length-drop (length path + length t + 1) copied,
          long,
          size,
          four,
        ),
      ),
    )

-- For a path of at most 1019 bytes and three rows of 1024 bytes, no copy leaves its row, and the
-- rows hold the path with .inx, .dat and .sch, in this order.
pub three_file_path-Names :
    (path f₀ f₁ f₂ : List ℕ)
    → IsText path
    → length f₀ ≡ max_file_path_length
    → length f₁ ≡ max_file_path_length
    → length f₂ ≡ max_file_path_length
    → length path + 5 ≤ max_file_path_length
    → (r₀ r₁ r₂ : List ℕ) × (three_file_path path (f₀, f₁, f₂) ≡ ok (some (r₀, r₁, r₂)))
      × Names r₀ path (codes ".inx")
      × Names r₁ path (codes ".dat")
      × Names r₂ path (codes ".sch")
unfolding three_file_path
three_file_path-Names path f₀ f₁ f₂ text s₀ s₁ s₂ h =
    let (r₀, run₀, n₀) = one_path-Names path (codes ".inx") f₀ text (omega arith) refl s₀ h in
    let (r₁, run₁, n₁) = one_path-Names path (codes ".dat") f₁ text (omega arith) refl s₁ h in
    let (r₂, run₂, n₂) = one_path-Names path (codes ".sch") f₂ text (omega arith) refl s₂ h in
    let fits : ltb max_file_path_length (length path + 5) ≡ false = ground arith in
    (r₀, r₁, r₂, rw fits (rw run₀ (rw run₁ (rw run₂ refl))), n₀, n₁, n₂)
