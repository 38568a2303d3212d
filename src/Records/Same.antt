-- ===== src/Records/Same.antt =====
-- What a program sees of a value: the C string in place of its allocation.
use mathlib.Core.Path.{ap₂}
use isam_db_c_language.Base.{
  ℕ, zero, suc, ◌<◌, ◌≡◌, refl, ap, arith, List, [], ◌∷◌, ◌++◌, length, take, replicate, Option,
  none, some,
}
use isam_db_c_language.Io.Bytes.{pad}
use isam_db_c_language.IndexFile.{until_nul}
use isam_db_c_language.Header.Encode.{IsText}
use isam_db_c_language.Header.Load.{until_nul-text}
use isam_db_c_language.Records.{
  Value, value_int, value_long, value_float, value_byte, value_double, value_string, value_ints,
  value_longs, value_floats, value_bytes, value_doubles, value_strings, value_file, no_value,
}
use isam_db_c_language.Records.ArrayLayout.{reread}
use isam_db_c_language.Records.StringLayout.{buffer_size, buffered, copied, until_nul-IsText}
use isam_db_c_language.Records.Recall.{restored}

unfoldable pub seen : Value → Value
unfolding until_nul reread
seen (value_string s) = value_string (until_nul s)
seen (value_strings v) = value_strings (reread until_nul v)
seen v = v

until_nul-zeros :
    (s : List ℕ) (n m : ℕ)
    → IsText s
    → length s < n
    → 0 < m
    → until_nul (take n (s ++ replicate m 0)) ≡ s
unfolding until_nul
until_nul-zeros s zero m t h k = absurd (omega arith)
until_nul-zeros s (suc n) zero t h k = absurd (omega arith)
until_nul-zeros [] (suc n) (suc m) t h k = refl
until_nul-zeros (c ∷ s) (suc n) (suc m) t h k =
    rw (until_nul-zeros s n (suc m) t.1 (omega arith) k) (ground (arith, t.0))

pub until_nul-buffered : (buf : List ℕ) → until_nul (buffered buf) ≡ until_nul buf
unfolding buffered pad
until_nul-buffered buf =
    let s = until_nul buf in
    until_nul-zeros s (buffer_size s) (buffer_size s) (until_nul-IsText buf) (omega arith)
      (omega arith)

until_nul-copied : (buf : List ℕ) → until_nul (copied buf) ≡ until_nul buf
unfolding copied
until_nul-copied buf = until_nul-text (until_nul buf) [] (until_nul-IsText buf)

reread-copied :
    (v : List (Option (List ℕ))) → reread until_nul (reread copied v) ≡ reread until_nul v
unfolding reread
reread-copied [] = refl
reread-copied (none ∷ v) = ap (◌∷◌ none) (reread-copied v)
reread-copied (some s ∷ v) =
    ap₂ (λ (t : List ℕ) (w : List (Option (List ℕ))). some t ∷ w) (until_nul-copied s)
      (reread-copied v)

-- What is read back is seen as what was written.
pub seen-restored : (v : Value) → seen (restored v) ≡ seen v
unfolding seen restored
seen-restored (value_int n) = refl
seen-restored (value_long n) = refl
seen-restored (value_float n) = refl
seen-restored (value_byte n) = refl
seen-restored (value_double n) = refl
seen-restored (value_string s) = ap value_string (until_nul-buffered s)
seen-restored (value_ints v) = refl
seen-restored (value_longs v) = refl
seen-restored (value_floats v) = refl
seen-restored (value_bytes v) = refl
seen-restored (value_doubles v) = refl
seen-restored (value_strings v) = ap value_strings (reread-copied v)
seen-restored value_file = refl
seen-restored no_value = refl
