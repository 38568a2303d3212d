-- ===== src/Records/UpdateRead.antt =====
-- A string that is updated is read back.
use isam_db_c_language.Base.{
  ℕ, suc, ◌+◌, ◌-◌, ◌*◌, ◌^◌, ◌<◌, ◌≤◌, ◌≡◌, refl, ap, sym, ◌∙◌, arith, Bool-cases, inl, inr, List,
  ok, length, some, ltb, drop, ◌++◌,
}
use mathlib.Core.Path.{subst}
use isam_db_c_language.Io.{File}
use isam_db_c_language.Io.Bytes.{be, length-be}
use isam_db_c_language.Io.Wire.{bind-ok}
use isam_db_c_language.IndexFile.{until_nul}
use isam_db_c_language.Header.{c_str}
use isam_db_c_language.Records.Arrays.{positive}
use isam_db_c_language.Records.Strings.{read_string}
use isam_db_c_language.Records.Places.{
  at, Stands, inside, further, starts, after, is_positive, read_string-Stands,
}
use isam_db_c_language.Records.Replace.{
  Leaves, place_string-Leaves_inside, place_string-Leaves_further, place_string-Leaves_end,
}
use isam_db_c_language.Records.Rewrite.{update_string-here, find_buffer-further}
use isam_db_c_language.Records.Update.{find_buffer, place_string, update_string}

abbrev more : ℕ → ℕ
more b = suc (suc (suc (suc (suc (suc (suc b))))))

more_less : (n : ℕ) → 7 ≤ n → more (n - 7) ≡ n
more_less n h = omega arith

module _ (new : List ℕ) (text : c_str new ≡ ok (until_nul new))
    (small : length (until_nul new) + 1 < 256 ^ 8) where
  update-inside :
      (bytes a buf z : List ℕ) (p e b : ℕ)
      → bytes ≡ a ++ (be 8 0 ++ (be 8 (length buf) ++ (buf ++ z)))
      → p ≡ length a
      → e ≡ p + 8 + 8 + length buf
      → length buf < 256 ^ 8
      → 2 * length bytes < 256 ^ 8
      → Leaves (update_string new (at bytes p (more (more b)))) p e (until_nul new)
  unfolding find_buffer positive
  update-inside bytes a buf z p e b is here end few fits =
      let n = length buf in
      let f = at bytes (p + 8 + 8) (suc (suc (more b))) in
      let run : update_string new (at bytes p (more (more b)))
          ≡ place_string p 0 (p + 8) e new (0, n) f =
        update_string-here bytes (buf ++ z) new p 0 n (suc (suc (more b))) (omega arith) few
          (starts bytes a _ p is here)
        ∙ ap (λ (q : ℕ). place_string p 0 (p + 8) q new (0, n) f) (sym end) in
      subst (λ r. Leaves r p e (until_nul new)) (sym run)
        (elim (Bool-cases (ltb n (length (until_nul new) + 1))) [
          | inl long ↦
              place_string-Leaves_end new text small bytes a buf z p 0 e 0 n (p + 8 + 8)
                (suc (suc (suc b))) is here end few fits long
          | inr short ↦
              place_string-Leaves_inside new text small bytes a buf z p e (p + 8 + 8)
                (suc (suc (suc (suc (suc b))))) is here end few short
        ])

  update-further :
      (bytes a old mid buf z : List ℕ) (p e loc b : ℕ)
      → bytes
        ≡ a
          ++ (be 8 loc
              ++ (be 8 (length old) ++ (old ++ (mid ++ (be 8 (length buf) ++ (buf ++ z))))))
      → p ≡ length a
      → e ≡ p + 8 + 8 + length old
      → loc ≡ e + length mid
      → 2 * loc < 256 ^ 8
      → length old < 256 ^ 8
      → length buf < 256 ^ 8
      → 2 * length bytes < 256 ^ 8
      → Leaves (update_string new (at bytes p (more (more b)))) p e (until_nul new)
  update-further bytes a old mid buf z p e loc b is here end there low few_old few fits =
      let n = length buf in
      let m = length old in
      let f = at bytes (loc + 8) (suc (suc (suc (suc (suc (suc b)))))) in
      let r0 = starts bytes a _ p is here in
      let r1 = after bytes (be 8 loc) _ p 8 r0 (length-be 8 loc) in
      let r2 = after bytes (be 8 m) _ (p + 8) 8 r1 (length-be 8 m) in
      let r3 = after bytes old _ (p + 8 + 8) m r2 refl in
      let r4 = after bytes mid _ (p + 8 + 8 + m) (length mid) r3 refl in
      let q0 = ap (λ (q : ℕ). drop q bytes) (there ∙ ap (λ (q : ℕ). q + length mid) end) ∙ r4 in
      let pos = is_positive loc e (length mid) there (omega (arith, end)) low in
      let run : update_string new (at bytes p (more (more b)))
          ≡ place_string p loc (p + 8) e new (loc, n) f =
        update_string-here bytes _ new p loc m (suc (suc (more b))) (omega arith) few_old r0
        ∙ bind-ok (find_buffer loc m) (place_string p loc (p + 8) (p + 8 + 8 + m) new)
            (at bytes (p + 8 + 8) (suc (suc (more b)))) f (loc, n)
            (find_buffer-further bytes (buf ++ z) (p + 8 + 8) loc m n
              (suc (suc (suc (suc (suc (suc b)))))) pos few q0)
        ∙ ap (λ (q : ℕ). place_string p loc (p + 8) q new (loc, n) f) (sym end) in
      subst (λ r. Leaves r p e (until_nul new)) (sym run)
        (elim (Bool-cases (ltb n (length (until_nul new) + 1))) [
          | inl long ↦
              place_string-Leaves_end new text small bytes a old (mid ++ (be 8 n ++ (buf ++ z))) p
                loc e loc n (loc + 8) b is here end few_old fits long
          | inr short ↦
              place_string-Leaves_further new text small bytes a old mid buf z p e loc (loc + 8)
                (suc (suc b)) is here end there low few_old few short
        ])

  update-Stands :
      (bytes : List ℕ) (p : ℕ) (old : List ℕ) (e b : ℕ)
      → Stands bytes p old e
      → 2 * length bytes < 256 ^ 8
      → Leaves (update_string new (at bytes p (more (more b)))) p e (until_nul new)
  update-Stands bytes p old e b (inside a z is here end few) fits =
      update-inside bytes a old z p e b is here end few fits
  update-Stands bytes p old e b (further a was mid z loc is here end there low few_old few) fits =
      update-further bytes a was mid old z p e loc b is here end there low few_old few fits

-- Where a string record stands in a file of less than 2^63 bytes, with its buffer in the record
-- or further on, the update with a new C string succeeds, given 14 calls, and ends at the end of
-- the record; whether the new string fits the old buffer or not, and wherever that was, a buffer
-- with the new string stands for the record then, and `read_string` at the start of the record
-- yields it and ends at the end of the record.
pub read_string-update_string :
    (new : List ℕ) (f : File) (old : List ℕ) (e n : ℕ)
    → c_str new ≡ ok (until_nul new)
    → length (until_nul new) + 1 < 256 ^ 8
    → Stands f.bytes f.pos old e
    → 2 * length f.bytes < 256 ^ 8
    → 14 ≤ f.budget
    → 7 ≤ n
    → (g : File) × (update_string new f ≡ ok (some tt, g))
      × (g.pos ≡ e)
      × ((buf : List ℕ) × Stands g.bytes f.pos buf e
          × (c_str buf ≡ ok (until_nul new))
          × ((left : ℕ) × (read_string (at g.bytes f.pos n) ≡ ok (some buf, at g.bytes e left))))
read_string-update_string new f old e n text small stands fits calls h =
    let b : f.budget ≡ more (more (f.budget - 14)) = omega arith in
    let leaves : Leaves (update_string new f) f.pos e (until_nul new) =
      subst (λ (n : ℕ). Leaves (update_string new (at f.bytes f.pos n)) f.pos e (until_nul new))
        (sym b) (update-Stands new text small f.bytes f.pos old e (f.budget - 14) stands fits) in
    (
      leaves.0,
      leaves.1,
      leaves.2,
      (
        leaves.3.0,
        leaves.3.1,
        leaves.3.2,
        subst
            (λ (k : ℕ).
              (left : ℕ) × (read_string (at leaves.0.bytes f.pos k)
                ≡ ok (some leaves.3.0, at leaves.0.bytes e left)))
            (more_less n h)
            (read_string-Stands leaves.0.bytes f.pos leaves.3.0 e (n - 7) leaves.3.1),
      ),
    )
