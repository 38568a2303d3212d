-- ===== src/Records/Replace.antt =====
-- Updating a string in the file and reading it: each of the four branches of the update.
use isam_db_c_language.Base.{
  ℕ, suc, ◌+◌, ◌*◌, ◌^◌, ◌<◌, ◌≡◌, refl, ap, sym, ◌∙◌, arith, true, false, List, [], ◌++◌, ok,
  length, some, length-append, append_assoc, append-nil, ltb, Outcome, Option,
}
use isam_db_c_language.Io.{File}
use isam_db_c_language.Io.Bytes.{be, pad, length-be}
use isam_db_c_language.IndexFile.{until_nul}
use isam_db_c_language.Header.{c_str}
use isam_db_c_language.Records.StringLayout.{length-pad, c_str-pad, until_nul-IsText}
use isam_db_c_language.Records.Places.{at, Stands, inside, further, is_positive}
use isam_db_c_language.Records.Rewrite.{
  place-end, place-over, write_over-inside, write_over-further, write_at_end-here,
}
use isam_db_c_language.Records.Update.{place_string}

-- The code succeeds, ends at `e`, and the string `s` stands at `p`.
abbrev pub Leaves : Outcome (Option (Unit {0}) × File) → ℕ → ℕ → List ℕ → Type 0
Leaves run p e s =
    (g : File) × (run ≡ ok (some tt, g))
    × (g.pos ≡ e)
    × ((buf : List ℕ) × Stands g.bytes p buf e × (c_str buf ≡ ok s))

regroup :
    (a u v old y w buf : List ℕ)
    → a ++ (u ++ ((v ++ (old ++ y)) ++ (w ++ buf)))
      ≡ a ++ (u ++ (v ++ (old ++ (y ++ (w ++ (buf ++ []))))))
regroup a u v old y w buf = simp (append_assoc, append-nil)

split :
    (a u v old mid rest : List ℕ)
    → a ++ (u ++ (v ++ (old ++ (mid ++ rest)))) ≡ a ++ (u ++ (v ++ (old ++ mid))) ++ rest
split a u v old mid rest = simp append_assoc

length-parts :
    (a u v old y : List ℕ)
    → length (a ++ (u ++ (v ++ (old ++ y))))
      ≡ length a + length u + length v + length old + length y
length-parts a u v old y = omega (
  arith,
  length-append a (u ++ (v ++ (old ++ y))),
  length-append u (v ++ (old ++ y)),
  length-append v (old ++ y),
  length-append old y,
)

-- The length of a file with a string record, and of what stands before it.
length-record :
    (bytes a old y : List ℕ) (p e loc n : ℕ)
    → bytes ≡ a ++ (be 8 loc ++ (be 8 n ++ (old ++ y)))
    → p ≡ length a
    → e ≡ p + 8 + 8 + length old
    → length bytes ≡ e + length y
length-record bytes a old y p e loc n is here end =
    ap length is
    ∙ length-parts a (be 8 loc) (be 8 n) old y
    ∙ omega (arith, here, end, length-be 8 loc, length-be 8 n)

module _ (new : List ℕ) (text : c_str new ≡ ok (until_nul new))
    (small : length (until_nul new) + 1 < 256 ^ 8) where
  abbrev s : List ℕ
  s = until_nul new

  padded : (n : ℕ) → ltb n (length s + 1) ≡ false → c_str (pad n s) ≡ ok s
  padded n short = c_str-pad s n (until_nul-IsText new) (ground arith)

  -- At the end of the file.
  pub place_string-Leaves_end :
      (bytes a old y : List ℕ) (p loc e q n r b : ℕ)
      → bytes ≡ a ++ (be 8 loc ++ (be 8 (length old) ++ (old ++ y)))
      → p ≡ length a
      → e ≡ p + 8 + 8 + length old
      → length old < 256 ^ 8
      → 2 * length bytes < 256 ^ 8
      → ltb n (length s + 1) ≡ true
      → Leaves
          (place_string p loc
            (p + 8)
            e
            new
            (q, n)
            (at bytes r (suc (suc (suc (suc (suc (suc b))))))))
          p
          e
          s
  place_string-Leaves_end bytes a old y p loc e q n r b is here end few fits long =
      let m = length s + 1 in
      let buf = pad m s in
      let bytes' =
        a ++ (be 8 (length bytes) ++ ((be 8 (length old) ++ (old ++ y)) ++ (be 8 m ++ buf))) in
      (
        at bytes' e b,
        place-end p loc (p + 8) e new s text (q, n) _ long
            ∙ write_at_end-here bytes a (be 8 (length old) ++ (old ++ y)) s p r loc e b is here
                fits,
        refl,
        (
          buf,
          further a old y [] (length bytes)
              (regroup a (be 8 (length bytes)) (be 8 (length old)) old y (be 8 m) buf
                ∙ ap
                    (λ (k : ℕ).
                      a
                      ++ (be 8 (length bytes)
                          ++ (be 8 (length old) ++ (old ++ (y ++ (be 8 k ++ (buf ++ [])))))))
                    (sym (length-pad m s)))
              here end (length-record bytes a old y p e loc (length old) is here end) fits few
              (omega (arith, length-pad m s, small)),
          c_str-pad s m (until_nul-IsText new) (omega arith),
        ),
      )

  -- Over the buffer in the record.
  pub place_string-Leaves_inside :
      (bytes a old z : List ℕ) (p e q b : ℕ)
      → bytes ≡ a ++ (be 8 0 ++ (be 8 (length old) ++ (old ++ z)))
      → p ≡ length a
      → e ≡ p + 8 + 8 + length old
      → length old < 256 ^ 8
      → ltb (length old) (length s + 1) ≡ false
      → Leaves
          (place_string p 0 (p + 8) e new (0, length old) (at bytes q (suc (suc (suc (suc b))))))
          p
          e
          s
  place_string-Leaves_inside bytes a old z p e q b is here end few short =
      let buf = pad (length old) s in
      let size = length-pad (length old) s in
      let there = p + 8 + 8 + length old in
      (
        at (a ++ be 8 0 ++ (be 8 (length old) ++ (buf ++ z))) there (suc b),
        place-over p 0 (p + 8) e new s text (0, length old) _ short
            ∙ write_over-inside bytes (a ++ be 8 0) old z s (p + 8) q e (length old) b
                (is ∙ sym (append_assoc a (be 8 0) _))
                (omega (arith, here, length-append a (be 8 0), length-be 8 0)) refl,
        sym end,
        (
          buf,
          inside a z
              (append_assoc a (be 8 0) _
                ∙ ap (λ (k : ℕ). a ++ (be 8 0 ++ (be 8 k ++ (buf ++ z)))) (sym size))
              here (end ∙ ap (◌+◌ (p + 8 + 8)) (sym size)) (omega (arith, size, few)),
          padded (length old) short,
        ),
      )

  -- Over the buffer at its place.
  pub place_string-Leaves_further :
      (bytes a old mid was z : List ℕ) (p e loc q b : ℕ)
      → bytes
        ≡ a
          ++ (be 8 loc
              ++ (be 8 (length old) ++ (old ++ (mid ++ (be 8 (length was) ++ (was ++ z))))))
      → p ≡ length a
      → e ≡ p + 8 + 8 + length old
      → loc ≡ e + length mid
      → 2 * loc < 256 ^ 8
      → length old < 256 ^ 8
      → length was < 256 ^ 8
      → ltb (length was) (length s + 1) ≡ false
      → Leaves
          (place_string p loc
            (p + 8)
            e
            new
            (loc, length was)
            (at bytes q (suc (suc (suc (suc b))))))
          p
          e
          s
  place_string-Leaves_further bytes a old mid was z p e loc q b is here end there fits few_old few
        short =
      let buf = pad (length was) s in
      let size = length-pad (length was) s in
      let before = a ++ (be 8 loc ++ (be 8 (length old) ++ (old ++ mid))) in
      (
        at (before ++ (be 8 (length was) ++ (buf ++ z))) e b,
        place-over p loc (p + 8) e new s text (loc, length was) _ short
            ∙ write_over-further bytes before was z s loc (p + 8) q e (length was) b
                (is ∙ split a (be 8 loc) (be 8 (length old)) old mid _)
                (there ∙ sym (length-record before a old mid p e loc (length old) refl here end))
                refl (is_positive loc e (length mid) there (omega (arith, end)) fits)
                (ground (arith, there, end)),
        refl,
        (
          buf,
          further a old mid z loc
              (sym (split a (be 8 loc) (be 8 (length old)) old mid _)
                ∙ ap
                    (λ (k : ℕ).
                      a
                      ++ (be 8 loc
                          ++ (be 8 (length old) ++ (old ++ (mid ++ (be 8 k ++ (buf ++ z)))))))
                    (sym size))
              here end there fits few_old (omega (arith, size, few)),
          padded (length was) short,
        ),
      )
