-- ===== src/IndexFile/WriteAll.antt =====
-- What `write_index` leaves in the file.
use mathlib.Core.Path.{subst}
use isam_db_c_language.Base.{
  ℕ, zero, suc, ◌+◌, ◌*◌, ◌≤◌, ◌≡◌, refl, ap, sym, ◌∙◌, arith, List, [], ◌++◌, ok, some, length,
  length-append, append-nil, All,
}
use isam_db_c_language.HashTbl.{HashTable}
use isam_db_c_language.HashTbl.Keys.{Kind}
use isam_db_c_language.HashTbl.Model.{IsValid}
use isam_db_c_language.Io.{File, ◌>>◌, write_be}
use isam_db_c_language.Io.Bytes.{be, length-be}
use isam_db_c_language.Io.Wire.{
  AtEnd-advance, advance, Appends, Appends-write_be, Appends-pure, Appends-seq, bind-ok,
}
use isam_db_c_language.IndexFile.{write_index_file_head, write_zeros}
use isam_db_c_language.IndexFile.Indexes.{reopen_file, write_bodies, write_index}
use isam_db_c_language.IndexFile.Layout.{Holds, Holds-length, offsets, places, bodies, bodies_calls}
use isam_db_c_language.IndexFile.WriteBody.{bodies_write}

zeros : ℕ → List ℕ
zeros zero = []
zeros (suc n) = be 8 0 ++ zeros n

one_more : (n : ℕ) → 1 + n * 1 ≡ suc n * 1
one_more n = omega arith

Appends-zeros : (n : ℕ) → Appends (write_zeros n) (zeros n) (n * 1)
unfolding write_zeros zeros
Appends-zeros zero = Appends-pure
Appends-zeros (suc n) =
    subst (Appends (write_be 8 0 >> write_zeros n) (be 8 0 ++ zeros n)) (one_more n) (
      Appends-seq (write_be 8 0) (write_zeros n) _ _ 1 (n * 1) (Appends-write_be 8 0)
        (Appends-zeros n))

length-zeros : (n : ℕ) → length (zeros n) ≡ n * 8
unfolding zeros
length-zeros zero = omega arith
length-zeros (suc n) =
    omega (arith, length-append (be 8 0) (zeros n), length-be 8 0, length-zeros n)

-- `write_index` of valid tables: it returns 0, and the file holds the count, the slots and the
-- tables; calls enough for what follows are left.
pub write_index_lem :
    (κ : Kind) (ts : List HashTable) (c : ℕ) (f : File)
    → All (IsValid κ) ts
    → 1 + length ts + bodies_calls ts + c ≤ f.budget
    → (g : File) × (write_index (length ts) ts f ≡ ok (some tt, g))
      × Holds (length ts) (places (4 + length ts * 8) ts) (bodies 0 ts) c g
unfolding write_index reopen_file write_index_file_head
write_index_lem κ ts c f valid enough =
    let n = length ts in
    let f₁ : File = record { bytes = []; pos = 0; budget = f.budget } in
    let f₂ = advance (be 4 n ++ zeros n) (1 + n * 1) f₁ in
    let head =
      Appends-seq (write_be 4 n) (write_zeros n) _ _ 1 (n * 1) (Appends-write_be 4 n)
        (Appends-zeros n) in
    let h₂ : Holds n [] [] (bodies_calls ts + c) f₂ = record {
      slots = zeros n;
      room = length-zeros n;
      spare = zeros n;
      links = unfold offsets in refl;
      bytes = ap (◌++◌ (be 4 n)) (sym (append-nil (zeros n)));
      calls = omega (arith, enough);
    } in
    let (f₃, e₃, end₃, h₃) =
      bodies_write κ n [] [] 0 ts c f₂ refl (omega arith) valid
        (AtEnd-advance (be 4 n ++ zeros n) (1 + n * 1) f₁ refl) h₂ in
    (
      record f₃ { pos = 0 },
      bind-ok (write_index_file_head n) _ f₁ f₂ tt
            (unfold write_index_file_head in head f₁ refl (omega (arith, enough)))
          ∙ bind-ok (write_bodies 0 n ts) _ f₂ f₃ tt e₃,
      record {
        slots = h₃.slots;
        room = h₃.room;
        spare = h₃.spare;
        links =
            h₃.links
            ∙ ap (λ (q : ℕ). offsets (places q ts) ++ h₃.spare)
                (omega (arith, Holds-length n _ _ _ f₂ h₂));
        bytes = h₃.bytes;
        calls = h₃.calls;
      },
    )
