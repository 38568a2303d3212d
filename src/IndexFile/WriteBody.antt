-- ===== src/IndexFile/WriteBody.antt =====
-- What the loop of `write_index` leaves in the file.
use isam_db_c_language.Base.{
  ℕ, suc, ◌+◌, ◌-◌, ◌*◌, ◌<◌, ◌≡◌, refl, ap, sym, ◌∙◌, arith, List, [], ◌∷◌, ◌++◌, ok, some, length,
  append_assoc, append-nil, length-append, All, Bool-cases, inl, inr, ==_iff, ◌==◌,
}
use isam_db_c_language.HashTbl.{HashTable}
use isam_db_c_language.HashTbl.Keys.{Kind}
use isam_db_c_language.HashTbl.Model.{IsValid}
use isam_db_c_language.Io.{File, pure, write_be, seek, seek_end, tell}
use isam_db_c_language.Io.Bytes.{be, overwrite, length-be}
use isam_db_c_language.Io.Calls.{moved, write-ok, seek-ok, tell-ok, seek_end-ok}
use isam_db_c_language.Io.Wire.{AtEnd, AtEnd-advance, advance, Appends-write_be, bind-ok}
use isam_db_c_language.Records.Rewrite.{overwrite-here}
use isam_db_c_language.IndexFile.{write_ht, write_index_body, seek_slot}
use isam_db_c_language.IndexFile.Encode.{ht_bytes, ht_calls, write_ht-Appends}
use isam_db_c_language.IndexFile.Indexes.{write_bodies}
use isam_db_c_language.IndexFile.Layout.{
  Holds, Holds-less, Holds-length, offsets, places, bodies, bodies_calls, offsets-append,
  length-offsets, split, places-next,
}

regroup : (a s x b c : List ℕ) → a ++ (s ++ x) ++ b ++ c ≡ a ++ (s ++ (x ++ (b ++ c)))
regroup a s x b c = simp append_assoc

module _ (n : ℕ) (tail os : List ℕ) (i : ℕ) (is : i ≡ length os) (lt : i < n) where
  slot_write :
      (p c : ℕ) (f : File)
      → Holds n os tail (suc c) f
      → f.pos ≡ 4 + i * 8
      → (g : File) × (write_be 8 p f ≡ ok (some tt, g)) × Holds n (os ++ p ∷ []) tail c g
  unfolding write_be
  slot_write p c f h at =
      let a = be 4 n ++ offsets os in
      let size : length h.spare ≡ 8 + (n * 8 - i * 8 - 8) = omega (
        arith,
        ap length h.links,
        h.room,
        length-append (offsets os) h.spare,
        length-offsets os,
        is,
      ) in
      let (old, rest, parts, eight, left) = split h.spare 8 (n * 8 - i * 8 - 8) size in
      let there : f.pos ≡ length a =
        omega
          (arith, at, length-be 4 n, length-append (be 4 n) (offsets os), length-offsets os, is) in
      let now : f.bytes ≡ a ++ (old ++ (rest ++ tail)) =
        h.bytes
        ∙ ap (λ (s : List ℕ). be 4 n ++ (s ++ tail)) (h.links ∙ ap (◌++◌ (offsets os)) parts)
        ∙ simp append_assoc in
      let after : overwrite f.bytes f.pos (be 8 p) ≡ a ++ (be 8 p ++ (rest ++ tail)) =
        overwrite-here f.bytes a old (rest ++ tail) (be 8 p) f.pos now there
          (eight ∙ sym (length-be 8 p)) in
      let more : offsets (os ++ p ∷ []) ≡ offsets os ++ be 8 p =
        offsets-append os (p ∷ [])
        ∙ ap (◌++◌ (offsets os)) (unfold offsets in append-nil (be 8 p)) in
      (
        record {
          bytes = overwrite f.bytes f.pos (be 8 p);
          pos = f.pos + length (be 8 p);
          budget = f.budget - 1;
        },
        write-ok f (omega (arith, h.calls)) (be 8 p),
        record {
          slots = offsets os ++ (be 8 p ++ rest);
          room = omega (
            arith,
            length-append (offsets os) (be 8 p ++ rest),
            length-append (be 8 p) rest,
            length-be 8 p,
            length-offsets os,
            left,
            is,
            lt,
          );
          spare = rest;
          links =
              sym (append_assoc (offsets os) (be 8 p) rest)
              ∙ ap (λ (l : List ℕ). l ++ rest) (sym more);
          bytes = after ∙ simp append_assoc;
          calls = omega (arith, h.calls);
        },
      )

  -- From any position to the slot.
  slot_seek :
      (c : ℕ) (f : File)
      → Holds n os tail (3 + c) f
      → (g : File) × (seek_slot i f ≡ ok (some tt, g)) × (g.pos ≡ 4 + i * 8) × Holds n os tail c g
  unfolding seek_slot
  slot_seek c f h = elim (Bool-cases (i == 0)) [
    | inl e ↦ (
      moved 4 f,
      bind-ok (seek 4) _ f (moved 4 f) tt (seek-ok f (omega (arith, h.calls)) 4) ∙ rw e refl,
      omega (arith, (==_iff i 0).0 e),
      record {
        slots = h.slots;
        room = h.room;
        spare = h.spare;
        links = h.links;
        bytes = h.bytes;
        calls = omega (arith, h.calls);
      },
    )
    | inr e ↦
        let f₁ = moved 4 f in
        let f₂ = moved 4 f₁ in
        (
          moved (4 + i * 8) f₂,
          bind-ok (seek 4) _ f f₁ tt (seek-ok f (omega (arith, h.calls)) 4)
              ∙ rw e (
                  bind-ok tell (λ p. seek (p + i * 8)) f₁ f₂ 4 (tell-ok f₁ (omega (arith, h.calls)))
                  ∙ seek-ok f₂ (omega (arith, h.calls)) (4 + i * 8)),
          refl,
          record {
            slots = h.slots;
            room = h.room;
            spare = h.spare;
            links = h.links;
            bytes = h.bytes;
            calls = omega (arith, h.calls);
          },
        )
  ]

module _ (κ : Kind) (n : ℕ) where
  -- `write_index_body` of number `i` at the end of a file.
  body_write :
      (os tail : List ℕ) (i : ℕ) (t : HashTable) (c : ℕ) (f : File)
      → i ≡ length os
      → i < n
      → IsValid κ t
      → AtEnd f
      → Holds n os tail (ht_calls t + 8 + c) f
      → (g : File) × (write_index_body i t f ≡ ok (some tt, g))
        × AtEnd g
        × Holds n (os ++ (length f.bytes + 4) ∷ []) (tail ++ (be 4 i ++ ht_bytes t)) c g
  unfolding write_index_body
  body_write os tail i t c f is lt valid end h =
      let f₁ = advance (be 4 i) 1 f in
      let f₂ = moved f₁.pos f₁ in
      let f₃ = advance (ht_bytes t) (ht_calls t) f₂ in
      let f₄ = moved 0 f₃ in
      let tail' = tail ++ (be 4 i ++ ht_bytes t) in
      let h₄ : Holds n os tail' (3 + (suc (suc c))) f₄ = record {
        slots = h.slots;
        room = h.room;
        spare = h.spare;
        links = h.links;
        bytes =
            ap (λ (b : List ℕ). b ++ be 4 i ++ ht_bytes t) h.bytes
            ∙ regroup (be 4 n) h.slots tail (be 4 i) (ht_bytes t);
        calls = omega (arith, h.calls);
      } in
      let (f₅, e₅, at, h₅) = slot_seek n tail' os i is lt (suc (suc c)) f₄ h₄ in
      let (f₆, e₆, h₆) = slot_write n tail' os i is lt f₁.pos (suc c) f₅ h₅ at in
      let end₁ = AtEnd-advance (be 4 i) 1 f end in
      (
        moved (length f₆.bytes) f₆,
        bind-ok (write_be 4 i) _ f f₁ tt (Appends-write_be 4 i f end (omega (arith, h.calls)))
            ∙ bind-ok tell _ f₁ f₂ f₁.pos (tell-ok f₁ (omega (arith, h.calls)))
            ∙ bind-ok (write_ht t) _ f₂ f₃ tt
                (write_ht-Appends κ t valid f₂ end₁ (omega (arith, h.calls)))
            ∙ bind-ok (seek 0) _ f₃ f₄ tt (seek-ok f₃ (omega (arith, h.calls)) 0)
            ∙ bind-ok (seek_slot i) _ f₄ f₅ tt e₅
            ∙ bind-ok (write_be 8 f₁.pos) _ f₅ f₆ tt e₆
            ∙ bind-ok seek_end (λ e. pure tt) f₆ (moved (length f₆.bytes) f₆) (length f₆.bytes)
                (seek_end-ok f₆ (omega (arith, h₆.calls))),
        refl,
        record {
          slots = h₆.slots;
          room = h₆.room;
          spare = h₆.spare;
          links =
              h₆.links ∙ ap (λ (o : ℕ). offsets (os ++ o ∷ []) ++ h₆.spare) (omega (arith, end));
          bytes = h₆.bytes;
          calls = omega (arith, h₆.calls);
        },
      )

  pub bodies_write :
      (os tail : List ℕ) (i : ℕ) (ts : List HashTable) (c : ℕ) (f : File)
      → i ≡ length os
      → i + length ts ≡ n
      → All (IsValid κ) ts
      → AtEnd f
      → Holds n os tail (bodies_calls ts + c) f
      → (g : File) × (write_bodies i (length ts) ts f ≡ ok (some tt, g))
        × AtEnd g
        × Holds n (os ++ places (length f.bytes) ts) (tail ++ bodies i ts) c g
  unfolding write_bodies bodies bodies_calls places
  bodies_write os tail i [] c f is e valid end h = (
    f,
    refl,
    end,
    record {
      slots = h.slots;
      room = h.room;
      spare = h.spare;
      links = h.links ∙ ap (λ (l : List ℕ). offsets l ++ h.spare) (sym (append-nil os));
      bytes = h.bytes ∙ ap (λ (b : List ℕ). be 4 n ++ (h.slots ++ b)) (sym (append-nil tail));
      calls = omega (arith, h.calls);
    },
  )
  bodies_write os tail i (t ∷ ts) c f is e valid end h =
      let (f₁, e₁, end₁, h₁) =
        body_write os tail i t (bodies_calls ts + c) f is (omega (arith, e)) valid.0 end
          (Holds-less n os tail _ _ f h (omega arith)) in
      let further : length f₁.bytes ≡ length f.bytes + 4 + length (ht_bytes t) = omega (
        arith,
        Holds-length n _ _ _ f h,
        Holds-length n _ _ _ f₁ h₁,
        length-append tail (be 4 i ++ ht_bytes t),
        length-append (be 4 i) (ht_bytes t),
        length-be 4 i,
      ) in
      let (f₂, e₂, end₂, h₂) =
        bodies_write (os ++ (length f.bytes + 4) ∷ []) (tail ++ (be 4 i ++ ht_bytes t)) (suc i) ts c
          f₁ (omega (arith, is, length-append os ((length f.bytes + 4) ∷ []))) (omega (arith, e))
          valid.1 end₁ h₁ in
      (
        f₂,
        bind-ok (write_index_body i t) _ f f₁ tt e₁ ∙ e₂,
        end₂,
        record {
          slots = h₂.slots;
          room = h₂.room;
          spare = h₂.spare;
          links =
              h₂.links
              ∙ ap (λ (l : List ℕ). offsets l ++ h₂.spare)
                  (places-next os (length f.bytes) (length f₁.bytes) t ts further);
          bytes =
              h₂.bytes
              ∙ ap (λ (b : List ℕ). be 4 n ++ (h₂.slots ++ b))
                  (append_assoc tail (be 4 i ++ ht_bytes t) (bodies (suc i) ts));
          calls = h₂.calls;
        },
      )
