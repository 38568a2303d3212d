-- ===== src/IndexFile/Layout.antt =====
-- The layout of a file of several indexes: the count, the slots of the offsets, and the tables.
use isam_db_c_language.Base.{
  ℕ, zero, suc, ◌+◌, ◌*◌, ◌≤◌, ◌≡◌, refl, ap, sym, ◌∙◌, arith, List, [], ◌∷◌, ◌++◌, length,
  append_assoc, length-append,
}
use isam_db_c_language.HashTbl.{HashTable}
use isam_db_c_language.Io.{File}
use isam_db_c_language.Io.Bytes.{be, length-be}
use isam_db_c_language.IndexFile.Encode.{ht_bytes, ht_calls}

-- The bytes of the tables, each after its number.
unfoldable pub bodies : ℕ → List HashTable → List ℕ
bodies i [] = []
bodies i (t ∷ ts) = (be 4 i ++ ht_bytes t) ++ bodies (suc i) ts

-- Calls enough for `write_index_body` of all tables.
unfoldable pub bodies_calls : List HashTable → ℕ
bodies_calls [] = 0
bodies_calls (t ∷ ts) = ht_calls t + 8 + bodies_calls ts

-- Offsets as they stand in the head of the file.
unfoldable pub offsets : List ℕ → List ℕ
offsets [] = []
offsets (o ∷ os) = be 8 o ++ offsets os

-- The offsets of tables that are written from `e` on, each behind its number.
unfoldable pub places : ℕ → List HashTable → List ℕ
places e [] = []
places e (t ∷ ts) = (e + 4) ∷ places (e + 4 + length (ht_bytes t)) ts

pub offsets-append : (os ps : List ℕ) → offsets (os ++ ps) ≡ offsets os ++ offsets ps
unfolding offsets
offsets-append [] ps = refl
offsets-append (o ∷ os) ps =
    ap (◌++◌ (be 8 o)) (offsets-append os ps)
    ∙ sym (append_assoc (be 8 o) (offsets os) (offsets ps))

pub length-offsets : (os : List ℕ) → length (offsets os) ≡ length os * 8
unfolding offsets
length-offsets [] = omega arith
length-offsets (o ∷ os) =
    omega (arith, length-append (be 8 o) (offsets os), length-be 8 o, length-offsets os)

pub split :
    (old : List ℕ) (k m : ℕ)
    → length old ≡ k + m
    → (o : List ℕ) × (r : List ℕ) × (old ≡ o ++ r) × (length o ≡ k) × (length r ≡ m)
split old zero m h = ([], old, refl, refl, omega (arith, h))
split [] (suc k) m h = absurd (omega (arith, h))
split (x ∷ old) (suc k) m h =
    let r = split old k m (omega (arith, h)) in (x ∷ r.0, r.1, ap (◌∷◌ x) (r.2), ap suc (r.3), r.4)

-- A file of `n` indexes that is written so far: the count, a slot for each position, of which the
-- first ones hold the offsets `os`, and the rest. At least `left` calls are left.
pub record Holds (n : ℕ) (os tail : List ℕ) (left : ℕ) (f : File) : Type 0 where
  pub slots : List ℕ
  pub room : length slots ≡ n * 8
  pub spare : List ℕ
  pub links : slots ≡ offsets os ++ spare
  pub bytes : f.bytes ≡ be 4 n ++ (slots ++ tail)
  pub calls : left ≤ f.budget

pub Holds-less :
    (n : ℕ) (os tail : List ℕ) (c c' : ℕ) (f : File)
    → Holds n os tail c f
    → c' ≤ c
    → Holds n os tail c' f
Holds-less n os tail c c' f h le = record {
  slots = h.slots;
  room = h.room;
  spare = h.spare;
  links = h.links;
  bytes = h.bytes;
  calls = omega (arith, h.calls);
}

pub Holds-length :
    (n : ℕ) (os tail : List ℕ) (c : ℕ) (f : File)
    → Holds n os tail c f
    → length f.bytes ≡ 4 + n * 8 + length tail
Holds-length n os tail c f h =
    ap length h.bytes
    ∙ omega (
      arith,
      length-append (be 4 n) (h.slots ++ tail),
      length-append h.slots tail,
      length-be 4 n,
      h.room,
    )

pub places-next :
    (os : List ℕ) (e e' : ℕ) (t : HashTable) (ts : List HashTable)
    → e' ≡ e + 4 + length (ht_bytes t)
    → (os ++ (e + 4) ∷ []) ++ places e' ts ≡ os ++ places e (t ∷ ts)
unfolding places
places-next os e e' t ts is =
    append_assoc os ((e + 4) ∷ []) (places e' ts) ∙ ap (λ (q : ℕ). os ++ (e + 4) ∷ places q ts) is
