-- ===== src/Records/ArrayLayout.antt =====
-- The bytes of an array in a file, and its writer and reader as such, for any type of element.
use mathlib.Core.Path.{subst}
use isam_db_c_language.Base.{
  ℕ, suc, if◌then◌else◌, ◌+◌, ◌-◌, ◌*◌, ◌^◌, ◌<◌, ◌≡◌, refl, sym, ◌∙◌, arith, false, List, [], ◌∷◌,
  ◌++◌, append_assoc, append-nil, length, drop, ◌≤◌, All, Option, none, some, ok,
}
use isam_db_c_language.Io.{Io, ◌>>=◌, ◌>>◌, pure, seek, tell, read_be}
use isam_db_c_language.Io.Bytes.{be}
use isam_db_c_language.Io.Calls.{moved, tell-ok, seek-ok}
use isam_db_c_language.Io.Wire.{
  Appends, Appends-write_be, Appends-pure, Appends-seq, Reads, Reads-pure, Reads-bind,
  Reads-read_be, bind-ok, skip,
}
use isam_db_c_language.Records.Arrays.{
  fill, last_is_null, init_array, insert_element, positive, loops, write_elements, write_array,
  read_elements, read_blocks, read_array,
}

-- A pointer that is not NULL, to an element as it should be.
abbrev pub Points : {A : Type 0} → (A → Type 0) → Option A → Type 0
Points P none = ⊥
Points P (some x) = P x

-- An array without a NULL pointer, whose size is positive as an `int` or 0.
pub record IsArray {A : Type 0} (P : A → Type 0) (v : List (Option A)) : Type 0 where
  pub each : All (Points P) v
  pub few : 2 * length v < 256 ^ 4

unfoldable pub elements_bytes : {A : Type 0} → (A → List ℕ) → List (Option A) → List ℕ
elements_bytes enc [] = []
elements_bytes enc (none ∷ v) = elements_bytes enc v
elements_bytes enc (some x ∷ v) = enc x ++ elements_bytes enc v

-- The calls for the elements, with `c` for each.
unfoldable pub elements_calls : {A : Type 0} → ℕ → List (Option A) → ℕ
elements_calls c [] = 0
elements_calls c (none ∷ v) = elements_calls c v
elements_calls c (some x ∷ v) = c + elements_calls c v

unfoldable pub array_bytes : {A : Type 0} → (A → List ℕ) → List (Option A) → List ℕ
array_bytes enc v = be 4 (length v) ++ be 4 0 ++ elements_bytes enc v ++ be 8 0

unfoldable pub array_write_calls : {A : Type 0} → ℕ → List (Option A) → ℕ
array_write_calls c v = 1 + 1 + elements_calls c v + 1

unfoldable pub array_read_calls : {A : Type 0} → ℕ → List (Option A) → ℕ
array_read_calls c v = 1 + (1 + (elements_calls c v + (1 + 2)))

-- The elements as they are read back.
unfoldable pub reread : {A B : Type 0} → (A → B) → List (Option A) → List (Option B)
reread load [] = []
reread load (none ∷ v) = none ∷ reread load v
reread load (some x ∷ v) = some (load x) ∷ reread load v

-- Filled: there is no NULL pointer.
abbrev IsFilled : {A : Type 0} → List (Option A) → Type 0
IsFilled v = All (Points (λ x. Unit)) v

last_is_null-IsFilled : {A : Type 0} (v : List (Option A)) → IsFilled v → last_is_null v ≡ false
unfolding last_is_null
last_is_null-IsFilled [] h = refl
last_is_null-IsFilled (none ∷ v) h = absurd h.0
last_is_null-IsFilled (some x ∷ []) h = refl
last_is_null-IsFilled (some x ∷ s ∷ v) h = last_is_null-IsFilled (s ∷ v) h.1

-- Into an array without a NULL pointer an element goes at the end.
pub insert_element-IsFilled :
    {A : Type 0} (x : A) (v : List (Option A)) → IsFilled v → insert_element x v ≡ v ++ some x ∷ []
unfolding insert_element init_array fill
insert_element-IsFilled x [] h = refl
insert_element-IsFilled x (s ∷ v) h = rw (last_is_null-IsFilled (s ∷ v) h) refl

IsFilled-snoc :
    {A : Type 0} (x : A) (v : List (Option A)) → IsFilled v → IsFilled (v ++ some x ∷ [])
IsFilled-snoc x [] h = (tt, tt)
IsFilled-snoc x (s ∷ v) h = (h.0, IsFilled-snoc x v h.1)

module _ {A : Type 0} (w : A → Io (Unit {0})) (enc : A → List ℕ) (P : A → Type 0) (c : ℕ)
    (writes : (x : A) → P x → Appends (w x) (enc x) c) where
  Appends-elements :
      (v : List (Option A))
      → All (Points P) v
      → Appends (write_elements w v) (elements_bytes enc v) (elements_calls c v)
  unfolding write_elements elements_bytes elements_calls
  Appends-elements [] h = Appends-pure
  Appends-elements (none ∷ v) h = absurd h.0
  Appends-elements (some x ∷ v) h =
      Appends-seq (w x) (write_elements w v) _ _ c _ (writes x h.0) (Appends-elements v h.1)

  pub Appends-array :
      (v : List (Option A))
      → IsArray P v
      → Appends (write_array w v) (array_bytes enc v) (array_write_calls c v)
  unfolding write_array array_bytes array_write_calls
  Appends-array v is =
      Appends-seq _ _ _ _ _ 1
        (Appends-seq _ _ _ _ 2 _
          (Appends-seq _ _ _ _ 1 1 (Appends-write_be 4 (length v)) (Appends-write_be 4 0))
          (Appends-elements v is.each))
        (Appends-write_be 8 0)

-- `get_file_offset` and a move to that place.
Reads-here : {A : Type 0} (a : A) → Reads (tell >>= λ p. seek p >> pure a) [] 2 a
Reads-here a f s e h =
    let pos : f.pos ≡ f.pos + 0 = omega arith in
    let budget : f.budget - 1 - 1 ≡ f.budget - 2 = omega arith in
    bind-ok tell (λ p. seek p >> pure a) f (moved f.pos f) f.pos (tell-ok f (omega arith))
    ∙ bind-ok (seek f.pos) (λ _. pure a) (moved f.pos f) (moved f.pos (moved f.pos f)) tt
        (seek-ok (moved f.pos f) (omega arith) f.pos)
    ∙ λ i. ok (some a, record { bytes = f.bytes; pos = pos i; budget = budget i })

pub loops-small : (n : ℕ) → 2 * n < 256 ^ 4 → loops n ≡ n
unfolding loops positive
loops-small n h = ground arith

module _ {A B : Type 0} (r : Io B) (skip_padding : ℕ → Io (Unit {0})) (enc : A → List ℕ)
    (load : A → B) (P : A → Type 0) (c : ℕ)
    (reads : (x : A) → P x → Reads r (enc x) c (load x)) where
  pub Reads-elements :
      (v : List (Option A)) (acc : List (Option B))
      → All (Points P) v
      → IsFilled acc
      → Reads
          (read_elements r (length v) acc)
          (elements_bytes enc v)
          (elements_calls c v)
          (acc ++ reread load v)
  unfolding read_elements elements_bytes elements_calls reread
  Reads-elements [] acc h full =
      subst (Reads (pure acc) [] 0) (sym (append-nil acc)) (Reads-pure acc)
  Reads-elements (none ∷ v) acc h full = absurd h.0
  Reads-elements (some x ∷ v) acc h full =
      let next =
        Reads-elements v (acc ++ some (load x) ∷ []) h.1 (IsFilled-snoc (load x) acc full) in
      subst
        (Reads (r >>= λ y. read_elements r (length v) (insert_element y acc))
          (enc x ++ elements_bytes enc v) (c + elements_calls c v))
        (append_assoc acc (some (load x) ∷ []) (reread load v))
        (Reads-bind r (λ y. read_elements r (length v) (insert_element y acc)) _ _ c _ (load x) _
          (reads x h.0)
          (subst
            (λ (w : List (Option B)).
              Reads (read_elements r (length v) w) (elements_bytes enc v) (elements_calls c v)
                (acc ++ some (load x) ∷ [] ++ reread load v))
            (sym (insert_element-IsFilled (load x) acc full)) next))

  -- The bytes of the last block, grouped as its reader takes them.
  abbrev pub block_bytes : ℕ → List ℕ → List (Option A) → List ℕ
  block_bytes pad padding v =
      be 4 (length v) ++ (be 4 pad ++ (elements_bytes enc v ++ (padding ++ (be 8 0 ++ []))))

  block_bytes-array_bytes : (v : List (Option A)) → block_bytes 0 [] v ≡ array_bytes enc v
  unfolding array_bytes
  block_bytes-array_bytes v = simp (append_assoc, append-nil)

  -- `cp` is the number of calls that pass over the padding.
  pub Reads-block :
      (k pad cp : ℕ) (padding : List ℕ) (v : List (Option A))
      → IsArray P v
      → pad < 256 ^ 4
      → Reads (if positive 4 pad then skip_padding pad else pure tt) padding cp tt
      → Reads
          (read_blocks r skip_padding (suc k) 0 [])
          (block_bytes pad padding v)
          (1 + (1 + (elements_calls c v + (cp + (1 + 2)))))
          (reread load v)
  unfolding read_blocks positive
  Reads-block k pad cp padding v is small skips =
      Reads-bind (read_be 4) _ (be 4 (length v)) _ 1 _ (length v) _
        (Reads-read_be 4 (length v) (omega (arith, is.few)))
        (Reads-bind (read_be 4) _ (be 4 pad) _ 1 _ pad _ (Reads-read_be 4 pad small) (
          Reads-bind (read_elements r (loops (length v)) []) _ (elements_bytes enc v) _ _ _
            (reread load v) _
            (subst
              (λ (n : ℕ).
                Reads (read_elements r n []) (elements_bytes enc v) (elements_calls c v)
                  (reread load v))
              (sym (loops-small (length v) is.few)) (Reads-elements v [] is.each tt))
            (Reads-bind (if positive 4 pad then skip_padding pad else pure tt) _ padding _ cp
              (1 + 2) tt _ skips
              (Reads-bind (read_be 8) _ (be 8 0) [] 1 2 0 _ (Reads-read_be 8 0 (omega arith))
                (Reads-here (reread load v))))))

  -- Such an array is read back from where its bytes stand.
  pub Reads-array :
      (v : List (Option A))
      → IsArray P v
      → Reads
          (read_array r skip_padding [])
          (array_bytes enc v)
          (array_read_calls c v)
          (reread load v)
  unfolding read_array array_read_calls
  Reads-array v is f =
      subst
        (λ (d : List ℕ).
          (s : List ℕ)
          → drop f.pos f.bytes ≡ d ++ s
          → array_read_calls c v ≤ f.budget
          → read_array r skip_padding [] f
            ≡ ok (some (reread load v), skip (length d) (array_read_calls c v) f))
        (block_bytes-array_bytes v)
        (Reads-block f.budget 0 0 [] v is (omega arith) (Reads-pure tt) f)
