-- ===== src/IndexFile/ReadNr.antt =====
-- `write_index` and then `read_index_nr`: one index of several, found by its offset in the head.
use isam_db_c_language.Base.{
  ℕ, suc, ◌+◌, ◌-◌, ◌*◌, ◌^◌, ◌≤◌, ◌<◌, ◌≡◌, refl, ap, sym, ◌∙◌, arith, true, false, List, [], ◌∷◌,
  ◌++◌, ok, some, length, length-append, append_assoc, All, ◌==◌, ltb, leb,
}
use isam_db_c_language.HashTbl.{HashTable, empty_table}
use isam_db_c_language.HashTbl.Keys.{string}
use isam_db_c_language.HashTbl.Model.{IsValid}
use isam_db_c_language.Io.{File, ◌>>◌, seek, tell, read_be}
use isam_db_c_language.Io.Bytes.{be, length-be}
use isam_db_c_language.Io.Wire.{bind-ok}
use isam_db_c_language.IndexFile.{
  read_index_file, read_index_nr, as_int, out_of_bound, find_record_position,
}
use isam_db_c_language.IndexFile.Encode.{ht_bytes, ht_calls}
use isam_db_c_language.IndexFile.RoundTrip.{Fits}
use isam_db_c_language.IndexFile.Indexes.{write_index}
use isam_db_c_language.IndexFile.Layout.{
  Holds, offsets, places, bodies, bodies_calls, offsets-append, length-offsets,
}
use isam_db_c_language.IndexFile.WriteAll.{write_index_lem}
use isam_db_c_language.IndexFile.ReadAll.{Reads-string}
use isam_db_c_language.Records.Places.{at, starts}
use isam_db_c_language.Records.Rounds.{Runs-Reads}
use isam_db_c_language.Records.Overwrites.{
  Runs, Runs-bind, Runs-then, Runs-tell, Runs-seek, Runs-read_be,
}

length-places : (e : ℕ) (us : List HashTable) → length (places e us) ≡ length us
unfolding places
length-places e [] = refl
length-places e (t ∷ us) = ap suc (length-places (e + 4 + length (ht_bytes t)) us)

-- The offset and the bytes of one table.
places-split :
    (e i q : ℕ) (us : List HashTable) (t : HashTable) (vs : List HashTable)
    → q ≡ e + length (bodies i us) + 4
    → (r : List ℕ) × (places e (us ++ t ∷ vs) ≡ places e us ++ q ∷ r)
unfolding places bodies
places-split e i q [] t vs is =
    let here : e + 4 ≡ q = omega (arith, is) in
    (
      places (e + 4 + length (ht_bytes t)) vs,
      ap (λ (k : ℕ). k ∷ places (e + 4 + length (ht_bytes t)) vs) here,
    )
places-split e i q (u ∷ us) t vs is =
    let r = places-split (e + 4 + length (ht_bytes u)) (suc i) q us t vs (
      omega (
        arith,
        is,
        length-append (be 4 i ++ ht_bytes u) (bodies (suc i) us),
        length-append (be 4 i) (ht_bytes u),
        length-be 4 i,
      )) in
    (r.0, ap (◌∷◌ (e + 4)) (r.1))

bodies-split :
    (i : ℕ) (us : List HashTable) (t : HashTable) (vs : List HashTable)
    → (m : List ℕ) × (r : List ℕ) × (length m ≡ 4)
      × (bodies i (us ++ t ∷ vs) ≡ bodies i us ++ (m ++ (ht_bytes t ++ r)))
unfolding bodies
bodies-split i [] t vs = (
  be 4 i,
  bodies (suc i) vs,
  length-be 4 i,
  append_assoc (be 4 i) (ht_bytes t) (bodies (suc i) vs),
)
bodies-split i (u ∷ us) t vs =
    let r = bodies-split (suc i) us t vs in
    (
      r.0,
      r.1,
      r.2,
      ap (◌++◌ (be 4 i ++ ht_bytes u)) (r.3)
          ∙ sym (append_assoc (be 4 i ++ ht_bytes u) (bodies (suc i) us) _),
    )

-- On a file of `n` indexes, with the offset `q` in slot `i` and a table there.
module _ (bytes a b rest behind : List ℕ) (n i q : ℕ) (t : HashTable) (valid : IsValid string t)
    (fits : Fits t) (count : (s : List ℕ) × (bytes ≡ be 4 n ++ s))
    (slot : bytes ≡ a ++ (be 8 q ++ rest)) (slot_place : length a ≡ 4 + i * 8)
    (table : bytes ≡ b ++ (ht_bytes t ++ behind)) (table_place : q ≡ length b) (lt : i < n)
    (few : n < 2 ^ 31) (low : 2 * q < 256 ^ 8) (set : 0 < q) where
  end : ℕ
  end = q + length (ht_bytes t)

  Runs-table : Runs (read_index_file (empty_table 0)) t bytes q bytes end (ht_calls t)
  unfolding end
  Runs-table =
      Runs-Reads (read_index_file (empty_table 0)) (ht_bytes t) behind bytes q (ht_calls t) t
        (Reads-string t valid fits) (starts bytes b (ht_bytes t ++ behind) q table table_place)

  Runs-find :
      Runs
        (find_record_position q >> read_index_file (empty_table 0))
        t
        bytes
        (4 + i * 8 + 8)
        bytes
        end
        (1 + ht_calls t)
  unfolding find_record_position
  Runs-find c =
      let is : ltb (2 * q) (256 ^ 8) ≡ true = ground arith in
      rw is (
        Runs-then (seek q) _ t bytes bytes bytes (4 + i * 8 + 8) q end 1 (ht_calls t)
          (Runs-seek q bytes (4 + i * 8 + 8)) Runs-table c)

  Runs-read_index_nr :
      (p : ℕ)
      → Runs (read_index_nr i) t bytes p bytes end (1 + (1 + (1 + (1 + (1 + (1 + ht_calls t))))))
  unfolding read_index_nr as_int out_of_bound
  Runs-read_index_nr p =
      let some_left : (n == 0) ≡ false = ground arith in
      let small : ltb n (2 ^ 31) ≡ true = ground arith in
      let inside : leb n i ≡ false = ground arith in
      let nonzero : (q == 0) ≡ false = ground arith in
      Runs-then (seek 0) _ t bytes bytes bytes p 0 end 1 _ (Runs-seek 0 bytes p) (
        Runs-bind (read_be 4) _ n t bytes bytes bytes 0 4 end 1 _
          (Runs-read_be 4 n bytes [] (count.0) 0 (omega (arith, few)) (count.1) refl)
          (λ c.
            rw (some_left, small)
              (rw inside (
                Runs-bind tell _ 4 t bytes bytes bytes 4 4 end 1 _ (Runs-tell bytes 4)
                  (Runs-then (seek (4 + i * 8)) _ t bytes bytes bytes 4 (4 + i * 8) end 1 _
                    (Runs-seek (4 + i * 8) bytes 4)
                    (Runs-bind (read_be 8) _ q t bytes bytes bytes (4 + i * 8) (4 + i * 8 + 8) end 1
                      _
                      (Runs-read_be 8 q bytes a rest (4 + i * 8) (omega (arith, low)) slot
                        (sym slot_place))
                      (λ d. rw nonzero (Runs-find d))))
                  c))))

-- What `write_index` left: the slot and the table of `t`, and the call that reads it.
module _ (us : List HashTable) (t : HashTable) (vs : List HashTable) (n q c : ℕ) (g : File)
    (count : n ≡ length (us ++ t ∷ vs)) (place : q ≡ 4 + n * 8 + length (bodies 0 us) + 4)
    (h : Holds n (places (4 + n * 8) (us ++ t ∷ vs)) (bodies 0 (us ++ t ∷ vs)) c g) where
  abbrev before : List ℕ
  before = places (4 + n * 8) us

  slot_bytes : (r : List ℕ) × (g.bytes ≡ (be 4 n ++ offsets before) ++ (be 8 q ++ r))
  slot_bytes =
      let (os, is) = places-split (4 + n * 8) 0 q us t vs place in
      let slots : h.slots ≡ offsets before ++ (be 8 q ++ (offsets os ++ h.spare)) =
        h.links
        ∙ ap (λ (l : List ℕ). offsets l ++ h.spare) is
        ∙ ap (λ (l : List ℕ). l ++ h.spare) (offsets-append before (q ∷ os))
        ∙ append_assoc (offsets before) (offsets (q ∷ os)) h.spare
        ∙ ap (◌++◌ (offsets before))
            (unfold offsets in append_assoc (be 8 q) (offsets os) h.spare) in
      (
        (offsets os ++ h.spare) ++ bodies 0 (us ++ t ∷ vs),
        h.bytes
            ∙ ap (λ (l : List ℕ). be 4 n ++ (l ++ bodies 0 (us ++ t ∷ vs))) slots
            ∙ simp append_assoc,
      )

  slot_place : length (be 4 n ++ offsets before) ≡ 4 + length us * 8
  slot_place = omega (
    arith,
    length-append (be 4 n) (offsets before),
    length-be 4 n,
    length-offsets before,
    length-places (4 + n * 8) us,
  )

  table_there :
      (a r : List ℕ) × (g.bytes ≡ a ++ (ht_bytes t ++ r))
      × (q ≡ length a)
      × (q ≤ 4 + n * 8 + length (bodies 0 (us ++ t ∷ vs)))
  table_there =
      let (m, r, four, parts) = bodies-split 0 us t vs in
      (
        be 4 n ++ (h.slots ++ (bodies 0 us ++ m)),
        r,
        h.bytes ∙ ap (λ (l : List ℕ). be 4 n ++ (h.slots ++ l)) parts ∙ simp append_assoc,
        omega (
          arith,
          place,
          length-append (be 4 n) (h.slots ++ (bodies 0 us ++ m)),
          length-be 4 n,
          length-append h.slots (bodies 0 us ++ m),
          h.room,
          length-append (bodies 0 us) m,
          four,
        ),
        omega (
          arith,
          place,
          four,
          ap length parts,
          length-append (bodies 0 us) (m ++ (ht_bytes t ++ r)),
          length-append m (ht_bytes t ++ r),
        ),
      )

  read_index_nr_lem :
      IsValid string t
      → Fits t
      → n < 2 ^ 31
      → 2 * (4 + n * 8 + length (bodies 0 (us ++ t ∷ vs))) < 256 ^ 8
      → (e : ℕ) × Runs
          (read_index_nr (length us))
          t
          g.bytes
          g.pos
          g.bytes
          e
          (1 + (1 + (1 + (1 + (1 + (1 + ht_calls t))))))
  read_index_nr_lem valid fits few low =
      let (rest, slot) = slot_bytes in
      let (a, behind, table, table_place, inside) = table_there in
      (
        _,
        Runs-read_index_nr g.bytes (be 4 n ++ offsets before) a rest behind n (length us) q t valid
            fits (h.slots ++ bodies 0 (us ++ t ∷ vs), h.bytes) slot slot_place table table_place
            (omega (arith, count, length-append us (t ∷ vs))) few (omega (arith, low, inside))
            (omega (arith, place)) g.pos,
      )

-- Valid tables of string keys, fewer than 2^31 of them, of which one fits the widths of the file,
-- in a file shorter than half of what 8 bytes count, with calls enough: after `write_index` into
-- a file of any contents, `read_index_nr` with the place of that table among the indexes
-- succeeds, and gives the table back.
pub read_index_nr-write_index :
    (us : List HashTable) (t : HashTable) (vs : List HashTable) (f : File)
    → All (IsValid string) (us ++ t ∷ vs)
    → IsValid string t
    → Fits t
    → length (us ++ t ∷ vs) < 2 ^ 31
    → 2 * (4 + length (us ++ t ∷ vs) * 8 + length (bodies 0 (us ++ t ∷ vs))) < 256 ^ 8
    → 1 + length (us ++ t ∷ vs) + bodies_calls (us ++ t ∷ vs) + (6 + ht_calls t) ≤ f.budget
    → (g : File) × ((write_index (length (us ++ t ∷ vs)) (us ++ t ∷ vs)
            >> read_index_nr (length us))
          f
        ≡ ok (some t, g))
read_index_nr-write_index us t vs f valid one fits few low enough =
    let n = length (us ++ t ∷ vs) in
    let (g, wrote, h) = write_index_lem string (us ++ t ∷ vs) (6 + ht_calls t) f valid enough in
    let (e, run) = read_index_nr_lem us t vs n _ _ g refl refl h one fits few low in
    let back = g.budget - (6 + ht_calls t) in
    let calls : g.budget ≡ 1 + (1 + (1 + (1 + (1 + (1 + ht_calls t))))) + back =
      omega (arith, h.calls) in
    (
      at g.bytes e back,
      bind-ok (write_index n (us ++ t ∷ vs)) (λ u. read_index_nr (length us)) f g tt wrote
          ∙ ap (λ (b : ℕ). read_index_nr (length us) (at g.bytes g.pos b)) calls
          ∙ run back,
    )
