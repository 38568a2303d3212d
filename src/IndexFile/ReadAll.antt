-- ===== src/IndexFile/ReadAll.antt =====
-- `write_index` and then `read_all_index_file`: all indexes of a database through its index file.
use mathlib.Core.Path.{subst}
use isam_db_c_language.Base.{
  ℕ, suc, ◌+◌, ◌-◌, ◌*◌, ◌^◌, ◌≤◌, ◌<◌, ◌≡◌, ap, sym, ◌∙◌, arith, false, List, [], ◌∷◌, ◌++◌, ok,
  some, length, length-append, append_assoc, append-nil, All, ◌==◌, if◌then◌else◌, leb,
  length-replicate,
}
use isam_db_c_language.HashTbl.{Node, HashTable, empty_table, max_ht_bucket}
use isam_db_c_language.HashTbl.Keys.{string}
use isam_db_c_language.HashTbl.Model.{IsValid}
use isam_db_c_language.Io.{File, ◌>>=◌, ◌>>◌, pure, fail, seek, tell, read_be}
use isam_db_c_language.Io.Bytes.{be, length-be}
use isam_db_c_language.Io.Calls.{moved, seek-ok, tell-ok}
use isam_db_c_language.Io.Wire.{
  skip, Reads, Reads-read_be, Reads-pure, Reads-bind, Reads-map, bind-ok,
}
use isam_db_c_language.IndexFile.{read_index_file}
use isam_db_c_language.IndexFile.Encode.{ht_bytes, ht_calls}
use isam_db_c_language.IndexFile.Load.{Reads-ht}
use isam_db_c_language.IndexFile.Reload.{nodes-kind, reloaded-string}
use isam_db_c_language.IndexFile.RoundTrip.{Fits}
use isam_db_c_language.IndexFile.Indexes.{
  write_index, move_in_file_bytes, read_tables, read_all_index_file,
}
use isam_db_c_language.IndexFile.Layout.{Holds, bodies, bodies_calls}
use isam_db_c_language.IndexFile.WriteAll.{write_index_lem}

pub Reads-string :
    (t : HashTable)
    → IsValid string t
    → Fits t
    → Reads (read_index_file (empty_table 0)) (ht_bytes t) (ht_calls t) t
unfolding empty_table
Reads-string t valid fits =
    subst (Reads (read_index_file (empty_table 0)) (ht_bytes t) (ht_calls t))
      (reloaded-string t valid)
      (Reads-ht string t (empty_table 0) (nodes-kind string t valid) fits.each valid.two
        (rw (length-replicate {A = List Node} max_ht_bucket []) valid.fits)
        (omega (arith, valid.fits)) fits.few)

moved-moved :
    (d : List ℕ) (n : ℕ) (f : File)
    → length d ≡ n
    → moved (f.pos + n) (moved f.pos f) ≡ skip (length d) 2 f
moved-moved d n f e =
    let pos : f.pos + n ≡ f.pos + length d = omega (arith, e) in
    let budget : f.budget - 1 - 1 ≡ f.budget - 2 = omega arith in
    λ i. record { bytes = f.bytes; pos = pos i; budget = budget i }

pub Reads-move : (d : List ℕ) (n : ℕ) → length d ≡ n → Reads (move_in_file_bytes n) d 2 tt
unfolding move_in_file_bytes
Reads-move d n e f s there h =
    bind-ok tell (λ p. seek (p + n)) f (moved f.pos f) f.pos (tell-ok f (omega (arith, h)))
    ∙ seek-ok (moved f.pos f) (omega (arith, h)) (f.pos + n)
    ∙ ap (λ (g : File). ok (some tt, g)) (moved-moved d n f e)

-- The bytes that `read_tables` reads: the first table stands without its number.
unfoldable table_bytes : ℕ → List HashTable → List ℕ
table_bytes i [] = []
table_bytes i (t ∷ []) = ht_bytes t
table_bytes i (t ∷ u ∷ ts) = ht_bytes t ++ (be 4 (suc i) ++ table_bytes (suc i) (u ∷ ts))

unfoldable pub table_calls : List HashTable → ℕ
table_calls [] = 0
table_calls (t ∷ []) = ht_calls t
table_calls (t ∷ u ∷ ts) = ht_calls t + (2 + table_calls (u ∷ ts))

Reads-tables :
    (i : ℕ) (ts : List HashTable)
    → All (IsValid string) ts
    → All Fits ts
    → Reads (read_tables (length ts)) (table_bytes i ts) (table_calls ts) ts
unfolding read_tables table_bytes table_calls
Reads-tables i [] valid fits = Reads-pure []
Reads-tables i (t ∷ []) valid fits =
    Reads-map (read_index_file (empty_table 0)) (λ (u : HashTable). u ∷ []) (ht_bytes t)
      (ht_calls t) t (Reads-string t valid.0 fits.0)
Reads-tables i (t ∷ u ∷ ts) valid fits =
    let more : (suc (length ts) == 0) ≡ false = ground arith in
    Reads-bind (read_index_file (empty_table 0)) _ (ht_bytes t)
      (be 4 (suc i) ++ table_bytes (suc i) (u ∷ ts)) (ht_calls t) (2 + table_calls (u ∷ ts)) t _
      (Reads-string t valid.0 fits.0)
      (rw more (
        Reads-bind (move_in_file_bytes 4) _ (be 4 (suc i)) (table_bytes (suc i) (u ∷ ts)) 2
          (table_calls (u ∷ ts)) tt _ (Reads-move (be 4 (suc i)) 4 (length-be 4 (suc i)))
          (Reads-map (read_tables (suc (length ts))) (◌∷◌ t) (table_bytes (suc i) (u ∷ ts))
            (table_calls (u ∷ ts)) (u ∷ ts) (Reads-tables (suc i) (u ∷ ts) valid.1 fits.1))))

bodies-table_bytes :
    (i : ℕ) (t : HashTable) (ts : List HashTable)
    → bodies i (t ∷ ts) ≡ be 4 i ++ table_bytes i (t ∷ ts)
unfolding bodies table_bytes
bodies-table_bytes i t [] = append-nil (be 4 i ++ ht_bytes t)
bodies-table_bytes i t (u ∷ ts) =
    append_assoc (be 4 i) (ht_bytes t) (bodies (suc i) (u ∷ ts))
    ∙ ap (λ (b : List ℕ). be 4 i ++ (ht_bytes t ++ b)) (bodies-table_bytes (suc i) u ts)

-- Calls enough for `read_all_index_file`.
unfoldable pub read_all_calls : List HashTable → ℕ
unfolding table_calls
read_all_calls ts = 4 + table_calls ts

module _ (t : HashTable) (ts : List HashTable) (valid : All (IsValid string) (t ∷ ts))
    (fits : All Fits (t ∷ ts)) (few : length (t ∷ ts) < 2 ^ 31) where
  abbrev count : ℕ
  count = length (t ∷ ts)

  -- What follows the first `lseek`.
  Reads-all :
      (slots : List ℕ)
      → length slots ≡ count * 8
      → Reads
          (do
            n ← read_be 4
            (if leb (2 ^ 31) n then fail else pure tt)
            (if n == 0 then fail else pure tt)
            move_in_file_bytes (n * 8 + 4)
            read_tables n)
          (be 4 count ++ ((slots ++ be 4 0) ++ table_bytes 0 (t ∷ ts)))
          (1 + (2 + table_calls (t ∷ ts)))
          (t ∷ ts)
  Reads-all slots room =
      let small : leb (2 ^ 31) count ≡ false = ground arith in
      let filled : (count == 0) ≡ false = ground arith in
      Reads-bind (read_be 4) _ (be 4 count) ((slots ++ be 4 0) ++ table_bytes 0 (t ∷ ts)) 1
        (2 + table_calls (t ∷ ts)) count (t ∷ ts) (Reads-read_be 4 count (omega (arith, few)))
        (rw (small, filled)
          (Reads-bind (move_in_file_bytes (count * 8 + 4)) _ (slots ++ be 4 0)
            (table_bytes 0 (t ∷ ts)) 2 (table_calls (t ∷ ts)) tt (t ∷ ts)
            (Reads-move (slots ++ be 4 0) (count * 8 + 4)
              (omega (arith, length-append slots (be 4 0), length-be 4 0, room)))
            (Reads-tables 0 (t ∷ ts) valid fits)))

  read_all_lem :
      (g : File)
      → (os : List ℕ) → Holds count os (bodies 0 (t ∷ ts)) (read_all_calls (t ∷ ts)) g
      → (h : File) × (read_all_index_file g ≡ ok (some (t ∷ ts), h))
  unfolding read_all_index_file read_all_calls
  read_all_lem g os h =
      let there : g.bytes ≡ be 4 count ++ ((h.slots ++ be 4 0) ++ table_bytes 0 (t ∷ ts)) ++ [] =
        h.bytes
        ∙ ap (λ (b : List ℕ). be 4 count ++ (h.slots ++ b)) (bodies-table_bytes 0 t ts)
        ∙ ap (◌++◌ (be 4 count)) (sym (append_assoc h.slots (be 4 0) (table_bytes 0 (t ∷ ts))))
        ∙ sym (append-nil _) in
      (
        skip _ _ (moved 0 g),
        bind-ok (seek 0) _ g (moved 0 g) tt (seek-ok g (omega (arith, h.calls)) 0)
            ∙ Reads-all h.slots h.room (moved 0 g) [] there (omega (arith, h.calls)),
      )

-- One or more valid tables of string keys that fit the widths of the file, fewer than 2^31, with
-- calls enough: `write_index` into a file of any contents and `read_all_index_file` after it
-- succeed, and the same tables come back in the same order.
pub read_all_index_file-write_index :
    (t : HashTable) (ts : List HashTable) (f : File)
    → All (IsValid string) (t ∷ ts)
    → All Fits (t ∷ ts)
    → length (t ∷ ts) < 2 ^ 31
    → 1 + length (t ∷ ts) + bodies_calls (t ∷ ts) + read_all_calls (t ∷ ts) ≤ f.budget
    → (g : File) × ((write_index (length (t ∷ ts)) (t ∷ ts) >> read_all_index_file) f
        ≡ ok (some (t ∷ ts), g))
read_all_index_file-write_index t ts f valid fits few enough =
    let (g, e, h) = write_index_lem string (t ∷ ts) (read_all_calls (t ∷ ts)) f valid enough in
    let (k, e') = read_all_lem t ts valid fits few g _ h in
    (k, bind-ok (write_index (length (t ∷ ts)) (t ∷ ts)) (λ u. read_all_index_file) f g tt e ∙ e')
