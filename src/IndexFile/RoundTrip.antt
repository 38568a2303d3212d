-- ===== src/IndexFile/RoundTrip.antt =====
-- Writing an index and reading it back: exact for string keys; of integer keys that share a
-- bucket only the first comes back.
use isam_db_c_language.Base.{
  ℕ, ◌≤◌, ◌<◌, ◌^◌, ◌≡◌, ap, sym, ◌∙◌, arith, List, [], ok, length-replicate, length, some, drop,
  All, append-nil,
}
use isam_db_c_language.HashTbl.{Node, HashTable, max_ht_bucket, empty_table}
use isam_db_c_language.HashTbl.Keys.{Kind, string, number}
use isam_db_c_language.HashTbl.Model.{bucket, IsValid}
use isam_db_c_language.Io.{File}
use isam_db_c_language.Io.Bytes.{drop-length_append}
use isam_db_c_language.Io.Wire.{AtEnd, advance, skip}
use isam_db_c_language.IndexFile.{write_ht, read_index_file}
use isam_db_c_language.IndexFile.Encode.{nodes, ht_bytes, ht_calls, write_ht-Appends}
use isam_db_c_language.IndexFile.Load.{NodeFits, Reads-ht}
use isam_db_c_language.IndexFile.Absorb.{kept}
use isam_db_c_language.IndexFile.Reload.{
  nodes-kind, reloaded, reloaded-bucket, reloaded-size, reloaded-string,
}

-- What the widths of the file ask of a table.
pub record Fits (t : HashTable) : Type 0 where
  pub each : All NodeFits (nodes t)
  pub few : length (nodes t) < 2 ^ 31

-- `g` is the file with the position set back to `p`, and calls left.
abbrev pub Reopened : File → ℕ → ℕ → File → Type 0
Reopened f p calls g = (g.bytes ≡ f.bytes) × (g.pos ≡ p) × (calls ≤ g.budget)

module _ (κ : Kind) (t : HashTable) (valid : IsValid κ t) (fits : Fits t) where
  read-write :
      (f g : File)
      → AtEnd f
      → Reopened (advance (ht_bytes t) (ht_calls t) f) f.pos (ht_calls t) g
      → read_index_file (empty_table 0) g
        ≡ ok (some (reloaded κ t valid), skip (length (ht_bytes t)) (ht_calls t) g)
  unfolding empty_table
  read-write f g end (bytes, pos, calls) =
      Reads-ht κ t (empty_table 0) (nodes-kind κ t valid) fits.each valid.two
        (rw (length-replicate {A = List Node} max_ht_bucket []) valid.fits)
        (omega (arith, valid.fits)) fits.few g []
        (ap (λ (b : List ℕ). drop g.pos b) bytes
          ∙ drop-length_append f.bytes (ht_bytes t) g.pos (sym (pos ∙ end))
          ∙ sym (append-nil (ht_bytes t)))
        calls

-- A valid table of string keys that fits the widths of the file, written by `write_ht` at the end
-- of a file and read by `read_index_file` from where it was written, each time with calls enough:
-- both return 1, and the table that is read is the table that was written.
pub read_index_file-write_ht :
    (t : HashTable)
    → IsValid string t
    → Fits t
    → (f g : File) → AtEnd f
    → ht_calls t ≤ f.budget
    → Reopened (advance (ht_bytes t) (ht_calls t) f) f.pos (ht_calls t) g
    → (write_ht t f ≡ ok (some tt, advance (ht_bytes t) (ht_calls t) f))
      × (read_index_file (empty_table 0) g ≡ ok (some t, skip (length (ht_bytes t)) (ht_calls t) g))
read_index_file-write_ht t valid fits f g end calls again = (
  write_ht-Appends string t valid f end calls,
  read-write string t valid fits f g end again
      ∙ ap (λ (r : HashTable). ok (some r, skip (length (ht_bytes t)) (ht_calls t) g))
          (reloaded-string t valid),
)

-- A valid table of integer keys that fits the widths of the file, written by `write_ht` at the
-- end of a file and read by `read_index_file` from where it was written, each time with calls
-- enough: both return 1, and in the table that is read each bucket has the first node of the
-- bucket that was written, and no other.
pub read_index_file-write_ht_number :
    (t : HashTable)
    → IsValid number t
    → Fits t
    → (f g : File) → AtEnd f
    → ht_calls t ≤ f.budget
    → Reopened (advance (ht_bytes t) (ht_calls t) f) f.pos (ht_calls t) g
    → (r : HashTable) × (write_ht t f ≡ ok (some tt, advance (ht_bytes t) (ht_calls t) f))
      × (read_index_file (empty_table 0) g ≡ ok (some r, skip (length (ht_bytes t)) (ht_calls t) g))
      × (r.size ≡ t.size)
      × ((j : ℕ) → bucket r j ≡ kept number (bucket t j))
read_index_file-write_ht_number t valid fits f g end calls again = (
  reloaded number t valid,
  write_ht-Appends number t valid f end calls,
  read-write number t valid fits f g end again,
  reloaded-size number t valid,
  reloaded-bucket number t valid,
)
