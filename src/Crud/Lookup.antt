-- ===== src/Crud/Lookup.antt =====
-- `get_record` on a valid index: the linked parts of a record, or the error return.
use mathlib.Core.Path.{subst}
use isam_db_c_language.Base.{
  ltb, ℕ, zero, suc, ◌+◌, ◌-◌, ◌*◌, ◌^◌, ◌<◌, ◌≤◌, ◌≡◌, refl, ap, sym, ◌∙◌, arith, ◌==◌,
  if◌then◌else◌, true, false, List, [], ◌∷◌, ◌++◌, Outcome, ok, Option, none, some, length, drop,
}
use isam_db_c_language.Base as Base
use isam_db_c_language.HashTbl.{Key, HashTable}
use isam_db_c_language.HashTbl.Keys.{Kind, IsKey}
use isam_db_c_language.HashTbl.Model.{view, IsValid}
use isam_db_c_language.HashTbl.Laws.{get-view}
use isam_db_c_language.IndexFile.{read_index_nr, find_record_position}
use isam_db_c_language.Io.{File, Io, ◌>>=◌, ◌>>◌, pure, fail, seek}
use isam_db_c_language.Io.Calls.{seek-ok, moved}
use isam_db_c_language.Io.Wire.{bind-ok, skip}
use isam_db_c_language.Header.{Schema}
use isam_db_c_language.Records.{Field, RecordF}
use isam_db_c_language.Records.Arrays.{positive}
use isam_db_c_language.Records.Places.{at}
use isam_db_c_language.Records.RecordLayout.{IsRecord, record_bytes}
use isam_db_c_language.Records.RoundTrip.{Fits, record_read_calls, read_back, Reads-all}
use isam_db_c_language.Records.Store.{read_part}
use isam_db_c_language.Crud.{
  table_key, get_rec_position, read_parts, read_record, read_found, get_record,
}

-- A record at `p` whose parts are `recs`, as they are read: the last part has the offset 0, each
-- other one the offset of the next. To read them takes `n` calls.
pub data Linked (bytes : List ℕ) (sch : Schema) : ℕ → List RecordF → ℕ → Type 0 where
  last :
      {p n : ℕ} {recs : List RecordF} (rec : RecordF) (news : List Field) (s : List ℕ)
      → IsRecord rec
      → Fits rec sch news
      → drop p bytes ≡ record_bytes rec 0 ++ s
      → recs ≡ read_back rec news ∷ []
      → n ≡ record_read_calls rec + 1
      → Linked bytes sch p recs n
  next :
      {p n : ℕ} {recs : List RecordF} (rec : RecordF) (news : List Field) (s : List ℕ) (q : ℕ)
      (rest : List RecordF) (m : ℕ)
      → IsRecord rec
      → Fits rec sch news
      → drop p bytes ≡ record_bytes rec q ++ s
      → 0 < q
      → 2 * q < 256 ^ 8
      → Linked bytes sch q rest m
      → recs ≡ read_back rec news ∷ rest
      → n ≡ record_read_calls rec + 1 + (1 + m)
      → Linked bytes sch p recs n

is_positive : (q : ℕ) → 0 < q → 2 * q < 256 ^ 8 → positive 8 q ≡ true
unfolding positive
is_positive q h k = ground arith

-- The run succeeds with the value and leaves the contents.
abbrev pub Yields : Outcome (Option (List RecordF) × File) → List RecordF → List ℕ → Type 0
Yields run recs bytes = (g : File) × (run ≡ ok (some recs, g)) × (g.bytes ≡ bytes)

-- What `read_parts` does after a part.
abbrev follow : ℕ → Schema → RecordF × ℕ → Io (List RecordF)
follow k sch x = elim (positive 8 (x.1)) [
  | true ↦ seek (x.1) >> read_parts k sch >>= λ rest. pure ((x.0) ∷ rest)
  | false ↦ if (x.1) == 256 ^ 8 - 1 then fail else pure ((x.0) ∷ [])
]

follow-last :
    (k : ℕ) (sch : Schema) (r : RecordF) (f : File) → follow k sch (r, 0) f ≡ ok (some (r ∷ []), f)
unfolding positive
follow-last k sch r f = refl

read_parts-Linked :
    (bytes : List ℕ) (sch : Schema) (p : ℕ) (recs : List RecordF) (n : ℕ)
    → Linked bytes sch p recs n
    → (k b : ℕ) → n ≤ k
    → n ≤ b
    → Yields (read_parts (suc k) sch (at bytes p b)) recs bytes
unfolding read_parts
read_parts-Linked bytes sch p recs n (last rec news s is fits there list calls) k b h h' =
    let here = read_back rec news in
    let g = skip (length (record_bytes rec 0)) (record_read_calls rec + 1) (at bytes p b) in
    (
      g,
      bind-ok (read_part sch) (follow k sch) (at bytes p b) g (here, 0)
            (Reads-all rec is sch news fits 0 (omega arith) (at bytes p b) s there
              (omega (arith, calls)))
          ∙ follow-last k sch here g
          ∙ ap (λ (r : List RecordF). ok (some r, g)) (sym list),
      refl,
    )
read_parts-Linked bytes sch p recs n
      (next rec news s q rest m is fits there pos low more list calls) zero b h h' =
    absurd (omega (arith, calls))
read_parts-Linked bytes sch p recs n
      (next rec news s q rest m is fits there pos low more list calls) (suc k) b h h' =
    let here = read_back rec news in
    let used = record_read_calls rec + 1 in
    let f = skip (length (record_bytes rec q)) used (at bytes p b) in
    let later =
      read_parts-Linked bytes sch q rest m more k (b - used - 1) (omega (arith, calls))
        (omega (arith, calls)) in
    (
      later.0,
      bind-ok (read_part sch) (follow (suc k) sch) (at bytes p b) f (here, q)
            (Reads-all rec is sch news fits q (omega (arith, low)) (at bytes p b) s there
              (omega (arith, calls)))
          ∙ rw (follow, is_positive q pos low)
              (bind-ok (seek q >> read_parts (suc k) sch) (λ r. pure (here ∷ r)) f later.0 rest
                (bind-ok (seek q) (λ _. read_parts (suc k) sch) f (moved q f) tt
                    (seek-ok f (omega (arith, calls)) q)
                  ∙ later.1))
          ∙ ap (λ (r : List RecordF). ok (some r, later.0)) (sym list),
      later.2,
    )

module _ (bytes : List ℕ) (sch : Schema) (p : ℕ) (recs : List RecordF) (n : ℕ)
    (linked : Linked bytes sch p recs n) where
  read_record-Linked :
      (q b : ℕ)
      → 2 * p < 256 ^ 8
      → n ≤ b
      → Yields (read_record sch p (at bytes q (suc b))) recs bytes
  unfolding read_record find_record_position seek
  read_record-Linked q b low h =
      let is : ltb (2 * p) (256 ^ 8) ≡ true = ground arith in
      rw is (read_parts-Linked bytes sch p recs n linked b b h h)

get_rec_position-view :
    (κ : Kind) (t : HashTable) (k : Key) (key : List ℕ)
    → IsValid κ t
    → IsKey κ k
    → table_key key ≡ some k
    → get_rec_position t key ≡ ok (view t k)
unfolding get_rec_position
get_rec_position-view κ t k key valid good means =
    rw (get_rec_position, means) (get-view κ t valid k good)

-- Up to the offset that the index gives.
get_record-read_found :
    (t : HashTable) (key : List ℕ) (sch : Schema) (index index' file : File) (o : Option ℕ)
    → read_index_nr 0 index ≡ ok (some t, index')
    → get_rec_position t key ≡ ok o
    → get_record key sch index file ≡ read_found sch index' file o
unfolding get_record
get_record-read_found t key sch index index' file o loaded there =
    ap
      (λ (r : Outcome (Option HashTable × File)).
        Base.◌>>=◌ {B = Option (List RecordF) × File × File} r λ x. elim x.0 [
          | none ↦ ok (none, x.1, file)
          | some t ↦ Base.◌>>=◌ (get_rec_position t key) (read_found sch x.1 file)
        ])
      loaded
    ∙ ap
        (λ (r : Outcome (Option ℕ)).
          Base.◌>>=◌ {B = Option (List RecordF) × File × File} r (read_found sch index' file))
        there

-- Where the first index of the index file is read as a valid table, a key of its kind has an
-- offset below 2^63 in it, and at that offset of the data file stands a record, as one part or as
-- parts linked by their offsets, with calls enough: `get_record` returns the parts in their
-- order, each as `read_file` reads it, and leaves the contents of the data file.
pub get_record-Linked :
    (κ : Kind) (t : HashTable) (k : Key) (key : List ℕ) (sch : Schema) (index index' file : File)
    (p : ℕ) (recs : List RecordF) (n : ℕ)
    → IsValid κ t
    → IsKey κ k
    → table_key key ≡ some k
    → read_index_nr 0 index ≡ ok (some t, index')
    → view t k ≡ some p
    → 2 * p < 256 ^ 8
    → Linked file.bytes sch p recs n
    → 1 + n ≤ file.budget
    → (file' : File) × (get_record key sch index file ≡ ok (some recs, index', file'))
      × (file'.bytes ≡ file.bytes)
unfolding read_found
get_record-Linked κ t k key sch index index' file p recs n valid good means loaded there low linked
      calls =
    let b : file.budget ≡ suc (file.budget - 1) = omega arith in
    let run : Yields (read_record sch p file) recs file.bytes =
      subst (λ (m : ℕ). Yields (read_record sch p (at file.bytes file.pos m)) recs file.bytes)
        (sym b)
        (read_record-Linked file.bytes sch p recs n linked file.pos (file.budget - 1) low
          (omega arith)) in
    (
      run.0,
      get_record-read_found t key sch index index' file (some p) loaded
            (get_rec_position-view κ t k key valid good means ∙ ap ok there)
          ∙ ap
              (λ (r : Outcome (Option (List RecordF) × File)).
                Base.◌>>=◌ {B = Option (List RecordF) × File × File} r λ x. ok (x.0, index', x.1))
              run.1,
      run.2,
    )
