-- ===== src/Schemas/Order.antt =====
-- `sort_input_like_header_schema` of src/parse.c: the input's names, types and values in the order of
-- the schema. The three assignments of a round of its loops stand apart, one function over the array
-- that they change; `value_pos` has `none` for -1.
use mathlib.Core.Option
use isam_db_c_language.Base.{
  ℕ, zero, suc, Bool, List, [], ◌∷◌, ok, undefined, Outcome, ◌>>=◌, deref, if◌then◌else◌, ◌==◌,
  get_elem?, set, replicate, ◌&&◌, ◌||◌, take, length, Option, none, some,
}
use isam_db_c_language.HashTbl.{strncmp_eq}
use isam_db_c_language.Io.Bytes.{pad}
use isam_db_c_language.Header.{Schema, c_str}
use isam_db_c_language.Records.{max_field_nr, max_field_lt}
use isam_db_c_language.Compare.{starts_alike}
use isam_db_c_language.Schemas.{schema_eq, schema_nw, schema_ct, schema_ct_nt, no_type}

-- The inner loop: the first name in the schema that passes the test.
unfoldable pub find_place : (List ℕ → Outcome Bool) → ℕ → ℕ → List (List ℕ) → Outcome (Option ℕ)
find_place test zero j rows = ok none
find_place test (suc n) j [] = undefined
find_place test (suc n) j (row ∷ rows) =
    let rest = find_place test n (suc j) rows in
    test row >>= λ same. if same then ok (some j) else rest

-- The places of the names; the second `none` is the return for a wrong name, where that is wanted.
unfoldable pub find_places : Bool → Schema → ℕ → List (List ℕ) → Outcome (Option (List (Option ℕ)))
unfolding find_place starts_alike
find_places strict sch zero names = ok (some [])
find_places strict sch (suc n) [] = undefined
find_places strict sch (suc n) (name ∷ names) =
    let rest = find_places strict sch n names in
    find_place (starts_alike name name) sch.fields_num 0 sch.fields_name >>= λ place. elim place [
      | none ↦ if strict then ok none else (rest >>= λ ps. ok (Option.map (◌∷◌ none) ps))
      | some j ↦ rest >>= λ ps. ok (Option.map (◌∷◌ (some j)) ps)
    ]

-- The test of SCHEMA_CT: names of one length.
unfoldable pub same_length : List ℕ → List ℕ → Outcome Bool
unfolding c_str strncmp_eq
same_length name row =
    c_str name >>= λ s. c_str row >>= λ t. ok ((length s == length t) && strncmp_eq (length s) s t)

-- The first loops of SCHEMA_CT: the place of a field that the input names gets its own number.
unfoldable pub mark_places :
    Schema → ℕ → List (List ℕ) → List (Option ℕ) → Outcome (List (Option ℕ))
unfolding find_place same_length
mark_places sch zero names marks = ok marks
mark_places sch (suc n) [] marks = undefined
mark_places sch (suc n) (name ∷ names) marks =
    find_place (same_length name) sch.fields_num 0 sch.fields_name >>= λ place.
    mark_places sch n names (elim place [ none ↦ marks | some j ↦ set marks j (some j) ])

module _ {A : Type 0} where
  -- `temp[value_pos[i]] = array[i]`
  unfoldable pub scatter : List (Option ℕ) → List A → List A → Outcome (List A)
  scatter [] array temp = ok temp
  scatter (none ∷ ps) [] temp = scatter ps [] temp
  scatter (none ∷ ps) (v ∷ array) temp = scatter ps array temp
  scatter (some j ∷ ps) [] temp = undefined
  scatter (some j ∷ ps) (v ∷ array) temp =
      deref (get_elem? temp j) >>= λ old. scatter ps array (set temp j v)

  -- `array[i] = temp[i]`, and what stands there where `value_pos[i]` is -1.
  unfoldable pub gather : List (Option ℕ) → List A → List A → Outcome (List A)
  gather [] temp array = ok array
  gather (p ∷ ps) (t ∷ temp) (v ∷ array) =
      gather ps temp array >>= λ r. ok (elim p [ none ↦ v | some j ↦ t ] ∷ r)
  gather (p ∷ ps) _ _ = undefined

  -- Both loops; `old` is what the array holds before the second.
  unfoldable pub move : List (Option ℕ) → List A → List A → List A → Outcome (List A)
  unfolding scatter gather
  move ps array temp old = scatter ps array temp >>= λ t. gather ps t old

-- `strncpy` of a name into a row of zeros, and back.
unfoldable pub clean : List ℕ → Outcome (List ℕ)
unfolding c_str pad
clean name = c_str name >>= λ s. ok (pad max_field_lt s)

unfoldable pub clean_all : List (List ℕ) → Outcome (List (List ℕ))
unfolding clean
clean_all [] = ok []
clean_all (name ∷ names) =
    let rest = clean_all names in clean name >>= λ r. rest >>= λ rs. ok (r ∷ rs)

unfoldable pub no_names : List (List ℕ)
no_names = replicate max_field_nr (replicate max_field_lt 0)

-- Names, values and types of the input.
pub record Input (V : Type 0) : Type 0 where
  pub names : List (List ℕ)
  pub values : List (Option V)
  pub types : List ℕ

module _ {V : Type 0} where
  -- The moves, with `temp_val` of `n` NULL pointers. `names` is set to 0 in between.
  unfoldable pub move_input : ℕ → List (Option ℕ) → Input V → Outcome (Input V)
  unfolding move clean_all no_names
  move_input n ps x = move ps x.values (replicate n none) x.values >>= λ values.
      clean_all x.names >>= λ cleaned. move ps cleaned no_names no_names >>= λ names.
      move ps x.types (replicate max_field_nr no_type) x.types >>= λ types.
      ok (record { names = names; values = values; types = types })

  -- Which marked places have a value that is not NULL. What `realloc` added to the values is not set,
  -- and is not to be read.
  unfoldable pub kept : List (Option ℕ) → List (Option V) → Outcome (List (Option ℕ))
  kept [] values = ok []
  kept (none ∷ ms) [] = kept ms [] >>= λ ps. ok (none ∷ ps)
  kept (none ∷ ms) (v ∷ values) = kept ms values >>= λ ps. ok (none ∷ ps)
  kept (some j ∷ ms) [] = undefined
  kept (some j ∷ ms) (none ∷ values) = kept ms values >>= λ ps. ok (none ∷ ps)
  kept (some j ∷ ms) (some v ∷ values) = kept ms values >>= λ ps. ok (some j ∷ ps)

  -- The branch for SCHEMA_CT and SCHEMA_CT_NT.
  unfoldable pub sort_present : ℕ → Schema → Input V → Outcome (Option (Input V))
  unfolding mark_places kept move clean_all no_names
  sort_present fields_num sch x =
      let values = take sch.fields_num x.values in
      mark_places sch fields_num x.names (replicate sch.fields_num none) >>= λ marks.
      kept marks values >>= λ ps.
      move (take (length values) ps) values (replicate sch.fields_num none) values >>= λ moved.
      clean_all x.names >>= λ cleaned. move ps cleaned no_names no_names >>= λ names.
      move ps x.types (replicate max_field_nr no_type) x.types >>= λ types.
      ok (some (record { names = names; values = moved; types = types }))

  -- What the function does with all other kinds; `none` is the result 0.
  unfoldable pub sort_whole : ℕ → ℕ → Schema → Input V → Outcome (Option (Input V))
  unfolding find_places move_input
  sort_whole kind fields_num sch x =
      find_places (kind == schema_eq) sch (if kind == schema_nw then sch.fields_num else fields_num)
        x.names
      >>= λ found. elim found [
        | none ↦ ok none
        | some ps ↦ move_input fields_num ps x >>= λ y. ok (some y)
      ]

  unfoldable pub sort_input_like_header_schema :
      ℕ → ℕ → Schema → Input V → Outcome (Option (Input V))
  unfolding sort_present sort_whole
  sort_input_like_header_schema schema_tp fields_num sch x =
      if (schema_tp == schema_ct) || (schema_tp == schema_ct_nt)
      then sort_present fields_num sch x
      else sort_whole schema_tp fields_num sch x
