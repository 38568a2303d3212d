-- ===== src/Schemas/Moved.antt =====
-- `sort_input_like_header_schema` puts each value, type and name at the place that the schema has for
-- its field.
use isam_db_c_language.Base.{
  ℕ, zero, suc, ◌+◌, ◌≤◌, ◌<◌, ◌≡◌, ◌≢◌, refl, ap, sym, ◌∙◌, arith, Bool, true, false, List, [],
  ◌∷◌, ok, length, map, get_elem?, set, replicate, length-set, length-replicate, length-map,
  get_elem?-set_self, get_elem?-set_ne, ◌==◌, Option, none, some,
}
use isam_db_c_language.HashTbl.{strncmp_eq}
use isam_db_c_language.Io.Bytes.{pad}
use isam_db_c_language.Header.{Schema, c_str}
use isam_db_c_language.Records.{max_field_nr, max_field_lt}
use isam_db_c_language.Compare.{starts_alike}
use isam_db_c_language.Schemas.{schema_eq, schema_nw, schema_ct, schema_ct_nt, no_type}
use isam_db_c_language.Schemas.Order.{
  find_place, find_places, scatter, gather, move, clean, clean_all, Input, move_input, sort_whole,
  sort_input_like_header_schema, no_names,
}

-- No place stands twice.
abbrev pub Other : ℕ → List ℕ → Type 0
Other p [] = Unit
Other p (q ∷ ps) = (p ≢ q) × Other p ps

abbrev pub Distinct : List ℕ → Type 0
Distinct [] = Unit
Distinct (p ∷ ps) = Other p ps × Distinct ps

abbrev pub Below : ℕ → List ℕ → Type 0
Below n [] = Unit
Below n (p ∷ ps) = (p < n) × Below n ps

Below-le : (m n : ℕ) (ps : List ℕ) → m ≤ n → Below m ps → Below n ps
Below-le m n [] e b = tt
Below-le m n (p ∷ ps) e b = (omega (arith, b.0, e), Below-le m n ps e b.1)

module _ {A : Type 0} where
  get_elem?_below : (xs : List A) (i : ℕ) → i < length xs → (x : A) × (get_elem? xs i ≡ some x)
  get_elem?_below [] i h = elim h [ ]
  get_elem?_below (x ∷ xs) zero h = (x, refl)
  get_elem?_below (x ∷ xs) (suc i) h = get_elem?_below xs i (omega arith)

  -- Every element comes to its place.
  abbrev pub Placed : List ℕ → List A → List A → Type 0
  Placed ps array r = (i p : ℕ) → get_elem? ps i ≡ some p → get_elem? r p ≡ get_elem? array i

  Placed-cons :
      (p : ℕ) (ps : List ℕ) (v : A) (array r : List A)
      → get_elem? r p ≡ some v
      → Placed ps array r
      → Placed (p ∷ ps) (v ∷ array) r
  Placed-cons p ps v array r here later zero q e = ap (get_elem? r) (sym (the e)) ∙ here
    where
      the : some p ≡ some q → p ≡ q
      the e = cc e
  Placed-cons p ps v array r here later (suc i) q e = later i q e

  scatter-Placed :
      (ps : List ℕ) (array temp : List A)
      → Distinct ps
      → Below (length temp) ps
      → length ps ≤ length array
      → (r : List A) × (scatter (map some ps) array temp ≡ ok r)
        × (length r ≡ length temp)
        × Placed ps array r
        × ((q : ℕ) → Other q ps → get_elem? r q ≡ get_elem? temp q)
  unfolding scatter
  scatter-Placed [] array temp d b l = (temp, refl, refl, (λ i p e. absurd (cc e)), λ q o. refl)
  scatter-Placed (p ∷ ps) [] temp d b l = absurd (omega arith)
  scatter-Placed (p ∷ ps) (v ∷ array) temp d b l =
      let (old, there) = get_elem?_below temp p b.0 in
      let (r, run, len, placed, other) =
        scatter-Placed ps array (set temp p v) d.1
          (Below-le (length temp) (length (set temp p v)) ps (omega (arith, length-set temp p v))
            b.1)
          (omega arith) in
      (
        r,
        rw there run,
        len ∙ length-set temp p v,
        Placed-cons p ps v array r (other p d.0 ∙ get_elem?-set_self temp p v b.0) placed,
        λ q o. other q o.1 ∙ get_elem?-set_ne temp v (λ e. o.0 (sym e)),
      )

  gather-first :
      (ps : List ℕ) (temp array : List A)
      → length ps ≤ length temp
      → length ps ≤ length array
      → (r : List A) × (gather (map some ps) temp array ≡ ok r)
        × ((k : ℕ) → k < length ps → get_elem? r k ≡ get_elem? temp k)
  unfolding gather
  gather-first [] temp array l l' = (array, refl, λ k h. elim h [ ])
  gather-first (p ∷ ps) [] array l l' = absurd (omega arith)
  gather-first (p ∷ ps) (t ∷ temp) [] l l' = absurd (omega arith)
  gather-first (p ∷ ps) (t ∷ temp) (v ∷ array) l l' =
      let (r, run, same) = gather-first ps temp array (omega arith) (omega arith) in
      (t ∷ r, rw run refl, first t r temp ps same)
    where
      first :
          (t : A) (r temp : List A) (ps : List ℕ)
          → ((k : ℕ) → k < length ps → get_elem? r k ≡ get_elem? temp k)
          → (k : ℕ) → k < suc (length ps)
          → get_elem? (t ∷ r) k ≡ get_elem? (t ∷ temp) k
      first t r temp ps same zero h = refl
      first t r temp ps same (suc k) h = same k (omega arith)

get_elem?-Below : (n : ℕ) (ps : List ℕ) (i p : ℕ) → Below n ps → get_elem? ps i ≡ some p → p < n
get_elem?-Below n [] i p b e = absurd (cc e)
get_elem?-Below n (q ∷ ps) zero p b e = ground (arith, b.0, e)
get_elem?-Below n (q ∷ ps) (suc i) p b e = get_elem?-Below n ps i p b.1 e

-- The rows hold these C strings.
abbrev pub Written : List (List ℕ) → List (List ℕ) → Type 0
Written [] [] = Unit
Written (row ∷ rows) (s ∷ ss) = (c_str row ≡ ok s) × Written rows ss
Written _ _ = ⊥

-- The first of `n` fields whose name starts with `s` is the one at `p`, whose name is `s`.
abbrev pub First : ℕ → List (List ℕ) → List ℕ → ℕ → Type 0
First (suc n) (u ∷ texts) s zero = u ≡ s
First (suc n) (u ∷ texts) s (suc p) = (strncmp_eq (length s) s u ≡ false) × First n texts s p
First _ _ _ _ = ⊥

abbrev pub Matched : ℕ → List (List ℕ) → List ℕ → List (List ℕ) → Type 0
Matched n texts [] ss = Unit
Matched n texts (p ∷ ps) (s ∷ ss) = First n texts s p × Matched n texts ps ss
Matched n texts (p ∷ ps) [] = ⊥

strncmp_eq_self : (s : List ℕ) → strncmp_eq (length s) s s ≡ true
unfolding strncmp_eq
strncmp_eq_self [] = refl
strncmp_eq_self (c ∷ s) = ground (arith, strncmp_eq_self s)

pub starts_alike-texts :
    (a b s u : List ℕ)
    → c_str a ≡ ok s
    → c_str b ≡ ok u
    → starts_alike a a b ≡ ok (strncmp_eq (length s) s u)
unfolding starts_alike
starts_alike-texts a b s u e f = rw e (rw f refl)

find_place-First :
    (name s : List ℕ) (n j p : ℕ) (rows texts : List (List ℕ))
    → c_str name ≡ ok s
    → Written rows texts
    → First n texts s p
    → find_place (starts_alike name name) n j rows ≡ ok (some (j + p))
unfolding find_place
find_place-First name s zero j p rows texts e w f = elim f [ ]
find_place-First name s (suc n) j p [] [] e w f = elim f [ ]
find_place-First name s (suc n) j p [] (u ∷ texts) e w f = elim w [ ]
find_place-First name s (suc n) j p (row ∷ rows) [] e w f = elim w [ ]
find_place-First name s (suc n) j zero (row ∷ rows) (u ∷ texts) e w f =
    let here : j ≡ j + 0 = omega arith in
    let same : strncmp_eq (length s) s u ≡ true = rw f (strncmp_eq_self s) in
    rw (starts_alike-texts name row s u e w.0) (rw same (ap (λ (k : ℕ). ok (some k)) here))
find_place-First name s (suc n) j (suc p) (row ∷ rows) (u ∷ texts) e w f =
    let further : suc j + p ≡ j + suc p = omega arith in
    rw (starts_alike-texts name row s u e w.0) (
      rw f.0 (
        find_place-First name s n (suc j) p rows texts e w.1 f.1
        ∙ ap (λ (k : ℕ). ok (some k)) further))

find_places-Matched :
    (strict : Bool) (sch : Schema) (texts : List (List ℕ)) (ps : List ℕ) (names ss : List (List ℕ))
    → Written sch.fields_name texts
    → Written names ss
    → Matched sch.fields_num texts ps ss
    → find_places strict sch (length ps) names ≡ ok (some (map some ps))
unfolding find_places
find_places-Matched strict sch texts [] names ss w v m = refl
find_places-Matched strict sch texts (p ∷ ps) [] [] w v m = elim m [ ]
find_places-Matched strict sch texts (p ∷ ps) [] (s ∷ ss) w v m = elim v [ ]
find_places-Matched strict sch texts (p ∷ ps) (name ∷ names) [] w v m = elim v [ ]
find_places-Matched strict sch texts (p ∷ ps) (name ∷ names) (s ∷ ss) w v m =
    let place = find_place-First name s sch.fields_num 0 p sch.fields_name texts v.0 w m.0 in
    let zero_p : 0 + p ≡ p = omega arith in
    rw place (rw (find_places-Matched strict sch texts ps names ss w v.1 m.1) (rw zero_p refl))

clean_all-Written :
    (names ss : List (List ℕ)) → Written names ss → clean_all names ≡ ok (map (pad max_field_lt) ss)
unfolding clean_all clean
clean_all-Written [] [] w = refl
clean_all-Written [] (s ∷ ss) w = elim w [ ]
clean_all-Written (name ∷ names) [] w = elim w [ ]
clean_all-Written (name ∷ names) (s ∷ ss) w = rw w.0 (rw (clean_all-Written names ss w.1) refl)

module _ {A : Type 0} where
  -- Both loops, with room in the temporary array.
  move-Placed :
      (ps : List ℕ) (array temp old : List A)
      → Distinct ps
      → Below (length ps) ps
      → length ps ≤ length array
      → length ps ≤ length temp
      → length ps ≤ length old
      → (r : List A) × (move (map some ps) array temp old ≡ ok r) × Placed ps array r
  unfolding move
  move-Placed ps array temp old d b l m o =
      let (t, run, len, placed, other) =
        scatter-Placed ps array temp d (Below-le (length ps) (length temp) ps m b) l in
      let room : length ps ≤ length t = omega (arith, len, m) in
      let (r, ran, same) = gather-first ps t old room o in
      (r, rw run ran, λ i p e. same p (get_elem?-Below (length ps) ps i p b e) ∙ placed i p e)

length-no_names : length no_names ≡ max_field_nr
unfolding no_names
length-no_names = length-replicate {A = List ℕ} max_field_nr (replicate max_field_lt 0)

-- For an input of as many fields as the schema has.
module _ {V : Type 0} (kind : ℕ) (sch : Schema) (x : Input V) (texts ss : List (List ℕ))
    (ps : List ℕ) where
  move_input-runs :
      (qs : List (Option ℕ)) (n : ℕ) (values : List (Option V)) (cleaned names : List (List ℕ))
      (types : List ℕ)
      → move qs x.values (replicate n none) x.values ≡ ok values
      → clean_all x.names ≡ ok cleaned
      → move qs cleaned no_names no_names ≡ ok names
      → move qs x.types (replicate max_field_nr no_type) x.types ≡ ok types
      → move_input n qs x ≡ ok (record { names = names; values = values; types = types })
  unfolding move_input
  move_input-runs qs n values cleaned names types e f g h = rw e (rw f (rw g (rw h refl)))

  sort_input_like_header_schema-runs :
      (qs : List (Option ℕ)) (y : Input V)
      → (kind == schema_ct) ≡ false
      → (kind == schema_ct_nt) ≡ false
      → (kind == schema_nw) ≡ false
      → find_places (kind == schema_eq) sch (length ps) x.names ≡ ok (some qs)
      → move_input (length ps) qs x ≡ ok y
      → sort_input_like_header_schema kind (length ps) sch x ≡ ok (some y)
  unfolding sort_input_like_header_schema sort_whole
  sort_input_like_header_schema-runs qs y ct ct_nt other e f =
      rw (ct, ct_nt, other) (rw e (rw f refl))

  -- An input that is not of the kind SCHEMA_NW, SCHEMA_CT or SCHEMA_CT_NT, with names that are
  -- all different fields of the schema, each the first one that the name is a prefix of, at
  -- places below their number: the sorting succeeds, and each value, type and name stands at the
  -- place of its field.
  pub sort_input_like_header_schema-Placed :
      (kind == schema_ct) ≡ false
      → (kind == schema_ct_nt) ≡ false
      → (kind == schema_nw) ≡ false
      → length ps ≤ max_field_nr
      → length ps ≤ length x.values
      → length ps ≤ length x.types
      → length ps ≤ length ss
      → Distinct ps
      → Below (length ps) ps
      → Written sch.fields_name texts
      → Written x.names ss
      → Matched sch.fields_num texts ps ss
      → (y : Input V) × (sort_input_like_header_schema kind (length ps) sch x ≡ ok (some y))
        × Placed ps x.values y.values
        × Placed ps x.types y.types
        × Placed ps (map (pad max_field_lt) ss) y.names
  sort_input_like_header_schema-Placed ct ct_nt other many values types names d b w v m =
      let (values', run, placed) =
        move-Placed ps x.values (replicate (length ps) none) x.values d b values
          (omega (arith, length-replicate {A = Option V} (length ps) none)) values in
      let (names', run', placed') =
        move-Placed ps (map (pad max_field_lt) ss) no_names no_names d b
          (omega (arith, names, length-map ss (pad max_field_lt))) (omega (arith, length-no_names))
          (omega (arith, length-no_names)) in
      let (types', run'', placed'') =
        move-Placed ps x.types (replicate max_field_nr no_type) x.types d b types
          (omega (arith, length-replicate max_field_nr no_type)) types in
      let y : Input V = record { names = names'; values = values'; types = types' } in
      (
        y,
        sort_input_like_header_schema-runs (map some ps) y ct ct_nt other
            (find_places-Matched (kind == schema_eq) sch texts ps x.names ss w v m)
            (move_input-runs (map some ps) (length ps) values' (map (pad max_field_lt) ss) names'
              types' run (clean_all-Written x.names ss v) run' run''),
        placed,
        placed'',
        placed',
      )
