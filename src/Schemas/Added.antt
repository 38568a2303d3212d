-- ===== src/Schemas/Added.antt =====
-- `schema_nw_assyign_type` adds the names that the schema lacks, and its result is 0 always.
use isam_db_c_language.Base.{
  ℕ, zero, suc, ◌+◌, ◌≤◌, ◌<◌, ◌≡◌, refl, ap, ◌∙◌, arith, Bool, true, false, List, [], ◌∷◌, ◌++◌,
  ok, length, drop, get_elem?, set, replicate, All, length-set, ltb, get_elem?-set_self,
  get_elem?-set_ne, if◌then◌else◌, some, Bool-cases, inl, inr,
}
use isam_db_c_language.HashTbl.{strncmp_eq}
use isam_db_c_language.Header.{Schema, c_str}
use isam_db_c_language.Header.Encode.{IsText}
use isam_db_c_language.Header.Load.{c_str-text}
use isam_db_c_language.Records.{max_field_lt}
use isam_db_c_language.Schemas.{
  copy_name, is_in_schema, put_new, add_field, add_new, schema_nw_assyign_type,
}
use isam_db_c_language.Schemas.Moved.{Written, starts_alike-texts}

-- The first `n` rows hold the first texts.
abbrev pub HoldsFirst : ℕ → List (List ℕ) → List (List ℕ) → Type 0
HoldsFirst zero rows texts = Unit
HoldsFirst (suc n) (row ∷ rows) (u ∷ texts) = (c_str row ≡ ok u) × HoldsFirst n rows texts
HoldsFirst (suc n) _ _ = ⊥

-- `s` is a prefix of one of the first `n` texts.
unfoldable pub known : ℕ → List (List ℕ) → List ℕ → Bool
known zero texts s = false
known (suc n) [] s = false
known (suc n) (u ∷ texts) s = if strncmp_eq (length s) s u then true else known n texts s

is_in_schema-known :
    (n : ℕ) (name s : List ℕ) (rows texts : List (List ℕ))
    → c_str name ≡ ok s
    → HoldsFirst n rows texts
    → is_in_schema n name rows ≡ ok (known n texts s)
unfolding is_in_schema known
is_in_schema-known zero name s rows texts e h = refl
is_in_schema-known (suc n) name s [] texts e h = elim h [ ]
is_in_schema-known (suc n) name s (row ∷ rows) [] e h = elim h [ ]
is_in_schema-known (suc n) name s (row ∷ rows) (u ∷ texts) e h =
    rw (starts_alike-texts name row s u e h.0)
      (ground (arith, is_in_schema-known n name s rows texts e h.1))

HoldsFirst-set :
    (n i : ℕ) (row : List ℕ) (rows texts : List (List ℕ))
    → n ≤ i
    → HoldsFirst n rows texts
    → HoldsFirst n (set rows i row) texts
HoldsFirst-set zero i row rows texts l h = tt
HoldsFirst-set (suc n) i row [] texts l h = elim h [ ]
HoldsFirst-set (suc n) i row (r ∷ rows) [] l h = elim h [ ]
HoldsFirst-set (suc n) zero row (r ∷ rows) (u ∷ texts) l h = absurd (omega arith)
HoldsFirst-set (suc n) (suc i) row (r ∷ rows) (u ∷ texts) l h =
    (h.0, HoldsFirst-set n i row rows texts (omega arith) h.1)

abbrev pub IsName : List ℕ → Type 0
IsName s = IsText s × (length s < max_field_lt)

-- The names that are not known, each with its type.
unfoldable pub new_fields : ℕ → List (List ℕ) → List (List ℕ) → List ℕ → List (List ℕ × ℕ)
unfolding known
new_fields n texts (s ∷ ss) (t ∷ types) =
    let rest = new_fields n texts ss types in if known n texts s then rest else (s, t) ∷ rest
new_fields n texts _ _ = []

-- They stand in the schema from place `i` on.
abbrev pub Added : ℕ → List (List ℕ × ℕ) → Schema → Type 0
Added i [] sch = Unit
Added i ((s, t) ∷ fields) sch =
    ((row : List ℕ) × (get_elem? sch.fields_name i ≡ some row) × (c_str row ≡ ok s))
    × (get_elem? sch.types i ≡ some t)
    × Added (suc i) fields sch

-- The first `n` fields are the same.
abbrev pub Kept : ℕ → Schema → Schema → Type 0
Kept n sch sch' =
    (i : ℕ)
    → i < n
    → (get_elem? sch'.fields_name i ≡ get_elem? sch.fields_name i)
      × (get_elem? sch'.types i ≡ get_elem? sch.types i)

-- The rows from `i` on are 0.
abbrev pub Spare : ℕ → Schema → Type 0
Spare i sch =
    (j : ℕ)
    → i ≤ j
    → j < length sch.fields_name
    → get_elem? sch.fields_name j ≡ some (replicate max_field_lt 0)

drop-zeros : (n m : ℕ) → n < m → (zs : List ℕ) × (drop n (replicate m 0) ≡ 0 ∷ zs)
drop-zeros n zero h = absurd (omega arith)
drop-zeros zero (suc m) h = (replicate m 0, refl)
drop-zeros (suc n) (suc m) h = drop-zeros n m (omega arith)

c_str-copied :
    (s : List ℕ) (m : ℕ)
    → IsText s
    → length s < m
    → c_str (s ++ drop (length s) (replicate m 0)) ≡ ok s
c_str-copied s m t h = let (zs, e) = drop-zeros (length s) m h in rw e (c_str-text s zs t)

put_new-zeros :
    (sch : Schema) (i : ℕ) (name s row : List ℕ) (t old : ℕ)
    → c_str name ≡ ok s
    → get_elem? sch.fields_name i ≡ some row
    → get_elem? sch.types i ≡ some old
    → put_new sch i name t
      ≡ ok (record sch {
        fields_name = set sch.fields_name i (s ++ drop (length s) row);
        types = set sch.types i t;
      })
unfolding put_new copy_name
put_new-zeros sch i name s row t old e f g = rw f (rw e (rw g refl))

below : {A : Type 0} (xs : List A) (i : ℕ) → i < length xs → (x : A) × (get_elem? xs i ≡ some x)
below [] i h = elim h [ ]
below (x ∷ xs) zero h = (x, refl)
below (x ∷ xs) (suc i) h = below xs i (omega arith)

-- The schema after the loop, from place `i` on.
record Extends (i : ℕ) (fields : List (List ℕ × ℕ)) (sch sch' : Schema) : Type 0 where
  added : Added i fields sch'
  kept : Kept i sch sch'
  number : sch'.fields_num ≡ sch.fields_num

Extends-cons :
    (i t : ℕ) (s row : List ℕ) (fields : List (List ℕ × ℕ)) (sch sch' : Schema)
    → i < length sch.fields_name
    → i < length sch.types
    → c_str row ≡ ok s
    → Extends
        (suc i)
        fields
        (record sch { fields_name = set sch.fields_name i row; types = set sch.types i t })
        sch'
    → Extends i ((s, t) ∷ fields) sch sch'
Extends-cons i t s row fields sch sch' l l' e x = record {
  added = (
    (row, (x.kept i (omega arith)).0 ∙ get_elem?-set_self sch.fields_name i row l, e),
    (x.kept i (omega arith)).1 ∙ get_elem?-set_self sch.types i t l',
    x.added,
  );
  kept = λ j h. (
    (x.kept j (omega arith)).0
        ∙ get_elem?-set_ne sch.fields_name row (λ same. absurd (omega (arith, same, h))),
    (x.kept j (omega arith)).1
        ∙ get_elem?-set_ne sch.types t (λ same. absurd (omega (arith, same, h))),
  );
  number = x.number;
}

add_new-known :
    (old i n t : ℕ) (name : List ℕ) (names : List (List ℕ)) (types : List ℕ) (sch : Schema)
    → is_in_schema old name sch.fields_name ≡ ok true
    → add_new old (suc n) (name ∷ names) (t ∷ types) i sch ≡ add_new old n names types i sch
unfolding add_new add_field
add_new-known old i n t name names types sch e = rw e refl

add_new-new :
    (old i n t : ℕ) (name : List ℕ) (names : List (List ℕ)) (types : List ℕ) (sch next : Schema)
    → is_in_schema old name sch.fields_name ≡ ok false
    → put_new sch i name t ≡ ok next
    → add_new old (suc n) (name ∷ names) (t ∷ types) i sch ≡ add_new old n names types (suc i) next
unfolding add_new add_field
add_new-new old i n t name names types sch next e f =
    let one : i + 1 ≡ suc i = omega arith in
    rw e (rw f (ap (λ (k : ℕ). add_new old n names types k next) one))

Spare-set :
    (i t : ℕ) (row : List ℕ) (sch : Schema)
    → Spare i sch
    → Spare
        (suc i)
        (record sch { fields_name = set sch.fields_name i row; types = set sch.types i t })
Spare-set i t row sch spare j le h =
    get_elem?-set_ne sch.fields_name row (λ same. absurd (omega (arith, same, le)))
    ∙ spare j (omega arith) (omega (arith, h, length-set sch.fields_name i row))

add_new-Extends :
    (old i : ℕ) (texts names ss : List (List ℕ)) (types : List ℕ) (sch : Schema)
    → old ≤ i
    → HoldsFirst old sch.fields_name texts
    → Written names ss
    → All IsName ss
    → length ss ≤ length types
    → i + length ss ≤ length sch.fields_name
    → i + length ss ≤ length sch.types
    → Spare i sch
    → (sch' : Schema) × (add_new old (length ss) names types i sch
        ≡ ok (sch', i + length (new_fields old texts ss types)))
      × Extends i (new_fields old texts ss types) sch sch'
unfolding add_new new_fields
add_new-Extends old i texts [] [] types sch le h w a l r r' spare = (
  sch,
  (λ j. ok (sch, (let e : i ≡ i + 0 = omega arith in e) j)),
  record { added = tt; kept = λ j h. (refl, refl); number = refl },
)
add_new-Extends old i texts [] (s ∷ ss) types sch le h w a l r r' spare = elim w [ ]
add_new-Extends old i texts (name ∷ names) [] types sch le h w a l r r' spare = elim w [ ]
add_new-Extends old i texts (name ∷ names) (s ∷ ss) [] sch le h w a l r r' spare =
    absurd (omega (arith, l))
add_new-Extends old i texts (name ∷ names) (s ∷ ss) (t ∷ types) sch le h w a l r r' spare =
    let found = is_in_schema-known old name s sch.fields_name texts w.0 h in
    elim (Bool-cases (known old texts s)) [
      | inl there ↦
          let (sch', run, x) =
            add_new-Extends old i texts names ss types sch le h w.1 a.1 (omega arith) (omega arith)
              (omega arith) spare in
          (
            sch',
            add_new-known old i (length ss) t name names types sch (found ∙ ap ok there)
                ∙ rw there run,
            rw there x,
          )
      | inr new ↦
          let (t', type) = below sch.types i (omega arith) in
          let row = s ++ drop (length s) (replicate max_field_lt 0) in
          let next : Schema = record sch {
            fields_name = set sch.fields_name i row;
            types = set sch.types i t;
          } in
          let put =
            put_new-zeros sch i name s (replicate max_field_lt 0) t t' w.0
              (spare i (omega arith) (omega arith)) type in
          let (sch', run, x) =
            add_new-Extends old (suc i) texts names ss types next (omega arith)
              (HoldsFirst-set old i row sch.fields_name texts le h) w.1 a.1 (omega arith)
              (omega (arith, r, length-set sch.fields_name i row))
              (omega (arith, r', length-set sch.types i t)) (Spare-set i t row sch spare) in
          let more : suc i + length (new_fields old texts ss types)
              ≡ i + suc (length (new_fields old texts ss types)) =
            omega arith in
          (
            sch',
            add_new-new old i (length ss) t name names types sch next (found ∙ ap ok new) put
                ∙ run
                ∙ rw new (λ j. ok (sch', more j)),
            rw new (
                Extends-cons i t s row (new_fields old texts ss types) sch sch' (omega arith)
                  (omega arith) (c_str-copied s max_field_lt a.0.0 a.0.1) x),
          )
    ]

Added-number :
    (n i : ℕ) (fields : List (List ℕ × ℕ)) (sch : Schema)
    → Added i fields sch
    → Added i fields (record sch { fields_num = n })
Added-number n i [] sch a = tt
Added-number n i ((s, t) ∷ fields) sch a = (a.0, a.1, Added-number n (suc i) fields sch a.2)

-- Names of less than 32 bytes, with room in the schema, whose rows for new fields are 0:
-- `schema_nw_assyign_type` leaves the old fields, adds at the end, in order and with their types,
-- the names that are a prefix of no old name, counts them, and returns 0.
pub schema_nw_assyign_type-Added :
    (sch : Schema) (texts names ss : List (List ℕ)) (types : List ℕ)
    → HoldsFirst sch.fields_num sch.fields_name texts
    → Written names ss
    → All IsName ss
    → length ss ≤ length types
    → sch.fields_num + length ss ≤ length sch.fields_name
    → sch.fields_num + length ss ≤ length sch.types
    → Spare sch.fields_num sch
    → (sch' : Schema) × (schema_nw_assyign_type sch names types (length ss) ≡ ok (sch', false))
      × (sch'.fields_num ≡ sch.fields_num + length (new_fields sch.fields_num texts ss types))
      × Kept sch.fields_num sch sch'
      × Added sch.fields_num (new_fields sch.fields_num texts ss types) sch'
unfolding schema_nw_assyign_type
schema_nw_assyign_type-Added sch texts names ss types h w a l r r' spare =
    let n = sch.fields_num + length (new_fields sch.fields_num texts ss types) in
    let (sch', run, x) =
      add_new-Extends sch.fields_num sch.fields_num texts names ss types sch (omega arith) h w a l r
        r' spare in
    let same : ltb n n ≡ false = ground arith in
    let with_number : Schema = record sch' { fields_num = n } in
    (
      with_number,
      rw run (ap (λ (b : Bool). ok (with_number, b)) same),
      refl,
      x.kept,
      Added-number n sch.fields_num (new_fields sch.fields_num texts ss types) sch' x.added,
    )
