-- ===== src/Tests/Files.antt =====
-- The index file and the schema file, written and read in memory.
use isam_db_c_language.Base.{
  ℕ, ◌+◌, ◌≡◌, ◌≤◌, refl, ◌∙◌, arith, none, some, List, [], ◌∷◌, ok, length, take,
}
use isam_db_c_language.HashTbl.{Key, str, uint, HashTable, empty_table, hash_uint}
use isam_db_c_language.HashTbl.Keys.{string, number, IsKey, key_eq}
use isam_db_c_language.HashTbl.Hash.{home, home_str}
use isam_db_c_language.HashTbl.Model.{
  bucket, view, update, IsValid, empty_table-IsValid, view-empty_table,
}
use isam_db_c_language.HashTbl.Laws.{Means, appended, appended-Means}
use isam_db_c_language.Io.{File, ◌>>◌}
use isam_db_c_language.Io.Bytes.{be}
use isam_db_c_language.Io.Wire.{advance, skip}
use isam_db_c_language.IndexFile.{write_ht, read_index_file, read_index_nr}
use isam_db_c_language.IndexFile.Encode.{
  flat, nodes_calls, node_calls, nodes_bytes, node_bytes, ht_bytes, ht_calls,
}
use isam_db_c_language.IndexFile.Absorb.{kept}
use isam_db_c_language.IndexFile.RoundTrip.{
  Fits, read_index_file-write_ht, read_index_file-write_ht_number,
}
use isam_db_c_language.IndexFile.Indexes.{write_index, read_all_index_file}
use isam_db_c_language.IndexFile.Layout.{bodies, bodies_calls}
use isam_db_c_language.IndexFile.ReadNr.{read_index_nr-write_index}
use isam_db_c_language.IndexFile.ReadAll.{
  table_calls, read_all_calls, read_all_index_file-write_index,
}
use isam_db_c_language.Header.{HeaderD, header_id_sys, c_str, write_header, read_header}
use isam_db_c_language.Header.Encode.{IsHeader, header_bytes, header_calls, names_calls}
use isam_db_c_language.Header.RoundTrip as RoundTrip

abbrev pub new_file : File
new_file = record { bytes = []; pos = 0; budget = 100 }

abbrev pub key_a : Key
key_a = str (97 ∷ 98 ∷ [])

pub a_IsKey : IsKey string key_a
a_IsKey = ((omega arith, omega arith), ((omega arith, omega arith), tt))

pub string_IsValid : IsValid string (empty_table 7)
string_IsValid = empty_table-IsValid string 7 (omega arith) (omega arith)

abbrev pub strings : HashTable
strings = appended string (empty_table 7) string_IsValid key_a a_IsKey 40

pub strings-IsValid : IsValid string strings
strings-IsValid =
    (appended-Means string (empty_table 7) string_IsValid key_a a_IsKey 40
      (view-empty_table 7 key_a)).valid

pub strings-Fits : Fits strings
unfolding empty_table flat home home_str
strings-Fits = record { each = ((omega arith, omega arith), tt); few = omega arith }

abbrev strings_written : File
strings_written = advance (ht_bytes strings) (ht_calls strings) new_file

abbrev strings_again : File
strings_again = record { bytes = ht_bytes strings; pos = 0; budget = 100 }

pub strings_calls : ht_calls strings ≤ 100
unfolding ht_calls empty_table flat home home_str nodes_calls node_calls
strings_calls = omega arith

read_index_file-write_ht_example :
    (write_ht strings new_file ≡ ok (some tt, strings_written))
    × (read_index_file (empty_table 0) strings_again
        ≡ ok (some strings, skip (length (ht_bytes strings)) (ht_calls strings) strings_again))
read_index_file-write_ht_example =
    read_index_file-write_ht strings strings-IsValid strings-Fits new_file strings_again refl
      strings_calls (refl, refl, strings_calls)

-- A database of two indexes, in a file that held something else.
abbrev old_file : File
old_file = record { bytes = 1 ∷ 2 ∷ 3 ∷ []; pos = 2; budget = 200 }

two_tables-calls :
    1
      + 2
      + bodies_calls (strings ∷ empty_table 7 ∷ [])
      + read_all_calls (strings ∷ empty_table 7 ∷ [])
    ≤ 200
unfolding bodies_calls read_all_calls table_calls ht_calls empty_table flat home home_str
    nodes_calls node_calls
two_tables-calls = omega arith

empty-Fits : Fits (empty_table 7)
unfolding empty_table flat
empty-Fits = record { each = tt; few = omega arith }

read_all_index_file-write_index_example :
    (g : File) × ((write_index 2 (strings ∷ empty_table 7 ∷ []) >> read_all_index_file) old_file
      ≡ ok (some (strings ∷ empty_table 7 ∷ []), g))
read_all_index_file-write_index_example =
    read_all_index_file-write_index strings (empty_table 7 ∷ []) old_file
      (strings-IsValid, (string_IsValid, tt)) (strings-Fits, (empty-Fits, tt)) (omega arith)
      two_tables-calls

-- The second of the two.
read_index_nr-write_index_example :
    (g : File) × ((write_index 2 (empty_table 7 ∷ strings ∷ []) >> read_index_nr 1) old_file
      ≡ ok (some strings, g))
unfolding bodies ht_bytes nodes_bytes node_bytes bodies_calls ht_calls empty_table flat home
    home_str nodes_calls node_calls be
read_index_nr-write_index_example =
    read_index_nr-write_index (empty_table 7 ∷ []) strings [] old_file
      (string_IsValid, (strings-IsValid, tt)) strings-IsValid strings-Fits (omega arith)
      (omega arith) (omega arith)

-- Two integer keys of one bucket.
number_IsValid : IsValid number (empty_table 7)
number_IsValid = empty_table-IsValid number 7 (omega arith) (omega arith)

one_IsKey : IsKey number (uint 1)
one_IsKey = omega arith

eight_IsKey : IsKey number (uint 8)
eight_IsKey = omega arith

abbrev one_number : HashTable
one_number = appended number (empty_table 7) number_IsValid (uint 1) one_IsKey 40

one_number-Means : Means number (update (view (empty_table 7)) (uint 1) (some 40)) one_number
one_number-Means =
    appended-Means number (empty_table 7) number_IsValid (uint 1) one_IsKey 40
      (view-empty_table 7 (uint 1))

no_eight : view one_number (uint 8) ≡ none
unfolding key_eq
no_eight = one_number-Means.reads (uint 8) ∙ view-empty_table 7 (uint 8)

abbrev numbers : HashTable
numbers = appended number one_number one_number-Means.valid (uint 8) eight_IsKey 80

numbers-IsValid : IsValid number numbers
numbers-IsValid =
    (appended-Means number one_number one_number-Means.valid (uint 8) eight_IsKey 80 no_eight).valid

numbers-Fits : Fits numbers
unfolding empty_table flat home hash_uint
numbers-Fits = record { each = ((omega arith, tt), ((omega arith, tt), tt)); few = omega arith }

numbers_calls : ht_calls numbers ≤ 100
unfolding ht_calls empty_table flat home hash_uint nodes_calls node_calls
numbers_calls = omega arith

abbrev numbers_written : File
numbers_written = advance (ht_bytes numbers) (ht_calls numbers) new_file

abbrev numbers_again : File
numbers_again = record { bytes = ht_bytes numbers; pos = 0; budget = 100 }

read_index_file-write_ht_number_example :
    (r : HashTable) × (write_ht numbers new_file ≡ ok (some tt, numbers_written))
    × (read_index_file (empty_table 0) numbers_again
        ≡ ok (some r, skip (length (ht_bytes numbers)) (ht_calls numbers) numbers_again))
    × (r.size ≡ 7)
    × ((j : ℕ) → bucket r j ≡ kept number (bucket numbers j))
unfolding empty_table
read_index_file-write_ht_number_example =
    read_index_file-write_ht_number numbers numbers-IsValid numbers-Fits new_file numbers_again refl
      numbers_calls (refl, refl, numbers_calls)

-- A file with two fields, `ab` of type 0 and `c` of type 3, and a header with stale contents.
abbrev two_names : List (List ℕ)
two_names = (97 ∷ 98 ∷ []) ∷ (99 ∷ []) ∷ []

abbrev two_fields : HeaderD
two_fields = record {
  id_n = header_id_sys;
  version = 1;
  sch_d = record {
    fields_num = 2;
    fields_name = (97 ∷ 98 ∷ 0 ∷ 0 ∷ []) ∷ (99 ∷ 0 ∷ 0 ∷ 0 ∷ []) ∷ [];
    types = 0 ∷ 3 ∷ [];
  };
}

abbrev stale : HeaderD
stale = record {
  id_n = 0;
  version = 0;
  sch_d = record {
    fields_num = 0;
    fields_name = (120 ∷ 120 ∷ 120 ∷ 120 ∷ []) ∷ (120 ∷ 120 ∷ 120 ∷ 120 ∷ []) ∷ [];
    types = 7 ∷ 7 ∷ [];
  };
}

two_fields-IsHeader : IsHeader two_names two_fields
unfolding c_str
two_fields-IsHeader = record {
  id = refl;
  version = refl;
  count = refl;
  holds = (((omega arith, (omega arith, tt)), refl), (((omega arith, tt), refl), tt));
  typed = omega arith;
}

two_fields-Fits : RoundTrip.Fits two_names two_fields stale
two_fields-Fits = record {
  few = omega arith;
  small = (omega arith, (omega arith, tt));
  room = ((omega arith, omega arith), ((omega arith, omega arith), tt));
  types_room = omega arith;
}

abbrev header : List ℕ
header = header_bytes two_names (0 ∷ 3 ∷ [])

header_few_calls : header_calls two_names ≤ 100
unfolding header_calls names_calls
header_few_calls = omega arith

abbrev header_written : File
header_written = advance header (header_calls two_names) new_file

abbrev header_again : File
header_again = record { bytes = header; pos = 0; budget = 100 }

read_header-write_header_example :
    (write_header two_fields new_file ≡ ok (some tt, header_written))
    × ((new : HeaderD) × (read_header stale header_again
          ≡ ok (some new, skip (length header) (header_calls two_names) header_again))
        × IsHeader two_names new
        × (take 2 new.sch_d.types ≡ 0 ∷ 3 ∷ []))
read_header-write_header_example =
    RoundTrip.read_header-write_header two_names two_fields stale two_fields-IsHeader tt
      two_fields-Fits new_file header_again refl header_few_calls (refl, refl, header_few_calls)
