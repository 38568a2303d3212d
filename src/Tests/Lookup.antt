-- ===== src/Tests/Lookup.antt =====
-- A record of two parts, found by its key in an index file of one index.
use isam_db_c_language.Base.{
  ℕ, ◌+◌, ◌≡◌, ◌≤◌, refl, sym, ◌∙◌, arith, none, some, List, [], ◌∷◌, ◌++◌, ok, length, replicate,
  append-nil,
}
use isam_db_c_language.HashTbl.{empty_table}
use isam_db_c_language.HashTbl.Keys.{string, key_eq}
use isam_db_c_language.HashTbl.Model.{view, view-empty_table}
use isam_db_c_language.HashTbl.Laws.{appended-Means}
use isam_db_c_language.Io.{File, read_be, read, seek, tell}
use isam_db_c_language.Io.Bytes.{be, from_be, pad, drop-length_append}
use isam_db_c_language.Io.Wire.{skip}
use isam_db_c_language.IndexFile.{
  until_nul, read_index_nr, as_int, out_of_bound, find_record_position, read_index_file,
}
use isam_db_c_language.IndexFile.Encode.{ht_bytes, ht_calls}
use isam_db_c_language.IndexFile.RoundTrip.{read_index_file-write_ht}
use isam_db_c_language.Crud.{table_key, is_num, is_word, get_record}
use isam_db_c_language.Crud.Lookup.{Linked, last, next, get_record-Linked}
use isam_db_c_language.Records.{RecordF}
use isam_db_c_language.Records.RecordLayout.{
  record_bytes, set_fields, positions, indexes_bytes, values_bytes,
}
use isam_db_c_language.Records.Layout.{value_layout}
use isam_db_c_language.Records.StringLayout.{string_bytes, text_bytes}
use isam_db_c_language.Records.ArrayLayout.{array_bytes, elements_bytes}
use isam_db_c_language.Records.RoundTrip.{read_back, record_read_calls}
use isam_db_c_language.Tests.Files.{
  strings, key_a, a_IsKey, strings-IsValid, strings-Fits, strings_calls, string_IsValid,
}
use isam_db_c_language.Tests.Records.{
  item, item_schema, item_fields, item-IsRecord, item-Fits, item_read_calls,
}

-- The number of indexes, the offset of the first, and its number.
abbrev index_head : List ℕ
index_head = 0 ∷ 0 ∷ 0 ∷ 1 ∷ 0 ∷ 0 ∷ 0 ∷ 0 ∷ 0 ∷ 0 ∷ 0 ∷ 16 ∷ 0 ∷ 0 ∷ 0 ∷ 0 ∷ []

abbrev index_file : File
index_file = record { bytes = index_head ++ ht_bytes strings; pos = 0; budget = 106 }

abbrev at_table : File
at_table = record { bytes = index_head ++ ht_bytes strings; pos = 16; budget = 100 }

table_read :
    read_index_file (empty_table 0) at_table
    ≡ ok (some strings, skip (length (ht_bytes strings)) (ht_calls strings) at_table)
table_read =
    (read_index_file-write_ht strings strings-IsValid strings-Fits
      (record { bytes = index_head; pos = 16; budget = 100 }) at_table refl strings_calls
      (refl, refl, strings_calls)).1

index_read :
    read_index_nr 0 index_file
    ≡ ok (some strings, skip (length (ht_bytes strings)) (ht_calls strings) at_table)
unfolding read_index_nr as_int out_of_bound find_record_position seek tell read_be read from_be pad
index_read = table_read

abbrev index_left : File
index_left = skip (length (ht_bytes strings)) (ht_calls strings) at_table

key_found : view strings key_a ≡ some 40
unfolding key_eq
key_found =
    (appended-Means string (empty_table 7) string_IsValid key_a a_IsKey 40
        (view-empty_table 7 key_a)).reads
      key_a

key_means : table_key (97 ∷ 98 ∷ []) ≡ some key_a
unfolding table_key is_num is_word
key_means = refl

-- A part at 40, whose next part is at 97.
abbrev parts_file : File
parts_file = record {
  bytes = replicate 40 0 ++ record_bytes item 97 ++ record_bytes item 0;
  pos = 0;
  budget = 90;
}

abbrev part : RecordF
part = read_back item item_fields

part_length : length (record_bytes item 97) ≡ 57
unfolding record_bytes set_fields positions indexes_bytes values_bytes value_layout string_bytes
    text_bytes array_bytes elements_bytes be pad until_nul
part_length = refl

second_part : Linked parts_file.bytes item_schema 97 (part ∷ []) (record_read_calls item + 1)
second_part =
    last item item_fields [] item-IsRecord item-Fits
      (drop-length_append (record_bytes item 97) (record_bytes item 0) 57 part_length
        ∙ sym (append-nil (record_bytes item 0)))
      refl refl

parts :
    Linked parts_file.bytes item_schema 40
      (part ∷ part ∷ [])
      (record_read_calls item + 1 + (1 + (record_read_calls item + 1)))
parts =
    next item item_fields (record_bytes item 0) 97 (part ∷ []) (record_read_calls item + 1)
      item-IsRecord item-Fits refl (omega arith) (omega arith) second_part refl refl

parts_calls : 1 + (record_read_calls item + 1 + (1 + (record_read_calls item + 1))) ≤ 90
parts_calls = omega (arith, item_read_calls)

get_record-Linked_example :
    (file' : File) × (get_record (97 ∷ 98 ∷ []) item_schema index_file parts_file
      ≡ ok (some (part ∷ part ∷ []), index_left, file'))
    × (file'.bytes ≡ parts_file.bytes)
get_record-Linked_example =
    get_record-Linked string strings key_a (97 ∷ 98 ∷ []) item_schema index_file index_left
      parts_file 40 (part ∷ part ∷ []) _ strings-IsValid a_IsKey key_means index_read key_found
      (omega arith) parts parts_calls

-- A count of indexes that is negative as an `int` is refused.
negative_count :
    read_index_nr 0 (record { bytes = 255 ∷ 0 ∷ 0 ∷ 0 ∷ []; pos = 0; budget = 9 })
    ≡ ok (none, record { bytes = 255 ∷ 0 ∷ 0 ∷ 0 ∷ []; pos = 4; budget = 7 })
unfolding read_index_nr as_int out_of_bound seek read_be read from_be pad
negative_count = refl
