-- ===== src/Tests/Records.antt =====
-- A record of four fields in memory, one of them not set.
use isam_db_c_language.Base.{
  ℕ, ◌+◌, ◌*◌, ◌^◌, ◌<◌, ◌++◌, ◌≡◌, ◌≤◌, refl, arith, some, inl, inr, List, [], ◌∷◌, ok, length,
  replicate, true,
}
use isam_db_c_language.Io.{File}
use isam_db_c_language.Io.Bytes.{be}
use isam_db_c_language.Io.Wire.{advance, skip}
use isam_db_c_language.Header.{Schema, c_str}
use isam_db_c_language.IndexFile.{until_nul}
use isam_db_c_language.Ram.{get_disk_size_record, fields_size, field_size, write_ram_record}
use isam_db_c_language.Ram.Equivalence.{write_ram_record-write_file}
use isam_db_c_language.Ram.Puts.{ram}
use isam_db_c_language.Records.{
  Field, RecordF, create_fields, value_int, value_string, value_bytes, value_long, value_type,
  blank,
}
use isam_db_c_language.Records.ArrayLayout.{elements_calls, array_write_calls, array_read_calls}
use isam_db_c_language.Records.Layout.{value_calls}
use isam_db_c_language.Records.Recall.{zeroed, value_read_calls}
use isam_db_c_language.Records.RecordLayout.{
  IsRecord, positions, set_fields, record_bytes, record_calls, values_calls, indexes_calls,
}
use isam_db_c_language.Records.RoundTrip.{
  Fits, Agrees, record_read_calls, read_file-write_file, values_read_calls,
}
use isam_db_c_language.Records.Places.{at, Stands, inside}
use isam_db_c_language.Records.Strings.{read_string}
use isam_db_c_language.Records.Update.{update_string}
use isam_db_c_language.Records.UpdateRead.{read_string-update_string}
use isam_db_c_language.Records.Store.{write_file, read_part}

abbrev pub item : RecordF
item = record {
  fields_num = 4;
  field_set = 1 ∷ 0 ∷ 1 ∷ 1 ∷ replicate 196 0;
  fields =
      record { field_name = 97 ∷ 0 ∷ []; content = value_int 4000000000 }
      ∷ record { field_name = 98 ∷ 0 ∷ []; content = value_long 0 }
      ∷ record { field_name = 99 ∷ 0 ∷ []; content = value_string (65 ∷ 66 ∷ 0 ∷ []) }
      ∷ record { field_name = 100 ∷ 0 ∷ []; content = value_bytes (some 7 ∷ some 255 ∷ []) }
      ∷ [];
}

abbrev pub item_schema : Schema
item_schema = record {
  fields_num = 4;
  fields_name = (97 ∷ 0 ∷ []) ∷ (98 ∷ 0 ∷ []) ∷ (99 ∷ 0 ∷ []) ∷ (100 ∷ 0 ∷ []) ∷ [];
  types = 0 ∷ 1 ∷ 3 ∷ 11 ∷ [];
}

abbrev pub name_row : ℕ → List ℕ
name_row c = c ∷ replicate 31 0

abbrev pub item_fields : List Field
item_fields =
    record { field_name = name_row 97; content = value_int 0 }
    ∷ record { field_name = name_row 98; content = value_long 0 }
    ∷ record { field_name = name_row 99; content = value_string [] }
    ∷ record { field_name = name_row 100; content = value_bytes [] }
    ∷ []

pub item-IsRecord : IsRecord item
unfolding set_fields positions c_str until_nul
item-IsRecord = record {
  each = (
    inr (refl, omega arith),
    (
      inl refl,
      (
        inr (refl, record { ends = refl; few = omega arith }),
        (inr (refl, record { each = (omega arith, (omega arith, tt)); few = omega arith }), tt),
      ),
    ),
  );
  few = omega arith;
  some_set = omega arith;
}

pub item-Fits : Fits item item_schema item_fields
unfolding create_fields value_type blank zeroed c_str
item-Fits = record {
  count = refl;
  created = refl;
  same_types = (refl, (refl, (refl, (refl, tt))));
  flags = refl;
}

abbrev records_file : File
records_file = record { bytes = 9 ∷ []; pos = 1; budget = 40 }

abbrev item_written : File
item_written = advance (record_bytes item 77) (record_calls item) records_file

abbrev item_again : File
item_again = record { bytes = item_written.bytes; pos = 1; budget = 40 }

item_calls : record_calls item ≤ 40
unfolding record_calls set_fields positions values_calls array_write_calls elements_calls
    indexes_calls value_calls
item_calls = omega arith

pub item_read_calls : record_read_calls item + 1 ≤ 40
unfolding record_read_calls set_fields positions array_read_calls elements_calls indexes_calls
    values_read_calls value_read_calls
item_read_calls = omega arith

read_file-write_file_example :
    (write_file item 77 records_file ≡ ok (some 1, item_written))
    × ((new : RecordF) × (read_part item_schema item_again
          ≡ ok (
            some (new, 77),
            skip (length (record_bytes item 77)) (record_read_calls item + 1) item_again,
          ))
        × (new.field_set ≡ item.field_set)
        × Agrees 4 item.field_set item.fields new.fields)
read_file-write_file_example =
    read_file-write_file item item_schema item_fields 77 item-IsRecord item-Fits (omega arith)
      records_file item_again refl item_calls (refl, refl, item_read_calls)

-- A file with one string of a buffer of three bytes; the new string has five.
abbrev name_file : File
name_file = record { bytes = 9 ∷ be 8 0 ++ be 8 3 ++ 65 ∷ 0 ∷ 0 ∷ []; pos = 1; budget = 20 }

abbrev new_name : List ℕ
new_name = 72 ∷ 69 ∷ 76 ∷ 76 ∷ 79 ∷ 0 ∷ []

new_name-c_str : c_str new_name ≡ ok (until_nul new_name)
unfolding c_str until_nul
new_name-c_str = refl

new_name-small : length (until_nul new_name) + 1 < 256 ^ 8
unfolding until_nul
new_name-small = omega arith

name_file-Stands : Stands name_file.bytes 1 (65 ∷ 0 ∷ 0 ∷ []) 20
unfolding be
name_file-Stands = inside (9 ∷ []) [] refl refl refl (omega arith)

name_file-small : 2 * length name_file.bytes < 256 ^ 8
unfolding be
name_file-small = omega arith

read_string-update_string_example :
    (g : File) × (update_string new_name name_file ≡ ok (some tt, g))
    × (g.pos ≡ 20)
    × ((buf : List ℕ) × Stands g.bytes 1 buf 20
        × (c_str buf ≡ ok (until_nul new_name))
        × ((left : ℕ) × (read_string (at g.bytes 1 7) ≡ ok (some buf, at g.bytes 20 left))))
read_string-update_string_example =
    read_string-update_string new_name name_file (65 ∷ 0 ∷ 0 ∷ []) 20 7 new_name-c_str
      new_name-small name_file-Stands name_file-small (omega arith) (omega arith)

-- An integer and a string.
abbrev plain_item : RecordF
plain_item = record {
  fields_num = 2;
  field_set = 1 ∷ 1 ∷ replicate 198 0;
  fields =
      record { field_name = 97 ∷ 0 ∷ []; content = value_int 7 }
      ∷ record { field_name = 99 ∷ 0 ∷ []; content = value_string (65 ∷ 66 ∷ 0 ∷ []) }
      ∷ [];
}

plain_item-IsRecord : IsRecord plain_item
unfolding set_fields positions c_str until_nul
plain_item-IsRecord = record {
  each = (inr (refl, omega arith), (inr (refl, record { ends = refl; few = omega arith }), tt));
  few = omega arith;
  some_set = omega arith;
}

plain_item-size : get_disk_size_record plain_item ≡ ok 44
unfolding get_disk_size_record fields_size field_size c_str
plain_item-size = refl

plain_item-calls : record_calls plain_item ≤ 40
unfolding record_calls set_fields positions values_calls indexes_calls value_calls
plain_item-calls = omega arith

-- The memory has to grow.
write_ram_record-write_file_example :
    (more : List ℕ) × (g : File) × (write_file plain_item 0 records_file ≡ ok (some 1, g))
    × (write_ram_record (λ n. n) (λ n. n) (λ n. n) [] plain_item (ram (9 ∷ []) (replicate 30 0))
        ≡ ok (true, ram g.bytes more))
write_ram_record-write_file_example =
    write_ram_record-write_file (λ n. n) (λ n. n) (λ n. n) [] plain_item (9 ∷ []) (replicate 30 0)
      44 records_file plain_item-IsRecord (inr tt, (inr tt, tt)) plain_item-size (omega arith)
      (omega arith) refl refl plain_item-calls
