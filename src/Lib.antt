-- ===== src/Lib.antt =====
-- isam.db-C-language: a file database in C. A database file has a data file, an index file and a
-- schema file. The index file holds hash tables from keys to offsets in the data file; the schema
-- file holds a header with the names and types of the fields.
--
-- The parts that are modelled:
--   HashTbl    src/hash_tbl.c, include/hash_tbl.h. `HashTable` is a record of its size and its array
--              of chains; `hash`, `get`, `set`, `delete`, `keys`, `len`, `copy_ht` have the code's
--              names. HashTbl/Model has the abstract index: a function from keys to offsets.
--   Io         read, write and lseek on one descriptor, as src/file.c calls them. `Io A` is code
--              that ends with a value or with its error return; Io/Wire has the rules for it.
--   IndexFile  `write_ht` of src/hash_tbl.c; `read_index_file`, `write_index_file_head`,
--              `write_index_body`, `read_index_nr`, `indexes_on_file` of src/file.c.
--              IndexFile/Indexes has `write_index` of src/crud.c and `read_all_index_file` of
--              src/file.c, for all indexes of a database at once.
--   Bst        src/bst.c, include/bst.h: `insert_bst` with its rotations, `find`, `height`, over a kind
--              of values. Bst/Strings has the kind of strings, with the `strip` of `create_node`.
--   Header     src/parse.c, include/record.h: `create_header`, `write_empty_header`,
--              `write_header`, `read_header`.
--   Journal    src/journal.c, include/journal.h: the stack with `push`, `pop`, `peek`, `is_empty`.
--   Records    src/file.c, src/record.c, include/record.h: `create_record`, `insert_element`,
--              `write_file` of a new record, `read_file`, `get_update_offset`. The branches for one
--              type of field are functions of their own (`write_ints`, `read_string`);
--              Records/Update has the update of a string, from `write_file` with `update` set, and
--              Records/Blocks that of an array of numbers.
--   Crud       src/crud.c: `get_record` on the files on disk, with `key_converter` and `is_num` of
--              src/str_op.c.
--   Ram        src/file.c, include/file.h: the file in memory, `write_ram_record` with the size of a
--              record and the growth of the memory.
--   Compare    src/record.c: `compare_rec`. Compare/Reference describes its tests with no
--              counters, Compare/Exact says where they are tests for equality.
--   Schemas    src/parse.c, src/record.c: `schema_has_type`, `schema_nw_assyign_type`,
--              `schema_eq_assign_type`. Schemas/Order has `sort_input_like_header_schema`.
--   Text       src/str_op.c, include/str_op.h: `get_type`, `count_fields`, `check_fields_integrity`,
--              `three_file_path`, `replace`. Text/Numbers has `assign_type` and the tests on numbers.
--   Sort       src/sort.c: `swap`, `pivot`, `quick_sort`, over an order for numbers and strings, and
--              `selection_sort`.
--   Base       shared names, lists over the native numbers, integers, runs that may be undefined.
--   Tests      runs on small inputs.
-- The index file reads and writes tables of HashTbl through Io; the schema file
-- and the records of the data file are read and written through Io as well; a record is read by the
-- schema that the header holds, and found by the offset that the index has for its key.
--
-- Conventions: behaviour that C leaves undefined (a wild pointer, an index outside an array, a
-- division by zero) is the value `undefined`; an error return is `none`. A string is the list of its
-- bytes before the NUL. Unsigned arithmetic keeps its `% 2 ^ 32`; `int` arithmetic is exact, with
-- its bounds as theorems where it is used on keys. `MAX_HT_BUCKET` is 503 as in the code. Loops
-- are structural recursion on what the code walks through, or on fuel: `quick_sort` takes one more
-- than the length of the array, which is enough, and `read_array` one more than the number of calls
-- that the system grants, which is enough since a round takes four; `read_parts` and
-- `update_array` take as much.
-- `budget` of a file is the number of system calls
-- that succeed, and is not fuel: the code's error path follows when it is used up. On blocks of an
-- array whose offsets make a circle the code reads on for ever; the model takes that error path in the
-- end, whatever the number. Records/Chain counts the rounds by the blocks.
--
-- Not modelled: the update of arrays of strings and fields of TYPE_FILE in src/file.c, the reading
-- of its file in memory, the parsing and copying of records in src/record.c, the parsing of input
-- (the rest of src/str_op.c and src/parse.c), the journal's files (the rest of src/journal.c), the
-- record operations (the rest of src/crud.c), the command line (src/main.c, src/input.c), the
-- import of files (src/build.c), printing, and the release of memory. Memory is always granted.
-- What a `realloc` adds to the file in memory is an argument, as are the conversions between
-- floating-point numbers and integers that its writer makes.
-- In the search tree, a value of another type than the tree's and the copies of data are left out.
-- `copy_ht` in mode 1 frees the old destination, which is left out. Two counters are exact that the code
-- keeps in a narrower type: the `unsigned char` of `write_header`, for at most 200 fields, and the
-- `int` sum of `is_number_in_limits`, which differs for texts of tens of millions of characters.
pub mod Base
pub mod Compare
pub mod HashTbl
pub mod Io
pub mod IndexFile
pub mod Bst
pub mod Header
pub mod Journal
pub mod Crud
pub mod Ram
pub mod Records
pub mod Schemas
pub mod Sort
pub mod Text
mod Tests
