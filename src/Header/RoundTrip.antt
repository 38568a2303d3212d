-- ===== src/Header/RoundTrip.antt =====
-- Writing a header and reading it back.
use isam_db_c_language.Base.{
  ℕ, ◌≤◌, ◌<◌, ◌^◌, ◌≡◌, refl, ap, sym, ◌∙◌, arith, List, [], ◌++◌, ok, length, take, drop, All,
  some, length-append, length-take, append-nil,
}
use isam_db_c_language.Io.{File}
use isam_db_c_language.Io.Bytes.{drop-length_append, take-length_append}
use isam_db_c_language.Io.Wire.{AtEnd, advance, skip}
use isam_db_c_language.IndexFile.RoundTrip.{Reopened}
use isam_db_c_language.Header.{HeaderD, read_header, write_header}
use isam_db_c_language.Header.Encode.{
  IsHeader, IsNamed, header_bytes, header_calls, write_header-Appends,
}
use isam_db_c_language.Header.Load.{
  HasRoom, Loads, loaded, Holds-stored, Holds-IsText, Reads-header,
}

-- What the widths of the file and the arrays of `old` ask of a header with the names.
pub record Fits (names : List (List ℕ)) (hd old : HeaderD) : Type 0 where
  pub few : length names < 256 ^ 2
  pub small : All (λ (t : ℕ). t < 256 ^ 4) (take (length names) hd.sch_d.types)
  pub room : HasRoom names old.sch_d.fields_name
  pub types_room : length names ≤ length old.sch_d.types

length-take_all : (n : ℕ) (ts : List ℕ) → n ≤ length ts → length (take n ts) ≡ n
length-take_all n ts h = length-take n ts ∙ ground arith

module _ (names : List (List ℕ)) (hd old : HeaderD) (is : IsHeader names hd)
    (fits : Fits names hd old) where
  abbrev pub types_of : List ℕ
  types_of = take (length names) hd.sch_d.types

  same_length : length types_of ≡ length names
  same_length = length-take_all (length names) hd.sch_d.types is.typed

  Fits-Loads : Loads names types_of old
  Fits-Loads = record {
    same = same_length;
    few = fits.few;
    text = Holds-IsText names hd.sch_d.fields_name is.holds;
    small = fits.small;
    room = fits.room;
    types_room = fits.types_room;
  }

  loaded-IsHeader : IsHeader names (loaded names types_of old)
  loaded-IsHeader = record {
    id = refl;
    version = refl;
    count = refl;
    holds =
        Holds-stored names old.sch_d.fields_name (Holds-IsText names hd.sch_d.fields_name is.holds)
          fits.room;
    typed =
        omega (arith, same_length, length-append types_of (drop (length types_of) old.sch_d.types));
  }

  loaded-types : take (length names) (types_of ++ drop (length types_of) old.sch_d.types) ≡ types_of
  loaded-types = take-length_append types_of _ (length names) same_length

-- A header of the program's version that fits the widths of the file, with a first name that is
-- not empty, written by `write_header` at the end of a file and read by `read_header` from where
-- it was written into a header with room for it, each time with calls enough: both return 1, and
-- the header that is read has the same names and types.
pub read_header-write_header :
    (names : List (List ℕ)) (hd old : HeaderD)
    → IsHeader names hd
    → IsNamed names
    → Fits names hd old
    → (f g : File) → AtEnd f
    → header_calls names ≤ f.budget
    → Reopened
        (advance (header_bytes names (take (length names) hd.sch_d.types)) (header_calls names) f)
        f.pos
        (header_calls names)
        g
    → (write_header hd f
        ≡ ok (
          some tt,
          advance (header_bytes names (take (length names) hd.sch_d.types)) (header_calls names) f,
        ))
      × ((new : HeaderD) × (read_header old g
            ≡ ok (
              some new,
              skip
                  (length (header_bytes names (take (length names) hd.sch_d.types)))
                  (header_calls names)
                  g,
            ))
          × IsHeader names new
          × (take (length names) new.sch_d.types ≡ take (length names) hd.sch_d.types))
read_header-write_header names hd old is named fits f g end calls (bytes, pos, left) =
    let ts = take (length names) hd.sch_d.types in
    (
      write_header-Appends names hd is named f end calls,
      (
        loaded names ts old,
        Reads-header names ts old named (Fits-Loads names hd old is fits) g []
            (ap (λ (b : List ℕ). drop g.pos b) bytes
              ∙ drop-length_append f.bytes (header_bytes names ts) g.pos (sym (pos ∙ end))
              ∙ sym (append-nil (header_bytes names ts)))
            left,
        loaded-IsHeader names hd old is fits,
        loaded-types names hd old is fits,
      ),
    )
