-- ===== src/Io/Calls.antt =====
-- The calls when the system grants them.
use isam_db_c_language.Base.{ℕ, ◌+◌, ◌-◌, ◌≤◌, ◌≡◌, arith, some, List, ok, length}
use isam_db_c_language.Io.{File, write, seek, seek_end, tell}
use isam_db_c_language.Io.Bytes.{overwrite}

-- The file with one call less, at another position.
abbrev pub moved : ℕ → File → File
moved p f = record { bytes = f.bytes; pos = p; budget = f.budget - 1 }

module _ (f : File) (granted : 1 ≤ f.budget) where
  pub write-ok :
      (d : List ℕ)
      → write d f
        ≡ ok (
          some tt,
          record {
            bytes = overwrite f.bytes f.pos d;
            pos = f.pos + length d;
            budget = f.budget - 1;
          },
        )
  unfolding write
  write-ok d = ground arith

  pub seek-ok : (p : ℕ) → seek p f ≡ ok (some tt, moved p f)
  unfolding seek
  seek-ok p = ground arith

  pub tell-ok : tell f ≡ ok (some f.pos, moved f.pos f)
  unfolding tell
  tell-ok = ground arith

  pub seek_end-ok : seek_end f ≡ ok (some (length f.bytes), moved (length f.bytes) f)
  unfolding seek_end
  seek_end-ok = ground arith
