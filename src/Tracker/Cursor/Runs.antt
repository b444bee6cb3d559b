-- ===== src/Tracker/Cursor/Runs.antt =====
-- The cursor's theorems at concrete inputs.
use avt_tracker.Base.{◌≡◌, [], ◌∷◌, refl, arith}
use avt_tracker.Tracker.Cursor.{truncated_frame, err, ok, Cursor, read_bytes, read_uint_be}
use avt_tracker.Tracker.Cursor.Reads.{be_bytes, read_bytes_short, read_uint_be-be_bytes, moved}

abbrev at_two : Cursor
at_two = record { buf = 9 ∷ 9 ∷ 1 ∷ 44 ∷ 7 ∷ []; offset = 2 }

read_uint_be-be_bytes_example : read_uint_be 2 at_two ≡ (ok 300, moved 2 at_two)
unfolding be_bytes
read_uint_be-be_bytes_example =
    read_uint_be-be_bytes at_two 2 300 (7 ∷ []) (omega arith) (omega arith) (omega arith)
      (record { ahead = refl; inside = omega arith })

read_bytes_short_example : read_bytes 4 at_two ≡ (err (truncated_frame 4 3 2), at_two)
read_bytes_short_example = read_bytes_short at_two 4 (omega arith)
