-- ===== src/Tracker/Cursor.antt =====
-- src/tracker/parser/utils/buffer-cursor.ts: a forward-only reader. A method is an action on the
-- cursor that may throw; Node's `Buffer` reads are written out as big-endian values.
pub mod Reads
pub mod Forward
pub mod Runs
use avt_tracker.Base.{
  ◌&&◌, Bool, drop, ltb, if◌then◌else◌, length, take, ◌%◌, ℕ, ◌+◌, ◌-◌, ◌*◌, ◌^◌, List, [], ◌∷◌,
}
use avt_tracker.Base.Exec.{Exec, ok, err, ◌>>=◌, ◌>>◌, gets}
use avt_tracker.Base.Int.{sub_ℕ, ℤ, pos}
use avt_tracker.Tracker.Errors.{byte_length_out_of_range, truncated_frame, Error}

pub record Cursor : Type 0 where
  pub buf : List ℕ
  pub offset : ℕ

abbrev pub cursor_on : List ℕ → Cursor
cursor_on buf = record { buf = buf; offset = 0 }

-- `offset` never passes the length, so the difference is the number that the source computes.
abbrev pub remaining : Cursor → ℕ
remaining c = length c.buf - c.offset

abbrev pub Read : Type 0 → Type 0
Read A = Exec Error Cursor A

pub ensure : ℕ → Read (Unit {0})
ensure count c =
    if ltb (remaining c) count
    then (err (truncated_frame count (remaining c) c.offset), c)
    else (ok tt, c)

pub skip : ℕ → Read (Unit {0})
skip count c = (ensure count >> λ c. (ok tt, record c { offset = c.offset + count })) c

-- `ensure`, the slice at the offset, then the new offset.
pub read_bytes : ℕ → Read (List ℕ)
read_bytes count = do
  ensure count
  slice ← gets (λ c. take count (drop c.offset c.buf))
  λ c. (ok slice, record c { offset = c.offset + count })

-- The value of bytes, the highest first.
abbrev be_from : ℕ → List ℕ → ℕ
be_from acc [] = acc
be_from acc (b ∷ bs) = be_from (acc * 256 + b) bs

abbrev pub be_value : List ℕ → ℕ
be_value = be_from 0

-- The two's complement reading of a value of `width` bytes.
abbrev pub signed : ℕ → ℕ → ℤ
signed width v = if ltb (v * 2) (256 ^ width) then pos v else sub_ℕ v (256 ^ width)

-- The numeric reads differ in their width alone: `readUIntBE(n)` and `readIntBE(n)`.
-- Node takes one to six bytes, and throws before the offset moves.
abbrev pub is_width : ℕ → Bool
is_width width = ltb 0 width && ltb width 7

abbrev pub check_width : ℕ → Read (Unit {0})
check_width width c =
    if is_width width then (ok tt, c) else (err (byte_length_out_of_range width), c)

pub read_uint_be : ℕ → Read ℕ
read_uint_be width = do
  ensure width
  check_width width
  bytes ← read_bytes width
  gets (λ _. be_value bytes)

pub read_int_be : ℕ → Read ℤ
read_int_be width = do value ← read_uint_be width; gets (λ _. signed width value)

abbrev pub read_uint8 : Read ℕ
read_uint8 = read_uint_be 1

abbrev pub read_int8 : Read ℤ
read_int8 = read_int_be 1

abbrev pub read_uint16_be : Read ℕ
read_uint16_be = read_uint_be 2

abbrev pub read_int16_be : Read ℤ
read_int16_be = read_int_be 2

abbrev pub read_uint32_be : Read ℕ
read_uint32_be = read_uint_be 4

abbrev pub read_int32_be : Read ℤ
read_int32_be = read_int_be 4

-- `toString('ascii')` clears the highest bit of each byte.
abbrev pub ascii : List ℕ → List ℕ
ascii [] = []
ascii (b ∷ bs) = (b % 128) ∷ ascii bs

pub read_length_prefixed_ascii : Read (List ℕ)
read_length_prefixed_ascii = do
  length ← read_uint8
  bytes ← read_bytes length
  gets (λ _. ascii bytes)
