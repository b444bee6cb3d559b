-- ===== src/Tracker/Splitter.antt =====
-- src/tracker/tcp/tracker-frame-splitter.ts: the '#'-anchored framing of one socket's bytes.
-- A Buffer is a list of byte values. The endless loop of `push` runs on fuel, one more than the
-- bytes held; each round that goes on takes a byte at least.
pub mod Rounds
pub mod Push
pub mod Whole
pub mod Chunks
pub mod Streams
pub mod Early
pub mod Runs
use avt_tracker.Base.{
  ℕ, zero, suc, ◌+◌, ◌<◌, ◌≤◌, min, Bool, true, false, not, ◌&&◌, ◌==◌, ltb, leb, Option, none,
  some, List, [], ◌∷◌, ◌++◌, if◌then◌else◌, length, get_or, take, drop, index_of, index_of_from,
  uint16_at,
}

abbrev pub frame_terminator : ℕ
frame_terminator = 0x23

abbrev pub colon : ℕ
colon = 0x3a

abbrev pub max_head_token_search_bytes : ℕ
max_head_token_search_bytes = 8

abbrev pub length_field_bytes : ℕ
length_field_bytes = 2

-- imei, deviceId, generatedTime, serialNumber
abbrev pub minimum_trailing_fixed_bytes : ℕ
minimum_trailing_fixed_bytes = 8 + 1 + 7 + 2

-- The `number | null | undefined` of `resolveFrameLength`.
pub data FrameLength : Type 0 where
  undefined : FrameLength
  null : FrameLength
  known : ℕ → FrameLength

-- The fallback: the first terminator from the earliest place that a legitimate frame allows.
pub fallback_length : List ℕ → ℕ → FrameLength
fallback_length buffer minimum_terminator_index =
    if leb (length buffer) minimum_terminator_index
    then undefined
    else elim (index_of_from frame_terminator minimum_terminator_index buffer) [
      | none ↦ undefined
      | some terminator_index ↦ known (terminator_index + 1)
    ]

-- What follows once the colon is found.
pub length_after_colon : List ℕ → ℕ → FrameLength
length_after_colon buffer colon_index =
    let head_token_length = colon_index + 1 in
    let length_field_end = head_token_length + length_field_bytes in
    let declared_frame_length = length_field_end + uint16_at buffer head_token_length + 1 in
    if ltb (length buffer) length_field_end
    then undefined
    else if leb declared_frame_length (length buffer)
        && get_or buffer (length_field_end + uint16_at buffer head_token_length) 0
          == frame_terminator
    then known declared_frame_length
    else fallback_length buffer (length_field_end + minimum_trailing_fixed_bytes)

pub resolve_frame_length : List ℕ → FrameLength
resolve_frame_length buffer =
    let search_window = take (min (length buffer) max_head_token_search_bytes) buffer in
    elim (index_of colon search_window) [
      | none ↦ if ltb (length search_window) max_head_token_search_bytes then undefined else null
      | some colon_index ↦ length_after_colon buffer colon_index
    ]

-- One round of the loop in `push`: it breaks, drops bytes to resync, or cuts a frame off.
pub data Round : Type 0 where
  stop : Round
  resync : List ℕ → Round
  emit : List ℕ → List ℕ → Round

pub round_of : List ℕ → FrameLength → Round
round_of buffer undefined = stop
round_of buffer null = elim (index_of frame_terminator buffer) [
  | none ↦ stop
  | some terminator_index ↦ resync (drop (terminator_index + 1) buffer)
]
round_of buffer (known frame_length) =
    if ltb (length buffer) frame_length
    then stop
    else emit (take frame_length buffer) (drop frame_length buffer)

pub round : List ℕ → Round
round buffer = round_of buffer (resolve_frame_length buffer)

-- The frames cut off, in order, and the bytes that stay in the buffer.
pub drain : ℕ → List ℕ → List (List ℕ) × List ℕ
drain zero buffer = ([], buffer)
drain (suc fuel) buffer = elim (round buffer) [
  | stop ↦ ([], buffer)
  | resync rest ↦ drain fuel rest
  | emit frame rest ↦ let (frames, left) = drain fuel rest in (frame ∷ frames, left)
]

pub record Splitter : Type 0 where
  pub buffer : List ℕ
  pub max_buffer_bytes : ℕ

pub record Pushed : Type 0 where
  pub frames : List (List ℕ)
  pub overflowed : Bool

-- The overflow check behind the loop.
pub check_overflow : Splitter → List (List ℕ) → Pushed × Splitter
check_overflow s frames =
    if ltb s.max_buffer_bytes (length s.buffer)
    then (record { frames = frames; overflowed = true }, record s { buffer = [] })
    else (record { frames = frames; overflowed = false }, s)

pub push : Splitter → List ℕ → Pushed × Splitter
push s chunk =
    let buffer = if length s.buffer == 0 then chunk else s.buffer ++ chunk in
    let (frames, left) = drain (suc (length buffer)) buffer in
    check_overflow (record s { buffer = left }) frames

pub pending_byte_count : Splitter → ℕ
pending_byte_count s = length s.buffer

pub reset : Splitter → Splitter
reset s = record s { buffer = [] }

-- The chunks of one connection, pushed one after the other.
unfoldable pub push_all : Splitter → List (List ℕ) → List (List ℕ) × Splitter
push_all s [] = ([], s)
push_all s (chunk ∷ chunks) =
    let (pushed, s') = push s chunk in
    let (frames, s'') = push_all s' chunks in (pushed.frames ++ frames, s'')
