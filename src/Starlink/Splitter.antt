-- ===== src/Starlink/Splitter.antt =====
-- src/starlink/tcp/starlink-line-splitter.ts: complete lines out of a byte stream. The UTF-8 decoder
-- of Node's `Buffer` is a parameter.
pub mod Cuts
pub mod Chunks
pub mod Messages
pub mod Runs
use avt_tracker.Base.{
  get_or, take, ◌&&◌, drop, ltb, ◌==◌, All, if◌then◌else◌, index_of, length, ℕ, zero, suc, ◌+◌, ◌-◌,
  ◌<◌, ◌≡◌, List, [], ◌∷◌, ◌++◌, Bool, true, false, some, none,
}
use avt_tracker.Base.Text.{Text}

-- `bytes.toString('utf8')`; bytes below 128 stand for themselves.
pub record Utf8 : Type 0 where
  pub decode : List ℕ → Text
  pub decode_ascii : (bytes : List ℕ) → All (λ b. b < 128) bytes → decode bytes ≡ bytes

abbrev pub line_terminator : ℕ
line_terminator = 0x0a

abbrev pub carriage_return : ℕ
carriage_return = 0x0d

pub record LineSplitter : Type 0 where
  pub buffer : List ℕ
  pub max_buffer_bytes : ℕ

pub record PushedLines : Type 0 where
  pub lines : List Text
  pub overflowed : Bool

-- `lineEnd`: one less than the index of the terminator if a carriage return stands before it.
pub line_end : List ℕ → ℕ → ℕ
line_end buffer newline_index =
    if ltb 0 newline_index && get_or buffer (newline_index - 1) 0 == carriage_return
    then newline_index - 1
    else newline_index

-- `if (line.length > 0) lines.push(line)`
abbrev pub push_line : Text → List Text → List Text
push_line [] lines = lines
push_line (c ∷ line) lines = (c ∷ line) ∷ lines

module _ (utf8 : Utf8) where
  -- The loop, for as long as there is a terminator; each round drops a byte at least.
  pub drain_lines : ℕ → List ℕ → List Text × List ℕ
  drain_lines zero buffer = ([], buffer)
  drain_lines (suc fuel) buffer = elim (index_of line_terminator buffer) [
    | none ↦ ([], buffer)
    | some newline_index ↦
        let rest = drain_lines fuel (drop (newline_index + 1) buffer) in
        (push_line (utf8.decode (take (line_end buffer newline_index) buffer)) rest.0, rest.1)
  ]

-- The check behind the loop.
pub check_line_overflow : LineSplitter → List Text → PushedLines × LineSplitter
check_line_overflow s lines =
    if ltb s.max_buffer_bytes (length s.buffer)
    then (record { lines = lines; overflowed = true }, record s { buffer = [] })
    else (record { lines = lines; overflowed = false }, s)

pub push_chunk : Utf8 → LineSplitter → List ℕ → PushedLines × LineSplitter
push_chunk utf8 s chunk =
    let buffer = if length s.buffer == 0 then chunk else s.buffer ++ chunk in
    let drained = drain_lines utf8 (suc (length buffer)) buffer in
    check_line_overflow (record s { buffer = drained.1 }) drained.0

pub pending_line_bytes : LineSplitter → ℕ
pending_line_bytes s = length s.buffer

pub reset_lines : LineSplitter → LineSplitter
reset_lines s = record s { buffer = [] }
