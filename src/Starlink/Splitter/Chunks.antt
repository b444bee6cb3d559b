-- ===== src/Starlink/Splitter/Chunks.antt =====
-- What the line splitter hands on, whatever the chunks.
use avt_tracker.Base.{
  ◌∙◌, append_assoc, sym, ap, append-nil, index_of, ltb, ◌==◌, All, if◌then◌else◌, length, ℕ, suc,
  ◌≤◌, ◌≡◌, List, [], ◌∷◌, ◌++◌, refl, arith, false, none,
}
use avt_tracker.Starlink.Splitter.{
  line_terminator, Text, check_line_overflow, LineSplitter, Utf8, push_chunk,
}
use avt_tracker.Starlink.Splitter.Cuts.{
  texts-append, cut_lines-append, resumed, cut_lines-absent, drain_lines-cut, texts, attach,
  cut_lines,
}

joined : (held chunk : List ℕ) → (if length held == 0 then chunk else held ++ chunk) ≡ held ++ chunk
joined [] chunk = refl
joined (x ∷ held) chunk = ground arith

-- One push is the cut of all bytes, then the overflow check.
pub push_chunk_lem :
    (utf8 : Utf8) (s : LineSplitter) (chunk : List ℕ)
    → push_chunk utf8 s chunk
      ≡ check_line_overflow
          (record s { buffer = (cut_lines (s.buffer ++ chunk)).1 })
          (texts utf8 (cut_lines (s.buffer ++ chunk)).0)
unfolding push_chunk
push_chunk_lem utf8 s chunk = rw (
  joined s.buffer chunk,
  drain_lines-cut utf8 (suc (length (s.buffer ++ chunk))) (s.buffer ++ chunk) (omega arith),
)

check_line_overflow_bound :
    (s : LineSplitter) (lines : List Text)
    → length (check_line_overflow s lines).1.buffer ≤ s.max_buffer_bytes
unfolding check_line_overflow
check_line_overflow_bound s lines = ground arith

-- Whatever arrives, a line splitter holds at most its limit after each push.
pub push_chunk_bound :
    (utf8 : Utf8) (s : LineSplitter) (chunk : List ℕ)
    → length (push_chunk utf8 s chunk).1.buffer ≤ s.max_buffer_bytes
push_chunk_bound utf8 s chunk = rw push_chunk_lem (check_line_overflow_bound _ _)

-- The chunks of one connection, pushed one after the other.
unfoldable pub push_chunks : Utf8 → LineSplitter → List (List ℕ) → List Text × LineSplitter
push_chunks utf8 s [] = ([], s)
push_chunks utf8 s (chunk ∷ chunks) =
    let pushed = push_chunk utf8 s chunk in
    let rest = push_chunks utf8 pushed.1 chunks in (pushed.0.lines ++ rest.0, rest.1)

unfoldable pub concat : List (List ℕ) → List ℕ
concat [] = []
concat (chunk ∷ chunks) = chunk ++ concat chunks

-- The length of what stands first in a cut.
first_size : List (List ℕ) × List ℕ → ℕ
first_size ([], rest) = length rest
first_size (line ∷ lines, rest) = length line

-- No line, and not the part of a line at the end, is longer than the limit.
abbrev pub IsWithin : ℕ → List (List ℕ) × List ℕ → Type 0
IsWithin limit cut = All (λ line. length line ≤ limit) cut.0 × (length cut.1 ≤ limit)

first_size-IsWithin :
    (limit : ℕ) (cut : List (List ℕ) × List ℕ) → IsWithin limit cut → first_size cut ≤ limit
unfolding first_size
first_size-IsWithin limit ([], rest) (lines_fit, rest_fits) = rest_fits
first_size-IsWithin limit (line ∷ lines, rest) ((fits, lines_fit), rest_fits) = fits

first_size-attach :
    (x : ℕ) (cut : List (List ℕ) × List ℕ)
    → (x == line_terminator) ≡ false
    → first_size (attach x cut) ≡ suc (first_size cut)
unfolding first_size attach
first_size-attach x ([], rest) h = rw h
first_size-attach x (line ∷ lines, rest) h = rw h

-- A part of a line stands in front of the first line.
first_size-append :
    (r q : List ℕ) → index_of line_terminator r ≡ none → length r ≤ first_size (cut_lines (r ++ q))
unfolding cut_lines
first_size-append [] q h = omega arith
first_size-append (x ∷ r) q h =
    let other : (x == line_terminator) ≡ false = ground arith in
    let rest = first_size-append r q (ground arith) in
    omega (arith, first_size-attach x (cut_lines (r ++ q)) other)

-- What is left of a cut holds no terminator.
attach-left :
    (x : ℕ) (cut : List (List ℕ) × List ℕ)
    → index_of line_terminator cut.1 ≡ none
    → index_of line_terminator (attach x cut).1 ≡ none
unfolding attach
attach-left x ([], rest) h = ground arith
attach-left x (line ∷ lines, rest) h = ground arith

cut_lines-left : (b : List ℕ) → index_of line_terminator (cut_lines b).1 ≡ none
unfolding cut_lines
cut_lines-left [] = refl
cut_lines-left (x ∷ b) = attach-left x (cut_lines b) (cut_lines-left b)

All-append_right :
    (limit : ℕ) (xs ys : List (List ℕ))
    → All (λ line. length line ≤ limit) (xs ++ ys)
    → All (λ line. length line ≤ limit) ys
All-append_right limit [] ys h = h
All-append_right limit (x ∷ xs) ys (_, h) = All-append_right limit xs ys h

check_line_overflow_within :
    (s : LineSplitter) (lines : List Text)
    → length s.buffer ≤ s.max_buffer_bytes
    → check_line_overflow s lines ≡ (record { lines = lines; overflowed = false }, s)
unfolding check_line_overflow
check_line_overflow_within s lines h =
    let fits : ltb s.max_buffer_bytes (length s.buffer) ≡ false = ground arith in rw fits

push_chunks-cons :
    (utf8 : Utf8) (s t : LineSplitter) (chunk : List ℕ) (chunks : List (List ℕ)) (lines : List Text)
    → push_chunk utf8 s chunk ≡ (record { lines = lines; overflowed = false }, t)
    → push_chunks utf8 s (chunk ∷ chunks)
      ≡ (lines ++ (push_chunks utf8 t chunks).0, (push_chunks utf8 t chunks).1)
unfolding push_chunks
push_chunks-cons utf8 s t chunk chunks lines e = rw e

-- A splitter that holds no terminator, and a stream in which no line, and no part of a line at the
-- end, is longer than the limit: however the stream is cut into chunks, the lines that come out are
-- the terminated lines of the stream, in order, with a carriage return before the terminator left
-- out and blank lines dropped, and the rest of the stream stays in the buffer.
pub push_chunks-lines :
    (utf8 : Utf8) (s : LineSplitter) (chunks : List (List ℕ))
    → index_of line_terminator s.buffer ≡ none
    → IsWithin s.max_buffer_bytes (cut_lines (s.buffer ++ concat chunks))
    → push_chunks utf8 s chunks ≡ (
      texts utf8 (cut_lines (s.buffer ++ concat chunks)).0,
      record s { buffer = (cut_lines (s.buffer ++ concat chunks)).1 },
    )
unfolding concat
push_chunks-lines utf8 s [] open_line within =
    let whole : cut_lines (s.buffer ++ []) ≡ ([], s.buffer) =
      rw append-nil (cut_lines-absent s.buffer open_line) in
    rw whole (unfold push_chunks texts in refl)
push_chunks-lines utf8 s (chunk ∷ chunks) open_line within =
    let b = s.buffer ++ chunk in
    let left = (cut_lines b).1 in
    let q = concat chunks in
    let total : cut_lines (s.buffer ++ (chunk ++ q)) ≡ resumed (cut_lines b) q =
      ap cut_lines (sym (append_assoc s.buffer chunk q)) ∙ cut_lines-append b q in
    let rest_within : IsWithin s.max_buffer_bytes (cut_lines (left ++ q)) =
      let w = rw total at within in (All-append_right _ (cut_lines b).0 _ w.0, w.1) in
    let fits : length left ≤ s.max_buffer_bytes = omega (
      arith,
      first_size-append left q (cut_lines-left b),
      first_size-IsWithin s.max_buffer_bytes (cut_lines (left ++ q)) rest_within,
    ) in
    let t : LineSplitter = record s { buffer = left } in
    let one : push_chunk utf8 s chunk
        ≡ (record { lines = texts utf8 (cut_lines b).0; overflowed = false }, t) =
      push_chunk_lem utf8 s chunk
      ∙ check_line_overflow_within t (texts utf8 (cut_lines b).0) fits in
    let ih = push_chunks-lines utf8 t chunks (cut_lines-left b) rest_within in
    push_chunks-cons utf8 s t chunk chunks (texts utf8 (cut_lines b).0) one
    ∙ rw (ih, total, texts-append)
