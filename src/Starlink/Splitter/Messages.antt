-- ===== src/Starlink/Splitter/Messages.antt =====
-- ASCII messages that a device ends with "\r\n", through the line splitter.
use avt_tracker.Base.{
  take-append_self, drop-append_plus, append_assoc, drop, length-append, sym, ◌∙◌,
  index_of-append_absent, map, All, ap, length, index_of, ℕ, suc, ◌+◌, ◌<◌, ◌≤◌, ◌≡◌, List, [], ◌∷◌,
  ◌++◌, refl, arith, some, none,
}
use avt_tracker.Base.Text.{Text}
use avt_tracker.Starlink.Splitter.{push_line, LineSplitter, carriage_return, line_terminator, Utf8}
use avt_tracker.Starlink.Splitter.Chunks.{push_chunks-lines, push_chunks, concat}
use avt_tracker.Starlink.Splitter.Cuts.{cut_lines-found, chop, cut_lines, texts}

-- A message is not empty, holds no line feed, and fits the limit with its carriage return.
pub record IsMessage (limit : ℕ) (m : Text) : Type 0 where
  pub ascii : All (λ c. c < 128) m
  pub one_line : index_of line_terminator m ≡ none
  pub some_text : 0 < length m
  pub fits : length m + 1 ≤ limit

-- The messages as they are sent.
unfoldable pub sent : List Text → List ℕ
sent [] = []
sent (m ∷ ms) = m ++ (carriage_return ∷ line_terminator ∷ sent ms)

abbrev line_of : Text → List ℕ
line_of m = m ++ (carriage_return ∷ [])

chop-line_of : (m : Text) → chop (line_of m) ≡ m
unfolding chop
chop-line_of [] = refl
chop-line_of (x ∷ []) = refl
chop-line_of (x ∷ y ∷ m) = ap (λ (t : Text). x ∷ t) (chop-line_of (y ∷ m))

line_of-one_line :
    (m : Text) → index_of line_terminator m ≡ none → index_of line_terminator (line_of m) ≡ none
line_of-one_line m h = index_of-append_absent line_terminator m (carriage_return ∷ []) h

cut_lines-line :
    (line rest : List ℕ)
    → index_of line_terminator line ≡ none
    → cut_lines (line ++ (line_terminator ∷ rest)) ≡ (line ∷ (cut_lines rest).0, (cut_lines rest).1)
cut_lines-line line rest h =
    let at : index_of line_terminator (line ++ (line_terminator ∷ rest)) ≡ some (length line) =
      index_of-append_absent line_terminator line (line_terminator ∷ rest) h
      ∙ ap some (omega arith) in
    let behind : drop (suc (length line)) (line ++ (line_terminator ∷ rest)) ≡ rest =
      let e : suc (length line) ≡ length line + 1 = omega arith in
      rw e (drop-append_plus line (line_terminator ∷ rest) 1) in
    cut_lines-found (line ++ (line_terminator ∷ rest)) (length line) at
    ∙ rw (take-append_self line (line_terminator ∷ rest), behind)

cut_lines-sent :
    (limit : ℕ) (ms : List Text)
    → All (IsMessage limit) ms
    → cut_lines (sent ms) ≡ (map line_of ms, [])
unfolding sent cut_lines
cut_lines-sent limit [] h = refl
cut_lines-sent limit (m ∷ ms) (h, hs) =
    ap cut_lines (sym (append_assoc m (carriage_return ∷ []) (line_terminator ∷ sent ms)))
    ∙ cut_lines-line (line_of m) (sent ms) (line_of-one_line m h.one_line)
    ∙ rw (cut_lines-sent limit ms hs)

lines_fit :
    (limit : ℕ) (ms : List Text)
    → All (IsMessage limit) ms
    → All (λ line. length line ≤ limit) (map line_of ms)
lines_fit limit [] h = tt
lines_fit limit (m ∷ ms) (h, hs) =
    (let f = h.fits in omega (arith, length-append m (carriage_return ∷ [])), lines_fit limit ms hs)

push_line-some : (t : Text) (lines : List Text) → 0 < length t → push_line t lines ≡ t ∷ lines
push_line-some [] lines h = elim h [ ]
push_line-some (c ∷ t) lines h = refl

texts-sent :
    (utf8 : Utf8) (limit : ℕ) (ms : List Text)
    → All (IsMessage limit) ms
    → texts utf8 (map line_of ms) ≡ ms
unfolding texts
texts-sent utf8 limit [] h = refl
texts-sent utf8 limit (m ∷ ms) (h, hs) =
    rw (chop-line_of m, utf8.decode_ascii m h.ascii, texts-sent utf8 limit ms hs)
      (push_line-some m ms h.some_text)

-- ASCII messages without a line feed, none of them empty and none longer than the limit allows with
-- its carriage return, each sent with "\r\n" behind it: a splitter that holds nothing hands them on
-- one by one and unchanged, however the stream is cut into chunks, and holds nothing afterwards.
pub push_chunks-sent :
    (utf8 : Utf8) (s : LineSplitter) (ms : List Text) (chunks : List (List ℕ))
    → s.buffer ≡ []
    → All (IsMessage s.max_buffer_bytes) ms
    → concat chunks ≡ sent ms
    → push_chunks utf8 s chunks ≡ (ms, s)
push_chunks-sent utf8 s ms chunks empty hs e =
    let stream : cut_lines (s.buffer ++ concat chunks) ≡ (map line_of ms, []) =
      rw (empty, e) (cut_lines-sent s.max_buffer_bytes ms hs) in
    push_chunks-lines utf8 s chunks (rw empty refl)
      (rw stream (lines_fit s.max_buffer_bytes ms hs, omega arith))
    ∙ rw (stream, texts-sent utf8 s.max_buffer_bytes ms hs, ← empty)
