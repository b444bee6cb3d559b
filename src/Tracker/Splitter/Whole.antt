-- ===== src/Tracker/Splitter/Whole.antt =====
-- Frames that arrive whole: with an honest Length field a frame is cut off exactly, whatever bytes
-- its body holds.
use avt_tracker.Base.{
  ltb, zero, ap, false, map, drop-append_self, take-append_self, ◌∙◌, ◌≤◌, some, min, suc,
  append_assoc, get_or, get_or-append_self, index_of-take_append, take, uint16_at, [], ◌*◌,
  length-append, ◌<◌, arith, none, ◌∷◌, ◌≡◌, index_of, length, ◌++◌, List, ℕ, ◌+◌,
}
use avt_tracker.Tracker.Splitter.{
  push, Splitter, drain, check_overflow, stop, emit, round_of, round, known, length_after_colon,
  resolve_frame_length, frame_terminator, colon,
}
use avt_tracker.Tracker.Splitter.Push.{push_lem}
use avt_tracker.Tracker.Splitter.Rounds.{drain-emit, drain-stop}

-- A frame laid out as the protocol says: head token, Length, body, '#'.
abbrev pub frame_of : List ℕ → ℕ → ℕ → List ℕ → List ℕ
frame_of head hi lo body = head ++ (colon ∷ hi ∷ lo ∷ body ++ (frame_terminator ∷ []))

pub record IsHonest (head : List ℕ) (hi lo : ℕ) (body : List ℕ) : Type 0 where
  pub plain : index_of colon head ≡ none
  pub short : length head < 8
  pub declared : hi * 256 + lo ≡ length body

module _ (head : List ℕ) (hi lo : ℕ) (body : List ℕ) where
  abbrev pub start_of : List ℕ → List ℕ
  start_of rest = head ++ (colon ∷ hi ∷ lo ∷ rest)

  pub length-frame_of : length (frame_of head hi lo body) ≡ length head + length body + 4
  length-frame_of = omega (
    arith,
    length-append head (colon ∷ hi ∷ lo ∷ body ++ (frame_terminator ∷ [])),
    length-append body (frame_terminator ∷ []),
  )

  frame_of-append :
      (rest : List ℕ)
      → frame_of head hi lo body ++ rest ≡ start_of (body ++ (frame_terminator ∷ rest))
  frame_of-append rest = simp append_assoc

resolve-at :
    (b : List ℕ) (c : ℕ)
    → index_of colon (take (min (length b) 8) b) ≡ some c
    → resolve_frame_length b ≡ length_after_colon b c
unfolding resolve_frame_length
resolve-at b c e = rw (e, resolve_frame_length)

-- A buffer that starts with a head token and its colon.
pub resolve-head :
    (head tail : List ℕ)
    → index_of colon head ≡ none
    → length head < 8
    → resolve_frame_length (head ++ (colon ∷ tail))
      ≡ length_after_colon (head ++ (colon ∷ tail)) (length head)
resolve-head head tail plain short = resolve-at (head ++ (colon ∷ tail)) (length head) (
    index_of-take_append colon _ head tail (omega (arith, length-append head (colon ∷ tail))) plain)

module _ (head : List ℕ) (hi lo : ℕ) (tail : List ℕ) where
  abbrev opening : List ℕ
  opening = head ++ (colon ∷ hi ∷ lo ∷ tail)

  pub declared_at : uint16_at opening (length head + 1) ≡ hi * 256 + lo
  declared_at =
      let a = get_or-append_self head (colon ∷ hi ∷ lo ∷ tail) 1 0 in
      let b = get_or-append_self head (colon ∷ hi ∷ lo ∷ tail) 2 0 in
      let e : length head + 1 + 1 ≡ length head + 2 = omega arith in rw (a, e, b)

  pub byte_behind : (i : ℕ) → get_or opening (length head + 1 + 2 + i) 0 ≡ get_or tail i 0
  byte_behind i =
      let e : length head + 1 + 2 + i ≡ length head + suc (suc (suc i)) = omega arith in
      rw e (get_or-append_self head (colon ∷ hi ∷ lo ∷ tail) (suc (suc (suc i))) 0)

  pub length-opening : length opening ≡ length head + 3 + length tail
  length-opening = omega (arith, length-append head (colon ∷ hi ∷ lo ∷ tail))

after_colon-known :
    (b : List ℕ) (c d : ℕ)
    → uint16_at b (c + 1) ≡ d
    → c + d + 4 ≤ length b
    → get_or b (c + 1 + 2 + d) 0 ≡ frame_terminator
    → length_after_colon b c ≡ known (c + d + 4)
unfolding length_after_colon
after_colon-known b c d declared fits ends = rw declared (ground arith)

round_of-front :
    (front rest : List ℕ) → round_of (front ++ rest) (known (length front)) ≡ emit front rest
unfolding round_of
round_of-front front rest =
    ground
      (arith, length-append front rest, take-append_self front rest, drop-append_self front rest)

module _ (head : List ℕ) (hi lo : ℕ) (body : List ℕ) (honest : IsHonest head hi lo body)
    (rest : List ℕ) where
  resolve-honest :
      resolve_frame_length (frame_of head hi lo body ++ rest)
      ≡ known (length (frame_of head hi lo body))
  resolve-honest =
      let tail : List ℕ = body ++ (frame_terminator ∷ rest) in
      let at_end = byte_behind head hi lo tail (length body) in
      let hash = get_or-append_self body (frame_terminator ∷ rest) 0 0 in
      let e : length body + 0 ≡ length body = omega arith in
      rw (frame_of-append head hi lo body rest, length-frame_of head hi lo body)
        (resolve-head head (hi ∷ lo ∷ tail) honest.plain honest.short
          ∙ after_colon-known _ (length head) (length body)
              (declared_at head hi lo tail ∙ honest.declared)
              (omega (
                arith,
                length-opening head hi lo tail,
                length-append body (frame_terminator ∷ rest),
              ))
              (at_end ∙ rw e at hash))

  -- An honest frame at the front of the buffer is cut off exactly, whatever follows.
  pub round-honest : round (frame_of head hi lo body ++ rest) ≡ emit (frame_of head hi lo body) rest
  unfolding round
  round-honest = rw resolve-honest (round_of-front (frame_of head hi lo body) rest)

-- A frame with its layout.
pub record Frame : Type 0 where
  pub head : List ℕ
  pub hi : ℕ
  pub lo : ℕ
  pub body : List ℕ
  pub honest : IsHonest head hi lo body

abbrev pub bytes : Frame → List ℕ
bytes f = frame_of f.head f.hi f.lo f.body

-- Frames sent back to back.
abbrev pub stream : List Frame → List ℕ
stream [] = []
stream (f ∷ fs) = bytes f ++ stream fs

pub bytes-pos : (f : Frame) → 0 < length (bytes f)
bytes-pos f = omega (arith, length-frame_of f.head f.hi f.lo f.body)

pub drain-stream :
    (fs : List Frame) (rest : List ℕ) (fuel : ℕ)
    → length (stream fs ++ rest) < fuel
    → round rest ≡ stop
    → drain fuel (stream fs ++ rest) ≡ (map bytes fs, rest)
drain-stream fs rest zero h idle = elim h [ ]
drain-stream [] rest (suc fuel) h idle = drain-stop fuel rest idle
drain-stream (f ∷ fs) rest (suc fuel) h idle =
    let regroup = append_assoc (bytes f) (stream fs) rest in
    let more =
      drain-stream fs rest fuel
        (omega (
          arith,
          length-append (bytes f) (stream fs ++ rest),
          bytes-pos f,
          ap (length {A = ℕ}) regroup,
        ))
        idle in
    rw (
      regroup,
      drain-emit fuel _ _ _ (round-honest f.head f.hi f.lo f.body f.honest (stream fs ++ rest)),
      more,
    )

-- Frames with an honest Length field that have arrived whole, any bytes in their bodies ('#' and
-- ':' among them), are handed on one by one and unchanged; what follows them stays in the buffer,
-- if nothing can be cut off it and it is within the limit.
pub push-stream :
    (s : Splitter) (chunk : List ℕ) (fs : List Frame) (rest : List ℕ)
    → s.buffer ++ chunk ≡ stream fs ++ rest
    → round rest ≡ stop
    → length rest ≤ s.max_buffer_bytes
    → push s chunk
      ≡ (record { frames = map bytes fs; overflowed = false }, record s { buffer = rest })
unfolding check_overflow
push-stream s chunk fs rest e idle fits =
    let within : ltb s.max_buffer_bytes (length rest) ≡ false = ground arith in
    rw (
      push_lem,
      e,
      drain-stream fs rest (suc (length (stream fs ++ rest))) (omega arith) idle,
      within,
    )
