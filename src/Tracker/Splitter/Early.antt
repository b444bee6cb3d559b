-- ===== src/Tracker/Splitter/Early.antt =====
-- When the chunks do matter: a '#' of the body, arriving before the rest of its frame.
use avt_tracker.Base.{
  length-take, ◌∙◌, append-nil, length-append, refl, sym, ap, length-drop, take, index_of-bound,
  arith, some, drop, index_of, length, uint16_at, ℕ, ◌+◌, ◌≡◌, ◌<◌, List, [], ◌∷◌, ◌++◌,
}
use avt_tracker.Tracker.Splitter.{
  Pushed, drain, stop, resolve_frame_length, emit, push, round_of, Splitter, known, round,
  frame_terminator, colon, fallback_length, length_after_colon,
}
use avt_tracker.Tracker.Splitter.Chunks.{drop_head}
use avt_tracker.Tracker.Splitter.Push.{frames-push, loop_of}
use avt_tracker.Tracker.Splitter.Rounds.{drain-emit}
use avt_tracker.Tracker.Splitter.Whole.{
  length-frame_of, declared_at, push-stream, resolve-head, stream, bytes, length-opening, Frame,
}

-- What has arrived of a frame: all of the head and Length field, and a part `t` of the body.
abbrev pub part_of : Frame → List ℕ → List ℕ
part_of f t = f.head ++ (colon ∷ f.hi ∷ f.lo ∷ t)

-- The length at which the fallback cuts, for a '#' at index `i` behind the first 18 body bytes.
abbrev pub cut_at : Frame → ℕ → ℕ
cut_at f i = length f.head + 21 + i + 1

fallback-found :
    (b : List ℕ) (m i : ℕ)
    → index_of frame_terminator (drop m b) ≡ some i
    → m < length b
    → fallback_length b m ≡ known (m + i + 1)
unfolding fallback_length
fallback-found b m i found long = ground arith

after_colon-early :
    (b : List ℕ) (c d i : ℕ)
    → uint16_at b (c + 1) ≡ d
    → length b < c + d + 4
    → index_of frame_terminator (drop (c + 21) b) ≡ some i
    → c + 21 < length b
    → length_after_colon b c ≡ known (c + 21 + i + 1)
unfolding length_after_colon
after_colon-early b c d i declared short found long =
    let e : c + 1 + 2 + 18 ≡ c + 21 = omega arith in
    rw declared (ground (arith, e, fallback-found b (c + 1 + 2 + 18) i (rw e found)))

idle : round [] ≡ stop
unfolding round round_of resolve_frame_length
idle = refl

module _ (f : Frame) (t r : List ℕ) (i : ℕ) (split : f.body ≡ t ++ r)
    (found : index_of frame_terminator (drop 18 t) ≡ some i) where
  long_part : length f.head + 21 + i < length (part_of f t)
  long_part = omega (
    arith,
    length-opening f.head f.hi f.lo t,
    index_of-bound frame_terminator (drop 18 t) i found,
    length-drop 18 t,
  )

  round-early :
      round (part_of f t) ≡ emit (take (cut_at f i) (part_of f t)) (drop (cut_at f i) (part_of f t))
  unfolding round round_of
  round-early =
      let size = length-opening f.head f.hi f.lo t in
      let whole : length f.body ≡ length t + length r =
        omega (arith, ap (length {A = ℕ}) split, length-append t r) in
      let cut =
        resolve-head f.head (f.hi ∷ f.lo ∷ t) f.honest.plain f.honest.short
        ∙ after_colon-early (part_of f t) (length f.head) (length f.body) i
            (declared_at f.head f.hi f.lo t ∙ f.honest.declared) (omega arith) (rw drop_head found)
            (omega (arith, long_part)) in
      rw cut (ground (arith, long_part))

  -- A frame with an honest Length that holds a '#' behind the first 18 bytes of its body, and a
  -- splitter that holds nothing: pushed in one chunk the frame
  -- comes out whole; if the chunk ends anywhere between that '#' and the frame's own, the first
  -- frame that comes out is cut off at the inner '#' and shorter than the one sent.
  pub push-early :
      (s : Splitter)
      → s.buffer ≡ []
      → ((push s (bytes f)).0.frames ≡ bytes f ∷ [])
        × ((more : List (List ℕ)) × ((push s (part_of f t)).0.frames
              ≡ take (cut_at f i) (part_of f t) ∷ more))
        × (length (take (cut_at f i) (part_of f t)) < length (bytes f))
  push-early s empty =
      let p = part_of f t in
      let n = cut_at f i in
      let whole : s.buffer ++ bytes f ≡ stream (f ∷ []) ++ [] =
        rw empty (sym (append-nil _ ∙ append-nil (bytes f))) in
      let one = push-stream s (bytes f) (f ∷ []) [] whole idle (omega arith) in
      let cut : (loop_of p).0 ≡ take n p ∷ (drain (length p) (drop n p)).0 =
        rw (drain-emit (length p) p (take n p) (drop n p) round-early) refl in
      (
        ap (λ (o : Pushed × Splitter). o.0.frames) one,
        ((drain (length p) (drop n p)).0, frames-push s p ∙ rw empty cut),
        omega (
          arith,
          length-take n p,
          length-opening f.head f.hi f.lo t,
          length-frame_of f.head f.hi f.lo f.body,
          ap (length {A = ℕ}) split,
          length-append t r,
        ),
      )
