-- ===== src/Tracker/Splitter/Streams.antt =====
-- A stream of frames cut into chunks at any places.
use avt_tracker.Base.{
  sym, inr, ◌∙◌, append_assoc, ltb, false, length-append, ap, inl, refl, arith, length, All, map, ℕ,
  zero, suc, ◌≡◌, ◌≤◌, ◌<◌, List, [], ◌∷◌, ◌++◌,
}
use avt_tracker.Tracker.Splitter.{
  push, push_all, resolve_frame_length, round_of, round, Splitter, check_overflow, drain,
}
use avt_tracker.Tracker.Splitter.Chunks.{round-part, prefix_split, IsQuiet}
use avt_tracker.Tracker.Splitter.Push.{push_lem, loop_of}
use avt_tracker.Tracker.Splitter.Rounds.{drain-stop, drain-emit}
use avt_tracker.Tracker.Splitter.Whole.{round-honest, bytes-pos, stream, bytes, Frame}
use mathlib.Core.List.{map-append}

-- A frame for which the chunks cannot matter: no '#' before the real one where it would be looked
-- for, and no longer than the limit of the buffer.
abbrev pub IsEasy : ℕ → Frame → Type 0
IsEasy limit f = IsQuiet f × (length (bytes f) ≤ limit)

-- What is held is nothing, or a part of the next frame that is not all of it.
abbrev pub IsOpen : List ℕ → List Frame → Type 0
IsOpen left [] = left ≡ []
IsOpen left (f ∷ fs) = (y : ℕ) × (r : List ℕ) × (left ++ (y ∷ r) ≡ bytes f)

record Drained (limit : ℕ) (fs : List Frame) (q : List ℕ) (out : List (List ℕ) × List ℕ)
    : Type 0 where
  arrived : List Frame
  coming : List Frame
  all_frames : fs ≡ arrived ++ coming
  emitted : out.0 ≡ map bytes arrived
  resumes : out.1 ++ q ≡ stream coming
  partial : IsOpen out.1 coming
  easy : All (IsEasy limit) coming

drain-empty : (fuel : ℕ) → drain (suc fuel) [] ≡ ([], [])
unfolding drain round round_of resolve_frame_length
drain-empty fuel = refl

drain-Drained :
    (limit : ℕ) (fs : List Frame) (p q : List ℕ) (fuel : ℕ)
    → All (IsEasy limit) fs
    → p ++ q ≡ stream fs
    → length p < fuel
    → Drained limit fs q (drain fuel p)
drain-Drained limit fs p q zero easy e h = elim h [ ]
drain-Drained limit [] [] q (suc fuel) easy e h = rw drain-empty (record {
  arrived = [];
  coming = [];
  all_frames = refl;
  emitted = refl;
  resumes = e;
  partial = refl;
  easy = tt;
})
drain-Drained limit [] (x ∷ p) q (suc fuel) easy e h = cc
drain-Drained limit (f ∷ fs) p q (suc fuel) (ef, efs) e h =
    elim (prefix_split p q (bytes f) (stream fs) e) [
      | inl (r, a, b) ↦
          let d =
            drain-Drained limit fs r q fuel efs b
              (omega (arith, ap (length {A = ℕ}) a, length-append (bytes f) r, bytes-pos f)) in
          rw (a, drain-emit fuel _ _ _ (round-honest f.head f.hi f.lo f.body f.honest r))
            (record {
              arrived = f ∷ d.arrived;
              coming = d.coming;
              all_frames = ap (λ t. f ∷ t) d.all_frames;
              emitted = ap (λ t. bytes f ∷ t) d.emitted;
              resumes = d.resumes;
              partial = d.partial;
              easy = d.easy;
            })
      | inr (y, r, a, b) ↦ rw (drain-stop fuel p (round-part f p y r ef.0 (sym a))) (record {
        arrived = [];
        coming = f ∷ fs;
        all_frames = refl;
        emitted = refl;
        resumes = e;
        partial = (y, r, sym a);
        easy = (ef, efs);
      })
    ]

open_short :
    (limit : ℕ) (left : List ℕ) (fs : List Frame)
    → IsOpen left fs
    → All (IsEasy limit) fs
    → length left ≤ limit
open_short limit left [] o easy = omega (arith, ap (length {A = ℕ}) o)
open_short limit left (f ∷ fs) (y, r, e) ((quiet, fits), easy) =
    omega (arith, ap (length {A = ℕ}) e, length-append left (y ∷ r))

-- One push, in the middle of a stream.
push-Drained :
    (s : Splitter) (chunk q : List ℕ) (fs : List Frame)
    → All (IsEasy s.max_buffer_bytes) fs
    → (s.buffer ++ chunk) ++ q ≡ stream fs
    → (d : Drained s.max_buffer_bytes fs q (loop_of (s.buffer ++ chunk))) × (push s chunk ≡ (
      record { frames = map bytes d.arrived; overflowed = false },
      record s { buffer = (loop_of (s.buffer ++ chunk)).1 },
    ))
unfolding check_overflow
push-Drained s chunk q fs easy e =
    let d =
      drain-Drained s.max_buffer_bytes fs (s.buffer ++ chunk) q (suc (length (s.buffer ++ chunk)))
        easy e (omega arith) in
    let fits = open_short s.max_buffer_bytes _ d.coming d.partial d.easy in
    let within : ltb s.max_buffer_bytes (length (loop_of (s.buffer ++ chunk)).1) ≡ false =
      ground arith in
    (d, rw (push_lem, within) (rw d.emitted refl))

abbrev pub joined_chunks : List (List ℕ) → List ℕ
joined_chunks [] = []
joined_chunks (c ∷ cs) = c ++ joined_chunks cs

push_all-step :
    (s t : Splitter) (c : List ℕ) (cs : List (List ℕ)) (frames : List (List ℕ))
    → push s c ≡ (record { frames = frames; overflowed = false }, t)
    → push_all s (c ∷ cs) ≡ (frames ++ (push_all t cs).0, (push_all t cs).1)
unfolding push_all
push_all-step s t c cs frames e = rw e

-- Take frames with an honest Length, none longer than the limit and none with a '#' in its body
-- behind the first 18 bytes, and a splitter that holds nothing or a proper part of the first. The
-- frames are handed on whole and in order, however the network cuts the rest of the stream into
-- chunks, and nothing stays behind.
pub push_all-stream :
    (s : Splitter) (chunks : List (List ℕ)) (fs : List Frame)
    → All (IsEasy s.max_buffer_bytes) fs
    → IsOpen s.buffer fs
    → s.buffer ++ joined_chunks chunks ≡ stream fs
    → push_all s chunks ≡ (map bytes fs, record s { buffer = [] })
push_all-stream s [] [] easy o e =
    unfold push_all in ap (λ (t : List ℕ). ([], record s { buffer = t })) o
push_all-stream s [] (f ∷ fs) easy (y, r, o) e = absurd (
    omega (
      arith,
      ap (length {A = ℕ}) o,
      ap (length {A = ℕ}) e,
      length-append s.buffer (y ∷ r),
      length-append s.buffer [],
      length-append (bytes f) (stream fs),
    ))
push_all-stream s (c ∷ cs) fs easy o e =
    let (d, one) = push-Drained s c (joined_chunks cs) fs easy (append_assoc s.buffer c _ ∙ e) in
    let left : List ℕ = (loop_of (s.buffer ++ c)).1 in
    let rest =
      push_all-stream (record s { buffer = left }) cs d.coming d.easy d.partial d.resumes in
    push_all-step s (record s { buffer = left }) c cs _ one
    ∙ rw rest (rw (d.all_frames, map-append) refl)
