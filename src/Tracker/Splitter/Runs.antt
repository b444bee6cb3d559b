-- ===== src/Tracker/Splitter/Runs.antt =====
-- Concrete runs of the splitter, and its theorems at concrete inputs.
use avt_tracker.Base.{take, false, length, ℕ, ◌≡◌, ◌≤◌, ◌<◌, List, [], ◌∷◌, ◌++◌, refl, arith}
use avt_tracker.Tracker.Splitter.{
  check_overflow, fallback_length, length_after_colon, resolve_frame_length, stop, drain, round_of,
  Splitter, push, push_all, round,
}
use avt_tracker.Tracker.Splitter.Early.{push-early, part_of}
use avt_tracker.Tracker.Splitter.Push.{push-Account, push_bound, Account}
use avt_tracker.Tracker.Splitter.Rounds.{drain_settled}
use avt_tracker.Tracker.Splitter.Streams.{push_all-stream}
use avt_tracker.Tracker.Splitter.Whole.{push-stream, Frame, bytes}

abbrev hbd_head : List ℕ
hbd_head = 0x2b ∷ 0x48 ∷ 0x42 ∷ 0x44 ∷ []

-- IMEI 356938035643809, whose first byte is 0x23, device 0x20, version 11.01, a time, serial `n`.
abbrev hbd_body : ℕ → List ℕ
hbd_body n =
    35 ∷ 69 ∷ 38 ∷ 3 ∷ 56 ∷ 43 ∷ 80 ∷ 9 ∷ 0x20 ∷ 0x0b ∷ 0x01 ∷ 7 ∷ 0xea ∷ 7 ∷ 7 ∷ 12 ∷ 34 ∷ 56 ∷ 0
    ∷ n ∷ []

abbrev hbd : ℕ → Frame
hbd n = record {
  head = hbd_head;
  hi = 0;
  lo = 20;
  body = hbd_body n;
  honest = record { plain = refl; short = omega arith; declared = refl };
}

abbrev fresh : Splitter
fresh = record { buffer = []; max_buffer_bytes = 65536 }

empty_idle : round [] ≡ stop
unfolding round round_of resolve_frame_length
empty_idle = refl

two_frames :
    (push fresh (bytes (hbd 1) ++ bytes (hbd 2))).0.frames ≡ bytes (hbd 1) ∷ bytes (hbd 2) ∷ []
unfolding push drain round round_of resolve_frame_length length_after_colon fallback_length
    check_overflow
two_frames = refl

-- No head token in the first eight bytes: bytes up to the next '#' are dropped.
garbage :
    (push fresh (1 ∷ 2 ∷ 3 ∷ 4 ∷ 5 ∷ 6 ∷ 7 ∷ 8 ∷ 0x23 ∷ bytes (hbd 1))).0.frames
    ≡ bytes (hbd 1) ∷ []
unfolding push drain round round_of resolve_frame_length length_after_colon fallback_length
    check_overflow
garbage = refl

push-Account_example : Account fresh (1 ∷ 2 ∷ []) (push fresh (1 ∷ 2 ∷ []))
push-Account_example = push-Account fresh (1 ∷ 2 ∷ [])

push_bound_example : length (push fresh (bytes (hbd 1))).1.buffer ≤ 65536
push_bound_example = push_bound fresh (bytes (hbd 1))

drain_settled_example : round (drain 3 (1 ∷ 2 ∷ [])).1 ≡ stop
drain_settled_example = drain_settled 3 (1 ∷ 2 ∷ []) (omega arith)

push-stream_example :
    push fresh (bytes (hbd 1) ++ bytes (hbd 0x23))
    ≡ (record { frames = bytes (hbd 1) ∷ bytes (hbd 0x23) ∷ []; overflowed = false }, fresh)
push-stream_example =
    push-stream fresh (bytes (hbd 1) ++ bytes (hbd 0x23)) (hbd 1 ∷ hbd 0x23 ∷ []) [] refl empty_idle
      (omega arith)

abbrev pieces : List (List ℕ)
pieces = (hbd_head ++ (0x3a ∷ 0 ∷ [])) ∷ (20 ∷ hbd_body 1) ∷ (0x23 ∷ bytes (hbd 2)) ∷ []

push_all-stream_example : push_all fresh pieces ≡ (bytes (hbd 1) ∷ bytes (hbd 2) ∷ [], fresh)
push_all-stream_example =
    push_all-stream fresh pieces (hbd 1 ∷ hbd 2 ∷ [])
      ((refl, omega arith), ((refl, omega arith), tt)) (0x2b, _, refl) refl

-- A heartbeat with serial number 0x0023, whose own '#' has not arrived yet.
push-early_example :
    ((push fresh (bytes (hbd 0x23))).0.frames ≡ bytes (hbd 0x23) ∷ [])
    × ((more : List (List ℕ)) × ((push fresh (part_of (hbd 0x23) (hbd_body 0x23))).0.frames
          ≡ take 27 (part_of (hbd 0x23) (hbd_body 0x23)) ∷ more))
    × (length (take 27 (part_of (hbd 0x23) (hbd_body 0x23))) < length (bytes (hbd 0x23)))
push-early_example = push-early (hbd 0x23) (hbd_body 0x23) [] 1 refl refl fresh refl
