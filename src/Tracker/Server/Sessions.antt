-- ===== src/Tracker/Server/Sessions.antt =====
-- What a device that sends frames of the fixture's layout is answered, from its bytes on.
use avt_tracker.Base.{
  Option, ◌∙◌, append_assoc, ap, sym, Bool, ◌%◌, length-append, ◌/◌, ℕ, List, [], ◌∷◌, ◌++◌, none,
  ◌≡◌, ◌+◌, arith, refl, length, map, index_of, ◌≤◌, drop, All,
}
use avt_tracker.Base.Picks.{count_if-append, count_if}
use avt_tracker.Base.Text.{hex_text}
use avt_tracker.Tracker.Ascii.{Doubles}
use avt_tracker.Tracker.Codec.Imei.{length-encode_imei, encode_imei}
use avt_tracker.Tracker.Cursor.Reads.{length-be_bytes, be_bytes}
use avt_tracker.Tracker.Kinds.{resolve_kind}
use avt_tracker.Tracker.Parser.Layout.{token_of}
use avt_tracker.Tracker.Parser.RoundTrip.{
  parse_frame-build_frame, FrameOptions, IsBuildable, build_frame, encode_g_time,
}
use avt_tracker.Tracker.Server.{
  Result, handle_frames, parse_frame, push, Splitter, Connection, Server, receive, Peer,
}
use avt_tracker.Tracker.Server.Answers.{EndAll}
use avt_tracker.Tracker.Server.Endings.{written-save_all, saving-save_all, save_all}
use avt_tracker.Tracker.Server.Replies.{
  answered-frames, reply_to, answered, replies_to, reply_to_kind, Reply,
}
use avt_tracker.Tracker.Splitter.{push_all}
use avt_tracker.Tracker.Splitter.Streams.{push_all-stream, IsOpen, joined_chunks, IsEasy}
use avt_tracker.Tracker.Splitter.Whole.{frame_of, Frame, bytes, stream}

-- What the Length counts.
abbrev pub body_of : FrameOptions → List ℕ
body_of o =
    encode_imei o.imei
    ++ (((o.device_id % 256) ∷ [])
        ++ (o.data_zone ++ (encode_g_time o.generated_at ++ be_bytes 2 o.serial_number)))

-- A frame that can be built, with an honest Length, without a '#' behind the first 18 bytes of its
-- body, and no longer than the limit.
pub record IsSendable (limit : ℕ) (o : FrameOptions) : Type 0 where
  pub buildable : IsBuildable o
  pub honest : o.declared ≡ length o.data_zone + 18
  pub quiet : index_of 0x23 (drop 18 (body_of o)) ≡ none
  pub fits : length (build_frame o) ≤ limit

length-body_of : (o : FrameOptions) → IsBuildable o → length (body_of o) ≡ length o.data_zone + 18
length-body_of o b = omega (
  arith,
  length-append (encode_imei o.imei) (
      ((o.device_id % 256) ∷ [])
      ++ (o.data_zone ++ (encode_g_time o.generated_at ++ be_bytes 2 o.serial_number))),
  length-append o.data_zone (encode_g_time o.generated_at ++ be_bytes 2 o.serial_number),
  length-encode_imei 7 o.imei b.imei_size,
  length-be_bytes 2 o.serial_number,
)

frame_from : (limit : ℕ) (o : FrameOptions) → IsSendable limit o → Frame
frame_from limit o h = record {
  head = o.head;
  hi = o.declared / 256 % 256;
  lo = o.declared % 256;
  body = body_of o;
  honest = record {
    plain = h.buildable.plain;
    short = h.buildable.short;
    declared =
        let fits = h.buildable.declared_fits in
        omega (arith, length-body_of o h.buildable, h.honest);
  };
}

bytes-frame_from :
    (limit : ℕ) (o : FrameOptions) (h : IsSendable limit o)
    → bytes (frame_from limit o h) ≡ build_frame o
unfolding be_bytes frame_from
bytes-frame_from limit o h = refl

-- Frames sent back to back.
abbrev pub built : List FrameOptions → List ℕ
built [] = []
built (o ∷ os) = build_frame o ++ built os

frames_from : (limit : ℕ) (os : List FrameOptions) → All (IsSendable limit) os → List Frame
frames_from limit [] h = []
frames_from limit (o ∷ os) (h, hs) = frame_from limit o h ∷ frames_from limit os hs

stream-frames_from :
    (limit : ℕ) (os : List FrameOptions) (h : All (IsSendable limit) os)
    → (stream (frames_from limit os h) ≡ built os)
      × (map bytes (frames_from limit os h) ≡ map build_frame os)
      × All (IsEasy limit) (frames_from limit os h)
unfolding frames_from
stream-frames_from limit [] h = (refl, refl, tt)
stream-frames_from limit (o ∷ os) (h, hs) =
    let (whole, each, easy) = stream-frames_from limit os hs in
    let same = bytes-frame_from limit o h in
    (
      rw (same, whole) refl,
      rw (same, each) refl,
      ((unfold frame_from in h.quiet, rw same h.fits), easy),
    )

frames_from-IsOpen :
    (limit : ℕ) (os : List FrameOptions) (h : All (IsSendable limit) os)
    → IsOpen [] (frames_from limit os h)
unfolding frames_from
frames_from-IsOpen limit [] h = refl
frames_from-IsOpen limit (o ∷ os) (h, hs) = starts (frame_from limit o h)
  where
    starts : (f : Frame) → (y : ℕ) × (r : List ℕ) × ((y ∷ r) ≡ bytes f)
    starts f = from_head f.head f.hi f.lo f.body
      where
        from_head :
            (head : List ℕ) (hi lo : ℕ) (body : List ℕ)
            → (y : ℕ) × (r : List ℕ) × ((y ∷ r) ≡ frame_of head hi lo body)
        from_head [] hi lo body = (_, _, refl)
        from_head (c ∷ head) hi lo body = (_, _, refl)

-- The chunks of data, with the times of their arrival.
abbrev pub chunks_of : List (ℕ × List ℕ) → List (List ℕ)
chunks_of [] = []
chunks_of ((now, chunk) ∷ arrivals) = chunk ∷ chunks_of arrivals

push_all-frames :
    (limit : ℕ) (chunks : List (List ℕ)) (os : List FrameOptions)
    → All (IsSendable limit) os
    → joined_chunks chunks ≡ built os
    → (push_all (record { buffer = []; max_buffer_bytes = limit }) chunks).0 ≡ map build_frame os
push_all-frames limit chunks os h e =
    let (whole, each, easy) = stream-frames_from limit os h in
    ap (λ (out : List (List ℕ) × Splitter). out.0)
      (push_all-stream (record { buffer = []; max_buffer_bytes = limit }) chunks
        (frames_from limit os h) easy (frames_from-IsOpen limit os h) (e ∙ sym whole))
    ∙ each

-- The reply that a frame asks for, from what it was built from.
abbrev pub asked_for : ℕ → List FrameOptions → List Reply
asked_for socket [] = []
asked_for socket (o ∷ os) =
    reply_to_kind socket (hex_text (be_bytes 2 o.serial_number)) (resolve_kind (token_of o.head))
    ++ asked_for socket os

-- The peer of a new connection.
abbrev pub fresh_peer : ℕ → Connection → Peer
fresh_peer limit c = record {
  connection = c;
  splitter = record { buffer = []; max_buffer_bytes = limit };
}

module _ (js : Doubles) (Saved Failure : Type 0) where
  replies_to-built :
      (limit socket : ℕ) (os : List FrameOptions)
      → All (IsSendable limit) os
      → replies_to js Saved Failure socket (map build_frame os) ≡ asked_for socket os
  unfolding replies_to
  replies_to-built limit socket [] h = refl
  replies_to-built limit socket (o ∷ os) (h, hs) =
      rw (parse_frame-build_frame js o h.buildable, replies_to-built limit socket os hs) refl

  replies_to-append :
      (socket : ℕ) (xs ys : List (List ℕ))
      → replies_to js Saved Failure socket (xs ++ ys)
        ≡ replies_to js Saved Failure socket xs ++ replies_to js Saved Failure socket ys
  unfolding replies_to
  replies_to-append socket [] ys = refl
  replies_to-append socket (x ∷ xs) ys = rw (replies_to-append socket xs ys) (
      sym (
        append_assoc (reply_to js Saved Failure socket (parse_frame js x))
          (replies_to js Saved Failure socket xs) (replies_to js Saved Failure socket ys)))

  -- The handler of `data`, called for one chunk after the other.
  unfoldable pub receive_all :
      List (ℕ × List ℕ) → Peer × Server js Saved Failure → Peer × Server js Saved Failure
  receive_all [] state = state
  receive_all ((now, chunk) ∷ arrivals) state =
      receive_all arrivals (receive js Saved Failure now chunk state)

  module _ (test : Reply → Bool) where
    answered-receive_all :
        (arrivals : List (ℕ × List ℕ)) (c : Connection) (splitter : Splitter)
        (s : Server js Saved Failure)
        → answered js Saved Failure test
            (receive_all arrivals (record { connection = c; splitter = splitter }, s)).1
          ≡ answered js Saved Failure test s
            + count_if test
                (replies_to js Saved Failure c.socket (push_all splitter (chunks_of arrivals)).0)
    unfolding receive_all receive push_all replies_to
    answered-receive_all [] c splitter s = unfold count_if in omega arith
    answered-receive_all ((now, chunk) ∷ arrivals) c splitter s =
        let pushed = push splitter chunk in
        let (same, first) = answered-frames js Saved Failure test now pushed.0.frames c s in
        let next = handle_frames js Saved Failure now pushed.0.frames (c, s) in
        let rest = answered-receive_all arrivals next.0 pushed.1 next.1 in
        rest
        ∙ rw
            (
              same,
              first,
              replies_to-append c.socket pushed.0.frames (push_all pushed.1 (chunks_of arrivals)).0,
            )
            (omega (
              arith,
              count_if-append test (replies_to js Saved Failure c.socket pushed.0.frames)
                  (replies_to js Saved Failure c.socket (push_all pushed.1 (chunks_of arrivals)).0),
            ))

  -- A device sends frames of the fixture's layout back to back on a new connection, each with an
  -- honest Length, no longer than the limit, and without a '#' in its body behind the first 18
  -- bytes; the network cuts them into chunks anywhere. Then the saves that are left end, with a row,
  -- without one or with a failure, in any order. No save is left then, and the server has written
  -- to the connection's socket, for each report, a +SACK of its serial number and, for each
  -- heartbeat, a +SHBD of its serial number, each exactly once, and beside them only the replies
  -- that were written or waiting before.
  pub answered-session :
      (arrivals : List (ℕ × List ℕ)) (os : List FrameOptions) (limit : ℕ) (c : Connection)
      (s : Server js Saved Failure) (list : List (ℕ × Result Failure (Option Saved)))
      → All (IsSendable limit) os
      → joined_chunks (chunks_of arrivals) ≡ built os
      → EndAll js Saved Failure
          (length (receive_all arrivals (fresh_peer limit c, s)).1.saving)
          list
      → let s' = save_all js Saved Failure list (receive_all arrivals (fresh_peer limit c, s)).1 in
        (s'.saving ≡ [])
        × ((test : Reply → Bool)
            → count_if test s'.written
              ≡ answered js Saved Failure test s + count_if test (asked_for c.socket os))
  answered-session arrivals os limit c s list h e all =
      let last = (receive_all arrivals (fresh_peer limit c, s)).1 in
      let empty = saving-save_all js Saved Failure list (length last.saving) last all refl in
      (
        empty,
        λ test.
            written-save_all js Saved Failure test list last empty
            ∙ answered-receive_all test arrivals c
                (record { buffer = []; max_buffer_bytes = limit }) s
            ∙ rw
                (
                  push_all-frames limit (chunks_of arrivals) os h e,
                  replies_to-built limit c.socket os h,
                )
                refl,
      )
