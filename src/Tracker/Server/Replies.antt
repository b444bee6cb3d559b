-- ===== src/Tracker/Server/Replies.antt =====
-- Which replies the server owes for what it receives, and that it writes exactly those.
use avt_tracker.Base.{
  none, inr, inl, Option, some, ◌∙◌, ℕ, List, [], ◌∷◌, ◌++◌, Bool, ◌≡◌, ◌+◌, arith, refl,
}
use avt_tracker.Base.Exec.{Result, ok, err}
use avt_tracker.Base.Picks.{there, count_if-append, here, Picks, count_if, pick-cases}
use avt_tracker.Base.Text.{Text}
use avt_tracker.Tracker.Ascii.{Doubles}
use avt_tracker.Tracker.Connections.{Service, Connection, register_device}
use avt_tracker.Tracker.Kinds.{TrackerFrameKind, rpt, rpt_historical, hbd}
use avt_tracker.Tracker.Parser.{ParsedTrackerFrame, parse_frame}
use avt_tracker.Tracker.Server.{
  emit_received, finish_save, saved, handle_frame, handle_parsed, handle_frames, touch, handle_kind,
  handle_report_frame, write_frame, Server, shbd, Error, sack, Save,
}

abbrev pub Reply : Type 0
Reply = ℕ × Text

-- A report is answered with its serial number once its save has ended, a heartbeat at once.
abbrev pub reply_to_kind : ℕ → Text → TrackerFrameKind → List Reply
reply_to_kind socket serial_number_hex rpt = (socket, sack serial_number_hex) ∷ []
reply_to_kind socket serial_number_hex rpt_historical = (socket, sack serial_number_hex) ∷ []
reply_to_kind socket serial_number_hex hbd = (socket, shbd serial_number_hex) ∷ []
reply_to_kind socket serial_number_hex kind = []

socket-register_device :
    (c : Connection) (imei : Text) (now : ℕ) (s : Service)
    → (register_device c imei now s).0.socket ≡ c.socket
unfolding register_device
socket-register_device c imei now s = ground arith

module _ (js : Doubles) (Saved Failure : Type 0) where
  -- What does not parse has no reply.
  abbrev pub reply_to : ℕ → Result Error (ParsedTrackerFrame js) → List Reply
  reply_to socket (err e) = []
  reply_to socket (ok parsed) =
      reply_to_kind socket parsed.header.serial_number_hex parsed.header.kind

  unfoldable pub replies_to : ℕ → List (List ℕ) → List Reply
  replies_to socket [] = []
  replies_to socket (frame ∷ frames) =
      reply_to socket (parse_frame js frame) ++ replies_to socket frames

  -- The replies to the saves that have not ended.
  unfoldable pub waiting : List (Save js Saved Failure) → List Reply
  waiting [] = []
  waiting (save ∷ saves) = (save.socket, sack save.parsed.header.serial_number_hex) ∷ waiting saves

  -- What passes the test of the replies that are written or wait for a save.
  abbrev pub answered : (Reply → Bool) → Server js Saved Failure → ℕ
  answered test s = count_if test s.written + count_if test (waiting s.saving)

  pub waiting-append :
      (xs ys : List (Save js Saved Failure)) → waiting (xs ++ ys) ≡ waiting xs ++ waiting ys
  unfolding waiting
  waiting-append [] ys = refl
  waiting-append (x ∷ xs) ys = rw (waiting-append xs ys) refl

  saving-emit_received :
      (outcome : Result Failure (Option Saved)) (save : Save js Saved Failure)
      (s : Server js Saved Failure)
      → (emit_received js Saved Failure save outcome s).saving ≡ s.saving
  saving-emit_received (err failure) save s = refl
  saving-emit_received (ok none) save s = refl
  saving-emit_received (ok (some row)) save s = refl

  module _ (test : Reply → Bool) where
    answered-write :
        (socket : ℕ) (text : Text) (s : Server js Saved Failure)
        → answered test (write_frame js Saved Failure socket text s)
          ≡ answered test s + count_if test ((socket, text) ∷ [])
    answered-write socket text s =
        omega (arith, count_if-append test s.written ((socket, text) ∷ []))

    answered-report :
        (socket : ℕ) (parsed : ParsedTrackerFrame js) (imei : Text) (s : Server js Saved Failure)
        → answered test (handle_report_frame js Saved Failure socket parsed imei s)
          ≡ answered test s + count_if test ((socket, sack parsed.header.serial_number_hex) ∷ [])
    unfolding waiting
    answered-report socket parsed imei s =
        let save : Save js Saved Failure = record {
          socket = socket;
          imei = imei;
          parsed = parsed;
        } in
        rw (waiting-append s.saving (save ∷ [])) (
          omega (
            arith,
            count_if-append test (waiting s.saving)
                ((socket, sack parsed.header.serial_number_hex) ∷ []),
          ))

    answered-kind :
        (socket now : ℕ) (parsed : ParsedTrackerFrame js) (kind : TrackerFrameKind)
        (s : Server js Saved Failure)
        → answered test (handle_kind js Saved Failure socket now parsed kind s)
          ≡ answered test s
            + count_if test (reply_to_kind socket parsed.header.serial_number_hex kind)
    answered-kind socket now parsed rpt s = answered-report socket parsed parsed.header.imei s
    answered-kind socket now parsed rpt_historical s =
        answered-report socket parsed parsed.header.imei s
    answered-kind socket now parsed hbd s =
        answered-write socket (shbd parsed.header.serial_number_hex) (record s {
          service = record s.service { registry = touch parsed.header.imei now s.service.registry };
        })
    answered-kind socket now parsed kind s = unfold count_if in omega arith

    answered-parsed :
        (now : ℕ) (result : Result Error (ParsedTrackerFrame js)) (c : Connection)
        (s : Server js Saved Failure)
        → ((handle_parsed js Saved Failure now result (c, s)).0.socket ≡ c.socket)
          × (answered test (handle_parsed js Saved Failure now result (c, s)).1
              ≡ answered test s + count_if test (reply_to c.socket result))
    answered-parsed now (err e) c s = (refl, unfold count_if in omega arith)
    answered-parsed now (ok parsed) c s = (
      socket-register_device c parsed.header.imei now s.service,
      answered-kind c.socket now parsed parsed.header.kind
          (record s { service = (register_device c parsed.header.imei now s.service).1 }),
    )

    pub answered-frames :
        (now : ℕ) (frames : List (List ℕ)) (c : Connection) (s : Server js Saved Failure)
        → ((handle_frames js Saved Failure now frames (c, s)).0.socket ≡ c.socket)
          × (answered test (handle_frames js Saved Failure now frames (c, s)).1
              ≡ answered test s + count_if test (replies_to c.socket frames))
    unfolding handle_frames handle_frame replies_to
    answered-frames now [] c s = (refl, unfold count_if in omega arith)
    answered-frames now (frame ∷ frames) c s =
        let result = parse_frame js frame in
        let next = handle_parsed js Saved Failure now result (c, s) in
        let (same, first) = answered-parsed now result c s in
        let (same', rest) = answered-frames now frames next.0 next.1 in
        (
          same' ∙ same,
          rest
              ∙ rw (same, first)
                  (omega (
                    arith,
                    count_if-append test (reply_to c.socket result) (replies_to c.socket frames),
                  )),
        )

    answered-emit_received :
        (outcome : Result Failure (Option Saved)) (save : Save js Saved Failure)
        (s : Server js Saved Failure) (replies : List Reply)
        → answered test (emit_received js Saved Failure save outcome s) + count_if test replies
          ≡ answered test s + count_if test replies
    answered-emit_received (err failure) save s replies = refl
    answered-emit_received (ok none) save s replies = refl
    answered-emit_received (ok (some row)) save s replies = refl

    waiting-Picks :
        (saves others : List (Save js Saved Failure)) (save : Save js Saved Failure)
        → Picks saves save others
        → count_if test (waiting saves)
          ≡ count_if test ((save.socket, sack save.parsed.header.serial_number_hex) ∷ [])
            + count_if test (waiting others)
    unfolding waiting count_if
    waiting-Picks _ _ save (here _ others) = omega arith
    waiting-Picks _ _ save (there x _ saves others p) =
        omega (arith, waiting-Picks saves others save p)

    pub answered-finish_save :
        (outcome : Result Failure (Option Saved)) (s : Server js Saved Failure)
        (save : Save js Saved Failure) (others : List (Save js Saved Failure))
        → Picks s.saving save others
        → ((finish_save js Saved Failure outcome (some (save, others)) s).saving ≡ others)
          × (answered test (finish_save js Saved Failure outcome (some (save, others)) s)
              ≡ answered test s)
    answered-finish_save outcome s save others p =
        let reply : Reply = (save.socket, sack save.parsed.header.serial_number_hex) in
        let emitted : Server js Saved Failure = record s { saving = others } in
        (
          saving-emit_received outcome save emitted,
          answered-write save.socket (sack save.parsed.header.serial_number_hex)
                (emit_received js Saved Failure save outcome emitted)
              ∙ answered-emit_received outcome save emitted (reply ∷ [])
              ∙ omega (arith, waiting-Picks s.saving others save p),
        )

    pub answered-saved :
        (n : ℕ) (outcome : Result Failure (Option Saved)) (s : Server js Saved Failure)
        → answered test (saved js Saved Failure n outcome s) ≡ answered test s
    unfolding saved
    answered-saved n outcome s = elim (pick-cases n s.saving) [
      | inl absent ↦ rw absent refl
      | inr (save, others, found, p) ↦ rw found ((answered-finish_save outcome s save others p).1)
    ]
