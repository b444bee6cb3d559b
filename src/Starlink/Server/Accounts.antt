-- ===== src/Starlink/Server/Accounts.antt =====
-- What becomes of each report that arrives, over any sequence of events.
use avt_tracker.Base.{
  ℕ, List, [], ◌∷◌, ◌++◌, Option, none, some, Bool, ◌≡◌, ◌+◌, refl, arith, inl, inr, Option-cases,
}
use avt_tracker.Base.Exec.{Result, ok, err}
use avt_tracker.Base.Picks.{there, here, pick, Picks, pick-cases, count_if, count_if-append}
use avt_tracker.Base.Text.{Text}
use avt_tracker.Starlink.Codec.{Floats}
use avt_tracker.Starlink.Payload.{ParsedStarlinkFrame}
use avt_tracker.Starlink.Server.{Peer, StarlinkServer, Save, receive, closed, closed_as}
use avt_tracker.Starlink.Server.Loop.{
  socket_closed, accepted, data_arrived, save_ended, World, Event, step, run, end_save,
}
use avt_tracker.Starlink.Server.Rounds.{saves_of_lines, handle_lines-IsRound}
use avt_tracker.Starlink.Splitter.{Utf8, push_chunk}

module _ (utf8 : Utf8) (js : Floats) (Saved Failure : Type 0) where
  -- The reports that were announced to the rest of the service.
  unfoldable pub announced_of :
      List (Text × ParsedStarlinkFrame js × Saved) → List (Save utf8 js Saved Failure)
  announced_of [] = []
  announced_of ((device_id, parsed, saved) ∷ received) =
      record { device_id = device_id; parsed = parsed } ∷ announced_of received

  abbrev pub arrived_at :
      List ℕ
      → Option Peer
      → StarlinkServer utf8 js Saved Failure
      → List (Save utf8 js Saved Failure)
  arrived_at chunk none s = []
  arrived_at chunk (some p) s =
      saves_of_lines utf8 js Saved Failure s.report_format_tags
        (push_chunk utf8 p.splitter chunk).0.lines

  -- A save that ends with a failure, or without a row.
  abbrev pub dropped_by :
      Result Failure (Option Saved)
      → Option (Save utf8 js Saved Failure × List (Save utf8 js Saved Failure))
      → List (Save utf8 js Saved Failure)
  dropped_by outcome none = []
  dropped_by (err failure) (some (save, others)) = save ∷ []
  dropped_by (ok none) (some (save, others)) = save ∷ []
  dropped_by (ok (some row)) (some (save, others)) = []

  abbrev pub arrived_in :
      Event utf8 js Saved Failure → World utf8 js Saved Failure → List (Save utf8 js Saved Failure)
  arrived_in (data_arrived now socket chunk) w = arrived_at chunk (w.peers socket) w.server
  arrived_in event w = []

  abbrev pub dropped_in :
      Event utf8 js Saved Failure → World utf8 js Saved Failure → List (Save utf8 js Saved Failure)
  dropped_in (save_ended n outcome) w = dropped_by outcome (pick n w.server.saving)
  dropped_in event w = []

  -- The reports among the lines that arrive.
  unfoldable pub arrived :
      List (Event utf8 js Saved Failure)
      → World utf8 js Saved Failure
      → List (Save utf8 js Saved Failure)
  arrived [] w = []
  arrived (event ∷ events) w =
      arrived_in event w ++ arrived events (step utf8 js Saved Failure event w)

  -- The reports whose save ends with a failure, or without a row.
  unfoldable pub dropped :
      List (Event utf8 js Saved Failure)
      → World utf8 js Saved Failure
      → List (Save utf8 js Saved Failure)
  dropped [] w = []
  dropped (event ∷ events) w =
      dropped_in event w ++ dropped events (step utf8 js Saved Failure event w)

  -- What passes the test of the reports that are being saved or were announced.
  abbrev pub accounted :
      (Save utf8 js Saved Failure → Bool) → StarlinkServer utf8 js Saved Failure → ℕ
  accounted test s = count_if test s.saving + count_if test (announced_of s.received)

  announced_of-append :
      (xs ys : List (Text × ParsedStarlinkFrame js × Saved))
      → announced_of (xs ++ ys) ≡ announced_of xs ++ announced_of ys
  unfolding announced_of
  announced_of-append [] ys = refl
  announced_of-append ((device_id, parsed, saved) ∷ xs) ys = rw (announced_of-append xs ys) refl

  module _ (test : Save utf8 js Saved Failure → Bool) where
    count_if-Picks :
        (xs ys : List (Save utf8 js Saved Failure)) (x : Save utf8 js Saved Failure)
        → Picks xs x ys
        → count_if test xs ≡ count_if test (x ∷ []) + count_if test ys
    unfolding count_if
    count_if-Picks _ _ x (here _ ys) = omega arith
    count_if-Picks _ _ x (there y _ xs ys p) = omega (arith, count_if-Picks xs ys x p)

    accounted-emit :
        (outcome : Result Failure (Option Saved)) (save : Save utf8 js Saved Failure)
        (others : List (Save utf8 js Saved Failure)) (s : StarlinkServer utf8 js Saved Failure)
        → Picks s.saving save others
        → accounted test (end_save utf8 js Saved Failure outcome (some (save, others)) s)
            + count_if test (dropped_by outcome (some (save, others)))
          ≡ accounted test s
    accounted-emit (err failure) save others s p =
        omega (arith, count_if-Picks s.saving others save p)
    accounted-emit (ok none) save others s p = omega (arith, count_if-Picks s.saving others save p)
    accounted-emit (ok (some row)) save others s p =
        rw (announced_of-append s.received ((save.device_id, save.parsed, row) ∷ [])) (
          unfold announced_of count_if in
          omega (
            arith,
            count_if-Picks s.saving others save p,
            count_if-append test (announced_of s.received) (save ∷ []),
          ))

    accounted-closed :
        (device_id : Option Text) (p : Peer) (s : StarlinkServer utf8 js Saved Failure)
        → accounted test (closed_as utf8 js Saved Failure device_id p s) ≡ accounted test s
    accounted-closed none p s = refl
    accounted-closed (some []) p s = refl
    accounted-closed (some (d ∷ ds)) p s = refl

    accounted-receive :
        (now : ℕ) (chunk : List ℕ) (p : Peer) (s : StarlinkServer utf8 js Saved Failure)
        → accounted test (receive utf8 js Saved Failure now chunk (p, s)).1
          ≡ accounted test s + count_if test (arrived_at chunk (some p) s)
    unfolding receive
    accounted-receive now chunk p s =
        let pushed = push_chunk utf8 p.splitter chunk in
        let q : Peer = record p { splitter = pushed.1 } in
        let round = handle_lines-IsRound utf8 js Saved Failure now pushed.0.lines q s in
        rw (round.more_saves, round.same_received)
          (omega (
            arith,
            count_if-append test s.saving
                (saves_of_lines utf8 js Saved Failure s.report_format_tags pushed.0.lines),
          ))

    accounted-step :
        (event : Event utf8 js Saved Failure) (w : World utf8 js Saved Failure)
        → accounted test (step utf8 js Saved Failure event w).server
            + count_if test (dropped_in event w)
          ≡ accounted test w.server + count_if test (arrived_in event w)
    unfolding step closed
    accounted-step (accepted socket address port) w = refl
    accounted-step (data_arrived now socket chunk) w = elim (Option-cases (w.peers socket)) [
      | inl absent ↦ rw absent refl
      | inr (p, present) ↦
          rw present (unfold count_if in omega (arith, accounted-receive now chunk p w.server))
    ]
    accounted-step (socket_closed socket) w = elim (Option-cases (w.peers socket)) [
      | inl absent ↦ rw absent refl
      | inr (p, present) ↦
          rw present (unfold count_if in omega (arith, accounted-closed p.device_id p w.server))
    ]
    accounted-step (save_ended n outcome) w = elim (pick-cases n w.server.saving) [
      | inl absent ↦ rw absent refl
      | inr (save, others, found, p) ↦
          rw found (unfold count_if in omega (arith, accounted-emit outcome save others w.server p))
    ]

    -- Whatever sockets open, send and close, and however and in whatever order saves end: of the
    -- reports that were there or arrived, each is, as often as it came, being saved, announced, or
    -- dropped because its save ended with a failure or without a row. (`test` stands for any set of
    -- reports.)
    pub accounted-run :
        (events : List (Event utf8 js Saved Failure)) (w : World utf8 js Saved Failure)
        → accounted test (run utf8 js Saved Failure events w).server
            + count_if test (dropped events w)
          ≡ accounted test w.server + count_if test (arrived events w)
    unfolding run dropped arrived
    accounted-run [] w = refl
    accounted-run (event ∷ events) w =
        let next = step utf8 js Saved Failure event w in
        omega (
          arith,
          accounted-run events next,
          accounted-step event w,
          count_if-append test (arrived_in event w) (arrived events next),
          count_if-append test (dropped_in event w) (dropped events next),
        )
