-- ===== src/Tracker/Server/Answers.antt =====
-- The replies of the whole server over any sequence of events.
use avt_tracker.Base.{
  empty_of_length, true, ap, suc, length, ◌<◌, refl, ◌∙◌, inr, inl, Option-cases, ℕ, List, [], ◌∷◌,
  ◌++◌, Option, none, some, Bool, ◌≡◌, ◌+◌, arith,
}
use avt_tracker.Tracker.Ascii.{Doubles}
use avt_tracker.Tracker.Server.{
  Result, saved, save_ended, socket_closed, accepted, data_arrived, receive, World, Event, run,
  step, Server, Peer,
}
use avt_tracker.Tracker.Server.Replies.{
  answered-finish_save, waiting, Reply, replies_to, answered, answered-frames, answered-saved,
}
use avt_tracker.Base.Picks.{length-Picks, pick-found, count_if-append, count_if}
use avt_tracker.Tracker.Splitter.{push}

module _ (js : Doubles) (Saved Failure : Type 0) where
  abbrev pub owed_to : List ℕ → Option Peer → List Reply
  owed_to chunk none = []
  owed_to chunk (some p) =
      replies_to js Saved Failure p.connection.socket (push p.splitter chunk).0.frames

  -- Data is owed a reply for each report and each heartbeat that it completes, nothing else is.
  abbrev pub owed_at : Event js Saved Failure → World js Saved Failure → List Reply
  owed_at (data_arrived now socket chunk) w = owed_to chunk (w.peers socket)
  owed_at event w = []

  unfoldable pub owed : List (Event js Saved Failure) → World js Saved Failure → List Reply
  owed [] w = []
  owed (event ∷ events) w = owed_at event w ++ owed events (step js Saved Failure event w)

  module _ (test : Reply → Bool) where
    answered-receive :
        (now : ℕ) (chunk : List ℕ) (p : Peer) (s : Server js Saved Failure)
        → answered js Saved Failure test (receive js Saved Failure now chunk (p, s)).1
          ≡ answered js Saved Failure test s
            + count_if test
                (replies_to js Saved Failure p.connection.socket (push p.splitter chunk).0.frames)
    unfolding receive
    answered-receive now chunk p s =
        (answered-frames js Saved Failure test now (push p.splitter chunk).0.frames p.connection
          s).1

    answered-step :
        (event : Event js Saved Failure) (w : World js Saved Failure)
        → answered js Saved Failure test (step js Saved Failure event w).server
          ≡ answered js Saved Failure test w.server + count_if test (owed_at event w)
    unfolding step
    answered-step (accepted socket address port) w = unfold count_if in omega arith
    answered-step (data_arrived now socket chunk) w = elim (Option-cases (w.peers socket)) [
      | inl absent ↦ rw absent (unfold count_if in omega arith)
      | inr (p, present) ↦ rw present (answered-receive now chunk p w.server)
    ]
    answered-step (socket_closed socket) w = elim (Option-cases (w.peers socket)) [
      | inl absent ↦ rw absent (unfold count_if in omega arith)
      | inr (p, present) ↦ rw present (unfold count_if in omega arith)
    ]
    answered-step (save_ended n outcome) w =
        answered-saved js Saved Failure test n outcome w.server ∙ unfold count_if in omega arith

    -- Whatever sockets open, send and close, and however saves end: the replies that are written or
    -- wait for a save are those from before and those owed for the frames that came in, each as
    -- often. (`test` stands for any set of replies.)
    pub answered-run :
        (events : List (Event js Saved Failure)) (w : World js Saved Failure)
        → answered js Saved Failure test (run js Saved Failure events w).server
          ≡ answered js Saved Failure test w.server + count_if test (owed events w)
    unfolding run owed
    answered-run [] w = unfold count_if in omega arith
    answered-run (event ∷ events) w = omega (
      arith,
      answered-run events (step js Saved Failure event w),
      answered-step event w,
      count_if-append test (owed_at event w) (owed events (step js Saved Failure event w)),
    )

  -- Saves that end one after the other, each at a place of those that are left, up to the last.
  pub data EndAll : ℕ → List (ℕ × Result Failure (Option Saved)) → Type 0 where
    none_left : EndAll 0 []
    ends_at :
        (n left : ℕ) (outcome : Result Failure (Option Saved))
        (ends : List (ℕ × Result Failure (Option Saved)))
        → n < suc left
        → EndAll left ends
        → EndAll (suc left) ((n, outcome) ∷ ends)

  abbrev pub ends : List (ℕ × Result Failure (Option Saved)) → List (Event js Saved Failure)
  ends [] = []
  ends ((n, outcome) ∷ others) = save_ended n outcome ∷ ends others

  pub length-saved :
      (n left : ℕ) (outcome : Result Failure (Option Saved)) (s : Server js Saved Failure)
      → n < suc left
      → length s.saving ≡ suc left
      → length (saved js Saved Failure n outcome s).saving ≡ left
  unfolding saved
  length-saved n left outcome s inside size =
      let (save, others, found, p) = pick-found n s.saving (omega arith) in
      rw found (
        ap length (answered-finish_save js Saved Failure (λ reply. true) outcome s save others p).0
        ∙ omega (arith, length-Picks s.saving save others p))

  saving-ends :
      (list : List (ℕ × Result Failure (Option Saved))) (left : ℕ) (w : World js Saved Failure)
      → EndAll left list
      → length w.server.saving ≡ left
      → (run js Saved Failure (ends list) w).server.saving ≡ []
  unfolding run step
  saving-ends _ _ w none_left size = empty_of_length w.server.saving size
  saving-ends _ _ w (ends_at n left outcome others inside rest) size =
      saving-ends others left (step js Saved Failure (save_ended n outcome) w) rest
        (length-saved n left outcome w.server inside size)

  run-append :
      (events others : List (Event js Saved Failure)) (w : World js Saved Failure)
      → run js Saved Failure (events ++ others) w
        ≡ run js Saved Failure others (run js Saved Failure events w)
  unfolding run
  run-append [] others w = refl
  run-append (event ∷ events) others w = run-append events others (step js Saved Failure event w)

  owed-ends :
      (list : List (ℕ × Result Failure (Option Saved))) (w : World js Saved Failure)
      → owed (ends list) w ≡ []
  unfolding owed
  owed-ends [] w = refl
  owed-ends ((n, outcome) ∷ list) w =
      owed-ends list (step js Saved Failure (save_ended n outcome) w)

  written_lem :
      (test : Reply → Bool) (w : World js Saved Failure)
      (list : List (ℕ × Result Failure (Option Saved)))
      → (run js Saved Failure (ends list) w).server.saving ≡ []
      → count_if test (run js Saved Failure (ends list) w).server.written
        ≡ answered js Saved Failure test w.server
  unfolding count_if waiting
  written_lem test w list empty =
      let whole = answered-run test (ends list) w in
      let nothing : count_if test
            (waiting js Saved Failure (run js Saved Failure (ends list) w).server.saving)
          ≡ 0 =
        rw empty refl in
      let none_owed : count_if test (owed (ends list) w) ≡ 0 = rw (owed-ends list w) refl in
      omega (arith, whole, nothing, none_owed)

  -- However the saves that are left end, with a row, without one or with a failure, and in whatever
  -- order: once they have, no save is left, and each reply that was owed is written, exactly as
  -- often as it was owed, with those written or waiting before.
  pub run-ends :
      (events : List (Event js Saved Failure)) (w : World js Saved Failure)
      (list : List (ℕ × Result Failure (Option Saved)))
      → EndAll (length (run js Saved Failure events w).server.saving) list
      → let w' = run js Saved Failure (events ++ ends list) w in
        (w'.server.saving ≡ [])
        × ((test : Reply → Bool)
            → count_if test w'.server.written
              ≡ answered js Saved Failure test w.server + count_if test (owed events w))
  run-ends events w list all = rw (run-append events (ends list) w) (
      let last = run js Saved Failure events w in
      let empty = saving-ends list (length last.server.saving) last all refl in
      (empty, λ test. written_lem test last list empty ∙ answered-run test events w))
