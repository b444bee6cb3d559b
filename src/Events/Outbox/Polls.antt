-- ===== src/Events/Outbox/Polls.antt =====
-- The unread events as a queue: what a poll takes from it, and that polling empties it.
use avt_tracker.Base.{
  list_eq_comm, length-drop, ltb, sym, empty_of_length, if◌then◌else◌, list_eq_refl, ℕ, List, [],
  ◌∷◌, ◌++◌, Option, true, false, length, map, ◌≡◌, take, drop, Bool-cases, inl, inr, refl, ◌+◌,
  ◌≤◌, arith, list_eq, ◌∙◌, zero, suc, take-append-drop,
}
use avt_tracker.Base.Int.{ℤ}
use avt_tracker.Base.Text.{Text}
use avt_tracker.Events.Outbox.{
  TrackerEvent, EventRepository, has_id, without, list_unread_events, limit_of, mark_delivered,
  find_unread,
}

abbrev pub ids_of : {Payload : Type 0} → List (TrackerEvent Payload) → List Text
ids_of events = map (λ e. e.id) events

-- Ids are the table's primary key.
abbrev pub HasDistinctIds : {Payload : Type 0} → List (TrackerEvent Payload) → Type 0
HasDistinctIds [] = Unit
HasDistinctIds (event ∷ events) = (has_id event.id (ids_of events) ≡ false) × HasDistinctIds events

module _ {Payload : Type 0} where
  without-none : (events : List (TrackerEvent Payload)) → without [] events ≡ events
  without-none [] = refl
  without-none (event ∷ events) = rw (without-none events) refl

  without-fresh :
      (id : Text) (ids : List Text) (events : List (TrackerEvent Payload))
      → has_id id (ids_of events) ≡ false
      → without (id ∷ ids) events ≡ without ids events
  without-fresh id ids [] h = refl
  without-fresh id ids (event ∷ events) h = elim (Bool-cases (list_eq id event.id)) [
    | inl same ↦ let clash : true ≡ false = rw same at h in cc
    | inr other ↦
        let other' : list_eq event.id id ≡ false = list_eq_comm event.id id ∙ other in
        let rest : has_id id (ids_of events) ≡ false = rw other at h in
        rw (other', without-fresh id ids events rest) refl
  ]

  without-take :
      (n : ℕ) (events : List (TrackerEvent Payload))
      → HasDistinctIds events
      → without (ids_of (take n events)) events ≡ drop n events
  without-take zero events h = without-none events
  without-take (suc n) [] h = refl
  without-take (suc n) (event ∷ events) (fresh, h) =
      rw (list_eq_refl event.id)
        (without-fresh event.id (ids_of (take n events)) events fresh ∙ without-take n events h)

  distinct-drop :
      (n : ℕ) (events : List (TrackerEvent Payload))
      → HasDistinctIds events
      → HasDistinctIds (drop n events)
  distinct-drop zero events h = h
  distinct-drop (suc n) [] h = h
  distinct-drop (suc n) (event ∷ events) (fresh, h) = distinct-drop n events h

module _ {Payload : Type 0} (repository : EventRepository Payload) where
  unread-marked :
      (found : List (TrackerEvent Payload)) (now : ℤ) (table : repository.Table)
      → repository.unread (
          if ltb 0 (length found)
          then mark_delivered repository (ids_of found) now table
          else table)
        ≡ without (ids_of found) (repository.unread table)
  unfolding mark_delivered
  unread-marked [] now table = sym (without-none (repository.unread table))
  unread-marked (event ∷ found) now table =
      let some_found : ltb 0 (length (event ∷ found)) ≡ true = ground arith in
      rw some_found (repository.unread_set_delivered (ids_of (event ∷ found)) now table)

  -- One poll takes the oldest of the unread events, as many as the limit (100 without one), and
  -- leaves the others, if no two of them have the same id.
  pub list_unread_events-queue :
      (limit : Option ℤ) (now : ℤ) (table : repository.Table)
      → HasDistinctIds (repository.unread table)
      → ((list_unread_events repository limit now table).0
          ≡ take (limit_of 100 limit) (repository.unread table))
        × (repository.unread (list_unread_events repository limit now table).1
            ≡ drop (limit_of 100 limit) (repository.unread table))
  unfolding list_unread_events find_unread
  list_unread_events-queue limit now table distinct =
      let n = limit_of 100 limit in
      let found = repository.find_take n table in
      (
        found,
        rw found (unread-marked (take n (repository.unread table)) now table)
            ∙ without-take n (repository.unread table) distinct,
      )

  -- Polls one after the other, with their limits and times, and all that they respond.
  unfoldable pub poll_all :
      List (Option ℤ × ℤ) → repository.Table → List (TrackerEvent Payload) × repository.Table
  poll_all [] table = ([], table)
  poll_all ((limit, now) ∷ polls) table =
      let (events, table') = list_unread_events repository limit now table in
      let (more, last) = poll_all polls table' in (events ++ more, last)

  -- How many events the polls may take.
  abbrev pub total_limit : List (Option ℤ × ℤ) → ℕ
  total_limit [] = 0
  total_limit ((limit, now) ∷ polls) = limit_of 100 limit + total_limit polls

  -- If no two unread events have the same id: polls whose limits add up to the number of unread
  -- events, or to more, respond every one of them, each once and from the oldest on, and leave
  -- none unread.
  pub poll_all_lem :
      (polls : List (Option ℤ × ℤ)) (table : repository.Table)
      → HasDistinctIds (repository.unread table)
      → length (repository.unread table) ≤ total_limit polls
      → ((poll_all polls table).0 ≡ repository.unread table)
        × (repository.unread (poll_all polls table).1 ≡ [])
  unfolding poll_all
  poll_all_lem [] table distinct enough =
      let empty = empty_of_length (repository.unread table) (omega arith) in (sym empty, empty)
  poll_all_lem ((limit, now) ∷ polls) table distinct enough =
      let n = limit_of 100 limit in
      let (first, left) = list_unread_events-queue limit now table distinct in
      let next = (list_unread_events repository limit now table).1 in
      let (rest, last) =
        poll_all_lem polls next (rw left (distinct-drop n (repository.unread table) distinct))
          (rw left (omega (arith, length-drop n (repository.unread table)))) in
      (rw (first, rest, left) (take-append-drop n (repository.unread table)), last)
