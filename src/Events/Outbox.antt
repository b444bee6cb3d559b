-- ===== src/Events/Outbox.antt =====
-- src/tracker/events/tracker-event-outbox.service.ts and `listUnreadEvents` of
-- src/tracker/tracker.controller.ts, over the repository of the events, which is a parameter.
pub mod Polls
pub mod InMemory
pub mod Runs
use avt_tracker.Base.{
  ◌<◌, All, zero, list_eq, suc, ℕ, List, [], ◌∷◌, ◌++◌, Option, none, some, Bool, true, false,
  if◌then◌else◌, length, ltb, map, not, ◌==◌, ◌≡◌, take,
}
use avt_tracker.Base.Int.{negsuc, ℤ, pos, is_positive}
use avt_tracker.Base.Text.{Text}

-- A row of the table; `Payload` is the JSON column.
pub record TrackerEvent (Payload : Type 0) : Type 0 where
  pub id : Text
  pub event_type : Text
  pub imei : Text
  pub content : Payload
  pub occurred_at : ℕ

-- What the service writes of a new event; the database gives it an id, and `delivered` is false.
pub record NewEvent (Payload : Type 0) : Type 0 where
  pub event_type : Text
  pub imei : Text
  pub content : Payload
  pub occurred_at : ℕ

abbrev pub has_id : Text → List Text → Bool
has_id id [] = false
has_id id (other ∷ ids) = if list_eq id other then true else has_id id ids

abbrev pub without :
    {Payload : Type 0} → List Text → List (TrackerEvent Payload) → List (TrackerEvent Payload)
without ids [] = []
without ids (event ∷ events) =
    if has_id event.id ids then without ids events else event ∷ without ids events

-- What a row says of its event.
abbrev pub entry_of : {Payload : Type 0} → TrackerEvent Payload → NewEvent Payload
entry_of event = record {
  event_type = event.event_type;
  imei = event.imei;
  content = event.content;
  occurred_at = event.occurred_at;
}

-- What the code uses of `Repository<TrackerEvent>`. `unread` is what
-- `find({ where: { delivered: false }, order: { occurredAt: 'ASC' } })` gives for a table; with
-- `take`, `find` gives the first of these, and `update` of `delivered` takes the rows with the ids
-- out of them; a row that is saved with a later time than theirs stands behind them.
pub record EventRepository (Payload : Type 0) : Type 1 where
  pub Table : Type 0
  pub unread : Table → List (TrackerEvent Payload)
  pub find : ℕ → Table → List (TrackerEvent Payload)
  pub set_delivered : List Text → ℤ → Table → Table
  pub save : NewEvent Payload → Table → TrackerEvent Payload × Table
  pub find_take : (limit : ℕ) (table : Table) → find limit table ≡ take limit (unread table)
  pub unread_set_delivered :
      (ids : List Text) (now : ℤ) (table : Table)
      → unread (set_delivered ids now table) ≡ without ids (unread table)
  pub entry_save : (new : NewEvent Payload) (table : Table) → entry_of (save new table).0 ≡ new
  pub unread_save :
      (new : NewEvent Payload) (table : Table)
      → All (λ (event : TrackerEvent Payload). event.occurred_at < new.occurred_at) (unread table)
      → unread (save new table).1 ≡ unread table ++ ((save new table).0 ∷ [])

-- `query.limit && query.limit > 0 ? query.limit : 100`
unfoldable pub limit_of : ℕ → Option ℤ → ℕ
limit_of default none = default
limit_of default (some (pos zero)) = default
limit_of default (some (pos (suc n))) = suc n
limit_of default (some (negsuc n)) = default

module _ {Payload : Type 0} (events : EventRepository Payload) where
  open events use {Table, find, set_delivered, save}

  -- `record`
  unfoldable pub record_event : Text → Text → Payload → ℕ → Table → TrackerEvent Payload × Table
  record_event event_type imei content occurred_at table =
      save
        (record {
          event_type = event_type;
          imei = imei;
          content = content;
          occurred_at = occurred_at;
        })
        table

  unfoldable pub find_unread : ℕ → Table → List (TrackerEvent Payload)
  find_unread limit table = find limit table

  -- No statement for no ids.
  unfoldable pub mark_delivered : List Text → ℤ → Table → Table
  mark_delivered [] now table = table
  mark_delivered (id ∷ ids) now table = set_delivered (id ∷ ids) now table

  -- The events that the response holds, and the table behind it.
  unfoldable pub list_unread_events : Option ℤ → ℤ → Table → List (TrackerEvent Payload) × Table
  list_unread_events limit now table =
      let found = find_unread (limit_of 100 limit) table in
      (
        found,
        if ltb 0 (length found)
            then mark_delivered (map (λ (e : TrackerEvent Payload). e.id) found) now table
            else table,
      )
