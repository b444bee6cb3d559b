-- ===== src/Events/Outbox/InMemory.antt =====
-- A table of events that is the list of its unread rows, for the tests.
use avt_tracker.Base.{ℕ, List, [], ◌∷◌, ◌++◌, length, take, refl}
use avt_tracker.Events.Outbox.{TrackerEvent, EventRepository, NewEvent, without}

abbrev pub row : (Payload : Type 0) → ℕ → NewEvent Payload → TrackerEvent Payload
row Payload n new = record {
  id = n ∷ [];
  event_type = new.event_type;
  imei = new.imei;
  content = new.content;
  occurred_at = new.occurred_at;
}

-- The number of rows is the next id.
abbrev pub rows_only : (Payload : Type 0) → EventRepository Payload
rows_only Payload = record {
  Table = List (TrackerEvent Payload);
  unread = λ table. table;
  find = λ limit table. take limit table;
  set_delivered = λ ids now table. without ids table;
  save =
      λ new table. (row Payload (length table) new, table ++ (row Payload (length table) new ∷ []));
  find_take = λ limit table. refl;
  unread_set_delivered = λ ids now table. refl;
  entry_save = λ new table. refl;
  unread_save = λ new table h. refl;
}
