-- ===== src/Events/Publisher/Streams.antt =====
-- What the two destinations hold after any domain events, against a description of each event.
use avt_tracker.Base.{
  ℕ, List, [], ◌∷◌, ◌++◌, Option, none, some, Bool, true, false, if◌then◌else◌, map, ◌≡◌, refl, ◌∙◌,
  All, ◌<◌, ◌≤◌, suc, arith, append_assoc, append-nil, sym, ap,
}
use avt_tracker.Base.Text.{Text}
use avt_tracker.Events.Outbox.{EventRepository, TrackerEvent, NewEvent, entry_of, record_event}
use avt_tracker.Events.Publisher.{
  starlink_device_disconnected, starlink_device_connected, starlink_report_received,
  device_disconnected, device_connected, report_received, EventContent, DomainEvent, Envelope,
  Message, Destinations, handle_event, dispatch, publish, envelope_of,
}
use mathlib.Core.List.{map-append}
use avt_tracker.Events.Publisher.Description.{
  Emitted, IsInOrder, facts_of, type_of, entries, messages, messages_to,
}

module _ {Report : Type 0} where
  abbrev stored_entry : Emitted Report → NewEvent (EventContent Report)
  stored_entry e =
      let envelope = envelope_of e.now e.event in
      record {
        event_type = envelope.event_type;
        imei = envelope.imei;
        content = envelope.content;
        occurred_at = envelope.occurred_at;
      }

  -- The entries that the database takes.
  abbrev stored_entries : List (Emitted Report) → List (NewEvent (EventContent Report))
  stored_entries [] = []
  stored_entries (e ∷ emitted) =
      (if e.outcome.outbox_takes then stored_entry e ∷ [] else []) ++ stored_entries emitted

  -- The messages that SNS takes.
  abbrev published : Option Text → List (Emitted Report) → List (Message Report)
  published topic_arn [] = []
  published topic_arn (e ∷ emitted) =
      publish topic_arn (envelope_of e.now e.event) e.outcome.sns_takes []
      ++ published topic_arn emitted

  occurred_at-envelope_of :
      (now : ℕ) (event : DomainEvent Report) → (envelope_of now event).occurred_at ≡ now
  occurred_at-envelope_of now (report_received imei report) = refl
  occurred_at-envelope_of now (device_connected imei address port at) = refl
  occurred_at-envelope_of now (device_disconnected imei address port at) = refl
  occurred_at-envelope_of now (starlink_report_received imei report) = refl
  occurred_at-envelope_of now (starlink_device_connected imei address port at) = refl
  occurred_at-envelope_of now (starlink_device_disconnected imei address port at) = refl

  publish-append :
      (topic_arn : Option Text) (e : Envelope Report) (takes : Bool) (sent : List (Message Report))
      → publish topic_arn e takes sent ≡ sent ++ publish topic_arn e takes []
  publish-append none e takes sent = sym (append-nil sent)
  publish-append (some []) e takes sent = sym (append-nil sent)
  publish-append (some (c ∷ arn)) e true sent = refl
  publish-append (some (c ∷ arn)) e false sent = sym (append-nil sent)

  envelope_of_lem :
      (now : ℕ) (event : DomainEvent Report)
      → envelope_of now event ≡ record {
        event_type = type_of event;
        occurred_at = now;
        imei = (facts_of event).device;
        content = (facts_of event).details;
      }
  envelope_of_lem now (report_received device report) = refl
  envelope_of_lem now (device_connected device address port at) = refl
  envelope_of_lem now (device_disconnected device address port at) = refl
  envelope_of_lem now (starlink_report_received device report) = refl
  envelope_of_lem now (starlink_device_connected device address port at) = refl
  envelope_of_lem now (starlink_device_disconnected device address port at) = refl

  entries_lem : (emitted : List (Emitted Report)) → stored_entries emitted ≡ entries emitted
  entries_lem [] = refl
  entries_lem (e ∷ emitted) = rw (envelope_of_lem e.now e.event, entries_lem emitted) refl

  messages_lem :
      (c : ℕ) (arn : Text) (emitted : List (Emitted Report))
      → published (some (c ∷ arn)) emitted ≡ messages (c ∷ arn) emitted
  messages_lem c arn [] = refl
  messages_lem c arn (e ∷ emitted) =
      rw (envelope_of_lem e.now e.event, messages_lem c arn emitted) refl

  messages_to_lem :
      (topic_arn : Option Text) (emitted : List (Emitted Report))
      → published topic_arn emitted ≡ messages_to topic_arn emitted
  messages_to_lem none emitted = none_sent emitted
    where
      none_sent : (emitted : List (Emitted Report)) → published none emitted ≡ []
      none_sent [] = refl
      none_sent (e ∷ emitted) = none_sent emitted
  messages_to_lem (some []) emitted = none_sent emitted
    where
      none_sent : (emitted : List (Emitted Report)) → published (some []) emitted ≡ []
      none_sent [] = refl
      none_sent (e ∷ emitted) = none_sent emitted
  messages_to_lem (some (c ∷ arn)) emitted = messages_lem c arn emitted

module _ {Report : Type 0} (events : EventRepository (EventContent Report)) where
  abbrev pub IsBefore : ℕ → events.Table → Type 0
  IsBefore time table =
      All (λ (e : TrackerEvent (EventContent Report)). e.occurred_at < time) (events.unread table)

  abbrev pub handle_all :
      Option Text → List (Emitted Report) → Destinations events → Destinations events
  handle_all topic_arn [] d = d
  handle_all topic_arn (e ∷ emitted) d =
      handle_all topic_arn emitted (handle_event events topic_arn e.now e.event e.outcome d)

  all_before :
      (rows : List (TrackerEvent (EventContent Report))) (time now : ℕ)
      → time ≤ now
      → All (λ (e : TrackerEvent (EventContent Report)). e.occurred_at < time) rows
      → All (λ (e : TrackerEvent (EventContent Report)). e.occurred_at < now) rows
  all_before [] time now later h = tt
  all_before (row ∷ rows) time now later (h, hs) = (omega arith, all_before rows time now later hs)

  all_before-append :
      (rows : List (TrackerEvent (EventContent Report))) (row : TrackerEvent (EventContent Report))
      (time : ℕ)
      → All (λ (e : TrackerEvent (EventContent Report)). e.occurred_at < time) rows
      → row.occurred_at < time
      → All (λ (e : TrackerEvent (EventContent Report)). e.occurred_at < time) (rows ++ (row ∷ []))
  all_before-append [] row time hs h = (h, tt)
  all_before-append (r ∷ rows) row time (hr, hs) h = (hr, all_before-append rows row time hs h)

  -- The table behind one event.
  abbrev after_event : Emitted Report → Bool → events.Table → events.Table
  after_event e takes table = if takes then (events.save (stored_entry e) table).1 else table

  after_event_lem :
      (e : Emitted Report) (takes : Bool) (table : events.Table)
      → IsBefore e.now table
      → (map entry_of (events.unread (after_event e takes table))
          ≡ map entry_of (events.unread table) ++ (if takes then stored_entry e ∷ [] else []))
        × IsBefore (suc e.now) (after_event e takes table)
  after_event_lem e false table before =
      (sym (append-nil _), all_before (events.unread table) e.now (suc e.now) (omega arith) before)
  after_event_lem e true table before =
      let at = occurred_at-envelope_of e.now e.event in
      let behind = events.unread_save (stored_entry e) table (rw at before) in
      let same = events.entry_save (stored_entry e) table in
      let row : TrackerEvent (EventContent Report) = (events.save (stored_entry e) table).0 in
      let row_at : row.occurred_at ≡ e.now =
        ap (λ (n : NewEvent (EventContent Report)). n.occurred_at) same ∙ at in
      (
        rw behind (map-append entry_of (events.unread table) (row ∷ []) ∙ rw same refl),
        rw behind (
            all_before-append (events.unread table) row (suc e.now)
              (all_before (events.unread table) e.now (suc e.now) (omega arith) before)
              (omega (arith, row_at))),
      )

  -- In the publisher's own terms.
  handle_all-stored :
      (topic_arn : Option Text) (time : ℕ) (emitted : List (Emitted Report))
      (d : Destinations events)
      → IsBefore time d.table
      → IsInOrder time emitted
      → (map entry_of (events.unread (handle_all topic_arn emitted d).table)
          ≡ map entry_of (events.unread d.table) ++ stored_entries emitted)
        × ((handle_all topic_arn emitted d).sent ≡ d.sent ++ published topic_arn emitted)
  unfolding handle_event dispatch record_event
  handle_all-stored topic_arn time [] d before order = (sym (append-nil _), sym (append-nil d.sent))
  handle_all-stored topic_arn time (e ∷ emitted) d before (later, order) =
      let envelope = envelope_of e.now e.event in
      let now_before = all_before (events.unread d.table) time e.now later before in
      let (one, before') = after_event_lem e e.outcome.outbox_takes d.table now_before in
      let next = handle_event events topic_arn e.now e.event e.outcome d in
      let (rest, rest_sent) = handle_all-stored topic_arn (suc e.now) emitted next before' order in
      (
        rest
            ∙ rw one (
                append_assoc (map entry_of (events.unread d.table))
                  (if e.outcome.outbox_takes then stored_entry e ∷ [] else [])
                  (stored_entries emitted)),
        rest_sent
            ∙ rw (publish-append topic_arn envelope e.outcome.sns_takes d.sent) (
                append_assoc d.sent (publish topic_arn envelope e.outcome.sns_takes [])
                  (published topic_arn emitted)),
      )

  -- Whatever the outbox's database and SNS take of a sequence of domain events, each one handled
  -- later than the one before and than every unread event: the unread events are those from before
  -- and, in order, one for each event that the database took, with its type (the vendor, a dot, and
  -- what happened), its device, its data and its time; SNS has, beside the messages from before,
  -- one for each event that it took, with the same four and with the type and the device as its
  -- attributes, and none where there is no topic or an empty one. Neither depends on what the
  -- other took.
  pub handle_all-streams :
      (topic_arn : Option Text) (time : ℕ) (emitted : List (Emitted Report))
      (d : Destinations events)
      → IsBefore time d.table
      → IsInOrder time emitted
      → (map entry_of (events.unread (handle_all topic_arn emitted d).table)
          ≡ map entry_of (events.unread d.table) ++ entries emitted)
        × ((handle_all topic_arn emitted d).sent ≡ d.sent ++ messages_to topic_arn emitted)
  handle_all-streams topic_arn time emitted d before order =
      let (kept, sent) = handle_all-stored topic_arn time emitted d before order in
      (
        kept ∙ ap (λ ys. map entry_of (events.unread d.table) ++ ys) (entries_lem emitted),
        sent ∙ ap (λ ys. d.sent ++ ys) (messages_to_lem topic_arn emitted),
      )
