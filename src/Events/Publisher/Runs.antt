-- ===== src/Events/Publisher/Runs.antt =====
-- The publisher at two events, with the outbox's table as a list and no SNS topic.
use avt_tracker.Base.{ℕ, List, [], ◌∷◌, ◌++◌, none, some, true, false, map, ◌≡◌, arith}
use avt_tracker.Base.Text.{codes}
use avt_tracker.Events.Outbox.{EventRepository, entry_of}
use avt_tracker.Events.Outbox.InMemory.{rows_only}
use avt_tracker.Events.Publisher.{
  starlink_report_received, device_connected, EventContent, Destinations,
}
use avt_tracker.Events.Publisher.Description.{Emitted, entries, messages_to}
use avt_tracker.Events.Publisher.Streams.{handle_all, handle_all-streams}

abbrev rows : EventRepository (EventContent ℕ)
rows = rows_only (EventContent ℕ)

abbrev nothing_sent : Destinations rows
nothing_sent = record { table = []; sent = [] }

-- The database takes the second event only.
abbrev two_events : List (Emitted ℕ)
two_events =
    record {
      now = 5;
      event = device_connected (codes "35") none (some 4000) 5;
      outcome = record { outbox_takes = false; sns_takes = true };
    }
    ∷ record {
      now = 7;
      event = starlink_report_received (codes "0A1B2C") 42;
      outcome = record { outbox_takes = true; sns_takes = false };
    }
    ∷ []

handle_all-streams_example :
    (map entry_of (handle_all rows (some (codes "arn:t")) two_events nothing_sent).table
      ≡ [] ++ entries two_events)
    × ((handle_all rows (some (codes "arn:t")) two_events nothing_sent).sent
        ≡ [] ++ messages_to (some (codes "arn:t")) two_events)
handle_all-streams_example =
    handle_all-streams rows (some (codes "arn:t")) 5 two_events nothing_sent tt
      (omega arith, (omega arith, tt))
