-- ===== src/Events/Outbox/Runs.antt =====
-- The outbox over a table that is the list of its unread rows.
use avt_tracker.Base.{ℕ, List, [], ◌∷◌, none, some, ◌≡◌, take, drop, refl, arith}
use avt_tracker.Base.Int.{pos}
use avt_tracker.Base.Text.{codes}
use avt_tracker.Events.Outbox.{TrackerEvent, NewEvent, list_unread_events, limit_of}
use avt_tracker.Events.Outbox.InMemory.{row, rows_only}
use avt_tracker.Events.Outbox.Polls.{list_unread_events-queue, poll_all_lem, poll_all}

abbrev connected : ℕ → NewEvent ℕ
connected at = record {
  event_type = codes "tracker.device.connected";
  imei = codes "356938035643809";
  content = 0;
  occurred_at = at;
}

abbrev three : List (TrackerEvent ℕ)
three = row ℕ 0 (connected 5) ∷ row ℕ 1 (connected 6) ∷ row ℕ 2 (connected 7) ∷ []

list_unread_events-queue_example :
    ((list_unread_events (rows_only ℕ) (some (pos 2)) (pos 9) three).0
      ≡ take (limit_of 100 (some (pos 2))) three)
    × ((list_unread_events (rows_only ℕ) (some (pos 2)) (pos 9) three).1
        ≡ drop (limit_of 100 (some (pos 2))) three)
list_unread_events-queue_example =
    list_unread_events-queue (rows_only ℕ) (some (pos 2)) (pos 9) three (refl, (refl, (refl, tt)))

poll_all_lem_example :
    ((poll_all (rows_only ℕ) ((some (pos 2), pos 9) ∷ (none, pos 10) ∷ []) three).0 ≡ three)
    × ((poll_all (rows_only ℕ) ((some (pos 2), pos 9) ∷ (none, pos 10) ∷ []) three).1 ≡ [])
poll_all_lem_example =
    poll_all_lem (rows_only ℕ) ((some (pos 2), pos 9) ∷ (none, pos 10) ∷ []) three
      (refl, (refl, (refl, tt))) (unfold limit_of in omega arith)
