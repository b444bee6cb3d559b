-- ===== src/Tracker/Server/Runs.antt =====
-- The server at concrete events: one device that sends a heartbeat, and saves that fail.
use avt_tracker.Base.{
  zero, Option, length, suc, drop, take, ◌==◌, ℕ, List, [], ◌∷◌, ◌++◌, none, some, Bool, ◌≡◌, ◌+◌,
  refl, arith,
}
use avt_tracker.Base.Exec.{Result, err}
use avt_tracker.Base.Picks.{count_if}
use avt_tracker.Base.Text.{codes}
use avt_tracker.Tracker.Codec.Imei.{encode_imei}
use avt_tracker.Tracker.Cursor.Reads.{be_bytes}
use avt_tracker.Tracker.Parser.RoundTrip.{FrameOptions, header_of_options, build_frame}
use avt_tracker.Tracker.Parser.Runs.{naturals, heartbeat, heartbeat-IsBuildable}
use avt_tracker.Tracker.Parser.Total.{decoded}
use avt_tracker.Tracker.Server.{
  Connection, socket_closed, data_arrived, accepted, World, Event, run, Server,
}
use avt_tracker.Tracker.Server.Answers.{
  EndAll, ends_at, answered-run, run-ends, owed, ends, none_left,
}
use avt_tracker.Tracker.Server.Endings.{save_all}
use avt_tracker.Tracker.Server.Replies.{Reply, answered}
use avt_tracker.Tracker.Server.Sessions.{
  fresh_peer, answered-session, receive_all, asked_for, IsSendable,
}

abbrev silent : Server naturals ℕ ℕ
silent = record {
  service = record { registry = record { sockets = []; info = [] }; announced = [] };
  written = [];
  saving = [];
  received = [];
}

abbrev started_world : World naturals ℕ ℕ
started_world = record { peers = λ socket. none; server = silent; max_buffer_bytes = 64 }

abbrev visit : List (Event naturals ℕ ℕ)
visit =
    accepted 3 none (some 4000)
    ∷ data_arrived 7 3 (take 9 (build_frame heartbeat))
    ∷ data_arrived 8 3 (drop 9 (build_frame heartbeat))
    ∷ socket_closed 3
    ∷ []

-- The replies on socket 3.
abbrev on_three : Reply → Bool
on_three reply = reply.0 == 3

answered-run_example :
    answered naturals ℕ ℕ on_three (run naturals ℕ ℕ visit started_world).server
    ≡ answered naturals ℕ ℕ on_three silent
      + count_if on_three (owed naturals ℕ ℕ visit started_world)
answered-run_example = answered-run naturals ℕ ℕ on_three visit started_world

heartbeat-IsSendable : IsSendable 64 heartbeat
heartbeat-IsSendable = record {
  buildable = heartbeat-IsBuildable;
  honest = refl;
  quiet = unfold be_bytes encode_imei in refl;
  fits = unfold be_bytes encode_imei in omega arith;
}

-- A report with the heartbeat's fields, which the server saves before it answers.
abbrev report_frame : FrameOptions
report_frame = record heartbeat { head = codes "+RPT"; serial_number = 2 }

report_frame-IsSendable : IsSendable 64 report_frame
report_frame-IsSendable = record {
  buildable = record {
    plain = refl;
    short = omega arith;
    imei_size = refl;
    imei_digits = heartbeat-IsBuildable.imei_digits;
    device_fits = omega arith;
    instant = heartbeat-IsBuildable.instant;
    serial_fits = omega arith;
    declared_fits = omega arith;
  };
  honest = refl;
  quiet = unfold be_bytes encode_imei in refl;
  fits = unfold be_bytes encode_imei in omega arith;
}

abbrev both_sent : List (ℕ × List ℕ)
both_sent =
    (7, take 9 (build_frame heartbeat))
    ∷ (8, drop 9 (build_frame heartbeat) ++ build_frame report_frame)
    ∷ []

abbrev third_peer : Connection
third_peer = record { socket = 3; remote_address = none; remote_port = none; imei = none }

-- As many saves as are left fail, the first one each time.
abbrev all_fail : ℕ → List (ℕ × Result ℕ (Option ℕ))
all_fail zero = []
all_fail (suc left) = (0, err 5) ∷ all_fail left

all_fail-EndAll : (left : ℕ) → EndAll naturals ℕ ℕ left (all_fail left)
all_fail-EndAll zero = none_left
all_fail-EndAll (suc left) =
    ends_at 0 left (err 5) (all_fail left) (omega arith) (all_fail-EndAll left)

abbrev both_received : Server naturals ℕ ℕ
both_received = (receive_all naturals ℕ ℕ both_sent (fresh_peer 64 third_peer, silent)).1

answered-session_example :
    let s' = save_all naturals ℕ ℕ (all_fail (length both_received.saving)) both_received in
    (s'.saving ≡ [])
    × ((test : Reply → Bool)
        → count_if test s'.written
          ≡ answered naturals ℕ ℕ test silent
            + count_if test (asked_for 3 (heartbeat ∷ report_frame ∷ [])))
answered-session_example =
    answered-session naturals ℕ ℕ both_sent (heartbeat ∷ report_frame ∷ []) 64 third_peer silent
      (all_fail (length both_received.saving)) (heartbeat-IsSendable, (report_frame-IsSendable, tt))
      (unfold be_bytes encode_imei in refl) (all_fail-EndAll (length both_received.saving))

-- A report of the same device is being saved.
abbrev busy : World naturals ℕ ℕ
busy = record started_world {
  server = record silent {
    saving =
        record {
          socket = 3;
          imei = heartbeat.imei;
          parsed =
              decoded naturals (build_frame heartbeat) (codes "+RPT:") (header_of_options heartbeat)
                [] [];
        }
        ∷ [];
  };
}

run-ends_example :
    let w' = run naturals ℕ ℕ ([] ++ ends naturals ℕ ℕ ((0, err 5) ∷ [])) busy in
    (w'.server.saving ≡ [])
    × ((test : Reply → Bool)
        → count_if test w'.server.written
          ≡ answered naturals ℕ ℕ test busy.server + count_if test (owed naturals ℕ ℕ [] busy))
run-ends_example =
    run-ends naturals ℕ ℕ [] busy ((0, err 5) ∷ [])
      (unfold run in ends_at 0 0 (err 5) [] (omega arith) none_left)
