-- ===== src/Starlink/Server/Runs.antt =====
-- The StarLink server at one unit that sends one report in two chunks.
use avt_tracker.Base.{
  list_eq, Bool, ◌+◌, drop, take, ℕ, List, [], ◌∷◌, ◌++◌, none, some, ◌≡◌, refl, All, map, arith,
  ltb, true, all_true, ◌<◌,
}
use avt_tracker.Base.Exec.{err}
use avt_tracker.Base.Picks.{count_if}
use avt_tracker.Base.Text.{codes, is_digit, decimal, Text}
use avt_tracker.Starlink.Codec.{is_space}
use avt_tracker.Starlink.Parser.Lines.{one_character, build_starlink_line}
use avt_tracker.Starlink.Parser.Runs.{event-IsSafe, whole_numbers, event, two_tags}
use avt_tracker.Starlink.Pattern.{is_line_terminator, is_hex}
use avt_tracker.Starlink.Pattern.Matches.{six_hex}
use avt_tracker.Starlink.Server.{Peer, StarlinkServer, Save}
use avt_tracker.Starlink.Server.Accounts.{accounted-run, accounted, arrived, dropped}
use avt_tracker.Starlink.Server.Loop.{
  socket_closed, save_ended, data_arrived, accepted, World, Event, run,
}
use avt_tracker.Starlink.Server.Sessions.{saving-session, IsSendable, receive_all, reports_of}
use avt_tracker.Starlink.Splitter.Chunks.{concat}
use avt_tracker.Starlink.Splitter.Messages.{sent}
use avt_tracker.Starlink.Splitter.Runs.{ascii_only}

abbrev idle : StarlinkServer ascii_only whole_numbers ℕ ℕ
idle = record {
  registry = record { sockets = []; info = [] };
  announced = [];
  saving = [];
  received = [];
  report_format_tags = two_tags;
}

abbrev unit : Peer
unit = record {
  socket = 3;
  remote_address = none;
  remote_port = some 5000;
  device_id = none;
  splitter = record { buffer = []; max_buffer_bytes = 64 };
}

all_ascii : (text : Text) → all_true (λ c. ltb c 128) text ≡ true → All (λ c. c < 128) text
all_ascii [] h = tt
all_ascii (c ∷ text) h = (ground arith, all_ascii text (ground arith))

event-IsSendable : IsSendable 64 event
event-IsSendable = record {
  message = record {
    ascii = all_ascii (build_starlink_line event) (unfold decimal in refl);
    one_line = unfold decimal in refl;
    some_text = unfold decimal in omega arith;
    fits = unfold decimal in omega arith;
  };
  safe = event-IsSafe;
  id_form = unfold is_hex is_digit in six_hex refl refl;
  content_pos = omega arith;
  content_plain = unfold is_line_terminator in refl;
  checksum_size = refl;
  checksum_digits = unfold is_hex is_digit in refl;
  head_form = unfold is_space in one_character b'!' refl refl;
}

abbrev torn : List (ℕ × List ℕ)
torn =
    (7, take 20 (sent (map build_starlink_line (event ∷ []))))
    ∷ (8, drop 20 (sent (map build_starlink_line (event ∷ []))))
    ∷ []

saving-session_example :
    (receive_all ascii_only whole_numbers ℕ ℕ torn (unit, idle)).1.saving
    ≡ [] ++ reports_of ascii_only whole_numbers ℕ ℕ two_tags (event ∷ [])
saving-session_example =
    saving-session ascii_only whole_numbers ℕ ℕ torn (event ∷ []) unit idle refl
      (event-IsSendable, tt) (unfold concat sent decimal in refl)

abbrev started_world : World ascii_only whole_numbers ℕ ℕ
started_world = record { peers = λ socket. none; server = idle; max_buffer_bytes = 64 }

-- The report arrives, its save fails, and the unit leaves.
abbrev visit : List (Event ascii_only whole_numbers ℕ ℕ)
visit =
    accepted 3 none none
    ∷ data_arrived 7 3 (sent (map build_starlink_line (event ∷ [])))
    ∷ save_ended 0 (err 5)
    ∷ socket_closed 3
    ∷ []

-- The reports of one unit.
abbrev of_unit : Save ascii_only whole_numbers ℕ ℕ → Bool
of_unit save = list_eq save.device_id (codes "0A1B2C")

accounted-run_example :
    accounted ascii_only whole_numbers ℕ ℕ of_unit
        (run ascii_only whole_numbers ℕ ℕ visit started_world).server
      + count_if of_unit (dropped ascii_only whole_numbers ℕ ℕ visit started_world)
    ≡ accounted ascii_only whole_numbers ℕ ℕ of_unit idle
      + count_if of_unit (arrived ascii_only whole_numbers ℕ ℕ visit started_world)
accounted-run_example = accounted-run ascii_only whole_numbers ℕ ℕ of_unit visit started_world
