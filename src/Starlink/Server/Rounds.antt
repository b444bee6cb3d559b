-- ===== src/Starlink/Server/Rounds.antt =====
-- What one turn of the loops over lines saves.
use avt_tracker.Base.{
  inr, inl, Bool-cases, sym, ℕ, List, [], ◌∷◌, ◌++◌, Option, none, some, ◌≡◌, refl, ◌∙◌,
  append_assoc, append-nil,
}
use avt_tracker.Base.Exec.{Result, ok, err}
use avt_tracker.Base.Text.{Text}
use avt_tracker.Starlink.Codec.{Floats}
use avt_tracker.Starlink.Parser.{parse_line}
use avt_tracker.Starlink.Payload.{ParsedStarlinkFrame, StarlinkError, StarlinkReportPayload}
use avt_tracker.Starlink.Server.{
  Peer, StarlinkServer, Save, handle_report, handle_parsed, handle_lines, handle_line,
  register_device, is_known_as,
}
use avt_tracker.Starlink.Splitter.{Utf8}

module _ (utf8 : Utf8) (js : Floats) (Saved Failure : Type 0) where
  abbrev pub save_of :
      ParsedStarlinkFrame js → Option (StarlinkReportPayload js) → List (Save utf8 js Saved Failure)
  save_of parsed none = []
  save_of parsed (some report) =
      record { device_id = parsed.header.device_id; parsed = parsed } ∷ []

  abbrev pub saves_of :
      Result StarlinkError (ParsedStarlinkFrame js) → List (Save utf8 js Saved Failure)
  saves_of (err e) = []
  saves_of (ok parsed) = save_of parsed parsed.report

  -- A line that parses with a report is saved, every other line is not.
  unfoldable pub saves_of_lines : List Text → List Text → List (Save utf8 js Saved Failure)
  saves_of_lines tags [] = []
  saves_of_lines tags (line ∷ lines) =
      saves_of (parse_line js line tags) ++ saves_of_lines tags lines

  -- What a round of the loop leaves alone, and what it adds to the saves.
  pub record IsRound (before after : Peer × StarlinkServer utf8 js Saved Failure)
      (saves : List (Save utf8 js Saved Failure)) : Type 0 where
    pub same_splitter : after.0.splitter ≡ before.0.splitter
    pub same_tags : after.1.report_format_tags ≡ before.1.report_format_tags
    pub same_received : after.1.received ≡ before.1.received
    pub more_saves : after.1.saving ≡ before.1.saving ++ saves

  registered-IsRound :
      (now : ℕ) (device_id : Text) (p : Peer) (s : StarlinkServer utf8 js Saved Failure)
      → IsRound (p, s) (register_device utf8 js Saved Failure now device_id (p, s)) []
  unfolding register_device
  registered-IsRound now device_id p s = elim (Bool-cases (is_known_as p.device_id device_id)) [
    | inl known ↦ record {
      same_splitter = rw known refl;
      same_tags = rw known refl;
      same_received = rw known refl;
      more_saves = rw known (sym (append-nil s.saving));
    }
    | inr other ↦ record {
      same_splitter = rw other refl;
      same_tags = rw other refl;
      same_received = rw other refl;
      more_saves = rw other (sym (append-nil s.saving));
    }
  ]

  handle_report-IsRound :
      (parsed : ParsedStarlinkFrame js) (report : Option (StarlinkReportPayload js)) (p : Peer)
      (s : StarlinkServer utf8 js Saved Failure)
      → IsRound
          (p, s)
          (p, handle_report utf8 js Saved Failure parsed report s)
          (save_of parsed report)
  handle_report-IsRound parsed none p s = record {
    same_splitter = refl;
    same_tags = refl;
    same_received = refl;
    more_saves = sym (append-nil s.saving);
  }
  handle_report-IsRound parsed (some report) p s = record {
    same_splitter = refl;
    same_tags = refl;
    same_received = refl;
    more_saves = refl;
  }

  IsRound-IsRound :
      (a b c : Peer × StarlinkServer utf8 js Saved Failure)
      (xs ys : List (Save utf8 js Saved Failure))
      → IsRound a b xs
      → IsRound b c ys
      → IsRound a c (xs ++ ys)
  IsRound-IsRound a b c xs ys first second = record {
    same_splitter = second.same_splitter ∙ first.same_splitter;
    same_tags = second.same_tags ∙ first.same_tags;
    same_received = second.same_received ∙ first.same_received;
    more_saves = second.more_saves ∙ rw first.more_saves (append_assoc a.1.saving xs ys);
  }

  handle_parsed-IsRound :
      (now : ℕ) (result : Result StarlinkError (ParsedStarlinkFrame js)) (p : Peer)
      (s : StarlinkServer utf8 js Saved Failure)
      → IsRound (p, s) (handle_parsed utf8 js Saved Failure now result (p, s)) (saves_of result)
  handle_parsed-IsRound now (err e) p s = record {
    same_splitter = refl;
    same_tags = refl;
    same_received = refl;
    more_saves = sym (append-nil s.saving);
  }
  handle_parsed-IsRound now (ok parsed) p s =
      let known = register_device utf8 js Saved Failure now parsed.header.device_id (p, s) in
      IsRound-IsRound (p, s) known (handle_parsed utf8 js Saved Failure now (ok parsed) (p, s)) []
        (save_of parsed parsed.report) (registered-IsRound now parsed.header.device_id p s)
        (handle_report-IsRound parsed parsed.report known.0 known.1)

  pub handle_lines-IsRound :
      (now : ℕ) (lines : List Text) (p : Peer) (s : StarlinkServer utf8 js Saved Failure)
      → IsRound
          (p, s)
          (handle_lines utf8 js Saved Failure now lines (p, s))
          (saves_of_lines s.report_format_tags lines)
  unfolding handle_lines handle_line saves_of_lines
  handle_lines-IsRound now [] p s = record {
    same_splitter = refl;
    same_tags = refl;
    same_received = refl;
    more_saves = sym (append-nil s.saving);
  }
  handle_lines-IsRound now (line ∷ lines) p s =
      let result = parse_line js line s.report_format_tags in
      let next = handle_parsed utf8 js Saved Failure now result (p, s) in
      let one = handle_parsed-IsRound now result p s in
      let rest = handle_lines-IsRound now lines next.0 next.1 in
      IsRound-IsRound (p, s) next (handle_lines utf8 js Saved Failure now lines next)
        (saves_of result) (saves_of_lines s.report_format_tags lines) one (rw one.same_tags at rest)
