-- ===== src/Starlink/Server/Sessions.antt =====
-- Which reports the server saves for what a unit sends, from its bytes on.
use avt_tracker.Base.{
  ap, true, not, all_true, length, ◌<◌, map, ◌==◌, All, if◌then◌else◌, inr, inl, Bool-cases, sym, ℕ,
  List, [], ◌∷◌, ◌++◌, ◌≡◌, refl, ◌∙◌, append_assoc, append-nil,
}
use avt_tracker.Base.Text.{Text}
use avt_tracker.Starlink.Codec.{Floats}
use avt_tracker.Starlink.Parser.{parse_line}
use avt_tracker.Starlink.Parser.Lines.{
  IsSafe, head_or_mark, IsHead, checksum_or_zero, expected_frame, parse_line-build_starlink_line,
  build_starlink_line, BuildStarlinkLineOptions,
}
use avt_tracker.Starlink.Pattern.{is_hex, is_line_terminator}
use avt_tracker.Starlink.Pattern.Matches.{IsDeviceId}
use avt_tracker.Starlink.Payload.{event_report_message_type}
use avt_tracker.Starlink.Server.{push_chunk, Peer, StarlinkServer, Save, handle_lines, receive}
use avt_tracker.Starlink.Server.Rounds.{save_of, saves_of, saves_of_lines, handle_lines-IsRound}
use avt_tracker.Starlink.Splitter.{Utf8}
use avt_tracker.Starlink.Splitter.Chunks.{concat, push_chunks}
use avt_tracker.Starlink.Splitter.Messages.{push_chunks-sent, sent, IsMessage}

module _ (utf8 : Utf8) (js : Floats) (Saved Failure : Type 0) where
  -- The handler of `data`, called for one chunk after the other.
  unfoldable pub receive_all :
      List (ℕ × List ℕ)
      → Peer × StarlinkServer utf8 js Saved Failure
      → Peer × StarlinkServer utf8 js Saved Failure
  receive_all [] state = state
  receive_all ((now, chunk) ∷ arrivals) state =
      receive_all arrivals (receive utf8 js Saved Failure now chunk state)

  saves_of_lines-append :
      (tags xs ys : List Text)
      → saves_of_lines utf8 js Saved Failure tags (xs ++ ys)
        ≡ saves_of_lines utf8 js Saved Failure tags xs
          ++ saves_of_lines utf8 js Saved Failure tags ys
  unfolding saves_of_lines
  saves_of_lines-append tags [] ys = refl
  saves_of_lines-append tags (x ∷ xs) ys = rw (saves_of_lines-append tags xs ys) (
      sym (
        append_assoc (saves_of utf8 js Saved Failure (parse_line js x tags))
          (saves_of_lines utf8 js Saved Failure tags xs)
          (saves_of_lines utf8 js Saved Failure tags ys)))

  -- The chunks without the times of their arrival.
  abbrev pub chunks_of : List (ℕ × List ℕ) → List (List ℕ)
  chunks_of [] = []
  chunks_of ((now, chunk) ∷ arrivals) = chunk ∷ chunks_of arrivals

  saving-receive_all :
      (arrivals : List (ℕ × List ℕ)) (p : Peer) (s : StarlinkServer utf8 js Saved Failure)
      → (receive_all arrivals (p, s)).1.saving
        ≡ s.saving
          ++ saves_of_lines utf8 js Saved Failure s.report_format_tags
              (push_chunks utf8 p.splitter (chunks_of arrivals)).0
  unfolding receive_all receive push_chunks saves_of_lines
  saving-receive_all [] p s = sym (append-nil s.saving)
  saving-receive_all ((now, chunk) ∷ arrivals) p s =
      let pushed = push_chunk utf8 p.splitter chunk in
      let q : Peer = record p { splitter = pushed.1 } in
      let round = handle_lines-IsRound utf8 js Saved Failure now pushed.0.lines q s in
      let next = handle_lines utf8 js Saved Failure now pushed.0.lines (q, s) in
      let further = (push_chunks utf8 pushed.1 (chunks_of arrivals)).0 in
      saving-receive_all arrivals next.0 next.1
      ∙ rw
          (
            round.same_tags,
            round.same_splitter,
            round.more_saves,
            saves_of_lines-append s.report_format_tags pushed.0.lines further,
          )
          (append_assoc s.saving
            (saves_of_lines utf8 js Saved Failure s.report_format_tags pushed.0.lines)
            (saves_of_lines utf8 js Saved Failure s.report_format_tags further))

  -- The saves that lines with these options ask for, from the options alone.
  abbrev pub reports_of :
      List Text → List BuildStarlinkLineOptions → List (Save utf8 js Saved Failure)
  reports_of tags [] = []
  reports_of tags (o ∷ os) =
      (if o.message_type == event_report_message_type
        then record { device_id = o.device_id; parsed = expected_frame js o tags } ∷ []
        else [])
      ++ reports_of tags os

-- A line that the fixtures build, that the parser takes and that fits the splitter.
pub record IsSendable (limit : ℕ) (o : BuildStarlinkLineOptions) : Type 0 where
  pub message : IsMessage limit (build_starlink_line o)
  pub safe : IsSafe o
  pub id_form : IsDeviceId o.device_id
  pub content_pos : 0 < length o.content
  pub content_plain : all_true (λ c. not (is_line_terminator c)) o.content ≡ true
  pub checksum_size : length (checksum_or_zero o.checksum_hex) ≡ 2
  pub checksum_digits : all_true is_hex (checksum_or_zero o.checksum_hex) ≡ true
  pub head_form : IsHead (head_or_mark o.head)

module _ (utf8 : Utf8) (js : Floats) (Saved Failure : Type 0) where
  save-expected_frame :
      (o : BuildStarlinkLineOptions) (tags : List Text)
      → save_of utf8 js Saved Failure (expected_frame js o tags) (expected_frame js o tags).report
        ≡ (if o.message_type == event_report_message_type
            then record { device_id = o.device_id; parsed = expected_frame js o tags } ∷ []
            else [])
  unfolding expected_frame
  save-expected_frame o tags = elim (Bool-cases (o.message_type == event_report_message_type)) [
    | inl report ↦ rw report refl
    | inr other ↦ rw other refl
  ]

  saves_of_lines-built :
      (limit : ℕ) (tags : List Text) (os : List BuildStarlinkLineOptions)
      → All (IsSendable limit) os
      → saves_of_lines utf8 js Saved Failure tags (map build_starlink_line os)
        ≡ reports_of utf8 js Saved Failure tags os
  unfolding saves_of_lines
  saves_of_lines-built limit tags [] h = refl
  saves_of_lines-built limit tags (o ∷ os) (h, hs) =
      rw
        (
          parse_line-build_starlink_line js o h.id_form h.content_pos h.content_plain
              h.checksum_size h.checksum_digits tags h.safe h.head_form,
          saves_of_lines-built limit tags os hs,
        )
        (ap
          (λ (saves : List (Save utf8 js Saved Failure)).
            saves ++ reports_of utf8 js Saved Failure tags os)
          (save-expected_frame o tags))

  all_messages :
      (limit : ℕ) (os : List BuildStarlinkLineOptions)
      → All (IsSendable limit) os
      → All (IsMessage limit) (map build_starlink_line os)
  all_messages limit [] h = tt
  all_messages limit (o ∷ os) (h, hs) = (h.message, all_messages limit os hs)

  -- A unit sends ASCII lines that are built as the fixtures build them, each of the form that the
  -- parser takes, with a type and an index up to `Number.MAX_SAFE_INTEGER`, within the splitter's limit, and with "\r\n" behind it, to a splitter that holds
  -- nothing; the network cuts them into chunks anywhere. The reports among them are saved, each
  -- once, in order and as they were built, and no other line is.
  pub saving-session :
      (arrivals : List (ℕ × List ℕ)) (os : List BuildStarlinkLineOptions) (p : Peer)
      (s : StarlinkServer utf8 js Saved Failure)
      → p.splitter.buffer ≡ []
      → All (IsSendable p.splitter.max_buffer_bytes) os
      → concat (chunks_of utf8 js Saved Failure arrivals) ≡ sent (map build_starlink_line os)
      → (receive_all utf8 js Saved Failure arrivals (p, s)).1.saving
        ≡ s.saving ++ reports_of utf8 js Saved Failure s.report_format_tags os
  saving-session arrivals os p s empty h e =
      saving-receive_all utf8 js Saved Failure arrivals p s
      ∙ rw
          (push_chunks-sent utf8 p.splitter (map build_starlink_line os)
            (chunks_of utf8 js Saved Failure arrivals) empty
            (all_messages p.splitter.max_buffer_bytes os h) e)
          (rw (saves_of_lines-built p.splitter.max_buffer_bytes s.report_format_tags os h) refl)
