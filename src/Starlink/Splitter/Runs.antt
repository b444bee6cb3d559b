-- ===== src/Starlink/Splitter/Runs.antt =====
-- The line splitter at concrete streams, with a decoder for ASCII.
use avt_tracker.Base.{false, length, ℕ, ◌≤◌, ◌≡◌, List, [], ◌∷◌, ◌++◌, refl, arith}
use avt_tracker.Base.Text.{Text, codes}
use avt_tracker.Starlink.Splitter.{
  check_line_overflow, line_end, drain_lines, LineSplitter, Utf8, push_chunk,
}
use avt_tracker.Starlink.Splitter.Chunks.{
  push_chunks-lines, IsWithin, concat, push_chunk_bound, push_chunks,
}
use avt_tracker.Starlink.Splitter.Cuts.{attach, cut_lines, texts}
use avt_tracker.Starlink.Splitter.Messages.{sent, push_chunks-sent, IsMessage}

abbrev pub ascii_only : Utf8
ascii_only = record { decode = λ bytes. bytes; decode_ascii = λ bytes h. refl }

abbrev small : LineSplitter
small = record { buffer = []; max_buffer_bytes = 8 }

-- "\r\n" and "\n" both end a line, blank lines are dropped, and a part of a line is kept.
endings :
    push_chunk ascii_only small (codes "ab" ++ (13 ∷ 10 ∷ 10 ∷ codes "c" ++ (10 ∷ codes "d"))) ≡ (
      record { lines = codes "ab" ∷ codes "c" ∷ []; overflowed = false },
      record small { buffer = codes "d" },
    )
unfolding push_chunk drain_lines line_end check_line_overflow
endings = refl

push_chunk_bound_example : length (push_chunk ascii_only small (codes "123456789")).1.buffer ≤ 8
push_chunk_bound_example = push_chunk_bound ascii_only small (codes "123456789")

abbrev torn : List (List ℕ)
torn = codes "a" ∷ (codes "b" ++ (13 ∷ [])) ∷ (10 ∷ codes "c") ∷ []

push_chunks-lines_example : push_chunks ascii_only small torn ≡ (
  texts ascii_only (cut_lines (small.buffer ++ concat torn)).0,
  record small { buffer = (cut_lines (small.buffer ++ concat torn)).1 },
)
push_chunks-lines_example = push_chunks-lines ascii_only small torn refl torn_fits
  where
    torn_fits : IsWithin 8 (cut_lines (small.buffer ++ concat torn))
    torn_fits = unfold cut_lines attach concat in ((omega arith, tt), omega arith)

abbrev messages : List Text
messages = codes "ab" ∷ codes "c" ∷ []

push_chunks-sent_example :
    push_chunks ascii_only small
      ((codes "ab" ++ (13 ∷ [])) ∷ (10 ∷ codes "c") ∷ (13 ∷ 10 ∷ []) ∷ [])
    ≡ (messages, small)
push_chunks-sent_example =
    push_chunks-sent ascii_only small messages
      ((codes "ab" ++ (13 ∷ [])) ∷ (10 ∷ codes "c") ∷ (13 ∷ 10 ∷ []) ∷ []) refl
      (fit_ab, (fit_c, tt)) (unfold concat sent in refl)
  where
    fit_ab : IsMessage 8 (codes "ab")
    fit_ab = record {
      ascii = omega arith;
      one_line = refl;
      some_text = omega arith;
      fits = omega arith;
    }

    fit_c : IsMessage 8 (codes "c")
    fit_c = record {
      ascii = omega arith;
      one_line = refl;
      some_text = omega arith;
      fits = omega arith;
    }
