-- ===== src/Tracker/Kinds.antt =====
-- Frame kinds: `TrackerFrameKind` of src/tracker/parser/tracker-parser.types.ts,
-- `resolveKind` of tracker-parser.service.ts.
use avt_tracker.Base.{list_eq, ◌==◌, if◌then◌else◌, List, [], ◌∷◌, Bool, true, false, String}
use avt_tracker.Base.Text.{codes, Text}

pub data TrackerFrameKind : Type 0 where
  rpt rpt_historical hbd ack nack qry all ver qni gsv lsv bsv : TrackerFrameKind
  gav cvs cmi dfi ldp ldp_historical bmr bmr_historical scf tcf bcd : TrackerFrameKind
  unknown : TrackerFrameKind

-- ALL_FRAME_KIND_TOKENS: every kind but UNKNOWN, with its token on the wire.
abbrev pub frame_kind_tokens : List (String × TrackerFrameKind)
frame_kind_tokens =
    ("+RPT", rpt)
    ∷ ("-RPT", rpt_historical)
    ∷ ("+HBD", hbd)
    ∷ ("+ACK", ack)
    ∷ ("+NACK", nack)
    ∷ ("+QRY", qry)
    ∷ ("+ALL", all)
    ∷ ("+VER", ver)
    ∷ ("+QNI", qni)
    ∷ ("+GSV", gsv)
    ∷ ("+LSV", lsv)
    ∷ ("+BSV", bsv)
    ∷ ("+GAV", gav)
    ∷ ("+CVS", cvs)
    ∷ ("+CMI", cmi)
    ∷ ("+DFI", dfi)
    ∷ ("+LDP", ldp)
    ∷ ("-LDP", ldp_historical)
    ∷ ("+BMR", bmr)
    ∷ ("-BMR", bmr_historical)
    ∷ ("+SCF", scf)
    ∷ ("+TCF", tcf)
    ∷ ("+BCD", bcd)
    ∷ []

-- HEX_ENCODED_FRAME_KINDS
abbrev pub is_hex_encoded : TrackerFrameKind → Bool
is_hex_encoded rpt = true
is_hex_encoded rpt_historical = true
is_hex_encoded hbd = true
is_hex_encoded ldp = true
is_hex_encoded ldp_historical = true
is_hex_encoded bmr = true
is_hex_encoded bmr_historical = true
is_hex_encoded _ = false

find_kind : Text → List (String × TrackerFrameKind) → TrackerFrameKind
find_kind token [] = unknown
find_kind token ((name, kind) ∷ tokens) =
    if list_eq (codes name) token then kind else find_kind token tokens

-- `headToken.replace(/:$/, '')`
strip_colon : Text → Text
strip_colon [] = []
strip_colon (c ∷ []) = if c == b':' then [] else c ∷ []
strip_colon (c ∷ d ∷ rest) = c ∷ strip_colon (d ∷ rest)

unfoldable pub resolve_kind : Text → TrackerFrameKind
unfolding find_kind strip_colon
resolve_kind head_token = find_kind (strip_colon head_token) frame_kind_tokens
