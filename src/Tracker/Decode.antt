-- ===== src/Tracker/Decode.antt =====
-- The loop that src/tracker/parser/tracker-parser.service.ts writes for every mask: bits 0 to 31
-- in order, a `switch` on the bit inside `try`, and an early end with a warning at the first error.
-- The cursor and the list of warnings are shared by all blocks of a report; a block is filled in
-- place, so what was assigned before an error stays assigned.
pub mod SetBits
use avt_tracker.Base.{
  if◌then◌else◌, ◌==◌, ℕ, zero, suc, ◌+◌, ◌/◌, ◌%◌, ◌^◌, List, [], ◌∷◌, ◌++◌, Bool, true, false,
  Option, none, some,
}
use avt_tracker.Base.Exec.{Exec, Result, ok, err, ◌>>=◌, modify, zoom, pure}
use avt_tracker.Tracker.Cursor.{Cursor, Read}
use avt_tracker.Tracker.Errors.{bits_not_decoded, Error, MaskName, Warning}

pub record Scan : Type 0 where
  pub cursor : Cursor
  pub warnings : List Warning

-- A block under construction, with the cursor and the warnings.
pub record Work (B : Type 0) : Type 0 where
  pub scan : Scan
  pub block : B

abbrev pub warn : Warning → Scan → Scan
warn x s = record s { warnings = s.warnings ++ (x ∷ []) }

-- A read of the shared cursor.
abbrev pub on_cursor : {A : Type 0} → Read A → Exec Error Scan A
on_cursor m = zoom (λ s. s.cursor) (λ c s. record s { cursor = c }) m

module _ {A B : Type 0} where
  abbrev pub on_scan : Exec Error Scan A → Exec Error (Work B) A
  on_scan m = zoom (λ w. w.scan) (λ s w. record w { scan = s }) m

  abbrev pub read : Read A → Exec Error (Work B) A
  read m = on_scan (on_cursor m)

  -- `block.x = <read>`
  abbrev pub field : Read A → (A → B → B) → Exec Error (Work B) (Unit {0})
  field m put = read m >>= λ v. modify (λ w. record w { block = put v w.block })

-- `mask & (1 << bit)`, for an unsigned 32-bit mask.
abbrev pub has_bit : ℕ → ℕ → Bool
has_bit mask bit = mask / 2 ^ bit % 2 == 1

module _ {B : Type 0} (handler : ℕ → Exec Error (Work B) (Unit {0})) (stopped : ℕ → Error → Warning)
    (mask : ℕ) where
  -- What follows a call of the handler: the rest of the loop, or the `catch`.
  abbrev pub after_case : ℕ → (Work B → Work B) → Result Error (Unit {0}) × Work B → Work B
  after_case bit rest (ok _, w) = rest w
  after_case bit rest (err e, w) = record w { scan = warn (stopped bit e) w.scan }

  -- `left` bits from `bit` on.
  pub mask_loop : ℕ → ℕ → Work B → Work B
  mask_loop zero bit w = w
  mask_loop (suc left) bit w = elim (has_bit mask bit) [
    | true ↦ after_case bit (mask_loop left (bit + 1)) (handler bit w)
    | false ↦ mask_loop left (bit + 1) w
  ]

  abbrev pub all_bits : Work B → Work B
  all_bits w = mask_loop 32 0 w

-- `if (unsupportedBits.length > 0) warnings.push(…)`
abbrev pub warn_unsupported : MaskName → List ℕ → Scan → Scan
warn_unsupported name [] s = s
warn_unsupported name (b ∷ bits) s = warn (bits_not_decoded name (b ∷ bits)) s

-- `for (let i = 0; i < n; i++) list.push(<read>)`, into a list that an error discards.
abbrev pub repeat : {A : Type 0} → ℕ → Read A → Read (List A)
repeat zero m = pure []
repeat (suc n) m = m >>= λ a. repeat n m >>= λ rest. pure (a ∷ rest)

-- `if (mask & (1 << bit)) x = <read>`
abbrev pub when_bit : {A : Type 0} → ℕ → ℕ → Read A → Read (Option A)
when_bit mask bit m = if has_bit mask bit then (m >>= λ a. pure (some a)) else pure none
