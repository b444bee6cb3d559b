-- ===== src/Tracker/Decode/SetBits.antt =====
-- The loop over a mask, against a run over the places of the digits 1 in the mask's binary form.
use avt_tracker.Base.{
  sym, ap, ◌∙◌, arith, false, ◌<◌, length, true, ◌*◌, ◌^◌, Bool, ◌/◌, ℕ, suc, ◌+◌, ◌≡◌, List, [],
  ◌∷◌, refl,
}
use avt_tracker.Base.Exec.{err, ok, Result, Exec}
use avt_tracker.Tracker.Decode.{all_bits, warn, after_case, mask_loop, Warning, Work, has_bit}
use avt_tracker.Tracker.Errors.{Error}
use native.Mathlib.Nat.{pow-suc, div-div-eq-div-mul}

-- The number with these binary digits, the lowest first.
unfoldable pub number_of : List Bool → ℕ
number_of [] = 0
number_of (true ∷ digits) = 1 + 2 * number_of digits
number_of (false ∷ digits) = 2 * number_of digits

-- The places of the digits 1, the lowest first, counted from a place.
unfoldable pub places_of : ℕ → List Bool → List ℕ
places_of place [] = []
places_of place (true ∷ digits) = place ∷ places_of (place + 1) digits
places_of place (false ∷ digits) = places_of (place + 1) digits

-- One digit further up.
next_digits :
    (mask bit rest digit : ℕ)
    → mask / 2 ^ bit ≡ digit + 2 * rest
    → digit < 2
    → mask / 2 ^ (bit + 1) ≡ rest
next_digits mask bit rest digit h small =
    let next : bit + 1 ≡ suc bit = omega arith in
    ap (λ (k : ℕ). mask / k) (rw next (pow-suc 2 bit))
    ∙ sym (div-div-eq-div-mul mask (2 ^ bit) 2)
    ∙ rw h (omega arith)

module _ {B : Type 0} (handler : ℕ → Exec Error (Work B) (Unit {0}))
    (stopped : ℕ → Error → Warning) where
  -- Each bit is handled in turn, until one throws: the block and the cursor stay as the failed
  -- handler left them, a warning is added, and the bits behind it are not looked at.
  pub run_bits : List ℕ → Work B → Work B
  run_bits [] w = w
  run_bits (bit ∷ bits) w = elim (handler bit w).0 [
    | ok _ ↦ run_bits bits (handler bit w).1
    | err e ↦ record (handler bit w).1 { scan = warn (stopped bit e) (handler bit w).1.scan }
  ]

  case_done :
      (mask bit : ℕ) (bits : List ℕ) (loop : Work B → Work B)
      (out : Result Error (Unit {0}) × Work B)
      → ((w : Work B) → loop w ≡ run_bits bits w)
      → after_case handler stopped mask bit loop out ≡ elim out.0 [
        | ok _ ↦ run_bits bits out.1
        | err e ↦ record out.1 { scan = warn (stopped bit e) out.1.scan }
      ]
  case_done mask bit bits loop (ok _, w) same = same w
  case_done mask bit bits loop (err e, w) same = refl

  loop_from :
      (digits : List Bool) (mask bit : ℕ) (w : Work B)
      → mask / 2 ^ bit ≡ number_of digits
      → mask_loop handler stopped mask (length digits) bit w ≡ run_bits (places_of bit digits) w
  unfolding mask_loop run_bits number_of places_of
  loop_from [] mask bit w h = refl
  loop_from (true ∷ digits) mask bit w h =
      let set : has_bit mask bit ≡ true = rw h (ground arith) in
      let above = next_digits mask bit (number_of digits) 1 h (omega arith) in
      rw (mask_loop, set)
        (case_done mask bit (places_of (bit + 1) digits)
          (mask_loop handler stopped mask (length digits) (bit + 1)) (handler bit w)
          (λ w'. loop_from digits mask (bit + 1) w' above))
  loop_from (false ∷ digits) mask bit w h =
      let unset : has_bit mask bit ≡ false = rw h (ground arith) in
      let above = next_digits mask bit (number_of digits) 0 (h ∙ omega arith) (omega arith) in
      rw (mask_loop, unset) (loop_from digits mask (bit + 1) w above)

  -- For a mask of 32 binary digits, the loop handles the places of the digits 1, of all the 32, from
  -- the lowest up, until a handler throws: the block and the cursor stay as that handler left
  -- them, and one warning is added.
  pub all_bits-places :
      (digits : List Bool) (w : Work B)
      → length digits ≡ 32
      → all_bits handler stopped (number_of digits) w ≡ run_bits (places_of 0 digits) w
  all_bits-places digits w size =
      ap (λ (left : ℕ). mask_loop handler stopped (number_of digits) left 0 w) (sym size)
      ∙ loop_from digits (number_of digits) 0 w (omega arith)
