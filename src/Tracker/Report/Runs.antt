-- ===== src/Tracker/Report/Runs.antt =====
-- A nested block whose mask is all that is left.
use avt_tracker.Base.{zero, suc, ℕ, false, refl, true, Bool, List, ◌≡◌, [], ◌∷◌}
use avt_tracker.Tracker.Blocks.EventData.{event_data_case, fresh, EventDataBlock}
use avt_tracker.Tracker.Decode.{all_bits, Work, Scan}
use avt_tracker.Tracker.Decode.SetBits.{all_bits-places, number_of, places_of, run_bits}
use avt_tracker.Tracker.Errors.{event_data_mask, stopped_decoding}

abbrev mask_alone : Scan
mask_alone = record { cursor = record { buf = 7 ∷ 0 ∷ 0 ∷ 1 ∷ 1 ∷ []; offset = 1 }; warnings = [] }

abbrev no_event_data : Work EventDataBlock
no_event_data = record { scan = mask_alone; block = fresh 5 }

abbrev zeros : ℕ → List Bool
zeros zero = []
zeros (suc n) = false ∷ zeros n

-- The mask 5.
abbrev five : List Bool
five = true ∷ false ∷ true ∷ zeros 29

all_bits-places_example :
    all_bits event_data_case (stopped_decoding event_data_mask) (number_of five) no_event_data
    ≡ run_bits event_data_case (stopped_decoding event_data_mask) (places_of 0 five) no_event_data
all_bits-places_example =
    all_bits-places event_data_case (stopped_decoding event_data_mask) five no_event_data refl
