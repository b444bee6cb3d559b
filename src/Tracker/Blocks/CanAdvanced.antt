-- ===== src/Tracker/Blocks/CanAdvanced.antt =====
-- CAN Advanced Information Mask 1 (+RPT Data Mask bit 24): `parseCanAdvancedInfoMask1Block`.
use avt_tracker.Base.{ℕ, ◌+◌, List, [], ◌∷◌, ◌++◌}
use avt_tracker.Base.Exec.{Exec, ok, ◌>>=◌, modify}
use avt_tracker.Tracker.Cursor.{read_bytes, read_uint32_be, read_uint8}
use avt_tracker.Tracker.Decode.{all_bits, on_cursor, read, Scan, Work}
use avt_tracker.Tracker.Errors.{can_advanced1, stopped_decoding, Error}

-- AdvCAN PID N is bit N - 1 of the mask.
pub record CanAdvancedInfoPid : Type 0 where
  pub pid : ℕ
  pub bytes : List ℕ

pub record CanAdvancedInfoMask1Block : Type 0 where
  pub mask : ℕ
  pub pids : List CanAdvancedInfoPid

pub can_advanced_case : ℕ → Exec Error (Work CanAdvancedInfoMask1Block) (Unit {0})
can_advanced_case bit = do
  length ← read read_uint8
  bytes ← read (read_bytes length)
  modify (λ w. record w {
    block = record (w.block) {
      pids = w.block.pids ++ (record { pid = bit + 1; bytes = bytes } ∷ []);
    };
  })

-- The warning names the PID, not the bit.
unfoldable pub parse_can_advanced_info_mask1_block : Exec Error Scan CanAdvancedInfoMask1Block
parse_can_advanced_info_mask1_block = do
  mask ← on_cursor read_uint32_be
  λ s.
      let w =
        all_bits can_advanced_case (λ bit. stopped_decoding can_advanced1 (bit + 1)) mask
          (record { scan = s; block = record { mask = mask; pids = [] } }) in
      (ok w.block, w.scan)
