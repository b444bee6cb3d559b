-- ===== src/Starlink/Registry/Runs.antt =====
-- The registry of the StarLink units at a concrete content.
use avt_tracker.Base.{[], none}
use avt_tracker.Base.Text.{codes}
use avt_tracker.Starlink.Registry.{Registry, register}
use avt_tracker.Starlink.Registry.Mirrors.{registry-IsMirrored, IsMirrored}

abbrev empty : Registry
empty = record { sockets = []; info = [] }

registry-IsMirrored_example : IsMirrored (register (codes "0A1B2C") 3 none none 7 empty)
registry-IsMirrored_example = registry-IsMirrored (register (codes "0A1B2C") 3 none none 7 empty)
