-- ===== src/Tracker/Registry/Runs.antt =====
-- The registry's invariant at a concrete history.
use avt_tracker.Base.{[], none, some}
use avt_tracker.Base.Text.{codes}
use avt_tracker.Tracker.Registry.{register, touch, Registry}
use avt_tracker.Tracker.Registry.InStep.{started, registered, touched, Reachable-IsInStep, IsInStep}

abbrev empty : Registry
empty = record { sockets = []; info = [] }

Reachable-IsInStep_example : IsInStep (
    touch
      (codes "1")
      9
      (register (codes "2") 5 none (some 80) 8 (register (codes "1") 4 none none 7 empty)))
Reachable-IsInStep_example =
    Reachable-IsInStep
      (touch (codes "1") 9
        (register (codes "2") 5 none (some 80) 8 (register (codes "1") 4 none none 7 empty)))
      (touched (codes "1") 9 _ (
        registered (codes "2") 5 none (some 80) 8 _
          (registered (codes "1") 4 none none 7 empty started)))
