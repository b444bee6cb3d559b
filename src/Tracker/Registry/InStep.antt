-- ===== src/Tracker/Registry/InStep.antt =====
-- The two maps of the registry have the same keys.
use avt_tracker.Base.{refl, [], inr, inl, sym, Option, ◌∙◌, ℕ, ◌≡◌}
use avt_tracker.Base.Dict.{keys-set_present, get-cases, keys-set, keys-delete, keys}
use avt_tracker.Tracker.Registry.{Text, Registry, register, touch, unregister}

-- A device has a socket if, and only if, it has metadata, in the same order.
pub record IsInStep (r : Registry) : Type 0 where
  pub same_keys : keys r.sockets ≡ keys r.info

pub register-IsInStep :
    (imei : Text) (socket : ℕ) (address : Option Text) (port : Option ℕ) (now : ℕ) (r : Registry)
    → IsInStep r
    → IsInStep (register imei socket address port now r)
unfolding register
register-IsInStep imei socket address port now r h = record {
  same_keys = keys-set imei socket r.sockets ∙ rw h.same_keys (sym (keys-set imei _ r.info));
}

pub touch-IsInStep :
    (imei : Text) (now : ℕ) (r : Registry) → IsInStep r → IsInStep (touch imei now r)
unfolding touch
touch-IsInStep imei now r h = elim (get-cases imei r.info) [
  | inl absent ↦ rw (touch, absent) h
  | inr (existing, present) ↦
      rw (touch, present)
        (record { same_keys = h.same_keys ∙ sym (keys-set_present imei _ existing r.info present) })
]

pub unregister-IsInStep : (imei : Text) (r : Registry) → IsInStep r → IsInStep (unregister imei r)
unfolding unregister
unregister-IsInStep imei r h = record {
  same_keys = keys-delete imei r.sockets ∙ rw h.same_keys (sym (keys-delete imei r.info));
}

-- The registries that come of an empty one by any calls of its methods, in any order.
pub data Reachable : Registry → Type 0 where
  started : Reachable (record { sockets = []; info = [] })
  registered :
      (imei : Text) (socket : ℕ) (address : Option Text) (port : Option ℕ) (now : ℕ) (r : Registry)
      → Reachable r
      → Reachable (register imei socket address port now r)
  touched : (imei : Text) (now : ℕ) (r : Registry) → Reachable r → Reachable (touch imei now r)
  unregistered : (imei : Text) (r : Registry) → Reachable r → Reachable (unregister imei r)

-- Whatever calls were made since the start, the devices with a socket are the devices with
-- metadata, in the same order.
pub Reachable-IsInStep : (r : Registry) → Reachable r → IsInStep r
unfolding keys
Reachable-IsInStep r started = record { same_keys = refl }
Reachable-IsInStep _ (registered imei socket address port now r before) =
    register-IsInStep imei socket address port now r (Reachable-IsInStep r before)
Reachable-IsInStep _ (touched imei now r before) =
    touch-IsInStep imei now r (Reachable-IsInStep r before)
Reachable-IsInStep _ (unregistered imei r before) =
    unregister-IsInStep imei r (Reachable-IsInStep r before)
