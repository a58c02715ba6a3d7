-- ===== src/Service/Calls.antt =====
-- How the calls of pcside/daemon/src/dbus_iface.rs get their user and pass their gates.
use linux_fingerprint_r.Prelude.{
  ℕ, true, false, Option, none, some, List, [], ◌∷◌, Bytes, Result, ok, err, keys,
}
use linux_fingerprint_r.Device.{
  ActionKind, ActionToken, DeviceState, FprintError, validate_finger, begin_action,
}
use linux_fingerprint_r.Storage.{get_slot, get_user_slots}
use linux_fingerprint_r.Service.State.{
  Operation, verify_start, enroll_start, delete_enrolled_finger, delete_enrolled_fingers, Call,
  Capture, verify_admitted, enroll_admitted, Service,
}

-- `validate_finger`, which allows "any" to a verification
unfoldable pub finger_allowed : Operation → Result FprintError (Unit {0})
finger_allowed (verify_start finger) = validate_finger finger true
finger_allowed (enroll_start finger) = validate_finger finger false
finger_allowed (delete_enrolled_finger finger) = validate_finger finger false
finger_allowed delete_enrolled_fingers = ok tt

unfoldable pub with_user :
    Operation → Result FprintError (Unit {0}) → Result FprintError Bytes → Service → Service
with_user op (err e) user s = s
with_user op (ok _) (err e) s = s
with_user op (ok _) (ok user) s = record s {
  calls = record { operation = op; user = user } ∷ s.calls;
}

-- `try_acquire_owned`: the one permit is free, or the call is refused.
unfoldable pub acquire : Capture → Option Capture → Service → Service
acquire c none s = record s { capture = some c }
acquire c (some held) s = s

-- Behind the gate of `begin_delete`.
unfoldable pub with_deletion :
    Bytes → List Bytes → Result FprintError ActionToken × DeviceState → Service → Service
with_deletion user fingers (err e, d) s = s
with_deletion user fingers (ok token, d) s = record s {
  device = d;
  deletions = record { owner = user; asked = fingers; succeeded = []; token = token } ∷ s.deletions;
}

-- A finger that is not enrolled is refused before the gate.
unfoldable pub delete_one : Bytes → Bytes → Option ℕ → Service → Service
delete_one user finger none s = s
delete_one user finger (some slot) s =
    with_deletion user (finger ∷ []) (begin_action ActionKind.delete s.device) s

unfoldable pub begin_operation : Operation → Bytes → Service → Service
begin_operation (verify_start finger) user s = acquire (verify_admitted user finger) s.capture s
begin_operation (enroll_start finger) user s = acquire (enroll_admitted user finger) s.capture s
begin_operation (delete_enrolled_finger finger) user s =
    delete_one user finger (get_slot s.storage user finger) s
begin_operation delete_enrolled_fingers user s =
    with_deletion user (keys (get_user_slots s.storage user))
      (begin_action ActionKind.delete s.device) s

unfoldable pub begin_call : Option Call → Service → Service
begin_call none s = s
begin_call (some c) s = begin_operation c.operation c.user s
