-- ===== src/Service.antt =====
-- pcside/daemon/src/dbus_iface.rs: calls, captures and deletions that run at the same time. Between two points where
-- it waits, a call or a task does one event; the events of all of them come in any order. Which error a
-- call returns is left out here, since it changes nothing.
mod Tests
pub mod State
pub mod Calls
pub mod Captures
pub mod Deletions
pub mod Reserved
pub mod Slots
pub mod Held
pub mod Turns
pub mod Permits
use linux_fingerprint_r.Prelude.{
  ℕ, zero, suc, Bool, true, false, if◌then◌else◌, Option, none, some, List, [], ◌∷◌, ◌++◌, Bytes,
  codes, eq, Result, ok, err, keys, values, lookup, Map, get_elem?,
}
use linux_fingerprint_r.Device.{
  ActionKind, ActionToken, DeviceState, FprintError, validate_finger, begin_action,
  end_action_if_owner, ensure_claim, claim, release, handle_client_disconnect, verify_stop,
  enroll_stop,
}
use linux_fingerprint_r.Disk.{Trial}
use linux_fingerprint_r.Storage.{
  Codec, Storage, StorageError, Users, allocate_slot, set_slot, remove_finger, get_slot,
  get_user_slots,
}
use linux_fingerprint_r.Service.State.{
  Operation, verify_start, enroll_start, delete_enrolled_finger, delete_enrolled_fingers, Call,
  Capture, verify_admitted, verifying, enroll_admitted, enroll_started, enroll_allocating,
  enrolling, storing, Deletion, Service, Event, claimed, released, verify_stopped, enroll_stopped,
  disconnected, checked, authorized, begun, proceeded, verified, enrolled, stored, answered,
  removed, ended, remove_at, set_at,
}
use linux_fingerprint_r.Service.Calls.{with_user, finger_allowed, begin_call}
use linux_fingerprint_r.Service.Captures.{proceed, finish_verify, finish_enroll, store_result}
use linux_fingerprint_r.Service.Deletions.{answer_deletion, remove_row, finish_deletion}

unfoldable pub with_device : DeviceState → Service → Service
with_device d s = record s { device = d }

unfoldable pub step : Codec → Event → Service → Service
step c (claimed user sender) s = with_device (claim user sender s.device).1 s
step c (released sender) s = with_device (release sender s.device).1 s
step c (verify_stopped sender) s = with_device (verify_stop sender s.device).1 s
step c (enroll_stopped sender) s = with_device (enroll_stop sender s.device).1 s
step c (disconnected name) s = with_device (handle_client_disconnect name s.device) s
step c (checked op sender) s = with_user op (finger_allowed op) (ensure_claim sender s.device) s
step c (authorized user) s = record s {
  calls = record { operation = delete_enrolled_fingers; user = user } ∷ s.calls;
}
step c (begun i) s = begin_call (get_elem? s.calls i) (record s { calls = remove_at i s.calls })
step c proceeded s = proceed s.capture s
step c verified s = finish_verify s.capture s
step c (enrolled succeeded) s = finish_enroll succeeded s.capture s
step c (stored t) s = store_result c t s.capture s
step c (answered i deleted) s = answer_deletion i deleted (get_elem? s.deletions i) s
step c (removed i t) s = remove_row c t i (get_elem? s.deletions i) s
step c (ended i) s = finish_deletion i (get_elem? s.deletions i) s

-- The events of a run, in the order in which they come.
unfoldable pub run_events : Codec → List Event → Service → Service
run_events c [] s = s
run_events c (e ∷ es) s = run_events c es (step c e s)
