-- ===== src/Service/Captures.antt =====
-- verify_start and enroll_start of pcside/daemon/src/dbus_iface.rs and the tasks that they spawn, from the permit on. What a
-- verification decides is in Verification.
use linux_fingerprint_r.Prelude.{
  ℕ, Bool, true, false, if◌then◌else◌, Option, none, some, List, [], ◌∷◌, Bytes, codes, eq, Result,
  ok, err, values, lookup, Map,
}
use linux_fingerprint_r.Device.{
  ActionKind, ActionToken, DeviceState, FprintError, begin_action, end_action_if_owner,
}
use linux_fingerprint_r.Disk.{Trial}
use linux_fingerprint_r.Storage.{
  Codec, StorageError, allocate_slot, set_slot, get_slot, get_user_slots,
}
use linux_fingerprint_r.Service.State.{
  Capture, verify_admitted, verifying, enroll_admitted, enroll_started, enroll_allocating,
  enrolling, storing, Service,
}

-- The permit is dropped with the call or the task.
unfoldable pub dropped : DeviceState → Service → Service
dropped d s = record s { device = d; capture = none }

unfoldable pub waiting_for_finger : DeviceState → DeviceState
waiting_for_finger d = record d { finger_needed = true; finger_present = false }

unfoldable pub held_by : Capture → DeviceState → Service → Service
held_by c d s = record s { device = d; capture = some c }

-- `expected_slots`: all of the user's for "any", or the named finger's; none where there is none.
unfoldable pub expected : Bytes → Map ℕ → Option (List ℕ)
expected finger [] = none
expected finger (e ∷ m) =
    if eq finger (codes "any")
    then some (values (e ∷ m))
    else elim (lookup finger (e ∷ m)) [ none ↦ none | some slot ↦ some (slot ∷ []) ]

unfoldable pub verify_with : ActionToken → DeviceState → Option (List ℕ) → Service → Service
verify_with token d none s = dropped (end_action_if_owner token d).1 s
verify_with token d (some slots) s = held_by (verifying token slots) (waiting_for_finger d) s

unfoldable pub start_verify :
    Bytes → Bytes → Result FprintError ActionToken × DeviceState → Service → Service
start_verify user finger (err e, d) s = dropped d s
start_verify user finger (ok token, d) s =
    verify_with token d (expected finger (get_user_slots s.storage user)) s

unfoldable pub start_enroll :
    Bytes → Bytes → Result FprintError ActionToken × DeviceState → Service → Service
start_enroll user finger (err e, d) s = dropped d s
start_enroll user finger (ok token, d) s = held_by (enroll_started user finger token) d s

unfoldable pub enroll_into : Bytes → Bytes → ℕ → ActionToken → Service → Service
enroll_into user finger slot token s =
    held_by (enrolling user finger slot token) (waiting_for_finger s.device) s

-- A finger that is enrolled keeps its slot.
unfoldable pub reuse_slot : Bytes → Bytes → ActionToken → Option ℕ → Service → Service
reuse_slot user finger token (some slot) s = enroll_into user finger slot token s
reuse_slot user finger token none s = held_by (enroll_allocating user finger token) s.device s

unfoldable pub new_slot : Bytes → Bytes → ActionToken → Result StorageError ℕ → Service → Service
new_slot user finger token (ok slot) s = enroll_into user finger slot token s
new_slot user finger token (err e) s = dropped (end_action_if_owner token s.device).1 s

-- The next event of a call that holds the permit; a task's events are others.
unfoldable pub proceed : Option Capture → Service → Service
proceed none s = s
proceed (some (verify_admitted user finger)) s =
    start_verify user finger (begin_action ActionKind.verify s.device) s
proceed (some (enroll_admitted user finger)) s =
    start_enroll user finger (begin_action ActionKind.enroll s.device) s
proceed (some (enroll_started user finger token)) s =
    reuse_slot user finger token (get_slot s.storage user finger) s
proceed (some (enroll_allocating user finger token)) s =
    new_slot user finger token (allocate_slot s.storage) s
proceed (some (verifying token slots)) s = s
proceed (some (enrolling user finger slot token)) s = s
proceed (some (storing user finger slot)) s = s

unfoldable pub finish_verify : Option Capture → Service → Service
finish_verify none s = s
finish_verify (some (verifying token slots)) s = dropped (end_action_if_owner token s.device).1 s
finish_verify (some (verify_admitted user finger)) s = s
finish_verify (some (enroll_admitted user finger)) s = s
finish_verify (some (enroll_started user finger token)) s = s
finish_verify (some (enroll_allocating user finger token)) s = s
finish_verify (some (enrolling user finger slot token)) s = s
finish_verify (some (storing user finger slot)) s = s

-- The task goes on only while its token owns the action, and only with a template in the sensor.
unfoldable pub keep_result : Bytes → Bytes → ℕ → Bool → Bool × DeviceState → Service → Service
keep_result user finger slot true (true, d) s = held_by (storing user finger slot) d s
keep_result user finger slot false (true, d) s = dropped d s
keep_result user finger slot succeeded (false, d) s = dropped d s

unfoldable pub finish_enroll : Bool → Option Capture → Service → Service
finish_enroll succeeded none s = s
finish_enroll succeeded (some (enrolling user finger slot token)) s =
    keep_result user finger slot succeeded (end_action_if_owner token s.device) s
finish_enroll succeeded (some (verify_admitted user finger)) s = s
finish_enroll succeeded (some (verifying token slots)) s = s
finish_enroll succeeded (some (enroll_admitted user finger)) s = s
finish_enroll succeeded (some (enroll_started user finger token)) s = s
finish_enroll succeeded (some (enroll_allocating user finger token)) s = s
finish_enroll succeeded (some (storing user finger slot)) s = s

unfoldable pub store_result : Codec → Trial → Option Capture → Service → Service
store_result c t none s = s
store_result c t (some (storing user finger slot)) s = record s {
  storage = (set_slot c t s.storage user finger slot).1;
  capture = none;
}
store_result c t (some (verify_admitted user finger)) s = s
store_result c t (some (verifying token slots)) s = s
store_result c t (some (enroll_admitted user finger)) s = s
store_result c t (some (enroll_started user finger token)) s = s
store_result c t (some (enroll_allocating user finger token)) s = s
store_result c t (some (enrolling user finger slot token)) s = s
