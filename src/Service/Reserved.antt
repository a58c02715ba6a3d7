-- ===== src/Service/Reserved.antt =====
-- The slot that an enrolment of pcside/daemon/src/dbus_iface.rs fills is no other finger's: the calls and the captures.
use linux_fingerprint_r.Prelude.{
  ℕ, Bool, true, false, ◌≡◌, refl, sym, subst, Option, none, some, List, [], ◌∷◌, Bytes, Result, ok,
  err, keys,
}
use linux_fingerprint_r.Device.{ActionKind, ActionToken, DeviceState, FprintError, begin_action}
use linux_fingerprint_r.Disk.{Trial}
use linux_fingerprint_r.Storage.{
  Codec, StorageError, Users, allocate_slot, get_slot, get_user_slots, slot_of,
}
use linux_fingerprint_r.Storage.Allocation.{allocate_slot-Lowest}
use linux_fingerprint_r.Storage.Exclusive.{
  IsExclusive, IsReserved, own-IsReserved, free-IsReserved, put_reserved-IsExclusive,
}
use linux_fingerprint_r.Storage.Saving.{set_slot-users}
use linux_fingerprint_r.Service.State.{
  Operation, delete_enrolled_finger, delete_enrolled_fingers, Call, Capture, verify_admitted,
  verifying, enroll_admitted, enroll_started, enroll_allocating, enrolling, storing, Service,
}
use linux_fingerprint_r.Service.Calls.{
  with_user, acquire, with_deletion, delete_one, begin_operation, begin_call,
}
use linux_fingerprint_r.Service.Captures.{
  dropped, held_by, verify_with, start_verify, start_enroll, enroll_into, reuse_slot, new_slot,
  proceed, finish_verify, keep_result, finish_enroll, store_result, expected,
}

-- The slot that an enrolment fills is no other finger's, from the choice of the slot to the end.
abbrev pub HasSlot : Option Capture → Users → Type 0
HasSlot none users = Unit
HasSlot (some (verify_admitted user finger)) users = Unit
HasSlot (some (verifying token slots)) users = Unit
HasSlot (some (enroll_admitted user finger)) users = Unit
HasSlot (some (enroll_started user finger token)) users = Unit
HasSlot (some (enroll_allocating user finger token)) users = Unit
HasSlot (some (enrolling user finger slot token)) users = IsReserved user finger slot users
HasSlot (some (storing user finger slot)) users = IsReserved user finger slot users

-- No two fingers have one slot, and none gets one that another has.
abbrev pub IsSafe : Service → Type 0
IsSafe s = IsExclusive s.storage.users × HasSlot s.capture s.storage.users

pub with_user-IsSafe :
    (op : Operation) (a : Result FprintError (Unit {0})) (user : Result FprintError Bytes)
    (s : Service)
    → IsSafe s
    → IsSafe (with_user op a user s)
unfolding with_user
with_user-IsSafe op (err e) user s h = h
with_user-IsSafe op (ok _) (err e) s h = h
with_user-IsSafe op (ok _) (ok user) s h = h

acquire-verify :
    (user finger : Bytes) (o : Option Capture) (s : Service)
    → IsSafe s
    → IsSafe (acquire (verify_admitted user finger) o s)
unfolding acquire
acquire-verify user finger none s h = (h.0, tt)
acquire-verify user finger (some held) s h = h

acquire-enroll :
    (user finger : Bytes) (o : Option Capture) (s : Service)
    → IsSafe s
    → IsSafe (acquire (enroll_admitted user finger) o s)
unfolding acquire
acquire-enroll user finger none s h = (h.0, tt)
acquire-enroll user finger (some held) s h = h

with_deletion-IsSafe :
    (user : Bytes) (fingers : List Bytes) (r : Result FprintError ActionToken × DeviceState)
    (s : Service)
    → IsSafe s
    → IsSafe (with_deletion user fingers r s)
unfolding with_deletion
with_deletion-IsSafe user fingers (err e, d) s h = h
with_deletion-IsSafe user fingers (ok token, d) s h = h

delete_one-IsSafe :
    (user finger : Bytes) (o : Option ℕ) (s : Service)
    → IsSafe s
    → IsSafe (delete_one user finger o s)
unfolding delete_one
delete_one-IsSafe user finger none s h = h
delete_one-IsSafe user finger (some slot) s h =
    with_deletion-IsSafe user (finger ∷ []) (begin_action ActionKind.delete s.device) s h

begin_operation-IsSafe :
    (op : Operation) (user : Bytes) (s : Service) → IsSafe s → IsSafe (begin_operation op user s)
unfolding begin_operation
begin_operation-IsSafe (Operation.verify_start finger) user s h =
    acquire-verify user finger s.capture s h
begin_operation-IsSafe (Operation.enroll_start finger) user s h =
    acquire-enroll user finger s.capture s h
begin_operation-IsSafe (delete_enrolled_finger finger) user s h =
    delete_one-IsSafe user finger (get_slot s.storage user finger) s h
begin_operation-IsSafe delete_enrolled_fingers user s h =
    with_deletion-IsSafe user (keys (get_user_slots s.storage user))
      (begin_action ActionKind.delete s.device) s h

pub begin_call-IsSafe : (o : Option Call) (s : Service) → IsSafe s → IsSafe (begin_call o s)
unfolding begin_call
begin_call-IsSafe none s h = h
begin_call-IsSafe (some c) s h = begin_operation-IsSafe c.operation c.user s h

verify_with-IsSafe :
    (token : ActionToken) (d : DeviceState) (o : Option (List ℕ)) (s : Service)
    → IsSafe s
    → IsSafe (verify_with token d o s)
unfolding verify_with dropped held_by
verify_with-IsSafe token d none s h = (h.0, tt)
verify_with-IsSafe token d (some slots) s h = (h.0, tt)

start_verify-IsSafe :
    (user finger : Bytes) (r : Result FprintError ActionToken × DeviceState) (s : Service)
    → IsSafe s
    → IsSafe (start_verify user finger r s)
unfolding start_verify dropped
start_verify-IsSafe user finger (err e, d) s h = (h.0, tt)
start_verify-IsSafe user finger (ok token, d) s h =
    verify_with-IsSafe token d (expected finger (get_user_slots s.storage user)) s h

start_enroll-IsSafe :
    (user finger : Bytes) (r : Result FprintError ActionToken × DeviceState) (s : Service)
    → IsSafe s
    → IsSafe (start_enroll user finger r s)
unfolding start_enroll dropped held_by
start_enroll-IsSafe user finger (err e, d) s h = (h.0, tt)
start_enroll-IsSafe user finger (ok token, d) s h = (h.0, tt)

reuse_slot-IsSafe :
    (user finger : Bytes) (token : ActionToken) (o : Option ℕ) (s : Service)
    → slot_of s.storage.users user finger ≡ o
    → IsSafe s
    → IsSafe (reuse_slot user finger token o s)
unfolding reuse_slot enroll_into held_by
reuse_slot-IsSafe user finger token none s e h = (h.0, tt)
reuse_slot-IsSafe user finger token (some slot) s e h =
    (h.0, own-IsReserved s.storage.users user finger slot h.0 e)

new_slot-IsSafe :
    (user finger : Bytes) (token : ActionToken) (r : Result StorageError ℕ) (s : Service)
    → allocate_slot s.storage ≡ r
    → IsSafe s
    → IsSafe (new_slot user finger token r s)
unfolding new_slot enroll_into held_by dropped
new_slot-IsSafe user finger token (err e) s k h = (h.0, tt)
new_slot-IsSafe user finger token (ok slot) s k h = (
  h.0,
  free-IsReserved s.storage.users user finger slot (allocate_slot-Lowest s.storage slot k).2,
)

pub proceed-IsSafe :
    (o : Option Capture) (s : Service) → s.capture ≡ o → IsSafe s → IsSafe (proceed o s)
unfolding proceed get_slot
proceed-IsSafe none s e h = h
proceed-IsSafe (some (verify_admitted user finger)) s e h = start_verify-IsSafe user finger _ s h
proceed-IsSafe (some (enroll_admitted user finger)) s e h = start_enroll-IsSafe user finger _ s h
proceed-IsSafe (some (enroll_started user finger token)) s e h =
    reuse_slot-IsSafe user finger token _ s refl h
proceed-IsSafe (some (enroll_allocating user finger token)) s e h =
    new_slot-IsSafe user finger token _ s refl h
proceed-IsSafe (some (verifying token slots)) s e h = h
proceed-IsSafe (some (enrolling user finger slot token)) s e h = h
proceed-IsSafe (some (storing user finger slot)) s e h = h

pub finish_verify-IsSafe :
    (o : Option Capture) (s : Service) → IsSafe s → IsSafe (finish_verify o s)
unfolding finish_verify dropped
finish_verify-IsSafe none s h = h
finish_verify-IsSafe (some (verifying token slots)) s h = (h.0, tt)
finish_verify-IsSafe (some (verify_admitted user finger)) s h = h
finish_verify-IsSafe (some (enroll_admitted user finger)) s h = h
finish_verify-IsSafe (some (enroll_started user finger token)) s h = h
finish_verify-IsSafe (some (enroll_allocating user finger token)) s h = h
finish_verify-IsSafe (some (enrolling user finger slot token)) s h = h
finish_verify-IsSafe (some (storing user finger slot)) s h = h

keep_result-IsSafe :
    (user finger : Bytes) (slot : ℕ) (succeeded : Bool) (r : Bool × DeviceState) (s : Service)
    → IsReserved user finger slot s.storage.users
    → IsSafe s
    → IsSafe (keep_result user finger slot succeeded r s)
unfolding keep_result held_by dropped
keep_result-IsSafe user finger slot true (true, d) s k h = (h.0, k)
keep_result-IsSafe user finger slot false (true, d) s k h = (h.0, tt)
keep_result-IsSafe user finger slot succeeded (false, d) s k h = (h.0, tt)

-- What is known of the holder, for a holder that is known.
held : (o : Option Capture) (s : Service) → s.capture ≡ o → IsSafe s → HasSlot o s.storage.users
held o s e h = subst (λ (x : Option Capture). HasSlot x s.storage.users) e h.1

pub finish_enroll-IsSafe :
    (succeeded : Bool) (o : Option Capture) (s : Service)
    → s.capture ≡ o
    → IsSafe s
    → IsSafe (finish_enroll succeeded o s)
unfolding finish_enroll
finish_enroll-IsSafe succeeded none s e h = h
finish_enroll-IsSafe succeeded (some (enrolling user finger slot token)) s e h =
    keep_result-IsSafe user finger slot succeeded _ s
      (held (some (enrolling user finger slot token)) s e h) h
finish_enroll-IsSafe succeeded (some (verify_admitted user finger)) s e h = h
finish_enroll-IsSafe succeeded (some (verifying token slots)) s e h = h
finish_enroll-IsSafe succeeded (some (enroll_admitted user finger)) s e h = h
finish_enroll-IsSafe succeeded (some (enroll_started user finger token)) s e h = h
finish_enroll-IsSafe succeeded (some (enroll_allocating user finger token)) s e h = h
finish_enroll-IsSafe succeeded (some (storing user finger slot)) s e h = h

pub store_result-IsSafe :
    (c : Codec) (t : Trial) (o : Option Capture) (s : Service)
    → s.capture ≡ o
    → IsSafe s
    → IsSafe (store_result c t o s)
unfolding store_result
store_result-IsSafe c t none s e h = h
store_result-IsSafe c t (some (storing user finger slot)) s e h = (
  subst IsExclusive (sym (set_slot-users c t s.storage user finger slot)) (
      put_reserved-IsExclusive s.storage.users user finger slot h.0
        (held (some (storing user finger slot)) s e h)),
  tt,
)
store_result-IsSafe c t (some (verify_admitted user finger)) s e h = h
store_result-IsSafe c t (some (verifying token slots)) s e h = h
store_result-IsSafe c t (some (enroll_admitted user finger)) s e h = h
store_result-IsSafe c t (some (enroll_started user finger token)) s e h = h
store_result-IsSafe c t (some (enroll_allocating user finger token)) s e h = h
store_result-IsSafe c t (some (enrolling user finger slot token)) s e h = h
