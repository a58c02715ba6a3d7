-- ===== src/Service/Turns.antt =====
-- Whose turn an event of pcside/daemon/src/dbus_iface.rs is, and what it leaves of the events of the capture that holds
-- the sensor's permit.
use linux_fingerprint_r.Prelude.{
  ℕ, ◌≤◌, ◌<◌, ◌≡◌, ◌⊎◌, inl, inr, refl, ◌∙◌, sym, subst, Bool, true, false, Option, none, some,
  List, Bytes, Result, ok, err, get_elem?, arith,
}
use linux_fingerprint_r.Device.{
  ActionToken, DeviceState, FprintError, begin_action, end_action_if_owner,
}
use linux_fingerprint_r.Disk.{Trial}
use linux_fingerprint_r.Storage.{Codec, StorageError, get_slot, allocate_slot, get_user_slots}
use linux_fingerprint_r.Service.State.{
  claimed, released, verify_stopped, enroll_stopped, disconnected, checked, authorized, begun,
  answered, removed, ended, remove_at, Capture, verify_admitted, verifying, enroll_admitted,
  enroll_started, enroll_allocating, enrolling, storing, Service, Event, proceeded, verified,
  enrolled, stored,
}
use linux_fingerprint_r.Service.Captures.{
  dropped, held_by, verify_with, start_verify, start_enroll, enroll_into, reuse_slot, new_slot,
  proceed, finish_verify, keep_result, finish_enroll, store_result, expected,
}
use linux_fingerprint_r.Service.{step, with_device}
use linux_fingerprint_r.Service.Held.{
  with_user-capture, begin_call-held, answer_deletion-capture, remove_row-capture,
  finish_deletion-capture,
}

-- How many of the events of a capture are left at most.
abbrev pub rank : Option Capture → ℕ
rank none = 0
rank (some (storing user finger slot)) = 1
rank (some (enrolling user finger slot token)) = 2
rank (some (enroll_allocating user finger token)) = 3
rank (some (enroll_started user finger token)) = 4
rank (some (enroll_admitted user finger)) = 5
rank (some (verifying token slots)) = 1
rank (some (verify_admitted user finger)) = 2

pub rank-le : (o : Option Capture) → rank o ≤ 5
rank-le none = omega arith
rank-le (some (storing user finger slot)) = omega arith
rank-le (some (enrolling user finger slot token)) = omega arith
rank-le (some (verifying token slots)) = omega arith
rank-le (some (enroll_allocating user finger token)) = omega arith
rank-le (some (enroll_started user finger token)) = omega arith
rank-le (some (enroll_admitted user finger)) = omega arith
rank-le (some (verify_admitted user finger)) = omega arith

rank-verify_with :
    (token : ActionToken) (d : DeviceState) (o : Option (List ℕ)) (s : Service)
    → rank (verify_with token d o s).capture ≤ 1
unfolding verify_with dropped held_by
rank-verify_with token d none s = omega arith
rank-verify_with token d (some slots) s = omega arith

rank-start_verify :
    (user finger : Bytes) (r : Result FprintError ActionToken × DeviceState) (s : Service)
    → rank (start_verify user finger r s).capture ≤ 1
unfolding start_verify dropped
rank-start_verify user finger (err e, d) s = omega arith
rank-start_verify user finger (ok token, d) s =
    rank-verify_with token d (expected finger (get_user_slots s.storage user)) s

rank-start_enroll :
    (user finger : Bytes) (r : Result FprintError ActionToken × DeviceState) (s : Service)
    → rank (start_enroll user finger r s).capture ≤ 4
unfolding start_enroll dropped held_by
rank-start_enroll user finger (err e, d) s = omega arith
rank-start_enroll user finger (ok token, d) s = omega arith

rank-reuse_slot :
    (user finger : Bytes) (token : ActionToken) (o : Option ℕ) (s : Service)
    → rank (reuse_slot user finger token o s).capture ≤ 3
unfolding reuse_slot enroll_into held_by
rank-reuse_slot user finger token none s = omega arith
rank-reuse_slot user finger token (some slot) s = omega arith

rank-new_slot :
    (user finger : Bytes) (token : ActionToken) (r : Result StorageError ℕ) (s : Service)
    → rank (new_slot user finger token r s).capture ≤ 2
unfolding new_slot enroll_into held_by dropped
rank-new_slot user finger token (err e) s = omega arith
rank-new_slot user finger token (ok slot) s = omega arith

rank-keep_result :
    (user finger : Bytes) (slot : ℕ) (succeeded : Bool) (r : Bool × DeviceState) (s : Service)
    → rank (keep_result user finger slot succeeded r s).capture ≤ 1
unfolding keep_result held_by dropped
rank-keep_result user finger slot true (true, d) s = omega arith
rank-keep_result user finger slot false (true, d) s = omega arith
rank-keep_result user finger slot succeeded (false, d) s = omega arith

pub rank-pos : (c : Capture) → 1 ≤ rank (some c)
rank-pos (storing user finger slot) = omega arith
rank-pos (enrolling user finger slot token) = omega arith
rank-pos (verifying token slots) = omega arith
rank-pos (enroll_allocating user finger token) = omega arith
rank-pos (enroll_started user finger token) = omega arith
rank-pos (enroll_admitted user finger) = omega arith
rank-pos (verify_admitted user finger) = omega arith

-- Whether the holder of the permit waits for the next event of a call, of a verification, of an enrolment, or of
-- the storing.
abbrev waits_call : Capture → Bool
waits_call (verify_admitted user finger) = true
waits_call (verifying token slots) = false
waits_call (enroll_admitted user finger) = true
waits_call (enroll_started user finger token) = true
waits_call (enroll_allocating user finger token) = true
waits_call (enrolling user finger slot token) = false
waits_call (storing user finger slot) = false

abbrev waits_verify : Capture → Bool
waits_verify (verify_admitted user finger) = false
waits_verify (verifying token slots) = true
waits_verify (enroll_admitted user finger) = false
waits_verify (enroll_started user finger token) = false
waits_verify (enroll_allocating user finger token) = false
waits_verify (enrolling user finger slot token) = false
waits_verify (storing user finger slot) = false

abbrev waits_enroll : Capture → Bool
waits_enroll (verify_admitted user finger) = false
waits_enroll (verifying token slots) = false
waits_enroll (enroll_admitted user finger) = false
waits_enroll (enroll_started user finger token) = false
waits_enroll (enroll_allocating user finger token) = false
waits_enroll (enrolling user finger slot token) = true
waits_enroll (storing user finger slot) = false

abbrev waits_store : Capture → Bool
waits_store (verify_admitted user finger) = false
waits_store (verifying token slots) = false
waits_store (enroll_admitted user finger) = false
waits_store (enroll_started user finger token) = false
waits_store (enroll_allocating user finger token) = false
waits_store (enrolling user finger slot token) = false
waits_store (storing user finger slot) = true

-- Whether the event is the next one of the holder of the permit; the others are of other calls and tasks.
unfoldable pub is_turn_of : Event → Capture → Bool
is_turn_of proceeded c = waits_call c
is_turn_of verified c = waits_verify c
is_turn_of (enrolled succeeded) c = waits_enroll c
is_turn_of (stored t) c = waits_store c
is_turn_of (claimed user sender) c = false
is_turn_of (released sender) c = false
is_turn_of (verify_stopped sender) c = false
is_turn_of (enroll_stopped sender) c = false
is_turn_of (disconnected name) c = false
is_turn_of (checked op sender) c = false
is_turn_of (authorized user) c = false
is_turn_of (begun i) c = false
is_turn_of (answered i deleted) c = false
is_turn_of (removed i t) c = false
is_turn_of (ended i) c = false

unfoldable pub is_turn : Event → Option Capture → Bool
unfolding is_turn_of
is_turn e none = false
is_turn e (some c) = is_turn_of e c

-- Where it is not the holder's turn, it still holds the permit as before; after its turn fewer events are left.
abbrev pub Moves : Event → Capture → Service → Type 0
Moves e c t =
    ((is_turn_of e c ≡ false) × (t.capture ≡ some c))
    ⊎ ((is_turn_of e c ≡ true) × (rank t.capture < rank (some c)))

proceed-Moves :
    (c : Capture) (s : Service) → s.capture ≡ some c → Moves proceeded c (proceed (some c) s)
unfolding proceed is_turn_of
proceed-Moves (verify_admitted user finger) s e =
    inr (refl, omega (arith, rank-start_verify user finger (begin_action _ s.device) s))
proceed-Moves (enroll_admitted user finger) s e =
    inr (refl, omega (arith, rank-start_enroll user finger (begin_action _ s.device) s))
proceed-Moves (enroll_started user finger token) s e =
    inr (refl, omega (arith, rank-reuse_slot user finger token (get_slot s.storage user finger) s))
proceed-Moves (enroll_allocating user finger token) s e =
    inr (refl, omega (arith, rank-new_slot user finger token (allocate_slot s.storage) s))
proceed-Moves (verifying token slots) s e = inl (refl, e)
proceed-Moves (enrolling user finger slot token) s e = inl (refl, e)
proceed-Moves (storing user finger slot) s e = inl (refl, e)

finish_verify-Moves :
    (c : Capture) (s : Service) → s.capture ≡ some c → Moves verified c (finish_verify (some c) s)
unfolding finish_verify dropped is_turn_of
finish_verify-Moves (verifying token slots) s e = inr (refl, omega arith)
finish_verify-Moves (verify_admitted user finger) s e = inl (refl, e)
finish_verify-Moves (enroll_admitted user finger) s e = inl (refl, e)
finish_verify-Moves (enroll_started user finger token) s e = inl (refl, e)
finish_verify-Moves (enroll_allocating user finger token) s e = inl (refl, e)
finish_verify-Moves (enrolling user finger slot token) s e = inl (refl, e)
finish_verify-Moves (storing user finger slot) s e = inl (refl, e)

finish_enroll-Moves :
    (b : Bool) (c : Capture) (s : Service)
    → s.capture ≡ some c
    → Moves (enrolled b) c (finish_enroll b (some c) s)
unfolding finish_enroll is_turn_of
finish_enroll-Moves b (enrolling user finger slot token) s e = inr (
  refl,
  omega (arith, rank-keep_result user finger slot b (end_action_if_owner token s.device) s),
)
finish_enroll-Moves b (verifying token slots) s e = inl (refl, e)
finish_enroll-Moves b (verify_admitted user finger) s e = inl (refl, e)
finish_enroll-Moves b (enroll_admitted user finger) s e = inl (refl, e)
finish_enroll-Moves b (enroll_started user finger token) s e = inl (refl, e)
finish_enroll-Moves b (enroll_allocating user finger token) s e = inl (refl, e)
finish_enroll-Moves b (storing user finger slot) s e = inl (refl, e)

store_result-Moves :
    (k : Codec) (t : Trial) (c : Capture) (s : Service)
    → s.capture ≡ some c
    → Moves (stored t) c (store_result k t (some c) s)
unfolding store_result is_turn_of
store_result-Moves k t (storing user finger slot) s e = inr (refl, omega arith)
store_result-Moves k t (verifying token slots) s e = inl (refl, e)
store_result-Moves k t (verify_admitted user finger) s e = inl (refl, e)
store_result-Moves k t (enroll_admitted user finger) s e = inl (refl, e)
store_result-Moves k t (enroll_started user finger token) s e = inl (refl, e)
store_result-Moves k t (enroll_allocating user finger token) s e = inl (refl, e)
store_result-Moves k t (enrolling user finger slot token) s e = inl (refl, e)

pub step-Moves :
    (k : Codec) (e : Event) (c : Capture) (s : Service)
    → s.capture ≡ some c
    → Moves e c (step k e s)
unfolding step is_turn_of with_device
step-Moves k (claimed user sender) c s h = inl (refl, h)
step-Moves k (released sender) c s h = inl (refl, h)
step-Moves k (verify_stopped sender) c s h = inl (refl, h)
step-Moves k (enroll_stopped sender) c s h = inl (refl, h)
step-Moves k (disconnected name) c s h = inl (refl, h)
step-Moves k (checked op sender) c s h = inl (refl, with_user-capture op _ _ s ∙ h)
step-Moves k (authorized user) c s h = inl (refl, h)
step-Moves k (begun i) c s h =
    inl (refl, begin_call-held (get_elem? s.calls i) c (record s { calls = remove_at i s.calls }) h)
step-Moves k proceeded c s h =
    subst (λ (o : Option Capture). Moves proceeded c (proceed o s)) (sym h) (proceed-Moves c s h)
step-Moves k verified c s h =
    subst (λ (o : Option Capture). Moves verified c (finish_verify o s)) (sym h)
      (finish_verify-Moves c s h)
step-Moves k (enrolled b) c s h =
    subst (λ (o : Option Capture). Moves (enrolled b) c (finish_enroll b o s)) (sym h)
      (finish_enroll-Moves b c s h)
step-Moves k (stored t) c s h =
    subst (λ (o : Option Capture). Moves (stored t) c (store_result k t o s)) (sym h)
      (store_result-Moves k t c s h)
step-Moves k (answered i b) c s h =
    inl (refl, answer_deletion-capture i b (get_elem? s.deletions i) s ∙ h)
step-Moves k (removed i t) c s h =
    inl (refl, remove_row-capture k t i (get_elem? s.deletions i) s ∙ h)
step-Moves k (ended i) c s h = inl (refl, finish_deletion-capture i (get_elem? s.deletions i) s ∙ h)
