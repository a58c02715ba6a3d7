-- ===== src/Service/Held.antt =====
-- Which events of pcside/daemon/src/dbus_iface.rs leave the capture that holds the sensor's permit as it is.
use linux_fingerprint_r.Prelude.{
  ℕ, ◌≡◌, refl, ◌∙◌, Bool, Option, none, some, List, [], ◌∷◌, Bytes, Result, ok, err, keys,
}
use linux_fingerprint_r.Device.{ActionToken, DeviceState, FprintError, begin_action}
use linux_fingerprint_r.Disk.{Trial}
use linux_fingerprint_r.Storage.{Codec, get_slot, get_user_slots}
use linux_fingerprint_r.Service.State.{
  Operation, verify_start, enroll_start, delete_enrolled_finger, delete_enrolled_fingers, Call,
  Deletion, Capture, Service,
}
use linux_fingerprint_r.Service.Calls.{
  with_user, acquire, with_deletion, delete_one, begin_operation, begin_call,
}
use linux_fingerprint_r.Service.Deletions.{
  take_answer, answer_deletion, remove_next, remove_row, end_deletion, finish_deletion,
}

pub with_user-capture :
    (op : Operation) (f : Result FprintError Unit) (u : Result FprintError Bytes) (s : Service)
    → (with_user op f u s).capture ≡ s.capture
unfolding with_user
with_user-capture op (err e) u s = refl
with_user-capture op (ok _) (err e) s = refl
with_user-capture op (ok _) (ok user) s = refl

with_deletion-capture :
    (user : Bytes) (fingers : List Bytes) (r : Result FprintError ActionToken × DeviceState)
    (s : Service)
    → (with_deletion user fingers r s).capture ≡ s.capture
unfolding with_deletion
with_deletion-capture user fingers (err e, d) s = refl
with_deletion-capture user fingers (ok token, d) s = refl

delete_one-capture :
    (user finger : Bytes) (o : Option ℕ) (s : Service)
    → (delete_one user finger o s).capture ≡ s.capture
unfolding delete_one
delete_one-capture user finger none s = refl
delete_one-capture user finger (some slot) s =
    with_deletion-capture user (finger ∷ []) (begin_action _ s.device) s

-- A permit that is held is not given to another call.
acquire-held :
    (c held : Capture) (o : Option Capture) (s : Service)
    → s.capture ≡ o
    → o ≡ some held
    → (acquire c o s).capture ≡ some held
unfolding acquire
acquire-held c held none s e h = absurd (cc h)
acquire-held c held (some x) s e h = e ∙ h

begin_operation-held :
    (op : Operation) (user : Bytes) (c : Capture) (s : Service)
    → s.capture ≡ some c
    → (begin_operation op user s).capture ≡ some c
unfolding begin_operation
begin_operation-held (verify_start finger) user c s e = acquire-held _ c s.capture s refl e
begin_operation-held (enroll_start finger) user c s e = acquire-held _ c s.capture s refl e
begin_operation-held (delete_enrolled_finger finger) user c s e =
    delete_one-capture user finger (get_slot s.storage user finger) s ∙ e
begin_operation-held delete_enrolled_fingers user c s e =
    with_deletion-capture user (keys (get_user_slots s.storage user)) (begin_action _ s.device) s
    ∙ e

pub begin_call-held :
    (o : Option Call) (c : Capture) (s : Service)
    → s.capture ≡ some c
    → (begin_call o s).capture ≡ some c
unfolding begin_call
begin_call-held none c s e = e
begin_call-held (some call) c s e = begin_operation-held call.operation call.user c s e

take_answer-capture :
    (i : ℕ) (b : Bool) (d : Deletion) (asked : List Bytes) (s : Service)
    → (take_answer i b d asked s).capture ≡ s.capture
unfolding take_answer
take_answer-capture i b d [] s = refl
take_answer-capture i b d (finger ∷ asked) s = refl

pub answer_deletion-capture :
    (i : ℕ) (b : Bool) (o : Option Deletion) (s : Service)
    → (answer_deletion i b o s).capture ≡ s.capture
unfolding answer_deletion
answer_deletion-capture i b none s = refl
answer_deletion-capture i b (some d) s = take_answer-capture i b d d.asked s

remove_next-capture :
    (k : Codec) (t : Trial) (i : ℕ) (d : Deletion) (asked succeeded : List Bytes) (s : Service)
    → (remove_next k t i d asked succeeded s).capture ≡ s.capture
unfolding remove_next
remove_next-capture k t i d (finger ∷ asked) succeeded s = refl
remove_next-capture k t i d [] [] s = refl
remove_next-capture k t i d [] (finger ∷ succeeded) s = refl

pub remove_row-capture :
    (k : Codec) (t : Trial) (i : ℕ) (o : Option Deletion) (s : Service)
    → (remove_row k t i o s).capture ≡ s.capture
unfolding remove_row
remove_row-capture k t i none s = refl
remove_row-capture k t i (some d) s = remove_next-capture k t i d d.asked d.succeeded s

end_deletion-capture :
    (i : ℕ) (d : Deletion) (asked succeeded : List Bytes) (s : Service)
    → (end_deletion i d asked succeeded s).capture ≡ s.capture
unfolding end_deletion
end_deletion-capture i d (finger ∷ asked) succeeded s = refl
end_deletion-capture i d [] (finger ∷ succeeded) s = refl
end_deletion-capture i d [] [] s = refl

pub finish_deletion-capture :
    (i : ℕ) (o : Option Deletion) (s : Service) → (finish_deletion i o s).capture ≡ s.capture
unfolding finish_deletion
finish_deletion-capture i none s = refl
finish_deletion-capture i (some d) s = end_deletion-capture i d d.asked d.succeeded s
