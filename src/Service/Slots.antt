-- ===== src/Service/Slots.antt =====
-- Whatever comes between the events of pcside/daemon/src/dbus_iface.rs, no two fingers get one slot.
use linux_fingerprint_r.Prelude.{
  ℕ, Bool, refl, sym, subst, Option, none, some, List, [], ◌∷◌, Bytes, get_elem?,
}
use linux_fingerprint_r.Disk.{Trial}
use linux_fingerprint_r.Storage.{Codec, Users, take_finger}
use linux_fingerprint_r.Storage.Exclusive.{
  IsExclusive, take_finger-IsReserved, take_finger-IsExclusive,
}
use linux_fingerprint_r.Storage.Saving.{remove_finger-users}
use linux_fingerprint_r.Service.State.{
  Capture, verify_admitted, verifying, enroll_admitted, enroll_started, enroll_allocating,
  enrolling, storing, Deletion, Service, Event,
}
use linux_fingerprint_r.Service.Deletions.{
  take_answer, answer_deletion, remove_next, remove_row, end_deletion, finish_deletion,
}
use linux_fingerprint_r.Service.{step, run_events, with_device}
use linux_fingerprint_r.Service.Reserved.{
  HasSlot, IsSafe, with_user-IsSafe, begin_call-IsSafe, proceed-IsSafe, finish_verify-IsSafe,
  finish_enroll-IsSafe, store_result-IsSafe,
}

-- A row less is no clash more.
HasSlot-take_finger :
    (o : Option Capture) (users : Users) (v g : Bytes)
    → HasSlot o users
    → HasSlot o (take_finger v g users)
HasSlot-take_finger none users v g h = tt
HasSlot-take_finger (some (enrolling user finger slot token)) users v g h =
    take_finger-IsReserved users user finger v g slot h
HasSlot-take_finger (some (storing user finger slot)) users v g h =
    take_finger-IsReserved users user finger v g slot h
HasSlot-take_finger (some (verify_admitted user finger)) users v g h = tt
HasSlot-take_finger (some (verifying token slots)) users v g h = tt
HasSlot-take_finger (some (enroll_admitted user finger)) users v g h = tt
HasSlot-take_finger (some (enroll_started user finger token)) users v g h = tt
HasSlot-take_finger (some (enroll_allocating user finger token)) users v g h = tt

remove_next-IsSafe :
    (c : Codec) (t : Trial) (i : ℕ) (d : Deletion) (asked succeeded : List Bytes) (s : Service)
    → IsSafe s
    → IsSafe (remove_next c t i d asked succeeded s)
unfolding remove_next
remove_next-IsSafe c t i d (finger ∷ asked) succeeded s h = h
remove_next-IsSafe c t i d [] [] s h = h
remove_next-IsSafe c t i d [] (finger ∷ succeeded) s h =
    subst (λ (users : Users). IsExclusive users × HasSlot s.capture users)
      (sym (remove_finger-users c t s.storage d.owner finger))
      (
        take_finger-IsExclusive s.storage.users d.owner finger h.0,
        HasSlot-take_finger s.capture s.storage.users d.owner finger h.1,
      )

remove_row-IsSafe :
    (c : Codec) (t : Trial) (i : ℕ) (o : Option Deletion) (s : Service)
    → IsSafe s
    → IsSafe (remove_row c t i o s)
unfolding remove_row
remove_row-IsSafe c t i none s h = h
remove_row-IsSafe c t i (some d) s h = remove_next-IsSafe c t i d d.asked d.succeeded s h

take_answer-IsSafe :
    (i : ℕ) (deleted : Bool) (d : Deletion) (asked : List Bytes) (s : Service)
    → IsSafe s
    → IsSafe (take_answer i deleted d asked s)
unfolding take_answer
take_answer-IsSafe i deleted d [] s h = h
take_answer-IsSafe i deleted d (finger ∷ asked) s h = h

answer_deletion-IsSafe :
    (i : ℕ) (deleted : Bool) (o : Option Deletion) (s : Service)
    → IsSafe s
    → IsSafe (answer_deletion i deleted o s)
unfolding answer_deletion
answer_deletion-IsSafe i deleted none s h = h
answer_deletion-IsSafe i deleted (some d) s h = take_answer-IsSafe i deleted d d.asked s h

end_deletion-IsSafe :
    (i : ℕ) (d : Deletion) (asked succeeded : List Bytes) (s : Service)
    → IsSafe s
    → IsSafe (end_deletion i d asked succeeded s)
unfolding end_deletion
end_deletion-IsSafe i d (finger ∷ asked) succeeded s h = h
end_deletion-IsSafe i d [] (finger ∷ succeeded) s h = h
end_deletion-IsSafe i d [] [] s h = h

finish_deletion-IsSafe :
    (i : ℕ) (o : Option Deletion) (s : Service) → IsSafe s → IsSafe (finish_deletion i o s)
unfolding finish_deletion
finish_deletion-IsSafe i none s h = h
finish_deletion-IsSafe i (some d) s h = end_deletion-IsSafe i d d.asked d.succeeded s h

step-IsSafe : (c : Codec) (e : Event) (s : Service) → IsSafe s → IsSafe (step c e s)
unfolding step with_device
step-IsSafe c (Event.claimed user sender) s h = h
step-IsSafe c (Event.released sender) s h = h
step-IsSafe c (Event.verify_stopped sender) s h = h
step-IsSafe c (Event.enroll_stopped sender) s h = h
step-IsSafe c (Event.disconnected name) s h = h
step-IsSafe c (Event.checked op sender) s h = with_user-IsSafe op _ _ s h
step-IsSafe c (Event.authorized user) s h = h
step-IsSafe c (Event.begun i) s h = begin_call-IsSafe (get_elem? s.calls i) _ h
step-IsSafe c Event.proceeded s h = proceed-IsSafe s.capture s refl h
step-IsSafe c Event.verified s h = finish_verify-IsSafe s.capture s h
step-IsSafe c (Event.enrolled succeeded) s h = finish_enroll-IsSafe succeeded s.capture s refl h
step-IsSafe c (Event.stored t) s h = store_result-IsSafe c t s.capture s refl h
step-IsSafe c (Event.answered i deleted) s h =
    answer_deletion-IsSafe i deleted (get_elem? s.deletions i) s h
step-IsSafe c (Event.removed i t) s h = remove_row-IsSafe c t i (get_elem? s.deletions i) s h
step-IsSafe c (Event.ended i) s h = finish_deletion-IsSafe i (get_elem? s.deletions i) s h

-- Whatever calls come, however the events of calls, captures and deletions are interleaved, whatever the
-- sensor answers and whichever savings fail: where no two fingers had one slot, and none was being given
-- to a second finger, no two fingers, of one user or of two, have one slot at any later time.
pub run_events-IsSafe :
    (c : Codec) (events : List Event) (s : Service) → IsSafe s → IsSafe (run_events c events s)
unfolding run_events
run_events-IsSafe c [] s h = h
run_events-IsSafe c (e ∷ events) s h = run_events-IsSafe c events (step c e s) (step-IsSafe c e s h)
