-- ===== src/Service/Tests.antt =====
-- Runs of pcside/daemon/src/dbus_iface.rs with calls that come at the same time.
use linux_fingerprint_r.Prelude.{
  ◌≡◌, refl, arith, values, true, false, none, some, List, [], ◌∷◌, Bytes, codes, ok, err, lookup,
}
use linux_fingerprint_r.Device.{
  DeviceState, same_kind, handle_client_disconnect, holds, owns, begin_action, start_action,
  end_action_if_owner,
}
use linux_fingerprint_r.Disk.{Trial, done}
use linux_fingerprint_r.Storage.{
  Codec, slot_of, finger_in, get_slot, allocate_slot, used_slots, first_free, contains,
}
use linux_fingerprint_r.Storage.Exclusive.{IsExclusive}
use linux_fingerprint_r.Service.State
use linux_fingerprint_r.Service.Calls.{begin_call}
use linux_fingerprint_r.Service.{run_events, step, with_device}
use linux_fingerprint_r.Service.Captures.{
  proceed, start_enroll, reuse_slot, new_slot, finish_enroll, keep_result, store_result, held_by,
  enroll_into, waiting_for_finger,
}
use linux_fingerprint_r.Service.Reserved.{IsSafe}
use linux_fingerprint_r.Service.Slots.{run_events-IsSafe}
use linux_fingerprint_r.Service.Turns.{is_turn}
use linux_fingerprint_r.Service.Permits.{turns, BecomesFree, run_events-frees_permit}

abbrev mute : Codec
mute = record { encode = λ users. ok []; decode = λ s. err 1 }

abbrev smooth : Trial
smooth = record { opened = done; wrote = done; partly = 0; synced = done; renamed = done }

abbrev idle : DeviceState
idle = record {
  claimed_by = none;
  claim_sender = none;
  action = none;
  next_epoch = 1;
  finger_present = false;
  finger_needed = false;
}

abbrev empty_service : State.Service
empty_service = record {
  device = idle;
  storage = record { capacity = 200; users = []; disk = record { target = none; tmp = none } };
  calls = [];
  capture = none;
  deletions = [];
}

abbrev thumb : Bytes
thumb = codes "left-thumb"

abbrev index : Bytes
index = codes "left-index-finger"

-- Two enrolments are asked for at once; the second finds the permit taken and leaves no trace.
abbrev two_enrolments : List State.Event
two_enrolments =
    State.claimed (codes "alice") (some (codes ":1.5"))
    ∷ State.checked (State.enroll_start thumb) (some (codes ":1.5"))
    ∷ State.checked (State.enroll_start index) (some (codes ":1.5"))
    ∷ State.begun 1
    ∷ State.proceeded
    ∷ State.begun 0
    ∷ State.proceeded
    ∷ State.proceeded
    ∷ State.enrolled true
    ∷ State.stored smooth
    ∷ []

empty-IsExclusive : IsExclusive []
unfolding slot_of lookup finger_in
empty-IsExclusive u f v g s h k = absurd (cc h)

run_events-IsSafe_example : IsSafe (run_events mute two_enrolments empty_service)
run_events-IsSafe_example =
    run_events-IsSafe mute two_enrolments empty_service (empty-IsExclusive, tt)

-- An enrolment holds the permit, and somebody disconnects between its steps.
abbrev one_enrolment : List State.Event
one_enrolment =
    State.proceeded
    ∷ State.disconnected (codes ":1.9")
    ∷ State.proceeded
    ∷ State.begun 0
    ∷ State.proceeded
    ∷ State.enrolled true
    ∷ State.stored smooth
    ∷ []

abbrev enrolling_service : State.Service
enrolling_service = record empty_service {
  capture = some (State.enroll_admitted (codes "alice") thumb);
}

five_turns : turns mute one_enrolment enrolling_service ≡ 5
unfolding owns turns is_turn step proceed start_enroll begin_action reuse_slot get_slot new_slot
    allocate_slot finish_enroll keep_result store_result end_action_if_owner start_action
    with_device held_by enroll_into waiting_for_finger slot_of finger_in used_slots first_free
    contains lookup begin_call values handle_client_disconnect holds same_kind
five_turns = refl

run_events-frees_permit_example : BecomesFree mute one_enrolment enrolling_service
run_events-frees_permit_example =
    run_events-frees_permit mute one_enrolment enrolling_service (omega (arith, five_turns))
