-- ===== src/Device.antt =====
-- pcside/daemon/src/dbus_iface.rs: who owns the device and which action is in flight. Each operation runs
-- under the lock of the state. The bus and its authorization are outside: `claim` starts with the user
-- that was authorized, and a sender is the caller's name on the bus.
mod Tests
pub mod Claims
pub mod Actions
use linux_fingerprint_r.Prelude.{
  ℕ, ◌+◌, ◌%◌, ◌^◌, ◌==◌, Bool, true, false, not, ◌&&◌, if◌then◌else◌, Option, none, some, List, [],
  ◌∷◌, Bytes, codes, eq, Result, Done, ok, err, ◌>>=◌,
}

pub data ActionKind : Type 0 where
  enroll verify delete : ActionKind

pub record ActionToken : Type 0 where
  pub kind : ActionKind
  pub epoch : ℕ

pub record DeviceState : Type 0 where
  pub claimed_by : Option Bytes
  pub claim_sender : Option Bytes
  pub action : Option ActionToken
  pub next_epoch : ℕ
  pub finger_present : Bool
  pub finger_needed : Bool

-- The errors that these operations return; the kind and the user stand for the text.
pub data FprintError : Type 0 where
  action_in_progress : ActionKind → FprintError
  claimed_by_user : Bytes → FprintError
  not_claimed other_sender no_action_in_progress : FprintError
  invalid_fingername : Bytes → FprintError

-- `derive(PartialEq)`
unfoldable pub same_kind : ActionKind → ActionKind → Bool
same_kind enroll enroll = true
same_kind verify verify = true
same_kind delete delete = true
same_kind enroll verify = false
same_kind enroll delete = false
same_kind verify enroll = false
same_kind verify delete = false
same_kind delete enroll = false
same_kind delete verify = false

unfoldable pub owns : Option ActionToken → ActionToken → Bool
owns none t = false
owns (some s) t = same_kind s.kind t.kind && (s.epoch == t.epoch)

finger_names : List Bytes
finger_names =
    codes "left-thumb"
    ∷ codes "left-index-finger"
    ∷ codes "left-middle-finger"
    ∷ codes "left-ring-finger"
    ∷ codes "left-little-finger"
    ∷ codes "right-thumb"
    ∷ codes "right-index-finger"
    ∷ codes "right-middle-finger"
    ∷ codes "right-ring-finger"
    ∷ codes "right-little-finger"
    ∷ []

has_name : List Bytes → Bytes → Bool
has_name [] name = false
has_name (n ∷ ns) name = if eq n name then true else has_name ns name

pub validate_finger : Bytes → Bool → Done FprintError
validate_finger name allow_any =
    if allow_any && eq name (codes "any")
    then ok tt
    else if has_name finger_names name
    then ok tt
    else err (invalid_fingername name)

-- `next_epoch` wraps.
unfoldable pub start_action : ActionKind → DeviceState → ActionToken × DeviceState
start_action kind st =
    let token : ActionToken = record { kind = kind; epoch = st.next_epoch } in
    (token, record st { next_epoch = (st.next_epoch + 1) % 2 ^ 64; action = some token })

unfoldable pub without_action : DeviceState → DeviceState
without_action st = record st { action = none; finger_needed = false; finger_present = false }

unfoldable pub end_action_if_owner : ActionToken → DeviceState → Bool × DeviceState
end_action_if_owner expected st =
    if owns st.action expected then (true, without_action st) else (false, st)

begin_on :
    ActionKind → DeviceState → Option ActionToken → Result FprintError ActionToken × DeviceState
begin_on kind st (some t) = (err (action_in_progress t.kind), st)
begin_on kind st none = let started = start_action kind st in (ok (started.0), started.1)

-- The gate in `begin_delete`, `verify_start` and `enroll_start`.
unfoldable pub begin_action :
    ActionKind → DeviceState → Result FprintError ActionToken × DeviceState
unfolding begin_on
begin_action kind st = begin_on kind st st.action

-- A caller and a claimer with two different names; a name that is missing is not compared.
pub differs : Option Bytes → Option Bytes → Bool
differs none claimer = false
differs (some s) none = false
differs (some s) (some claimer) = not (eq s claimer)

ensure_on : Option Bytes → Option Bytes → Option Bytes → Result FprintError Bytes
ensure_on sender claimer none = err not_claimed
ensure_on sender claimer (some user) = if differs sender claimer then err other_sender else ok user

pub ensure_claim : Option Bytes → DeviceState → Result FprintError Bytes
ensure_claim sender st = ensure_on sender st.claim_sender st.claimed_by

unfoldable pub unclaimed : DeviceState → DeviceState
unclaimed st = record (without_action st) { claimed_by = none; claim_sender = none }

unfoldable pub holds : Option Bytes → Bytes → Bool
holds none name = false
holds (some claimer) name = eq claimer name

unfoldable pub handle_client_disconnect : Bytes → DeviceState → DeviceState
handle_client_disconnect unique_name st =
    if holds st.claim_sender unique_name then unclaimed st else st

pub give_claim : Bytes → Option Bytes → DeviceState → DeviceState
give_claim user sender st = record st { claimed_by = some user; claim_sender = sender }

claim_on :
    Bytes
    → Option Bytes
    → DeviceState
    → Option Bytes
    → Option ActionToken
    → Done FprintError × DeviceState
claim_on user sender st none action = (ok tt, give_claim user sender st)
claim_on user sender st (some existing) none =
    if not (eq existing user)
    then (err (claimed_by_user existing), st)
    else (ok tt, give_claim user sender st)
claim_on user sender st (some existing) (some t) =
    if not (eq existing user)
    then (err (claimed_by_user existing), st)
    else (err (action_in_progress t.kind), st)

-- `claim`, for the authorized user
pub claim : Bytes → Option Bytes → DeviceState → Done FprintError × DeviceState
claim user sender st = claim_on user sender st st.claimed_by st.action

release_on : Option Bytes → DeviceState → Option Bytes → Done FprintError × DeviceState
release_on sender st none = (err not_claimed, st)
release_on sender st (some user) =
    if differs sender st.claim_sender then (err other_sender, st) else (ok tt, unclaimed st)

pub release : Option Bytes → DeviceState → Done FprintError × DeviceState
release sender st = release_on sender st st.claimed_by

stop_on : ActionKind → DeviceState → Option ActionToken → Done FprintError × DeviceState
stop_on kind st none = (err no_action_in_progress, st)
stop_on kind st (some t) =
    if same_kind t.kind kind then (ok tt, without_action st) else (err no_action_in_progress, st)

stop_claimed : ActionKind → DeviceState → Result FprintError Bytes → Done FprintError × DeviceState
stop_claimed kind st (err e) = (err e, st)
stop_claimed kind st (ok user) = stop_on kind st st.action

pub verify_stop : Option Bytes → DeviceState → Done FprintError × DeviceState
verify_stop sender st = stop_claimed verify st (ensure_claim sender st)

pub enroll_stop : Option Bytes → DeviceState → Done FprintError × DeviceState
enroll_stop sender st = stop_claimed enroll st (ensure_claim sender st)
