-- ===== src/Service/State.antt =====
-- The state of pcside/daemon/src/dbus_iface.rs with its calls, captures and deletions in flight, and what can happen to it.
use linux_fingerprint_r.Prelude.{ℕ, zero, suc, Bool, Option, List, [], ◌∷◌, Bytes}
use linux_fingerprint_r.Device.{ActionToken, DeviceState}
use linux_fingerprint_r.Disk.{Trial}
use linux_fingerprint_r.Storage.{Storage}

pub data Operation : Type 0 where
  verify_start enroll_start : Bytes → Operation
  delete_enrolled_finger : Bytes → Operation
  delete_enrolled_fingers : Operation

-- A call that has its user: from the claim, or from `authorize_username`.
pub record Call : Type 0 where
  pub operation : Operation
  pub user : Bytes

-- The holder of the one permit of `capture_slot`, from the permit on, by the point where it waits.
pub data Capture : Type 0 where
  verify_admitted : Bytes → Bytes → Capture
  verifying : ActionToken → List ℕ → Capture
  enroll_admitted : Bytes → Bytes → Capture
  enroll_started : Bytes → Bytes → ActionToken → Capture
  enroll_allocating : Bytes → Bytes → ActionToken → Capture
  enrolling : Bytes → Bytes → ℕ → ActionToken → Capture
  storing : Bytes → Bytes → ℕ → Capture

-- A deletion behind its gate: the fingers whose slots the sensor is still to delete, and those that it
-- has deleted and the registry still has.
pub record Deletion : Type 0 where
  pub owner : Bytes
  pub asked : List Bytes
  pub succeeded : List Bytes
  pub token : ActionToken

pub record Service : Type 0 where
  pub device : DeviceState
  pub storage : Storage
  pub calls : List Call
  pub capture : Option Capture
  pub deletions : List Deletion

pub data Event : Type 0 where
  claimed : Bytes → Option Bytes → Event
  released verify_stopped enroll_stopped : Option Bytes → Event
  disconnected : Bytes → Event
  checked : Operation → Option Bytes → Event
  authorized : Bytes → Event
  begun : ℕ → Event
  proceeded verified : Event
  enrolled : Bool → Event
  stored : Trial → Event
  answered : ℕ → Bool → Event
  removed : ℕ → Trial → Event
  ended : ℕ → Event

unfoldable pub remove_at {ℓ} : {A : Type ℓ} → ℕ → List A → List A
remove_at i [] = []
remove_at zero (x ∷ xs) = xs
remove_at (suc i) (x ∷ xs) = x ∷ remove_at i xs

unfoldable pub set_at {ℓ} : {A : Type ℓ} → ℕ → A → List A → List A
set_at i y [] = []
set_at zero y (x ∷ xs) = y ∷ xs
set_at (suc i) y (x ∷ xs) = x ∷ set_at i y xs
