-- ===== src/Device/Tests.antt =====
-- Claims and actions of pcside/daemon/src/dbus_iface.rs at concrete inputs.
use linux_fingerprint_r.Prelude.{◌≡◌, refl, false, none, some, eq, Bytes, codes, ok}
use linux_fingerprint_r.Device.{
  DeviceState, claim, claim_on, validate_finger, finger_names, has_name,
}

abbrev alice : Bytes
alice = codes "alice"

abbrev bob : Bytes
bob = codes "bob"

-- `DeviceState::default()`
abbrev unused : DeviceState
unused = record {
  claimed_by = none;
  claim_sender = none;
  action = none;
  next_epoch = 0;
  finger_present = false;
  finger_needed = false;
}

abbrev by_alice : DeviceState
by_alice = record unused {
  claimed_by = some alice;
  claim_sender = some (codes ":1.5");
  next_epoch = 3;
}

knows_the_thumb : validate_finger (codes "right-thumb") false ≡ ok tt
unfolding validate_finger has_name finger_names eq
knows_the_thumb = refl

claims : (claim alice (some (codes ":1.5")) unused).0 ≡ ok tt
unfolding claim claim_on
claims = refl

two_names : eq alice bob ≡ false
unfolding eq
two_names = refl
