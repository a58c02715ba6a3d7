-- ===== src/Device/Claims.antt =====
-- Whom the claim of pcside/daemon/src/dbus_iface.rs lets through.
use linux_fingerprint_r.Prelude.{
  ◌≡◌, ◌≢◌, refl, ap, ◌∙◌, inl, inr, false, Bool-cases, Option, none, some, Bytes, eq, Done, ok,
  err, if◌then◌else◌,
}
use linux_fingerprint_r.Device.{
  DeviceState, ActionToken, FprintError, claimed_by_user, other_sender, claim, claim_on, give_claim,
  ensure_claim, ensure_on, differs,
}

refused : (e : FprintError) → ◌≢◌ {A = Done FprintError} (err e) (ok tt)
refused e h = cc h

-- What a claim can end in: the claim is given, or nothing has changed.
claim_on-ok :
    (user : Bytes) (sender : Option Bytes) (st : DeviceState) (o : Option Bytes)
    (a : Option ActionToken)
    → (claim_on user sender st o a).0 ≡ ok tt
    → (claim_on user sender st o a).1 ≡ give_claim user sender st
unfolding claim_on
claim_on-ok user sender st none a h = refl
claim_on-ok user sender st (some existing) none h = elim (Bool-cases (eq existing user)) [
  | inl p ↦ rw p
  | inr p ↦ absurd (refused _ (rw p at h))
]
claim_on-ok user sender st (some existing) (some t) h = elim (Bool-cases (eq existing user)) [
  | inl p ↦ absurd (refused _ (rw p at h))
  | inr p ↦ absurd (refused _ (rw p at h))
]

ensure-given :
    (user sender caller : Bytes) (st : DeviceState)
    → ensure_claim (some caller) (give_claim user (some sender) st)
      ≡ (if eq caller sender then ok user else err other_sender)
unfolding ensure_claim ensure_on give_claim differs
ensure-given user sender caller st = elim (Bool-cases (eq caller sender)) [
  | inl p ↦ rw p
  | inr p ↦ rw p
]

-- After a claim that succeeded, the operations that need the claim run for the claimed user when the
-- caller is the claimer, and are refused to every other caller.
pub ensure_claim-claim :
    (user sender caller : Bytes) (st : DeviceState)
    → (claim user (some sender) st).0 ≡ ok tt
    → ensure_claim (some caller) (claim user (some sender) st).1
      ≡ (if eq caller sender then ok user else err other_sender)
unfolding claim
ensure_claim-claim user sender caller st h =
    ap (ensure_claim (some caller)) (claim_on-ok user (some sender) st st.claimed_by st.action h)
    ∙ ensure-given user sender caller st

claim_on-refused :
    (user existing : Bytes) (sender : Option Bytes) (st : DeviceState) (a : Option ActionToken)
    → eq existing user ≡ false
    → claim_on user sender st (some existing) a ≡ (err (claimed_by_user existing), st)
unfolding claim_on
claim_on-refused user existing sender st none h = rw h
claim_on-refused user existing sender st (some t) h = rw h

-- While one user has the device, a claim for another user is refused and changes nothing, whether an
-- action is in flight or not.
claim-refused :
    (user existing : Bytes) (sender : Option Bytes) (st : DeviceState)
    → st.claimed_by ≡ some existing
    → eq existing user ≡ false
    → claim user sender st ≡ (err (claimed_by_user existing), st)
unfolding claim
claim-refused user existing sender st h k =
    ap (λ o. claim_on user sender st o st.action) h
    ∙ claim_on-refused user existing sender st st.action k
