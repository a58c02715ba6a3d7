-- ===== src/Device/Actions.antt =====
-- Old tasks and new actions in pcside/daemon/src/dbus_iface.rs.
use linux_fingerprint_r.Prelude.{
  ◌≡◌, ◌≢◌, sym, inl, inr, false, ◌&&◌, Bool-cases, &&-eq-true, ==_iff, ◌==◌, some,
}
use linux_fingerprint_r.Device.{
  DeviceState, ActionKind, ActionToken, owns, same_kind, start_action, end_action_if_owner,
}

owns-other : (s t : ActionToken) → s.epoch ≢ t.epoch → owns (some s) t ≡ false
unfolding owns
owns-other s t h = elim (Bool-cases (same_kind s.kind t.kind && (s.epoch == t.epoch))) [
  | inl p ↦ absurd (h ((==_iff s.epoch t.epoch).0 (&&-eq-true _ _ p).1))
  | inr p ↦ p
]

-- A task whose token has another epoch than the action that was started ends without touching it: the
-- state is the one the new action began with, and the task learns that it no longer owns the action.
pub end_action_if_owner-start_action :
    (kind : ActionKind) (old : ActionToken) (st : DeviceState)
    → old.epoch ≢ st.next_epoch
    → end_action_if_owner old (start_action kind st).1 ≡ (false, (start_action kind st).1)
unfolding end_action_if_owner start_action
end_action_if_owner-start_action kind old st h =
    rw (owns-other (record { kind = kind; epoch = st.next_epoch }) old (λ e. h (sym e)))
