-- ===== src/Pairing/Overview.antt =====
-- run_status of pcside/daemon/src/pairing.rs up to the printing: what is shown and what it warns of. The looks at
-- the paths do not fail.
pub mod Quiet
use linux_fingerprint_r.Prelude.{
  Bool, true, false, not, ◌&&◌, ◌||◌, Option, none, some, List, [], ◌∷◌, ◌++◌, Result, ok, ℕ,
  if◌then◌else◌,
}
use linux_fingerprint_r.Prelude.Actions.{Action, and_then, lift}
use linux_fingerprint_r.Keystore.{Keys}
use linux_fingerprint_r.Pairing.{FirmwareStatus, PairError, map_error, link}
use linux_fingerprint_r.Pairing.Pair.{Station, Nano, query_status}
use linux_fingerprint_r.Pairing.Unpair.{Host}

-- The warnings and the note.
pub data Notice : Type 0 where
  no_host_key stale_key both_forms no_counter : Notice

pub record Overview : Type 0 where
  pub status : FirmwareStatus
  pub sealed_present : Bool
  pub live_present : Bool
  pub backup_present : Bool
  pub tpm_present : Bool
  pub opt_in : Bool
  pub notices : List Notice

-- `Path::exists`
unfoldable pub exists : {A : Type 0} → Option A → Bool
exists none = false
exists (some a) = true

unfoldable pub mismatch : Bool → Bool → List Notice
mismatch true false = no_host_key ∷ []
mismatch false true = stale_key ∷ []
mismatch true true = []
mismatch false false = []

unfoldable pub has_key : Keys → Bool
has_key ks = exists ks.live.target || exists ks.backup || exists ks.sealed.target

unfoldable pub two_forms : Keys → List Notice
two_forms ks =
    if exists ks.sealed.target && (exists ks.live.target || exists ks.backup)
    then both_forms ∷ []
    else []

unfoldable pub missing_counter : Bool → Host → List Notice
missing_counter paired h =
    if paired && has_key h.keys && not (exists h.state.target) then no_counter ∷ [] else []

unfoldable pub notices : Bool → Host → List Notice
notices paired h = mismatch paired (has_key h.keys) ++ two_forms h.keys ++ missing_counter paired h

unfoldable pub overview : Bool → FirmwareStatus → Action Station PairError Overview
overview tpm_present status s =
    lift
      (ok (record {
        status = status;
        sealed_present = exists s.host.keys.sealed.target;
        live_present = exists s.host.keys.live.target;
        backup_present = exists s.host.keys.backup;
        tpm_present = tpm_present;
        opt_in = s.opt_in;
        notices = notices status.paired s.host;
      }))
      s

infixl 5 ◌>>=◌
abbrev ◌>>=◌ :
    {W A B : Type 0} → Action W PairError A → (A → Action W PairError B) → Action W PairError B
m >>= next = λ w. and_then (m w) next

unfoldable pub run_status : Result ℕ (Unit {0}) → Nano → Bool → Action Station PairError Overview
run_status port nano tpm_present = do
  _ ← lift (map_error link port)
  status ← query_status nano
  overview tpm_present status
