-- ===== src/Pairing/Pair.antt =====
-- run_pair and run_reseal_tpm of pcside/daemon/src/pairing.rs, in the order of their steps. Finding and opening
-- the port give an error's number or nothing; `nano` is what the link makes of the last of the commands
-- that have been sent.
use linux_fingerprint_r.Prelude.{
  ℕ, Bool, true, false, not, ◌&&◌, Option, none, some, List, ◌∷◌, ◌++◌, Bytes, codes, eq, Result,
  ok, err, Done, if◌then◌else◌,
}
use linux_fingerprint_r.Prelude.Actions.{Action, and_then, lift}
use linux_fingerprint_r.Counter
use linux_fingerprint_r.Disk.{Outcome, done, failed, Trial}
use linux_fingerprint_r.Keystore.{Keys, SaveCalls, key_hex, save_key}
use linux_fingerprint_r.Keystore.Removing.{
  RemoveCalls, SealCalls, delete_all_keys, save_key_sealed_with_pcrs,
}
use linux_fingerprint_r.Pairing.{
  FirmwareStatus, parse_status, PairError, map_error, no_opt_in, no_tpm, already_paired,
  not_committed, bad_list, key_unusable, link, bad_status, refused, io, reported_save,
}
use linux_fingerprint_r.Pairing.Unpair.{Host}
use linux_fingerprint_r.Tpm.{default_pcrs, parse_pcr_list}
use linux_fingerprint_r.Tpm.Sealing.{Library}

-- The host's files, the opt-in marker, and the commands sent, the last one first, each with whether the marker
-- was there.
pub record Station : Type 0 where
  pub host : Host
  pub opt_in : Bool
  pub sent : List (Bytes × Bool)

abbrev pub Nano : Type 0
Nano = List (Bytes × Bool) → Result ℕ Bytes

-- What the calls outside do.
pub record PairCalls : Type 0 where
  pub tpm_present : Bool
  pub port : Result ℕ (Unit {0})
  pub generated : Result ℕ Bytes
  pub marker_removed : Outcome
  pub key_saved : SaveCalls
  pub key_sealed : SealCalls
  pub fresh_dir : Outcome
  pub fresh_saved : Trial

infixl 5 ◌>>=◌
abbrev ◌>>=◌ :
    {W A B : Type 0} → Action W PairError A → (A → Action W PairError B) → Action W PairError B
m >>= next = λ w. and_then (m w) next

unfoldable pub check_opt_in : Bool → Done PairError
check_opt_in present = if not present then err no_opt_in else ok tt

unfoldable pub check_tpm : Bool → Bool → Done PairError
check_tpm seal_tpm present = if seal_tpm && not present then err no_tpm else ok tt

unfoldable pub check_fresh : FirmwareStatus → Done PairError
check_fresh status = if status.paired then err already_paired else ok tt

unfoldable pub check_accepted : Bytes → Done PairError
check_accepted reply = if not (eq reply (codes "OK paired")) then err (refused reply) else ok tt

unfoldable pub check_committed : FirmwareStatus → Done PairError
check_committed status = if not status.paired then err not_committed else ok tt

-- `keystore::allow_pair_present`
unfoldable pub allow_pair_present : Action Station PairError (Unit {0})
allow_pair_present s = (check_opt_in s.opt_in, s)

-- `keystore::remove_allow_pair`: a marker that is not there is no error.
unfoldable pub remove_marker : Outcome → Bool → Done ℕ × Bool
remove_marker o false = (ok tt, false)
remove_marker done true = (ok tt, false)
remove_marker (failed e) true = (err e, true)

unfoldable pub remove_allow_pair : Outcome → Action Station PairError (Unit {0})
remove_allow_pair o s =
    let r = remove_marker o s.opt_in in (map_error io r.0, record s { opt_in = r.1 })

unfoldable pub link_cmd : Nano → Bytes → Action Station PairError Bytes
link_cmd nano wire s =
    let sent = (wire, s.opt_in) ∷ s.sent in (map_error link (nano sent), record s { sent = sent })

unfoldable pub query_status : Nano → Action Station PairError FirmwareStatus
query_status nano = do
  line ← link_cmd nano (codes "status")
  lift (map_error bad_status (parse_status line))

unfoldable pub pcrs_of : Option Bytes → Result PairError Bytes
pcrs_of none = ok default_pcrs
pcrs_of (some s) = map_error bad_list (parse_pcr_list s)

unfoldable pub put_keys :
    {E : Type 0} → (E → PairError) → Station → Done E × Keys → Done PairError × Station
put_keys f s (r, ks) = (map_error f r, record s { host = record s.host { keys = ks } })

unfoldable pub init_state : Counter.Codec → PairCalls → Action Station PairError (Unit {0})
init_state codec c s =
    let r =
      reported_save (Counter.save codec c.fresh_dir c.fresh_saved Counter.fresh s.host.state) in
    (r.0, record s { host = record s.host { state = r.1 } })

module _ (L : Library) (w : L.World) (c : PairCalls) where
  unfoldable pub save_plain : Bytes → Action Station PairError (Unit {0})
  save_plain key s = put_keys io s (save_key c.key_saved key s.host.keys)

  unfoldable pub save_to_tpm : Bytes → Bytes → Action Station PairError (Unit {0})
  save_to_tpm key ps s =
      put_keys key_unusable s (save_key_sealed_with_pcrs L c.key_sealed key ps s.host.keys w)

  unfoldable pub store_key : Bool → Option Bytes → Bytes → Action Station PairError (Unit {0})
  store_key true seal_tpm_pcrs key = do ps ← lift (pcrs_of seal_tpm_pcrs); save_to_tpm key ps
  store_key false seal_tpm_pcrs key = save_plain key

  -- From the sending of the key on.
  unfoldable pub send_key :
      Counter.Codec → Nano → Bool → Option Bytes → Bytes → Action Station PairError (Unit {0})
  send_key codec nano seal_tpm seal_tpm_pcrs key = do
    reply ← link_cmd nano (codes "pair " ++ key_hex key)
    _ ← lift (check_accepted reply)
    post ← query_status nano
    _ ← lift (check_committed post)
    _ ← store_key seal_tpm seal_tpm_pcrs key
    init_state codec c

  unfoldable pub run_pair :
      Counter.Codec → Nano → Bool → Option Bytes → Action Station PairError (Unit {0})
  run_pair codec nano seal_tpm seal_tpm_pcrs = do
    _ ← allow_pair_present
    _ ← lift (check_tpm seal_tpm c.tpm_present)
    _ ← lift (map_error link c.port)
    pre ← query_status nano
    _ ← lift (check_fresh pre)
    key ← lift (map_error io c.generated)
    _ ← remove_allow_pair c.marker_removed
    send_key codec nano seal_tpm seal_tpm_pcrs key

-- What the removals of a resealing do.
pub record PurgeCalls : Type 0 where
  pub probed : Result ℕ (Unit {0})
  pub live_purged : RemoveCalls
  pub backup_purged : RemoveCalls
  pub sealed_purged : Outcome
  pub state_purged : Outcome

-- Both results are dropped.
unfoldable pub purge : PurgeCalls → Action Station PairError (Unit {0})
purge p s =
    let ks = (delete_all_keys p.live_purged p.backup_purged p.sealed_purged s.host.keys).1 in
    let d = (Counter.delete p.state_purged s.host.state).1 in
    (ok tt, record s { host = record { keys = ks; state = d } })

-- The port is opened for the probe, and once more by `run_pair`.
unfoldable pub run_reseal_tpm :
    (L : Library)
    → L.World
    → PairCalls
    → PurgeCalls
    → Counter.Codec
    → Nano
    → Option Bytes
    → Action Station PairError (Unit {0})
run_reseal_tpm L w c p codec nano seal_tpm_pcrs = do
  _ ← lift (check_tpm true c.tpm_present)
  _ ← allow_pair_present
  _ ← lift (map_error link p.probed)
  pre ← query_status nano
  _ ← lift (check_fresh pre)
  _ ← purge p
  run_pair L w c codec nano true seal_tpm_pcrs
