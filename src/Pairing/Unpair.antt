-- ===== src/Pairing/Unpair.antt =====
-- run_unpair of pcside/daemon/src/pairing.rs. What the link makes of a command is an argument: the line of an
-- answer, or an error's number. What `send` gives may depend on the files of the host when the frame is sent.
use linux_fingerprint_r.Prelude.{
  ℕ, ◌+◌, ◌==◌, Bool, true, false, not, Option, none, some, Bytes, codes, eq, leb, starts_with,
  Result, ok, err, Done, ok_or, ◌>>=◌, if◌then◌else◌,
}
use linux_fingerprint_r.Counter
use linux_fingerprint_r.Disk.{Disk, Outcome, Trial}
use linux_fingerprint_r.Framing.{counter_ceiling, encode_command, verify_response}
use linux_fingerprint_r.Keystore.{KeySource, Keys, KeyError}
use linux_fingerprint_r.Keystore.Removing.{RemoveCalls, delete_key, delete_all_keys}
use linux_fingerprint_r.Pairing.{
  FirmwareStatus, parse_status, PairError, map_error, key_unusable, no_key, link, bad_status,
  bad_state, reserved, refused, bad_frame, other_counter, still_paired, io, reported_save,
}

-- The files of the host: the key's and the counter's.
pub record Host : Type 0 where
  pub keys : Keys
  pub state : Disk

-- What the calls on the files do.
pub record UnpairCalls : Type 0 where
  pub state_stat : Outcome
  pub state_read : Outcome
  pub state_dir : Outcome
  pub state_saved : Trial
  pub live_gone : RemoveCalls
  pub backup_gone : RemoveCalls
  pub sealed_gone : Outcome
  pub state_gone : Outcome

unfoldable pub first_status :
    Result KeyError (Option (Bytes × KeySource)) → Result ℕ Bytes → Result PairError (Bytes × Bool)
first_status key pre = do
  loaded ← map_error key_unusable key
  held ← ok_or loaded no_key
  line ← map_error link pre
  status ← map_error bad_status (parse_status line)
  ok (held.0, status.paired)

abbrev pub or_fresh : Option ℕ → ℕ
or_fresh none = Counter.fresh
or_fresh (some n) = n

unfoldable pub below_ceiling : ℕ → Result PairError ℕ
below_ceiling n = if leb counter_ceiling n then err (reserved n) else ok n

unfoldable pub unpair_counter : Result Counter.StateError (Option ℕ) → Result PairError ℕ
unpair_counter old = do st ← map_error bad_state old; below_ceiling (or_fresh st)

unfoldable pub check_framed : Bytes → Done PairError
check_framed line = if not (starts_with (codes "R ") line) then err (refused line) else ok tt

unfoldable pub check_counter : ℕ → ℕ → Done PairError
check_counter n got = if not (got == n) then err (other_counter got n) else ok tt

unfoldable pub check_body : Bytes → Done PairError
check_body body = if not (eq body (codes "OK unpaired")) then err (refused body) else ok tt

unfoldable pub check_unpaired : FirmwareStatus → Done PairError
check_unpaired status = if status.paired then err still_paired else ok tt

-- The reply to the framed command, and the status after it.
unfoldable pub confirm : Bytes → ℕ → Result ℕ Bytes → Result ℕ Bytes → Done PairError
confirm key n reply post = do
  line ← map_error link reply
  _ ← check_framed line
  frame ← map_error bad_frame (verify_response key line)
  _ ← check_counter n frame.0
  _ ← check_body frame.2
  after ← map_error link post
  status ← map_error bad_status (parse_status after)
  check_unpaired status

unfoldable pub with_state : Host → Done PairError × Disk → Done PairError × Host
with_state h (r, d) = (r, record h { state = d })

unfoldable pub delete_state : UnpairCalls → Host → Done ℕ × Keys → Done PairError × Host
delete_state c h (err e, ks) = (err (io e), record h { keys = ks })
delete_state c h (ok _, ks) =
    with_state (record h { keys = ks }) (reported_save (Counter.delete c.state_gone h.state))

unfoldable pub clear_host : UnpairCalls → Done PairError → Host → Done PairError × Host
clear_host c (err e) h = (err e, h)
clear_host c (ok _) h =
    delete_state c h (delete_all_keys c.live_gone c.backup_gone c.sealed_gone h.keys)

module _ (codec : Counter.Codec) (c : UnpairCalls) (send : Host → Bytes → Result ℕ Bytes)
    (post : Result ℕ Bytes) where
  unfoldable pub send_unpair : Bytes → ℕ → Done PairError × Host → Done PairError × Host
  send_unpair key n (err e, h) = (err e, h)
  send_unpair key n (ok _, h) =
      clear_host c (confirm key n (send h (encode_command key n (codes "unpair"))) post) h

  unfoldable pub persist_next : Bytes → Result PairError ℕ → Host → Done PairError × Host
  persist_next key (err e) h = (err e, h)
  persist_next key (ok n) h =
      send_unpair key n (
        with_state h (reported_save (Counter.save codec c.state_dir c.state_saved (n + 1) h.state)))

  -- Where the firmware is unpaired already, the errors of the removal are dropped.
  unfoldable pub unpair_from : Result PairError (Bytes × Bool) → Host → Done PairError × Host
  unpair_from (err e) h = (err e, h)
  unpair_from (ok (key, false)) h =
      (ok tt, record h { keys = (delete_key c.live_gone c.backup_gone h.keys).1 })
  unpair_from (ok (key, true)) h =
      persist_next key
        (unpair_counter (Counter.load codec c.state_stat c.state_read h.state.target)) h

  unfoldable pub run_unpair :
      Result KeyError (Option (Bytes × KeySource)) → Result ℕ Bytes → Host → Done PairError × Host
  run_unpair key pre h = unpair_from (first_status key pre) h
