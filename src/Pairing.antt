-- ===== src/Pairing.antt =====
-- pcside/daemon/src/pairing.rs: the status line of the firmware, the recovery of a lost counter and the change of
-- a seal's policy. Finding and opening the port and the exchange of the status command give the line or
-- an error's number.
pub mod Tests
pub mod Resync
pub mod Policy
pub mod Resealing
pub mod Unpair
pub mod Unpairing
pub mod Pair
pub mod Gate
pub mod Paired
pub mod Overview
pub mod Link
use linux_fingerprint_r.Prelude.{
  ℕ, ◌+◌, ◌-◌, ◌≡◌, Bool, true, false, not, Option, none, some, List, [], ◌∷◌, Bytes, codes, eq,
  leb, strip_prefix, split_once, split_whitespace, Result, ok, err, Done, ok_or, ◌>>=◌,
  if◌then◌else◌,
}
use linux_fingerprint_r.Counter
use linux_fingerprint_r.Decimal.{parse, max_u8, max_u64}
use linux_fingerprint_r.Disk.{Disk, File, Outcome, Trial}
use linux_fingerprint_r.Framing.{FramingError, counter_ceiling}
use linux_fingerprint_r.Keystore.{
  KeySource, plaintext, tpm, Keys, KeyError, Seen, load_key_with_source,
}
use linux_fingerprint_r.Keystore.Removing.{RemoveCalls, persist_sealed_blob, delete_key}
use linux_fingerprint_r.Tpm.{PcrError}
use linux_fingerprint_r.Tpm.Sealing.{
  Library, SealError, seal_key_with_pcrs, seal_key_no_policy, unseal_key,
}

pub record FirmwareStatus : Type 0 where
  pub paired : Bool
  pub counter : ℕ
  pub fmt : ℕ
  pub fw : Bytes

pub data StatusError : Type 0 where
  missing_ok : Bytes → StatusError
  missing_paired missing_counter missing_fmt missing_fw : StatusError

-- The four variables of the loop over the tokens.
pub record Fields : Type 0 where
  pub paired_field : Option Bool
  pub counter_field : Option ℕ
  pub fmt_field : Option ℕ
  pub fw_field : Option Bytes

set_field : Bytes → Bytes → Fields → Fields
set_field k v f =
    if eq k (codes "paired")
    then record f { paired_field = some (eq v (codes "true")) }
    else if eq k (codes "counter")
    then record f { counter_field = parse max_u64 v }
    else if eq k (codes "fmt")
    then record f { fmt_field = parse max_u8 v }
    else if eq k (codes "fw")
    then record f { fw_field = some v }
    else f

scan_token : Option (Bytes × Bytes) → Fields → Fields
scan_token none f = f
scan_token (some (k, v)) f = set_field k v f

scan_fields : List Bytes → Fields → Fields
scan_fields [] f = f
scan_fields (tok ∷ toks) f = scan_fields toks (scan_token (split_once b'=' tok) f)

abbrev no_fields : Fields
no_fields = record { paired_field = none; counter_field = none; fmt_field = none; fw_field = none }

to_status : Fields → Result StatusError FirmwareStatus
to_status f = do
  paired ← ok_or f.paired_field missing_paired
  counter ← ok_or f.counter_field missing_counter
  fmt ← ok_or f.fmt_field missing_fmt
  fw ← ok_or f.fw_field missing_fw
  ok (record { paired = paired; counter = counter; fmt = fmt; fw = fw })

unfoldable pub parse_status : Bytes → Result StatusError FirmwareStatus
unfolding set_field scan_token scan_fields to_status
parse_status line = do
  body ← ok_or (strip_prefix (codes "OK ") line) (missing_ok line)
  to_status (scan_fields (split_whitespace body) no_fields)

pub data PairError : Type 0 where
  key_unusable : KeyError → PairError
  no_key not_paired mismatch : PairError
  still_paired no_opt_in no_tpm already_paired not_committed : PairError
  bad_list : PcrError → PairError
  refused : Bytes → PairError
  bad_frame : FramingError → PairError
  other_counter : ℕ → ℕ → PairError
  link io : ℕ → PairError
  no_reply : Bytes → PairError
  no_sync : Option Bytes → PairError
  bad_status : StatusError → PairError
  reserved : ℕ → PairError
  bad_state : Counter.StateError → PairError
  sealing : SealError → PairError

-- `context` and `map_err`
abbrev pub map_error : {E A : Type 0} → (E → PairError) → Result E A → Result PairError A
map_error f (ok a) = ok a
map_error f (err e) = err (f e)

pub map_error-ok :
    {E A : Type 0} (f : E → PairError) (r : Result E A) {a : A} → map_error f r ≡ ok a → r ≡ ok a
map_error-ok f (ok a) h = cc h
map_error-ok f (err e) h = cc h

unfoldable pub resync_target : ℕ → Result PairError ℕ
resync_target reported =
    if leb (counter_ceiling - 1) reported then err (reserved reported) else ok (reported + 1)

unfoldable pub check_paired : FirmwareStatus → Done PairError
check_paired status = if not status.paired then err not_paired else ok tt

-- All that is read before the one write: the key, the status and the old counter.
unfoldable pub new_counter :
    Result KeyError (Option (Bytes × KeySource))
    → Result ℕ Bytes
    → Result Counter.StateError (Option ℕ)
    → Result PairError ℕ
new_counter key reply old = do
  held ← map_error key_unusable key
  _ ← ok_or held no_key
  line ← map_error link reply
  status ← map_error bad_status (parse_status line)
  _ ← check_paired status
  target ← resync_target status.counter
  _ ← map_error bad_state old
  ok target

unfoldable pub reported_save : Done Counter.StateError × Disk → Done PairError × Disk
reported_save (r, d) = (map_error bad_state r, d)

unfoldable pub write_counter :
    Counter.Codec → Outcome → Trial → Disk → Result PairError ℕ → Done PairError × Disk
write_counter c dir t d (err e) = (err e, d)
write_counter c dir t d (ok n) = reported_save (Counter.save c dir t n d)

-- The disk is the one of the state file; `stat`, `read`, `dir` and `t` are what the calls on it do.
unfoldable pub run_resync :
    Counter.Codec
    → Result KeyError (Option (Bytes × KeySource))
    → Result ℕ Bytes
    → Outcome
    → Outcome
    → Outcome
    → Trial
    → Disk
    → Done PairError × Disk
run_resync c key reply stat read dir t d =
    write_counter c dir t d (new_counter key reply (Counter.load c stat read d.target))
