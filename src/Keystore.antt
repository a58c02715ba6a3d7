-- ===== src/Keystore.antt =====
-- pcside/daemon/src/keystore.rs: the host's key, in plain text with a backup, or sealed to the TPM.
mod Tests
pub mod Removing
pub mod Loading
pub mod Saving
pub mod Sealed
use Prim.Native.Nat.{bit_and, bit_or}
use linux_fingerprint_r.Prelude.{
  ℕ, zero, suc, min, ◌*◌, ◌+◌, ◌^◌, Bool, true, false, not, Option, none, some, List, [], ◌∷◌, ◌++◌,
  Bytes, trim, Result, ok, err, Done, ok_or, to_option, ◌>>=◌, take, drop, length, ◌==◌,
  if◌then◌else◌,
}
use linux_fingerprint_r.Disk.{File, Disk, Outcome, done, failed, Trial, replace_file, private_mode}
use linux_fingerprint_r.Hex.{to_hex, nybble}
use linux_fingerprint_r.Tpm.Sealing.{
  Library, SealError, seal_key_with_pcrs, seal_key_no_policy, unseal_key,
}

pub data KeySource : Type 0 where
  plaintext tpm : KeySource

pub data HexError : Type 0 where
  bad_length non_hex : ℕ → HexError

unfoldable pub key_hex : Bytes → Bytes
key_hex key = to_hex key

-- The loop over `chunks(2)`. A last chunk of one byte is not met in 32 bytes.
parse_chunks : Bytes → Result HexError Bytes
parse_chunks [] = ok []
parse_chunks (c ∷ []) = err (bad_length 1)
parse_chunks (c ∷ d ∷ s) = do
  hi ← ok_or (nybble c) (non_hex c)
  lo ← ok_or (nybble d) (non_hex d)
  out ← parse_chunks s
  ok (bit_or (hi * 2 ^ 4) lo ∷ out)

unfoldable pub parse_key_hex : Bytes → Result HexError Bytes
unfolding parse_chunks
parse_key_hex s = if not (length s == 32) then err (bad_length (length s)) else parse_chunks s

-- What `symlink_metadata` tells of a path: whether it is a link, the owner and the mode.
pub data Stat : Type 0 where
  not_found : Stat
  stat_failed : ℕ → Stat
  found : Bool → ℕ → ℕ → Stat

-- A path: its `symlink_metadata`, and what opening it without following a link and reading it give.
pub record Seen : Type 0 where
  pub stat : Stat
  pub text : Result ℕ Bytes

-- 0o777, 0o077 and 0o177
abbrev pub access_bits : ℕ
access_bits = 7 * 64 + 7 * 8 + 7

abbrev pub live_mask : ℕ
live_mask = 7 * 8 + 7

abbrev pub backup_mask : ℕ
backup_mask = 1 * 64 + 7 * 8 + 7

check_stat : ℕ → Result ℕ Bytes → Stat → Option Bytes
check_stat mask text not_found = none
check_stat mask text (stat_failed e) = none
check_stat mask text (found is_symlink uid mode) =
    if is_symlink
    then none
    else if not (uid == 0)
    then none
    else if not (bit_and (bit_and mode access_bits) mask == 0)
    then none
    else to_option text

unfoldable pub read_key_file_guarded : ℕ → Seen → Option Bytes
unfolding check_stat
read_key_file_guarded mask seen = check_stat mask seen.text seen.stat

unfoldable pub parse_candidate : Option Bytes → Option Bytes
parse_candidate none = none
parse_candidate (some hex) = to_option (parse_key_hex (trim hex))

-- The two rounds of the loop in `load_key`.
unfoldable pub or_backup : Option Bytes → Option Bytes → Option Bytes
or_backup none backup = backup
or_backup (some k) backup = some k

unfoldable pub load_key : Seen → Seen → Option Bytes
load_key live backup =
    or_backup (parse_candidate (read_key_file_guarded live_mask live))
      (parse_candidate (read_key_file_guarded backup_mask backup))

pub data KeyError : Type 0 where
  io : ℕ → KeyError
  sealing : SealError → KeyError

unfoldable pub plain_key : Option Bytes → Result KeyError (Option (Bytes × KeySource))
plain_key none = ok none
plain_key (some k) = ok (some (k, plaintext))

unfoldable pub unsealed_key : Result SealError Bytes → Result KeyError (Option (Bytes × KeySource))
unsealed_key (ok k) = ok (some (k, tpm))
unsealed_key (err e) = err (sealing e)

-- The sealed file is there or not, and reading it gives a result.
unfoldable pub load_key_with_source :
    (L : Library)
    → Option (Result ℕ Bytes)
    → Seen
    → Seen
    → L.World
    → Result KeyError (Option (Bytes × KeySource)) × L.World
load_key_with_source L none live backup w = (plain_key (load_key live backup), w)
load_key_with_source L (some (err e)) live backup w = (err (io e), w)
load_key_with_source L (some (ok blob)) live backup w =
    let r = unseal_key L blob w in (unsealed_key r.0, r.1)

-- The key's files. The paths `key` and `key.tpm` are replaced by way of a temporary file.
pub record Keys : Type 0 where
  pub live : Disk
  pub backup : Option File
  pub sealed : Disk

-- What the calls of `save_key` do, and what a copy that fails leaves of the backup.
pub record SaveCalls : Type 0 where
  pub dir_created : Outcome
  pub replaced : Trial
  pub copied : Outcome
  pub left_of_backup : Option File
  pub restricted : Outcome

-- 0o400
abbrev pub read_only : ℕ
read_only = 4 * 8 * 8

unfoldable pub restrict : Outcome → File → File
restrict (failed e) f = f
restrict done f = record f { mode = read_only }

-- `fs::copy` copies the mode too; it fails where there is nothing to copy.
unfoldable pub copy_backup : SaveCalls → Outcome → Option File → Keys → Done ℕ × Keys
copy_backup c (failed e) source ks = (err e, record ks { backup = c.left_of_backup })
copy_backup c done none ks = (err 2, ks)
copy_backup c done (some f) ks = (ok tt, record ks { backup = some (restrict c.restricted f) })

unfoldable pub after_replacement : SaveCalls → Keys → Done ℕ × Disk → Done ℕ × Keys
after_replacement c ks (err e, d) = (err e, record ks { live = d })
after_replacement c ks (ok _, d) = copy_backup c c.copied d.target (record ks { live = d })

unfoldable pub save_in_dir : SaveCalls → Outcome → Bytes → Keys → Done ℕ × Keys
save_in_dir c (failed e) key ks = (err e, ks)
save_in_dir c done key ks =
    after_replacement c ks (replace_file c.replaced (key_hex key ++ b'\n' ∷ []) ks.live)

unfoldable pub save_key : SaveCalls → Bytes → Keys → Done ℕ × Keys
save_key c key ks = save_in_dir c c.dir_created key ks
