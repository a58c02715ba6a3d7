-- ===== src/Program/Modes.antt =====
-- The command line of pcside/daemon/src/main.rs starts what it names.
use linux_fingerprint_r.Prelude.{
  ◌≡◌, if◌then◌else◌, true, false, Option, none, some, map, ◌⊎◌, Bytes, ok, err, codes, trim,
}
use linux_fingerprint_r.Program.{
  Args, Mode, pairing, unpairing, reporting, resyncing, tpm_resealing, policy_resealing, Job,
  do_status, do_unpair, do_resync, do_pair, do_reseal_tpm, do_reseal_policy, list_without_seal,
  bad_list, do_serve, pair_job, reseal_policy_job, ascii_lower,
}
use linux_fingerprint_r.Tpm.{PcrError, parse_pcr_list}

-- The argument that a job belongs to, and its errors too; the daemon belongs to none.
abbrev belongs_to : Job → Option Mode
belongs_to do_status = some reporting
belongs_to do_unpair = some unpairing
belongs_to do_resync = some resyncing
belongs_to (do_pair seal list) = some pairing
belongs_to (do_reseal_tpm list) = some tpm_resealing
belongs_to (do_reseal_policy list) = some policy_resealing
belongs_to list_without_seal = some pairing
belongs_to (bad_list e) = some policy_resealing
belongs_to do_serve = none

-- The order in which `main` asks for the arguments.
first_set : Args → Option Mode
first_set a =
    if a.status
    then some reporting
    else if a.pair
    then some pairing
    else if a.unpair
    then some unpairing
    else if a.resync
    then some resyncing
    else if a.reseal_tpm
    then some tpm_resealing
    else if a.reseal_policy
    then some policy_resealing
    else none

-- What the argument asks for, or the one error before it that the other arguments call for.
pub data Asked (a : Args) : Mode → Job → Type 0 where
  status : Asked a reporting do_status
  unpair : Asked a unpairing do_unpair
  resync : Asked a resyncing do_resync
  reseal_tpm : Asked a tpm_resealing (do_reseal_tpm a.seal_tpm_pcrs)
  pair :
      (a.seal_tpm ≡ true) ⊎ (a.seal_tpm_pcrs ≡ none)
      → Asked a pairing (do_pair a.seal_tpm a.seal_tpm_pcrs)
  list_unused :
      (s : Bytes)
      → a.seal_tpm ≡ false
      → a.seal_tpm_pcrs ≡ some s
      → Asked a pairing list_without_seal
  unlisted : a.seal_tpm_pcrs ≡ none → Asked a policy_resealing (do_reseal_policy none)
  no_list :
      (s : Bytes)
      → a.seal_tpm_pcrs ≡ some s
      → map ascii_lower (trim s) ≡ codes "none"
      → Asked a policy_resealing (do_reseal_policy none)
  listed :
      (s ps : Bytes)
      → a.seal_tpm_pcrs ≡ some s
      → parse_pcr_list s ≡ ok ps
      → Asked a policy_resealing (do_reseal_policy (some ps))
  unread :
      (s : Bytes) (e : PcrError)
      → a.seal_tpm_pcrs ≡ some s
      → parse_pcr_list s ≡ err e
      → Asked a policy_resealing (bad_list e)

job_of : Args → Mode → Job
job_of a reporting = do_status
job_of a unpairing = do_unpair
job_of a resyncing = do_resync
job_of a tpm_resealing = do_reseal_tpm a.seal_tpm_pcrs
job_of a pairing = pair_job a.seal_tpm a.seal_tpm_pcrs
job_of a policy_resealing = reseal_policy_job a.seal_tpm_pcrs
