-- ===== src/Program.antt =====
-- pcside/daemon/src/main.rs: the command line and what it starts. What clap has read is a record; that it refuses
-- arguments in conflict is modelled from the attributes.
pub mod Restart
mod Tests
pub mod Modes
pub mod Startup
pub mod Watcher
use linux_fingerprint_r.Prelude.{
  ℕ, ◌+◌, Bool, true, false, not, ◌&&◌, ◌||◌, Option, none, some, List, [], ◌∷◌, ◌++◌, Bytes, codes,
  eq, leb, trim, Result, ok, err, map, ◌==◌, if◌then◌else◌,
}
use linux_fingerprint_r.Tpm.{PcrError, parse_pcr_list}

pub record Args : Type 0 where
  pub session : Bool
  pub port : Option Bytes
  pub storage : Option Bytes
  pub confidence : ℕ
  pub pair : Bool
  pub seal_tpm : Bool
  pub seal_tpm_pcrs : Option Bytes
  pub unpair : Bool
  pub status : Bool
  pub resync : Bool
  pub reseal_tpm : Bool
  pub reseal_policy : Bool

-- The arguments that exit before the daemon starts.
pub data Mode : Type 0 where
  pairing unpairing reporting resyncing tpm_resealing policy_resealing : Mode

unfoldable pub is_set : Args → Mode → Bool
is_set a pairing = a.pair
is_set a unpairing = a.unpair
is_set a reporting = a.status
is_set a resyncing = a.resync
is_set a tpm_resealing = a.reseal_tpm
is_set a policy_resealing = a.reseal_policy

-- `conflicts_with_all`
conflicts : Mode → List Mode
conflicts pairing = unpairing ∷ reporting ∷ tpm_resealing ∷ resyncing ∷ []
conflicts unpairing = pairing ∷ reporting ∷ tpm_resealing ∷ resyncing ∷ []
conflicts reporting = pairing ∷ unpairing ∷ tpm_resealing ∷ resyncing ∷ []
conflicts resyncing = pairing ∷ unpairing ∷ reporting ∷ tpm_resealing ∷ policy_resealing ∷ []
conflicts tpm_resealing = pairing ∷ unpairing ∷ reporting ∷ resyncing ∷ policy_resealing ∷ []
conflicts policy_resealing = pairing ∷ unpairing ∷ reporting ∷ resyncing ∷ tpm_resealing ∷ []

unfoldable pub any_set : Args → List Mode → Bool
unfolding is_set
any_set a [] = false
any_set a (m ∷ ms) = is_set a m || any_set a ms

clashes : Args → Mode → Bool
unfolding any_set conflicts
clashes a m = is_set a m && any_set a (conflicts m)

any_clash : Args → List Mode → Bool
unfolding clashes
any_clash a [] = false
any_clash a (m ∷ ms) = clashes a m || any_clash a ms

abbrev pub all_modes : List Mode
all_modes = pairing ∷ unpairing ∷ reporting ∷ resyncing ∷ tpm_resealing ∷ policy_resealing ∷ []

-- What clap lets pass: no conflict, and `seal_tpm` only with `pair`.
unfoldable pub accepts : Args → Bool
unfolding any_clash
accepts a = not (any_clash a all_modes) && (not a.seal_tpm || a.pair)

-- What `main` calls, or the error before the call.
pub data Job : Type 0 where
  do_status do_unpair do_resync : Job
  do_pair : Bool → Option Bytes → Job
  do_reseal_tpm : Option Bytes → Job
  do_reseal_policy : Option Bytes → Job
  list_without_seal : Job
  bad_list : PcrError → Job
  do_serve : Job

-- `eq_ignore_ascii_case`
unfoldable pub ascii_lower : ℕ → ℕ
ascii_lower b = if leb b'A' b && leb b b'Z' then b + 32 else b

eq_ignore_ascii_case : Bytes → Bytes → Bool
unfolding ascii_lower
eq_ignore_ascii_case s t = eq (map ascii_lower s) (map ascii_lower t)

policy_list : Result PcrError Bytes → Job
policy_list (ok ps) = do_reseal_policy (some ps)
policy_list (err e) = bad_list e

reseal_policy_job : Option Bytes → Job
unfolding eq_ignore_ascii_case policy_list
reseal_policy_job none = do_reseal_policy none
reseal_policy_job (some s) =
    if eq_ignore_ascii_case (trim s) (codes "none")
    then do_reseal_policy none
    else policy_list (parse_pcr_list s)

pair_job : Bool → Option Bytes → Job
pair_job true list = do_pair true list
pair_job false (some s) = list_without_seal
pair_job false none = do_pair false none

unfoldable pub dispatch : Args → Job
unfolding pair_job reseal_policy_job
dispatch a =
    if a.status
    then do_status
    else if a.pair
    then pair_job a.seal_tpm a.seal_tpm_pcrs
    else if a.unpair
    then do_unpair
    else if a.resync
    then do_resync
    else if a.reseal_tpm
    then do_reseal_tpm a.seal_tpm_pcrs
    else if a.reseal_policy
    then reseal_policy_job a.seal_tpm_pcrs
    else do_serve

-- `PathBuf::join`, for a second part that does not start with a slash.
join_path : Bytes → Bytes → Bytes
join_path [] t = t
join_path (b ∷ []) t = if b == b'/' then b ∷ t else b ∷ b'/' ∷ t
join_path (b ∷ c ∷ s) t = b ∷ join_path (c ∷ s) t

-- `XDG_STATE_HOME` and `HOME`, where they are set to a text.
state_home : Option Bytes → Option Bytes → Bytes
unfolding join_path
state_home (some xdg) home = xdg
state_home none (some home) = join_path (join_path home (codes ".local")) (codes "state")
state_home none none = join_path (join_path (codes "/tmp") (codes ".local")) (codes "state")

unfoldable pub default_storage_path : Option Bytes → Option Bytes → Bool → Bytes
unfolding state_home
default_storage_path xdg home session =
    if session
    then join_path (join_path (state_home xdg home) (codes "r503d")) (codes "users.json")
    else codes "/var/lib/r503d/users.json"

abbrev pub storage_path : Option Bytes → Option Bytes → Args → Bytes
storage_path xdg home a = elim (a.storage) [
  | none ↦ default_storage_path xdg home a.session
  | some p ↦ p
]
