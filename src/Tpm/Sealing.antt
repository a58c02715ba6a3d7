-- ===== src/Tpm/Sealing.antt =====
-- How pcside/daemon/src/tpm.rs seals a key to the TPM and unseals it. The library that speaks to the TPM
-- (tss-esapi) is an interface, with the templates and the PCR selection that are built by it alone; its errors
-- are numbers. The code only ever sets the first of its three sessions.
pub mod Tests
pub mod Policies
pub mod Honest
pub mod Steps
pub mod RoundTrip
use linux_fingerprint_r.Prelude.{
  ℕ, Bool, true, false, not, Option, none, some, List, [], ◌∷◌, Bytes, Result, ok, err, length,
  ◌==◌, if◌then◌else◌, map,
}
use linux_fingerprint_r.Prelude.Actions.{Action, and_then, return, lift, attempt, ignore}
use linux_fingerprint_r.Tpm.{
  SealPolicy, pcrs, no_policy, default_pcrs, PcrError, validate_pcrs, BlobError, Parts,
  serialize_blob, deserialize_blob,
}

pub data SessionType : Type 0 where
  hmac policy trial : SessionType

-- The attributes of a sealed object that the code sets.
pub record ObjectAttributes : Type 0 where
  pub fixed_tpm : Bool
  pub fixed_parent : Bool
  pub no_da : Bool
  pub admin_with_policy : Bool
  pub user_with_auth : Bool

-- The functions of the library that are called, and their types.
pub record Library : Type 1 where
  pub World : Type 0
  pub Session : Type 0
  pub Handle : Type 0
  pub Public : Type 0
  pub Private : Type 0
  pub Selection : Type 0
  pub Digest : Type 0
  pub Sensitive : Type 0
  pub open_context : Action World ℕ (Unit {0})
  pub pcr_selection : Bytes → Result ℕ Selection
  pub start_auth_session : SessionType → Action World ℕ (Option Session)
  pub set_attributes : Session → Action World ℕ (Unit {0})
  pub sessions : World → Option Session
  pub set_sessions : Option Session → World → World
  pub policy_session : Session → Result ℕ Session
  pub policy_pcr : Session → Selection → Action World ℕ (Unit {0})
  pub policy_get_digest : Session → Action World ℕ Digest
  pub srk_template : Result ℕ Public
  pub build_public : ObjectAttributes → Option Digest → Result ℕ Public
  pub create_primary : Public → Action World ℕ Handle
  pub sensitive_data : Bytes → Result ℕ Sensitive
  pub create : Handle → Public → Sensitive → Action World ℕ (Public × Private)
  pub load_object : Handle → Private → Public → Action World ℕ Handle
  pub unseal : Handle → Action World ℕ Bytes
  pub flush_session : Session → Action World ℕ (Unit {0})
  pub flush_handle : Handle → Action World ℕ (Unit {0})
  pub marshall : Public → Result ℕ Bytes
  pub unmarshall : Bytes → Result ℕ Public
  pub private_value : Private → Bytes
  pub private_from : Bytes → Result ℕ Private

pub data SealError : Type 0 where
  library wrong_length : ℕ → SealError
  no_session : SealError
  pcr_list : PcrError → SealError
  blob : BlobError → SealError

infixl 5 ◌>>=◌
abbrev pub ◌>>=◌ :
    {W A B : Type 0} → Action W SealError A → (A → Action W SealError B) → Action W SealError B
m >>= next = λ w. and_then (m w) next

abbrev pub of_library : {A : Type 0} → Result ℕ A → Result SealError A
of_library (ok a) = ok a
of_library (err e) = err (library e)

abbrev pub of_list : {A : Type 0} → Result PcrError A → Result SealError A
of_list (ok a) = ok a
of_list (err e) = err (pcr_list e)

abbrev pub of_blob : {A : Type 0} → Result BlobError A → Result SealError A
of_blob (ok a) = ok a
of_blob (err e) = err (blob e)

abbrev pub call : {W A : Type 0} → Action W ℕ A → Action W SealError A
call m w = (of_library (m w).0, (m w).1)

abbrev pub or_no_session : {A : Type 0} → Option A → Result SealError A
or_no_session none = err no_session
or_no_session (some a) = ok a

module _ (L : Library) where
  abbrev pub Step : Type 0 → Type 0
  Step A = Action L.World SealError A

  abbrev set_sessions : Option L.Session → Step (Unit {0})
  set_sessions s w = (ok tt, L.set_sessions s w)

  -- `start_hmac_session` and `start_policy_session`
  unfoldable pub start_session : SessionType → Step L.Session
  start_session kind = do
    started ← call (L.start_auth_session kind)
    s ← lift (or_no_session started)
    _ ← call (L.set_attributes s)
    return s

  abbrev current_sessions : Step (Option L.Session)
  current_sessions w = (ok (L.sessions w), w)

  unfoldable pub trial_policy_pcr_digest : L.Selection → Step L.Digest
  trial_policy_pcr_digest selection = do
    old ← current_sessions
    _ ← set_sessions none
    s ← start_session trial
    policy_session ← lift (of_library (L.policy_session s))
    _ ← call (L.policy_pcr policy_session selection)
    digest ← call (L.policy_get_digest policy_session)
    _ ← ignore (call (L.flush_session s))
    _ ← set_sessions old
    return digest

  abbrev pub sealed_attributes : ObjectAttributes
  sealed_attributes = record {
    fixed_tpm = true;
    fixed_parent = true;
    no_da = true;
    admin_with_policy = true;
    user_with_auth = false;
  }

  abbrev pub open_attributes : ObjectAttributes
  open_attributes = record {
    fixed_tpm = true;
    fixed_parent = true;
    no_da = true;
    admin_with_policy = false;
    user_with_auth = true;
  }

  unfoldable pub sealed_object_template : L.Digest → Result ℕ L.Public
  sealed_object_template digest = L.build_public sealed_attributes (some digest)

  unfoldable pub sealed_object_template_no_policy : Result ℕ L.Public
  sealed_object_template_no_policy = L.build_public open_attributes none

  -- The closure of both sealing functions, with the template of the sealed object.
  unfoldable pub create_sealed : Bytes → Result ℕ L.Public → L.Session → Step (Bytes × Bytes)
  create_sealed key template session = do
    _ ← set_sessions (some session)
    srk ← lift (of_library L.srk_template)
    primary ← call (L.create_primary srk)
    sealed_pub ← lift (of_library template)
    sensitive ← lift (of_library (L.sensitive_data key))
    created ← call (L.create primary sealed_pub sensitive)
    pub_bytes ← lift (of_library (L.marshall created.0))
    _ ← ignore (call (L.flush_handle primary))
    return (pub_bytes, L.private_value created.1)

  unfoldable pub seal_with : Bytes → Result ℕ L.Public → SealPolicy → Step Bytes
  seal_with key template how = do
    session ← start_session hmac
    tried ← attempt (create_sealed key template session)
    _ ← ignore (call (L.flush_session session))
    parts ← lift tried
    return (serialize_blob how parts.0 parts.1)

  unfoldable pub seal_key_with_pcrs : Bytes → Bytes → Step Bytes
  seal_key_with_pcrs key ps = do
    _ ← lift (of_list (validate_pcrs ps))
    _ ← call L.open_context
    selection ← lift (of_library (L.pcr_selection ps))
    digest ← trial_policy_pcr_digest selection
    seal_with key (sealed_object_template digest) (pcrs ps)

  unfoldable pub seal_key : Bytes → Step Bytes
  seal_key key = seal_key_with_pcrs key default_pcrs

  unfoldable pub seal_key_no_policy : Bytes → Step Bytes
  seal_key_no_policy key = do
    _ ← call L.open_context
    seal_with key sealed_object_template_no_policy no_policy

  unfoldable pub check_length : Bytes → Result SealError Bytes
  check_length bytes =
      if not (length bytes == 16) then err (wrong_length (length bytes)) else ok bytes

  unfoldable pub load_sealed : L.Public → L.Private → L.Session → Step (L.Handle × L.Handle)
  load_sealed sealed_public sealed_private session = do
    _ ← set_sessions (some session)
    srk ← lift (of_library L.srk_template)
    primary ← call (L.create_primary srk)
    loaded ← call (L.load_object primary sealed_private sealed_public)
    return (primary, loaded)

  unfoldable pub unseal_under_policy :
      L.Selection → L.Public → L.Private → L.Session → L.Session → Step Bytes
  unseal_under_policy selection sealed_public sealed_private session under = do
    handles ← load_sealed sealed_public sealed_private session
    policy_session ← lift (of_library (L.policy_session under))
    _ ← call (L.policy_pcr policy_session selection)
    _ ← set_sessions (some under)
    unsealed ← call (L.unseal handles.1)
    _ ← set_sessions (some session)
    _ ← ignore (call (L.flush_handle handles.1))
    _ ← ignore (call (L.flush_handle handles.0))
    lift (check_length unsealed)

  unfoldable pub unseal_with_pcr_policy : Bytes → L.Public → L.Private → Step Bytes
  unseal_with_pcr_policy ps sealed_public sealed_private = do
    selection ← lift (of_library (L.pcr_selection ps))
    session ← start_session hmac
    under ← start_session policy
    tried ← attempt (unseal_under_policy selection sealed_public sealed_private session under)
    _ ← ignore (call (L.flush_session under))
    _ ← ignore (call (L.flush_session session))
    lift tried

  unfoldable pub unseal_openly : L.Public → L.Private → L.Session → Step Bytes
  unseal_openly sealed_public sealed_private session = do
    handles ← load_sealed sealed_public sealed_private session
    unsealed ← call (L.unseal handles.1)
    _ ← ignore (call (L.flush_handle handles.1))
    _ ← ignore (call (L.flush_handle handles.0))
    lift (check_length unsealed)

  unfoldable pub unseal_with_no_policy : L.Public → L.Private → Step Bytes
  unseal_with_no_policy sealed_public sealed_private = do
    session ← start_session hmac
    tried ← attempt (unseal_openly sealed_public sealed_private session)
    _ ← ignore (call (L.flush_session session))
    lift tried

  unfoldable pub unseal_by : SealPolicy → L.Public → L.Private → Step Bytes
  unseal_by (pcrs ps) sealed_public sealed_private =
      unseal_with_pcr_policy ps sealed_public sealed_private
  unseal_by no_policy sealed_public sealed_private =
      unseal_with_no_policy sealed_public sealed_private

  unfoldable pub unseal_key : Bytes → Step Bytes
  unseal_key bytes = do
    parts ← lift (of_blob (deserialize_blob bytes))
    sealed_public ← lift (of_library (L.unmarshall parts.pub_bytes))
    sealed_private ← lift (of_library (L.private_from parts.priv_bytes))
    _ ← call L.open_context
    unseal_by parts.policy sealed_public sealed_private
