-- ===== src/Auth.antt =====
-- pcside/daemon/src/auth.rs: for which user a caller on the bus may act. The bus, the password file and
-- polkit are functions that the code asks; their errors are numbers.
mod Tests
pub mod Allowed
use linux_fingerprint_r.Prelude.{
  ℕ, ◌==◌, ltb, Bool, true, false, ◌||◌, Option, none, some, [], ◌∷◌, Bytes, codes, eq, Result,
  Done, ok, err, ok_or, ◌>>=◌, if◌then◌else◌,
}

-- What is asked for a sender, a user's number and a process.
pub record World : Type 0 where
  pub bus_name : Bytes → Result ℕ (Unit {0})
  pub dbus_proxy : Result ℕ (Unit {0})
  pub get_connection_unix_user : Bytes → Result ℕ ℕ
  pub get_connection_unix_process_id : Bytes → Result ℕ ℕ
  pub pwd_lookup : ℕ → Option Bytes
  pub authority_proxy : Result ℕ (Unit {0})
  pub new_for_owner : ℕ → Result ℕ (Unit {0})
  pub check_authorization : ℕ → Result ℕ Bool

-- `FprintError::Internal` by the place that gives it, and `PermissionDenied`.
pub data AuthError : Type 0 where
  missing_sender unsafe_username : AuthError
  invalid_sender no_dbus no_unix_user no_process_id not_in_passwd polkit_proxy polkit_subject
        polkit_check :
      ℕ → AuthError
  permission_denied : ℕ → Bytes → AuthError

-- `map_err`
unfoldable pub map_err {ℓ} : {A : Type ℓ} → (ℕ → AuthError) → Result ℕ A → Result AuthError A
map_err f (ok a) = ok a
map_err f (err e) = err (f e)

contains_byte : ℕ → Bytes → Bool
contains_byte c [] = false
contains_byte c (b ∷ s) = (b == c) || contains_byte c s

-- `u8::is_ascii_control`
abbrev pub is_ascii_control : ℕ → Bool
is_ascii_control b = ltb b 32 || b == 127

any_control : Bytes → Bool
any_control [] = false
any_control (b ∷ s) = (b == 0 || is_ascii_control b) || any_control s

is_empty : Bytes → Bool
is_empty [] = true
is_empty (b ∷ s) = false

bad_username : Bytes → Bool
bad_username user =
    is_empty user
    || (eq user (codes ".")
        || (eq user (codes "..")
            || (contains_byte b'/' user || (contains_byte b'\\' user || any_control user))))

unfoldable pub validate_username : Bytes → Done AuthError
unfolding bad_username contains_byte any_control is_empty
validate_username user = if bad_username user then err unsafe_username else ok tt

pub record Caller : Type 0 where
  pub uid : ℕ
  pub pid : ℕ
  pub user : Bytes

unfoldable pub resolve_caller : World → Option Bytes → Result AuthError Caller
resolve_caller w sender = do
  name ← ok_or sender missing_sender
  _ ← map_err invalid_sender (w.bus_name name)
  _ ← map_err no_dbus w.dbus_proxy
  uid ← map_err no_unix_user (w.get_connection_unix_user name)
  pid ← map_err no_process_id (w.get_connection_unix_process_id name)
  user ← ok_or (w.pwd_lookup uid) (not_in_passwd uid)
  _ ← validate_username user
  ok (record { uid = uid; pid = pid; user = user })

-- A caller that asks for another user and is not root.
unfoldable pub ask_polkit : World → Caller → Bytes → Result AuthError Bytes
ask_polkit w caller requested = do
  _ ← map_err polkit_proxy w.authority_proxy
  _ ← map_err polkit_subject (w.new_for_owner caller.pid)
  is_authorized ← map_err polkit_check (w.check_authorization caller.pid)
  if is_authorized then ok requested else err (permission_denied caller.uid requested)

unfoldable pub authorize : World → Bytes → Caller → Result AuthError Bytes
unfolding is_empty
authorize w requested caller =
    if is_empty requested || eq requested caller.user
    then ok caller.user
    else if caller.uid == 0
    then ok requested
    else ask_polkit w caller requested

unfoldable pub authorize_username : World → Option Bytes → Bytes → Result AuthError Bytes
authorize_username w sender requested = do
  caller ← resolve_caller w sender
  authorize w requested caller
