-- ===== src/Auth/Tests.antt =====
-- Callers of pcside/daemon/src/auth.rs at concrete inputs.
use linux_fingerprint_r.Prelude.{◌≡◌, refl, false, some, codes, eq, ok, err, ◌==◌, if◌then◌else◌}
use linux_fingerprint_r.Auth.{
  World, Caller, permission_denied, unsafe_username, map_err, validate_username, resolve_caller,
  ask_polkit, authorize, authorize_username,
}
use linux_fingerprint_r.Auth.Allowed.{IsUsername, IsAllowed, authorize_username-IsAllowed}

-- Process 70 is alice's, and polkit has no rule for her.
abbrev strict : World
strict = record {
  bus_name = λ name. ok tt;
  dbus_proxy = ok tt;
  get_connection_unix_user = λ name. ok (if eq name (codes ":1.1") then 0 else 1000);
  get_connection_unix_process_id = λ name. ok 70;
  pwd_lookup = λ uid. some (if uid == 0 then codes "root" else codes "alice");
  authority_proxy = ok tt;
  new_for_owner = λ pid. ok tt;
  check_authorization = λ pid. ok false;
}

root_as_bob : authorize_username strict (some (codes ":1.1")) (codes "bob") ≡ ok (codes "bob")
unfolding authorize_username resolve_caller map_err validate_username authorize eq
root_as_bob = refl

alice_as_bob :
    authorize_username strict (some (codes ":1.5")) (codes "bob")
    ≡ err (permission_denied 1000 (codes "bob"))
unfolding authorize_username resolve_caller map_err validate_username authorize eq ask_polkit
alice_as_bob = refl

refuses_dots : validate_username (codes "..") ≡ err unsafe_username
unfolding validate_username eq
refuses_dots = refl

authorize_username-IsAllowed_example :
    (caller : Caller) × (resolve_caller strict (some (codes ":1.1")) ≡ ok caller)
    × (strict.pwd_lookup caller.uid ≡ some caller.user)
    × IsUsername caller.user
    × IsAllowed strict (codes "bob") caller (codes "bob")
authorize_username-IsAllowed_example =
    authorize_username-IsAllowed strict (some (codes ":1.1")) (codes "bob") (codes "bob")
      root_as_bob
