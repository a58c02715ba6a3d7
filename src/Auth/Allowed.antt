-- ===== src/Auth/Allowed.antt =====
-- Whom `authorize_username` of pcside/daemon/src/auth.rs lets act as whom.
use linux_fingerprint_r.Prelude.{
  ltb, ℕ, ◌==◌, ◌≤◌, ◌≡◌, ◌≢◌, ◌⊎◌, ◌||◌, inl, inr, sym, ap, ◌∙◌, Bool, true, false, Bool-cases,
  Option, some, [], ◌∷◌, Bytes, codes, All, eq, eq_refl, Result, ok, err, ok_or, ok_injective,
  >>=-eq-ok, ok_or-eq-ok, if◌then◌else◌, arith, subst,
}
use linux_fingerprint_r.Auth.{
  World, AuthError, map_err, contains_byte, any_control, is_ascii_control, is_empty, bad_username,
  validate_username, Caller, resolve_caller, ask_polkit, authorize, authorize_username,
  polkit_proxy, polkit_subject, polkit_check, permission_denied, missing_sender, invalid_sender,
  no_dbus, no_unix_user, no_process_id, not_in_passwd,
}

-- A byte that can stand in a user's name: no separator of paths and no control character.
abbrev pub IsNameByte : ℕ → Type 0
IsNameByte b = (32 ≤ b) × (b ≢ 127) × (b ≢ b'/') × (b ≢ b'\\')

abbrev pub IsUsername : Bytes → Type 0
IsUsername user = (user ≢ []) × (user ≢ codes ".") × (user ≢ codes "..") × All IsNameByte user

or-eq-false : (a b : Bool) → (a || b) ≡ false → (a ≡ false) × (b ≡ false)
or-eq-false a b h = ground arith

bytes-IsNameByte :
    (s : Bytes)
    → contains_byte b'/' s ≡ false
    → contains_byte b'\\' s ≡ false
    → any_control s ≡ false
    → All IsNameByte s
unfolding contains_byte any_control
bytes-IsNameByte [] h k l = tt
bytes-IsNameByte (b ∷ s) h k l =
    let (no_slash, h2) = or-eq-false (b == b'/') (contains_byte b'/' s) h in
    let (no_backslash, k2) = or-eq-false (b == b'\\') (contains_byte b'\\' s) k in
    let (plain, l2) = or-eq-false (b == 0 || is_ascii_control b) (any_control s) l in
    let (_, printable) = or-eq-false (b == 0) (is_ascii_control b) plain in
    let (high, no_delete) = or-eq-false (ltb b 32) (b == 127) printable in
    (
      (ground arith, λ e. ground arith, λ e. ground arith, λ e. ground arith),
      bytes-IsNameByte s h2 k2 l2,
    )

apart-eq : (s t : Bytes) → eq s t ≡ false → s ≢ t
apart-eq s t h e = cc (sym h ∙ ap (λ (x : Bytes). eq x t) e ∙ eq_refl t)

is_empty-false : (s : Bytes) → is_empty s ≡ false → s ≢ []
unfolding is_empty
is_empty-false [] h e = cc h
is_empty-false (b ∷ s) h e = cc e

bad_username-false : (user : Bytes) → bad_username user ≡ false → IsUsername user
unfolding bad_username
bad_username-false user h =
    let (full, h1) = or-eq-false (is_empty user) _ h in
    let (no_dot, h2) = or-eq-false (eq user (codes ".")) _ h1 in
    let (no_dots, h3) = or-eq-false (eq user (codes "..")) _ h2 in
    let (no_slash, h4) = or-eq-false (contains_byte b'/' user) _ h3 in
    let (no_backslash, no_control) = or-eq-false (contains_byte b'\\' user) _ h4 in
    (
      is_empty-false user full,
      apart-eq user (codes ".") no_dot,
      apart-eq user (codes "..") no_dots,
      bytes-IsNameByte user no_slash no_backslash no_control,
    )

validate_username-IsUsername : (user : Bytes) → validate_username user ≡ ok tt → IsUsername user
unfolding validate_username
validate_username-IsUsername user = elim (Bool-cases (bad_username user)) [
  | inl e ↦ rw e (λ h. cc h)
  | inr e ↦ rw e (λ h. bad_username-false user e)
]

map_err-ok :
    {A : Type 0} (f : ℕ → AuthError) (r : Result ℕ A) {a : A} → map_err f r ≡ ok a → r ≡ ok a
unfolding map_err
map_err-ok f (ok a) h = cc h
map_err-ok f (err e) h = cc h

-- Under which circumstances a caller acts as a user.
abbrev pub IsAllowed : World → Bytes → Caller → Bytes → Type 0
IsAllowed w requested caller user =
    (user ≡ caller.user)
    ⊎ ((user ≡ requested) × ((caller.uid ≡ 0) ⊎ (w.check_authorization caller.pid ≡ ok true)))

ask_polkit-ok :
    (w : World) (caller : Caller) (requested user : Bytes)
    → ask_polkit w caller requested ≡ ok user
    → (user ≡ requested) × (w.check_authorization caller.pid ≡ ok true)
unfolding ask_polkit
ask_polkit-ok w caller requested user h =
    let (_, _, h1) = >>=-eq-ok (map_err polkit_proxy w.authority_proxy) _ h in
    let (_, _, h2) = >>=-eq-ok (map_err polkit_subject (w.new_for_owner caller.pid)) _ h1 in
    let (answer, asked, h3) =
      >>=-eq-ok (map_err polkit_check (w.check_authorization caller.pid)) _ h2 in
    let checked : w.check_authorization caller.pid ≡ ok answer = map_err-ok polkit_check _ asked in
    decide answer checked h3
  where
    decide :
        (answer : Bool)
        → w.check_authorization caller.pid ≡ ok answer
        → (if answer then ok requested else err (permission_denied caller.uid requested)) ≡ ok user
        → (user ≡ requested) × (w.check_authorization caller.pid ≡ ok true)
    decide true c g = (sym (ok_injective g), c)
    decide false c g = absurd (cc g)

authorize-IsAllowed :
    (w : World) (requested user : Bytes) (caller : Caller)
    → authorize w requested caller ≡ ok user
    → IsAllowed w requested caller user
unfolding authorize
authorize-IsAllowed w requested user caller =
    elim (Bool-cases (is_empty requested || eq requested caller.user)) [
      | inl e ↦ rw e (λ h. inl (sym (ok_injective h)))
      | inr e ↦ elim (Bool-cases (caller.uid == 0)) [
        | inl f ↦ rw (e, f) (λ h. inr (sym (ok_injective h), inl (ground arith)))
        | inr f ↦
            rw (e, f)
              (λ h.
                let (same, granted) = ask_polkit-ok w caller requested user h in
                inr (same, inr granted))
      ]
    ]

resolve_caller-IsUsername :
    (w : World) (sender : Option Bytes) (caller : Caller)
    → resolve_caller w sender ≡ ok caller
    → (w.pwd_lookup caller.uid ≡ some caller.user) × IsUsername caller.user
unfolding resolve_caller
resolve_caller-IsUsername w sender caller h =
    let (name, _, h1) = >>=-eq-ok (ok_or sender missing_sender) _ h in
    let (_, _, h2) = >>=-eq-ok (map_err invalid_sender (w.bus_name name)) _ h1 in
    let (_, _, h3) = >>=-eq-ok (map_err no_dbus w.dbus_proxy) _ h2 in
    let (uid, _, h4) = >>=-eq-ok (map_err no_unix_user (w.get_connection_unix_user name)) _ h3 in
    let (pid, _, h5) =
      >>=-eq-ok (map_err no_process_id (w.get_connection_unix_process_id name)) _ h4 in
    let (user, looked_up, h6) = >>=-eq-ok (ok_or (w.pwd_lookup uid) (not_in_passwd uid)) _ h5 in
    let (_, valid, h7) = >>=-eq-ok (validate_username user) _ h6 in
    subst (λ (c : Caller). (w.pwd_lookup c.uid ≡ some c.user) × IsUsername c.user) (ok_injective h7)
      (
        ok_or-eq-ok (w.pwd_lookup uid) (not_in_passwd uid) looked_up,
        validate_username-IsUsername user valid,
      )

-- A call is authorized for a user only if the caller has a name in the password file, which is safe in a
-- path, and the user is the caller; or else the user is the one asked for, and the caller is root or
-- polkit has said yes to the caller's process.
pub authorize_username-IsAllowed :
    (w : World) (sender : Option Bytes) (requested user : Bytes)
    → authorize_username w sender requested ≡ ok user
    → (caller : Caller) × (resolve_caller w sender ≡ ok caller)
      × (w.pwd_lookup caller.uid ≡ some caller.user)
      × IsUsername caller.user
      × IsAllowed w requested caller user
unfolding authorize_username
authorize_username-IsAllowed w sender requested user h =
    let (caller, resolved, h1) = >>=-eq-ok (resolve_caller w sender) _ h in
    let (found, safe) = resolve_caller-IsUsername w sender caller resolved in
    (caller, resolved, found, safe, authorize-IsAllowed w requested user caller h1)
