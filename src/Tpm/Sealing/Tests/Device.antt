-- ===== src/Tpm/Sealing/Tests/Device.antt =====
-- A TPM that works, for the sealing of pcside/daemon/src/tpm.rs.
use linux_fingerprint_r.Prelude.{
  ℕ, ◌+◌, ◌*◌, ◌≤◌, ◌≡◌, ◌⊎◌, refl, inl, inr, Bool, true, false, ◌==◌, Option, none, some, [], ◌∷◌,
  Bytes, Result, ok, err, length, if◌then◌else◌, ap, sym, ok_injective, arith,
}
use linux_fingerprint_r.Prelude.Actions.{Yields}
use linux_fingerprint_r.Tpm.Sealing.{Library, SessionType, hmac, policy, trial}
use linux_fingerprint_r.Tpm.Sealing.Honest.{Honest}

-- The session in use, what the last session has measured, and the object that is loaded.
pub record Chip : Type 0 where
  current : Option SessionType
  digest : ℕ
  object : Option (Option ℕ × Bytes)

-- What needs a session for its encryption fails without one.
abbrev with_session : {A : Type 0} → Option SessionType → A → Result ℕ A
with_session none a = err 6
with_session (some hmac) a = ok a
with_session (some policy) a = err 6
with_session (some trial) a = err 6

in_session :
    {A : Type 0} (o : Option SessionType) (s : SessionType) (a : A)
    → s ≡ hmac
    → o ≡ some s
    → with_session o a ≡ ok a
in_session o s a kind e = rw (e, kind) refl

-- A digest of a selection of PCRs; 0 is that of no policy.
abbrev mask : Bytes → ℕ
mask [] = 1
mask (p ∷ ps) = p + 24 * mask ps

abbrev to_policy : SessionType → Result ℕ SessionType
to_policy hmac = err 1
to_policy policy = ok policy
to_policy trial = ok trial

abbrev pub let_out : Chip → Option (Option ℕ × Bytes) → Result ℕ Bytes
let_out w none = err 2
let_out w (some (none, k)) = ok k
let_out w (some (some d, k)) = if w.digest == d then ok k else err 3

abbrev write : Option ℕ → Bytes
write none = 0 ∷ []
write (some d) = 1 ∷ d ∷ []

abbrev read : Bytes → Result ℕ (Option ℕ)
read [] = err 4
read (t ∷ []) = ok none
read (t ∷ d ∷ bytes) = ok (some d)

abbrev pub chip : Library
chip = record {
  World = Chip;
  Session = SessionType;
  Handle = Bool;
  Public = Option ℕ;
  Private = Bytes;
  Selection = Bytes;
  Digest = ℕ;
  Sensitive = Bytes;
  open_context = λ w. (ok tt, w);
  pcr_selection = λ ps. ok ps;
  start_auth_session = λ kind w. (ok (some kind), record w { digest = 0 });
  set_attributes = λ s w. (ok tt, w);
  sessions = λ w. w.current;
  set_sessions = λ s w. record w { current = s };
  policy_session = to_policy;
  policy_pcr = λ s ps w. (ok tt, record w { digest = w.digest + mask ps });
  policy_get_digest = λ s w. (ok w.digest, w);
  srk_template = ok none;
  build_public = λ attributes d. ok d;
  create_primary = λ template w. (with_session w.current true, w);
  sensitive_data = λ k. ok k;
  create = λ primary d k w. (with_session w.current (d, k), w);
  load_object = λ primary k d w. (with_session w.current false, record w { object = some (d, k) });
  unseal = λ o w. (let_out w w.object, w);
  flush_session = λ s w. (ok tt, w);
  flush_handle = λ o w. (ok tt, w);
  marshall = λ d. ok (write d);
  unmarshall = read;
  private_value = λ k. k;
  private_from = λ k. ok k;
}

same_digest : (a d : ℕ) → a ≡ d → (a == d) ≡ true
same_digest a d h = ground arith

released :
    (w : Chip) (o : Option ℕ) (k : Bytes)
    → w.object ≡ some (o, k)
    → ((d : ℕ) → o ≡ some d → w.digest ≡ d)
    → let_out w w.object ≡ ok k
released w none k h f = rw h refl
released w (some d) k h f = rw (h, same_digest w.digest d (f d refl)) refl

pub is_converted :
    (s : SessionType) → (s ≡ policy) ⊎ (s ≡ trial) → (p : SessionType) × (to_policy s ≡ ok p)
is_converted s (inl e) = (policy, ap to_policy e)
is_converted s (inr e) = (trial, ap to_policy e)

pub written : (d : Option ℕ) → read (write d) ≡ ok d
written none = refl
written (some d) = refl

pub write-short : (d : Option ℕ) → length (write d) ≤ 65536
write-short none = omega arith
write-short (some d) = omega arith

pub same_in : (n d c : ℕ) → n ≡ d → some d ≡ some c → n ≡ c
same_in n d c h e = cc (h, e)

pub slim : (q k : Bytes) → q ≡ k → length k ≤ 128 → length q ≤ 65536
slim q k e h = rw e (omega arith)

pub loaded_as :
    (p : Option ℕ) (q : Bytes) (d : Option ℕ) (k : Bytes)
    → p ≡ d
    → q ≡ k
    → ◌≡◌ {A = Option (Option ℕ × Bytes)} (some (p, q)) (some (d, k))
loaded_as p q d k e f = rw (e, f) refl

pub unseals :
    (w : Chip) (o : Option ℕ) (k : Bytes)
    → w.object ≡ some (o, k)
    → ((d : ℕ) → o ≡ some d → w.digest ≡ d)
    → Yields {W = Chip} {E = ℕ} (λ b _. b ≡ k) (let_out w w.object, w)
unseals w o k h f = rw (released w o k h f) (record { value = refl })

pub added : (n m : ℕ) → n ≡ 0 → n + m ≡ m
added n m h = omega arith

pub rooted_in :
    (s : SessionType) (w : Chip)
    → s ≡ hmac
    → w.current ≡ some s
    → Yields {W = Chip} {E = ℕ}
        (λ h v.
          Unit {0}
          × (h ≡ true)
          × ((t : SessionType) → w.digest ≡ 0 → v.digest ≡ 0)
          × (v.current ≡ w.current))
        (with_session w.current true, w)
rooted_in s w kind used =
    rw (in_session w.current s true kind used) (record { value = (tt, refl, λ t f. f, refl) })

pub created_in :
    (s : SessionType) (w : Chip) (p : Option ℕ) (q : Bytes) (d : Option ℕ) (k : Bytes)
    → s ≡ hmac
    → w.current ≡ some s
    → (p ≡ d) × (q ≡ k) × (length k ≤ 128)
    → Yields {W = Chip} {E = ℕ} {A = Option ℕ × Bytes}
        (λ made v. Unit {0} × ((made.0 ≡ d) × (made.1 ≡ k) × (length k ≤ 128)))
        (with_session w.current (p, q), w)
created_in s w p q d k kind used same =
    rw (in_session {A = Option ℕ × Bytes} w.current s (p, q) kind used)
      (record { value = (tt, same) })

pub loaded_in :
    (s : SessionType) (w : Chip) (p : Option ℕ) (q : Bytes) (d : Option ℕ) (k : Bytes)
    → s ≡ hmac
    → w.current ≡ some s
    → ◌≡◌ {A = Option (Option ℕ × Bytes)} (some (p, q)) (some (d, k))
    → Yields {W = Chip} {E = ℕ}
        (λ o v.
          Unit {0}
          × (v.object ≡ some (d, k))
          × ((t : SessionType) → w.digest ≡ 0 → v.digest ≡ 0)
          × (v.current ≡ w.current))
        (with_session w.current false, record w { object = some (p, q) })
loaded_in s w p q d k kind used same =
    rw (in_session w.current s false kind used) (record { value = (tt, same, λ t f. f, refl) })

abbrev pub chip-Honest : Honest chip
chip-Honest = record {
  At = λ w. Unit;
  Kind = λ kind s. s ≡ kind;
  Fresh = λ w s. w.digest ≡ 0;
  Bound = λ w b. w.digest ≡ b.1;
  Root = λ w h. h ≡ true;
  Holds = λ w t. w.object ≡ some (t.1, t.2);
  Made = λ p q d k. (p ≡ d) × (q ≡ k) × (length k ≤ 128);
  policy_of = mask;
  opened = λ w h. record { value = tt };
  selected = λ ps h. (ps, refl);
  started = λ kind w h. record { value = (kind, refl, refl, tt, refl) };
  attributed = λ s w h. record { value = (tt, λ t f. f) };
  switched = λ o w h. tt;
  switched_sessions = λ o w. refl;
  switched_fresh = λ o w s f. f;
  switched_bound = λ o w b f. f;
  switched_holds = λ o w t f. f;
  converted = is_converted;
  measured = λ s p ps w e f h. record { value = (tt, added w.digest (mask ps) f, λ t g. g) };
  digested = λ s p d w e b h. record { value = (tt, b) };
  templated = (none, refl);
  rooted = λ t s w e kind used h. rooted_in s w kind used;
  built = λ d. (d, refl);
  sensed = λ k h. (k, refl);
  created = λ h d p k x s w e short f kind used r at.
      created_in s w p x d k kind used (sym (ok_injective e), sym (ok_injective f), short);
  marshalled = λ p q d k made. (write p, refl, written p, write-short p);
  restored = λ p q d k made. (refl, slim q k made.1 made.2);
  loaded = λ h p q d k s w made kind used r at.
      loaded_in s w p q d k kind used (loaded_as p q d k made.0 made.1);
  unsealed = λ o s d k w holds kind in_use bound at.
      unseals w (some d) k holds (λ c e. same_in w.digest d c bound e);
  unsealed_openly = λ o s k w holds kind in_use at. unseals w none k holds (λ d e. absurd (cc e));
  session_flushed = λ s w h. tt;
  handle_flushed = λ o w h. tt;
}

-- The key is sealed on an empty TPM, and unsealed after something else was done with it.
abbrev pub before : Chip
before = record { current = none; digest = 0; object = none }

abbrev pub later : Chip
later = record { current = some trial; digest = 5; object = some (none, []) }
