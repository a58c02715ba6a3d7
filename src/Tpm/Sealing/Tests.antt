-- ===== src/Tpm/Sealing/Tests.antt =====
-- The sealing of pcside/daemon/src/tpm.rs with a library that accepts everything.
pub mod Device
use linux_fingerprint_r.Prelude.{
  ℕ, ◌≤◌, ◌≡◌, refl, none, some, [], ◌∷◌, ◌++◌, Bytes, ok, err, length, take, length-take, arith,
  eq, ok_injective, subst,
}
use linux_fingerprint_r.Prelude.Actions.{and_then}
use linux_fingerprint_r.Tpm
use linux_fingerprint_r.Hex.{to_le_bytes}
use linux_fingerprint_r.Tpm.Sealing
use linux_fingerprint_r.Tpm.Sealing.{Library, seal_key_with_pcrs}
use linux_fingerprint_r.Tpm.Sealing.Policies.{IsShort}

abbrev pub key : Bytes
key = 10 ∷ 20 ∷ 30 ∷ 40 ∷ 5 ∷ 6 ∷ 7 ∷ 8 ∷ 9 ∷ 10 ∷ 11 ∷ 12 ∷ 13 ∷ 14 ∷ 15 ∷ 255 ∷ []

abbrev pub accepting : Library
accepting = record {
  World = ℕ;
  Session = ℕ;
  Handle = ℕ;
  Public = Bytes;
  Private = Bytes;
  Selection = Bytes;
  Digest = Bytes;
  Sensitive = Bytes;
  open_context = λ w. (ok tt, w);
  pcr_selection = λ ps. ok ps;
  start_auth_session = λ kind w. (ok (some 1), w);
  set_attributes = λ s w. (ok tt, w);
  sessions = λ w. none;
  set_sessions = λ s w. w;
  policy_session = λ s. ok s;
  policy_pcr = λ s selection w. (ok tt, w);
  policy_get_digest = λ s w. (ok [], w);
  srk_template = ok [];
  build_public = λ attributes digest. ok (1 ∷ 2 ∷ []);
  create_primary = λ template w. (ok 2, w);
  sensitive_data = λ key. ok key;
  create = λ primary template key w. (ok (template, key), w);
  load_object = λ primary key template w. (ok 3, w);
  unseal = λ loaded w. (ok key, w);
  flush_session = λ s w. (err 5, w);
  flush_handle = λ h w. (ok tt, w);
  marshall = λ p. ok (take 4 p);
  unmarshall = λ s. ok s;
  private_value = λ p. take 16 p;
  private_from = λ s. ok s;
}

pub accepting-IsShort : IsShort accepting
accepting-IsShort = (
  λ p s h.
      subst (λ (t : Bytes). length t ≤ 65536) (ok_injective h) (omega (arith, length-take 4 p)),
  λ p. omega (arith, length-take 16 p),
)

abbrev pub sealed_file : Bytes
sealed_file = Tpm.magic_v2 ++ (2 ∷ 7 ∷ 11 ∷ 2 ∷ 0 ∷ 0 ∷ 0 ∷ 1 ∷ 2 ∷ 16 ∷ 0 ∷ 0 ∷ 0 ∷ []) ++ key

seals : (seal_key_with_pcrs accepting key (7 ∷ 11 ∷ []) 0).0 ≡ ok sealed_file
unfolding seal_key_with_pcrs and_then Tpm.validate_pcrs Sealing.trial_policy_pcr_digest
    Sealing.start_session Sealing.seal_with Sealing.create_sealed Sealing.sealed_object_template
    Tpm.serialize_blob Tpm.serialize_policy eq Tpm.serialize_field to_le_bytes
seals = refl
