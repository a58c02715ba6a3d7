-- ===== src/Tpm/Sealing/Honest.antt =====
-- What pcside/daemon/src/tpm.rs relies on in a TPM and in the library that speaks to it: the documented effect
-- of each call, while the TPM works, keeps its owner seed, and has the same values in its PCRs.
use linux_fingerprint_r.Prelude.{◌≤◌, ◌≡◌, ◌⊎◌, Option, none, some, Bytes, ok, length}
use linux_fingerprint_r.Prelude.Actions.{Yields}
use linux_fingerprint_r.Tpm.{max_field}
use linux_fingerprint_r.Tpm.Pcrs.{IsPcrList}
use linux_fingerprint_r.Tpm.Sealing.{
  Library, SessionType, hmac, policy, trial, ObjectAttributes, sealed_attributes, open_attributes,
}

-- The attributes of an object with the digest of its policy, or with none.
abbrev pub attributes_for : (L : Library) → Option L.Digest → ObjectAttributes
attributes_for L (some d) = sealed_attributes L
attributes_for L none = open_attributes L

module _ (L : Library) where
  -- What is fresh before a call is so after it.
  abbrev pub Keeps : {A : Type 0} → (L.World → A → Type 0) → L.World → L.World → Type 0
  Keeps {A} P w v = (a : A) → P w a → P v a

  pub record Honest : Type 1 where
    -- The TPM works, with this seed and these values in the PCRs.
    pub At : L.World → Type 0
    pub Kind : SessionType → L.Session → Type 0
    -- A session without a policy so far; a session with this policy; the primary key; an object that is
    -- loaded, with its policy and its secret; the two halves of such an object.
    pub Fresh : L.World → L.Session → Type 0
    pub Bound : L.World → L.Session × L.Digest → Type 0
    pub Root : L.World → L.Handle → Type 0
    pub Holds : L.World → L.Handle × Option L.Digest × Bytes → Type 0
    pub Made : L.Public → L.Private → Option L.Digest → Bytes → Type 0
    pub policy_of : L.Selection → L.Digest
    pub opened : (w : L.World) → At w → Yields (λ _ v. At v) (L.open_context w)
    pub selected : (ps : Bytes) → IsPcrList ps → (s : L.Selection) × (L.pcr_selection ps ≡ ok s)
    pub started :
        (kind : SessionType) (w : L.World)
        → At w
        → Yields
            (λ o v. (s : L.Session) × (o ≡ some s) × Kind kind s × At v × Fresh v s)
            (L.start_auth_session kind w)
    pub attributed :
        (s : L.Session) (w : L.World)
        → At w
        → Yields (λ _ v. At v × Keeps Fresh w v) (L.set_attributes s w)
    pub switched : (o : Option L.Session) (w : L.World) → At w → At (L.set_sessions o w)
    pub switched_sessions :
        (o : Option L.Session) (w : L.World) → L.sessions (L.set_sessions o w) ≡ o
    pub switched_fresh : (o : Option L.Session) (w : L.World) → Keeps Fresh w (L.set_sessions o w)
    pub switched_bound : (o : Option L.Session) (w : L.World) → Keeps Bound w (L.set_sessions o w)
    pub switched_holds : (o : Option L.Session) (w : L.World) → Keeps Holds w (L.set_sessions o w)
    pub converted :
        (s : L.Session)
        → Kind policy s ⊎ Kind trial s
        → (p : L.Session) × (L.policy_session s ≡ ok p)
    pub measured :
        (s p : L.Session) (selection : L.Selection) (w : L.World)
        → L.policy_session s ≡ ok p
        → Fresh w s
        → At w
        → Yields
            (λ _ v. At v × Bound v (s, policy_of selection) × Keeps Holds w v)
            (L.policy_pcr p selection w)
    pub digested :
        (s p : L.Session) (d : L.Digest) (w : L.World)
        → L.policy_session s ≡ ok p
        → Bound w (s, d)
        → At w
        → Yields (λ x v. At v × (x ≡ d)) (L.policy_get_digest p w)
    pub templated : (t : L.Public) × (L.srk_template ≡ ok t)
    pub rooted :
        (t : L.Public) (s : L.Session) (w : L.World)
        → L.srk_template ≡ ok t
        → Kind hmac s
        → L.sessions w ≡ some s
        → At w
        → Yields
            (λ h v. At v × Root v h × Keeps Fresh w v × (L.sessions v ≡ L.sessions w))
            (L.create_primary t w)
    pub built :
        (d : Option L.Digest) → (p : L.Public) × (L.build_public (attributes_for L d) d ≡ ok p)
    pub sensed : (k : Bytes) → length k ≤ 128 → (x : L.Sensitive) × (L.sensitive_data k ≡ ok x)
    pub created :
        (h : L.Handle) (d : Option L.Digest) (p : L.Public) (k : Bytes) (x : L.Sensitive)
        (s : L.Session) (w : L.World)
        → L.build_public (attributes_for L d) d ≡ ok p
        → length k ≤ 128
        → L.sensitive_data k ≡ ok x
        → Kind hmac s
        → L.sessions w ≡ some s
        → Root w h
        → At w
        → Yields (λ made v. At v × Made made.0 made.1 d k) (L.create h p x w)
    pub marshalled :
        (p : L.Public) (q : L.Private) (d : Option L.Digest) (k : Bytes)
        → Made p q d k
        → (s : Bytes) × (L.marshall p ≡ ok s) × (L.unmarshall s ≡ ok p) × (length s ≤ max_field)
    pub restored :
        (p : L.Public) (q : L.Private) (d : Option L.Digest) (k : Bytes)
        → Made p q d k
        → (L.private_from (L.private_value q) ≡ ok q) × (length (L.private_value q) ≤ max_field)
    pub loaded :
        (h : L.Handle) (p : L.Public) (q : L.Private) (d : Option L.Digest) (k : Bytes)
        (s : L.Session) (w : L.World)
        → Made p q d k
        → Kind hmac s
        → L.sessions w ≡ some s
        → Root w h
        → At w
        → Yields
            (λ o v. At v × Holds v (o, d, k) × Keeps Fresh w v × (L.sessions v ≡ L.sessions w))
            (L.load_object h q p w)
    pub unsealed :
        (o : L.Handle) (s : L.Session) (d : L.Digest) (k : Bytes) (w : L.World)
        → Holds w (o, some d, k)
        → Kind policy s
        → L.sessions w ≡ some s
        → Bound w (s, d)
        → At w
        → Yields (λ b _. b ≡ k) (L.unseal o w)
    pub unsealed_openly :
        (o : L.Handle) (s : L.Session) (k : Bytes) (w : L.World)
        → Holds w (o, none, k)
        → Kind hmac s
        → L.sessions w ≡ some s
        → At w
        → Yields (λ b _. b ≡ k) (L.unseal o w)
    pub session_flushed : (s : L.Session) (w : L.World) → At w → At (L.flush_session s w).1
    pub handle_flushed : (h : L.Handle) (w : L.World) → At w → At (L.flush_handle h w).1
