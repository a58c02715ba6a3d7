-- ===== src/Tpm/Sealing/Steps.antt =====
-- What the sealing functions of pcside/daemon/src/tpm.rs do with a TPM that works.
use linux_fingerprint_r.Prelude.{
  ℕ, ◌≤◌, ◌≡◌, refl, inr, Option, none, some, Bytes, Result, ok, err, length, ap, ◌∙◌,
}
use linux_fingerprint_r.Prelude.Actions.{Action, and_then, Yields, and_then-Yields, Yields-ok}
use linux_fingerprint_r.Tpm.{SealPolicy, serialize_blob}
use linux_fingerprint_r.Tpm.Sealing.{
  Library, SessionType, hmac, trial, SealError, of_library, or_no_session, start_session,
  trial_policy_pcr_digest, create_sealed, seal_with,
}
use linux_fingerprint_r.Tpm.Sealing.Honest.{Honest, attributes_for}

call-Yields :
    {W A : Type 0} {P : A → W → Type 0} (r : Result ℕ A × W)
    → Yields P r
    → Yields {E = SealError} P (of_library r.0, r.1)
call-Yields (ok a, w) h = record { value = h.value }
call-Yields (err e, w) h = absurd h.value

-- A sequence after a step whose value is known.
pub after :
    {W A B : Type 0} {Q : B → W → Type 0} (r : Result SealError A) (a : A) (w : W)
    (next : A → Action W SealError B)
    → r ≡ ok a
    → Yields Q (next a w)
    → Yields Q (and_then (r, w) next)
unfolding and_then
after r a w next h k = rw h k

-- A sequence after a call of the library.
pub after_call :
    {W A B : Type 0} {P : A → W → Type 0} {Q : B → W → Type 0} (r : Result ℕ A × W)
    (next : A → Action W SealError B)
    → Yields P r
    → ((a : A) (w : W) → P a w → Yields Q (next a w))
    → Yields Q (and_then (of_library r.0, r.1) next)
after_call r next h k = and_then-Yields _ next (call-Yields r h) k

module _ (L : Library) (T : Honest L) where
  pub start_session-Yields :
      (kind : SessionType) (w : L.World)
      → T.At w
      → Yields (λ s v. T.Kind kind s × T.At v × T.Fresh v s) (start_session L kind w)
  unfolding start_session
  start_session-Yields kind w h =
      after_call _ _ (T.started kind w h) (λ o v (s, same, k, at, fresh).
        after _ s v _ (ap or_no_session same) (
          after_call _ _ (T.attributed s v at)
            (λ _ x (then, keeps). record { value = (k, then, keeps s fresh) })))

  pub trial_policy_pcr_digest-Yields :
      (selection : L.Selection) (w : L.World)
      → T.At w
      → Yields (λ d v. (d ≡ T.policy_of selection) × T.At v) (trial_policy_pcr_digest L selection w)
  unfolding trial_policy_pcr_digest
  trial_policy_pcr_digest-Yields selection w h = after _ (L.sessions w) w _ refl (
      after _ tt (L.set_sessions none w) _ refl (
        and_then-Yields _ _ (start_session-Yields trial _ (T.switched none w h))
          (λ s v (k, at, fresh).
            let (p, same) = T.converted s (inr k) in
            after _ p v _ (ap of_library same) (
              after_call _ _ (T.measured s p selection v same fresh at) (λ _ x (at1, bound, _).
                after_call _ _ (T.digested s p (T.policy_of selection) x same bound at1)
                  (λ d y (at2, e). after _ tt _ _ refl (
                    after _ tt _ _ refl
                      (record { value = (e, T.switched _ _ (T.session_flushed s y at2)) }))))))))

  -- The two halves of an object with the policy and the secret, as the file keeps them.
  abbrev pub Halves : Option L.Digest → Bytes → Bytes × Bytes → Type 0
  Halves d key parts =
      (p : L.Public) × (q : L.Private) × T.Made p q d key
      × (L.marshall p ≡ ok parts.0)
      × (L.private_value q ≡ parts.1)

  create_sealed-Yields :
      (key : Bytes) (d : Option L.Digest) (s : L.Session) (w : L.World)
      → length key ≤ 128
      → T.Kind hmac s
      → T.At w
      → Yields
          (λ parts v. Halves d key parts)
          (create_sealed L key (L.build_public (attributes_for L d) d) s w)
  unfolding create_sealed
  create_sealed-Yields key d s w short kind h =
      let (t, srk) = T.templated in
      let (template, built) = T.built d in
      let (x, sensed) = T.sensed key short in
      after _ tt (L.set_sessions (some s) w) _ refl (
        after _ t _ _ (ap of_library srk) (
          after_call _ _
            (T.rooted t s _ srk kind (T.switched_sessions (some s) w) (T.switched (some s) w h))
            (λ o v (at, root, _, same). after _ template v _ (ap of_library built) (
              after _ x v _ (ap of_library sensed) (
                after_call _ _
                  (T.created o d template key x s v built short sensed kind
                    (same ∙ T.switched_sessions (some s) w) root at)
                  (λ made y (_, is_made).
                    let (bytes, marshalled, _, _) = T.marshalled made.0 made.1 d key is_made in
                    after _ bytes y _ (ap of_library marshalled) (
                      after _ tt _ _ refl
                        (record { value = (made.0, made.1, is_made, marshalled, refl) }))))))))

  pub seal_with-Yields :
      (key : Bytes) (d : Option L.Digest) (how : SealPolicy) (w : L.World)
      → length key ≤ 128
      → T.At w
      → Yields
          (λ blob v.
            (parts : Bytes × Bytes) × Halves d key parts
            × (blob ≡ serialize_blob how parts.0 parts.1))
          (seal_with L key (L.build_public (attributes_for L d) d) how w)
  unfolding seal_with
  seal_with-Yields key d how w short h =
      and_then-Yields _ _ (start_session-Yields hmac w h) (λ s v (kind, at, _).
        let (parts, made, halves) = Yields-ok _ (create_sealed-Yields key d s v short kind at) in
        after _ _ _ _ refl
          (after _ tt _ _ refl (after _ parts _ _ made (record { value = (parts, halves, refl) }))))
