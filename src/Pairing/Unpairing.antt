-- ===== src/Pairing/Unpairing.antt =====
-- When run_unpair of pcside/daemon/src/pairing.rs removes the key.
use linux_fingerprint_r.Prelude.{
  ℕ, ◌+◌, ◌<◌, ◌≡◌, ◌⊎◌, refl, sym, ap, ◌∙◌, inl, inr, Bool, true, false, Bool-cases, Option, some,
  Bytes, codes, eq, eq_sound, Result, ok, err, Done, ok_or, ok_or-eq-ok, leb, ok_injective, subst,
  >>=-eq-ok, arith,
}
use linux_fingerprint_r.Counter
use linux_fingerprint_r.Disk.{Disk}
use linux_fingerprint_r.Framing.{counter_ceiling, encode_command, verify_response}
use linux_fingerprint_r.Keystore.{KeyError, KeySource}
use linux_fingerprint_r.Pairing.{
  FirmwareStatus, parse_status, PairError, map_error, map_error-ok, key_unusable, no_key, link,
  bad_status, bad_state, bad_frame, reported_save,
}
use linux_fingerprint_r.Pairing.Unpair.{
  Host, UnpairCalls, first_status, or_fresh, below_ceiling, unpair_counter, check_framed,
  check_counter, check_body, check_unpaired, confirm, with_state, clear_host, send_unpair,
  persist_next, unpair_from, run_unpair,
}

below_ceiling-ok : (n m : ℕ) → below_ceiling n ≡ ok m → (n ≡ m) × (m < counter_ceiling)
unfolding below_ceiling
below_ceiling-ok n m = elim (Bool-cases (leb counter_ceiling n)) [
  | inl e ↦ rw e (λ h. absurd (cc h))
  | inr e ↦ rw e (λ h. let same : n ≡ m = ok_injective h in (same, ground arith))
]

check_counter-ok : (n got : ℕ) → check_counter n got ≡ ok tt → got ≡ n
unfolding check_counter
check_counter-ok n got h = ground arith

check_body-ok : (body : Bytes) → check_body body ≡ ok tt → body ≡ codes "OK unpaired"
unfolding check_body
check_body-ok body = elim (Bool-cases (eq body (codes "OK unpaired"))) [
  | inl e ↦ rw e (λ h. eq_sound body (codes "OK unpaired") e)
  | inr e ↦ rw e (λ h. cc h)
]

check_unpaired-ok : (s : FirmwareStatus) → check_unpaired s ≡ ok tt → s.paired ≡ false
unfolding check_unpaired
check_unpaired-ok s = elim (Bool-cases s.paired) [
  | inl e ↦ rw e (λ h. cc h)
  | inr e ↦ rw e (λ h. refl)
]

-- The answer is a status line with this flag.
abbrev pub Says : Result ℕ Bytes → Bool → Type 0
Says reply b =
    (line : Bytes) × (status : FirmwareStatus) × (reply ≡ ok line)
    × (parse_status line ≡ ok status)
    × (status.paired ≡ b)

-- The answer to the command with this counter is an authentic OK with the same counter.
abbrev pub Agrees : Bytes → ℕ → Result ℕ Bytes → Type 0
Agrees key n reply =
    (line : Bytes) × (seq : ℕ) × (reply ≡ ok line)
    × (verify_response key line ≡ ok (n, seq, codes "OK unpaired"))

confirm-Agrees :
    (key : Bytes) (n : ℕ) (reply post : Result ℕ Bytes)
    → confirm key n reply post ≡ ok tt
    → Agrees key n reply × Says post false
unfolding confirm
confirm-Agrees key n reply post h =
    let (line, replied, h1) = >>=-eq-ok (map_error link reply) _ h in
    let (_, _, h2) = >>=-eq-ok (check_framed line) _ h1 in
    let (frame, verified, h3) = >>=-eq-ok (map_error bad_frame (verify_response key line)) _ h2 in
    let (_, counted, h4) = >>=-eq-ok (check_counter n frame.0) _ h3 in
    let (_, agreed, h5) = >>=-eq-ok (check_body frame.2) _ h4 in
    let (after, asked, h6) = >>=-eq-ok (map_error link post) _ h5 in
    let (status, parsed, h7) = >>=-eq-ok (map_error bad_status (parse_status after)) _ h6 in
    (
      (
        line,
        frame.1,
        map_error-ok link reply replied,
        map_error-ok bad_frame (verify_response key line) verified
            ∙ ap (λ (c : ℕ). ok (c, frame.1, frame.2)) (check_counter-ok n frame.0 counted)
            ∙ ap (λ (b : Bytes). ok (n, frame.1, b)) (check_body-ok frame.2 agreed),
      ),
      (
        after,
        status,
        map_error-ok link post asked,
        map_error-ok bad_status (parse_status after) parsed,
        check_unpaired-ok status h7,
      ),
    )

first_status-Says :
    (key : Result KeyError (Option (Bytes × KeySource))) (pre : Result ℕ Bytes) (k : Bytes)
    (b : Bool)
    → first_status key pre ≡ ok (k, b)
    → ((source : KeySource) × (key ≡ ok (some (k, source)))) × Says pre b
unfolding first_status
first_status-Says key pre k b h =
    let (loaded, got, h1) = >>=-eq-ok (map_error key_unusable key) _ h in
    let (held, there, h2) = >>=-eq-ok (ok_or loaded no_key) _ h1 in
    let (line, replied, h3) = >>=-eq-ok (map_error link pre) _ h2 in
    let (status, parsed, h4) = >>=-eq-ok (map_error bad_status (parse_status line)) _ h3 in
    let both : (held.0, status.paired) ≡ (k, b) = ok_injective h4 in
    (
      (
        held.1,
        map_error-ok key_unusable key got
            ∙ ap ok (ok_or-eq-ok loaded no_key there)
            ∙ ap (λ (x : Bytes). ok (some (x, held.1))) (ap (λ (x : Bytes × Bool). x.0) both),
      ),
      (
        line,
        status,
        map_error-ok link pre replied,
        map_error-ok bad_status (parse_status line) parsed,
        ap (λ (x : Bytes × Bool). x.1) both,
      ),
    )

unpair_counter-ok :
    (old : Result Counter.StateError (Option ℕ)) (n : ℕ)
    → unpair_counter old ≡ ok n
    → ((st : Option ℕ) × (old ≡ ok st) × (or_fresh st ≡ n)) × (n < counter_ceiling)
unfolding unpair_counter
unpair_counter-ok old n h =
    let (st, loaded, h1) = >>=-eq-ok (map_error bad_state old) _ h in
    let (same, below) = below_ceiling-ok (or_fresh st) n h1 in
    ((st, map_error-ok bad_state old loaded, same), below)

reported_save-ok : (r : Done Counter.StateError × Disk) → (reported_save r).0 ≡ ok tt → r.0 ≡ ok tt
unfolding reported_save
reported_save-ok (r, d) h = map_error-ok bad_state r h

-- The keys are as before, and the run has failed.
abbrev pub Kept : Host → Done PairError × Host → Type 0
Kept h r = (r.1.keys ≡ h.keys) × (e : PairError) × (r.0 ≡ err e)

clear_host-Kept :
    (c : UnpairCalls) (r : Done PairError) (h : Host) → Kept h (clear_host c r h) ⊎ (r ≡ ok tt)
unfolding clear_host
clear_host-Kept c (err e) h = inl (refl, e, refl)
clear_host-Kept c (ok _) h = inr refl

with_state-keys : (h : Host) (r : Done PairError × Disk) → (with_state h r).1.keys ≡ h.keys
unfolding with_state
with_state-keys h (r, d) = refl

with_state-done : (h : Host) (r : Done PairError × Disk) → (with_state h r).0 ≡ r.0
unfolding with_state
with_state-done h (r, d) = refl

saved_ok : (r : Done Counter.StateError × Disk) → r.0 ≡ ok tt → r ≡ (ok tt, r.1)
saved_ok (r, d) h = rw h refl

with_state-saved :
    (h : Host) (r : Done Counter.StateError × Disk)
    → (with_state h (reported_save r)).1 ≡ record h { state = r.1 }
unfolding with_state reported_save
with_state-saved h (r, d) = refl

module _ (codec : Counter.Codec) (c : UnpairCalls) (send : Host → Bytes → Result ℕ Bytes)
    (post : Result ℕ Bytes) where
  -- The counter that the state file gives is below the reserved band, the next one is saved, and the firmware
  -- has then agreed under the first.
  abbrev pub Agreed : Bytes → Host → Type 0
  Agreed key h =
      (n : ℕ) × (old : Option ℕ) × (Counter.load codec c.state_stat c.state_read h.state.target
        ≡ ok old)
      × (or_fresh old ≡ n)
      × (n < counter_ceiling)
      × (saved : Disk) × (Counter.save codec c.state_dir c.state_saved (n + 1) h.state
          ≡ (ok tt, saved))
      × Agrees key n (send (record h { state = saved }) (encode_command key n (codes "unpair")))
      × Says post false

  send_unpair-Agrees :
      (key : Bytes) (n : ℕ) (h : Host) (r : Done PairError × Host)
      → r.1.keys ≡ h.keys
      → Kept h (send_unpair codec c send post key n r)
        ⊎ ((r.0 ≡ ok tt)
            × Agrees key n (send r.1 (encode_command key n (codes "unpair")))
            × Says post false)
  unfolding send_unpair
  send_unpair-Agrees key n h (err e, g) same = inl (same, e, refl)
  send_unpair-Agrees key n h (ok _, g) same =
      let reply = send g (encode_command key n (codes "unpair")) in
      elim (clear_host-Kept c (confirm key n reply post) g) [
        | inl (kept, e, failed) ↦ inl (kept ∙ same, e, failed)
        | inr agreed ↦
            let (agrees, says) = confirm-Agrees key n reply post agreed in inr (refl, agrees, says)
      ]

  persist_next-Agreed :
      (key : Bytes) (r : Result PairError ℕ) (h : Host)
      → r ≡ unpair_counter (Counter.load codec c.state_stat c.state_read h.state.target)
      → Kept h (persist_next codec c send post key r h) ⊎ Agreed key h
  unfolding persist_next
  persist_next-Agreed key (err e) h counted = inl (refl, e, refl)
  persist_next-Agreed key (ok n) h counted =
      let saved = Counter.save codec c.state_dir c.state_saved (n + 1) h.state in
      let ((old, loaded, same), below) = unpair_counter-ok _ n (sym counted) in
      elim (send_unpair-Agrees key n h (with_state h (reported_save saved))
        (with_state-keys h (reported_save saved))) [
          | inl kept ↦ inl kept
          | inr (done, agrees, says) ↦ inr (
            n,
            old,
            loaded,
            same,
            below,
            saved.1,
            saved_ok saved
                (reported_save-ok saved (sym (with_state-done h (reported_save saved)) ∙ done)),
            subst (λ (g : Host). Agrees key n (send g (encode_command key n (codes "unpair"))))
                (with_state-saved h saved) agrees,
            says,
          )
        ]

  unpair_from-Agreed :
      (key : Result KeyError (Option (Bytes × KeySource))) (pre : Result ℕ Bytes)
      (r : Result PairError (Bytes × Bool)) (h : Host)
      → first_status key pre ≡ r
      → Kept h (unpair_from codec c send post r h)
        ⊎ ((k : Bytes) × (source : KeySource) × (key ≡ ok (some (k, source)))
            × (Says pre false ⊎ (Says pre true × Agreed k h)))
  unfolding unpair_from
  unpair_from-Agreed key pre (err e) h s = inl (refl, e, refl)
  unpair_from-Agreed key pre (ok (k, false)) h s =
      let ((source, loaded), says) = first_status-Says key pre k false s in
      inr (k, source, loaded, inl says)
  unpair_from-Agreed key pre (ok (k, true)) h s =
      let ((source, loaded), says) = first_status-Says key pre k true s in
      elim (persist_next-Agreed k
        (unpair_counter (Counter.load codec c.state_stat c.state_read h.state.target)) h refl) [
          | inl kept ↦ inl kept
          | inr agreed ↦ inr (k, source, loaded, inr (says, agreed))
        ]

-- The command to unpair either fails and leaves the key's files as they are, or a key was loaded and the
-- firmware says that it is unpaired: at once, or after an authentic answer, under that key, to the command
-- whose counter is the stored one (1 where none is stored), below the reserved band, and which was sent
-- when the file of the counter was already the one that saving the next counter leaves.
pub run_unpair-Agreed :
    (codec : Counter.Codec) (c : UnpairCalls) (send : Host → Bytes → Result ℕ Bytes)
    (post : Result ℕ Bytes) (key : Result KeyError (Option (Bytes × KeySource)))
    (pre : Result ℕ Bytes) (h : Host)
    → Kept h (run_unpair codec c send post key pre h)
      ⊎ ((k : Bytes) × (source : KeySource) × (key ≡ ok (some (k, source)))
          × (Says pre false ⊎ (Says pre true × Agreed codec c send post k h)))
unfolding run_unpair
run_unpair-Agreed codec c send post key pre h =
    unpair_from-Agreed codec c send post key pre (first_status key pre) h refl
