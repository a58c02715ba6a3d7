-- ===== src/Pairing/Paired.antt =====
-- What a pairing of pcside/daemon/src/pairing.rs that ends well leaves on the host.
use linux_fingerprint_r.Prelude.{
  ◌≡◌, refl, sym, ap, ◌∙◌, inl, inr, Bool, true, false, Bool-cases, Option, some, List, ◌∷◌, ◌++◌,
  Bytes, codes, eq, eq_sound, ok, Done, subst,
}
use linux_fingerprint_r.Prelude.Actions.{and_then, and_then-goes_on, and_then-eq-ok}
use linux_fingerprint_r.Counter
use linux_fingerprint_r.Counter.Saving.{IsFaithful, Holds, save-Saved}
use linux_fingerprint_r.Disk.{Disk, done}
use linux_fingerprint_r.Disk.Atomic.{IsPrivate}
use linux_fingerprint_r.Keystore.{Keys, key_hex, load_key}
use linux_fingerprint_r.Keystore.Loading.{IsKey}
use linux_fingerprint_r.Keystore.Saving.{seen, load_key-save_key}
use linux_fingerprint_r.Keystore.Removing.{save_key_sealed_with_pcrs}
use linux_fingerprint_r.Keystore.Sealed.{OnlySealed, save_sealed-Stored}
use linux_fingerprint_r.Pairing.{
  FirmwareStatus, PairError, map_error-ok, bad_status, link, io, key_unusable, parse_status,
}
use linux_fingerprint_r.Pairing.Resync.{reported_save-Holds}
use linux_fingerprint_r.Pairing.Unpair.{Host}
use linux_fingerprint_r.Pairing.Unpairing.{Says}
use linux_fingerprint_r.Pairing.Gate.{query_status-sent, remove_marker-gone}
use linux_fingerprint_r.Pairing.Pair.{
  Station, Nano, PairCalls, check_opt_in, check_fresh, check_accepted, check_committed,
  allow_pair_present, remove_marker, remove_allow_pair, link_cmd, query_status, pcrs_of, put_keys,
  init_state, save_plain, save_to_tpm, store_key, send_key, run_pair,
}
use linux_fingerprint_r.Tpm.Sealing.{Library, seal_key_with_pcrs}

check_opt_in-ok : (b : Bool) → check_opt_in b ≡ ok tt → b ≡ true
unfolding check_opt_in
check_opt_in-ok true h = refl
check_opt_in-ok false h = cc h

check_fresh-ok : (s : FirmwareStatus) → check_fresh s ≡ ok tt → s.paired ≡ false
unfolding check_fresh
check_fresh-ok s = elim (Bool-cases s.paired) [
  | inl e ↦ rw e (λ h. cc h)
  | inr e ↦ rw e (λ h. refl)
]

check_committed-ok : (s : FirmwareStatus) → check_committed s ≡ ok tt → s.paired ≡ true
unfolding check_committed
check_committed-ok s = elim (Bool-cases s.paired) [
  | inl e ↦ rw e (λ h. refl)
  | inr e ↦ rw e (λ h. cc h)
]

check_accepted-ok : (reply : Bytes) → check_accepted reply ≡ ok tt → reply ≡ codes "OK paired"
unfolding check_accepted
check_accepted-ok reply = elim (Bool-cases (eq reply (codes "OK paired"))) [
  | inl e ↦ rw e (λ h. eq_sound reply (codes "OK paired") e)
  | inr e ↦ rw e (λ h. cc h)
]

-- The log after a command, the marker being there or not.
abbrev pub after : Bytes → Station → List (Bytes × Bool)
after wire s = (wire, s.opt_in) ∷ s.sent

link_cmd-ok :
    (nano : Nano) (wire reply : Bytes) (s : Station)
    → (link_cmd nano wire s).0 ≡ ok reply
    → (nano (after wire s) ≡ ok reply)
      × ((link_cmd nano wire s).1 ≡ record s { sent = after wire s })
unfolding link_cmd
link_cmd-ok nano wire reply s h = (map_error-ok link _ h, refl)

query_status-Says :
    (nano : Nano) (s : Station) (status : FirmwareStatus) (b : Bool)
    → (query_status nano s).0 ≡ ok status
    → status.paired ≡ b
    → Says (nano (after (codes "status") s)) b
unfolding query_status
query_status-Says nano s status b h k =
    let (line, got, parsed) = and_then-eq-ok (link_cmd nano (codes "status") s) _ h in
    (
      line,
      status,
      (link_cmd-ok nano (codes "status") line s got).0,
      map_error-ok bad_status (parse_status line) parsed,
      k,
    )

-- The firmware has taken the key, and then says that it is paired.
abbrev pub Accepted : Nano → Bytes → Station → Type 0
Accepted nano key s =
    let sent = after (codes "pair " ++ key_hex key) s in
    (nano sent ≡ ok (codes "OK paired"))
    × Says (nano (after (codes "status") (record s { sent = sent }))) true

-- The host's files hold the key: sealed to the PCRs of the list and in no other form, or as the key that is
-- read from the plain files.
abbrev pub Stored : (L : Library) → L.World → Bool → Option Bytes → Bytes → Keys → Type 0
Stored L w true list key ks =
    (ps blob : Bytes) × (pcrs_of list ≡ ok ps)
    × ((seal_key_with_pcrs L key ps w).0 ≡ ok blob)
    × OnlySealed blob ks
Stored L w false list key ks = load_key (seen ks.live.target) (seen ks.backup) ≡ some key

put_keys-Done :
    {E : Type 0} (f : E → PairError) (s : Station) (r : Done E × Keys)
    → (put_keys f s r).0 ≡ ok tt
    → (r.0 ≡ ok tt) × ((put_keys f s r).1 ≡ record s { host = record s.host { keys = r.1 } })
unfolding put_keys
put_keys-Done f s (r, ks) h = (map_error-ok f r h, refl)

-- The removals of the plain files, and the restriction of the backup, do not fail.
pub record IsSmooth (c : PairCalls) : Type 0 where
  pub restricted : c.key_saved.restricted ≡ done
  pub live_removed : c.key_sealed.live_removed.removed ≡ done
  pub backup_removed : c.key_sealed.backup_removed.removed ≡ done

module _ (L : Library) (w : L.World) (c : PairCalls) (smooth : IsSmooth c) where
  store_key-Stored :
      (seal_tpm : Bool) (list : Option Bytes) (key : Bytes) (s : Station)
      → IsKey key
      → (store_key L w c seal_tpm list key s).0 ≡ ok tt
      → Stored L w seal_tpm list key (store_key L w c seal_tpm list key s).1.host.keys
        × ((store_key L w c seal_tpm list key s).1.host.state ≡ s.host.state)
  unfolding store_key save_plain save_to_tpm save_key_sealed_with_pcrs
  store_key-Stored true list key s k h =
      let (ps, listed, h1, same) = and_then-goes_on _ _ h in
      let sealing = (seal_key_with_pcrs L key ps w).0 in
      let (saved, put) = put_keys-Done key_unusable s _ h1 in
      let (blob, sealed, stored) =
        save_sealed-Stored c.key_sealed sealing s.host.keys smooth.live_removed
          smooth.backup_removed saved in
      let at = same ∙ put in
      (
        (
          ps,
          blob,
          listed,
          sealed,
          subst (λ (t : Station). OnlySealed blob t.host.keys) (sym at) stored,
        ),
        ap (λ (t : Station). t.host.state) at,
      )
  store_key-Stored false list key s k h =
      let (saved, put) = put_keys-Done io s _ h in
      (
        subst (λ (t : Station). Stored L w false list key t.host.keys) (sym put)
            (load_key-save_key c.key_saved key s.host.keys k smooth.restricted saved),
        ap (λ (t : Station). t.host.state) put,
      )

  init_state-Holds :
      (codec : Counter.Codec) (s : Station)
      → IsFaithful codec
      → IsPrivate s.host.state.tmp
      → (init_state codec c s).0 ≡ ok tt
      → Holds codec (init_state codec c s).1.host.state Counter.fresh
        × ((init_state codec c s).1.host.keys ≡ s.host.keys)
  unfolding init_state
  init_state-Holds codec s f p h = (
    reported_save-Holds codec Counter.fresh s.host.state
        (Counter.save codec c.fresh_dir c.fresh_saved Counter.fresh s.host.state)
        (save-Saved codec c.fresh_dir c.fresh_saved Counter.fresh s.host.state f p) h,
    refl,
  )

  -- The files that a pairing leaves.
  abbrev pub Ready : Counter.Codec → Bool → Option Bytes → Bytes → Host → Type 0
  Ready codec seal_tpm list key h =
      Stored L w seal_tpm list key h.keys × Holds codec h.state Counter.fresh

  finish-Ready :
      (codec : Counter.Codec) (seal_tpm : Bool) (list : Option Bytes) (key : Bytes) (s : Station)
      → IsFaithful codec
      → IsPrivate s.host.state.tmp
      → IsKey key
      → (and_then (store_key L w c seal_tpm list key s) (λ _. init_state codec c)).0 ≡ ok tt
      → Ready codec seal_tpm list key
          (and_then (store_key L w c seal_tpm list key s) (λ _. init_state codec c)).1.host
  finish-Ready codec seal_tpm list key s f p k h =
      let (_, saved, h1, same) =
        and_then-goes_on (store_key L w c seal_tpm list key s) (λ _. init_state codec c) h in
      let (stored, old) = store_key-Stored seal_tpm list key s k saved in
      let t = (store_key L w c seal_tpm list key s).1 in
      let (holds, kept) =
        init_state-Holds codec t f (subst (λ (d : Disk). IsPrivate d.tmp) (sym old) p) h1 in
      subst (λ (r : Station). Ready codec seal_tpm list key r.host) (sym same)
        (subst (λ (ks : Keys). Stored L w seal_tpm list key ks) (sym kept) stored, holds)

  send_key-Ready :
      (codec : Counter.Codec) (nano : Nano) (seal_tpm : Bool) (list : Option Bytes) (key : Bytes)
      (s : Station)
      → IsFaithful codec
      → IsPrivate s.host.state.tmp
      → IsKey key
      → (send_key L w c codec nano seal_tpm list key s).0 ≡ ok tt
      → Accepted nano key s
        × Ready codec seal_tpm list key (send_key L w c codec nano seal_tpm list key s).1.host
  unfolding send_key link_cmd
  send_key-Ready codec nano seal_tpm list key s f p k h =
      let wire = codes "pair " ++ key_hex key in
      let sent : Station = record s { sent = after wire s } in
      let (reply, replied, h1, e1) = and_then-goes_on _ _ h in
      let (_, accepted, h2, e2) = and_then-goes_on _ _ h1 in
      let (post, asked, h3, e3) = and_then-goes_on _ _ h2 in
      let (_, committed, h4, e4) = and_then-goes_on _ _ h3 in
      let state = query_status-sent nano sent in
      let ready =
        finish-Ready codec seal_tpm list key (query_status nano sent).1 f
          (subst (λ (t : Station). IsPrivate t.host.state.tmp) (sym state) p) k h4 in
      (
        (
          map_error-ok link _ replied ∙ ap ok (check_accepted-ok reply accepted),
          query_status-Says nano sent post true asked (check_committed-ok post committed),
        ),
        subst (λ (t : Station). Ready codec seal_tpm list key t.host) (sym (e1 ∙ e2 ∙ e3 ∙ e4))
            ready,
      )

  -- The pairing from the first answer on.
  gate-Ready :
      (codec : Counter.Codec) (nano : Nano) (seal_tpm : Bool) (list : Option Bytes) (key : Bytes)
      (s : Station)
      → IsFaithful codec
      → IsPrivate s.host.state.tmp
      → IsKey key
      → (and_then
          (remove_allow_pair c.marker_removed s)
          (λ _. send_key L w c codec nano seal_tpm list key)).0
        ≡ ok tt
      → Accepted nano key (record s { opt_in = false })
        × Ready codec seal_tpm list key
            (and_then
              (remove_allow_pair c.marker_removed s)
              (λ _. send_key L w c codec nano seal_tpm list key)).1.host
  unfolding remove_allow_pair
  gate-Ready codec nano seal_tpm list key s f p k h =
      let (_, gone, h1, same) =
        and_then-goes_on (remove_allow_pair c.marker_removed s)
          (λ _. send_key L w c codec nano seal_tpm list key) h in
      let shut = remove_marker-gone c.marker_removed s.opt_in (map_error-ok io _ gone) in
      let (accepted, ready) =
        send_key-Ready codec nano seal_tpm list key
          (record s { opt_in = (remove_marker c.marker_removed s.opt_in).1 }) f p k h1 in
      (
        subst (λ (b : Bool). Accepted nano key (record s { opt_in = b })) shut accepted,
        subst (λ (t : Station). Ready codec seal_tpm list key t.host) (sym same) ready,
      )

  -- A pairing that ends well has found the marker, has been told by the firmware that it is unpaired, has then,
  -- with the marker gone, sent it the generated key, and been told that it is taken and that the
  -- firmware is paired; and the host is left with the counter 1 and with that key, which is sealed to
  -- the PCRs asked for and stands in no other file, or is the one that is read from the plain files.
  -- The key has 16 bytes, serde_json reads back what it has written, no temporary file of another mode
  -- is there for the counter, and the removals and the restriction of `IsSmooth` do not fail.
  pub run_pair-Ready :
      (codec : Counter.Codec) (nano : Nano) (seal_tpm : Bool) (list : Option Bytes) (s : Station)
      → IsFaithful codec
      → IsPrivate s.host.state.tmp
      → ((key : Bytes) → c.generated ≡ ok key → IsKey key)
      → (run_pair L w c codec nano seal_tpm list s).0 ≡ ok tt
      → (key : Bytes) × (c.generated ≡ ok key)
        × (s.opt_in ≡ true)
        × Says (nano (after (codes "status") s)) false
        × Accepted nano key (record s { opt_in = false; sent = after (codes "status") s })
        × Ready codec seal_tpm list key (run_pair L w c codec nano seal_tpm list s).1.host
  unfolding run_pair allow_pair_present
  run_pair-Ready codec nano seal_tpm list s f p k h =
      let (_, opted, h1, e1) = and_then-goes_on _ _ h in
      let (_, _, h2, e2) = and_then-goes_on _ _ h1 in
      let (_, _, h3, e3) = and_then-goes_on _ _ h2 in
      let (pre, asked, h4, e4) = and_then-goes_on _ _ h3 in
      let (_, unpaired, h5, e5) = and_then-goes_on _ _ h4 in
      let (key, made, h6, e6) = and_then-goes_on _ _ h5 in
      let state = query_status-sent nano s in
      let generated = map_error-ok io c.generated made in
      let (accepted, ready) =
        gate-Ready codec nano seal_tpm list key (query_status nano s).1 f
          (subst (λ (t : Station). IsPrivate t.host.state.tmp) (sym state) p) (k key generated)
          h6 in
      (
        key,
        generated,
        check_opt_in-ok s.opt_in opted,
        query_status-Says nano s pre false asked (check_fresh-ok pre unpaired),
        subst (λ (t : Station). Accepted nano key (record t { opt_in = false })) state accepted,
        subst (λ (t : Station). Ready codec seal_tpm list key t.host)
            (sym (e1 ∙ e2 ∙ e3 ∙ e4 ∙ e5 ∙ e6)) ready,
      )
