-- ===== src/Pairing/Gate.antt =====
-- When pcside/daemon/src/pairing.rs sends a key to the firmware.
use linux_fingerprint_r.Prelude.{
  ◌≡◌, refl, sym, Bool, true, false, Option, ◌∷◌, ◌++◌, Bytes, codes, All, Result, ok, subst,
}
use linux_fingerprint_r.Prelude.Actions.{and_then-Ensures, and_then-lift}
use linux_fingerprint_r.Counter
use linux_fingerprint_r.Disk.{Outcome, done, failed}
use linux_fingerprint_r.Keystore.{key_hex}
use linux_fingerprint_r.Pairing.{PairError, map_error, map_error-ok, bad_status, io, parse_status}
use linux_fingerprint_r.Pairing.Pair.{
  Station, Nano, PairCalls, PurgeCalls, allow_pair_present, remove_marker, remove_allow_pair,
  link_cmd, query_status, put_keys, init_state, save_plain, save_to_tpm, store_key, send_key,
  run_pair, purge, run_reseal_tpm,
}
use linux_fingerprint_r.Tpm.Sealing.{Library}

-- While the opt-in marker is there, nothing but a request of the status is sent.
abbrev pub IsGated : Station → Type 0
IsGated s = All (λ (e : Bytes × Bool). e.1 ≡ true → e.0 ≡ codes "status") s.sent

-- The marker is gone, too.
abbrev IsShut : Station → Type 0
IsShut s = IsGated s × (s.opt_in ≡ false)

pub query_status-sent :
    (nano : Nano) (s : Station)
    → (query_status nano s).1 ≡ record s { sent = (codes "status", s.opt_in) ∷ s.sent }
unfolding query_status link_cmd
query_status-sent nano s = and_then-lift _ (λ line. map_error bad_status (parse_status line)) _

query_status-IsGated : (nano : Nano) (s : Station) → IsGated s → IsGated (query_status nano s).1
query_status-IsGated nano s h = subst IsGated (sym (query_status-sent nano s)) ((λ _. refl), h)

query_status-IsShut : (nano : Nano) (s : Station) → IsShut s → IsShut (query_status nano s).1
query_status-IsShut nano s h =
    subst IsShut (sym (query_status-sent nano s)) (((λ _. refl), h.0), h.1)

link_cmd-IsShut :
    (nano : Nano) (wire : Bytes) (s : Station) → IsShut s → IsShut (link_cmd nano wire s).1
unfolding link_cmd
link_cmd-IsShut nano wire s h = (((λ e. cc (e, h.1)), h.0), h.1)

pub remove_marker-gone :
    (o : Outcome) (b : Bool) → (remove_marker o b).0 ≡ ok tt → (remove_marker o b).1 ≡ false
unfolding remove_marker
remove_marker-gone o false h = refl
remove_marker-gone done true h = refl
remove_marker-gone (failed e) true h = cc h

put_keys-IsGated :
    {E : Type 0} (f : E → PairError) (s : Station) (r : Result E (Unit {0}) × _)
    → IsGated s
    → IsGated (put_keys f s r).1
unfolding put_keys
put_keys-IsGated f s (r, ks) h = h

module _ (L : Library) (w : L.World) (c : PairCalls) where
  store_key-IsGated :
      (seal_tpm : Bool) (list : Option Bytes) (key : Bytes) (s : Station)
      → IsGated s
      → IsGated (store_key L w c seal_tpm list key s).1
  unfolding store_key save_plain save_to_tpm
  store_key-IsGated true list key s h =
      and_then-Ensures IsGated _ _ h (λ ps _. put_keys-IsGated _ s _ h)
  store_key-IsGated false list key s h = put_keys-IsGated io s _ h

  send_key-IsGated :
      (codec : Counter.Codec) (nano : Nano) (seal_tpm : Bool) (list : Option Bytes) (key : Bytes)
      (s : Station)
      → IsShut s
      → IsGated (send_key L w c codec nano seal_tpm list key s).1
  unfolding send_key init_state
  send_key-IsGated codec nano seal_tpm list key s h =
      let sent = link_cmd-IsShut nano (codes "pair " ++ key_hex key) s h in
      let asked = query_status-IsShut nano _ sent in
      and_then-Ensures IsGated _ _ (sent.0) (λ reply _.
        and_then-Ensures IsGated _ _ (sent.0) (λ _ _.
          and_then-Ensures IsGated _ _ (asked.0) (λ post _.
            and_then-Ensures IsGated _ _ (asked.0) (λ _ _.
              let stored = store_key-IsGated seal_tpm list key _ (asked.0) in
              and_then-Ensures IsGated _ _ stored (λ _ _. stored)))))

  run_pair-IsGated :
      (codec : Counter.Codec) (nano : Nano) (seal_tpm : Bool) (list : Option Bytes) (s : Station)
      → IsGated s
      → IsGated (run_pair L w c codec nano seal_tpm list s).1
  unfolding run_pair allow_pair_present remove_allow_pair
  run_pair-IsGated codec nano seal_tpm list s h =
      let asked = query_status-IsGated nano s h in
      and_then-Ensures IsGated _ _ h (λ _ _. and_then-Ensures IsGated _ _ h (λ _ _.
        and_then-Ensures IsGated _ _ h (λ _ _. and_then-Ensures IsGated _ _ asked (λ pre _.
          and_then-Ensures IsGated _ _ asked (λ _ _. and_then-Ensures IsGated _ _ asked (λ key _.
            and_then-Ensures IsGated _ _ asked (λ _ gone.
              send_key-IsGated codec nano seal_tpm list key _
                (asked, remove_marker-gone _ _ (map_error-ok io _ gone)))))))))

  run_reseal_tpm-IsGated :
      (p : PurgeCalls) (codec : Counter.Codec) (nano : Nano) (list : Option Bytes) (s : Station)
      → IsGated s
      → IsGated (run_reseal_tpm L w c p codec nano list s).1
  unfolding run_reseal_tpm allow_pair_present purge
  run_reseal_tpm-IsGated p codec nano list s h =
      let asked = query_status-IsGated nano s h in
      and_then-Ensures IsGated _ _ h (λ _ _. and_then-Ensures IsGated _ _ h (λ _ _.
        and_then-Ensures IsGated _ _ h (λ _ _. and_then-Ensures IsGated _ _ asked (λ pre _.
          and_then-Ensures IsGated _ _ asked (λ _ _.
            and_then-Ensures IsGated _ _ asked
              (λ _ _. run_pair-IsGated codec nano true list _ asked))))))

-- Whatever fails on the way, neither a pairing nor a resealing sends the firmware anything but a request of its
-- status while the opt-in marker is there: a key is only sent after the marker has gone. Nothing else
-- may have been sent before.
pub pairing-IsGated :
    (L : Library) (w : L.World) (c : PairCalls) (p : PurgeCalls) (codec : Counter.Codec)
    (nano : Nano) (seal_tpm : Bool) (list : Option Bytes) (s : Station)
    → IsGated s
    → IsGated (run_pair L w c codec nano seal_tpm list s).1
      × IsGated (run_reseal_tpm L w c p codec nano list s).1
pairing-IsGated L w c p codec nano seal_tpm list s h = (
  run_pair-IsGated L w c codec nano seal_tpm list s h,
  run_reseal_tpm-IsGated L w c p codec nano list s h,
)
