-- ===== src/Pairing/Overview/Quiet.antt =====
-- After a pairing the overview of pcside/daemon/src/pairing.rs has nothing to warn of.
use linux_fingerprint_r.Prelude.{
  ℕ, ◌≡◌, ◌⊎◌, refl, inl, inr, Bool, true, false, Option, none, some, [], Bytes,
}
use linux_fingerprint_r.Counter
use linux_fingerprint_r.Counter.Saving.{Holds}
use linux_fingerprint_r.Disk.{File, Disk}
use linux_fingerprint_r.Keystore.{Keys, load_key, read_key_file_guarded, or_backup, parse_candidate}
use linux_fingerprint_r.Keystore.Saving.{seen}
use linux_fingerprint_r.Pairing.Overview.{
  exists, mismatch, has_key, two_forms, missing_counter, notices,
}
use linux_fingerprint_r.Pairing.Paired.{Stored}
use linux_fingerprint_r.Pairing.Unpair.{Host}
use linux_fingerprint_r.Tpm.Sealing.{Library}

-- The files of the key are there in one form.
abbrev OneForm : Keys → Type 0
OneForm ks = (has_key ks ≡ true) × (two_forms ks ≡ [])

plain-OneForm :
    (live backup : Option File) (key : Bytes) (ks : Keys)
    → ks.live.target ≡ live
    → ks.backup ≡ backup
    → ks.sealed.target ≡ none
    → load_key (seen live) (seen backup) ≡ some key
    → OneForm ks
unfolding has_key two_forms exists load_key read_key_file_guarded seen or_backup parse_candidate
plain-OneForm none none key ks e f g h = absurd (cc h)
plain-OneForm none (some b) key ks e f g h = rw (e, f, g) (refl, refl)
plain-OneForm (some a) none key ks e f g h = rw (e, g) (refl, refl)
plain-OneForm (some a) (some b) key ks e f g h = rw (e, g) (refl, refl)

Stored-OneForm :
    (L : Library) (w : L.World) (seal_tpm : Bool) (list : Option Bytes) (key : Bytes) (ks : Keys)
    → (seal_tpm ≡ true) ⊎ (ks.sealed.target ≡ none)
    → Stored L w seal_tpm list key ks
    → OneForm ks
unfolding has_key two_forms exists
Stored-OneForm L w true list key ks h (ps, blob, listed, sealed, (mode, there, a, b)) =
    rw (there, a, b) (refl, refl)
Stored-OneForm L w false list key ks (inl e) stored = absurd (cc e)
Stored-OneForm L w false list key ks (inr gone) stored =
    plain-OneForm ks.live.target ks.backup key ks refl refl gone stored

counter-exists :
    (codec : Counter.Codec) (d : Disk) (n : ℕ) (o : Option File)
    → d.target ≡ o
    → Holds codec d n
    → exists d.target ≡ true
unfolding exists Counter.load
counter-exists codec d n none e = rw e (λ h. cc h)
counter-exists codec d n (some f) e = rw e (λ h. refl)

-- On the files that a pairing leaves, with a firmware that says that it is paired, there is nothing to warn of
-- and nothing to note, provided that the key was sealed or no file of a sealed key was left.
pub Stored-quiet :
    (L : Library) (w : L.World) (codec : Counter.Codec) (seal_tpm : Bool) (list : Option Bytes)
    (key : Bytes) (n : ℕ) (h : Host)
    → (seal_tpm ≡ true) ⊎ (h.keys.sealed.target ≡ none)
    → Stored L w seal_tpm list key h.keys
    → Holds codec h.state n
    → notices true h ≡ []
unfolding notices missing_counter mismatch
Stored-quiet L w codec seal_tpm list key n h fresh stored holds =
    let (has, one) = Stored-OneForm L w seal_tpm list key h.keys fresh stored in
    rw (has, one, counter-exists codec h.state n h.state.target refl holds) refl
