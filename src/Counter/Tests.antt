-- ===== src/Counter/Tests.antt =====
-- The counter's file of pcside/daemon/src/state.rs at concrete inputs.
use linux_fingerprint_r.Prelude.{
  ℕ, ◌≡◌, refl, sym, ap, some, none, [], ◌∷◌, ◌++◌, Bytes, Result, ok, err,
}
use linux_fingerprint_r.Disk.{Disk, Trial, done, failed, private_mode}
use linux_fingerprint_r.Counter.{Codec, save, load}
use linux_fingerprint_r.Counter.Saving.{IsFaithful, Saved, save-Saved}

-- A serializer that writes the number as one symbol.
abbrev read_symbol : Bytes → Result ℕ ℕ
read_symbol [] = err 0
read_symbol (n ∷ s) = ok n

abbrev pub symbols : Codec
symbols = record { encode = λ n. ok (n ∷ []); decode = read_symbol }

text_of : (a b : Bytes) → ◌≡◌ {A = Result ℕ Bytes} (ok a) (ok b) → a ≡ b
text_of a b h = cc h

pub symbols-IsFaithful : IsFaithful symbols
symbols-IsFaithful n json h =
    ap (λ (t : Bytes). read_symbol (t ++ b'\n' ∷ [])) (sym (text_of (n ∷ []) json h))

abbrev pub all_done : Trial
all_done = record { opened = done; wrote = done; partly = 0; synced = done; renamed = done }

abbrev sync_fails : Trial
sync_fails = record { opened = done; wrote = done; partly = 0; synced = failed 5; renamed = done }

-- The file holds the counter 7.
abbrev pub seven : Disk
seven = record {
  target = some (record { content = 7 ∷ b'\n' ∷ []; mode = private_mode });
  tmp = none;
}

loads_seven : load symbols done done (seven.target) ≡ ok (some 7)
unfolding load
loads_seven = refl

save-Saved_example : Saved symbols 8 seven (save symbols done sync_fails 8 seven)
save-Saved_example = save-Saved symbols done sync_fails 8 seven symbols-IsFaithful tt
