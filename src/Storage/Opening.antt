-- ===== src/Storage/Opening.antt =====
-- The registry that pcside/daemon/src/storage.rs opens is for as many slots as it was asked for.
use linux_fingerprint_r.Prelude.{
  ℕ, ◌≡◌, refl, sym, ap, ◌∙◌, Bytes, Result, ok, err, ok_injective, Done,
}
use linux_fingerprint_r.Disk.{Disk, Outcome, done, failed, Trial, replace_file}
use linux_fingerprint_r.Storage.{
  Users, Storage, StorageError, Codec, save, save_encoded, after_replace, load_registry,
  open_registry, open_loaded,
}

after_replace-capacity :
    (st : Storage) (r : Done ℕ × Disk) → (after_replace st r).1.capacity ≡ st.capacity
unfolding after_replace
after_replace-capacity st (ok u, d) = refl
after_replace-capacity st (err e, d) = refl

save_encoded-capacity :
    (t : Trial) (st : Storage) (r : Result ℕ Bytes) → (save_encoded t st r).1.capacity ≡ st.capacity
unfolding save_encoded
save_encoded-capacity t st (err e) = refl
save_encoded-capacity t st (ok bytes) = after_replace-capacity st (replace_file t bytes st.disk)

save-capacity : (c : Codec) (t : Trial) (st : Storage) → (save c t st).1.capacity ≡ st.capacity
unfolding save
save-capacity c t st = save_encoded-capacity t st (c.encode st.users)

saved-eq-ok :
    (r : Done StorageError) (after st : Storage)
    → ◌≡◌ {A = Result StorageError Storage} (elim r [ ok u ↦ ok after | err e ↦ err e ]) (ok st)
    → after ≡ st
saved-eq-ok (ok u) after st h = ok_injective h
saved-eq-ok (err e) after st h = cc h

open_loaded-capacity :
    (c : Codec) (t : Trial) (capacity : ℕ) (d : Disk) (r : Result StorageError Users) (st : Storage)
    → (open_loaded c t capacity d r).0 ≡ ok st
    → st.capacity ≡ capacity
unfolding open_loaded
open_loaded-capacity c t capacity d (err e) st h = cc h
open_loaded-capacity c t capacity d (ok users) st h =
    let fresh : Storage = record { capacity = capacity; users = users; disk = d } in
    let saved = save c t fresh in
    ap (λ (s : Storage). s.capacity) (sym (saved-eq-ok saved.0 saved.1 st h))
    ∙ save-capacity c t fresh

pub open_registry-capacity :
    (c : Codec) (dir stat read : Outcome) (t : Trial) (capacity : ℕ) (d : Disk) (st : Storage)
    → (open_registry c dir stat read t capacity d).0 ≡ ok st
    → st.capacity ≡ capacity
unfolding open_registry
open_registry-capacity c (failed e) stat read t capacity d st h = cc h
open_registry-capacity c done stat read t capacity d st h =
    open_loaded-capacity c t capacity d (load_registry c stat read d.target) st h
