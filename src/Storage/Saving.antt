-- ===== src/Storage/Saving.antt =====
-- The registry on the disk: pcside/daemon/src/storage.rs.
use linux_fingerprint_r.Prelude.{
  ℕ, ◌&&◌, ◌≡◌, ◌≢◌, refl, ap, ◌∙◌, inl, inr, Option, none, some, Bytes, eq, if◌then◌else◌, Result,
  Done, ok, err,
}
use linux_fingerprint_r.Disk.{Disk, File, done, Trial, replace_file, created_mode, private_mode}
use linux_fingerprint_r.Disk.Atomic.{Replaced, replace_file-atomic}
use linux_fingerprint_r.Storage.{
  Users, Storage, StorageError, Codec, slot_of, put_slot, set_slot, take_finger, remove_finger,
  after_save, save, save_encoded, after_replace, load_registry, read_registry, decoded, io, parse,
}
use linux_fingerprint_r.Storage.Slots.{slot_of-put_slot}

ok_apart : (e : StorageError) → ◌≢◌ {A = Done StorageError} (err e) (ok tt)
ok_apart e h = cc h

-- What a save that returned no error has left.
abbrev IsSaved : Codec → Storage → Storage → Type 0
IsSaved c st after =
    (bytes : Bytes) × (c.encode st.users ≡ ok bytes)
    × ((after.disk).target
        ≡ some (record { content = bytes; mode = created_mode (st.disk).tmp private_mode }))

after_replace-IsSaved :
    (c : Codec) (st : Storage) (bytes : Bytes) (r : Done ℕ × Disk)
    → c.encode st.users ≡ ok bytes
    → Replaced bytes st.disk r
    → (after_replace st r).0 ≡ ok tt
    → IsSaved c st (after_replace st r).1
unfolding after_replace
after_replace-IsSaved c st bytes (ok u, d) e (inl (a, b, z)) h = (bytes, e, b)
after_replace-IsSaved c st bytes (ok u, d) e (inr (n, a, b)) h = cc
after_replace-IsSaved c st bytes (err n, d) e w h = absurd (ok_apart (io n) h)

save_encoded-IsSaved :
    (c : Codec) (t : Trial) (st : Storage) (r : Result ℕ Bytes)
    → c.encode st.users ≡ r
    → (save_encoded t st r).0 ≡ ok tt
    → IsSaved c st (save_encoded t st r).1
unfolding save_encoded
save_encoded-IsSaved c t st (err n) e h = absurd (ok_apart (parse n) h)
save_encoded-IsSaved c t st (ok bytes) e h =
    after_replace-IsSaved c st bytes (replace_file t bytes st.disk) e
      (replace_file-atomic t bytes st.disk) h

-- serde_json reads back what it has written, up to the order of the entries.
abbrev pub IsFaithful : Codec → Type 0
IsFaithful c =
    (users : Users) (bytes : Bytes)
    → c.encode users ≡ ok bytes
    → (read : Users) × (c.decode bytes ≡ ok read)
      × ((u f : Bytes) → slot_of read u f ≡ slot_of users u f)

mode_lem : (tmp : Option File) → tmp ≡ none → created_mode tmp private_mode ≡ private_mode
unfolding created_mode
mode_lem tmp h = ap (λ o. created_mode o private_mode) h

loaded :
    (c : Codec) (bytes : Bytes) (read : Users)
    → c.decode bytes ≡ ok read
    → load_registry c done done (some (record { content = bytes; mode = private_mode })) ≡ ok read
unfolding load_registry read_registry decoded
loaded c bytes read d = rw d

-- If serde_json reads back what it has written, no temporary file was there, no other saving overlaps this one and
-- setting a slot returned no error, then a daemon that starts on the file afterwards reads a registry with that slot for that
-- finger of that user, and for every other finger of every user the slot it had.
pub set_slot-load_registry :
    (c : Codec) (t : Trial) (st : Storage) (u f : Bytes) (slot : ℕ)
    → IsFaithful c
    → (st.disk).tmp ≡ none
    → (set_slot c t st u f slot).0 ≡ ok tt
    → (read : Users) × (load_registry c done done (((set_slot c t st u f slot).1).disk).target
        ≡ ok read)
      × ((v g : Bytes)
          → slot_of read v g ≡ (if eq v u && eq g f then some slot else slot_of st.users v g))
unfolding set_slot save
set_slot-load_registry c t st u f slot faithful fresh h =
    let after = record st { users = put_slot u f slot st.users } in
    let (bytes, e, there) = save_encoded-IsSaved c t after (c.encode after.users) refl h in
    let (read, d, same) = faithful after.users bytes e in
    (
      read,
      ap (load_registry c done done) there
          ∙ ap (λ (m : ℕ). load_registry c done done (some (record { content = bytes; mode = m })))
              (mode_lem (st.disk).tmp fresh)
          ∙ loaded c bytes read d,
      λ v g. same v g ∙ slot_of-put_slot st.users u f v g slot,
    )

-- The registry in memory after each operation that saves, whether the saving worked or not.
after_replace-users : (st : Storage) (r : Done ℕ × Disk) → ((after_replace st r).1).users ≡ st.users
unfolding after_replace
after_replace-users st (ok _, d) = refl
after_replace-users st (err e, d) = refl

save_encoded-users :
    (t : Trial) (st : Storage) (r : Result ℕ Bytes) → ((save_encoded t st r).1).users ≡ st.users
unfolding save_encoded
save_encoded-users t st (ok bytes) = after_replace-users st _
save_encoded-users t st (err e) = refl

pub set_slot-users :
    (c : Codec) (t : Trial) (st : Storage) (u f : Bytes) (slot : ℕ)
    → ((set_slot c t st u f slot).1).users ≡ put_slot u f slot st.users
unfolding set_slot save
set_slot-users c t st u f slot =
    save_encoded-users t (record st { users = put_slot u f slot st.users }) _

after_save-users :
    (o : Option ℕ) (r : Done StorageError × Storage) → ((after_save o r).1).users ≡ (r.1).users
unfolding after_save
after_save-users o (ok _, st) = refl
after_save-users o (err e, st) = refl

pub remove_finger-users :
    (c : Codec) (t : Trial) (st : Storage) (u f : Bytes)
    → ((remove_finger c t st u f).1).users ≡ take_finger u f st.users
unfolding remove_finger save
remove_finger-users c t st u f =
    after_save-users (slot_of st.users u f)
      (save c t (record st { users = take_finger u f st.users }))
    ∙ save_encoded-users t (record st { users = take_finger u f st.users }) _
