-- ===== src/Storage.antt =====
-- pcside/daemon/src/storage.rs: the registry that says which slot of the sensor holds which finger of
-- which user. `HashMap`s are association lists, a `HashSet` is a list; serde_json is a parameter, and the
-- system calls of a save are a `Trial`. Each
-- operation is modelled as run alone: the lock is dropped before `save` writes its snapshot, and savings that overlap, which
-- share one temporary file, are not modelled.
mod Tests
pub mod Slots
pub mod Allocation
pub mod Exclusive
pub mod Saving
pub mod Opening
use linux_fingerprint_r.Prelude.{
  ℕ, Done, zero, suc, ◌+◌, min, ◌==◌, if◌then◌else◌, Bool, true, false, not, ◌||◌, ◌&&◌, Option,
  none, some, List, [], ◌∷◌, ◌++◌, Bytes, Result, ok, err, ok_or, Map, lookup, insert, erase, keys,
  values, ltb,
}
use linux_fingerprint_r.Disk.{Disk, File, Outcome, done, failed, Trial, replace_file, private_mode}

-- `StorageFile`: user name -> (finger name -> slot)
abbrev pub Users : Type 0
Users = Map (Map ℕ)

pub data StorageError : Type 0 where
  io parse no_free_slot insecure_mode : ℕ → StorageError

-- serde_json on a `StorageFile`, with its error as a number.
pub record Codec : Type 0 where
  pub encode : Users → Result ℕ Bytes
  pub decode : Bytes → Result ℕ Users

-- `StorageInner`, with the files that its path names.
pub record Storage : Type 0 where
  pub capacity : ℕ
  pub users : Users
  pub disk : Disk

-- `.unwrap_or_default()` of a user's map
unfoldable pub or_empty : Option (Map ℕ) → Map ℕ
or_empty none = []
or_empty (some m) = m

-- `slot_of` is `get_slot` of the registry; the method reads it under the lock.
unfoldable pub finger_in : Option (Map ℕ) → Bytes → Option ℕ
finger_in none finger = none
finger_in (some m) finger = lookup finger m

unfoldable pub slot_of : Users → Bytes → Bytes → Option ℕ
slot_of users username finger = finger_in (lookup username users) finger

unfoldable pub get_slot : Storage → Bytes → Bytes → Option ℕ
get_slot st username finger = slot_of st.users username finger

unfoldable pub get_user_slots : Storage → Bytes → Map ℕ
get_user_slots st username = or_empty (lookup username st.users)

-- Byte order of two names, as `Ord for String` has it.
unfoldable pub name_le : Bytes → Bytes → Bool
name_le [] t = true
name_le (a ∷ s) [] = false
name_le (a ∷ s) (b ∷ t) = ltb a b || ((a == b) && name_le s t)

insert_sorted : Bytes → List Bytes → List Bytes
insert_sorted s [] = s ∷ []
insert_sorted s (t ∷ ts) =
    let rest = insert_sorted s ts in if name_le s t then s ∷ t ∷ ts else t ∷ rest

pub sort : List Bytes → List Bytes
sort [] = []
sort (s ∷ ts) = insert_sorted s (sort ts)

unfoldable pub list_fingers : Storage → Bytes → List Bytes
list_fingers st username = sort (keys (or_empty (lookup username st.users)))

unfoldable pub contains : ℕ → List ℕ → Bool
contains s [] = false
contains s (t ∷ ts) = (s == t) || contains s ts

concat_values : List (Map ℕ) → List ℕ
concat_values [] = []
concat_values (m ∷ ms) = values m ++ concat_values ms

-- `users.values().flat_map(|m| m.values().copied())`
unfoldable pub used_slots : Users → List ℕ
unfolding concat_values
used_slots users = concat_values (values users)

-- `for s in 0..cap`, with the rounds that are left and the next slot.
unfoldable pub first_free : ℕ → ℕ → List ℕ → Option ℕ
first_free zero s used = none
first_free (suc left) s used =
    let rest = first_free left (s + 1) used in if not (contains s used) then some s else rest

unfoldable pub allocate_slot : Storage → Result StorageError ℕ
allocate_slot st =
    ok_or (first_free (min st.capacity 256) 0 (used_slots st.users)) (no_free_slot st.capacity)

-- `save` where no other saving overlaps it: the snapshot of the registry is what is written. The registry in memory stays as
-- it is, also when the file could not be replaced.
after_replace : Storage → Done ℕ × Disk → Done StorageError × Storage
after_replace st (ok u, d) = (ok tt, record st { disk = d })
after_replace st (err e, d) = (err (io e), record st { disk = d })

save_encoded : Trial → Storage → Result ℕ Bytes → Done StorageError × Storage
save_encoded t st (err e) = (err (parse e), st)
save_encoded t st (ok bytes) = after_replace st (replace_file t bytes st.disk)

unfoldable pub save : Codec → Trial → Storage → Done StorageError × Storage
unfolding save_encoded after_replace
save c t st = save_encoded t st (c.encode st.users)

-- The entry API: `entry(username).or_default().insert(finger, slot)`.
unfoldable pub put_slot : Bytes → Bytes → ℕ → Users → Users
put_slot username finger slot users =
    insert username (insert finger slot (or_empty (lookup username users))) users

unfoldable pub set_slot : Codec → Trial → Storage → Bytes → Bytes → ℕ → Done StorageError × Storage
set_slot c t st username finger slot =
    save c t (record st { users = put_slot username finger slot st.users })

-- A user without fingers is dropped.
drop_if_empty : Bytes → Map ℕ → Users → Users
drop_if_empty username [] users = erase username users
drop_if_empty username (e ∷ m) users = insert username (e ∷ m) users

remove_in : Bytes → Bytes → Users → Option (Map ℕ) → Users
remove_in username finger users none = users
remove_in username finger users (some m) = drop_if_empty username (erase finger m) users

unfoldable pub take_finger : Bytes → Bytes → Users → Users
unfolding drop_if_empty remove_in
take_finger username finger users = remove_in username finger users (lookup username users)

after_save : Option ℕ → Done StorageError × Storage → Result StorageError (Option ℕ) × Storage
after_save removed (ok u, st) = (ok removed, st)
after_save removed (err e, st) = (err e, st)

unfoldable pub remove_finger :
    Codec → Trial → Storage → Bytes → Bytes → Result StorageError (Option ℕ) × Storage
unfolding after_save
remove_finger c t st username finger =
    after_save (slot_of st.users username finger)
      (save c t (record st { users = take_finger username finger st.users }))

decoded : Result ℕ Users → Result StorageError Users
decoded (ok users) = ok users
decoded (err e) = err (parse e)

-- What `open` reads of a path that exists.
read_registry : Codec → Outcome → Outcome → File → Result StorageError Users
read_registry c (failed e) r f = err (io e)
read_registry c done (failed e) f =
    if not (f.mode == private_mode) then err (insecure_mode f.mode) else err (io e)
read_registry c done done f =
    if not (f.mode == private_mode)
    then err (insecure_mode f.mode)
    else decoded (c.decode f.content)

unfoldable pub load_registry : Codec → Outcome → Outcome → Option File → Result StorageError Users
unfolding read_registry decoded
load_registry c stat read none = ok []
load_registry c stat read (some f) = read_registry c stat read f

open_loaded :
    Codec → Trial → ℕ → Disk → Result StorageError Users → Result StorageError Storage × Disk
open_loaded c t capacity d (err e) = (err e, d)
open_loaded c t capacity d (ok users) =
    let saved = save c t (record { capacity = capacity; users = users; disk = d }) in
    (elim (saved.0) [ ok u ↦ ok (saved.1) | err e ↦ err e ], (saved.1).disk)

-- `Storage::open`, with what `create_dir_all`, `metadata`, `read` and the calls of the save do.
unfoldable pub open_registry :
    Codec → Outcome → Outcome → Outcome → Trial → ℕ → Disk → Result StorageError Storage × Disk
unfolding open_loaded
open_registry c (failed e) stat read t capacity d = (err (io e), d)
open_registry c done stat read t capacity d =
    open_loaded c t capacity d (load_registry c stat read d.target)
