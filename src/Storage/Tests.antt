-- ===== src/Storage/Tests.antt =====
-- The registry of pcside/daemon/src/storage.rs at concrete inputs.
use linux_fingerprint_r.Prelude.{
  ℕ, ◌&&◌, ◌≡◌, ◌≢◌, ◌∙◌, insert, refl, sym, ap, false, if◌then◌else◌, eq, some, none, [], ◌∷◌,
  ◌++◌, Bytes, codes, Result, ok, err, values, keys, lookup, take, drop, length, take-append,
  drop-append,
}
use linux_fingerprint_r.Disk.{
  Disk, Trial, replace_file, open_tmp, write_tmp, sync_tmp, rename_tmp, done,
}
use linux_fingerprint_r.Storage.{
  Storage, Codec, Users, no_free_slot, slot_of, put_slot, allocate_slot, used_slots, contains,
  set_slot, load_registry, list_fingers, sort, insert_sorted, name_le, or_empty, save, first_free,
  finger_in,
}
use linux_fingerprint_r.Storage.Exclusive.{IsExclusive, put_slot-IsExclusive}
use linux_fingerprint_r.Storage.Saving.{IsFaithful, set_slot-load_registry}

abbrev alice : Bytes
alice = codes "alice"

abbrev bob : Bytes
bob = codes "bob"

abbrev thumb : Bytes
thumb = codes "left-thumb"

abbrev index : Bytes
index = codes "right-index-finger"

abbrev two_users : Users
two_users = (alice, (thumb, 0) ∷ (index, 2) ∷ []) ∷ (bob, (thumb, 1) ∷ []) ∷ []

abbrev empty_disk : Disk
empty_disk = record { target = none; tmp = none }

abbrev roomy : Storage
roomy = record { capacity = 200; users = two_users; disk = empty_disk }

abbrev full : Storage
full = record { capacity = 3; users = two_users; disk = empty_disk }

lists_alice : list_fingers roomy alice ≡ thumb ∷ index ∷ []
unfolding list_fingers sort insert_sorted name_le keys lookup or_empty eq
lists_alice = refl

gives_three : allocate_slot roomy ≡ ok 3
unfolding allocate_slot first_free used_slots contains values
gives_three = refl

gives_none : allocate_slot full ≡ err (no_free_slot 3)
unfolding allocate_slot first_free used_slots contains values
gives_none = refl

none_used : IsExclusive []
unfolding slot_of finger_in lookup
none_used u f v g s h k = cc h

free_at_first : contains 0 (used_slots []) ≡ false
unfolding used_slots contains values
free_at_first = refl

put_slot-IsExclusive_example : IsExclusive (put_slot alice thumb 0 [])
put_slot-IsExclusive_example = put_slot-IsExclusive [] alice thumb 0 none_used free_at_first

-- A serializer that can write a registry of one finger only: slot, length of the name, the two names.
encode_one : Users → Result ℕ Bytes
encode_one [] = err 0
encode_one ((u, []) ∷ users) = err 0
encode_one ((u, (f, s) ∷ []) ∷ []) = ok (s ∷ length u ∷ (u ++ f))
encode_one ((u, (f, s) ∷ []) ∷ v ∷ users) = err 0
encode_one ((u, (f, s) ∷ e ∷ m) ∷ users) = err 0

decode_one : Bytes → Result ℕ Users
decode_one [] = err 0
decode_one (s ∷ []) = err 0
decode_one (s ∷ n ∷ names) = ok ((take n names, (drop n names, s) ∷ []) ∷ [])

abbrev one_finger : Codec
one_finger = record { encode = encode_one; decode = decode_one }

text_of : (a b : Bytes) → ◌≡◌ {A = Result ℕ Bytes} (ok a) (ok b) → a ≡ b
text_of a b h = cc h

not_written : (b : Bytes) → ◌≢◌ {A = Result ℕ Bytes} (err 0) (ok b)
not_written b h = cc h

one_finger-IsFaithful : IsFaithful one_finger
unfolding encode_one decode_one
one_finger-IsFaithful [] bytes h = absurd (not_written bytes h)
one_finger-IsFaithful ((u, []) ∷ users) bytes h = absurd (not_written bytes h)
one_finger-IsFaithful ((u, (f, s) ∷ []) ∷ v ∷ users) bytes h = absurd (not_written bytes h)
one_finger-IsFaithful ((u, (f, s) ∷ e ∷ m) ∷ users) bytes h = absurd (not_written bytes h)
one_finger-IsFaithful ((u, (f, s) ∷ []) ∷ []) bytes h = (
  (u, (f, s) ∷ []) ∷ [],
  ap decode_one (sym (text_of (s ∷ length u ∷ (u ++ f)) bytes h))
      ∙ (λ i. ok ((take-append u f refl i, (drop-append u f refl i, s) ∷ []) ∷ [])),
  λ v g. refl,
)

abbrev all_done : Trial
all_done = record { opened = done; wrote = done; partly = 0; synced = done; renamed = done }

abbrev no_user : Storage
no_user = record { capacity = 200; users = []; disk = empty_disk }

saves : (set_slot one_finger all_done no_user alice thumb 0).0 ≡ ok tt
unfolding set_slot save put_slot or_empty insert lookup encode_one replace_file open_tmp write_tmp
    sync_tmp rename_tmp
saves = refl

set_slot-load_registry_example :
    (read : Users) × (load_registry one_finger done done
        (((set_slot one_finger all_done no_user alice thumb 0).1).disk).target
      ≡ ok read)
    × ((v g : Bytes)
        → slot_of read v g ≡ (if eq v alice && eq g thumb then some 0 else slot_of [] v g))
set_slot-load_registry_example =
    set_slot-load_registry one_finger all_done no_user alice thumb 0 one_finger-IsFaithful refl
      saves
