-- ===== src/Service/Deletions.antt =====
-- delete_user_fingers and delete_enrolled_finger of pcside/daemon/src/dbus_iface.rs behind their gate.
use linux_fingerprint_r.Prelude.{
  ℕ, Bool, if◌then◌else◌, Option, none, some, List, [], ◌∷◌, ◌++◌, Bytes,
}
use linux_fingerprint_r.Device.{end_action_if_owner}
use linux_fingerprint_r.Disk.{Trial}
use linux_fingerprint_r.Storage.{Codec, remove_finger}
use linux_fingerprint_r.Service.State.{Deletion, Service, remove_at, set_at}

-- The sensor's answer for the next finger; only a slot that it has deleted leaves the registry.
unfoldable pub take_answer : ℕ → Bool → Deletion → List Bytes → Service → Service
take_answer i deleted d [] s = s
take_answer i deleted d (finger ∷ asked) s =
    let done_with = if deleted then d.succeeded ++ finger ∷ [] else d.succeeded in
    record s {
      deletions = set_at i (record d { asked = asked; succeeded = done_with }) s.deletions;
    }

unfoldable pub answer_deletion : ℕ → Bool → Option Deletion → Service → Service
answer_deletion i deleted none s = s
answer_deletion i deleted (some d) s = take_answer i deleted d d.asked s

-- The registry's turn comes behind the last answer.
unfoldable pub remove_next :
    Codec → Trial → ℕ → Deletion → List Bytes → List Bytes → Service → Service
remove_next c t i d (finger ∷ asked) succeeded s = s
remove_next c t i d [] [] s = s
remove_next c t i d [] (finger ∷ succeeded) s = record s {
  storage = (remove_finger c t s.storage d.owner finger).1;
  deletions = set_at i (record d { succeeded = succeeded }) s.deletions;
}

unfoldable pub remove_row : Codec → Trial → ℕ → Option Deletion → Service → Service
remove_row c t i none s = s
remove_row c t i (some d) s = remove_next c t i d d.asked d.succeeded s

unfoldable pub end_deletion : ℕ → Deletion → List Bytes → List Bytes → Service → Service
end_deletion i d (finger ∷ asked) succeeded s = s
end_deletion i d [] (finger ∷ succeeded) s = s
end_deletion i d [] [] s = record s {
  device = (end_action_if_owner d.token s.device).1;
  deletions = remove_at i s.deletions;
}

unfoldable pub finish_deletion : ℕ → Option Deletion → Service → Service
finish_deletion i none s = s
finish_deletion i (some d) s = end_deletion i d d.asked d.succeeded s
