-- ===== src/Storage/Slots.antt =====
-- What the changes of the registry in pcside/daemon/src/storage.rs do to the slot of every finger.
use linux_fingerprint_r.Prelude.{
  ℕ, Bool, true, false, ◌&&◌, ◌≡◌, refl, ap, ◌∙◌, inl, inr, Bool-cases, Option, none, some, [], ◌∷◌,
  Bytes, eq, eq_sound, Map, lookup, insert, erase, lookup-insert, lookup-erase, if◌then◌else◌,
}
use linux_fingerprint_r.Storage.{
  Users, or_empty, slot_of, finger_in, remove_in, put_slot, take_finger, drop_if_empty,
}

finger_in-if :
    (b : Bool) (o p : Option (Map ℕ)) (f : Bytes)
    → finger_in (if b then o else p) f ≡ (if b then finger_in o f else finger_in p f)
finger_in-if true o p f = refl
finger_in-if false o p f = refl

finger_in_lem : (g : Bytes) → finger_in none g ≡ none
unfolding finger_in
finger_in_lem g = refl

finger_in-some : (m : Map ℕ) (g : Bytes) → finger_in (some m) g ≡ lookup g m
unfolding finger_in
finger_in-some m g = refl

slot_of-insert :
    (users : Users) (u v f : Bytes) (m : Map ℕ)
    → slot_of (insert u m users) v f ≡ (if eq v u then lookup f m else slot_of users v f)
unfolding slot_of finger_in
slot_of-insert users u v f m =
    ap (λ o. finger_in o f) (lookup-insert u v m users)
    ∙ finger_in-if (eq v u) (some m) (lookup v users) f

slot_of-erase :
    (users : Users) (u v f : Bytes)
    → slot_of (erase u users) v f ≡ (if eq v u then none else slot_of users v f)
unfolding slot_of finger_in
slot_of-erase users u v f =
    ap (λ o. finger_in o f) (lookup-erase u v users) ∙ finger_in-if (eq v u) none (lookup v users) f

-- The slots of a user are those of the map that stands for the user.
lookup-or_empty : (o : Option (Map ℕ)) (f : Bytes) → lookup f (or_empty o) ≡ finger_in o f
unfolding or_empty finger_in lookup
lookup-or_empty none f = refl
lookup-or_empty (some m) f = refl

slot_of_lem : (users : Users) (u f : Bytes) → slot_of users u f ≡ finger_in (lookup u users) f
unfolding slot_of
slot_of_lem users u f = refl

slot_of-drop_if_empty :
    (users : Users) (u v g : Bytes) (m : Map ℕ)
    → slot_of (drop_if_empty u m users) v g ≡ (if eq v u then lookup g m else slot_of users v g)
unfolding drop_if_empty lookup
slot_of-drop_if_empty users u v g [] = slot_of-erase users u v g
slot_of-drop_if_empty users u v g (e ∷ m) = slot_of-insert users u v g (e ∷ m)

slot_of-user :
    (users : Users) (u v f : Bytes) → eq v u ≡ true → slot_of users v f ≡ slot_of users u f
slot_of-user users u v f p = ap (λ (w : Bytes). slot_of users w f) (eq_sound v u p)

-- After a slot is set, that finger of that user has it, and every other finger of every user what it
-- had.
pub slot_of-put_slot :
    (users : Users) (u f v g : Bytes) (slot : ℕ)
    → slot_of (put_slot u f slot users) v g
      ≡ (if eq v u && eq g f then some slot else slot_of users v g)
unfolding put_slot
slot_of-put_slot users u f v g slot =
    slot_of-insert users u v g (insert f slot (or_empty (lookup u users)))
    ∙ elim (Bool-cases (eq v u)) [
      | inl p ↦ rw (
        p,
        lookup-insert f g slot (or_empty (lookup u users)),
        lookup-or_empty (lookup u users) g,
        slot_of-user users u v g p,
        slot_of_lem users u g,
      )
      | inr p ↦ rw p
    ]

slot_of-remove_in :
    (users : Users) (u f v g : Bytes) (o : Option (Map ℕ))
    → lookup u users ≡ o
    → slot_of (remove_in u f users o) v g ≡ (if eq v u && eq g f then none else slot_of users v g)
unfolding remove_in
slot_of-remove_in users u f v g none e = elim (Bool-cases (eq v u)) [
  | inl p ↦ elim (Bool-cases (eq g f)) [
    | inl q ↦ rw (p, q, slot_of-user users u v g p, slot_of_lem users u g, e, finger_in_lem g)
    | inr q ↦ rw (p, q)
  ]
  | inr p ↦ rw p
]
slot_of-remove_in users u f v g (some m) e =
    slot_of-drop_if_empty users u v g (erase f m) ∙ elim (Bool-cases (eq v u)) [
      | inl p ↦ rw (
        p,
        lookup-erase f g m,
        slot_of-user users u v g p,
        slot_of_lem users u g,
        e,
        finger_in-some m g,
      )
      | inr p ↦ rw p
    ]

-- After a finger is removed, that finger of that user has no slot, and every other finger of every user
-- has what it had.
pub slot_of-take_finger :
    (users : Users) (u f v g : Bytes)
    → slot_of (take_finger u f users) v g ≡ (if eq v u && eq g f then none else slot_of users v g)
unfolding take_finger
slot_of-take_finger users u f v g = slot_of-remove_in users u f v g (lookup u users) refl
