-- ===== src/Storage/Exclusive.antt =====
-- The registry of pcside/daemon/src/storage.rs never gives one slot to two fingers.
use linux_fingerprint_r.Prelude.{
  ℕ, true, false, ◌&&◌, &&-eq-true, ◌≡◌, ◌≢◌, refl, sym, ap, ◌∙◌, inl, inr, ◌⊎◌, Bool-cases, none,
  some, List, [], ◌∷◌, ◌++◌, Bytes, eq, eq_sound, Map, lookup, values, if◌then◌else◌, arith,
}
use linux_fingerprint_r.Storage.{
  finger_in, concat_values, Users, contains, used_slots, slot_of, put_slot, take_finger,
}
use linux_fingerprint_r.Storage.Slots.{slot_of-put_slot, slot_of-take_finger}

true_apart : true ≢ false
true_apart e = cc e

some_injective : (a b : ℕ) → some a ≡ some b → a ≡ b
some_injective a b e = cc e

none_apart : (s : ℕ) → some s ≢ none
none_apart s e = cc e

-- A slot that some finger has is among the used ones.
contains-append_left : (s : ℕ) (a b : List ℕ) → contains s a ≡ true → contains s (a ++ b) ≡ true
unfolding contains
contains-append_left s [] b h = cc
contains-append_left s (x ∷ a) b h = ground (arith, contains-append_left s a b)

contains-append_right : (s : ℕ) (a b : List ℕ) → contains s b ≡ true → contains s (a ++ b) ≡ true
unfolding contains
contains-append_right s [] b h = h
contains-append_right s (x ∷ a) b h = ground (arith, contains-append_right s a b)

contains-values :
    (f : Bytes) (s : ℕ) (m : Map ℕ) → lookup f m ≡ some s → contains s (values m) ≡ true
unfolding contains lookup values
contains-values f s [] h = cc
contains-values f s ((g, t) ∷ m) h = ground (arith, contains-values f s m, some_injective t s)

used_slots-slot_of :
    (users : Users) (u f : Bytes) (s : ℕ)
    → slot_of users u f ≡ some s
    → contains s (used_slots users) ≡ true
unfolding slot_of finger_in lookup used_slots concat_values values
used_slots-slot_of [] u f s h = cc
used_slots-slot_of ((v, m) ∷ users) u f s h = elim (Bool-cases (eq u v)) [
  | inl p ↦
      contains-append_left s (values m) (concat_values (values users))
        (contains-values f s m (rw p at h))
  | inr p ↦
      contains-append_right s (values m) (concat_values (values users))
        (used_slots-slot_of users u f s (rw p at h))
]

-- No two fingers have one slot.
abbrev pub IsExclusive : Users → Type 0
IsExclusive users =
    (u f v g : Bytes) (s : ℕ)
    → slot_of users u f ≡ some s
    → slot_of users v g ≡ some s
    → (u ≡ v) × (f ≡ g)

-- Where a finger's slot comes from.
put_origin :
    (users : Users) (u f v g : Bytes) (slot s : ℕ)
    → slot_of (put_slot u f slot users) v g ≡ some s
    → ((v ≡ u) × (g ≡ f) × (slot ≡ s)) ⊎ (slot_of users v g ≡ some s)
put_origin users u f v g slot s e =
    let known : (if eq v u && eq g f then some slot else slot_of users v g) ≡ some s =
      sym (slot_of-put_slot users u f v g slot) ∙ e in
    elim (Bool-cases (eq v u && eq g f)) [
      | inl p ↦
          let (a, b) = &&-eq-true (eq v u) (eq g f) p in
          inl (eq_sound v u a, eq_sound g f b, some_injective slot s (rw p at known))
      | inr p ↦ inr (rw p at known)
    ]

take_origin :
    (users : Users) (u f v g : Bytes) (s : ℕ)
    → slot_of (take_finger u f users) v g ≡ some s
    → slot_of users v g ≡ some s
take_origin users u f v g s e =
    let known : (if eq v u && eq g f then none else slot_of users v g) ≡ some s =
      sym (slot_of-take_finger users u f v g) ∙ e in
    elim (Bool-cases (eq v u && eq g f)) [
      | inl p ↦ absurd (none_apart s (sym (rw p at known)))
      | inr p ↦ rw p at known
    ]

taken :
    (users : Users) (v g : Bytes) (slot s : ℕ)
    → slot ≡ s
    → slot_of users v g ≡ some s
    → contains slot (used_slots users) ≢ false
taken users v g slot s c here free = true_apart (
    sym (used_slots-slot_of users v g s here)
    ∙ ap (λ (t : ℕ). contains t (used_slots users)) (sym c)
    ∙ free)

-- Where no two fingers have one slot and a free slot is given to a finger, no two fingers have one slot
-- afterwards, of one user or of two.
pub put_slot-IsExclusive :
    (users : Users) (u f : Bytes) (slot : ℕ)
    → IsExclusive users
    → contains slot (used_slots users) ≡ false
    → IsExclusive (put_slot u f slot users)
put_slot-IsExclusive users u f slot h free v g w k s e d =
    elim (put_origin users u f v g slot s e) [
      | inl (a, b, c) ↦ elim (put_origin users u f w k slot s d) [
        | inl (a2, b2, c2) ↦ (a ∙ sym a2, b ∙ sym b2)
        | inr there ↦ absurd (taken users w k slot s c there free)
      ]
      | inr here ↦ elim (put_origin users u f w k slot s d) [
        | inl (a2, b2, c2) ↦ absurd (taken users v g slot s c2 here free)
        | inr there ↦ h v g w k s here there
      ]
    ]

-- No finger but this one has the slot.
abbrev pub IsReserved : Bytes → Bytes → ℕ → Users → Type 0
IsReserved u f slot users = (v g : Bytes) → slot_of users v g ≡ some slot → (v ≡ u) × (g ≡ f)

-- A slot that is used by the finger itself, or by none, is reserved for it.
pub own-IsReserved :
    (users : Users) (u f : Bytes) (slot : ℕ)
    → IsExclusive users
    → slot_of users u f ≡ some slot
    → IsReserved u f slot users
own-IsReserved users u f slot h own v g e = h v g u f slot e own

pub free-IsReserved :
    (users : Users) (u f : Bytes) (slot : ℕ)
    → contains slot (used_slots users) ≡ false
    → IsReserved u f slot users
free-IsReserved users u f slot free v g e = absurd (taken users v g slot slot refl e free)

pub take_finger-IsReserved :
    (users : Users) (u f v g : Bytes) (slot : ℕ)
    → IsReserved u f slot users
    → IsReserved u f slot (take_finger v g users)
take_finger-IsReserved users u f v g slot h w k e = h w k (take_origin users v g w k slot e)

-- A reserved slot is given to its finger without a clash.
pub put_reserved-IsExclusive :
    (users : Users) (u f : Bytes) (slot : ℕ)
    → IsExclusive users
    → IsReserved u f slot users
    → IsExclusive (put_slot u f slot users)
put_reserved-IsExclusive users u f slot h only v g w k s e d =
    elim (put_origin users u f v g slot s e) [
      | inl (a, b, c) ↦ elim (put_origin users u f w k slot s d) [
        | inl (a2, b2, c2) ↦ (a ∙ sym a2, b ∙ sym b2)
        | inr there ↦ let (x, y) = only w k (there ∙ ap some (sym c)) in (a ∙ sym x, b ∙ sym y)
      ]
      | inr here ↦ elim (put_origin users u f w k slot s d) [
        | inl (a2, b2, c2) ↦
            let (x, y) = only v g (here ∙ ap some (sym c2)) in (x ∙ sym a2, y ∙ sym b2)
        | inr there ↦ h v g w k s here there
      ]
    ]

-- Where no two fingers have one slot, none have after a finger is removed.
pub take_finger-IsExclusive :
    (users : Users) (u f : Bytes) → IsExclusive users → IsExclusive (take_finger u f users)
take_finger-IsExclusive users u f h v g w k s e d =
    h v g w k s (take_origin users u f v g s e) (take_origin users u f w k s d)
