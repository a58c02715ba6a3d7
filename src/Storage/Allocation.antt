-- ===== src/Storage/Allocation.antt =====
-- The slots that pcside/daemon/src/storage.rs gives out.
use linux_fingerprint_r.Prelude.{
  ℕ, zero, suc, ◌+◌, min, ◌≤◌, ◌<◌, true, false, ◌≡◌, ◌≢◌, inl, inr, ◌⊎◌, subst, Bool-cases, refl,
  Option, none, some, List, ok, err, ok_or, arith,
}
use linux_fingerprint_r.Storage.{
  StorageError, Storage, contains, first_free, used_slots, allocate_slot, no_free_slot,
}

some_injective : (a b : ℕ) → some a ≡ some b → a ≡ b
some_injective a b e = cc e

none_apart : (s : ℕ) → some s ≢ none
none_apart s e = cc e

here_or_later : (s t : ℕ) → s ≤ t → (s ≡ t) ⊎ (s < t)
here_or_later s t h = omega arith

-- The first free slot is free, is in range, and all below it are used.
first_free-some :
    (left s slot : ℕ) (used : List ℕ)
    → first_free left s used ≡ some slot
    → (s ≤ slot)
      × (slot < s + left)
      × (contains slot used ≡ false)
      × ((t : ℕ) → s ≤ t → t < slot → contains t used ≡ true)
unfolding first_free
first_free-some zero s slot used e = cc
first_free-some (suc left) s slot used e = elim (Bool-cases (contains s used)) [
  | inl p ↦
      (let (low, high, free, below) = first_free-some left (s + 1) slot used (rw p at e) in
        (
          omega arith,
          omega arith,
          free,
          λ t h k. elim (here_or_later s t h) [
            | inl q ↦ subst (λ (x : ℕ). contains x used ≡ true) q p
            | inr q ↦ below t (omega arith) k
          ],
        ))
  | inr p ↦
      let same : s ≡ slot = some_injective s slot (rw p at e) in
      (
        omega arith,
        omega arith,
        subst (λ (x : ℕ). contains x used ≡ false) same p,
        λ t h k. absurd (omega arith),
      )
]

first_free-none :
    (left s : ℕ) (used : List ℕ)
    → first_free left s used ≡ none
    → (t : ℕ) → s ≤ t
    → t < s + left
    → contains t used ≡ true
unfolding first_free
first_free-none zero s used e t h k = absurd (omega arith)
first_free-none (suc left) s used e t h k = elim (Bool-cases (contains s used)) [
  | inl p ↦ elim (here_or_later s t h) [
    | inl q ↦ subst (λ (x : ℕ). contains x used ≡ true) q p
    | inr q ↦ first_free-none left (s + 1) used (rw p at e) t (omega arith) (omega arith)
  ]
  | inr p ↦ absurd (none_apart s (rw p at e))
]

-- What the allocation can end in: the lowest slot within the capacity and within a byte that no finger has; or an
-- error, where every such slot is some finger's.
abbrev pub Lowest : Storage → ℕ → Type 0
Lowest st slot =
    (slot < st.capacity)
    × (slot < 256)
    × (contains slot (used_slots st.users) ≡ false)
    × ((t : ℕ) → t < slot → contains t (used_slots st.users) ≡ true)

abbrev pub IsFull : Storage → Type 0
IsFull st = (t : ℕ) → t < st.capacity → t < 256 → contains t (used_slots st.users) ≡ true

found-cases :
    (st : Storage) (o : Option ℕ)
    → first_free (min st.capacity 256) 0 (used_slots st.users) ≡ o
    → ((slot : ℕ) × (ok_or o (no_free_slot st.capacity) ≡ ok slot) × Lowest st slot)
      ⊎ ((ok_or o (no_free_slot st.capacity) ≡ err (no_free_slot st.capacity)) × IsFull st)
found-cases st (some slot) e =
    let (low, high, free, below) =
      first_free-some (min st.capacity 256) 0 slot (used_slots st.users) e in
    inl (slot, refl, (omega arith, omega arith, free, λ t h. below t (omega arith) h))
found-cases st none e = inr (
  refl,
  λ t k l.
      first_free-none (min st.capacity 256) 0 (used_slots st.users) e t (omega arith) (omega arith),
)

pub allocate_slot-least :
    (st : Storage)
    → ((slot : ℕ) × (allocate_slot st ≡ ok slot) × Lowest st slot)
      ⊎ ((allocate_slot st ≡ err (no_free_slot st.capacity)) × IsFull st)
unfolding allocate_slot
allocate_slot-least st =
    found-cases st (first_free (min st.capacity 256) 0 (used_slots st.users)) refl

ok_apart :
    (st : Storage) (e : StorageError) (slot : ℕ)
    → allocate_slot st ≡ err e
    → allocate_slot st ≢ ok slot
ok_apart st e slot h k = cc (h, k)

same_slot : (st : Storage) (a b : ℕ) → allocate_slot st ≡ ok a → allocate_slot st ≡ ok b → a ≡ b
same_slot st a b h k = cc (h, k)

pub allocate_slot-Lowest : (st : Storage) (slot : ℕ) → allocate_slot st ≡ ok slot → Lowest st slot
allocate_slot-Lowest st slot h = elim (allocate_slot-least st) [
  | inl (found, e, lowest) ↦ subst (Lowest st) (same_slot st found slot e h) lowest
  | inr (e, full) ↦ absurd (ok_apart st _ slot e h)
]
