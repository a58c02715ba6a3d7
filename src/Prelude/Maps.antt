-- ===== src/Prelude/Maps.antt =====
-- A `HashMap` with text keys as an association list.
use mathlib.Core.Path.{◌≡◌, refl, sym, ap, ◌∙◌}
use mathlib.Core.Bool.{Bool, true, false}
use mathlib.Core.List.{List, [], ◌∷◌}
use mathlib.Core.Option.{Option, none, some}
use mathlib.Core.Logic.{◌≢◌, inl, inr}
use linux_fingerprint_r.Prelude.Tests.{if◌then◌else◌, Bool-cases}
use linux_fingerprint_r.Prelude.Texts.{Bytes, eq, eq_sound}

abbrev pub Map {ℓ} : Type ℓ → Type ℓ
Map A = List (Bytes × A)

clash : ◌≢◌ {A = Bool} false true
clash e = cc e

-- Two tests against one key.
eq_same : (k i j : Bytes) → eq k i ≡ true → eq j k ≡ eq j i
eq_same k i j h = ap (eq j) (eq_sound k i h)

eq_apart : (k i j : Bytes) → eq k i ≡ false → eq j i ≡ true → eq j k ≡ false
eq_apart k i j h g = elim (Bool-cases (eq j k)) [
  | inl p ↦ absurd (clash (sym h ∙ ap (λ (t : Bytes). eq t i) (sym (eq_sound j k p)) ∙ g))
  | inr p ↦ p
]

module _ {ℓ} {A : Type ℓ} where
  unfoldable pub lookup : Bytes → Map A → Option A
  lookup k [] = none
  lookup k ((j, v) ∷ m) = if eq k j then some v else lookup k m

  unfoldable pub insert : Bytes → A → Map A → Map A
  insert k v [] = (k, v) ∷ []
  insert k v ((j, w) ∷ m) = let rest = insert k v m in if eq k j then (j, v) ∷ m else (j, w) ∷ rest

  unfoldable pub erase : Bytes → Map A → Map A
  erase k [] = []
  erase k ((j, w) ∷ m) = let rest = erase k m in if eq k j then rest else (j, w) ∷ rest

  unfoldable pub keys : Map A → List Bytes
  keys [] = []
  keys ((j, w) ∷ m) = j ∷ keys m

  unfoldable pub values : Map A → List A
  values [] = []
  values ((j, w) ∷ m) = w ∷ values m

  abbrev pub is_some : Option A → Bool
  is_some none = false
  is_some (some v) = true

  pub lookup-insert :
      (k j : Bytes) (v : A) (m : Map A)
      → lookup j (insert k v m) ≡ (if eq j k then some v else lookup j m)
  unfolding lookup insert
  lookup-insert k j v [] = refl
  lookup-insert k j v ((i, w) ∷ m) = elim (Bool-cases (eq k i)) [
    | inl p ↦ elim (Bool-cases (eq j i)) [
      | inl q ↦ rw (p, eq_same k i j p, q)
      | inr q ↦ rw (p, eq_same k i j p, q)
    ]
    | inr p ↦ elim (Bool-cases (eq j i)) [
      | inl q ↦ rw (p, eq_apart k i j p q, q)
      | inr q ↦ rw (p, q, lookup-insert k j v m)
    ]
  ]

  pub lookup-erase :
      (k j : Bytes) (m : Map A) → lookup j (erase k m) ≡ (if eq j k then none else lookup j m)
  unfolding lookup erase
  lookup-erase k j [] = elim (Bool-cases (eq j k)) [ inl p ↦ rw p | inr p ↦ rw p ]
  lookup-erase k j ((i, w) ∷ m) = elim (Bool-cases (eq k i)) [
    | inl p ↦ elim (Bool-cases (eq j i)) [
      | inl q ↦ rw (p, lookup-erase k j m, eq_same k i j p, q)
      | inr q ↦ rw (p, lookup-erase k j m, eq_same k i j p, q)
    ]
    | inr p ↦ elim (Bool-cases (eq j i)) [
      | inl q ↦ rw (p, eq_apart k i j p q, q)
      | inr q ↦ rw (p, q, lookup-erase k j m)
    ]
  ]
