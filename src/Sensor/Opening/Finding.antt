-- ===== src/Sensor/Opening/Finding.antt =====
-- Which port find_port of pcside/daemon/src/sensor.rs takes.
use linux_fingerprint_r.Prelude.{
  ◌≡◌, ◌⊎◌, refl, sym, ap, inl, inr, Bool, true, false, Bool-cases, Option, none, some, List, [],
  ◌∷◌, ◌++◌, Bytes, codes, starts_with, All, ok, err, subst, arith, if◌then◌else◌,
}
use linux_fingerprint_r.Sensor.{no_device}
use linux_fingerprint_r.Sensor.Opening.{matching, least, first_match, or_match, find_port}
use linux_fingerprint_r.Storage.{name_le}

name_le_refl : (s : Bytes) → name_le s s ≡ true
unfolding name_le
name_le_refl [] = refl
name_le_refl (a ∷ s) = ground (arith, name_le_refl s)

name_le_total : (s t : Bytes) → name_le s t ≡ false → name_le t s ≡ true
unfolding name_le
name_le_total [] t h = absurd (cc h)
name_le_total (a ∷ s) [] h = refl
name_le_total (a ∷ s) (b ∷ t) h = ground (arith, name_le_total s t)

name_le_trans : (s t u : Bytes) → name_le s t ≡ true → name_le t u ≡ true → name_le s u ≡ true
unfolding name_le
name_le_trans [] t u h k = refl
name_le_trans (a ∷ s) [] u h k = absurd (cc h)
name_le_trans (a ∷ s) (b ∷ t) [] h k = absurd (cc k)
name_le_trans (a ∷ s) (b ∷ t) (c ∷ u) h k = ground (arith, name_le_trans s t u)

-- One of the names.
abbrev In : Bytes → List Bytes → Type 0
In name [] = ⊥
In name (n ∷ names) = (n ≡ name) ⊎ In name names

-- The least is one of the names, and below all of them.
abbrev IsLeast : Bytes → List Bytes → Type 0
IsLeast name names = In name names × All (λ n. name_le name n ≡ true) names

In-skip :
    (m name other : Bytes) (names : List Bytes) → In m (name ∷ names) → In m (name ∷ other ∷ names)
In-skip m name other names (inl e) = inl e
In-skip m name other names (inr i) = inr (inr i)

least-keep :
    (name other : Bytes) (names : List Bytes)
    → (name_le name other ≡ true → least name (other ∷ names) ≡ least name names)
      × (name_le name other ≡ false → least name (other ∷ names) ≡ least other names)
unfolding least
least-keep name other names = (
  λ e. ap (λ (b : Bool). least (if b then name else other) names) e,
  λ e. ap (λ (b : Bool). least (if b then name else other) names) e,
)

least-IsLeast : (name : Bytes) (names : List Bytes) → IsLeast (least name names) (name ∷ names)
unfolding least
least-IsLeast name [] = (inl refl, (name_le_refl name, tt))
least-IsLeast name (other ∷ names) = elim (Bool-cases (name_le name other)) [
  | inl e ↦
      let (there, (below, all)) = least-IsLeast name names in
      subst (λ (m : Bytes). IsLeast m (name ∷ other ∷ names))
        (sym ((least-keep name other names).0 e))
        (
          In-skip (least name names) name other names there,
          (below, (name_le_trans (least name names) name other below e, all)),
        )
  | inr e ↦
      let (there, (below, all)) = least-IsLeast other names in
      subst (λ (m : Bytes). IsLeast m (name ∷ other ∷ names))
        (sym ((least-keep name other names).1 e))
        (
          inr there,
          (
            name_le_trans (least other names) other name below (name_le_total name other e),
            (below, all),
          ),
        )
]

-- An entry with this name, which starts with the pattern.
abbrev pub Has : Bytes → Bytes → List (Option Bytes) → Type 0
Has pattern name [] = ⊥
Has pattern name (e ∷ entries) =
    ((e ≡ some name) × (starts_with pattern name ≡ true)) ⊎ Has pattern name entries

-- The entry does not match the pattern, or has a name that is not below this one.
abbrev pub NotBelow : Bytes → Bytes → Option Bytes → Type 0
NotBelow pattern name none = Unit
NotBelow pattern name (some other) =
    (starts_with pattern other ≡ false) ⊎ (name_le name other ≡ true)

abbrev pub Unmatched : Bytes → Option Bytes → Type 0
Unmatched pattern none = Unit
Unmatched pattern (some name) = starts_with pattern name ≡ false

In-first :
    (pattern name n : Bytes) (entries : List (Option Bytes))
    → starts_with pattern n ≡ true
    → (In name (matching pattern entries) → Has pattern name entries)
    → In name (n ∷ matching pattern entries)
    → Has pattern name (some n ∷ entries)
In-first pattern name n entries e f (inl same) = inl (ap some same, rw (← same) e)
In-first pattern name n entries e f (inr i) = inr (f i)

In-matching :
    (pattern name : Bytes) (entries : List (Option Bytes))
    → In name (matching pattern entries)
    → Has pattern name entries
unfolding matching
In-matching pattern name [] i = absurd i
In-matching pattern name (none ∷ entries) i = inr (In-matching pattern name entries i)
In-matching pattern name (some n ∷ entries) i = elim (Bool-cases (starts_with pattern n)) [
  | inl e ↦ In-first pattern name n entries e (In-matching pattern name entries) (rw e at i)
  | inr e ↦ inr (In-matching pattern name entries (rw e at i))
]

matching-NotBelow :
    (pattern name : Bytes) (entries : List (Option Bytes))
    → All (λ n. name_le name n ≡ true) (matching pattern entries)
    → All (NotBelow pattern name) entries
unfolding matching
matching-NotBelow pattern name [] h = tt
matching-NotBelow pattern name (none ∷ entries) h = (tt, matching-NotBelow pattern name entries h)
matching-NotBelow pattern name (some n ∷ entries) h = elim (Bool-cases (starts_with pattern n)) [
  | inl e ↦
      let k : All (λ n. name_le name n ≡ true) (n ∷ matching pattern entries) = rw e at h in
      (inr k.0, matching-NotBelow pattern name entries k.1)
  | inr e ↦ (inl e, matching-NotBelow pattern name entries (rw e at h))
]

matching-Unmatched :
    (pattern : Bytes) (entries : List (Option Bytes))
    → matching pattern entries ≡ []
    → All (Unmatched pattern) entries
unfolding matching
matching-Unmatched pattern [] h = tt
matching-Unmatched pattern (none ∷ entries) h = (tt, matching-Unmatched pattern entries h)
matching-Unmatched pattern (some n ∷ entries) h = elim (Bool-cases (starts_with pattern n)) [
  | inl e ↦ absurd (cc (rw e at h))
  | inr e ↦ (e, matching-Unmatched pattern entries (rw e at h))
]

-- The port is that of the least name which starts with the pattern.
abbrev pub Least : Bytes → List (Option Bytes) → Bytes → Type 0
Least pattern entries port =
    (name : Bytes) × (port ≡ codes "/dev/" ++ name)
    × Has pattern name entries
    × All (NotBelow pattern name) entries

first_match-cases :
    (pattern : Bytes) (entries : List (Option Bytes)) (names : List Bytes)
    → matching pattern entries ≡ names
    → ((port : Bytes) × (first_match names ≡ some port) × Least pattern entries port)
      ⊎ ((first_match names ≡ none) × All (Unmatched pattern) entries)
unfolding first_match
first_match-cases pattern entries [] h = inr (refl, matching-Unmatched pattern entries h)
first_match-cases pattern entries (name ∷ names) h =
    let (there, all) = least-IsLeast name names in
    inl (
      _,
      refl,
      (
        least name names,
        refl,
        In-matching pattern (least name names) entries (rw h there),
        matching-NotBelow pattern (least name names) entries (rw h all),
      ),
    )

-- Without the link /dev/r503 the port is that of the least name among the entries that start with ttyACM, and
-- where there is none, among those that start with ttyUSB; where there is none either, the error is
-- that there is no device. The order of the entries makes no difference.
pub find_port-Least :
    (acm usb : List (Option Bytes))
    → ((port : Bytes) × (find_port false acm usb ≡ ok port)
        × (Least (codes "ttyACM") acm port
            ⊎ (All (Unmatched (codes "ttyACM")) acm × Least (codes "ttyUSB") usb port)))
      ⊎ ((find_port false acm usb ≡ err no_device)
          × All (Unmatched (codes "ttyACM")) acm
          × All (Unmatched (codes "ttyUSB")) usb)
unfolding find_port or_match
find_port-Least acm usb = elim (first_match-cases (codes "ttyACM") acm _ refl) [
  | inl (port, found, least) ↦ inl (port, rw found refl, inl least)
  | inr (absent, other) ↦ elim (first_match-cases (codes "ttyUSB") usb _ refl) [
    | inl (port, found, least) ↦ inl (port, rw (absent, found) refl, inr (other, least))
    | inr (missing, none_else) ↦ inr (rw (absent, missing) refl, other, none_else)
  ]
]
