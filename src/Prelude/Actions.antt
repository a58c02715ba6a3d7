-- ===== src/Prelude/Actions.antt =====
-- Actions on a state that may fail: `?` of Rust as bind, with the state of the moment of the failure.
use mathlib.Core.Path.{◌≡◌, refl}
use linux_fingerprint_r.Prelude.Results.{Result, ok, err}

abbrev pub Action : Type 0 → Type 0 → Type 0 → Type 0
Action W E A = W → Result E A × W

module _ {W E A B : Type 0} where
  unfoldable pub and_then : Result E A × W → (A → Action W E B) → Result E B × W
  and_then (ok a, w) next = next a w
  and_then (err e, w) next = (err e, w)

module _ {W E A : Type 0} where
  abbrev pub return : A → Action W E A
  return a w = (ok a, w)

  abbrev pub lift : Result E A → Action W E A
  lift r w = (r, w)

  -- A closure that is run at once, and its result kept.
  abbrev pub attempt : Action W E A → Action W E (Result E A)
  attempt m w = (ok (m w).0, (m w).1)

  -- `.ok()` on a result that nothing uses
  abbrev pub ignore : Action W E A → Action W E (Unit {0})
  ignore m w = (ok tt, (m w).1)

-- What success of a sequence says of its parts.
pub and_then-eq-ok :
    {W E A B : Type 0} (r : Result E A × W) (next : A → Action W E B) {b : B}
    → (and_then r next).0 ≡ ok b
    → (a : A) × (r.0 ≡ ok a) × ((next a r.1).0 ≡ ok b)
unfolding and_then
and_then-eq-ok (ok a, w) next h = (a, refl, h)
and_then-eq-ok (err e, w) next h = cc h

-- A sequence that succeeds goes on from its first part, with the state of that.
pub and_then-goes_on :
    {W E A B : Type 0} (r : Result E A × W) (next : A → Action W E B) {b : B}
    → (and_then r next).0 ≡ ok b
    → (a : A) × (r.0 ≡ ok a) × ((next a r.1).0 ≡ ok b) × ((and_then r next).1 ≡ (next a r.1).1)
unfolding and_then
and_then-goes_on (ok a, w) next h = (a, refl, h, refl)
and_then-goes_on (err e, w) next h = cc h

-- What holds of the state after a failure of the first part, and after the second part, holds at the end.
pub and_then-Ensures :
    {W E A B : Type 0} (P : W → Type 0) (r : Result E A × W) (next : A → Action W E B)
    → P r.1
    → ((a : A) → r.0 ≡ ok a → P (next a r.1).1)
    → P (and_then r next).1
unfolding and_then
and_then-Ensures P (ok a, w) next p q = q a refl
and_then-Ensures P (err e, w) next p q = p

pub and_then-lift :
    {W E A B : Type 0} (r : Result E A) (f : A → Result E B) (w : W)
    → (and_then (r, w) (λ a. lift (f a))).1 ≡ w
unfolding and_then
and_then-lift (ok a) f w = refl
and_then-lift (err e) f w = refl

abbrev Value : {W E A : Type 0} → (A → W → Type 0) → Result E A × W → Type 0
Value P (ok a, w) = P a w
Value P (err e, w) = ⊥

-- The action has succeeded, and its value and state are so.
pub record Yields {W E A : Type 0} (P : A → W → Type 0) (r : Result E A × W) : Type 0 where
  pub value : Value P r

module _ {W E A : Type 0} {P : A → W → Type 0} where
  pub and_then-Yields :
      {B : Type 0} {Q : B → W → Type 0} (r : Result E A × W) (next : A → Action W E B)
      → Yields P r
      → ((a : A) (w : W) → P a w → Yields Q (next a w))
      → Yields Q (and_then r next)
  unfolding and_then
  and_then-Yields (ok a, w) next h k = k a w h.value
  and_then-Yields (err e, w) next h k = absurd h.value

  pub Yields-ok : (r : Result E A × W) → Yields P r → (a : A) × (r.0 ≡ ok a) × P a r.1
  Yields-ok (ok a, w) h = (a, refl, h.value)
  Yields-ok (err e, w) h = absurd h.value

  pub Yields-imp :
      {Q : A → W → Type 0} (r : Result E A × W)
      → Yields P r
      → ((a : A) (w : W) → P a w → Q a w)
      → Yields Q r
  Yields-imp (ok a, w) h k = record { value = k a w h.value }
  Yields-imp (err e, w) h k = absurd h.value
