-- ===== src/Service/Permits.antt =====
-- The permit of pcside/daemon/src/dbus_iface.rs is never held for ever.
use linux_fingerprint_r.Prelude.{
  ℕ, ◌+◌, ◌≤◌, ◌≡◌, inl, inr, refl, ap, Bool, true, false, Option, none, some, List, [], ◌∷◌, ◌++◌,
  if◌then◌else◌, arith,
}
use linux_fingerprint_r.Storage.{Codec}
use linux_fingerprint_r.Service.State.{Capture, Service, Event}
use linux_fingerprint_r.Service.{step, run_events}
use linux_fingerprint_r.Service.Turns.{rank, rank-le, rank-pos, is_turn_of, is_turn, step-Moves}

-- How many events of a run are the next one of whoever holds the permit then.
unfoldable pub turns : Codec → List Event → Service → ℕ
turns k [] s = 0
turns k (e ∷ es) s = (if is_turn e s.capture then 1 else 0) + turns k es (step k e s)

-- After some of the events nobody holds the permit.
abbrev pub BecomesFree : Codec → List Event → Service → Type 0
BecomesFree k es s =
    (before behind : List Event) × (es ≡ before ++ behind)
    × ((run_events k before s).capture ≡ none)

turn_count :
    (k : Codec) (e : Event) (es : List Event) (s : Service) (c : Capture) (b : Bool)
    → s.capture ≡ some c
    → is_turn_of e c ≡ b
    → turns k (e ∷ es) s ≡ (if b then 1 else 0) + turns k es (step k e s)
unfolding turns is_turn
turn_count k e es s c b h t = rw (h, t) refl

one_more :
    (k : Codec) (e : Event) (es : List Event) (s : Service)
    → BecomesFree k es (step k e s)
    → BecomesFree k (e ∷ es) s
unfolding run_events
one_more k e es s (before, behind, split, free) =
    (e ∷ before, behind, ap (λ (l : List Event). e ∷ l) split, free)

frees :
    (k : Codec) (es : List Event) (s : Service) (o : Option Capture)
    → s.capture ≡ o
    → rank o ≤ turns k es s
    → BecomesFree k es s
unfolding run_events turns
frees k es s none h n = ([], es, refl, h)
frees k [] s (some c) h n = absurd (omega (arith, rank-pos c))
frees k (e ∷ es) s (some c) h n = elim (step-Moves k e c s h) [
  | inl (other, kept) ↦
      one_more k e es s
        (frees k es (step k e s) (some c) kept (omega (arith, turn_count k e es s c false h other)))
  | inr (turn, fewer) ↦ one_more k e es s (
      frees k es (step k e s) (step k e s).capture refl
        (omega (arith, turn_count k e es s c true h turn)))
]

-- However the events of all calls, captures and deletions are interleaved, whatever the sensor answers and
-- whichever savings fail: in a run with five events that are the next one of whoever holds the sensor's one
-- permit then, there is a time at which nobody holds it.
pub run_events-frees_permit :
    (k : Codec) (es : List Event) (s : Service) → 5 ≤ turns k es s → BecomesFree k es s
run_events-frees_permit k es s n = frees k es s s.capture refl (omega (arith, rank-le s.capture))
