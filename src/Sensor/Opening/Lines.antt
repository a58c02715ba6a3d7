-- ===== src/Sensor/Opening/Lines.antt =====
-- A line that `read_line` of pcside/daemon/src/sensor.rs gives has been received.
use linux_fingerprint_r.Prelude.{
  ◌≡◌, refl, ap, ◌∙◌, inl, inr, Bool-cases, Option, none, some, List, [], ◌∷◌, ◌++◌, append_assoc,
  Bytes, length, ltb, split_once, split_once_sound, Result, ok, err,
}
use linux_fingerprint_r.Sensor.{
  SensorError, io, Arrival, chunk, silence, expired, broken, Reading, trim_cr, settle, read_line,
  max_line_len, protocol, line_too_long,
}

-- The bytes that the reads bring.
unfoldable pub received : List Arrival → Bytes
received [] = []
received (chunk b ∷ as') = b ++ received as'
received (silence ∷ as') = received as'
received (expired ∷ as') = received as'
received (broken e ∷ as') = received as'

-- A line is a part of the text that stands before a line feed, and the rest of the text is still to come.
abbrev pub Line : (Bytes → Bytes) → Bytes → Reading → Type 0
Line lossy text r =
    (t : Bytes)
    → r.0 ≡ ok (some t)
    → (line : Bytes) × (trim_cr (lossy line) ≡ t) × (text ≡ line ++ b'\n' ∷ (r.1 ++ received r.2))

no-Line :
    (text : Bytes) (lossy : Bytes → Bytes) (rx : Bytes) (as' : List Arrival)
    → Line lossy text (ok none, rx, as')
no-Line text lossy rx as' t h = absurd (cc h)

no_error :
    (text : Bytes) (lossy : Bytes → Bytes) (e : SensorError) (rx : Bytes) (as' : List Arrival)
    → Line lossy text (err e, rx, as')
no_error text lossy e rx as' t h = absurd (cc h)

line_ok :
    {a b : Bytes} → ◌≡◌ {A = Result SensorError (Option Bytes)} (ok (some a)) (ok (some b)) → a ≡ b
line_ok h = cc h

settle-Line :
    (lossy : Bytes → Bytes) (rx : Bytes) (as' : List Arrival) (o : Option (Bytes × Bytes))
    (rest : Reading)
    → split_once b'\n' rx ≡ o
    → Line lossy (rx ++ received as') rest
    → Line lossy (rx ++ received as') (settle lossy rx as' o rest)
unfolding settle
settle-Line lossy rx as' (some (line, left)) rest e h = λ t d. (
  line,
  line_ok d,
  ap (λ (s : Bytes). s ++ received as') (split_once_sound b'\n' rx line left e)
      ∙ append_assoc line (b'\n' ∷ left) (received as'),
)
settle-Line lossy rx as' none rest e h = elim (Bool-cases (ltb max_line_len (length rx))) [
  | inl p ↦ rw p (no_error (rx ++ received as') lossy (protocol line_too_long) [] as')
  | inr p ↦ rw p h
]

pub read_line-Line :
    (lossy : Bytes → Bytes) (rx : Bytes) (as' : List Arrival)
    → Line lossy (rx ++ received as') (read_line lossy rx as')
unfolding read_line received
read_line-Line lossy rx [] = settle-Line lossy rx [] _ _ refl (no-Line _ lossy rx [])
read_line-Line lossy rx (expired ∷ as') =
    settle-Line lossy rx (expired ∷ as') _ _ refl (no-Line _ lossy rx as')
read_line-Line lossy rx (silence ∷ as') =
    settle-Line lossy rx (silence ∷ as') _ _ refl (read_line-Line lossy rx as')
read_line-Line lossy rx (chunk b ∷ as') =
    settle-Line lossy rx (chunk b ∷ as') _ _ refl
      (rw (← append_assoc rx b (received as')) (read_line-Line lossy (rx ++ b) as'))
read_line-Line lossy rx (broken e ∷ as') =
    settle-Line lossy rx (broken e ∷ as') _ _ refl (no_error _ lossy (io e) rx as')
