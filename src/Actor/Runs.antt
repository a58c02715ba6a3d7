-- ===== src/Actor/Runs.antt =====
-- How often the worker of pcside/daemon/src/sensor_actor.rs runs a request and opens the port.
use linux_fingerprint_r.Prelude.{
  ℕ, zero, suc, ◌+◌, ◌≤◌, ◌≡◌, refl, inl, inr, Bool-cases, Option, none, some, Result, ok, err,
  length, arith,
}
use linux_fingerprint_r.Sensor.{SensorError}
use linux_fingerprint_r.Actor

module _ (D : Actor.Driver) (kind : ℕ → Actor.ErrorKind) where
  abbrev pub Served : Type 0
  Served = Actor.Worker D kind

  abbrev pub Handled : Type 0
  Handled = Actor.HandleOutcome D kind × Served

  -- At most so many runs and openings since the worker began.
  abbrev pub Within : ℕ → ℕ → Served → Type 0
  Within runs opens t = (length t.runs ≤ runs) × (t.opens ≤ opens)

  -- How often a request may be run: an enrolment is never run again.
  pub limit : Actor.Operation → ℕ
  limit (Actor.enroll slot) = 1
  limit Actor.info = 2
  limit Actor.verify = 2
  limit Actor.identify = 2
  limit (Actor.delete slot) = 2
  limit Actor.clear = 2
  limit Actor.wake = 2
  limit Actor.ping = 2
  limit Actor.led_off = 2

  -- The same behind a run, after which only a request that may be run twice is left over.
  abbrev Ran : Actor.Operation → ℕ → ℕ → Handled → Type 0
  Ran op runs opens (Actor.finished, t) = Within runs opens t
  Ran op runs opens (Actor.done_after_fatal, t) = Within runs opens t
  Ran op runs opens (Actor.needs_reopen, t) = Within runs opens t × (limit op ≡ 2)

  after_plain-Ran :
      (req : Actor.SensorRequest) (op : Actor.Operation) (r : Result SensorError D.Reply)
      (runs opens : ℕ) (w : Served)
      → limit op ≡ 2
      → Within runs opens w
      → Ran op runs opens (Actor.after_plain D kind req r w)
  unfolding Actor.after_plain Actor.respond
  after_plain-Ran req op r runs opens w two h = elim (Bool-cases (Actor.is_fatal D kind r)) [
    | inl p ↦ rw p (h, two)
    | inr p ↦ rw p h
  ]

  after_run-Ran :
      (req : Actor.SensorRequest) (op : Actor.Operation) (r : Result SensorError D.Reply)
      (runs opens : ℕ) (w : Served)
      → Within runs opens w
      → Ran op runs opens (Actor.after_run D kind req op r w)
  unfolding Actor.after_run Actor.respond limit
  after_run-Ran req (Actor.enroll slot) r runs opens w h =
      elim (Bool-cases (Actor.is_fatal D kind r)) [ inl p ↦ rw p h | inr p ↦ rw p h ]
  after_run-Ran req Actor.info r runs opens w h =
      after_plain-Ran req Actor.info r runs opens w refl h
  after_run-Ran req Actor.verify r runs opens w h =
      after_plain-Ran req Actor.verify r runs opens w refl h
  after_run-Ran req Actor.identify r runs opens w h =
      after_plain-Ran req Actor.identify r runs opens w refl h
  after_run-Ran req (Actor.delete slot) r runs opens w h =
      after_plain-Ran req (Actor.delete slot) r runs opens w refl h
  after_run-Ran req Actor.clear r runs opens w h =
      after_plain-Ran req Actor.clear r runs opens w refl h
  after_run-Ran req Actor.wake r runs opens w h =
      after_plain-Ran req Actor.wake r runs opens w refl h
  after_run-Ran req Actor.ping r runs opens w h =
      after_plain-Ran req Actor.ping r runs opens w refl h
  after_run-Ran req Actor.led_off r runs opens w h =
      after_plain-Ran req Actor.led_off r runs opens w refl h

  handle_request-Ran :
      (s : D.Handle) (req : Actor.SensorRequest) (runs opens : ℕ) (w : Served)
      → Within runs opens w
      → Ran req.operation (runs + 1) opens (Actor.handle_request D kind s req w)
  unfolding Actor.handle_request
  handle_request-Ran s req runs opens w h =
      after_run-Ran req req.operation _ (runs + 1) opens _ (omega (arith, h.0), h.1)

  try_open-Within :
      (more : Actor.ActorError → Served → Result Actor.ActorError D.Handle × Served)
      (runs opens : ℕ) (w : Served) (r : Result SensorError D.Handle × D.World)
      → ((last : Actor.ActorError) (t : Served)
          → (length t.runs ≤ runs)
          → t.opens ≡ w.opens
          → Within runs opens (more last t).1)
      → Within runs opens w
      → Within runs opens (Actor.try_open D kind more w r).1
  unfolding Actor.try_open Actor.reopened
  try_open-Within more runs opens w (ok h, world) f e = e
  try_open-Within more runs opens w (err x, world) f e = f (Actor.of_sensor x) _ e.0 refl

  reopen-Within :
      (left : ℕ) (last : Actor.ActorError) (runs opens : ℕ) (w : Served)
      → Within runs opens w
      → Within runs (opens + left) (Actor.reopen D kind left last w).1
  unfolding Actor.reopen
  reopen-Within zero last runs opens w h = (h.0, omega (arith, h.1))
  reopen-Within (suc left) last runs opens w h =
      try_open-Within (Actor.reopen D kind left) runs (opens + suc left) _ (D.open_port w.world)
        (λ l t few same.
          let (a, b) = reopen-Within left l runs (suc opens) t (few, omega (arith, same, h.1)) in
          (a, omega (arith, b)))
        (h.0, omega (arith, h.1))

  ensure_open-Within :
      (runs opens : ℕ) (w : Served) (o : Option D.Handle)
      → Within runs opens w
      → Within runs (opens + 4) (Actor.ensure_open D kind w o).1
  unfolding Actor.ensure_open
  ensure_open-Within runs opens w (some s) h = (h.0, omega (arith, h.1))
  ensure_open-Within runs opens w none h = reopen-Within 4 Actor.reopen_failed runs opens w h

  Within-mono : (a b c d : ℕ) (t : Served) → a ≤ c → b ≤ d → Within a b t → Within c d t
  Within-mono a b c d t h k (m, n) = (omega arith, omega arith)

  last_handled :
      (req : Actor.SensorRequest) (runs opens : ℕ) (o : Handled)
      → Ran req.operation runs opens o
      → Within runs opens (Actor.after_handle D kind req none o)
  unfolding Actor.after_handle Actor.respond_with_error Actor.respond
  last_handled req runs opens (Actor.finished, t) h = h
  last_handled req runs opens (Actor.done_after_fatal, t) h = h
  last_handled req runs opens (Actor.needs_reopen, t) h = h.0

  last_pass :
      (req : Actor.SensorRequest) (runs opens : ℕ) (r : Result Actor.ActorError D.Handle × Served)
      → Within runs opens r.1
      → Within (runs + 1) opens (Actor.with_sensor D kind req none r)
  unfolding Actor.with_sensor Actor.respond_with_error Actor.respond
  last_pass req runs opens (err e, w) h =
      Within-mono runs opens (runs + 1) opens w (omega arith) (omega arith) h
  last_pass req runs opens (ok s, w) h =
      last_handled req (runs + 1) opens (Actor.handle_request D kind s req w)
        (handle_request-Ran s req runs opens w h)

  serve_again-Within :
      (req : Actor.SensorRequest) (runs opens : ℕ) (w : Served)
      → Within runs opens w
      → Within (runs + 1) (opens + 4) (Actor.serve_again D kind req w)
  unfolding Actor.serve_again
  serve_again-Within req runs opens w h =
      last_pass req runs (opens + 4) (Actor.ensure_open D kind w w.sensor)
        (ensure_open-Within runs opens w w.sensor h)

  limit-pos : (op : Actor.Operation) → 1 ≤ limit op
  unfolding limit
  limit-pos (Actor.enroll slot) = omega arith
  limit-pos Actor.info = omega arith
  limit-pos Actor.verify = omega arith
  limit-pos Actor.identify = omega arith
  limit-pos (Actor.delete slot) = omega arith
  limit-pos Actor.clear = omega arith
  limit-pos Actor.wake = omega arith
  limit-pos Actor.ping = omega arith
  limit-pos Actor.led_off = omega arith

  first_handled :
      (req : Actor.SensorRequest) (runs opens : ℕ) (o : Handled)
      → Ran req.operation (runs + 1) opens o
      → Within
          (runs + limit req.operation)
          (opens + 4)
          (Actor.after_handle D kind req (some (Actor.serve_again D kind req)) o)
  unfolding Actor.after_handle
  first_handled req runs opens (Actor.finished, t) h =
      Within-mono (runs + 1) opens (runs + limit req.operation) (opens + 4) t
        (omega (arith, limit-pos req.operation)) (omega arith) h
  first_handled req runs opens (Actor.done_after_fatal, t) h =
      Within-mono (runs + 1) opens (runs + limit req.operation) (opens + 4)
        (record t { sensor = none }) (omega (arith, limit-pos req.operation)) (omega arith) h
  first_handled req runs opens (Actor.needs_reopen, t) (h, two) =
      Within-mono (runs + 1 + 1) (opens + 4) (runs + limit req.operation) (opens + 4)
        (Actor.serve_again D kind req (record t { sensor = none })) (omega (arith, two))
        (omega arith) (serve_again-Within req (runs + 1) opens (record t { sensor = none }) h)

  first_pass :
      (req : Actor.SensorRequest) (runs opens : ℕ) (r : Result Actor.ActorError D.Handle × Served)
      → Within runs opens r.1
      → Within
          (runs + limit req.operation)
          (opens + 4)
          (Actor.with_sensor D kind req (some (Actor.serve_again D kind req)) r)
  unfolding Actor.with_sensor Actor.respond_with_error Actor.respond
  first_pass req runs opens (err e, w) h =
      Within-mono runs opens (runs + limit req.operation) (opens + 4) w (omega arith) (omega arith)
        h
  first_pass req runs opens (ok s, w) h =
      first_handled req runs opens (Actor.handle_request D kind s req w)
        (handle_request-Ran s req runs opens w h)

  -- For one request the worker runs the operation at most twice, an enrolment at most once, and opens the
  -- port at most eight times, whatever the port and the sensor do.
  pub serve-Within :
      (req : Actor.SensorRequest) (w : Served)
      → Within (length w.runs + limit req.operation) (w.opens + 8) (Actor.serve D kind req w)
  unfolding Actor.serve
  serve-Within req w = Within-mono _ _ _ _ (Actor.serve D kind req w) (omega arith) (omega arith) (
      first_pass req (length w.runs) (w.opens + 4) (Actor.ensure_open D kind w w.sensor)
        (ensure_open-Within (length w.runs) w.opens w w.sensor (omega arith, omega arith)))
