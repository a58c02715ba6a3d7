-- ===== src/Actor/Responses.antt =====
-- Every request to the worker of pcside/daemon/src/sensor_actor.rs gets one response.
use linux_fingerprint_r.Prelude.{
  ℕ, zero, suc, ◌≡◌, refl, sym, ap, ◌∙◌, inl, inr, Bool-cases, Option, none, some, List, [], ◌∷◌,
  ◌++◌, append_assoc, append-nil, subst, Result, ok, err,
}
use linux_fingerprint_r.Sensor.{SensorError}
use linux_fingerprint_r.Actor

some_path {ℓ} : {A : Type ℓ} {a b : A} → some a ≡ some b → a ≡ b
some_path p = cc p

module _ (D : Actor.Driver) (kind : ℕ → Actor.ErrorKind) where
  abbrev pub Served : Type 0
  Served = Actor.Worker D kind

  abbrev pub Handled : Type 0
  Handled = Actor.HandleOutcome D kind × Served

  -- One response has been sent, to the channel of the request.
  abbrev pub OneMore : Actor.SensorRequest → List (Actor.Response D kind) → Served → Type 0
  OneMore req before t =
      (r : Result Actor.ActorError D.Reply) × (t.responses
        ≡ record { to = req.channel; result = r } ∷ before)

  -- A request that is not to be run again has its response.
  abbrev Answered : Actor.SensorRequest → List (Actor.Response D kind) → Handled → Type 0
  Answered req before (Actor.finished, t) = OneMore req before t
  Answered req before (Actor.done_after_fatal, t) = OneMore req before t
  Answered req before (Actor.needs_reopen, t) = t.responses ≡ before

  respond-OneMore :
      (req : Actor.SensorRequest) (r : Result Actor.ActorError D.Reply)
      (before : List (Actor.Response D kind)) (w : Served)
      → w.responses ≡ before
      → OneMore req before (Actor.respond D kind req r w)
  unfolding Actor.respond
  respond-OneMore req r before w h = (r, ap (λ rs. record { to = req.channel; result = r } ∷ rs) h)

  after_plain-Answered :
      (req : Actor.SensorRequest) (r : Result SensorError D.Reply)
      (before : List (Actor.Response D kind)) (w : Served)
      → w.responses ≡ before
      → Answered req before (Actor.after_plain D kind req r w)
  unfolding Actor.after_plain
  after_plain-Answered req r before w h = elim (Bool-cases (Actor.is_fatal D kind r)) [
    | inl p ↦ rw p h
    | inr p ↦ rw p (respond-OneMore req (Actor.for_caller D kind r) before w h)
  ]

  after_run-Answered :
      (req : Actor.SensorRequest) (op : Actor.Operation) (r : Result SensorError D.Reply)
      (before : List (Actor.Response D kind)) (w : Served)
      → w.responses ≡ before
      → Answered req before (Actor.after_run D kind req op r w)
  unfolding Actor.after_run
  after_run-Answered req (Actor.enroll slot) r before w h =
      elim (Bool-cases (Actor.is_fatal D kind r)) [
        | inl p ↦ rw p (respond-OneMore req (Actor.for_caller D kind r) before w h)
        | inr p ↦ rw p (respond-OneMore req (Actor.for_caller D kind r) before w h)
      ]
  after_run-Answered req Actor.info r before w h = after_plain-Answered req r before w h
  after_run-Answered req Actor.verify r before w h = after_plain-Answered req r before w h
  after_run-Answered req Actor.identify r before w h = after_plain-Answered req r before w h
  after_run-Answered req (Actor.delete slot) r before w h = after_plain-Answered req r before w h
  after_run-Answered req Actor.clear r before w h = after_plain-Answered req r before w h
  after_run-Answered req Actor.wake r before w h = after_plain-Answered req r before w h
  after_run-Answered req Actor.ping r before w h = after_plain-Answered req r before w h
  after_run-Answered req Actor.led_off r before w h = after_plain-Answered req r before w h

  handle_request-Answered :
      (s : D.Handle) (req : Actor.SensorRequest) (before : List (Actor.Response D kind))
      (w : Served)
      → w.responses ≡ before
      → Answered req before (Actor.handle_request D kind s req w)
  unfolding Actor.handle_request
  handle_request-Answered s req before w h = after_run-Answered req req.operation _ before _ h

  after_handle-OneMore :
      (req : Actor.SensorRequest) (retry : Option (Served → Served))
      (before : List (Actor.Response D kind)) (o : Handled)
      → ((again : Served → Served)
          → retry ≡ some again
          → (t : Served) → t.responses ≡ before
          → OneMore req before (again t))
      → Answered req before o
      → OneMore req before (Actor.after_handle D kind req retry o)
  unfolding Actor.after_handle Actor.respond_with_error
  after_handle-OneMore req retry before (Actor.finished, t) f h = h
  after_handle-OneMore req retry before (Actor.done_after_fatal, t) f h = h
  after_handle-OneMore req none before (Actor.needs_reopen, t) f h =
      respond-OneMore req _ before _ h
  after_handle-OneMore req (some again) before (Actor.needs_reopen, t) f h = f again refl _ h

  -- Opening the port sends nothing.
  try_open-responses :
      (more : Actor.ActorError → Served → Result Actor.ActorError D.Handle × Served)
      (before : List (Actor.Response D kind)) (w : Served)
      (r : Result SensorError D.Handle × D.World)
      → ((last : Actor.ActorError) (t : Served)
          → t.responses ≡ before
          → ((more last t).1).responses ≡ before)
      → w.responses ≡ before
      → ((Actor.try_open D kind more w r).1).responses ≡ before
  unfolding Actor.try_open Actor.reopened
  try_open-responses more before w (ok h, world) f e = e
  try_open-responses more before w (err x, world) f e = f (Actor.of_sensor x) _ e

  reopen-responses :
      (left : ℕ) (last : Actor.ActorError) (before : List (Actor.Response D kind)) (w : Served)
      → w.responses ≡ before
      → ((Actor.reopen D kind left last w).1).responses ≡ before
  unfolding Actor.reopen
  reopen-responses zero last before w h = h
  reopen-responses (suc left) last before w h =
      try_open-responses (Actor.reopen D kind left) before _ (D.open_port w.world)
        (λ l t. reopen-responses left l before t) h

  ensure_open-responses :
      (before : List (Actor.Response D kind)) (w : Served) (o : Option D.Handle)
      → w.responses ≡ before
      → ((Actor.ensure_open D kind w o).1).responses ≡ before
  unfolding Actor.ensure_open
  ensure_open-responses before w (some s) h = h
  ensure_open-responses before w none h = reopen-responses 4 Actor.reopen_failed before w h

  with_sensor-OneMore :
      (req : Actor.SensorRequest) (retry : Option (Served → Served))
      (before : List (Actor.Response D kind)) (r : Result Actor.ActorError D.Handle × Served)
      → ((again : Served → Served)
          → retry ≡ some again
          → (t : Served) → t.responses ≡ before
          → OneMore req before (again t))
      → (r.1).responses ≡ before
      → OneMore req before (Actor.with_sensor D kind req retry r)
  unfolding Actor.with_sensor Actor.respond_with_error
  with_sensor-OneMore req retry before (err e, w) f h = respond-OneMore req _ before w h
  with_sensor-OneMore req retry before (ok s, w) f h =
      after_handle-OneMore req retry before (Actor.handle_request D kind s req w) f
        (handle_request-Answered s req before w h)

  serve_again-OneMore :
      (req : Actor.SensorRequest) (before : List (Actor.Response D kind)) (w : Served)
      → w.responses ≡ before
      → OneMore req before (Actor.serve_again D kind req w)
  unfolding Actor.serve_again
  serve_again-OneMore req before w h =
      with_sensor-OneMore req none before (Actor.ensure_open D kind w w.sensor) (λ again p. cc)
        (ensure_open-responses before w w.sensor h)

  pub serve-OneMore :
      (req : Actor.SensorRequest) (w : Served) → OneMore req w.responses (Actor.serve D kind req w)
  unfolding Actor.serve
  serve-OneMore req w =
      with_sensor-OneMore req (some (Actor.serve_again D kind req)) w.responses
        (Actor.ensure_open D kind w w.sensor)
        (λ again p t e.
          subst (λ f. OneMore req w.responses (f t)) (some_path p)
            (serve_again-OneMore req w.responses t e))
        (ensure_open-responses w.responses w w.sensor refl)

  -- The channels of the responses, the first response first.
  unfoldable pub channels : List (Actor.Response D kind) → List ℕ
  channels [] = []
  channels (r ∷ rs) = channels rs ++ r.to ∷ []

  unfoldable pub requested : List Actor.SensorRequest → List ℕ
  requested [] = []
  requested (req ∷ queue) = req.channel ∷ requested queue

  channels-serve :
      (req : Actor.SensorRequest) (w : Served)
      → channels (Actor.serve D kind req w).responses ≡ channels w.responses ++ req.channel ∷ []
  unfolding channels
  channels-serve req w = let (r, e) = serve-OneMore req w in ap channels e

  -- Whatever the port, the sensor and the driver do, each request that the worker takes from its queue
  -- gets exactly one response on its own channel, and the responses come in the order of the requests.
  pub work-channels :
      (queue : List Actor.SensorRequest) (w : Served)
      → channels (Actor.work D kind queue w).responses ≡ channels w.responses ++ requested queue
  unfolding Actor.work requested
  work-channels [] w = sym (append-nil (channels w.responses))
  work-channels (req ∷ queue) w =
      work-channels queue (Actor.serve D kind req w)
      ∙ ap (λ (t : List ℕ). t ++ requested queue) (channels-serve req w)
      ∙ append_assoc (channels w.responses) (req.channel ∷ []) (requested queue)
