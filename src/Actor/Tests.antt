-- ===== src/Actor/Tests.antt =====
-- The worker of pcside/daemon/src/sensor_actor.rs on a driver with a script, and the facts on the worker applied to it.
use linux_fingerprint_r.Prelude.{
  ℕ, zero, suc, ◌+◌, ◌≡◌, refl, none, List, [], ◌∷◌, ◌++◌, Result, ok, err,
}
use linux_fingerprint_r.Sensor.{SensorError, io}
use linux_fingerprint_r.Actor
use linux_fingerprint_r.Actor.Responses
use linux_fingerprint_r.Actor.Runs

-- The world is the list of what comes next; zero is a broken pipe, any other number goes well.
scripted_open : List ℕ → Result SensorError ℕ × List ℕ
scripted_open [] = (err (io 0), [])
scripted_open (zero ∷ rest) = (err (io 0), rest)
scripted_open (suc n ∷ rest) = (ok n, rest)

scripted_run : ℕ → List ℕ → Result SensorError ℕ × ℕ × List ℕ
scripted_run h [] = (err (io 0), h, [])
scripted_run h (zero ∷ rest) = (err (io 0), h, rest)
scripted_run h (suc n ∷ rest) = (ok n, h, rest)

abbrev scripted : Actor.Driver
scripted = record {
  Handle = ℕ;
  World = List ℕ;
  Reply = ℕ;
  open_port = scripted_open;
  with_auth = λ h world. (h, world);
  run = λ op h world. scripted_run h world;
}

every_fatal : ℕ → Actor.ErrorKind
every_fatal n = Actor.broken_pipe

-- The port opens, the match finds a broken pipe and is run again behind a port that opens at its second
-- try; the enrolment finds a broken pipe and is not run again.
abbrev start : Actor.Worker scripted every_fatal
start = record {
  sensor = none;
  world = 1 ∷ 0 ∷ 0 ∷ 2 ∷ 7 ∷ 0 ∷ [];
  responses = [];
  runs = [];
  opens = 0;
}

abbrev queue : List Actor.SensorRequest
queue =
    record { operation = Actor.verify; channel = 5 }
    ∷ record { operation = Actor.enroll 3; channel = 6 }
    ∷ []

worked_runs : (Actor.work scripted every_fatal queue start).runs ≡ 6 ∷ 5 ∷ 5 ∷ []
unfolding Actor.work Actor.serve Actor.serve_again Actor.with_sensor Actor.after_handle
    Actor.ensure_open Actor.reopen Actor.try_open Actor.reopened Actor.handle_request
    Actor.after_run Actor.after_plain Actor.respond Actor.respond_with_error Actor.error_for
    Actor.is_fatal Actor.is_fatal_io Actor.is_fatal_kind Actor.for_caller scripted_open scripted_run
    every_fatal
worked_runs = refl

work-channels_example :
    Responses.channels scripted every_fatal (Actor.work scripted every_fatal queue start).responses
    ≡ Responses.channels scripted every_fatal [] ++ Responses.requested scripted every_fatal queue
work-channels_example = Responses.work-channels scripted every_fatal queue start

serve-Within_example :
    Runs.Within scripted every_fatal
      (0 + Runs.limit scripted every_fatal (Actor.enroll 3))
      (0 + 8)
      (Actor.serve scripted every_fatal (record { operation = Actor.enroll 3; channel = 6 }) start)
serve-Within_example =
    Runs.serve-Within scripted every_fatal (record { operation = Actor.enroll 3; channel = 6 })
      start
