-- ===== src/Actor.antt =====
-- pcside/daemon/src/sensor_actor.rs: the worker thread that owns the sensor. Requests come from a queue, each with
-- the channel that its one response goes to. The driver is an interface: `R503` behind `open`, `apply_auth`
-- and the commands, over a world of its own.
mod Tests
pub mod Responses
pub mod Senders
pub mod Runs
use linux_fingerprint_r.Prelude.{
  ℕ, zero, suc, ◌+◌, Bool, true, false, Option, none, some, List, [], ◌∷◌, ◌++◌, Result, ok, err,
  if◌then◌else◌,
}
use linux_fingerprint_r.Sensor.{
  SensorError, io, persisting, timeout, command, protocol, counter_exhausted, no_device,
  open_failed,
}

-- The kinds of `std::io::ErrorKind` that `is_fatal_io` tells apart; `another` is every other kind.
pub data ErrorKind : Type 0 where
  broken_pipe not_found not_connected unexpected_eof permission_denied other another : ErrorKind

pub is_fatal_kind : ErrorKind → Bool
is_fatal_kind broken_pipe = true
is_fatal_kind not_found = true
is_fatal_kind not_connected = true
is_fatal_kind unexpected_eof = true
is_fatal_kind permission_denied = true
is_fatal_kind other = true
is_fatal_kind another = false

-- An error's number stands for the error, which the standard library gives its kind. A counter that could
-- not be persisted is `Io` of kind `Other`.
unfoldable pub is_fatal_io : (ℕ → ErrorKind) → SensorError → Bool
unfolding is_fatal_kind
is_fatal_io kind (io e) = is_fatal_kind (kind e)
is_fatal_io kind (persisting e) = true
is_fatal_io kind (timeout cmd) = false
is_fatal_io kind (command code detail) = false
is_fatal_io kind (protocol fault) = false
is_fatal_io kind counter_exhausted = false
is_fatal_io kind no_device = false
is_fatal_io kind (open_failed path e) = false

pub data Operation : Type 0 where
  info verify identify clear wake ping led_off : Operation
  enroll delete : ℕ → Operation

-- `SensorRequest`: what to do, and the channel for the response.
pub record SensorRequest : Type 0 where
  pub operation : Operation
  pub channel : ℕ

-- The errors that callers get: the driver's; `Io` of kind `NotConnected` with a text of the worker; or the
-- same with the text of an error.
pub data ActorError : Type 0 where
  of_sensor : SensorError → ActorError
  reopen_failed failed_twice worker_gone : ActorError
  not_connected_as : ActorError → ActorError

-- The driver, with the type of what its operations return.
pub record Driver : Type 1 where
  pub Handle : Type 0
  pub World : Type 0
  pub Reply : Type 0
  pub open_port : World → Result SensorError Handle × World
  pub with_auth : Handle → World → Handle × World
  pub run : Operation → Handle → World → Result SensorError Reply × Handle × World

module _ (D : Driver) (kind : ℕ → ErrorKind) where
  pub record Response : Type 0 where
    pub to : ℕ
    pub result : Result ActorError D.Reply

  -- The worker: the open sensor, if any; the responses so far and the requests that were run, by channel,
  -- the latest first; and how often the port was reopened or was tried to be.
  pub record Worker : Type 0 where
    pub sensor : Option D.Handle
    pub world : D.World
    pub responses : List Response
    pub runs : List ℕ
    pub opens : ℕ

  -- `done.send(result)`
  unfoldable pub respond : SensorRequest → Result ActorError D.Reply → Worker → Worker
  respond req r w = record w { responses = record { to = req.channel; result = r } ∷ w.responses }

  -- The error itself for `Info`, a new one with its text for the others.
  unfoldable pub error_for : Operation → ActorError → ActorError
  error_for info e = e
  error_for (enroll slot) e = not_connected_as e
  error_for verify e = not_connected_as e
  error_for identify e = not_connected_as e
  error_for (delete slot) e = not_connected_as e
  error_for clear e = not_connected_as e
  error_for wake e = not_connected_as e
  error_for ping e = not_connected_as e
  error_for led_off e = not_connected_as e

  unfoldable pub respond_with_error : SensorRequest → ActorError → Worker → Worker
  respond_with_error req e w = respond req (err (error_for req.operation e)) w

  pub data HandleOutcome : Type 0 where
    finished needs_reopen done_after_fatal : HandleOutcome

  unfoldable pub is_fatal : Result SensorError D.Reply → Bool
  is_fatal (ok r) = false
  is_fatal (err e) = is_fatal_io kind e

  unfoldable pub for_caller : Result SensorError D.Reply → Result ActorError D.Reply
  for_caller (ok r) = ok r
  for_caller (err e) = err (of_sensor e)

  unfoldable pub after_plain :
      SensorRequest → Result SensorError D.Reply → Worker → HandleOutcome × Worker
  after_plain req r w =
      if is_fatal r then (needs_reopen, w) else (finished, respond req (for_caller r) w)

  -- An enrolment answers in any case; any other operation answers unless the port is gone.
  unfoldable pub after_run :
      SensorRequest → Operation → Result SensorError D.Reply → Worker → HandleOutcome × Worker
  after_run req (enroll slot) r w =
      (if is_fatal r then done_after_fatal else finished, respond req (for_caller r) w)
  after_run req info r w = after_plain req r w
  after_run req verify r w = after_plain req r w
  after_run req identify r w = after_plain req r w
  after_run req (delete slot) r w = after_plain req r w
  after_run req clear r w = after_plain req r w
  after_run req wake r w = after_plain req r w
  after_run req ping r w = after_plain req r w
  after_run req led_off r w = after_plain req r w

  pub handle_request : D.Handle → SensorRequest → Worker → HandleOutcome × Worker
  handle_request s req w =
      let ran = D.run req.operation s w.world in
      after_run req req.operation ran.0
        (record w { sensor = some ran.1; world = ran.2; runs = req.channel ∷ w.runs })

  abbrev pub reopen_attempts : ℕ
  reopen_attempts = 4

  -- `for attempt in 0..REOPEN_ATTEMPTS`, with the attempts that are left and the last error.
  pub reopened : D.Handle × D.World → Worker → Result ActorError D.Handle × Worker
  reopened (h, world) w = (ok h, record w { sensor = some h; world = world })

  unfoldable pub try_open :
      (ActorError → Worker → Result ActorError D.Handle × Worker)
      → Worker
      → Result SensorError D.Handle × D.World
      → Result ActorError D.Handle × Worker
  try_open more w (ok h, world) = reopened (D.with_auth h world) w
  try_open more w (err e, world) = more (of_sensor e) (record w { world = world })

  unfoldable pub reopen : ℕ → ActorError → Worker → Result ActorError D.Handle × Worker
  reopen zero last w = (err last, w)
  reopen (suc left) last w =
      try_open (reopen left) (record w { opens = suc w.opens }) (D.open_port w.world)

  unfoldable pub ensure_open : Worker → Option D.Handle → Result ActorError D.Handle × Worker
  ensure_open w (some h) = (ok h, w)
  ensure_open w none = reopen reopen_attempts reopen_failed w

  -- The loop around one request; `retry` serves it again, where that was not done yet.
  unfoldable pub after_handle :
      SensorRequest → Option (Worker → Worker) → HandleOutcome × Worker → Worker
  after_handle req retry (finished, w) = w
  after_handle req retry (done_after_fatal, w) = record w { sensor = none }
  after_handle req none (needs_reopen, w) =
      respond_with_error req failed_twice (record w { sensor = none })
  after_handle req (some retry) (needs_reopen, w) = retry (record w { sensor = none })

  unfoldable pub with_sensor :
      SensorRequest → Option (Worker → Worker) → Result ActorError D.Handle × Worker → Worker
  with_sensor req retry (err e, w) = respond_with_error req e w
  with_sensor req retry (ok h, w) = after_handle req retry (handle_request h req w)

  -- The second pass has `already_retried`.
  unfoldable pub serve_again : SensorRequest → Worker → Worker
  serve_again req w = with_sensor req none (ensure_open w w.sensor)

  unfoldable pub serve : SensorRequest → Worker → Worker
  serve req w = with_sensor req (some (serve_again req)) (ensure_open w w.sensor)

  -- `while let Some(initial_req) = req_rx.blocking_recv()`
  pub work : List SensorRequest → Worker → Worker
  work [] w = w
  work (req ∷ queue) w = work queue (serve req w)
