-- ===== src/Sensor/Opening/Syncing.antt =====
-- The handshake of pcside/daemon/src/sensor.rs ends, and believes only a pong that has come after a ping.
use linux_fingerprint_r.Prelude.{
  ℕ, zero, suc, ◌+◌, ◌<◌, ◌≡◌, ◌⊎◌, refl, sym, ap, ◌∙◌, inl, inr, Bool, true, false, Bool-cases,
  Option, none, some, List, [], ◌∷◌, ◌++◌, append_assoc, Bytes, eq, eq_sound, length, subst, Result,
  ok, err, Done, arith,
}
use linux_fingerprint_r.Disk.{Disk, Outcome, done, failed}
use linux_fingerprint_r.Sensor.{
  SensorError, open_failed, Arrival, Reading, trim_cr, read_line, weight, R503,
}
use linux_fingerprint_r.Sensor.Loop.{Less, read_line-Less}
use linux_fingerprint_r.Sensor.Opening.{
  pong, on_line, await_pong, Attempt, listen, write_ping, clear_queue, ping_once, after_ping,
  ping_until, Handshake, drain, after_drain, sync, with_opened, after_sync, unset, open_path,
  Ponged, chosen, open_sensor,
}
use linux_fingerprint_r.Sensor.Opening.Lines.{received, Line, read_line-Line}

-- The text holds a line that reads as a pong.
abbrev pub HasPong : (Bytes → Bytes) → Bytes → Type 0
HasPong lossy text =
    (before line behind : Bytes) × (trim_cr (lossy line) ≡ pong)
    × (text ≡ before ++ (line ++ b'\n' ∷ behind))

-- What is said of an attempt whose result is a pong.
abbrev Believed : (Bytes → Bytes) → Bytes → Result SensorError (Bool × Bytes) → Type 0
Believed lossy text (ok (true, rx)) = HasPong lossy text × (rx ≡ [])
Believed lossy text (ok (false, rx)) = Unit
Believed lossy text (err e) = Unit

abbrev Ends : (Bytes → Bytes) → Bytes → Option (Result SensorError (Bool × Bytes)) → Type 0
Ends lossy text o = (r : Result SensorError (Bool × Bytes)) × (o ≡ some r) × Believed lossy text r

later :
    (lossy : Bytes → Bytes) (line text : Bytes) (r : Result SensorError (Bool × Bytes))
    → Believed lossy text r
    → Believed lossy (line ++ b'\n' ∷ text) r
later lossy line text (ok (true, rx)) ((before, found, behind, reads, split), empty) = (
  (
    line ++ b'\n' ∷ before,
    found,
    behind,
    reads,
    ap (λ (s : Bytes). line ++ b'\n' ∷ s) split
        ∙ sym (append_assoc line (b'\n' ∷ before) (found ++ b'\n' ∷ behind)),
  ),
  empty,
)
later lossy line text (ok (false, rx)) h = tt
later lossy line text (err e) h = tt

on_line-Ends :
    (lossy : Bytes → Bytes) (text : Bytes) (n : ℕ)
    (loop : Bytes → List Arrival → Option (Result SensorError (Bool × Bytes))) (r : Reading)
    → Line lossy text r
    → Less n r
    → ((rx : Bytes) (as' : List Arrival)
        → length rx + weight as' < n
        → Ends lossy (rx ++ received as') (loop rx as'))
    → Ends lossy text (on_line loop r)
unfolding on_line
on_line-Ends lossy text n loop (err e, rx, as') l k h = (err e, refl, tt)
on_line-Ends lossy text n loop (ok none, rx, as') l k h = (ok (false, rx), refl, tt)
on_line-Ends lossy text n loop (ok (some t), rx, as') l k h =
    let (line, reads, split) = l t refl in
    let (r, same, believed) = h rx as' (k t refl) in
    elim (Bool-cases (eq t pong)) [
      | inl e ↦ rw e (
        ok (true, []),
        refl,
        (([], line, rx ++ received as', reads ∙ eq_sound t pong e, split), refl),
      )
      | inr e ↦ rw e (r, same, rw split (later lossy line (rx ++ received as') r believed))
    ]

await_pong-Ends :
    (lossy : Bytes → Bytes) (fuel : ℕ) (rx : Bytes) (as' : List Arrival)
    → length rx + weight as' < fuel
    → Ends lossy (rx ++ received as') (await_pong lossy fuel rx as')
unfolding await_pong
await_pong-Ends lossy zero rx as' h = absurd (omega arith)
await_pong-Ends lossy (suc fuel) rx as' h =
    on_line-Ends lossy (rx ++ received as') (length rx + weight as') (await_pong lossy fuel)
      (read_line lossy rx as') (read_line-Line lossy rx as') (read_line-Less lossy rx as')
      (λ left rest k. await_pong-Ends lossy fuel left rest (omega arith))

listen-Ends :
    (lossy : Bytes → Bytes) (rx : Bytes) (as' : List Arrival) (o : Outcome)
    → Ends lossy (rx ++ received as') (listen lossy rx as' o)
unfolding listen
listen-Ends lossy rx as' (failed e) = (_, refl, tt)
listen-Ends lossy rx as' done =
    await_pong-Ends lossy (suc (length rx + weight as')) rx as' (omega arith)

write_ping-Ends :
    (lossy : Bytes → Bytes) (rx : Bytes) (a : Attempt) (o : Outcome)
    → Ends lossy (rx ++ received a.arrivals) (write_ping lossy rx a o)
unfolding write_ping
write_ping-Ends lossy rx a (failed e) = (_, refl, tt)
write_ping-Ends lossy rx a done = listen-Ends lossy rx a.arrivals a.flushed

clear_queue-Ends :
    (lossy : Bytes → Bytes) (rx : Bytes) (a : Attempt) (o : Outcome)
    → Ends lossy (rx ++ received a.arrivals) (clear_queue lossy rx a o)
unfolding clear_queue
clear_queue-Ends lossy rx a (failed e) = (_, refl, tt)
clear_queue-Ends lossy rx a done = write_ping-Ends lossy rx a a.wrote

ping_once-Ends :
    (lossy : Bytes → Bytes) (rx : Bytes) (a : Attempt)
    → Ends lossy (received a.arrivals) (ping_once lossy rx a)
unfolding ping_once
ping_once-Ends lossy rx a = clear_queue-Ends lossy [] a a.cleared

-- One of the attempts was answered by a pong that came after its ping.
abbrev pub Answered : (Bytes → Bytes) → List Attempt → Type 0
Answered lossy [] = ⊥
Answered lossy (a ∷ attempts) = HasPong lossy (received a.arrivals) ⊎ Answered lossy attempts

abbrev pub Met : {A : Type 0} → (A → Type 0) → Result SensorError A → Type 0
Met P (ok a) = P a
Met P (err e) = Unit

abbrev pub Meets : {A : Type 0} → (A → Type 0) → Option (Result SensorError A) → Type 0
Meets {A} P o = (r : Result SensorError A) × (o ≡ some r) × Met P r

-- The handshake has left an empty buffer, after a pong.
abbrev Synced : (Bytes → Bytes) → List Attempt → Bytes → Type 0
Synced lossy attempts rx = Answered lossy attempts × (rx ≡ [])

weaken :
    (lossy : Bytes → Bytes) (a : Attempt) (attempts : List Attempt) (r : Result SensorError Bytes)
    → Met (Synced lossy attempts) r
    → Met (Synced lossy (a ∷ attempts)) r
weaken lossy a attempts (ok rx) h = (inr h.0, h.1)
weaken lossy a attempts (err e) h = tt

after_ping-Meets :
    (lossy : Bytes → Bytes) (a : Attempt) (attempts : List Attempt) (o : Ponged)
    (next : Bytes → Option (Result SensorError Bytes))
    → Ends lossy (received a.arrivals) o
    → ((rx : Bytes) → Meets (Synced lossy attempts) (next rx))
    → Meets (Synced lossy (a ∷ attempts)) (after_ping o next)
unfolding after_ping
after_ping-Meets lossy a attempts none next (r, same, h) k = absurd (cc same)
after_ping-Meets lossy a attempts (some (err e)) next h k = (err e, refl, tt)
after_ping-Meets lossy a attempts (some (ok (true, rx))) next (r, same, h) k =
    let e : ◌≡◌ {A = Result SensorError (Bool × Bytes)} r (ok (true, rx)) = cc same in
    let (found, empty) = subst (λ x. Believed lossy (received a.arrivals) x) e h in
    (ok rx, refl, (inl found, empty))
after_ping-Meets lossy a attempts (some (ok (false, rx))) next h k =
    let (r, same, m) = k rx in (r, same, weaken lossy a attempts r m)

ping_until-Meets :
    (lossy : Bytes → Bytes) (attempts : List Attempt) (rx : Bytes)
    → Meets (Synced lossy attempts) (ping_until lossy attempts rx)
unfolding ping_until
ping_until-Meets lossy [] rx = (_, refl, tt)
ping_until-Meets lossy (a ∷ attempts) rx =
    after_ping-Meets lossy a attempts (ping_once lossy rx a) (ping_until lossy attempts)
      (ping_once-Ends lossy rx a) (ping_until-Meets lossy attempts)

after_drain-Meets :
    (lossy : Bytes → Bytes) (attempts : List Attempt) (rx : Bytes) (r : Done SensorError)
    → Meets (Synced lossy attempts) (after_drain lossy attempts rx r)
unfolding after_drain
after_drain-Meets lossy attempts rx (err e) = (err e, refl, tt)
after_drain-Meets lossy attempts rx (ok _) = ping_until-Meets lossy attempts rx

sync-Meets :
    (lossy : Bytes → Bytes) (h : Handshake) (rx : Bytes)
    → Meets (Synced lossy h.attempts) (sync lossy h rx)
unfolding sync
sync-Meets lossy h rx =
    after_drain-Meets lossy h.attempts rx (drain h.deadline h.drain_start h.rounds none)

-- The path that was given or found has opened, a pong has come, and the sensor has an empty buffer, no key, the
-- counter 0, and nothing sent; the file of the counter is as it was.
abbrev pub Ready :
    (Bytes → Bytes)
    → (Bytes → Outcome)
    → Result SensorError Bytes
    → Handshake
    → Disk
    → R503
    → Type 0
Ready lossy port where_to h d s =
    (path : Bytes) × (where_to ≡ ok path)
    × (port path ≡ done)
    × Answered lossy h.attempts
    × (s.rx_buf ≡ [])
    × (s.key ≡ none)
    × (s.client_counter ≡ 0)
    × (s.sent ≡ [])
    × (s.disk ≡ d)

module _ (lossy : Bytes → Bytes) (port : Bytes → Outcome) (h : Handshake) (as' : List Arrival)
    (d : Disk) where
  after_sync-Meets :
      (path : Bytes) (o : Option (Result SensorError Bytes))
      → port path ≡ done
      → Meets (Synced lossy h.attempts) o
      → Meets (Ready lossy port (ok path) h d) (after_sync (unset as' d) o)
  unfolding after_sync with_opened
  after_sync-Meets path none p (r, same, k) = absurd (cc same)
  after_sync-Meets path (some (err e)) p m = (err e, refl, tt)
  after_sync-Meets path (some (ok rx)) p (r, same, k) =
      let e : ◌≡◌ {A = Result SensorError Bytes} r (ok rx) = cc same in
      let (answered, empty) = subst (λ x. Met (Synced lossy h.attempts) x) e k in
      (_, refl, (path, refl, p, answered, empty, refl, refl, refl, refl))

  port-Meets :
      (path : Bytes) (o : Outcome)
      → port path ≡ o
      → Meets (Ready lossy port (ok path) h d) (elim o [
        | failed e ↦ some (err (open_failed path e))
        | done ↦ after_sync (unset as' d) (sync lossy h [])
      ])
  port-Meets path (failed e) p = (_, refl, tt)
  port-Meets path done p = after_sync-Meets path (sync lossy h []) p (sync-Meets lossy h [])

  open_path-Meets :
      (where_to : Result SensorError Bytes)
      → Meets (Ready lossy port where_to h d) (open_path lossy port h (unset as' d) where_to)
  unfolding open_path
  open_path-Meets (err e) = (err e, refl, tt)
  open_path-Meets (ok path) = port-Meets path (port path) refl

-- Opening the sensor comes to an end, whatever the port sends; and where it succeeds, the path given, or else
-- the one found, has opened, some attempt was answered by a line that reads "OK pong" among the bytes
-- which came after its ping, and the sensor has an empty buffer, no key and the counter 0.
pub open_sensor-Meets :
    (lossy : Bytes → Bytes) (port : Bytes → Outcome) (given : Option Bytes)
    (found : Result SensorError Bytes) (h : Handshake) (as' : List Arrival) (d : Disk)
    → Meets (Ready lossy port (chosen given found) h d) (open_sensor lossy port given found h as' d)
unfolding open_sensor
open_sensor-Meets lossy port given found h as' d =
    open_path-Meets lossy port h as' d (chosen given found)
