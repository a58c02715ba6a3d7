-- ===== src/Sensor/Transmit.antt =====
-- What the calls before the loop of pcside/daemon/src/sensor.rs do, and what the loop leaves alone.
use linux_fingerprint_r.Prelude.{
  ℕ, zero, suc, ◌≡◌, refl, ◌⊎◌, inl, inr, some, none, List, [], ◌++◌, Bytes, Result, ok, err,
}
use linux_fingerprint_r.Disk.{Outcome, done, failed}
use linux_fingerprint_r.Sensor.{
  Reading, R503, Answer, Inspection, receive, on_reading, on_verdict, SensorError, Verdict, again,
  final, after_reading, transmit, Calls, flush_port, end_line, write_text, clear_input, read_line,
  enough, Sent, io,
}

-- The answer is an error, or that of the loop, from a state with the same key, counter and disk, in
-- which the frames may have been sent.
abbrev pub Loops : (Bytes → Bytes) → Inspection → Bytes → R503 → Answer → Type 0
Loops lossy inspect cmd t a =
    ((e : ℕ) × (a ≡ (some (err (io e)), t))) ⊎ (a ≡ receive lossy inspect cmd (enough t) 0 t)

flush_port-Loops :
    (lossy : Bytes → Bytes) (inspect : Inspection) (cmd : Bytes) (o : Outcome) (s : R503)
    → Loops lossy inspect cmd s (flush_port lossy inspect cmd o s)
unfolding flush_port
flush_port-Loops lossy inspect cmd (failed e) s = inl (e, refl)
flush_port-Loops lossy inspect cmd done s = inr refl

end_line-Loops :
    (lossy : Bytes → Bytes) (inspect : Inspection) (cmd : Bytes) (calls : Calls) (o : Outcome)
    (s : R503)
    → Loops lossy inspect cmd s (end_line lossy inspect cmd calls o s)
unfolding end_line
end_line-Loops lossy inspect cmd calls (failed e) s = inl (e, refl)
end_line-Loops lossy inspect cmd calls done s = flush_port-Loops lossy inspect cmd calls.flushed s

write_text-Loops :
    (lossy : Bytes → Bytes) (inspect : Inspection) (cmd : Bytes) (calls : Calls) (o : Outcome)
    (s : R503)
    → Loops lossy inspect cmd s (write_text lossy inspect cmd calls o s)
unfolding write_text
write_text-Loops lossy inspect cmd calls (failed e) s = inl (e, refl)
write_text-Loops lossy inspect cmd calls done s =
    end_line-Loops lossy inspect cmd calls calls.ended s

abbrev pub cleared : R503 → R503
cleared s = record s { rx_buf = [] }

abbrev pub with_sent : List Sent → R503 → R503
with_sent frames s = record s { rx_buf = []; sent = frames ++ s.sent }

clear_input-Loops :
    (lossy : Bytes → Bytes) (inspect : Inspection) (cmd : Bytes) (frames : List Sent)
    (calls : Calls) (o : Outcome) (s : R503)
    → ((e : ℕ) × (clear_input lossy inspect cmd frames calls o (cleared s)
          ≡ (some (err (io e)), cleared s)))
      ⊎ Loops lossy inspect cmd
          (with_sent frames s)
          (clear_input lossy inspect cmd frames calls o (cleared s))
unfolding clear_input
clear_input-Loops lossy inspect cmd frames calls (failed e) s = inl (e, refl)
clear_input-Loops lossy inspect cmd frames calls done s =
    inr (write_text-Loops lossy inspect cmd calls calls.wrote (with_sent frames s))

-- Either nothing was sent and the answer is an error, or the frames were.
pub transmit-cases :
    (lossy : Bytes → Bytes) (inspect : Inspection) (cmd : Bytes) (frames : List Sent)
    (calls : Calls) (s : R503)
    → ((e : ℕ) × (transmit lossy inspect cmd frames calls s ≡ (some (err (io e)), cleared s)))
      ⊎ Loops lossy inspect cmd (with_sent frames s) (transmit lossy inspect cmd frames calls s)
unfolding transmit
transmit-cases lossy inspect cmd frames calls s =
    clear_input-Loops lossy inspect cmd frames calls calls.cleared s

-- The state has the key, the counter, the disk and the sent frames of another.
abbrev pub Keeps : R503 → R503 → Type 0
Keeps s t =
    (t.key ≡ s.key) × (t.client_counter ≡ s.client_counter) × (t.disk ≡ s.disk) × (t.sent ≡ s.sent)

on_verdict-Keeps :
    (loop : ℕ → R503 → Answer) (s t : R503) (v : Result SensorError Verdict)
    → ((next : ℕ) (w : R503) → Keeps s w → Keeps s (loop next w).1)
    → Keeps s t
    → Keeps s (on_verdict loop t v).1
unfolding on_verdict
on_verdict-Keeps loop s t (err e) h k = k
on_verdict-Keeps loop s t (ok (final body)) h k = k
on_verdict-Keeps loop s t (ok (again called next)) h k = h next _ k

on_reading-Keeps :
    (loop : ℕ → R503 → Answer) (inspect : Inspection) (cmd : Bytes) (seq : ℕ) (s t : R503)
    (r : Reading)
    → ((next : ℕ) (w : R503) → Keeps s w → Keeps s (loop next w).1)
    → Keeps s t
    → Keeps s (on_reading loop inspect cmd seq t r).1
unfolding on_reading
on_reading-Keeps loop inspect cmd seq s t (err e, rx, as') h k = k
on_reading-Keeps loop inspect cmd seq s t (ok none, rx, as') h k = k
on_reading-Keeps loop inspect cmd seq s t (ok (some line), rx, as') h k =
    on_verdict-Keeps loop s (after_reading t rx as') (inspect seq line) h k

pub receive-Keeps :
    (lossy : Bytes → Bytes) (inspect : Inspection) (cmd : Bytes) (fuel seq : ℕ) (s t : R503)
    → Keeps s t
    → Keeps s (receive lossy inspect cmd fuel seq t).1
unfolding receive
receive-Keeps lossy inspect cmd zero seq s t k = k
receive-Keeps lossy inspect cmd (suc fuel) seq s t k =
    on_reading-Keeps (receive lossy inspect cmd fuel) inspect cmd seq s t
      (read_line lossy t.rx_buf t.arrivals)
      (λ next w l. receive-Keeps lossy inspect cmd fuel next s w l) k
