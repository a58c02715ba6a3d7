-- ===== src/Pairing/Link.antt =====
-- The link of pcside/daemon/src/pairing.rs to the firmware: its reader of lines, a command, and the opening. The
-- clock is outside: the reads to come say when a deadline has passed.
pub mod Replies
use linux_fingerprint_r.Prelude.{
  ℕ, zero, suc, ◌+◌, ◌==◌, Bool, true, false, ◌||◌, Option, none, some, List, [], ◌∷◌, ◌++◌, Bytes,
  codes, eq, length, split_once, starts_with, Result, ok, err, if◌then◌else◌,
}
use linux_fingerprint_r.Disk.{Outcome, done, failed}
use linux_fingerprint_r.Pairing.{PairError, link, no_reply, no_sync}
use linux_fingerprint_r.Sensor.{Arrival, chunk, silence, expired, broken, trim_cr, weight}

-- What `read_line` returns, with the buffer and the reads that are left.
abbrev pub Received : Type 0
Received = Result PairError (Option Bytes) × Bytes × List Arrival

-- A line that is there is taken; `rest` is what reading the port leads to.
unfoldable pub take_line :
    (Bytes → Bytes) → List Arrival → Option (Bytes × Bytes) → Received → Received
take_line lossy as' (some (line, left)) rest = (ok (some (lossy (trim_cr line))), left, as')
take_line lossy as' none rest = rest

unfoldable pub read_reply : (Bytes → Bytes) → Bytes → List Arrival → Received
read_reply lossy rx [] = take_line lossy [] (split_once b'\n' rx) (ok none, rx, [])
read_reply lossy rx (expired ∷ as') =
    take_line lossy (expired ∷ as') (split_once b'\n' rx) (ok none, rx, as')
read_reply lossy rx (silence ∷ as') =
    take_line lossy (silence ∷ as') (split_once b'\n' rx) (read_reply lossy rx as')
read_reply lossy rx (chunk b ∷ as') =
    take_line lossy (chunk b ∷ as') (split_once b'\n' rx) (read_reply lossy (rx ++ b) as')
read_reply lossy rx (broken e ∷ as') =
    take_line lossy (broken e ∷ as') (split_once b'\n' rx) (err (link e), rx, as')

-- What is skipped: an empty line, and news of the progress.
unfoldable pub is_skipped : Bytes → Bool
is_skipped line = (length line == 0) || starts_with (codes "PROGRESS ") line

-- One round; `loop` is the next.
unfoldable pub on_reply :
    (Bytes → List Arrival → Option (Result PairError Bytes))
    → Bytes
    → Received
    → Option (Result PairError Bytes)
on_reply loop label (err e, rx, as') = some (err e)
on_reply loop label (ok none, rx, as') = some (err (no_reply label))
on_reply loop label (ok (some line), rx, as') =
    let rest = loop rx as' in if is_skipped line then rest else some (ok line)

-- With fuel; `none` means that the fuel ran out.
unfoldable pub await_line :
    (Bytes → Bytes) → Bytes → ℕ → Bytes → List Arrival → Option (Result PairError Bytes)
await_line lossy label zero rx as' = none
await_line lossy label (suc fuel) rx as' =
    on_reply (await_line lossy label fuel) label (read_reply lossy rx as')

-- What a command meets: its text, its line feed and the flush, and what is read then.
pub record Exchange : Type 0 where
  pub written : Outcome
  pub ended : Outcome
  pub flushed : Outcome
  pub arrivals : List Arrival

after_flush : (Bytes → Bytes) → Bytes → List Arrival → Outcome → Option (Result PairError Bytes)
after_flush lossy label as' (failed e) = some (err (link e))
after_flush lossy label as' done = await_line lossy label (suc (weight as')) [] as'

after_end : (Bytes → Bytes) → Bytes → Exchange → Outcome → Option (Result PairError Bytes)
unfolding after_flush
after_end lossy label x (failed e) = some (err (link e))
after_end lossy label x done = after_flush lossy label x.arrivals x.flushed

after_write : (Bytes → Bytes) → Bytes → Exchange → Outcome → Option (Result PairError Bytes)
unfolding after_end
after_write lossy label x (failed e) = some (err (link e))
after_write lossy label x done = after_end lossy label x x.ended

-- The buffer is cleared first; a failing clearing of the port's queue is ignored. The text that is written shows
-- nowhere in the result: an error names the label.
unfoldable pub cmd_labeled :
    (Bytes → Bytes) → Bytes → Bytes → Exchange → Option (Result PairError Bytes)
unfolding after_write
cmd_labeled lossy wire label x = after_write lossy label x x.written

-- One ping of `open`, with the last line seen: a pong, or none in its time.
on_pong :
    (Option Bytes → Bytes → List Arrival → Option (Result PairError (Bool × Option Bytes)))
    → Option Bytes
    → Received
    → Option (Result PairError (Bool × Option Bytes))
on_pong loop last (err e, rx, as') = some (err e)
on_pong loop last (ok none, rx, as') = some (ok (false, last))
on_pong loop last (ok (some line), rx, as') =
    let rest = loop (some line) rx as' in
    if eq line (codes "OK pong") then some (ok (true, last)) else rest

-- Whether the time of a ping is over when the next line is asked for: then no line that waits is taken either.
is_over : List Arrival → Bool
is_over (expired ∷ as') = true
is_over (chunk b ∷ as') = false
is_over (silence ∷ as') = false
is_over (broken e ∷ as') = false
is_over [] = false

unfoldable pub await_sync :
    (Bytes → Bytes)
    → ℕ
    → Option Bytes
    → Bytes
    → List Arrival
    → Option (Result PairError (Bool × Option Bytes))
unfolding on_pong is_over
await_sync lossy zero last rx as' = none
await_sync lossy (suc fuel) last rx as' =
    if is_over as'
    then some (ok (false, last))
    else on_pong (await_sync lossy fuel) last (read_reply lossy rx as')

-- The text and the line feed of a ping are written in one call, which `written` is; `ended` is not met.
ping_flushed :
    (Bytes → Bytes)
    → Option Bytes
    → List Arrival
    → Outcome
    → Option (Result PairError (Bool × Option Bytes))
ping_flushed lossy last as' (failed e) = some (err (link e))
ping_flushed lossy last as' done = await_sync lossy (suc (weight as')) last [] as'

ping_written :
    (Bytes → Bytes)
    → Option Bytes
    → Exchange
    → Outcome
    → Option (Result PairError (Bool × Option Bytes))
unfolding ping_flushed
ping_written lossy last x (failed e) = some (err (link e))
ping_written lossy last x done = ping_flushed lossy last x.arrivals x.flushed

next_ping :
    (Option Bytes → Option (Result PairError (Unit {0})))
    → Option (Result PairError (Bool × Option Bytes))
    → Option (Result PairError (Unit {0}))
next_ping more none = none
next_ping more (some (err e)) = some (err e)
next_ping more (some (ok (true, last))) = some (ok tt)
next_ping more (some (ok (false, last))) = more last

-- `Link::open` on an open port: pings until a pong, or until the attempts end with the deadline.
unfoldable pub open_link :
    (Bytes → Bytes) → List Exchange → Option Bytes → Option (Result PairError (Unit {0}))
unfolding next_ping ping_written
open_link lossy [] last = some (err (no_sync last))
open_link lossy (x ∷ xs) last = next_ping (open_link lossy xs) (ping_written lossy last x x.written)
