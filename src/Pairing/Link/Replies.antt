-- ===== src/Pairing/Link/Replies.antt =====
-- A command on the link of pcside/daemon/src/pairing.rs comes to an end with a reply or an error.
use linux_fingerprint_r.Prelude.{
  ℕ, zero, suc, ◌+◌, ◌≤◌, ◌<◌, ◌≡◌, ◌≢◌, refl, sym, ap, ◌∙◌, subst, inl, inr, true, false, codes,
  append_assoc, starts_with, Bool-cases, Option, none, some, List, [], ◌∷◌, ◌++◌, Bytes, length,
  length-append, split_once, split_once_sound, Result, ok, err, arith,
}
use linux_fingerprint_r.Disk.{Outcome, done, failed}
use linux_fingerprint_r.Pairing.{PairError, link}
use linux_fingerprint_r.Pairing.Link.{
  Received, take_line, read_reply, is_skipped, on_reply, await_line, Exchange, after_flush,
  after_end, after_write, cmd_labeled,
}
use linux_fingerprint_r.Sensor.Opening.Lines.{received}
use linux_fingerprint_r.Sensor.{trim_cr, Arrival, chunk, silence, expired, broken, weight}

-- A line that is read is a part of the text that stands before a line feed, and the rest is still to come.
abbrev Line : (Bytes → Bytes) → Bytes → Received → Type 0
Line lossy text r =
    (t : Bytes)
    → r.0 ≡ ok (some t)
    → (line : Bytes) × (lossy (trim_cr line) ≡ t) × (text ≡ line ++ b'\n' ∷ (r.1 ++ received r.2))

no-Line :
    (lossy : Bytes → Bytes) (text rx : Bytes) (as' : List Arrival)
    → Line lossy text (ok none, rx, as')
no-Line lossy text rx as' t h = absurd (cc h)

broken-Line :
    (lossy : Bytes → Bytes) (text : Bytes) (e : PairError) (rx : Bytes) (as' : List Arrival)
    → Line lossy text (err e, rx, as')
broken-Line lossy text e rx as' t h = absurd (cc h)

line_ok :
    {a b : Bytes} → ◌≡◌ {A = Result PairError (Option Bytes)} (ok (some a)) (ok (some b)) → a ≡ b
line_ok h = cc h

take_line-Line :
    (lossy : Bytes → Bytes) (rx : Bytes) (as' : List Arrival) (o : Option (Bytes × Bytes))
    (rest : Received)
    → split_once b'\n' rx ≡ o
    → Line lossy (rx ++ received as') rest
    → Line lossy (rx ++ received as') (take_line lossy as' o rest)
unfolding take_line
take_line-Line lossy rx as' (some (line, left)) rest e h = λ t d. (
  line,
  line_ok d,
  ap (λ (s : Bytes). s ++ received as') (split_once_sound b'\n' rx line left e)
      ∙ append_assoc line (b'\n' ∷ left) (received as'),
)
take_line-Line lossy rx as' none rest e h = h

read_reply-Line :
    (lossy : Bytes → Bytes) (rx : Bytes) (as' : List Arrival)
    → Line lossy (rx ++ received as') (read_reply lossy rx as')
unfolding read_reply received
read_reply-Line lossy rx [] = take_line-Line lossy rx [] _ _ refl (no-Line lossy _ rx [])
read_reply-Line lossy rx (expired ∷ as') =
    take_line-Line lossy rx (expired ∷ as') _ _ refl (no-Line lossy _ rx as')
read_reply-Line lossy rx (silence ∷ as') =
    take_line-Line lossy rx (silence ∷ as') _ (read_reply lossy rx as') refl
      (read_reply-Line lossy rx as')
read_reply-Line lossy rx (chunk b ∷ as') =
    take_line-Line lossy rx (chunk b ∷ as') _ (read_reply lossy (rx ++ b) as') refl
      (rw (← append_assoc rx b (received as')) (read_reply-Line lossy (rx ++ b) as'))
read_reply-Line lossy rx (broken e ∷ as') =
    take_line-Line lossy rx (broken e ∷ as') _ _ refl (broken-Line lossy _ (link e) rx as')

-- A reading that brings a line leaves less to read than there was.
abbrev Less : ℕ → Received → Type 0
Less n (ok (some line), rx, as') = length rx + weight as' < n
Less n (ok none, rx, as') = Unit
Less n (err e, rx, as') = Unit

Less-mono : (m n : ℕ) (r : Received) → m ≤ n → Less m r → Less n r
Less-mono m n (ok (some line), rx, as') h k = omega arith
Less-mono m n (ok none, rx, as') h k = tt
Less-mono m n (err e, rx, as') h k = tt

take_line-Less :
    (lossy : Bytes → Bytes) (rx : Bytes) (as' : List Arrival) (o : Option (Bytes × Bytes))
    (rest : Received)
    → split_once b'\n' rx ≡ o
    → Less (length rx + weight as') rest
    → Less (length rx + weight as') (take_line lossy as' o rest)
unfolding take_line
take_line-Less lossy rx as' (some (line, left)) rest e h = omega (
  arith,
  ap (λ (t : Bytes). length t) (split_once_sound b'\n' rx line left e),
  length-append line (b'\n' ∷ left),
)
take_line-Less lossy rx as' none rest e h = h

read_reply-Less :
    (lossy : Bytes → Bytes) (rx : Bytes) (as' : List Arrival)
    → Less (length rx + weight as') (read_reply lossy rx as')
unfolding read_reply weight
read_reply-Less lossy rx [] = take_line-Less lossy rx [] _ _ refl tt
read_reply-Less lossy rx (expired ∷ as') = take_line-Less lossy rx (expired ∷ as') _ _ refl tt
read_reply-Less lossy rx (silence ∷ as') =
    take_line-Less lossy rx (silence ∷ as') _ (read_reply lossy rx as') refl
      (Less-mono _ _ (read_reply lossy rx as') (omega arith) (read_reply-Less lossy rx as'))
read_reply-Less lossy rx (chunk b ∷ as') =
    take_line-Less lossy rx (chunk b ∷ as') _ (read_reply lossy (rx ++ b) as') refl (
      Less-mono _ _ (read_reply lossy (rx ++ b) as') (omega (arith, length-append rx b))
        (read_reply-Less lossy (rx ++ b) as'))
read_reply-Less lossy rx (broken e ∷ as') = take_line-Less lossy rx (broken e ∷ as') _ _ refl tt

-- The line stands in the text, before a line feed, and is neither empty nor news of the progress.
abbrev pub Replied : (Bytes → Bytes) → Bytes → Bytes → Type 0
Replied lossy text reply =
    (before line behind : Bytes) × (text ≡ before ++ (line ++ b'\n' ∷ behind))
    × (lossy (trim_cr line) ≡ reply)
    × (reply ≢ [])
    × ((news : Bytes) → reply ≢ codes "PROGRESS " ++ news)

abbrev pub IsReply : (Bytes → Bytes) → Bytes → Result PairError Bytes → Type 0
IsReply lossy text (ok reply) = Replied lossy text reply
IsReply lossy text (err e) = Unit

abbrev pub Ends : (Bytes → Bytes) → Bytes → Option (Result PairError Bytes) → Type 0
Ends lossy text o = (r : Result PairError Bytes) × (o ≡ some r) × IsReply lossy text r

later :
    (lossy : Bytes → Bytes) (line text : Bytes) (r : Result PairError Bytes)
    → IsReply lossy text r
    → IsReply lossy (line ++ b'\n' ∷ text) r
later lossy line text (ok reply) (before, found, behind, split, reads, full, said) = (
  line ++ b'\n' ∷ before,
  found,
  behind,
  ap (λ (s : Bytes). line ++ b'\n' ∷ s) split
      ∙ sym (append_assoc line (b'\n' ∷ before) (found ++ b'\n' ∷ behind)),
  reads,
  full,
  said,
)
later lossy line text (err e) h = tt

not_both : true ≢ false
not_both k = cc k

skips_empty : is_skipped [] ≡ true
unfolding is_skipped
skips_empty = refl

skips_news : (news : Bytes) → is_skipped (codes "PROGRESS " ++ news) ≡ true
unfolding is_skipped starts_with
skips_news news = ground arith

empty-is_skipped : (line : Bytes) → is_skipped line ≡ false → line ≢ []
empty-is_skipped line h e =
    not_both (sym skips_empty ∙ subst (λ (t : Bytes). is_skipped t ≡ false) e h)

news-is_skipped : (line news : Bytes) → is_skipped line ≡ false → line ≢ codes "PROGRESS " ++ news
news-is_skipped line news h e =
    not_both (sym (skips_news news) ∙ subst (λ (t : Bytes). is_skipped t ≡ false) e h)

on_reply-Ends :
    (lossy : Bytes → Bytes) (text : Bytes) (n : ℕ)
    (loop : Bytes → List Arrival → Option (Result PairError Bytes)) (label : Bytes) (r : Received)
    → Line lossy text r
    → Less n r
    → ((rx : Bytes) (as' : List Arrival)
        → length rx + weight as' < n
        → Ends lossy (rx ++ received as') (loop rx as'))
    → Ends lossy text (on_reply loop label r)
unfolding on_reply
on_reply-Ends lossy text n loop label (err e, rx, as') k l h = (_, refl, tt)
on_reply-Ends lossy text n loop label (ok none, rx, as') k l h = (_, refl, tt)
on_reply-Ends lossy text n loop label (ok (some t), rx, as') k l h =
    let (line, reads, split) = k t refl in
    elim (Bool-cases (is_skipped t)) [
      | inl e ↦
          let (r, same, replied) = h rx as' l in
          rw e (r, same, rw split (later lossy line (rx ++ received as') r replied))
      | inr e ↦ (
        ok t,
        rw e refl,
        (
          [],
          line,
          rx ++ received as',
          split,
          reads,
          empty-is_skipped t e,
          λ news. news-is_skipped t news e,
        ),
      )
    ]

await_line-Ends :
    (lossy : Bytes → Bytes) (label : Bytes) (fuel : ℕ) (rx : Bytes) (as' : List Arrival)
    → length rx + weight as' < fuel
    → Ends lossy (rx ++ received as') (await_line lossy label fuel rx as')
unfolding await_line
await_line-Ends lossy label zero rx as' h = absurd (omega arith)
await_line-Ends lossy label (suc fuel) rx as' h =
    on_reply-Ends lossy (rx ++ received as') (length rx + weight as') (await_line lossy label fuel)
      label (read_reply lossy rx as') (read_reply-Line lossy rx as') (read_reply-Less lossy rx as')
      (λ left rest k. await_line-Ends lossy label fuel left rest (omega arith))

after_flush-Ends :
    (lossy : Bytes → Bytes) (label : Bytes) (as' : List Arrival) (o : Outcome)
    → Ends lossy (received as') (after_flush lossy label as' o)
unfolding after_flush
after_flush-Ends lossy label as' (failed e) = (_, refl, tt)
after_flush-Ends lossy label as' done =
    await_line-Ends lossy label (suc (weight as')) [] as' (omega arith)

after_end-Ends :
    (lossy : Bytes → Bytes) (label : Bytes) (x : Exchange) (o : Outcome)
    → Ends lossy (received x.arrivals) (after_end lossy label x o)
unfolding after_end
after_end-Ends lossy label x (failed e) = (_, refl, tt)
after_end-Ends lossy label x done = after_flush-Ends lossy label x.arrivals x.flushed

after_write-Ends :
    (lossy : Bytes → Bytes) (label : Bytes) (x : Exchange) (o : Outcome)
    → Ends lossy (received x.arrivals) (after_write lossy label x o)
unfolding after_write
after_write-Ends lossy label x (failed e) = (_, refl, tt)
after_write-Ends lossy label x done = after_end-Ends lossy label x x.ended

-- A command comes to an end, whatever the port sends, with an error or with a line that has been received after
-- the command was written, is not empty and does not begin with "PROGRESS ".
pub cmd_labeled-Ends :
    (lossy : Bytes → Bytes) (wire label : Bytes) (x : Exchange)
    → Ends lossy (received x.arrivals) (cmd_labeled lossy wire label x)
unfolding cmd_labeled
cmd_labeled-Ends lossy wire label x = after_write-Ends lossy label x x.written
