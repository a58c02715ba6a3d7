-- ===== src/Sensor/Authentic.antt =====
-- Whose answers pcside/daemon/src/sensor.rs returns.
use linux_fingerprint_r.Prelude.{
  ℕ, zero, suc, ◌≡◌, ◌≢◌, refl, sym, ap, ◌∙◌, inl, inr, subst, Option, none, some, List, [], ◌∷◌,
  Bytes, codes, ==_iff, >>=-eq-ok, ◌==◌, Result, Done, ok, err, Bool-cases, true, ◌||◌, starts_with,
  strip_prefix, length, ◌⊎◌, ◌++◌, ◌+◌, ◌%◌, ◌^◌, arith,
}
use linux_fingerprint_r.Disk.{Disk}
use linux_fingerprint_r.Counter.{Codec, StateError}
use linux_fingerprint_r.Counter
use linux_fingerprint_r.Framing.{FramingError, verify_response, encode_command}
use linux_fingerprint_r.Sensor.Opening.Lines.{received, Line, read_line-Line}
use linux_fingerprint_r.Sensor.Transmit.{cleared, with_sent, transmit-cases}
use linux_fingerprint_r.Sensor.{
  io, Reading, R503, Answer, Inspection, receive, on_reading, on_verdict, SensorError, Verdict,
  again, final, after_reading, transmit, execute_framed, Calls, after_persist, with_next, read_line,
  enough, Sent, inspect_framed, framing_fault, classify_rest, check_frame, classify, next_seq,
  advance_counter, trim_cr,
}

failed_answer :
    (e : SensorError) (body : Bytes)
    → ◌≢◌ {A = Option (Result SensorError Bytes)} (some (err e)) (some (ok body))
failed_answer e body d = cc d

no_answer : (body : Bytes) → ◌≢◌ {A = Option (Result SensorError Bytes)} none (some (ok body))
no_answer body d = cc d

answer_injective :
    (a b : Bytes) → ◌≡◌ {A = Option (Result SensorError Bytes)} (some (ok a)) (some (ok b)) → a ≡ b
answer_injective a b d = cc d

-- The lines of a text, each inspected with the next number, up to the one that is the answer.
data Read (lossy : Bytes → Bytes) (inspect : Inspection) (body : Bytes) : ℕ → Bytes → Type 0 where
  last :
      (seq : ℕ) (line left : Bytes)
      → inspect seq (trim_cr (lossy line)) ≡ ok (final body)
      → Read lossy inspect body seq (line ++ b'\n' ∷ left)
  more :
      (seq next : ℕ) (line left : Bytes) (called : List Bytes)
      → inspect seq (trim_cr (lossy line)) ≡ ok (again called next)
      → Read lossy inspect body next left
      → Read lossy inspect body seq (line ++ b'\n' ∷ left)

-- An answer that is no error has been read from the text.
abbrev From : (Bytes → Bytes) → Inspection → ℕ → Bytes → Answer → Type 0
From lossy inspect seq text a =
    (body : Bytes) → a.0 ≡ some (ok body) → Read lossy inspect body seq text

abbrev to_come : R503 → Bytes
to_come s = s.rx_buf ++ received s.arrivals

on_verdict-From :
    (lossy : Bytes → Bytes) (loop : ℕ → R503 → Answer) (inspect : Inspection) (seq : ℕ)
    (line : Bytes) (s : R503) (v : Result SensorError Verdict)
    → ((next : ℕ) (t : R503) → From lossy inspect next (to_come t) (loop next t))
    → inspect seq (trim_cr (lossy line)) ≡ v
    → From lossy inspect seq (line ++ b'\n' ∷ to_come s) (on_verdict loop s v)
unfolding on_verdict
on_verdict-From lossy loop inspect seq line s (err e) h p body d = absurd (failed_answer e body d)
on_verdict-From lossy loop inspect seq line s (ok (final text)) h p body d =
    last seq line (to_come s) (p ∙ ap (λ (t : Bytes). ok (final t)) (answer_injective text body d))
on_verdict-From lossy loop inspect seq line s (ok (again called next)) h p body d =
    more seq next line (to_come s) called p (h next _ body d)

on_reading-From :
    (lossy : Bytes → Bytes) (loop : ℕ → R503 → Answer) (inspect : Inspection) (cmd : Bytes)
    (seq : ℕ) (s : R503) (text : Bytes) (r : Reading)
    → ((next : ℕ) (t : R503) → From lossy inspect next (to_come t) (loop next t))
    → Line lossy text r
    → From lossy inspect seq text (on_reading loop inspect cmd seq s r)
unfolding on_reading
on_reading-From lossy loop inspect cmd seq s text (err e, rx, as') h l body d =
    absurd (failed_answer e body d)
on_reading-From lossy loop inspect cmd seq s text (ok none, rx, as') h l body d =
    absurd (failed_answer _ body d)
on_reading-From lossy loop inspect cmd seq s text (ok (some t), rx, as') h l body d =
    let (line, reads, split) = l t refl in
    subst
      (λ (x : Bytes).
        From lossy inspect seq x (on_verdict loop (after_reading s rx as') (inspect seq t)))
      (sym split)
      (on_verdict-From lossy loop inspect seq line (after_reading s rx as') (inspect seq t) h
        (ap (inspect seq) reads))
      body d

receive-From :
    (lossy : Bytes → Bytes) (inspect : Inspection) (cmd : Bytes) (fuel seq : ℕ) (s : R503)
    → From lossy inspect seq (to_come s) (receive lossy inspect cmd fuel seq s)
unfolding receive
receive-From lossy inspect cmd zero seq s body d = absurd (no_answer body d)
receive-From lossy inspect cmd (suc fuel) seq s body d =
    on_reading-From lossy (receive lossy inspect cmd fuel) inspect cmd seq s (to_come s)
      (read_line lossy s.rx_buf s.arrivals) (receive-From lossy inspect cmd fuel)
      (read_line-Line lossy s.rx_buf s.arrivals) body d

-- What a framed line that ends the loop has passed.
verdict_injective : (v w : Verdict) → ◌≡◌ {A = Result SensorError Verdict} (ok v) (ok w) → v ≡ w
verdict_injective v w h = cc h

not_ok_verdict :
    (e : SensorError) (v : Verdict) → ◌≢◌ {A = Result SensorError Verdict} (err e) (ok v)
not_ok_verdict e v h = cc h

again_apart : (called : List Bytes) (n : ℕ) (body : Bytes) → again called n ≢ final body
again_apart called n body h = cc h

final_injective : (a b : Bytes) → final a ≡ final b → a ≡ b
final_injective a b h = cc h

abbrev pub IsAnswer : Bytes → Type 0
IsAnswer body = (starts_with (codes "OK") body || starts_with (codes "ERR") body) ≡ true

classify_rest-final :
    (next : ℕ) (text body : Bytes) (o : Option Bytes)
    → classify_rest next text o ≡ final body
    → (text ≡ body) × IsAnswer text
unfolding classify_rest
classify_rest-final next text body (some rest) h = absurd (again_apart (rest ∷ []) next body h)
classify_rest-final next text body none h =
    elim (Bool-cases (starts_with (codes "OK") text || starts_with (codes "ERR") text)) [
      | inl p ↦ (final_injective text body (rw p at h), p)
      | inr p ↦ absurd (again_apart _ next body (rw p at h))
    ]

check_frame-final :
    (counter seq : ℕ) (frame : ℕ × ℕ × Bytes) (body : Bytes)
    → check_frame counter seq frame ≡ ok (final body)
    → (frame ≡ (counter, seq, body)) × IsAnswer frame.2
unfolding check_frame classify
check_frame-final counter seq (c, n, text) body h = elim (Bool-cases (c == counter)) [
  | inr p ↦ absurd (not_ok_verdict _ _ (rw p at h))
  | inl p ↦ elim (Bool-cases (n == seq)) [
    | inr q ↦ absurd (not_ok_verdict _ _ (rw (p, q) at h))
    | inl q ↦
        let (same, ends) =
          classify_rest-final (next_seq seq) text body (strip_prefix (codes "PROGRESS ") text)
            (verdict_injective _ _ (rw (p, q) at h)) in
        ((λ i. ((==_iff c counter).0 p i, (==_iff n seq).0 q i, same i)), ends)
  ]
]

framing_fault-ok :
    (line : Bytes) (r : Result FramingError (ℕ × ℕ × Bytes)) (frame : ℕ × ℕ × Bytes)
    → framing_fault line r ≡ ok frame
    → r ≡ ok frame
unfolding framing_fault
framing_fault-ok line (ok f) frame h = cc h
framing_fault-ok line (err e) frame h = cc h

-- A framed line ends the loop only where its MAC is the key's, its counter that of the command and its
-- sequence number the expected one.
inspect_framed-final :
    (key : Bytes) (counter seq : ℕ) (line body : Bytes)
    → inspect_framed key counter seq line ≡ ok (final body)
    → (verify_response key line ≡ ok (counter, seq, body)) × IsAnswer body
unfolding inspect_framed
inspect_framed-final key counter seq line body h = elim (Bool-cases (length line == 0)) [
  | inl p ↦ absurd (again_apart [] seq body (verdict_injective _ _ (rw p at h)))
  | inr p ↦ elim (Bool-cases (starts_with (codes "R ") line)) [
    | inr q ↦ absurd (not_ok_verdict _ _ (rw (p, q) at h))
    | inl q ↦
        let (frame, e, f) =
          >>=-eq-ok (framing_fault line (verify_response key line)) (check_frame counter seq)
            (rw (p, q) at h) in
        let (same, ends) = check_frame-final counter seq frame body f in
        (
          framing_fault-ok line (verify_response key line) frame e ∙ (λ i. ok (same i)),
          subst IsAnswer (λ i. (same i).2) ends,
        )
  ]
]

failed_apart :
    (e : ℕ) (t : R503) (body : Bytes) (a : Answer)
    → a ≡ (some (err (io e)), t)
    → a.0 ≢ some (ok body)
failed_apart e t body a p d = failed_answer (io e) body (sym (λ i. (p i).0) ∙ d)

classify_rest-again :
    (next got : ℕ) (text : Bytes) (called : List Bytes) (o : Option Bytes)
    → classify_rest next text o ≡ again called got
    → got ≡ next
unfolding classify_rest
classify_rest-again next got text called (some rest) h = cc h
classify_rest-again next got text called none h =
    elim (Bool-cases (starts_with (codes "OK") text || starts_with (codes "ERR") text)) [
      | inl p ↦ absurd (again_apart called got text (sym (rw p at h)))
      | inr p ↦ cc (rw p at h)
    ]

check_frame-again :
    (counter seq next : ℕ) (frame : ℕ × ℕ × Bytes) (called : List Bytes)
    → check_frame counter seq frame ≡ ok (again called next)
    → (frame ≡ (counter, seq, frame.2)) × (next ≡ next_seq seq)
unfolding check_frame classify
check_frame-again counter seq next (c, n, text) called h = elim (Bool-cases (c == counter)) [
  | inr p ↦ absurd (not_ok_verdict _ _ (rw p at h))
  | inl p ↦ elim (Bool-cases (n == seq)) [
    | inr q ↦ absurd (not_ok_verdict _ _ (rw (p, q) at h))
    | inl q ↦ (
      (λ i. ((==_iff c counter).0 p i, (==_iff n seq).0 q i, text)),
      classify_rest-again (next_seq seq) next text called (strip_prefix (codes "PROGRESS ") text)
          (verdict_injective _ _ (rw (p, q) at h)),
    )
  ]
]

empty_line : (line : Bytes) → (length line == 0) ≡ true → line ≡ []
empty_line [] h = refl
empty_line (b ∷ line) h = absurd (ground arith)

again_injective : (a b : List Bytes) (m n : ℕ) → again a m ≡ again b n → m ≡ n
again_injective a b m n h = cc h

-- A framed line after which the loop goes on is empty, or has the key's MAC, the counter of the command and the
-- expected sequence number, and then the next one is expected.
inspect_framed-again :
    (key : Bytes) (counter seq next : ℕ) (line : Bytes) (called : List Bytes)
    → inspect_framed key counter seq line ≡ ok (again called next)
    → ((line ≡ []) × (next ≡ seq))
      ⊎ ((text : Bytes) × (verify_response key line ≡ ok (counter, seq, text))
          × (next ≡ next_seq seq))
unfolding inspect_framed
inspect_framed-again key counter seq next line called h = elim (Bool-cases (length line == 0)) [
  | inl p ↦ inl (
    empty_line line p,
    sym (again_injective [] called seq next (verdict_injective _ _ (rw p at h))),
  )
  | inr p ↦ elim (Bool-cases (starts_with (codes "R ") line)) [
    | inr q ↦ absurd (not_ok_verdict _ _ (rw (p, q) at h))
    | inl q ↦
        let (frame, e, f) =
          >>=-eq-ok (framing_fault line (verify_response key line)) (check_frame counter seq)
            (rw (p, q) at h) in
        let (same, step) = check_frame-again counter seq next frame called f in
        inr (frame.2, framing_fault-ok line (verify_response key line) frame e ∙ ap ok same, step)
  ]
]

-- What was received, line for line: empty lines, responses to the command with this counter that have the key's
-- MAC and are numbered one after the other, and at last the one with the answer.
pub data Conversation (lossy : Bytes → Bytes) (key : Bytes) (counter : ℕ) (body : Bytes)
    : ℕ → Bytes → Type 0 where
  blank :
      (seq : ℕ) (line left : Bytes)
      → trim_cr (lossy line) ≡ []
      → Conversation lossy key counter body seq left
      → Conversation lossy key counter body seq (line ++ b'\n' ∷ left)
  progress :
      (seq : ℕ) (line left text : Bytes)
      → verify_response key (trim_cr (lossy line)) ≡ ok (counter, seq, text)
      → Conversation lossy key counter body ((seq + 1) % 2 ^ 32) left
      → Conversation lossy key counter body seq (line ++ b'\n' ∷ left)
  answer :
      (seq : ℕ) (line left : Bytes)
      → verify_response key (trim_cr (lossy line)) ≡ ok (counter, seq, body)
      → IsAnswer body
      → Conversation lossy key counter body seq (line ++ b'\n' ∷ left)

Read-Conversation :
    (lossy : Bytes → Bytes) (key : Bytes) (counter : ℕ) (body : Bytes) (seq : ℕ) (text : Bytes)
    → Read lossy (inspect_framed key counter) body seq text
    → Conversation lossy key counter body seq text
Read-Conversation lossy key counter body n t (last seq line left h) =
    let (accepted, ends) = inspect_framed-final key counter seq (trim_cr (lossy line)) body h in
    answer seq line left accepted ends
Read-Conversation lossy key counter body n t (more seq next line left called h rest) =
    let talk = Read-Conversation lossy key counter body next left rest in
    elim (inspect_framed-again key counter seq next (trim_cr (lossy line)) called h) [
      | inl (empty, same) ↦
          blank seq line left empty
            (subst (λ (k : ℕ). Conversation lossy key counter body k left) same talk)
      | inr (text, accepted, step) ↦
          progress seq line left text accepted
            (subst (λ (k : ℕ). Conversation lossy key counter body k left) step talk)
    ]

transmit-From :
    (lossy : Bytes → Bytes) (inspect : Inspection) (cmd : Bytes) (frames : List Sent)
    (calls : Calls) (s : R503)
    → From lossy inspect 0 (received s.arrivals) (transmit lossy inspect cmd frames calls s)
transmit-From lossy inspect cmd frames calls s body d =
    elim (transmit-cases lossy inspect cmd frames calls s) [
      | inl (e, p) ↦ absurd (failed_apart e (cleared s) body _ p d)
      | inr (inl (e, p)) ↦ absurd (failed_apart e (with_sent frames s) body _ p d)
      | inr (inr p) ↦
          receive-From lossy inspect cmd (enough (with_sent frames s)) 0 (with_sent frames s) body
            (sym (λ i. (p i).0) ∙ d)
    ]

after_persist-From :
    (lossy : Bytes → Bytes) (calls : Calls) (cmd key : Bytes) (next : ℕ) (s : R503)
    (r : Done StateError × Disk)
    → From lossy
        (inspect_framed key s.client_counter)
        0
        (received s.arrivals)
        (after_persist lossy calls cmd key next s r)
unfolding after_persist
after_persist-From lossy calls cmd key next s (err e, d) body h = absurd (failed_answer _ body h)
after_persist-From lossy calls cmd key next s (ok u, d) body h =
    transmit-From lossy (inspect_framed key s.client_counter) cmd
      (record { counter = s.client_counter; frame = encode_command key s.client_counter cmd } ∷ [])
      calls (record s { disk = d; client_counter = next }) body h

with_next-From :
    (lossy : Bytes → Bytes) (c : Codec) (calls : Calls) (cmd key : Bytes) (s : R503)
    (r : Result SensorError ℕ)
    → From lossy
        (inspect_framed key s.client_counter)
        0
        (received s.arrivals)
        (with_next lossy c calls cmd key s r)
unfolding with_next
with_next-From lossy c calls cmd key s (err e) body h = absurd (failed_answer e body h)
with_next-From lossy c calls cmd key s (ok next) body h =
    after_persist-From lossy calls cmd key next s
      (Counter.save c calls.directory calls.saved next s.disk) body h

-- Where a framed command returns without an error, what arrived at the port is, from its first byte on and line
-- for line, a conversation under the key and the counter that the command was sent with: empty lines and
-- responses with the key's MAC, that counter and the sequence numbers from 0 on, the last of which has the
-- body that is returned, beginning with OK or ERR.
pub execute_framed-authentic :
    (lossy : Bytes → Bytes) (c : Codec) (calls : Calls) (cmd key : Bytes) (s : R503) (body : Bytes)
    → (execute_framed lossy c calls cmd key s).0 ≡ some (ok body)
    → Conversation lossy key s.client_counter body 0 (received s.arrivals)
unfolding execute_framed
execute_framed-authentic lossy c calls cmd key s body h =
    Read-Conversation lossy key s.client_counter body 0 (received s.arrivals)
      (with_next-From lossy c calls cmd key s (advance_counter s.client_counter) body h)
