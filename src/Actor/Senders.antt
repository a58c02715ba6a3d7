-- ===== src/Actor/Senders.antt =====
-- The callers' side of pcside/daemon/src/sensor_actor.rs: a request with a channel of its own goes into the queue,
-- and its response is awaited. Others may send requests while one waits.
use linux_fingerprint_r.Prelude.{
  ℕ, suc, ◌==◌, ◌≡◌, ◌⊎◌, refl, sym, inl, inr, Bool, true, false, Bool-cases, Option, none, some,
  List, [], ◌∷◌, ◌++◌, Result, ok, err, Done, if◌then◌else◌, arith, subst,
}
use linux_fingerprint_r.Actor
use linux_fingerprint_r.Actor.{
  Operation, SensorRequest, ActorError, worker_gone, Driver, ErrorKind, Response, Worker, work,
}
use linux_fingerprint_r.Actor.Responses.{channels, requested, work-channels}

-- What the handles of the actor share: the number of the next channel, the queue, and whether the worker is
-- there.
pub record Mailbox : Type 0 where
  pub next : ℕ
  pub queue : List SensorRequest
  pub alive : Bool

unfoldable pub send : SensorRequest → Mailbox → Done ActorError × Mailbox
send req l =
    if l.alive then (ok tt, record l { queue = l.queue ++ req ∷ [] }) else (err worker_gone, l)

module _ (D : Driver) (kind : ℕ → ErrorKind) where
  -- The response on a channel; there is none where its sender was dropped.
  unfoldable pub reply_on : ℕ → List (Response D kind) → Option (Result ActorError D.Reply)
  reply_on c [] = none
  reply_on c (r ∷ rs) = if r.to == c then some r.result else reply_on c rs

  awaited : Option (Result ActorError D.Reply) → Result ActorError D.Reply
  awaited none = err worker_gone
  awaited (some r) = r

  await_reply :
      ℕ → List SensorRequest → Worker D kind → Done ActorError × Mailbox → Result ActorError D.Reply
  unfolding awaited
  await_reply c behind w (err e, l) = err e
  await_reply c behind w (ok _, l) =
      awaited (reply_on c (work D kind (l.queue ++ behind) w).responses)

  unfoldable pub ask :
      Operation → List SensorRequest → Mailbox → Worker D kind → Result ActorError D.Reply
  unfolding await_reply
  ask op behind l w =
      await_reply l.next behind w
        (send (record { operation = op; channel = l.next }) (record l { next = suc l.next }))

  abbrev pub Asking : Type 0
  Asking = List SensorRequest → Mailbox → Worker D kind → Result ActorError D.Reply

  abbrev pub ask_info : Asking
  ask_info = ask Actor.info

  abbrev pub ask_enroll : ℕ → Asking
  ask_enroll slot = ask (Actor.enroll slot)

  abbrev pub ask_verify : Asking
  ask_verify = ask Actor.verify

  abbrev pub ask_identify : Asking
  ask_identify = ask Actor.identify

  abbrev pub ask_delete : ℕ → Asking
  ask_delete slot = ask (Actor.delete slot)

  abbrev pub ask_clear : Asking
  ask_clear = ask Actor.clear

  abbrev pub ask_wake : Asking
  ask_wake = ask Actor.wake

  abbrev pub ask_ping : Asking
  ask_ping = ask Actor.ping

  abbrev pub ask_led_off : Asking
  ask_led_off = ask Actor.led_off

  abbrev In : ℕ → List ℕ → Type 0
  In c [] = ⊥
  In c (x ∷ xs) = (x ≡ c) ⊎ In c xs

  In-append : (c : ℕ) (xs ys : List ℕ) → In c (xs ++ ys) → In c xs ⊎ In c ys
  In-append c [] ys i = inr i
  In-append c (x ∷ xs) ys (inl e) = inl (inl e)
  In-append c (x ∷ xs) ys (inr i) = elim (In-append c xs ys i) [
    | inl j ↦ inl (inr j)
    | inr j ↦ inr j
  ]

  In-prepend : (c : ℕ) (xs ys : List ℕ) → In c ys → In c (xs ++ ys)
  In-prepend c [] ys i = i
  In-prepend c (x ∷ xs) ys i = inr (In-prepend c xs ys i)

  apart : (a c : ℕ) → (a == c) ≡ false → a ≡ c → ⊥
  apart a c h e = ground arith

  reply_on-In :
      (c : ℕ) (rs : List (Response D kind))
      → In c (channels D kind rs)
      → (r : Result ActorError D.Reply) × (reply_on c rs ≡ some r)
  unfolding reply_on channels
  reply_on-In c [] i = absurd i
  reply_on-In c (r ∷ rs) i = elim (Bool-cases (r.to == c)) [
    | inl e ↦ (r.result, rw e refl)
    | inr e ↦ elim (In-append c (channels D kind rs) (r.to ∷ []) i) [
      | inl there ↦ rw e (reply_on-In c rs there)
      | inr last ↦ elim last [
        | inl same ↦ absurd (apart r.to c e same)
        | inr none_there ↦ absurd none_there
      ]
    ]
  ]

  requested-In :
      (c : ℕ) (op : Operation) (before behind : List SensorRequest)
      → In c (requested D kind ((before ++ record { operation = op; channel = c } ∷ []) ++ behind))
  unfolding requested
  requested-In c op [] behind = inl refl
  requested-In c op (req ∷ before) behind = inr (requested-In c op before behind)

  awaited-some :
      (o : Option (Result ActorError D.Reply)) (r : Result ActorError D.Reply)
      → o ≡ some r
      → o ≡ some (awaited o)
  unfolding awaited
  awaited-some none r h = absurd (cc h)
  awaited-some (some x) r h = refl

  await_reply-alive :
      (op : Operation) (behind : List SensorRequest) (l : Mailbox) (w : Worker D kind) (b : Bool)
      → b ≡ true
      → reply_on l.next
          (work D kind
            ((l.queue ++ record { operation = op; channel = l.next } ∷ []) ++ behind)
            w).responses
        ≡ some (
            await_reply l.next behind w (
              send
                (record { operation = op; channel = l.next })
                (record l { next = suc l.next; alive = b })))
  unfolding await_reply send
  await_reply-alive op behind l w false h = absurd (cc h)
  await_reply-alive op behind l w true h =
      let queue = (l.queue ++ record { operation = op; channel = l.next } ∷ []) ++ behind in
      let answered =
        subst (λ (cs : List ℕ). In l.next cs) (sym (work-channels D kind queue w))
          (In-prepend l.next (channels D kind w.responses) (requested D kind queue)
            (requested-In l.next op l.queue behind)) in
      let (r, found) = reply_on-In l.next (work D kind queue w).responses answered in
      awaited-some (reply_on l.next (work D kind queue w).responses) r found

  -- While the worker is there, what a request returns is the response that the worker has sent on its channel,
  -- whatever requests stand before it and behind it in the queue.
  pub ask-replied :
      (op : Operation) (behind : List SensorRequest) (l : Mailbox) (w : Worker D kind)
      → l.alive ≡ true
      → reply_on l.next
          (work D kind
            ((l.queue ++ record { operation = op; channel = l.next } ∷ []) ++ behind)
            w).responses
        ≡ some (ask op behind l w)
  unfolding ask
  ask-replied op behind l w h = await_reply-alive op behind l w l.alive h
