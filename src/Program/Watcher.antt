-- ===== src/Program/Watcher.antt =====
-- spawn_disconnect_watcher of pcside/daemon/src/main.rs: a claim goes with the client that holds it.
use linux_fingerprint_r.Prelude.{
  ℕ, ◌≡◌, ◌⊎◌, refl, Bool, true, false, not, ◌||◌, Option, none, some, List, [], ◌∷◌, ◌++◌, Bytes,
  codes, inl, inr, starts_with, if◌then◌else◌, All, arith, Bool-cases, subst, sym, ap,
}
use linux_fingerprint_r.Device.{
  DeviceState, handle_client_disconnect, holds, unclaimed, without_action,
}

-- A signal NameOwnerChanged: the name, the owners before and after, and whether the device is served; or its
-- arguments cannot be unpacked.
pub data Signal : Type 0 where
  unreadable : Signal
  changed : Bytes → Option Bytes → Option Bytes → Bool → Signal

-- `unwrap_or("")` and `is_empty`
nobody : Option Bytes → Bool
nobody none = true
nobody (some []) = true
nobody (some (b ∷ s)) = false

unfoldable pub departed : Bytes → Option Bytes → Option Bytes → Bool
unfolding nobody
departed name old new =
    if not (starts_with (codes ":") name) then false else not (nobody old || not (nobody new))

unfoldable pub on_signal : Signal → DeviceState → DeviceState
on_signal unreadable st = st
on_signal (changed name old new served) st =
    if not (departed name old new)
    then st
    else if served
    then handle_client_disconnect name st
    else st

unfoldable pub watch : List Signal → DeviceState → DeviceState
watch [] st = st
watch (s ∷ ss) st = watch ss (on_signal s st)

-- The name holds no claim.
abbrev pub IsFree : Bytes → DeviceState → Type 0
IsFree name st = holds st.claim_sender name ≡ false

handle_client_disconnect-IsFree :
    (other name : Bytes) (st : DeviceState)
    → IsFree name st
    → IsFree name (handle_client_disconnect other st)
unfolding handle_client_disconnect holds unclaimed
handle_client_disconnect-IsFree other name st h = elim (Bool-cases (holds st.claim_sender other)) [
  | inl e ↦ rw e refl
  | inr e ↦ rw e h
]

on_signal-IsFree :
    (name : Bytes) (s : Signal) (st : DeviceState) → IsFree name st → IsFree name (on_signal s st)
unfolding on_signal
on_signal-IsFree name unreadable st h = h
on_signal-IsFree name (changed other old new served) st h =
    ground (arith, handle_client_disconnect-IsFree other name st h)

watch-IsFree :
    (name : Bytes) (ss : List Signal) (st : DeviceState)
    → IsFree name st
    → IsFree name (watch ss st)
unfolding watch
watch-IsFree name [] st h = h
watch-IsFree name (s ∷ ss) st h =
    watch-IsFree name ss (on_signal s st) (on_signal-IsFree name s st h)

watch-append :
    (ss ts : List Signal) (st : DeviceState) → watch (ss ++ ts) st ≡ watch ts (watch ss st)
unfolding watch
watch-append [] ts st = refl
watch-append (s ∷ ss) ts st = watch-append ss ts (on_signal s st)

handle_client_disconnect-frees :
    (name : Bytes) (st : DeviceState) → IsFree name (handle_client_disconnect name st)
unfolding handle_client_disconnect holds unclaimed
handle_client_disconnect-frees name st = elim (Bool-cases (holds st.claim_sender name)) [
  | inl e ↦ rw e refl
  | inr e ↦ rw e e
]

on_signal-frees :
    (name : Bytes) (old new : Option Bytes) (st : DeviceState)
    → departed name old new ≡ true
    → IsFree name (on_signal (changed name old new true) st)
unfolding on_signal
on_signal-frees name old new st h = rw h (handle_client_disconnect-frees name st)

-- The signal does not say that the holder of the claim has gone.
abbrev pub Spares : DeviceState → Signal → Type 0
Spares st unreadable = Unit
Spares st (changed name old new served) = (departed name old new ≡ true) → IsFree name st

on_signal-Spares : (s : Signal) (st : DeviceState) → Spares st s → on_signal s st ≡ st
unfolding on_signal handle_client_disconnect
on_signal-Spares unreadable st h = refl
on_signal-Spares (changed name old new served) st h = ground (arith, h)

-- Signals of which none says that the holder of the claim has gone change nothing.
watch-Spares : (ss : List Signal) (st : DeviceState) → All (Spares st) ss → watch ss st ≡ st
unfolding watch
watch-Spares [] st h = refl
watch-Spares (s ∷ ss) st h = rw (on_signal-Spares s st h.0) (watch-Spares ss st h.1)

departed-gone :
    (name : Bytes) (b : ℕ) (owner : Bytes) (new : Option Bytes)
    → starts_with (codes ":") name ≡ true
    → (new ≡ none) ⊎ (new ≡ some [])
    → departed name (some (b ∷ owner)) new ≡ true
unfolding departed
departed-gone name b owner new unique (inl e) = rw (unique, e) refl
departed-gone name b owner new unique (inr e) = rw (unique, e) refl

-- Nobody has the device, and nothing is going on.
abbrev pub IsUnclaimed : DeviceState → Type 0
IsUnclaimed st = (st.claimed_by ≡ none) × (st.claim_sender ≡ none) × (st.action ≡ none)

handle_client_disconnect-IsUnclaimed :
    (name : Bytes) (st : DeviceState)
    → IsUnclaimed st
    → IsUnclaimed (handle_client_disconnect name st)
unfolding handle_client_disconnect holds
handle_client_disconnect-IsUnclaimed name st h =
    subst IsUnclaimed
      (sym (ap (λ (o : Option Bytes). if holds o name then unclaimed st else st) h.1)) h

on_signal-IsUnclaimed :
    (s : Signal) (st : DeviceState) → IsUnclaimed st → IsUnclaimed (on_signal s st)
unfolding on_signal
on_signal-IsUnclaimed unreadable st h = h
on_signal-IsUnclaimed (changed other old new served) st h =
    elim (Bool-cases (departed other old new)) [
      | inr e ↦ rw e h
      | inl e ↦ elim (Bool-cases served) [
        | inr f ↦ rw (e, f) h
        | inl f ↦ rw (e, f) (handle_client_disconnect-IsUnclaimed other st h)
      ]
    ]

watch-IsUnclaimed :
    (ss : List Signal) (st : DeviceState) → IsUnclaimed st → IsUnclaimed (watch ss st)
unfolding watch
watch-IsUnclaimed [] st h = h
watch-IsUnclaimed (s ∷ ss) st h =
    watch-IsUnclaimed ss (on_signal s st) (on_signal-IsUnclaimed s st h)

-- The name held no claim and nothing has changed, or the device is no longer claimed.
abbrev pub IsReleased : Bytes → DeviceState → DeviceState → DeviceState → Type 0
IsReleased name st now after =
    ((holds st.claim_sender name ≡ false) × (now ≡ st)) ⊎ IsUnclaimed after

handle_client_disconnect-cases :
    (name : Bytes) (st : DeviceState)
    → IsReleased name st (handle_client_disconnect name st) (handle_client_disconnect name st)
unfolding handle_client_disconnect unclaimed without_action
handle_client_disconnect-cases name st = elim (Bool-cases (holds st.claim_sender name)) [
  | inl e ↦ rw e (inr (refl, refl, refl))
  | inr e ↦ rw e (inl (refl, refl))
]

on_signal-cases :
    (name : Bytes) (old new : Option Bytes) (st : DeviceState)
    → departed name old new ≡ true
    → IsReleased name st
        (on_signal (changed name old new true) st)
        (on_signal (changed name old new true) st)
unfolding on_signal
on_signal-cases name old new st h = rw h (handle_client_disconnect-cases name st)

behind-IsReleased :
    (name : Bytes) (st now : DeviceState) (behind : List Signal)
    → IsReleased name st now now
    → IsReleased name st now (watch behind now)
behind-IsReleased name st now behind (inl kept) = inl kept
behind-IsReleased name st now behind (inr h) = inr (watch-IsUnclaimed behind now h)

-- Where a signal says that a client, with a unique name, has gone from the bus, it holds no claim after any
-- signals before it and behind it; and either it held none when the signal came, which then changes nothing,
-- or nobody has the device from then on and no action is going on.
pub watch-frees :
    (name : Bytes) (b : ℕ) (owner : Bytes) (new : Option Bytes) (before behind : List Signal)
    (st : DeviceState)
    → starts_with (codes ":") name ≡ true
    → (new ≡ none) ⊎ (new ≡ some [])
    → IsFree name (watch (before ++ changed name (some (b ∷ owner)) new true ∷ behind) st)
      × IsReleased name
          (watch before st)
          (on_signal (changed name (some (b ∷ owner)) new true) (watch before st))
          (watch (before ++ changed name (some (b ∷ owner)) new true ∷ behind) st)
watch-frees name b owner new before behind st unique gone =
    let gone_now = departed-gone name b owner new unique gone in
    let released =
      behind-IsReleased name (watch before st) _ behind
        (on_signal-cases name (some (b ∷ owner)) new (watch before st) gone_now) in
    let freed = on_signal-frees name (some (b ∷ owner)) new (watch before st) gone_now in
    rw (watch-append before (changed name (some (b ∷ owner)) new true ∷ behind) st)
      (unfold watch in (watch-IsFree name behind _ freed, released))
