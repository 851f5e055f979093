-- ===== src/Dhcp6/Client/Running.antt =====
-- dhcp6/src/lib.rs: what holds of the client's timers whenever the caller has it.
use netd.Base.{
  ℕ, ◌+◌, ◌*◌, ◌≤◌, ◌<◌, ◌≡◌, refl, ap, ◌∙◌, ◌⊎◌, inl, inr, true, false, Option, none, some, List,
  [], ◌∷◌, arith, leb, if◌then◌else◌, Bool-cases, Option-cases, is_some,
}
use netd.Base.Time.{Instant, Duration, from_millis, as_millis}
use netd.Dhcp6.Client.{
  Client, Config, Action, new, start, tick, receive, begin_exchange, transmit, take_info, jitter,
  jittered, next_random, next_deadline, earliest, first_retransmit, max_retransmit, is_due,
  parse_reply, Info, info_eq, request, send,
}

abbrev pub IsInterval : Duration → Type 0
IsInterval d = (first_retransmit ≤ d) × (d ≤ max_retransmit)

-- An exchange is running: a retransmission is set, and no refresh.
abbrev pub IsAsking : Client → Type 0
IsAsking c =
    (is_some c.retransmit_at ≡ true)
    × (c.refresh_at ≡ none)
    × (is_some c.started ≡ true)
    × IsInterval c.retransmit_interval

-- An answer is held: there is information, a refresh is set, and no retransmission.
abbrev pub IsAnswered : Client → Type 0
IsAnswered c =
    (c.retransmit_at ≡ none)
    × (is_some c.refresh_at ≡ true)
    × (c.started ≡ none)
    × IsInterval c.retransmit_interval
    × (is_some c.info ≡ true)

unfoldable pub IsRunning : Client → Type 0
IsRunning c = IsAsking c ⊎ IsAnswered c

-- The clients that the calls lead to.
pub data Reach : Client → Type 0 where
  started : (config : Config) (now : Instant) → Reach (start now (new config)).0
  restarted : {c : Client} (now : Instant) → Reach c → Reach (start now c).0
  ticked : {c : Client} (now : Instant) → Reach c → Reach (tick now c).0
  received :
      {c : Client} (now : Instant) (datagram : List ℕ) → Reach c → Reach (receive now datagram c).0

transmit-IsAsking : (now : Instant) (c : Client) → IsAsking c → IsAsking (transmit now c).0
unfolding transmit jitter next_random
transmit-IsAsking now c h = (refl, h.1, h.2, (omega (arith, h.3), omega arith))

begin_exchange-IsAsking : (now : Instant) (c : Client) → IsAsking (begin_exchange now c)
unfolding begin_exchange next_random
begin_exchange-IsAsking now c = (refl, refl, refl, (omega arith, omega arith))

-- The second half of `tick`.
abbrev resend : Instant → Client → Client × List Action
resend now c = if is_due c.retransmit_at now then transmit now c else (c, [])

resend-IsAsking : (now : Instant) (c : Client) → IsAsking c → IsAsking (resend now c).0
resend-IsAsking now c h = elim (Bool-cases (is_due c.retransmit_at now)) [
  | inl e ↦ rw e (transmit-IsAsking now c h)
  | inr e ↦ rw e h
]

never_due : (c : Client) (now : Instant) → c.refresh_at ≡ none → is_due c.refresh_at now ≡ false
never_due c now h = ap (λ o. is_due o now) h

idle : (c : Client) (now : Instant) → c.retransmit_at ≡ none → is_due c.retransmit_at now ≡ false
idle c now h = ap (λ o. is_due o now) h

tick-IsRunning : (now : Instant) (c : Client) → IsRunning c → IsRunning (tick now c).0
unfolding tick IsRunning
tick-IsRunning now c (inl h) = rw (never_due c now h.1) (inl (resend-IsAsking now c h))
tick-IsRunning now c (inr h) = elim (Bool-cases (is_due c.refresh_at now)) [
  | inl e ↦ rw e (inl (resend-IsAsking now (begin_exchange now c) (begin_exchange-IsAsking now c)))
  | inr e ↦ rw (e, idle c now h.0) (inr h)
]

info_eq-some : (o : Option Info) (info : Info) → info_eq o info ≡ true → is_some o ≡ true
unfolding info_eq
info_eq-some none info h = h
info_eq-some (some a) info h = refl

take_info-IsAnswered :
    (now : Instant) (datagram : List ℕ) (info : Info) (c : Client)
    → IsInterval c.retransmit_interval
    → IsAnswered (take_info now datagram info c).0
unfolding take_info
take_info-IsAnswered now datagram info c h = elim (Bool-cases (info_eq c.info info)) [
  | inl e ↦ rw e (refl, refl, refl, h, info_eq-some c.info info e)
  | inr e ↦ rw e (refl, refl, refl, h, refl)
]

IsRunning-IsInterval : (c : Client) → IsRunning c → IsInterval c.retransmit_interval
unfolding IsRunning
IsRunning-IsInterval c (inl h) = h.3
IsRunning-IsInterval c (inr h) = h.3

receive-IsRunning :
    (now : Instant) (datagram : List ℕ) (c : Client)
    → IsRunning c
    → IsRunning (receive now datagram c).0
unfolding receive IsRunning
receive-IsRunning now datagram c h = elim (Bool-cases (is_some c.retransmit_at)) [
  | inr e ↦ rw e h
  | inl e ↦ elim (Option-cases (parse_reply c datagram)) [
    | inl p ↦ rw (e, p) h
    | inr (info, p) ↦
        rw (e, p) (inr (take_info-IsAnswered now datagram info c (IsRunning-IsInterval c h)))
  ]
]

-- Of every client that calls of `start`, `tick` and `receive` lead to, `start` first: either an exchange
-- runs, with a retransmission and a start time set and no refresh, or an answer is held, with its
-- information there, a refresh set and neither of the other two. The retransmission interval is between
-- one second and one hour.
pub Reach-IsRunning : (c : Client) → Reach c → IsRunning c
unfolding start IsRunning
Reach-IsRunning _ (started config now) =
    tick-IsRunning now (begin_exchange now (new config))
      (inl (begin_exchange-IsAsking now (new config)))
Reach-IsRunning _ (restarted {c} now r) =
    tick-IsRunning now (begin_exchange now c) (inl (begin_exchange-IsAsking now c))
Reach-IsRunning _ (ticked {c} now r) = tick-IsRunning now c (Reach-IsRunning c r)
Reach-IsRunning _ (received {c} now datagram r) =
    receive-IsRunning now datagram c (Reach-IsRunning c r)

jittered-bounds :
    (d : Duration) (r : ℕ)
    → first_retransmit ≤ d
    → (9 * from_millis (as_millis d) ≤ 10 * jittered d r)
      × (10 * jittered d r ≤ 11 * d + from_millis 10)
jittered-bounds d r h = (omega arith, omega arith)

-- Where the interval is an allowed one, `transmit` sends one message, and schedules the next
-- retransmission no more than 10 % and a millisecond's rounding away from the interval.
pub transmit-schedule :
    (now : Instant) (c : Client)
    → IsInterval c.retransmit_interval
    → (wait : Duration) × ((transmit now c).0.retransmit_at ≡ some (now + wait))
      × (9 * from_millis (as_millis c.retransmit_interval) ≤ 10 * wait)
      × (10 * wait ≤ 11 * c.retransmit_interval + from_millis 10)
      × ((transmit now c).1 ≡ send (request now c) ∷ [])
unfolding transmit jitter next_random
transmit-schedule now c h =
    let b = jittered-bounds c.retransmit_interval (next_random c).0 h.0 in
    (jittered c.retransmit_interval (next_random c).0, refl, b.0, b.1, refl)

due_at : (o : Option Instant) (t now : Instant) → o ≡ some t → is_due o now ≡ leb t now
due_at o t now e = ap (λ d. is_due d now) e

-- The deadline of a client is set, and after `now`.
abbrev pub IsAhead : Instant → Client → Type 0
IsAhead now c = (t : Instant) × (next_deadline c ≡ some t) × (now < t)

transmit-IsAhead : (now : Instant) (c : Client) → IsAsking c → IsAhead now (transmit now c).0
unfolding transmit jitter next_random next_deadline
transmit-IsAhead now c h =
    let b = jittered-bounds c.retransmit_interval (next_random c).0 h.3.0 in
    (
      now + jittered c.retransmit_interval (next_random c).0,
      ap (earliest (some (now + jittered c.retransmit_interval (next_random c).0))) h.1,
      omega (arith, b, h.3),
    )

resend-IsAhead : (now : Instant) (c : Client) → IsAsking c → IsAhead now (resend now c).0
unfolding next_deadline
resend-IsAhead now c h = elim (Option-cases c.retransmit_at) [
  | inl e ↦ absurd (ground (arith, h))
  | inr (t, e) ↦ elim (Bool-cases (leb t now)) [
    | inl d ↦ rw (due_at c.retransmit_at t now e ∙ d) (transmit-IsAhead now c h)
    | inr d ↦ rw (due_at c.retransmit_at t now e ∙ d) (t, cc, ground (arith, d))
  ]
]

-- After a tick of a client that is running the client still has a deadline, and it is later than the
-- tick.
pub tick-IsAhead : (now : Instant) (c : Client) → IsRunning c → IsAhead now (tick now c).0
unfolding tick IsRunning next_deadline
tick-IsAhead now c (inl h) = rw (never_due c now h.1) (resend-IsAhead now c h)
tick-IsAhead now c (inr h) = elim (Option-cases c.refresh_at) [
  | inl e ↦ absurd (ground (arith, h))
  | inr (t, e) ↦ elim (Bool-cases (leb t now)) [
    | inl d ↦
        rw (due_at c.refresh_at t now e ∙ d)
          (resend-IsAhead now (begin_exchange now c) (begin_exchange-IsAsking now c))
    | inr d ↦ rw (due_at c.refresh_at t now e ∙ d, idle c now h.0) (t, cc, ground (arith, d))
  ]
]
