-- ===== src/Dhcp4/Client/Valid.antt =====
-- What holds of the client of dhcp4/src/client.rs between two calls: the invariant, and lemmas on the transitions.
use netd.Base.{
  ◌+◌, ◌%◌, ◌≤◌, ◌≡◌, refl, ◌∙◌, ◌⊎◌, inl, inr, Bool, true, false, Option, none, some, arith,
  Bool-cases, is_some,
}
use netd.Base.Bytes.{u32_mod}
use mathlib.Core.Path.{subst}
use netd.Base.Time.{Instant}
use netd.Dhcp4.Options.{Ipv4Addr}
use netd.Dhcp4.Lease.{Lease}
use netd.Dhcp4.Lease.Timers.{IsUsable}
use netd.Dhcp4.Client.{
  Config, State, Client, max_backoff, first_backoff, new, next_random, schedule_backoff,
}
use netd.Dhcp4.Client.Send.{
  send_discover, enter_selecting, send_request_for_offer, send_reboot_request, enter_rebooting,
  renew_from, send_renewal, enter_renewing, enter_rebinding, retransmit_in, retransmit,
}
use netd.Dhcp4.Client.Handlers.{start, holds_lease, release, renew_now, tick_retransmit}

-- The states in which a message is to be sent again.
abbrev pub awaits : State → Bool
awaits State.init = false
awaits State.bound = false
awaits _ = true

abbrev pub Usable : Option Lease → Type 0
Usable none = Unit
Usable (some l) = IsUsable l

pub record IsValid (c : Client) : Type 0 where
  pub backoff_low : first_backoff ≤ c.backoff
  pub backoff_high : c.backoff ≤ max_backoff
  pub leased : is_some c.lease ≡ holds_lease c.state
  pub dated : is_some c.bound_at ≡ is_some c.lease
  pub armed : is_some c.retransmit_at ≡ awaits c.state
  pub usable_lease : Usable c.lease

-- What the steps that send need.
module _ (now : Instant) (c : Client) where
  pub enter_selecting-IsValid :
      c.lease ≡ none → c.bound_at ≡ none → IsValid (enter_selecting now c).0
  unfolding enter_selecting send_discover schedule_backoff next_random
  enter_selecting-IsValid l b = ground arith

module _ (now : Instant) (c : Client) (low : first_backoff ≤ c.backoff)
    (high : c.backoff ≤ max_backoff) where
  pub send_discover-IsValid :
      c.state ≡ State.selecting
      → c.lease ≡ none
      → c.bound_at ≡ none
      → IsValid (send_discover now c).0
  unfolding send_discover schedule_backoff next_random
  send_discover-IsValid s l b = ground arith

  pub send_request_for_offer-IsValid :
      c.state ≡ State.requesting
      → c.lease ≡ none
      → c.bound_at ≡ none
      → IsValid (send_request_for_offer now c).0
  unfolding send_request_for_offer schedule_backoff next_random
  send_request_for_offer-IsValid s l b = ground (arith, enter_selecting-IsValid now c)

  pub send_reboot_request-IsValid :
      c.state ≡ State.rebooting
      → c.lease ≡ none
      → c.bound_at ≡ none
      → IsValid (send_reboot_request now c).0
  unfolding send_reboot_request schedule_backoff next_random
  send_reboot_request-IsValid s l b = ground (arith, enter_selecting-IsValid now c)

  pub send_renewal-IsValid :
      (c.state ≡ State.renewing) ⊎ (c.state ≡ State.rebinding)
      → (l : Lease) (b : Instant) → c.lease ≡ some l
      → c.bound_at ≡ some b
      → IsUsable l
      → IsValid (send_renewal now c).0
  unfolding send_renewal renew_from
  send_renewal-IsValid s l b el eb u = ground arith

none_of : {A : Type 0} (o : Option A) → is_some o ≡ false → o ≡ none
none_of none h = refl
none_of (some a) h = cc

some_of : {A : Type 0} (o : Option A) → is_some o ≡ true → (a : A) × (o ≡ some a)
some_of none h = cc
some_of (some a) h = (a, refl)

-- Outside the states that hold a lease there is none.
pub vacant :
    (c : Client) → IsValid c → holds_lease c.state ≡ false → (c.lease ≡ none) × (c.bound_at ≡ none)
vacant c v h = (none_of c.lease (v.leased ∙ h), none_of c.bound_at (v.dated ∙ v.leased ∙ h))

-- In those states there is one, with the time that it was obtained at.
pub holding :
    (c : Client)
    → IsValid c
    → holds_lease c.state ≡ true
    → (l : Lease) × (b : Instant) × (c.lease ≡ some l) × (c.bound_at ≡ some b) × IsUsable l
holding c v h =
    let (l, el) = some_of c.lease (v.leased ∙ h) in
    let (b, eb) = some_of c.bound_at (v.dated ∙ v.leased ∙ h) in
    (l, b, el, eb, subst Usable el v.usable_lease)

pub new-IsValid : (config : Config) (now : Instant) → IsValid (new config now)
unfolding new
new-IsValid config now = ground arith

module _ (now : Instant) (c : Client) (v : IsValid c) where
  pub start-IsValid : (previous : Option Ipv4Addr) → IsValid (start now previous c).0
  unfolding start enter_rebooting next_random
  start-IsValid none = enter_selecting-IsValid now _ refl refl
  start-IsValid (some a) =
      send_reboot_request-IsValid now _ (omega arith) (omega arith) refl refl refl

  pub release-IsValid : IsValid (release now c).0
  unfolding release
  release-IsValid = ground arith

  pub renewing-IsValid : holds_lease c.state ≡ true → IsValid (enter_renewing now c).0
  unfolding enter_renewing next_random
  renewing-IsValid h =
      let (l, b, el, eb, u) = holding c v h in
      send_renewal-IsValid now _ v.backoff_low v.backoff_high (inl refl) l b el eb u

  pub rebinding-IsValid : holds_lease c.state ≡ true → IsValid (enter_rebinding now c).0
  unfolding enter_rebinding next_random
  rebinding-IsValid h =
      let (l, b, el, eb, u) = holding c v h in
      send_renewal-IsValid now _ v.backoff_low v.backoff_high (inr refl) l b el eb u

  pub renew_now-IsValid : IsValid (renew_now now c).0
  unfolding renew_now
  renew_now-IsValid = elim (Bool-cases (holds_lease c.state)) [
    | inl h ↦ rw h (renewing-IsValid h)
    | inr h ↦ rw h v
  ]

  pub renewal-IsValid :
      (c.state ≡ State.renewing) ⊎ (c.state ≡ State.rebinding) → IsValid (send_renewal now c).0
  renewal-IsValid s =
      let (l, b, el, eb, u) = holding c v (ground arith) in
      send_renewal-IsValid now c v.backoff_low v.backoff_high s l b el eb u

  pub selecting_again-IsValid :
      c.state ≡ State.selecting → IsValid (retransmit_in State.selecting now c).0
  unfolding retransmit_in
  selecting_again-IsValid s =
      let (l, b) = vacant c v (ground arith) in
      send_discover-IsValid now _ v.backoff_low v.backoff_high s l b

  pub requesting_again-IsValid :
      c.state ≡ State.requesting → IsValid (retransmit_in State.requesting now c).0
  unfolding retransmit_in
  requesting_again-IsValid s =
      let (l, b) = vacant c v (ground arith) in
      let c1 : Client = record c { attempts = (c.attempts + 1) % u32_mod } in
      ground (
        arith,
        enter_selecting-IsValid now c1 l b,
        send_request_for_offer-IsValid now c1 v.backoff_low v.backoff_high s l b,
      )

  pub rebooting_again-IsValid :
      c.state ≡ State.rebooting → IsValid (retransmit_in State.rebooting now c).0
  unfolding retransmit_in
  rebooting_again-IsValid s =
      let (l, b) = vacant c v (ground arith) in
      let c1 : Client = record c { attempts = (c.attempts + 1) % u32_mod } in
      ground (
        arith,
        enter_selecting-IsValid now (record c1 { reboot_address = none }) l b,
        send_reboot_request-IsValid now c1 v.backoff_low v.backoff_high s l b,
      )

  pub retransmit_in-IsValid : (s : State) → c.state ≡ s → IsValid (retransmit_in s now c).0
  retransmit_in-IsValid State.selecting e = selecting_again-IsValid e
  retransmit_in-IsValid State.requesting e = requesting_again-IsValid e
  retransmit_in-IsValid State.rebooting e = rebooting_again-IsValid e
  retransmit_in-IsValid State.renewing e = unfold retransmit_in in renewal-IsValid (inl e)
  retransmit_in-IsValid State.rebinding e = unfold retransmit_in in renewal-IsValid (inr e)
  retransmit_in-IsValid State.init e = unfold retransmit_in in v
  retransmit_in-IsValid State.bound e = unfold retransmit_in in v

  pub retransmit-IsValid : IsValid (retransmit now c).0
  unfolding retransmit
  retransmit-IsValid = retransmit_in-IsValid c.state refl

  pub tick_retransmit-IsValid : IsValid (tick_retransmit now c).0
  unfolding tick_retransmit
  tick_retransmit-IsValid = ground (arith, retransmit-IsValid)
