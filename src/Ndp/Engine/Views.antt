-- ===== src/Ndp/Engine/Views.antt =====
-- ndp/src/engine.rs, `emit_if_changed`: when `Changed` is reported.
use netd.Base.{
  ℕ, ◌≡◌, refl, sym, ap, ◌∙◌, ◌≢◌, ◌⊎◌, inl, inr, Bool, true, false, none, List, [], ◌∷◌, ◌++◌,
  arith, ◌==◌, Bool-cases, done,
}
use netd.Base.Rounds.{>>=-eq-done}
use netd.Base.Bytes.{bytes_eq, bytes_eq_sound, bytes_eq_refl}
use netd.Base.Equality.{list_eq_sound, list_eq_refl, option_eq_sound, option_eq_refl}
use netd.Base.Time.{Instant}
use mathlib.Core.Path.{subst}
use netd.Wire6.{Ipv6Addr}
use netd.Ndp.Packet as Packet
use netd.Ndp.Packet.{RouterAdvert, decode}
use netd.Ndp.Packet.Bounds.{decode-cases}
use netd.Ndp.Engine.{Config, Action, changed, DesiredAddress, View, Engine}
use netd.Ndp.Engine.Lifetimes.{expire}
use netd.Ndp.Engine.Observed.{desired_key, desired_eq, bit, bool_eq, view_eq, view}
use netd.Ndp.Engine.Handlers.{
  emit_if_changed, is_due, send_solicit, solicit_if_due, tick, receive_prefixes, note_router,
  note_rdnss, note_dnssl, take_advert, receive,
}
use netd.Ndp.Engine.Same.{expire-last_view, receive_prefixes-Same, note_router-Same}
use netd.Ndp.Engine.Reached.{tick-expired}

bit_injective : (x y : Bool) → bit x ≡ bit y → x ≡ y
bit_injective true true h = refl
bit_injective true false h = absurd (omega arith)
bit_injective false true h = absurd (omega arith)
bit_injective false false h = refl

bit_sound : (x y : Bool) → bool_eq x y ≡ true → x ≡ y
bit_sound true true h = refl
bit_sound true false h = cc
bit_sound false true h = cc
bit_sound false false h = refl

bool_eq_refl : (x : Bool) → bool_eq x x ≡ true
bool_eq_refl true = refl
bool_eq_refl false = refl

desired_eq_sound : (a b : DesiredAddress) → desired_eq a b ≡ true → a ≡ b
desired_eq_sound a b h =
    let same = bytes_eq_sound (desired_key a) (desired_key b) h in
    let address : a.address ≡ b.address = cc same in
    let prefix : a.prefix ≡ b.prefix = cc same in
    let deprecated : a.deprecated ≡ b.deprecated =
      bit_injective a.deprecated b.deprecated (cc same) in
    let on_link : a.on_link ≡ b.on_link = bit_injective a.on_link b.on_link (cc same) in cc

number_sound : (a b : ℕ) → (a == b) ≡ true → a ≡ b
number_sound a b h = ground arith

number_refl : (a : ℕ) → (a == a) ≡ true
number_refl a = ground arith

view_eq_sound : (v w : View) → view_eq v w ≡ true → v ≡ w
unfolding view_eq
view_eq_sound v w h =
    let addresses =
      list_eq_sound desired_eq desired_eq_sound v.addresses w.addresses (ground arith) in
    let router = option_eq_sound ◌==◌ number_sound v.router w.router (ground arith) in
    let dns = bytes_eq_sound v.dns w.dns (ground arith) in
    let search = list_eq_sound bytes_eq bytes_eq_sound v.search w.search (ground arith) in
    let mtu = option_eq_sound ◌==◌ number_sound v.mtu w.mtu (ground arith) in
    let dhcp6 = bit_sound v.dhcp6 w.dhcp6 (ground arith) in cc

view_eq_refl : (v : View) → view_eq v v ≡ true
unfolding view_eq
view_eq_refl v =
    rw
      (
        list_eq_refl desired_eq (λ a. bytes_eq_refl (desired_key a)) v.addresses,
        option_eq_refl ◌==◌ number_refl v.router,
        bytes_eq_refl v.dns,
        list_eq_refl bytes_eq bytes_eq_refl v.search,
        option_eq_refl ◌==◌ number_refl v.mtu,
        bool_eq_refl v.dhcp6,
      )
      refl

-- What a call reports, beside the views that the engine last showed and shows now; `sent` are the
-- actions that the call had before.
abbrev pub Shows : Instant → View → List Action → Engine × List Action → Type 0
Shows now before sent (e, actions) =
    (e.last_view ≡ view now e)
    × (((actions ≡ sent) × (e.last_view ≡ before))
        ⊎ ((actions ≡ sent ++ (changed ∷ [])) × (e.last_view ≢ before)))

emit-Shows :
    (now : Instant) (e : Engine) (sent : List Action)
    → Shows now e.last_view sent (emit_if_changed now e sent)
unfolding emit_if_changed view
emit-Shows now e sent = elim (Bool-cases (view_eq (view now e) e.last_view)) [
  | inl h ↦ rw h (sym (view_eq_sound (view now e) e.last_view h), inl (refl, refl))
  | inr h ↦ rw h (
    refl,
    inr (refl, λ k. ground (arith, h, ap (λ v. view_eq v e.last_view) k, view_eq_refl e.last_view)),
  )
]

solicit_if_due_view :
    (now : Instant) (e : Engine)
    → ((solicit_if_due now e).0.last_view ≡ e.last_view)
      × (((solicit_if_due now e).1 ≡ [])
          ⊎ ((solicit_if_due now e).1 ≡ Action.solicit (Packet.solicit e.config.mac) ∷ []))
unfolding solicit_if_due send_solicit
solicit_if_due_view now e = elim (Bool-cases (is_due e.solicit_at now)) [
  | inl h ↦ rw h (refl, inr refl)
  | inr h ↦ rw h (refl, inl refl)
]

-- A tick that finishes sends a solicitation at most, and reports `Changed` behind it exactly where the
-- view it leaves is not the one that was last shown; the view it leaves is remembered.
pub tick-Shows :
    (rounds : ℕ) (now : Instant) (e : Engine) (r : Engine × List Action)
    → tick rounds now e ≡ done r
    → (sent : List Action) × ((sent ≡ [])
        ⊎ (sent ≡ Action.solicit (Packet.solicit e.config.mac) ∷ []))
      × Shows now e.last_view sent r
tick-Shows rounds now e r h =
    let (x, ran, same) = tick-expired rounds now e r h in
    let s = solicit_if_due_view now x in
    let kept = expire-last_view rounds now e x ran in
    (
      (solicit_if_due now x).1,
      subst
          (λ c.
            ((solicit_if_due now x).1 ≡ [])
            ⊎ ((solicit_if_due now x).1 ≡ Action.solicit (Packet.solicit c) ∷ []))
          (ap (λ (c : Config). c.mac) kept.1) s.1,
      subst (Shows now e.last_view (solicit_if_due now x).1) same (
          subst
            (λ v.
              Shows now v (solicit_if_due now x).1
                (emit_if_changed now (solicit_if_due now x).0 (solicit_if_due now x).1))
            (s.0 ∙ kept.0) (emit-Shows now (solicit_if_due now x).0 (solicit_if_due now x).1)),
    )

take_advert-Shows :
    (sha1 : List ℕ → List ℕ) (rounds : ℕ) (now : Instant) (source : Ipv6Addr) (ra : RouterAdvert)
    (e : Engine) (r : Engine × List Action)
    → take_advert sha1 rounds now source ra e ≡ done r
    → Shows now e.last_view [] r
unfolding take_advert
take_advert-Shows sha1 rounds now source ra e r h =
    let noted = note_router sha1 rounds now source ra e in
    let (x, ran, rest) = >>=-eq-done (receive_prefixes sha1 rounds now ra.prefixes noted) _ h in
    let lists : Engine = record x {
      rdnss = note_rdnss sha1 rounds now ra.rdnss x.rdnss;
      dnssl = note_dnssl sha1 rounds now ra.dnssl x.dnssl;
    } in
    let (y, expired, last) = >>=-eq-done (expire rounds now lists) _ rest in
    let same : emit_if_changed now y [] ≡ r = cc last in
    let kept =
      (expire-last_view rounds now lists y expired).0
      ∙ ((receive_prefixes-Same sha1 rounds now ra.prefixes noted x ran).1
          ∙ (note_router-Same sha1 rounds now source ra e).1) in
    subst (Shows now e.last_view []) same
      (subst (λ v. Shows now v [] (emit_if_changed now y [])) kept (emit-Shows now y []))

-- A body that is no advertisement changes nothing. Where taking one finishes, nothing is sent, `Changed`
-- is reported exactly where the view that it leaves is not the one that was last shown, and that view
-- is remembered.
pub receive-Shows :
    (sha1 : List ℕ → List ℕ) (rounds : ℕ) (now : Instant) (source : Ipv6Addr) (body : List ℕ)
    (e : Engine) (r : Engine × List Action)
    → receive sha1 rounds now source body e ≡ done r
    → ((decode body ≡ done none) × (r ≡ (e, []))) ⊎ Shows now e.last_view [] r
unfolding receive
receive-Shows sha1 rounds now source body e r h = elim (decode-cases body) [
  | inl n ↦ let same : (e, []) ≡ r = ground (arith, h, n) in inl (n, sym same)
  | inr (ra, s) ↦ inr (take_advert-Shows sha1 rounds now source ra e r (rw (s, receive) at h))
]
