-- ===== src/Dhcp6/Client/Replies.antt =====
-- dhcp6/src/lib.rs, `receive`: what a reply changes, and what is reported.
use netd.Base.{
  ℕ, ◌+◌, ◌≤◌, max, ◌≡◌, refl, ap, ◌≢◌, ◌⊎◌, inl, inr, true, Option, none, some, List, [], ◌∷◌,
  arith, Bool-cases, Option-cases, get_or_else, is_some, drop,
}
use netd.Base.Bytes.{bytes_eq_sound, bytes_eq_refl}
use netd.Base.Time.{Instant}
use netd.Dhcp6.Options.{options, refresh_time}
use netd.Dhcp6.Client.{
  Client, Action, changed, Info, parse_reply, names_eq, info_eq, take_info, receive,
  refresh_minimum, refresh_default, next_deadline,
}
use netd.Dhcp6.Client.Genuine.{IsBounded, IsSaid, IsGenuine, parse_reply-IsGenuine}

names_eq_sound : (a b : List (List ℕ)) → names_eq a b ≡ true → a ≡ b
unfolding names_eq
names_eq_sound [] [] h = refl
names_eq_sound [] (n ∷ ns) h = cc
names_eq_sound (m ∷ ms) [] h = cc
names_eq_sound (m ∷ ms) (n ∷ ns) h = ground (arith, bytes_eq_sound m n, names_eq_sound ms ns)

names_eq_refl : (a : List (List ℕ)) → names_eq a a ≡ true
unfolding names_eq
names_eq_refl [] = refl
names_eq_refl (m ∷ ms) = rw (bytes_eq_refl m, names_eq_refl ms) refl

info_eq_sound : (a : Option Info) (b : Info) → info_eq a b ≡ true → a ≡ some b
unfolding info_eq
info_eq_sound none b h = cc
info_eq_sound (some a) b h =
    let d : a.dns ≡ b.dns = bytes_eq_sound a.dns b.dns (ground arith) in
    let s : a.search ≡ b.search = names_eq_sound a.search b.search (ground arith) in cc

info_eq_refl : (b : Info) → info_eq (some b) b ≡ true
unfolding info_eq
info_eq_refl b = rw (bytes_eq_refl b.dns, names_eq_refl b.search) refl

-- What a call reports, beside whether it changed the information.
abbrev pub Reports : Client → Client × List Action → Type 0
Reports c (c', actions) =
    ((actions ≡ []) × (c'.info ≡ c.info)) ⊎ ((actions ≡ changed ∷ []) × (c'.info ≢ c.info))

take_info-Reports :
    (now : Instant) (datagram : List ℕ) (info : Info) (c : Client)
    → Reports c (take_info now datagram info c)
unfolding take_info
take_info-Reports now datagram info c = elim (Bool-cases (info_eq c.info info)) [
  | inl e ↦ rw e (inl (refl, refl))
  | inr e ↦ rw e (inr (refl, λ h. ground (arith, e, ap (λ o. info_eq o info) h, info_eq_refl info)))
]

-- On any datagram at any time, `receive` sends nothing; it reports `changed` where the information
-- held afterwards is another, and no action where it is the same.
pub receive-Reports :
    (now : Instant) (datagram : List ℕ) (c : Client) → Reports c (receive now datagram c)
unfolding receive
receive-Reports now datagram c = elim (Bool-cases (is_some c.retransmit_at)) [
  | inr e ↦ rw e (inl (refl, refl))
  | inl e ↦ elim (Option-cases (parse_reply c datagram)) [
    | inl p ↦ rw (e, p) (inl (refl, refl))
    | inr (info, p) ↦ rw (e, p) (take_info-Reports now datagram info c)
  ]
]

-- The earliest that an answer is asked for again.
abbrev pub RefreshesLater : Instant → Client → Type 0
RefreshesLater now c = (t : Instant) × (next_deadline c ≡ some t) × (now + refresh_minimum ≤ t)

take_info-RefreshesLater :
    (now : Instant) (datagram : List ℕ) (info : Info) (c : Client)
    → RefreshesLater now (take_info now datagram info c).0
unfolding take_info next_deadline
take_info-RefreshesLater now datagram info c =
    let refresh = max (get_or_else (refresh_time datagram) refresh_default) refresh_minimum in
    elim (Bool-cases (info_eq c.info info)) [
      | inl e ↦ rw e (now + refresh, refl, omega arith)
      | inr e ↦ rw e (now + refresh, refl, omega arith)
    ]

take_info-info :
    (now : Instant) (datagram : List ℕ) (info : Info) (c : Client)
    → (take_info now datagram info c).0.info ≡ some info
unfolding take_info
take_info-info now datagram info c = elim (Bool-cases (info_eq c.info info)) [
  | inl e ↦ rw e (info_eq_sound c.info info e)
  | inr e ↦ rw e refl
]

-- A datagram either changes nothing of the client, or it is a genuine reply to the exchange that is
-- running: then what its last list of servers and its last list of names say is the information held
-- (nothing, for a list that it does not have), is within the ceilings (at most 16 servers, none
-- unspecified, multicast or loopback, and at most 16 names), and the next deadline is ten minutes
-- away or more.
pub receive-IsGenuine :
    (now : Instant) (datagram : List ℕ) (c : Client)
    → ((receive now datagram c).0 ≡ c)
      ⊎ ((is_some c.retransmit_at ≡ true)
          × IsGenuine c datagram
          × ((info : Info) × ((receive now datagram c).0.info ≡ some info)
              × IsSaid (options (drop 4 datagram)) info
              × IsBounded info)
          × RefreshesLater now (receive now datagram c).0)
unfolding receive
receive-IsGenuine now datagram c = elim (Bool-cases (is_some c.retransmit_at)) [
  | inr e ↦ rw e (inl refl)
  | inl e ↦ elim (Option-cases (parse_reply c datagram)) [
    | inl p ↦ rw (e, p) (inl refl)
    | inr (info, p) ↦
        let g = parse_reply-IsGenuine c datagram info p in
        rw (e, p)
          (inr (
            refl,
            g.0,
            (info, take_info-info now datagram info c, g.2, g.1),
            take_info-RefreshesLater now datagram info c,
          ))
  ]
]
