-- ===== src/Daemon/Interface/Resolvers.antt =====
-- netd/src/main.rs: the servers and the search domains that `dns` gives for an interface.
use netd.Base.{
  ℕ, ◌≡◌, refl, sym, ap, ◌∙◌, ◌⊎◌, ◌↔◌, inl, inr, Bool, true, false, Option, none, some, List, [],
  ◌∷◌, map, arith, if◌then◌else◌, Option-cases, ◌>>=◌, not,
}
use mathlib.Core.Path.{subst}
use netd.Base.Members.{In, In-append, In-if}
use netd.Base.Net.{IpAddr}
use netd.Base.Bytes.{bytes_eq, bytes_eq_sound, bytes_eq_refl}
use netd.Base.Time.{Instant}
use netd.Core.Profile.{Profile, Outcome, profile_of}
use netd.Dhcp4.Lease.{Lease}
use netd.Dhcp6.Client as Dhcp6
use netd.Dhcp6.Client.{Info}
use netd.Ndp.Engine as Ndp
use netd.Ndp.Engine.Observed.{dns_servers, search_domains}
use netd.Daemon.Reconcile.{same_ip}
use netd.Daemon.Reconcile.Keys.{same_ip_sound, same_ip_refl}
use netd.Daemon.Interface.{Interface, profile, is_empty}
use netd.Daemon.Interface.Reported.{
  from_some, client_info, lease_servers, engine_servers, info_servers, info_search, lease_search,
  offered_servers, offered_search, all_servers, all_search, dns, named,
}
use netd.Daemon.Interface.Told.{Distinct, first_ones-Distinct, first_ones-In}

-- The interface is no loopback and is judged to join the profile.
abbrev pub Joins : Interface → Profile → Type 0
Joins i p = (i.link.loopback ≡ false) × (i.judgment.outcome ≡ Outcome.join p)

-- The DHCPv6 client of the interface holds the information.
abbrev pub Holds : Interface → Info → Type 0
Holds i info = (c : Dhcp6.Client) × (i.dhcp6 ≡ some c) × (c.info ≡ some info)

-- What the lease says of a search domain: its list, or its one domain where that is empty.
abbrev pub IsLeased : List ℕ → Lease → Type 0
IsLeased d l = In d l.search ⊎ ((l.search ≡ []) × (l.domain ≡ some d))

-- Who gives a server to an interface with the profile.
pub data Server (now : Instant) (i : Interface) (p : Profile) (s : IpAddr) : Type 0 where
  of_profile : In s p.dns.servers → Server now i p s
  of_lease :
      (l : Lease)
      → p.dns.offered ≡ true
      → i.lease ≡ some l
      → In s (map IpAddr.v4 l.dns)
      → Server now i p s
  of_router :
      (e : Ndp.Engine)
      → p.dns.offered ≡ true
      → i.ndp ≡ some e
      → In s (map IpAddr.v6 (dns_servers now e))
      → Server now i p s
  of_dhcp6 :
      (info : Info)
      → p.dns.offered ≡ true
      → Holds i info
      → In s (map IpAddr.v6 info.dns)
      → Server now i p s

-- Who gives a search domain to an interface with the profile.
pub data Domain (now : Instant) (i : Interface) (p : Profile) (d : List ℕ) : Type 0 where
  of_profile : In d p.dns.domains → Domain now i p d
  of_lease : (l : Lease) → p.dns.offered ≡ true → i.lease ≡ some l → IsLeased d l → Domain now i p d
  of_router :
      (e : Ndp.Engine)
      → p.dns.offered ≡ true
      → i.ndp ≡ some e
      → In d (search_domains now e)
      → Domain now i p d
  of_dhcp6 :
      (info : Info) → p.dns.offered ≡ true → Holds i info → In d info.search → Domain now i p d

In-from_some :
    {A B : Type 0} (f : A → List B) (o : Option A) (x : B)
    → In x (from_some f o) ↔ ((a : A) × (o ≡ some a) × In x (f a))
In-from_some f none x = (λ h. absurd h, λ (a, e, h). cc)
In-from_some f (some a) x =
    (λ h. (a, refl, h), λ (b, e, h). subst (λ c. In x (f c)) (ground (arith, e)) h)

joined_iff :
    (loopback : Bool) (o : Outcome) (p : Profile)
    → ((if loopback then none else profile_of o) ≡ some p)
      ↔ ((loopback ≡ false) × (o ≡ Outcome.join p))
joined_iff true o p = (λ h. cc h, λ h. cc h.0)
joined_iff false (Outcome.join q) p = (
  λ h. (refl, ap Outcome.join (ground (arith, h))),
  λ h. ap some (ground (arith, ap profile_of h.1)),
)
joined_iff false Outcome.ignore p = (λ h. cc h, λ h. let wrong = ap profile_of h.1 in cc wrong)
joined_iff false Outcome.down p = (λ h. cc h, λ h. let wrong = ap profile_of h.1 in cc wrong)

profile-Joins : (i : Interface) (p : Profile) → (profile i ≡ some p) ↔ Joins i p
profile-Joins i p = joined_iff i.link.loopback i.judgment.outcome p

held_iff :
    (o : Option Dhcp6.Client) (info : Info)
    → ((o >>= client_info) ≡ some info) ↔ ((c : Dhcp6.Client) × (o ≡ some c) × (c.info ≡ some info))
held_iff none info = (λ h. cc h, λ (c, e, h). cc)
held_iff (some c) info = (
  λ h. (c, refl, h),
  λ (b, e, h). let same : c ≡ b = ground (arith, e) in ap client_info same ∙ h,
)

-- An element by itself in a list, where the option holds one.
leased_iff :
    (l : List (List ℕ)) (o : Option (List ℕ)) (d : List ℕ)
    → In d (if not (is_empty l) then l else named o) ↔ (In d l ⊎ ((l ≡ []) × (o ≡ some d)))
leased_iff [] none d = (λ h. absurd h, λ s. elim s [ inl h ↦ h | inr (h, k) ↦ cc k ])
leased_iff [] (some x) d = (
  λ h. elim h [ inl e ↦ inr (refl, ap some (sym e)) | inr h ↦ absurd h ],
  λ s. elim s [ inl h ↦ absurd h | inr (h, k) ↦ inl (ground (arith, k)) ],
)
leased_iff (x ∷ l) o d = (λ h. inl h, λ s. elim s [ inl h ↦ h | inr (h, k) ↦ cc h ])

-- What is given to an interface with the profile `p`.
module _ (now : Instant) (i : Interface) (p : Profile) where
  all_servers-Server : (s : IpAddr) → In s (all_servers now i (some p)) ↔ Server now i p s
  all_servers-Server s =
      let (all, all') = In-append s p.dns.servers _ in
      let (offer, offer') = In-if s p.dns.offered (offered_servers now i) in
      let (first, first') = In-append s (from_some lease_servers i.lease) _ in
      let (rest, rest') = In-append s (from_some (engine_servers now) i.ndp) _ in
      let (of_l, of_l') = In-from_some lease_servers i.lease s in
      let (of_e, of_e') = In-from_some (engine_servers now) i.ndp s in
      let (of_i, of_i') = In-from_some info_servers (i.dhcp6 >>= client_info) s in
      (
        λ h. elim (all h) [
          | inl a ↦ Server.of_profile a
          | inr b ↦
              let (taken, given) = offer b in
              elim (first given) [
                | inl a ↦ let (l, e, m) = of_l a in Server.of_lease l taken e m
                | inr b ↦ elim (rest b) [
                  | inl a ↦ let (n, e, m) = of_e a in Server.of_router n taken e m
                  | inr b ↦
                      let (info, e, m) = of_i b in
                      Server.of_dhcp6 info taken ((held_iff i.dhcp6 info).0 e) m
                ]
              ]
        ],
        λ g. elim g [
          | Server.of_profile a ↦ all' (inl a)
          | Server.of_lease l taken e m ↦
              all' (inr (offer' (taken, first' (inl (of_l' (l, e, m))))))
          | Server.of_router n taken e m ↦
              all' (inr (offer' (taken, first' (inr (rest' (inl (of_e' (n, e, m))))))))
          | Server.of_dhcp6 info taken held m ↦
              let found = of_i' (info, (held_iff i.dhcp6 info).1 held, m) in
              all' (inr (offer' (taken, first' (inr (rest' (inr found))))))
        ],
      )

  all_search-Domain : (d : List ℕ) → In d (all_search now i (some p)) ↔ Domain now i p d
  all_search-Domain d =
      let (all, all') = In-append d p.dns.domains _ in
      let (offer, offer') = In-if d p.dns.offered (offered_search now i) in
      let (first, first') = In-append d (from_some lease_search i.lease) _ in
      let (rest, rest') = In-append d (from_some (search_domains now) i.ndp) _ in
      let (of_l, of_l') = In-from_some lease_search i.lease d in
      let (of_e, of_e') = In-from_some (search_domains now) i.ndp d in
      let (of_i, of_i') = In-from_some info_search (i.dhcp6 >>= client_info) d in
      (
        λ h. elim (all h) [
          | inl a ↦ Domain.of_profile a
          | inr b ↦
              let (taken, given) = offer b in
              elim (first given) [
                | inl a ↦
                    let (l, e, m) = of_l a in
                    Domain.of_lease l taken e ((leased_iff l.search l.domain d).0 m)
                | inr b ↦ elim (rest b) [
                  | inl a ↦ let (n, e, m) = of_e a in Domain.of_router n taken e m
                  | inr b ↦
                      let (info, e, m) = of_i b in
                      Domain.of_dhcp6 info taken ((held_iff i.dhcp6 info).0 e) m
                ]
              ]
        ],
        λ g. elim g [
          | Domain.of_profile a ↦ all' (inl a)
          | Domain.of_lease l taken e m ↦ all' (
              inr
                (offer' (taken, first' (inl (of_l' (l, e, (leased_iff l.search l.domain d).1 m))))))
          | Domain.of_router n taken e m ↦
              all' (inr (offer' (taken, first' (inr (rest' (inl (of_e' (n, e, m))))))))
          | Domain.of_dhcp6 info taken held m ↦
              let found = of_i' (info, (held_iff i.dhcp6 info).1 held, m) in
              all' (inr (offer' (taken, first' (inr (rest' (inr found))))))
        ],
      )

profile-In :
    {A : Type 0} (f : Option Profile → List A) (i : Interface) (x : A)
    → f none ≡ []
    → In x (f (profile i)) ↔ ((p : Profile) × Joins i p × In x (f (some p)))
profile-In f i x nil = elim (Option-cases (profile i)) [
  | inl n ↦ (
    λ h. absurd (subst (In x) (ap f n ∙ nil) h),
    λ (p, j, h). let found = (profile-Joins i p).1 j in ground (arith, found, n),
  )
  | inr (q, s) ↦ (
    λ h. (q, (profile-Joins i q).0 s, subst (λ o. In x (f o)) s h),
    λ (p, j, h). subst (λ o. In x (f o)) (sym ((profile-Joins i p).1 j)) h,
  )
]

-- The servers and the search domains that an interface gives stand once each. A server is among them
-- exactly where the interface is not loopback, is judged to join a profile, and the profile names the
-- server, or it takes what is offered and the lease, the routers or the DHCPv6 client give the server;
-- and so for a search domain, where a lease gives its one domain if its search list is empty.
pub dns-Distinct :
    (now : Instant) (i : Interface) (s : IpAddr) (d : List ℕ)
    → Distinct same_ip (dns now i).servers
      × Distinct bytes_eq (dns now i).search
      × (In s (dns now i).servers ↔ ((p : Profile) × Joins i p × Server now i p s))
      × (In d (dns now i).search ↔ ((p : Profile) × Joins i p × Domain now i p d))
unfolding dns
dns-Distinct now i s d =
    let (once, once') =
      first_ones-In same_ip same_ip_sound same_ip_refl s (all_servers now i (profile i)) in
    let (named, named') = profile-In (all_servers now i) i s refl in
    let (only, only') =
      first_ones-In bytes_eq bytes_eq_sound bytes_eq_refl d (all_search now i (profile i)) in
    let (told, told') = profile-In (all_search now i) i d refl in
    (
      first_ones-Distinct same_ip same_ip_sound same_ip_refl [] (all_servers now i (profile i)),
      first_ones-Distinct bytes_eq bytes_eq_sound bytes_eq_refl [] (all_search now i (profile i)),
      (
        λ h. let (p, j, m) = named (once h) in (p, j, (all_servers-Server now i p s).0 m),
        λ (p, j, g). once' (named' (p, j, (all_servers-Server now i p s).1 g)),
      ),
      (
        λ h. let (p, j, m) = told (only h) in (p, j, (all_search-Domain now i p d).0 m),
        λ (p, j, g). only' (told' (p, j, (all_search-Domain now i p d).1 g)),
      ),
    )
