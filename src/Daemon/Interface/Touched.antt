-- ===== src/Daemon/Interface/Touched.antt =====
-- netd/src/main.rs, `reconcile_all`: which interfaces a pass touches, and how.
use netd.Base.{
  ℕ, ◌≡◌, refl, sym, ◌∙◌, ◌⊎◌, inl, inr, Bool, true, false, ◌&&◌, not, Option, none, some, List, [],
  ◌∷◌, ◌++◌, arith, if◌then◌else◌, Bool-cases, Option-cases, is_some, or_else, All, All-append,
  All-imp,
}
use netd.Base.Time.{Instant}
use mathlib.Core.Path.{subst}
use netd.Core.Profile.{StaticAddress, Profile, Outcome}
use netd.Daemon.Model.{Observed}
use netd.Daemon.Reconcile.{
  Desired, Op, link_up, link_down, mtu, add_address, del_address, add_route, del_route, Rtnl, plan,
  apply,
}
use netd.Daemon.Reconcile.Owned.{Owned, plan-Owned}
use netd.Daemon.Reconcile.Applied.{apply-append}
use netd.Daemon.Restart.{Ipv4}
use netd.Daemon.Restart.Kept.{preserve-Extends}
use netd.Dhcp4.Lease.{Lease}
use netd.Base.Net.{IpAddr}
use netd.Daemon.Interface.{
  Interface, metric, is_empty, chosen, paired, lease_gateway, offered_mtu, nothing, with_statics,
  with_static, with_lease, with_link_local, with_restart, joined4, joined, desired_for, desired,
}
use netd.Daemon.Interface.Reported.{ops_for, reconcile_all}

abbrev pub index_of : Op → ℕ
index_of (link_up i) = i
index_of (link_down i) = i
index_of (mtu i m) = i
index_of (add_address a b) = a.index
index_of (del_address a) = a.index
index_of (add_route r) = r.index
index_of (del_route r) = r.index

-- What the layer's verdict lets be done.
abbrev pub is_let : Outcome → Op → Bool
is_let Outcome.ignore op = false
is_let Outcome.down (link_up i) = false
is_let Outcome.down (mtu i m) = false
is_let Outcome.down op = true
is_let (Outcome.join p) (link_down i) = false
is_let (Outcome.join p) op = true

-- A step on the interface, which is not loopback, and which the verdict lets be done.
abbrev pub IsAllowed : Interface → Op → Type 0
IsAllowed i op =
    (index_of op ≡ i.link.index) × (i.link.loopback ≡ false) × (is_let i.judgment.outcome op ≡ true)

Owned-index : (d : Desired) (op : Op) → Owned d op → index_of op ≡ d.index
Owned-index d (link_up i) h = h.0
Owned-index d (link_down i) h = h.0
Owned-index d (mtu i m) h = h.0
Owned-index d (add_address a b) h = h.0
Owned-index d (del_address a) h = h.0
Owned-index d (add_route r) h = h.0
Owned-index d (del_route r) h = h.0

down_let : (index : ℕ) (op : Op) → Owned (nothing index) op → is_let Outcome.down op ≡ true
down_let index (link_up i) h = cc
down_let index (link_down i) h = refl
down_let index (mtu i m) h = cc
down_let index (add_address a b) h = refl
down_let index (del_address a) h = refl
down_let index (add_route r) h = refl
down_let index (del_route r) h = refl

join_let :
    (p : Profile) (d : Desired) (op : Op)
    → d.up ≡ true
    → Owned d op
    → is_let (Outcome.join p) op ≡ true
join_let p d (link_up i) u h = refl
join_let p d (link_down i) u h = cc
join_let p d (mtu i m) u h = refl
join_let p d (add_address a b) u h = refl
join_let p d (del_address a) u h = refl
join_let p d (add_route r) u h = refl
join_let p d (del_route r) u h = refl

-- The link, and that it is up, are the same.
abbrev SameLink : Desired → Desired → Type 0
SameLink d e = (e.index ≡ d.index) × (e.up ≡ d.up)

with_static-SameLink :
    (s : StaticAddress) (a : IpAddr) (d : Desired) → SameLink d (with_static s a d)
with_static-SameLink s (IpAddr.v4 a) d = (refl, refl)
with_static-SameLink s (IpAddr.v6 a) d = (refl, refl)

with_statics-SameLink : (ss : List StaticAddress) (d : Desired) → SameLink d (with_statics ss d)
unfolding with_statics
with_statics-SameLink [] d = (refl, refl)
with_statics-SameLink (s ∷ ss) d =
    let one = with_static-SameLink s s.address d in
    let more = with_statics-SameLink ss (with_static s s.address d) in
    (more.0 ∙ one.0, more.1 ∙ one.1)

with_lease-SameLink :
    (l : Option Lease) (offered : Bool) (metric : ℕ) (d : Desired)
    → SameLink d (with_lease l offered metric d)
unfolding with_lease
with_lease-SameLink none offered metric d = (refl, refl)
with_lease-SameLink (some l) offered metric d = (refl, refl)

with_link_local-SameLink :
    (a : Option ℕ) (alone : Bool) (d : Desired) → SameLink d (with_link_local a alone d)
unfolding with_link_local
with_link_local-SameLink none alone d = (refl, refl)
with_link_local-SameLink (some a) true d = (refl, refl)
with_link_local-SameLink (some a) false d = (refl, refl)

with_restart-SameLink :
    (k : Option Ipv4) (offered : Bool) (metric : ℕ) (d : Desired)
    → SameLink d (with_restart k offered metric d)
unfolding with_restart
with_restart-SameLink none offered metric d = (refl, refl)
with_restart-SameLink (some k) offered metric d =
    let kept = preserve-Extends k offered metric d in (kept.index, kept.up)

joined4-SameLink : (i : Interface) (p : Profile) (d : Desired) → SameLink d (joined4 i p d)
unfolding joined4
joined4-SameLink i p d =
    let offered = p.address.route_offered in
    let alone = not (is_some i.lease) && is_empty p.address.statics in
    let d0 = with_statics p.address.statics d in
    let d1 = with_lease i.lease offered (metric i) d0 in
    let d2 = with_link_local i.link_local alone d1 in
    let d3 : Desired = record d2 {
      default_route = paired (metric i) (chosen p.address.gateway offered (lease_gateway i.lease));
    } in
    let s0 = with_statics-SameLink p.address.statics d in
    let s1 = with_lease-SameLink i.lease offered (metric i) d0 in
    let s2 = with_link_local-SameLink i.link_local alone d1 in
    let s3 = with_restart-SameLink i.restart offered (metric i) d3 in
    (s3.0 ∙ (s2.0 ∙ (s1.0 ∙ s0.0)), s3.1 ∙ (s2.1 ∙ (s1.1 ∙ s0.1)))

joined_link :
    (now : Instant) (i : Interface) (p : Profile)
    → ((joined now i p).index ≡ i.link.index) × ((joined now i p).up ≡ true)
unfolding joined
joined_link now i p = joined4-SameLink i p (record (nothing i.link.index) {
  up = true;
  mtu = or_else p.address.mtu (if p.address.mtu_offered then offered_mtu i else none);
})

desired_for-IsAllowed :
    (now : Instant) (o : Observed) (i : Interface) (d : Desired) (verdict : Outcome)
    → desired_for now i verdict ≡ some d
    → All (λ op. (index_of op ≡ i.link.index) × (is_let verdict op ≡ true)) (plan o d)
unfolding desired_for
desired_for-IsAllowed now o i d Outcome.ignore h = cc
desired_for-IsAllowed now o i d Outcome.down h =
    let same : nothing i.link.index ≡ d = ground arith in
    subst
      (λ e. All (λ op. (index_of op ≡ i.link.index) × (is_let Outcome.down op ≡ true)) (plan o e))
      same
      (All-imp (Owned (nothing i.link.index))
        (λ op. (index_of op ≡ i.link.index) × (is_let Outcome.down op ≡ true))
        (plan o (nothing i.link.index))
        (λ op w. (Owned-index (nothing i.link.index) op w, down_let i.link.index op w))
        (plan-Owned o (nothing i.link.index)))
desired_for-IsAllowed now o i d (Outcome.join p) h =
    let same : joined now i p ≡ d = ground arith in
    let j = joined now i p in
    let (index, up) = joined_link now i p in
    subst
      (λ e.
        All (λ op. (index_of op ≡ i.link.index) × (is_let (Outcome.join p) op ≡ true)) (plan o e))
      same
      (All-imp (Owned j) (λ op. (index_of op ≡ i.link.index) × (is_let (Outcome.join p) op ≡ true))
        (plan o j) (λ op w. (Owned-index j op w ∙ index, join_let p j op up w)) (plan-Owned o j))

desired-some :
    (now : Instant) (i : Interface) (d : Desired)
    → desired now i ≡ some d
    → (i.link.loopback ≡ false) × (desired_for now i i.judgment.outcome ≡ some d)
unfolding desired
desired-some now i d h = elim (Bool-cases i.link.loopback) [
  | inl l ↦ ground (arith, h, l)
  | inr l ↦ (l, ground (arith, h, l))
]

ops_for-IsAllowed :
    (now : Instant) (o : Observed) (i : Interface) → All (IsAllowed i) (ops_for now o i)
unfolding ops_for
ops_for-IsAllowed now o i = elim (Option-cases (desired now i)) [
  | inl n ↦ rw (n, ops_for) tt
  | inr (d, s) ↦
      let (l, for_verdict) = desired-some now i d s in
      rw (s, ops_for)
        (All-imp (λ op. (index_of op ≡ i.link.index) × (is_let i.judgment.outcome op ≡ true))
          (IsAllowed i) (plan o d) (λ op w. (w.0, l, w.1))
          (desired_for-IsAllowed now o i d i.judgment.outcome for_verdict))
]

-- The steps of a pass, in order.
abbrev pub pass : Instant → Observed → List Interface → List Op
pass now o [] = []
pass now o (i ∷ is') = ops_for now o i ++ pass now o is'

-- The step is allowed on one of the interfaces.
abbrev pub IsSomewhere : List Interface → Op → Type 0
IsSomewhere [] op = ⊥
IsSomewhere (i ∷ is') op = IsAllowed i op ⊎ IsSomewhere is' op

pass-IsSomewhere :
    (now : Instant) (o : Observed) (is' : List Interface) → All (IsSomewhere is') (pass now o is')
pass-IsSomewhere now o [] = tt
pass-IsSomewhere now o (i ∷ is') =
    All-append (IsSomewhere (i ∷ is')) (ops_for now o i) (pass now o is')
      (All-imp (IsAllowed i) (IsSomewhere (i ∷ is')) (ops_for now o i) (λ op w. inl w)
        (ops_for-IsAllowed now o i))
      (All-imp (IsSomewhere is') (IsSomewhere (i ∷ is')) (pass now o is') (λ op w. inr w)
        (pass-IsSomewhere now o is'))

reconcile_all-pass :
    {S : Type 0} (rtnl : Rtnl S) (now : Instant) (o : Observed) (is' : List Interface) (s : S)
    → reconcile_all rtnl now o is' s ≡ (apply rtnl (pass now o is') s).0
unfolding reconcile_all apply
reconcile_all-pass rtnl now o [] s = refl
reconcile_all-pass rtnl now o (i ∷ is') s =
    reconcile_all-pass rtnl now o is' (apply rtnl (ops_for now o i) s).0
    ∙ sym (apply-append rtnl (ops_for now o i) (pass now o is') s)

-- Whatever steps fail, a pass over the interfaces performs all their steps in order; and each step is on
-- one of them, which is not loopback, and is let by the layer's verdict: none where it is to be ignored,
-- neither a link that is set up nor an MTU where it is to be down, no link set down where it is joined.
pub reconcile_all-IsSomewhere :
    {S : Type 0} (rtnl : Rtnl S) (now : Instant) (o : Observed) (is' : List Interface) (s : S)
    → (reconcile_all rtnl now o is' s ≡ (apply rtnl (pass now o is') s).0)
      × All (IsSomewhere is') (pass now o is')
reconcile_all-IsSomewhere rtnl now o is' s =
    (reconcile_all-pass rtnl now o is' s, pass-IsSomewhere now o is')
