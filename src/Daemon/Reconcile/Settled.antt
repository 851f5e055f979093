-- ===== src/Daemon/Reconcile/Settled.antt =====
-- netd/src/reconcile.rs: when a plan is empty.
use netd.Base.{◌≡◌, ◌↔◌, some, []}
use netd.Daemon.Model.{Link, Observed, link_of}
use netd.Daemon.Reconcile.{Desired, plan}
use netd.Daemon.Reconcile.Empty.{MtuSettled, plan-NothingLeft}
use netd.Daemon.Reconcile.Addressed.{Addressed, extra_iff, missing_iff}
use netd.Daemon.Reconcile.Routed.{Routed, extra_route_iff, missing_route_iff}

-- The link is as it is desired: its flag, its MTU, its addresses and netd's routes on it.
pub record IsSettled (o : Observed) (d : Desired) (link : Link) : Type 0 where
  up : link.up ≡ d.up
  mtu_as_wanted : MtuSettled d.mtu link
  addressed : Addressed o d
  routed : Routed o d

-- Where the kernel has the link, the plan is empty if and only if the link is as desired: it is up or
-- down as desired and has the MTU that is desired, if any, unless that is below 68; each address observed
-- on it that is not link-local IPv6 has the address and the prefix of a desired one; each desired one is
-- observed with its flags, tentative or not, and is not link-local IPv6; and netd's routes on it are the
-- desired ones.
pub plan-IsSettled :
    (o : Observed) (d : Desired) (link : Link)
    → link_of d.index o.links ≡ some link
    → (plan o d ≡ []) ↔ IsSettled o d link
plan-IsSettled o d link e =
    let (to, from) = plan-NothingLeft o d link e in
    (
      λ h.
          let n = to h in
          record {
            up = n.up;
            mtu_as_wanted = n.mtu_as_wanted;
            addressed = record {
              no_extra = (extra_iff o d).0 n.no_extra;
              none_missing4 = ((missing_iff o d).0 n.no_missing).0;
              none_missing6 = ((missing_iff o d).0 n.no_missing).1;
            };
            routed = record {
              no_extra = (extra_route_iff o d).0 n.no_extra_route;
              none_missing = (missing_route_iff o d).0 n.no_missing_route;
            };
          },
      λ s. from (record {
        up = s.up;
        mtu_as_wanted = s.mtu_as_wanted;
        no_extra = (extra_iff o d).1 s.addressed.no_extra;
        no_missing = (missing_iff o d).1 (s.addressed.none_missing4, s.addressed.none_missing6);
        no_extra_route = (extra_route_iff o d).1 s.routed.no_extra;
        no_missing_route = (missing_route_iff o d).1 s.routed.none_missing;
      }),
    )
