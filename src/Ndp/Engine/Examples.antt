-- ===== src/Ndp/Engine/Examples.antt =====
-- Runs of the model of ndp/src/engine.rs at concrete inputs.
use netd.Base.{
  ℕ, ◌+◌, ◌*◌, ◌^◌, ◌≡◌, refl, ◌⊎◌, Bool, true, false, none, some, List, [], ◌∷◌, ◌++◌, done,
  run_or, length, replicate, filter,
}
use netd.Base.Bytes.{bytes_eq, less}
use netd.Base.BtreeMap.{get, insert, update}
use netd.Base.Equality.{list_eq}
use netd.Base.Time.{Instant, from_secs}
use netd.Wire6.{ipv6_of}
use netd.Wire6.Names.{domain_list, domain_loop}
use netd.Ndp.Packet.{PrefixInfo, options_loop, take_option, prefix_info, decode}
use netd.Ndp.Engine.{
  Config, Action, Prefix, Engine, new, next_random, reserved_iid, stable_iid, stable_from,
  stable_address,
}
use netd.Ndp.Engine.Draw.{is_temp, iid_after, draw, new_temp}
use netd.Ndp.Engine.Lifetimes.{
  solicit_again, newest_preferred, regenerate, regenerate_all, drop_expired, expire,
}
use netd.Ndp.Engine.Observed.{
  default_router, temp_addresses, prefix_addresses, insert_sorted, sort, view, view_eq,
  consider_temps, consider_prefixes, consider_all,
}
use netd.Ndp.Engine.Handlers.{
  emit_if_changed, send_solicit, solicit_if_due, tick, start, refreshed, add_prefix, receive_prefix,
  receive_prefixes, note_all, note_rdnss, note_dnssl, note_router, take_advert, receive,
}
use netd.Ndp.Engine.Deadline.{HasDeadline}
use netd.Ndp.Engine.Reached.{
  IsKept, Reach, created, started, ticked, received, tick-HasDeadline, Reach-IsKept,
}
use netd.Ndp.Engine.Views.{Shows, receive-Shows}
use netd.Ndp.Engine.Guarded.{NoEarlier, floor_of, refreshed-NoEarlier}
use netd.Ndp.Engine.Ends.{Returns, receive-Returns}

-- A digest that is no digest, but a function.
abbrev sha1 : List ℕ → List ℕ
sha1 bytes = replicate 20 (length bytes)

abbrev config : Bool → Config
config temporary = record {
  interface = b'e' ∷ b't' ∷ b'h' ∷ [];
  secret = replicate 32 7;
  temporary = temporary;
  mac = some (0x52 ∷ 0x54 ∷ 0 ∷ 1 ∷ 2 ∷ 3 ∷ []);
  seed = 42;
}

-- An advertisement of a router for half an hour, with a prefix valid for 256 seconds.
abbrev body : List ℕ
body =
    (134 ∷ 0 ∷ 0 ∷ 0 ∷ 64 ∷ 0 ∷ 7 ∷ 8 ∷ replicate 8 0)
    ++ ((3 ∷ 4 ∷ 64 ∷ 0xc0 ∷ 0 ∷ 0 ∷ 1 ∷ 0 ∷ 0 ∷ 0 ∷ 0 ∷ 9 ∷ replicate 4 0)
        ++ (0xfd ∷ replicate 15 0))

abbrev now : Instant
now = from_secs 100

abbrev first : Engine
first = new (config true)

abbrev soliciting : Engine × List Action
soliciting = run_or (first, []) (start 1 now first)

abbrev configured : Engine × List Action
configured = run_or (first, []) (receive sha1 1 now 5 body soliciting.0)

abbrev later : Engine × List Action
later = run_or (first, []) (tick 1 (from_secs 120) configured.0)

start_runs : start 1 now first ≡ done soliciting
unfolding new start tick expire drop_expired solicit_again regenerate regenerate_all solicit_if_due
    send_solicit next_random emit_if_changed view view_eq default_router prefix_addresses sort
    filter
start_runs = refl

receive_runs : receive sha1 1 now 5 body soliciting.0 ≡ done configured
unfolding new start tick expire drop_expired solicit_again regenerate regenerate_all solicit_if_due
    send_solicit next_random emit_if_changed view view_eq default_router prefix_addresses sort
    insert_sorted temp_addresses newest_preferred receive take_advert note_router note_rdnss
    note_dnssl note_all receive_prefixes receive_prefix add_prefix stable_address stable_from
    stable_iid reserved_iid new_temp draw is_temp decode options_loop take_option prefix_info
    ipv6_of get filter list_eq bytes_eq insert
receive_runs = refl

tick_runs : tick 1 (from_secs 120) configured.0 ≡ done later
unfolding new start tick expire drop_expired solicit_again regenerate regenerate_all solicit_if_due
    send_solicit next_random emit_if_changed view view_eq default_router prefix_addresses sort
    insert_sorted temp_addresses newest_preferred receive take_advert note_router note_rdnss
    note_dnssl note_all receive_prefixes receive_prefix add_prefix stable_address stable_from
    stable_iid reserved_iid new_temp draw is_temp decode options_loop take_option prefix_info
    ipv6_of get filter list_eq bytes_eq insert consider_all consider_temps consider_prefixes update
    less
tick_runs = refl

reached : Reach sha1 1 configured.0
reached =
    received now 5 body soliciting.0 configured
      (started now first soliciting (created (config true)) start_runs) receive_runs

tick-HasDeadline_example : HasDeadline (from_secs 120) later.0
tick-HasDeadline_example =
    tick-HasDeadline 1 (from_secs 120) configured.0 later tick_runs
      (Reach-IsKept sha1 1 configured.0 reached).0

Reach-IsKept_example : IsKept later.0
Reach-IsKept_example =
    Reach-IsKept sha1 1 later.0 (ticked (from_secs 120) configured.0 later reached tick_runs)

receive-Shows_example :
    ((decode body ≡ done none) × (configured ≡ (soliciting.0, [])))
    ⊎ Shows now soliciting.0.last_view [] configured
receive-Shows_example = receive-Shows sha1 1 now 5 body soliciting.0 configured receive_runs

receive-Returns_example :
    Returns (receive sha1 0 now 5 body (new (config false)))
    × ((v : List ℕ) → domain_loop (length v + 1) v [] ≡ done (domain_list v))
unfolding new
receive-Returns_example = receive-Returns sha1 0 now 5 body (new (config false)) refl

-- A prefix that is known, and valid for a day more.
abbrev known : Prefix
known = record {
  on_link = true;
  valid_until = some (now + from_secs 86400);
  preferred_until = none;
  stable = 0xfd * 2 ^ 120 + 1;
  temps = [];
}

abbrev spoofed : PrefixInfo
spoofed = record {
  prefix = 0xfd * 2 ^ 120;
  length = 64;
  on_link = true;
  autonomous = true;
  valid = 1;
  preferred = 0;
}

refreshed-NoEarlier_example :
    NoEarlier (floor_of now known.valid_until) (refreshed now spoofed known).valid_until
refreshed-NoEarlier_example = refreshed-NoEarlier now spoofed known

drawn : draw 1 (0xfd * 2 ^ 120) known 43 ≡ done (iid_after 43, next_random (next_random 43))
unfolding draw next_random is_temp reserved_iid ipv6_of bytes_eq
drawn = refl
