-- ===== src/Dhcp6/Examples.antt =====
-- Runs of the models of dhcp6/src/lib.rs, and of the lists it shares with ndp/src/packet.rs, at
-- concrete inputs.
use netd.Base.{
  ℕ, ◌≡◌, refl, ◌⊎◌, inl, true, none, some, List, [], ◌∷◌, ◌++◌, arith, drop, replicate,
}
use netd.Base.Bytes.{bytes_eq}
use netd.Base.Time.{from_secs}
use netd.Dhcp6.Options.{
  option_client_id, option_server_id, option_dns_servers, option_domain_list, options, push_all,
  push_option,
}
use netd.Dhcp6.Client.{
  Info, parse_reply, is_our_reply, see_all, see, take_info, info_eq, Config, Client, changed, new,
  start, tick, receive,
}
use netd.Dhcp6.Client.Running.{
  IsRunning, started, ticked, received, Reach-IsRunning, IsAhead, tick-IsAhead,
}
use netd.Dhcp6.Client.Genuine.{IsGenuine, IsBounded, IsSaid}
use netd.Dhcp6.Client.Replies.{Reports, receive-Reports, RefreshesLater, receive-IsGenuine}

abbrev duid : List ℕ
duid = 0 ∷ 3 ∷ 0 ∷ 1 ∷ 7 ∷ []

abbrev config : Config
config = record { duid = duid; seed = 99 }

-- fd00::3
abbrev resolver : List ℕ
resolver = 0xfd ∷ (replicate 14 0 ++ (3 ∷ []))

-- Lan, and an end.
abbrev domain : List ℕ
domain = 3 ∷ 76 ∷ 97 ∷ 110 ∷ 0 ∷ []

abbrev said : List (ℕ × List ℕ)
said =
    (option_client_id, duid)
    ∷ (option_server_id, 0 ∷ 1 ∷ [])
    ∷ (option_dns_servers, resolver)
    ∷ (option_domain_list, domain)
    ∷ []

abbrev answer : List ℕ
answer = push_all (7 ∷ 1 ∷ 2 ∷ 3 ∷ []) said

abbrev asking : Client
asking = record {
  config = config;
  rng = 99;
  txid = 1 ∷ 2 ∷ 3 ∷ [];
  started = some 0;
  retransmit_at = some (from_secs 1);
  retransmit_interval = from_secs 2;
  refresh_at = none;
  info = none;
}

asking-IsRunning : IsRunning asking
unfolding IsRunning
asking-IsRunning = inl (refl, refl, refl, (omega arith, omega arith))

-- The answer is taken, and reported.
answered : (receive 5 answer asking).1 ≡ changed ∷ []
unfolding receive push_all parse_reply is_our_reply push_option bytes_eq see_all options see
    take_info info_eq
answered = refl

Reach-IsRunning_example : IsRunning (receive 5 answer (tick 3 (start 0 (new config)).0).0).0
Reach-IsRunning_example =
    Reach-IsRunning (receive 5 answer (tick 3 (start 0 (new config)).0).0).0
      (received 5 answer (ticked 3 (started config 0)))

tick-IsAhead_example : IsAhead (from_secs 1) (tick (from_secs 1) asking).0
tick-IsAhead_example = tick-IsAhead (from_secs 1) asking asking-IsRunning

receive-Reports_example : Reports asking (receive 5 answer asking)
receive-Reports_example = receive-Reports 5 answer asking

receive-IsGenuine_example :
    ((receive 5 answer asking).0 ≡ asking)
    ⊎ ((true ≡ true)
        × IsGenuine asking answer
        × ((info : Info) × ((receive 5 answer asking).0.info ≡ some info)
            × IsSaid (options (drop 4 answer)) info
            × IsBounded info)
        × RefreshesLater 5 (receive 5 answer asking).0)
receive-IsGenuine_example = receive-IsGenuine 5 answer asking
