-- ===== src/Dhcp6/Client/Requests.antt =====
-- dhcp6/src/lib.rs: what the message that `request` writes says.
use netd.Base.{ℕ, List, [], ◌∷◌, ◌++◌}
use netd.Base.Bytes.{be16}
use netd.Base.Time.{Instant}
use netd.Dhcp6.Options.{
  option_client_id, option_elapsed_time, option_oro, option_dns_servers, option_domain_list,
  option_information_refresh_time,
}
use netd.Dhcp6.Client.{Client, elapsed}

-- The options of a request, in their order.
abbrev pub asked : Instant → Client → List (ℕ × List ℕ)
asked now c =
    (option_client_id, c.config.duid)
    ∷ (option_elapsed_time, be16 (elapsed c.started now))
    ∷ (
      option_oro,
      be16 option_dns_servers ++ (be16 option_domain_list ++ be16 option_information_refresh_time),
    )
    ∷ []
