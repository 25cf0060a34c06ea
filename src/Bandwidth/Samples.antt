-- ===== src/Bandwidth/Samples.antt =====
-- A configuration that limits one direction.
use containerz_plugin.Common.{ℕ, ◌+◌, ◌≡◌, refl, true, none, some, ok, text}
use containerz_plugin.Bandwidth.{
  BandwidthEntry, PluginConf, Netlink, parse_config, get_bandwidth, validate_rate_and_burst,
}
use containerz_plugin.Bandwidth.Accepted.{Direction, parse_config-Direction}

abbrev slow : BandwidthEntry
slow = record { ingress_rate = 8000; ingress_burst = 80000; egress_rate = 0; egress_burst = 0 }

abbrev conf : PluginConf
conf = record { name = text "net"; entry = none; runtime_entry = some slow }

-- The number of requests that were made.
abbrev counting : Netlink ℕ
counting = record {
  host_interface = λ n. some (text "veth0");
  mtu_of = λ n t. some 1500;
  link_by_name = λ n t. some 7;
  add_ifb = λ n t m. (n + 1, true);
  add_ingress = λ n l. (n + 1, true);
  add_redirection = λ n a b. (n + 1, true);
  add_tbf = λ n f. (n + 1, true);
  del_link = λ n t. (n + 1, ok tt);
}

parses : parse_config conf ≡ ok conf
unfolding parse_config get_bandwidth validate_rate_and_burst
parses = refl

runtime_counts : get_bandwidth conf ≡ some slow
unfolding get_bandwidth
runtime_counts = refl

parse_config-Direction_example :
    Direction (λ r b. b) (λ r b. r + b) counting 8000 80000
    × Direction (λ r b. b) (λ r b. r + b) counting 0 0
parse_config-Direction_example =
    parse_config-Direction (λ r b. b) (λ r b. r + b) counting conf conf slow parses runtime_counts
