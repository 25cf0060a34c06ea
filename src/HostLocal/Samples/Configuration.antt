-- ===== src/HostLocal/Samples/Configuration.antt =====
-- The theorems on the configuration and the commands of plugins/ipam/host-local at 10.0.0.0/29.
use containerz_plugin.Common.{
  ◌≡◌, ◌++◌, Bool, true, [], ◌∷◌, Option, some, none, ok, Text, text, refl,
}
use containerz_plugin.Net.{Ip, to4}
use containerz_plugin.HostLocal.Range.{canonicalize_ip}
use containerz_plugin.HostLocal.Range.Interval.{only_subnet}
use containerz_plugin.HostLocal.Config.{
  IpamConfig, NetConf, first_ips, single_range, canonical_ips, canonical_sets, is_v4, count_v4,
  count_v6, overlaps_later, some_overlap, checked_sets, env_ip, load_ipam_config,
}
use containerz_plugin.HostLocal.Config.Accepted.{Accepted, IpsOf, load_ipam_config-Accepted}
use containerz_plugin.HostLocal.Samples.{net29, host, range29}
use containerz_plugin.HostLocal.Samples.Ranges.{canonicalize_set29}

abbrev no_args : Text → Option Ip
no_args _ = none

abbrev always : Text → Bool
always _ = true

-- An old configuration with one range, and an address asked for by the runtime.
abbrev ipam29 : IpamConfig
ipam29 = record { range = some (only_subnet net29); name = []; ranges = []; ip_args = [] }

abbrev conf29 : NetConf
conf29 = record {
  name = text "net";
  cni_version = text "1.0.0";
  ipam = some ipam29;
  runtime_ranges = [];
  runtime_ips = host 4 ∷ [];
  args_ips = [];
}

abbrev pub loaded29 : IpamConfig
loaded29 = record {
  range = none;
  name = text "net";
  ranges = (range29 ∷ []) ∷ [];
  ip_args = host 4 ∷ [];
}

sets29 : checked_sets true ((only_subnet net29 ∷ []) ∷ []) ≡ ok ((range29 ∷ []) ∷ [])
unfolding checked_sets canonical_sets count_v4 count_v6 is_v4 to4 some_overlap overlaps_later
sets29 = rw canonicalize_set29 refl

ips29 : canonical_ips (host 4 ∷ []) ≡ ok (host 4 ∷ [])
unfolding canonical_ips canonicalize_ip to4
ips29 = refl

load29 : load_ipam_config no_args always conf29 [] ≡ ok (loaded29, text "1.0.0")
unfolding load_ipam_config env_ip
load29 = rw (ips29, sets29) refl

load_ipam_config-Accepted_example :
    (c : IpamConfig) × (env : Ip) × (conf29.ipam ≡ some c)
    × (env_ip no_args always [] ≡ ok env)
    × (loaded29.name ≡ conf29.name)
    × (loaded29.range ≡ none)
    × (text "1.0.0" ≡ conf29.cni_version)
    × Accepted true ([] ++ (single_range c.range ++ c.ranges)) loaded29.ranges
    × IpsOf (first_ips env c.ip_args ++ [] ++ host 4 ∷ []) loaded29.ip_args
load_ipam_config-Accepted_example =
    load_ipam_config-Accepted no_args always conf29 [] loaded29 (text "1.0.0") load29
