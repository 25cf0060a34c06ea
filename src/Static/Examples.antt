-- ===== src/Static/Examples.antt =====
-- The theorems on plugins/ipam/static at 10.0.0.4/29.
use containerz_plugin.Common.{
  ◌≡◌, ◌≤◌, ◌⊎◌, Bool, true, false, [], ◌∷◌, Option, none, some, All, ok, Text, text, refl,
}
use containerz_plugin.Net.{Ip, IpNet, to4, equal, bytes_eq}
use containerz_plugin.HostLocal.Range.{canonicalize_ip}
use containerz_plugin.HostLocal.Samples.{net29, host}
use containerz_plugin.Static.{
  Address, StaticConf, EnvArgs, check_addresses, count_family, from_env, parsed, parsed_all,
  own_address, replaced, validated, load_static,
}
use containerz_plugin.Static.Loaded.{IsCanonized, load_static-IsCanonized}
use containerz_plugin.Static.Checked.{check_addresses-Missing}

abbrev no_args : Text → Option EnvArgs
no_args _ = none

abbrev as_29 : Text → Option (Ip × IpNet)
as_29 _ = some (host 4, net29)

abbrev no_ip : Text → Ip
no_ip _ = []

abbrev always : Text → Bool
always _ = true

abbrev static_4 : Address
static_4 = record {
  address_str = text "10.0.0.4/29";
  gateway = [];
  address = record { ip = host 4; mask = net29.mask };
}

abbrev static_conf : StaticConf
static_conf = record {
  cni_version = text "1.0.0";
  addresses = some [];
  args_ips = [];
  runtime_ips = text "10.0.0.4/29" ∷ [];
}

loaded_4 : load_static no_args as_29 no_ip always static_conf [] ≡ ok (static_4 ∷ [])
unfolding load_static from_env replaced parsed_all parsed validated own_address canonicalize_ip to4
    count_family
loaded_4 = refl

load_static-IsCanonized_example :
    All IsCanonized (static_4 ∷ [])
    × ((true ≡ true)
        ⊎ ((count_family true (static_4 ∷ []) ≤ 1) × (count_family false (static_4 ∷ []) ≤ 1)))
load_static-IsCanonized_example =
    load_static-IsCanonized no_args as_29 no_ip always static_conf [] (static_4 ∷ []) loaded_4

other_address : equal (host 4) (host 5) ≡ false
unfolding equal bytes_eq
other_address = refl

check_addresses-Missing_example : check_addresses (static_4 ∷ []) ((host 5, []) ∷ []) ≡ true
check_addresses-Missing_example =
    check_addresses-Missing (static_4 ∷ []) ((host 5, []) ∷ []) ((other_address, tt), tt)
