-- ===== src/Bridge/Gateways.antt =====
-- plugins/main/bridge/bridge.go: the gateways of the addresses that the IPAM plugin gave, and the
-- default routes. A nil address is the empty one; the printing of networks is a parameter.
pub mod Reached
pub mod Defaults
use containerz_plugin.Common.{
  ◌==◌, Bool, true, false, ◌&&◌, ◌||◌, not, List, [], ◌∷◌, ◌++◌, Option, none, some, ℕ, ℤ, pos,
  Result, ok, err, ◌>>=◌, if◌then◌else◌, length, replicate, Text, text_eq,
}
use containerz_plugin.Net.{Ip, IpNet, is_nil, to4, mask_ip, ipv6_len, v4_in_v6_prefix}
use containerz_plugin.Cidr.{next_ip}
use containerz_plugin.Bridge.Addresses.{Family, family_v4, family_v6}

pub record IpCfg : Type 0 where
  pub address : IpNet
  pub gateway : Ip
  pub interface : Option ℤ

pub record Route : Type 0 where
  pub dst : IpNet
  pub gw : Ip

-- `gwInfo`; no address of the family leaves the family unset.
pub record GwInfo : Type 0 where
  pub gws : List IpNet
  pub family : Option Family
  pub default_route_found : Bool

pub data GatewayError : Type 0 where
  unknown_ip panicked : GatewayError

-- `net.IPv4zero` and `net.IPv6zero`, each as an address and as a mask.
abbrev pub zero_ip : Family → Ip
zero_ip family_v4 = v4_in_v6_prefix ++ replicate 4 0
zero_ip family_v6 = replicate 16 0

abbrev pub default_net : Family → IpNet
default_net f = record { ip = zero_ip f; mask = zero_ip f }

unfoldable pub family_of : Ip → Result GatewayError Family
family_of ip =
    if not (is_nil (to4 ip))
    then ok family_v4
    else if length ip == ipv6_len
    then ok family_v6
    else err unknown_ip

-- `calcGatewayIP`
unfoldable pub calc_gateway_ip : IpNet → Option Ip
calc_gateway_ip n = next_ip (mask_ip n.ip n.mask)

-- The gateway of an address: the one given, or else the first address of the network.
unfoldable pub gateway_of : Bool → IpCfg → Result GatewayError Ip
gateway_of is_gw c =
    if is_nil c.gateway && is_gw
    then elim (calc_gateway_ip c.address) [ none ↦ err panicked | some g ↦ ok g ]
    else ok c.gateway

abbrev pub with_gateway : Bool → Ip → Ip → List IpNet → List IpNet
with_gateway is_gw gateway mask l =
    if is_gw then l ++ (record { ip = gateway; mask = mask } ∷ []) else l

module _ (print_net : IpNet → Text) where
  abbrev pub is_default : Family → Route → Bool
  is_default f r = not (is_nil r.gw) && text_eq (print_net (default_net f)) (print_net r.dst)

  unfoldable pub has_default : Family → List Route → Bool
  has_default f [] = false
  has_default f (r ∷ rs) = is_default f r || has_default f rs

  -- The routes behind one address, and whether the family has its default route.
  unfoldable pub with_default : Family → Bool → Ip → Bool → List Route → List Route × Bool
  with_default f is_default_gw gateway found rs =
      if is_default_gw && not found
      then if has_default f rs
        then (rs, true)
        else (rs ++ (record { dst = default_net f; gw = gateway } ∷ []), true)
      else (rs, found)

-- What the loop keeps: both families, the addresses that were gone through and the routes.
pub record Progress : Type 0 where
  pub gws_v4 : GwInfo
  pub gws_v6 : GwInfo
  pub ips : List IpCfg
  pub routes : List Route

abbrev pub info : Family → Progress → GwInfo
info family_v4 p = p.gws_v4
info family_v6 p = p.gws_v6

abbrev pub set_info : Family → GwInfo → Progress → Progress
set_info family_v4 i p = record p { gws_v4 = i }
set_info family_v6 i p = record p { gws_v6 = i }

abbrev pub no_info : GwInfo
no_info = record { gws = []; family = none; default_route_found = false }

abbrev pub start : List Route → Progress
start rs = record { gws_v4 = no_info; gws_v6 = no_info; ips = []; routes = rs }

module _ (print_net : IpNet → Text) where
  -- The body of the loop for an address whose family and gateway are known.
  unfoldable pub with_cfg : Bool → Bool → IpCfg → Family → Ip → Progress → Progress
  with_cfg is_gw is_default_gw c f gateway p =
      let i = info f p in
      let (rs, found) =
        with_default print_net f is_default_gw gateway i.default_route_found p.routes in
      set_info f
        (record {
          gws = with_gateway is_gw gateway c.address.mask i.gws;
          family = some f;
          default_route_found = found;
        })
        (record p {
          ips =
              p.ips
              ++ (record { address = c.address; gateway = gateway; interface = some (pos 2) } ∷ []);
          routes = rs;
        })

  unfoldable pub calc_from : Bool → Bool → List IpCfg → Progress → Result GatewayError Progress
  calc_from is_gw is_default_gw [] p = ok p
  calc_from is_gw is_default_gw (c ∷ cs) p = do
    f ← family_of c.address.ip
    g ← gateway_of is_gw c
    calc_from is_gw is_default_gw cs (with_cfg is_gw is_default_gw c f g p)

  unfoldable pub calc_gateways :
      Bool → Bool → List IpCfg → List Route → Result GatewayError Progress
  calc_gateways is_gw is_default_gw cs rs = calc_from is_gw is_default_gw cs (start rs)
