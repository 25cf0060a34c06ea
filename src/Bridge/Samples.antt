-- ===== src/Bridge/Samples.antt =====
-- A bridge at work on a concrete host.
pub mod Links
use containerz_plugin.Bridge.Ports
use containerz_plugin.Bridge.Ports.{
  set_vlans, remove_default_vlan, remove_listed, delete_vlans, add_vlans,
}
use containerz_plugin.Bridge.Ports.Tagged
use containerz_plugin.Bridge.Ports.Tagged.{carried, set_vlans-carries}
use containerz_plugin.Bridge.Check
use containerz_plugin.Bridge.Check.{
  Interface, Kind, bridge, veth, Namespace, agree, validate_interface, validate_cni_br_interface,
  validate_cni_container_interface, validate_veth, validate_cni_veth_interface, known_interfaces,
  find_veth, check_interfaces,
}
use containerz_plugin.Bridge.Check.Connected.{Connected, check_interfaces-Connected}
use mathlib.Core.List.{Memᴰ}
use mathlib.Core.List.Memᴰ.{head, tail}
use containerz_plugin.Common.{
  not, ◌==◌, ◌&&◌, ◌||◌, text, replicate, ℕ, ◌≡◌, ◌↔◌, subst, refl, sym, ap, ◌∙◌, Bool, true, false,
  List, [], ◌∷◌, ◌++◌, Option, none, some, if◌then◌else◌, ok, Text, text_eq, text_eq_iff, ◌⊎◌, inl,
  inr, Bool-cases, ℤ, pos, All,
}
use containerz_plugin.Net.{
  Ip, IpNet, to4, mask_ip, and_bytes, int_bytes, set_bytes, is_mapped, bytes_eq,
}
use containerz_plugin.Cidr.{next_ip, normalize_ip, int_to_ip}
use containerz_plugin.Bridge.Config.{
  RawConf, NetConf, default_br_name, vlan_of, vlans_of, env_mac, load_net_conf,
}
use containerz_plugin.Bridge.Config.Port.{Port, load_net_conf-Port}
use containerz_plugin.Bridge.Gateways.{
  IpCfg, GwInfo, default_net, family_of, gateway_of, calc_gateway_ip, has_default, with_default,
  Progress, with_cfg, calc_from, calc_gateways,
}
use containerz_plugin.Bridge.Gateways.Defaults.{calc_gateways-Defaults}
use containerz_plugin.Bridge.Gateways.Reached.{Defaults}
use containerz_plugin.Bridge.Addresses.{
  Family, family_v4, family_v6, Errno, Link, Netlink, ensure_addr,
}
use containerz_plugin.Bridge.Addresses.Harmony.{
  IsHarmonious, deleted, new, IsFaithful, Settled, ensure_addr-IsHarmonious,
}
use containerz_plugin.Bridge.Vlans.{
  VlanTrunk, vlan_id, has, put, put_range, with_range, with_id, vlan_map, insert, sort,
  collect_vlan_trunk,
}
use containerz_plugin.Bridge.Vlans.Sorted.{IsRising, IsVlan, named, collect_vlan_trunk-IsRising}

abbrev trunk : List VlanTrunk
trunk =
    record { min_id = some (pos 101); max_id = some (pos 103); id = some (pos 102) }
    ∷ record { min_id = none; max_id = none; id = some (pos 7) }
    ∷ []

abbrev pub vlans : List ℕ
vlans = 7 ∷ 101 ∷ 102 ∷ 103 ∷ []

collected : collect_vlan_trunk (some trunk) ≡ ok (some vlans)
unfolding collect_vlan_trunk vlan_map with_range with_id vlan_id put put_range has insert sort
collected = refl

collect_vlan_trunk-IsRising_example :
    IsRising vlans × All IsVlan vlans × ((u : ℕ) → has u vlans ≡ named u trunk)
collect_vlan_trunk-IsRising_example = collect_vlan_trunk-IsRising trunk vlans collected

-- A host whose state is the list of the addresses of the bridge.
abbrev printed : IpNet → Text
printed n = n.ip ++ n.mask

unfoldable on_bridge : IpNet → List IpNet → Bool
on_bridge n [] = false
on_bridge n (a ∷ l) = if text_eq (printed a) (printed n) then true else on_bridge n l

unfoldable without : IpNet → List IpNet → List IpNet
without n [] = []
without n (a ∷ l) = if text_eq (printed a) (printed n) then without n l else a ∷ without n l

unfoldable with_address : IpNet → List IpNet → List IpNet × Option Errno
with_address n s = (n ∷ without n s, none)

abbrev host : Netlink (List IpNet)
host = record {
  addr_list = λ s _ _. (s, none);
  addr_add = λ s _ n. with_address n s;
  addr_del = λ s _ n. (without n s, none);
  set_hardware_addr = λ s _ _. (s, none);
}

alike_iff : (a n : IpNet) → (text_eq (printed a) (printed n) ≡ true) ↔ (printed a ≡ printed n)
alike_iff a n = text_eq_iff (printed a) (printed n)

Mem-without :
    (n a : IpNet) (s : List IpNet) → Memᴰ a (without n s) → Memᴰ a s × ¬ (printed a ≡ printed n)
unfolding without
Mem-without n a [] m = elim m [ ]
Mem-without n a (b ∷ l) m = elim (Bool-cases (text_eq (printed b) (printed n))) [
  | inl e ↦
      let (x, y) =
        Mem-without n a l (subst (λ c. Memᴰ a (if c then without n l else b ∷ without n l)) e m) in
      (tail x, y)
  | inr e ↦
      kept (λ x. Mem-without n a l x) e
        (subst (λ c. Memᴰ a (if c then without n l else b ∷ without n l)) e m)
]
  where
    kept :
        (Memᴰ a (without n l) → Memᴰ a l × ¬ (printed a ≡ printed n))
        → text_eq (printed b) (printed n) ≡ false
        → Memᴰ a (b ∷ without n l)
        → Memᴰ a (b ∷ l) × ¬ (printed a ≡ printed n)
    kept k e (head p) = (head p, λ q. let t = (alike_iff b n).1 (sym (ap printed p) ∙ q) in cc)
    kept k e (tail x) = let (y, z) = k x in (tail y, z)

without-Mem :
    (n a : IpNet) (s : List IpNet) → Memᴰ a s → ¬ (printed a ≡ printed n) → Memᴰ a (without n s)
unfolding without
without-Mem n a [] m d = elim m [ ]
without-Mem n a (b ∷ l) (head p) d = elim (Bool-cases (text_eq (printed b) (printed n))) [
  | inl e ↦ absurd (d (ap printed p ∙ (alike_iff b n).0 e))
  | inr e ↦ rw e (head p)
]
without-Mem n a (b ∷ l) (tail m) d = elim (Bool-cases (text_eq (printed b) (printed n))) [
  | inl e ↦ rw e (without-Mem n a l m d)
  | inr e ↦ rw e (tail (without-Mem n a l m d))
]

abbrev cni0 : Link
cni0 = record { name = []; index = 2; mac = [] }

host-IsFaithful : IsFaithful host printed cni0 family_v4
unfolding with_address
host-IsFaithful = record {
  deletes = λ s n. deleted (λ a. Mem-without n a s) (λ a. without-Mem n a s);
  adds = λ s n. new (added_from n s) (head refl);
  sets = λ s m. refl;
}
  where
    added_from :
        (n : IpNet) (s : List IpNet) (a : IpNet) → Memᴰ a (n ∷ without n s) → (a ≡ n) ⊎ Memᴰ a s
    added_from n s a (head e) = inl e
    added_from n s a (tail m) = inr (Mem-without n a s m).0

abbrev old_address : IpNet
old_address = record { ip = 10 ∷ 0 ∷ 0 ∷ 1 ∷ []; mask = 255 ∷ 0 ∷ 0 ∷ 0 ∷ [] }

abbrev new_address : IpNet
new_address = record { ip = 10 ∷ 1 ∷ 0 ∷ 1 ∷ []; mask = 255 ∷ 255 ∷ 0 ∷ 0 ∷ [] }

old_address-IsHarmonious : IsHarmonious host printed cni0 family_v4 (old_address ∷ [])
old_address-IsHarmonious a b (head e) (head f) = inl (ap printed (e ∙ sym f))
old_address-IsHarmonious a b (head e) (tail m) = elim m [ ]
old_address-IsHarmonious a b (tail m) y = elim m [ ]

ensure_addr-IsHarmonious_example :
    Settled host printed cni0 family_v4 new_address
      (ensure_addr host printed cni0 family_v4 new_address true (old_address ∷ []))
ensure_addr-IsHarmonious_example =
    ensure_addr-IsHarmonious host printed cni0 family_v4 host-IsFaithful new_address true
      (old_address ∷ []) old_address-IsHarmonious

-- An address of IPv4 without a gateway and one of IPv6 with one, and a result without routes.
abbrev address_v6 : IpNet
address_v6 = record {
  ip = 253 ∷ 0 ∷ (replicate 13 0 ++ (9 ∷ []));
  mask = replicate 8 255 ++ replicate 8 0;
}

abbrev gateway_v4 : Ip
gateway_v4 = 10 ∷ 1 ∷ 0 ∷ 1 ∷ []

abbrev gateway_v6 : Ip
gateway_v6 = 253 ∷ 0 ∷ (replicate 13 0 ++ (1 ∷ []))

abbrev cfg_of : IpNet → Ip → Option ℤ → IpCfg
cfg_of n g i = record { address = n; gateway = g; interface = i }

abbrev cfgs : List IpCfg
cfgs = cfg_of new_address [] none ∷ cfg_of address_v6 gateway_v6 none ∷ []

abbrev info_of : Family → Ip → IpNet → GwInfo
info_of f g n = record {
  gws = record { ip = g; mask = n.mask } ∷ [];
  family = some f;
  default_route_found = true;
}

abbrev gone_through : Progress
gone_through = record {
  gws_v4 = info_of family_v4 gateway_v4 new_address;
  gws_v6 = info_of family_v6 gateway_v6 address_v6;
  ips =
      cfg_of new_address gateway_v4 (some (pos 2))
      ∷ cfg_of address_v6 gateway_v6 (some (pos 2))
      ∷ [];
  routes =
      record { dst = default_net family_v4; gw = gateway_v4 }
      ∷ record { dst = default_net family_v6; gw = gateway_v6 }
      ∷ [];
}

calculated : calc_gateways printed true true cfgs [] ≡ ok gone_through
unfolding calc_gateways calc_from family_of gateway_of calc_gateway_ip with_cfg with_default
    has_default next_ip to4 mask_ip normalize_ip and_bytes int_to_ip int_bytes set_bytes is_mapped
    bytes_eq text_eq
calculated = refl

calc_gateways-Defaults_example : Defaults printed cfgs [] gone_through.routes
calc_gateways-Defaults_example = calc_gateways-Defaults printed true cfgs [] gone_through calculated

abbrev conf : RawConf
conf = record {
  br_name = none;
  is_gw = true;
  is_default_gw = false;
  hairpin_mode = false;
  promisc_mode = false;
  vlan = pos 0;
  vlan_trunk = some trunk;
  preserve_default_vlan = none;
  disable_container_interface = false;
  ipam_type = text "host-local";
  args_mac = [];
  runtime_mac = text "02:00:00:00:00:01";
}

abbrev pub loaded : NetConf
loaded = record {
  br_name = default_br_name;
  is_gw = true;
  is_default_gw = false;
  hairpin_mode = false;
  promisc_mode = false;
  vlan = 0;
  vlan_trunk = some trunk;
  preserve_default_vlan = true;
  disable_container_interface = false;
  ipam_type = text "host-local";
  mac = text "02:00:00:00:00:01";
  vlans = some vlans;
}

accepted : load_net_conf (λ _. none) [] conf ≡ ok loaded
unfolding load_net_conf vlan_of vlans_of env_mac collect_vlan_trunk vlan_map with_range with_id
    vlan_id put put_range has insert sort
accepted = refl

load_net_conf-Port_example : Port 0 (some vlans)
load_net_conf-Port_example = load_net_conf-Port (λ _. none) [] conf loaded accepted
