-- ===== src/Portmap/Config.antt =====
-- plugins/meta/portmap/main.go: the configuration behind the JSON decoding and the parsing of the
-- previous result, and the commands. Which of iptables and nftables the system has, the mapper of
-- nftables, the stale connections and the localnet routing are parameters.
pub mod Valid
use containerz_plugin.Common.{
  ◌then◌, ℕ, ◌+◌, Bool, true, false, ◌&&◌, ◌||◌, not, List, [], ◌∷◌, ◌++◌, Option, none, some,
  get_elem?, ltb, leb, ◌==◌, if◌then◌else◌, ℤ, pos, negsuc, ltℤ, Result, ok, err, ◌>>=◌, ◌>>◌,
  guard, Text, text, text_eq,
}
use containerz_plugin.Net.{Ip, IpNet, is_nil, to4}
use containerz_plugin.Portmap.Chain.{ChainError, Outcome}
use containerz_plugin.Portmap.Utils.{PortMapEntry}
use containerz_plugin.Portmap.Rules.{PortMapConf}

abbrev pub iptables_backend : Text
iptables_backend = text "iptables"

abbrev pub nftables_backend : Text
nftables_backend = text "nftables"

abbrev pub default_mark_bit : ℤ
default_mark_bit = pos 13

-- An interface and an address of the previous result.
pub record Interface : Type 0 where
  pub name : Text
  pub sandbox : Text

pub record ResultIp : Type 0 where
  pub address : IpNet
  pub interface : Option ℤ

-- What the JSON gives.
pub record RawConf : Type 0 where
  pub name : Text
  pub backend : Option Text
  pub snat : Option Bool
  pub conditions_v4 : Option (List Text)
  pub conditions_v6 : Option (List Text)
  pub masq_all : Bool
  pub mark_masq_bit : Option ℤ
  pub port_maps : List PortMapEntry
  pub external_set_mark_chain : Option Text
  pub interfaces : List Interface
  pub ips : List ResultIp

pub data ConfError : Type 0 where
  mark_and_chain bad_mark_bit wrong_backend unknown_backend bad_container_port bad_host_port :
      ConfError

-- `detectBackendOfConditions`; `none` for no conditions
unfoldable pub detect_backend : Option (List Text) → Option Text
detect_backend none = none
detect_backend (some []) = none
detect_backend (some ([] ∷ _)) = none
detect_backend (some ((c ∷ _) ∷ _)) =
    if c == 45 || c == 33 then some iptables_backend else some nftables_backend

abbrev pub needs_backend : Text → Option Text → Bool
needs_backend b none = false
needs_backend b (some c) = text_eq c b

abbrev pub is_given {ℓ} : {A : Type ℓ} → Option A → Bool
is_given none = false
is_given (some _) = true

-- Whether an option is only for the backend.
unfoldable pub specific_to : Text → RawConf → Bool
specific_to b c =
    (is_given c.external_set_mark_chain && text_eq b iptables_backend)
    || needs_backend b (detect_backend c.conditions_v4)
    || needs_backend b (detect_backend c.conditions_v6)

-- `ensureBackend`, by whether iptables and nftables are there.
unfoldable pub chosen_backend : Bool → Bool → Option Text → Text
chosen_backend ipt nft (some b) = b
chosen_backend ipt nft none = if not ipt && nft then nftables_backend else iptables_backend

abbrev pub other_backend : Text → Text
other_backend b = if text_eq b iptables_backend then nftables_backend else iptables_backend

unfoldable pub ensure_backend : Bool → Bool → RawConf → Result ConfError Text
ensure_backend ipt nft c =
    let b = chosen_backend ipt nft c.backend in
    guard (not (specific_to (other_backend b) c)) wrong_backend >> ok b

abbrev pub value_or {ℓ} : {A : Type ℓ} → A → Option A → A
value_or d none = d
value_or d (some a) = a

-- A mark bit from 0 to 31.
unfoldable pub mark_bit : ℤ → Result ConfError ℕ
mark_bit (negsuc n) = err bad_mark_bit
mark_bit (pos n) = if ltb 31 n then err bad_mark_bit else ok n

abbrev pub is_port : ℤ → Bool
is_port p = ltℤ (pos 0) p

unfoldable pub checked_ports : List PortMapEntry → Result ConfError (Unit {0})
checked_ports [] = ok tt
checked_ports (e ∷ es) = do
  guard (is_port e.container_port) bad_container_port
  guard (is_port e.host_port) bad_host_port
  checked_ports es

-- An interface that is known not to be the container's.
unfoldable pub is_outside : Text → List Interface → Option ℤ → Bool
is_outside ifname ifs none = false
is_outside ifname ifs (some (negsuc _)) = false
is_outside ifname ifs (some (pos i)) = elim (get_elem? ifs i) [
  | none ↦ false
  | some f ↦ not (text_eq f.name ifname) || text_eq f.sandbox []
]

abbrev pub no_net : IpNet
no_net = record { ip = []; mask = [] }

-- One address: it is taken if it may be the container's and none of its family is known.
unfoldable pub take_ip : Text → List Interface → IpNet × IpNet → ResultIp → IpNet × IpNet
take_ip ifname ifs (v4, v6) a =
    let is_v4 = not (is_nil (to4 a.address.ip)) in
    let inside = not (is_outside ifname ifs a.interface) in
    if is_v4
    then ((if is_nil v4.ip && inside then a.address else v4), v6)
    else (v4, (if is_nil v6.ip && inside then a.address else v6))

-- The first address of each family that may be the container's.
unfoldable pub container_ips : Text → List Interface → List ResultIp → IpNet × IpNet → IpNet × IpNet
container_ips ifname ifs [] found = found
container_ips ifname ifs (a ∷ as') found = container_ips ifname ifs as' (take_ip ifname ifs found a)

unfoldable pub parse_config : Bool → Bool → Text → Text → RawConf → Result ConfError PortMapConf
parse_config ipt nft container_id ifname c = do
  guard (not (is_given c.mark_masq_bit && is_given c.external_set_mark_chain)) mark_and_chain
  bit ← mark_bit (value_or default_mark_bit c.mark_masq_bit)
  b ← ensure_backend ipt nft c
  guard (text_eq b iptables_backend || text_eq b nftables_backend) unknown_backend
  checked_ports c.port_maps
  let ips = container_ips ifname c.interfaces c.ips (no_net, no_net)
  ok (record {
    name = c.name;
    container_id = container_id;
    backend = b;
    snat = value_or true c.snat;
    conditions_v4 = c.conditions_v4;
    conditions_v6 = c.conditions_v6;
    masq_all = c.masq_all;
    mark_masq_bit = bit;
    port_maps = c.port_maps;
    external_set_mark_chain = c.external_set_mark_chain;
    cont_ip_v4 = ips.0;
    cont_ip_v6 = ips.1;
  })

-- `PortMapper`
pub record PortMapper (S : Type 0) : Type 0 where
  pub forward_ports : PortMapConf → IpNet → S → Outcome S
  pub check_ports : PortMapConf → IpNet → S → Result ChainError (Unit {0})
  pub unforward_ports : PortMapConf → S → Outcome S

-- A family of `cmdAdd` and `cmdCheck`: nothing is done for an address that is not there.
abbrev pub where_given : {S : Type 0} → IpNet → (IpNet → S → Outcome S) → S → Outcome S
where_given net f s = if is_nil net.ip then (s, ok tt) else f net s

module _ {S : Type 0} (mapper : PortMapConf → PortMapper S) (localnet : Ip → S → Outcome S) where
  -- The localnet routing behind the rules for IPv4.
  unfoldable pub forward_v4 : PortMapConf → IpNet → S → Outcome S
  forward_v4 conf net s =
      (mapper conf).forward_ports conf net s
      then (λ s'. if conf.snat then localnet net.ip s' else (s', ok tt))

  unfoldable pub cmd_add : PortMapConf → S → Outcome S
  cmd_add conf s = elim conf.port_maps [
    | [] ↦ (s, ok tt)
    | _ ∷ _ ↦
        where_given conf.cont_ip_v4 (forward_v4 conf) s
        then where_given conf.cont_ip_v6 ((mapper conf).forward_ports conf)
  ]

  unfoldable pub cmd_del : PortMapConf → S → Outcome S
  cmd_del conf s = elim conf.port_maps [
    | [] ↦ (s, ok tt)
    | _ ∷ _ ↦ (mapper conf).unforward_ports conf s
  ]

  abbrev pub check_given : PortMapConf → IpNet → S → Result ChainError (Unit {0})
  check_given conf net s = if is_nil net.ip then ok tt else (mapper conf).check_ports conf net s

  unfoldable pub cmd_check : PortMapConf → S → Result ChainError (Unit {0})
  cmd_check conf s = elim conf.port_maps [
    | [] ↦ ok tt
    | _ ∷ _ ↦ check_given conf conf.cont_ip_v4 s >> check_given conf conf.cont_ip_v6 s
  ]
