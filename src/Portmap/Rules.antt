-- ===== src/Portmap/Rules.antt =====
-- plugins/meta/portmap/portmap_iptables.go and utils.go: the chains that forward ports, and their
-- rules. The texts of addresses and the parser of addresses are parameters.
use containerz_plugin.Common.{
  ◌then◌, ℕ, zero, suc, ◌+◌, ◌/◌, ◌%◌, ◌^◌, Bool, true, false, ◌&&◌, ◌||◌, not, List, [], ◌∷◌, ◌++◌,
  Option, none, some, ltb, ◌==◌, if◌then◌else◌, ℤ, Text, text,
}
use containerz_plugin.Net.{Ip, IpNet, is_nil, to4, equal}
use containerz_plugin.Portmap.Utils.{
  PortMapEntry, itoa_int, split_port_list, trim_comment, protos, ports_of,
}
use containerz_plugin.Portmap.Chain.{Rule, Chain}

-- `PortMapConf` behind its parsing, the fields that the rules depend on.
pub record PortMapConf : Type 0 where
  pub name : Text
  pub container_id : Text
  pub backend : Text
  pub snat : Bool
  pub conditions_v4 : Option (List Text)
  pub conditions_v6 : Option (List Text)
  pub masq_all : Bool
  pub mark_masq_bit : ℕ
  pub port_maps : List PortMapEntry
  pub external_set_mark_chain : Option Text
  pub cont_ip_v4 : IpNet
  pub cont_ip_v6 : IpNet

abbrev pub top_level_dnat_chain_name : Text
top_level_dnat_chain_name = text "CNI-HOSTPORT-DNAT"

abbrev pub set_mark_chain_name : Text
set_mark_chain_name = text "CNI-HOSTPORT-SETMARK"

abbrev pub mark_masq_chain_name : Text
mark_masq_chain_name = text "CNI-HOSTPORT-MASQ"

abbrev pub old_top_level_snat_chain_name : Text
old_top_level_snat_chain_name = text "CNI-HOSTPORT-SNAT"

-- `%#x`
abbrev pub hex_digits : ℕ → ℕ → Text → Text
hex_digits zero n out = out
hex_digits (suc fuel) n out =
    let d = n % 16 in
    let rest = hex_digits fuel (n / 16) ((if ltb d 10 then 48 + d else 87 + d) ∷ out) in
    if n == 0 then out else rest

abbrev pub hex : ℕ → Text
hex n = text "0x" ++ (if n == 0 then 48 ∷ [] else hex_digits 16 n [])

abbrev pub mark_def : ℕ → Text
mark_def bit = let m = hex (2 ^ bit) in m ++ (47 ∷ m)

unfoldable pub gen_toplevel_dnat_chain : Chain
gen_toplevel_dnat_chain = record {
  table = text "nat";
  name = top_level_dnat_chain_name;
  entry_chains = text "PREROUTING" ∷ text "OUTPUT" ∷ [];
  entry_rules = (text "-m" ∷ text "addrtype" ∷ text "--dst-type" ∷ text "LOCAL" ∷ []) ∷ [];
  rules = [];
  prepend_entry = false;
}

unfoldable pub gen_set_mark_chain : ℕ → Chain
gen_set_mark_chain bit = record {
  table = text "nat";
  name = set_mark_chain_name;
  entry_chains = [];
  entry_rules = [];
  rules =
      (text "-m"
        ∷ text "comment"
        ∷ text "--comment"
        ∷ text "CNI portfwd masquerade mark"
        ∷ text "-j"
        ∷ text "MARK"
        ∷ text "--set-xmark"
        ∷ mark_def bit
        ∷ [])
      ∷ [];
  prepend_entry = false;
}

unfoldable pub gen_mark_masq_chain : ℕ → Chain
gen_mark_masq_chain bit = record {
  table = text "nat";
  name = mark_masq_chain_name;
  entry_chains = text "POSTROUTING" ∷ [];
  entry_rules =
      (text "-m" ∷ text "comment" ∷ text "--comment" ∷ text "CNI portfwd requiring masquerade" ∷ [])
      ∷ [];
  rules =
      (text "-m" ∷ text "mark" ∷ text "--mark" ∷ mark_def bit ∷ text "-j" ∷ text "MASQUERADE" ∷ [])
      ∷ [];
  prepend_entry = true;
}

-- A chain of the container, with no rules yet.
abbrev pub container_chain : Text → Text → Chain
container_chain name entry = record {
  table = text "nat";
  name = name;
  entry_chains = entry ∷ [];
  entry_rules = [];
  rules = [];
  prepend_entry = false;
}

-- The extra conditions of a family.
abbrev pub conditions_of : Option (List Text) → List Text
conditions_of none = []
conditions_of (some cs) = cs

abbrev pub mark_chain_of : Option Text → Text
mark_chain_of none = set_mark_chain_name
mark_chain_of (some t) = t

abbrev pub family_conditions : Bool → PortMapConf → List Text
family_conditions v6 conf =
    if v6 then conditions_of conf.conditions_v6 else conditions_of conf.conditions_v4

abbrev pub entry_rule : Text → Text → Text → List Text → Rule
entry_rule comment proto spec conditions =
    (text "-m"
      ∷ text "comment"
      ∷ text "--comment"
      ∷ comment
      ∷ text "-m"
      ∷ text "multiport"
      ∷ text "-p"
      ∷ proto
      ∷ text "--destination-ports"
      ∷ spec
      ∷ [])
    ++ conditions

-- One entry rule for each group of ports of a protocol.
abbrev pub entry_rules_of : Text → Text → List Text → List Text → List Rule
entry_rules_of comment proto conditions [] = []
entry_rules_of comment proto conditions (spec ∷ specs) =
    entry_rule comment proto spec conditions ∷ entry_rules_of comment proto conditions specs

unfoldable pub dnat_entry_rules : Text → List Text → List PortMapEntry → List Text → List Rule
dnat_entry_rules comment conditions entries [] = []
dnat_entry_rules comment conditions entries (p ∷ ps) =
    entry_rules_of comment p conditions (split_port_list (ports_of p entries))
    ++ dnat_entry_rules comment conditions entries ps

abbrev pub comment_of : PortMapConf → Text
comment_of conf =
    trim_comment (
      text "dnat name: \"" ++ (conf.name ++ (text "\" id: \"" ++ (conf.container_id ++ text "\""))))

-- `net.IP.IsUnspecified`
abbrev pub is_unspecified : Ip → Bool
is_unspecified ip =
    equal ip (0 ∷ 0 ∷ 0 ∷ 0 ∷ [])
    || equal ip (0 ∷ 0 ∷ 0 ∷ 0 ∷ 0 ∷ 0 ∷ 0 ∷ 0 ∷ 0 ∷ 0 ∷ 0 ∷ 0 ∷ 0 ∷ 0 ∷ 0 ∷ 0 ∷ [])

abbrev pub is_v6 : Ip → Bool
is_v6 ip = is_nil (to4 ip)

abbrev pub rule_base : PortMapEntry → List Text → Rule
rule_base e dst = (text "-p" ∷ e.protocol ∷ text "--dport" ∷ itoa_int e.host_port ∷ []) ++ dst

module _ (print_ip : Ip → Text) (print_net : IpNet → Text) (parse_ip : Text → Ip) where
  -- `fmtIPPort`
  unfoldable pub fmt_ip_port : Ip → ℤ → Text
  fmt_ip_port ip port =
      if is_v6 ip
      then 91 ∷ print_ip ip ++ (93 ∷ 58 ∷ itoa_int port)
      else print_ip ip ++ (58 ∷ itoa_int port)

  -- The rules that mark hairpin traffic and, for IPv4, traffic of the host itself.
  unfoldable pub mark_rules : PortMapConf → IpNet → Rule → List Rule
  mark_rules conf net base =
      let v6 = is_v6 net.ip in
      let chain = mark_chain_of conf.external_set_mark_chain in
      let cidr =
        if conf.masq_all then (if v6 then text "::/0" else text "0.0.0.0/0") else print_net net in
      let hairpin = base ++ (text "-s" ∷ cidr ∷ text "-j" ∷ chain ∷ []) in
      let local = base ++ (text "-s" ∷ text "127.0.0.1" ∷ text "-j" ∷ chain ∷ []) in
      if not conf.snat
      then []
      else if not v6 && not conf.masq_all
      then hairpin ∷ local ∷ []
      else hairpin ∷ []

  abbrev pub dnat_rule : IpNet → PortMapEntry → Rule → Rule
  dnat_rule net e base =
      base
      ++ (text "-j"
          ∷ text "DNAT"
          ∷ text "--to-destination"
          ∷ fmt_ip_port net.ip e.container_port
          ∷ [])

  abbrev pub rules_on : PortMapConf → IpNet → PortMapEntry → Rule → List Rule
  rules_on conf net e base = mark_rules conf net base ++ (dnat_rule net e base ∷ [])

  -- The rules of one entry: none if its host address is of the other family.
  unfoldable pub rules_of_entry : PortMapConf → IpNet → PortMapEntry → Text → List Rule
  rules_of_entry conf net e [] = rules_on conf net e (rule_base e [])
  rules_of_entry conf net e (c ∷ cs) =
      let host_ip = parse_ip (c ∷ cs) in
      let differ = if is_v6 net.ip then not (is_v6 host_ip) else is_v6 host_ip in
      if differ
      then []
      else if is_unspecified host_ip
      then rules_on conf net e (rule_base e [])
      else rules_on conf net e (rule_base e (text "-d" ∷ (c ∷ cs) ∷ []))

  unfoldable pub dnat_rules : PortMapConf → IpNet → List PortMapEntry → List Rule
  dnat_rules conf net [] = []
  dnat_rules conf net (e ∷ es) = rules_of_entry conf net e e.host_ip ++ dnat_rules conf net es

  -- `fillDnatRules`
  unfoldable pub fill_dnat_rules : Chain → PortMapConf → IpNet → Chain
  fill_dnat_rules c conf net = record c {
    entry_rules =
        c.entry_rules
        ++ dnat_entry_rules (comment_of conf) (family_conditions (is_v6 net.ip) conf) conf.port_maps
            (protos conf.port_maps);
    rules = dnat_rules conf net conf.port_maps;
  }
