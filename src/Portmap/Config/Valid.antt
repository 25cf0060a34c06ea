-- ===== src/Portmap/Config/Valid.antt =====
-- What a configuration of the port mapping plugin that is accepted has.
use containerz_plugin.Common.{
  ℕ, zero, suc, ◌≤◌, ◌≡◌, ◌⊎◌, inl, inr, refl, subst, Bool, true, false, ◌&&◌, ◌||◌, not, List, [],
  ◌∷◌, Option, none, some, All, arith, if◌then◌else◌, ℤ, pos, negsuc, ltℤ, ok, >>=-eq-ok,
  guard-eq-ok, Text, text_eq, text_eq_iff, Bool-cases,
}
use containerz_plugin.Net.{IpNet, is_nil, to4}
use containerz_plugin.Portmap.Utils.{PortMapEntry}
use containerz_plugin.Portmap.Rules.{PortMapConf}
use containerz_plugin.Portmap.Config.{
  RawConf, Interface, ResultIp, iptables_backend, nftables_backend, default_mark_bit, is_given,
  specific_to, chosen_backend, other_backend, ensure_backend, value_or, mark_bit, is_port,
  checked_ports, no_net, take_ip, container_ips, wrong_backend, parse_config, mark_and_chain,
  unknown_backend, bad_container_port, bad_host_port, is_outside,
}

-- A port number above 0.
abbrev pub IsPort : ℤ → Type 0
IsPort p = (n : ℕ) × (p ≡ pos (suc n))

-- No address, or one that has an IPv4 form.
abbrev pub IsV4 : IpNet → Type 0
IsV4 net = (net.ip ≡ []) ⊎ (is_nil (to4 net.ip) ≡ false)

-- No address, or one that has no IPv4 form.
abbrev pub IsV6 : IpNet → Type 0
IsV6 net = (net.ip ≡ []) ⊎ (is_nil (to4 net.ip) ≡ true)

pub record Valid (c : RawConf) (conf : PortMapConf) : Type 0 where
  pub same_ports : conf.port_maps ≡ c.port_maps
  pub snat_default : conf.snat ≡ value_or true c.snat
  pub mark_bit_given : value_or default_mark_bit c.mark_masq_bit ≡ pos conf.mark_masq_bit
  pub mark_bit_small : conf.mark_masq_bit ≤ 31
  pub one_mark : (c.mark_masq_bit ≡ none) ⊎ (c.external_set_mark_chain ≡ none)
  pub known_backend : (conf.backend ≡ iptables_backend) ⊎ (conf.backend ≡ nftables_backend)
  pub fitting : specific_to (other_backend conf.backend) c ≡ false
  pub ports :
      All (λ (e : PortMapEntry). IsPort e.container_port × IsPort e.host_port) conf.port_maps
  pub v4 : IsV4 conf.cont_ip_v4
  pub v6 : IsV6 conf.cont_ip_v6

is_port-IsPort : (p : ℤ) → is_port p ≡ true → IsPort p
is_port-IsPort (negsuc n) h = cc
is_port-IsPort (pos (suc n)) h = (n, refl)
is_port-IsPort (pos zero) h = absurd (not_above h)
  where
    not_above : ltℤ (pos 0) (pos 0) ≡ true → ⊥
    not_above h = cc

checked_ports-IsPort :
    (es : List PortMapEntry)
    → checked_ports es ≡ ok tt
    → All (λ (e : PortMapEntry). IsPort e.container_port × IsPort e.host_port) es
unfolding checked_ports
checked_ports-IsPort [] h = tt
checked_ports-IsPort (e ∷ es) h =
    let (h1, k1) = guard-eq-ok (is_port e.container_port) bad_container_port _ h in
    let (h2, k2) = guard-eq-ok (is_port e.host_port) bad_host_port _ k1 in
    (
      (is_port-IsPort e.container_port h1, is_port-IsPort e.host_port h2),
      checked_ports-IsPort es k2,
    )

mark_bit-le : (z : ℤ) {n : ℕ} → mark_bit z ≡ ok n → (z ≡ pos n) × (n ≤ 31)
unfolding mark_bit
mark_bit-le (negsuc k) h = cc
mark_bit-le (pos k) h = ground arith

ensure_backend_lem :
    (ipt nft : Bool) (c : RawConf) {b : Text}
    → ensure_backend ipt nft c ≡ ok b
    → specific_to (other_backend b) c ≡ false
unfolding ensure_backend
ensure_backend_lem ipt nft c {b} h =
    let chosen = chosen_backend ipt nft c.backend in
    let (fits, k) = guard-eq-ok (not (specific_to (other_backend chosen) c)) wrong_backend _ h in
    let same : chosen ≡ b = cc in
    subst (λ t. specific_to (other_backend t) c ≡ false) same
      (not_true (specific_to (other_backend chosen) c) fits)
  where
    not_true : (x : Bool) → not x ≡ true → x ≡ false
    not_true x h = ground arith

-- The addresses found so far are of their families.
abbrev Families : IpNet × IpNet → Type 0
Families (v4, v6) = IsV4 v4 × IsV6 v6

take_ip-Families :
    (ifname : Text) (ifs : List Interface) (found : IpNet × IpNet) (a : ResultIp)
    → Families found
    → Families (take_ip ifname ifs found a)
unfolding take_ip
take_ip-Families ifname ifs (v4, v6) a (h, k) = elim (Bool-cases (is_nil (to4 a.address.ip))) [
  | inl e ↦ rw e (h, pick_v6 (is_nil v6.ip && not (is_outside ifname ifs a.interface)) e)
  | inr e ↦ rw e (pick_v4 (is_nil v4.ip && not (is_outside ifname ifs a.interface)) e, k)
]
  where
    pick_v6 : (b : Bool) → is_nil (to4 a.address.ip) ≡ true → IsV6 (if b then a.address else v6)
    pick_v6 true e = inr e
    pick_v6 false e = k

    pick_v4 : (b : Bool) → is_nil (to4 a.address.ip) ≡ false → IsV4 (if b then a.address else v4)
    pick_v4 true e = inr e
    pick_v4 false e = h

container_ips-Families :
    (ifname : Text) (ifs : List Interface) (as' : List ResultIp) (found : IpNet × IpNet)
    → Families found
    → Families (container_ips ifname ifs as' found)
unfolding container_ips
container_ips-Families ifname ifs [] found h = h
container_ips-Families ifname ifs (a ∷ as') found h =
    container_ips-Families ifname ifs as' (take_ip ifname ifs found a)
      (take_ip-Families ifname ifs found a h)

one_mark_lem :
    {A B : Type 0} (m : Option A) (x : Option B)
    → not (is_given m && is_given x) ≡ true
    → (m ≡ none) ⊎ (x ≡ none)
one_mark_lem none x h = inl refl
one_mark_lem (some a) none h = inr refl
one_mark_lem (some a) (some b) h = cc

known_backend_lem :
    (b : Text)
    → (text_eq b iptables_backend || text_eq b nftables_backend) ≡ true
    → (b ≡ iptables_backend) ⊎ (b ≡ nftables_backend)
known_backend_lem b h = elim (Bool-cases (text_eq b iptables_backend)) [
  | inl e ↦ inl ((text_eq_iff b iptables_backend).0 e)
  | inr e ↦ inr (
      (text_eq_iff b nftables_backend).0
        (right_of (text_eq b iptables_backend) (text_eq b nftables_backend) e h))
]
  where
    right_of : (x y : Bool) → x ≡ false → (x || y) ≡ true → y ≡ true
    right_of x y e h = ground arith

-- A configuration that `parseConfig` accepts: the mark bit is the given one or the default, at most
-- 31, and not given together with a chain that marks; the backend is one of the two, and no option is
-- specific to the other; all ports are above 0; and the addresses taken for the container's are of
-- their families.
pub parse_config-Valid :
    (ipt nft : Bool) (container_id ifname : Text) (c : RawConf) (conf : PortMapConf)
    → parse_config ipt nft container_id ifname c ≡ ok conf
    → Valid c conf
unfolding parse_config
parse_config-Valid ipt nft container_id ifname c conf h =
    let (h1, k1) =
      guard-eq-ok (not (is_given c.mark_masq_bit && is_given c.external_set_mark_chain))
        mark_and_chain _ h in
    let (bit, h2, k2) = >>=-eq-ok (mark_bit (value_or default_mark_bit c.mark_masq_bit)) _ k1 in
    let (b, h3, k3) = >>=-eq-ok (ensure_backend ipt nft c) _ k2 in
    let (h4, k4) =
      guard-eq-ok (text_eq b iptables_backend || text_eq b nftables_backend) unknown_backend _ k3 in
    let (u, h5, k5) = >>=-eq-ok (checked_ports c.port_maps) _ k4 in
    let (m, le) = mark_bit-le (value_or default_mark_bit c.mark_masq_bit) h2 in
    let ips = container_ips ifname c.interfaces c.ips (no_net, no_net) in
    let families =
      container_ips-Families ifname c.interfaces c.ips (no_net, no_net) (inl refl, inl refl) in
    let made : record {
      name = c.name;
      container_id = container_id;
      backend = b;
      snat = value_or true c.snat;
      conditions_v4 = c.conditions_v4;
      conditions_v6 = c.conditions_v6;
      masq_all = c.masq_all;
      mark_masq_bit = bit;
      port_maps = c.port_maps;
      external_set_mark_chain = c.external_set_mark_chain;
      cont_ip_v4 = ips.0;
      cont_ip_v6 = ips.1;
    }
        ≡ conf =
      cc in
    subst (Valid c) made (record {
      same_ports = refl;
      snat_default = refl;
      mark_bit_given = m;
      mark_bit_small = le;
      one_mark = one_mark_lem c.mark_masq_bit c.external_set_mark_chain h1;
      known_backend = known_backend_lem b h4;
      fitting = ensure_backend_lem ipt nft c h3;
      ports = checked_ports-IsPort c.port_maps h5;
      v4 = families.0;
      v6 = families.1;
    })
