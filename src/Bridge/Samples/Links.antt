-- ===== src/Bridge/Samples/Links.antt =====
-- The links of a concrete host and container, and a port of the bridge.
use containerz_plugin.Bridge.Ports
use containerz_plugin.Bridge.Ports.{
  set_vlans, remove_default_vlan, remove_listed, delete_vlans, add_vlans,
}
use containerz_plugin.Bridge.Ports.Tagged
use containerz_plugin.Bridge.Ports.Tagged.{carried, set_vlans-carries}
use containerz_plugin.Bridge.Check
use containerz_plugin.Bridge.Check.{
  Interface, Kind, bridge, veth, Namespace, agree, validate_interface, validate_cni_br_interface,
  validate_cni_container_interface, validate_veth, validate_cni_veth_interface, known_interfaces,
  find_veth, check_interfaces,
}
use containerz_plugin.Bridge.Check.Connected.{Connected, check_interfaces-Connected}
use containerz_plugin.Common.{
  arith, not, ◌==◌, ◌&&◌, ◌||◌, text, ℕ, ◌≡◌, refl, ap, ◌∙◌, true, false, List, [], ◌∷◌, none, some,
  if◌then◌else◌, ok, Text, text_eq, All,
}
use containerz_plugin.Bridge.Vlans.{has}
use containerz_plugin.Bridge.Vlans.Sorted.{IsVlan}
use containerz_plugin.Bridge.Samples.{vlans, loaded}

abbrev link_of : Text → Kind → ℕ → ℕ → Check.Link
link_of name kind index master = record {
  name = name;
  kind = kind;
  mac = [];
  index = index;
  master_index = master;
  promisc = false;
}

abbrev host_space : Namespace
host_space = record {
  link_by_name = λ n.
      if text_eq n (text "cni0")
      then some (link_of n bridge 2 0)
      else if text_eq n (text "veth1")
      then some (link_of n veth 7 2)
      else none;
  veth_peer_index = λ n. some 3;
}

abbrev container_space : Namespace
container_space = record {
  link_by_name = λ n. if text_eq n (text "eth0") then some (link_of n veth 3 0) else none;
  veth_peer_index = λ n. some 7;
}

abbrev interface_of : Text → Text → Interface
interface_of name sandbox = record { name = name; mac = []; sandbox = sandbox }

abbrev reported : List Interface
reported =
    interface_of (text "cni0") []
    ∷ interface_of (text "veth1") []
    ∷ interface_of (text "eth0") (text "ns1")
    ∷ []

checked_out :
    check_interfaces host_space container_space loaded (text "eth0") (text "ns1") reported ≡ ok tt
unfolding check_interfaces find_veth known_interfaces validate_cni_veth_interface validate_veth
    validate_cni_container_interface validate_cni_br_interface validate_interface text_eq
checked_out = refl

check_interfaces-Connected_example :
    Connected host_space container_space loaded (text "eth0") reported
check_interfaces-Connected_example =
    check_interfaces-Connected host_space container_space loaded (text "eth0") (text "ns1") reported
      checked_out

-- A port whose state is the list of its VLANs.
unfoldable without_vlan : ℕ → List ℕ → List ℕ
without_vlan v [] = []
without_vlan v (x ∷ xs) = let rest = without_vlan v xs in if v == x then rest else x ∷ rest

abbrev port : Ports.Netlink (List ℕ)
port = record {
  bridge_vlan_list = λ s. ok (some s);
  bridge_vlan_add = λ s v _ _. (v ∷ s, true);
  bridge_vlan_del = λ s v. (without_vlan v s, true);
}

has-without_vlan : (u v : ℕ) (s : List ℕ) → has u (without_vlan v s) ≡ (not (v == u) && has u s)
unfolding without_vlan has
has-without_vlan u v [] = ground arith
has-without_vlan u v (x ∷ xs) = ground (arith, has-without_vlan u v xs)

port-IsFaithful : Tagged.IsFaithful port (λ s u. has u s)
unfolding has
port-IsFaithful = record {
  lists = λ s. carried (λ u. refl);
  adds = λ s t v a b e u. let f : t ≡ v ∷ s = cc in ap (has u) f;
  deletes = λ s t v e u. let f : t ≡ without_vlan v s = cc in ap (has u) f ∙ has-without_vlan u v s;
}

-- The port carries the default VLAN 1, and becomes a port of the trunk.
trunk_set : set_vlans port 0 vlans false (1 ∷ []) ≡ (103 ∷ 102 ∷ 101 ∷ 7 ∷ [], ok tt)
unfolding set_vlans remove_default_vlan remove_listed delete_vlans add_vlans without_vlan
trunk_set = refl

vlans-AreValid : All IsVlan vlans
vlans-AreValid = (
  (omega arith, omega arith),
  ((omega arith, omega arith), ((omega arith, omega arith), ((omega arith, omega arith), tt))),
)

set_vlans-carries_example : has 102 (103 ∷ 102 ∷ 101 ∷ 7 ∷ []) ≡ (
    has 102 vlans
    || (not (0 == 0) && 0 == 102)
    || ((false || (0 == 0 && false)) && has 102 (1 ∷ [])))
set_vlans-carries_example =
    set_vlans-carries port (λ s u. has u s) port-IsFaithful 0 vlans false (1 ∷ [])
      (103 ∷ 102 ∷ 101 ∷ 7 ∷ []) (omega arith) vlans-AreValid trunk_set 102
