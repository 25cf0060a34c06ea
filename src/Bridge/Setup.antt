-- ===== src/Bridge/Setup.antt =====
-- plugins/main/bridge/bridge.go: the bridge itself, and the veth pair of a container. The netlink
-- library, the namespaces and `ip.SetupVeth` are a record of the requests that the code makes, over a
-- state of its own; a failure to write the sysctl accept_ra is passed over.
use containerz_plugin.Common.{
  ℕ, Bool, true, false, List, [], Option, none, some, ℤ, Result, ok, err, ◌then◌, asked, when, Text,
}
use containerz_plugin.Bridge.Config.{NetConf, vlan_filtering}
use containerz_plugin.Bridge.Addresses.{Errno, enoent, eexist, other}
use containerz_plugin.Bridge.Check.{Interface, Link, is_bridge}
use containerz_plugin.Bridge.Ports
use containerz_plugin.Bridge.Ports.{VlanFailure, set_vlans}

-- The names of both ends of a new pair, and the hardware address of the one in the container.
pub record Pair : Type 0 where
  pub host_name : Text
  pub container_name : Text
  pub container_mac : Text

pub record Requests (S : Type 0) : Type 0 where
  pub link_add_bridge : S → Text → ℤ → Bool → S × Option Errno
  pub link_by_name : S → Text → Option Link
  pub set_promisc_on : S → Text → S × Bool
  pub write_accept_ra : S → Text → S
  pub link_set_up : S → Link → S × Bool
  pub make_pair : S → Text → ℤ → Text → S × Option Pair
  pub link_set_master : S → Link → Link → S × Bool
  pub link_set_hairpin : S → Link → Bool → S × Bool
  pub link_set_isolated : S → Link → Bool → S × Bool
  pub port_of : Link → Ports.Netlink S

pub data SetupError : Type 0 where
  no_bridge_added no_promisc no_such_link not_a_bridge not_up : SetupError
  no_pair no_master no_hairpin no_isolation : SetupError
  no_vlans : VlanFailure → SetupError

abbrev pub Step : Type 0 → Type 0 → Type 0
Step S A = S × Result SetupError A

abbrev pub and_then : {S A B : Type 0} → Step S A → (A → S → Step S B) → Step S B
and_then (s, err e) k = (s, err e)
and_then (s, ok a) k = k a s

-- A bridge that is there already counts as added.
abbrev pub bridge_added : {S : Type 0} → S × Option Errno → Step S (Unit {0})
bridge_added (s, none) = (s, ok tt)
bridge_added (s, some eexist) = (s, ok tt)
bridge_added (s, some enoent) = (s, err no_bridge_added)
bridge_added (s, some other) = (s, err no_bridge_added)

abbrev pub looked_up : {S : Type 0} → Option Link → S → Step S Link
looked_up none s = (s, err no_such_link)
looked_up (some l) s = (s, ok l)

abbrev pub of_bridge : {S : Type 0} → Bool → Link → S → Step S Link
of_bridge true l s = (s, ok l)
of_bridge false l s = (s, err not_a_bridge)

abbrev pub made : {S : Type 0} → S × Option Pair → Step S Pair
made (s, none) = (s, err no_pair)
made (s, some p) = (s, ok p)

abbrev pub vlans_set : {S : Type 0} → S × Result VlanFailure (Unit {0}) → Step S (Unit {0})
vlans_set (s, ok _) = (s, ok tt)
vlans_set (s, err e) = (s, err (no_vlans e))

module _ {S : Type 0} (host : Requests S) where
  unfoldable pub bridge_by_name : Text → S → Step S Link
  bridge_by_name name s =
      and_then (looked_up (host.link_by_name s name) s) (λ l. of_bridge (is_bridge l.kind) l)

  unfoldable pub ensure_bridge : Text → ℤ → Bool → Bool → S → Step S Link
  ensure_bridge name mtu promisc filtering s =
      and_then
        (bridge_added (host.link_add_bridge s name mtu filtering)
          then when promisc (λ t. asked no_promisc (host.set_promisc_on t name)))
        (λ _ t. and_then (bridge_by_name name t) (λ br u.
          and_then (asked not_up (host.link_set_up (host.write_accept_ra u name) br))
            (λ _ v. (v, ok br))))

  -- `setupBridge`, for an MTU
  unfoldable pub setup_bridge : NetConf → ℤ → S → Step S (Link × Interface)
  setup_bridge n mtu s =
      and_then (ensure_bridge n.br_name mtu n.promisc_mode (vlan_filtering n) s)
        (λ br t. (t, ok (br, record { name = br.name; mac = br.mac; sandbox = [] })))

  -- The port of the bridge, once its link is known.
  unfoldable pub connected : Link → Bool → ℕ → List ℕ → Bool → Bool → Link → S → Step S (Unit {0})
  connected br hairpin vlan vlans preserve isolated port s =
      asked no_master (host.link_set_master s port br)
      then (λ t. asked no_hairpin (host.link_set_hairpin t port hairpin))
      then (λ t. asked no_isolation (host.link_set_isolated t port isolated))
      then (λ t. vlans_set (set_vlans (host.port_of port) vlan vlans preserve t))

  -- `setupVeth`: the interfaces of the host and of the container.
  unfoldable pub setup_veth :
      Text
      → Link
      → Text
      → ℤ
      → Bool
      → ℕ
      → List ℕ
      → Bool
      → Text
      → Bool
      → S
      → Step S (Interface × Interface)
  setup_veth netns br if_name mtu hairpin vlan vlans preserve mac isolated s =
      and_then (made (host.make_pair s if_name mtu mac)) (λ p t.
        and_then (looked_up (host.link_by_name t p.host_name) t) (λ port u.
          and_then (connected br hairpin vlan vlans preserve isolated port u) (λ _ v. (
            v,
            ok (
              record { name = p.host_name; mac = port.mac; sandbox = [] },
              record { name = p.container_name; mac = p.container_mac; sandbox = netns },
            ),
          ))))
