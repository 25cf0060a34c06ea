-- ===== src/Bridge/Ports.antt =====
-- plugins/main/bridge/bridge.go: the VLANs of a port of the bridge, which is the host end of a veth
-- pair. The netlink library is a record of the requests that the code makes, over a state of its own.
pub mod Tagged
use containerz_plugin.Common.{
  ℕ, ◌%◌, Bool, true, false, ◌||◌, ◌&&◌, not, List, [], ◌∷◌, Option, none, some, ◌==◌, Result, ok,
  err, ◌then◌, asked, when,
}

-- The link of the port is left out: all requests are for it. A VLAN is asked for with two flags,
-- as the one of untagged packets that come in, and of packets that go out untagged.
pub record Netlink (S : Type 0) : Type 0 where
  pub bridge_vlan_list : S → Result (Unit {0}) (Option (List ℕ))
  pub bridge_vlan_add : S → ℕ → Bool → Bool → S × Bool
  pub bridge_vlan_del : S → ℕ → S × Bool

pub data VlanFailure : Type 0 where
  no_list no_delete no_add : VlanFailure

abbrev pub Outcome : Type 0 → Type 0
Outcome S = S × Result VlanFailure (Unit {0})

-- `uint16(v)`
abbrev pub uint16 : ℕ → ℕ
uint16 v = v % 65536

abbrev pub is_empty : List ℕ → Bool
is_empty [] = true
is_empty (_ ∷ _) = false

module _ {S : Type 0} (netlink : Netlink S) where
  unfoldable pub delete_vlans : List ℕ → S → Outcome S
  delete_vlans [] s = (s, ok tt)
  delete_vlans (v ∷ vs) s = asked no_delete (netlink.bridge_vlan_del s v) then delete_vlans vs

  unfoldable pub remove_listed : Result (Unit {0}) (Option (List ℕ)) → S → Outcome S
  remove_listed (err _) s = (s, err no_list)
  remove_listed (ok none) s = (s, ok tt)
  remove_listed (ok (some vs)) s = delete_vlans vs s

  -- `removeDefaultVlan`
  unfoldable pub remove_default_vlan : S → Outcome S
  remove_default_vlan s = remove_listed (netlink.bridge_vlan_list s) s

  unfoldable pub add_vlans : List ℕ → S → Outcome S
  add_vlans [] s = (s, ok tt)
  add_vlans (v ∷ vs) s =
      asked no_add (netlink.bridge_vlan_add s (uint16 v) false false) then add_vlans vs

  -- The part of `setupVeth` on the VLANs of the port.
  unfoldable pub set_vlans : ℕ → List ℕ → Bool → S → Outcome S
  set_vlans vlan vlans preserve s =
      when ((not (vlan == 0) || not (is_empty vlans)) && not preserve) remove_default_vlan s
      then when (not (vlan == 0))
          (λ t. asked no_add (netlink.bridge_vlan_add t (uint16 vlan) true true))
      then add_vlans vlans
