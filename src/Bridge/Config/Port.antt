-- ===== src/Bridge/Config/Port.antt =====
-- The VLANs of a port in a configuration that was accepted.
use containerz_plugin.Common.{
  ℕ, ◌≡◌, refl, subst, ◌≤◌, true, ◌&&◌, not, List, Option, none, some, ltb, ℤ, pos, negsuc, Result,
  ok, err, >>=-eq-ok, guard-eq-ok, All, arith, Text,
}
use containerz_plugin.Bridge.Vlans.{VlanTrunk, VlanError, collect_vlan_trunk}
use containerz_plugin.Bridge.Vlans.Sorted.{IsRising, IsVlan, collect_vlan_trunk-IsRising}
use containerz_plugin.Bridge.Config.{
  RawConf, NetConf, ConfError, vlan_and_trunk, bad_trunk, vlan_of, vlans_of, is_given, env_mac,
  load_net_conf,
}

-- The VLANs of a port that a configuration asks for: one that is untagged, or else a trunk.
pub data Port : ℕ → Option (List ℕ) → Type 0 where
  untagged : {v : ℕ} → v ≤ 4094 → Port v none
  tagged : {vs : List ℕ} → IsRising vs → All IsVlan vs → Port 0 (some vs)

abbrev AreRising : Option (List ℕ) → Type 0
AreRising none = Unit
AreRising (some vs) = IsRising vs × All IsVlan vs

vlan_of-ok : (i : ℤ) {v : ℕ} → vlan_of i ≡ ok v → v ≤ 4094
unfolding vlan_of
vlan_of-ok (pos n) h = ground arith
vlan_of-ok (negsuc n) h = cc

trunk-AreRising :
    (t : Option (List VlanTrunk)) (vs : List ℕ)
    → collect_vlan_trunk t ≡ ok (some vs)
    → IsRising vs × All IsVlan vs
unfolding collect_vlan_trunk
trunk-AreRising none vs h = cc
trunk-AreRising (some ts) vs h = let (a, b, c) = collect_vlan_trunk-IsRising ts vs h in (a, b)

vlans_of-ok :
    (t : Option (List VlanTrunk)) {vs : Option (List ℕ)} → vlans_of t ≡ ok vs → AreRising vs
unfolding vlans_of
vlans_of-ok t {vs} h = from (collect_vlan_trunk t) refl h
  where
    from :
        (o : Result VlanError (Option (List ℕ)))
        → collect_vlan_trunk t ≡ o
        → (elim o [ err e ↦ err (bad_trunk e) | ok v ↦ ok v ]) ≡ ok vs
        → AreRising vs
    from (err e) c h = cc
    from (ok none) c h = let e : ◌≡◌ {A = Option (List ℕ)} none vs = cc in subst AreRising e tt
    from (ok (some ws)) c h =
        let e : some ws ≡ vs = cc in subst AreRising e (trunk-AreRising t ws c)

-- When `loadNetConf` succeeds, the port has one untagged VLAN of at most 4094, 0 for none, or a trunk
-- of VLANs in strictly rising order, each from 1 to 4094, and never both.
pub load_net_conf-Port :
    (load_args : Text → Option Text) (env_args : Text) (r : RawConf) (n : NetConf)
    → load_net_conf load_args env_args r ≡ ok n
    → Port n.vlan n.vlans
unfolding load_net_conf
load_net_conf-Port load_args env_args r n h =
    let (v, h1, k1) = >>=-eq-ok (vlan_of r.vlan) _ h in
    let (vs, h2, k2) = >>=-eq-ok (vlans_of r.vlan_trunk) _ k1 in
    let (h3, k3) = guard-eq-ok (not (ltb 0 v && is_given vs)) vlan_and_trunk _ k2 in
    let (m, h4, k4) = >>=-eq-ok (env_mac load_args env_args) _ k3 in
    subst (λ (c : NetConf). Port c.vlan c.vlans) (unwrap _ n k4)
      (port_of v vs (vlan_of-ok r.vlan h1) (vlans_of-ok r.vlan_trunk h2) h3)
  where
    unwrap : (a b : NetConf) → ◌≡◌ {A = Result ConfError NetConf} (ok a) (ok b) → a ≡ b
    unwrap a b e = cc

    port_of :
        (v : ℕ) (vs : Option (List ℕ))
        → v ≤ 4094
        → AreRising vs
        → not (ltb 0 v && is_given vs) ≡ true
        → Port v vs
    port_of v none l o g = untagged l
    port_of v (some vs) l (o, i) g =
        let e : 0 ≡ v = ground arith in subst (λ x. Port x (some vs)) e (tagged o i)
