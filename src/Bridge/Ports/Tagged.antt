-- ===== src/Bridge/Ports/Tagged.antt =====
-- The VLANs that a port carries in the end.
use containerz_plugin.Common.{
  ℕ, ◌%◌, ◌≤◌, ◌≡◌, sym, ap, ◌∙◌, Bool, true, false, ◌||◌, ◌&&◌, not, List, [], ◌∷◌, Option, none,
  some, ◌==◌, Result, ok, err, ◌then◌, asked, when, then-eq-ok, asked-eq-ok, All, arith,
}
use containerz_plugin.Bridge.Vlans.{has}
use containerz_plugin.Bridge.Vlans.Sorted.{IsVlan}
use containerz_plugin.Bridge.Ports.{
  Netlink, no_delete, no_add, uint16, is_empty, delete_vlans, remove_listed, remove_default_vlan,
  add_vlans, set_vlans,
}

module _ {S : Type 0} (netlink : Netlink S) (carries : S → ℕ → Bool) where
  -- What the system answers: the VLANs that the port carries, if any; a VLAN that is added or deleted
  -- is the only one that changes.
  pub data Lists (s : S) : Result (Unit {0}) (Option (List ℕ)) → Type 0 where
    unlisted : Lists s (err tt)
    bare : ((u : ℕ) → carries s u ≡ false) → Lists s (ok none)
    carried : {vs : List ℕ} → ((u : ℕ) → carries s u ≡ has u vs) → Lists s (ok (some vs))

  pub record IsFaithful : Type 0 where
    pub lists : (s : S) → Lists s (netlink.bridge_vlan_list s)
    pub adds :
        (s t : S) (v : ℕ) (a b : Bool)
        → netlink.bridge_vlan_add s v a b ≡ (t, true)
        → (u : ℕ) → carries t u ≡ (v == u || carries s u)
    pub deletes :
        (s t : S) (v : ℕ)
        → netlink.bridge_vlan_del s v ≡ (t, true)
        → (u : ℕ) → carries t u ≡ (not (v == u) && carries s u)

  module _ (faithful : IsFaithful) where
    delete_vlans-carries :
        (vs : List ℕ) (s : S) {t : S}
        → delete_vlans netlink vs s ≡ (t, ok tt)
        → (u : ℕ) → carries t u ≡ (not (has u vs) && carries s u)
    unfolding delete_vlans has
    delete_vlans-carries [] s {t} h u = let e : s ≡ t = cc in ap (λ x. carries x u) (sym e)
    delete_vlans-carries (v ∷ vs) s h u =
        let (r, h1, k1) = then-eq-ok (asked no_delete (netlink.bridge_vlan_del s v)) _ h in
        let d = faithful.deletes s r v (asked-eq-ok no_delete (netlink.bridge_vlan_del s v) h1) u in
        ground (arith, delete_vlans-carries vs r k1 u)

    remove_default_vlan-carries :
        (s : S) {t : S} → remove_default_vlan netlink s ≡ (t, ok tt) → (u : ℕ) → carries t u ≡ false
    unfolding remove_default_vlan remove_listed
    remove_default_vlan-carries s {t} h u =
        from (netlink.bridge_vlan_list s) (faithful.lists s) h
          (λ vs k. delete_vlans-carries vs s k u)
      where
        from :
            (o : Result (Unit {0}) (Option (List ℕ)))
            → Lists s o
            → remove_listed netlink o s ≡ (t, ok tt)
            → ((vs : List ℕ)
                → delete_vlans netlink vs s ≡ (t, ok tt)
                → carries t u ≡ (not (has u vs) && carries s u))
            → carries t u ≡ false
        from (err _) l k d = cc
        from (ok none) (bare b) k d = let e : t ≡ s = cc in ap (λ x. carries x u) e ∙ b u
        from (ok (some vs)) (carried b) k d = let x = d vs k in let y = b u in ground arith

    add_vlans-carries :
        (vs : List ℕ) (s : S) {t : S}
        → All IsVlan vs
        → add_vlans netlink vs s ≡ (t, ok tt)
        → (u : ℕ) → carries t u ≡ (has u vs || carries s u)
    unfolding add_vlans has
    add_vlans-carries [] s {t} i h u = let e : t ≡ s = cc in ap (λ x. carries x u) e
    add_vlans-carries (v ∷ vs) s (i, is) h u =
        let (r, h1, k1) =
          then-eq-ok (asked no_add (netlink.bridge_vlan_add s (uint16 v) false false)) _ h in
        let a =
          faithful.adds s r (uint16 v) false false
            (asked-eq-ok no_add (netlink.bridge_vlan_add s (uint16 v) false false) h1) u in
        let small : v % 65536 ≡ v = omega arith in ground (arith, add_vlans-carries vs r is k1 u)

    first_step-carries :
        (b : Bool) (s : S) {t : S}
        → when b (remove_default_vlan netlink) s ≡ (t, ok tt)
        → (u : ℕ) → carries t u ≡ (not b && carries s u)
    first_step-carries true s h u = remove_default_vlan-carries s h u
    first_step-carries false s {t} h u = let e : t ≡ s = cc in ap (λ x. carries x u) e

    access-carries :
        (b : Bool) (vlan : ℕ) (s : S) {t : S}
        → vlan ≤ 4094
        → when b (λ x. asked no_add (netlink.bridge_vlan_add x (uint16 vlan) true true)) s
          ≡ (t, ok tt)
        → (u : ℕ) → carries t u ≡ (b && vlan == u || carries s u)
    access-carries true vlan s {t} i h u =
        let a =
          faithful.adds s t (uint16 vlan) true true
            (asked-eq-ok no_add (netlink.bridge_vlan_add s (uint16 vlan) true true) h) u in
        let small : vlan % 65536 ≡ vlan = omega arith in ground arith
    access-carries false vlan s {t} i h u = let e : t ≡ s = cc in ap (λ x. carries x u) e

-- Over requests that list, add and delete VLANs as they are asked to, for an untagged VLAN of at most
-- 4094 and a trunk of VLANs from 1 to 4094: when the VLANs of a port are set with success, the port
-- carries those of the trunk and the untagged one, if it is not 0; what it carried before is kept only
-- where the default VLAN is to be kept, or where there is no VLAN to set.
pub set_vlans-carries :
    {S : Type 0} (netlink : Netlink S) (carries : S → ℕ → Bool)
    → IsFaithful netlink carries
    → (vlan : ℕ) (vlans : List ℕ) (preserve : Bool) (s t : S) → vlan ≤ 4094
    → All IsVlan vlans
    → set_vlans netlink vlan vlans preserve s ≡ (t, ok tt)
    → (u : ℕ)
    → carries t u ≡ (
        has u vlans
        || (not (vlan == 0) && vlan == u)
        || ((preserve || (vlan == 0 && is_empty vlans)) && carries s u))
unfolding set_vlans
set_vlans-carries netlink carries faithful vlan vlans preserve s t i is h u =
    let b = (not (vlan == 0) || not (is_empty vlans)) && not preserve in
    let (r, h1, k1) =
      then-eq-ok
        (when b (remove_default_vlan netlink) s
          then when (not (vlan == 0))
              (λ x. asked no_add (netlink.bridge_vlan_add x (uint16 vlan) true true)))
        _ h in
    let (q, h2, k2) = then-eq-ok (when b (remove_default_vlan netlink) s) _ h1 in
    let x = first_step-carries netlink carries faithful b s h2 u in
    let y = access-carries netlink carries faithful (not (vlan == 0)) vlan q i k2 u in
    let z = add_vlans-carries netlink carries faithful vlans r is k1 u in
    combined (vlan == 0) (vlan == u) (is_empty vlans) preserve (has u vlans) (carries s u)
      (carries q u) (carries r u) (carries t u) x y z
  where
    combined :
        (n e m p c a d f g : Bool)
        → d ≡ (not ((not n || not m) && not p) && a)
        → f ≡ ((not n && e) || d)
        → g ≡ (c || f)
        → g ≡ (c || (not n && e) || ((p || (n && m)) && a))
    combined n e m p c a d f g x y z = ground arith
