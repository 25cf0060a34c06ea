-- ===== src/Bridge/Check/Connected.antt =====
-- What the check of the interfaces shows of the container's connection to the bridge.
use mathlib.Core.List.{Memᴰ}
use containerz_plugin.Common.{
  ◌≡◌, refl, sym, ap, ◌∙◌, ◌⊎◌, inl, inr, Bool, true, false, ◌&&◌, not, List, [], ◌∷◌, some,
  if◌then◌else◌, Result, ok, guard, >>=-eq-ok, guard-eq-ok, Text, text_eq, text_eq_iff, arith,
}
use containerz_plugin.Bridge.Config.{NetConf}
use containerz_plugin.Bridge.Check.{
  Interface, bridge, veth, Link, Namespace, CheckError, other_sandbox, no_bridge, no_container,
  no_veth, not_found, no_interface, validate_cni_br_interface, validate_cni_container_interface,
  known_interfaces, find_veth, check_interfaces,
}
use containerz_plugin.Bridge.Check.Found.{
  validate_cni_br_interface-ok, validate_cni_container_interface-ok, find_veth-found,
}

-- The container's interface and an interface of the result on the host are the two ends of a pair,
-- and the end on the host is a port of the bridge.
pub record Connected (host container : Namespace) (n : NetConf) (if_name : Text)
    (is : List Interface) : Type 0 where
  pub br : Link
  pub br_found : host.link_by_name n.br_name ≡ some br
  pub br_kind : br.kind ≡ bridge
  pub inner : Link
  pub inner_found : container.link_by_name if_name ≡ some inner
  pub inner_kind : inner.kind ≡ veth
  pub interface : Interface
  pub listed : Memᴰ interface is
  pub port : Link
  pub port_found : host.link_by_name interface.name ≡ some port
  pub port_kind : port.kind ≡ veth
  pub inner_peer : container.veth_peer_index inner.name ≡ some port.index
  pub port_peer : host.veth_peer_index port.name ≡ some inner.index
  pub port_master : port.master_index ≡ br.index

-- An interface that was not found, or one of this name.
abbrev Named : Text → Interface → Type 0
Named name i = (text_eq i.name [] ≡ true) ⊎ (text_eq name i.name ≡ true)

unnamed : text_eq [] [] ≡ true
unnamed = (text_eq_iff [] []).1 refl

known_interfaces-Named :
    (bn cn netns : Text) (is : List Interface) (b c : Interface)
    → Named bn b
    → Named cn c
    → Named bn (known_interfaces bn cn netns is (b, c)).0
      × Named cn (known_interfaces bn cn netns is (b, c)).1
unfolding known_interfaces
known_interfaces-Named bn cn netns [] b c h k = (h, k)
known_interfaces-Named bn cn netns (i ∷ is) b c h k =
    known_interfaces-Named bn cn netns is _ _ (first (text_eq bn i.name) refl)
      (second (not (text_eq bn i.name) && text_eq cn i.name && text_eq netns i.sandbox) refl)
  where
    first : (t : Bool) → text_eq bn i.name ≡ t → Named bn (if t then i else b)
    first true e = inr e
    first false e = h

    second :
        (t : Bool)
        → (not (text_eq bn i.name) && text_eq cn i.name && text_eq netns i.sandbox) ≡ t
        → Named cn (if t then i else c)
    second true e = inr (ground arith)
    second false e = k

name-Named :
    (name : Text) (i : Interface) → Named name i → text_eq i.name [] ≡ false → i.name ≡ name
name-Named name i (inl e) n = cc
name-Named name i (inr e) n = sym ((text_eq_iff name i.name).0 e)

-- Where the check of the interfaces succeeds, the container's interface and an interface of the result
-- on the host are the two ends of a veth pair, and the end on the host is a port of the bridge that
-- the configuration names.
pub check_interfaces-Connected :
    (host container : Namespace) (n : NetConf) (if_name netns : Text) (is : List Interface)
    → check_interfaces host container n if_name netns is ≡ ok tt
    → Connected host container n if_name is
unfolding check_interfaces
check_interfaces-Connected host container n if_name netns is h =
    let known = known_interfaces n.br_name if_name netns is (no_interface, no_interface) in
    let names =
      known_interfaces-Named n.br_name if_name netns is no_interface no_interface (inl (unnamed))
        (inl (unnamed)) in
    let (br, h1, k1) = >>=-eq-ok (validate_cni_br_interface host n known.0) _ h in
    let (h2, k2) = guard-eq-ok (text_eq netns (known.1).sandbox) other_sandbox _ k1 in
    let (cont, h3, k3) = >>=-eq-ok (validate_cni_container_interface container known.1) _ k2 in
    let (v, h4, k4) =
      >>=-eq-ok (find_veth host (known.0).name (known.1).name br cont is not_found) _ k3 in
    let (h5, k5) = guard-eq-ok br.found no_bridge _ k4 in
    let (h6, k6) = guard-eq-ok cont.found no_container _ k5 in
    let b = validate_cni_br_interface-ok host n known.0 h1 in
    let c = validate_cni_container_interface-ok container known.1 h3 in
    let (i, m, w) =
      find_veth-found host (known.0).name (known.1).name br cont is not_found refl h4
        (veth_found v.found k6) in
    record {
      br = b.link;
      br_found = ap host.link_by_name (sym (name-Named n.br_name known.0 names.0 b.named)) ∙ b.at;
      br_kind = b.kind;
      inner = c.link;
      inner_found =
          ap container.link_by_name (sym (name-Named if_name known.1 names.1 c.named)) ∙ c.at;
      inner_kind = c.kind;
      interface = i;
      listed = m;
      port = w.link;
      port_found = w.at;
      port_kind = w.kind;
      inner_peer = c.peer ∙ ap some (sym w.index);
      port_peer = w.peer ∙ ap some c.index;
      port_master = w.master ∙ b.index;
    }
  where
    veth_found :
        (b : Bool) → ◌≡◌ {A = Result CheckError (Unit {0})} (guard b no_veth) (ok tt) → b ≡ true
    veth_found true e = refl
    veth_found false e = cc
