-- ===== src/Bridge/Check/Found.antt =====
-- The interfaces that the check of the bridge plugin finds, each by its link.
use mathlib.Core.List.{Memᴰ}
use mathlib.Core.List.Memᴰ.{head, tail}
use containerz_plugin.Common.{
  ℕ, ◌≡◌, refl, sym, ap, ◌∙◌, Bool, true, false, ◌||◌, not, List, [], ◌∷◌, Option, none, some,
  if◌then◌else◌, Result, ok, ◌>>=◌, ◌>>◌, guard, >>=-eq-ok, guard-eq-ok, Text, text_eq, arith,
}
use containerz_plugin.Bridge.Config.{NetConf}
use containerz_plugin.Bridge.Check.{
  Interface, Kind, bridge, veth, other_kind, Link, Namespace, CniBridgeIf, CheckError, name_missing,
  link_missing, not_in_sandbox, in_sandbox, not_a_bridge, other_mac, other_promisc, not_a_veth,
  no_peer, is_bridge, is_veth, required, agree, mac_agrees, not_found, validate_interface,
  validate_cni_br_interface, validate_cni_container_interface, validate_veth, seen, is_pair,
  validate_cni_veth_interface, find_veth,
}

required-ok :
    {A : Type 0} (e : CheckError) (o : Option A) {a : A} → required e o ≡ ok a → o ≡ some a
required-ok e none h = cc
required-ok e (some b) h = cc

is_bridge-bridge : (k : Kind) → is_bridge k ≡ true → k ≡ bridge
is_bridge-bridge bridge h = refl
is_bridge-bridge veth h = cc
is_bridge-bridge other_kind h = cc

is_veth-veth : (k : Kind) → is_veth k ≡ true → k ≡ veth
is_veth-veth bridge h = cc
is_veth-veth veth h = refl
is_veth-veth other_kind h = cc

-- An interface that is validated has a name and a link.
validate_interface-ok :
    (ns : Namespace) (i : Interface) (b : Bool) {l : Link}
    → validate_interface ns i b ≡ ok l
    → (text_eq i.name [] ≡ false) × (ns.link_by_name i.name ≡ some l)
unfolding validate_interface
validate_interface-ok ns i b {l} h =
    let (h1, k1) = guard-eq-ok (not (text_eq i.name [])) name_missing _ h in
    let (m, h2, k2) = >>=-eq-ok (required link_missing (ns.link_by_name i.name)) _ k1 in
    let (h3, k3) = guard-eq-ok (not b || not (text_eq i.sandbox [])) not_in_sandbox _ k2 in
    let (h4, k4) = guard-eq-ok (b || text_eq i.sandbox []) in_sandbox _ k3 in
    let e : m ≡ l = cc in
    (ground arith, required-ok link_missing (ns.link_by_name i.name) h2 ∙ ap some e)

-- The bridge that was found, by its link.
pub record IsBridgeIf (ns : Namespace) (i : Interface) (c : CniBridgeIf) : Type 0 where
  pub link : Link
  pub named : text_eq i.name [] ≡ false
  pub at : ns.link_by_name i.name ≡ some link
  pub kind : link.kind ≡ bridge
  pub index : c.if_index ≡ link.index

pub validate_cni_br_interface-ok :
    (ns : Namespace) (n : NetConf) (i : Interface) {c : CniBridgeIf}
    → validate_cni_br_interface ns n i ≡ ok c
    → IsBridgeIf ns i c
unfolding validate_cni_br_interface
validate_cni_br_interface-ok ns n i {c} h =
    let (l, h1, k1) = >>=-eq-ok (validate_interface ns i false) _ h in
    let (h2, k2) = guard-eq-ok (is_bridge l.kind) not_a_bridge _ k1 in
    let (h3, k3) = guard-eq-ok (mac_agrees i.mac l) other_mac _ k2 in
    let (h4, k4) = guard-eq-ok (agree l.promisc n.promisc_mode) other_promisc _ k3 in
    let (a, b) = validate_interface-ok ns i false h1 in
    record {
      link = l;
      named = a;
      at = b;
      kind = is_bridge-bridge l.kind h2;
      index = index_of _ c k4;
    }
  where
    index_of :
        (a b : CniBridgeIf)
        → ◌≡◌ {A = Result CheckError CniBridgeIf} (ok a) (ok b)
        → b.if_index ≡ a.if_index
    index_of a b e = let f : b ≡ a = cc in ap (λ (x : CniBridgeIf). x.if_index) f

pub record IsContainerIf (ns : Namespace) (i : Interface) (c : CniBridgeIf) : Type 0 where
  pub link : Link
  pub named : text_eq i.name [] ≡ false
  pub at : ns.link_by_name i.name ≡ some link
  pub kind : link.kind ≡ veth
  pub index : c.if_index ≡ link.index
  pub peer : ns.veth_peer_index link.name ≡ some c.peer_index

ok-eq : (a b : CniBridgeIf) → ◌≡◌ {A = Result CheckError CniBridgeIf} (ok a) (ok b) → a ≡ b
ok-eq a b e = cc

pub validate_cni_container_interface-ok :
    (ns : Namespace) (i : Interface) {c : CniBridgeIf}
    → validate_cni_container_interface ns i ≡ ok c
    → IsContainerIf ns i c
unfolding validate_cni_container_interface
validate_cni_container_interface-ok ns i {c} h =
    let (l, h1, k1) = >>=-eq-ok (validate_interface ns i true) _ h in
    let (h2, k2) = guard-eq-ok (is_veth l.kind) not_a_veth _ k1 in
    let (p, h3, k3) = >>=-eq-ok (required no_peer (ns.veth_peer_index l.name)) _ k2 in
    let (h4, k4) = guard-eq-ok (mac_agrees i.mac l) other_mac _ k3 in
    let (a, b) = validate_interface-ok ns i true h1 in
    let e = ok-eq _ c k4 in
    record {
      link = l;
      named = a;
      at = b;
      kind = is_veth-veth l.kind h2;
      index = ap (λ (x : CniBridgeIf). x.if_index) (sym e);
      peer =
          required-ok no_peer (ns.veth_peer_index l.name) h3
          ∙ ap (λ (x : CniBridgeIf). some x.peer_index) e;
    }

-- An interface on the host that is found, by its link.
pub record IsVethIf (ns : Namespace) (i : Interface) (br cont : CniBridgeIf) : Type 0 where
  pub link : Link
  pub at : ns.link_by_name i.name ≡ some link
  pub kind : link.kind ≡ veth
  pub index : link.index ≡ cont.peer_index
  pub peer : ns.veth_peer_index link.name ≡ some cont.if_index
  pub master : link.master_index ≡ br.if_index

-- A veth that is found is the other end of the pair.
validate_veth-found :
    (i : Interface) (br cont : CniBridgeIf) (l : Link) (p : ℕ) {v : CniBridgeIf}
    → validate_veth i br cont l p ≡ ok v
    → v.found ≡ true
    → (l.index ≡ cont.peer_index) × (cont.if_index ≡ p) × (l.master_index ≡ br.if_index)
unfolding validate_veth
validate_veth-found i br cont l p {v} h f = from (is_pair br cont (seen l p)) refl h
  where
    from :
        (b : Bool)
        → is_pair br cont (seen l p) ≡ b
        → (if b
            then guard (mac_agrees i.mac l) other_mac
              >> ok (record (seen l p) { name = l.name; found = true })
            else ok (seen l p))
          ≡ ok v
        → (l.index ≡ cont.peer_index) × (cont.if_index ≡ p) × (l.master_index ≡ br.if_index)
    from true e g = (ground arith, ground arith, ground arith)
    from false e g = let x = ap (λ (x : CniBridgeIf). x.found) (ok-eq _ v g) in cc

validate_cni_veth_interface-found :
    (ns : Namespace) (i : Interface) (br cont : CniBridgeIf) {v : CniBridgeIf}
    → validate_cni_veth_interface ns i br cont ≡ ok v
    → v.found ≡ true
    → IsVethIf ns i br cont
unfolding validate_cni_veth_interface
validate_cni_veth_interface-found ns i br cont {v} h f =
    let (l, h1, k1) = >>=-eq-ok (validate_interface ns i false) _ h in
    let (a, at) = validate_interface-ok ns i false h1 in from l at (is_veth l.kind) refl k1
  where
    from :
        (l : Link)
        → ns.link_by_name i.name ≡ some l
        → (b : Bool) → is_veth l.kind ≡ b
        → (if b
            then required no_peer (ns.veth_peer_index l.name) >>= validate_veth i br cont l
            else ok not_found)
          ≡ ok v
        → IsVethIf ns i br cont
    from l at true e g =
        let (p, h2, k2) = >>=-eq-ok (required no_peer (ns.veth_peer_index l.name)) _ g in
        let (x, y, z) = validate_veth-found i br cont l p k2 f in
        record {
          link = l;
          at = at;
          kind = is_veth-veth l.kind e;
          index = x;
          peer = required-ok no_peer (ns.veth_peer_index l.name) h2 ∙ ap some (sym y);
          master = z;
        }
    from l at false e g = let x = ap (λ (x : CniBridgeIf). x.found) (ok-eq not_found v g) in cc

-- The loop ends at a listed interface that is the end of the pair, or finds none.
pub find_veth-found :
    (ns : Namespace) (bn cn : Text) (br cont : CniBridgeIf) (is : List Interface)
    (last : CniBridgeIf) {v : CniBridgeIf}
    → last.found ≡ false
    → find_veth ns bn cn br cont is last ≡ ok v
    → v.found ≡ true
    → (i : Interface) × Memᴰ i is × IsVethIf ns i br cont
unfolding find_veth
find_veth-found ns bn cn br cont [] last {v} o h f =
    let x = ap (λ (x : CniBridgeIf). x.found) (ok-eq last v h) in cc
find_veth-found ns bn cn br cont (i ∷ is) last {v} o h f =
    from (text_eq bn i.name || text_eq cn i.name) h
      (λ x y z. later (find_veth-found ns bn cn br cont is x y z f))
  where
    later :
        (j : Interface) × Memᴰ j is × IsVethIf ns j br cont
        → (j : Interface) × Memᴰ j (i ∷ is) × IsVethIf ns j br cont
    later (j, m, w) = (j, tail m, w)

    settle :
        (x : CniBridgeIf) (b : Bool)
        → x.found ≡ b
        → validate_cni_veth_interface ns i br cont ≡ ok x
        → (elim b [ true ↦ ok x | false ↦ find_veth ns bn cn br cont is x ]) ≡ ok v
        → ((x : CniBridgeIf)
            → x.found ≡ false
            → find_veth ns bn cn br cont is x ≡ ok v
            → (j : Interface) × Memᴰ j (i ∷ is) × IsVethIf ns j br cont)
        → (j : Interface) × Memᴰ j (i ∷ is) × IsVethIf ns j br cont
    settle x true e g k rest = (i, head refl, validate_cni_veth_interface-found ns i br cont g e)
    settle x false e g k rest = rest x e k

    from :
        (b : Bool)
        → (elim b [
          | true ↦ find_veth ns bn cn br cont is last
          | false ↦ validate_cni_veth_interface ns i br cont >>= λ x. elim x.found [
            | true ↦ ok x
            | false ↦ find_veth ns bn cn br cont is x
          ]
        ])
          ≡ ok v
        → ((x : CniBridgeIf)
            → x.found ≡ false
            → find_veth ns bn cn br cont is x ≡ ok v
            → (j : Interface) × Memᴰ j (i ∷ is) × IsVethIf ns j br cont)
        → (j : Interface) × Memᴰ j (i ∷ is) × IsVethIf ns j br cont
    from true g rest = rest last o g
    from false g rest =
        let (x, h1, k1) = >>=-eq-ok (validate_cni_veth_interface ns i br cont) _ g in
        settle x x.found refl h1 k1 rest
