-- ===== src/Bridge/Check.antt =====
-- plugins/main/bridge/bridge.go: what `cmdCheck` asks of the interfaces of the previous result. A
-- namespace is a record of what is looked up in it.
pub mod Found
pub mod Connected
use containerz_plugin.Common.{
  ℕ, Bool, true, false, ◌||◌, ◌&&◌, not, List, [], ◌∷◌, Option, none, some, if◌then◌else◌, ◌==◌,
  Result, ok, err, ◌>>=◌, ◌>>◌, guard, Text, text_eq,
}
use containerz_plugin.Bridge.Config.{NetConf}

-- `current.Interface`
pub record Interface : Type 0 where
  pub name : Text
  pub mac : Text
  pub sandbox : Text

-- The types of a link that the code tells apart.
pub data Kind : Type 0 where
  bridge veth other_kind : Kind

-- `netlink.Link`, the attributes that the code reads; the hardware address as it is printed.
pub record Link : Type 0 where
  pub name : Text
  pub kind : Kind
  pub mac : Text
  pub index : ℕ
  pub master_index : ℕ
  pub promisc : Bool

pub record Namespace : Type 0 where
  pub link_by_name : Text → Option Link
  pub veth_peer_index : Text → Option ℕ

-- `cniBridgeIf`
pub record CniBridgeIf : Type 0 where
  pub name : Text
  pub if_index : ℕ
  pub peer_index : ℕ
  pub master_index : ℕ
  pub found : Bool

pub data CheckError : Type 0 where
  name_missing link_missing not_in_sandbox in_sandbox not_a_bridge other_mac : CheckError
  other_promisc not_a_veth no_peer other_sandbox no_bridge no_container no_veth : CheckError

abbrev pub is_bridge : Kind → Bool
is_bridge bridge = true
is_bridge veth = false
is_bridge other_kind = false

abbrev pub is_veth : Kind → Bool
is_veth bridge = false
is_veth veth = true
is_veth other_kind = false

abbrev pub required {ℓ} : {A : Type ℓ} → CheckError → Option A → Result CheckError A
required e none = err e
required e (some a) = ok a

abbrev pub agree : Bool → Bool → Bool
agree true b = b
agree false b = not b

abbrev pub mac_agrees : Text → Link → Bool
mac_agrees mac l = text_eq mac [] || text_eq mac l.mac

abbrev pub not_found : CniBridgeIf
not_found = record { name = []; if_index = 0; peer_index = 0; master_index = 0; found = false }

abbrev pub no_interface : Interface
no_interface = record { name = []; mac = []; sandbox = [] }

-- `validateInterface`; what it returns beside the link is never found.
unfoldable pub validate_interface : Namespace → Interface → Bool → Result CheckError Link
validate_interface ns i expect_in_sb = do
  guard (not (text_eq i.name [])) name_missing
  l ← required link_missing (ns.link_by_name i.name)
  guard (not expect_in_sb || not (text_eq i.sandbox [])) not_in_sandbox
  guard (expect_in_sb || text_eq i.sandbox []) in_sandbox
  ok l

unfoldable pub validate_cni_br_interface :
    Namespace → NetConf → Interface → Result CheckError CniBridgeIf
validate_cni_br_interface ns n i = do
  l ← validate_interface ns i false
  guard (is_bridge l.kind) not_a_bridge
  guard (mac_agrees i.mac l) other_mac
  guard (agree l.promisc n.promisc_mode) other_promisc
  ok (record {
    name = l.name;
    if_index = l.index;
    peer_index = 0;
    master_index = l.master_index;
    found = true;
  })

unfoldable pub validate_cni_container_interface :
    Namespace → Interface → Result CheckError CniBridgeIf
validate_cni_container_interface ns i = do
  l ← validate_interface ns i true
  guard (is_veth l.kind) not_a_veth
  p ← required no_peer (ns.veth_peer_index l.name)
  guard (mac_agrees i.mac l) other_mac
  ok (record { name = l.name; if_index = l.index; peer_index = p; master_index = 0; found = true })

-- What is known of a veth before it is found.
abbrev pub seen : Link → ℕ → CniBridgeIf
seen l p = record {
  name = [];
  if_index = l.index;
  peer_index = p;
  master_index = l.master_index;
  found = false;
}

abbrev pub is_pair : CniBridgeIf → CniBridgeIf → CniBridgeIf → Bool
is_pair br cont v =
    (v.if_index == cont.peer_index)
    && (cont.if_index == v.peer_index)
    && (v.master_index == br.if_index)

-- The part of `validateCniVethInterface` for a veth, with the index of its peer.
unfoldable pub validate_veth :
    Interface → CniBridgeIf → CniBridgeIf → Link → ℕ → Result CheckError CniBridgeIf
validate_veth i br cont l p =
    if is_pair br cont (seen l p)
    then guard (mac_agrees i.mac l) other_mac
      >> ok (record (seen l p) { name = l.name; found = true })
    else ok (seen l p)

-- `validateCniVethInterface`; another type of link is skipped.
unfoldable pub validate_cni_veth_interface :
    Namespace → Interface → CniBridgeIf → CniBridgeIf → Result CheckError CniBridgeIf
validate_cni_veth_interface ns i br cont = do
  l ← validate_interface ns i false
  if is_veth l.kind
      then (required no_peer (ns.veth_peer_index l.name) >>= validate_veth i br cont l)
      else ok not_found

-- The interface of the bridge and that of the container; of several, the last ones.
unfoldable pub known_interfaces :
    Text → Text → Text → List Interface → Interface × Interface → Interface × Interface
known_interfaces br_name if_name netns [] known = known
known_interfaces br_name if_name netns (i ∷ is) (b, c) = known_interfaces br_name if_name netns is (
  (if text_eq br_name i.name then i else b),
  (if not (text_eq br_name i.name) && text_eq if_name i.name && text_eq netns i.sandbox
      then i
      else c),
)

-- The loop over the interfaces for the host end of the pair.
unfoldable pub find_veth :
    Namespace
    → Text
    → Text
    → CniBridgeIf
    → CniBridgeIf
    → List Interface
    → CniBridgeIf
    → Result CheckError CniBridgeIf
find_veth ns br_name cont_name br cont [] last = ok last
find_veth ns br_name cont_name br cont (i ∷ is) last =
    elim (text_eq br_name i.name || text_eq cont_name i.name) [
      | true ↦ find_veth ns br_name cont_name br cont is last
      | false ↦ validate_cni_veth_interface ns i br cont >>= λ v. elim v.found [
        | true ↦ ok v
        | false ↦ find_veth ns br_name cont_name br cont is v
      ]
    ]

-- `cmdCheck` from the previous result on, up to the addresses and routes.
unfoldable pub check_interfaces :
    Namespace → Namespace → NetConf → Text → Text → List Interface → Result CheckError (Unit {0})
check_interfaces host container n if_name netns is = do
  let known = known_interfaces n.br_name if_name netns is (no_interface, no_interface)
  br ← validate_cni_br_interface host n known.0
  guard (text_eq netns (known.1).sandbox) other_sandbox
  cont ← validate_cni_container_interface container known.1
  v ← find_veth host (known.0).name (known.1).name br cont is not_found
  guard br.found no_bridge
  guard cont.found no_container
  guard v.found no_veth
