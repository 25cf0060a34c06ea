-- ===== src/Bridge/Config.antt =====
-- plugins/main/bridge/bridge.go: the configuration behind the JSON decoding, and what `cmdAdd` checks
-- of it before it makes a request. The reading of CNI_ARGS is a parameter.
pub mod Port
use containerz_plugin.Common.{
  ℕ, ◌≡◌, refl, subst, sym, ◌≤◌, ◌⊎◌, inl, inr, Bool, true, false, ◌&&◌, ◌||◌, not, List, [], ◌∷◌,
  Option, none, some, if◌then◌else◌, ltb, ◌==◌, ℤ, pos, negsuc, Result, ok, err, ◌>>=◌, ◌>>◌, guard,
  >>=-eq-ok, guard-eq-ok, All, arith, Text, text, text_eq,
}
use containerz_plugin.Bridge.Vlans.{VlanTrunk, VlanError, collect_vlan_trunk}

-- What the JSON gives, in the fields that are read here; the missing name of the bridge is empty.
pub record RawConf : Type 0 where
  pub br_name : Option Text
  pub is_gw : Bool
  pub is_default_gw : Bool
  pub hairpin_mode : Bool
  pub promisc_mode : Bool
  pub vlan : ℤ
  pub vlan_trunk : Option (List VlanTrunk)
  pub preserve_default_vlan : Option Bool
  pub disable_container_interface : Bool
  pub ipam_type : Text
  pub args_mac : Text
  pub runtime_mac : Text

-- `NetConf`, in the same fields.
pub record NetConf : Type 0 where
  pub br_name : Text
  pub is_gw : Bool
  pub is_default_gw : Bool
  pub hairpin_mode : Bool
  pub promisc_mode : Bool
  pub vlan : ℕ
  pub vlan_trunk : Option (List VlanTrunk)
  pub preserve_default_vlan : Bool
  pub disable_container_interface : Bool
  pub ipam_type : Text
  pub mac : Text
  pub vlans : Option (List ℕ)

pub data ConfError : Type 0 where
  bad_vlan vlan_and_trunk bad_env_args ipam_without_interface hairpin_and_promisc : ConfError
  bad_trunk : VlanError → ConfError

abbrev pub default_br_name : Text
default_br_name = text "cni0"

-- A VLAN of the configuration, from 0 to 4094.
unfoldable pub vlan_of : ℤ → Result ConfError ℕ
vlan_of (negsuc n) = err bad_vlan
vlan_of (pos n) = if ltb 4094 n then err bad_vlan else ok n

unfoldable pub vlans_of : Option (List VlanTrunk) → Result ConfError (Option (List ℕ))
vlans_of t = elim (collect_vlan_trunk t) [ err e ↦ err (bad_trunk e) | ok v ↦ ok v ]

abbrev pub is_given : Option (List ℕ) → Bool
is_given none = false
is_given (some _) = true

abbrev pub value_or : {A : Type 0} → A → Option A → A
value_or a none = a
value_or a (some b) = b

-- A hardware address that is not empty comes before the one so far.
abbrev pub unless_empty : Text → Text → Text
unless_empty [] mac = mac
unless_empty (c ∷ cs) mac = c ∷ cs

module _ (load_args : Text → Option Text) where
  -- The address of CNI_ARGS; none where there is none.
  unfoldable pub env_mac : Text → Result ConfError Text
  env_mac [] = ok []
  env_mac (c ∷ cs) = elim (load_args (c ∷ cs)) [ none ↦ err bad_env_args | some mac ↦ ok mac ]

  unfoldable pub load_net_conf : Text → RawConf → Result ConfError NetConf
  load_net_conf env_args r = do
    vlan ← vlan_of r.vlan
    vlans ← vlans_of r.vlan_trunk
    guard (not (ltb 0 vlan && is_given vlans)) vlan_and_trunk
    mac ← env_mac env_args
    ok (record {
      br_name = value_or default_br_name r.br_name;
      is_gw = r.is_gw;
      is_default_gw = r.is_default_gw;
      hairpin_mode = r.hairpin_mode;
      promisc_mode = r.promisc_mode;
      vlan = vlan;
      vlan_trunk = r.vlan_trunk;
      preserve_default_vlan = value_or true r.preserve_default_vlan;
      disable_container_interface = r.disable_container_interface;
      ipam_type = r.ipam_type;
      mac = unless_empty r.runtime_mac (unless_empty r.args_mac mac);
      vlans = vlans;
    })

-- The checks of `cmdAdd`, and the gateway that a default gateway implies.
unfoldable pub checked : NetConf → Result ConfError NetConf
checked n = do
  guard (text_eq n.ipam_type [] || not n.disable_container_interface) ipam_without_interface
  guard (not (n.hairpin_mode && n.promisc_mode)) hairpin_and_promisc
  ok (record n { is_gw = n.is_default_gw || n.is_gw })

-- `vlanFiltering` of `setupBridge`
unfoldable pub vlan_filtering : NetConf → Bool
vlan_filtering n = not (n.vlan == 0) || is_trunk n.vlan_trunk
  where
    is_trunk : Option (List VlanTrunk) → Bool
    is_trunk none = false
    is_trunk (some _) = true
