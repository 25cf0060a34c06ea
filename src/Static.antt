-- ===== src/Static.antt =====
-- plugins/ipam/static/main.go: addresses given in the configuration, behind the JSON decoding. The
-- reading of CNI_ARGS, `net.ParseCIDR`, `net.ParseIP` and the comparison of versions are parameters.
pub mod Loaded
pub mod Checked
pub mod Examples
use containerz_plugin.Common.{
  ℕ, ◌+◌, Bool, true, false, ◌||◌, not, List, [], ◌∷◌, ◌++◌, map, Option, none, some, ltb, ◌==◌,
  if◌then◌else◌, Result, ok, err, ◌>>=◌, ◌>>◌, guard, Text, trim_space, split_on,
}
use containerz_plugin.Net.{Ip, IpNet, is_nil, to4, equal, net_contains}
use containerz_plugin.HostLocal.Range.{canonicalize_ip}

pub record Address : Type 0 where
  pub address_str : Text
  pub gateway : Ip
  pub address : IpNet

-- `Net` and `IPAMConfig`, the fields that the loading reads; the lists are empty if not there.
pub record StaticConf : Type 0 where
  pub cni_version : Text
  pub addresses : Option (List Address)
  pub args_ips : List Text
  pub runtime_ips : List Text

pub record EnvArgs : Type 0 where
  pub ip : Text
  pub gateway : Text

pub data StaticError : Type 0 where
  missing_ipam bad_env bad_cidr bad_gateway unknown_form too_many_addresses : StaticError

abbrev pub needed {ℓ} : {A : Type ℓ} → StaticError → Option A → Result StaticError A
needed e none = err e
needed e (some a) = ok a

abbrev pub is_empty : Text → Bool
is_empty [] = true
is_empty (_ ∷ _) = false

abbrev pub none_given : List Text → Bool
none_given [] = true
none_given (_ ∷ _) = false

-- A gateway for each address whose network contains it.
abbrev pub with_gateway : Ip → Address → Address
with_gateway gw a = if net_contains a.address gw then record a { gateway = gw } else a

unfoldable pub count_family : Bool → List Address → ℕ
count_family v4 [] = 0
count_family v4 (a ∷ as') =
    let rest = count_family v4 as' in
    if is_nil (to4 a.address.ip)
    then (if v4 then rest else rest + 1)
    else if v4
    then rest + 1
    else rest

-- The inner loop of `cmdCheck`: the first result with the address decides, and none does not fail.
unfoldable pub check_one : Address → List (Ip × Ip) → Bool
check_one a [] = true
check_one a ((ip, gw) ∷ ips) =
    if equal a.address.ip ip then is_nil a.gateway || equal a.gateway gw else check_one a ips

unfoldable pub check_addresses : List Address → List (Ip × Ip) → Bool
check_addresses [] ips = true
check_addresses (a ∷ as') ips = if check_one a ips then check_addresses as' ips else false

module _ (load_args : Text → Option EnvArgs) (parse_cidr : Text → Option (Ip × IpNet))
    (parse_ip : Text → Ip) (newer : Text → Bool) where
  -- One address in CIDR notation, with the mask of its network.
  unfoldable pub parsed : Text → Result StaticError Address
  parsed t = do
    (ip, subnet) ← needed bad_cidr (parse_cidr t)
    ok (record { address_str = t; gateway = []; address = record { ip = ip; mask = subnet.mask } })

  unfoldable pub parsed_all : List Text → Result StaticError (List Address)
  parsed_all [] = ok []
  parsed_all (t ∷ ts) = do a ← parsed t; as' ← parsed_all ts; ok (a ∷ as')

  unfoldable pub set_gateways : List Text → List Address → Result StaticError (List Address)
  set_gateways [] as' = ok as'
  set_gateways (t ∷ ts) as' =
      let gw = parse_ip (trim_space t) in
      if is_nil gw then err bad_gateway else set_gateways ts (map (with_gateway gw) as')

  -- CNI_ARGS adds addresses, and sets gateways.
  unfoldable pub from_env : Text → List Address → Result StaticError (List Address)
  from_env env_args as' = if is_empty env_args then ok as' else do
    e ← needed bad_env (load_args env_args)
    more ← (if is_empty e.ip then ok [] else parsed_all (map trim_space (split_on 44 e.ip)))
    if is_empty e.gateway
        then ok (as' ++ more)
        else set_gateways (split_on 44 e.gateway) (as' ++ more)

  -- Addresses that are given replace those before.
  unfoldable pub replaced : List Text → List Address → Result StaticError (List Address)
  replaced given as' = if none_given given then ok as' else parsed_all given

  -- The address with its mask, parsed if it is not yet.
  unfoldable pub own_address : Address → Result StaticError (Ip × Ip)
  own_address a =
      if is_nil a.address.ip
      then (do (ip, subnet) ← needed bad_cidr (parse_cidr a.address_str); ok (ip, subnet.mask))
      else ok (a.address.ip, a.address.mask)

  -- The loop that validates: an address not yet parsed is, and each is canonicalized.
  unfoldable pub validated : List Address → Result StaticError (List Address)
  validated [] = ok []
  validated (a ∷ as') = do
    (ip, mask) ← own_address a
    canonical ← needed unknown_form (canonicalize_ip ip)
    rest ← validated as'
    ok (record a { address = record { ip = canonical; mask = mask } } ∷ rest)

  unfoldable pub load_static : StaticConf → Text → Result StaticError (List Address)
  load_static n env_args = do
    configured ← needed missing_ipam n.addresses
    a1 ← from_env env_args configured
    a2 ← replaced n.args_ips a1
    a3 ← replaced n.runtime_ips a2
    as' ← validated a3
    guard
        (not (ltb 1 (count_family true as') || ltb 1 (count_family false as'))
          || newer n.cni_version)
        too_many_addresses
    ok as'
