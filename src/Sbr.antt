-- ===== src/Sbr.antt =====
-- plugins/meta/sbr/main.go: source-based routing, one routing table for each address. The netlink
-- library is a record of the requests that the code makes, over a state of its own; table numbers are
-- not negative. The lock on the namespace makes a command one step.
pub mod Tables
pub mod Samples
use containerz_plugin.Common.{
  ◌then◌, ℕ, zero, suc, ◌+◌, Bool, true, false, ◌&&◌, ◌||◌, not, List, [], ◌∷◌, Option, none, some,
  get_elem?, ◌==◌, if◌then◌else◌, ℤ, pos, negsuc, Result, ok, err, ◌>>=◌, Text, text_eq,
}
use containerz_plugin.Net.{Ip, IpNet, is_nil, to4, equal, net_contains}

abbrev pub first_table_id : ℕ
first_table_id = 100

pub record Rule : Type 0 where
  pub table : ℕ
  pub src : Option IpNet

pub record Route : Type 0 where
  pub dst : Option IpNet
  pub gw : Ip
  pub src : Ip
  pub table : ℕ
  pub link : ℕ
  pub flags : ℕ

pub record IpCfg : Type 0 where
  pub address : IpNet
  pub gateway : Ip
  pub interface : Option ℤ

pub data SbrError : Type 0 where
  no_addresses request_failed link_missing no_table : SbrError

pub data LinkError : Type 0 where
  not_found lookup_failed : LinkError

pub record Netlink (S : Type 0) : Type 0 where
  pub rule_list : S → Result (Unit {0}) (List Rule)
  pub rules_of_table : S → ℕ → Result (Unit {0}) (List Rule)
  pub route_list : S → Option ℕ → Result (Unit {0}) (List Route)
  pub link_by_name : S → Text → Result LinkError ℕ
  pub addr_list : S → ℕ → Result (Unit {0}) (List Ip)
  pub rule_add : S → Rule → S × Result (Unit {0}) (Unit {0})
  pub rule_del : S → Rule → S × Result (Unit {0}) (Unit {0})
  pub route_add : S → Route → S × Result (Unit {0}) (Unit {0})
  pub route_replace : S → Route → S × Result (Unit {0}) (Unit {0})
  pub route_del : S → Route → S × Result (Unit {0}) (Unit {0})

-- An address of an interface with another name; one without a known interface is taken.
unfoldable pub is_elsewhere : Text → List Text → Option ℤ → Bool
is_elsewhere iface names none = false
is_elsewhere iface names (some (negsuc _)) = false
is_elsewhere iface names (some (pos i)) = elim (get_elem? names i) [
  | none ↦ false
  | some n ↦ not (text_eq n iface)
]

unfoldable pub kept_cfgs : Text → List Text → List IpCfg → List IpCfg
kept_cfgs iface names [] = []
kept_cfgs iface names (c ∷ cs) =
    let rest = kept_cfgs iface names cs in
    if is_elsewhere iface names c.interface then rest else c ∷ rest

-- `getIPCfgs`, by the names of the interfaces of the previous result
unfoldable pub get_ip_cfgs : Text → List Text → List IpCfg → Result SbrError (List IpCfg)
get_ip_cfgs iface names [] = err no_addresses
get_ip_cfgs iface names (c ∷ cs) = ok (kept_cfgs iface names (c ∷ cs))

abbrev pub rule_uses : ℕ → List Rule → Bool
rule_uses t [] = false
rule_uses t (r ∷ rs) = r.table == t || rule_uses t rs

abbrev pub route_uses : ℕ → List Route → Bool
route_uses t [] = false
route_uses t (r ∷ rs) = r.table == t || route_uses t rs

unfoldable pub found_existing : List Rule → List Route → ℕ → Bool
found_existing rules routes t = rule_uses t rules || route_uses t routes

-- `getNextTableID`, on fuel
unfoldable pub get_next_table_id : ℕ → List Rule → List Route → ℕ → Option ℕ
get_next_table_id zero rules routes table = none
get_next_table_id (suc fuel) rules routes table =
    let next = get_next_table_id fuel rules routes (table + 1) in
    if found_existing rules routes table then next else some table

abbrev pub Outcome : Type 0 → Type 0
Outcome S = S × Result SbrError (Unit {0})

abbrev pub requested : {S : Type 0} → S × Result (Unit {0}) (Unit {0}) → Outcome S
requested (s, ok _) = (s, ok tt)
requested (s, err _) = (s, err request_failed)

-- `net.CIDRMask` of all bits and of none
abbrev pub ones_v4 : Ip
ones_v4 = 255 ∷ 255 ∷ 255 ∷ 255 ∷ []

abbrev pub ones_v6 : Ip
ones_v6 =
    255 ∷ 255 ∷ 255 ∷ 255 ∷ 255 ∷ 255 ∷ 255 ∷ 255 ∷ 255 ∷ 255 ∷ 255 ∷ 255 ∷ 255 ∷ 255 ∷ 255 ∷ 255
    ∷ []

abbrev pub zero_v4 : Ip
zero_v4 = 0 ∷ 0 ∷ 0 ∷ 0 ∷ []

-- `net.IPv4zero`, in sixteen bytes
abbrev pub ipv4_zero : Ip
ipv4_zero = 0 ∷ 0 ∷ 0 ∷ 0 ∷ 0 ∷ 0 ∷ 0 ∷ 0 ∷ 0 ∷ 0 ∷ 255 ∷ 255 ∷ 0 ∷ 0 ∷ 0 ∷ 0 ∷ []

abbrev pub zero_v6 : Ip
zero_v6 = 0 ∷ 0 ∷ 0 ∷ 0 ∷ 0 ∷ 0 ∷ 0 ∷ 0 ∷ 0 ∷ 0 ∷ 0 ∷ 0 ∷ 0 ∷ 0 ∷ 0 ∷ 0 ∷ []

-- The rule for one source address, and no wider.
unfoldable pub source_rule : ℕ → IpCfg → Rule
source_rule table c = record {
  table = table;
  src =
      some (record {
        ip = c.address.ip;
        mask = if is_nil (to4 c.address.ip) then ones_v6 else ones_v4;
      });
}

unfoldable pub default_route : ℕ → ℕ → IpCfg → Route
default_route table link c = record {
  dst = some (
      if is_nil (to4 c.address.ip)
      then record { ip = zero_v6; mask = zero_v6 }
      else record { ip = ipv4_zero; mask = zero_v4 });
  gw = c.gateway;
  src = [];
  table = table;
  link = link;
  flags = 0;
}

-- A route of the interface that belongs to the address.
unfoldable pub is_copied : IpCfg → Route → Bool
is_copied c r =
    net_contains c.address r.src || net_contains c.address r.gw || (is_nil r.src && is_nil r.gw)

module _ {S : Type 0} (nl : Netlink S) where
  unfoldable pub copy_routes : ℕ → IpCfg → List Route → S → Outcome S
  copy_routes table c [] s = (s, ok tt)
  copy_routes table c (r ∷ rs) s =
      (if is_copied c r
        then requested (nl.route_replace s (record r { table = table; flags = 0 }))
        else (s, ok tt))
      then copy_routes table c rs

  unfoldable pub add_gateway : ℕ → ℕ → IpCfg → S → Outcome S
  add_gateway table link c s =
      if is_nil c.gateway
      then (s, ok tt)
      else requested (nl.route_add s (default_route table link c))

  -- One address: its rule, its default route, and the routes of the interface.
  unfoldable pub add_address : ℕ → ℕ → List Route → IpCfg → S → Outcome S
  add_address table link routes c s =
      requested (nl.rule_add s (source_rule table c))
      then add_gateway table link c
      then copy_routes table c routes

  -- The loop over the addresses; the tables in use are those of the start. The search for a table
  -- behind the last address is made too.
  unfoldable pub add_addresses :
      ℕ → List Rule → List Route → List Route → ℕ → List IpCfg → Option ℕ → S → Outcome S
  add_addresses fuel rules all routes link _ none s = (s, err no_table)
  add_addresses fuel rules all routes link [] (some table) s = (s, ok tt)
  add_addresses fuel rules all routes link (c ∷ cs) (some table) s =
      add_address table link routes c s
      then add_addresses fuel rules all routes link cs
          (get_next_table_id fuel rules routes (table + 1))

  unfoldable pub delete_routes : List Route → S → Outcome S
  delete_routes [] s = (s, ok tt)
  delete_routes (r ∷ rs) s = requested (nl.route_del s r) then delete_routes rs

  abbrev pub failed_as {ℓ} : {E : Type 0} {A : Type ℓ} → SbrError → Result E A → Result SbrError A
  failed_as e (ok a) = ok a
  failed_as e (err _) = err e

  -- What is listed before the first change.
  pub record Listed : Type 0 where
    pub rules : List Rule
    pub all_routes : List Route
    pub link : ℕ
    pub routes : List Route

  unfoldable pub listed : Text → S → Result SbrError Listed
  listed iface s = do
    rules ← failed_as request_failed (nl.rule_list s)
    all ← failed_as request_failed (nl.route_list s none)
    link ← failed_as link_missing (nl.link_by_name s iface)
    own ← failed_as request_failed (nl.route_list s (some link))
    ok (record { rules = rules; all_routes = all; link = link; routes = own })

  -- `doRoutes`
  unfoldable pub do_routes : ℕ → List IpCfg → Text → S → Outcome S
  do_routes fuel cfgs iface s = elim (listed iface s) [
    | err e ↦ (s, err e)
    | ok l ↦
        add_addresses fuel l.rules l.all_routes l.routes l.link cfgs
          (get_next_table_id fuel l.rules l.all_routes first_table_id) s
        then delete_routes l.routes
  ]

  -- `doRoutesWithTable`
  unfoldable pub do_routes_with_table : List IpCfg → ℕ → S → Outcome S
  do_routes_with_table [] table s = (s, ok tt)
  do_routes_with_table (c ∷ cs) table s =
      requested (nl.rule_add s (source_rule table c)) then do_routes_with_table cs table

  unfoldable pub cmd_add : ℕ → Text → List Text → List IpCfg → Option ℕ → S → Outcome S
  cmd_add fuel iface names cfgs table s = elim (get_ip_cfgs iface names cfgs) [
    | err e ↦ (s, err e)
    | ok kept ↦ elim table [
      | none ↦ do_routes fuel kept iface s
      | some t ↦ do_routes_with_table kept t s
    ]
  ]

  abbrev pub has_source : Option IpNet → List Ip → Bool
  has_source none addrs = false
  has_source (some n) [] = false
  has_source (some n) (a ∷ as') = equal n.ip a || has_source (some n) as'

  -- A rule that cannot be deleted is passed over, and the command fails at the end.
  unfoldable pub tidied : List Rule → List Ip → Bool → S → Outcome S
  tidied [] addrs bad s = (s, if bad then err request_failed else ok tt)
  tidied (r ∷ rs) addrs bad s =
      let (s', answer) = nl.rule_del s r in
      let gone : Bool = elim answer [ ok _ ↦ false | err _ ↦ true ] in
      let deleted = tidied rs addrs (bad || gone) s' in
      let kept = tidied rs addrs bad s in if has_source r.src addrs then deleted else kept

  abbrev pub rules_to_tidy : Option ℕ → S → Result (Unit {0}) (List Rule)
  rules_to_tidy none s = nl.rule_list s
  rules_to_tidy (some t) s = nl.rules_of_table s t

  unfoldable pub tidy_link : List Rule → Result LinkError ℕ → S → Outcome S
  tidy_link rules (err not_found) s = (s, ok tt)
  tidy_link rules (err lookup_failed) s = (s, err link_missing)
  tidy_link rules (ok link) s = elim (nl.addr_list s link) [
    | err _ ↦ (s, err request_failed)
    | ok addrs ↦ tidied rules addrs false s
  ]

  -- `tidyRules`
  unfoldable pub tidy_rules : Text → Option ℕ → S → Outcome S
  tidy_rules iface table s = elim (rules_to_tidy table s) [
    | err _ ↦ (s, err request_failed)
    | ok rules ↦ tidy_link rules (nl.link_by_name s iface) s
  ]
