-- ===== src/Bandwidth.antt =====
-- plugins/meta/bandwidth/main.go and ifb_creator.go: the limits of rate and burst, behind the JSON
-- decoding. The netlink library is a record of the requests that are made, over a state of its own;
-- the host interface, and the two sizes that the code computes in floating point, are parameters.
pub mod Accepted
pub mod Samples
use containerz_plugin.Common.{
  asked, with_found, ◌then◌, ℕ, ◌-◌, ◌/◌, ◌%◌, ◌^◌, Bool, true, false, ◌&&◌, not, List, Option,
  none, some, ltb, leb, ◌==◌, if◌then◌else◌, Result, ok, err, ◌>>◌, guard, Text, text, ◌++◌,
}
use containerz_plugin.Portmap.Names.{format_hash_with_prefix}

pub record BandwidthEntry : Type 0 where
  pub ingress_rate : ℕ
  pub ingress_burst : ℕ
  pub egress_rate : ℕ
  pub egress_burst : ℕ

unfoldable pub is_zero : BandwidthEntry → Bool
is_zero b = b.ingress_burst == 0 && b.ingress_rate == 0 && b.egress_burst == 0 && b.egress_rate == 0

-- `PluginConf`: the entry of the configuration itself, and the one of the runtime.
pub record PluginConf : Type 0 where
  pub name : Text
  pub entry : Option BandwidthEntry
  pub runtime_entry : Option BandwidthEntry

pub data BandwidthError : Type 0 where
  burst_missing rate_missing burst_too_big bad_rate bad_burst name_panicked request_failed :
      BandwidthError

unfoldable pub get_bandwidth : PluginConf → Option BandwidthEntry
get_bandwidth conf = elim conf.entry [ some b ↦ some b | none ↦ conf.runtime_entry ]

unfoldable pub validate_rate_and_burst : ℕ → ℕ → Result BandwidthError (Unit {0})
validate_rate_and_burst rate burst =
    if burst == 0 && not (rate == 0)
    then err burst_missing
    else if rate == 0 && not (burst == 0)
    then err rate_missing
    else if leb (2 ^ 32 - 1) (burst / 8)
    then err burst_too_big
    else ok tt

abbrev pub validated : Option BandwidthEntry → Result BandwidthError (Unit {0})
validated none = ok tt
validated (some b) =
    validate_rate_and_burst b.ingress_rate b.ingress_burst
    >> validate_rate_and_burst b.egress_rate b.egress_burst

unfoldable pub parse_config : PluginConf → Result BandwidthError PluginConf
parse_config conf = validated (get_bandwidth conf) >> ok conf

-- A token bucket filter, as it is requested.
pub record Tbf : Type 0 where
  pub link : ℕ
  pub limit : ℕ
  pub rate : ℕ
  pub buffer : ℕ

-- An error of `ip.DelLinkByNameAddr`.
pub data DeleteError : Type 0 where
  link_not_found not_deleted : DeleteError

pub record Netlink (S : Type 0) : Type 0 where
  pub host_interface : S → Option Text
  pub mtu_of : S → Text → Option ℕ
  pub link_by_name : S → Text → Option ℕ
  pub add_ifb : S → Text → ℕ → S × Bool
  pub add_ingress : S → ℕ → S × Bool
  pub add_redirection : S → ℕ → ℕ → S × Bool
  pub add_tbf : S → Tbf → S × Bool
  pub del_link : S → Text → S × Result DeleteError (Unit {0})

abbrev pub Outcome : Type 0 → Type 0
Outcome S = S × Result BandwidthError (Unit {0})

abbrev pub requested : {S : Type 0} → S × Bool → Outcome S
requested r = asked request_failed r

-- A direction that the command limits.
abbrev pub is_limited : ℕ → ℕ → Bool
is_limited rate burst = ltb 0 rate && ltb 0 burst

module _ (sha512_hex : Text → Text) where
  unfoldable pub get_ifb_device_name : Text → Text → Option Text
  get_ifb_device_name network_name container_id =
      format_hash_with_prefix sha512_hex 15 (text "bwp") (network_name ++ container_id)

-- `buffer` and `limit`, by the rate and the burst in bytes
module _ (buffer limit : ℕ → ℕ → ℕ) where
  -- The filter for a rate and a burst in bits; the burst is converted to 32 bits.
  unfoldable pub tbf_of : ℕ → ℕ → ℕ → Tbf
  tbf_of rate burst link = record {
    link = link;
    limit = limit (rate / 8) (burst / 8 % 2 ^ 32);
    rate = rate / 8;
    buffer = buffer (rate / 8) (burst / 8 % 2 ^ 32);
  }

module _ (buffer limit : ℕ → ℕ → ℕ) {S : Type 0} (nl : Netlink S) where
  unfoldable pub create_tbf : ℕ → ℕ → ℕ → S → Outcome S
  create_tbf rate burst link s =
      if leb rate 0
      then (s, err bad_rate)
      else if leb burst 0
      then (s, err bad_burst)
      else requested (nl.add_tbf s (tbf_of buffer limit rate burst link))

  unfoldable pub create_ingress_qdisc : ℕ → ℕ → Text → S → Outcome S
  create_ingress_qdisc rate burst host s =
      with_found request_failed (nl.link_by_name s host) (create_tbf rate burst) s

  -- The ingress queue of the host's device, the redirection to the other one, and its filter.
  abbrev pub redirected : ℕ → ℕ → ℕ → ℕ → S → Outcome S
  redirected rate burst ifb host s =
      requested (nl.add_ingress s host)
      then (λ s'. requested (nl.add_redirection s' host ifb))
      then create_tbf rate burst ifb

  unfoldable pub create_egress_qdisc : ℕ → ℕ → Text → Text → S → Outcome S
  create_egress_qdisc rate burst host ifb s =
      with_found request_failed (nl.link_by_name s ifb)
        (λ i s'. with_found request_failed (nl.link_by_name s' host) (redirected rate burst i) s') s

  module _ (sha512_hex : Text → Text) where
    unfoldable pub limit_ingress : BandwidthEntry → Text → S → Outcome S
    limit_ingress b host s =
        if is_limited b.ingress_rate b.ingress_burst
        then create_ingress_qdisc b.ingress_rate b.ingress_burst host s
        else (s, ok tt)

    abbrev pub on_ifb : BandwidthEntry → Text → ℕ → Option Text → S → Outcome S
    on_ifb b host mtu none s = (s, err name_panicked)
    on_ifb b host mtu (some ifb) s =
        requested (nl.add_ifb s ifb mtu)
        then (λ s'. with_found request_failed (nl.link_by_name s' ifb) (λ _ t. (t, ok tt)) s')
        then create_egress_qdisc b.egress_rate b.egress_burst host ifb

    unfoldable pub limit_egress : PluginConf → Text → BandwidthEntry → Text → S → Outcome S
    limit_egress conf container_id b host s =
        if is_limited b.egress_rate b.egress_burst
        then with_found request_failed (nl.mtu_of s host)
            (λ mtu. on_ifb b host mtu (get_ifb_device_name sha512_hex conf.name container_id)) s
        else (s, ok tt)

    abbrev pub limited : PluginConf → Text → Option BandwidthEntry → S → Outcome S
    limited conf container_id none s = (s, ok tt)
    limited conf container_id (some b) s =
        if is_zero b
        then (s, ok tt)
        else with_found request_failed (nl.host_interface s)
            (λ host t. limit_ingress b host t then limit_egress conf container_id b host) s

    -- `cmdAdd` of a chained plugin, behind the parsing
    unfoldable pub cmd_add : PluginConf → Text → S → Outcome S
    cmd_add conf container_id s = limited conf container_id (get_bandwidth conf) s

module _ {S : Type 0} (nl : Netlink S) where
  -- A link that is not there is passed over.
  abbrev pub link_deleted : S × Result DeleteError (Unit {0}) → Outcome S
  link_deleted (s, ok _) = (s, ok tt)
  link_deleted (s, err link_not_found) = (s, ok tt)
  link_deleted (s, err not_deleted) = (s, err request_failed)

  unfoldable pub teardown_ifb : Text → S → Outcome S
  teardown_ifb name s = link_deleted (nl.del_link s name)

  abbrev pub deleted_ifb : Option Text → S → Outcome S
  deleted_ifb none s = (s, err name_panicked)
  deleted_ifb (some name) s = teardown_ifb name s

  -- `cmdDel`, behind the parsing
  unfoldable pub cmd_del : (Text → Text) → PluginConf → Text → S → Outcome S
  cmd_del sha512_hex conf container_id s =
      deleted_ifb (get_ifb_device_name sha512_hex conf.name container_id) s
