-- ===== src/Portmap/Mapper.antt =====
-- plugins/meta/portmap/portmap_iptables.go: the mapper of ports over iptables. The hash, the opening
-- of iptables for a protocol, and the parser of shell words are parameters, as are the texts of
-- addresses.
pub mod Forwarded
use containerz_plugin.Common.{
  ◌then◌, Bool, true, false, List, Option, none, some, if◌then◌else◌, Result, ok, err, Text, text,
}
use containerz_plugin.Net.{Ip, IpNet}
use containerz_plugin.Portmap.Names.{format_chain_name_with_prefix}
use containerz_plugin.Portmap.Chain.{
  Ipt, IptError, Chain, ChainError, ipt_failed, no_iptables, name_panicked, Outcome, setup, check,
  teardown,
}
use containerz_plugin.Portmap.Rules.{
  PortMapConf, top_level_dnat_chain_name, old_top_level_snat_chain_name, gen_toplevel_dnat_chain,
  gen_set_mark_chain, gen_mark_masq_chain, container_chain, fill_dnat_rules, is_v6,
}

module _ (sha512_hex : Text → Text) where
  -- The container's chain of a kind; `none` is the panic of its name.
  unfoldable pub gen_chain : Text → Text → Text → Text → Option Chain
  gen_chain prefix entry name id = elim (format_chain_name_with_prefix sha512_hex name id prefix) [
    | none ↦ none
    | some n ↦ some (container_chain n entry)
  ]

  abbrev pub gen_dnat_chain : PortMapConf → Option Chain
  gen_dnat_chain conf = gen_chain (text "DN-") top_level_dnat_chain_name conf.name conf.container_id

  abbrev pub gen_old_snat_chain : PortMapConf → Option Chain
  gen_old_snat_chain conf =
      gen_chain (text "SN-") old_top_level_snat_chain_name conf.name conf.container_id

module _ {S : Type 0} where
  abbrev pub usable : Ipt S → S → Result IptError (List Text) → Option (Ipt S)
  usable ipt s (err _) = none
  usable ipt s (ok _) = some ipt

  -- The chains that mark and masquerade, unless another chain marks.
  unfoldable pub setup_marks : Ipt S → PortMapConf → Option Text → S → Outcome S
  setup_marks ipt conf (some _) s = (s, ok tt)
  setup_marks ipt conf none s =
      if conf.snat
      then (setup ipt (gen_set_mark_chain conf.mark_masq_bit) s
          then setup ipt (gen_mark_masq_chain conf.mark_masq_bit))
      else (s, ok tt)

module _ (print_ip : Ip → Text) (print_net : IpNet → Text) (parse_ip : Text → Ip) {S : Type 0} where
  unfoldable pub forward_dnat : Ipt S → PortMapConf → IpNet → Option Chain → S → Outcome S
  forward_dnat ipt conf net none s = (s, err name_panicked)
  forward_dnat ipt conf net (some c) s =
      setup ipt (fill_dnat_rules print_ip print_net parse_ip c conf net) s

  abbrev pub check_on :
      Option (Ipt S) → Option Chain → PortMapConf → IpNet → S → Result ChainError (Unit {0})
  check_on _ none conf net s = err name_panicked
  check_on none (some c) conf net s = err no_iptables
  check_on (some ipt) (some c) conf net s =
      check ipt (fill_dnat_rules print_ip print_net parse_ip c conf net) s

module _ {S : Type 0} (open_ipt : Bool → Result IptError (Ipt S)) where
  -- `maybeGetIptables`
  unfoldable pub maybe_get_iptables : Bool → S → Option (Ipt S)
  maybe_get_iptables v6 s = elim (open_ipt v6) [
    | err _ ↦ none
    | ok ipt ↦ usable ipt s (ipt.list s (text "nat") (text "OUTPUT"))
  ]

module _ {S : Type 0} (shell_words : Text → Option (List Text)) where
  -- One protocol of `unforwardPorts`; an error of the old chain is passed over.
  unfoldable pub unforward_on : Option (Ipt S) → Chain → Chain → S → Outcome S
  unforward_on none dnat old s = (s, ok tt)
  unforward_on (some ipt) dnat old s =
      teardown ipt shell_words dnat s then (λ s'. ((teardown ipt shell_words old s').0, ok tt))

  unfoldable pub unforward_both :
      Option (Ipt S) → Option (Ipt S) → Option Chain → Option Chain → S → Outcome S
  unforward_both _ _ none _ s = (s, err name_panicked)
  unforward_both _ _ (some _) none s = (s, err name_panicked)
  unforward_both none none (some d) (some o) s = (s, err no_iptables)
  unforward_both none (some i6) (some d) (some o) s = unforward_on (some i6) d o s
  unforward_both (some i4) six (some d) (some o) s =
      unforward_on (some i4) d o s then unforward_on six d o

module _ (print_ip : Ip → Text) (print_net : IpNet → Text) (parse_ip : Text → Ip)
    (sha512_hex : Text → Text) {S : Type 0} (open_ipt : Bool → Result IptError (Ipt S))
    (shell_words : Text → Option (List Text)) where
  unfoldable pub forward_on : Ipt S → PortMapConf → IpNet → S → Outcome S
  forward_on ipt conf net s =
      setup_marks ipt conf conf.external_set_mark_chain s
      then setup ipt gen_toplevel_dnat_chain
      then forward_dnat print_ip print_net parse_ip ipt conf net (gen_dnat_chain sha512_hex conf)

  -- `forwardPorts`
  unfoldable pub forward_ports : PortMapConf → IpNet → S → Outcome S
  forward_ports conf net s = elim (open_ipt (is_v6 net.ip)) [
    | err e ↦ (s, err (ipt_failed e))
    | ok ipt ↦ forward_on ipt conf net s
  ]

  -- `checkPorts`
  unfoldable pub check_ports : PortMapConf → IpNet → S → Result ChainError (Unit {0})
  check_ports conf net s =
      check_on print_ip print_net parse_ip (maybe_get_iptables open_ipt (is_v6 net.ip) s)
        (gen_dnat_chain sha512_hex conf) conf net s

  -- `unforwardPorts`
  unfoldable pub unforward_ports : PortMapConf → S → Outcome S
  unforward_ports conf s =
      unforward_both shell_words (maybe_get_iptables open_ipt false s)
        (maybe_get_iptables open_ipt true s) (gen_dnat_chain sha512_hex conf)
        (gen_old_snat_chain sha512_hex conf) s
