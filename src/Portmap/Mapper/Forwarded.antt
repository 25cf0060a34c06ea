-- ===== src/Portmap/Mapper/Forwarded.antt =====
-- Ports that are forwarded are found by the check, and forwarding them again changes nothing.
use containerz_plugin.Common.{
  ◌then◌, ℕ, ◌≡◌, refl, sym, subst, Bool, true, List, Option, none, some, Result, ok, Text, text,
  if◌then◌else◌, Bool-cases, inl, inr,
}
use containerz_plugin.Net.{Ip, IpNet}
use containerz_plugin.Portmap.Names.{format_hash_with_prefix, format_chain_name_with_prefix}
use containerz_plugin.Portmap.Chain.{Ipt, IptError, Chain, Outcome, setup, check}
use containerz_plugin.Portmap.Chain.Working.{View, Grows, IsWorking}
use containerz_plugin.Portmap.Chain.Idempotent.{check-passes}
use containerz_plugin.Portmap.Chain.Settled.{Settled, setup-Settled, idle-Settled, then-Settled}
use containerz_plugin.Portmap.Rules.{
  PortMapConf, gen_toplevel_dnat_chain, gen_set_mark_chain, gen_mark_masq_chain, container_chain,
  fill_dnat_rules, is_v6, top_level_dnat_chain_name,
}
use containerz_plugin.Portmap.Mapper.{
  gen_chain, gen_dnat_chain, setup_marks, forward_dnat, forward_on, forward_ports,
  maybe_get_iptables, check_ports,
}

-- The built-in chains of the table.
pub record Builtin {S : Type 0} (v : View S) (s : S) : Type 0 where
  pub prerouting : v.chain s (text "nat") (text "PREROUTING") ≡ true
  pub output : v.chain s (text "nat") (text "OUTPUT") ≡ true
  pub postrouting : v.chain s (text "nat") (text "POSTROUTING") ≡ true

module _ {S : Type 0} (ipt : Ipt S) (v : View S) (w : IsWorking ipt v) where
  Builtin-Grows : (s s' : S) → Grows v s s' → Builtin v s → Builtin v s'
  Builtin-Grows s s' g b = record {
    prerouting = g.chains (text "nat") (text "PREROUTING") b.prerouting;
    output = g.chains (text "nat") (text "OUTPUT") b.output;
    postrouting = g.chains (text "nat") (text "POSTROUTING") b.postrouting;
  }

  marks-Settled :
      (bit : ℕ) (s : S)
      → Builtin v s
      → Settled v
          (λ (s : S). setup ipt (gen_set_mark_chain bit) s then setup ipt (gen_mark_masq_chain bit))
          s
  unfolding gen_set_mark_chain gen_mark_masq_chain
  marks-Settled bit s b =
      let (a, _) = setup-Settled ipt v w (gen_set_mark_chain bit) s tt in
      let (c, _) =
        setup-Settled ipt v w (gen_mark_masq_chain bit) a.after
          (a.grown.chains (text "nat") (text "POSTROUTING") b.postrouting, tt) in
      (then-Settled ipt v w (setup ipt (gen_set_mark_chain bit))
        (setup ipt (gen_mark_masq_chain bit)) s a c).0

  setup_marks-Settled :
      (conf : PortMapConf) (o : Option Text) (s : S)
      → Builtin v s
      → Settled v (setup_marks ipt conf o) s
  unfolding setup_marks
  setup_marks-Settled conf (some t) s b = idle-Settled ipt v w s
  setup_marks-Settled conf none s b = elim (Bool-cases conf.snat) [
    | inl e ↦ rw e (marks-Settled conf.mark_masq_bit s b)
    | inr e ↦ rw e (idle-Settled ipt v w s)
  ]

module _ (sha512_hex : Text → Text) where
  -- The name of the container's chain does not panic.
  gen_dnat_chain-some :
      (conf : PortMapConf)
      → (n : Text) × (gen_dnat_chain sha512_hex conf
          ≡ some (container_chain n top_level_dnat_chain_name))
  unfolding gen_chain format_chain_name_with_prefix format_hash_with_prefix
  gen_dnat_chain-some conf = (_, refl)

-- The check is over the chain that was set up.
maybe_get_iptables_lem :
    {S : Type 0} (open_ipt : Bool → Result IptError (Ipt S)) (v6 : Bool) (s : S) (ipt : Ipt S)
    {ls : List Text}
    → open_ipt v6 ≡ ok ipt
    → ipt.list s (text "nat") (text "OUTPUT") ≡ ok ls
    → maybe_get_iptables open_ipt v6 s ≡ some ipt
unfolding maybe_get_iptables
maybe_get_iptables_lem open_ipt v6 s ipt opened lists =
    rw (opened, maybe_get_iptables) (rw lists refl)

module _ (print_ip : Ip → Text) (print_net : IpNet → Text) (parse_ip : Text → Ip)
    (sha512_hex : Text → Text) {S : Type 0} (open_ipt : Bool → Result IptError (Ipt S))
    (shell_words : Text → Option (List Text)) (v : View S) where
  abbrev forward : PortMapConf → IpNet → S → Outcome S
  forward = forward_ports print_ip print_net parse_ip sha512_hex open_ipt shell_words

  abbrev forward_by : Ipt S → PortMapConf → IpNet → S → Outcome S
  forward_by = forward_on print_ip print_net parse_ip sha512_hex open_ipt shell_words

  abbrev filled : PortMapConf → IpNet → Text → Chain
  filled conf net n =
      fill_dnat_rules print_ip print_net parse_ip (container_chain n top_level_dnat_chain_name) conf
        net

  forward_dnat-Settled :
      (ipt : Ipt S) (w : IsWorking ipt v) (conf : PortMapConf) (net : IpNet) (s : S) (n : Text)
      → v.chain s (text "nat") top_level_dnat_chain_name ≡ true
      → (t : Settled v
          (forward_dnat print_ip print_net parse_ip ipt conf net
            (some (container_chain n top_level_dnat_chain_name)))
          s)
        × (check ipt (filled conf net n) t.after ≡ ok tt)
  unfolding forward_dnat fill_dnat_rules
  forward_dnat-Settled ipt w conf net s n h =
      let (t, u) = setup-Settled ipt v w (filled conf net n) s (h, tt) in
      (t, check-passes ipt v w (filled conf net n) t.after u)

  forward_by-Settled :
      (ipt : Ipt S) (w : IsWorking ipt v) (conf : PortMapConf) (net : IpNet) (s : S) (n : Text)
      → gen_dnat_chain sha512_hex conf ≡ some (container_chain n top_level_dnat_chain_name)
      → Builtin v s
      → (t : Settled v (forward_by ipt conf net) s) × (check ipt (filled conf net n) t.after
          ≡ ok tt)
  unfolding forward_on gen_toplevel_dnat_chain
  forward_by-Settled ipt w conf net s n named b =
      let marks = setup_marks ipt conf conf.external_set_mark_chain in
      let top = setup ipt gen_toplevel_dnat_chain in
      let a = setup_marks-Settled ipt v w conf conf.external_set_mark_chain s b in
      let b' = Builtin-Grows ipt v w s a.after a.grown b in
      let (c, u) =
        setup-Settled ipt v w gen_toplevel_dnat_chain a.after (b'.prerouting, (b'.output, tt)) in
      let (both, same) = then-Settled ipt v w marks top s a c in
      let there =
        subst (λ (s : S). v.chain s (text "nat") top_level_dnat_chain_name ≡ true) same u.there in
      let (d, passes) = forward_dnat-Settled ipt w conf net both.after n there in
      let (all, end) = then-Settled ipt v w (λ (s : S). marks s then top) _ s both d in
      let ends = forward_dnat print_ip print_net parse_ip ipt conf net in
      subst
        (λ (o : Option Chain).
          (t : Settled v (λ (s : S). marks s then top then ends o) s) × (check ipt
              (filled conf net n) t.after
            ≡ ok tt))
        (sym named) (all, subst (λ (s : S). check ipt (filled conf net n) s ≡ ok tt) end passes)

  -- Over an iptables that works, has the built-in chains and lists one of them, `forwardPorts`
  -- succeeds and removes nothing; then `checkPorts` of the same configuration and address succeeds,
  -- and forwarding the ports again, even when more was added since, succeeds and changes nothing.
  pub forward_ports-check_ports :
      (ipt : Ipt S) (w : IsWorking ipt v) (conf : PortMapConf) (net : IpNet) (s : S)
      → open_ipt (is_v6 net.ip) ≡ ok ipt
      → ((s' : S) → (ls : List Text) × (ipt.list s' (text "nat") (text "OUTPUT") ≡ ok ls))
      → Builtin v s
      → (s' : S) × (forward conf net s ≡ (s', ok tt))
        × Grows v s s'
        × (check_ports print_ip print_net parse_ip sha512_hex open_ipt shell_words conf net s'
            ≡ ok tt)
        × ((s'' : S) → Grows v s' s'' → forward conf net s'' ≡ (s'', ok tt))
  unfolding forward_ports check_ports
  forward_ports-check_ports ipt w conf net s opened lists b =
      let (n, named) = gen_dnat_chain-some sha512_hex conf in
      let (t, passes) = forward_by-Settled ipt w conf net s n named b in
      let (ls, listed) = lists t.after in
      let same = maybe_get_iptables_lem open_ipt (is_v6 net.ip) t.after ipt opened listed in
      (
        t.after,
        rw (opened, forward_ports) t.made,
        t.grown,
        rw (same, named) passes,
        λ s'' g. rw (opened, forward_ports) (t.idle s'' g),
      )
