-- ===== src/Portmap/Chain/Idempotent.antt =====
-- Setting a chain up over a working iptables: the check of the chain then passes, and a second set-up
-- changes nothing.
use containerz_plugin.Common.{◌≡◌, refl, Bool, true, false, List, [], ◌∷◌, ok, Text}
use containerz_plugin.Portmap.Chain.{
  Rule, Ipt, Chain, jumps, ensure_chain_by, ensure_chain, insert_unique_by, insert_unique,
  insert_all, insert_entries, setup, check_all, check_entries, check_by, check,
}
use containerz_plugin.Portmap.Chain.Working.{
  View, Grows, IsWorking, HasAll, EntriesHave, AllThere, IsSetUp, setup-ok,
}

module _ {S : Type 0} (ipt : Ipt S) (v : View S) (w : IsWorking ipt v) where
  -- Where all is there, nothing is done.
  ensure_chain-idle :
      (t c : Text) (s : S) → v.chain s t c ≡ true → ensure_chain ipt t c s ≡ (s, ok tt)
  unfolding ensure_chain ensure_chain_by
  ensure_chain-idle t c s h = rw (w.tells_chain s t c, ensure_chain) (rw (h, ensure_chain_by) refl)

  insert_all-idle :
      (t c : Text) (prepend : Bool) (rs : List Rule) (s : S)
      → v.chain s t c ≡ true
      → HasAll ipt v w s t c rs
      → insert_all ipt t c prepend rs s ≡ (s, ok tt)
  unfolding insert_all insert_unique insert_unique_by
  insert_all-idle t c prepend [] s h a = refl
  insert_all-idle t c prepend (r ∷ rs) s h (a, as') =
      rw (w.tells_rule s t c r h, insert_unique)
        (rw (a, insert_unique_by) (insert_all-idle t c prepend rs s h as'))

  insert_entries-idle :
      (t : Text) (prepend : Bool) (rs : List Rule) (es : List Text) (s : S)
      → AllThere ipt v w s t es
      → EntriesHave ipt v w s t rs es
      → insert_entries ipt t prepend rs es s ≡ (s, ok tt)
  unfolding insert_entries
  insert_entries-idle t prepend rs [] s h a = refl
  insert_entries-idle t prepend rs (e ∷ es) s (h, hs) (a, as') =
      rw (insert_all-idle t e prepend rs s h a) (insert_entries-idle t prepend rs es s hs as')

  pub setup-idle : (c : Chain) (s : S) → IsSetUp ipt v w c s → setup ipt c s ≡ (s, ok tt)
  unfolding setup
  setup-idle c s u =
      rw
        (
          ensure_chain-idle c.table c.name s u.there,
          insert_all-idle c.table c.name false c.rules s u.there u.own_rules,
        )
        (insert_entries-idle c.table c.prepend_entry (jumps c.name c.entry_rules) c.entry_chains s
          u.entries_there u.entries)

  check_all-passes :
      (s : S) (t c : Text) (rs : List Rule)
      → v.chain s t c ≡ true
      → HasAll ipt v w s t c rs
      → check_all ipt s t c rs ≡ true
  unfolding check_all
  check_all-passes s t c [] h a = refl
  check_all-passes s t c (r ∷ rs) h (a, as') =
      rw (check_all-passes s t c rs h as', w.tells_rule s t c r h) a

  check_entries-passes :
      (s : S) (t : Text) (rs : List Rule) (es : List Text)
      → AllThere ipt v w s t es
      → EntriesHave ipt v w s t rs es
      → check_entries ipt s t rs es ≡ true
  unfolding check_entries
  check_entries-passes s t rs [] h a = refl
  check_entries-passes s t rs (e ∷ es) (h, hs) (a, as') =
      rw (check_all-passes s t e rs h a) (check_entries-passes s t rs es hs as')

  pub check-passes : (c : Chain) (s : S) → IsSetUp ipt v w c s → check ipt c s ≡ ok tt
  unfolding check check_by
  check-passes c s u =
      rw (w.tells_chain s c.table c.name, check)
        (rw (u.there, check_by)
          (rw
            (
              check_all-passes s c.table c.name c.rules u.there u.own_rules,
              check_entries-passes s c.table (jumps c.name c.entry_rules) c.entry_chains
                  u.entries_there u.entries,
            )
            refl))

  -- Over a working iptables that has the chain's entry chains, `setup` succeeds, and nothing that was
  -- there is missing; then the chain is there with all its rules, and each entry chain with the entry
  -- rules, `check` passes, and a second `setup` succeeds and leaves the state as it is.
  pub setup_idempotent :
      (c : Chain) (s : S)
      → AllThere ipt v w s c.table c.entry_chains
      → (s' : S) × (setup ipt c s ≡ (s', ok tt))
        × IsSetUp ipt v w c s'
        × Grows v s s'
        × (check ipt c s' ≡ ok tt)
        × (setup ipt c s' ≡ (s', ok tt))
  setup_idempotent c s h =
      let (s', made, u, g) = setup-ok ipt v w c s h in
      (s', made, u, g, check-passes c s' u, setup-idle c s' u)
