-- ===== src/Portmap/Chain/Settled.antt =====
-- Steps over iptables that need not be made twice, and their sequences.
use containerz_plugin.Common.{◌then◌, ◌≡◌, refl, List, [], ◌∷◌, ok, Text}
use containerz_plugin.Portmap.Chain.{Rule, Ipt, Chain, Outcome, jumps, setup}
use containerz_plugin.Portmap.Chain.Working.{
  View, Grows, IsWorking, EntriesHave, AllThere, IsSetUp, Grows-refl, Grows-trans, HasAll-Grows,
  AllThere-Grows, setup-ok,
}
use containerz_plugin.Portmap.Chain.Idempotent.{setup-idle}

-- The step succeeds and removes nothing; from then on, as long as nothing is removed, it succeeds and
-- changes nothing.
pub record Settled {S : Type 0} (v : View S) (f : S → Outcome S) (s : S) : Type 0 where
  pub after : S
  pub made : f s ≡ (after, ok tt)
  pub grown : Grows v s after
  pub idle : (s' : S) → Grows v after s' → f s' ≡ (s', ok tt)

module _ {S : Type 0} (ipt : Ipt S) (v : View S) (w : IsWorking ipt v) where
  EntriesHave-Grows :
      (s s' : S) (t : Text) (rs : List Rule) (es : List Text)
      → Grows v s s'
      → EntriesHave ipt v w s t rs es
      → EntriesHave ipt v w s' t rs es
  EntriesHave-Grows s s' t rs [] g h = tt
  EntriesHave-Grows s s' t rs (e ∷ es) g (h, hs) =
      (HasAll-Grows ipt v w s s' t e rs g h, EntriesHave-Grows s s' t rs es g hs)

  pub IsSetUp-Grows :
      (c : Chain) (s s' : S) → Grows v s s' → IsSetUp ipt v w c s → IsSetUp ipt v w c s'
  IsSetUp-Grows c s s' g u = record {
    there = g.chains c.table c.name u.there;
    own_rules = HasAll-Grows ipt v w s s' c.table c.name c.rules g u.own_rules;
    entries_there = AllThere-Grows ipt v w s s' c.table c.entry_chains g u.entries_there;
    entries =
        EntriesHave-Grows s s' c.table (jumps c.name c.entry_rules) c.entry_chains g u.entries;
  }

  -- A chain is set up, and stays so.
  pub setup-Settled :
      (c : Chain) (s : S)
      → AllThere ipt v w s c.table c.entry_chains
      → (t : Settled v (setup ipt c) s) × IsSetUp ipt v w c t.after
  setup-Settled c s h =
      let (s', made, u, g) = setup-ok ipt v w c s h in
      (
        record {
          after = s';
          made = made;
          grown = g;
          idle = λ s'' g'. setup-idle ipt v w c s'' (IsSetUp-Grows c s' s'' g' u);
        },
        u,
      )

  -- A step that does nothing.
  pub idle-Settled : (s : S) → Settled v (λ (s : S). (s, ok tt)) s
  idle-Settled s = record {
    after = s;
    made = refl;
    grown = Grows-refl ipt v w s;
    idle = λ s' g. refl;
  }

  -- One step behind another, at the state that the other leaves.
  pub then-Settled :
      (f g : S → Outcome S) (s : S) (a : Settled v f s) (b : Settled v g a.after)
      → (t : Settled v (λ (s : S). f s then g) s) × (b.after ≡ t.after)
  then-Settled f g s a b = (
    record {
      after = b.after;
      made = rw a.made b.made;
      grown = Grows-trans ipt v w s a.after b.after a.grown b.grown;
      idle =
          λ s' h. rw (a.idle s' (Grows-trans ipt v w a.after b.after s' b.grown h)) (b.idle s' h);
    },
    refl,
  )
