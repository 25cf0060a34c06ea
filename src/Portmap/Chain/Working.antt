-- ===== src/Portmap/Chain/Working.antt =====
-- A working iptables: what its operations do, and that the set-up of a chain succeeds over it.
use containerz_plugin.Common.{
  ◌≡◌, inl, inr, refl, ap, Bool, true, false, List, [], ◌∷◌, All, ok, Text, Bool-cases,
}
use containerz_plugin.Portmap.Chain.{
  Rule, Ipt, Chain, jumps, ensured, ensure_chain_by, ensure_chain, insert_unique_by, insert_unique,
  insert_all, insert_entries, setup,
}

-- What is there: chains, and rules of chains.
pub record View (S : Type 0) : Type 0 where
  pub chain : S → Text → Text → Bool
  pub has : S → Text → Text → Rule → Bool

-- Nothing that was there is missing.
pub record Grows {S : Type 0} (v : View S) (s s' : S) : Type 0 where
  pub chains : (t c : Text) → v.chain s t c ≡ true → v.chain s' t c ≡ true
  pub rules : (t c : Text) (r : Rule) → v.has s t c r ≡ true → v.has s' t c r ≡ true

-- What iptables does where it does not fail: it tells which chains are there, and which rules a chain
-- has; it creates a chain that is missing, and adds a rule to a chain, and removes nothing.
pub record IsWorking {S : Type 0} (ipt : Ipt S) (v : View S) : Type 0 where
  pub tells_chain : (s : S) (t c : Text) → ipt.chain_exists s t c ≡ ok (v.chain s t c)
  pub tells_rule :
      (s : S) (t c : Text) (r : Rule)
      → v.chain s t c ≡ true
      → ipt.exists s t c r ≡ ok (v.has s t c r)
  pub creates :
      (s : S) (t c : Text)
      → v.chain s t c ≡ false
      → (s' : S) × (ipt.new_chain s t c ≡ (s', ok tt)) × (v.chain s' t c ≡ true) × Grows v s s'
  pub inserts :
      (s : S) (t c : Text) (r : Rule)
      → v.chain s t c ≡ true
      → (s' : S) × (ipt.insert s t c r ≡ (s', ok tt)) × (v.has s' t c r ≡ true) × Grows v s s'
  pub appends :
      (s : S) (t c : Text) (r : Rule)
      → v.chain s t c ≡ true
      → (s' : S) × (ipt.append s t c r ≡ (s', ok tt)) × (v.has s' t c r ≡ true) × Grows v s s'

module _ {S : Type 0} (ipt : Ipt S) (v : View S) (w : IsWorking ipt v) where
  -- The chain is there with all the rules.
  abbrev pub HasAll : S → Text → Text → List Rule → Type 0
  HasAll s t c rs = All (λ (r : Rule). v.has s t c r ≡ true) rs

  abbrev pub EntriesHave : S → Text → List Rule → List Text → Type 0
  EntriesHave s t rs es = All (λ (e : Text). HasAll s t e rs) es

  abbrev pub AllThere : S → Text → List Text → Type 0
  AllThere s t es = All (λ (e : Text). v.chain s t e ≡ true) es

  pub record IsSetUp (c : Chain) (s : S) : Type 0 where
    pub there : v.chain s c.table c.name ≡ true
    pub own_rules : HasAll s c.table c.name c.rules
    pub entries_there : AllThere s c.table c.entry_chains
    pub entries : EntriesHave s c.table (jumps c.name c.entry_rules) c.entry_chains

  pub Grows-refl : (s : S) → Grows v s s
  Grows-refl s = record { chains = λ t c h. h; rules = λ t c r h. h }

  pub Grows-trans : (s1 s2 s3 : S) → Grows v s1 s2 → Grows v s2 s3 → Grows v s1 s3
  Grows-trans s1 s2 s3 g h = record {
    chains = λ t c e. h.chains t c (g.chains t c e);
    rules = λ t c r e. h.rules t c r (g.rules t c r e);
  }

  pub HasAll-Grows :
      (s s' : S) (t c : Text) (rs : List Rule) → Grows v s s' → HasAll s t c rs → HasAll s' t c rs
  HasAll-Grows s s' t c [] g h = tt
  HasAll-Grows s s' t c (r ∷ rs) g (h, hs) = (g.rules t c r h, HasAll-Grows s s' t c rs g hs)

  pub AllThere-Grows :
      (s s' : S) (t : Text) (es : List Text) → Grows v s s' → AllThere s t es → AllThere s' t es
  AllThere-Grows s s' t [] g h = tt
  AllThere-Grows s s' t (e ∷ es) g (h, hs) = (g.chains t e h, AllThere-Grows s s' t es g hs)

  -- Each step succeeds, at a state that has grown and has what the step is for.
  ensure_chain-ok :
      (t c : Text) (s : S)
      → (s' : S) × (ensure_chain ipt t c s ≡ (s', ok tt)) × (v.chain s' t c ≡ true) × Grows v s s'
  unfolding ensure_chain ensure_chain_by ensured
  ensure_chain-ok t c s = elim (Bool-cases (v.chain s t c)) [
    | inl e ↦
        (s, rw (w.tells_chain s t c, ensure_chain) (rw (e, ensure_chain_by) refl), e, Grows-refl s)
    | inr e ↦
        let (s', made, there, g) = w.creates s t c e in
        (
          s',
          rw (w.tells_chain s t c, ensure_chain) (rw (e, ensure_chain_by) (ap ensured made)),
          there,
          g,
        )
  ]

  insert_unique-ok :
      (t c : Text) (prepend : Bool) (r : Rule) (s : S)
      → v.chain s t c ≡ true
      → (s' : S) × (insert_unique ipt t c prepend r s ≡ (s', ok tt))
        × (v.has s' t c r ≡ true)
        × Grows v s s'
  unfolding insert_unique insert_unique_by
  insert_unique-ok t c prepend r s h = elim (Bool-cases (v.has s t c r)) [
    | inl e ↦ (
      s,
      rw (w.tells_rule s t c r h, insert_unique) (rw (e, insert_unique_by) refl),
      e,
      Grows-refl s,
    )
    | inr e ↦ added prepend e
  ]
    where
      added :
          (p : Bool)
          → v.has s t c r ≡ false
          → (s' : S) × (insert_unique ipt t c p r s ≡ (s', ok tt))
            × (v.has s' t c r ≡ true)
            × Grows v s s'
      added true e =
          let (s', made, has, g) = w.inserts s t c r h in
          (
            s',
            rw (w.tells_rule s t c r h, insert_unique) (rw (e, insert_unique_by) (rw made refl)),
            has,
            g,
          )
      added false e =
          let (s', made, has, g) = w.appends s t c r h in
          (
            s',
            rw (w.tells_rule s t c r h, insert_unique) (rw (e, insert_unique_by) (rw made refl)),
            has,
            g,
          )

  insert_all-ok :
      (t c : Text) (prepend : Bool) (rs : List Rule) (s : S)
      → v.chain s t c ≡ true
      → (s' : S) × (insert_all ipt t c prepend rs s ≡ (s', ok tt)) × HasAll s' t c rs × Grows v s s'
  unfolding insert_all
  insert_all-ok t c prepend [] s h = (s, refl, tt, Grows-refl s)
  insert_all-ok t c prepend (r ∷ rs) s h =
      let (s1, made, has, g) = insert_unique-ok t c prepend r s h in
      let (s2, rest, all, g2) = insert_all-ok t c prepend rs s1 (g.chains t c h) in
      (s2, rw (made, insert_all) rest, (g2.rules t c r has, all), Grows-trans s s1 s2 g g2)

  insert_entries-ok :
      (t : Text) (prepend : Bool) (rs : List Rule) (es : List Text) (s : S)
      → AllThere s t es
      → (s' : S) × (insert_entries ipt t prepend rs es s ≡ (s', ok tt))
        × EntriesHave s' t rs es
        × Grows v s s'
  unfolding insert_entries
  insert_entries-ok t prepend rs [] s h = (s, refl, tt, Grows-refl s)
  insert_entries-ok t prepend rs (e ∷ es) s (h, hs) =
      let (s1, made, has, g) = insert_all-ok t e prepend rs s h in
      let (s2, rest, all, g2) =
        insert_entries-ok t prepend rs es s1 (AllThere-Grows s s1 t es g hs) in
      (
        s2,
        rw (made, insert_entries) rest,
        (HasAll-Grows s1 s2 t e rs g2 has, all),
        Grows-trans s s1 s2 g g2,
      )

  -- Over a working iptables that has the entry chains, `setup` succeeds, and removes nothing; then the
  -- chain is there with its rules, and each entry chain has the entry rules.
  pub setup-ok :
      (c : Chain) (s : S)
      → AllThere s c.table c.entry_chains
      → (s' : S) × (setup ipt c s ≡ (s', ok tt)) × IsSetUp c s' × Grows v s s'
  unfolding setup
  setup-ok c s h =
      let (s1, made1, there, g1) = ensure_chain-ok c.table c.name s in
      let (s2, made2, own, g2) = insert_all-ok c.table c.name false c.rules s1 there in
      let h2 = AllThere-Grows s s2 c.table c.entry_chains (Grows-trans s s1 s2 g1 g2) h in
      let (s3, made3, entries, g3) =
        insert_entries-ok c.table c.prepend_entry (jumps c.name c.entry_rules) c.entry_chains s2
          h2 in
      (
        s3,
        rw (made1, made2) made3,
        record {
          there = g3.chains c.table c.name (g2.chains c.table c.name there);
          own_rules = HasAll-Grows s2 s3 c.table c.name c.rules g3 own;
          entries_there = AllThere-Grows s2 s3 c.table c.entry_chains g3 h2;
          entries = entries;
        },
        Grows-trans s s2 s3 (Grows-trans s s1 s2 g1 g2) g3,
      )
