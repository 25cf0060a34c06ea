-- ===== src/HostLocal/Config/Accepted.antt =====
-- What a configuration that is accepted has: sets of canonical ranges, none of which overlap.
use containerz_plugin.Common.{
  ℕ, ◌≤◌, ◌≡◌, ◌≢◌, ◌⊎◌, sym, ap, subst, Bool, true, false, ◌||◌, not, List, [], ◌∷◌, ◌++◌, Option,
  none, some, ltb, ok, >>=-eq-ok, guard-eq-ok, Text, All, arith,
}
use mathlib.Core.List.{cons-ne-nil}
use containerz_plugin.Net.{Ip}
use containerz_plugin.HostLocal.Range.{canonicalize_ip}
use containerz_plugin.HostLocal.RangeSet.{RangeSet, canonicalize_set, set_overlaps}
use containerz_plugin.HostLocal.RangeSet.Disjoint.{Disjoint, canonicalize_set_sound}
use containerz_plugin.HostLocal.Config.{
  IpamConfig, NetConf, ConfigError, first_ips, or_fail, unknown_ip, no_ipam, canonical_ips,
  single_range, as_config, canonical_sets, count_v4, count_v6, overlaps_later, some_overlap,
  checked_sets, env_ip, load_ipam_config,
}

-- Each set is what `Canonicalize` makes of the set at its place.
abbrev pub SetsOf : List RangeSet → List RangeSet → Type 0
SetsOf [] [] = Unit
SetsOf [] (_ ∷ _) = ⊥
SetsOf (_ ∷ _) [] = ⊥
SetsOf (s ∷ ss) (t ∷ ts) = (canonicalize_set s ≡ ok t) × SetsOf ss ts

-- Each address is what `canonicalizeIP` makes of the one at its place.
abbrev pub IpsOf : List Ip → List Ip → Type 0
IpsOf [] [] = Unit
IpsOf [] (_ ∷ _) = ⊥
IpsOf (_ ∷ _) [] = ⊥
IpsOf (a ∷ as') (b ∷ bs) = (canonicalize_ip a ≡ some b) × IpsOf as' bs

-- No set overlaps one behind it.
abbrev pub Separate : List RangeSet → Type 0
Separate [] = Unit
Separate (s ∷ ss) = All (λ t. set_overlaps s t ≡ false) ss × Separate ss

pub record Accepted (newer : Bool) (asked : List RangeSet) (sets : List RangeSet) : Type 0 where
  pub not_empty : sets ≢ []
  pub canonical : SetsOf asked sets
  pub each_disjoint : All Disjoint sets
  pub separate : Separate sets
  pub few : (newer ≡ true) ⊎ ((count_v4 sets ≤ 1) × (count_v6 sets ≤ 1))

as_config-ok :
    (s : RangeSet) {t : RangeSet}
    → as_config (canonicalize_set s) ≡ ok t
    → canonicalize_set s ≡ ok t
as_config-ok s h = ground arith

canonical_sets_lem :
    (ss : List RangeSet) {ts : List RangeSet}
    → canonical_sets ss ≡ ok ts
    → SetsOf ss ts × All Disjoint ts
unfolding canonical_sets
canonical_sets_lem [] {ts} h =
    let e : [] ≡ ts = cc in subst (λ u. SetsOf [] u × All Disjoint u) e (tt, tt)
canonical_sets_lem (s ∷ ss) {ts} h =
    let (t, h1, k1) = >>=-eq-ok (as_config (canonicalize_set s)) _ h in
    let (rest, h2, k2) = >>=-eq-ok (canonical_sets ss) _ k1 in
    let (ih, ds) = canonical_sets_lem ss h2 in
    let made = as_config-ok s h1 in
    let (_, _, _, d) = canonicalize_set_sound s made in
    let e : t ∷ rest ≡ ts = cc in
    subst (λ u. SetsOf (s ∷ ss) u × All Disjoint u) e ((made, ih), (d, ds))

overlaps_later-All :
    (p : RangeSet) (qs : List RangeSet)
    → overlaps_later p qs ≡ false
    → All (λ q. set_overlaps p q ≡ false) qs
unfolding overlaps_later
overlaps_later-All p [] h = tt
overlaps_later-All p (q ∷ qs) h = (ground arith, overlaps_later-All p qs (ground arith))

some_overlap-Separate : (ss : List RangeSet) → some_overlap ss ≡ false → Separate ss
unfolding some_overlap
some_overlap-Separate [] h = tt
some_overlap-Separate (s ∷ ss) h =
    (overlaps_later-All s ss (ground arith), some_overlap-Separate ss (ground arith))

SetsOf-not-nil : (s : RangeSet) (ss ts : List RangeSet) → SetsOf (s ∷ ss) ts → ts ≢ []
SetsOf-not-nil s ss [] h = absurd h
SetsOf-not-nil s ss (t ∷ ts) h = cons-ne-nil t ts

few_sets :
    (newer : Bool) (m n : ℕ)
    → (not (ltb 1 m || ltb 1 n) || newer) ≡ true
    → (newer ≡ true) ⊎ ((m ≤ 1) × (n ≤ 1))
few_sets newer m n h = ground arith

not_some : (b : Bool) → not b ≡ true → b ≡ false
not_some b h = ground arith

checked_sets-Accepted :
    (newer : Bool) (ss : List RangeSet) {ts : List RangeSet}
    → checked_sets newer ss ≡ ok ts
    → Accepted newer ss ts
unfolding checked_sets
checked_sets-Accepted newer [] h = cc
checked_sets-Accepted newer (s ∷ ss) {ts} h =
    let (us, h1, k1) = >>=-eq-ok (canonical_sets (s ∷ ss)) _ h in
    let (h2, k2) = guard-eq-ok (not (ltb 1 (count_v4 us) || ltb 1 (count_v6 us)) || newer) _ _ k1 in
    let (h3, k3) = guard-eq-ok (not (some_overlap us)) _ _ k2 in
    let (done, ds) = canonical_sets_lem (s ∷ ss) h1 in
    let e : us ≡ ts = cc in
    subst (Accepted newer (s ∷ ss)) e (record {
      not_empty = SetsOf-not-nil s ss us done;
      canonical = done;
      each_disjoint = ds;
      separate = some_overlap-Separate us (not_some _ h3);
      few = few_sets newer (count_v4 us) (count_v6 us) h2;
    })

or_fail-ok {ℓ} :
    {A : Type ℓ} (e : ConfigError) (o : Option A) {a : A} → or_fail e o ≡ ok a → o ≡ some a
or_fail-ok e none h = cc
or_fail-ok e (some b) h = cc

canonical_ips_lem : (as' : List Ip) {bs : List Ip} → canonical_ips as' ≡ ok bs → IpsOf as' bs
unfolding canonical_ips
canonical_ips_lem [] {bs} h = let e : [] ≡ bs = cc in subst (IpsOf []) e tt
canonical_ips_lem (a ∷ as') {bs} h =
    let (b, h1, k1) = >>=-eq-ok (or_fail unknown_ip (canonicalize_ip a)) _ h in
    let (rest, h2, k2) = >>=-eq-ok (canonical_ips as') _ k1 in
    let e : b ∷ rest ≡ bs = cc in
    subst (IpsOf (a ∷ as')) e
      (or_fail-ok unknown_ip (canonicalize_ip a) h1, canonical_ips_lem as' h2)

module _ (load_args : Text → Option Ip) (newer : Text → Bool) where
  -- A configuration that `LoadIPAMConfig` accepts has an IPAM section, and what it returns has the
  -- network's name and no single range. Its sets are not none; they are, set for set, the canonical
  -- form of the runtime's, the single range's and the configured ones, in this order; the ranges of
  -- each are disjoint, no set overlaps one behind it, and at most one is of each family unless the
  -- version is new enough. Its addresses are, one for one, the canonical form of those of CNI_ARGS, or
  -- else of the section, then of the arguments and the runtime.
  pub load_ipam_config-Accepted :
      (n : NetConf) (env_args : Text) (out : IpamConfig) (version : Text)
      → load_ipam_config load_args newer n env_args ≡ ok (out, version)
      → (c : IpamConfig) × (env : Ip) × (n.ipam ≡ some c)
        × (env_ip load_args newer env_args ≡ ok env)
        × (out.name ≡ n.name)
        × (out.range ≡ none)
        × (version ≡ n.cni_version)
        × Accepted
            (newer n.cni_version)
            (n.runtime_ranges ++ (single_range c.range ++ c.ranges))
            out.ranges
        × IpsOf (first_ips env c.ip_args ++ n.args_ips ++ n.runtime_ips) out.ip_args
  unfolding load_ipam_config
  load_ipam_config-Accepted n env_args out version h =
      let (c, h1, k1) = >>=-eq-ok (or_fail no_ipam n.ipam) _ h in
      let (env, h2, k2) = >>=-eq-ok (env_ip load_args newer env_args) _ k1 in
      let (ips, h3, k3) =
        >>=-eq-ok (canonical_ips (first_ips env c.ip_args ++ n.args_ips ++ n.runtime_ips)) _ k2 in
      let (sets, h4, k4) =
        >>=-eq-ok
          (checked_sets (newer n.cni_version)
            (n.runtime_ranges ++ (single_range c.range ++ c.ranges)))
          _ k3 in
      let made : record { range = none; name = n.name; ranges = sets; ip_args = ips } ≡ out = cc in
      let same : n.cni_version ≡ version = cc in
      (
        c,
        env,
        or_fail-ok no_ipam n.ipam h1,
        h2,
        sym (ap (λ (o : IpamConfig). o.name) made),
        sym (ap (λ (o : IpamConfig). o.range) made),
        sym same,
        subst (Accepted (newer n.cni_version) _) (ap (λ (o : IpamConfig). o.ranges) made)
            (checked_sets-Accepted (newer n.cni_version) _ h4),
        subst (IpsOf _) (ap (λ (o : IpamConfig). o.ip_args) made) (canonical_ips_lem _ h3),
      )
