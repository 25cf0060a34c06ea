-- ===== src/Static/Loaded.antt =====
-- The addresses that `LoadIPAMConfig` of the static plugin returns.
use containerz_plugin.Common.{
  ℕ, ◌≡◌, ◌≤◌, ◌⊎◌, subst, Bool, true, false, ◌||◌, not, ltb, List, [], ◌∷◌, Option, none, some,
  All, ok, >>=-eq-ok, guard-eq-ok, Text, arith,
}
use containerz_plugin.Net.{Ip, IpNet}
use containerz_plugin.HostLocal.Range.{canonicalize_ip}
use containerz_plugin.Static.{
  Address, StaticConf, StaticError, EnvArgs, needed, missing_ipam, unknown_form, from_env,
  own_address, replaced, validated, count_family, load_static,
}

-- The address is what `canonicalizeIP` makes of one.
abbrev pub IsCanonized : Address → Type 0
IsCanonized a = (given : Ip) × (canonicalize_ip given ≡ some a.address.ip)

needed-ok {ℓ} :
    {A : Type ℓ} (e : StaticError) (o : Option A) {a : A} → needed e o ≡ ok a → o ≡ some a
needed-ok e none h = cc
needed-ok e (some b) h = cc

few_addresses :
    (newer : Bool) (m n : ℕ)
    → (not (ltb 1 m || ltb 1 n) || newer) ≡ true
    → (newer ≡ true) ⊎ ((m ≤ 1) × (n ≤ 1))
few_addresses newer m n h = ground arith

module _ (load_args : Text → Option EnvArgs) (parse_cidr : Text → Option (Ip × IpNet))
    (parse_ip : Text → Ip) (newer : Text → Bool) where
  validated-IsCanonized :
      (as' : List Address) {bs : List Address}
      → validated load_args parse_cidr parse_ip newer as' ≡ ok bs
      → All IsCanonized bs
  unfolding validated
  validated-IsCanonized [] {bs} h = let e : [] ≡ bs = cc in subst (All IsCanonized) e tt
  validated-IsCanonized (a ∷ as') {bs} h =
      let (p, h1, k1) = >>=-eq-ok (own_address load_args parse_cidr parse_ip newer a) _ h in
      let (c, h2, k2) = >>=-eq-ok (needed unknown_form (canonicalize_ip p.0)) _ k1 in
      let (rest, h3, k3) = >>=-eq-ok (validated load_args parse_cidr parse_ip newer as') _ k2 in
      let e : record a { address = record { ip = c; mask = p.1 } } ∷ rest ≡ bs = cc in
      subst (All IsCanonized) e
        ((p.0, needed-ok unknown_form (canonicalize_ip p.0) h2), validated-IsCanonized as' h3)

  -- Each address of a configuration that `LoadIPAMConfig` of the static plugin accepts is in
  -- canonical form, and, unless the version is new enough, at most one is of each family.
  pub load_static-IsCanonized :
      (n : StaticConf) (env_args : Text) (bs : List Address)
      → load_static load_args parse_cidr parse_ip newer n env_args ≡ ok bs
      → All IsCanonized bs
        × ((newer n.cni_version ≡ true)
            ⊎ ((count_family true bs ≤ 1) × (count_family false bs ≤ 1)))
  unfolding load_static
  load_static-IsCanonized n env_args bs h =
      let (given, h1, k1) = >>=-eq-ok (needed missing_ipam n.addresses) _ h in
      let (a1, h2, k2) =
        >>=-eq-ok (from_env load_args parse_cidr parse_ip newer env_args given) _ k1 in
      let (a2, h3, k3) =
        >>=-eq-ok (replaced load_args parse_cidr parse_ip newer n.args_ips a1) _ k2 in
      let (a3, h4, k4) =
        >>=-eq-ok (replaced load_args parse_cidr parse_ip newer n.runtime_ips a2) _ k3 in
      let (as', h5, k5) = >>=-eq-ok (validated load_args parse_cidr parse_ip newer a3) _ k4 in
      let (h6, k6) =
        guard-eq-ok
          (not (ltb 1 (count_family true as') || ltb 1 (count_family false as'))
            || newer n.cni_version)
          _ _ k5 in
      let e : as' ≡ bs = cc in
      subst
        (λ t.
          All IsCanonized t
          × ((newer n.cni_version ≡ true)
              ⊎ ((count_family true t ≤ 1) × (count_family false t ≤ 1))))
        e
        (
          validated-IsCanonized a3 h5,
          few_addresses (newer n.cni_version) (count_family true as') (count_family false as') h6,
        )
