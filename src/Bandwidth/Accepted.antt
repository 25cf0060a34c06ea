-- ===== src/Bandwidth/Accepted.antt =====
-- What the limits of a configuration that is accepted come to.
use containerz_plugin.Common.{
  ℕ, ◌/◌, ◌%◌, ◌^◌, ◌≡◌, ◌⊎◌, inl, inr, refl, subst, true, false, some, ok, >>=-eq-ok, leb, arith,
}
use containerz_plugin.Bandwidth.{
  BandwidthEntry, PluginConf, get_bandwidth, validate_rate_and_burst, validated, parse_config,
  Netlink, requested, is_limited, tbf_of, create_tbf,
}

module _ (buffer limit : ℕ → ℕ → ℕ) {S : Type 0} (nl : Netlink S) where
  -- A direction with neither rate nor burst is not limited; any other one is, by a filter with the
  -- rate and the burst of the configuration in whole bytes.
  pub data Direction (rate burst : ℕ) : Type 0 where
    free : rate ≡ 0 → burst ≡ 0 → is_limited rate burst ≡ false → Direction rate burst
    limited :
        is_limited rate burst ≡ true
        → ((link : ℕ) (s : S)
            → create_tbf buffer limit nl rate burst link s
              ≡ requested (
                  nl.add_tbf s (record {
                    link = link;
                    limit = limit (rate / 8) (burst / 8);
                    rate = rate / 8;
                    buffer = buffer (rate / 8) (burst / 8);
                  })))
        → Direction rate burst

  burst_fits :
      (rate burst : ℕ) → validate_rate_and_burst rate burst ≡ ok tt → burst / 8 % 2 ^ 32 ≡ burst / 8
  unfolding validate_rate_and_burst
  burst_fits rate burst h = ground arith

  validated_pair :
      (rate burst : ℕ)
      → validate_rate_and_burst rate burst ≡ ok tt
      → ((rate ≡ 0) × (burst ≡ 0)) ⊎ ((leb rate 0 ≡ false) × (leb burst 0 ≡ false))
  unfolding validate_rate_and_burst
  validated_pair rate burst h = ground arith

  validated-Direction :
      (rate burst : ℕ) → validate_rate_and_burst rate burst ≡ ok tt → Direction rate burst
  unfolding create_tbf tbf_of
  validated-Direction rate burst h = elim (validated_pair rate burst h) [
    | inl (r, b) ↦ free r b (ground arith)
    | inr (r, b) ↦
        limited (ground arith)
          (λ link s. rw (create_tbf, r) (rw (create_tbf, b) (rw (burst_fits rate burst h) refl)))
  ]

  validated_both :
      (b : BandwidthEntry)
      → validated (some b) ≡ ok tt
      → Direction b.ingress_rate b.ingress_burst × Direction b.egress_rate b.egress_burst
  validated_both b h =
      let (u, h1, h2) = >>=-eq-ok (validate_rate_and_burst b.ingress_rate b.ingress_burst) _ h in
      (
        validated-Direction b.ingress_rate b.ingress_burst h1,
        validated-Direction b.egress_rate b.egress_burst h2,
      )

  -- For a configuration that `parseConfig` accepts, with the limits `b`: a direction with neither
  -- rate nor burst is not limited, and any other one is, by a filter that `createTBF` requests with
  -- the rate and the burst in whole bytes, so that the conversion to 32 bits loses nothing.
  pub parse_config-Direction :
      (conf conf' : PluginConf) (b : BandwidthEntry)
      → parse_config conf ≡ ok conf'
      → get_bandwidth conf ≡ some b
      → Direction b.ingress_rate b.ingress_burst × Direction b.egress_rate b.egress_burst
  unfolding parse_config
  parse_config-Direction conf conf' b h e =
      let (u, h1, h2) = >>=-eq-ok (validated (get_bandwidth conf)) _ h in
      validated_both b (subst (λ o. validated o ≡ ok tt) e h1)
