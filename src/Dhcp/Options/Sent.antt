-- ===== src/Dhcp/Options/Sent.antt =====
-- What `prepareOptions` sends: the texts of the entries that provide options, and the codes requested.
use containerz_plugin.Common.{
  ℕ, ◌≡◌, refl, ap, ◌∙◌, Bool, true, false, ◌&&◌, ◌||◌, not, ◌==◌, List, [], ◌∷◌, ◌++◌, All, arith,
  Result, ok, err, ◌>>=◌, >>=-eq-ok, Text, text_eq, if◌then◌else◌, split_on,
}
use containerz_plugin.Dhcp.Options.{
  ProvideOption, RequestOption, DhcpOption, OptionError, coded, arg_pairs, provided, skips_default,
  request_option, requested, prepare_options, option_router, option_subnet_mask,
}
use containerz_plugin.Dhcp.Options.Provided.{OfSome, Provides, provided-Provides}

abbrev pub has_code : ℕ → List ℕ → Bool
has_code u [] = false
has_code u (c ∷ cs) = c == u || has_code u cs

abbrev pub is_code : ℕ → Result OptionError ℕ → Bool
is_code u (err e) = false
is_code u (ok c) = c == u

abbrev pub asked_by : ℕ → Text → Bool
asked_by u t = not (text_eq t []) && is_code u (coded t)

-- Whether an entry requests the code, by a name that is not empty.
abbrev pub asks : ℕ → List RequestOption → Bool
asks u [] = false
asks u (r ∷ rs) = asked_by u r.option || asks u rs

-- What the code relies on of `OptionCodeList.Add`: the code is in the list behind it, and no other is
-- new or lost.
abbrev pub IsAdd : (List ℕ → ℕ → List ℕ) → Type 0
IsAdd add = (cs : List ℕ) (c u : ℕ) → has_code u (add cs c) ≡ (c == u || has_code u cs)

module _ (add_code : List ℕ → ℕ → List ℕ) (adds : IsAdd add_code) where
  requested-asks :
      (rs : List RequestOption) (acc : List ℕ) {cs : List ℕ}
      → requested add_code acc rs ≡ ok cs
      → (u : ℕ) → has_code u cs ≡ (asks u rs || has_code u acc)
  unfolding requested
  requested-asks [] acc {cs} h u = let e : cs ≡ acc = cc in ap (has_code u) e
  requested-asks (r ∷ rs) acc {cs} h u =
      from (text_eq r.option []) refl h (requested-asks rs acc)
        (λ c k. requested-asks rs (add_code acc c) k)
    where
      turned :
          (c : ℕ) (w x y : Bool)
          → w ≡ (c == u)
          → has_code u cs ≡ (x || (c == u || y))
          → has_code u cs ≡ ((w || x) || y)
      turned c w x y f e = ground arith

      from :
          (b : Bool)
          → text_eq r.option [] ≡ b
          → (elim b [
            | true ↦ requested add_code acc rs
            | false ↦ coded r.option >>= λ c. requested add_code (add_code acc c) rs
          ])
            ≡ ok cs
          → (requested add_code acc rs ≡ ok cs
              → (v : ℕ) → has_code v cs ≡ (asks v rs || has_code v acc))
          → ((c : ℕ)
              → requested add_code (add_code acc c) rs ≡ ok cs
              → (v : ℕ) → has_code v cs ≡ (asks v rs || has_code v (add_code acc c)))
          → has_code u cs ≡ (
              (not (text_eq r.option []) && is_code u (coded r.option) || asks u rs)
              || has_code u acc)
      from true e g k1 k2 = rw e (k1 g u)
      from false e g k1 k2 =
          let (c, h1, g1) = >>=-eq-ok (coded r.option) _ g in
          rw e (
            turned c (is_code u (coded r.option)) (asks u rs) (has_code u acc) (ap (is_code u) h1)
              (k2 c g1 u ∙ ap (λ x. asks u rs || x) (adds acc c u)))

  -- When `prepareOptions` succeeds, it sends texts of at most 255 bytes, and behind them, if any code
  -- is requested, one list of codes. Each text is the value of an entry that provides the option, or
  -- that of the entry's argument; the value of each entry is sent, if it is not empty, and that of its
  -- argument, if it is given. The codes are those of the entries that request one, with the router and
  -- the subnet mask unless an entry skips them. `OptionCodeList.Add` adds a code and loses none.
  pub prepare_options-Sent :
      (cni_args : Text) (provide : List ProvideOption) (request : List RequestOption)
      (os : List DhcpOption)
      → prepare_options add_code cni_args provide request ≡ ok os
      → (texts : List DhcpOption) × (codes : List ℕ) × (os ≡ texts ++ request_option codes)
        × All (OfSome (arg_pairs (split_on 59 cni_args)) provide) texts
        × All (Provides (arg_pairs (split_on 59 cni_args)) texts) provide
        × ((u : ℕ)
            → has_code u codes ≡ (
                asks u request
                || (not (skips_default request)
                    && (option_subnet_mask == u || option_router == u))))
  unfolding prepare_options
  prepare_options-Sent cni_args provide request os h =
      let (texts, h1, k1) = >>=-eq-ok (provided (arg_pairs (split_on 59 cni_args)) provide) _ h in
      let (asked, h2, k2) = >>=-eq-ok (requested add_code [] request) _ k1 in
      let (a, b) = provided-Provides (arg_pairs (split_on 59 cni_args)) provide h1 in
      (
        texts,
        if skips_default request
            then asked
            else add_code (add_code asked option_router) option_subnet_mask,
        cc,
        a,
        b,
        λ u. with_defaults u (skips_default request) asked (requested-asks request [] h2 u),
      )
    where
      with_defaults :
          (u : ℕ) (skip : Bool) (asked : List ℕ)
          → has_code u asked ≡ (asks u request || false)
          → has_code u
              (if skip then asked else add_code (add_code asked option_router) option_subnet_mask)
            ≡ (asks u request || (not skip && (option_subnet_mask == u || option_router == u)))
      with_defaults u true asked e = e
      with_defaults u false asked e =
          let x = adds asked option_router u in
          let y = adds (add_code asked option_router) option_subnet_mask u in ground arith
