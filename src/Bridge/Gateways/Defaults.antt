-- ===== src/Bridge/Gateways/Defaults.antt =====
-- The default routes: one for each family of the addresses, where the result has none.
use containerz_plugin.Common.{
  ◌≡◌, refl, sym, ap, subst, ◌∙◌, ◌≤◌, ◌+◌, Bool, true, false, ◌||◌, not, List, [], ◌∷◌, ◌++◌,
  append-nil, ok, >>=-eq-ok, if◌then◌else◌, Text, text_eq_iff, inl, inr, arith, Bool-cases,
}
use containerz_plugin.Net.{Ip, IpNet}
use containerz_plugin.Bridge.Addresses.{Family, family_v4, family_v6}
use containerz_plugin.Bridge.Gateways.{
  IpCfg, Route, default_net, family_of, gateway_of, has_default, with_default, Progress, with_cfg,
  calc_from, calc_gateways, start,
}
use containerz_plugin.Bridge.Gateways.Reached.{
  same_family, among, default_route, count, found, bit, or_right, bit-Raised, count-Raised,
  flag-Raised, is_routed, Defaults, has_default-is_routed, is_routed-append, Reached, still,
  Reached-trans,
}

module _ (print_net : IpNet → Text) where
  -- What `with_default` does, where a default gateway is asked for.
  data Defaulted (f : Family) (g : Ip) (was : Bool) (rs : List Route) (r : List Route × Bool)
      : Type 0 where
    kept : was ≡ true → r ≡ (rs, true) → Defaulted f g was rs r
    had : was ≡ false → has_default print_net f rs ≡ true → r ≡ (rs, true) → Defaulted f g was rs r
    added :
        was ≡ false
        → has_default print_net f rs ≡ false
        → r ≡ (rs ++ (default_route (f, g) ∷ []), true)
        → Defaulted f g was rs r

  with_default-Defaulted :
      (f : Family) (g : Ip) (was : Bool) (rs : List Route)
      → Defaulted f g was rs (with_default print_net f true g was rs)
  unfolding with_default
  with_default-Defaulted f g true rs = kept refl refl
  with_default-Defaulted f g false rs = elim (Bool-cases (has_default print_net f rs)) [
    | inl e ↦ rw e (had refl e refl)
    | inr e ↦ rw e (added refl e refl)
  ]

  abbrev defaulted : Family → Ip → Progress → List Route × Bool
  defaulted f g p = with_default print_net f true g (found f p) p.routes

  routes-with_cfg :
      (is_gw : Bool) (c : IpCfg) (f : Family) (g : Ip) (p : Progress)
      → (with_cfg print_net is_gw true c f g p).routes ≡ (defaulted f g p).0
  unfolding with_cfg
  routes-with_cfg is_gw c family_v4 g p = refl
  routes-with_cfg is_gw c family_v6 g p = refl

  found-with_cfg :
      (is_gw : Bool) (c : IpCfg) (f h : Family) (g : Ip) (p : Progress)
      → found h (with_cfg print_net is_gw true c f g p)
        ≡ (if same_family f h then (defaulted f g p).1 else found h p)
  unfolding with_cfg
  found-with_cfg is_gw c family_v4 family_v4 g p = refl
  found-with_cfg is_gw c family_v4 family_v6 g p = refl
  found-with_cfg is_gw c family_v6 family_v4 g p = refl
  found-with_cfg is_gw c family_v6 family_v6 g p = refl

  is_routed-default :
      (f : Family) (g : Ip) (rs : List Route)
      → is_routed print_net f (rs ++ (default_route (f, g) ∷ [])) ≡ true
  is_routed-default f g rs =
      let t = (text_eq_iff (print_net (default_net f)) (print_net (default_net f))).1 refl in
      is_routed-append print_net f rs (default_route (f, g) ∷ [])
      ∙ rw t (or_right (is_routed print_net f rs) true refl)

  -- A step from the routes and the flags that it leaves.
  step-Reached :
      (f : Family) (g : Ip) (p q : Progress) (r : List Route × Bool)
      → Defaulted f g (found f p) p.routes r
      → q.routes ≡ r.0
      → ((h : Family) → found h q ≡ (if same_family f h then r.1 else found h p))
      → Reached print_net p q
  step-Reached f g p q r (kept w t) e i = record {
    extra = [];
    routes = e ∙ ap (λ x. x.0) t ∙ sym (append-nil p.routes);
    counted = λ h.
        let b = bit-Raised f h (λ k. found k p) (λ k. found k q) (i h ∙ rw t refl) in omega arith;
    needed = tt;
    routed = λ h.
        flag-Raised f h (λ k. found k p) (λ k. found k q) (λ k. is_routed print_net k q.routes)
          (rw w refl) (i h ∙ rw t refl);
  }
  step-Reached f g p q r (had w d t) e i = record {
    extra = [];
    routes = e ∙ ap (λ x. x.0) t ∙ sym (append-nil p.routes);
    counted = λ h.
        let b = bit-Raised f h (λ k. found k p) (λ k. found k q) (i h ∙ rw t refl) in omega arith;
    needed = tt;
    routed = λ h.
        flag-Raised f h (λ k. found k p) (λ k. found k q) (λ k. is_routed print_net k q.routes)
          (or_right (found f p) (is_routed print_net f q.routes) (
            ap (is_routed print_net f) (e ∙ ap (λ x. x.0) t)
            ∙ has_default-is_routed print_net f p.routes d))
          (i h ∙ rw t refl);
  }
  step-Reached f g p q r (added w d t) e i = record {
    extra = (f, g) ∷ [];
    routes = e ∙ ap (λ x. x.0) t;
    counted = λ h. count-Raised f h g (λ k. found k p) (λ k. found k q) w (i h ∙ rw t refl);
    needed = (d, tt);
    routed = λ h.
        flag-Raised f h (λ k. found k p) (λ k. found k q) (λ k. is_routed print_net k q.routes)
          (or_right (found f p) (is_routed print_net f q.routes)
            (ap (is_routed print_net f) (e ∙ ap (λ x. x.0) t) ∙ is_routed-default f g p.routes))
          (i h ∙ rw t refl);
  }

  with_cfg-Reached :
      (is_gw : Bool) (c : IpCfg) (f : Family) (g : Ip) (p : Progress)
      → Reached print_net p (with_cfg print_net is_gw true c f g p)
  with_cfg-Reached is_gw c f g p =
      step-Reached f g p (with_cfg print_net is_gw true c f g p) (defaulted f g p)
        (with_default-Defaulted f g (found f p) p.routes) (routes-with_cfg is_gw c f g p)
        (λ h. found-with_cfg is_gw c f h g p)

  true-with_default :
      (f : Family) (g : Ip) (was : Bool) (rs : List Route)
      → (with_default print_net f true g was rs).1 ≡ true
  true-with_default f g was rs = flag (with_default-Defaulted f g was rs)
    where
      flag :
          Defaulted f g was rs (with_default print_net f true g was rs)
          → (with_default print_net f true g was rs).1 ≡ true
      flag (kept _ e) = ap (λ x. x.1) e
      flag (had _ _ e) = ap (λ x. x.1) e
      flag (added _ _ e) = ap (λ x. x.1) e

  flags-with_cfg :
      (is_gw : Bool) (c : IpCfg) (f h : Family) (g : Ip) (p : Progress)
      → found h (with_cfg print_net is_gw true c f g p) ≡ (found h p || same_family f h)
  flags-with_cfg is_gw c f h g p =
      found-with_cfg is_gw c f h g p ∙ rw (true-with_default f g (found f p) p.routes) (flag f h)
    where
      flag :
          (f h : Family)
          → (if same_family f h then true else found h p) ≡ (found h p || same_family f h)
      flag family_v4 family_v4 = ground arith
      flag family_v4 family_v6 = ground arith
      flag family_v6 family_v4 = ground arith
      flag family_v6 family_v6 = ground arith

  -- The whole loop.
  record Looped (cs : List IpCfg) (p q : Progress) : Type 0 where
    reached : Reached print_net p q
    flags : (f : Family) → found f q ≡ (found f p || among f cs)

  calc_from-Looped :
      (is_gw : Bool) (cs : List IpCfg) (p : Progress) {q : Progress}
      → calc_from print_net is_gw true cs p ≡ ok q
      → Looped cs p q
  unfolding calc_from
  calc_from-Looped is_gw [] p {q} h =
      let e : p ≡ q = cc in
      subst (Looped [] p) e (record { reached = still print_net p; flags = λ f. ground arith })
  calc_from-Looped is_gw (c ∷ cs) p {q} h =
      let (f, e, h1) = >>=-eq-ok (family_of c.address.ip) _ h in
      let (g, e1, h2) = >>=-eq-ok (gateway_of is_gw c) _ h1 in
      let next = with_cfg print_net is_gw true c f g p in
      let l = calc_from-Looped is_gw cs next h2 in
      record {
        reached = Reached-trans print_net p next q (with_cfg-Reached is_gw c f g p) l.reached;
        flags = λ k.
            l.flags k
            ∙ rw (flags-with_cfg is_gw c f k g p)
                (rw e (or_assoc (found k p) (same_family f k) (among k cs)));
      }
    where
      or_assoc : (x y z : Bool) → ((x || y) || z) ≡ (x || (y || z))
      or_assoc x y z = ground arith

-- `calcGateways`, where the gateway is the default one and the call succeeds: the routes are those of
-- before and then at most one default route for each family, added only where the routes of before
-- have none with a gateway; each family of the addresses is routed in the end.
pub calc_gateways-Defaults :
    (print_net : IpNet → Text) (is_gw : Bool) (cs : List IpCfg) (rs : List Route) (p : Progress)
    → calc_gateways print_net is_gw true cs rs ≡ ok p
    → Defaults print_net cs rs p.routes
unfolding calc_gateways
calc_gateways-Defaults print_net is_gw cs rs p h =
    let l = calc_from-Looped print_net is_gw cs (start rs) h in
    let r = l.reached in
    record {
      extra = r.extra;
      routes = r.routes;
      once = λ f. at_most f r.extra (found f (start rs)) (found f p) (unset f) (r.counted f);
      needed = r.needed;
      each = λ f.
          covered f (found f (start rs)) (found f p) (is_routed print_net f p.routes) (unset f)
            (l.flags f) (r.routed f);
    }
  where
    unset : (f : Family) → found f (start rs) ≡ false
    unset family_v4 = refl
    unset family_v6 = refl

    at_most :
        (f : Family) (es : List (Family × Ip)) (a b : Bool)
        → a ≡ false
        → count f es + bit a ≤ bit b
        → count f es ≤ 1
    at_most f es true b z h = cc
    at_most f es false true z h = omega arith
    at_most f es false false z h = omega arith

    covered :
        (f : Family) (a b c : Bool)
        → a ≡ false
        → b ≡ (a || among f cs)
        → (b ≡ true → (a || c) ≡ true)
        → (not (among f cs) || c) ≡ true
    covered f a b c z e k = ground arith
