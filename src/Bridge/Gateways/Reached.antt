-- ===== src/Bridge/Gateways/Reached.antt =====
-- How the addresses change the routes and the flags of their families.
use mathlib.Core.List.{map-append}
use containerz_plugin.Common.{
  All-append, ◌≡◌, refl, sym, ap, subst, ◌∙◌, ◌≤◌, ◌+◌, Bool, true, false, ◌||◌, not, List, [], ◌∷◌,
  ◌++◌, map, append-nil, append_assoc, ℕ, Result, ok, err, if◌then◌else◌, Text, text_eq, All, arith,
}
use containerz_plugin.Net.{Ip, IpNet}
use containerz_plugin.Bridge.Addresses.{Family, family_v4, family_v6}
use containerz_plugin.Bridge.Gateways.{
  IpCfg, Route, GatewayError, default_net, family_of, has_default, Progress, info,
}

abbrev pub same_family : Family → Family → Bool
same_family family_v4 family_v4 = true
same_family family_v6 family_v6 = true
same_family _ _ = false

abbrev pub is_of : Family → Result GatewayError Family → Bool
is_of f (err e) = false
is_of f (ok g) = same_family g f

-- Whether an address is of this family.
abbrev pub among : Family → List IpCfg → Bool
among f [] = false
among f (c ∷ cs) = is_of f (family_of c.address.ip) || among f cs

abbrev pub default_route : Family × Ip → Route
default_route (f, g) = record { dst = default_net f; gw = g }

abbrev pub count : Family → List (Family × Ip) → ℕ
count f [] = 0
count f ((g, _) ∷ es) = (if same_family g f then 1 else 0) + count f es

abbrev pub found : Family → Progress → Bool
found f p = (info f p).default_route_found

abbrev pub bit : Bool → ℕ
bit true = 1
bit false = 0

pub or_right : (a b : Bool) → b ≡ true → (a || b) ≡ true
or_right a b h = ground arith

-- Flags of the families before and behind a step that sets the one of `f`.
abbrev pub Raised : Family → Family → (Family → Bool) → (Family → Bool) → Type 0
Raised f h w v = v h ≡ (if same_family f h then true else w h)

pub bit-Raised : (f h : Family) (w v : Family → Bool) → Raised f h w v → bit (w h) ≤ bit (v h)
bit-Raised family_v4 family_v4 w v e = ground arith
bit-Raised family_v4 family_v6 w v e = ground arith
bit-Raised family_v6 family_v4 w v e = ground arith
bit-Raised family_v6 family_v6 w v e = ground arith

pub count-Raised :
    (f h : Family) (g : Ip) (w v : Family → Bool)
    → w f ≡ false
    → Raised f h w v
    → count h ((f, g) ∷ []) + bit (w h) ≤ bit (v h)
count-Raised family_v4 family_v4 g w v z e = ground arith
count-Raised family_v4 family_v6 g w v z e = ground arith
count-Raised family_v6 family_v4 g w v z e = ground arith
count-Raised family_v6 family_v6 g w v z e = ground arith

-- What a flag stands for, where that holds for `f` behind the step.
pub flag-Raised :
    (f h : Family) (w v d : Family → Bool)
    → (w f || d f) ≡ true
    → Raised f h w v
    → v h ≡ true
    → (w h || d h) ≡ true
flag-Raised family_v4 family_v4 w v d y e x = y
flag-Raised family_v4 family_v6 w v d y e x = ground arith
flag-Raised family_v6 family_v4 w v d y e x = ground arith
flag-Raised family_v6 family_v6 w v d y e x = y

module _ (print_net : IpNet → Text) where
  -- Whether a route leads to where the default routes of a family lead, through any gateway.
  abbrev pub is_routed : Family → List Route → Bool
  is_routed f [] = false
  is_routed f (r ∷ rs) = text_eq (print_net (default_net f)) (print_net r.dst) || is_routed f rs

  -- The routes behind the call: those of before, and at most one new default route for each family,
  -- only where there was none; each family of the addresses is routed.
  pub record Defaults (cs : List IpCfg) (rs : List Route) (out : List Route) : Type 0 where
    pub extra : List (Family × Ip)
    pub routes : out ≡ rs ++ map default_route extra
    pub once : (f : Family) → count f extra ≤ 1
    pub needed : All (λ (e : Family × Ip). has_default print_net e.0 rs ≡ false) extra
    pub each : (f : Family) → (not (among f cs) || is_routed f out) ≡ true

  has_default-append :
      (f : Family) (rs ts : List Route)
      → has_default print_net f (rs ++ ts)
        ≡ (has_default print_net f rs || has_default print_net f ts)
  unfolding has_default
  has_default-append f [] ts = refl
  has_default-append f (r ∷ rs) ts = ground (arith, has_default-append f rs ts)

  pub is_routed-append :
      (f : Family) (rs ts : List Route)
      → is_routed f (rs ++ ts) ≡ (is_routed f rs || is_routed f ts)
  is_routed-append f [] ts = refl
  is_routed-append f (r ∷ rs) ts = ground (arith, is_routed-append f rs ts)

  pub has_default-is_routed :
      (f : Family) (rs : List Route) → has_default print_net f rs ≡ true → is_routed f rs ≡ true
  unfolding has_default
  has_default-is_routed f [] h = cc
  has_default-is_routed f (r ∷ rs) h = ground (arith, has_default-is_routed f rs)

  count-append :
      (f : Family) (es ts : List (Family × Ip)) → count f (es ++ ts) ≡ count f es + count f ts
  count-append f [] ts = omega arith
  count-append f ((g, _) ∷ es) ts = ground (arith, count-append f es ts)

  -- What one address, and then a list of them, does to the routes.
  pub record Reached (p q : Progress) : Type 0 where
    pub extra : List (Family × Ip)
    pub routes : q.routes ≡ p.routes ++ map default_route extra
    pub counted : (f : Family) → count f extra + bit (found f p) ≤ bit (found f q)
    pub needed : All (λ (e : Family × Ip). has_default print_net e.0 p.routes ≡ false) extra
    pub routed : (f : Family) → found f q ≡ true → (found f p || is_routed f q.routes) ≡ true

  pub still : (p : Progress) → Reached p p
  still p = record {
    extra = [];
    routes = sym (append-nil p.routes);
    counted = λ f. omega arith;
    needed = tt;
    routed = λ f h. rw h refl;
  }

  has_default-before :
      (f : Family) (rs ts : List Route)
      → has_default print_net f (rs ++ ts) ≡ false
      → has_default print_net f rs ≡ false
  has_default-before f rs ts h = ground (arith, has_default-append f rs ts)

  needed-before :
      (rs ts : List Route) (es : List (Family × Ip))
      → All (λ (e : Family × Ip). has_default print_net e.0 (rs ++ ts) ≡ false) es
      → All (λ (e : Family × Ip). has_default print_net e.0 rs ≡ false) es
  needed-before rs ts [] h = tt
  needed-before rs ts ((f, g) ∷ es) (h, hs) =
      (has_default-before f rs ts h, needed-before rs ts es hs)

  is_routed-before :
      (f : Family) (rs ts out : List Route)
      → out ≡ rs ++ ts
      → is_routed f rs ≡ true
      → is_routed f out ≡ true
  is_routed-before f rs ts out e h = ap (is_routed f) e ∙ is_routed-append f rs ts ∙ rw h refl

  pub Reached-trans : (p q r : Progress) → Reached p q → Reached q r → Reached p r
  Reached-trans p q r h k = record {
    extra = h.extra ++ k.extra;
    routes =
        k.routes
        ∙ ap (λ t. t ++ map default_route k.extra) h.routes
        ∙ append_assoc p.routes (map default_route h.extra) (map default_route k.extra)
        ∙ ap (λ t. p.routes ++ t) (sym (map-append default_route h.extra k.extra));
    counted = λ f. sum f (h.counted f) (k.counted f);
    needed =
        All-append (λ (e : Family × Ip). has_default print_net e.0 p.routes ≡ false) h.extra k.extra
          h.needed
          (needed-before p.routes (map default_route h.extra) k.extra (
            subst (λ t. All (λ (e : Family × Ip). has_default print_net e.0 t ≡ false) k.extra)
              h.routes k.needed));
    routed = λ f e.
        carried f (k.routed f e) (h.routed f)
          (is_routed-before f q.routes (map default_route k.extra) r.routes k.routes);
  }
    where
      sum :
          (f : Family)
          → count f h.extra + bit (found f p) ≤ bit (found f q)
          → count f k.extra + bit (found f q) ≤ bit (found f r)
          → count f (h.extra ++ k.extra) + bit (found f p) ≤ bit (found f r)
      sum f a b = omega (arith, count-append f h.extra k.extra)

      carried :
          (f : Family)
          → (found f q || is_routed f r.routes) ≡ true
          → (found f q ≡ true → (found f p || is_routed f q.routes) ≡ true)
          → (is_routed f q.routes ≡ true → is_routed f r.routes ≡ true)
          → (found f p || is_routed f r.routes) ≡ true
      carried f a b c = ground arith
