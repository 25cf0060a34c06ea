-- ===== src/Dhcp/Options/Received.antt =====
-- The static routes of option 33 are read back as they were written.
use containerz_plugin.Common.{ℕ, ◌<◌, ◌≡◌, refl, List, [], ◌∷◌, length, arith}
use containerz_plugin.Net.{Ip}
use containerz_plugin.Dhcp.Options.{Route, classful_subnet, parse_routes}

-- Four bytes.
pub record Quad : Type 0 where
  pub b0 : ℕ
  pub b1 : ℕ
  pub b2 : ℕ
  pub b3 : ℕ

abbrev pub quad_ip : Quad → Ip
quad_ip q = q.b0 ∷ q.b1 ∷ q.b2 ∷ q.b3 ∷ []

-- RFC 2132, section 5.8: a destination and a router for each route, followed by other bytes.
abbrev pub encoded : List (Quad × Quad) → List ℕ → List ℕ
encoded [] tail = tail
encoded ((d, r) ∷ rs) tail = d.b0 ∷ d.b1 ∷ d.b2 ∷ d.b3 ∷ r.b0 ∷ r.b1 ∷ r.b2 ∷ r.b3 ∷ encoded rs tail

abbrev pub routed : List (Quad × Quad) → List Route
routed [] = []
routed ((d, r) ∷ rs) = record { dst = classful_subnet (quad_ip d); gw = quad_ip r } ∷ routed rs

parse_routes_short : (tail : List ℕ) → length tail < 8 → parse_routes tail ≡ []
unfolding parse_routes
parse_routes_short [] h = refl
parse_routes_short (a ∷ []) h = refl
parse_routes_short (a ∷ b ∷ []) h = refl
parse_routes_short (a ∷ b ∷ c ∷ []) h = refl
parse_routes_short (a ∷ b ∷ c ∷ d ∷ []) h = refl
parse_routes_short (a ∷ b ∷ c ∷ d ∷ e ∷ []) h = refl
parse_routes_short (a ∷ b ∷ c ∷ d ∷ e ∷ f ∷ []) h = refl
parse_routes_short (a ∷ b ∷ c ∷ d ∷ e ∷ f ∷ g ∷ []) h = refl
parse_routes_short (a ∷ b ∷ c ∷ d ∷ e ∷ f ∷ g ∷ k ∷ rest) h = absurd (omega arith)

-- `parseRoutes` reads back the routes that the option spells, each with the classful network of its
-- destination, and drops fewer than eight bytes behind them.
pub parse_routes-encoded :
    (rs : List (Quad × Quad)) (tail : List ℕ)
    → length tail < 8
    → parse_routes (encoded rs tail) ≡ routed rs
unfolding parse_routes
parse_routes-encoded [] tail h = parse_routes_short tail h
parse_routes-encoded ((d, r) ∷ rs) tail h = rw (parse_routes-encoded rs tail h)
