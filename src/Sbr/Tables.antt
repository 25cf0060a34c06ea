-- ===== src/Sbr/Tables.antt =====
-- The search for a free routing table ends, at the first one from the candidate on.
use containerz_plugin.Common.{
  ℕ, zero, suc, ◌+◌, ◌≤◌, ◌<◌, ◌≡◌, refl, true, false, List, [], ◌∷◌, Option, some, length, arith,
  leb, if◌then◌else◌, inl, inr, Bool-cases,
}
use containerz_plugin.Sbr.{Rule, Route, rule_uses, route_uses, found_existing, get_next_table_id}

-- How many rules, and how many routes, are in tables from the given one on.
abbrev rules_from : ℕ → List Rule → ℕ
rules_from t [] = 0
rules_from t (r ∷ rs) = (if leb t r.table then 1 else 0) + rules_from t rs

abbrev routes_from : ℕ → List Route → ℕ
routes_from t [] = 0
routes_from t (r ∷ rs) = (if leb t r.table then 1 else 0) + routes_from t rs

rules_from-le : (t : ℕ) (rs : List Rule) → rules_from (t + 1) rs ≤ rules_from t rs
rules_from-le t [] = omega arith
rules_from-le t (r ∷ rs) = ground (arith, rules_from-le t rs)

routes_from-le : (t : ℕ) (rs : List Route) → routes_from (t + 1) rs ≤ routes_from t rs
routes_from-le t [] = omega arith
routes_from-le t (r ∷ rs) = ground (arith, routes_from-le t rs)

rule_uses-lt :
    (t : ℕ) (rs : List Rule) → rule_uses t rs ≡ true → rules_from (t + 1) rs < rules_from t rs
rule_uses-lt t [] h = cc
rule_uses-lt t (r ∷ rs) h = ground (arith, rule_uses-lt t rs, rules_from-le t rs)

route_uses-lt :
    (t : ℕ) (rs : List Route) → route_uses t rs ≡ true → routes_from (t + 1) rs < routes_from t rs
route_uses-lt t [] h = cc
route_uses-lt t (r ∷ rs) h = ground (arith, route_uses-lt t rs, routes_from-le t rs)

found_existing-lt :
    (t : ℕ) (rules : List Rule) (routes : List Route)
    → found_existing rules routes t ≡ true
    → rules_from (t + 1) rules + routes_from (t + 1) routes
      < rules_from t rules + routes_from t routes
unfolding found_existing
found_existing-lt t rules routes h = ground (
  arith,
  rule_uses-lt t rules,
  route_uses-lt t routes,
  rules_from-le t rules,
  routes_from-le t routes,
)

rules_from-length : (t : ℕ) (rs : List Rule) → rules_from t rs ≤ length rs
rules_from-length t [] = omega arith
rules_from-length t (r ∷ rs) = ground (arith, rules_from-length t rs)

routes_from-length : (t : ℕ) (rs : List Route) → routes_from t rs ≤ length rs
routes_from-length t [] = omega arith
routes_from-length t (r ∷ rs) = ground (arith, routes_from-length t rs)

-- The first table from the candidate on that no rule and no route is in.
pub record FirstFree (rules : List Rule) (routes : List Route) (candidate : ℕ) (o : Option ℕ)
    : Type 0 where
  pub table : ℕ
  pub found : o ≡ some table
  pub at_least : candidate ≤ table
  pub free : found_existing rules routes table ≡ false
  pub first : (t : ℕ) → candidate ≤ t → t < table → found_existing rules routes t ≡ true

search-FirstFree :
    (fuel : ℕ) (rules : List Rule) (routes : List Route) (t : ℕ)
    → rules_from t rules + routes_from t routes < fuel
    → FirstFree rules routes t (get_next_table_id fuel rules routes t)
unfolding get_next_table_id
search-FirstFree zero rules routes t h = absurd (omega arith)
search-FirstFree (suc fuel) rules routes t h = elim (Bool-cases (found_existing rules routes t)) [
  | inr free ↦ rw free (record {
    table = t;
    found = refl;
    at_least = omega arith;
    free = free;
    first = λ u a b. absurd (omega arith);
  })
  | inl used ↦
      let n =
        search-FirstFree fuel rules routes (t + 1)
          (omega (arith, found_existing-lt t rules routes used)) in
      rw used (record {
        table = n.table;
        found = n.found;
        at_least = omega (arith, n.at_least);
        free = n.free;
        first = λ u a b. earlier u t n.table used n.first a b;
      })
]
  where
    earlier :
        (u t k : ℕ)
        → found_existing rules routes t ≡ true
        → ((v : ℕ) → t + 1 ≤ v → v < k → found_existing rules routes v ≡ true)
        → t ≤ u
        → u < k
        → found_existing rules routes u ≡ true
    earlier u t k used later a b = ground (arith, later u)

-- On fuel above the number of rules and routes, `getNextTableID` ends, at the first table from the
-- candidate on that no rule and no route is in.
pub get_next_table_id-FirstFree :
    (fuel : ℕ) (rules : List Rule) (routes : List Route) (candidate : ℕ)
    → length rules + length routes < fuel
    → FirstFree rules routes candidate (get_next_table_id fuel rules routes candidate)
get_next_table_id-FirstFree fuel rules routes candidate h =
    search-FirstFree fuel rules routes candidate
      (omega (arith, rules_from-length candidate rules, routes_from-length candidate routes))
