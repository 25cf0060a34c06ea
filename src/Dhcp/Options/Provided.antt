-- ===== src/Dhcp/Options/Provided.antt =====
-- The texts that `prepareOptions` sends for the entries that provide options.
use mathlib.Core.List.{Memᴰ}
use mathlib.Core.List.Memᴰ.{head, tail}
use containerz_plugin.Common.{
  ℕ, ◌≤◌, ◌≡◌, ◌⊎◌, inl, inr, refl, subst, List, [], ◌∷◌, ◌++◌, Option, none, some, length, All,
  All-append, arith, ok, >>=-eq-ok, Text,
}
use containerz_plugin.Dhcp.Options.{
  ProvideOption, DhcpOption, string, coded, with_text, with_value, with_arg, arg_value, provided,
  parse_option_name,
}

abbrev pub text_option : ℕ → Text → DhcpOption
text_option c t = record { code = c; value = string t }

-- An option with a text of at most 255 bytes, which is the value of the entry or that of its argument.
abbrev pub OfEntry : List (Text × Text) → DhcpOption → ProvideOption → Type 0
OfEntry args o p =
    (t : Text) × (o ≡ text_option o.code t)
    × (length t ≤ 255)
    × (parse_option_name p.option ≡ some o.code)
    × ((t ≡ p.value) ⊎ (arg_value p.from_arg args ≡ some t))

abbrev pub OfSome : List (Text × Text) → List ProvideOption → DhcpOption → Type 0
OfSome args [] o = ⊥
OfSome args (p ∷ ps) o = OfEntry args o p ⊎ OfSome args ps o

abbrev pub ValueIn : ℕ → Text → List DhcpOption → Type 0
ValueIn c [] os = Unit
ValueIn c (b ∷ bs) os = Memᴰ (text_option c (b ∷ bs)) os

abbrev pub ArgumentIn : ℕ → Option Text → List DhcpOption → Type 0
ArgumentIn c none os = Unit
ArgumentIn c (some t) os = Memᴰ (text_option c t) os

-- The options have the value of the entry, if it is not empty, and that of its argument, if it is given.
pub record Provides (args : List (Text × Text)) (os : List DhcpOption) (p : ProvideOption)
    : Type 0 where
  pub code : ℕ
  pub named : parse_option_name p.option ≡ some code
  pub value_in : ValueIn code p.value os
  pub argument_in : ArgumentIn code (arg_value p.from_arg args) os

Mem-left : {A : Type 0} {x : A} (xs ys : List A) → Memᴰ x xs → Memᴰ x (xs ++ ys)
Mem-left [] ys m = elim m [ ]
Mem-left (a ∷ xs) ys (head e) = head e
Mem-left (a ∷ xs) ys (tail m) = tail (Mem-left xs ys m)

Mem-right : {A : Type 0} {x : A} (xs ys : List A) → Memᴰ x ys → Memᴰ x (xs ++ ys)
Mem-right [] ys m = m
Mem-right (a ∷ xs) ys m = tail (Mem-right xs ys m)

coded-ok : (t : Text) {c : ℕ} → coded t ≡ ok c → parse_option_name t ≡ some c
coded-ok t h = ground arith

with_text-ok :
    (c : ℕ) (v : Text) {os : List DhcpOption}
    → with_text c v ≡ ok os
    → (length v ≤ 255) × (text_option c v ∷ [] ≡ os)
with_text-ok c v h = (ground arith, ground arith)

with_text-OfEntry :
    (args : List (Text × Text)) (p : ProvideOption) (ps : List ProvideOption) (c : ℕ) (v : Text)
    {os : List DhcpOption}
    → parse_option_name p.option ≡ some c
    → (v ≡ p.value) ⊎ (arg_value p.from_arg args ≡ some v)
    → with_text c v ≡ ok os
    → All (OfSome args (p ∷ ps)) os
with_text-OfEntry args p ps c v n s h =
    let (le, e) = with_text-ok c v h in
    subst (All (OfSome args (p ∷ ps))) e (inl (v, refl, le, n, s), tt)

with_value-OfEntry :
    (args : List (Text × Text)) (p : ProvideOption) (ps : List ProvideOption) (c : ℕ) (v : Text)
    {os : List DhcpOption}
    → parse_option_name p.option ≡ some c
    → v ≡ p.value
    → with_value c v ≡ ok os
    → All (OfSome args (p ∷ ps)) os × ValueIn c v os
with_value-OfEntry args p ps c [] {os} n s h =
    let e : [] ≡ os = cc in (subst (All (OfSome args (p ∷ ps))) e tt, tt)
with_value-OfEntry args p ps c (b ∷ bs) n s h =
    let (le, e) = with_text-ok c (b ∷ bs) h in
    (
      with_text-OfEntry args p ps c (b ∷ bs) n (inl s) h,
      subst (λ l. Memᴰ (text_option c (b ∷ bs)) l) e (head refl),
    )

with_arg-OfEntry :
    (args : List (Text × Text)) (p : ProvideOption) (ps : List ProvideOption) (c : ℕ)
    (v : Option Text) {os : List DhcpOption}
    → parse_option_name p.option ≡ some c
    → arg_value p.from_arg args ≡ v
    → with_arg c v ≡ ok os
    → All (OfSome args (p ∷ ps)) os × ArgumentIn c v os
with_arg-OfEntry args p ps c none {os} n s h =
    let e : [] ≡ os = cc in (subst (All (OfSome args (p ∷ ps))) e tt, tt)
with_arg-OfEntry args p ps c (some v) n s h =
    let (le, e) = with_text-ok c v h in
    (
      with_text-OfEntry args p ps c v n (inr s) h,
      subst (λ l. Memᴰ (text_option c v) l) e (head refl),
    )

OfSome-later :
    (args : List (Text × Text)) (p : ProvideOption) (ps : List ProvideOption) (os : List DhcpOption)
    → All (OfSome args ps) os
    → All (OfSome args (p ∷ ps)) os
OfSome-later args p ps [] h = tt
OfSome-later args p ps (o ∷ os) (h, hs) = (inr h, OfSome-later args p ps os hs)

ValueIn-wider :
    (c : ℕ) (t : Text) (os ws : List DhcpOption)
    → ((o : DhcpOption) → Memᴰ o os → Memᴰ o ws)
    → ValueIn c t os
    → ValueIn c t ws
ValueIn-wider c [] os ws k h = tt
ValueIn-wider c (b ∷ bs) os ws k h = k _ h

ArgumentIn-wider :
    (c : ℕ) (t : Option Text) (os ws : List DhcpOption)
    → ((o : DhcpOption) → Memᴰ o os → Memᴰ o ws)
    → ArgumentIn c t os
    → ArgumentIn c t ws
ArgumentIn-wider c none os ws k h = tt
ArgumentIn-wider c (some t) os ws k h = k _ h

Provides-wider :
    (args : List (Text × Text)) (os ws : List DhcpOption) (ps : List ProvideOption)
    → ((o : DhcpOption) → Memᴰ o os → Memᴰ o ws)
    → All (Provides args os) ps
    → All (Provides args ws) ps
Provides-wider args os ws [] k h = tt
Provides-wider args os ws (p ∷ ps) k (h, hs) = (
  record {
    code = h.code;
    named = h.named;
    value_in = ValueIn-wider h.code p.value os ws k h.value_in;
    argument_in = ArgumentIn-wider h.code (arg_value p.from_arg args) os ws k h.argument_in;
  },
  Provides-wider args os ws ps k hs,
)

pub provided-Provides :
    (args : List (Text × Text)) (ps : List ProvideOption) {os : List DhcpOption}
    → provided args ps ≡ ok os
    → All (OfSome args ps) os × All (Provides args os) ps
unfolding provided
provided-Provides args [] {os} h = let e : [] ≡ os = cc in (subst (All (OfSome args [])) e tt, tt)
provided-Provides args (p ∷ ps) {os} h =
    let (c, h1, k1) = >>=-eq-ok (coded p.option) _ h in
    let (own, h2, k2) = >>=-eq-ok (with_value c p.value) _ k1 in
    let (arg, h3, k3) = >>=-eq-ok (with_arg c (arg_value p.from_arg args)) _ k2 in
    let (rest, h4, k4) = >>=-eq-ok (provided args ps) _ k3 in
    let n = coded-ok p.option h1 in
    let (a1, v1) = with_value-OfEntry args p ps c p.value n refl h2 in
    let (a2, v2) = with_arg-OfEntry args p ps c (arg_value p.from_arg args) n refl h3 in
    let (a3, v3) = provided-Provides args ps h4 in
    let e : own ++ (arg ++ rest) ≡ os = cc in
    subst (λ l. All (OfSome args (p ∷ ps)) l × All (Provides args l) (p ∷ ps)) e
      (
        All-append (OfSome args (p ∷ ps)) own (arg ++ rest) a1
            (All-append (OfSome args (p ∷ ps)) arg rest a2 (OfSome-later args p ps rest a3)),
        (
          record {
            code = c;
            named = n;
            value_in = ValueIn-wider c p.value own _ (λ o m. Mem-left own (arg ++ rest) m) v1;
            argument_in =
                ArgumentIn-wider c (arg_value p.from_arg args) arg _
                  (λ o m. Mem-right own (arg ++ rest) (Mem-left arg rest m)) v2;
          },
          Provides-wider args rest _ ps (λ o m. Mem-right own (arg ++ rest) (Mem-right arg rest m))
              v3,
        ),
      )
