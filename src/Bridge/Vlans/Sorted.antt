-- ===== src/Bridge/Vlans/Sorted.antt =====
-- The VLANs of a trunk: in order, each once, and those of the configuration.
use containerz_plugin.Common.{
  ℕ, zero, suc, ◌+◌, ◌-◌, ◌≤◌, ◌<◌, ◌≡◌, refl, subst, ◌∙◌, Bool, true, false, ◌||◌, ◌&&◌, not, List,
  [], ◌∷◌, Option, none, some, if◌then◌else◌, ltb, leb, ◌==◌, ℤ, pos, negsuc, Result, ok, >>=-eq-ok,
  guard-eq-ok, All, arith, Bool-cases, inl, inr,
}
use containerz_plugin.Bridge.Vlans.{
  VlanTrunk, VlanError, bad_min_id, bad_max_id, min_above_max, bad_id, vlan_id, has, put, put_range,
  with_range, with_id, vlan_map, insert, sort, sorted_unless_empty, collect_vlan_trunk,
}

-- A VLAN that an entry of the trunk names, alone or in a range.
abbrev pub in_range : ℕ → Option ℤ → Option ℤ → Bool
in_range v (some (pos l)) (some (pos h)) = leb l v && leb v h
in_range v _ _ = false

abbrev pub is_id : ℕ → Option ℤ → Bool
is_id v (some (pos n)) = n == v
is_id v _ = false

abbrev pub named : ℕ → List VlanTrunk → Bool
named v [] = false
named v (t ∷ ts) = in_range v t.min_id t.max_id || is_id v t.id || named v ts

abbrev pub Above : ℕ → List ℕ → Type 0
Above v xs = All (λ (x : ℕ). v < x) xs

-- In strictly rising order.
abbrev pub IsRising : List ℕ → Type 0
IsRising [] = Unit
IsRising (x ∷ xs) = Above x xs × IsRising xs

-- Each value once.
abbrev pub IsDistinct : List ℕ → Type 0
IsDistinct [] = Unit
IsDistinct (x ∷ xs) = (has x xs ≡ false) × IsDistinct xs

abbrev pub IsVlan : ℕ → Type 0
IsVlan v = (1 ≤ v) × (v ≤ 4094)

vlan_id-ok : (e : VlanError) (i : ℤ) {v : ℕ} → vlan_id e i ≡ ok v → (i ≡ pos v) × IsVlan v
unfolding vlan_id
vlan_id-ok e (pos n) h = ground arith
vlan_id-ok e (negsuc n) h = cc

-- What the map has behind each write.
has-put : (u v : ℕ) (m : List ℕ) → has u (put v m) ≡ (v == u || has u m)
unfolding put has
has-put u v m = same (has v m) refl
  where
    same : (b : Bool) → has v m ≡ b → has u (if b then m else v ∷ m) ≡ (v == u || has u m)
    same true e = ground (arith)
    same false e = refl

has-put_range :
    (u n v : ℕ) (m : List ℕ) → has u (put_range n v m) ≡ ((leb v u && ltb u (v + n)) || has u m)
unfolding put_range
has-put_range u zero v m = ground arith
has-put_range u (suc n) v m = ground (arith, has-put_range u n (v + 1) (put v m), has-put u v m)

put-IsDistinct : (v : ℕ) (m : List ℕ) → IsDistinct m → IsDistinct (put v m)
unfolding put
put-IsDistinct v m h = elim (Bool-cases (has v m)) [ inl e ↦ rw e h | inr e ↦ rw e (e, h) ]

put_range-IsDistinct : (n v : ℕ) (m : List ℕ) → IsDistinct m → IsDistinct (put_range n v m)
unfolding put_range
put_range-IsDistinct zero v m h = h
put_range-IsDistinct (suc n) v m h = put_range-IsDistinct n (v + 1) (put v m) (put-IsDistinct v m h)

put-All : (v : ℕ) (m : List ℕ) → IsVlan v → All IsVlan m → All IsVlan (put v m)
unfolding put
put-All v m i h = elim (Bool-cases (has v m)) [ inl e ↦ rw e h | inr e ↦ rw e (i, h) ]

put_range-All :
    (n v : ℕ) (m : List ℕ) → 1 ≤ v → v + n ≤ 4095 → All IsVlan m → All IsVlan (put_range n v m)
unfolding put_range
put_range-All zero v m a b h = h
put_range-All (suc n) v m a b h =
    put_range-All n (v + 1) (put v m) (omega arith) (omega arith)
      (put-All v m (omega arith, omega arith) h)

-- What sorting does.
has-insert : (u v : ℕ) (xs : List ℕ) → has u (insert v xs) ≡ (v == u || has u xs)
unfolding insert has
has-insert u v [] = refl
has-insert u v (x ∷ xs) = ground (arith, has-insert u v xs)

has-sort : (u : ℕ) (xs : List ℕ) → has u (sort xs) ≡ has u xs
unfolding sort has
has-sort u [] = refl
has-sort u (x ∷ xs) = has-insert u x (sort xs) ∙ rw (has-sort u xs) refl

insert-Above : (w v : ℕ) (xs : List ℕ) → w < v → Above w xs → Above w (insert v xs)
unfolding insert
insert-Above w v [] a h = (a, tt)
insert-Above w v (x ∷ xs) a (h, hs) = elim (Bool-cases (ltb v x)) [
  | inl e ↦ rw e (a, (h, hs))
  | inr e ↦ rw e (h, insert-Above w v xs a hs)
]

Above-trans : (v x : ℕ) (xs : List ℕ) → v < x → Above x xs → Above v xs
Above-trans v x [] a h = tt
Above-trans v x (y ∷ ys) a (h, hs) = (omega arith, Above-trans v x ys a hs)

insert-IsRising : (v : ℕ) (xs : List ℕ) → has v xs ≡ false → IsRising xs → IsRising (insert v xs)
unfolding insert has
insert-IsRising v [] n h = (tt, tt)
insert-IsRising v (x ∷ xs) n (h, hs) = elim (Bool-cases (ltb v x)) [
  | inl e ↦ let lt : v < x = ground arith in rw e ((lt, Above-trans v x xs lt h), (h, hs))
  | inr e ↦
      let lt : x < v = ground arith in
      let rest : has v xs ≡ false = ground arith in
      rw e (insert-Above x v xs lt h, insert-IsRising v xs rest hs)
]

sort-IsRising : (xs : List ℕ) → IsDistinct xs → IsRising (sort xs)
unfolding sort
sort-IsRising [] h = tt
sort-IsRising (x ∷ xs) (n, h) = insert-IsRising x (sort xs) (has-sort x xs ∙ n) (sort-IsRising xs h)

insert-All : (v : ℕ) (xs : List ℕ) → IsVlan v → All IsVlan xs → All IsVlan (insert v xs)
unfolding insert
insert-All v [] i h = (i, tt)
insert-All v (x ∷ xs) i (h, hs) = elim (Bool-cases (ltb v x)) [
  | inl e ↦ rw e (i, (h, hs))
  | inr e ↦ rw e (h, insert-All v xs i hs)
]

sort-All : (xs : List ℕ) → All IsVlan xs → All IsVlan (sort xs)
unfolding sort
sort-All [] h = tt
sort-All (x ∷ xs) (h, hs) = insert-All x (sort xs) h (sort-All xs hs)

-- The map behind the entries that were read: each VLAN once, all of them valid, and those of before
-- with those that the entries name.
record Read (m m' : List ℕ) (names : ℕ → Bool) : Type 0 where
  once : IsDistinct m → IsDistinct m'
  valid : All IsVlan m → All IsVlan m'
  members : (u : ℕ) → has u m' ≡ (names u || has u m)

with_range-Read :
    (lo hi : Option ℤ) (m : List ℕ) {m' : List ℕ}
    → with_range lo hi m ≡ ok m'
    → Read m m' (λ u. in_range u lo hi)
unfolding with_range
with_range-Read none none m {m'} h =
    let e : m ≡ m' = cc in
    subst (λ t. Read m t (λ u. false)) e
      (record { once = λ d. d; valid = λ d. d; members = λ u. refl })
with_range-Read none (some b) m h = cc
with_range-Read (some a) none m h = cc
with_range-Read (some a) (some b) m {m'} h =
    let (l, h1, k1) = >>=-eq-ok (vlan_id bad_min_id a) _ h in
    let (t, h2, k2) = >>=-eq-ok (vlan_id bad_max_id b) _ k1 in
    let (h3, k3) = guard-eq-ok (not (ltb t l)) min_above_max _ k2 in
    let (ea, la) = vlan_id-ok bad_min_id a h1 in
    let (eb, lb) = vlan_id-ok bad_max_id b h2 in
    let e : put_range (t + 1 - l) l m ≡ m' = cc in
    let le : l ≤ t = ground arith in
    rw (ea, eb)
      (subst (λ x. Read m x (λ u. leb l u && leb u t)) e
        (record {
          once = put_range-IsDistinct (t + 1 - l) l m;
          valid = put_range-All (t + 1 - l) l m la.0 (omega arith);
          members = λ u. within u l t m le;
        }))
  where
    within :
        (u l t : ℕ) (m : List ℕ)
        → l ≤ t
        → has u (put_range (t + 1 - l) l m) ≡ ((leb l u && leb u t) || has u m)
    within u l t m le = ground (arith, has-put_range u (t + 1 - l) l m)

with_id-Read :
    (i : Option ℤ) (m : List ℕ) {m' : List ℕ} → with_id i m ≡ ok m' → Read m m' (λ u. is_id u i)
unfolding with_id
with_id-Read none m {m'} h =
    let e : m ≡ m' = cc in
    subst (λ t. Read m t (λ u. false)) e
      (record { once = λ d. d; valid = λ d. d; members = λ u. refl })
with_id-Read (some i) m {m'} h =
    let (v, h1, k1) = >>=-eq-ok (vlan_id bad_id i) _ h in
    let (ei, li) = vlan_id-ok bad_id i h1 in
    let e : put v m ≡ m' = cc in
    rw ei (
      subst (λ x. Read m x (λ u. v == u)) e
        (record {
          once = put-IsDistinct v m;
          valid = put-All v m li;
          members = λ u. has-put u v m;
        }))

vlan_map-Read :
    (ts : List VlanTrunk) (m : List ℕ) {m' : List ℕ}
    → vlan_map ts m ≡ ok m'
    → Read m m' (λ u. named u ts)
unfolding vlan_map
vlan_map-Read [] m {m'} h =
    let e : m ≡ m' = cc in
    subst (λ t. Read m t (λ u. false)) e
      (record { once = λ d. d; valid = λ d. d; members = λ u. refl })
vlan_map-Read (t ∷ ts) m {m'} h =
    let (m1, h1, k1) = >>=-eq-ok (with_range t.min_id t.max_id m) _ h in
    let (m2, h2, k2) = >>=-eq-ok (with_id t.id m1) _ k1 in
    let r1 = with_range-Read t.min_id t.max_id m h1 in
    let r2 = with_id-Read t.id m1 h2 in
    let r3 = vlan_map-Read ts m2 k2 in
    record {
      once = λ d. r3.once (r2.once (r1.once d));
      valid = λ d. r3.valid (r2.valid (r1.valid d));
      members = λ u.
          three (in_range u t.min_id t.max_id) (is_id u t.id) (named u ts) (has u m) (has u m1)
            (has u m2) (has u m') (r1.members u) (r2.members u) (r3.members u);
    }
  where
    three :
        (a b c x x1 x2 x3 : Bool)
        → x1 ≡ (a || x)
        → x2 ≡ (b || x1)
        → x3 ≡ (c || x2)
        → x3 ≡ ((a || b || c) || x)
    three a b c x x1 x2 x3 e1 e2 e3 = ground arith

-- When `collectVlanTrunk` succeeds with VLANs, they are in strictly rising order, each from 1 to 4094,
-- and they are the ones that the entries of the trunk name, alone or in a range.
pub collect_vlan_trunk-IsRising :
    (ts : List VlanTrunk) (vs : List ℕ)
    → collect_vlan_trunk (some ts) ≡ ok (some vs)
    → IsRising vs × All IsVlan vs × ((u : ℕ) → has u vs ≡ named u ts)
unfolding collect_vlan_trunk has
collect_vlan_trunk-IsRising ts vs h =
    let (m, h1, k1) = >>=-eq-ok (vlan_map ts []) _ h in
    let r = vlan_map-Read ts [] h1 in
    let e : sort m ≡ vs = found m vs k1 in
    subst (λ x. IsRising x × All IsVlan x × ((u : ℕ) → has u x ≡ named u ts)) e
      (
        sort-IsRising m (r.once tt),
        sort-All m (r.valid tt),
        λ u. has-sort u m ∙ r.members u ∙ or_false (named u ts),
      )
  where
    found :
        (m vs : List ℕ)
        → ◌≡◌ {A = Result VlanError (Option (List ℕ))} (ok (sorted_unless_empty m)) (ok (some vs))
        → sort m ≡ vs
    found [] vs e = cc
    found (x ∷ xs) vs e = cc

    or_false : (b : Bool) → (b || false) ≡ b
    or_false true = refl
    or_false false = refl
