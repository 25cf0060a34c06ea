-- ===== src/HostLocal/Allocator/Get.antt =====
-- `Get`: with no address asked for it fails for want of addresses only if every address of the set is
-- a gateway or taken; with one asked for it grants that address or says why not.
use mathlib.Core.List.{Memᴰ}
use mathlib.Core.List.Memᴰ.{head, tail}
use containerz_plugin.Common.{
  ℕ, zero, suc, ◌+◌, ◌-◌, ◌≤◌, ◌<◌, ◌≡◌, ◌≢◌, ◌⊎◌, inl, inr, sym, subst, ◌∙◌, [], ◌∷◌, arith, some,
  ok, err, All, Any, get_elem?, Bool, true, false, Text, Result, Bool-cases, List,
}
use containerz_plugin.Net.{Ip, equal}
use containerz_plugin.Net.Regular.{IsRegular}
use containerz_plugin.HostLocal.Range.{Range}
use containerz_plugin.HostLocal.Range.Membership.{Between}
use containerz_plugin.HostLocal.Range.Interval.{IsCanonical}
use containerz_plugin.HostLocal.RangeSet.{RangeSet}
use containerz_plugin.HostLocal.RangeSet.Disjoint.{Disjoint, InSet}
use containerz_plugin.HostLocal.Store.{Store, StoreError, IsStore}
use containerz_plugin.HostLocal.Allocator.{
  IpAllocator, IpConfig, GetError, config_at, any_in, get_any, get, no_addresses, duplicate,
  store_error,
}
use containerz_plugin.HostLocal.Allocator.Position.{
  At, total, At-range, At-InSet, InSet-At, At-address,
}
use containerz_plugin.HostLocal.Allocator.Iteration.{bump}
use containerz_plugin.HostLocal.Allocator.Sweep.{Skipped, turn}
use containerz_plugin.HostLocal.Allocator.Resume.{get_iter-Iter}
use containerz_plugin.HostLocal.Allocator.Search.{
  Held, Full, Granted, Failed, Searched, granted, full, broken, search_from-Searched,
}

-- The address is the gateway of a range of the set that holds it.
abbrev pub IsGatewayIn : RangeSet → Ip → Type 0
IsGatewayIn s b = Any (λ r. Between r b × (equal b r.gateway ≡ true)) s

At-Any :
    (s : RangeSet) (i : ℕ) (c : Ip) (k : ℕ) {r : Range}
    → At s i c k
    → get_elem? s i ≡ some r
    → equal c r.gateway ≡ true
    → IsGatewayIn s c
At-Any [] i c k p g e = absurd p
At-Any (q ∷ rs) zero c k p g e = inl (p.0, ground arith)
At-Any (q ∷ rs) (suc i) c k {r} p g e = inr (At-Any rs i c _ p.1 g e)

bump_small : (n q : ℕ) → q + 1 < n → bump n q ≡ q + 1
bump_small n q h = ground arith

bump_wrap : (n q : ℕ) → q + 1 ≡ n → bump n q ≡ 0
bump_wrap n q h = ground arith

turn_straight : (n j q : ℕ) → q + j < n → turn n j q ≡ q + j
turn_straight n zero q h = omega arith
turn_straight n (suc j) q h =
    rw (bump_small n q (omega arith)) (turn_straight n j (q + 1) (omega arith) ∙ omega arith)

turn_round : (n j q l : ℕ) → q < n → l < n → q + j ≡ n + l → turn n j q ≡ l
turn_round n zero q l hq hl e = absurd (omega arith)
turn_round n (suc j) q l hq hl e = elim (last_or_not n q hq) [
  | inl last ↦ rw (bump_wrap n q last) (turn_straight n j 0 (omega arith) ∙ omega arith)
  | inr more ↦ rw (bump_small n q more) (turn_round n j (q + 1) l more hl (omega arith))
]
  where
    last_or_not : (n q : ℕ) → q < n → (q + 1 ≡ n) ⊎ (q + 1 < n)
    last_or_not n q h = omega arith

-- Going round from any rank, every rank is met.
every_rank : (n q l : ℕ) → q < n → l < n → (j : ℕ) × (j < n) × (turn n j q ≡ l)
every_rank n q l hq hl = elim (before_or_not q l) [
  | inl le ↦ (l - q, omega arith, turn_straight n (l - q) q (omega arith) ∙ omega arith)
  | inr lt ↦ (n + l - q, omega arith, turn_round n (n + l - q) q l hq hl (omega arith))
]
  where
    before_or_not : (q l : ℕ) → (q ≤ l) ⊎ (l < q)
    before_or_not q l = omega arith

some_eq : {p q : Range} → some p ≡ some q → p ≡ q
some_eq h = cc

get_elem?-Mem : (s : RangeSet) (i : ℕ) {r : Range} → get_elem? s i ≡ some r → Memᴰ r s
get_elem?-Mem [] i h = cc
get_elem?-Mem (q ∷ rs) zero h = head (some_eq (sym h))
get_elem?-Mem (q ∷ rs) (suc i) h = tail (get_elem?-Mem rs i h)

module _ {S : Type 0} (taken : S → Ip → Bool) where
  Full-at :
      (s : RangeSet) (x : S) (m q j : ℕ)
      → Full taken s x m q
      → j < m
      → Skipped s (turn (total s) j q) ⊎ Held taken s x (turn (total s) j q)
  Full-at s x zero q j f h = absurd (omega arith)
  Full-at s x (suc m) q zero f h = f.0
  Full-at s x (suc m) q (suc j) f h = Full-at s x m (bump (total s) q) j f.1 (omega arith)

  -- Every address of the set is a gateway or taken.
  abbrev pub NoRoom : RangeSet → S → Type 0
  NoRoom s x = (b : Ip) → IsRegular b → InSet s b → IsGatewayIn s b ⊎ (taken x b ≡ true)

  Full-NoRoom :
      (s : RangeSet) (x : S) (q : ℕ)
      → All IsCanonical s
      → q < total s
      → Full taken s x (total s) q
      → NoRoom s x
  Full-NoRoom s x q cs hq f b rb h =
      let (i, l, p) = InSet-At s b h in
      let (_, _, _, _, hl) = At-range s i b l cs p in
      let (j, hj, there) = every_rank (total s) q l hq hl in
      elim (Full-at s x (total s) q j f hj) [
        | inl k ↦
            let same =
              At-address s k.index i k.address b l cs k.regular rb
                (subst (At s k.index k.address) there k.at) p in
            inl
              (subst (IsGatewayIn s) same (At-Any s k.index k.address _ k.at k.in_range k.gateway))
        | inr k ↦
            let same =
              At-address s k.index i k.address b l cs k.regular rb
                (subst (At s k.index k.address) there k.at) p in
            inr (subst (λ t. taken x t ≡ true) same k.held)
      ]

  -- An address of the set was free, is no gateway of the range that gave it, and is now taken; no
  -- other address changed.
  pub record Allocated (s : RangeSet) (x x' : S) (c : IpConfig) : Type 0 where
    pub range : Range
    pub listed : Memᴰ range s
    pub address : Ip
    pub regular : IsRegular address
    pub canonical : IsCanonical range
    pub between : Between range address
    pub in_set : InSet s address
    pub not_gateway : equal address range.gateway ≡ false
    pub config : c ≡ config_at range address
    pub was_free : taken x address ≡ false
    pub now_taken : taken x' address ≡ true
    pub others : (b : Ip) → IsRegular b → b ≢ address → taken x' b ≡ taken x b

  -- The store failed when it was asked for an address of a range of the set that is not its
  -- gateway, and freed nothing.
  pub record Broke (ask : S → Ip → S × Result StoreError Bool) (s : RangeSet) (x x' : S)
      (e : StoreError) : Type 0 where
    pub range : Range
    pub listed : Memᴰ range s
    pub address : Ip
    pub regular : IsRegular address
    pub between : Between range address
    pub not_gateway : equal address range.gateway ≡ false
    pub answer : ask x address ≡ (x', err e)
    pub frees_none : (b : Ip) → IsRegular b → taken x b ≡ true → taken x' b ≡ true

  -- What `Get` does with no address asked for; it neither panics nor runs for ever.
  pub data AnyAnswer (ask : S → Ip → S × Result StoreError Bool) (s : RangeSet) (x : S)
      (held : List Ip) : S × Result GetError IpConfig → Type 0 where
    allocated :
        {x' : S} {c : IpConfig}
        → any_in s held ≡ false
        → Allocated s x x' c
        → AnyAnswer ask s x held (x', ok c)
    no_room : NoRoom s x → AnyAnswer ask s x held (x, err no_addresses)
    has_one : any_in s held ≡ true → AnyAnswer ask s x held (x, err duplicate)
    store_broke :
        {x' : S} {e : StoreError}
        → any_in s held ≡ false
        → Broke ask s x x' e
        → AnyAnswer ask s x held (x', err (store_error e))

  Granted-Allocated :
      (s : RangeSet) (x x' : S) (c : IpConfig) (k : ℕ)
      → All IsCanonical s
      → Granted taken s x x' c k
      → Allocated s x x' c
  Granted-Allocated s x x' c k cs g =
      let (r, e, cr, b, _) = At-range s g.index g.address k cs g.at in
      let same : r ≡ g.range = some_eq (sym e ∙ g.in_range) in
      record {
        range = g.range;
        listed = get_elem?-Mem s g.index g.in_range;
        address = g.address;
        regular = g.regular;
        canonical = subst IsCanonical same cr;
        between = subst (λ t. Between t g.address) same b;
        in_set = At-InSet s g.index g.address k g.at;
        not_gateway = g.not_gateway;
        config = g.config;
        was_free = g.was_free;
        now_taken = g.now_taken;
        others = g.others;
      }

  Failed-Broke :
      (ask : S → Ip → S × Result StoreError Bool) (s : RangeSet) (x x' : S) (e : StoreError) (k : ℕ)
      → All IsCanonical s
      → Failed taken ask s x x' e k
      → Broke ask s x x' e
  Failed-Broke ask s x x' e k cs g =
      let (r, found, cr, b, _) = At-range s g.index g.address k cs g.at in
      let same : r ≡ g.range = some_eq (sym found ∙ g.in_range) in
      record {
        range = g.range;
        listed = get_elem?-Mem s g.index g.in_range;
        address = g.address;
        regular = g.regular;
        between = subst (λ t. Between t g.address) same b;
        not_gateway = g.not_gateway;
        answer = g.answer;
        frees_none = g.frees_none;
      }

  Searched-AnyAnswer :
      (ask : S → Ip → S × Result StoreError Bool) (s : RangeSet) (x : S) (q : ℕ) (held : List Ip)
      (o : S × Result GetError IpConfig)
      → All IsCanonical s
      → q < total s
      → any_in s held ≡ false
      → Searched taken ask s x q (total s) o
      → AnyAnswer ask s x held o
  Searched-AnyAnswer ask s x q held o cs h free (granted j _ _ g) =
      allocated free (Granted-Allocated s x _ _ _ cs g)
  Searched-AnyAnswer ask s x q held o cs h free (full f) = no_room (Full-NoRoom s x q cs h f)
  Searched-AnyAnswer ask s x q held o cs h free (broken j _ _ g) =
      store_broke free (Failed-Broke ask s x _ _ _ cs g)

module _ {S : Type 0} (st : Store S) (taken : S → Ip → Bool) (laws : IsStore st taken) where
  -- For a set of canonical ranges, not empty and with no overlap, over a store that keeps its
  -- contract, and on fuel above the number of addresses of the set: `Get` with no address asked for
  -- refuses an owner of an address of the set, or allocates an address of the set that was free and
  -- is not its range's gateway and takes no other, or fails for want of addresses when each address
  -- of the set is a gateway or taken, or fails as the store does when it is asked for an address of
  -- a range of the set that is not its gateway, with nothing freed.
  pub get_any-AnyAnswer :
      (fuel : ℕ) (a : IpAllocator) (x : S) (id ifname : Text)
      → a.rangeset ≢ []
      → All IsCanonical a.rangeset
      → Disjoint a.rangeset
      → total a.rangeset < fuel
      → AnyAnswer taken
          (λ y b. st.reserve y id ifname b a.range_id)
          a.rangeset
          x
          (st.get_by_id x id ifname)
          (get st fuel a x id ifname [])
  unfolding get get_any
  get_any-AnyAnswer fuel a x id ifname ne cs ds h =
      let held = st.get_by_id x id ifname in
      let it = get_iter-Iter st laws a x ne cs ds in
      elim (Bool-cases (any_in a.rangeset held)) [
        | inl has ↦ rw has (has_one has)
        | inr free ↦ rw free (
            rw it.made (
              Searched-AnyAnswer taken (λ y b. st.reserve y id ifname b a.range_id) a.rangeset x
                it.first held _ cs it.first_lt free
                (search_from-Searched st taken laws a cs ds id ifname fuel x it.iter it.first
                  (total a.rangeset) it.ready h)))
      ]
