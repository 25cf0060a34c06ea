-- ===== src/HostLocal/Allocator/Search.antt =====
-- The loop of `Get`: it reserves the first address in turn that is neither a gateway nor taken, or
-- reports that there is none.
use containerz_plugin.Common.{
  ℕ, zero, suc, ◌+◌, ◌<◌, ◌≡◌, ◌≢◌, ◌⊎◌, inl, inr, refl, sym, ap, subst, arith, some, ok, err, All,
  get_elem?, Bool, true, false, Text, Result,
}
use containerz_plugin.Net.{Ip, equal}
use containerz_plugin.Net.Regular.{IsRegular}
use containerz_plugin.HostLocal.Range.{Range}
use containerz_plugin.HostLocal.Range.Interval.{IsCanonical}
use containerz_plugin.HostLocal.RangeSet.{RangeSet}
use containerz_plugin.HostLocal.RangeSet.Disjoint.{Disjoint}
use containerz_plugin.HostLocal.Store.{Store, StoreError, IsStore, Reserved, fresh, refused, failed}
use containerz_plugin.HostLocal.Allocator.{
  RangeIter, IpAllocator, IpConfig, GetError, Outcome, config_at, next, settle, try_next,
  search_from, no_addresses, store_error,
}
use containerz_plugin.HostLocal.Allocator.Position.{At, total}
use containerz_plugin.HostLocal.Allocator.Iteration.{bump}
use containerz_plugin.HostLocal.Allocator.Sweep.{
  Skipped, Skips, turn, Stop, Answer, stops, gives_up, next-Answer,
}
use containerz_plugin.HostLocal.Allocator.Start.{Ready}

turn-behind : (t i j n q : ℕ) → suc j + i ≡ n → turn t n q ≡ turn t i (bump t (turn t j q))
turn-behind t i j zero q e = absurd (omega arith)
turn-behind t i zero (suc n) q e =
    let same : n ≡ i = omega arith in ap (λ m. turn t m (bump t q)) same
turn-behind t i (suc j) (suc n) q e = turn-behind t i j n (bump t q) (omega arith)

module _ {S : Type 0} (taken : S → Ip → Bool) where
  -- The address of rank `k` is taken.
  pub record Held (s : RangeSet) (x : S) (k : ℕ) : Type 0 where
    pub index : ℕ
    pub address : Ip
    pub regular : IsRegular address
    pub at : At s index address k
    pub held : taken x address ≡ true

  -- `m` addresses from the rank `q` on are gateways or taken.
  abbrev pub Full : RangeSet → S → ℕ → ℕ → Type 0
  Full s x zero q = Unit
  Full s x (suc m) q = (Skipped s q ⊎ Held s x q) × Full s x m (bump (total s) q)

  -- An address of the set that was free and that is now the only change.
  pub record Granted (s : RangeSet) (x x' : S) (c : IpConfig) (k : ℕ) : Type 0 where
    pub index : ℕ
    pub range : Range
    pub address : Ip
    pub in_range : get_elem? s index ≡ some range
    pub regular : IsRegular address
    pub at : At s index address k
    pub not_gateway : equal address range.gateway ≡ false
    pub config : c ≡ config_at range address
    pub was_free : taken x address ≡ false
    pub now_taken : taken x' address ≡ true
    pub others : (b : Ip) → IsRegular b → b ≢ address → taken x' b ≡ taken x b

  -- The store failed when it was asked for the address of rank `k`, which is no gateway, and freed
  -- nothing.
  pub record Failed (ask : S → Ip → S × Result StoreError Bool) (s : RangeSet) (x x' : S)
      (e : StoreError) (k : ℕ) : Type 0 where
    pub index : ℕ
    pub range : Range
    pub address : Ip
    pub in_range : get_elem? s index ≡ some range
    pub regular : IsRegular address
    pub at : At s index address k
    pub not_gateway : equal address range.gateway ≡ false
    pub answer : ask x address ≡ (x', err e)
    pub frees_none : (b : Ip) → IsRegular b → taken x b ≡ true → taken x' b ≡ true

  -- The result of the loop with `m` addresses to come from the rank `q` on; `ask` is the call of the
  -- store. It fails as the store does only at the first address that is neither gateway nor taken.
  pub data Searched (ask : S → Ip → S × Result StoreError Bool) (s : RangeSet) (x : S) (q m : ℕ)
      : S × Result GetError IpConfig → Type 0 where
    granted :
        {x' : S} {c : IpConfig} (j : ℕ)
        → j < m
        → Full s x j q
        → Granted s x x' c (turn (total s) j q)
        → Searched ask s x q m (x', ok c)
    full : Full s x m q → Searched ask s x q m (x, err no_addresses)
    broken :
        {x' : S} {e : StoreError} (j : ℕ)
        → j < m
        → Full s x j q
        → Failed ask s x x' e (turn (total s) j q)
        → Searched ask s x q m (x', err (store_error e))

  Skips-Full : (s : RangeSet) (x : S) (m q : ℕ) → Skips s m q → Full s x m q
  Skips-Full s x zero q h = tt
  Skips-Full s x (suc m) q h = (inl h.0, Skips-Full s x m (bump (total s) q) h.1)

  -- Behind `j` gateways and one address that is taken come `i` more.
  Full-behind :
      (s : RangeSet) (x : S) (i j n q : ℕ)
      → suc j + i ≡ n
      → Skips s j q
      → Held s x (turn (total s) j q)
      → Full s x i (bump (total s) (turn (total s) j q))
      → Full s x n q
  Full-behind s x i j zero q e k h f = absurd (omega arith)
  Full-behind s x i zero (suc n) q e k h f =
      let same : i ≡ n = omega arith in (inr h, subst (λ t. Full s x t (bump (total s) q)) same f)
  Full-behind s x i (suc j) (suc n) q e k h f =
      (inl k.0, Full-behind s x i j n (bump (total s) q) (omega arith) k.1 h f)

  Searched-behind :
      (ask : S → Ip → S × Result StoreError Bool) (s : RangeSet) (x : S) (q m i j : ℕ)
      (o : S × Result GetError IpConfig)
      → suc j + i ≡ m
      → Skips s j q
      → Held s x (turn (total s) j q)
      → Searched ask s x (bump (total s) (turn (total s) j q)) i o
      → Searched ask s x q m o
  Searched-behind ask s x q m i j o e k h (granted d below f g) =
      granted (suc j + d) (omega arith) (Full-behind s x d j (suc j + d) q refl k h f)
        (subst (Granted s x _ _) (sym (turn-behind (total s) d j (suc j + d) q refl)) g)
  Searched-behind ask s x q m i j o e k h (full f) = full (Full-behind s x i j m q e k h f)
  Searched-behind ask s x q m i j o e k h (broken d below f g) =
      broken (suc j + d) (omega arith) (Full-behind s x d j (suc j + d) q refl k h f)
        (subst (Failed ask s x _ _) (sym (turn-behind (total s) d j (suc j + d) q refl)) g)

module _ {S : Type 0} (st : Store S) (taken : S → Ip → Bool) (laws : IsStore st taken) where
  module _ (a : IpAllocator) (cs : All IsCanonical a.rangeset) (ds : Disjoint a.rangeset)
      (id ifname : Text) where
    -- The call of the store.
    abbrev pub asking : S → Ip → S × Result StoreError Bool
    asking x b = st.reserve x id ifname b a.range_id

    -- One round, by what `Reserve` answered.
    settle-Searched :
        (x x' : S) (it : RangeIter) (c : IpConfig) (q m j : ℕ)
        (again : S → RangeIter → S × Result GetError IpConfig) {o : Result StoreError Bool}
        → (p : Stop a.rangeset it c q m j) → asking x it.cur ≡ (x', o)
        → Reserved taken x x' it.cur o
        → Searched taken asking a.rangeset x
            (bump (total a.rangeset) (turn (total a.rangeset) j q))
            p.left
            (again x it)
        → Searched taken asking a.rangeset x q m (settle st again it c (x', o))
    unfolding settle
    settle-Searched x x' it c q m j again p did (fresh free now others) rest =
        granted j (omega (arith, p.count)) (Skips-Full taken a.rangeset x j q p.passed) (record {
          index = it.range_idx;
          range = p.range;
          address = it.cur;
          in_range = p.in_range;
          regular = p.regular;
          at = p.at;
          not_gateway = p.not_gateway;
          config = p.config;
          was_free = free;
          now_taken = now;
          others = others;
        })
    settle-Searched x x' it c q m j again p did (refused held same) rest = rw same (
        Searched-behind taken asking a.rangeset x q m p.left j (again x it) p.count p.passed
          (record {
            index = it.range_idx;
            address = it.cur;
            regular = p.regular;
            at = p.at;
            held = held;
          })
          rest)
    settle-Searched x x' it c q m j again p did (failed e mono) rest =
        broken j (omega (arith, p.count)) (Skips-Full taken a.rangeset x j q p.passed) (record {
          index = it.range_idx;
          range = p.range;
          address = it.cur;
          in_range = p.in_range;
          regular = p.regular;
          at = p.at;
          not_gateway = p.not_gateway;
          answer = did;
          frees_none = mono;
        })

    round-Searched :
        (fuel : ℕ) (x : S) (q m : ℕ) (o : Outcome)
        (again : S → RangeIter → S × Result GetError IpConfig)
        → Answer a.rangeset q m o
        → m < suc fuel
        → ((x : S) (it : RangeIter) (q m : ℕ)
            → Ready a.rangeset it q m
            → m < fuel
            → Searched taken asking a.rangeset x q m (again x it))
        → Searched taken asking a.rangeset x q m (try_next st again a id ifname x o)
    unfolding try_next
    round-Searched fuel x q m o again (gives_up all) h ih =
        full (Skips-Full taken a.rangeset x m q all)
    round-Searched fuel x q m o again (stops {it} {c} j p) h ih =
        let res = st.reserve x id ifname c.address.ip a.range_id in
        let asked : c.address.ip ≡ it.cur = ap (λ (t : IpConfig). t.address.ip) p.config in
        let did : Reserved taken x res.0 it.cur res.1 =
          subst
            (λ t.
              Reserved taken x (st.reserve x id ifname t a.range_id).0 it.cur
                (st.reserve x id ifname t a.range_id).1)
            (sym asked) (laws.reserves x id ifname it.cur a.range_id p.regular) in
        settle-Searched x res.0 it c q m j again p (ap (asking x) (sym asked)) did (
          ih x it _ p.left (λ f l. next-Answer a.rangeset cs ds f it _ p.left p.going l)
            (omega (arith, p.count)))

    -- From an iterator that is to pass over `m` addresses, on fuel above `m`, the loop of `Get` ends:
    -- it reserves the first of them that is no gateway and free, or it reports that all of them are
    -- gateways or taken, or it
    -- fails as the store does when it is asked for the first of them that is no gateway and not taken.
    pub search_from-Searched :
        (fuel : ℕ) (x : S) (it : RangeIter) (q m : ℕ)
        → Ready a.rangeset it q m
        → m < fuel
        → Searched taken asking a.rangeset x q m (search_from st fuel a id ifname x it)
    unfolding search_from
    search_from-Searched zero x it q m r h = absurd (omega arith)
    search_from-Searched (suc fuel) x it q m r h =
        round-Searched fuel x q m (next (suc fuel) a.rangeset it) (search_from st fuel a id ifname)
          (r (suc fuel) h) h (search_from-Searched fuel)
