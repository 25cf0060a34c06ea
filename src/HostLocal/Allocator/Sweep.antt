-- ===== src/HostLocal/Allocator/Sweep.antt =====
-- What `Next` returns: the next address in turn that is not a gateway, until the iterator is back
-- where it started.
use containerz_plugin.Common.{
  ℕ, zero, suc, ◌+◌, ◌<◌, ◌≡◌, ◌≢◌, ◌⊎◌, inl, inr, refl, sym, subst, ◌∙◌, [], ◌∷◌, arith, some, All,
  get_elem?, true, false, Bool-cases, if◌then◌else◌,
}
use containerz_plugin.Net.{Ip, equal, is_nil, to4, to16}
use containerz_plugin.Net.Regular.{IsRegular, equal_regular, regular_not_nil}
use containerz_plugin.HostLocal.Range.{Range, canonicalize_ip}
use containerz_plugin.HostLocal.Range.Interval.{IsCanonical}
use containerz_plugin.HostLocal.RangeSet.{RangeSet}
use containerz_plugin.HostLocal.RangeSet.Disjoint.{Disjoint}
use containerz_plugin.HostLocal.Allocator.{
  RangeIter, IpConfig, Outcome, found, exhausted, config_at, advance, arrive, visit, next,
}
use containerz_plugin.HostLocal.Allocator.Position.{At, total, At-range, At-rank, At-address}
use containerz_plugin.HostLocal.Allocator.Iteration.{Denotes, Cursor, Moved, bump, advance-Moved}

-- The address of rank `k` is the gateway of its range.
pub record Skipped (s : RangeSet) (k : ℕ) : Type 0 where
  pub index : ℕ
  pub range : Range
  pub address : Ip
  pub regular : IsRegular address
  pub at : At s index address k
  pub in_range : get_elem? s index ≡ some range
  pub gateway : equal address range.gateway ≡ true

-- `m` addresses from the rank `q` on are gateways.
abbrev pub Skips : RangeSet → ℕ → ℕ → Type 0
Skips s zero q = Unit
Skips s (suc m) q = Skipped s q × Skips s m (bump (total s) q)

abbrev pub turn : ℕ → ℕ → ℕ → ℕ
turn n zero q = q
turn n (suc j) q = turn n j (bump n q)

-- The iterator is under way: `m` addresses are left before it is back at its start.
pub record Going (s : RangeSet) (it : RangeIter) (k m : ℕ) : Type 0 where
  pub address : Ip
  pub cursor : Cursor s it address k
  pub start_regular : IsRegular it.start_ip
  pub start_index : ℕ
  pub start_rank : ℕ
  pub start_at : At s start_index it.start_ip start_rank
  pub distance : (k + suc m ≡ start_rank) ⊎ (k + suc m ≡ start_rank + total s)
  pub short : m < total s

-- The address that `Next` returned, `j` places behind the rank `q`.
pub record Stop (s : RangeSet) (it : RangeIter) (c : IpConfig) (q m j : ℕ) : Type 0 where
  pub range : Range
  pub in_range : get_elem? s it.range_idx ≡ some range
  pub regular : IsRegular it.cur
  pub at : At s it.range_idx it.cur (turn (total s) j q)
  pub not_gateway : equal it.cur range.gateway ≡ false
  pub config : c ≡ config_at range it.cur
  pub passed : Skips s j q
  pub left : ℕ
  pub count : suc j + left ≡ m
  pub going : Going s it (turn (total s) j q) left

-- `m` addresses are to come, from the rank `q` on: `Next` returns the first of them that is not a
-- gateway, or else gives up.
pub data Answer (s : RangeSet) (q m : ℕ) : Outcome → Type 0 where
  stops : {it : RangeIter} {c : IpConfig} (j : ℕ) → Stop s it c q m j → Answer s q m (found it c)
  gives_up : {it : RangeIter} → Skips s m q → Answer s q m (exhausted it)

Answer-skip :
    (s : RangeSet) (q m : ℕ) (o : Outcome)
    → Skipped s q
    → Answer s (bump (total s) q) m o
    → Answer s q (suc m) o
Answer-skip s q m o k (stops j st) = stops (suc j) (record {
  range = st.range;
  in_range = st.in_range;
  regular = st.regular;
  at = st.at;
  not_gateway = st.not_gateway;
  config = st.config;
  passed = (k, st.passed);
  left = st.left;
  count = omega (arith, st.count);
  going = st.going;
})
Answer-skip s q m o k (gives_up all) = gives_up (k, all)

-- At a rank where the iterator stands with `m` more to come, whether it is a gateway or not.
pub Answer-here :
    (s : RangeSet) (it : RangeIter) (r : Range) (q m : ℕ) (again : RangeIter → Outcome)
    → get_elem? s it.range_idx ≡ some r
    → IsRegular it.cur
    → At s it.range_idx it.cur q
    → Going s it q m
    → Answer s (bump (total s) q) m (again it)
    → Answer s q
        (suc m)
        (if equal it.cur r.gateway then again it else found it (config_at r it.cur))
Answer-here s it r q m again g rc p going rest = elim (Bool-cases (equal it.cur r.gateway)) [
  | inl gw ↦ rw gw (
      Answer-skip s q m (again it)
        (record {
          index = it.range_idx;
          range = r;
          address = it.cur;
          regular = rc;
          at = p;
          in_range = g;
          gateway = gw;
        })
        rest)
  | inr free ↦ rw free (
      stops 0 (record {
        range = r;
        in_range = g;
        regular = rc;
        at = p;
        not_gateway = free;
        config = refl;
        passed = tt;
        left = m;
        count = omega arith;
        going = going;
      }))
]

next_step :
    (fuel : ℕ) (s : RangeSet) (it it' : RangeIter) (r r' : Range)
    → get_elem? s it.range_idx ≡ some r
    → is_nil it.cur ≡ false
    → advance s it r ≡ some (it', r')
    → next (suc fuel) s it ≡ arrive (next fuel s) it' r'
unfolding next visit
next_step fuel s it it' r r' g n e = rw (g, next) (rw (n, visit) (rw (e, visit)))

arrive_end :
    (again : RangeIter → Outcome) (it : RangeIter) (r : Range)
    → is_nil it.start_ip ≡ false
    → equal it.cur it.start_ip ≡ true
    → arrive again it r ≡ exhausted it
unfolding arrive
arrive_end again it r n e = rw (n, e)

arrive_on :
    (again : RangeIter → Outcome) (it : RangeIter) (r : Range)
    → is_nil it.start_ip ≡ false
    → equal it.cur it.start_ip ≡ false
    → arrive again it r
      ≡ (if equal it.cur r.gateway then again it else found it (config_at r it.cur))
unfolding arrive
arrive_on again it r n e = rw (n, e)

Denotes-not_nil : (l a : Ip) → Denotes l a → is_nil l ≡ false
unfolding canonicalize_ip to4 to16
Denotes-not_nil [] a d = cc (d.canonical)
Denotes-not_nil (x ∷ xs) a d = refl

bump_cases : (n k : ℕ) → k < n → ((k + 1 ≡ n) × (bump n k ≡ 0)) ⊎ ((k + 1 < n) × (bump n k ≡ k + 1))
bump_cases n k h = ground arith

-- The distance to the start after one move: it is reached, or one less.
distance_end : (n k p : ℕ) → k < n → p < n → (k + 1 ≡ p) ⊎ (k + 1 ≡ p + n) → bump n k ≡ p
distance_end n k p hk hp d = omega (arith, bump_cases n k hk)

distance_on :
    (n k p m : ℕ)
    → k < n
    → p < n
    → (k + suc (suc m) ≡ p) ⊎ (k + suc (suc m) ≡ p + n)
    → suc m < n
    → ((bump n k + suc m ≡ p) ⊎ (bump n k + suc m ≡ p + n)) × (bump n k ≢ p)
distance_on n k p m hk hp d hm =
    (omega (arith, bump_cases n k hk), omega (arith, bump_cases n k hk))

pub next_moves :
    (fuel : ℕ) (s : RangeSet) (it it' : RangeIter) (a : Ip) (r r' : Range)
    → Denotes it.cur a
    → get_elem? s it.range_idx ≡ some r
    → advance s it r ≡ some (it', r')
    → next (suc fuel) s it ≡ arrive (next fuel s) it' r'
next_moves fuel s it it' a r r' d g e =
    next_step fuel s it it' r r' g (Denotes-not_nil it.cur a d) e

module _ (s : RangeSet) (cs : All IsCanonical s) (ds : Disjoint s) where
  -- The last move, back to the start.
  next_end :
      (fuel : ℕ) (it : RangeIter) (k : ℕ)
      → Going s it k 0
      → Answer s (bump (total s) k) 0 (next (suc fuel) s it)
  next_end fuel it k go =
      let (r, g, _, _, hk) = At-range s it.range_idx go.address k cs go.cursor.at in
      let (it', r', moved, mv) = advance-Moved s it go.address k cs go.cursor g in
      let (_, _, _, _, hp) = At-range s go.start_index it.start_ip go.start_rank cs go.start_at in
      let there = distance_end (total s) k go.start_rank hk hp go.distance in
      let back : it'.cur ≡ it.start_ip =
        At-address s it'.range_idx go.start_index it'.cur it.start_ip go.start_rank cs
          mv.cursor.denotes.regular go.start_regular
          (subst (At s it'.range_idx it'.cur) there mv.cursor.at) go.start_at in
      let rs : IsRegular it'.start_ip = subst IsRegular (sym mv.same_start) go.start_regular in
      let closed : equal it'.cur it'.start_ip ≡ true =
        (equal_regular it'.cur it'.start_ip mv.cursor.denotes.regular rs).1
          (back ∙ sym mv.same_start) in
      rw (next_moves fuel s it it' go.address r r' go.cursor.denotes g moved) (
        rw (arrive_end (next fuel s) it' r' (regular_not_nil it'.start_ip rs) closed) (gives_up tt))

  -- Before the start is reached the cursor is at another address.
  not_back :
      (it it' : RangeIter) (r' : Range) (k m : ℕ)
      → (go : Going s it k (suc m)) → Moved s it it' r' (bump (total s) k)
      → bump (total s) k ≢ go.start_rank
      → equal it'.cur it.start_ip ≡ false
  not_back it it' r' k m go mv apart = elim (Bool-cases (equal it'.cur it.start_ip)) [
    | inr e ↦ e
    | inl e ↦
        let same =
          (equal_regular it'.cur it.start_ip mv.cursor.denotes.regular go.start_regular).0 e in
        absurd (
          apart (
            At-rank s it'.range_idx go.start_index it.start_ip (bump (total s) k) go.start_rank cs
              ds (subst (λ t. At s it'.range_idx t (bump (total s) k)) same mv.cursor.at)
              go.start_at))
  ]

  -- Under way, `Next` returns one of the addresses that are left, or gives up behind them.
  pub next-Answer :
      (fuel : ℕ) (it : RangeIter) (k m : ℕ)
      → Going s it k m
      → m < fuel
      → Answer s (bump (total s) k) m (next fuel s it)
  next-Answer zero it k m go h = absurd (omega arith)
  next-Answer (suc fuel) it k zero go h = next_end fuel it k go
  next-Answer (suc fuel) it k (suc m) go h =
      let (r, g, _, _, hk) = At-range s it.range_idx go.address k cs go.cursor.at in
      let (it', r', moved, mv) = advance-Moved s it go.address k cs go.cursor g in
      let (_, _, _, _, hp) = At-range s go.start_index it.start_ip go.start_rank cs go.start_at in
      let (near, apart) = distance_on (total s) k go.start_rank m hk hp go.distance go.short in
      let rs : IsRegular it'.start_ip = subst IsRegular (sym mv.same_start) go.start_regular in
      let away : equal it'.cur it'.start_ip ≡ false =
        subst (λ t. equal it'.cur t ≡ false) (sym mv.same_start)
          (not_back it it' r' k m go mv apart) in
      let going : Going s it' (bump (total s) k) m = record {
        address = it'.cur;
        cursor = mv.cursor;
        start_regular = rs;
        start_index = go.start_index;
        start_rank = go.start_rank;
        start_at = subst (λ t. At s go.start_index t go.start_rank) (sym mv.same_start) go.start_at;
        distance = near;
        short = omega (arith, go.short);
      } in
      rw (next_moves fuel s it it' go.address r r' go.cursor.denotes g moved) (
        rw (arrive_on (next fuel s) it' r' (regular_not_nil it'.start_ip rs) away) (
          Answer-here s it' r' (bump (total s) k) m (next fuel s) mv.range mv.cursor.denotes.regular
            mv.cursor.at going (next-Answer fuel it' (bump (total s) k) m going (omega arith))))
