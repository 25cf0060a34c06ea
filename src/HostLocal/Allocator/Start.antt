-- ===== src/HostLocal/Allocator/Start.antt =====
-- Where the iterator of `GetIter` starts: at the first address of the set, or behind the last
-- reserved address. From either start all addresses of the set are to come.
use containerz_plugin.Common.{
  ℕ, zero, suc, ◌-◌, ◌<◌, ◌≡◌, inr, refl, sym, subst, ◌∙◌, [], ◌∷◌, arith, some, All, get_elem?,
  if◌then◌else◌,
}
use containerz_plugin.Net.{Ip, equal}
use containerz_plugin.Net.Regular.{IsRegular}
use containerz_plugin.HostLocal.Range.{Range}
use containerz_plugin.HostLocal.Range.Interval.{IsCanonical}
use containerz_plugin.HostLocal.RangeSet.{RangeSet}
use containerz_plugin.HostLocal.RangeSet.Disjoint.{Disjoint}
use containerz_plugin.HostLocal.Allocator.{
  RangeIter, Outcome, found, config_at, arrive, begin, visit, next,
}
use containerz_plugin.HostLocal.Allocator.Position.{At, total, At-range}
use containerz_plugin.HostLocal.Allocator.Iteration.{Cursor, bump, regular-Denotes, advance-Moved}
use containerz_plugin.HostLocal.Allocator.Sweep.{
  Going, Answer, Answer-here, next-Answer, next_moves,
}

-- From the rank `q` on, `m` addresses are to come, on any fuel above `m`.
abbrev pub Ready : RangeSet → RangeIter → ℕ → ℕ → Type 0
Ready s it q m = (fuel : ℕ) → m < fuel → Answer s q m (next fuel s it)

arrive_first :
    (again : RangeIter → Outcome) (it : RangeIter) (r : Range)
    → it.start_ip ≡ []
    → arrive again it r ≡ (
        let it' = record it { start_ip = it.cur } in
        if equal it'.cur r.gateway then again it' else found it' (config_at r it'.cur))
unfolding arrive
arrive_first again it r e = rw e

-- An iterator with no cursor yet.
abbrev pub at_first : Ip → RangeIter
at_first start = record { range_idx = 0; cur = []; start_ip = start }

next_begins :
    (fuel : ℕ) (r : Range) (rs : RangeSet) (start : Ip)
    → next (suc fuel) (r ∷ rs) (at_first start) ≡ (
        let it' : RangeIter = record {
          range_idx = 0;
          cur = r.range_start;
          start_ip = r.range_start;
        } in
        if equal it'.cur r.gateway then next fuel (r ∷ rs) it' else found it' (config_at r it'.cur))
unfolding next visit begin
next_begins fuel r rs start = refl

module _ (s : RangeSet) (cs : All IsCanonical s) (ds : Disjoint s) where
  -- An iterator that has just arrived where it starts.
  started :
      (it : RangeIter) (q n : ℕ)
      → total s ≡ suc n
      → IsRegular it.cur
      → At s it.range_idx it.cur q
      → it.start_ip ≡ it.cur
      → Going s it q n
  started it q n e rc p same = record {
    address = it.cur;
    cursor = record { denotes = regular-Denotes it.cur rc; at = p };
    start_regular = subst IsRegular (sym same) rc;
    start_index = it.range_idx;
    start_rank = q;
    start_at = subst (λ t. At s it.range_idx t q) (sym same) p;
    distance = inr (omega (arith, e));
    short = omega (arith, e);
  }

  started-Answer :
      (fuel : ℕ) (it : RangeIter) (r : Range) (q : ℕ)
      → get_elem? s it.range_idx ≡ some r
      → IsRegular it.cur
      → At s it.range_idx it.cur q
      → it.start_ip ≡ it.cur
      → total s < suc fuel
      → Answer s q
          (total s)
          (if equal it.cur r.gateway then next fuel s it else found it (config_at r it.cur))
  started-Answer fuel it r q g rc p same h =
      let (_, _, _, _, below) = At-range s it.range_idx it.cur q cs p in
      let n = total s - 1 in
      let e : total s ≡ suc n = omega arith in
      let going = started it q n e rc p same in
      subst
        (λ t.
          Answer s q t
            (if equal it.cur r.gateway then next fuel s it else found it (config_at r it.cur)))
        (sym e)
        (Answer-here s it r q n (next fuel s) g rc p going
          (next-Answer s cs ds fuel it q n going (omega arith)))

  -- Behind the last reserved address.
  pub resume-Ready :
      (it : RangeIter) (a : Ip) (k : ℕ)
      → it.start_ip ≡ []
      → Cursor s it a k
      → Ready s it (bump (total s) k) (total s)
  resume-Ready it a k fresh c zero h = absurd (omega arith)
  resume-Ready it a k fresh c (suc fuel) h =
      let (r, g, _, _, _) = At-range s it.range_idx a k cs c.at in
      let (it', r', moved, mv) = advance-Moved s it a k cs c g in
      rw (next_moves fuel s it it' a r r' c.denotes g moved) (
        rw (arrive_first (next fuel s) it' r' (mv.same_start ∙ fresh)) (
          started-Answer fuel (record it' { start_ip = it'.cur }) r' (bump (total s) k) mv.range
            mv.cursor.denotes.regular mv.cursor.at refl h))

-- At the first address of the set.
pub begin-Ready :
    (r : Range) (rs : RangeSet) (start : Ip)
    → All IsCanonical (r ∷ rs)
    → Disjoint (r ∷ rs)
    → Ready (r ∷ rs) (at_first start) 0 (total (r ∷ rs))
begin-Ready r rs start cs ds zero h = absurd (omega arith)
begin-Ready r rs start (c, cs) ds (suc fuel) h =
    let p = c.proper in
    rw (next_begins fuel r rs start) (
      started-Answer (r ∷ rs) (c, cs) ds fuel
        (record { range_idx = 0; cur = r.range_start; start_ip = r.range_start }) r 0 refl
        p.start_regular ((refl, omega arith, p.ordered), omega arith) refl h)
