-- ===== src/HostLocal/Allocator/Position.antt =====
-- The addresses of a range set in the order of the iterator: each has a rank, counted through the
-- ranges one after the other.
use containerz_plugin.Common.{
  ℕ, zero, suc, ◌+◌, ◌-◌, ◌≤◌, ◌<◌, ◌≡◌, ◌≢◌, inl, inr, refl, sym, ap, subst, ◌∙◌, [], ◌∷◌, arith,
  length, some, All, get_elem?,
}
use containerz_plugin.Net.{Ip}
use containerz_plugin.Net.Values.{value, value-injective}
use containerz_plugin.Net.Regular.{IsRegular}
use containerz_plugin.HostLocal.Range.{Range}
use containerz_plugin.HostLocal.Range.Membership.{Between}
use containerz_plugin.HostLocal.Range.Interval.{IsCanonical}
use containerz_plugin.HostLocal.RangeSet.{RangeSet}
use containerz_plugin.HostLocal.RangeSet.Disjoint.{Disjoint, InSet, not-InSet}

abbrev pub size : Range → ℕ
size r = value r.range_end - value r.range_start + 1

-- The number of addresses of the set.
abbrev pub total : RangeSet → ℕ
total [] = 0
total (r ∷ rs) = size r + total rs

-- The address `c` of the range with index `i` has the rank `k`.
abbrev pub At : RangeSet → ℕ → Ip → ℕ → Type 0
At [] i c k = ⊥
At (r ∷ rs) zero c k = Between r c × (value c ≡ value r.range_start + k)
At (r ∷ rs) (suc i) c k = (size r ≤ k) × At rs i c (k - size r)

pub At-range :
    (s : RangeSet) (i : ℕ) (c : Ip) (k : ℕ)
    → All IsCanonical s
    → At s i c k
    → (r : Range) × (get_elem? s i ≡ some r) × IsCanonical r × Between r c × (k < total s)
At-range [] i c k cs p = absurd p
At-range (r ∷ rs) zero c k (cr, cs) (b, e) = (r, refl, cr, b, omega (arith, cr.proper.ordered, b))
At-range (r ∷ rs) (suc i) c k (cr, cs) (l, p) =
    let (q, e, cq, b, below) = At-range rs i c (k - size r) cs p in (q, e, cq, b, omega arith)

pub At-InSet : (s : RangeSet) (i : ℕ) (c : Ip) (k : ℕ) → At s i c k → InSet s c
At-InSet [] i c k p = p
At-InSet (r ∷ rs) zero c k p = inl p.0
At-InSet (r ∷ rs) (suc i) c k p = inr (At-InSet rs i c (k - size r) p.1)

pub InSet-At : (s : RangeSet) (c : Ip) → InSet s c → (i : ℕ) × (k : ℕ) × At s i c k
InSet-At [] c h = absurd h
InSet-At (r ∷ rs) c (inl b) = (0, value c - value r.range_start, (b, omega (arith, b)))
InSet-At (r ∷ rs) c (inr h) =
    let (i, k, p) = InSet-At rs c h in
    let e : k ≡ k + size r - size r = omega arith in
    (suc i, k + size r, (omega arith, subst (At rs i c) e p))

later : (k n : ℕ) → n ≤ k → k - n + 1 ≡ k + 1 - n
later k n h = omega arith

-- The next address of the same range has the next rank.
pub At-next :
    (s : RangeSet) (i : ℕ) (c d : Ip) (k : ℕ) {r : Range}
    → At s i c k
    → get_elem? s i ≡ some r
    → value c ≢ value r.range_end
    → length d ≡ length c
    → value d ≡ value c + 1
    → At s i d (k + 1)
At-next [] i c d k p g n l e = absurd p
At-next (q ∷ rs) zero c d k {r} p g n l e =
    let same : q ≡ r = cc in
    let e' : value r.range_end ≡ value q.range_end =
      ap (λ (t : Range). value t.range_end) (sym same) in
    ((l ∙ p.0.0, omega (arith, p), omega (arith, p, e')), omega (arith, p))
At-next (q ∷ rs) (suc i) c d k p g n l e = (
  omega (arith, p.0),
  subst (At rs i d) (later k (size q) p.0) (At-next rs i c d (k - size q) p.1 g n l e),
)

-- Behind the end of a range stands the start of the next range.
pub At-start :
    (s : RangeSet) (i : ℕ) (c : Ip) (k : ℕ) {r r' : Range}
    → All IsCanonical s
    → At s i c k
    → get_elem? s i ≡ some r
    → value c ≡ value r.range_end
    → get_elem? s (suc i) ≡ some r'
    → At s (suc i) r'.range_start (k + 1)
At-start [] i c k cs p g e g' = absurd p
At-start (q ∷ []) zero c k cs p g e g' = cc
At-start (q ∷ r1 ∷ rs) zero c k {r} {r'} (cq, (cr, cs)) p g e g' =
    let same : q ≡ r = cc in
    let next : r1 ≡ r' = cc in
    let e' : value r.range_end ≡ value q.range_end =
      ap (λ (t : Range). value t.range_end) (sym same) in
    subst (λ t. At (q ∷ r1 ∷ rs) 1 t.range_start (k + 1)) next
      (
        omega (arith, p, e'),
        ((refl, omega arith, cr.proper.ordered), omega (arith, p, e', cq.proper.ordered)),
      )
At-start (q ∷ rs) (suc i) c k {r} {r'} (cq, cs) p g e g' = (
  omega (arith, p.0),
  subst (At rs (suc i) r'.range_start) (later k (size q) p.0)
      (At-start rs i c (k - size q) cs p.1 g e g'),
)

-- The end of the last range has the last rank.
pub At-last :
    (s : RangeSet) (i : ℕ) (c : Ip) (k : ℕ) {r : Range}
    → At s i c k
    → get_elem? s i ≡ some r
    → value c ≡ value r.range_end
    → suc i ≡ length s
    → k + 1 ≡ total s
At-last [] i c k p g e n = absurd p
At-last (q ∷ []) zero c k {r} p g e n =
    let same : q ≡ r = cc in
    let e' : value r.range_end ≡ value q.range_end =
      ap (λ (t : Range). value t.range_end) (sym same) in
    omega (arith, p, e')
At-last (q ∷ r1 ∷ rs) zero c k p g e n = absurd (omega arith)
At-last (q ∷ rs) (suc i) c k p g e n =
    omega (arith, p.0, At-last rs i c (k - size q) p.1 g e (omega arith))

-- An address of disjoint ranges has one rank.
pub At-rank :
    (s : RangeSet) (i j : ℕ) (c : Ip) (k l : ℕ)
    → All IsCanonical s
    → Disjoint s
    → At s i c k
    → At s j c l
    → k ≡ l
At-rank [] i j c k l cs d p q = absurd p
At-rank (r ∷ rs) zero zero c k l cs d p q = omega (arith, p, q)
At-rank (r ∷ rs) zero (suc j) c k l (cr, cs) (d, ds) p q =
    absurd (not-InSet r rs c cr cs d p.0 (At-InSet rs j c (l - size r) q.1))
At-rank (r ∷ rs) (suc i) zero c k l (cr, cs) (d, ds) p q =
    absurd (not-InSet r rs c cr cs d q.0 (At-InSet rs i c (k - size r) p.1))
At-rank (r ∷ rs) (suc i) (suc j) c k l (cr, cs) (d, ds) p q =
    omega (arith, At-rank rs i j c (k - size r) (l - size r) cs ds p.1 q.1, p.0, q.0)

-- A rank belongs to one address.
pub At-address :
    (s : RangeSet) (i j : ℕ) (c d : Ip) (k : ℕ)
    → All IsCanonical s
    → IsRegular c
    → IsRegular d
    → At s i c k
    → At s j d k
    → c ≡ d
At-address [] i j c d k cs rc rd p q = absurd p
At-address (r ∷ rs) zero zero c d k cs rc rd p q =
    value-injective c d rc.bytes rd.bytes (p.0.0 ∙ sym q.0.0) (p.1 ∙ sym q.1)
At-address (r ∷ rs) zero (suc j) c d k (cr, cs) rc rd p q =
    absurd (omega (arith, p, q.0, cr.proper.ordered))
At-address (r ∷ rs) (suc i) zero c d k (cr, cs) rc rd p q =
    absurd (omega (arith, q, p.0, cr.proper.ordered))
At-address (r ∷ rs) (suc i) (suc j) c d k (cr, cs) rc rd p q =
    At-address rs i j c d (k - size r) cs rc rd p.1 q.1
