-- ===== src/HostLocal/Allocator/Resume.antt =====
-- `GetIter`: the iterator that it makes is ready to pass over every address of the set.
use native.Mathlib.Nat.{zero-add}
use containerz_plugin.Common.{
  ℕ, suc, ◌+◌, ◌-◌, ◌≤◌, ◌<◌, ◌≡◌, ◌≢◌, ◌⊎◌, inl, inr, refl, sym, ap, subst, ◌∙◌, [], ◌∷◌, arith,
  length, some, ok, All, All-drop, Bool, true, false, Bool-cases, Option-cases, Result-cases, drop,
  length-drop, Option, not, ◌&&◌,
}
use containerz_plugin.Net.{Ip, is_nil, to4, to16, is_mapped}
use containerz_plugin.Net.Values.{IsByte, IsBytes, value}
use containerz_plugin.Net.Regular.{IsRegular, regular_not_nil}
use containerz_plugin.Cidr.Next.{normalize_regular}
use containerz_plugin.Cidr.{normalize_ip, cmp, order_of}
use containerz_plugin.HostLocal.Range.{Range, canonicalize_ip, contains, contains_canonical}
use containerz_plugin.HostLocal.Range.Interval.{IsCanonical, contains-Between}
use containerz_plugin.HostLocal.RangeSet.{RangeSet, set_contains, range_for, find_range}
use containerz_plugin.HostLocal.RangeSet.Disjoint.{Disjoint}
use containerz_plugin.HostLocal.Store.{Store, IsStore}
use containerz_plugin.HostLocal.Allocator.{
  RangeIter, IpAllocator, get_iter, index_of, from_last, from_first,
}
use containerz_plugin.HostLocal.Allocator.Position.{At, total, size, At-range}
use containerz_plugin.HostLocal.Allocator.Iteration.{Denotes, bump}
use containerz_plugin.HostLocal.Allocator.Start.{Ready, resume-Ready, begin-Ready, at_first}

form_cases :
    (l c : Ip)
    → canonicalize_ip l ≡ some c
    → ((length c ≡ 4) × ((c ≡ l) ⊎ (c ≡ drop 12 l)))
      ⊎ ((length c ≡ 16) × (c ≡ l) × (is_mapped c ≡ false))
unfolding canonicalize_ip to4 to16
form_cases l c e = ground (arith, length-drop 12 l)

canonicalize_canonical : (l c : Ip) → canonicalize_ip l ≡ some c → canonicalize_ip c ≡ some c
unfolding canonicalize_ip to4 to16
canonicalize_canonical [] c e = cc
canonicalize_canonical (x ∷ xs) [] e = absurd (omega (arith, form_cases (x ∷ xs) [] e))
canonicalize_canonical (x ∷ xs) (y ∷ ys) e = ground (arith, form_cases (x ∷ xs) (y ∷ ys) e)

normalize_unmapped : (c : Ip) → length c ≡ 16 → is_mapped c ≡ false → normalize_ip c ≡ c
unfolding normalize_ip to4 to16
normalize_unmapped c n u = ground arith

-- A 16-byte address that is no form of an IPv4 address and that the range contains is not below the
-- start of the range.
contains_v6_low :
    (r : Range) (c : Ip)
    → IsCanonical r
    → canonicalize_ip c ≡ some c
    → length c ≡ 16
    → is_mapped c ≡ false
    → contains r c ≡ true
    → (length r.range_start ≡ 16) × (value r.range_start ≤ value c)
unfolding contains contains_canonical cmp order_of
contains_v6_low r c cr e n u h = ground (
  arith,
  normalize_unmapped c n u,
  normalize_regular r.range_start cr.proper.start_regular,
  regular_not_nil r.range_start cr.proper.start_regular,
  cr.proper.subnet_family,
)

contains-IsRegular :
    (r : Range) (l c : Ip)
    → IsCanonical r
    → IsBytes l
    → canonicalize_ip l ≡ some c
    → contains r c ≡ true
    → IsRegular c
contains-IsRegular r l c cr h e inside = elim (form_cases l c e) [
  | inl (n, inl same) ↦ record { bytes = subst IsBytes (sym same) h; form = inl n }
  | inl (n, inr tail) ↦ record {
    bytes = subst IsBytes (sym tail) (All-drop IsByte 12 l h);
    form = inl n;
  }
  | inr (n, same, u) ↦
      let (fam, low) = contains_v6_low r c cr (canonicalize_canonical l c e) n u inside in
      record {
        bytes = subst IsBytes (sym same) h;
        form = inr (n, omega (arith, cr.proper.start_regular.form));
      }
]

-- `Contains` looks at the canonical form.
contains_form : (r : Range) (l c : Ip) → canonicalize_ip l ≡ some c → contains r l ≡ contains r c
unfolding contains
contains_form r l c e = ground (arith, canonicalize_canonical l c e)

-- The range that `GetIter` looks for is there, and the last reserved address has a rank.
index_of-At :
    (s : RangeSet) (n : ℕ) (l c : Ip) {r : Range}
    → All IsCanonical s
    → IsBytes l
    → canonicalize_ip l ≡ some c
    → find_range s c ≡ ok r
    → (i : ℕ) × (k : ℕ) × (index_of n s l ≡ some (n + i)) × Denotes l c × At s i c k
unfolding index_of find_range
index_of-At [] n l c cs h e f = cc
index_of-At (q ∷ rs) n l c {r} (cq, cs) h e f = elim (Bool-cases (contains q c)) [
  | inl here ↦
      let rc = contains-IsRegular q l c cq h e here in
      let b = (contains-Between q c cq rc).0 here in
      (
        0,
        value c - value q.range_start,
        rw (contains_form q l c e, here) (ap some (omega arith)),
        record { canonical = e; regular = rc },
        (b, omega (arith, b)),
      )
  | inr miss ↦
      let (i, k, found_at, d, p) = index_of-At rs (n + 1) l c {r = r} cs h e (ground arith) in
      (
        suc i,
        k + size q,
        rw (contains_form q l c e, miss) (found_at ∙ ap some (omega arith)),
        d,
        (omega arith, subst (At rs i c) (omega arith) p),
      )
]

set_contains-find :
    (s : RangeSet) (l : Ip)
    → set_contains s l ≡ true
    → (c : Ip) × (r : Range) × (canonicalize_ip l ≡ some c) × (find_range s c ≡ ok r)
unfolding set_contains range_for
set_contains-find s l h = elim (Option-cases (canonicalize_ip l)) [
  | inl no_form ↦ ground arith
  | inr (c, e) ↦ elim (Result-cases (find_range s c)) [
    | inl (r, f) ↦ (c, r, e, f)
    | inr (x, f) ↦ ground arith
  ]
]

-- The iterator that `GetIter` returns, and the rank that it starts from.
pub record Iter (s : RangeSet) (o : Option RangeIter) : Type 0 where
  pub iter : RangeIter
  pub made : o ≡ some iter
  pub first : ℕ
  pub first_lt : first < total s
  pub ready : Ready s iter first (total s)

from_first-Iter : (s : RangeSet) → s ≢ [] → All IsCanonical s → Disjoint s → Iter s (from_first s)
from_first-Iter [] h cs ds = absurd (h refl)
from_first-Iter (r ∷ rs) h cs ds = record {
  iter = at_first r.range_start;
  made = refl;
  first = 0;
  first_lt = omega arith;
  ready = begin-Ready r rs r.range_start cs ds;
}

from_last-Iter :
    (s : RangeSet) (l : Ip)
    → All IsCanonical s
    → Disjoint s
    → IsBytes l
    → set_contains s l ≡ true
    → Iter s (from_last s l)
from_last-Iter s l cs ds h inside =
    let (c, r, e, f) = set_contains-find s l inside in
    let (i, k, found_at, d, p) = index_of-At s 0 l c cs h e f in
    let it : RangeIter = record { range_idx = i; cur = l; start_ip = [] } in
    let (_, _, _, _, below) = At-range s i c k cs p in
    record {
      iter = it;
      made = rw (found_at ∙ ap some (zero-add i), from_last);
      first = bump (total s) k;
      first_lt = ground arith;
      ready = resume-Ready s cs ds it c k refl (record { denotes = d; at = p });
    }

module _ {S : Type 0} (st : Store S) {taken : S → Ip → Bool} (laws : IsStore st taken) where
  -- For a set of canonical ranges, not empty and with no overlap, and a store that keeps its contract:
  -- whatever the store has as the last reserved address, `GetIter` does not panic, and its iterator
  -- is to pass over as many addresses as the set has.
  pub get_iter-Iter :
      (a : IpAllocator) (x : S)
      → a.rangeset ≢ []
      → All IsCanonical a.rangeset
      → Disjoint a.rangeset
      → Iter a.rangeset (get_iter st a x)
  unfolding get_iter
  get_iter-Iter a x ne cs ds = elim (Result-cases (st.last_reserved_ip x a.range_id)) [
    | inr (e, failed) ↦ rw (failed, get_iter) (from_first-Iter a.rangeset ne cs ds)
    | inl (l, last) ↦ elim (Bool-cases (not (is_nil l) && set_contains a.rangeset l)) [
      | inr out ↦ rw (last, get_iter) (rw out (from_first-Iter a.rangeset ne cs ds))
      | inl inside ↦
          rw (last, get_iter)
            (rw inside (
              from_last-Iter a.rangeset l cs ds (laws.last_bytes x a.range_id l last)
                (ground arith)))
    ]
  ]
