-- ===== src/HostLocal/RangeSet.antt =====
-- plugins/ipam/host-local/backend/allocator/range_set.go: a list of ranges of one address family.
pub mod Disjoint
use containerz_plugin.Common.{
  ℕ, Bool, true, false, ◌||◌, not, List, [], ◌∷◌, Option, none, some, length, ◌==◌, if◌then◌else◌,
  Result, ok, err, ◌>>=◌, ◌>>◌, guard, is_ok,
}
use containerz_plugin.Net.{Ip}
use containerz_plugin.HostLocal.Range.{
  Range, RangeError, canonicalize_ip, contains, overlaps, canonicalize,
}

abbrev pub RangeSet : Type 0
RangeSet = List Range

pub data SetError : Type 0 where
  empty_set bad_address not_in_set mixed_families overlapping : SetError
  bad_range : RangeError → SetError

-- the loop of `RangeFor`
unfoldable pub find_range : RangeSet → Ip → Result SetError Range
find_range [] a = err not_in_set
find_range (r ∷ rs) a = if contains r a then ok r else find_range rs a

unfoldable pub range_for : RangeSet → Ip → Result SetError Range
range_for s addr = elim (canonicalize_ip addr) [ none ↦ err bad_address | some a ↦ find_range s a ]

-- `RangeSet.Contains`: the range that `RangeFor` finds is not nil.
unfoldable pub set_contains : RangeSet → Ip → Bool
set_contains s addr = is_ok (range_for s addr)

unfoldable pub overlaps_any : Range → RangeSet → Bool
overlaps_any r [] = false
overlaps_any r (r1 ∷ rs) = overlaps r r1 || overlaps_any r rs

-- `RangeSet.Overlaps`
unfoldable pub set_overlaps : RangeSet → RangeSet → Bool
unfolding overlaps_any
set_overlaps [] p = false
set_overlaps (r ∷ rs) p = overlaps_any r p || set_overlaps rs p

abbrev pub in_set {ℓ} : {A : Type ℓ} → Result RangeError A → Result SetError A
in_set (ok a) = ok a
in_set (err e) = err (bad_range e)

-- the first loop of `Canonicalize`, behind the first range, whose family is `fam`
unfoldable pub canonicalize_ranges : ℕ → RangeSet → Result SetError RangeSet
canonicalize_ranges fam [] = ok []
canonicalize_ranges fam (r ∷ rs) = do
  r' ← in_set (canonicalize r)
  guard (fam == length r'.range_start) mixed_families
  rest ← canonicalize_ranges fam rs
  ok (r' ∷ rest)

-- its second loop: each range against those behind it
unfoldable pub self_overlaps : RangeSet → Bool
unfolding overlaps_any
self_overlaps [] = false
self_overlaps (r ∷ rs) = overlaps_any r rs || self_overlaps rs

unfoldable pub canonicalize_set : RangeSet → Result SetError RangeSet
unfolding canonicalize_ranges self_overlaps
canonicalize_set [] = err empty_set
canonicalize_set (r ∷ rs) = do
  r' ← in_set (canonicalize r)
  rest ← canonicalize_ranges (length r'.range_start) rs
  guard (not (self_overlaps (r' ∷ rest))) overlapping
  ok (r' ∷ rest)
