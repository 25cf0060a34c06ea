-- ===== src/HostLocal/RangeSet/Disjoint.antt =====
-- The ranges of an accepted set are disjoint, so that `RangeFor` has one answer.
use containerz_plugin.Common.{
  ℕ, ◌≡◌, ◌≢◌, ◌⊎◌, inl, inr, true, false, refl, sym, ◌∙◌, [], ◌∷◌, arith, length, ok, err, All,
  Any, >>=-eq-ok, guard-eq-ok, Bool-cases, not, ◌==◌, ==_iff, subst,
}
use mathlib.Core.List.{cons-ne-nil, Memᴰ}
use mathlib.Core.List.Memᴰ.{head, tail}
use containerz_plugin.Net.{Ip}
use containerz_plugin.Net.Regular.{IsRegular}
use containerz_plugin.HostLocal.Range.{Range, contains, overlaps, canonicalize}
use containerz_plugin.HostLocal.Range.Membership.{Between, canonicalize_ip_regular}
use containerz_plugin.HostLocal.Range.Interval.{IsCanonical, contains-Between, overlaps_iff}
use containerz_plugin.HostLocal.RangeSet.{
  RangeSet, find_range, range_for, overlaps_any, self_overlaps, in_set, canonicalize_ranges,
  canonicalize_set, not_in_set,
}

-- No range overlaps one behind it.
abbrev pub Disjoint : RangeSet → Type 0
Disjoint [] = Unit
Disjoint (r ∷ rs) = All (λ s. overlaps r s ≡ false) rs × Disjoint rs

-- Each range of the second set is what `Canonicalize` makes of the range at its place.
abbrev pub Canonicalized : RangeSet → RangeSet → Type 0
Canonicalized [] [] = Unit
Canonicalized [] (_ ∷ _) = ⊥
Canonicalized (_ ∷ _) [] = ⊥
Canonicalized (r ∷ rs) (s ∷ ss) = (canonicalize r ≡ ok s) × Canonicalized rs ss

abbrev pub OfFamily : ℕ → RangeSet → Type 0
OfFamily fam = All (λ r. length r.range_start ≡ fam)

overlaps_any-All :
    (r : Range) (rs : RangeSet) → overlaps_any r rs ≡ false → All (λ s. overlaps r s ≡ false) rs
unfolding overlaps_any
overlaps_any-All r [] h = tt
overlaps_any-All r (s ∷ rs) h = (ground arith, overlaps_any-All r rs (ground arith))

self_overlaps-Disjoint : (s : RangeSet) → self_overlaps s ≡ false → Disjoint s
unfolding self_overlaps
self_overlaps-Disjoint [] h = tt
self_overlaps-Disjoint (r ∷ rs) h =
    (overlaps_any-All r rs (ground arith), self_overlaps-Disjoint rs (ground arith))

in_set-ok : (r : Range) {s : Range} → in_set (canonicalize r) ≡ ok s → canonicalize r ≡ ok s
in_set-ok r h = ground arith

-- The address lies in some range of the list.
abbrev pub InSet : RangeSet → Ip → Type 0
InSet s a = Any (λ r. Between r a) s

-- The loop of `RangeFor` over canonical ranges.
find_range_sound :
    (s : RangeSet) (a : Ip)
    → All IsCanonical s
    → IsRegular a
    → ((r : Range) × (find_range s a ≡ ok r) × Memᴰ r s × IsCanonical r × Between r a × InSet s a)
      ⊎ ((find_range s a ≡ err not_in_set) × ¬ InSet s a)
unfolding find_range
find_range_sound [] a c ra = inr (refl, λ h. h)
find_range_sound (r ∷ rs) a (c, cs) ra = elim (Bool-cases (contains r a)) [
  | inl here ↦
      let b = (contains-Between r a c ra).0 here in (inl (r, rw here, head refl, c, b, inl b))
  | inr miss ↦ elim (find_range_sound rs a cs ra) [
    | inl (q, e, l, cq, bq, more) ↦ inl (q, rw miss e, tail l, cq, bq, inr more)
    | inr (e, none_in) ↦ inr (
      rw miss e,
      elim [ inl b ↦ let t = (contains-Between r a c ra).1 b in cc | inr more ↦ none_in more ],
    )
  ]
]

canonicalize_ranges_lem :
    (fam : ℕ) (rs : RangeSet) {ss : RangeSet}
    → canonicalize_ranges fam rs ≡ ok ss
    → Canonicalized rs ss × OfFamily fam ss
unfolding canonicalize_ranges
canonicalize_ranges_lem fam [] {ss} h =
    let e : [] ≡ ss = cc in subst (λ t. Canonicalized [] t × OfFamily fam t) e (tt, tt)
canonicalize_ranges_lem fam (r ∷ rs) {ss} h =
    let (r', h1, k1) = >>=-eq-ok (in_set (canonicalize r)) _ h in
    let (h2, k2) = guard-eq-ok (fam == length r'.range_start) _ _ k1 in
    let (rest, h3, k3) = >>=-eq-ok (canonicalize_ranges fam rs) _ k2 in
    let ih = canonicalize_ranges_lem fam rs h3 in
    let e : r' ∷ rest ≡ ss = cc in
    let same : length r'.range_start ≡ fam = sym ((==_iff _ _).0 h2) in
    subst (λ t. Canonicalized (r ∷ rs) t × OfFamily fam t) e ((in_set-ok r h1, ih.0), (same, ih.1))

-- The set that `Canonicalize` accepts: not empty, range for range the canonical form of the one that
-- it was given, of one address family, and with no two ranges that overlap.
pub canonicalize_set_sound :
    (s : RangeSet) {t : RangeSet}
    → canonicalize_set s ≡ ok t
    → (t ≢ []) × Canonicalized s t × ((fam : ℕ) × OfFamily fam t) × Disjoint t
unfolding canonicalize_set
canonicalize_set_sound [] h = cc
canonicalize_set_sound (r ∷ rs) {t} h =
    let (r', h1, k1) = >>=-eq-ok (in_set (canonicalize r)) _ h in
    let (rest, h2, k2) = >>=-eq-ok (canonicalize_ranges (length r'.range_start) rs) _ k1 in
    let (h3, k3) = guard-eq-ok (not (self_overlaps (r' ∷ rest))) _ _ k2 in
    let e : r' ∷ rest ≡ t = cc in
    let (done, family) = canonicalize_ranges_lem (length r'.range_start) rs h2 in
    let apart : self_overlaps (r' ∷ rest) ≡ false = ground arith in
    subst (λ u. (u ≢ []) × Canonicalized (r ∷ rs) u × ((fam : ℕ) × OfFamily fam u) × Disjoint u) e
      (
        cons-ne-nil r' rest,
        (in_set-ok r h1, done),
        (length r'.range_start, (refl, family)),
        self_overlaps-Disjoint (r' ∷ rest) apart,
      )

-- An address between the bounds of two canonical ranges is a common one.
Between-overlaps :
    (r s : Range) (a : Ip)
    → IsCanonical r
    → IsCanonical s
    → Between r a
    → Between s a
    → overlaps r s ≡ true
Between-overlaps r s a cr cs br bs =
    (overlaps_iff r s cr cs).1 (sym br.0 ∙ bs.0, omega (arith, br, bs), omega (arith, br, bs))

pub not-InSet :
    (r : Range) (rs : RangeSet) (a : Ip)
    → IsCanonical r
    → All IsCanonical rs
    → All (λ s. overlaps r s ≡ false) rs
    → Between r a
    → ¬ InSet rs a
not-InSet r [] a cr crs d b h = h
not-InSet r (s ∷ rs) a cr (cs, crs) (d, ds) b (inl h) =
    let o = Between-overlaps r s a cr cs b h in cc
not-InSet r (s ∷ rs) a cr (cs, crs) (d, ds) b (inr h) = not-InSet r rs a cr crs ds b h

-- `RangeFor`, for a set of canonical ranges and an address in standard form, finds a range of the set
-- that holds the address, if one does, and else reports that none does.
pub range_for_sound :
    (s : RangeSet) (a : Ip)
    → All IsCanonical s
    → IsRegular a
    → ((r : Range) × (range_for s a ≡ ok r) × Memᴰ r s × IsCanonical r × Between r a × InSet s a)
      ⊎ ((range_for s a ≡ err not_in_set) × ¬ InSet s a)
unfolding range_for
range_for_sound s a c ra = rw (canonicalize_ip_regular a ra, range_for) (find_range_sound s a c ra)
