-- ===== src/HostLocal/Allocator/Iteration.antt =====
-- The iterator goes round the addresses of the set: each step of its cursor is to the next rank, and
-- it gives up when it is back where it started.
use native.Mathlib.Nat.{mod-eq_of_lt, mod_self}
use containerz_plugin.Common.{
  ℕ, zero, suc, ◌+◌, ◌^◌, ◌%◌, ◌<◌, ◌≡◌, ◌≢◌, ◌⊎◌, inl, inr, refl, sym, ap, subst, ◌∙◌, [], ◌∷◌,
  arith, length, some, All, get_elem?, drop, length-drop, ◌↔◌, true, false, Bool-cases, ◌==◌,
  if◌then◌else◌,
}
use containerz_plugin.Net.{Ip, equal, is_mapped, to4, to16}
use containerz_plugin.Net.Values.{value, value-lt, value-injective, bytes_eq_iff}
use containerz_plugin.Net.Regular.{IsRegular, equal_regular, not_mapped}
use containerz_plugin.Cidr.{next_ip, normalize_ip}
use containerz_plugin.Cidr.Next.{normalize_regular, next_ip_lem}
use containerz_plugin.HostLocal.Range.{Range, canonicalize_ip}
use containerz_plugin.HostLocal.Range.Membership.{Between, canonicalize_ip_regular}
use containerz_plugin.HostLocal.Range.Interval.{IsCanonical}
use containerz_plugin.HostLocal.RangeSet.{RangeSet}
use containerz_plugin.HostLocal.Allocator.{RangeIter, advance}
use containerz_plugin.HostLocal.Allocator.Position.{At, total, At-range, At-next, At-start, At-last}

-- The bytes `l` are a form of the address `a`: the same, or its 16-byte form.
pub record Denotes (l a : Ip) : Type 0 where
  pub canonical : canonicalize_ip l ≡ some a
  pub regular : IsRegular a

pub regular-Denotes : (a : Ip) → IsRegular a → Denotes a a
regular-Denotes a r = record { canonical = canonicalize_ip_regular a r; regular = r }

next_ip-Denotes : (l a : Ip) → Denotes l a → next_ip l ≡ next_ip a
unfolding next_ip
next_ip-Denotes l a d =
    let same : normalize_ip l ≡ a =
      unfold normalize_ip canonicalize_ip in ground (arith, d.canonical) in
    rw (same, normalize_regular a d.regular)

Denotes-cases :
    (l a : Ip)
    → Denotes l a
    → (l ≡ a) ⊎ ((length l ≡ 16) × (length a ≡ 4) × (is_mapped l ≡ true) × (a ≡ drop 12 l))
unfolding canonicalize_ip to4 to16
Denotes-cases l a d = ground (arith, d.canonical, length-drop 12 l)

equal-Denotes : (l a b : Ip) → Denotes l a → IsRegular b → equal l b ≡ equal a b
equal-Denotes l a b d rb = elim (Denotes-cases l a d) [
  | inl same ↦ ap (λ t. equal t b) same
  | inr (n, m, mapped, tail) ↦
      unfold equal in ground (arith, not_mapped b rb.bytes, bytes_eq_iff l b, ap is_mapped)
]

equal-value :
    (l a b : Ip)
    → Denotes l a
    → IsRegular b
    → length a ≡ length b
    → (equal l b ≡ true) ↔ (value a ≡ value b)
equal-value l a b d rb n =
    let e = equal_regular a b d.regular rb in
    (
      λ h. ap value (e.0 (sym (equal-Denotes l a b d rb) ∙ h)),
      λ v. equal-Denotes l a b d rb ∙ e.1 (value-injective a b d.regular.bytes rb.bytes n v),
    )

-- The rank behind `k`, among `n`.
abbrev pub bump : ℕ → ℕ → ℕ
bump n k = if k + 1 == n then 0 else k + 1

-- The cursor stands at the address `a` of rank `k`.
pub record Cursor (s : RangeSet) (it : RangeIter) (a : Ip) (k : ℕ) : Type 0 where
  pub denotes : Denotes it.cur a
  pub at : At s it.range_idx a k

pub record Moved (s : RangeSet) (it it' : RangeIter) (r' : Range) (k : ℕ) : Type 0 where
  pub range : get_elem? s it'.range_idx ≡ some r'
  pub cursor : Cursor s it' it'.cur k
  pub same_start : it'.start_ip ≡ it.start_ip

get_elem?-total : (s : RangeSet) (i : ℕ) → i < length s → (r : Range) × (get_elem? s i ≡ some r)
get_elem?-total [] i h = absurd (omega arith)
get_elem?-total (r ∷ rs) zero h = (r, refl)
get_elem?-total (r ∷ rs) (suc i) h = get_elem?-total rs i (omega arith)

some_injective {ℓ} : {A : Type ℓ} {x y : A} → some x ≡ some y → x ≡ y
some_injective e = cc

get_elem?-lt : (s : RangeSet) (i : ℕ) {r : Range} → get_elem? s i ≡ some r → i < length s
get_elem?-lt [] i e = cc
get_elem?-lt (q ∷ rs) zero e = omega arith
get_elem?-lt (q ∷ rs) (suc i) e = omega (arith, get_elem?-lt rs i e)

advance_step :
    (s : RangeSet) (it : RangeIter) (r : Range) (n : Ip)
    → equal it.cur r.range_end ≡ false
    → next_ip it.cur ≡ some n
    → advance s it r ≡ some (record it { cur = n }, r)
unfolding advance
advance_step s it r n ne e = ground arith

advance_jump :
    (s : RangeSet) (it : RangeIter) (r r' : Range) (i : ℕ)
    → equal it.cur r.range_end ≡ true
    → (it.range_idx + 1) % length s ≡ i
    → get_elem? s i ≡ some r'
    → advance s it r ≡ some (record it { range_idx = i; cur = r'.range_start }, r')
unfolding advance
advance_jump s it r r' i e m g = rw (e, m, g)

-- Inside a range.
advance_inside :
    (s : RangeSet) (it : RangeIter) (r : Range) (a : Ip) (k : ℕ)
    → All IsCanonical s
    → Cursor s it a k
    → get_elem? s it.range_idx ≡ some r
    → IsCanonical r
    → Between r a
    → equal it.cur r.range_end ≡ false
    → (it' : RangeIter) × (advance s it r ≡ some (it', r)) × Moved s it it' r (k + 1)
advance_inside s it r a k cs c g cr b ne =
    let re = cr.proper.end_regular in
    let family : length a ≡ length r.range_end = b.0 ∙ sym cr.proper.family in
    let differs : value a ≢ value r.range_end =
      λ v. let t = (equal-value it.cur a r.range_end c.denotes re family).1 v in cc in
    let room : value a + 1 < 256 ^ length a =
      let top : value r.range_end < 256 ^ length a =
        subst (λ n. value r.range_end < 256 ^ n) (sym family) (value-lt _ re.bytes) in
      omega arith in
    let (n, made, rn, ln, vn) = next_ip_lem a c.denotes.regular room in
    (
      record it { cur = n },
      advance_step s it r n ne (next_ip-Denotes it.cur a c.denotes ∙ made),
      record {
        range = g;
        cursor = record {
          denotes = regular-Denotes n rn;
          at = At-next s it.range_idx a n k c.at g differs ln vn;
        };
        same_start = refl;
      },
    )

step_mod : (i n : ℕ) → suc i < n → (i + 1) % n ≡ suc i
step_mod i n h = grind (arith, mod-eq_of_lt)

wrap_mod : (i n : ℕ) → suc i ≡ n → (i + 1) % n ≡ 0
wrap_mod i n h = let e : i + 1 ≡ n = omega arith in rw e (mod_self n)

At-first : (r : Range) (rs : RangeSet) → IsCanonical r → At (r ∷ rs) 0 r.range_start 0
At-first r rs c = ((refl, omega arith, c.proper.ordered), omega arith)

-- From the end of a range to the start of the next one that there is.
advance_across :
    (s : RangeSet) (it : RangeIter) (r : Range) (a : Ip) (k : ℕ)
    → All IsCanonical s
    → Cursor s it a k
    → get_elem? s it.range_idx ≡ some r
    → equal it.cur r.range_end ≡ true
    → value a ≡ value r.range_end
    → suc it.range_idx < length s
    → (it' : RangeIter) × (r' : Range) × (advance s it r ≡ some (it', r'))
      × Moved s it it' r' (k + 1)
advance_across s it r a k cs c g e v more =
    let (r', g') = get_elem?-total s (suc it.range_idx) more in
    let p = At-start s it.range_idx a k cs c.at g v g' in
    let m : (it.range_idx + 1) % length s ≡ suc it.range_idx =
      step_mod it.range_idx (length s) more in
    let (q, e', cq, _, _) = At-range s (suc it.range_idx) r'.range_start (k + 1) cs p in
    let same : q ≡ r' = some_injective (sym e' ∙ g') in
    let rs : IsRegular r'.range_start =
      subst (λ t. IsRegular t.range_start) same cq.proper.start_regular in
    (
      record it { range_idx = suc it.range_idx; cur = r'.range_start },
      r',
      advance_jump s it r r' (suc it.range_idx) e m g',
      record {
        range = g';
        cursor = record { denotes = regular-Denotes r'.range_start rs; at = p };
        same_start = refl;
      },
    )

-- From the end of the last range to the start of the first.
advance_round :
    (r0 : Range) (rs : RangeSet) (it : RangeIter) (r : Range)
    → IsCanonical r0
    → equal it.cur r.range_end ≡ true
    → suc it.range_idx ≡ length (r0 ∷ rs)
    → (it' : RangeIter) × (r' : Range) × (advance (r0 ∷ rs) it r ≡ some (it', r'))
      × Moved (r0 ∷ rs) it it' r' 0
advance_round r0 rs it r c0 e last =
    let m : (it.range_idx + 1) % length (r0 ∷ rs) ≡ 0 =
      wrap_mod it.range_idx (length (r0 ∷ rs)) last in
    (
      record it { range_idx = 0; cur = r0.range_start },
      r0,
      advance_jump (r0 ∷ rs) it r r0 0 e m refl,
      record {
        range = refl;
        cursor = record {
          denotes = regular-Denotes r0.range_start c0.proper.start_regular;
          at = At-first r0 rs c0;
        };
        same_start = refl;
      },
    )

bump-lt : (n k : ℕ) → k + 1 < n → bump n k ≡ k + 1
bump-lt n k h = ground arith

bump-last : (n k : ℕ) → k + 1 ≡ n → bump n k ≡ 0
bump-last n k h = ground arith

Moved-bump :
    (s : RangeSet) (it it' : RangeIter) (r' : Range) (k : ℕ)
    → All IsCanonical s
    → Moved s it it' r' (k + 1)
    → Moved s it it' r' (bump (total s) k)
Moved-bump s it it' r' k cs mv =
    let (_, _, _, _, below) = At-range s it'.range_idx it'.cur (k + 1) cs mv.cursor.at in
    subst (Moved s it it' r') (sym (bump-lt (total s) k below)) mv

-- Over canonical ranges, a cursor at an address of the set moves to the next rank of the set, and
-- from the last one back to the first, without a panic.
pub advance-Moved :
    (s : RangeSet) (it : RangeIter) (a : Ip) (k : ℕ) {r : Range}
    → All IsCanonical s
    → Cursor s it a k
    → get_elem? s it.range_idx ≡ some r
    → (it' : RangeIter) × (r' : Range) × (advance s it r ≡ some (it', r'))
      × Moved s it it' r' (bump (total s) k)
advance-Moved [] it a k cs c g = absurd c.at
advance-Moved (r0 ∷ rs) it a k {r} (c0, cs) c g =
    let s = r0 ∷ rs in
    let (q, e, cq, b, _) = At-range s it.range_idx a k (c0, cs) c.at in
    let same : q ≡ r = some_injective (sym e ∙ g) in
    let cr : IsCanonical r = subst IsCanonical same cq in
    let br : Between r a = subst (λ t. Between t a) same b in
    elim (Bool-cases (equal it.cur r.range_end)) [
      | inr ne ↦
          let (it', moved, mv) = advance_inside s it r a k (c0, cs) c g cr br ne in
          (it', r, moved, Moved-bump s it it' r k (c0, cs) mv)
      | inl at_end ↦
          let v =
            (equal-value it.cur a r.range_end c.denotes cr.proper.end_regular
                (br.0 ∙ sym cr.proper.family)).0
              at_end in
          let inside = get_elem?-lt s it.range_idx g in
          elim (Bool-cases (suc it.range_idx == length s)) [
            | inr more ↦
                let (it', r', moved, mv) =
                  advance_across s it r a k (c0, cs) c g at_end v (ground arith) in
                (it', r', moved, Moved-bump s it it' r' k (c0, cs) mv)
            | inl last ↦
                let (it', r', moved, mv) = advance_round r0 rs it r c0 at_end (ground arith) in
                let n = At-last s it.range_idx a k c.at g v (ground arith) in
                (it', r', moved, subst (Moved s it it' r') (sym (bump-last (total s) k n)) mv)
          ]
    ]
