-- ===== src/HostLocal/Command/Added.antt =====
-- What `cmdAdd` allocates when it succeeds.
use containerz_plugin.Common.{
  ℕ, ◌+◌, ◌<◌, ◌≡◌, ◌≢◌, ◌⊎◌, inl, inr, refl, sym, ap, subst, ◌∙◌, Bool, List, [], ◌∷◌, ◌++◌,
  append-nil, append_assoc, All, Result, ok, err, Text, Bool-cases,
}
use containerz_plugin.Net.{Ip}
use containerz_plugin.Net.Regular.{IsRegular, regular_not_nil}
use containerz_plugin.HostLocal.Range.Membership.{canonicalize_ip_regular}
use containerz_plugin.HostLocal.Range.Interval.{IsCanonical}
use containerz_plugin.HostLocal.RangeSet.{RangeSet, set_contains}
use containerz_plugin.HostLocal.RangeSet.Disjoint.{Disjoint}
use containerz_plugin.HostLocal.Store.{Store, StoreError, IsStore}
use containerz_plugin.HostLocal.Config.{IpamConfig}
use containerz_plugin.HostLocal.Allocator.{IpAllocator, IpConfig, GetError, new_ip_allocator, get}
use containerz_plugin.HostLocal.Allocator.Position.{total}
use containerz_plugin.HostLocal.Allocator.Get.{
  Allocated, AnyAnswer, allocated, no_room, has_one, store_broke, get_any-AnyAnswer,
}
use containerz_plugin.HostLocal.Allocator.Requested.{
  RequestAnswer, outside, gateway, in_use, granted, store_failed, get_requested-RequestAnswer,
}
use containerz_plugin.HostLocal.Command.{
  AddError, requested_ips, take_requested, listed, next_range, add_ranges, cmd_add,
}

-- A set that the allocator may be given.
pub record IsUsable (fuel : ℕ) (s : RangeSet) : Type 0 where
  pub not_empty : s ≢ []
  pub canonical : All IsCanonical s
  pub disjoint : Disjoint s
  pub enough : total s < fuel

-- Nil, or an address in standard form.
abbrev IsWish : Ip → Type 0
IsWish a = (a ≡ []) ⊎ IsRegular a

take_requested-IsRegular :
    (s : RangeSet) (as' : List Ip)
    → All IsRegular as'
    → IsWish (take_requested s as').0 × All IsRegular (take_requested s as').1
unfolding take_requested
take_requested-IsRegular s [] h = (inl refl, tt)
take_requested-IsRegular s (a ∷ as') (ha, hs) = elim (Bool-cases (set_contains s a)) [
  | inl e ↦ rw e (inr ha, hs)
  | inr e ↦ let (w, r) = take_requested-IsRegular s as' hs in rw e (w, (ha, r))
]

requested_ips-IsRegular : (as' : List Ip) → All IsRegular as' → All IsRegular (requested_ips as')
unfolding requested_ips
requested_ips-IsRegular [] h = tt
requested_ips-IsRegular (a ∷ as') (ha, hs) = elim (Bool-cases (listed a (requested_ips as'))) [
  | inl e ↦ rw e (requested_ips-IsRegular as' hs)
  | inr e ↦ rw e (ha, requested_ips-IsRegular as' hs)
]

module _ {S : Type 0} (taken : S → Ip → Bool) where
  -- One address for each set, allocated in turn.
  pub data Added : List RangeSet → S → S → List IpConfig → Type 0 where
    done : {x : S} → Added [] x x []
    step :
        {s : RangeSet} {ss : List RangeSet} {x x1 x2 : S} {c : IpConfig} {cs : List IpConfig}
        → Allocated taken s x x1 c
        → Added ss x1 x2 cs
        → Added (s ∷ ss) x x2 (c ∷ cs)

  same_Allocated :
      (s : RangeSet) (x x1 x2 : S) (c1 c2 : IpConfig)
      → Allocated taken s x x1 c1
      → Path (S × Result GetError IpConfig) (x1, ok c1) (x2, ok c2)
      → Allocated taken s x x2 c2
  same_Allocated s x x1 x2 c1 c2 a e =
      let ex : x1 ≡ x2 = ap (λ p. p.0) e in
      let ec : c1 ≡ c2 = cc in
      subst (λ c. Allocated taken s x x2 c) ec (subst (λ y. Allocated taken s x y c1) ex a)

  AnyAnswer-ok :
      (ask : S → Ip → S × Result StoreError Bool) (s : RangeSet) (x x' : S) (held : List Ip)
      (c : IpConfig) (o : S × Result GetError IpConfig)
      → AnyAnswer taken ask s x held o
      → o ≡ (x', ok c)
      → Allocated taken s x x' c
  AnyAnswer-ok ask s x x' held c o (allocated {x' = x1} {c = c1} free a) e =
      same_Allocated s x x1 x' c1 c a e
  AnyAnswer-ok ask s x x' held c o (no_room f) e = cc
  AnyAnswer-ok ask s x x' held c o (has_one h) e = cc
  AnyAnswer-ok ask s x x' held c o (store_broke free b) e = cc

  RequestAnswer-ok :
      (ask : S → Ip → S × Result StoreError Bool) (s : RangeSet) (x x' : S) (a : Ip) (c : IpConfig)
      (o : S × Result GetError IpConfig)
      → RequestAnswer taken ask s x a o
      → o ≡ (x', ok c)
      → Allocated taken s x x' c
  RequestAnswer-ok ask s x x' a c o (outside f) e = cc
  RequestAnswer-ok ask s x x' a c o (gateway r f g) e = cc
  RequestAnswer-ok ask s x x' a c o (in_use i t) e = cc
  RequestAnswer-ok ask s x x' a c o (granted {x' = x1} {c = c1} r f same got) e =
      same_Allocated s x x1 x' c1 c got e
  RequestAnswer-ok ask s x x' a c o (store_failed r f g did keep) e = cc

module _ {S : Type 0} (st : Store S) (taken : S → Ip → Bool) (laws : IsStore st taken) where
  get-ok :
      (fuel : ℕ) (al : IpAllocator) (x x' : S) (id ifname : Text) (want : Ip) (c : IpConfig)
      → IsUsable fuel al.rangeset
      → IsWish want
      → get st fuel al x id ifname want ≡ (x', ok c)
      → Allocated taken al.rangeset x x' c
  get-ok fuel al x x' id ifname want c u (inl none_asked) h =
      AnyAnswer-ok taken (λ y b. st.reserve y id ifname b al.range_id) al.rangeset x x' _ c _
        (get_any-AnyAnswer st taken laws fuel al x id ifname u.not_empty u.canonical u.disjoint
          u.enough)
        (ap (λ w. get st fuel al x id ifname w) (sym none_asked) ∙ h)
  get-ok fuel al x x' id ifname want c u (inr asked) h =
      RequestAnswer-ok taken (λ y b. st.reserve y id ifname b al.range_id) al.rangeset x x' want c _
        (get_requested-RequestAnswer st taken laws fuel al x id ifname want want
          (regular_not_nil want asked) (canonicalize_ip_regular want asked) asked u.canonical)
        h

  next_range-ok :
      (id ifname : Text) (again : IpConfig → S → S × Result AddError (List IpConfig)) (idx : ℕ)
      (allocs : List IpAllocator) (o : S × Result GetError IpConfig) (x' : S) (out : List IpConfig)
      → next_range st id ifname again idx allocs o ≡ (x', ok out)
      → (x1 : S) × (c : IpConfig) × (o ≡ (x1, ok c)) × (again c x1 ≡ (x', ok out))
  unfolding next_range
  next_range-ok id ifname again idx allocs (x1, ok c) x' out h = (x1, c, refl, h)
  next_range-ok id ifname again idx allocs (x1, err e) x' out h = cc

  add_ranges-Added :
      (id ifname : Text) (fuel idx : ℕ) (ss : List RangeSet) (requested : List Ip)
      (allocs : List IpAllocator) (ips : List IpConfig) (x x' : S) (out : List IpConfig)
      → All (IsUsable fuel) ss
      → All IsRegular requested
      → add_ranges st id ifname fuel idx ss requested allocs ips x ≡ (x', ok out)
      → (cs : List IpConfig) × (out ≡ ips ++ cs) × Added taken ss x x' cs
  unfolding add_ranges new_ip_allocator
  add_ranges-Added id ifname fuel idx [] [] allocs ips x x' out u r h =
      let same : ips ≡ out = cc in
      let ex : x ≡ x' = ap (λ (p : S × Result AddError (List IpConfig)). p.0) h in
      ([], sym same ∙ sym (append-nil ips), subst (λ y. Added taken [] x y []) ex done)
  add_ranges-Added id ifname fuel idx [] (a ∷ as') allocs ips x x' out u r h = cc
  add_ranges-Added id ifname fuel idx (s ∷ ss) requested allocs ips x x' out (u, us) r h =
      let al = new_ip_allocator s idx in
      let (wish, left) = take_requested-IsRegular s requested r in
      let (x1, c, got, more) = next_range-ok id ifname _ idx allocs _ x' out h in
      let here = get-ok fuel al x x1 id ifname _ c u wish got in
      let (cs, e, rest) =
        add_ranges-Added id ifname fuel (idx + 1) ss _ _ (ips ++ c ∷ []) x1 x' out us left more in
      (c ∷ cs, e ∙ append_assoc ips (c ∷ []) cs, step here rest)

  -- For requested addresses in standard form, sets that are not empty, of canonical ranges with no
  -- overlap, fuel above the number of addresses of each, and a store that keeps its contract: when
  -- `cmdAdd` succeeds it has allocated, in turn, one address for each set, each of which was free and
  -- is taken.
  pub cmd_add-Added :
      (id ifname : Text) (fuel : ℕ) (c : IpamConfig) (x x' : S) (ips : List IpConfig)
      → All (IsUsable fuel) c.ranges
      → All IsRegular c.ip_args
      → cmd_add st id ifname fuel c x ≡ (x', ok ips)
      → Added taken c.ranges x x' ips
  unfolding cmd_add
  cmd_add-Added id ifname fuel c x x' ips u r h =
      let (cs, e, added) =
        add_ranges-Added id ifname fuel 0 c.ranges (requested_ips c.ip_args) [] [] x x' ips u
          (requested_ips-IsRegular c.ip_args r) h in
      subst (Added taken c.ranges x x') (sym e) added
