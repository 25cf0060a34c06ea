-- ===== src/HostLocal/Allocator/Requested.antt =====
-- `Get` with an address asked for: it grants that address, or says what is in the way.
use mathlib.Core.List.{Memᴰ}
use containerz_plugin.Common.{
  ℕ, ◌≡◌, inl, inr, refl, some, ok, err, All, Bool, true, false, Text, Result, Bool-cases, subst,
  sym,
}
use containerz_plugin.Net.{Ip, equal, is_nil}
use containerz_plugin.Net.Regular.{IsRegular}
use containerz_plugin.HostLocal.Range.{Range, canonicalize_ip}
use containerz_plugin.HostLocal.Range.Interval.{IsCanonical}
use containerz_plugin.HostLocal.Range.Membership.{Between}
use containerz_plugin.HostLocal.RangeSet.{RangeSet, range_for, not_in_set}
use containerz_plugin.HostLocal.RangeSet.Disjoint.{InSet, range_for_sound}
use containerz_plugin.HostLocal.Store.{Store, StoreError, IsStore, Reserved, fresh, refused, failed}
use containerz_plugin.HostLocal.Allocator.{
  IpAllocator, IpConfig, GetError, config_at, get_requested, get, grant, store_error, range_error,
  is_gateway, not_available,
}
use containerz_plugin.HostLocal.Allocator.Get.{Allocated}

module _ {S : Type 0} (taken : S → Ip → Bool) where
  -- What `Get` comes to, for an address asked for.
  pub data RequestAnswer (ask : S → Ip → S × Result StoreError Bool) (s : RangeSet) (x : S) (a : Ip)
      : S × Result GetError IpConfig → Type 0 where
    outside : ¬ InSet s a → RequestAnswer ask s x a (x, err (range_error not_in_set))
    gateway :
        (r : Range)
        → range_for s a ≡ ok r
        → equal a r.gateway ≡ true
        → RequestAnswer ask s x a (x, err is_gateway)
    in_use : InSet s a → taken x a ≡ true → RequestAnswer ask s x a (x, err not_available)
    granted :
        {x' : S} {c : IpConfig} (r : Range)
        → range_for s a ≡ ok r
        → c ≡ config_at r a
        → Allocated taken s x x' c
        → RequestAnswer ask s x a (x', ok c)
    store_failed :
        {x' : S} {e : StoreError} (r : Range)
        → range_for s a ≡ ok r
        → equal a r.gateway ≡ false
        → ask x a ≡ (x', err e)
        → ((b : Ip) → IsRegular b → taken x b ≡ true → taken x' b ≡ true)
        → RequestAnswer ask s x a (x', err (store_error e))

  Reserved-RequestAnswer :
      (ask : S → Ip → S × Result StoreError Bool) (s : RangeSet) (x x' : S) (a : Ip) (r : Range)
      (res : Result StoreError Bool)
      → range_for s a ≡ ok r
      → Memᴰ r s
      → ask x a ≡ (x', res)
      → IsRegular a
      → IsCanonical r
      → Between r a
      → InSet s a
      → equal a r.gateway ≡ false
      → Reserved taken x x' a res
      → RequestAnswer ask s x a (grant (config_at r a) (x', res))
  unfolding grant
  Reserved-RequestAnswer ask s x x' a r (err e) rf l did ra cr b i g (failed _ keep) =
      store_failed r rf g did keep
  Reserved-RequestAnswer ask s x x' a r (ok true) rf l did ra cr b i g (fresh free now others) =
      granted r rf refl (record {
        range = r;
        listed = l;
        address = a;
        regular = ra;
        canonical = cr;
        between = b;
        in_set = i;
        not_gateway = g;
        config = refl;
        was_free = free;
        now_taken = now;
        others = others;
      })
  Reserved-RequestAnswer ask s x x' a r (ok false) rf l did ra cr b i g (refused held same) =
      subst (λ y. RequestAnswer ask s x a (y, err not_available)) (sym same) (in_use i held)

module _ {S : Type 0} (st : Store S) (taken : S → Ip → Bool) (laws : IsStore st taken) where
  requested_lem :
      (al : IpAllocator) (x : S) (id ifname : Text) (requested a : Ip)
      → canonicalize_ip requested ≡ some a
      → IsRegular a
      → All IsCanonical al.rangeset
      → RequestAnswer taken
          (λ y b. st.reserve y id ifname b al.range_id)
          al.rangeset
          x
          a
          (get_requested st al x id ifname requested)
  unfolding get_requested
  requested_lem al x id ifname requested a ca ra cs =
      rw (get_requested, ca)
        (elim (range_for_sound al.rangeset a cs ra) [
          | inr (e, out) ↦ rw e (outside out)
          | inl (r, e, l, cr, b, i) ↦ rw e (elim (Bool-cases (equal a r.gateway)) [
            | inl g ↦ rw g (gateway r e g)
            | inr g ↦ rw g (
                Reserved-RequestAnswer taken (λ y t. st.reserve y id ifname t al.range_id)
                  al.rangeset x _ a r _ e l refl ra cr b i g
                  (laws.reserves x id ifname a al.range_id ra))
          ])
        ])

  -- `Get` with an address asked for that canonicalizes to one in standard form, on canonical ranges
  -- and a store that keeps its contract: it refuses an address of no range, the gateway of the range
  -- found, or a taken address, with the state unchanged; or it grants the address in the range that
  -- `RangeFor` finds, which was free and is taken now with no other changed; or, for an address that is
  -- not the gateway of that range, it fails as the store does when asked for it, with nothing freed.
  pub get_requested-RequestAnswer :
      (fuel : ℕ) (al : IpAllocator) (x : S) (id ifname : Text) (requested a : Ip)
      → is_nil requested ≡ false
      → canonicalize_ip requested ≡ some a
      → IsRegular a
      → All IsCanonical al.rangeset
      → RequestAnswer taken
          (λ y b. st.reserve y id ifname b al.range_id)
          al.rangeset
          x
          a
          (get st fuel al x id ifname requested)
  unfolding get
  get_requested-RequestAnswer fuel al x id ifname requested a nn ca ra cs =
      rw nn (requested_lem al x id ifname requested a ca ra cs)
