-- ===== src/HostLocal/Samples/Ranges.antt =====
-- The theorems on ranges and range sets of plugins/ipam/host-local at 10.0.0.0/29.
use mathlib.Core.List.{Memᴰ}
use containerz_plugin.Common.{
  ℕ, ◌≤◌, ◌≡◌, ◌≢◌, ◌↔◌, ◌⊎◌, true, false, [], ◌∷◌, ok, err, length, arith, refl,
}
use containerz_plugin.Net.{
  set_bytes, is_mapped, bytes_eq, to4, to16, equal, mask_ip, mask_bytes, and_bytes, mask_size,
  mask_length, byte_ones, all_zero, int_bytes, net_contains,
}
use containerz_plugin.Net.Values.{value}
use containerz_plugin.Cidr.{next_ip, normalize_ip, int_to_ip, pad, cmp, order_of}
use containerz_plugin.HostLocal.Range.{
  Range, canonicalize, canonicalize_subnet, canonicalize_gateway, canonicalize_start,
  canonicalize_end, canonicalize_ip, contains, contains_canonical, overlaps, last_ip, or_not,
  decrement_fourth,
}
use containerz_plugin.HostLocal.Range.Membership.{Between}
use containerz_plugin.HostLocal.Range.Order.{canonicalize_unchecked_end}
use containerz_plugin.HostLocal.Range.Interval.{
  IsCanonical, IsDefault, only_subnet, overlaps_iff, canonicalize-IsDefault,
}
use containerz_plugin.HostLocal.RangeSet.{
  canonicalize_set, canonicalize_ranges, self_overlaps, overlaps_any, range_for, not_in_set,
}
use containerz_plugin.HostLocal.RangeSet.Disjoint.{
  Disjoint, Canonicalized, OfFamily, InSet, canonicalize_set_sound, range_for_sound,
}
use containerz_plugin.HostLocal.Samples.{
  net29, host, range29, host-IsRegular, value-host, net29-IsSubnet, range29-IsCanonical,
}

overlaps_iff_example : (overlaps range29 range29 ≡ true) ↔ (
    (length range29.range_start ≡ length range29.range_start)
    × (value range29.range_start ≤ value range29.range_end)
    × (value range29.range_start ≤ value range29.range_end))
overlaps_iff_example = overlaps_iff range29 range29 range29-IsCanonical range29-IsCanonical

-- What `Canonicalize` makes of 10.0.0.0/29 and nothing else.
canonicalize29 : canonicalize (only_subnet net29) ≡ ok range29
unfolding canonicalize canonicalize_subnet canonicalize_gateway canonicalize_start canonicalize_end
    canonicalize_ip last_ip or_not decrement_fourth next_ip normalize_ip int_to_ip pad to4 to16
    is_mapped bytes_eq equal mask_ip mask_bytes and_bytes mask_size mask_length byte_ones all_zero
    set_bytes int_bytes
canonicalize29 = refl

canonicalize-IsDefault_example :
    (r : Range) × (canonicalize (only_subnet net29) ≡ ok r) × IsDefault net29 r
canonicalize-IsDefault_example = canonicalize-IsDefault net29 net29-IsSubnet

-- 10.0.0.0/29 from 10.0.0.7, with the gateway and the end left out
abbrev from_broadcast : Range
from_broadcast = record { range_start = host 7; range_end = []; subnet = net29; gateway = [] }

abbrev with_gateway : Range
with_gateway = record { range_start = host 7; range_end = []; subnet = net29; gateway = host 1 }

subnet_block : canonicalize_subnet from_broadcast ≡ ok from_broadcast
unfolding canonicalize_subnet canonicalize_ip to4 to16 is_mapped bytes_eq equal mask_ip mask_bytes
    and_bytes mask_size mask_length byte_ones all_zero
subnet_block = refl

gateway_block : canonicalize_gateway from_broadcast ≡ ok with_gateway
unfolding canonicalize_gateway next_ip normalize_ip int_to_ip pad to4 to16 is_mapped bytes_eq
    set_bytes int_bytes
gateway_block = refl

start_block : canonicalize_start with_gateway ≡ ok with_gateway
unfolding canonicalize_start canonicalize_ip contains contains_canonical net_contains normalize_ip
    to4 to16 is_mapped bytes_eq mask_ip mask_bytes and_bytes cmp order_of set_bytes
start_block = refl

last29 : last_ip net29 ≡ host 6
unfolding last_ip or_not decrement_fourth to4
last29 = refl

canonicalize_unchecked_end_example :
    (canonicalize from_broadcast ≡ ok (record with_gateway { range_end = last_ip net29 }))
    × (contains (record with_gateway { range_end = last_ip net29 }) (host 7) ≡ false)
canonicalize_unchecked_end_example =
    canonicalize_unchecked_end from_broadcast from_broadcast with_gateway with_gateway subnet_block
      gateway_block start_block refl (host-IsRegular 7 (omega arith))
      (rw last29 (host-IsRegular 6 (omega arith))) (rw last29 refl) refl
      (rw last29 (omega (arith, value-host 6, value-host 7))) (host 7)
      (host-IsRegular 7 (omega arith))

pub canonicalize_set29 : canonicalize_set (only_subnet net29 ∷ []) ≡ ok (range29 ∷ [])
unfolding canonicalize_set canonicalize_ranges self_overlaps overlaps_any
canonicalize_set29 = rw canonicalize29 refl

canonicalize_set_sound_example :
    (range29 ∷ [] ≢ [])
    × Canonicalized (only_subnet net29 ∷ []) (range29 ∷ [])
    × ((fam : ℕ) × OfFamily fam (range29 ∷ []))
    × Disjoint (range29 ∷ [])
canonicalize_set_sound_example = canonicalize_set_sound (only_subnet net29 ∷ []) canonicalize_set29

range_for_sound_example :
    ((r : Range) × (range_for (range29 ∷ []) (host 9) ≡ ok r)
      × Memᴰ r (range29 ∷ [])
      × IsCanonical r
      × Between r (host 9)
      × InSet (range29 ∷ []) (host 9))
    ⊎ ((range_for (range29 ∷ []) (host 9) ≡ err not_in_set) × ¬ InSet (range29 ∷ []) (host 9))
range_for_sound_example =
    range_for_sound (range29 ∷ []) (host 9) (range29-IsCanonical, tt)
      (host-IsRegular 9 (omega arith))
