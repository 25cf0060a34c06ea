-- ===== src/HostLocal/Range/Membership.antt =====
-- What `Contains` and `Canonicalize` of range.go establish.
use containerz_plugin.Common.{◌≤◌, ◌≡◌, ◌↔◌, true, [], ◌∷◌, arith, length, some}
use containerz_plugin.Net.{Ip, net_contains}
use containerz_plugin.Net.Values.{value}
use containerz_plugin.Net.Regular.{IsRegular, to4_v4, to4_v6, to16_v6, regular_not_nil}
use containerz_plugin.Cidr.{order_of}
use containerz_plugin.Cidr.Next.{cmp_regular}
use containerz_plugin.HostLocal.Range.{Range, canonicalize_ip, contains_canonical, contains}

pub canonicalize_ip_regular : (a : Ip) → IsRegular a → canonicalize_ip a ≡ some a
unfolding canonicalize_ip
canonicalize_ip_regular [] r = absurd (omega (arith, r.form))
canonicalize_ip_regular (x ∷ xs) r =
    ground (arith, to4_v4 (x ∷ xs), to4_v6 (x ∷ xs) r, to16_v6 (x ∷ xs))

-- The bounds of a range in standard form, of one family, and in order.
pub record IsProper (r : Range) : Type 0 where
  pub start_regular : IsRegular r.range_start
  pub end_regular : IsRegular r.range_end
  pub family : length r.range_end ≡ length r.range_start
  pub subnet_family : length r.subnet.ip ≡ length r.range_start
  pub ordered : value r.range_start ≤ value r.range_end

-- The address lies between the bounds.
abbrev pub Between : Range → Ip → Type 0
Between r a =
    (length a ≡ length r.range_start)
    × (value r.range_start ≤ value a)
    × (value a ≤ value r.range_end)

-- For bounds and an address in standard form `Contains` says that the address is of the range's
-- family, in its network and between its bounds.
pub contains_iff :
    (r : Range) (a : Ip)
    → IsRegular a
    → IsRegular r.range_start
    → IsRegular r.range_end
    → length r.range_end ≡ length r.range_start
    → length r.subnet.ip ≡ length r.range_start
    → (contains r a ≡ true) ↔ ((net_contains r.subnet a ≡ true) × Between r a)
unfolding contains contains_canonical order_of
contains_iff r a ra rs re f g = ground (
  arith,
  canonicalize_ip_regular a ra,
  regular_not_nil r.range_start rs,
  regular_not_nil r.range_end re,
  cmp_regular a r.range_start ra rs,
  cmp_regular a r.range_end ra re,
)
