-- ===== src/HostLocal/Range.antt =====
-- plugins/ipam/host-local/backend/allocator/range.go: one range of addresses in a subnet.
pub mod Membership
pub mod Canonical
pub mod Order
pub mod Defaults
pub mod Interval
use Prim.Native.Nat.{bit_or}
use containerz_plugin.Common.{
  ℕ, ◌+◌, ◌-◌, ◌%◌, Bool, true, false, ◌&&◌, ◌||◌, not, Option, none, some, [], ◌∷◌, length, ltb,
  ◌==◌, if◌then◌else◌, Result, ok, err, ◌>>=◌, ◌>>◌, guard,
}
use containerz_plugin.Net.{Ip, IpNet, is_nil, to4, to16, equal, mask_ip, mask_size, net_contains}
use containerz_plugin.Cidr.{next_ip, cmp, is_negative, is_positive}

pub record Range : Type 0 where
  pub range_start : Ip
  pub range_end : Ip
  pub subnet : IpNet
  pub gateway : Ip

-- The messages of `Canonicalize`; `panic` is a panic of `NextIP`.
pub data RangeError : Type 0 where
  bad_ip too_small version_mismatch host_bits start_outside end_outside panic : RangeError

-- `canonicalizeIP`: the 4-byte form, else the 16-byte form.
unfoldable pub canonicalize_ip : Ip → Option Ip
canonicalize_ip ip =
    if not (is_nil (to4 ip))
    then some (to4 ip)
    else if not (is_nil (to16 ip))
    then some (to16 ip)
    else none

abbrev pub checked {ℓ} : {A : Type ℓ} → Option A → RangeError → Result RangeError A
checked none e = err e
checked (some a) e = ok a

abbrev pub canonical : Ip → Result RangeError Ip
canonical ip = checked (canonicalize_ip ip) bad_ip

-- the body of `Contains` behind `canonicalizeIP`
unfoldable pub contains_canonical : Range → Ip → Bool
contains_canonical r a =
    if not (length a == length r.subnet.ip)
    then false
    else if not (net_contains r.subnet a)
    then false
    else if not (is_nil r.range_start) && is_negative (cmp a r.range_start)
    then false
    else if not (is_nil r.range_end) && is_positive (cmp a r.range_end)
    then false
    else true

unfoldable pub contains : Range → Ip → Bool
unfolding contains_canonical
contains r addr = elim (canonicalize_ip addr) [ none ↦ false | some a ↦ contains_canonical r a ]

unfoldable pub overlaps : Range → Range → Bool
overlaps r r1 =
    if not (length r.range_start == length r1.range_start)
    then false
    else contains r r1.range_start
      || contains r r1.range_end
      || contains r1 r.range_start
      || contains r1 r.range_end

-- `subnet.IP[i] | ^subnet.Mask[i]`, a byte at a time
unfoldable pub or_not : Ip → Ip → Ip
or_not [] ms = []
or_not (_ ∷ _) [] = []
or_not (x ∷ xs) (m ∷ ms) = bit_or x (255 - m) ∷ or_not xs ms

-- `end[3]--`, on a byte
unfoldable pub decrement_fourth : Ip → Ip
decrement_fourth (a ∷ b ∷ c ∷ d ∷ rest) = a ∷ b ∷ c ∷ (d + 255) % 256 ∷ rest
decrement_fourth ip = ip

unfoldable pub last_ip : IpNet → Ip
unfolding or_not decrement_fourth
last_ip subnet =
    let end = or_not subnet.ip subnet.mask in
    if not (is_nil (to4 subnet.ip)) then decrement_fourth end else end

-- Each block of `Canonicalize`: the subnet, the gateway, the start and the end.
unfoldable pub canonicalize_subnet : Range → Result RangeError Range
canonicalize_subnet r = do
  ip ← canonical r.subnet.ip
  let (ones, masklen) = mask_size r.subnet.mask
  guard (not (ltb masklen (ones + 2))) too_small
  guard (length ip == length r.subnet.mask) version_mismatch
  guard (equal ip (mask_ip ip r.subnet.mask)) host_bits
  ok (record r { subnet = record { ip = ip; mask = r.subnet.mask } })

unfoldable pub canonicalize_gateway : Range → Result RangeError Range
canonicalize_gateway r = do
  gateway ← (if is_nil r.gateway then checked (next_ip r.subnet.ip) panic else canonical r.gateway)
  ok (record r { gateway = gateway })

unfoldable pub canonicalize_start : Range → Result RangeError Range
canonicalize_start r =
    if is_nil r.range_start
    then (do start ← checked (next_ip r.subnet.ip) panic; ok (record r { range_start = start }))
    else do
      start ← canonical r.range_start
      guard (contains (record r { range_start = start }) start) start_outside
      ok (record r { range_start = start })

unfoldable pub canonicalize_end : Range → Result RangeError Range
canonicalize_end r =
    if is_nil r.range_end then ok (record r { range_end = last_ip r.subnet }) else do
      end ← canonical r.range_end
      guard (contains (record r { range_end = end }) end) end_outside
      ok (record r { range_end = end })

unfoldable pub canonicalize : Range → Result RangeError Range
canonicalize r = do
  r1 ← canonicalize_subnet r
  r2 ← canonicalize_gateway r1
  r3 ← canonicalize_start r2
  canonicalize_end r3
