-- ===== src/HostLocal/Range/Interval.antt =====
-- Ranges as intervals of numbers: membership and overlap of canonical ranges.
use containerz_plugin.Common.{
  ◌+◌, ◌≤◌, ◌≡◌, ◌≢◌, ◌↔◌, ◌⊎◌, inl, inr, true, sym, ◌∙◌, [], arith, length, some, ok, ◌==◌,
  if◌then◌else◌, refl,
}
use containerz_plugin.Net.{Ip, IpNet, net_contains}
use containerz_plugin.Net.Values.{IsBytes, value, value-lt}
use containerz_plugin.Net.Regular.{IsRegular}
use containerz_plugin.Net.HostBits.{host_room}
use containerz_plugin.Cidr.{next_ip}
use containerz_plugin.Cidr.Next.{next_ip_lem}
use containerz_plugin.Cidr.Edges.{next_ip_last}
use containerz_plugin.HostLocal.Range.{
  Range, contains, contains_canonical, overlaps, last_ip, canonicalize, canonicalize_subnet,
  canonicalize_gateway, canonicalize_start, canonicalize_end,
}
use containerz_plugin.HostLocal.Range.Membership.{
  IsProper, Between, contains_iff, canonicalize_ip_regular,
}
use containerz_plugin.HostLocal.Range.Canonical.{StartFrom, EndFrom, canonicalize-Sound}
use containerz_plugin.HostLocal.Range.Order.{canonicalize-IsProper, start_family}
use containerz_plugin.HostLocal.Range.Defaults.{
  IsSubnet, top, net_contains-interval, last_ip-IsLast, mask_prefix, top-lt,
}

-- A range whose bounds are in order and inside its subnet.
pub record IsCanonical (r : Range) : Type 0 where
  pub subnet : IsSubnet r.subnet
  pub proper : IsProper r
  pub start_inside : value r.subnet.ip ≤ value r.range_start
  pub end_inside : value r.range_end ≤ top r.subnet

-- A canonical range contains exactly the addresses of its family between its bounds.
pub contains-Between :
    (r : Range) (a : Ip) → IsCanonical r → IsRegular a → (contains r a ≡ true) ↔ Between r a
contains-Between r a c ra =
    let p = c.proper in
    let exact = contains_iff r a ra p.start_regular p.end_regular p.family p.subnet_family in
    let net = net_contains-interval r.subnet a c.subnet ra in
    let fam = p.subnet_family in
    let low = c.start_inside in
    let high = c.end_inside in
    (
      λ h. (exact.0 h).1,
      λ (b : Between r a).
          exact.1 (net.1 (b.0 ∙ sym fam, omega (arith, b.1), omega (arith, b.2)), b),
    )

-- Two canonical ranges overlap exactly where they are of one family and have an address in common.
pub overlaps_iff :
    (r s : Range)
    → IsCanonical r
    → IsCanonical s
    → (overlaps r s ≡ true) ↔ (
        (length r.range_start ≡ length s.range_start)
        × (value r.range_start ≤ value s.range_end)
        × (value s.range_start ≤ value r.range_end))
unfolding overlaps
overlaps_iff r s cr cs =
    let p = cr.proper in
    let q = cs.proper in
    ground (
      arith,
      contains-Between r s.range_start cr q.start_regular,
      contains-Between r s.range_end cr q.end_regular,
      contains-Between s r.range_start cs p.start_regular,
      contains-Between s r.range_end cs p.end_regular,
      p.family,
      q.family,
      p.ordered,
      q.ordered,
    )

contains-net :
    (r : Range) (a : Ip) → IsRegular a → contains r a ≡ true → net_contains r.subnet a ≡ true
unfolding contains contains_canonical
contains-net r a ra h = ground (arith, canonicalize_ip_regular a ra)

next_ip-value : (a b : Ip) → IsRegular a → next_ip a ≡ some b → value b ≡ value a + 1
next_ip-value a b r e = ground (arith, next_ip_lem a r, next_ip_last a r, value-lt a r.bytes)

start_above :
    (r r' : Range)
    → StartFrom r r'
    → IsSubnet r'.subnet
    → IsRegular r'.range_start
    → value r'.subnet.ip ≤ value r'.range_start
start_above r r' (inl (_, e)) w rs =
    omega (arith, next_ip-value r'.subnet.ip r'.range_start w.regular e)
start_above r r' (inr (_, _, h)) w rs =
    ((net_contains-interval r'.subnet r'.range_start w rs).0
      (contains-net (record r' { range_end = r.range_end }) r'.range_start rs h)).1

end_below :
    (r r' : Range)
    → EndFrom r r'
    → IsSubnet r'.subnet
    → IsRegular r'.range_end
    → (length r'.range_end ≡ length r'.subnet.ip) × (value r'.range_end ≤ top r'.subnet)
end_below r r' (inl (_, e)) w re =
    let last = last_ip-IsLast r'.subnet w in rw e (last.family, ground (arith, last.number))
end_below r r' (inr (_, _, h)) w re =
    let (l, _, high) =
      (net_contains-interval r'.subnet r'.range_end w re).0 (contains-net r' r'.range_end re h) in
    (l, high)

-- A range that `Canonicalize` accepts, with addresses in standard form, is canonical, if its end was
-- given or its default end is not below its start.
pub canonicalize-IsCanonical :
    (r r' : Range)
    → canonicalize r ≡ ok r'
    → (r.range_end ≢ []) ⊎ (value r'.range_start ≤ value r'.range_end)
    → IsRegular r'.subnet.ip
    → IsBytes r'.subnet.mask
    → IsRegular r'.range_start
    → IsRegular r'.range_end
    → IsCanonical r'
canonicalize-IsCanonical r r' h ends rn hm rs re =
    let (network, _, _, s, e) = canonicalize-Sound r h in
    let w : IsSubnet r'.subnet = record { network = network; regular = rn; mask_bytes = hm } in
    let fs = start_family r r' s rn rs in
    let (fe, high) = end_below r r' e w re in
    let ordered : value r'.range_start ≤ value r'.range_end = elim ends [
      | inl given ↦ (canonicalize-IsProper r r' h given rn rs re).ordered
      | inr le ↦ le
    ] in
    record {
      subnet = w;
      proper = record {
        start_regular = rs;
        end_regular = re;
        family = fe ∙ sym fs;
        subnet_family = sym fs;
        ordered = ordered;
      };
      start_inside = start_above r r' s w rs;
      end_inside = high;
    }

-- What the defaults make of a subnet: the gateway and the start are its first address, and the end
-- is its highest, less one if it is IPv4.
pub record IsDefault (n : IpNet) (r : Range) : Type 0 where
  pub same_subnet : r.subnet ≡ n
  pub gateway_first : r.gateway ≡ r.range_start
  pub start_first : value r.range_start ≡ value n.ip + 1
  pub end_last : value r.range_end + (if length n.ip == 4 then 1 else 0) ≡ top n
  pub canonical : IsCanonical r

abbrev pub only_subnet : IpNet → Range
only_subnet n = record { range_start = []; range_end = []; subnet = n; gateway = [] }

only_subnet_accepted :
    (n : IpNet) (s : Ip)
    → IsSubnet n
    → next_ip n.ip ≡ some s
    → canonicalize (only_subnet n)
      ≡ ok (record { range_start = s; range_end = last_ip n; subnet = n; gateway = s })
unfolding canonicalize canonicalize_subnet canonicalize_gateway canonicalize_start canonicalize_end
only_subnet_accepted n s w e = ground (
  arith,
  canonicalize_ip_regular n.ip w.regular,
  w.network.roomy,
  w.network.fits,
  w.network.clear,
)

-- A subnet in standard form with nothing else given is accepted: the gateway and the start are its
-- first address behind the network's, the end is its highest, less one if it is IPv4, and the range
-- is canonical.
pub canonicalize-IsDefault :
    (n : IpNet) → IsSubnet n → (r : Range) × (canonicalize (only_subnet n) ≡ ok r) × IsDefault n r
canonicalize-IsDefault n w =
    let room =
      host_room n.mask w.mask_bytes (mask_prefix n w.network).1 (mask_prefix n w.network).2 in
    let (s, made, rs, fs, vs) = next_ip_lem n.ip w.regular (omega (arith, top-lt n w)) in
    let last = last_ip-IsLast n w in
    (
      record { range_start = s; range_end = last_ip n; subnet = n; gateway = s },
      only_subnet_accepted n s w made,
      record {
        same_subnet = refl;
        gateway_first = refl;
        start_first = vs;
        end_last = last.number;
        canonical = record {
          subnet = w;
          proper = record {
            start_regular = rs;
            end_regular = last.regular;
            family = last.family ∙ sym fs;
            subnet_family = sym fs;
            ordered = ground (arith, last.number);
          };
          start_inside = omega arith;
          end_inside = ground (arith, last.number);
        };
      },
    )
