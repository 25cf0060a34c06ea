-- ===== src/HostLocal/Range/Canonical.antt =====
-- What `Canonicalize` of range.go establishes, and the inputs that it accepts by mistake.
use containerz_plugin.Common.{
  ◌+◌, ◌≤◌, ◌≡◌, ◌≢◌, ◌⊎◌, true, subst, sym, [], arith, length, some, ok, >>=-eq-ok,
}
use containerz_plugin.Net.{Ip, IpNet, equal, mask_ip, mask_size}
use containerz_plugin.Cidr.{next_ip}
use containerz_plugin.HostLocal.Range.{
  Range, canonicalize_ip, contains, last_ip, canonicalize_subnet, canonicalize_gateway,
  canonicalize_start, canonicalize_end, canonicalize, contains_canonical,
}

-- The subnet has room, its address and mask fit, and its host bits are clear.
pub record IsNetwork (n : IpNet) : Type 0 where
  pub roomy : (mask_size n.mask).0 + 2 ≤ (mask_size n.mask).1
  pub fits : length n.ip ≡ length n.mask
  pub clear : equal n.ip (mask_ip n.ip n.mask) ≡ true

canonicalize_subnet_lem :
    (r : Range) {r1 : Range}
    → canonicalize_subnet r ≡ ok r1
    → IsNetwork r1.subnet
      × (r1.subnet.mask ≡ r.subnet.mask)
      × (r1.range_start ≡ r.range_start)
      × (r1.range_end ≡ r.range_end)
      × (r1.gateway ≡ r.gateway)
unfolding canonicalize_subnet
canonicalize_subnet_lem r h = ground arith

canonicalize_gateway_lem :
    (r : Range) {r1 : Range}
    → canonicalize_gateway r ≡ ok r1
    → (r1.subnet ≡ r.subnet) × (r1.range_start ≡ r.range_start) × (r1.range_end ≡ r.range_end)
unfolding canonicalize_gateway
canonicalize_gateway_lem r h = ground arith

canonicalize_start_lem :
    (r : Range) {r1 : Range}
    → canonicalize_start r ≡ ok r1
    → (r1.subnet ≡ r.subnet) × (r1.range_end ≡ r.range_end) × (r1.gateway ≡ r.gateway)
unfolding canonicalize_start
canonicalize_start_lem r h = ground arith

canonicalize_end_lem :
    (r : Range) {r1 : Range}
    → canonicalize_end r ≡ ok r1
    → (r1.subnet ≡ r.subnet)
      × (r1.range_start ≡ r.range_start)
      × (r1.gateway ≡ r.gateway)
      × (((r.range_end ≡ []) × (r1.range_end ≡ last_ip r.subnet))
          ⊎ (contains r1 r1.range_end ≡ true))
unfolding canonicalize_end
canonicalize_end_lem r h = ground arith

-- Where the gateway comes from: the first address of the network, or the given one.
abbrev pub GatewayFrom : Range → Range → Type 0
GatewayFrom r r' =
    ((r.gateway ≡ []) × (next_ip r'.subnet.ip ≡ some r'.gateway))
    ⊎ ((r.gateway ≢ []) × (canonicalize_ip r.gateway ≡ some r'.gateway))

-- Where the start comes from; a given start is in the range before its end is canonical.
abbrev pub StartFrom : Range → Range → Type 0
StartFrom r r' =
    ((r.range_start ≡ []) × (next_ip r'.subnet.ip ≡ some r'.range_start))
    ⊎ ((r.range_start ≢ [])
        × (canonicalize_ip r.range_start ≡ some r'.range_start)
        × (contains (record r' { range_end = r.range_end }) r'.range_start ≡ true))

-- Where the end comes from: the last address of the network, or the given one, in the range.
abbrev pub EndFrom : Range → Range → Type 0
EndFrom r r' =
    ((r.range_end ≡ []) × (r'.range_end ≡ last_ip r'.subnet))
    ⊎ ((r.range_end ≢ [])
        × (canonicalize_ip r.range_end ≡ some r'.range_end)
        × (contains r' r'.range_end ≡ true))

gateway_from : (r : Range) {r' : Range} → canonicalize_gateway r ≡ ok r' → GatewayFrom r r'
unfolding canonicalize_gateway
gateway_from r h = ground arith

start_from : (r : Range) {r' : Range} → canonicalize_start r ≡ ok r' → StartFrom r r'
unfolding canonicalize_start
start_from r h = ground arith

end_from : (r : Range) {r' : Range} → canonicalize_end r ≡ ok r' → EndFrom r r'
unfolding canonicalize_end
end_from r h = ground arith

-- `Contains` does not read the gateway.
contains_cong :
    (r s : Range) (a : Ip)
    → r.subnet ≡ s.subnet
    → r.range_start ≡ s.range_start
    → r.range_end ≡ s.range_end
    → contains r a ≡ contains s a
unfolding contains contains_canonical
contains_cong r s a p q e = ground arith

abbrev pub Sound : Range → Range → Type 0
Sound r r' =
    IsNetwork r'.subnet
    × (r'.subnet.mask ≡ r.subnet.mask)
    × GatewayFrom r r'
    × StartFrom r r'
    × EndFrom r r'

blocks-Sound :
    (r r1 r2 r3 r' : Range)
    → canonicalize_subnet r ≡ ok r1
    → canonicalize_gateway r1 ≡ ok r2
    → canonicalize_start r2 ≡ ok r3
    → canonicalize_end r3 ≡ ok r'
    → Sound r r'
blocks-Sound r r1 r2 r3 r' h1 h2 h3 h4 =
    let (n, m, p1, p2, p3) = canonicalize_subnet_lem r h1 in
    let (q1, q2, q3) = canonicalize_gateway_lem r1 h2 in
    let (s1, s2, s3) = canonicalize_start_lem r2 h3 in
    let (t1, t2, t3, t4) = canonicalize_end_lem r3 h4 in
    let subnet : r'.subnet ≡ r1.subnet = cc in
    (
      subst IsNetwork (sym subnet) n,
      cc,
      ground (arith, gateway_from r1 h2),
      ground (
        arith,
        start_from r2 h3,
        contains_cong r3 (record r' { range_end = r.range_end }) r'.range_start,
      ),
      ground (arith, end_from r3 h4),
    )

-- A range that `Canonicalize` accepts has a network as its subnet, with the mask it was given, and
-- each of its addresses comes from where the defaults and the checks say.
pub canonicalize-Sound : (r : Range) {r' : Range} → canonicalize r ≡ ok r' → Sound r r'
unfolding canonicalize
canonicalize-Sound r {r'} h =
    let (r1, h1, k1) = >>=-eq-ok (canonicalize_subnet r) _ h in
    let (r2, h2, k2) = >>=-eq-ok (canonicalize_gateway r1) _ k1 in
    let (r3, h3, h4) = >>=-eq-ok (canonicalize_start r2) _ k2 in
    blocks-Sound r r1 r2 r3 r' h1 h2 h3 h4
