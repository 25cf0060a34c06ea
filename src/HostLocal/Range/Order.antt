-- ===== src/HostLocal/Range/Order.antt =====
-- The order of a range's bounds after `Canonicalize`: checked where the end is given, and not where
-- it is left out.
use containerz_plugin.Common.{
  ◌<◌, ◌≡◌, ◌≢◌, inl, inr, true, false, sym, ◌∙◌, [], arith, length, some, ok, Bool-cases,
}
use containerz_plugin.Net.{Ip}
use containerz_plugin.Net.Values.{value, value-lt}
use containerz_plugin.Net.Regular.{IsRegular}
use containerz_plugin.Cidr.{next_ip}
use containerz_plugin.Cidr.Next.{next_ip_lem}
use containerz_plugin.Cidr.Edges.{next_ip_last}
use containerz_plugin.HostLocal.Range.{
  Range, contains, contains_canonical, last_ip, canonicalize_subnet, canonicalize_gateway,
  canonicalize_start, canonicalize_end, canonicalize,
}
use containerz_plugin.HostLocal.Range.Membership.{IsProper, contains_iff, canonicalize_ip_regular}
use containerz_plugin.HostLocal.Range.Canonical.{StartFrom, canonicalize-Sound}

-- A successor that is an address at all is of the same family.
pub next_ip_family : (a b : Ip) → IsRegular a → next_ip a ≡ some b → length b ≡ length a
next_ip_family a b r e = ground (arith, next_ip_lem a r, next_ip_last a r, value-lt a r.bytes)

contains_family :
    (r : Range) (a : Ip) → IsRegular a → contains r a ≡ true → length a ≡ length r.subnet.ip
unfolding contains contains_canonical
contains_family r a ra h = ground (arith, canonicalize_ip_regular a ra)

pub start_family :
    (r r' : Range)
    → StartFrom r r'
    → IsRegular r'.subnet.ip
    → IsRegular r'.range_start
    → length r'.range_start ≡ length r'.subnet.ip
start_family r r' (inl (_, e)) rn rs = next_ip_family r'.subnet.ip r'.range_start rn e
start_family r r' (inr (_, _, h)) rn rs =
    contains_family (record r' { range_end = r.range_end }) r'.range_start rs h

-- Where the end is given, an accepted range has its bounds in one family and in order.
pub canonicalize-IsProper :
    (r r' : Range)
    → canonicalize r ≡ ok r'
    → r.range_end ≢ []
    → IsRegular r'.subnet.ip
    → IsRegular r'.range_start
    → IsRegular r'.range_end
    → IsProper r'
canonicalize-IsProper r r' h given rn rs re =
    let (_, _, _, s, e) = canonicalize-Sound r h in
    let fs = start_family r r' s rn rs in
    let inside : contains r' r'.range_end ≡ true = ground arith in
    let fe = contains_family r' r'.range_end re inside in
    let b = (contains_iff r' r'.range_end re rs re (fe ∙ sym fs) (sym fs)).0 inside in
    record {
      start_regular = rs;
      end_regular = re;
      family = fe ∙ sym fs;
      subnet_family = sym fs;
      ordered = b.1.1;
    }

-- Where the end is left out and the other blocks accept, its default is not compared with the start:
-- with a start, an end and a network in standard form and of one family, a start above the default
-- end is accepted, and the range contains no address in standard form.
pub canonicalize_unchecked_end :
    (r r1 r2 r3 : Range)
    → canonicalize_subnet r ≡ ok r1
    → canonicalize_gateway r1 ≡ ok r2
    → canonicalize_start r2 ≡ ok r3
    → r3.range_end ≡ []
    → IsRegular r3.range_start
    → IsRegular (last_ip r3.subnet)
    → length (last_ip r3.subnet) ≡ length r3.range_start
    → length r3.subnet.ip ≡ length r3.range_start
    → value (last_ip r3.subnet) < value r3.range_start
    → (a : Ip) → IsRegular a
    → let r' = record r3 { range_end = last_ip r3.subnet } in
      (canonicalize r ≡ ok r') × (contains r' a ≡ false)
unfolding canonicalize canonicalize_end
canonicalize_unchecked_end r r1 r2 r3 h1 h2 h3 e rs re f g low a ra = (
  ground arith,
  elim (Bool-cases (contains r' a)) [
    | inl h ↦ absurd (omega (arith, (contains_iff r' a ra rs re f g).0 h))
    | inr h ↦ h
  ],
)
  where
    r' : Range
    r' = record r3 { range_end = last_ip r3.subnet }
