-- ===== src/HostLocal/Range/Defaults.antt =====
-- The default bounds of range.go: the first address behind the network address, and the last of the
-- network, without the broadcast address if it is IPv4.
use Prim.Native.Nat.{bit_and, bit_or}
use containerz_plugin.Common.{
  ℕ, suc, ◌+◌, ◌-◌, ◌*◌, ◌^◌, ◌≤◌, ◌<◌, ◌≡◌, ◌↔◌, inl, inr, true, refl, ap, ap₂, subst, sym, ◌∙◌,
  [], ◌∷◌, arith, length, some, ◌==◌, if◌then◌else◌, Option-cases,
}
use containerz_plugin.Net.{
  Ip, IpNet, set_bytes, and_bytes, mask_length, mask_size, equal, mask_ip, mask_bytes, net_contains,
}
use containerz_plugin.Net.Values.{IsBytes, value, value-cons, value-nil, value-lt, bytes_eq_iff}
use containerz_plugin.Net.Regular.{IsRegular, to4_v4, to4_v6, not_mapped, regular_not_nil}
use containerz_plugin.Net.Prefix.{net_contains_regular, net_contains_convex}
use containerz_plugin.Net.HostBits.{
  and_bytes_bounds, length-host_mask, last_byte, last_byte-le, set_byte, host_mask,
}
use containerz_plugin.HostLocal.Range.{or_not, decrement_fourth, last_ip}
use containerz_plugin.HostLocal.Range.Canonical.{IsNetwork}

-- A network of range.go whose address is in standard form.
pub record IsSubnet (n : IpNet) : Type 0 where
  pub network : IsNetwork n
  pub regular : IsRegular n.ip
  pub mask_bytes : IsBytes n.mask

-- With the host bits set.
or_not_lem :
    (x m : Ip)
    → IsBytes x
    → IsBytes m
    → length x ≡ length m
    → IsBytes (or_not x m)
      × (length (or_not x m) ≡ length x)
      × (and_bytes (or_not x m) m ≡ and_bytes x m)
      × (and_bytes x m ≡ x → value (or_not x m) ≡ value x + value (host_mask m))
unfolding or_not and_bytes
or_not_lem [] [] hx hm l = (tt, refl, refl, λ _. omega (arith, value-nil))
or_not_lem [] (m ∷ ms) hx hm l = absurd (omega arith)
or_not_lem (x ∷ xs) [] hx hm l = absurd (omega arith)
or_not_lem (x ∷ xs) (m ∷ ms) (hx, hxs) (hm, hms) l =
    let (b, n, a, v) = or_not_lem xs ms hxs hms (omega arith) in
    let (c, d, e) = set_byte m x hm hx in
    (
      (c, b),
      ap suc n,
      ap₂ ◌∷◌ d a,
      λ clear.
          let clear_head : bit_and x m ≡ x = cc in
          let clear_tail : and_bytes xs ms ≡ xs = cc in
          let top : value (bit_or x (255 - m) ∷ or_not xs ms)
              ≡ bit_or x (255 - m) * 256 ^ length xs + value (or_not xs ms) =
            value-cons _ _ ∙ ap (λ k. bit_or x (255 - m) * 256 ^ k + value (or_not xs ms)) n in
          let mid : bit_or x (255 - m) * 256 ^ length xs ≡ (x + (255 - m)) * 256 ^ length xs =
            ap (λ (t : ℕ). t * 256 ^ length xs) (e clear_head) in
          let low : value (host_mask (m ∷ ms))
              ≡ (255 - m) * 256 ^ length xs + value (host_mask ms) =
            value-cons _ _
            ∙ ap (λ k. (255 - m) * 256 ^ k + value (host_mask ms))
                (length-host_mask ms ∙ sym (omega arith)) in
          let hi = value-cons x xs in omega (arith, top, mid, low, hi, v clear_tail),
    )

pub mask_prefix :
    (n : IpNet)
    → IsNetwork n
    → (k : ℕ) × (mask_length n.mask ≡ some k) × (k + 2 ≤ length n.mask * 8)
unfolding mask_size
mask_prefix n w = elim (Option-cases (mask_length n.mask)) [
  | inl e ↦ absurd (ground (arith, w.roomy))
  | inr (k, e) ↦ (k, e, ground (arith, w.roomy))
]

pub network_clear : (n : IpNet) → IsSubnet n → and_bytes n.ip n.mask ≡ n.ip
unfolding equal mask_ip mask_bytes
network_clear n w = ground (
  arith,
  not_mapped n.ip w.regular.bytes,
  bytes_eq_iff n.ip (and_bytes n.ip n.mask),
  w.regular.form,
  w.network.clear,
  w.network.fits,
  (and_bytes_bounds n.ip n.mask w.regular.bytes w.mask_bytes w.network.fits).0,
)

-- The fourth byte of an IPv4 address counts ones.
decrement_fourth_lem :
    (a : Ip)
    → IsBytes a
    → length a ≡ 4
    → 0 < last_byte a
    → IsBytes (decrement_fourth a)
      × (length (decrement_fourth a) ≡ 4)
      × (value (decrement_fourth a) + 1 ≡ value a)
unfolding decrement_fourth set_bytes
decrement_fourth_lem (a ∷ b ∷ c ∷ d ∷ []) (ha, hb') l pos =
    let (hb, hc') = hb' in
    let (hc, hd') = hc' in
    let (hd, _) = hd' in ((ha, (hb, (hc, (omega arith, tt)))), refl, omega arith)
decrement_fourth_lem (a ∷ b ∷ c ∷ d ∷ e ∷ rest) h l pos = absurd (omega arith)
decrement_fourth_lem [] h l pos = absurd (omega arith)
decrement_fourth_lem (a ∷ []) h l pos = absurd (omega arith)
decrement_fourth_lem (a ∷ b ∷ []) h l pos = absurd (omega arith)
decrement_fourth_lem (a ∷ b ∷ c ∷ []) h l pos = absurd (omega arith)

or_not-last_byte :
    (x m : Ip)
    → IsBytes x
    → IsBytes m
    → length x ≡ length m
    → and_bytes x m ≡ x
    → 0 < length x
    → last_byte m ≤ 252
    → 0 < last_byte (or_not x m)
unfolding or_not and_bytes
or_not-last_byte [] m hx hm l e p q = absurd (omega arith)
or_not-last_byte (x ∷ xs) [] hx hm l e p q = absurd (omega arith)
or_not-last_byte (x ∷ []) (m ∷ []) (hx, hxs) (hm, hms) l e p q =
    let head : bit_and x m ≡ x = cc in omega (arith, (set_byte m x hm hx).2 head)
or_not-last_byte (x ∷ []) (m ∷ n ∷ ms) hx hm l e p q = absurd (omega arith)
or_not-last_byte (x ∷ y ∷ xs) (m ∷ []) hx hm l e p q = absurd (omega arith)
or_not-last_byte (x ∷ y ∷ xs) (m ∷ n ∷ ms) (hx, hxs) (hm, hms) l e p q =
    or_not-last_byte (y ∷ xs) (n ∷ ms) hxs hms (omega arith) (cc) (omega arith) q

-- The highest address of the network: the broadcast address, if it is IPv4.
abbrev pub top : IpNet → ℕ
top n = value n.ip + value (host_mask n.mask)

pub top-lt : (n : IpNet) → IsSubnet n → top n < 256 ^ length n.ip
top-lt n w =
    let (b, l, a, v) = or_not_lem n.ip n.mask w.regular.bytes w.mask_bytes w.network.fits in
    let below : value (or_not n.ip n.mask) < 256 ^ length n.ip =
      subst (λ k. value (or_not n.ip n.mask) < 256 ^ k) l (value-lt _ b) in
    omega (arith, below, v (network_clear n w))

pub record IsLast (n : IpNet) (b : Ip) : Type 0 where
  pub regular : IsRegular b
  pub family : length b ≡ length n.ip
  pub number : value b + (if length n.ip == 4 then 1 else 0) ≡ top n

all_ones-IsRegular : (n : IpNet) → IsSubnet n → IsRegular (or_not n.ip n.mask)
all_ones-IsRegular n w =
    let (b, l, a, v) = or_not_lem n.ip n.mask w.regular.bytes w.mask_bytes w.network.fits in
    record { bytes = b; form = ground (arith, w.regular.form, v (network_clear n w)) }

-- `lastIP` of a network is its highest address, less one if it is IPv4.
pub last_ip-IsLast : (n : IpNet) → IsSubnet n → IsLast n (last_ip n)
unfolding last_ip
last_ip-IsLast n w =
    let (b, l, a, v) = or_not_lem n.ip n.mask w.regular.bytes w.mask_bytes w.network.fits in
    let (k, e, room) = mask_prefix n w.network in
    let clear = network_clear n w in
    elim w.regular.form [
      | inl v4 ↦
          let (db, dl, dv) = decrement_fourth_lem (or_not n.ip n.mask) b (l ∙ v4) (
            or_not-last_byte n.ip n.mask w.regular.bytes w.mask_bytes w.network.fits clear
              (omega arith) (last_byte-le n.mask w.mask_bytes e room)) in
          rw (to4_v4 n.ip v4, regular_not_nil n.ip w.regular)
            (record {
              regular = record { bytes = db; form = inl dl };
              family = dl ∙ sym v4;
              number = ground (arith, v clear);
            })
      | inr (v6, low) ↦ rw (to4_v6 n.ip w.regular v6) (record {
        regular = all_ones-IsRegular n w;
        family = l;
        number = ground (arith, v clear);
      })
    ]

-- A network is the interval from its address to its highest address: `IPNet.Contains` accepts
-- exactly the addresses of its family in it.
pub net_contains-interval :
    (n : IpNet) (a : Ip)
    → IsSubnet n
    → IsRegular a
    → (net_contains n a ≡ true)
      ↔ ((length a ≡ length n.ip) × (value n.ip ≤ value a) × (value a ≤ top n))
net_contains-interval n a w ra =
    let fits = sym w.network.fits in
    let by_bytes = net_contains_regular n a w.regular ra fits in
    let clear = network_clear n w in
    (
      λ h.
          let (l, e) = by_bytes.0 h in
          let (_, low, high) =
            and_bytes_bounds a n.mask ra.bytes w.mask_bytes (l ∙ w.network.fits) in
          let masked : value (and_bytes a n.mask) ≡ value n.ip = ap value (sym e ∙ clear) in
          (l, omega arith, omega arith),
      λ (l, low, high).
          let (b, lb, eb, vb) =
            or_not_lem n.ip n.mask w.regular.bytes w.mask_bytes w.network.fits in
          let (k, e, _) = mask_prefix n w.network in
          let last = all_ones-IsRegular n w in
          net_contains_convex n n.ip a (or_not n.ip n.mask) w.regular w.mask_bytes fits e w.regular
            ra last l ((net_contains_regular n n.ip w.regular w.regular fits).1 (refl, refl))
            ((net_contains_regular n _ w.regular last fits).1 (lb, sym eb)) low
            (omega (arith, vb clear)),
    )
