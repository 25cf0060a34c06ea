-- ===== src/Net/Prefix.antt =====
-- Networks with a prefix mask: the addresses in one network lie together.
use Prim.Native.Nat.{bit_and}
use containerz_plugin.Common.{
  ℕ, zero, suc, ◌+◌, ◌-◌, ◌*◌, ◌/◌, ◌%◌, ◌^◌, ◌≤◌, ◌<◌, ◌≡◌, ◌↔◌, ◌⊎◌, inl, inr, Bool, true, false,
  ◌&&◌, ◌||◌, not, refl, ap, ap₂, subst, sym, ◌∙◌, [], ◌∷◌, arith, length, some, none, ◌==◌, Option,
}
use containerz_plugin.Net.{Ip, IpNet, and_bytes, byte_ones, all_zero, mask_length, net_contains}
use containerz_plugin.Net.Values.{
  IsBytes, value, value-cons, value-lt, bytes_eq_iff, quotient_unique,
}
use containerz_plugin.Net.Regular.{IsRegular, to4_v4, to4_v6, regular_not_nil}

unfoldable pub all_below : ℕ → (ℕ → Bool) → Bool
all_below zero p = true
all_below (suc n) p = p n && all_below n p

pub all_below_sound : (n : ℕ) (p : ℕ → Bool) (x : ℕ) → all_below n p ≡ true → x < n → p x ≡ true
unfolding all_below
all_below_sound zero p x h l = absurd (omega arith)
all_below_sound (suc n) p x h l = ground (arith, all_below_sound n p x)

is_some : Option ℕ → Bool
is_some none = false
is_some (some n) = true

-- What a byte of a prefix mask leaves of a byte: a multiple of 256 less the mask.
masks : ℕ → ℕ → Bool
masks m x = not (is_some (byte_ones 8 m)) || bit_and x m == x / (256 - m) * (256 - m)

masks_table : all_below 256 (λ m. all_below 256 (masks m)) ≡ true
unfolding all_below masks byte_ones is_some
masks_table = refl

and_prefix_byte :
    (m x : ℕ) {k : ℕ}
    → byte_ones 8 m ≡ some k
    → m < 256
    → x < 256
    → bit_and x m ≡ x / (256 - m) * (256 - m)
and_prefix_byte m x e hm hx =
    let row = all_below_sound 256 (λ m. all_below 256 (masks m)) m masks_table hm in
    let cell = all_below_sound 256 (masks m) x row hx in
    unfold masks is_some in ground (arith, cell)

head_le : (x y p u v : ℕ) → x * p + u ≤ y * p + v → v < p → x ≤ y
head_le x y p u v e hv = grind arith

div_mono : (x y d : ℕ) → 0 < d → x ≤ y → x / d ≤ y / d
div_mono x y d h l = head_le (x / d) (y / d) d (x % d) (y % d) (omega arith) (omega arith)

-- Between two bytes that a prefix mask does not tell apart it tells none apart.
byte_convex :
    (m x y z : ℕ) {k : ℕ}
    → byte_ones 8 m ≡ some k
    → m < 256
    → x ≤ y
    → y ≤ z
    → z < 256
    → bit_and x m ≡ bit_and z m
    → bit_and y m ≡ bit_and x m
byte_convex m x y z e hm h k hz same =
    let d = 256 - m in
    let ex = and_prefix_byte m x e hm (omega arith) in
    let ey = and_prefix_byte m y e hm (omega arith) in
    let ez = and_prefix_byte m z e hm hz in
    let q : x / d ≡ z / d =
      quotient_unique (x / d) (z / d) d 0 0 (omega arith) (omega arith) (omega arith) in
    let l : x / d ≤ y / d = div_mono x y d (omega arith) h in
    let u : y / d ≤ z / d = div_mono y z d (omega arith) k in
    let r : y / d ≡ x / d = omega arith in ey ∙ ap (λ (t : ℕ). t * d) r ∙ sym ex

and_zero :
    (m a b : Ip)
    → all_zero m ≡ true
    → IsBytes a
    → IsBytes b
    → length a ≡ length m
    → length b ≡ length m
    → and_bytes a m ≡ and_bytes b m
unfolding and_bytes all_zero
and_zero [] [] [] z ha hb la lb = refl
and_zero [] [] (y ∷ ys) z ha hb la lb = absurd (omega arith)
and_zero [] (x ∷ xs) b z ha hb la lb = absurd (omega arith)
and_zero (m ∷ ms) [] b z ha hb la lb = absurd (omega arith)
and_zero (m ∷ ms) (x ∷ xs) [] z ha hb la lb = absurd (omega arith)
and_zero (m ∷ ms) (x ∷ xs) (y ∷ ys) z (hx, hxs) (hy, hys) la lb =
    let zero_mask : byte_ones 8 0 ≡ some 0 = unfold byte_ones in refl in
    let ex = and_prefix_byte 0 x zero_mask (omega arith) hx in
    let ey = and_prefix_byte 0 y zero_mask (omega arith) hy in
    let cleared : (m ≡ 0) × (all_zero ms ≡ true) = ground arith in
    let head : bit_and x 0 ≡ bit_and y 0 = omega arith in
    rw cleared.0 (ap₂ ◌∷◌ head (and_zero ms xs ys cleared.1 hxs hys (omega arith) (omega arith)))

and_full : (x : ℕ) → x < 256 → bit_and x 255 ≡ x
and_full x h =
    let full : byte_ones 8 255 ≡ some 8 = unfold byte_ones in refl in
    omega (arith, and_prefix_byte 255 x full (omega arith) h)

-- The mask's shape, one byte at a time: a full byte before a prefix, or a last byte before zeros.
pub mask_shape :
    (m : ℕ) (ms : Ip) {k : ℕ}
    → mask_length (m ∷ ms) ≡ some k
    → ((m ≡ 255) × ((j : ℕ) × (mask_length ms ≡ some j) × (k ≡ 8 + j)))
      ⊎ ((all_zero ms ≡ true) × (byte_ones 8 m ≡ some k))
unfolding mask_length
mask_shape m ms e = ground arith

-- If a prefix mask does not tell two addresses apart, it tells none apart that lie between them.
pub and_bytes_convex :
    (m a v b : Ip) {k : ℕ}
    → mask_length m ≡ some k
    → IsBytes m
    → IsBytes a
    → IsBytes v
    → IsBytes b
    → length a ≡ length m
    → length v ≡ length m
    → length b ≡ length m
    → value a ≤ value v
    → value v ≤ value b
    → and_bytes a m ≡ and_bytes b m
    → and_bytes v m ≡ and_bytes a m
unfolding and_bytes
and_bytes_convex [] [] [] b e hm ha hv hb la lv lb l u same = refl
and_bytes_convex [] [] (y ∷ ys) b e hm ha hv hb la lv lb l u same = absurd (omega arith)
and_bytes_convex [] (x ∷ xs) v b e hm ha hv hb la lv lb l u same = absurd (omega arith)
and_bytes_convex (m ∷ ms) [] v b e hm ha hv hb la lv lb l u same = absurd (omega arith)
and_bytes_convex (m ∷ ms) (x ∷ xs) [] b e hm ha hv hb la lv lb l u same = absurd (omega arith)
and_bytes_convex (m ∷ ms) (x ∷ xs) (y ∷ ys) [] e hm ha hv hb la lv lb l u same =
    absurd (omega arith)
and_bytes_convex (m ∷ ms) (x ∷ xs) (y ∷ ys) (z ∷ zs) e (hm, hms) (hx, hxs) (hy, hys) (hz, hzs) la lv
      lb l u same =
    let p = 256 ^ length ms in
    let vx : value (x ∷ xs) ≡ x * p + value xs = scaled x xs (omega arith) in
    let vy : value (y ∷ ys) ≡ y * p + value ys = scaled y ys (omega arith) in
    let vz : value (z ∷ zs) ≡ z * p + value zs = scaled z zs (omega arith) in
    let by : value ys < p = below ys hys (omega arith) in
    let bz : value zs < p = below zs hzs (omega arith) in
    let hxy : x ≤ y = head_le x y p (value xs) (value ys) (omega arith) by in
    let hyz : y ≤ z = head_le y z p (value ys) (value zs) (omega arith) bz in
    let heads : bit_and x m ≡ bit_and z m = cc in
    let tails : and_bytes xs ms ≡ and_bytes zs ms = cc in
    elim (mask_shape m ms e) [
      | inl (full, (j, more, _)) ↦
          let xz : x ≡ z =
            sym (and_full x hx)
            ∙ subst (λ t. bit_and x t ≡ bit_and z t) full heads
            ∙ and_full z hz in
          let yx : y ≡ x = omega arith in
          let yp : y * p ≡ x * p = ap (λ (t : ℕ). t * p) yx in
          let zp : z * p ≡ x * p = ap (λ (t : ℕ). t * p) (sym xz) in
          ap₂ ◌∷◌ (ap (λ t. bit_and t m) yx) (
            and_bytes_convex ms xs ys zs more hms hxs hys hzs (omega arith) (omega arith)
              (omega arith) (omega arith) (omega arith) tails)
      | inr (zeros, last) ↦
          ap₂ ◌∷◌ (byte_convex m x y z last hm hxy hyz hz heads)
            (and_zero ms ys xs zeros hys hxs (omega arith) (omega arith))
    ]
  where
    scaled :
        (x : ℕ) (xs : Ip) → length xs ≡ length ms → value (x ∷ xs) ≡ x * 256 ^ length ms + value xs
    scaled x xs e = subst (λ k. value (x ∷ xs) ≡ x * 256 ^ k + value xs) e (value-cons x xs)

    below : (xs : Ip) → IsBytes xs → length xs ≡ length ms → value xs < 256 ^ length ms
    below xs h e = subst (λ k. value xs < 256 ^ k) e (value-lt xs h)

-- For a network and an address in standard form, with a mask of the network's length.
pub net_contains_regular :
    (n : IpNet) (a : Ip)
    → IsRegular n.ip
    → IsRegular a
    → length n.mask ≡ length n.ip
    → (net_contains n a ≡ true)
      ↔ ((length a ≡ length n.ip) × (and_bytes n.ip n.mask ≡ and_bytes a n.mask))
unfolding net_contains
net_contains_regular n a rn ra l = ground (
  arith,
  regular_not_nil n.ip rn,
  to4_v4 n.ip,
  to4_v6 n.ip rn,
  to4_v4 a,
  to4_v6 a ra,
  regular_not_nil a ra,
  bytes_eq_iff (and_bytes n.ip n.mask) (and_bytes a n.mask),
)

-- A network with a prefix mask that contains two addresses contains all that lie between them.
pub net_contains_convex :
    (n : IpNet) (a v b : Ip) {k : ℕ}
    → IsRegular n.ip
    → IsBytes n.mask
    → length n.mask ≡ length n.ip
    → mask_length n.mask ≡ some k
    → IsRegular a
    → IsRegular v
    → IsRegular b
    → length v ≡ length n.ip
    → net_contains n a ≡ true
    → net_contains n b ≡ true
    → value a ≤ value v
    → value v ≤ value b
    → net_contains n v ≡ true
net_contains_convex n a v b rn hm l e ra rv rb lv ha hb low high =
    let (la, ea) = (net_contains_regular n a rn ra l).0 ha in
    let (lb, eb) = (net_contains_regular n b rn rb l).0 hb in
    (net_contains_regular n v rn rv l).1 (
      lv,
      ea
          ∙ sym (
              and_bytes_convex n.mask a v b e hm ra.bytes rv.bytes rb.bytes (la ∙ sym l)
                (lv ∙ sym l) (lb ∙ sym l) low high (sym ea ∙ eb)),
    )
