-- ===== src/Net/HostBits.antt =====
-- The host part of a network: the addresses from the network address, whose host bits are clear, up
-- to the one with all host bits set.
use Prim.Native.Nat.{bit_and, bit_or}
use native.Mathlib.Nat.{pow-suc, one-le-pow}
use containerz_plugin.Common.{
  ℕ, suc, ◌+◌, ◌-◌, ◌*◌, ◌^◌, ◌≤◌, ◌<◌, ◌≡◌, inl, inr, Bool, true, ◌&&◌, ◌||◌, not, refl, ap, ap₂,
  sym, ◌∙◌, [], ◌∷◌, arith, length, map, some, none, ◌==◌, ltb, leb,
}
use containerz_plugin.Net.{Ip, and_bytes, byte_ones, all_zero, mask_length}
use containerz_plugin.Net.Values.{IsBytes, value, value-nil, value-cons}
use containerz_plugin.Net.Prefix.{all_below, all_below_sound, mask_shape}

-- Setting the host bits of a byte: it stays a byte, the network part stays, and where the host bits
-- were clear they are added.
sets : ℕ → ℕ → Bool
sets m x =
    let y = bit_or x (255 - m) in
    ltb y 256 && bit_and y m == bit_and x m && (not (bit_and x m == x) || y == x + (255 - m))

sets_table : all_below 256 (λ m. all_below 256 (sets m)) ≡ true
unfolding all_below sets
sets_table = refl

pub set_byte :
    (m x : ℕ)
    → m < 256
    → x < 256
    → (bit_or x (255 - m) < 256)
      × (bit_and (bit_or x (255 - m)) m ≡ bit_and x m)
      × (bit_and x m ≡ x → bit_or x (255 - m) ≡ x + (255 - m))
set_byte m x hm hx =
    let row = all_below_sound 256 (λ m. all_below 256 (sets m)) m sets_table hm in
    let cell = all_below_sound 256 (sets m) x row hx in
    unfold sets in (ground (arith, cell), ground (arith, cell), λ e. ground (arith, cell))

abbrev pub host_mask : Ip → Ip
host_mask = map (λ m. 255 - m)

pub length-host_mask : (m : Ip) → length (host_mask m) ≡ length m
length-host_mask [] = refl
length-host_mask (m ∷ ms) = ap suc (length-host_mask ms)

-- The last byte of a prefix mask that leaves two host bits.
two_host_bits : ℕ → Bool
two_host_bits m = elim (byte_ones 8 m) [ none ↦ true | some k ↦ not (leb (k + 2) 8) || leb m 252 ]

two_host_bits_table : all_below 256 two_host_bits ≡ true
unfolding all_below two_host_bits byte_ones
two_host_bits_table = refl

pub last_mask_byte : (m : ℕ) {k : ℕ} → m < 256 → byte_ones 8 m ≡ some k → k + 2 ≤ 8 → m ≤ 252
last_mask_byte m h e l =
    let cell = all_below_sound 256 two_host_bits m two_host_bits_table h in
    unfold two_host_bits in ground (arith, cell)

zeros_host : (ms : Ip) → all_zero ms ≡ true → value (host_mask ms) + 1 ≡ 256 ^ length ms
unfolding all_zero
zeros_host [] z = omega (arith, value-nil)
zeros_host (m ∷ ms) z =
    let cleared : (m ≡ 0) × (all_zero ms ≡ true) = ground arith in
    let p = 256 ^ length ms in
    let e : value (host_mask (m ∷ ms)) ≡ 255 * p + value (host_mask ms) =
      value-cons _ (host_mask ms)
      ∙ ap₂ (λ (t u : ℕ). (255 - t) * 256 ^ u + value (host_mask ms)) cleared.0
          (length-host_mask ms) in
    rw pow-suc (omega (arith, e, zeros_host ms cleared.1))

host_room_last :
    (m : ℕ) (ms : Ip) {k : ℕ}
    → m < 256
    → all_zero ms ≡ true
    → byte_ones 8 m ≡ some k
    → k + 2 ≤ length (m ∷ ms) * 8
    → 3 ≤ value (host_mask (m ∷ ms))
host_room_last m [] {k} h z e l =
    omega (arith, value-cons (255 - m) [], value-nil, last_mask_byte m {k = k} h e)
host_room_last m (n ∷ ns) h z e l = omega (
  arith,
  value-cons (255 - m) (host_mask (n ∷ ns)),
  zeros_host (n ∷ ns) z,
  one-le-pow (length ns) 256,
  pow-suc 256 (length ns),
)

-- A mask that leaves two host bits leaves room for three addresses behind the network address.
pub host_room :
    (m : Ip) {k : ℕ}
    → IsBytes m
    → mask_length m ≡ some k
    → k + 2 ≤ length m * 8
    → 3 ≤ value (host_mask m)
host_room [] h e l = absurd (omega arith)
host_room (m ∷ ms) {k} (hm, hms) e l = elim (mask_shape m ms e) [
  | inl (full, (j, more, count)) ↦
      omega (arith, value-cons (255 - m) (host_mask ms), host_room ms hms more (omega arith))
  | inr (zeros, last) ↦ host_room_last m ms hm zeros last l
]

abbrev pub last_byte : Ip → ℕ
last_byte [] = 0
last_byte (m ∷ []) = m
last_byte (m ∷ n ∷ ns) = last_byte (n ∷ ns)

zeros-last_byte : (ms : Ip) → all_zero ms ≡ true → last_byte ms ≡ 0
unfolding all_zero
zeros-last_byte [] z = refl
zeros-last_byte (m ∷ []) z = ground arith
zeros-last_byte (m ∷ n ∷ ns) z = zeros-last_byte (n ∷ ns) (ground arith)

-- The last byte of a mask that leaves two host bits.
pub last_byte-le :
    (m : Ip) {k : ℕ} → IsBytes m → mask_length m ≡ some k → k + 2 ≤ length m * 8 → last_byte m ≤ 252
last_byte-le [] h e l = omega arith
last_byte-le (m ∷ []) {k} (hm, h) e l = elim (mask_shape m [] e) [
  | inl (full, (j, more, count)) ↦ absurd (omega (arith))
  | inr (zeros, last) ↦ last_mask_byte m hm last l
]
last_byte-le (m ∷ n ∷ ns) (hm, h) e l = elim (mask_shape m (n ∷ ns) e) [
  | inl (full, (j, more, count)) ↦ last_byte-le (n ∷ ns) h more (omega arith)
  | inr (zeros, last) ↦ omega (arith, zeros-last_byte (n ∷ ns) zeros)
]

-- Clearing the host bits takes away at most all of them.
clears : ℕ → ℕ → Bool
clears m x = leb (bit_and x m) x && leb x (bit_and x m + (255 - m))

clears_table : all_below 256 (λ m. all_below 256 (clears m)) ≡ true
unfolding all_below clears
clears_table = refl

clear_byte : (m x : ℕ) → m < 256 → x < 256 → (bit_and x m ≤ x) × (x ≤ bit_and x m + (255 - m))
clear_byte m x hm hx =
    let row = all_below_sound 256 (λ m. all_below 256 (clears m)) m clears_table hm in
    let cell = all_below_sound 256 (clears m) x row hx in unfold clears in ground (arith, cell)

scale_le : (a b p : ℕ) → a ≤ b → a * p ≤ b * p
scale_le a b p h = grind arith

pub and_bytes_bounds :
    (x m : Ip)
    → IsBytes x
    → IsBytes m
    → length x ≡ length m
    → (length (and_bytes x m) ≡ length x)
      × (value (and_bytes x m) ≤ value x)
      × (value x ≤ value (and_bytes x m) + value (host_mask m))
unfolding and_bytes
and_bytes_bounds [] [] hx hm l = (refl, omega arith, omega (arith, value-nil))
and_bytes_bounds [] (m ∷ ms) hx hm l = absurd (omega arith)
and_bytes_bounds (x ∷ xs) [] hx hm l = absurd (omega arith)
and_bytes_bounds (x ∷ xs) (m ∷ ms) (hx, hxs) (hm, hms) l =
    let (n, lo, hi) = and_bytes_bounds xs ms hxs hms (omega arith) in
    let p = 256 ^ length xs in
    let (below, above) = clear_byte m x hm hx in
    let masked : value (bit_and x m ∷ and_bytes xs ms) ≡ bit_and x m * p + value (and_bytes xs ms) =
      value-cons _ _ ∙ ap (λ k. bit_and x m * 256 ^ k + value (and_bytes xs ms)) n in
    let host : value (host_mask (m ∷ ms)) ≡ (255 - m) * p + value (host_mask ms) =
      value-cons _ _
      ∙ ap (λ k. (255 - m) * 256 ^ k + value (host_mask ms))
          (length-host_mask ms ∙ sym (omega arith)) in
    let e = value-cons x xs in
    let s1 = scale_le (bit_and x m) x p below in
    let s2 = scale_le x (bit_and x m + (255 - m)) p above in
    (ap suc n, omega (arith, masked, e, s1, lo), omega (arith, masked, host, e, s2, hi))
