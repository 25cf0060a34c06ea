-- ===== src/Net.antt =====
-- Go's `net.IP`, `net.IPMask` and `net.IPNet`, and the byte form of `big.Int`, as far as the plugins
-- use them. An address is its slice of bytes, and `nil` is the empty slice. These are the standard
-- library's own functions, modelled from their documented behaviour; no code of the repository.
pub mod Values
pub mod Regular
pub mod Prefix
pub mod HostBits
use Prim.Native.Nat.{bit_and}
use mathlib.Core.Option
use containerz_plugin.Common.{
  ℕ, zero, suc, ◌+◌, ◌*◌, ◌/◌, ◌%◌, Bool, true, false, ◌&&◌, List, [], ◌∷◌, ◌++◌, length, take,
  drop, replicate, ◌==◌, if◌then◌else◌, ltb, Option, none, some,
}

abbrev pub Ip : Type 0
Ip = List ℕ

abbrev pub is_nil : Ip → Bool
is_nil [] = true
is_nil (_ ∷ _) = false

abbrev pub ipv4_len : ℕ
ipv4_len = 4

abbrev pub ipv6_len : ℕ
ipv6_len = 16

-- `bytes.Equal`
unfoldable pub bytes_eq : Ip → Ip → Bool
bytes_eq [] [] = true
bytes_eq [] (_ ∷ _) = false
bytes_eq (_ ∷ _) [] = false
bytes_eq (x ∷ xs) (y ∷ ys) = x == y && bytes_eq xs ys

-- the first twelve bytes of an IPv4 address in the 16-byte form
abbrev pub v4_in_v6_prefix : Ip
v4_in_v6_prefix = replicate 10 0 ++ 255 ∷ 255 ∷ []

unfoldable pub is_mapped : Ip → Bool
is_mapped ip = bytes_eq (take 12 ip) v4_in_v6_prefix

-- `IP.To4`
unfoldable pub to4 : Ip → Ip
to4 ip =
    if length ip == ipv4_len
    then ip
    else if (length ip == ipv6_len) && is_mapped ip
    then drop 12 ip
    else []

-- `IP.To16`
unfoldable pub to16 : Ip → Ip
to16 ip =
    if length ip == ipv4_len
    then v4_in_v6_prefix ++ ip
    else if length ip == ipv6_len
    then ip
    else []

-- `IP.Equal`: an IPv4 address and its 16-byte form are equal.
unfoldable pub equal : Ip → Ip → Bool
equal a b =
    if length a == length b
    then bytes_eq a b
    else if (length a == ipv4_len) && (length b == ipv6_len)
    then is_mapped b && bytes_eq a (drop 12 b)
    else if (length a == ipv6_len) && (length b == ipv4_len)
    then is_mapped a && bytes_eq (drop 12 a) b
    else false

-- byte by byte, as far as both slices go
unfoldable pub and_bytes : Ip → Ip → Ip
and_bytes [] ms = []
and_bytes (_ ∷ _) [] = []
and_bytes (x ∷ xs) (m ∷ ms) = bit_and x m ∷ and_bytes xs ms

pub record IpNet : Type 0 where
  pub ip : Ip
  pub mask : Ip

unfoldable pub mask_bytes : Ip → Ip → Ip
mask_bytes ip mask = if length ip == length mask then and_bytes ip mask else []

-- `IP.Mask`; an address and a mask of different forms are brought to the IPv4 form first.
unfoldable pub mask_ip : Ip → Ip → Ip
unfolding mask_bytes
mask_ip ip mask =
    if (length mask == ipv6_len)
      && (length ip == ipv4_len)
      && bytes_eq (take 12 mask) (replicate 12 255)
    then mask_bytes ip (drop 12 mask)
    else if (length mask == ipv4_len) && (length ip == ipv6_len) && is_mapped ip
    then mask_bytes (drop 12 ip) mask
    else mask_bytes ip mask

contains_by : Ip → Ip → Ip → Bool
contains_by number mask ip =
    (length ip == length number) && bytes_eq (and_bytes number mask) (and_bytes ip mask)

contains_number : Ip → Ip → Ip → Bool
unfolding contains_by
contains_number number mask ip =
    if length mask == ipv4_len
    then (length number == ipv4_len) && contains_by number mask ip
    else if length mask == ipv6_len
    then if length number == ipv4_len
      then contains_by number (drop 12 mask) ip
      else contains_by number mask ip
    else length ip == 0

-- `nil` where it has no IPv4 form
abbrev pub or_v4 : Ip → Ip
or_v4 ip = if is_nil (to4 ip) then ip else to4 ip

-- `IPNet.Contains`, with `networkNumberAndMask` in it: where that fails, the network number is `nil`
-- and only a `nil` address compares equal to it.
unfoldable pub net_contains : IpNet → Ip → Bool
unfolding contains_number
net_contains n ip =
    if is_nil (to4 n.ip)
    then if length n.ip == ipv6_len then contains_number n.ip n.mask (or_v4 ip) else length ip == 0
    else contains_number (to4 n.ip) n.mask (or_v4 ip)

-- The ones that a byte begins with, if only zeros follow them: the inner loops of `simpleMaskLength`.
unfoldable pub byte_ones : ℕ → ℕ → Option ℕ
byte_ones zero v = if v == 0 then some 0 else none
byte_ones (suc rounds) v =
    let rest = Option.map suc (byte_ones rounds (v * 2 % 256)) in
    if ltb v 128 then (if v == 0 then some 0 else none) else rest

-- the rest of a mask must be zero
unfoldable pub all_zero : Ip → Bool
all_zero [] = true
all_zero (b ∷ bs) = b == 0 && all_zero bs

unfoldable pub mask_length : Ip → Option ℕ
unfolding byte_ones all_zero
mask_length [] = some 0
mask_length (b ∷ bs) =
    let rest = Option.map (λ n. 8 + n) (mask_length bs) in
    if b == 255 then rest else if all_zero bs then byte_ones 8 b else none

-- `IPMask.Size`: the ones and the bits of a mask, both 0 if the ones do not stand in front.
unfoldable pub mask_size : Ip → ℕ × ℕ
mask_size m = elim (mask_length m) [ none ↦ (0, 0) | some ones ↦ (ones, length m * 8) ]

-- `big.Int.SetBytes`
unfoldable pub set_bytes : ℕ → Ip → ℕ
set_bytes acc [] = acc
set_bytes acc (b ∷ bs) = set_bytes (acc * 256 + b) bs

-- `big.Int.Bytes`: the fewest bytes that spell the number, on as much fuel as the number is large.
unfoldable pub int_bytes : ℕ → ℕ → Ip → Ip
int_bytes zero n acc = acc
int_bytes (suc fuel) n acc =
    let rest = int_bytes fuel (n / 256) ((n % 256) ∷ acc) in if n == 0 then acc else rest
