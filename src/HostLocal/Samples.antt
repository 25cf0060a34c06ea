-- ===== src/HostLocal/Samples.antt =====
-- Concrete ranges, stores and calls that the theorems on plugins/ipam/host-local and pkg/ip/cidr.go
-- apply to, and tests of the definitions.
pub mod Addresses
pub mod Ranges
pub mod Configuration
pub mod Commands
pub mod Allocation
pub mod Files
use containerz_plugin.Common.{
  ℕ, ◌+◌, ◌≤◌, ◌<◌, ◌≡◌, ◌≢◌, ◌↔◌, ◌⊎◌, inl, inr, Bool, true, false, ◌&&◌, not, List, [], ◌∷◌,
  Option, none, some, Result, ok, err, Text, text, arith, refl, ltb, if◌then◌else◌, All, Any,
  length,
}
use containerz_plugin.Net.{
  Ip, IpNet, equal, mask_size, mask_length, byte_ones, all_zero, mask_ip, mask_bytes, and_bytes,
  bytes_eq, is_mapped, set_bytes,
}
use containerz_plugin.Net.HostBits.{host_mask}
use containerz_plugin.Net.Values.{IsBytes, value}
use containerz_plugin.Net.Regular.{IsRegular, mapped_top}
use containerz_plugin.HostLocal.Range.{Range, canonicalize, contains, overlaps}
use containerz_plugin.HostLocal.Range.Canonical.{IsNetwork}
use containerz_plugin.HostLocal.Range.Membership.{IsProper, Between}
use containerz_plugin.HostLocal.Range.Defaults.{IsSubnet, top}
use containerz_plugin.HostLocal.Range.Interval.{
  IsCanonical, IsDefault, only_subnet, canonicalize-IsDefault,
}

-- 10.0.0.0/29
abbrev pub net29 : IpNet
net29 = record { ip = 10 ∷ 0 ∷ 0 ∷ 0 ∷ []; mask = 255 ∷ 255 ∷ 255 ∷ 248 ∷ [] }

abbrev pub host : ℕ → Ip
host n = 10 ∷ 0 ∷ 0 ∷ n ∷ []

abbrev pub range29 : Range
range29 = record { range_start = host 1; range_end = host 6; subnet = net29; gateway = host 1 }

bytes4 : (a b c d : ℕ) → a < 256 → b < 256 → c < 256 → d < 256 → IsBytes (a ∷ b ∷ c ∷ d ∷ [])
bytes4 a b c d ha hb hc hd = (ha, (hb, (hc, (hd, tt))))

pub host-IsRegular : (n : ℕ) → n < 256 → IsRegular (host n)
host-IsRegular n h = record {
  bytes = bytes4 10 0 0 n (omega arith) (omega arith) (omega arith) h;
  form = inl refl;
}

pub value-host : (n : ℕ) → value (host n) ≡ 167772160 + n
unfolding set_bytes
value-host n = omega arith

size29 : mask_size net29.mask ≡ (29, 32)
unfolding mask_size mask_length byte_ones all_zero
size29 = refl

clear29 : equal net29.ip (mask_ip net29.ip net29.mask) ≡ true
unfolding equal mask_ip mask_bytes and_bytes bytes_eq is_mapped
clear29 = refl

host_bits29 : value (host_mask net29.mask) ≡ 7
unfolding set_bytes
host_bits29 = refl

pub net29-IsSubnet : IsSubnet net29
net29-IsSubnet = record {
  network = record { roomy = rw size29 (omega arith); fits = refl; clear = clear29 };
  regular = host-IsRegular 0 (omega arith);
  mask_bytes = bytes4 255 255 255 248 (omega arith) (omega arith) (omega arith) (omega arith);
}

pub range29-IsCanonical : IsCanonical range29
range29-IsCanonical = record {
  subnet = net29-IsSubnet;
  proper = record {
    start_regular = host-IsRegular 1 (omega arith);
    end_regular = host-IsRegular 6 (omega arith);
    family = refl;
    subnet_family = refl;
    ordered = omega (arith, value-host 1, value-host 6);
  };
  start_inside = omega (arith, value-host 0, value-host 1);
  end_inside = omega (arith, value-host 0, value-host 6, host_bits29);
}
