-- ===== src/HostLocal/Samples/Addresses.antt =====
-- The theorems on pkg/ip/cidr.go at concrete addresses.
use containerz_plugin.Common.{◌+◌, ◌^◌, ◌<◌, ◌≡◌, inl, [], ◌∷◌, some, length, arith, refl}
use containerz_plugin.Net.{Ip, set_bytes, is_mapped, bytes_eq, to4, to16}
use containerz_plugin.Net.Values.{IsBytes, value}
use containerz_plugin.Net.Regular.{IsRegular}
use containerz_plugin.Cidr.{next_ip, ip_to_int, normalize_ip}
use containerz_plugin.Cidr.Next.{next_ip_lem}
use containerz_plugin.Cidr.Edges.{next_ip_low_v6}
use containerz_plugin.HostLocal.Samples.{host, host-IsRegular, value-host}

-- ::ff:ffff
abbrev low_v6 : Ip
low_v6 = 0 ∷ 0 ∷ 0 ∷ 0 ∷ 0 ∷ 0 ∷ 0 ∷ 0 ∷ 0 ∷ 0 ∷ 0 ∷ 0 ∷ 0 ∷ 255 ∷ 255 ∷ 255 ∷ []

value-low_v6 : value low_v6 ≡ 16777215
unfolding set_bytes
value-low_v6 = refl

abbrev last_v4 : Ip
last_v4 = 255 ∷ 255 ∷ 255 ∷ 255 ∷ []

value-last_v4 : value last_v4 + 1 ≡ 256 ^ 4
unfolding set_bytes
value-last_v4 = refl

b0 : 0 < 256
b0 = omega arith

b255 : 255 < 256
b255 = omega arith

low_v6-IsBytes : IsBytes low_v6
low_v6-IsBytes = (
  b0,
  (
    b0,
    (b0, (b0, (b0, (b0, (b0, (b0, (b0, (b0, (b0, (b0, (b0, (b255, (b255, (b255, tt)))))))))))))),
  ),
)

last_v4-IsRegular : IsRegular last_v4
last_v4-IsRegular = record { bytes = (b255, (b255, (b255, (b255, tt)))); form = inl refl }

next_ip_lem_example :
    (b : Ip) × (next_ip (host 255) ≡ some b)
    × IsRegular b
    × (length b ≡ 4)
    × (value b ≡ value (host 255) + 1)
next_ip_lem_example =
    next_ip_lem (host 255) (host-IsRegular 255 b255) (omega (arith, value-host 255))

next_ip_low_v6_example : (b : Ip) × (next_ip low_v6 ≡ some b) × (length b ≡ 4)
next_ip_low_v6_example =
    next_ip_low_v6 low_v6 low_v6-IsBytes refl (omega (arith, value-low_v6))
      (omega (arith, value-low_v6))

zero_v4 : ip_to_int (normalize_ip (0 ∷ 0 ∷ 0 ∷ 0 ∷ [])) ≡ 0
unfolding normalize_ip to4 to16 set_bytes is_mapped bytes_eq
zero_v4 = refl
