-- ===== src/Cidr/Edges.antt =====
-- Where the successor and the predecessor leave the address family or stop with a panic.
use containerz_plugin.Common.{
  ◌+◌, ◌^◌, ◌≤◌, ◌<◌, ◌≡◌, inl, inr, false, subst, [], ◌∷◌, arith, length, some, none, Bool-cases,
}
use containerz_plugin.Net.{Ip, to4, int_bytes, is_mapped}
use containerz_plugin.Net.Values.{IsBytes, value, length-int_bytes-le, length-int_bytes-lt}
use containerz_plugin.Net.Regular.{IsRegular, value_mapped, to16_v6}
use containerz_plugin.Cidr.{ip_to_int, normalize_ip, pad, int_to_ip, next_ip, prev_ip, abs_pred}
use containerz_plugin.Cidr.Next.{normalize_regular}

low_not_mapped : (a : Ip) → IsBytes a → length a ≡ 16 → value a < 2 ^ 32 → is_mapped a ≡ false
low_not_mapped a h n low = elim (Bool-cases (is_mapped a)) [
  | inl e ↦ absurd (omega (arith, value_mapped a h n e))
  | inr e ↦ e
]

normalize_low : (a : Ip) → IsBytes a → length a ≡ 16 → value a < 2 ^ 32 → normalize_ip a ≡ a
unfolding normalize_ip to4
normalize_low a h n low = ground (arith, low_not_mapped a h n low, to16_v6 a n)

-- Where the successor of sixteen bytes needs exactly four bytes as a number, `NextIP` returns an
-- address of four bytes.
pub next_ip_low_v6 :
    (a : Ip)
    → IsBytes a
    → length a ≡ 16
    → 2 ^ 24 ≤ value a + 1
    → value a + 1 < 2 ^ 32
    → (b : Ip) × (next_ip a ≡ some b) × (length b ≡ 4)
unfolding next_ip int_to_ip
next_ip_low_v6 [] h n l u = absurd (omega arith)
next_ip_low_v6 (x ∷ xs) h n l u =
    let m = value (x ∷ xs) + 1 in
    let four : length (int_bytes m m []) ≡ 4 =
      omega (arith, length-int_bytes-le m m 4 [], length-int_bytes-lt m m 3 []) in
    (int_bytes m m [], ground (arith, normalize_low (x ∷ xs) h n), four)

-- `NextIP` of the last address of a family, in standard form, is a panic.
pub next_ip_last : (a : Ip) → IsRegular a → value a + 1 ≡ 256 ^ length a → next_ip a ≡ none
unfolding next_ip int_to_ip pad
next_ip_last [] r e = absurd (omega (arith, r.form))
next_ip_last (x ∷ xs) r e =
    let m = value (x ∷ xs) + 1 in
    rw (normalize_regular (x ∷ xs) r) (elim r.form [
      | inl v4 ↦
          let full : m ≡ 256 ^ 4 = subst (λ k. m ≡ 256 ^ k) v4 e in
          ground (arith, length-int_bytes-lt m m 4 [], length-int_bytes-le m m 5 [])
      | inr (v6, low) ↦
          let full : m ≡ 256 ^ 16 = subst (λ k. m ≡ 256 ^ k) v6 e in
          ground (arith, length-int_bytes-lt m m 16 [])
    ])

-- `PrevIP` of an address whose number is 0 is what `NextIP` of it is.
pub prev_ip_zero : (a : Ip) → ip_to_int (normalize_ip a) ≡ 0 → prev_ip a ≡ next_ip a
unfolding prev_ip next_ip abs_pred
prev_ip_zero a e = rw e (ground arith)
