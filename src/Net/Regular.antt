-- ===== src/Net/Regular.antt =====
-- Addresses in standard form: the four bytes of an IPv4 address, or sixteen bytes that lie above the
-- IPv4-mapped block. On these the forms, the equality and the number of an address agree.
use containerz_plugin.Common.{
  ℕ, ◌+◌, ◌*◌, ◌^◌, ◌≤◌, ◌<◌, ◌≡◌, ◌↔◌, ◌⊎◌, inl, inr, true, false, refl, ap, subst, sym, ◌∙◌, [],
  ◌∷◌, ◌++◌, arith, length, take, drop, take-append-drop, length-drop, All-drop, Bool-cases,
}
use containerz_plugin.Net.{Ip, is_mapped, to4, to16, equal, set_bytes, v4_in_v6_prefix, is_nil}
use containerz_plugin.Net.Values.{IsBytes, value, value-append, value-lt, bytes_eq_iff}

abbrev pub mapped_top : ℕ
mapped_top = 2 ^ 48

pub record IsRegular (a : Ip) : Type 0 where
  pub bytes : IsBytes a
  pub form : (length a ≡ 4) ⊎ ((length a ≡ 16) × (mapped_top ≤ value a))

prefix_value : value v4_in_v6_prefix ≡ 65535
unfolding set_bytes
prefix_value = refl

-- A mapped address spells a number of the mapped block, which is the last that fits six bytes.
pub value_mapped :
    (a : Ip)
    → IsBytes a
    → length a ≡ 16
    → is_mapped a ≡ true
    → (65535 * 2 ^ 32 ≤ value a) × (value a < mapped_top)
unfolding is_mapped
value_mapped a h n e =
    let tl = drop 12 a in
    let t : take 12 a ≡ v4_in_v6_prefix = (bytes_eq_iff _ _).0 e in
    let s : value a ≡ value (v4_in_v6_prefix ++ tl) =
      ap value (sym (take-append-drop 12 a) ∙ ap (λ (x : Ip). x ++ tl) t) in
    let l : length tl ≡ 4 = omega (arith, length-drop 12 a) in
    let b : value tl < 256 ^ 4 =
      subst (λ (k : ℕ). value tl < 256 ^ k) l (value-lt _ (All-drop _ 12 a h)) in
    let q : value (v4_in_v6_prefix ++ tl) ≡ value v4_in_v6_prefix * 256 ^ 4 + value tl =
      subst (λ (k : ℕ). value (v4_in_v6_prefix ++ tl) ≡ value v4_in_v6_prefix * 256 ^ k + value tl)
        l (value-append v4_in_v6_prefix tl) in
    (omega (arith, s, q, b, prefix_value), omega (arith, s, q, b, prefix_value))

pub not_mapped : (a : Ip) → IsBytes a → length a ≡ 16 → mapped_top ≤ value a → is_mapped a ≡ false
not_mapped a h n low = elim (Bool-cases (is_mapped a)) [
  | inl e ↦ absurd (omega (arith, value_mapped a h n e))
  | inr e ↦ e
]

pub to4_v4 : (a : Ip) → length a ≡ 4 → to4 a ≡ a
unfolding to4
to4_v4 a n = rw n

pub to4_v6 : (a : Ip) → IsRegular a → length a ≡ 16 → to4 a ≡ []
unfolding to4
to4_v6 a r n = ground (arith, not_mapped a r.bytes n)

pub to16_v6 : (a : Ip) → length a ≡ 16 → to16 a ≡ a
unfolding to16
to16_v6 a n = rw n

pub equal_regular : (a b : Ip) → IsRegular a → IsRegular b → (equal a b ≡ true) ↔ (a ≡ b)
unfolding equal
equal_regular a b ra rb =
    ground (arith, not_mapped a ra.bytes, not_mapped b rb.bytes, bytes_eq_iff a b)

pub regular_not_nil : (a : Ip) → IsRegular a → is_nil a ≡ false
regular_not_nil [] r = absurd (omega (arith, r.form))
regular_not_nil (x ∷ xs) r = refl
