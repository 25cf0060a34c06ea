-- ===== src/Cidr/Next.antt =====
-- The successor and the order of addresses in standard form.
use containerz_plugin.Common.{
  ℕ, zero, suc, ◌+◌, ◌-◌, ◌*◌, ◌^◌, ◌≤◌, ◌<◌, ◌≡◌, inl, inr, true, false, subst, sym, ◌∙◌, [], ◌∷◌,
  ◌++◌, arith, length, some, length-append, length-replicate, replicate, All-append, ◌==◌,
  Bool-cases, ==_iff,
}
use containerz_plugin.Net.{Ip, set_bytes, int_bytes}
use containerz_plugin.Net.Values.{
  IsByte, IsBytes, value, value-zeros, int_bytes-value, int_bytes-IsBytes, length-int_bytes-le,
  length-int_bytes-lt,
}
use containerz_plugin.Net.Regular.{IsRegular, mapped_top, to4_v4, to4_v6, to16_v6}
use containerz_plugin.Cidr.{normalize_ip, pad, int_to_ip, next_ip, cmp, order_of}

pub normalize_regular : (a : Ip) → IsRegular a → normalize_ip a ≡ a
unfolding normalize_ip
normalize_regular [] r = absurd (omega (arith, r.form))
normalize_regular (x ∷ xs) r = ground (arith, to4_v4 (x ∷ xs), to4_v6 (x ∷ xs) r, to16_v6 (x ∷ xs))

-- In standard form, and in one family, `Cmp` orders addresses as their numbers.
pub cmp_regular :
    (a b : Ip)
    → IsRegular a
    → IsRegular b
    → length a ≡ length b
    → cmp a b ≡ order_of (value a) (value b)
unfolding cmp
cmp_regular a b ra rb n = rw (normalize_regular a ra, normalize_regular b rb) (ground arith)

zeros-IsBytes : (k : ℕ) → IsBytes (replicate k 0)
zeros-IsBytes zero = tt
zeros-IsBytes (suc k) = (omega arith, zeros-IsBytes k)

-- What `pad` makes of a number's bytes that fit.
pad_lem :
    (k : ℕ) (b : Ip)
    → length b ≤ k
    → IsBytes b
    → (c : Ip) × (pad k b ≡ some c) × IsBytes c × (length c ≡ k) × (value c ≡ value b)
unfolding pad
pad_lem k b h hb = (
  replicate (k - length b) 0 ++ b,
  ground arith,
  All-append IsByte (replicate (k - length b) 0) b (zeros-IsBytes (k - length b)) hb,
  omega (
    arith,
    length-append (replicate (k - length b) 0) b,
    length-replicate {A = ℕ} (k - length b) 0,
  ),
  value-zeros (k - length b) b,
)

abbrev pub Spells : ℕ → ℕ → Ip → Type 0
Spells k n c = IsBytes c × (length c ≡ k) × (value c ≡ n)

int_bytes-exact : (n : ℕ) → value (int_bytes n n []) ≡ n
unfolding set_bytes
int_bytes-exact n =
    let p : (n : ℕ) → value (int_bytes n n []) ≡ n * 1 + 0 =
      λ m. int_bytes-value m m [] (omega arith) in
    p n ∙ omega arith

abbrev pub number_bytes : ℕ → Ip
number_bytes n = int_bytes n n []

number-IsBytes : (n : ℕ) → IsBytes (number_bytes n)
number-IsBytes n = int_bytes-IsBytes n n [] tt

number-le : (n k : ℕ) → n < 256 ^ k → length (number_bytes n) ≤ k
number-le n k h = omega (arith, length-int_bytes-le n n k [] h)

pub int_to_ip_v4 : (n : ℕ) → n < 256 ^ 4 → (c : Ip) × (int_to_ip n false ≡ some c) × Spells 4 n c
unfolding int_to_ip
int_to_ip_v4 n h = elim (Bool-cases (length (number_bytes n) == 4)) [
  | inl full ↦ (number_bytes n, rw full, (number-IsBytes n, (==_iff _ _).0 full, int_bytes-exact n))
  | inr short ↦
      let (c, made, bytes, size, same) =
        pad_lem 4 (number_bytes n) (number-le n 4 h) (number-IsBytes n) in
      (c, ground (arith, number-le n 4 h), (bytes, size, same ∙ int_bytes-exact n))
]

pub int_to_ip_v6 :
    (n : ℕ) → mapped_top ≤ n → n < 256 ^ 16 → (c : Ip) × (int_to_ip n true ≡ some c) × Spells 16 n c
unfolding int_to_ip
int_to_ip_v6 n l h = elim (Bool-cases (length (number_bytes n) == 16)) [
  | inl full ↦
      (number_bytes n, ground arith, (number-IsBytes n, (==_iff _ _).0 full, int_bytes-exact n))
  | inr short ↦
      let (c, made, bytes, size, same) =
        pad_lem 16 (number_bytes n) (number-le n 16 h) (number-IsBytes n) in
      (c, ground (arith, length-int_bytes-lt n n 6 []), (bytes, size, same ∙ int_bytes-exact n))
]

-- `NextIP` of an address in standard form that is not the last of its family is the address of the
-- same family, in standard form, whose number is one more.
pub next_ip_lem :
    (a : Ip)
    → IsRegular a
    → value a + 1 < 256 ^ length a
    → (b : Ip) × (next_ip a ≡ some b)
      × IsRegular b
      × (length b ≡ length a)
      × (value b ≡ value a + 1)
unfolding next_ip
next_ip_lem [] r h = absurd (omega (arith, r.form))
next_ip_lem (x ∷ xs) r h = rw (normalize_regular (x ∷ xs) r) (elim r.form [
  | inl v4 ↦
      let (c, made, s) =
        int_to_ip_v4 (value (x ∷ xs) + 1) (subst (λ k. value (x ∷ xs) + 1 < 256 ^ k) v4 h) in
      (c, ground (arith, made), record { bytes = s.0; form = inl s.1 }, s.1 ∙ sym v4, s.2)
  | inr (v6, low) ↦
      let (c, made, s) =
        int_to_ip_v6 (value (x ∷ xs) + 1) (omega arith)
          (subst (λ k. value (x ∷ xs) + 1 < 256 ^ k) v6 h) in
      (
        c,
        ground (arith, made),
        record { bytes = s.0; form = inr (s.1, omega (arith, s.2)) },
        s.1 ∙ sym v6,
        s.2,
      )
])
