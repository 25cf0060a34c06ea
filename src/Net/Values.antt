-- ===== src/Net/Values.antt =====
-- The number that a slice of bytes spells, and the bytes of a number: laws of `set_bytes` and
-- `int_bytes`.
use native.Mathlib.Nat.{pow-suc, zero-add, suc-add, one-le-pow}
use containerz_plugin.Common.{
  ℕ, zero, suc, ◌+◌, ◌*◌, ◌/◌, ◌%◌, ◌^◌, ◌≤◌, ◌<◌, ◌≡◌, ◌↔◌, refl, ap, subst, sym, ◌∙◌, inl, inr,
  true, [], ◌∷◌, ◌++◌, arith, length, replicate, All, length-append, ◌==◌, ==_iff, false, ◌⊎◌, ap₂,
}
use containerz_plugin.Net.{Ip, bytes_eq, set_bytes, int_bytes}

abbrev pub IsByte : ℕ → Type 0
IsByte b = b < 256

abbrev pub IsBytes : Ip → Type 0
IsBytes = All IsByte

abbrev pub value : Ip → ℕ
value = set_bytes 0

pub bytes_eq_iff : (a b : Ip) → (bytes_eq a b ≡ true) ↔ (a ≡ b)
unfolding bytes_eq
bytes_eq_iff [] [] = ground arith
bytes_eq_iff [] (y ∷ ys) = ground arith
bytes_eq_iff (x ∷ xs) [] = ground arith
bytes_eq_iff (x ∷ xs) (y ∷ ys) = ground (arith, bytes_eq_iff xs ys)

pub set_bytes-add : (acc : ℕ) (bs : Ip) → set_bytes acc bs ≡ acc * 256 ^ length bs + value bs
unfolding set_bytes
set_bytes-add acc [] = omega arith
set_bytes-add acc (b ∷ bs) =
    rw pow-suc (omega (arith, set_bytes-add (acc * 256 + b) bs, set_bytes-add (0 + b) bs))

pub value-cons : (b : ℕ) (bs : Ip) → value (b ∷ bs) ≡ b * 256 ^ length bs + value bs
unfolding set_bytes
value-cons b bs = omega (arith, set_bytes-add (0 + b) bs)

pow_add : (a b : ℕ) → 256 ^ (a + b) ≡ 256 ^ a * 256 ^ b
pow_add zero b = rw zero-add (omega arith)
pow_add (suc a) b =
    rw (suc-add, pow-suc, pow-suc) (omega (arith, ap (λ (t : ℕ). t * 256) (pow_add a b)))

pub value-nil : value [] ≡ 0
unfolding set_bytes
value-nil = refl

pub value-append : (xs ys : Ip) → value (xs ++ ys) ≡ value xs * 256 ^ length ys + value ys
value-append [] ys = unfold set_bytes in omega arith
value-append (x ∷ xs) ys =
    rw
      (
        value-cons x (xs ++ ys),
        value-cons x xs,
        length-append xs ys,
        pow_add (length xs) (length ys),
        value-append xs ys,
      )
      (omega arith)

pub value-zeros : (k : ℕ) (xs : Ip) → value (replicate k 0 ++ xs) ≡ value xs
value-zeros zero xs = refl
value-zeros (suc k) xs = rw (value-cons, value-zeros k xs) (omega arith)

byte_scaled : (b p : ℕ) → b < 256 → b * p + p ≤ p * 256
byte_scaled b p h = grind arith

pub value-lt : (bs : Ip) → IsBytes bs → value bs < 256 ^ length bs
value-lt [] h = unfold set_bytes in omega arith
value-lt (b ∷ bs) (hb, h) =
    rw (value-cons, pow-suc) (omega (arith, value-lt bs h, byte_scaled b (256 ^ length bs) hb))

compare_cases : (x y : ℕ) → (x < y) ⊎ ((y < x) ⊎ (x ≡ y))
compare_cases x y = ground arith

lt_scaled : (x y p : ℕ) → x < y → x * p + p ≤ y * p
lt_scaled x y p h = grind arith

pub quotient_unique : (x y p u v : ℕ) → x * p + u ≡ y * p + v → u < p → v < p → x ≡ y
quotient_unique x y p u v e hu hv = elim (compare_cases x y) [
  | inl h ↦ absurd (omega (arith, lt_scaled x y p h))
  | inr (inl h) ↦ absurd (omega (arith, lt_scaled y x p h))
  | inr (inr h) ↦ h
]

pub value-injective :
    (a b : Ip) → IsBytes a → IsBytes b → length a ≡ length b → value a ≡ value b → a ≡ b
value-injective [] [] _ _ _ _ = refl
value-injective [] (y ∷ ys) _ _ n _ = absurd (omega arith)
value-injective (x ∷ xs) [] _ _ n _ = absurd (omega arith)
value-injective (x ∷ xs) (y ∷ ys) (hx, hxs) (hy, hys) n e =
    let p = 256 ^ length ys in
    let q : value xs < p =
      let t : length xs ≡ length ys = omega arith in
      subst (λ k. value xs < 256 ^ k) t (value-lt xs hxs) in
    let s : x * p + value xs ≡ y * p + value ys =
      let t : length xs ≡ length ys = omega arith in
      subst (λ k. x * 256 ^ k + value xs ≡ y * p + value ys) t
        (sym (value-cons x xs) ∙ e ∙ value-cons y ys) in
    let hd : x ≡ y = quotient_unique x y p (value xs) (value ys) s q (value-lt ys hys) in
    let hv : value xs ≡ value ys =
      let s' : y * p + value xs ≡ y * p + value ys =
        subst (λ (t : ℕ). t * p + value xs ≡ y * p + value ys) hd s in
      omega arith in
    ap₂ ◌∷◌ hd (value-injective xs ys hxs hys (omega arith) hv)

int_bytes-value_round :
    (n : ℕ) (acc : Ip)
    → n / 256 * 256 ^ length ((n % 256) ∷ acc) + value ((n % 256) ∷ acc)
      ≡ n * 256 ^ length acc + value acc
int_bytes-value_round n acc =
    let p = 256 ^ length acc in
    let e : (n / 256 * 256 + n % 256) * p ≡ n * p = ap (λ (t : ℕ). t * p) (omega arith) in
    rw (value-cons, pow-suc) (omega (arith, e))

pub int_bytes-value :
    (fuel n : ℕ) (acc : Ip)
    → n ≤ fuel
    → value (int_bytes fuel n acc) ≡ n * 256 ^ length acc + value acc
unfolding int_bytes
int_bytes-value zero n acc h = let e : n ≡ 0 = omega arith in rw e (omega arith)
int_bytes-value (suc fuel) n acc h = ground (
  arith,
  int_bytes-value fuel (n / 256) ((n % 256) ∷ acc),
  int_bytes-value_round n acc,
  ==_iff n 0,
)

pub int_bytes-IsBytes : (fuel n : ℕ) (acc : Ip) → IsBytes acc → IsBytes (int_bytes fuel n acc)
unfolding int_bytes
int_bytes-IsBytes zero n acc h = h
int_bytes-IsBytes (suc fuel) n acc h =
    ground (arith, int_bytes-IsBytes fuel (n / 256) ((n % 256) ∷ acc))

pub length-int_bytes-le :
    (fuel n k : ℕ) (acc : Ip) → n < 256 ^ k → length (int_bytes fuel n acc) ≤ k + length acc
unfolding int_bytes
length-int_bytes-le zero n k acc h = omega arith
length-int_bytes-le (suc fuel) n zero acc h = ground arith
length-int_bytes-le (suc fuel) n (suc k) acc h =
    let q : n < 256 ^ k * 256 = subst (λ t. n < t) (pow-suc 256 k) h in
    ground (arith, length-int_bytes-le fuel (n / 256) k ((n % 256) ∷ acc))

length-int_bytes-ge : (fuel n : ℕ) (acc : Ip) → length acc ≤ length (int_bytes fuel n acc)
unfolding int_bytes
length-int_bytes-ge zero n acc = omega arith
length-int_bytes-ge (suc fuel) n acc =
    ground (arith, length-int_bytes-ge fuel (n / 256) ((n % 256) ∷ acc))

pub length-int_bytes-lt :
    (fuel n k : ℕ) (acc : Ip)
    → n ≤ fuel
    → 256 ^ k ≤ n
    → k + length acc < length (int_bytes fuel n acc)
unfolding int_bytes
length-int_bytes-lt zero n k acc h p = absurd (omega (arith, one-le-pow k 256))
length-int_bytes-lt (suc fuel) n zero acc h p =
    ground (arith, length-int_bytes-ge fuel (n / 256) ((n % 256) ∷ acc))
length-int_bytes-lt (suc fuel) n (suc k) acc h p =
    let q : 256 ^ k * 256 ≤ n = subst (λ t. t ≤ n) (pow-suc 256 k) p in
    let ne : (n == 0) ≡ false = ground (arith, one-le-pow k 256) in
    rw (ne, int_bytes)
      (omega
        (arith, length-int_bytes-lt fuel (n / 256) k ((n % 256) ∷ acc) (omega arith) (omega arith)))
