-- ===== src/Common/Strings.antt =====
-- Texts as the bytes of Go's strings: `strings.TrimSpace`, `strconv.Itoa` and equality.
use Prim.Native.Nat.{ℕ, zero, suc, ◌-◌, ◌+◌, ◌/◌, ◌%◌}
use Prim.Native.Char.{code}
use Prim.Native.String.{String}
use mathlib.Core.Path.{◌≡◌}
use mathlib.Core.Logic.{◌↔◌}
use mathlib.Core.Bool.{Bool, true, false, ◌&&◌, ◌||◌}
use mathlib.Core.List.{List, [], ◌∷◌}
use mathlib.Core.Option.{Option, none, some}
use native.Mathlib.Omega.{arith}
use containerz_plugin.Common.Tests.{◌==◌, leb, if◌then◌else◌}

abbrev pub Text : Type 0
Text = List ℕ

-- the bytes of a literal, which is ASCII
abbrev pub text : String → Text
text String.[] = []
text (String.◌∷◌ c s) = code c ∷ text s

unfoldable pub text_eq : Text → Text → Bool
text_eq [] [] = true
text_eq [] (_ ∷ _) = false
text_eq (_ ∷ _) [] = false
text_eq (x ∷ xs) (y ∷ ys) = x == y && text_eq xs ys

pub text_eq_iff : (a b : Text) → (text_eq a b ≡ true) ↔ (a ≡ b)
unfolding text_eq
text_eq_iff [] [] = ground arith
text_eq_iff [] (y ∷ ys) = ground arith
text_eq_iff (x ∷ xs) [] = ground arith
text_eq_iff (x ∷ xs) (y ∷ ys) = ground (arith, text_eq_iff xs ys)

-- `unicode.IsSpace`, on the UTF-8 encoding of a character of one, two or three bytes
unfoldable pub is_space : ℕ → Bool
is_space a = (leb 9 a && leb a 13) || a == 32

unfoldable pub is_space2 : ℕ → ℕ → Bool
is_space2 a b = a == 0xC2 && (b == 0x85 || b == 0xA0)

unfoldable pub is_space3 : ℕ → ℕ → ℕ → Bool
is_space3 a b c =
    (a == 0xE1 && b == 0x9A && c == 0x80)
    || (a == 0xE2
        && b == 0x80
        && ((leb 0x80 c && leb c 0x8A) || c == 0xA8 || c == 0xA9 || c == 0xAF))
    || (a == 0xE2 && b == 0x81 && c == 0x9F)
    || (a == 0xE3 && b == 0x80 && c == 0x80)

-- The bytes of the white space that a text begins with, or that a reversed text ends in; 0 for none.
unfoldable pub space_width : Text → ℕ
space_width [] = 0
space_width (a ∷ []) = if is_space a then 1 else 0
space_width (a ∷ b ∷ []) = if is_space a then 1 else if is_space2 a b then 2 else 0
space_width (a ∷ b ∷ c ∷ _) =
    if is_space a then 1 else if is_space2 a b then 2 else if is_space3 a b c then 3 else 0

unfoldable pub space_width_back : Text → ℕ
space_width_back [] = 0
space_width_back (a ∷ []) = if is_space a then 1 else 0
space_width_back (a ∷ b ∷ []) = if is_space a then 1 else if is_space2 b a then 2 else 0
space_width_back (a ∷ b ∷ c ∷ _) =
    if is_space a then 1 else if is_space2 b a then 2 else if is_space3 c b a then 3 else 0

-- The text behind `n` bytes and the white space that follows them.
unfoldable pub trim_by : (Text → ℕ) → ℕ → Text → Text
trim_by width n [] = []
trim_by width (suc n) (c ∷ cs) = trim_by width n cs
trim_by width zero (c ∷ cs) =
    let w = width (c ∷ cs) in let rest = trim_by width (w - 1) cs in if w == 0 then c ∷ cs else rest

unfoldable pub reverse_onto : Text → Text → Text
reverse_onto out [] = out
reverse_onto out (c ∷ cs) = reverse_onto (c ∷ out) cs

unfoldable pub trim_space : Text → Text
trim_space s =
    reverse_onto [] (trim_by space_width_back 0 (reverse_onto [] (trim_by space_width 0 s)))

digits : ℕ → ℕ → Text → Text
digits zero n out = out
digits (suc fuel) n out =
    let rest = digits fuel (n / 10) ((b'0' + n % 10) ∷ out) in if n == 0 then out else rest

-- `strconv.Itoa` of a number that is not negative
unfoldable pub itoa : ℕ → Text
unfolding digits
itoa n = if n == 0 then b'0' ∷ [] else digits n n []

abbrev onto : ℕ → List Text → List Text
onto c [] = (c ∷ []) ∷ []
onto c (t ∷ ts) = (c ∷ t) ∷ ts

-- `strings.Split` at one character
unfoldable pub split_on : ℕ → Text → List Text
split_on sep [] = [] ∷ []
split_on sep (c ∷ cs) = let rest = split_on sep cs in if c == sep then [] ∷ rest else onto c rest

abbrev before : ℕ → Option (Text × Text) → Option (Text × Text)
before c none = none
before c (some (a, b)) = some (c ∷ a, b)

-- `strings.SplitN(_, sep, 2)` where it has two parts
unfoldable pub cut_at : ℕ → Text → Option (Text × Text)
cut_at sep [] = none
cut_at sep (c ∷ cs) = let rest = cut_at sep cs in if c == sep then some ([], cs) else before c rest
