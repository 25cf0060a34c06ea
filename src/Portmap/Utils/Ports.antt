-- ===== src/Portmap/Utils/Ports.antt =====
-- The groups of ports of the multiport match: at most fifteen each, and together all ports in order.
use containerz_plugin.Common.{
  ℕ, suc, ◌≤◌, ◌<◌, ◌≡◌, inl, inr, refl, sym, ap, subst, ◌∙◌, false, List, [], ◌∷◌, ◌++◌,
  append_assoc, All, length, length-append, arith, ℤ, Text, ◌==◌, if◌then◌else◌, Bool-cases, ==_iff,
}
use containerz_plugin.Portmap.Utils.{itoa_int, join_commas, split_from, split_port_list}

abbrev pub printed : List ℤ → List Text
printed [] = []
printed (p ∷ ps) = itoa_int p ∷ printed ps

-- The text of each group.
abbrev pub specs : List (List ℤ) → List Text
specs [] = []
specs (g ∷ gs) = join_commas (printed g) ∷ specs gs

abbrev pub joined : List (List ℤ) → List ℤ
joined [] = []
joined (g ∷ gs) = g ++ joined gs

abbrev pub IsGroup : List ℤ → Type 0
IsGroup g = (1 ≤ length g) × (length g ≤ 15)

pub record Grouped (ps : List ℤ) (out : List Text) : Type 0 where
  pub groups : List (List ℤ)
  pub spelled : out ≡ specs groups
  pub all_ports : joined groups ≡ ps
  pub sizes : All IsGroup groups

printed-append : (ps qs : List ℤ) → printed (ps ++ qs) ≡ printed ps ++ printed qs
printed-append [] qs = refl
printed-append (p ∷ ps) qs = rw (printed-append ps qs)

length-printed : (ps : List ℤ) → length (printed ps) ≡ length ps
length-printed [] = refl
length-printed (p ∷ ps) = rw (length-printed ps)

-- One step of the loop, at a group that is not empty.
split_from_step :
    (acc : List Text) (p : ℤ) (ps : List ℤ)
    → split_from acc (p ∷ ps) ≡ (
        if length (acc ++ itoa_int p ∷ []) == 15
        then join_commas (acc ++ itoa_int p ∷ []) ∷ split_from [] ps
        else split_from (acc ++ itoa_int p ∷ []) ps)
unfolding split_from
split_from_step [] p ps = refl
split_from_step (a ∷ acc) p ps = refl

last_group : (q : ℤ) (qs : List ℤ) → split_from (printed (q ∷ qs)) [] ≡ specs ((q ∷ qs) ∷ [])
unfolding split_from
last_group q qs = refl

split_from-Grouped :
    (qs ps : List ℤ) → length qs < 15 → Grouped (qs ++ ps) (split_from (printed qs) ps)
split_from-Grouped [] [] h = record {
  groups = [];
  spelled = unfold split_from in refl;
  all_ports = refl;
  sizes = tt;
}
split_from-Grouped (q ∷ qs) [] h = record {
  groups = (q ∷ qs) ∷ [];
  spelled = last_group q qs;
  all_ports = refl;
  sizes = ((omega arith, omega arith), tt);
}
split_from-Grouped qs (p ∷ ps) h =
    let now : printed (qs ++ p ∷ []) ≡ printed qs ++ itoa_int p ∷ [] = printed-append qs (p ∷ []) in
    let size : length (printed qs ++ itoa_int p ∷ []) ≡ suc (length qs) =
      length-append (printed qs) (itoa_int p ∷ []) ∙ omega (arith, length-printed qs) in
    let more : length (qs ++ p ∷ []) ≡ suc (length qs) = length-append qs (p ∷ []) ∙ omega arith in
    let order : (qs ++ p ∷ []) ++ ps ≡ qs ++ p ∷ ps = append_assoc qs (p ∷ []) ps in
    subst (Grouped (qs ++ p ∷ ps)) (sym (split_from_step (printed qs) p ps))
      (elim (Bool-cases (length (printed qs ++ itoa_int p ∷ []) == 15)) [
        | inl full ↦
            let g = split_from-Grouped [] ps (omega arith) in
            let fifteen = (==_iff (length (printed qs ++ itoa_int p ∷ [])) 15).0 full in
            rw full (record {
              groups = (qs ++ p ∷ []) ∷ g.groups;
              spelled = rw (now, g.spelled) refl;
              all_ports = ap (λ t. (qs ++ p ∷ []) ++ t) g.all_ports ∙ order;
              sizes = ((omega (arith, more), omega (arith, more, size, fifteen)), g.sizes);
            })
        | inr room ↦ rw room (
            subst (λ t. Grouped t (split_from (printed qs ++ itoa_int p ∷ []) ps)) order
              (subst (λ t. Grouped ((qs ++ p ∷ []) ++ ps) (split_from t ps)) now
                (split_from-Grouped (qs ++ p ∷ []) ps (
                  short (length qs) (length (qs ++ p ∷ [])) (length (printed qs ++ itoa_int p ∷ []))
                    h more size room))))
      ])
  where
    short : (k m n : ℕ) → k < 15 → m ≡ suc k → n ≡ suc k → (n == 15) ≡ false → m < 15
    short k m n a b c d = ground arith

-- `splitPortList` cuts the ports, in order and none left out, into groups of one to fifteen, and
-- spells each group with commas.
pub split_port_list-Grouped : (ps : List ℤ) → Grouped ps (split_port_list ps)
unfolding split_port_list
split_port_list-Grouped ps = split_from-Grouped [] ps (omega arith)
