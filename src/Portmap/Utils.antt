-- ===== src/Portmap/Utils.antt =====
-- plugins/meta/portmap/utils.go: the grouping of ports by protocol, and in lists that one rule can
-- hold.
pub mod Ports
use containerz_plugin.Common.{
  ℕ, zero, suc, ◌+◌, ◌-◌, ◌*◌, ◌/◌, ◌%◌, ◌^◌, Bool, true, false, ◌&&◌, ◌||◌, not, List, [], ◌∷◌,
  ◌++◌, Option, none, some, length, take, ltb, ◌==◌, if◌then◌else◌, ℤ, pos, negsuc, Result, ok, err,
  Text, text, text_eq, itoa,
}

pub record PortMapEntry : Type 0 where
  pub host_port : ℤ
  pub container_port : ℤ
  pub protocol : Text
  pub host_ip : Text

-- `strconv.Itoa`
abbrev pub itoa_int : ℤ → Text
itoa_int (pos n) = itoa n
itoa_int (negsuc n) = 45 ∷ itoa (n + 1)

-- `strings.Join(_, ",")`
abbrev pub join_commas : List Text → Text
join_commas [] = []
join_commas (t ∷ []) = t
join_commas (t ∷ u ∷ ts) = t ++ (44 ∷ join_commas (u ∷ ts))

-- The loop of `splitPortList`, with the ports gathered so far.
unfoldable pub split_from : List Text → List ℤ → List Text
split_from [] [] = []
split_from (a ∷ acc) [] = join_commas (a ∷ acc) ∷ []
split_from acc (p ∷ ps) =
    let acc' = acc ++ itoa_int p ∷ [] in
    let full = join_commas acc' ∷ split_from [] ps in
    let more = split_from acc' ps in if length acc' == 15 then full else more

unfoldable pub split_port_list : List ℤ → List Text
split_port_list ps = split_from [] ps

-- `trimComment`
unfoldable pub trim_comment : Text → Text
trim_comment t = if ltb 255 (length t) then take 253 t ++ text "..." else t

-- The order of `sort.Strings`
abbrev pub text_lt : Text → Text → Bool
text_lt [] [] = false
text_lt [] (_ ∷ _) = true
text_lt (_ ∷ _) [] = false
text_lt (x ∷ xs) (y ∷ ys) =
    let rest = text_lt xs ys in if ltb x y then true else if x == y then rest else false

abbrev pub insert_proto : Text → List Text → List Text
insert_proto p [] = p ∷ []
insert_proto p (q ∷ qs) =
    let rest = insert_proto p qs in
    if text_eq p q then q ∷ qs else if text_lt p q then p ∷ q ∷ qs else q ∷ rest

-- The keys of `groupByProto`, sorted.
unfoldable pub protos : List PortMapEntry → List Text
protos [] = []
protos (e ∷ es) = insert_proto e.protocol (protos es)

-- The host ports of one of its groups.
unfoldable pub ports_of : Text → List PortMapEntry → List ℤ
ports_of p [] = []
ports_of p (e ∷ es) =
    let rest = ports_of p es in if text_eq e.protocol p then e.host_port ∷ rest else rest
