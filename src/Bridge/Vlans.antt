-- ===== src/Bridge/Vlans.antt =====
-- plugins/main/bridge/bridge.go: the VLANs of a trunk port. The Go map of VLANs is the list of its
-- keys, each of them once.
pub mod Sorted
use containerz_plugin.Common.{
  ℕ, zero, suc, ◌+◌, ◌-◌, Bool, true, false, ◌||◌, ◌&&◌, not, List, [], ◌∷◌, Option, none, some,
  if◌then◌else◌, ltb, leb, ◌==◌, ℤ, pos, negsuc, Result, ok, err, ◌>>=◌, ◌>>◌, guard,
}

pub record VlanTrunk : Type 0 where
  pub min_id : Option ℤ
  pub max_id : Option ℤ
  pub id : Option ℤ

pub data VlanError : Type 0 where
  bad_min_id bad_max_id min_above_max min_id_missing max_id_missing bad_id : VlanError

-- A VLAN from 1 to 4094.
unfoldable pub vlan_id : VlanError → ℤ → Result VlanError ℕ
vlan_id e (negsuc n) = err e
vlan_id e (pos n) = if n == 0 || ltb 4094 n then err e else ok n

unfoldable pub has : ℕ → List ℕ → Bool
has v [] = false
has v (x ∷ xs) = x == v || has v xs

-- `vlanMap[v] = struct{}{}`
unfoldable pub put : ℕ → List ℕ → List ℕ
put v m = if has v m then m else v ∷ m

-- The loop from `minID` on, over the number of VLANs.
unfoldable pub put_range : ℕ → ℕ → List ℕ → List ℕ
put_range zero v m = m
put_range (suc n) v m = put_range n (v + 1) (put v m)

unfoldable pub with_range : Option ℤ → Option ℤ → List ℕ → Result VlanError (List ℕ)
with_range none none m = ok m
with_range none (some hi) m = err min_id_missing
with_range (some lo) none m = err max_id_missing
with_range (some lo) (some hi) m = do
  l ← vlan_id bad_min_id lo
  h ← vlan_id bad_max_id hi
  guard (not (ltb h l)) min_above_max
  ok (put_range (h + 1 - l) l m)

unfoldable pub with_id : Option ℤ → List ℕ → Result VlanError (List ℕ)
with_id none m = ok m
with_id (some i) m = do v ← vlan_id bad_id i; ok (put v m)

unfoldable pub vlan_map : List VlanTrunk → List ℕ → Result VlanError (List ℕ)
vlan_map [] m = ok m
vlan_map (t ∷ ts) m = do m1 ← with_range t.min_id t.max_id m; m2 ← with_id t.id m1; vlan_map ts m2

-- `sort.Slice`
unfoldable pub insert : ℕ → List ℕ → List ℕ
insert v [] = v ∷ []
insert v (x ∷ xs) = let rest = insert v xs in if ltb v x then v ∷ x ∷ xs else x ∷ rest

unfoldable pub sort : List ℕ → List ℕ
sort [] = []
sort (x ∷ xs) = insert x (sort xs)

abbrev pub sorted_unless_empty : List ℕ → Option (List ℕ)
sorted_unless_empty [] = none
sorted_unless_empty (x ∷ xs) = some (sort (x ∷ xs))

-- `collectVlanTrunk`; a nil slice is `none`.
unfoldable pub collect_vlan_trunk : Option (List VlanTrunk) → Result VlanError (Option (List ℕ))
collect_vlan_trunk none = ok none
collect_vlan_trunk (some ts) = do m ← vlan_map ts []; ok (sorted_unless_empty m)
