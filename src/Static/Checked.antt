-- ===== src/Static/Checked.antt =====
-- What `cmdCheck` of the static plugin does not check.
use containerz_plugin.Common.{◌≡◌, true, false, List, [], ◌∷◌, All, refl}
use containerz_plugin.Net.{Ip, equal}
use containerz_plugin.Static.{Address, check_one, check_addresses}

-- No result has the address.
abbrev pub Missing : List (Ip × Ip) → Address → Type 0
Missing ips a = All (λ (p : Ip × Ip). equal a.address.ip p.0 ≡ false) ips

check_one-Missing : (a : Address) (ips : List (Ip × Ip)) → Missing ips a → check_one a ips ≡ true
unfolding check_one
check_one-Missing a [] h = refl
check_one-Missing a ((ip, gw) ∷ ips) (h, hs) = rw h (check_one-Missing a ips hs)

-- `cmdCheck` accepts configured addresses none of which is in the previous result.
pub check_addresses-Missing :
    (as' : List Address) (ips : List (Ip × Ip))
    → All (Missing ips) as'
    → check_addresses as' ips ≡ true
unfolding check_addresses
check_addresses-Missing [] ips h = refl
check_addresses-Missing (a ∷ as') ips (h, hs) =
    rw (check_one-Missing a ips h) (check_addresses-Missing as' ips hs)
