-- ===== src/Cidr.antt =====
-- pkg/ip/cidr.go: the successor, the predecessor and the order of addresses. The outer `none` of a
-- result is a panic (a slice made with a negative length).
pub mod Next
pub mod Edges
use containerz_plugin.Common.{
  ℕ, ◌+◌, ◌-◌, Bool, true, false, ◌&&◌, ◌||◌, not, Option, none, some, [], ◌++◌, length, replicate,
  ltb, ◌==◌, if◌then◌else◌,
}
use containerz_plugin.Net.{
  Ip, IpNet, is_nil, to4, to16, mask_ip, set_bytes, int_bytes, ipv4_len, ipv6_len,
}

-- The results of `Cmp`: -1, 0, 1 and -2.
pub data Order : Type 0 where
  less same more incomparable : Order

-- `Cmp(a, b) < 0`
abbrev pub is_negative : Order → Bool
is_negative less = true
is_negative same = false
is_negative more = false
is_negative incomparable = true

-- `Cmp(a, b) > 0`
abbrev pub is_positive : Order → Bool
is_positive less = false
is_positive same = false
is_positive more = true
is_positive incomparable = false

unfoldable pub normalize_ip : Ip → Ip
normalize_ip ip = if is_nil (to4 ip) then to16 ip else to4 ip

abbrev pub ip_to_int : Ip → ℕ
ip_to_int ip = set_bytes 0 ip

-- `append(make([]byte, n-len(b)), b...)`
unfoldable pub pad : ℕ → Ip → Option Ip
pad n b = if ltb n (length b) then none else some (replicate (n - length b) 0 ++ b)

unfoldable pub int_to_ip : ℕ → Bool → Option Ip
int_to_ip i is_ipv6 =
    let b = int_bytes i i [] in
    if (length b == ipv4_len) || (length b == ipv6_len)
    then some b
    else if is_ipv6
    then pad ipv6_len b
    else pad ipv4_len b

unfoldable pub next_ip : Ip → Option Ip
next_ip ip =
    let n = normalize_ip ip in
    if is_nil n then some [] else int_to_ip (ip_to_int n + 1) (length n == ipv6_len)

-- `big.Int.Bytes` drops the sign, so that the predecessor of 0 is spelled by the bytes of 1.
unfoldable pub abs_pred : ℕ → ℕ
abs_pred n = if n == 0 then 1 else n - 1

unfoldable pub prev_ip : Ip → Option Ip
prev_ip ip =
    let n = normalize_ip ip in
    if is_nil n then some [] else int_to_ip (abs_pred (ip_to_int n)) (length n == ipv6_len)

unfoldable pub order_of : ℕ → ℕ → Order
order_of a b = if ltb a b then less else if a == b then same else more

unfoldable pub cmp : Ip → Ip → Order
unfolding order_of
cmp a b =
    let m = normalize_ip a in
    let n = normalize_ip b in
    if (length m == length n) && not (length m == 0)
    then order_of (ip_to_int m) (ip_to_int n)
    else incomparable

-- `nil` is returned for a network that is nil or whose mask does not fit.
unfoldable pub network : Option IpNet → Option IpNet
network none = none
network (some ipn) =
    let masked = mask_ip ipn.ip ipn.mask in
    if is_nil masked then none else some (record { ip = masked; mask = ipn.mask })
