-- ===== src/Bridge/Addresses.antt =====
-- plugins/main/bridge/bridge.go: the addresses of the bridge. The netlink library is a record of the
-- requests that the code makes, over a state of its own; the printing of networks is a parameter.
pub mod Harmony
use containerz_plugin.Common.{
  Bool, true, false, ◌||◌, List, [], ◌∷◌, Option, none, some, ℕ, Result, ok, err, ◌then◌, Text,
  text_eq,
}
use containerz_plugin.Net.{Ip, IpNet, net_contains}

pub data Family : Type 0 where
  family_v4 family_v6 : Family

-- The errors that the code tells apart: `syscall.ENOENT`, `syscall.EEXIST` and all others.
pub data Errno : Type 0 where
  enoent eexist other : Errno

-- `netlink.Link`, the attributes that the code reads.
pub record Link : Type 0 where
  pub name : Text
  pub index : ℕ
  pub mac : List ℕ

pub record Netlink (S : Type 0) : Type 0 where
  pub addr_list : S → Link → Family → List IpNet × Option Errno
  pub addr_add : S → Link → IpNet → S × Option Errno
  pub addr_del : S → Link → IpNet → S × Option Errno
  pub set_hardware_addr : S → Link → List ℕ → S × Option Errno

pub data AddrError : Type 0 where
  no_list no_delete different_address no_add no_mac : AddrError

abbrev pub Outcome : Type 0 → Type 0
Outcome S = S × Result AddrError (Unit {0})

-- Whether an address of the bridge is in the way of a new one: any other of IPv4, and those of IPv6
-- whose network holds the other's address.
unfoldable pub conflicts : Family → IpNet → IpNet → Bool
conflicts family_v4 a n = true
conflicts family_v6 a n = net_contains a n.ip || net_contains n a.ip

abbrev pub answered : {S : Type 0} → AddrError → S × Option Errno → Outcome S
answered e (s, none) = (s, ok tt)
answered e (s, some _) = (s, err e)

-- An address that is there already counts as added.
abbrev pub added : {S : Type 0} → S × Option Errno → Outcome S
added (s, none) = (s, ok tt)
added (s, some eexist) = (s, ok tt)
added (s, some enoent) = (s, err no_add)
added (s, some other) = (s, err no_add)

module _ {S : Type 0} (netlink : Netlink S) (br : Link) where
  unfoldable pub delete_addr : IpNet → S → Outcome S
  delete_addr n s = answered no_delete (netlink.addr_del s br n)

  unfoldable pub add_addr : IpNet → S → Outcome S
  add_addr n s = added (netlink.addr_add s br n) then λ s'.
      answered no_mac (netlink.set_hardware_addr s' br br.mac)

module _ {S : Type 0} (netlink : Netlink S) (print_net : IpNet → Text) (br : Link) where
  -- The loop of `ensureAddr` and what follows it.
  unfoldable pub ensure_among : Family → IpNet → Bool → List IpNet → S → Outcome S
  ensure_among family n force [] s = add_addr netlink br n s
  ensure_among family n force (a ∷ l) s = elim (text_eq (print_net a) (print_net n)) [
    | true ↦ (s, ok tt)
    | false ↦ elim (conflicts family a n) [
      | false ↦ ensure_among family n force l s
      | true ↦ elim force [
        | true ↦ delete_addr netlink br a s then ensure_among family n force l
        | false ↦ (s, err different_address)
      ]
    ]
  ]

  unfoldable pub ensure_listed : Family → IpNet → Bool → List IpNet × Option Errno → S → Outcome S
  ensure_listed family n force (l, none) s = ensure_among family n force l s
  ensure_listed family n force (l, some enoent) s = ensure_among family n force l s
  ensure_listed family n force (l, some eexist) s = (s, err no_list)
  ensure_listed family n force (l, some other) s = (s, err no_list)

  unfoldable pub ensure_addr : Family → IpNet → Bool → S → Outcome S
  ensure_addr family n force s = ensure_listed family n force (netlink.addr_list s br family) s
