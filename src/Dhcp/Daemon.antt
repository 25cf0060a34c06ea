-- ===== src/Dhcp/Daemon.antt =====
-- plugins/ipam/dhcp/daemon.go: the leases of the daemon, by client. A lease that the daemon holds is
-- the state of its maintenance, which runs on beside the calls. What `AcquireLease` gives and the
-- rounds that a stop meets come from outside. The calls start behind the decoding of the
-- configuration and the options. A call that none of the rounds that come lets return is `blocked`.
pub mod Calls
use containerz_plugin.Common.{
  ℕ, Bool, true, false, List, [], ◌∷◌, ◌++◌, Option, none, some, length, take, ltb, if◌then◌else◌,
  ◌==◌, Result, ok, err, Text, text_eq, map,
}
use containerz_plugin.Net.{Ip, IpNet}
use containerz_plugin.Dhcp.Options.{Route}
use containerz_plugin.Dhcp.Lease.{
  Lease, Round, Maintained, maintain_on, started, Sent, received, waiting, check, ip_net, NoMask,
  gateway_of, routes,
}

abbrev pub slash : Text
slash = 47 ∷ []

-- The first 254 bytes of the identifier.
unfoldable pub generate_client_id : Text → Text → Text → Text
generate_client_id container net_name ifname =
    let id = container ++ (slash ++ (net_name ++ (slash ++ ifname))) in
    if ltb 254 (length id) then take 254 id else id

-- `leases`, a map; one entry counts for each client.
abbrev pub Leases : Type 0
Leases = List (Text × Maintained)

unfoldable pub get_lease : Text → Leases → Option Maintained
get_lease k [] = none
get_lease k ((n, m) ∷ d) = if text_eq n k then some m else get_lease k d

unfoldable pub clear_lease : Text → Leases → Leases
clear_lease k [] = []
clear_lease k ((n, m) ∷ d) =
    let rest = clear_lease k d in if text_eq n k then rest else (n, m) ∷ rest

unfoldable pub set_lease : Text → Maintained → Leases → Leases
set_lease k m [] = (k, m) ∷ []
set_lease k m ((n, m') ∷ d) = if text_eq n k then (k, m) ∷ d else (n, m') ∷ set_lease k m d

-- What `Allocate` puts into the result.
pub record Granted : Type 0 where
  pub address : IpNet
  pub gateway : Ip
  pub routes_to : List (Route × ℕ)

pub data AllocateError : Type 0 where
  not_acquired mask_missing : AllocateError

pub data Answer : Type 0 where
  granted : Granted → Answer
  failed : AllocateError → Answer
  blocked : Answer

-- The routes with the priority of the configuration; 0 leaves it unset.
abbrev pub prioritized : ℕ → List Route → List (Route × ℕ)
prioritized p [] = []
prioritized p (r ∷ rs) = (r, p) ∷ prioritized p rs

-- `Stop`, which waits for the maintenance to return, over the rounds that this takes.
abbrev pub stop : List Round → Maintained → Maintained
stop rs m = maintain_on m.ending m rs

-- The lease that the daemon holds is stopped where it is; one that it does not hold is forgotten.
unfoldable pub replace_lease : Text → Maintained → Leases → Leases
replace_lease k m [] = []
replace_lease k m ((n, m') ∷ d) = if text_eq n k then (n, m) ∷ d else (n, m') ∷ replace_lease k m d

-- The part of `Allocate` behind the lease.
unfoldable pub answer_with :
    List Round → ℕ → Text → Maintained → Result NoMask IpNet → Leases → Leases × Answer
answer_with rs priority k m (err _) d = (replace_lease k (stop rs m) d, failed mask_missing)
answer_with rs priority k m (ok net) d = (
  set_lease k m d,
  granted (record {
    address = net;
    gateway = gateway_of m.lease.latest.router;
    routes_to = prioritized priority (routes m.lease);
  }),
)

-- With a lease at hand `Allocate` goes on once its `Check` has returned; the lease that the map has is
-- the one that is maintained meanwhile.
unfoldable pub allocate_held : ℕ → Text → Sent → Leases → Leases × Answer
allocate_held priority k (received m rs) d = answer_with rs priority k m (ip_net m.lease) d
allocate_held priority k (waiting m) d = (replace_lease k m d, blocked)

unfoldable pub allocate_new : List Round → ℕ → Text → Option Lease → Leases → Leases × Answer
allocate_new rs priority k none d = (d, failed not_acquired)
allocate_new rs priority k (some l) d = answer_with rs priority k (started l) (ip_net l) d

unfoldable pub allocate : List Round → ℕ → Text → Option Lease → Leases → Leases × Answer
allocate rs priority k acquired d = elim (get_lease k d) [
  | some m ↦ allocate_held priority k (check rs m) d
  | none ↦ allocate_new rs priority k acquired d
]

-- `Release`, with the state that the maintenance of the lease ends in.
unfoldable pub release : List Round → Text → Leases → Leases × Option Maintained
release rs k d = elim (get_lease k d) [
  | some m ↦ (clear_lease k d, some (stop rs m))
  | none ↦ (d, none)
]
