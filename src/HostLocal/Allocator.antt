-- ===== src/HostLocal/Allocator.antt =====
-- plugins/ipam/host-local/backend/allocator/allocator.go: addresses are handed out of a range set in
-- turn, from the one behind the last reserved one. The loops run on fuel.
pub mod Position
pub mod Iteration
pub mod Sweep
pub mod Start
pub mod Resume
pub mod Search
pub mod Get
pub mod Requested
use mathlib.Core.Option
use containerz_plugin.Common.{
  ℕ, zero, suc, ◌+◌, ◌%◌, Bool, true, false, ◌&&◌, not, List, [], ◌∷◌, Option, none, some, length,
  get_elem?, ◌||◌, if◌then◌else◌, Result, ok, err, ◌>>=◌, is_ok, Text, itoa,
}
use containerz_plugin.Net.{Ip, IpNet, is_nil, equal}
use containerz_plugin.Cidr.{next_ip}
use containerz_plugin.HostLocal.Range.{Range, canonicalize_ip, contains}
use containerz_plugin.HostLocal.RangeSet.{RangeSet, SetError, range_for, set_contains}
use containerz_plugin.HostLocal.Store.{Store, StoreError}

pub record IpAllocator : Type 0 where
  pub rangeset : RangeSet
  pub range_id : Text

unfoldable pub new_ip_allocator : RangeSet → ℕ → IpAllocator
new_ip_allocator s id = record { rangeset = s; range_id = itoa id }

pub record RangeIter : Type 0 where
  pub range_idx : ℕ
  pub cur : Ip
  pub start_ip : Ip

pub record IpConfig : Type 0 where
  pub address : IpNet
  pub gateway : Ip

-- What one call of `Next` comes to.
pub data Outcome : Type 0 where
  found : RangeIter → IpConfig → Outcome
  exhausted : RangeIter → Outcome
  panicked : Outcome
  out_of_fuel : Outcome

pub data GetError : Type 0 where
  bad_request is_gateway not_available duplicate no_addresses crashed no_fuel : GetError
  range_error : SetError → GetError
  store_error : StoreError → GetError

abbrev pub config_at : Range → Ip → IpConfig
config_at r ip = record { address = record { ip = ip; mask = r.subnet.mask }; gateway = r.gateway }

-- The block that moves the cursor: to the start of the next range from the end of one, else to the
-- next address. `none` is a panic, of an index or of `NextIP`.
unfoldable pub advance : RangeSet → RangeIter → Range → Option (RangeIter × Range)
advance s it r =
    if equal it.cur r.range_end
    then (let idx = (it.range_idx + 1) % length s in
        Option.map (λ r'. (record it { range_idx = idx; cur = r'.range_start }, r'))
          (get_elem? s idx))
    else Option.map (λ c. (record it { cur = c }, r)) (next_ip it.cur)

-- The end of `Next`: give up where it started, pass over the gateway, or return the address.
-- `again` is the recursive call.
unfoldable pub arrive : (RangeIter → Outcome) → RangeIter → Range → Outcome
arrive again it r =
    if not (is_nil it.start_ip) && equal it.cur it.start_ip
    then exhausted it
    else (let it' = if is_nil it.start_ip then record it { start_ip = it.cur } else it in
        if equal it'.cur r.gateway then again it' else found it' (config_at r it'.cur))

-- The first call, with no cursor yet.
unfoldable pub begin : (RangeIter → Outcome) → RangeIter → Range → Outcome
begin again it r =
    let it' = record it { cur = r.range_start; start_ip = r.range_start } in
    if equal it'.cur r.gateway then again it' else found it' (config_at r it'.cur)

unfoldable pub visit : RangeSet → (RangeIter → Outcome) → RangeIter → Range → Outcome
visit s again it r =
    if is_nil it.cur
    then begin again it r
    else elim (advance s it r) [ none ↦ panicked | some (it', r') ↦ arrive again it' r' ]

unfoldable pub next : ℕ → RangeSet → RangeIter → Outcome
next zero s it = out_of_fuel
next (suc fuel) s it = elim (get_elem? s it.range_idx) [
  | none ↦ panicked
  | some r ↦ visit s (next fuel s) it r
]

-- The first range that contains the address, and its index.
unfoldable pub index_of : ℕ → RangeSet → Ip → Option ℕ
index_of i [] a = none
index_of i (r ∷ rs) a = if contains r a then some i else index_of (i + 1) rs a

abbrev pub from_last : RangeSet → Ip → Option RangeIter
from_last s last = elim (index_of 0 s last) [
  | none ↦ some (record { range_idx = 0; cur = []; start_ip = [] })
  | some i ↦ some (record { range_idx = i; cur = last; start_ip = [] })
]

abbrev pub from_first : RangeSet → Option RangeIter
from_first [] = none
from_first (r ∷ rs) = some (record { range_idx = 0; cur = []; start_ip = r.range_start })

abbrev pub any_in : RangeSet → List Ip → Bool
any_in s [] = false
any_in s (a ∷ as') = is_ok (range_for s a) || any_in s as'

-- What `Get` makes of the store's answer for the address asked for.
unfoldable pub grant :
    {S : Type 0} → IpConfig → S × Result StoreError Bool → S × Result GetError IpConfig
grant c (s, err e) = (s, err (store_error e))
grant c (s, ok true) = (s, ok c)
grant c (s, ok false) = (s, err not_available)

module _ {S : Type 0} (st : Store S) where
  -- `GetIter`; `none` is the panic on an empty set.
  unfoldable pub get_iter : IpAllocator → S → Option RangeIter
  get_iter a s = elim (st.last_reserved_ip s a.range_id) [
    | err e ↦ from_first a.rangeset
    | ok last ↦
        if not (is_nil last) && set_contains a.rangeset last
        then from_last a.rangeset last
        else from_first a.rangeset
  ]

  -- What the loop of `Get` does with the answer of `Reserve`; `again` is the next round.
  unfoldable pub settle :
      (S → RangeIter → S × Result GetError IpConfig)
      → RangeIter
      → IpConfig
      → S × Result StoreError Bool
      → S × Result GetError IpConfig
  settle again it c (s, err e) = (s, err (store_error e))
  settle again it c (s, ok true) = (s, ok c)
  settle again it c (s, ok false) = again s it

  unfoldable pub try_next :
      (S → RangeIter → S × Result GetError IpConfig)
      → IpAllocator
      → Text
      → Text
      → S
      → Outcome
      → S × Result GetError IpConfig
  try_next again a id ifname s panicked = (s, err crashed)
  try_next again a id ifname s out_of_fuel = (s, err no_fuel)
  try_next again a id ifname s (exhausted _) = (s, err no_addresses)
  try_next again a id ifname s (found it c) =
      settle again it c (st.reserve s id ifname c.address.ip a.range_id)

  -- The loop of `Get`: the first address of the iterator that the store reserves.
  unfoldable pub search_from :
      ℕ → IpAllocator → Text → Text → S → RangeIter → S × Result GetError IpConfig
  search_from zero a id ifname s it = (s, err no_fuel)
  search_from (suc fuel) a id ifname s it =
      try_next (search_from fuel a id ifname) a id ifname s (next (suc fuel) a.rangeset it)

  -- `Get` with an address asked for
  unfoldable pub get_requested : IpAllocator → S → Text → Text → Ip → S × Result GetError IpConfig
  get_requested a s id ifname requested = elim (canonicalize_ip requested) [
    | none ↦ (s, err bad_request)
    | some ip ↦ elim (range_for a.rangeset ip) [
      | err e ↦ (s, err (range_error e))
      | ok r ↦
          if equal ip r.gateway
          then (s, err is_gateway)
          else grant (config_at r ip) (st.reserve s id ifname ip a.range_id)
    ]
  ]

  -- `Get` with no address asked for
  unfoldable pub get_any : ℕ → IpAllocator → S → Text → Text → S × Result GetError IpConfig
  get_any fuel a s id ifname =
      if any_in a.rangeset (st.get_by_id s id ifname)
      then (s, err duplicate)
      else elim (get_iter a s) [
        | none ↦ (s, err crashed)
        | some it ↦ search_from fuel a id ifname s it
      ]

  unfoldable pub get : ℕ → IpAllocator → S → Text → Text → Ip → S × Result GetError IpConfig
  get fuel a s id ifname requested =
      if is_nil requested then get_any fuel a s id ifname else get_requested a s id ifname requested

  unfoldable pub release : IpAllocator → S → Text → Text → S
  release a s id ifname = st.release_by_id s id ifname
