-- ===== src/Dhcp/Lease.antt =====
-- plugins/ipam/dhcp/lease.go: what a lease is, and the loop that maintains it. Times and durations
-- are in nanoseconds. One pass of the loop is a step; a round says what the pass meets: the link, the
-- clock, the answer of the DHCP server behind all retries, and the channel that `select` takes. The
-- packets of the DHCP library are a record of the options that the code reads.
pub mod Times
pub mod Maintenance
pub mod Ended
use containerz_plugin.Common.{
  ℕ, ◌*◌, ◌/◌, ◌-◌, ◌+◌, Bool, true, false, ◌||◌, ◌&&◌, not, List, [], ◌∷◌, ◌++◌, map, Option, none,
  some, if◌then◌else◌, ℤ, pos, negsuc, ◌+ℤ◌, ltℤ, to_int64, div_trunc, Result, ok, err, Text,
}
use containerz_plugin.Net.{Ip, IpNet, is_nil}
use containerz_plugin.Dhcp.Options.{Route, parse_routes}

abbrev pub second : ℕ
second = 1000000000

abbrev pub default_lease_time : ℕ
default_lease_time = 3600 * second

-- An acknowledgement of the server; an option that is absent or does not parse is `none`.
pub record Ack : Type 0 where
  pub your_ip : Ip
  pub subnet_mask : Ip
  pub router : List Ip
  pub lease_time : Option ℕ
  pub renewal_time : Option ℕ
  pub rebinding_time : Option ℕ
  pub classless_routes : List Route
  pub static_routes : Option (List ℕ)

-- `DHCPLease`, the fields that the maintenance sets.
pub record Lease : Type 0 where
  pub latest : Ack
  pub renewal_time : ℤ
  pub rebinding_time : ℤ
  pub expire_time : ℤ

abbrev pub duration_or : Option ℕ → ℤ → ℤ
duration_or none d = d
duration_or (some n) d = pos n

abbrev pub lease_time_of : Ack → ℕ
lease_time_of ack = elim ack.lease_time [ none ↦ default_lease_time | some n ↦ n ]

-- `leaseTime * 85 / 100`, on an int64
abbrev pub default_rebinding : ℕ → ℤ
default_rebinding n = div_trunc (to_int64 (n * 85)) 100

unfoldable pub commit : Ack → ℕ → Lease
commit ack now =
    let lease_time = lease_time_of ack in
    record {
      latest = ack;
      renewal_time = pos now +ℤ duration_or ack.renewal_time (pos (lease_time / 2));
      rebinding_time = pos now +ℤ duration_or ack.rebinding_time (default_rebinding lease_time);
      expire_time = pos (now + lease_time);
    }

pub data Phase : Type 0 where
  bound renewing rebinding : Phase

-- The channel that `select` takes.
pub data Signal : Type 0 where
  timer check_asked stop_asked : Signal

-- Why the loop has returned.
pub data Ending : Type 0 where
  link_gone expired stopped : Ending

-- What one pass of the loop meets; `reply` is `none` for an error of `renew` or `acquire`, and
-- `clock` is the time that the code reads behind it. `released` says whether `release` succeeds, and
-- `set_down` whether `netlink.LinkSetDown` does, if the pass calls them.
pub record Round : Type 0 where
  pub link_exists : Bool
  pub now : ℕ
  pub reply : Option Ack
  pub clock : ℕ
  pub signal : Signal
  pub released : Bool
  pub set_down : Bool

-- The loop under way or ended. `link_down` and `release` are the results of the requests to bring the
-- interface down and to release the lease, once they are made, and `took` is the channel that the last
-- pass took, if it reached the `select`.
pub record Maintained : Type 0 where
  pub phase : Phase
  pub lease : Lease
  pub link_down : Option Bool
  pub release : Option Bool
  pub took : Option Signal
  pub ending : Option Ending

-- The state before the first pass.
abbrev pub started : Lease → Maintained
started l = record {
  phase = bound;
  lease = l;
  link_down = none;
  release = none;
  took = none;
  ending = none;
}

-- The `select` at the end of a pass, by whether a release succeeds; one that fails is only logged.
unfoldable pub select : Signal → Bool → Maintained → Maintained
select timer released s = record s { took = some timer }
select check_asked released s = record s { took = some check_asked }
select stop_asked released s = record s {
  took = some stop_asked;
  release = some released;
  ending = some stopped;
}

-- A renewal or a rebinding that the server has granted.
unfoldable pub granted : Ack → Round → Maintained → Maintained
granted ack r s =
    select r.signal r.released (record s { phase = bound; lease = commit ack r.clock })

unfoldable pub renewal_failed : Round → Maintained → Maintained
renewal_failed r s =
    select r.signal r.released
      (if ltℤ s.lease.rebinding_time (pos r.clock) then record s { phase = rebinding } else s)

-- At the end of the lease the loop asks for the interface to be brought down, and returns at once; a
-- failure is only logged.
unfoldable pub rebinding_failed : Round → Maintained → Maintained
rebinding_failed r s =
    if ltℤ s.lease.expire_time (pos r.clock)
    then record s { link_down = some r.set_down; ending = some expired }
    else select r.signal r.released s

-- The `switch` of `maintain`.
unfoldable pub in_phase : Phase → Option Ack → Round → Maintained → Maintained
in_phase bound _ r s =
    if ltℤ (pos r.now) s.lease.renewal_time
    then select r.signal r.released s
    else record s { phase = renewing }
in_phase renewing (some ack) r s = granted ack r s
in_phase renewing none r s = renewal_failed r s
in_phase rebinding (some ack) r s = granted ack r s
in_phase rebinding none r s = rebinding_failed r s

-- A pass starts without a channel taken.
abbrev pub awake : Maintained → Maintained
awake s = record s { took = none }

unfoldable pub pass : Maintained → Round → Maintained
pass s r =
    if r.link_exists
    then in_phase s.phase r.reply r (awake s)
    else record (awake s) { ending = some link_gone }

-- The loop, over the rounds that come; it runs on only while it has not returned.
unfoldable pub maintain_on : Option Ending → Maintained → List Round → Maintained
maintain_on _ s [] = s
maintain_on (some _) s (r ∷ rs) = s
maintain_on none s (r ∷ rs) = maintain_on (pass s r).ending (pass s r) rs

unfoldable pub maintain : Lease → List Round → Maintained
maintain l rs = maintain_on none (started l) rs

abbrev pub is_running : Option Ending → Bool
is_running none = true
is_running (some _) = false

abbrev pub is_check : Option Signal → Bool
is_check (some check_asked) = true
is_check (some timer) = false
is_check (some stop_asked) = false
is_check none = false

-- What a `Check` comes to over the rounds that come: a pass has received from the channel, with the
-- rounds that are left, or none has so far.
pub data Sent : Type 0 where
  received : Maintained → List Round → Sent
  waiting : Maintained → Sent

-- `Check`: the channel has no buffer, so the call returns once the `select` of a pass receives.
unfoldable pub check : List Round → Maintained → Sent
check [] m = waiting m
check (r ∷ rs) m =
    let next = maintain_on m.ending m (r ∷ []) in
    let rest = check rs next in
    if is_running m.ending && is_check next.took then received next rs else rest

pub data NoMask : Type 0 where
  no_mask : NoMask

-- `IPNet`
unfoldable pub ip_net : Lease → Result NoMask IpNet
ip_net l =
    if is_nil l.latest.subnet_mask
    then err no_mask
    else ok (record { ip = l.latest.your_ip; mask = l.latest.subnet_mask })

unfoldable pub gateway_of : List Ip → Ip
gateway_of [] = []
gateway_of (g ∷ _) = g

abbrev pub default_route : IpNet
default_route = record { ip = 0 ∷ 0 ∷ 0 ∷ 0 ∷ []; mask = 0 ∷ 0 ∷ 0 ∷ 0 ∷ [] }

abbrev pub parsed_static : Option (List ℕ) → List Route
parsed_static none = []
parsed_static (some bytes) = parse_routes bytes

abbrev pub via_gateway : Ip → List Route
via_gateway gw = if is_nil gw then [] else record { dst = default_route; gw = gw } ∷ []

-- `Routes`, by the classless routes of the acknowledgement
unfoldable pub routes_by : List Route → Ack → List Route
routes_by (r ∷ rs) ack = r ∷ rs
routes_by [] ack = parsed_static ack.static_routes ++ via_gateway (gateway_of ack.router)

unfoldable pub routes : Lease → List Route
unfolding routes_by
routes l = routes_by l.latest.classless_routes l.latest
