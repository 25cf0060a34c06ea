-- ===== src/HostLocal/Command.antt =====
-- plugins/ipam/host-local/main.go: the commands, behind the loading of the configuration and the
-- opening of the store. The Go map of requested addresses is a list, in the order that the loop over
-- it happens to take. The reading of resolv.conf and the printing of the result are left out.
pub mod Added
pub mod Deleted
use containerz_plugin.Common.{
  ℕ, ◌+◌, Bool, true, false, ◌||◌, List, [], ◌∷◌, ◌++◌, if◌then◌else◌, Result, ok, err, Text,
}
use containerz_plugin.Net.{Ip, bytes_eq}
use containerz_plugin.HostLocal.RangeSet.{RangeSet, set_contains}
use containerz_plugin.HostLocal.Store.{Store}
use containerz_plugin.HostLocal.Store.Disk.{Disk, find_by_id}
use containerz_plugin.HostLocal.Config.{IpamConfig}
use containerz_plugin.HostLocal.Allocator.{
  IpAllocator, IpConfig, GetError, new_ip_allocator, get, release,
}

pub data AddError : Type 0 where
  range_failed : ℕ → GetError → AddError
  unfulfilled : List Ip → AddError

abbrev pub listed : Ip → List Ip → Bool
listed a [] = false
listed a (b ∷ bs) = bytes_eq a b || listed a bs

-- `requestedIPs`: one entry for each address.
unfoldable pub requested_ips : List Ip → List Ip
requested_ips [] = []
requested_ips (a ∷ as') = let rest = requested_ips as' in if listed a rest then rest else a ∷ rest

-- The first requested address that the set contains, nil for none, and the others.
unfoldable pub take_requested : RangeSet → List Ip → Ip × List Ip
take_requested s [] = ([], [])
take_requested s (a ∷ as') =
    let (b, rest) = take_requested s as' in if set_contains s a then (a, as') else (b, a ∷ rest)

unfoldable pub cmd_check : Disk → Text → Text → Bool
cmd_check d id ifname = find_by_id d id ifname

module _ {S : Type 0} (st : Store S) (id ifname : Text) where
  -- The release of all that was allocated so far.
  unfoldable pub deallocate : List IpAllocator → S → S
  deallocate [] x = x
  deallocate (a ∷ as') x = deallocate as' (release st a x id ifname)

  -- The end of one round: go on with the next set, or give up.
  unfoldable pub next_range :
      (IpConfig → S → S × Result AddError (List IpConfig))
      → ℕ
      → List IpAllocator
      → S × Result GetError IpConfig
      → S × Result AddError (List IpConfig)
  next_range again idx allocs (x, ok c) = again c x
  next_range again idx allocs (x, err e) = (deallocate allocs x, err (range_failed idx e))

  -- The loop of `cmdAdd` over the sets, with the addresses allocated so far.
  unfoldable pub add_ranges :
      ℕ
      → ℕ
      → List RangeSet
      → List Ip
      → List IpAllocator
      → List IpConfig
      → S
      → S × Result AddError (List IpConfig)
  add_ranges fuel idx [] [] allocs ips x = (x, ok ips)
  add_ranges fuel idx [] (a ∷ as') allocs ips x = (deallocate allocs x, err (unfulfilled (a ∷ as')))
  add_ranges fuel idx (s ∷ ss) requested allocs ips x =
      let al = new_ip_allocator s idx in
      let (want, rest) = take_requested s requested in
      next_range (λ c x'. add_ranges fuel (idx + 1) ss rest (allocs ++ al ∷ []) (ips ++ c ∷ []) x')
        idx allocs (get st fuel al x id ifname want)

  unfoldable pub cmd_add : ℕ → IpamConfig → S → S × Result AddError (List IpConfig)
  cmd_add fuel c x = add_ranges fuel 0 c.ranges (requested_ips c.ip_args) [] [] x

  -- `cmdDel`: a release for each set.
  unfoldable pub del_ranges : ℕ → List RangeSet → S → S
  del_ranges idx [] x = x
  del_ranges idx (s ∷ ss) x =
      del_ranges (idx + 1) ss (release st (new_ip_allocator s idx) x id ifname)

  unfoldable pub cmd_del : IpamConfig → S → S
  cmd_del c x = del_ranges 0 c.ranges x
