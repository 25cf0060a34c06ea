-- ===== src/HostLocal/Command/Deleted.antt =====
-- What `cmdDel` leaves in the store on disk.
use containerz_plugin.Common.{
  ℕ, ◌+◌, ◌≡◌, ◌≢◌, false, List, [], ◌∷◌, refl, sym, Text, arith, trim_space,
}
use containerz_plugin.HostLocal.RangeSet.{RangeSet}
use containerz_plugin.HostLocal.Store.Disk.{
  IpText, Disk, disk_store, key, find_by_key, release_by_id,
}
use containerz_plugin.HostLocal.Store.Disk.Files.{
  find_by_key-release_by_key, find_by_key-release_by_key_other,
}
use containerz_plugin.HostLocal.Store.Disk.Ownership.{key_apart}
use containerz_plugin.HostLocal.Config.{IpamConfig}
use containerz_plugin.HostLocal.Allocator.{release}
use containerz_plugin.HostLocal.Command.{del_ranges, cmd_del}

key_released :
    (d : Disk) (id ifname : Text)
    → find_by_key (key id ifname) (release_by_id d id ifname).files ≡ false
unfolding release_by_id
key_released d id ifname =
    let k = key id ifname in
    let old = trim_space id in
    ground (
      arith,
      find_by_key-release_by_key k d.files,
      find_by_key-release_by_key_other old k d.files (λ e. key_apart id ifname (sym e)),
    )

module _ (io : IpText) where
  -- Behind one release, further ones leave nothing of the owner's new files.
  del_ranges-key :
      (id ifname : Text) (idx : ℕ) (ss : List RangeSet) (d : Disk)
      → find_by_key (key id ifname) d.files ≡ false
      → find_by_key (key id ifname) (del_ranges (disk_store io) id ifname idx ss d).files ≡ false
  unfolding del_ranges release
  del_ranges-key id ifname idx [] d h = h
  del_ranges-key id ifname idx (s ∷ ss) d h =
      del_ranges-key id ifname (idx + 1) ss (release_by_id d id ifname) (key_released d id ifname)

  some_ranges-key :
      (id ifname : Text) (ss : List RangeSet) (d : Disk)
      → ss ≢ []
      → find_by_key (key id ifname) (del_ranges (disk_store io) id ifname 0 ss d).files ≡ false
  unfolding del_ranges release
  some_ranges-key id ifname [] d h = absurd (h refl)
  some_ranges-key id ifname (s ∷ ss) d h =
      del_ranges-key id ifname 1 ss (release_by_id d id ifname) (key_released d id ifname)

  -- With at least one set, `cmdDel` leaves no file that holds the owner's key.
  pub cmd_del-find_by_key :
      (id ifname : Text) (c : IpamConfig) (d : Disk)
      → c.ranges ≢ []
      → find_by_key (key id ifname) (cmd_del (disk_store io) id ifname c d).files ≡ false
  unfolding cmd_del
  cmd_del-find_by_key id ifname c d ne = some_ranges-key id ifname c.ranges d ne
