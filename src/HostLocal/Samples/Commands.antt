-- ===== src/HostLocal/Samples/Commands.antt =====
-- The theorems on the commands of plugins/ipam/host-local at 10.0.0.0/29, with 10.0.0.4 asked for, and an
-- empty directory.
use containerz_plugin.Common.{◌≡◌, ◌≢◌, false, [], ◌∷◌, ok, Text, text, text_eq, itoa, refl, arith}
use containerz_plugin.Net.{
  net_contains, to4, to16, is_mapped, bytes_eq, mask_ip, mask_bytes, and_bytes, equal, set_bytes,
}
use containerz_plugin.Cidr.{normalize_ip, cmp, order_of}
use containerz_plugin.HostLocal.Range.{canonicalize_ip, contains, contains_canonical}
use containerz_plugin.HostLocal.RangeSet.{find_range, range_for, set_contains}
use containerz_plugin.HostLocal.Store.Disk.{
  Disk, disk_store, holds, key, last_ip_file, reserve, reserve_under, present, write_file,
  find_by_key,
}
use containerz_plugin.HostLocal.Store.Disk.Reservation.{disk_store-IsStore}
use containerz_plugin.HostLocal.Allocator.{config_at, new_ip_allocator, get, get_requested, grant}
use containerz_plugin.HostLocal.Allocator.Position.{total}
use containerz_plugin.HostLocal.Command.{
  requested_ips, take_requested, next_range, add_ranges, cmd_add, cmd_del,
}
use containerz_plugin.HostLocal.Command.Deleted.{cmd_del-find_by_key}
use containerz_plugin.HostLocal.Command.Added.{Added, IsUsable, cmd_add-Added}
use containerz_plugin.HostLocal.Samples.{host, range29, host-IsRegular, range29-IsCanonical}
use containerz_plugin.HostLocal.Samples.Configuration.{loaded29}
use containerz_plugin.HostLocal.Samples.Files.{sample_text, sample_text-IsIpText, empty_disk}

abbrev id : Text
id = text "c1"

abbrev ifname : Text
ifname = text "eth0"

-- The directory when c1 has 10.0.0.4.
abbrev with_file : Disk
with_file = record {
  files =
      record { name = 48 ∷ host 4; content = key id ifname }
      ∷ record { name = last_ip_file (itoa 0); content = 48 ∷ host 4 }
      ∷ [];
  faults = [];
}

added_4 :
    cmd_add (disk_store sample_text) id ifname 7 loaded29 empty_disk
    ≡ (with_file, ok (config_at range29 (host 4) ∷ []))
unfolding cmd_add add_ranges requested_ips take_requested next_range new_ip_allocator get
    get_requested grant reserve reserve_under present write_file text_eq set_contains range_for
    find_range contains contains_canonical canonicalize_ip net_contains to4 to16 is_mapped bytes_eq
    mask_ip mask_bytes and_bytes equal set_bytes normalize_ip cmp order_of itoa
added_4 = refl

total29 : total (range29 ∷ []) ≡ 6
unfolding set_bytes
total29 = refl

usable29 : IsUsable 7 (range29 ∷ [])
usable29 = record {
  not_empty = λ e. cc;
  canonical = (range29-IsCanonical, tt);
  disjoint = (tt, tt);
  enough = omega (arith, total29);
}

cmd_add-Added_example :
    Added
      (holds sample_text)
      ((range29 ∷ []) ∷ [])
      empty_disk
      with_file
      (config_at range29 (host 4) ∷ [])
cmd_add-Added_example =
    cmd_add-Added (disk_store sample_text) (holds sample_text)
      (disk_store-IsStore sample_text sample_text-IsIpText) id ifname 7 loaded29 empty_disk
      with_file (config_at range29 (host 4) ∷ []) (usable29, tt)
      (host-IsRegular 4 (omega arith), tt) added_4

some_ranges : loaded29.ranges ≢ []
some_ranges e = cc

cmd_del-find_by_key_example :
    find_by_key
      (key id ifname)
      (cmd_del (disk_store sample_text) id ifname loaded29 with_file).files
    ≡ false
cmd_del-find_by_key_example =
    cmd_del-find_by_key sample_text id ifname loaded29 with_file some_ranges
