-- ===== src/HostLocal/Samples/Allocation.antt =====
-- The theorems on the allocator of plugins/ipam/host-local at 10.0.0.0/29 and an empty directory.
use containerz_plugin.Common.{◌≡◌, ◌≢◌, [], ◌∷◌, text, refl, arith}
use containerz_plugin.Net.{set_bytes}
use containerz_plugin.HostLocal.Range.Membership.{canonicalize_ip_regular}
use containerz_plugin.HostLocal.RangeSet.{RangeSet}
use containerz_plugin.HostLocal.RangeSet.Disjoint.{Disjoint}
use containerz_plugin.HostLocal.Store.{Store}
use containerz_plugin.HostLocal.Store.Disk.{Disk, disk_store, holds}
use containerz_plugin.HostLocal.Store.Disk.Reservation.{disk_store-IsStore}
use containerz_plugin.HostLocal.Allocator.{IpAllocator, RangeIter, get, get_iter, search_from}
use containerz_plugin.HostLocal.Allocator.Position.{total}
use containerz_plugin.HostLocal.Allocator.Iteration.{bump, Cursor, regular-Denotes}
use containerz_plugin.HostLocal.Allocator.Start.{Ready, resume-Ready}
use containerz_plugin.HostLocal.Allocator.Resume.{Iter, get_iter-Iter}
use containerz_plugin.HostLocal.Allocator.Search.{Searched, search_from-Searched}
use containerz_plugin.HostLocal.Allocator.Get.{AnyAnswer, get_any-AnyAnswer}
use containerz_plugin.HostLocal.Allocator.Requested.{RequestAnswer, get_requested-RequestAnswer}
use containerz_plugin.HostLocal.Samples.{
  host, range29, host-IsRegular, value-host, range29-IsCanonical,
}
use containerz_plugin.HostLocal.Samples.Files.{sample_text, sample_text-IsIpText, empty_disk}

abbrev set29 : RangeSet
set29 = range29 ∷ []

abbrev allocator29 : IpAllocator
allocator29 = record { rangeset = set29; range_id = text "0" }

abbrev store : Store Disk
store = disk_store sample_text

set29-Disjoint : Disjoint set29
set29-Disjoint = (tt, tt)

total29 : total set29 ≡ 6
unfolding set_bytes
total29 = refl

not_empty : set29 ≢ []
not_empty e = cc

get_any-AnyAnswer_example :
    AnyAnswer
      (holds sample_text)
      (λ y b. store.reserve y (text "c1") (text "eth0") b allocator29.range_id)
      set29
      empty_disk
      (store.get_by_id empty_disk (text "c1") (text "eth0"))
      (get store 7 allocator29 empty_disk (text "c1") (text "eth0") [])
get_any-AnyAnswer_example =
    get_any-AnyAnswer store (holds sample_text)
      (disk_store-IsStore sample_text sample_text-IsIpText) 7 allocator29 empty_disk (text "c1")
      (text "eth0") not_empty (range29-IsCanonical, tt) set29-Disjoint (omega (arith, total29))

get_requested-RequestAnswer_example :
    RequestAnswer
      (holds sample_text)
      (λ y b. store.reserve y (text "c1") (text "eth0") b allocator29.range_id)
      set29
      empty_disk
      (host 4)
      (get store 7 allocator29 empty_disk (text "c1") (text "eth0") (host 4))
get_requested-RequestAnswer_example =
    get_requested-RequestAnswer store (holds sample_text)
      (disk_store-IsStore sample_text sample_text-IsIpText) 7 allocator29 empty_disk (text "c1")
      (text "eth0") (host 4) (host 4) refl
      (canonicalize_ip_regular (host 4) (host-IsRegular 4 (omega arith)))
      (host-IsRegular 4 (omega arith)) (range29-IsCanonical, tt)

-- A cursor at the last address of the range.
abbrev at_last : RangeIter
at_last = record { range_idx = 0; cur = host 6; start_ip = [] }

at_last-Cursor : Cursor set29 at_last (host 6) 5
at_last-Cursor = record {
  denotes = regular-Denotes (host 6) (host-IsRegular 6 (omega arith));
  at = (
    (refl, omega (arith, value-host 1, value-host 6), omega (arith, value-host 6)),
    omega (arith, value-host 1, value-host 6),
  );
}

resume-Ready_example : Ready set29 at_last (bump (total set29) 5) (total set29)
resume-Ready_example =
    resume-Ready set29 (range29-IsCanonical, tt) set29-Disjoint at_last (host 6) 5 refl
      at_last-Cursor

get_iter-Iter_example : Iter set29 (get_iter store allocator29 empty_disk)
get_iter-Iter_example =
    get_iter-Iter store (disk_store-IsStore sample_text sample_text-IsIpText) allocator29 empty_disk
      not_empty (range29-IsCanonical, tt) set29-Disjoint

search_from-Searched_example :
    Searched
      (holds sample_text)
      (λ y b. store.reserve y (text "c1") (text "eth0") b allocator29.range_id)
      set29
      empty_disk
      (bump (total set29) 5)
      (total set29)
      (search_from store 7 allocator29 (text "c1") (text "eth0") empty_disk at_last)
search_from-Searched_example =
    search_from-Searched store (holds sample_text)
      (disk_store-IsStore sample_text sample_text-IsIpText) allocator29 (range29-IsCanonical, tt)
      set29-Disjoint (text "c1") (text "eth0") 7 empty_disk at_last (bump (total set29) 5)
      (total set29)
      (resume-Ready set29 (range29-IsCanonical, tt) set29-Disjoint at_last (host 6) 5 refl
        at_last-Cursor)
      (omega (arith, total29))
