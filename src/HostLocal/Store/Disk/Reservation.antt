-- ===== src/HostLocal/Store/Disk/Reservation.antt =====
-- The disk store keeps the contract that the allocator relies on.
use containerz_plugin.Common.{
  ◌≡◌, ◌≢◌, Bool, true, false, List, refl, sym, subst, ◌∙◌, Text, Result, ok, err, some, none,
  Option,
}
use containerz_plugin.Net.{Ip}
use containerz_plugin.Net.Values.{IsBytes}
use containerz_plugin.Net.Regular.{IsRegular}
use containerz_plugin.HostLocal.Store.{
  StoreError, not_exist, IsStore, Reserved, fresh, refused, failed, open_failed, write_failed,
  close_failed, last_file_failed,
}
use containerz_plugin.HostLocal.Store.Disk.{
  IpText, IsIpText, Disk, Fault, no_fault, open_fails, write_fails, close_fails, last_file_fails,
  File, present, read_file, write_file, reserve_under, reserve, last_reserved_ip, last_ip_file, key,
  holds, next_fault, disk_store,
}
use containerz_plugin.HostLocal.Store.Disk.Files.{
  present-write_file, present-write_file_other, remove_file-write_file,
}

-- What was there before two files are written still is, and other names are as before.
keeps_both :
    (n l m c c' : Text) (fs : List File)
    → m ≢ n
    → m ≢ l
    → present m (write_file l c' (write_file n c fs)) ≡ present m fs
keeps_both n l m c c' fs h k =
    present-write_file_other l m c' (write_file n c fs) k ∙ present-write_file_other n m c fs h

present_monotone :
    (n m c : Text) (fs : List File)
    → present n fs ≡ false
    → present m fs ≡ true
    → present m (write_file n c fs) ≡ true
present_monotone n m c fs h k =
    present-write_file_other n m c fs
      (λ e. true_not_false (sym (subst (λ t. present t fs ≡ true) e k) ∙ h))
    ∙ k
  where
    true_not_false : (true ≡ false) → ⊥
    true_not_false e = cc

module _ (io : IpText) (laws : IsIpText io) where
  reserve_under-Reserved :
      (f : Fault) (there : Bool) (d : Disk) (a : Ip) (content range_id : Text)
      → IsRegular a
      → holds io d a ≡ there
      → Reserved
          (holds io)
          d
          (reserve_under f there d (io.print a) content (last_ip_file range_id)).0
          a
          (reserve_under f there d (io.print a) content (last_ip_file range_id)).1
  unfolding reserve_under holds
  reserve_under-Reserved open_fails there d a content range_id ra h =
      failed open_failed (λ b _ k. k)
  reserve_under-Reserved no_fault true d a content range_id ra h = refused h refl
  reserve_under-Reserved write_fails true d a content range_id ra h = refused h refl
  reserve_under-Reserved close_fails true d a content range_id ra h = refused h refl
  reserve_under-Reserved last_file_fails true d a content range_id ra h = refused h refl
  reserve_under-Reserved write_fails false d a content range_id ra h =
      failed write_failed (λ b _ k. rw (remove_file-write_file (io.print a) _ d.files h) k)
  reserve_under-Reserved close_fails false d a content range_id ra h =
      failed close_failed (λ b _ k. rw (remove_file-write_file (io.print a) content d.files h) k)
  reserve_under-Reserved last_file_fails false d a content range_id ra h =
      failed last_file_failed
        (λ b _ k. present_monotone (io.print a) (io.print b) content d.files h k)
  reserve_under-Reserved no_fault false d a content range_id ra h =
      fresh h
        (present-write_file_other (last_ip_file range_id) (io.print a) (io.print a) _
            (laws.not_last a range_id ra)
          ∙ present-write_file (io.print a) content d.files)
        (λ b rb ne.
          keeps_both (io.print a) (last_ip_file range_id) (io.print b) content (io.print a) d.files
            (λ e. ne (laws.print_injective b a rb ra e)) (laws.not_last b range_id rb))

  last_bytes_lem :
      (d : Disk) (range_id : Text) (a : Ip) → last_reserved_ip io d range_id ≡ ok a → IsBytes a
  unfolding last_reserved_ip
  last_bytes_lem d range_id a h = parsed (read_file (last_ip_file range_id) d.files) h
    where
      parsed :
          (t : Option Text)
          → elim t as (λ _. Result StoreError Ip) [
            | none ↦ err not_exist
            | some u ↦ ok (io.parse u)
          ]
            ≡ ok a
          → IsBytes a
      parsed none e = cc
      parsed (some u) e = let same : io.parse u ≡ a = cc in subst IsBytes same (laws.parse_bytes u)

  -- The store on disk keeps the contract of a store, whatever faults the directory shows: `Reserve`
  -- answers true only for an address that had no file and has one now, answers false only for one
  -- that has a file, and frees nothing when it fails; the last address is bytes.
  pub disk_store-IsStore : IsStore (disk_store io) (holds io)
  unfolding reserve holds
  disk_store-IsStore = record {
    reserves = λ d id ifname a range_id ra.
        reserve_under-Reserved (next_fault d.faults) (holds io d a) d a (key id ifname) range_id ra
          refl;
    last_bytes = last_bytes_lem;
  }
