-- ===== src/HostLocal/Samples/Files.antt =====
-- The theorems on the store of plugins/ipam/host-local/backend/disk at an empty directory.
use containerz_plugin.Common.{
  ℕ, ◌≡◌, ◌≢◌, Bool, true, false, ◌&&◌, List, [], ◌∷◌, ok, Text, text, text_eq, text_eq_iff,
  trim_space, is_space, is_space2, is_space3, space_width, space_width_back, trim_by, reverse_onto,
  refl, arith, ltb, if◌then◌else◌, Bool-cases, inl, inr,
}
use containerz_plugin.Net.{Ip}
use containerz_plugin.Net.Values.{IsBytes}
use containerz_plugin.HostLocal.Store.{IsStore}
use containerz_plugin.HostLocal.Store.Disk.{
  IpText, IsIpText, Disk, reserve, reserve_under, present, write_file, find_by_key, find_by_id,
  release_by_id, key, last_ip_file, holds, disk_store,
}
use containerz_plugin.HostLocal.Store.Disk.Reservation.{disk_store-IsStore}
use containerz_plugin.HostLocal.Store.Disk.Ownership.{
  find_by_id-release_by_id, reserve-release_by_id,
}
use containerz_plugin.HostLocal.Samples.{host, host-IsRegular}

abbrev all_bytes : List ℕ → Bool
all_bytes [] = true
all_bytes (c ∷ cs) = let rest = all_bytes cs in ltb c 256 && rest

-- A text of an address for tests: its bytes behind the digit 0.
abbrev pub sample_text : IpText
sample_text = record { print = λ a. 48 ∷ a; parse = behind_digit }
  where
    behind_digit : Text → Ip
    behind_digit [] = []
    behind_digit (c ∷ cs) = if all_bytes cs then cs else []

all_bytes-IsBytes : (t : List ℕ) → all_bytes t ≡ true → IsBytes t
all_bytes-IsBytes [] h = tt
all_bytes-IsBytes (c ∷ cs) h = (ground arith, all_bytes-IsBytes cs (ground arith))

bytes_behind : (t : Text) → IsBytes (sample_text.parse t)
bytes_behind [] = tt
bytes_behind (c ∷ cs) = elim (Bool-cases (all_bytes cs)) [
  | inl h ↦ rw h (all_bytes-IsBytes cs h)
  | inr h ↦ rw h tt
]

pub sample_text-IsIpText : IsIpText sample_text
sample_text-IsIpText = record {
  print_injective = λ a b _ _ e. cc;
  not_last = λ a range_id _ e. cc;
  parse_bytes = bytes_behind;
}

abbrev pub empty_disk : Disk
empty_disk = record { files = []; faults = [] }

disk_store-IsStore_example : IsStore (disk_store sample_text) (holds sample_text)
disk_store-IsStore_example = disk_store-IsStore sample_text sample_text-IsIpText

abbrev id : Text
id = text "c1"

abbrev ifname : Text
ifname = text "eth0"

abbrev other : Text
other = text "c2"

-- The directory when c1 has 10.0.0.3.
abbrev one_file : Disk
one_file = record {
  files =
      record { name = 48 ∷ host 3; content = key id ifname }
      ∷ record { name = last_ip_file (text "0"); content = 48 ∷ host 3 }
      ∷ [];
  faults = [];
}

reserved : reserve sample_text empty_disk id ifname (host 3) (text "0") ≡ (one_file, ok true)
unfolding reserve reserve_under present write_file text_eq
reserved = refl

no_space : trim_space (key id ifname) ≡ key id ifname
unfolding trim_space is_space is_space2 is_space3 space_width space_width_back trim_by reverse_onto
no_space = refl

reserve-release_by_id_example :
    (holds sample_text one_file (host 3) ≡ true)
    × (find_by_id one_file id ifname ≡ true)
    × (holds sample_text (release_by_id one_file id ifname) (host 3) ≡ false)
reserve-release_by_id_example =
    reserve-release_by_id sample_text sample_text-IsIpText empty_disk one_file id ifname (host 3)
      (text "0") (host-IsRegular 3 (omega arith)) no_space reserved

find_by_id-release_by_id_example :
    find_by_id (release_by_id one_file id ifname) id ifname
    ≡ find_by_key (key id ifname) one_file.files && find_by_key (trim_space id) one_file.files
find_by_id-release_by_id_example = find_by_id-release_by_id one_file id ifname

told_apart : (a b : Text) → text_eq a b ≡ false → a ≢ b
told_apart a b h e = let t = (text_eq_iff a b).1 e in cc

other-key : text_eq other (key id ifname) ≡ false
unfolding trim_space is_space is_space2 is_space3 space_width space_width_back trim_by reverse_onto
    text_eq
other-key = refl

other_kept_old : text_eq other (trim_space id) ≡ false
unfolding trim_space is_space is_space2 is_space3 space_width space_width_back trim_by reverse_onto
    text_eq
other_kept_old = refl
