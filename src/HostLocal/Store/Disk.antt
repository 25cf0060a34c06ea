-- ===== src/HostLocal/Store/Disk.antt =====
-- plugins/ipam/host-local/backend/disk/backend.go: a store of one file per address in a directory,
-- on Linux. The directory is the list of its files, in no particular order; the file of the lock is
-- one of them. A list of faults says which of the next calls that create a file fail, and where.
-- Reading and removing a file that is there does not fail. `net.IP.String` and `net.ParseIP` are a
-- parameter.
pub mod Files
pub mod Reservation
pub mod Ownership
use containerz_plugin.Common.{
  ℕ, ◌≡◌, ◌≢◌, Bool, true, false, ◌&&◌, ◌||◌, not, List, [], ◌∷◌, ◌++◌, Option, none, some, Result,
  ok, err, Text, text, text_eq, trim_space, if◌then◌else◌, drop,
}
use containerz_plugin.Net.{Ip, is_nil}
use containerz_plugin.Net.Values.{IsBytes}
use containerz_plugin.Net.Regular.{IsRegular}
use containerz_plugin.HostLocal.Store.{
  Store, StoreError, not_exist, open_failed, write_failed, close_failed, last_file_failed,
}

-- `net.IP.String`, and `net.ParseIP` with the empty address for nil
pub record IpText : Type 0 where
  pub print : Ip → Text
  pub parse : Text → Ip

abbrev pub last_ip_file_prefix : Text
last_ip_file_prefix = text "last_reserved_ip."

abbrev pub line_break : Text
line_break = 13 ∷ 10 ∷ []

abbrev pub last_ip_file : Text → Text
last_ip_file range_id = last_ip_file_prefix ++ range_id

pub record File : Type 0 where
  pub name : Text
  pub content : Text

-- Where the next creation of a file fails.
pub data Fault : Type 0 where
  no_fault open_fails write_fails close_fails last_file_fails : Fault

pub record Disk : Type 0 where
  pub files : List File
  pub faults : List Fault

unfoldable pub present : Text → List File → Bool
present n [] = false
present n (f ∷ fs) = text_eq f.name n || present n fs

unfoldable pub read_file : Text → List File → Option Text
read_file n [] = none
read_file n (f ∷ fs) = if text_eq f.name n then some f.content else read_file n fs

-- Create the file, or replace what it holds.
unfoldable pub write_file : Text → Text → List File → List File
write_file n c [] = record { name = n; content = c } ∷ []
write_file n c (f ∷ fs) =
    if text_eq f.name n then record { name = n; content = c } ∷ fs else f ∷ write_file n c fs

unfoldable pub remove_file : Text → List File → List File
remove_file n [] = []
remove_file n (f ∷ fs) = if text_eq f.name n then fs else f ∷ remove_file n fs

abbrev pub next_fault : List Fault → Fault
next_fault [] = no_fault
next_fault (f ∷ _) = f

-- What `Reserve` writes for an owner.
abbrev pub key : Text → Text → Text
key id ifname = trim_space id ++ line_break ++ ifname

-- `Reserve`, by the fault that it meets and by whether the file is there.
unfoldable pub reserve_under :
    Fault → Bool → Disk → Text → Text → Text → Disk × Result StoreError Bool
reserve_under open_fails there d name content last =
    (record d { faults = drop 1 d.faults }, err open_failed)
reserve_under no_fault true d name content last = (d, ok false)
reserve_under write_fails true d name content last = (d, ok false)
reserve_under close_fails true d name content last = (d, ok false)
reserve_under last_file_fails true d name content last = (d, ok false)
reserve_under write_fails false d name content last = (
  record { files = remove_file name (write_file name [] d.files); faults = drop 1 d.faults },
  err write_failed,
)
reserve_under close_fails false d name content last = (
  record { files = remove_file name (write_file name content d.files); faults = drop 1 d.faults },
  err close_failed,
)
reserve_under last_file_fails false d name content last = (
  record { files = write_file name content d.files; faults = drop 1 d.faults },
  err last_file_failed,
)
reserve_under no_fault false d name content last = (
  record {
    files = write_file last name (write_file name content d.files);
    faults = drop 1 d.faults;
  },
  ok true,
)

unfoldable pub find_by_key : Text → List File → Bool
find_by_key match_key [] = false
find_by_key match_key (f ∷ fs) =
    text_eq (trim_space f.content) match_key || find_by_key match_key fs

unfoldable pub find_by_id : Disk → Text → Text → Bool
find_by_id d id ifname = find_by_key (key id ifname) d.files || find_by_key (trim_space id) d.files

-- The files that `ReleaseByKey` leaves.
unfoldable pub release_by_key : Text → List File → List File
release_by_key match_key [] = []
release_by_key match_key (f ∷ fs) =
    let rest = release_by_key match_key fs in
    if text_eq (trim_space f.content) match_key then rest else f ∷ rest

unfoldable pub release_by_id : Disk → Text → Text → Disk
release_by_id d id ifname =
    if find_by_key (key id ifname) d.files
    then record d { files = release_by_key (key id ifname) d.files }
    else record d { files = release_by_key (trim_space id) d.files }

module _ (io : IpText) where
  unfoldable pub reserve : Disk → Text → Text → Ip → Text → Disk × Result StoreError Bool
  reserve d id ifname a range_id =
      reserve_under (next_fault d.faults) (present (io.print a) d.files) d (io.print a)
        (key id ifname) (last_ip_file range_id)

  unfoldable pub last_reserved_ip : Disk → Text → Result StoreError Ip
  last_reserved_ip d range_id = elim (read_file (last_ip_file range_id) d.files) [
    | none ↦ err not_exist
    | some t ↦ ok (io.parse t)
  ]

  unfoldable pub owned : Text → Text → List File → List Ip
  owned match_key match_old [] = []
  owned match_key match_old (f ∷ fs) =
      let rest = owned match_key match_old fs in
      if (text_eq (trim_space f.content) match_key || text_eq (trim_space f.content) match_old)
        && not (is_nil (io.parse f.name))
      then io.parse f.name ∷ rest
      else rest

  unfoldable pub get_by_id : Disk → Text → Text → List Ip
  get_by_id d id ifname = owned (key id ifname) (trim_space id) d.files

  abbrev pub disk_store : Store Disk
  disk_store = record {
    reserve = reserve;
    last_reserved_ip = last_reserved_ip;
    release_by_id = release_by_id;
    get_by_id = get_by_id;
  }

  -- A file is there under the address's name.
  unfoldable pub holds : Disk → Ip → Bool
  holds d a = present (io.print a) d.files

-- What the store relies on of the addresses' text: standard addresses have different texts, none of
-- which is the name of a file of last addresses, and what is parsed is bytes.
pub record IsIpText (io : IpText) : Type 0 where
  pub print_injective : (a b : Ip) → IsRegular a → IsRegular b → io.print a ≡ io.print b → a ≡ b
  pub not_last : (a : Ip) (range_id : Text) → IsRegular a → io.print a ≢ last_ip_file range_id
  pub parse_bytes : (t : Text) → IsBytes (io.parse t)
