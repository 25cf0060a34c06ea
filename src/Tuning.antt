-- ===== src/Tuning.antt =====
-- plugins/meta/tuning/tuning.go: attributes and sysctls of an interface. The operating system is a
-- record of the requests that the code makes, over a state of its own; the JSON encodings, the
-- printing and parsing of hardware addresses, and the joining of paths are parameters.
pub mod Config
pub mod Sysctl
pub mod Faithful
pub mod Kept
pub mod Attempted
pub mod Restored
pub mod Samples
use containerz_plugin.Common.{
  ℕ, Bool, true, false, ◌&&◌, ◌||◌, not, List, [], ◌∷◌, ◌++◌, Option, none, some, ◌==◌,
  if◌then◌else◌, ℤ, pos, negsuc, Result, ok, err, ◌>>◌, guard, ◌then◌, asked, when, with_found,
  given, Text, text, text_eq,
}
use containerz_plugin.Tuning.Config.{
  TuningConf, TuningError, no_link, bad_mac, request_failed, backup_failed, restore_failed,
  bad_sysctl, other_mac, other_promisc, other_mtu, other_allmulti, other_tx_q_len, other_sysctl,
}
use containerz_plugin.Tuning.Sysctl.{get_sysctl_filename}

-- The bytes of a hardware address.
abbrev pub Mac : Type 0
Mac = List ℕ

-- `netlink.LinkAttrs`, the attributes that the code reads.
pub record Attrs : Type 0 where
  pub mac : Mac
  pub promisc : Bool
  pub mtu : ℤ
  pub allmulti : Bool
  pub tx_q_len : ℤ

-- A request to change one attribute.
pub data Change : Type 0 where
  set_mac : Mac → Change
  set_promisc : Bool → Change
  set_mtu : ℤ → Change
  set_allmulti : Bool → Change
  set_tx_q_len : ℤ → Change

-- `configToRestore`
pub record Backup : Type 0 where
  pub mac : Text
  pub promisc : Option Bool
  pub mtu : ℤ
  pub allmulti : Option Bool
  pub tx_q_len : Option ℤ

-- What a path of a backup holds.
pub data Saved : Type 0 where
  absent unreadable garbled : Saved
  holding : Backup → Saved

pub record Host (S : Type 0) : Type 0 where
  pub attrs : S → Text → Option Attrs
  pub change : S → Text → Change → S × Bool
  pub dir_exists : S → Text → Bool
  pub make_dir : S → Text → S × Bool
  pub save : S → Text → Backup → S × Bool
  pub saved : S → Text → Saved
  pub remove : S → Text → S × Bool
  pub write_sysctl : S → Text → Text → S × Bool
  pub read_sysctl : S → Text → Option Text

abbrev pub Outcome : Type 0 → Type 0
Outcome S = S × Result TuningError (Unit {0})

abbrev pub is_zero : ℤ → Bool
is_zero (pos n) = n == 0
is_zero (negsuc n) = false

abbrev pub is_given {ℓ} : {A : Type ℓ} → Option A → Bool
is_given none = false
is_given (some _) = true

abbrev pub eq_ℤ : ℤ → ℤ → Bool
eq_ℤ (pos m) (pos n) = m == n
eq_ℤ (negsuc m) (negsuc n) = m == n
eq_ℤ _ _ = false

abbrev pub eq_Bool : Bool → Bool → Bool
eq_Bool true b = b
eq_Bool false b = not b

-- The value of a field that is saved only where the configuration tunes it.
abbrev pub where_tuned {ℓ κ} : {A : Type ℓ} {B : Type κ} → Option A → B → Option B
where_tuned none b = none
where_tuned (some _) b = some b

-- Whether a value that may be left out is the one that is there.
abbrev pub same : {A : Type 0} → (A → A → Bool) → Option A → A → Bool
same eq none a = true
same eq (some b) a = eq b a

-- Whether any attribute is tuned.
unfoldable pub tunes : TuningConf → Bool
tunes c =
    not (text_eq c.mac [])
    || not (is_zero c.mtu)
    || c.promisc
    || is_given c.allmulti
    || is_given c.tx_q_len

-- A new hardware address in the interfaces of the previous result, by name and address.
unfoldable pub update_results_mac_addr : Text → Text → List (Text × Text) → List (Text × Text)
update_results_mac_addr if_name mac [] = []
update_results_mac_addr if_name mac ((n, m) ∷ is) =
    (n, (if text_eq n if_name then mac else m)) ∷ update_results_mac_addr if_name mac is

module _ (print_mac : Mac → Text) where
  -- What `createBackup` saves of the attributes.
  unfoldable pub backup_of : TuningConf → Attrs → Backup
  backup_of c a = record {
    mac = if text_eq c.mac [] then [] else print_mac a.mac;
    promisc = if c.promisc then some a.promisc else none;
    mtu = if is_zero c.mtu then pos 0 else a.mtu;
    allmulti = where_tuned c.allmulti a.allmulti;
    tx_q_len = where_tuned c.tx_q_len a.tx_q_len;
  }

module _ (join : Text → Text → Text) where
  unfoldable pub backup_path : Text → Text → Text → Text
  backup_path dir container_id if_name =
      join dir (container_id ++ (text "_" ++ (if_name ++ text ".json")))

module _ {S : Type 0} (host : Host S) where
  -- `changePromisc`, `changeMtu`, `changeAllmulti` and `changeTxQLen`, by the change
  unfoldable pub change_attr : Text → Change → S → Outcome S
  change_attr if_name c s =
      with_found no_link (host.attrs s if_name)
        (λ _ s'. asked request_failed (host.change s' if_name c)) s

module _ {S : Type 0} (host : Host S) (parse_mac : Text → Option Mac) where
  unfoldable pub change_mac_addr : Text → Text → S → Outcome S
  change_mac_addr if_name new s =
      with_found bad_mac (parse_mac new) (λ m. change_attr host if_name (set_mac m)) s

  -- An attempt to restore an attribute; the failures are gathered, and do not stop the others.
  abbrev pub gathered : Bool → Outcome S → S × Bool
  gathered bad (s, ok _) = (s, bad)
  gathered bad (s, err _) = (s, true)

  abbrev pub attempt : Option (S → Outcome S) → S × Bool → S × Bool
  attempt none (s, bad) = (s, bad)
  attempt (some f) (s, bad) = gathered bad (f s)

  abbrev pub promisc_of : Text → Option Bool → Option (S → Outcome S)
  promisc_of if_name none = none
  promisc_of if_name (some b) = some (change_attr host if_name (set_promisc b))

  abbrev pub allmulti_of : Text → Option Bool → Option (S → Outcome S)
  allmulti_of if_name none = none
  allmulti_of if_name (some b) = some (change_attr host if_name (set_allmulti b))

  abbrev pub tx_q_len_of : Text → Option ℤ → Option (S → Outcome S)
  tx_q_len_of if_name none = none
  tx_q_len_of if_name (some n) = some (change_attr host if_name (set_tx_q_len n))

  abbrev pub mtu_of : Text → ℤ → Option (S → Outcome S)
  mtu_of if_name n = if is_zero n then none else some (change_attr host if_name (set_mtu n))

  abbrev pub mac_of : Text → Text → Option (S → Outcome S)
  mac_of if_name m = if text_eq m [] then none else some (change_mac_addr if_name m)

  -- The attributes of a backup, in the code's order.
  unfoldable pub restore_attrs : Text → Backup → S → S × Bool
  restore_attrs if_name b s = attempt (tx_q_len_of if_name b.tx_q_len) (
      attempt (allmulti_of if_name b.allmulti) (
        attempt (promisc_of if_name b.promisc)
          (attempt (mac_of if_name b.mac) (attempt (mtu_of if_name b.mtu) (s, false)))))

  -- The file is removed only where all was restored.
  abbrev pub finish : Text → S × Bool → Outcome S
  finish path (s, true) = (s, err restore_failed)
  finish path (s, false) = asked restore_failed (host.remove s path)

  unfoldable pub restore_link : Text → Text → Backup → Option Attrs → S → Outcome S
  restore_link if_name path b none s = (s, ok tt)
  restore_link if_name path b (some _) s = finish path (restore_attrs if_name b s)

  unfoldable pub restore_from : Text → Text → S → Saved → Outcome S
  restore_from if_name path s absent = (s, ok tt)
  restore_from if_name path s unreadable = (s, err restore_failed)
  restore_from if_name path s garbled = (s, ok tt)
  restore_from if_name path s (holding b) = restore_link if_name path b (host.attrs s if_name) s

  -- `restoreBackup`, at the path of the backup
  unfoldable pub restore_backup : Text → Text → S → Outcome S
  restore_backup if_name path s = restore_from if_name path s (host.saved s path)

  unfoldable pub make_backup_dir : Text → S → Outcome S
  make_backup_dir dir s =
      when (not (host.dir_exists s dir)) (λ s'. asked backup_failed (host.make_dir s' dir)) s

  -- The changes of `cmdAdd`, in the code's order.
  unfoldable pub change_all : TuningConf → Text → S → Outcome S
  change_all c if_name s =
      when (not (text_eq c.mac [])) (change_mac_addr if_name c.mac) s
      then when c.promisc (change_attr host if_name (set_promisc true))
      then when (not (is_zero c.mtu)) (change_attr host if_name (set_mtu c.mtu))
      then given c.allmulti (λ b. change_attr host if_name (set_allmulti b))
      then given c.tx_q_len (λ n. change_attr host if_name (set_tx_q_len n))

module _ {S : Type 0} (host : Host S) (parse_mac : Text → Option Mac) (print_mac : Mac → Text)
    (join : Text → Text → Text) where
  unfoldable pub create_backup : TuningConf → Text → Text → S → Outcome S
  create_backup c container_id if_name s =
      with_found no_link (host.attrs s if_name)
        (λ a s'. make_backup_dir host parse_mac c.data_dir s' then (λ t. asked backup_failed (
          host.save t (backup_path join c.data_dir container_id if_name)
            (backup_of print_mac c a))))
        s

  unfoldable pub write_sysctls : Text → List (Text × Text) → S → Outcome S
  write_sysctls if_name [] s = (s, ok tt)
  write_sysctls if_name ((k, v) ∷ kvs) s =
      with_found bad_sysctl (get_sysctl_filename join k if_name)
        (λ f s'. asked request_failed (host.write_sysctl s' f v)) s
      then write_sysctls if_name kvs

  -- The part of `cmdAdd` in the namespace of the container.
  unfoldable pub cmd_add : TuningConf → Text → Text → S → Outcome S
  cmd_add c container_id if_name s =
      write_sysctls if_name c.sysctls s
      then when (tunes c) (create_backup c container_id if_name)
      then change_all host parse_mac c if_name

  -- The part of `cmdDel` in the namespace; its error is passed over.
  unfoldable pub cmd_del : Text → Text → Text → S → S
  cmd_del dir container_id if_name s =
      (restore_backup host parse_mac if_name (backup_path join dir container_id if_name) s).0

  abbrev pub trim_newline : Text → Text
  trim_newline [] = []
  trim_newline (c ∷ []) = if c == 10 then [] else c ∷ []
  trim_newline (c ∷ d ∷ t) = c ∷ trim_newline (d ∷ t)

  abbrev pub agrees : Text → Option Text → Result TuningError (Unit {0})
  agrees v none = err request_failed
  agrees v (some w) = guard (text_eq v (trim_newline w)) other_sysctl

  abbrev pub sysctl_at : Option Text → Text → S → Result TuningError (Unit {0})
  sysctl_at none v s = err bad_sysctl
  sysctl_at (some f) v s = agrees v (host.read_sysctl s f)

  unfoldable pub check_sysctls : Text → List (Text × Text) → S → Result TuningError (Unit {0})
  check_sysctls if_name [] s = ok tt
  check_sysctls if_name ((k, v) ∷ kvs) s =
      sysctl_at (get_sysctl_filename join k if_name) v s >> check_sysctls if_name kvs s

  unfoldable pub check_attrs : TuningConf → Attrs → Result TuningError (Unit {0})
  check_attrs c a = do
    guard (text_eq c.mac [] || text_eq c.mac (print_mac a.mac)) other_mac
    guard (eq_Bool c.promisc a.promisc) other_promisc
    guard (is_zero c.mtu || eq_ℤ c.mtu a.mtu) other_mtu
    guard (same eq_Bool c.allmulti a.allmulti) other_allmulti
    guard (same eq_ℤ c.tx_q_len a.tx_q_len) other_tx_q_len

  abbrev pub check_found : TuningConf → Option Attrs → Result TuningError (Unit {0})
  check_found c none = err no_link
  check_found c (some a) = check_attrs c a

  -- The part of `cmdCheck` in the namespace.
  unfoldable pub cmd_check : TuningConf → Text → S → Result TuningError (Unit {0})
  cmd_check c if_name s = check_sysctls if_name c.sysctls s >> check_found c (host.attrs s if_name)
