-- ===== src/Tuning/Config.antt =====
-- plugins/meta/tuning/tuning.go: the configuration behind the JSON decoding, and its validation. The
-- reading of CNI_ARGS and the matching of regular expressions are parameters. A Go map is a list of
-- keys and values in some order; a map of the configuration may be nil.
use containerz_plugin.Common.{
  Bool, true, false, ◌||◌, not, List, [], ◌∷◌, Option, none, some, if◌then◌else◌, ◌==◌, ℤ, Result,
  ok, err, ◌>>=◌, ◌>>◌, guard, Text, text, text_eq, trim_space, split_on,
}

-- `IPAMArgs`
pub record IpamArgs : Type 0 where
  pub sys_ctl : Option (List (Text × Text))
  pub mac : Option Text
  pub promisc : Option Bool
  pub mtu : Option ℤ
  pub allmulti : Option Bool
  pub tx_q_len : Option ℤ

-- What the JSON gives; the sysctls are its pairs, and may have a key twice.
pub record RawConf : Type 0 where
  pub data_dir : Text
  pub sys_ctl : Option (List (Text × Text))
  pub mac : Text
  pub promisc : Bool
  pub mtu : ℤ
  pub tx_q_len : Option ℤ
  pub allmulti : Option Bool
  pub runtime_mac : Text
  pub args : Option IpamArgs

-- `TuningConf`
pub record TuningConf : Type 0 where
  pub data_dir : Text
  pub sysctls : List (Text × Text)
  pub mac : Text
  pub promisc : Bool
  pub mtu : ℤ
  pub tx_q_len : Option ℤ
  pub allmulti : Option Bool

pub data TuningError : Type 0 where
  bad_args nil_map_panicked duplicated not_allowed bad_pattern unreadable_list bad_if_name :
      TuningError
  no_link bad_mac bad_sysctl request_failed backup_failed restore_failed : TuningError
  other_mac other_promisc other_mtu other_allmulti other_tx_q_len other_sysctl : TuningError

abbrev pub default_data_dir : Text
default_data_dir = text "/run/cni/tuning"

-- A map with the value of one key set.
unfoldable pub put : Text → Text → List (Text × Text) → List (Text × Text)
put k v [] = (k, v) ∷ []
put k v ((j, w) ∷ m) = if text_eq j k then (k, v) ∷ m else (j, w) ∷ put k v m

unfoldable pub put_all : List (Text × Text) → List (Text × Text) → List (Text × Text)
put_all [] m = m
put_all ((k, v) ∷ kvs) m = put_all kvs (put k v m)

abbrev pub value_or {ℓ} : {A : Type ℓ} → A → Option A → A
value_or a none = a
value_or a (some b) = b

abbrev pub first_of {ℓ} : {A : Type ℓ} → Option A → Option A → Option A
first_of none b = b
first_of (some a) b = some a

-- The sysctls of the arguments are written into the map; a write into a nil map panics.
unfoldable pub merged :
    Option (List (Text × Text))
    → Option (List (Text × Text))
    → Result TuningError (Option (List (Text × Text)))
merged none m = ok m
merged (some []) m = ok m
merged (some (kv ∷ kvs)) none = err nil_map_panicked
merged (some (kv ∷ kvs)) (some m) = ok (some (put_all (kv ∷ kvs) m))

-- A text that is not empty comes before the one so far.
abbrev pub unless_empty : Text → Text → Text
unless_empty [] mac = mac
unless_empty (c ∷ cs) mac = c ∷ cs

abbrev pub mac_given : Option Text → Text → Result TuningError Text
mac_given none mac = err bad_args
mac_given (some m) mac = ok (unless_empty m mac)

module _ (load_args : Text → Option Text) where
  -- The address of CNI_ARGS, where there are any.
  unfoldable pub env_mac : Text → Text → Result TuningError Text
  env_mac [] mac = ok mac
  env_mac (c ∷ cs) mac = mac_given (load_args (c ∷ cs)) mac

  -- The configuration with the arguments on top.
  unfoldable pub with_args : Option IpamArgs → RawConf → Text → Result TuningError TuningConf
  with_args none r mac = ok (record {
    data_dir = unless_empty r.data_dir default_data_dir;
    sysctls = value_or [] r.sys_ctl;
    mac = mac;
    promisc = r.promisc;
    mtu = r.mtu;
    tx_q_len = r.tx_q_len;
    allmulti = r.allmulti;
  })
  with_args (some a) r mac = do
    m ← merged a.sys_ctl r.sys_ctl
    ok (record {
      data_dir = unless_empty r.data_dir default_data_dir;
      sysctls = value_or [] m;
      mac = value_or mac a.mac;
      promisc = value_or r.promisc a.promisc;
      mtu = value_or r.mtu a.mtu;
      tx_q_len = first_of a.tx_q_len r.tx_q_len;
      allmulti = first_of a.allmulti r.allmulti;
    })

  -- `parseConf`
  unfoldable pub parse_conf : Text → RawConf → Result TuningError TuningConf
  parse_conf env_args r = do
    mac ← env_mac env_args r.mac
    with_args r.args r (unless_empty r.runtime_mac mac)

-- `validateSysctlConflictingKeys`
abbrev pub has_key : Text → List (Text × Text) → Bool
has_key k [] = false
has_key k ((j, v) ∷ m) = text_eq j k || has_key k m

unfoldable pub duplicates : List (Text × Text) → Bool
duplicates [] = false
duplicates ((k, v) ∷ m) = has_key k m || duplicates m

-- The lines of the allowlist that are not empty.
unfoldable pub allow_lines : List Text → List Text
allow_lines [] = []
allow_lines (l ∷ ls) =
    let rest = allow_lines ls in let t = trim_space l in if text_eq t [] then rest else t ∷ rest

module _ (match_string : Text → Text → Option Bool) where
  abbrev pub or_else : Option Bool → Result TuningError Bool → Result TuningError Bool
  or_else none rest = err bad_pattern
  or_else (some true) rest = ok true
  or_else (some false) rest = rest

  -- `contains`
  unfoldable pub contains : Text → List Text → Result TuningError Bool
  contains sysctl [] = ok false
  contains sysctl (p ∷ ps) = let rest = contains sysctl ps in or_else (match_string p sysctl) rest

  unfoldable pub all_allowed : List Text → List (Text × Text) → Result TuningError (Unit {0})
  all_allowed ps [] = ok tt
  all_allowed ps ((k, v) ∷ m) = do found ← contains k ps; guard found not_allowed; all_allowed ps m

  -- `validateSysctlConf`, by the allowlist file, if it is there and can be read
  unfoldable pub validate_sysctl_conf :
      Result (Unit {0}) (Option Text) → TuningConf → Result TuningError (Unit {0})
  validate_sysctl_conf (err _) c = err unreadable_list
  validate_sysctl_conf (ok none) c = ok tt
  validate_sysctl_conf (ok (some file)) c = all_allowed (allow_lines (split_on 10 file)) c.sysctls

-- `validateArgs`
abbrev pub has_slash : Text → Bool
has_slash [] = false
has_slash (c ∷ cs) = c == 47 || has_slash cs

unfoldable pub validate_args : Text → Result TuningError (Unit {0})
validate_args if_name = guard (not (has_slash if_name)) bad_if_name

-- The part of `cmdAdd` before the namespace is entered.
unfoldable pub accepted :
    (Text → Option Text)
    → (Text → Text → Option Bool)
    → Result (Unit {0}) (Option Text)
    → Text
    → Text
    → RawConf
    → Result TuningError TuningConf
accepted load_args match_string allowlist env_args if_name r = do
  guard (not (duplicates (value_or [] r.sys_ctl))) duplicated
  c ← parse_conf load_args env_args r
  validate_sysctl_conf match_string allowlist c
  validate_args if_name
  ok c
