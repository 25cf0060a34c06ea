-- ===== src/Tuning/Faithful.antt =====
-- What the system does with the requests of the tuning plugin, and what its configuration tunes.
use containerz_plugin.Common.{
  ℕ, ◌⊎◌, All, length, ◌≤◌, ◌≡◌, refl, Bool, true, false, [], Option, none, some, ok, err, Text,
  text_eq, arith,
}
use containerz_plugin.Tuning.Config.{TuningConf, restore_failed}
use containerz_plugin.Tuning.{
  Mac, Attrs, Change, set_mac, set_promisc, set_mtu, set_allmulti, set_tx_q_len, Backup, absent,
  garbled, holding, Host, Outcome, is_zero, is_given,
}

-- The attributes behind a change.
abbrev pub changed : Change → Attrs → Attrs
changed (set_mac m) a = record a { mac = m }
changed (set_promisc b) a = record a { promisc = b }
changed (set_mtu n) a = record a { mtu = n }
changed (set_allmulti b) a = record a { allmulti = b }
changed (set_tx_q_len n) a = record a { tx_q_len = n }

module _ {S : Type 0} (host : Host S) where
  -- The attributes of an interface, and what a path holds, are the same.
  pub record Untouched (if_name path : Text) (s s' : S) : Type 0 where
    pub attrs : host.attrs s' if_name ≡ host.attrs s if_name
    pub saved : host.saved s' path ≡ host.saved s path

  -- A request to change an attribute is met, or changes nothing.
  pub data Answers (if_name path : Text) (c : Change) (s : S) : S × Bool → Type 0 where
    met :
        {s' : S}
        → ((a : Attrs) → host.attrs s if_name ≡ some a → host.attrs s' if_name ≡ some (changed c a))
        → host.saved s' path ≡ host.saved s path
        → Answers if_name path c s (s', true)
    refused : {s' : S} → Untouched if_name path s s' → Answers if_name path c s (s', false)

  -- A file is written as a whole, or is not there, or holds no JSON.
  pub data Saves (if_name path : Text) (b : Backup) (s : S) : S × Bool → Type 0 where
    written :
        {s' : S}
        → host.attrs s' if_name ≡ host.attrs s if_name
        → host.saved s' path ≡ holding b
        → Saves if_name path b s (s', true)
    missing :
        {s' : S}
        → host.attrs s' if_name ≡ host.attrs s if_name
        → host.saved s' path ≡ absent
        → Saves if_name path b s (s', false)
    broken :
        {s' : S}
        → host.attrs s' if_name ≡ host.attrs s if_name
        → host.saved s' path ≡ garbled
        → Saves if_name path b s (s', false)

  pub data Removes (if_name path : Text) (s : S) : S × Bool → Type 0 where
    removed :
        {s' : S}
        → host.attrs s' if_name ≡ host.attrs s if_name
        → host.saved s' path ≡ absent
        → Removes if_name path s (s', true)
    kept : {s' : S} → Untouched if_name path s s' → Removes if_name path s (s', false)

  -- What the system does with the requests: each changes what it is for and nothing else, or fails.
  pub record IsFaithful : Type 0 where
    pub changes : (i p : Text) (c : Change) (s : S) → Answers i p c s (host.change s i c)
    pub makes : (i p dir : Text) (s : S) → Untouched i p s (host.make_dir s dir).0
    pub saves : (i p : Text) (b : Backup) (s : S) → Saves i p b s (host.save s p b)
    pub removes : (i p : Text) (s : S) → Removes i p s (host.remove s p)
    pub writes : (i p f v : Text) (s : S) → Untouched i p s (host.write_sysctl s f v).0

  Untouched-refl : (i p : Text) (s : S) → Untouched i p s s
  Untouched-refl i p s = record { attrs = refl; saved = refl }

module _ {S : Type 0} (host : Host S) (i p : Text) (a : Attrs) where
  -- The restoration has put the attributes back; or it answers that it failed, and the path holds
  -- what it held, for another attempt.
  pub data Restores (s : S) : Outcome S → Type 0 where
    back : {s' : S} → host.attrs s' i ≡ some a → Restores s (s', ok tt)
    again : {s' : S} → host.saved s' p ≡ host.saved s p → Restores s (s', err restore_failed)

-- The bytes of a hardware address that `net.ParseMAC` reads: an EUI-48, an EUI-64 or a 20-octet
-- address of InfiniBand.
abbrev pub IsMac : Mac → Type 0
IsMac m = All (λ (b : ℕ). b ≤ 255) m × ((length m ≡ 6) ⊎ ((length m ≡ 8) ⊎ (length m ≡ 20)))

-- What the code relies on of the encoding of hardware addresses.
pub record IsCodec (parse_mac : Text → Option Mac) (print_mac : Mac → Text) : Type 0 where
  pub reads_back : (m : Mac) → IsMac m → parse_mac (print_mac m) ≡ some m
  pub not_empty : (m : Mac) → IsMac m → text_eq (print_mac m) [] ≡ false

-- The attributes that the configuration does not tune are those of `a`.
pub record Agrees (c : TuningConf) (a x : Attrs) : Type 0 where
  pub mac : text_eq c.mac [] ≡ true → x.mac ≡ a.mac
  pub promisc : c.promisc ≡ false → x.promisc ≡ a.promisc
  pub mtu : is_zero c.mtu ≡ true → x.mtu ≡ a.mtu
  pub allmulti : c.allmulti ≡ none → x.allmulti ≡ a.allmulti
  pub tx_q_len : c.tx_q_len ≡ none → x.tx_q_len ≡ a.tx_q_len

-- A change of an attribute that the configuration tunes.
abbrev pub Tuned : TuningConf → Change → Type 0
Tuned c (set_mac m) = text_eq c.mac [] ≡ false
Tuned c (set_promisc b) = c.promisc ≡ true
Tuned c (set_mtu n) = is_zero c.mtu ≡ false
Tuned c (set_allmulti b) = is_given c.allmulti ≡ true
Tuned c (set_tx_q_len n) = is_given c.tx_q_len ≡ true

pub Agrees-changed :
    (c : TuningConf) (a x : Attrs) (h : Change)
    → Tuned c h
    → Agrees c a x
    → Agrees c a (changed h x)
Agrees-changed c a x (set_mac m) t g = ground arith
Agrees-changed c a x (set_promisc b) t g = ground arith
Agrees-changed c a x (set_mtu n) t g = ground arith
Agrees-changed c a x (set_allmulti b) t g = ground arith
Agrees-changed c a x (set_tx_q_len n) t g = ground arith
