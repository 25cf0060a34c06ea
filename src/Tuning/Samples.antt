-- ===== src/Tuning/Samples.antt =====
-- A small system with one interface and one backup, and a configuration that tunes two attributes.
use containerz_plugin.Common.{
  ℕ, ◌==◌, ◌||◌, inl, length, arith, if◌then◌else◌, ◌≡◌, refl, true, false, [], ◌∷◌, none, some,
  pos, Text, text, text_eq, Option,
}
use containerz_plugin.Tuning.Config.{TuningConf}
use containerz_plugin.Tuning.{
  Mac, Attrs, Saved, absent, holding, Host, Change, cmd_add, restore_backup,
}
use containerz_plugin.Tuning.Faithful.{
  changed, met, written, removed, IsFaithful, IsMac, IsCodec, Restores,
}
use containerz_plugin.Tuning.Restored.{path, cmd_add-restore_backup}

record Small : Type 0 where
  attrs : Attrs
  saved : Saved

abbrev small : Host Small
small = record {
  attrs = λ s i. some s.attrs;
  change = λ s i c. (record s { attrs = changed c s.attrs }, true);
  dir_exists = λ s d. true;
  make_dir = λ s d. (s, true);
  save = λ s p b. (record s { saved = holding b }, true);
  saved = λ s p. s.saved;
  remove = λ s p. (record s { saved = absent }, true);
  write_sysctl = λ s f v. (s, true);
  read_sysctl = λ s f. none;
}

after_change :
    (c : Change) (s : Small) (a : Attrs)
    → some s.attrs ≡ some a
    → some (changed c s.attrs) ≡ some (changed c a)
after_change c s a e = let same : s.attrs ≡ a = cc in rw same refl

small-IsFaithful : IsFaithful small
small-IsFaithful = record {
  changes = λ i p c s. met (after_change c s) refl;
  makes = λ i p d s. record { attrs = refl; saved = refl };
  saves = λ i p b s. written refl refl;
  removes = λ i p s. removed refl refl;
  writes = λ i p f v s. record { attrs = refl; saved = refl };
}

abbrev print_mac : Mac → Text
print_mac m = 58 ∷ m

abbrev parse_mac : Text → Option Mac
parse_mac [] = none
parse_mac (c ∷ cs) = of_length cs (length cs)
  where
    of_length : Mac → ℕ → Option Mac
    of_length m n = if n == 6 || (n == 8 || n == 20) then some m else none

codec : IsCodec parse_mac print_mac
unfolding text_eq
codec = record { reads_back = λ m v. ground (arith, v.1); not_empty = λ m v. refl }

abbrev joined : Text → Text → Text
joined dir file = dir

abbrev before : Attrs
before = record {
  mac = 2 ∷ 0 ∷ 0 ∷ 0 ∷ 0 ∷ 1 ∷ [];
  promisc = false;
  mtu = pos 1500;
  allmulti = false;
  tx_q_len = pos 1000;
}

before-IsMac : IsMac before.mac
before-IsMac = (
  (omega arith, (omega arith, (omega arith, (omega arith, (omega arith, (omega arith, tt)))))),
  inl refl,
)

abbrev conf : TuningConf
conf = record {
  data_dir = text "/run/cni/tuning";
  sysctls = [];
  mac = text ":abcdef";
  promisc = false;
  mtu = pos 1400;
  tx_q_len = none;
  allmulti = none;
}

abbrev fresh : Small
fresh = record { attrs = before; saved = absent }

cmd_add-restore_backup_example :
    Restores small
      (text "eth0")
      (path small small-IsFaithful parse_mac print_mac codec joined
        (text "c0")
        (text "eth0")
        conf
        before)
      before
      (cmd_add small parse_mac print_mac joined conf (text "c0") (text "eth0") fresh).0
      (restore_backup small parse_mac
        (text "eth0")
        (path small small-IsFaithful parse_mac print_mac codec joined
          (text "c0")
          (text "eth0")
          conf
          before)
        (cmd_add small parse_mac print_mac joined conf (text "c0") (text "eth0") fresh).0)
cmd_add-restore_backup_example =
    cmd_add-restore_backup small small-IsFaithful parse_mac print_mac codec joined (text "c0")
      (text "eth0") conf before fresh before-IsMac refl refl refl
