-- ===== src/Portmap/Samples.antt =====
-- A chain set up over a small iptables, groups of ports, and a configuration.
use containerz_plugin.Common.{
  Result, Option, ◌≡◌, refl, Bool, true, false, ◌&&◌, ◌||◌, List, [], ◌∷◌, none, ok, err, ℤ, pos,
  Text, text, text_eq, text_eq_iff,
}
use containerz_plugin.Net.{Ip, IpNet}
use containerz_plugin.Portmap.Mapper.{forward_ports, check_ports}
use containerz_plugin.Portmap.Mapper.Forwarded.{Builtin, forward_ports-check_ports}
use containerz_plugin.Portmap.Chain.{IptError, Rule, exit, Ipt, check, setup}
use containerz_plugin.Portmap.Chain.Working.{View, Grows, IsWorking, AllThere, IsSetUp}
use containerz_plugin.Portmap.Chain.Idempotent.{setup_idempotent}
use containerz_plugin.Portmap.Utils.{PortMapEntry}
use containerz_plugin.Portmap.Rules.{PortMapConf, gen_mark_masq_chain}
use containerz_plugin.Portmap.Config.{
  RawConf, iptables_backend, no_net, parse_config, mark_bit, ensure_backend, specific_to,
  detect_backend, chosen_backend, checked_ports, container_ips,
}
use containerz_plugin.Portmap.Config.Valid.{Valid, parse_config-Valid}

abbrev words_eq : Rule → Rule → Bool
words_eq [] [] = true
words_eq [] (_ ∷ _) = false
words_eq (_ ∷ _) [] = false
words_eq (x ∷ xs) (y ∷ ys) = text_eq x y && words_eq xs ys

-- The chains that are there, and the rules that were put into them.
record Tables : Type 0 where
  chains : List (Text × Text)
  rules : List (Text × (Text × Rule))

abbrev is_chain : List (Text × Text) → Text → Text → Bool
is_chain [] t c = false
is_chain ((t', c') ∷ cs) t c = (text_eq t' t && text_eq c' c) || is_chain cs t c

abbrev was_put : List (Text × (Text × Rule)) → Text → Text → Rule → Bool
was_put [] t c r = false
was_put ((t', (c', r')) ∷ s) t c r =
    (text_eq t' t && (text_eq c' c && words_eq r' r)) || was_put s t c r

words_eq_refl : (r : Rule) → words_eq r r ≡ true
words_eq_refl [] = refl
words_eq_refl (x ∷ xs) = rw ((text_eq_iff x x).1 refl, words_eq_refl xs) refl

abbrev put : Tables → Text → Text → Rule → Tables
put s t c r = record s { rules = (t, (c, r)) ∷ s.rules }

abbrev created : Tables → Text → Text → Tables
created s t c = record s { chains = (t, c) ∷ s.chains }

abbrev small : Ipt Tables
small = record {
  chain_exists = λ s t c. ok (is_chain s.chains t c);
  new_chain = λ s t c. (created s t c, ok tt);
  exists = λ s t c r. ok (was_put s.rules t c r);
  insert = λ s t c r. (put s t c r, ok tt);
  append = λ s t c r. (put s t c r, ok tt);
  delete = λ s t c r. (s, err (exit 1 true));
  clear_and_delete_chain = λ s t c. (s, err (exit 1 false));
  delete_chain = λ s t c. (s, err (exit 1 false));
  clear_chain = λ s t c. (s, err (exit 1 false));
  list = λ s t c. ok [];
}

abbrev seen : View Tables
seen = record { chain = λ s t c. is_chain s.chains t c; has = λ s t c r. was_put s.rules t c r }

or_right : (a : Bool) {b : Bool} → b ≡ true → (a || b) ≡ true
or_right true h = refl
or_right false h = h

put-was_put : (s : Tables) (t c : Text) (r : Rule) → was_put (put s t c r).rules t c r ≡ true
put-was_put s t c r = rw ((text_eq_iff t t).1 refl, (text_eq_iff c c).1 refl, words_eq_refl r) refl

created-is_chain : (s : Tables) (t c : Text) → is_chain (created s t c).chains t c ≡ true
created-is_chain s t c = rw ((text_eq_iff t t).1 refl, (text_eq_iff c c).1 refl) refl

put-Grows : (s : Tables) (t c : Text) (r : Rule) → Grows seen s (put s t c r)
put-Grows s t c r = record {
  chains = λ t' c' h. h;
  rules = λ t' c' r' h. or_right (text_eq t t' && (text_eq c c' && words_eq r r')) h;
}

created-Grows : (s : Tables) (t c : Text) → Grows seen s (created s t c)
created-Grows s t c = record {
  chains = λ t' c' h. or_right (text_eq t t' && text_eq c c') h;
  rules = λ t' c' r' h. h;
}

small-IsWorking : IsWorking small seen
small-IsWorking = record {
  tells_chain = λ s t c. refl;
  tells_rule = λ s t c r h. refl;
  creates = λ s t c h. (_, refl, created-is_chain s t c, created-Grows s t c);
  inserts = λ s t c r h. (_, refl, put-was_put s t c r, put-Grows s t c r);
  appends = λ s t c r h. (_, refl, put-was_put s t c r, put-Grows s t c r);
}

abbrev fresh : Tables
fresh = record { chains = (text "nat", text "POSTROUTING") ∷ []; rules = [] }

postrouting : is_chain fresh.chains (text "nat") (text "POSTROUTING") ≡ true
unfolding text_eq
postrouting = refl

entries :
    AllThere small seen small-IsWorking fresh
      (gen_mark_masq_chain 13).table
      (gen_mark_masq_chain 13).entry_chains
unfolding gen_mark_masq_chain
entries = (postrouting, tt)

setup_idempotent_example :
    (s' : Tables) × (setup small (gen_mark_masq_chain 13) fresh ≡ (s', ok tt))
    × IsSetUp small seen small-IsWorking (gen_mark_masq_chain 13) s'
    × Grows seen fresh s'
    × (check small (gen_mark_masq_chain 13) s' ≡ ok tt)
    × (setup small (gen_mark_masq_chain 13) s' ≡ (s', ok tt))
setup_idempotent_example =
    setup_idempotent small seen small-IsWorking (gen_mark_masq_chain 13) fresh entries

abbrev builtin_chains : Tables
builtin_chains = record {
  chains =
      (text "nat", text "PREROUTING")
      ∷ (text "nat", text "OUTPUT")
      ∷ (text "nat", text "POSTROUTING")
      ∷ [];
  rules = [];
}

builtin_chains-Builtin : Builtin seen builtin_chains
unfolding text_eq
builtin_chains-Builtin = record { prerouting = refl; output = refl; postrouting = refl }

abbrev pod : IpNet
pod = record { ip = 10 ∷ 0 ∷ 0 ∷ 5 ∷ []; mask = 255 ∷ 255 ∷ 255 ∷ 0 ∷ [] }

abbrev print_pod : Ip → Text
print_pod ip = text "10.0.0.5"

abbrev print_pod_net : IpNet → Text
print_pod_net net = text "10.0.0.5/24"

abbrev no_ip : Text → Ip
no_ip t = []

abbrev short_hash : Text → Text
short_hash t = text "0123456789abcdef0123456789abcdef"

abbrev open_small : Bool → Result IptError (Ipt Tables)
open_small v6 = ok small

abbrev no_words : Text → Option (List Text)
no_words t = none

abbrev some_ports : List ℤ
some_ports =
    pos 80
    ∷ pos 81
    ∷ pos 82
    ∷ pos 83
    ∷ pos 84
    ∷ pos 85
    ∷ pos 86
    ∷ pos 87
    ∷ pos 88
    ∷ pos 89
    ∷ pos 90
    ∷ pos 91
    ∷ pos 92
    ∷ pos 93
    ∷ pos 94
    ∷ pos 443
    ∷ []

abbrev web : PortMapEntry
web = record { host_port = pos 8080; container_port = pos 80; protocol = text "tcp"; host_ip = [] }

abbrev raw : RawConf
raw = record {
  name = text "net";
  backend = none;
  snat = none;
  conditions_v4 = none;
  conditions_v6 = none;
  masq_all = false;
  mark_masq_bit = none;
  port_maps = web ∷ [];
  external_set_mark_chain = none;
  interfaces = [];
  ips = [];
}

abbrev conf : PortMapConf
conf = record {
  name = text "net";
  container_id = text "c0";
  backend = iptables_backend;
  snat = true;
  conditions_v4 = none;
  conditions_v6 = none;
  masq_all = false;
  mark_masq_bit = 13;
  port_maps = web ∷ [];
  external_set_mark_chain = none;
  cont_ip_v4 = no_net;
  cont_ip_v6 = no_net;
}

parses : parse_config true true (text "c0") (text "eth0") raw ≡ ok conf
unfolding parse_config mark_bit ensure_backend specific_to detect_backend text_eq chosen_backend
    checked_ports container_ips
parses = refl

parse_config-Valid_example : Valid raw conf
parse_config-Valid_example = parse_config-Valid true true (text "c0") (text "eth0") raw conf parses

forward_ports-check_ports_example :
    (s' : Tables) × (forward_ports print_pod print_pod_net no_ip short_hash open_small no_words conf
        pod builtin_chains
      ≡ (s', ok tt))
    × Grows seen builtin_chains s'
    × (check_ports print_pod print_pod_net no_ip short_hash open_small no_words conf pod s' ≡ ok tt)
    × ((s'' : Tables)
        → Grows seen s' s''
        → forward_ports print_pod print_pod_net no_ip short_hash open_small no_words conf pod s''
          ≡ (s'', ok tt))
forward_ports-check_ports_example =
    forward_ports-check_ports print_pod print_pod_net no_ip short_hash open_small no_words seen
      small small-IsWorking conf pod builtin_chains refl (λ s'. ([], refl)) builtin_chains-Builtin
