-- ===== src/Dhcp/Samples.antt =====
-- The daemon, its leases and the options, on concrete inputs.
use containerz_plugin.Common.{
  ℕ, not, ◌&&◌, ◌||◌, ◌==◌, ◌*◌, ◌≡◌, ◌≢◌, refl, true, false, List, [], ◌∷◌, ◌++◌, none, some, All,
  Any, arith, pos, ltℤ, ok, Text, text, text_eq, text_eq_iff, sym, ◌∙◌, split_on, cut_at,
}
use containerz_plugin.Dhcp.Options.{
  ProvideOption, RequestOption, DhcpOption, string, code_list, prepare_options, provided,
  parse_option_name, requested, request_option, option_router, option_subnet_mask, arg_pairs,
  arg_value, skips_default,
}
use containerz_plugin.Dhcp.Options.Provided.{OfSome, Provides}
use containerz_plugin.Dhcp.Options.Sent.{has_code, asks, IsAdd, prepare_options-Sent}
use containerz_plugin.Dhcp.Lease.{
  second, Ack, Lease, started, Round, Maintained, timer, stop_asked, expired, commit, maintain,
  maintain_on, pass, in_phase, renewal_failed, select, rebinding_failed,
}
use containerz_plugin.Dhcp.Lease.Times.{Ordered, IsSane, commit_overflow}
use containerz_plugin.Dhcp.Lease.Maintenance.{Consistent, maintain-Consistent, maintain-Ordered}
use containerz_plugin.Dhcp.Lease.Ended.{Lapsed, maintain-Lapsed, Returned}
use containerz_plugin.Dhcp.Backoff.{
  Attempt, Bounded, AnsweredBy, backoff_retry, backoff_retry-Bounded,
}
use containerz_plugin.Dhcp.Daemon.{Leases, get_lease, blocked, allocate, release}
use containerz_plugin.Dhcp.Daemon.Calls.{allocate_ended, release-Returned}

-- A lease of an hour.
abbrev hour : Ack
hour = record {
  your_ip = 10 ∷ 0 ∷ 0 ∷ 5 ∷ [];
  subnet_mask = 255 ∷ 255 ∷ 255 ∷ 0 ∷ [];
  router = (10 ∷ 0 ∷ 0 ∷ 1 ∷ []) ∷ [];
  lease_time = some (3600 * second);
  renewal_time = none;
  rebinding_time = none;
  classless_routes = [];
  static_routes = none;
}

-- A lease without end.
abbrev endless : Ack
endless = record hour { lease_time = some (4294967295 * second) }

abbrev hour_lease : Lease
hour_lease = commit hour 0

-- A pass with no answer, at a time in seconds.
abbrev silent : ℕ → Round
silent t = record {
  link_exists = true;
  now = t * second;
  reply = none;
  clock = t * second;
  signal = timer;
  released = true;
  set_down = false;
}

abbrev renewed : ℕ → Round
renewed t = record (silent t) { reply = some hour }

abbrev stopping : ℕ → Round
stopping t = record (silent t) { signal = stop_asked }

-- Renewal, rebinding and the end all go by without an answer.
abbrev to_the_end : List Round
to_the_end = silent 1900 ∷ silent 3100 ∷ silent 3700 ∷ []

maintain-Consistent_example : Consistent (maintain hour_lease to_the_end)
maintain-Consistent_example = maintain-Consistent hour_lease to_the_end

hour-IsSane : IsSane hour
hour-IsSane = record { short = omega arith; fitting = tt }

abbrev renewed_once : List Round
renewed_once = silent 1900 ∷ renewed 1901 ∷ silent 1902 ∷ []

maintain-Ordered_example : Ordered (maintain (commit hour 0) renewed_once).lease
maintain-Ordered_example =
    maintain-Ordered hour 0 renewed_once hour-IsSane (tt, (hour-IsSane, (tt, tt)))

commit_overflow_example : ltℤ (commit endless 7).rebinding_time (pos 7) ≡ true
commit_overflow_example = commit_overflow endless 7 refl (omega arith, omega arith)

runs_out : (maintain hour_lease to_the_end).ending ≡ some expired
unfolding maintain maintain_on pass in_phase commit renewal_failed select rebinding_failed
runs_out = refl

maintain-Lapsed_example : Any (Lapsed (maintain hour_lease to_the_end).lease) to_the_end
maintain-Lapsed_example = maintain-Lapsed hour_lease to_the_end runs_out

-- Two attempts fail, and the third is answered.
abbrev attempts : List (Attempt Ack)
attempts =
    record { reply = none; spread = second; cancelled = false }
    ∷ record { reply = none; spread = 0; cancelled = false }
    ∷ record { reply = some hour; spread = second; cancelled = false }
    ∷ []

backoff_retry-Bounded_example :
    All (Bounded (62 * second)) (backoff_retry (62 * second) attempts).0
    × AnsweredBy attempts (backoff_retry (62 * second) attempts).1
backoff_retry-Bounded_example =
    backoff_retry-Bounded (62 * second) attempts (omega arith)
      (omega arith, (omega arith, (omega arith, tt)))

abbrev client : Text
client = text "c0/net/eth0"

abbrev other_client : Text
other_client = text "c1/net/eth0"

unequal : text_eq other_client client ≡ false
unfolding text_eq
unequal = refl

told_apart : other_client ≢ client
told_apart e = let t = (text_eq_iff other_client client).1 e in true_or_false (sym t ∙ unequal)
  where
    true_or_false : true ≡ false → ⊥
    true_or_false h = cc

-- The maintenance of a lease that has run out.
abbrev over : Maintained
over = record (started hour_lease) { ending = some expired }

abbrev two_leases : Leases
two_leases = (client, started hour_lease) ∷ (other_client, over) ∷ []

holds_client : get_lease client two_leases ≡ some (started hour_lease)
unfolding get_lease text_eq
holds_client = refl

holds_other : get_lease other_client two_leases ≡ some over
unfolding get_lease text_eq
holds_other = refl

allocate_ended_example :
    allocate renewed_once 0 other_client (some hour_lease) two_leases ≡ (two_leases, blocked)
allocate_ended_example =
    allocate_ended renewed_once 0 other_client (some hour_lease) two_leases over expired holds_other
      refl

release-Returned_example :
    (get_lease client (release (stopping 5 ∷ stopping 6 ∷ []) client two_leases).0 ≡ none)
    × (get_lease other_client (release (stopping 5 ∷ stopping 6 ∷ []) client two_leases).0
        ≡ get_lease other_client two_leases)
    × ((final : Maintained) × ((release (stopping 5 ∷ stopping 6 ∷ []) client two_leases).1
          ≡ some final)
        × Returned (stopping 5) (stopping 6) final)
release-Returned_example =
    release-Returned (stopping 5) (stopping 6) [] client other_client two_leases
      (started hour_lease) holds_client refl refl refl told_apart

-- `OptionCodes.Add` without its sorting.
abbrev add_last : List ℕ → ℕ → List ℕ
add_last cs c = cs ++ c ∷ []

abbrev provide : List ProvideOption
provide = record { option = text "host-name"; value = []; from_arg = text "K8S_POD_NAME" } ∷ []

abbrev request : List RequestOption
request = record { skip_default = false; option = text "42" } ∷ []

abbrev sent : List DhcpOption
sent =
    record { code = 12; value = string (text "web") }
    ∷ record { code = 55; value = code_list (42 ∷ 3 ∷ 1 ∷ []) }
    ∷ []

prepares : prepare_options add_last (text "A;K8S_POD_NAME=web") provide request ≡ ok sent
unfolding prepare_options provided requested skips_default arg_pairs arg_value parse_option_name
    split_on cut_at text_eq
prepares = refl

add_last-IsAdd : IsAdd add_last
add_last-IsAdd [] c u = ground arith
add_last-IsAdd (d ∷ cs) c u = ground (arith, add_last-IsAdd cs c u)

prepare_options-Sent_example :
    (texts : List DhcpOption) × (codes : List ℕ) × (sent ≡ texts ++ request_option codes)
    × All (OfSome (arg_pairs (split_on 59 (text "A;K8S_POD_NAME=web"))) provide) texts
    × All (Provides (arg_pairs (split_on 59 (text "A;K8S_POD_NAME=web"))) texts) provide
    × ((u : ℕ)
        → has_code u codes ≡ (
            asks u request
            || (not (skips_default request) && (option_subnet_mask == u || option_router == u))))
prepare_options-Sent_example =
    prepare_options-Sent add_last add_last-IsAdd (text "A;K8S_POD_NAME=web") provide request sent
      prepares
