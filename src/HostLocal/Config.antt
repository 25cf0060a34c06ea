-- ===== src/HostLocal/Config.antt =====
-- plugins/ipam/host-local/backend/allocator/config.go: what the decoded configuration is brought
-- into. The reading of CNI_ARGS and the comparison of versions are calls of the CNI library, and
-- parameters here.
pub mod Accepted
use containerz_plugin.Common.{
  ℕ, ◌+◌, Bool, true, false, ◌&&◌, ◌||◌, not, List, [], ◌∷◌, ◌++◌, Option, none, some, length, ltb,
  if◌then◌else◌, Result, ok, err, ◌>>=◌, ◌>>◌, guard, Text,
}
use containerz_plugin.Net.{Ip, is_nil, to4}
use containerz_plugin.HostLocal.Range.{Range, canonicalize_ip}
use containerz_plugin.HostLocal.RangeSet.{RangeSet, SetError, canonicalize_set, set_overlaps}

-- `IPAMConfig`, the fields that the allocation reads; the embedded `*Range` is `range`.
pub record IpamConfig : Type 0 where
  pub range : Option Range
  pub name : Text
  pub ranges : List RangeSet
  pub ip_args : List Ip

-- `Net`, with the addresses of the CNI arguments and of the runtime configuration, and the ranges of
-- the latter, as lists that are empty if they are not there.
pub record NetConf : Type 0 where
  pub name : Text
  pub cni_version : Text
  pub ipam : Option IpamConfig
  pub runtime_ranges : List RangeSet
  pub runtime_ips : List Ip
  pub args_ips : List Ip

pub data ConfigError : Type 0 where
  no_ipam bad_args unknown_ip no_ranges too_many sets_overlap : ConfigError
  bad_set : SetError → ConfigError

-- The first source of addresses: CNI_ARGS, where they give one.
abbrev pub first_ips : Ip → List Ip → List Ip
first_ips env given = if is_nil env then given else env ∷ []

abbrev pub or_fail {ℓ} : {A : Type ℓ} → ConfigError → Option A → Result ConfigError A
or_fail e none = err e
or_fail e (some a) = ok a

unfoldable pub canonical_ips : List Ip → Result ConfigError (List Ip)
canonical_ips [] = ok []
canonical_ips (a ∷ as') = do
  b ← or_fail unknown_ip (canonicalize_ip a)
  bs ← canonical_ips as'
  ok (b ∷ bs)

-- The single range of an old configuration, as a set of its own.
abbrev pub single_range : Option Range → List RangeSet
single_range none = []
single_range (some r) = if is_nil r.subnet.ip then [] else (r ∷ []) ∷ []

abbrev pub as_config {ℓ} : {A : Type ℓ} → Result SetError A → Result ConfigError A
as_config (ok a) = ok a
as_config (err e) = err (bad_set e)

unfoldable pub canonical_sets : List RangeSet → Result ConfigError (List RangeSet)
canonical_sets [] = ok []
canonical_sets (s ∷ ss) = do t ← as_config (canonicalize_set s); ts ← canonical_sets ss; ok (t ∷ ts)

-- The address family of a set is that of its first range.
unfoldable pub is_v4 : RangeSet → Bool
is_v4 [] = false
is_v4 (r ∷ _) = not (is_nil (to4 r.range_start))

unfoldable pub count_v4 : List RangeSet → ℕ
count_v4 [] = 0
count_v4 (s ∷ ss) = (if is_v4 s then 1 else 0) + count_v4 ss

unfoldable pub count_v6 : List RangeSet → ℕ
count_v6 [] = 0
count_v6 (s ∷ ss) = (if is_v4 s then 0 else 1) + count_v6 ss

unfoldable pub overlaps_later : RangeSet → List RangeSet → Bool
overlaps_later p [] = false
overlaps_later p (q ∷ qs) = set_overlaps p q || overlaps_later p qs

-- Each set against those behind it.
unfoldable pub some_overlap : List RangeSet → Bool
some_overlap [] = false
some_overlap (p ∷ ps) = overlaps_later p ps || some_overlap ps

-- The checks on the sets, in the order of the source.
unfoldable pub checked_sets : Bool → List RangeSet → Result ConfigError (List RangeSet)
checked_sets newer [] = err no_ranges
checked_sets newer (s ∷ ss) = do
  ts ← canonical_sets (s ∷ ss)
  guard (not (ltb 1 (count_v4 ts) || ltb 1 (count_v6 ts)) || newer) too_many
  guard (not (some_overlap ts)) sets_overlap
  ok ts

-- `load_args` is `types.LoadArgs` with the address it gives, nil for none; `newer` says whether a
-- version is at least 0.3.0.
module _ (load_args : Text → Option Ip) (newer : Text → Bool) where
  unfoldable pub env_ip : Text → Result ConfigError Ip
  env_ip [] = ok []
  env_ip (c ∷ cs) = or_fail bad_args (load_args (c ∷ cs))

  unfoldable pub load_ipam_config : NetConf → Text → Result ConfigError (IpamConfig × Text)
  load_ipam_config n env_args = do
    c ← or_fail no_ipam n.ipam
    env ← env_ip env_args
    ips ← canonical_ips (first_ips env c.ip_args ++ n.args_ips ++ n.runtime_ips)
    sets ←
        checked_sets (newer n.cni_version) (n.runtime_ranges ++ (single_range c.range ++ c.ranges))
    ok (record { range = none; name = n.name; ranges = sets; ip_args = ips }, n.cni_version)
