-- ===== src/Dhcp/Daemon/Calls.antt =====
-- What the calls of the daemon leave in its leases.
use containerz_plugin.Common.{
  ℕ, zero, suc, ◌≤◌, ◌≡◌, ◌≢◌, ◌⊎◌, inl, inr, refl, sym, subst, true, false, List, [], ◌∷◌, ◌++◌,
  ap, ◌∙◌, ◌&&◌, Option, none, some, length, take, ltb, if◌then◌else◌, arith, ok, err, Text,
  text_eq, text_eq_iff, Bool-cases,
}
use containerz_plugin.Dhcp.Lease.{
  Lease, Round, Maintained, Ending, stop_asked, maintain_on, ip_net, no_mask, gateway_of, routes,
  started, received, waiting, check, is_running, is_check,
}
use containerz_plugin.Dhcp.Lease.Ended.{Returned, maintain_on-Returned, maintain_on_over}
use containerz_plugin.Dhcp.Daemon.{
  Leases, get_lease, clear_lease, replace_lease, generate_client_id, Granted, Answer, granted,
  failed, blocked, not_acquired, mask_missing, slash, stop, prioritized, allocate_held, allocate,
  release,
}

text_eq_apart : (a b : Text) → a ≢ b → text_eq a b ≡ false
text_eq_apart a b h = elim (Bool-cases (text_eq a b)) [
  | inl e ↦ absurd (h ((text_eq_iff a b).0 e))
  | inr e ↦ e
]

get_lease-clear_lease : (k : Text) (d : Leases) → get_lease k (clear_lease k d) ≡ none
unfolding get_lease clear_lease
get_lease-clear_lease k [] = refl
get_lease-clear_lease k ((n, m) ∷ d) = ground (arith, get_lease-clear_lease k d)

get_lease-clear_lease_other :
    (k j : Text) (d : Leases) → j ≢ k → get_lease j (clear_lease k d) ≡ get_lease j d
unfolding get_lease clear_lease
get_lease-clear_lease_other k j [] h = refl
get_lease-clear_lease_other k j ((n, m) ∷ d) h = elim (Bool-cases (text_eq n k)) [
  | inl e ↦
      let same : n ≡ k = (text_eq_iff n k).0 e in
      ground (arith, text_eq_apart k j (λ e. h (sym e)), same, get_lease-clear_lease_other k j d h)
  | inr e ↦ ground (arith, get_lease-clear_lease_other k j d h)
]

length-take : (n : ℕ) (t : Text) → length (take n t) ≤ n
length-take zero t = omega arith
length-take (suc n) [] = omega arith
length-take (suc n) (c ∷ t) = omega (arith, length-take n t)

short_enough :
    (id : Text)
    → (ltb 254 (length id) ≡ true) ⊎ (ltb 254 (length id) ≡ false)
    → length (if ltb 254 (length id) then take 254 id else id) ≤ 254
short_enough id (inl e) = rw e (length-take 254 id)
short_enough id (inr e) = rw e (not_above (length id) e)
  where
    not_above : (n : ℕ) → ltb 254 n ≡ false → n ≤ 254
    not_above n h = ground arith

-- A client identifier fits an option.
pub length-generate_client_id :
    (container net_name ifname : Text) → length (generate_client_id container net_name ifname) ≤ 254
unfolding generate_client_id
length-generate_client_id container net_name ifname =
    short_enough (container ++ (slash ++ (net_name ++ (slash ++ ifname)))) (Bool-cases _)

-- The lease that a call of `Allocate` goes on with, and the rounds that are left: the one held, once a
-- pass of its maintenance has received the check, or the one just acquired.
pub data Obtained (rs : List Round) (k : Text) (acquired : Option Lease) (d : Leases)
    : Maintained → List Round → Type 0 where
  checked :
      {m m' : Maintained} {rest : List Round}
      → get_lease k d ≡ some m
      → check rs m ≡ received m' rest
      → Obtained rs k acquired d m' rest
  new :
      {l : Lease}
      → get_lease k d ≡ none
      → acquired ≡ some l
      → Obtained rs k acquired d (started l) rs

-- What a map has for a client once its lease, if it has one, is in another state.
abbrev pub moved : Maintained → Option Maintained → Option Maintained
moved m none = none
moved m (some _) = some m

-- What `Allocate` answers, and leaves, for a client.
pub data Allocates (rs : List Round) (priority : ℕ) (k : Text) (acquired : Option Lease)
    (d : Leases) : Leases × Answer → Type 0 where
  has_lease :
      {d' : Leases} {g : Granted} (m : Maintained) (rest : List Round)
      → Obtained rs k acquired d m rest
      → get_lease k d' ≡ some m
      → ip_net m.lease ≡ ok g.address
      → g.gateway ≡ gateway_of m.lease.latest.router
      → g.routes_to ≡ prioritized priority (routes m.lease)
      → ((j : Text) → j ≢ k → get_lease j d' ≡ get_lease j d)
      → Allocates rs priority k acquired d (d', granted g)
  no_lease :
      get_lease k d ≡ none
      → acquired ≡ none
      → Allocates rs priority k acquired d (d, failed not_acquired)
  no_mask_given :
      {d' : Leases} (m : Maintained) (rest : List Round)
      → Obtained rs k acquired d m rest
      → ip_net m.lease ≡ err no_mask
      → get_lease k d' ≡ moved (stop rest m) (get_lease k d)
      → ((j : Text) → j ≢ k → get_lease j d' ≡ get_lease j d)
      → Allocates rs priority k acquired d (d', failed mask_missing)
  waits :
      {d' : Leases} (m m' : Maintained)
      → get_lease k d ≡ some m
      → check rs m ≡ waiting m'
      → get_lease k d' ≡ some m'
      → ((j : Text) → j ≢ k → get_lease j d' ≡ get_lease j d)
      → Allocates rs priority k acquired d (d', blocked)

-- A loop that has returned does not receive.
check_over :
    (rs : List Round) (m : Maintained) (e : Ending) → m.ending ≡ some e → check rs m ≡ waiting m
unfolding check
check_over [] m e h = refl
check_over (r ∷ rs) m e h =
    let same : maintain_on m.ending m (r ∷ []) ≡ m =
      subst (λ x. maintain_on x m (r ∷ []) ≡ m) (sym h) (maintain_on_over e m (r ∷ [])) in
    from m.ending h (maintain_on m.ending m (r ∷ [])) same (check_over rs m e h)
  where
    from :
        (x : Option Ending)
        → x ≡ some e
        → (n : Maintained) → n ≡ m
        → check rs m ≡ waiting m
        → (if is_running x && is_check n.took then received n rs else check rs n) ≡ waiting m
    from none h n s ih = cc
    from (some x) h n s ih = ap (check rs) s ∙ ih

replace_lease_same :
    (k : Text) (m : Maintained) (d : Leases) → get_lease k d ≡ some m → replace_lease k m d ≡ d
unfolding get_lease replace_lease
replace_lease_same k m [] h = cc
replace_lease_same k m ((n, m') ∷ d) h = elim (Bool-cases (text_eq n k)) [
  | inl e ↦ ground (arith, e)
  | inr e ↦ ground (arith, replace_lease_same k m d)
]

-- Where the daemon holds a lease for the client whose maintenance has returned, `Allocate` waits, over
-- however many rounds, and the leases stay as they are.
pub allocate_ended :
    (rs : List Round) (priority : ℕ) (k : Text) (acquired : Option Lease) (d : Leases)
    (m : Maintained) (e : Ending)
    → get_lease k d ≡ some m
    → m.ending ≡ some e
    → allocate rs priority k acquired d ≡ (d, blocked)
unfolding allocate allocate_held
allocate_ended rs priority k acquired d m e h n =
    rw (allocate, h)
      (rw (check_over rs m e n, allocate_held)
        (ap (λ x. (x, blocked)) (replace_lease_same k m d h)))

-- `Release` of a client whose lease the daemon holds and still maintains, when the stop is met by
-- two passes: the lease is gone from the daemon, those of other clients are untouched, and its
-- maintenance has returned, behind a release that succeeded or failed as one of the passes says, unless
-- the link is gone or the lease expired.
pub release-Returned :
    (r1 r2 : Round) (rs : List Round) (k j : Text) (d : Leases) (m : Maintained)
    → get_lease k d ≡ some m
    → m.ending ≡ none
    → r1.signal ≡ stop_asked
    → r2.signal ≡ stop_asked
    → j ≢ k
    → (get_lease k (release (r1 ∷ r2 ∷ rs) k d).0 ≡ none)
      × (get_lease j (release (r1 ∷ r2 ∷ rs) k d).0 ≡ get_lease j d)
      × ((final : Maintained) × ((release (r1 ∷ r2 ∷ rs) k d).1 ≡ some final)
          × Returned r1 r2 final)
unfolding release
release-Returned r1 r2 rs k j d m h n s1 s2 ne =
    rw (release, h)
      (
        get_lease-clear_lease k d,
        get_lease-clear_lease_other k j d ne,
        (
          stop (r1 ∷ r2 ∷ rs) m,
          refl,
          subst (λ e. Returned r1 r2 (maintain_on e m (r1 ∷ r2 ∷ rs))) (sym n)
              (maintain_on-Returned m r1 r2 rs n s1 s2),
        ),
      )
