-- ===== src/Dhcp/Lease/Maintenance.antt =====
-- The loop that maintains a lease, over any rounds.
use containerz_plugin.Common.{
  ℕ, Bool, if◌then◌else◌, false, ◌≡◌, ◌⊎◌, inl, inr, refl, sym, subst, true, false, List, [], ◌∷◌,
  Option, none, some, All, arith, Option-cases, Bool-cases,
}
use containerz_plugin.Dhcp.Lease.{
  Ack, Lease, Round, Maintained, Phase, bound, renewing, rebinding, Ending, link_gone, expired,
  stopped, started, awake, select, granted, renewal_failed, rebinding_failed, in_phase, pass,
  maintain_on, maintain, commit,
}
use containerz_plugin.Dhcp.Lease.Times.{Ordered, IsSane, commit-Ordered}

-- Whether a request was made, whatever came of it.
abbrev pub is_made : Option Bool → Bool
is_made none = false
is_made (some _) = true

abbrev pub is_expired : Option Ending → Bool
is_expired (some expired) = true
is_expired (some stopped) = false
is_expired (some link_gone) = false
is_expired none = false

abbrev pub is_stopped : Option Ending → Bool
is_stopped (some stopped) = true
is_stopped (some expired) = false
is_stopped (some link_gone) = false
is_stopped none = false

-- What holds of the loop, under way or ended.
pub record Consistent (s : Maintained) : Type 0 where
  pub down_when_expired : is_made s.link_down ≡ is_expired s.ending
  pub release_when_stopped : is_made s.release ≡ is_stopped s.ending
  pub expired_while_rebinding : s.ending ≡ some expired → s.phase ≡ rebinding

in_phase-Consistent :
    (p : Phase) (o : Option Ack) (r : Round) (s : Maintained)
    → s.phase ≡ p
    → s.ending ≡ none
    → Consistent s
    → Consistent (in_phase p o r s)
unfolding in_phase granted renewal_failed rebinding_failed select
in_phase-Consistent p o r s e n c = ground arith

quiet : (s : Maintained) → Consistent s → Consistent (awake s)
quiet s c = record {
  down_when_expired = c.down_when_expired;
  release_when_stopped = c.release_when_stopped;
  expired_while_rebinding = c.expired_while_rebinding;
}

gone :
    (s : Maintained)
    → s.ending ≡ none
    → Consistent s
    → Consistent (record (awake s) { ending = some link_gone })
gone s n c = ground (arith, c.down_when_expired, c.release_when_stopped)

pass-Consistent :
    (s : Maintained) (r : Round) → s.ending ≡ none → Consistent s → Consistent (pass s r)
unfolding pass
pass-Consistent s r n c = either r.link_exists
  where
    either :
        (b : Bool)
        → Consistent (
            if b
            then in_phase s.phase r.reply r (awake s)
            else record (awake s) { ending = some link_gone })
    either true = in_phase-Consistent s.phase r.reply r (awake s) refl n (quiet s c)
    either false = gone s n c

maintain_on-Consistent :
    (s : Maintained) (rs : List Round) → Consistent s → Consistent (maintain_on s.ending s rs)
unfolding maintain_on
maintain_on-Consistent s [] c = rw (maintain_on_done s.ending s) c
  where
    maintain_on_done : (e : Option Ending) (s : Maintained) → maintain_on e s [] ≡ s
    maintain_on_done none s = refl
    maintain_on_done (some e) s = refl
maintain_on-Consistent s (r ∷ rs) c = elim (Option-cases s.ending) [
  | inl n ↦
      subst (λ e. Consistent (maintain_on e s (r ∷ rs))) (sym n)
        (maintain_on-Consistent (pass s r) rs (pass-Consistent s r n c))
  | inr (x, e) ↦ subst (λ e. Consistent (maintain_on e s (r ∷ rs))) (sym e) c
]

-- Whatever the loop meets: the request to bring the interface down is made exactly when the lease has
-- expired, which happens only while rebinding, and the request to release the lease is made exactly
-- when the loop was stopped; either may succeed or fail.
pub maintain-Consistent : (l : Lease) (rs : List Round) → Consistent (maintain l rs)
unfolding maintain
maintain-Consistent l rs = maintain_on-Consistent (started l) rs (ground arith)

-- A pass leaves the lease, or takes the one that the server has granted.
in_phase_lease :
    (p : Phase) (o : Option Ack) (r : Round) (s : Maintained)
    → ((in_phase p o r s).lease ≡ s.lease)
      ⊎ ((a : Ack) × (o ≡ some a) × ((in_phase p o r s).lease ≡ commit a r.clock))
unfolding in_phase granted renewal_failed rebinding_failed select
in_phase_lease bound o r s = inl (ground arith)
in_phase_lease renewing none r s = inl (ground arith)
in_phase_lease renewing (some a) r s = inr (a, refl, ground arith)
in_phase_lease rebinding none r s = inl (ground arith)
in_phase_lease rebinding (some a) r s = inr (a, refl, ground arith)

pass_lease :
    (s : Maintained) (r : Round)
    → ((pass s r).lease ≡ s.lease)
      ⊎ ((a : Ack) × (r.reply ≡ some a) × ((pass s r).lease ≡ commit a r.clock))
unfolding pass
pass_lease s r = elim (in_phase_lease s.phase r.reply r (awake s)) [
  | inl same ↦ inl (ground arith)
  | inr (a, e, got) ↦ elim (Bool-cases r.link_exists) [
    | inl there ↦ inr (a, e, ground arith)
    | inr gone ↦ inl (ground arith)
  ]
]

-- What the server grants, if anything, is sane.
abbrev pub SaneReply : Option Ack → Type 0
SaneReply none = Unit
SaneReply (some a) = IsSane a

SaneReply-IsSane : (o : Option Ack) {a : Ack} → SaneReply o → o ≡ some a → IsSane a
SaneReply-IsSane none h e = cc
SaneReply-IsSane (some b) h e = let same : b ≡ _ = cc in subst IsSane same h

pass-Ordered :
    (s : Maintained) (r : Round) → SaneReply r.reply → Ordered s.lease → Ordered (pass s r).lease
pass-Ordered s r h o = elim (pass_lease s r) [
  | inl same ↦ subst Ordered (sym same) o
  | inr (a, e, got) ↦
      subst Ordered (sym got) (commit-Ordered a r.clock (SaneReply-IsSane r.reply h e))
]

maintain_on-Ordered :
    (e : Option Ending) (s : Maintained) (rs : List Round)
    → All (λ (r : Round). SaneReply r.reply) rs
    → Ordered s.lease
    → Ordered (maintain_on e s rs).lease
unfolding maintain_on
maintain_on-Ordered none s [] h o = o
maintain_on-Ordered (some x) s [] h o = o
maintain_on-Ordered (some x) s (r ∷ rs) h o = o
maintain_on-Ordered none s (r ∷ rs) (h, hs) o =
    maintain_on-Ordered (pass s r).ending (pass s r) rs hs (pass-Ordered s r h o)

-- For a first acknowledgement and replies with a lease below the length at which 85 times it overflows,
-- and with renewal and rebinding times that, where they are given, are in order with each other or with
-- the default of the other, and no later than the end: the loop keeps renewal no later than rebinding,
-- and rebinding no later than the end of the lease; nothing is asked of the times that the code sets by
-- default.
pub maintain-Ordered :
    (a : Ack) (now : ℕ) (rs : List Round)
    → IsSane a
    → All (λ (r : Round). SaneReply r.reply) rs
    → Ordered (maintain (commit a now) rs).lease
unfolding maintain
maintain-Ordered a now rs s h = maintain_on-Ordered none _ rs h (commit-Ordered a now s)
