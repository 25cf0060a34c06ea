-- ===== src/Dhcp/Lease/Ended.antt =====
-- How the loop that maintains a lease ends: by expiry, or by the stop.
use containerz_plugin.Common.{
  ◌≡◌, ◌⊎◌, inl, inr, refl, sym, ap, subst, ◌∙◌, true, List, [], ◌∷◌, Option, none, some, Any,
  arith, ltℤ, pos, Option-cases,
}
use containerz_plugin.Dhcp.Lease.{
  Ack, Lease, Round, Maintained, Phase, bound, renewing, stop_asked, Ending, link_gone, expired,
  stopped, select, granted, renewal_failed, rebinding_failed, in_phase, awake, pass, maintain_on,
  maintain,
}

-- A pass without an answer, at a time behind the end of the lease.
abbrev pub Lapsed : Lease → Round → Type 0
Lapsed l r = (r.reply ≡ none) × (ltℤ l.expire_time (pos r.clock) ≡ true)

in_phase-Lapsed :
    (p : Phase) (o : Option Ack) (r : Round) (s : Maintained)
    → s.ending ≡ none
    → (in_phase p o r s).ending ≡ some expired
    → (o ≡ none) × (ltℤ (in_phase p o r s).lease.expire_time (pos r.clock) ≡ true)
unfolding in_phase granted renewal_failed rebinding_failed select
in_phase-Lapsed p o r s n e = ground arith

pub maintain_on_over :
    (e : Ending) (s : Maintained) (rs : List Round) → maintain_on (some e) s rs ≡ s
unfolding maintain_on
maintain_on_over e s [] = refl
maintain_on_over e s (r ∷ rs) = refl

pass-Lapsed :
    (s : Maintained) (r : Round)
    → s.ending ≡ none
    → (pass s r).ending ≡ some expired
    → Lapsed (pass s r).lease r
unfolding pass
pass-Lapsed s r n e = ground (arith, in_phase-Lapsed s.phase r.reply r (awake s) n)

maintain_on-Lapsed :
    (s : Maintained) (rs : List Round)
    → s.ending ≡ none
    → (maintain_on none s rs).ending ≡ some expired
    → Any (Lapsed (maintain_on none s rs).lease) rs
unfolding maintain_on
maintain_on-Lapsed s [] n e = cc
maintain_on-Lapsed s (r ∷ rs) n e = elim (Option-cases (pass s r).ending) [
  | inl going ↦
      let e' : (maintain_on none (pass s r) rs).ending ≡ some expired =
        subst (λ x. (maintain_on x (pass s r) rs).ending ≡ some expired) going e in
      subst (λ x. Any (Lapsed (maintain_on x (pass s r) rs).lease) (r ∷ rs)) (sym going)
        (inr (maintain_on-Lapsed (pass s r) rs going e'))
  | inr (x, over) ↦
      let final = maintain_on_over x (pass s r) rs in
      let e' : (pass s r).ending ≡ some expired =
        sym (ap (λ (m : Maintained). m.ending) final)
        ∙ subst (λ y. (maintain_on y (pass s r) rs).ending ≡ some expired) over e in
      subst (λ y. Any (Lapsed (maintain_on y (pass s r) rs).lease) (r ∷ rs)) (sym over)
        (subst (λ (m : Maintained). Any (Lapsed m.lease) (r ∷ rs)) (sym final)
          (inl (pass-Lapsed s r n e')))
]

-- If the lease expires, some pass of the loop had no answer, at a time behind the end of the lease
-- that the loop then held.
pub maintain-Lapsed :
    (l : Lease) (rs : List Round)
    → (maintain l rs).ending ≡ some expired
    → Any (Lapsed (maintain l rs).lease) rs
unfolding maintain
maintain-Lapsed l rs e = maintain_on-Lapsed _ rs refl e

-- The loop has returned because of the stop, behind a release that succeeded or failed as one of the
-- rounds says, or on its own.
abbrev pub Returned : Round → Round → Maintained → Type 0
Returned r1 r2 s =
    ((s.ending ≡ some stopped) × ((s.release ≡ some r1.released) ⊎ (s.release ≡ some r2.released)))
    ⊎ ((s.ending ≡ some link_gone) ⊎ (s.ending ≡ some expired))

pass_stopped :
    (s : Maintained) (r : Round)
    → s.ending ≡ none
    → r.signal ≡ stop_asked
    → Returned r r (pass s r)
      ⊎ (((pass s r).ending ≡ none) × (s.phase ≡ bound) × ((pass s r).phase ≡ renewing))
unfolding pass in_phase granted renewal_failed rebinding_failed select
pass_stopped s r n h = ground arith

maintain_on_ended :
    (r1 r2 : Round) (s : Maintained) (rs : List Round)
    → Returned r1 r2 s
    → Returned r1 r2 (maintain_on s.ending s rs)
maintain_on_ended r1 r2 s rs (inl (e, sent)) =
    subst (λ y. Returned r1 r2 (maintain_on y s rs)) (sym e)
      (subst (Returned r1 r2) (sym (maintain_on_over stopped s rs)) (inl (e, sent)))
maintain_on_ended r1 r2 s rs (inr (inl e)) =
    subst (λ y. Returned r1 r2 (maintain_on y s rs)) (sym e)
      (subst (Returned r1 r2) (sym (maintain_on_over link_gone s rs)) (inr (inl e)))
maintain_on_ended r1 r2 s rs (inr (inr e)) =
    subst (λ y. Returned r1 r2 (maintain_on y s rs)) (sym e)
      (subst (Returned r1 r2) (sym (maintain_on_over expired s rs)) (inr (inr e)))

-- A loop that has not returned does so within two passes that find the stop channel closed: it asks
-- for the release, unless the link is gone or the lease expires.
pub maintain_on-Returned :
    (s : Maintained) (r1 r2 : Round) (rs : List Round)
    → s.ending ≡ none
    → r1.signal ≡ stop_asked
    → r2.signal ≡ stop_asked
    → Returned r1 r2 (maintain_on none s (r1 ∷ r2 ∷ rs))
maintain_on-Returned s r1 r2 rs n h1 h2 =
    unfold maintain_on in
    elim (pass_stopped s r1 n h1) [
      | inl over ↦ maintain_on_ended r1 r2 (pass s r1) (r2 ∷ rs) (first_of (pass s r1) over)
      | inr (going, _, now_renewing) ↦
          subst (λ y. Returned r1 r2 (maintain_on y (pass s r1) (r2 ∷ rs))) (sym going)
            (elim (pass_stopped (pass s r1) r2 going h2) [
              | inl over ↦
                  maintain_on_ended r1 r2 (pass (pass s r1) r2) rs
                    (second_of (pass (pass s r1) r2) over)
              | inr (_, was_bound, _) ↦ absurd (renewing_not_bound (sym now_renewing ∙ was_bound))
            ])
    ]
  where
    first_of : (t : Maintained) → Returned r1 r1 t → Returned r1 r2 t
    first_of t (inl (e, inl b)) = inl (e, inl b)
    first_of t (inl (e, inr b)) = inl (e, inl b)
    first_of t (inr o) = inr o

    second_of : (t : Maintained) → Returned r2 r2 t → Returned r1 r2 t
    second_of t (inl (e, inl b)) = inl (e, inr b)
    second_of t (inl (e, inr b)) = inl (e, inr b)
    second_of t (inr o) = inr o

    renewing_not_bound : Path Phase renewing bound → ⊥
    renewing_not_bound e = cc
