-- ===== src/Tuning/Attempted.antt =====
-- What the attempts of `restoreBackup` come to.
use containerz_plugin.Common.{
  ◌≡◌, ◌⊎◌, inl, inr, refl, sym, ap, ◌∙◌, Bool, true, false, [], Option, none, some, if◌then◌else◌,
  ℤ, ◌then◌, asked, Text, text_eq, arith, Bool-cases,
}
use containerz_plugin.Tuning.Config.{TuningConf, request_failed, restore_failed}
use containerz_plugin.Tuning.{
  Mac, Attrs, Change, set_mac, set_promisc, set_mtu, set_allmulti, set_tx_q_len, Saved, absent,
  garbled, holding, Host, is_zero, where_tuned, backup_of, change_attr, change_mac_addr, gathered,
  attempt, promisc_of, allmulti_of, tx_q_len_of, mtu_of, mac_of, restore_attrs, finish,
  restore_link, restore_from, restore_backup,
}
use containerz_plugin.Tuning.Faithful.{
  changed, Answers, met, refused, Removes, removed, kept, IsFaithful, Restores, back, again, IsMac,
  IsCodec, Agrees, Agrees-changed,
}

module _ {S : Type 0} (host : Host S) (w : IsFaithful host) (i p : Text) (saved : Saved) where
  -- Behind some attempts: unless one of them failed, the attributes have a property.
  pub record Gathered (P : Attrs → Type 0) (q : S × Bool) : Type 0 where
    pub now : Attrs
    pub there : host.attrs q.0 i ≡ some now
    pub holds : host.saved q.0 p ≡ saved
    pub fine : q.1 ≡ false → P now

  module _ (parse_mac : Text → Option Mac) (P P' : Attrs → Type 0) where
    skipped :
        (q : S × Bool)
        → Gathered P q
        → ((x : Attrs) → P x → P' x)
        → Gathered P' (attempt host parse_mac none q)
    skipped (s, bad) g h = record {
      now = g.now;
      there = g.there;
      holds = g.holds;
      fine = λ e. h g.now (g.fine e);
    }

    gathered_answer :
        (h : Change) (s : S) (bad : Bool) (r : S × Bool)
        → Answers host i p h s r
        → Gathered P (s, bad)
        → ((x : Attrs) → P x → P' (changed h x))
        → Gathered P' (gathered host parse_mac bad (asked request_failed r))
    gathered_answer h s bad (s', true) (met sets holds') g k = record {
      now = changed h g.now;
      there = sets g.now g.there;
      holds = holds' ∙ g.holds;
      fine = λ e. k g.now (g.fine e);
    }
    gathered_answer h s bad (s', false) (refused u) g k = record {
      now = g.now;
      there = u.attrs ∙ g.there;
      holds = u.saved ∙ g.holds;
      fine = λ e. absurd (true_or_false e);
    }
      where
        true_or_false : true ≡ false → ⊥
        true_or_false e = cc

    attempted :
        (h : Change) (q : S × Bool)
        → Gathered P q
        → ((x : Attrs) → P x → P' (changed h x))
        → Gathered P' (attempt host parse_mac (some (change_attr host i h)) q)
    unfolding change_attr
    attempted h (s, bad) g k =
        rw (g.there, change_attr)
          (gathered_answer h s bad (host.change s i h) (w.changes i p h s) g k)

module _ {S : Type 0} (host : Host S) (w : IsFaithful host) (i p : Text)
    (parse_mac : Text → Option Mac) (print_mac : Mac → Text) (codec : IsCodec parse_mac print_mac)
    (c : TuningConf) (a : Attrs) (valid : IsMac a.mac) (mtu_set : is_zero a.mtu ≡ false)
    (saved : Saved) where
  abbrev pub P0 : Attrs → Type 0
  P0 x = Agrees c a x

  abbrev pub P1 : Attrs → Type 0
  P1 x = Agrees c a x × (x.mtu ≡ a.mtu)

  abbrev pub P2 : Attrs → Type 0
  P2 x = Agrees c a x × (x.mtu ≡ a.mtu) × (x.mac ≡ a.mac)

  abbrev pub P3 : Attrs → Type 0
  P3 x = Agrees c a x × (x.mtu ≡ a.mtu) × (x.mac ≡ a.mac) × (x.promisc ≡ a.promisc)

  abbrev pub P4 : Attrs → Type 0
  P4 x =
      Agrees c a x
      × (x.mtu ≡ a.mtu)
      × (x.mac ≡ a.mac)
      × (x.promisc ≡ a.promisc)
      × (x.allmulti ≡ a.allmulti)

  -- Each attempt restores its attribute, if it is tuned; otherwise it has not changed.
  mtu_back :
      (q : S × Bool)
      → Gathered host w i p saved P0 q
      → Gathered host w i p saved P1
          (attempt host parse_mac (mtu_of host parse_mac i (backup_of print_mac c a).mtu) q)
  unfolding backup_of
  mtu_back q g = elim (Bool-cases (is_zero c.mtu)) [
    | inl e ↦ rw e (skipped host w i p saved parse_mac P0 P1 q g (λ x h. (h, h.mtu e)))
    | inr e ↦
        rw (e, mtu_set)
          (attempted host w i p saved parse_mac P0 P1 (set_mtu a.mtu) q g
            (λ x h. (Agrees-changed c a x (set_mtu a.mtu) e h, refl)))
  ]

  mac_back :
      (q : S × Bool)
      → Gathered host w i p saved P1 q
      → Gathered host w i p saved P2
          (attempt host parse_mac (mac_of host parse_mac i (backup_of print_mac c a).mac) q)
  unfolding backup_of text_eq change_mac_addr
  mac_back q g = elim (Bool-cases (text_eq c.mac [])) [
    | inl e ↦ rw e (skipped host w i p saved parse_mac P1 P2 q g (λ x h. (h.0, h.1, h.0.mac e)))
    | inr e ↦
        rw (e, codec.not_empty a.mac valid)
          (rw (codec.reads_back a.mac valid) (
            attempted host w i p saved parse_mac P1 P2 (set_mac a.mac) q g
              (λ x h. (Agrees-changed c a x (set_mac a.mac) e h.0, h.1, refl))))
  ]

  promisc_back :
      (b : Bool) (q : S × Bool)
      → c.promisc ≡ b
      → Gathered host w i p saved P2 q
      → Gathered host w i p saved P3 (
          attempt host parse_mac
            (promisc_of host parse_mac i (if b then some a.promisc else none))
            q)
  promisc_back false q e g =
      skipped host w i p saved parse_mac P2 P3 q g (λ x h. (h.0, h.1, h.2, h.0.promisc e))
  promisc_back true q e g =
      attempted host w i p saved parse_mac P2 P3 (set_promisc a.promisc) q g
        (λ x h. (Agrees-changed c a x (set_promisc a.promisc) e h.0, h.1, h.2, refl))

  allmulti_back :
      (o : Option Bool) (q : S × Bool)
      → c.allmulti ≡ o
      → Gathered host w i p saved P3 q
      → Gathered host w i p saved P4
          (attempt host parse_mac (allmulti_of host parse_mac i (where_tuned o a.allmulti)) q)
  allmulti_back none q e g =
      skipped host w i p saved parse_mac P3 P4 q g (λ x h. (h.0, h.1, h.2, h.3, h.0.allmulti e))
  allmulti_back (some b) q e g =
      attempted host w i p saved parse_mac P3 P4 (set_allmulti a.allmulti) q g (λ x h.
        (Agrees-changed c a x (set_allmulti a.allmulti) (rw e refl) h.0, h.1, h.2, h.3, refl))

  all_back :
      (x : Attrs)
      → x.mtu ≡ a.mtu
      → x.mac ≡ a.mac
      → x.promisc ≡ a.promisc
      → x.allmulti ≡ a.allmulti
      → x.tx_q_len ≡ a.tx_q_len
      → x ≡ a
  all_back x e1 e2 e3 e4 e5 = ground arith

  tx_q_len_back :
      (o : Option ℤ) (q : S × Bool)
      → c.tx_q_len ≡ o
      → Gathered host w i p saved P4 q
      → Gathered host w i p saved
          (λ x. x ≡ a)
          (attempt host parse_mac (tx_q_len_of host parse_mac i (where_tuned o a.tx_q_len)) q)
  tx_q_len_back none q e g =
      skipped host w i p saved parse_mac P4 (λ x. x ≡ a) q g
        (λ x h. all_back x h.1 h.2 h.3 h.4 (h.0.tx_q_len e))
  tx_q_len_back (some n) q e g =
      attempted host w i p saved parse_mac P4 (λ x. x ≡ a) (set_tx_q_len a.tx_q_len) q g
        (λ x h. all_back (changed (set_tx_q_len a.tx_q_len) x) h.1 h.2 h.3 h.4 refl)

  restore_attrs-Gathered :
      (s : S)
      → Gathered host w i p saved P0 (s, false)
      → Gathered host w i p saved
          (λ x. x ≡ a)
          (restore_attrs host parse_mac i (backup_of print_mac c a) s)
  unfolding restore_attrs backup_of
  restore_attrs-Gathered s g =
      tx_q_len_back c.tx_q_len _ refl (
        allmulti_back c.allmulti _ refl (promisc_back c.promisc _ refl (mac_back _ (mtu_back _ g))))

  finish-Restores :
      (s : S) (q : S × Bool)
      → host.saved s p ≡ saved
      → Gathered host w i p saved (λ x. x ≡ a) q
      → Restores host i p a s (finish host parse_mac p q)
  finish-Restores s (s', true) e g = again (g.holds ∙ sym e)
  finish-Restores s (s', false) e g = ended (host.remove s' p) (w.removes i p s')
    where
      now : host.attrs s' i ≡ some a
      now = g.there ∙ ap some (g.fine refl)

      ended :
          (r : S × Bool) → Removes host i p s' r → Restores host i p a s (asked restore_failed r)
      ended (t, true) (removed same gone) = back (same ∙ now)
      ended (t, false) (kept u) = again (u.saved ∙ g.holds ∙ sym e)

  pub restore_backup-Restores :
      (s : S) (x : Attrs)
      → saved ≡ holding (backup_of print_mac c a)
      → host.saved s p ≡ saved
      → host.attrs s i ≡ some x
      → Agrees c a x
      → Restores host i p a s (restore_backup host parse_mac i p s)
  unfolding restore_backup restore_from restore_link
  restore_backup-Restores s x b h there agrees =
      rw (h ∙ b, restore_backup)
        (rw (there, restore_link)
          (finish-Restores s (restore_attrs host parse_mac i (backup_of print_mac c a) s) h (
            restore_attrs-Gathered s
              (record { now = x; there = there; holds = h; fine = λ e. agrees }))))

  pub restore_nothing :
      (s : S)
      → (host.saved s p ≡ absent) ⊎ (host.saved s p ≡ garbled)
      → host.attrs s i ≡ some a
      → Restores host i p a s (restore_backup host parse_mac i p s)
  unfolding restore_backup restore_from
  restore_nothing s (inl h) there = rw (h, restore_backup) (back there)
  restore_nothing s (inr h) there = rw (h, restore_backup) (back there)
