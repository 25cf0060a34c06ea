-- ===== src/Tuning/Kept.antt =====
-- What the changes of `cmdAdd` preserve.
use containerz_plugin.Common.{
  ◌≡◌, refl, ◌∙◌, Bool, true, false, not, [], Option, none, some, if◌then◌else◌, ◌then◌, then-keeps,
  asked, when, with_found, given, Text, text_eq,
}
use containerz_plugin.Tuning.Config.{TuningConf, bad_mac, request_failed}
use containerz_plugin.Tuning.{
  Mac, Attrs, Change, set_mac, set_promisc, set_mtu, set_allmulti, set_tx_q_len, Saved, Host,
  Outcome, is_zero, is_given, change_attr, change_mac_addr, change_all,
}
use containerz_plugin.Tuning.Faithful.{
  changed, Answers, met, refused, IsFaithful, Agrees, Tuned, Agrees-changed,
}

module _ {S : Type 0} (host : Host S) (w : IsFaithful host) (i p : Text) (c : TuningConf)
    (a : Attrs) (saved : Saved) where
  -- The interface has the attributes of `a`, but for those that the configuration tunes, and the path
  -- holds what it held.
  pub record Kept (s : S) : Type 0 where
    pub now : Attrs
    pub there : host.attrs s i ≡ some now
    pub agrees : Agrees c a now
    pub holds : host.saved s p ≡ saved

  abbrev pub Keeps : (S → Outcome S) → Type 0
  Keeps f = (s : S) → Kept s → Kept (f s).0

  then-Keeps : (f g : S → Outcome S) → Keeps f → Keeps g → Keeps (λ s. f s then g)
  then-Keeps f g hf hg s k = then-keeps Kept (f s) g (hf s k) hg

  answered :
      (h : Change) (s : S) (r : S × Bool)
      → Tuned c h
      → Answers host i p h s r
      → Kept s
      → Kept (asked request_failed r).0
  answered h s (s', true) t (met sets holds') k = record {
    now = changed h k.now;
    there = sets k.now k.there;
    agrees = Agrees-changed c a k.now h t k.agrees;
    holds = holds' ∙ k.holds;
  }
  answered h s (s', false) t (refused u) k = record {
    now = k.now;
    there = u.attrs ∙ k.there;
    agrees = k.agrees;
    holds = u.saved ∙ k.holds;
  }

  change_attr-Keeps : (h : Change) → Tuned c h → Keeps (change_attr host i h)
  unfolding change_attr
  change_attr-Keeps h t s k =
      rw (k.there, change_attr) (answered h s (host.change s i h) t (w.changes i p h s) k)

  module _ (parse_mac : Text → Option Mac) where
    change_mac_addr-Keeps :
        text_eq c.mac [] ≡ false → Keeps (change_mac_addr host parse_mac i c.mac)
    unfolding change_mac_addr
    change_mac_addr-Keeps t s k = parsed (parse_mac c.mac)
      where
        parsed :
            (o : Option Mac)
            → Kept (with_found bad_mac o (λ (m : Mac). change_attr host i (set_mac m)) s).0
        parsed none = k
        parsed (some m) = change_attr-Keeps (set_mac m) t s k

    when-Keeps : (b : Bool) (f : S → Outcome S) → (b ≡ true → Keeps f) → Keeps (when b f)
    when-Keeps true f h = h refl
    when-Keeps false f h = λ s k. k

    given-Keeps :
        {A : Type 0} (o : Option A) (f : A → S → Outcome S)
        → ((x : A) → o ≡ some x → Keeps (f x))
        → Keeps (given o f)
    given-Keeps (some x) f h = h x refl
    given-Keeps none f h = λ s k. k

    is_off : (b : Bool) → not b ≡ true → b ≡ false
    is_off true h = cc
    is_off false h = refl

    given_lem : {A : Type 0} (o : Option A) (x : A) → o ≡ some x → is_given o ≡ true
    given_lem o x e = rw e refl

    pub change_all-Keeps : Keeps (change_all host parse_mac c i)
    unfolding change_all
    change_all-Keeps =
        let mac = when (not (text_eq c.mac [])) (change_mac_addr host parse_mac i c.mac) in
        let promisc = when c.promisc (change_attr host i (set_promisc true)) in
        let mtu = when (not (is_zero c.mtu)) (change_attr host i (set_mtu c.mtu)) in
        let allmulti = given c.allmulti (λ b. change_attr host i (set_allmulti b)) in
        let tx = given c.tx_q_len (λ n. change_attr host i (set_tx_q_len n)) in
        then-Keeps (λ s. mac s then promisc then mtu then allmulti) tx
          (then-Keeps (λ s. mac s then promisc then mtu) allmulti
            (then-Keeps (λ s. mac s then promisc) mtu
              (then-Keeps mac promisc
                (when-Keeps (not (text_eq c.mac [])) _
                  (λ h. change_mac_addr-Keeps (is_off (text_eq c.mac []) h)))
                (when-Keeps c.promisc _ (λ h. change_attr-Keeps (set_promisc true) h)))
              (when-Keeps (not (is_zero c.mtu)) _
                (λ h. change_attr-Keeps (set_mtu c.mtu) (is_off (is_zero c.mtu) h))))
            (given-Keeps c.allmulti _
              (λ b e. change_attr-Keeps (set_allmulti b) (given_lem c.allmulti b e))))
          (given-Keeps c.tx_q_len _
            (λ n e. change_attr-Keeps (set_tx_q_len n) (given_lem c.tx_q_len n e)))
