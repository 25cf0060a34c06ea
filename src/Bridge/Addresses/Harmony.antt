-- ===== src/Bridge/Addresses/Harmony.antt =====
-- The addresses of the bridge: none is in the way of another.
use mathlib.Core.List.{Memᴰ}
use mathlib.Core.List.Memᴰ.{head, tail}
use containerz_plugin.Common.{
  ℕ, ◌≡◌, ◌≢◌, subst, refl, sym, ap, ◌∙◌, Bool, false, ◌||◌, List, [], ◌∷◌, Option, none, some, ok,
  err, ◌then◌, Text, text_eq, text_eq_iff, ◌⊎◌, inl, inr, arith, Bool-cases,
}
use containerz_plugin.Net.{IpNet, net_contains}
use containerz_plugin.Bridge.Addresses.{
  Family, family_v4, family_v6, Errno, enoent, eexist, other, Link, Netlink, AddrError, no_delete,
  no_mac, Outcome, conflicts, answered, added, delete_addr, add_addr, ensure_among, ensure_listed,
  ensure_addr,
}

module _ {S : Type 0} (netlink : Netlink S) (print_net : IpNet → Text) (br : Link) where
  -- An address of the bridge.
  abbrev pub Has : Family → S → IpNet → Type 0
  Has family s a = Memᴰ a (netlink.addr_list s br family).0

  abbrev pub Alike : IpNet → IpNet → Type 0
  Alike a b = print_net a ≡ print_net b

  -- No address of the bridge is in the way of one that is printed in another way.
  abbrev pub IsHarmonious : Family → S → Type 0
  IsHarmonious family s =
      (a b : IpNet) → Has family s a → Has family s b → Alike a b ⊎ (conflicts family a b ≡ false)

  abbrev pub Unchanged : Family → S → S → Type 0
  Unchanged family s s' = (netlink.addr_list s' br family).0 ≡ (netlink.addr_list s br family).0

  -- Deleting takes away the addresses that are printed like this one, or nothing.
  pub data Deletes (family : Family) (n : IpNet) (s : S) : S × Option Errno → Type 0 where
    deleted :
        {s' : S}
        → ((a : IpNet) → Has family s' a → Has family s a × ¬ Alike a n)
        → ((a : IpNet) → Has family s a → ¬ Alike a n → Has family s' a)
        → Deletes family n s (s', none)
    undeleted : {s' : S} {e : Errno} → Unchanged family s s' → Deletes family n s (s', some e)

  pub data Adds (family : Family) (n : IpNet) (s : S) : S × Option Errno → Type 0 where
    new :
        {s' : S}
        → ((a : IpNet) → Has family s' a → (a ≡ n) ⊎ Has family s a)
        → Has family s' n
        → Adds family n s (s', none)
    present : {s' : S} → Unchanged family s s' → Has family s' n → Adds family n s (s', some eexist)
    refused :
        {s' : S} {e : Errno} → Unchanged family s s' → e ≢ eexist → Adds family n s (s', some e)

  -- What the system does with the requests for the addresses of the bridge, while no other program
  -- makes any.
  pub record IsFaithful (family : Family) : Type 0 where
    pub deletes : (s : S) (n : IpNet) → Deletes family n s (netlink.addr_del s br n)
    pub adds : (s : S) (n : IpNet) → Adds family n s (netlink.addr_add s br n)
    pub sets : (s : S) (m : List ℕ) → Unchanged family s (netlink.set_hardware_addr s br m).0

  -- How `ensureAddr` ends: the addresses are in harmony, and where it succeeds the address is there.
  pub data Settled (family : Family) (n : IpNet) : Outcome S → Type 0 where
    settled :
        {s : S} {a : IpNet}
        → IsHarmonious family s
        → Has family s a
        → Alike a n
        → Settled family n (s, ok tt)
    failed : {s : S} {e : AddrError} → IsHarmonious family s → Settled family n (s, err e)

  conflicts_comm : (family : Family) (a b : IpNet) → conflicts family a b ≡ conflicts family b a
  unfolding conflicts
  conflicts_comm family_v4 a b = refl
  conflicts_comm family_v6 a b = or_comm (net_contains a b.ip) (net_contains b a.ip)
    where
      or_comm : (x y : Bool) → (x || y) ≡ (y || x)
      or_comm x y = ground arith

  same-IsHarmonious :
      (family : Family) (s s' : S)
      → Unchanged family s s'
      → IsHarmonious family s
      → IsHarmonious family s'
  same-IsHarmonious family s s' e h =
      λ a b x y. h a b (subst (λ l. Memᴰ a l) e x) (subst (λ l. Memᴰ b l) e y)

  -- The new address is in harmony with those that do not conflict with it.
  joined-IsHarmonious :
      (family : Family) (n : IpNet) (s s' : S)
      → ((a : IpNet) → Has family s' a → (a ≡ n) ⊎ Has family s a)
      → ((a : IpNet) → Has family s a → conflicts family a n ≡ false)
      → IsHarmonious family s
      → IsHarmonious family s'
  joined-IsHarmonious family n s s' from free h a b x y = pairs (from a x) (from b y)
    where
      pairs :
          (a ≡ n) ⊎ Has family s a
          → (b ≡ n) ⊎ Has family s b
          → Alike a b ⊎ (conflicts family a b ≡ false)
      pairs (inl e) (inl f) = inl (ap print_net (e ∙ sym f))
      pairs (inl e) (inr q) =
          inr (ap (λ t. conflicts family t b) e ∙ conflicts_comm family n b ∙ free b q)
      pairs (inr p) (inl f) = inr (ap (conflicts family a) f ∙ free a p)
      pairs (inr p) (inr q) = h a b p q

  -- Setting the hardware address leaves the addresses.
  with_mac-Settled :
      (family : Family) (n : IpNet) (s : S) (r : S × Option Errno)
      → Unchanged family s r.0
      → IsHarmonious family s
      → Has family s n
      → Settled family n (answered no_mac r)
  with_mac-Settled family n s (s', none) e h i =
      settled (same-IsHarmonious family s s' e h) (subst (λ l. Memᴰ n l) (sym e) i) refl
  with_mac-Settled family n s (s', some _) e h i = failed (same-IsHarmonious family s s' e h)

  module _ (family : Family) (faithful : IsFaithful family) where
    add_addr-Settled :
        (n : IpNet) (s : S)
        → IsHarmonious family s
        → ((a : IpNet) → Has family s a → conflicts family a n ≡ false)
        → Settled family n (add_addr netlink br n s)
    unfolding add_addr
    add_addr-Settled n s h free = from (netlink.addr_add s br n) (faithful.adds s n)
      where
        from :
            (r : S × Option Errno)
            → Adds family n s r
            → Settled family n
                (added r then λ s'. answered no_mac (netlink.set_hardware_addr s' br br.mac))
        from (s', none) (new f i) =
            with_mac-Settled family n s' (netlink.set_hardware_addr s' br br.mac)
              (faithful.sets s' br.mac) (joined-IsHarmonious family n s s' f free h) i
        from (s', some eexist) (present e i) =
            with_mac-Settled family n s' (netlink.set_hardware_addr s' br br.mac)
              (faithful.sets s' br.mac) (same-IsHarmonious family s s' e h) i
        from (s', some eexist) (refused e d) = absurd (d refl)
        from (s', some enoent) (refused e d) = failed (same-IsHarmonious family s s' e h)
        from (s', some other) (refused e d) = failed (same-IsHarmonious family s s' e h)

    -- Behind a deletion, none of the addresses that were looked at conflicts.
    deleted-Settled :
        (n a : IpNet) (l : List IpNet) (s : S) (r : S × Option Errno) (k : S → Outcome S)
        → ¬ Alike a n
        → Deletes family a s r
        → IsHarmonious family s
        → ((b : IpNet) → Has family s b → Memᴰ b (a ∷ l) ⊎ (conflicts family b n ≡ false))
        → ((b : IpNet) → Memᴰ b (a ∷ l) → Alike b n → Has family s b)
        → ((s' : S)
            → IsHarmonious family s'
            → ((b : IpNet) → Has family s' b → Memᴰ b l ⊎ (conflicts family b n ≡ false))
            → ((b : IpNet) → Memᴰ b l → Alike b n → Has family s' b)
            → Settled family n (k s'))
        → Settled family n (answered no_delete r then k)
    deleted-Settled n a l s (s', some _) k d (undeleted e) h left there next =
        failed (same-IsHarmonious family s s' e h)
    deleted-Settled n a l s (s', none) k d (deleted gone stays) h left there next =
        next s' (λ b c x y. h b c (gone b x).0 (gone c y).0)
          (λ b x. rest b (left b (gone b x).0) (gone b x).1)
          (λ b m i. stays b (there b (tail m) i) (λ j. d (sym j ∙ i)))
      where
        rest :
            (b : IpNet)
            → Memᴰ b (a ∷ l) ⊎ (conflicts family b n ≡ false)
            → ¬ Alike b a
            → Memᴰ b l ⊎ (conflicts family b n ≡ false)
        rest b (inl (head e)) o = absurd (o (ap print_net e))
        rest b (inl (tail m)) o = inl m
        rest b (inr f) o = inr f

    -- The loop: the addresses that are left to look at are the only ones that may conflict.
    ensure_among-Settled :
        (n : IpNet) (force : Bool) (l : List IpNet) (s : S)
        → IsHarmonious family s
        → ((a : IpNet) → Has family s a → Memᴰ a l ⊎ (conflicts family a n ≡ false))
        → ((a : IpNet) → Memᴰ a l → Alike a n → Has family s a)
        → Settled family n (ensure_among netlink print_net br family n force l s)
    unfolding ensure_among delete_addr
    ensure_among-Settled n force [] s h left there =
        add_addr-Settled n s h (λ a x. none_left a (left a x))
      where
        none_left :
            (a : IpNet) → Memᴰ a [] ⊎ (conflicts family a n ≡ false) → conflicts family a n ≡ false
        none_left a (inl m) = elim m [ ]
        none_left a (inr e) = e
    ensure_among-Settled n force (a ∷ l) s h left there =
        elim (Bool-cases (text_eq (print_net a) (print_net n))) [
          | inl e ↦
              let i = (text_eq_iff (print_net a) (print_net n)).0 e in
              rw (e, ensure_among) (settled h (there a (head refl) i) i)
          | inr e ↦ elim (Bool-cases (conflicts family a n)) [
            | inl c ↦ elim (Bool-cases force) [
              | inl f ↦
                  rw (e, c, f, ensure_among)
                    (deleted-Settled n a l s (netlink.addr_del s br a)
                      (ensure_among netlink print_net br family n force l) (unlike e)
                      (faithful.deletes s a) h left there (ensure_among-Settled n force l))
              | inr f ↦ rw (e, c, f, ensure_among) (failed h)
            ]
            | inr c ↦
                rw (e, c, ensure_among)
                  (ensure_among-Settled n force l s h (λ b x. others b c (left b x))
                    (λ b m. there b (tail m)))
          ]
        ]
      where
        unlike : text_eq (print_net a) (print_net n) ≡ false → ¬ Alike a n
        unlike e i = let t = (text_eq_iff (print_net a) (print_net n)).1 i in cc

        others :
            (b : IpNet)
            → conflicts family a n ≡ false
            → Memᴰ b (a ∷ l) ⊎ (conflicts family b n ≡ false)
            → Memᴰ b l ⊎ (conflicts family b n ≡ false)
        others b c (inl (head e)) = inr (ap (λ t. conflicts family t n) e ∙ c)
        others b c (inl (tail m)) = inl m
        others b c (inr f) = inr f

-- `ensureAddr`, where the system does what it is asked for and no address of the bridge is in the way
-- of another: however the call ends, none is in the way of another; where it succeeds, the bridge has
-- an address that is printed like the one asked for.
pub ensure_addr-IsHarmonious :
    {S : Type 0} (netlink : Netlink S) (print_net : IpNet → Text) (br : Link) (family : Family)
    → IsFaithful netlink print_net br family
    → (n : IpNet) (force : Bool) (s : S) → IsHarmonious netlink print_net br family s
    → Settled netlink print_net br family n (ensure_addr netlink print_net br family n force s)
unfolding ensure_addr ensure_listed
ensure_addr-IsHarmonious netlink print_net br family faithful n force s h =
    from (netlink.addr_list s br family) (λ l e.
      ensure_among-Settled netlink print_net br family faithful n force l s h
        (λ a x. inl (subst (λ t. Memᴰ a t) (sym e) x)) (λ a m i. subst (λ t. Memᴰ a t) e m))
  where
    from :
        (r : List IpNet × Option Errno)
        → ((l : List IpNet)
            → l ≡ r.0
            → Settled netlink print_net br family n
                (ensure_among netlink print_net br family n force l s))
        → Settled netlink print_net br family n
            (ensure_listed netlink print_net br family n force r s)
    from (l, none) k = k l refl
    from (l, some enoent) k = k l refl
    from (l, some eexist) k = failed h
    from (l, some other) k = failed h
