-- ===== src/Tuning/Restored.antt =====
-- What a restoration leaves behind a command that has tuned an interface, or failed on the way.
use containerz_plugin.Common.{
  ◌≡◌, ◌⊎◌, inl, inr, refl, sym, ap, subst, ◌∙◌, Bool, true, false, not, List, [], ◌∷◌, Option,
  none, some, if◌then◌else◌, ok, err, ◌then◌, then-keeps, asked-state, asked, when, with_found,
  Text, arith,
}
use containerz_plugin.Tuning.Config.{
  TuningConf, TuningError, request_failed, backup_failed, bad_sysctl,
}
use containerz_plugin.Tuning.{
  Mac, Attrs, absent, garbled, holding, Host, Outcome, is_zero, tunes, backup_of, backup_path,
  restore_backup, make_backup_dir, change_all, create_backup, write_sysctls, cmd_add,
  get_sysctl_filename,
}
use containerz_plugin.Tuning.Faithful.{
  Untouched, Saves, written, missing, broken, IsFaithful, Restores, IsMac, IsCodec, Agrees,
}
use containerz_plugin.Tuning.Kept.{change_all-Keeps}
use containerz_plugin.Tuning.Attempted.{restore_backup-Restores, restore_nothing}

module _ {S : Type 0} (host : Host S) (w : IsFaithful host) (i p : Text)
    (parse_mac : Text → Option Mac) (print_mac : Mac → Text) (join : Text → Text → Text)
    (c : TuningConf) (a : Attrs) where
  -- The interface is as it was, and there is no backup yet.
  abbrev pub Fresh : S → Type 0
  Fresh s = (host.attrs s i ≡ some a) × (host.saved s p ≡ absent)

  -- What a restoration can start from.
  pub data Ready (s : S) : Type 0 where
    unchanged :
        host.attrs s i ≡ some a → (host.saved s p ≡ absent) ⊎ (host.saved s p ≡ garbled) → Ready s
    changed_from :
        (x : Attrs)
        → host.attrs s i ≡ some x
        → Agrees c a x
        → host.saved s p ≡ holding (backup_of print_mac c a)
        → Ready s

  Fresh-Untouched : (s s' : S) → Untouched host i p s s' → Fresh s → Fresh s'
  Fresh-Untouched s s' u (there, none_yet) = (u.attrs ∙ there, u.saved ∙ none_yet)

  sysctl-Fresh :
      (v : Text) (o : Option Text) (s : S)
      → Fresh s
      → Fresh
          (with_found bad_sysctl o (λ f s'. asked request_failed (host.write_sysctl s' f v)) s).0
  sysctl-Fresh v none s h = h
  sysctl-Fresh v (some f) s h =
      subst Fresh (sym (asked-state request_failed (host.write_sysctl s f v)))
        (Fresh-Untouched s (host.write_sysctl s f v).0 (w.writes i p f v s) h)

  write_sysctls-Fresh :
      (kvs : List (Text × Text)) (s : S)
      → Fresh s
      → Fresh (write_sysctls host parse_mac print_mac join i kvs s).0
  unfolding write_sysctls
  write_sysctls-Fresh [] s h = h
  write_sysctls-Fresh ((k, v) ∷ kvs) s h =
      then-keeps Fresh _ _ (sysctl-Fresh v (get_sysctl_filename join k i) s h)
        (write_sysctls-Fresh kvs)

  Agrees-refl : Agrees c a a
  Agrees-refl = record {
    mac = λ e. refl;
    promisc = λ e. refl;
    mtu = λ e. refl;
    allmulti = λ e. refl;
    tx_q_len = λ e. refl;
  }

  -- A backup that is made holds the attributes; where it fails, nothing has changed.
  pub data Backed : Outcome S → Type 0 where
    did :
        {s : S}
        → host.attrs s i ≡ some a
        → host.saved s p ≡ holding (backup_of print_mac c a)
        → Backed (s, ok tt)
    did_not : {s : S} {e : TuningError} → Ready s → Backed (s, err e)

  Saves-Backed :
      (s : S) (r : S × Bool)
      → host.attrs s i ≡ some a
      → Saves host i p (backup_of print_mac c a) s r
      → Backed (asked backup_failed r)
  Saves-Backed s (s', true) there (written same holds) = did (same ∙ there) holds
  Saves-Backed s (s', false) there (missing same gone) =
      did_not (unchanged (same ∙ there) (inl gone))
  Saves-Backed s (s', false) there (broken same bad) = did_not (unchanged (same ∙ there) (inr bad))

  Fresh-Ready : (s : S) → Fresh s → Ready s
  Fresh-Ready s (there, none_yet) = unchanged there (inl none_yet)

  dir-Fresh : (s : S) → Fresh s → Fresh (make_backup_dir host parse_mac c.data_dir s).0
  unfolding make_backup_dir
  dir-Fresh s h = made (not (host.dir_exists s c.data_dir))
    where
      made :
          (b : Bool) → Fresh (when b (λ s'. asked backup_failed (host.make_dir s' c.data_dir)) s).0
      made true =
          subst Fresh (sym (asked-state backup_failed (host.make_dir s c.data_dir)))
            (Fresh-Untouched s (host.make_dir s c.data_dir).0 (w.makes i p c.data_dir s) h)
      made false = h

  save-Backed :
      (r : Outcome S)
      → Fresh r.0
      → Backed (r then (λ t. asked backup_failed (host.save t p (backup_of print_mac c a))))
  save-Backed (s, err e) h = did_not (Fresh-Ready s h)
  save-Backed (s, ok tt) (there, none_yet) =
      Saves-Backed s (host.save s p (backup_of print_mac c a)) there
        (w.saves i p (backup_of print_mac c a) s)

  Backed-Ready : (r : Outcome S) → Backed r → Ready (r then change_all host parse_mac c i).0
  Backed-Ready (s, ok tt) (did there holds) =
      let k =
        change_all-Keeps host w i p c a (holding (backup_of print_mac c a)) parse_mac s
          (record { now = a; there = there; agrees = Agrees-refl; holds = holds }) in
      changed_from k.now k.there k.agrees k.holds
  Backed-Ready (s, err e) (did_not r) = r

  -- Where nothing is tuned, nothing has changed.
  Agrees-same : (x : Attrs) → tunes c ≡ false → Agrees c a x → x ≡ a
  unfolding tunes
  Agrees-same x t g = ground (arith, g.mac, g.promisc, g.mtu, g.allmulti, g.tx_q_len)

  untuned-Ready : (s : S) → tunes c ≡ false → Fresh s → Ready (change_all host parse_mac c i s).0
  untuned-Ready s t (there, none_yet) =
      let k =
        change_all-Keeps host w i p c a absent parse_mac s
          (record { now = a; there = there; agrees = Agrees-refl; holds = none_yet }) in
      unchanged (k.there ∙ ap some (Agrees-same k.now t k.agrees)) (inl k.holds)

module _ {S : Type 0} (host : Host S) (w : IsFaithful host) (parse_mac : Text → Option Mac)
    (print_mac : Mac → Text) (codec : IsCodec parse_mac print_mac) (join : Text → Text → Text)
    (container_id i : Text) (c : TuningConf) (a : Attrs) where
  abbrev pub path : Text
  path = backup_path join c.data_dir container_id i

  create_backup-Backed :
      (s : S)
      → Fresh host w i path parse_mac print_mac join c a s
      → Backed host w i path parse_mac print_mac join c a
          (create_backup host parse_mac print_mac join c container_id i s)
  unfolding create_backup
  create_backup-Backed s h =
      rw (h.0, create_backup)
        (save-Backed host w i path parse_mac print_mac join c a
          (make_backup_dir host parse_mac c.data_dir s)
          (dir-Fresh host w i path parse_mac print_mac join c a s h))

  tuned-Ready :
      (s : S) (b : Bool)
      → tunes c ≡ b
      → Fresh host w i path parse_mac print_mac join c a s
      → Ready host w i path parse_mac print_mac join c a
          (when b (create_backup host parse_mac print_mac join c container_id i) s
            then change_all host parse_mac c i).0
  tuned-Ready s true t h =
      Backed-Ready host w i path parse_mac print_mac join c a _ (create_backup-Backed s h)
  tuned-Ready s false t h = untuned-Ready host w i path parse_mac print_mac join c a s t h

  cmd_add-Ready :
      (s : S)
      → Fresh host w i path parse_mac print_mac join c a s
      → Ready host w i path parse_mac print_mac join c a
          (cmd_add host parse_mac print_mac join c container_id i s).0
  unfolding cmd_add
  cmd_add-Ready s h =
      written (write_sysctls host parse_mac print_mac join i c.sysctls s)
        (write_sysctls-Fresh host w i path parse_mac print_mac join c a c.sysctls s h)
    where
      written :
          (r : Outcome S)
          → Fresh host w i path parse_mac print_mac join c a r.0
          → Ready host w i path parse_mac print_mac join c a
              (r
                then when (tunes c) (create_backup host parse_mac print_mac join c container_id i)
                then change_all host parse_mac c i).0
      written (t, ok u) h' = tuned-Ready t (tunes c) refl h'
      written (t, err e) h' = Fresh-Ready host w i path parse_mac print_mac join c a t h'

  -- Over requests that change what they are for or fail, for an interface with an MTU, with a hardware
  -- address of 6, 8 or 20 bytes and without an earlier backup: however far `cmdAdd` comes, `restoreBackup` then either answers that all went well,
  -- and the interface has all the attributes that it had, or it answers that it failed, and the backup
  -- is as it was, for another attempt.
  pub cmd_add-restore_backup :
      (s : S)
      → IsMac a.mac
      → is_zero a.mtu ≡ false
      → host.attrs s i ≡ some a
      → host.saved s path ≡ absent
      → Restores host i path a (cmd_add host parse_mac print_mac join c container_id i s).0 (
          restore_backup host parse_mac i path
            (cmd_add host parse_mac print_mac join c container_id i s).0)
  cmd_add-restore_backup s v m there none_yet = ready (cmd_add-Ready s (there, none_yet))
    where
      ready :
          {t : S}
          → Ready host w i path parse_mac print_mac join c a t
          → Restores host i path a t (restore_backup host parse_mac i path t)
      ready {t} (unchanged now h) =
          restore_nothing host w i path parse_mac print_mac codec c a v m absent t h now
      ready {t} (changed_from x now g h) =
          restore_backup-Restores host w i path parse_mac print_mac codec c a v m
            (holding (backup_of print_mac c a)) t x refl h now g
