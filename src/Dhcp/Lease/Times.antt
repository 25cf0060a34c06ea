-- ===== src/Dhcp/Lease/Times.antt =====
-- The times of a lease: in order for leases below the length at which the code's product overflows.
use containerz_plugin.Common.{
  ℕ, ◌+◌, ◌*◌, ◌/◌, ◌%◌, ◌-◌, ◌^◌, ◌≤◌, ◌<◌, ◌≡◌, refl, true, Option, none, some, arith, pos,
  negsuc, ◌+ℤ◌, ltℤ,
}
use containerz_plugin.Dhcp.Lease.{Ack, Lease, commit, lease_time_of, default_rebinding, duration_or}

-- Renewal comes no later than rebinding, and rebinding no later than the end.
pub record Ordered (l : Lease) : Type 0 where
  pub renewal : ℕ
  pub rebinding : ℕ
  pub expire : ℕ
  pub renewal_at : l.renewal_time ≡ pos renewal
  pub rebinding_at : l.rebinding_time ≡ pos rebinding
  pub expire_at : l.expire_time ≡ pos expire
  pub renewal_first : renewal ≤ rebinding
  pub rebinding_next : rebinding ≤ expire

-- The times that the server gives for renewal and rebinding fit each other, or the default of the one
-- that it does not give, and the length of the lease; nothing is asked where it gives neither.
abbrev pub Fitting : Option ℕ → Option ℕ → ℕ → Type 0
Fitting none none n = Unit
Fitting (some t) none n = t ≤ n * 85 / 100
Fitting none (some u) n = (n / 2 ≤ u) × (u ≤ n)
Fitting (some t) (some u) n = (t ≤ u) × (u ≤ n)

-- The times given fit, and the lease is so short that 85 times its length is an int64.
pub record IsSane (a : Ack) : Type 0 where
  pub short : lease_time_of a * 85 < 2 ^ 63
  pub fitting : Fitting a.renewal_time a.rebinding_time (lease_time_of a)

default_rebinding_short : (n : ℕ) → n * 85 < 2 ^ 63 → default_rebinding n ≡ pos (n * 85 / 100)
default_rebinding_short n h = ground arith

-- The times that the code takes, given or by default.
record Taken (o p : Option ℕ) (n : ℕ) : Type 0 where
  renewal : ℕ
  rebinding : ℕ
  renewal_is : duration_or o (pos (n / 2)) ≡ pos renewal
  rebinding_is : duration_or p (pos (n * 85 / 100)) ≡ pos rebinding
  in_order : renewal ≤ rebinding
  before_end : rebinding ≤ n

taken : (o p : Option ℕ) (n : ℕ) → Fitting o p n → Taken o p n
taken none none n h = record {
  renewal = n / 2;
  rebinding = n * 85 / 100;
  renewal_is = refl;
  rebinding_is = refl;
  in_order = omega arith;
  before_end = omega arith;
}
taken (some t) none n h = record {
  renewal = t;
  rebinding = n * 85 / 100;
  renewal_is = refl;
  rebinding_is = refl;
  in_order = h;
  before_end = omega arith;
}
taken none (some u) n h = record {
  renewal = n / 2;
  rebinding = u;
  renewal_is = refl;
  rebinding_is = refl;
  in_order = h.0;
  before_end = h.1;
}
taken (some t) (some u) n h = record {
  renewal = t;
  rebinding = u;
  renewal_is = refl;
  rebinding_is = refl;
  in_order = h.0;
  before_end = h.1;
}

-- The times of a sane acknowledgement are in order.
pub commit-Ordered : (a : Ack) (now : ℕ) → IsSane a → Ordered (commit a now)
unfolding commit
commit-Ordered a now s =
    let t = taken a.renewal_time a.rebinding_time (lease_time_of a) s.fitting in
    record {
      renewal = now + t.renewal;
      rebinding = now + t.rebinding;
      expire = now + lease_time_of a;
      renewal_at = rw t.renewal_is refl;
      rebinding_at =
          rw (default_rebinding_short (lease_time_of a) s.short) (rw t.rebinding_is refl);
      expire_at = refl;
      renewal_first = omega (arith, t.in_order);
      rebinding_next = omega (arith, t.before_end);
    }

-- The product of the lease time by 85 leaves a negative int64.
abbrev pub Overflows : ℕ → Type 0
Overflows n = (2 ^ 63 ≤ n * 85 % 2 ^ 64) × (n * 85 % 2 ^ 64 + 100 ≤ 2 ^ 64)

default_rebinding_long : (n : ℕ) → Overflows n → (k : ℕ) × (default_rebinding n ≡ negsuc k)
default_rebinding_long n h = ((2 ^ 64 - n * 85 % 2 ^ 64) / 100 - 1, ground arith)

before_now : (now k : ℕ) → ltℤ (pos now +ℤ negsuc k) (pos now) ≡ true
before_now now k = ground arith

-- Where 85 times the lease time overflows to a negative number, as for a lease without end, and the
-- server gives no rebinding time, the lease starts with a rebinding time that has passed.
pub commit_overflow :
    (a : Ack) (now : ℕ)
    → a.rebinding_time ≡ none
    → Overflows (lease_time_of a)
    → ltℤ (commit a now).rebinding_time (pos now) ≡ true
unfolding commit
commit_overflow a now e h =
    let (k, d) = default_rebinding_long (lease_time_of a) h in rw (e, d) (before_now now k)
