-- ===== src/Dhcp/Backoff.antt =====
-- plugins/ipam/dhcp/lease.go: the delays of `backoffRetry` and of `checkLinkExistsWithBackoff`, in
-- nanoseconds. An attempt says what the call answers, what `jitter` gives (a second is added, so that
-- it is not negative), and whether the context ends before the delay is over.
use containerz_plugin.Common.{
  ℕ, ◌+◌, ◌-◌, ◌*◌, ◌%◌, ◌^◌, ◌≤◌, ◌<◌, ◌≡◌, ◌⊎◌, inl, inr, refl, Bool, true, false, ◌&&◌, List, [],
  ◌∷◌, Option, none, some, All, Any, ltb, ◌==◌, if◌then◌else◌, arith,
}
use containerz_plugin.Dhcp.Lease.{second}

abbrev pub resend_delay_0 : ℕ
resend_delay_0 = 4 * second

abbrev pub resend_fast_delay : ℕ
resend_fast_delay = 2 * second

abbrev pub resend_fast_max : ℕ
resend_fast_max = 4

pub record Attempt (L : Type 0) : Type 0 where
  pub reply : Option L
  pub spread : ℕ
  pub cancelled : Bool

-- What the retries come to; `pending` where the attempts are used up.
pub data Retried (L : Type 0) : Type 0 where
  got : L → Retried L
  gave_up pending : Retried L

-- The delay behind a failed attempt.
abbrev pub sleep_time : ℕ → ℕ → ℕ → ℕ
sleep_time base fast spread =
    if fast == 0 then base + spread - second else resend_fast_delay + spread - second

-- `baseDelay` behind a delay; `fast` is the limit after it was counted down.
abbrev pub next_base : ℕ → ℕ → ℕ → ℕ
next_base resend_max base fast =
    if ltb base resend_max && fast == 0 then base * 2 % 2 ^ 64 else base

-- A delay of at least a second, and below twice the limit and five seconds.
abbrev pub Bounded : ℕ → ℕ → Type 0
Bounded resend_max d = (second ≤ d) × (d < 2 * resend_max + 5 * second)

-- What stays true of `baseDelay`.
record IsBase (resend_max base : ℕ) : Type 0 where
  low : resend_delay_0 ≤ base
  high : (base ≡ resend_delay_0) ⊎ (base < 2 * resend_max)

next_base-IsBase :
    (resend_max base fast : ℕ)
    → resend_max < 2 ^ 62
    → IsBase resend_max base
    → IsBase resend_max (next_base resend_max base fast)
next_base-IsBase resend_max base fast h b = ground (arith, b.low, b.high)

sleep_time-Bounded :
    (resend_max base fast spread : ℕ)
    → IsBase resend_max base
    → spread < 2 * second
    → Bounded resend_max (sleep_time base fast spread)
sleep_time-Bounded resend_max base fast spread b h = ground (arith, b.low, b.high)

module _ {L : Type 0} where
  -- One round: the answer, or the delay and what comes behind it.
  unfoldable pub round : Option L → Bool → ℕ → List ℕ × Retried L → List ℕ × Retried L
  round (some l) cancelled d rest = ([], got l)
  round none true d rest = (d ∷ [], gave_up)
  round none false d rest = (d ∷ rest.0, rest.1)

  -- The loop of `backoffRetry`, with the delays that it makes.
  unfoldable pub retry_from : ℕ → ℕ → ℕ → List (Attempt L) → List ℕ × Retried L
  retry_from resend_max base fast [] = ([], pending)
  retry_from resend_max base fast (a ∷ as') =
      round a.reply a.cancelled (sleep_time base fast a.spread)
        (retry_from resend_max (next_base resend_max base (fast - 1)) (fast - 1) as')

  unfoldable pub backoff_retry : ℕ → List (Attempt L) → List ℕ × Retried L
  backoff_retry resend_max as' = retry_from resend_max resend_delay_0 resend_fast_max as'

  -- What the attempts have to do with the outcome.
  abbrev pub AnsweredBy : List (Attempt L) → Retried L → Type 0
  AnsweredBy as' (got l) = Any (λ (a : Attempt L). a.reply ≡ some l) as'
  AnsweredBy as' gave_up = Any (λ (a : Attempt L). (a.reply ≡ none) × (a.cancelled ≡ true)) as'
  AnsweredBy as' pending = All (λ (a : Attempt L). (a.reply ≡ none) × (a.cancelled ≡ false)) as'

  later :
      (a : Attempt L) (as' : List (Attempt L)) (r : Retried L)
      → a.reply ≡ none
      → a.cancelled ≡ false
      → AnsweredBy as' r
      → AnsweredBy (a ∷ as') r
  later a as' (got l) e c h = inr h
  later a as' gave_up e c h = inr h
  later a as' pending e c h = ((e, c), h)

  round-Bounded :
      (resend_max d : ℕ) (a : Attempt L) (as' : List (Attempt L)) (o : Option L) (c : Bool)
      (rest : List ℕ × Retried L)
      → a.reply ≡ o
      → a.cancelled ≡ c
      → Bounded resend_max d
      → All (Bounded resend_max) rest.0 × AnsweredBy as' rest.1
      → All (Bounded resend_max) (round o c d rest).0 × AnsweredBy (a ∷ as') (round o c d rest).1
  unfolding round
  round-Bounded resend_max d a as' (some l) c rest e f b h = (tt, inl e)
  round-Bounded resend_max d a as' none true rest e f b h = ((b, tt), inl (e, f))
  round-Bounded resend_max d a as' none false rest e f b (hs, h) =
      ((b, hs), later a as' rest.1 e f h)

  retry_from-Bounded :
      (resend_max base fast : ℕ) (as' : List (Attempt L))
      → resend_max < 2 ^ 62
      → IsBase resend_max base
      → All (λ (a : Attempt L). a.spread < 2 * second) as'
      → All (Bounded resend_max) (retry_from resend_max base fast as').0
        × AnsweredBy as' (retry_from resend_max base fast as').1
  unfolding retry_from
  retry_from-Bounded resend_max base fast [] h b s = (tt, tt)
  retry_from-Bounded resend_max base fast (a ∷ as') h b (s, ss) =
      round-Bounded resend_max (sleep_time base fast a.spread) a as' a.reply a.cancelled _ refl refl
        (sleep_time-Bounded resend_max base fast a.spread b s)
        (retry_from-Bounded resend_max (next_base resend_max base (fast - 1)) (fast - 1) as' h
          (next_base-IsBase resend_max base (fast - 1) h b) ss)

  -- For a limit on the delay below 2^62 nanoseconds and jitters of less than a second to either side,
  -- each delay of `backoffRetry` is at least a second, and below twice the limit and five seconds. It
  -- returns an answer only if an attempt got it, gives up only at a failed attempt whose delay the
  -- context cut short, and goes on while attempts fail and the context does not end.
  pub backoff_retry-Bounded :
      (resend_max : ℕ) (as' : List (Attempt L))
      → resend_max < 2 ^ 62
      → All (λ (a : Attempt L). a.spread < 2 * second) as'
      → All (Bounded resend_max) (backoff_retry resend_max as').0
        × AnsweredBy as' (backoff_retry resend_max as').1
  unfolding backoff_retry
  backoff_retry-Bounded resend_max as' h s =
      retry_from-Bounded resend_max resend_delay_0 resend_fast_max as' h
        (record { low = omega arith; high = inl refl }) s

abbrev pub link_check_delay_0 : ℕ
link_check_delay_0 = 1 * second

abbrev pub link_check_retry_max : ℕ
link_check_retry_max = 10 * second

-- What `checkLinkByName` answers.
pub data LinkAnswer : Type 0 where
  found not_found failed : LinkAnswer

pub record Probe : Type 0 where
  pub answer : LinkAnswer
  pub done : Bool

-- The loop of `checkLinkExistsWithBackoff`; `none` where the probes are used up.
unfoldable pub check_link : ℕ → List Probe → Option Bool
check_link base [] = none
check_link base (p ∷ ps) = elim p.answer [
  | found ↦ some true
  | not_found ↦ some false
  | failed ↦ elim p.done [
    | true ↦ some false
    | false ↦ check_link (if ltb base link_check_retry_max then base * 2 else base) ps
  ]
]
