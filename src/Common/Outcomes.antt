-- ===== src/Common/Outcomes.antt =====
-- Steps over a state that may fail: the state that is left, and the answer.
use mathlib.Core.Bool.{Bool, true, false}
use mathlib.Core.Path.{◌≡◌, refl}
use mathlib.Core.Option.{Option, none, some}
use containerz_plugin.Common.Results.{Result, ok, err}

-- A step, and what follows where it did not fail.
infixl 5 ◌then◌
abbrev pub ◌then◌ :
    {S E : Type 0}
    → S × Result E (Unit {0})
    → (S → S × Result E (Unit {0}))
    → S × Result E (Unit {0})
(s, ok _) then k = k s
(s, err e) then k = (s, err e)

-- A request that answers whether it was met.
abbrev pub asked : {S E : Type 0} → E → S × Bool → S × Result E (Unit {0})
asked e (s, true) = (s, ok tt)
asked e (s, false) = (s, err e)

-- A step that is made only under a condition.
abbrev pub when :
    {S E : Type 0} → Bool → (S → S × Result E (Unit {0})) → S → S × Result E (Unit {0})
when true f s = f s
when false f s = (s, ok tt)

-- What follows a value that was found.
abbrev pub with_found :
    {S E A : Type 0}
    → E
    → Option A
    → (A → S → S × Result E (Unit {0}))
    → S
    → S × Result E (Unit {0})
with_found e none k s = (s, err e)
with_found e (some a) k s = k a s

-- A step for a value that may be left out.
abbrev pub given :
    {S E A : Type 0} → Option A → (A → S → S × Result E (Unit {0})) → S → S × Result E (Unit {0})
given none f s = (s, ok tt)
given (some a) f s = f a s

-- What a step and what follows it both preserve, their sequence preserves.
pub then-keeps :
    {S E : Type 0} (P : S → Type 0) (r : S × Result E (Unit {0})) (g : S → S × Result E (Unit {0}))
    → P r.0
    → ((s : S) → P s → P (g s).0)
    → P (r then g).0
then-keeps P (s, ok _) g h k = k s h
then-keeps P (s, err e) g h k = h

pub asked-state : {S E : Type 0} (e : E) (r : S × Bool) → (asked e r).0 ≡ r.0
asked-state e (s, true) = refl
asked-state e (s, false) = refl

-- Inversion of a sequence and of a request that succeed.
pub then-eq-ok :
    {S E : Type 0} (r : S × Result E (Unit {0})) (g : S → S × Result E (Unit {0})) {s : S}
    → (r then g) ≡ (s, ok tt)
    → (t : S) × (r ≡ (t, ok tt)) × (g t ≡ (s, ok tt))
then-eq-ok (t, ok _) g h = (t, refl, h)
then-eq-ok (t, err e) g h = cc

pub asked-eq-ok :
    {S E : Type 0} (e : E) (r : S × Bool) {s : S} → asked e r ≡ (s, ok tt) → r ≡ (s, true)
asked-eq-ok e (t, true) h = cc
asked-eq-ok e (t, false) h = cc
