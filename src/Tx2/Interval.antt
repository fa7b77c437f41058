-- ===== src/Tx2/Interval.antt =====
-- packages/konduit/tx2/src/interval.rs. The clock of `n_mins` is an argument, in whole seconds.
use konduit.Base.{◌≤◌, ◌<◌, max, min, ◌↔◌, Option, none, some, arith}
use konduit.Data.Duration.{Duration}

pub record Interval : Type 0 where
  pub lower : Option Duration
  pub upper : Option Duration

abbrev max_bound : Option Duration → Option Duration → Option Duration
max_bound (some a) (some b) = some (max a b)
max_bound (some a) none = some a
max_bound none b = b

abbrev min_bound : Option Duration → Option Duration → Option Duration
min_bound (some a) (some b) = some (min a b)
min_bound (some a) none = some a
min_bound none b = b

intersect : Interval → Interval → Interval
intersect a b = record { lower = max_bound a.lower b.lower; upper = min_bound a.upper b.upper }

-- A time lies in an interval: at or after the lower bound, and before the upper one.
abbrev AtOrAfter : Option Duration → Duration → Type 0
AtOrAfter none t = Unit
AtOrAfter (some l) t = l ≤ t

abbrev Before : Option Duration → Duration → Type 0
Before none t = Unit
Before (some u) t = t < u

abbrev Contains : Interval → Duration → Type 0
Contains i t = AtOrAfter i.lower t × Before i.upper t

max_bound_lem :
    (a b : Option Duration) (t : Duration)
    → AtOrAfter (max_bound a b) t ↔ (AtOrAfter a t × AtOrAfter b t)
max_bound_lem none none t = ((λ h. (tt, tt)), (λ h. tt))
max_bound_lem none (some b) t = ((λ h. (tt, h)), (λ h. h.1))
max_bound_lem (some a) none t = ((λ h. (h, tt)), (λ h. h.0))
max_bound_lem (some a) (some b) t = ((λ h. (omega arith, omega arith)), (λ h. omega arith))

min_bound_lem :
    (a b : Option Duration) (t : Duration) → Before (min_bound a b) t ↔ (Before a t × Before b t)
min_bound_lem none none t = ((λ h. (tt, tt)), (λ h. tt))
min_bound_lem none (some b) t = ((λ h. (tt, h)), (λ h. h.1))
min_bound_lem (some a) none t = ((λ h. (h, tt)), (λ h. h.0))
min_bound_lem (some a) (some b) t = ((λ h. (omega arith, omega arith)), (λ h. omega arith))

-- A time lies in the intersection of two intervals exactly if it lies in both.
intersect_lem :
    (a b : Interval) (t : Duration) → Contains (intersect a b) t ↔ (Contains a t × Contains b t)
unfolding intersect
intersect_lem a b t = (
  (λ h.
      let (la, lb) = (max_bound_lem a.lower b.lower t).0 h.0 in
      let (ua, ub) = (min_bound_lem a.upper b.upper t).0 h.1 in ((la, ua), (lb, ub))),
  (λ h. (
    (max_bound_lem a.lower b.lower t).1 (h.0.0, h.1.0),
    (min_bound_lem a.upper b.upper t).1 (h.0.1, h.1.1),
  )),
)
