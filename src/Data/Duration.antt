-- ===== src/Data/Duration.antt =====
-- packages/konduit/data/src/duration.rs: a time, or a span of time, as a count of nanoseconds.
use konduit.Base.{ℕ, ◌+◌, ◌-◌, ◌*◌, ◌/◌, ◌%◌, min, Result, ok, panic, ltb, u64_mod, if◌then◌else◌}

-- `time::Duration` holds whole seconds in a `u64`, and nanoseconds below one second.
abbrev pub Duration : Type 0
Duration = ℕ

abbrev pub max_duration : ℕ
max_duration = 18446744073709551615999999999

abbrev from_secs : ℕ → Duration
from_secs secs = secs * 1000000000

abbrev pub from_millis : ℕ → Duration
from_millis millis = millis * 1000000

abbrev saturating_add : Duration → Duration → Duration
saturating_add a b = min max_duration (a + b)

abbrev saturating_sub : Duration → Duration → Duration
saturating_sub a b = a - b

-- `as_millis() as u64`
unfoldable pub as_millis : Duration → ℕ
as_millis d = d / 1000000 % u64_mod

-- `impl Add`: `time::Duration` panics when the sum does not fit.
unfoldable pub add : {E : Type 0} → Duration → Duration → Result E Duration
add a b = if ltb max_duration (a + b) then panic else ok (a + b)
