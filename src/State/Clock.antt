-- ===== src/State/Clock.antt =====
-- Go's time.Time and time.Duration, as far as the ledger uses them: a time is the count of
-- nanoseconds since Go's zero time, and a duration a count of nanoseconds.
use sofa.Base.{ℕ, ◌-◌, min, Bool, ltb, eqb}

abbrev pub Time : Type 0
Time = ℕ

abbrev pub zero_time : Time
zero_time = 0

-- `t.IsZero()`
abbrev pub is_zero : Time → Bool
is_zero t = eqb t 0

-- `t.Before(u)`
abbrev pub before : Time → Time → Bool
before t u = ltb t u

-- `t.After(u)`
abbrev pub after : Time → Time → Bool
after t u = ltb u t

abbrev pub second : ℕ
second = 1000000000

abbrev pub minute : ℕ
minute = 60000000000

abbrev pub hour : ℕ
hour = 3600000000000

-- `t.Sub(u)` for a `u` that is not after `t`: the greatest Duration at most.
abbrev pub sub_time : Time → Time → ℕ
sub_time t u = min (t - u) 9223372036854775807
