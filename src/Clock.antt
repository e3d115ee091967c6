-- ===== src/Clock.antt =====
-- Go's time.Time and time.Duration. An instant is its nanoseconds since Go's zero time (so
-- IsZero is a test against 0); a duration is its nanoseconds. Time.Unix counts seconds from 1970,
-- here from the zero time: the two differ by a constant, and the code only compares them.
use wildtoken.Prelude.{ℕ, ◌+◌, ◌-◌, ◌*◌, ◌/◌, ◌≤◌, Bool, arith, leb, ltb, min}
use wildtoken.Prelude.Int64.{max_int}

-- time.Second, time.Minute, time.Hour
abbrev pub second : ℕ
second = 1_000_000_000

abbrev pub minute : ℕ
minute = 60 * second

abbrev pub hour : ℕ
hour = 60 * minute

-- t.Unix(): whole seconds, rounded down.
abbrev pub unix : ℕ → ℕ
unix t = t / second

-- t.Add(-d). An instant before the zero time is read as the zero time.
abbrev pub back : ℕ → ℕ → ℕ
back t d = t - d

-- now.Sub(since) >= d, for a duration d that is not negative.
abbrev pub elapsed : ℕ → ℕ → ℕ → Bool
elapsed now since d = leb (since + d) now

-- now.Before(t)
abbrev pub before : ℕ → ℕ → Bool
before now t = ltb now t

pub unix_mono : (s t : ℕ) → s ≤ t → unix s ≤ unix t
unix_mono s t h = omega arith

-- now.Sub(since), which saturates; 0 stands for a negative duration.
abbrev pub elapsed_since : ℕ → ℕ → ℕ
elapsed_since now since = min (now - since) max_int
