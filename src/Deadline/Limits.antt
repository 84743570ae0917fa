-- ===== src/Deadline/Limits.antt =====
-- A limited deadline is within its limit, and not later than the deadline of the run
-- (src/deepseek_mcp/hard_deadline.py).
use deepseek_as_subagent.Prelude.{ℕ, ◌+◌, ◌-◌, ◌≤◌, Option, none, some, arith}
use deepseek_as_subagent.Deadline.{Clocks, Deadline, hard, plain, remaining, limited}

-- No clock was set back between two readings.
pub record Forward (before c : Clocks) : Type 0 where
  pub monotonic : before.monotonic ≤ c.monotonic
  pub realtime : before.realtime ≤ c.realtime
  pub continuous : before.continuous ≤ c.continuous

-- A limit leaves at most its seconds at the time it is set, if no clock is set back between its two
-- readings of them.
pub remaining-limited :
    (o : Option Deadline) (seconds : ℕ) (before c : Clocks)
    → Forward before c
    → remaining (limited o seconds before c).0 c ≤ seconds
unfolding remaining limited
remaining-limited none seconds before c f = ground arith
remaining-limited (some (plain end)) seconds before c f = ground (arith, f.monotonic)
remaining-limited (some (hard d)) seconds before c f =
    ground (arith, f.monotonic, f.realtime, f.continuous)

-- By how much a limit may pass the deadline that it limits: a time of the monotonic clock is not
-- compared again behind the second reading.
abbrev pub drift : Deadline → Clocks → Clocks → ℕ
drift (hard d) before c = 0
drift (plain end) before c = c.monotonic - before.monotonic

-- Whatever the clocks show between the two readings and later, also where they jumped, a limited hard
-- deadline leaves no more time than the deadline that it limits, and a limited time of the monotonic
-- clock at most the time between the two readings more.
pub limited-earlier :
    (d : Deadline) (seconds : ℕ) (before c later : Clocks)
    → remaining (limited (some d) seconds before c).0 later ≤ remaining d later + drift d before c
unfolding remaining limited
limited-earlier (plain end) seconds before c later = ground arith
limited-earlier (hard d) seconds before c later = ground arith
