-- ===== src/Deadline.antt =====
-- src/deepseek_mcp/hard_deadline.py: deadlines over three clocks. Times are whole ticks, and time left
-- is 0 once a deadline has passed; the readings of the clocks are arguments.
pub mod Limits
use deepseek_as_subagent.Prelude.{
  ℕ, ◌+◌, ◌-◌, min, Bool, true, false, Option, none, some, leb, if◌then◌else◌,
}

pub record Clocks : Type 0 where
  pub monotonic : ℕ
  pub realtime : ℕ
  pub continuous : ℕ

pub record HardDeadline : Type 0 where
  pub monotonic_end : ℕ
  pub realtime_end : ℕ
  pub continuous_end : Option ℕ

-- `Deadline`: a hard deadline, or a time of the monotonic clock.
pub data Deadline : Type 0 where
  hard : HardDeadline → Deadline
  plain : ℕ → Deadline

unfoldable pub after : ℕ → Clocks → HardDeadline
after seconds c = record {
  monotonic_end = c.monotonic + seconds;
  realtime_end = c.realtime + seconds;
  continuous_end = some (c.continuous + seconds);
}

unfoldable pub time_left : HardDeadline → Clocks → ℕ
time_left d c = elim d.continuous_end [
  | none ↦ min (d.monotonic_end - c.monotonic) (d.realtime_end - c.realtime)
  | some e ↦
      min (min (d.monotonic_end - c.monotonic) (d.realtime_end - c.realtime)) (e - c.continuous)
]

unfoldable pub limited_hard : HardDeadline → ℕ → Clocks → HardDeadline
limited_hard d seconds c = record {
  monotonic_end = min d.monotonic_end (c.monotonic + seconds);
  realtime_end = min d.realtime_end (c.realtime + seconds);
  continuous_end = elim d.continuous_end [
    | none ↦ none
    | some e ↦ some (min e (c.continuous + seconds))
  ];
}

unfoldable pub remaining : Deadline → Clocks → ℕ
unfolding time_left
remaining (hard d) c = time_left d c
remaining (plain end) c = end - c.monotonic

shortened : Deadline → ℕ → Clocks → Deadline
unfolding limited_hard
shortened (hard d) seconds c = hard (limited_hard d seconds c)
shortened (plain end) seconds c = plain (c.monotonic + seconds)

-- The clocks are read for the time that remains, and once more for the limit itself.
unfoldable pub limited : Option Deadline → ℕ → Clocks → Clocks → Deadline × Bool
unfolding after remaining shortened
limited none seconds before c = (hard (after seconds c), false)
limited (some d) seconds before c =
    if leb (remaining d before) seconds then (d, true) else (shortened d seconds c, false)
