-- ===== src/Examples/Files.antt =====
-- Deadlines and file identities at concrete values
-- (src/deepseek_mcp/hard_deadline.py and file_identity.py).
use deepseek_as_subagent.Prelude.{◌+◌, ◌≤◌, ◌≡◌, refl, true, some, arith}
use deepseek_as_subagent.Prelude.Results.{ok}
use deepseek_as_subagent.Deadline.{Clocks, Deadline, hard, after, remaining, limited}
use deepseek_as_subagent.Deadline.Limits.{Forward, remaining-limited, drift, limited-earlier}
use deepseek_as_subagent.FileIdentity.{StatResult, identity, from_stat, write_baseline}
use deepseek_as_subagent.FileIdentity.Baseline.{Describes, write_baseline-Describes}

abbrev early : Clocks
early = record { monotonic = 10; realtime = 1000; continuous = 10 }

-- The wall clock was set back.
abbrev later : Clocks
later = record { monotonic = 15; realtime = 400; continuous = 20 }

abbrev run_deadline : Deadline
run_deadline = hard (after 60 early)

-- The second reading.
abbrev behind : Clocks
behind = record { monotonic = 12; realtime = 1002; continuous = 12 }

early-Forward : Forward early behind
early-Forward = record { monotonic = omega arith; realtime = omega arith; continuous = omega arith }

remaining-limited_example : remaining (limited (some run_deadline) 30 early behind).0 behind ≤ 30
remaining-limited_example = remaining-limited (some run_deadline) 30 early behind early-Forward

limited-earlier_example :
    remaining (limited (some run_deadline) 30 early behind).0 later
    ≤ remaining run_deadline later + drift run_deadline early behind
limited-earlier_example = limited-earlier run_deadline 30 early behind later

abbrev found : StatResult
found = record {
  device = 1;
  inode = 2;
  mode = 33188;
  size = 5;
  modified_ns = 7;
  changed_ns = 8;
  is_regular = true;
  permissions = 420;
}

found_accepted :
    write_baseline (some found) (identity (from_stat found)) ≡ ok (420, some (from_stat found))
unfolding write_baseline from_stat
found_accepted = refl

write_baseline-Describes_example : Describes 420 (some (from_stat found)) (some found)
write_baseline-Describes_example =
    write_baseline-Describes (some found) (identity (from_stat found)) found_accepted
