-- ===== src/Job/Worker.antt =====
-- src/deepseek_mcp/job_manager.py: what the worker thread of a background job does.
use deepseek_as_subagent.Prelude.{
  ℕ, Bool, true, false, ◌||◌, Option, none, some, List, [], ◌∷◌, ◌++◌, if◌then◌else◌, is_empty,
}
use deepseek_as_subagent.Prelude.Results.{Result, ok, err}
use deepseek_as_subagent.Text.{Text, codes, text_eq}
use deepseek_as_subagent.Json.{Value, null}
use deepseek_as_subagent.Mutation.{MutationRecord, records_from_result, mutation_failure_message}
use deepseek_as_subagent.Job.Record.{
  JobRecord, JobError, Status, running, completed, failed, cancelled, cancelled_error,
  close_messages, is_completed, is_cancelled,
}
use deepseek_as_subagent.Job.Manager.{Manager, modify, release, get_locked}

pub record JobOutcome : Type 0 where
  pub status : Status
  pub result : Option Value
  pub error : Option Text
  pub preserve_mutation_error : Bool
  pub progress : Option Value

-- How `run_agent` ends: its result, or the class and the message of what it raised, with the
-- progress that the exception carries.
pub data AgentEnd : Type 0 where
  returned : Value → AgentEnd
  mutation_error mutation_cancelled loop_cancelled loop_error : Text → Option Value → AgentEnd
  other_error : AgentEnd

unfoldable pub run_background_agent : AgentEnd → JobOutcome
run_background_agent (returned v) = record {
  status = completed;
  result = some v;
  error = none;
  preserve_mutation_error = false;
  progress = none;
}
run_background_agent (mutation_cancelled e p) = record {
  status = cancelled;
  result = none;
  error = some e;
  preserve_mutation_error = true;
  progress = p;
}
run_background_agent (mutation_error e p) = record {
  status = failed;
  result = none;
  error = some e;
  preserve_mutation_error = true;
  progress = p;
}
run_background_agent (loop_cancelled e p) = record {
  status = cancelled;
  result = none;
  error = some e;
  preserve_mutation_error = false;
  progress = p;
}
run_background_agent (loop_error e p) = record {
  status = failed;
  result = none;
  error = some e;
  preserve_mutation_error = false;
  progress = p;
}
run_background_agent other_error = record {
  status = failed;
  result = none;
  error = some (codes "unexpected internal failure");
  preserve_mutation_error = false;
  progress = none;
}

unfoldable pub cancelled_message : JobOutcome → List MutationRecord → Option Text
unfolding mutation_failure_message
cancelled_message o (r ∷ rs) = some (mutation_failure_message (r ∷ rs) cancelled_error)
cancelled_message o [] =
    if o.preserve_mutation_error
    then o.error
    else if is_cancelled o.status
    then o.error
    else some cancelled_error

or_null : Option Value → Value
or_null none = null
or_null (some v) = v

unfoldable pub apply_cancelled_outcome : JobRecord → JobOutcome → JobRecord
unfolding cancelled_message records_from_result or_null
apply_cancelled_outcome j o = record j {
  cancel_event = true;
  status = cancelled;
  result = none;
  error = cancelled_message o (records_from_result (or_null o.result));
}

apply_outcome : JobRecord → JobOutcome → JobRecord
apply_outcome j o = record j {
  status = o.status;
  result = (if is_completed o.status then o.result else none);
  error = o.error;
}

-- `_finish_job` on the job itself.
unfoldable pub finish_record : JobOutcome → ℕ → JobRecord → JobRecord
unfolding apply_outcome apply_cancelled_outcome close_messages
finish_record o now j =
    let ended =
      (if j.cancel_event || is_cancelled o.status
        then apply_cancelled_outcome j o
        else apply_outcome j o) in
    close_messages (record ended {
      progress = (if is_completed o.status then none else o.progress);
      finished_at = some now;
      finished_event = true;
    })

abbrev clear_active : Text → Option Text → Option Text
clear_active i none = none
clear_active i (some k) = if text_eq k i then none else some k

finish_found :
    Text
    → JobOutcome
    → ℕ
    → ℕ
    → Manager
    → Result JobError JobRecord
    → Result JobError (Unit {0}) × Manager
finish_found i o fd now m (err e) = (err e, m)
finish_found i o fd now m (ok j) = (
  ok tt,
  record m {
    jobs = modify i (finish_record o now) m.jobs;
    active_job_id = clear_active i m.active_job_id;
    held = release fd m.held;
  },
)

unfoldable pub finish_job :
    Text → JobOutcome → ℕ → ℕ → Manager → Result JobError (Unit {0}) × Manager
unfolding finish_found
finish_job i o fd now m = finish_found i o fd now m (get_locked i m)

-- `_run_job` up to the call of the agent: the job as it is left, and the task that is run.
unfoldable pub begin_record : ℕ → JobRecord → JobRecord
begin_record now j = record j { status = running; started_at = some now; task = []; context = [] }

unfoldable pub full_task : JobRecord → Text
full_task j =
    if is_empty j.context
    then j.task
    else j.task ++ (codes "\n\n# Additional context\n" ++ j.context)

begin_found : Text → ℕ → Manager → Result JobError JobRecord → Result JobError Text × Manager
begin_found i now m (err e) = (err e, m)
begin_found i now m (ok j) =
    (ok (full_task j), record m { jobs = modify i (begin_record now) m.jobs })

unfoldable pub run_job_begin : Text → ℕ → Manager → Result JobError Text × Manager
unfolding begin_found
run_job_begin i now m = begin_found i now m (get_locked i m)
