-- ===== src/Job/Record.antt =====
-- src/deepseek_mcp/job_manager.py: a job, its snapshot, and its mailbox.
use deepseek_as_subagent.Prelude.{
  ℕ, ◌+◌, ◌*◌, Bool, true, false, not, ◌&&◌, Option, none, some, List, [], ◌∷◌, ◌++◌, ltb, leb,
  if◌then◌else◌, length, is_empty,
}
use deepseek_as_subagent.Prelude.Results.{Result, ok, err, ◌>>=◌, ◌>>◌, raise_if}
use deepseek_as_subagent.Text.{Text, codes, is_blank, utf8_size}
use deepseek_as_subagent.Json.{Value}

abbrev pub max_retained_jobs : ℕ
max_retained_jobs = 20

abbrev pub max_task_bytes : ℕ
max_task_bytes = 256 * 1024

abbrev pub max_context_bytes : ℕ
max_context_bytes = 256 * 1024

abbrev pub max_combined_task_bytes : ℕ
max_combined_task_bytes = 256 * 1024 + 256 * 1024 + 64

abbrev pub max_steering_message_bytes : ℕ
max_steering_message_bytes = 64 * 1024

abbrev pub max_queued_messages : ℕ
max_queued_messages = 32

abbrev pub max_queued_message_bytes : ℕ
max_queued_message_bytes = 256 * 1024

abbrev pub cancelled_error : Text
cancelled_error = codes "DeepSeek job cancelled by parent agent"

pub data Status : Type 0 where
  queued running completed failed cancelled : Status

-- `status in TERMINAL_STATES`
abbrev pub is_terminal : Status → Bool
is_terminal queued = false
is_terminal running = false
is_terminal _ = true

abbrev pub is_completed : Status → Bool
is_completed completed = true
is_completed _ = false

abbrev pub is_cancelled : Status → Bool
is_cancelled cancelled = true
is_cancelled _ = false

-- The exceptions of the module, one constructor for each message.
pub data JobError : Type 0 where
  empty_text too_long not_unicode : Text → JobError
  not_accepting too_many_messages too_many_bytes : JobError
  job_not_found : Text → JobError
  already_terminal : Text → Status → JobError
  busy_sync : JobError
  busy_job : Text → Status → JobError
  busy_workspace lock_failed recovery_required worker_not_started : JobError

-- Times are numbers of ticks; a dict result is a JSON value.
pub record JobRecord : Type 0 where
  pub job_id : Text
  pub task : Text
  pub context : Text
  pub task_length : ℕ
  pub capability : Text
  pub status : Status
  pub created_at : ℕ
  pub started_at : Option ℕ
  pub finished_at : Option ℕ
  pub result : Option Value
  pub error : Option Text
  pub progress : Option Value
  pub usage_recorded : Bool
  pub usage_recording : Bool
  pub cancel_event : Bool
  pub finished_event : Bool
  pub control_messages : List Text
  pub queued_message_bytes : ℕ
  pub accepting_messages : Bool

pub record Snapshot : Type 0 where
  pub job_id : Text
  pub capability : Text
  pub status : Status
  pub cancel_requested : Bool
  pub accepting_messages : Bool
  pub queued_messages : ℕ
  pub created_at : ℕ
  pub started_at : Option ℕ
  pub finished_at : Option ℕ
  pub error : Option Text

unfoldable pub snapshot : JobRecord → Snapshot
snapshot j = record {
  job_id = j.job_id;
  capability = j.capability;
  status = j.status;
  cancel_requested = j.cancel_event;
  accepting_messages = j.accepting_messages;
  queued_messages = length j.control_messages;
  created_at = j.created_at;
  started_at = j.started_at;
  finished_at = j.finished_at;
  error = j.error;
}

encoded_bytes : Text → ℕ → Option ℕ → Result JobError ℕ
encoded_bytes label limit none = err (not_unicode label)
encoded_bytes label limit (some size) = do raise_if (ltb limit size) (too_long label); ok size

-- `_bounded_text_bytes`
unfoldable pub bounded_text_bytes : Text → Text → ℕ → Bool → Result JobError ℕ
unfolding encoded_bytes
bounded_text_bytes label value limit allow_empty = do
  raise_if (not allow_empty && is_blank value) (empty_text label)
  raise_if (ltb limit (length value)) (too_long label)
  encoded_bytes label limit (utf8_size value)

unfoldable pub validate_delegation_input : Text → Text → Result JobError ℕ
unfolding bounded_text_bytes
validate_delegation_input task context = do
  _ ← bounded_text_bytes (codes "task") task max_task_bytes false
  bounded_text_bytes (codes "context") context max_context_bytes true

-- The checks and the update of `queue_message` that run under the job's lock.
unfoldable pub enqueue : JobRecord → Text → ℕ → Result JobError JobRecord
enqueue j message size = do
  raise_if (not j.accepting_messages) not_accepting
  raise_if (leb max_queued_messages (length j.control_messages)) too_many_messages
  raise_if (ltb max_queued_message_bytes (j.queued_message_bytes + size)) too_many_bytes
  ok (record j {
    control_messages = j.control_messages ++ message ∷ [];
    queued_message_bytes = j.queued_message_bytes + size;
  })

unfoldable pub queue_message : JobRecord → Text → Result JobError JobRecord
unfolding enqueue
queue_message j message = do
  size ← bounded_text_bytes (codes "message") message max_steering_message_bytes false
  enqueue j message size

-- Returns the messages and the job after the call.
unfoldable pub drain_messages : Bool → JobRecord → List Text × JobRecord
drain_messages finalize_if_empty j =
    if is_empty j.control_messages
    then ([], (if finalize_if_empty then record j { accepting_messages = false } else j))
    else (j.control_messages, record j { control_messages = []; queued_message_bytes = 0 })

unfoldable pub close_messages : JobRecord → JobRecord
close_messages j = record j {
  accepting_messages = false;
  control_messages = [];
  queued_message_bytes = 0;
}
