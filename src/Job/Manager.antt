-- ===== src/Job/Manager.antt =====
-- src/deepseek_mcp/job_manager.py: `DeepSeekJobManager`. `held` is the operating system's side:
-- the lock descriptors that are open. What the lease, the journal, the clock, the id generator
-- and the thread start answer are arguments of the methods.
use deepseek_as_subagent.Prelude.{
  ℕ, zero, suc, ◌+◌, ◌-◌, Bool, true, false, not, ◌&&◌, Option, none, some, List, [], ◌∷◌, ltb, leb,
  ◌==◌, if◌then◌else◌, length, select,
}
use deepseek_as_subagent.Prelude.Results.{Result, ok, err, ◌>>◌, raise_if}
use deepseek_as_subagent.Text.{Text, text_eq}
use deepseek_as_subagent.Job.Record.{
  JobRecord, JobError, job_not_found, busy_sync, busy_job, busy_workspace, lock_failed,
  recovery_required, queued, is_terminal, max_retained_jobs,
}

-- `_jobs` is a dict: its entries in insertion order.
abbrev pub Jobs : Type 0
Jobs = List (Text × JobRecord)

pub record Manager : Type 0 where
  pub jobs : Jobs
  pub active_job_id : Option Text
  pub sync_active : Bool
  pub held : List ℕ

-- What `acquire_workspace_lease` answers, with the descriptor that owns a granted lease.
pub data Acquisition : Type 0 where
  granted : ℕ → Acquisition
  lock_busy lock_error : Acquisition

-- `_jobs.get(job_id)`
unfoldable pub find : Text → Jobs → Option JobRecord
unfolding text_eq
find i [] = none
find i ((k, j) ∷ jobs) = if text_eq k i then some j else find i jobs

-- `_jobs[job_id] = job`
unfoldable pub put : Text → JobRecord → Jobs → Jobs
unfolding text_eq
put i v [] = (i, v) ∷ []
put i v ((k, j) ∷ jobs) = if text_eq k i then (k, v) ∷ jobs else (k, j) ∷ put i v jobs

-- `_jobs.pop(job_id, None)`
unfoldable pub pop : Text → Jobs → Jobs
unfolding text_eq
pop i [] = []
pop i ((k, j) ∷ jobs) = if text_eq k i then jobs else (k, j) ∷ pop i jobs

-- A change of the object that the dict holds under the id.
unfoldable pub modify : Text → (JobRecord → JobRecord) → Jobs → Jobs
unfolding text_eq
modify i f [] = []
modify i f ((k, j) ∷ jobs) = if text_eq k i then (k, f j) ∷ jobs else (k, j) ∷ modify i f jobs

unfoldable pub release : ℕ → List ℕ → List ℕ
release fd [] = []
release fd (x ∷ xs) = if x == fd then xs else x ∷ release fd xs

found_or_raise : Text → Option JobRecord → Result JobError JobRecord
found_or_raise i none = err (job_not_found i)
found_or_raise i (some j) = ok j

unfoldable pub get_locked : Text → Manager → Result JobError JobRecord
unfolding found_or_raise find
get_locked i m = found_or_raise i (find i m.jobs)

slot_of : Option JobRecord → Manager → Result JobError Manager
slot_of none m = ok (record m { active_job_id = none })
slot_of (some j) m =
    if is_terminal j.status
    then ok (record m { active_job_id = none })
    else err (busy_job j.job_id j.status)

active_slot : Option Text → Manager → Result JobError Manager
unfolding slot_of find
active_slot none m = ok m
active_slot (some i) m = slot_of (find i m.jobs) m

unfoldable pub ensure_slot_available : Manager → Result JobError Manager
unfolding active_slot
ensure_slot_available m = do raise_if m.sync_active busy_sync; active_slot m.active_job_id m

-- Returns the lease's descriptor, or the error, and the descriptors that are open after it.
unfoldable pub acquire_ready_workspace_lease :
    Acquisition → Bool → List ℕ → Result JobError ℕ × List ℕ
unfolding release
acquire_ready_workspace_lease lock_busy no_pending held = (err busy_workspace, held)
acquire_ready_workspace_lease lock_error no_pending held = (err lock_failed, held)
acquire_ready_workspace_lease (granted fd) no_pending held =
    if no_pending then (ok fd, fd ∷ held) else (err recovery_required, release fd (fd ∷ held))

-- `finished_at or created_at`
unfoldable pub sort_key : JobRecord → ℕ
sort_key j = elim j.finished_at [
  | none ↦ j.created_at
  | some t ↦ (elim t [ zero ↦ j.created_at | suc n ↦ suc n ])
]

unfoldable pub insert_by_key : JobRecord → List JobRecord → List JobRecord
unfolding sort_key
insert_by_key j [] = j ∷ []
insert_by_key j (k ∷ ks) =
    if leb (sort_key j) (sort_key k) then j ∷ (k ∷ ks) else k ∷ insert_by_key j ks

-- `list.sort(key=…)`, which is stable.
unfoldable pub sort_by_key : List JobRecord → List JobRecord
unfolding insert_by_key
sort_by_key [] = []
sort_by_key (j ∷ js) = insert_by_key j (sort_by_key js)

unfoldable pub values : Jobs → List JobRecord
values [] = []
values ((_, j) ∷ jobs) = j ∷ values jobs

unfoldable pub first {ℓ} : {A : Type ℓ} → ℕ → List A → List A
first zero xs = []
first (suc n) [] = []
first (suc n) (x ∷ xs) = x ∷ first n xs

unfoldable pub pop_all : List JobRecord → Jobs → Jobs
unfolding pop
pop_all [] jobs = jobs
pop_all (j ∷ js) jobs = pop_all js (pop j.job_id jobs)

abbrev pub is_prunable : JobRecord → Bool
is_prunable j = is_terminal j.status && not j.usage_recording

unfoldable pub prune : Jobs → Jobs
unfolding pop_all values sort_by_key first
prune jobs =
    let terminal = select is_prunable (values jobs) in
    if ltb (length terminal) max_retained_jobs
    then jobs
    else pop_all (first (length terminal - max_retained_jobs + 1) (sort_by_key terminal)) jobs

unfoldable pub new_job : Text → Text → Text → Text → ℕ → JobRecord
new_job i task context capability now = record {
  job_id = i;
  task = task;
  context = context;
  task_length = length task;
  capability = capability;
  status = queued;
  created_at = now;
  started_at = none;
  finished_at = none;
  result = none;
  error = none;
  progress = none;
  usage_recorded = false;
  usage_recording = false;
  cancel_event = false;
  finished_event = false;
  control_messages = [];
  queued_message_bytes = 0;
  accepting_messages = true;
}
