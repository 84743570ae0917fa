-- ===== src/Job/Methods.antt =====
-- src/deepseek_mcp/job_manager.py: the methods of `DeepSeekJobManager`, each a step under its lock.
use deepseek_as_subagent.Prelude.{
  ℕ, Bool, true, false, not, ◌&&◌, ◌||◌, Option, none, some, List, if◌then◌else◌,
}
use deepseek_as_subagent.Prelude.Results.{Result, ok, err, ◌>>=◌, ◌>>◌, raise_if}
use deepseek_as_subagent.Text.{Text, codes}
use deepseek_as_subagent.Json.{Value, truthy}
use deepseek_as_subagent.Job.Record.{
  JobRecord, Snapshot, JobError, already_terminal, worker_not_started, is_terminal, is_completed,
  max_combined_task_bytes, snapshot, bounded_text_bytes, validate_delegation_input, queue_message,
  close_messages,
}
use deepseek_as_subagent.Job.Manager.{
  Manager, Acquisition, put, pop, modify, release, get_locked, ensure_slot_available,
  acquire_ready_workspace_lease, prune, new_job,
}

-- The arguments of `start`, with what its surroundings answer: the new id, the time, the lease, the
-- recovery journal, and whether the worker thread starts.
pub record StartCall : Type 0 where
  pub task : Text
  pub context : Text
  pub capability : Text
  pub new_id : Text
  pub now : ℕ
  pub acquisition : Acquisition
  pub no_pending : Bool
  pub worker_starts : Bool

start_leased :
    StartCall → Manager → Result JobError ℕ × List ℕ → Result JobError (ℕ × Snapshot) × Manager
start_leased a m (err e, held) = (err e, record m { held = held })
start_leased a m (ok fd, held) =
    let job = new_job a.new_id a.task a.context a.capability a.now in
    let jobs = put a.new_id job m.jobs in
    if a.worker_starts
    then (
      ok (fd, snapshot job),
      record m { jobs = prune jobs; active_job_id = some a.new_id; held = held },
    )
    else (
      err worker_not_started,
      record m { jobs = pop a.new_id jobs; active_job_id = none; held = release fd held },
    )

start_in_slot :
    StartCall → Manager → Result JobError Manager → Result JobError (ℕ × Snapshot) × Manager
unfolding start_leased
start_in_slot a m (err e) = (err e, m)
start_in_slot a m (ok free) =
    start_leased a free (acquire_ready_workspace_lease a.acquisition a.no_pending free.held)

start_checked : StartCall → Manager → Result JobError ℕ → Result JobError (ℕ × Snapshot) × Manager
unfolding start_in_slot
start_checked a m (err e) = (err e, m)
start_checked a m (ok _) = start_in_slot a m (ensure_slot_available m)

-- Returns the lease that the worker thread is given, beside the snapshot.
unfoldable pub start : StartCall → Manager → Result JobError (ℕ × Snapshot) × Manager
unfolding start_checked
start a m = start_checked a m (validate_delegation_input a.task a.context)

sync_leased : Manager → Result JobError ℕ × List ℕ → Result JobError ℕ × Manager
sync_leased m (err e, held) = (err e, record m { held = held })
sync_leased m (ok fd, held) = (ok fd, record m { sync_active = true; held = held })

sync_in_slot : Acquisition → Bool → Manager → Result JobError Manager → Result JobError ℕ × Manager
unfolding sync_leased
sync_in_slot q no_pending m (err e) = (err e, m)
sync_in_slot q no_pending m (ok free) =
    sync_leased free (acquire_ready_workspace_lease q no_pending free.held)

sync_checked : Acquisition → Bool → Manager → Result JobError ℕ → Result JobError ℕ × Manager
unfolding sync_in_slot
sync_checked q no_pending m (err e) = (err e, m)
sync_checked q no_pending m (ok _) = sync_in_slot q no_pending m (ensure_slot_available m)

-- `run_sync` up to its `try`.
unfoldable pub run_sync_begin : Text → Acquisition → Bool → Manager → Result JobError ℕ × Manager
unfolding sync_checked
run_sync_begin task q no_pending m =
    sync_checked q no_pending m
      (bounded_text_bytes (codes "task") task max_combined_task_bytes false)

-- The `finally` of `run_sync`, whether the agent returned or raised.
unfoldable pub run_sync_end : ℕ → Manager → Manager
run_sync_end fd m = record m { held = release fd m.held; sync_active = false }

unfoldable pub status : Text → Manager → Result JobError Snapshot
unfolding get_locked snapshot
status i m = do j ← get_locked i m; ok (snapshot j)

unfoldable pub send_to_job : JobRecord → Text → Result JobError JobRecord
unfolding queue_message
send_to_job j message = do
  raise_if (is_terminal j.status) (already_terminal j.job_id j.status)
  queue_message j message

write_back : Text → Manager → Result JobError JobRecord → Result JobError Snapshot × Manager
write_back i m (err e) = (err e, m)
write_back i m (ok k) = (ok (snapshot k), record m { jobs = modify i (λ _. k) m.jobs })

unfoldable pub send_message : Text → Text → Manager → Result JobError Snapshot × Manager
unfolding write_back
send_message i message m = write_back i m (do j ← get_locked i m; send_to_job j message)

-- What `cancel` does to the job, and its `cancel_accepted`.
unfoldable pub cancel_job : JobRecord → JobRecord × Bool
unfolding close_messages
cancel_job j =
    if is_terminal j.status
    then (j, false)
    else if j.cancel_event
    then (j, false)
    else (close_messages (record j { cancel_event = true }), true)

cancel_found :
    Text → Manager → Result JobError JobRecord → Result JobError (Snapshot × Bool) × Manager
cancel_found i m (err e) = (err e, m)
cancel_found i m (ok j) =
    let (k, accepted) = cancel_job j in
    (ok (snapshot k, accepted), record m { jobs = modify i (λ _. k) m.jobs })

unfoldable pub cancel : Text → Manager → Result JobError (Snapshot × Bool) × Manager
unfolding cancel_found
cancel i m = cancel_found i m (get_locked i m)

pub record ResultPayload : Type 0 where
  pub snap : Snapshot
  pub result : Option Value
  pub partial_progress : Option Value
  pub ready : Bool

-- `if job.progress`
abbrev pub given : Option Value → Bool
given none = false
given (some v) = truthy v

unfoldable pub result_payload : JobRecord → ResultPayload
unfolding snapshot truthy
result_payload j = record {
  snap = snapshot j;
  result = (if is_completed j.status then j.result else none);
  partial_progress = (if given j.progress && not (is_completed j.status) then j.progress else none);
  ready = is_terminal j.status;
}

-- `_claim_usage_locked`: the claim, and the job after it.
unfoldable pub claim_usage : JobRecord → Option (ℕ × Option Value) × JobRecord
unfolding truthy
claim_usage j =
    if not (is_completed j.status) || not (given j.result) || j.usage_recorded || j.usage_recording
    then (none, j)
    else (some (j.task_length, j.result), record j { usage_recording = true })

claim_found :
    Text
    → Manager
    → Result JobError JobRecord
    → Result JobError (ResultPayload × Option (ℕ × Option Value)) × Manager
claim_found i m (err e) = (err e, m)
claim_found i m (ok j) =
    let (claim, k) = claim_usage j in
    (ok (result_payload j, claim), record m { jobs = modify i (λ _. k) m.jobs })

unfoldable pub result_with_usage_claim :
    Text → Manager → Result JobError (ResultPayload × Option (ℕ × Option Value)) × Manager
unfolding claim_found
result_with_usage_claim i m = claim_found i m (get_locked i m)

unfoldable pub acknowledge_usage : Bool → JobRecord → JobRecord
acknowledge_usage persisted j =
    if not j.usage_recording
    then j
    else if persisted
    then record j { usage_recording = false; usage_recorded = true }
    else record j { usage_recording = false }

usage_found :
    Text → Bool → Manager → Result JobError JobRecord → Result JobError (Unit {0}) × Manager
usage_found i persisted m (err e) = (err e, m)
usage_found i persisted m (ok j) =
    (ok tt, record m { jobs = modify i (acknowledge_usage persisted) m.jobs })

unfoldable pub finish_usage_record : Text → Bool → Manager → Result JobError (Unit {0}) × Manager
unfolding usage_found
finish_usage_record i persisted m = usage_found i persisted m (get_locked i m)
