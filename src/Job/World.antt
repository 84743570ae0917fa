-- ===== src/Job/World.antt =====
-- The manager among its threads (src/deepseek_mcp/job_manager.py): the worker threads of background
-- jobs, the callers inside `run_sync`, and every order in which they and the hosts' calls take the
-- manager's lock. Each worker holds the lease that `start` handed to it.
use deepseek_as_subagent.Prelude.{ℕ, ◌≡◌, Bool, true, false, none, List, [], ◌∷◌, ◌++◌}
use deepseek_as_subagent.Prelude.Results.{ok, err}
use deepseek_as_subagent.Text.{Text}
use deepseek_as_subagent.Job.Record.{JobError, Snapshot, drain_messages}
use deepseek_as_subagent.Job.Manager.{Manager, Acquisition, find, modify}
use deepseek_as_subagent.Job.Methods.{
  StartCall, start, run_sync_begin, run_sync_end, send_message, cancel, result_with_usage_claim,
  finish_usage_record,
}
use deepseek_as_subagent.Job.Worker.{AgentEnd, run_background_agent, run_job_begin, finish_job}

-- A worker thread, before and after `_run_job` has set its job to running.
pub record Worker : Type 0 where
  pub job_id : Text
  pub lease : ℕ
  pub running : Bool

pub record World : Type 0 where
  pub manager : Manager
  pub workers : List Worker
  pub syncs : List ℕ

abbrev pub start_world : World
start_world = record {
  manager = record { jobs = []; active_job_id = none; sync_active = false; held = [] };
  workers = [];
  syncs = [];
}

-- One thread takes the lock once. A new id names no job: `uuid4` gives fresh ones.
pub data Step (w v : World) : Type 0 where
  starts :
      (a : StartCall) (fd : ℕ) (s : Snapshot) (m : Manager)
      → find a.new_id w.manager.jobs ≡ none
      → start a w.manager ≡ (ok (fd, s), m)
      → v ≡ record {
        manager = m;
        workers = record { job_id = a.new_id; lease = fd; running = false } ∷ w.workers;
        syncs = w.syncs;
      }
      → Step w v
  start_raises :
      (a : StartCall) (e : JobError) (m : Manager)
      → find a.new_id w.manager.jobs ≡ none
      → start a w.manager ≡ (err e, m)
      → v ≡ record w { manager = m }
      → Step w v
  begins :
      (before after : List Worker) (k : Worker) (now : ℕ)
      → w.workers ≡ before ++ k ∷ after
      → k.running ≡ false
      → v ≡ record w {
        manager = (run_job_begin k.job_id now w.manager).1;
        workers = before ++ record k { running = true } ∷ after;
      }
      → Step w v
  drains :
      (before after : List Worker) (k : Worker) (finalize : Bool)
      → w.workers ≡ before ++ k ∷ after
      → k.running ≡ true
      → v ≡ record w {
        manager = record (w.manager) {
          jobs = modify k.job_id (λ j. (drain_messages finalize j).1) w.manager.jobs;
        };
      }
      → Step w v
  finishes :
      (before after : List Worker) (k : Worker) (end : AgentEnd) (now : ℕ)
      → w.workers ≡ before ++ k ∷ after
      → k.running ≡ true
      → v ≡ record w {
        manager = (finish_job k.job_id (run_background_agent end) k.lease now w.manager).1;
        workers = before ++ after;
      }
      → Step w v
  sync_begins :
      (task : Text) (q : Acquisition) (no_pending : Bool) (fd : ℕ) (m : Manager)
      → run_sync_begin task q no_pending w.manager ≡ (ok fd, m)
      → v ≡ record w { manager = m; syncs = fd ∷ w.syncs }
      → Step w v
  sync_raises :
      (task : Text) (q : Acquisition) (no_pending : Bool) (e : JobError) (m : Manager)
      → run_sync_begin task q no_pending w.manager ≡ (err e, m)
      → v ≡ record w { manager = m }
      → Step w v
  sync_ends :
      (before after : List ℕ) (fd : ℕ)
      → w.syncs ≡ before ++ fd ∷ after
      → v ≡ record w { manager = run_sync_end fd w.manager; syncs = before ++ after }
      → Step w v
  sends :
      (i message : Text)
      → v ≡ record w { manager = (send_message i message w.manager).1 }
      → Step w v
  cancels : (i : Text) → v ≡ record w { manager = (cancel i w.manager).1 } → Step w v
  claims :
      (i : Text) → v ≡ record w { manager = (result_with_usage_claim i w.manager).1 } → Step w v
  acknowledges :
      (i : Text) (persisted : Bool)
      → v ≡ record w { manager = (finish_usage_record i persisted w.manager).1 }
      → Step w v

pub data Reach (w : World) : World → Type 0 where
  here : Reach w w
  next : {u v : World} → Reach w u → Step u v → Reach w v
