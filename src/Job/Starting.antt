-- ===== src/Job/Starting.antt =====
-- What `start` and `run_sync` do to the manager, by the state of the execution slot.
use deepseek_as_subagent.Prelude.{
  ℕ, ◌≡◌, Bool, true, false, none, some, List, [], ◌∷◌, arith, ◌⊎◌, inl, inr, ==_iff, if◌then◌else◌,
}
use deepseek_as_subagent.Prelude.Results.{Result, ok, err}
use deepseek_as_subagent.Text.{Text, text_eq_refl}
use deepseek_as_subagent.Job.Record.{
  JobRecord, JobError, Snapshot, busy_sync, busy_job, is_terminal,
}
use deepseek_as_subagent.Job.Manager.{
  Manager, Acquisition, Jobs, find, put, pop, prune, release, new_job, ensure_slot_available,
  acquire_ready_workspace_lease,
}
use deepseek_as_subagent.Job.Methods.{StartCall, start, run_sync_begin}

-- The two reasons for which the slot is taken.
abbrev pub IsBusy : Manager → Type 0
IsBusy m =
    (m.sync_active ≡ true)
    ⊎ ((i : Text) × (j : JobRecord) × (m.active_job_id ≡ some i)
        × (find i m.jobs ≡ some j)
        × (is_terminal j.status ≡ false))

busy_slot : (m : Manager) → IsBusy m → (e : JobError) × (ensure_slot_available m ≡ err e)
unfolding ensure_slot_available
busy_slot m (inl h) = (busy_sync, ground arith)
busy_slot m (inr (i, j, a, f, live)) =
    (if m.sync_active then busy_sync else busy_job j.job_id j.status, ground arith)

idle_slot :
    (m : Manager) → m.sync_active ≡ false → m.active_job_id ≡ none → ensure_slot_available m ≡ ok m
unfolding ensure_slot_available
idle_slot m s a = ground arith

pub start_busy :
    (a : StartCall) (m : Manager) {r : Result JobError (ℕ × Snapshot)} {m' : Manager}
    → IsBusy m
    → start a m ≡ (r, m')
    → m' ≡ m
unfolding start
start_busy a m b h = ground (arith, (busy_slot m b).1)

pub start_busy_raises :
    (a : StartCall) (m : Manager) {x : ℕ × Snapshot} {m' : Manager}
    → IsBusy m
    → ¬ (start a m ≡ (ok x, m'))
unfolding start
start_busy_raises a m b h = ground (arith, (busy_slot m b).1)

release-head : (fd : ℕ) (held : List ℕ) → release fd (fd ∷ held) ≡ held
unfolding release
release-head fd held = ground (arith, ==_iff fd fd)

pop-put :
    (i : Text) (v : JobRecord) (jobs : Jobs) → find i jobs ≡ none → pop i (put i v jobs) ≡ jobs
unfolding find put pop
pop-put i v [] h = ground (arith, text_eq_refl i)
pop-put i v ((k, x) ∷ jobs) h = ground (arith, pop-put i v jobs)

pub start_ok :
    (a : StartCall) (m : Manager) {fd : ℕ} {s : Snapshot} {m' : Manager}
    → m.sync_active ≡ false
    → m.active_job_id ≡ none
    → start a m ≡ (ok (fd, s), m')
    → m' ≡ record {
      jobs = prune (put a.new_id (new_job a.new_id a.task a.context a.capability a.now) m.jobs);
      active_job_id = some a.new_id;
      sync_active = false;
      held = fd ∷ m.held;
    }
unfolding start acquire_ready_workspace_lease
start_ok a m s n h = ground (arith, idle_slot m s n)

pub start_err :
    (a : StartCall) (m : Manager) {e : JobError} {m' : Manager}
    → m.sync_active ≡ false
    → m.active_job_id ≡ none
    → find a.new_id m.jobs ≡ none
    → start a m ≡ (err e, m')
    → m' ≡ m
unfolding start acquire_ready_workspace_lease
start_err a m s n f h = grind (
  arith,
  idle_slot m s n,
  release-head,
  pop-put a.new_id (new_job a.new_id a.task a.context a.capability a.now) m.jobs f,
)

pub sync_busy :
    (task : Text) (q : Acquisition) (no_pending : Bool) (m : Manager) {r : Result JobError ℕ}
    {m' : Manager}
    → IsBusy m
    → run_sync_begin task q no_pending m ≡ (r, m')
    → m' ≡ m
unfolding run_sync_begin
sync_busy task q no_pending m b h = ground (arith, (busy_slot m b).1)

pub sync_busy_raises :
    (task : Text) (q : Acquisition) (no_pending : Bool) (m : Manager) {fd : ℕ} {m' : Manager}
    → IsBusy m
    → ¬ (run_sync_begin task q no_pending m ≡ (ok fd, m'))
unfolding run_sync_begin
sync_busy_raises task q no_pending m b h = ground (arith, (busy_slot m b).1)

pub sync_ok :
    (task : Text) (q : Acquisition) (no_pending : Bool) (m : Manager) {fd : ℕ} {m' : Manager}
    → m.sync_active ≡ false
    → m.active_job_id ≡ none
    → run_sync_begin task q no_pending m ≡ (ok fd, m')
    → m' ≡ record m { sync_active = true; held = fd ∷ m.held }
unfolding run_sync_begin acquire_ready_workspace_lease
sync_ok task q no_pending m s n h = ground (arith, idle_slot m s n)

pub sync_err :
    (task : Text) (q : Acquisition) (no_pending : Bool) (m : Manager) {e : JobError} {m' : Manager}
    → m.sync_active ≡ false
    → m.active_job_id ≡ none
    → run_sync_begin task q no_pending m ≡ (err e, m')
    → m' ≡ m
unfolding run_sync_begin acquire_ready_workspace_lease
sync_err task q no_pending m s n h = grind (arith, idle_slot m s n, release-head)
