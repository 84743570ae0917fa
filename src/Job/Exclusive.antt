-- ===== src/Job/Exclusive.antt =====
-- Whatever the order of the threads: one execution at a time, and the lease is held exactly then.
use mathlib.Core.Path.{subst}
use deepseek_as_subagent.Prelude.{
  ℕ, ◌≡◌, ◌≤◌, refl, sym, ap, ◌∙◌, true, false, some, List, [], ◌∷◌, ◌++◌, arith, inl, inr,
  Bool-cases, length, map,
}
use deepseek_as_subagent.Text.{Text, text_eq, text_eq_iff}
use deepseek_as_subagent.Job.Record.{JobRecord, is_terminal, drain_messages}
use deepseek_as_subagent.Job.Manager.{Manager, Jobs, find}
use deepseek_as_subagent.Job.Methods.{
  send_message, cancel, result_with_usage_claim, finish_usage_record,
}
use deepseek_as_subagent.Job.Worker.{run_job_begin, begin_record}
use deepseek_as_subagent.Job.Dict.{IsKeyed, AllJobs, AllJobs-find}
use deepseek_as_subagent.Job.Lifecycle.{IsSound}
use deepseek_as_subagent.Job.World.{
  World, Worker, Step, Reach, here, next, start_world, starts, start_raises, begins, drains,
  finishes, sync_begins, sync_raises, sync_ends, sends, cancels, claims, acknowledges,
}
use deepseek_as_subagent.Job.Slot.{Ended, EndedBut, Slot, free, sync, background, Inv, Inv-modify}
use deepseek_as_subagent.Job.Steps.{
  Touches-Inv, send_message-Touches, cancel-Touches, claim-Touches, acknowledge-Touches,
}
use deepseek_as_subagent.Job.Owned.{
  Owned, owned, nil-split, one-split, run_job_begin_lem, begin-Harmless, drain-Harmless, finish-Inv,
}
use deepseek_as_subagent.Job.Entering.{
  starts-Inv, start_raises-same, sync_begins-Inv, sync_raises-same, sync_ends-Inv,
}

-- A worker that sets its job to running still owns the slot.
relabel :
    (m : Manager) (syncs : List ℕ) (workers : List Worker) (k k' : Worker)
    → workers ≡ k ∷ []
    → k'.job_id ≡ k.job_id
    → k'.lease ≡ k.lease
    → Slot m workers syncs
    → Slot m (k' ∷ []) syncs
relabel m syncs workers k k' e ei el (free a _ _ _ _ _) = absurd (nil-split [] [] k (sym a ∙ e))
relabel m syncs workers k k' e ei el (sync fd a _ _ _ _ _) = absurd (nil-split [] [] k (sym a ∙ e))
relabel m syncs workers k k' e ei el (background o j a b d s n p live h) =
    let (_, _, same) = one-split [] [] k o (sym a ∙ e) in
    background k' j refl b (ground arith) s (ground arith) (ground arith) live (
      subst (λ (i : Text). AllJobs (EndedBut i) m.jobs)
        (ap (λ (x : Worker). x.job_id) same ∙ sym ei) h)

begin-Inv :
    (w : World) (k : Worker) (j : JobRecord) (now : ℕ)
    → w.workers ≡ k ∷ []
    → Owned w k j
    → Inv w
    → Inv (record w {
      manager = (run_job_begin k.job_id now w.manager).1;
      workers = record k { running = true } ∷ [];
    })
begin-Inv w k j now e o v =
    let moved =
      Inv-modify w k.job_id (begin_record now) j
        (begin-Harmless k.job_id now w.manager.jobs j o.found o.live
          (AllJobs-find IsSound k.job_id w.manager.jobs {j = j} v.sound o.found))
        v in
    rw (run_job_begin_lem k.job_id now w.manager o.found) (record {
      keyed = moved.keyed;
      sound = moved.sound;
      slot = relabel _ w.syncs w.workers k (record k { running = true }) e refl refl moved.slot;
    })

Step-Inv : {w v : World} → Step w v → Inv w → Inv v
Step-Inv {w} (starts a fd s m fresh e z) i = rw z (starts-Inv w a fd s m e i.slot i)
Step-Inv {w} (start_raises a x m fresh e z) i = rw (z, start_raises-same w a x m fresh e i.slot) i
Step-Inv {w} (begins before after k now e waiting z) i =
    let (j, nb, na, o) = owned w before after k e i.slot in
    rw (z, nb, na) (begin-Inv w k j now (ground arith) o i)
Step-Inv {w} (drains before after k f e busy z) i =
    let (j, _, _, o) = owned w before after k e i.slot in
    rw z (
      Inv-modify w k.job_id (λ x. (drain_messages f x).1) j
        (drain-Harmless k.job_id f w.manager.jobs j o.found
          (AllJobs-find IsSound k.job_id w.manager.jobs {j = j} i.sound o.found))
        i)
Step-Inv {w} (finishes before after k end now e busy z) i =
    let (j, nb, na, o) = owned w before after k e i.slot in
    rw (z, nb, na) (finish-Inv w k j end now o i)
Step-Inv {w} (sync_begins task q np fd m e z) i = rw z (sync_begins-Inv w task q np fd m e i.slot i)
Step-Inv {w} (sync_raises task q np x m e z) i = rw (z, sync_raises-same w task q np x m e i.slot) i
Step-Inv {w} (sync_ends before after fd e z) i = rw z (sync_ends-Inv w before after fd e i.slot i)
Step-Inv {w} (sends n message z) i = rw z (
    Touches-Inv w n (send_message n message w.manager).1
      (send_message-Touches n message w.manager i.sound) i)
Step-Inv {w} (cancels n z) i =
    rw z (Touches-Inv w n (cancel n w.manager).1 (cancel-Touches n w.manager i.sound) i)
Step-Inv {w} (claims n z) i =
    rw z (
      Touches-Inv w n (result_with_usage_claim n w.manager).1 (claim-Touches n w.manager i.sound) i)
Step-Inv {w} (acknowledges n p z) i = rw z (
    Touches-Inv w n (finish_usage_record n p w.manager).1
      (acknowledge-Touches n p w.manager i.sound) i)

start_world-Inv : Inv start_world
start_world-Inv = record { keyed = tt; sound = tt; slot = free refl refl refl refl refl tt }

pub Reach-Inv : {w v : World} → Reach w v → Inv w → Inv v
Reach-Inv here i = i
Reach-Inv (next r st) i = Step-Inv st (Reach-Inv r i)

-- What a reachable world shows: the threads inside an execution, background or synchronous, hold
-- one lease each and hold all leases, and there is at most one of them.
pub record IsExclusive (w : World) : Type 0 where
  pub leases : w.manager.held ≡ map (λ (k : Worker). k.lease) w.workers ++ w.syncs
  pub at_most_one : length w.manager.held ≤ 1

Slot-IsExclusive : (w : World) → Slot w.manager w.workers w.syncs → IsExclusive w
Slot-IsExclusive w (free a b c _ _ _) = record {
  leases = ground arith;
  at_most_one = rw c (omega arith);
}
Slot-IsExclusive w (sync fd a b c _ _ _) = record {
  leases = ground arith;
  at_most_one = rw c (omega arith);
}
Slot-IsExclusive w (background k j a b c _ _ _ _ _) = record {
  leases = ground arith;
  at_most_one = rw c (omega arith);
}

-- In every order of starts, synchronous runs, worker steps and host calls from an empty manager,
-- with ids that are not in use, at most one execution is inside the agent, the open leases are
-- exactly those of the executions under way, and every job is sound.
pub reachable-IsExclusive :
    {w : World}
    → Reach start_world w
    → IsExclusive w × AllJobs IsSound w.manager.jobs × IsKeyed w.manager.jobs
reachable-IsExclusive {w} r =
    let i = Reach-Inv r start_world-Inv in (Slot-IsExclusive w i.slot, i.sound, i.keyed)

find-IsKeyed :
    (i : Text) (jobs : Jobs) {j : JobRecord} → IsKeyed jobs → find i jobs ≡ some j → j.job_id ≡ i
unfolding find
find-IsKeyed i [] u e = cc
find-IsKeyed i ((k, x) ∷ jobs) {j} u e = elim (Bool-cases (text_eq k i)) [
  | inl hit ↦ ground (arith, u.0, text_eq_iff k i)
  | inr miss ↦ find-IsKeyed i jobs {j = j} u.2 (ground arith)
]

Slot-worker :
    (w : World) (i : Text) (j : JobRecord)
    → Inv w
    → Slot w.manager w.workers w.syncs
    → find i w.manager.jobs ≡ some j
    → is_terminal j.status ≡ false
    → (k : Worker) × (w.workers ≡ k ∷ []) × (k.job_id ≡ i) × (w.manager.active_job_id ≡ some i)
Slot-worker w i j v (free _ _ _ _ _ h) e live = cc (AllJobs-find Ended i w.manager.jobs {j = j} h e)
Slot-worker w i j v (sync _ _ _ _ _ _ h) e live =
    cc (AllJobs-find Ended i w.manager.jobs {j = j} h e)
Slot-worker w i j v (background k _ a _ _ _ n _ _ h) e live =
    let mine : k.job_id ≡ i = ground (
      arith,
      AllJobs-find (EndedBut k.job_id) i w.manager.jobs {j = j} h e,
      find-IsKeyed i w.manager.jobs {j = j} v.keyed e,
      text_eq_iff j.job_id k.job_id,
    ) in
    (k, a, mine, n ∙ ap some mine)

-- In a reachable world a job that has not ended is the active one, and a worker thread that will
-- end it is alive: no job is left behind.
pub unfinished_has_worker :
    {w : World} {j : JobRecord} (i : Text)
    → Reach start_world w
    → find i w.manager.jobs ≡ some j
    → is_terminal j.status ≡ false
    → (k : Worker) × (w.workers ≡ k ∷ []) × (k.job_id ≡ i) × (w.manager.active_job_id ≡ some i)
unfinished_has_worker {w} {j} i r e live =
    let v = Reach-Inv r start_world-Inv in Slot-worker w i j v v.slot e live
