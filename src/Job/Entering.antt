-- ===== src/Job/Entering.antt =====
-- A start or a `run_sync` succeeds from the free slot only, and the end of `run_sync` frees it.
use mathlib.Core.Path.{subst}
use deepseek_as_subagent.Prelude.{
  ℕ, ◌≡◌, refl, sym, ap, ◌∙◌, Bool, false, none, some, List, [], ◌∷◌, ◌++◌, arith, inl, inr, ==_iff,
}
use deepseek_as_subagent.Prelude.Results.{ok, err}
use deepseek_as_subagent.Text.{Text, text_eq, text_eq_refl}
use deepseek_as_subagent.Job.Record.{JobRecord, JobError, Snapshot, is_terminal}
use deepseek_as_subagent.Job.Manager.{Manager, Acquisition, Jobs, find, put, release, new_job}
use deepseek_as_subagent.Job.Methods.{StartCall, start, run_sync_begin, run_sync_end}
use deepseek_as_subagent.Job.Dict.{
  IsKeyed, AllJobs, AllJobs-put, AllJobs-prune, find-put, put-IsKeyed, prune-IsKeyed, find-prune,
}
use deepseek_as_subagent.Job.Lifecycle.{IsSound, new_job-IsSound}
use deepseek_as_subagent.Job.World.{World, Worker}
use deepseek_as_subagent.Job.Slot.{Ended, EndedBut, Slot, free, sync, background, Inv}
use deepseek_as_subagent.Job.Starting.{
  start_busy, start_busy_raises, start_ok, start_err, sync_busy, sync_busy_raises, sync_ok,
  sync_err,
}
use deepseek_as_subagent.Job.Owned.{nil-split, one-split}

Ended-others : (i : Text) (jobs : Jobs) → AllJobs Ended jobs → AllJobs (EndedBut i) jobs
Ended-others i [] h = tt
Ended-others i ((k, x) ∷ jobs) h = (inr h.0, Ended-others i jobs h.1)

new_job-lem :
    (i task context capability : Text) (now : ℕ)
    → let j = new_job i task context capability now in
      (j.job_id ≡ i) × (is_terminal j.status ≡ false)
unfolding new_job
new_job-lem i task context capability now = (refl, refl)

-- A start that succeeds from the free slot.
start-Inv :
    (w : World) (a : StartCall) (fd : ℕ) (s : Snapshot) (m : Manager)
    → start a w.manager ≡ (ok (fd, s), m)
    → w.workers ≡ []
    → w.syncs ≡ []
    → w.manager.held ≡ []
    → w.manager.sync_active ≡ false
    → w.manager.active_job_id ≡ none
    → AllJobs Ended w.manager.jobs
    → Inv w
    → Inv (record {
      manager = m;
      workers = record { job_id = a.new_id; lease = fd; running = false } ∷ w.workers;
      syncs = w.syncs;
    })
start-Inv w a fd s m e ws ss hs n g h v =
    let j : JobRecord = new_job a.new_id a.task a.context a.capability a.now in
    let added : Jobs = put a.new_id j w.manager.jobs in
    let (id, live) = new_job-lem a.new_id a.task a.context a.capability a.now in
    let keyed_added : IsKeyed added =
      subst (λ (i : Text). IsKeyed (put i j w.manager.jobs)) id
        (put-IsKeyed j w.manager.jobs v.keyed) in
    let there : find a.new_id added ≡ some j =
      find-put a.new_id a.new_id j w.manager.jobs ∙ (ground (arith, text_eq_refl a.new_id)) in
    rw (start_ok a w.manager n g e) (record {
      keyed = prune-IsKeyed added keyed_added;
      sound = AllJobs-prune IsSound added (
          AllJobs-put IsSound a.new_id j w.manager.jobs
            (new_job-IsSound a.new_id a.task a.context a.capability a.now) v.sound);
      slot =
          background (record { job_id = a.new_id; lease = fd; running = false }) j
            (ap
              (λ (ks : List Worker). record { job_id = a.new_id; lease = fd; running = false } ∷ ks)
              ws)
            ss (ap (λ (fds : List ℕ). fd ∷ fds) hs) refl refl
            (find-prune a.new_id added {j = j} keyed_added there live) live
            (AllJobs-prune (EndedBut a.new_id) added (
              AllJobs-put (EndedBut a.new_id) a.new_id j w.manager.jobs
                (inl (ap (λ i. text_eq i a.new_id) id ∙ text_eq_refl a.new_id))
                (Ended-others a.new_id w.manager.jobs h)));
    })

pub starts-Inv :
    (w : World) (a : StartCall) (fd : ℕ) (s : Snapshot) (m : Manager)
    → start a w.manager ≡ (ok (fd, s), m)
    → Slot w.manager w.workers w.syncs
    → Inv w
    → Inv (record {
      manager = m;
      workers = record { job_id = a.new_id; lease = fd; running = false } ∷ w.workers;
      syncs = w.syncs;
    })
starts-Inv w a fd s m e (free ws ss hs n g h) v = start-Inv w a fd s m e ws ss hs n g h v
starts-Inv w a fd s m e (sync _ _ _ _ n _ _) v = absurd (start_busy_raises a w.manager (inl n) e)
starts-Inv w a fd s m e (background k j _ _ _ _ g p live _) v =
    absurd (start_busy_raises a w.manager (inr (k.job_id, j, g, p, live)) e)

pub start_raises-same :
    (w : World) (a : StartCall) (e : JobError) (m : Manager)
    → find a.new_id w.manager.jobs ≡ none
    → start a w.manager ≡ (err e, m)
    → Slot w.manager w.workers w.syncs
    → m ≡ w.manager
start_raises-same w a e m f h (free ws ss hs n g _) = start_err a w.manager n g f h
start_raises-same w a e m f h (sync _ _ _ _ n _ _) = start_busy a w.manager (inl n) h
start_raises-same w a e m f h (background k j _ _ _ _ g p live _) =
    start_busy a w.manager (inr (k.job_id, j, g, p, live)) h

pub sync_begins-Inv :
    (w : World) (task : Text) (q : Acquisition) (no_pending : Bool) (fd : ℕ) (m : Manager)
    → run_sync_begin task q no_pending w.manager ≡ (ok fd, m)
    → Slot w.manager w.workers w.syncs
    → Inv w
    → Inv (record w { manager = m; syncs = fd ∷ w.syncs })
sync_begins-Inv w task q np fd m e (free ws ss hs n g h) v =
    rw (sync_ok task q np w.manager n g e) (record {
      keyed = v.keyed;
      sound = v.sound;
      slot =
          sync fd ws (ap (λ (fds : List ℕ). fd ∷ fds) ss) (ap (λ (fds : List ℕ). fd ∷ fds) hs) refl
            g h;
    })
sync_begins-Inv w task q np fd m e (sync _ _ _ _ n _ _) v =
    absurd (sync_busy_raises task q np w.manager (inl n) e)
sync_begins-Inv w task q np fd m e (background k j _ _ _ _ g p live _) v =
    absurd (sync_busy_raises task q np w.manager (inr (k.job_id, j, g, p, live)) e)

pub sync_raises-same :
    (w : World) (task : Text) (q : Acquisition) (no_pending : Bool) (e : JobError) (m : Manager)
    → run_sync_begin task q no_pending w.manager ≡ (err e, m)
    → Slot w.manager w.workers w.syncs
    → m ≡ w.manager
sync_raises-same w task q np e m h (free ws ss hs n g _) = sync_err task q np w.manager n g h
sync_raises-same w task q np e m h (sync _ _ _ _ n _ _) = sync_busy task q np w.manager (inl n) h
sync_raises-same w task q np e m h (background k j _ _ _ _ g p live _) =
    sync_busy task q np w.manager (inr (k.job_id, j, g, p, live)) h

pub sync_ends-Inv :
    (w : World) (before after : List ℕ) (fd : ℕ)
    → w.syncs ≡ before ++ fd ∷ after
    → Slot w.manager w.workers w.syncs
    → Inv w
    → Inv (record w { manager = run_sync_end fd w.manager; syncs = before ++ after })
unfolding run_sync_end release
sync_ends-Inv w before after fd e (free _ b _ _ _ _) v =
    absurd (nil-split before after fd (sym b ∙ e))
sync_ends-Inv w before after fd e (background _ _ _ b _ _ _ _ _ _) v =
    absurd (nil-split before after fd (sym b ∙ e))
sync_ends-Inv w before after fd e (sync x ws ss hs n g h) v =
    let (nb, na, same) = one-split before after fd x (sym ss ∙ e) in
    record {
      keyed = v.keyed;
      sound = v.sound;
      slot = free ws (ground arith) (ground (arith, ==_iff x fd)) refl g h;
    }
