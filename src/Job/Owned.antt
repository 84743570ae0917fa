-- ===== src/Job/Owned.antt =====
-- What the invariant says of the world of a worker thread, and the steps of that thread.
use mathlib.Core.Path.{subst}
use deepseek_as_subagent.Prelude.{
  ℕ, ◌≡◌, refl, sym, ap, ◌∙◌, Bool, false, none, some, List, [], ◌∷◌, ◌++◌, arith, inl, inr, ==_iff,
  Bool-cases,
}
use deepseek_as_subagent.Text.{Text, text_eq, text_eq_refl, text_eq_iff}
use deepseek_as_subagent.Job.Record.{JobRecord, is_terminal, drain_messages}
use deepseek_as_subagent.Job.Manager.{Manager, Jobs, find, release, modify, get_locked}
use deepseek_as_subagent.Job.Worker.{
  AgentEnd, returned, run_background_agent, run_job_begin, begin_record, finish_job, finish_record,
}
use deepseek_as_subagent.Job.Dict.{IsKeyed, AllJobs, AllJobs-find, AllJobs-modify, modify-IsKeyed}
use deepseek_as_subagent.Job.Lifecycle.{
  IsSound, drain_messages-IsSound, begin_record-IsSound, finish_record-IsSound,
}
use deepseek_as_subagent.Job.World.{World, Worker}
use deepseek_as_subagent.Job.Slot.{Ended, EndedBut, Slot, free, sync, background, Inv, Harmless}

module _ {ℓ} {A : Type ℓ} where
  pub nil-split : (before after : List A) (x : A) → ¬ ([] ≡ before ++ x ∷ after)
  nil-split [] after x e = cc
  nil-split (b ∷ before) after x e = cc

  pub one-split :
      (before after : List A) (x y : A)
      → y ∷ [] ≡ before ++ x ∷ after
      → (before ≡ []) × (after ≡ []) × (y ≡ x)
  one-split [] after x y e = (refl, cc, cc)
  one-split (b ∷ before) after x y e = absurd (nil-split before after x (cc))

-- What the invariant says of the world of a worker thread.
pub record Owned (w : World) (k : Worker) (j : JobRecord) : Type 0 where
  pub no_syncs : w.syncs ≡ []
  pub lease : w.manager.held ≡ k.lease ∷ []
  pub not_sync : w.manager.sync_active ≡ false
  pub active : w.manager.active_job_id ≡ some k.job_id
  pub found : find k.job_id w.manager.jobs ≡ some j
  pub live : is_terminal j.status ≡ false
  pub others : AllJobs (EndedBut k.job_id) w.manager.jobs

pub owned :
    (w : World) (before after : List Worker) (k : Worker)
    → w.workers ≡ before ++ k ∷ after
    → Slot w.manager w.workers w.syncs
    → (j : JobRecord) × (before ≡ []) × (after ≡ []) × Owned w k j
owned w before after k e (free a _ _ _ _ _) = absurd (nil-split before after k (sym a ∙ e))
owned w before after k e (sync fd a _ _ _ _ _) = absurd (nil-split before after k (sym a ∙ e))
owned w before after k e (background k' j a b d s n p live h) =
    let (nb, na, same) = one-split before after k k' (sym a ∙ e) in
    (
      j,
      nb,
      na,
      record {
        no_syncs = b;
        lease = ground arith;
        not_sync = s;
        active = ground arith;
        found = ground arith;
        live = live;
        others = subst (λ (x : Worker). AllJobs (EndedBut x.job_id) w.manager.jobs) same h;
      },
    )

pub run_job_begin_lem :
    (i : Text) (now : ℕ) (m : Manager) {j : JobRecord}
    → find i m.jobs ≡ some j
    → (run_job_begin i now m).1 ≡ record m { jobs = modify i (begin_record now) m.jobs }
unfolding run_job_begin get_locked
run_job_begin_lem i now m h = ground arith

pub begin-Harmless :
    (i : Text) (now : ℕ) (jobs : Jobs) (j : JobRecord)
    → find i jobs ≡ some j
    → is_terminal j.status ≡ false
    → IsSound j
    → Harmless jobs i (begin_record now) j
begin-Harmless i now jobs j e live s = record {
  found = e;
  same_id = (unfold begin_record in refl);
  same_end = (unfold begin_record in sym live);
  stays_sound = begin_record-IsSound now j live s;
}

pub drain-Harmless :
    (i : Text) (f : Bool) (jobs : Jobs) (j : JobRecord)
    → find i jobs ≡ some j
    → IsSound j
    → Harmless jobs i (λ x. (drain_messages f x).1) j
drain-Harmless i f jobs j e s = record {
  found = e;
  same_id = (unfold drain_messages in ground arith);
  same_end = (unfold drain_messages in ground arith);
  stays_sound = drain_messages-IsSound f j s;
}

finish_job_lem :
    (i : Text) (end : AgentEnd) (now fd : ℕ) (m : Manager) {j : JobRecord}
    → find i m.jobs ≡ some j
    → m.active_job_id ≡ some i
    → m.held ≡ fd ∷ []
    → (finish_job i (run_background_agent end) fd now m).1 ≡ record m {
      jobs = modify i (finish_record (run_background_agent end) now) m.jobs;
      active_job_id = none;
      held = [];
    }
unfolding finish_job get_locked release
finish_job_lem i end now fd m h a l = ground (arith, text_eq_refl i, ==_iff fd fd)

finish_record-Ended :
    (end : AgentEnd) (now : ℕ) (j : JobRecord)
    → Ended (finish_record (run_background_agent end) now j)
unfolding finish_record run_background_agent
finish_record-Ended (returned v) now j = ground arith
finish_record-Ended _ now j = ground arith

finish_record-job_id :
    (end : AgentEnd) (now : ℕ) (j : JobRecord)
    → (finish_record (run_background_agent end) now j).job_id ≡ j.job_id
unfolding finish_record
finish_record-job_id end now j = ground arith

-- The job that ran was the only one that had not ended.
all-Ended :
    (i : Text) (jobs : Jobs)
    → find i jobs ≡ none
    → IsKeyed jobs
    → AllJobs (EndedBut i) jobs
    → AllJobs Ended jobs
unfolding find
all-Ended i [] e u h = tt
all-Ended i ((k, x) ∷ jobs) e u h =
    (ground (arith, ap (λ n. text_eq n i) u.0, h.0), all-Ended i jobs (ground arith) u.2 h.1)

modify-Ended :
    (i : Text) (f : JobRecord → JobRecord) (jobs : Jobs)
    → ((j : JobRecord) → Ended (f j))
    → IsKeyed jobs
    → AllJobs (EndedBut i) jobs
    → AllJobs Ended (modify i f jobs)
unfolding modify
modify-Ended i f [] ends u h = tt
modify-Ended i f ((k, x) ∷ jobs) ends u h = elim (Bool-cases (text_eq k i)) [
  | inl hit ↦
      rw (hit, modify) (ends x, all-Ended i jobs (ground (arith, u.1, text_eq_iff k i)) u.2 h.1)
  | inr miss ↦
      rw (miss, modify)
        (ground (arith, ap (λ n. text_eq n i) u.0, h.0), modify-Ended i f jobs ends u.2 h.1)
]

pub finish-Inv :
    (w : World) (k : Worker) (j : JobRecord) (end : AgentEnd) (now : ℕ)
    → Owned w k j
    → Inv w
    → Inv (record w {
      manager = (finish_job k.job_id (run_background_agent end) k.lease now w.manager).1;
      workers = [];
    })
finish-Inv w k j end now o v =
    let f = finish_record (run_background_agent end) now in
    rw (finish_job_lem k.job_id end now k.lease w.manager o.found o.active o.lease) (record {
      keyed =
          modify-IsKeyed k.job_id f w.manager.jobs {j = j} o.found (finish_record-job_id end now j)
            v.keyed;
      sound =
          AllJobs-modify IsSound k.job_id f w.manager.jobs {j = j} o.found
            (finish_record-IsSound end now j o.live
              (AllJobs-find IsSound k.job_id w.manager.jobs {j = j} v.sound o.found))
            v.sound;
      slot =
          free refl o.no_syncs refl o.not_sync refl
            (modify-Ended k.job_id f w.manager.jobs (finish_record-Ended end now) v.keyed o.others);
    })
