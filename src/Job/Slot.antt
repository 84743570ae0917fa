-- ===== src/Job/Slot.antt =====
-- The invariant of the manager and its threads: who owns the execution slot and the lease.
use deepseek_as_subagent.Prelude.{
  ℕ, ◌≡◌, ◌∙◌, true, false, none, some, List, [], ◌∷◌, arith, Bool-cases, inl, inr, ◌⊎◌,
}
use deepseek_as_subagent.Text.{Text, text_eq, text_eq_iff}
use deepseek_as_subagent.Job.Record.{JobRecord, is_terminal}
use deepseek_as_subagent.Job.Manager.{Manager, Jobs, find, modify}
use deepseek_as_subagent.Job.Dict.{
  IsKeyed, AllJobs, AllJobs-find, AllJobs-modify, find-modify, modify-IsKeyed,
}
use deepseek_as_subagent.Job.Lifecycle.{IsSound}
use deepseek_as_subagent.Job.World.{World, Worker}

abbrev pub Ended : JobRecord → Type 0
Ended j = is_terminal j.status ≡ true

abbrev pub EndedBut : Text → JobRecord → Type 0
EndedBut i j = (text_eq j.job_id i ≡ true) ⊎ (is_terminal j.status ≡ true)

-- Nobody runs and no lease is held; or one caller is inside `run_sync` with the only lease; or one
-- worker has the only lease, and its job is the active one and the only one that has not ended.
pub data Slot (m : Manager) (workers : List Worker) (syncs : List ℕ) : Type 0 where
  free :
      workers ≡ []
      → syncs ≡ []
      → m.held ≡ []
      → m.sync_active ≡ false
      → m.active_job_id ≡ none
      → AllJobs Ended m.jobs
      → Slot m workers syncs
  sync :
      (fd : ℕ)
      → workers ≡ []
      → syncs ≡ fd ∷ []
      → m.held ≡ fd ∷ []
      → m.sync_active ≡ true
      → m.active_job_id ≡ none
      → AllJobs Ended m.jobs
      → Slot m workers syncs
  background :
      (k : Worker) (j : JobRecord)
      → workers ≡ k ∷ []
      → syncs ≡ []
      → m.held ≡ k.lease ∷ []
      → m.sync_active ≡ false
      → m.active_job_id ≡ some k.job_id
      → find k.job_id m.jobs ≡ some j
      → is_terminal j.status ≡ false
      → AllJobs (EndedBut k.job_id) m.jobs
      → Slot m workers syncs

pub record Inv (w : World) : Type 0 where
  pub keyed : IsKeyed w.manager.jobs
  pub sound : AllJobs IsSound w.manager.jobs
  pub slot : Slot w.manager w.workers w.syncs

-- A change of the job that is found, which neither ends it nor revives it.
pub record Harmless (jobs : Jobs) (i : Text) (f : JobRecord → JobRecord) (j : JobRecord)
    : Type 0 where
  pub found : find i jobs ≡ some j
  pub same_id : (f j).job_id ≡ j.job_id
  pub same_end : is_terminal (f j).status ≡ is_terminal j.status
  pub stays_sound : IsSound (f j)

found_modified :
    (n i : Text) (f : JobRecord → JobRecord) (jobs : Jobs) {j j' : JobRecord}
    → find i jobs ≡ some j
    → is_terminal (f j).status ≡ is_terminal j.status
    → find n jobs ≡ some j'
    → is_terminal j'.status ≡ false
    → (x : JobRecord) × (find n (modify i f jobs) ≡ some x) × (is_terminal x.status ≡ false)
found_modified n i f jobs {j} {j'} e t e' live = elim (Bool-cases (text_eq i n)) [
  | inl hit ↦ (
    f j,
    ground (arith, find-modify n i f jobs, text_eq_iff i n),
    ground (arith, text_eq_iff i n),
  )
  | inr miss ↦ (j', ground (arith, find-modify n i f jobs), live)
]

Slot-modify :
    (m : Manager) (workers : List Worker) (syncs : List ℕ) (i : Text) (f : JobRecord → JobRecord)
    (j : JobRecord)
    → Harmless m.jobs i f j
    → Slot m workers syncs
    → Slot (record m { jobs = modify i f m.jobs }) workers syncs
Slot-modify m workers syncs i f j c (free a b d e g h) = free a b d e g (
    AllJobs-modify Ended i f m.jobs {j = j} c.found
      (c.same_end ∙ AllJobs-find Ended i m.jobs {j = j} h c.found) h)
Slot-modify m workers syncs i f j c (sync fd a b d e g h) = sync fd a b d e g (
    AllJobs-modify Ended i f m.jobs {j = j} c.found
      (c.same_end ∙ AllJobs-find Ended i m.jobs {j = j} h c.found) h)
Slot-modify m workers syncs i f j c (background k j' a b d e g p live h) =
    let (x, px, lx) =
      found_modified k.job_id i f m.jobs {j = j} {j' = j'} c.found c.same_end p live in
    background k x a b d e g px lx (
      AllJobs-modify (EndedBut k.job_id) i f m.jobs {j = j} c.found
        (ground (
          arith,
          AllJobs-find (EndedBut k.job_id) i m.jobs {j = j} h c.found,
          c.same_id,
          c.same_end,
        ))
        h)

pub Inv-modify :
    (w : World) (i : Text) (f : JobRecord → JobRecord) (j : JobRecord)
    → Harmless w.manager.jobs i f j
    → Inv w
    → Inv (record w { manager = record (w.manager) { jobs = modify i f w.manager.jobs } })
Inv-modify w i f j c v = record {
  keyed = modify-IsKeyed i f w.manager.jobs {j = j} c.found c.same_id v.keyed;
  sound = AllJobs-modify IsSound i f w.manager.jobs {j = j} c.found c.stays_sound v.sound;
  slot = Slot-modify w.manager w.workers w.syncs i f j c v.slot;
}
