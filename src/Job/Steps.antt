-- ===== src/Job/Steps.antt =====
-- Every step of the manager and its threads keeps the invariant.
use deepseek_as_subagent.Prelude.{◌≡◌, ap, Bool, arith, ◌⊎◌, inl, inr, Option-cases}
use deepseek_as_subagent.Prelude.Results.{ok, Result-cases}
use deepseek_as_subagent.Text.{Text}
use deepseek_as_subagent.Job.Record.{JobRecord, is_terminal, queue_message}
use deepseek_as_subagent.Job.Manager.{Manager, find, modify, get_locked}
use deepseek_as_subagent.Job.Methods.{
  send_to_job, send_message, cancel_job, cancel, claim_usage, result_with_usage_claim,
  acknowledge_usage, finish_usage_record,
}
use deepseek_as_subagent.Job.Dict.{AllJobs, AllJobs-find}
use deepseek_as_subagent.Job.Lifecycle.{
  IsSound, send_to_job-IsSound, cancel_job-IsSound, claim_usage-IsSound, acknowledge_usage-IsSound,
}
use deepseek_as_subagent.Job.World.{World}
use deepseek_as_subagent.Job.Slot.{Inv, Harmless, Inv-modify}

-- A call on the job of an id changes nothing, or changes only that job and harmlessly.
abbrev pub Touches : Manager → Text → Manager → Type 0
Touches m i m' =
    (m' ≡ m)
    ⊎ ((f : JobRecord → JobRecord) × (j : JobRecord) × Harmless m.jobs i f j
        × (m' ≡ record m { jobs = modify i f m.jobs }))

pub Touches-Inv :
    (w : World) (i : Text) (m' : Manager)
    → Touches w.manager i m'
    → Inv w
    → Inv (record w { manager = m' })
Touches-Inv w i m' (inl e) v = rw e v
Touches-Inv w i m' (inr (f, j, c, e)) v = rw e (Inv-modify w i f j c v)

send_to_job-same :
    (j : JobRecord) (m : Text) {k : JobRecord}
    → send_to_job j m ≡ ok k
    → (k.job_id ≡ j.job_id) × (k.status ≡ j.status)
unfolding send_to_job queue_message
send_to_job-same j m h = ground arith

pub send_message-Touches :
    (i message : Text) (m : Manager)
    → AllJobs IsSound m.jobs
    → Touches m i (send_message i message m).1
unfolding send_message get_locked
send_message-Touches i message m s = elim (Option-cases (find i m.jobs)) [
  | inl missing ↦ inl (ground arith)
  | inr (j, found) ↦ elim (Result-cases (send_to_job j message)) [
    | inl (k, sent) ↦
        let same = send_to_job-same j message sent in
        inr (
          λ _. k,
          j,
          record {
            found = found;
            same_id = same.0;
            same_end = ap is_terminal same.1;
            stays_sound =
                send_to_job-IsSound j message (AllJobs-find IsSound i m.jobs s found) sent;
          },
          ground arith,
        )
    | inr (e, refused) ↦ inl (ground arith)
  ]
]

cancel_job-same :
    (j : JobRecord) → ((cancel_job j).0.job_id ≡ j.job_id) × ((cancel_job j).0.status ≡ j.status)
unfolding cancel_job
cancel_job-same j = ground arith

pub cancel-Touches : (i : Text) (m : Manager) → AllJobs IsSound m.jobs → Touches m i (cancel i m).1
unfolding cancel get_locked
cancel-Touches i m s = elim (Option-cases (find i m.jobs)) [
  | inl missing ↦ inl (ground arith)
  | inr (j, found) ↦
      let same = cancel_job-same j in
      inr (
        λ _. (cancel_job j).0,
        j,
        record {
          found = found;
          same_id = same.0;
          same_end = ap is_terminal same.1;
          stays_sound = cancel_job-IsSound j (AllJobs-find IsSound i m.jobs s found);
        },
        ground arith,
      )
]

claim_usage-same :
    (j : JobRecord) → ((claim_usage j).1.job_id ≡ j.job_id) × ((claim_usage j).1.status ≡ j.status)
unfolding claim_usage
claim_usage-same j = ground arith

pub claim-Touches :
    (i : Text) (m : Manager) → AllJobs IsSound m.jobs → Touches m i (result_with_usage_claim i m).1
unfolding result_with_usage_claim get_locked
claim-Touches i m s = elim (Option-cases (find i m.jobs)) [
  | inl missing ↦ inl (ground arith)
  | inr (j, found) ↦
      let same = claim_usage-same j in
      inr (
        λ _. (claim_usage j).1,
        j,
        record {
          found = found;
          same_id = same.0;
          same_end = ap is_terminal same.1;
          stays_sound = claim_usage-IsSound j (AllJobs-find IsSound i m.jobs s found);
        },
        ground arith,
      )
]

acknowledge_usage-same :
    (p : Bool) (j : JobRecord)
    → ((acknowledge_usage p j).job_id ≡ j.job_id) × ((acknowledge_usage p j).status ≡ j.status)
unfolding acknowledge_usage
acknowledge_usage-same p j = ground arith

pub acknowledge-Touches :
    (i : Text) (p : Bool) (m : Manager)
    → AllJobs IsSound m.jobs
    → Touches m i (finish_usage_record i p m).1
unfolding finish_usage_record get_locked
acknowledge-Touches i p m s = elim (Option-cases (find i m.jobs)) [
  | inl missing ↦ inl (ground arith)
  | inr (j, found) ↦
      let same = acknowledge_usage-same p j in
      inr (
        acknowledge_usage p,
        j,
        record {
          found = found;
          same_id = same.0;
          same_end = ap is_terminal same.1;
          stays_sound = acknowledge_usage-IsSound p j (AllJobs-find IsSound i m.jobs s found);
        },
        ground arith,
      )
]
