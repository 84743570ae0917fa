-- ===== src/Examples/Jobs.antt =====
-- The job manager at concrete jobs (src/deepseek_mcp/job_manager.py).
use deepseek_as_subagent.Prelude.{
  ◌≤◌, ◌≡◌, refl, true, false, ◌⊎◌, ◌++◌, none, some, List, [], ◌∷◌, All, arith,
}
use deepseek_as_subagent.Prelude.Results.{ok}
use deepseek_as_subagent.Text.{Text, codes, is_blank, utf8_size}
use deepseek_as_subagent.Json.{obj, Fields, field, end, get}
use deepseek_as_subagent.Mutation.{MutationRecord, known_status, payload, mutation_failure_message}
use deepseek_as_subagent.Mutation.Records.{IsReportable}
use deepseek_as_subagent.Mutation.Messages.{Infix}
use deepseek_as_subagent.Job.Record.{
  JobRecord, cancelled, is_terminal, cancelled_error, snapshot, queue_message,
  validate_delegation_input, bounded_text_bytes,
}
use deepseek_as_subagent.Job.Manager.{
  Manager, granted, find, put, new_job, prune, ensure_slot_available, acquire_ready_workspace_lease,
}
use deepseek_as_subagent.Job.Methods.{StartCall, start}
use deepseek_as_subagent.Job.Worker.{returned, loop_error, run_background_agent, finish_record}
use deepseek_as_subagent.Job.World.{World, Worker, Reach, here, next, starts, start_world}
use deepseek_as_subagent.Job.Dict.{IsKeyed, AllJobs, find-prune}
use deepseek_as_subagent.Job.Lifecycle.{IsSound, present}
use deepseek_as_subagent.Job.Mailbox.{
  MailboxFits, MailEvent, send, drain, mail_run, opened, IsExact, mail_delivery, queue_message_lem,
  byte_size,
}
use deepseek_as_subagent.Job.Ending.{finish_record-cancelled, finish_record-keeps_records}
use deepseek_as_subagent.Job.Exclusive.{IsExclusive, reachable-IsExclusive, unfinished_has_worker}

abbrev job_name : Text
job_name = codes "a1"

abbrev call : StartCall
call = record {
  task = codes "fix";
  context = [];
  capability = codes "full";
  new_id = job_name;
  now = 5;
  acquisition = granted 7;
  no_pending = true;
  worker_starts = true;
}

abbrev fresh : JobRecord
fresh = new_job job_name (codes "fix") [] (codes "full") 5

abbrev one_job : Manager
one_job = record {
  jobs = (job_name, fresh) ∷ [];
  active_job_id = some job_name;
  sync_active = false;
  held = 7 ∷ [];
}

abbrev one_worker : World
one_worker = record {
  manager = one_job;
  workers = record { job_id = job_name; lease = 7; running = false } ∷ [];
  syncs = [];
}

call_starts : start call start_world.manager ≡ (ok (7, snapshot fresh), one_job)
unfolding start new_job snapshot validate_delegation_input is_blank utf8_size ensure_slot_available
    acquire_ready_workspace_lease prune put
call_starts = refl

one_worker_reached : Reach start_world one_worker
unfolding find
one_worker_reached = next here (starts call 7 (snapshot fresh) one_job refl call_starts refl)

reachable-IsExclusive_example :
    IsExclusive one_worker
    × AllJobs IsSound one_worker.manager.jobs
    × IsKeyed one_worker.manager.jobs
reachable-IsExclusive_example = reachable-IsExclusive one_worker_reached

fresh_found : find job_name one_worker.manager.jobs ≡ some fresh
unfolding find
fresh_found = refl

fresh_unfinished : is_terminal fresh.status ≡ false
unfolding new_job
fresh_unfinished = refl

unfinished_has_worker_example :
    (k : Worker) × (one_worker.workers ≡ k ∷ [])
    × (k.job_id ≡ job_name)
    × (one_worker.manager.active_job_id ≡ some job_name)
unfinished_has_worker_example =
    unfinished_has_worker job_name one_worker_reached fresh_found fresh_unfinished

abbrev mail : List MailEvent
mail =
    send (codes "stop")
    ∷ (drain false ∷ (send (codes "go") ∷ (drain true ∷ (drain true ∷ (send (codes "late") ∷ [])))))

fresh_empty : fresh.control_messages ≡ []
unfolding new_job
fresh_empty = refl

fresh_zero : fresh.queued_message_bytes ≡ 0
unfolding new_job
fresh_zero = refl

mail_delivery_example :
    IsExact (mail_run (opened fresh) mail)
    × (((mail_run (opened fresh) mail).job.accepting_messages ≡ true)
        ⊎ ((mail_run (opened fresh) mail).delivered ≡ (mail_run (opened fresh) mail).acknowledged))
mail_delivery_example = mail_delivery fresh mail fresh_empty fresh_zero

-- The job after `cancel`.
abbrev stopped : JobRecord
stopped = record fresh { cancel_event = true; accepting_messages = false }

finish_record-cancelled_example :
    ((finish_record (run_background_agent (loop_error (codes "no") none)) 9 stopped).status
      ≡ cancelled)
    × ((finish_record (run_background_agent (loop_error (codes "no") none)) 9 stopped).result
        ≡ none)
    × (present (finish_record (run_background_agent (loop_error (codes "no") none)) 9 stopped).error
        ≡ true)
    × ((finish_record
          (run_background_agent (loop_error (codes "no") none))
          9
          stopped).accepting_messages
        ≡ false)
    × ((finish_record
          (run_background_agent (loop_error (codes "no") none))
          9
          stopped).finished_event
        ≡ true)
finish_record-cancelled_example =
    finish_record-cancelled (loop_error (codes "no") none) 9 stopped refl

abbrev written : MutationRecord
written = record {
  transaction_id = codes "t1";
  tool = codes "Write";
  status = codes "uncertain";
  warning = some (codes "slow");
}

written-IsReportable : All IsReportable (written ∷ [])
unfolding known_status
written-IsReportable =
    (record { status_known = refl; warning_fits = (omega arith, omega arith) }, tt)

abbrev outcome : Fields
outcome = field (codes "mutations") (payload (written ∷ [])) end

outcome_mutations : get (codes "mutations") outcome ≡ some (payload (written ∷ []))
unfolding get
outcome_mutations = refl

finish_record-keeps_records_example :
    (message : Text) × ((finish_record
        (run_background_agent (returned (obj outcome)))
        9
        stopped).error
      ≡ some message)
    × (message ≡ mutation_failure_message (written ∷ []) cancelled_error)
    × All (λ (m : MutationRecord). Infix m.transaction_id message) (written ∷ [])
finish_record-keeps_records_example =
    finish_record-keeps_records outcome written [] 9 stopped refl written-IsReportable
      outcome_mutations

fresh-IsKeyed : IsKeyed ((job_name, fresh) ∷ [])
unfolding find new_job
fresh-IsKeyed = (refl, refl, tt)

find-prune_example : find job_name (prune ((job_name, fresh) ∷ [])) ≡ some fresh
find-prune_example =
    find-prune job_name ((job_name, fresh) ∷ []) fresh-IsKeyed fresh_found fresh_unfinished

fresh_fits : MailboxFits fresh
unfolding new_job
fresh_fits = record { counted = refl; few = omega arith; small = omega arith }

abbrev steered : JobRecord
steered = record fresh { control_messages = codes "go" ∷ []; queued_message_bytes = 2 }

steered_queued : queue_message fresh (codes "go") ≡ ok steered
unfolding queue_message new_job bounded_text_bytes is_blank utf8_size
steered_queued = refl

queue_message_lem_example :
    MailboxFits steered
    × (steered.control_messages ≡ fresh.control_messages ++ codes "go" ∷ [])
    × (fresh.accepting_messages ≡ true)
    × (steered.accepting_messages ≡ true)
    × (is_blank (codes "go") ≡ false)
    × (byte_size (codes "go") ≤ 65536)
queue_message_lem_example = queue_message_lem fresh (codes "go") fresh_fits steered_queued
