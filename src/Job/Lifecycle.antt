-- ===== src/Job/Lifecycle.antt =====
-- The invariant of one job, and that each thing done to a job keeps it.
use deepseek_as_subagent.Prelude.{
  ℕ, ◌≡◌, Bool, true, false, not, ◌&&◌, ◌||◌, Option, none, some, arith, is_empty,
}
use deepseek_as_subagent.Prelude.Results.{ok}
use deepseek_as_subagent.Text.{Text}
use deepseek_as_subagent.Job.Record.{
  JobRecord, is_terminal, is_completed, is_cancelled, queue_message, drain_messages,
}
use deepseek_as_subagent.Job.Mailbox.{
  MailboxFits, queue_message_lem, drain_messages_lem, drain-MailboxFits,
}
use deepseek_as_subagent.Job.Manager.{new_job}
use deepseek_as_subagent.Job.Methods.{send_to_job, cancel_job, claim_usage, acknowledge_usage}
use deepseek_as_subagent.Job.Worker.{
  AgentEnd, returned, run_background_agent, finish_record, begin_record,
}

abbrev pub present {ℓ} : {A : Type ℓ} → Option A → Bool
present none = false
present (some a) = true

-- `finished` holds the finish event and the finish time exactly in the terminal states; a mailbox
-- that is closed is empty, and it is closed by the end of the job and by a cancellation; there is
-- a result exactly when the job completed; a job that ended was cancelled exactly if its
-- cancellation was accepted before; and usage is claimed of completed jobs, once at a time.
pub record IsSound (j : JobRecord) : Type 0 where
  pub mailbox : MailboxFits j
  pub event : j.finished_event ≡ is_terminal j.status
  pub time : present j.finished_at ≡ is_terminal j.status
  pub drained : j.accepting_messages || is_empty j.control_messages ≡ true
  pub closed : (is_terminal j.status || j.cancel_event) && j.accepting_messages ≡ false
  pub outcome : present j.result ≡ is_completed j.status
  pub cancellation : is_terminal j.status && j.cancel_event ≡ is_cancelled j.status
  pub usage : (j.usage_recording || j.usage_recorded) && not (is_completed j.status) ≡ false
  pub usage_once : j.usage_recording && j.usage_recorded ≡ false

pub new_job-IsSound :
    (i task context capability : Text) (now : ℕ) → IsSound (new_job i task context capability now)
unfolding new_job
new_job-IsSound i task context capability now = ground arith

-- The part of a job that `queue_message` and `drain_messages` leave alone.
abbrev pub SameButMail : JobRecord → JobRecord → Type 0
SameButMail j k =
    (k.status ≡ j.status)
    × (k.finished_event ≡ j.finished_event)
    × (k.finished_at ≡ j.finished_at)
    × (k.result ≡ j.result)
    × (k.cancel_event ≡ j.cancel_event)
    × (k.usage_recording ≡ j.usage_recording)
    × (k.usage_recorded ≡ j.usage_recorded)

queue_message-SameButMail :
    (j : JobRecord) (m : Text) {k : JobRecord} → queue_message j m ≡ ok k → SameButMail j k
unfolding queue_message
queue_message-SameButMail j m h = ground arith

drain_messages-SameButMail : (f : Bool) (j : JobRecord) → SameButMail j (drain_messages f j).1
unfolding drain_messages
drain_messages-SameButMail f j = ground arith

IsSound-SameButMail :
    (j k : JobRecord)
    → SameButMail j k
    → MailboxFits k
    → k.accepting_messages || is_empty k.control_messages ≡ true
    → (is_terminal k.status || k.cancel_event) && k.accepting_messages ≡ false
    → IsSound j
    → IsSound k
IsSound-SameButMail j k same fits drained closed s = ground arith

send_to_job_lem :
    (j : JobRecord) (m : Text) {k : JobRecord}
    → send_to_job j m ≡ ok k
    → (is_terminal j.status ≡ false) × (queue_message j m ≡ ok k)
unfolding send_to_job
send_to_job_lem j m h = ground arith

pub send_to_job-IsSound :
    (j : JobRecord) (m : Text) {k : JobRecord} → IsSound j → send_to_job j m ≡ ok k → IsSound k
send_to_job-IsSound j m {k} s h =
    let (live, queued_ok) = send_to_job_lem j m h in
    let same = queue_message-SameButMail j m queued_ok in
    let mail = queue_message_lem j m s.mailbox queued_ok in
    IsSound-SameButMail j k same mail.0 (ground (arith, mail))
      (ground (arith, mail, same, s.closed)) s

pub drain_messages-IsSound : (f : Bool) (j : JobRecord) → IsSound j → IsSound (drain_messages f j).1
drain_messages-IsSound f j s =
    let same = drain_messages-SameButMail f j in
    let mail = drain_messages_lem f j in
    IsSound-SameButMail j (drain_messages f j).1 same (drain-MailboxFits f j s.mailbox)
      (ground (arith, mail)) (ground (arith, mail, same, s.closed)) s

pub cancel_job-IsSound : (j : JobRecord) → IsSound j → IsSound (cancel_job j).0
unfolding cancel_job
cancel_job-IsSound j s = ground arith

pub claim_usage-IsSound : (j : JobRecord) → IsSound j → IsSound (claim_usage j).1
unfolding claim_usage
claim_usage-IsSound j s = ground arith

pub acknowledge_usage-IsSound :
    (persisted : Bool) (j : JobRecord) → IsSound j → IsSound (acknowledge_usage persisted j)
unfolding acknowledge_usage
acknowledge_usage-IsSound persisted j s = ground arith

pub begin_record-IsSound :
    (now : ℕ) (j : JobRecord)
    → is_terminal j.status ≡ false
    → IsSound j
    → IsSound (begin_record now j)
unfolding begin_record
begin_record-IsSound now j live s = ground arith

pub finish_record-IsSound :
    (end : AgentEnd) (now : ℕ) (j : JobRecord)
    → is_terminal j.status ≡ false
    → IsSound j
    → IsSound (finish_record (run_background_agent end) now j)
unfolding finish_record run_background_agent
finish_record-IsSound (returned v) now j live s = ground arith
finish_record-IsSound _ now j live s = ground arith
