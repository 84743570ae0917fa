-- ===== src/Job/Mailbox.antt =====
-- The mailbox of a job: its bounds, and that an acknowledged message is drained or still queued.
use deepseek_as_subagent.Prelude.{
  ℕ, ◌+◌, ◌≤◌, ◌≡◌, Bool, true, false, none, some, List, [], ◌∷◌, ◌++◌, arith, length,
  length-append, inl, inr, ap, ◌⊎◌, is_empty, append-nil, append_assoc, sym, ◌∙◌, ◌&&◌,
  if◌then◌else◌,
}
use deepseek_as_subagent.Prelude.Results.{ok, err, Result-cases, bind-eq-ok}
use deepseek_as_subagent.Text.{Text, utf8_size, is_blank, codes}
use deepseek_as_subagent.Job.Record.{
  JobRecord, max_queued_messages, max_queued_message_bytes, max_steering_message_bytes,
  bounded_text_bytes, enqueue, queue_message, drain_messages,
}

-- The size of a text that the encoder accepts.
abbrev pub byte_size : Text → ℕ
byte_size s = elim (utf8_size s) [ none ↦ 0 | some n ↦ n ]

abbrev pub total_bytes : List Text → ℕ
total_bytes [] = 0
total_bytes (m ∷ ms) = byte_size m + total_bytes ms

pub total_bytes-append :
    (ms ns : List Text) → total_bytes (ms ++ ns) ≡ total_bytes ms + total_bytes ns
total_bytes-append [] ns = omega arith
total_bytes-append (m ∷ ms) ns = omega (arith, total_bytes-append ms ns)

-- The counter is the size of what is queued, and both bounds hold.
pub record MailboxFits (j : JobRecord) : Type 0 where
  pub counted : j.queued_message_bytes ≡ total_bytes j.control_messages
  pub few : length j.control_messages ≤ max_queued_messages
  pub small : j.queued_message_bytes ≤ max_queued_message_bytes

-- An accepted text is encodable, within the limit, and not blank where blank is forbidden.
pub bounded_text_bytes_lem :
    (label value : Text) (limit : ℕ) (allow_empty : Bool) {size : ℕ}
    → bounded_text_bytes label value limit allow_empty ≡ ok size
    → (utf8_size value ≡ some size)
      × (size ≤ limit)
      × (length value ≤ limit)
      × ((allow_empty ≡ true) ⊎ (is_blank value ≡ false))
unfolding bounded_text_bytes
bounded_text_bytes_lem label value limit allow_empty h = ground arith

pub enqueue-MailboxFits :
    (j : JobRecord) (m : Text) (size : ℕ) {k : JobRecord}
    → utf8_size m ≡ some size
    → enqueue j m size ≡ ok k
    → MailboxFits j
    → MailboxFits k
unfolding enqueue
enqueue-MailboxFits j m size e h f = ground (
  arith,
  length-append j.control_messages (m ∷ []),
  total_bytes-append j.control_messages (m ∷ []),
)

enqueue_lem :
    (j : JobRecord) (m : Text) (size : ℕ) {k : JobRecord}
    → enqueue j m size ≡ ok k
    → (k.control_messages ≡ j.control_messages ++ m ∷ [])
      × (j.accepting_messages ≡ true)
      × (k.accepting_messages ≡ true)
unfolding enqueue
enqueue_lem j m size h = ground arith

-- A message that `queue_message` accepts is not blank and at most 64 KiB of UTF-8. The mailbox was
-- open, stays open, holds the message last, and keeps its count and its bounds.
pub queue_message_lem :
    (j : JobRecord) (m : Text) {k : JobRecord}
    → MailboxFits j
    → queue_message j m ≡ ok k
    → MailboxFits k
      × (k.control_messages ≡ j.control_messages ++ m ∷ [])
      × (j.accepting_messages ≡ true)
      × (k.accepting_messages ≡ true)
      × (is_blank m ≡ false)
      × (byte_size m ≤ max_steering_message_bytes)
unfolding queue_message
queue_message_lem j m f h =
    let (size, b, e) =
      bind-eq-ok (bounded_text_bytes (codes "message") m max_steering_message_bytes false)
        (enqueue j m) h in
    let sized = bounded_text_bytes_lem (codes "message") m max_steering_message_bytes false b in
    let queued = enqueue_lem j m size e in
    (
      enqueue-MailboxFits j m size sized.0 e f,
      queued.0,
      queued.1,
      queued.2,
      ground arith,
      ground arith,
    )

-- What the sender and the agent do with a mailbox that stays open until the agent closes it.
pub data MailEvent : Type 0 where
  send : Text → MailEvent
  drain : Bool → MailEvent

-- A mailbox with the messages that it acknowledged and those that it handed to the agent.
pub record Trace : Type 0 where
  pub job : JobRecord
  pub acknowledged : List Text
  pub delivered : List Text

unfoldable pub mail_step : Trace → MailEvent → Trace
mail_step t (send m) = elim (queue_message t.job m) [
  | ok k ↦ record t { job = k; acknowledged = t.acknowledged ++ m ∷ [] }
  | err e ↦ t
]
mail_step t (drain finalize) =
    let (ms, k) = drain_messages finalize t.job in
    record t { job = k; delivered = t.delivered ++ ms }

unfoldable pub mail_run : Trace → List MailEvent → Trace
unfolding mail_step
mail_run t [] = t
mail_run t (e ∷ es) = mail_run (mail_step t e) es

-- Nothing acknowledged is lost, nothing is delivered twice, and order is kept.
pub record IsExact (t : Trace) : Type 0 where
  pub fits : MailboxFits t.job
  pub fifo : t.delivered ++ t.job.control_messages ≡ t.acknowledged
  pub closed_empty : (t.job.accepting_messages ≡ true) ⊎ (t.job.control_messages ≡ [])

-- A drain hands over all that is queued and leaves nothing, and only closes a mailbox that it
-- finds empty.
pub drain_messages_lem :
    (finalize : Bool) (j : JobRecord)
    → ((drain_messages finalize j).0 ≡ j.control_messages)
      × ((drain_messages finalize j).1.control_messages ≡ [])
      × ((drain_messages finalize j).1.accepting_messages
          ≡ (if is_empty j.control_messages && finalize then false else j.accepting_messages))
unfolding drain_messages
drain_messages_lem finalize j = ground arith

pub drain-MailboxFits :
    (finalize : Bool) (j : JobRecord) → MailboxFits j → MailboxFits (drain_messages finalize j).1
unfolding drain_messages
drain-MailboxFits finalize j f = ground arith

drain-IsExact : (t : Trace) (finalize : Bool) → IsExact t → IsExact (mail_step t (drain finalize))
unfolding mail_step
drain-IsExact t finalize x =
    let (all, none_left, _) = drain_messages_lem finalize t.job in
    record {
      fits = drain-MailboxFits finalize t.job x.fits;
      fifo = rw (all, none_left) (append-nil _ ∙ x.fifo);
      closed_empty = inr none_left;
    }

send-IsExact : (t : Trace) (m : Text) → IsExact t → IsExact (mail_step t (send m))
unfolding mail_step
send-IsExact t m x = elim (Result-cases (queue_message t.job m)) [
  | inl (k, e) ↦
      let (fits, last, _, stays_open, _, _) = queue_message_lem t.job m x.fits e in
      rw (e, mail_step)
        (record {
          fits = fits;
          fifo = rw last (
              sym (append_assoc t.delivered t.job.control_messages (m ∷ []))
              ∙ ap (λ ms. ms ++ m ∷ []) x.fifo);
          closed_empty = inl stays_open;
        })
  | inr (_, e) ↦ rw (e, mail_step) x
]

mail_run-IsExact : (t : Trace) (es : List MailEvent) → IsExact t → IsExact (mail_run t es)
unfolding mail_run
mail_run-IsExact t [] x = x
mail_run-IsExact t (send m ∷ es) x = mail_run-IsExact (mail_step t (send m)) es (send-IsExact t m x)
mail_run-IsExact t (drain f ∷ es) x =
    mail_run-IsExact (mail_step t (drain f)) es (drain-IsExact t f x)

abbrev pub opened : JobRecord → Trace
opened j = record { job = j; acknowledged = []; delivered = [] }

-- From a job with an empty mailbox, whatever sends and drains follow, the delivered messages and
-- then the queued ones are exactly the acknowledged ones, in order, within the bounds; and once
-- the mailbox no longer accepts messages, all that was acknowledged has been delivered.
pub mail_delivery :
    (j : JobRecord) (es : List MailEvent)
    → j.control_messages ≡ []
    → j.queued_message_bytes ≡ 0
    → IsExact (mail_run (opened j) es)
      × (((mail_run (opened j) es).job.accepting_messages ≡ true)
          ⊎ ((mail_run (opened j) es).delivered ≡ (mail_run (opened j) es).acknowledged))
mail_delivery j es empty zero_bytes =
    let t = mail_run (opened j) es in
    let x =
      mail_run-IsExact (opened j) es
        (record { fits = ground arith; fifo = empty; closed_empty = inr empty }) in
    (
      x,
      elim x.closed_empty [
        | inl accepting ↦ inl accepting
        | inr e ↦ inr (sym (append-nil t.delivered) ∙ ap (λ ms. t.delivered ++ ms) (sym e) ∙ x.fifo)
      ],
    )
