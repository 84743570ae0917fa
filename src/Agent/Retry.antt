-- ===== src/Agent/Retry.antt =====
-- src/deepseek_mcp/provider_retry.py: at most two retries of transient API failures and one of a
-- local failure of the provider child.
pub mod Bounds
use deepseek_as_subagent.Prelude.{
  ℕ, zero, suc, ◌+◌, ◌-◌, ◌*◌, min, Bool, true, false, not, ◌&&◌, ◌||◌, Option, none, some, List,
  [], ◌∷◌, ◌++◌, ltb, ◌==◌, if◌then◌else◌,
}
use deepseek_as_subagent.Prelude.Results.{Result, ok, err}
use deepseek_as_subagent.Prelude.Exec.{Exec, pure, raise, ◌>>=◌, ◌>>◌, raise_if}
use deepseek_as_subagent.Text.{Text, codes, text_eq}
use deepseek_as_subagent.Json.{Value}
use deepseek_as_subagent.Json.Size.{decimal}
use deepseek_as_subagent.Provider.{ProviderResponse}
use deepseek_as_subagent.Agent.Errors.{
  AgentError, raised, loop_error, output_error, other, cancelled_by_parent,
}
use deepseek_as_subagent.Agent.Host.{
  Host, Answer, responds, fails, request_cancelled, request_deadline,
}

abbrev pub api_retry_attempts : ℕ
api_retry_attempts = 2

abbrev pub client_retry_attempts : ℕ
client_retry_attempts = 1

-- Two seconds.
abbrev pub api_retry_backoff : ℕ
api_retry_backoff = 2000

pub is_terminal_output : Text → Bool
unfolding text_eq
is_terminal_output s =
    text_eq s (codes "category=output_truncated") || text_eq s (codes "category=content_filtered")

pub is_local : Text → Bool
unfolding text_eq
is_local s = text_eq s (codes "category=client")

unfoldable pub terminal_failure : ℕ → Text → Bool → ℕ → AgentError
unfolding decimal
terminal_failure turn summary local api_attempts =
    if local
    then raised loop_error
        (codes "DeepSeek client error on turn " ++ (decimal turn ++ (codes ": " ++ summary)))
    else if api_attempts == 0
    then raised loop_error
        (codes "DeepSeek API error on turn " ++ (decimal turn ++ (codes ": " ++ summary)))
    else raised loop_error (
        codes "DeepSeek API unreachable after "
        ++ (decimal (1 + api_attempts)
            ++ (codes " attempts on turn " ++ (decimal turn ++ (codes ": " ++ summary)))))

-- The counters of `call_with_retry`.
pub record Retries : Type 0 where
  pub api_retries : ℕ
  pub client_retries : ℕ
  pub api_attempts : ℕ
  pub client_attempts : ℕ

abbrev pub fresh_retries : Retries
fresh_retries = record {
  api_retries = api_retry_attempts;
  client_retries = client_retry_attempts;
  api_attempts = 0;
  client_attempts = 0;
}

-- What the loop does after one answer: it returns, raises, or waits and goes on.
pub data Verdict : Type 0 where
  done : ProviderResponse → Verdict
  stop : AgentError → Verdict
  again : ℕ → Retries → Verdict

pub judge_failure : ℕ → Retries → Text → Bool → Verdict
unfolding is_terminal_output is_local terminal_failure
judge_failure turn r summary retryable =
    if is_terminal_output summary
    then stop (raised output_error (codes "DeepSeek model response incomplete: " ++ summary))
    else if is_local summary && ltb 0 r.client_retries
    then again r.client_attempts (record r {
      client_retries = r.client_retries - 1;
      client_attempts = r.client_attempts + 1;
    })
    else if not (is_local summary) && (retryable && ltb 0 r.api_retries)
    then again r.api_attempts
        (record r { api_retries = r.api_retries - 1; api_attempts = r.api_attempts + 1 })
    else stop (terminal_failure turn summary (is_local summary) r.api_attempts)

unfoldable pub judge : ℕ → ℕ → Retries → Answer → Verdict
unfolding judge_failure
judge max_run_seconds turn r (responds response) = done response
judge max_run_seconds turn r (fails summary retryable) = judge_failure turn r summary retryable
judge max_run_seconds turn r request_cancelled = stop cancelled_by_parent
judge max_run_seconds turn r request_deadline = stop (
    raised loop_error
      (codes "run time budget exceeded (" ++ (decimal max_run_seconds ++ codes "s)")))

module _ (h : Host) where
  open h use {World, is_set, wait, remaining, request}

  unfoldable pub check_cancel : Exec World AgentError (Unit {0})
  check_cancel w = let (set, v) = is_set w in raise_if set cancelled_by_parent v

  unfoldable pub remaining_seconds : Exec World AgentError ℕ
  remaining_seconds w =
      let (left, v) = remaining w in
      if left == 0
      then (err (raised loop_error (codes "run time budget exceeded")), v)
      else (ok left, v)

  unfoldable pub wait_before_retry : ℕ → Exec World AgentError (Unit {0})
  wait_before_retry delay w = let (set, v) = wait delay w in raise_if set cancelled_by_parent v

  unfoldable pub backoff : ℕ → Exec World AgentError (Unit {0})
  unfolding remaining_seconds wait_before_retry
  backoff attempt = do
    left ← remaining_seconds
    wait_before_retry (min (api_retry_backoff * (attempt + 1)) left)

  -- `call_with_retry`, on fuel: `none` means that the fuel ran out.
  unfoldable pub retry_loop :
      ℕ → ℕ → ℕ → Value → Retries → World → Option (Result AgentError ProviderResponse × World)
  unfolding check_cancel backoff judge
  retry_loop zero max_run_seconds turn body r w = none
  retry_loop (suc fuel) max_run_seconds turn body r w =
      let (c, u) = check_cancel w in
      elim c [
        | err e ↦ some (err e, u)
        | ok _ ↦
            let (answer, v) = request body u in
            elim (judge max_run_seconds turn r answer) [
              | done response ↦ some (ok response, v)
              | stop e ↦ some (err e, v)
              | again attempt r' ↦
                  let (b, x) = backoff attempt v in
                  elim b [
                    | err e ↦ some (err e, x)
                    | ok _ ↦ retry_loop fuel max_run_seconds turn body r' x
                  ]
            ]
      ]

  -- Four requests at most, so four rounds are enough.
  unfoldable pub call_with_retry : ℕ → ℕ → Value → Exec World AgentError ProviderResponse
  unfolding retry_loop
  call_with_retry max_run_seconds turn body w =
      elim (retry_loop 4 max_run_seconds turn body fresh_retries w) [
        | some end ↦ end
        | none ↦ (err (raised other (codes "out of fuel")), w)
      ]
