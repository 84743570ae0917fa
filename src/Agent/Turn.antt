-- ===== src/Agent/Turn.antt =====
-- src/deepseek_mcp/agent_loop.py: a turn of a run, the tools that it executes, and the run itself.
use deepseek_as_subagent.Prelude.{
  ℕ, zero, suc, ◌+◌, ◌/◌, max, true, false, ◌||◌, Option, none, some, List, [], ◌∷◌, ◌++◌, ltb, leb,
  if◌then◌else◌, is_empty,
}
use deepseek_as_subagent.Prelude.Results.{Result, ok, err}
use deepseek_as_subagent.Prelude.Exec.{Exec, pure, raise, ◌>>=◌, ◌>>◌, raise_if}
use deepseek_as_subagent.Text.{Text, codes, text_eq, strip, is_blank}
use deepseek_as_subagent.Json.{Value, obj, Fields}
use deepseek_as_subagent.Json.Size.{decimal}
use deepseek_as_subagent.Mutation.{mutation_failure_message}
use deepseek_as_subagent.Provider.{ProviderToolCall, ProviderMessage, has_calls}
use deepseek_as_subagent.Agent.Errors.{
  AgentError, raised, loop_error, incomplete_response, mutation_outcome, mutation_cancelled,
  is_cancelled, is_loop_error,
}
use deepseek_as_subagent.Agent.Host.{Host, ToolEnd}
use deepseek_as_subagent.Agent.Retry.{check_cancel, remaining_seconds, call_with_retry}
use deepseek_as_subagent.Agent.State.{
  Config, Message, user, tool, AgentState, create_agent_state, ensure_token_budget_available,
  ensure_request_budget, enforce_history_budget, request_body, request_size,
}
use deepseek_as_subagent.Agent.Bash.{record_bash_result}
use deepseek_as_subagent.Agent.Loop.{
  AgentResult, append_steering_update, append_skipped_tool_responses, calls_of, record_response,
  validate_tool_batch, add_all, build_result,
}

pub record Run (W : Type 0) : Type 0 where
  pub state : AgentState
  pub world : W

abbrev pub Act : Type 0 → Type 0 → Type 0
Act W A = Exec (Run W) AgentError A

module _ {W A : Type 0} where
  -- An action on the world alone, and one on the state alone.
  abbrev pub in_world : Exec W AgentError A → Act W A
  in_world m r = let (x, w) = m r.world in (x, record r { world = w })

  abbrev pub in_state : (AgentState → Result AgentError A × AgentState) → Act W A
  in_state m r = let (x, s) = m r.state in (x, record r { state = s })

  abbrev pub check : (AgentState → Result AgentError A) → Act W A
  check f r = (f r.state, r)

module _ {W : Type 0} where
  abbrev pub update : (AgentState → AgentState) → Act W (Unit {0})
  update f r = (ok tt, record r { state = f r.state })

  abbrev pub set_messages : (List Message → List Message) → Act W (Unit {0})
  set_messages f r =
      (ok tt, record r { state = record (r.state) { messages = f r.state.messages } })

  unfoldable pub enforce_history : Act W (Unit {0})
  enforce_history = check (λ s. enforce_history_budget s.messages)

abbrev pub empty_reply : Text
empty_reply =
    codes
      "Your last final response was empty. Continue the original task and provide a non-empty final result, or explain what remains unfinished. Do not repeat already executed file mutations or other side-effectful tool calls without checking their effects."

-- The texts without their blanks at the ends, less those that have nothing else.
unfoldable pub stripped : List Text → List Text
stripped [] = []
stripped (t ∷ ts) = elim (is_empty (strip t)) [ true ↦ stripped ts | false ↦ strip t ∷ stripped ts ]

module _ (h : Host) (c : Config) where
  open h use {World, now, poll, finalize, loads, execute}

  unfoldable pub polled : Option (List Text) × World → Result AgentError (List Text) × World
  unfolding stripped
  polled (none, w) = (err (raised loop_error (codes "control channel failed")), w)
  polled (some ts, w) = (ok (stripped ts), w)

  -- `_poll_control_messages(state.controls.poll)`
  unfoldable pub poll_messages : Exec World AgentError (List Text)
  unfolding polled
  poll_messages w = if c.has_poll then polled (poll w) else (ok [], w)

  -- `_poll_control_messages(state.controls.finalize or state.controls.poll)`
  unfoldable pub poll_finalize : Exec World AgentError (List Text)
  unfolding polled poll_messages
  poll_finalize w = if c.has_finalize then polled (finalize w) else poll_messages w

  unfoldable pub append_control_messages : Act World (Unit {0})
  unfolding poll_messages
  append_control_messages = do
    updates ← in_world poll_messages
    set_messages (λ ms. append_steering_update ms updates)

  -- `_finalize_or_steer` for a reply that is empty or blank.
  unfoldable pub retry_empty : ℕ → Act World (Option AgentResult)
  unfolding enforce_history
  retry_empty turn = do
    attempts ← check (λ s. ok s.empty_final_attempts)
    raise_if (ltb 0 attempts || leb c.max_turns (turn + 1)) (
        raised incomplete_response
          (codes "model returned an empty final response; delegation is incomplete"))
    update (λ s. record s {
      empty_final_attempts = s.empty_final_attempts + 1;
      messages = s.messages ++ user empty_reply ∷ [];
    })
    enforce_history
    pure none

  -- `_build_result` raises for a blank text, which its caller has excluded.
  unfoldable pub finish_with : ℕ → Text → Act World (Option AgentResult)
  finish_with turn content = do
    raise_if (is_blank content)
        (raised incomplete_response (codes "model returned an empty final response"))
    ended ← in_world (λ w. let (t, v) = now w in (ok t, v))
    check (λ s. ok (some (build_result turn ended content s)))

  unfoldable pub steer_or_finish : ℕ → Text → List Text → Act World (Option AgentResult)
  unfolding finish_with enforce_history
  steer_or_finish turn content [] = finish_with turn content
  steer_or_finish turn content (u ∷ us) = do
    set_messages (λ ms. append_steering_update ms (u ∷ us))
    enforce_history
    pure none

  unfoldable pub finalize_or_steer : ℕ → Option Text → Act World (Option AgentResult)
  unfolding retry_empty steer_or_finish poll_finalize
  finalize_or_steer turn none = retry_empty turn
  finalize_or_steer turn (some content) =
      if is_blank content
      then retry_empty turn
      else do updates ← in_world poll_finalize; steer_or_finish turn content updates

  unfoldable pub steer_before_tools : List ProviderToolCall → List Text → Act World (Unit {0})
  unfolding enforce_history
  steer_before_tools calls updates = do
    set_messages (λ ms. append_steering_update (append_skipped_tool_responses ms calls) updates)
    enforce_history

  unfoldable pub tool_end : ToolEnd → AgentState → Result AgentError Text × AgentState
  tool_end e s = elim (add_all s.mutations e.reported) [
    | err x ↦ (err x, record s { mutation_used = e.used })
    | ok records ↦ (e.outcome, record s { mutation_used = e.used; mutations = records })
  ]

  unfoldable pub run_tool : Text → Fields → ℕ → Act World Text
  unfolding tool_end
  run_tool name args timeout r =
      let (e, w) = execute name args r.state.mutation_used timeout r.world in
      let (x, s) = tool_end e r.state in (x, record { state = s; world = w })

  unfoldable pub parsed_arguments : Text → ℕ → Result Text Value → Act World Text
  unfolding run_tool
  parsed_arguments name timeout (err e) =
      pure (codes "ERROR: invalid JSON in tool arguments: " ++ e)
  parsed_arguments name timeout (ok (obj args)) = run_tool name args timeout
  parsed_arguments name timeout (ok _) = pure (codes "ERROR: tool arguments must be a JSON object")

  -- `_execute_one_tool` in the tool child; the timeout is at least one second.
  unfoldable pub execute_one_tool : ProviderToolCall → ℕ → Act World Text
  unfolding parsed_arguments
  execute_one_tool call timeout = parsed_arguments call.name timeout (loads call.arguments)

  unfoldable pub execute_and_record_tool : ℕ → ProviderToolCall → Act World (Unit {0})
  unfolding execute_one_tool enforce_history
  execute_and_record_tool turn call = do
    remaining ← in_world (remaining_seconds h)
    update (λ s. record s { tool_calls = s.tool_calls + 1 })
    result ← execute_one_tool call (max 1 (remaining / 1000))
    update (λ s. if text_eq call.name (codes "Bash") then record_bash_result turn result s else s)
    set_messages (λ ms. ms ++ tool call.id result ∷ [])
    enforce_history
    in_world (check_cancel h)

  -- The loop over the batch; a steering update skips what is left of it.
  unfoldable pub execute_tools : ℕ → List ProviderToolCall → Act World (Unit {0})
  unfolding poll_messages
  execute_tools turn [] = pure tt
  execute_tools turn (call ∷ calls) = do
    in_world (check_cancel h)
    updates ← in_world poll_messages
    elim updates [
      | u ∷ us ↦ steer_before_tools (call ∷ calls) (u ∷ us)
      | [] ↦ (do execute_and_record_tool turn call; execute_tools turn calls)
    ]

  unfoldable pub execute_planned_tools : ℕ → List ProviderToolCall → Act World (Unit {0})
  unfolding poll_messages
  execute_planned_tools turn calls = do
    in_world (check_cancel h)
    check (λ s. validate_tool_batch s calls)
    updates ← in_world poll_messages
    elim updates [ u ∷ us ↦ steer_before_tools calls (u ∷ us) | [] ↦ execute_tools turn calls ]

  -- The first half of a turn: the checks, the control messages and the request.
  unfoldable pub ask_provider : ℕ → Act World ProviderMessage
  unfolding append_control_messages enforce_history
  ask_provider turn = do
    _ ← in_world (remaining_seconds h)
    check ensure_token_budget_available
    in_world (check_cancel h)
    append_control_messages
    enforce_history
    messages ← check (λ s. ok s.messages)
    check (λ s. ensure_request_budget c s (request_size c messages))
    response ← in_world (call_with_retry h c.max_run_seconds turn (request_body c messages))
    in_state (record_response response (request_size c messages))

  unfoldable pub run_turn : ℕ → Act World (Option AgentResult)
  unfolding ask_provider finalize_or_steer execute_planned_tools
  run_turn turn = do
    message ← ask_provider turn
    in_world (check_cancel h)
    if has_calls message.tool_calls
        then (do execute_planned_tools turn (calls_of message); pure none)
        else finalize_or_steer turn message.content

  abbrev max_turns_error : AgentError
  max_turns_error =
      raised loop_error
        (codes "Agent loop exceeded max_turns (" ++ (decimal c.max_turns ++ codes ")"))

  -- The turns that are left, and the number of the next one.
  unfoldable pub turns : ℕ → ℕ → Act World AgentResult
  unfolding run_turn
  turns zero turn = raise max_turns_error
  turns (suc left) turn = do
    result ← run_turn turn
    elim result [ some r ↦ pure r | none ↦ turns left (suc turn) ]

  -- `_raise_with_mutation_records`, and the `except Exception` of `run_agent`.
  unfoldable pub with_mutation_records : AgentState → AgentError → AgentError
  with_mutation_records s e = elim s.mutations [
    | [] ↦ e
    | r ∷ rs ↦ record {
      class = if is_cancelled e.class then mutation_cancelled else mutation_outcome;
      message =
          mutation_failure_message (r ∷ rs)
            (if is_loop_error e.class then e.message else codes "unexpected internal failure");
      records = r ∷ rs;
    }
  ]

  unfoldable pub run_end :
      Result AgentError AgentResult × Run World → Result AgentError AgentResult × Run World
  unfolding with_mutation_records
  run_end (ok r, t) = (ok r, t)
  run_end (err e, t) = (err (with_mutation_records t.state e), t)

  unfoldable pub run_agent : Text → World → Result AgentError AgentResult × Run World
  unfolding run_end turns create_agent_state
  run_agent task w =
      let (started, v) = now w in
      run_end
        (turns c.max_turns 0 (record { state = create_agent_state task c started; world = v }))
