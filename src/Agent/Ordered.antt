-- ===== src/Agent/Ordered.antt =====
-- Each action of a turn keeps the budgets, and pairs tool results with tool calls.
use mathlib.Core.Path.{subst}
use deepseek_as_subagent.Prelude.{
  ℕ, ◌+◌, ◌/◌, max, ◌≤◌, ◌≡◌, refl, ap, ◌∙◌, Bool, true, false, Option, none, some, List, [], ◌∷◌,
  ◌++◌, arith, if◌then◌else◌, length, inl, inr,
}
use deepseek_as_subagent.Prelude.Results.{Result, ok, err, Result-cases}
use deepseek_as_subagent.Prelude.Exec.{Exec, pure, ◌>>◌}
use deepseek_as_subagent.Text.{Text, codes, text_eq, is_blank}
use deepseek_as_subagent.Json.{Value, Fields, obj}
use deepseek_as_subagent.Mutation.{max_mutation_records}
use deepseek_as_subagent.Provider.{ProviderResponse, ProviderToolCall, ProviderMessage, has_calls}
use deepseek_as_subagent.Agent.Errors.{AgentError, raised, incomplete_response}
use deepseek_as_subagent.Agent.Host.{Host, ToolEnd}
use deepseek_as_subagent.Agent.Retry.{check_cancel, remaining_seconds, call_with_retry}
use deepseek_as_subagent.Agent.State.{
  Config, Message, user, tool, AgentState, max_tool_calls_per_run, max_total_tokens_per_run,
  metered, enforce_history_budget, ensure_token_budget_available, ensure_request_budget,
  request_body, request_size,
}
use deepseek_as_subagent.Agent.Bash.{record_bash_result}
use deepseek_as_subagent.Agent.Loop.{
  AgentResult, calls_of, record_response, validate_tool_batch, add_all, append_steering_update,
  append_skipped_tool_responses, build_result,
}
use deepseek_as_subagent.Agent.Turn.{
  Act, in_world, check, set_messages, enforce_history, empty_reply, poll_messages, poll_finalize,
  append_control_messages, retry_empty, finish_with, steer_or_finish, finalize_or_steer,
  steer_before_tools, tool_end, run_tool, parsed_arguments, execute_one_tool,
  execute_and_record_tool, execute_tools, execute_planned_tools, ask_provider, run_turn,
}
use deepseek_as_subagent.Agent.Triples.{
  Post, Triple, Triple-pure, Triple-in_world, Triple-check, Triple-in_state, Triple-if,
  Triple-weaken, Triple-bind, Triple-update, Triple-raise_if,
}
use deepseek_as_subagent.Agent.Conversation.{
  owed, ids_of, owed-user, owed-tool, owed-steering, owed-skipped,
}
use deepseek_as_subagent.Agent.Budgets.{
  Capped, Pending, Owing, Pending-Capped, Owing-Capped, add_all-records, record_response-owed,
  record_response-Capped,
}

history :
    {W : Type 0} {P : AgentState → Type 0}
    → ((s : AgentState) → P s → Capped s)
    → Triple {W = W} P enforce_history (λ _. P) Capped
unfolding enforce_history
history weaken = Triple-check (λ s. enforce_history_budget s.messages) _ (λ s a p e. p) weaken

-- New messages that leave the budgets alone.
messages :
    {W : Type 0} {ids : List Text} (new : List Text) (f : List Message → List Message)
    → ((ms : List Message) → owed ms ≡ some ids → owed (f ms) ≡ some new)
    → ((s : AgentState) → Owing ids s → s.tool_calls + length new ≤ max_tool_calls_per_run)
    → Triple {W = W} (Owing ids) (set_messages f) (λ _. Owing new) Capped
messages new f keep room = record {
  at = λ r o. record {
    conversation = keep r.state.messages o.conversation;
    room = room r.state o;
    tokens = o.tokens;
    records = o.records;
  };
}

-- What a turn leaves: a complete conversation, or a result within the budgets that reports the
-- mutations of the run.
abbrev pub Turned : ℕ → Option AgentResult → AgentState → Type 0
Turned turn none s = Owing [] s
Turned turn (some r) s =
    Capped s
    × (r.total ≤ max_total_tokens_per_run)
    × (r.tool_calls ≡ s.tool_calls)
    × (r.mutations ≡ s.mutations)
    × (r.turns_used ≡ turn + 1)

-- After the response and before its batch is validated there may be no room for the calls.
record Asked (ids : List Text) (s : AgentState) : Type 0 where
  conversation : owed s.messages ≡ some ids
  calls : s.tool_calls ≤ max_tool_calls_per_run
  tokens : metered s ≤ max_total_tokens_per_run
  records : length s.mutations ≤ max_mutation_records

Asked-Capped : (ids : List Text) (s : AgentState) → Asked ids s → Capped s
Asked-Capped ids s o = omega arith

recorded :
    (response : ProviderResponse) (bytes : ℕ) (s t : AgentState) (m : ProviderMessage)
    → Owing [] s
    → record_response response bytes s ≡ (ok m, t)
    → Asked (ids_of (calls_of m)) t
recorded response bytes s t m o e =
    let (conversation, calls, tokens, mutations) = record_response-owed response bytes s t m o e in
    record {
      conversation = conversation;
      calls = omega (arith, o.room);
      tokens = tokens;
      records = ground (arith, o.records);
    }

length-ids : (calls : List ProviderToolCall) → length (ids_of calls) ≡ length calls
length-ids [] = refl
length-ids (x ∷ calls) = omega (arith, length-ids calls)

has_room :
    (calls : List ProviderToolCall) (s : AgentState) {a : Unit {0}}
    → Asked (ids_of calls) s
    → validate_tool_batch s calls ≡ ok a
    → Owing (ids_of calls) s
unfolding validate_tool_batch
has_room calls s p e = record {
  conversation = p.conversation;
  room = ground (arith, length-ids calls);
  tokens = p.tokens;
  records = p.records;
}

module _ (h : Host) (c : Config) where
  open h use {World, now}

  abbrev Step :
      (A : Type 0) → (AgentState → Type 0) → Act World A → (A → AgentState → Type 0) → Type 0
  Step A P m Q = Triple {W = World} P m Q Capped

  controls-Step : Triple (Owing []) (append_control_messages h c) (λ _. Owing []) Capped
  unfolding append_control_messages
  controls-Step =
      Triple-bind (λ _. Owing []) _ _ (Triple-in_world (poll_messages h c) (Owing-Capped []))
        λ updates.
          messages [] (λ ms. append_steering_update ms updates) (λ ms e. owed-steering ms updates e)
            (λ s o. o.room)

  kept :
      {A : Type 0} (m : Exec World AgentError A) {ids : List Text}
      → Triple {W = World} (Owing ids) (in_world m) (λ _. Owing ids) Capped
  kept m {ids} = Triple-in_world m (Owing-Capped ids)

  ask-Step :
      (turn : ℕ)
      → Triple (Owing []) (ask_provider h c turn) (λ m. Asked (ids_of (calls_of m))) Capped
  unfolding ask_provider
  ask-Step turn =
      Triple-bind (λ _. Owing []) _ _ (kept (remaining_seconds h))
        λ _.
          Triple-bind (λ _. Owing []) _ _
            (Triple-check ensure_token_budget_available _ (λ s a p e. p) (Owing-Capped []))
            λ _.
              Triple-bind (λ _. Owing []) _ _ (kept (check_cancel h))
                λ _.
                  Triple-bind (λ _. Owing []) _ _ controls-Step
                    λ _.
                      Triple-bind (λ _. Owing []) _ _ (history (Owing-Capped []))
                        λ _.
                          Triple-bind (λ _. Owing []) _ _
                            (Triple-check (λ s. ok s.messages) _ (λ s a p e. p) (Owing-Capped []))
                            λ ms.
                              Triple-bind (λ _. Owing []) _ _
                                (Triple-check (λ s. ensure_request_budget c s (request_size c ms)) _
                                  (λ s a p e. p) (Owing-Capped []))
                                λ _.
                                  Triple-bind (λ _. Owing []) _ _
                                    (kept (
                                      call_with_retry h c.max_run_seconds turn (request_body c ms)))
                                    λ response.
                                      Triple-in_state (record_response response (request_size c ms))
                                        _
                                        (λ s t m o e.
                                          recorded response (request_size c ms) s t m o e)
                                        (λ s t x o e.
                                          record_response-Capped response (request_size c ms) s t x
                                            (Owing-Capped [] s o) e)

  -- The batch has been validated.
  validated :
      (calls : List ProviderToolCall)
      → Triple {W = World}
          (Asked (ids_of calls))
          (check (λ s. validate_tool_batch s calls))
          (λ _. Owing (ids_of calls))
          Capped
  validated calls =
      Triple-check (λ s. validate_tool_batch s calls) _ (λ s a p e. has_room calls s p e)
        (Asked-Capped (ids_of calls))

  steer-Step :
      (calls : List ProviderToolCall) (updates : List Text)
      → Triple (Owing (ids_of calls)) (steer_before_tools h c calls updates) (λ _. Owing []) Capped
  unfolding steer_before_tools
  steer-Step calls updates =
      Triple-bind (λ _. Owing []) _ _
        (messages [] (λ ms. append_steering_update (append_skipped_tool_responses ms calls) updates)
          (λ ms e. owed-steering _ updates (owed-skipped ms calls e))
          (λ s o. omega (arith, o.room)))
        λ _. history (Owing-Capped [])

  tool_end-Owing :
      (e : ToolEnd) (ids : List Text) (n : ℕ) (s t : AgentState) (a : Text)
      → Pending ids n s
      → tool_end h c e s ≡ (ok a, t)
      → Pending ids n t
  unfolding tool_end
  tool_end-Owing e ids n s t a o x = elim (Result-cases (add_all s.mutations e.reported)) [
    | inl (more, y) ↦
        let few = add_all-records s.mutations e.reported more o.records y in
        record {
          conversation = ground (arith, o.conversation);
          room = ground (arith, o.room);
          tokens = ground (arith, o.tokens);
          records = ground arith;
        }
    | inr (_, y) ↦ absurd (ground arith)
  ]

  tool_end-Capped :
      (e : ToolEnd) (s t : AgentState) (x : AgentError)
      → Capped s
      → tool_end h c e s ≡ (err x, t)
      → Capped t
  unfolding tool_end
  tool_end-Capped e s t x o p = elim (Result-cases (add_all s.mutations e.reported)) [
    | inl (more, y) ↦
        let few = add_all-records s.mutations e.reported more o.records y in
        record { calls = ground (arith, o.calls); records = ground arith }
    | inr (_, y) ↦ record { calls = ground (arith, o.calls); records = ground (arith, o.records) }
  ]

  run_tool-Step :
      (name : Text) (args : Fields) (timeout : ℕ) (ids : List Text) (n : ℕ)
      → Triple (Pending ids n) (run_tool h c name args timeout) (λ _. Pending ids n) Capped
  unfolding run_tool
  run_tool-Step name args timeout ids n = record {
    at = λ r o.
        let (e, w) = h.execute name args r.state.mutation_used timeout r.world in
        ended e w r.state o (tool_end h c e r.state) refl;
  }
    where
      ended :
          (e : ToolEnd) (w : World) (s : AgentState)
          → Pending ids n s
          → (x : Result AgentError Text × AgentState) → tool_end h c e s ≡ x
          → Post (λ _. Pending ids n) Capped (x.0, record { state = x.1; world = w })
      ended e w s o (ok a, t) p = tool_end-Owing e ids n s t a o p
      ended e w s o (err x, t) p = tool_end-Capped e s t x (Pending-Capped ids n s o) p

  execute_one-Step :
      (call : ProviderToolCall) (timeout : ℕ) (ids : List Text) (n : ℕ)
      → Triple (Pending ids n) (execute_one_tool h c call timeout) (λ _. Pending ids n) Capped
  unfolding execute_one_tool
  execute_one-Step call timeout ids n = parsed (h.loads call.arguments)
    where
      parsed :
          (v : Result Text Value)
          → Triple
              (Pending ids n)
              (parsed_arguments h c call.name timeout v)
              (λ _. Pending ids n)
              Capped
      parsed (err e) = Triple-pure _
      parsed (ok (obj args)) = run_tool-Step call.name args timeout ids n
      parsed (ok _) = Triple-pure _

  bash-same :
      (turn : ℕ) (result : Text) (s : AgentState)
      → ((record_bash_result turn result s).messages ≡ s.messages)
        × ((record_bash_result turn result s).tool_calls ≡ s.tool_calls)
        × (metered (record_bash_result turn result s) ≡ metered s)
        × ((record_bash_result turn result s).mutations ≡ s.mutations)
  unfolding record_bash_result
  bash-same turn result s = (refl, refl, refl, refl)

  bash-Owing :
      (turn : ℕ) (result : Text) (b : Bool) (ids : List Text) (n : ℕ) (s : AgentState)
      → Pending ids n s
      → Pending ids n (if b then record_bash_result turn result s else s)
  bash-Owing turn result true ids n s o =
      let (ms, calls, tokens, mutations) = bash-same turn result s in
      record {
        conversation = ap owed ms ∙ o.conversation;
        room = rw calls o.room;
        tokens = rw tokens o.tokens;
        records = rw mutations o.records;
      }
  bash-Owing turn result false ids n s o = o

  tool-Step :
      (turn : ℕ) (call : ProviderToolCall) (calls : List ProviderToolCall)
      → Triple
          (Owing (ids_of (call ∷ calls)))
          (execute_and_record_tool h c turn call)
          (λ _. Owing (ids_of calls))
          Capped
  unfolding execute_and_record_tool
  tool-Step turn call calls =
      let ids = ids_of calls in
      let n = length (ids_of calls) in
      let Counted : AgentState → Type 0 = Pending (call.id ∷ ids) n in
      Triple-bind (λ _. Owing (call.id ∷ ids)) _ _ (kept (remaining_seconds h))
        λ left.
          Triple-bind (λ _. Counted) _ _
            (Triple-update (λ s. record s { tool_calls = s.tool_calls + 1 }) Counted
              (λ s o. record {
                conversation = o.conversation;
                room = omega (arith, o.room);
                tokens = o.tokens;
                records = o.records;
              }))
            λ _.
              Triple-bind (λ _. Counted) _ _
                (execute_one-Step call (max 1 (left / 1000)) (call.id ∷ ids) n)
                λ result.
                  Triple-bind (λ _. Counted) _ _
                    (Triple-update
                      (λ s.
                        if text_eq call.name (codes "Bash")
                        then record_bash_result turn result s
                        else s)
                      Counted
                      (λ s o.
                        bash-Owing turn result (text_eq call.name (codes "Bash")) (call.id ∷ ids) n
                          s o))
                    λ _.
                      Triple-bind (λ _. Owing ids) _ _
                        (Triple-update
                          (λ s. record s { messages = s.messages ++ tool call.id result ∷ [] })
                          (Owing ids)
                          (λ s o. record {
                            conversation = owed-tool s.messages call.id result ids o.conversation;
                            room = o.room;
                            tokens = o.tokens;
                            records = o.records;
                          }))
                        λ _.
                          Triple-bind (λ _. Owing ids) _ _ (history (Owing-Capped ids))
                            λ _. kept (check_cancel h)

  by_updates :
      {A : Type 0} (P : AgentState → Type 0) (Q : A → AgentState → Type 0) (updates : List Text)
      (m : Act World A) (f : Text → List Text → Act World A)
      → Triple P m Q Capped
      → ((u : Text) (us : List Text) → Triple P (f u us) Q Capped)
      → Triple P (elim updates [ [] ↦ m | u ∷ us ↦ f u us ]) Q Capped
  by_updates P Q [] m f tm tf = tm
  by_updates P Q (u ∷ us) m f tm tf = tf u us

  tools-Step :
      (turn : ℕ) (calls : List ProviderToolCall)
      → Triple (Owing (ids_of calls)) (execute_tools h c turn calls) (λ _. Owing []) Capped
  unfolding execute_tools
  tools-Step turn [] = Triple-pure tt
  tools-Step turn (call ∷ calls) =
      let ids = ids_of (call ∷ calls) in
      let rest = tools-Step turn calls in
      Triple-bind (λ _. Owing ids) _ _ (kept (check_cancel h))
        λ _.
          Triple-bind (λ _. Owing ids) _ _ (kept (poll_messages h c))
            λ updates.
              by_updates (Owing ids) (λ _. Owing []) updates _ _
                (Triple-bind (λ _. Owing (ids_of calls)) _ _ (tool-Step turn call calls)
                  (λ _. rest))
                (λ u us. steer-Step (call ∷ calls) (u ∷ us))

  planned-Step :
      (turn : ℕ) (calls : List ProviderToolCall)
      → Triple (Asked (ids_of calls)) (execute_planned_tools h c turn calls) (λ _. Owing []) Capped
  unfolding execute_planned_tools
  planned-Step turn calls =
      Triple-bind (λ _. Asked (ids_of calls)) _ _
        (Triple-in_world (check_cancel h) (Asked-Capped (ids_of calls)))
        λ _.
          Triple-bind (λ _. Owing (ids_of calls)) _ _ (validated calls)
            λ _.
              Triple-bind (λ _. Owing (ids_of calls)) _ _ (kept (poll_messages h c))
                λ updates.
                  by_updates (Owing (ids_of calls)) (λ _. Owing []) updates _ _
                    (tools-Step turn calls) (λ u us. steer-Step calls (u ∷ us))

  retry_empty-Step : (turn : ℕ) → Triple (Owing []) (retry_empty h c turn) (Turned turn) Capped
  unfolding retry_empty
  retry_empty-Step turn =
      Triple-bind (λ _. Owing []) _ _
        (Triple-check (λ s. ok s.empty_final_attempts) _ (λ s a p e. p) (Owing-Capped []))
        λ attempts.
          Triple-bind (λ _. Owing []) _ _ (Triple-raise_if _ _ (Owing-Capped []))
            λ _.
              Triple-bind (λ _. Owing []) _ _
                (Triple-update
                  (λ s. record s {
                    empty_final_attempts = s.empty_final_attempts + 1;
                    messages = s.messages ++ user empty_reply ∷ [];
                  })
                  (Owing [])
                  (λ s o. record {
                    conversation = owed-user s.messages empty_reply o.conversation;
                    room = o.room;
                    tokens = o.tokens;
                    records = o.records;
                  }))
                λ _.
                  Triple-bind (λ _. Owing []) _ _ (history (Owing-Capped [])) λ _. Triple-pure none

  result-Turned :
      (turn ended : ℕ) (content : Text) (s : AgentState)
      → Owing [] s
      → Turned turn (some (build_result turn ended content s)) s
  unfolding build_result
  result-Turned turn ended content s o =
      (Owing-Capped [] s o, omega (arith, o.tokens), refl, refl, refl)

  finish-Step :
      (turn : ℕ) (content : Text)
      → Triple (Owing []) (finish_with h c turn content) (Turned turn) Capped
  unfolding finish_with
  finish-Step turn content =
      Triple-bind (λ _. Owing []) _ _
        (Triple-raise_if (is_blank content)
          (raised incomplete_response (codes "model returned an empty final response"))
          (Owing-Capped []))
        λ _.
          Triple-bind (λ _. Owing []) _ _ (kept (λ w. (ok (now w).0, (now w).1)))
            λ ended.
              Triple-check (λ s. ok (some (build_result turn ended content s))) (Turned turn)
                (λ s a o e.
                  subst (λ x. Turned turn x s) {x = some (build_result turn ended content s)} (cc)
                    (result-Turned turn ended content s o))
                (Owing-Capped [])

  steer_or_finish-Step :
      (turn : ℕ) (content : Text) (updates : List Text)
      → Triple (Owing []) (steer_or_finish h c turn content updates) (Turned turn) Capped
  unfolding steer_or_finish
  steer_or_finish-Step turn content [] = finish-Step turn content
  steer_or_finish-Step turn content (u ∷ us) =
      Triple-bind (λ _. Owing []) _ _
        (messages [] (λ ms. append_steering_update ms (u ∷ us))
          (λ ms e. owed-steering ms (u ∷ us) e) (λ s o. o.room))
        λ _. Triple-bind (λ _. Owing []) _ _ (history (Owing-Capped [])) λ _. Triple-pure none

  finalize-Step :
      (turn : ℕ) (content : Option Text)
      → Triple (Owing []) (finalize_or_steer h c turn content) (Turned turn) Capped
  unfolding finalize_or_steer
  finalize-Step turn none = retry_empty-Step turn
  finalize-Step turn (some content) = Triple-if (is_blank content) _ _ (retry_empty-Step turn) (
      Triple-bind (λ _. Owing []) _ _ (kept (poll_finalize h c))
        (λ updates. steer_or_finish-Step turn content updates))

  no_calls :
      (m : ProviderMessage) (s : AgentState)
      → has_calls m.tool_calls ≡ false
      → Asked (ids_of (calls_of m)) s
      → Owing [] s
  no_calls m s e a = record {
    conversation = ground (arith, a.conversation);
    room = omega (arith, a.calls);
    tokens = a.tokens;
    records = a.records;
  }

  turn_branch :
      (turn : ℕ) (m : ProviderMessage) (b : Bool)
      → has_calls m.tool_calls ≡ b
      → Triple
          (Asked (ids_of (calls_of m)))
          (if b
            then (do execute_planned_tools h c turn (calls_of m); pure none)
            else finalize_or_steer h c turn m.content)
          (Turned turn)
          Capped
  turn_branch turn m true e =
      Triple-bind (λ _. Owing []) _ _ (planned-Step turn (calls_of m)) (λ _. Triple-pure none)
  turn_branch turn m false e =
      Triple-weaken _ (λ s a. no_calls m s e a) (finalize-Step turn m.content)

  -- A turn that starts from a complete conversation and within the budgets.
  pub turn-Step : (turn : ℕ) → Triple (Owing []) (run_turn h c turn) (Turned turn) Capped
  unfolding run_turn
  turn-Step turn =
      Triple-bind (λ m. Asked (ids_of (calls_of m))) _ _ (ask-Step turn)
        λ m.
          Triple-bind (λ _. Asked (ids_of (calls_of m))) _ _
            (Triple-in_world (check_cancel h) (Asked-Capped (ids_of (calls_of m))))
            λ _. turn_branch turn m (has_calls m.tool_calls) refl
