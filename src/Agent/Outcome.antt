-- ===== src/Agent/Outcome.antt =====
-- How a run ends (src/deepseek_mcp/agent_loop.py: `run_agent`).
use mathlib.Core.Path.{subst}
use deepseek_as_subagent.Prelude.{
  ℕ, zero, suc, ◌+◌, ◌≤◌, ◌≡◌, ◌∙◌, true, Option, none, some, List, [], ◌∷◌, arith, length,
}
use deepseek_as_subagent.Prelude.Results.{Result, ok, err}
use deepseek_as_subagent.Prelude.Exec.{pure}
use deepseek_as_subagent.Text.{Text}
use deepseek_as_subagent.Mutation.{MutationRecord, max_mutation_records}
use deepseek_as_subagent.Agent.Errors.{AgentError, is_mutation, is_cancelled}
use deepseek_as_subagent.Agent.Host.{Host}
use deepseek_as_subagent.Agent.State.{
  Config, AgentState, create_agent_state, max_tool_calls_per_run, max_total_tokens_per_run,
}
use deepseek_as_subagent.Agent.Loop.{AgentResult}
use deepseek_as_subagent.Agent.Turn.{
  Run, run_turn, turns, with_mutation_records, run_end, run_agent,
}
use deepseek_as_subagent.Agent.Triples.{
  Post, Triple, Triple-pure, Triple-raise, Triple-bind, Triple-weaken,
}
use deepseek_as_subagent.Agent.Conversation.{owed, owed-create}
use deepseek_as_subagent.Agent.Budgets.{Capped, Owing, Owing-Capped}
use deepseek_as_subagent.Agent.Ordered.{Turned, turn-Step}

abbrev pub Ended : ℕ → AgentResult → AgentState → Type 0
Ended n r s =
    Capped s
    × (r.total ≤ max_total_tokens_per_run)
    × (r.tool_calls ≡ s.tool_calls)
    × (r.mutations ≡ s.mutations)
    × (r.turns_used ≤ n)

pub created :
    (task : Text) (c : Config) (started : ℕ) → Owing [] (create_agent_state task c started)
unfolding create_agent_state
created task c started = record {
  conversation = owed-create task c started;
  room = omega arith;
  tokens = omega arith;
  records = omega arith;
}

module _ (h : Host) (c : Config) where
  open h use {World, now}

  turns-Step :
      (left turn : ℕ) → Triple (Owing []) (turns h c left turn) (Ended (turn + left)) Capped
  unfolding turns
  turns-Step zero turn = Triple-weaken _ (Owing-Capped []) (Triple-raise _ _)
  turns-Step (suc left) turn =
      Triple-bind (Turned turn) _ _ (turn-Step h c turn) (after (turns-Step left (suc turn)))
    where
      after :
          Triple (Owing []) (turns h c left (suc turn)) (Ended (suc turn + left)) Capped
          → (x : Option AgentResult)
          → Triple
              (Turned turn x)
              (elim x [ some r ↦ pure r | none ↦ turns h c left (suc turn) ])
              (Ended (turn + suc left))
              Capped
      after rest none =
          subst (λ n. Triple (Owing []) (turns h c left (suc turn)) (Ended n) Capped) (omega arith)
            rest
      after rest (some r) =
          Triple-weaken _ (λ s t. (t.0, t.1, t.2, t.3, omega (arith, t.4))) (Triple-pure r)

  -- A turn that starts from a conversation in which every tool call is answered, from at most
  -- 1,000,000 tokens, 128 tool calls and 128 mutations, and goes on to a next turn leaves such a
  -- conversation: each tool call of the turn has been followed by its own answer, in order.
  pub turn_conversation :
      (turn : ℕ) (r : Run World) {t : Run World}
      → Owing [] r.state
      → run_turn h c turn r ≡ (ok none, t)
      → owed t.state.messages ≡ some []
  turn_conversation turn r {t} o e =
      (subst (Post (Turned turn) Capped) e ((turn-Step h c turn).at r o)).conversation

  -- The bounds on a run's end: on its result, and on its state also where it raises.
  abbrev pub WithinBudgets : Result AgentError AgentResult × Run World → Type 0
  WithinBudgets (ok r, t) =
      (r.total ≤ max_total_tokens_per_run)
      × (r.tool_calls ≤ max_tool_calls_per_run)
      × (r.turns_used ≤ c.max_turns)
      × (length r.mutations ≤ max_mutation_records)
      × (r.mutations ≡ t.state.mutations)
  WithinBudgets (err e, t) =
      (t.state.tool_calls ≤ max_tool_calls_per_run)
      × (length t.state.mutations ≤ max_mutation_records)

  -- Whatever the provider, the tools, the parent and the clocks do, the run comes to an end within
  -- its turns. A result reports at most 1,000,000 tokens, 128 tool calls, 128 mutations and the
  -- configured turns, and every mutation of the run; a run that raises made at most 128 tool calls
  -- and holds at most 128 mutations.
  pub run_agent-WithinBudgets : (task : Text) (w : World) → WithinBudgets (run_agent h c task w)
  unfolding run_agent
  run_agent-WithinBudgets task w =
      ended (turns h c c.max_turns 0 start)
        ((turns-Step c.max_turns 0).at start (created task c (now w).0))
    where
      start : Run World
      start = record { state = create_agent_state task c (now w).0; world = (now w).1 }

      ended :
          (x : Result AgentError AgentResult × Run World)
          → Post (Ended (0 + c.max_turns)) Capped x
          → WithinBudgets (run_end h c x)
      ended (ok r, t) (capped, tokens, calls, mutations, used) = (
        tokens,
        omega (arith, capped.calls),
        omega arith,
        ground (arith, capped.records),
        mutations,
      )
      ended (err e, t) p = (p.calls, p.records)

  with_records :
      (s : AgentState) (e : AgentError) (r : MutationRecord) (rs : List MutationRecord)
      → s.mutations ≡ r ∷ rs
      → ((with_mutation_records h c s e).records ≡ r ∷ rs)
        × (is_mutation (with_mutation_records h c s e).class ≡ true)
        × (is_cancelled (with_mutation_records h c s e).class ≡ is_cancelled e.class)
  unfolding with_mutation_records
  with_records s e r rs h' = ground arith

  abbrev pub KeepsRecords :
      Result AgentError AgentResult × Run World → MutationRecord → List MutationRecord → Type 0
  KeepsRecords (ok x, t) r rs = x.mutations ≡ r ∷ rs
  KeepsRecords (err e, t) r rs = (e.records ≡ r ∷ rs) × (is_mutation e.class ≡ true)

  -- If the run leaves records of mutations, its result reports exactly those; and if it raises,
  -- the exception is of the class that hosts must not retry, and carries exactly those.
  pub run_agent-KeepsRecords :
      (task : Text) (w : World) (r : MutationRecord) (rs : List MutationRecord)
      → (run_agent h c task w).1.state.mutations ≡ r ∷ rs
      → KeepsRecords (run_agent h c task w) r rs
  unfolding run_agent
  run_agent-KeepsRecords task w r rs =
      ended (turns h c c.max_turns 0 start)
        ((turns-Step c.max_turns 0).at start (created task c (now w).0))
    where
      start : Run World
      start = record { state = create_agent_state task c (now w).0; world = (now w).1 }

      ended :
          (x : Result AgentError AgentResult × Run World)
          → Post (Ended (0 + c.max_turns)) Capped x
          → (run_end h c x).1.state.mutations ≡ r ∷ rs
          → KeepsRecords (run_end h c x) r rs
      ended (ok y, t) (capped, tokens, calls, mutations, used) e = mutations ∙ e
      ended (err x, t) p e = let (a, b, _) = with_records t.state x r rs e in (a, b)
