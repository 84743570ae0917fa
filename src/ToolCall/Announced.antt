-- ===== src/ToolCall/Announced.antt =====
-- What a tool call reports of a mutation that its child announced
-- (src/deepseek_mcp/tool_process.py).
use mathlib.Core.Path.{subst}
use deepseek_as_subagent.Prelude.{
  ℕ, ◌<◌, ◌≡◌, refl, sym, ap, Bool, true, Option, none, some, List, [], ◌∷◌, arith, ◌⊎◌, inl, inr,
  Bool-cases, ◌==◌, if_cases,
}
use deepseek_as_subagent.Prelude.Results.{Result, ok, err}
use deepseek_as_subagent.Text.{Text, codes, member}
use deepseek_as_subagent.Json.{Value, str, Fields, get_or_null}
use deepseek_as_subagent.Mutation.{MutationRecord, mutation_record, known_status, safe_warning}
use deepseek_as_subagent.Mutation.Records.{IsReportable}
use deepseek_as_subagent.Agent.Errors.{AgentError}
use deepseek_as_subagent.Agent.Host.{ToolEnd}
use deepseek_as_subagent.ToolCall.Accounted.{record_of_lem}
use deepseek_as_subagent.ToolCall.{
  mutation_tools, ChildRun, Completion, same_bytes, labelled_state, mutation_state, record_of,
  finish_interrupted, finish_completed, interrupted_warning, completed_warning, mutation_warning,
  cleanup_after_result, recorded, mutation_digest, interrupted_mutation_state, complete_tool_call,
  finish_call, launched_call, execute_in_subprocess, receive_tool_result, returned,
}

module _ (loads : Text → Option Value) where
  same_bytes_sound : (a b : List ℕ) → same_bytes a b ≡ true → a ≡ b
  unfolding same_bytes
  same_bytes_sound [] [] h = refl
  same_bytes_sound [] (y ∷ b) h = cc
  same_bytes_sound (x ∷ a) [] h = cc
  same_bytes_sound (x ∷ a) (y ∷ b) h = ground (arith, same_bytes_sound a b)

  -- The state of an announced mutation: it is committed only if the target holds the digest.
  abbrev Known : Option (List ℕ) → List ℕ → Text → Type 0
  Known found digest status =
      (status ≡ codes "uncertain") ⊎ ((status ≡ codes "committed") × (found ≡ some digest))

  labelled-Known :
      (v : Value) (found : Option (List ℕ)) (digest : List ℕ)
      → Known found digest (labelled_state v found digest)
  unfolding labelled_state
  labelled-Known (str (c ∷ path)) (some d) digest = elim (Bool-cases (same_bytes d digest)) [
    | inl same ↦ inr (rw same, ap some (same_bytes_sound d digest same))
    | inr other ↦ inl (rw other)
  ]
  labelled-Known (str (c ∷ path)) none digest = inl refl
  labelled-Known (str []) found digest = inl refl
  labelled-Known _ found digest = inl refl

  -- The one record that a call reports of a mutation that was announced.
  abbrev pub Announced : Text → Text → ChildRun → List ℕ → List MutationRecord → Type 0
  Announced name transaction_id c digest reported =
      (r : MutationRecord) × (reported ≡ r ∷ [])
      × (r.transaction_id ≡ transaction_id)
      × (r.tool ≡ name)
      × IsReportable r
      × Known c.found digest r.status

  Known-made :
      (transaction_id name status : Text) (warning : Option Text) (found : Option (List ℕ))
      (digest : List ℕ)
      → Known found digest status
      → (r : MutationRecord) × (record_of transaction_id name warning status ≡ some r)
        × (r.status ≡ status)
  unfolding record_of mutation_record known_status
  Known-made transaction_id name status warning found digest (inl u) = (
    record {
      transaction_id = transaction_id;
      tool = name;
      status = status;
      warning = safe_warning warning;
    },
    rw u refl,
    refl,
  )
  Known-made transaction_id name status warning found digest (inr (u, _)) = (
    record {
      transaction_id = transaction_id;
      tool = name;
      status = status;
      warning = safe_warning warning;
    },
    rw u refl,
    refl,
  )

  state_announced :
      (name : Text) (arguments : Fields) (c : ChildRun) (digest : List ℕ)
      → mutation_digest loads c.output ≡ some digest
      → member name mutation_tools ≡ true
      → interrupted_mutation_state loads name arguments c
        ≡ some (labelled_state (get_or_null (codes "path") arguments) c.found digest)
  unfolding interrupted_mutation_state mutation_state
  state_announced name arguments c digest e m = ground (arith, e, m)

  announced_record :
      (name : Text) (arguments : Fields) (transaction_id : Text) (c : ChildRun)
      (warning : Option Text) (digest : List ℕ)
      → mutation_digest loads c.output ≡ some digest
      → member name mutation_tools ≡ true
      → (r : MutationRecord) × (recorded loads transaction_id name warning
            (interrupted_mutation_state loads name arguments c)
          ≡ some r)
        × (r.transaction_id ≡ transaction_id)
        × (r.tool ≡ name)
        × IsReportable r
        × Known c.found digest r.status
  unfolding recorded
  announced_record name arguments transaction_id c warning digest e m =
      let status = labelled_state (get_or_null (codes "path") arguments) c.found digest in
      let known = labelled-Known (get_or_null (codes "path") arguments) c.found digest in
      let (r, made, same) = Known-made transaction_id name status warning c.found digest known in
      let (i, t, s, reportable) = record_of_lem transaction_id name warning status made in
      (
        r,
        rw (state_announced name arguments c digest e m, recorded) made,
        i,
        t,
        reportable,
        subst (Known c.found digest) (sym same) known,
      )

  complete-Announced :
      (name : Text) (arguments : Fields) (transaction_id : Text) (c : ChildRun)
      (x : Result AgentError Text) (cleanup : Result AgentError Bool) (digest : List ℕ)
      → mutation_digest loads c.output ≡ some digest
      → member name mutation_tools ≡ true
      → Announced name transaction_id c digest
          (complete_tool_call loads name arguments transaction_id c x cleanup).0
  unfolding complete_tool_call finish_interrupted
  complete-Announced name arguments transaction_id c (err failure) cleanup digest e m =
      let (r, made, i, t, reportable, known) =
        announced_record name arguments transaction_id c
          (interrupted_warning loads cleanup (mutation_warning loads c.output)) digest e m in
      (r, rw made refl, i, t, reportable, known)
  complete-Announced name arguments transaction_id c (ok result) cleanup digest e m =
      let (r, made, i, t, reportable, known) =
        announced_record name arguments transaction_id c
          (completed_warning cleanup (mutation_warning loads c.output)) digest e m in
      (r, rw made (reports r), i, t, reportable, known)
    where
      reports : (r : MutationRecord) → (finish_completed name result cleanup (some r)).0 ≡ r ∷ []
      reports r = if_cases (λ (x : Completion). x.0 ≡ r ∷ []) _ _ _ (λ _. refl) (λ _. refl)

  -- If the child of a mutating tool announced the digest of what it writes, then however the call ends,
  -- by its result, an error, a cancellation or a deadline, it reports one record: of the tool, under the
  -- transaction of the launch, reportable, and of status "uncertain", or "committed" where the target
  -- holds that digest.
  pub execute_in_subprocess-Announced :
      (name : Text) (arguments : Fields) (limit used : ℕ) (c : ChildRun) (transaction_id : Text)
      (digest : List ℕ)
      → 0 < c.time_left
      → c.launched ≡ ok transaction_id
      → mutation_digest loads c.output ≡ some digest
      → member name mutation_tools ≡ true
      → Announced name transaction_id c digest
          (execute_in_subprocess loads name arguments limit used c).reported
  unfolding execute_in_subprocess launched_call finish_call
  execute_in_subprocess-Announced name arguments limit used c transaction_id digest time l e m =
      if_cases (λ (x : ToolEnd). Announced name transaction_id c digest x.reported)
        (c.time_left == 0) _ _ (λ late. absurd (ground arith))
        (λ _.
          let received = receive_tool_result loads limit used c in
          subst
            (λ x.
              Announced name transaction_id c digest
                (launched_call loads name arguments limit used c x).reported)
            (sym l)
            (complete-Announced name arguments transaction_id c (returned loads received)
              (cleanup_after_result name (returned loads received) c.cleaned) digest e m))
