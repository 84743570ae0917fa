-- ===== src/ToolCall/Charged.antt =====
-- The mutation bytes that a tool call is charged (src/deepseek_mcp/tool_process.py).
use deepseek_as_subagent.Prelude.{ℕ, ◌≤◌, ◌≡◌, refl, Option, some, arith, ◌==◌, if_cases}
use deepseek_as_subagent.Prelude.Results.{Result, ok, err}
use deepseek_as_subagent.Text.{Text, codes}
use deepseek_as_subagent.Text.Lines.{split_lines, byte_break, last_line}
use deepseek_as_subagent.Json.{pos, Value, int, str, obj, Fields, get_or_null}
use deepseek_as_subagent.Agent.Errors.{AgentError}
use deepseek_as_subagent.Agent.Host.{ToolEnd}
use deepseek_as_subagent.ToolCall.{
  ChildRun, finish_call, launched_call, execute_in_subprocess, receive_tool_result, loaded,
  used_after, decode, decoded_payload, decoded_fields, decoded_result,
}

module _ (loads : Text → Option Value) where
  decoded-bounds :
      (limit used : ℕ) (v w : Value) {t : Text} {n : ℕ}
      → decoded_result limit used v w ≡ ok (t, n)
      → (used ≤ n) × (n ≤ limit)
  unfolding decoded_result
  decoded-bounds limit used (str s) (int (pos m)) h = ground arith
  decoded-bounds limit used (str s) _ h = cc
  decoded-bounds limit used _ w h = cc

  fields-bounds :
      (limit used : ℕ) (fs : Fields) {t : Text} {n : ℕ}
      → decoded_fields limit used fs ≡ ok (t, n)
      → (used ≤ n) × (n ≤ limit)
  unfolding decoded_fields
  fields-bounds limit used fs h = ground (
    arith,
    decoded-bounds limit used (get_or_null (codes "result") fs)
        (get_or_null (codes "mutation_used") fs),
  )

  payload-bounds :
      (limit used : ℕ) (o : Option Value) {t : Text} {n : ℕ}
      → decoded_payload limit used o ≡ ok (t, n)
      → (used ≤ n) × (n ≤ limit)
  unfolding decoded_payload
  payload-bounds limit used (some (obj fs)) h = fields-bounds limit used fs h
  payload-bounds limit used _ h = cc

  decode-bounds :
      (limit used : ℕ) (raw : Text) {t : Text} {n : ℕ}
      → decode loads limit used raw ≡ ok (t, n)
      → (used ≤ n) × (n ≤ limit)
  unfolding decode
  decode-bounds limit used raw h =
      payload-bounds limit used (loaded loads (last_line (split_lines byte_break raw))) h

  received-bounds :
      (limit used : ℕ) (c : ChildRun) {t : Text} {n : ℕ}
      → receive_tool_result loads limit used c ≡ ok (t, n)
      → (used ≤ n) × (n ≤ limit)
  unfolding receive_tool_result
  received-bounds limit used c h = ground (arith, decode-bounds limit used c.output)

  used_after-bounds :
      (limit used : ℕ) (x : Result AgentError (Text × ℕ))
      → used ≤ limit
      → ((t : Text) (n : ℕ) → x ≡ ok (t, n) → (used ≤ n) × (n ≤ limit))
      → (used ≤ used_after loads used x) × (used_after loads used x ≤ limit)
  unfolding used_after
  used_after-bounds limit used (ok (t, n)) h b = b t n refl
  used_after-bounds limit used (err e) h b = (omega arith, h)

  abbrev Budgeted : ℕ → ℕ → ToolEnd → Type 0
  Budgeted limit used e = (used ≤ e.used) × (e.used ≤ limit)

  launched-Budgeted :
      (name : Text) (arguments : Fields) (limit used : ℕ) (c : ChildRun)
      (l : Result AgentError Text)
      → used ≤ limit
      → Budgeted limit used (launched_call loads name arguments limit used c l)
  unfolding launched_call finish_call
  launched-Budgeted name arguments limit used c (err e) h = (omega arith, h)
  launched-Budgeted name arguments limit used c (ok transaction_id) h =
      used_after-bounds limit used (receive_tool_result loads limit used c) h
        (λ t n. received-bounds limit used c)

  -- Whatever a child answers, the bytes that are charged to the run never fall and never pass the limit,
  -- if they were within it before.
  pub execute_in_subprocess_budget :
      (name : Text) (arguments : Fields) (limit used : ℕ) (c : ChildRun)
      → used ≤ limit
      → (used ≤ (execute_in_subprocess loads name arguments limit used c).used)
        × ((execute_in_subprocess loads name arguments limit used c).used ≤ limit)
  unfolding execute_in_subprocess
  execute_in_subprocess_budget name arguments limit used c h =
      if_cases (Budgeted limit used) (c.time_left == 0) _ _ (λ _. (omega arith, h))
        (λ _. launched-Budgeted name arguments limit used c c.launched h)
