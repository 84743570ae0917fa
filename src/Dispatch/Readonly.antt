-- ===== src/Dispatch/Readonly.antt =====
-- A run with the read-only profile changes nothing (src/deepseek_mcp/execution_profile.py,
-- src/deepseek_mcp/tools.py).
use deepseek_as_subagent.Prelude.{
  ℕ, ◌≡◌, refl, ap, ◌⊎◌, inl, inr, Bool, true, false, Option, List, [], ◌∷◌, Bool-cases, if_cases,
}
use deepseek_as_subagent.Prelude.Results.{Result}
use deepseek_as_subagent.Prelude.Exec.{pure, lift, ◌>>=◌}
use deepseek_as_subagent.Prelude.Keeps.{Keeps, Keeps-pure, Keeps-raise, Keeps-lift-bind}
use deepseek_as_subagent.Text.{Text, codes, text_eq, text_eq_sound, member}
use deepseek_as_subagent.Json.{Value, str, obj, Fields}
use deepseek_as_subagent.Tools.{slice_lines, truncate}
use deepseek_as_subagent.Dispatch.{
  BashHost, Workspace, Work, ToolError, not_allowed, arguments_not_an_object, name_not_a_string,
  ToolDone, shown, Act, get_or, path_of, lift_input, read_file, execute_read, run_tool,
  execute_tool,
}

-- `READONLY_PROFILE`
abbrev pub readonly_tools : List Text
readonly_tools = codes "Read" ∷ codes "Glob" ∷ codes "Grep" ∷ []

-- The three names.
readonly_cases :
    (name : Text)
    → member name readonly_tools ≡ true
    → (name ≡ codes "Read") ⊎ (name ≡ codes "Glob") ⊎ (name ≡ codes "Grep")
unfolding member
readonly_cases name h = elim (Bool-cases (text_eq name (codes "Read"))) [
  | inl e ↦ inl (text_eq_sound name (codes "Read") e)
  | inr e ↦ elim (Bool-cases (text_eq name (codes "Glob"))) [
    | inl f ↦ inr (inl (text_eq_sound name (codes "Glob") f))
    | inr f ↦ elim (Bool-cases (text_eq name (codes "Grep"))) [
      | inl g ↦ inr (inr (text_eq_sound name (codes "Grep") g))
      | inr g ↦ absurd (cc)
    ]
  ]
]

module _ (w : Workspace) (loads : Text → Result Text Value) (dumps : Value → Text)
    (same : Value → Value → Bool) (fresh_id : Text) (bash : BashHost) (max_timeout : Option ℕ)
    (glob grep : Fields → Result ToolError Text) where
  module _ (s : Work) where
    IsStill : Work → Type 0
    IsStill t = t ≡ s

    searched-Keeps :
        (r : Result ToolError Text) → Keeps IsStill (do text ← lift r; pure (shown text))
    searched-Keeps r = Keeps-lift-bind IsStill r _ (λ text f. Keeps-pure IsStill (shown text))

    execute_read-Keeps : (args : Fields) → Keeps IsStill (execute_read w args)
    unfolding execute_read
    execute_read-Keeps args =
        Keeps-lift-bind IsStill (path_of (get_or (codes "path") (str []) args)) _ (λ path e.
          Keeps-lift-bind IsStill (read_file w false true path) _ (λ text f.
            Keeps-lift-bind IsStill (lift_input (slice_lines text args)) _
              (λ sliced g. Keeps-pure IsStill (shown (truncate sliced)))))

    run_tool-Keeps :
        (limit : Option ℕ) (name : Text) (args : Fields)
        → member name readonly_tools ≡ true
        → Keeps IsStill
            (run_tool w loads dumps same fresh_id bash max_timeout glob grep limit name args)
    unfolding run_tool text_eq
    run_tool-Keeps limit name args h = elim (readonly_cases name h) [
      | inl e ↦ rw e (execute_read-Keeps args)
      | inr (inl e) ↦ rw e (searched-Keeps (glob args))
      | inr (inr e) ↦ rw e (searched-Keeps (grep args))
    ]

    execute_tool-Keeps :
        (limit : Option ℕ) (name args : Value)
        → Keeps IsStill (
            execute_tool w loads dumps same fresh_id bash max_timeout glob grep readonly_tools limit
              name args)
    unfolding execute_tool
    execute_tool-Keeps limit (str name) (obj args) =
        if_cases (λ (m : Act ToolDone). Keeps IsStill m) (member name readonly_tools) _ _
          (λ e. run_tool-Keeps limit name args e) (λ e. Keeps-raise IsStill (not_allowed name))
    execute_tool-Keeps limit (str name) v = Keeps-raise IsStill arguments_not_an_object
    execute_tool-Keeps limit v args = Keeps-raise IsStill name_not_a_string

  run_tool_bash :
      (other : BashHost) (limit : Option ℕ) (name : Text) (args : Fields)
      → member name readonly_tools ≡ true
      → run_tool w loads dumps same fresh_id bash max_timeout glob grep limit name args
        ≡ run_tool w loads dumps same fresh_id other max_timeout glob grep limit name args
  unfolding run_tool text_eq
  run_tool_bash other limit name args h = elim (readonly_cases name h) [
    | inl e ↦ rw e refl
    | inr (inl e) ↦ rw e refl
    | inr (inr e) ↦ rw e refl
  ]

  execute_tool_bash :
      (other : BashHost) (limit : Option ℕ) (name args : Value)
      → execute_tool w loads dumps same fresh_id bash max_timeout glob grep readonly_tools limit
          name args
        ≡ execute_tool w loads dumps same fresh_id other max_timeout glob grep readonly_tools limit
            name args
  unfolding execute_tool
  execute_tool_bash other limit (str name) (obj args) =
      elim (Bool-cases (member name readonly_tools)) [
        | inl e ↦ rw e (run_tool_bash other limit name args e)
        | inr e ↦ rw e refl
      ]
  execute_tool_bash other limit (str name) v = refl
  execute_tool_bash other limit v args = refl

  -- With the read-only tools allowed, no call writes a file, uses up the mutation budget or leaves a
  -- warning, whether it returns or raises, and what it does does not depend on what Bash would do.
  pub execute_tool_readonly :
      (other : BashHost) (limit : Option ℕ) (name args : Value) (s : Work)
      → ((execute_tool w loads dumps same fresh_id bash max_timeout glob grep readonly_tools limit
            name args s).1
          ≡ s)
        × (execute_tool w loads dumps same fresh_id bash max_timeout glob grep readonly_tools limit
              name args s
            ≡ execute_tool w loads dumps same fresh_id other max_timeout glob grep readonly_tools
                limit name args s)
  unfolding IsStill
  execute_tool_readonly other limit name args s = (
    (execute_tool-Keeps s limit name args).at s refl,
    ap (λ m. m s) (execute_tool_bash other limit name args),
  )
