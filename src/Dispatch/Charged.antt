-- ===== src/Dispatch/Charged.antt =====
-- Every byte that a tool other than Bash writes is charged to the mutation budget (src/deepseek_mcp/tools.py,
-- src/deepseek_mcp/resource_budget.py).
use deepseek_as_subagent.Prelude.{
  ℕ, ◌+◌, ◌≤◌, ◌≡◌, ◌≢◌, refl, sym, ap, ◌∙◌, inl, inr, Bool, true, false, not, Option, none, some,
  List, [], ◌∷◌, ◌++◌, arith, ltb, length, is_empty, All, All-append, Bool-cases, if_false,
  if_cases,
}
use deepseek_as_subagent.Prelude.Results.{Result, ok, err}
use deepseek_as_subagent.Prelude.Exec.{pure, lift, ◌>>=◌}
use deepseek_as_subagent.Prelude.Keeps.{
  Keeps, Keeps-pure, Keeps-raise, Keeps-bind, Keeps-lift-bind, Keeps-raise_if,
}
use deepseek_as_subagent.Text.{Text, codes, text_eq, text_eq_sound, member}
use deepseek_as_subagent.Json.{Value, null, bool, int, real, str, arr, obj, Fields}
use deepseek_as_subagent.Agent.State.{reserve}
use deepseek_as_subagent.Notebook.{put, item_count, edit_cells}
use deepseek_as_subagent.Tools.{
  ToolFailure, not_found, unreadable, content_too_large, max_write_bytes, encoded_size,
  clamped_size, truncate, slice_lines, build_replacement,
}
use deepseek_as_subagent.Tools.Edit.{
  length_le-encoded_size, clamped_size_small, build_replacement-size, clamped_size-fits,
}
use deepseek_as_subagent.Dispatch.{
  BashHost, ReadAnswer, found, absent, read_error, WriteAnswer, written, committed, appeared,
  refused, Workspace, Work, ToolError, failure, not_a_notebook, name_not_a_string,
  arguments_not_an_object, not_allowed, unknown_tool, ToolDone, shown, wrote, replaced, edited, Act,
  get_or, path_of, string_of, old_string_of, bool_of, lift_input, lift_failure, lift_notebook,
  read_file, answered, charged, write_file, execute_read, execute_write, execute_edit, mode_of,
  ends_with, load_notebook, save_notebook, execute_notebook_edit, run_tool, execute_tool,
}

abbrev pub written_bytes : List (Text × Text) → ℕ
written_bytes [] = 0
written_bytes ((path, text) ∷ ws) = encoded_size text + written_bytes ws

written_bytes-append :
    (ws : List (Text × Text)) (path text : Text)
    → written_bytes (ws ++ ((path, text) ∷ [])) ≡ written_bytes ws + encoded_size text
written_bytes-append [] path text = omega arith
written_bytes-append ((p, t) ∷ ws) path text = omega (arith, written_bytes-append ws path text)

abbrev pub IsSmall : Text × Text → Type 0
IsSmall (path, text) = encoded_size text ≤ max_write_bytes

-- What was written is charged, what is charged is within the limit, and every file written is small.
pub record Charged (limit : ℕ) (s : Work) : Type 0 where
  pub is_charged : written_bytes s.writes ≤ s.used
  pub is_within : s.used ≤ limit
  pub are_small : All IsSmall s.writes

grown :
    {limit : ℕ} (path text : Text) (s : Work) (u : ℕ) {warnings : List Text}
    → encoded_size text ≤ max_write_bytes
    → u ≡ s.used + encoded_size text
    → u ≤ limit
    → Charged limit s
    → Charged limit
        (record { used = u; writes = s.writes ++ ((path, text) ∷ []); warnings = warnings })
grown path text s u small e l c = record {
  is_charged = omega (arith, written_bytes-append s.writes path text, c.is_charged);
  is_within = l;
  are_small = All-append IsSmall s.writes ((path, text) ∷ []) c.are_small (small, tt);
}

unwritten :
    {limit : ℕ} (text : Text) (s : Work) (u : ℕ)
    → u ≡ s.used + encoded_size text
    → u ≤ limit
    → Charged limit s
    → Charged limit (record s { used = u })
unwritten text s u e l c = record {
  is_charged = omega (arith, c.is_charged);
  is_within = l;
  are_small = c.are_small;
}

module _ (w : Workspace) (limit : ℕ) where
  answered-Charged :
      (path text : Text) (a : WriteAnswer) (s : Work) (u : ℕ)
      → encoded_size text ≤ max_write_bytes
      → u ≡ s.used + encoded_size text
      → u ≤ limit
      → Charged limit s
      → Charged limit ((answered w path text a (record s { used = u })).1)
  unfolding answered
  answered-Charged path text written s u small e l c = grown path text s u small e l c
  answered-Charged path text (committed t) s u small e l c = grown path text s u small e l c
  answered-Charged path text appeared s u small e l c = unwritten text s u e l c
  answered-Charged path text (refused t) s u small e l c = unwritten text s u e l c

  charged-Charged :
      (path text : Text) (o : Option ℕ) (s : Work)
      → encoded_size text ≤ max_write_bytes
      → reserve limit s.used (clamped_size text) ≡ o
      → Charged limit s
      → Charged limit ((charged w path text o s).1)
  unfolding charged reserve
  charged-Charged path text none s small e c = c
  charged-Charged path text (some u) s small e c =
      elim (Bool-cases (ltb limit (s.used + clamped_size text))) [
        | inl g ↦ absurd (cc)
        | inr g ↦
            let h : some (s.used + clamped_size text) ≡ some u = sym (if_false _ _ g) ∙ e in
            let f : s.used + clamped_size text ≡ u = cc in
            let size = clamped_size_small text (omega (arith, length_le-encoded_size text)) in
            answered-Charged path text (w.write_text path text) s u small (omega (arith, f, size))
              (ground (arith, f, g)) c
      ]

  write_file-Keeps :
      (path text : Text)
      → encoded_size text ≤ max_write_bytes
      → Keeps (Charged limit) (write_file w (some limit) path text)
  unfolding write_file
  write_file-Keeps path text small = record {
    at = λ s c. charged-Charged path text (reserve limit s.used (clamped_size text)) s small refl c;
  }

  -- A text that is written and told.
  told-Keeps :
      (path text : Text) (f : Option Text → ToolDone)
      → encoded_size text ≤ max_write_bytes
      → Keeps (Charged limit) (do warning ← write_file w (some limit) path text; pure (f warning))
  told-Keeps path text f small =
      Keeps-bind (Charged limit) (write_file w (some limit) path text) (λ e. pure (f e))
        (write_file-Keeps path text small) (λ e. Keeps-pure (Charged limit) (f e))

  execute_read-Keeps : (args : Fields) → Keeps (Charged limit) (execute_read w args)
  unfolding execute_read
  execute_read-Keeps args =
      Keeps-lift-bind (Charged limit) (path_of (get_or (codes "path") (str []) args)) _ (λ path e.
        Keeps-lift-bind (Charged limit) (read_file w false true path) _ (λ text f.
          Keeps-lift-bind (Charged limit) (lift_input (slice_lines text args)) _
            (λ sliced g. Keeps-pure (Charged limit) (shown (truncate sliced)))))

  execute_write-Keeps : (args : Fields) → Keeps (Charged limit) (execute_write w (some limit) args)
  unfolding execute_write
  execute_write-Keeps args =
      Keeps-lift-bind (Charged limit) (path_of (get_or (codes "path") (str []) args)) _ (λ path e.
        Keeps-lift-bind (Charged limit)
          (string_of (codes "content") (get_or (codes "content") (str []) args)) _
          (λ content f.
            Keeps-raise_if (Charged limit) (ltb max_write_bytes (clamped_size content))
              (failure content_too_large) _
              (λ small.
                told-Keeps path content (λ warning. wrote (length content) path warning)
                  (clamped_size-fits content small))))

old_string_of-nonempty : (v : Value) {old : Text} → old_string_of v ≡ ok old → is_empty old ≡ false
unfolding old_string_of
old_string_of-nonempty (str t) {old} h = elim (Bool-cases (is_empty t)) [
  | inl g ↦ absurd (cc)
  | inr g ↦
      let k : ◌≡◌ {A = Result ToolError Text} (ok t) (ok old) = sym (if_false _ _ g) ∙ h in
      let f : t ≡ old = cc in ap is_empty (sym f) ∙ g
]
old_string_of-nonempty null h = absurd (cc)
old_string_of-nonempty (bool b) h = absurd (cc)
old_string_of-nonempty (int n) h = absurd (cc)
old_string_of-nonempty (real t) h = absurd (cc)
old_string_of-nonempty (arr vs) h = absurd (cc)
old_string_of-nonempty (obj fs) h = absurd (cc)

lift_failure-eq-ok {ℓ} :
    {A : Type ℓ} (r : Result ToolFailure A) {a : A} → lift_failure r ≡ ok a → r ≡ ok a
unfolding lift_failure
lift_failure-eq-ok (ok a) h = cc
lift_failure-eq-ok (err e) h = absurd (cc)

-- Reading a file gives at most 5,000,000 code points, since it refuses a file of more bytes.
abbrev pub ReadsSmall : Workspace → Type 0
ReadsSmall w =
    (strict reject : Bool) (path t : Text)
    → w.read_text strict reject path ≡ found t
    → length t ≤ max_write_bytes

module _ (w : Workspace) (limit : ℕ) (small : ReadsSmall w) where
  read_file-small :
      (strict reject : Bool) (path : Text) {t : Text}
      → read_file w strict reject path ≡ ok t
      → length t ≤ max_write_bytes
  unfolding read_file
  read_file-small strict reject path {t} h = answer (w.read_text strict reject path) refl h
    where
      answer :
          (a : ReadAnswer)
          → w.read_text strict reject path ≡ a
          → ◌≡◌ {A = Result ToolError Text}
              (elim a [
                | found t ↦ ok t
                | absent ↦ err (failure (not_found path))
                | read_error e ↦ err (failure (unreadable path e))
              ])
              (ok t)
          → length t ≤ max_write_bytes
      answer (found u) e g =
          let f : u ≡ t = cc in small strict reject path t (e ∙ ap (λ x. found x) f)
      answer absent e g = absurd (cc)
      answer (read_error x) e g = absurd (cc)

  execute_edit-Keeps : (args : Fields) → Keeps (Charged limit) (execute_edit w (some limit) args)
  unfolding execute_edit
  execute_edit-Keeps args =
      Keeps-lift-bind (Charged limit) (path_of (get_or (codes "path") (str []) args)) _ (λ path e.
        Keeps-lift-bind (Charged limit) (old_string_of (get_or (codes "old_string") (str []) args))
          _
          (λ old f.
            Keeps-lift-bind (Charged limit)
              (string_of (codes "new_string") (get_or (codes "new_string") (str []) args)) _
              (λ new g.
                Keeps-lift-bind (Charged limit)
                  (bool_of (get_or (codes "replace_all") (bool false) args)) _
                  (λ replace_all h.
                    Keeps-lift-bind (Charged limit) (read_file w true true path) _ (λ text i.
                      Keeps-lift-bind (Charged limit)
                        (lift_failure (build_replacement text old new replace_all path)) _
                        (λ change j.
                          told-Keeps w limit path (change.0)
                            (λ warning. replaced (change.1) path warning)
                            (build_replacement-size text old new replace_all path
                              (old_string_of-nonempty (get_or (codes "old_string") (str []) args) f)
                              (read_file-small true true path i)
                              (lift_failure-eq-ok (build_replacement text old new replace_all path)
                                j))))))))

  module _ (loads : Text → Result Text Value) (dumps : Value → Text) (same : Value → Value → Bool)
      (fresh_id : Text) where
    save_notebook-Keeps :
        (path : Text) (v : Value)
        → Keeps (Charged limit) (save_notebook w loads dumps (some limit) path v)
    unfolding save_notebook
    save_notebook-Keeps path v =
        Keeps-raise_if (Charged limit) (ltb max_write_bytes (clamped_size (dumps v ++ codes "\n")))
          (failure content_too_large) _
          (λ fits.
            write_file-Keeps w limit path (dumps v ++ codes "\n")
              (clamped_size-fits (dumps v ++ codes "\n") fits))

    execute_notebook_edit-Keeps :
        (args : Fields)
        → Keeps
            (Charged limit)
            (execute_notebook_edit w loads dumps same fresh_id (some limit) args)
    unfolding execute_notebook_edit
    execute_notebook_edit-Keeps args =
        Keeps-lift-bind (Charged limit) (path_of (get_or (codes "path") (str []) args)) _ (λ path e.
          Keeps-raise_if (Charged limit) (not (ends_with (codes ".ipynb") path))
            (not_a_notebook path) _
            (λ f.
              Keeps-lift-bind (Charged limit)
                (mode_of (get_or (codes "edit_mode") (str (codes "replace")) args)) _
                (λ mode g.
                  Keeps-lift-bind (Charged limit) (load_notebook w loads dumps path mode) _
                    (λ notebook h.
                      Keeps-lift-bind (Charged limit)
                        (lift_notebook (edit_cells same (notebook.cells) args mode fresh_id)) _
                        (λ cells i.
                          Keeps-bind (Charged limit)
                            (save_notebook w loads dumps (some limit) path
                              (obj (put (codes "cells") (arr cells) (notebook.fields))))
                            _
                            (save_notebook-Keeps path
                              (obj (put (codes "cells") (arr cells) (notebook.fields))))
                            (λ warning.
                              Keeps-pure (Charged limit) (edited (item_count cells) warning)))))))

    module _ (bash : BashHost) (max_timeout : Option ℕ)
        (glob grep : Fields → Result ToolError Text) where
      run_tool-Keeps :
          (name : Text) (args : Fields)
          → text_eq name (codes "Bash") ≡ false
          → Keeps (Charged limit) (
              run_tool w loads dumps same fresh_id bash max_timeout glob grep
                (some limit)
                name
                args)
      unfolding run_tool
      run_tool-Keeps name args other =
          if_cases kept (text_eq name (codes "Bash")) _ _ (λ e. absurd (cc))
            (λ e.
              if_cases kept (text_eq name (codes "Read")) _ _ (λ e. execute_read-Keeps w limit args)
                (λ e.
                  if_cases kept (text_eq name (codes "Write")) _ _
                    (λ e. execute_write-Keeps w limit args)
                    (λ e.
                      if_cases kept (text_eq name (codes "Edit")) _ _ (λ e. execute_edit-Keeps args)
                        (λ e.
                          if_cases kept (text_eq name (codes "Glob")) _ _
                            (λ e. searched-Keeps (glob args))
                            (λ e.
                              if_cases kept (text_eq name (codes "Grep")) _ _
                                (λ e. searched-Keeps (grep args))
                                (λ e.
                                  if_cases kept (text_eq name (codes "NotebookEdit")) _ _
                                    (λ e. execute_notebook_edit-Keeps args)
                                    (λ e. Keeps-raise (Charged limit) (unknown_tool name))))))))
        where
          kept : Act ToolDone → Type 0
          kept m = Keeps (Charged limit) m

          searched-Keeps :
              (r : Result ToolError Text)
              → Keeps (Charged limit) (do text ← lift r; pure (shown text))
          searched-Keeps r =
              Keeps-lift-bind (Charged limit) r _
                (λ text f. Keeps-pure (Charged limit) (shown text))

      not_bash : (name : Text) → str name ≢ str (codes "Bash") → text_eq name (codes "Bash") ≡ false
      not_bash name other = elim (Bool-cases (text_eq name (codes "Bash"))) [
        | inl e ↦ absurd (other (ap (λ t. str t) (text_eq_sound name (codes "Bash") e)))
        | inr e ↦ e
      ]

      execute_tool-Keeps :
          (allowed : List Text) (name args : Value)
          → name ≢ str (codes "Bash")
          → Keeps (Charged limit) (
              execute_tool w loads dumps same fresh_id bash max_timeout glob grep allowed
                (some limit)
                name
                args)
      unfolding execute_tool
      execute_tool-Keeps allowed (str name) (obj args) other =
          if_cases (λ (m : Act ToolDone). Keeps (Charged limit) m) (member name allowed) _ _
            (λ e. run_tool-Keeps name args (not_bash name other))
            (λ e. Keeps-raise (Charged limit) (not_allowed name))
      execute_tool-Keeps allowed (str name) v other =
          Keeps-raise (Charged limit) arguments_not_an_object
      execute_tool-Keeps allowed v args other = Keeps-raise (Charged limit) name_not_a_string

      -- Whatever a call of a tool other than Bash asks for, and whether it returns or raises: if the bytes written so far are
      -- charged to a mutation budget that is within its limit, and every file written is of at most
      -- 5,000,000 bytes, then so it is behind the call, if reading a file gives at most 5,000,000 code
      -- points.
      pub execute_tool-Charged :
          (allowed : List Text) (name args : Value) (s : Work)
          → name ≢ str (codes "Bash")
          → Charged limit s
          → Charged limit (
              (execute_tool w loads dumps same fresh_id bash max_timeout glob grep allowed
                (some limit)
                name
                args
                s).1)
      execute_tool-Charged allowed name args s other c =
          (execute_tool-Keeps allowed name args other).at s c
