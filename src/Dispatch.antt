-- ===== src/Dispatch.antt =====
-- src/deepseek_mcp/tools.py: the tools themselves and `execute_tool`. What reading and writing a file of
-- the workspace answers is a record of functions, and so is what the process of a Bash command does; Glob
-- and Grep, json.loads and json.dumps are parameters. Results and errors are constructors.
pub mod Charged
pub mod Readonly
use mathlib.Core.List.{reverse}
use deepseek_as_subagent.Prelude.{
  ℕ, zero, Bool, true, false, not, ◌&&◌, ◌||◌, Option, none, some, List, [], ◌∷◌, ◌++◌, ltb,
  if◌then◌else◌, length, is_empty,
}
use deepseek_as_subagent.Prelude.Results.{Result, ok, err}
use deepseek_as_subagent.Prelude.Exec.{Exec, pure, raise, lift, raise_if, ◌>>=◌, ◌>>◌}
use deepseek_as_subagent.Text.{Text, codes, text_eq, starts_with, member}
use deepseek_as_subagent.Json.{
  pos, Value, null, bool, int, str, arr, obj, Items, nil, Fields, end, field, get,
}
use deepseek_as_subagent.Agent.State.{reserve}
use deepseek_as_subagent.FileIdentity.{ToolInputError}
use deepseek_as_subagent.Tools.{
  max_write_bytes, clamped_size, truncate, slice_lines, build_replacement, ToolFailure,
  missing_path, missing_old_string, not_a_string, replace_all_not_a_boolean, content_too_large,
  not_found, unreadable, already_exists, write_failed, budget_exceeded,
}
use deepseek_as_subagent.BashTool.{HostRun, BashRefusal, command_request, execute_bash}
use deepseek_as_subagent.Notebook.{
  EditMode, replacing, inserting, deleting, NotebookError, put, item_count, edit_cells,
}

pub data ReadAnswer : Type 0 where
  found : Text → ReadAnswer
  absent : ReadAnswer
  read_error : Text → ReadAnswer

-- A write that is refused wrote nothing; one with a warning was committed.
pub data WriteAnswer : Type 0 where
  written : WriteAnswer
  committed : Text → WriteAnswer
  appeared : WriteAnswer
  refused : Text → WriteAnswer

pub record Workspace : Type 0 where
  -- With `strict_utf8` and `reject_binary`.
  pub read_text : Bool → Bool → Text → ReadAnswer
  pub write_text : Text → Text → WriteAnswer

-- What the calls have done: the bytes of the mutation budget, the files written, the warnings.
pub record Work : Type 0 where
  pub used : ℕ
  pub writes : List (Text × Text)
  pub warnings : List Text

pub data ToolError : Type 0 where
  failure : ToolFailure → ToolError
  input_error : ToolInputError → ToolError
  notebook_error : NotebookError → ToolError
  not_a_notebook : Text → ToolError
  invalid_edit_mode : Value → ToolError
  name_not_a_string : ToolError
  arguments_not_an_object : ToolError
  not_allowed : Text → ToolError
  unknown_tool : Text → ToolError

-- The number is that of the code points written, of the replacements, or of the cells.
pub data ToolDone : Type 0 where
  shown : Text → ToolDone
  wrote : ℕ → Text → Option Text → ToolDone
  replaced : ℕ → Text → Option Text → ToolDone
  edited : ℕ → Option Text → ToolDone

abbrev pub Act : Type 0 → Type 0
Act A = Exec Work ToolError A

-- `args.get(key, default)`
unfoldable pub get_or : Text → Value → Fields → Value
unfolding get
get_or key default args = elim (get key args) [ none ↦ default | some v ↦ v ]

-- A non-empty string for a path.
path_of : Value → Result ToolError Text
path_of (str t) = if is_empty t then err (failure missing_path) else ok t
path_of _ = err (failure missing_path)

string_of : Text → Value → Result ToolError Text
string_of name (str t) = ok t
string_of name _ = err (failure (not_a_string name))

old_string_of : Value → Result ToolError Text
old_string_of (str t) = if is_empty t then err (failure missing_old_string) else ok t
old_string_of _ = err (failure missing_old_string)

bool_of : Value → Result ToolError Bool
bool_of (bool b) = ok b
bool_of _ = err (failure replace_all_not_a_boolean)

lift_input {ℓ} : {A : Type ℓ} → Result ToolInputError A → Result ToolError A
lift_input (ok a) = ok a
lift_input (err e) = err (input_error e)

lift_failure {ℓ} : {A : Type ℓ} → Result ToolFailure A → Result ToolError A
lift_failure (ok a) = ok a
lift_failure (err e) = err (failure e)

lift_notebook {ℓ} : {A : Type ℓ} → Result NotebookError A → Result ToolError A
lift_notebook (ok a) = ok a
lift_notebook (err e) = err (notebook_error e)

module _ (w : Workspace) where
  -- `_read_workspace_text`
  read_file : Bool → Bool → Text → Result ToolError Text
  read_file strict reject path = elim (w.read_text strict reject path) [
    | found t ↦ ok t
    | absent ↦ err (failure (not_found path))
    | read_error e ↦ err (failure (unreadable path e))
  ]

  answered : Text → Text → WriteAnswer → Act (Option Text)
  answered path text written s = (ok none, record s { writes = s.writes ++ ((path, text) ∷ []) })
  answered path text (committed e) s = (
    ok (some e),
    record s { writes = s.writes ++ ((path, text) ∷ []); warnings = s.warnings ++ (e ∷ []) },
  )
  answered path text appeared s = (err (failure (already_exists path)), s)
  answered path text (refused e) s = (err (failure (write_failed path e)), s)

  charged : Text → Text → Option ℕ → Act (Option Text)
  unfolding answered
  charged path text none s = (err (failure budget_exceeded), s)
  charged path text (some used) s =
      answered path text (w.write_text path text) (record s { used = used })

  -- `apply_mutation` of an atomic write: the bytes are reserved first.
  unfoldable pub write_file : Option ℕ → Text → Text → Act (Option Text)
  unfolding charged reserve clamped_size
  write_file none path text s = answered path text (w.write_text path text) s
  write_file (some limit) path text s =
      charged path text (reserve limit s.used (clamped_size text)) s

  unfoldable pub execute_read : Fields → Act ToolDone
  unfolding read_file path_of get_or slice_lines truncate lift_input
  execute_read args = do
    path ← lift (path_of (get_or (codes "path") (str []) args))
    text ← lift (read_file false true path)
    sliced ← lift (lift_input (slice_lines text args))
    pure (shown (truncate sliced))

  unfoldable pub execute_write : Option ℕ → Fields → Act ToolDone
  unfolding write_file path_of string_of get_or
  execute_write limit args = do
    path ← lift (path_of (get_or (codes "path") (str []) args))
    content ← lift (string_of (codes "content") (get_or (codes "content") (str []) args))
    raise_if (ltb max_write_bytes (clamped_size content)) (failure content_too_large)
    warning ← write_file limit path content
    pure (wrote (length content) path warning)

  unfoldable pub execute_edit : Option ℕ → Fields → Act ToolDone
  unfolding write_file read_file path_of string_of old_string_of bool_of get_or lift_failure
  execute_edit limit args = do
    path ← lift (path_of (get_or (codes "path") (str []) args))
    old ← lift (old_string_of (get_or (codes "old_string") (str []) args))
    new ← lift (string_of (codes "new_string") (get_or (codes "new_string") (str []) args))
    replace_all ← lift (bool_of (get_or (codes "replace_all") (bool false) args))
    text ← lift (read_file true true path)
    change ← lift (lift_failure (build_replacement text old new replace_all path))
    warning ← write_file limit path (change.0)
    pure (replaced (change.1) path warning)

-- The parameters of Bash, and the process of a command with its timeout: what it did, and the files
-- written behind it, which are no concern of the mutation budget.
pub record BashHost : Type 0 where
  pub decode : List ℕ → Text
  pub lower : Text → Text
  pub tokenize : Text → List Text
  pub refusal : BashRefusal → Text
  pub process : Text → ℕ → List (Text × Text) → HostRun × List (Text × Text)

bash_writes : BashHost → Result BashRefusal (Text × ℕ) → List (Text × Text) → List (Text × Text)
bash_writes b (err e) writes = writes
bash_writes b (ok (command, timeout)) writes = (b.process command timeout writes).1

-- `execute_bash`, whose process may change any file of the workspace.
unfoldable pub execute_bash_tool : BashHost → Option ℕ → Fields → Act ToolDone
unfolding execute_bash command_request bash_writes
execute_bash_tool b max_timeout args s = (
  ok (
      shown (
        execute_bash b.decode b.lower b.tokenize b.refusal
          (λ command timeout. (b.process command timeout s.writes).0) args max_timeout)),
  record s {
    writes = bash_writes b (command_request b.lower b.tokenize args max_timeout) s.writes;
  },
)

mode_of : Value → Result ToolError EditMode
unfolding text_eq
mode_of (str t) =
    if text_eq t (codes "replace")
    then ok replacing
    else if text_eq t (codes "insert")
    then ok inserting
    else if text_eq t (codes "delete")
    then ok deleting
    else err (invalid_edit_mode (str t))
mode_of v = err (invalid_edit_mode v)

ends_with : Text → Text → Bool
unfolding starts_with
ends_with suffix t = starts_with (reverse suffix) (reverse t)

-- A notebook: its fields, and the cells among them.
pub record Notebook : Type 0 where
  pub fields : Fields
  pub cells : Items

new_notebook : Notebook
new_notebook = record {
  cells = nil;
  fields = field (codes "cells") (arr nil) (
      field (codes "metadata")
        (obj (
          field (codes "kernelspec")
            (obj (
              field (codes "display_name") (str (codes "Python 3")) (
                field (codes "language") (str (codes "python"))
                  (field (codes "name") (str (codes "python3")) end))))
            (field (codes "language_info") (obj (field (codes "name") (str (codes "python")) end))
              end)))
        (field (codes "nbformat") (int (pos 4))
          (field (codes "nbformat_minor") (int (pos 5)) end)));
}

with_cells : Fields → Option Value → Result ToolError Notebook
with_cells fs (some (arr vs)) = ok (record { fields = fs; cells = vs })
with_cells fs _ = err (failure (not_a_string (codes "cells")))

module _ (w : Workspace) (loads : Text → Result Text Value) (dumps : Value → Text) where
  parsed : Text → Result Text Value → Result ToolError Notebook
  unfolding with_cells get
  parsed path (err e) = err (failure (unreadable path e))
  parsed path (ok (obj fs)) = with_cells fs (get (codes "cells") fs)
  parsed path (ok _) = err (failure (not_a_string (codes "cells")))

  -- `_load_notebook`
  load_notebook : Text → EditMode → Result ToolError Notebook
  unfolding parsed new_notebook
  load_notebook path mode = elim (w.read_text true false path) [
    | found t ↦ parsed path (loads t)
    | read_error e ↦ err (failure (unreadable path e))
    | absent ↦ elim mode [ inserting ↦ ok new_notebook | _ ↦ err (failure (not_found path)) ]
  ]

  -- `_save_notebook`
  save_notebook : Option ℕ → Text → Value → Act (Option Text)
  unfolding write_file clamped_size
  save_notebook limit path v = do
    raise_if (ltb max_write_bytes (clamped_size (dumps v ++ codes "\n")))
        (failure content_too_large)
    write_file w limit path (dumps v ++ codes "\n")

  module _ (same : Value → Value → Bool) (fresh_id : Text) where
    unfoldable pub execute_notebook_edit : Option ℕ → Fields → Act ToolDone
    unfolding load_notebook save_notebook path_of mode_of ends_with get_or lift_notebook edit_cells
        put item_count
    execute_notebook_edit limit args = do
      path ← lift (path_of (get_or (codes "path") (str []) args))
      raise_if (not (ends_with (codes ".ipynb") path)) (not_a_notebook path)
      mode ← lift (mode_of (get_or (codes "edit_mode") (str (codes "replace")) args))
      notebook ← lift (load_notebook path mode)
      cells ← lift (lift_notebook (edit_cells same (notebook.cells) args mode fresh_id))
      warning ← save_notebook limit path (obj (put (codes "cells") (arr cells) (notebook.fields)))
      pure (edited (item_count cells) warning)

    module _ (bash : BashHost) (max_timeout : Option ℕ)
        (glob grep : Fields → Result ToolError Text) where
      -- The tools of `TOOL_REGISTRY`, and Bash.
      unfoldable pub run_tool : Option ℕ → Text → Fields → Act ToolDone
      unfolding text_eq execute_read execute_write execute_edit execute_notebook_edit
          execute_bash_tool
      run_tool limit name args =
          if text_eq name (codes "Bash")
          then execute_bash_tool bash max_timeout args
          else if text_eq name (codes "Read")
          then execute_read w args
          else if text_eq name (codes "Write")
          then execute_write w limit args
          else if text_eq name (codes "Edit")
          then execute_edit w limit args
          else if text_eq name (codes "Glob")
          then searched (glob args)
          else if text_eq name (codes "Grep")
          then searched (grep args)
          else if text_eq name (codes "NotebookEdit")
          then execute_notebook_edit limit args
          else raise (unknown_tool name)
        where
          searched : Result ToolError Text → Act ToolDone
          searched r = do text ← lift r; pure (shown text)

      -- `execute_tool`, for the tools that the configuration allows.
      unfoldable pub execute_tool : List Text → Option ℕ → Value → Value → Act ToolDone
      unfolding run_tool member
      execute_tool allowed limit (str name) (obj args) =
          if member name allowed then run_tool limit name args else raise (not_allowed name)
      execute_tool allowed limit (str name) _ = raise arguments_not_an_object
      execute_tool allowed limit _ args = raise name_not_a_string
