-- ===== src/Examples/Edits.antt =====
-- Glob patterns, edits, notebooks and calls of tools at concrete inputs
-- (src/deepseek_mcp/workspace_walk.py and tools.py).
use deepseek_as_subagent.Prelude.{
  ◌≤◌, ◌<◌, ◌≡◌, ◌≢◌, ap, ◌++◌, refl, ◌↔◌, ◌⊎◌, Bool, true, false, none, some, List, [], ◌∷◌, ◌*◌,
  ◌+◌, arith,
}
use deepseek_as_subagent.Prelude.Results.{Result, ok, err}
use deepseek_as_subagent.Text.{Text, codes, text_eq, starts_with, strip}
use deepseek_as_subagent.Json.{pos, Value, int, str, obj, Items, nil, cons, Fields, end, field}
use deepseek_as_subagent.Glob.{is_match, segment_matches, run, initial_states}
use deepseek_as_subagent.Glob.Reference.{matches}
use deepseek_as_subagent.Glob.Matching.{run_iff}
use deepseek_as_subagent.Tools.{
  max_write_bytes, encoded_size, count, replace, build_replacement, content_too_large,
  old_string_not_found, not_unique,
}
use deepseek_as_subagent.Tools.Edit.{limit_of, replacements_of, build_replacement_lem}
use deepseek_as_subagent.Notebook.{deleting, edit_cells, split_source}
use deepseek_as_subagent.Notebook.Cells.{
  Edited, edit_cells-Edited, concat_texts, split_source-concat,
}
use deepseek_as_subagent.BashTool.{HostRun, no_capture}
use deepseek_as_subagent.Dispatch.{
  BashHost, Workspace, found, written, Work, ToolError, name_not_a_string, execute_tool,
}
use deepseek_as_subagent.Dispatch.Charged.{Charged, ReadsSmall, execute_tool-Charged}
use deepseek_as_subagent.Dispatch.Readonly.{readonly_tools, execute_tool_readonly}

-- `fnmatchcase` of patterns without wildcards.
abbrev pattern_parts : List Text
pattern_parts = codes "src" ∷ codes "**" ∷ codes "a.py" ∷ []

abbrev deep_path : List (Text × Bool)
deep_path = (codes "src", false) ∷ (codes "lib", false) ∷ (codes "a.py", false) ∷ []

run_iff_example :
    (is_match pattern_parts (run text_eq pattern_parts (initial_states pattern_parts) deep_path)
      ≡ true)
    ↔ (matches text_eq pattern_parts deep_path ≡ true)
run_iff_example = run_iff text_eq pattern_parts deep_path

deep_path_matches :
    is_match pattern_parts (run text_eq pattern_parts (initial_states pattern_parts) deep_path)
    ≡ true
unfolding is_match run initial_states text_eq starts_with
deep_path_matches = refl

pruned_path_fails :
    matches text_eq pattern_parts
      ((codes "src", false) ∷ (codes "build", true) ∷ (codes "a.py", false) ∷ [])
    ≡ false
unfolding matches text_eq segment_matches starts_with
pruned_path_fails = refl

abbrev greeting : Text
greeting = codes "aXbXc"

build_replacement_lem_example :
    let t = replace greeting (codes "X") (codes "--") (limit_of true) in
    let r = replacements_of greeting (codes "X") true in
    let built = build_replacement greeting (codes "X") (codes "--") true (codes "f.txt") in
    (count greeting (codes "X") ≡ 0 → built ≡ err (old_string_not_found (codes "f.txt")))
    × (1 < count greeting (codes "X")
        → true ≡ false
        → built ≡ err (not_unique (count greeting (codes "X")) (codes "f.txt")))
    × (1 ≤ count greeting (codes "X")
        → (true ≡ true) ⊎ (count greeting (codes "X") ≡ 1)
        → (encoded_size t + r * encoded_size (codes "X")
            ≡ encoded_size greeting + r * encoded_size (codes "--"))
          × (encoded_size t ≤ max_write_bytes → built ≡ ok (t, r))
          × (max_write_bytes < encoded_size t → built ≡ err content_too_large))
build_replacement_lem_example =
    build_replacement_lem greeting (codes "X") (codes "--") true (codes "f.txt") refl (omega arith)

replaces_all :
    build_replacement greeting (codes "X") (codes "--") true (codes "f.txt")
    ≡ ok (codes "a--b--c", 2)
unfolding build_replacement
replaces_all = refl

split_source-concat_example : concat_texts (split_source (codes "a\nb")) ≡ codes "a\nb"
split_source-concat_example = split_source-concat (codes "a\nb")

abbrev cell : Text → Value
cell id = obj (field (codes "id") (str (codes "x")) (field (codes "source") (str id) end))

abbrev two_cells : Items
two_cells = cons (cell (codes "p")) (cons (cell (codes "q")) nil)

abbrev delete_second : Fields
delete_second = field (codes "cell_index") (int (pos 1)) end

abbrev never_same : Value → Value → Bool
never_same v w = false

second_deleted :
    edit_cells never_same two_cells delete_second deleting (codes "new")
    ≡ ok (cons (cell (codes "p")) nil)
unfolding edit_cells
second_deleted = refl

edit_cells-Edited_example :
    Edited never_same deleting two_cells (cons (cell (codes "p")) nil) delete_second (codes "new")
edit_cells-Edited_example =
    edit_cells-Edited never_same two_cells delete_second deleting (codes "new") second_deleted

-- A workspace with one text in every file.
abbrev hello_workspace : Workspace
hello_workspace = record {
  read_text = λ strict reject path. found (codes "hello");
  write_text = λ path text. written;
}

hello_small : ReadsSmall hello_workspace
hello_small strict reject path t h = let e : codes "hello" ≡ t = cc in rw (← e) (omega arith)

abbrev no_json : Text → Result Text Value
no_json t = err (codes "no JSON")

abbrev no_search : Fields → Result ToolError Text
no_search args = err name_not_a_string

abbrev done : HostRun
done = record {
  cause = none;
  stopped = true;
  readers_ok = true;
  stdout = no_capture;
  stderr = no_capture;
  returncode = some (pos 0);
  timed_out = false;
}

-- Commands that write nothing, and commands that write a file.
abbrev quiet_bash : BashHost
quiet_bash = record {
  decode = λ bytes. bytes;
  lower = λ t. t;
  tokenize = λ t. t ∷ [];
  refusal = λ e. codes "refused";
  process = λ command timeout writes. (done, writes);
}

abbrev writing_bash : BashHost
writing_bash = record quiet_bash {
  process = λ command timeout writes. (done, writes ++ ((codes "b.txt", codes "big") ∷ []));
}

not_bash : str (codes "Write") ≢ str (codes "Bash")
unfolding text_eq
not_bash e = let f : true ≡ false = ap is_write e in absurd (cc)
  where
    is_write : Value → Bool
    is_write (str t) = text_eq t (codes "Write")
    is_write v = false

abbrev write_call : Fields
write_call =
    field (codes "path") (str (codes "a.txt")) (field (codes "content") (str (codes "hi")) end)

abbrev fresh_work : Work
fresh_work = record { used = 0; writes = []; warnings = [] }

fresh_work-Charged : Charged 100 fresh_work
fresh_work-Charged = record { is_charged = omega arith; is_within = omega arith; are_small = tt }

execute_tool-Charged_example : Charged 100 (
    (execute_tool hello_workspace no_json
      (λ v. [])
      never_same
      (codes "id")
      quiet_bash
      none
      no_search
      no_search
      (codes "Write" ∷ [])
      (some 100)
      (str (codes "Write"))
      (obj write_call)
      fresh_work).1)
execute_tool-Charged_example =
    execute_tool-Charged hello_workspace 100 hello_small no_json (λ v. []) never_same (codes "id")
      quiet_bash none no_search no_search (codes "Write" ∷ []) (str (codes "Write"))
      (obj write_call) fresh_work not_bash fresh_work-Charged

write_is_charged :
    (execute_tool hello_workspace no_json
      (λ v. [])
      never_same
      (codes "id")
      quiet_bash
      none
      no_search
      no_search
      (codes "Write" ∷ [])
      (some 100)
      (str (codes "Write"))
      (obj write_call)
      fresh_work).1
    ≡ record { used = 2; writes = (codes "a.txt", codes "hi") ∷ []; warnings = [] }
unfolding execute_tool
write_is_charged = refl

abbrev bash_call : Fields
bash_call = field (codes "command") (str (codes "make")) end

-- What a command of Bash writes is not charged.
bash_is_uncharged :
    (execute_tool hello_workspace no_json
      (λ v. [])
      never_same
      (codes "id")
      writing_bash
      none
      no_search
      no_search
      (codes "Bash" ∷ [])
      (some 100)
      (str (codes "Bash"))
      (obj bash_call)
      fresh_work).1
    ≡ record { used = 0; writes = (codes "b.txt", codes "big") ∷ []; warnings = [] }
unfolding execute_tool strip
bash_is_uncharged = refl

execute_tool_readonly_example :
    ((execute_tool hello_workspace no_json
        (λ v. [])
        never_same
        (codes "id")
        quiet_bash
        none
        no_search
        no_search
        readonly_tools
        none
        (str (codes "Write"))
        (obj write_call)
        fresh_work).1
      ≡ fresh_work)
    × (execute_tool hello_workspace no_json
          (λ v. [])
          never_same
          (codes "id")
          quiet_bash
          none
          no_search
          no_search
          readonly_tools
          none
          (str (codes "Write"))
          (obj write_call)
          fresh_work
        ≡ execute_tool hello_workspace no_json
            (λ v. [])
            never_same
            (codes "id")
            writing_bash
            none
            no_search
            no_search
            readonly_tools
            none
            (str (codes "Write"))
            (obj write_call)
            fresh_work)
execute_tool_readonly_example =
    execute_tool_readonly hello_workspace no_json (λ v. []) never_same (codes "id") quiet_bash none
      no_search no_search writing_bash none (str (codes "Write")) (obj write_call) fresh_work
