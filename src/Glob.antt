-- ===== src/Glob.antt =====
-- src/deepseek_mcp/workspace_walk.py: `_GlobPattern`, the automaton that a walk of the workspace runs on
-- the names below its base, and src/deepseek_mcp/walk_support.py: `PrunedDirectories`. A set of states is
-- a list. `fnmatch.fnmatchcase` and `str.isalpha` are parameters; the components that Windows forbids
-- are left out.
pub mod States
pub mod Reference
pub mod Advanced
pub mod Matching
use deepseek_as_subagent.Prelude.{
  ℕ, zero, suc, ◌+◌, Bool, true, false, not, ◌&&◌, ◌||◌, Option, none, some, List, [], ◌∷◌, ◌++◌,
  map, ltb, leb, ◌==◌, if◌then◌else◌, length, is_empty, any, all, select,
}
use deepseek_as_subagent.Prelude.Results.{Result, ok, err, ◌>>◌, raise_if}
use deepseek_as_subagent.Text.{Text, codes, text_eq, starts_with, member}

abbrev pub max_glob_pattern_chars : ℕ
max_glob_pattern_chars = 1_024

abbrev pub max_glob_pattern_segments : ℕ
max_glob_pattern_segments = 64

pub data GlobError : Type 0 where
  exceeds_limit : GlobError
  leaves_workspace : GlobError

-- `text.split(c)`
unfoldable pub split : ℕ → Text → List Text
split c [] = [] ∷ []
split c (a ∷ s) =
    let rest = split c s in
    if a == c
    then [] ∷ rest
    else elim rest [ [] ↦ (a ∷ []) ∷ [] | first ∷ others ↦ (a ∷ first) ∷ others ]

unfoldable pub has_windows_drive : (ℕ → Bool) → Text → Bool
has_windows_drive is_alpha (a ∷ b ∷ s) = is_alpha a && b == 58
has_windows_drive is_alpha _ = false

unfoldable pub parse : (ℕ → Bool) → Text → Result GlobError (List Text)
unfolding split has_windows_drive starts_with member
parse is_alpha raw =
    let normalized = map (λ c. if c == 92 then 47 else c) raw in
    let parts =
      select (λ part. not (is_empty part) && not (text_eq part (codes ".")))
        (split 47 normalized) in
    do
      raise_if (any (λ c. c == 0) raw || ltb max_glob_pattern_chars (length raw)) exceeds_limit
      raise_if (starts_with (codes "/") normalized || has_windows_drive is_alpha normalized)
          leaves_workspace
      raise_if (is_empty parts || member (codes "..") parts) leaves_workspace
      raise_if (ltb max_glob_pattern_segments (length parts)) exceeds_limit
      ok parts

-- `i in s` for a set of states.
unfoldable pub mem : ℕ → List ℕ → Bool
mem i [] = false
mem i (j ∷ s) = i == j || mem i s

-- `parts[i]`, or none where `i >= len(parts)`.
unfoldable pub part_at : List Text → ℕ → Option Text
part_at [] i = none
part_at (p ∷ ps) zero = some p
part_at (p ∷ ps) (suc i) = part_at ps i

abbrev pub is_double : Text → Bool
is_double p = text_eq p (codes "**")

abbrev pub is_hidden : Text → Bool
is_hidden name = starts_with (codes ".") name

unfoldable pub closure_step : Text → ℕ → List ℕ → List ℕ
unfolding mem
closure_step part index expanded =
    if mem index expanded && is_double part then suc index ∷ expanded else expanded

-- The loop of `_closure` over the parts from the index on.
unfoldable pub close : List Text → ℕ → List ℕ → List ℕ
unfolding closure_step
close [] index expanded = expanded
close (part ∷ ps) index expanded = close ps (suc index) (closure_step part index expanded)

unfoldable pub closure : List Text → List ℕ → List ℕ
unfolding close
closure parts states = close parts 0 states

unfoldable pub initial_states : List Text → List ℕ
unfolding closure
initial_states parts = closure parts (0 ∷ [])

unfoldable pub is_match : List Text → List ℕ → Bool
unfolding mem
is_match parts states = mem (length parts) states

unfoldable pub can_descend : List Text → List ℕ → Bool
can_descend parts states = any (λ i. ltb i (length parts)) states

module _ (fnmatchcase : Text → Text → Bool) where
  unfoldable pub segment_matches : Text → Text → Bool
  segment_matches name pattern =
      if is_hidden name && not (is_hidden pattern) then false else fnmatchcase name pattern

  -- One pass of the loop of `advance`, by the part at the index.
  unfoldable pub add_advanced : Text → Bool → ℕ → Option Text → List ℕ → List ℕ
  unfolding segment_matches
  add_advanced name prune i none rest = rest
  add_advanced name prune i (some part) rest =
      if is_double part && (not (is_hidden name) && not prune)
      then i ∷ rest
      else if not (is_double part) && segment_matches name part
      then suc i ∷ rest
      else rest

  unfoldable pub advanced : List Text → Text → Bool → List ℕ → List ℕ
  unfolding part_at add_advanced
  advanced parts name prune [] = []
  advanced parts name prune (i ∷ states) =
      add_advanced name prune i (part_at parts i) (advanced parts name prune states)

  unfoldable pub advance : List Text → List ℕ → Text → Bool → List ℕ
  unfolding advanced closure
  advance parts states name prune = closure parts (advanced parts name prune states)

  -- The states behind the names of a path, each with the flag that keeps `**` out of it.
  unfoldable pub run : List Text → List ℕ → List (Text × Bool) → List ℕ
  unfolding advance
  run parts states [] = states
  run parts states ((name, prune) ∷ names) = run parts (advance parts states name prune) names

abbrev pub pruned_directory_names : List Text
pruned_directory_names = codes "build" ∷ codes "node_modules" ∷ codes "__pycache__" ∷ []

abbrev pub max_reported_pruned_directories : ℕ
max_reported_pruned_directories = 5

-- Whether `**` is kept out of an entry.
unfoldable pub is_pruned : Text → Bool → Bool
unfolding member
is_pruned name is_dir = is_dir && member name pruned_directory_names

abbrev subset : List ℕ → List ℕ → Bool
subset s t = all (λ i. mem i t) s

pub record PrunedDirectories : Type 0 where
  pub paths : List (List Text)
  pub count : ℕ

-- `PrunedDirectories.advance`, with the path of the entry relative to the root.
unfoldable pub pruned_advance :
    (Text → Text → Bool)
    → List Text
    → List ℕ
    → Text
    → Bool
    → List Text
    → PrunedDirectories
    → List ℕ × PrunedDirectories
unfolding advance is_pruned mem
pruned_advance fnmatchcase parts states name is_dir path d =
    let plain = advance fnmatchcase parts states name false in
    let pruned = advance fnmatchcase parts states name true in
    if not (is_pruned name is_dir)
    then (plain, d)
    else if subset plain pruned && subset pruned plain
    then (pruned, d)
    else (
      pruned,
      record {
        count = d.count + 1;
        paths =
            if ltb (length d.paths) max_reported_pruned_directories
            then d.paths ++ (path ∷ [])
            else d.paths;
      },
    )
