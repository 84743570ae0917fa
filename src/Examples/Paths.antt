-- ===== src/Examples/Paths.antt =====
-- The workspace boundary at concrete paths (src/deepseek_mcp/safety.py), with case folding that folds
-- nothing and a resolution of one path.
use deepseek_as_subagent.Prelude.{
  ℕ, ◌==◌, any, ◌≡◌, refl, true, false, Option, some, List, [], ◌∷◌, ◌++◌, is_empty,
}
use deepseek_as_subagent.Prelude.Results.{ok}
use deepseek_as_subagent.Text.{Text, codes, member, text_eq}
use deepseek_as_subagent.Safety.Paths.{
  is_protected, resolve_safe_path, last_name, agent_control_file_names, is_within,
  is_vcs_control_name,
}
use deepseek_as_subagent.Safety.Paths.Boundary.{
  is_protected_directory, is_protected-below, resolve_safe_path_lem,
}

abbrev fold : Text → Text
fold t = t

abbrev home : List Text
home = codes "h" ∷ []

abbrev keys : List Text
keys = codes "h" ∷ (codes ".ssh" ∷ [])

keys_protected : is_protected fold home keys ≡ true
unfolding is_protected is_within
keys_protected = refl

keys_plain : member (fold (last_name keys)) agent_control_file_names ≡ false
unfolding member last_name text_eq
keys_plain = refl

is_protected-below_example : is_protected fold home (keys ++ codes "id" ∷ []) ≡ true
is_protected-below_example =
    is_protected-below fold home keys (codes "id" ∷ []) keys_protected keys_plain

abbrev workspace : List Text
workspace = codes "h" ∷ (codes "w" ∷ [])

abbrev source_file : List Text
source_file = codes "h" ∷ (codes "w" ∷ (codes "a.py" ∷ []))

abbrev resolve : Text → Option (List Text)
resolve path = some source_file

source_allowed :
    resolve_safe_path fold resolve (some home) (some workspace) (codes "a.py") ≡ ok source_file
unfolding resolve_safe_path is_vcs_control_name
source_allowed = refl

resolve_safe_path_lem_example :
    ((d : List Text) × (source_file ≡ workspace ++ d))
    × (resolve (codes "a.py") ≡ some source_file)
    × (is_protected_directory fold home source_file ≡ false)
    × (member (fold (last_name source_file)) agent_control_file_names ≡ false)
    × (is_empty (codes "a.py") ≡ false)
    × (any (λ (ch : ℕ). ch == 0) (codes "a.py") ≡ false)
resolve_safe_path_lem_example =
    resolve_safe_path_lem fold resolve home workspace (codes "a.py") source_allowed
