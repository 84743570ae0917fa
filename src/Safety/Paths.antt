-- ===== src/Safety/Paths.antt =====
-- src/deepseek_mcp/safety.py: protected names and paths, and `resolve_safe_path`.
pub mod Boundary
use deepseek_as_subagent.Prelude.{
  ℕ, Bool, true, false, not, ◌&&◌, ◌||◌, Option, none, some, List, [], ◌∷◌, ◌++◌, if◌then◌else◌,
  any, is_empty, ◌==◌, length,
}
use deepseek_as_subagent.Prelude.Results.{Result, ok, err, ◌>>=◌, ◌>>◌, raise_if}
use deepseek_as_subagent.Text.{Text, codes, text_eq, member}

abbrev pub vcs_directory_names : List Text
vcs_directory_names = codes ".git" ∷ codes ".hg" ∷ codes ".svn" ∷ []

abbrev pub agent_control_directory_names : List Text
agent_control_directory_names =
    codes ".agents" ∷ codes ".claude" ∷ codes ".codex" ∷ codes ".deepseek-mcp" ∷ []

abbrev pub agent_control_file_names : List Text
agent_control_file_names =
    codes ".mcp.json" ∷ codes "agents.md" ∷ codes "claude.md" ∷ codes "codex.md" ∷ []

abbrev pub sensitive_home_paths : List (List Text)
sensitive_home_paths =
    (codes ".aws" ∷ [])
    ∷ (codes ".azure" ∷ [])
    ∷ (codes ".gnupg" ∷ [])
    ∷ (codes ".kube" ∷ [])
    ∷ (codes ".ssh" ∷ [])
    ∷ (codes ".config" ∷ codes "gcloud" ∷ [])
    ∷ (codes "Library" ∷ codes "Keychains" ∷ [])
    ∷ []

-- `candidate == path or path in candidate.parents`, the arguments in the order of the prefix.
unfoldable pub is_within : List Text → List Text → Bool
unfolding text_eq
is_within [] candidate = true
is_within (p ∷ ps) [] = false
is_within (p ∷ ps) (c ∷ cs) = text_eq p c && is_within ps cs

-- `candidate.name`, which is empty at a root.
unfoldable pub last_name : List Text → Text
last_name [] = []
last_name (c ∷ []) = c
last_name (c ∷ d ∷ cs) = last_name (d ∷ cs)

pub data SandboxViolation : Type 0 where
  empty_path null_byte unresolvable outside_workspace protected : SandboxViolation

module _ (casefold : Text → Text) where
  unfoldable pub is_vcs_control_name : Text → Bool
  unfolding member
  is_vcs_control_name name = member (casefold name) vcs_directory_names

  unfoldable pub is_agent_control_name : Text → Bool
  unfolding member
  is_agent_control_name name =
      member (casefold name) agent_control_directory_names
      || member (casefold name) agent_control_file_names

  abbrev pub is_control_component : Text → Bool
  is_control_component part =
      is_vcs_control_name part || member (casefold part) agent_control_directory_names

  -- The checks on a path and a home that could be resolved.
  unfoldable pub is_protected : List Text → List Text → Bool
  unfolding is_within last_name member
  is_protected home candidate =
      any (λ (parts : List Text). is_within (home ++ parts) candidate) sensitive_home_paths
      || (any is_control_component candidate
          || member (casefold (last_name candidate)) agent_control_file_names)

  -- `none` for what does not resolve, which counts as protected.
  unfoldable pub is_protected_host_path : Option (List Text) → Option (List Text) → Bool
  unfolding is_protected
  is_protected_host_path (some home) (some candidate) = is_protected home candidate
  is_protected_host_path _ _ = true

  unfoldable pub is_unsafe_workspace_root : Option (List Text) → Option (List Text) → Bool
  unfolding is_protected is_within
  is_unsafe_workspace_root (some home) (some candidate) =
      is_empty candidate || (is_within candidate home || is_protected home candidate)
  is_unsafe_workspace_root _ _ = true

  unfoldable inside :
      Option (List Text) → List Text → List Text → Result SandboxViolation (List Text)
  unfolding is_within is_protected_host_path
  inside home workspace path = do
    raise_if (not (is_within workspace path)) outside_workspace
    raise_if (is_protected_host_path home (some path)) protected
    ok path

  unfoldable pub resolved :
      Option (List Text)
      → Option (List Text)
      → Option (List Text)
      → Result SandboxViolation (List Text)
  unfolding inside
  resolved home (some workspace) (some path) = inside home workspace path
  resolved home _ _ = err unresolvable

  -- `resolve` expands the home, joins a relative path to the workspace and resolves the outcome.
  unfoldable pub resolve_safe_path :
      (Text → Option (List Text))
      → Option (List Text)
      → Option (List Text)
      → Text
      → Result SandboxViolation (List Text)
  unfolding resolved
  resolve_safe_path resolve home workspace path = do
    raise_if (is_empty path) empty_path
    raise_if (any (λ (ch : ℕ). ch == 0) path) null_byte
    resolved home workspace (resolve path)
