-- ===== src/Safety/Paths/Boundary.antt =====
-- What the workspace boundary promises: src/deepseek_mcp/safety.py.
use deepseek_as_subagent.Prelude.{
  ℕ, ◌==◌, ◌≡◌, refl, ap, ◌∙◌, Bool, true, false, ◌||◌, Option, some, List, [], ◌∷◌, ◌++◌, arith,
  any, is_empty, Option-cases, inl, inr,
}
use deepseek_as_subagent.Prelude.Results.{ok}
use deepseek_as_subagent.Text.{Text, text_eq_iff, member}
use deepseek_as_subagent.Safety.Paths.{
  sensitive_home_paths, is_within, last_name, is_control_component, is_protected,
  is_protected_host_path, resolve_safe_path, resolved, agent_control_file_names,
}

is_within-append : (p c d : List Text) → is_within p c ≡ true → is_within p (c ++ d) ≡ true
unfolding is_within
is_within-append [] c d h = refl
is_within-append (x ∷ p) [] d h = cc
is_within-append (x ∷ p) (y ∷ c) d h = ground (arith, is_within-append p c d)

-- A path is within another exactly if it continues it.
pub is_within_iff : (p c : List Text) → is_within p c ≡ true → (d : List Text) × (c ≡ p ++ d)
unfolding is_within
is_within_iff [] c h = (c, refl)
is_within_iff (x ∷ p) [] h = cc
is_within_iff (x ∷ p) (y ∷ c) h =
    let (d, e) = is_within_iff p c (ground arith) in (d, ground (arith, text_eq_iff x y, e))

any-append {ℓ} :
    {A : Type ℓ} (f : A → Bool) (xs ys : List A) → any f xs ≡ true → any f (xs ++ ys) ≡ true
any-append f [] ys h = cc
any-append f (x ∷ xs) ys h = ground (arith, any-append f xs ys)

any_mono {ℓ} :
    {A : Type ℓ} (f g : A → Bool) (xs : List A)
    → ((x : A) → f x ≡ true → g x ≡ true)
    → any f xs ≡ true
    → any g xs ≡ true
any_mono f g [] m h = cc
any_mono f g (x ∷ xs) m h = ground (arith, m x, any_mono f g xs m)

module _ (casefold : Text → Text) where
  -- What makes a directory protected with everything below it: it is in a sensitive directory of the
  -- home, or one of its components is a control directory.
  abbrev pub is_protected_directory : List Text → List Text → Bool
  is_protected_directory home path =
      any (λ (parts : List Text). is_within (home ++ parts) path) sensitive_home_paths
      || any (is_control_component casefold) path

  -- Everything below a protected path is protected, if the path's own name is not that of a control
  -- file.
  pub is_protected-below :
      (home path below : List Text)
      → is_protected casefold home path ≡ true
      → member (casefold (last_name path)) agent_control_file_names ≡ false
      → is_protected casefold home (path ++ below) ≡ true
  unfolding is_protected
  is_protected-below home path below h name =
      let sensitive =
        any_mono (λ (parts : List Text). is_within (home ++ parts) path)
          (λ (parts : List Text). is_within (home ++ parts) (path ++ below)) sensitive_home_paths
          (λ parts e. is_within-append (home ++ parts) path below e) in
      let control = any-append (is_control_component casefold) path below in ground arith

  inside_lem :
      (home workspace q : List Text) {p : List Text}
      → resolved casefold (some home) (some workspace) (some q) ≡ ok p
      → (q ≡ p)
        × (is_within workspace p ≡ true)
        × (is_protected_directory home p ≡ false)
        × (member (casefold (last_name p)) agent_control_file_names ≡ false)
  unfolding resolved is_protected_host_path
  inside_lem home workspace q {p} h =
      let same : q ≡ p = ground arith in (same, ground arith, ground arith, ground arith)

  -- A path that the file tools may use lies in the workspace and is not protected: it is in no
  -- sensitive directory of the home, no component of it is a control directory, and its name is not
  -- that of a control file. The path given is not empty and has no null byte.
  pub resolve_safe_path_lem :
      (resolve : Text → Option (List Text)) (home workspace : List Text) (path : Text)
      {p : List Text}
      → resolve_safe_path casefold resolve (some home) (some workspace) path ≡ ok p
      → ((d : List Text) × (p ≡ workspace ++ d))
        × (resolve path ≡ some p)
        × (is_protected_directory home p ≡ false)
        × (member (casefold (last_name p)) agent_control_file_names ≡ false)
        × (is_empty path ≡ false)
        × (any (λ (ch : ℕ). ch == 0) path ≡ false)
  unfolding resolve_safe_path
  resolve_safe_path_lem resolve home workspace path {p} h = elim (Option-cases (resolve path)) [
    | inl e ↦ absurd (ground arith)
    | inr (q, e) ↦
        let checks : resolved casefold (some home) (some workspace) (some q) ≡ ok p =
          ground arith in
        let (same, inside', free, name) = inside_lem home workspace q checks in
        (
          is_within_iff workspace p inside',
          e ∙ ap some same,
          free,
          name,
          ground arith,
          ground arith,
        )
  ]
