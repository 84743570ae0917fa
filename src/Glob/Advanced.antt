-- ===== src/Glob/Advanced.antt =====
-- Where a name leads from a set of states (src/deepseek_mcp/workspace_walk.py: `advance`).
use deepseek_as_subagent.Prelude.{
  ℕ, suc, ◌≡◌, refl, ◌⊎◌, inl, inr, Bool, true, false, not, ◌&&◌, Option, none, some, List, [], ◌∷◌,
  arith, if◌then◌else◌, if_cases, and_inv, not_inv,
}
use deepseek_as_subagent.Text.{Text}
use deepseek_as_subagent.Glob.{
  mem, part_at, is_double, is_hidden, segment_matches, add_advanced, advanced,
}
use deepseek_as_subagent.Glob.Reference.{passed}

pub mem-cons : (i j : ℕ) (s : List ℕ) → mem i (j ∷ s) ≡ true → (i ≡ j) ⊎ (mem i s ≡ true)
unfolding mem
mem-cons i j s h = ground arith

pub mem-nil : (i : ℕ) → ¬ (mem i [] ≡ true)
unfolding mem
mem-nil i h = cc

mem-head : (i j : ℕ) (s : List ℕ) → i ≡ j → mem i (j ∷ s) ≡ true
unfolding mem
mem-head i j s h = ground arith

mem-tail : (i j : ℕ) (s : List ℕ) → mem i s ≡ true → mem i (j ∷ s) ≡ true
unfolding mem
mem-tail i j s h = ground (arith, h)

module _ (fnmatchcase : Text → Text → Bool) where
  mem-add_advanced :
      (name : Text) (prune : Bool) (i : ℕ) (o : Option Text) (rest : List ℕ) (j : ℕ)
      → mem j rest ≡ true
      → mem j (add_advanced fnmatchcase name prune i o rest) ≡ true
  unfolding add_advanced mem
  mem-add_advanced name prune i none rest j h = h
  mem-add_advanced name prune i (some p) rest j h =
      if_cases (λ s. mem j s ≡ true) (is_double p && (not (is_hidden name) && not prune)) (i ∷ rest)
        (if not (is_double p) && segment_matches fnmatchcase name p then suc i ∷ rest else rest)
        (λ e. ground (arith, h))
        (λ e.
          if_cases (λ s. mem j s ≡ true) (not (is_double p) && segment_matches fnmatchcase name p)
            (suc i ∷ rest) rest (λ f. ground (arith, h)) (λ f. h))

  -- How a name leads from one state to another.
  unfoldable pub Leads : Text → Bool → Text → ℕ → ℕ → Type 0
  Leads name prune p i j =
      ((is_double p ≡ true) × (passed name prune ≡ true) × (j ≡ i))
      ⊎ ((is_double p ≡ false) × (segment_matches fnmatchcase name p ≡ true) × (j ≡ suc i))

  mem-Leads :
      (name : Text) (prune : Bool) (p : Text) (i j : ℕ) (rest : List ℕ)
      → Leads name prune p i j
      → mem j (add_advanced fnmatchcase name prune i (some p) rest) ≡ true
  unfolding add_advanced mem Leads
  mem-Leads name prune p i j rest (inl (d, h, e)) = rw d (rw h (mem-head j i rest e))
  mem-Leads name prune p i j rest (inr (d, h, e)) = rw d (rw h (mem-head j (suc i) rest e))

  add_advanced_inv :
      (name : Text) (prune : Bool) (i : ℕ) (o : Option Text) (rest : List ℕ) (j : ℕ)
      → mem j (add_advanced fnmatchcase name prune i o rest) ≡ true
      → (mem j rest ≡ true) ⊎ ((p : Text) × (o ≡ some p) × Leads name prune p i j)
  unfolding add_advanced Leads
  add_advanced_inv name prune i none rest j h = inl h
  add_advanced_inv name prune i (some p) rest j h =
      if_cases
        (λ s.
          mem j s ≡ true
          → (mem j rest ≡ true) ⊎ ((q : Text) × (some p ≡ some q) × Leads name prune q i j))
        (is_double p && (not (is_hidden name) && not prune)) (i ∷ rest)
        (if not (is_double p) && segment_matches fnmatchcase name p then suc i ∷ rest else rest)
        (λ e m. elim (mem-cons j i rest m) [
          | inl f ↦ inr (p, refl, inl (let (a, b) = and_inv _ _ e in (a, b, f)))
          | inr n ↦ inl n
        ])
        (λ d.
          if_cases
            (λ s.
              mem j s ≡ true
              → (mem j rest ≡ true) ⊎ ((q : Text) × (some p ≡ some q) × Leads name prune q i j))
            (not (is_double p) && segment_matches fnmatchcase name p) (suc i ∷ rest) rest
            (λ e m. elim (mem-cons j (suc i) rest m) [
              | inl f ↦ inr (p, refl, inr (let (a, b) = and_inv _ _ e in (not_inv _ a, b, f)))
              | inr n ↦ inl n
            ])
            (λ e m. inl m))
        h

  module _ (parts : List Text) where
    pub mem-advanced :
        (name : Text) (prune : Bool) (s : List ℕ) (i j : ℕ) {p : Text}
        → part_at parts i ≡ some p
        → Leads name prune p i j
        → mem i s ≡ true
        → mem j (advanced fnmatchcase parts name prune s) ≡ true
    unfolding advanced mem
    mem-advanced name prune [] i j e l m = absurd (cc)
    mem-advanced name prune (k ∷ s) i j {p} e l m = elim (mem-cons i k s m) [
      | inr n ↦
          mem-add_advanced name prune k (part_at parts k) (advanced fnmatchcase parts name prune s)
            j (mem-advanced name prune s i j e l n)
      | inl f ↦
          rw (← f) (rw e (mem-Leads name prune p i j (advanced fnmatchcase parts name prune s) l))
    ]

    pub advanced_inv :
        (name : Text) (prune : Bool) (s : List ℕ) (j : ℕ)
        → mem j (advanced fnmatchcase parts name prune s) ≡ true
        → (i : ℕ) × (p : Text) × (mem i s ≡ true)
          × (part_at parts i ≡ some p)
          × Leads name prune p i j
    unfolding advanced mem
    advanced_inv name prune [] j m = absurd (cc)
    advanced_inv name prune (k ∷ s) j m =
        elim (add_advanced_inv name prune k (part_at parts k)
          (advanced fnmatchcase parts name prune s) j m) [
            | inl n ↦
                let (i, p, a, b, c) = advanced_inv name prune s j n in
                (i, p, mem-tail i k s a, b, c)
            | inr (p, e, l) ↦ (k, p, mem-head k k s refl, e, l)
          ]
