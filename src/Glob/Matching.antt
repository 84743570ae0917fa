-- ===== src/Glob/Matching.antt =====
-- The automaton accepts what the pattern matches (src/deepseek_mcp/workspace_walk.py: `_GlobPattern`).
use deepseek_as_subagent.Prelude.{
  ℕ, suc, ◌≤◌, ◌≡◌, refl, sym, ap, ◌∙◌, ◌↔◌, inl, inr, Bool, true, false, ◌&&◌, some, List, [], ◌∷◌,
  arith, length, Bool-cases, and_inv, or_inv, if_true, if_false,
}
use deepseek_as_subagent.Text.{Text}
use deepseek_as_subagent.Glob.{
  mem, part_at, is_double, close, closure_step, closure, initial_states, is_match, segment_matches,
  advanced, advance, run,
}
use deepseek_as_subagent.Glob.States.{mem-closure_step_inv, mem_eq, mem-closure, closure-closed}
use deepseek_as_subagent.Glob.Reference.{
  passed, double, single, matches, from, part_at-cons, from-part_at, from-nil, from-length,
  double_zero, double_pass,
}
use deepseek_as_subagent.Glob.Advanced.{mem-nil, mem-cons, Leads, mem-advanced, advanced_inv}

module _ (fnmatchcase : Text → Text → Bool) where
  module _ (parts : List Text) where
    -- The set holds the state behind every part `**` that it holds.
    IsClosed : List ℕ → Type 0
    IsClosed s =
        (i : ℕ) (p : Text)
        → part_at parts i ≡ some p
        → is_double p ≡ true
        → mem i s ≡ true
        → mem (suc i) s ≡ true

    Accepted : List ℕ → List (Text × Bool) → Type 0
    Accepted s names = is_match parts (run fnmatchcase parts s names) ≡ true

    mem-advance :
        (name : Text) (prune : Bool) (s : List ℕ) (i j : ℕ) {p : Text}
        → part_at parts i ≡ some p
        → Leads fnmatchcase name prune p i j
        → mem i s ≡ true
        → mem j (advance fnmatchcase parts s name prune) ≡ true
    unfolding advance
    mem-advance name prune s i j e l m =
        mem-closure parts (advanced fnmatchcase parts name prune s) j
          (mem-advanced fnmatchcase parts name prune s i j e l m)

    advance-IsClosed :
        (name : Text) (prune : Bool) (s : List ℕ)
        → IsClosed (advance fnmatchcase parts s name prune)
    unfolding IsClosed advance
    advance-IsClosed name prune s i p e d m =
        closure-closed parts (advanced fnmatchcase parts name prune s) i e d m

    -- Behind `**`, given that what the rest matches is accepted.
    double-Accepted :
        (ps : List Text) (i : ℕ) {p : Text}
        → part_at parts i ≡ some p
        → is_double p ≡ true
        → ((names : List (Text × Bool)) (s : List ℕ)
            → IsClosed s
            → mem (suc i) s ≡ true
            → matches fnmatchcase ps names ≡ true
            → Accepted s names)
        → (names : List (Text × Bool)) (s : List ℕ) → IsClosed s
        → mem i s ≡ true
        → double (λ ns. matches fnmatchcase ps ns) names ≡ true
        → Accepted s names
    unfolding double IsClosed Accepted run Leads
    double-Accepted ps i {p} e d k [] s c m h = k [] s c (c i p e d m) h
    double-Accepted ps i {p} e d k ((name, prune) ∷ names) s c m h =
        elim (Bool-cases (matches fnmatchcase ps ((name, prune) ∷ names))) [
          | inl a ↦ k ((name, prune) ∷ names) s c (c i p e d m) a
          | inr a ↦
              let (b, f) =
                and_inv (passed name prune) (double (λ ns. matches fnmatchcase ps ns) names)
                  (or_inv _ _ a h) in
              double-Accepted ps i e d k names (advance fnmatchcase parts s name prune)
                (advance-IsClosed name prune s)
                (mem-advance name prune s i i e (inl (d, b, refl)) m) f
        ]

    single-Accepted :
        (ps : List Text) (i : ℕ) {p : Text}
        → part_at parts i ≡ some p
        → is_double p ≡ false
        → ((names : List (Text × Bool)) (s : List ℕ)
            → IsClosed s
            → mem (suc i) s ≡ true
            → matches fnmatchcase ps names ≡ true
            → Accepted s names)
        → (names : List (Text × Bool)) (s : List ℕ) → mem i s ≡ true
        → single fnmatchcase p (λ ns. matches fnmatchcase ps ns) names ≡ true
        → Accepted s names
    unfolding single Accepted run Leads
    single-Accepted ps i e d k [] s m h = absurd (cc)
    single-Accepted ps i {p} e d k ((name, prune) ∷ names) s m h =
        let (a, b) =
          and_inv (segment_matches fnmatchcase name p) (matches fnmatchcase ps names) h in
        k names (advance fnmatchcase parts s name prune) (advance-IsClosed name prune s)
          (mem-advance name prune s i (suc i) e (inr (d, a, refl)) m) b

    matches-Accepted :
        (ps : List Text) (i : ℕ) (names : List (Text × Bool)) (s : List ℕ)
        → from i parts ≡ ps
        → i ≤ length parts
        → IsClosed s
        → mem i s ≡ true
        → matches fnmatchcase ps names ≡ true
        → Accepted s names
    unfolding matches Accepted run is_match
    matches-Accepted [] i [] s e l c m h = mem_eq s i (length parts) (from-nil parts i e l) m
    matches-Accepted [] i (n ∷ names) s e l c m h = absurd (cc)
    matches-Accepted (p ∷ ps) i names s e l c m h =
        let (a, b, below) = part_at-cons parts i e in
        let next =
          λ (ns : List (Text × Bool)) (t : List ℕ) (ct : IsClosed t) (mt : mem (suc i) t ≡ true)
              (ht : matches fnmatchcase ps ns ≡ true).
            matches-Accepted ps (suc i) ns t b below ct mt ht in
        elim (Bool-cases (is_double p)) [
          | inl d ↦ double-Accepted ps i a d next names s c m (sym (if_true _ _ d) ∙ h)
          | inr d ↦ single-Accepted ps i a d next names s m (sym (if_false _ _ d) ∙ h)
        ]

    matches-stay :
        (qs : List Text) (p : Text) (ps : List Text) (names : List (Text × Bool))
        → qs ≡ p ∷ ps
        → is_double p ≡ true
        → matches fnmatchcase ps names ≡ true
        → matches fnmatchcase qs names ≡ true
    unfolding matches
    matches-stay qs p ps names e d h =
        ap (λ t. matches fnmatchcase t names) e
        ∙ (if_true _ _ d ∙ double_zero (λ ns. matches fnmatchcase ps ns) names h)

    matches-Leads :
        (name : Text) (prune : Bool) (p : Text) (i k : ℕ) (names : List (Text × Bool))
        → from i parts ≡ p ∷ from (suc i) parts
        → Leads fnmatchcase name prune p i k
        → matches fnmatchcase (from k parts) names ≡ true
        → matches fnmatchcase (from i parts) ((name, prune) ∷ names) ≡ true
    unfolding matches double single Leads
    matches-Leads name prune p i k names e (inl (d, a, f)) h =
        let rest = λ (ns : List (Text × Bool)). matches fnmatchcase (from (suc i) parts) ns in
        ap (λ t. matches fnmatchcase t ((name, prune) ∷ names)) e
        ∙ (if_true _ _ d
            ∙ double_pass rest name prune names a (
                sym (if_true _ _ d)
                ∙ (ap (λ t. matches fnmatchcase t names) (sym e ∙ ap (λ j. from j parts) (sym f))
                    ∙ h)))
    matches-Leads name prune p i k names e (inr (d, a, f)) h =
        ap (λ t. matches fnmatchcase t ((name, prune) ∷ names)) e
        ∙ (if_false _ _ d
            ∙ (ap (λ b. b && matches fnmatchcase (from (suc i) parts) names) a
                ∙ (ap (λ j. matches fnmatchcase (from j parts) names) (sym f) ∙ h)))

    -- Backwards through the loop of the closure.
    close-matches :
        (ps : List Text) (index : ℕ) (s : List ℕ) (names : List (Text × Bool)) (j : ℕ)
        → from index parts ≡ ps
        → mem j (close ps index s) ≡ true
        → matches fnmatchcase (from j parts) names ≡ true
        → (k : ℕ) × (mem k s ≡ true) × (matches fnmatchcase (from k parts) names ≡ true)
    unfolding close
    close-matches [] index s names j e m h = (j, m, h)
    close-matches (p ∷ ps) index s names j e m h =
        let (a, b, below) = part_at-cons parts index e in
        let (k, n, g) = close-matches ps (suc index) (closure_step p index s) names j b m h in
        elim (mem-closure_step_inv p index s k n) [
          | inl q ↦ (k, q, g)
          | inr (f, q, d) ↦ (
            index,
            q,
            matches-stay (from index parts) p ps names e d
                (ap (λ t. matches fnmatchcase t names) (sym (ap (λ i. from i parts) f ∙ b)) ∙ g),
          )
        ]

    Accepted-matches :
        (names : List (Text × Bool)) (s : List ℕ)
        → Accepted s names
        → (i : ℕ) × (mem i s ≡ true) × (matches fnmatchcase (from i parts) names ≡ true)
    unfolding Accepted run is_match matches advance closure
    Accepted-matches [] s h = (length parts, h, rw (from-length parts) refl)
    Accepted-matches ((name, prune) ∷ names) s h =
        let (j, m, g) = Accepted-matches names (advance fnmatchcase parts s name prune) h in
        let (k, n, f) =
          close-matches parts 0 (advanced fnmatchcase parts name prune s) names j refl m g in
        let (i, p, q, e, l) = advanced_inv fnmatchcase parts name prune s k n in
        (i, q, matches-Leads name prune p i k names (from-part_at parts i e) l f)

-- The automaton accepts the names of a path, each with the flag that keeps `**` out of it, exactly if the
-- pattern, read as a recursion on its parts, matches them.
pub run_iff :
    (fnmatchcase : Text → Text → Bool) (parts : List Text) (names : List (Text × Bool))
    → (is_match parts (run fnmatchcase parts (initial_states parts) names) ≡ true)
      ↔ (matches fnmatchcase parts names ≡ true)
unfolding Accepted IsClosed initial_states
run_iff fnmatchcase parts names = (
  λ h.
      let (j, m, g) = Accepted-matches fnmatchcase parts names (initial_states parts) h in
      let (k, n, f) = close-matches fnmatchcase parts parts 0 (0 ∷ []) names j refl m g in
      elim (mem-cons k 0 [] n) [
        | inl e ↦ ap (λ i. matches fnmatchcase (from i parts) names) (sym e) ∙ f
        | inr q ↦ absurd (mem-nil k q)
      ],
  λ h.
      matches-Accepted fnmatchcase parts parts 0 names (initial_states parts) refl (omega arith)
        (λ i p e d m. closure-closed parts (0 ∷ []) i e d m) (mem-closure parts (0 ∷ []) 0 refl) h,
)
