-- ===== src/Glob/Reference.antt =====
-- What a glob pattern matches, as a recursion on its parts (src/deepseek_mcp/workspace_walk.py:
-- `_GlobPattern`), and the parts from an index on.
use deepseek_as_subagent.Prelude.{
  ℕ, zero, suc, ◌≤◌, ◌≡◌, refl, ap, Bool, true, false, not, ◌&&◌, ◌||◌, some, List, [], ◌∷◌, arith,
  if◌then◌else◌, length, is_empty,
}
use deepseek_as_subagent.Text.{Text}
use deepseek_as_subagent.Glob.{part_at, is_double, is_hidden, segment_matches}

-- Names that `**` may pass over.
abbrev pub passed : Text → Bool → Bool
passed name prune = not (is_hidden name) && not prune

-- `**` in front of what `rest` matches: any number of names that it may pass over.
unfoldable pub double : (List (Text × Bool) → Bool) → List (Text × Bool) → Bool
double rest [] = rest []
double rest ((name, prune) ∷ names) =
    rest ((name, prune) ∷ names) || (passed name prune && double rest names)

module _ (fnmatchcase : Text → Text → Bool) where
  unfoldable pub single : Text → (List (Text × Bool) → Bool) → List (Text × Bool) → Bool
  single part rest [] = false
  single part rest ((name, prune) ∷ names) = segment_matches fnmatchcase name part && rest names

  -- The pattern as a recursion on its parts: `**` stands for any number of names that it may pass over,
  -- any other part for one name.
  unfoldable pub matches : List Text → List (Text × Bool) → Bool
  unfolding double single
  matches [] names = is_empty names
  matches (part ∷ parts) names =
      if is_double part
      then double (λ ns. matches parts ns) names
      else single part (λ ns. matches parts ns) names

-- The parts from the index on.
abbrev pub from : ℕ → List Text → List Text
from zero ps = ps
from (suc i) [] = []
from (suc i) (p ∷ ps) = from i ps

pub part_at-cons :
    (parts : List Text) (i : ℕ) {p : Text} {ps : List Text}
    → from i parts ≡ p ∷ ps
    → (part_at parts i ≡ some p) × (from (suc i) parts ≡ ps) × (suc i ≤ length parts)
unfolding part_at
part_at-cons [] zero e = absurd (cc)
part_at-cons [] (suc i) e = absurd (cc)
part_at-cons (q ∷ qs) zero e = (cc, cc, omega arith)
part_at-cons (q ∷ qs) (suc i) e = let (a, b, c) = part_at-cons qs i e in (a, b, omega arith)

pub from-part_at :
    (parts : List Text) (i : ℕ) {p : Text}
    → part_at parts i ≡ some p
    → from i parts ≡ p ∷ from (suc i) parts
unfolding part_at
from-part_at [] i e = absurd (cc)
from-part_at (q ∷ qs) zero {p} e = let f : q ≡ p = cc in ap (λ (t : Text). t ∷ qs) f
from-part_at (q ∷ qs) (suc i) e = from-part_at qs i e

pub from-nil : (parts : List Text) (i : ℕ) → from i parts ≡ [] → i ≤ length parts → i ≡ length parts
from-nil [] i e h = omega arith
from-nil (q ∷ qs) zero e h = absurd (cc)
from-nil (q ∷ qs) (suc i) e h = omega (arith, from-nil qs i e (omega arith))

pub from-length : (parts : List Text) → from (length parts) parts ≡ []
from-length [] = refl
from-length (p ∷ ps) = from-length ps

pub double_zero :
    (rest : List (Text × Bool) → Bool) (names : List (Text × Bool))
    → rest names ≡ true
    → double rest names ≡ true
unfolding double
double_zero rest [] h = h
double_zero rest ((name, prune) ∷ names) h = ground arith

pub double_pass :
    (rest : List (Text × Bool) → Bool) (name : Text) (prune : Bool) (names : List (Text × Bool))
    → passed name prune ≡ true
    → double rest names ≡ true
    → double rest ((name, prune) ∷ names) ≡ true
unfolding double
double_pass rest name prune names a h = ground (arith, a, h)
