-- ===== src/Glob/States.antt =====
-- The closure of the states of a glob pattern (src/deepseek_mcp/workspace_walk.py: `_closure`).
use deepseek_as_subagent.Prelude.{
  ℕ, zero, suc, ◌+◌, ◌<◌, ◌≡◌, sym, ap, ◌∙◌, ◌⊎◌, inl, inr, true, some, List, [], ◌∷◌, arith,
}
use deepseek_as_subagent.Text.{Text}
use deepseek_as_subagent.Glob.{mem, part_at, is_double, closure_step, close, closure}

mem-closure_step :
    (p : Text) (index : ℕ) (s : List ℕ) (j : ℕ)
    → mem j s ≡ true
    → mem j (closure_step p index s) ≡ true
unfolding closure_step mem
mem-closure_step p index s j h = ground arith

pub mem-closure_step_inv :
    (p : Text) (index : ℕ) (s : List ℕ) (j : ℕ)
    → mem j (closure_step p index s) ≡ true
    → (mem j s ≡ true) ⊎ ((j ≡ suc index) × (mem index s ≡ true) × (is_double p ≡ true))
unfolding closure_step mem
mem-closure_step_inv p index s j h = ground arith

-- Nothing that is in the set leaves it.
pub mem-close :
    (ps : List Text) (index : ℕ) (s : List ℕ) (j : ℕ)
    → mem j s ≡ true
    → mem j (close ps index s) ≡ true
unfolding close
mem-close [] index s j h = h
mem-close (p ∷ ps) index s j h =
    mem-close ps (suc index) (closure_step p index s) j (mem-closure_step p index s j h)

close_inv :
    (ps : List Text) (index : ℕ) (s : List ℕ) (j : ℕ)
    → mem j (close ps index s) ≡ true
    → (mem j s ≡ true) ⊎ (index < j)
unfolding close
close_inv [] index s j h = inl h
close_inv (p ∷ ps) index s j h = elim (close_inv ps (suc index) (closure_step p index s) j h) [
  | inr l ↦ inr (omega arith)
  | inl m ↦ elim (mem-closure_step_inv p index s j m) [
    | inl n ↦ inl n
    | inr (e, m, d) ↦ inr (omega arith)
  ]
]

pub mem_eq : (s : List ℕ) (i j : ℕ) → i ≡ j → mem i s ≡ true → mem j s ≡ true
mem_eq s i j e h = ap (λ k. mem k s) (sym e) ∙ h

closure_step-adds :
    (p : Text) (index : ℕ) (s : List ℕ)
    → is_double p ≡ true
    → mem index s ≡ true
    → mem (suc index) (closure_step p index s) ≡ true
unfolding closure_step mem
closure_step-adds p index s d m = ground arith

close-next :
    (p : Text) (ps : List Text) (index : ℕ) (s : List ℕ)
    → is_double p ≡ true
    → mem index (close ps (suc index) (closure_step p index s)) ≡ true
    → mem (suc index) (close ps (suc index) (closure_step p index s)) ≡ true
close-next p ps index s d h = mem-close ps (suc index) (closure_step p index s) (suc index) (
    closure_step-adds p index s d
      (elim (close_inv ps (suc index) (closure_step p index s) index h) [
        | inr l ↦ absurd (omega arith)
        | inl m ↦ elim (mem-closure_step_inv p index s index m) [ inl n ↦ n | inr (e, n, b) ↦ n ]
      ]))

-- Behind a part `**` that the set has reached, the set has the next part too.
close-closed :
    (ps : List Text) (index : ℕ) (s : List ℕ) (d : ℕ) {p : Text}
    → part_at ps d ≡ some p
    → is_double p ≡ true
    → mem (index + d) (close ps index s) ≡ true
    → mem (suc (index + d)) (close ps index s) ≡ true
unfolding close part_at
close-closed [] index s d e h m = absurd (cc)
close-closed (q ∷ ps) index s zero {p} e h m =
    let f : q ≡ p = cc in
    let r = close ps (suc index) (closure_step q index s) in
    mem_eq r (suc index) (suc (index + 0)) (omega arith)
      (close-next q ps index s (ap is_double f ∙ h) (mem_eq r (index + 0) index (omega arith) m))
close-closed (q ∷ ps) index s (suc d) e h m =
    let r = close ps (suc index) (closure_step q index s) in
    mem_eq r (suc (suc index + d)) (suc (index + suc d)) (omega arith) (
      close-closed ps (suc index) (closure_step q index s) d e h
        (mem_eq r (index + suc d) (suc index + d) (omega arith) m))

pub closure-closed :
    (parts : List Text) (s : List ℕ) (i : ℕ) {p : Text}
    → part_at parts i ≡ some p
    → is_double p ≡ true
    → mem i (closure parts s) ≡ true
    → mem (suc i) (closure parts s) ≡ true
unfolding closure
closure-closed parts s i e d m =
    let r = close parts 0 s in
    mem_eq r (suc (0 + i)) (suc i) (omega arith)
      (close-closed parts 0 s i e d (mem_eq r i (0 + i) (omega arith) m))

pub mem-closure :
    (parts : List Text) (s : List ℕ) (i : ℕ) → mem i s ≡ true → mem i (closure parts s) ≡ true
unfolding closure
mem-closure parts s i m = mem-close parts 0 s i m
