-- ===== src/Agent/Triples.antt =====
-- What an action of a run ensures: of the state that it returns with, and of the one it raises with.
use deepseek_as_subagent.Prelude.{◌≡◌, refl, Bool, true, false, if◌then◌else◌}
use deepseek_as_subagent.Prelude.Results.{Result, ok, err}
use deepseek_as_subagent.Prelude.Exec.{Exec, pure, raise, continue, ◌>>=◌, raise_if}
use deepseek_as_subagent.Agent.Errors.{AgentError}
use deepseek_as_subagent.Agent.State.{AgentState}
use deepseek_as_subagent.Agent.Turn.{Run, Act, in_world, in_state, check, update}

module _ {W A : Type 0} where
  abbrev pub Post :
      (A → AgentState → Type 0) → (AgentState → Type 0) → Result AgentError A × Run W → Type 0
  Post Q E (ok a, t) = Q a t.state
  Post Q E (err e, t) = E t.state

  -- From a state with `P` the action returns a value and a state with `Q`, or raises with `E`.
  pub record Triple (P : AgentState → Type 0) (m : Act W A) (Q : A → AgentState → Type 0)
      (E : AgentState → Type 0) : Type 0 where
    pub at : (r : Run W) → P r.state → Post Q E (m r)

  pub Triple-pure :
      {Q : A → AgentState → Type 0} {E : AgentState → Type 0} (a : A) → Triple (Q a) (pure a) Q E
  Triple-pure a = record { at = λ r p. p }

  pub Triple-raise :
      {E : AgentState → Type 0} (Q : A → AgentState → Type 0) (e : AgentError)
      → Triple E (raise e) Q E
  Triple-raise Q e = record { at = λ r p. p }

  pub Triple-in_world :
      {P E : AgentState → Type 0} (m : Exec W AgentError A)
      → ((s : AgentState) → P s → E s)
      → Triple P (in_world m) (λ _. P) E
  Triple-in_world {P} {E} m weaken = record { at = λ r p. ended r p (m r.world) }
    where
      ended :
          (r : Run W)
          → P r.state
          → (x : Result AgentError A × W) → Post (λ _. P) E (x.0, record r { world = x.1 })
      ended r p (ok a, w) = p
      ended r p (err e, w) = weaken r.state p

  pub Triple-check :
      {P E : AgentState → Type 0} (f : AgentState → Result AgentError A)
      (Q : A → AgentState → Type 0)
      → ((s : AgentState) (a : A) → P s → f s ≡ ok a → Q a s)
      → ((s : AgentState) → P s → E s)
      → Triple P (check f) Q E
  Triple-check {P} {E} f Q found weaken = record { at = λ r p. ended r p (f r.state) refl }
    where
      ended : (r : Run W) → P r.state → (x : Result AgentError A) → f r.state ≡ x → Post Q E (x, r)
      ended r p (ok a) e = found r.state a p e
      ended r p (err x) e = weaken r.state p

  pub Triple-in_state :
      {P E : AgentState → Type 0} (f : AgentState → Result AgentError A × AgentState)
      (Q : A → AgentState → Type 0)
      → ((s t : AgentState) (a : A) → P s → f s ≡ (ok a, t) → Q a t)
      → ((s t : AgentState) (e : AgentError) → P s → f s ≡ (err e, t) → E t)
      → Triple P (in_state f) Q E
  Triple-in_state {P} {E} f Q good bad = record { at = λ r p. ended r p (f r.state) refl }
    where
      ended :
          (r : Run W)
          → P r.state
          → (x : Result AgentError A × AgentState) → f r.state ≡ x
          → Post Q E (x.0, record r { state = x.1 })
      ended r p (ok a, t) e = good r.state t a p e
      ended r p (err y, t) e = bad r.state t y p e

  pub Triple-if :
      {P E : AgentState → Type 0} {Q : A → AgentState → Type 0} (b : Bool) (m n : Act W A)
      → Triple P m Q E
      → Triple P n Q E
      → Triple P (if b then m else n) Q E
  Triple-if true m n tm tn = tm
  Triple-if false m n tm tn = tn

  pub Triple-weaken :
      {P P' E : AgentState → Type 0} {Q : A → AgentState → Type 0} (m : Act W A)
      → ((s : AgentState) → P' s → P s)
      → Triple P m Q E
      → Triple P' m Q E
  Triple-weaken m f t = record { at = λ r p. t.at r (f r.state p) }

module _ {W A B : Type 0} {P E : AgentState → Type 0} where
  pub Triple-bind :
      (Q : A → AgentState → Type 0) {R : B → AgentState → Type 0} (m : Act W A) (f : A → Act W B)
      → Triple P m Q E
      → ((a : A) → Triple (Q a) (f a) R E)
      → Triple P (m >>= f) R E
  Triple-bind Q {R} m f tm tf = record { at = λ r p. ended (m r) (tm.at r p) }
    where
      ended : (x : Result AgentError A × Run W) → Post Q E x → Post R E (continue x f)
      ended (ok a, t) q = (tf a).at t q
      ended (err e, t) q = q

module _ {W : Type 0} {P E : AgentState → Type 0} where
  pub Triple-update :
      (f : AgentState → AgentState) (Q : AgentState → Type 0)
      → ((s : AgentState) → P s → Q (f s))
      → Triple {W = W} P (update f) (λ _. Q) E
  Triple-update f Q keep = record { at = λ r p. keep r.state p }

  pub Triple-raise_if :
      (b : Bool) (e : AgentError)
      → ((s : AgentState) → P s → E s)
      → Triple {W = W} P (raise_if b e) (λ _. P) E
  Triple-raise_if true e weaken = record { at = λ r p. weaken r.state p }
  Triple-raise_if false e weaken = record { at = λ r p. p }
