-- ===== src/Prelude/Keeps.antt =====
-- What code that changes a state keeps of it, whether it returns or raises.
use mathlib.Core.Path.{◌≡◌, refl}
use mathlib.Core.Bool.{Bool, true, false}
use deepseek_as_subagent.Prelude.Results.{Result, ok, err}
use deepseek_as_subagent.Prelude.Exec.{Exec, pure, raise, lift, continue, raise_if, ◌>>=◌, ◌>>◌}

module _ {S E : Type 0} (P : S → Type 0) where
  pub record Keeps {A : Type 0} (m : Exec S E A) : Type 0 where
    pub at : (s : S) → P s → P ((m s).1)

  pub Keeps-pure : {A : Type 0} (a : A) → Keeps (pure a)
  Keeps-pure a = record { at = λ s p. p }

  pub Keeps-raise : {A : Type 0} (e : E) → Keeps {A = A} (raise e)
  Keeps-raise e = record { at = λ s p. p }

  pub Keeps-lift : {A : Type 0} (r : Result E A) → Keeps (lift r)
  Keeps-lift r = record { at = λ s p. p }

  pub Keeps-bind :
      {A B : Type 0} (m : Exec S E A) (f : A → Exec S E B)
      → Keeps m
      → ((a : A) → Keeps (f a))
      → Keeps (m >>= f)
  Keeps-bind {A} m f h k = record { at = λ s p. ended (m s) (h.at s p) }
    where
      ended : (x : Result E A × S) → P (x.1) → P ((continue x f).1)
      ended (ok a, t) p = (k a).at t p
      ended (err e, t) p = p

  pub Keeps-lift-bind :
      {A B : Type 0} (r : Result E A) (f : A → Exec S E B)
      → ((a : A) → r ≡ ok a → Keeps (f a))
      → Keeps (lift r >>= f)
  Keeps-lift-bind {A} r f k = record { at = λ s p. ended r refl s p }
    where
      ended : (x : Result E A) → r ≡ x → (s : S) → P s → P ((continue (x, s) f).1)
      ended (ok a) e s p = (k a e).at s p
      ended (err y) e s p = p

  pub Keeps-raise_if :
      {B : Type 0} (b : Bool) (e : E) (m : Exec S E B)
      → (b ≡ false → Keeps m)
      → Keeps (raise_if b e >> m)
  Keeps-raise_if true e m k = record { at = λ s p. p }
  Keeps-raise_if false e m k = record { at = λ s p. (k refl).at s p }
