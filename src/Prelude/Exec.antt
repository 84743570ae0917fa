-- ===== src/Prelude/Exec.antt =====
-- Python code that changes a state and may raise: what was written before a raise stays written.
use mathlib.Core.Path.{◌≡◌, refl}
use mathlib.Core.Bool.{Bool, true, false}
use deepseek_as_subagent.Prelude.Results.{Result, ok, err}

abbrev pub Exec {ℓ κ μ} : Type ℓ → Type κ → Type μ → Type (ℓ ⊔ κ ⊔ μ)
Exec S E A = S → Result E A × S

module _ {ℓ κ μ} {S : Type ℓ} {E : Type κ} {A : Type μ} where
  abbrev pub pure : A → Exec S E A
  pure a s = (ok a, s)

  abbrev pub raise : E → Exec S E A
  raise e s = (err e, s)

  abbrev pub lift : Result E A → Exec S E A
  lift r s = (r, s)

module _ {ℓ κ μ ν} {S : Type ℓ} {E : Type κ} {A : Type μ} {B : Type ν} where
  abbrev pub continue : Result E A × S → (A → Exec S E B) → Result E B × S
  continue (ok a, s) f = f a s
  continue (err e, s) f = (err e, s)

  infixl 5 ◌>>=◌
  abbrev pub ◌>>=◌ : Exec S E A → (A → Exec S E B) → Exec S E B
  ◌>>=◌ m f s = continue (m s) f

module _ {ℓ κ μ} {S : Type ℓ} {E : Type κ} {B : Type μ} where
  infixl 5 ◌>>◌
  abbrev pub ◌>>◌ : Exec S E (Unit {0}) → Exec S E B → Exec S E B
  m >> k = m >>= λ _. k

abbrev pub raise_if {ℓ κ} : {S : Type ℓ} {E : Type κ} → Bool → E → Exec S E (Unit {0})
raise_if true e s = (err e, s)
raise_if false e s = (ok tt, s)

-- What a chain that succeeds went through.
pub Exec-bind {ℓ κ μ ν} :
    {S : Type ℓ} {E : Type κ} {A : Type μ} {B : Type ν} (m : Exec S E A) (f : A → Exec S E B)
    (s : S) {b : B} {t : S}
    → (m >>= f) s ≡ (ok b, t)
    → (a : A) × (u : S) × (m s ≡ (ok a, u)) × (f a u ≡ (ok b, t))
Exec-bind {S} {E} {A} {B} m f s {b} {t} h = continued (m s) refl h
  where
    continued :
        (r : Result E A × S)
        → m s ≡ r
        → continue r f ≡ (ok b, t)
        → (a : A) × (u : S) × (m s ≡ (ok a, u)) × (f a u ≡ (ok b, t))
    continued (ok a, u) e h = (a, u, e, h)
    continued (err e', u) e h = absurd (cc)
