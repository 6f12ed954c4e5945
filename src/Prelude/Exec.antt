-- ===== src/Prelude/Exec.antt =====
-- Code that changes an object `S` and may throw: the change made before a throw stays.

use my_messenger.Prelude.Result.{Result, ok, err}

abbrev pub Exec {σ ε ℓ} : Type σ → Type ε → Type ℓ → Type (σ ⊔ ε ⊔ ℓ)
Exec S E A = S → Result E A × S

module _ {σ ε ℓ} {S : Type σ} {E : Type ε} {A : Type ℓ} where
  abbrev pub pure : A → Exec S E A
  pure a s = (ok a, s)

  abbrev pub lift : Result E A → Exec S E A
  lift r s = (r, s)

  abbrev pub gets : (S → A) → Exec S E A
  gets f s = (ok (f s), s)

module _ {σ ε} {S : Type σ} {E : Type ε} where
  abbrev pub modify : (S → S) → Exec S E (Unit {0})
  modify f s = (ok tt, f s)

infixl 5 ◌>>=◌ ◌>>◌
module _ {σ ε ℓ κ} {S : Type σ} {E : Type ε} {A : Type ℓ} {B : Type κ} where
  abbrev pub bind_result : Result E A × S → (A → Exec S E B) → Result E B × S
  bind_result (ok a, s) f = f a s
  bind_result (err e, s) f = (err e, s)

  abbrev pub ◌>>=◌ : Exec S E A → (A → Exec S E B) → Exec S E B
  ◌>>=◌ m f s = bind_result (m s) f

  abbrev pub ◌>>◌ : Exec S E A → Exec S E B → Exec S E B
  ◌>>◌ m k s = bind_result (m s) (λ _. k)
