-- ===== src/Exec.antt =====
-- Calls that change a state and may fail: what was written before an error stays written.
pub mod Keeps
use amiquip.Prelude.{◌≡◌, refl}
use amiquip.Errors.{Result, Error, ok, err, panicked, out_of_fuel}

abbrev pub Exec {ℓ} : Type ℓ → Type ℓ → Type ℓ
Exec S A = S → Result A × S

module _ {ℓ} {S A : Type ℓ} where
  abbrev pub pure : A → Exec S A
  pure a s = (ok a, s)

  abbrev pub fail : Error → Exec S A
  fail e s = (err e, s)

module _ {ℓ} {S A B : Type ℓ} where
  abbrev pub then_call : Result A × S → (A → Exec S B) → Result B × S
  then_call (ok a, s) f = f a s
  then_call (err e, s) f = (err e, s)
  then_call (panicked, s) f = (panicked, s)
  then_call (out_of_fuel, s) f = (out_of_fuel, s)

  infixl 5 ◌>>=◌ ◌>>◌
  abbrev pub ◌>>=◌ : Exec S A → (A → Exec S B) → Exec S B
  ◌>>=◌ m f s = then_call (m s) f

  abbrev pub ◌>>◌ : Exec S A → Exec S B → Exec S B
  m >> n = m >>= λ _. n
