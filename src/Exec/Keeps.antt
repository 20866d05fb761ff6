-- ===== src/Exec/Keeps.antt =====
-- Relations between the states before and after a call.
use amiquip.Errors.{Result, ok, err, panicked, out_of_fuel}
use amiquip.Exec.{Exec, then_call, ◌>>=◌}

-- Whatever the call returns, the state after it is related to the one before.
unfoldable pub Keeps : {S A : Type 0} → (S → S → Type 0) → Exec S A → Type 0
Keeps {S} R m = (s : S) → R s ((m s).1)

module _ {S A B : Type 0} (R : S → S → Type 0) (R_trans : (a b c : S) → R a b → R b c → R a c) where
  then_call-Keeps :
      (s : S) (f : A → Exec S B) (r : Result A × S)
      → R s r.1
      → ((a : A) → Keeps R (f a))
      → R s ((then_call r f).1)
  unfolding Keeps
  then_call-Keeps s f (ok a, t) step keeps = R_trans s t ((f a t).1) step (keeps a t)
  then_call-Keeps s f (err e, t) step keeps = step
  then_call-Keeps s f (panicked, t) step keeps = step
  then_call-Keeps s f (out_of_fuel, t) step keeps = step

  pub bind-Keeps :
      (m : Exec S A) (f : A → Exec S B) → Keeps R m → ((a : A) → Keeps R (f a)) → Keeps R (m >>= f)
  unfolding Keeps
  bind-Keeps m f first others s = then_call-Keeps s f (m s) (first s) others
