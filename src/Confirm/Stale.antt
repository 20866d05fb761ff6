-- ===== src/Confirm/Stale.antt =====
-- A `multiple` confirm that passes tags which the stash has answers for.
use mathlib.Core.Path.{subst}
use amiquip.Prelude.{
  ℕ, zero, suc, ◌+◌, ◌-◌, ◌≤◌, ◌<◌, ◌≡◌, refl, ◌∙◌, true, List, ◌++◌, some, arith, get_elem?,
  ℕ_discrete,
}
use amiquip.HashMap
use amiquip.Confirm.{Confirm, ConfirmSmoother, u64_mod, process}
use amiquip.Confirm.Spec.{
  Stash, get, Drains, stop, step, singles, Smooths, late, early, batch, Runs, payload_of, single,
  rounds,
}
use amiquip.Confirm.Smoothing.{process-Smooths}
use amiquip.Confirm.History.{IsValid}

get_elem?-singles :
    (t : ℕ → Confirm) (e n i : ℕ) (cs : List Confirm)
    → i < n
    → get_elem? (singles t e n ++ cs) i ≡ some (t (e + i))
unfolding singles
get_elem?-singles t e zero i cs h = absurd (omega arith)
get_elem?-singles t e (suc n) zero cs h =
    let p : e ≡ e + 0 = omega arith in subst (λ j. some (t e) ≡ some (t j)) p refl
get_elem?-singles t e (suc n) (suc i) cs h =
    let p : e + 1 + i ≡ e + suc i = omega arith in
    subst (λ j. get_elem? (singles t (e + 1) n ++ cs) i ≡ some (t j)) p
      (get_elem?-singles t (e + 1) n i cs (omega arith))

-- What stands below the tag stays in the stash.
get-Drains :
    (k : ℕ) {e : ℕ} {m : Stash} {cs : List Confirm} {s : ConfirmSmoother}
    → Drains e m cs s
    → k < e
    → get s.out_of_order k ≡ get m k
get-Drains k (stop h) below = refl
get-Drains k {e} {m} (step h d) below =
    let law = HashMap.get-remove ℕ_discrete m e k in
    let rest = get-Drains k d (omega arith) in ground arith

overrides :
    (k : ℕ) (c d : Confirm) {s s' : ConfirmSmoother} {out : List Confirm}
    → Smooths s (payload_of c) (single c) out s'
    → s.expected ≤ k
    → k < (payload_of c).delivery_tag
    → (payload_of c).multiple ≡ true
    → get s.out_of_order k ≡ some d
    → (get_elem? out (k - s.expected) ≡ some (single c k)) × (get s'.out_of_order k ≡ some d)
overrides k c d (late h) from below all held = absurd (omega arith)
overrides k c d (early h alone) from below all held = absurd (ground arith)
overrides k c d {s} (batch {cs = cs} ahead which drains) from below all held =
    let tag = (payload_of c).delivery_tag in
    let p : s.expected + (k - s.expected) ≡ k = omega arith in
    (
      subst
          (λ j.
            get_elem? (singles (single c) s.expected (tag + 1 - s.expected) ++ cs) (k - s.expected)
            ≡ some (single c j))
          p
          (get_elem?-singles (single c) s.expected (tag + 1 - s.expected) (k - s.expected) cs
            (omega arith)),
      get-Drains k drains (omega arith) ∙ held,
    )

-- If the stash holds the server's answer `d` for a tag `k` that is still to come, and a `multiple`
-- confirm `c` for a later tag arrives, then `k` is handed out with the verdict of `c`, whatever
-- `d` says, and `d` stays in the stash behind the expected tag.
pub multiple_overrides_stash :
    (s : ConfirmSmoother) (k : ℕ) (c d : Confirm)
    → IsValid s.out_of_order
    → (payload_of c).delivery_tag + 1 < u64_mod
    → s.expected ≤ k
    → k < (payload_of c).delivery_tag
    → (payload_of c).multiple ≡ true
    → get s.out_of_order k ≡ some d
    → Runs (rounds s c) (process s c) λ out s'.
      (get_elem? out (k - s.expected) ≡ some (single c k)) × (get s'.out_of_order k ≡ some d)
multiple_overrides_stash s k c d v fits from below all held =
    let (out, last, run, done, smooths) =
      process-Smooths s c (rounds s c) (λ j x h. (v.at_key j x h).fits) fits (omega arith) in
    (out, last, run, done, overrides k c d smooths from below all held)
