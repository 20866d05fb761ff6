-- ===== src/Confirm/Tests.antt =====
-- Runs of the smoother, and the theorems at concrete confirms.
use amiquip.Prelude.{
  ℕ, suc, ◌+◌, ◌-◌, ◌≡◌, refl, true, false, List, [], ◌∷◌, some, arith, get_elem?, length,
  ℕ_discrete,
}
use amiquip.HashMap
use amiquip.Errors.{ok}
use amiquip.Confirm.{Confirm, ConfirmSmoother, Iter, ack, nack, new, process, next, collect, finish}
use amiquip.Confirm.Spec.{get, Smooths, Runs, payload_of, single, rounds}
use amiquip.Confirm.Smoothing.{process-Smooths}
use amiquip.Confirm.Dropping.{nexts, finish-nexts}
use amiquip.Confirm.History.{
  IsValid, Consecutive, smooth_all, smooth_all-Consecutive, IsValid-insert, IsStashed-single,
}
use amiquip.Confirm.Stale.{multiple_overrides_stash}

abbrev acks : ℕ → Confirm
acks tag = ack (record { delivery_tag = tag; multiple = false })

abbrev nacks : ℕ → Confirm
nacks tag = nack (record { delivery_tag = tag; multiple = false })

abbrev acks_up_to : ℕ → Confirm
acks_up_to tag = ack (record { delivery_tag = tag; multiple = true })

-- `single_single_multiple_single` of the source's tests.
abbrev mixed : List Confirm
mixed = nacks 5 ∷ nacks 3 ∷ acks_up_to 2 ∷ acks 4 ∷ []

mixed_run :
    smooth_all mixed new
    ≡ ok (
      acks 1 ∷ acks 2 ∷ nacks 3 ∷ acks 4 ∷ nacks 5 ∷ [],
      record { expected = 6; out_of_order = HashMap.empty },
    )
unfolding smooth_all new process collect next HashMap.get HashMap.insert HashMap.remove
    HashMap.empty HashMap.size ℕ_discrete
mixed_run = refl

IsValid-empty : IsValid HashMap.empty
IsValid-empty = record { at_key = λ k c h. absurd (cc (HashMap.get-empty ℕ_discrete k)) }

abbrev held : ConfirmSmoother
held = record { expected = 1; out_of_order = HashMap.insert ℕ_discrete HashMap.empty 2 (nacks 2) }

held-IsValid : IsValid held.out_of_order
held-IsValid =
    IsValid-insert HashMap.empty (nacks 2) 2 IsValid-empty
      (IsStashed-single (nacks 2) 2 (omega arith))

process-Smooths_example :
    Runs 5 (process held (acks 1)) (Smooths held (payload_of (acks 1)) (single (acks 1)))
unfolding HashMap.size HashMap.insert HashMap.empty ℕ_discrete
process-Smooths_example =
    process-Smooths held (acks 1) 5 (λ k c h. (held-IsValid.at_key k c h).fits) (omega arith)
      (omega arith)

finish-nexts_example :
    (cs : List Confirm) × (last : Iter) × (collect
        (rounds held (acks_up_to 4))
        (process held (acks_up_to 4))
      ≡ ok (cs, last))
    × (finish (suc (rounds held (acks_up_to 4))) (nexts 2 (process held (acks_up_to 4))) ≡ ok last)
finish-nexts_example =
    finish-nexts held (acks_up_to 4) 2 (λ k c h. (held-IsValid.at_key k c h).fits) (omega arith)

smooth_all-Consecutive_example :
    (outs : List Confirm) × (s : ConfirmSmoother) × (smooth_all mixed held ≡ ok (outs, s))
    × Consecutive 1 outs
    × (s.expected ≡ 1 + length outs)
    × IsValid s.out_of_order
smooth_all-Consecutive_example = smooth_all-Consecutive mixed held held-IsValid (omega arith)

multiple_overrides_stash_example :
    Runs
      (rounds held (acks_up_to 3))
      (process held (acks_up_to 3))
      λ out s. (get_elem? out (2 - 1) ≡ some (acks 2)) × (get s.out_of_order 2 ≡ some (nacks 2))
multiple_overrides_stash_example =
    multiple_overrides_stash held 2 (acks_up_to 3) (nacks 2) held-IsValid (omega arith)
      (omega arith) (omega arith) refl
      (ground
        (arith, HashMap.get-insert ℕ_discrete (HashMap.empty {K = ℕ} {V = Confirm}) 2 2 (nacks 2)))
