-- ===== src/Confirm/Dropping.antt =====
-- `Drop` of the iterator: a caller may stop early.
use amiquip.Prelude.{
  ℕ, zero, suc, ◌+◌, ◌≤◌, ◌<◌, ◌≡◌, ◌⊎◌, refl, sym, ap, ◌∙◌, true, List, [], Option, none, some,
  arith, Bool-cases, inl, inr,
}
use amiquip.Errors.{Result, ok, err, panicked, out_of_fuel}
use amiquip.Confirm.{Confirm, ConfirmSmoother, Iter, u64_mod, next, collect, finish, process}
use amiquip.Confirm.Spec.{Fits, payload_of, rounds}
use amiquip.Confirm.Smoothing.{process-Smooths}

-- `k` calls of `next`, whose items are thrown away.
pub nexts : ℕ → Iter → Iter
nexts zero it = it
nexts (suc k) it = nexts k (next it).1

-- `it` runs to its end at `last`, in at most `bound` rounds.
record Ends (bound : ℕ) (it last : Iter) : Type 0 where
  fuel : ℕ
  items : List Confirm
  within : fuel ≤ bound
  run : collect fuel it ≡ ok (items, last)
  done : last.done ≡ true

next_done : (it : Iter) → it.done ≡ true → next it ≡ (none, it)
unfolding next
next_done it h = rw h

Ends-done : (bound : ℕ) (last : Iter) → 0 < bound → last.done ≡ true → Ends bound last last
unfolding collect
Ends-done bound last h d = record {
  fuel = 1;
  items = [];
  within = h;
  run = ground (arith, next_done last d);
  done = d;
}

collect_inv :
    (fuel : ℕ) (it last : Iter) (items : List Confirm)
    → collect (suc fuel) it ≡ ok (items, last)
    → ((next it).1 ≡ last) ⊎ ((rest : List Confirm) × (collect fuel (next it).1 ≡ ok (rest, last)))
unfolding collect
collect_inv fuel it last items h = go (next it).0 (collect fuel (next it).1) refl refl
  where
    go :
        (o : Option Confirm) (r : Result (List Confirm × Iter))
        → (next it).0 ≡ o
        → collect fuel (next it).1 ≡ r
        → ((next it).1 ≡ last)
          ⊎ ((rest : List Confirm) × (collect fuel (next it).1 ≡ ok (rest, last)))
    go none r e e' = inl (ground arith)
    go (some c) (ok (rest, end)) e e' = inr (rest, ground arith)
    go (some c) (err x) e e' = absurd (ground arith)
    go (some c) panicked e e' = absurd (ground arith)
    go (some c) out_of_fuel e e' = absurd (ground arith)

Ends-next : (bound : ℕ) (it last : Iter) → Ends bound it last → Ends bound (next it).1 last
Ends-next bound it last h = go h.fuel h.within h.run
  where
    go :
        (fuel : ℕ)
        → fuel ≤ bound
        → collect fuel it ≡ ok (h.items, last)
        → Ends bound (next it).1 last
    go zero within run = absurd (unfold collect in cc)
    go (suc fuel) within run = elim (collect_inv fuel it last h.items run) [
      | inl e ↦ rw e (Ends-done bound last (omega arith) h.done)
      | inr (rest, e) ↦ record {
        fuel = fuel;
        items = rest;
        within = omega arith;
        run = e;
        done = h.done;
      }
    ]

Ends-nexts : (k bound : ℕ) (it last : Iter) → Ends bound it last → Ends bound (nexts k it) last
unfolding nexts
Ends-nexts zero bound it last h = h
Ends-nexts (suc k) bound it last h = Ends-nexts k bound (next it).1 last (Ends-next bound it last h)

finish-collect :
    (fuel bound : ℕ) (it last : Iter) (items : List Confirm)
    → fuel ≤ bound
    → collect fuel it ≡ ok (items, last)
    → last.done ≡ true
    → finish (suc bound) it ≡ ok last
unfolding finish
finish-collect zero bound it last items within run d = absurd (unfold collect in cc)
finish-collect (suc fuel) zero it last items within run d = absurd (omega arith)
finish-collect (suc fuel) (suc bound) it last items within run d =
    elim (collect_inv fuel it last items run) [
      | inl e ↦ elim (Bool-cases it.done) [
        | inl stop ↦
            let same : it ≡ last = sym (ap (λ r. r.1) (next_done it stop)) ∙ e in
            simp stop (ap ok same)
        | inr more ↦ simp (more, e, d)
      ]
      | inr (rest, e) ↦ elim (Bool-cases it.done) [
        | inl stop ↦
            ground (arith, next_done it stop, finish-collect fuel bound (next it).1 last rest)
        | inr more ↦ simp more (finish-collect fuel bound (next it).1 last rest (omega arith) e d)
      ]
    ]

-- Where the tag of the confirm and all tags in the stash are below the last one of u64: however
-- many items a caller takes before it drops the iterator, the drop ends and leaves the iterator,
-- and so the smoother, that a full run leaves.
pub finish-nexts :
    (s : ConfirmSmoother) (c : Confirm) (k : ℕ)
    → Fits s.out_of_order
    → (payload_of c).delivery_tag + 1 < u64_mod
    → (cs : List Confirm) × (last : Iter) × (collect (rounds s c) (process s c) ≡ ok (cs, last))
      × (finish (suc (rounds s c)) (nexts k (process s c)) ≡ ok last)
finish-nexts s c k fits' fits =
    let (cs, last, run, done, _) = process-Smooths s c (rounds s c) fits' fits (omega arith) in
    let ends =
      Ends-nexts k (rounds s c) (process s c) last
        (record { fuel = rounds s c; items = cs; within = omega arith; run = run; done = done }) in
    (
      cs,
      last,
      run,
      finish-collect ends.fuel (rounds s c) (nexts k (process s c)) last ends.items ends.within
          ends.run ends.done,
    )
