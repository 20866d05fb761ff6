-- ===== src/Confirm/Smoothing.antt =====
-- What a run of the iterator of `ConfirmSmoother` hands out, and the smoother that it leaves.
use amiquip.Prelude.{
  ℕ, zero, suc, ◌+◌, ◌-◌, ◌≤◌, ◌<◌, ◌≡◌, ◌⊎◌, ◌||◌, ◌==◌, inl, inr, refl, ap, true, false, List, [],
  ◌∷◌, ◌++◌, none, some, arith, ℕ_discrete, Option-cases, Bool-cases, ltb,
}
use amiquip.HashMap
use amiquip.HashMap.{HashMap}
use amiquip.Errors.{ok}
use amiquip.Confirm.{
  Confirm, ConfirmPayload, ConfirmSmoother, Iter, u64_mod, next_tag, next, collect, process, ack,
  nack,
}
use amiquip.Confirm.Spec.{
  Stash, get, remove, Fits, Drains, stop, step, singles, Smooths, late, early, Runs, payload_of,
  single, rounds, batch_of,
}

collect-none :
    (fuel : ℕ) (it : Iter) {it' : Iter}
    → next it ≡ (none, it')
    → collect (suc fuel) it ≡ ok ([], it')
unfolding collect
collect-none fuel it e = ground arith

collect-some :
    (fuel : ℕ) (it : Iter) {c : Confirm} {it' last : Iter} {cs : List Confirm}
    → next it ≡ (some c, it')
    → collect fuel it' ≡ ok (cs, last)
    → collect (suc fuel) it ≡ ok (c ∷ cs, last)
unfolding collect
collect-some fuel it e r = ground arith

Fits-remove : (m : Stash) (e : ℕ) → Fits m → Fits (remove m e)
Fits-remove m e fits k c h = fits k c (ground (arith, HashMap.get-remove ℕ_discrete m e k))

module _ (p : ConfirmPayload) (t : ℕ → Confirm) where
  -- The iterator behind the expected tag: the next confirm has left the stash.
  abbrev caught : ℕ → Stash → Iter
  caught e m = record {
    parent = record { expected = e; out_of_order = remove m e };
    payload = p;
    next_confirm = get m e;
    to_confirm = t;
    done = false;
  }

  next-caught-none :
      (e : ℕ) (m : Stash)
      → p.delivery_tag < e
      → get m e ≡ none
      → next (caught e m) ≡ (none, record (caught e m) { done = true })
  unfolding next
  next-caught-none e m past h = ground arith

  next-caught-some :
      (e : ℕ) (m : Stash) (c : Confirm)
      → p.delivery_tag < e
      → get m e ≡ some c
      → e + 1 < u64_mod
      → next (caught e m) ≡ (some c, caught (e + 1) (remove m e))
  unfolding next
  next-caught-some e m c past h fits =
      let step : next_tag e ≡ e + 1 = omega arith in rw (← step) (ground arith)

  -- Enough fuel empties the stash as far as it goes.
  collect-caught :
      (fuel e : ℕ) (m : Stash)
      → HashMap.size m < fuel
      → p.delivery_tag < e
      → Fits m
      → (cs : List Confirm) × (it : Iter) × (collect fuel (caught e m) ≡ ok (cs, it))
        × (it.done ≡ true)
        × Drains e m cs it.parent
  collect-caught zero e m room past fits = absurd (omega arith)
  collect-caught (suc fuel) e m room past fits = elim (Option-cases (get m e)) [
    | inl h ↦ (
      [],
      record (caught e m) { done = true },
      collect-none fuel (caught e m) (next-caught-none e m past h),
      refl,
      rw (HashMap.remove_absent ℕ_discrete m e h) (stop h),
    )
    | inr (c, h) ↦
        let smaller = HashMap.size-remove-lt ℕ_discrete m e c h in
        let (cs, it, run, done, drains) =
          collect-caught fuel (e + 1) (remove m e) (omega arith) (omega arith)
            (Fits-remove m e fits) in
        (
          c ∷ cs,
          it,
          collect-some fuel (caught e m) (next-caught-some e m c past h (fits e c h)) run,
          done,
          step h drains,
        )
  ]

module _ (p : ConfirmPayload) (t : ℕ → Confirm) where
  abbrev fresh : ConfirmSmoother → Iter
  fresh s = record { parent = s; payload = p; next_confirm = none; to_confirm = t; done = false }

  next-fresh_exact :
      (s : ConfirmSmoother)
      → s.expected ≡ p.delivery_tag
      → p.delivery_tag + 1 < u64_mod
      → next (fresh s) ≡ (some (t s.expected), caught p t (p.delivery_tag + 1) s.out_of_order)
  unfolding next
  next-fresh_exact s here fits =
      let step : next_tag s.expected ≡ p.delivery_tag + 1 = omega arith in
      rw (← step) (ground arith)

  next-fresh_multiple :
      (s : ConfirmSmoother)
      → s.expected < p.delivery_tag
      → p.multiple ≡ true
      → p.delivery_tag + 1 < u64_mod
      → next (fresh s) ≡ (some (t s.expected), fresh (record s { expected = s.expected + 1 }))
  unfolding next
  next-fresh_multiple s ahead multiple fits =
      let step : next_tag s.expected ≡ s.expected + 1 = omega arith in rw (← step) (ground arith)

  next-fresh_single :
      (s : ConfirmSmoother)
      → s.expected < p.delivery_tag
      → p.multiple ≡ false
      → next (fresh s) ≡ (
        none,
        record (fresh s) {
          parent = record s {
            out_of_order =
                HashMap.insert ℕ_discrete s.out_of_order p.delivery_tag (t p.delivery_tag);
          };
          done = true;
        },
      )
  unfolding next
  next-fresh_single s ahead single = ground arith

  next-fresh_past :
      (s : ConfirmSmoother)
      → p.delivery_tag < s.expected
      → next (fresh s) ≡ (none, record (fresh s) { done = true })
  unfolding next
  next-fresh_past s past = ground arith

  collect-batch :
      (n fuel : ℕ) (s : ConfirmSmoother)
      → s.expected + n ≡ p.delivery_tag
      → (p.delivery_tag ≡ s.expected) ⊎ (p.multiple ≡ true)
      → p.delivery_tag + 1 < u64_mod
      → Fits s.out_of_order
      → n + HashMap.size s.out_of_order + 1 < fuel
      → Runs fuel (fresh s) λ out s'.
        (cs : List Confirm) × (out ≡ singles t s.expected (suc n) ++ cs)
        × Drains (p.delivery_tag + 1) s.out_of_order cs s'
  unfolding singles
  collect-batch n zero s at which fits fits' room = absurd (omega arith)
  collect-batch zero (suc fuel) s at which fits fits' room =
      let (cs, it, run, done, drains) =
        collect-caught p t fuel (p.delivery_tag + 1) s.out_of_order (omega arith) (omega arith)
          fits' in
      (
        t s.expected ∷ cs,
        it,
        collect-some fuel (fresh s) (next-fresh_exact s (omega arith) fits) run,
        done,
        (cs, refl, drains),
      )
  collect-batch (suc n) (suc fuel) s at (inl exact) fits fits' room = absurd (omega arith)
  collect-batch (suc n) (suc fuel) s at (inr multiple) fits fits' room =
      let s1 : ConfirmSmoother = record s { expected = s.expected + 1 } in
      let (out, it, run, done, (cs, e, drains)) =
        collect-batch n fuel s1 (omega arith) (inr multiple) fits fits' (omega arith) in
      (
        t s.expected ∷ out,
        it,
        collect-some fuel (fresh s) (next-fresh_multiple s (omega arith) multiple fits) run,
        done,
        (cs, ap (◌∷◌ (t s.expected)) e, drains),
      )

process-fresh :
    (s : ConfirmSmoother) (c : Confirm) → process s c ≡ fresh (payload_of c) (single c) s
unfolding process
process-fresh s (ack p) = refl
process-fresh s (nack p) = refl

fresh-Smooths :
    (p : ConfirmPayload) (t : ℕ → Confirm) (fuel : ℕ) (s : ConfirmSmoother)
    → p.delivery_tag + 1 < u64_mod
    → Fits s.out_of_order
    → p.delivery_tag - s.expected + HashMap.size s.out_of_order + 2 ≤ fuel
    → Runs fuel (fresh p t s) (Smooths s p t)
fresh-Smooths p t zero s fits fits' room = absurd (omega arith)
fresh-Smooths p t (suc fuel) s fits fits' room = elim (Bool-cases (ltb p.delivery_tag s.expected)) [
  | inl h ↦
      let past : p.delivery_tag < s.expected = ground arith in
      (
        [],
        record (fresh p t s) { done = true },
        collect-none fuel (fresh p t s) (next-fresh_past p t s past),
        refl,
        late past,
      )
  | inr h ↦ elim (Bool-cases (p.delivery_tag == s.expected || p.multiple)) [
    | inl b ↦
        let which : (p.delivery_tag ≡ s.expected) ⊎ (p.multiple ≡ true) = ground arith in
        let (out, it, run, done, (cs, e, drains)) =
          collect-batch p t (p.delivery_tag - s.expected) (suc fuel) s (ground arith) which fits
            fits' (omega arith) in
        (out, it, run, done, batch_of s p t (ground arith) which e drains)
    | inr b ↦
        let ahead : s.expected < p.delivery_tag = ground arith in
        let alone : p.multiple ≡ false = ground arith in
        (
          [],
          record (fresh p t s) {
            parent = record s {
              out_of_order =
                  HashMap.insert ℕ_discrete s.out_of_order p.delivery_tag (t p.delivery_tag);
            };
            done = true;
          },
          collect-none fuel (fresh p t s) (next-fresh_single p t s ahead alone),
          refl,
          early ahead alone,
        )
  ]
]

-- Where the tag of the confirm and all tags in the stash are below the last one of u64, the
-- iterator of one confirm ends within `rounds`, marked as done; what it hands out and the smoother
-- it leaves are those of `Smooths`.
pub process-Smooths :
    (s : ConfirmSmoother) (c : Confirm) (fuel : ℕ)
    → Fits s.out_of_order
    → (payload_of c).delivery_tag + 1 < u64_mod
    → rounds s c ≤ fuel
    → Runs fuel (process s c) (Smooths s (payload_of c) (single c))
process-Smooths s c fuel fits' fits room =
    rw (process-fresh s c) (fresh-Smooths (payload_of c) (single c) fuel s fits fits' room)
