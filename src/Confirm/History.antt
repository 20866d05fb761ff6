-- ===== src/Confirm/History.antt =====
-- Whole histories of confirms.
use amiquip.Prelude.{
  ℕ, zero, suc, ◌+◌, ◌-◌, ◌≤◌, ◌<◌, ◌≡◌, refl, false, List, [], ◌∷◌, ◌++◌, some, arith, length,
  length-append, ℕ_discrete,
}
use mathlib.Core.Path.{subst₂}
use amiquip.HashMap
use amiquip.Errors.{Result, ok, ◌>>=◌}
use amiquip.Confirm.{Confirm, ConfirmSmoother, u64_mod, collect, process, ack, nack}
use amiquip.Confirm.Spec.{
  Stash, get, remove, Drains, stop, step, singles, Smooths, late, early, batch, payload_of, single,
  rounds,
}
use amiquip.Confirm.Smoothing.{process-Smooths}

-- Confirms for single tags, one after the other from `e` on.
abbrev pub Consecutive : ℕ → List Confirm → Type 0
Consecutive e [] = Unit {0}
Consecutive e (c ∷ cs) =
    ((payload_of c).delivery_tag ≡ e) × ((payload_of c).multiple ≡ false) × Consecutive (e + 1) cs

-- The stash holds single confirms under their own tags, none of them the last of u64.
pub record IsStashed (k : ℕ) (c : Confirm) : Type 0 where
  pub tag : (payload_of c).delivery_tag ≡ k
  pub alone : (payload_of c).multiple ≡ false
  pub fits : k + 1 < u64_mod

pub record IsValid (m : Stash) : Type 0 where
  pub at_key : (k : ℕ) (c : Confirm) → get m k ≡ some c → IsStashed k c

-- One confirm after the other, each with the items that its iterator hands out.
unfoldable pub smooth_all : List Confirm → ConfirmSmoother → Result (List Confirm × ConfirmSmoother)
smooth_all [] s = ok ([], s)
smooth_all (c ∷ cs) s = do
  (out, it) ← collect (rounds s c) (process s c)
  (outs, s') ← smooth_all cs it.parent
  ok (out ++ outs, s')

-- What a smoother at tag `e` handed out before it came to `s`.
record Follows (e : ℕ) (cs : List Confirm) (s : ConfirmSmoother) : Type 0 where
  consecutive : Consecutive e cs
  count : s.expected ≡ e + length cs
  valid : IsValid s.out_of_order

IsValid-remove : (m : Stash) (e : ℕ) → IsValid m → IsValid (remove m e)
IsValid-remove m e v = record {
  at_key = λ k c h. v.at_key k c (ground (arith, HashMap.get-remove ℕ_discrete m e k));
}

Consecutive-append :
    (e n : ℕ) (cs ds : List Confirm)
    → Consecutive e cs
    → n ≡ e + length cs
    → Consecutive n ds
    → Consecutive e (cs ++ ds)
Consecutive-append e n [] ds h at h' = let p : n ≡ e = omega arith in rw (← p) h'
Consecutive-append e n (c ∷ cs) ds h at h' =
    (h.0, h.1, Consecutive-append (e + 1) n cs ds h.2 (omega arith) h')

Drains-Follows :
    {e : ℕ} {m : Stash} {cs : List Confirm} {s : ConfirmSmoother}
    → Drains e m cs s
    → IsValid m
    → Follows e cs s
Drains-Follows (stop h) v = record { consecutive = tt; count = omega arith; valid = v }
Drains-Follows {e} {m} (step {c = c} h d) v =
    let f = Drains-Follows d (IsValid-remove m e v) in
    let at = v.at_key e c h in
    record {
      consecutive = (at.tag, at.alone, f.consecutive);
      count = omega (arith, f.count);
      valid = f.valid;
    }

singles-Consecutive :
    (c : Confirm) (e n : ℕ)
    → Consecutive e (singles (single c) e n) × (length (singles (single c) e n) ≡ n)
unfolding singles
singles-Consecutive c e zero = (tt, refl)
singles-Consecutive (ack p) e (suc n) =
    let r = singles-Consecutive (ack p) (e + 1) n in ((refl, refl, r.0), omega (arith, r.1))
singles-Consecutive (nack p) e (suc n) =
    let r = singles-Consecutive (nack p) (e + 1) n in ((refl, refl, r.0), omega (arith, r.1))

pub IsStashed-single : (c : Confirm) (k : ℕ) → k + 1 < u64_mod → IsStashed k (single c k)
IsStashed-single (ack p) k h = record { tag = refl; alone = refl; fits = h }
IsStashed-single (nack p) k h = record { tag = refl; alone = refl; fits = h }

pub IsValid-insert :
    (m : Stash) (c : Confirm) (k : ℕ)
    → IsValid m
    → IsStashed k c
    → IsValid (HashMap.insert ℕ_discrete m k c)
IsValid-insert m c k v h = record {
  at_key = λ j x e.
      let law = HashMap.get-insert ℕ_discrete m k j c in
      elim (ℕ_discrete k j) [
        | yes p ↦
            let p1 : some c ≡ some x = ground arith in
            let p2 : c ≡ x = cc in subst₂ IsStashed p p2 h
        | no p ↦ v.at_key j x (ground arith)
      ];
}

Drains-Follows_after :
    (c : Confirm) {e tag : ℕ} {m : Stash} {cs : List Confirm} {s : ConfirmSmoother}
    → e ≤ tag
    → Drains (tag + 1) m cs s
    → IsValid m
    → Follows e (singles (single c) e (tag + 1 - e) ++ cs) s
Drains-Follows_after c {e} {tag} {m} {cs} {s} ahead d v =
    let f = Drains-Follows d v in
    let g = singles-Consecutive c e (tag + 1 - e) in
    record {
      consecutive =
          Consecutive-append e (tag + 1) (singles (single c) e (tag + 1 - e)) cs g.0
            (omega (arith, g.1)) f.consecutive;
      count = omega (arith, f.count, g.1, length-append (singles (single c) e (tag + 1 - e)) cs);
      valid = f.valid;
    }

Smooths-Follows :
    (c : Confirm) {s s' : ConfirmSmoother} {cs : List Confirm}
    → Smooths s (payload_of c) (single c) cs s'
    → IsValid s.out_of_order
    → (payload_of c).delivery_tag + 1 < u64_mod
    → Follows s.expected cs s'
Smooths-Follows c (late h) v fits = record { consecutive = tt; count = omega arith; valid = v }
Smooths-Follows c {s} (early h alone) v fits = record {
  consecutive = tt;
  count = omega arith;
  valid =
      IsValid-insert s.out_of_order (single c (payload_of c).delivery_tag)
        (payload_of c).delivery_tag v (IsStashed-single c (payload_of c).delivery_tag fits);
}
Smooths-Follows c (batch ahead which d) v fits = Drains-Follows_after c ahead d v

-- The tags of a history, each below the last of u64.
abbrev pub TagsFit : List Confirm → Type 0
TagsFit [] = Unit {0}
TagsFit (c ∷ cs) = ((payload_of c).delivery_tag + 1 < u64_mod) × TagsFit cs

-- Whatever confirms the server sends, in whatever order, single or multiple, new or repeated:
-- every run ends, and all that is handed out are single confirms whose tags go up by one from the
-- tag that was expected first.
pub smooth_all-Consecutive :
    (cs : List Confirm) (s : ConfirmSmoother)
    → IsValid s.out_of_order
    → TagsFit cs
    → (outs : List Confirm) × (s' : ConfirmSmoother) × (smooth_all cs s ≡ ok (outs, s'))
      × Consecutive s.expected outs
      × (s'.expected ≡ s.expected + length outs)
      × IsValid s'.out_of_order
unfolding smooth_all
smooth_all-Consecutive [] s v fits = ([], s, refl, tt, omega arith, v)
smooth_all-Consecutive (c ∷ cs) s v fits =
    let (out, it, run, _, smooths) =
      process-Smooths s c (rounds s c) (λ k d h. (v.at_key k d h).fits) fits.0 (omega arith) in
    let f = Smooths-Follows c smooths v fits.0 in
    let (outs, s', runs, more, count, v') = smooth_all-Consecutive cs it.parent f.valid fits.1 in
    (
      out ++ outs,
      s',
      rw (run, runs),
      Consecutive-append s.expected it.parent.expected out outs f.consecutive f.count more,
      omega (arith, f.count, count, length-append out outs),
      v',
    )
