-- ===== src/Confirm/Spec.antt =====
-- What `ConfirmSmoother` should do with a confirm, as a relation beside its code.
use mathlib.Core.Path.{subst}
use amiquip.Prelude.{
  ℕ, zero, suc, ◌+◌, ◌-◌, ◌≤◌, ◌<◌, ◌≡◌, ◌⊎◌, sym, ap, ◌∙◌, true, false, List, [], ◌∷◌, ◌++◌,
  Option, none, some, arith, ℕ_discrete,
}
use amiquip.HashMap
use amiquip.HashMap.{HashMap}
use amiquip.Errors.{ok}
use amiquip.Confirm.{Confirm, ConfirmPayload, ConfirmSmoother, Iter, u64_mod, collect, ack, nack}

abbrev pub Stash : Type 0
Stash = HashMap ℕ Confirm

abbrev pub get : Stash → ℕ → Option Confirm
get = HashMap.get ℕ_discrete

abbrev pub remove : Stash → ℕ → Stash
remove = HashMap.remove ℕ_discrete

-- No tag in the stash is the last one of u64.
abbrev pub Fits : Stash → Type 0
Fits m = (k : ℕ) (c : Confirm) → get m k ≡ some c → k + 1 < u64_mod

-- Confirms leave the stash one tag after the other, up to the first that is not there.
pub data Drains : ℕ → Stash → List Confirm → ConfirmSmoother → Type 0 where
  stop :
      {e : ℕ} {m : Stash}
      → get m e ≡ none
      → Drains e m [] (record { expected = e; out_of_order = m })
  step :
      {e : ℕ} {m : Stash} {c : Confirm} {cs : List Confirm} {s : ConfirmSmoother}
      → get m e ≡ some c
      → Drains (e + 1) (remove m e) cs s
      → Drains e m (c ∷ cs) s

-- `n` confirms for the tags from `e` on.
unfoldable pub singles : (ℕ → Confirm) → ℕ → ℕ → List Confirm
singles t e zero = []
singles t e (suc n) = t e ∷ singles t (e + 1) n

-- What a smoother should do with a payload: nothing if the tag is past, keep it if it is in the
-- future and alone, and else confirm all tags up to it and then what the stash has next.
pub data Smooths (s : ConfirmSmoother) (p : ConfirmPayload) (t : ℕ → Confirm)
    : List Confirm → ConfirmSmoother → Type 0 where
  late : p.delivery_tag < s.expected → Smooths s p t [] s
  early :
      s.expected < p.delivery_tag
      → p.multiple ≡ false
      → Smooths s p t [] (record s {
        out_of_order = HashMap.insert ℕ_discrete s.out_of_order p.delivery_tag (t p.delivery_tag);
      })
  batch :
      {cs : List Confirm} {s' : ConfirmSmoother}
      → s.expected ≤ p.delivery_tag
      → (p.delivery_tag ≡ s.expected) ⊎ (p.multiple ≡ true)
      → Drains (p.delivery_tag + 1) s.out_of_order cs s'
      → Smooths s p t (singles t s.expected (p.delivery_tag + 1 - s.expected) ++ cs) s'

-- The outcome of a run: it ends, and what it did is `P`.
abbrev pub Runs : ℕ → Iter → (List Confirm → ConfirmSmoother → Type 0) → Type 0
Runs fuel it P =
    (cs : List Confirm) × (last : Iter) × (collect fuel it ≡ ok (cs, last))
    × (last.done ≡ true)
    × P cs last.parent

abbrev pub payload_of : Confirm → ConfirmPayload
payload_of (ack p) = p
payload_of (nack p) = p

-- The verdict of `c`, for the tag alone.
abbrev pub single : Confirm → ℕ → Confirm
single (ack p) tag = ack (record { delivery_tag = tag; multiple = false })
single (nack p) tag = nack (record { delivery_tag = tag; multiple = false })

-- Rounds that suffice for `collect` and `finish`.
abbrev pub rounds : ConfirmSmoother → Confirm → ℕ
rounds s c = (payload_of c).delivery_tag - s.expected + HashMap.size s.out_of_order + 2

pub batch_of :
    (s : ConfirmSmoother) (p : ConfirmPayload) (t : ℕ → Confirm) {out cs : List Confirm}
    {s' : ConfirmSmoother}
    → s.expected ≤ p.delivery_tag
    → (p.delivery_tag ≡ s.expected) ⊎ (p.multiple ≡ true)
    → out ≡ singles t s.expected (suc (p.delivery_tag - s.expected)) ++ cs
    → Drains (p.delivery_tag + 1) s.out_of_order cs s'
    → Smooths s p t out s'
batch_of s p t {out} {cs} {s'} ahead which e drains =
    let count : suc (p.delivery_tag - s.expected) ≡ p.delivery_tag + 1 - s.expected = omega arith in
    subst (λ o. Smooths s p t o s') (sym (e ∙ ap (λ n. singles t s.expected n ++ cs) count))
      (batch ahead which drains)
