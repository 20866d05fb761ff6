-- ===== src/IndexSet.antt =====
-- indexmap::IndexSet<u16>, as far as the channel slots use it: a parameter of the model.
use amiquip.Prelude.{
  ℕ, ◌≡◌, refl, List, [], ◌∷◌, Bool, false, ◌||◌, Option, none, some, ◌==◌, if◌then◌else◌,
}

abbrev pub contains : ℕ → List ℕ → Bool
contains k [] = false
contains k (j ∷ l) = j == k || contains k l

-- A value that is there keeps its place.
abbrev pub add : ℕ → List ℕ → List ℕ
add k l = if contains k l then l else k ∷ l

-- The documented behaviour: `items` is the order of insertion, the last value first. `insert`
-- puts a new value last, and `pop` takes the last value.
pub record IndexSet : Type 1 where
  pub Set : Type 0
  pub items : Set → List ℕ
  pub empty : Set
  pub insert : Set → ℕ → Set
  pub pop : Set → Option (ℕ × Set)
  pub items-empty : items empty ≡ []
  pub items-insert : (s : Set) (k : ℕ) → items (insert s k) ≡ add k (items s)
  pub pop_none : (s : Set) → items s ≡ [] → pop s ≡ none
  pub pop_some :
      (s : Set) (k : ℕ) (l : List ℕ)
      → items s ≡ k ∷ l
      → (t : Set) × (pop s ≡ some (k, t)) × (items t ≡ l)

-- Lists meet the assumptions.
pub list_pop : List ℕ → Option (ℕ × List ℕ)
list_pop [] = none
list_pop (k ∷ l) = some (k, l)

pub list_pop-none : (s : List ℕ) → s ≡ [] → list_pop s ≡ none
unfolding list_pop
list_pop-none s e = rw e

pub list_pop-some :
    (s : List ℕ) (k : ℕ) (l : List ℕ)
    → s ≡ k ∷ l
    → (t : List ℕ) × (list_pop s ≡ some (k, t)) × (t ≡ l)
unfolding list_pop
list_pop-some s k l e = (l, rw e, refl)

unfoldable pub list_set : IndexSet
unfolding list_pop
list_set = record {
  Set = List ℕ;
  items = λ s. s;
  empty = [];
  insert = λ s k. add k s;
  pop = list_pop;
  items-empty = refl;
  items-insert = λ s k. refl;
  pop_none = list_pop-none;
  pop_some = list_pop-some;
}
