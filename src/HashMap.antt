-- ===== src/HashMap.antt =====
-- std::collections::HashMap, over any type of keys with decidable equality. The entries stand in
-- an association list without repeated keys; its order is one of those that an iteration may have.
use amiquip.Prelude.{
  ℕ, ◌≤◌, ◌<◌, ◌≡◌, refl, List, [], ◌∷◌, Option, none, some, arith, ite, Bool, true, false, length,
}

pub record HashMap {ℓ} (K V : Type ℓ) : Type ℓ where
  pub entries : List (K × V)

module _ {ℓ} {K V : Type ℓ} where
  -- HashMap::new()
  unfoldable pub empty : HashMap K V
  empty = record { entries = [] }

  null : List (K × V) → Bool
  null [] = true
  null (e ∷ l) = false

  -- m.is_empty()
  unfoldable pub is_empty : HashMap K V → Bool
  unfolding null
  is_empty m = null m.entries

  -- m.len()
  unfoldable pub size : HashMap K V → ℕ
  size m = length m.entries

  module _ (dec : Discrete K) where
    find : K → List (K × V) → Option V
    find k [] = none
    find k (e ∷ l) = ite (dec e.0 k) (some e.1) (find k l)

    forget : K → List (K × V) → List (K × V)
    forget k [] = []
    forget k (e ∷ l) = let others = forget k l in ite (dec e.0 k) others (e ∷ others)

    -- m.get(&k)
    unfoldable pub get : HashMap K V → K → Option V
    unfolding find
    get m k = find k m.entries

    -- m.remove(&k), less its result, which is `get m k`
    unfoldable pub remove : HashMap K V → K → HashMap K V
    unfolding forget
    remove m k = record { entries = forget k m.entries }

    -- m.insert(k, v)
    unfoldable pub insert : HashMap K V → K → V → HashMap K V
    unfolding forget
    insert m k v = record { entries = (k, v) ∷ forget k m.entries }

    find-forget : (k j : K) (l : List (K × V)) → find j (forget k l) ≡ ite (dec k j) none (find j l)
    unfolding find forget
    find-forget k j [] = ground arith
    find-forget k j (e ∷ l) = ground (arith, find-forget k j l)

    pub get-remove : (m : HashMap K V) (k j : K) → get (remove m k) j ≡ ite (dec k j) none (get m j)
    unfolding get remove
    get-remove m k j = find-forget k j m.entries

    pub get-insert :
        (m : HashMap K V) (k j : K) (v : V)
        → get (insert m k v) j ≡ ite (dec k j) (some v) (get m j)
    unfolding get insert
    get-insert m k j v = ground (arith, find-forget k j m.entries)

    pub get-empty : (k : K) → get empty k ≡ none
    unfolding get empty
    get-empty k = refl

    length-forget-le : (k : K) (l : List (K × V)) → length (forget k l) ≤ length l
    unfolding forget
    length-forget-le k [] = omega arith
    length-forget-le k ((j, v) ∷ l) = ground (arith, length-forget-le k l)

    length-forget-lt :
        (k : K) (v : V) (l : List (K × V)) → find k l ≡ some v → length (forget k l) < length l
    unfolding find forget
    length-forget-lt k v [] h = cc
    length-forget-lt k v ((j, w) ∷ l) h =
        ground (arith, length-forget-le k l, length-forget-lt k v l)

    -- Removing a key that is there makes the map smaller.
    pub size-remove-lt :
        (m : HashMap K V) (k : K) (v : V) → get m k ≡ some v → size (remove m k) < size m
    unfolding get remove size
    size-remove-lt m k v h = length-forget-lt k v m.entries h

    forget_absent : (k : K) (l : List (K × V)) → find k l ≡ none → forget k l ≡ l
    unfolding find forget
    forget_absent k [] h = refl
    forget_absent k ((j, v) ∷ l) h = ground (arith, forget_absent k l)

    -- Removing a key that is not there changes nothing.
    pub remove_absent : (m : HashMap K V) (k : K) → get m k ≡ none → remove m k ≡ m
    unfolding get remove
    remove_absent m k h = ground (arith, forget_absent k m.entries)

pub ruleset map_laws = (get-empty, get-remove, get-insert)
