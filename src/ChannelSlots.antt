-- ===== src/ChannelSlots.antt =====
-- io_loop/channel_slots.rs: the slots of the open channels, and the choice of channel ids.
pub mod Scan
pub mod Allocation
pub mod Reuse
pub mod Sequential
pub mod Release
pub mod Wrap
mod Tests
use amiquip.Prelude.{
  ℕ, zero, suc, ◌+◌, ◌%◌, ◌^◌, Bool, true, false, ◌&&◌, List, [], ◌∷◌, Option, none, some, map, leb,
  ltb, if◌then◌else◌, ℕ_discrete,
}
use amiquip.HashMap
use amiquip.HashMap.{HashMap}
use amiquip.IndexSet.{IndexSet}
use amiquip.Errors.{
  Result, ok, err, panicked, out_of_fuel, unavailable_channel_id, exhausted_channel_ids,
}

abbrev pub u16_mod : ℕ
u16_mod = 2 ^ 16

abbrev null : List ℕ → Bool
null [] = true
null (k ∷ l) = false

abbrev pub is_some {ℓ} : {A : Type ℓ} → Option A → Bool
is_some none = false
is_some (some a) = true

module _ (I : IndexSet) (T : Type 0) where
  open I use {Set, items, empty, insert as add_freed, pop}

  pub record ChannelSlots : Type 0 where
    pub slots : HashMap ℕ T
    pub freed_channel_ids : Set
    pub next_channel_id : ℕ
    pub channel_max : ℕ

  unfoldable pub new : ChannelSlots
  new = record {
    slots = HashMap.empty;
    freed_channel_ids = empty;
    next_channel_id = 1;
    channel_max = 0;
  }

  unfoldable pub free_all : List (ℕ × T) → Set → Set
  free_all [] freed = freed
  free_all ((id, t) ∷ l) freed = free_all l (add_freed freed id)

  -- The drained entries, and the slots behind them.
  unfoldable pub drain : ChannelSlots → List (ℕ × T) × ChannelSlots
  drain s = (
    s.slots.entries,
    record s {
      slots = HashMap.empty;
      freed_channel_ids = free_all s.slots.entries s.freed_channel_ids;
    },
  )

  unfoldable pub set_channel_max : ChannelSlots → ℕ → Result ChannelSlots
  set_channel_max s channel_max =
      if HashMap.is_empty s.slots && null (items s.freed_channel_ids)
      then ok (record s { channel_max = channel_max })
      else panicked

  unfoldable pub get : ChannelSlots → ℕ → Option T
  get s channel_id = HashMap.get ℕ_discrete s.slots channel_id

  -- `get_mut(channel_id)` and a write through it.
  unfoldable pub put : ChannelSlots → ℕ → T → ChannelSlots
  put s channel_id t = record s { slots = HashMap.insert ℕ_discrete s.slots channel_id t }

  unfoldable pub remove : ChannelSlots → ℕ → Option T × ChannelSlots
  unfolding get
  remove s channel_id = elim (get s channel_id) [
    | none ↦ (none, s)
    | some t ↦ (
      some t,
      record s {
        slots = HashMap.remove ℕ_discrete s.slots channel_id;
        freed_channel_ids = add_freed s.freed_channel_ids channel_id;
      },
    )
  ]

  -- `self.next_channel_id += 1` on u16, as a release build computes it.
  abbrev pub taken : ChannelSlots → ChannelSlots
  taken s = record s { next_channel_id = (s.next_channel_id + 1) % u16_mod }

  -- The `while` loop of `insert_unused_channel_id`, up to the first vacant id.
  unfoldable pub scan : ℕ → ChannelSlots → Result (Option ℕ) × ChannelSlots
  unfolding get
  scan zero s = (out_of_fuel, s)
  scan (suc fuel) s =
      let rest = scan fuel (taken s) in
      if leb s.next_channel_id s.channel_max
      then if is_some (get s s.next_channel_id)
        then rest
        else (ok (some s.next_channel_id), taken s)
      else (ok none, s)

  module _ {U : Type 0} where
    -- `let (t, u) = make_entry(channel_id)?; entry.insert(t); Ok(u)`
    unfoldable pub fill : ChannelSlots → ℕ → (ℕ → Result (T × U)) → Result U × ChannelSlots
    unfolding put
    fill s channel_id make_entry = elim (make_entry channel_id) [
      | ok (t, u) ↦ (ok u, put s channel_id t)
      | err e ↦ (err e, s)
      | panicked ↦ (panicked, s)
      | out_of_fuel ↦ (out_of_fuel, s)
    ]

    -- What stands behind the loop: an id that was freed.
    unfoldable pub reuse_freed : ChannelSlots → (ℕ → Result (T × U)) → Result U × ChannelSlots
    unfolding get fill
    reuse_freed s make_entry = elim (pop s.freed_channel_ids) [
      | none ↦ (err exhausted_channel_ids, s)
      | some (channel_id, freed) ↦
          let s' : ChannelSlots = record s { freed_channel_ids = freed } in
          if is_some (get s channel_id) then (panicked, s') else fill s' channel_id make_entry
    ]

    after_scan : Result (Option ℕ) × ChannelSlots → (ℕ → Result (T × U)) → Result U × ChannelSlots
    unfolding reuse_freed
    after_scan (ok (some channel_id), s) make_entry = fill s channel_id make_entry
    after_scan (ok none, s) make_entry = reuse_freed s make_entry
    after_scan (err e, s) make_entry = (err e, s)
    after_scan (panicked, s) make_entry = (panicked, s)
    after_scan (out_of_fuel, s) make_entry = (out_of_fuel, s)

    unfoldable pub insert_unused_channel_id :
        ℕ → ChannelSlots → (ℕ → Result (T × U)) → Result U × ChannelSlots
    unfolding after_scan
    insert_unused_channel_id fuel s make_entry = after_scan (scan fuel s) make_entry

    unfoldable pub insert :
        ℕ → ChannelSlots → Option ℕ → (ℕ → Result (T × U)) → Result U × ChannelSlots
    unfolding insert_unused_channel_id
    insert fuel s none make_entry = insert_unused_channel_id fuel s make_entry
    insert fuel s (some channel_id) make_entry =
        if ltb s.channel_max channel_id
        then (err (unavailable_channel_id channel_id), s)
        else if is_some (get s channel_id)
        then (err (unavailable_channel_id channel_id), s)
        else fill s channel_id make_entry
