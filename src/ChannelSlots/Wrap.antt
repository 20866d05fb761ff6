-- ===== src/ChannelSlots/Wrap.antt =====
-- `next_channel_id` at the end of u16.
use amiquip.Prelude.{ℕ, zero, suc, ◌+◌, ◌%◌, ◌≤◌, ◌<◌, ◌≡◌, refl, none, some, arith, ℕ_discrete}
use amiquip.HashMap
use amiquip.IndexSet.{IndexSet}
use amiquip.Errors.{Result, ok}
use amiquip.ChannelSlots.{ChannelSlots, u16_mod, get, put, fill, scan, insert}

module _ (I : IndexSet) (T U : Type 0) (make_entry : ℕ → Result (T × U)) where
  insert_next :
      (fuel n : ℕ) (s : ChannelSlots I T) (t : T) (u : U)
      → 0 < fuel
      → s.next_channel_id ≡ n
      → n ≤ s.channel_max
      → get I T s n ≡ none
      → make_entry n ≡ ok (t, u)
      → insert I T fuel s none make_entry ≡ (
        ok u,
        record s {
          slots = HashMap.insert ℕ_discrete s.slots n t;
          next_channel_id = (n + 1) % u16_mod;
        },
      )
  unfolding insert scan fill put
  insert_next zero n s t u room at within free made = absurd (omega arith)
  insert_next (suc fuel) n s t u room at within free made = ground arith

  -- At `channel_max` 65535, which is what the handshake settles on when neither side sets a limit,
  -- the request that takes id 65535 makes the next id 0, and the request after it is given id 0,
  -- the channel of the connection itself.
  pub wrap_allocates_zero :
      (fuel : ℕ) (s : ChannelSlots I T) (t u0 : T) (u v : U)
      → 0 < fuel
      → s.channel_max ≡ 65535
      → s.next_channel_id ≡ 65535
      → get I T s 65535 ≡ none
      → get I T s 0 ≡ none
      → make_entry 65535 ≡ ok (t, u)
      → make_entry 0 ≡ ok (u0, v)
      → ((insert I T fuel s none make_entry).0 ≡ ok u)
        × ((insert I T fuel (insert I T fuel s none make_entry).1 none make_entry).0 ≡ ok v)
        × (get I T (insert I T fuel (insert I T fuel s none make_entry).1 none make_entry).1 0
            ≡ some u0)
  unfolding get
  wrap_allocates_zero fuel s t u0 u v room max next free free0 made made0 =
      let s1 : ChannelSlots I T = record s {
        slots = HashMap.insert ℕ_discrete s.slots 65535 t;
        next_channel_id = 0;
      } in
      let first : insert I T fuel s none make_entry ≡ (ok u, s1) =
        insert_next fuel 65535 s t u room next (omega arith) free made in
      let free1 : get I T s1 0 ≡ none =
        ground (arith, HashMap.get-insert ℕ_discrete s.slots 65535 0 t) in
      let second = insert_next fuel 0 s1 u0 v room refl (omega arith) free1 made0 in
      rw (first, second) (refl, refl, ground (arith, HashMap.get-insert ℕ_discrete s1.slots 0 0 u0))
