-- ===== src/Broadcast/Delivery.antt =====
-- How interpreted rounds reach the node's callback (broadcast/broadcast.go): `blockmaniaCallback`,
-- `Register`, `Acknowledge`, and what a restart reads. The mutex `imu` is left out: a call is a step of
-- its own. The callback itself is left to the node: its calls are a list.
pub mod Logged
pub mod Idle
pub mod Exact
use blockmania.Prelude.{
  ℕ, zero, suc, ◌+◌, ◌-◌, List, [], ◌∷◌, ◌++◌, Bool, true, false, ◌==◌, if◌then◌else◌, add_u64,
}
use blockmania.Consensus.Block.{Interpreted}
use blockmania.Broadcast.Wire.{SignedData, Codec}
use blockmania.Broadcast.Database.{Database}
use blockmania.Broadcast.Replies.{
  Reply, returned, failed, crashed, db_closed, key_not_found, bad_message, bad_key,
}
use blockmania.Broadcast.Store.{
  BlockStore, get_blocks, get_interpreted, set_interpreted, get_last_interpreted,
  get_deliver_acknowledged, set_deliver_acknowledged,
}

-- The fields of `Service` for this: the store, whether `cb` is set, `interpreted`, and the calls of
-- the callback with their rounds and blocks, the oldest first.
pub record Delivery (D : Type 0) : Type 0 where
  pub store : BlockStore D
  pub registered : Bool
  pub interpreted : ℕ
  pub calls : List (ℕ × List SignedData)

-- `exits` is a call of `log.Fatal`.
pub data Served (D : Type 0) : Type 0 where
  served : Delivery D → Served D
  exits : Served D

infixl 5 ◌>>=◌
abbrev pub ◌>>=◌ : {D : Type 0} → Served D → (Delivery D → Served D) → Served D
served s >>= next = next s
exits >>= next = exits

module _ {D : Type 0} where
  -- A call of the store whose error is dropped.
  abbrev pub or_same : BlockStore D → Reply (BlockStore D) → BlockStore D
  or_same s (returned s') = s'
  or_same s (failed e) = s
  or_same s crashed = s

  -- `cb(round, blocks)`, where an error of the store is fatal.
  abbrev pub call_with : Delivery D → ℕ → Reply (List SignedData) → Served D
  call_with s round (returned blocks) =
      served (record s { calls = s.calls ++ ((round, blocks) ∷ []) })
  call_with s round (failed e) = exits
  call_with s round crashed = exits

  -- The acknowledged round, which is 0 where none is in the store; `next` is called with it.
  abbrev pub on_acknowledged : Reply ℕ → (ℕ → Served D) → Served D
  on_acknowledged (returned ack) next = next ack
  on_acknowledged (failed key_not_found) next = next 0
  on_acknowledged (failed db_closed) next = exits
  on_acknowledged (failed bad_message) next = exits
  on_acknowledged (failed (bad_key e)) next = exits
  on_acknowledged crashed next = exits

  -- The last interpreted round that a start reads.
  abbrev pub on_interpreted : Delivery D → Reply (ℕ × ℕ) → Served D
  on_interpreted s (returned (round, consumed)) =
      served (record s { interpreted = round; registered = false })
  on_interpreted s (failed key_not_found) =
      served (record s { interpreted = 0; registered = false })
  on_interpreted s (failed db_closed) = exits
  on_interpreted s (failed bad_message) = exits
  on_interpreted s (failed (bad_key e)) = exits
  on_interpreted s crashed = exits

  -- The end of the loop of `Register`. Behind round 2 ^ 64 - 1 it goes on with round 0, which no
  -- interpreter hands over, so that it ends in `log.Fatal`.
  abbrev pub after_last : Delivery D → Served D
  after_last s = if add_u64 s.interpreted 1 == 0 then exits else served s

module _ {D : Type 0} (db : Database D) where
  -- `Acknowledge`. The error of the store is dropped.
  unfoldable pub acknowledge : Delivery D → ℕ → Delivery D
  acknowledge s round = record s {
    store = or_same s.store (set_deliver_acknowledged db s.store round);
  }

  -- A new process over the same store: `loadState` reads the last interpreted round, and no callback
  -- is registered.
  unfoldable pub restart : Delivery D → Served D
  restart s = on_interpreted s (get_last_interpreted db s.store)

module _ {D : Type 0} (db : Database D) (codec : Codec SignedData) where
  -- `blockmaniaCallback`. The error of `setInterpreted` is dropped.
  unfoldable pub blockmania_callback : Delivery D → Interpreted → Served D
  blockmania_callback s i =
      let s' = record s { store = or_same s.store (set_interpreted db s.store i) } in
      if s.registered
      then call_with s' i.round (get_blocks db codec s'.store i.blocks)
      else served (record s' { interpreted = i.round })

  -- The loop of `Register` over the rounds from `i` on, with so many turns left.
  unfoldable pub replay_rounds : ℕ → ℕ → Delivery D → Served D
  replay_rounds zero i s = served s
  replay_rounds (suc turns) i s =
      call_with s i (get_interpreted db codec s.store i) >>= λ s'. replay_rounds turns (i + 1) s'

  -- `Register`. The loop runs from `ack + 1` to `s.interpreted`.
  unfoldable pub register : Delivery D → Served D
  register s =
      if s.registered
      then exits
      else on_acknowledged (get_deliver_acknowledged db s.store) (λ ack.
        replay_rounds (s.interpreted + 1 - add_u64 ack 1) (add_u64 ack 1)
          (record s { registered = true })
        >>= after_last)

  -- The rounds that the interpreter hands over, one call after the other.
  unfoldable pub deliver_all : Delivery D → List Interpreted → Served D
  deliver_all s [] = served s
  deliver_all s (i ∷ is) = blockmania_callback s i >>= λ s'. deliver_all s' is
