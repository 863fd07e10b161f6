-- ===== src/Broadcast/Service.antt =====
-- The handlers of the broadcast service (broadcast/broadcast.go). A handler returns the service that it
-- leaves and its answer, before the answer is encoded; the messages come decoded.
pub mod Backlog
pub mod Cached
pub mod Handled
pub mod Sending
use blockmania.Prelude.{
  ℕ, zero, suc, ◌+◌, ◌-◌, List, [], ◌∷◌, ◌++◌, map, Option, none, some, Map, find, put, nat_key,
  length, ltb, leb, ◌==◌, if◌then◌else◌, maybe, add_u64,
}
use blockmania.Consensus.Block.{BlockId}
use blockmania.Broadcast.Wire.{SignedData, BlockReference, Codec, data_size}
use blockmania.Broadcast.Database.{Database}
use blockmania.Broadcast.Cache
use blockmania.Broadcast.Cache.{OwnBlocks, ReceivedInfo, set_received}
use blockmania.Broadcast.Replies.{Reply, returned, failed, crashed}
use blockmania.Broadcast.Store
use blockmania.Broadcast.Store.{BlockStore, for_depgraph}
use blockmania.Broadcast.Depgraph.{BlockData, Depgraph, add_block}
use blockmania.Broadcast.Checks.{
  Crypto, Reason, Verdict, accepted, rejected, check_block, id_of_ref,
}

-- The fields of `Service` that its handlers read or change. `depgraph` has its view of the same store.
pub record Service (D : Type 0) : Type 0 where
  pub store : BlockStore D
  pub depgraph : Depgraph
  pub received : Map ℕ ReceivedInfo
  pub own_blocks : OwnBlocks SignedData
  pub round : ℕ
  pub sent : Map ℕ ℕ
  pub max_blocks : ℕ
  pub max_payload : ℕ

-- The answers: `OP_ACK_BROADCAST`, `OP_LIST_BLOCKS`, and the errors. `exits` is a call of `log.Fatal`.
pub data Answer : Type 0 where
  ack : ℕ → Answer
  list_blocks : List (Option SignedData) → Answer
  refused : Reason → Answer
  too_many exits : Answer

pub data Processed (D : Type 0) : Type 0 where
  taken : Service D → ℕ → Processed D
  turned_down : Reason → Processed D
  not_stored : Processed D

-- What `getUnsent` comes to: it waits for a new block, or it has blocks to send, or it ends the process.
pub data Unsent : Type 0 where
  up_to_date too_large_or_lost : Unsent
  unsent : List SignedData → Unsent

module _ {D : Type 0} where
  -- `s.sent[peerID] + 1`.
  abbrev pub next_unsent : Service D → ℕ → ℕ
  next_unsent s peer = add_u64 (maybe (find peer s.sent) 0 (λ round. round)) 1

  -- `markSent`.
  unfoldable pub mark_sent : Service D → ℕ → ℕ → Service D
  mark_sent s peer round = record s { sent = put peer round s.sent }

module _ {D : Type 0} (db : Database D) (codec : Codec SignedData) where
  -- `depgraph.add` and `received.set`, with the store that the block was written to.
  abbrev pub after_block : Service D → BlockData → BlockStore D → Service D
  after_block s info store = record s {
    store = store;
    depgraph = add_block info (record s.depgraph { store = for_depgraph db store });
    received = set_received s.received info.id.node info.id.round;
  }

  -- `if err := s.setBlock(id, signed); err != nil`.
  abbrev pub settle_block : Service D → BlockData → Reply (BlockStore D) → Processed D
  settle_block s info (returned store) = taken (after_block s info store) info.id.round
  settle_block s info (failed e) = not_stored
  settle_block s info crashed = not_stored

  -- The effects of `processBlock`.
  unfoldable pub take_block : Service D → SignedData → BlockData → Processed D
  take_block s signed info = settle_block s info (Store.set_block db codec s.store info.id signed)

  abbrev pub take_checked : Service D → SignedData → Verdict BlockData → Processed D
  take_checked s signed (accepted info) = take_block s signed info
  take_checked s signed (rejected reason) = turned_down reason

  -- What follows a call of `processBlock` in the loop of `handleBroadcastList`.
  abbrev pub go_on :
      Service D → (Service D → ℕ → Service D × Answer) → Processed D → Service D × Answer
  go_on s next (taken s' round) = next s' round
  go_on s next (turned_down reason) = (s, refused reason)
  go_on s next not_stored = (s, exits)

  module _ {K : Type 0} (crypto : Crypto K) (keys : Map ℕ K) where
    -- `processBlock`.
    unfoldable pub process_signed : Service D → SignedData → Processed D
    process_signed s signed = take_checked s signed (check_block crypto keys signed)

    -- The loop of `handleBroadcastList`, with the round of the last block.
    unfoldable pub broadcast_from : Service D → ℕ → List SignedData → Service D × Answer
    broadcast_from s last [] = (s, ack last)
    broadcast_from s last (block ∷ blocks) =
        go_on s (λ s' round. broadcast_from s' round blocks) (process_signed s block)

    unfoldable pub handle_broadcast_list : Service D → List SignedData → Service D × Answer
    handle_broadcast_list s blocks = broadcast_from s 0 blocks

  -- `getBlock`: a block that cannot be read is nil.
  abbrev pub or_nil : Reply SignedData → Option SignedData
  or_nil (returned block) = some block
  or_nil (failed e) = none
  or_nil crashed = none

  unfoldable pub block_or_nil : Service D → BlockReference → Option SignedData
  block_or_nil s ref = or_nil (Store.get_block db codec s.store (id_of_ref ref))

  unfoldable pub handle_get_blocks : Service D → List BlockReference → Service D × Answer
  handle_get_blocks s refs =
      if ltb s.max_blocks (length refs)
      then (s, too_many)
      else (s, list_blocks (map (block_or_nil s) refs))

  -- `getOwnBlock`: what the store had to give goes into the cache.
  unfoldable pub cache_reply : Service D → ℕ → Reply SignedData → Service D × Option SignedData
  cache_reply s round (returned block) =
      (record s { own_blocks = Cache.set_block round block s.own_blocks }, some block)
  cache_reply s round (failed e) = (s, none)
  cache_reply s round crashed = (s, none)

  unfoldable pub own_block : Service D → ℕ → Service D × Option SignedData
  own_block s round =
      maybe (Cache.get_block s.own_blocks round)
        (cache_reply s round (Store.get_own_block db codec s.store round))
        (λ block. (s, some block))

  -- The loop of `handleGetRounds`.
  unfoldable pub own_blocks_of : Service D → List ℕ → Service D × List SignedData
  own_blocks_of s [] = (s, [])
  own_blocks_of s (round ∷ rounds) =
      let (s', block) = own_block s round in
      let (s'', blocks) = own_blocks_of s' rounds in (s'', maybe block blocks (λ b. b ∷ blocks))

  unfoldable pub handle_get_rounds : Service D → List ℕ → Service D × Answer
  handle_get_rounds s rounds =
      if ltb s.max_blocks (length rounds)
      then (s, too_many)
      else let (s', blocks) = own_blocks_of s rounds in (s', list_blocks (map some blocks))

  -- The loop of `getUnsent` from the round `i` on, for the `turns` rounds up to the current one; `first`
  -- is its first round. If the current round is 2 ^ 64 - 1, the loop goes on with round 0, of which no
  -- node has a block, so that `getOwnBlock` calls `log.Fatal`.
  unfoldable pub unsent_from : ℕ → ℕ → ℕ → ℕ → Service D → List SignedData → Service D × Unsent
  unsent_from zero first i total s blocks =
      if add_u64 s.round 1 == 0 then (s, too_large_or_lost) else (s, unsent blocks)
  unsent_from (suc turns) first i total s blocks =
      let (s', block) = own_block s i in
      maybe block (s', too_large_or_lost)
        λ b.
          let rest =
            unsent_from turns first (i + 1) (total + data_size b) s' (blocks ++ (b ∷ [])) in
          if ltb s.max_payload (total + data_size b)
          then if i == first then (s', too_large_or_lost) else (s', unsent blocks)
          else rest

  -- One turn of the loop of `getUnsent`.
  unfoldable pub get_unsent : Service D → ℕ → Service D × Unsent
  get_unsent s peer =
      let last = next_unsent s peer in
      if leb last s.round
      then unsent_from (s.round + 1 - last) last last 0 s []
      else (s, up_to_date)
