-- ===== src/Broadcast/Store.antt =====
-- The block store (broadcast/store.go) over any database: its reads and writes. The mutex is left out.

pub mod Growing
pub mod Heads
pub mod OwnBlock
pub mod Received
pub mod Rounds
use blockmania.Prelude.{
  ℕ, zero, suc, ◌+◌, ◌^◌, List, [], ◌∷◌, ◌++◌, map, Option, none, some, Bool, length, take, drop,
  ltb, if◌then◌else◌, maybe,
}
use blockmania.Consensus.Block.{Hash, BlockId, Dep, BlockGraph, Interpreted}
use blockmania.Broadcast.Words.{put_u16, put_u64, read_u16, read_u64}
use blockmania.Broadcast.Wire.{SignedData, Codec}
use blockmania.Broadcast.Database.{Database}
use blockmania.Broadcast.Keys.{
  block_key, block_graph_key, included_key, not_included_key, interpreted_key, own_block_key,
  last_block_ref_prefix, last_hash_prefix, last_interpreted_prefix, last_round_prefix,
  round_acknowledged_prefix,
}
use blockmania.Broadcast.Graphs.{encode_block_graph}
use blockmania.Broadcast.Depgraph.{Store, missing, found}
use blockmania.Broadcast.Replies.{
  Reply, returned, failed, crashed, ◌>>=◌, db_closed, key_not_found, bad_message, of_decoded,
}

-- `store`, with the content of its database.
pub record BlockStore (D : Type 0) : Type 0 where
  pub closed : Bool
  pub content : D

-- `blockKey` for each block, behind its length: the value that `setInterpreted` writes for a round.
unfoldable pub encode_keys : List BlockId → List ℕ
encode_keys [] = []
encode_keys (id ∷ ids) = put_u16 (length (block_key id)) ++ (block_key id ++ encode_keys ids)

module _ {D : Type 0} where
  -- `if s.closed { return errDBClosed }`, and the transaction.
  abbrev pub with_open : {A : Type 0} → BlockStore D → (D → Reply A) → Reply A
  with_open s txn = if s.closed then failed db_closed else txn s.content

module _ {D : Type 0} (db : Database D) where
  -- `txn.Get` and `item.Value`.
  abbrev pub fetch : List ℕ → D → Reply (List ℕ)
  fetch key d = maybe (db.get key d) (failed key_not_found) returned

  -- `getDeliverAcknowledged` and `setDeliverAcknowledged`.
  unfoldable pub get_deliver_acknowledged : BlockStore D → Reply ℕ
  get_deliver_acknowledged s = with_open s λ d. fetch (round_acknowledged_prefix ∷ []) d >>= λ val.
      of_decoded (read_u64 val) >>= λ (round, rest). returned round

  unfoldable pub set_deliver_acknowledged : BlockStore D → ℕ → Reply (BlockStore D)
  set_deliver_acknowledged s round = with_open s λ d.
      returned
        (record s { content = db.put_key (round_acknowledged_prefix ∷ []) (put_u64 round) d })

  -- `setInterpreted`.
  unfoldable pub set_interpreted : BlockStore D → Interpreted → Reply (BlockStore D)
  set_interpreted s i = with_open s λ d. returned (record s {
    content = db.put_key (last_interpreted_prefix ∷ []) (put_u64 i.round ++ put_u64 i.consumed) (
        db.put_key (interpreted_key i.round) (put_u64 (length i.blocks) ++ encode_keys i.blocks) d);
  })

  -- `getLastInterpreted`.
  unfoldable pub get_last_interpreted : BlockStore D → Reply (ℕ × ℕ)
  get_last_interpreted s = with_open s λ d. fetch (last_interpreted_prefix ∷ []) d >>= λ val.
      of_decoded (read_u64 val) >>= λ (round, val').
      of_decoded (read_u64 val') >>= λ (consumed, rest). returned (round, consumed)

  -- The loops over `refkeys` and `delkeys` of `setOwnBlock`.
  unfoldable pub mark_deps : List Dep → D → D
  mark_deps [] d = d
  mark_deps (dep ∷ deps) d = mark_deps deps (db.put_key (included_key dep.block) (1 ∷ []) d)

  unfoldable pub unmark_deps : List Dep → D → D
  unmark_deps [] d = d
  unmark_deps (dep ∷ deps) d = unmark_deps deps (db.drop_key (not_included_key dep.block) d)

  -- The store as the graph of waiting blocks reads it.
  unfoldable pub for_depgraph : BlockStore D → Store
  for_depgraph s = record {
    closed = s.closed;
    get = λ key. maybe (db.get key s.content) missing found;
  }

module _ {D : Type 0} (db : Database D) (codec : Codec SignedData) where
  unfoldable pub fetch_signed : List ℕ → D → Reply SignedData
  fetch_signed key d =
      fetch db key d >>= λ val. maybe (codec.unmarshal val) (failed bad_message) returned

  -- `getBlock` and `getOwnBlock`.
  unfoldable pub get_block : BlockStore D → BlockId → Reply SignedData
  get_block s id = with_open s (fetch_signed (block_key id))

  unfoldable pub get_own_block : BlockStore D → ℕ → Reply SignedData
  get_own_block s round = with_open s (fetch_signed (own_block_key round))

  -- `getBlocks`.
  unfoldable pub fetch_blocks : List BlockId → D → Reply (List SignedData)
  fetch_blocks [] d = returned []
  fetch_blocks (id ∷ ids) d = fetch_signed (block_key id) d >>= λ block.
      fetch_blocks ids d >>= λ blocks. returned (block ∷ blocks)

  unfoldable pub get_blocks : BlockStore D → List BlockId → Reply (List SignedData)
  get_blocks s ids = with_open s (fetch_blocks ids)

  -- The loop of `getInterpreted`.
  unfoldable pub read_blocks : ℕ → List ℕ → D → Reply (List SignedData)
  read_blocks zero val d = returned []
  read_blocks (suc n) val d = of_decoded (read_u16 val) >>= λ (size, val').
      if ltb (length val') size
      then crashed
      else fetch_signed (take size val') d >>= λ block.
          read_blocks n (drop size val') d >>= λ blocks. returned (block ∷ blocks)

  unfoldable pub get_interpreted : BlockStore D → ℕ → Reply (List SignedData)
  get_interpreted s round = with_open s λ d. fetch db (interpreted_key round) d >>= λ val.
      of_decoded (read_u64 val) >>= λ (n, val'). read_blocks n val' d

  -- `getLastRoundData`: the round, the hash and the reference of the node's last block.
  unfoldable pub get_last_round_data : BlockStore D → Reply (ℕ × Hash × SignedData)
  get_last_round_data s = with_open s λ d. fetch db (last_hash_prefix ∷ []) d >>= λ hash.
      fetch db (last_round_prefix ∷ []) d >>= λ val. of_decoded (read_u64 val) >>= λ (round, rest).
      fetch_signed (last_block_ref_prefix ∷ []) d >>= λ block_ref. returned (round, hash, block_ref)

  -- `setBlock`: a block with an `included` entry has been set before.
  unfoldable pub set_block : BlockStore D → BlockId → SignedData → Reply (BlockStore D)
  set_block s id block = with_open s λ d.
      maybe (db.get (included_key id) d)
        (returned (record s {
          content =
              db.put_key (block_key id) (codec.marshal block)
                (db.put_key (not_included_key id) [] (db.put_key (included_key id) (0 ∷ []) d));
        }))
        (λ val. returned s)

  -- The first five writes of `setOwnBlock`.
  unfoldable pub put_own_block : SignedData → SignedData → BlockGraph → D → D
  put_own_block block block_ref graph d =
      db.put_key (last_round_prefix ∷ []) (put_u64 graph.block.round) (
        db.put_key (last_hash_prefix ∷ []) graph.block.hash (
          db.put_key (block_graph_key graph.block) (encode_block_graph graph) (
            db.put_key (last_block_ref_prefix ∷ []) (codec.marshal block_ref)
              (db.put_key (block_key graph.block) (codec.marshal block) d))))

  unfoldable pub set_own_block :
      BlockStore D → SignedData → SignedData → BlockGraph → Reply (BlockStore D)
  set_own_block s block block_ref graph = with_open s λ d. returned (record s {
    content = db.put_key (own_block_key graph.block.round) (codec.marshal block) (
        unmark_deps db graph.deps
          (mark_deps db graph.deps (put_own_block block block_ref graph d)));
  })
