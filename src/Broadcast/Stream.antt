-- ===== src/Broadcast/Stream.antt =====
-- The stored block graphs in the order of their rounds: `getBlockGraphs` of broadcast/store.go, and the
-- loops over it in `replayGraphChanges` of broadcast/broadcast.go and in broadcast/replay.go.
pub mod Replayed
pub mod Listed
pub mod Runs
pub mod Stored
use blockmania.Prelude.{
  ℕ, zero, suc, ◌+◌, List, [], ◌∷◌, ◌++◌, length, drop, ltb, ◌==◌, if◌then◌else◌, add_u64,
}
use blockmania.Consensus.Block.{BlockGraph}
use blockmania.Lexinum.{encode}
use blockmania.Broadcast.Database.{Database}
use blockmania.Broadcast.Keys.{block_graph_prefix, decode_block_id}
use blockmania.Broadcast.Graphs.{decode_block_graph}
use blockmania.Broadcast.Replies.{Reply, returned, crashed, ◌>>=◌, of_decoded}
use blockmania.Broadcast.Store.{BlockStore, with_open, fetch}

-- The prefix of a node's block graphs.
abbrev pub graph_prefix : ℕ → List ℕ
graph_prefix node = block_graph_prefix ∷ (encode node ++ (0 ∷ []))

module _ {D : Type 0} (db : Database D) where
  -- The loop over the keys, with the number of block graphs so far.
  unfoldable pub collect_graphs : ℕ → ℕ → List (List ℕ) → D → Reply (List BlockGraph)
  collect_graphs limit count [] d = returned []
  collect_graphs limit count (key ∷ keys) d = of_decoded (decode_block_id (drop 1 key)) >>= λ id.
      fetch db key d >>= λ val. of_decoded (decode_block_graph id val) >>= λ graph.
      let rest = collect_graphs limit (count + 1) keys d in
      if count + 1 == limit
      then returned (graph ∷ [])
      else rest >>= λ graphs. returned (graph ∷ graphs)

  -- `getBlockGraphs`.
  unfoldable pub get_block_graphs : BlockStore D → ℕ → ℕ → ℕ → Reply (List BlockGraph)
  get_block_graphs s node from limit = with_open s λ d.
      collect_graphs limit 0 (db.keys_from (graph_prefix node) (graph_prefix node ++ encode from) d)
        d

  -- The loop that gives the block graphs to the interpreter, batch after batch, for at most `turns` turns
  -- after the first.
  unfoldable pub replay : ℕ → BlockStore D → ℕ → ℕ → ℕ → Reply (List BlockGraph)
  replay zero s node from batch = get_block_graphs s node from batch >>= λ graphs.
      if ltb (length graphs) batch then returned graphs else crashed
  replay (suc turns) s node from batch =
      let rest = replay turns s node (add_u64 from batch) batch in
      get_block_graphs s node from batch >>= λ graphs.
      if ltb (length graphs) batch
      then returned graphs
      else rest >>= λ more. returned (graphs ++ more)
