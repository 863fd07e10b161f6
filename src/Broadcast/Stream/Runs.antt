-- ===== src/Broadcast/Stream/Runs.antt =====
-- Block graphs of one node, one for each round, and the order of their keys.
use blockmania.Prelude.{
  ℕ, ◌+◌, ◌<◌, List, [], ◌∷◌, ◌++◌, length, true, ltb, All, IsU64, ◌≡◌, sym, ◌∙◌, arith,
}
use blockmania.Consensus.Block.{BlockId, BlockGraph}
use blockmania.Lexinum.{encode}
use blockmania.Lexinum.Sorting.{less, less-cons}
use blockmania.Broadcast.Database.{IsSorted}
use blockmania.Broadcast.Keys.{block_graph_prefix, encode_block_id, block_graph_key}
use blockmania.Broadcast.Keys.Sorted.{less-encode_block_id, less-encode_block_id_from}
use blockmania.Broadcast.Stream.{graph_prefix}
use blockmania.Broadcast.Stream.Replayed.{graph_keys}

-- One block graph of the node for each round from `from` on.
abbrev pub IsRun : ℕ → ℕ → List BlockGraph → Type 0
IsRun node from [] = Unit {0}
IsRun node from (g ∷ gs) = (g.block.node ≡ node) × (g.block.round ≡ from) × IsRun node (from + 1) gs

pub less-graph_start :
    (id : BlockId) (node from : ℕ)
    → id.node ≡ node
    → IsU64 id.round
    → IsU64 from
    → less (block_graph_key id) (graph_prefix node ++ encode from) ≡ ltb id.round from
unfolding block_graph_key
less-graph_start id node from own fits fits_from =
    less-cons block_graph_prefix (encode_block_id id) ((encode node ++ (0 ∷ [])) ++ encode from)
    ∙ less-encode_block_id_from id node from own fits fits_from

less-block_graph_key :
    (a b : BlockId)
    → IsU64 a.node
    → IsU64 b.round
    → a.node ≡ b.node
    → a.round < b.round
    → less (block_graph_key a) (block_graph_key b) ≡ true
unfolding block_graph_key
less-block_graph_key a b node fits same below =
    let order = less-encode_block_id a b node (omega arith) (omega arith) fits in
    less-cons block_graph_prefix (encode_block_id a) (encode_block_id b) ∙ order ∙ ground arith

module _ (node : ℕ) (node_fits : IsU64 node) where
  IsRun-above :
      (g : BlockGraph) (from : ℕ) (gs : List BlockGraph)
      → g.block.node ≡ node
      → g.block.round < from
      → IsU64 (from + length gs)
      → IsRun node from gs
      → All (λ key. less (block_graph_key g.block) key ≡ true) (graph_keys gs)
  IsRun-above g from [] own below fits run = tt
  IsRun-above g from (h ∷ gs) own below fits (own_h, round_h, run) = (
    less-block_graph_key g.block h.block (omega (arith, own)) (omega (arith, round_h))
        (own ∙ sym own_h) (omega (arith, round_h)),
    IsRun-above g (from + 1) gs own (omega arith) (omega arith) run,
  )

  pub IsRun-IsSorted :
      (from : ℕ) (gs : List BlockGraph)
      → IsU64 (from + length gs)
      → IsRun node from gs
      → IsSorted (graph_keys gs)
  IsRun-IsSorted from [] fits run = tt
  IsRun-IsSorted from (g ∷ gs) fits (own, round, run) = (
    IsRun-above g (from + 1) gs own (omega (arith, round)) (omega arith) run,
    IsRun-IsSorted (from + 1) gs (omega arith) run,
  )
