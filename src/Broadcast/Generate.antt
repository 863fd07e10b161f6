-- ===== src/Broadcast/Generate.antt =====
-- The generation of a block: one turn of the loop of `genBlocks` (broadcast/broadcast.go) without the
-- clock and the rate limit, and `setOwnBlock` of the service.
pub mod Accepted
use blockmania.Prelude.{
  ℕ, ◌+◌, ◌%◌, List, [], ◌∷◌, ◌++◌, Option, none, some, ◌==◌, if◌then◌else◌, add_u64, sub_u64,
}
use blockmania.Consensus.Block.{Hash, BlockId, Dep, BlockGraph, no_block}
use blockmania.Broadcast.Wire.{SignedData, Block, BlockReference, Codec}
use blockmania.Broadcast.Database.{Database}
use blockmania.Broadcast.Cache
use blockmania.Broadcast.Replies.{Reply, returned, failed, crashed}
use blockmania.Broadcast.Depgraph.{BlockData, Depgraph, actually_included, get_blocks}
use blockmania.Broadcast.Store
use blockmania.Broadcast.Store.{BlockStore, for_depgraph}
use blockmania.Broadcast.Transactions.{TxQueue, take_transactions}
use blockmania.Broadcast.Checks.{Crypto}
use blockmania.Broadcast.Service.{Service}

-- The service with the fields that `genBlocks` reads or changes; `sent_on` has the calls of `graph.Add`.
pub record Author (D : Type 0) : Type 0 where
  pub service : Service D
  pub node : ℕ
  pub prevhash : Hash
  pub prevref : Option SignedData
  pub ref_size_limit : ℕ
  pub txs : TxQueue
  pub sent_on : List BlockGraph

abbrev pub refs_of : List BlockData → List SignedData
refs_of [] = []
refs_of (info ∷ infos) = info.ref ∷ refs_of infos

abbrev pub graph_deps : List BlockData → List Dep
graph_deps [] = []
graph_deps (info ∷ infos) =
    record { block = info.id; deps = info.deps; prev = info.prev } ∷ graph_deps infos

-- The calls of `actuallyIncluded`.
abbrev pub forget_all : List BlockData → Depgraph → Depgraph
forget_all [] d = d
forget_all (info ∷ infos) d = forget_all infos (actually_included info.id d)

module _ {K : Type 0} (crypto : Crypto K) (sign : List ℕ → List ℕ) where
  -- A reference, signed by the node.
  abbrev pub signed_ref : BlockReference → SignedData
  signed_ref ref = record {
    content = crypto.refs.marshal ref;
    signature = sign (crypto.refs.marshal ref);
  }

  module _ {D : Type 0} where
    -- The block to come, from the blocks that `getBlocks` took.
    abbrev pub next_block : Author D → List BlockData → Block
    next_block a infos = record {
      node = a.node;
      previous = a.prevref;
      references = refs_of infos;
      round = add_u64 a.service.round 1;
      transactions = (take_transactions a.txs).0;
    }

    abbrev pub next_ref : Author D → List BlockData → BlockReference
    next_ref a infos = record {
      hash = crypto.sha (crypto.blocks.marshal (next_block a infos));
      node = a.node;
      round = add_u64 a.service.round 1;
    }

    -- `signed`.
    abbrev pub next_signed : Author D → List BlockData → SignedData
    next_signed a infos = record {
      content = crypto.blocks.marshal (next_block a infos);
      signature = sign (crypto.refs.marshal (next_ref a infos));
    }

    -- `graph`.
    abbrev pub next_graph : Author D → List BlockData → BlockGraph
    next_graph a infos = record {
      block = record {
        hash = (next_ref a infos).hash;
        node = a.node;
        round = add_u64 a.service.round 1;
      };
      prev = if add_u64 a.service.round 1 == 1 then no_block else record {
        hash = a.prevhash;
        node = a.node;
        round = sub_u64 (add_u64 a.service.round 1) 1;
      };
      deps = graph_deps infos;
    }

    module _ (db : Database D) (codec : Codec SignedData) where
      -- What is left when the store has written the block.
      abbrev pub after_own : Author D → List BlockData → Depgraph → BlockStore D → Author D
      after_own a infos depgraph store =
          let round = add_u64 a.service.round 1 in
          let cached = Cache.set_block round (next_signed a infos) a.service.own_blocks in
          record a {
            service = record a.service {
              store = store;
              depgraph = forget_all infos (record depgraph { store = for_depgraph db store });
              own_blocks = if round % 50 == 0 then Cache.prune 50 cached else cached;
              round = round;
            };
            prevhash = (next_ref a infos).hash;
            prevref = some (signed_ref (next_ref a infos));
            txs = (take_transactions a.txs).1;
            sent_on = a.sent_on ++ (next_graph a infos ∷ []);
          }

      -- `none` is a call of `log.Fatal`.
      abbrev pub settle_own :
          Author D → List BlockData → Depgraph → Reply (BlockStore D) → Option (Author D)
      settle_own a infos depgraph (returned store) = some (after_own a infos depgraph store)
      settle_own a infos depgraph (failed e) = none
      settle_own a infos depgraph crashed = none

      unfoldable pub gen_block : Author D → Option (Author D)
      gen_block a =
          let (depgraph, infos) = get_blocks a.ref_size_limit a.service.depgraph in
          settle_own a infos depgraph (
            Store.set_own_block db codec a.service.store (next_signed a infos)
              (signed_ref (next_ref a infos)) (next_graph a infos))
