-- ===== src/Tests/Store.antt =====
-- Concrete blocks in the store, on a concrete database.
use blockmania.Broadcast.Stream.{graph_prefix, replay}
use blockmania.Broadcast.Stream.Replayed.{IsStoredGraph}
use blockmania.Broadcast.Stream.Stored.{IsGraphOf, replay-stored}
use mathlib.Core.List.Memᴰ.{head, tail}
use blockmania.Broadcast.Graphs.{encode_block_graph}
use blockmania.Broadcast.Graphs.RoundTrip.{FitsId}
use blockmania.Prelude.{ℕ, true, List, [], ◌∷◌, false, ◌≡◌, refl, arith, find, ◌++◌, All, inl, inr}
use blockmania.Consensus.Block.{BlockId, BlockGraph, no_block}
use blockmania.Lexinum.{encode, encode_small}
use blockmania.Broadcast.Wire.{SignedData}
use blockmania.Broadcast.Replies.{returned}
use blockmania.Broadcast.Keys.{encode_block_id, block_key, block_graph_key}
use blockmania.Broadcast.Store.{BlockStore, set_own_block}
use blockmania.Broadcast.Store.OwnBlock.{OwnStored, set_own_block-OwnStored}
use blockmania.Broadcast.Missing.{node_prefix, get_missing}
use blockmania.Broadcast.Missing.Keyed.{IsBlockOf}
use blockmania.Broadcast.Missing.Stored.{IsExact, get_missing-IsExact}
use blockmania.Tests.Iterated.{starts_with-append, find-All, list_database-IsIterator}
use blockmania.Tests.Concrete.{
  starts_with, bytes_key, bytes_discrete, list_database, list_database-IsDatabase, signed_codec,
  signed_codec-IsCodec,
}

abbrev Bytes : Type 0
Bytes = List (List ℕ × List ℕ)

abbrev new_store : BlockStore Bytes
new_store = record { closed = false; content = [] }

abbrev third : BlockId
third = record { hash = 7 ∷ 8 ∷ []; node = 4; round = 3 }

abbrev other : BlockId
other = record { hash = 9 ∷ []; node = 5; round = 2 }

abbrev third_block : SignedData
third_block = record { content = 1 ∷ 2 ∷ []; signature = 3 ∷ [] }

abbrev third_ref : SignedData
third_ref = record { content = 5 ∷ []; signature = 3 ∷ [] }

abbrev third_graph : BlockGraph
third_graph = record {
  block = third;
  prev = no_block;
  deps = record { block = other; prev = no_block; deps = [] } ∷ [];
}

-- The own block of round 3, which brings in a block of node 5.
set_own_block-OwnStored_example :
    (s' : BlockStore Bytes) × (set_own_block list_database signed_codec new_store third_block
        third_ref third_graph
      ≡ returned s')
    × OwnStored list_database-IsDatabase signed_codec-IsCodec s' third_block third_ref third_graph
set_own_block-OwnStored_example =
    set_own_block-OwnStored list_database-IsDatabase signed_codec-IsCodec new_store third_block
      third_ref third_graph refl (omega arith)

-- The blocks of rounds 3 and 6 of node 4 came in, and one of node 5.
abbrev gappy_store : BlockStore Bytes
gappy_store = record {
  closed = false;
  content =
      (block_key (record third { round = 6 }), [])
      ∷ (block_key other, [])
      ∷ (block_key third, [])
      ∷ [];
}

-- The keys of node 4.
abbrev Known : List ℕ → Type 0
Known key = starts_with (node_prefix 4) key ≡ true → IsBlockOf 4 key

gappy-Known : All (λ entry. Known entry.0) gappy_store.content
unfolding block_key encode_block_id encode encode_small
gappy-Known = (
  λ h. record { id = record third { round = 6 }; own = refl; room = omega arith; spelt = refl },
  (λ h. cc, (λ h. record { id = third; own = refl; room = omega arith; spelt = refl }, tt)),
)

get_missing-IsExact_example :
    (r : List ℕ × ℕ) × (get_missing list_database gappy_store 4 1 10 ≡ returned r)
    × IsExact list_database gappy_store.content 4 1 10 r
get_missing-IsExact_example =
    get_missing-IsExact list_database gappy_store 4 1 10 list_database-IsIterator refl (omega arith)
      (omega arith)
      (λ rest content there.
        find-All Known (node_prefix 4 ++ rest) content gappy_store.content gappy-Known there
          (starts_with-append (node_prefix 4) rest))

abbrev first_id : BlockId
first_id = record { hash = 7 ∷ []; node = 4; round = 1 }

abbrev first_graph : BlockGraph
first_graph = record { block = first_id; prev = no_block; deps = [] }

abbrev second_graph : BlockGraph
second_graph = record {
  block = record { hash = 8 ∷ []; node = 4; round = 2 };
  prev = first_id;
  deps = [];
}

-- The block graphs of the first two rounds of node 4.
abbrev graph_store : BlockStore Bytes
graph_store = record {
  closed = false;
  content =
      (block_graph_key second_graph.block, encode_block_graph second_graph)
      ∷ (block_graph_key first_id, encode_block_graph first_graph)
      ∷ [];
}

first_fits : FitsId first_id
unfolding encode_block_id encode encode_small
first_fits = record { node = omega arith; round = omega arith; short = omega arith }

graphs_stored :
    All (IsStoredGraph list_database graph_store.content) (first_graph ∷ second_graph ∷ [])
unfolding find bytes_discrete block_graph_key encode_block_id encode encode_small
graphs_stored = (
  record {
    there = refl;
    fits = record { prev = inr refl; few = omega arith; deps = tt };
    node = omega arith;
    round = omega arith;
  },
  (
    record {
      there = refl;
      fits = record { prev = inl (refl, first_fits); few = omega arith; deps = tt };
      node = omega arith;
      round = omega arith;
    },
    tt,
  ),
)

-- The keys of the block graphs of node 4.
abbrev Listed : List ℕ → Type 0
Listed key = IsGraphOf 4 1 (first_graph ∷ second_graph ∷ []) key

graph_store-Listed : All (λ entry. Listed entry.0) graph_store.content
graph_store-Listed = (
  record {
    id = second_graph.block;
    own = refl;
    fits = omega arith;
    spelt = refl;
    listed = inr (tail (head refl));
  },
  (
    record {
      id = first_id;
      own = refl;
      fits = omega arith;
      spelt = refl;
      listed = inr (head refl);
    },
    tt,
  ),
)

-- In batches of one.
replay-stored_example :
    replay list_database 2 graph_store 4 1 1 ≡ returned (first_graph ∷ second_graph ∷ [])
replay-stored_example =
    replay-stored list_database 2 graph_store 4 1 1 (first_graph ∷ second_graph ∷ [])
      list_database-IsIterator refl (omega arith) (omega arith) (omega arith) (omega arith)
      (refl, refl, (refl, refl, tt)) graphs_stored
      (λ rest content there.
        find-All Listed (graph_prefix 4 ++ rest) content graph_store.content graph_store-Listed
          there)
