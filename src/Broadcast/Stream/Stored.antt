-- ===== src/Broadcast/Stream/Stored.antt =====
-- The replay of the stored block graphs, in terms of what is in the store.
use blockmania.Prelude.{
  ℕ, zero, suc, ◌+◌, ◌≤◌, ◌<◌, List, [], ◌∷◌, ◌++◌, length, drop, false, some, All, IsU64, add_u64,
  ◌≡◌, ◌⊎◌, sym, ap, subst, ◌∙◌, inl, inr, arith, suc_le_zero,
}
use mathlib.Core.List.{Memᴰ, append_assoc}
use mathlib.Core.List.Memᴰ.{head, tail}
use blockmania.Consensus.Block.{BlockId, BlockGraph}
use blockmania.Lexinum.{encode}
use blockmania.Lexinum.Sorting.{less}
use blockmania.Broadcast.Database.{Database, IsIterator, IsVisited}
use blockmania.Broadcast.Keys.{
  block_prefix, block_graph_prefix, encode_block_id, block_key, block_graph_key,
}
use blockmania.Broadcast.Keys.Separated.{block_key-injective}
use blockmania.Broadcast.Graphs.{encode_block_graph}
use blockmania.Broadcast.Replies.{returned}
use blockmania.Broadcast.Store.{BlockStore}
use blockmania.Broadcast.Stream.{graph_prefix, replay}
use blockmania.Broadcast.Stream.Listed.{All-Memᴰ, IsSorted-unique}
use blockmania.Broadcast.Stream.Replayed.{graph_keys, IsStoredGraph, replay-graph_keys}
use blockmania.Broadcast.Stream.Runs.{IsRun, less-graph_start, IsRun-IsSorted}

-- The key of a block graph of the node before `from`, or of one of `gs`.
pub record IsGraphOf (node from : ℕ) (gs : List BlockGraph) (key : List ℕ) : Type 0 where
  pub id : BlockId
  pub own : id.node ≡ node
  pub fits : IsU64 id.round
  pub spelt : key ≡ block_graph_key id
  pub listed : (id.round < from) ⊎ Memᴰ key (graph_keys gs)

module _ {D : Type 0} (db : Database D) (it : IsIterator db) (d : D) (node : ℕ)
    (node_fits : IsU64 node) where
  abbrev keys : ℕ → List (List ℕ)
  keys from = db.keys_from (graph_prefix node) (graph_prefix node ++ encode from) d

  graph_key-IsVisited :
      (from : ℕ) (g : BlockGraph)
      → g.block.node ≡ node
      → from ≤ g.block.round
      → IsU64 from
      → IsStoredGraph db d g
      → IsVisited db
          (graph_prefix node)
          (graph_prefix node ++ encode from)
          d
          (block_graph_key g.block)
  unfolding block_graph_key encode_block_id
  graph_key-IsVisited from g own above fits stored =
      let rest = encode g.block.round ++ (0 ∷ g.block.hash) in
      record {
        rest = rest;
        behind = rw own (
            ap (λ bytes. block_graph_prefix ∷ bytes)
              (sym (append_assoc (encode node) (0 ∷ []) rest)));
        from = less-graph_start g.block node from own stored.round fits ∙ ground arith;
        content = encode_block_graph g;
        there = stored.there;
      }

  stored-IsVisited :
      (from : ℕ) (gs : List BlockGraph) (key : List ℕ) (start : ℕ)
      → start ≤ from
      → IsU64 (from + length gs)
      → IsRun node from gs
      → All (IsStoredGraph db d) gs
      → Memᴰ key (graph_keys gs)
      → IsVisited db (graph_prefix node) (graph_prefix node ++ encode start) d key
  stored-IsVisited from [] key start above fits run h m = elim m [ ]
  stored-IsVisited from (g ∷ gs) key start above fits (own, round, run) (stored, h) (head same) =
      subst (IsVisited db (graph_prefix node) (graph_prefix node ++ encode start) d) (sym same)
        (graph_key-IsVisited start g own (omega (arith, round)) (omega arith) stored)
  stored-IsVisited from (g ∷ gs) key start above fits (own, round, run) (stored, h) (tail m) =
      stored-IsVisited (from + 1) gs key start (omega arith) (omega arith) run h m

  visited_listed :
      (from : ℕ) (gs : List BlockGraph) (key : List ℕ)
      → IsU64 from
      → ((rest content : List ℕ)
          → db.get (graph_prefix node ++ rest) d ≡ some content
          → IsGraphOf node from gs (graph_prefix node ++ rest))
      → IsVisited db (graph_prefix node) (graph_prefix node ++ encode from) d key
      → Memᴰ key (graph_keys gs)
  visited_listed from gs key fits known v =
      let g : IsGraphOf node from gs key =
        subst (IsGraphOf node from gs) (sym v.behind)
          (known v.rest v.content (subst (λ k. db.get k d ≡ some v.content) v.behind v.there)) in
      elim g.listed [
        | inl below ↦
            let order =
              sym (less-graph_start g.id node from g.own g.fits fits)
              ∙ ap (λ k. less k (graph_prefix node ++ encode from)) (sym g.spelt)
              ∙ v.from in
            absurd (ground arith)
        | inr m ↦ m
      ]

  -- The keys that the iterator visits are those of the run.
  keys-graph_keys :
      (from : ℕ) (gs : List BlockGraph)
      → IsU64 (from + length gs)
      → IsRun node from gs
      → All (IsStoredGraph db d) gs
      → ((rest content : List ℕ)
          → db.get (graph_prefix node ++ rest) d ≡ some content
          → IsGraphOf node from gs (graph_prefix node ++ rest))
      → keys from ≡ graph_keys gs
  keys-graph_keys from gs fits run stored known =
      IsSorted-unique (keys from) (graph_keys gs)
        (it.sorted (graph_prefix node) (graph_prefix node ++ encode from) d)
        (IsRun-IsSorted node node_fits from gs fits run)
        (λ key m. visited_listed from gs key (omega arith) known (
          All-Memᴰ (IsVisited db (graph_prefix node) (graph_prefix node ++ encode from) d)
            (keys from) key (it.visited (graph_prefix node) (graph_prefix node ++ encode from) d)
            m))
        (λ key m.
          it.complete (graph_prefix node) (graph_prefix node ++ encode from) d key
            (stored-IsVisited from gs key from (omega arith) fits run stored m))

  IsGraphOf-tail :
      (from : ℕ) (g : BlockGraph) (gs : List BlockGraph) (key : List ℕ)
      → g.block.round ≡ from
      → IsU64 g.block.node
      → IsU64 g.block.round
      → IsGraphOf node from (g ∷ gs) key
      → IsGraphOf node (from + 1) gs key
  unfolding block_key block_graph_key
  IsGraphOf-tail from g gs key round fits_node fits k = record {
    id = k.id;
    own = k.own;
    fits = k.fits;
    spelt = k.spelt;
    listed = elim k.listed [
      | inl below ↦ inl (omega arith)
      | inr (head same) ↦
          let id : k.id ≡ g.block =
            block_key-injective k.id g.block (omega (arith, k.own)) k.fits fits_node fits
              (ap (λ bytes. block_prefix ∷ drop 1 bytes) (sym k.spelt ∙ same)) in
          let of_round : k.id.round ≡ g.block.round = ap (λ i. i.round) id in
          inl (omega (arith, round))
      | inr (tail m) ↦ inr m
    ];
  }

  keys_visited :
      (j from : ℕ) (gs : List BlockGraph)
      → j ≤ length gs
      → IsU64 (from + length gs)
      → IsRun node from gs
      → All (IsStoredGraph db d) gs
      → ((rest content : List ℕ)
          → db.get (graph_prefix node ++ rest) d ≡ some content
          → IsGraphOf node from gs (graph_prefix node ++ rest))
      → keys (from + j) ≡ graph_keys (drop j gs)
  keys_visited zero from gs within fits run stored known =
      let here : from + 0 ≡ from = omega arith in
      ap keys here ∙ keys-graph_keys from gs fits run stored known
  keys_visited (suc j) from [] within fits run stored known = elim (suc_le_zero within) [ ]
  keys_visited (suc j) from (g ∷ gs) within fits (own, round, run) (one, stored) known =
      let here : from + suc j ≡ (from + 1) + j = omega arith in
      ap keys here
      ∙ keys_visited j (from + 1) gs (omega arith) (omega arith) run stored (λ rest content there.
        IsGraphOf-tail from g gs (graph_prefix node ++ rest) round one.node one.round
          (known rest content there))

-- On an open store of a database whose iterator visits the stored keys in the order of their bytes: if
-- the store has one block graph of a node for each round from `from` on, and each other stored key with
-- the prefix of the node's block graphs is of a round before `from`, the replay in batches ends and
-- gives exactly these block graphs, each once, in order, when it may take a turn for each. The node and
-- the rounds are below 2 ^ 64.
pub replay-stored :
    {D : Type 0} (db : Database D) (turns : ℕ) (s : BlockStore D) (node from batch : ℕ)
    (gs : List BlockGraph)
    → IsIterator db
    → s.closed ≡ false
    → IsU64 node
    → IsU64 (from + length gs)
    → 0 < batch
    → length gs ≤ turns
    → IsRun node from gs
    → All (IsStoredGraph db s.content) gs
    → ((rest content : List ℕ)
        → db.get (graph_prefix node ++ rest) s.content ≡ some content
        → IsGraphOf node from gs (graph_prefix node ++ rest))
    → replay db turns s node from batch ≡ returned gs
replay-stored db turns s node from batch gs it is_open node_fits fits some_room enough run stored
      known =
    replay-graph_keys db turns s node from batch gs is_open (omega arith) some_room enough
      (λ j within.
        let no_wrap : add_u64 from j ≡ from + j = omega arith in
        ap (keys db it s.content node node_fits) no_wrap
        ∙ keys_visited db it s.content node node_fits j from gs within fits run stored known)
      stored
