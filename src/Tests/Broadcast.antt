-- ===== src/Tests/Broadcast.antt =====
-- Concrete blocks in the caches, the keys and the store.
use blockmania.Prelude.{
  List, find, put, delete, ℕ, ◌-◌, ltb, ◌==◌, ◌^◌, [], ◌∷◌, ◌≡◌, ◌||◌, refl, some, none, inl, inr,
  arith, leb, length, if◌then◌else◌, Outcome, ok, fault, false, Meets, ◌++◌, ◌≤◌, ℕ_discrete,
}
use blockmania.Consensus.Block.{BlockId, BlockId-discrete, BlockGraph, no_block}
use blockmania.Lexinum.{value, encode, encode_big, encode_small, width, chars}
use blockmania.Broadcast.Cache.{OwnBlocks, get_block, prune, set_block}
use blockmania.Broadcast.Cache.Gapless.{
  Event, came_in, sequence_set, Tracks, after_all, after_all-Tracks,
}
use blockmania.Broadcast.Cache.Pruning.{prune-set_block}
use blockmania.Broadcast.Keys.{block_key, included_key, encode_block_id}
use blockmania.Broadcast.Keys.Sorted.{less-block_key}
use blockmania.Lexinum.Sorting.{less}
use blockmania.Broadcast.Depgraph.Moved.{IsById, put_by_id}
use blockmania.Broadcast.Depgraph.Settled.{IsHandled, handle-IsHandled}
use blockmania.Broadcast.Depgraph.{
  BlockData, Depgraph, missing, handle, get_blocks, process_block, is_included, known, is_stored,
  check_prev, check_dep, check_deps, settle, mark_included, add_pending, await_deps, await_dep,
  advance_times, advance, advance_from, visit, visit_one, finish,
}
use blockmania.Broadcast.Depgraph.Ready.{Grew}
use blockmania.Broadcast.Depgraph.Queue.{handle-Grew}
use blockmania.Broadcast.Depgraph.Batch.{total_size, Overflows, get_blocks_lem}
use blockmania.Broadcast.Graphs.{encode_block_graph, decode_block_graph}
use blockmania.Broadcast.Graphs.RoundTrip.{FitsId, FitsGraph, decode_block_graph-encode_block_graph}

abbrev late_block : BlockId
late_block = record { hash = 0 ∷ 255 ∷ []; node = 3; round = 2 ^ 64 - 1 }

abbrev early_block : BlockId
early_block = record { hash = 7 ∷ []; node = 4; round = 1 }

-- Round 3 of node 1 came late, the sequence of node 2 was set to 2, and its round 4 is missing round 3.
abbrev history : List Event
history =
    came_in 1 3 ∷ came_in 2 4 ∷ sequence_set 2 2 ∷ came_in 1 2 ∷ came_in 2 1 ∷ came_in 1 1 ∷ []

after_all-Tracks_example : Tracks history (after_all history)
after_all-Tracks_example = after_all-Tracks history

abbrev three_blocks : OwnBlocks ℕ
three_blocks = record { blocks = (5, 50) ∷ (6, 60) ∷ (7, 70) ∷ []; latest = 7 }

prune-set_block_example :
    (get_block (prune 2 (set_block 8 80 three_blocks)) 8 ≡ some 80)
    × (get_block (prune 2 (set_block 8 80 three_blocks)) 5 ≡ (
        if leb (length (set_block 8 80 three_blocks).blocks) 2 || leb (8 - 2) 5
        then get_block (set_block 8 80 three_blocks) 5
        else none))
prune-set_block_example = prune-set_block 2 8 5 80 three_blocks (omega arith) (omega arith)

-- The key of round 1 of node 4 is not before the one of round 2 ^ 64 - 1 of node 3.
less-block_key_example : less (block_key early_block) (block_key late_block) ≡ (
    if early_block.node == late_block.node
    then if early_block.round == late_block.round
      then less early_block.hash late_block.hash
      else ltb early_block.round late_block.round
    else ltb early_block.node late_block.node)
less-block_key_example =
    less-block_key early_block late_block (omega arith) (omega arith) (omega arith) (omega arith)

late_fits : FitsId late_block
unfolding encode_block_id encode encode_big width chars
late_fits = record { node = omega arith; round = omega arith; short = omega arith }

early_fits : FitsId early_block
unfolding encode_block_id encode encode_small
early_fits = record { node = omega arith; round = omega arith; short = omega arith }

abbrev stored : BlockGraph
stored = record {
  block = late_block;
  deps = record { block = early_block; deps = late_block ∷ early_block ∷ []; prev = no_block } ∷ [];
  prev = early_block;
}

stored_fits : FitsGraph stored
stored_fits = record {
  prev = inl (refl, early_fits);
  few = omega arith;
  deps = (
    record {
      block = early_fits;
      prev = inr refl;
      few = omega arith;
      links = (late_fits, (early_fits, tt));
    },
    tt,
  );
}

decode_block_graph-encode_block_graph_example :
    decode_block_graph late_block (encode_block_graph stored) ≡ value stored
decode_block_graph-encode_block_graph_example =
    decode_block_graph-encode_block_graph stored stored_fits

-- The block of round 2 waits for the block of round 1, which is being handled.
abbrev later_block : BlockId
later_block = record { hash = 8 ∷ []; node = 4; round = 2 }

abbrev first_data : BlockData
first_data = record {
  deps = [];
  id = early_block;
  prev = no_block;
  ref = record { content = 1 ∷ []; signature = [] };
}

abbrev later_data : BlockData
later_data = record {
  deps = [];
  id = later_block;
  prev = early_block;
  ref = record { content = 1 ∷ 2 ∷ []; signature = [] };
}

abbrev waiting : Depgraph
waiting = record {
  await = (early_block, later_block ∷ []) ∷ [];
  blocks = [];
  icache = (later_block, false) ∷ [];
  input = [];
  pending = (later_block, later_data) ∷ [];
  self = 1;
  store = record { closed = false; get = λ key. missing };
  tcache = [];
}

abbrev queued : Outcome Depgraph → List BlockData
queued (ok d) = d.blocks
queued (fault f) = []

-- Both blocks are queued, in order.
handle_waiting : Outcome Depgraph
handle_waiting = handle 2 waiting first_data

both_queued : queued handle_waiting ≡ first_data ∷ later_data ∷ []
unfolding handle_waiting handle process_block is_included known is_stored check_prev check_dep
    check_deps settle mark_included add_pending await_deps await_dep advance_times advance
    advance_from visit visit_one finish find put delete included_key encode_block_id
    BlockId-discrete ℕ_discrete
both_queued = refl

handle-Grew_example : Meets (handle 2 waiting first_data) (Grew waiting)
handle-Grew_example = handle-Grew 2 waiting first_data

waiting-IsById : IsById waiting
unfolding find put
waiting-IsById id b = put_by_id later_data id b [] λ absent. cc

handle-IsHandled_example : (n : ℕ) × ((m : ℕ) → n ≤ m → IsHandled n m waiting first_data)
handle-IsHandled_example = handle-IsHandled waiting first_data waiting-IsById

abbrev full : Depgraph
full = record waiting { blocks = first_data ∷ later_data ∷ [] }

get_blocks_lem_example :
    ((get_blocks 150 full).1 ++ (get_blocks 150 full).0.blocks ≡ first_data ∷ later_data ∷ [])
    × (total_size (get_blocks 150 full).1 ≤ 150)
    × Overflows 150 (total_size (get_blocks 150 full).1) (get_blocks 150 full).0.blocks
get_blocks_lem_example = get_blocks_lem 150 full
