-- ===== src/Consensus/Graph/Deliver.antt =====
-- `deliver` and `deliverRound`: a decided block is noted, and a round in which every node is decided
-- is handed to the callback.
pub mod Frame
pub mod Sorting
pub mod Single
pub mod Order
pub mod Fuel
use blockmania.Prelude.{
  ℕ, zero, suc, ◌+◌, List, [], ◌∷◌, ◌++◌, Option, none, some, Bool, true, false, ◌&&◌, Map, find,
  put, delete, nat_key, length, ltb, ◌==◌, if◌then◌else◌, Outcome, ok, fault, index_out_of_range,
  mismatched_hash, out_of_fuel, ◌>>=◌, add_u64, sub_u64, ite, ℕ_discrete, not,
}
use blockmania.Consensus.Block.{Hash, BlockId, Dep, BlockGraph, Interpreted, is_set, block_id_key}
use blockmania.Consensus.State.{State}
use blockmania.Consensus.Graph.{Graph, BlockInfo}

-- The order of Go strings.
unfoldable pub hash_lt : Hash → Hash → Bool
hash_lt xs [] = false
hash_lt [] (y ∷ ys) = true
hash_lt (x ∷ xs) (y ∷ ys) = if ltb x y then true else if ltb y x then false else hash_lt xs ys

unfoldable pub hash_eq : Hash → Hash → Bool
hash_eq [] [] = true
hash_eq [] (y ∷ ys) = false
hash_eq (x ∷ xs) [] = false
hash_eq (x ∷ xs) (y ∷ ys) = if x == y then hash_eq xs ys else false

-- The blocks of a round with a hash: the first loop of `deliverRound`.
unfoldable pub round_blocks : ℕ → Map ℕ Hash → List BlockId
round_blocks round [] = []
round_blocks round ((node, hash) ∷ hashes) =
    let rest = round_blocks round hashes in
    if is_set hash then record { hash = hash; node = node; round = round } ∷ rest else rest

-- `sort.Slice` by hash, by insertion.
unfoldable pub insert_block : BlockId → List BlockId → List BlockId
unfolding hash_lt
insert_block b [] = b ∷ []
insert_block b (c ∷ cs) = if hash_lt c.hash b.hash then c ∷ insert_block b cs else b ∷ c ∷ cs

unfoldable pub sort_blocks : List BlockId → List BlockId
unfolding insert_block
sort_blocks [] = []
sort_blocks (b ∷ bs) = insert_block b (sort_blocks bs)

-- A block is forgotten: its entries leave `max` and `statess`.
abbrev pub forget : BlockId → Graph → Graph
forget b g = record g { max = delete b g.max; statess = delete b g.statess }

unfoldable pub forget_deps : List Dep → Graph → Graph
unfolding delete
forget_deps [] g = g
forget_deps (dep ∷ deps) g = forget_deps deps (forget dep.block g)

-- The loop over `graph.blocks`: the leading blocks that reach no further than the round are
-- consumed. It returns the count that `consumed` comes to, and leaves the other blocks.
unfoldable pub consume : ℕ → ℕ → List BlockInfo → Graph → Graph × ℕ
unfolding forget_deps
consume round consumed [] g = (record g { blocks = [] }, consumed)
consume round consumed (info ∷ infos) g =
    let rest =
      consume round (add_u64 consumed 1) infos
        (forget_deps info.graph.deps (forget info.graph.block g)) in
    if ltb round info.max then (record g { blocks = info ∷ infos }, consumed) else rest

-- `graph.blocks[0].data.Block.Round - 1`.
unfoldable pub first_consumed : List BlockInfo → Outcome ℕ
first_consumed [] = fault index_out_of_range
first_consumed (info ∷ infos) = ok (sub_u64 info.graph.block.round 1)

-- The end of `deliverRound`: the next round begins, and the callback is called.
unfoldable pub hand_over : ℕ → Map ℕ Hash → Graph × ℕ → Graph
unfolding round_blocks sort_blocks
hand_over round hashes (g, consumed) = record g {
  round = add_u64 g.round 1;
  delivered =
      g.delivered
      ++ (record {
        blocks = sort_blocks (round_blocks round hashes);
        consumed = consumed;
        round = round;
      }
          ∷ []);
}

-- One call of `deliverRound`, up to its test of the next round.
unfoldable pub deliver_one : Graph → ℕ → Map ℕ Hash → Outcome Graph
unfolding hand_over consume first_consumed delete
deliver_one g round hashes = do
  first ← first_consumed g.blocks
  ok (
      hand_over round hashes
        (consume round first g.blocks (record g { resolved = delete round g.resolved })))

-- The end of `deliverRound`: the call for the next round, if every node is decided there.
unfoldable pub next_round : (Map ℕ Hash → Outcome Graph) → ℕ → Graph → Outcome Graph
unfolding find
next_round again round g = elim (find (add_u64 round 1) g.resolved) [
  | none ↦ ok g
  | some next ↦ if length next == g.peer_count then again next else ok g
]

-- `deliverRound`. Each call takes a round out of `resolved`, so the calls are no more than its
-- entries.
unfoldable pub deliver_round : ℕ → Graph → ℕ → Map ℕ Hash → Outcome Graph
unfolding deliver_one next_round
deliver_round zero g round hashes = fault out_of_fuel
deliver_round (suc fuel) g round hashes = deliver_one g round hashes >>= λ g'.
    next_round (λ next. deliver_round fuel g' (add_u64 round 1) next) round g'

-- The first half of `deliver`: the hash is noted under its round and node.
unfoldable pub note_hash : Graph → ℕ → ℕ → Hash → Outcome (Graph × Map ℕ Hash)
unfolding find put hash_eq
note_hash g node round hash = elim (find round g.resolved) [
  | some hashes ↦ elim (find node hashes) [
    | some curhash ↦ if hash_eq curhash hash then ok (g, hashes) else fault mismatched_hash
    | none ↦
        let hashes' = put node hash hashes in
        ok (record g { resolved = put round hashes' g.resolved }, hashes')
  ]
  | none ↦
      let hashes' : Map ℕ Hash = (node, hash) ∷ [] in
      ok (record g { resolved = put round hashes' g.resolved }, hashes')
]

unfoldable pub deliver : Graph → ℕ → ℕ → Hash → Outcome Graph
unfolding note_hash deliver_round
deliver g node round hash =
    if ltb round g.round
    then ok g
    else note_hash g node round hash >>= λ (g', hashes).
        if round == g'.round && length hashes == g'.peer_count
        then deliver_round (suc (length g'.resolved)) g' round hashes
        else ok g'
