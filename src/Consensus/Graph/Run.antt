-- ===== src/Consensus/Graph/Run.antt =====
-- `run`: a block of this node, with the blocks that it includes, enters the graph.
pub mod Rounds
use blockmania.Prelude.{
  ℕ, zero, suc, List, [], ◌∷◌, ◌++◌, Option, none, some, Bool, true, false, ◌&&◌, ◌||◌, Map, find,
  put, ltb, ◌==◌, if◌then◌else◌, Outcome, ok, fault, ◌>>=◌,
}
use blockmania.Consensus.Block.{BlockId, Dep, BlockGraph, block_id_key}
use blockmania.Consensus.Graph.{Graph, Entry, BlockInfo}
use blockmania.Consensus.Graph.Process.{process}

abbrev pub larger : ℕ → ℕ → ℕ
larger a b = if ltb b a then a else b

-- The highest of `top` and the maxima of the blocks, and whether one of them has no maximum.
unfoldable pub links_max : Map BlockId ℕ → List BlockId → ℕ → Bool → ℕ × Bool
unfolding find
links_max max [] top rcheck = (top, rcheck)
links_max max (link ∷ links) top rcheck = elim (find link max) [
  | none ↦ links_max max links top true
  | some link_max ↦ links_max max links (larger link_max top) rcheck
]

-- `if rcheck && round > top { top = round }`.
abbrev pub at_least_round : ℕ → ℕ × Bool → ℕ
at_least_round round (top, rcheck) = if rcheck && ltb top round then round else top

-- The references of an included block: with the previous block, but for round 1.
abbrev pub dep_links : Dep → List BlockId
dep_links dep = if dep.block.round == 1 then dep.deps else dep.prev ∷ dep.deps

-- The loop over the included blocks: their entries, the graph's maxima and the highest maximum.
unfoldable pub enter_deps : ℕ → List Dep → Map BlockId ℕ → ℕ → List Entry × Map BlockId ℕ × ℕ
unfolding links_max put
enter_deps round [] maxima top = ([], maxima, top)
enter_deps round (dep ∷ deps) maxima top =
    let dep_max = at_least_round round (links_max maxima (dep_links dep) dep.block.round false) in
    let (entries, maxima', top') =
      enter_deps round deps (put dep.block dep_max maxima) (larger dep_max top) in
    (record { block = dep.block; deps = dep_links dep; prev = dep.prev } ∷ entries, maxima', top')

-- The block's own references: the previous block and the included ones.
abbrev pub dep_blocks : List Dep → List BlockId
dep_blocks [] = []
dep_blocks (dep ∷ deps) = dep.block ∷ dep_blocks deps

unfoldable pub process_all : List Entry → Graph → Outcome Graph
unfolding process
process_all [] g = ok g
process_all (e ∷ es) g = process g e >>= λ g'. process_all es g'

-- The part of a turn that holds the mutex: the entries to process, and the graph with the block and
-- the maxima.
unfoldable pub enter : Graph → BlockGraph → List Entry × Graph
unfolding enter_deps links_max put
enter g data' =
    let (entries, maxima, top) = enter_deps g.round data'.deps g.max data'.block.round in
    let own : List BlockId = if data'.block.round == 1 then [] else data'.prev ∷ [] in
    let max = at_least_round g.round (links_max maxima own top false) in
    (
      entries
          ++ (record {
            block = data'.block;
            deps = data'.prev ∷ dep_blocks data'.deps;
            prev = data'.prev;
          }
              ∷ []),
      record g {
        max = put data'.block max maxima;
        blocks = g.blocks ++ (record { graph = data'; max = max } ∷ []);
      },
    )

-- One turn of `run`, for a block graph that `Add` sent.
unfoldable pub add : Graph → BlockGraph → Outcome Graph
unfolding enter process_all
add g data' = let (entries, g') = enter g data' in process_all entries g'

-- The loop, over the block graphs in the order in which they were added.
unfoldable pub run : Graph → List BlockGraph → Outcome Graph
unfolding add
run g [] = ok g
run g (block ∷ blocks) = add g block >>= λ g'. run g' blocks
