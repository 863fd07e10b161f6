-- ===== src/Consensus/Graph/Deliver/Frame.antt =====
-- What forgetting the consumed blocks leaves alone.
use blockmania.Prelude.{ℕ, List, [], ◌∷◌, ◌≡◌, arith, add_u64}
use blockmania.Consensus.Block.{Dep}
use blockmania.Consensus.Graph.{Graph, BlockInfo}
use blockmania.Consensus.Graph.Deliver.{forget, forget_deps, consume}

pub record Frame (g g' : Graph) : Type 0 where
  pub resolved : g'.resolved ≡ g.resolved
  pub delivered : g'.delivered ≡ g.delivered
  pub round : g'.round ≡ g.round
  pub peer_count : g'.peer_count ≡ g.peer_count
  pub peers : g'.peers ≡ g.peers
  pub quorum2f : g'.quorum2f ≡ g.quorum2f
  pub quorum2f1 : g'.quorum2f1 ≡ g.quorum2f1
  pub heap : g'.heap ≡ g.heap

forget_deps-Frame : (deps : List Dep) (g : Graph) → Frame g (forget_deps deps g)
unfolding forget_deps
forget_deps-Frame [] g = ground arith
forget_deps-Frame (dep ∷ deps) g = ground (arith, forget_deps-Frame deps (forget dep.block g))

pub consume-Frame :
    (round consumed : ℕ) (infos : List BlockInfo) (g : Graph)
    → Frame g (consume round consumed infos g).0
unfolding consume
consume-Frame round consumed [] g = ground arith
consume-Frame round consumed (info ∷ infos) g =
    let g' = forget info.graph.block g in
    ground (
      arith,
      forget_deps-Frame info.graph.deps g',
      consume-Frame round (add_u64 consumed 1) infos (forget_deps info.graph.deps g'),
    )
