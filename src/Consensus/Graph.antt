-- ===== src/Consensus/Graph.antt =====
-- The block graph and its interpreter (blockmania/graph.go): the `Graph` of one node and what `New`
-- makes of a configuration. The channel, the mutex and the logging are left out: the blocks come as
-- a list, and one goroutine handles them one after the other.
pub mod Quorum
pub mod Deliver
pub mod Interpret
pub mod Messages
pub mod Process
pub mod Run
pub mod Typing
use blockmania.Prelude.{ℕ, ◌+◌, ◌-◌, ◌*◌, ◌/◌, List, [], Map, length, add_u64}
use blockmania.Consensus.Block.{Hash, BlockId, BlockGraph, Interpreted}
use blockmania.Consensus.State.{State}

-- `entry`.
pub record Entry : Type 0 where
  pub block : BlockId
  pub deps : List BlockId
  pub prev : BlockId

-- `blockInfo`.
pub record BlockInfo : Type 0 where
  pub graph : BlockGraph
  pub max : ℕ

pub record Config : Type 0 where
  pub last_interpreted : ℕ
  pub peers : List ℕ
  pub self_id : ℕ
  pub total_nodes : ℕ

-- `delivered` lists the calls of the callback, the oldest first. `heap` holds the maps that the
-- `ViewChanged` entries of the states refer to.
pub record Graph : Type 0 where
  pub blocks : List BlockInfo
  pub max : Map BlockId ℕ
  pub peer_count : ℕ
  pub peers : List ℕ
  pub quorumf1 : ℕ
  pub quorum2f : ℕ
  pub quorum2f1 : ℕ
  pub resolved : Map ℕ (Map ℕ Hash)
  pub round : ℕ
  pub self : ℕ
  pub statess : Map BlockId State
  pub total_nodes : ℕ
  pub delivered : List Interpreted
  pub heap : List (Map ℕ Hash)

-- `New`. Division of Go's `int` rounds to 0, so an empty list of peers gives `f = 0` here and there.
unfoldable pub new : Config → Graph
new cfg =
    let f = (length cfg.peers - 1) / 3 in
    record {
      blocks = [];
      max = [];
      peer_count = length cfg.peers;
      peers = cfg.peers;
      quorumf1 = f + 1;
      quorum2f = 2 * f;
      quorum2f1 = 2 * f + 1;
      resolved = [];
      round = add_u64 cfg.last_interpreted 1;
      self = cfg.self_id;
      statess = [];
      total_nodes = cfg.total_nodes;
      delivered = [];
      heap = [];
    }
