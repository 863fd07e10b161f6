-- ===== src/Broadcast/Load.antt =====
-- The start of a node: `loadState` of broadcast/broadcast.go and the first loop of `replayGraphChanges`.
-- `none` is a call of `log.Fatal` or a run-time panic.
pub mod Restarted
use blockmania.Prelude.{ℕ, List, [], ◌∷◌, Option, none, some, Map, maybe, put, nat_key}
use blockmania.Consensus.Block.{Hash}
use blockmania.Broadcast.Wire.{SignedData, Codec}
use blockmania.Broadcast.Database.{Database}
use blockmania.Broadcast.Cache.{ReceivedInfo}
use blockmania.Broadcast.Replies.{
  Reply, returned, failed, crashed, ◌>>=◌, db_closed, key_not_found, bad_message, bad_key,
}
use blockmania.Broadcast.Depgraph.{BlockData, Depgraph}
use blockmania.Broadcast.Store.{BlockStore, for_depgraph, get_last_round_data, get_last_interpreted}
use blockmania.Broadcast.Progress.{get_received_map, get_sent_map}
use blockmania.Broadcast.Replay.{get_not_included}
use blockmania.Broadcast.Checks.{Crypto}
use blockmania.Broadcast.Generate.{Author}

-- `if err != nil { if err != badger.ErrKeyNotFound { log.Fatal(...) } ... }`
abbrev pub or_default : {A : Type 0} → A → Reply A → Option A
or_default a (returned b) = some b
or_default a (failed key_not_found) = some a
or_default a (failed db_closed) = none
or_default a (failed bad_message) = none
or_default a (failed (bad_key e)) = none
or_default a crashed = none

abbrev pub or_none : {A : Type 0} → Reply A → Option A
or_none (returned a) = some a
or_none (failed e) = none
or_none crashed = none

-- An entry for each peer.
abbrev pub for_peers : {V : Type 0} → V → List ℕ → Map ℕ V
for_peers v [] = []
for_peers v (peer ∷ peers) = put peer v (for_peers v peers)

-- What `loadState` reads.
pub record Loaded : Type 0 where
  pub round : ℕ
  pub prevhash : Hash
  pub prevref : Option SignedData
  pub interpreted : ℕ
  pub consumed : ℕ
  pub received : Map ℕ ReceivedInfo
  pub sent : Map ℕ ℕ

module _ {D : Type 0} (db : Database D) where
  unfoldable pub load_interpreted : BlockStore D → Option (ℕ × ℕ)
  load_interpreted s = or_default (0, 0) (get_last_interpreted db s)

  unfoldable pub load_received : List ℕ → BlockStore D → Option (Map ℕ ReceivedInfo)
  load_received peers s =
      or_default (for_peers (record { latest = 0; sequence = 0 }) peers) (get_received_map db s)

  unfoldable pub load_sent : List ℕ → BlockStore D → Option (Map ℕ ℕ)
  load_sent peers s = or_default (for_peers 0 peers) (get_sent_map db s)

module _ {D : Type 0} (db : Database D) (codec : Codec SignedData) where
  unfoldable pub load_last : BlockStore D → Option (ℕ × Hash × Option SignedData)
  load_last s =
      or_default (0, [], none)
        (get_last_round_data db codec s >>= λ (round, hash, ref). returned (round, hash, some ref))

  unfoldable pub load_values : List ℕ → BlockStore D → Option Loaded
  load_values peers s = maybe (load_last s) none λ (round, prevhash, prevref).
      maybe (load_interpreted db s) none λ (interpreted, consumed).
        maybe (load_received db peers s) none λ received. maybe (load_sent db peers s) none λ sent.
          some (record {
            round = round;
            prevhash = prevhash;
            prevref = prevref;
            interpreted = interpreted;
            consumed = consumed;
            received = received;
            sent = sent;
          })

  -- The new graph of waiting blocks, with the blocks that stand in no block of the node as its input.
  abbrev pub new_depgraph : ℕ → BlockStore D → List BlockData → Depgraph
  new_depgraph node s infos = record {
    await = [];
    blocks = [];
    icache = [];
    input = infos;
    pending = [];
    self = node;
    store = for_depgraph db s;
    tcache = [];
  }

  abbrev pub with_state : Author D → Loaded → List BlockData → Author D
  with_state a l infos = record a {
    service = record a.service {
      depgraph = new_depgraph a.node a.service.store infos;
      received = l.received;
      round = l.round;
      sent = l.sent;
    };
    prevhash = l.prevhash;
    prevref = l.prevref;
  }

  -- `from` of `replayGraphChanges` is the `consumed` of what was loaded.
  unfoldable pub load_state :
      {K : Type 0} → Crypto K → List ℕ → Author D → Option (Loaded × Author D)
  load_state crypto peers a = maybe (load_values peers a.service.store) none λ l.
      maybe (or_none (get_not_included crypto db codec a.service.store)) none
        λ infos. some (l, with_state a l infos)
