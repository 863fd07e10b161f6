-- ===== src/Lib.antt =====
-- Blockmania is a consensus protocol: every node broadcasts blocks that refer to the blocks it has
-- received, and each node runs an interpreter over the graph of the blocks, which simulates the
-- messages of a three-phase agreement protocol with view changes and decides, round by round, on a
-- block for every node.
--
-- The package of the interpreter is blockmania/. A block enters with its references (`Graph.Add`,
-- `run`); every block that it brings in is processed (`process`): its state is a clone of the
-- state of its predecessor, due time-outs send view changes, and the messages of the blocks it
-- refers to are closed under the answers of `processMessage`. A quorum of commits makes a hash
-- final and calls `deliver`; once every node is decided for the current round, `deliverRound`
-- hands the round to the callback.
--
-- Modules and the code they follow:
-- - Prelude: numbers of fixed width, lists, Go maps (Prelude.Maps) as association lists in the
--   order of insertion, and calls that may crash (Prelude.Outcomes).
-- - Consensus.Block: blockmania/blockmania.go.
-- - Consensus.Messages: the structs of blockmania/messages/.
-- - Consensus.StateData: the keys of blockmania/states/ and the values stored under them.
-- - Consensus.Bitset: blockmania/bitset.go; Bitset.Votes relates a bitset to two sets of nodes,
--   and Bitset.Cast to a list of votes.
-- - Consensus.State: blockmania/state.go.
-- - Consensus.Graph: `Graph` and `New` of blockmania/graph.go. Graph.Deliver has `deliver` and
--   `deliverRound`, Graph.Interpret `processMessage`, Graph.Messages `processMessages`,
--   Graph.Process `findOrCreateState` and `process`, Graph.Run `run` and `Add`.
-- - Broadcast.Cache: broadcast/cache.go. Broadcast.Keys: the keys of broadcast/store.go.
--   Broadcast.Graphs: `encodeBlockGraph` of that file and its counterpart in `getBlockGraphs`.
--   Broadcast.Depgraph: broadcast/depgraph.go, and `isIncluded` of the store over any database.
-- - Broadcast.Wire: the messages of broadcast/types.pb.go, and `Codec` for their encoding.
--   Broadcast.Database: the key-value database below the store, with the laws that the store
--   relies on; its iterator visits the keys in the order of their bytes, which Lexinum.Sorting and
--   Broadcast.Keys relate to the nodes and rounds in them. Broadcast.Store, Broadcast.Progress and
--   Broadcast.Missing: the methods of `store` in broadcast/store.go over any database, each of
--   which comes to a `Reply`; Progress has the two maps, Missing has `getMissing`.
-- - Broadcast.Transactions: `AddTransaction` of broadcast/broadcast.go, the part of `genBlocks`
--   that takes the queue, and `TxIterator` of broadcast/ext.go with its loop in
--   txlistener/txlistener.go.
-- - Broadcast.Checks: `processBlock` of broadcast/broadcast.go up to its effects.
--   Broadcast.Service: its effects, the handlers of requests, `getUnsent` and `markSent`. A
--   received block is checked, written to the store, queued in the graph of waiting blocks and
--   noted in the received map; a node's own blocks are read through the cache.
-- - Broadcast.Generate: one turn of `genBlocks` and `setOwnBlock` of broadcast/broadcast.go.
--   Broadcast.Replay: `getBlockData` and `getNotIncluded` of broadcast/store.go. Broadcast.Load:
--   `loadState` and the first loop of `replayGraphChanges` of broadcast/broadcast.go.
--   Broadcast.Stream: `getBlockGraphs` of broadcast/store.go, and its loop in `replayGraphChanges`
--   and in broadcast/replay.go.
-- - Lexinum: internal/lexinum/lexinum.go.
-- - Broadcast.Delivery: `blockmaniaCallback`, `Register` and `Acknowledge` of
--   broadcast/broadcast.go with the part of `loadState` that they depend on. Broadcast.Fetch: the
--   inner loop of `fillMissingBlocks` of that file. Broadcast.Exchange: the inner loop of
--   `maintainBroadcast`, with `handleBroadcastList` of the peer.
-- - Network.Conn: network/conn.go over Network.Transport, which stands for a `net.Conn`.
--   Network.Topology: network/network.go.
-- - Config.ByteSize: config/bytesize.go, with the decimal numbers of strconv that it uses.
--   Config.Settings: the structs and functions of config/config.go. Config.Generate:
--   config/generate/generate.go; it writes the network that `New` of Network.Topology reads.
-- - Crypto.Signature: internal/crypto/signature/. Crypto.Certificate:
--   internal/crypto/transport/transport.go.
-- - Logging: internal/log/level.go.
-- - Tests: the theorems at concrete inputs, among them a run of four nodes over six rounds.
--
-- State is passed explicitly. A method that writes to the graph returns the new graph; the
-- callback's calls are the list `delivered` of the graph. A call ends in an `Outcome`: `ok`, or a
-- `fault`, which is a run-time panic (an index out of range, a failed type assertion), a call of
-- `log.Fatal`, or the end of the model's fuel. `Meets m P` says that `m` does not run out of fuel
-- and that its value, if it has one, meets `P`.
--
-- Maps are read with Go's rule that a missing key is absent, and a nil map is an empty one. The
-- loops over a map that matter to the order of results sort afterwards or, as in the merge of
-- hashes of a view change, come to the same end in any order but for the choice between crash and
-- crash. The `map[uint64]string` under a `ViewChanged` key is shared by the clones of a state; it
-- stands in the graph's `heap` and the state holds its address.
--
-- Fuel: `deliverRound` calls itself at most once for each entry of `resolved`, and `deliver` gives
-- it one more than their number. `processMessages` works through a list that grows; every answer
-- stands on a lower level than its message and there are five levels, so five times the first
-- answers is enough. `pow` looks at 64 binary digits, and the digits of a `uint64` in base 253 are
-- at most 8. A `uint64` has at most 20 decimal digits. The loop of `getMissing` over a gap makes
-- one turn for each round of the gap, the replay one for each batch, that of `getUnsent` one for
-- each round up to the current one, and the iterator of transactions one for each transaction that
-- a block counts. The loops of network/conn.go have one turn for each byte, since a call of `Read`
-- or `Write` that works moves one at least; the error `stalled` marks a transport on which it does
-- not. The loop of `depgraph.process` over the blocks just included is followed for any number of
-- turns; each turn makes the pending blocks that are not included fewer, or those that wait for an
-- included block, or the list of blocks to look at, so that some number of turns is enough. The
-- rounds that `Register` replays and that `getUnsent` sends are counted before the loop; behind
-- round 2 ^ 64 - 1 the loops of the code go on with round 0, which is not there, and end in
-- `log.Fatal`, as the models do.
--
-- Not modelled: the channel, mutex, context and goroutine of a graph (blocks come as a list, in
-- the order received); logging but for its levels; the String methods. The rest of
-- broadcast/broadcast.go (the clock and the rate limit of `genBlocks`, the connections and the
-- back-off of `maintainBroadcast` and `fillMissingBlocks`, and `Handle`, which hands requests to
-- the handlers), the discovery of nodes over mDNS and HTTP in network/network.go, and the packages
-- node/, pubsub/, rest/, service/ and cmd/ are not modelled; much of them is I/O. The files and
-- the YAML of config/ are parameters or left out. The database, the encoding of messages, the
-- hash, the signatures and the certificates are third-party libraries: they are parameters. The
-- lists of time-outs of a cloned state are independent in the model, while the slices of the code
-- may share an array (Consensus.State). Slicing past the length of a stored value is a panic in
-- the model, whatever its capacity.
pub mod Prelude
pub mod Consensus
pub mod Broadcast
pub mod Lexinum
pub mod Config
pub mod Network
pub mod Crypto
pub mod Logging
pub mod Tests
