-- ===== src/Broadcast/Depgraph.antt =====
-- The received blocks that wait for the blocks they refer to (broadcast/depgraph.go). The goroutine of
-- `process` is the only one that changes what is modelled here but for the queues at both ends; the
-- mutexes and the condition are left out.
pub mod Ready
pub mod Queue
pub mod Batch
pub mod Weights
pub mod Handled
pub mod Processed
pub mod Moved
pub mod Visited
pub mod Ends
pub mod Settled
use blockmania.Prelude.{
  ℕ, zero, suc, ◌+◌, List, [], ◌∷◌, ◌++◌, Option, none, some, Bool, true, false, not, ◌%◌, Map,
  find, put, delete, length, take, ltb, ◌==◌, if◌then◌else◌, maybe, Outcome, ok, fault,
  index_out_of_range, store_failed, nil_pointer, ◌>>=◌, ite,
}
use blockmania.Consensus.Block.{BlockId, BlockId-discrete, block_id_key, valid}
use blockmania.Broadcast.Keys.{included_key}
use blockmania.Broadcast.Wire.{SignedData, data_size}

-- What the database's `Get` returns: `missing` is `ErrKeyNotFound`, `failed` any other error.
pub data Item : Type 0 where
  missing failed : Item
  found : List ℕ → Item

-- `store`, as far as `isIncluded` goes; `get` stands for the database.
pub record Store : Type 0 where
  pub closed : Bool
  pub get : List ℕ → Item

-- `val[0] == 1`.
abbrev pub is_one : List ℕ → Outcome Bool
is_one [] = fault index_out_of_range
is_one (char ∷ val) = ok (char == 1)

abbrev pub is_one_item : Item → Outcome Bool
is_one_item missing = ok false
is_one_item failed = fault store_failed
is_one_item (found val) = is_one val

-- `store.isIncluded`. Its caller ends the process at an error.
unfoldable pub is_stored : Store → BlockId → Outcome Bool
is_stored s id = if s.closed then fault store_failed else is_one_item (s.get (included_key id))

-- `blockData`.
pub record BlockData : Type 0 where
  pub deps : List BlockId
  pub id : BlockId
  pub prev : BlockId
  pub ref : SignedData

-- `depgraph`; `input` is `in`.
pub record Depgraph : Type 0 where
  pub await : Map BlockId (List BlockId)
  pub blocks : List BlockData
  pub icache : Map BlockId Bool
  pub input : List BlockData
  pub pending : Map BlockId BlockData
  pub self : ℕ
  pub store : Store
  pub tcache : Map BlockId Bool

-- `actuallyIncluded`.
unfoldable pub actually_included : BlockId → Depgraph → Depgraph
actually_included id d = record d { tcache = delete id d.tcache }

-- `add`.
unfoldable pub add_block : BlockData → Depgraph → Depgraph
add_block info d = record d { input = d.input ++ (info ∷ []) }

abbrev pub has_id : BlockId → List BlockId → Bool
has_id id [] = false
has_id id (j ∷ ids) = ite (BlockId-discrete j id) true (has_id id ids)

-- `id` is noted among those that wait for `dep`, once.
unfoldable pub await_dep : BlockId → BlockId → Depgraph → Depgraph
await_dep id dep d =
    maybe (find dep d.await) (record d { await = put dep (id ∷ []) d.await })
      (λ ids. if has_id id ids then d else record d { await = put dep (ids ++ (id ∷ [])) d.await })

-- The loop of `addPending`, and `addPending`.
unfoldable pub await_deps : BlockId → List BlockId → Depgraph → Depgraph
await_deps id [] d = d
await_deps id (dep ∷ deps) d = await_deps id deps (await_dep id dep d)

unfoldable pub add_pending : BlockData → List BlockId → Depgraph → Depgraph
add_pending block deps d =
    await_deps block.id deps (record d { pending = put block.id block d.pending })

-- How many of the first blocks have sizes that sum up to no more than the limit.
unfoldable pub fitting : ℕ → ℕ → List BlockData → List BlockData × List BlockData
fitting limit total [] = ([], [])
fitting limit total (block ∷ blocks) =
    let more = fitting limit (total + data_size block.ref) blocks in
    if ltb limit (total + data_size block.ref)
    then ([], block ∷ blocks)
    else (block ∷ more.0, more.1)

-- `getBlocks`. A sum of sizes in memory does not wrap around.
unfoldable pub get_blocks : ℕ → Depgraph → Depgraph × List BlockData
get_blocks limit d =
    let (taken, left) = fitting limit 0 d.blocks in (record d { blocks = left }, taken)

-- What the caches say of a block: `tcache` first, then `icache`.
unfoldable pub known : Depgraph → BlockId → Option Bool
known d id = maybe (find id d.tcache) (find id d.icache) some

-- `isIncluded`.
unfoldable pub is_included : Depgraph → BlockId → Outcome (Depgraph × Bool)
is_included d id =
    maybe (known d id)
      (is_stored d.store id >>= λ inc. ok (record d { icache = put id inc d.icache }, inc))
      (λ inc. ok (d, inc))

-- `markIncluded`.
unfoldable pub mark_included : BlockId → Depgraph → Depgraph
mark_included id d = record d { icache = put id true d.icache; tcache = put id true d.tcache }

-- `deps = append(deps, id)`, if the block is not included.
unfoldable pub check_dep : Depgraph → BlockId → Outcome (Depgraph × List BlockId)
check_dep d id = is_included d id >>= λ (d', inc). ok (d', if inc then [] else id ∷ [])

-- The check of the previous block, and the loop over the references.
unfoldable pub check_prev : Depgraph → BlockId → Outcome (Depgraph × List BlockId)
check_prev d prev = if valid prev then check_dep d prev else ok (d, [])

unfoldable pub check_deps : Depgraph → List BlockId → Outcome (Depgraph × List BlockId)
check_deps d [] = ok (d, [])
check_deps d (dep ∷ deps) =
    if dep.node == d.self
    then check_deps d deps
    else check_dep d dep >>= λ (d', gaps).
        check_deps d' deps >>= λ (d'', more). ok (d'', gaps ++ more)

-- The end of `processBlock`: the block waits, or it is queued.
unfoldable pub settle : BlockData → Depgraph → List BlockId → Depgraph × Bool
settle block d (dep ∷ deps) = (add_pending block (dep ∷ deps) d, false)
settle block d [] =
    let d' = mark_included block.id d in (record d' { blocks = d'.blocks ++ (block ∷ []) }, true)

-- `processBlock`.
unfoldable pub process_block : Depgraph → BlockData → Outcome (Depgraph × Bool)
process_block d block = is_included d block.id >>= λ (d', inc).
    if inc
    then ok (d', true)
    else check_prev d' block.prev >>= λ (d1, gaps).
        check_deps d1 block.deps >>= λ (d2, more). ok (settle block d2 (gaps ++ more))

-- The variables of the inner loops of `process`.
pub record Release : Type 0 where
  pub graph : Depgraph
  pub first : Bool
  pub processed : List BlockId
  pub seen : List BlockId

-- One block that waits for `next`. A block that is not pending is a nil pointer.
unfoldable pub visit_one : Release → BlockId → Outcome Release
visit_one r revdep =
    if has_id revdep r.seen
    then ok r
    else maybe (find revdep r.graph.pending) (fault nil_pointer) λ block.
      process_block r.graph block >>= λ (d, done). ok (
        if done
        then record r { graph = d; processed = r.processed ++ (revdep ∷ []); seen = [] }
        else record r { graph = d; seen = revdep ∷ r.seen })

unfoldable pub visit : Release → List BlockId → Outcome Release
visit r [] = ok r
visit r (revdep ∷ revdeps) = visit_one r revdep >>= λ r'. visit r' revdeps

-- `delete(d.await, next)`, and `delete(d.pending, next)` but for the first.
unfoldable pub finish : BlockId → Release → Release
finish next r =
    let d = record r.graph { await = delete next r.graph.await } in
    if r.first
    then record r { graph = d; first = false }
    else record r { graph = record d { pending = delete next d.pending } }

-- One turn of the loop over `processed`; it is over when the list is empty.
unfoldable pub advance_from : Release → List BlockId → Outcome Release
advance_from r [] = ok r
advance_from r (next ∷ rest) =
    visit (record r { processed = rest }) (maybe (find next r.graph.await) [] (λ ids. ids))
    >>= λ r'. ok (finish next r')

unfoldable pub advance : Release → Outcome Release
unfolding advance_from
advance r = advance_from r r.processed

unfoldable pub advance_times : ℕ → Release → Outcome Release
advance_times zero r = ok r
advance_times (suc n) r = advance r >>= λ r'. advance_times n r'

-- What a turn of the outer loop of `process` has come to after `n` turns of the loop over
-- `processed`, for the first block of `in`.
unfoldable pub handle : ℕ → Depgraph → BlockData → Outcome Depgraph
handle n d info = process_block d info >>= λ (d', done).
    if not done
    then ok d'
    else advance_times n
        (record { graph = d'; first = true; processed = info.id ∷ []; seen = info.id ∷ [] })
      >>= λ r. ok r.graph

-- The cut of `icache`, every 100 turns. Go keeps any 1000 entries, the model the oldest.
unfoldable pub prune_icache : Depgraph → Depgraph
prune_icache d = if ltb 1000 (length d.icache) then record d { icache = take 1000 d.icache } else d

-- The `i`-th turn of the outer loop, which waits if `in` is empty.
unfoldable pub turn : ℕ → ℕ → Depgraph → Outcome Depgraph
turn i n d =
    let d' = if i % 100 == 0 then prune_icache d else d in
    elim d'.input [ [] ↦ ok d' | info ∷ rest ↦ handle n (record d' { input = rest }) info ]
