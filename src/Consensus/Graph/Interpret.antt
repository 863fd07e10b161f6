-- ===== src/Consensus/Graph/Interpret.antt =====
-- `processMessage` and `processMessages`: what one message does to the state of a block, and the
-- closure of a list of messages under the answers to them.
pub mod Levels
pub mod Memory
pub mod Lasting
pub mod Later
pub mod Proposals
pub mod Quorums
use blockmania.Prelude.{
  ℕ, zero, suc, ◌+◌, ◌*◌, List, [], ◌∷◌, ◌++◌, Option, none, some, Bool, true, false, ◌&&◌, not,
  Map, find, put, nat_key, length, get_elem?, set, ltb, ◌==◌, if◌then◌else◌, maybe, Outcome, ok,
  fault, multiple_hashes, out_of_fuel, ◌>>=◌, add_u64, ite, ℕ_discrete,
}
use blockmania.Consensus.Block.{Hash, BlockId, is_set}
use blockmania.Consensus.Messages.{
  PrePrepare, Prepare, Commit, ViewChange, NewView, Message, pre_prepare, prepare, commit,
  view_change, new_view, node_round, prepare_pre, commit_pre, message_key,
}
use blockmania.Consensus.StateData.{
  StateData, StateValue, number, text, flag, message, changes, view, final, hnv, prepared,
  pre_prepared, view_changed, state_data_key,
}
use blockmania.Consensus.Bitset.{
  Bitset, set_prepare, set_commit, prepare_count, commit_count, has_commit,
}
use blockmania.Consensus.State.{
  State, NodeRound, Timeout, node_round_key, get_bitset, set_bitset, get_view, put_kv, as_changes,
}
use blockmania.Consensus.Graph.{Graph}
use blockmania.Consensus.Graph.Deliver.{deliver, hash_eq}

-- What a call of `processMessage` leaves: the graph, the state, and the answer, if any.
pub record Step : Type 0 where
  pub graph : Graph
  pub state : State
  pub answer : Option Message

abbrev pub silent : Graph → State → Outcome Step
silent g s = ok (record { graph = g; state = s; answer = none })

abbrev pub answers : Graph → State → Message → Outcome Step
answers g s m = ok (record { graph = g; state = s; answer = some m })

-- `_, exists := s.data[key]`.
abbrev pub has_key : StateData → State → Bool
has_key k s = elim (find k s.kv) [ none ↦ false | some v ↦ true ]

-- The case `messages.PrePrepare`.
unfoldable pub on_pre_prepare : Graph → State → ℕ → ℕ → ℕ → PrePrepare → Outcome Step
unfolding find get_bitset set_prepare set_bitset put
on_pre_prepare g s sender receiver v m =
    if not (v == m.view)
    then silent g s
    else if has_key (pre_prepared m.node m.round m.view) s
    then silent g s
    else do
      let (s', b) = get_bitset s g.peer_count m
      b' ← set_prepare b sender
      b'' ← set_prepare b' receiver
      answers g (put_kv (pre_prepared m.node m.round m.view) (message m) (set_bitset s' m b'')) (
          prepare (record {
            hash = m.hash;
            node = m.node;
            round = m.round;
            sender = receiver;
            view = m.view;
          }))

-- `s.data[p] = m.Hash`, unless the key is there.
abbrev pub put_kv_new : StateData → StateValue → State → State
put_kv_new k v s = if has_key k s then s else put_kv k v s

-- The end of the case `messages.Prepare`, after the vote of the sender.
unfoldable pub on_quorum_prepared : Graph → State → ℕ → Prepare → Bitset → Outcome Step
unfolding find has_commit set_commit set_bitset put
on_quorum_prepared g s receiver m b = do
  committed ← has_commit b receiver
  if committed then silent g s else do
    b' ← set_commit b receiver
    answers g
        (put_kv_new (prepared m.node m.round m.view) (text m.hash)
          (set_bitset s (prepare_pre m) b'))
        (commit (record {
          hash = m.hash;
          node = m.node;
          round = m.round;
          sender = receiver;
          view = m.view;
        }))

-- The case `messages.Prepare`.
unfoldable pub on_prepare : Graph → State → ℕ → ℕ → Prepare → Outcome Step
unfolding get_bitset set_prepare set_bitset prepare_count on_quorum_prepared
on_prepare g s receiver v m = if ltb m.view v then silent g s else do
  let (s', b) = get_bitset s g.peer_count (prepare_pre m)
  b' ← set_prepare b m.sender
  let s'' = set_bitset s' (prepare_pre m) b'
  if ltb v m.view
      then silent g s''
      else if prepare_count b' == g.quorum2f1
      then on_quorum_prepared g s'' receiver m b'
      else silent g s''

-- The end of the case `messages.Commit`, at a quorum: the node and round become final, once.
unfoldable pub on_quorum_committed : Graph → State → Commit → Outcome Step
unfolding find put deliver
on_quorum_committed g s m =
    let nr : NodeRound = record { node = m.node; round = m.round } in
    maybe (find nr s.final)
      (deliver g m.node m.round m.hash >>= λ g'.
        silent g' (record s { final = put nr m.hash s.final }))
      (λ h. silent g s)

-- The case `messages.Commit`.
unfoldable pub on_commit : Graph → State → ℕ → Commit → Outcome Step
unfolding get_bitset set_commit set_bitset commit_count on_quorum_committed
on_commit g s v m = if ltb v m.view then silent g s else do
  let (s', b) = get_bitset s g.peer_count (commit_pre m)
  b' ← set_commit b m.sender
  let s'' = set_bitset s' (commit_pre m) b'
  if commit_count b' == g.quorum2f1 then on_quorum_committed g s'' m else silent g s''

-- The map of hashes under an address, which is always one that was allocated.
abbrev pub load : List (Map ℕ Hash) → ℕ → Map ℕ Hash
load heap a = elim (get_elem? heap a) [ none ↦ [] | some m ↦ m ]

-- The map under a `ViewChanged` key: the one that is there, or a new one.
unfoldable pub changes_at : Graph → State → StateData → Outcome (Graph × State × ℕ)
unfolding find put
changes_at g s key =
    maybe (find key s.kv)
      (ok (
        record g { heap = g.heap ++ ([] ∷ []) },
        put_kv key (changes (length g.heap)) s,
        length g.heap,
      ))
      (λ val. as_changes val >>= λ a. ok (g, s, a))

-- The loop over the values of the map: the last hash that is not empty, and a fatal error if two
-- differ.
unfoldable pub merge_hashes : Hash → Map ℕ Hash → Outcome Hash
unfolding hash_eq
merge_hashes hash [] = ok hash
merge_hashes hash ((sender, hval) ∷ vcs) =
    if is_set hval && is_set hash && not (hash_eq hval hash)
    then fault multiple_hashes
    else merge_hashes (if is_set hval then hval else hash) vcs

-- The case `messages.ViewChange`.
unfoldable pub on_view_change : Graph → State → ℕ → ℕ → ViewChange → Outcome Step
unfolding changes_at put merge_hashes
on_view_change g s receiver v m =
    if ltb m.view v
    then silent g s
    else changes_at g s (view_changed m.node m.round v) >>= λ (g', s', a).
        let vcs = put m.sender m.hash (load g'.heap a) in
        let g'' = record g' { heap = set g'.heap a vcs } in
        if not (length vcs == g.quorum2f1)
        then silent g'' s'
        else merge_hashes [] vcs >>= λ hash.
            answers g'' (put_kv (view m.node m.round) (number m.view) s') (
              new_view (record {
                hash = hash;
                node = m.node;
                round = m.round;
                sender = receiver;
                view = m.view;
              }))

-- `append(s.timeouts[tval], t)`.
unfoldable pub add_timeout : ℕ → Timeout → State → State
unfolding find put
add_timeout tval t s =
    let old : List Timeout = elim (find tval s.timeouts) [ none ↦ [] | some ts ↦ ts ] in
    record s { timeouts = put tval (old ++ (t ∷ [])) s.timeouts }

-- The case `messages.NewView`.
unfoldable pub on_new_view : Graph → State → BlockId → ℕ → NewView → Outcome Step
unfolding find put add_timeout
on_new_view g s origin v m =
    if ltb m.view v
    then silent g s
    else if has_key (hnv m.node m.round m.view) s
    then silent g s
    else let s' = put_kv (view m.node m.round) (number m.view) s in
      let tval = add_u64 (add_u64 origin.round s.timeout) 5 in
      let s'' = add_timeout tval (record { node = m.node; round = m.round; view = m.view }) s' in
      answers g (put_kv (hnv m.node m.round m.view) (flag true) s'')
        (pre_prepare (record { hash = m.hash; node = m.node; round = m.round; view = m.view }))

-- The switch on the type of the message, at the view `v` of its node and round.
unfoldable pub dispatch : Graph → State → ℕ → ℕ → BlockId → ℕ → Message → Outcome Step
unfolding on_pre_prepare on_prepare on_commit on_view_change on_new_view
dispatch g s sender receiver origin v (pre_prepare m) = on_pre_prepare g s sender receiver v m
dispatch g s sender receiver origin v (prepare m) = on_prepare g s receiver v m
dispatch g s sender receiver origin v (commit m) = on_commit g s v m
dispatch g s sender receiver origin v (view_change m) = on_view_change g s receiver v m
dispatch g s sender receiver origin v (new_view m) = on_new_view g s origin v m

-- `processMessage`.
unfoldable pub process_message : Graph → State → ℕ → ℕ → BlockId → Message → Outcome Step
unfolding find get_view dispatch
process_message g s sender receiver origin msg =
    let (node, round) = node_round msg in
    if has_key (final node round) s
    then silent g s
    else get_view s node round >>= λ (s', v). dispatch g s' sender receiver origin v msg
