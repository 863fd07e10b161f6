-- ===== src/Consensus/Graph/Process.antt =====
-- `process`: the state of a block, from the state of the block before it, the time-outs that are due
-- and the messages of the blocks that it includes.
use blockmania.Prelude.{
  ℕ, List, [], ◌∷◌, ◌++◌, none, some, Map, find, put, nat_key, length, get_elem?, ltb,
  if◌then◌else◌, maybe, Outcome, ok, fault, index_out_of_range, ◌>>=◌, add_u64, mul_u64, add_u32,
}
use blockmania.Consensus.Block.{Hash, BlockId, valid, block_id_key}
use blockmania.Consensus.Messages.{Message, pre_prepare, view_change}
use blockmania.Consensus.StateData.{StateData, number, view, final, prepared, state_data_key}
use blockmania.Consensus.State.{
  State, Timeout, fresh, clone, diff, get_output, as_number, as_text, put_kv,
}
use blockmania.Consensus.Graph.{Graph, Entry}
use blockmania.Consensus.Graph.Interpret.{has_key, add_timeout}
use blockmania.Consensus.Graph.Messages.{Work, process_messages}

-- `findOrCreateState`.
unfoldable pub find_or_create_state : Graph → Entry → State
unfolding find clone
find_or_create_state g e = if valid e.prev then clone (find e.prev g.statess) g.round else fresh

-- `state.delay[dep.Node] = diff(round, dep.Round) * 10`, for each reference.
unfoldable pub note_delays : ℕ → List BlockId → Map ℕ ℕ → Map ℕ ℕ
unfolding put diff
note_delays round [] delay = delay
note_delays round (dep ∷ deps) delay =
    note_delays round deps (put dep.node (mul_u64 (diff round dep.round) 10) delay)

-- `sort.Slice` of the delays, by insertion.
unfoldable pub insert_val : ℕ → List ℕ → List ℕ
insert_val v [] = v ∷ []
insert_val v (w ∷ ws) = if ltb w v then w ∷ insert_val v ws else v ∷ w ∷ ws

unfoldable pub sort_vals : List ℕ → List ℕ
unfolding insert_val
sort_vals [] = []
sort_vals (v ∷ vs) = insert_val v (sort_vals vs)

abbrev pub values : Map ℕ ℕ → List ℕ
values [] = []
values ((k, v) ∷ m) = v ∷ values m

-- `if val > tval { tval = val }`, for each delay.
unfoldable pub raise_to : ℕ → List ℕ → ℕ
raise_to tval [] = tval
raise_to tval (val ∷ vals) = raise_to (if ltb tval val then val else tval) vals

-- The logical clock value of a time-out, from the delays.
unfoldable pub timeout_value : Graph → Map ℕ ℕ → Outcome ℕ
unfolding sort_vals raise_to
timeout_value g delay =
    if ltb g.quorum2f1 (length delay)
    then maybe (get_elem? (sort_vals (values delay)) g.quorum2f) (fault index_out_of_range)
        (λ xval. ok (if ltb 10 xval then xval else 10))
    else ok (raise_to 10 (values delay))

-- A time-out for each peer, at the round `tround`.
unfoldable pub set_timeouts : ℕ → ℕ → List ℕ → State → State
unfolding add_timeout
set_timeouts tround round [] s = s
set_timeouts tround round (xnode ∷ peers) s =
    set_timeouts tround round peers
      (add_timeout tround (record { node = xnode; round = round; view = 0 }) s)

abbrev pub number_at : StateData → State → Outcome ℕ
number_at key s = maybe (find key s.kv) (ok 0) as_number

abbrev pub text_at : StateData → State → Outcome Hash
text_at key s = maybe (find key s.kv) (ok []) as_text

-- The loop over the time-outs that are due: the state, and the messages that it adds.
unfoldable pub fire_timeouts : ℕ → List Timeout → State → Outcome (State × List Message)
unfolding find put
fire_timeouts node [] s = ok (s, [])
fire_timeouts node (tmout ∷ rest) s =
    let skip = fire_timeouts node rest s in
    if has_key (final tmout.node tmout.round) s
    then skip
    else number_at (view tmout.node tmout.round) s >>= λ v.
        if ltb tmout.view v
        then skip
        else text_at (prepared tmout.node tmout.round tmout.view) s >>= λ hval.
            fire_timeouts node rest (put_kv (view tmout.node tmout.round) (number (add_u32 v 1)) s)
            >>= λ (s', out). ok (
              s',
              view_change (record {
                hash = hval;
                node = tmout.node;
                round = tmout.round;
                sender = node;
                view = add_u32 tmout.view 1;
              })
                  ∷ out,
            )

-- The time-outs that are due at a round.
abbrev pub due : ℕ → State → List Timeout
due round s = elim (find round s.timeouts) [ none ↦ [] | some ts ↦ ts ]

-- The delays of a block: those of the block before it, and those of its references.
unfoldable pub delays : Graph → Entry → Map ℕ ℕ
unfolding find_or_create_state note_delays
delays g e = note_delays e.block.round e.deps (find_or_create_state g e).delay

-- The state with its delays, its time-out value `tval` and the time-outs that this sets.
unfoldable pub schedule : Graph → Entry → ℕ → State
unfolding find_or_create_state delays set_timeouts
schedule g e tval =
    set_timeouts (add_u64 e.block.round tval) e.block.round g.peers
      (record (find_or_create_state g e) { delay = delays g e; timeout = tval })

-- `messages.PrePrepare` for the block itself.
abbrev pub proposal : BlockId → Message
proposal b = pre_prepare (record { hash = b.hash; node = b.node; round = b.round; view = 0 })

-- The first part of `process`, before any message: the state with its delays and time-outs, and the
-- block's own messages.
unfoldable pub prepare_state : Graph → Entry → Outcome (State × List Message)
unfolding delays timeout_value schedule fire_timeouts find
prepare_state g e = do
  tval ← timeout_value g (delays g e)
  let s = schedule g e tval
  (s', out) ← fire_timeouts e.block.node (due e.block.round s) s
  ok (s', proposal e.block ∷ out)

-- The loop over the references: the messages of each included block are processed.
unfoldable pub process_deps : BlockId → List BlockId → Work → Outcome (Work × List Message)
unfolding process_messages find
process_deps block [] w = ok (w, [])
process_deps block (dep ∷ deps) w =
    process_messages dep.node block.node block w (get_output (find dep w.graph.statess))
    >>= λ (w', out). process_deps block deps w' >>= λ (w'', more). ok (w'', out ++ more)

unfoldable pub process : Graph → Entry → Outcome Graph
unfolding prepare_state process_messages process_deps put
process g e = do
  (s, own) ← prepare_state g e
  (w, out) ←
      process_messages e.block.node e.block.node e.block
        (record { graph = g; state = s; processed = [] }) own
  (w', more) ← process_deps e.block e.deps w
  ok (record w'.graph {
    statess = put e.block (record w'.state { out = own ++ (out ++ more) }) w'.graph.statess;
  })
