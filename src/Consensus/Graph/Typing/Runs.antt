-- ===== src/Consensus/Graph/Typing/Runs.antt =====
-- No type assertion of the interpreter fails in a run.
use blockmania.Prelude.{
  ℕ, refl, List, [], ◌∷◌, ◌++◌, sym, ◌∙◌, subst, find, put, Map, length, get_elem?, nat_key, ltb,
  ok, add_u64, add_u32, Asserts, Asserts-if, Asserts-bind, Asserts-maybe, inl, inr, find-put,
}
use blockmania.Consensus.Block.{BlockId, BlockId-discrete, BlockGraph, block_id_key, valid}
use blockmania.Consensus.Messages.{Message}
use blockmania.Consensus.StateData.{StateValue, number, view, final, prepared, state_data_key}
use blockmania.Consensus.Bitset.Returns.{Anything}
use blockmania.Consensus.State.{State, Timeout, as_text, clone, fresh, put_kv, get_output}
use blockmania.Consensus.Graph.{Graph, Entry, Config, new}
use blockmania.Consensus.Graph.Interpret.{has_key, add_timeout}
use blockmania.Consensus.Graph.Messages.{Work, process_messages}
use blockmania.Consensus.Graph.Process.{
  timeout_value, sort_vals, values, fire_timeouts, number_at, text_at, delays, schedule, due,
  proposal, prepare_state, process_deps, process, find_or_create_state, set_timeouts,
}
use blockmania.Consensus.Graph.Run.{enter, process_all, add, run}
use blockmania.Consensus.Graph.Typing.{HasType, IsTyped, AllTyped, AreTyped}
use blockmania.Consensus.Graph.Typing.Writes.{
  either, put_case, same-IsTyped, put_kv-IsTyped, add_timeout-IsTyped, clone-IsTyped, fresh-IsTyped,
  as_number-Asserts,
}
use blockmania.Consensus.Graph.Typing.Answers.{WorkTyped, process_messages-Asserts}

number_at-Asserts :
    (n node round : ℕ) (s : State) → IsTyped n s → Asserts (number_at (view node round) s) Anything
number_at-Asserts n node round s t =
    Asserts-maybe (find (view node round) s.kv) _ _ Anything (λ _. tt)
      (λ val there. as_number-Asserts n node round val (t (view node round) val there))

as_text-Asserts :
    (n node round v : ℕ) (val : StateValue)
    → HasType n (prepared node round v) val
    → Asserts (as_text val) Anything
as_text-Asserts n node round v val (h, e) = rw e tt

text_at-Asserts :
    (n node round v : ℕ) (s : State)
    → IsTyped n s
    → Asserts (text_at (prepared node round v) s) Anything
text_at-Asserts n node round v s t =
    Asserts-maybe (find (prepared node round v) s.kv) _ _ Anything (λ _. tt)
      (λ val there. as_text-Asserts n node round v val (t (prepared node round v) val there))

abbrev StateTyped : {A : Type 0} → ℕ → State × A → Type 0
StateTyped n r = IsTyped n r.0

fire_timeouts-Asserts :
    (n node : ℕ) (tmouts : List Timeout) (s : State)
    → IsTyped n s
    → Asserts (fire_timeouts node tmouts s) (StateTyped n)
unfolding fire_timeouts
fire_timeouts-Asserts n node [] s t = t
fire_timeouts-Asserts n node (d ∷ ds) s t =
    let skip = fire_timeouts-Asserts n node ds s t in
    Asserts-if (has_key (final d.node d.round) s) _ _ (StateTyped n) skip (
      Asserts-bind (number_at (view d.node d.round) s) _ Anything (StateTyped n)
        (number_at-Asserts n d.node d.round s t)
        λ v _. Asserts-if (ltb d.view v) _ _ (StateTyped n) skip (
          Asserts-bind (text_at (prepared d.node d.round d.view) s) _ Anything (StateTyped n)
            (text_at-Asserts n d.node d.round d.view s t)
            λ hval _.
              let raised = number (add_u32 v 1) in
              let s' = put_kv (view d.node d.round) raised s in
              let t' = put_kv-IsTyped n (view d.node d.round) raised s (add_u32 v 1, refl) t in
              Asserts-bind (fire_timeouts node ds s') _ (StateTyped n) (StateTyped n)
                (fire_timeouts-Asserts n node ds s' t') (λ r more. more)))

timeout_value-Asserts : (g : Graph) (delay : Map ℕ ℕ) → Asserts (timeout_value g delay) Anything
unfolding timeout_value
timeout_value-Asserts g delay =
    Asserts-if (ltb g.quorum2f1 (length delay)) _ _ Anything
      (Asserts-maybe (get_elem? (sort_vals (values delay)) g.quorum2f) _ _ Anything (λ _ e. cc)
        (λ xval _. tt))
      tt

set_timeouts-IsTyped :
    (n tround round : ℕ) (peers : List ℕ) (s : State)
    → IsTyped n s
    → IsTyped n (set_timeouts tround round peers s)
unfolding set_timeouts
set_timeouts-IsTyped n tround round [] s t = t
set_timeouts-IsTyped n tround round (xnode ∷ peers) s t =
    set_timeouts-IsTyped n tround round peers
      (add_timeout tround (record { node = xnode; round = round; view = 0 }) s)
      (add_timeout-IsTyped n tround (record { node = xnode; round = round; view = 0 }) s t)

abbrev pub GraphTyped : Graph → Type 0
GraphTyped g = AllTyped (length g.heap) g

module _ (g : Graph) (e : Entry) (t : GraphTyped g) where
  found-IsTyped : IsTyped (length g.heap) (find_or_create_state g e)
  unfolding find_or_create_state
  found-IsTyped =
      either (IsTyped (length g.heap)) (valid e.prev) (clone (find e.prev g.statess) g.round) fresh
        (clone-IsTyped (length g.heap) (find e.prev g.statess) g.round (t e.prev))
        (fresh-IsTyped (length g.heap))

  schedule-IsTyped : (tval : ℕ) → IsTyped (length g.heap) (schedule g e tval)
  unfolding schedule
  schedule-IsTyped tval =
      let s = find_or_create_state g e in
      let s' : State = record s { delay = delays g e; timeout = tval } in
      set_timeouts-IsTyped (length g.heap) (add_u64 e.block.round tval) e.block.round g.peers s'
        (same-IsTyped (length g.heap) s s' refl found-IsTyped)

  prepare_state-Asserts : Asserts (prepare_state g e) (StateTyped (length g.heap))
  unfolding prepare_state
  prepare_state-Asserts =
      let n = length g.heap in
      Asserts-bind (timeout_value g (delays g e)) _ Anything (StateTyped n)
        (timeout_value-Asserts g (delays g e))
        λ tval _.
          let s = schedule g e tval in
          Asserts-bind {B = State × List Message}
            (fire_timeouts e.block.node (due e.block.round s) s)
            (λ (s', out). ok (s', proposal e.block ∷ out)) (StateTyped n) (StateTyped n)
            (fire_timeouts-Asserts n e.block.node (due e.block.round s) s (schedule-IsTyped tval))
            (λ r typed. typed)

process_deps-Asserts :
    (block : BlockId) (deps : List BlockId) (w : Work)
    → AreTyped w.graph w.state
    → Asserts (process_deps block deps w) WorkTyped
unfolding process_deps
process_deps-Asserts block [] w t = t
process_deps-Asserts block (dep ∷ deps) w t =
    let msgs = get_output (find dep w.graph.statess) in
    Asserts-bind (process_messages dep.node block.node block w msgs) _ WorkTyped WorkTyped
      (process_messages-Asserts dep.node block.node block w msgs t)
      λ (w', out) one.
        Asserts-bind (process_deps block deps w') _ WorkTyped WorkTyped
          (process_deps-Asserts block deps w' one) (λ r more. more)

-- The new state of a block enters the graph.
put_state-GraphTyped :
    (g : Graph) (s : State) (b : BlockId)
    → AreTyped g s
    → GraphTyped (record g { statess = put b s g.statess })
put_state-GraphTyped g s b t c s' there =
    elim (put_case (BlockId-discrete b c) s s' (find c g.statess)
      (sym (find-put b c s g.statess) ∙ there)) [
        | inl (same, e) ↦ subst (IsTyped (length g.heap)) e t.state
        | inr old ↦ t.graph c s' old
      ]

process-Asserts : (g : Graph) (e : Entry) → GraphTyped g → Asserts (process g e) GraphTyped
unfolding process
process-Asserts g e t =
    Asserts-bind (prepare_state g e) _ (StateTyped (length g.heap)) GraphTyped
      (prepare_state-Asserts g e t)
      λ (s, own) typed.
        let w : Work = record { graph = g; state = s; processed = [] } in
        Asserts-bind (process_messages e.block.node e.block.node e.block w own) _ WorkTyped
          GraphTyped
          (process_messages-Asserts e.block.node e.block.node e.block w own
            (record { state = typed; graph = t }))
          λ (w', out) one.
            Asserts-bind (process_deps e.block e.deps w') _ WorkTyped GraphTyped
              (process_deps-Asserts e.block e.deps w' one)
              λ (w'', more) two.
                let s' : State = record w''.state { out = own ++ (out ++ more) } in
                put_state-GraphTyped w''.graph s' e.block (record {
                  state = same-IsTyped (length w''.graph.heap) w''.state s' refl two.state;
                  graph = two.graph;
                })

process_all-Asserts :
    (es : List Entry) (g : Graph) → GraphTyped g → Asserts (process_all es g) GraphTyped
unfolding process_all
process_all-Asserts [] g t = t
process_all-Asserts (e ∷ es) g t =
    Asserts-bind (process g e) _ GraphTyped GraphTyped (process-Asserts g e t)
      (λ g' t'. process_all-Asserts es g' t')

enter-GraphTyped : (g : Graph) (b : BlockGraph) → GraphTyped g → GraphTyped (enter g b).1
unfolding enter
enter-GraphTyped g b t = t

run-GraphTyped :
    (blocks : List BlockGraph) (g : Graph) → GraphTyped g → Asserts (run g blocks) GraphTyped
unfolding run add
run-GraphTyped [] g t = t
run-GraphTyped (b ∷ bs) g t =
    Asserts-bind (add g b) _ GraphTyped GraphTyped
      (process_all-Asserts (enter g b).0 (enter g b).1 (enter-GraphTyped g b t))
      (λ g' t'. run-GraphTyped bs g' t')

-- In the run of a new graph over any list of blocks no type assertion on a value of a state's data
-- fails. If no call crashes, then in the state of every block each key has a value of its own type:
-- a number under a `View` key, a text under a `Prepared` key, a pre-prepare message under a
-- `PrePrepared` key, `true` under an `HNV` key, and under a `ViewChanged` key the address of a map
-- that was allocated; no key of type `Final` is there.
pub run-Asserts :
    (cfg : Config) (blocks : List BlockGraph) → Asserts (run (new cfg) blocks) GraphTyped
unfolding new find
run-Asserts cfg blocks = run-GraphTyped blocks (new cfg) (λ b s there. cc)
