-- ===== src/Consensus/Graph/Run/Rounds.antt =====
-- The rounds that a whole run hands to the callback.
use blockmania.Prelude.{
  ℕ, All, some, ◌≡◌, List, [], ◌∷◌, refl, sym, subst, find, Map, length, add_u64, ok, ltb, Meets,
  Meets-maybe, Meets-bind, Meets-mono, Meets-if, get_elem?, nat_key,
}
use blockmania.Consensus.Block.{Hash, BlockId, BlockGraph, block_id_key}
use blockmania.Consensus.Messages.{Message}
use blockmania.Consensus.StateData.{
  StateData, StateValue, text, view, final, prepared, state_data_key,
}
use blockmania.Consensus.State.{State, Timeout, as_text, get_output}
use blockmania.Consensus.Bitset.Returns.{Anything}
use blockmania.Consensus.Graph.{Graph, Entry, Config, new}
use blockmania.Consensus.Graph.Deliver.Order.{
  Chain, Extends, Same-Extends, Extends-refl, Extends-trans,
}
use blockmania.Consensus.Graph.Deliver.Single.{Single}
use blockmania.Consensus.Graph.Interpret.{has_key}
use blockmania.Consensus.Graph.Interpret.Levels.{as_number-Meets}
use blockmania.Consensus.Graph.Messages.{Work, process_messages}
use blockmania.Consensus.Graph.Messages.Closure.{process_messages-Grows}
use blockmania.Consensus.Graph.Process.{
  timeout_value, sort_vals, values, fire_timeouts, number_at, text_at, delays, schedule, due,
  proposal, prepare_state, process_deps, process,
}
use blockmania.Consensus.Graph.Run.{enter, process_all, add, run}

as_text-Meets : (val : StateValue) → Meets (as_text val) Anything
as_text-Meets (text h) = tt
as_text-Meets _ = λ e. cc

pub number_at-Meets : (key : StateData) (s : State) → Meets (number_at key s) Anything
number_at-Meets key s =
    Meets-maybe (find key s.kv) _ _ Anything (λ _. tt) (λ val _. as_number-Meets val)

pub text_at-Meets : (key : StateData) (s : State) → Meets (text_at key s) Anything
text_at-Meets key s =
    Meets-maybe (find key s.kv) _ _ Anything (λ _. tt) (λ val _. as_text-Meets val)

fire_timeouts-Meets :
    (node : ℕ) (tmouts : List Timeout) (s : State) → Meets (fire_timeouts node tmouts s) Anything
unfolding fire_timeouts
fire_timeouts-Meets node [] s = tt
fire_timeouts-Meets node (t ∷ ts) s =
    Meets-if (has_key (final t.node t.round) s) _ _ Anything (λ _. fire_timeouts-Meets node ts s)
      λ _.
        Meets-bind (number_at (view t.node t.round) s) _ Anything Anything
          (number_at-Meets (view t.node t.round) s)
          λ v _ _.
            Meets-if (ltb t.view v) _ _ Anything (λ _. fire_timeouts-Meets node ts s)
              λ _.
                Meets-bind (text_at (prepared t.node t.round t.view) s) _ Anything Anything
                  (text_at-Meets (prepared t.node t.round t.view) s)
                  λ hval _ _.
                    Meets-bind (fire_timeouts node ts _) _ Anything Anything
                      (fire_timeouts-Meets node ts _) (λ r _ _. tt)

pub timeout_value-Meets : (g : Graph) (delay : Map ℕ ℕ) → Meets (timeout_value g delay) Anything
unfolding timeout_value
timeout_value-Meets g delay =
    Meets-if (ltb g.quorum2f1 (length delay)) _ _ Anything
      (λ _.
        Meets-maybe (get_elem? (sort_vals (values delay)) g.quorum2f) _ _ Anything (λ _ e. cc)
          (λ xval _. tt))
      (λ _. tt)

prepare_state-Meets : (g : Graph) (e : Entry) → Meets (prepare_state g e) Anything
unfolding prepare_state
prepare_state-Meets g e =
    Meets-bind (timeout_value g (delays g e)) _ Anything Anything
      (timeout_value-Meets g (delays g e))
      λ tval _ _.
        let s = schedule g e tval in
        Meets-bind {B = State × List Message} (fire_timeouts e.block.node (due e.block.round s) s)
          (λ (s', out). ok (s', proposal e.block ∷ out)) Anything Anything
          (fire_timeouts-Meets e.block.node (due e.block.round s) s) (λ r _ _. tt)

abbrev Grows : Work → Work × List Message → Type 0
Grows w r = Extends w.graph r.0.graph

process_deps-Grows :
    (block : BlockId) (deps : List BlockId) (w : Work) → Meets (process_deps block deps w) (Grows w)
unfolding process_deps
process_deps-Grows block [] w = Extends-refl w.graph
process_deps-Grows block (dep ∷ deps) w =
    let msgs = get_output (find dep w.graph.statess) in
    Meets-bind (process_messages dep.node block.node block w msgs) _ (Grows w) (Grows w)
      (process_messages-Grows dep.node block.node block w msgs)
      λ (w', out) _ one.
        Meets-bind (process_deps block deps w') _ (Grows w') (Grows w)
          (process_deps-Grows block deps w') (λ r _ more. Extends-trans one more)

statess-Extends :
    (g : Graph) (statess : Map BlockId State) → Extends g (record g { statess = statess })
statess-Extends g statess = Same-Extends (record {
  delivered = refl;
  round = refl;
  peer_count = refl;
  peers = refl;
  quorum2f = refl;
  quorum2f1 = refl;
  tidy = λ t. t;
})

process-Extends : (g : Graph) (e : Entry) → Meets (process g e) (Extends g)
unfolding process
process-Extends g e =
    Meets-bind (prepare_state g e) _ Anything (Extends g) (prepare_state-Meets g e) λ (s, own) _ _.
      let w : Work = record { graph = g; state = s; processed = [] } in
      Meets-bind (process_messages e.block.node e.block.node e.block w own) _ (Grows w) (Extends g)
        (process_messages-Grows e.block.node e.block.node e.block w own)
        λ (w', out) _ one.
          Meets-bind (process_deps e.block e.deps w') _ (Grows w') (Extends g)
            (process_deps-Grows e.block e.deps w')
            λ (w'', more) _ two. Extends-trans one (Extends-trans two (statess-Extends w''.graph _))

process_all-Extends : (es : List Entry) (g : Graph) → Meets (process_all es g) (Extends g)
unfolding process_all
process_all-Extends [] g = Extends-refl g
process_all-Extends (e ∷ es) g =
    Meets-bind (process g e) _ (Extends g) (Extends g) (process-Extends g e) λ g' _ one.
      Meets-mono (process_all es g') (Extends g') (Extends g) (process_all-Extends es g')
        (λ h more. Extends-trans one more)

enter-Extends : (g : Graph) (b : BlockGraph) → Extends g (enter g b).1
unfolding enter
enter-Extends g b = Same-Extends (record {
  delivered = refl;
  round = refl;
  peer_count = refl;
  peers = refl;
  quorum2f = refl;
  quorum2f1 = refl;
  tidy = λ t. t;
})

add-Extends : (g : Graph) (b : BlockGraph) → Meets (add g b) (Extends g)
unfolding add
add-Extends g b =
    let (entries, g') = enter g b in
    Meets-mono (process_all entries g') (Extends g') (Extends g) (process_all-Extends entries g')
      (λ h more. Extends-trans (enter-Extends g b) more)

run-Extends : (blocks : List BlockGraph) (g : Graph) → Meets (run g blocks) (Extends g)
unfolding run
run-Extends [] g = Extends-refl g
run-Extends (b ∷ bs) g =
    Meets-bind (add g b) _ (Extends g) (Extends g) (add-Extends g b) λ g' _ one.
      Meets-mono (run g' bs) (Extends g') (Extends g) (run-Extends bs g')
        (λ h more. Extends-trans one more)

-- What a run has given to the callback by the time that the graph is `g`.
pub record IsDelivered (cfg : Config) (g : Graph) : Type 0 where
  pub chain : Chain (length cfg.peers) (add_u64 cfg.last_interpreted 1) g.delivered g.round
  pub single : All (λ d. Single d.blocks) g.delivered

no_hashes : (round : ℕ) (hs : Map ℕ Hash) → find {V = Map ℕ Hash} round [] ≡ some hs → ⊥
unfolding find
no_hashes round hs there = cc

-- The run of a new graph over any list of blocks ends. If no call crashes, the callback was given
-- consecutive rounds (modulo 2 ^ 64) from the one after the last interpreted on, each once and none
-- left out, and the graph stands at the round after the last of them. A round has no more blocks than
-- there are peers and at most one of each node; each block has a hash and is of that round, and they
-- come in the order of hashes.
pub run-Chain :
    (cfg : Config) (blocks : List BlockGraph) → Meets (run (new cfg) blocks) (IsDelivered cfg)
unfolding new
run-Chain cfg blocks =
    Meets-mono (run (new cfg) blocks) (Extends (new cfg)) _ (run-Extends blocks (new cfg)) λ g x.
      record {
        chain =
            subst (λ l. Chain (length cfg.peers) (add_u64 cfg.last_interpreted 1) l g.round)
              (sym x.delivered) x.chain;
        single =
            subst (All (λ d. Single d.blocks)) (sym x.delivered)
              (x.single (λ round hs there. absurd (no_hashes round hs there))).1;
      }
