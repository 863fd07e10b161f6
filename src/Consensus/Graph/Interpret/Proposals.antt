-- ===== src/Consensus/Graph/Interpret/Proposals.antt =====
-- A block prepares at most one proposal for a node, a round and a view.
use blockmania.Prelude.{
  ℕ, ◌≡◌, refl, arith, none, some, true, not, ◌==◌, Meets, Meets-if, Meets-bind, Meets-mono,
  Meets-ok, ok, find-put_self,
}
use blockmania.Consensus.Block.{BlockId}
use blockmania.Consensus.Messages.{PrePrepare, Message, pre_prepare}
use blockmania.Consensus.StateData.{StateData, message, final, pre_prepared, state_data_key}
use blockmania.Consensus.Bitset.{set_prepare}
use blockmania.Consensus.Bitset.Returns.{Anything, set_prepare-Meets}
use blockmania.Consensus.State.{State, get_bitset, set_bitset, get_view}
use blockmania.Consensus.Graph.{Graph}
use blockmania.Consensus.Graph.Interpret.{Step, has_key, on_pre_prepare, dispatch, process_message}
use blockmania.Consensus.Graph.Interpret.Later.{Later, Later-has_key}
use blockmania.Consensus.Graph.Interpret.Lasting.{Views, get_view-Views}

-- The key of the proposal is there after an answer, and there is none if it was there before.
record Prepares (key : StateData) (s : State) (step : Step) : Type 0 where
  noted : (a : Message) → step.answer ≡ some a → has_key key step.state ≡ true
  once : has_key key s ≡ true → step.answer ≡ none

abbrev key_of : PrePrepare → StateData
key_of m = pre_prepared m.node m.round m.view

quiet :
    (key : StateData) (s s' : State) (g : Graph)
    → Prepares key s (record { graph = g; state = s'; answer = none })
quiet key s s' g = record { noted = λ a e. cc; once = λ h. refl }

on_pre_prepare-Prepares :
    (g : Graph) (s : State) (sender receiver v : ℕ) (m : PrePrepare)
    → Meets (on_pre_prepare g s sender receiver v m) (Prepares (key_of m) s)
unfolding on_pre_prepare
on_pre_prepare-Prepares g s sender receiver v m =
    let key = key_of m in
    Meets-if (not (v == m.view)) _ _ (Prepares key s) (λ _. quiet key s s g)
      λ _.
        Meets-if (has_key key s) _ _ (Prepares key s) (λ _. quiet key s s g)
          λ absent.
            let (s', b) = get_bitset s g.peer_count m in
            Meets-bind (set_prepare b sender) _ Anything (Prepares key s)
              (set_prepare-Meets b sender)
              λ b' _ _.
                Meets-bind (set_prepare b' receiver) _ Anything (Prepares key s)
                  (set_prepare-Meets b' receiver)
                  λ b'' _ _. record {
                    noted = λ a e.
                        ground (arith, find-put_self key (message m) (set_bitset s' m b'').kv);
                    once = λ there. cc (there, absent);
                  }

process_message-Prepares :
    (g : Graph) (s : State) (sender receiver : ℕ) (origin : BlockId) (m : PrePrepare)
    → Meets (process_message g s sender receiver origin (pre_prepare m)) (Prepares (key_of m) s)
unfolding process_message dispatch
process_message-Prepares g s sender receiver origin m =
    let key = key_of m in
    Meets-if (has_key (final m.node m.round) s) _ _ (Prepares key s) (λ _. quiet key s s g)
      λ _.
        Meets-bind (get_view s m.node m.round) _ (Views s m.node m.round) (Prepares key s)
          (get_view-Views s m.node m.round)
          λ (s', v) _ seen.
            Meets-mono (on_pre_prepare g s' sender receiver v m) (Prepares key s') (Prepares key s)
              (on_pre_prepare-Prepares g s' sender receiver v m)
              λ step p. record {
                noted = p.noted;
                once = λ there. p.once (seen.lasts.keys key there);
              }

-- Once a state has answered a proposal, no state that the interpreter makes from it answers a proposal
-- for the same node, round and view, whatever its hash and whichever graph, sender and receiver it is
-- interpreted with: not after other messages, and not in the states of later blocks of the node, which
-- begin with a clone, as long as the proposal's round is not below the round of the graph.
pub process_message_prepares_once :
    (g g' : Graph) (s s' : State) (sender receiver sender' receiver' : ℕ) (origin origin' : BlockId)
    (m m' : PrePrepare) (step : Step) (a : Message)
    → m'.node ≡ m.node
    → m'.round ≡ m.round
    → m'.view ≡ m.view
    → process_message g s sender receiver origin (pre_prepare m) ≡ ok step
    → step.answer ≡ some a
    → Later m.round s' step.state
    → Meets
        (process_message g' s' sender' receiver' origin' (pre_prepare m'))
        (λ later. later.answer ≡ none)
process_message_prepares_once g g' s s' sender receiver sender' receiver' origin origin' m m' step a
      en er ev e answered later =
    let before = process_message-Prepares g s sender receiver origin m in
    let first : Prepares (key_of m) s step =
      Meets-ok (process_message g s sender receiver origin (pre_prepare m)) (Prepares (key_of m) s)
        step before e in
    Meets-mono (process_message g' s' sender' receiver' origin' (pre_prepare m'))
      (Prepares (key_of m') s') (λ later. later.answer ≡ none)
      (process_message-Prepares g' s' sender' receiver' origin' m')
      (λ r p.
        p.once
          (rw (en, er, ev) (Later-has_key (key_of m) s' step.state later (first.noted a answered))))
