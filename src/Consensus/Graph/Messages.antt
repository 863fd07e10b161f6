-- ===== src/Consensus/Graph/Messages.antt =====
-- `processMessages`: the closure of a list of messages under the answers to them.
pub mod Closure
use blockmania.Prelude.{
  ℕ, zero, suc, ◌+◌, ◌*◌, List, [], ◌∷◌, ◌++◌, Option, none, some, Bool, true, Map, find, put,
  length, maybe, Outcome, ok, fault, out_of_fuel, ◌>>=◌,
}
use blockmania.Consensus.Block.{BlockId}
use blockmania.Consensus.Messages.{Message, message_key}
use blockmania.Consensus.State.{State}
use blockmania.Consensus.Graph.{Graph}
use blockmania.Consensus.Graph.Interpret.{process_message}

-- What the loops of `processMessages` change: the graph, the state, the set of processed messages.
pub record Work : Type 0 where
  pub graph : Graph
  pub state : State
  pub processed : Map Message Bool

-- `if resp != nil { out = append(out, resp) }`.
abbrev pub to_list : Option Message → List Message
to_list none = []
to_list (some m) = m ∷ []

module _ (sender receiver : ℕ) (origin : BlockId) where
  -- The body of both loops: the answer to a message that was not processed before.
  unfoldable pub process_one : Work → Message → Outcome (Work × Option Message)
  unfolding find put process_message
  process_one w msg =
      maybe (find msg w.processed)
        (process_message w.graph w.state sender receiver origin msg >>= λ step. ok (
          record { graph = step.graph; state = step.state; processed = put msg true w.processed },
          step.answer,
        ))
        (λ seen. ok (w, none))

  -- The loop over the given messages: the answers, in order.
  unfoldable pub process_given : Work → List Message → Outcome (Work × List Message)
  unfolding process_one
  process_given w [] = ok (w, [])
  process_given w (msg ∷ msgs) = process_one w msg >>= λ (w', resp).
      process_given w' msgs >>= λ (w'', out). ok (w'', to_list resp ++ out)

  -- The loop over `out`, which grows: `pending` is what `i` has not reached. It returns the answers
  -- from there on.
  unfoldable pub process_answers : ℕ → Work → List Message → Outcome (Work × List Message)
  unfolding process_one
  process_answers fuel w [] = ok (w, [])
  process_answers zero w (msg ∷ pending) = fault out_of_fuel
  process_answers (suc fuel) w (msg ∷ pending) = process_one w msg >>= λ (w', resp).
      process_answers fuel w' (pending ++ to_list resp) >>= λ (w'', out). ok (w'', msg ∷ out)

  -- Each answer stands on a lower level than its message, and there are five levels.
  unfoldable pub process_messages : Work → List Message → Outcome (Work × List Message)
  unfolding process_given process_answers
  process_messages w msgs =
      process_given w msgs >>= λ (w', out). process_answers (5 * length out) w' out
