-- ===== src/Consensus/Graph/Typing/Answers.antt =====
-- `processMessages` keeps the values typed.
use blockmania.Prelude.{
  ℕ, ◌*◌, zero, suc, List, [], ◌∷◌, ◌++◌, find, length, nat_key, Asserts, Asserts-bind,
  Asserts-maybe,
}
use blockmania.Consensus.Block.{BlockId, block_id_key}
use blockmania.Consensus.Messages.{Message, message_key}
use blockmania.Consensus.StateData.{state_data_key}
use blockmania.Consensus.Graph.Interpret.{process_message}
use blockmania.Consensus.Graph.Messages.{
  Work, to_list, process_one, process_given, process_answers, process_messages,
}
use blockmania.Consensus.Graph.Typing.{AreTyped}
use blockmania.Consensus.Graph.Typing.Steps.{StepTyped}
use blockmania.Consensus.Graph.Typing.Replies.{process_message-Asserts}

abbrev pub WorkTyped : {A : Type 0} → Work × A → Type 0
WorkTyped r = AreTyped r.0.graph r.0.state

module _ (sender receiver : ℕ) (origin : BlockId) where
  process_one-Asserts :
      (w : Work) (msg : Message)
      → AreTyped w.graph w.state
      → Asserts (process_one sender receiver origin w msg) WorkTyped
  unfolding process_one
  process_one-Asserts w msg t =
      Asserts-maybe (find msg w.processed) _ _ WorkTyped
        (λ _.
          Asserts-bind (process_message w.graph w.state sender receiver origin msg) _ StepTyped
            WorkTyped (process_message-Asserts w.graph w.state t sender receiver origin msg)
            (λ step good. good))
        (λ seen _. t)

  process_given-Asserts :
      (w : Work) (msgs : List Message)
      → AreTyped w.graph w.state
      → Asserts (process_given sender receiver origin w msgs) WorkTyped
  unfolding process_given
  process_given-Asserts w [] t = t
  process_given-Asserts w (msg ∷ msgs) t =
      Asserts-bind (process_one sender receiver origin w msg) _ WorkTyped WorkTyped
        (process_one-Asserts w msg t)
        λ (w', resp) one.
          Asserts-bind (process_given sender receiver origin w' msgs) _ WorkTyped WorkTyped
            (process_given-Asserts w' msgs one) (λ r more. more)

  process_answers-Asserts :
      (fuel : ℕ) (w : Work) (pending : List Message)
      → AreTyped w.graph w.state
      → Asserts (process_answers sender receiver origin fuel w pending) WorkTyped
  unfolding process_answers
  process_answers-Asserts fuel w [] t = t
  process_answers-Asserts zero w (msg ∷ pending) t = λ e. cc
  process_answers-Asserts (suc fuel) w (msg ∷ pending) t =
      Asserts-bind (process_one sender receiver origin w msg) _ WorkTyped WorkTyped
        (process_one-Asserts w msg t)
        λ (w', resp) one.
          Asserts-bind (process_answers sender receiver origin fuel w' (pending ++ to_list resp)) _
            WorkTyped WorkTyped (process_answers-Asserts fuel w' (pending ++ to_list resp) one)
            (λ r more. more)

  pub process_messages-Asserts :
      (w : Work) (msgs : List Message)
      → AreTyped w.graph w.state
      → Asserts (process_messages sender receiver origin w msgs) WorkTyped
  unfolding process_messages
  process_messages-Asserts w msgs t =
      Asserts-bind (process_given sender receiver origin w msgs) _ WorkTyped WorkTyped
        (process_given-Asserts w msgs t)
        (λ (w', out) given. process_answers-Asserts (5 * length out) w' out given)
