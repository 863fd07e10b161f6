-- ===== src/Consensus/Graph/Messages/Closure.antt =====
-- `processMessages` ends, and what it does to the graph.
use blockmania.Prelude.{
  ℕ, zero, suc, ◌+◌, ◌*◌, ◌≤◌, ◌<◌, List, [], ◌∷◌, ◌++◌, ◌≡◌, arith, find, length, Option, none,
  some, Meets, Meets-maybe, Meets-bind, Meets-mono,
}
use blockmania.Consensus.Block.{BlockId}
use blockmania.Consensus.Messages.{
  Message, message_key, pre_prepare, prepare, commit, view_change, new_view,
}
use blockmania.Consensus.Graph.Deliver.Order.{Extends, Extends-refl, Extends-trans}
use blockmania.Consensus.Graph.Interpret.{process_message}
use blockmania.Consensus.Graph.Interpret.Levels.{level, IsBelow, IsGood, process_message-IsGood}
use blockmania.Consensus.Graph.Messages.{
  Work, to_list, process_one, process_given, process_answers, process_messages,
}

abbrev total : List Message → ℕ
total [] = 0
total (m ∷ ms) = level m + total ms

level_bounds : (m : Message) → (1 ≤ level m) × (level m ≤ 5)
level_bounds (pre_prepare m) = omega arith
level_bounds (prepare m) = omega arith
level_bounds (commit m) = omega arith
level_bounds (view_change m) = omega arith
level_bounds (new_view m) = omega arith

total-le-length : (ms : List Message) → total ms ≤ 5 * length ms
total-le-length [] = omega arith
total-le-length (m ∷ ms) = omega (arith, level_bounds m, total-le-length ms)

total-append : (xs ys : List Message) → total (xs ++ ys) ≡ total xs + total ys
total-append [] ys = omega arith
total-append (x ∷ xs) ys = omega (arith, total-append xs ys)

total-answer :
    (msg : Message) (resp : Option Message) → IsBelow msg resp → total (to_list resp) < level msg
total-answer msg none h = omega (arith, level_bounds msg)
total-answer msg (some a) h = omega arith

module _ (sender receiver : ℕ) (origin : BlockId) where
  abbrev Answers : Work → Message → Work × Option Message → Type 0
  Answers w msg r = Extends w.graph r.0.graph × IsBelow msg r.1

  process_one-Answers :
      (w : Work) (msg : Message) → Meets (process_one sender receiver origin w msg) (Answers w msg)
  unfolding process_one
  process_one-Answers w msg =
      Meets-maybe (find msg w.processed) _ _ (Answers w msg)
        (λ _.
          Meets-bind (process_message w.graph w.state sender receiver origin msg) _
            (IsGood w.graph msg) (Answers w msg)
            (process_message-IsGood w.graph w.state sender receiver origin msg)
            (λ step _ good. (good.extends, good.below)))
        (λ seen _. (Extends-refl w.graph, tt))

  abbrev Grows : Work → Work × List Message → Type 0
  Grows w r = Extends w.graph r.0.graph

  process_given-Grows :
      (w : Work) (msgs : List Message)
      → Meets (process_given sender receiver origin w msgs) (Grows w)
  unfolding process_given
  process_given-Grows w [] = Extends-refl w.graph
  process_given-Grows w (msg ∷ msgs) =
      Meets-bind (process_one sender receiver origin w msg) _ (Answers w msg) (Grows w)
        (process_one-Answers w msg)
        λ (w', resp) _ one.
          Meets-bind (process_given sender receiver origin w' msgs) _ (Grows w') (Grows w)
            (process_given-Grows w' msgs) (λ (w'', out) _ more. Extends-trans one.0 more)

  process_answers-Grows :
      (fuel : ℕ) (w : Work) (pending : List Message)
      → total pending ≤ fuel
      → Meets (process_answers sender receiver origin fuel w pending) (Grows w)
  unfolding process_answers
  process_answers-Grows fuel w [] enough = Extends-refl w.graph
  process_answers-Grows zero w (msg ∷ pending) enough = absurd (omega (arith, level_bounds msg))
  process_answers-Grows (suc fuel) w (msg ∷ pending) enough =
      Meets-bind (process_one sender receiver origin w msg) _ (Answers w msg) (Grows w)
        (process_one-Answers w msg)
        λ (w', resp) _ one.
          Meets-bind (process_answers sender receiver origin fuel w' (pending ++ to_list resp)) _
            (Grows w') (Grows w)
            (process_answers-Grows fuel w' (pending ++ to_list resp)
              (omega (arith, total-append pending (to_list resp), total-answer msg resp one.1)))
            (λ (w'', out) _ more. Extends-trans one.0 more)

  -- On any list of messages the loop over the growing list of answers ends within the fuel, and the
  -- graph only gains whole rounds, in order.
  pub process_messages-Grows :
      (w : Work) (msgs : List Message)
      → Meets (process_messages sender receiver origin w msgs) (Grows w)
  unfolding process_messages
  process_messages-Grows w msgs =
      Meets-bind (process_given sender receiver origin w msgs) _ (Grows w) (Grows w)
        (process_given-Grows w msgs)
        λ (w', out) _ given.
          Meets-mono (process_answers sender receiver origin (5 * length out) w' out) (Grows w')
            (Grows w) (process_answers-Grows (5 * length out) w' out (total-le-length out))
            (λ r more. Extends-trans given more)
