-- ===== src/Tests/Consensus.antt =====
-- Four nodes that include one another's blocks of the round before, as node 0 sees them.
use blockmania.Prelude.{
  ℕ, zero, suc, ◌+◌, List, [], ◌∷◌, ◌++◌, map, ◌==◌, if◌then◌else◌, Outcome, ok, fault, ◌≡◌, refl,
  some, none, Bool, Meets, Asserts, ◌≤◌, ◌%◌, ◌↔◌, arith, ℕ_discrete, find,
}
use blockmania.Consensus.Block.{BlockId, BlockId-discrete, Dep, BlockGraph, Interpreted, no_block}
use blockmania.Consensus.Bitset.{new_bitset}
use blockmania.Consensus.Messages.{
  Message, Message-discrete, PrePrepare, PrePrepare-discrete, Prepare, Commit, pre_prepare, prepare,
  commit,
}
use blockmania.Consensus.StateData.{StateData-discrete}
use blockmania.Consensus.State.{State, fresh, NodeRound-discrete}
use blockmania.Consensus.Graph.{Config, Entry, Graph, new}
use blockmania.Consensus.Graph.Deliver.Order.{Extends}
use blockmania.Consensus.Graph.Typing.Runs.{GraphTyped, run-Asserts}
use blockmania.Consensus.Graph.Run.{run}
use blockmania.Consensus.Graph.Run.Rounds.{IsDelivered, run-Chain}
use blockmania.Consensus.Graph.Quorum.{members, both, new_overlap}
use blockmania.Consensus.Graph.Interpret.{Step, process_message}
use blockmania.Consensus.Graph.Interpret.Later.{Later, now, continued}
use blockmania.Consensus.Graph.Process.{prepare_state}
use blockmania.Consensus.Graph.Interpret.Lasting.{LastsIn, process_message-Lasts}
use blockmania.Consensus.Graph.Interpret.Proposals.{process_message_prepares_once}
use blockmania.Consensus.Graph.Interpret.Quorums.{
  HasQuorum, IsDecided, process_message-HasQuorum, process_message-IsDecided,
}
use blockmania.Consensus.Graph.Messages.{process_messages}
use blockmania.Consensus.Graph.Messages.Closure.{process_messages-Grows}

abbrev four : Config
four = record { last_interpreted = 0; peers = 0 ∷ 1 ∷ 2 ∷ 3 ∷ []; self_id = 0; total_nodes = 4 }

-- Round 0 has no blocks.
abbrev block : ℕ → ℕ → BlockId
block zero n = no_block
block (suc r) n = record { hash = (n + 65) ∷ (r + 1) ∷ []; node = n; round = suc r }

abbrev others : ℕ → List ℕ
others n =
    (if n == 0 then [] else 0 ∷ [])
    ++ ((if n == 1 then [] else 1 ∷ [])
        ++ ((if n == 2 then [] else 2 ∷ []) ++ (if n == 3 then [] else 3 ∷ [])))

abbrev links : ℕ → ℕ → List BlockId
links zero n = []
links (suc r) n = map (block (suc r)) (others n)

abbrev deps_at : ℕ → ℕ → List Dep
deps_at zero n = []
deps_at (suc r) n =
    map (λ m. record { block = block (suc r) m; deps = links r m; prev = block r m }) (others n)

abbrev own_block : ℕ → BlockGraph
own_block zero = record { block = no_block; deps = []; prev = no_block }
own_block (suc r) = record { block = block (suc r) 0; deps = deps_at r 0; prev = block r 0 }

abbrev rounds : ℕ → ℕ → List BlockGraph
rounds zero from = []
rounds (suc k) from = own_block from ∷ rounds k (suc from)

abbrev delivered : Outcome Graph → List Interpreted
delivered (ok g) = g.delivered
delivered (fault f) = []

abbrev round_of : Outcome Graph → ℕ
round_of (ok g) = g.round
round_of (fault f) = 999

six_rounds : Outcome Graph
unfolding run new
six_rounds = run (new four) (rounds 6 1)

-- Six rounds of blocks are enough for the first three.
three_delivered :
    (map (λ d. d.round) (delivered six_rounds) ≡ 1 ∷ 2 ∷ 3 ∷ []) × (round_of six_rounds ≡ 4)
unfolding six_rounds new_bitset BlockId-discrete Message-discrete PrePrepare-discrete
    StateData-discrete NodeRound-discrete ℕ_discrete
three_delivered = (refl, refl)

run-Chain_example : Meets (run (new four) (rounds 6 1)) (IsDelivered four)
run-Chain_example = run-Chain four (rounds 6 1)

-- The proposal of node 1 for its first block, and what node 0 makes of it.
abbrev proposal : PrePrepare
proposal = record { hash = 66 ∷ 1 ∷ []; node = 1; round = 1; view = 0 }

abbrev rival : PrePrepare
rival = record { hash = 99 ∷ []; node = 1; round = 1; view = 0 }

abbrev vote : ℕ → Prepare
vote sender = record { hash = 66 ∷ 1 ∷ []; node = 1; round = 1; sender = sender; view = 0 }

abbrev decision : ℕ → Commit
decision sender = record { hash = 66 ∷ 1 ∷ []; node = 1; round = 1; sender = sender; view = 0 }

abbrev step_of : Outcome Step → Step
step_of (ok step) = step
step_of (fault f) = record { graph = new four; state = fresh; answer = none }

process_message-Lasts_example :
    Meets (process_message (new four) fresh 1 0 (block 2 0) (pre_prepare proposal)) (LastsIn fresh)
process_message-Lasts_example =
    process_message-Lasts (new four) fresh 1 0 (block 2 0) (pre_prepare proposal)

process_message-HasQuorum_example :
    Meets
      (process_message (new four) fresh 1 0 (block 2 0) (prepare (vote 1)))
      (HasQuorum (new four) proposal)
process_message-HasQuorum_example =
    process_message-HasQuorum (new four) fresh 1 0 (block 2 0) (vote 1)

process_message-IsDecided_example :
    Meets
      (process_message (new four) fresh 1 0 (block 2 0) (commit (decision 1)))
      (IsDecided (new four) fresh (decision 1))
process_message-IsDecided_example =
    process_message-IsDecided (new four) fresh 1 0 (block 2 0) (decision 1)

prepared_step : Outcome Step
unfolding process_message new
prepared_step = process_message (new four) fresh 1 0 (block 2 0) (pre_prepare proposal)

prepared_step_lem :
    process_message (new four) fresh 1 0 (block 2 0) (pre_prepare proposal)
    ≡ ok (step_of prepared_step)
unfolding prepared_step new_bitset BlockId-discrete Message-discrete PrePrepare-discrete
    StateData-discrete NodeRound-discrete ℕ_discrete
prepared_step_lem = refl

prepared_answer : (step_of prepared_step).answer ≡ some (prepare (vote 0))
unfolding prepared_step new_bitset BlockId-discrete Message-discrete PrePrepare-discrete
    StateData-discrete NodeRound-discrete ℕ_discrete
prepared_answer = refl

-- The state of the next block of node 0 begins with a clone of this one.
abbrev grown : Graph
grown = record (new four) { statess = (block 1 0, (step_of prepared_step).state) ∷ [] }

abbrev next_entry : Entry
next_entry = record { block = block 2 0; deps = []; prev = block 1 0 }

abbrev begun_of : Outcome (State × List Message) → State × List Message
begun_of (ok r) = r
begun_of (fault f) = (fresh, [])

begun : Outcome (State × List Message)
unfolding prepare_state new
begun = prepare_state grown next_entry

begun_lem : prepare_state grown next_entry ≡ ok (begun_of begun)
unfolding begun prepared_step new_bitset BlockId-discrete Message-discrete PrePrepare-discrete
    StateData-discrete NodeRound-discrete ℕ_discrete
begun_lem = refl

begun-Later : Later 1 (begun_of begun).0 (step_of prepared_step).state
unfolding find BlockId-discrete ℕ_discrete new
begun-Later =
    continued grown next_entry (begun_of begun).0 (begun_of begun).1 refl refl (omega arith)
      begun_lem now

process_message_prepares_once_example :
    Meets
      (process_message (new four) (begun_of begun).0 2 0 (block 3 0) (pre_prepare rival))
      (λ later. later.answer ≡ none)
process_message_prepares_once_example =
    process_message_prepares_once (new four) (new four) fresh (begun_of begun).0 1 0 2 0 (block 2 0)
      (block 3 0) proposal rival (step_of prepared_step) (prepare (vote 0)) refl refl refl
      prepared_step_lem prepared_answer begun-Later

process_messages-Grows_example :
    Meets
      (process_messages 0 0
        (block 1 0)
        (record { graph = new four; state = fresh; processed = [] })
        (pre_prepare proposal ∷ []))
      (λ r. Extends (new four) r.0.graph)
process_messages-Grows_example =
    process_messages-Grows 0 0 (block 1 0)
      (record { graph = new four; state = fresh; processed = [] }) (pre_prepare proposal ∷ [])

new_overlap_example :
    ((p q : ℕ → Bool)
      → members (new four).peer_count p ≡ (new four).quorum2f1
      → members (new four).peer_count q ≡ (new four).quorum2f1
      → (new four).quorumf1 ≤ members (new four).peer_count (both p q))
    ↔ (4 % 3 ≡ 1)
new_overlap_example = new_overlap four (omega arith)

run-Asserts_example : Asserts (run (new four) (rounds 6 1)) GraphTyped
run-Asserts_example = run-Asserts four (rounds 6 1)
