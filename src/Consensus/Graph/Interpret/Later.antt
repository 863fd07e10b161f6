-- ===== src/Consensus/Graph/Interpret/Later.antt =====
-- How the interpreter comes from the state of a block to later ones, and what of a round lasts.
use blockmania.Prelude.{
  ℕ, ◌≤◌, List, [], ◌∷◌, some, true, not, ltb, find, find-put, find-keep, ◌≡◌, refl, ◌∙◌, arith,
  Meets, Meets-if, Meets-bind, Meets-ok, ok, nat_key, add_u64,
}
use blockmania.Consensus.Block.{BlockId, valid, block_id_key}
use blockmania.Consensus.Messages.{Message}
use blockmania.Consensus.StateData.{
  StateData, StateValue, get_round, view, final, prepared, state_data_key,
}
use blockmania.Consensus.Bitset.Returns.{Anything}
use blockmania.Consensus.State.{State, Timeout, clone, put_kv}
use blockmania.Consensus.Graph.{Graph, Entry}
use blockmania.Consensus.Graph.Interpret.{Step, has_key, add_timeout, process_message}
use blockmania.Consensus.Graph.Interpret.Lasting.{LastsIn, process_message-Lasts}
use blockmania.Consensus.Graph.Process.{
  find_or_create_state, set_timeouts, number_at, text_at, fire_timeouts, timeout_value, delays,
  schedule, due, prepare_state,
}
use blockmania.Consensus.Graph.Run.Rounds.{number_at-Meets, text_at-Meets, timeout_value-Meets}

-- The states that the interpreter makes from `s` while `round` is not below the round of the graph: by
-- the messages that it processes, by keeping the state of a block with the messages that it sent, and by
-- beginning the state of the next block of the node with a clone.
pub data Later (round : ℕ) (s' : State) : State → Type 0 where
  now : Later round s' s'
  interpreted :
      {s : State} (g : Graph) (sender receiver : ℕ) (origin : BlockId) (msg : Message) (step : Step)
      → process_message g s sender receiver origin msg ≡ ok step
      → Later round s' step.state
      → Later round s' s
  stored :
      {s : State} (out : List Message) → Later round s' (record s { out = out }) → Later round s' s
  continued :
      {s : State} (g : Graph) (e : Entry) (next : State) (out : List Message)
      → valid e.prev ≡ true
      → find e.prev g.statess ≡ some s
      → g.round ≤ round
      → prepare_state g e ≡ ok (next, out)
      → Later round s' next
      → Later round s' s

module _ (k : StateData) where
  has_key-put_kv :
      (j : StateData) (v : StateValue) (s : State)
      → has_key k s ≡ true
      → has_key k (put_kv j v s) ≡ true
  has_key-put_kv j v s there = ground (arith, find-put j k v s.kv)

  has_key-clone :
      (s : State) (minround : ℕ)
      → minround ≤ get_round k
      → has_key k s ≡ true
      → has_key k (clone (some s) minround) ≡ true
  unfolding clone
  has_key-clone s minround reached there =
      ground (arith, find-keep (λ j. not (ltb (get_round j) minround)) k s.kv)

  has_key-set_timeouts :
      (tround round : ℕ) (peers : List ℕ) (s : State)
      → has_key k (set_timeouts tround round peers s) ≡ has_key k s
  unfolding set_timeouts add_timeout
  has_key-set_timeouts tround round [] s = refl
  has_key-set_timeouts tround round (p ∷ peers) s =
      has_key-set_timeouts tround round peers
        (add_timeout tround (record { node = p; round = round; view = 0 }) s)

  fire_timeouts-has_key :
      (node : ℕ) (ts : List Timeout) (s : State)
      → has_key k s ≡ true
      → Meets (fire_timeouts node ts s) (λ r. has_key k r.0 ≡ true)
  unfolding fire_timeouts
  fire_timeouts-has_key node [] s there = there
  fire_timeouts-has_key node (t ∷ ts) s there =
      let Keeps : State × List Message → Type 0 = λ r. has_key k r.0 ≡ true in
      Meets-if (has_key (final t.node t.round) s) _ _ Keeps
        (λ _. fire_timeouts-has_key node ts s there)
        λ _.
          Meets-bind (number_at (view t.node t.round) s) _ Anything Keeps
            (number_at-Meets (view t.node t.round) s)
            λ v _ _.
              Meets-if (ltb t.view v) _ _ Keeps (λ _. fire_timeouts-has_key node ts s there)
                λ _.
                  Meets-bind (text_at (prepared t.node t.round t.view) s) _ Anything Keeps
                    (text_at-Meets (prepared t.node t.round t.view) s)
                    λ hval _ _.
                      Meets-bind (fire_timeouts node ts _) _ Keeps Keeps
                        (fire_timeouts-has_key node ts _
                          (has_key-put_kv (view t.node t.round) _ s there))
                        (λ r _ kept. kept)

  prepare_state-has_key :
      (g : Graph) (e : Entry) (s : State)
      → valid e.prev ≡ true
      → find e.prev g.statess ≡ some s
      → g.round ≤ get_round k
      → has_key k s ≡ true
      → Meets (prepare_state g e) (λ r. has_key k r.0 ≡ true)
  unfolding prepare_state schedule find_or_create_state
  prepare_state-has_key g e s there stands reached has =
      let Keeps : State × List Message → Type 0 = λ r. has_key k r.0 ≡ true in
      Meets-bind (timeout_value g (delays g e)) _ Anything Keeps
        (timeout_value-Meets g (delays g e))
        λ tval _ _.
          let s1 = schedule g e tval in
          let scheduled : has_key k s1 ≡ true =
            has_key-set_timeouts (add_u64 e.block.round tval) e.block.round g.peers
              (record (find_or_create_state g e) { delay = delays g e; timeout = tval })
            ∙ rw (there, stands) (has_key-clone s g.round reached has) in
          Meets-bind (fire_timeouts e.block.node (due e.block.round s1) s1) _ Keeps Keeps
            (fire_timeouts-has_key e.block.node (due e.block.round s1) s1 scheduled)
            (λ r _ kept. kept)

-- A key of a round lasts while the round is not below the round of the graph.
pub Later-has_key :
    (k : StateData) (s' s : State)
    → Later (get_round k) s' s
    → has_key k s ≡ true
    → has_key k s' ≡ true
Later-has_key k s' s now there = there
Later-has_key k s' s (interpreted g sender receiver origin msg step e rest) there =
    let lasts =
      Meets-ok (process_message g s sender receiver origin msg) (LastsIn s) step
        (process_message-Lasts g s sender receiver origin msg) e in
    Later-has_key k s' step.state rest (lasts.keys k there)
Later-has_key k s' s (stored out rest) there =
    Later-has_key k s' (record s { out = out }) rest there
Later-has_key k s' s (continued g e next out there_is stands reached done rest) there =
    Later-has_key k s' next rest (
      Meets-ok (prepare_state g e) (λ r. has_key k r.0 ≡ true) (next, out)
        (prepare_state-has_key k g e s there_is stands reached there) done)
