-- ===== src/Consensus/Graph/Interpret/Levels.antt =====
-- What a message is answered with, and what it does to the graph.
use blockmania.Prelude.{
  ℕ, ◌<◌, List, [], ◌∷◌, ◌≡◌, refl, arith, Map, find, put, nat_key, length, not, fault, Option,
  none, some, ◌==◌, ltb, Meets, Meets-if, Meets-bind, Meets-maybe, multiple_hashes, set, Ends-Meets,
  if◌then◌else◌,
}
use blockmania.Consensus.Block.{Hash, BlockId, is_set}
use blockmania.Consensus.Messages.{
  PrePrepare, Prepare, Commit, ViewChange, NewView, Message, pre_prepare, prepare, commit,
  view_change, new_view, node_round, prepare_pre, commit_pre,
}
use blockmania.Consensus.StateData.{
  StateData, StateValue, state_data_key, view, final, hnv, pre_prepared, view_changed, changes,
  number,
}
use blockmania.Consensus.Bitset.{
  Bitset, set_prepare, set_commit, has_commit, prepare_count, commit_count,
}
use blockmania.Consensus.Bitset.Returns.{
  Anything, set_prepare-Meets, set_commit-Meets, has_commit-Meets,
}
use blockmania.Consensus.State.{State, node_round_key, get_bitset, get_view, as_changes, as_number}
use blockmania.Consensus.Graph.{Graph}
use blockmania.Consensus.Graph.Deliver.{deliver}
use blockmania.Consensus.Graph.Deliver.Order.{
  Extends, Same-Extends, Extends-refl, Extends-trans, deliver-Extends,
}
use blockmania.Consensus.Graph.Deliver.Fuel.{deliver-Ends}
use blockmania.Consensus.Graph.Interpret.{
  Step, on_pre_prepare, on_quorum_prepared, on_prepare, on_quorum_committed, on_commit, changes_at,
  merge_hashes, on_view_change, on_new_view, dispatch, process_message, has_key, load,
}

-- How many messages can still follow one of this type.
abbrev pub level : Message → ℕ
level (commit m) = 1
level (prepare m) = 2
level (pre_prepare m) = 3
level (new_view m) = 4
level (view_change m) = 5

-- The answer is about the same node and round, and stands on a lower level.
abbrev pub IsBelow : Message → Option Message → Type 0
IsBelow msg none = Unit
IsBelow msg (some a) = (level a < level msg) × (node_round a ≡ node_round msg)

pub record IsGood (g : Graph) (msg : Message) (step : Step) : Type 0 where
  pub extends : Extends g step.graph
  pub below : IsBelow msg step.answer

module _ (g : Graph) where
  abbrev quiet :
      {msg : Message} {s : State} → IsGood g msg (record { graph = g; state = s; answer = none })
  quiet = record { extends = Extends-refl g; below = tt }

  on_pre_prepare-IsGood :
      (s : State) (sender receiver v : ℕ) (m : PrePrepare)
      → Meets (on_pre_prepare g s sender receiver v m) (IsGood g (pre_prepare m))
  unfolding on_pre_prepare
  on_pre_prepare-IsGood s sender receiver v m =
      Meets-if (not (v == m.view)) _ _ (IsGood g (pre_prepare m)) (λ _. quiet)
        λ _.
          Meets-if (has_key (pre_prepared m.node m.round m.view) s) _ _ (IsGood g (pre_prepare m))
            (λ _. quiet)
            λ _.
              let (s', b) = get_bitset s g.peer_count m in
              Meets-bind (set_prepare b sender) _ Anything (IsGood g (pre_prepare m))
                (set_prepare-Meets b sender)
                λ b' _ _.
                  Meets-bind (set_prepare b' receiver) _ Anything (IsGood g (pre_prepare m))
                    (set_prepare-Meets b' receiver)
                    λ b'' _ _. record { extends = Extends-refl g; below = (omega arith, refl) }

  on_quorum_prepared-IsGood :
      (s : State) (receiver : ℕ) (m : Prepare) (b : Bitset)
      → Meets (on_quorum_prepared g s receiver m b) (IsGood g (prepare m))
  unfolding on_quorum_prepared
  on_quorum_prepared-IsGood s receiver m b =
      Meets-bind (has_commit b receiver) _ Anything (IsGood g (prepare m))
        (has_commit-Meets b receiver)
        λ committed _ _.
          Meets-if committed _ _ (IsGood g (prepare m)) (λ _. quiet)
            λ _.
              Meets-bind (set_commit b receiver) _ Anything (IsGood g (prepare m))
                (set_commit-Meets b receiver)
                λ b' _ _. record { extends = Extends-refl g; below = (omega arith, refl) }

  on_prepare-IsGood :
      (s : State) (receiver v : ℕ) (m : Prepare)
      → Meets (on_prepare g s receiver v m) (IsGood g (prepare m))
  unfolding on_prepare
  on_prepare-IsGood s receiver v m =
      Meets-if (ltb m.view v) _ _ (IsGood g (prepare m)) (λ _. quiet)
        λ _.
          let (s', b) = get_bitset s g.peer_count (prepare_pre m) in
          Meets-bind (set_prepare b m.sender) _ Anything (IsGood g (prepare m))
            (set_prepare-Meets b m.sender)
            λ b' _ _.
              Meets-if (ltb v m.view) _ _ (IsGood g (prepare m)) (λ _. quiet)
                λ _.
                  Meets-if (prepare_count b' == g.quorum2f1) _ _ (IsGood g (prepare m))
                    (λ _. on_quorum_prepared-IsGood _ receiver m b') (λ _. quiet)

  pub deliver-Meets : (node round : ℕ) (hash : Hash) → Meets (deliver g node round hash) (Extends g)
  deliver-Meets node round hash =
      Ends-Meets (deliver g node round hash) (Extends g) (deliver-Ends g node round hash)
        (λ g' e. deliver-Extends g g' node round hash e)

  on_quorum_committed-IsGood :
      (s : State) (m : Commit) → Meets (on_quorum_committed g s m) (IsGood g (commit m))
  unfolding on_quorum_committed
  on_quorum_committed-IsGood s m =
      Meets-maybe (find (record { node = m.node; round = m.round }) s.final) _ _
        (IsGood g (commit m))
        (λ _.
          Meets-bind (deliver g m.node m.round m.hash) _ (Extends g) (IsGood g (commit m))
            (deliver-Meets m.node m.round m.hash) (λ g' _ x. record { extends = x; below = tt }))
        (λ h _. quiet)

  on_commit-IsGood :
      (s : State) (v : ℕ) (m : Commit) → Meets (on_commit g s v m) (IsGood g (commit m))
  unfolding on_commit
  on_commit-IsGood s v m =
      Meets-if (ltb v m.view) _ _ (IsGood g (commit m)) (λ _. quiet)
        λ _.
          let (s', b) = get_bitset s g.peer_count (commit_pre m) in
          Meets-bind (set_commit b m.sender) _ Anything (IsGood g (commit m))
            (set_commit-Meets b m.sender)
            λ b' _ _.
              Meets-if (commit_count b' == g.quorum2f1) _ _ (IsGood g (commit m))
                (λ _. on_quorum_committed-IsGood _ m) (λ _. quiet)

heap-Extends : (g : Graph) (heap : List (Map ℕ Hash)) → Extends g (record g { heap = heap })
heap-Extends g heap = Same-Extends (record {
  delivered = refl;
  round = refl;
  peer_count = refl;
  peers = refl;
  quorum2f = refl;
  quorum2f1 = refl;
  tidy = λ t. t;
})

pub as_changes-Meets : (val : StateValue) → Meets (as_changes val) Anything
as_changes-Meets (changes a) = tt
as_changes-Meets _ = λ e. cc

pub as_number-Meets : (val : StateValue) → Meets (as_number val) Anything
as_number-Meets (number a) = tt
as_number-Meets _ = λ e. cc

pub merge_hashes-Meets : (hash : Hash) (vcs : Map ℕ Hash) → Meets (merge_hashes hash vcs) Anything
unfolding merge_hashes
merge_hashes-Meets hash [] = tt
merge_hashes-Meets hash ((sender, hval) ∷ vcs) =
    Meets-if _ (fault multiple_hashes) _ Anything (λ _ e. cc)
      (λ _. merge_hashes-Meets (if is_set hval then hval else hash) vcs)

module _ (g : Graph) where
  abbrev Allocates : Graph × State × ℕ → Type 0
  Allocates r = Extends g r.0

  changes_at-Meets : (s : State) (key : StateData) → Meets (changes_at g s key) Allocates
  unfolding changes_at
  changes_at-Meets s key =
      Meets-maybe (find key s.kv) _ _ Allocates (λ _. heap-Extends g _)
        λ val _.
          Meets-bind (as_changes val) _ Anything Allocates (as_changes-Meets val)
            (λ a _ _. Extends-refl g)

  on_view_change-IsGood :
      (s : State) (receiver v : ℕ) (m : ViewChange)
      → Meets (on_view_change g s receiver v m) (IsGood g (view_change m))
  unfolding on_view_change
  on_view_change-IsGood s receiver v m =
      Meets-if (ltb m.view v) _ _ (IsGood g (view_change m)) (λ _. quiet g)
        λ _.
          Meets-bind (changes_at g s (view_changed m.node m.round v)) _ Allocates
            (IsGood g (view_change m)) (changes_at-Meets s _)
            λ (g', s', a) _ x.
              let vcs = put m.sender m.hash (load g'.heap a) in
              let x' = Extends-trans x (heap-Extends g' (set g'.heap a vcs)) in
              Meets-if (not (length vcs == g.quorum2f1)) _ _ (IsGood g (view_change m))
                (λ _. record { extends = x'; below = tt })
                λ _.
                  Meets-bind (merge_hashes [] vcs) _ Anything (IsGood g (view_change m))
                    (merge_hashes-Meets [] vcs)
                    λ hash _ _. record { extends = x'; below = (omega arith, refl) }

  on_new_view-IsGood :
      (s : State) (origin : BlockId) (v : ℕ) (m : NewView)
      → Meets (on_new_view g s origin v m) (IsGood g (new_view m))
  unfolding on_new_view
  on_new_view-IsGood s origin v m =
      Meets-if (ltb m.view v) _ _ (IsGood g (new_view m)) (λ _. quiet g)
        λ _.
          Meets-if (has_key (hnv m.node m.round m.view) s) _ _ (IsGood g (new_view m))
            (λ _. quiet g) (λ _. record { extends = Extends-refl g; below = (omega arith, refl) })

  dispatch-IsGood :
      (s : State) (sender receiver : ℕ) (origin : BlockId) (v : ℕ) (msg : Message)
      → Meets (dispatch g s sender receiver origin v msg) (IsGood g msg)
  unfolding dispatch
  dispatch-IsGood s sender receiver origin v (pre_prepare m) =
      on_pre_prepare-IsGood g s sender receiver v m
  dispatch-IsGood s sender receiver origin v (prepare m) = on_prepare-IsGood g s receiver v m
  dispatch-IsGood s sender receiver origin v (commit m) = on_commit-IsGood g s v m
  dispatch-IsGood s sender receiver origin v (view_change m) = on_view_change-IsGood s receiver v m
  dispatch-IsGood s sender receiver origin v (new_view m) = on_new_view-IsGood s origin v m

  get_view-Meets : (s : State) (node round : ℕ) → Meets (get_view s node round) Anything
  unfolding get_view
  get_view-Meets s node round =
      Meets-maybe (find (view node round) s.kv) _ _ Anything (λ _. tt)
        λ val _. Meets-bind (as_number val) _ Anything Anything (as_number-Meets val) (λ v _ _. tt)

  -- Every call of `processMessage` ends; if it does not crash, it delivers whole rounds in order, and
  -- its answer, if any, is about the same node and round and of a later phase of the protocol.
  pub process_message-IsGood :
      (s : State) (sender receiver : ℕ) (origin : BlockId) (msg : Message)
      → Meets (process_message g s sender receiver origin msg) (IsGood g msg)
  unfolding process_message
  process_message-IsGood s sender receiver origin msg =
      let (node, round) = node_round msg in
      Meets-if (has_key (final node round) s) _ _ (IsGood g msg) (λ _. quiet g)
        λ _.
          Meets-bind (get_view s node round) _ Anything (IsGood g msg) (get_view-Meets s node round)
            (λ (s', v) _ _. dispatch-IsGood s' sender receiver origin v msg)
