-- ===== src/Consensus/Graph/Interpret/Quorums.antt =====
-- What a commit message and a final hash stand on: a quorum of votes for the proposal.
use blockmania.Prelude.{
  ℕ, ◌≡◌, refl, sym, ap, ◌∙◌, arith, find, put, none, some, ltb, ◌==◌, ==_iff, Meets, Meets-if,
  Meets-bind, Meets-maybe, Meets-mono, ok, find-put_self, find-put, find-put_ne, if_ind, Map,
}
use blockmania.Consensus.Block.{Hash, BlockId}
use blockmania.Consensus.Messages.{
  PrePrepare, Prepare, Commit, Message, prepare, commit, prepare_pre, commit_pre, pre_prepare_key,
}
use blockmania.Consensus.StateData.{StateData, StateValue, final, view, state_data_key}
use blockmania.Consensus.Bitset.{
  Bitset, set_prepare, set_commit, has_commit, prepare_count, commit_count,
}
use blockmania.Consensus.Bitset.Returns.{
  Anything, set_prepare-Meets, set_commit-Meets, has_commit-Meets,
}
use blockmania.Consensus.State.{
  State, NodeRound, node_round_key, NodeRound-discrete, get_bitset, set_bitset, get_view, as_number,
}
use blockmania.Consensus.Graph.{Graph}
use blockmania.Consensus.Graph.Deliver.{deliver}
use blockmania.Consensus.Graph.Deliver.Order.{Extends}
use blockmania.Consensus.Graph.Interpret.Levels.{deliver-Meets, as_number-Meets}
use blockmania.Consensus.Graph.Interpret.{
  Step, has_key, put_kv_new, on_quorum_prepared, on_prepare, on_quorum_committed, on_commit,
  dispatch, process_message,
}
use blockmania.Consensus.Graph.Interpret.Lasting.{Views, get_view-Views}

-- The votes for a proposal in a state.
abbrev pub Votes : State → PrePrepare → (Bitset → Type 0) → Type 0
Votes s pp P = (b : Bitset) × (find pp s.bitsets ≡ some b) × P b

-- An answer stands on exactly `quorum2f1` prepares for its proposal.
pub record HasQuorum (g : Graph) (pp : PrePrepare) (step : Step) : Type 0 where
  pub votes :
      (a : Message)
      → step.answer ≡ some a
      → Votes step.state pp (λ b. prepare_count b ≡ g.quorum2f1)

-- A new final hash is that of the message, and stands on exactly `quorum2f1` commits for it.
pub record IsDecided (g : Graph) (s : State) (m : Commit) (step : Step) : Type 0 where
  pub decided :
      (nr : NodeRound) (h : Hash)
      → find nr s.final ≡ none
      → find nr step.state.final ≡ some h
      → (nr.node ≡ m.node)
        × (nr.round ≡ m.round)
        × (h ≡ m.hash)
        × Votes step.state (commit_pre m) (λ b. commit_count b ≡ g.quorum2f1)

prepares_kept :
    (b b' : Bitset) (v : ℕ) → set_commit b v ≡ ok b' → prepare_count b' ≡ prepare_count b
unfolding set_commit prepare_count
prepares_kept b b' v e = ground arith

put_kv_new-bitsets :
    (k : StateData) (val : StateValue) (s : State) → (put_kv_new k val s).bitsets ≡ s.bitsets
put_kv_new-bitsets k val s = if_ind (λ z. z.bitsets ≡ s.bitsets) (has_key k s) s _ refl refl

-- The entry that a write adds is the one that is written.
new_entry :
    (nr other : NodeRound) (x h : Hash) (m : Map NodeRound Hash)
    → find other m ≡ none
    → find other (put nr x m) ≡ some h
    → (other ≡ nr) × (h ≡ x)
new_entry nr other x h m before after = elim (NodeRound-discrete nr other) [
  | yes same ↦ (sym same, ground (arith, find-put nr other x m))
  | no apart ↦ absurd (ground (arith, find-put_ne nr other x m apart))
]

silent-HasQuorum :
    (g g' : Graph) (s : State) (pp : PrePrepare)
    → HasQuorum g pp (record { graph = g'; state = s; answer = none })
silent-HasQuorum g g' s pp = record { votes = λ a e. cc }

vote_keeps_final :
    (s : State) (size : ℕ) (pp : PrePrepare) (b : Bitset)
    → (set_bitset (get_bitset s size pp).0 pp b).final ≡ s.final
unfolding set_bitset get_bitset
vote_keeps_final s size pp b = ground arith

set_bitset-find :
    (s : State) (pp : PrePrepare) (b : Bitset) → find pp (set_bitset s pp b).bitsets ≡ some b
unfolding set_bitset
set_bitset-find s pp b = find-put_self pp b s.bitsets

get_view-final :
    (s : State) (node round : ℕ) → Meets (get_view s node round) (λ r. r.0.final ≡ s.final)
unfolding get_view
get_view-final s node round =
    Meets-maybe (find (view node round) s.kv) _ _ (λ r. r.0.final ≡ s.final) (λ _. refl)
      λ val _.
        Meets-bind (as_number val) _ Anything (λ r. r.0.final ≡ s.final) (as_number-Meets val)
          (λ v _ _. refl)

module _ (g : Graph) where
  on_quorum_prepared-HasQuorum :
      (s : State) (receiver : ℕ) (m : Prepare) (b : Bitset)
      → prepare_count b ≡ g.quorum2f1
      → Meets (on_quorum_prepared g s receiver m b) (HasQuorum g (prepare_pre m))
  unfolding on_quorum_prepared set_bitset
  on_quorum_prepared-HasQuorum s receiver m b quorum =
      let pp = prepare_pre m in
      Meets-bind (has_commit b receiver) _ Anything (HasQuorum g pp) (has_commit-Meets b receiver)
        λ committed _ _.
          Meets-if committed _ _ (HasQuorum g pp) (λ _. silent-HasQuorum g g s pp)
            λ _.
              Meets-bind (set_commit b receiver) _ Anything (HasQuorum g pp)
                (set_commit-Meets b receiver)
                λ b' e _. record {
                  votes = λ a _. (
                    b',
                    ap (find pp) (put_kv_new-bitsets _ _ (set_bitset s pp b'))
                        ∙ find-put_self pp b' s.bitsets,
                    prepares_kept b b' receiver e ∙ quorum,
                  );
                }

  on_prepare-HasQuorum :
      (s : State) (receiver v : ℕ) (m : Prepare)
      → Meets (on_prepare g s receiver v m) (HasQuorum g (prepare_pre m))
  unfolding on_prepare
  on_prepare-HasQuorum s receiver v m =
      let pp = prepare_pre m in
      Meets-if (ltb m.view v) _ _ (HasQuorum g pp) (λ _. silent-HasQuorum g g s pp)
        λ _.
          let (s', b) = get_bitset s g.peer_count pp in
          Meets-bind (set_prepare b m.sender) _ Anything (HasQuorum g pp)
            (set_prepare-Meets b m.sender)
            λ b' _ _.
              let s'' = set_bitset s' pp b' in
              Meets-if (ltb v m.view) _ _ (HasQuorum g pp) (λ _. silent-HasQuorum g g s'' pp)
                λ _.
                  Meets-if (prepare_count b' == g.quorum2f1) _ _ (HasQuorum g pp)
                    (λ full. on_quorum_prepared-HasQuorum s'' receiver m b' ((==_iff _ _).0 full))
                    (λ _. silent-HasQuorum g g s'' pp)

  -- A prepare message is answered, with a commit, only if the state then holds exactly `quorum2f1`
  -- prepares for its proposal.
  pub process_message-HasQuorum :
      (s : State) (sender receiver : ℕ) (origin : BlockId) (m : Prepare)
      → Meets (process_message g s sender receiver origin (prepare m)) (HasQuorum g (prepare_pre m))
  unfolding process_message dispatch
  process_message-HasQuorum s sender receiver origin m =
      let pp = prepare_pre m in
      Meets-if (has_key (final m.node m.round) s) _ _ (HasQuorum g pp)
        (λ _. silent-HasQuorum g g s pp)
        λ _.
          Meets-bind (get_view s m.node m.round) _ (Views s m.node m.round) (HasQuorum g pp)
            (get_view-Views s m.node m.round) (λ (s', v) _ _. on_prepare-HasQuorum s' receiver v m)

  same_final-IsDecided :
      (g' : Graph) (s s' : State) (m : Commit)
      → s'.final ≡ s.final
      → IsDecided g s m (record { graph = g'; state = s'; answer = none })
  same_final-IsDecided g' s s' m same = record {
    decided = λ nr h before after. absurd (ground (arith, ap (find nr) same));
  }

  on_quorum_committed-IsDecided :
      (s : State) (m : Commit) (b : Bitset)
      → find (commit_pre m) s.bitsets ≡ some b
      → commit_count b ≡ g.quorum2f1
      → Meets (on_quorum_committed g s m) (IsDecided g s m)
  unfolding on_quorum_committed
  on_quorum_committed-IsDecided s m b there quorum =
      let nr : NodeRound = record { node = m.node; round = m.round } in
      Meets-maybe (find nr s.final) _ _ (IsDecided g s m)
        (λ new.
          Meets-bind (deliver g m.node m.round m.hash) _ (Extends g) (IsDecided g s m)
            (deliver-Meets g m.node m.round m.hash)
            λ g' _ _. record {
              decided = λ other h before after.
                  let (here, same) = new_entry nr other m.hash h s.final before after in
                  (ap (λ r. r.node) here, ap (λ r. r.round) here, same, (b, there, quorum));
            })
        (λ h _. same_final-IsDecided g s s m refl)

  on_commit-IsDecided :
      (s : State) (v : ℕ) (m : Commit) → Meets (on_commit g s v m) (IsDecided g s m)
  unfolding on_commit
  on_commit-IsDecided s v m =
      let pp = commit_pre m in
      Meets-if (ltb v m.view) _ _ (IsDecided g s m) (λ _. same_final-IsDecided g s s m refl)
        λ _.
          let (s', b) = get_bitset s g.peer_count pp in
          Meets-bind (set_commit b m.sender) _ Anything (IsDecided g s m)
            (set_commit-Meets b m.sender)
            λ b' _ _.
              let s'' = set_bitset s' pp b' in
              let same : s''.final ≡ s.final = vote_keeps_final s g.peer_count pp b' in
              Meets-if (commit_count b' == g.quorum2f1) _ _ (IsDecided g s m)
                (λ full.
                  Meets-mono (on_quorum_committed g s'' m) (IsDecided g s'' m) (IsDecided g s m)
                    (on_quorum_committed-IsDecided s'' m b' (set_bitset-find s' pp b')
                      ((==_iff _ _).0 full))
                    (λ step d. record {
                      decided =
                          λ nr h before after. d.decided nr h (ap (find nr) same ∙ before) after;
                    }))
                (λ _. same_final-IsDecided g s s'' m same)

  -- A commit message makes a hash final only for its own node and round, only its own hash, and only
  -- if the state then holds exactly `quorum2f1` commits for that proposal.
  pub process_message-IsDecided :
      (s : State) (sender receiver : ℕ) (origin : BlockId) (m : Commit)
      → Meets (process_message g s sender receiver origin (commit m)) (IsDecided g s m)
  unfolding process_message dispatch
  process_message-IsDecided s sender receiver origin m =
      Meets-if (has_key (final m.node m.round) s) _ _ (IsDecided g s m)
        (λ _. same_final-IsDecided g s s m refl)
        λ _.
          Meets-bind (get_view s m.node m.round) _ (λ r. r.0.final ≡ s.final) (IsDecided g s m)
            (get_view-final s m.node m.round)
            λ (s', v) _ same.
              Meets-mono (on_commit g s' v m) (IsDecided g s' m) (IsDecided g s m)
                (on_commit-IsDecided s' v m)
                (λ step d. record {
                  decided = λ nr h before after. d.decided nr h (ap (find nr) same ∙ before) after;
                })
