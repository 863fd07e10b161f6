-- ===== src/Consensus/Graph/Typing/Replies.antt =====
-- The answers of `processMessage` keep the values typed.
use blockmania.Prelude.{
  ℕ, [], ◌∷◌, refl, arith, put, set, Map, not, nat_key, ltb, ◌==◌, length, length-set, fault,
  multiple_hashes, if◌then◌else◌, Asserts, Asserts-if, Asserts-bind,
}
use blockmania.Consensus.Block.{Hash, BlockId, is_set}
use blockmania.Consensus.Messages.{
  PrePrepare, Prepare, Commit, ViewChange, Message, pre_prepare, prepare, commit, view_change,
  new_view, node_round, prepare_pre, commit_pre,
}
use blockmania.Consensus.StateData.{number, view, final, view_changed, state_data_key}
use blockmania.Consensus.Bitset.{Bitset, set_prepare, set_commit, prepare_count, commit_count}
use blockmania.Consensus.Bitset.Returns.{Anything, set_prepare-Asserts, set_commit-Asserts}
use blockmania.Consensus.State.{State, node_round_key, get_bitset, set_bitset, get_view, put_kv}
use blockmania.Consensus.Graph.{Graph}
use blockmania.Consensus.Graph.Interpret.{
  has_key, load, on_prepare, on_commit, changes_at, merge_hashes, on_view_change, dispatch,
  process_message,
}
use blockmania.Consensus.Graph.Typing.{IsTyped, AreTyped}
use blockmania.Consensus.Graph.Typing.Writes.{put_kv-IsTyped, voted-IsTyped, get_view-Asserts}
use blockmania.Consensus.Graph.Typing.Steps.{
  StepTyped, FoundMap, moved, grown, on_pre_prepare-Asserts, on_quorum_prepared-Asserts,
  on_quorum_committed-Asserts, on_new_view-Asserts, changes_at-Asserts,
}

merge_hashes-Asserts : (hash : Hash) (vcs : Map ℕ Hash) → Asserts (merge_hashes hash vcs) Anything
unfolding merge_hashes
merge_hashes-Asserts hash [] = tt
merge_hashes-Asserts hash ((sender, hval) ∷ vcs) =
    Asserts-if _ (fault multiple_hashes) _ Anything (λ e. cc)
      (merge_hashes-Asserts (if is_set hval then hval else hash) vcs)

module _ (g : Graph) (s : State) (t : AreTyped g s) where
  voted-AreTyped :
      (pp : PrePrepare) (b : Bitset) → AreTyped g (set_bitset (get_bitset s g.peer_count pp).0 pp b)
  voted-AreTyped pp b =
      moved (set_bitset (get_bitset s g.peer_count pp).0 pp b) t
        (voted-IsTyped (length g.heap) s g.peer_count pp b t.state)

  on_prepare-Asserts :
      (receiver v : ℕ) (m : Prepare) → Asserts (on_prepare g s receiver v m) StepTyped
  unfolding on_prepare
  on_prepare-Asserts receiver v m = Asserts-if (ltb m.view v) _ _ StepTyped t (
      let (s', b) = get_bitset s g.peer_count (prepare_pre m) in
      Asserts-bind (set_prepare b m.sender) _ Anything StepTyped (set_prepare-Asserts b m.sender)
        λ b' _.
          let s'' = set_bitset s' (prepare_pre m) b' in
          let t' = voted-AreTyped (prepare_pre m) b' in
          Asserts-if (ltb v m.view) _ _ StepTyped t' (
            Asserts-if (prepare_count b' == g.quorum2f1) _ _ StepTyped
              (on_quorum_prepared-Asserts g s'' t' receiver m b') t'))

  on_commit-Asserts : (v : ℕ) (m : Commit) → Asserts (on_commit g s v m) StepTyped
  unfolding on_commit
  on_commit-Asserts v m = Asserts-if (ltb v m.view) _ _ StepTyped t (
      let (s', b) = get_bitset s g.peer_count (commit_pre m) in
      Asserts-bind (set_commit b m.sender) _ Anything StepTyped (set_commit-Asserts b m.sender)
        λ b' _.
          let s'' = set_bitset s' (commit_pre m) b' in
          let t' = voted-AreTyped (commit_pre m) b' in
          Asserts-if (commit_count b' == g.quorum2f1) _ _ StepTyped
            (on_quorum_committed-Asserts g s'' t' m) t')

  on_view_change-Asserts :
      (receiver v : ℕ) (m : ViewChange) → Asserts (on_view_change g s receiver v m) StepTyped
  unfolding on_view_change
  on_view_change-Asserts receiver v m = Asserts-if (ltb m.view v) _ _ StepTyped t (
      Asserts-bind (changes_at g s (view_changed m.node m.round v)) _ (FoundMap g s t) StepTyped
        (changes_at-Asserts g s t m.node m.round v)
        λ (g', s', a) found.
          let vcs = put m.sender m.hash (load g'.heap a) in
          let heap = set g'.heap a vcs in
          let t' =
            grown {g = g'} {s = s'} heap (omega (arith, length-set {0} g'.heap a vcs)) found.0 in
          let at = view m.node m.round in
          Asserts-if (not (length vcs == g.quorum2f1)) _ _ StepTyped t' (
            Asserts-bind (merge_hashes [] vcs) _ Anything StepTyped (merge_hashes-Asserts [] vcs)
              λ hash _.
                moved (put_kv at (number m.view) s') t'
                  (put_kv-IsTyped (length heap) at (number m.view) s' (m.view, refl) t'.state)))

  dispatch-Asserts :
      (sender receiver : ℕ) (origin : BlockId) (v : ℕ) (msg : Message)
      → Asserts (dispatch g s sender receiver origin v msg) StepTyped
  unfolding dispatch
  dispatch-Asserts sender receiver origin v (pre_prepare m) =
      on_pre_prepare-Asserts g s t sender receiver v m
  dispatch-Asserts sender receiver origin v (prepare m) = on_prepare-Asserts receiver v m
  dispatch-Asserts sender receiver origin v (commit m) = on_commit-Asserts v m
  dispatch-Asserts sender receiver origin v (view_change m) = on_view_change-Asserts receiver v m
  dispatch-Asserts sender receiver origin v (new_view m) = on_new_view-Asserts g s t origin v m

module _ (g : Graph) (s : State) (t : AreTyped g s) where
  -- A call of `processMessage` on typed values asserts no wrong type, and leaves typed values.
  pub process_message-Asserts :
      (sender receiver : ℕ) (origin : BlockId) (msg : Message)
      → Asserts (process_message g s sender receiver origin msg) StepTyped
  unfolding process_message
  process_message-Asserts sender receiver origin msg =
      let (node, round) = node_round msg in
      Asserts-if (has_key (final node round) s) _ _ StepTyped t (
        Asserts-bind (get_view s node round) _ (λ r. IsTyped (length g.heap) r.0) StepTyped
          (get_view-Asserts (length g.heap) s node round t.state)
          λ (s', v) typed. dispatch-Asserts g s' (moved s' t typed) sender receiver origin v msg)
