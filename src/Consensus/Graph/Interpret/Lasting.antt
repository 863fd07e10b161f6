-- ===== src/Consensus/Graph/Interpret/Lasting.antt =====
-- Interpreting a message forgets nothing of the state.
use blockmania.Prelude.{
  ℕ, [], ◌≡◌, refl, arith, find, put, true, not, find-put_self, nat_key, ltb, ◌==◌, length, Meets,
  Meets-if, Meets-bind, Meets-maybe, Meets-mono,
}
use blockmania.Consensus.Block.{BlockId}
use blockmania.Consensus.Messages.{
  PrePrepare, Prepare, Commit, ViewChange, NewView, Message, pre_prepare, prepare, commit,
  view_change, new_view, node_round, prepare_pre, commit_pre,
}
use blockmania.Consensus.StateData.{
  StateValue, number, text, flag, message, changes, view, final, hnv, prepared, pre_prepared,
  view_changed, state_data_key,
}
use blockmania.Consensus.Bitset.{
  Bitset, set_prepare, set_commit, has_commit, prepare_count, commit_count,
}
use blockmania.Consensus.Bitset.Returns.{
  Anything, set_prepare-Meets, set_commit-Meets, has_commit-Meets,
}
use blockmania.Consensus.State.{
  State, NodeRound, node_round_key, get_bitset, set_bitset, get_view, as_number, as_changes,
}
use blockmania.Consensus.Graph.{Graph}
use blockmania.Consensus.Graph.Deliver.{deliver}
use blockmania.Consensus.Graph.Deliver.Order.{Extends}
use blockmania.Consensus.Graph.Interpret.Levels.{
  deliver-Meets, as_changes-Meets, merge_hashes-Meets,
}
use blockmania.Consensus.Graph.Interpret.{
  Step, has_key, load, on_pre_prepare, on_quorum_prepared, on_prepare, on_quorum_committed,
  on_commit, changes_at, merge_hashes, on_view_change, on_new_view, dispatch, process_message,
}
use blockmania.Consensus.Graph.Interpret.Memory.{
  view_of, view_number, view_of-put_kv, Lasts, Lasts-refl, Lasts-trans, put_kv-Lasts,
  put_view-Lasts, put_final-Lasts, set_bitset-Lasts, get_bitset-Lasts, add_timeout-Lasts,
  put_kv_new-Lasts,
}

abbrev pub LastsIn : State → Step → Type 0
LastsIn s step = Lasts s step.state

module _ (g : Graph) (s : State) where
  on_pre_prepare-Lasts :
      (sender receiver v : ℕ) (m : PrePrepare)
      → Meets (on_pre_prepare g s sender receiver v m) (LastsIn s)
  unfolding on_pre_prepare
  on_pre_prepare-Lasts sender receiver v m =
      Meets-if (not (v == m.view)) _ _ (LastsIn s) (λ _. Lasts-refl s)
        λ _.
          Meets-if (has_key (pre_prepared m.node m.round m.view) s) _ _ (LastsIn s)
            (λ _. Lasts-refl s)
            λ _.
              let (s', b) = get_bitset s g.peer_count m in
              Meets-bind (set_prepare b sender) _ Anything (LastsIn s) (set_prepare-Meets b sender)
                λ b' _ _.
                  Meets-bind (set_prepare b' receiver) _ Anything (LastsIn s)
                    (set_prepare-Meets b' receiver)
                    λ b'' _ _. Lasts-trans (get_bitset-Lasts s g.peer_count m) (
                      Lasts-trans (set_bitset-Lasts s' m b'') (
                        put_kv-Lasts (pre_prepared m.node m.round m.view) (message m)
                          (set_bitset s' m b'') (λ n r e. cc) (λ n r e. cc)))

  on_quorum_prepared-Lasts :
      (receiver : ℕ) (m : Prepare) (b : Bitset)
      → Meets (on_quorum_prepared g s receiver m b) (LastsIn s)
  unfolding on_quorum_prepared
  on_quorum_prepared-Lasts receiver m b =
      Meets-bind (has_commit b receiver) _ Anything (LastsIn s) (has_commit-Meets b receiver)
        λ committed _ _.
          Meets-if committed _ _ (LastsIn s) (λ _. Lasts-refl s)
            λ _.
              Meets-bind (set_commit b receiver) _ Anything (LastsIn s)
                (set_commit-Meets b receiver)
                λ b' _ _. Lasts-trans (set_bitset-Lasts s (prepare_pre m) b') (
                  put_kv_new-Lasts (prepared m.node m.round m.view) (text m.hash)
                    (set_bitset s (prepare_pre m) b') (λ n r e. cc) (λ n r e. cc))

  on_quorum_committed-Lasts : (m : Commit) → Meets (on_quorum_committed g s m) (LastsIn s)
  unfolding on_quorum_committed
  on_quorum_committed-Lasts m =
      let nr : NodeRound = record { node = m.node; round = m.round } in
      Meets-maybe (find nr s.final) _ _ (LastsIn s)
        (λ new.
          Meets-bind (deliver g m.node m.round m.hash) _ (Extends g) (LastsIn s)
            (deliver-Meets g m.node m.round m.hash) (λ g' _ _. put_final-Lasts nr m.hash s new))
        (λ h _. Lasts-refl s)

  on_new_view-Lasts :
      (origin : BlockId) (v : ℕ) (m : NewView)
      → view_of m.node m.round s ≡ v
      → Meets (on_new_view g s origin v m) (LastsIn s)
  unfolding on_new_view
  on_new_view-Lasts origin v m at =
      Meets-if (ltb m.view v) _ _ (LastsIn s) (λ _. Lasts-refl s)
        λ higher.
          Meets-if (has_key (hnv m.node m.round m.view) s) _ _ (LastsIn s) (λ _. Lasts-refl s)
            λ _. Lasts-trans (put_view-Lasts m.node m.round m.view s (ground arith)) (
              Lasts-trans (add_timeout-Lasts _ _ _) (
                put_kv-Lasts (hnv m.node m.round m.view) (flag true) _ (λ n r e. cc) (λ n r e. cc)))

  -- The map of the view changes is looked up, or made under a key of its own.
  record LastsTo (r : Graph × State × ℕ) : Type 0 where
    lasts : Lasts s r.1
    same_view : (node round : ℕ) → view_of node round r.1 ≡ view_of node round s

  changes_at-Lasts : (node round v : ℕ) → Meets (changes_at g s (view_changed node round v)) LastsTo
  unfolding changes_at
  changes_at-Lasts node round v =
      let key = view_changed node round v in
      let at = changes (length g.heap) in
      Meets-maybe (find key s.kv) _ _ LastsTo
        (λ _. record {
          lasts = put_kv-Lasts key at s (λ n r e. cc) (λ n r e. cc);
          same_view = λ n r. view_of-put_kv key at s n r (λ e. cc);
        })
        λ val _.
          Meets-bind (as_changes val) _ Anything LastsTo (as_changes-Meets val)
            (λ a _ _. record { lasts = Lasts-refl s; same_view = λ n r. refl })

module _ (g : Graph) (s : State) where
  on_prepare-Lasts :
      (receiver v : ℕ) (m : Prepare) → Meets (on_prepare g s receiver v m) (LastsIn s)
  unfolding on_prepare
  on_prepare-Lasts receiver v m =
      Meets-if (ltb m.view v) _ _ (LastsIn s) (λ _. Lasts-refl s)
        λ _.
          let (s', b) = get_bitset s g.peer_count (prepare_pre m) in
          Meets-bind (set_prepare b m.sender) _ Anything (LastsIn s) (set_prepare-Meets b m.sender)
            λ b' _ _.
              let s'' = set_bitset s' (prepare_pre m) b' in
              let voted =
                Lasts-trans (get_bitset-Lasts s g.peer_count (prepare_pre m))
                  (set_bitset-Lasts s' (prepare_pre m) b') in
              Meets-if (ltb v m.view) _ _ (LastsIn s) (λ _. voted)
                λ _.
                  Meets-if (prepare_count b' == g.quorum2f1) _ _ (LastsIn s)
                    (λ _.
                      Meets-mono (on_quorum_prepared g s'' receiver m b') (LastsIn s'') (LastsIn s)
                        (on_quorum_prepared-Lasts g s'' receiver m b') (λ r x. Lasts-trans voted x))
                    (λ _. voted)

  on_commit-Lasts : (v : ℕ) (m : Commit) → Meets (on_commit g s v m) (LastsIn s)
  unfolding on_commit
  on_commit-Lasts v m =
      Meets-if (ltb v m.view) _ _ (LastsIn s) (λ _. Lasts-refl s)
        λ _.
          let (s', b) = get_bitset s g.peer_count (commit_pre m) in
          Meets-bind (set_commit b m.sender) _ Anything (LastsIn s) (set_commit-Meets b m.sender)
            λ b' _ _.
              let s'' = set_bitset s' (commit_pre m) b' in
              let voted =
                Lasts-trans (get_bitset-Lasts s g.peer_count (commit_pre m))
                  (set_bitset-Lasts s' (commit_pre m) b') in
              Meets-if (commit_count b' == g.quorum2f1) _ _ (LastsIn s)
                (λ _.
                  Meets-mono (on_quorum_committed g s'' m) (LastsIn s'') (LastsIn s)
                    (on_quorum_committed-Lasts g s'' m) (λ r x. Lasts-trans voted x))
                (λ _. voted)

  on_view_change-Lasts :
      (receiver v : ℕ) (m : ViewChange)
      → view_of m.node m.round s ≡ v
      → Meets (on_view_change g s receiver v m) (LastsIn s)
  unfolding on_view_change
  on_view_change-Lasts receiver v m at =
      Meets-if (ltb m.view v) _ _ (LastsIn s) (λ _. Lasts-refl s)
        λ higher.
          Meets-bind (changes_at g s (view_changed m.node m.round v)) _ (LastsTo g s) (LastsIn s)
            (changes_at-Lasts g s m.node m.round v)
            λ (g', s', a) _ x.
              let vcs = put m.sender m.hash (load g'.heap a) in
              Meets-if (not (length vcs == g.quorum2f1)) _ _ (LastsIn s) (λ _. x.lasts)
                λ _.
                  Meets-bind (merge_hashes [] vcs) _ Anything (LastsIn s)
                    (merge_hashes-Meets [] vcs)
                    λ hash _ _. Lasts-trans x.lasts (
                      put_view-Lasts m.node m.round m.view s'
                        (ground (arith, x.same_view m.node m.round)))

-- `getView` may write a view of 0, and returns the view that stands there.
pub record Views (s : State) (node round : ℕ) (r : State × ℕ) : Type 0 where
  pub lasts : Lasts s r.0
  pub stands : view_of node round r.0 ≡ r.1

pub get_view-Views :
    (s : State) (node round : ℕ) → Meets (get_view s node round) (Views s node round)
unfolding get_view
get_view-Views s node round =
    Meets-maybe (find (view node round) s.kv) _ _ (Views s node round)
      (λ absent. record {
        lasts = put_view-Lasts node round 0 s (ground arith);
        stands = ground (arith, find-put_self (view node round) (number 0) s.kv);
      })
      λ val there.
        Meets-bind (as_number val) _ (λ v. view_number val ≡ v) (Views s node round)
          (number_back val) λ v _ back. record { lasts = Lasts-refl s; stands = ground arith }
  where
    number_back : (val : StateValue) → Meets (as_number val) (λ v. view_number val ≡ v)
    number_back (number n) = refl
    number_back _ = λ e. cc

module _ (g : Graph) where
  dispatch-Lasts :
      (s : State) (sender receiver : ℕ) (origin : BlockId) (v : ℕ) (msg : Message)
      → view_of (node_round msg).0 (node_round msg).1 s ≡ v
      → Meets (dispatch g s sender receiver origin v msg) (LastsIn s)
  unfolding dispatch
  dispatch-Lasts s sender receiver origin v (pre_prepare m) at =
      on_pre_prepare-Lasts g s sender receiver v m
  dispatch-Lasts s sender receiver origin v (prepare m) at = on_prepare-Lasts g s receiver v m
  dispatch-Lasts s sender receiver origin v (commit m) at = on_commit-Lasts g s v m
  dispatch-Lasts s sender receiver origin v (view_change m) at =
      on_view_change-Lasts g s receiver v m at
  dispatch-Lasts s sender receiver origin v (new_view m) at = on_new_view-Lasts g s origin v m at

  -- A call of `processMessage` that does not crash forgets nothing of the state: every key of its
  -- data stays, a hash that is final for a node and a round stays so, no view falls, and no key of
  -- type `Final` comes up.
  pub process_message-Lasts :
      (s : State) (sender receiver : ℕ) (origin : BlockId) (msg : Message)
      → Meets (process_message g s sender receiver origin msg) (LastsIn s)
  unfolding process_message
  process_message-Lasts s sender receiver origin msg =
      let (node, round) = node_round msg in
      Meets-if (has_key (final node round) s) _ _ (LastsIn s) (λ _. Lasts-refl s)
        λ _.
          Meets-bind (get_view s node round) _ (Views s node round) (LastsIn s)
            (get_view-Views s node round)
            λ (s', v) _ seen.
              Meets-mono (dispatch g s' sender receiver origin v msg) (LastsIn s') (LastsIn s)
                (dispatch-Lasts s' sender receiver origin v msg seen.stands)
                (λ step x. Lasts-trans seen.lasts x)
