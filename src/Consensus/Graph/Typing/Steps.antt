-- ===== src/Consensus/Graph/Typing/Steps.antt =====
-- A call of `processMessage` keeps the values typed, and none of its type assertions fails.
use blockmania.Prelude.{
  add_u64, ℕ, ◌+◌, ◌≤◌, ◌<◌, List, [], ◌∷◌, ◌++◌, ◌≡◌, refl, sym, subst, arith, find, put, Map, not,
  true, nat_key, ltb, ◌==◌, length, length-append, Asserts, Asserts-if, Asserts-bind, Asserts-maybe,
}
use blockmania.Consensus.Block.{Hash, BlockId}
use blockmania.Consensus.Messages.{PrePrepare, Prepare, Commit, NewView, prepare_pre}
use blockmania.Consensus.StateData.{
  StateValue, number, text, flag, message, changes, view, hnv, prepared, pre_prepared, view_changed,
  state_data_key,
}
use blockmania.Consensus.Bitset.{Bitset, set_prepare, set_commit, has_commit}
use blockmania.Consensus.Bitset.Returns.{
  Anything, set_prepare-Asserts, set_commit-Asserts, has_commit-Asserts,
}
use blockmania.Consensus.State.{
  State, Timeout, NodeRound, node_round_key, get_bitset, set_bitset, as_changes, put_kv,
}
use blockmania.Consensus.Graph.{Graph}
use blockmania.Consensus.Graph.Deliver.{deliver}
use blockmania.Consensus.Graph.Interpret.{
  Step, put_kv_new, add_timeout, has_key, on_pre_prepare, on_quorum_prepared, on_quorum_committed,
  changes_at, on_new_view,
}
use blockmania.Consensus.Graph.Typing.{HasType, IsTyped, AreTyped}
use blockmania.Consensus.Graph.Typing.Deliveries.{Shrinks, deliver-Shrinks}
use blockmania.Consensus.Graph.Typing.Writes.{
  IsTyped-mono, same-IsTyped, put_kv-IsTyped, put_kv_new-IsTyped, voted-IsTyped,
  add_timeout-IsTyped,
}

abbrev pub StepTyped : Step → Type 0
StepTyped step = AreTyped step.graph step.state

-- The state that is being computed changes, the graph does not.
pub moved :
    {g : Graph} {s : State} (s' : State) → AreTyped g s → IsTyped (length g.heap) s' → AreTyped g s'
moved s' t t' = record { state = t'; graph = t.graph }

-- The graph has as many maps as before, or more.
pub grown :
    {g : Graph} {s : State} (heap : List (Map ℕ Hash))
    → length g.heap ≤ length heap
    → AreTyped g s
    → AreTyped (record g { heap = heap }) s
grown {g} {s} heap more t = record {
  state = IsTyped-mono (length g.heap) (length heap) s more t.state;
  graph = λ b s' there. IsTyped-mono (length g.heap) (length heap) s' more (t.graph b s' there);
}

Shrinks-AreTyped : (g g' : Graph) (s : State) → Shrinks g g' → AreTyped g s → AreTyped g' s
Shrinks-AreTyped g g' s x t = record {
  state = subst (λ h. IsTyped (length h) s) (sym x.heap) t.state;
  graph = λ b s' there.
      subst (λ h. IsTyped (length h) s') (sym x.heap) (t.graph b s' (x.states b s' there));
}

module _ (g : Graph) (s : State) (t : AreTyped g s) where
  pub on_pre_prepare-Asserts :
      (sender receiver v : ℕ) (m : PrePrepare)
      → Asserts (on_pre_prepare g s sender receiver v m) StepTyped
  unfolding on_pre_prepare
  on_pre_prepare-Asserts sender receiver v m =
      let key = pre_prepared m.node m.round m.view in
      Asserts-if (not (v == m.view)) _ _ StepTyped t (
        Asserts-if (has_key key s) _ _ StepTyped t (
          let (s', b) = get_bitset s g.peer_count m in
          Asserts-bind (set_prepare b sender) _ Anything StepTyped (set_prepare-Asserts b sender)
            λ b' _.
              Asserts-bind (set_prepare b' receiver) _ Anything StepTyped
                (set_prepare-Asserts b' receiver)
                λ b'' _. moved (put_kv key (message m) (set_bitset s' m b'')) t (
                  put_kv-IsTyped (length g.heap) key (message m) (set_bitset s' m b'') (m, refl)
                    (voted-IsTyped (length g.heap) s g.peer_count m b'' t.state))))

  pub on_quorum_prepared-Asserts :
      (receiver : ℕ) (m : Prepare) (b : Bitset)
      → Asserts (on_quorum_prepared g s receiver m b) StepTyped
  unfolding on_quorum_prepared set_bitset
  on_quorum_prepared-Asserts receiver m b =
      let key = prepared m.node m.round m.view in
      Asserts-bind (has_commit b receiver) _ Anything StepTyped (has_commit-Asserts b receiver)
        λ committed _. Asserts-if committed _ _ StepTyped t (
          Asserts-bind (set_commit b receiver) _ Anything StepTyped (set_commit-Asserts b receiver)
            λ b' _.
              let s' = set_bitset s (prepare_pre m) b' in
              moved (put_kv_new key (text m.hash) s') t (
                put_kv_new-IsTyped (length g.heap) key (text m.hash) s' (m.hash, refl)
                  (same-IsTyped (length g.heap) s s' refl t.state)))

  pub on_quorum_committed-Asserts : (m : Commit) → Asserts (on_quorum_committed g s m) StepTyped
  unfolding on_quorum_committed
  on_quorum_committed-Asserts m =
      let nr : NodeRound = record { node = m.node; round = m.round } in
      Asserts-maybe (find nr s.final) _ _ StepTyped
        (λ _.
          Asserts-bind (deliver g m.node m.round m.hash) _ (Shrinks g) StepTyped
            (deliver-Shrinks g m.node m.round m.hash)
            λ g' x.
              let t' = Shrinks-AreTyped g g' s x t in
              let s' : State = record s { final = put nr m.hash s.final } in
              moved s' t' (same-IsTyped (length g'.heap) s s' refl t'.state))
        (λ h _. t)

  pub on_new_view-Asserts :
      (origin : BlockId) (v : ℕ) (m : NewView) → Asserts (on_new_view g s origin v m) StepTyped
  unfolding on_new_view
  on_new_view-Asserts origin v m =
      let n = length g.heap in
      let key = hnv m.node m.round m.view in
      let at = view m.node m.round in
      let s' = put_kv at (number m.view) s in
      let tval = add_u64 (add_u64 origin.round s.timeout) 5 in
      let due : Timeout = record { node = m.node; round = m.round; view = m.view } in
      let s'' = add_timeout tval due s' in
      Asserts-if (ltb m.view v) _ _ StepTyped t (
        Asserts-if (has_key key s) _ _ StepTyped t (
          moved (put_kv key (flag true) s'') t (
            put_kv-IsTyped n key (flag true) s'' refl (
              add_timeout-IsTyped n tval due s'
                (put_kv-IsTyped n at (number m.view) s (m.view, refl) t.state)))))

  -- What looking the map up leaves: the values typed, and the address of an allocated map.
  abbrev pub FoundMap : Graph × State × ℕ → Type 0
  FoundMap r = AreTyped r.0 r.1 × (r.2 < length r.0.heap)

  as_changes-Asserts :
      (node round v : ℕ) (val : StateValue)
      → HasType (length g.heap) (view_changed node round v) val
      → Asserts (as_changes val) (λ a. a < length g.heap)
  as_changes-Asserts node round v val (a, small, e) = rw e small

  pub changes_at-Asserts :
      (node round v : ℕ) → Asserts (changes_at g s (view_changed node round v)) FoundMap
  unfolding changes_at
  changes_at-Asserts node round v =
      let key = view_changed node round v in
      let a = length g.heap in
      let longer : length (g.heap ++ ([] ∷ [])) ≡ a + 1 =
        omega (arith, length-append {0} g.heap ([] ∷ [])) in
      Asserts-maybe (find key s.kv) _ _ FoundMap
        (λ _.
          let heap : List (Map ℕ Hash) = g.heap ++ ([] ∷ []) in
          let t' = grown heap (omega arith) t in
          (
            moved (put_kv key (changes a) s) t'
                (put_kv-IsTyped (length heap) key (changes a) s (a, omega arith, refl) t'.state),
            omega arith,
          ))
        λ val there.
          Asserts-bind (as_changes val) _ (λ b. b < a) FoundMap
            (as_changes-Asserts node round v val (t.state key val there)) (λ b small. (t, small))
