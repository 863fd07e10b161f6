-- ===== src/Consensus/Graph/Typing/Deliveries.antt =====
-- A delivery drops states of the graph, and changes none.
use blockmania.Prelude.{
  ℕ, zero, suc, List, [], ◌∷◌, ◌≡◌, refl, sym, ◌∙◌, ap, arith, find, find-delete, delete, some,
  none, Map, length, Outcome, ok, Asserts, Asserts-bind, Asserts-if, Asserts-mono, never-Asserts,
  nat_key, if◌then◌else◌, ltb, ◌==◌, ◌&&◌, add_u64, Bool-cases, inl, inr,
}
use blockmania.Consensus.Block.{Hash, BlockId, Dep, block_id_key}
use blockmania.Consensus.State.{State}
use blockmania.Consensus.Graph.{Graph, BlockInfo}
use blockmania.Consensus.Graph.Deliver.{
  forget, forget_deps, consume, first_consumed, hand_over, deliver_one, next_round, deliver_round,
  note_hash, deliver,
}
use blockmania.Consensus.Graph.Deliver.Order.{Notes, note_hash-Notes}

-- The maps stay, and every state of the second graph is one of the first.
pub record Shrinks (g g' : Graph) : Type 0 where
  pub heap : g'.heap ≡ g.heap
  pub states : (b : BlockId) (s : State) → find b g'.statess ≡ some s → find b g.statess ≡ some s

Shrinks-same : (g g' : Graph) → g'.heap ≡ g.heap → g'.statess ≡ g.statess → Shrinks g g'
Shrinks-same g g' h e = record { heap = h; states = λ b s there. ap (find b) (sym e) ∙ there }

Shrinks-trans : {g h k : Graph} → Shrinks g h → Shrinks h k → Shrinks g k
Shrinks-trans x y = record {
  heap = y.heap ∙ x.heap;
  states = λ b s there. x.states b s (y.states b s there);
}

forget-Shrinks : (b : BlockId) (g : Graph) → Shrinks g (forget b g)
forget-Shrinks b g = record {
  heap = refl;
  states = λ c s there. ground (arith, find-delete b c g.statess);
}

forget_deps-Shrinks : (deps : List Dep) (g : Graph) → Shrinks g (forget_deps deps g)
unfolding forget_deps
forget_deps-Shrinks [] g = Shrinks-same g g refl refl
forget_deps-Shrinks (dep ∷ deps) g =
    Shrinks-trans (forget-Shrinks dep.block g) (forget_deps-Shrinks deps (forget dep.block g))

consume-Shrinks :
    (round consumed : ℕ) (infos : List BlockInfo) (g : Graph)
    → Shrinks g (consume round consumed infos g).0
unfolding consume
consume-Shrinks round consumed [] g = Shrinks-same g _ refl refl
consume-Shrinks round consumed (info ∷ infos) g =
    let g' = forget info.graph.block g in
    let h = forget_deps info.graph.deps g' in
    let rest = Shrinks-trans (forget-Shrinks info.graph.block g) (
      Shrinks-trans (forget_deps-Shrinks info.graph.deps g')
        (consume-Shrinks round (add_u64 consumed 1) infos h)) in
    elim (Bool-cases (ltb round info.max)) [
      | inl late ↦ rw late (Shrinks-same g (record g { blocks = info ∷ infos }) refl refl)
      | inr due ↦ rw due rest
    ]

first_consumed-Asserts : (infos : List BlockInfo) → Asserts (first_consumed infos) (λ n. Unit)
unfolding first_consumed
first_consumed-Asserts [] = λ e. cc
first_consumed-Asserts (info ∷ infos) = tt

deliver_one-Shrinks :
    (g : Graph) (round : ℕ) (hashes : Map ℕ Hash) → Asserts (deliver_one g round hashes) (Shrinks g)
unfolding deliver_one hand_over
deliver_one-Shrinks g round hashes =
    Asserts-bind (first_consumed g.blocks) _ (λ n. Unit) (Shrinks g)
      (first_consumed-Asserts g.blocks)
      λ first _.
        let h : Graph = record g { resolved = delete round g.resolved } in
        let c = consume round first g.blocks h in
        Shrinks-trans (Shrinks-same g h refl refl) (
          Shrinks-trans (consume-Shrinks round first g.blocks h)
            (Shrinks-same c.0 (hand_over round hashes c) refl refl))

next_round-Shrinks :
    (g : Graph) (again : Map ℕ Hash → Outcome Graph) (round : ℕ)
    → ((next : Map ℕ Hash) → Asserts (again next) (Shrinks g))
    → Asserts (next_round again round g) (Shrinks g)
unfolding next_round
next_round-Shrinks g again round h =
    elim (find (add_u64 round 1) g.resolved)
      as (λ o.
        Asserts
          (elim o [
            | none ↦ ok g
            | some next ↦ if length next == g.peer_count then again next else ok g
          ])
          (Shrinks g)) [
            | none ↦ Shrinks-same g g refl refl
            | some next ↦
                Asserts-if (length next == g.peer_count) (again next) (ok g) (Shrinks g) (h next)
                  (Shrinks-same g g refl refl)
          ]

deliver_round-Shrinks :
    (fuel : ℕ) (g : Graph) (round : ℕ) (hashes : Map ℕ Hash)
    → Asserts (deliver_round fuel g round hashes) (Shrinks g)
unfolding deliver_round
deliver_round-Shrinks zero g round hashes = λ e. cc
deliver_round-Shrinks (suc fuel) g round hashes =
    Asserts-bind (deliver_one g round hashes) _ (Shrinks g) (Shrinks g)
      (deliver_one-Shrinks g round hashes)
      λ h one.
        Asserts-mono (next_round (λ next. deliver_round fuel h (add_u64 round 1) next) round h)
          (Shrinks h) (Shrinks g)
          (next_round-Shrinks h _ round
            (λ next. deliver_round-Shrinks fuel h (add_u64 round 1) next))
          (λ k more. Shrinks-trans one more)

note_hash-Shrinks :
    (g : Graph) (node round : ℕ) (hash : Hash)
    → Asserts (note_hash g node round hash) (λ r. Shrinks g r.0)
unfolding note_hash
note_hash-Shrinks g node round hash =
    never-Asserts (note_hash g node round hash) (λ r. Shrinks g r.0) (ground arith)
      λ (h, hashes) noted.
        let n : Notes g round h hashes = note_hash-Notes g h node round hash hashes noted in
        Shrinks-same g h (ap (λ z. z.heap) n.only) (ap (λ z. z.statess) n.only)

pub deliver-Shrinks :
    (g : Graph) (node round : ℕ) (hash : Hash) → Asserts (deliver g node round hash) (Shrinks g)
unfolding deliver
deliver-Shrinks g node round hash =
    Asserts-if (ltb round g.round) _ _ (Shrinks g) (Shrinks-same g g refl refl) (
      Asserts-bind (note_hash g node round hash) _ (λ r. Shrinks g r.0) (Shrinks g)
        (note_hash-Shrinks g node round hash)
        λ (h, hashes) noted.
          Asserts-if (round == h.round && length hashes == h.peer_count) _ _ (Shrinks g)
            (Asserts-mono (deliver_round (suc (length h.resolved)) h round hashes) (Shrinks h)
              (Shrinks g) (deliver_round-Shrinks (suc (length h.resolved)) h round hashes)
              (λ k more. Shrinks-trans noted more))
            noted)
