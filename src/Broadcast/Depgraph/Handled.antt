-- ===== src/Broadcast/Depgraph/Handled.antt =====
-- What `processBlock` comes to, by whether a block is included.
use blockmania.Prelude.{
  List, [], ◌∷◌, Bool, true, false, find, put, ◌==◌, if◌then◌else◌, maybe, Outcome, ok, fault,
  Meets, Meets-bind, Meets-if, Meets-maybe, ◌≡◌, ◌≢◌, refl, sym, ap, subst, ◌∙◌, All, All-append,
}
use blockmania.Consensus.Block.{BlockId, BlockId-discrete, block_id_key, valid}
use blockmania.Broadcast.Depgraph.{
  Depgraph, BlockData, is_stored, known, is_included, check_dep, check_prev, check_deps,
}
use blockmania.Broadcast.Depgraph.Ready.{
  known-put_icache, known-put_icache_ne, is_stored-Meets, Anything,
}
use blockmania.Broadcast.Depgraph.Weights.{weight}

abbrev pub told : Outcome Bool → Bool
told (ok inc) = inc
told (fault f) = false

-- What `isIncluded` says, or false where it ends the process.
abbrev pub included : Depgraph → BlockId → Bool
included d id = told (maybe (known d id) (is_stored d.store id) ok)

-- Only caches changed, and not what they say.
pub record Looked (d d' : Depgraph) : Type 0 where
  pub await : d'.await ≡ d.await
  pub pending : d'.pending ≡ d.pending
  pub same : (id : BlockId) → included d' id ≡ included d id

-- The block was queued.
pub record Queued (d : Depgraph) (id : BlockId) (d' : Depgraph) : Type 0 where
  pub was : included d id ≡ false
  pub await : d'.await ≡ d.await
  pub pending : d'.pending ≡ d.pending
  pub now : included d' id ≡ true
  pub others : (j : BlockId) → id ≢ j → included d' j ≡ included d j

-- The block waits, for blocks that are not included.
pub record Waits (d : Depgraph) (b : BlockData) (d' : Depgraph) : Type 0 where
  pub pending : d'.pending ≡ put b.id b d.pending
  pub same : (id : BlockId) → included d' id ≡ included d id
  pub sizes : weight (included d) d'.await ≡ weight (included d) d.await
  pub kept : (id : BlockId) → included d id ≡ true → find id d'.await ≡ find id d.await

pub data Handled (d : Depgraph) (b : BlockData) (d' : Depgraph) : Bool → Type 0 where
  again : included d b.id ≡ true → Looked d d' → Handled d b d' true
  queued : Queued d b.id d' → Handled d b d' true
  waits : Waits d b d' → Handled d b d' false

Looked-refl : (d : Depgraph) → Looked d d
Looked-refl d = record { await = refl; pending = refl; same = λ id. refl }

pub Looked-trans : {d d' d'' : Depgraph} → Looked d d' → Looked d' d'' → Looked d d''
Looked-trans h k = record {
  await = k.await ∙ h.await;
  pending = k.pending ∙ h.pending;
  same = λ id. k.same id ∙ h.same id;
}

-- What a call of `isIncluded` leaves and says.
abbrev pub Said : Depgraph → BlockId → Depgraph × Bool → Type 0
Said d id r = Looked d r.0 × (included d id ≡ r.1)

pub is_included-Said : (d : Depgraph) (id : BlockId) → Meets (is_included d id) (Said d id)
unfolding is_included
is_included-Said d id =
    Meets-maybe (known d id) _ _ (Said d id)
      (λ unknown.
        Meets-bind (is_stored d.store id) _ Anything (Said d id) (is_stored-Meets d.store id)
          λ inc stored _.
            let says : included d id ≡ inc = rw (unknown, stored) refl in
            (
              record {
                await = refl;
                pending = refl;
                same = λ j. elim (BlockId-discrete id j) [
                  | yes here ↦
                      subst
                        (λ k. included (record d { icache = put id inc d.icache }) k ≡ included d k)
                        here
                        (ap (λ o. told (maybe o (is_stored d.store id) ok))
                            (known-put_icache d id inc unknown)
                          ∙ sym says)
                  | no differs ↦
                      ap (λ o. told (maybe o (is_stored d.store j) ok))
                        (known-put_icache_ne d id j inc differs)
                ];
              },
              says,
            ))
      (λ inc there. (Looked-refl d, ap (λ o. told (maybe o (is_stored d.store id) ok)) there))

-- What a check of references leaves: those that it returns are not included.
abbrev pub Gaps : Depgraph → Depgraph × List BlockId → Type 0
Gaps d r = Looked d r.0 × All (λ id. included d id ≡ false) r.1

check_dep-Gaps : (d : Depgraph) (id : BlockId) → Meets (check_dep d id) (Gaps d)
unfolding check_dep
check_dep-Gaps d id =
    Meets-bind (is_included d id) _ (Said d id) (Gaps d) (is_included-Said d id)
      λ (d', inc) _ (looked, says). (looked, gap inc says)
  where
    gap :
        (inc : Bool)
        → included d id ≡ inc
        → All (λ j. included d j ≡ false) (if inc then [] else id ∷ [])
    gap true says = tt
    gap false says = (says, tt)

pub check_prev-Gaps : (d : Depgraph) (prev : BlockId) → Meets (check_prev d prev) (Gaps d)
unfolding check_prev
check_prev-Gaps d prev =
    Meets-if (valid prev) _ _ (Gaps d) (λ _. check_dep-Gaps d prev) (λ _. (Looked-refl d, tt))

pub All-Looked :
    {d d' : Depgraph} (ids : List BlockId)
    → Looked d d'
    → All (λ id. included d' id ≡ false) ids
    → All (λ id. included d id ≡ false) ids
All-Looked [] h all = tt
All-Looked (id ∷ ids) h (out, all) = (sym (h.same id) ∙ out, All-Looked ids h all)

pub check_deps-Gaps : (d : Depgraph) (deps : List BlockId) → Meets (check_deps d deps) (Gaps d)
unfolding check_deps
check_deps-Gaps d [] = (Looked-refl d, tt)
check_deps-Gaps d (dep ∷ deps) =
    Meets-if (dep.node == d.self) _ _ (Gaps d) (λ _. check_deps-Gaps d deps)
      λ _.
        Meets-bind (check_dep d dep) _ (Gaps d) (Gaps d) (check_dep-Gaps d dep)
          λ (d', gaps) _ (h, out).
            Meets-bind (check_deps d' deps) _ (Gaps d') (Gaps d) (check_deps-Gaps d' deps)
              λ (d'', more) _ (k, others).
                (Looked-trans h k, All-append _ gaps more out (All-Looked more h others))
