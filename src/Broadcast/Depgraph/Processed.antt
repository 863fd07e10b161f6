-- ===== src/Broadcast/Depgraph/Processed.antt =====
-- The three ways in which `processBlock` returns.
use blockmania.Prelude.{
  List, [], ◌∷◌, ◌++◌, some, Bool, true, false, find, put, find-put_self, find-put_ne, maybe, ok,
  Meets, Meets-bind, Meets-if, ◌≡◌, ◌≢◌, refl, sym, ap, subst, ◌∙◌, All, All-append, Option-cases,
  Bool-cases, inl, inr,
}
use blockmania.Consensus.Block.{BlockId, block_id_key}
use blockmania.Broadcast.Depgraph.{
  Depgraph, BlockData, has_id, is_stored, known, is_included, mark_included, check_prev, check_deps,
  await_dep, await_deps, add_pending, settle, process_block,
}
use blockmania.Broadcast.Depgraph.Handled.{
  told, included, Looked, Looked-trans, Queued, Handled, again, queued, waits, Said,
  is_included-Said, Gaps, check_prev-Gaps, check_deps-Gaps, All-Looked,
}
use blockmania.Broadcast.Depgraph.Weights.{weight, weight-put, weight-ext}

-- Entries were put into `await`, none of them under a block that passes the test.
record Awaits (f : BlockId → Bool) (d d' : Depgraph) : Type 0 where
  rest : d' ≡ record d { await = d'.await }
  sizes : weight f d'.await ≡ weight f d.await
  kept : (id : BlockId) → f id ≡ true → find id d'.await ≡ find id d.await

true-ne-false : {b : Bool} → b ≡ true → b ≢ false
true-ne-false h k = cc

put_await :
    (f : BlockId → Bool) (d : Depgraph) (dep : BlockId) (ids : List BlockId)
    → f dep ≡ false
    → Awaits f d (record d { await = put dep ids d.await })
put_await f d dep ids out = record {
  rest = refl;
  sizes = weight-put f dep ids d.await out;
  kept = λ id passes.
      find-put_ne dep id ids d.await (λ e. true-ne-false passes (subst (λ j. f j ≡ false) e out));
}

Awaits-refl : (f : BlockId → Bool) (d : Depgraph) → Awaits f d d
Awaits-refl f d = record { rest = refl; sizes = refl; kept = λ id passes. refl }

await_dep-Awaits :
    (f : BlockId → Bool) (id dep : BlockId) (d : Depgraph)
    → f dep ≡ false
    → Awaits f d (await_dep id dep d)
unfolding await_dep
await_dep-Awaits f id dep d out = elim (Option-cases (find dep d.await)) [
  | inl new ↦ rw new (put_await f d dep (id ∷ []) out)
  | inr (ids, old) ↦ elim (Bool-cases (has_id id ids)) [
    | inl there ↦ rw (old, there) (Awaits-refl f d)
    | inr first ↦ rw (old, first) (put_await f d dep (ids ++ (id ∷ [])) out)
  ]
]

await_deps-Awaits :
    (f : BlockId → Bool) (id : BlockId) (deps : List BlockId) (d : Depgraph)
    → All (λ dep. f dep ≡ false) deps
    → Awaits f d (await_deps id deps d)
unfolding await_deps
await_deps-Awaits f id [] d out = Awaits-refl f d
await_deps-Awaits f id (dep ∷ deps) d (here, out) =
    let h = await_dep-Awaits f id dep d here in
    let k = await_deps-Awaits f id deps (await_dep id dep d) out in
    record {
      rest =
          k.rest
          ∙ ap {A = Depgraph}
              (λ e. record e { await = (await_deps id deps (await_dep id dep d)).await }) h.rest;
      sizes = k.sizes ∙ h.sizes;
      kept = λ j passes. k.kept j passes ∙ h.kept j passes;
    }

-- A queued block is included, and of the others the caches say what they said.
mark_included-Queued :
    (d : Depgraph) (b : BlockData) → included d b.id ≡ false → Queued d b.id (settle b d []).0
unfolding settle mark_included known
mark_included-Queued d b out = record {
  was = out;
  await = refl;
  pending = refl;
  now =
      ap
        (λ o.
          told
            (maybe (maybe o (find b.id (put b.id true d.icache)) some) (is_stored d.store b.id) ok))
        (find-put_self b.id true d.tcache);
  others = λ j differs.
      ap
        (λ o.
          told (maybe (maybe o (find j (put b.id true d.icache)) some) (is_stored d.store j) ok))
        (find-put_ne b.id j true d.tcache differs)
      ∙ ap (λ o. told (maybe (maybe (find j d.tcache) o some) (is_stored d.store j) ok))
          (find-put_ne b.id j true d.icache differs);
}

settle-Handled :
    (b : BlockData) (d : Depgraph) (gaps : List BlockId)
    → included d b.id ≡ false
    → All (λ id. included d id ≡ false) gaps
    → Handled d b (settle b d gaps).0 (settle b d gaps).1
unfolding settle
settle-Handled b d [] out all = queued (mark_included-Queued d b out)
settle-Handled b d (dep ∷ deps) out all =
    let d1 : Depgraph = record d { pending = put b.id b d.pending } in
    let a = await_deps-Awaits (included d) b.id (dep ∷ deps) d1 all in
    unfold add_pending in
    waits (record {
      pending = ap (λ e. e.pending) a.rest;
      same = λ id. ap (λ e. included e id) a.rest ∙ unfold known in refl;
      sizes = a.sizes;
      kept = a.kept;
    })

-- Looking before or after changes nothing of this.
Looked-Handled :
    {d d' d'' : Depgraph} {b : BlockData} {done : Bool}
    → Looked d d'
    → Handled d' b d'' done
    → Handled d b d'' done
Looked-Handled {b} h (again was looked) = again (sym (h.same b.id) ∙ was) (Looked-trans h looked)
Looked-Handled {b} h (queued q) = queued (record {
  was = sym (h.same b.id) ∙ q.was;
  await = q.await ∙ h.await;
  pending = q.pending ∙ h.pending;
  now = q.now;
  others = λ j differs. q.others j differs ∙ h.same j;
})
Looked-Handled {d} {d'} {d''} {b} h (waits w) = waits (record {
  pending = w.pending ∙ ap (put b.id b) h.pending;
  same = λ id. w.same id ∙ h.same id;
  sizes =
      weight-ext (included d) (included d') d''.await (λ id. sym (h.same id))
      ∙ w.sizes
      ∙ weight-ext (included d') (included d) _ h.same
      ∙ ap (weight (included d)) h.await;
  kept = λ id there. w.kept id (h.same id ∙ there) ∙ ap (find id) h.await;
})

pub process_block-Handled :
    (d : Depgraph) (b : BlockData) → Meets (process_block d b) (λ r. Handled d b r.0 r.1)
unfolding process_block
process_block-Handled d b =
    let P : Depgraph × Bool → Type 0 = λ r. Handled d b r.0 r.1 in
    Meets-bind (is_included d b.id) _ (Said d b.id) P (is_included-Said d b.id)
      λ (d', inc) _ (h, says).
        Meets-if inc _ _ P (λ yes_inc. again (says ∙ yes_inc) h)
          λ no_inc.
            Meets-bind (check_prev d' b.prev) _ (Gaps d') P (check_prev-Gaps d' b.prev)
              λ (d1, gaps) _ (k, out).
                Meets-bind (check_deps d1 b.deps) _ (Gaps d1) P (check_deps-Gaps d1 b.deps)
                  λ (d2, more) _ (l, others).
                    let all = Looked-trans h (Looked-trans k l) in
                    let open_there : included d2 b.id ≡ false = all.same b.id ∙ says ∙ no_inc in
                    let d_gaps =
                      All-append _ gaps more (All-Looked gaps h out)
                        (All-Looked more (Looked-trans h k) others) in
                    Looked-Handled all (
                      settle-Handled b d2 (gaps ++ more) open_there
                        (to_last all (gaps ++ more) d_gaps))
  where
    to_last :
        {d d2 : Depgraph}
        → Looked d d2
        → (ids : List BlockId) → All (λ id. included d id ≡ false) ids
        → All (λ id. included d2 id ≡ false) ids
    to_last h [] all = tt
    to_last h (id ∷ ids) (out, all) = (h.same id ∙ out, to_last h ids all)
