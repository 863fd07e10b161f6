-- ===== src/Broadcast/Depgraph/Queue.antt =====
-- What the turns of `process` queue.
use blockmania.Prelude.{
  ℕ, zero, suc, List, [], ◌∷◌, ◌++◌, some, true, not, find, put, maybe, Meets, Meets-bind, Meets-if,
  Meets-maybe, Meets-mono, ◌≡◌, inl, inr, refl, ap, ◌∙◌, All, Map, Option-cases, Bool-cases,
}
use blockmania.Consensus.Block.{BlockId, block_id_key}
use blockmania.Broadcast.Depgraph.{
  Depgraph, BlockData, Release, known, is_included, mark_included, check_prev, check_deps, settle,
  process_block, await_dep, await_deps, add_pending, visit_one, visit, finish, advance_from,
  advance, advance_times, handle, has_id,
}
use blockmania.Broadcast.Depgraph.Ready.{
  PrevIn, DepIn, PrevIn-mono, DepIn-mono, Ready, Grew, Grew-same, Grew-trans, Answers,
  is_included-Answers, Checks, check_prev-Checks, check_deps-Checks, IsKnown-mark_included,
  append-eq-nil, All-mono,
}

-- Only `await` is touched.
record OnlyAwait (d d' : Depgraph) : Type 0 where
  blocks : d'.blocks ≡ d.blocks
  self : d'.self ≡ d.self
  icache : d'.icache ≡ d.icache
  tcache : d'.tcache ≡ d.tcache

abbrev only :
    {d : Depgraph} {await : Map BlockId (List BlockId)} → OnlyAwait d (record d { await = await })
only = record { blocks = refl; self = refl; icache = refl; tcache = refl }

await_dep-OnlyAwait : (id dep : BlockId) (d : Depgraph) → OnlyAwait d (await_dep id dep d)
unfolding await_dep
await_dep-OnlyAwait id dep d = elim (Option-cases (find dep d.await)) [
  | inl new ↦ rw new only
  | inr (ids, old) ↦ elim (Bool-cases (has_id id ids)) [
    | inl there ↦ rw (old, there) only
    | inr first ↦ rw (old, first) only
  ]
]

await_deps-Grew :
    (id : BlockId) (deps : List BlockId) (d : Depgraph) → Grew d (await_deps id deps d)
unfolding await_deps
await_deps-Grew id [] d = Grew-same d d refl refl (λ j there. there)
await_deps-Grew id (dep ∷ deps) d =
    let o = await_dep-OnlyAwait id dep d in
    Grew-trans
      (Grew-same d (await_dep id dep d) o.blocks o.self λ j there.
        unfold known in
        (ap (λ t. maybe (find j t) (find j (await_dep id dep d).icache) some) o.tcache
          ∙ ap (λ t. maybe (find j d.tcache) (find j t) some) o.icache
          ∙ there))
      (await_deps-Grew id deps (await_dep id dep d))

settle-Grew :
    (block : BlockData) (d : Depgraph) (gaps : List BlockId)
    → (gaps ≡ [] → Ready d block)
    → Grew d (settle block d gaps).0
unfolding settle add_pending
settle-Grew block d (dep ∷ deps) ready =
    Grew-trans
      (Grew-same d (record d { pending = put block.id block d.pending }) refl refl
        (λ j there. unfold known in there))
      (await_deps-Grew block.id (dep ∷ deps) (record d { pending = put block.id block d.pending }))
settle-Grew block d [] ready =
    let d' = mark_included block.id d in
    let marked : Grew d d' =
      Grew-same d d' (unfold mark_included in refl) (unfold mark_included in refl)
        (λ j there. IsKnown-mark_included d block.id j there) in
    Grew-trans marked (record {
      added = block ∷ [];
      blocks = refl;
      ready = (
        unfold known in
            record {
              prev = PrevIn-mono marked block.prev (ready refl).prev;
              deps = All-mono (DepIn d) (DepIn d') block.deps (DepIn-mono marked) (ready refl).deps;
            },
        tt,
      );
      self = refl;
      keeps = λ j there. unfold known in there;
    })

process_block-Grew :
    (d : Depgraph) (block : BlockData) → Meets (process_block d block) (λ r. Grew d r.0)
unfolding process_block
process_block-Grew d block =
    Meets-bind (is_included d block.id) _ (Answers d block.id) (λ r. Grew d r.0)
      (is_included-Answers d block.id)
      λ (d', inc) _ a.
        Meets-if inc _ _ (λ r. Grew d r.0) (λ _. a.grew)
          λ _.
            Meets-bind (check_prev d' block.prev) _ (Checks d' (λ d1. PrevIn d1 block.prev))
              (λ r. Grew d r.0) (check_prev-Checks d' block.prev)
              λ (d1, gaps) _ c.
                Meets-bind (check_deps d1 block.deps) _
                  (Checks d1 (λ d2. All (DepIn d2) block.deps)) (λ r. Grew d r.0)
                  (check_deps-Checks d1 block.deps)
                  λ (d2, more) _ cs. Grew-trans (Grew-trans a.grew (Grew-trans c.grew cs.grew)) (
                    settle-Grew block d2 (gaps ++ more) λ e.
                      let (no_gaps, no_more) = append-eq-nil gaps more e in
                      record {
                        prev = PrevIn-mono cs.grew block.prev (c.all_there no_gaps);
                        deps = cs.all_there no_more;
                      })

-- The graph of the loop's variables grew.
abbrev GrewIn : Release → Release → Type 0
GrewIn r r' = Grew r.graph r'.graph

Grew-refl : (d : Depgraph) → Grew d d
Grew-refl d = Grew-same d d refl refl (λ j there. there)

visit_one-GrewIn : (r : Release) (revdep : BlockId) → Meets (visit_one r revdep) (GrewIn r)
unfolding visit_one
visit_one-GrewIn r revdep =
    Meets-if (has_id revdep r.seen) _ _ (GrewIn r) (λ _. Grew-refl r.graph)
      λ _.
        Meets-maybe (find revdep r.graph.pending) _ _ (GrewIn r) (λ _. λ e. cc)
          λ block _.
            Meets-bind (process_block r.graph block) _ (λ x. Grew r.graph x.0) (GrewIn r)
              (process_block-Grew r.graph block)
              λ (d, done) _ g. elim (Bool-cases done) [
                | inl queued ↦ rw queued g
                | inr waits ↦ rw waits g
              ]

visit-GrewIn : (r : Release) (revdeps : List BlockId) → Meets (visit r revdeps) (GrewIn r)
unfolding visit
visit-GrewIn r [] = Grew-refl r.graph
visit-GrewIn r (revdep ∷ revdeps) =
    Meets-bind (visit_one r revdep) _ (GrewIn r) (GrewIn r) (visit_one-GrewIn r revdep) λ r' _ one.
      Meets-mono (visit r' revdeps) (GrewIn r') (GrewIn r) (visit-GrewIn r' revdeps)
        (λ r'' more. Grew-trans one more)

finish-GrewIn : (next : BlockId) (r : Release) → GrewIn r (finish next r)
unfolding finish known
finish-GrewIn next r = elim (Bool-cases r.first) [
  | inl first ↦ rw first (Grew-same r.graph _ refl refl (λ j there. there))
  | inr later ↦ rw later (Grew-same r.graph _ refl refl (λ j there. there))
]

advance_from-GrewIn :
    (r : Release) (processed : List BlockId) → Meets (advance_from r processed) (GrewIn r)
unfolding advance_from
advance_from-GrewIn r [] = Grew-refl r.graph
advance_from-GrewIn r (next ∷ rest) =
    let r0 = record r { processed = rest } in
    Meets-bind (visit r0 (maybe (find next r.graph.await) [] (λ ids. ids))) _ (GrewIn r0) (GrewIn r)
      (visit-GrewIn r0 (maybe (find next r.graph.await) [] (λ ids. ids)))
      (λ r' _ g. Grew-trans g (finish-GrewIn next r'))

advance_times-GrewIn : (n : ℕ) (r : Release) → Meets (advance_times n r) (GrewIn r)
unfolding advance_times advance
advance_times-GrewIn zero r = Grew-refl r.graph
advance_times-GrewIn (suc n) r =
    Meets-bind (advance_from r r.processed) _ (GrewIn r) (GrewIn r)
      (advance_from-GrewIn r r.processed)
      λ r' _ one.
        Meets-mono (advance_times n r') (GrewIn r') (GrewIn r) (advance_times-GrewIn n r')
          (λ r'' more. Grew-trans one more)

-- After any number of turns in the handling of a block, whatever its graph: the blocks that were
-- queued stand behind those that were there, the previous block and all references of each of them,
-- but for the node's own, are included by the caches, and the caches have forgotten no included block.
pub handle-Grew : (n : ℕ) (d : Depgraph) (info : BlockData) → Meets (handle n d info) (Grew d)
unfolding handle
handle-Grew n d info =
    Meets-bind (process_block d info) _ (λ r. Grew d r.0) (Grew d) (process_block-Grew d info)
      λ (d', done) _ first.
        Meets-if (not done) _ _ (Grew d) (λ _. first)
          λ _.
            let r : Release = record {
              graph = d';
              first = true;
              processed = info.id ∷ [];
              seen = info.id ∷ [];
            } in
            Meets-bind (advance_times n r) _ (GrewIn r) (Grew d) (advance_times-GrewIn n r)
              (λ r' _ more. Grew-trans first more)
