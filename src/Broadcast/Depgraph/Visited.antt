-- ===== src/Broadcast/Depgraph/Visited.antt =====
-- The blocks that wait for one that is included.
use blockmania.Prelude.{
  ℕ, ◌+◌, ◌≤◌, ◌<◌, List, [], ◌∷◌, ◌++◌, length, length-append, some, Bool, true, false, find,
  if◌then◌else◌, Meets, Meets-bind, Meets-if, Meets-maybe, Meets-mono, ◌≡◌, ◌⊎◌, inl, inr, refl, ap,
  subst, ◌∙◌, All, All-append, arith,
}
use blockmania.Consensus.Block.{BlockId, block_id_key}
use blockmania.Broadcast.Depgraph.{Depgraph, Release, has_id, process_block, visit_one, visit}
use blockmania.Broadcast.Depgraph.Handled.{included, Handled}
use blockmania.Broadcast.Depgraph.Processed.{process_block-Handled}
use blockmania.Broadcast.Depgraph.Moved.{open_blocks, waiting_blocks, IsLoop, Moved, Handled-Moved}

-- What visits leave while they queue no block: `count` blocks more at most are to be looked at, and
-- nothing else of what the loop uses up is changed.
pub record Steady (r r' : Release) (count : ℕ) : Type 0 where
  pub blocks : open_blocks r'.graph ≡ open_blocks r.graph
  pub waiting : waiting_blocks r'.graph ≡ waiting_blocks r.graph
  pub kept :
      (id : BlockId) → included r.graph id ≡ true → find id r'.graph.await ≡ find id r.graph.await
  pub listed : length r'.processed ≤ length r.processed + count

-- What visits leave: a block was queued, or none was.
pub record Visited (r : Release) (count : ℕ) (r' : Release) : Type 0 where
  pub loop : IsLoop r'
  pub more : (id : BlockId) → included r.graph id ≡ true → included r'.graph id ≡ true
  pub progress : (open_blocks r'.graph < open_blocks r.graph) ⊎ Steady r r' count

Steady-refl : (r : Release) (count : ℕ) → Steady r r count
Steady-refl r count = record {
  blocks = refl;
  waiting = refl;
  kept = λ j e. refl;
  listed = omega arith;
}

Visited-refl : (r : Release) (count : ℕ) → IsLoop r → Visited r count r
Visited-refl r count loop = record {
  loop = loop;
  more = λ j e. e;
  progress = inr (Steady-refl r count);
}

All-more :
    {f g : BlockId → Bool} (ids : List BlockId)
    → ((j : BlockId) → f j ≡ true → g j ≡ true)
    → All (λ j. f j ≡ true) ids
    → All (λ j. g j ≡ true) ids
All-more [] more h = tt
All-more (id ∷ ids) more (here, h) = (more id here, All-more ids more h)

-- The variables of the loop after a visit.
abbrev after_visit : Release → BlockId → Depgraph → Bool → Release
after_visit r revdep d done =
    if done
    then record r { graph = d; processed = r.processed ++ (revdep ∷ []); seen = [] }
    else record r { graph = d; seen = revdep ∷ r.seen }

after_visit-Visited :
    (r : Release) (revdep : BlockId) (d : Depgraph) (done : Bool)
    → IsLoop r
    → Moved r.graph revdep d done
    → Visited r 1 (after_visit r revdep d done)
after_visit-Visited r revdep d true loop m = record {
  loop = record {
    by_id = m.by_id;
    done =
        All-append _ r.processed (revdep ∷ []) (All-more r.processed m.more loop.done)
          (m.now refl, tt);
  };
  more = m.more;
  progress = elim m.progress [
    | inl less ↦ inl less
    | inr (blocks, waiting, kept) ↦ inr (record {
      blocks = blocks;
      waiting = waiting;
      kept = kept;
      listed = omega (arith, length-append r.processed (revdep ∷ []));
    })
  ];
}
after_visit-Visited r revdep d false loop m = record {
  loop = record { by_id = m.by_id; done = All-more r.processed m.more loop.done };
  more = m.more;
  progress = elim m.progress [
    | inl less ↦ inl less
    | inr (blocks, waiting, kept) ↦
        inr (record { blocks = blocks; waiting = waiting; kept = kept; listed = omega arith })
  ];
}

visit_one-Visited :
    (r : Release) (revdep : BlockId) → IsLoop r → Meets (visit_one r revdep) (Visited r 1)
unfolding visit_one
visit_one-Visited r revdep loop =
    Meets-if (has_id revdep r.seen) _ _ (Visited r 1) (λ _. Visited-refl r 1 loop)
      λ _.
        Meets-maybe (find revdep r.graph.pending) _ _ (Visited r 1) (λ _ e. cc)
          λ block there.
            let same : block.id ≡ revdep = loop.by_id revdep block there in
            let here : find block.id r.graph.pending ≡ some block =
              ap (λ j. find j r.graph.pending) same ∙ there in
            Meets-bind (process_block r.graph block) _ (λ p. Handled r.graph block p.0 p.1)
              (Visited r 1) (process_block-Handled r.graph block)
              λ (d, done) _ h. after_visit-Visited r revdep d done loop (
                subst (λ j. Moved r.graph j d done) same
                  (Handled-Moved r.graph d block done loop.by_id here h))

Visited-trans :
    (r r' r'' : Release) (count : ℕ)
    → Visited r 1 r'
    → Visited r' count r''
    → Visited r (count + 1) r''
Visited-trans r r' r'' count h k = record {
  loop = k.loop;
  more = λ j e. k.more j (h.more j e);
  progress = elim h.progress [
    | inl less ↦ elim k.progress [
      | inl fewer ↦ inl (omega (arith, less, fewer))
      | inr s ↦ inl (omega (arith, less, s.blocks))
    ]
    | inr t ↦ elim k.progress [
      | inl fewer ↦ inl (omega (arith, fewer, t.blocks))
      | inr s ↦ inr (record {
        blocks = s.blocks ∙ t.blocks;
        waiting = s.waiting ∙ t.waiting;
        kept = λ j e. s.kept j (h.more j e) ∙ t.kept j e;
        listed = omega (arith, s.listed, t.listed);
      })
    ]
  ];
}

pub visit-Visited :
    (r : Release) (ids : List BlockId) → IsLoop r → Meets (visit r ids) (Visited r (length ids))
unfolding visit
visit-Visited r [] loop = Visited-refl r 0 loop
visit-Visited r (id ∷ ids) loop =
    Meets-bind (visit_one r id) _ (Visited r 1) (Visited r (length (id ∷ ids)))
      (visit_one-Visited r id loop)
      λ r' _ one.
        Meets-mono (visit r' ids) (Visited r' (length ids)) (Visited r (length (id ∷ ids)))
          (visit-Visited r' ids one.loop)
          λ r'' more.
            subst (λ (n : ℕ). Visited r n r'') (omega arith)
              (Visited-trans r r' r'' (length ids) one more)
