-- ===== src/Broadcast/Depgraph/Ends.antt =====
-- The loop of `process` over the blocks just included ends.
use blockmania.Prelude.{
  ℕ, zero, suc, ◌+◌, ◌≤◌, ◌<◌, List, [], ◌∷◌, length, some, Bool, true, false, find, delete,
  find-delete, Map, if◌then◌else◌, maybe, ok, fault, Fault, out_of_fuel, ◌>>=◌, Outcome-cases,
  Meets, Meets-bind, Meets-ok, ◌≡◌, ◌≢◌, ◌⊎◌, inl, inr, refl, sym, ap, subst, ◌∙◌, All, arith,
}
use blockmania.Consensus.Block.{BlockId, block_id_key}
use blockmania.Broadcast.Depgraph.{
  BlockData, Release, known, visit, finish, advance_from, advance, advance_times,
}
use blockmania.Broadcast.Depgraph.Handled.{included}
use blockmania.Broadcast.Depgraph.Weights.{count_open-delete, weight-delete}
use blockmania.Broadcast.Depgraph.Moved.{open_blocks, waiting_blocks, IsLoop}
use blockmania.Broadcast.Depgraph.Visited.{Visited, visit-Visited}

-- What the loop has left to use up, when no more blocks are queued.
abbrev pub work : Release → ℕ
work r = waiting_blocks r.graph + length r.processed

-- A turn uses something up: a block is queued, or there is less work.
record Turned (r r' : Release) : Type 0 where
  loop : IsLoop r'
  progress :
      (open_blocks r'.graph < open_blocks r.graph)
      ⊎ ((open_blocks r'.graph ≤ open_blocks r.graph) × (work r' < work r))

-- `finish` as one update.
abbrev finished : BlockId → Release → Bool → Release
finished next r first =
    let d = record r.graph { await = delete next r.graph.await } in
    if first
    then record r { graph = d; first = false }
    else record r { graph = record d { pending = delete next d.pending } }

find-delete-some :
    (m : Map BlockId BlockData) (id j : BlockId) (b : BlockData)
    → find j (delete id m) ≡ some b
    → find j m ≡ some b
find-delete-some m id j b e = ground (arith, find-delete id j m)

finished-IsLoop :
    (next : BlockId) (r : Release) (first : Bool) → IsLoop r → IsLoop (finished next r first)
unfolding known
finished-IsLoop next r true loop = record { by_id = loop.by_id; done = loop.done }
finished-IsLoop next r false loop = record {
  by_id = λ j b e. loop.by_id j b (find-delete-some r.graph.pending next j b e);
  done = loop.done;
}

finished-open :
    (next : BlockId) (r : Release) (first : Bool)
    → open_blocks (finished next r first).graph ≤ open_blocks r.graph
unfolding known
finished-open next r true = omega arith
finished-open next r false = count_open-delete (included r.graph) next r.graph.pending

finished-work :
    (next : BlockId) (r : Release) (first : Bool)
    → included r.graph next ≡ true
    → waiting_blocks (finished next r first).graph
        + length (maybe (find next r.graph.await) [] (λ ids. ids))
      ≤ waiting_blocks r.graph
unfolding known
finished-work next r true there = weight-delete (included r.graph) next r.graph.await there
finished-work next r false there = weight-delete (included r.graph) next r.graph.await there

finish_lem : (next : BlockId) (r : Release) → finish next r ≡ finished next r r.first
unfolding finish
finish_lem next r = refl

-- What a turn leaves, by what its visits left.
finished-Turned :
    (r r' : Release) (next : BlockId) (rest : List BlockId)
    → r.processed ≡ next ∷ rest
    → included r.graph next ≡ true
    → Visited
        (record r { processed = rest })
        (length (maybe (find next r.graph.await) [] (λ ids. ids)))
        r'
    → Turned r (finished next r' r'.first)
finished-Turned r r' next rest e there v =
    let fewer = finished-open next r' r'.first in
    let used = finished-work next r' r'.first (v.more next there) in
    record {
      loop = finished-IsLoop next r' r'.first v.loop;
      progress = elim v.progress [
        | inl less ↦ inl (omega (arith, less, fewer))
        | inr s ↦
            let same : length (maybe (find next r'.graph.await) [] (λ ids. ids))
                ≡ length (maybe (find next r.graph.await) [] (λ ids. ids)) =
              ap (λ o. length (maybe o [] (λ ids. ids))) (s.kept next there) in
            let counts : length r.processed ≡ length rest + 1 = ap length e ∙ omega arith in
            inr (
              omega (arith, fewer, s.blocks),
              left r'.first (omega (arith, used, same, counts, s.waiting, s.listed)),
            )
      ];
    }
  where
    left :
        (first : Bool)
        → waiting_blocks (finished next r' first).graph + length r'.processed < work r
        → work (finished next r' first) < work r
    left true h = h
    left false h = h

advance-Turned :
    (r : Release) (next : BlockId) (rest : List BlockId)
    → r.processed ≡ next ∷ rest
    → IsLoop r
    → Meets (advance r) (Turned r)
unfolding advance advance_from
advance-Turned r next rest e loop =
    let (there, others) = subst (All (λ id. included r.graph id ≡ true)) e loop.done in
    let ids = maybe (find next r.graph.await) [] (λ ids. ids) in
    let r0 : Release = record r { processed = rest } in
    let start : IsLoop r0 = record { by_id = loop.by_id; done = others } in
    subst (λ l. Meets (advance_from r l) (Turned r)) (sym e)
      (Meets-bind (visit r0 ids) _ (Visited r0 (length ids)) (Turned r) (visit-Visited r0 ids start)
        λ r' _ v.
          subst (Turned r) (sym (finish_lem next r')) (finished-Turned r r' next rest e there v))

-- From some number of turns on the loop is over, or a call in it has crashed.
abbrev pub Settles : Release → Type 0
Settles r =
    (n : ℕ) × ((m : ℕ)
      → n ≤ m
      → (advance_times m r ≡ advance_times n r)
        × Meets (advance_times m r) (λ r'. (r'.processed ≡ []) × IsLoop r'))

advance_times_over : (m : ℕ) (r : Release) → r.processed ≡ [] → advance_times m r ≡ ok r
unfolding advance_times advance advance_from
advance_times_over zero r e = refl
advance_times_over (suc m) r e =
    ap (λ l. advance_from r l >>= advance_times m) e ∙ advance_times_over m r e

Settles-over : (r : Release) → r.processed ≡ [] → IsLoop r → Settles r
unfolding advance_times
Settles-over r e loop =
    (0, λ m h. (advance_times_over m r e, rw (advance_times_over m r e) (e, loop)))

Settles-step : (r r' : Release) → advance r ≡ ok r' → Settles r' → Settles r
unfolding advance_times
Settles-step r r' e (n, all) = (suc n, go)
  where
    go :
        (m : ℕ)
        → suc n ≤ m
        → (advance_times m r ≡ advance_times (suc n) r)
          × Meets (advance_times m r) (λ r''. (r''.processed ≡ []) × IsLoop r'')
    go zero h = absurd (omega arith)
    go (suc m) h = rw e (all m (omega arith))

Settles-fault : (r : Release) (f : Fault) → advance r ≡ fault f → f ≢ out_of_fuel → Settles r
unfolding advance_times
Settles-fault r f e ends = (1, go)
  where
    go :
        (m : ℕ)
        → 1 ≤ m
        → (advance_times m r ≡ advance_times 1 r)
          × Meets (advance_times m r) (λ r''. (r''.processed ≡ []) × IsLoop r'')
    go zero h = absurd (omega arith)
    go (suc m) h = rw e (refl, ends)

Settles-next :
    (r : Release) (next : BlockId) (rest : List BlockId)
    → r.processed ≡ next ∷ rest
    → IsLoop r
    → ((r' : Release) → Turned r r' → Settles r')
    → Settles r
Settles-next r next rest e loop after =
    let turned = advance-Turned r next rest e loop in
    elim (Outcome-cases (advance r)) [
      | inr (f, crash) ↦ Settles-fault r f crash (subst (λ o. Meets o (Turned r)) crash turned)
      | inl (r', done) ↦
          Settles-step r r' done (after r' (Meets-ok (advance r) (Turned r) r' turned done))
    ]

pub loop-Settles :
    (a b : ℕ) (r : Release) (processed : List BlockId)
    → r.processed ≡ processed
    → open_blocks r.graph ≤ a
    → work r ≤ b
    → IsLoop r
    → Settles r
loop-Settles a b r [] e few less loop = Settles-over r e loop
loop-Settles a zero r (next ∷ rest) e few less loop =
    let counts : length r.processed ≡ length rest + 1 = ap length e ∙ omega arith in
    absurd (omega (arith, counts, less))
loop-Settles zero (suc b) r (next ∷ rest) e few less loop = Settles-next r next rest e loop λ r' t.
    elim t.progress [
      | inl fewer ↦ absurd (omega arith)
      | inr (fewer, worked) ↦
          loop-Settles zero b r' r'.processed refl (omega arith) (omega arith) t.loop
    ]
loop-Settles (suc a) (suc b) r (next ∷ rest) e few less loop =
    Settles-next r next rest e loop λ r' t. elim t.progress [
      | inl fewer ↦ loop-Settles a (work r') r' r'.processed refl (omega arith) (omega arith) t.loop
      | inr (fewer, worked) ↦
          loop-Settles (suc a) b r' r'.processed refl (omega arith) (omega arith) t.loop
    ]
