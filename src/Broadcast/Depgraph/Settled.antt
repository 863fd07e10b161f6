-- ===== src/Broadcast/Depgraph/Settled.antt =====
-- The handling of a block comes to an end.
use blockmania.Prelude.{
  ℕ, ◌≤◌, [], ◌∷◌, Bool, true, false, ok, ◌>>=◌, Outcome-cases, Meets, Meets-ok, Meets-bind,
  Meets-mono, ◌≡◌, refl, subst, ap, inl, inr, arith,
}
use blockmania.Broadcast.Depgraph.{
  Depgraph, BlockData, Release, process_block, advance_times, handle,
}
use blockmania.Broadcast.Depgraph.Handled.{Handled}
use blockmania.Broadcast.Depgraph.Processed.{process_block-Handled}
use blockmania.Broadcast.Depgraph.Moved.{
  IsById, open_blocks, IsLoop, Handled-IsById, Handled-included,
}
use blockmania.Broadcast.Depgraph.Ends.{work, loop-Settles}

-- The variables of the loop behind a block that was not put aside.
abbrev pub start : Depgraph → BlockData → Release
start d info = record { graph = d; first = true; processed = info.id ∷ []; seen = info.id ∷ [] }

-- The loop behind the block is over.
abbrev pub IsOver : ℕ → BlockData → Depgraph × Bool → Type 0
IsOver m info (d, done) =
    done ≡ true → Meets (advance_times m (start d info)) (λ r. r.processed ≡ [])

-- The handling has come to its end with so many turns.
pub record IsHandled (n m : ℕ) (d : Depgraph) (info : BlockData) : Type 0 where
  pub same : handle m d info ≡ handle n d info
  pub by_id : Meets (handle m d info) IsById
  pub over : Meets (process_block d info) (IsOver m info)

-- If each pending block stands under its own identifier, then from some number of turns on more turns
-- in the handling of a block change nothing: the list of blocks whose waiting blocks are to be looked
-- at is empty, unless a call crashed, and each pending block still stands under its own identifier.
pub handle-IsHandled :
    (d : Depgraph) (info : BlockData)
    → IsById d
    → (n : ℕ) × ((m : ℕ) → n ≤ m → IsHandled n m d info)
unfolding handle
handle-IsHandled d info by_id =
    let handled = process_block-Handled d info in
    elim (Outcome-cases (process_block d info)) [
      | inr (f, crash) ↦
          let ends = subst (λ o. Meets o (λ r. Handled d info r.0 r.1)) crash handled in
          (0, λ m h. record { same = rw crash refl; by_id = rw crash ends; over = rw crash ends })
      | inl ((d', false), e) ↦
          let waits = Meets-ok (process_block d info) _ (d', false) handled e in
          (
            0,
            λ m h. record {
              same = rw e refl;
              by_id = rw e (Handled-IsById info by_id waits);
              over = rw e (λ not_done. cc);
            },
          )
      | inl ((d', true), e) ↦
          let done = Meets-ok (process_block d info) _ (d', true) handled e in
          let (n, all) =
            loop-Settles (open_blocks d') (work (start d' info)) (start d' info) (info.id ∷ []) refl
              (omega arith) (omega arith)
              (record {
                by_id = Handled-IsById info by_id done;
                done = (Handled-included info done refl, tt);
              }) in
          (
            n,
            λ m h. record {
              same = rw e (ap (λ o. o >>= λ r. ok r.graph) (all m h).0);
              by_id = rw e (
                  Meets-bind (advance_times m (start d' info)) _
                    (λ r. (r.processed ≡ []) × IsLoop r) IsById (all m h).1
                    (λ r _ (over, loop). loop.by_id));
              over = rw e (λ _.
                  Meets-mono (advance_times m (start d' info)) _ _ (all m h).1
                    (λ r (over, loop). over));
            },
          )
    ]
