-- ===== src/Broadcast/Depgraph/Batch.antt =====
-- The blocks that a new block of the node takes from the queue.
use blockmania.Prelude.{
  ℕ, ◌+◌, ◌≤◌, ◌<◌, List, [], ◌∷◌, ◌++◌, Bool-cases, inl, inr, ltb, ◌≡◌, refl, ap, subst, arith,
}
use blockmania.Broadcast.Depgraph.{BlockData, Depgraph, data_size, fitting, get_blocks}

abbrev pub total_size : List BlockData → ℕ
total_size [] = 0
total_size (block ∷ blocks) = data_size block.ref + total_size blocks

-- The first block left, if any, does not fit behind `total` bytes.
abbrev pub Overflows : ℕ → ℕ → List BlockData → Type 0
Overflows limit total [] = Unit {0}
Overflows limit total (block ∷ blocks) = limit < total + data_size block.ref

fitting-split :
    (limit total : ℕ) (blocks : List BlockData)
    → (fitting limit total blocks).0 ++ (fitting limit total blocks).1 ≡ blocks
unfolding fitting
fitting-split limit total [] = refl
fitting-split limit total (block ∷ blocks) =
    elim (Bool-cases (ltb limit (total + data_size block.ref))) [
      | inl large ↦ rw large refl
      | inr fits ↦
          rw fits (ap (λ l. block ∷ l) (fitting-split limit (total + data_size block.ref) blocks))
    ]

fitting-fits :
    (limit total : ℕ) (blocks : List BlockData)
    → total ≤ limit
    → total + total_size (fitting limit total blocks).0 ≤ limit
unfolding fitting
fitting-fits limit total [] h = omega arith
fitting-fits limit total (block ∷ blocks) h =
    let size = data_size block.ref in
    elim (Bool-cases (ltb limit (total + size))) [
      | inl large ↦ rw large (omega arith)
      | inr small ↦
          let more = fitting-fits limit (total + size) blocks (ground arith) in
          rw small (omega (arith, more))
    ]

fitting-Overflows :
    (limit total : ℕ) (blocks : List BlockData)
    → Overflows limit
        (total + total_size (fitting limit total blocks).0)
        (fitting limit total blocks).1
unfolding fitting
fitting-Overflows limit total [] = tt
fitting-Overflows limit total (block ∷ blocks) =
    let size = data_size block.ref in
    elim (Bool-cases (ltb limit (total + size))) [
      | inl large ↦ rw large (ground arith)
      | inr small ↦ rw small (
          subst (λ (t : ℕ). Overflows limit t (fitting limit (total + size) blocks).1) (omega arith)
            (fitting-Overflows limit (total + size) blocks))
    ]

-- `getBlocks` takes the blocks from the front of the queue and leaves the others in their order; the
-- sizes of those it takes sum up to no more than the limit, and the next one would not fit.
pub get_blocks_lem :
    (limit : ℕ) (d : Depgraph)
    → ((get_blocks limit d).1 ++ (get_blocks limit d).0.blocks ≡ d.blocks)
      × (total_size (get_blocks limit d).1 ≤ limit)
      × Overflows limit (total_size (get_blocks limit d).1) (get_blocks limit d).0.blocks
unfolding get_blocks
get_blocks_lem limit d = (
  fitting-split limit 0 d.blocks,
  omega (arith, fitting-fits limit 0 d.blocks (omega arith)),
  subst (λ (t : ℕ). Overflows limit t (fitting limit 0 d.blocks).1) (omega arith)
      (fitting-Overflows limit 0 d.blocks),
)
