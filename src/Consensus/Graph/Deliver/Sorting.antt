-- ===== src/Consensus/Graph/Deliver/Sorting.antt =====
-- The blocks of a round: which they are, and how `sort.Slice` orders them.
use blockmania.Prelude.{
  ℕ, suc, ◌≤◌, List, [], ◌∷◌, ◌≡◌, refl, ◌∙◌, ap, arith, Map, length, true, false, Bool-cases, inl,
  inr, All,
}
use blockmania.Consensus.Block.{Hash, BlockId, is_set}
use blockmania.Consensus.Graph.Deliver.{hash_lt, round_blocks, insert_block, sort_blocks}

-- No block has a lower hash than the one before it.
abbrev pub IsSorted : List BlockId → Type 0
IsSorted [] = Unit
IsSorted (b ∷ bs) = All (λ c. hash_lt c.hash b.hash ≡ false) bs × IsSorted bs

-- A block of the round that has a hash.
abbrev pub InRound : ℕ → BlockId → Type 0
InRound round b = (b.round ≡ round) × (is_set b.hash ≡ true)

pub length-round_blocks : (round : ℕ) (hs : Map ℕ Hash) → length (round_blocks round hs) ≤ length hs
unfolding round_blocks
length-round_blocks round [] = omega arith
length-round_blocks round ((node, hash) ∷ hs) = ground (arith, length-round_blocks round hs)

pub round_blocks-InRound :
    (round : ℕ) (hs : Map ℕ Hash) → All (InRound round) (round_blocks round hs)
unfolding round_blocks
round_blocks-InRound round [] = tt
round_blocks-InRound round ((node, hash) ∷ hs) = ground (arith, round_blocks-InRound round hs)

length-insert_block :
    (b : BlockId) (bs : List BlockId) → length (insert_block b bs) ≡ suc (length bs)
unfolding insert_block
length-insert_block b [] = refl
length-insert_block b (c ∷ cs) = ground (arith, length-insert_block b cs)

pub length-sort_blocks : (bs : List BlockId) → length (sort_blocks bs) ≡ length bs
unfolding sort_blocks
length-sort_blocks [] = refl
length-sort_blocks (b ∷ bs) =
    length-insert_block b (sort_blocks bs) ∙ ap suc (length-sort_blocks bs)

pub insert_block-All :
    (P : BlockId → Type 0) (b : BlockId) (bs : List BlockId)
    → P b
    → All P bs
    → All P (insert_block b bs)
unfolding insert_block
insert_block-All P b [] p ps = (p, tt)
insert_block-All P b (c ∷ cs) p ps = elim (Bool-cases (hash_lt c.hash b.hash)) [
  | inl lower ↦ rw lower (ps.0, insert_block-All P b cs p ps.1)
  | inr not_lower ↦ rw not_lower (p, ps)
]

pub sort_blocks-All : (P : BlockId → Type 0) (bs : List BlockId) → All P bs → All P (sort_blocks bs)
unfolding sort_blocks
sort_blocks-All P [] ps = tt
sort_blocks-All P (b ∷ bs) ps =
    insert_block-All P b (sort_blocks bs) ps.0 (sort_blocks-All P bs ps.1)

hash_lt_asym : (xs ys : Hash) → hash_lt xs ys ≡ true → hash_lt ys xs ≡ false
unfolding hash_lt
hash_lt_asym xs [] h = cc
hash_lt_asym [] (y ∷ ys) h = refl
hash_lt_asym (x ∷ xs) (y ∷ ys) h = ground (arith, hash_lt_asym xs ys)

hash_lt_trans :
    (xs ys zs : Hash) → hash_lt xs ys ≡ false → hash_lt ys zs ≡ false → hash_lt xs zs ≡ false
unfolding hash_lt
hash_lt_trans xs ys [] h k = refl
hash_lt_trans xs [] (z ∷ zs) h k = cc
hash_lt_trans [] (y ∷ ys) (z ∷ zs) h k = cc
hash_lt_trans (x ∷ xs) (y ∷ ys) (z ∷ zs) h k = ground (arith, hash_lt_trans xs ys zs)

NotBelow-trans :
    (b c : BlockId) (cs : List BlockId)
    → hash_lt c.hash b.hash ≡ false
    → All (λ d. hash_lt d.hash c.hash ≡ false) cs
    → All (λ d. hash_lt d.hash b.hash ≡ false) cs
NotBelow-trans b c [] h hs = tt
NotBelow-trans b c (d ∷ ds) h hs =
    (hash_lt_trans d.hash c.hash b.hash hs.0 h, NotBelow-trans b c ds h hs.1)

insert_block-IsSorted :
    (b : BlockId) (bs : List BlockId) → IsSorted bs → IsSorted (insert_block b bs)
unfolding insert_block
insert_block-IsSorted b [] s = (tt, tt)
insert_block-IsSorted b (c ∷ cs) s = elim (Bool-cases (hash_lt c.hash b.hash)) [
  | inl lower ↦ rw lower (
    insert_block-All (λ d. hash_lt d.hash c.hash ≡ false) b cs (hash_lt_asym c.hash b.hash lower)
        s.0,
    insert_block-IsSorted b cs s.1,
  )
  | inr not_lower ↦ rw not_lower ((not_lower, NotBelow-trans b c cs not_lower s.0), s)
]

pub sort_blocks-IsSorted : (bs : List BlockId) → IsSorted (sort_blocks bs)
unfolding sort_blocks
sort_blocks-IsSorted [] = tt
sort_blocks-IsSorted (b ∷ bs) = insert_block-IsSorted b (sort_blocks bs) (sort_blocks-IsSorted bs)
