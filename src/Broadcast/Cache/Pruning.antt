-- ===== src/Broadcast/Cache/Pruning.antt =====
-- Which of the node's own blocks the cache keeps.
use blockmania.Prelude.{
  ℕ, ◌-◌, ◌≤◌, ◌≡◌, none, some, find-put, find-keep, nat_key, length, leb, if◌then◌else◌, IsU64,
  sub_u64, arith, ℕ_discrete, ite, refl, ap, ◌∙◌, Bool, true, false, ◌||◌,
}
use blockmania.Broadcast.Cache.{OwnBlocks, get_block, prune, set_block}

if-same : {A : Type 0} (b : Bool) (x : A) → (if b then x else x) ≡ x
if-same true x = refl
if-same false x = refl

if-or :
    {A : Type 0} (a b : Bool) (x y : A)
    → (if a then x else if b then x else y) ≡ (if a || b then x else y)
if-or true b x y = refl
if-or false b x y = refl

module _ {Block : Type 0} where
  get_block-set_block :
      (round k : ℕ) (block : Block) (o : OwnBlocks Block)
      → get_block (set_block round block o) k
        ≡ ite (ℕ_discrete round k) (some block) (get_block o k)
  unfolding get_block set_block
  get_block-set_block round k block o = find-put round k block o.blocks

  get_block-prune :
      (size k : ℕ) (o : OwnBlocks Block)
      → get_block (prune size o) k ≡ (
          if leb (length o.blocks) size
          then get_block o k
          else if leb (sub_u64 o.latest size) k
          then get_block o k
          else none)
  unfolding get_block prune
  get_block-prune size k o =
      ground (arith, find-keep (λ round. leb (sub_u64 o.latest size) round) k o.blocks)

  set_block-latest :
      (round : ℕ) (block : Block) (o : OwnBlocks Block) → (set_block round block o).latest ≡ round
  unfolding set_block
  set_block-latest round block o = refl

  -- When the block of a round was set last, the cut to a size that the round reaches keeps that block;
  -- if it drops any block, it drops those more than `size` rounds older, and it keeps all others.
  pub prune-set_block :
      (size round k : ℕ) (block : Block) (o : OwnBlocks Block)
      → IsU64 round
      → size ≤ round
      → (get_block (prune size (set_block round block o)) round ≡ some block)
        × (get_block (prune size (set_block round block o)) k ≡ (
            if leb (length (set_block round block o).blocks) size || leb (round - size) k
            then get_block (set_block round block o) k
            else none))
  prune-set_block size round k block o fits enough =
      let o' = set_block round block o in
      let limit : sub_u64 o'.latest size ≡ round - size =
        ap (λ (l : ℕ). sub_u64 l size) (set_block-latest round block o) ∙ omega arith in
      let below : leb (round - size) round ≡ true = ground arith in
      let own : get_block o' round ≡ some block =
        get_block-set_block round round block o ∙ ground arith in
      (
        get_block-prune size round o'
            ∙ ap
                (λ (l : ℕ).
                  if leb (length o'.blocks) size
                  then get_block o' round
                  else if leb l round
                  then get_block o' round
                  else none)
                limit
            ∙ rw (below, own) (if-same (leb (length o'.blocks) size) (some block)),
        get_block-prune size k o'
            ∙ ap
                (λ (l : ℕ).
                  if leb (length o'.blocks) size
                  then get_block o' k
                  else if leb l k
                  then get_block o' k
                  else none)
                limit
            ∙ if-or (leb (length o'.blocks) size) (leb (round - size) k) (get_block o' k) none,
      )
