-- ===== src/Broadcast/Missing/Keyed.antt =====
-- The order in which an iterator visits the keys of a node's blocks.
use blockmania.Prelude.{
  ℕ, some, ◌+◌, ◌≤◌, List, [], ◌∷◌, ◌++◌, map, true, false, ltb, ◌≡◌, refl, sym, ap, ◌∙◌, IsU64,
  All, arith,
}
use blockmania.Consensus.Block.{BlockId}
use blockmania.Lexinum.{encode}
use blockmania.Lexinum.Sorting.{less, less_asym, less-cons}
use blockmania.Broadcast.Database.{Database, IsSorted}
use blockmania.Broadcast.Keys.{block_prefix, encode_block_id, block_key}
use blockmania.Broadcast.Keys.Sorted.{less-encode_block_id_from, less-block_key}
use blockmania.Broadcast.Missing.{node_prefix}
use blockmania.Broadcast.Missing.Complete.{Ascends, rounds_of}

-- A block of the node and the round is stored.
abbrev pub HasRound : {D : Type 0} → Database D → D → ℕ → ℕ → Type 0
HasRound db d node k =
    IsU64 k
    × (hash : List ℕ) × (content : List ℕ) × (db.get
          (block_key (record { hash = hash; node = node; round = k })) d
        ≡ some content)

-- The key of a block of the node, whose next round fits 64 bits.
pub record IsBlockOf (node : ℕ) (key : List ℕ) : Type 0 where
  pub id : BlockId
  pub own : id.node ≡ node
  pub room : IsU64 (id.round + 1)
  pub spelt : key ≡ block_key id

-- The key of a block compares with the start of the iteration as its round does.
pub less-start :
    (id : BlockId) (node from : ℕ)
    → id.node ≡ node
    → IsU64 id.round
    → IsU64 from
    → less (block_key id) (node_prefix node ++ encode from) ≡ ltb id.round from
unfolding block_key
less-start id node from own fits fits_from =
    less-cons block_prefix (encode_block_id id) ((encode node ++ (0 ∷ [])) ++ encode from)
    ∙ less-encode_block_id_from id node from own fits fits_from

-- A later key is of no smaller round.
rounds_rise :
    (a b : BlockId)
    → IsU64 a.node
    → a.node ≡ b.node
    → IsU64 a.round
    → IsU64 b.round
    → less (block_key b) (block_key a) ≡ false
    → a.round ≤ b.round
rounds_rise a b node same a_fits b_fits h =
    let order = sym (less-block_key b a (omega arith) b_fits node a_fits) ∙ h in ground arith

module _ (node : ℕ) (node_fits : IsU64 node) where
  -- The identifiers in the keys.
  abbrev pub ids_in : (keys : List (List ℕ)) → All (IsBlockOf node) keys → List BlockId
  ids_in [] h = []
  ids_in (key ∷ keys) (block, others) = block.id ∷ ids_in keys others

  pub map-ids_in :
      (keys : List (List ℕ)) (h : All (IsBlockOf node) keys) → keys ≡ map block_key (ids_in keys h)
  map-ids_in [] h = refl
  map-ids_in (key ∷ keys) (block, others) =
      rw (sym (map-ids_in keys others)) (ap (λ k. k ∷ keys) block.spelt)

  IsSorted-above :
      (key : List ℕ) (block : IsBlockOf node key) (keys : List (List ℕ))
      (h : All (IsBlockOf node) keys)
      → All (λ j. less key j ≡ true) keys
      → All (λ round. block.id.round ≤ round) (rounds_of (ids_in keys h))
  IsSorted-above key block [] h after = tt
  IsSorted-above key block (j ∷ keys) (b, others) (before, after) = (
    rounds_rise block.id b.id (omega (arith, block.own)) (block.own ∙ sym b.own)
        (omega (arith, block.room)) (omega (arith, b.room))
        (rw (sym block.spelt, sym b.spelt) (less_asym key j before)),
    IsSorted-above key block keys others after,
  )

  pub ids_in-Ascends :
      (since : ℕ) (keys : List (List ℕ)) (h : All (IsBlockOf node) keys)
      → IsU64 (since + 1)
      → IsSorted keys
      → All (λ round. since ≤ round) (rounds_of (ids_in keys h))
      → Ascends since (ids_in keys h)
  ids_in-Ascends since [] h next sorted above = tt
  ids_in-Ascends since (key ∷ keys) (block, others) next (after, sorted) (here, above) = (
    here,
    next,
    omega (arith, block.room),
    ids_in-Ascends block.id.round keys others block.room sorted
        (IsSorted-above key block keys others after),
  )
