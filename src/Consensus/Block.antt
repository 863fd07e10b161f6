-- ===== src/Consensus/Block.antt =====
-- The block identifiers and the edges of the block graph (blockmania/blockmania.go).
-- A Go string is the list of its bytes.
use blockmania.Prelude.{ℕ, ℕ_discrete, Bool, true, false, List, [], ◌∷◌, Key}

abbrev pub Hash : Type 0
Hash = List ℕ

-- `BlockID`.
pub record BlockId : Type 0 where
  pub hash : Hash
  pub node : ℕ
  pub round : ℕ

unfoldable pub BlockId-discrete : Discrete BlockId
unfolding ℕ_discrete
BlockId-discrete = hlevel ℕ_discrete

instance abbrev pub block_id_key : Key BlockId
block_id_key = record { same = BlockId-discrete }

-- `BlockID{}`, the zero value.
abbrev pub no_block : BlockId
no_block = record { hash = []; node = 0; round = 0 }

-- `hash != ""`.
abbrev pub is_set : Hash → Bool
is_set [] = false
is_set (c ∷ cs) = true

-- `BlockID.Valid`.
abbrev pub valid : BlockId → Bool
valid b = is_set b.hash

-- `Dep`: a block that another one includes, with its own references.
pub record Dep : Type 0 where
  pub block : BlockId
  pub deps : List BlockId
  pub prev : BlockId

-- `BlockGraph`: a block of this node and the blocks that it includes.
pub record BlockGraph : Type 0 where
  pub block : BlockId
  pub deps : List Dep
  pub prev : BlockId

-- `Interpreted`: what the callback is given for a round.
pub record Interpreted : Type 0 where
  pub blocks : List BlockId
  pub consumed : ℕ
  pub round : ℕ
