-- ===== src/Broadcast/Checks.antt =====
-- The checks of a received block: `processBlock` of broadcast/broadcast.go up to its effects. Hashing,
-- signatures and the encoding of messages are parameters.
pub mod Verified
use blockmania.Prelude.{
  ℕ, List, [], ◌∷◌, Option, none, some, Bool, not, ◌==◌, if◌then◌else◌, maybe, Map, find, nat_key,
  add_u64,
}
use blockmania.Consensus.Block.{BlockId, no_block}
use blockmania.Broadcast.Wire.{SignedData, Block, BlockReference, Codec}
use blockmania.Broadcast.Depgraph.{BlockData}

-- Why a block is rejected: the errors that `processBlock` returns, in the order of the code.
pub data Reason : Type 0 where
  bad_block unknown_node bad_signature : Reason
  nil_previous bad_previous_signature bad_previous other_previous_node bad_previous_round : Reason
  bad_reference unknown_reference_node bad_reference_signature own_reference : Reason

pub data Verdict (A : Type 0) : Type 0 where
  accepted : A → Verdict A
  rejected : Reason → Verdict A

infixl 5 ◌>>=◌
abbrev pub ◌>>=◌ : {A B : Type 0} → Verdict A → (A → Verdict B) → Verdict B
rejected reason >>= next = rejected reason
accepted a >>= next = next a

-- SHA-512/256, `PublicKey.Verify`, and the messages that the checks decode, for a type `K` of keys.
pub record Crypto (K : Type 0) : Type 0 where
  pub sha : List ℕ → List ℕ
  pub verify : K → List ℕ → List ℕ → Bool
  pub blocks : Codec Block
  pub refs : Codec BlockReference

abbrev pub id_of_ref : BlockReference → BlockId
id_of_ref ref = record { hash = ref.hash; node = ref.node; round = ref.round }

-- `&BlockReference{Hash: hash, Node: block.Node, Round: block.Round}`.
abbrev pub ref_of : List ℕ → Block → BlockReference
ref_of hash block = record { hash = hash; node = block.node; round = block.round }

module _ {K : Type 0} (crypto : Crypto K) (keys : Map ℕ K) where
  abbrev pub signed_by : K → SignedData → Bool
  signed_by key signed = crypto.verify key signed.content signed.signature

  -- The decoded reference to the previous block, once its signature holds.
  unfoldable pub check_previous_ref : Block → BlockReference → Verdict BlockId
  check_previous_ref block prev =
      if not (prev.node == block.node)
      then rejected other_previous_node
      else if not (add_u64 prev.round 1 == block.round)
      then rejected bad_previous_round
      else accepted (id_of_ref prev)

  -- `if block.Round != 1`.
  unfoldable pub check_previous : K → Block → Verdict BlockId
  check_previous key block =
      if block.round == 1
      then accepted no_block
      else maybe block.previous (rejected nil_previous) λ prev.
        if not (signed_by key prev)
        then rejected bad_previous_signature
        else maybe (crypto.refs.unmarshal prev.content) (rejected bad_previous)
            (check_previous_ref block)

  -- The body of the loop over the references.
  unfoldable pub check_reference : Block → SignedData → Verdict BlockId
  check_reference block sref =
      maybe (crypto.refs.unmarshal sref.content) (rejected bad_reference) λ ref.
        maybe (find ref.node keys) (rejected unknown_reference_node) λ key.
          if not (signed_by key sref)
          then rejected bad_reference_signature
          else if ref.node == block.node
          then rejected own_reference
          else accepted (id_of_ref ref)

  unfoldable pub check_references : Block → List SignedData → Verdict (List BlockId)
  check_references block [] = accepted []
  check_references block (sref ∷ srefs) = check_reference block sref >>= λ dep.
      check_references block srefs >>= λ deps. accepted (dep ∷ deps)

  -- The encoded reference to a block, which is what its node signs.
  abbrev pub reference_to : SignedData → Block → List ℕ
  reference_to signed block = crypto.refs.marshal (ref_of (crypto.sha signed.content) block)

  -- A block whose own signature holds.
  unfoldable pub check_links : SignedData → Block → K → Verdict BlockData
  check_links signed block key = check_previous key block >>= λ prev.
      check_references block block.references >>= λ deps. accepted (record {
        deps = deps;
        id = id_of_ref (ref_of (crypto.sha signed.content) block);
        prev = prev;
        ref = record { content = reference_to signed block; signature = signed.signature };
      })

  unfoldable pub check_signed : SignedData → Block → K → Verdict BlockData
  check_signed signed block key =
      if not (crypto.verify key (reference_to signed block) signed.signature)
      then rejected bad_signature
      else check_links signed block key

  -- `processBlock`, up to `setBlock`.
  unfoldable pub check_block : SignedData → Verdict BlockData
  check_block signed =
      maybe (crypto.blocks.unmarshal signed.content) (rejected bad_block)
        λ block. maybe (find block.node keys) (rejected unknown_node) (check_signed signed block)
