-- ===== src/Broadcast/Replay.antt =====
-- What a node reads of the blocks in its store when it starts: `getBlockData` and `getNotIncluded` of
-- broadcast/store.go.
pub mod Rebuilt
use blockmania.Prelude.{ℕ, drop, List, [], ◌∷◌, Option, none, some, ◌==◌, if◌then◌else◌, maybe}
use blockmania.Consensus.Block.{BlockId, no_block}
use blockmania.Broadcast.Wire.{SignedData, Block, BlockReference, Codec}
use blockmania.Broadcast.Database.{Database}
use blockmania.Broadcast.Keys.{block_prefix, not_included_prefix}
use blockmania.Broadcast.Depgraph.{BlockData}
use blockmania.Broadcast.Replies.{Reply, returned, crashed, ◌>>=◌, of_decoded}
use blockmania.Broadcast.Store.{BlockStore, with_open, fetch_signed, get_block}
use blockmania.Broadcast.Checks.{Crypto, id_of_ref, ref_of, reference_to}

module _ {K : Type 0} (crypto : Crypto K) where
  -- A signed reference, decoded; an error ends the process.
  unfoldable pub decode_ref : SignedData → Reply BlockId
  decode_ref sref =
      maybe (crypto.refs.unmarshal sref.content) crashed (λ ref. returned (id_of_ref ref))

  -- `if block.Round != 1`; a nil pointer is a panic.
  unfoldable pub previous_of : Block → Reply BlockId
  previous_of block =
      if block.round == 1 then returned no_block else maybe block.previous crashed decode_ref

  -- The loop over the references.
  unfoldable pub deps_of : List SignedData → Reply (List BlockId)
  deps_of [] = returned []
  deps_of (sref ∷ srefs) =
      decode_ref sref >>= λ dep. deps_of srefs >>= λ deps. returned (dep ∷ deps)

  -- The function `getBlockData`.
  unfoldable pub block_data : SignedData → Reply BlockData
  block_data signed = maybe (crypto.blocks.unmarshal signed.content) crashed λ block.
      previous_of block >>= λ prev. deps_of block.references >>= λ deps. returned (record {
        deps = deps;
        id = id_of_ref (ref_of (crypto.sha signed.content) block);
        prev = prev;
        ref = record {
          content = crypto.refs.marshal (ref_of (crypto.sha signed.content) block);
          signature = signed.signature;
        };
      })

  module _ {D : Type 0} (db : Database D) (codec : Codec SignedData) where
    -- The method `getBlockData`.
    unfoldable pub get_block_data : BlockStore D → BlockId → Reply BlockData
    get_block_data s id = with_open s λ d. get_block db codec s id >>= block_data

    -- The loop over the keys, and what follows it; a key without its prefix names the block.
    unfoldable pub fetch_listed : List (List ℕ) → D → Reply (List SignedData)
    fetch_listed [] d = returned []
    fetch_listed (key ∷ keys) d = fetch_signed db codec (block_prefix ∷ drop 1 key) d >>= λ block.
        fetch_listed keys d >>= λ blocks. returned (block ∷ blocks)

    unfoldable pub data_of : List SignedData → Reply (List BlockData)
    data_of [] = returned []
    data_of (block ∷ blocks) =
        block_data block >>= λ info. data_of blocks >>= λ infos. returned (info ∷ infos)

    -- `getNotIncluded`.
    unfoldable pub get_not_included : BlockStore D → Reply (List BlockData)
    get_not_included s =
        (with_open s λ d.
          fetch_listed (db.keys_from (not_included_prefix ∷ []) (not_included_prefix ∷ []) d) d)
        >>= data_of
