-- ===== src/Broadcast/Store/Received.antt =====
-- What the store says of a block of another node, once it is written.
use blockmania.Prelude.{[], ◌∷◌, none, some, false, ok, ◌≡◌, refl, ◌∙◌}
use blockmania.Consensus.Block.{BlockId}
use blockmania.Broadcast.Wire.{SignedData, Codec, IsCodec}
use blockmania.Broadcast.Database.{Database, IsDatabase}
use blockmania.Broadcast.Keys.{
  encode_block_id, block_key, included_key, not_included_key, block_prefix, included_prefix,
  not_included_prefix,
}
use blockmania.Broadcast.Replies.{returned}
use blockmania.Broadcast.Depgraph.{is_stored}
use blockmania.Broadcast.Store.{BlockStore, get_block, set_block, for_depgraph}
use blockmania.Broadcast.Store.Heads.{get-put_key_head}
use blockmania.Broadcast.Store.OwnBlock.{fetch_signed-marshal}

module _ {D : Type 0} {db : Database D} {codec : Codec SignedData} (law : IsDatabase db)
    (code : IsCodec codec) where
  -- A block that was received and stands in no block of the node yet.
  pub record IsWaiting (s : BlockStore D) (id : BlockId) (block : SignedData) : Type 0 where
    pub by_id : get_block db codec s id ≡ returned block
    pub not_included : is_stored (for_depgraph db s) id ≡ ok false
    pub listed : db.get (not_included_key id) s.content ≡ some []
    pub again : (other : SignedData) → set_block db codec s id other ≡ returned s

  -- `setBlock` of a block that an open store does not know succeeds, and afterwards the block is found,
  -- it is not included, it is listed as such, and no other block can be set in its place.
  set_block-IsWaiting :
      (s : BlockStore D) (id : BlockId) (block : SignedData)
      → s.closed ≡ false
      → db.get (included_key id) s.content ≡ none
      → (s' : BlockStore D) × (set_block db codec s id block ≡ returned s') × IsWaiting s' id block
  unfolding set_block get_block is_stored for_depgraph included_key not_included_key block_key
  set_block-IsWaiting s id block is_open unknown =
      let bytes = encode_block_id id in
      let d = s.content in
      let d1 = db.put_key (included_prefix ∷ bytes) (0 ∷ []) d in
      let d2 = db.put_key (not_included_prefix ∷ bytes) [] d1 in
      let d3 = db.put_key (block_prefix ∷ bytes) (codec.marshal block) d2 in
      let marked : db.get (included_prefix ∷ bytes) d3 ≡ some (0 ∷ []) =
        get-put_key_head law included_prefix block_prefix bytes bytes (codec.marshal block) d2 refl
        ∙ get-put_key_head law included_prefix not_included_prefix bytes bytes [] d1 refl
        ∙ law.get-put_key_self (included_prefix ∷ bytes) (0 ∷ []) d in
      (
        record s { content = d3 },
        rw (is_open, unknown) refl,
        record {
          by_id = rw is_open (
              fetch_signed-marshal law code (block_prefix ∷ bytes) d3 block
                (law.get-put_key_self (block_prefix ∷ bytes) (codec.marshal block) d2));
          not_included = rw (is_open, marked) refl;
          listed =
              get-put_key_head law not_included_prefix block_prefix bytes bytes
                (codec.marshal block) d2 refl
              ∙ law.get-put_key_self (not_included_prefix ∷ bytes) [] d1;
          again = λ other. rw (is_open, marked) refl;
        },
      )
