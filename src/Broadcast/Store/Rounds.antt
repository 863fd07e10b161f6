-- ===== src/Broadcast/Store/Rounds.antt =====
-- What the store says of the interpreted rounds and of the last acknowledged one.
use blockmania.Prelude.{
  ℕ, ◌^◌, ◌<◌, ◌==◌, List, [], ◌∷◌, ◌++◌, length, length-append, take-append, drop-append, ltb,
  some, false, ◌≡◌, refl, ◌∙◌, IsU64, arith,
}
use blockmania.Consensus.Block.{BlockId, Interpreted}
use blockmania.Lexinum.{encode}
use blockmania.Broadcast.Wire.{SignedData, Codec, IsCodec}
use blockmania.Broadcast.Database.{Database, IsDatabase}
use blockmania.Broadcast.Words.{put_u64}
use blockmania.Broadcast.Words.RoundTrip.{read_u16-put_u16, read_u64-put_u64}
use blockmania.Broadcast.Keys.{
  encode_block_id, block_key, interpreted_key, block_prefix, interpreted_prefix,
  last_interpreted_prefix, round_acknowledged_prefix,
}
use blockmania.Broadcast.Replies.{returned}
use blockmania.Broadcast.Store.{
  BlockStore, encode_keys, read_blocks, get_interpreted, set_interpreted, get_last_interpreted,
  get_deliver_acknowledged, set_deliver_acknowledged,
}
use blockmania.Broadcast.Store.Heads.{get-put_key_head}
use blockmania.Broadcast.Store.OwnBlock.{fetch_signed-marshal, read_u64-alone}

module _ {D : Type 0} {db : Database D} {codec : Codec SignedData} (law : IsDatabase db)
    (code : IsCodec codec) where
  -- Each identifier's block is in the database, under a key whose length fits 16 bits.
  pub data Stored (d : D) : List BlockId → List SignedData → Type 0 where
    all_stored : Stored d [] []
    stored :
        {id : BlockId} {ids : List BlockId} {block : SignedData} {blocks : List SignedData}
        → db.get (block_key id) d ≡ some (codec.marshal block)
        → length (block_key id) < 2 ^ 16
        → Stored d ids blocks
        → Stored d (id ∷ ids) (block ∷ blocks)

  pub read_blocks-encode_keys :
      (d : D) (ids : List BlockId) (blocks : List SignedData)
      → Stored d ids blocks
      → read_blocks db codec (length ids) (encode_keys ids) d ≡ returned blocks
  unfolding read_blocks encode_keys
  read_blocks-encode_keys d [] [] all_stored = refl
  read_blocks-encode_keys d [] (block ∷ blocks) h = elim h [ ]
  read_blocks-encode_keys d (id ∷ ids) [] h = elim h [ ]
  read_blocks-encode_keys d (id ∷ ids) (block ∷ blocks) (stored there short others) =
      let key = block_key id in
      let rest = encode_keys ids in
      let enough : ltb (length (key ++ rest)) (length key) ≡ false =
        ground (arith, length-append key rest) in
      rw
        (
          read_u16-put_u16 (length key) (key ++ rest) short,
          enough,
          take-append key rest (length key) refl,
          fetch_signed-marshal law code key d block there,
          drop-append key rest (length key) refl,
          read_blocks-encode_keys d ids blocks others,
        )
        refl

  -- The other writes of `setInterpreted` leave the blocks.
  pub Stored-put_key :
      (p : ℕ) (xs v : List ℕ) (d : D) (ids : List BlockId) (blocks : List SignedData)
      → (p == block_prefix) ≡ false
      → Stored d ids blocks
      → Stored (db.put_key (p ∷ xs) v d) ids blocks
  unfolding block_key
  Stored-put_key p xs v d [] [] h all_stored = all_stored
  Stored-put_key p xs v d [] (block ∷ blocks) h there = elim there [ ]
  Stored-put_key p xs v d (id ∷ ids) [] h there = elim there [ ]
  Stored-put_key p xs v d (id ∷ ids) (block ∷ blocks) h (stored there short others) =
      stored (get-put_key_head law block_prefix p (encode_block_id id) xs v d h ∙ there) short
        (Stored-put_key p xs v d ids blocks h others)

  -- What is read of a round that was interpreted.
  pub record RoundStored (s : BlockStore D) (i : Interpreted) (blocks : List SignedData)
      : Type 0 where
    pub by_round : get_interpreted db codec s i.round ≡ returned blocks
    pub last : get_last_interpreted db s ≡ returned (i.round, i.consumed)

  -- `setInterpreted` on an open store that has the blocks of the round succeeds, and afterwards
  -- `getInterpreted` gives these blocks in the order of the delivery, and the round is the last one.
  set_interpreted-RoundStored :
      (s : BlockStore D) (i : Interpreted) (blocks : List SignedData)
      → s.closed ≡ false
      → IsU64 i.round
      → IsU64 i.consumed
      → IsU64 (length i.blocks)
      → Stored s.content i.blocks blocks
      → (s' : BlockStore D) × (set_interpreted db s i ≡ returned s') × RoundStored s' i blocks
  unfolding set_interpreted get_interpreted get_last_interpreted interpreted_key
  set_interpreted-RoundStored s i blocks is_open round_fits consumed_fits few there =
      let d = s.content in
      let round = encode i.round in
      let keys = put_u64 (length i.blocks) ++ encode_keys i.blocks in
      let last = put_u64 i.round ++ put_u64 i.consumed in
      let d1 = db.put_key (interpreted_prefix ∷ round) keys d in
      let d2 = db.put_key (last_interpreted_prefix ∷ []) last d1 in
      let kept : Stored d2 i.blocks blocks =
        Stored-put_key last_interpreted_prefix [] last d1 i.blocks blocks refl
          (Stored-put_key interpreted_prefix round keys d i.blocks blocks refl there) in
      (
        record s { content = d2 },
        rw is_open refl,
        record {
          by_round =
              rw
                (
                  is_open,
                  get-put_key_head law interpreted_prefix last_interpreted_prefix round [] last d1
                      refl,
                  law.get-put_key_self (interpreted_prefix ∷ round) keys d,
                  read_u64-put_u64 (length i.blocks) (encode_keys i.blocks) few,
                )
                (read_blocks-encode_keys d2 i.blocks blocks kept);
          last =
              rw
                (
                  is_open,
                  law.get-put_key_self (last_interpreted_prefix ∷ []) last d1,
                  read_u64-put_u64 i.round (put_u64 i.consumed) round_fits,
                  read_u64-alone i.consumed consumed_fits,
                )
                refl;
        },
      )

  -- `setDeliverAcknowledged` on an open store succeeds, whatever was acknowledged before, and the round
  -- is the acknowledged one afterwards.
  set_deliver_acknowledged_lem :
      (s : BlockStore D) (round : ℕ)
      → s.closed ≡ false
      → IsU64 round
      → (s' : BlockStore D) × (set_deliver_acknowledged db s round ≡ returned s')
        × (get_deliver_acknowledged db s' ≡ returned round)
  unfolding set_deliver_acknowledged get_deliver_acknowledged
  set_deliver_acknowledged_lem s round is_open fits = (
    record s { content = db.put_key (round_acknowledged_prefix ∷ []) (put_u64 round) s.content },
    rw is_open refl,
    rw
        (
          is_open,
          law.get-put_key_self (round_acknowledged_prefix ∷ []) (put_u64 round) s.content,
          read_u64-alone round fits,
        )
        refl,
  )
