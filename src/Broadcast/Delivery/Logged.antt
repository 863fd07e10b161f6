-- ===== src/Broadcast/Delivery/Logged.antt =====
-- The rounds that the store has, and what keeps them.
use blockmania.Prelude.{
  ℕ, List, [], ◌∷◌, ◌++◌, length, some, false, ◌≡◌, ◌≢◌, refl, ap, sym, ◌∙◌, IsU64,
}
use blockmania.Consensus.Block.{BlockId, Interpreted}
use blockmania.Lexinum.{encode, decode, value}
use blockmania.Lexinum.RoundTrip.{decode-encode}
use blockmania.Broadcast.Wire.{SignedData, Codec, IsCodec}
use blockmania.Broadcast.Database.{Database, IsDatabase}
use blockmania.Broadcast.Words.{put_u64}
use blockmania.Broadcast.Words.RoundTrip.{read_u64-put_u64}
use blockmania.Broadcast.Keys.{
  block_key, interpreted_key, interpreted_prefix, last_interpreted_prefix,
  round_acknowledged_prefix,
}
use blockmania.Broadcast.Replies.{returned}
use blockmania.Broadcast.Store.{
  BlockStore, encode_keys, fetch_blocks, get_blocks, get_interpreted, set_interpreted,
  get_last_interpreted, get_deliver_acknowledged,
}
use blockmania.Broadcast.Store.Heads.{get-put_key_head}
use blockmania.Broadcast.Store.OwnBlock.{fetch_signed-marshal, read_u64-alone}
use blockmania.Broadcast.Store.Rounds.{
  Stored, all_stored, stored, Stored-put_key, read_blocks-encode_keys,
}

-- A round as the interpreter hands it over, and its blocks.
abbrev pub Round : Type 0
Round = Interpreted × List SignedData

interpreted_key-ne : (i j : ℕ) → IsU64 i → IsU64 j → i ≢ j → interpreted_key i ≢ interpreted_key j
unfolding interpreted_key
interpreted_key-ne i j fi fj other e = other (
    value-injective i j
      (sym (decode-encode i fi) ∙ ap (λ k. decode (tail k)) e ∙ decode-encode j fj))
  where
    tail : List ℕ → List ℕ
    tail [] = []
    tail (x ∷ xs) = xs

    value-injective : (a b : ℕ) → value a ≡ value b → a ≡ b
    value-injective a b h = cc

module _ {D : Type 0} {db : Database D} {codec : Codec SignedData} (law : IsDatabase db)
    (code : IsCodec codec) where
  pub record HasRound (d : D) (r : Round) : Type 0 where
    pub listed :
        db.get (interpreted_key r.0.round) d
        ≡ some (put_u64 (length r.0.blocks) ++ encode_keys r.0.blocks)
    pub there : Stored law code d r.0.blocks r.1
    pub few : IsU64 (length r.0.blocks)

  pub get_interpreted-HasRound :
      (s : BlockStore D) (r : Round)
      → s.closed ≡ false
      → HasRound s.content r
      → get_interpreted db codec s r.0.round ≡ returned r.1
  unfolding get_interpreted
  get_interpreted-HasRound s r is_open has =
      rw
        (is_open, has.listed, read_u64-put_u64 (length r.0.blocks) (encode_keys r.0.blocks) has.few)
        (read_blocks-encode_keys law code s.content r.0.blocks r.1 has.there)

  fetch_blocks-Stored :
      (d : D) (ids : List BlockId) (blocks : List SignedData)
      → Stored law code d ids blocks
      → fetch_blocks db codec ids d ≡ returned blocks
  unfolding fetch_blocks
  fetch_blocks-Stored d [] [] all_stored = refl
  fetch_blocks-Stored d [] (block ∷ blocks) h = elim h [ ]
  fetch_blocks-Stored d (id ∷ ids) [] h = elim h [ ]
  fetch_blocks-Stored d (id ∷ ids) (block ∷ blocks) (stored there short others) =
      rw
        (
          fetch_signed-marshal law code (block_key id) d block there,
          fetch_blocks-Stored d ids blocks others,
        )
        refl

  pub get_blocks-Stored :
      (s : BlockStore D) (ids : List BlockId) (blocks : List SignedData)
      → s.closed ≡ false
      → Stored law code s.content ids blocks
      → get_blocks db codec s ids ≡ returned blocks
  unfolding get_blocks
  get_blocks-Stored s ids blocks is_open there =
      rw is_open (fetch_blocks-Stored s.content ids blocks there)

  -- What `setInterpreted` of a round leaves.
  pub record Records (s s' : BlockStore D) (r : Round) : Type 0 where
    pub returns : set_interpreted db s r.0 ≡ returned s'
    pub still_open : s'.closed ≡ false
    pub has : HasRound s'.content r
    pub others :
        (q : Round)
        → IsU64 q.0.round
        → q.0.round ≢ r.0.round
        → HasRound s.content q
        → HasRound s'.content q
    pub blocks :
        (ids : List BlockId) (bs : List SignedData)
        → Stored law code s.content ids bs
        → Stored law code s'.content ids bs
    pub ack : get_deliver_acknowledged db s' ≡ get_deliver_acknowledged db s
    pub last : get_last_interpreted db s' ≡ returned (r.0.round, r.0.consumed)

  pub set_interpreted-Records :
      (s : BlockStore D) (r : Round)
      → s.closed ≡ false
      → IsU64 r.0.round
      → IsU64 r.0.consumed
      → IsU64 (length r.0.blocks)
      → Stored law code s.content r.0.blocks r.1
      → (s' : BlockStore D) × Records s s' r
  unfolding set_interpreted get_last_interpreted get_deliver_acknowledged interpreted_key
  set_interpreted-Records s (i, bs) is_open round_fits consumed_fits few there =
      let d = s.content in
      let round = encode i.round in
      let keys = put_u64 (length i.blocks) ++ encode_keys i.blocks in
      let last = put_u64 i.round ++ put_u64 i.consumed in
      let d1 = db.put_key (interpreted_key i.round) keys d in
      let d2 = db.put_key (last_interpreted_prefix ∷ []) last d1 in
      let kept = λ (ids : List BlockId) (l : List SignedData) (h : Stored law code d ids l).
        Stored-put_key law code last_interpreted_prefix [] last d1 ids l refl
          (Stored-put_key law code interpreted_prefix round keys d ids l refl h) in
      let by_round =
        get-put_key_head law interpreted_prefix last_interpreted_prefix round [] last d1 refl
        ∙ law.get-put_key_self (interpreted_key i.round) keys d in
      (
        record s { content = d2 },
        record {
          returns = rw is_open refl;
          still_open = is_open;
          has = record { listed = by_round; there = kept i.blocks bs there; few = few };
          others = λ q fits other h. record {
            listed =
                get-put_key_head law interpreted_prefix last_interpreted_prefix (encode q.0.round)
                  [] last d1 refl
                ∙ law.get-put_key_ne (interpreted_key i.round) (interpreted_key q.0.round) keys d
                    (interpreted_key-ne i.round q.0.round round_fits fits (λ e. other (sym e)))
                ∙ h.listed;
            there = kept q.0.blocks q.1 h.there;
            few = h.few;
          };
          blocks = kept;
          ack =
              let same : db.get (round_acknowledged_prefix ∷ []) d2
                  ≡ db.get (round_acknowledged_prefix ∷ []) d =
                get-put_key_head law round_acknowledged_prefix last_interpreted_prefix [] [] last d1
                  refl
                ∙ get-put_key_head law round_acknowledged_prefix interpreted_prefix [] round keys d
                    refl in
              rw same refl;
          last =
              rw
                (
                  is_open,
                  law.get-put_key_self (last_interpreted_prefix ∷ []) last d1,
                  read_u64-put_u64 i.round (put_u64 i.consumed) round_fits,
                  read_u64-alone i.consumed consumed_fits,
                )
                refl;
        },
      )
