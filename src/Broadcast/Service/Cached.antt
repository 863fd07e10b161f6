-- ===== src/Broadcast/Service/Cached.antt =====
-- What the cache of the node's own blocks does to what a peer is told.
use blockmania.Prelude.{
  ℕ, List, [], ◌∷◌, map, Option, none, some, nat_key, find-put_self, find-put_ne, ℕ_discrete,
  length, ltb, if◌then◌else◌, maybe, Option-cases, Bool-cases, inl, inr, ◌≡◌, refl, sym, ap, ◌∙◌,
}
use blockmania.Broadcast.Wire.{SignedData, Codec}
use blockmania.Broadcast.Database.{Database}
use blockmania.Broadcast.Cache
use blockmania.Broadcast.Replies.{Reply, returned, failed, crashed}
use blockmania.Broadcast.Store
use blockmania.Broadcast.Service.{
  Service, list_blocks, too_many, cache_reply, own_block, own_blocks_of, handle_get_rounds,
}

abbrev pub read_reply : Reply SignedData → Option SignedData
read_reply (returned block) = some block
read_reply (failed e) = none
read_reply crashed = none

-- The blocks that there are, in order.
abbrev pub present : (ℕ → Option SignedData) → List ℕ → List SignedData
present own [] = []
present own (round ∷ rounds) = maybe (own round) (present own rounds) (λ b. b ∷ present own rounds)

present-ext :
    (f g : ℕ → Option SignedData) (rounds : List ℕ)
    → ((j : ℕ) → f j ≡ g j)
    → present f rounds ≡ present g rounds
present-ext f g [] h = refl
present-ext f g (round ∷ rounds) h = rw (h round, present-ext f g rounds h) refl

module _ {D : Type 0} (db : Database D) (codec : Codec SignedData) where
  -- What `getOwnBlock` gives for a round: the cached block, or else the stored one.
  unfoldable pub read_own : Service D → ℕ → Option SignedData
  read_own s round =
      maybe (Cache.get_block s.own_blocks round)
        (read_reply (Store.get_own_block db codec s.store round)) some

  abbrev pub with_cache : Cache.OwnBlocks SignedData → Service D → Service D
  with_cache cache s = record s { own_blocks = cache }

  -- The second service differs from the first in its cache only, and has the same own blocks.
  pub record SameBlocks (s s' : Service D) : Type 0 where
    pub cached : Cache.OwnBlocks SignedData
    pub rest : s' ≡ with_cache cached s
    pub same : (j : ℕ) → read_own s' j ≡ read_own s j

  pub SameBlocks-refl : (s : Service D) → SameBlocks s s
  SameBlocks-refl s = record { cached = s.own_blocks; rest = refl; same = λ j. refl }

  pub SameBlocks-trans :
      (s s' s'' : Service D) → SameBlocks s s' → SameBlocks s' s'' → SameBlocks s s''
  SameBlocks-trans s s' s'' h k = record {
    cached = k.cached;
    rest = k.rest ∙ ap (with_cache k.cached) h.rest;
    same = λ j. k.same j ∙ h.same j;
  }

  -- A block of the store that enters the cache hides nothing else.
  read_own-set_block :
      (s : Service D) (round j : ℕ) (block : SignedData)
      → read_own s round ≡ some block
      → read_own (with_cache (Cache.set_block round block s.own_blocks) s) j ≡ read_own s j
  unfolding read_own Cache.get_block Cache.set_block
  read_own-set_block s round j block h = elim (ℕ_discrete round j) [
    | yes e ↦ rw (sym e, find-put_self round block s.own_blocks.blocks) (sym h)
    | no differs ↦ rw (find-put_ne round j block s.own_blocks.blocks differs) refl
  ]

  cache_reply-SameBlocks :
      (s : Service D) (round : ℕ) (r : Reply SignedData)
      → read_own s round ≡ read_reply r
      → ((cache_reply db codec s round r).1 ≡ read_reply r)
        × SameBlocks s (cache_reply db codec s round r).0
  unfolding cache_reply
  cache_reply-SameBlocks s round (returned block) there = (
    refl,
    record {
      cached = Cache.set_block round block s.own_blocks;
      rest = refl;
      same = λ j. read_own-set_block s round j block there;
    },
  )
  cache_reply-SameBlocks s round (failed e) there = (refl, SameBlocks-refl s)
  cache_reply-SameBlocks s round crashed there = (refl, SameBlocks-refl s)

  -- `getOwnBlock` returns the node's own block of the round, and changes nothing but the cache.
  pub own_block_lem :
      (s : Service D) (round : ℕ)
      → ((own_block db codec s round).1 ≡ read_own s round)
        × SameBlocks s (own_block db codec s round).0
  unfolding own_block read_own
  own_block_lem s round = elim (Option-cases (Cache.get_block s.own_blocks round)) [
    | inl miss ↦
        rw miss (
          cache_reply-SameBlocks s round (Store.get_own_block db codec s.store round)
            (rw miss refl))
    | inr (block, hit) ↦ rw hit (refl, SameBlocks-refl s)
  ]

  own_blocks_of_lem :
      (s : Service D) (rounds : List ℕ)
      → ((own_blocks_of db codec s rounds).1 ≡ present (read_own s) rounds)
        × SameBlocks s (own_blocks_of db codec s rounds).0
  unfolding own_blocks_of
  own_blocks_of_lem s [] = (refl, SameBlocks-refl s)
  own_blocks_of_lem s (round ∷ rounds) =
      let (s', block) = own_block db codec s round in
      let (read, same) = own_block_lem s round in
      let (others, still) = own_blocks_of_lem s' rounds in
      (
        rw (read, others, present-ext (read_own s') (read_own s) rounds same.same) refl,
        SameBlocks-trans s s' (own_blocks_of db codec s' rounds).0 same still,
      )

  -- The node's own block of a round in the store.
  abbrev pub stored_own : Service D → ℕ → Option SignedData
  stored_own s round = read_reply (Store.get_own_block db codec s.store round)

  -- Each cached block is the one in the store.
  abbrev pub CacheAgrees : Service D → Type 0
  CacheAgrees s =
      (round : ℕ) (block : SignedData)
      → Cache.get_block s.own_blocks round ≡ some block
      → stored_own s round ≡ some block

  read_own-stored_own : (s : Service D) → CacheAgrees s → (j : ℕ) → read_own s j ≡ stored_own s j
  unfolding read_own
  read_own-stored_own s agrees j = elim (Option-cases (Cache.get_block s.own_blocks j)) [
    | inl miss ↦ rw miss refl
    | inr (block, hit) ↦ rw hit (sym (agrees j block hit))
  ]

  SameBlocks-CacheAgrees : (s s' : Service D) → CacheAgrees s → SameBlocks s s' → CacheAgrees s'
  unfolding read_own
  SameBlocks-CacheAgrees s s' agrees kept round block hit =
      let read : read_own s' round ≡ some block = rw hit refl in
      ap (λ t. read_reply (Store.get_own_block db codec t.store round)) kept.rest
      ∙ sym (read_own-stored_own s agrees round)
      ∙ sym (kept.same round)
      ∙ read

  -- If each cached block is the one in the store, `handleGetRounds` answers a request within the limit
  -- with the own blocks of those rounds that the store has, in order, as if there were no cache, and a
  -- longer one with an error. It changes nothing but the cache, where each block is still the one in the
  -- store.
  pub handle_get_rounds_lem :
      (s : Service D) (rounds : List ℕ)
      → CacheAgrees s
      → ((handle_get_rounds db codec s rounds).1 ≡ (
          if ltb s.max_blocks (length rounds)
          then too_many
          else list_blocks (map some (present (stored_own s) rounds))))
        × ((cached : Cache.OwnBlocks SignedData) × ((handle_get_rounds db codec s rounds).0
              ≡ with_cache cached s))
        × CacheAgrees (handle_get_rounds db codec s rounds).0
  unfolding handle_get_rounds
  handle_get_rounds_lem s rounds agrees = elim (Bool-cases (ltb s.max_blocks (length rounds))) [
    | inl over ↦ rw over (refl, (s.own_blocks, refl), agrees)
    | inr within ↦
        let (read, kept) = own_blocks_of_lem s rounds in
        let from_store =
          read ∙ present-ext (read_own s) (stored_own s) rounds (read_own-stored_own s agrees) in
        rw (within, from_store)
          (
            refl,
            (kept.cached, kept.rest),
            SameBlocks-CacheAgrees s (own_blocks_of db codec s rounds).0 agrees kept,
          )
  ]
