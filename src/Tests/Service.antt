-- ===== src/Tests/Service.antt =====
-- Concrete requests to the broadcast service.
use blockmania.Prelude.{
  ℕ, ◌+◌, ◌<◌, List, [], ◌∷◌, map, length, none, some, false, ltb, if◌then◌else◌, ◌≡◌, ◌≢◌, refl,
  ap, ◌∙◌, nat_key, put, find-put_self, ◌++◌, subst, arith, find, ℕ_discrete,
}
use blockmania.Consensus.Block.{BlockId}
use blockmania.Lexinum.{encode, encode_small}
use blockmania.Broadcast.Wire.{SignedData}
use blockmania.Broadcast.Keys.{block_key, own_block_key}
use blockmania.Broadcast.Cache
use blockmania.Broadcast.Replies.{returned}
use blockmania.Broadcast.Depgraph.{BlockData}
use blockmania.Broadcast.Store
use blockmania.Broadcast.Store.{BlockStore, for_depgraph}
use blockmania.Broadcast.Missing.{node_prefix, get_missing}
use blockmania.Broadcast.Missing.Keyed.{HasRound}
use blockmania.Broadcast.Keys.Separated.{block_key-injective}
use blockmania.Tests.Iterated.{find-All, list_database-IsIterator}
use blockmania.Broadcast.Checks.{
  check_block, check_signed, check_links, check_previous, check_previous_ref, check_references,
  check_reference,
}
use blockmania.Broadcast.Checks.Verified.{IsVerified, check_block-IsVerified}
use blockmania.Broadcast.Service.{
  Service, too_many, list_blocks, unsent, next_unsent, handle_get_rounds, get_unsent,
  handle_broadcast_list,
}
use blockmania.Broadcast.Service.Cached.{
  read_own, stored_own, with_cache, CacheAgrees, present, SameBlocks, handle_get_rounds_lem,
}
use blockmania.Broadcast.Service.Sending.{some-injective, IsBatch, get_unsent-IsBatch}
use blockmania.Broadcast.Service.Backlog.{handle_get_rounds-get_missing}
use blockmania.Broadcast.Service.Handled.{IsHandledList, handle_broadcast_list-IsAnswer}
use blockmania.Tests.Concrete.{
  bytes_key, bytes_discrete, list_database, list_database-IsDatabase, signed_codec,
  signed_codec-IsCodec, toy_crypto, toy_keys,
}

abbrev Bytes : Type 0
Bytes = List (List ℕ × List ℕ)

abbrev block_of : ℕ → SignedData
block_of n = record { content = n ∷ []; signature = 1 ∷ [] }

-- Round 1 is cached, and both rounds are in the store.
abbrev two_rounds : BlockStore Bytes
two_rounds = record {
  closed = false;
  content =
      (own_block_key 2, signed_codec.marshal (block_of 22))
      ∷ (own_block_key 1, signed_codec.marshal (block_of 11))
      ∷ [];
}

abbrev service_on : BlockStore Bytes → Service Bytes
service_on store = record {
  store = store;
  depgraph = record {
    await = [];
    blocks = [];
    icache = [];
    input = [];
    pending = [];
    self = 0;
    store = for_depgraph list_database store;
    tcache = [];
  };
  received = [];
  own_blocks = record { blocks = (1, block_of 11) ∷ []; latest = 1 };
  round = 2;
  sent = [];
  max_blocks = 3;
  max_payload = 210;
}

stored_first : stored_own list_database signed_codec (service_on two_rounds) 1 ≡ some (block_of 11)
unfolding find ℕ_discrete bytes_discrete Store.get_own_block Store.fetch_signed own_block_key encode
    encode_small
stored_first = refl

cached_only :
    (round : ℕ) (block : SignedData)
    → find round ((1, block_of 11) ∷ []) ≡ some block
    → (1 ≡ round) × (block_of 11 ≡ block)
unfolding find
cached_only round block hit = elim (ℕ_discrete 1 round) [
  | yes same ↦ (same, some-injective (block_of 11) block (ground arith))
  | no differs ↦ absurd (ground arith)
]

service-CacheAgrees : CacheAgrees list_database signed_codec (service_on two_rounds)
unfolding Cache.get_block
service-CacheAgrees round block hit =
    let (same, e) = cached_only round block hit in
    subst (λ n. stored_own list_database signed_codec (service_on two_rounds) n ≡ some block) same
      (stored_first ∙ ap some e)

-- Round 9 is not there.
handle_get_rounds_lem_example :
    ((handle_get_rounds list_database signed_codec (service_on two_rounds) (1 ∷ 9 ∷ 2 ∷ [])).1 ≡ (
      if ltb 3 3
      then too_many
      else list_blocks (
          map some (
            present
              (stored_own list_database signed_codec (service_on two_rounds))
              (1 ∷ 9 ∷ 2 ∷ [])))))
    × ((cached : Cache.OwnBlocks SignedData) × ((handle_get_rounds list_database signed_codec
            (service_on two_rounds)
            (1 ∷ 9 ∷ 2 ∷ [])).0
          ≡ with_cache list_database signed_codec cached (service_on two_rounds)))
    × CacheAgrees list_database signed_codec
        (handle_get_rounds list_database signed_codec (service_on two_rounds) (1 ∷ 9 ∷ 2 ∷ [])).0
handle_get_rounds_lem_example =
    handle_get_rounds_lem list_database signed_codec (service_on two_rounds) (1 ∷ 9 ∷ 2 ∷ [])
      service-CacheAgrees

second : 2 ≡ next_unsent (service_on two_rounds) 5 + 1
unfolding find
second = omega arith

-- The blocks are of size 102, so that two fit.
get_unsent-IsBatch_example :
    (blocks : List SignedData) × ((get_unsent list_database signed_codec
        (service_on two_rounds)
        5).1
      ≡ unsent blocks)
    × (0 < length blocks)
    × IsBatch (read_own list_database signed_codec (service_on two_rounds)) 210 2 1 blocks
    × SameBlocks list_database signed_codec
        (service_on two_rounds)
        (get_unsent list_database signed_codec (service_on two_rounds) 5).0
unfolding find ℕ_discrete bytes_discrete read_own Cache.get_block Store.get_own_block
    Store.fetch_signed own_block_key encode encode_small
get_unsent-IsBatch_example =
    get_unsent-IsBatch list_database signed_codec (service_on two_rounds) 5 (omega arith)
      (omega arith)
      (
        (block_of 11, refl, omega arith),
        (
          (
            block_of 22,
            subst
                (λ n.
                  read_own list_database signed_codec (service_on two_rounds) n
                  ≡ some (block_of 22))
                second refl,
            omega arith,
          ),
          tt,
        ),
      )

abbrev sixth : BlockId
sixth = record { hash = 7 ∷ []; node = 4; round = 6 }

abbrev late_store : BlockStore Bytes
late_store = record { closed = false; content = (block_key sixth, []) ∷ [] }

-- The key of round 6 of node 4 is the only one.
late_key :
    (key content : List ℕ) → find key late_store.content ≡ some content → key ≡ block_key sixth
late_key key content there =
    find-All (λ k. k ≡ block_key sixth) key content late_store.content (refl, tt) there

late_round : (k : ℕ) → HasRound list_database late_store.content 4 k → k ≡ 6
late_round k (fits, hash, content, there) =
    let id : BlockId = record { hash = hash; node = 4; round = k } in
    ap (λ i. i.round)
      (block_key-injective id sixth (omega arith) fits (omega arith) (omega arith)
        (late_key (block_key id) content there))

-- Rounds 1 to 5 of node 4 are missing.
handle_get_rounds-get_missing_example :
    (rounds : List ℕ) × (latest : ℕ) × (get_missing list_database late_store 4 0 3
      ≡ returned (rounds, latest))
    × (length rounds ≡ 3 + 1)
    × (handle_get_rounds list_database signed_codec (service_on two_rounds) rounds
        ≡ (service_on two_rounds, too_many))
unfolding put
handle_get_rounds-get_missing_example =
    handle_get_rounds-get_missing list_database signed_codec late_store (service_on two_rounds) 4 0
      3 6 list_database-IsIterator refl (omega arith) (omega arith)
      (λ rest content there. record {
        id = sixth;
        own = refl;
        room = omega arith;
        spelt = late_key (node_prefix 4 ++ rest) content there;
      })
      (omega arith, sixth.hash, [], find-put_self (block_key sixth) [] []) (omega arith)
      (λ k above near stored. absurd (omega (arith, late_round k stored))) (omega arith)

-- Block 2 of node 1, behind a block of hash 8 9, with a reference to block 1 of node 2.
abbrev second_block : SignedData
second_block = record {
  content = toy_crypto.blocks.marshal (record {
    node = 1;
    previous = some (record { content = 1 ∷ 1 ∷ 8 ∷ 9 ∷ []; signature = 101 ∷ 0 ∷ [] });
    references = record { content = 2 ∷ 1 ∷ 6 ∷ 7 ∷ []; signature = 102 ∷ 0 ∷ [] } ∷ [];
    round = 2;
    transactions = record { count = 0; content = [] };
  });
  signature = 101 ∷ 5 ∷ [];
}

abbrev second_data : BlockData
second_data = record {
  deps = record { hash = 6 ∷ 7 ∷ []; node = 2; round = 1 } ∷ [];
  id = record { hash = 1 ∷ 2 ∷ []; node = 1; round = 2 };
  prev = record { hash = 8 ∷ 9 ∷ []; node = 1; round = 1 };
  ref = record { content = 1 ∷ 2 ∷ 1 ∷ 2 ∷ []; signature = 101 ∷ 5 ∷ [] };
}

check_block-IsVerified_example : IsVerified toy_crypto toy_keys second_block second_data
unfolding find check_block check_signed check_links check_previous check_previous_ref
    check_references check_reference ℕ_discrete
check_block-IsVerified_example =
    check_block-IsVerified toy_crypto toy_keys second_block second_data refl

-- The same block, signed by another node.
abbrev forged_block : SignedData
forged_block = record second_block { signature = 102 ∷ [] }

no_entry : (v : List ℕ) → none ≢ some v
no_entry v e = cc

abbrev empty_service : Service Bytes
empty_service = service_on (record { closed = false; content = [] })

handle_broadcast_list-IsAnswer_example :
    IsHandledList list_database-IsDatabase signed_codec-IsCodec toy_crypto toy_keys
      empty_service.store 0
      (second_block ∷ forged_block ∷ [])
      (handle_broadcast_list list_database signed_codec toy_crypto toy_keys empty_service
        (second_block ∷ forged_block ∷ []))
unfolding find ℕ_discrete
handle_broadcast_list-IsAnswer_example =
    handle_broadcast_list-IsAnswer list_database-IsDatabase signed_codec-IsCodec toy_crypto toy_keys
      empty_service (second_block ∷ forged_block ∷ []) refl (λ id (v, e). elim (no_entry v e) [ ])
