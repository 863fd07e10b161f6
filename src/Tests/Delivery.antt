-- ===== src/Tests/Delivery.antt =====
-- Concrete rounds that reach a callback, and a concrete reply of a peer.
use blockmania.Prelude.{
  ℕ, List, [], ◌∷◌, ◌++◌, map, none, some, false, ◌≡◌, refl, find, ℕ_discrete, arith,
}
use blockmania.Consensus.Block.{BlockId, no_block}
use blockmania.Lexinum.{encode, encode_small}
use blockmania.Broadcast.Wire.{SignedData}
use blockmania.Broadcast.Keys.{block_key, encode_block_id}
use blockmania.Prelude.{◌+◌}
use blockmania.Broadcast.Cache
use blockmania.Broadcast.Cache.{get_received}
use blockmania.Broadcast.Depgraph.{BlockData}
use blockmania.Broadcast.Store.{
  BlockStore, for_depgraph, get_deliver_acknowledged, get_last_interpreted,
}
use blockmania.Broadcast.Store.Rounds.{stored, all_stored}
use blockmania.Broadcast.Checks.{
  check_block, check_signed, check_links, check_previous, check_previous_ref, check_references,
  check_reference,
}
use blockmania.Broadcast.Service.{Service, next_unsent}
use blockmania.Broadcast.Delivery.{Delivery, served}
use blockmania.Broadcast.Delivery.Logged.{Round}
use blockmania.Broadcast.Delivery.Idle.{call_of}
use blockmania.Broadcast.Delivery.Exact.{rounds_and_restart, rounds_and_restart-calls}
use blockmania.Broadcast.Service.Cached.{read_own}
use blockmania.Broadcast.Exchange.{exchanges}
use blockmania.Broadcast.Exchange.Sent.{exchanges-next_unsent}
use blockmania.Broadcast.Fetch.{fetched, receive_reply}
use blockmania.Broadcast.Fetch.Complete.{receive_reply-fetched}
use blockmania.Tests.Concrete.{
  bytes_key, bytes_discrete, list_database, list_database-IsDatabase, signed_codec,
  signed_codec-IsCodec, toy_crypto, toy_keys,
}

abbrev Bytes : Type 0
Bytes = List (List ℕ × List ℕ)

abbrev id_at : ℕ → ℕ → BlockId
id_at node round = record { hash = 7 ∷ []; node = node; round = round }

abbrev block_of : ℕ → SignedData
block_of n = record { content = n ∷ []; signature = 1 ∷ [] }

-- The blocks of two nodes.
abbrev two_blocks : BlockStore Bytes
two_blocks = record {
  closed = false;
  content =
      (block_key (id_at 4 1), signed_codec.marshal (block_of 41))
      ∷ (block_key (id_at 5 1), signed_codec.marshal (block_of 51))
      ∷ [];
}

abbrev first_round : Round
first_round = (
  record { blocks = id_at 4 1 ∷ id_at 5 1 ∷ []; consumed = 1; round = 1 },
  block_of 41 ∷ block_of 51 ∷ [],
)

abbrev empty_round : Round
empty_round = (record { blocks = []; consumed = 2; round = 2 }, [])

abbrev third_round : Round
third_round = (record { blocks = id_at 5 1 ∷ []; consumed = 4; round = 3 }, block_of 51 ∷ [])

abbrev idle : Delivery Bytes
idle = record { store = two_blocks; registered = false; interpreted = 0; calls = [] }

rounds_and_restart-calls_example :
    (s' : Delivery Bytes) × (rounds_and_restart list_database-IsDatabase signed_codec-IsCodec idle
        (first_round ∷ empty_round ∷ [])
        (third_round ∷ [])
      ≡ served s')
    × (s'.calls ≡ map call_of (first_round ∷ empty_round ∷ []) ++ map call_of (third_round ∷ []))
unfolding find bytes_discrete block_key encode_block_id encode encode_small get_deliver_acknowledged
    get_last_interpreted
rounds_and_restart-calls_example =
    rounds_and_restart-calls list_database-IsDatabase signed_codec-IsCodec idle
      (first_round ∷ empty_round ∷ []) (third_round ∷ []) refl refl (omega arith) refl refl
      (
        refl,
        omega arith,
        omega arith,
        omega arith,
        (refl, omega arith, omega arith, omega arith, tt),
      )
      (refl, omega arith, omega arith, omega arith, tt)
      (
        stored {id = id_at 4 1} {block = block_of 41} refl (omega arith)
            (stored {id = id_at 5 1} {block = block_of 51} refl (omega arith) all_stored),
        (all_stored, tt),
      )
      (stored {id = id_at 5 1} {block = block_of 51} refl (omega arith) all_stored, tt)

abbrev first_block : SignedData
first_block = record {
  content = toy_crypto.blocks.marshal (record {
    node = 1;
    previous = none;
    references = [];
    round = 1;
    transactions = record { count = 0; content = [] };
  });
  signature = 101 ∷ 5 ∷ [];
}

abbrev first_data : BlockData
first_data = record {
  deps = [];
  id = record { hash = 1 ∷ 1 ∷ []; node = 1; round = 1 };
  prev = no_block;
  ref = record { content = 1 ∷ 1 ∷ 1 ∷ 1 ∷ []; signature = 101 ∷ 5 ∷ [] };
}

-- Block 2 of node 1, behind a block of hash 8 9.
abbrev second_block : SignedData
second_block = record {
  content = toy_crypto.blocks.marshal (record {
    node = 1;
    previous = some (record { content = 1 ∷ 1 ∷ 8 ∷ 9 ∷ []; signature = 101 ∷ 0 ∷ [] });
    references = [];
    round = 2;
    transactions = record { count = 0; content = [] };
  });
  signature = 101 ∷ 5 ∷ [];
}

abbrev second_data : BlockData
second_data = record {
  deps = [];
  id = record { hash = 1 ∷ 2 ∷ []; node = 1; round = 2 };
  prev = record { hash = 8 ∷ 9 ∷ []; node = 1; round = 1 };
  ref = record { content = 1 ∷ 2 ∷ 1 ∷ 2 ∷ []; signature = 101 ∷ 5 ∷ [] };
}

abbrev service : Service Bytes
service = record {
  store = two_blocks;
  depgraph = record {
    await = [];
    blocks = [];
    icache = [];
    input = [];
    pending = [];
    self = 0;
    store = for_depgraph list_database two_blocks;
    tcache = [];
  };
  received = [];
  own_blocks = record { blocks = []; latest = 0 };
  round = 1;
  sent = [];
  max_blocks = 3;
  max_payload = 210;
}

receive_reply-fetched_example :
    (s' : Service Bytes) × (receive_reply list_database signed_codec toy_crypto toy_keys service 1
        (record { rounds = 1 ∷ 2 ∷ []; latest = 2 })
        (first_block ∷ second_block ∷ [])
      ≡ fetched s' (record { rounds = []; latest = 2 }))
    × ((get_received s'.received 1).sequence ≡ 2)
unfolding find check_block check_signed check_links check_previous check_previous_ref
    check_references check_reference ℕ_discrete
receive_reply-fetched_example =
    receive_reply-fetched list_database signed_codec toy_crypto toy_keys service 1 1 2 (2 ∷ [])
      (first_block ∷ second_block ∷ []) refl (omega arith) (omega arith, tt)
      (first_data, refl, refl, (second_data, refl, refl, tt))

-- The two blocks do not fit one message.
abbrev sender : Service Bytes
sender = record service {
  own_blocks = record { blocks = (1, first_block) ∷ (2, second_block) ∷ []; latest = 2 };
  round = 2;
}

exchanges-next_unsent_example :
    (s' r' : Service Bytes) × (exchanges list_database signed_codec toy_crypto toy_keys 2 7 sender
        service
      ≡ some (s', r'))
    × (next_unsent s' 7 ≡ 2 + 1)
    × ((j : ℕ)
        → read_own list_database signed_codec s' j ≡ read_own list_database signed_codec sender j)
unfolding find check_block check_signed check_links check_previous check_previous_ref
    check_references check_reference ℕ_discrete read_own Cache.get_block
exchanges-next_unsent_example =
    exchanges-next_unsent list_database signed_codec toy_crypto toy_keys 2 7 sender service refl
      (omega arith) (omega arith) (omega arith)
      (
        (first_block, refl, omega arith, (first_data, refl, refl)),
        ((second_block, refl, omega arith, (second_data, refl, refl)), tt),
      )
