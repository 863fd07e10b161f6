-- ===== src/Tests/Generate.antt =====
-- A concrete author, and a block that is read again.
use blockmania.Prelude.{
  put, delete, maybe, ℕ, ℕ_discrete, find, List, [], ◌∷◌, some, false, ◌≡◌, refl, arith,
}
use blockmania.Consensus.Block.{no_block}
use blockmania.Broadcast.Wire.{SignedData}
use blockmania.Broadcast.Replies.{returned}
use blockmania.Broadcast.Depgraph.{BlockData, get_blocks, fitting}
use blockmania.Lexinum.{encode, encode_small}
use blockmania.Broadcast.Keys.{
  block_key, block_graph_key, included_key, not_included_key, own_block_key, encode_block_id,
}
use blockmania.Broadcast.Store.{
  BlockStore, for_depgraph, set_own_block, put_own_block, mark_deps, unmark_deps,
  get_last_interpreted,
}
use blockmania.Broadcast.Progress.{get_received_map, get_sent_map}
use blockmania.Broadcast.Load.{Loaded, load_interpreted, load_received, load_sent, load_state}
use blockmania.Broadcast.Load.Restarted.{IsRestarted, load_state-gen_block}
use blockmania.Broadcast.Checks.{
  check_block, check_signed, check_links, check_previous, check_previous_ref, check_references,
  check_reference,
}
use blockmania.Broadcast.Replay.{block_data, get_not_included, fetch_listed, data_of}
use blockmania.Broadcast.Replay.Rebuilt.{block_data-check_block}
use blockmania.Broadcast.Generate.{Author, signed_ref, gen_block}
use blockmania.Broadcast.Generate.Accepted.{IsAuthor, IsGenerated, gen_block-IsGenerated}
use blockmania.Tests.Concrete.{
  bytes_key, bytes_discrete, list_database, list_database-IsDatabase, signed_codec,
  signed_codec-IsCodec, toy_crypto, toy_keys, block_codec-IsCodec, ref_codec-IsCodec,
}

abbrev Bytes : Type 0
Bytes = List (List ℕ × List ℕ)

abbrev new_store : BlockStore Bytes
new_store = record { closed = false; content = [] }

-- Node 1 signs with its key, 101, in front of the message.
abbrev sign_first : List ℕ → List ℕ
sign_first message = 101 ∷ message

-- Block 1 of node 2.
abbrev waiting_block : BlockData
waiting_block = record {
  deps = [];
  id = record { hash = 6 ∷ 7 ∷ []; node = 2; round = 1 };
  prev = no_block;
  ref = record { content = 2 ∷ 1 ∷ 6 ∷ 7 ∷ []; signature = 102 ∷ [] };
}

-- Node 1 after its second block.
abbrev second_author : Author Bytes
second_author = record {
  service = record {
    store = new_store;
    depgraph = record {
      await = [];
      blocks = waiting_block ∷ [];
      icache = [];
      input = [];
      pending = [];
      self = 1;
      store = for_depgraph list_database new_store;
      tcache = [];
    };
    received = [];
    own_blocks = record { blocks = []; latest = 0 };
    round = 2;
    sent = [];
    max_blocks = 3;
    max_payload = 1000;
  };
  node = 1;
  prevhash = 8 ∷ 9 ∷ [];
  prevref =
      some (signed_ref toy_crypto sign_first (record { hash = 8 ∷ 9 ∷ []; node = 1; round = 2 }));
  ref_size_limit = 500;
  txs = record { tx_count = 0; tx_count_limit = 5; tx_data = []; tx_idx = 0; tx_size_limit = 0 };
  sent_on = [];
}

second_author-IsAuthor : IsAuthor toy_crypto sign_first toy_keys second_author
unfolding find ℕ_discrete
second_author-IsAuthor = record {
  fits = omega arith;
  is_open = refl;
  last = λ later. refl;
  queue = (record { names = refl; key = 102; known = refl; signed = refl; other = refl }, tt);
}

gen_block-IsGenerated_example :
    (a' : Author Bytes) × (infos : List BlockData) × (gen_block toy_crypto sign_first list_database
        signed_codec second_author
      ≡ some a')
    × IsGenerated toy_crypto sign_first toy_keys list_database signed_codec second_author a' infos
    × IsAuthor toy_crypto sign_first toy_keys a'
unfolding find ℕ_discrete
gen_block-IsGenerated_example =
    gen_block-IsGenerated toy_crypto sign_first toy_keys list_database-IsDatabase
      signed_codec-IsCodec ref_codec-IsCodec block_codec-IsCodec second_author 101
      second_author-IsAuthor refl (λ message. refl)

-- Block 2 of node 1, behind a block of hash 8 9, with a reference to block 1 of node 2.
abbrev second_block : SignedData
second_block = record {
  content = toy_crypto.blocks.marshal (record {
    node = 1;
    previous = some (record { content = 1 ∷ 1 ∷ 8 ∷ 9 ∷ []; signature = 101 ∷ [] });
    references = waiting_block.ref ∷ [];
    round = 2;
    transactions = record { count = 0; content = [] };
  });
  signature = 101 ∷ [];
}

abbrev second_data : BlockData
second_data = record {
  deps = waiting_block.id ∷ [];
  id = record { hash = 1 ∷ 2 ∷ []; node = 1; round = 2 };
  prev = record { hash = 8 ∷ 9 ∷ []; node = 1; round = 1 };
  ref = record { content = 1 ∷ 2 ∷ 1 ∷ 2 ∷ []; signature = 101 ∷ [] };
}

block_data-check_block_example : block_data toy_crypto second_block ≡ returned second_data
unfolding find ℕ_discrete check_block check_signed check_links check_previous check_previous_ref
    check_references check_reference
block_data-check_block_example =
    block_data-check_block toy_crypto toy_keys second_block second_data refl

abbrev generated : Author Bytes
generated =
    maybe (gen_block toy_crypto sign_first list_database signed_codec second_author) second_author
      (λ a. a)

made : gen_block toy_crypto sign_first list_database signed_codec second_author ≡ some generated
unfolding gen_block set_own_block
made = refl

-- Nothing was interpreted and no peer has sent a block, and the waiting block is in a block now.
load_state-gen_block_example :
    (l : Loaded) × (b : Author Bytes) × (load_state list_database signed_codec toy_crypto
        (2 ∷ [])
        generated
      ≡ some (l, b))
    × IsRestarted toy_crypto sign_first toy_keys list_database signed_codec generated b
unfolding find put delete ℕ_discrete bytes_discrete gen_block set_own_block put_own_block mark_deps
    unmark_deps get_blocks fitting load_interpreted load_received load_sent get_last_interpreted
    get_received_map get_sent_map get_not_included fetch_listed data_of block_key block_graph_key
    included_key not_included_key own_block_key encode_block_id encode encode_small
load_state-gen_block_example =
    load_state-gen_block toy_crypto sign_first toy_keys list_database signed_codec
      list_database-IsDatabase signed_codec-IsCodec ref_codec-IsCodec block_codec-IsCodec
      second_author generated 101 (2 ∷ []) 0 0 ((2, record { latest = 0; sequence = 0 }) ∷ [])
      ((2, 0) ∷ []) [] second_author-IsAuthor refl (λ message. refl) made refl refl refl refl
