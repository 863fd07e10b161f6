-- ===== src/Broadcast/Cache.antt =====
-- The caches of the broadcast service (broadcast/cache.go): the node's own recent blocks, and the
-- rounds received from each node. The mutexes are left out: each method holds one throughout.
pub mod Gapless
pub mod Pruning
use blockmania.Prelude.{
  ℕ, Option, none, some, Map, find, put, keep, nat_key, length, leb, ltb, ◌==◌, if◌then◌else◌,
  add_u64, sub_u64,
}

-- `ownBlocks`, over the type of the signed blocks.
pub record OwnBlocks (Block : Type 0) : Type 0 where
  pub blocks : Map ℕ Block
  pub latest : ℕ

module _ {Block : Type 0} where
  unfoldable pub get_block : OwnBlocks Block → ℕ → Option Block
  unfolding find
  get_block o round = find round o.blocks

  unfoldable pub prune : ℕ → OwnBlocks Block → OwnBlocks Block
  unfolding keep
  prune size o =
      if leb (length o.blocks) size
      then o
      else record o { blocks = keep (λ round. leb (sub_u64 o.latest size) round) o.blocks }

  unfoldable pub set_block : ℕ → Block → OwnBlocks Block → OwnBlocks Block
  unfolding put
  set_block round block o = record { blocks = put round block o.blocks; latest = round }

-- `receivedInfo`.
pub record ReceivedInfo : Type 0 where
  pub latest : ℕ
  pub sequence : ℕ

-- A missing key reads as the zero value.
abbrev pub or_zero : Option ReceivedInfo → ReceivedInfo
or_zero none = record { latest = 0; sequence = 0 }
or_zero (some info) = info

unfoldable pub get_received : Map ℕ ReceivedInfo → ℕ → ReceivedInfo
unfolding find
get_received r node = or_zero (find node r)

-- The two updates of `set`.
unfoldable pub receive : ℕ → ReceivedInfo → ReceivedInfo
receive round info = record {
  latest = if ltb info.latest round then round else info.latest;
  sequence = if add_u64 info.sequence 1 == round then round else info.sequence;
}

unfoldable pub set_received : Map ℕ ReceivedInfo → ℕ → ℕ → Map ℕ ReceivedInfo
unfolding get_received receive put
set_received r node round = put node (receive round (get_received r node)) r

unfoldable pub set_sequence : Map ℕ ReceivedInfo → ℕ → ℕ → Map ℕ ReceivedInfo
unfolding get_received put
set_sequence r node round = put node (record (get_received r node) { sequence = round }) r
