-- ===== src/Broadcast/Keys.antt =====
-- The keys of the block store and the identifiers that they hold (broadcast/store.go): node and round
-- in the sortable encoding, each before a zero byte, then the hash.
pub mod Separated
pub mod Sorted
use blockmania.Prelude.{ℕ, List, [], ◌∷◌, ◌++◌, Option, none, some, ◌==◌, if◌then◌else◌, maybe}
use blockmania.Consensus.Block.{Hash, BlockId, no_block}
use blockmania.Lexinum.{Decoded, value, error, panic, on_value, encode, decode}

-- The prefixes.
abbrev pub block_prefix : ℕ
block_prefix = 1

abbrev pub block_graph_prefix : ℕ
block_graph_prefix = 2

abbrev pub included_prefix : ℕ
included_prefix = 3

abbrev pub interpreted_prefix : ℕ
interpreted_prefix = 4

abbrev pub last_block_ref_prefix : ℕ
last_block_ref_prefix = 5

abbrev pub last_hash_prefix : ℕ
last_hash_prefix = 6

abbrev pub last_interpreted_prefix : ℕ
last_interpreted_prefix = 7

abbrev pub last_round_prefix : ℕ
last_round_prefix = 8

abbrev pub not_included_prefix : ℕ
not_included_prefix = 9

abbrev pub own_block_prefix : ℕ
own_block_prefix = 10

abbrev pub received_map_prefix : ℕ
received_map_prefix = 11

abbrev pub round_acknowledged_prefix : ℕ
round_acknowledged_prefix = 12

abbrev pub sent_map_prefix : ℕ
sent_map_prefix = 13

-- `encodeBlockID`.
unfoldable pub encode_block_id : BlockId → List ℕ
encode_block_id id = encode id.node ++ (0 ∷ (encode id.round ++ (0 ∷ id.hash)))

unfoldable pub block_key : BlockId → List ℕ
unfolding encode_block_id
block_key id = block_prefix ∷ encode_block_id id

unfoldable pub block_graph_key : BlockId → List ℕ
unfolding encode_block_id
block_graph_key id = block_graph_prefix ∷ encode_block_id id

unfoldable pub included_key : BlockId → List ℕ
unfolding encode_block_id
included_key id = included_prefix ∷ encode_block_id id

unfoldable pub not_included_key : BlockId → List ℕ
unfolding encode_block_id
not_included_key id = not_included_prefix ∷ encode_block_id id

unfoldable pub interpreted_key : ℕ → List ℕ
interpreted_key round = interpreted_prefix ∷ encode round

unfoldable pub own_block_key : ℕ → List ℕ
own_block_key round = own_block_prefix ∷ encode round

-- What a loop over the bytes finds of the next zero: the bytes before it and those behind it.
unfoldable pub next_zero : List ℕ → Option (List ℕ × List ℕ)
next_zero [] = none
next_zero (char ∷ d) =
    if char == 0
    then some ([], d)
    else elim (next_zero d) [ none ↦ none | some (before, behind) ↦ some (char ∷ before, behind) ]

-- The two cases of `decodeBlockID`: a zero ends the node, and another one the round.
abbrev pub after_round : ℕ → Hash → ℕ → Decoded BlockId
after_round node hash round = value (record { hash = hash; node = node; round = round })

abbrev pub at_round : ℕ → List ℕ × List ℕ → Decoded BlockId
at_round node (second, hash) = on_value (decode second) (after_round node hash)

abbrev pub after_node : List ℕ → ℕ → Decoded BlockId
after_node d node = maybe (next_zero d) (after_round node [] 0) (at_round node)

abbrev pub at_node : List ℕ × List ℕ → Decoded BlockId
at_node (first, d) = on_value (decode first) (after_node d)

-- `decodeBlockID`: what is missing stays at its zero value.
unfoldable pub decode_block_id : List ℕ → Decoded BlockId
decode_block_id d = maybe (next_zero d) (value no_block) at_node

-- `decodeBlockRound`: `d[1:]` of no bytes is a panic, and so is `d[rstart:rend]` if there is one zero
-- only, since `rend` is then 0.
abbrev pub key_round : List ℕ × List ℕ → Decoded ℕ
key_round (node, d) = maybe (next_zero d) panic (λ (round, hash). decode round)

unfoldable pub decode_block_round : List ℕ → Decoded ℕ
decode_block_round [] = panic
decode_block_round (char ∷ d) = maybe (next_zero d) (decode []) key_round
