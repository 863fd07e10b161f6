-- ===== src/Broadcast/Keys/Separated.antt =====
-- The identifier that stands in a key.
use blockmania.Prelude.{
  ℕ, List, [], ◌∷◌, ◌++◌, some, maybe, ◌≡◌, refl, ap, sym, ◌∙◌, IsU64, All, drop, arith,
}
use blockmania.Consensus.Block.{BlockId, no_block}
use blockmania.Lexinum.{value, panic, on_value, encode, decode}
use blockmania.Lexinum.RoundTrip.{decode-encode}
use blockmania.Lexinum.Bytes.{IsPositive, encode-All}
use blockmania.Broadcast.Keys.{
  encode_block_id, block_key, next_zero, decode_block_id, decode_block_round, at_node, after_node,
  at_round, after_round, key_round,
}

next_zero-append :
    (xs rest : List ℕ) → All IsPositive xs → next_zero (xs ++ (0 ∷ rest)) ≡ some (xs, rest)
unfolding next_zero
next_zero-append [] rest h = refl
next_zero-append (x ∷ xs) rest h = rw (next_zero-append xs rest h.1) (ground arith)

-- `decodeBlockID` gives back every identifier that `encodeBlockID` wrote, with its node and round
-- below 2 ^ 64 and whatever its hash.
pub decode_block_id-encode_block_id :
    (id : BlockId)
    → IsU64 id.node
    → IsU64 id.round
    → decode_block_id (encode_block_id id) ≡ value id
unfolding decode_block_id encode_block_id
decode_block_id-encode_block_id id node_fits round_fits =
    let d = encode id.round ++ (0 ∷ id.hash) in
    ap (λ o. maybe o (value no_block) at_node)
      (next_zero-append (encode id.node) d (encode-All id.node))
    ∙ ap (λ r. on_value r (after_node d)) (decode-encode id.node node_fits)
    ∙ ap (λ o. maybe o (after_round id.node [] 0) (at_round id.node))
        (next_zero-append (encode id.round) id.hash (encode-All id.round))
    ∙ ap (λ r. on_value r (after_round id.node id.hash)) (decode-encode id.round round_fits)

-- The round in a key, behind any prefix.
pub decode_block_round-encode_block_id :
    (prefix : ℕ) (id : BlockId)
    → IsU64 id.round
    → decode_block_round (prefix ∷ encode_block_id id) ≡ value id.round
unfolding decode_block_round encode_block_id
decode_block_round-encode_block_id prefix id round_fits =
    let d = encode id.round ++ (0 ∷ id.hash) in
    ap (λ o. maybe o (decode []) key_round)
      (next_zero-append (encode id.node) d (encode-All id.node))
    ∙ ap (λ o. maybe o panic (λ p. decode p.0))
        (next_zero-append (encode id.round) id.hash (encode-All id.round))
    ∙ decode-encode id.round round_fits

value-injective : {A : Type 0} (a b : A) → value a ≡ value b → a ≡ b
value-injective a b h = cc

-- Two blocks with nodes and rounds below 2 ^ 64 have the same key only if they are the same block.
pub block_key-injective :
    (a b : BlockId)
    → IsU64 a.node
    → IsU64 a.round
    → IsU64 b.node
    → IsU64 b.round
    → block_key a ≡ block_key b
    → a ≡ b
unfolding block_key
block_key-injective a b an ar bn br same =
    let tails : encode_block_id a ≡ encode_block_id b = ap (drop 1) same in
    value-injective a b (
      sym (decode_block_id-encode_block_id a an ar)
      ∙ ap decode_block_id tails
      ∙ decode_block_id-encode_block_id b bn br)
