-- ===== src/Broadcast/Keys/Sorted.antt =====
-- The order of the keys in the database.
use blockmania.Prelude.{
  ℕ, All, List, [], ◌∷◌, ◌++◌, true, ltb, ◌==◌, ==_iff, if◌then◌else◌, IsU64, ◌≡◌, refl, ap, sym,
  ◌∙◌, Bool-cases, inl, inr, arith,
}
use mathlib.Core.List.{append_assoc}
use blockmania.Consensus.Block.{BlockId}
use blockmania.Lexinum.{encode}
use blockmania.Lexinum.Bytes.{IsPositive, encode-All}
use blockmania.Lexinum.Sorting.{
  less-append, less-cons, less, equal, equal_refl, less-equal, less-equal_above, less-terminated,
}
use blockmania.Lexinum.Order.{less-encode}
use blockmania.Broadcast.Keys.{block_prefix, encode_block_id, block_key}

equal-encode : (v w : ℕ) → IsU64 v → IsU64 w → equal (encode v) (encode w) ≡ (v == w)
equal-encode v w fits_v fits_w = elim (Bool-cases (v == w)) [
  | inl same ↦
      ap (λ (z : ℕ). equal (encode v) (encode z)) (sym ((==_iff v w).0 same))
      ∙ equal_refl (encode v)
      ∙ sym same
  | inr apart ↦ elim (Bool-cases (ltb v w)) [
    | inl below ↦
        less-equal (encode v) (encode w) (less-encode v w fits_v fits_w ∙ below) ∙ sym apart
    | inr not_below ↦
        let above : ltb w v ≡ true = ground arith in
        less-equal_above (encode v) (encode w) (less-encode w v fits_w fits_v ∙ above) ∙ sym apart
  ]
]

-- A number in a key decides, and what is behind its zero decides between equal ones.
less-encode_then :
    (v w : ℕ) (us vs : List ℕ)
    → IsU64 v
    → IsU64 w
    → less (encode v ++ (0 ∷ us)) (encode w ++ (0 ∷ vs)) ≡ (if v == w then less us vs else ltb v w)
less-encode_then v w us vs fits_v fits_w =
    less-terminated (encode v) (encode w) us vs (encode-All v) (encode-All w)
    ∙ rw (equal-encode v w fits_v fits_w, less-encode v w fits_v fits_w) refl

-- Identifiers compare by the node, then by the round, then by the hash.
pub less-encode_block_id :
    (a b : BlockId)
    → IsU64 a.node
    → IsU64 a.round
    → IsU64 b.node
    → IsU64 b.round
    → less (encode_block_id a) (encode_block_id b) ≡ (
        if a.node == b.node
        then if a.round == b.round then less a.hash b.hash else ltb a.round b.round
        else ltb a.node b.node)
unfolding encode_block_id
less-encode_block_id a b node_a round_a node_b round_b =
    less-encode_then a.node b.node (encode a.round ++ (0 ∷ a.hash)) (encode b.round ++ (0 ∷ b.hash))
      node_a node_b
    ∙ ap (λ x. if a.node == b.node then x else ltb a.node b.node)
        (less-encode_then a.round b.round a.hash b.hash round_a round_b)

less-ended : (xs ys us : List ℕ) → All IsPositive ys → less (xs ++ (0 ∷ us)) ys ≡ less xs ys
less-ended [] [] us h = refl
less-ended [] (y ∷ ys) us h = let pos = h.0 in ground arith
less-ended (x ∷ xs) [] us h = ground arith
less-ended (x ∷ xs) (y ∷ ys) us h = ground (arith, less-ended xs ys us h.1)

-- An identifier compares with the start of an iteration over its node as its round does.
pub less-encode_block_id_from :
    (id : BlockId) (node from : ℕ)
    → id.node ≡ node
    → IsU64 id.round
    → IsU64 from
    → less (encode_block_id id) ((encode node ++ (0 ∷ [])) ++ encode from) ≡ ltb id.round from
unfolding encode_block_id
less-encode_block_id_from id node from own fits fits_from =
    let tail = encode id.round ++ (0 ∷ id.hash) in
    rw (sym own) (
      ap (less (encode id.node ++ (0 ∷ tail)))
        (append_assoc (encode id.node) (0 ∷ []) (encode from))
      ∙ less-append (encode id.node) (0 ∷ tail) (0 ∷ encode from)
      ∙ less-cons 0 tail (encode from)
      ∙ less-ended (encode id.round) (encode from) id.hash (encode-All from)
      ∙ less-encode id.round from fits fits_from)

-- The keys of blocks, with nodes and rounds below 2 ^ 64, sort by the node, then by the round, then by
-- the hash.
pub less-block_key :
    (a b : BlockId)
    → IsU64 a.node
    → IsU64 a.round
    → IsU64 b.node
    → IsU64 b.round
    → less (block_key a) (block_key b) ≡ (
        if a.node == b.node
        then if a.round == b.round then less a.hash b.hash else ltb a.round b.round
        else ltb a.node b.node)
unfolding block_key
less-block_key a b node_a round_a node_b round_b =
    less-cons block_prefix (encode_block_id a) (encode_block_id b)
    ∙ less-encode_block_id a b node_a round_a node_b round_b
