-- ===== src/Broadcast/Service/Backlog.antt =====
-- A request for the missing rounds, put together with its answer.
use blockmania.Prelude.{
  ℕ, zero, suc, ◌+◌, ◌-◌, ◌≤◌, ◌<◌, List, ◌∷◌, ◌++◌, map, length, true, false, some, ltb, lt→ltb,
  ◌==◌, ◌≡◌, ap, ◌∙◌, refl, Bool-cases, inl, inr, IsU64, add_u64, arith,
}
use blockmania.Consensus.Block.{BlockId}
use blockmania.Lexinum.{encode}
use blockmania.Broadcast.Wire.{SignedData, Codec}
use blockmania.Broadcast.Database.{Database, IsIterator}
use blockmania.Broadcast.Keys.{block_key}
use blockmania.Broadcast.Replies.{returned}
use blockmania.Broadcast.Store.{BlockStore}
use blockmania.Broadcast.Missing.{fill_gap, missing_from, node_prefix, get_missing}
use blockmania.Broadcast.Missing.Keyed.{IsBlockOf, HasRound}
use blockmania.Broadcast.Missing.Stored.{First-above}
use blockmania.Broadcast.Missing.Complete.{decode_block_round-block_key}
use blockmania.Broadcast.Service.{Service, too_many, handle_get_rounds}

-- A gap with more rounds than the limit leaves room for.
fill_gap-full :
    (turns i limit latest added : ℕ)
    → added ≤ limit
    → limit < added + turns
    → ((fill_gap turns i limit latest added).full ≡ true)
      × (added + length (fill_gap turns i limit latest added).rounds ≡ limit + 1)
unfolding fill_gap
fill_gap-full zero i limit latest added room more = elim impossible [ ]
  where
    impossible : 1 ≤ 0
    impossible = omega arith
fill_gap-full (suc turns) i limit latest added room more = elim (Bool-cases (added == limit)) [
  | inl hit ↦ rw hit (refl, ground arith)
  | inr less ↦
      let (full, number) =
        fill_gap-full turns (i + 1) limit i (added + 1) (ground arith) (omega arith) in
      rw less (full, omega (arith, number))
]

-- The same, if the first key that the database visits is given.
too_many-get_missing :
    {D : Type 0} (db : Database D) (codec : Codec SignedData) (s : BlockStore D) (peer : Service D)
    (node since limit : ℕ) (id : BlockId) (ids : List BlockId)
    → s.closed ≡ false
    → db.keys_from (node_prefix node) (node_prefix node ++ encode (add_u64 since 1)) s.content
      ≡ map block_key (id ∷ ids)
    → IsU64 id.round
    → since + limit + 1 < id.round
    → peer.max_blocks ≤ limit
    → (rounds : List ℕ) × (latest : ℕ) × (get_missing db s node since limit
        ≡ returned (rounds, latest))
      × (length rounds ≡ limit + 1)
      × (handle_get_rounds db codec peer rounds ≡ (peer, too_many))
unfolding get_missing missing_from handle_get_rounds
too_many-get_missing db codec s peer node since limit id ids is_open visited fits far same =
    let gap = fill_gap (id.round - (since + 1)) (since + 1) limit since 0 in
    let (full, number) =
      fill_gap-full (id.round - (since + 1)) (since + 1) limit since 0 (omega arith)
        (omega arith) in
    let first : add_u64 since 1 ≡ since + 1 = omega arith in
    let over : ltb peer.max_blocks (length gap.rounds) ≡ true =
      lt→ltb peer.max_blocks (length gap.rounds) (omega (arith, number)) in
    (
      gap.rounds,
      gap.latest,
      rw (is_open, visited, decode_block_round-block_key id fits, first, full) refl,
      omega (arith, number),
      rw over refl,
    )

-- On an open store of a database whose iterator visits the stored keys in the order of their bytes,
-- where each stored key with the prefix of the node's blocks is the key of a block of that node: if the
-- store has a block of the node more than `limit + 1` rounds above `since` and none of the `limit + 1`
-- rounds behind `since`, `getMissing` returns `limit + 1` rounds, and a peer whose block limit is no
-- larger than `limit` answers the request for them with an error. The node, the round after `since` and
-- the one after each stored round are below 2 ^ 64.
pub handle_get_rounds-get_missing :
    {D : Type 0} (db : Database D) (codec : Codec SignedData) (s : BlockStore D) (peer : Service D)
    (node since limit later : ℕ)
    → IsIterator db
    → s.closed ≡ false
    → IsU64 node
    → IsU64 (since + 1)
    → ((rest content : List ℕ)
        → db.get (node_prefix node ++ rest) s.content ≡ some content
        → IsBlockOf node (node_prefix node ++ rest))
    → HasRound db s.content node later
    → since + limit + 1 < later
    → ((k : ℕ) → since < k → k ≤ since + limit + 1 → ¬ HasRound db s.content node k)
    → peer.max_blocks ≤ limit
    → (rounds : List ℕ) × (latest : ℕ) × (get_missing db s node since limit
        ≡ returned (rounds, latest))
      × (length rounds ≡ limit + 1)
      × (handle_get_rounds db codec peer rounds ≡ (peer, too_many))
handle_get_rounds-get_missing db codec s peer node since limit later it is_open node_fits next_fits
      known there far none_near same =
    let next : add_u64 since 1 ≡ since + 1 = omega arith in
    let (id, others, visited, first_there, above) =
      First-above db it s.content node since node_fits next_fits known later (omega arith) there in
    let far_first : since + limit + 1 < id.round =
      elim (Bool-cases (ltb (since + limit + 1) id.round)) [
        | inl is_far ↦ ground arith
        | inr near ↦ absurd (none_near id.round above (ground arith) first_there)
      ] in
    too_many-get_missing db codec s peer node since limit id others is_open
      (ap (λ z. db.keys_from (node_prefix node) (node_prefix node ++ encode z) s.content) next
        ∙ visited)
      first_there.0 far_first same
