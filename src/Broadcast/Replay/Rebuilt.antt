-- ===== src/Broadcast/Replay/Rebuilt.antt =====
-- The block that was checked and the block that is read again.
use blockmania.Prelude.{
  ℕ, List, [], ◌∷◌, Map, find, nat_key, ◌==◌, maybe, ◌≡◌, refl, add_u64, Bool-cases, inl, inr,
}
use blockmania.Consensus.Block.{BlockId}
use blockmania.Broadcast.Wire.{SignedData, Block}
use blockmania.Broadcast.Depgraph.{BlockData}
use blockmania.Broadcast.Replies.{returned, crashed}
use blockmania.Broadcast.Checks.{
  Crypto, accepted, bad_previous_round, id_of_ref, signed_by, check_previous_ref, check_previous,
  check_reference, check_references, reference_to, check_links, check_signed, check_block,
}
use blockmania.Broadcast.Checks.Verified.{
  Accepts, Accepts-if, Accepts-unless, Accepts-maybe, Accepts-bind, Accepts-accepted,
}
use blockmania.Broadcast.Replay.{decode_ref, previous_of, deps_of, block_data}

module _ {K : Type 0} (crypto : Crypto K) (keys : Map ℕ K) where
  check_reference-decode_ref :
      (block : Block) (sref : SignedData)
      → Accepts
          (check_reference crypto keys block sref)
          (λ dep. decode_ref crypto sref ≡ returned dep)
  unfolding check_reference decode_ref
  check_reference-decode_ref block sref =
      let Goal : BlockId → Type 0 = λ dep. decode_ref crypto sref ≡ returned dep in
      Accepts-maybe (crypto.refs.unmarshal sref.content) _ _ Goal λ ref decoded.
        Accepts-maybe (find ref.node keys) _ _ Goal λ key known.
          Accepts-if (signed_by crypto keys key sref) _ _ Goal
            λ signed. Accepts-unless (ref.node == block.node) _ _ Goal λ differs. rw decoded refl

  check_references-deps_of :
      (block : Block) (srefs : List SignedData)
      → Accepts
          (check_references crypto keys block srefs)
          (λ deps. deps_of crypto srefs ≡ returned deps)
  unfolding check_references deps_of
  check_references-deps_of block [] = refl
  check_references-deps_of block (sref ∷ srefs) =
      let Goal : List BlockId → Type 0 = λ deps. deps_of crypto (sref ∷ srefs) ≡ returned deps in
      Accepts-bind (check_reference crypto keys block sref) _
        (λ dep. decode_ref crypto sref ≡ returned dep) Goal (check_reference-decode_ref block sref)
        λ dep here.
          Accepts-bind (check_references crypto keys block srefs) _
            (λ deps. deps_of crypto srefs ≡ returned deps) Goal
            (check_references-deps_of block srefs) λ deps others. rw (here, others) refl

  check_previous-previous_of :
      (block : Block) (key : K)
      → Accepts
          (check_previous crypto keys key block)
          (λ prev. previous_of crypto block ≡ returned prev)
  unfolding check_previous check_previous_ref previous_of decode_ref
  check_previous-previous_of block key =
      let Goal : BlockId → Type 0 =
        λ prev. maybe block.previous crashed (decode_ref crypto) ≡ returned prev in
      elim (Bool-cases (block.round == 1)) [
        | inl first ↦ rw first refl
        | inr later ↦ rw later (
            Accepts-maybe block.previous _ _ Goal λ p there.
              Accepts-if (signed_by crypto keys key p) _ _ Goal λ signed.
                Accepts-maybe (crypto.refs.unmarshal p.content) _ _ Goal λ ref decoded.
                  Accepts-if (ref.node == block.node) _ _ Goal λ same.
                    Accepts-if (add_u64 ref.round 1 == block.round) bad_previous_round
                      (accepted (id_of_ref ref)) Goal λ next. rw (there, decoded) refl)
      ]

  check_block-Accepts :
      (signed : SignedData)
      → Accepts (check_block crypto keys signed) (λ info. block_data crypto signed ≡ returned info)
  unfolding check_block check_signed check_links block_data
  check_block-Accepts signed =
      let Goal : BlockData → Type 0 = λ info. block_data crypto signed ≡ returned info in
      Accepts-maybe (crypto.blocks.unmarshal signed.content) _ _ Goal λ block decoded.
        Accepts-maybe (find block.node keys) _ _ Goal λ key known.
          Accepts-if (crypto.verify key (reference_to crypto keys signed block) signed.signature) _
            _ Goal
            λ good.
              Accepts-bind (check_previous crypto keys key block) _
                (λ prev. previous_of crypto block ≡ returned prev) Goal
                (check_previous-previous_of block key)
                λ prev before.
                  Accepts-bind (check_references crypto keys block block.references) _
                    (λ deps. deps_of crypto block.references ≡ returned deps) Goal
                    (check_references-deps_of block block.references)
                    λ deps others. rw (decoded, before, others) refl

  -- For a block that passed the checks, `getBlockData` gives what `processBlock` handed to the graph of
  -- waiting blocks, so that a restart waits for the same blocks.
  pub block_data-check_block :
      (signed : SignedData) (info : BlockData)
      → check_block crypto keys signed ≡ accepted info
      → block_data crypto signed ≡ returned info
  block_data-check_block signed info checked =
      Accepts-accepted (check_block crypto keys signed)
        (λ info. block_data crypto signed ≡ returned info) info (check_block-Accepts signed) checked
