-- ===== src/Tests/Bitset.antt =====
-- Votes of concrete nodes.
use blockmania.Prelude.{
  ◌%◌, [], ◌∷◌, List, ℕ, Bool, true, false, ◌≡◌, ◌↔◌, ok, fault, index_out_of_range, arith,
}
use blockmania.Consensus.Bitset.{Bitset, new_bitset, set_prepare}
use blockmania.Consensus.Bitset.Votes.{set_prepare_last_node}
use blockmania.Consensus.Bitset.Cast.{cast, Counts, cast-new_bitset}

-- Node 69 votes twice, and node 3 for both.
abbrev five_votes : List (Bool × ℕ)
five_votes = (true, 69) ∷ (true, 3) ∷ (false, 3) ∷ (true, 69) ∷ (false, 0) ∷ []

cast-new_bitset_example :
    (b : Bitset) × (cast (new_bitset 70) five_votes ≡ ok b) × Counts 70 (3 ∷ 69 ∷ []) (0 ∷ 3 ∷ []) b
cast-new_bitset_example =
    cast-new_bitset 70 five_votes
      (omega arith, (omega arith, (omega arith, (omega arith, (omega arith, tt)))))

set_prepare_last_node_example :
    (set_prepare (new_bitset 64) 64 ≡ fault index_out_of_range) ↔ (64 % 64 ≡ 0)
set_prepare_last_node_example = set_prepare_last_node 64
