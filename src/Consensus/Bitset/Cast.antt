-- ===== src/Consensus/Bitset/Cast.antt =====
-- The votes of a whole round of messages.
use blockmania.Prelude.{
  ℕ, ◌<◌, List, [], ◌∷◌, Bool, true, false, Outcome, ok, ◌>>=◌, length, All, ◌≡◌, refl,
}
use blockmania.Consensus.Bitset.{
  Bitset, new_bitset, set_prepare, set_commit, prepare_count, commit_count,
}
use blockmania.Consensus.Bitset.Votes.{
  add, Holds, new_bitset-Holds, set_prepare-Holds, set_commit-Holds,
}

-- Votes one after the other: of each, whether it is a prepare, and the node.
abbrev pub cast : Bitset → List (Bool × ℕ) → Outcome Bitset
cast b [] = ok b
cast b ((true, v) ∷ votes) = set_prepare b v >>= λ b'. cast b' votes
cast b ((false, v) ∷ votes) = set_commit b v >>= λ b'. cast b' votes

-- The distinct nodes that cast a vote of a kind, together with `s`.
abbrev pub voters : Bool → List (Bool × ℕ) → List ℕ → List ℕ
voters kind [] s = s
voters true ((true, v) ∷ votes) s = voters true votes (add v s)
voters true ((false, v) ∷ votes) s = voters true votes s
voters false ((true, v) ∷ votes) s = voters false votes s
voters false ((false, v) ∷ votes) s = voters false votes (add v s)

-- What a bitset is that holds the nodes `ps` and `cs`, and counts them.
abbrev pub Counts : ℕ → List ℕ → List ℕ → Bitset → Type 0
Counts size ps cs b =
    Holds b size ps cs × (prepare_count b ≡ length ps) × (commit_count b ≡ length cs)

cast_onto :
    (size : ℕ) (votes : List (Bool × ℕ)) (b : Bitset) (ps cs : List ℕ)
    → Holds b size ps cs
    → All (λ v. v.1 < size) votes
    → (b' : Bitset) × (cast b votes ≡ ok b')
      × Counts size (voters true votes ps) (voters false votes cs) b'
unfolding prepare_count commit_count
cast_onto size [] b ps cs h below = (b, refl, (h, h.prepares.count, h.commits.count))
cast_onto size ((true, v) ∷ votes) b ps cs h below =
    let (b1, one, h1, c, d) = set_prepare-Holds b size ps cs v h below.0 in
    let (b2, rest, all) = cast_onto size votes b1 (add v ps) cs h1 below.1 in (b2, rw one rest, all)
cast_onto size ((false, v) ∷ votes) b ps cs h below =
    let (b1, one, h1, c, d) = set_commit-Holds b size ps cs v h below.0 in
    let (b2, rest, all) = cast_onto size votes b1 ps (add v cs) h1 below.1 in (b2, rw one rest, all)

-- A new bitset for `size` nodes takes every list of votes of nodes below `size`, in any order and with
-- repetitions. Then it answers for each node whether that node prepared and whether it committed, and
-- its two counts are the numbers of distinct nodes that did.
pub cast-new_bitset :
    (size : ℕ) (votes : List (Bool × ℕ))
    → All (λ v. v.1 < size) votes
    → (b : Bitset) × (cast (new_bitset size) votes ≡ ok b)
      × Counts size (voters true votes []) (voters false votes []) b
cast-new_bitset size votes below =
    cast_onto size votes (new_bitset size) [] [] (new_bitset-Holds size) below
