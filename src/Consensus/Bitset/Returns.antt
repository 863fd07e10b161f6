-- ===== src/Consensus/Bitset/Returns.antt =====
-- Every vote ends: with a bitset, or with an index out of range.
use blockmania.Prelude.{
  ℕ, List, arith, Ends, Meets, Ends-Meets, ◌≢◌, fault, wrong_type, Asserts, never-Asserts,
}
use blockmania.Consensus.Bitset.{Bitset, set_prepare, set_commit, has_commit, set_vote, has_vote}

set_vote-Ends : (words : List ℕ) (v : ℕ) → Ends (set_vote words v)
unfolding set_vote
set_vote-Ends words v = ground arith

set_prepare-Ends : (b : Bitset) (v : ℕ) → Ends (set_prepare b v)
unfolding set_prepare
set_prepare-Ends b v = ground (arith, set_vote-Ends b.prepares v)

set_commit-Ends : (b : Bitset) (v : ℕ) → Ends (set_commit b v)
unfolding set_commit
set_commit-Ends b v = ground (arith, set_vote-Ends b.commits v)

has_commit-Ends : (b : Bitset) (v : ℕ) → Ends (has_commit b v)
unfolding has_commit has_vote
has_commit-Ends b v = ground arith

abbrev pub Anything : {A : Type 0} → A → Type 0
Anything a = Unit

pub set_prepare-Meets : (b : Bitset) (v : ℕ) → Meets (set_prepare b v) Anything
set_prepare-Meets b v = Ends-Meets _ Anything (set_prepare-Ends b v) (λ _ _. tt)

pub set_commit-Meets : (b : Bitset) (v : ℕ) → Meets (set_commit b v) Anything
set_commit-Meets b v = Ends-Meets _ Anything (set_commit-Ends b v) (λ _ _. tt)

pub has_commit-Meets : (b : Bitset) (v : ℕ) → Meets (has_commit b v) Anything
has_commit-Meets b v = Ends-Meets _ Anything (has_commit-Ends b v) (λ _ _. tt)

-- No vote asserts a type.
set_vote_typed : (words : List ℕ) (v : ℕ) → set_vote words v ≢ fault wrong_type
unfolding set_vote
set_vote_typed words v = ground arith

set_prepare_typed : (b : Bitset) (v : ℕ) → set_prepare b v ≢ fault wrong_type
unfolding set_prepare
set_prepare_typed b v = ground (arith, set_vote_typed b.prepares v)

set_commit_typed : (b : Bitset) (v : ℕ) → set_commit b v ≢ fault wrong_type
unfolding set_commit
set_commit_typed b v = ground (arith, set_vote_typed b.commits v)

has_commit_typed : (b : Bitset) (v : ℕ) → has_commit b v ≢ fault wrong_type
unfolding has_commit has_vote
has_commit_typed b v = ground arith

pub set_prepare-Asserts : (b : Bitset) (v : ℕ) → Asserts (set_prepare b v) Anything
set_prepare-Asserts b v =
    never-Asserts (set_prepare b v) Anything (set_prepare_typed b v) (λ _ _. tt)

pub set_commit-Asserts : (b : Bitset) (v : ℕ) → Asserts (set_commit b v) Anything
set_commit-Asserts b v = never-Asserts (set_commit b v) Anything (set_commit_typed b v) (λ _ _. tt)

pub has_commit-Asserts : (b : Bitset) (v : ℕ) → Asserts (has_commit b v) Anything
has_commit-Asserts b v = never-Asserts (has_commit b v) Anything (has_commit_typed b v) (λ _ _. tt)
