-- ===== src/Broadcast/Missing.antt =====
-- `getMissing` of broadcast/store.go: the rounds of a node that lie between the stored ones.
pub mod Gaps
pub mod Complete
pub mod Keyed
pub mod Stored
use blockmania.Prelude.{
  ℕ, zero, suc, ◌+◌, ◌-◌, List, [], ◌∷◌, ◌++◌, Bool, true, false, ◌==◌, if◌then◌else◌, add_u64,
}
use blockmania.Lexinum.{encode}
use blockmania.Broadcast.Database.{Database}
use blockmania.Broadcast.Keys.{block_prefix, decode_block_round}
use blockmania.Broadcast.Replies.{Reply, returned, ◌>>=◌, of_decoded}
use blockmania.Broadcast.Store.{BlockStore, with_open}

-- What the inner loop leaves in `rounds`, `latest` and `added`, and whether it hit the limit.
pub record Gap : Type 0 where
  pub rounds : List ℕ
  pub latest : ℕ
  pub added : ℕ
  pub full : Bool

-- `for i := latest + 1; i < next; i++`, which makes `next - i` turns at most.
unfoldable pub fill_gap : ℕ → ℕ → ℕ → ℕ → ℕ → Gap
fill_gap zero i limit latest added = record {
  rounds = [];
  latest = latest;
  added = added;
  full = false;
}
fill_gap (suc turns) i limit latest added =
    let rest = fill_gap turns (i + 1) limit i (added + 1) in
    if added == limit
    then record { rounds = i ∷ []; latest = i; added = added; full = true }
    else record rest { rounds = i ∷ rest.rounds }

-- The loop over the keys, in the order of the iterator.
unfoldable pub missing_from : ℕ → List (List ℕ) → ℕ → ℕ → Reply (List ℕ × ℕ)
missing_from limit [] latest added = returned ([], latest)
missing_from limit (key ∷ keys) latest added = of_decoded (decode_block_round key) >>= λ next.
    let first = add_u64 latest 1 in
    let gap = fill_gap (next - first) first limit latest added in
    if gap.full
    then returned (gap.rounds, gap.latest)
    else missing_from limit keys next gap.added >>= λ (rounds, last).
        returned (gap.rounds ++ rounds, last)

-- The prefix of a node's blocks.
abbrev pub node_prefix : ℕ → List ℕ
node_prefix node = block_prefix ∷ (encode node ++ (0 ∷ []))

module _ {D : Type 0} (db : Database D) where
  -- `getMissing`.
  unfoldable pub get_missing : BlockStore D → ℕ → ℕ → ℕ → Reply (List ℕ × ℕ)
  get_missing s node since limit = with_open s λ d.
      missing_from limit
        (db.keys_from (node_prefix node) (node_prefix node ++ encode (add_u64 since 1)) d) since 0
