-- ===== src/Consensus/Bitset.antt =====
-- The votes for one proposal (blockmania/bitset.go): a bit for each node among the prepares and among
-- the commits, 64 to a word. A slice of words is a list, and an index out of range is a panic.
pub mod Words
pub mod Votes
pub mod Cast
pub mod Returns
use blockmania.Prelude.{
  ℕ, zero, suc, ◌+◌, ◌/◌, ◌%◌, ◌^◌, bit_and, bit_or, List, [], ◌∷◌, Option, none, some, Bool, not,
  ◌==◌, get_elem?, set, replicate, Outcome, ok, fault, index_out_of_range, ◌>>=◌,
}

pub record Bitset : Type 0 where
  pub commits : List ℕ
  pub prepares : List ℕ

-- `bits.OnesCount64`: how many of the lowest `k` bits are set, at `k = 64`.
pub ones_count : ℕ → ℕ → ℕ
ones_count zero word = 0
ones_count (suc k) word = word % 2 + ones_count k (word / 2)

-- The loops of `commitCount` and `prepareCount`.
pub count_words : List ℕ → ℕ
count_words [] = 0
count_words (word ∷ words) = ones_count 64 word + count_words words

-- `words[int(v>>6)]`
abbrev pub index : List ℕ → ℕ → Outcome ℕ
index words i = elim (get_elem? words i) [ none ↦ fault index_out_of_range | some word ↦ ok word ]

-- `words[int(v>>6)]&(1<<(v&63)) != 0`
pub has_vote : List ℕ → ℕ → Outcome Bool
has_vote words v = do word ← index words (v / 64); ok (not (bit_and word (2 ^ (v % 64)) == 0))

-- `words[int(v>>6)] |= 1 << (v & 63)`
pub set_vote : List ℕ → ℕ → Outcome (List ℕ)
set_vote words v = do
  word ← index words (v / 64)
  ok (set words (v / 64) (bit_or word (2 ^ (v % 64))))

-- `clone`: both slices are copied.
unfoldable pub clone : Bitset → Bitset
clone b = record { commits = b.commits; prepares = b.prepares }

unfoldable pub commit_count : Bitset → ℕ
unfolding count_words ones_count
commit_count b = count_words b.commits

unfoldable pub prepare_count : Bitset → ℕ
unfolding count_words ones_count
prepare_count b = count_words b.prepares

unfoldable pub has_commit : Bitset → ℕ → Outcome Bool
unfolding has_vote
has_commit b v = has_vote b.commits v

unfoldable pub has_prepare : Bitset → ℕ → Outcome Bool
unfolding has_vote
has_prepare b v = has_vote b.prepares v

unfoldable pub set_commit : Bitset → ℕ → Outcome Bitset
unfolding set_vote
set_commit b v = do commits ← set_vote b.commits v; ok (record b { commits = commits })

unfoldable pub set_prepare : Bitset → ℕ → Outcome Bitset
unfolding set_vote
set_prepare b v = do prepares ← set_vote b.prepares v; ok (record b { prepares = prepares })

-- `newBitset`: `(size + 63) >> 6` words of zeros in each slice.
unfoldable pub new_bitset : ℕ → Bitset
new_bitset size = record {
  commits = replicate ((size + 63) / 64) 0;
  prepares = replicate ((size + 63) / 64) 0;
}
