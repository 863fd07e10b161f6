-- ===== src/Consensus/Bitset/Votes.antt =====
-- A bitset as a finite set of nodes.
use blockmania.Prelude.{
  ℕ, zero, suc, ◌+◌, ◌*◌, ◌/◌, ◌%◌, ◌^◌, ◌≤◌, ◌<◌, bit_or, List, [], ◌∷◌, some, Bool, false, not,
  ◌||◌, ◌==◌, if◌then◌else◌, length, get_elem?, set, replicate, ok, fault, index_out_of_range, ◌≡◌,
  ◌↔◌, refl, ◌∙◌, arith, ℕ_discrete, get_elem?-set_self, get_elem?-set_ne, get_elem?-some,
  get_elem?-none, get_elem?-replicate, length-set, length-replicate,
}
use blockmania.Consensus.Bitset.{
  Bitset, ones_count, count_words, has_vote, set_vote, set_prepare, prepare_count, set_commit,
  commit_count, new_bitset,
}
use blockmania.Consensus.Bitset.Words.{bit, bit-lt, bit-bit_or, ones-bit_or, bit_and-eq-zero}

abbrev pub contains : ℕ → List ℕ → Bool
contains v [] = false
contains v (x ∷ xs) = x == v || contains v xs

-- The set with `v` in it.
abbrev pub add : ℕ → List ℕ → List ℕ
add v s = if contains v s then s else v ∷ s

-- The words hold the set `s`: each node that they have room for answers as in `s`, and the number of
-- bits is the number of nodes.
pub record Represents (words : List ℕ) (s : List ℕ) : Type 0 where
  pub member : (v : ℕ) → v < 64 * length words → has_vote words v ≡ ok (contains v s)
  pub count : count_words words ≡ length s

count_words-set :
    (words : List ℕ) (i word w : ℕ)
    → get_elem? words i ≡ some word
    → count_words (set words i w) + ones_count 64 word ≡ count_words words + ones_count 64 w
unfolding count_words
count_words-set [] i word w h = cc
count_words-set (x ∷ words) zero word w h = ground arith
count_words-set (x ∷ words) (suc i) word w h = omega (arith, count_words-set words i word w h)

has_vote_lem :
    (words : List ℕ) (v word : ℕ)
    → get_elem? words (v / 64) ≡ some word
    → has_vote words v ≡ ok (not (bit word (v % 64) == 0))
unfolding has_vote
has_vote_lem words v word h = ground (arith, bit_and-eq-zero word (v % 64))

set_vote_lem :
    (words : List ℕ) (v word : ℕ)
    → get_elem? words (v / 64) ≡ some word
    → set_vote words v ≡ ok (set words (v / 64) (bit_or word (2 ^ (v % 64))))
unfolding set_vote
set_vote_lem words v word h = ground arith

-- A node's bit, by its word and its place in it.
same_place : (v u : ℕ) → v / 64 ≡ u / 64 → v % 64 ≡ u % 64 → v ≡ u
same_place v u h k = omega arith

contains-add : (v u : ℕ) (s : List ℕ) → contains u (add v s) ≡ (v == u || contains u s)
contains-add v u s = ground arith

module _ (words : List ℕ) (v word : ℕ) (found : get_elem? words (v / 64) ≡ some word) where
  abbrev updated : List ℕ
  updated = set words (v / 64) (bit_or word (2 ^ (v % 64)))

  has_vote-updated :
      (u : ℕ)
      → v < 64 * length words
      → u < 64 * length words
      → (b : Bool) × (has_vote words u ≡ ok b) × (has_vote updated u ≡ ok (v == u || b))
  has_vote-updated u hv hu = elim (ℕ_discrete (v / 64) (u / 64)) [
    | yes here ↦ (
      not (bit word (u % 64) == 0),
      has_vote_lem words u word (rw here at found),
      has_vote_lem updated u (bit_or word (2 ^ (v % 64)))
            (rw here (get_elem?-set_self words (u / 64) (bit_or word (2 ^ (v % 64))) (omega arith)))
          ∙ ground (arith, bit-bit_or word (v % 64) (u % 64), same_place v u),
    )
    | no apart ↦
        let (other, e) = get_elem?-some words (u / 64) (omega arith) in
        (
          not (bit other (u % 64) == 0),
          has_vote_lem words u other e,
          has_vote_lem updated u other (get_elem?-set_ne words (v / 64) (u / 64) _ apart ∙ e)
              ∙ ground arith,
        )
  ]

-- Setting the bit of a node that the words have room for succeeds, and adds the node to the set.
set_vote-Represents :
    (words : List ℕ) (s : List ℕ) (v : ℕ)
    → v < 64 * length words
    → Represents words s
    → (words' : List ℕ) × (set_vote words v ≡ ok words')
      × (length words' ≡ length words)
      × Represents words' (add v s)
set_vote-Represents words s v h r =
    let (word, e) = get_elem?-some words (v / 64) (omega arith) in
    let words' : List ℕ = updated words v word e in
    let lengths : length words' ≡ length words = length-set words (v / 64) _ in
    (
      words',
      set_vote_lem words v word e,
      lengths,
      record {
        member = λ u hu.
            let (b, old, new) = has_vote-updated words v word e u h (omega arith) in
            new ∙ ground (arith, r.member u (omega arith), contains-add v u s);
        count = ground (
          arith,
          count_words-set words (v / 64) word (bit_or word (2 ^ (v % 64))) e,
          ones-bit_or word (v % 64) (omega arith),
          bit-lt word (v % 64),
          has_vote_lem words v word e,
          r.member v h,
          r.count,
        );
      },
    )

zero-bit : (k : ℕ) → bit 0 k ≡ 0
unfolding bit
zero-bit zero = refl
zero-bit (suc k) = zero-bit k

has_vote-zeros : (n v : ℕ) → v < 64 * n → has_vote (replicate n 0) v ≡ ok false
has_vote-zeros n v h =
    has_vote_lem (replicate n 0) v 0 (get_elem?-replicate n (v / 64) 0 (omega arith))
    ∙ ground (arith, zero-bit (v % 64))

count_words-zeros : (n : ℕ) → count_words (replicate n 0) ≡ 0
unfolding count_words ones_count
count_words-zeros zero = refl
count_words-zeros (suc n) = omega (arith, count_words-zeros n)

-- A node that the words have no room for is an index out of range.
set_vote_out_of_range :
    (words : List ℕ) (v : ℕ)
    → 64 * length words ≤ v
    → (set_vote words v ≡ fault index_out_of_range) × (has_vote words v ≡ fault index_out_of_range)
unfolding set_vote has_vote
set_vote_out_of_range words v h = ground (arith, get_elem?-none words (v / 64) (omega arith))

-- The prepares of `b` are the nodes `ps` and its commits the nodes `cs`, with room for `n` nodes.
pub record Holds (b : Bitset) (n : ℕ) (ps cs : List ℕ) : Type 0 where
  pub prepares : Represents b.prepares ps
  pub commits : Represents b.commits cs
  pub prepare_room : n ≤ 64 * length b.prepares
  pub commit_room : n ≤ 64 * length b.commits

-- A new bitset for `size` nodes holds no votes and has room for the nodes 0 to `size - 1`.
pub new_bitset-Holds : (size : ℕ) → Holds (new_bitset size) size [] []
unfolding new_bitset
new_bitset-Holds size =
    let words = (size + 63) / 64 in
    let zeros : Represents (replicate words 0) [] = record {
      member = λ v h. has_vote-zeros words v (omega (arith, length-replicate {A = ℕ} words 0));
      count = count_words-zeros words;
    } in
    record {
      prepares = zeros;
      commits = zeros;
      prepare_room = omega (arith, length-replicate {A = ℕ} words 0);
      commit_room = omega (arith, length-replicate {A = ℕ} words 0);
    }

-- For a node below `n`, `set_prepare` succeeds, adds the node to the prepares, leaves the commits, and
-- `prepare_count` is then the number of distinct nodes that prepared.
pub set_prepare-Holds :
    (b : Bitset) (n : ℕ) (ps cs : List ℕ) (v : ℕ)
    → Holds b n ps cs
    → v < n
    → (b' : Bitset) × (set_prepare b v ≡ ok b')
      × Holds b' n (add v ps) cs
      × (prepare_count b' ≡ length (add v ps))
      × (commit_count b' ≡ length cs)
unfolding set_prepare prepare_count commit_count
set_prepare-Holds b n ps cs v h below =
    let room = h.prepare_room in
    let (words, done, same, r) = set_vote-Represents b.prepares ps v (omega arith) h.prepares in
    (
      record b { prepares = words },
      rw done,
      record {
        prepares = r;
        commits = h.commits;
        prepare_room = omega arith;
        commit_room = h.commit_room;
      },
      r.count,
      h.commits.count,
    )

-- The same for `set_commit`.
pub set_commit-Holds :
    (b : Bitset) (n : ℕ) (ps cs : List ℕ) (v : ℕ)
    → Holds b n ps cs
    → v < n
    → (b' : Bitset) × (set_commit b v ≡ ok b')
      × Holds b' n ps (add v cs)
      × (commit_count b' ≡ length (add v cs))
      × (prepare_count b' ≡ length ps)
unfolding set_commit prepare_count commit_count
set_commit-Holds b n ps cs v h below =
    let room = h.commit_room in
    let (words, done, same, r) = set_vote-Represents b.commits cs v (omega arith) h.commits in
    (
      record b { commits = words },
      rw done,
      record {
        prepares = h.prepares;
        commits = r;
        prepare_room = h.prepare_room;
        commit_room = omega arith;
      },
      r.count,
      h.prepares.count,
    )

-- The vote of node `size`, in a bitset made for `size` nodes, is an index out of range exactly when
-- `size` is a multiple of 64.
pub set_prepare_last_node :
    (size : ℕ) → (set_prepare (new_bitset size) size ≡ fault index_out_of_range) ↔ (size % 64 ≡ 0)
unfolding set_prepare set_vote new_bitset
set_prepare_last_node size = (
  λ crash. elim (ℕ_discrete (size % 64) 0) [
    | yes multiple ↦ multiple
    | no other ↦
        absurd (
          ground
            (arith, get_elem?-replicate {A = ℕ} ((size + 63) / 64) (size / 64) 0 (omega arith)))
  ],
  λ multiple. ground (
    arith,
    get_elem?-none {A = ℕ} (replicate ((size + 63) / 64) 0) (size / 64)
        (omega (arith, length-replicate {A = ℕ} ((size + 63) / 64) 0)),
  ),
)
