-- ===== src/Broadcast/Missing/Stored.antt =====
-- What `getMissing` of broadcast/store.go returns, in terms of the blocks in the store.
use blockmania.Prelude.{
  ℕ, ◌+◌, ◌≤◌, ◌<◌, List, [], ◌∷◌, ◌++◌, length, true, false, ltb, ◌==◌, ==_iff, some, ◌≡◌, map,
  All-mono, refl, sym, ap, subst, ◌∙◌, ◌↔◌, Bool-cases, inl, inr, IsU64, add_u64, All, arith,
}
use mathlib.Core.List.{Memᴰ, append_assoc}
use mathlib.Core.List.Memᴰ.{head, tail}
use blockmania.Consensus.Block.{BlockId}
use blockmania.Lexinum.{encode}
use blockmania.Lexinum.Sorting.{less}
use blockmania.Broadcast.Database.{Database, IsIterator, IsVisited}
use blockmania.Broadcast.Keys.{block_prefix, encode_block_id, block_key}
use blockmania.Broadcast.Keys.Separated.{block_key-injective}
use blockmania.Broadcast.Replies.{returned}
use blockmania.Broadcast.Store.{BlockStore}
use blockmania.Broadcast.Missing.{node_prefix, get_missing}
use blockmania.Broadcast.Missing.Gaps.{contains, contains-within}
use blockmania.Broadcast.Missing.Complete.{Ascends, rounds_of, IsMissing, get_missing-IsMissing}
use blockmania.Broadcast.Missing.Keyed.{
  HasRound, IsBlockOf, less-start, ids_in, map-ids_in, ids_in-Ascends,
}

-- The rounds are those above `since`, up to the last one looked at, of which the node has no block in
-- the store. All stored rounds were looked at if there are no more than the limit, and the last one
-- looked at is not above all of them.
pub record IsExact {D : Type 0} (db : Database D) (d : D) (node since limit : ℕ) (r : List ℕ × ℕ)
    : Type 0 where
  pub missing :
      (k : ℕ) → (contains k r.0 ≡ true) ↔ ((since < k) × (k ≤ r.1) × ¬ HasRound db d node k)
  pub number : length r.0 ≤ limit + 1
  pub least : since ≤ r.1
  pub whole : length r.0 ≤ limit → (k : ℕ) → HasRound db d node k → k ≤ r.1
  pub most : (n : ℕ) → since ≤ n → ((k : ℕ) → HasRound db d node k → k ≤ n) → r.1 ≤ n

module _ {D : Type 0} (db : Database D) (it : IsIterator db) (d : D) (node since : ℕ)
    (node_fits : IsU64 node) (next_fits : IsU64 (since + 1))
    (known : (rest content : List ℕ)
      → db.get (node_prefix node ++ rest) d ≡ some content
      → IsBlockOf node (node_prefix node ++ rest)) where
  abbrev start : List ℕ
  start = node_prefix node ++ encode (since + 1)

  abbrev Visited : List ℕ → Type 0
  Visited = IsVisited db (node_prefix node) start d

  visited_blocks : (keys : List (List ℕ)) → All Visited keys → All (IsBlockOf node) keys
  visited_blocks [] v = tt
  visited_blocks (key ∷ keys) (v, others) = (
    subst (IsBlockOf node) (sym v.behind)
        (known v.rest v.content (subst (λ k. db.get k d ≡ some v.content) v.behind v.there)),
    visited_blocks keys others,
  )

  Visited-above :
      (keys : List (List ℕ)) (v : All Visited keys) (h : All (IsBlockOf node) keys)
      → All (λ round. since < round) (rounds_of (ids_in node node_fits keys h))
  Visited-above [] v h = tt
  Visited-above (key ∷ keys) (v, vs) (block, others) =
      let order =
        sym (less-start block.id node (since + 1) block.own (omega (arith, block.room)) next_fits)
        ∙ ap (λ k. less k start) (sym block.spelt)
        ∙ v.from in
      (ground arith, Visited-above keys vs others)

  stored_round :
      (id : BlockId) (key content : List ℕ)
      → id.node ≡ node
      → IsU64 id.round
      → key ≡ block_key id
      → db.get key d ≡ some content
      → HasRound db d node id.round
  stored_round id key content own fits spelt there =
      (fits, id.hash, content, rw (sym own) (ap (λ k. db.get k d) (sym spelt) ∙ there))

  visited_round :
      (k : ℕ) (keys : List (List ℕ)) (v : All Visited keys) (h : All (IsBlockOf node) keys)
      → contains k (rounds_of (ids_in node node_fits keys h)) ≡ true
      → HasRound db d node k
  visited_round k [] v h e = cc
  visited_round k (key ∷ keys) (v, vs) (block, others) e = elim (Bool-cases (block.id.round == k)) [
    | inl same ↦ subst (HasRound db d node) ((==_iff block.id.round k).0 same) (
        stored_round block.id key v.content block.own (omega (arith, block.room)) block.spelt
          v.there)
    | inr other ↦ visited_round k keys vs others (ground arith)
  ]

  contains_round :
      (id : BlockId) (keys : List (List ℕ)) (h : All (IsBlockOf node) keys)
      → id.node ≡ node
      → IsU64 id.round
      → Memᴰ (block_key id) keys
      → contains id.round (rounds_of (ids_in node node_fits keys h)) ≡ true
  contains_round id [] h own fits m = elim m [ ]
  contains_round id (key ∷ keys) (block, others) own fits (head e) =
      let same : id ≡ block.id =
        block_key-injective id block.id (omega (arith, own)) fits (omega (arith, block.own))
          (omega (arith, block.room)) (e ∙ block.spelt) in
      let round : id.round ≡ block.id.round = ap (λ i. i.round) same in ground arith
  contains_round id (key ∷ keys) (block, others) own fits (tail m) =
      let later = contains_round id keys others own fits m in ground arith

  abbrev keys : List (List ℕ)
  keys = db.keys_from (node_prefix node) start d

  abbrev blocks : All (IsBlockOf node) keys
  blocks = visited_blocks keys (it.visited (node_prefix node) start d)

  abbrev ids : List BlockId
  ids = ids_in node node_fits keys blocks

  ids_ascend : Ascends since ids
  ids_ascend =
      ids_in-Ascends node node_fits since keys blocks next_fits
        (it.sorted (node_prefix node) start d)
        (All-mono (λ round. since < round) (λ round. since ≤ round) (λ round h. omega arith)
          (rounds_of ids) (Visited-above keys (it.visited (node_prefix node) start d) blocks))

  HasRound-contains : (k : ℕ) → since < k → HasRound db d node k → contains k (rounds_of ids) ≡ true
  unfolding block_key encode_block_id
  HasRound-contains k later (fits, hash, content, there) =
      let id : BlockId = record { hash = hash; node = node; round = k } in
      let rest = encode k ++ (0 ∷ hash) in
      contains_round id keys blocks refl fits (
        it.complete (node_prefix node) start d (block_key id) (record {
          rest = rest;
          behind =
              ap (λ bytes. block_prefix ∷ bytes) (sym (append_assoc (encode node) (0 ∷ []) rest));
          from = less-start id node (since + 1) refl fits next_fits ∙ ground arith;
          content = content;
          there = there;
        }))

  -- The first block that the iterator comes to.
  abbrev First : List (List ℕ) → Type 0
  First ks =
      (id : BlockId) × (others : List BlockId) × (ks ≡ map block_key (id ∷ others))
      × HasRound db d node id.round
      × (since < id.round)

  First-of :
      (k : ℕ) (ks : List (List ℕ)) (v : All Visited ks) (h : All (IsBlockOf node) ks)
      → contains k (rounds_of (ids_in node node_fits ks h)) ≡ true
      → First ks
  First-of k [] v h e = cc
  First-of k (key ∷ ks) (v, vs) (block, others) e = (
    block.id,
    ids_in node node_fits ks others,
    map-ids_in node node_fits (key ∷ ks) (block, others),
    stored_round block.id key v.content block.own (omega (arith, block.room)) block.spelt v.there,
    (Visited-above (key ∷ ks) (v, vs) (block, others)).0,
  )

  pub First-above : (k : ℕ) → since < k → HasRound db d node k → First keys
  First-above k later there =
      First-of k keys (it.visited (node_prefix node) start d) blocks
        (HasRound-contains k later there)

  rounds_within :
      (n : ℕ) (keys : List (List ℕ)) (v : All Visited keys) (h : All (IsBlockOf node) keys)
      → ((k : ℕ) → HasRound db d node k → k ≤ n)
      → All (λ round. round ≤ n) (rounds_of (ids_in node node_fits keys h))
  rounds_within n [] v h most = tt
  rounds_within n (key ∷ keys) (v, vs) (block, others) most = (
    most block.id.round (
        stored_round block.id key v.content block.own (omega (arith, block.room)) block.spelt
          v.there),
    rounds_within n keys vs others most,
  )

  IsMissing-IsExact :
      (limit : ℕ) (r : List ℕ × ℕ) → IsMissing since ids limit 0 r → IsExact db d node since limit r
  IsMissing-IsExact limit r m =
      let visited = it.visited (node_prefix node) start d in
      record {
        missing = λ k. (
          λ e.
              let parts = sym (m.member k) ∙ e in
              (
                ground arith,
                ground arith,
                λ there.
                    let stored = HasRound-contains k (ground arith) there in absurd (ground arith),
              ),
          λ (later, within, none_there). elim (Bool-cases (contains k (rounds_of ids))) [
            | inl there ↦ absurd (none_there (visited_round k keys visited blocks there))
            | inr not_there ↦ let e = m.member k in ground arith
          ],
        );
        number = omega (arith, m.number);
        least = m.least;
        whole = λ few k there. elim (Bool-cases (ltb since k)) [
          | inl later ↦
              contains-within k r.1 (rounds_of ids) (m.whole (omega arith))
                (HasRound-contains k (ground arith) there)
          | inr early ↦ let least = m.least in ground arith
        ];
        most = λ n above h. m.most n above (rounds_within n keys visited blocks h);
      }

-- On an open store of a database whose iterator visits the stored keys in the order of their bytes, and
-- where each stored key with the prefix of the node's blocks is the key of a block of that node,
-- `getMissing` returns exactly the rounds above `since`, up to the last one that it looked at, of which
-- the store has no block of the node, and at most one more than the limit; if it returns no more than
-- the limit, it looked at every stored round. The node, the round after `since` and the one after each
-- stored round are below 2 ^ 64.
pub get_missing-IsExact :
    {D : Type 0} (db : Database D) (s : BlockStore D) (node since limit : ℕ)
    → IsIterator db
    → s.closed ≡ false
    → IsU64 node
    → IsU64 (since + 1)
    → ((rest content : List ℕ)
        → db.get (node_prefix node ++ rest) s.content ≡ some content
        → IsBlockOf node (node_prefix node ++ rest))
    → (r : List ℕ × ℕ) × (get_missing db s node since limit ≡ returned r)
      × IsExact db s.content node since limit r
get_missing-IsExact db s node since limit it is_open node_fits next_fits known =
    let d = s.content in
    let next : add_u64 since 1 ≡ since + 1 = omega arith in
    let visited =
      map-ids_in node node_fits (keys db it d node since node_fits next_fits known)
        (blocks db it d node since node_fits next_fits known) in
    let (r, done, m) =
      get_missing-IsMissing db s node since limit (ids db it d node since node_fits next_fits known)
        is_open (rw next visited) (ids_ascend db it d node since node_fits next_fits known) in
    (r, done, IsMissing-IsExact db it d node since node_fits next_fits known limit r m)
