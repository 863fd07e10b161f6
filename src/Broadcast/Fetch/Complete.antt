-- ===== src/Broadcast/Fetch/Complete.antt =====
-- A complete reply leaves nothing to ask for.
use blockmania.Prelude.{
  ℕ, ◌<◌, List, [], ◌∷◌, Option, none, some, Map, find-put_self, nat_key, Bool, true, false, ◌==◌,
  ◌≡◌, refl, ap, ◌∙◌, All, maybe, if◌then◌else◌, arith,
}
use blockmania.Consensus.Block.{BlockId}
use blockmania.Broadcast.Wire.{SignedData, Codec}
use blockmania.Broadcast.Database.{Database}
use blockmania.Broadcast.Depgraph.{BlockData}
use blockmania.Broadcast.Cache.{ReceivedInfo, get_received, set_sequence}
use blockmania.Broadcast.Replies.{returned}
use blockmania.Broadcast.Keys.{block_key, included_key, not_included_key}
use blockmania.Broadcast.Store.{BlockStore, set_block}
use blockmania.Broadcast.Checks.{Crypto, accepted, check_block}
use blockmania.Broadcast.Missing.Gaps.{contains}
use blockmania.Broadcast.Service.{Service, taken, after_block, take_block, process_signed}
use blockmania.Broadcast.Fetch.{fetched, split_seen, move_sequence, take_reply, receive_reply}

-- The last round of a list.
abbrev pub last_of : ℕ → List ℕ → ℕ
last_of r [] = r
last_of r (s ∷ rs) = last_of s rs

contains_self : (k : ℕ) (rs : List ℕ) → contains k (k ∷ rs) ≡ true
contains_self k rs = ground arith

-- Every round is among those that were seen.
abbrev AllSeen : List ℕ → List ℕ → Type 0
AllSeen seen rounds = All (λ r. contains r seen ≡ true) rounds

AllSeen-weaken : (x : ℕ) (seen rounds : List ℕ) → AllSeen seen rounds → AllSeen (x ∷ seen) rounds
AllSeen-weaken x seen [] h = tt
AllSeen-weaken x seen (r ∷ rs) h = let here = h.0 in (ground arith, AllSeen-weaken x seen rs h.1)

AllSeen-refl : (rounds : List ℕ) → AllSeen rounds rounds
AllSeen-refl [] = tt
AllSeen-refl (r ∷ rs) = (contains_self r rs, AllSeen-weaken r rs rs (AllSeen-refl rs))

split_seen-all :
    (seen rounds : List ℕ) (latest : ℕ)
    → AllSeen seen rounds
    → split_seen seen rounds latest ≡ (last_of latest rounds, [])
unfolding split_seen
split_seen-all seen [] latest h = refl
split_seen-all seen (r ∷ rs) latest h =
    let here = h.0 in rw (here, split_seen-all seen rs r h.1) refl

last_of-pos : (r : ℕ) (rs : List ℕ) → 0 < r → All (λ s. 0 < s) rs → 0 < last_of r rs
last_of-pos r [] h k = h
last_of-pos r (s ∷ rs) h k = last_of-pos s rs k.0 k.1

get_received-set_sequence :
    (r : Map ℕ ReceivedInfo) (peer round : ℕ)
    → (get_received (set_sequence r peer round) peer).sequence ≡ round
unfolding set_sequence get_received
get_received-set_sequence r peer round =
    ground (arith, find-put_self peer (record (get_received r peer) { sequence = round }) r)

module _ {D K : Type 0} (db : Database D) (codec : Codec SignedData) (crypto : Crypto K)
    (keys : Map ℕ K) where
  -- The blocks are those of the rounds, in this order, and pass every check.
  abbrev pub AreBlocksOf : List SignedData → List ℕ → Type 0
  AreBlocksOf [] [] = Unit
  AreBlocksOf [] (r ∷ rs) = ⊥
  AreBlocksOf (b ∷ bs) [] = ⊥
  AreBlocksOf (b ∷ bs) (r ∷ rs) =
      (info : BlockData) × (check_block crypto keys b ≡ accepted info)
      × (info.id.round ≡ r)
      × AreBlocksOf bs rs

  set_block-open :
      (s : BlockStore D) (id : BlockId) (block : SignedData)
      → s.closed ≡ false
      → (s' : BlockStore D) × (set_block db codec s id block ≡ returned s') × (s'.closed ≡ false)
  unfolding set_block
  set_block-open s id block is_open =
      let (s', done, still) = either (db.get (included_key id) s.content) (
        db.put_key (block_key id) (codec.marshal block) (
          db.put_key (not_included_key id) [] (db.put_key (included_key id) (0 ∷ []) s.content))) in
      (s', if-false s.closed _ _ is_open ∙ done, still)
    where
      if-false : {A : Type 0} (b : Bool) (x y : A) → b ≡ false → (if b then x else y) ≡ y
      if-false true x y e = cc
      if-false false x y e = refl

      either :
          {A : Type 0} (o : Option A) (d : D)
          → (s' : BlockStore D) × (maybe o (returned (record s { content = d })) (λ _. returned s)
              ≡ returned s')
            × (s'.closed ≡ false)
      either none d = (record s { content = d }, refl, is_open)
      either (some a) d = (s, refl, is_open)

  pub process_signed-taken :
      (s : Service D) (signed : SignedData) (info : BlockData)
      → s.store.closed ≡ false
      → check_block crypto keys signed ≡ accepted info
      → (s' : Service D) × (process_signed db codec crypto keys s signed ≡ taken s' info.id.round)
        × (s'.store.closed ≡ false)
  unfolding process_signed take_block
  process_signed-taken s signed info is_open checked =
      let (store, done, still) = set_block-open s.store info.id signed is_open in
      (after_block db codec s info store, rw (checked, done) refl, still)

  take_reply-all :
      (s : Service D) (blocks : List SignedData) (rounds : List ℕ)
      → s.store.closed ≡ false
      → AreBlocksOf blocks rounds
      → (s' : Service D) × (take_reply db codec crypto keys s blocks ≡ some (s', rounds))
  unfolding take_reply
  take_reply-all s [] [] is_open h = (s, refl)
  take_reply-all s [] (r ∷ rs) is_open h = elim h [ ]
  take_reply-all s (b ∷ bs) [] is_open h = elim h [ ]
  take_reply-all s (b ∷ bs) (r ∷ rs) is_open (info, checked, of_round, others) =
      let (s1, one, still) = process_signed-taken s b info is_open checked in
      let (s2, rest) = take_reply-all s1 bs rs still others in
      (s2, rw (one, rest) (ap (λ (k : ℕ). some (s2, k ∷ rs)) of_round))

  -- A peer that answers with a valid block of every round that was asked for, in order, none of them
  -- round 0, leaves nothing to ask for: on an open store the turn does not end the process, the next one
  -- looks for new gaps, and the peer's sequence stands at the last round that was asked for.
  pub receive_reply-fetched :
      (s : Service D) (peer round latest : ℕ) (rounds : List ℕ) (blocks : List SignedData)
      → s.store.closed ≡ false
      → 0 < round
      → All (λ r. 0 < r) rounds
      → AreBlocksOf blocks (round ∷ rounds)
      → (s' : Service D) × (receive_reply db codec crypto keys s peer
            (record { rounds = round ∷ rounds; latest = latest })
            blocks
          ≡ fetched s' (record { rounds = []; latest = latest }))
        × ((get_received s'.received peer).sequence ≡ last_of round rounds)
  unfolding receive_reply
  receive_reply-fetched s peer round latest rounds [] is_open pos all_pos h = elim h [ ]
  receive_reply-fetched s peer round latest rounds (b ∷ bs) is_open pos all_pos h =
      let (s1, taken_all) = take_reply-all s (b ∷ bs) (round ∷ rounds) is_open h in
      let split =
        split_seen-all (round ∷ rounds) (round ∷ rounds) 0 (AllSeen-refl (round ∷ rounds)) in
      let not_zero : (last_of round rounds == 0) ≡ false =
        positive (last_of round rounds) (last_of-pos round rounds pos all_pos) in
      (
        move_sequence s1 peer (last_of round rounds),
        rw (taken_all, split, not_zero) refl,
        get_received-set_sequence s1.received peer (last_of round rounds),
      )
    where
      positive : (n : ℕ) → 0 < n → (n == 0) ≡ false
      positive n h = ground arith
