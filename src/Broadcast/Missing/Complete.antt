-- ===== src/Broadcast/Missing/Complete.antt =====
-- What `getMissing` returns.
use blockmania.Prelude.{
  ℕ, ◌+◌, ◌-◌, ◌≤◌, ◌<◌, List, [], ◌∷◌, ◌++◌, map, length, length-append, Bool, false, ◌||◌, ◌&&◌,
  not, ltb, leb, ◌==◌, ◌≡◌, refl, ap, ◌∙◌, Bool-cases, inl, inr, IsU64, All, add_u64, arith,
}
use blockmania.Consensus.Block.{BlockId}
use blockmania.Lexinum.{encode, value}
use blockmania.Broadcast.Database.{Database}
use blockmania.Broadcast.Keys.{block_prefix, block_key, decode_block_round}
use blockmania.Broadcast.Keys.Separated.{decode_block_round-encode_block_id}
use blockmania.Broadcast.Replies.{returned}
use blockmania.Broadcast.Store.{BlockStore}
use blockmania.Broadcast.Missing.{fill_gap, missing_from, node_prefix, get_missing}
use blockmania.Broadcast.Missing.Gaps.{contains, fill_gap-IsGap}

abbrev pub rounds_of : List BlockId → List ℕ
rounds_of [] = []
rounds_of (id ∷ ids) = id.round ∷ rounds_of ids

-- The rounds do not fall from one block to the next, and none is below `since`; the next round fits
-- 64 bits wherever a block follows.
abbrev pub Ascends : ℕ → List BlockId → Type 0
Ascends since [] = Unit {0}
Ascends since (id ∷ ids) =
    (since ≤ id.round) × IsU64 (since + 1) × IsU64 id.round × Ascends id.round ids

-- The rounds are those above `since`, up to the last one looked at, that have no block.
pub record IsMissing (since : ℕ) (ids : List BlockId) (limit added : ℕ) (r : List ℕ × ℕ)
    : Type 0 where
  pub member :
      (k : ℕ) → contains k r.0 ≡ (ltb since k && (leb k r.1 && not (contains k (rounds_of ids))))
  pub least : since ≤ r.1
  pub number : added + length r.0 ≤ limit + 1
  pub whole : added + length r.0 ≤ limit → All (λ round. round ≤ r.1) (rounds_of ids)
  pub most : (n : ℕ) → since ≤ n → All (λ round. round ≤ n) (rounds_of ids) → r.1 ≤ n

contains-append :
    (k : ℕ) (xs ys : List ℕ) → contains k (xs ++ ys) ≡ (contains k xs || contains k ys)
contains-append k [] ys = refl
contains-append k (x ∷ xs) ys = ground (arith, contains-append k xs ys)

Ascends-above :
    (since k : ℕ) (ids : List BlockId)
    → Ascends since ids
    → k < since
    → contains k (rounds_of ids) ≡ false
Ascends-above since k [] up h = refl
Ascends-above since k (id ∷ ids) up h =
    let rise = up.0 in let others = Ascends-above id.round k ids up.3 (omega arith) in ground arith

pub decode_block_round-block_key :
    (id : BlockId) → IsU64 id.round → decode_block_round (block_key id) ≡ value id.round
unfolding block_key
decode_block_round-block_key id fits = decode_block_round-encode_block_id block_prefix id fits

-- The gap before a block where the limit was hit.
cut_member :
    (since latest r k : ℕ) (later : Bool)
    → latest < r
    → (k < r → later ≡ false)
    → (ltb since k && leb k latest) ≡ (ltb since k && (leb k latest && not (r == k || later)))
cut_member since latest r k later below above = ground (arith, above)

-- The whole gap before a block, and what is missing behind the block.
joined_member :
    (since latest r last k : ℕ) (later : Bool)
    → latest ≤ r
    → r ≤ latest + 1
    → since ≤ latest
    → (latest ≡ r → since ≡ r)
    → r ≤ last
    → (k < r → later ≡ false)
    → ((ltb since k && leb k latest) || (ltb r k && (leb k last && not later)))
      ≡ (ltb since k && (leb k last && not (r == k || later)))
joined_member since latest r last k later below next begun rise least above =
    ground (arith, above, rise)

missing_from-IsMissing :
    (ids : List BlockId) (limit since added : ℕ)
    → Ascends since ids
    → added ≤ limit
    → (r : List ℕ × ℕ) × (missing_from limit (map block_key ids) since added ≡ returned r)
      × IsMissing since ids limit added r
unfolding missing_from
missing_from-IsMissing [] limit since added up room = (
  ([], since),
  refl,
  record {
    member = λ k. ground arith;
    least = omega arith;
    number = omega arith;
    whole = λ h. tt;
    most = λ n h below. h;
  },
)
missing_from-IsMissing (id ∷ ids) limit since added up room =
    let (rise, next_fits, fits, others) = up in
    let turns = id.round - (since + 1) in
    let gap = fill_gap turns (since + 1) limit since added in
    let g = fill_gap-IsGap turns limit since added in
    let first : add_u64 since 1 ≡ since + 1 = omega arith in
    let least = g.least in
    let most = g.most in
    let number = g.room room in
    elim (Bool-cases gap.full) [
      | inl full ↦ (
        (gap.rounds, gap.latest),
        rw (decode_block_round-block_key id fits, first, full) refl,
        record {
          member = λ k.
              g.member k
              ∙ cut_member since gap.latest id.round k (contains k (rounds_of ids))
                  (omega (arith, g.cut full)) (Ascends-above id.round k ids others);
          least = g.least;
          number = number;
          whole = λ h. absurd (omega (arith, g.filled room full));
          most = λ n h below. let b = below.0 in omega (arith, g.cut full);
        },
      )
      | inr whole ↦
          let (r, done, m) =
            missing_from-IsMissing ids limit id.round gap.added others (g.below room whole) in
          (
            (gap.rounds ++ r.0, r.1),
            rw (decode_block_round-block_key id fits, first, whole, done) refl,
            record {
              member = λ k.
                  contains-append k gap.rounds r.0
                  ∙ ap (λ (b : Bool). b || contains k r.0) (g.member k)
                  ∙ ap (λ (b : Bool). (ltb since k && leb k gap.latest) || b) (m.member k)
                  ∙ joined_member since gap.latest id.round r.1 k (contains k (rounds_of ids))
                      (omega (arith, g.whole whole)) (omega (arith, g.whole whole)) g.least
                      (λ e. omega (arith, g.whole whole)) m.least
                      (Ascends-above id.round k ids others);
              least = omega (arith, m.least);
              number = omega (
                arith,
                length-append gap.rounds r.0,
                m.number,
                g.count whole,
                g.whole whole,
                g.number,
              );
              whole = λ h. (
                m.least,
                m.whole (
                    omega (
                      arith,
                      length-append gap.rounds r.0,
                      g.count whole,
                      g.number,
                      g.whole whole,
                    )),
              );
              most = λ n h below. m.most n below.0 below.1;
            },
          )
    ]

-- For keys of blocks whose rounds do not fall, none below `since`, the rounds are exactly those above it
-- that have no block.
pub get_missing-IsMissing :
    {D : Type 0} (db : Database D) (s : BlockStore D) (node since limit : ℕ) (ids : List BlockId)
    → s.closed ≡ false
    → db.keys_from (node_prefix node) (node_prefix node ++ encode (add_u64 since 1)) s.content
      ≡ map block_key ids
    → Ascends since ids
    → (r : List ℕ × ℕ) × (get_missing db s node since limit ≡ returned r)
      × IsMissing since ids limit 0 r
unfolding get_missing
get_missing-IsMissing db s node since limit ids is_open visited up =
    let (r, done, m) = missing_from-IsMissing ids limit since 0 up (omega arith) in
    (r, rw (is_open, visited) done, m)
