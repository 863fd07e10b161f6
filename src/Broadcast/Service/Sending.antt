-- ===== src/Broadcast/Service/Sending.antt =====
-- What `getUnsent` sends to a peer.
use blockmania.Prelude.{
  ℕ, zero, suc, ◌+◌, ◌-◌, ◌≤◌, ◌<◌, List, [], ◌∷◌, ◌++◌, length, Option, some, true, false, ltb,
  leb, ltb→lt, ◌==◌, Bool-cases, ◌⊎◌, inl, inr, IsU64, add_u64, ◌≡◌, refl, sym, ap, subst, ◌∙◌,
  arith,
}
use mathlib.Core.List.{append-nil, append_assoc}
use blockmania.Broadcast.Wire.{SignedData, Codec, data_size}
use blockmania.Broadcast.Database.{Database}
use blockmania.Broadcast.Service.{Service, unsent, own_block, unsent_from, next_unsent, get_unsent}
use blockmania.Broadcast.Service.Cached.{
  read_own, SameBlocks, SameBlocks-refl, SameBlocks-trans, own_block_lem,
}

abbrev pub sizes : List SignedData → ℕ
sizes [] = 0
sizes (b ∷ bs) = data_size b + sizes bs

-- The blocks are those of the rounds from `i` on.
abbrev pub AreFrom : (ℕ → Option SignedData) → ℕ → List SignedData → Type 0
AreFrom own i [] = Unit {0}
AreFrom own i (b ∷ bs) = (own i ≡ some b) × AreFrom own (i + 1) bs

-- Each of `turns` rounds from `i` on has a block that fits a message.
abbrev pub Sendable : (ℕ → Option SignedData) → ℕ → ℕ → ℕ → Type 0
Sendable own size zero i = Unit {0}
Sendable own size (suc turns) i =
    ((b : SignedData) × (own i ≡ some b) × (data_size b ≤ size)) × Sendable own size turns (i + 1)

-- The blocks of the rounds from `i` on that fit into `room`, out of `turns`: as many as there can be.
pub record IsBatch (own : ℕ → Option SignedData) (room turns i : ℕ) (blocks : List SignedData)
    : Type 0 where
  pub in_order : AreFrom own i blocks
  pub fits : sizes blocks ≤ room
  pub few : length blocks ≤ turns
  pub maximal :
      (length blocks ≡ turns)
      ⊎ ((b : SignedData) × (own (i + length blocks) ≡ some b)
          × (room < sizes blocks + data_size b))

pub some-injective : (a b : SignedData) → some a ≡ some b → a ≡ b
some-injective a b e = cc

IsBatch-progress :
    (own : ℕ → Option SignedData) (room turns i : ℕ) (blocks : List SignedData)
    → 0 < turns
    → Sendable own room turns i
    → IsBatch own room turns i blocks
    → 0 < length blocks
IsBatch-progress own room turns i (b ∷ blocks) some_turn all batch = omega arith
IsBatch-progress own room zero i [] some_turn all batch = elim some_turn [ ]
IsBatch-progress own room (suc turns) i [] some_turn all batch = elim batch.maximal [
  | inl e ↦ omega (arith, e)
  | inr (c, next, more) ↦
      let e : all.0.0 ≡ c =
        some-injective all.0.0 c (sym all.0.1 ∙ subst (λ k. own k ≡ some c) (omega arith) next) in
      let same : data_size all.0.0 ≡ data_size c = ap data_size e in
      let small = all.0.2 in omega (arith, more, small, same)
]

module _ {D : Type 0} (db : Database D) (codec : Codec SignedData) where
  unsent_from-IsBatch :
      (turns first i total limit : ℕ) (s : Service D) (own : ℕ → Option SignedData)
      (sent : List SignedData)
      → s.max_payload ≡ limit
      → IsU64 (s.round + 1)
      → ((j : ℕ) → read_own db codec s j ≡ own j)
      → Sendable own limit turns i
      → total ≤ limit
      → (i ≡ first → total ≡ 0)
      → first ≤ i
      → (blocks : List SignedData) × ((unsent_from db codec turns first i total s sent).1
          ≡ unsent (sent ++ blocks))
        × IsBatch own (limit - total) turns i blocks
        × SameBlocks db codec s (unsent_from db codec turns first i total s sent).0
  unfolding unsent_from
  unsent_from-IsBatch zero first i total limit s own sent payload next same all room start least = (
    [],
    let no_wrap : (add_u64 s.round 1 == 0) ≡ false = ground arith in
        rw no_wrap (ap unsent (sym (append-nil sent))),
    record { in_order = tt; fits = omega arith; few = omega arith; maximal = inl refl },
    let no_wrap : (add_u64 s.round 1 == 0) ≡ false = ground arith in
        rw no_wrap (SameBlocks-refl db codec s),
  )
  unsent_from-IsBatch (suc turns) first i total limit s own sent payload next same all room start
        least =
      let ((b, there, small), others) = all in
      let (s', block) = own_block db codec s i in
      let (read, kept) = own_block_lem db codec s i in
      let here : (own_block db codec s i).1 ≡ some b = read ∙ same i ∙ there in
      elim (Bool-cases (ltb s.max_payload (total + data_size b))) [
        | inl over ↦
            let above = ltb→lt s.max_payload (total + data_size b) over in
            let later : (i == first) ≡ false = ground (arith, start, above) in
            rw (here, over, later)
              (
                [],
                ap unsent (sym (append-nil sent)),
                record {
                  in_order = tt;
                  fits = omega arith;
                  few = omega arith;
                  maximal =
                      inr
                        (b, subst (λ k. own k ≡ some b) (omega arith) there, omega (arith, above));
                },
                kept,
              )
        | inr within ↦
            let below : total + data_size b ≤ limit = ground arith in
            let (blocks, done, batch, still) =
              unsent_from-IsBatch turns first (i + 1) (total + data_size b) limit s' own
                (sent ++ (b ∷ [])) (ap (λ t. t.max_payload) kept.rest ∙ payload)
                (omega (arith, ap (λ t. t.round) kept.rest)) (λ j. kept.same j ∙ same j) others
                below (λ e. omega arith) (omega arith) in
            rw (here, within)
              (
                b ∷ blocks,
                done ∙ ap unsent (append_assoc sent (b ∷ []) blocks),
                record {
                  in_order = (there, batch.in_order);
                  fits = omega (arith, batch.fits, below);
                  few = omega (arith, batch.few);
                  maximal = elim batch.maximal [
                    | inl e ↦ inl (omega (arith, e))
                    | inr (c, next, more) ↦
                        inr (c, subst (λ k. own k ≡ some c) (omega arith) next, omega (arith, more))
                  ];
                },
                SameBlocks-trans db codec s s' _ kept still,
              )
      ]

  -- If the round after the current one is below 2 ^ 64, the peer lacks a block, and each block that it
  -- lacks is there, in the cache or else in the store, and fits a message, `getUnsent` sends at least one: the blocks from the first unsent round on, in order, that fit a message together, and no
  -- fewer than fit. What it does to the cache changes no later answer, and it changes nothing else.
  pub get_unsent-IsBatch :
      (s : Service D) (peer : ℕ)
      → IsU64 (s.round + 1)
      → next_unsent s peer ≤ s.round
      → Sendable
          (read_own db codec s)
          s.max_payload
          (s.round + 1 - next_unsent s peer)
          (next_unsent s peer)
      → (blocks : List SignedData) × ((get_unsent db codec s peer).1 ≡ unsent blocks)
        × (0 < length blocks)
        × IsBatch
            (read_own db codec s)
            s.max_payload
            (s.round + 1 - next_unsent s peer)
            (next_unsent s peer)
            blocks
        × SameBlocks db codec s (get_unsent db codec s peer).0
  unfolding get_unsent
  get_unsent-IsBatch s peer fits lacks all =
      let start = next_unsent s peer in
      let (blocks, done, batch, same) =
        unsent_from-IsBatch (s.round + 1 - start) start start 0 s.max_payload s
          (read_own db codec s) [] refl fits (λ j. refl) all (omega arith) (λ e. refl)
          (omega arith) in
      let there : leb start s.round ≡ true = ground arith in
      let fitting : IsBatch (read_own db codec s) s.max_payload (s.round + 1 - start) start blocks =
        subst (λ room. IsBatch (read_own db codec s) room (s.round + 1 - start) start blocks)
          (omega arith) batch in
      (
        blocks,
        rw there done,
        IsBatch-progress (read_own db codec s) s.max_payload (s.round + 1 - start) start blocks
            (omega arith) all fitting,
        fitting,
        rw there same,
      )
