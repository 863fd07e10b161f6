-- ===== src/Broadcast/Exchange/Accepting.antt =====
-- The blocks that a peer accepts and acknowledges.
use blockmania.Prelude.{
  ℕ, zero, suc, ◌+◌, ◌≤◌, List, [], ◌∷◌, Option, some, Map, nat_key, length, false, ◌≡◌, ap, sym,
  subst, ◌∙◌, arith,
}
use blockmania.Broadcast.Wire.{SignedData, Codec, data_size}
use blockmania.Broadcast.Database.{Database}
use blockmania.Broadcast.Depgraph.{BlockData}
use blockmania.Broadcast.Checks.{Crypto, accepted, check_block}
use blockmania.Broadcast.Service.{Service, ack, broadcast_from, handle_broadcast_list}
use blockmania.Broadcast.Service.Sending.{AreFrom, Sendable, some-injective}
use blockmania.Broadcast.Fetch.Complete.{process_signed-taken}

module _ {K : Type 0} (crypto : Crypto K) (keys : Map ℕ K) where
  -- A node with the keys accepts the block, as one of the round.
  abbrev pub IsAcceptable : SignedData → ℕ → Type 0
  IsAcceptable b i =
      (info : BlockData) × (check_block crypto keys b ≡ accepted info) × (info.id.round ≡ i)

  -- Each of `turns` rounds from `i` on has a block that fits a message and is accepted.
  abbrev pub Deliverable : (ℕ → Option SignedData) → ℕ → ℕ → ℕ → Type 0
  Deliverable own size zero i = Unit {0}
  Deliverable own size (suc turns) i =
      ((b : SignedData) × (own i ≡ some b) × (data_size b ≤ size) × IsAcceptable b i)
      × Deliverable own size turns (i + 1)

  abbrev pub AcceptedFrom : ℕ → List SignedData → Type 0
  AcceptedFrom i [] = Unit {0}
  AcceptedFrom i (b ∷ bs) = IsAcceptable b i × AcceptedFrom (i + 1) bs

  pub Deliverable-Sendable :
      (own own' : ℕ → Option SignedData) (size turns i : ℕ)
      → ((j : ℕ) → own' j ≡ own j)
      → Deliverable own size turns i
      → Sendable own' size turns i
  Deliverable-Sendable own own' size zero i same all = tt
  Deliverable-Sendable own own' size (suc turns) i same ((b, there, small, good), all) =
      ((b, same i ∙ there, small), Deliverable-Sendable own own' size turns (i + 1) same all)

  -- The blocks of a batch are accepted.
  pub batch-AcceptedFrom :
      (own own' : ℕ → Option SignedData) (size turns i : ℕ) (blocks : List SignedData)
      → ((j : ℕ) → own' j ≡ own j)
      → Deliverable own size turns i
      → AreFrom own' i blocks
      → length blocks ≤ turns
      → AcceptedFrom i blocks
  batch-AcceptedFrom own own' size turns i [] same all from few = tt
  batch-AcceptedFrom own own' size zero i (b ∷ bs) same all from few = absurd (omega arith)
  batch-AcceptedFrom own own' size (suc turns) i (b ∷ bs) same ((c, there, small, good), all)
        (is, others) few =
      (
        subst (λ d. IsAcceptable d i) (some-injective c b (sym (same i ∙ there) ∙ is)) good,
        batch-AcceptedFrom own own' size turns (i + 1) bs same all others (omega arith),
      )

  -- The rounds behind the first `k`.
  pub Deliverable-rest :
      (own : ℕ → Option SignedData) (size turns k rest i : ℕ)
      → turns ≡ k + rest
      → Deliverable own size turns i
      → Deliverable own size rest (i + k)
  Deliverable-rest own size turns zero rest i e all =
      let start : i ≡ i + 0 = omega arith in
      let left : turns ≡ rest = omega arith in
      subst (λ (z : ℕ). Deliverable own size rest z) start
        (subst (λ (z : ℕ). Deliverable own size z i) left all)
  Deliverable-rest own size zero (suc k) rest i e all = absurd (omega arith)
  Deliverable-rest own size (suc turns) (suc k) rest i e (first, all) =
      subst (λ (z : ℕ). Deliverable own size rest z) (omega arith)
        (Deliverable-rest own size turns k rest (i + 1) (omega arith) all)

  pub Deliverable-same :
      (own own' : ℕ → Option SignedData) (size size' turns i i' : ℕ)
      → ((j : ℕ) → own' j ≡ own j)
      → size' ≡ size
      → i' ≡ i
      → Deliverable own size turns i
      → Deliverable own' size' turns i'
  Deliverable-same own own' size size' zero i i' same room at all = tt
  Deliverable-same own own' size size' (suc turns) i i' same room at
        ((b, there, small, good), all) =
      (
        (
          b,
          same i' ∙ ap own at ∙ there,
          omega arith,
          subst (λ (z : ℕ). IsAcceptable b z) (sym at) good,
        ),
        Deliverable-same own own' size size' turns (i + 1) (i' + 1) same room (omega arith) all,
      )

module _ {D K : Type 0} (db : Database D) (codec : Codec SignedData) (crypto : Crypto K)
    (keys : Map ℕ K) where
  -- A peer acknowledges the last of the blocks that it accepts.
  broadcast_from-ack :
      (r : Service D) (last : ℕ) (blocks : List SignedData)
      → r.store.closed ≡ false
      → AcceptedFrom crypto keys (last + 1) blocks
      → (r' : Service D) × (broadcast_from db codec crypto keys r last blocks
          ≡ (r', ack (last + length blocks)))
        × (r'.store.closed ≡ false)
  unfolding broadcast_from
  broadcast_from-ack r last [] is_open good = (r, ap (λ (k : ℕ). (r, ack k)) (omega arith), is_open)
  broadcast_from-ack r last (b ∷ bs) is_open ((info, checked, of_round), good) =
      let (r1, one, still) = process_signed-taken db codec crypto keys r b info is_open checked in
      let (r2, rest, after) = broadcast_from-ack r1 (last + 1) bs still good in
      let all : broadcast_from db codec crypto keys r last (b ∷ bs)
          ≡ (r2, ack (last + 1 + length bs)) =
        rw (one, of_round) rest in
      let count : last + 1 + length bs ≡ last + length (b ∷ bs) = omega arith in
      (r2, all ∙ ap (λ (k : ℕ). (r2, ack k)) count, after)

  pub handle_broadcast_list-ack :
      (r : Service D) (i : ℕ) (b : SignedData) (bs : List SignedData)
      → r.store.closed ≡ false
      → AcceptedFrom crypto keys i (b ∷ bs)
      → (r' : Service D) × (handle_broadcast_list db codec crypto keys r (b ∷ bs)
          ≡ (r', ack (i + length bs)))
        × (r'.store.closed ≡ false)
  unfolding handle_broadcast_list broadcast_from
  handle_broadcast_list-ack r i b bs is_open ((info, checked, of_round), good) =
      let (r1, one, still) = process_signed-taken db codec crypto keys r b info is_open checked in
      let (r2, rest, after) = broadcast_from-ack r1 i bs still good in
      (r2, rw (one, of_round) rest, after)
