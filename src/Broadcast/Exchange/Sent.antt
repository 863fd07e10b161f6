-- ===== src/Broadcast/Exchange/Sent.antt =====
-- Every block of a node reaches its peer.
use blockmania.Prelude.{
  ℕ, zero, suc, ◌+◌, ◌-◌, ◌≤◌, ◌<◌, List, [], ◌∷◌, some, Map, find-put_self, nat_key, length, false,
  leb, maybe, add_u64, IsU64, ◌≡◌, refl, ap, sym, subst, ◌∙◌, arith,
}
use blockmania.Broadcast.Wire.{SignedData, Codec}
use blockmania.Broadcast.Database.{Database}
use blockmania.Broadcast.Checks.{Crypto}
use blockmania.Broadcast.Service.{
  Service, Answer, Unsent, unsent, next_unsent, mark_sent, get_unsent,
}
use blockmania.Broadcast.Service.Cached.{read_own, SameBlocks}
use blockmania.Broadcast.Service.Sending.{Sendable, get_unsent-IsBatch}
use blockmania.Broadcast.Exchange.{offers, as_offer, on_answer, answer_offer, exchange, exchanges}
use blockmania.Broadcast.Exchange.Accepting.{
  Deliverable, AcceptedFrom, Deliverable-Sendable, batch-AcceptedFrom, Deliverable-rest,
  Deliverable-same, handle_broadcast_list-ack,
}

as_offer-unsent :
    {D : Type 0} (p : Service D × Unsent) (b : SignedData) (bs : List SignedData)
    → p.1 ≡ unsent (b ∷ bs)
    → as_offer p ≡ offers p.0 (b ∷ bs)
as_offer-unsent (s, u) b bs e = ap (λ v. as_offer (s, v)) e

next_unsent-mark_sent :
    {D : Type 0} (s : Service D) (peer round : ℕ)
    → IsU64 (round + 1)
    → next_unsent (mark_sent s peer round) peer ≡ round + 1
unfolding mark_sent
next_unsent-mark_sent s peer round fits =
    ap (λ o. add_u64 (maybe o 0 (λ r. r)) 1) (find-put_self peer round s.sent) ∙ omega arith

module _ {D K : Type 0} (db : Database D) (codec : Codec SignedData) (crypto : Crypto K)
    (keys : Map ℕ K) where
  -- What a turn leaves of the sender: what it has, but for the cache, and fewer blocks to send.
  record Advances (peer count : ℕ) (s s' : Service D) : Type 0 where
    same_round : s'.round ≡ s.round
    same_size : s'.max_payload ≡ s.max_payload
    same_blocks : (j : ℕ) → read_own db codec s' j ≡ read_own db codec s j
    next : next_unsent s' peer ≡ next_unsent s peer + count

  mark_sent-Advances :
      (peer : ℕ) (s s' : Service D) (bs : List SignedData)
      → SameBlocks db codec s s'
      → IsU64 (next_unsent s peer + length bs + 1)
      → Advances peer (length bs + 1) s (mark_sent s' peer (next_unsent s peer + length bs))
  unfolding mark_sent read_own
  mark_sent-Advances peer s s' bs kept fits = record {
    same_round = ap (λ t. t.round) kept.rest;
    same_size = ap (λ t. t.max_payload) kept.rest;
    same_blocks = kept.same;
    next = next_unsent-mark_sent s' peer (next_unsent s peer + length bs) fits ∙ omega arith;
  }

  exchange-Advances :
      (peer : ℕ) (s r : Service D) (blocks : List SignedData)
      → (get_unsent db codec s peer).1 ≡ unsent blocks
      → 0 < length blocks
      → SameBlocks db codec s (get_unsent db codec s peer).0
      → AcceptedFrom crypto keys (next_unsent s peer) blocks
      → r.store.closed ≡ false
      → IsU64 (next_unsent s peer + length blocks)
      → (s' r' : Service D) × (exchange db codec crypto keys peer s r ≡ some (s', r'))
        × Advances peer (length blocks) s s'
        × (r'.store.closed ≡ false)
  unfolding exchange
  exchange-Advances peer s r [] sends some_block kept good is_open fits = absurd (omega arith)
  exchange-Advances peer s r (b ∷ bs) sends some_block kept good is_open fits =
      let sent = get_unsent db codec s peer in
      let (r1, answers, still) =
        handle_broadcast_list-ack db codec crypto keys r (next_unsent s peer) b bs is_open good in
      let s1 : Service D = mark_sent sent.0 peer (next_unsent s peer + length bs) in
      (
        s1,
        r1,
        ap (answer_offer db codec crypto keys peer r) (as_offer-unsent sent b bs sends)
            ∙ ap (λ (z : Service D × Answer). some (on_answer sent.0 peer z.1, z.0)) answers,
        subst (λ (k : ℕ). Advances peer k s s1) (omega arith)
            (mark_sent-Advances peer s sent.0 bs kept (omega arith)),
        still,
      )

  Advances-trans :
      (peer k n : ℕ) (s s' s'' : Service D)
      → Advances peer k s s'
      → Advances peer n s' s''
      → Advances peer (k + n) s s''
  Advances-trans peer k n s s' s'' h more = record {
    same_round = more.same_round ∙ h.same_round;
    same_size = more.same_size ∙ h.same_size;
    same_blocks = λ j. more.same_blocks j ∙ h.same_blocks j;
    next = omega (arith, h.next, more.next);
  }

  -- The blocks that are still to be sent after a turn.
  Advances-Deliverable :
      (peer k left rest : ℕ) (s s' : Service D)
      → left ≡ k + rest
      → Advances peer k s s'
      → Deliverable crypto keys (read_own db codec s) s.max_payload left (next_unsent s peer)
      → Deliverable crypto keys (read_own db codec s') s'.max_payload rest (next_unsent s' peer)
  Advances-Deliverable peer k left rest s s' e h all =
      Deliverable-same crypto keys (read_own db codec s) (read_own db codec s') s.max_payload
        s'.max_payload rest (next_unsent s peer + k) (next_unsent s' peer) h.same_blocks h.same_size
        h.next
        (Deliverable-rest crypto keys (read_own db codec s) s.max_payload left k rest
          (next_unsent s peer) e all)

  -- A turn of a node that has blocks to send.
  exchange-some :
      (peer left : ℕ) (s r : Service D)
      → 0 < left
      → r.store.closed ≡ false
      → IsU64 (s.round + 1)
      → next_unsent s peer + left ≡ s.round + 1
      → Deliverable crypto keys (read_own db codec s) s.max_payload left (next_unsent s peer)
      → (k : ℕ) × (0 < k)
        × (k ≤ left)
        × (s' r' : Service D) × (exchange db codec crypto keys peer s r ≡ some (s', r'))
        × Advances peer k s s'
        × (r'.store.closed ≡ false)
  exchange-some peer left s r some_left is_open fits to_go all =
      let own = read_own db codec s in
      let next = next_unsent s peer in
      let turns : left ≡ s.round + 1 - next = omega arith in
      let (blocks, sends, some_block, batch, kept) =
        get_unsent-IsBatch db codec s peer fits (omega arith) (
          subst (λ (z : ℕ). Sendable own s.max_payload z next) turns
            (Deliverable-Sendable crypto keys own own s.max_payload left next (λ j. refl) all)) in
      let few : length blocks ≤ left = omega (arith, batch.few) in
      let good =
        batch-AcceptedFrom crypto keys own own s.max_payload left next blocks (λ j. refl) all
          batch.in_order few in
      let (s1, r1, done, adv, still) =
        exchange-Advances peer s r blocks sends some_block kept good is_open (omega arith) in
      (length blocks, some_block, few, s1, r1, done, adv, still)

  -- A node that has sent everything waits.
  exchanges-idle :
      (turns peer : ℕ) (s r : Service D)
      → next_unsent s peer ≡ s.round + 1
      → exchanges db codec crypto keys turns peer s r ≡ some (s, r)
  unfolding exchanges exchange get_unsent
  exchanges-idle zero peer s r done = refl
  exchanges-idle (suc turns) peer s r done =
      let none_left : leb (next_unsent s peer) s.round ≡ false = ground arith in
      rw none_left (exchanges-idle turns peer s r done)

  -- As many turns as there are rounds to send are enough.
  exchanges-Advances :
      (turns peer left : ℕ) (s r : Service D)
      → left ≤ turns
      → r.store.closed ≡ false
      → IsU64 (s.round + 1)
      → next_unsent s peer + left ≡ s.round + 1
      → Deliverable crypto keys (read_own db codec s) s.max_payload left (next_unsent s peer)
      → (s' r' : Service D) × (exchanges db codec crypto keys turns peer s r ≡ some (s', r'))
        × Advances peer left s s'
        × (r'.store.closed ≡ false)
  unfolding exchanges
  exchanges-Advances turns peer zero s r enough is_open fits to_go all = (
    s,
    r,
    exchanges-idle turns peer s r (omega arith),
    record { same_round = refl; same_size = refl; same_blocks = λ j. refl; next = omega arith },
    is_open,
  )
  exchanges-Advances zero peer (suc left) s r enough is_open fits to_go all = absurd (omega arith)
  exchanges-Advances (suc turns) peer (suc left) s r enough is_open fits to_go all =
      let (k, some_block, few, s1, r1, one, adv, still) =
        exchange-some peer (suc left) s r (omega arith) is_open fits to_go all in
      let rest : ℕ = suc left - k in
      let (s2, r2, others, more, after) =
        exchanges-Advances turns peer rest s1 r1 (omega arith) still
          (subst (λ (z : ℕ). IsU64 (z + 1)) (sym adv.same_round) fits)
          (omega (arith, adv.next, adv.same_round))
          (Advances-Deliverable peer k (suc left) rest s s1 (omega arith) adv all) in
      let total : k + rest ≡ suc left = omega arith in
      (
        s2,
        r2,
        rw one others,
        subst (λ (z : ℕ). Advances peer z s s2) total (Advances-trans peer k rest s s1 s2 adv more),
        after,
      )

  -- A node has every own block that its peer lacks, each fits a message and is accepted by a peer with
  -- the keys, and the next round fits 64 bits. Then after a turn for each of these blocks at most the
  -- peer, whose store is open, has acknowledged every round up to the node's last one. No turn ends the
  -- process, and the node reads its own blocks as before.
  pub exchanges-next_unsent :
      (turns peer : ℕ) (s r : Service D)
      → r.store.closed ≡ false
      → IsU64 (s.round + 1)
      → next_unsent s peer ≤ s.round + 1
      → s.round + 1 - next_unsent s peer ≤ turns
      → Deliverable crypto keys
          (read_own db codec s)
          s.max_payload
          (s.round + 1 - next_unsent s peer)
          (next_unsent s peer)
      → (s' r' : Service D) × (exchanges db codec crypto keys turns peer s r ≡ some (s', r'))
        × (next_unsent s' peer ≡ s.round + 1)
        × ((j : ℕ) → read_own db codec s' j ≡ read_own db codec s j)
  exchanges-next_unsent turns peer s r is_open fits begun enough all =
      let left = s.round + 1 - next_unsent s peer in
      let (s1, r1, done, adv, still) =
        exchanges-Advances turns peer left s r enough is_open fits (omega arith) all in
      (s1, r1, done, omega (arith, adv.next), adv.same_blocks)
