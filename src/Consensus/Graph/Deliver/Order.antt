-- ===== src/Consensus/Graph/Deliver/Order.antt =====
-- The rounds that reach the callback, and their order.
use mathlib.Core.List.{append-nil, append_assoc}
use blockmania.Prelude.{
  ℕ, zero, suc, ◌≤◌, List, [], ◌∷◌, ◌++◌, ◌≡◌, refl, sym, ap, subst, ◌∙◌, arith, Map, find, delete,
  nat_key, length, add_u64, ok, inl, inr, some, Option-cases, Bool, true, false, ◌==◌, Bool-cases,
  ℕ_discrete, Outcome, >>=-eq-ok, ok-injective, All, All-append, put, find-put_self, ltb, ◌&&◌,
  ==_iff,
}
use blockmania.Consensus.Block.{Hash, Interpreted}
use blockmania.Consensus.Graph.{Graph}
use blockmania.Consensus.Graph.Deliver.{
  round_blocks, sort_blocks, consume, first_consumed, hand_over, deliver_one, next_round,
  deliver_round, note_hash, deliver,
}
use blockmania.Consensus.Graph.Deliver.Sorting.{
  IsSorted, InRound, length-round_blocks, round_blocks-InRound, length-sort_blocks, sort_blocks-All,
  sort_blocks-IsSorted,
}
use blockmania.Consensus.Graph.Deliver.Single.{
  Single, OneEach, Tidy, put-OneEach, put-Tidy, delete-Tidy, delivered-Single,
}
use blockmania.Consensus.Graph.Deliver.Frame.{Frame, consume-Frame}

-- What the callback is given for a round of `n` nodes: blocks of that round with a hash, sorted, no more
-- than there are nodes.
pub record IsRound (n : ℕ) (d : Interpreted) : Type 0 where
  pub sorted : IsSorted d.blocks
  pub of_round : All (InRound d.round) d.blocks
  pub at_most : length d.blocks ≤ n

-- The rounds follow one another from `first`, and `next` comes after the last.
abbrev pub Chain : ℕ → ℕ → List Interpreted → ℕ → Type 0
Chain n first [] next = next ≡ first
Chain n first (d ∷ ds) next = (d.round ≡ first) × IsRound n d × Chain n (add_u64 first 1) ds next

Chain-append :
    (n a b c : ℕ) (xs ys : List Interpreted)
    → Chain n a xs b
    → Chain n b ys c
    → Chain n a (xs ++ ys) c
Chain-append n a b c [] ys h k = subst (λ z. Chain n z ys c) h k
Chain-append n a b c (x ∷ xs) ys h k = (h.0, h.1, Chain-append n (add_u64 a 1) b c xs ys h.2 k)

deliver_one-IsRound :
    (n round consumed : ℕ) (hs : Map ℕ Hash)
    → length hs ≡ n
    → IsRound n (record {
      blocks = sort_blocks (round_blocks round hs);
      consumed = consumed;
      round = round;
    })
deliver_one-IsRound n round consumed hs h = record {
  sorted = sort_blocks-IsSorted (round_blocks round hs);
  of_round =
      sort_blocks-All (InRound round) (round_blocks round hs) (round_blocks-InRound round hs);
  at_most = omega (arith, length-sort_blocks (round_blocks round hs), length-round_blocks round hs);
}

-- What the calls after `g` add: a chain of rounds from the round of `g` to that of `g'`.
pub record Extends (g g' : Graph) : Type 0 where
  pub more : List Interpreted
  pub delivered : g'.delivered ≡ g.delivered ++ more
  pub chain : Chain g.peer_count g.round more g'.round
  pub peer_count : g'.peer_count ≡ g.peer_count
  pub peers : g'.peers ≡ g.peers
  pub quorum2f : g'.quorum2f ≡ g.quorum2f
  pub quorum2f1 : g'.quorum2f1 ≡ g.quorum2f1
  pub single : Tidy g.resolved → Tidy g'.resolved × All (λ d. Single d.blocks) more

-- The parts of a graph that a delivery reads and does not change, and what it delivered.
pub record Same (g g' : Graph) : Type 0 where
  pub delivered : g'.delivered ≡ g.delivered
  pub round : g'.round ≡ g.round
  pub peer_count : g'.peer_count ≡ g.peer_count
  pub peers : g'.peers ≡ g.peers
  pub quorum2f : g'.quorum2f ≡ g.quorum2f
  pub quorum2f1 : g'.quorum2f1 ≡ g.quorum2f1
  pub tidy : Tidy g.resolved → Tidy g'.resolved

pub Same-Extends : {g g' : Graph} → Same g g' → Extends g g'
Same-Extends {g} same = record {
  more = [];
  delivered = same.delivered ∙ sym (append-nil g.delivered);
  chain = same.round;
  peer_count = same.peer_count;
  peers = same.peers;
  quorum2f = same.quorum2f;
  quorum2f1 = same.quorum2f1;
  single = λ t. (same.tidy t, tt);
}

abbrev pub unchanged : {g : Graph} → Same g g
unchanged = record {
  delivered = refl;
  round = refl;
  peer_count = refl;
  peers = refl;
  quorum2f = refl;
  quorum2f1 = refl;
  tidy = λ t. t;
}

pub Extends-refl : (g : Graph) → Extends g g
Extends-refl g = Same-Extends unchanged

pub Extends-trans : {g h k : Graph} → Extends g h → Extends h k → Extends g k
Extends-trans {g} {h} {k} a b = record {
  more = a.more ++ b.more;
  delivered =
      b.delivered ∙ ap (λ l. l ++ b.more) a.delivered ∙ append_assoc g.delivered a.more b.more;
  chain =
      Chain-append g.peer_count g.round h.round k.round a.more b.more a.chain
        (subst (λ n. Chain n h.round b.more k.round) a.peer_count b.chain);
  peer_count = b.peer_count ∙ a.peer_count;
  peers = b.peers ∙ a.peers;
  quorum2f = b.quorum2f ∙ a.quorum2f;
  quorum2f1 = b.quorum2f1 ∙ a.quorum2f1;
  single = λ t.
      let (t', first) = a.single t in
      let (t'', rest) = b.single t' in
      (t'', All-append (λ d. Single d.blocks) a.more b.more first rest);
}

-- One delivery extends the graph by its round, which leaves `resolved`.
record Delivers (g g' : Graph) (round : ℕ) : Type 0 where
  extends : Extends g g'
  resolved : g'.resolved ≡ delete round g.resolved
  round_after : g'.round ≡ add_u64 round 1

hand_over-Delivers :
    (g h : Graph) (round consumed : ℕ) (hs : Map ℕ Hash)
    → round ≡ g.round
    → length hs ≡ g.peer_count
    → (Tidy g.resolved → OneEach hs)
    → Frame (record g { resolved = delete round g.resolved }) h
    → Delivers g (hand_over round hs (h, consumed)) round
unfolding hand_over
hand_over-Delivers g h round consumed hs at full one f =
    let d : Interpreted = record {
      blocks = sort_blocks (round_blocks round hs);
      consumed = consumed;
      round = round;
    } in
    record {
      extends = record {
        more = d ∷ [];
        delivered = ap (λ l. l ++ d ∷ []) f.delivered;
        chain = (
          at,
          deliver_one-IsRound g.peer_count round consumed hs full,
          ap (λ r. add_u64 r 1) f.round,
        );
        peer_count = f.peer_count;
        peers = f.peers;
        quorum2f = f.quorum2f;
        quorum2f1 = f.quorum2f1;
        single = λ t. (
          subst Tidy (sym f.resolved) (delete-Tidy round g.resolved t),
          (delivered-Single round hs (one t), tt),
        );
      };
      resolved = f.resolved;
      round_after = ap (λ r. add_u64 r 1) (f.round ∙ sym at);
    }

deliver_one-Delivers :
    (g g' : Graph) (round : ℕ) (hs : Map ℕ Hash)
    → round ≡ g.round
    → length hs ≡ g.peer_count
    → (Tidy g.resolved → OneEach hs)
    → deliver_one g round hs ≡ ok g'
    → Delivers g g' round
unfolding deliver_one
deliver_one-Delivers g g' round hs at full each e =
    let cleared = record g { resolved = delete round g.resolved } in
    let (first, _, done) = >>=-eq-ok (first_consumed g.blocks) _ e in
    let (h, consumed) = consume round first g.blocks cleared in
    subst (λ z. Delivers g z round) (ok-injective _ g' done)
      (hand_over-Delivers g h round consumed hs at full each
        (consume-Frame round first g.blocks cleared))

-- The next round is delivered only if every node is decided there.
next_round-Extends :
    (g g' : Graph) (round : ℕ) (again : Map ℕ Hash → Outcome Graph)
    → ((next : Map ℕ Hash)
        → find (add_u64 round 1) g.resolved ≡ some next
        → length next ≡ g.peer_count
        → again next ≡ ok g'
        → Extends g g')
    → next_round again round g ≡ ok g'
    → Extends g g'
unfolding next_round
next_round-Extends g g' round again ih e = elim (Option-cases (find (add_u64 round 1) g.resolved)) [
  | inl absent ↦ subst (Extends g) (ok-injective g g' (ground arith)) (Extends-refl g)
  | inr (next, there) ↦ elim (ℕ_discrete (length next) g.peer_count) [
    | yes complete ↦ ih next there complete (ground arith)
    | no waits ↦ subst (Extends g) (ok-injective g g' (ground arith)) (Extends-refl g)
  ]
]

-- A run of `deliverRound` extends the graph.
deliver_round-Extends :
    (fuel : ℕ) (g g' : Graph) (round : ℕ) (hs : Map ℕ Hash)
    → round ≡ g.round
    → length hs ≡ g.peer_count
    → (Tidy g.resolved → OneEach hs)
    → deliver_round fuel g round hs ≡ ok g'
    → Extends g g'
unfolding deliver_round
deliver_round-Extends zero g g' round hs at full each e = cc
deliver_round-Extends (suc fuel) g g' round hs at full each e =
    let (h, one, rest) = >>=-eq-ok (deliver_one g round hs) _ e in
    let d : Delivers g h round = deliver_one-Delivers g h round hs at full each one in
    Extends-trans d.extends (
      next_round-Extends h g' round (λ next. deliver_round fuel h (add_u64 round 1) next)
        (λ next there complete.
          deliver_round-Extends fuel h g' (add_u64 round 1) next (sym d.round_after) complete
            (λ t. t (add_u64 round 1) next there))
        rest)

-- `note_hash` changes `resolved` only, and returns the hashes that stand there for the round.
pub record Notes (g : Graph) (round : ℕ) (g' : Graph) (hs : Map ℕ Hash) : Type 0 where
  pub resolved : Map ℕ (Map ℕ Hash)
  pub only : g' ≡ record g { resolved = resolved }
  pub stands : find round resolved ≡ some hs
  pub tidy : Tidy g.resolved → Tidy resolved

pub note_hash-Notes :
    (g g' : Graph) (node round : ℕ) (hash : Hash) (hs : Map ℕ Hash)
    → note_hash g node round hash ≡ ok (g', hs)
    → Notes g round g' hs
unfolding note_hash
note_hash-Notes g g' node round hash hs e = elim (Option-cases (find round g.resolved)) [
  | inl absent ↦ record {
    resolved = put round hs g.resolved;
    only = ground arith;
    stands = find-put_self round hs g.resolved;
    tidy = λ t.
        let fresh : (node, hash) ∷ [] ≡ hs = ground arith in
        put-Tidy round hs g.resolved (subst OneEach fresh (refl, tt)) t;
  }
  | inr (hashes, there) ↦ elim (Option-cases (find node hashes)) [
    | inl new ↦ record {
      resolved = put round hs g.resolved;
      only = ground arith;
      stands = find-put_self round hs g.resolved;
      tidy = λ t.
          let longer : put node hash hashes ≡ hs = ground arith in
          put-Tidy round hs g.resolved
            (subst OneEach longer (put-OneEach node hash hashes (t round hashes there))) t;
    }
    | inr (curhash, known) ↦ record {
      resolved = g.resolved;
      only = ground arith;
      stands = ground arith;
      tidy = λ t. t;
    }
  ]
]

resolved-Extends :
    (g : Graph) (resolved : Map ℕ (Map ℕ Hash))
    → (Tidy g.resolved → Tidy resolved)
    → Extends g (record g { resolved = resolved })
resolved-Extends g resolved tidy = Same-Extends (record {
  delivered = refl;
  round = refl;
  peer_count = refl;
  peers = refl;
  quorum2f = refl;
  quorum2f1 = refl;
  tidy = tidy;
})

Bool-and : (a b : Bool) → (a && b) ≡ true → (a ≡ true) × (b ≡ true)
Bool-and true b h = (refl, h)
Bool-and false b h = cc

-- A decided block extends the graph by the rounds that it completes.
pub deliver-Extends :
    (g g' : Graph) (node round : ℕ) (hash : Hash) → deliver g node round hash ≡ ok g' → Extends g g'
unfolding deliver
deliver-Extends g g' node round hash e = elim (Bool-cases (ltb round g.round)) [
  | inl late ↦ subst (Extends g) (ok-injective g g' (rw late at e)) (Extends-refl g)
  | inr timely ↦
      let ((h, hs), noted, rest) = >>=-eq-ok (note_hash g node round hash) _ (rw timely at e) in
      let n : Notes g round h hs = note_hash-Notes g h node round hash hs noted in
      Extends-trans (subst (Extends g) (sym n.only) (resolved-Extends g n.resolved n.tidy))
        (elim (Bool-cases (round == h.round && length hs == h.peer_count)) [
          | inl now ↦
              let (at, full) = Bool-and (round == h.round) _ now in
              deliver_round-Extends (suc (length h.resolved)) h g' round hs ((==_iff _ _).0 at)
                ((==_iff _ _).0 full)
                (λ t. t round hs (ap (λ k. find round k.resolved) n.only ∙ n.stands))
                (rw now at rest)
          | inr later ↦ subst (Extends h) (ok-injective h g' (rw later at rest)) (Extends-refl h)
        ])
]
