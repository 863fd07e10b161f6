-- ===== src/Consensus/Graph/Deliver/Fuel.antt =====
-- `deliverRound` ends: the fuel that `deliver` gives it is never used up.
use blockmania.Prelude.{
  ℕ, zero, suc, ◌≤◌, List, [], ◌∷◌, ◌≡◌, sym, ap, subst, arith, Map, find, delete, nat_key, length,
  add_u64, Outcome, ok, some, Option-cases, Bool-cases, inl, inr, ◌==◌, ltb, ◌&&◌, >>=-eq-ok,
  ok-injective, Ends, >>=-Ends, length-delete_lt,
}
use blockmania.Consensus.Block.{Hash}
use blockmania.Consensus.Graph.{Graph, BlockInfo}
use blockmania.Consensus.Graph.Deliver.{
  first_consumed, hand_over, deliver_one, next_round, deliver_round, note_hash, deliver,
}
use blockmania.Consensus.Graph.Deliver.Frame.{consume-Frame}
use blockmania.Consensus.Graph.Deliver.Order.{Notes, note_hash-Notes}

first_consumed-Ends : (infos : List BlockInfo) → Ends (first_consumed infos)
unfolding first_consumed
first_consumed-Ends [] = λ e. cc
first_consumed-Ends (info ∷ infos) = λ e. cc

deliver_one-Ends : (g : Graph) (round : ℕ) (hs : Map ℕ Hash) → Ends (deliver_one g round hs)
unfolding deliver_one
deliver_one-Ends g round hs =
    >>=-Ends (first_consumed g.blocks) _ (first_consumed-Ends g.blocks) (λ first _ e. cc)

deliver_one-resolved :
    (g g' : Graph) (round : ℕ) (hs : Map ℕ Hash)
    → deliver_one g round hs ≡ ok g'
    → g'.resolved ≡ delete round g.resolved
unfolding deliver_one hand_over
deliver_one-resolved g g' round hs e =
    let cleared = record g { resolved = delete round g.resolved } in
    let (first, _, done) = >>=-eq-ok (first_consumed g.blocks) _ e in
    subst (λ z. z.resolved ≡ delete round g.resolved) (ok-injective _ g' done)
      (consume-Frame round first g.blocks cleared).resolved

next_round-Ends :
    (round : ℕ) (g : Graph) (again : Map ℕ Hash → Outcome Graph)
    → ((next : Map ℕ Hash) → find (add_u64 round 1) g.resolved ≡ some next → Ends (again next))
    → Ends (next_round again round g)
unfolding next_round
next_round-Ends round g again ih = elim (Option-cases (find (add_u64 round 1) g.resolved)) [
  | inl absent ↦ ground arith
  | inr (next, there) ↦ let ends = ih next there in ground arith
]

deliver_round-Ends :
    (fuel : ℕ) (g : Graph) (round : ℕ) (hs : Map ℕ Hash)
    → find round g.resolved ≡ some hs
    → length g.resolved ≤ fuel
    → Ends (deliver_round fuel g round hs)
unfolding deliver_round
deliver_round-Ends zero g round hs there enough =
    absurd (omega (arith, length-delete_lt round hs g.resolved there))
deliver_round-Ends (suc fuel) g round hs there enough =
    >>=-Ends (deliver_one g round hs) _ (deliver_one-Ends g round hs) λ h one.
      next_round-Ends round h (λ next. deliver_round fuel h (add_u64 round 1) next)
        λ next found. deliver_round-Ends fuel h (add_u64 round 1) next found (
          omega (
            arith,
            ap length (deliver_one-resolved g h round hs one),
            length-delete_lt round hs g.resolved there,
          ))

note_hash-Ends : (g : Graph) (node round : ℕ) (hash : Hash) → Ends (note_hash g node round hash)
unfolding note_hash
note_hash-Ends g node round hash = ground arith

-- However many rounds a decided block completes, the fuel of `deliver` is enough for them.
pub deliver-Ends : (g : Graph) (node round : ℕ) (hash : Hash) → Ends (deliver g node round hash)
unfolding deliver
deliver-Ends g node round hash = elim (Bool-cases (ltb round g.round)) [
  | inl late ↦ rw late (λ e. cc)
  | inr timely ↦ rw timely (
      >>=-Ends (note_hash g node round hash) _ (note_hash-Ends g node round hash) λ (h, hs) noted.
        let n : Notes g round h hs = note_hash-Notes g h node round hash hs noted in
        elim (Bool-cases (round == h.round && length hs == h.peer_count)) [
          | inl now ↦ rw now (
              deliver_round-Ends (suc (length h.resolved)) h round hs
                (subst (λ z. find round z.resolved ≡ some hs) (sym n.only) n.stands) (omega arith))
          | inr later ↦ rw later (λ e. cc)
        ])
]
