-- ===== src/Broadcast/Cache/Gapless.antt =====
-- What the received map says of the blocks that came in and of the sequences that were set.
use blockmania.Prelude.{
  ℕ, ◌≤◌, ◌<◌, List, [], ◌∷◌, Map, find, find-put_self, find-put_ne, ◌≢◌, sym, nat_key, ◌==◌, leb,
  ◌≡◌, arith, ℕ_discrete, Bool, false, true, ◌||◌, ◌&&◌, ap, subst,
}
use blockmania.Broadcast.Cache.{
  ReceivedInfo, get_received, or_zero, receive, set_received, set_sequence,
}

-- What happens to the map: a block of a node and round comes in, or the sequence of a node is set.
pub data Event : Type 0 where
  came_in sequence_set : ℕ → ℕ → Event

-- The map after a history, the latest event first.
unfoldable pub after_all : List Event → Map ℕ ReceivedInfo
unfolding set_received set_sequence
after_all [] = []
after_all (came_in node round ∷ earlier) = set_received (after_all earlier) node round
after_all (sequence_set node round ∷ earlier) = set_sequence (after_all earlier) node round

-- The round came in from the node.
abbrev pub came : ℕ → ℕ → List Event → Bool
came node round [] = false
came node round (came_in n k ∷ earlier) = (n == node && k == round) || came node round earlier
came node round (sequence_set n k ∷ earlier) = came node round earlier

-- The sequence of the node was set to the round or to a later one.
abbrev pub passed : ℕ → ℕ → List Event → Bool
passed node round [] = false
passed node round (came_in n k ∷ earlier) = passed node round earlier
passed node round (sequence_set n k ∷ earlier) =
    (n == node && leb round k) || passed node round earlier

-- Every round up to `sequence` came in or was passed over when the sequence was set, and none that came
-- in is above `latest`.
pub record Tracks (history : List Event) (r : Map ℕ ReceivedInfo) : Type 0 where
  pub gapless :
      (node k : ℕ)
      → 0 < k
      → k ≤ (get_received r node).sequence
      → (came node k history || passed node k history) ≡ true
  pub bounded : (node k : ℕ) → came node k history ≡ true → k ≤ (get_received r node).latest

get_received-set_received_self :
    (r : Map ℕ ReceivedInfo) (node round : ℕ)
    → get_received (set_received r node round) node ≡ receive round (get_received r node)
unfolding get_received set_received
get_received-set_received_self r node round =
    ap or_zero (find-put_self node (receive round (get_received r node)) r)

get_received-set_received_ne :
    (r : Map ℕ ReceivedInfo) (node other round : ℕ)
    → node ≢ other
    → get_received (set_received r node round) other ≡ get_received r other
unfolding get_received set_received
get_received-set_received_ne r node other round h =
    ap or_zero (find-put_ne node other (receive round (get_received r node)) r h)

get_received-set_sequence_self :
    (r : Map ℕ ReceivedInfo) (node round : ℕ)
    → get_received (set_sequence r node round) node
      ≡ record (get_received r node) { sequence = round }
unfolding get_received set_sequence
get_received-set_sequence_self r node round =
    ap or_zero (find-put_self node (record (get_received r node) { sequence = round }) r)

get_received-set_sequence_ne :
    (r : Map ℕ ReceivedInfo) (node other round : ℕ)
    → node ≢ other
    → get_received (set_sequence r node round) other ≡ get_received r other
unfolding get_received set_sequence
get_received-set_sequence_ne r node other round h =
    ap or_zero (find-put_ne node other (record (get_received r node) { sequence = round }) r h)

set_received-Tracks :
    (history : List Event) (r : Map ℕ ReceivedInfo) (node round : ℕ)
    → Tracks history r
    → Tracks (came_in node round ∷ history) (set_received r node round)
unfolding receive
set_received-Tracks history r node round t = record {
  gapless = λ other k positive within. elim (ℕ_discrete node other) [
    | yes same ↦
        let self = get_received-set_received_self r node round in
        let now : k ≤ (receive round (get_received r node)).sequence =
          subst (λ i. k ≤ i.sequence) self
            (subst (λ n. k ≤ (get_received (set_received r node round) n).sequence) (sym same)
              within) in
        let before = t.gapless node k positive in
        subst
          (λ n.
            (came n k (came_in node round ∷ history) || passed n k (came_in node round ∷ history))
            ≡ true)
          same (ground (arith, before))
    | no differs ↦
        let before = t.gapless other k positive (
          subst (λ i. k ≤ i.sequence) (get_received-set_received_ne r node other round differs)
            within) in
        ground (arith, before)
  ];
  bounded = λ other k there. elim (ℕ_discrete node other) [
    | yes same ↦
        let before = t.bounded node k in
        let there' : came node k (came_in node round ∷ history) ≡ true =
          subst (λ n. came n k (came_in node round ∷ history) ≡ true) (sym same) there in
        subst (λ n. k ≤ (get_received (set_received r node round) n).latest) same
          (subst (λ i. k ≤ i.latest) (sym (get_received-set_received_self r node round))
            (ground (arith, before)))
    | no differs ↦
        subst (λ i. k ≤ i.latest) (sym (get_received-set_received_ne r node other round differs))
          (t.bounded other k (ground arith))
  ];
}

set_sequence-Tracks :
    (history : List Event) (r : Map ℕ ReceivedInfo) (node round : ℕ)
    → Tracks history r
    → Tracks (sequence_set node round ∷ history) (set_sequence r node round)
set_sequence-Tracks history r node round t = record {
  gapless = λ other k positive within. elim (ℕ_discrete node other) [
    | yes same ↦
        let self = get_received-set_sequence_self r node round in
        let now : k ≤ round =
          subst (λ i. k ≤ i.sequence) self
            (subst (λ n. k ≤ (get_received (set_sequence r node round) n).sequence) (sym same)
              within) in
        ground arith
    | no differs ↦
        let before = t.gapless other k positive (
          subst (λ i. k ≤ i.sequence) (get_received-set_sequence_ne r node other round differs)
            within) in
        ground (arith, before)
  ];
  bounded = λ other k there. elim (ℕ_discrete node other) [
    | yes same ↦
        subst (λ n. k ≤ (get_received (set_sequence r node round) n).latest) same
          (subst (λ i. k ≤ i.latest) (sym (get_received-set_sequence_self r node round))
            (t.bounded node k (subst (λ n. came n k history ≡ true) (sym same) there)))
    | no differs ↦
        subst (λ i. k ≤ i.latest) (sym (get_received-set_sequence_ne r node other round differs))
          (t.bounded other k there)
  ];
}

-- Whatever blocks came in and whatever sequences were set, in whichever order: every round up to a
-- node's `sequence` came in from that node or is not above a round that its sequence was set to, and no
-- round that came in from it is above its `latest`.
pub after_all-Tracks : (history : List Event) → Tracks history (after_all history)
unfolding after_all
after_all-Tracks [] = record {
  gapless = λ node k positive within. absurd (unfold get_received find in omega arith);
  bounded = λ node k there. cc;
}
after_all-Tracks (came_in node round ∷ earlier) =
    set_received-Tracks earlier (after_all earlier) node round (after_all-Tracks earlier)
after_all-Tracks (sequence_set node round ∷ earlier) =
    set_sequence-Tracks earlier (after_all earlier) node round (after_all-Tracks earlier)
