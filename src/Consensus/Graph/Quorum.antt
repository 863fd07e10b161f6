-- ===== src/Consensus/Graph/Quorum.antt =====
-- The quorums that `New` computes from the number of peers.
use blockmania.Prelude.{
  ℕ, zero, suc, ◌+◌, ◌-◌, ◌%◌, ◌≤◌, ◌<◌, ◌≡◌, refl, ◌↔◌, Bool, ◌&&◌, if◌then◌else◌, ltb, leb,
  length, Bool-cases, inl, inr, arith,
}
use blockmania.Consensus.Graph.{Config, new}

-- How many of the peers 0 to `n - 1` are in a set.
abbrev pub members : ℕ → (ℕ → Bool) → ℕ
members zero p = 0
members (suc n) p = if p n then members n p + 1 else members n p

-- The peers in both sets.
abbrev pub both : (ℕ → Bool) → (ℕ → Bool) → ℕ → Bool
both p q k = p k && q k

members-both : (n : ℕ) (p q : ℕ → Bool) → members n p + members n q ≤ n + members n (both p q)
members-both zero p q = omega arith
members-both (suc n) p q = ground (arith, members-both n p q)

members-first : (n m : ℕ) → m ≤ n → members n (λ k. ltb k m) ≡ m
members-first zero m h = omega arith
members-first (suc n) m h = elim (Bool-cases (ltb n m)) [
  | inl all ↦ let e = members-all n m (ground arith) in ground arith
  | inr rest ↦ let e = members-first n m (ground arith) in ground arith
]
  where
    members-all : (k j : ℕ) → k ≤ j → members k (λ i. ltb i j) ≡ k
    members-all zero j h = refl
    members-all (suc k) j h = let e = members-all k j (omega arith) in ground arith

members-last : (n m : ℕ) → members n (λ k. leb m k) ≡ n - m
members-last zero m = omega arith
members-last (suc n) m = ground (arith, members-last n m)

-- The first `m` peers but for the first `l`.
members-middle :
    (n m l : ℕ) → members n (both (λ k. ltb k m) (λ k. leb l k)) ≤ (if leb n m then n else m) - l
members-middle zero m l = omega arith
members-middle (suc n) m l = ground (arith, members-middle n m l)

-- With `f` the number of peers less one, divided by three, any two sets of `quorum2f1` peers have at
-- least `f + 1` peers in common, so one that is not faulty, exactly when the number of peers leaves 1
-- after division by 3.
pub new_overlap :
    (cfg : Config)
    → 0 < length cfg.peers
    → ((p q : ℕ → Bool)
        → members (new cfg).peer_count p ≡ (new cfg).quorum2f1
        → members (new cfg).peer_count q ≡ (new cfg).quorum2f1
        → (new cfg).quorumf1 ≤ members (new cfg).peer_count (both p q))
      ↔ (length cfg.peers % 3 ≡ 1)
unfolding new
new_overlap cfg some_peers = (
  λ shared.
      let n = length cfg.peers in
      let size = (new cfg).quorum2f1 in
      let first = members-first n size (omega arith) in
      let last : members n (λ k. leb (n - size) k) ≡ size =
        omega (arith, members-last n (n - size)) in
      let common = shared (λ k. ltb k size) (λ k. leb (n - size) k) first last in
      let middle = members-middle n size (n - size) in ground arith,
  λ one p q of_size of_size'. let enough = members-both (length cfg.peers) p q in omega arith,
)
