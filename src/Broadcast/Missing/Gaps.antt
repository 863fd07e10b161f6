-- ===== src/Broadcast/Missing/Gaps.antt =====
-- One gap between two stored rounds.
use blockmania.Prelude.{
  ℕ, zero, suc, ◌+◌, ◌≤◌, List, [], ◌∷◌, length, Bool, true, false, ◌<◌, ◌||◌, ◌&&◌, ltb, leb, ◌==◌,
  ◌≡◌, Bool-cases, inl, inr, All, arith,
}
use blockmania.Broadcast.Missing.{Gap, fill_gap}

abbrev pub contains : ℕ → List ℕ → Bool
contains k [] = false
contains k (r ∷ rs) = r == k || contains k rs

-- The rounds of the gap are those from `latest + 1` to its last one, at most `turns` of them, and all
-- of them unless the limit was hit.
pub record IsGap (turns limit latest added : ℕ) (g : Gap) : Type 0 where
  pub member : (k : ℕ) → contains k g.rounds ≡ (ltb latest k && leb k g.latest)
  pub least : latest ≤ g.latest
  pub most : g.latest ≤ latest + turns
  pub whole : g.full ≡ false → g.latest ≡ latest + turns
  pub cut : g.full ≡ true → 0 < turns
  pub filled : added ≤ limit → g.full ≡ true → limit < added + length g.rounds
  pub count : g.full ≡ false → g.added ≡ added + turns
  pub number : latest + length g.rounds ≡ g.latest
  pub room : added ≤ limit → added + length g.rounds ≤ limit + 1
  pub below : added ≤ limit → g.full ≡ false → g.added ≤ limit

pub fill_gap-IsGap :
    (turns limit latest added : ℕ)
    → IsGap turns limit latest added (fill_gap turns (latest + 1) limit latest added)
unfolding fill_gap
fill_gap-IsGap zero limit latest added = record {
  member = λ k. ground arith;
  least = omega arith;
  most = omega arith;
  whole = λ h. omega arith;
  cut = λ h. cc;
  filled = λ h e. cc;
  count = λ h. omega arith;
  number = omega arith;
  room = λ h. omega arith;
  below = λ h e. omega arith;
}
fill_gap-IsGap (suc turns) limit latest added = elim (Bool-cases (added == limit)) [
  | inl hit ↦ rw hit (record {
    member = λ k. ground arith;
    least = omega arith;
    most = omega arith;
    whole = λ h. cc;
    cut = λ h. omega arith;
    filled = λ h e. ground arith;
    count = λ h. cc;
    number = omega arith;
    room = λ h. omega arith;
    below = λ h e. cc;
  })
  | inr more ↦
      let g = fill_gap-IsGap turns limit (latest + 1) (added + 1) in
      rw more (record {
        member = λ k. ground (arith, g.member k, g.least);
        least = omega (arith, g.least);
        most = omega (arith, g.most);
        whole = λ h. omega (arith, g.whole h);
        cut = λ h. omega arith;
        filled = λ h e. omega (arith, g.filled (ground arith) e);
        count = λ h. omega (arith, g.count h);
        number = omega (arith, g.number);
        room = λ h. ground (arith, g.room);
        below = λ h e. ground (arith, g.below);
      })
]

pub contains-within :
    (k n : ℕ) (ks : List ℕ) → All (λ round. round ≤ n) ks → contains k ks ≡ true → k ≤ n
contains-within k n [] h e = cc
contains-within k n (j ∷ ks) (within, others) e = elim (Bool-cases (j == k)) [
  | inl same ↦ ground arith
  | inr other ↦ contains-within k n ks others (ground arith)
]
