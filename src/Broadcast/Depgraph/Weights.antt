-- ===== src/Broadcast/Depgraph/Weights.antt =====
-- How much of a map is done, by a test of its keys: what the loop of `process` uses up.
use blockmania.Prelude.{
  ℕ, ◌+◌, ◌≤◌, ◌<◌, List, [], ◌∷◌, some, Map, Key, find, put, delete, length, Bool, true, false,
  if◌then◌else◌, maybe, ◌≡◌, refl, sym, subst, arith,
}

module _ {K : Type 0} ⦃e : Key K⦄ where
  -- The entries whose key fails the test.
  abbrev pub count_open : {V : Type 0} → (K → Bool) → Map K V → ℕ
  count_open f [] = 0
  count_open f ((k, v) ∷ m) = (if f k then 0 else 1) + count_open f m

  -- The sizes of the lists whose key passes the test.
  abbrev pub weight : {A : Type 0} → (K → Bool) → Map K (List A) → ℕ
  weight f [] = 0
  weight f ((k, v) ∷ m) = (if f k then length v else 0) + weight f m

  module _ {V : Type 0} where
    count_open_le :
        (f g : K → Bool) (m : Map K V)
        → ((k : K) → f k ≡ true → g k ≡ true)
        → count_open g m ≤ count_open f m
    count_open_le f g [] more = omega arith
    count_open_le f g ((k, v) ∷ m) more = ground (arith, more k, count_open_le f g m more)

    pub count_open-ext :
        (f g : K → Bool) (m : Map K V) → ((k : K) → f k ≡ g k) → count_open f m ≡ count_open g m
    count_open-ext f g [] same = refl
    count_open-ext f g ((k, v) ∷ m) same = ground (arith, same k, count_open-ext f g m same)

    pub count_open_lt :
        (f g : K → Bool) (m : Map K V) (k : K) (v : V)
        → ((j : K) → f j ≡ true → g j ≡ true)
        → f k ≡ false
        → g k ≡ true
        → find k m ≡ some v
        → count_open g m < count_open f m
    unfolding find
    count_open_lt f g [] k v more old new there = cc
    count_open_lt f g ((j, w) ∷ m) k v more old new there = elim (e.same j k) [
      | yes same ↦ ground (
        arith,
        subst (λ i. f i ≡ false) (sym same) old,
        subst (λ i. g i ≡ true) (sym same) new,
        count_open_le f g m more,
      )
      | no differs ↦ ground (arith, more j, count_open_lt f g m k v more old new)
    ]

    pub count_open-put :
        (f : K → Bool) (k : K) (v w : V) (m : Map K V)
        → find k m ≡ some w
        → count_open f (put k v m) ≡ count_open f m
    unfolding find put
    count_open-put f k v w [] there = cc
    count_open-put f k v w ((j, u) ∷ m) there = ground (arith, count_open-put f k v w m)

    pub count_open-delete :
        (f : K → Bool) (k : K) (m : Map K V) → count_open f (delete k m) ≤ count_open f m
    unfolding delete
    count_open-delete f k [] = omega arith
    count_open-delete f k ((j, u) ∷ m) = ground (arith, count_open-delete f k m)

  module _ {A : Type 0} where
    pub weight-ext :
        (f g : K → Bool) (m : Map K (List A)) → ((k : K) → f k ≡ g k) → weight f m ≡ weight g m
    weight-ext f g [] same = refl
    weight-ext f g ((k, v) ∷ m) same = ground (arith, same k, weight-ext f g m same)

    pub weight-put :
        (f : K → Bool) (k : K) (v : List A) (m : Map K (List A))
        → f k ≡ false
        → weight f (put k v m) ≡ weight f m
    unfolding put
    weight-put f k v [] out = ground arith
    weight-put f k v ((j, u) ∷ m) out = ground (arith, weight-put f k v m out)

    weight-delete_le :
        (f : K → Bool) (k : K) (m : Map K (List A)) → weight f (delete k m) ≤ weight f m
    unfolding delete
    weight-delete_le f k [] = omega arith
    weight-delete_le f k ((j, u) ∷ m) = ground (arith, weight-delete_le f k m)

    -- What a deletion of a key that passes takes away.
    pub weight-delete :
        (f : K → Bool) (k : K) (m : Map K (List A))
        → f k ≡ true
        → weight f (delete k m) + length (maybe (find k m) [] (λ v. v)) ≤ weight f m
    unfolding delete find
    weight-delete f k [] passes = omega arith
    weight-delete f k ((j, u) ∷ m) passes = elim (e.same j k) [
      | yes same ↦ ground (arith, subst (λ i. f i ≡ true) (sym same) passes, weight-delete_le f k m)
      | no differs ↦ ground (arith, weight-delete f k m passes)
    ]
