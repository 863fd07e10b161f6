-- ===== src/Broadcast/Stream/Listed.antt =====
-- Two lists of keys in order are the same if they have the same keys.
use blockmania.Prelude.{List, ℕ, [], ◌∷◌, true, All, ◌≡◌, refl, sym, ap, subst, ◌∙◌}
use mathlib.Core.List.{Memᴰ}
use mathlib.Core.List.Memᴰ.{head, tail}
use blockmania.Lexinum.Sorting.{less, less_asym}
use blockmania.Broadcast.Database.{IsSorted}

pub All-Memᴰ :
    (P : List ℕ → Type 0) (keys : List (List ℕ)) (k : List ℕ) → All P keys → Memᴰ k keys → P k
All-Memᴰ P [] k h m = elim m [ ]
All-Memᴰ P (key ∷ keys) k (p, h) (head same) = subst P (sym same) p
All-Memᴰ P (key ∷ keys) k (p, h) (tail m) = All-Memᴰ P keys k h m

not_both : (a b : List ℕ) → less a b ≡ true → less b a ≡ true → ⊥
not_both a b h k = let e = less_asym a b h in cc

-- The first keys are the same.
same_head :
    (x y : List ℕ) (xs ys : List (List ℕ))
    → All (λ j. less x j ≡ true) xs
    → All (λ j. less y j ≡ true) ys
    → Memᴰ x (y ∷ ys)
    → Memᴰ y (x ∷ xs)
    → x ≡ y
same_head x y xs ys hx hy (head same) n = same
same_head x y xs ys hx hy (tail m) (head same) = sym same
same_head x y xs ys hx hy (tail m) (tail n) = absurd (
    not_both y x (All-Memᴰ (λ j. less y j ≡ true) ys x hy m)
      (All-Memᴰ (λ j. less x j ≡ true) xs y hx n))

-- What is in the list behind a first key is behind the same first key of the other list.
in_tail :
    (x y k : List ℕ) (xs ys : List (List ℕ))
    → x ≡ y
    → All (λ j. less x j ≡ true) xs
    → Memᴰ k xs
    → Memᴰ k (y ∷ ys)
    → Memᴰ k ys
in_tail x y k xs ys same hx m (tail n) = n
in_tail x y k xs ys same hx m (head here) =
    let below = All-Memᴰ (λ j. less x j ≡ true) xs k hx m in
    let equal : k ≡ x = here ∙ sym same in
    let itself = ap (less x) (sym equal) ∙ below in absurd (not_both x x itself itself)

pub IsSorted-unique :
    (xs ys : List (List ℕ))
    → IsSorted xs
    → IsSorted ys
    → ((k : List ℕ) → Memᴰ k xs → Memᴰ k ys)
    → ((k : List ℕ) → Memᴰ k ys → Memᴰ k xs)
    → xs ≡ ys
IsSorted-unique [] [] hx hy to from = refl
IsSorted-unique [] (y ∷ ys) hx hy to from = elim (from y (head refl)) [ ]
IsSorted-unique (x ∷ xs) [] hx hy to from = elim (to x (head refl)) [ ]
IsSorted-unique (x ∷ xs) (y ∷ ys) (ax, hx) (ay, hy) to from =
    let same = same_head x y xs ys ax ay (to x (head refl)) (from y (head refl)) in
    let rest =
      IsSorted-unique xs ys hx hy (λ k m. in_tail x y k xs ys same ax m (to k (tail m)))
        (λ k m. in_tail y x k ys xs (sym same) ay m (from k (tail m))) in
    rw (same, rest) refl
