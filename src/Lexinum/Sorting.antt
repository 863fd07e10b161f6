-- ===== src/Lexinum/Sorting.antt =====
-- The order of byte strings, as the database sorts its keys.
use blockmania.Prelude.{
  ℕ, ◌<◌, List, [], ◌∷◌, ◌++◌, Bool, true, false, ltb, ◌==◌, if◌then◌else◌, ◌≡◌, refl, ◌∙◌, All,
  arith,
}
use blockmania.Lexinum.Bytes.{IsPositive}

-- `bytes.Compare(a, b) < 0`.
abbrev pub less : List ℕ → List ℕ → Bool
less [] [] = false
less [] (y ∷ ys) = true
less (x ∷ xs) [] = false
less (x ∷ xs) (y ∷ ys) = if x == y then less xs ys else ltb x y

pub less_refl : (xs : List ℕ) → less xs xs ≡ false
less_refl [] = refl
less_refl (x ∷ xs) = ground (arith, less_refl xs)

pub less_asym : (xs ys : List ℕ) → less xs ys ≡ true → less ys xs ≡ false
less_asym [] [] h = cc
less_asym [] (y ∷ ys) h = refl
less_asym (x ∷ xs) [] h = cc
less_asym (x ∷ xs) (y ∷ ys) h = ground (arith, less_asym xs ys)

pub less_trans : (xs ys zs : List ℕ) → less xs ys ≡ true → less ys zs ≡ true → less xs zs ≡ true
less_trans [] ys [] h k = elim (not_below ys k) [ ]
  where
    not_below : (us : List ℕ) → less us [] ≡ true → ⊥
    not_below [] e = cc
    not_below (u ∷ us) e = cc
less_trans [] ys (z ∷ zs) h k = refl
less_trans (x ∷ xs) [] zs h k = cc
less_trans (x ∷ xs) (y ∷ ys) [] h k = cc
less_trans (x ∷ xs) (y ∷ ys) (z ∷ zs) h k = ground (arith, less_trans xs ys zs)

pub less_connex : (xs ys : List ℕ) → less xs ys ≡ false → less ys xs ≡ false → xs ≡ ys
less_connex [] [] h k = refl
less_connex [] (y ∷ ys) h k = cc
less_connex (x ∷ xs) [] h k = cc
less_connex (x ∷ xs) (y ∷ ys) h k =
    let head_same : x ≡ y = ground arith in
    let tail_same : xs ≡ ys = less_connex xs ys (ground arith) (ground arith) in
    rw (head_same, tail_same) refl

pub less_head : (x y : ℕ) (xs ys : List ℕ) → x < y → less (x ∷ xs) (y ∷ ys) ≡ true
less_head x y xs ys h = ground arith

pub less-cons : (x : ℕ) (xs ys : List ℕ) → less (x ∷ xs) (x ∷ ys) ≡ less xs ys
less-cons x xs ys = ground arith

pub less-append : (front xs ys : List ℕ) → less (front ++ xs) (front ++ ys) ≡ less xs ys
less-append [] xs ys = refl
less-append (b ∷ front) xs ys = less-cons b (front ++ xs) (front ++ ys) ∙ less-append front xs ys

-- Equal byte strings.
abbrev pub equal : List ℕ → List ℕ → Bool
equal [] [] = true
equal [] (y ∷ ys) = false
equal (x ∷ xs) [] = false
equal (x ∷ xs) (y ∷ ys) = if x == y then equal xs ys else false

-- Behind a zero, which none of the first bytes is, what follows decides between equal ones only.
pub less-terminated :
    (xs ys us vs : List ℕ)
    → All IsPositive xs
    → All IsPositive ys
    → less (xs ++ (0 ∷ us)) (ys ++ (0 ∷ vs)) ≡ (if equal xs ys then less us vs else less xs ys)
less-terminated [] [] us vs h k = less-cons 0 us vs
less-terminated [] (y ∷ ys) us vs h k = let pos = k.0 in ground arith
less-terminated (x ∷ xs) [] us vs h k = let pos = h.0 in ground arith
less-terminated (x ∷ xs) (y ∷ ys) us vs h k = ground (arith, less-terminated xs ys us vs h.1 k.1)

pub equal_refl : (xs : List ℕ) → equal xs xs ≡ true
equal_refl [] = refl
equal_refl (x ∷ xs) = ground (arith, equal_refl xs)

pub less-equal : (xs ys : List ℕ) → less xs ys ≡ true → equal xs ys ≡ false
less-equal [] [] h = cc
less-equal [] (y ∷ ys) h = refl
less-equal (x ∷ xs) [] h = cc
less-equal (x ∷ xs) (y ∷ ys) h = ground (arith, less-equal xs ys)

pub less-equal_above : (xs ys : List ℕ) → less ys xs ≡ true → equal xs ys ≡ false
less-equal_above [] [] h = cc
less-equal_above [] (y ∷ ys) h = refl
less-equal_above (x ∷ xs) [] h = refl
less-equal_above (x ∷ xs) (y ∷ ys) h = ground (arith, less-equal_above xs ys)
