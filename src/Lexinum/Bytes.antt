-- ===== src/Lexinum/Bytes.antt =====
-- No byte of an encoding is zero.
use mathlib.Core.List.{reverse, reverse-cons}
use blockmania.Prelude.{
  ℕ, zero, suc, ◌+◌, ◌-◌, ◌/◌, ◌%◌, ◌≤◌, ◌<◌, List, [], ◌∷◌, ltb, ◌==◌, Bool-cases, inl, inr, All,
  All-append, subst, sym, arith,
}
use blockmania.Lexinum.{max_small, width, chars, encode_small, remainder, encode_big, encode, pow}

abbrev pub IsPositive : ℕ → Type 0
IsPositive n = 0 < n

width_le : (fuel lead n : ℕ) → width fuel lead n ≤ n + fuel
unfolding width
width_le zero lead n = omega arith
width_le (suc fuel) lead n =
    let more = width_le fuel lead (n + 1) in
    elim (Bool-cases (ltb 0 (lead / pow 253 n))) [
      | inl longer ↦ rw longer (omega arith)
      | inr done ↦ rw done (omega arith)
    ]

reverse-All : (P : ℕ → Type 0) (xs : List ℕ) → All P xs → All P (reverse xs)
reverse-All P [] h = tt
reverse-All P (x ∷ xs) h =
    subst (All P) (sym (reverse-cons x xs))
      (All-append P (reverse xs) (x ∷ []) (reverse-All P xs h.1) (h.0, tt))

chars-All : (fuel lead : ℕ) → All IsPositive (chars fuel lead)
unfolding chars
chars-All zero lead = tt
chars-All (suc fuel) lead = elim (Bool-cases (lead == 0)) [
  | inl none_left ↦ rw none_left tt
  | inr more ↦ rw more (omega arith, chars-All fuel (lead / 253))
]

remainder-All : (rem : ℕ) → All IsPositive (remainder rem)
remainder-All rem = elim (Bool-cases (ltb 0 rem)) [
  | inl there ↦ rw there (omega arith, (ground arith, tt))
  | inr exact ↦ rw exact tt
]

encode_small-All : (v : ℕ) → v < max_small → All IsPositive (encode_small v)
unfolding encode_small
encode_small-All v h = (ground arith, (ground arith, (omega arith, tt)))

encode_big-All : (rest : ℕ) → All IsPositive (encode_big rest)
unfolding encode_big
encode_big-All rest = (
  omega arith,
  (
    omega (arith, width_le 8 (rest / 255) 1),
    All-append IsPositive (reverse (chars 8 (rest / 255))) (remainder (rest % 255))
        (reverse-All IsPositive (chars 8 (rest / 255)) (chars-All 8 (rest / 255)))
        (remainder-All (rest % 255)),
  ),
)

pub encode-All : (v : ℕ) → All IsPositive (encode v)
unfolding encode
encode-All v = elim (Bool-cases (v == 0)) [
  | inl zero_value ↦ rw zero_value (omega arith, (omega arith, (omega arith, tt)))
  | inr positive ↦ elim (Bool-cases (ltb v max_small)) [
    | inl small ↦ rw (positive, small) (encode_small-All v (ground arith))
    | inr large ↦ rw (positive, large) (encode_big-All (v - max_small))
  ]
]
