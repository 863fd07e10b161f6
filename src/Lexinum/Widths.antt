-- ===== src/Lexinum/Widths.antt =====
-- The number of digits of a big number, which stands before them.
use blockmania.Prelude.{
  ℕ, zero, suc, ◌+◌, ◌*◌, ◌/◌, ◌%◌, ◌^◌, ◌<◌, ◌≤◌, [], ◌∷◌, ltb, ◌==◌, if◌then◌else◌, length, ◌≡◌,
  refl, ap, ◌∙◌, arith,
}
use native.Mathlib.Nat.{pow-suc, div-div-eq-div-mul}
use blockmania.Lexinum.{pow, pow_loop, width, chars}

chars_more : (fuel lead : ℕ) → lead < 253 ^ fuel → chars (suc fuel) lead ≡ chars fuel lead
unfolding chars
chars_more zero lead h = let none_left : lead ≡ 0 = omega arith in rw none_left refl
chars_more (suc fuel) lead h =
    let shorter : lead / 253 < 253 ^ fuel = omega (arith, pow-suc 253 fuel) in
    ground (arith, chars_more fuel (lead / 253) shorter)

pub length-chars_le : (fuel a b : ℕ) → a ≤ b → length (chars fuel a) ≤ length (chars fuel b)
unfolding chars
length-chars_le zero a b h = omega arith
length-chars_le (suc fuel) a b h =
    let shorter : a / 253 ≤ b / 253 = omega arith in
    ground (arith, length-chars_le fuel (a / 253) (b / 253) shorter)

-- The powers that `width` asks for do not wrap around.
pow_lem : (n : ℕ) → n ≤ 8 → pow 253 n ≡ 253 ^ n
unfolding pow pow_loop
pow_lem zero h = refl
pow_lem (suc zero) h = refl
pow_lem (suc (suc zero)) h = refl
pow_lem (suc (suc (suc zero))) h = refl
pow_lem (suc (suc (suc (suc zero)))) h = refl
pow_lem (suc (suc (suc (suc (suc zero))))) h = refl
pow_lem (suc (suc (suc (suc (suc (suc zero)))))) h = refl
pow_lem (suc (suc (suc (suc (suc (suc (suc zero))))))) h = refl
pow_lem (suc (suc (suc (suc (suc (suc (suc (suc zero)))))))) h = refl
pow_lem (suc (suc (suc (suc (suc (suc (suc (suc (suc n))))))))) h = absurd (omega arith)

width-chars :
    (fuel lead n : ℕ) → n + fuel ≤ 9 → width fuel lead n ≡ n + length (chars fuel (lead / 253 ^ n))
unfolding width chars
width-chars zero lead n h = omega arith
width-chars (suc fuel) lead n h =
    let p : pow 253 n ≡ 253 ^ n = pow_lem n (omega arith) in
    let e : n + 1 ≡ suc n = omega arith in
    let power : 253 ^ n * 253 ≡ 253 ^ (n + 1) =
      omega (arith, pow-suc 253 n, ap (λ (k : ℕ). 253 ^ k) e) in
    let next : lead / 253 ^ n / 253 ≡ lead / 253 ^ (n + 1) =
      div-div-eq-div-mul lead (253 ^ n) 253 ∙ ap (λ (z : ℕ). lead / z) power in
    let more = width-chars fuel lead (n + 1) (omega arith) in
    let rest : length (chars fuel (lead / 253 ^ n / 253))
        ≡ length (chars fuel (lead / 253 ^ (n + 1))) =
      ap (λ (z : ℕ). length (chars fuel z)) next in
    rw p (counted (lead / 253 ^ n) (more ∙ omega (arith, rest)))
  where
    counted :
        (q : ℕ)
        → width fuel lead (n + 1) ≡ n + 1 + length (chars fuel (q / 253))
        → (if ltb 0 q then width fuel lead (n + 1) else n)
          ≡ n + length (if q == 0 then [] else (q % 253 + 2) ∷ chars fuel (q / 253))
    counted q e = ground arith

pub length-chars :
    (fuel lead : ℕ)
    → 0 < lead
    → length (chars (suc fuel) lead) ≡ 1 + length (chars fuel (lead / 253))
unfolding chars
length-chars fuel lead positive = ground arith

-- The width is the number of digits, but at least one.
pub width_lem : (lead : ℕ) → 0 < lead → lead < 253 ^ 8 → width 8 lead 1 ≡ length (chars 8 lead)
width_lem lead positive fits =
    let fewer : length (chars 8 (lead / 253)) ≡ length (chars 7 (lead / 253)) =
      ap length (chars_more 7 (lead / 253) (omega arith)) in
    let count : width 8 lead 1 ≡ 1 + length (chars 8 (lead / 253)) =
      width-chars 8 lead 1 (omega arith) in
    omega (arith, fewer, count, length-chars 7 lead positive)

pub width_zero : width 8 0 1 ≡ 1
unfolding width pow pow_loop
width_zero = refl
