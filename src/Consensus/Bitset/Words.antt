-- ===== src/Consensus/Bitset/Words.antt =====
-- A word as its bits: what `&`, `|` and `bits.OnesCount64` do to a single bit.
use blockmania.Prelude.{
  ℕ, zero, suc, ◌+◌, ◌*◌, ◌/◌, ◌%◌, ◌^◌, ◌≤◌, ◌<◌, max, min, bit_and, bit_or, ◌≡◌, refl, ap, sym,
  ◌-◌, ◌∙◌, ◌==◌, if◌then◌else◌, arith,
}
use Prim.Native.Nat.{digits, bit_and-bitwise, bit_or-bitwise}
use native.Mathlib.Nat.{pow-suc}
use blockmania.Consensus.Bitset.{ones_count}

-- The native operations stand for `digits`, a recursion over binary digits on fuel. Fuel beyond the
-- first operand is spare.
module _ (tail : ℕ → ℕ) (op : ℕ → ℕ → ℕ) where
  digits-suc : (fuel a b : ℕ) → a ≤ fuel → digits tail op (suc fuel) a b ≡ digits tail op fuel a b
  digits-suc (suc fuel) (suc a) b room =
      ap (λ (high : ℕ). high * 2 + op (suc a % 2) (b % 2))
        (digits-suc fuel (suc a / 2) (b / 2) (omega arith))
  digits-suc zero (suc a) b room = absurd (omega arith)
  digits-suc (suc fuel) zero b room = refl
  digits-suc zero zero b room = refl

  digits-spare : (spare a b : ℕ) → digits tail op (spare + a) a b ≡ digits tail op a a b
  digits-spare zero a b =
      let same : 0 + a ≡ a = omega arith in ap (λ (fuel : ℕ). digits tail op fuel a b) same
  digits-spare (suc spare) a b =
      let next : suc spare + a ≡ suc (spare + a) = omega arith in
      ap (λ (fuel : ℕ). digits tail op fuel a b) next
      ∙ digits-suc (spare + a) a b (omega arith)
      ∙ digits-spare spare a b

  digits_half :
      (a b : ℕ) → digits tail op a (suc a / 2) b ≡ digits tail op (suc a / 2) (suc a / 2) b
  digits_half a b =
      let whole : a - suc a / 2 + suc a / 2 ≡ a = omega arith in
      ap (λ (fuel : ℕ). digits tail op fuel (suc a / 2) b) (sym whole)
      ∙ digits-spare (a - suc a / 2) (suc a / 2) b

-- The lowest digit, and the half.
bit_and_step : (a b : ℕ) → bit_and a b ≡ bit_and (a / 2) (b / 2) * 2 + min (a % 2) (b % 2)
bit_and_step zero b = omega (arith, bit_and-bitwise 0 b, bit_and-bitwise 0 (b / 2))
bit_and_step (suc a) b =
    let half = digits_half (λ rest. zero) min a (b / 2) in
    omega (arith, half, bit_and-bitwise (suc a / 2) (b / 2), bit_and-bitwise (suc a) b)

bit_or_step : (a b : ℕ) → bit_or a b ≡ bit_or (a / 2) (b / 2) * 2 + max (a % 2) (b % 2)
bit_or_step zero b = omega (arith, bit_or-bitwise 0 b, bit_or-bitwise 0 (b / 2))
bit_or_step (suc a) b =
    let half = digits_half (λ rest. rest) max a (b / 2) in
    omega (arith, half, bit_or-bitwise (suc a / 2) (b / 2), bit_or-bitwise (suc a) b)

-- With 0 behind the operator, by the digits of the word.
masks_zero : (bound a : ℕ) → a ≤ bound → (bit_and a 0 ≡ 0) × (bit_or a 0 ≡ a)
masks_zero bound zero h = (refl, refl)
masks_zero zero (suc a) h = absurd (omega arith)
masks_zero (suc bound) (suc a) h =
    let (ands, ors) = masks_zero bound (suc a / 2) (omega arith) in
    (omega (arith, ands, bit_and_step (suc a) 0), omega (arith, ors, bit_or_step (suc a) 0))

and_zero : (a : ℕ) → bit_and a 0 ≡ 0
and_zero a = (masks_zero a a (omega arith)).0

or_zero : (a : ℕ) → bit_or a 0 ≡ a
or_zero a = (masks_zero a a (omega arith)).1

-- Bit `k` of a word, and the word with that bit set.
unfoldable pub bit : ℕ → ℕ → ℕ
bit word zero = word % 2
bit word (suc k) = bit (word / 2) k

set_bit : ℕ → ℕ → ℕ
set_bit word zero = word / 2 * 2 + 1
set_bit word (suc k) = set_bit (word / 2) k * 2 + word % 2

pub bit-lt : (word k : ℕ) → bit word k < 2
unfolding bit
bit-lt word zero = omega arith
bit-lt word (suc k) = bit-lt (word / 2) k

half_pow : (k : ℕ) → 2 ^ suc k / 2 ≡ 2 ^ k
half_pow k = omega (arith, pow-suc 2 k)

even_pow : (k : ℕ) → 2 ^ suc k % 2 ≡ 0
even_pow k = omega (arith, pow-suc 2 k)

bit_and-pow : (word k : ℕ) → bit_and word (2 ^ k) ≡ bit word k * 2 ^ k
unfolding bit
bit_and-pow word zero = omega (arith, bit_and_step word 1, and_zero (word / 2))
bit_and-pow word (suc k) =
    bit_and_step word (2 ^ suc k)
    ∙ rw (half_pow, even_pow, bit_and-pow (word / 2) k)
        (omega (arith, ap (λ (t : ℕ). bit (word / 2) k * t) (pow-suc 2 k)))

bit_or-pow : (word k : ℕ) → bit_or word (2 ^ k) ≡ set_bit word k
unfolding set_bit
bit_or-pow word zero = omega (arith, bit_or_step word 1, or_zero (word / 2))
bit_or-pow word (suc k) =
    bit_or_step word (2 ^ suc k) ∙ rw (half_pow, even_pow, bit_or-pow (word / 2) k) (omega arith)

odd_half : (a : ℕ) → (a * 2 + 1) / 2 ≡ a
odd_half a = omega arith

digit_half : (a b : ℕ) → (a * 2 + b % 2) / 2 ≡ a
digit_half a b = omega arith

bit-set_bit : (word k j : ℕ) → bit (set_bit word k) j ≡ (if k == j then 1 else bit word j)
unfolding bit set_bit
bit-set_bit word zero zero = omega arith
bit-set_bit word zero (suc j) = rw odd_half (ground arith)
bit-set_bit word (suc k) zero = ground arith
bit-set_bit word (suc k) (suc j) = rw digit_half (bit-set_bit (word / 2) k j ∙ ground arith)

ones-set_bit :
    (n word k : ℕ) → k < n → ones_count n (set_bit word k) + bit word k ≡ ones_count n word + 1
unfolding bit set_bit ones_count
ones-set_bit zero word k h = absurd (omega arith)
ones-set_bit (suc n) word zero h = rw odd_half (omega arith)
ones-set_bit (suc n) word (suc k) h =
    rw digit_half (omega (arith, ones-set_bit n (word / 2) k (omega arith)))

-- `|` with a mask of one bit sets that bit and leaves the others.
pub bit-bit_or : (word k j : ℕ) → bit (bit_or word (2 ^ k)) j ≡ (if k == j then 1 else bit word j)
bit-bit_or word k j = rw bit_or-pow (bit-set_bit word k j)

-- It adds one to the number of set bits, if the bit was clear.
pub ones-bit_or :
    (word k : ℕ)
    → k < 64
    → ones_count 64 (bit_or word (2 ^ k)) + bit word k ≡ ones_count 64 word + 1
ones-bit_or word k h = rw bit_or-pow (ones-set_bit 64 word k h)

pow_pos : (k : ℕ) → 0 < 2 ^ k
pow_pos zero = omega arith
pow_pos (suc k) = omega (arith, pow-suc 2 k, pow_pos k)

-- `&` with a mask of one bit is 0 exactly when the bit is clear.
pub bit_and-eq-zero : (word k : ℕ) → (bit_and word (2 ^ k) == 0) ≡ (bit word k == 0)
bit_and-eq-zero word k = rw bit_and-pow (grind (arith, pow_pos k))
