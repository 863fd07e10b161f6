-- ===== src/Lexinum/Order.antt =====
-- Encodings sort as the numbers do.
use mathlib.Core.List.{reverse, reverse-cons, append_assoc}
use blockmania.Prelude.{
  ℕ, zero, suc, ◌+◌, ◌-◌, ◌/◌, ◌%◌, ◌^◌, ◌<◌, ◌≤◌, List, [], ◌∷◌, ◌++◌, true, false, ltb, ◌==◌,
  if◌then◌else◌, length, IsU64, ◌≡◌, refl, ap, sym, subst, ◌∙◌, Bool-cases, inl, inr, ==_iff, arith,
}
use native.Mathlib.Nat.{pow-suc}
use blockmania.Lexinum.{max_small, width, chars, encode_small, remainder, encode_big, encode}
use blockmania.Lexinum.Sorting.{less, less_refl, less_asym, less_head, less-cons, less-append}
use blockmania.Lexinum.Widths.{width_lem, width_zero, length-chars, length-chars_le}

chars_none : (fuel : ℕ) → chars fuel 0 ≡ []
unfolding chars
chars_none zero = refl
chars_none (suc fuel) = refl

-- The bytes of a number's digits begin with a byte above 1.
digits_head :
    (fuel lead : ℕ)
    → 0 < lead
    → lead < 253 ^ fuel
    → (d : ℕ) × (rest : List ℕ) × (reverse (chars fuel lead) ≡ d ∷ rest) × (1 < d)
unfolding chars
digits_head zero lead positive fits = absurd (omega arith)
digits_head (suc fuel) lead positive fits =
    let more : (lead == 0) ≡ false = ground arith in
    let digit = lead % 253 + 2 in
    elim (Bool-cases (lead / 253 == 0)) [
      | inl last ↦
          let none_left : lead / 253 ≡ 0 = (==_iff (lead / 253) 0).0 last in
          (digit, [], rw (more, none_left, chars_none fuel) refl, omega arith)
      | inr longer ↦
          let shorter : lead / 253 < 253 ^ fuel = omega (arith, pow-suc 253 fuel) in
          let (d, rest, e, above) = digits_head fuel (lead / 253) (ground arith) shorter in
          (
            d,
            rest ++ (digit ∷ []),
            rw more (reverse-cons digit (chars fuel (lead / 253)) ∙ ap (λ l. l ++ (digit ∷ [])) e),
            above,
          )
    ]

-- Of numbers with as many digits, the smaller sorts first, whatever follows.
digits_less :
    (fuel a b : ℕ) (xs ys : List ℕ)
    → a < b
    → b < 253 ^ fuel
    → length (chars fuel a) ≡ length (chars fuel b)
    → less (reverse (chars fuel a) ++ xs) (reverse (chars fuel b) ++ ys) ≡ true
unfolding chars
digits_less zero a b xs ys h fits same = absurd (omega arith)
digits_less (suc fuel) a b xs ys h fits same = elim (Bool-cases (a == 0)) [
  | inl none_left ↦ let more : (b == 0) ≡ false = ground arith in absurd (ground (arith, same))
  | inr some_left ↦
      let more : (b == 0) ≡ false = ground arith in
      let shorter : b / 253 < 253 ^ fuel = omega (arith, pow-suc 253 fuel) in
      let x = a % 253 + 2 in
      let y = b % 253 + 2 in
      let left = reverse (chars fuel (a / 253)) in
      let right = reverse (chars fuel (b / 253)) in
      let counts : length (chars fuel (a / 253)) ≡ length (chars fuel (b / 253)) =
        ground (arith, same) in
      rw
        (
          some_left,
          more,
          reverse-cons x (chars fuel (a / 253)),
          reverse-cons y (chars fuel (b / 253)),
          append_assoc left (x ∷ []) xs,
          append_assoc right (y ∷ []) ys,
        )
        (elim (Bool-cases (a / 253 == b / 253)) [
          | inl equal_left ↦
              let e : a / 253 ≡ b / 253 = (==_iff (a / 253) (b / 253)).0 equal_left in
              subst
                (λ (z : ℕ). less (reverse (chars fuel z) ++ (x ∷ xs)) (right ++ (y ∷ ys)) ≡ true)
                (sym e) (less-append right (x ∷ xs) (y ∷ ys) ∙ less_head x y xs ys (omega arith))
          | inr apart ↦
              digits_less fuel (a / 253) (b / 253) (x ∷ xs) (y ∷ ys) (ground arith) shorter counts
        ])
]

remainder-less : (r s : ℕ) → r < s → less (remainder r) (remainder s) ≡ true
remainder-less r s h = ground arith

remainder_digits : (r d : ℕ) (rest : List ℕ) → 1 < d → less (remainder r) (d ∷ rest) ≡ true
remainder_digits r d rest h = ground arith

length-chars_max : (fuel lead : ℕ) → length (chars fuel lead) ≤ fuel
unfolding chars
length-chars_max zero lead = omega arith
length-chars_max (suc fuel) lead = ground (arith, length-chars_max fuel (lead / 253))

-- What stands behind the first byte of a big number, of its digits and its remainder.
abbrev body : ℕ → ℕ → List ℕ
body lead rem = ((width 8 lead 1 + 1) % 256) ∷ (reverse (chars 8 lead) ++ remainder rem)

-- The number of digits decides, or the digits do.
wide_less :
    (m n : ℕ) (xs ys : List ℕ)
    → m ≤ n
    → n ≤ 8
    → (m ≡ n → less xs ys ≡ true)
    → less (((m + 1) % 256) ∷ xs) (((n + 1) % 256) ∷ ys) ≡ true
wide_less m n xs ys h fits same = ground (arith, same)

body-less : (a b r s : ℕ) → a < b → b < 253 ^ 8 → less (body a r) (body b s) ≡ true
body-less zero b r s h fits =
    let (d, rest, e, above) = digits_head 8 b h fits in
    let wide = width_lem b h fits in
    let some_digit : 1 ≤ width 8 b 1 = omega (arith, wide, length-chars 7 b h) in
    wide_less (width 8 0 1) (width 8 b 1) (reverse (chars 8 0) ++ remainder r)
      (reverse (chars 8 b) ++ remainder s) (omega (arith, width_zero))
      (omega (arith, wide, length-chars_max 8 b))
      (λ _. rw (chars_none 8, e) (remainder_digits r d (rest ++ remainder s) above))
body-less (suc a) b r s h fits =
    let wide_a = width_lem (suc a) (omega arith) (omega arith) in
    let wide_b = width_lem b (omega arith) fits in
    wide_less (width 8 (suc a) 1) (width 8 b 1) (reverse (chars 8 (suc a)) ++ remainder r)
      (reverse (chars 8 b) ++ remainder s)
      (omega (arith, wide_a, wide_b, length-chars_le 8 (suc a) b (omega arith)))
      (omega (arith, wide_b, length-chars_max 8 b))
      (λ e. digits_less 8 (suc a) b (remainder r) (remainder s) h fits (sym wide_a ∙ e ∙ wide_b))

encode_big-less :
    (p q : ℕ) → p < q → q + max_small < 2 ^ 64 → less (encode_big p) (encode_big q) ≡ true
unfolding encode_big
encode_big-less p q h fits =
    less-cons 255 (body (p / 255) (p % 255)) (body (q / 255) (q % 255))
    ∙ elim (Bool-cases (p / 255 == q / 255)) [
      | inl equal_lead ↦
          let e : p / 255 ≡ q / 255 = (==_iff (p / 255) (q / 255)).0 equal_lead in
          subst (λ (z : ℕ). less (body z (p % 255)) (body (q / 255) (q % 255)) ≡ true) (sym e)
            (less-cons ((width 8 (q / 255) 1 + 1) % 256)
                (reverse (chars 8 (q / 255)) ++ remainder (p % 255))
                (reverse (chars 8 (q / 255)) ++ remainder (q % 255))
              ∙ less-append (reverse (chars 8 (q / 255))) (remainder (p % 255))
                  (remainder (q % 255))
              ∙ remainder-less (p % 255) (q % 255) (omega arith))
      | inr apart ↦ body-less (p / 255) (q / 255) (p % 255) (q % 255) (ground arith) (omega arith)
    ]

-- The digits of a small number, in base 255.
encode_small_lem :
    (v : ℕ)
    → v < max_small
    → encode_small v ≡ (v / 255 / 255 + 128) ∷ (v / 255 % 255 + 1) ∷ (v % 255 + 1) ∷ []
unfolding encode_small
encode_small_lem v h = ground arith

three_less :
    (a b c x y z : ℕ)
    → (a ≡ x → b ≡ y → c < z)
    → (a ≡ x → b ≤ y)
    → a ≤ x
    → less (a ∷ b ∷ c ∷ []) (x ∷ y ∷ z ∷ []) ≡ true
three_less a b c x y z last middle first = ground (arith, last, middle)

encode_small-less :
    (v w : ℕ) → v < w → w < max_small → less (encode_small v) (encode_small w) ≡ true
encode_small-less v w h fits =
    rw (encode_small_lem v (omega arith), encode_small_lem w fits)
      (three_less (v / 255 / 255 + 128) (v / 255 % 255 + 1) (v % 255 + 1) (w / 255 / 255 + 128)
        (w / 255 % 255 + 1) (w % 255 + 1) (λ e d. omega arith) (λ e. omega arith) (omega arith))

-- A small number sorts before a big one.
small_big : (v q : ℕ) → v < max_small → less (encode_small v) (encode_big q) ≡ true
unfolding encode_big
small_big v q h = rw (encode_small_lem v h) (
    less_head (v / 255 / 255 + 128) 255 ((v / 255 % 255 + 1) ∷ (v % 255 + 1) ∷ [])
      (body (q / 255) (q % 255)) (omega arith))

-- The two forms of an encoding.
encode_lem :
    (v : ℕ) → encode v ≡ (if ltb v max_small then encode_small v else encode_big (v - max_small))
unfolding encode encode_small
encode_lem zero = refl
encode_lem (suc v) = ground arith

less-encode_true : (v w : ℕ) → v < w → IsU64 w → less (encode v) (encode w) ≡ true
less-encode_true v w h fits =
    rw (encode_lem v, encode_lem w)
      (elim (Bool-cases (ltb w max_small)) [
        | inl small ↦
            let small_v : ltb v max_small ≡ true = ground arith in
            rw (small, small_v) (encode_small-less v w h (ground arith))
        | inr big ↦ elim (Bool-cases (ltb v max_small)) [
          | inl small ↦ rw (small, big) (small_big v (w - max_small) (ground arith))
          | inr big_v ↦
              let above : max_small ≤ v = ground arith in
              rw (big, big_v)
                (encode_big-less (v - max_small) (w - max_small) (omega arith) (omega arith))
        ]
      ])

-- Encodings of numbers below 2 ^ 64 compare, byte by byte, as the numbers do.
pub less-encode : (v w : ℕ) → IsU64 v → IsU64 w → less (encode v) (encode w) ≡ ltb v w
less-encode v w fits_v fits_w = elim (Bool-cases (ltb v w)) [
  | inl below ↦ less-encode_true v w (ground arith) fits_w ∙ sym below
  | inr not_below ↦ elim (Bool-cases (ltb w v)) [
    | inl above ↦
        less_asym (encode w) (encode v) (less-encode_true w v (ground arith) fits_v) ∙ sym not_below
    | inr neither ↦
        let e : v ≡ w = ground arith in
        ap (λ (z : ℕ). less (encode z) (encode w)) e ∙ less_refl (encode w) ∙ sym not_below
  ]
]
