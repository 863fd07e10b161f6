-- ===== src/Lexinum/RoundTrip.antt =====
-- Decoding what was encoded.
use mathlib.Core.List.{reverse, reverse-cons, append_assoc}
use blockmania.Prelude.{
  ℕ, zero, suc, ◌+◌, ◌-◌, ◌*◌, ◌/◌, ◌%◌, ◌^◌, ◌<◌, List, [], ◌∷◌, ◌++◌, ◌≡◌, refl, ap, ◌∙◌, sym,
  arith, ltb, ◌==◌, IsU64, Bool-cases, inl, inr, ==_iff, add_u64, mul_u64,
}
use native.Mathlib.Nat.{pow-suc}
use blockmania.Lexinum.{
  max_small, value, decode_big, decode, width, chars, encode_small, remainder, encode_big, encode,
}

-- A digit is read behind any number of them: `decode_big` goes on as if it stood first.
decode_big_digit :
    (v d : ℕ) (rest : List ℕ)
    → v * 253 + d < 2 ^ 64
    → d < 253
    → decode_big v ((d + 2) ∷ rest) ≡ decode_big (v * 253 + d) rest
unfolding decode_big
decode_big_digit v d [] fits small = ground arith
decode_big_digit v d (next ∷ rest) fits small =
    let step : add_u64 v (add_u64 (mul_u64 v 252) ((d + 2 + 254) % 256)) ≡ v * 253 + d =
      omega arith in
    ground (arith, ap (λ (z : ℕ). decode_big z (next ∷ rest)) step)

decode_big-chars :
    (fuel lead : ℕ) (rest : List ℕ)
    → lead < 2 ^ 64
    → lead < 253 ^ fuel
    → decode_big 0 (reverse (chars fuel lead) ++ rest) ≡ decode_big lead rest
unfolding chars
decode_big-chars zero lead rest fits h =
    let none_left : lead ≡ 0 = omega arith in ap (λ (z : ℕ). decode_big z rest) (sym none_left)
decode_big-chars (suc fuel) lead rest fits h = elim (Bool-cases (lead == 0)) [
  | inl done ↦ rw done (ap (λ (z : ℕ). decode_big z rest) (sym ((==_iff lead 0).0 done)))
  | inr more ↦
      let digit = lead % 253 + 2 in
      let shorter : lead / 253 < 253 ^ fuel = omega (arith, pow-suc 253 fuel) in
      let whole : lead / 253 * 253 + lead % 253 ≡ lead = omega arith in
      rw more (
        ap (λ (z : List ℕ). decode_big 0 (z ++ rest)) (reverse-cons digit (chars fuel (lead / 253)))
        ∙ ap (decode_big 0) (append_assoc (reverse (chars fuel (lead / 253))) (digit ∷ []) rest)
        ∙ decode_big-chars fuel (lead / 253) (digit ∷ rest) (omega arith) shorter
        ∙ decode_big_digit (lead / 253) (lead % 253) rest (omega arith) (omega arith)
        ∙ ap (λ (z : ℕ). decode_big z rest) whole)
]

decode_big-rem :
    (lead rem : ℕ)
    → lead * 255 + rem + max_small < 2 ^ 64
    → decode_big lead (remainder rem) ≡ value (lead * 255 + rem + max_small)
unfolding decode_big
decode_big-rem lead rem fits = ground arith

encode_small_lem : (v : ℕ) → v < max_small → decode (encode_small v) ≡ value v
unfolding encode_small decode
encode_small_lem v h = ground arith

-- The second byte of a long form is skipped.
decode_long : (n : ℕ) (rest : List ℕ) → decode (255 ∷ n ∷ rest) ≡ decode_big 0 rest
unfolding decode
decode_long n [] = refl
decode_long n (c ∷ rest) = refl

decode-encode_big : (w : ℕ) → w + max_small < 2 ^ 64 → decode (encode_big w) ≡ value (w + max_small)
unfolding encode_big
decode-encode_big w fits =
    let rem = w % 255 in
    let whole : w / 255 * 255 + rem + max_small ≡ w + max_small = omega arith in
    decode_long ((width 8 (w / 255) 1 + 1) % 256) _
    ∙ decode_big-chars 8 (w / 255) (remainder rem) (omega arith) (omega arith)
    ∙ decode_big-rem (w / 255) rem (omega arith)
    ∙ ap value whole

-- `Decode` gives back every `uint64` that `Encode` wrote; in particular it returns no error, does not
-- panic, and the loops of `Encode` have fuel enough.
pub decode-encode : (v : ℕ) → IsU64 v → decode (encode v) ≡ value v
unfolding encode
decode-encode v fits = elim (Bool-cases (v == 0)) [
  | inl zero_value ↦ rw zero_value (unfold decode in ground arith)
  | inr positive ↦ elim (Bool-cases (ltb v max_small)) [
    | inl small ↦ rw (positive, small) (encode_small_lem v (ground arith))
    | inr large ↦
        let back : v - max_small + max_small ≡ v = ground arith in
        rw (positive, large) (decode-encode_big (v - max_small) (omega arith) ∙ ap value back)
  ]
]
