-- ===== src/Config/ByteSize/Written.antt =====
-- A size that was written is read again.
use blockmania.Prelude.{
  ℕ, zero, suc, ◌+◌, ◌-◌, ◌*◌, ◌/◌, ◌%◌, ◌^◌, ◌<◌, List, [], ◌∷◌, ◌++◌, map, none, some, true, ltb,
  ◌==◌, mul_u64, IsU64, Bool-cases, ltb→lt, inl, inr, ◌≡◌, refl, sym, ap, subst, ◌∙◌, arith,
}
use mathlib.Core.List.{append-nil, append_assoc}
use blockmania.Config.ByteSize.{
  kb, mb, gb, tb, is_digit, digits, format_uint, marshal, parse_from, split_last, to_lower, scale,
  unmarshal,
}

-- `fuel` divisions by 10 leave one digit.
abbrev Below : ℕ → ℕ → Type 0
Below zero n = n < 10
Below (suc fuel) n = Below fuel (n / 10)

parse_from_digit :
    (a d : ℕ) (rest : List ℕ)
    → d < 10
    → a * 10 + d < 2 ^ 64
    → parse_from a ((48 + d) ∷ rest) ≡ parse_from (a * 10 + d) rest
unfolding parse_from
parse_from_digit a d rest small fits =
    let value : (48 + d) - 48 ≡ d = omega arith in
    let digit : is_digit (48 + d) ≡ true = ground arith in
    let below : ltb (a * 10 + d) (2 ^ 64) ≡ true = ground arith in rw (value, digit, below) refl

parse_from_first_digit :
    (n : ℕ) (rest : List ℕ) → n < 10 → parse_from 0 ((48 + n) ∷ rest) ≡ parse_from n rest
parse_from_first_digit n rest small =
    let same : 0 * 10 + n ≡ n = omega arith in
    parse_from_digit 0 n rest small (omega arith) ∙ ap (λ m. parse_from m rest) same

-- The digits of a number, in front of other bytes.
parse_from-digits :
    (fuel n : ℕ) (rest : List ℕ)
    → Below fuel n
    → IsU64 n
    → parse_from 0 (digits fuel n ++ rest) ≡ parse_from n rest
unfolding digits
parse_from-digits zero n rest small fits = parse_from_first_digit n rest small
parse_from-digits (suc fuel) n rest below fits = elim (Bool-cases (ltb n 10)) [
  | inl small ↦ rw small (parse_from_first_digit n rest (ltb→lt n 10 small))
  | inr large ↦
      let whole : n / 10 * 10 + n % 10 ≡ n = omega arith in
      rw large (
        ap (parse_from 0) (append_assoc (digits fuel (n / 10)) ((48 + n % 10) ∷ []) rest)
        ∙ parse_from-digits fuel (n / 10) ((48 + n % 10) ∷ rest) below (omega arith)
        ∙ parse_from_digit (n / 10) (n % 10) rest (omega arith) (omega arith)
        ∙ ap (λ m. parse_from m rest) whole)
]

-- The loop from the end stops at the last digit.
split_last_digit :
    (xs suffix : List ℕ) (d : ℕ)
    → is_digit d ≡ true
    → split_last suffix ≡ none
    → split_last (xs ++ (d ∷ suffix)) ≡ some (xs ++ (d ∷ []), suffix)
unfolding split_last
split_last_digit [] suffix d digit others = rw (others, digit) refl
split_last_digit (x ∷ xs) suffix d digit others =
    rw (split_last_digit xs suffix d digit others) refl

digits_last :
    (fuel n : ℕ)
    → Below fuel n
    → (xs : List ℕ) × (d : ℕ) × (digits fuel n ≡ xs ++ (d ∷ [])) × (is_digit d ≡ true)
unfolding digits
digits_last zero n small = ([], 48 + n, refl, ground arith)
digits_last (suc fuel) n below = elim (Bool-cases (ltb n 10)) [
  | inl small ↦ rw small ([], 48 + n, refl, ground arith)
  | inr large ↦ rw large (digits fuel (n / 10), 48 + n % 10, refl, ground arith)
]

IsU64-Below : (n : ℕ) → IsU64 n → Below 19 n
IsU64-Below n fits = omega arith

split_last-format_uint :
    (n : ℕ) (suffix : List ℕ)
    → IsU64 n
    → split_last suffix ≡ none
    → split_last (format_uint n ++ suffix) ≡ some (format_uint n, suffix)
split_last-format_uint n suffix fits others =
    let (xs, d, e, digit) = digits_last 19 n (IsU64-Below n fits) in
    subst (λ l. split_last (l ++ suffix) ≡ some (l, suffix)) (sym e)
      (ap split_last (append_assoc xs (d ∷ []) suffix) ∙ split_last_digit xs suffix d digit others)

parse_from-format_uint : (n : ℕ) → IsU64 n → parse_from 0 (format_uint n) ≡ some n
unfolding parse_from
parse_from-format_uint n fits =
    ap (parse_from 0) (sym (append-nil (format_uint n)))
    ∙ parse_from-digits 19 n [] (IsU64-Below n fits) fits

-- A number with a suffix.
unmarshal-format_uint :
    (prev n : ℕ) (suffix : List ℕ)
    → IsU64 n
    → split_last suffix ≡ none
    → unmarshal prev (format_uint n ++ suffix) ≡ scale n (map to_lower suffix)
unfolding unmarshal
unmarshal-format_uint prev n suffix fits others =
    rw (split_last-format_uint n suffix fits others, parse_from-format_uint n fits) refl

divides : (b unit : ℕ) → (b % unit == 0) ≡ true → b % unit ≡ 0
divides b unit h = ground arith

-- `UnmarshalYAML` reads back the size that `MarshalYAML` wrote, whatever was there before.
pub unmarshal-marshal : (prev b : ℕ) → IsU64 b → unmarshal prev (marshal b) ≡ some b
unfolding marshal scale split_last
unmarshal-marshal prev b fits = elim (Bool-cases (b % tb == 0)) [
  | inl whole ↦
      let e = divides b tb whole in
      let back : mul_u64 (b / tb) tb ≡ b = omega arith in
      rw whole
        (unmarshal-format_uint prev (b / tb) (84 ∷ 66 ∷ []) (omega arith) refl ∙ ap some back)
  | inr in_gb ↦ elim (Bool-cases (b % gb == 0)) [
    | inl whole ↦
        let e = divides b gb whole in
        let back : mul_u64 (b / gb) gb ≡ b = omega arith in
        rw (in_gb, whole)
          (unmarshal-format_uint prev (b / gb) (71 ∷ 66 ∷ []) (omega arith) refl ∙ ap some back)
    | inr in_mb ↦ elim (Bool-cases (b % mb == 0)) [
      | inl whole ↦
          let e = divides b mb whole in
          let back : mul_u64 (b / mb) mb ≡ b = omega arith in
          rw (in_gb, in_mb, whole)
            (unmarshal-format_uint prev (b / mb) (77 ∷ 66 ∷ []) (omega arith) refl ∙ ap some back)
      | inr in_kb ↦ elim (Bool-cases (b % kb == 0)) [
        | inl whole ↦
            let e = divides b kb whole in
            let back : mul_u64 (b / kb) kb ≡ b = omega arith in
            rw (in_gb, in_mb, in_kb, whole)
              (unmarshal-format_uint prev (b / kb) (75 ∷ 66 ∷ []) (omega arith) refl ∙ ap some back)
        | inr in_b ↦
            rw (in_gb, in_mb, in_kb, in_b) (unmarshal-format_uint prev b (66 ∷ []) fits refl)
      ]
    ]
  ]
]
