-- ===== src/Lexinum.antt =====
-- Numbers as byte strings that sort in numeric order (internal/lexinum/lexinum.go). A byte slice is a
-- list of numbers below 256.
pub mod RoundTrip
pub mod Bytes
pub mod Sorting
pub mod Widths
pub mod Order
use blockmania.Prelude.{
  ℕ, zero, suc, ◌+◌, ◌-◌, ◌*◌, ◌/◌, ◌%◌, ◌^◌, List, [], ◌∷◌, ◌++◌, ltb, ◌==◌, ◌&&◌, if◌then◌else◌,
  add_u64, mul_u64, sub_u64,
}
use mathlib.Core.List.{reverse}

abbrev pub max_small : ℕ
max_small = 8258175

-- The errors of `Decode`: a slice of less than two bytes, a first byte below 0x80, and a small number
-- of less than three bytes.
pub data DecodeError : Type 0 where
  slice_too_small not_positive small_slice_too_small : DecodeError

-- `panic` is an index out of range.
pub data Decoded (A : Type 0) : Type 0 where
  value : A → Decoded A
  error : DecodeError → Decoded A
  panic : Decoded A

-- `if err != nil { return ..., err }`.
abbrev pub on_value : {A B : Type 0} → Decoded A → (A → Decoded B) → Decoded B
on_value (value v) next = next v
on_value (error e) next = error e
on_value panic next = panic

-- The loop of `pow`; the exponent has at most 64 binary digits.
unfoldable pub pow_loop : ℕ → ℕ → ℕ → ℕ → ℕ
pow_loop zero n a b = n
pow_loop (suc fuel) n a b =
    let rest = pow_loop fuel (if b % 2 == 0 then n else mul_u64 n a) (mul_u64 a a) (b / 2) in
    if b == 0 then n else rest

unfoldable pub pow : ℕ → ℕ → ℕ
unfolding pow_loop
pow a b = pow_loop 64 1 a b

-- `for i, char := range d[2:]`: the number before the byte 0x01, and the byte behind it. `byte(char - 2)`
-- wraps at 256.
unfoldable pub decode_big : ℕ → List ℕ → Decoded ℕ
decode_big v [] = value (add_u64 (add_u64 (mul_u64 v 255) 0) max_small)
decode_big v (char ∷ []) =
    if char == 1
    then panic
    else value (
        add_u64 (add_u64 (mul_u64 (add_u64 v (add_u64 (mul_u64 v 252) ((char + 254) % 256))) 255) 0)
          max_small)
decode_big v (char ∷ next ∷ rest) =
    let more =
      decode_big (add_u64 v (add_u64 (mul_u64 v 252) ((char + 254) % 256))) (next ∷ rest) in
    if char == 1 then value (add_u64 (add_u64 (mul_u64 v 255) next) max_small) else more

-- `Decode`.
unfoldable pub decode : List ℕ → Decoded ℕ
unfolding decode_big
decode [] = error slice_too_small
decode (a ∷ []) = error slice_too_small
decode (a ∷ b ∷ []) =
    if ltb a 128
    then error not_positive
    else if a == 255
    then decode_big 0 []
    else error small_slice_too_small
decode (a ∷ b ∷ c ∷ rest) =
    if ltb a 128
    then error not_positive
    else if a == 255
    then decode_big 0 (c ∷ rest)
    else value (
        add_u64 (mul_u64 (add_u64 (mul_u64 (a - 128) 255) ((b + 255) % 256)) 255) ((c + 255) % 256))

-- `for lead/pow(253, n) > 0 { n++ }`; a `uint64` divided by 255 is below 253 ^ 8.
unfoldable pub width : ℕ → ℕ → ℕ → ℕ
unfolding pow
width zero lead n = n
width (suc fuel) lead n =
    let rest = width fuel lead (n + 1) in if ltb 0 (lead / pow 253 n) then rest else n

-- The loop that fills `chars`, lowest digit first.
unfoldable pub chars : ℕ → ℕ → List ℕ
chars zero lead = []
chars (suc fuel) lead =
    let rest = chars fuel (lead / 253) in if lead == 0 then [] else (lead % 253 + 2) ∷ rest

-- The part of `Encode` for small numbers. Each byte is below 256 before its conversion.
unfoldable pub encode_small : ℕ → List ℕ
encode_small v =
    let div = v / 255 in
    let high = div / 255 in
    (if ltb 0 div && ltb 0 high then (high + 128) % 256 else 128)
    ∷ (if ltb 0 div then (div % 255 + 1) % 256 else 1)
    ∷ ((v % 255 + 1) % 256)
    ∷ []

-- The remainder, if it is not 0, behind a byte that no digit has.
abbrev pub remainder : ℕ → List ℕ
remainder rem = if ltb 0 rem then 1 ∷ rem ∷ [] else []

-- The part of `Encode` for big numbers: what is left after `max_small`, in base 253 but for the last
-- digit, which is in base 255.
unfoldable pub encode_big : ℕ → List ℕ
encode_big rest =
    255
    ∷ ((width 8 (rest / 255) 1 + 1) % 256)
    ∷ (reverse (chars 8 (rest / 255)) ++ remainder (rest % 255))

unfoldable pub encode : ℕ → List ℕ
unfolding encode_small
encode v =
    if v == 0
    then 128 ∷ 1 ∷ 1 ∷ []
    else if ltb v max_small
    then encode_small v
    else encode_big (v - max_small)
