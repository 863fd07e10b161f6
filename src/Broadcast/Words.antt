-- ===== src/Broadcast/Words.antt =====
-- Numbers as bytes, the lowest first (`binary.LittleEndian`, as broadcast/ uses it). Reading past the
-- end is a panic.
pub mod RoundTrip
use blockmania.Prelude.{ℕ, ◌+◌, ◌*◌, ◌/◌, ◌%◌, ◌^◌, List, [], ◌∷◌, ◌++◌}
use blockmania.Lexinum.{Decoded, value, panic, on_value}

-- `binary.LittleEndian.PutUint16` of a number cut to 16 bits, and the same for 32 bits.
unfoldable pub put_u16 : ℕ → List ℕ
put_u16 n = (n % 256) ∷ (n / 256 % 256) ∷ []

unfoldable pub put_u32 : ℕ → List ℕ
put_u32 n = (n % 256) ∷ (n / 256 % 256) ∷ (n / 65536 % 256) ∷ (n / 16777216 % 256) ∷ []

unfoldable pub put_u64 : ℕ → List ℕ
put_u64 n = put_u32 n ++ put_u32 (n / 2 ^ 32)

-- What a step of the decoding read, and the bytes behind it: `val[idx:]` after `idx` has moved.
abbrev pub Reading : Type 0 → Type 0
Reading A = Decoded (A × List ℕ)

-- `binary.LittleEndian.Uint16`.
unfoldable pub read_u16 : List ℕ → Reading ℕ
read_u16 [] = panic
read_u16 (a ∷ []) = panic
read_u16 (a ∷ b ∷ d) = value (a + b * 256, d)

-- `binary.LittleEndian.Uint32`.
unfoldable pub read_u32 : List ℕ → Reading ℕ
read_u32 [] = panic
read_u32 (a ∷ []) = panic
read_u32 (a ∷ b ∷ []) = panic
read_u32 (a ∷ b ∷ c ∷ []) = panic
read_u32 (a ∷ b ∷ c ∷ e ∷ d) = value (a + b * 256 + c * 65536 + e * 16777216, d)

-- `binary.LittleEndian.Uint64`.
unfoldable pub read_u64 : List ℕ → Reading ℕ
read_u64 d =
    on_value (read_u32 d)
      λ (low, d'). on_value (read_u32 d') λ (high, d''). value (low + high * 2 ^ 32, d'')
