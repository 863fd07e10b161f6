-- ===== src/Broadcast/Words/RoundTrip.antt =====
-- What was written is read back.
use blockmania.Prelude.{ℕ, ◌+◌, ◌*◌, ◌/◌, ◌%◌, ◌^◌, ◌<◌, List, ◌++◌, ◌≡◌, ap, IsU64, arith}
use mathlib.Core.List.{append_assoc}
use blockmania.Lexinum.{value}
use blockmania.Broadcast.Words.{put_u16, put_u32, put_u64, read_u16, read_u32, read_u64}

pub read_u16-put_u16 : (n : ℕ) (d : List ℕ) → n < 2 ^ 16 → read_u16 (put_u16 n ++ d) ≡ value (n, d)
unfolding read_u16 put_u16
read_u16-put_u16 n d h =
    let whole : n % 256 + n / 256 % 256 * 256 ≡ n = omega arith in
    ap (λ (z : ℕ). value (z, d)) whole

pub read_u32-put_u32 : (n : ℕ) (d : List ℕ) → n < 2 ^ 32 → read_u32 (put_u32 n ++ d) ≡ value (n, d)
unfolding read_u32 put_u32
read_u32-put_u32 n d h =
    let whole : n % 256
          + n / 256 % 256 * 256
          + n / 65536 % 256 * 65536
          + n / 16777216 % 256 * 16777216
        ≡ n =
      omega arith in
    ap (λ (z : ℕ). value (z, d)) whole

read_u32-put_u32_low : (n : ℕ) (d : List ℕ) → read_u32 (put_u32 n ++ d) ≡ value (n % 2 ^ 32, d)
unfolding read_u32 put_u32
read_u32-put_u32_low n d =
    let whole : n % 256
          + n / 256 % 256 * 256
          + n / 65536 % 256 * 65536
          + n / 16777216 % 256 * 16777216
        ≡ n % 2 ^ 32 =
      omega arith in
    ap (λ (z : ℕ). value (z, d)) whole

pub read_u64-put_u64 : (n : ℕ) (d : List ℕ) → IsU64 n → read_u64 (put_u64 n ++ d) ≡ value (n, d)
unfolding read_u64 put_u64
read_u64-put_u64 n d h =
    let whole : n % 2 ^ 32 + n / 2 ^ 32 * 2 ^ 32 ≡ n = omega arith in
    rw
      (
        append_assoc (put_u32 n) (put_u32 (n / 2 ^ 32)) d,
        read_u32-put_u32_low n (put_u32 (n / 2 ^ 32) ++ d),
        read_u32-put_u32 (n / 2 ^ 32) d (omega arith),
      )
      (ap (λ (z : ℕ). value (z, d)) whole)
