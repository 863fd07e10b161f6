-- ===== src/Network/Buffers.antt =====
-- Writes into a buffer, and the pieces of a list.
use blockmania.Prelude.{
  ℕ, zero, suc, ◌+◌, ◌-◌, ◌≤◌, List, [], ◌∷◌, ◌++◌, ◌≡◌, ap, sym, ◌∙◌, length, take, drop, arith,
  length-append, length-take, length-drop, take-append,
}
use mathlib.Core.List.{append_assoc}

-- `copy(buf[pos:], bytes)` where the bytes fit.
abbrev pub write_at : ℕ → List ℕ → List ℕ → List ℕ
write_at pos bytes buf = take pos buf ++ (bytes ++ drop (pos + length bytes) buf)

pub take-write_at :
    (pos : ℕ) (bytes buf : List ℕ)
    → pos + length bytes ≤ length buf
    → take (pos + length bytes) (write_at pos bytes buf) ≡ take pos buf ++ bytes
take-write_at pos bytes buf h =
    ap (take (pos + length bytes))
      (sym (append_assoc (take pos buf) bytes (drop (pos + length bytes) buf)))
    ∙ take-append (take pos buf ++ bytes) (drop (pos + length bytes) buf) (pos + length bytes) (
        omega
          (arith, length-append {0} (take pos buf) bytes, length-take {0} pos buf (omega arith)))

pub length-write_at :
    (pos : ℕ) (bytes buf : List ℕ)
    → pos + length bytes ≤ length buf
    → length (write_at pos bytes buf) ≡ length buf
length-write_at pos bytes buf h = omega (
  arith,
  length-append {0} (take pos buf) (bytes ++ drop (pos + length bytes) buf),
  length-append {0} bytes (drop (pos + length bytes) buf),
  length-take {0} pos buf (omega arith),
  length-drop {0} (pos + length bytes) buf,
)

pub take-append_more :
    (xs ys : List ℕ) (n : ℕ) → length xs ≤ n → take n (xs ++ ys) ≡ xs ++ take (n - length xs) ys
take-append_more [] ys n h = ap (λ (k : ℕ). take k ys) (omega arith)
take-append_more (x ∷ xs) ys zero h = absurd (omega arith)
take-append_more (x ∷ xs) ys (suc n) h =
    ap (λ (l : List ℕ). x ∷ l)
      (take-append_more xs ys n (omega arith) ∙ ap (λ (k : ℕ). xs ++ take k ys) (omega arith))

pub drop-append_more :
    (xs ys : List ℕ) (n : ℕ) → length xs ≤ n → drop n (xs ++ ys) ≡ drop (n - length xs) ys
drop-append_more [] ys n h = ap (λ (k : ℕ). drop k ys) (omega arith)
drop-append_more (x ∷ xs) ys zero h = absurd (omega arith)
drop-append_more (x ∷ xs) ys (suc n) h =
    drop-append_more xs ys n (omega arith) ∙ ap (λ (k : ℕ). drop k ys) (omega arith)
