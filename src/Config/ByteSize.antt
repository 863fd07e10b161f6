-- ===== src/Config/ByteSize.antt =====
-- Sizes in bytes as the configuration files write them (config/bytesize.go). A string is the list of its
-- bytes; the YAML decoder gives it.
pub mod Written
use blockmania.Prelude.{
  ℕ, zero, suc, ◌+◌, ◌-◌, ◌*◌, ◌/◌, ◌%◌, ◌^◌, List, [], ◌∷◌, ◌++◌, map, Option, none, some, Bool,
  true, false, ◌&&◌, ◌||◌, ltb, leb, ◌==◌, if◌then◌else◌, maybe, mul_u64,
}
use blockmania.Prelude.Texts.{same}

abbrev pub kb : ℕ
kb = 1024

abbrev pub mb : ℕ
mb = 1048576

abbrev pub gb : ℕ
gb = 1073741824

abbrev pub tb : ℕ
tb = 1099511627776

-- `Int`; `none` is the error.
unfoldable pub int : ℕ → Option ℕ
int b = if ltb (2 ^ 63 - 1) b then none else some b

abbrev pub is_digit : ℕ → Bool
is_digit c = leb 48 c && leb c 57

-- `strconv.FormatUint` in base 10; a `uint64` has 20 digits at most.
unfoldable pub digits : ℕ → ℕ → List ℕ
digits zero n = (48 + n) ∷ []
digits (suc fuel) n =
    let rest = digits fuel (n / 10) in
    if ltb n 10 then (48 + n) ∷ [] else rest ++ ((48 + n % 10) ∷ [])

abbrev pub format_uint : ℕ → List ℕ
format_uint n = digits 19 n

-- `MarshalYAML`, with "B", "KB", "MB", "GB" and "TB" as bytes.
unfoldable pub marshal : ℕ → List ℕ
marshal b =
    if b % tb == 0
    then format_uint (b / tb) ++ (84 ∷ 66 ∷ [])
    else if b % gb == 0
    then format_uint (b / gb) ++ (71 ∷ 66 ∷ [])
    else if b % mb == 0
    then format_uint (b / mb) ++ (77 ∷ 66 ∷ [])
    else if b % kb == 0
    then format_uint (b / kb) ++ (75 ∷ 66 ∷ [])
    else format_uint b ++ (66 ∷ [])

-- `strconv.ParseUint` in base 10 for 64 bits, behind the digits of `n`; `none` is an error.
unfoldable pub parse_from : ℕ → List ℕ → Option ℕ
parse_from n [] = some n
parse_from n (c ∷ cs) =
    let rest = parse_from (n * 10 + (c - 48)) cs in
    if is_digit c && ltb (n * 10 + (c - 48)) (2 ^ 64) then rest else none

-- What the loop from the end comes to: the bytes up to the last digit, and the others.
unfoldable pub split_last : List ℕ → Option (List ℕ × List ℕ)
split_last [] = none
split_last (c ∷ cs) =
    maybe (split_last cs) (if is_digit c then some (c ∷ [], cs) else none)
      (λ (number, suffix). some (c ∷ number, suffix))

-- `strings.ToLower`, as far as it can make one of the suffixes.
abbrev pub to_lower : ℕ → ℕ
to_lower c = if leb 65 c && leb c 90 then c + 32 else c

-- The switch over the suffix: "", "b", "byte", "bytes", and the first letter of each multiple with or
-- without a "b".
unfoldable pub scale : ℕ → List ℕ → Option ℕ
scale b suffix =
    if same suffix []
      || same suffix (98 ∷ [])
      || same suffix (98 ∷ 121 ∷ 116 ∷ 101 ∷ [])
      || same suffix (98 ∷ 121 ∷ 116 ∷ 101 ∷ 115 ∷ [])
    then some b
    else if same suffix (107 ∷ []) || same suffix (107 ∷ 98 ∷ [])
    then some (mul_u64 b kb)
    else if same suffix (109 ∷ []) || same suffix (109 ∷ 98 ∷ [])
    then some (mul_u64 b mb)
    else if same suffix (103 ∷ []) || same suffix (103 ∷ 98 ∷ [])
    then some (mul_u64 b gb)
    else if same suffix (116 ∷ []) || same suffix (116 ∷ 98 ∷ [])
    then some (mul_u64 b tb)
    else none

-- `UnmarshalYAML` over a size with the value `prev`, which a string without digits leaves.
unfoldable pub unmarshal : ℕ → List ℕ → Option ℕ
unmarshal prev raw =
    maybe (split_last raw) (scale prev (map to_lower raw))
      λ (number, suffix). maybe (parse_from 0 number) none λ b. scale b (map to_lower suffix)
