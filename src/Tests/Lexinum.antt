-- ===== src/Tests/Lexinum.antt =====
-- Encodings of concrete numbers.
use blockmania.Prelude.{◌-◌, ◌^◌, [], ◌∷◌, ◌≡◌, refl, arith, ltb}
use blockmania.Lexinum.Sorting.{less}
use blockmania.Lexinum.Order.{less-encode}
use blockmania.Lexinum.{decode, encode, value, encode_big, width, chars}
use blockmania.Lexinum.RoundTrip.{decode-encode}

-- The limits of the two forms.
encode_limits : (encode 8258174 ≡ 254 ∷ 255 ∷ 255 ∷ []) × (encode 8258175 ≡ 255 ∷ 2 ∷ [])
unfolding encode encode_big width chars
encode_limits = (refl, refl)

-- Two numbers on the two sides of the limit.
less-encode_example : less (encode 8258174) (encode 8258175) ≡ ltb 8258174 8258175
less-encode_example = less-encode 8258174 8258175 (omega arith) (omega arith)

decode-encode_example : decode (encode (2 ^ 64 - 1)) ≡ value (2 ^ 64 - 1)
decode-encode_example = decode-encode (2 ^ 64 - 1) (omega arith)
