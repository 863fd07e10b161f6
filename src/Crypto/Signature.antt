-- ===== src/Crypto/Signature.antt =====
-- Signature keys (internal/crypto/signature/). Ed25519 itself is a parameter.
pub mod Saved
use blockmania.Prelude.{
  ℕ, List, [], ◌++◌, ◌≡◌, Bool, true, Option, none, some, length, take, drop, replicate, ◌+◌, ◌-◌,
  ◌==◌, if◌then◌else◌,
}
use blockmania.Prelude.Texts.{Text, bytes, same}

-- golang.org/x/crypto/ed25519, with the randomness as a seed; `none` is an error.
pub record Scheme : Type 0 where
  pub generate_key : ℕ → Option (Text × Text)
  pub sign : Text → Text → Text
  pub verify : Text → Text → Text → Bool

-- A generated pair has a public key of 32 bytes and a private key of 64, and its signatures are
-- verified by its public key.
pub record IsScheme (e : Scheme) : Type 0 where
  pub public_length :
      (seed : ℕ) (pub_key priv_key : Text)
      → e.generate_key seed ≡ some (pub_key, priv_key)
      → length pub_key ≡ 32
  pub private_length :
      (seed : ℕ) (pub_key priv_key : Text)
      → e.generate_key seed ≡ some (pub_key, priv_key)
      → length priv_key ≡ 64
  pub verifies :
      (seed : ℕ) (pub_key priv_key message : Text)
      → e.generate_key seed ≡ some (pub_key, priv_key)
      → e.verify pub_key message (e.sign priv_key message) ≡ true

-- `Ed25519`.
abbrev pub ed25519 : ℕ
ed25519 = 1

-- `Algorithm.String`.
abbrev pub algorithm_name : ℕ → Text
algorithm_name s = if s == ed25519 then bytes "ed25519" else []

-- `AlgorithmFromString`.
unfoldable pub algorithm_from_string : Text → Option ℕ
algorithm_from_string s = if same s (algorithm_name ed25519) then some ed25519 else none

-- `ed25519KeyPair`. The types of single keys are their bytes.
pub record KeyPair : Type 0 where
  pub public_key : Text
  pub private_key : Text

-- `copy(v[pos:], bytes)`: as many bytes as there is room for.
abbrev pub copy_at : ℕ → Text → Text → Text
copy_at pos source v = take pos v ++ (take (length v - pos) source ++ drop (pos + length source) v)

-- `ed25519KeyPair.Value`.
unfoldable pub key_pair_value : KeyPair → Text
key_pair_value k = copy_at 32 k.private_key (copy_at 0 k.public_key (replicate 96 0))

-- `LoadKeyPair`; `none` is the error.
unfoldable pub load_key_pair : ℕ → Text → Option KeyPair
load_key_pair s v =
    if s == ed25519
    then if length v == 96
      then some (record { public_key = take 32 v; private_key = drop 32 v })
      else none
    else none

-- `LoadPrivateKey`.
unfoldable pub load_private_key : ℕ → Text → Option Text
load_private_key s v = if s == ed25519 then if length v == 64 then some v else none else none

-- `LoadPublicKey`.
unfoldable pub load_public_key : ℕ → Text → Option Text
load_public_key s v = if s == ed25519 then if length v == 32 then some v else none else none

-- What `GenKeyPair` makes of the result of `ed25519.GenerateKey`.
abbrev pub as_pair : Option (Text × Text) → Option KeyPair
as_pair none = none
as_pair (some (pub_key, priv_key)) = some (record { public_key = pub_key; private_key = priv_key })

module _ (e : Scheme) where
  -- `GenKeyPair`.
  unfoldable pub gen_key_pair : ℕ → ℕ → Option KeyPair
  gen_key_pair s seed = if s == ed25519 then as_pair (e.generate_key seed) else none

  -- `Sign` of a key pair or a private key.
  unfoldable pub sign : Text → Text → Text
  sign private_key message = e.sign private_key message

  -- `Verify` of a key pair or a public key.
  unfoldable pub verify : Text → Text → Text → Bool
  verify public_key message sig = e.verify public_key message sig
