-- ===== src/Broadcast/Wire.antt =====
-- The messages that nodes exchange and keep (broadcast/types.pb.go), and their encoding, which is the
-- protocol buffers library's. A byte slice is a list of numbers below 256.
use blockmania.Consensus.Block.{Hash}
use blockmania.Prelude.{ℕ, ◌+◌, List, Option, some, length, ◌≡◌}

pub record SignedData : Type 0 where
  pub content : List ℕ
  pub signature : List ℕ

-- `SignedData.Size`.
abbrev pub data_size : SignedData → ℕ
data_size s = length s.content + length s.signature + 100

-- `Transactions`: how many, and their bytes.
pub record Transactions : Type 0 where
  pub count : ℕ
  pub content : List ℕ

-- `BlockReference`.
pub record BlockReference : Type 0 where
  pub hash : Hash
  pub node : ℕ
  pub round : ℕ

-- `Block`; a missing message is a nil pointer.
pub record Block : Type 0 where
  pub node : ℕ
  pub previous : Option SignedData
  pub references : List SignedData
  pub round : ℕ
  pub transactions : Transactions

-- `proto.Marshal` and `proto.Unmarshal` for one type of messages; `none` is an error of the second.
pub record Codec (A : Type 0) : Type 0 where
  pub marshal : A → List ℕ
  pub unmarshal : List ℕ → Option A

-- What was marshalled can be unmarshalled.
pub record IsCodec {A : Type 0} (codec : Codec A) : Type 0 where
  pub unmarshal-marshal : (a : A) → codec.unmarshal (codec.marshal a) ≡ some a
