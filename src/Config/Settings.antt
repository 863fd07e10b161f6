-- ===== src/Config/Settings.antt =====
-- The configuration of a network and its nodes (config/config.go). Durations are in nanoseconds. The
-- file system and the YAML codec are left out: a configuration is what they give.
use blockmania.Prelude.{
  ℕ, List, ◌++◌, Map, Option, none, some, Bool, ◌||◌, ◌==◌, if◌then◌else◌, take, length,
}
use blockmania.Prelude.Texts.{Text, bytes, same}

pub record Announce : Type 0 where
  pub mdns : Bool
  pub registry : Bool

pub record Bootstrap : Type 0 where
  pub file : Text
  pub mdns : Bool
  pub registry : Bool
  pub static : Map ℕ Text

pub record Broadcast : Type 0 where
  pub initial_backoff : ℕ
  pub max_backoff : ℕ

pub record Connections : Type 0 where
  pub read_timeout : ℕ
  pub write_timeout : ℕ

pub record Key : Type 0 where
  pub type : Text
  pub public_text : Text
  pub private_text : Text

pub record Keys : Type 0 where
  pub signing_key : Key
  pub transport_cert : Key

-- A level is the number of `log.Level`.
pub record Logging : Type 0 where
  pub console_level : ℕ
  pub file_level : ℕ
  pub file_path : Text
  pub server_host : Text
  pub server_level : ℕ
  pub server_token : Text

pub record NetConsensus : Type 0 where
  pub block_references_size_limit : ℕ
  pub block_transactions_size_limit : ℕ
  pub nonce_expiration : ℕ
  pub round_interval : ℕ
  pub view_timeout : ℕ

-- `PeerKey`.
pub record PeerKey : Type 0 where
  pub type : Text
  pub value : Text

pub record Peer : Type 0 where
  pub signing_key : PeerKey
  pub transport_cert : PeerKey

pub record Network : Type 0 where
  pub id : Text
  pub consensus : NetConsensus
  pub max_payload : ℕ
  pub seed_nodes : Map ℕ Peer

pub record ServiceEnable : Type 0 where
  pub enabled : Bool
  pub port : ℕ

-- The rate of decrease, a floating-point number in the source, is in tenths.
pub record RateLimit : Type 0 where
  pub initial_rate : ℕ
  pub rate_decrease : ℕ
  pub rate_increase : ℕ

pub record NodeConsensus : Type 0 where
  pub drift_tolerance : ℕ
  pub initial_work_duration : ℕ
  pub rate_limit : RateLimit

pub record Registry : Type 0 where
  pub host : Text
  pub token : Text

-- `Storage.Type`.
pub record Storage : Type 0 where
  pub type : Text

-- A field is an option where the code looks for a nil pointer.
pub record Node : Type 0 where
  pub announce : Announce
  pub bootstrap : Bootstrap
  pub broadcast : Broadcast
  pub connections : Connections
  pub consensus : NodeConsensus
  pub http : ServiceEnable
  pub logging : Logging
  pub pubsub : ServiceEnable
  pub registries : List Registry
  pub storage : Option Storage

-- `Hash`: `sum` stands for `yaml.Marshal` and SHA-512/256, of a network that has the seed nodes only.
unfoldable pub hash : (Map ℕ Peer → Option Text) → Network → Option Text
hash sum n = sum n.seed_nodes

-- `strings.HasPrefix`.
abbrev pub has_prefix : Text → Text → Bool
has_prefix s prefix = same (take (length prefix) s) prefix

-- `URL`.
unfoldable pub url : Registry → Text
url r =
    if has_prefix r.host (bytes "localhost:") || same r.host (bytes "localhost")
    then bytes "http://" ++ (r.host ++ bytes "/")
    else bytes "https://" ++ (r.host ++ bytes "/")

-- `cfg.Storage = &Storage{"memstore"}`, where the file says nothing of it.
abbrev pub storage_or_default : Option Storage → Storage
storage_or_default none = record { type = bytes "memstore" }
storage_or_default (some s) = if length s.type == 0 then record { type = bytes "memstore" } else s

-- The end of `LoadNode`.
unfoldable pub load_node : Node → Node
load_node cfg = record cfg { storage = some (storage_or_default cfg.storage) }
