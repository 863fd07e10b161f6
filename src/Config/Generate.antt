-- ===== src/Config/Generate.antt =====
-- Making the configuration of a new network (config/generate/generate.go). The file system, the
-- randomness and the codecs are parameters; printing is left out.
pub mod Results
pub mod Peers
pub mod Loop
pub mod Accepted
pub mod Ports
use blockmania.Prelude.{
  ℕ, zero, suc, ◌+◌, ◌*◌, List, [], ◌∷◌, ◌++◌, Map, put, nat_key, Option, none, some, Bool, true,
  false, not, ◌&&◌, ◌||◌, ◌==◌, ltb, length, if◌then◌else◌,
}
use blockmania.Prelude.Texts.{Text, bytes}
use blockmania.Config.ByteSize.{mb, format_uint}
use blockmania.Config.Settings.{
  Announce, Bootstrap, Broadcast, Connections, Key, Keys, Logging, NetConsensus, PeerKey, Peer,
  Network, ServiceEnable, RateLimit, NodeConsensus, Registry, Storage, Node, hash,
}
use blockmania.Crypto.Signature.{Scheme, KeyPair, ed25519, algorithm_name, gen_key_pair}
use blockmania.Crypto.Certificate.{Cert, ecdsa, cert_type_name, gen_cert}

-- `Config`.
pub record Config : Type 0 where
  pub network_name : Text
  pub config_root : Text
  pub registry : Text
  pub round_interval : ℕ
  pub http_port : ℕ
  pub pubsub_port : ℕ
  pub node_count : ℕ
  pub fixed_port : Bool
  pub disable_http : Bool
  pub disable_pubsub : Bool

-- `key_seed` is the randomness for the key of a node, and `token` the random token as hexadecimal
-- digits. `makes` and `writes` say whether a directory can be made and a file written.
pub record Tools : Type 0 where
  pub makes : Text → Bool
  pub writes : Text → Bool
  pub token : Option Text
  pub scheme : Scheme
  pub key_seed : ℕ → ℕ
  pub create : Text → Option (Text × Text)
  pub encode : Text → Text
  pub sum : Map ℕ Peer → Option Text
  pub parses_url : Text → Bool

pub data GenerateError : Type 0 where
  round_interval_zero invalid_ports invalid_registry_url invalid_node_count : GenerateError
  no_directory no_token no_keys : GenerateError
  fatal_no_file fatal_no_id : GenerateError

pub data Result (A : Type 0) : Type 0 where
  ok : A → Result A
  error : GenerateError → Result A

infixl 5 ◌>>=◌
abbrev pub ◌>>=◌ : {A B : Type 0} → Result A → (A → Result B) → Result B
ok a >>= next = next a
error e >>= next = error e

-- `if !b { return err }`.
abbrev pub require : {A : Type 0} → Bool → GenerateError → Result A → Result A
require true e next = next
require false e next = error e

abbrev pub or_error : {A : Type 0} → GenerateError → Option A → Result A
or_error e none = error e
or_error e (some a) = ok a

-- `Validate`.
unfoldable pub validate : Tools → Config → Option GenerateError
validate tools c =
    if c.round_interval == 0
    then some round_interval_zero
    else if c.pubsub_port == 0 && not c.disable_pubsub
        || (c.http_port == 0 && not c.disable_http || c.http_port == c.pubsub_port)
    then some invalid_ports
    else if not (tools.parses_url c.registry)
    then some invalid_registry_url
    else if ltb c.node_count 4
    then some invalid_node_count
    else none

-- `filepath.Join`.
abbrev pub join : Text → Text → Text
join a b = a ++ (bytes "/" ++ b)

abbrev pub second : ℕ
second = 1000000000

abbrev pub millisecond : ℕ
millisecond = 1000000

-- What the nodes share.
abbrev pub net_consensus : Config → NetConsensus
net_consensus c = record {
  block_references_size_limit = 10 * mb;
  block_transactions_size_limit = 100 * mb;
  nonce_expiration = 30 * second;
  round_interval = c.round_interval;
  view_timeout = 15;
}

-- `!cfg.FixedPort && !cfg.DisableHTTP`: the port of the next node.
abbrev pub next_port : Bool → Bool → ℕ → ℕ
next_port fixed disabled port = if not fixed && not disabled then port + 1 else port

-- Without a registry the nodes find each other by mDNS; otherwise a token for it is made.
unfoldable pub registries : Tools → Config → Result (List Registry)
registries tools c =
    if length c.registry == 0
    then ok []
    else or_error no_token tools.token >>= λ token.
        ok (record { host = c.registry; token = token } ∷ [])

-- The configuration of one node.
unfoldable pub node_config : Config → List Registry → ℕ → ℕ → Node
node_config c regs http_port pubsub_port =
    let local = length c.registry == 0 in
    record {
      announce = record { mdns = local; registry = not local };
      bootstrap = record { file = []; mdns = local; registry = not local; static = [] };
      broadcast = record { initial_backoff = 1 * second; max_backoff = 2 * second };
      connections = record { read_timeout = 10 * second; write_timeout = 10 * second };
      consensus = record {
        drift_tolerance = 10 * millisecond;
        initial_work_duration = 100 * millisecond;
        rate_limit = record { initial_rate = 10000; rate_decrease = 8; rate_increase = 1000 };
      };
      http = record { enabled = not c.disable_http; port = http_port };
      logging = record {
        console_level = 1;
        file_level = 4;
        file_path = bytes "log/blockmania.log";
        server_host = [];
        server_level = 0;
        server_token = [];
      };
      pubsub = record { enabled = not c.disable_pubsub; port = pubsub_port };
      registries = regs;
      storage = some (record { type = bytes "badger" });
    }

-- `genKeys`: the key pair, the certificate, and the file `keys.yaml`.
unfoldable pub gen_keys : Tools → Text → Text → ℕ → Result (KeyPair × Cert × Keys)
gen_keys tools path network id =
    or_error no_keys (gen_key_pair tools.scheme ed25519 (tools.key_seed id)) >>= λ pair.
    or_error no_keys (gen_cert tools.create ecdsa network id) >>= λ cert.
    require (tools.writes path) no_keys (
      ok (
        pair,
        cert,
        record {
          signing_key = record {
            type = algorithm_name ed25519;
            public_text = tools.encode pair.public_key;
            private_text = tools.encode pair.private_key;
          };
          transport_cert = record {
            type = cert_type_name cert.type;
            public_text = cert.public_pem;
            private_text = cert.private_pem;
          };
        },
      ))

-- What is written for one node.
pub record NodeFiles : Type 0 where
  pub id : ℕ
  pub keys : Keys
  pub node : Node

-- `peers[nodeID]`.
abbrev pub as_peer : Tools → KeyPair → Cert → Peer
as_peer tools pair cert = record {
  signing_key = record { type = algorithm_name ed25519; value = tools.encode pair.public_key };
  transport_cert = record { type = cert_type_name cert.type; value = cert.public_pem };
}

module _ (tools : Tools) (c : Config) (regs : List Registry) where
  -- The loop over the nodes, from `i` on with so many turns left: the files, and the peers.
  unfoldable pub gen_nodes : ℕ → ℕ → ℕ → ℕ → Map ℕ Peer → Result (List NodeFiles × Map ℕ Peer)
  gen_nodes i zero http_port pubsub_port peers = ok ([], peers)
  gen_nodes i (suc left) http_port pubsub_port peers =
      let http_port' = next_port c.fixed_port c.disable_http http_port in
      let pubsub_port' = next_port c.fixed_port c.disable_pubsub pubsub_port in
      let dir = join (join c.config_root c.network_name) (bytes "node-" ++ format_uint i) in
      let node = node_config c regs http_port' pubsub_port' in
      require (tools.makes dir) no_directory (
        gen_keys tools (join dir (bytes "keys.yaml")) c.network_name i >>= λ (pair, cert, keys).
        require (tools.writes (join dir (bytes "node.yaml"))) fatal_no_file (
          gen_nodes (i + 1) left http_port' pubsub_port' (put i (as_peer tools pair cert) peers)
          >>= λ (files, peers'). ok (record { id = i; keys = keys; node = node } ∷ files, peers')))

abbrev pub seeds_only : Config → Map ℕ Peer → Network
seeds_only c peers = record {
  id = [];
  consensus = net_consensus c;
  max_payload = 128 * mb;
  seed_nodes = peers;
}

-- `Generate`: the files of the nodes and the one of the network.
unfoldable pub generate : Tools → Config → Result (List NodeFiles × Network)
generate tools c =
    let dir = join c.config_root c.network_name in
    require (tools.makes c.config_root && tools.makes dir) no_directory (
      registries tools c >>= λ regs.
      gen_nodes tools c regs 1 c.node_count c.http_port c.pubsub_port [] >>= λ (files, peers).
      or_error fatal_no_id (hash tools.sum (seeds_only c peers)) >>= λ id.
      require (tools.writes (join dir (bytes "network.yaml"))) fatal_no_file
        (ok (files, record (seeds_only c peers) { id = tools.encode id })))
