-- ===== src/Network/Topology.antt =====
-- The nodes of a network and where they are (network/network.go): what `New` makes of the
-- configuration, the addresses, and `Dial`. The pool of certificates and base32 are parameters. The
-- locks are left out; of the discovery over mDNS and HTTP, the loops over what it found are here.
use blockmania.Prelude.{
  ℕ, zero, suc, ◌+◌, List, [], ◌∷◌, ◌++◌, Map, find, put, nat_key, Option, none, some, ◌==◌,
  if◌then◌else◌, length, not,
}
use blockmania.Prelude.Texts.{Text, bytes, same}
use blockmania.Config.ByteSize.{format_uint}
use blockmania.Config.Settings.{Peer, PeerKey, Network, hash}
use blockmania.Crypto.Signature.{ed25519, load_public_key}

-- What the code uses of crypto/x509, encoding/base32 and the hash of a configuration; `none` is an
-- error.
pub record Decoders : Type 1 where
  pub Pool : Type 0
  -- `AppendCertsFromPEM`, into a new pool.
  pub append_certs : Text → Option Pool
  -- `b32.DecodeString`.
  pub decode : Text → Option Text
  -- `yaml.Marshal` and SHA-512/256.
  pub sum : Map ℕ Peer → Option Text

pub data NetworkError : Type 0 where
  node_with_zero_id bad_certificate unknown_certificate_type : NetworkError
  bad_key_encoding bad_key unknown_key_type : NetworkError
  bad_id no_hash mismatched_id : NetworkError

pub data Result {ℓ} (A : Type ℓ) : Type ℓ where
  ok : A → Result A
  error : NetworkError → Result A

abbrev pub or_error {ℓ κ} :
    {A : Type ℓ} {B : Type κ} → NetworkError → Option A → (A → Result B) → Result B
or_error e none next = error e
or_error e (some a) next = next a

infixl 5 ◌>>=◌
abbrev pub ◌>>=◌ {ℓ κ} : {A : Type ℓ} {B : Type κ} → Result A → (A → Result B) → Result B
ok a >>= next = next a
error e >>= next = error e

-- `ServerName`: node-%d.net-%s.chainspace.
abbrev pub server_name : ℕ → Text → Text
server_name id name =
    bytes "node-" ++ (format_uint id ++ (bytes ".net-" ++ (name ++ bytes ".chainspace")))

-- `Nodes`: the loop from `i` on, with so many turns left.
unfoldable pub count_from : ℕ → ℕ → List ℕ
count_from i zero = []
count_from i (suc left) = (i + 1) ∷ count_from (i + 1) left

module _ (d : Decoders) where
  -- `nodeConfig`, with the fields of the TLS configuration that are set.
  pub record NodeConfig : Type 0 where
    pub key : Text
    pub root_cas : d.Pool
    pub server_name : Text

  -- `Topology`. `contacts` is the map of the addresses.
  pub record Topology : Type 0 where
    pub contacts : Map ℕ Text
    pub id : Text
    pub name : Text
    pub nodes : Map ℕ NodeConfig
    pub raw_id : Text
    pub node_count : ℕ

  -- The switch on the type of the transport certificate.
  unfoldable pub load_cert : PeerKey → Result d.Pool
  load_cert cert =
      if same cert.type (bytes "ecdsa")
      then or_error bad_certificate (d.append_certs cert.value) (λ pool. ok pool)
      else error unknown_certificate_type

  -- The switch on the type of the signing key.
  unfoldable pub load_key : PeerKey → Result Text
  load_key key =
      if same key.type (bytes "ed25519")
      then or_error bad_key_encoding (d.decode key.value)
          (λ pubkey. or_error bad_key (load_public_key ed25519 pubkey) (λ k. ok k))
      else error unknown_key_type

  -- The body of the loop over the seed nodes.
  unfoldable pub load_peer : Text → ℕ → Peer → Result NodeConfig
  load_peer name id node =
      if id == 0
      then error node_with_zero_id
      else load_cert node.transport_cert >>= λ pool. load_key node.signing_key >>= λ key.
          ok (record { key = key; root_cas = pool; server_name = server_name id name })

  -- The loop over the seed nodes.
  unfoldable pub load_peers : Text → Map ℕ Peer → Map ℕ NodeConfig → Result (Map ℕ NodeConfig)
  load_peers name [] nodes = ok nodes
  load_peers name ((id, node) ∷ seeds) nodes =
      load_peer name id node >>= λ cfg. load_peers name seeds (put id cfg nodes)

  -- `New`.
  unfoldable pub new : Text → Network → Result Topology
  new name cfg = load_peers name cfg.seed_nodes [] >>= λ nodes.
      or_error bad_id (d.decode cfg.id) λ raw_id. or_error no_hash (hash d.sum cfg) λ expected.
        if not (same expected raw_id)
        then error mismatched_id
        else ok (record {
          contacts = [];
          id = cfg.id;
          name = name;
          nodes = nodes;
          raw_id = raw_id;
          node_count = length cfg.seed_nodes;
        })

  -- `contacts.get`, which `Lookup` calls: a missing address is empty.
  abbrev pub lookup : ℕ → Topology → Text
  lookup id t = elim (find id t.contacts) [ none ↦ [] | some address ↦ address ]

  -- `contacts.set`.
  abbrev pub set_contact : ℕ → Text → Topology → Topology
  set_contact id address t = record t { contacts = put id address t.contacts }

  -- `BootstrapStatic`.
  unfoldable pub bootstrap_static : Map ℕ Text → Topology → Topology
  bootstrap_static [] t = t
  bootstrap_static ((id, address) ∷ addresses) t =
      bootstrap_static addresses (set_contact id address t)

  -- The loop of `bootstrapRegistries` over the addresses, nodes and ports of the response.
  unfoldable pub bootstrap_registry : List (Text × ℕ × ℕ) → Topology → Topology
  bootstrap_registry [] t = t
  bootstrap_registry ((addr, id, port) ∷ found) t =
      let address = addr ++ (bytes ":" ++ format_uint port) in
      bootstrap_registry found (if same (lookup id t) address then t else set_contact id address t)

  -- `Dial`, up to the call of `tls.DialWithDialer`: with what it is called, or the error.
  pub data Dialing : Type 0 where
    dials : Text → NodeConfig → Dialing
    no_config no_address : Dialing

  abbrev dial_at : Text → NodeConfig → Dialing
  dial_at addr cfg = if length addr == 0 then no_address else dials addr cfg

  unfoldable pub dial : ℕ → Topology → Dialing
  dial id t = elim (find id t.nodes) [ none ↦ no_config | some cfg ↦ dial_at (lookup id t) cfg ]

  -- `SeedPublicKeys`.
  unfoldable pub keys_of : Map ℕ NodeConfig → Map ℕ Text
  keys_of [] = []
  keys_of ((id, cfg) ∷ nodes) = (id, cfg.key) ∷ keys_of nodes

  abbrev pub seed_public_keys : Topology → Map ℕ Text
  seed_public_keys t = keys_of t.nodes

  abbrev pub node_ids : Topology → List ℕ
  node_ids t = count_from 0 t.node_count
