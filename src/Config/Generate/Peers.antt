-- ===== src/Config/Generate/Peers.antt =====
-- What the network makes of one node's key and certificate.
use blockmania.Prelude.{
  ℕ, ◌+◌, ◌≢◌, List, [], ◌∷◌, ◌≡◌, refl, ap, sym, ◌∙◌, Map, nat_key, Option, none, some, false,
  ◌==◌, arith,
}
use blockmania.Prelude.Texts.{Text}
use blockmania.Config.Settings.{Peer, Keys, Node}
use blockmania.Crypto.Signature.{IsScheme, KeyPair, ed25519, algorithm_name, gen_key_pair}
use blockmania.Crypto.Signature.Saved.{load-gen_key_pair}
use blockmania.Crypto.Certificate.{Cert, ecdsa, cert_type_name, common_name, as_cert, gen_cert}
use blockmania.Network.Topology
use blockmania.Network.Topology.{
  Decoders, NodeConfig, Topology, count_from, node_ids, load_cert, load_key, load_peer, load_peers,
  server_name,
}
use blockmania.Config.Generate.{Tools, ok, gen_keys, NodeFiles, as_peer, no_keys}
use blockmania.Config.Generate.Results.{>>=-eq-ok, require-eq-ok, or_error-eq-ok, ok-injective}

-- The tools and the decoders of the network fit together: base32 is decoded as it was encoded, a
-- certificate that was made is read, as one for its common name, and both sides hash alike.
pub record AreMatched (tools : Tools) (d : Decoders) : Type 0 where
  pub names : d.Pool → Text
  pub scheme : IsScheme tools.scheme
  pub decodes : (v : Text) → d.decode (tools.encode v) ≡ some v
  pub reads :
      (name priv public : Text)
      → tools.create name ≡ some (priv, public)
      → (pool : d.Pool) × (d.append_certs public ≡ some pool) × (names pool ≡ name)
  pub same_sum : (peers : Map ℕ Peer) → d.sum peers ≡ tools.sum peers

as_cert-eq-some :
    (o : Option (Text × Text)) (cert : Cert)
    → as_cert o ≡ some cert
    → (priv : Text) × (o ≡ some (priv, cert.public_pem)) × (cert.type ≡ ecdsa)
as_cert-eq-some none cert h = cc
as_cert-eq-some (some (priv, public)) cert h = (priv, ground arith, ground arith)

module _ (tools : Tools) (d : Decoders) (m : AreMatched tools d) (name : Text) where
  -- The network has the key that was made for the node, and a certificate for the name that it
  -- expects of it.
  pub record IsTrusted (f : NodeFiles) (cfg : NodeConfig d) : Type 0 where
    pub key : f.keys.signing_key.public_text ≡ tools.encode cfg.key
    pub named : m.names cfg.root_cas ≡ cfg.server_name
    pub server : cfg.server_name ≡ server_name f.id name

  abbrev pub Loads : NodeFiles → Peer → Type 0
  Loads f p = (cfg : NodeConfig d) × (load_peer d name f.id p ≡ Topology.ok cfg) × IsTrusted f cfg

  -- The files are of the nodes from `i` on, with these peers.
  abbrev pub Makes : ℕ → List NodeFiles → Map ℕ Peer → Type 0
  Makes i [] [] = Unit
  Makes i [] (p ∷ ps) = ⊥
  Makes i (f ∷ fs) [] = ⊥
  Makes i (f ∷ fs) ((id, p) ∷ ps) = (f.id ≡ i) × (id ≡ i) × Loads f p × Makes (i + 1) fs ps

  load_cert-made :
      (cert : Cert) (id : ℕ)
      → gen_cert tools.create ecdsa name id ≡ some cert
      → (pool : d.Pool) × (load_cert d
            (record { type = cert_type_name cert.type; value = cert.public_pem })
          ≡ Topology.ok pool)
        × (m.names pool ≡ common_name id name)
  unfolding gen_cert load_cert
  load_cert-made cert id made =
      let (priv, created, is) = as_cert-eq-some (tools.create (common_name id name)) cert made in
      let (pool, reads, named) = m.reads (common_name id name) priv cert.public_pem created in
      (
        pool,
        ap (λ (t : ℕ). load_cert d (record { type = cert_type_name t; value = cert.public_pem })) is
            ∙ rw reads refl,
        named,
      )

  load_key-made :
      (pair : KeyPair) (seed : ℕ)
      → gen_key_pair tools.scheme ed25519 seed ≡ some pair
      → load_key d (record { type = algorithm_name ed25519; value = tools.encode pair.public_key })
        ≡ Topology.ok pair.public_key
  unfolding load_key
  load_key-made pair seed made =
      let (known, whole, public, private, verified) =
        load-gen_key_pair tools.scheme m.scheme ed25519 seed pair [] made in
      rw (m.decodes pair.public_key, public) refl

  pub gen_keys-Loads :
      (path : Text) (i : ℕ) (pair : KeyPair) (cert : Cert) (keys : Keys) (node : Node)
      → i ≢ 0
      → gen_keys tools path name i ≡ ok (pair, cert, keys)
      → Loads (record { id = i; keys = keys; node = node }) (as_peer tools pair cert)
  unfolding gen_keys load_peer
  gen_keys-Loads path i pair cert keys node positive made =
      let (pair', paired, made') = >>=-eq-ok _ _ (pair, cert, keys) made in
      let (cert', certified, made'') = >>=-eq-ok _ _ (pair, cert, keys) made' in
      let written = require-eq-ok (tools.writes path) no_keys _ (pair, cert, keys) made'' in
      let same_parts = ok-injective _ (pair, cert, keys) written in
      let generated : gen_key_pair tools.scheme ed25519 (tools.key_seed i) ≡ some pair =
        or_error-eq-ok no_keys _ pair' paired ∙ ap (λ z. some z.0) same_parts in
      let cert_made : gen_cert tools.create ecdsa name i ≡ some cert =
        or_error-eq-ok no_keys _ cert' certified ∙ ap (λ z. some z.1) same_parts in
      let (pool, loaded, named) = load_cert-made cert i cert_made in
      let key = load_key-made pair (tools.key_seed i) generated in
      let not_zero : (i == 0) ≡ false = ground arith in
      let cfg : NodeConfig d = record {
        key = pair.public_key;
        root_cas = pool;
        server_name = server_name i name;
      } in
      (
        cfg,
        rw (not_zero, loaded, key) refl,
        record {
          key =
              ap (λ z. z.2.signing_key.public_text) (sym same_parts)
              ∙ ap (λ z. tools.encode z.0.public_key) same_parts;
          named = named;
          server = refl;
        },
      )
