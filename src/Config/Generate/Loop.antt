-- ===== src/Config/Generate/Loop.antt =====
-- What the loop over the nodes adds to the peers.
use blockmania.Prelude.{
  ℕ, zero, suc, ◌+◌, ◌<◌, ◌≢◌, List, [], ◌∷◌, ◌++◌, ◌≡◌, refl, ap, sym, subst, ◌∙◌, Map, put,
  nat_key, if_neg, ℕ_discrete, length, All, arith,
}
use mathlib.Core.List.{append_assoc, append-nil}
use blockmania.Prelude.Texts.{bytes}
use blockmania.Config.ByteSize.{format_uint}
use blockmania.Config.Settings.{Peer, Registry, Keys, Node}
use blockmania.Crypto.Signature.{KeyPair}
use blockmania.Crypto.Certificate.{Cert}
use blockmania.Network.Topology.{Decoders}
use blockmania.Config.Generate.{
  Config, Tools, fatal_no_file, no_directory, join, next_port, node_config, gen_keys, NodeFiles,
  as_peer, gen_nodes,
}
use blockmania.Config.Generate.Results.{Gives, Gives-eq, Gives-require, Gives-bind}
use blockmania.Config.Generate.Peers.{AreMatched, Loads, Makes, gen_keys-Loads}

-- The ids of the peers are below a number.
abbrev pub IsBelow : ℕ → Map ℕ Peer → Type 0
IsBelow i peers = All (λ z. z.0 < i) peers

put_fresh :
    (i : ℕ) (p : Peer) (peers : Map ℕ Peer)
    → IsBelow i peers
    → put i p peers ≡ peers ++ ((i, p) ∷ [])
unfolding put
put_fresh i p [] h = refl
put_fresh i p ((j, q) ∷ peers) h =
    if_neg (ℕ_discrete j i) (λ e. omega (arith, h.0)) _ _
    ∙ ap (λ l. (j, q) ∷ l) (put_fresh i p peers h.1)

put-IsBelow :
    (i : ℕ) (p : Peer) (peers : Map ℕ Peer)
    → IsBelow i peers
    → IsBelow (i + 1) (peers ++ ((i, p) ∷ []))
put-IsBelow i p [] h = (omega arith, tt)
put-IsBelow i p ((j, q) ∷ peers) h = (omega (arith, h.0), put-IsBelow i p peers h.1)

module _ (tools : Tools) (d : Decoders) (m : AreMatched tools d) (c : Config) where
  -- What the loop adds to the peers.
  pub record Adds (i left : ℕ) (peers : Map ℕ Peer) (r : List NodeFiles × Map ℕ Peer) : Type 0 where
    pub news : Map ℕ Peer
    pub appended : r.1 ≡ peers ++ news
    pub made : Makes tools d m c.network_name i r.0 news
    pub all : length news ≡ left

  Adds-one :
      (i left : ℕ) (peers : Map ℕ Peer) (peer : Peer) (f : NodeFiles)
      (r : List NodeFiles × Map ℕ Peer)
      → IsBelow i peers
      → f.id ≡ i
      → Loads tools d m c.network_name f peer
      → Adds (i + 1) left (put i peer peers) r
      → Adds i (suc left) peers (f ∷ r.0, r.1)
  Adds-one i left peers peer f r below at loads a = record {
    news = (i, peer) ∷ a.news;
    appended =
        a.appended
        ∙ ap (λ l. l ++ a.news) (put_fresh i peer peers below)
        ∙ append_assoc peers ((i, peer) ∷ []) a.news;
    made = (at, refl, loads, a.made);
    all = omega (arith, a.all);
  }

  abbrev LoadsAll : ℕ → KeyPair × Cert × Keys → Type 0
  LoadsAll i (pair, cert, keys) =
      (node : Node)
      → Loads tools d m c.network_name (record { id = i; keys = keys; node = node })
          (as_peer tools pair cert)

  pub gen_nodes-Adds :
      (regs : List Registry) (i left http_port pubsub_port : ℕ) (peers : Map ℕ Peer)
      → i ≢ 0
      → IsBelow i peers
      → Gives (gen_nodes tools c regs i left http_port pubsub_port peers) (Adds i left peers)
  unfolding gen_nodes
  gen_nodes-Adds regs i zero h p peers positive below = record {
    news = [];
    appended = sym (append-nil peers);
    made = tt;
    all = refl;
  }
  gen_nodes-Adds regs i (suc left) h p peers positive below =
      let h' = next_port c.fixed_port c.disable_http h in
      let p' = next_port c.fixed_port c.disable_pubsub p in
      let dir = join (join c.config_root c.network_name) (bytes "node-" ++ format_uint i) in
      let path = join dir (bytes "keys.yaml") in
      let node = node_config c regs h' p' in
      Gives-require (tools.makes dir) no_directory _ (Adds i (suc left) peers) (
        Gives-bind (gen_keys tools path c.network_name i) _ (LoadsAll i) (Adds i (suc left) peers)
          (Gives-eq (gen_keys tools path c.network_name i) (LoadsAll i)
            (λ (pair, cert, keys) made node'.
              gen_keys-Loads tools d m c.network_name path i pair cert keys node' positive made))
          λ (pair, cert, keys) loads.
            let peer = as_peer tools pair cert in
            let f : NodeFiles = record { id = i; keys = keys; node = node } in
            Gives-require (tools.writes (join dir (bytes "node.yaml"))) fatal_no_file _
              (Adds i (suc left) peers)
              (Gives-bind (gen_nodes tools c regs (i + 1) left h' p' (put i peer peers)) _
                (Adds (i + 1) left (put i peer peers)) (Adds i (suc left) peers)
                (gen_nodes-Adds regs (i + 1) left h' p' (put i peer peers) (omega arith) (
                  subst (IsBelow (i + 1)) (sym (put_fresh i peer peers below))
                    (put-IsBelow i peer peers below)))
                (λ r a. Adds-one i left peers peer f r below refl (loads node) a)))
