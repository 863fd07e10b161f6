-- ===== src/Config/Generate/Accepted.antt =====
-- The network takes the configuration that was made for it.
use blockmania.Prelude.{
  ℕ, ◌+◌, ◌<◌, List, [], ◌∷◌, map, ◌≡◌, refl, ap, sym, ◌∙◌, Map, find, put, find-put_self,
  find-put_ne, nat_key, some, ◌&&◌, length, All, arith,
}
use blockmania.Prelude.Texts.{Text, bytes, same_refl}
use blockmania.Config.Settings.{Peer, Network, hash}
use blockmania.Network.Topology
use blockmania.Network.Topology.{
  Decoders, NodeConfig, Topology, count_from, node_ids, load_cert, load_key, load_peer, load_peers,
  server_name,
}
use blockmania.Config.Generate.{
  Config, Tools, ok, fatal_no_file, no_directory, fatal_no_id, or_error, join, registries,
  NodeFiles, gen_nodes, seeds_only, generate,
}
use blockmania.Config.Generate.Results.{
  or_error-eq-ok, Gives, Gives-eq, Gives-ok, Gives-require, Gives-bind,
}
use blockmania.Config.Generate.Peers.{AreMatched, IsTrusted, Makes}
use blockmania.Config.Generate.Loop.{Adds, gen_nodes-Adds}

module _ (tools : Tools) (d : Decoders) (m : AreMatched tools d) (c : Config) where
  -- The configuration of a node is one that it can be trusted with.
  abbrev pub TrustsIn : Map ℕ (NodeConfig d) → NodeFiles → Type 0
  TrustsIn nodes f =
      (cfg : NodeConfig d) × (find f.id nodes ≡ some cfg) × IsTrusted tools d m c.network_name f cfg

  -- What the loop of `New` makes of peers that load.
  record AreLoaded (i : ℕ) (files : List NodeFiles) (news : Map ℕ Peer)
      (nodes : Map ℕ (NodeConfig d)) : Type 0 where
    loaded : Map ℕ (NodeConfig d)
    returns : load_peers d c.network_name news nodes ≡ Topology.ok loaded
    old : (j : ℕ) → j < i → find j loaded ≡ find j nodes
    trusted : All (TrustsIn loaded) files
    ids : (k : ℕ) → i ≡ k + 1 → map (λ f. f.id) files ≡ count_from k (length news)

  load_peers-made :
      (i : ℕ) (files : List NodeFiles) (news : Map ℕ Peer) (nodes : Map ℕ (NodeConfig d))
      → Makes tools d m c.network_name i files news
      → AreLoaded i files news nodes
  unfolding load_peers count_from
  load_peers-made i [] [] nodes made = record {
    loaded = nodes;
    returns = refl;
    old = λ j h. refl;
    trusted = tt;
    ids = λ k h. refl;
  }
  load_peers-made i [] (p ∷ ps) nodes made = elim made [ ]
  load_peers-made i (f ∷ fs) [] nodes made = elim made [ ]
  load_peers-made i (f ∷ fs) ((id, p) ∷ ps) nodes (at, same_id, (cfg, loads, trusts), made) =
      let r = load_peers-made (i + 1) fs ps (put f.id cfg nodes) made in
      record {
        loaded = r.loaded;
        returns =
            ap
              (λ (j : ℕ).
                Topology.◌>>=◌ (load_peer d c.network_name j p)
                  (λ cfg'. load_peers d c.network_name ps (put j cfg' nodes)))
              (same_id ∙ sym at)
            ∙ rw loads r.returns;
        old = λ j h. r.old j (omega arith) ∙ find-put_ne f.id j cfg nodes (λ e. omega arith);
        trusted =
            ((cfg, r.old f.id (omega arith) ∙ find-put_self f.id cfg nodes, trusts), r.trusted);
        ids = λ k h.
            ap (λ l. f.id ∷ l) (r.ids (k + 1) (omega arith))
            ∙ ap (λ (j : ℕ). j ∷ count_from (k + 1) (length ps)) (at ∙ h);
      }

  -- What `New` makes of the network: it has all the nodes that were made, and no other.
  pub record IsAccepted (r : List NodeFiles × Network) : Type 0 where
    pub topology : Topology d
    pub returns : Topology.new d c.network_name r.1 ≡ Topology.ok topology
    pub count : topology.node_count ≡ c.node_count
    pub ids : map (λ f. f.id) r.0 ≡ node_ids d topology
    pub trusted : All (TrustsIn topology.nodes) r.0

  new-made :
      (files : List NodeFiles) (peers : Map ℕ Peer) (id : Text)
      → Adds tools d m c 1 c.node_count [] (files, peers)
      → hash tools.sum (seeds_only c peers) ≡ some id
      → IsAccepted (files, record (seeds_only c peers) { id = tools.encode id })
  unfolding Topology.new hash
  new-made files peers id a sum =
      let r = load_peers-made 1 files a.news [] a.made in
      let loads : load_peers d c.network_name peers [] ≡ Topology.ok r.loaded =
        ap (λ l. load_peers d c.network_name l []) a.appended ∙ r.returns in
      let size : length peers ≡ c.node_count = ap length a.appended ∙ a.all in
      record {
        topology = record {
          contacts = [];
          id = tools.encode id;
          name = c.network_name;
          nodes = r.loaded;
          raw_id = id;
          node_count = length peers;
        };
        returns = rw (loads, m.decodes id, m.same_sum peers, sum, same_refl id) refl;
        count = size;
        ids = r.ids 0 refl ∙ ap (count_from 0) (ap length (sym a.appended));
        trusted = r.trusted;
      }

  generate-IsAccepted : Gives (generate tools c) IsAccepted
  unfolding generate
  generate-IsAccepted =
      let dir = join c.config_root c.network_name in
      Gives-require (tools.makes c.config_root && tools.makes dir) no_directory _ IsAccepted (
        Gives-bind (registries tools c) _ (λ _. Unit {0}) IsAccepted
          (Gives-eq (registries tools c) (λ _. Unit {0}) (λ _ _. tt))
          λ regs _.
            Gives-bind (gen_nodes tools c regs 1 c.node_count c.http_port c.pubsub_port []) _
              (Adds tools d m c 1 c.node_count []) IsAccepted
              (gen_nodes-Adds tools d m c regs 1 c.node_count c.http_port c.pubsub_port [] (λ e. cc)
                tt)
              λ (files, peers) a.
                Gives-bind (or_error fatal_no_id (hash tools.sum (seeds_only c peers))) _
                  (λ id. hash tools.sum (seeds_only c peers) ≡ some id) IsAccepted
                  (Gives-eq (or_error fatal_no_id (hash tools.sum (seeds_only c peers))) _
                    (λ id e. or_error-eq-ok fatal_no_id _ id e))
                  λ id sum.
                    Gives-require (tools.writes (join dir (bytes "network.yaml"))) fatal_no_file _
                      IsAccepted (new-made files peers id a sum))

  -- If `Generate` succeeds, `New` of the network package accepts the network that it wrote under the
  -- name that it was made for; the topology has as many nodes as were asked for, its `Nodes` are
  -- those whose files were written, in order, and each of them has the public key of its own
  -- `keys.yaml` and a certificate for the server name that `Dial` expects of it.
  pub new-generate : (r : List NodeFiles × Network) → generate tools c ≡ ok r → IsAccepted r
  new-generate r done = Gives-ok (generate tools c) IsAccepted r generate-IsAccepted done
