-- ===== src/Config/Generate/Ports.antt =====
-- The ports of the nodes that were made.
use blockmania.Prelude.{
  ℕ, zero, suc, ◌+◌, List, [], ◌∷◌, ◌++◌, map, ◌≡◌, refl, ap, ◌∙◌, Map, put, nat_key, false, ◌&&◌,
  arith,
}
use blockmania.Prelude.Texts.{bytes}
use blockmania.Config.ByteSize.{format_uint}
use blockmania.Config.Settings.{Peer, Network, Registry, hash}
use blockmania.Network.Topology.{count_from}
use blockmania.Config.Generate.{
  Config, Tools, ok, fatal_no_file, no_directory, fatal_no_id, or_error, join, next_port,
  registries, node_config, gen_keys, NodeFiles, as_peer, gen_nodes, seeds_only, generate,
}
use blockmania.Config.Generate.Results.{Gives, Gives-eq, Gives-ok, Gives-require, Gives-bind}

module _ (tools : Tools) (c : Config) where
  -- The ports run on from those of the configuration.
  record HavePorts (http_port pubsub_port left : ℕ) (files : List NodeFiles) : Type 0 where
    http : map (λ f. f.node.http.port) files ≡ count_from http_port left
    pubsub : map (λ f. f.node.pubsub.port) files ≡ count_from pubsub_port left

  gen_nodes-HavePorts :
      (regs : List Registry) (i left h p : ℕ) (peers : Map ℕ Peer)
      → c.fixed_port ≡ false
      → c.disable_http ≡ false
      → c.disable_pubsub ≡ false
      → Gives (gen_nodes tools c regs i left h p peers) (λ r. HavePorts h p left r.0)
  unfolding gen_nodes count_from node_config
  gen_nodes-HavePorts regs i zero h p peers free http_on pubsub_on = record {
    http = refl;
    pubsub = refl;
  }
  gen_nodes-HavePorts regs i (suc left) h p peers free http_on pubsub_on =
      let h' = next_port c.fixed_port c.disable_http h in
      let p' = next_port c.fixed_port c.disable_pubsub p in
      let up_h : h' ≡ h + 1 = ground arith in
      let up_p : p' ≡ p + 1 = ground arith in
      let dir = join (join c.config_root c.network_name) (bytes "node-" ++ format_uint i) in
      let path = join dir (bytes "keys.yaml") in
      let After = λ (r : List NodeFiles × Map ℕ Peer). HavePorts h p (suc left) r.0 in
      Gives-require (tools.makes dir) no_directory _ After (
        Gives-bind (gen_keys tools path c.network_name i) _ (λ _. Unit {0}) After
          (Gives-eq (gen_keys tools path c.network_name i) (λ _. Unit {0}) (λ _ _. tt))
          λ (pair, cert, keys) _.
            let peers' = put i (as_peer tools pair cert) peers in
            Gives-require (tools.writes (join dir (bytes "node.yaml"))) fatal_no_file _ After (
              Gives-bind (gen_nodes tools c regs (i + 1) left h' p' peers') _
                (λ r. HavePorts h' p' left r.0) After
                (gen_nodes-HavePorts regs (i + 1) left h' p' peers' free http_on pubsub_on)
                λ r have. record {
                  http = ap (λ l. h' ∷ l) have.http ∙ ap (λ (n : ℕ). n ∷ count_from n left) up_h;
                  pubsub =
                      ap (λ l. p' ∷ l) have.pubsub ∙ ap (λ (n : ℕ). n ∷ count_from n left) up_p;
                }))

  -- What holds of the files of the nodes.
  generate-files :
      (P : List NodeFiles → Type 0)
      → ((regs : List Registry)
          → Gives (gen_nodes tools c regs 1 c.node_count c.http_port c.pubsub_port []) (λ r. P r.0))
      → Gives (generate tools c) (λ r. P r.0)
  unfolding generate
  generate-files P nodes =
      let dir = join c.config_root c.network_name in
      let After = λ (r : List NodeFiles × Network). P r.0 in
      Gives-require (tools.makes c.config_root && tools.makes dir) no_directory _ After (
        Gives-bind (registries tools c) _ (λ _. Unit {0}) After
          (Gives-eq (registries tools c) (λ _. Unit {0}) (λ _ _. tt))
          λ regs _.
            Gives-bind (gen_nodes tools c regs 1 c.node_count c.http_port c.pubsub_port []) _
              (λ r. P r.0) After (nodes regs)
              λ (files, peers) holds.
                Gives-bind (or_error fatal_no_id (hash tools.sum (seeds_only c peers))) _
                  (λ _. Unit {0}) After
                  (Gives-eq (or_error fatal_no_id (hash tools.sum (seeds_only c peers)))
                    (λ _. Unit {0}) (λ _ _. tt))
                  λ id _.
                    Gives-require (tools.writes (join dir (bytes "network.yaml"))) fatal_no_file _
                      After holds)

  -- If `Generate` succeeds with ports that are not fixed and both services on, the HTTP ports of the
  -- nodes run on from the one after the configured port, in order, and so do the ports for
  -- publishing from theirs.
  ports-generate :
      (r : List NodeFiles × Network)
      → c.fixed_port ≡ false
      → c.disable_http ≡ false
      → c.disable_pubsub ≡ false
      → generate tools c ≡ ok r
      → (map (λ f. f.node.http.port) r.0 ≡ count_from c.http_port c.node_count)
        × (map (λ f. f.node.pubsub.port) r.0 ≡ count_from c.pubsub_port c.node_count)
  ports-generate r free http_on pubsub_on done =
      let have =
        Gives-ok (generate tools c) (λ z. HavePorts c.http_port c.pubsub_port c.node_count z.0) r
          (generate-files (HavePorts c.http_port c.pubsub_port c.node_count) λ regs.
            gen_nodes-HavePorts regs 1 c.node_count c.http_port c.pubsub_port [] free http_on
              pubsub_on)
          done in
      (have.http, have.pubsub)
