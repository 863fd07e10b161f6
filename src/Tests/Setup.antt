-- ===== src/Tests/Setup.antt =====
-- Keys and the configuration of a network, with concrete tools.
use blockmania.Prelude.{
  ℕ, List, [], ◌∷◌, ◌≡◌, refl, Option, none, some, true, false, replicate, subst, maybe, length,
  arith,
}
use blockmania.Prelude.Texts.{Text, bytes}
use blockmania.Crypto.Signature.{
  Scheme, IsScheme, KeyPair, algorithm_name, algorithm_from_string, gen_key_pair, key_pair_value,
  load_key_pair, load_public_key, load_private_key, sign, verify,
}
use blockmania.Crypto.Signature.Saved.{load-gen_key_pair}
use blockmania.Crypto.Certificate.{gen_cert}
use blockmania.Config.Settings.{Network, hash}
use blockmania.Network.Topology.{Decoders}
use blockmania.Config.Generate.{
  Config, Tools, Result, ok, error, NodeFiles, seeds_only, generate, registries, gen_nodes,
  gen_keys,
}
use blockmania.Config.Generate.Peers.{AreMatched}
use blockmania.Config.Generate.Accepted.{IsAccepted, new-generate}

-- A key is its seed, over and over, and a signature the message.
abbrev toy_scheme : Scheme
toy_scheme = record {
  generate_key = λ seed. some (replicate 32 seed, replicate 64 seed);
  sign = λ key message. message;
  verify = λ key message sig. true;
}

toy_scheme-IsScheme : IsScheme toy_scheme
toy_scheme-IsScheme = record {
  public_length = λ seed p k h. of_pair seed p k h (λ a b. length a ≡ 32) refl;
  private_length = λ seed p k h. of_pair seed p k h (λ a b. length b ≡ 64) refl;
  verifies = λ seed p k message h. refl;
}
  where
    of_pair :
        (seed : ℕ) (p k : Text)
        → ◌≡◌ {A = Option (Text × Text)} (some (replicate 32 seed, replicate 64 seed)) (some (p, k))
        → (P : Text → Text → Type 0) → P (replicate 32 seed) (replicate 64 seed)
        → P p k
    of_pair seed p k h P base = subst (λ o. maybe o Unit (λ (a, b). P a b)) h base

abbrev toy_pair : KeyPair
toy_pair = record { public_key = replicate 32 7; private_key = replicate 64 7 }

load-gen_key_pair_example :
    (algorithm_from_string (algorithm_name 1) ≡ some 1)
    × (load_key_pair 1 (key_pair_value toy_pair) ≡ some toy_pair)
    × (load_public_key 1 toy_pair.public_key ≡ some toy_pair.public_key)
    × (load_private_key 1 toy_pair.private_key ≡ some toy_pair.private_key)
    × (verify toy_scheme toy_pair.public_key
          (4 ∷ 5 ∷ [])
          (sign toy_scheme toy_pair.private_key (4 ∷ 5 ∷ []))
        ≡ true)
unfolding gen_key_pair
load-gen_key_pair_example =
    load-gen_key_pair toy_scheme toy_scheme-IsScheme 1 7 toy_pair (4 ∷ 5 ∷ []) refl

-- A certificate is its common name.
abbrev toy_tools : Tools
toy_tools = record {
  makes = λ path. true;
  writes = λ path. true;
  token = none;
  scheme = toy_scheme;
  key_seed = λ id. id;
  create = λ name. some ([], name);
  encode = λ v. 0 ∷ v;
  sum = λ peers. some (3 ∷ []);
  parses_url = λ text. true;
}

abbrev without_first : Text → Option Text
without_first [] = none
without_first (b ∷ v) = some v

abbrev toy_decoders : Decoders
toy_decoders = record {
  Pool = Text;
  append_certs = some;
  decode = without_first;
  sum = λ peers. some (3 ∷ []);
}

toy_tools-AreMatched : AreMatched toy_tools toy_decoders
toy_tools-AreMatched = record {
  names = λ pool. pool;
  scheme = toy_scheme-IsScheme;
  decodes = λ v. refl;
  reads = λ name priv public h. (public, refl, ground (arith, h));
  same_sum = λ peers. refl;
}

abbrev four_nodes : Config
four_nodes = record {
  network_name = bytes "dev";
  config_root = bytes "conf";
  registry = [];
  round_interval = 1000000000;
  http_port = 8000;
  pubsub_port = 9000;
  node_count = 4;
  fixed_port = false;
  disable_http = false;
  disable_pubsub = false;
}

abbrev made : Result (List NodeFiles × Network) → List NodeFiles × Network
made (ok r) = r
made (error e) = ([], seeds_only four_nodes [])

new-generate_example :
    IsAccepted toy_tools toy_decoders toy_tools-AreMatched four_nodes
      (made (generate toy_tools four_nodes))
unfolding generate registries gen_nodes gen_keys gen_key_pair gen_cert hash
new-generate_example =
    new-generate toy_tools toy_decoders toy_tools-AreMatched four_nodes
      (made (generate toy_tools four_nodes)) refl
