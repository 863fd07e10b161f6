-- ===== src/Broadcast/Store/OwnBlock.antt =====
-- What the store says of a block of the node, once it is written.
use blockmania.Prelude.{
  ℕ, List, [], ◌∷◌, some, true, false, ok, ◌==◌, ◌≡◌, refl, subst, ◌∙◌, All, IsU64,
}
use mathlib.Core.List.{append-nil}
use blockmania.Consensus.Block.{BlockId, Dep, BlockGraph}
use blockmania.Broadcast.Wire.{SignedData, Codec, IsCodec}
use blockmania.Broadcast.Database.{Database, IsDatabase}
use blockmania.Lexinum.{value, encode}
use blockmania.Broadcast.Words.{put_u64, read_u64}
use blockmania.Broadcast.Words.RoundTrip.{read_u64-put_u64}
use blockmania.Broadcast.Keys.{
  encode_block_id, block_key, block_graph_key, included_key, own_block_key, last_block_ref_prefix,
  last_hash_prefix, last_round_prefix, block_prefix, own_block_prefix, block_graph_prefix,
  included_prefix, not_included_prefix,
}
use blockmania.Broadcast.Graphs.{encode_block_graph}
use blockmania.Broadcast.Replies.{returned}
use blockmania.Broadcast.Depgraph.{is_stored}
use blockmania.Broadcast.Depgraph.Ready.{All-mono}
use blockmania.Broadcast.Store.{
  BlockStore, fetch_signed, get_block, get_own_block, get_last_round_data, mark_deps, unmark_deps,
  put_own_block, set_own_block, for_depgraph,
}
use blockmania.Broadcast.Store.Heads.{
  get-put_key_head, get-mark_deps, get-unmark_deps, mark_deps-All,
}

-- The little-endian number alone in a value.
pub read_u64-alone : (n : ℕ) → IsU64 n → read_u64 (put_u64 n) ≡ value (n, [])
read_u64-alone n h =
    subst (λ l. read_u64 l ≡ value (n, [])) (append-nil (put_u64 n)) (read_u64-put_u64 n [] h)

module _ {D : Type 0} {db : Database D} {codec : Codec SignedData} (law : IsDatabase db)
    (code : IsCodec codec) where
  pub fetch_signed-marshal :
      (key : List ℕ) (d : D) (block : SignedData)
      → db.get key d ≡ some (codec.marshal block)
      → fetch_signed db codec key d ≡ returned block
  unfolding fetch_signed
  fetch_signed-marshal key d block there = rw (there, code.unmarshal-marshal block) refl

  is_stored-found :
      (s : BlockStore D) (id : BlockId)
      → s.closed ≡ false
      → db.get (included_key id) s.content ≡ some (1 ∷ [])
      → is_stored (for_depgraph db s) id ≡ ok true
  unfolding is_stored for_depgraph
  is_stored-found s id is_open there = rw (is_open, there) refl

  module _ (block block_ref : SignedData) (graph : BlockGraph) (d : D) where
    abbrev first : D
    first = put_own_block db codec block block_ref graph d

    abbrev written : D
    written =
        db.put_key (own_block_key graph.block.round) (codec.marshal block)
          (unmark_deps db graph.deps (mark_deps db graph.deps first))

    -- A value that none of the last writes touches.
    get-written :
        (p : ℕ) (xs : List ℕ)
        → (own_block_prefix == p) ≡ false
        → (not_included_prefix == p) ≡ false
        → (included_prefix == p) ≡ false
        → db.get (p ∷ xs) written ≡ db.get (p ∷ xs) first
    unfolding own_block_key
    get-written p xs own waiting included =
        get-put_key_head law p own_block_prefix xs (encode graph.block.round) (codec.marshal block)
          (unmark_deps db graph.deps (mark_deps db graph.deps first)) own
        ∙ get-unmark_deps law p xs graph.deps (mark_deps db graph.deps first) waiting
        ∙ get-mark_deps law p xs graph.deps first included

    get_own-written : db.get (own_block_key graph.block.round) written ≡ some (codec.marshal block)
    get_own-written =
        law.get-put_key_self (own_block_key graph.block.round) (codec.marshal block)
          (unmark_deps db graph.deps (mark_deps db graph.deps first))

    get_block-written : db.get (block_key graph.block) written ≡ some (codec.marshal block)
    unfolding block_key block_graph_key put_own_block
    get_block-written =
        get-written block_prefix (encode_block_id graph.block) refl refl refl
        ∙ get-put_key_head law block_prefix last_round_prefix (encode_block_id graph.block) [] _ _
            refl
        ∙ get-put_key_head law block_prefix last_hash_prefix (encode_block_id graph.block) [] _ _
            refl
        ∙ get-put_key_head law block_prefix block_graph_prefix (encode_block_id graph.block)
            (encode_block_id graph.block) _ _ refl
        ∙ get-put_key_head law block_prefix last_block_ref_prefix (encode_block_id graph.block) [] _
            _ refl
        ∙ law.get-put_key_self (block_key graph.block) (codec.marshal block) d

    get_ref-written : db.get (last_block_ref_prefix ∷ []) written ≡ some (codec.marshal block_ref)
    unfolding block_graph_key put_own_block
    get_ref-written =
        get-written last_block_ref_prefix [] refl refl refl
        ∙ get-put_key_head law last_block_ref_prefix last_round_prefix [] [] _ _ refl
        ∙ get-put_key_head law last_block_ref_prefix last_hash_prefix [] [] _ _ refl
        ∙ get-put_key_head law last_block_ref_prefix block_graph_prefix []
            (encode_block_id graph.block) _ _ refl
        ∙ law.get-put_key_self (last_block_ref_prefix ∷ []) (codec.marshal block_ref) _

    get_graph-written :
        db.get (block_graph_key graph.block) written ≡ some (encode_block_graph graph)
    unfolding block_graph_key put_own_block
    get_graph-written =
        get-written block_graph_prefix (encode_block_id graph.block) refl refl refl
        ∙ get-put_key_head law block_graph_prefix last_round_prefix (encode_block_id graph.block) []
            _ _ refl
        ∙ get-put_key_head law block_graph_prefix last_hash_prefix (encode_block_id graph.block) []
            _ _ refl
        ∙ law.get-put_key_self (block_graph_key graph.block) (encode_block_graph graph) _

    get_hash-written : db.get (last_hash_prefix ∷ []) written ≡ some graph.block.hash
    unfolding put_own_block
    get_hash-written =
        get-written last_hash_prefix [] refl refl refl
        ∙ get-put_key_head law last_hash_prefix last_round_prefix [] [] _ _ refl
        ∙ law.get-put_key_self (last_hash_prefix ∷ []) graph.block.hash _

    get_round-written : db.get (last_round_prefix ∷ []) written ≡ some (put_u64 graph.block.round)
    unfolding put_own_block
    get_round-written =
        get-written last_round_prefix [] refl refl refl
        ∙ law.get-put_key_self (last_round_prefix ∷ []) (put_u64 graph.block.round) _

    get_dep-written :
        (dep : Dep)
        → db.get (included_key dep.block) (mark_deps db graph.deps first) ≡ some (1 ∷ [])
        → db.get (included_key dep.block) written ≡ some (1 ∷ [])
    unfolding included_key own_block_key
    get_dep-written dep marked =
        get-put_key_head law included_prefix own_block_prefix (encode_block_id dep.block)
          (encode graph.block.round) (codec.marshal block)
          (unmark_deps db graph.deps (mark_deps db graph.deps first)) refl
        ∙ get-unmark_deps law included_prefix (encode_block_id dep.block) graph.deps
            (mark_deps db graph.deps first) refl
        ∙ marked

  -- What the store reads after a write of the node's own block.
  pub record OwnStored (s : BlockStore D) (block block_ref : SignedData) (graph : BlockGraph)
      : Type 0 where
    pub is_open : s.closed ≡ false
    pub by_round : get_own_block db codec s graph.block.round ≡ returned block
    pub by_id : get_block db codec s graph.block ≡ returned block
    pub last :
        get_last_round_data db codec s ≡ returned (graph.block.round, graph.block.hash, block_ref)
    pub graph_value :
        db.get (block_graph_key graph.block) s.content ≡ some (encode_block_graph graph)
    pub deps_included :
        All (λ (dep : Dep). is_stored (for_depgraph db s) dep.block ≡ ok true) graph.deps

  -- `setOwnBlock` on an open store succeeds and leaves it open, and afterwards the block is found by its round and by its
  -- identifier, it is the last one, its graph is stored, and every block that it brings in is included.
  pub set_own_block-OwnStored :
      (s : BlockStore D) (block block_ref : SignedData) (graph : BlockGraph)
      → s.closed ≡ false
      → IsU64 graph.block.round
      → (s' : BlockStore D) × (set_own_block db codec s block block_ref graph ≡ returned s')
        × OwnStored s' block block_ref graph
  unfolding set_own_block get_own_block get_block get_last_round_data
  set_own_block-OwnStored s block block_ref graph is_open fits =
      let d = s.content in
      let s' : BlockStore D = record s { content = written block block_ref graph d } in
      (
        s',
        rw is_open refl,
        record {
          is_open = is_open;
          by_round = rw is_open (
              fetch_signed-marshal (own_block_key graph.block.round) _ block
                (get_own-written block block_ref graph d));
          by_id = rw is_open (
              fetch_signed-marshal (block_key graph.block) _ block
                (get_block-written block block_ref graph d));
          last =
              rw
                (
                  is_open,
                  get_hash-written block block_ref graph d,
                  get_round-written block block_ref graph d,
                  read_u64-alone graph.block.round fits,
                  fetch_signed-marshal (last_block_ref_prefix ∷ []) _ block_ref
                      (get_ref-written block block_ref graph d),
                )
                refl;
          graph_value = get_graph-written block block_ref graph d;
          deps_included =
              All-mono
                (λ (dep : Dep).
                  db.get (included_key dep.block)
                    (mark_deps db graph.deps (first block block_ref graph d))
                  ≡ some (1 ∷ []))
                (λ (dep : Dep). is_stored (for_depgraph db s') dep.block ≡ ok true) graph.deps
                (λ dep marked.
                  is_stored-found s' dep.block is_open
                    (get_dep-written block block_ref graph d dep marked))
                (mark_deps-All law graph.deps (first block block_ref graph d));
        },
      )
