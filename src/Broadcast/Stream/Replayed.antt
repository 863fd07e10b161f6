-- ===== src/Broadcast/Stream/Replayed.antt =====
-- What the replay of the stored block graphs gives to the interpreter.
use blockmania.Prelude.{
  ℕ, zero, suc, ◌+◌, ◌-◌, ◌≤◌, ◌<◌, List, [], ◌∷◌, ◌++◌, length, take, drop, take-drop, drop-drop,
  length-take, length-drop, some, true, false, ltb, ltb→lt, ◌==◌, Bool-cases, inl, inr, All, IsU64,
  add_u64, ◌≡◌, refl, sym, ap, subst, ◌∙◌, arith, take_all, suc_le_zero,
}
use blockmania.Consensus.Block.{BlockId, BlockGraph}
use blockmania.Lexinum.{encode, value}
use blockmania.Broadcast.Database.{Database}
use blockmania.Broadcast.Keys.{block_graph_key, decode_block_id}
use blockmania.Broadcast.Keys.Separated.{decode_block_id-encode_block_id}
use blockmania.Broadcast.Graphs.{encode_block_graph}
use blockmania.Broadcast.Graphs.RoundTrip.{FitsGraph, decode_block_graph-encode_block_graph}
use blockmania.Broadcast.Replies.{returned}
use blockmania.Broadcast.Store.{BlockStore}
use blockmania.Broadcast.Stream.{graph_prefix, collect_graphs, get_block_graphs, replay}

module _ {A : Type 0} where
  All-drop : (P : A → Type 0) (n : ℕ) (xs : List A) → All P xs → All P (drop n xs)
  All-drop P zero xs h = h
  All-drop P (suc n) [] h = tt
  All-drop P (suc n) (x ∷ xs) h = All-drop P n xs h.1

decode_block_id-block_graph_key :
    (id : BlockId)
    → IsU64 id.node
    → IsU64 id.round
    → decode_block_id (drop 1 (block_graph_key id)) ≡ value id
unfolding block_graph_key
decode_block_id-block_graph_key id node round = decode_block_id-encode_block_id id node round

abbrev pub graph_keys : List BlockGraph → List (List ℕ)
graph_keys [] = []
graph_keys (g ∷ gs) = block_graph_key g.block ∷ graph_keys gs

module _ {D : Type 0} (db : Database D) where
  pub record IsStoredGraph (d : D) (g : BlockGraph) : Type 0 where
    pub there : db.get (block_graph_key g.block) d ≡ some (encode_block_graph g)
    pub fits : FitsGraph g
    pub node : IsU64 g.block.node
    pub round : IsU64 g.block.round

  collect_graphs-graph_keys :
      (limit count : ℕ) (gs : List BlockGraph) (d : D)
      → count < limit
      → All (IsStoredGraph d) gs
      → collect_graphs db limit count (graph_keys gs) d ≡ returned (take (limit - count) gs)
  unfolding collect_graphs
  collect_graphs-graph_keys limit count [] d more h =
      ap returned (sym (take_all (limit - count) [] (omega arith)))
  collect_graphs-graph_keys limit count (g ∷ gs) d more (h, others) =
      let left : limit - count ≡ suc (limit - (count + 1)) = omega arith in
      let id : decode_block_id (drop 1 (block_graph_key g.block)) ≡ value g.block =
        decode_block_id-block_graph_key g.block h.node h.round in
      elim (Bool-cases (count + 1 == limit)) [
        | inl last ↦
            let none_left : limit - (count + 1) ≡ 0 = ground arith in
            rw (id, h.there, decode_block_graph-encode_block_graph g h.fits, last, left, none_left)
              refl
        | inr further ↦
            let rest = collect_graphs-graph_keys limit (count + 1) gs d (ground arith) others in
            rw (id, h.there, decode_block_graph-encode_block_graph g h.fits, further, rest, left)
              refl
      ]

  get_block_graphs-graph_keys :
      (s : BlockStore D) (node from limit : ℕ) (gs : List BlockGraph)
      → s.closed ≡ false
      → 0 < limit
      → db.keys_from (graph_prefix node) (graph_prefix node ++ encode from) s.content
        ≡ graph_keys gs
      → All (IsStoredGraph s.content) gs
      → get_block_graphs db s node from limit ≡ returned (take limit gs)
  unfolding get_block_graphs
  get_block_graphs-graph_keys s node from limit gs is_open some_room visited h =
      let whole : limit - 0 ≡ limit = omega arith in
      rw (is_open, visited)
        (collect_graphs-graph_keys limit 0 gs s.content some_room h
          ∙ ap (λ n. returned (take n gs)) whole)

  -- If the database visits the keys of a node's block graphs in the order of their rounds, one for each
  -- round from `from` on, the replay in batches ends and gives exactly these block graphs, each once, in
  -- order, when it may take a turn for each.
  pub replay-graph_keys :
      (turns : ℕ) (s : BlockStore D) (node from batch : ℕ) (gs : List BlockGraph)
      → s.closed ≡ false
      → IsU64 from
      → 0 < batch
      → length gs ≤ turns
      → ((j : ℕ)
          → j ≤ length gs
          → db.keys_from
              (graph_prefix node)
              (graph_prefix node ++ encode (add_u64 from j))
              s.content
            ≡ graph_keys (drop j gs))
      → All (IsStoredGraph s.content) gs
      → replay db turns s node from batch ≡ returned gs
  unfolding replay
  replay-graph_keys zero s node from batch [] is_open fits some_room enough visited h =
      let here : add_u64 from 0 ≡ from = omega arith in
      let first =
        subst (λ f. db.keys_from (graph_prefix node) (graph_prefix node ++ encode f) s.content ≡ [])
          here (visited 0 (omega arith)) in
      let none_left = take_all {A = BlockGraph} batch [] (omega arith) in
      let short : ltb 0 batch ≡ true = ground arith in
      rw
        (
          get_block_graphs-graph_keys s node from batch [] is_open some_room first tt,
          none_left,
          short,
        )
        refl
  replay-graph_keys zero s node from batch (g ∷ gs) is_open fits some_room enough visited h =
      elim (suc_le_zero enough) [ ]
  replay-graph_keys (suc turns) s node from batch gs is_open fits some_room enough visited h =
      let here : add_u64 from 0 ≡ from = omega arith in
      let first =
        subst
          (λ f.
            db.keys_from (graph_prefix node) (graph_prefix node ++ encode f) s.content
            ≡ graph_keys gs)
          here (visited 0 (omega arith)) in
      let read = get_block_graphs-graph_keys s node from batch gs is_open some_room first h in
      elim (Bool-cases (ltb (length gs) batch)) [
        | inl short ↦
            rw (read, take_all batch gs (omega (arith, ltb→lt (length gs) batch short)), short) refl
        | inr full ↦
            let batch_there : batch ≤ length gs = ground arith in
            let taken = length-take batch gs batch_there in
            let not_short : ltb batch batch ≡ false = ground arith in
            let left = length-drop batch gs in
            let others =
              replay-graph_keys turns s node (add_u64 from batch) batch (drop batch gs) is_open
                (omega arith) some_room (omega (arith, left))
                (λ j within.
                  let there : add_u64 from (batch + j) ≡ add_u64 (add_u64 from batch) j =
                    omega arith in
                  subst
                    (λ f.
                      db.keys_from (graph_prefix node) (graph_prefix node ++ encode f) s.content
                      ≡ graph_keys (drop j (drop batch gs)))
                    there
                    (visited (batch + j) (omega (arith, left))
                      ∙ ap graph_keys (sym (drop-drop batch j (batch + j) gs refl))))
                (All-drop (IsStoredGraph s.content) batch gs h) in
            rw (read, taken, not_short, others, take-drop batch gs) refl
      ]
