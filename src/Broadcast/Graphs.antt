-- ===== src/Broadcast/Graphs.antt =====
-- The block graphs in the store (broadcast/store.go): `encodeBlockGraph`, and the decoding of a value
-- in `getBlockGraphs`. Reading past the end of a value is a panic.
pub mod RoundTrip
use blockmania.Prelude.{
  ℕ, zero, suc, ◌+◌, ◌*◌, ◌/◌, ◌%◌, List, [], ◌∷◌, ◌++◌, length, take, drop, ltb, ◌==◌,
  if◌then◌else◌,
}
use blockmania.Consensus.Block.{BlockId, Dep, BlockGraph, no_block, valid}
use blockmania.Lexinum.{Decoded, value, panic, on_value}
use blockmania.Broadcast.Words.{Reading, put_u16, put_u32, read_u16, read_u32}
use blockmania.Broadcast.Keys.{encode_block_id, decode_block_id}

-- An identifier behind its length.
unfoldable pub encode_sized : BlockId → List ℕ
encode_sized id = put_u16 (length (encode_block_id id)) ++ encode_block_id id

-- A previous block, or the length 0 if there is none.
unfoldable pub encode_prev : BlockId → List ℕ
encode_prev prev = if valid prev then encode_sized prev else 0 ∷ 0 ∷ []

unfoldable pub encode_links : List BlockId → List ℕ
encode_links [] = []
encode_links (link ∷ links) = encode_sized link ++ encode_links links

unfoldable pub encode_dep : Dep → List ℕ
encode_dep dep =
    encode_sized dep.block
    ++ (encode_prev dep.prev ++ (put_u32 (length dep.deps) ++ encode_links dep.deps))

unfoldable pub encode_deps : List Dep → List ℕ
encode_deps [] = []
encode_deps (dep ∷ deps) = encode_dep dep ++ encode_deps deps

-- `encodeBlockGraph`.
unfoldable pub encode_block_graph : BlockGraph → List ℕ
encode_block_graph b = encode_prev b.prev ++ (put_u32 (length b.deps) ++ encode_deps b.deps)

-- `decodeBlockID(val[idx : idx+ksize])`.
unfoldable pub read_id : ℕ × List ℕ → Reading BlockId
read_id (size, d) =
    if ltb (length d) size
    then panic
    else on_value (decode_block_id (take size d)) (λ id. value (id, drop size d))

unfoldable pub read_sized : List ℕ → Reading BlockId
read_sized d = on_value (read_u16 d) read_id

-- `if ksize > 0`.
abbrev pub read_optional : ℕ × List ℕ → Reading BlockId
read_optional (size, d) = if size == 0 then value (no_block, d) else read_id (size, d)

unfoldable pub read_prev : List ℕ → Reading BlockId
read_prev d = on_value (read_u16 d) read_optional

-- The loop over the links of a reference.
unfoldable pub read_links : ℕ → List ℕ → Reading (List BlockId)
read_links zero d = value ([], d)
read_links (suc n) d =
    on_value (read_sized d)
      λ (link, d'). on_value (read_links n d') λ (links, d''). value (link ∷ links, d'')

unfoldable pub read_dep : List ℕ → Reading Dep
read_dep d = on_value (read_sized d) λ (block, d1). on_value (read_prev d1) λ (prev, d2).
    on_value (read_u32 d2) λ (n, d3).
      on_value (read_links n d3)
        λ (links, d4). value (record { block = block; deps = links; prev = prev }, d4)

-- The loop over the references.
unfoldable pub read_deps : ℕ → List ℕ → Reading (List Dep)
read_deps zero d = value ([], d)
read_deps (suc n) d =
    on_value (read_dep d)
      λ (dep, d'). on_value (read_deps n d') λ (deps, d''). value (dep ∷ deps, d'')

-- The body of the loop of `getBlockGraphs`, for a key with the identifier `id` and its value.
unfoldable pub decode_block_graph : BlockId → List ℕ → Decoded BlockGraph
decode_block_graph id val = on_value (read_prev val) λ (prev, d). on_value (read_u32 d) λ (n, d').
    on_value (read_deps n d')
      λ (deps, rest). value (record { block = id; deps = deps; prev = prev })
