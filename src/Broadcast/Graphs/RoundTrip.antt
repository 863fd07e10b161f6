-- ===== src/Broadcast/Graphs/RoundTrip.antt =====
-- Decoding a stored block graph.
use mathlib.Core.List.{append_assoc, append-nil}
use blockmania.Prelude.{
  take-append, drop-append, ℕ, ◌^◌, ◌<◌, List, [], ◌∷◌, ◌++◌, length, length-append, ltb, ◌==◌,
  if◌then◌else◌, ◌≡◌, refl, ap, sym, ◌∙◌, ◌⊎◌, inl, inr, IsU64, All, arith, Bool, true, false,
}
use blockmania.Consensus.Block.{BlockId, Dep, BlockGraph, no_block, valid}
use blockmania.Lexinum.{value, on_value, encode}
use blockmania.Broadcast.Keys.{encode_block_id}
use blockmania.Broadcast.Keys.Separated.{decode_block_id-encode_block_id}
use blockmania.Broadcast.Words.{put_u16, put_u32, read_u16}
use blockmania.Broadcast.Words.RoundTrip.{read_u16-put_u16, read_u32-put_u32}
use blockmania.Broadcast.Graphs.{
  encode_sized, encode_prev, encode_links, encode_dep, encode_deps, encode_block_graph, read_id,
  read_sized, read_optional, read_prev, read_links, read_dep, read_deps, decode_block_graph,
}

-- An identifier whose numbers and whose encoding's length fit their places.
pub record FitsId (id : BlockId) : Type 0 where
  pub node : IsU64 id.node
  pub round : IsU64 id.round
  pub short : length (encode_block_id id) < 2 ^ 16

-- A previous block: one with a hash, or none.
abbrev pub FitsPrev : BlockId → Type 0
FitsPrev prev = (valid prev ≡ true) × FitsId prev ⊎ (prev ≡ no_block)

pub record FitsDep (dep : Dep) : Type 0 where
  pub block : FitsId dep.block
  pub prev : FitsPrev dep.prev
  pub few : length dep.deps < 2 ^ 32
  pub links : All FitsId dep.deps

pub record FitsGraph (b : BlockGraph) : Type 0 where
  pub prev : FitsPrev b.prev
  pub few : length b.deps < 2 ^ 32
  pub deps : All FitsDep b.deps

read_id-encode_block_id :
    (id : BlockId) (d : List ℕ)
    → FitsId id
    → read_id (length (encode_block_id id), encode_block_id id ++ d) ≡ value (id, d)
unfolding read_id
read_id-encode_block_id id d fits =
    let bytes = encode_block_id id in
    let enough : ltb (length (bytes ++ d)) (length bytes) ≡ false =
      ground (arith, length-append bytes d) in
    rw
      (
        enough,
        take-append bytes d (length bytes) refl,
        decode_block_id-encode_block_id id fits.node fits.round,
        drop-append bytes d (length bytes) refl,
      )
      refl

read_sized-encode_sized :
    (id : BlockId) (d : List ℕ) → FitsId id → read_sized (encode_sized id ++ d) ≡ value (id, d)
unfolding read_sized encode_sized
read_sized-encode_sized id d fits =
    let bytes = encode_block_id id in
    ap (λ l. on_value (read_u16 l) read_id) (append_assoc (put_u16 (length bytes)) bytes d)
    ∙ ap (λ r. on_value r read_id) (read_u16-put_u16 (length bytes) (bytes ++ d) fits.short)
    ∙ read_id-encode_block_id id d fits

encode_block_id-positive : (id : BlockId) → 0 < length (encode_block_id id)
unfolding encode_block_id
encode_block_id-positive id =
    omega (arith, length-append (encode id.node) (0 ∷ (encode id.round ++ (0 ∷ id.hash))))

read_u16_zero : (d : List ℕ) → read_prev (encode_prev no_block ++ d) ≡ value (no_block, d)
unfolding read_prev encode_prev read_u16
read_u16_zero d = refl

read_prev-encode_prev :
    (prev : BlockId) (d : List ℕ)
    → FitsPrev prev
    → read_prev (encode_prev prev ++ d) ≡ value (prev, d)
unfolding read_prev encode_prev encode_sized
read_prev-encode_prev prev d (inl (there, fits)) =
    let bytes = encode_block_id prev in
    let some_bytes : (length bytes == 0) ≡ false = ground (arith, encode_block_id-positive prev) in
    ap
      (λ (b : Bool).
        on_value (read_u16 ((if b then put_u16 (length bytes) ++ bytes else 0 ∷ 0 ∷ []) ++ d))
          read_optional)
      there
    ∙ ap (λ l. on_value (read_u16 l) read_optional) (append_assoc (put_u16 (length bytes)) bytes d)
    ∙ ap (λ r. on_value r read_optional) (read_u16-put_u16 (length bytes) (bytes ++ d) fits.short)
    ∙ ap
        (λ (b : Bool).
          if b then value (no_block, bytes ++ d) else read_id (length bytes, bytes ++ d))
        some_bytes
    ∙ read_id-encode_block_id prev d fits
read_prev-encode_prev prev d (inr missing) =
    ap (λ p. read_prev (encode_prev p ++ d)) missing
    ∙ read_u16_zero d
    ∙ ap (λ p. value (p, d)) (sym missing)

read_links-encode_links :
    (links : List BlockId) (d : List ℕ)
    → All FitsId links
    → read_links (length links) (encode_links links ++ d) ≡ value (links, d)
unfolding read_links encode_links
read_links-encode_links [] d fits = refl
read_links-encode_links (link ∷ links) d fits =
    rw
      (
        append_assoc (encode_sized link) (encode_links links) d,
        read_sized-encode_sized link (encode_links links ++ d) fits.0,
        read_links-encode_links links d fits.1,
      )
      refl

read_dep-encode_dep :
    (dep : Dep) (d : List ℕ) → FitsDep dep → read_dep (encode_dep dep ++ d) ≡ value (dep, d)
unfolding read_dep encode_dep
read_dep-encode_dep dep d fits =
    let links = encode_links dep.deps in
    let sized = put_u32 (length dep.deps) in
    rw
      (
        append_assoc (encode_sized dep.block) (encode_prev dep.prev ++ (sized ++ links)) d,
        read_sized-encode_sized dep.block ((encode_prev dep.prev ++ (sized ++ links)) ++ d)
            fits.block,
        append_assoc (encode_prev dep.prev) (sized ++ links) d,
        read_prev-encode_prev dep.prev ((sized ++ links) ++ d) fits.prev,
        append_assoc sized links d,
        read_u32-put_u32 (length dep.deps) (links ++ d) fits.few,
        read_links-encode_links dep.deps d fits.links,
      )
      refl

read_deps-encode_deps :
    (deps : List Dep) (d : List ℕ)
    → All FitsDep deps
    → read_deps (length deps) (encode_deps deps ++ d) ≡ value (deps, d)
unfolding read_deps encode_deps
read_deps-encode_deps [] d fits = refl
read_deps-encode_deps (dep ∷ deps) d fits =
    rw
      (
        append_assoc (encode_dep dep) (encode_deps deps) d,
        read_dep-encode_dep dep (encode_deps deps ++ d) fits.0,
        read_deps-encode_deps deps d fits.1,
      )
      refl

-- `getBlockGraphs` reads back the block graph that `encodeBlockGraph` wrote under the block's key, if
-- its numbers, its counts and the lengths of its identifiers fit their places and a previous block
-- without a hash is the zero value.
pub decode_block_graph-encode_block_graph :
    (b : BlockGraph) → FitsGraph b → decode_block_graph b.block (encode_block_graph b) ≡ value b
unfolding decode_block_graph encode_block_graph
decode_block_graph-encode_block_graph b fits =
    let sized = put_u32 (length b.deps) in
    rw
      (
        read_prev-encode_prev b.prev (sized ++ encode_deps b.deps) fits.prev,
        read_u32-put_u32 (length b.deps) (encode_deps b.deps) fits.few,
        sym (append-nil (encode_deps b.deps)),
        read_deps-encode_deps b.deps [] fits.deps,
      )
      refl
