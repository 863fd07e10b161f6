-- ===== src/Broadcast/Progress.antt =====
-- The received map and the map of what was sent, as the store keeps them (broadcast/store.go).
pub mod RoundTrip
use blockmania.Prelude.{ℕ, zero, suc, List, [], ◌∷◌, ◌++◌, Map, put, nat_key, length, if◌then◌else◌}
use blockmania.Lexinum.{Decoded, value, on_value}
use blockmania.Broadcast.Words.{Reading, put_u64, read_u64}
use blockmania.Broadcast.Database.{Database}
use blockmania.Broadcast.Cache.{ReceivedInfo}
use blockmania.Broadcast.Keys.{received_map_prefix, sent_map_prefix}
use blockmania.Broadcast.Replies.{Reply, returned, ◌>>=◌, of_decoded}
use blockmania.Broadcast.Store.{BlockStore, with_open, fetch}

-- The loop of `setReceivedMap`: 24 bytes for each entry.
unfoldable pub encode_received : Map ℕ ReceivedInfo → List ℕ
encode_received [] = []
encode_received ((node, info) ∷ m) =
    put_u64 node ++ (put_u64 info.latest ++ (put_u64 info.sequence ++ encode_received m))

-- The loop of `getReceivedMap`.
unfoldable pub read_received : ℕ → Map ℕ ReceivedInfo → List ℕ → Decoded (Map ℕ ReceivedInfo)
read_received zero m val = value m
read_received (suc n) m val = on_value (read_u64 val) λ (node, v1).
    on_value (read_u64 v1) λ (latest, v2). on_value (read_u64 v2) λ (sequence, v3).
      read_received n (put node (record { latest = latest; sequence = sequence }) m) v3

-- The loop of `setSentMap`: 16 bytes for each entry.
unfoldable pub encode_sent : Map ℕ ℕ → List ℕ
encode_sent [] = []
encode_sent ((node, round) ∷ m) = put_u64 node ++ (put_u64 round ++ encode_sent m)

-- The loop of `getSentMap`.
unfoldable pub read_sent : ℕ → Map ℕ ℕ → List ℕ → Decoded (Map ℕ ℕ)
read_sent zero m val = value m
read_sent (suc n) m val =
    on_value (read_u64 val)
      λ (node, v1). on_value (read_u64 v1) λ (round, v2). read_sent n (put node round m) v2

module _ {D : Type 0} (db : Database D) where
  unfoldable pub set_received_map : BlockStore D → Map ℕ ReceivedInfo → Reply (BlockStore D)
  set_received_map s m = with_open s λ d. returned (record s {
    content = db.put_key (received_map_prefix ∷ []) (put_u64 (length m) ++ encode_received m) d;
  })

  unfoldable pub get_received_map : BlockStore D → Reply (Map ℕ ReceivedInfo)
  get_received_map s = with_open s λ d. fetch db (received_map_prefix ∷ []) d >>= λ val.
      of_decoded (on_value (read_u64 val) (λ (n, val'). read_received n [] val'))

  unfoldable pub set_sent_map : BlockStore D → Map ℕ ℕ → Reply (BlockStore D)
  set_sent_map s m = with_open s λ d. returned (record s {
    content = db.put_key (sent_map_prefix ∷ []) (put_u64 (length m) ++ encode_sent m) d;
  })

  unfoldable pub get_sent_map : BlockStore D → Reply (Map ℕ ℕ)
  get_sent_map s = with_open s λ d. fetch db (sent_map_prefix ∷ []) d >>= λ val.
      of_decoded (on_value (read_u64 val) (λ (n, val'). read_sent n [] val'))
