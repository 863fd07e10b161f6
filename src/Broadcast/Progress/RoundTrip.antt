-- ===== src/Broadcast/Progress/RoundTrip.antt =====
-- The maps are read back as they were written.
use mathlib.Core.List.{append-nil, append_assoc}
use blockmania.Prelude.{
  ℕ, [], ◌∷◌, ◌++◌, Map, find, put, nat_key, length, none, ℕ_discrete, All, false, ◌≡◌, ◌≢◌, refl,
  ap, sym, ◌∙◌, IsU64, arith,
}
use blockmania.Lexinum.{value}
use blockmania.Broadcast.Words.{put_u64}
use blockmania.Broadcast.Words.RoundTrip.{read_u64-put_u64}
use blockmania.Broadcast.Database.{Database, IsDatabase}
use blockmania.Broadcast.Cache.{ReceivedInfo}
use blockmania.Broadcast.Keys.{received_map_prefix, sent_map_prefix}
use blockmania.Broadcast.Replies.{returned, of_decoded}
use blockmania.Broadcast.Store.{BlockStore}
use blockmania.Broadcast.Progress.{
  encode_received, read_received, encode_sent, read_sent, set_received_map, get_received_map,
  set_sent_map, get_sent_map,
}

module _ {V : Type 0} where
  -- A key occurs once, as in a Go map.
  abbrev pub IsMap : Map ℕ V → Type 0
  IsMap [] = Unit {0}
  IsMap ((k, v) ∷ m) = (find k m ≡ none) × IsMap m

  -- None of the keys is in the other map.
  abbrev pub Apart : Map ℕ V → Map ℕ V → Type 0
  Apart acc [] = Unit {0}
  Apart acc ((k, v) ∷ m) = (find k acc ≡ none) × Apart acc m

  put-new : (k : ℕ) (v : V) (m : Map ℕ V) → find k m ≡ none → put k v m ≡ m ++ ((k, v) ∷ [])
  unfolding put find
  put-new k v [] h = refl
  put-new k v ((j, w) ∷ m) h = ground (arith, put-new k v m)

  find-append :
      (k : ℕ) (acc : Map ℕ V) (j : ℕ) (v : V)
      → find k acc ≡ none
      → j ≢ k
      → find k (acc ++ ((j, v) ∷ [])) ≡ none
  unfolding find
  find-append k [] j v h differs = ground arith
  find-append k ((i, w) ∷ acc) j v h differs = ground (arith, find-append k acc j v)

  Apart-append :
      (acc m : Map ℕ V) (k : ℕ) (v : V)
      → Apart acc m
      → find k m ≡ none
      → Apart (acc ++ ((k, v) ∷ [])) m
  unfolding find
  Apart-append acc [] k v h new = tt
  Apart-append acc ((j, w) ∷ m) k v h new = elim (ℕ_discrete j k) [
    | yes same ↦ absurd (ground arith)
    | no differs ↦ (
      find-append j acc k v h.0 (λ e. differs (sym e)),
      Apart-append acc m k v h.1 (ground arith),
    )
  ]

  Apart-nil : (m : Map ℕ V) → Apart [] m
  unfolding find
  Apart-nil [] = tt
  Apart-nil ((k, v) ∷ m) = (refl, Apart-nil m)

abbrev pub FitsInfo : ℕ × ReceivedInfo → Type 0
FitsInfo (node, info) = IsU64 node × IsU64 info.latest × IsU64 info.sequence

abbrev pub FitsRound : ℕ × ℕ → Type 0
FitsRound (node, round) = IsU64 node × IsU64 round

read_received-encode_received :
    (acc m : Map ℕ ReceivedInfo)
    → All FitsInfo m
    → IsMap m
    → Apart acc m
    → read_received (length m) acc (encode_received m) ≡ value (acc ++ m)
unfolding read_received encode_received
read_received-encode_received acc [] fits once apart = ap value (sym (append-nil acc))
read_received-encode_received acc ((node, info) ∷ m) fits once apart =
    let ((a, b, c), others) = fits in
    let rest = encode_received m in
    rw
      (
        read_u64-put_u64 node (put_u64 info.latest ++ (put_u64 info.sequence ++ rest)) a,
        read_u64-put_u64 info.latest (put_u64 info.sequence ++ rest) b,
        read_u64-put_u64 info.sequence rest c,
        put-new node info acc apart.0,
      )
      (read_received-encode_received (acc ++ ((node, info) ∷ [])) m others once.1
          (Apart-append acc m node info apart.1 once.0)
        ∙ ap value (append_assoc acc ((node, info) ∷ []) m))

read_sent-encode_sent :
    (acc m : Map ℕ ℕ)
    → All FitsRound m
    → IsMap m
    → Apart acc m
    → read_sent (length m) acc (encode_sent m) ≡ value (acc ++ m)
unfolding read_sent encode_sent
read_sent-encode_sent acc [] fits once apart = ap value (sym (append-nil acc))
read_sent-encode_sent acc ((node, round) ∷ m) fits once apart =
    let ((a, b), others) = fits in
    let rest = encode_sent m in
    rw
      (
        read_u64-put_u64 node (put_u64 round ++ rest) a,
        read_u64-put_u64 round rest b,
        put-new node round acc apart.0,
      )
      (read_sent-encode_sent (acc ++ ((node, round) ∷ [])) m others once.1
          (Apart-append acc m node round apart.1 once.0)
        ∙ ap value (append_assoc acc ((node, round) ∷ []) m))

module _ {D : Type 0} {db : Database D} (law : IsDatabase db) (s : BlockStore D)
    (is_open : s.closed ≡ false) where
  -- A received map, with its numbers below 2 ^ 64, is written to an open store and read back the same.
  get_received_map-set_received_map :
      (m : Map ℕ ReceivedInfo)
      → All FitsInfo m
      → IsMap m
      → IsU64 (length m)
      → (s' : BlockStore D) × (set_received_map db s m ≡ returned s')
        × (get_received_map db s' ≡ returned m)
  unfolding set_received_map get_received_map
  get_received_map-set_received_map m fits once few =
      let val = put_u64 (length m) ++ encode_received m in
      (
        record s { content = db.put_key (received_map_prefix ∷ []) val s.content },
        rw is_open refl,
        rw
            (
              is_open,
              law.get-put_key_self (received_map_prefix ∷ []) val s.content,
              read_u64-put_u64 (length m) (encode_received m) few,
            )
            (ap of_decoded (read_received-encode_received [] m fits once (Apart-nil m))),
      )

  -- The same for the map of what was sent.
  get_sent_map-set_sent_map :
      (m : Map ℕ ℕ)
      → All FitsRound m
      → IsMap m
      → IsU64 (length m)
      → (s' : BlockStore D) × (set_sent_map db s m ≡ returned s')
        × (get_sent_map db s' ≡ returned m)
  unfolding set_sent_map get_sent_map
  get_sent_map-set_sent_map m fits once few =
      let val = put_u64 (length m) ++ encode_sent m in
      (
        record s { content = db.put_key (sent_map_prefix ∷ []) val s.content },
        rw is_open refl,
        rw
            (
              is_open,
              law.get-put_key_self (sent_map_prefix ∷ []) val s.content,
              read_u64-put_u64 (length m) (encode_sent m) few,
            )
            (ap of_decoded (read_sent-encode_sent [] m fits once (Apart-nil m))),
      )
