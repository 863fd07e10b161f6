-- ===== src/Broadcast/Fetch.antt =====
-- Asking a peer for the rounds of its blocks that are missing: the inner loop of `fillMissingBlocks`
-- (broadcast/broadcast.go), as a turn up to the request and a turn from the reply on. Sleeping, the
-- connection, its retries and logging are left out.
pub mod Complete
use blockmania.Prelude.{
  ℕ, List, [], ◌∷◌, Option, none, some, Map, Bool, not, ◌&&◌, ◌==◌, if◌then◌else◌, maybe,
}
use blockmania.Broadcast.Wire.{SignedData, Codec}
use blockmania.Broadcast.Database.{Database}
use blockmania.Broadcast.Cache.{ReceivedInfo, get_received, set_sequence}
use blockmania.Broadcast.Replies.{Reply, returned, failed, crashed}
use blockmania.Broadcast.Checks.{Crypto}
use blockmania.Broadcast.Missing.{get_missing}
use blockmania.Broadcast.Missing.Gaps.{contains}
use blockmania.Broadcast.Service.{
  Service, Processed, taken, turned_down, not_stored, process_signed,
}

-- `rounds`, where an empty list is nil, and `latest`.
pub record Fetch : Type 0 where
  pub rounds : List ℕ
  pub latest : ℕ

-- What the turn up to the request comes to: it sleeps, it goes on with the next turn, it asks for
-- rounds, or the process ends.
pub data Asked (D : Type 0) : Type 0 where
  sleeps : Asked D
  skips : Service D → Asked D
  asks : Fetch → Asked D
  exits : Asked D

-- What the turn from the reply on comes to; an empty reply is a retry on a new connection.
pub data Replied (D : Type 0) : Type 0 where
  retries : Replied D
  fetched : Service D → Fetch → Replied D
  ends : Replied D

-- The loop over the rounds that were asked for: `latestSeen` and `missing`.
unfoldable pub split_seen : List ℕ → List ℕ → ℕ → ℕ × List ℕ
split_seen seen [] latest_seen = (latest_seen, [])
split_seen seen (round ∷ rounds) latest_seen =
    let here = contains round seen in
    let (last, missing) = split_seen seen rounds (if here then round else latest_seen) in
    (last, if here then missing else round ∷ missing)

module _ {D : Type 0} where
  abbrev pub move_sequence : Service D → ℕ → ℕ → Service D
  move_sequence s peer round = record s { received = set_sequence s.received peer round }

  -- What follows a call of `getMissing`.
  abbrev pub on_missing : Service D → ℕ → ReceivedInfo → Reply (List ℕ × ℕ) → Asked D
  on_missing s peer info (returned ([], latest)) = skips (
      if not (latest == info.sequence) && not (latest == 0) then move_sequence s peer latest else s)
  on_missing s peer info (returned (round ∷ rounds, latest)) =
      asks (record { rounds = round ∷ rounds; latest = latest })
  on_missing s peer info (failed e) = exits
  on_missing s peer info crashed = exits

  -- The sequence that a reply leaves.
  abbrev pub settle_sequence : Service D → ℕ → Fetch → ℕ × List ℕ → Service D
  settle_sequence s peer f (latest_seen, []) =
      if latest_seen == 0 then s else move_sequence s peer latest_seen
  settle_sequence s peer f (latest_seen, round ∷ missing) =
      if latest_seen == 0 then s else move_sequence s peer f.latest

module _ {D : Type 0} (db : Database D) where
  -- The turn up to the request.
  unfoldable pub ask : Service D → ℕ → Fetch → Asked D
  ask s peer f =
      let info = get_received s.received peer in
      elim f.rounds [
        | [] ↦
            if info.latest == info.sequence
            then sleeps
            else on_missing s peer info (get_missing db s.store peer info.sequence s.max_blocks)
        | round ∷ rounds ↦ asks f
      ]

module _ {D K : Type 0} (db : Database D) (codec : Codec SignedData) (crypto : Crypto K)
    (keys : Map ℕ K) where
  -- What follows a call of `processBlock`: a block that is turned down is passed over.
  abbrev pub on_processed :
      Service D
      → (Service D → Option (Service D × List ℕ))
      → Processed D
      → Option (Service D × List ℕ)
  on_processed s next (taken s' round) =
      maybe (next s') none (λ (s'', seen). some (s'', round ∷ seen))
  on_processed s next (turned_down reason) = next s
  on_processed s next not_stored = none

  -- The loop over the blocks of a reply, with the rounds `seen`; `none` is a call of `log.Fatal`.
  unfoldable pub take_reply : Service D → List SignedData → Option (Service D × List ℕ)
  take_reply s [] = some (s, [])
  take_reply s (block ∷ blocks) =
      on_processed s (λ s'. take_reply s' blocks) (process_signed db codec crypto keys s block)

  -- The turn from the reply on.
  abbrev pub settle : ℕ → Fetch → Option (Service D × List ℕ) → Replied D
  settle peer f none = ends
  settle peer f (some (s, seen)) =
      let split = split_seen seen f.rounds 0 in
      fetched (settle_sequence s peer f split) (record f { rounds = split.1 })

  unfoldable pub receive_reply : Service D → ℕ → Fetch → List SignedData → Replied D
  receive_reply s peer f [] = retries
  receive_reply s peer f (block ∷ blocks) = settle peer f (take_reply s (block ∷ blocks))
