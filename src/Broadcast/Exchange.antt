-- ===== src/Broadcast/Exchange.antt =====
-- Sending blocks to a peer until it has them: the inner loop of `maintainBroadcast`
-- (broadcast/broadcast.go), with the peer's handler at the other end of the connection. The connection,
-- its retries, sleeping and logging are left out.
pub mod Accepting
pub mod Sent
use blockmania.Prelude.{ℕ, zero, suc, List, [], ◌∷◌, Option, none, some, Map}
use blockmania.Broadcast.Wire.{SignedData, Codec}
use blockmania.Broadcast.Database.{Database}
use blockmania.Broadcast.Checks.{Crypto}
use blockmania.Broadcast.Service.{
  Service, Answer, ack, list_blocks, refused, too_many, exits, Unsent, up_to_date,
  too_large_or_lost, unsent, mark_sent, get_unsent, handle_broadcast_list,
}

-- What the turn up to the request comes to: it waits for the next block, the process ends, or it sends
-- blocks.
pub data Offer (D : Type 0) : Type 0 where
  waits : Service D → Offer D
  ends : Offer D
  offers : Service D → List SignedData → Offer D

module _ {D : Type 0} where
  -- The tests of what `getUnsent` returned.
  abbrev pub as_offer : Service D × Unsent → Offer D
  as_offer (s, up_to_date) = waits s
  as_offer (s, too_large_or_lost) = ends
  as_offer (s, unsent []) = waits s
  as_offer (s, unsent (b ∷ blocks)) = offers s (b ∷ blocks)

  -- The end of the turn: an acknowledgement is marked, and after an error the peer is dialled again.
  abbrev pub on_answer : Service D → ℕ → Answer → Service D
  on_answer s peer (ack last) = mark_sent s peer last
  on_answer s peer (list_blocks blocks) = s
  on_answer s peer (refused reason) = s
  on_answer s peer too_many = s
  on_answer s peer exits = s

module _ {D K : Type 0} (db : Database D) (codec : Codec SignedData) (crypto : Crypto K)
    (keys : Map ℕ K) where
  -- The turn from the request on, with the service of the peer, which has the keys.
  abbrev pub answer_offer : ℕ → Service D → Offer D → Option (Service D × Service D)
  answer_offer peer r (waits s) = some (s, r)
  answer_offer peer r ends = none
  answer_offer peer r (offers s blocks) =
      let (r', answer) = handle_broadcast_list db codec crypto keys r blocks in
      some (on_answer s peer answer, r')

  -- One turn; `none` is a call of `log.Fatal`.
  unfoldable pub exchange : ℕ → Service D → Service D → Option (Service D × Service D)
  exchange peer s r = answer_offer peer r (as_offer (get_unsent db codec s peer))

  abbrev pub then_do :
      Option (Service D × Service D)
      → (Service D → Service D → Option (Service D × Service D))
      → Option (Service D × Service D)
  then_do none next = none
  then_do (some (s, r)) next = next s r

  -- So many turns.
  unfoldable pub exchanges : ℕ → ℕ → Service D → Service D → Option (Service D × Service D)
  exchanges zero peer s r = some (s, r)
  exchanges (suc turns) peer s r = then_do (exchange peer s r) (exchanges turns peer)
