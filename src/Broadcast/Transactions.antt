-- ===== src/Broadcast/Transactions.antt =====
-- The transactions of the block to come (`AddTransaction` and the part of `genBlocks` that takes them,
-- broadcast/broadcast.go), and their iterator (broadcast/ext.go). A transaction that has to wait for
-- the next block is given back: the loop of `AddTransaction` tries it again after the signal.
pub mod Iterated
pub mod Queued
use blockmania.Prelude.{
  ℕ, zero, suc, ◌+◌, ◌-◌, ◌^◌, List, [], ◌∷◌, ◌++◌, Bool, ◌||◌, length, take, drop, ltb, leb, ◌==◌,
  if◌then◌else◌, add_u64, not,
}
use blockmania.Lexinum.{Decoded, value, panic, on_value}
use blockmania.Broadcast.Wire.{Transactions}
use blockmania.Broadcast.Words.{put_u32, put_u64, read_u32, read_u64}

-- `TransactionData`.
pub record TransactionData : Type 0 where
  pub content : List ℕ
  pub fee : ℕ

-- The fields of `Service` behind `txmu`, and the two limits. `tx_data` is a buffer of a fixed length.
pub record TxQueue : Type 0 where
  pub tx_count : ℕ
  pub tx_count_limit : ℕ
  pub tx_data : List ℕ
  pub tx_idx : ℕ
  pub tx_size_limit : ℕ

pub data Added : Type 0 where
  accepted : TxQueue → Added
  too_large waits out_of_range : Added

-- `copy(buf[i:], bytes)`: what does not fit is left out.
abbrev pub write_at : ℕ → List ℕ → List ℕ → List ℕ
write_at i bytes buf = take i buf ++ (take (length buf - i) bytes ++ drop (i + length bytes) buf)

unfoldable pub encode_transaction : TransactionData → List ℕ
encode_transaction tx = put_u64 tx.fee ++ (put_u32 (length tx.content) ++ tx.content)

-- The critical section of `AddTransaction`. The slices of the buffer are out of range if it ends
-- before the 12 bytes of the fee and the size.
unfoldable pub append_transaction : TxQueue → TransactionData → Added
append_transaction q tx =
    if ltb (length q.tx_data) (q.tx_idx + 12)
    then out_of_range
    else accepted (record q {
      tx_count = q.tx_count + 1;
      tx_data = write_at q.tx_idx (encode_transaction tx) q.tx_data;
      tx_idx = q.tx_idx + (12 + length tx.content);
    })

-- One turn of the loop of `AddTransaction`.
unfoldable pub add_transaction : TxQueue → TransactionData → Added
add_transaction q tx =
    if leb (2 ^ 32) (length tx.content) || ltb q.tx_size_limit (length tx.content)
    then too_large
    else if q.tx_count == q.tx_count_limit
    then waits
    else if ltb q.tx_size_limit (q.tx_idx + length tx.content + 100)
    then waits
    else append_transaction q tx

-- What `genBlocks` puts in a block, and the queue that it leaves.
unfoldable pub take_transactions : TxQueue → Transactions × TxQueue
take_transactions q = (
  record { count = q.tx_count; content = take q.tx_idx q.tx_data },
  record q { tx_count = 0; tx_idx = 0 },
)

-- `TxIterator`.
pub record TxIterator : Type 0 where
  pub cur : ℕ
  pub content : List ℕ
  pub idx : ℕ
  pub total : ℕ
  pub tx : TransactionData

-- `Iter`.
unfoldable pub iter : Transactions → TxIterator
iter t = record {
  cur = 0;
  content = t.content;
  idx = 0;
  total = t.count;
  tx = record { content = []; fee = 0 };
}

-- `Valid`.
abbrev pub has_more : TxIterator → Bool
has_more it = ltb it.cur it.total

-- `Next`; a slice past the end of the data is a panic.
unfoldable pub next : TxIterator → Decoded TxIterator
next it = on_value (read_u64 (drop it.idx it.content)) λ (fee, d).
    on_value (read_u32 d) λ (size, d').
      if ltb (length d') size
      then panic
      else value (record it {
        cur = add_u64 it.cur 1;
        idx = it.idx + (12 + size);
        tx = record { content = take size d'; fee = fee };
      })

-- The loop of the listener over a block's transactions, for at most `turns` turns.
unfoldable pub collect : ℕ → TxIterator → Decoded (List TransactionData)
collect zero it = value []
collect (suc turns) it =
    if not (has_more it)
    then value []
    else on_value (next it) λ it'. on_value (collect turns it') λ txs. value (it'.tx ∷ txs)

-- All of them: a turn for each transaction that the block counts.
unfoldable pub transactions_of : Transactions → Decoded (List TransactionData)
unfolding collect
transactions_of t = collect t.count (iter t)

-- A block's transactions, added one after the other to an empty queue.
unfoldable pub add_transactions : TxQueue → List TransactionData → Added
add_transactions q [] = accepted q
add_transactions q (tx ∷ txs) = elim (add_transaction q tx) [
  | accepted q' ↦ add_transactions q' txs
  | too_large ↦ too_large
  | waits ↦ waits
  | out_of_range ↦ out_of_range
]
