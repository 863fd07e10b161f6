-- ===== src/Tests/Transactions.antt =====
-- Concrete transactions.
use blockmania.Prelude.{◌-◌, ◌^◌, [], ◌∷◌, ◌++◌, replicate, ◌≡◌, refl, arith}
use blockmania.Lexinum.{value}
use blockmania.Broadcast.Words.{put_u32, put_u64}
use blockmania.Broadcast.Transactions.{
  TransactionData, TxQueue, waits, encode_transaction, append_transaction, add_transaction,
  add_transactions, take_transactions, transactions_of,
}
use blockmania.Broadcast.Transactions.Iterated.{
  transactions_of-add_transactions, add_transaction_never,
}

abbrev small_tx : TransactionData
small_tx = record { content = 8 ∷ 9 ∷ []; fee = 2 ^ 64 - 1 }

abbrev empty_tx : TransactionData
empty_tx = record { content = []; fee = 3 }

abbrev empty_queue : TxQueue
empty_queue = record {
  tx_count = 0;
  tx_count_limit = 5;
  tx_data = replicate 120 0;
  tx_idx = 0;
  tx_size_limit = 120;
}

abbrev full_queue : TxQueue
full_queue = record empty_queue {
  tx_count = 2;
  tx_data = encode_transaction small_tx ++ (encode_transaction empty_tx ++ replicate 94 0);
  tx_idx = 26;
}

transactions_of-add_transactions_example :
    transactions_of (take_transactions full_queue).0 ≡ value (small_tx ∷ empty_tx ∷ [])
unfolding add_transactions add_transaction append_transaction encode_transaction put_u64 put_u32
transactions_of-add_transactions_example =
    transactions_of-add_transactions empty_queue full_queue (small_tx ∷ empty_tx ∷ [])
      (record { count = refl; buffer = refl; within = omega arith; bytes = refl })
      (omega arith, (omega arith, tt)) (omega arith) refl

add_transaction_never_example :
    add_transaction empty_queue (record { content = replicate 30 1; fee = 1 }) ≡ waits
add_transaction_never_example =
    add_transaction_never empty_queue (record { content = replicate 30 1; fee = 1 }) (omega arith)
      (omega arith) (omega arith)
