-- ===== src/Broadcast/Transactions/Iterated.antt =====
-- The transactions that went into a block come out of it.
use mathlib.Core.List.{append-nil, append_assoc}
use blockmania.Prelude.{
  ℕ, ◌+◌, ◌^◌, ◌≤◌, ◌<◌, List, [], ◌∷◌, ◌++◌, true, false, length, take, drop, ltb, length-append,
  take-append, drop-append, drop-drop, ◌≡◌, refl, ap, sym, subst, ◌∙◌, All, IsU64, add_u64, arith,
}
use blockmania.Lexinum.{value}
use blockmania.Broadcast.Words.{put_u32, put_u64}
use blockmania.Broadcast.Words.RoundTrip.{read_u32-put_u32, read_u64-put_u64}
use blockmania.Broadcast.Transactions.{
  TransactionData, TxQueue, Added, accepted, too_large, waits, out_of_range, encode_transaction,
  add_transaction, add_transactions, take_transactions, TxIterator, iter, has_more, next, collect,
  transactions_of,
}
use blockmania.Broadcast.Transactions.Queued.{
  encode_all, FitsTx, Holds, length-encode_transaction, accepted-injective, add_transaction-Joined,
}

next-encode_transaction :
    (it : TxIterator) (tx : TransactionData) (rest : List ℕ)
    → FitsTx tx
    → drop it.idx it.content ≡ encode_transaction tx ++ rest
    → next it
      ≡ value
          (record it { cur = add_u64 it.cur 1; idx = it.idx + (12 + length tx.content); tx = tx })
unfolding next encode_transaction
next-encode_transaction it tx rest fits at =
    let size = put_u32 (length tx.content) in
    let enough : ltb (length (tx.content ++ rest)) (length tx.content) ≡ false =
      ground (arith, length-append tx.content rest) in
    rw
      (
        at,
        append_assoc (put_u64 tx.fee) (size ++ tx.content) rest,
        read_u64-put_u64 tx.fee ((size ++ tx.content) ++ rest) fits.fee,
        append_assoc size tx.content rest,
        read_u32-put_u32 (length tx.content) (tx.content ++ rest) fits.size,
        enough,
        take-append tx.content rest (length tx.content) refl,
      )
      refl

collect-encode_all :
    (txs : List TransactionData) (it : TxIterator)
    → All FitsTx txs
    → IsU64 it.total
    → it.cur + length txs ≡ it.total
    → drop it.idx it.content ≡ encode_all txs
    → collect (length txs) it ≡ value txs
unfolding collect
collect-encode_all [] it fits bound count at = refl
collect-encode_all (tx ∷ txs) it fits bound count at =
    let more : has_more it ≡ true = ground arith in
    let it' : TxIterator = record it {
      cur = add_u64 it.cur 1;
      idx = it.idx + (12 + length tx.content);
      tx = tx;
    } in
    let size = length-encode_transaction tx in
    let behind : drop it'.idx it.content ≡ encode_all txs =
      sym (drop-drop it.idx (12 + length tx.content) it'.idx it.content refl)
      ∙ ap (drop (12 + length tx.content)) at
      ∙ drop-append (encode_transaction tx) (encode_all txs) (12 + length tx.content) (sym size) in
    rw
      (
        more,
        next-encode_transaction it tx (encode_all txs) fits.0 at,
        collect-encode_all txs it' fits.1 bound (omega arith) behind,
      )
      refl

-- The first transaction was accepted, or the others were not tried.
first_accepted :
    (q q' : TxQueue) (tx : TransactionData) (txs : List TransactionData)
    → add_transactions q (tx ∷ txs) ≡ accepted q'
    → (q1 : TxQueue) × (add_transaction q tx ≡ accepted q1)
      × (add_transactions q1 txs ≡ accepted q')
unfolding add_transactions
first_accepted q q' tx txs done = go (add_transaction q tx) refl done
  where
    go :
        (a : Added)
        → add_transaction q tx ≡ a
        → (elim a [
          | accepted q1 ↦ add_transactions q1 txs
          | too_large ↦ too_large
          | waits ↦ waits
          | out_of_range ↦ out_of_range
        ])
          ≡ accepted q'
        → (q1 : TxQueue) × (add_transaction q tx ≡ accepted q1)
          × (add_transactions q1 txs ≡ accepted q')
    go (accepted q1) e h = (q1, e, h)
    go too_large e h = cc
    go waits e h = cc
    go out_of_range e h = cc

add_transactions-Holds :
    (q q' : TxQueue) (before txs : List TransactionData)
    → Holds q before
    → All (λ tx. IsU64 tx.fee) txs
    → add_transactions q txs ≡ accepted q'
    → Holds q' (before ++ txs) × All FitsTx txs
unfolding add_transactions
add_transactions-Holds q q' before [] h fees done =
    let same : q ≡ q' = accepted-injective q q' done in
    (subst (λ l. Holds q' l) (sym (append-nil before)) (subst (λ z. Holds z before) same h), tt)
add_transactions-Holds q q' before (tx ∷ txs) h fees done =
    let (q1, one, others) = first_accepted q q' tx txs done in
    let j = add_transaction-Joined q q1 before tx h one in
    let (holds, fits) =
      add_transactions-Holds q1 q' (before ++ (tx ∷ [])) txs j.holds fees.1 others in
    (
      subst (λ l. Holds q' l) (append_assoc before (tx ∷ []) txs) holds,
      (record { fee = fees.0; size = j.size }, fits),
    )

-- When a list of transactions was accepted one after the other by an empty queue, the block that takes
-- them has exactly these transactions, in this order, with their fees and bytes, for its iterator.
pub transactions_of-add_transactions :
    (q q' : TxQueue) (txs : List TransactionData)
    → Holds q []
    → All (λ tx. IsU64 tx.fee) txs
    → IsU64 (length txs)
    → add_transactions q txs ≡ accepted q'
    → transactions_of (take_transactions q').0 ≡ value txs
unfolding transactions_of take_transactions iter
transactions_of-add_transactions q q' txs empty fees few done =
    let (h, fits) = add_transactions-Holds q q' [] txs empty fees done in
    let count : q'.tx_count ≡ length txs = h.count in
    let it : ℕ → TxIterator = λ n. record {
      cur = 0;
      content = take q'.tx_idx q'.tx_data;
      idx = 0;
      total = n;
      tx = record { content = []; fee = 0 };
    } in
    ap (λ (n : ℕ). collect n (it n)) count
    ∙ collect-encode_all txs (it (length txs)) fits few (omega arith) h.bytes

-- A transaction that ends within 100 bytes of the limit is not refused, and no queue takes it.
pub add_transaction_never :
    (q : TxQueue) (tx : TransactionData)
    → length tx.content < 2 ^ 32
    → length tx.content ≤ q.tx_size_limit
    → q.tx_size_limit < length tx.content + 100
    → add_transaction q tx ≡ waits
unfolding add_transaction
add_transaction_never q tx small fits long = ground arith
