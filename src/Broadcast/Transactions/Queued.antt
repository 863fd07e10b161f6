-- ===== src/Broadcast/Transactions/Queued.antt =====
-- What the queue holds.
use mathlib.Core.List.{append-nil, append_assoc}
use blockmania.Prelude.{
  ℕ, ◌+◌, ◌^◌, ◌≤◌, ◌<◌, List, [], ◌∷◌, ◌++◌, false, ◌||◌, length, take, drop, ltb, leb, ◌==◌,
  length-append, take-append, take_all, ◌-◌, length-take, length-drop, ◌≡◌, ◌≢◌, refl, ap, sym,
  subst, ◌∙◌, IsU64, Bool-cases, inl, inr, arith,
}
use blockmania.Broadcast.Words.{put_u32, put_u64}
use blockmania.Broadcast.Transactions.{
  TransactionData, TxQueue, accepted, too_large, waits, write_at, encode_transaction,
  append_transaction, add_transaction,
}

abbrev pub encode_all : List TransactionData → List ℕ
encode_all [] = []
encode_all (tx ∷ txs) = encode_transaction tx ++ encode_all txs

-- What Go's types say of a transaction that `AddTransaction` did not refuse.
pub record FitsTx (tx : TransactionData) : Type 0 where
  pub fee : IsU64 tx.fee
  pub size : length tx.content < 2 ^ 32

-- The queue holds the transactions, in their order.
pub record Holds (q : TxQueue) (txs : List TransactionData) : Type 0 where
  pub count : q.tx_count ≡ length txs
  pub buffer : length q.tx_data ≡ q.tx_size_limit
  pub within : q.tx_idx ≤ q.tx_size_limit
  pub bytes : take q.tx_idx q.tx_data ≡ encode_all txs

pub length-encode_transaction :
    (tx : TransactionData) → length (encode_transaction tx) ≡ 12 + length tx.content
unfolding encode_transaction put_u64 put_u32
length-encode_transaction tx = omega arith

encode_all-append :
    (txs : List TransactionData) (tx : TransactionData)
    → encode_all (txs ++ (tx ∷ [])) ≡ encode_all txs ++ encode_transaction tx
encode_all-append [] tx = append-nil (encode_transaction tx)
encode_all-append (t ∷ txs) tx =
    ap (λ (l : List ℕ). encode_transaction t ++ l) (encode_all-append txs tx)
    ∙ sym (append_assoc (encode_transaction t) (encode_all txs) (encode_transaction tx))

take-write_at :
    (i : ℕ) (bytes buf : List ℕ)
    → i + length bytes ≤ length buf
    → take (i + length bytes) (write_at i bytes buf) ≡ take i buf ++ bytes
take-write_at i bytes buf h =
    let rest = drop (i + length bytes) buf in
    rw (take_all (length buf - i) bytes (omega arith)) (
      ap (take (i + length bytes)) (sym (append_assoc (take i buf) bytes rest))
      ∙ take-append (take i buf ++ bytes) rest (i + length bytes)
          (omega (arith, length-append (take i buf) bytes, length-take i buf (omega arith))))

length-write_at :
    (i : ℕ) (bytes buf : List ℕ)
    → i + length bytes ≤ length buf
    → length (write_at i bytes buf) ≡ length buf
length-write_at i bytes buf h =
    let rest = drop (i + length bytes) buf in
    rw (take_all (length buf - i) bytes (omega arith)) (
      omega (
        arith,
        length-append (take i buf) (bytes ++ rest),
        length-append bytes rest,
        length-take i buf,
        length-drop (i + length bytes) buf,
      ))

-- The queue with room for the transaction, after it.
append_transaction-Holds :
    (q : TxQueue) (txs : List TransactionData) (tx : TransactionData)
    → Holds q txs
    → q.tx_idx + length tx.content + 100 ≤ q.tx_size_limit
    → (q' : TxQueue) × (append_transaction q tx ≡ accepted q') × Holds q' (txs ++ (tx ∷ []))
unfolding append_transaction
append_transaction-Holds q txs tx h room =
    let bytes = encode_transaction tx in
    let enough : ltb (length q.tx_data) (q.tx_idx + 12) ≡ false = ground (arith, h.buffer) in
    let size = length-encode_transaction tx in
    let buffer = h.buffer in
    let behind : q.tx_idx + (12 + length tx.content) ≡ q.tx_idx + length bytes = omega arith in
    (
      record q {
        tx_count = q.tx_count + 1;
        tx_data = write_at q.tx_idx bytes q.tx_data;
        tx_idx = q.tx_idx + (12 + length tx.content);
      },
      rw enough refl,
      record {
        count = omega (arith, h.count, length-append txs (tx ∷ []));
        buffer = length-write_at q.tx_idx bytes q.tx_data (omega arith) ∙ buffer;
        within = omega arith;
        bytes =
            ap (λ (n : ℕ). take n (write_at q.tx_idx bytes q.tx_data)) behind
            ∙ take-write_at q.tx_idx bytes q.tx_data (omega arith)
            ∙ ap (λ (l : List ℕ). l ++ bytes) h.bytes
            ∙ sym (encode_all-append txs tx);
      },
    )

pub accepted-injective : (q q' : TxQueue) → accepted q ≡ accepted q' → q ≡ q'
accepted-injective q q' h = cc

too_large_ne : (q : TxQueue) → too_large ≢ accepted q
too_large_ne q e = cc

waits_ne : (q : TxQueue) → waits ≢ accepted q
waits_ne q e = cc

-- A transaction that was accepted stands at the end of the queue, and its size fits.
pub record Joined (q' : TxQueue) (txs : List TransactionData) (tx : TransactionData) : Type 0 where
  pub holds : Holds q' (txs ++ (tx ∷ []))
  pub size : length tx.content < 2 ^ 32

pub add_transaction-Joined :
    (q q' : TxQueue) (txs : List TransactionData) (tx : TransactionData)
    → Holds q txs
    → add_transaction q tx ≡ accepted q'
    → Joined q' txs tx
unfolding add_transaction
add_transaction-Joined q q' txs tx h done =
    let size = length tx.content in
    elim (Bool-cases (leb (2 ^ 32) size || ltb q.tx_size_limit size)) [
      | inl large ↦ absurd (too_large_ne q' (rw large at done))
      | inr small ↦ elim (Bool-cases (q.tx_count == q.tx_count_limit)) [
        | inl busy ↦ absurd (waits_ne q' (rw (small, busy) at done))
        | inr free ↦ elim (Bool-cases (ltb q.tx_size_limit (q.tx_idx + size + 100))) [
          | inl full ↦ absurd (waits_ne q' (rw (small, free, full) at done))
          | inr room ↦
              let (q'', made, holds) = append_transaction-Holds q txs tx h (ground arith) in
              let same : q'' ≡ q' =
                accepted-injective q'' q' (sym made ∙ rw (small, free, room) at done) in
              record {
                holds = subst (λ z. Holds z (txs ++ (tx ∷ []))) same holds;
                size = ground arith;
              }
        ]
      ]
    ]
