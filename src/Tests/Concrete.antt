-- ===== src/Tests/Concrete.antt =====
-- A database, encodings and a signature scheme to run the broadcast service on.
use blockmania.Prelude.{
  ℕ, zero, suc, List, [], ◌∷◌, ◌++◌, Option, none, some, Bool, true, false, ◌&&◌, not, ◌≡◌, refl,
  length, take, drop, take-append, drop-append, ◌==◌, if◌then◌else◌, maybe, Map, Key, find, put,
  delete, find-put_self, find-put_ne, find-delete, ℕ_discrete, refl, arith,
}
use blockmania.Lexinum.Sorting.{less}
use blockmania.Broadcast.Wire.{SignedData, Block, BlockReference, Codec, IsCodec}
use blockmania.Broadcast.Database.{Database, IsDatabase}
use blockmania.Broadcast.Checks.{Crypto}

unfoldable pub bytes_discrete : Discrete (List ℕ)
unfolding ℕ_discrete
bytes_discrete = hlevel ℕ_discrete

instance abbrev pub bytes_key : Key (List ℕ)
bytes_key = record { same = bytes_discrete }

abbrev pub starts_with : List ℕ → List ℕ → Bool
starts_with [] key = true
starts_with (p ∷ prefix) [] = false
starts_with (p ∷ prefix) (k ∷ key) = p == k && starts_with prefix key

abbrev pub insert : List ℕ → List (List ℕ) → List (List ℕ)
insert key [] = key ∷ []
insert key (k ∷ keys) =
    let rest = insert key keys in
    if less k key then k ∷ rest else if less key k then key ∷ k ∷ keys else k ∷ keys

-- The keys with the prefix from `start` on, in their order.
abbrev pub sorted_keys : List ℕ → List ℕ → Map (List ℕ) (List ℕ) → List (List ℕ)
sorted_keys prefix start [] = []
sorted_keys prefix start ((key, val) ∷ d) =
    let rest = sorted_keys prefix start d in
    if starts_with prefix key && not (less key start) then insert key rest else rest

abbrev pub list_database : Database (Map (List ℕ) (List ℕ))
list_database = record { get = find; put_key = put; drop_key = delete; keys_from = sorted_keys }

pub list_database-IsDatabase : IsDatabase list_database
list_database-IsDatabase = record {
  get-put_key_self = find-put_self;
  get-put_key_ne = λ k j v d differs. find-put_ne k j v d differs;
  get-drop_key_ne = λ k j d differs. ground (arith, find-delete k j d);
  get-drop_key_self = λ k d. ground (arith, find-delete k k d);
}

abbrev read_pair : List ℕ → Option SignedData
read_pair [] = none
read_pair (n ∷ bytes) = some (record { content = take n bytes; signature = drop n bytes })

abbrev pub signed_codec : Codec SignedData
signed_codec = record {
  marshal = λ s. length s.content ∷ (s.content ++ s.signature);
  unmarshal = read_pair;
}

pub signed_codec-IsCodec : IsCodec signed_codec
signed_codec-IsCodec = record {
  unmarshal-marshal = λ s.
      rw
        (
          take-append s.content s.signature (length s.content) refl,
          drop-append s.content s.signature (length s.content) refl,
        )
        refl;
}

abbrev read_ref : List ℕ → Option BlockReference
read_ref (node ∷ round ∷ hash) = some (record { hash = hash; node = node; round = round })
read_ref bytes = none

-- The encoding of a signed message in front of other bytes.
abbrev put_signed : SignedData → List ℕ → List ℕ
put_signed s rest = length s.content ∷ (s.content ++ (length s.signature ∷ (s.signature ++ rest)))

abbrev read_signature : List ℕ → List ℕ → Option (SignedData × List ℕ)
read_signature content [] = none
read_signature content (n ∷ bytes) =
    some (record { content = content; signature = take n bytes }, drop n bytes)

abbrev read_signed : List ℕ → Option (SignedData × List ℕ)
read_signed [] = none
read_signed (n ∷ bytes) = read_signature (take n bytes) (drop n bytes)

read_signed-put_signed :
    (s : SignedData) (rest : List ℕ) → read_signed (put_signed s rest) ≡ some (s, rest)
read_signed-put_signed s rest =
    let bytes = length s.signature ∷ (s.signature ++ rest) in
    rw
      (
        take-append s.content bytes (length s.content) refl,
        drop-append s.content bytes (length s.content) refl,
        take-append s.signature rest (length s.signature) refl,
        drop-append s.signature rest (length s.signature) refl,
      )
      refl

abbrev put_refs : List SignedData → List ℕ → List ℕ
put_refs [] rest = rest
put_refs (s ∷ refs) rest = put_signed s (put_refs refs rest)

abbrev read_refs : ℕ → List ℕ → Option (List SignedData × List ℕ)
read_refs zero bytes = some ([], bytes)
read_refs (suc n) bytes =
    maybe (read_signed bytes) none
      λ (s, bytes'). maybe (read_refs n bytes') none λ (refs, rest). some (s ∷ refs, rest)

read_refs-put_refs :
    (refs : List SignedData) (rest : List ℕ)
    → read_refs (length refs) (put_refs refs rest) ≡ some (refs, rest)
read_refs-put_refs [] rest = refl
read_refs-put_refs (s ∷ refs) rest =
    rw (read_signed-put_signed s (put_refs refs rest), read_refs-put_refs refs rest) refl

abbrev put_previous : Option SignedData → List ℕ → List ℕ
put_previous none txs = 0 ∷ txs
put_previous (some p) txs = 1 ∷ put_signed p txs

abbrev block_with : ℕ → ℕ → ℕ → List SignedData → Option SignedData → List ℕ → Block
block_with node round count refs previous txs = record {
  node = node;
  previous = previous;
  references = refs;
  round = round;
  transactions = record { count = count; content = txs };
}

abbrev read_previous : (Option SignedData → List ℕ → Block) → List ℕ → Option Block
read_previous f [] = none
read_previous f (zero ∷ txs) = some (f none txs)
read_previous f (suc n ∷ bytes) = maybe (read_signed bytes) none λ (p, txs). some (f (some p) txs)

read_previous-put_previous :
    (f : Option SignedData → List ℕ → Block) (previous : Option SignedData) (txs : List ℕ)
    → read_previous f (put_previous previous txs) ≡ some (f previous txs)
read_previous-put_previous f none txs = refl
read_previous-put_previous f (some p) txs = rw (read_signed-put_signed p txs) refl

abbrev read_block : List ℕ → Option Block
read_block (node ∷ round ∷ count ∷ n ∷ bytes) =
    maybe (read_refs n bytes) none
      λ (refs, rest). read_previous (block_with node round count refs) rest
read_block bytes = none

abbrev block_codec : Codec Block
block_codec = record {
  marshal = λ b.
      b.node
      ∷ b.round
      ∷ b.transactions.count
      ∷ length b.references
      ∷ put_refs b.references (put_previous b.previous b.transactions.content);
  unmarshal = read_block;
}

abbrev ref_codec : Codec BlockReference
ref_codec = record { marshal = λ r. r.node ∷ r.round ∷ r.hash; unmarshal = read_ref }

abbrev signed_with : ℕ → List ℕ → Bool
signed_with key [] = false
signed_with key (k ∷ signature) = key == k

-- A signature begins with the key, and the hash of a message is its first two bytes.
abbrev pub toy_crypto : Crypto ℕ
toy_crypto = record {
  sha = take 2;
  verify = λ key message signature. signed_with key signature;
  blocks = block_codec;
  refs = ref_codec;
}

pub block_codec-IsCodec : IsCodec toy_crypto.blocks
block_codec-IsCodec = record {
  unmarshal-marshal = λ b.
      rw (read_refs-put_refs b.references (put_previous b.previous b.transactions.content)) (
        read_previous-put_previous (block_with b.node b.round b.transactions.count b.references)
          b.previous b.transactions.content);
}

pub ref_codec-IsCodec : IsCodec toy_crypto.refs
ref_codec-IsCodec = record { unmarshal-marshal = λ r. refl }

abbrev pub toy_keys : Map ℕ ℕ
toy_keys = (1, 101) ∷ (2, 102) ∷ []
