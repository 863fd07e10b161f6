-- ===== src/Broadcast/Generate/Accepted.antt =====
-- A generated block at the nodes that receive it.
use blockmania.Prelude.{
  ℕ, List, [], ◌∷◌, ◌++◌, Map, some, true, false, find, nat_key, ◌==◌, add_u64, sub_u64, IsU64, All,
  Bool-cases, inl, inr, ◌≡◌, ◌≢◌, refl, sym, ap, subst, ◌∙◌, arith,
}
use blockmania.Consensus.Block.{BlockId}
use blockmania.Broadcast.Wire.{SignedData, Block, Codec, IsCodec}
use blockmania.Broadcast.Database.{Database, IsDatabase}
use blockmania.Broadcast.Replies.{returned}
use blockmania.Broadcast.Depgraph.{BlockData, Depgraph, actually_included, get_blocks}
use blockmania.Broadcast.Depgraph.Batch.{get_blocks_lem}
use blockmania.Broadcast.Store.{for_depgraph, get_own_block, get_last_round_data}
use blockmania.Broadcast.Store.OwnBlock.{set_own_block-OwnStored}
use blockmania.Broadcast.Checks.{
  Crypto, accepted, check_previous_ref, check_previous, check_reference, check_references,
  check_links, check_signed, check_block,
}
use blockmania.Broadcast.Generate.{
  Author, refs_of, signed_ref, next_block, next_ref, next_signed, next_graph, forget_all, after_own,
  gen_block,
}

abbrev pub ids_of : List BlockData → List BlockId
ids_of [] = []
ids_of (info ∷ infos) = info.id ∷ ids_of infos

==_self : (n : ℕ) → (n == n) ≡ true
==_self n = ground arith

module _ {A : Type 0} (P : A → Type 0) where
  All-first : (xs ys : List A) → All P (xs ++ ys) → All P xs
  All-first [] ys h = tt
  All-first (x ∷ xs) ys h = (h.0, All-first xs ys h.1)

  All-last : (xs ys : List A) → All P (xs ++ ys) → All P ys
  All-last [] ys h = h
  All-last (x ∷ xs) ys h = All-last xs ys h.1

forget_all_blocks : (infos : List BlockData) (d : Depgraph) → (forget_all infos d).blocks ≡ d.blocks
unfolding actually_included
forget_all_blocks [] d = refl
forget_all_blocks (info ∷ infos) d = forget_all_blocks infos (actually_included info.id d)

module _ {K : Type 0} (crypto : Crypto K) (sign : List ℕ → List ℕ) (keys : Map ℕ K) where
  -- The reference of a waiting block names it and is signed by its node, which is not the author.
  pub record Refers (node : ℕ) (info : BlockData) : Type 0 where
    pub names :
        info.ref.content
        ≡ crypto.refs.marshal
            (record { hash = info.id.hash; node = info.id.node; round = info.id.round })
    pub key : K
    pub known : find info.id.node keys ≡ some key
    pub signed : crypto.verify key info.ref.content info.ref.signature ≡ true
    pub other : (info.id.node == node) ≡ false

  -- The author has the signed reference to its last block, and its queue is of other nodes' blocks.
  pub record IsAuthor {D : Type 0} (a : Author D) : Type 0 where
    pub fits : IsU64 a.service.round
    pub is_open : a.service.store.closed ≡ false
    pub last :
        a.service.round ≢ 0
        → a.prevref
          ≡ some (
              signed_ref crypto sign
                (record { hash = a.prevhash; node = a.node; round = a.service.round }))
    pub queue : All (Refers a.node) a.service.depgraph.blocks

  module _ (refs_code : IsCodec crypto.refs) (blocks_code : IsCodec crypto.blocks) where
    check_references-refs_of :
        (block : Block) (infos : List BlockData)
        → All (Refers block.node) infos
        → check_references crypto keys block (refs_of infos) ≡ accepted (ids_of infos)
    unfolding check_references check_reference
    check_references-refs_of block [] h = refl
    check_references-refs_of block (info ∷ infos) (h, others) =
        let signed =
          subst (λ c. crypto.verify h.key c info.ref.signature ≡ true) h.names h.signed in
        rw
          (
            h.names,
            refs_code.unmarshal-marshal,
            h.known,
            signed,
            h.other,
            check_references-refs_of block infos others,
          )
          refl

    module _ {D : Type 0} (a : Author D) (h : IsAuthor a) (key : K)
        (key_signs : (m : List ℕ) → crypto.verify key m (sign m) ≡ true) where
      check_previous-next_block :
          (infos : List BlockData)
          → check_previous crypto keys key (next_block crypto sign a infos)
            ≡ accepted (next_graph crypto sign a infos).prev
      unfolding check_previous check_previous_ref
      check_previous-next_block infos = elim (Bool-cases (add_u64 a.service.round 1 == 1)) [
        | inl first ↦ rw first refl
        | inr later ↦
            let fits = h.fits in
            let some_round : a.service.round ≢ 0 = ground arith in
            let same : a.service.round ≡ sub_u64 (add_u64 a.service.round 1) 1 = omega arith in
            rw
              (
                later,
                h.last some_round,
                key_signs,
                refs_code.unmarshal-marshal,
                ==_self a.node,
                ==_self (add_u64 a.service.round 1),
                sym same,
              )
              refl
      ]

      check_block-next_signed :
          (infos : List BlockData)
          → find a.node keys ≡ some key
          → All (Refers a.node) infos
          → check_block crypto keys (next_signed crypto sign a infos)
            ≡ accepted (record {
              deps = ids_of infos;
              id = (next_graph crypto sign a infos).block;
              prev = (next_graph crypto sign a infos).prev;
              ref = signed_ref crypto sign (next_ref crypto sign a infos);
            })
      unfolding check_block check_signed check_links
      check_block-next_signed infos known refs =
          rw
            (
              blocks_code.unmarshal-marshal,
              known,
              key_signs,
              check_previous-next_block infos,
              check_references-refs_of (next_block crypto sign a infos) infos refs,
            )
            refl

  -- One turn: the block is the node's own block of the next round, other nodes accept it, and what they
  -- take it for is what the author's own graph was given.
  pub record IsGenerated {D : Type 0} (db : Database D) (codec : Codec SignedData) (a a' : Author D)
      (infos : List BlockData) : Type 0 where
    pub round : a'.service.round ≡ add_u64 a.service.round 1
    pub taken : infos ++ a'.service.depgraph.blocks ≡ a.service.depgraph.blocks
    pub by_round :
        get_own_block db codec a'.service.store a'.service.round
        ≡ returned (next_signed crypto sign a infos)
    pub last :
        get_last_round_data db codec a'.service.store
        ≡ returned
            (a'.service.round, a'.prevhash, signed_ref crypto sign (next_ref crypto sign a infos))
    pub reference : a'.prevref ≡ some (signed_ref crypto sign (next_ref crypto sign a infos))
    pub given : a'.sent_on ≡ a.sent_on ++ (next_graph crypto sign a infos ∷ [])
    pub checked :
        check_block crypto keys (next_signed crypto sign a infos)
        ≡ accepted (record {
          deps = ids_of infos;
          id = (next_graph crypto sign a infos).block;
          prev = (next_graph crypto sign a infos).prev;
          ref = signed_ref crypto sign (next_ref crypto sign a infos);
        })

  -- If an author has its last reference, and its queue is of signed references to other nodes' blocks, a
  -- turn of `genBlocks` succeeds: it takes the front of the queue, the block of the next round is stored
  -- and passes the checks of a node that knows the same keys, under the identifier and with the previous
  -- block that the author's own graph was given; and the author is again one in this sense.
  pub gen_block-IsGenerated :
      {D : Type 0} {db : Database D} {codec : Codec SignedData}
      → IsDatabase db
      → IsCodec codec
      → IsCodec crypto.refs
      → IsCodec crypto.blocks
      → (a : Author D) (key : K) → IsAuthor a
      → find a.node keys ≡ some key
      → ((m : List ℕ) → crypto.verify key m (sign m) ≡ true)
      → (a' : Author D) × (infos : List BlockData) × (gen_block crypto sign db codec a ≡ some a')
        × IsGenerated db codec a a' infos
        × IsAuthor a'
  unfolding gen_block get_blocks
  gen_block-IsGenerated {db = db} {codec = codec} law code refs_code blocks_code a key h known
        key_signs =
      let (split, sizes, next_one) = get_blocks_lem a.ref_size_limit a.service.depgraph in
      let (depgraph, infos) = get_blocks a.ref_size_limit a.service.depgraph in
      let signed = next_signed crypto sign a infos in
      let (store, done, own) =
        set_own_block-OwnStored law code a.service.store signed
          (signed_ref crypto sign (next_ref crypto sign a infos)) (next_graph crypto sign a infos)
          h.is_open (omega arith) in
      let a' = after_own crypto sign db codec a infos depgraph store in
      let queue : All (Refers a.node) (infos ++ depgraph.blocks) =
        subst (λ bs. All (Refers a.node) bs) (sym split) h.queue in
      let same = forget_all_blocks infos (record depgraph { store = for_depgraph db store }) in
      (
        a',
        infos,
        rw done refl,
        record {
          round = refl;
          taken = ap (λ bs. infos ++ bs) same ∙ split;
          by_round = own.by_round;
          last = own.last;
          reference = refl;
          given = refl;
          checked =
              check_block-next_signed refs_code blocks_code a h key key_signs infos known
                (All-first (Refers a.node) infos depgraph.blocks queue);
        },
        record {
          fits = omega arith;
          is_open = own.is_open;
          last = λ later. refl;
          queue =
              subst (λ bs. All (Refers a.node) bs) (sym same)
                (All-last (Refers a.node) infos depgraph.blocks queue);
        },
      )
