-- ===== src/Broadcast/Store/Growing.antt =====
-- How the store grows with the blocks that are received.
use blockmania.Prelude.{
  ℕ, List, [], ◌∷◌, none, some, false, Option-cases, inl, inr, ◌⊎◌, ◌≡◌, ◌≢◌, refl, sym, ap, subst,
  ◌∙◌, ℕ_discrete,
}
use mathlib.Core.List.{List-discrete}
use blockmania.Consensus.Block.{BlockId}
use blockmania.Broadcast.Wire.{SignedData, Codec, IsCodec}
use blockmania.Broadcast.Database.{Database, IsDatabase}
use blockmania.Broadcast.Keys.{
  encode_block_id, block_key, included_key, not_included_key, block_prefix, included_prefix,
  not_included_prefix,
}
use blockmania.Broadcast.Replies.{returned}
use blockmania.Broadcast.Store.{BlockStore, fetch_signed, get_block, set_block}
use blockmania.Broadcast.Store.Heads.{get-put_key_head}
use blockmania.Broadcast.Store.OwnBlock.{fetch_signed-marshal}

abbrev tail : List ℕ → List ℕ
tail [] = []
tail (x ∷ xs) = xs

none≢some : (v : List ℕ) → none ≢ some v
none≢some v e = cc

module _ {D : Type 0} {db : Database D} {codec : Codec SignedData} (law : IsDatabase db)
    (code : IsCodec codec) where
  -- The store has an `included` entry for the block.
  abbrev pub IsKnown : BlockStore D → BlockId → Type 0
  IsKnown s id = (v : List ℕ) × (db.get (included_key id) s.content ≡ some v)

  abbrev pub IsReadable : BlockStore D → BlockId → Type 0
  IsReadable s id = (b : SignedData) × (get_block db codec s id ≡ returned b)

  -- A block with an entry can be read.
  abbrev pub IsCoherent : BlockStore D → Type 0
  IsCoherent s = (id : BlockId) → IsKnown s id → IsReadable s id

  -- The content that a new block leaves.
  abbrev written : BlockId → SignedData → D → D
  written id block d =
      db.put_key (block_key id) (codec.marshal block)
        (db.put_key (not_included_key id) [] (db.put_key (included_key id) (0 ∷ []) d))

  get_included-written :
      (id j : BlockId) (block : SignedData) (d : D)
      → included_key id ≢ included_key j
      → db.get (included_key j) (written id block d) ≡ db.get (included_key j) d
  unfolding included_key not_included_key block_key
  get_included-written id j block d differs =
      get-put_key_head law included_prefix block_prefix (encode_block_id j) (encode_block_id id)
        (codec.marshal block) _ refl
      ∙ get-put_key_head law included_prefix not_included_prefix (encode_block_id j)
          (encode_block_id id) [] _ refl
      ∙ law.get-put_key_ne (included_key id) (included_key j) (0 ∷ []) d differs

  get_block-written :
      (id j : BlockId) (block : SignedData) (d : D)
      → included_key id ≢ included_key j
      → db.get (block_key j) (written id block d) ≡ db.get (block_key j) d
  unfolding included_key not_included_key block_key
  get_block-written id j block d differs =
      let bytes = encode_block_id id in
      law.get-put_key_ne (block_key id) (block_key j) (codec.marshal block) _
        (λ e. differs (ap (λ k. included_prefix ∷ tail k) e))
      ∙ get-put_key_head law block_prefix not_included_prefix (encode_block_id j) bytes [] _ refl
      ∙ get-put_key_head law block_prefix included_prefix (encode_block_id j) bytes (0 ∷ []) d refl

  -- The second store is open and coherent, and what had an entry in the first reads as before.
  pub record Extends (s s' : BlockStore D) : Type 0 where
    pub is_open : s'.closed ≡ false
    pub coherent : IsCoherent s'
    pub kept :
        (j : BlockId)
        → IsKnown s j
        → IsKnown s' j × (get_block db codec s' j ≡ get_block db codec s j)

  module _ (s : BlockStore D) (id : BlockId) (block : SignedData) (is_open : s.closed ≡ false) where
    abbrev with_block : BlockStore D
    with_block = record s { content = written id block s.content }

    get_block_other :
        (j : BlockId)
        → included_key id ≢ included_key j
        → get_block db codec with_block j ≡ get_block db codec s j
    unfolding get_block fetch_signed
    get_block_other j differs = rw (is_open, get_block-written id j block s.content differs) refl

    get_block_same :
        (j : BlockId)
        → included_key id ≡ included_key j
        → get_block db codec with_block j ≡ returned block
    unfolding get_block included_key block_key
    get_block_same j same = rw is_open (
        fetch_signed-marshal law code (block_key j) (written id block s.content) block (
          subst (λ k. db.get k (written id block s.content) ≡ some (codec.marshal block))
            (ap (λ k. block_prefix ∷ tail k) same)
            (law.get-put_key_self (block_key id) (codec.marshal block) _)))

    get_included_self : db.get (included_key id) (written id block s.content) ≡ some (0 ∷ [])
    unfolding included_key not_included_key block_key
    get_included_self =
        get-put_key_head law included_prefix block_prefix (encode_block_id id) (encode_block_id id)
          (codec.marshal block) _ refl
        ∙ get-put_key_head law included_prefix not_included_prefix (encode_block_id id)
            (encode_block_id id) [] _ refl
        ∙ law.get-put_key_self (included_key id) (0 ∷ []) s.content

    with_block-Extends :
        IsCoherent s → db.get (included_key id) s.content ≡ none → Extends s with_block
    with_block-Extends coherent unknown = record {
      is_open = is_open;
      coherent = λ j there. elim (List-discrete ℕ_discrete (included_key id) (included_key j)) [
        | yes same ↦ (block, get_block_same j same)
        | no differs ↦
            let old =
              coherent j
                (there.0, sym (get_included-written id j block s.content differs) ∙ there.1) in
            (old.0, get_block_other j differs ∙ old.1)
      ];
      kept = λ j there.
          let differs : included_key id ≢ included_key j =
            λ e. none≢some there.0 (sym unknown ∙ ap (λ k. db.get k s.content) e ∙ there.1) in
          (
            (there.0, get_included-written id j block s.content differs ∙ there.1),
            get_block_other j differs,
          );
    }

    -- What has an entry had one before, or it is the new block, which reads as it was given.
    abbrev pub Adds : BlockStore D → BlockStore D → BlockId → Type 0
    Adds s s' j =
        IsKnown s j
        ⊎ ((included_key id ≡ included_key j) × (get_block db codec s' j ≡ returned block))

    pub set_block-Extends :
        IsCoherent s
        → (s' : BlockStore D) × (set_block db codec s id block ≡ returned s')
          × IsKnown s' id
          × Extends s s'
          × ((j : BlockId) → IsKnown s' j → Adds s s' j)
    unfolding set_block
    set_block-Extends coherent = elim (Option-cases (db.get (included_key id) s.content)) [
      | inr (v, known) ↦ (
        s,
        rw (is_open, known) refl,
        (v, known),
        record { is_open = is_open; coherent = coherent; kept = λ j there. (there, refl) },
        λ j there. inl there,
      )
      | inl unknown ↦ (
        with_block,
        rw (is_open, unknown) refl,
        (0 ∷ [], get_included_self),
        with_block-Extends coherent unknown,
        λ j there. elim (List-discrete ℕ_discrete (included_key id) (included_key j)) [
          | yes same ↦ inr (same, get_block_same j same)
          | no differs ↦
              inl (there.0, sym (get_included-written id j block s.content differs) ∙ there.1)
        ],
      )
    ]

  pub Extends-refl : (s : BlockStore D) → s.closed ≡ false → IsCoherent s → Extends s s
  Extends-refl s is_open coherent = record {
    is_open = is_open;
    coherent = coherent;
    kept = λ j there. (there, refl);
  }

  pub Extends-trans : (s s' s'' : BlockStore D) → Extends s s' → Extends s' s'' → Extends s s''
  Extends-trans s s' s'' h k = record {
    is_open = k.is_open;
    coherent = k.coherent;
    kept = λ j there.
        let (there', same') = h.kept j there in
        let (there'', same'') = k.kept j there' in (there'', same'' ∙ same');
  }
