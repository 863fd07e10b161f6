-- ===== src/Broadcast/Checks/Verified.antt =====
-- What an accepted block is.
use blockmania.Prelude.{
  ℕ, List, [], ◌∷◌, Option, none, some, Bool, true, false, not, ◌==◌, if◌then◌else◌, maybe, Map,
  find, nat_key, add_u64, ◌≡◌, ◌≢◌, ◌⊎◌, inl, inr, refl, subst, Bool-cases, ==_iff, arith,
}
use blockmania.Consensus.Block.{BlockId, no_block}
use blockmania.Broadcast.Wire.{SignedData, Block, BlockReference}
use blockmania.Broadcast.Depgraph.{BlockData}
use blockmania.Broadcast.Checks.{
  Verdict, accepted, rejected, Reason, ◌>>=◌, Crypto, id_of_ref, ref_of, signed_by,
  check_previous_ref, check_previous, check_reference, check_references, reference_to, check_links,
  check_signed, check_block,
}

-- A predicate on what was accepted.
abbrev pub Accepts : {A : Type 0} → Verdict A → (A → Type 0) → Type 0
Accepts (accepted a) P = P a
Accepts (rejected reason) P = Unit {0}

module _ {A : Type 0} where
  pub Accepts-if :
      (b : Bool) (reason : Reason) (y : Verdict A) (P : A → Type 0)
      → (b ≡ true → Accepts y P)
      → Accepts (if not b then rejected reason else y) P
  Accepts-if true reason y P h = h refl
  Accepts-if false reason y P h = tt

  pub Accepts-unless :
      (b : Bool) (reason : Reason) (y : Verdict A) (P : A → Type 0)
      → (b ≡ false → Accepts y P)
      → Accepts (if b then rejected reason else y) P
  Accepts-unless true reason y P h = tt
  Accepts-unless false reason y P h = h refl

  pub Accepts-accepted :
      (v : Verdict A) (P : A → Type 0) (a : A) → Accepts v P → v ≡ accepted a → P a
  Accepts-accepted (accepted b) P a h e = subst P (inj e) h
    where
      inj : accepted b ≡ accepted a → b ≡ a
      inj e = cc
  Accepts-accepted (rejected reason) P a h e = cc

pub Accepts-maybe :
    {A B : Type 0} (o : Option B) (reason : Reason) (f : B → Verdict A) (P : A → Type 0)
    → ((b : B) → o ≡ some b → Accepts (f b) P)
    → Accepts (maybe o (rejected reason) f) P
Accepts-maybe none reason f P h = tt
Accepts-maybe (some b) reason f P h = h b refl

pub Accepts-bind :
    {A B : Type 0} (v : Verdict B) (f : B → Verdict A) (Q : B → Type 0) (P : A → Type 0)
    → Accepts v Q
    → ((b : B) → Q b → Accepts (f b) P)
    → Accepts (v >>= f) P
Accepts-bind (accepted b) f Q P h k = k b h
Accepts-bind (rejected reason) f Q P h k = tt

module _ {K : Type 0} (crypto : Crypto K) (keys : Map ℕ K) where
  -- The reference is to another node's block, signed by that node.
  pub record IsReference (block : Block) (sref : SignedData) (id : BlockId) : Type 0 where
    pub ref : BlockReference
    pub decoded : crypto.refs.unmarshal sref.content ≡ some ref
    pub names : id ≡ id_of_ref ref
    pub key : K
    pub known : find ref.node keys ≡ some key
    pub signed : signed_by crypto keys key sref ≡ true
    pub other : ref.node ≢ block.node

  -- One for each reference, in order.
  abbrev pub AreReferences : Block → List SignedData → List BlockId → Type 0
  AreReferences block [] [] = Unit {0}
  AreReferences block [] (id ∷ ids) = ⊥
  AreReferences block (sref ∷ srefs) [] = ⊥
  AreReferences block (sref ∷ srefs) (id ∷ ids) =
      IsReference block sref id × AreReferences block srefs ids

  -- The block's reference to its previous block, signed with the key of its node, is to the block of
  -- that node in the round before, and `prev` is the identifier in it.
  pub record IsSignedPrevious (key : K) (block : Block) (prev : BlockId) : Type 0 where
    pub sref : SignedData
    pub given : block.previous ≡ some sref
    pub signed : signed_by crypto keys key sref ≡ true
    pub ref : BlockReference
    pub decoded : crypto.refs.unmarshal sref.content ≡ some ref
    pub names : prev ≡ id_of_ref ref
    pub same : ref.node ≡ block.node
    pub next : add_u64 ref.round 1 ≡ block.round

  -- Round 1 has no previous block; another round has a signed reference to it.
  abbrev pub IsPrevious : K → Block → BlockId → Type 0
  IsPrevious key block prev =
      ((block.round ≡ 1) × (prev ≡ no_block)) ⊎ IsSignedPrevious key block prev

  pub record IsVerified (signed : SignedData) (data' : BlockData) : Type 0 where
    pub block : Block
    pub decoded : crypto.blocks.unmarshal signed.content ≡ some block
    pub key : K
    pub known : find block.node keys ≡ some key
    pub own_signature :
        crypto.verify key (reference_to crypto keys signed block) signed.signature ≡ true
    pub id : data'.id ≡ id_of_ref (ref_of (crypto.sha signed.content) block)
    pub ref :
        data'.ref
        ≡ record { content = reference_to crypto keys signed block; signature = signed.signature }
    pub previous : IsPrevious key block data'.prev
    pub references : AreReferences block block.references data'.deps

  check_previous-IsPrevious :
      (key : K) (block : Block)
      → Accepts (check_previous crypto keys key block) (IsPrevious key block)
  unfolding check_previous check_previous_ref
  check_previous-IsPrevious key block = elim (Bool-cases (block.round == 1)) [
    | inl first ↦ rw first (inl ((==_iff block.round 1).0 first, refl))
    | inr later ↦ rw later (
        Accepts-maybe block.previous _ _ (IsPrevious key block) λ prev given.
          Accepts-if (signed_by crypto keys key prev) _ _ (IsPrevious key block) λ signed.
            Accepts-maybe (crypto.refs.unmarshal prev.content) _ _ (IsPrevious key block)
              λ ref decoded. Accepts-if (ref.node == block.node) _ _ (IsPrevious key block) λ same.
                Accepts-if (add_u64 ref.round 1 == block.round) _ _ (IsPrevious key block) λ next.
                  inr (record {
                    sref = prev;
                    given = given;
                    signed = signed;
                    ref = ref;
                    decoded = decoded;
                    names = refl;
                    same = (==_iff _ _).0 same;
                    next = (==_iff _ _).0 next;
                  }))
  ]

  check_reference-IsReference :
      (block : Block) (sref : SignedData)
      → Accepts (check_reference crypto keys block sref) (IsReference block sref)
  unfolding check_reference
  check_reference-IsReference block sref =
      Accepts-maybe (crypto.refs.unmarshal sref.content) _ _ (IsReference block sref) λ ref decoded.
        Accepts-maybe (find ref.node keys) _ _ (IsReference block sref) λ key known.
          Accepts-if (signed_by crypto keys key sref) _ _ (IsReference block sref) λ signed.
            Accepts-unless (ref.node == block.node) _ _ (IsReference block sref) λ other. record {
              ref = ref;
              decoded = decoded;
              names = refl;
              key = key;
              known = known;
              signed = signed;
              other = λ same. ground arith;
            }

  check_references-AreReferences :
      (block : Block) (srefs : List SignedData)
      → Accepts (check_references crypto keys block srefs) (AreReferences block srefs)
  unfolding check_references
  check_references-AreReferences block [] = tt
  check_references-AreReferences block (sref ∷ srefs) =
      Accepts-bind (check_reference crypto keys block sref) _ (IsReference block sref)
        (AreReferences block (sref ∷ srefs)) (check_reference-IsReference block sref)
        λ id one.
          Accepts-bind (check_references crypto keys block srefs) _ (AreReferences block srefs)
            (AreReferences block (sref ∷ srefs)) (check_references-AreReferences block srefs)
            (λ ids others. (one, others))

  check_block-Accepts :
      (signed : SignedData) → Accepts (check_block crypto keys signed) (IsVerified signed)
  unfolding check_block check_signed check_links
  check_block-Accepts signed =
      Accepts-maybe (crypto.blocks.unmarshal signed.content) _ _ (IsVerified signed)
        λ block decoded. Accepts-maybe (find block.node keys) _ _ (IsVerified signed) λ key known.
          Accepts-if (crypto.verify key (reference_to crypto keys signed block) signed.signature) _
            _ (IsVerified signed)
            λ holds.
              Accepts-bind (check_previous crypto keys key block) _ (IsPrevious key block)
                (IsVerified signed) (check_previous-IsPrevious key block)
                λ prev previous.
                  Accepts-bind (check_references crypto keys block block.references) _
                    (AreReferences block block.references) (IsVerified signed)
                    (check_references-AreReferences block block.references)
                    λ deps references. record {
                      block = block;
                      decoded = decoded;
                      key = key;
                      known = known;
                      own_signature = holds;
                      id = refl;
                      ref = refl;
                      previous = previous;
                      references = references;
                    }

  -- A block that passes the checks is signed by the node that it names. Its previous block (none in
  -- round 1) is the one that its signed reference names, which is signed by that node and is to a block
  -- of that node in the round before. Each of its references is to a block of another node, signed by
  -- that node, and the identifiers of the result are those in the references, in order.
  pub check_block-IsVerified :
      (signed : SignedData) (data' : BlockData)
      → check_block crypto keys signed ≡ accepted data'
      → IsVerified signed data'
  check_block-IsVerified signed data' done =
      Accepts-accepted (check_block crypto keys signed) (IsVerified signed) data'
        (check_block-Accepts signed) done
