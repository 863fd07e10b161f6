-- ===== src/Broadcast/Store/Heads.antt =====
-- Keys with different prefixes are different, so a write under one leaves the values under the others.
use blockmania.Prelude.{
  ℕ, List, [], ◌∷◌, some, ◌==◌, ◌≡◌, ◌≢◌, refl, ap, subst, All, ℕ_discrete, false, arith, ◌∙◌,
}
use blockmania.Consensus.Block.{Dep}
use blockmania.Broadcast.Database.{Database, IsDatabase}
use blockmania.Broadcast.Keys.{
  included_key, not_included_key, encode_block_id, included_prefix, not_included_prefix,
}
use blockmania.Broadcast.Store.{mark_deps, unmark_deps}

heads_differ : (p q : ℕ) (xs ys : List ℕ) → (p == q) ≡ false → (p ∷ xs) ≢ (q ∷ ys)
heads_differ p q xs ys h e = ground (arith, ap head e)
  where
    head : List ℕ → ℕ
    head [] = 0
    head (x ∷ l) = x

bytes_discrete : Discrete (List ℕ)
unfolding ℕ_discrete
bytes_discrete = hlevel ℕ_discrete

module _ {D : Type 0} {db : Database D} (law : IsDatabase db) where
  pub get-put_key_head :
      (p q : ℕ) (xs ys v : List ℕ) (d : D)
      → (q == p) ≡ false
      → db.get (p ∷ xs) (db.put_key (q ∷ ys) v d) ≡ db.get (p ∷ xs) d
  get-put_key_head p q xs ys v d h =
      law.get-put_key_ne (q ∷ ys) (p ∷ xs) v d (heads_differ q p ys xs h)

  pub get-mark_deps :
      (p : ℕ) (xs : List ℕ) (deps : List Dep) (d : D)
      → (included_prefix == p) ≡ false
      → db.get (p ∷ xs) (mark_deps db deps d) ≡ db.get (p ∷ xs) d
  unfolding mark_deps included_key
  get-mark_deps p xs [] d h = refl
  get-mark_deps p xs (dep ∷ deps) d h =
      get-mark_deps p xs deps (db.put_key (included_key dep.block) (1 ∷ []) d) h
      ∙ get-put_key_head p included_prefix xs (encode_block_id dep.block) (1 ∷ []) d h

  pub get-unmark_deps :
      (p : ℕ) (xs : List ℕ) (deps : List Dep) (d : D)
      → (not_included_prefix == p) ≡ false
      → db.get (p ∷ xs) (unmark_deps db deps d) ≡ db.get (p ∷ xs) d
  unfolding unmark_deps not_included_key
  get-unmark_deps p xs [] d h = refl
  get-unmark_deps p xs (dep ∷ deps) d h =
      get-unmark_deps p xs deps (db.drop_key (not_included_key dep.block) d) h
      ∙ law.get-drop_key_ne (not_included_key dep.block) (p ∷ xs) d
          (heads_differ not_included_prefix p (encode_block_id dep.block) xs h)

  -- A mark stays.
  mark_deps-keeps :
      (k : List ℕ) (deps : List Dep) (d : D)
      → db.get k d ≡ some (1 ∷ [])
      → db.get k (mark_deps db deps d) ≡ some (1 ∷ [])
  unfolding mark_deps
  mark_deps-keeps k [] d marked = marked
  mark_deps-keeps k (dep ∷ deps) d marked =
      mark_deps-keeps k deps (db.put_key (included_key dep.block) (1 ∷ []) d)
        (elim (bytes_discrete (included_key dep.block) k) [
          | yes same ↦
              subst (λ j. db.get j (db.put_key (included_key dep.block) (1 ∷ []) d) ≡ some (1 ∷ []))
                same (law.get-put_key_self (included_key dep.block) (1 ∷ []) d)
          | no other ↦ law.get-put_key_ne (included_key dep.block) k (1 ∷ []) d other ∙ marked
        ])

  pub mark_deps-All :
      (deps : List Dep) (d : D)
      → All
          (λ (dep : Dep). db.get (included_key dep.block) (mark_deps db deps d) ≡ some (1 ∷ []))
          deps
  unfolding mark_deps
  mark_deps-All [] d = tt
  mark_deps-All (dep ∷ deps) d = (
    mark_deps-keeps (included_key dep.block) deps (db.put_key (included_key dep.block) (1 ∷ []) d)
        (law.get-put_key_self (included_key dep.block) (1 ∷ []) d),
    mark_deps-All deps (db.put_key (included_key dep.block) (1 ∷ []) d),
  )
