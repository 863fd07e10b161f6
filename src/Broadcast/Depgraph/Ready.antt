-- ===== src/Broadcast/Depgraph/Ready.antt =====
-- A block is queued only when the blocks that it refers to are included.
use mathlib.Core.List.{append-nil, append_assoc}
use blockmania.Prelude.{
  ℕ, List, [], ◌∷◌, ◌++◌, none, some, Bool, true, false, find, put, find-put_self, find-put_ne,
  ◌==◌, if◌then◌else◌, maybe, Meets, Meets-bind, Meets-if, Meets-maybe, Meets-mono, ◌≡◌, ◌≢◌, ◌⊎◌,
  inl, inr, refl, sym, ap, subst, ◌∙◌, All, All-append, Option-cases,
}
use blockmania.Consensus.Block.{BlockId, BlockId-discrete, block_id_key, valid}
use blockmania.Broadcast.Keys.{included_key}
use blockmania.Broadcast.Depgraph.{
  Depgraph, BlockData, Store, Item, missing, failed, found, is_one_item, is_stored, known,
  is_included, mark_included, check_dep, check_prev, check_deps,
}

-- The caches say that the block is included.
abbrev pub IsKnown : Depgraph → BlockId → Type 0
IsKnown d id = known d id ≡ some true

abbrev pub PrevIn : Depgraph → BlockId → Type 0
PrevIn d prev = (valid prev ≡ false) ⊎ IsKnown d prev

abbrev pub DepIn : Depgraph → BlockId → Type 0
DepIn d dep = ((dep.node == d.self) ≡ true) ⊎ IsKnown d dep

-- The previous block and every reference are included, but for the node's own blocks.
pub record Ready (d : Depgraph) (b : BlockData) : Type 0 where
  pub prev : PrevIn d b.prev
  pub deps : All (DepIn d) b.deps

-- From `d` to `d'` blocks that are ready were queued, and no included block was forgotten.
pub record Grew (d d' : Depgraph) : Type 0 where
  pub added : List BlockData
  pub blocks : d'.blocks ≡ d.blocks ++ added
  pub ready : All (Ready d') added
  pub self : d'.self ≡ d.self
  pub keeps : (id : BlockId) → IsKnown d id → IsKnown d' id

pub All-mono :
    {A : Type 0} (P Q : A → Type 0) (xs : List A) → ((x : A) → P x → Q x) → All P xs → All Q xs
All-mono P Q [] f h = tt
All-mono P Q (x ∷ xs) f h = (f x h.0, All-mono P Q xs f h.1)

module _ {d d' : Depgraph} (g : Grew d d') where
  pub PrevIn-mono : (prev : BlockId) → PrevIn d prev → PrevIn d' prev
  PrevIn-mono prev (inl no_prev) = inl no_prev
  PrevIn-mono prev (inr there) = inr (g.keeps prev there)

  pub DepIn-mono : (dep : BlockId) → DepIn d dep → DepIn d' dep
  DepIn-mono dep (inl own) = inl (subst (λ (s : ℕ). (dep.node == s) ≡ true) (sym g.self) own)
  DepIn-mono dep (inr there) = inr (g.keeps dep there)

  Ready-mono : (b : BlockData) → Ready d b → Ready d' b
  Ready-mono b r = record {
    prev = PrevIn-mono b.prev r.prev;
    deps = All-mono (DepIn d) (DepIn d') b.deps DepIn-mono r.deps;
  }

pub Grew-same :
    (d d' : Depgraph)
    → d'.blocks ≡ d.blocks
    → d'.self ≡ d.self
    → ((id : BlockId) → IsKnown d id → IsKnown d' id)
    → Grew d d'
Grew-same d d' blocks self keeps = record {
  added = [];
  blocks = blocks ∙ sym (append-nil d.blocks);
  ready = tt;
  self = self;
  keeps = keeps;
}

pub Grew-trans : {d d' d'' : Depgraph} → Grew d d' → Grew d' d'' → Grew d d''
Grew-trans {d} {d'} {d''} g h = record {
  added = g.added ++ h.added;
  blocks = h.blocks ∙ ap (λ l. l ++ h.added) g.blocks ∙ append_assoc d.blocks g.added h.added;
  ready =
      All-append (Ready d'') g.added h.added
        (All-mono (Ready d') (Ready d'') g.added (Ready-mono h) g.ready) h.ready;
  self = h.self ∙ g.self;
  keeps = λ id there. h.keeps id (g.keeps id there);
}

none-some : {A : Type 0} {a : A} → none ≢ some a
none-some e = cc

pub append-eq-nil : {A : Type 0} (xs ys : List A) → xs ++ ys ≡ [] → (xs ≡ []) × (ys ≡ [])
append-eq-nil [] ys h = (refl, h)
append-eq-nil (x ∷ xs) ys h = cc

no_gap : (inc : Bool) (id : BlockId) → (if inc then [] else id ∷ []) ≡ [] → inc ≡ true
no_gap true id h = refl
no_gap false id h = cc

pub known-put_icache :
    (d : Depgraph) (id : BlockId) (inc : Bool)
    → known d id ≡ none
    → known (record d { icache = put id inc d.icache }) id ≡ some inc
unfolding known
known-put_icache d id inc unknown = elim (Option-cases (find id d.tcache)) [
  | inl out ↦ rw out (find-put_self id inc d.icache)
  | inr (b, there) ↦
      absurd (subst (λ o. maybe o (find id d.icache) some ≢ none) (sym there) (λ e. cc) unknown)
]

pub known-put_icache_ne :
    (d : Depgraph) (id other : BlockId) (inc : Bool)
    → id ≢ other
    → known (record d { icache = put id inc d.icache }) other ≡ known d other
unfolding known
known-put_icache_ne d id other inc h =
    ap (λ o. maybe (find other d.tcache) o some) (find-put_ne id other inc d.icache h)

pub IsKnown-mark_included :
    (d : Depgraph) (id other : BlockId) → IsKnown d other → IsKnown (mark_included id d) other
unfolding known mark_included
IsKnown-mark_included d id other there = elim (BlockId-discrete id other) [
  | yes same ↦
      subst
        (λ j.
          maybe (find j (put id true d.tcache)) (find j (put id true d.icache)) some ≡ some true)
        same
        (ap (λ o. maybe o (find id (put id true d.icache)) some) (find-put_self id true d.tcache))
  | no differs ↦
      ap (λ o. maybe o (find other (put id true d.icache)) some)
        (find-put_ne id other true d.tcache differs)
      ∙ ap (λ o. maybe (find other d.tcache) o some) (find-put_ne id other true d.icache differs)
      ∙ there
]

abbrev pub Anything : Bool → Type 0
Anything b = Unit {0}

is_one_item-Meets : (item : Item) → Meets (is_one_item item) Anything
is_one_item-Meets missing = tt
is_one_item-Meets failed = λ e. cc
is_one_item-Meets (found []) = λ e. cc
is_one_item-Meets (found (char ∷ val)) = tt

pub is_stored-Meets : (s : Store) (id : BlockId) → Meets (is_stored s id) Anything
unfolding is_stored
is_stored-Meets s id =
    Meets-if s.closed _ _ Anything (λ _. λ e. cc) (λ _. is_one_item-Meets (s.get (included_key id)))

-- The answer of `isIncluded` stays in the caches.
pub record Answers (d : Depgraph) (id : BlockId) (r : Depgraph × Bool) : Type 0 where
  pub grew : Grew d r.0
  pub told : r.1 ≡ true → IsKnown r.0 id

pub is_included-Answers : (d : Depgraph) (id : BlockId) → Meets (is_included d id) (Answers d id)
unfolding is_included
is_included-Answers d id =
    Meets-maybe (known d id) _ _ (Answers d id)
      (λ unknown.
        Meets-bind (is_stored d.store id) _ Anything (Answers d id) (is_stored-Meets d.store id)
          λ inc _ _. record {
            grew =
                Grew-same d (record d { icache = put id inc d.icache }) refl refl
                  λ other there. elim (BlockId-discrete id other) [
                    | yes same ↦ absurd (
                        subst (λ j. known d j ≢ some true) same (λ e. none-some (sym unknown ∙ e))
                          there)
                    | no differs ↦ known-put_icache_ne d id other inc differs ∙ there
                  ];
            told = λ e. known-put_icache d id inc unknown ∙ ap some e;
          })
      (λ inc there. record {
        grew = Grew-same d d refl refl (λ j known_before. known_before);
        told = λ e. there ∙ ap some e;
      })

-- What a check of references leaves: if none is missing, all that it looked at are there.
pub record Checks (d : Depgraph) (P : Depgraph → Type 0) (r : Depgraph × List BlockId)
    : Type 0 where
  pub grew : Grew d r.0
  pub all_there : r.1 ≡ [] → P r.0

check_dep-Checks :
    (d : Depgraph) (id : BlockId) → Meets (check_dep d id) (Checks d (λ d'. IsKnown d' id))
unfolding check_dep
check_dep-Checks d id =
    Meets-bind (is_included d id) _ (Answers d id) (Checks d (λ d'. IsKnown d' id))
      (is_included-Answers d id)
      λ (d', inc) _ a. record { grew = a.grew; all_there = λ e. a.told (no_gap inc id e) }

pub check_prev-Checks :
    (d : Depgraph) (prev : BlockId) → Meets (check_prev d prev) (Checks d (λ d'. PrevIn d' prev))
unfolding check_prev
check_prev-Checks d prev =
    Meets-if (valid prev) _ _ (Checks d (λ d'. PrevIn d' prev))
      (λ _.
        Meets-mono (check_dep d prev) (Checks d (λ d'. IsKnown d' prev))
          (Checks d (λ d'. PrevIn d' prev)) (check_dep-Checks d prev)
          (λ r c. record { grew = c.grew; all_there = λ e. inr (c.all_there e) }))
      (λ no_prev. record {
        grew = Grew-same d d refl refl (λ j there. there);
        all_there = λ _. inl no_prev;
      })

pub check_deps-Checks :
    (d : Depgraph) (deps : List BlockId)
    → Meets (check_deps d deps) (Checks d (λ d'. All (DepIn d') deps))
unfolding check_deps
check_deps-Checks d [] = record {
  grew = Grew-same d d refl refl (λ j there. there);
  all_there = λ _. tt;
}
check_deps-Checks d (dep ∷ deps) =
    Meets-if (dep.node == d.self) _ _ (Checks d (λ d'. All (DepIn d') (dep ∷ deps)))
      (λ own.
        Meets-mono (check_deps d deps) (Checks d (λ d'. All (DepIn d') deps))
          (Checks d (λ d'. All (DepIn d') (dep ∷ deps))) (check_deps-Checks d deps)
          (λ r c. record {
            grew = c.grew;
            all_there = λ e. (DepIn-mono c.grew dep (inl own), c.all_there e);
          }))
      λ other.
        Meets-bind (check_dep d dep) _ (Checks d (λ d'. IsKnown d' dep))
          (Checks d (λ d'. All (DepIn d') (dep ∷ deps))) (check_dep-Checks d dep)
          λ (d', gaps) _ c.
            Meets-bind (check_deps d' deps) _ (Checks d' (λ d''. All (DepIn d'') deps))
              (Checks d (λ d''. All (DepIn d'') (dep ∷ deps))) (check_deps-Checks d' deps)
              λ (d'', more) _ cs. record {
                grew = Grew-trans c.grew cs.grew;
                all_there = λ e.
                    let (no_gaps, no_more) = append-eq-nil gaps more e in
                    (DepIn-mono cs.grew dep (inr (c.all_there no_gaps)), cs.all_there no_more);
              }
