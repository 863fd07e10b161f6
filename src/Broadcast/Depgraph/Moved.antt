-- ===== src/Broadcast/Depgraph/Moved.antt =====
-- What the loop of `process` uses up with a block.
use blockmania.Prelude.{
  ℕ, ◌<◌, List, some, Bool, true, find, put, find-put_self, find-put_ne, Map, ◌≡◌, ◌⊎◌, inl, inr,
  sym, ap, subst, ◌∙◌, All,
}
use blockmania.Consensus.Block.{BlockId, BlockId-discrete, block_id_key}
use blockmania.Broadcast.Depgraph.{Depgraph, BlockData, Release}
use blockmania.Broadcast.Depgraph.Handled.{included, Queued, Handled, again, queued, waits}
use blockmania.Broadcast.Depgraph.Weights.{
  count_open, count_open-ext, count_open_lt, count_open-put, weight, weight-ext,
}

-- Each pending block stands under its own identifier.
abbrev pub IsById : Depgraph → Type 0
IsById d = (id : BlockId) (b : BlockData) → find id d.pending ≡ some b → b.id ≡ id

-- The pending blocks that are not included, and the ones that wait for an included block.
abbrev pub open_blocks : Depgraph → ℕ
open_blocks d = count_open (included d) d.pending

abbrev pub waiting_blocks : Depgraph → ℕ
waiting_blocks d = weight (included d) d.await

-- What holds between the turns of the loop.
pub record IsLoop (r : Release) : Type 0 where
  pub by_id : IsById r.graph
  pub done : All (λ id. included r.graph id ≡ true) r.processed

-- What `processBlock` of a pending block leaves of the graph.
pub record Moved (d : Depgraph) (id : BlockId) (d' : Depgraph) (done : Bool) : Type 0 where
  pub by_id : IsById d'
  pub more : (j : BlockId) → included d j ≡ true → included d' j ≡ true
  pub now : done ≡ true → included d' id ≡ true
  pub progress :
      (open_blocks d' < open_blocks d)
      ⊎ ((open_blocks d' ≡ open_blocks d)
          × (waiting_blocks d' ≡ waiting_blocks d)
          × ((j : BlockId) → included d j ≡ true → find j d'.await ≡ find j d.await))

Queued-more :
    {d d' : Depgraph} (id j : BlockId) → Queued d id d' → included d j ≡ true → included d' j ≡ true
Queued-more {d} {d'} id j q there = elim (BlockId-discrete id j) [
  | yes same ↦ subst (λ k. included d' k ≡ true) same q.now
  | no differs ↦ q.others j differs ∙ there
]

module _ (d d' : Depgraph) (same : (id : BlockId) → included d' id ≡ included d id) where
  same_open : (m : Map BlockId BlockData) → count_open (included d') m ≡ count_open (included d) m
  same_open m = count_open-ext (included d') (included d) m same

  same_weight : (m : Map BlockId (List BlockId)) → weight (included d') m ≡ weight (included d) m
  same_weight m = weight-ext (included d') (included d) m same

pub put_by_id :
    (b : BlockData) (j : BlockId) (c : BlockData) (m : Map BlockId BlockData)
    → (find j m ≡ some c → c.id ≡ j)
    → find j (put b.id b m) ≡ some c
    → c.id ≡ j
put_by_id b j c m by_id e = elim (BlockId-discrete b.id j) [
  | yes same ↦
      let found : find b.id (put b.id b m) ≡ some c =
        subst (λ k. find k (put b.id b m) ≡ some c) (sym same) e in
      ap (λ x. x.id) (some-injective c b (sym found ∙ find-put_self b.id b m)) ∙ same
  | no differs ↦ by_id (sym (find-put_ne b.id j b m differs) ∙ e)
]
  where
    some-injective : (x y : BlockData) → some x ≡ some y → x ≡ y
    some-injective x y h = cc

pub Handled-IsById :
    {d d' : Depgraph} {done : Bool} (b : BlockData) → IsById d → Handled d b d' done → IsById d'
Handled-IsById b by_id (again was looked) =
    λ j c e. by_id j c (ap (find j) (sym looked.pending) ∙ e)
Handled-IsById b by_id (queued q) = λ j c e. by_id j c (ap (find j) (sym q.pending) ∙ e)
Handled-IsById {d} b by_id (waits w) =
    λ j c e. put_by_id b j c d.pending (by_id j c) (ap (find j) (sym w.pending) ∙ e)

pub Handled-included :
    {d d' : Depgraph} {done : Bool} (b : BlockData)
    → Handled d b d' done
    → done ≡ true
    → included d' b.id ≡ true
Handled-included b (again was looked) e = looked.same b.id ∙ was
Handled-included b (queued q) e = q.now
Handled-included b (waits w) e = cc

pub Handled-Moved :
    (d d' : Depgraph) (b : BlockData) (done : Bool)
    → IsById d
    → find b.id d.pending ≡ some b
    → Handled d b d' done
    → Moved d b.id d' done
Handled-Moved d d' b done by_id there (again was looked) = record {
  by_id = Handled-IsById b by_id (again was looked);
  more = λ j e. looked.same j ∙ e;
  now = Handled-included b (again was looked);
  progress = inr (
    same_open d d' looked.same d'.pending ∙ ap (count_open (included d)) looked.pending,
    same_weight d d' looked.same d'.await ∙ ap (weight (included d)) looked.await,
    λ j e. ap (find j) looked.await,
  );
}
Handled-Moved d d' b done by_id there (queued q) = record {
  by_id = Handled-IsById b by_id (queued q);
  more = λ j e. Queued-more b.id j q e;
  now = Handled-included b (queued q);
  progress = inl (
      subst (λ p. count_open (included d') p < open_blocks d) (sym q.pending)
        (count_open_lt (included d) (included d') d.pending b.id b (λ j e. Queued-more b.id j q e)
          q.was q.now there));
}
Handled-Moved d d' b done by_id there (waits w) = record {
  by_id = Handled-IsById b by_id (waits w);
  more = λ j e. w.same j ∙ e;
  now = Handled-included b (waits w);
  progress = inr (
    same_open d d' w.same d'.pending
        ∙ ap (count_open (included d)) w.pending
        ∙ count_open-put (included d) b.id b b d.pending there,
    same_weight d d' w.same d'.await ∙ w.sizes,
    w.kept,
  );
}
