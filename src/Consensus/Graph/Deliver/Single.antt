-- ===== src/Consensus/Graph/Deliver/Single.antt =====
-- Each node has one hash in a round, so one block in what is delivered.
use blockmania.Prelude.{
  ℕ, List, [], ◌∷◌, Map, find, put, delete, find-put, find-put_ne, find-delete, nat_key, none, some,
  ◌≡◌, ◌≢◌, refl, sym, ap, subst, ◌∙◌, All, Bool-cases, inl, inr, ℕ_discrete, arith, ite,
}
use blockmania.Consensus.Block.{Hash, BlockId, is_set}
use blockmania.Consensus.Graph.Deliver.{hash_lt, round_blocks, insert_block, sort_blocks}
use blockmania.Consensus.Graph.Deliver.Sorting.{insert_block-All, sort_blocks-All}

-- The blocks are of different nodes.
abbrev pub Single : List BlockId → Type 0
Single [] = Unit {0}
Single (b ∷ bs) = All (λ c. c.node ≢ b.node) bs × Single bs

-- No node has two hashes.
abbrev pub OneEach : Map ℕ Hash → Type 0
OneEach [] = Unit {0}
OneEach ((node, hash) ∷ hs) = (find node hs ≡ none) × OneEach hs

-- No node has two hashes in a round.
abbrev pub Tidy : Map ℕ (Map ℕ Hash) → Type 0
Tidy resolved = (round : ℕ) (hs : Map ℕ Hash) → find round resolved ≡ some hs → OneEach hs

pub put-OneEach :
    (node : ℕ) (hash : Hash) (hs : Map ℕ Hash) → OneEach hs → OneEach (put node hash hs)
unfolding put find
put-OneEach node hash [] h = (refl, tt)
put-OneEach node hash ((j, w) ∷ hs) (apart, h) =
    elim (ℕ_discrete j node)
      as (λ c. OneEach (ite c ((node, hash) ∷ hs) ((j, w) ∷ put node hash hs))) [
        | yes same ↦ (ap (λ (k : ℕ). find k hs) (sym same) ∙ apart, h)
        | no differs ↦
            (find-put_ne node j hash hs (λ e. differs (sym e)) ∙ apart, put-OneEach node hash hs h)
      ]

pub put-Tidy :
    (round : ℕ) (hs : Map ℕ Hash) (resolved : Map ℕ (Map ℕ Hash))
    → OneEach hs
    → Tidy resolved
    → Tidy (put round hs resolved)
put-Tidy round hs resolved one tidy r xs there = elim (ℕ_discrete round r) [
  | yes same ↦
      let e : hs ≡ xs = ground (arith, find-put round r hs resolved, there) in subst OneEach e one
  | no differs ↦ tidy r xs (sym (find-put_ne round r hs resolved differs) ∙ there)
]

pub delete-Tidy :
    (round : ℕ) (resolved : Map ℕ (Map ℕ Hash)) → Tidy resolved → Tidy (delete round resolved)
delete-Tidy round resolved tidy r xs there =
    tidy r xs (ground (arith, find-delete round r resolved, there))

round_blocks-absent :
    (round node : ℕ) (hs : Map ℕ Hash)
    → find node hs ≡ none
    → All (λ b. b.node ≢ node) (round_blocks round hs)
unfolding round_blocks find
round_blocks-absent round node [] h = tt
round_blocks-absent round node ((j, hash) ∷ hs) h =
    let differs : j ≢ node = λ e. ground arith in
    let rest = round_blocks-absent round node hs (ground arith) in
    elim (Bool-cases (is_set hash)) [
      | inl there ↦ rw there (differs, rest)
      | inr missing ↦ rw missing rest
    ]

round_blocks-Single : (round : ℕ) (hs : Map ℕ Hash) → OneEach hs → Single (round_blocks round hs)
unfolding round_blocks
round_blocks-Single round [] h = tt
round_blocks-Single round ((node, hash) ∷ hs) (apart, h) =
    let rest = round_blocks-Single round hs h in
    elim (Bool-cases (is_set hash)) [
      | inl there ↦ rw there (round_blocks-absent round node hs apart, rest)
      | inr missing ↦ rw missing rest
    ]

insert_block-Single :
    (b : BlockId) (bs : List BlockId)
    → All (λ c. c.node ≢ b.node) bs
    → Single bs
    → Single (insert_block b bs)
unfolding insert_block
insert_block-Single b [] apart s = (tt, tt)
insert_block-Single b (c ∷ cs) (differs, apart) (first, s) =
    elim (Bool-cases (hash_lt c.hash b.hash)) [
      | inl lower ↦ rw lower (
        insert_block-All (λ d. d.node ≢ c.node) b cs (λ e. differs (sym e)) first,
        insert_block-Single b cs apart s,
      )
      | inr not_lower ↦ rw not_lower ((differs, apart), (first, s))
    ]

sort_blocks-Single : (bs : List BlockId) → Single bs → Single (sort_blocks bs)
unfolding sort_blocks
sort_blocks-Single [] s = tt
sort_blocks-Single (b ∷ bs) (apart, s) =
    insert_block-Single b (sort_blocks bs) (sort_blocks-All (λ c. c.node ≢ b.node) bs apart)
      (sort_blocks-Single bs s)

pub delivered-Single :
    (round : ℕ) (hs : Map ℕ Hash) → OneEach hs → Single (sort_blocks (round_blocks round hs))
delivered-Single round hs one =
    sort_blocks-Single (round_blocks round hs) (round_blocks-Single round hs one)
