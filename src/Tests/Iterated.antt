-- ===== src/Tests/Iterated.antt =====
-- The concrete database visits its keys in their order.
use blockmania.Prelude.{
  ℕ, ◌⊎◌, All-mono, List, [], ◌∷◌, ◌++◌, some, Bool, true, ◌&&◌, not, Map, find, All, ◌≡◌, ◌≢◌,
  refl, sym, subst, ◌∙◌, Bool-cases, inl, inr, ite, arith,
}
use mathlib.Core.List.{Memᴰ}
use mathlib.Core.List.Memᴰ.{head, tail}
use blockmania.Lexinum.Sorting.{less, less_trans, less_connex}
use blockmania.Broadcast.Database.{IsVisited, IsSorted, IsIterator}
use blockmania.Tests.Concrete.{
  bytes_key, bytes_discrete, starts_with, insert, sorted_keys, list_database,
}

starts_with_lem :
    (prefix key : List ℕ) → starts_with prefix key ≡ true → (rest : List ℕ) × (key ≡ prefix ++ rest)
starts_with_lem [] key h = (key, refl)
starts_with_lem (p ∷ prefix) [] h = cc
starts_with_lem (p ∷ prefix) (k ∷ key) h =
    let (rest, e) = starts_with_lem prefix key (ground arith) in
    let same : p ≡ k = ground arith in (rest, rw (same, e) refl)

pub starts_with-append : (prefix rest : List ℕ) → starts_with prefix (prefix ++ rest) ≡ true
starts_with-append [] rest = refl
starts_with-append (p ∷ prefix) rest = ground (arith, starts_with-append prefix rest)

-- Where a key comes to stand.
Placed : List ℕ → List ℕ → List (List ℕ) → Type 0
Placed key k keys =
    ((less k key ≡ true) × (insert key (k ∷ keys) ≡ k ∷ insert key keys))
    ⊎ (((less key k ≡ true) × (insert key (k ∷ keys) ≡ key ∷ k ∷ keys))
        ⊎ ((key ≡ k) × (insert key (k ∷ keys) ≡ k ∷ keys)))

insert-cases : (key k : List ℕ) (keys : List (List ℕ)) → Placed key k keys
unfolding Placed
insert-cases key k keys = elim (Bool-cases (less k key)) [
  | inl behind ↦ inl (behind, rw behind refl)
  | inr not_behind ↦ elim (Bool-cases (less key k)) [
    | inl before ↦ inr (inl (before, rw (not_behind, before) refl))
    | inr not_before ↦
        inr (inr (less_connex key k not_before not_behind, rw (not_behind, not_before) refl))
  ]
]

insert-All :
    (P : List ℕ → Type 0) (key : List ℕ) (keys : List (List ℕ))
    → P key
    → All P keys
    → All P (insert key keys)
unfolding Placed
insert-All P key [] p h = (p, tt)
insert-All P key (k ∷ keys) p (q, h) = elim (insert-cases key k keys) [
  | inl (behind, e) ↦ subst (All P) (sym e) (q, insert-All P key keys p h)
  | inr (inl (before, e)) ↦ subst (All P) (sym e) (p, (q, h))
  | inr (inr (same, e)) ↦ subst (All P) (sym e) (q, h)
]

insert-IsSorted : (key : List ℕ) (keys : List (List ℕ)) → IsSorted keys → IsSorted (insert key keys)
unfolding Placed
insert-IsSorted key [] h = (tt, tt)
insert-IsSorted key (k ∷ keys) (after, h) = elim (insert-cases key k keys) [
  | inl (behind, e) ↦
      subst IsSorted (sym e)
        (insert-All (λ j. less k j ≡ true) key keys behind after, insert-IsSorted key keys h)
  | inr (inl (before, e)) ↦ subst IsSorted (sym e) (
    (
      before,
      All-mono (λ j. less k j ≡ true) (λ j. less key j ≡ true)
          (λ j one. less_trans key k j before one) keys after,
    ),
    (after, h),
  )
  | inr (inr (same, e)) ↦ subst IsSorted (sym e) (after, h)
]

Memᴰ-insert_self : (key : List ℕ) (keys : List (List ℕ)) → Memᴰ key (insert key keys)
unfolding Placed
Memᴰ-insert_self key [] = head refl
Memᴰ-insert_self key (k ∷ keys) = elim (insert-cases key k keys) [
  | inl (behind, e) ↦ subst (Memᴰ key) (sym e) (tail (Memᴰ-insert_self key keys))
  | inr (inl (before, e)) ↦ subst (Memᴰ key) (sym e) (head refl)
  | inr (inr (same, e)) ↦ subst (Memᴰ key) (sym e) (head same)
]

Memᴰ-insert : (j key : List ℕ) (keys : List (List ℕ)) → Memᴰ j keys → Memᴰ j (insert key keys)
unfolding Placed
Memᴰ-insert j key [] m = elim m [ ]
Memᴰ-insert j key (k ∷ keys) m = elim (insert-cases key k keys) [
  | inl (behind, e) ↦
      subst (Memᴰ j) (sym e)
        (elim m [ head same ↦ head same | tail later ↦ tail (Memᴰ-insert j key keys later) ])
  | inr (inl (before, e)) ↦ subst (Memᴰ j) (sym e) (tail m)
  | inr (inr (same, e)) ↦ subst (Memᴰ j) (sym e) m
]

-- A key that is found behind an entry is found with it.
find-cons :
    (key k v w : List ℕ) (d : Map (List ℕ) (List ℕ))
    → find key d ≡ some w
    → (content : List ℕ) × (find key ((k, v) ∷ d) ≡ some content)
unfolding find
find-cons key k v w d e =
    elim (bytes_discrete k key)
      as (λ c. (content : List ℕ) × (ite c (some v) (find key d) ≡ some content)) [
        | yes same ↦ (v, refl)
        | no differs ↦ (w, e)
      ]

find-cons_self : (k v : List ℕ) (d : Map (List ℕ) (List ℕ)) → find k ((k, v) ∷ d) ≡ some v
unfolding find
find-cons_self k v d = ground arith

find-cons_ne :
    (key k v : List ℕ) (d : Map (List ℕ) (List ℕ)) → k ≢ key → find key ((k, v) ∷ d) ≡ find key d
unfolding find
find-cons_ne key k v d differs = ground arith

-- What holds of every key there is holds of a key that is found.
pub find-All :
    (P : List ℕ → Type 0) (key content : List ℕ) (d : Map (List ℕ) (List ℕ))
    → All (λ entry. P entry.0) d
    → find key d ≡ some content
    → P key
unfolding find
find-All P key content [] h e = cc
find-All P key content ((k, v) ∷ d) (p, h) e = elim (bytes_discrete k key) [
  | yes same ↦ subst P same p
  | no differs ↦ find-All P key content d h (sym (find-cons_ne key k v d differs) ∙ e)
]

module _ (prefix start : List ℕ) where
  abbrev Visited : Map (List ℕ) (List ℕ) → List ℕ → Type 0
  Visited d = IsVisited list_database prefix start d

  Visited-cons :
      (k v : List ℕ) (d : Map (List ℕ) (List ℕ)) (keys : List (List ℕ))
      → All (Visited d) keys
      → All (Visited ((k, v) ∷ d)) keys
  Visited-cons k v d [] h = tt
  Visited-cons k v d (key ∷ keys) (one, h) =
      let (content, there) = find-cons key k v one.content d one.there in
      (
        record {
          rest = one.rest;
          behind = one.behind;
          from = one.from;
          content = content;
          there = there;
        },
        Visited-cons k v d keys h,
      )

  abbrev chosen : List ℕ → Bool
  chosen key = starts_with prefix key && not (less key start)

  sorted_keys-All : (d : Map (List ℕ) (List ℕ)) → All (Visited d) (sorted_keys prefix start d)
  sorted_keys-All [] = tt
  sorted_keys-All ((k, v) ∷ d) =
      let others = Visited-cons k v d (sorted_keys prefix start d) (sorted_keys-All d) in
      elim (Bool-cases (chosen k)) [
        | inl yes_chosen ↦
            let (rest, behind) = starts_with_lem prefix k (ground arith) in
            rw yes_chosen (
              insert-All (Visited ((k, v) ∷ d)) k (sorted_keys prefix start d)
                (record {
                  rest = rest;
                  behind = behind;
                  from = ground arith;
                  content = v;
                  there = find-cons_self k v d;
                })
                others)
        | inr not_chosen ↦ rw not_chosen others
      ]

  sorted_keys-IsSorted : (d : Map (List ℕ) (List ℕ)) → IsSorted (sorted_keys prefix start d)
  sorted_keys-IsSorted [] = tt
  sorted_keys-IsSorted ((k, v) ∷ d) =
      let others = sorted_keys-IsSorted d in
      elim (Bool-cases (chosen k)) [
        | inl yes_chosen ↦ rw yes_chosen (insert-IsSorted k (sorted_keys prefix start d) others)
        | inr not_chosen ↦ rw not_chosen others
      ]

  sorted_keys-Memᴰ :
      (key w : List ℕ) (d : Map (List ℕ) (List ℕ))
      → chosen key ≡ true
      → find key d ≡ some w
      → Memᴰ key (sorted_keys prefix start d)
  unfolding find
  sorted_keys-Memᴰ key w [] h e = cc
  sorted_keys-Memᴰ key w ((k, v) ∷ d) h e = elim (bytes_discrete k key) [
    | yes same ↦ rw (subst (λ j. chosen j ≡ true) (sym same) h) (
        subst (λ j. Memᴰ j (insert k (sorted_keys prefix start d))) same
          (Memᴰ-insert_self k (sorted_keys prefix start d)))
    | no differs ↦
        let later = sorted_keys-Memᴰ key w d h (sym (find-cons_ne key k v d differs) ∙ e) in
        elim (Bool-cases (chosen k)) [
          | inl yes_chosen ↦ rw yes_chosen (Memᴰ-insert key k (sorted_keys prefix start d) later)
          | inr not_chosen ↦ rw not_chosen later
        ]
  ]

pub list_database-IsIterator : IsIterator list_database
list_database-IsIterator = record {
  visited = λ prefix start d. sorted_keys-All prefix start d;
  sorted = λ prefix start d. sorted_keys-IsSorted prefix start d;
  complete = λ prefix start d key v.
      sorted_keys-Memᴰ prefix start key v.content d
        (let before =
            subst (λ j. starts_with prefix j ≡ true) (sym v.behind)
              (starts_with-append prefix v.rest) in
          let from = v.from in ground arith)
        v.there;
}
