-- ===== src/Broadcast/Database.antt =====
-- The key-value database (badger) that the store stands on: the operations of its transactions that
-- broadcast/store.go calls, and what the store relies on. A transaction that fails is not in it.
use blockmania.Prelude.{true, ℕ, List, [], ◌∷◌, ◌++◌, Option, none, some, false, All, ◌≡◌, ◌≢◌}
use mathlib.Core.List.{Memᴰ}
use blockmania.Lexinum.Sorting.{less}

-- `txn.Get`, `txn.Set` and `txn.Delete` on the content `D` of a database, and the keys that
-- `for it.Seek(start); it.ValidForPrefix(prefix); it.Next()` visits.
pub record Database (D : Type 0) : Type 0 where
  pub get : List ℕ → D → Option (List ℕ)
  pub put_key : List ℕ → List ℕ → D → D
  pub drop_key : List ℕ → D → D
  pub keys_from : List ℕ → List ℕ → D → List (List ℕ)

-- A key reads as it was written last.
pub record IsDatabase {D : Type 0} (db : Database D) : Type 0 where
  pub get-put_key_self : (k v : List ℕ) (d : D) → db.get k (db.put_key k v d) ≡ some v
  pub get-put_key_ne : (k j v : List ℕ) (d : D) → k ≢ j → db.get j (db.put_key k v d) ≡ db.get j d
  pub get-drop_key_ne : (k j : List ℕ) (d : D) → k ≢ j → db.get j (db.drop_key k d) ≡ db.get j d
  pub get-drop_key_self : (k : List ℕ) (d : D) → db.get k (db.drop_key k d) ≡ none

module _ {D : Type 0} (db : Database D) where
  -- A key that is there, with the prefix, and not before the start.
  pub record IsVisited (prefix start : List ℕ) (d : D) (key : List ℕ) : Type 0 where
    pub rest : List ℕ
    pub behind : key ≡ prefix ++ rest
    pub from : less key start ≡ false
    pub content : List ℕ
    pub there : db.get key d ≡ some content

-- Each key is before the later ones.
abbrev pub IsSorted : List (List ℕ) → Type 0
IsSorted [] = Unit {0}
IsSorted (key ∷ keys) = All (λ j. less key j ≡ true) keys × IsSorted keys

-- An iterator visits, in the order of the bytes, the keys that are there and no others.
pub record IsIterator {D : Type 0} (db : Database D) : Type 0 where
  pub visited :
      (prefix start : List ℕ) (d : D)
      → All (IsVisited db prefix start d) (db.keys_from prefix start d)
  pub sorted : (prefix start : List ℕ) (d : D) → IsSorted (db.keys_from prefix start d)
  pub complete :
      (prefix start : List ℕ) (d : D) (key : List ℕ)
      → IsVisited db prefix start d key
      → Memᴰ key (db.keys_from prefix start d)
