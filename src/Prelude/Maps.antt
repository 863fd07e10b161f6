-- ===== src/Prelude/Maps.antt =====
-- Go maps as association lists with one entry for a key. A nil map is read as an empty one: the
-- code never writes to a nil map. Iteration (`range`) goes in the order of the list.
use Prim.Native.Nat.{ℕ, ◌≤◌, ◌<◌}
use mathlib.Core.Path.{◌≡◌, refl, ap}
use mathlib.Core.Logic.{◌≢◌, ite}
use mathlib.Core.Bool.{Bool}
use mathlib.Core.List.{List, [], ◌∷◌}
use mathlib.Core.Option.{Option, none, some}
use native.Mathlib.Omega.{arith}
use native.Mathlib.Decide.{ℕ_discrete}
use blockmania.Prelude.Tests.{if◌then◌else◌}
use blockmania.Prelude.Lists.{length}

-- A type that can be the key of a map.
pub record Key {ℓ} (K : Type ℓ) : Type ℓ where
  pub same : Discrete K

instance abbrev pub nat_key : Key ℕ
nat_key = record { same = ℕ_discrete }

abbrev pub Map {ℓ} : Type ℓ → Type ℓ → Type ℓ
Map K V = List (K × V)

module _ {ℓ} {K V : Type ℓ} where
  -- The entries whose key passes the test: the copy loops with `continue`.
  unfoldable pub keep : (K → Bool) → Map K V → Map K V
  keep p [] = []
  keep p ((j, w) ∷ m) = if p j then (j, w) ∷ keep p m else keep p m

module _ {ℓ} {K V : Type ℓ} ⦃e : Key K⦄ where
  unfoldable pub find : K → Map K V → Option V
  find k [] = none
  find k ((j, v) ∷ m) = ite (e.same j k) (some v) (find k m)

  unfoldable pub put : K → V → Map K V → Map K V
  put k v [] = (k, v) ∷ []
  put k v ((j, w) ∷ m) = ite (e.same j k) ((k, v) ∷ m) ((j, w) ∷ put k v m)

  unfoldable pub delete : K → Map K V → Map K V
  delete k [] = []
  delete k ((j, w) ∷ m) = ite (e.same j k) (delete k m) ((j, w) ∷ delete k m)

  pub find-put :
      (k j : K) (v : V) (m : Map K V) → find j (put k v m) ≡ ite (e.same k j) (some v) (find j m)
  unfolding find put
  find-put k j v [] = refl
  find-put k j v ((i, w) ∷ m) = ground (arith, find-put k j v m)

  pub find-put_self : (k : K) (v : V) (m : Map K V) → find k (put k v m) ≡ some v
  find-put_self k v m = ground (arith, find-put k k v m)

  pub find-put_ne : (k j : K) (v : V) (m : Map K V) → k ≢ j → find j (put k v m) ≡ find j m
  find-put_ne k j v m h = ground (arith, find-put k j v m)

  pub find-delete : (k j : K) (m : Map K V) → find j (delete k m) ≡ ite (e.same k j) none (find j m)
  unfolding find delete
  find-delete k j [] = ground arith
  find-delete k j ((i, w) ∷ m) = ground (arith, find-delete k j m)

  pub find-keep :
      (p : K → Bool) (k : K) (m : Map K V) → find k (keep p m) ≡ (if p k then find k m else none)
  unfolding find keep
  find-keep p k [] = ground arith
  find-keep p k ((i, w) ∷ m) = ground (arith, find-keep p k m, ap p)

  length-delete_le : (k : K) (m : Map K V) → length (delete k m) ≤ length m
  unfolding delete
  length-delete_le k [] = omega arith
  length-delete_le k ((j, w) ∷ m) = ground (arith, length-delete_le k m)

  pub length-delete_lt :
      (k : K) (v : V) (m : Map K V) → find k m ≡ some v → length (delete k m) < length m
  unfolding find delete
  length-delete_lt k v [] h = cc
  length-delete_lt k v ((j, w) ∷ m) h = ground (arith, length-delete_le k m, length-delete_lt k v m)
