-- ===== src/Prelude/Asserting.antt =====
-- Calls in which no type assertion fails.
use mathlib.Core.Path.{◌≡◌, refl, ap}
use mathlib.Core.Logic.{◌≢◌}
use mathlib.Core.Bool.{Bool, true, false}
use mathlib.Core.Option.{Option, none, some}
use blockmania.Prelude.Tests.{if◌then◌else◌, maybe}
use blockmania.Prelude.Outcomes.{Outcome, ok, fault, wrong_type, ◌>>=◌}

-- No type assertion of the call fails, and if it returns a value, the value meets `P`.
abbrev pub Asserts {ℓ} : {A : Type ℓ} → Outcome A → (A → Type 0) → Type 0
Asserts (ok a) P = P a
Asserts (fault f) P = f ≢ wrong_type

module _ {ℓ} {A : Type ℓ} where
  pub Asserts-mono :
      (m : Outcome A) (P Q : A → Type 0) → Asserts m P → ((a : A) → P a → Q a) → Asserts m Q
  Asserts-mono (ok a) P Q h k = k a h
  Asserts-mono (fault f) P Q h k = h

  pub never-Asserts :
      (m : Outcome A) (P : A → Type 0)
      → m ≢ fault wrong_type
      → ((a : A) → m ≡ ok a → P a)
      → Asserts m P
  never-Asserts (ok a) P h k = k a refl
  never-Asserts (fault f) P h k = λ e. h (ap fault e)

  pub Asserts-if :
      (b : Bool) (x y : Outcome A) (P : A → Type 0)
      → Asserts x P
      → Asserts y P
      → Asserts (if b then x else y) P
  Asserts-if true x y P h k = h
  Asserts-if false x y P h k = k

pub Asserts-bind {ℓ κ} :
    {A : Type ℓ} {B : Type κ} (m : Outcome A) (f : A → Outcome B) (Q : A → Type 0) (P : B → Type 0)
    → Asserts m Q
    → ((a : A) → Q a → Asserts (f a) P)
    → Asserts (m >>= f) P
Asserts-bind (ok a) f Q P h k = k a h
Asserts-bind (fault e) f Q P h k = h

pub Asserts-maybe {ℓ κ} :
    {A : Type ℓ} {B : Type κ} (o : Option A) (x : Outcome B) (f : A → Outcome B) (P : B → Type 0)
    → (o ≡ none → Asserts x P)
    → ((a : A) → o ≡ some a → Asserts (f a) P)
    → Asserts (maybe o x f) P
Asserts-maybe none x f P h k = h refl
Asserts-maybe (some a) x f P h k = k a refl
