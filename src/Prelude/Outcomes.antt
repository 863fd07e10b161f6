-- ===== src/Prelude/Outcomes.antt =====
-- What a Go call that may crash comes to: its value, or the crash.
use mathlib.Core.Path.{◌≡◌, refl, ap, subst}
use mathlib.Core.Bool.{Bool, true, false}
use blockmania.Prelude.Tests.{if◌then◌else◌, maybe}
use mathlib.Core.Option.{Option, none, some}
use mathlib.Core.Logic.{◌⊎◌, inl, inr, ◌≢◌}

-- `index_out_of_range`, `wrong_type` and `nil_pointer` are run-time panics. `mismatched_hash`,
-- `multiple_hashes` and `store_failed` are calls of `log.Fatal`. `out_of_fuel` is no outcome of
-- the program: a loop of the model stopped early.
pub data Fault : Type 0 where
  index_out_of_range wrong_type mismatched_hash multiple_hashes store_failed nil_pointer
        out_of_fuel :
      Fault

pub data Outcome {ℓ} (A : Type ℓ) : Type ℓ where
  ok : A → Outcome A
  fault : Fault → Outcome A

infixl 5 ◌>>=◌
abbrev pub ◌>>=◌ {ℓ κ} : {A : Type ℓ} {B : Type κ} → Outcome A → (A → Outcome B) → Outcome B
fault stop >>= next = fault stop
ok a >>= next = next a

pub >>=-eq-ok {ℓ κ} :
    {A : Type ℓ} {B : Type κ} (m : Outcome A) (next : A → Outcome B) {b : B}
    → (m >>= next) ≡ ok b
    → (a : A) × (m ≡ ok a) × (next a ≡ ok b)
>>=-eq-ok (fault stop) next returns = cc
>>=-eq-ok (ok a) next returns = (a, refl, returns)

pub ok-injective {ℓ} : {A : Type ℓ} (a b : A) → ok a ≡ ok b → a ≡ b
ok-injective a b h = cc

pub Outcome-cases {ℓ} :
    {A : Type ℓ} (m : Outcome A) → ((a : A) × (m ≡ ok a)) ⊎ ((f : Fault) × (m ≡ fault f))
Outcome-cases (ok a) = inl (a, refl)
Outcome-cases (fault f) = inr (f, refl)

fault-injective {ℓ} : {A : Type ℓ} (e d : Fault) → ◌≡◌ {A = Outcome A} (fault e) (fault d) → e ≡ d
fault-injective e d h = cc

-- The call does not end because the model ran out of fuel.
abbrev pub Ends {ℓ} : {A : Type ℓ} → Outcome A → Type ℓ
Ends m = m ≢ fault out_of_fuel

pub >>=-Ends {ℓ κ} :
    {A : Type ℓ} {B : Type κ} (m : Outcome A) (f : A → Outcome B)
    → Ends m
    → ((a : A) → m ≡ ok a → Ends (f a))
    → Ends (m >>= f)
>>=-Ends (ok a) f h k = k a refl
>>=-Ends (fault e) f h k = λ stops. h (ap fault (fault-injective e out_of_fuel stops))

-- The call ends, and if it returns a value, the value meets `P`.
abbrev pub Meets {ℓ} : {A : Type ℓ} → Outcome A → (A → Type 0) → Type 0
Meets (ok a) P = P a
Meets (fault f) P = f ≢ out_of_fuel

module _ {ℓ} {A : Type ℓ} where
  pub Ends-Meets :
      (m : Outcome A) (P : A → Type 0) → Ends m → ((a : A) → m ≡ ok a → P a) → Meets m P
  Ends-Meets (ok a) P h k = k a refl
  Ends-Meets (fault f) P h k = λ e. h (ap fault e)

  Meets-Ends : (m : Outcome A) (P : A → Type 0) → Meets m P → Ends m
  Meets-Ends (ok a) P h = λ e. cc
  Meets-Ends (fault f) P h = λ e. h (fault-injective f out_of_fuel e)

  pub Meets-ok : (m : Outcome A) (P : A → Type 0) (a : A) → Meets m P → m ≡ ok a → P a
  Meets-ok (ok b) P a h e = subst P (ok-injective b a e) h
  Meets-ok (fault f) P a h e = cc

  pub Meets-mono :
      (m : Outcome A) (P Q : A → Type 0) → Meets m P → ((a : A) → P a → Q a) → Meets m Q
  Meets-mono (ok a) P Q h k = k a h
  Meets-mono (fault f) P Q h k = h

  pub Meets-if :
      (b : Bool) (x y : Outcome A) (P : A → Type 0)
      → (b ≡ true → Meets x P)
      → (b ≡ false → Meets y P)
      → Meets (if b then x else y) P
  Meets-if true x y P h k = h refl
  Meets-if false x y P h k = k refl

pub Meets-bind {ℓ κ} :
    {A : Type ℓ} {B : Type κ} (m : Outcome A) (f : A → Outcome B) (Q : A → Type 0) (P : B → Type 0)
    → Meets m Q
    → ((a : A) → m ≡ ok a → Q a → Meets (f a) P)
    → Meets (m >>= f) P
Meets-bind (ok a) f Q P h k = k a refl h
Meets-bind (fault e) f Q P h k = h

pub Meets-maybe {ℓ κ} :
    {A : Type ℓ} {B : Type κ} (o : Option A) (x : Outcome B) (f : A → Outcome B) (P : B → Type 0)
    → (o ≡ none → Meets x P)
    → ((a : A) → o ≡ some a → Meets (f a) P)
    → Meets (maybe o x f) P
Meets-maybe none x f P h k = h refl
Meets-maybe (some a) x f P h k = k a refl
