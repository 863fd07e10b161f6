-- ===== src/Config/Generate/Results.antt =====
-- What a step of the generation returned, and what it gives if it returns.
use blockmania.Prelude.{◌≡◌, refl, subst, nat_key, Option, none, some, Bool, true, false, arith}
use blockmania.Config.Generate.{Result, ok, error, GenerateError, ◌>>=◌, require, or_error}

pub >>=-eq-ok :
    {A B : Type 0} (m : Result A) (next : A → Result B) (b : B)
    → (m >>= next) ≡ ok b
    → (a : A) × (m ≡ ok a) × (next a ≡ ok b)
>>=-eq-ok (ok a) next b h = (a, refl, h)
>>=-eq-ok (error e) next b h = cc

pub require-eq-ok :
    {A : Type 0} (b : Bool) (e : GenerateError) (m : Result A) (a : A)
    → require b e m ≡ ok a
    → m ≡ ok a
require-eq-ok true e m a h = h
require-eq-ok false e m a h = cc

pub or_error-eq-ok :
    {A : Type 0} (e : GenerateError) (o : Option A) (a : A) → or_error e o ≡ ok a → o ≡ some a
or_error-eq-ok e none a h = cc
or_error-eq-ok e (some b) a h = ground arith

pub ok-injective : {A : Type 0} (a b : A) → ok a ≡ ok b → a ≡ b
ok-injective a b h = cc

-- If the call returns a value, the value meets `P`.
abbrev pub Gives : {A : Type 0} → Result A → (A → Type 0) → Type 0
Gives (ok a) P = P a
Gives (error e) P = Unit

pub Gives-eq : {A : Type 0} (m : Result A) (P : A → Type 0) → ((a : A) → m ≡ ok a → P a) → Gives m P
Gives-eq (ok a) P h = h a refl
Gives-eq (error e) P h = tt

pub Gives-ok : {A : Type 0} (m : Result A) (P : A → Type 0) (a : A) → Gives m P → m ≡ ok a → P a
Gives-ok (ok b) P a h e = subst P (ok-injective b a e) h
Gives-ok (error x) P a h e = cc

pub Gives-require :
    {A : Type 0} (b : Bool) (e : GenerateError) (m : Result A) (P : A → Type 0)
    → Gives m P
    → Gives (require b e m) P
Gives-require true e m P h = h
Gives-require false e m P h = tt

pub Gives-bind :
    {A B : Type 0} (m : Result A) (next : A → Result B) (Q : A → Type 0) (P : B → Type 0)
    → Gives m Q
    → ((a : A) → Q a → Gives (next a) P)
    → Gives (m >>= next) P
Gives-bind (ok a) next Q P h k = k a h
Gives-bind (error e) next Q P h k = tt
