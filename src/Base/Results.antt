-- ===== src/Base/Results.antt =====
-- What a run of kernel code comes to: a value, a call of `panic`, or a fault, by which the model
-- means a run without a result: an access outside an array or through a null pointer, for which C gives
-- no meaning, or a sleep on a lock that the run itself holds, from which nothing wakes it.
use mathlib.Core.Path.{◌≡◌, refl}
use mathlib.Core.Logic.{◌≢◌, ◌⊎◌, inl, inr}

pub data Outcome {ℓ} (X : Type ℓ) : Type ℓ where
  ok : X → Outcome X
  panic fault : Outcome X

-- What follows runs only where the first part ends well.
infixl 5 ◌>>=◌
abbrev pub ◌>>=◌ {ℓ ι} : {X : Type ℓ} {Y : Type ι} → Outcome X → (X → Outcome Y) → Outcome Y
panic >>= next = panic
fault >>= next = fault
ok x >>= next = next x

pub Outcome-cases {ℓ} :
    {X : Type ℓ} (run : Outcome X) → ((x : X) × (run ≡ ok x)) ⊎ ((run ≡ panic) ⊎ (run ≡ fault))
Outcome-cases panic = inr (inl refl)
Outcome-cases fault = inr (inr refl)
Outcome-cases (ok x) = inl (x, refl)

-- A bind that ends well, taken apart.
pub >>=-eq-ok {ℓ ι} :
    {X : Type ℓ} {Y : Type ι} (run : Outcome X) (next : X → Outcome Y) {y : Y}
    → (run >>= next) ≡ ok y
    → (x : X) × (run ≡ ok x) × (next x ≡ ok y)
>>=-eq-ok panic next e = cc
>>=-eq-ok fault next e = cc
>>=-eq-ok (ok x) next e = (x, refl, e)

-- A bind faults only if one of its parts does.
pub >>=-ne-fault {ℓ κ} :
    {A : Type ℓ} {B : Type κ} (m : Outcome A) (f : A → Outcome B)
    → (m ≢ fault)
    → ((a : A) → m ≡ ok a → f a ≢ fault)
    → (m >>= f) ≢ fault
>>=-ne-fault (ok a) f h g = g a refl
>>=-ne-fault panic f h g = λ e. cc
>>=-ne-fault fault f h g = λ e. h refl

-- The run is no fault, and a value that it returns has the property.
pub EndsIn {ℓ} : {X : Type ℓ} → (X → Type 0) → Outcome X → Type 0
EndsIn P (ok x) = P x
EndsIn P panic = Unit {0}
EndsIn P fault = ⊥

pub EndsIn-ok {ℓ} : {X : Type ℓ} (P : X → Type 0) {x : X} → P x → EndsIn P (ok x)
unfolding EndsIn
EndsIn-ok P p = p

pub EndsIn-panic {ℓ} : {X : Type ℓ} (P : X → Type 0) → EndsIn P panic
unfolding EndsIn
EndsIn-panic P = tt

pub EndsIn->>= {ℓ ι} :
    {X : Type ℓ} {Y : Type ι} (P : X → Type 0) (Q : Y → Type 0) (run : Outcome X)
    (next : X → Outcome Y)
    → EndsIn P run
    → ((x : X) → P x → EndsIn Q (next x))
    → EndsIn Q (run >>= next)
unfolding EndsIn
EndsIn->>= P Q (ok x) next p h = h x p
EndsIn->>= P Q panic next p h = tt
EndsIn->>= P Q fault next p h = p

-- A weaker property of the value.
pub EndsIn-mono {ℓ} :
    {X : Type ℓ} (P Q : X → Type 0) (run : Outcome X)
    → EndsIn P run
    → ((x : X) → P x → Q x)
    → EndsIn Q run
unfolding EndsIn
EndsIn-mono P Q (ok x) p h = h x p
EndsIn-mono P Q panic p h = tt
EndsIn-mono P Q fault p h = p

pub EndsIn-ne-fault {ℓ} :
    {X : Type ℓ} (P : X → Type 0) (run : Outcome X) → EndsIn P run → run ≢ fault
unfolding EndsIn
EndsIn-ne-fault P (ok x) p e = cc
EndsIn-ne-fault P panic p e = cc
EndsIn-ne-fault P fault p e = p

pub ne-fault-EndsIn {ℓ} : {X : Type ℓ} (run : Outcome X) → run ≢ fault → EndsIn (λ x. Unit {0}) run
unfolding EndsIn
ne-fault-EndsIn (ok x) h = tt
ne-fault-EndsIn panic h = tt
ne-fault-EndsIn fault h = absurd (h refl)
