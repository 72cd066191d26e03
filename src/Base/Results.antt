-- ===== src/Base/Results.antt =====
-- What a call can do: return a value, return an error, or panic (a failed `expect`, an index out
-- of bounds, an arithmetic check, or the end of the fuel of a loop).
use mathlib.Core.Path.{◌≡◌, refl}
use mathlib.Core.Bool.{Bool, true, false}
use mathlib.Core.Logic.{◌⊎◌, inl, inr}
use mathlib.Core.Option.{Option, none, some}

-- `crate::Error`
pub data Error : Type 0 where
  not_descendent : Error

-- A Rust `Result` with this error, where the state that a failed call leaves behind is modelled too.
pub data Attempt {ℓ} (A : Type ℓ) : Type ℓ where
  done : A → Attempt A
  failed : Error → Attempt A

pub data Outcome {ℓ} (A : Type ℓ) : Type ℓ where
  ok : A → Outcome A
  err : Error → Outcome A
  panic : Outcome A

infixl 5 ◌>>=◌ ◌>>◌
abbrev pub ◌>>=◌ {ℓ μ} : {X : Type ℓ} {Y : Type μ} → Outcome X → (X → Outcome Y) → Outcome Y
panic >>= next = panic
err e >>= next = err e
ok x >>= next = next x

abbrev pub ◌>>◌ {ℓ μ} : {X : Type ℓ} {Y : Type μ} → Outcome X → Outcome Y → Outcome Y
m >> next = m >>= λ _. next

-- `Option::expect`
abbrev pub expect {ℓ} : {A : Type ℓ} → Option A → Outcome A
expect (some a) = ok a
expect none = panic

-- `assert!`, and what else panics unless a test passes.
abbrev pub guard : Bool → Outcome (Unit {0})
guard true = ok tt
guard false = panic

-- The call returns a value.
abbrev pub Returns {ℓ} : {A : Type ℓ} → Outcome A → Type 0
Returns (ok a) = Unit
Returns (err e) = ⊥
Returns panic = ⊥

pub Returns-ok {ℓ} : {A : Type ℓ} (m : Outcome A) → Returns m → (a : A) × (m ≡ ok a)
Returns-ok (ok a) h = (a, refl)
Returns-ok (err e) h = absurd h
Returns-ok panic h = absurd h

pub Returns->>= {ℓ κ} :
    {A : Type ℓ} {B : Type κ} (m : Outcome A) (f : A → Outcome B)
    → Returns m
    → ((a : A) → Returns (f a))
    → Returns (m >>= f)
Returns->>= (ok a) f h k = k a
Returns->>= (err e) f h k = absurd h
Returns->>= panic f h k = absurd h

-- If the call returns a value, the value satisfies `P`.
abbrev pub Ensures {ℓ κ} : {A : Type ℓ} → (A → Type κ) → Outcome A → Type κ
Ensures P (ok a) = P a
Ensures P (err e) = Unit
Ensures P panic = Unit

pub Ensures-imp {ℓ κ μ} :
    {A : Type ℓ} {P : A → Type κ} {Q : A → Type μ} (m : Outcome A)
    → Ensures P m
    → ((a : A) → P a → Q a)
    → Ensures Q m
Ensures-imp (ok a) h k = k a h
Ensures-imp (err e) h k = tt
Ensures-imp panic h k = tt

pub Ensures-both {ℓ κ μ} :
    {A : Type ℓ} (P : A → Type κ) (Q : A → Type μ) (m : Outcome A)
    → Ensures P m
    → Ensures Q m
    → Ensures (λ a. P a × Q a) m
Ensures-both P Q (ok a) h k = (h, k)
Ensures-both P Q (err e) h k = tt
Ensures-both P Q panic h k = tt

pub Ensures->>= {ℓ κ μ ν} :
    {A : Type ℓ} {B : Type κ} (P : A → Type μ) (Q : B → Type ν) (m : Outcome A) (f : A → Outcome B)
    → Ensures P m
    → ((a : A) → P a → Ensures Q (f a))
    → Ensures Q (m >>= f)
Ensures->>= P Q (ok a) f h k = k a h
Ensures->>= P Q (err e) f h k = tt
Ensures->>= P Q panic f h k = tt

pub Ensures-ok {ℓ κ} :
    {A : Type ℓ} (P : A → Type κ) (m : Outcome A) (a : A) → m ≡ ok a → Ensures P m → P a
Ensures-ok P m a e h = rw e at h

pub Ensures-all {ℓ κ} :
    {A : Type ℓ} {P : A → Type κ} (m : Outcome A) → ((a : A) → P a) → Ensures P m
Ensures-all (ok a) h = h a
Ensures-all (err e) h = tt
Ensures-all panic h = tt

pub anything {ℓ} : {A : Type ℓ} (m : Outcome A) → Ensures (λ _. Unit {0}) m
anything (ok a) = tt
anything (err e) = tt
anything panic = tt

pub Outcome-cases {ℓ} :
    {A : Type ℓ} (m : Outcome A)
    → ((a : A) × (m ≡ ok a)) ⊎ ((e : Error) × (m ≡ err e)) ⊎ (m ≡ panic)
Outcome-cases (ok a) = inl (a, refl)
Outcome-cases (err e) = inr (inl (e, refl))
Outcome-cases panic = inr (inr refl)
