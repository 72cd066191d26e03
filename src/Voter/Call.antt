-- ===== src/Voter/Call.antt =====
-- Calls that change a state. They return, return an error, after which the state stays as it was
-- changed, or panic. Also what polling a future or a stream answers.
use finality_grandpa.Base.{Error, Outcome, ok, err, panic, Attempt, done, failed, ◌≡◌, arith}

-- `std::task::Poll`
pub data Poll {ℓ} (A : Type ℓ) : Type ℓ where
  ready : A → Poll A
  pending : Poll A

-- `Result<A, E::Error>`
pub data Answer {ℓ κ} (X : Type ℓ) (A : Type κ) : Type (ℓ ⊔ κ) where
  fine : A → Answer X A
  fault : X → Answer X A

pub data Reply {ℓ κ μ} (X : Type ℓ) (S : Type κ) (A : Type μ) : Type (ℓ ⊔ κ ⊔ μ) where
  returned : A → S → Reply X S A
  raised : X → S → Reply X S A
  panicked : Reply X S A

abbrev pub Call {ℓ κ μ} : Type ℓ → Type κ → Type μ → Type (ℓ ⊔ κ ⊔ μ)
Call X S A = S → Reply X S A

module _ {ℓ κ μ} {X : Type ℓ} {S : Type κ} {A : Type μ} where
  abbrev pub pure : A → Call X S A
  pure a s = returned a s

  abbrev pub raise : X → Call X S A
  raise x s = raised x s

  abbrev pub gets : (S → A) → Call X S A
  gets f s = returned (f s) s

  -- `?`
  abbrev pub answer : Answer X A → Call X S A
  answer (fine a) s = returned a s
  answer (fault x) s = raised x s

  -- A call of the crate itself, whose error is converted.
  abbrev pub lift : (Error → X) → Outcome A → Call X S A
  lift from (ok a) s = returned a s
  lift from (err e) s = raised (from e) s
  lift from panic s = panicked

  -- The same, when what is left of a failed call has been stored.
  abbrev pub attempt : (Error → X) → Attempt A → Call X S A
  attempt from (done a) s = returned a s
  attempt from (failed e) s = raised (from e) s

module _ {ℓ κ} {X : Type ℓ} {S : Type κ} where
  abbrev pub modify : (S → S) → Call X S (Unit {0})
  modify f s = returned tt (f s)

module _ {ℓ κ μ ν} {X : Type ℓ} {S : Type κ} {A : Type μ} {B : Type ν} where
  infixr 5 ◌>>=◌
  abbrev pub ◌>>=◌ : Call X S A → (A → Call X S B) → Call X S B
  ◌>>=◌ m f s = elim (m s) [ returned a t ↦ f a t | raised x t ↦ raised x t | panicked ↦ panicked ]

  infixr 5 ◌>>◌
  abbrev pub ◌>>◌ : Call X S A → Call X S B → Call X S B
  m >> k = m >>= λ _. k

module _ {ℓ κ μ ν ρ} {X : Type ℓ} {S : Type κ} {A : Type μ} {B : Type ν} {C : Type ρ} where
  pub >>=_assoc :
      (m : Call X S A) (f : A → Call X S B) (g : B → Call X S C) (s : S)
      → ((m >>= f) >>= g) s ≡ (m >>= λ a. f a >>= g) s
  >>=_assoc m f g s = ground arith

-- However the call ends, short of a panic, the state that it leaves satisfies `P`.
abbrev pub Leaves {ℓ κ μ ν} :
    {X : Type ℓ} {S : Type κ} {A : Type μ} → (S → Type ν) → Reply X S A → Type ν
Leaves P (returned a s) = P s
Leaves P (raised x s) = P s
Leaves P panicked = Unit

pub Leaves-imp {ℓ κ μ ν ρ} :
    {X : Type ℓ} {S : Type κ} {A : Type μ} {P : S → Type ν} {Q : S → Type ρ} (r : Reply X S A)
    → Leaves P r
    → ((s : S) → P s → Q s)
    → Leaves Q r
Leaves-imp (returned a s) h k = k s h
Leaves-imp (raised x s) h k = k s h
Leaves-imp panicked h k = tt

module _ {ℓ κ μ ν} {X : Type ℓ} {S : Type κ} {A : Type μ} (P : S → Type ν) where
  -- The call leaves a state that satisfies `P` when it starts in one.
  abbrev pub Keeps : Call X S A → Type (κ ⊔ ν)
  Keeps m = (s : S) → P s → Leaves P (m s)

  pub answer-Keeps : (a : Answer X A) → Keeps (answer a)
  answer-Keeps (fine a) s h = h
  answer-Keeps (fault x) s h = h

  pub lift-Keeps : (from : Error → X) (m : Outcome A) → Keeps (lift from m)
  lift-Keeps from (ok a) s h = h
  lift-Keeps from (err e) s h = h
  lift-Keeps from panic s h = tt

  pub attempt-Keeps : (from : Error → X) (m : Attempt A) → Keeps (attempt from m)
  attempt-Keeps from (done a) s h = h
  attempt-Keeps from (failed e) s h = h

module _ {ℓ κ μ ν ρ} {X : Type ℓ} {S : Type κ} {A : Type μ} {B : Type ν} where
  pub Leaves->>= :
      (P : S → Type ρ) (m : Call X S A) (f : A → Call X S B) (s : S)
      → Leaves P (m s)
      → ((a : A) → Keeps P (f a))
      → Leaves P ((m >>= f) s)
  Leaves->>= P m f s h k = go (m s) h
    where
      go :
          (r : Reply X S A)
          → Leaves P r
          → Leaves P
              (elim r [ returned a t ↦ f a t | raised x t ↦ raised x t | panicked ↦ panicked ])
      go (returned a t) h' = k a t h'
      go (raised x t) h' = h'
      go panicked h' = tt

  pub Keeps->>= :
      (P : S → Type ρ) (m : Call X S A) (f : A → Call X S B)
      → Keeps P m
      → ((a : A) → Keeps P (f a))
      → Keeps P (m >>= f)
  Keeps->>= P m f h k s p = Leaves->>= P m f s (h s p) k

-- If the call returns, its value and the state that it leaves satisfy `P`.
abbrev pub Answers {ℓ κ μ ν} :
    {X : Type ℓ} {S : Type κ} {A : Type μ} → (A → S → Type ν) → Reply X S A → Type ν
Answers P (returned a s) = P a s
Answers P (raised x s) = Unit
Answers P panicked = Unit

pub Answers-imp {ℓ κ μ ν ρ} :
    {X : Type ℓ} {S : Type κ} {A : Type μ} {P : A → S → Type ν} {Q : A → S → Type ρ}
    (r : Reply X S A)
    → Answers P r
    → ((a : A) (s : S) → P a s → Q a s)
    → Answers Q r
Answers-imp (returned a s) h k = k a s h
Answers-imp (raised x s) h k = tt
Answers-imp panicked h k = tt

pub Answers-all {ℓ κ μ ν} :
    {X : Type ℓ} {S : Type κ} {A : Type μ} {P : A → S → Type ν} (r : Reply X S A)
    → ((a : A) (s : S) → P a s)
    → Answers P r
Answers-all (returned a s) h = h a s
Answers-all (raised x s) h = tt
Answers-all panicked h = tt

module _ {ℓ κ μ ν ρ τ} {X : Type ℓ} {S : Type κ} {A : Type μ} {B : Type ν} where
  pub Answers->>= :
      (Q : A → S → Type τ) (P : B → S → Type ρ) (m : Call X S A) (f : A → Call X S B) (s : S)
      → Answers Q (m s)
      → ((a : A) (t : S) → Q a t → Answers P (f a t))
      → Answers P ((m >>= f) s)
  Answers->>= Q P m f s h k = go (m s) h
    where
      go :
          (r : Reply X S A)
          → Answers Q r
          → Answers P
              (elim r [ returned a t ↦ f a t | raised x t ↦ raised x t | panicked ↦ panicked ])
      go (returned a t) h' = k a t h'
      go (raised x t) h' = tt
      go panicked h' = tt
