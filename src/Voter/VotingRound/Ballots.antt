-- ===== src/Voter/VotingRound/Ballots.antt =====
-- In which order a round may cast its votes. Stage 0 is before the proposal, 1 before the prevote, 2
-- before the precommit, and in stage 3 nothing is left to cast.
pub mod Taken
pub mod Single
pub mod Cast
pub mod Incoming
pub mod Polls
pub mod Runs
use finality_grandpa.Base.{
  ℕ, ◌+◌, ◌≤◌, ◌<◌, Option, none, some, List, [], ◌∷◌, ◌++◌, ◌≡◌, refl, sym, ap, ◌∙◌, arith, ◌==◌,
  if◌then◌else◌,
}
use mathlib.Core.List.{append_assoc, append-nil}
use finality_grandpa.Voter.Call.{Call, ◌>>=◌, Leaves, Leaves-imp, Leaves->>=}
use finality_grandpa.Voter.Environment.{Told}
use finality_grandpa.Voter.VotingRound.{State, Voting, Running}

-- A call that tells the environment of a vote, with the stage in which it is cast, of an
-- equivocation, or of something else.
pub data Kind : Type 0 where
  vote : ℕ → Kind
  report : Kind
  other : Kind

module _ {ℓ} {VoterId H S : Type ℓ} where
  unfoldable pub kind : Told VoterId H S → Kind
  kind (Told.proposed _ _) = Kind.vote 0
  kind (Told.prevoted _ _) = Kind.vote 1
  kind (Told.precommitted _ _) = Kind.vote 2
  kind (Told.completed _ _ _ _) = Kind.other
  kind (Told.concluded _ _ _ _) = Kind.other
  kind (Told.finalize_block _ _ _ _) = Kind.other
  kind (Told.prevote_equivocation _ _) = Kind.report
  kind (Told.precommit_equivocation _ _) = Kind.report

-- The specification of casting: calls that lead from one stage to a later one. Each vote is cast in
-- a stage that is not over, and ends it. The other calls report equivocations.
pub data Follows {ℓ} {VoterId H S : Type ℓ} : ℕ → List (Told VoterId H S) → ℕ → Type ℓ where
  skips : {i j : ℕ} → i ≤ j → Follows i [] j
  casts :
      {i j : ℕ} (k : ℕ) (c : Told VoterId H S) (cs : List (Told VoterId H S))
      → kind c ≡ Kind.vote k
      → i ≤ k
      → Follows (k + 1) cs j
      → Follows i (c ∷ cs) j
  reports :
      {i j : ℕ} (c : Told VoterId H S) (cs : List (Told VoterId H S))
      → kind c ≡ Kind.report
      → Follows i cs j
      → Follows i (c ∷ cs) j

module _ {ℓ} {VoterId H S : Type ℓ} where
  Follows-from :
      {h i j : ℕ} (cs : List (Told VoterId H S)) → h ≤ i → Follows i cs j → Follows h cs j
  Follows-from _ le (Follows.skips m) = Follows.skips (omega arith)
  Follows-from _ le (Follows.casts k c cs e m f) = Follows.casts k c cs e (omega arith) f
  Follows-from _ le (Follows.reports c cs e f) = Follows.reports c cs e (Follows-from cs le f)

  pub Follows-append :
      {i j k : ℕ} (cs ds : List (Told VoterId H S))
      → Follows i cs j
      → Follows j ds k
      → Follows i (cs ++ ds) k
  Follows-append _ ds (Follows.skips m) g = Follows-from ds m g
  Follows-append _ ds (Follows.casts k c cs e m f) g =
      Follows.casts k c (cs ++ ds) e m (Follows-append cs ds f g)
  Follows-append _ ds (Follows.reports c cs e f) g =
      Follows.reports c (cs ++ ds) e (Follows-append cs ds f g)

  -- How many votes of a stage are cast.
  unfoldable pub count_cast : ℕ → List (Told VoterId H S) → ℕ
  unfolding kind
  count_cast k [] = 0
  count_cast k (c ∷ cs) =
      elim (kind c) [ Kind.vote i ↦ if i == k then 1 else 0 | Kind.report ↦ 0 | Kind.other ↦ 0 ]
      + count_cast k cs

  pub count_cast-over :
      {i j : ℕ} (k : ℕ) (cs : List (Told VoterId H S))
      → k < i
      → Follows i cs j
      → count_cast k cs ≡ 0
  unfolding count_cast
  count_cast-over k _ over (Follows.skips m) = refl
  count_cast-over k _ over (Follows.casts i c cs e m f) =
      ground (arith, e, count_cast-over k cs (omega arith) f)
  count_cast-over k _ over (Follows.reports c cs e f) =
      ground (arith, e, count_cast-over k cs over f)

  -- Calls that follow the specification cast at most one vote of each stage.
  pub count_cast-Follows :
      {i j : ℕ} (k : ℕ) (cs : List (Told VoterId H S)) → Follows i cs j → count_cast k cs ≤ 1
  unfolding count_cast
  count_cast-Follows k _ (Follows.skips m) = omega arith
  count_cast-Follows k _ (Follows.casts i c cs e m f) =
      let over : k < i + 1 → count_cast k cs ≡ 0 = λ l. count_cast-over k cs l f in
      ground (arith, e, count_cast-Follows k cs f, over)
  count_cast-Follows k _ (Follows.reports c cs e f) = ground (arith, e, count_cast-Follows k cs f)

module _ {ℓ} {T W : Type ℓ} where
  -- The first stage that is not over for a round. A round that is not voting casts nothing, unless
  -- it waits for the best chain.
  unfoldable pub stage_of : Voting → Option (State T W) → ℕ
  stage_of voting none = 3
  stage_of voting (some State.precommitted) = 3
  stage_of voting (some (State.prevoting _ _)) = 1
  stage_of Voting.primary (some (State.start _ _)) = 0
  stage_of Voting.yes (some (State.start _ _)) = 1
  stage_of Voting.no (some (State.start _ _)) = 3
  stage_of Voting.primary (some (State.proposed _ _)) = 1
  stage_of Voting.yes (some (State.proposed _ _)) = 1
  stage_of Voting.no (some (State.proposed _ _)) = 3
  stage_of Voting.primary (some (State.prevoted _)) = 2
  stage_of Voting.yes (some (State.prevoted _)) = 2
  stage_of Voting.no (some (State.prevoted _)) = 3

module _ {ℓ} {VoterId H S T W O : Type ℓ} where
  -- The calls that a state has beyond `calls` follow the specification from stage `i`.
  abbrev pub IsAfter : ℕ → List (Told VoterId H S) → Running VoterId H S T W O → Type ℓ
  IsAfter i calls s =
      (cs : List (Told VoterId H S)) × (s.shared.calls ≡ calls ++ cs)
      × Follows i cs (stage_of s.round.voting s.round.state)

  pub IsAfter-trans :
      (i : ℕ) (calls : List (Told VoterId H S)) (s t : Running VoterId H S T W O)
      → IsAfter i calls s
      → IsAfter (stage_of s.round.voting s.round.state) s.shared.calls t
      → IsAfter i calls t
  IsAfter-trans i calls s t (cs, e, f) (ds, e', g) =
      (cs ++ ds, e' ∙ ap (λ l. l ++ ds) e ∙ append_assoc calls cs ds, Follows-append cs ds f g)

module _ {ℓ κ} {VoterId H S T W O X : Type ℓ} {A : Type κ} where
  -- However the call ends, short of a panic, what it tells the environment follows the
  -- specification, from the stage of the round before to the stage of the round after.
  abbrev pub FollowsStages : Call X (Running VoterId H S T W O) A → Type ℓ
  FollowsStages m =
      (s : Running VoterId H S T W O)
      → Leaves (IsAfter (stage_of s.round.voting s.round.state) s.shared.calls) (m s)

  -- So do the calls of a program that keeps the stage and what has been told.
  abbrev pub IsSilent : Call X (Running VoterId H S T W O) A → Type ℓ
  IsSilent m =
      (s : Running VoterId H S T W O)
      → Leaves
          (λ t.
            (t.shared.calls ≡ s.shared.calls)
            × (stage_of t.round.voting t.round.state ≡ stage_of s.round.voting s.round.state))
          (m s)

  pub IsSilent-FollowsStages :
      (m : Call X (Running VoterId H S T W O) A) → IsSilent m → FollowsStages m
  IsSilent-FollowsStages m h s = Leaves-imp (m s) (h s) (λ t (e, e').
      ([], e ∙ sym (append-nil s.shared.calls), Follows.skips (le-of-eq _ _ (sym e'))))
    where
      le-of-eq : (a b : ℕ) → a ≡ b → a ≤ b
      le-of-eq a b e = omega arith

module _ {ℓ κ μ} {VoterId H S T W O X : Type ℓ} {A : Type κ} {B : Type μ} where
  pub FollowsStages->>= :
      (m : Call X (Running VoterId H S T W O) A) (f : A → Call X (Running VoterId H S T W O) B)
      → FollowsStages m
      → ((a : A) → FollowsStages (f a))
      → FollowsStages (m >>= f)
  FollowsStages->>= m f h k s =
      Leaves->>= (IsAfter (stage_of s.round.voting s.round.state) s.shared.calls) m f s (h s)
        λ a t after. Leaves-imp (f a t) (k a t) (λ u. IsAfter-trans _ _ t u after)
