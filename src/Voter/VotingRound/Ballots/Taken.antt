-- ===== src/Voter/VotingRound/Ballots/Taken.antt =====
-- Steps of a round in which its state has been taken.
use mathlib.Core.List.{append-nil}
use finality_grandpa.Base.{
  ℕ, ◌+◌, ◌≤◌, Option, none, List, [], ◌∷◌, ◌++◌, ◌≡◌, refl, sym, subst, arith, ok, err, panic,
  Outcome, Error,
}
use finality_grandpa.Voter.Call.{
  Answer, fine, fault, Reply, returned, raised, panicked, Call, Leaves, Leaves-imp, ◌>>=◌, ◌>>◌,
  >>=_assoc, lift, answer,
}
use finality_grandpa.Voter.Environment.{Told, Polled}
use finality_grandpa.Voter.VotingRound.{State, Voting, Running, set_state, take_state, tell}
use finality_grandpa.Voter.VotingRound.Cast.{is_over, elapsed}
use finality_grandpa.Voter.VotingRound.Ballots.{
  Follows, Kind, kind, stage_of, IsAfter, FollowsStages,
}

module _ {ℓ} {T W : Type ℓ} where
  pub stage_of-bound : (voting : Voting) (state : Option (State T W)) → stage_of voting state ≤ 3
  unfolding stage_of
  stage_of-bound voting state = ground arith

module _ {ℓ} {VoterId H S T W O : Type ℓ} where
  -- The call has told the environment nothing.
  pub told_nothing :
      (i : ℕ) (s : Running VoterId H S T W O)
      → i ≤ stage_of s.round.voting s.round.state
      → IsAfter i s.shared.calls s
  told_nothing i s le = ([], sym (append-nil s.shared.calls), Follows.skips le)

  -- The call has told the environment one vote.
  pub told_vote :
      (i k : ℕ) (c : Told VoterId H S) (calls : List (Told VoterId H S))
      (s : Running VoterId H S T W O)
      → s.shared.calls ≡ calls ++ c ∷ []
      → kind c ≡ Kind.vote k
      → i ≤ k
      → k + 1 ≤ stage_of s.round.voting s.round.state
      → IsAfter i calls s
  told_vote i k c calls s e cast le le' =
      (c ∷ [], e, Follows.casts k c [] cast le (Follows.skips le'))

  pub stopped :
      (i : ℕ) (s : Running VoterId H S T W O)
      → s.round.state ≡ none
      → i ≤ 3
      → IsAfter i s.shared.calls s
  unfolding stage_of
  stopped i s e le = told_nothing i s (ground (arith, e))

module _ {ℓ} {VoterId H S T W O X : Type ℓ} where
  -- What the call does after the state has been taken, as if it still were the state.
  abbrev pub FollowsFrom :
      Option (State T (H × W)) → Call X (Running VoterId H S T W O) (Unit {0}) → Type ℓ
  FollowsFrom taken m =
      (s : Running VoterId H S T W O)
      → s.round.state ≡ none
      → Leaves (IsAfter (stage_of s.round.voting taken) s.shared.calls) (m s)

  pub take_state-FollowsStages :
      (f : Option (State T (H × W)) → Call X (Running VoterId H S T W O) (Unit {0}))
      → ((taken : Option (State T (H × W))) → FollowsFrom taken (f taken))
      → FollowsStages (take_state >>= f)
  take_state-FollowsStages f h s =
      h s.round.state (record s { round = record s.round { state = none } }) refl

module _ {ℓ} {VoterId H S T W O : Type ℓ} where
  pub set_state-FollowsFrom :
      (X : Type ℓ) (taken : Option (State T (H × W)))
      → FollowsFrom taken (set_state {VoterId = VoterId} {S = S} {O = O} {X = X} taken)
  set_state-FollowsFrom X taken s e =
      told_nothing (stage_of s.round.voting taken)
        (record s { round = record s.round { state = taken } }) (omega arith)

module _ {ℓ κ} {VoterId H S T W O X : Type ℓ} {A : Type κ} where
  -- The call leaves the state as it is.
  abbrev pub IsReading : Call X (Running VoterId H S T W O) A → Type ℓ
  IsReading m = (s : Running VoterId H S T W O) → Leaves (λ t. t ≡ s) (m s)

  pub lift-IsReading :
      (from : Error → X) (m : Outcome A) (s : Running VoterId H S T W O)
      → Leaves (λ t. t ≡ s) (lift from m s)
  lift-IsReading from (ok a) s = refl
  lift-IsReading from (err e) s = refl
  lift-IsReading from panic s = tt

  pub IsReading->>= :
      (taken : Option (State T (H × W))) (m : Call X (Running VoterId H S T W O) A)
      (f : A → Call X (Running VoterId H S T W O) (Unit {0}))
      → IsReading m
      → ((a : A) → FollowsFrom taken (f a))
      → FollowsFrom taken (m >>= f)
  IsReading->>= taken m f reads h s e = go (m s) (reads s)
    where
      go :
          (r : Reply X (Running VoterId H S T W O) A)
          → Leaves (λ t. t ≡ s) r
          → Leaves
              (IsAfter (stage_of s.round.voting taken) s.shared.calls)
              (elim r [ returned a t ↦ f a t | raised x t ↦ raised x t | panicked ↦ panicked ])
      go (returned a t) same = rw same (h a s e)
      go (raised x t) same =
          rw same
            (stopped (stage_of s.round.voting taken) s e (stage_of-bound s.round.voting taken))
      go panicked same = tt

module _ {ℓ} {VoterId H S T W O X : Type ℓ} where
  pub elapsed-IsReading :
      (polled : Polled VoterId H S T W O X) (timer : T) → IsReading (elapsed polled timer)
  unfolding elapsed is_over
  elapsed-IsReading polled timer s = ground arith

  pub tell-IsAfter :
      (polled : Polled VoterId H S T W O X) (i k : ℕ) (c : Told VoterId H S)
      (rest : Call X (Running VoterId H S T W O) (Unit {0})) (s : Running VoterId H S T W O)
      → s.round.state ≡ none
      → kind c ≡ Kind.vote k
      → i ≤ k
      → k + 1 ≤ 3
      → Leaves
          (λ t.
            (t.shared.calls ≡ s.shared.calls ++ c ∷ [])
            × (k + 1 ≤ stage_of t.round.voting t.round.state))
          (rest (record s { shared = record s.shared { calls = s.shared.calls ++ c ∷ [] } }))
      → Leaves (IsAfter i s.shared.calls) ((tell polled c >> rest) s)
  unfolding stage_of
  tell-IsAfter polled i k c rest s none_left cast le le' after = go (polled.told c)
    where
      told : Running VoterId H S T W O
      told = record s { shared = record s.shared { calls = s.shared.calls ++ c ∷ [] } }

      go : (a : Answer X (Unit {0})) → Leaves (IsAfter i s.shared.calls) ((answer a >> rest) told)
      go (fine _) =
          Leaves-imp (rest told) after
            λ t (e, le''). told_vote i k c s.shared.calls t e cast le le''
      go (fault x) = told_vote i k c s.shared.calls told refl cast le (ground (arith, none_left))

  pub tell-IsAfter_then :
      (polled : Polled VoterId H S T W O X) (i k : ℕ) (c : Told VoterId H S)
      (m rest : Call X (Running VoterId H S T W O) (Unit {0})) (s : Running VoterId H S T W O)
      → s.round.state ≡ none
      → kind c ≡ Kind.vote k
      → i ≤ k
      → k + 1 ≤ 3
      → Leaves
          (λ t.
            (t.shared.calls ≡ s.shared.calls ++ c ∷ [])
            × (k + 1 ≤ stage_of t.round.voting t.round.state))
          ((m >> rest) (record s { shared = record s.shared { calls = s.shared.calls ++ c ∷ [] } }))
      → Leaves (IsAfter i s.shared.calls) (((tell polled c >> m) >> rest) s)
  tell-IsAfter_then polled i k c m rest s none_left cast le le' after =
      subst (Leaves (IsAfter i s.shared.calls))
        (sym (>>=_assoc (tell polled c) (λ _. m) (λ _. rest) s))
        (tell-IsAfter polled i k c (m >> rest) s none_left cast le le' after)
