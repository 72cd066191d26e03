-- ===== src/Voter/VotingRound/Ballots/Runs.antt =====
-- A voting round over many polls, votes and commits.
use finality_grandpa.Base.{
  ℕ, ◌≤◌, ◌<◌, List, [], ◌∷◌, ◌++◌, ◌≡◌, arith, ltb, if◌then◌else◌, Ord, Eq,
}
use finality_grandpa.Messages.{SignedMessage, Commit}
use finality_grandpa.Voter.Call.{Call, Leaves, Leaves-imp, ◌>>◌, pure}
use finality_grandpa.Voter.Environment.{Environment, Told, Polled}
use finality_grandpa.Voter.VotingRound.{Running}
use finality_grandpa.Voter.VotingRound.Incoming.{handle_vote, check_and_import_from_commit}
use finality_grandpa.Voter.VotingRound.Notify.{poll}
use finality_grandpa.Voter.VotingRound.Ballots.{
  Follows, count_cast, count_cast-over, count_cast-Follows, stage_of, FollowsStages,
  FollowsStages->>=,
}
use finality_grandpa.Voter.VotingRound.Ballots.Taken.{told_nothing}
use finality_grandpa.Voter.VotingRound.Ballots.Incoming.{
  handle_vote-FollowsStages, check_and_import_from_commit-FollowsStages,
}
use finality_grandpa.Voter.VotingRound.Ballots.Polls.{poll-FollowsStages}

-- What the voter does with a round: it polls the round, or hands it a vote or a commit.
pub data Event {ℓ} (VoterId H S T W O X : Type ℓ) : Type ℓ where
  polls : Polled VoterId H S T W O X → Event VoterId H S T W O X
  handles : SignedMessage H S VoterId → Event VoterId H S T W O X
  imports : Commit H S VoterId → Event VoterId H S T W O X

module _ {ℓ} {VoterId H S : Type ℓ} where
  casts_within :
      {j : ℕ} (i k : ℕ) (cs : List (Told VoterId H S))
      → Follows i cs j
      → count_cast k cs ≤ (if ltb k i then 0 else 1)
  casts_within i k cs f =
      let over : k < i → count_cast k cs ≡ 0 = λ l. count_cast-over k cs l f in
      ground (arith, count_cast-Follows k cs f, over)

module _ {ℓ} {VoterId H S T W O X : Type ℓ} ⦃oi : Ord VoterId⦄ ⦃oh : Ord H⦄ ⦃es : Eq S⦄ where
  unfoldable pub happen :
      Environment VoterId H T W O X
      → Event VoterId H S T W O X
      → Call X (Running VoterId H S T W O) (Unit {0})
  happen env (Event.polls polled) = poll env polled >> pure tt
  happen env (Event.handles vote) = handle_vote env vote
  happen env (Event.imports commit) = check_and_import_from_commit env commit >> pure tt

  -- One event after the other, until one fails.
  unfoldable pub run :
      Environment VoterId H T W O X
      → List (Event VoterId H S T W O X)
      → Call X (Running VoterId H S T W O) (Unit {0})
  unfolding happen
  run env [] = pure tt
  run env (event ∷ events) = happen env event >> run env events

  happen-FollowsStages :
      (env : Environment VoterId H T W O X) (event : Event VoterId H S T W O X)
      → FollowsStages (happen env event)
  unfolding happen
  happen-FollowsStages env (Event.polls polled) =
      FollowsStages->>= (poll env polled) (λ _. pure tt) (poll-FollowsStages env polled)
        (λ _ t. told_nothing _ t (omega arith))
  happen-FollowsStages env (Event.handles vote) = handle_vote-FollowsStages env vote
  happen-FollowsStages env (Event.imports commit) =
      FollowsStages->>= (check_and_import_from_commit env commit) (λ _. pure tt)
        (check_and_import_from_commit-FollowsStages env commit)
        (λ _ t. told_nothing _ t (omega arith))

  pub run-FollowsStages :
      (env : Environment VoterId H T W O X) (events : List (Event VoterId H S T W O X))
      → FollowsStages (run env events)
  unfolding run
  run-FollowsStages env [] s = told_nothing _ s (omega arith)
  run-FollowsStages env (event ∷ events) s =
      FollowsStages->>= (happen env event) (λ _. run env events) (happen-FollowsStages env event)
        (λ _. run-FollowsStages env events) s

  -- Over any sequence of polls, votes and commits, and whatever the environment answers, a round
  -- tells the environment of at most one vote of each kind (stage 0 is proposing, 1 prevoting and 2
  -- precommitting), and of none of a kind whose stage is over at the start.
  pub run_once :
      (env : Environment VoterId H T W O X) (events : List (Event VoterId H S T W O X))
      (s : Running VoterId H S T W O) (k : ℕ)
      → Leaves
          (λ t.
            (cs : List (Told VoterId H S)) × (t.shared.calls ≡ s.shared.calls ++ cs)
            × (count_cast k cs ≤ (if ltb k (stage_of s.round.voting s.round.state) then 0 else 1)))
          (run env events s)
  run_once env events s k =
      Leaves-imp (run env events s) (run-FollowsStages env events s)
        λ t (cs, e, f). (cs, e, casts_within (stage_of s.round.voting s.round.state) k cs f)
