-- ===== src/Voter/Main/Start.antt =====
-- How a voter starts: `instantiate_last_round` and `Voter::new` of src/voter/mod.rs.
use finality_grandpa.Base.{
  ℕ, ◌+◌, ltb, Bool, true, false, Option, none, some, List, [], ◌∷◌, Ord, Eq, Outcome, ok, panic,
  ◌>>=◌,
}
use finality_grandpa.Messages.{SignedMessage}
use finality_grandpa.VoterSet.{VoterSet}
use finality_grandpa.Round.State as RoundState
use finality_grandpa.Voter.Call.{returned, raised, panicked}
use finality_grandpa.Voter.Buffered
use finality_grandpa.Voter.Bridge
use finality_grandpa.Voter.Bridge.{LatterView}
use finality_grandpa.Voter.Environment.{Environment, Shared}
use finality_grandpa.Voter.VotingRound.{VotingRound, Running}
use finality_grandpa.Voter.VotingRound as Rounds
use finality_grandpa.Voter.VotingRound.Construct as Construct
use finality_grandpa.Voter.VotingRound.Incoming.{handle_vote}
use finality_grandpa.Voter.PastRounds as PastRounds
use finality_grandpa.Voter.PastRounds.{PastRounds}
use finality_grandpa.Voter.Main.{Voter}

module _ {ℓ} {VoterId H S T W O : Type ℓ} where
  -- The last round with the votes imported, if it is completable.
  unfoldable pub if_completable : Running VoterId H S T W O → Option (VotingRound VoterId H S T W O)
  if_completable s = elim s.round.votes.completable [ true ↦ some s.round | false ↦ none ]

module _ {ℓ} {VoterId H S T W O X : Type ℓ} ⦃oi : Ord VoterId⦄ ⦃oh : Ord H⦄ ⦃es : Eq S⦄ where
  -- The loop over the votes of the last round, which ends at the first that is bad.
  unfoldable pub handle_votes :
      Environment VoterId H T W O X
      → List (SignedMessage H S VoterId)
      → Running VoterId H S T W O
      → Outcome (Option (VotingRound VoterId H S T W O) × Shared VoterId H S)
  unfolding handle_vote if_completable
  handle_votes env [] s = ok (if_completable s, s.shared)
  handle_votes env (vote ∷ more) s = elim (handle_vote env vote s) [
    | returned _ t ↦ handle_votes env more t
    | raised x t ↦ ok (none, t.shared)
    | panicked ↦ panic
  ]

  unfoldable pub instantiate_last_round :
      VoterSet VoterId
      → List (SignedMessage H S VoterId)
      → ℕ
      → H × ℕ
      → Environment VoterId H T W O X
      → Shared VoterId H S
      → Outcome (Option (VotingRound VoterId H S T W O) × Shared VoterId H S)
  unfolding handle_votes Construct.completed RoundState.new
  instantiate_last_round voters votes number base env shared = handle_votes env votes (record {
    round =
        Construct.completed
          (RoundState.new (record { round_number = number; voters = voters; base = base })) none
          env;
    shared = shared;
  })

module _ {ℓ} {VoterId H S T W O X : Type ℓ} where
  -- The last round, bridged and in the background, with the view of its round-state.
  unfoldable pub background_last :
      Environment VoterId H T W O X
      → Running VoterId H S T W O
      → Outcome (LatterView × PastRounds VoterId H S T W O × Shared VoterId H S)
  unfolding Rounds.bridge_state PastRounds.push
  background_last env last_round = elim (Rounds.bridge_state {X = X} last_round) [
    | returned view s ↦ ok (view, PastRounds.push env s.round PastRounds.new, s.shared)
    | raised x s ↦ panic
    | panicked ↦ panic
  ]

  -- The view, the past rounds and what is shared, with a completed last round or without one.
  unfoldable pub after_last :
      Environment VoterId H T W O X
      → LatterView
      → Option (VotingRound VoterId H S T W O) × Shared VoterId H S
      → Outcome (LatterView × PastRounds VoterId H S T W O × Shared VoterId H S)
  unfolding background_last
  after_last env view (none, shared) = ok (view, PastRounds.new, shared)
  after_last env view (some last_round, shared) =
      background_last env (record { round = last_round; shared = shared })

module _ {ℓ} {VoterId H S T W O X : Type ℓ} ⦃oi : Ord VoterId⦄ ⦃oh : Ord H⦄ ⦃es : Eq S⦄ where
  -- The last round of a voter, unless it is round 0.
  unfoldable pub start_last :
      VoterSet VoterId
      → List (SignedMessage H S VoterId)
      → ℕ
      → H × ℕ
      → Environment VoterId H T W O X
      → Shared VoterId H S
      → Bool
      → Outcome (Option (VotingRound VoterId H S T W O) × Shared VoterId H S)
  unfolding instantiate_last_round
  start_last voters votes number base env shared false = ok (none, shared)
  start_last voters votes number base env shared true =
      instantiate_last_round voters votes number base env shared

module _ {ℓ} {VoterId H S T W O G X : Type ℓ} ⦃oi : Ord VoterId⦄ ⦃oh : Ord H⦄ ⦃es : Eq S⦄ where
  -- `Voter::new`, with the sink of the global communication.
  unfoldable pub new :
      Environment VoterId H T W O X
      → VoterSet VoterId
      → G
      → ℕ
      → List (SignedMessage H S VoterId)
      → H × ℕ
      → H × ℕ
      → Outcome (Voter VoterId H S T W O G)
  unfolding start_last after_last Construct.new Bridge.bridge_state
  new env voters global_out last_round_number last_round_votes last_round_base last_finalized =
      let (prior, latter, cells) = Bridge.bridge_state (RoundState.genesis last_round_base) [] in
      start_last voters last_round_votes last_round_number last_round_base env
        (record { cells = cells; calls = []; notifications = [] }) (ltb 0 last_round_number)
      >>= after_last env latter
      >>= λ (view, past_rounds, shared).
          Construct.new (last_round_number + 1) voters last_finalized (some view) env
          >>= λ best_round. ok (record {
            voters = voters;
            best_round = best_round;
            past_rounds = past_rounds;
            last_finalized_number = last_finalized.1;
            global_out = Buffered.new global_out;
            last_finalized_in_rounds = last_finalized;
            shared = shared;
          })
