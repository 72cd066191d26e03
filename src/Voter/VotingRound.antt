-- ===== src/Voter/VotingRound.antt =====
-- src/voter/voting_round.rs: voting in a single round.
pub mod Construct
pub mod Incoming
pub mod Cast
pub mod Notify
pub mod Ballots
pub mod Grounds
pub mod Hints
use finality_grandpa.Base.{ℕ, Bool, true, false, Option, none, some, [], ◌∷◌, ◌++◌}
use finality_grandpa.VoterSet
use finality_grandpa.VoterSet.{VoterSet}
use finality_grandpa.Messages.{Message, Commit}
use finality_grandpa.Round.State as RoundState
use finality_grandpa.Round.State.{Round}
use finality_grandpa.Voter.Call.{
  Poll, Reply, returned, raised, panicked, Call, pure, gets, modify, answer, ◌>>=◌, ◌>>◌,
}
use finality_grandpa.Voter.Bridge
use finality_grandpa.Voter.Bridge.{PriorView, LatterView}
use finality_grandpa.Voter.Buffered
use finality_grandpa.Voter.Buffered.{Buffered, Sink}
use finality_grandpa.Voter.Environment.{Told, Polled, Shared}

-- `State`
pub data State {ℓ} (T W : Type ℓ) : Type ℓ where
  start : T → T → State T W
  proposed : T → T → State T W
  prevoting : T → W → State T W
  prevoted : T → State T W
  precommitted : State T W

-- `Voting`
pub data Voting : Type 0 where
  no : Voting
  yes : Voting
  primary : Voting

-- `Voting::is_active` and `Voting::is_primary`
unfoldable pub is_active : Voting → Bool
is_active Voting.no = false
is_active Voting.yes = true
is_active Voting.primary = true

unfoldable pub is_primary : Voting → Bool
is_primary Voting.no = false
is_primary Voting.yes = false
is_primary Voting.primary = true

-- `VotingRound`. The incoming stream is among the answers of a poll, the sender of notifications is
-- the channel in `Shared`.
pub record VotingRound {ℓ} (VoterId H S T W O : Type ℓ) : Type ℓ where
  pub voting : Voting
  pub votes : Round VoterId H S
  pub outgoing : Buffered O (Message H)
  pub state : Option (State T (H × W))
  pub bridged_round_state : Option PriorView
  pub last_round_state : Option LatterView
  pub primary_block : Option (H × ℕ)
  pub best_finalized : Option (Commit H S VoterId)

-- A round and what it shares with the others: the state of the calls below.
pub record Running {ℓ} (VoterId H S T W O : Type ℓ) : Type ℓ where
  pub round : VotingRound VoterId H S T W O
  pub shared : Shared VoterId H S

module _ {ℓ} {VoterId H S T W O X : Type ℓ} where
  abbrev pub change :
      (VotingRound VoterId H S T W O → VotingRound VoterId H S T W O)
      → Call X (Running VoterId H S T W O) (Unit {0})
  change f = modify (λ s. record s { round = f s.round })

  abbrev pub set_state : Option (State T (H × W)) → Call X (Running VoterId H S T W O) (Unit {0})
  set_state state = change (λ r. record r { state = state })

  -- `self.state.take()`
  abbrev pub take_state : Call X (Running VoterId H S T W O) (Option (State T (H × W)))
  take_state = gets (λ s. s.round.state) >>= λ state. set_state none >> pure state

  -- A call of the environment, and one that can fail.
  abbrev pub report : Told VoterId H S → Call X (Running VoterId H S T W O) (Unit {0})
  report told =
      modify (λ s. record s { shared = record s.shared { calls = s.shared.calls ++ told ∷ [] } })

  abbrev pub tell :
      Polled VoterId H S T W O X → Told VoterId H S → Call X (Running VoterId H S T W O) (Unit {0})
  tell polled told = report told >> answer (polled.told told)

  -- `VotingRound::bridge_state`
  unfoldable pub bridge_state : Call X (Running VoterId H S T W O) LatterView
  unfolding Bridge.bridge_state RoundState.state
  bridge_state s =
      let (prior, latter, cells) =
        Bridge.bridge_state (RoundState.state s.round.votes) s.shared.cells in
      returned latter (record {
        round = record s.round { bridged_round_state = some prior };
        shared = record s.shared { cells = cells };
      })

  -- `self.outgoing.poll(cx)`
  unfoldable pub store_outgoing :
      Running VoterId H S T W O
      → Reply X (Buffered O (Message H)) (Poll (Unit {0}))
      → Reply X (Running VoterId H S T W O) (Poll (Unit {0}))
  store_outgoing s (returned flushed outgoing) =
      returned flushed (record s { round = record s.round { outgoing = outgoing } })
  store_outgoing s (raised x outgoing) =
      raised x (record s { round = record s.round { outgoing = outgoing } })
  store_outgoing s panicked = panicked

  unfoldable pub poll_outgoing :
      Sink O (Message H) X → Call X (Running VoterId H S T W O) (Poll (Unit {0}))
  unfolding store_outgoing
  poll_outgoing sink s = store_outgoing s (Buffered.poll sink s.round.outgoing)
