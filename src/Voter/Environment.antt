-- ===== src/Voter/Environment.antt =====
-- The trait `Environment` of src/voter/mod.rs. The client of the crate implements it, so it is a
-- parameter: a record of what does not change, and what the client answers during one poll.
use finality_grandpa.Base.{ℕ, List, Option, Error}
use finality_grandpa.Chain.{Chain}
use finality_grandpa.Messages.{
  Prevote, Precommit, PrimaryPropose, Equivocation, Message, SignedMessage, Commit, HistoricalVotes,
}
use finality_grandpa.Round.State.{State}
use finality_grandpa.Voter.Call.{Poll, Answer}
use finality_grandpa.Voter.Bridge.{Cells}
use finality_grandpa.Voter.Buffered.{Sink}

-- `RoundData`. The incoming messages are among the answers of a poll.
pub record RoundData {ℓ} (VoterId T O : Type ℓ) : Type ℓ where
  pub voter_id : Option VoterId
  pub prevote_timer : T
  pub precommit_timer : T
  pub outgoing : O

-- `Environment`: timers are of type `T`, best-chain futures of type `W`, outgoing sinks of type `O`,
-- errors of type `X`.
pub record Environment {ℓ} (VoterId H T W O X : Type ℓ) : Type ℓ where
  pub chain : Chain H
  pub best_chain_containing : H → W
  pub round_data : ℕ → RoundData VoterId T O
  pub round_commit_timer : T
  pub from : Error → X

-- The calls of the environment that tell it something, with the round.
pub data Told {ℓ} (VoterId H S : Type ℓ) : Type ℓ where
  proposed : ℕ → PrimaryPropose H → Told VoterId H S
  prevoted : ℕ → Prevote H → Told VoterId H S
  precommitted : ℕ → Precommit H → Told VoterId H S
  completed : ℕ → State H → H × ℕ → HistoricalVotes H S VoterId → Told VoterId H S
  concluded : ℕ → State H → H × ℕ → HistoricalVotes H S VoterId → Told VoterId H S
  finalize_block : H → ℕ → ℕ → Commit H S VoterId → Told VoterId H S
  prevote_equivocation : ℕ → Equivocation VoterId (Prevote H) S → Told VoterId H S
  precommit_equivocation : ℕ → Equivocation VoterId (Precommit H) S → Told VoterId H S

-- What the environment of a round answers during one poll of the round. `process_incoming` runs
-- twice in a poll, each time up to the first `Pending` or the end of the stream.
pub record Polled {ℓ} (VoterId H S T W O X : Type ℓ) : Type ℓ where
  pub incoming : List (Answer X (SignedMessage H S VoterId))
  pub incoming_again : List (Answer X (SignedMessage H S VoterId))
  pub timer : T → Poll (Answer X (Unit {0}))
  pub best_chain : W → Poll (Answer X (Option (H × ℕ)))
  pub sink : Sink O (Message H) X
  pub told : Told VoterId H S → Answer X (Unit {0})

-- `FinalizedNotification`
pub record FinalizedNotification {ℓ} (VoterId H S : Type ℓ) : Type ℓ where
  pub f_hash : H
  pub f_num : ℕ
  pub round : ℕ
  pub commit : Commit H S VoterId

-- What the rounds of a voter share: the round-states between them, the calls of the environment so
-- far, and the notifications in the channel, both from the first to the last.
pub record Shared {ℓ} (VoterId H S : Type ℓ) : Type ℓ where
  pub cells : Cells (State H)
  pub calls : List (Told VoterId H S)
  pub notifications : List (FinalizedNotification VoterId H S)
