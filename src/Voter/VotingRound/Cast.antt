-- ===== src/Voter/VotingRound/Cast.antt =====
-- How a voting round casts its votes: `primary_propose`, `prevote` and `precommit`.
use finality_grandpa.Base.{ℕ, Bool, true, false, Option, none, some, Ord, expect}
use finality_grandpa.Messages.{Prevote, PrimaryPropose, Message}
use finality_grandpa.Round.State as RoundState
use finality_grandpa.Voter.Call.{
  Poll, ready, pending, Answer, fine, fault, Call, pure, gets, raise, lift, ◌>>=◌, ◌>>◌,
}
use finality_grandpa.Voter.Buffered
use finality_grandpa.Voter.Environment.{Environment, Told, Polled}
use finality_grandpa.Voter.VotingRound.{
  State, Voting, VotingRound, Running, is_active, change, set_state, take_state, tell,
}
use finality_grandpa.Voter.VotingRound.Construct.{
  construct_proposal, construct_prevote, construct_precommit, ghost_reached,
}

module _ {ℓ} {VoterId H S T W O X : Type ℓ} where
  -- `self.outgoing.push(message)`
  abbrev pub push_message : Message H → Call X (Running VoterId H S T W O) (Unit {0})
  push_message message = change (λ r. record r { outgoing = Buffered.push r.outgoing message })

  -- Whether a timer is over. While it is not, a completable round does not wait for it.
  unfoldable pub is_over : Poll (Answer X (Unit {0})) → Call X (Running VoterId H S T W O) Bool
  is_over pending = gets (λ s. s.round.votes.completable)
  is_over (ready (fine _)) = pure true
  is_over (ready (fault x)) = raise x

  unfoldable pub elapsed : Polled VoterId H S T W O X → T → Call X (Running VoterId H S T W O) Bool
  unfolding is_over
  elapsed polled timer = is_over (polled.timer timer)

  -- The proposal, if there is one to send, and the state after it.
  unfoldable pub propose :
      Polled VoterId H S T W O X
      → T
      → T
      → Option (PrimaryPropose H)
      → Call X (Running VoterId H S T W O) (Unit {0})
  propose polled prevote_timer precommit_timer none =
      set_state (some (State.start prevote_timer precommit_timer))
  propose polled prevote_timer precommit_timer (some primary) =
      gets (λ s. s.round.votes.round_number) >>= λ number.
      tell polled (Told.proposed number primary)
      >> push_message (Message.primary_propose primary)
      >> set_state (some (State.proposed prevote_timer precommit_timer))

  -- `VotingRound::primary_propose`, with the state that has been taken.
  unfoldable pub propose_from :
      Polled VoterId H S T W O X
      → RoundState.State H
      → Option (State T (H × W))
      → Call X (Running VoterId H S T W O) (Unit {0})
  unfolding propose
  propose_from polled last (some (State.start prevote_timer precommit_timer)) =
      gets (λ s. s.round.voting) >>= λ voting.
      propose polled prevote_timer precommit_timer (construct_proposal voting last)
  propose_from polled last taken = set_state taken

  unfoldable pub primary_propose :
      Polled VoterId H S T W O X
      → RoundState.State H
      → Call X (Running VoterId H S T W O) (Unit {0})
  unfolding propose_from
  primary_propose polled last = take_state >>= propose_from polled last

  -- The cast of a prevote for the block found, and the end of voting when there is none.
  unfoldable pub cast_prevote :
      Polled VoterId H S T W O X
      → T
      → Option (H × ℕ)
      → Call X (Running VoterId H S T W O) (Unit {0})
  cast_prevote polled precommit_timer none =
      change (λ r. record r { state = none; voting = Voting.no })
  cast_prevote polled precommit_timer (some target) =
      let prevote : Prevote H = record { target_hash = target.0; target_number = target.1 } in
      gets (λ s. s.round.votes.round_number) >>= λ number.
      tell polled (Told.prevoted number prevote)
      >> change (λ r. record r { votes = RoundState.set_prevoted_index r.votes })
      >> push_message (Message.prevote prevote)
      >> set_state (some (State.prevoted precommit_timer))

  -- The closure `finish_prevoting` of `prevote`, on what the best-chain future answers.
  unfoldable pub finish_prevoting :
      Polled VoterId H S T W O X
      → T
      → H
      → W
      → Poll (Answer X (Option (H × ℕ)))
      → Call X (Running VoterId H S T W O) (Unit {0})
  unfolding cast_prevote
  finish_prevoting polled precommit_timer base best_chain pending =
      set_state (some (State.prevoting precommit_timer (base, best_chain)))
  finish_prevoting polled precommit_timer base best_chain (ready (fault x)) = raise x
  finish_prevoting polled precommit_timer base best_chain (ready (fine found)) =
      cast_prevote polled precommit_timer found

  -- The cast of a precommit, when the voter takes part in the round.
  unfoldable pub cast_precommit :
      Polled VoterId H S T W O X → Voting → Call X (Running VoterId H S T W O) (Unit {0})
  unfolding is_active
  cast_precommit polled voting = elim (is_active voting) [
    | false ↦ pure tt
    | true ↦ gets (λ s. s.round) >>= λ (r : VotingRound VoterId H S T W O).
        let precommit = construct_precommit r in
        tell polled (Told.precommitted r.votes.round_number precommit)
        >> change (λ r. record r { votes = RoundState.set_precommitted_index r.votes })
        >> push_message (Message.precommit precommit)
  ]

  -- The precommit, if it is due, and the state after it.
  unfoldable pub precommit_when :
      Polled VoterId H S T W O X → T → Bool → Call X (Running VoterId H S T W O) (Unit {0})
  unfolding cast_precommit
  precommit_when polled precommit_timer false = set_state (some (State.prevoted precommit_timer))
  precommit_when polled precommit_timer true = gets (λ s. s.round.voting) >>= λ voting.
      cast_precommit polled voting >> set_state (some State.precommitted)

module _ {ℓ} {VoterId H S T W O X : Type ℓ} ⦃oh : Ord H⦄ where
  -- What is due when the voter takes part in the round, and when not.
  unfoldable pub prevote_as :
      Environment VoterId H T W O X
      → RoundState.State H
      → T
      → VotingRound VoterId H S T W O
      → Bool
      → Call X (Running VoterId H S T W O) (Unit {0})
  prevote_as env last precommit_timer r false = set_state (some (State.prevoted precommit_timer))
  prevote_as env last precommit_timer r true =
      lift env.from (construct_prevote env r last) >>= λ constructed.
      set_state (some (State.prevoting precommit_timer constructed))

  -- The start of prevoting, if it is due, and the state after it.
  unfoldable pub prevote_when :
      Environment VoterId H T W O X
      → RoundState.State H
      → T
      → T
      → Bool
      → Bool
      → Call X (Running VoterId H S T W O) (Unit {0})
  unfolding prevote_as
  prevote_when env last prevote_timer precommit_timer true false =
      set_state (some (State.proposed prevote_timer precommit_timer))
  prevote_when env last prevote_timer precommit_timer false false =
      set_state (some (State.start prevote_timer precommit_timer))
  prevote_when env last prevote_timer precommit_timer proposed true =
      gets (λ s. s.round) >>= λ (r : VotingRound VoterId H S T W O).
      prevote_as env last precommit_timer r (is_active r.voting)

  -- The closure `start_prevoting` of `prevote`.
  unfoldable pub start_prevoting :
      Environment VoterId H T W O X
      → Polled VoterId H S T W O X
      → RoundState.State H
      → T
      → T
      → Bool
      → Call X (Running VoterId H S T W O) (Unit {0})
  unfolding elapsed prevote_when
  start_prevoting env polled last prevote_timer precommit_timer proposed =
      elapsed polled prevote_timer >>= prevote_when env last prevote_timer precommit_timer proposed

  -- `VotingRound::prevote`, with the state that has been taken.
  unfoldable pub prevote_from :
      Environment VoterId H T W O X
      → Polled VoterId H S T W O X
      → RoundState.State H
      → Option (State T (H × W))
      → Call X (Running VoterId H S T W O) (Unit {0})
  unfolding start_prevoting finish_prevoting
  prevote_from env polled last (some (State.start prevote_timer precommit_timer)) =
      start_prevoting env polled last prevote_timer precommit_timer false
  prevote_from env polled last (some (State.proposed prevote_timer precommit_timer)) =
      start_prevoting env polled last prevote_timer precommit_timer true
  prevote_from env polled last (some (State.prevoting precommit_timer (base, best_chain))) =
      finish_prevoting polled precommit_timer base best_chain (polled.best_chain best_chain)
  prevote_from env polled last taken = set_state taken

  unfoldable pub prevote :
      Environment VoterId H T W O X
      → Polled VoterId H S T W O X
      → RoundState.State H
      → Call X (Running VoterId H S T W O) (Unit {0})
  unfolding prevote_from
  prevote env polled last = take_state >>= prevote_from env polled last

  -- `should_precommit`
  unfoldable pub should_precommit :
      Environment VoterId H T W O X
      → Polled VoterId H S T W O X
      → H × ℕ
      → T
      → Call X (Running VoterId H S T W O) Bool
  unfolding elapsed ghost_reached
  should_precommit env polled estimate precommit_timer =
      gets (λ s. s.round.votes.prevote_ghost) >>= λ ghost.
      lift env.from (ghost_reached env.chain estimate ghost) >>= λ reached. elim reached [
        | true ↦ elapsed polled precommit_timer
        | false ↦ pure false
      ]

  -- `VotingRound::precommit`, with the state that has been taken.
  unfoldable pub precommit_from :
      Environment VoterId H T W O X
      → Polled VoterId H S T W O X
      → RoundState.State H
      → Option (State T (H × W))
      → Call X (Running VoterId H S T W O) (Unit {0})
  unfolding should_precommit precommit_when
  precommit_from env polled last (some (State.prevoted precommit_timer)) =
      lift env.from (expect last.estimate) >>= λ estimate.
      should_precommit env polled estimate precommit_timer >>= precommit_when polled precommit_timer
  precommit_from env polled last taken = set_state taken

  unfoldable pub precommit :
      Environment VoterId H T W O X
      → Polled VoterId H S T W O X
      → RoundState.State H
      → Call X (Running VoterId H S T W O) (Unit {0})
  unfolding precommit_from
  precommit env polled last = take_state >>= precommit_from env polled last
