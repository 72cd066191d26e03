-- ===== src/Voter/VotingRound/Construct.antt =====
-- How a voting round starts, and the votes that it constructs from what it knows.
use finality_grandpa.Base.{
  ℕ, ◌+◌, ◌-◌, Bool, true, false, Option, none, some, List, Ord, eqb, ltb, leb, get_elem?, Outcome,
  ok, err, panic, expect, ◌>>=◌, if◌then◌else◌,
}
use finality_grandpa.VoterSet
use finality_grandpa.VoterSet.{VoterSet}
use finality_grandpa.Chain.{Chain, is_equal_or_descendent_of}
use finality_grandpa.Messages.{PrimaryPropose, Precommit}
use finality_grandpa.Round.State as RoundState
use finality_grandpa.Round.State.{Round, same_block}
use finality_grandpa.Voter.Bridge.{LatterView}
use finality_grandpa.Voter.Buffered
use finality_grandpa.Voter.Environment.{Environment}
use finality_grandpa.Voter.VotingRound.{State, Voting, is_primary, VotingRound}

module _ {ℓ} {VoterId : Type ℓ} ⦃oi : Ord VoterId⦄ where
  -- Which part a voter takes in a round: the match of `VotingRound::new`.
  unfoldable pub voting_of : VoterSet VoterId → VoterId → Option VoterId → Voting
  voting_of voters primary_voter none = Voting.no
  voting_of voters primary_voter (some id) = elim (eqb id primary_voter) [
    | true ↦ Voting.primary
    | false ↦ elim (VoterSet.contains voters id) [ true ↦ Voting.yes | false ↦ Voting.no ]
  ]

module _ {ℓ} {VoterId H S T W O X : Type ℓ} ⦃oi : Ord VoterId⦄ where
  -- `VotingRound::new`
  unfoldable pub new :
      ℕ
      → VoterSet VoterId
      → H × ℕ
      → Option LatterView
      → Environment VoterId H T W O X
      → Outcome (VotingRound VoterId H S T W O)
  unfolding voting_of RoundState.new
  new round_number voters base last_round_state env =
      let given = env.round_data round_number in
      let votes : Round VoterId H S =
        RoundState.new (record { round_number = round_number; voters = voters; base = base }) in
      RoundState.primary_voter votes >>= λ primary_voter. ok (record {
        voting = voting_of voters (primary_voter.0) given.voter_id;
        votes = votes;
        outgoing = Buffered.new given.outgoing;
        state = some (State.start given.prevote_timer given.precommit_timer);
        bridged_round_state = none;
        last_round_state = last_round_state;
        primary_block = none;
        best_finalized = none;
      })

module _ {ℓ} {VoterId H S T W O X : Type ℓ} where
  -- `VotingRound::completed`
  unfoldable pub completed :
      Round VoterId H S
      → Option LatterView
      → Environment VoterId H T W O X
      → VotingRound VoterId H S T W O
  completed votes last_round_state env = record {
    voting = Voting.no;
    votes = votes;
    outgoing = Buffered.new (env.round_data votes.round_number).outgoing;
    state = none;
    bridged_round_state = none;
    last_round_state = last_round_state;
    primary_block = none;
    best_finalized = none;
  }

module _ {ℓ} {H : Type ℓ} where
  -- The proposal of `primary_propose`: the last round's estimate, unless it has been finalized.
  unfoldable pub construct_proposal : Voting → RoundState.State H → Option (PrimaryPropose H)
  unfolding is_primary
  construct_proposal voting last = elim last.estimate [
    | none ↦ none
    | some estimate ↦ elim (is_primary voting) [
      | false ↦ none
      | true ↦
          if elim last.finalized [ none ↦ true | some f ↦ ltb (f.1) (estimate.1) ]
          then some (record { target_hash = estimate.0; target_number = estimate.1 })
          else none
    ]
  ]

module _ {ℓ} {H : Type ℓ} ⦃oh : Ord H⦄ where
  -- The block at the place of the primary's block in the ancestry of the last prevote-GHOST.
  unfoldable pub at_primary : List H → ℕ → ℕ → Option H
  at_primary ancestry ghost_number primary_number =
      let to_sub = primary_number + 1 in
      let offset = if ltb ghost_number to_sub then 0 else ghost_number - to_sub in
      get_elem? ancestry offset

  -- `find_descendent_of` when the primary has sent a block.
  unfoldable pub primary_or_estimate : Chain H → H × ℕ → H × ℕ → H × ℕ → Outcome H
  unfolding at_primary
  primary_or_estimate chain estimate ghost primary = elim (same_block primary ghost) [
    | true ↦ ok (primary.0)
    | false ↦ elim (leb (ghost.1) (primary.1)) [
      | true ↦ ok (estimate.0)
      | false ↦ elim (chain.ancestry (estimate.0) (ghost.0)) [
        | ok ancestry ↦ elim (at_primary ancestry (ghost.1) (primary.1)) [
          | none ↦ ok (estimate.0)
          | some h ↦ ok (if eqb h (primary.0) then primary.0 else estimate.0)
        ]
        | err _ ↦ ok (estimate.0)
        | panic ↦ panic
      ]
    ]
  ]

  -- `find_descendent_of` of `construct_prevote`
  unfoldable pub find_descendent_of : Chain H → RoundState.State H → Option (H × ℕ) → Outcome H
  unfolding primary_or_estimate
  find_descendent_of chain last none = expect last.estimate >>= λ estimate. ok (estimate.0)
  find_descendent_of chain last (some primary) = expect last.estimate >>= λ estimate.
      expect last.prevote_ghost >>= λ ghost. primary_or_estimate chain estimate ghost primary

  -- The first part of `should_precommit`: the prevote-GHOST must have reached the last estimate.
  unfoldable pub ghost_reached : Chain H → H × ℕ → Option (H × ℕ) → Outcome Bool
  ghost_reached chain estimate none = ok false
  ghost_reached chain estimate (some ghost) = elim (same_block ghost estimate) [
    | true ↦ ok true
    | false ↦ is_equal_or_descendent_of chain (estimate.0) (ghost.0)
  ]

module _ {ℓ} {VoterId H S T W O X : Type ℓ} ⦃oh : Ord H⦄ where
  -- `VotingRound::construct_prevote`
  unfoldable pub construct_prevote :
      Environment VoterId H T W O X
      → VotingRound VoterId H S T W O
      → RoundState.State H
      → Outcome (H × W)
  unfolding find_descendent_of
  construct_prevote env r last = find_descendent_of env.chain last r.primary_block >>= λ base.
      ok (base, env.best_chain_containing base)

module _ {ℓ} {VoterId H S T W O : Type ℓ} where
  -- `VotingRound::construct_precommit`
  unfoldable pub construct_precommit : VotingRound VoterId H S T W O → Precommit H
  construct_precommit r = elim r.votes.prevote_ghost [
    | some target ↦ record { target_hash = target.0; target_number = target.1 }
    | none ↦ record { target_hash = r.votes.graph.base; target_number = r.votes.graph.base_number }
  ]
