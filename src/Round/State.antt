-- ===== src/Round/State.antt =====
-- The state of a round, and `Round::update`.
pub mod Estimate
pub mod Finalized
pub mod Overlap
use finality_grandpa.Base.{
  ◌>>=◌, ℕ, Bool, true, false, ◌&&◌, ◌==◌, Option, none, some, min, Ord, eqb, Outcome, ok,
}
use finality_grandpa.Weights.{VoterWeight, add, sub, reaches}
use finality_grandpa.VoterSet.{VoterSet, VoterInfo, nth_mod}
use finality_grandpa.Messages.{
  Prevote, Precommit, HistoricalVotes, no_historical_votes, set_prevoted_idx, set_precommitted_idx,
}
use finality_grandpa.VoteGraph
use finality_grandpa.VoteGraph.{VoteGraph, VoteData}
use finality_grandpa.VoteGraph.Ancestor.{find_ancestor}
use finality_grandpa.VoteGraph.Ghost.{find_ghost}
use finality_grandpa.Round.Context
use finality_grandpa.Round.Context.{Context, Phase, VoteNode, add_node, no_votes}
use finality_grandpa.Round.Tracker.{VoteTracker, no_tracked}

-- `AddAssign` and `Default` of `VoteNode`.
instance abbrev pub node_data : VoteData VoteNode
node_data = record { default = no_votes; add = add_node }

-- `State`
pub record State {ℓ} (H : Type ℓ) : Type ℓ where
  pub prevote_ghost : Option (H × ℕ)
  pub finalized : Option (H × ℕ)
  pub estimate : Option (H × ℕ)
  pub completable : Bool

-- `State::genesis`
abbrev pub genesis {ℓ} : {H : Type ℓ} → H × ℕ → State H
genesis block = record {
  prevote_ghost = some block;
  finalized = some block;
  estimate = some block;
  completable = true;
}

pub record RoundParams {ℓ κ} (VoterId : Type ℓ) (H : Type κ) : Type (ℓ ⊔ κ) where
  pub round_number : ℕ
  pub voters : VoterSet VoterId
  pub base : H × ℕ

pub record Round {ℓ κ μ} (VoterId : Type ℓ) (H : Type κ) (S : Type μ) : Type (ℓ ⊔ κ ⊔ μ) where
  pub round_number : ℕ
  pub context : Context VoterId
  pub graph : VoteGraph H VoteNode
  pub prevote : VoteTracker VoterId (Prevote H) S
  pub precommit : VoteTracker VoterId (Precommit H) S
  pub historical_votes : HistoricalVotes H S VoterId
  pub prevote_ghost : Option (H × ℕ)
  pub precommit_ghost : Option (H × ℕ)
  pub finalized : Option (H × ℕ)
  pub estimate : Option (H × ℕ)
  pub completable : Bool

module _ {ℓ κ μ} {VoterId : Type ℓ} {H : Type κ} {S : Type μ} where
  -- `Round::new`
  unfoldable pub new : RoundParams VoterId H → Round VoterId H S
  unfolding Context.new VoteGraph.new
  new params = record {
    round_number = params.round_number;
    context = Context.new params.voters;
    graph = VoteGraph.new params.base.0 params.base.1 no_votes;
    prevote = no_tracked;
    precommit = no_tracked;
    historical_votes = no_historical_votes;
    prevote_ghost = none;
    precommit_ghost = none;
    finalized = none;
    estimate = none;
    completable = false;
  }

  -- `Round::threshold`
  abbrev pub threshold : Round VoterId H S → VoterWeight
  threshold r = r.context.voters.threshold

  -- `Round::state`
  unfoldable pub state : Round VoterId H S → State H
  state r = record {
    prevote_ghost = r.prevote_ghost;
    finalized = r.finalized;
    estimate = r.estimate;
    completable = r.completable;
  }

  -- `Round::primary_voter`
  unfoldable pub primary_voter : Round VoterId H S → Outcome (VoterId × VoterInfo)
  primary_voter r = nth_mod r.context.voters r.round_number

  -- `Round::set_prevoted_index` and `Round::set_precommitted_index`
  unfoldable pub set_prevoted_index : Round VoterId H S → Round VoterId H S
  set_prevoted_index r = record r { historical_votes = set_prevoted_idx r.historical_votes }

  unfoldable pub set_precommitted_index : Round VoterId H S → Round VoterId H S
  set_precommitted_index r = record r { historical_votes = set_precommitted_idx r.historical_votes }

  -- The test that `update` and `precommit_ghost` pass to the graph: supermajority in a phase.
  unfoldable pub has_supermajority : Round VoterId H S → Phase → VoteNode → Bool
  has_supermajority r p node = reaches (Context.weight r.context node p) (threshold r)

  -- The closure `possible_to_precommit` of `update`.
  unfoldable pub possible_to_precommit : Round VoterId H S → VoteNode → Bool
  possible_to_precommit r node =
      let total = r.context.voters.total_weight in
      let tolerated_equivocations = sub total (threshold r) in
      let current_equivocations = Context.equivocation_weight r.context Phase.precommit in
      let additional_equiv = sub tolerated_equivocations current_equivocations in
      let remaining_commit_votes = sub total r.precommit.current_weight in
      let precommitted_for = Context.weight r.context node Phase.precommit in
      let possible_equivocations =
        min (sub r.precommit.current_weight precommitted_for) additional_equiv in
      let full_possible_weight =
        add (add precommitted_for remaining_commit_votes) possible_equivocations in
      reaches full_possible_weight (threshold r)

-- `==` of two blocks.
abbrev pub same_block {ℓ} : {H : Type ℓ} ⦃o : Ord H⦄ → H × ℕ → H × ℕ → Bool
same_block a b = eqb (a.0) (b.0) && (a.1) == (b.1)

module _ {ℓ κ μ} {VoterId : Type ℓ} {H : Type κ} {S : Type μ} ⦃oh : Ord H⦄ where
  -- The last statement of `update`: whether the round is completable, given the estimate.
  unfoldable pub is_completable : Round VoterId H S → H × ℕ → Option (H × ℕ) → Outcome Bool
  is_completable r ghost none = ok false
  is_completable r ghost (some block) = elim (eqb (block.0) (ghost.0)) [
    | false ↦ ok true
    | true ↦ do
      higher ← find_ghost r.graph (some block) (possible_to_precommit r)
      elim higher [ none ↦ ok true | some x ↦ ok (same_block x ghost) ]
  ]

  -- `update` from the precommit supermajority on.
  unfoldable pub update_estimate : Round VoterId H S → H × ℕ → Outcome (Round VoterId H S)
  unfolding is_completable
  update_estimate r ghost = do
    finalized ← find_ancestor r.graph (ghost.0) (ghost.1) (has_supermajority r Phase.precommit)
    estimate ← find_ancestor r.graph (ghost.0) (ghost.1) (possible_to_precommit r)
    completable ← is_completable r ghost estimate
    ok (record r { finalized = finalized; estimate = estimate; completable = completable })

  -- `Round::update`
  unfoldable pub update : Round VoterId H S → Outcome (Round VoterId H S)
  unfolding update_estimate
  update r = elim (reaches r.prevote.current_weight (threshold r)) [
    | false ↦ ok r
    | true ↦ elim r.prevote_ghost [
      | none ↦ ok r
      | some ghost ↦ elim (reaches r.precommit.current_weight (threshold r)) [
        | true ↦ update_estimate r ghost
        | false ↦ ok (record r { estimate = some ghost })
      ]
    ]
  ]

  -- `Round::precommit_ghost`
  unfoldable pub precommit_ghost : Round VoterId H S → Outcome (Round VoterId H S × Option (H × ℕ))
  precommit_ghost r = elim (reaches r.precommit.current_weight (threshold r)) [
    | false ↦ ok (r, r.precommit_ghost)
    | true ↦ do
      ghost ← find_ghost r.graph r.precommit_ghost (has_supermajority r Phase.precommit)
      ok (record r { precommit_ghost = ghost }, ghost)
  ]
