-- ===== src/Examples/Finality.antt =====
-- A voter that is notified of finalized blocks.
use finality_grandpa.Base.{
  nat_ord, nat_eq, ℕ, Outcome, ok, err, panic, length, List, [], ◌∷◌, ◌≡◌, refl,
}
use finality_grandpa.Messages.{Message}
use finality_grandpa.Voter.Call.{fine, Answer, Reply, returned, raised, panicked, Leaves}
use finality_grandpa.Voter.Environment.{Told, FinalizedNotification}
use finality_grandpa.Voter.Main.{Voter, handle_finalized}
use finality_grandpa.Voter.Main.Finality.{HasRisen, handle_finalized-HasRisen}
use finality_grandpa.Round.State as RoundState
use finality_grandpa.VoterSet
use finality_grandpa.Voter.Main.Start as Start
use finality_grandpa.Examples.Voters.{four_voters}
use finality_grandpa.Examples.Voting.{environment, started}
use finality_grandpa.Examples.PastRounds.{commit_11, two_rounds}

abbrev notified : ℕ → ℕ → FinalizedNotification ℕ ℕ ℕ
notified hash number = record { f_hash = hash; f_num = number; round = 1; commit = commit_11 }

abbrev voter : Voter ℕ ℕ ℕ ℕ ℕ (List (Message ℕ)) ℕ
voter = record {
  voters = four_voters;
  best_round = started.round;
  past_rounds = two_rounds;
  last_finalized_number = 1;
  global_out = record { inner = 0; buffer = [] };
  last_finalized_in_rounds = (10, 0);
  shared = started.shared;
}

abbrev accepts : Told ℕ ℕ ℕ → Answer ℕ (Unit {0})
accepts told = fine tt

abbrev calls_of :
    {A : Type 0} → Reply ℕ (Voter ℕ ℕ ℕ ℕ ℕ (List (Message ℕ)) ℕ) A → List (Told ℕ ℕ ℕ)
calls_of (returned a v) = v.shared.calls
calls_of (raised x v) = v.shared.calls
calls_of panicked = []

-- From the genesis state a voter starts with round 1 and no past round.
abbrev best_of : Outcome (Voter ℕ ℕ ℕ ℕ ℕ (List (Message ℕ)) ℕ) → List ℕ
best_of (ok v) = v.best_round.votes.round_number ∷ length v.past_rounds.past_rounds ∷ []
best_of (err e) = []
best_of panic = []

starts_at_genesis : best_of (Start.new environment four_voters 0 0 [] (10, 0) (10, 0)) ≡ 1 ∷ 0 ∷ []
unfolding Start.new RoundState.new RoundState.primary_voter VoterSet.nth_mod
starts_at_genesis = refl

-- Round 1 without votes is not completable, and not kept.
drops_incompletable :
    best_of (Start.new environment four_voters 0 1 [] (10, 0) (10, 0)) ≡ 2 ∷ 0 ∷ []
unfolding Start.new RoundState.new RoundState.primary_voter VoterSet.nth_mod
drops_incompletable = refl

-- Of three notifications, the environment is told of those that rise above number 1.
tells_two :
    calls_of (handle_finalized accepts (notified 12 2 ∷ notified 11 1 ∷ notified 14 4 ∷ []) voter)
    ≡ Told.finalize_block 12 2 1 commit_11 ∷ Told.finalize_block 14 4 1 commit_11 ∷ []
unfolding handle_finalized
tells_two = refl

handle_finalized-HasRisen_example :
    Leaves
      (HasRisen 1 [])
      (handle_finalized accepts (notified 12 2 ∷ notified 11 1 ∷ notified 14 4 ∷ []) voter)
handle_finalized-HasRisen_example =
    handle_finalized-HasRisen accepts (notified 12 2 ∷ notified 11 1 ∷ notified 14 4 ∷ []) voter
