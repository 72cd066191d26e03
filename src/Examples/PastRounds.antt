-- ===== src/Examples/PastRounds.antt =====
-- Two rounds in the background.
use finality_grandpa.Base.{ℕ, none, some, List, [], ◌∷◌, ◌≡◌, refl, nat_ord, nat_eq}
use finality_grandpa.Messages.{Message, Commit}
use finality_grandpa.Round.State as RoundState
use finality_grandpa.Voter.Call.{Answers}
use finality_grandpa.Voter.VotingRound.{VotingRound}
use finality_grandpa.Voter.PastRounds as PastRounds
use finality_grandpa.Voter.PastRounds.{PastRounds, Past}
use finality_grandpa.Voter.PastRounds.Kept.{all_rounds, Answered, poll_next_lem}
use finality_grandpa.Examples.Voting.{environment, three_prevotes, started}

abbrev pub commit_11 : Commit ℕ ℕ ℕ
commit_11 = record { target_hash = 11; target_number = 1; precommits = [] }

abbrev second : VotingRound ℕ ℕ ℕ ℕ ℕ (List (Message ℕ))
second = record started.round { votes = record started.round.votes { round_number = 2 } }

abbrev pub two_rounds : PastRounds ℕ ℕ ℕ ℕ ℕ (List (Message ℕ))
two_rounds =
    PastRounds.push environment second (PastRounds.push environment started.round PastRounds.new)

abbrev past : Past ℕ ℕ ℕ ℕ ℕ (List (Message ℕ))
past = record { rounds = two_rounds; shared = started.shared }

-- No round of number 3 takes the commit, and the round of number 1 does.
unknown_round : PastRounds.import_commit two_rounds 3 commit_11 ≡ (some commit_11, two_rounds)
unfolding PastRounds.import_commit PastRounds.push RoundState.new
unknown_round = refl

known_round : (PastRounds.import_commit two_rounds 1 commit_11).0 ≡ none
unfolding PastRounds.import_commit PastRounds.push RoundState.new
known_round = refl

poll_next_lem_example :
    Answers
      (λ given t. (all_rounds t ≡ all_rounds past) × Answered given t)
      (PastRounds.poll_next environment ((0, three_prevotes) ∷ (1, three_prevotes) ∷ []) past)
poll_next_lem_example =
    poll_next_lem environment ((0, three_prevotes) ∷ (1, three_prevotes) ∷ []) past
