-- ===== src/Examples/Commits.antt =====
-- Rounds that import votes, and a commit that is validated, on a chain without forks.
use finality_grandpa.Base.{
  Outcome, Bool, false, ok, err, panic, some, none, Attempt, failed, done, nat_ord, nat_eq, ℕ, zero,
  suc, ◌-◌, ltb, if◌then◌else◌, ◌≤◌, ◌≡◌, refl, true, List, [], ◌∷◌, ok, err, Error, Ensures,
}
use finality_grandpa.Base.BTreeMap
use finality_grandpa.Base.BTreeSet
use finality_grandpa.VoterSet
use finality_grandpa.Chain.{Chain, is_equal_or_descendent_of}
use finality_grandpa.Messages.{SignedPrecommit, Prevote, Precommit, Commit}
use finality_grandpa.Bitfield
use finality_grandpa.VoteGraph.{ancestor_node, in_direct_ancestry, max_number}
use finality_grandpa.VoteGraph.Search.{find_containing_nodes}
use finality_grandpa.VoteGraph.Insert as VoteGraph
use finality_grandpa.VoteGraph.Ancestor.{find_ancestor}
use finality_grandpa.VoteGraph.Ghost.{find_ghost}
use finality_grandpa.Round.Context
use finality_grandpa.Round.Tracker
use finality_grandpa.Round.Tracker.{VoteMultiplicity}
use finality_grandpa.Round.Import.Again.{known_vote, import_precommit_again, import_prevote_again}
use finality_grandpa.Round.State
use finality_grandpa.Round.State.{Round}
use finality_grandpa.Round.Import.{ImportResult, import_prevote, import_precommit}
use finality_grandpa.Round.Import.Counted.{
  IsCounted, new-IsCounted, import_prevote-IsCounted, import_precommit-IsCounted,
}
use finality_grandpa.Commit.{CommitValidationResult, validate_commit}
use finality_grandpa.Commit.Valid.{signed_by, validate_commit-Reaches}
use finality_grandpa.Round.Tracker.Signers.{weight_among}
use finality_grandpa.Examples.Voters.{four_voters, four_voters-IsValid}

-- The `n` numbers below `b`, from the highest down.
abbrev below : ℕ → ℕ → List ℕ
below zero b = []
below (suc n) b = (b - 1) ∷ below n (b - 1)

-- Block `n + 1` is the child of block `n`.
abbrev pub chain : Chain ℕ
chain = record {
  ancestry = λ a b. if ltb a b then ok (below (b - a - 1) b) else err Error.not_descendent;
}

abbrev new_round : Round ℕ ℕ ℕ
new_round = State.new (record { round_number = 1; voters = four_voters; base = (10, 0) })

new_round-IsCounted : IsCounted new_round
new_round-IsCounted =
    new-IsCounted (record { round_number = 1; voters = four_voters; base = (10, 0) })
      four_voters-IsValid

import_prevote-IsCounted_example :
    Ensures
      (λ p. IsCounted (p.0))
      (import_prevote chain new_round (record { target_hash = 12; target_number = 2 }) 3 77)
import_prevote-IsCounted_example =
    import_prevote-IsCounted chain new_round (record { target_hash = 12; target_number = 2 }) 3 77
      new_round-IsCounted

import_precommit-IsCounted_example :
    Ensures
      (λ p. IsCounted (p.0))
      (import_precommit chain new_round (record { target_hash = 12; target_number = 2 }) 3 77)
import_precommit-IsCounted_example =
    import_precommit-IsCounted chain new_round (record { target_hash = 12; target_number = 2 }) 3 77
      new_round-IsCounted

-- The block 5 is no descendent of the base of the round.
abbrev failed_import : Round ℕ ℕ ℕ × Attempt (ImportResult ℕ (Precommit ℕ) ℕ)
failed_import = (
  record new_round {
    precommit = record {
      votes = (3, VoteMultiplicity.single (record { target_hash = 5; target_number = 0 }) 77) ∷ [];
      current_weight = 1;
    };
  },
  failed Error.not_descendent,
)

fails :
    import_precommit chain new_round (record { target_hash = 5; target_number = 0 }) 3 77
    ≡ ok failed_import
unfolding import_precommit State.new Context.new VoterSet.get BTreeMap.get BTreeMap.insert
    Tracker.add_vote VoteGraph.insert find_containing_nodes ancestor_node in_direct_ancestry
    max_number BTreeSet.contains
fails = refl

voter_3_of_round :
    VoterSet.get new_round.context.voters 3 ≡ some (record { weight = 1; position = 2 })
unfolding State.new Context.new VoterSet.get BTreeMap.get
voter_3_of_round = refl

first_of_3 : BTreeMap.get new_round.precommit.votes 3 ≡ none
unfolding State.new BTreeMap.get
first_of_3 = refl

import_precommit_again_example :
    import_precommit chain (failed_import.0) (record { target_hash = 5; target_number = 0 }) 3 77
    ≡ ok (failed_import.0, done known_vote)
import_precommit_again_example =
    import_precommit_again chain new_round (record { target_hash = 5; target_number = 0 }) 3 77
      (record { weight = 1; position = 2 }) failed_import voter_3_of_round first_of_3 fails

abbrev failed_prevote : Round ℕ ℕ ℕ × Attempt (ImportResult ℕ (Prevote ℕ) ℕ)
failed_prevote = (
  record new_round {
    prevote = record {
      votes = (3, VoteMultiplicity.single (record { target_hash = 5; target_number = 0 }) 77) ∷ [];
      current_weight = 1;
    };
  },
  failed Error.not_descendent,
)

prevote_fails :
    import_prevote chain new_round (record { target_hash = 5; target_number = 0 }) 3 77
    ≡ ok failed_prevote
unfolding import_prevote State.new Context.new VoterSet.get BTreeMap.get BTreeMap.insert
    Tracker.add_vote VoteGraph.insert find_containing_nodes ancestor_node in_direct_ancestry
    max_number BTreeSet.contains
prevote_fails = refl

first_prevote_of_3 : BTreeMap.get new_round.prevote.votes 3 ≡ none
unfolding State.new BTreeMap.get
first_prevote_of_3 = refl

import_prevote_again_example :
    import_prevote chain (failed_prevote.0) (record { target_hash = 5; target_number = 0 }) 3 77
    ≡ ok (failed_prevote.0, done known_vote)
import_prevote_again_example =
    import_prevote_again chain new_round (record { target_hash = 5; target_number = 0 }) 3 77
      (record { weight = 1; position = 2 }) failed_prevote voter_3_of_round first_prevote_of_3
      prevote_fails

abbrev commit : Commit ℕ ℕ ℕ
commit = record {
  target_hash = 11;
  target_number = 1;
  precommits =
      record { precommit = record { target_hash = 11; target_number = 1 }; signature = 71; id = 1 }
      ∷ record {
        precommit = record { target_hash = 12; target_number = 2 };
        signature = 74;
        id = 4;
      }
      ∷ record {
        precommit = record { target_hash = 11; target_number = 1 };
        signature = 79;
        id = 9;
      }
      ∷ record {
        precommit = record { target_hash = 11; target_number = 1 };
        signature = 72;
        id = 2;
      }
      ∷ [];
}

abbrev validated : CommitValidationResult
validated = record {
  valid = true;
  num_precommits = 4;
  num_duplicated_precommits = 0;
  num_equivocations = 0;
  num_invalid_voters = 1;
}

validate_commit_valid : validate_commit commit four_voters chain ≡ ok validated
unfolding validate_commit VoterSet.contains VoterSet.get VoterSet.nth BTreeMap.get BTreeMap.insert
    BTreeSet.contains is_equal_or_descendent_of import_precommit Tracker.add_vote VoteGraph.insert
    find_containing_nodes ancestor_node in_direct_ancestry max_number find_ghost find_ancestor
    State.update State.precommit_ghost State.has_supermajority State.possible_to_precommit
    Context.weight Context.equivocation_weight Context.vote Context.add_vote Context.add_node
    Bitfield.iter1s_odd Bitfield.iter1s_merged_odd Bitfield.set_bit Bitfield.is_blank Bitfield.merge
    Bitfield.test_word
validate_commit_valid = refl

-- Votes for blocks with numbers that are not those of the chain.
abbrev precommit_at_1 : ℕ → ℕ → SignedPrecommit ℕ ℕ ℕ
precommit_at_1 hash id = record {
  precommit = record { target_hash = hash; target_number = 1 };
  signature = id;
  id = id;
}

abbrev misnumbered : Commit ℕ ℕ ℕ
misnumbered = record {
  target_hash = 11;
  target_number = 1;
  precommits =
      precommit_at_1 10 1 ∷ precommit_at_1 11 2 ∷ precommit_at_1 12 3 ∷ precommit_at_1 13 4 ∷ [];
}

abbrev is_returned : {A : Type 0} → Outcome A → Bool
is_returned (ok _) = true
is_returned (err e) = false
is_returned panic = false

misnumbered_returns : is_returned (validate_commit misnumbered four_voters chain) ≡ true
unfolding validate_commit VoterSet.contains VoterSet.get VoterSet.nth BTreeMap.get BTreeMap.insert
    BTreeSet.contains BTreeSet.insert BTreeSet.remove is_equal_or_descendent_of import_precommit
    Tracker.add_vote VoteGraph.insert find_containing_nodes ancestor_node in_direct_ancestry
    max_number find_ghost find_ancestor State.update State.precommit_ghost State.has_supermajority
    State.possible_to_precommit Context.weight Context.equivocation_weight Context.vote
    Context.add_vote Context.add_node Bitfield.iter1s_odd Bitfield.iter1s_merged_odd
    Bitfield.set_bit Bitfield.is_blank Bitfield.merge Bitfield.test_word
misnumbered_returns = refl

validate_commit-Reaches_example : 3 ≤ weight_among (signed_by commit.precommits) four_voters.voters
validate_commit-Reaches_example =
    validate_commit-Reaches commit four_voters chain validated four_voters-IsValid
      validate_commit_valid refl
