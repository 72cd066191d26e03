-- ===== src/Examples/Rounds.antt =====
-- A round of the voters 1 to 4 in which 1, 3 and 4 have prevoted and precommitted.
use finality_grandpa.Base.{
  ◌-◌, ◌<◌, ◌&&◌, List, All, ℕ, ◌+◌, ◌^◌, ◌≡◌, refl, Bool, true, false, none, some, [], ◌∷◌, ok,
  nat_ord, nat_eq,
}
use finality_grandpa.Base.BTreeMap
use finality_grandpa.Base.BTreeMap.{BTreeMap}
use finality_grandpa.Base.BTreeSet
use finality_grandpa.Bitfield
use finality_grandpa.Messages.{SignedPrecommit, no_historical_votes}
use finality_grandpa.Chain.{is_equal_or_descendent_of}
use finality_grandpa.Round.Finalizing.{IsHeld, finalizing_precommits, finalizing_precommits-IsHeld}
use finality_grandpa.Examples.Commits.{chain}
use finality_grandpa.VoteGraph.{VoteGraph, in_direct_ancestry, ancestor_node, max_number}
use finality_grandpa.VoteGraph.Search.{find_containing_nodes}
use finality_grandpa.VoteGraph.Ancestor.{find_ancestor}
use finality_grandpa.VoteGraph.Ancestor.Walk.{IsFound, find_ancestor-IsFound}
use finality_grandpa.VoteGraph.Ghost.{find_ghost}
use finality_grandpa.VoterSet
use finality_grandpa.Round.Context
use finality_grandpa.Round.Context.Weight.{supporting, counts_for}
use finality_grandpa.Round.State.Overlap.{has_supermajority_overlap}
use finality_grandpa.Round.Context.{Phase, VoteNode}
use finality_grandpa.Round.Tracker.{VoteMultiplicity}
use finality_grandpa.Round.State
use finality_grandpa.Round.State.{Round, node_data, update}
use finality_grandpa.Round.State.Finalized.{IsFinalized, update-IsFinalized}
use finality_grandpa.Examples.Voters.{four_voters, four_voters-IsValid}

-- Prevotes and precommits of the voters 1, 3 and 4, and of the voters 1 and 3.
abbrev three_votes : VoteNode
three_votes = record {
  bits = record { bits = (2 ^ 63 + 2 ^ 62 + 2 ^ 59 + 2 ^ 58 + 2 ^ 57 + 2 ^ 56) ∷ [] };
}

abbrev two_votes : VoteNode
two_votes = record { bits = record { bits = (2 ^ 63 + 2 ^ 62 + 2 ^ 59 + 2 ^ 58) ∷ [] } }

-- Voter 4 has voted for block 12, and voters 1 and 3 for block 13.
abbrev votes : VoteGraph ℕ VoteNode
votes = record {
  entries =
      (
        10,
        record { number = 0; ancestors = []; descendents = 12 ∷ []; cumulative_vote = three_votes },
      )
      ∷ (
        12,
        record {
          number = 2;
          ancestors = 11 ∷ 10 ∷ [];
          descendents = 13 ∷ [];
          cumulative_vote = three_votes;
        },
      )
      ∷ (
        13,
        record { number = 3; ancestors = 12 ∷ []; descendents = []; cumulative_vote = two_votes },
      )
      ∷ [];
  heads = 13 ∷ [];
  base = 10;
  base_number = 0;
}

abbrev voted : Round ℕ ℕ ℕ
voted = record {
  round_number = 1;
  context = Context.new four_voters;
  graph = votes;
  prevote = record {
    votes =
        (1, VoteMultiplicity.single (record { target_hash = 13; target_number = 3 }) 71)
        ∷ (3, VoteMultiplicity.single (record { target_hash = 13; target_number = 3 }) 73)
        ∷ (4, VoteMultiplicity.single (record { target_hash = 12; target_number = 2 }) 74)
        ∷ [];
    current_weight = 3;
  };
  precommit = record {
    votes =
        (1, VoteMultiplicity.single (record { target_hash = 13; target_number = 3 }) 81)
        ∷ (3, VoteMultiplicity.single (record { target_hash = 13; target_number = 3 }) 83)
        ∷ (4, VoteMultiplicity.single (record { target_hash = 12; target_number = 2 }) 84)
        ∷ [];
    current_weight = 3;
  };
  historical_votes = no_historical_votes;
  prevote_ghost = some (12, 2);
  precommit_ghost = none;
  finalized = none;
  estimate = none;
  completable = false;
}

abbrev updated : Round ℕ ℕ ℕ
updated = record voted { finalized = some (12, 2); estimate = some (12, 2); completable = false }

update-voted : update voted ≡ ok updated
unfolding update find_ancestor find_ghost find_containing_nodes BTreeMap.get BTreeSet.contains
    in_direct_ancestry ancestor_node max_number State.has_supermajority State.possible_to_precommit
    Context.new Context.weight Context.equivocation_weight VoterSet.nth Bitfield.iter1s_odd
    Bitfield.is_blank Bitfield.test_word
update-voted = refl

update-IsFinalized_example : IsFinalized voted (12, 2) (12, 2) (some (12, 2))
unfolding Context.new
update-IsFinalized_example =
    update-IsFinalized voted updated (12, 2) (12, 2) four_voters-IsValid refl refl refl update-voted
      refl

-- Whether voter 4 has precommitted.
abbrev voter_4 : VoteNode → Bool
voter_4 node = Bitfield.test_bit node.bits 7

finds_12 : find_ancestor votes 13 3 voter_4 ≡ ok (some (12, 2))
unfolding find_ancestor find_containing_nodes BTreeMap.get BTreeSet.contains max_number
    Bitfield.test_bit Bitfield.test_word
finds_12 = refl

find_ancestor-IsFound_example : IsFound votes voter_4 (13, 3) (12, 2)
find_ancestor-IsFound_example = find_ancestor-IsFound votes 13 3 voter_4 (12, 2) finds_12

abbrev justification : List (SignedPrecommit ℕ ℕ ℕ)
justification =
    record { precommit = record { target_hash = 13; target_number = 3 }; signature = 81; id = 1 }
    ∷ record { precommit = record { target_hash = 13; target_number = 3 }; signature = 83; id = 3 }
    ∷ record { precommit = record { target_hash = 12; target_number = 2 }; signature = 84; id = 4 }
    ∷ []

justifies_12 : finalizing_precommits updated chain ≡ ok (some justification)
unfolding finalizing_precommits is_equal_or_descendent_of
justifies_12 = refl

finalizing_precommits-IsHeld_example : All (IsHeld chain 12 updated.precommit.votes) justification
finalizing_precommits-IsHeld_example =
    finalizing_precommits-IsHeld updated chain (12, 2) justification refl justifies_12

-- Prevotes and precommits of the voters 2, 3 and 4.
abbrev other_votes : VoteNode
other_votes = record {
  bits = record { bits = (2 ^ 61 + 2 ^ 60 + 2 ^ 59 + 2 ^ 58 + 2 ^ 57 + 2 ^ 56) ∷ [] };
}

heavy : State.has_supermajority voted Phase.precommit three_votes ≡ true
unfolding State.has_supermajority Context.new Context.weight VoterSet.nth Bitfield.iter1s_odd
    Bitfield.is_blank Bitfield.test_word
heavy = refl

other_heavy : State.has_supermajority voted Phase.precommit other_votes ≡ true
unfolding State.has_supermajority Context.new Context.weight VoterSet.nth Bitfield.iter1s_odd
    Bitfield.is_blank Bitfield.test_word
other_heavy = refl

has_supermajority_overlap_example :
    voted.context.voters.total_weight - State.threshold voted
    < supporting
        (λ i.
          counts_for voted.context three_votes Phase.precommit i
          && counts_for voted.context other_votes Phase.precommit i)
        voted.context.voters.voters
unfolding Context.new
has_supermajority_overlap_example =
    has_supermajority_overlap voted Phase.precommit three_votes other_votes four_voters-IsValid
      heavy other_heavy
