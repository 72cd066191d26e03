-- ===== src/Examples/Votes.antt =====
-- Bitfields, vote-nodes, trackers and graphs with a few votes.
use finality_grandpa.Base.{
  nat_ord, nat_eq, ℕ, ◌+◌, ◌*◌, ◌^◌, ◌≤◌, ◌≡◌, refl, ◌||◌, ◌==◌, Option, some, List, [], ◌∷◌, ok,
  keep, length,
}
use finality_grandpa.Base.BTreeMap
use finality_grandpa.Base.BTreeSet
use finality_grandpa.VoterSet
use finality_grandpa.VoterSet.{VoterSet}
use finality_grandpa.Bitfield.{
  Bitfield, set_bit, merge, test_bit, iter1s, iter1s_merged, iter1s_even, iter1s_odd,
}
use finality_grandpa.Bitfield.Write.{test_bit-set_bit, test_bit-merge}
use finality_grandpa.Bitfield.Iter.{positions, every_other, iter1s_lem}
use finality_grandpa.Bitfield.Merged.{iter1s_merged-merge}
use finality_grandpa.Messages.{prevote_eq, Prevote, Commit, CompactCommit}
use finality_grandpa.Messages.Compact.{
  of_compact, to_compact, of_compact-to_compact, to_compact-of_compact,
}
use finality_grandpa.Round.Context.{Context, Phase, VoteNode, weight, equivocation_weight}
use finality_grandpa.Round.Context.Weight.{
  supporting, has_vote, counts_for, weight_lem, equivocation_weight_lem, weight-le-total,
}
use finality_grandpa.Round.Tracker
use finality_grandpa.Round.Tracker.{VoteTracker, VoteMultiplicity}
use finality_grandpa.Round.Tracker.Weight.{IsWeighed, add_vote-IsWeighed}
use finality_grandpa.VoteGraph.{VoteGraph, in_direct_ancestry}
use finality_grandpa.VoteGraph.Search.{find_containing_nodes}
use finality_grandpa.VoteGraph.Search.Terminates.{find_containing_nodes-returns}
use finality_grandpa.VoteGraph.Search.Complete.{FindsAll, find_containing_nodes_iff}
use finality_grandpa.Examples.Voters.{four_voters, four_voters-IsValid}

-- Positions 0, 5 and 64, and positions 5 and 63.
abbrev some_bits : Bitfield
some_bits = record { bits = (2 ^ 63 + 2 ^ 58) ∷ 2 ^ 63 ∷ [] }

abbrev other_bits : Bitfield
other_bits = record { bits = (2 ^ 58 + 1) ∷ [] }

test_bit-set_bit_example :
    test_bit (set_bit some_bits 130) 64 ≡ (130 == 64 || test_bit some_bits 64)
test_bit-set_bit_example = test_bit-set_bit some_bits 130 64

test_bit-merge_example :
    test_bit (merge other_bits some_bits) 64 ≡ (test_bit other_bits 64 || test_bit some_bits 64)
test_bit-merge_example = test_bit-merge other_bits some_bits 64

iter1s_lem_example :
    (positions (iter1s_even some_bits)
      ≡ keep (test_bit some_bits) (every_other 0 0 (32 * length some_bits.bits)))
    × (positions (iter1s_odd some_bits)
        ≡ keep (test_bit some_bits) (every_other 1 0 (32 * length some_bits.bits)))
iter1s_lem_example = iter1s_lem some_bits

iter1s_merged-merge_example :
    iter1s_merged other_bits some_bits 1 1 ≡ iter1s (merge other_bits some_bits) 1 1
iter1s_merged-merge_example = iter1s_merged-merge other_bits some_bits 1 1

-- Voter 2 equivocated in its precommits, and voters 1 and 4 precommitted for the node.
abbrev context : Context ℕ
context = record { voters = four_voters; equivocations = record { bits = 2 ^ 60 ∷ [] } }

abbrev node : VoteNode
node = record { bits = record { bits = (2 ^ 62 + 2 ^ 56) ∷ [] } }

weight_lem_example :
    weight context node Phase.precommit
    ≡ supporting (counts_for context node Phase.precommit) four_voters.voters
weight_lem_example = weight_lem context node Phase.precommit four_voters-IsValid

equivocation_weight_lem_example :
    equivocation_weight context Phase.precommit
    ≡ supporting (has_vote context.equivocations Phase.precommit) four_voters.voters
equivocation_weight_lem_example =
    equivocation_weight_lem context Phase.precommit four_voters-IsValid

weight-le-total_example : weight context node Phase.precommit ≤ 4
weight-le-total_example = weight-le-total context node Phase.precommit four_voters-IsValid

abbrev a_tracker : VoteTracker ℕ (Prevote ℕ) ℕ
a_tracker = record {
  votes = (2, VoteMultiplicity.single (record { target_hash = 10; target_number = 1 }) 77) ∷ [];
  current_weight = 1;
}

a_tracker-IsWeighed : IsWeighed four_voters a_tracker
unfolding BTreeMap.get
a_tracker-IsWeighed = refl

voter_3 : VoterSet.get four_voters 3 ≡ some (record { weight = 1; position = 2 })
unfolding VoterSet.get BTreeMap.get
voter_3 = refl

add_vote-IsWeighed_example :
    IsWeighed four_voters
      (Tracker.add_vote a_tracker 3 (record { target_hash = 10; target_number = 1 }) 78 1).0
add_vote-IsWeighed_example =
    add_vote-IsWeighed four_voters a_tracker 3 (record { target_hash = 10; target_number = 1 }) 78
      (record { weight = 1; position = 2 }) four_voters-IsValid voter_3 a_tracker-IsWeighed

-- Blocks 10, 11, 12 and 13 in a chain, with vote-nodes for 10 and 13.
abbrev graph : VoteGraph ℕ VoteNode
graph = record {
  entries =
      (10, record { number = 0; ancestors = []; descendents = 13 ∷ []; cumulative_vote = node })
      ∷ (
        13,
        record {
          number = 3;
          ancestors = 12 ∷ 11 ∷ 10 ∷ [];
          descendents = [];
          cumulative_vote = node;
        },
      )
      ∷ [];
  heads = 13 ∷ [];
  base = 10;
  base_number = 0;
}

find_containing_nodes-returns_example :
    (r : Option (List ℕ)) × (find_containing_nodes graph 11 1 ≡ ok r)
find_containing_nodes-returns_example = find_containing_nodes-returns graph 11 1

contains_11 : find_containing_nodes graph 11 1 ≡ ok (some (13 ∷ []))
unfolding find_containing_nodes BTreeMap.get BTreeSet.contains in_direct_ancestry
contains_11 = refl

find_containing_nodes_iff_example : FindsAll graph 11 1 13 (some (13 ∷ []))
find_containing_nodes_iff_example =
    find_containing_nodes_iff graph 11 1 13 (some (13 ∷ [])) contains_11

abbrev compact : CompactCommit ℕ ℕ ℕ
compact = record {
  target_hash = 10;
  target_number = 0;
  precommits =
      record { target_hash = 11; target_number = 1 }
      ∷ record { target_hash = 10; target_number = 0 }
      ∷ [];
  auth_data = (77, 1) ∷ (78, 4) ∷ [];
}

abbrev commit : Commit ℕ ℕ ℕ
commit = record {
  target_hash = 10;
  target_number = 0;
  precommits =
      record { precommit = record { target_hash = 11; target_number = 1 }; signature = 77; id = 1 }
      ∷ [];
}

to_compact-of_compact_example : to_compact (of_compact compact) ≡ compact
to_compact-of_compact_example = to_compact-of_compact compact refl

of_compact-to_compact_example : of_compact (to_compact commit) ≡ commit
of_compact-to_compact_example = of_compact-to_compact commit
