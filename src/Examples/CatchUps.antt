-- ===== src/Examples/CatchUps.antt =====
-- A catch-up with votes of the voters 1, 3 and 4 for block 12.
use finality_grandpa.Base.{
  Outcome, err, panic, Option, ℕ, ◌≤◌, ◌<◌, true, some, none, [], ◌∷◌, ◌≡◌, refl, inl, ok, nat_ord,
  nat_eq, Ensures, arith,
}
use finality_grandpa.Base.BTreeMap
use finality_grandpa.Base.BTreeSet
use finality_grandpa.Bitfield
use finality_grandpa.Chain.{is_equal_or_descendent_of}
use finality_grandpa.VoteGraph.{ancestor_node, in_direct_ancestry, max_number}
use finality_grandpa.VoteGraph.Search.{find_containing_nodes}
use finality_grandpa.VoteGraph.Insert as VoteGraph
use finality_grandpa.VoteGraph.Ancestor.{find_ancestor}
use finality_grandpa.VoteGraph.Ghost.{find_ghost}
use finality_grandpa.VoterSet
use finality_grandpa.Round.Context
use finality_grandpa.Round.Tracker
use finality_grandpa.Messages.{push_vote, SignedPrevote, SignedPrecommit, CatchUp}
use finality_grandpa.Round.Tracker.Weight.{weight_of_keys}
use finality_grandpa.Round.State
use finality_grandpa.Round.State.{Round}
use finality_grandpa.Round.Import.{import_prevote, import_precommit}
use finality_grandpa.Round.Import.Supported.{
  IsSupported, import_prevote-IsSupported, import_precommit-IsSupported,
}
use finality_grandpa.Voter.CatchUp.{validate_catch_up}
use finality_grandpa.Voter.CatchUp.Valid.{validate_catch_up_lem}
use finality_grandpa.Examples.Voters.{four_voters, four_voters-IsValid}
use finality_grandpa.Examples.Commits.{chain}

abbrev prevote_by : ℕ → SignedPrevote ℕ ℕ ℕ
prevote_by id = record {
  prevote = record { target_hash = 12; target_number = 2 };
  signature = 71;
  id = id;
}

abbrev precommit_by : ℕ → SignedPrecommit ℕ ℕ ℕ
precommit_by id = record {
  precommit = record { target_hash = 12; target_number = 2 };
  signature = 72;
  id = id;
}

abbrev catch_up : CatchUp ℕ ℕ ℕ
catch_up = record {
  round_number = 7;
  prevotes = prevote_by 1 ∷ prevote_by 3 ∷ prevote_by 4 ∷ [];
  precommits = precommit_by 1 ∷ precommit_by 3 ∷ precommit_by 4 ∷ [];
  base_hash = 10;
  base_number = 0;
}

import_prevote-IsSupported_example :
    Ensures
      (λ p. IsSupported {S = ℕ} (p.0))
      (import_prevote chain
        (State.new (record { round_number = 1; voters = four_voters; base = (10, 0) }))
        (record { target_hash = 12; target_number = 2 })
        3
        77)
unfolding State.new
import_prevote-IsSupported_example =
    import_prevote-IsSupported chain
      (State.new (record { round_number = 1; voters = four_voters; base = (10, 0) }))
      (record { target_hash = 12; target_number = 2 }) 3 77 (omega arith) (inl refl)

import_precommit-IsSupported_example :
    Ensures
      (λ p. IsSupported {S = ℕ} (p.0))
      (import_precommit chain
        (State.new (record { round_number = 1; voters = four_voters; base = (10, 0) }))
        (record { target_hash = 12; target_number = 2 })
        3
        77)
unfolding State.new
import_precommit-IsSupported_example =
    import_precommit-IsSupported chain
      (State.new (record { round_number = 1; voters = four_voters; base = (10, 0) }))
      (record { target_hash = 12; target_number = 2 }) 3 77 (omega arith) (inl refl)

-- The round of a catch-up, or a new one when there is none.
abbrev round_of : Outcome (Option (Round ℕ ℕ ℕ)) → Round ℕ ℕ ℕ
round_of (ok (some r)) = r
round_of (ok none) = State.new (record { round_number = 1; voters = four_voters; base = (10, 0) })
round_of (err _) = State.new (record { round_number = 1; voters = four_voters; base = (10, 0) })
round_of panic = State.new (record { round_number = 1; voters = four_voters; base = (10, 0) })

abbrev caught_up : Round ℕ ℕ ℕ
caught_up = round_of (validate_catch_up catch_up chain four_voters 6)

catches_up : validate_catch_up catch_up chain four_voters 6 ≡ ok (some caught_up)
unfolding validate_catch_up is_equal_or_descendent_of State.new import_prevote import_precommit
    VoterSet.get BTreeMap.get BTreeMap.insert Tracker.add_vote VoteGraph.insert
    find_containing_nodes BTreeSet.contains BTreeSet.insert BTreeSet.remove in_direct_ancestry
    ancestor_node max_number State.update find_ghost find_ancestor State.has_supermajority
    State.possible_to_precommit Context.new Context.weight Context.equivocation_weight VoterSet.nth
    Bitfield.iter1s_even Bitfield.iter1s_odd Bitfield.is_blank Bitfield.test_word Context.vote
    Context.add_vote push_vote Bitfield.set_bit
catches_up = refl

validate_catch_up_lem_example :
    (6 < caught_up.round_number)
    × (caught_up.round_number ≡ 7)
    × (caught_up.completable ≡ true)
    × ((e : ℕ × ℕ) × (caught_up.estimate ≡ some e))
    × (3 ≤ weight_of_keys caught_up.prevote.votes four_voters.voters)
    × (3 ≤ weight_of_keys caught_up.precommit.votes four_voters.voters)
validate_catch_up_lem_example =
    validate_catch_up_lem catch_up chain four_voters 6 caught_up four_voters-IsValid catches_up
