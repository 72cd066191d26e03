-- ===== src/Round/Context.antt =====
-- src/round/context.rs: the voters of a round and its equivocations, for the weight of a vote-node.
pub mod Weight
use finality_grandpa.Base.{◌+◌, ◌*◌, ◌/◌, Option, none, some, List, [], ◌∷◌, if◌then◌else◌}
use finality_grandpa.Weights.{VoteWeight, add}
use finality_grandpa.VoterSet.{VoterSet, VoterInfo, nth}
use finality_grandpa.Bitfield.{
  Bitfield, Bit1, blank, is_blank, merge, set_bit, iter1s_even, iter1s_odd, iter1s_merged_even,
  iter1s_merged_odd,
}

-- `round::Phase`
pub data Phase : Type 0 where
  prevote precommit : Phase

pub record Context {ℓ} (VoterId : Type ℓ) : Type ℓ where
  pub voters : VoterSet VoterId
  pub equivocations : Bitfield

-- `struct Vote`
pub record Vote : Type 0 where
  pub bit : Bit1

pub record VoteNode : Type 0 where
  pub bits : Bitfield

-- `Vote::new`
unfoldable pub vote : VoterInfo → Phase → Vote
vote v Phase.prevote = record { bit = record { position = v.position * 2 } }
vote v Phase.precommit = record { bit = record { position = v.position * 2 + 1 } }

-- `VoteNode::default`
abbrev pub no_votes : VoteNode
no_votes = record { bits = blank }

-- `AddAssign<&VoteNode> for VoteNode`
unfoldable pub add_node : VoteNode → VoteNode → VoteNode
add_node n rhs = record { bits = merge n.bits rhs.bits }

-- `AddAssign<&Vote> for VoteNode`
unfoldable pub add_vote : VoteNode → Vote → VoteNode
add_vote n rhs = record { bits = set_bit n.bits rhs.bit.position }

module _ {ℓ} {VoterId : Type ℓ} where
  -- `Vote::voter`
  unfoldable pub voter : Vote → VoterSet VoterId → Option (VoterId × VoterInfo)
  unfolding nth
  voter b vs = nth vs (b.bit.position / 2)

  -- The loop of `fn weight`.
  unfoldable pub weight_from : VoteWeight → List Bit1 → VoterSet VoterId → VoteWeight
  unfolding voter
  weight_from total [] vs = total
  weight_from total (bit ∷ bits) vs =
      weight_from
        (elim (voter (record { bit = bit }) vs) [
          | none ↦ total
          | some (id, v) ↦ add total v.weight
        ])
        bits vs

  -- `Context::new`
  unfoldable pub new : VoterSet VoterId → Context VoterId
  new vs = record { voters = vs; equivocations = blank }

  -- `Context::equivocation_weight`
  unfoldable pub equivocation_weight : Context VoterId → Phase → VoteWeight
  unfolding weight_from
  equivocation_weight c Phase.prevote = weight_from 0 (iter1s_even c.equivocations) c.voters
  equivocation_weight c Phase.precommit = weight_from 0 (iter1s_odd c.equivocations) c.voters

  -- `Context::equivocated`
  unfoldable pub equivocated : Context VoterId → VoterInfo → Phase → Context VoterId
  unfolding vote
  equivocated c v p = record c { equivocations = set_bit c.equivocations (vote v p).bit.position }

  -- The bits whose weight `Context::weight` computes.
  unfoldable pub weighed_bits : Context VoterId → VoteNode → Phase → List Bit1
  weighed_bits c n Phase.prevote =
      if is_blank c.equivocations
      then iter1s_even n.bits
      else iter1s_merged_even n.bits c.equivocations
  weighed_bits c n Phase.precommit =
      if is_blank c.equivocations
      then iter1s_odd n.bits
      else iter1s_merged_odd n.bits c.equivocations

  -- `Context::weight`
  unfoldable pub weight : Context VoterId → VoteNode → Phase → VoteWeight
  unfolding weight_from weighed_bits
  weight c n p = weight_from 0 (weighed_bits c n p) c.voters
