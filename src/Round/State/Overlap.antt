-- ===== src/Round/State/Overlap.antt =====
-- Two blocks with a supermajority in one phase of a round.
use finality_grandpa.Base.{
  ℕ, ◌+◌, ◌-◌, ◌≤◌, ◌<◌, Bool, true, ◌&&◌, ◌≡◌, List, [], ◌∷◌, Ord, arith, leb→le,
}
use finality_grandpa.VoterSet.{VoterInfo}
use finality_grandpa.VoterSet.Tally.{weights}
use finality_grandpa.VoterSet.Valid.{IsValid}
use finality_grandpa.VoterSet.Threshold.{threshold_of_overlap}
use finality_grandpa.Round.Context
use finality_grandpa.Round.Context.{Phase, VoteNode}
use finality_grandpa.Round.Context.Weight.{supporting, counts_for, weight_lem}
use finality_grandpa.Round.State.{Round, threshold, has_supermajority}

module _ {ℓ} {VoterId : Type ℓ} where
  supporting_both :
      (f g : ℕ → Bool) (m : List (VoterId × VoterInfo))
      → supporting f m + supporting g m ≤ supporting (λ i. f i && g i) m + weights m
  supporting_both f g [] = omega arith
  supporting_both f g ((id, v) ∷ m) = ground (arith, supporting_both f g m)

module _ {ℓ κ μ} {VoterId : Type ℓ} {H : Type κ} {S : Type μ} ⦃oi : Ord VoterId⦄ where
  -- When two vote-nodes of a round of valid voters both have a supermajority in a phase, the voters
  -- who count for both weigh more than the weight that may be faulty, the total less the threshold.
  pub has_supermajority_overlap :
      (r : Round VoterId H S) (p : Phase) (a b : VoteNode)
      → IsValid r.context.voters
      → has_supermajority r p a ≡ true
      → has_supermajority r p b ≡ true
      → r.context.voters.total_weight - threshold r
        < supporting
            (λ i. counts_for r.context a p i && counts_for r.context b p i)
            r.context.voters.voters
  unfolding has_supermajority
  has_supermajority_overlap r p a b valid ha hb =
      let wa : threshold r ≤ Context.weight r.context a p = leb→le _ _ ha in
      let wb : threshold r ≤ Context.weight r.context b p = leb→le _ _ hb in
      omega (
        arith,
        threshold_of_overlap r.context.voters.total_weight (threshold r)
            (Context.weight r.context a p) (Context.weight r.context b p) valid.positive
            valid.supermajority wa wb,
        weight_lem r.context a p valid,
        weight_lem r.context b p valid,
        supporting_both (counts_for r.context a p) (counts_for r.context b p)
            r.context.voters.voters,
        valid.summed,
      )
