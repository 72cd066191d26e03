-- ===== src/Round/Tracker.antt =====
-- `VoteTracker` of src/round.rs: the votes of one phase, by voter.
pub mod Signers
pub mod Weight
use finality_grandpa.Base.{
  ℕ, Bool, true, false, ◌&&◌, ◌||◌, Option, none, some, List, [], ◌∷◌, length, Ord, Eq,
  if◌then◌else◌,
}
use finality_grandpa.Base.BTreeMap
use finality_grandpa.Base.BTreeMap.{BTreeMap}
use finality_grandpa.Weights.{VoteWeight, VoterWeight, add}

pub data VoteMultiplicity {ℓ κ} (V : Type ℓ) (S : Type κ) : Type (ℓ ⊔ κ) where
  single : V → S → VoteMultiplicity V S
  equivocated : V × S → V × S → VoteMultiplicity V S

pub record VoteTracker {ℓ κ μ} (VoterId : Type ℓ) (V : Type κ) (S : Type μ) : Type (ℓ ⊔ κ ⊔ μ) where
  pub votes : BTreeMap VoterId (VoteMultiplicity V S)
  pub current_weight : VoteWeight

pub record AddVoteResult {ℓ κ} (V : Type ℓ) (S : Type κ) : Type (ℓ ⊔ κ) where
  pub multiplicity : Option (VoteMultiplicity V S)
  pub duplicated : Bool

module _ {ℓ κ μ} {VoterId : Type ℓ} {V : Type κ} {S : Type μ} where
  -- `VoteTracker::new`
  abbrev pub no_tracked : VoteTracker VoterId V S
  no_tracked = record { votes = []; current_weight = 0 }

  -- `VoteTracker::votes`
  unfoldable pub all_votes : BTreeMap VoterId (VoteMultiplicity V S) → List (VoterId × V × S)
  all_votes [] = []
  all_votes ((id, VoteMultiplicity.single v s) ∷ m) = (id, v, s) ∷ all_votes m
  all_votes ((id, VoteMultiplicity.equivocated (v1, s1) (v2, s2)) ∷ m) =
      (id, v1, s1) ∷ (id, v2, s2) ∷ all_votes m

  -- `VoteTracker::participation`
  unfoldable pub participation : VoteTracker VoterId V S → VoteWeight × ℕ
  participation t = (t.current_weight, length t.votes)

module _ {κ μ} {V : Type κ} {S : Type μ} ⦃ev : Eq V⦄ ⦃es : Eq S⦄ where
  -- `VoteMultiplicity::contains`
  unfoldable pub contains : VoteMultiplicity V S → V → S → Bool
  contains (VoteMultiplicity.single v s) vote signature = ev.beq v vote && es.beq s signature
  contains (VoteMultiplicity.equivocated (v1, s1) (v2, s2)) vote signature =
      (ev.beq v1 vote && es.beq s1 signature) || (ev.beq v2 vote && es.beq s2 signature)

  -- The match on an occupied entry that does not have the vote: further equivocations are ignored.
  unfoldable pub second_vote : VoteMultiplicity V S → V → S → Option (VoteMultiplicity V S)
  second_vote (VoteMultiplicity.single v s) vote signature =
      some (VoteMultiplicity.equivocated (v, s) (vote, signature))
  second_vote (VoteMultiplicity.equivocated a b) vote signature = none

module _ {ℓ κ μ} {VoterId : Type ℓ} {V : Type κ} {S : Type μ} ⦃o : Ord VoterId⦄ ⦃ev : Eq V⦄
    ⦃es : Eq S⦄ where
  -- `VoteTracker::add_vote`
  unfoldable pub add_vote :
      VoteTracker VoterId V S
      → VoterId
      → V
      → S
      → VoterWeight
      → VoteTracker VoterId V S × AddVoteResult V S
  unfolding contains second_vote
  add_vote t id vote signature weight = elim (BTreeMap.get t.votes id) [
    | none ↦ (
      record {
        votes = BTreeMap.insert t.votes id (VoteMultiplicity.single vote signature);
        current_weight = add t.current_weight weight;
      },
      record { multiplicity = some (VoteMultiplicity.single vote signature); duplicated = false },
    )
    | some occupied ↦
        if contains occupied vote signature
        then (t, record { multiplicity = none; duplicated = true })
        else elim (second_vote occupied vote signature) [
          | none ↦ (t, record { multiplicity = none; duplicated = false })
          | some new_val ↦ (
            record t { votes = BTreeMap.insert t.votes id new_val },
            record { multiplicity = some new_val; duplicated = false },
          )
        ]
  ]
