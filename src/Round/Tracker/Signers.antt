-- ===== src/Round/Tracker/Signers.antt =====
-- Who has a vote in a tracker.
use finality_grandpa.Base.{
  Bool, true, Ord, Eq, ◌≡◌, arith, inl, inr, Option-cases, Bool-cases, List, [], ◌∷◌, ◌≤◌,
  if◌then◌else◌, ℕ, ◌+◌,
}
use finality_grandpa.Base.BTreeMap
use finality_grandpa.Base.BTreeMap.{BTreeMap, get-insert}
use finality_grandpa.Weights.{VoterWeight}
use finality_grandpa.VoterSet.{VoterInfo}
use finality_grandpa.Round.Tracker.{VoteTracker, VoteMultiplicity, add_vote, contains, second_vote}
use finality_grandpa.Round.Tracker.Weight.{weight_of_keys}

module _ {ℓ κ} {VoterId : Type ℓ} {M : Type κ} ⦃o : Ord VoterId⦄ where
  -- Every key of the map is one of the ids.
  abbrev pub KeysAmong : (VoterId → Bool) → BTreeMap VoterId M → Type ℓ
  KeysAmong ids m = (j : VoterId) → BTreeMap.contains_key m j ≡ true → ids j ≡ true

  insert-KeysAmong :
      (ids : VoterId → Bool) (m : BTreeMap VoterId M) (k : VoterId) (x : M)
      → ids k ≡ true
      → KeysAmong ids m
      → KeysAmong ids (BTreeMap.insert m k x)
  insert-KeysAmong ids m k x new old j h =
      ground (arith, get-insert m k j x, old j, o.cmp_eq k j, o.cmp_eq j k)

module _ {ℓ} {VoterId : Type ℓ} where
  -- The sum of the weights of the voters that are among the ids.
  abbrev pub weight_among : (VoterId → Bool) → List (VoterId × VoterInfo) → ℕ
  weight_among ids [] = 0
  weight_among ids ((id, v) ∷ vs) = (if ids id then v.weight else 0) + weight_among ids vs

module _ {ℓ κ} {VoterId : Type ℓ} {M : Type κ} ⦃o : Ord VoterId⦄ where
  pub weight_of_keys-among :
      (ids : VoterId → Bool) (m : BTreeMap VoterId M) (vs : List (VoterId × VoterInfo))
      → KeysAmong ids m
      → weight_of_keys m vs ≤ weight_among ids vs
  weight_of_keys-among ids m [] h = omega arith
  weight_of_keys-among ids m ((id, v) ∷ vs) h =
      ground (arith, weight_of_keys-among ids m vs h, h id)

module _ {ℓ κ μ} {VoterId : Type ℓ} {V : Type κ} {S : Type μ} ⦃o : Ord VoterId⦄ ⦃ev : Eq V⦄
    ⦃es : Eq S⦄ where
  pub add_vote-KeysAmong :
      (ids : VoterId → Bool) (t : VoteTracker VoterId V S) (id : VoterId) (vote : V) (signature : S)
      (weight : VoterWeight)
      → ids id ≡ true
      → KeysAmong ids t.votes
      → KeysAmong ids (add_vote t id vote signature weight).0.votes
  unfolding add_vote
  add_vote-KeysAmong ids t id vote signature weight new old =
      elim (Option-cases (BTreeMap.get t.votes id)) [
        | inl e ↦
            rw (e, add_vote)
              (insert-KeysAmong ids t.votes id (VoteMultiplicity.single vote signature) new old)
        | inr (occupied, e) ↦ elim (Bool-cases (contains occupied vote signature)) [
          | inl again ↦ rw (e, add_vote) (rw again old)
          | inr other ↦ elim (Option-cases (second_vote occupied vote signature)) [
            | inl ignored ↦ rw (e, add_vote) (rw other (rw ignored old))
            | inr (both, e') ↦
                rw (e, add_vote) (rw other (rw e' (insert-KeysAmong ids t.votes id both new old)))
          ]
        ]
      ]
