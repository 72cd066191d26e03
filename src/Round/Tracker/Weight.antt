-- ===== src/Round/Tracker/Weight.antt =====
-- The weight that a tracker counts is that of the voters whose votes it holds.
use finality_grandpa.Base.{
  ℕ, ◌+◌, ◌≤◌, ◌≡◌, refl, ◌∙◌, sym, none, some, List, [], ◌∷◌, Ord, Eq, if◌then◌else◌, arith, inl,
  inr, Option-cases, Bool-cases,
}
use finality_grandpa.Base.BTreeMap
use finality_grandpa.Base.BTreeMap.{BTreeMap, IsSorted, Above, get-insert, get-Above, Above-trans}
use finality_grandpa.VoterSet
use finality_grandpa.VoterSet.{VoterSet, VoterInfo}
use finality_grandpa.VoterSet.Tally.{weights}
use finality_grandpa.VoterSet.Valid.{IsValid}
use finality_grandpa.Round.Tracker.{VoteTracker, VoteMultiplicity, add_vote, contains, second_vote}

module _ {ℓ κ} {VoterId : Type ℓ} {M : Type κ} ⦃o : Ord VoterId⦄ where
  -- The sum of the weights of the voters with an entry in the map.
  abbrev pub weight_of_keys : BTreeMap VoterId M → List (VoterId × VoterInfo) → ℕ
  weight_of_keys m [] = 0
  weight_of_keys m ((id, v) ∷ vs) =
      (if BTreeMap.contains_key m id then v.weight else 0) + weight_of_keys m vs

  pub weight_of_keys-le :
      (m : BTreeMap VoterId M) (vs : List (VoterId × VoterInfo)) → weight_of_keys m vs ≤ weights vs
  weight_of_keys-le m [] = omega arith
  weight_of_keys-le m ((id, v) ∷ vs) = ground (arith, weight_of_keys-le m vs)

  -- A key that no voter of the list has makes no difference.
  weight_of_keys_other :
      (m : BTreeMap VoterId M) (k : VoterId) (x : M) (vs : List (VoterId × VoterInfo))
      → Above k vs
      → weight_of_keys (BTreeMap.insert m k x) vs ≡ weight_of_keys m vs
  weight_of_keys_other m k x [] a = refl
  weight_of_keys_other m k x ((id, v) ∷ vs) a =
      ground (arith, weight_of_keys_other m k x vs a.1, get-insert m k id x, o.cmp_flip k id, a.0)

  -- An entry for a further voter adds the weight of that voter.
  pub weight_of_keys-insert :
      (m : BTreeMap VoterId M) (k : VoterId) (x : M) (vs : List (VoterId × VoterInfo))
      (v : VoterInfo)
      → IsSorted vs
      → BTreeMap.get vs k ≡ some v
      → BTreeMap.get m k ≡ none
      → weight_of_keys (BTreeMap.insert m k x) vs ≡ weight_of_keys m vs + v.weight
  unfolding BTreeMap.get
  weight_of_keys-insert m k x [] v s found new = cc
  weight_of_keys-insert m k x ((id, w) ∷ vs) v s found new = ground (
    arith,
    weight_of_keys-insert m k x vs v s.1,
    weight_of_keys_other m k x vs,
    get-Above vs k,
    Above-trans k id vs,
    s.0,
    get-insert m k id x,
    o.cmp_eq id k,
    o.cmp_eq k id,
    o.cmp_flip k id,
  )

  -- A further vote of a voter with an entry adds nothing.
  pub weight_of_keys_again :
      (m : BTreeMap VoterId M) (k : VoterId) (x y : M) (vs : List (VoterId × VoterInfo))
      → BTreeMap.get m k ≡ some y
      → weight_of_keys (BTreeMap.insert m k x) vs ≡ weight_of_keys m vs
  weight_of_keys_again m k x y [] old = refl
  weight_of_keys_again m k x y ((id, v) ∷ vs) old =
      ground (arith, weight_of_keys_again m k x y vs old, get-insert m k id x, o.cmp_eq id k)

module _ {ℓ κ μ} {VoterId : Type ℓ} {V : Type κ} {S : Type μ} ⦃o : Ord VoterId⦄ ⦃ev : Eq V⦄
    ⦃es : Eq S⦄ where
  -- The weight of a tracker is the weight of the voters with a vote in it.
  abbrev pub IsWeighed : VoterSet VoterId → VoteTracker VoterId V S → Type 0
  IsWeighed vs t = t.current_weight ≡ weight_of_keys t.votes vs.voters

  -- Adding any vote of a voter keeps a tracker weighed, be it the first vote of the voter, the same
  -- vote again, an equivocation or a further vote, when the voter set is valid and the weight given is
  -- the voter's: the tracker's weight is that of the voters with a vote in it, without saturation.
  pub add_vote-IsWeighed :
      (vs : VoterSet VoterId) (t : VoteTracker VoterId V S) (id : VoterId) (vote : V)
      (signature : S) (info : VoterInfo)
      → IsValid vs
      → VoterSet.get vs id ≡ some info
      → IsWeighed vs t
      → IsWeighed vs (add_vote t id vote signature info.weight).0
  unfolding add_vote VoterSet.get
  add_vote-IsWeighed vs t id vote signature info valid voter h =
      elim (Option-cases (BTreeMap.get t.votes id)) [
        | inl new ↦
            let x = VoteMultiplicity.single vote signature in
            let grows = weight_of_keys-insert t.votes id x vs.voters info valid.sorted voter new in
            rw (new, add_vote)
              (omega (
                arith,
                grows,
                weight_of_keys-le (BTreeMap.insert t.votes id x) vs.voters,
                valid.summed,
                valid.bounded,
              ))
        | inr (occupied, old) ↦ elim (Bool-cases (contains occupied vote signature)) [
          | inl again ↦ rw (old, add_vote) (rw again h)
          | inr other ↦ elim (Option-cases (second_vote occupied vote signature)) [
            | inl ignored ↦ rw (old, add_vote) (rw other (rw ignored h))
            | inr (both, e) ↦
                rw (old, add_vote)
                  (rw other
                    (rw e (h ∙ sym (weight_of_keys_again t.votes id both occupied vs.voters old))))
          ]
        ]
      ]
