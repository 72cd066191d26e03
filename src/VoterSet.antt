-- ===== src/VoterSet.antt =====
-- src/voter_set.rs: the voters of a round, in the order of their ids, with their weights.
pub mod Threshold
pub mod Tally
pub mod Valid
pub mod Order
use finality_grandpa.Base.{
  ℕ, suc, ◌-◌, ◌/◌, ◌%◌, Option, none, some, Outcome, ok, expect, ◌>>=◌, List, [], ◌∷◌, length,
  get_elem?, Ord, Bool,
}
use finality_grandpa.Base.BTreeMap
use finality_grandpa.Base.BTreeMap.{BTreeMap}
use finality_grandpa.Weights.{VoterWeight, voter_weight, checked_add, wrapping_add, saturating_sub}

pub record VoterInfo : Type 0 where
  pub position : ℕ
  pub weight : VoterWeight

pub record VoterSet {ℓ} (VoterId : Type ℓ) : Type ℓ where
  pub voters : List (VoterId × VoterInfo)
  pub threshold : VoterWeight
  pub total_weight : VoterWeight

-- `fn threshold`
unfoldable pub threshold_of : VoterWeight → Outcome VoterWeight
threshold_of total =
    let faulty = saturating_sub total 1 / 3 in expect (voter_weight (total - faulty))

module _ {ℓ} {VoterId : Type ℓ} where
  -- `.enumerate()`: each voter takes its place in the order of the ids.
  unfoldable pub enumerate : ℕ → BTreeMap VoterId VoterInfo → List (VoterId × VoterInfo)
  enumerate i [] = []
  enumerate i ((id, info) ∷ m) = (id, record info { position = i }) ∷ enumerate (suc i) m

  -- What follows the loop of `VoterSet::new`.
  unfoldable pub finish : BTreeMap VoterId VoterInfo → ℕ → Outcome (Option (VoterSet VoterId))
  unfolding threshold_of enumerate
  finish [] total = ok none
  finish (v ∷ vs) total = do
    total_weight ← expect (voter_weight total)
    threshold ← threshold_of total_weight
    ok (
        some (record {
          voters = enumerate 0 (v ∷ vs);
          threshold = threshold;
          total_weight = total_weight;
        }))

  -- `VoterSet::nth`
  unfoldable pub nth : VoterSet VoterId → ℕ → Option (VoterId × VoterInfo)
  nth vs n = get_elem? vs.voters n

  -- `VoterSet::nth_mod`
  unfoldable pub nth_mod : VoterSet VoterId → ℕ → Outcome (VoterId × VoterInfo)
  unfolding nth
  nth_mod vs n = expect (nth vs (n % length vs.voters))

module _ {ℓ} {VoterId : Type ℓ} ⦃o : Ord VoterId⦄ where
  -- The match on `voters.entry(id)`: the partial weights of one voter add up.
  unfoldable pub accumulate :
      BTreeMap VoterId VoterInfo → VoterId → ℕ → Outcome (BTreeMap VoterId VoterInfo)
  accumulate m id w = elim (BTreeMap.get m id) [
    | none ↦ ok (BTreeMap.insert m id (record { position = 0; weight = w }))
    | some v ↦ do
      n ← expect (voter_weight (wrapping_add v.weight w))
      ok (BTreeMap.insert m id (record v { weight = n }))
  ]

  -- The loop of `VoterSet::new`; `ok none` is its early return on overflow.
  unfoldable pub add_all :
      List (VoterId × ℕ)
      → BTreeMap VoterId VoterInfo
      → ℕ
      → Outcome (Option (BTreeMap VoterId VoterInfo × ℕ))
  unfolding accumulate
  add_all [] m total = ok (some (m, total))
  add_all ((id, w) ∷ ws) m total = elim (voter_weight w) [
    | none ↦ add_all ws m total
    | some _ ↦ elim (checked_add total w) [
      | none ↦ ok none
      | some total' ↦ accumulate m id w >>= λ m'. add_all ws m' total'
    ]
  ]

  finish_some : Option (BTreeMap VoterId VoterInfo × ℕ) → Outcome (Option (VoterSet VoterId))
  unfolding finish
  finish_some none = ok none
  finish_some (some (m, total)) = finish m total

  -- `VoterSet::new`
  unfoldable pub new : List (VoterId × ℕ) → Outcome (Option (VoterSet VoterId))
  unfolding add_all finish_some
  new ws = add_all ws [] 0 >>= finish_some

  -- `VoterSet::get`: the binary search of the sorted vector finds the entry of the id, if any.
  unfoldable pub get : VoterSet VoterId → VoterId → Option VoterInfo
  get vs id = BTreeMap.get vs.voters id

  -- `VoterSet::contains`
  unfoldable pub contains : VoterSet VoterId → VoterId → Bool
  contains vs id = BTreeMap.contains_key vs.voters id
