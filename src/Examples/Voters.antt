-- ===== src/Examples/Voters.antt =====
-- Voters 1 to 4, of weight 1 each.
use finality_grandpa.Base.{
  nat_ord, ℕ, zero, suc, ◌*◌, ◌≤◌, ◌<◌, ◌≡◌, refl, ok, some, none, List, [], ◌∷◌, arith, get_elem?,
  ◌⊎◌, length, ◌%◌,
}
use mathlib.Core.List.{Permᴰ}
use finality_grandpa.Base.BTreeMap
use finality_grandpa.VoterSet.{VoterSet, VoterInfo, threshold_of, nth_mod, new}
use finality_grandpa.VoterSet.Valid.{IsValid, Holds, new_lem, nth_mod_lem}
use finality_grandpa.VoterSet.Threshold.{threshold_of_least}
use finality_grandpa.VoterSet.Tally.{sum, weight_of}
use finality_grandpa.VoterSet.Order.{new-perm}
use finality_grandpa.Weights.{u64_max}

abbrev pub four_voters : VoterSet ℕ
four_voters = record {
  voters =
      (1, record { weight = 1; position = 0 })
      ∷ (2, record { weight = 1; position = 1 })
      ∷ (3, record { weight = 1; position = 2 })
      ∷ (4, record { weight = 1; position = 3 })
      ∷ [];
  threshold = 3;
  total_weight = 4;
}

four_voters_placed :
    (n : ℕ) (id : ℕ) (v : VoterInfo)
    → get_elem? four_voters.voters n ≡ some (id, v)
    → v.position ≡ n
four_voters_placed zero id v e = ground (arith, e)
four_voters_placed (suc zero) id v e = ground (arith, e)
four_voters_placed (suc (suc zero)) id v e = ground (arith, e)
four_voters_placed (suc (suc (suc zero))) id v e = ground (arith, e)
four_voters_placed (suc (suc (suc (suc n)))) id v e = ground (arith, e)

pub four_voters-IsValid : IsValid four_voters
unfolding threshold_of
four_voters-IsValid = record {
  sorted = ((refl, (refl, (refl, tt))), ((refl, (refl, tt)), ((refl, tt), (tt, tt))));
  placed = four_voters_placed;
  summed = refl;
  positive = omega arith;
  bounded = omega arith;
  supermajority = refl;
}

new-four_voters : new ((3, 1) ∷ (1, 1) ∷ (4, 1) ∷ (2, 1) ∷ (7, 0) ∷ []) ≡ ok (some four_voters)
unfolding new BTreeMap.get BTreeMap.insert
new-four_voters = refl

new-none : new {VoterId = ℕ} ((3, 0) ∷ []) ≡ ok none
unfolding new BTreeMap.get BTreeMap.insert
new-none = refl

abbrev distribution : List (ℕ × ℕ)
distribution = (3, 1) ∷ (1, 2) ∷ (3, 4) ∷ []

new_lem_example :
    (((sum distribution ≡ 0) ⊎ (u64_max < sum distribution)) × (new distribution ≡ ok none))
    ⊎ ((vs : VoterSet ℕ) × (new distribution ≡ ok (some vs))
        × Holds (weight_of distribution) (sum distribution) vs)
new_lem_example = new_lem distribution

new-perm_example : new distribution ≡ new ((1, 2) ∷ (3, 1) ∷ (3, 4) ∷ [])
new-perm_example = new-perm distribution ((1, 2) ∷ (3, 1) ∷ (3, 4) ∷ []) ∣ Permᴰ.swap refl refl ∣₁

nth_mod_lem_example :
    (id : ℕ) × (v : VoterInfo) × (nth_mod four_voters 6 ≡ ok (id, v))
    × (get_elem? four_voters.voters (6 % length four_voters.voters) ≡ some (id, v))
    × (v.position ≡ 6 % length four_voters.voters)
nth_mod_lem_example = nth_mod_lem four_voters 6 four_voters-IsValid

threshold_of_least_example :
    (t : ℕ) × (threshold_of 10 ≡ ok t) × (2 * 10 < 3 * t) × ((w : ℕ) → 2 * 10 < 3 * w → t ≤ w)
threshold_of_least_example = threshold_of_least 10 (omega arith)
