-- ===== src/VoterSet/Threshold.antt =====
-- The supermajority threshold of src/voter_set.rs.
use finality_grandpa.Base.{ℕ, zero, suc, ◌+◌, ◌-◌, ◌*◌, ◌/◌, ◌≤◌, ◌<◌, ◌≡◌, ok, arith}
use finality_grandpa.VoterSet.{threshold_of}

pub threshold_of_eq : (total : ℕ) → 0 < total → threshold_of total ≡ ok (total - (total - 1) / 3)
unfolding threshold_of
threshold_of_eq zero h = absurd (omega arith)
threshold_of_eq (suc n) h = ground arith

-- For a positive total weight the threshold is a number, and it is the least weight that is more
-- than two thirds of the total.
pub threshold_of_least :
    (total : ℕ)
    → 0 < total
    → (t : ℕ) × (threshold_of total ≡ ok t)
      × (2 * total < 3 * t)
      × ((w : ℕ) → 2 * total < 3 * w → t ≤ w)
threshold_of_least total h =
    (total - (total - 1) / 3, threshold_of_eq total h, omega arith, λ w k. omega arith)

-- Two weights that reach the threshold overlap by more than the tolerated faulty weight.
pub threshold_of_overlap :
    (total t a b : ℕ)
    → 0 < total
    → threshold_of total ≡ ok t
    → t ≤ a
    → t ≤ b
    → total + (total - t) < a + b
threshold_of_overlap total t a b h e ha hb = ground (arith, threshold_of_eq total h)
