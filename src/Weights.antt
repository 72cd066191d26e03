-- ===== src/Weights.antt =====
-- src/weights.rs: the arithmetic of vote weights. A weight is a `u64`, kept as a number: the bounds
-- stand in the invariants of what holds it. `Display` and `TryFrom` only format and convert.
use finality_grandpa.Base.{
  ℕ, zero, suc, ◌+◌, ◌-◌, ◌^◌, ◌%◌, min, Bool, Option, none, some, leb, if◌then◌else◌,
}

-- `VoteWeight(u64)`: the accumulated weight of any number of voters.
abbrev pub VoteWeight : Type 0
VoteWeight = ℕ

-- `VoterWeight(NonZeroU64)`: the weight of a voter, made by `voter_weight` alone.
abbrev pub VoterWeight : Type 0
VoterWeight = ℕ

abbrev pub u64_max : ℕ
u64_max = 2 ^ 64 - 1

-- `u64::saturating_add`, `u64::saturating_sub`, `u64::checked_add` and the wrapping `+`.
abbrev pub saturating_add : ℕ → ℕ → ℕ
saturating_add a b = min (a + b) u64_max

abbrev pub saturating_sub : ℕ → ℕ → ℕ
saturating_sub a b = a - b

abbrev pub checked_add : ℕ → ℕ → Option ℕ
checked_add a b = if leb (a + b) u64_max then some (a + b) else none

abbrev pub wrapping_add : ℕ → ℕ → ℕ
wrapping_add a b = (a + b) % 2 ^ 64

-- `VoterWeight::new`
abbrev pub voter_weight : ℕ → Option VoterWeight
voter_weight zero = none
voter_weight (suc n) = some (suc n)

-- `Add` for `VoteWeight`, with a vote weight or a voter weight on the right.
abbrev pub add : VoteWeight → VoteWeight → VoteWeight
add a b = saturating_add a b

-- `Sub` for `VoteWeight` and `VoterWeight`, with either on the right.
abbrev pub sub : VoteWeight → VoteWeight → VoteWeight
sub a b = saturating_sub a b

-- `weight >= threshold`, by `PartialOrd<VoterWeight>`.
abbrev pub reaches : VoteWeight → VoterWeight → Bool
reaches weight threshold = leb threshold weight
