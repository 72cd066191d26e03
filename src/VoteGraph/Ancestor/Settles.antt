-- ===== src/VoteGraph/Ancestor/Settles.antt =====
-- The loop of `find_ancestor` has enough fuel. Between two vote-nodes the number falls in each round,
-- and a loop that ends comes to no vote-node twice.
use finality_grandpa.Base.{ℕ, Bool, true, false, Option, Ord, Outcome, ok, err, panic}
use finality_grandpa.Base.BTreeMap
use finality_grandpa.Base.BTreeMap.{BTreeMap}
use finality_grandpa.Base.BTreeSet
use finality_grandpa.Base.BTreeSet.{BTreeSet}
use finality_grandpa.VoteGraph.{VoteGraph, VoteData}
use finality_grandpa.VoteGraph.Ancestor.{Round, finished, parent, find_ancestor_from}

abbrev is_ok {ℓ} : {A : Type ℓ} → Outcome A → Bool
is_ok (ok a) = true
is_ok (err e) = false
is_ok panic = false

module _ {ℓ κ} {H : Type ℓ} {V : Type κ} ⦃o : Ord H⦄ ⦃d : VoteData V⦄ (g : VoteGraph H V)
    (condition : V → Bool) where
  abbrev search : ℕ → H → ℕ → Outcome (Option (H × ℕ))
  search k h n = find_ancestor_from k g h n condition

  -- How the loop goes on after a round.
  abbrev go_on : ℕ → Outcome (Round H) → Outcome (Option (H × ℕ))
  go_on k (ok (finished r)) = ok r
  go_on k (ok (parent h n)) = search k h n
  go_on k (err e) = err e
  go_on k panic = panic
