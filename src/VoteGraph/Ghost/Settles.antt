-- ===== src/VoteGraph/Ghost/Settles.antt =====
-- The search loop of `find_ghost` has enough fuel: a round at the start, one for each vote-node and
-- one more.
use finality_grandpa.Base.{ℕ, Bool, Option, none, some, Ord, Outcome, ok, err, panic}
use finality_grandpa.Base.BTreeMap
use finality_grandpa.Base.BTreeMap.{BTreeMap}
use finality_grandpa.VoteGraph.{Entry}
use finality_grandpa.VoteGraph.Ghost.{next_descendent, descend}

module _ {ℓ κ} {H : Type ℓ} {V : Type κ} where
  -- Where a round goes.
  abbrev next_key : Outcome (Option (H × Entry H V)) → Option (Option H)
  next_key (ok none) = some none
  next_key (ok (some (key, node))) = some (some key)
  next_key (err e) = none
  next_key panic = none

module _ {ℓ κ} {H : Type ℓ} {V : Type κ} ⦃o : Ord H⦄ (m : BTreeMap H (Entry H V))
    (condition : V → Bool) where
  -- A round of the loop at a vote-node.
  unfoldable pub down : H → Option (Option H)
  down key = elim (BTreeMap.get m key) [
    | none ↦ none
    | some node ↦ next_key (next_descendent m none condition node.descendents)
  ]

  -- How the loop goes on after a round.
  abbrev Result : Type (ℓ ⊔ κ)
  Result = Outcome (H × Entry H V × Option (H × ℕ))

  abbrev go_on : ℕ → H → Entry H V → Option (H × ℕ) → Outcome (Option (H × Entry H V)) → Result
  go_on n key node constraint (ok none) = ok (key, node, constraint)
  go_on n key node constraint (ok (some (key', node'))) = descend n m none condition key' node'
  go_on n key node constraint (err e) = err e
  go_on n key node constraint panic = panic

  -- The search at one vote-node, which the constraint does not bind.
  abbrev search : ℕ → H → Entry H V → Result
  search n key node = descend n m none condition key node
