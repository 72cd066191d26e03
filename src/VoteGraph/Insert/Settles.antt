-- ===== src/VoteGraph/Insert/Settles.antt =====
-- The loop of `insert` has enough fuel: one round for each vote-node and one more.
use finality_grandpa.Base.{Option, none, some, Ord}
use finality_grandpa.Base.BTreeMap
use finality_grandpa.Base.BTreeMap.{BTreeMap}
use finality_grandpa.VoteGraph.{Entry, ancestor_node}

module _ {ℓ κ} {H : Type ℓ} {V : Type κ} ⦃o : Ord H⦄ where
  -- Where a round of the loop goes: to the ancestor node, if the entry is there.
  unfoldable pub edge : BTreeMap H (Entry H V) → H → Option (Option H)
  edge m h = elim (BTreeMap.get m h) [ none ↦ none | some e ↦ some (ancestor_node e) ]

module _ {ℓ κ μ} {H : Type ℓ} {V : Type κ} {W : Type μ} ⦃o : Ord H⦄ (add_vote : V → W → V)
    (vote : W) where
  abbrev voted : Entry H V → Entry H V
  voted e = record e { cumulative_vote = add_vote e.cumulative_vote vote }
