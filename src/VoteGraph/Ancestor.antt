-- ===== src/VoteGraph/Ancestor.antt =====
-- `VoteGraph::cumulative_vote` and `VoteGraph::find_ancestor`.
pub mod Walk
pub mod Settles
use finality_grandpa.Base.{
  ℕ, zero, suc, ◌+◌, ◌*◌, ◌-◌, length, max, Bool, true, false, Option, none, some, List, [], ◌∷◌,
  first, last, get_elem?, Ord, Outcome, ok, err, panic, expect, ◌>>=◌,
}
use finality_grandpa.Base.BTreeMap
use finality_grandpa.Base.BTreeMap.{BTreeMap}
use finality_grandpa.VoteGraph.{VoteGraph, VoteData, Entry, max_number}
use finality_grandpa.VoteGraph.Search.{find_containing_nodes}

-- One round of the loop of `find_ancestor`: it returns from the loop, or goes on at a parent.
pub data Round {ℓ} (H : Type ℓ) : Type ℓ where
  finished : Option (H × ℕ) → Round H
  parent : H → ℕ → Round H

-- The parent of a block with a number, one below it. Below number 0 the subtraction fails.
unfoldable pub step_to {ℓ} : {H : Type ℓ} → H → ℕ → Outcome (Round H)
step_to a zero = panic
step_to a (suc number) = ok (parent a number)

module _ {ℓ κ} {H : Type ℓ} {V : Type κ} ⦃o : Ord H⦄ ⦃d : VoteData V⦄ where
  -- `v += &get_node(node).cumulative_vote` for each node.
  unfoldable pub sum_votes : BTreeMap H (Entry H V) → V → List H → Outcome V
  sum_votes m v [] = ok v
  sum_votes m v (node ∷ nodes) = do
    entry ← expect (BTreeMap.get m node)
    sum_votes m (d.add v entry.cumulative_vote) nodes

  -- `VoteGraph::cumulative_vote`
  unfoldable pub cumulative_vote : VoteGraph H V → H → ℕ → Outcome V
  unfolding sum_votes
  cumulative_vote g hash number = do
    containing ← find_containing_nodes g hash number
    elim containing [
      | none ↦ expect (BTreeMap.get g.entries hash) >>= λ entry. ok entry.cumulative_vote
      | some nodes ↦ sum_votes g.entries d.default nodes
    ]

  -- The round at a block with a vote-node.
  unfoldable pub at_node : Entry H V → H → ℕ → (V → Bool) → Outcome (Round H)
  unfolding step_to
  at_node node hash number condition = elim (condition node.cumulative_vote) [
    | true ↦ ok (finished (some (hash, number)))
    | false ↦ elim (first node.ancestors) [
      | none ↦ ok (finished none)
      | some a ↦ step_to a node.number
    ]
  ]

  -- The round at a block in the ancestor edges of `children`.
  unfoldable pub at_edge : BTreeMap H (Entry H V) → List H → H → ℕ → (V → Bool) → Outcome (Round H)
  unfolding sum_votes step_to
  at_edge m [] hash number condition = ok (finished none)
  at_edge m (c ∷ children) hash number condition = do
    v ← sum_votes m d.default (c ∷ children)
    elim (condition v) [
      | true ↦ ok (finished (some (hash, number)))
      | false ↦ do
        child ← expect (last (c ∷ children))
        entry ← expect (BTreeMap.get m child)
        elim (get_elem? entry.ancestors (entry.number - number)) [
          | none ↦ ok (finished none)
          | some a ↦ step_to a number
        ]
    ]

  unfoldable pub ancestor_round : VoteGraph H V → H → ℕ → (V → Bool) → Outcome (Round H)
  unfolding at_node at_edge
  ancestor_round g hash number condition = do
    containing ← find_containing_nodes g hash number
    elim containing [
      | none ↦ do node ← expect (BTreeMap.get g.entries hash); at_node node hash number condition
      | some children ↦ at_edge g.entries children hash number condition
    ]

  unfoldable pub find_ancestor_from :
      ℕ → VoteGraph H V → H → ℕ → (V → Bool) → Outcome (Option (H × ℕ))
  unfolding ancestor_round
  find_ancestor_from zero g hash number condition = panic
  find_ancestor_from (suc fuel) g hash number condition =
      elim (ancestor_round g hash number condition) [
        | ok round ↦ elim round [
          | finished r ↦ ok r
          | parent h n ↦ find_ancestor_from fuel g h n condition
        ]
        | err e ↦ err e
        | panic ↦ panic
      ]

  -- The fuel of `find_ancestor`: for each vote-node, and once more, a round for each number up to the
  -- highest one.
  unfoldable pub rounds : VoteGraph H V → ℕ → ℕ
  rounds g number =
      let bound = max number (max_number g.entries) in suc (length g.entries * suc bound + bound)

  -- `VoteGraph::find_ancestor`
  unfoldable pub find_ancestor : VoteGraph H V → H → ℕ → (V → Bool) → Outcome (Option (H × ℕ))
  unfolding find_ancestor_from rounds
  find_ancestor g hash number condition =
      find_ancestor_from (rounds g number) g hash number condition
